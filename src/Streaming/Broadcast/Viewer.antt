-- ===== src/Streaming/Broadcast/Viewer.antt =====
-- A viewer of the messages of crates/streaming/src/broadcast.rs: it reads the frame type and the size in
-- the header, decompresses the payload and draws it. It models no file.
use native.Mathlib.Nat.{mod-eq_of_lt}
use mgba_server.Common.{
  ℕ, ◌+◌, ◌*◌, ◌/◌, ◌%◌, ◌<◌, ◌≡◌, refl, ap, ◌∙◌, false, List, [], ◌∷◌, Option, none, some, length,
  get_elem?, ◌==◌, if◌then◌else◌, Result, ok, err, arith,
}
use mgba_server.Common.Maybe.{◌>>=◌}
use mgba_server.Common.Bytes.{u16_mod, u32_mod}
use mgba_server.Streaming.Wire.{
  StreamFrameType, MetadataCodec, encode_stream_frame, encode_metadata, frame_header, EncodeParams,
  has_metadata, frame_type_byte, decode_stream_frame,
}
use mgba_server.Streaming.Wire.RoundTrip.{decode-encode_plain}
use mgba_server.Streaming.FrameHub.{RawFrame}
use mgba_server.Streaming.Pixels.Viewer.{Picture, show_keyframe, show_delta}
use mgba_server.Streaming.Broadcast.{Outside, encode_raw_frame}

abbrev pub payload_of {ℓ κ} : {E : Type κ} {A : Type ℓ} → Result E (A × List ℕ) → Option (List ℕ)
payload_of (ok (a, payload)) = some payload
payload_of (err e) = none

-- The number in two bytes.
abbrev pub number_at : ℕ → List ℕ → Option ℕ
number_at i bytes = do a ← get_elem? bytes i; b ← get_elem? bytes (i + 1); some (a * 256 + b)

-- By the type of the frame: 1 is a keyframe, 2 a delta; H.264 goes to another decoder.
abbrev pub shown : ℕ → (width height : ℕ) → (raw : List ℕ) → Picture → Option Picture
shown kind width height raw pic =
    if kind == 1
    then show_keyframe width height raw pic
    else if kind == 2
    then show_delta raw pic
    else some pic

module _ (codec : MetadataCodec) (inflate : List ℕ → List ℕ) where
  unfoldable pub view : List ℕ → Picture → Option Picture
  view message pic = do
    kind ← get_elem? message 5
    width ← number_at 16 message
    height ← number_at 18 message
    payload ← payload_of (decode_stream_frame codec message)
    shown kind width height (inflate payload) pic

  -- All messages, the latest first.
  unfoldable pub view_all : List (List ℕ) → Picture → Option Picture
  unfolding view
  view_all [] pic = some pic
  view_all (message ∷ earlier) pic = view_all earlier pic >>= λ pic'. view message pic'

u16_fields : (n : ℕ) → n < u16_mod → n / 256 % 256 * 256 + n % 256 ≡ n
u16_fields n h = omega arith

module _ (codec : MetadataCodec) (inflate : List ℕ → List ℕ) (p : EncodeParams codec.Float) where
  kind_field : get_elem? (encode_stream_frame codec p) 5 ≡ some (frame_type_byte p.frame_type)
  unfolding encode_stream_frame frame_header
  kind_field = refl

  width_field : p.width < u16_mod → number_at 16 (encode_stream_frame codec p) ≡ some p.width
  unfolding encode_stream_frame frame_header
  width_field h = ap some (u16_fields p.width h)

  height_field : p.height < u16_mod → number_at 18 (encode_stream_frame codec p) ≡ some p.height
  unfolding encode_stream_frame frame_header
  height_field h = ap some (u16_fields p.height h)

  view-encode_stream_frame :
      (pic : Picture)
      → has_metadata p.metadata ≡ false
      → p.width < u16_mod
      → p.height < u16_mod
      → length p.payload < u32_mod
      → view codec inflate (encode_stream_frame codec p) pic
        ≡ shown (frame_type_byte p.frame_type) p.width p.height (inflate p.payload) pic
  unfolding view
  view-encode_stream_frame pic plain hw hh hp =
      rw (kind_field, width_field hw, height_field hh, decode-encode_plain codec p plain hp) refl

module _ (outside : Outside) (inflate : List ℕ → List ℕ) where
  pub length-encode_raw_frame :
      (frame : RawFrame) (frame_type : StreamFrameType) (payload : List ℕ) (index tile_size : ℕ)
      → length (encode_raw_frame outside frame frame_type payload index tile_size)
        ≡ 34 + length payload
  unfolding encode_raw_frame encode_stream_frame encode_metadata frame_header
  length-encode_raw_frame frame frame_type payload index tile_size = omega arith

  -- The header's fields reach the viewer.
  pub view-encode_raw_frame :
      (frame : RawFrame) (frame_type : StreamFrameType) (payload : List ℕ) (index tile_size : ℕ)
      (pic : Picture)
      → frame.width < u16_mod
      → frame.height < u16_mod
      → length payload < u32_mod
      → view outside.codec inflate
          (encode_raw_frame outside frame frame_type payload index tile_size)
          pic
        ≡ shown (frame_type_byte frame_type) frame.width frame.height (inflate payload) pic
  unfolding encode_raw_frame
  view-encode_raw_frame frame frame_type payload index tile_size pic hw hh hp =
      let w = mod-eq_of_lt hw in
      let h = mod-eq_of_lt hh in
      view-encode_stream_frame outside.codec inflate _ pic refl (rw w hw) (rw h hh) hp
      ∙ rw (w, h) refl
