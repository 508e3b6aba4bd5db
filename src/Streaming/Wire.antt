-- ===== src/Streaming/Wire.antt =====
-- crates/streaming/src/protocol.rs: the frame header, `encode_stream_frame`, `encode_h264_frame` and
-- `decode_stream_frame`. A byte vector is a list of numbers; `u8`, `u16` and `u32` fields are numbers
-- whose range a theorem states where it needs it. `serde_json` is the parameter `MetadataCodec`, and
-- `f64` its type `Float`.
pub mod RoundTrip
pub mod Errors
mod Runs
use mgba_server.Common.{
  ℕ, ◌+◌, ◌%◌, ◌≡◌, Bool, true, false, not, ◌||◌, List, [], ◌∷◌, ◌++◌, Option, none, some, length,
  get_elem?, take, drop, ltb, ◌==◌, if◌then◌else◌, is_some, Result, ok, err,
}
use mgba_server.Common.Text.{Text, codes, text_beq}
use mgba_server.Common.Bytes.{be16, be32, from_be32, u32_mod}

abbrev pub stream_header_size : ℕ
stream_header_size = 34

abbrev pub stream_format : ℕ
stream_format = 2

-- b"PSMG"
abbrev pub magic : List ℕ
magic = b'P' ∷ b'S' ∷ b'M' ∷ b'G' ∷ []

pub data StreamFrameType : Type 0 where
  keyframe delta h264 : StreamFrameType

-- The `#[repr(u8)]` discriminant.
abbrev pub frame_type_byte : StreamFrameType → ℕ
frame_type_byte keyframe = 1
frame_type_byte delta = 2
frame_type_byte h264 = 3

-- mod flags
abbrev pub deflate_raw_flag : ℕ
deflate_raw_flag = 0x01

abbrev pub h264_payload_flag : ℕ
h264_payload_flag = 0x02

pub record CausalityMetadata (Float : Type 0) : Type 0 where
  pub control_event_id : Text
  pub action : Option Text
  pub actor_principal_id : Option Text
  pub button : Option Text
  pub input_completed_at_ms : Option Float
  pub input_latency_ms : Option Float
  pub input_requested_at_ms : Option Float
  pub request_id : Option Text
  pub source : Option Text

pub record StreamFrameMetadata (Float : Type 0) : Type 0 where
  pub causality : Option (CausalityMetadata Float)
  pub source_capture_started_at_ms : Option Float
  pub source_captured_at_ms : Option Float

-- `StreamFrameMetadata::default()`
abbrev pub default_metadata : {Float : Type 0} → StreamFrameMetadata Float
default_metadata = record {
  causality = none;
  source_capture_started_at_ms = none;
  source_captured_at_ms = none;
}

-- `serde_json::to_vec` and `serde_json::from_slice` at the metadata's type; `none` is an error.
pub record MetadataCodec : Type 1 where
  pub Float : Type 0
  pub to_vec : StreamFrameMetadata Float → Option (List ℕ)
  pub from_slice : List ℕ → Option (StreamFrameMetadata Float)

pub record EncodeParams (Float : Type 0) : Type 0 where
  pub frame_type : StreamFrameType
  pub instance_index : ℕ
  pub sequence : ℕ
  pub timestamp_ms : ℕ
  pub width : ℕ
  pub height : ℕ
  pub tile_size : ℕ
  pub raw_bytes : ℕ
  pub metadata : StreamFrameMetadata Float
  pub payload : List ℕ

pub data ProtocolError : Type 0 where
  too_large : ProtocolError
  invalid_json : Text → ProtocolError
  unknown_type : Text → ProtocolError

abbrev pub unwrap_or {ℓ} : {A : Type ℓ} → Option A → A → A
unwrap_or none d = d
unwrap_or (some a) d = a

abbrev pub has_metadata : {Float : Type 0} → StreamFrameMetadata Float → Bool
has_metadata m =
    is_some m.causality || is_some m.source_capture_started_at_ms || is_some m.source_captured_at_ms

-- What both encoders write in front of the metadata and the payload: 34 bytes.
unfoldable pub frame_header :
    StreamFrameType
    → (index flags sequence timestamp width height tile raw payload meta : ℕ) → List ℕ
unfolding be16 be32
frame_header ftype index flags sequence timestamp width height tile raw payload meta =
    magic
    ++ (stream_format
        ∷ (frame_type_byte ftype)
        ∷ index
        ∷ flags
        ∷ (be32 sequence
            ++ (be32 timestamp
                ++ (be16 width
                    ++ (be16 height ++ (be16 tile ++ (be32 raw ++ (be32 payload ++ be32 meta))))))))

-- `sequence` and the other header fields are native words; the lengths are cast by `as u32`.
unfoldable pub encode_h264_frame :
    List ℕ → (instance_index sequence timestamp_ms width height : ℕ) → List ℕ
unfolding frame_header
encode_h264_frame nal_data instance_index sequence timestamp_ms width height =
    frame_header h264 instance_index h264_payload_flag sequence timestamp_ms width height 0 0
      (length nal_data % u32_mod) 0
    ++ nal_data

-- `bytes[a..a + n]`
abbrev pub slice {ℓ} : {A : Type ℓ} → ℕ → ℕ → List A → List A
slice a n bytes = take n (drop a bytes)

-- `u32::from_be_bytes(bytes[a..a + 4].try_into().unwrap())`; the caller has checked the length, so
-- the slice has four bytes and the last case is not reached.
abbrev u32_of : List ℕ → ℕ
u32_of (a ∷ b ∷ c ∷ d ∷ rest) = from_be32 a b c d
u32_of rest = 0

unfoldable pub u32_at : ℕ → List ℕ → ℕ
unfolding from_be32
u32_at a bytes = u32_of (slice a 4 bytes)

abbrev byte_at : ℕ → List ℕ → ℕ
byte_at i bytes = unwrap_or (get_elem? bytes i) 0

module _ (codec : MetadataCodec) where
  -- `metadata_json`
  unfoldable pub encode_metadata : StreamFrameMetadata codec.Float → List ℕ
  encode_metadata m = if has_metadata m then unwrap_or (codec.to_vec m) [] else []

  unfoldable pub encode_stream_frame : EncodeParams codec.Float → List ℕ
  unfolding frame_header
  encode_stream_frame p =
      let metadata_json = encode_metadata p.metadata in
      frame_header p.frame_type p.instance_index deflate_raw_flag p.sequence p.timestamp_ms p.width
        p.height p.tile_size p.raw_bytes (length p.payload % u32_mod)
        (length metadata_json % u32_mod)
      ++ (metadata_json ++ p.payload)

  -- `serde_json::from_slice(..).unwrap_or_default()` where there are metadata bytes.
  unfoldable pub decode_metadata : ℕ → List ℕ → StreamFrameMetadata codec.Float
  decode_metadata metadata_bytes bytes =
      if ltb 0 metadata_bytes
      then unwrap_or (codec.from_slice (slice stream_header_size metadata_bytes bytes))
          default_metadata
      else default_metadata

  unfoldable pub decode_stream_frame :
      List ℕ → Result ProtocolError (StreamFrameMetadata codec.Float × List ℕ)
  unfolding u32_at
  decode_stream_frame bytes =
      if ltb (length bytes) stream_header_size
      then err (invalid_json (codes "frame too short"))
      else if not (text_beq (take 4 bytes) magic)
      then err (invalid_json (codes "invalid magic"))
      else if not (byte_at 4 bytes == stream_format)
      then err (invalid_json (codes "invalid format"))
      else let payload_bytes = u32_at 26 bytes in
        let metadata_bytes = u32_at 30 bytes in
        if not (length bytes == stream_header_size + metadata_bytes + payload_bytes)
        then err (invalid_json (codes "length mismatch"))
        else ok
            (decode_metadata metadata_bytes bytes, drop (stream_header_size + metadata_bytes) bytes)
