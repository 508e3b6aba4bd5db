-- ===== src/Streaming/Broadcast/Payload.antt =====
-- crates/streaming/src/broadcast.rs: the payload of a frame, as a viewer draws it.
use mgba_server.Common.{
  ℕ, ◌*◌, ◌<◌, ◌≡◌, refl, ◌∙◌, Bool, true, false, List, Option, none, some, Option-cases, inl, inr,
}
use mgba_server.Common.Bytes.{u16_mod}
use mgba_server.Streaming.Wire.{StreamFrameType, keyframe, delta, frame_type_byte}
use mgba_server.Streaming.FrameHub.{RawFrame}
use mgba_server.Streaming.Pixels.{encode_keyframe, encode_delta, div_ceil}
use mgba_server.Streaming.Pixels.Viewer.{Picture, Shows, inside, show_keyframe}
use mgba_server.Streaming.Pixels.Reads.{IsFrame, picture}
use mgba_server.Streaming.Pixels.Keyframe.{encode_keyframe-Shows}
use mgba_server.Streaming.Pixels.Delta.{encode_delta-Shows}
use mgba_server.Streaming.Broadcast.{
  Outside, is_keyframe, keyframe_payload, delta_payload, encode_frame_payload,
}
use mgba_server.Streaming.Broadcast.Viewer.{shown}

-- The sizes that all frames of a stream have, with the limits of the format.
pub record Geometry : Type 0 where
  pub width : ℕ
  pub height : ℕ
  pub pitch : ℕ
  pub width_fits : width < u16_mod
  pub height_fits : height < u16_mod

-- The tile size is not zero, and the number of tiles is a word of 16 bits.
pub record IsTiling (g : Geometry) (tile_size : ℕ) : Type 0 where
  pub positive : 0 < tile_size
  pub fits : tile_size < u16_mod
  pub tiles_fit : div_ceil g.height tile_size * div_ceil g.width tile_size < u16_mod

pub record IsStreamed (g : Geometry) (frame : RawFrame) : Type 0 where
  pub width_eq : frame.width ≡ g.width
  pub height_eq : frame.height ≡ g.height
  pub pitch_eq : frame.pitch ≡ g.pitch
  pub buffer : IsFrame g.width g.height g.pitch frame.bytes

-- The picture has the colours of the frame.
abbrev pub Depicts : Geometry → RawFrame → Picture → Type 0
Depicts g frame pic =
    (x y : ℕ) → inside g.width g.height x y ≡ true → pic x y ≡ picture frame.bytes g.pitch x y

-- The drawing ends with a picture of the frame.
pub record Drawn (g : Geometry) (frame : RawFrame) (r : Option Picture) : Type 0 where
  pub after : Picture
  pub done : r ≡ some after
  pub depicts : Depicts g frame after

Shows-Drawn :
    (g : Geometry) (frame : RawFrame) (pic : Picture) (r : Option Picture)
    → Shows (inside g.width g.height) (picture frame.bytes g.pitch) pic r
    → Drawn g frame r
Shows-Drawn g frame pic r s = record {
  after = s.after;
  done = s.done;
  depicts = λ x y h. s.pixels x y ∙ rw h refl;
}

module _ (outside : Outside) (inflate : List ℕ → List ℕ)
    (inverse : (raw : List ℕ) → inflate (outside.deflate raw) ≡ raw) (g : Geometry) (tile_size : ℕ)
    (tiling : IsTiling g tile_size) where
  -- A payload that turns the picture into one of the frame, a keyframe any picture.
  pub record Payload (frame : RawFrame) (pic : Picture) (r : Option (StreamFrameType × List ℕ))
      : Type 0 where
    pub frame_type : StreamFrameType
    pub payload : List ℕ
    pub done : r ≡ some (frame_type, payload)
    pub draws :
        Drawn g frame (shown (frame_type_byte frame_type) g.width g.height (inflate payload) pic)
    pub draws_any :
        is_keyframe frame_type ≡ true
        → (other : Picture)
        → Drawn g frame
            (shown (frame_type_byte frame_type) g.width g.height (inflate payload) other)

  keyframe_draws :
      (frame : RawFrame) (pic : Picture) (payload : List ℕ)
      → IsStreamed g frame
      → encode_keyframe outside.deflate frame.bytes g.width g.height g.pitch ≡ some payload
      → Drawn g frame (show_keyframe g.width g.height (inflate payload) pic)
  keyframe_draws frame pic payload f e = Shows-Drawn g frame pic _ (
      rw e at (
        encode_keyframe-Shows g.width g.height g.pitch frame.bytes f.buffer outside.deflate inflate
          pic inverse))

  keyframe_payload-Payload :
      (frame : RawFrame) (pic : Picture)
      → IsStreamed g frame
      → Payload frame pic (keyframe_payload outside frame)
  keyframe_payload-Payload frame pic f =
      let shows =
        encode_keyframe-Shows g.width g.height g.pitch frame.bytes f.buffer outside.deflate inflate
          pic inverse in
      elim (Option-cases (encode_keyframe outside.deflate frame.bytes g.width g.height g.pitch)) [
        | inl e ↦ absurd (cc (rw e at shows.done))
        | inr (payload, e) ↦ record {
          frame_type = keyframe;
          payload = payload;
          done = rw (f.width_eq, f.height_eq, f.pitch_eq, e) refl;
          draws = keyframe_draws frame pic payload f e;
          draws_any = λ k other. keyframe_draws frame other payload f e;
        }
      ]

  delta_payload-Payload :
      (prev frame : RawFrame) (pic : Picture)
      → IsStreamed g prev
      → IsStreamed g frame
      → Depicts g prev pic
      → Payload frame pic (delta_payload outside prev frame tile_size)
  delta_payload-Payload prev frame pic p f d =
      let shows =
        encode_delta-Shows g.width g.height g.pitch prev.bytes frame.bytes p.buffer f.buffer pic d
          tile_size tiling.positive tiling.fits g.width_fits g.height_fits outside.deflate inflate
          inverse tiling.tiles_fit in
      elim (Option-cases
        (encode_delta outside.deflate prev.bytes frame.bytes g.width g.height g.pitch tile_size)) [
          | inl e ↦ absurd (cc (rw e at shows.done))
          | inr (payload, e) ↦ record {
            frame_type = delta;
            payload = payload;
            done = rw (f.width_eq, f.height_eq, f.pitch_eq, e) refl;
            draws = Shows-Drawn g frame pic _ (rw e at shows);
            draws_any = λ k. absurd (cc k);
          }
        ]

  pub encode_frame_payload-Payload :
      (frame : RawFrame) (prev : Option RawFrame) (force : Bool) (pic : Picture)
      → IsStreamed g frame
      → ((f : RawFrame) → prev ≡ some f → IsStreamed g f × Depicts g f pic)
      → Payload frame pic (encode_frame_payload outside frame prev force tile_size)
  unfolding encode_frame_payload
  encode_frame_payload-Payload frame none force pic f d = keyframe_payload-Payload frame pic f
  encode_frame_payload-Payload frame (some prev) true pic f d = keyframe_payload-Payload frame pic f
  encode_frame_payload-Payload frame (some prev) false pic f d =
      let (p, depicted) = d prev refl in delta_payload-Payload prev frame pic p f depicted
