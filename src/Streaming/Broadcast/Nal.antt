-- ===== src/Streaming/Broadcast/Nal.antt =====
-- crates/streaming/src/broadcast.rs: `send_h264_frame` leaves the viewer's picture alone.
use mgba_server.Common.{
  ℕ, ◌+◌, ◌*◌, ◌/◌, ◌%◌, ◌<◌, ◌≡◌, refl, Bool, true, false, List, [], ◌∷◌, Option, none, some,
  length, get_elem?, ltb, arith, Option-cases, Bool-cases, inl, inr, Result, ok, err,
}
use mgba_server.Common.Bytes.{u16_mod, u32_mod}
use mgba_server.Streaming.Wire.{encode_h264_frame, frame_header}
use mgba_server.Streaming.Wire.RoundTrip.{decode-encode_h264}
use mgba_server.Streaming.FrameHub.{RawFrame}
use mgba_server.Streaming.Pixels.Viewer.{Picture}
use mgba_server.Streaming.H264.{H264Error, H264Encoder, OpenH264, xrgb8888_to_yuv420}
use mgba_server.Streaming.H264
use mgba_server.Streaming.H264.Planes.{xrgb8888_to_yuv420-Converts}
use mgba_server.Streaming.Broadcast.{
  Outside, InstanceStream, send_binary_with_backpressure, send_h264_frame, send_h264_if, send_nal,
  send_with, ready_encoder,
}
use mgba_server.Streaming.Broadcast.Viewer.{view, view_all, number_at}

-- Both sides of the frame are even.
abbrev pub IsEven : RawFrame → Type 0
IsEven frame = (frame.width % 2 ≡ 0) × (frame.height % 2 ≡ 0)

-- The conversion does not panic, so the encoder's answer comes back.
encode-total :
    (openh264 : OpenH264) (frame : RawFrame) (self : H264Encoder openh264)
    → IsEven frame
    → (r : Result H264Error (List ℕ) × H264Encoder openh264) × (H264.encode openh264 frame self
        ≡ some r)
unfolding H264.encode
encode-total openh264 frame self even =
    let c =
      xrgb8888_to_yuv420-Converts openh264 frame.width frame.height even.0 even.1 frame.bytes
        frame.pitch in
    elim (Option-cases (H264.encode openh264 frame self)) [
      | inl e ↦ absurd (ground (arith, e, c.done))
      | inr found ↦ found
    ]

module _ (outside : Outside) (inflate : List ℕ → List ℕ) where
  header_fields :
      (nal : List ℕ) (index sequence timestamp width height : ℕ)
      → (get_elem? (encode_h264_frame nal index sequence timestamp width height) 5 ≡ some 3)
        × (number_at 16 (encode_h264_frame nal index sequence timestamp width height)
            ≡ some (width / 256 % 256 * 256 + width % 256))
        × (number_at 18 (encode_h264_frame nal index sequence timestamp width height)
            ≡ some (height / 256 % 256 * 256 + height % 256))
        × (length (encode_h264_frame nal index sequence timestamp width height) ≡ 34 + length nal)
  unfolding encode_h264_frame frame_header
  header_fields nal index sequence timestamp width height = (refl, refl, refl, omega arith)

  view-encode_h264_frame :
      (nal : List ℕ) (index sequence timestamp width height : ℕ) (pic : Picture)
      → length nal < u32_mod
      → view outside.codec inflate (encode_h264_frame nal index sequence timestamp width height) pic
        ≡ some pic
  unfolding view
  view-encode_h264_frame nal index sequence timestamp width height pic h =
      let (kind, w, t, sized) = header_fields nal index sequence timestamp width height in
      rw (kind, w, t, decode-encode_h264 outside.codec nal index sequence timestamp width height h)
        refl

  -- No panic; the cache is the same, and the viewer's picture.
  pub record Kept (start : Picture) (s : InstanceStream outside)
      (r : Option (InstanceStream outside)) : Type 0 where
    pub after : InstanceStream outside
    pub done : r ≡ some after
    pub cache : after.keyframe_cache ≡ s.keyframe_cache
    pub viewed :
        (pic : Picture)
        → view_all outside.codec inflate s.sent start ≡ some pic
        → view_all outside.codec inflate after.sent start ≡ some pic

  module _ (frame : RawFrame) (index limit : ℕ) (start : Picture) (fits : limit < u32_mod) where
    send_nal-Kept :
        (r : Result H264Error (List ℕ) × H264Encoder outside.openh264) (s : InstanceStream outside)
        → Kept start s (some (send_nal outside frame index limit r s))
    unfolding send_binary_with_backpressure view_all
    send_nal-Kept (err e, encoder) s = record {
      after = _;
      done = refl;
      cache = refl;
      viewed = λ pic h. h;
    }
    send_nal-Kept (ok [], encoder) s = record {
      after = _;
      done = refl;
      cache = refl;
      viewed = λ pic h. h;
    }
    send_nal-Kept (ok (b ∷ bytes), encoder) s =
        let (kind, w, t, sized) =
          header_fields (b ∷ bytes) index (frame.sequence % u32_mod) (frame.timestamp_ms % u32_mod)
            (frame.width % u16_mod) (frame.height % u16_mod) in
        let message =
          encode_h264_frame (b ∷ bytes) index (frame.sequence % u32_mod)
            (frame.timestamp_ms % u32_mod) (frame.width % u16_mod) (frame.height % u16_mod) in
        elim (Bool-cases (ltb limit (length message))) [
          | inl long ↦ record { after = _; done = refl; cache = refl; viewed = λ pic h. rw long h }
          | inr short ↦ elim (Bool-cases (outside.accepts s.sent message)) [
            | inl e ↦ record {
              after = _;
              done = refl;
              cache = refl;
              viewed = λ pic h.
                  let small : length (b ∷ bytes) < u32_mod = ground (arith, short, sized, fits) in
                  rw (short, e, h)
                    (view-encode_h264_frame (b ∷ bytes) index (frame.sequence % u32_mod)
                      (frame.timestamp_ms % u32_mod) (frame.width % u16_mod)
                      (frame.height % u16_mod) pic small);
            }
            | inr e ↦ record {
              after = _;
              done = refl;
              cache = refl;
              viewed = λ pic h. rw (short, e) h;
            }
          ]
        ]

    send_with-Kept :
        (encoder : Option (H264Encoder outside.openh264)) (s : InstanceStream outside)
        → IsEven frame
        → Kept start s (send_with outside frame index limit encoder s)
    send_with-Kept none s even = record {
      after = _;
      done = refl;
      cache = refl;
      viewed = λ pic h. h;
    }
    send_with-Kept (some encoder) s even =
        let (r, e) = encode-total outside.openh264 frame encoder even in rw e (send_nal-Kept r s)

    pub send_h264_if-Kept :
        (enabled : Bool) (s : InstanceStream outside)
        → (enabled ≡ true → IsEven frame)
        → Kept start s (send_h264_if outside enabled frame index limit s)
    unfolding send_h264_frame
    send_h264_if-Kept false s even = record {
      after = s;
      done = refl;
      cache = refl;
      viewed = λ pic h. h;
    }
    send_h264_if-Kept true s even =
        send_with-Kept (ready_encoder outside frame s.h264_encoder) s (even refl)
