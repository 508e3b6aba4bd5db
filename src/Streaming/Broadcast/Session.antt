-- ===== src/Streaming/Broadcast/Session.antt =====
-- crates/streaming/src/broadcast.rs: `handle_instance_stream` as a whole, in sync with its viewer.
use mgba_server.Common.{
  ℕ, ◌<◌, ◌≡◌, refl, true, List, [], ◌∷◌, some, length, All, ltb, arith, Option-cases, Bool-cases,
  inl, inr,
}
use mgba_server.Common.Text.{Text, text_eq}
use mgba_server.Common.Bytes.{u32_mod}
use mgba_server.Common.Dict.{Dict, lookup}
use mgba_server.Streaming.FrameHub.{RawFrame}
use mgba_server.Streaming.Pixels.Viewer.{Picture}
use mgba_server.Streaming.Broadcast.{
  Outside, BroadcastConfig, InstanceStream, Turn, continues, breaks, send_binary_with_backpressure,
  instance_frame, instance_frames, open_instance_stream, and_then,
}
use mgba_server.Streaming.Metrics.{StreamMetrics}
use mgba_server.Streaming.Broadcast.Viewer.{view_all}
use mgba_server.Streaming.Broadcast.Nal.{IsEven}
use mgba_server.Streaming.Broadcast.Payload.{Geometry, IsTiling, IsStreamed}
use mgba_server.Streaming.Broadcast.InSync.{IsViewable, InSync, Stays, state, instance_frame-Stays}

module _ (outside : Outside) (inflate : List ℕ → List ℕ)
    (inverse : (raw : List ℕ) → inflate (outside.deflate raw) ≡ raw) (g : Geometry)
    (config : BroadcastConfig) (tiling : IsTiling g config.tile_size) (instance_id : Text)
    (instance_index : ℕ) where
  module _ (fits : config.backpressure_limit < u32_mod) (start : Picture)
      (interval : 0 < config.keyframe_interval)
      (even : (frame : RawFrame)
        → IsStreamed g frame
        → config.h264_enabled ≡ true
        → IsEven frame) where
    -- A stream that starts with a cache whose message for the instance is viewable.
    open_instance_stream-Stays :
        (cache : Dict Text (List ℕ)) (metrics : StreamMetrics outside.floats.F)
        → ((kf : List ℕ)
            → lookup instance_id cache ≡ some kf
            → IsViewable outside inflate inverse g config tiling instance_id instance_index kf)
        → InSync outside inflate inverse g config tiling instance_id instance_index start (
            state outside inflate inverse g config tiling instance_id instance_index
              (open_instance_stream outside config instance_id instance_index cache metrics))
    unfolding open_instance_stream send_binary_with_backpressure view_all
    open_instance_stream-Stays cache metrics viewable =
        elim (Option-cases (lookup instance_id cache)) [
          | inl e ↦ rw e (record {
            pic = start;
            viewed = refl;
            depicts = λ f h. absurd (cc h);
            cache = λ kf h. absurd (cc (rw e at h));
          })
          | inr (kf, e) ↦ elim (Bool-cases (ltb config.backpressure_limit (length kf))) [
            | inl long ↦
                rw (e, long)
                  (record {
                    pic = start;
                    viewed = refl;
                    depicts = λ f h. absurd (cc h);
                    cache = viewable;
                  })
            | inr short ↦ elim (Bool-cases (outside.accepts [] kf)) [
              | inl sent ↦
                  let (after, drawn) = viewable kf e (ground (arith, short)) start in
                  rw (e, short, sent)
                    (record {
                      pic = after;
                      viewed = drawn;
                      depicts = λ f h. absurd (cc h);
                      cache = viewable;
                    })
              | inr failed ↦
                  rw (e, short, failed)
                    (record {
                      pic = start;
                      viewed = refl;
                      depicts = λ f h. absurd (cc h);
                      cache = viewable;
                    })
            ]
          ]
        ]

    instance_frames-Stays :
        (frames : List RawFrame) (s : InstanceStream outside)
        → All (IsStreamed g) frames
        → InSync outside inflate inverse g config tiling instance_id instance_index start s
        → Stays outside inflate inverse g config tiling instance_id instance_index start
            (instance_frames outside config instance_id instance_index frames s)
    unfolding instance_frames
    instance_frames-Stays [] s all sync = record { turn = _; done = refl; sync = sync }
    instance_frames-Stays (frame ∷ earlier) s (f, all) sync =
        let before = instance_frames-Stays earlier s all sync in
        rw before.done (go before.turn before.sync)
      where
        go :
            (t : Turn outside (InstanceStream outside))
            → InSync outside inflate inverse g config tiling instance_id instance_index start
                (state outside inflate inverse g config tiling instance_id instance_index t)
            → Stays outside inflate inverse g config tiling instance_id instance_index start (
                and_then outside config instance_id instance_index
                  (some t)
                  (instance_frame outside config instance_id instance_index frame))
        go (continues s') sync' =
            instance_frame-Stays outside inflate inverse g config tiling instance_id instance_index
              fits frame f (even frame f) start s' interval sync'
        go (breaks s') sync' = record { turn = breaks s'; done = refl; sync = sync' }

    -- For frames of one width, height and pitch, the first two words of 16 bits, whose rows lie in
    -- their buffers at addresses of 32 bits, a positive tile size of 16 bits, less than 2^16 tiles, a
    -- positive keyframe interval, a limit below 2^32, even sides where H.264 is enabled, a
    -- decompression that inverts the compression, and a cache whose message for the instance a viewer
    -- can draw on any picture: from the opening of a stream on, after any frames, whichever messages
    -- the limit drops and whether the socket fails, the loop has not panicked, a viewer can draw all
    -- messages that were sent, its picture has the colours of the frame that the next delta refers to,
    -- at every position, and the cached message can again be drawn on any picture.
    pub instance_stream-Stays :
        (cache : Dict Text (List ℕ)) (metrics : StreamMetrics outside.floats.F)
        (frames : List RawFrame)
        → ((kf : List ℕ)
            → lookup instance_id cache ≡ some kf
            → IsViewable outside inflate inverse g config tiling instance_id instance_index kf)
        → All (IsStreamed g) frames
        → Stays outside inflate inverse g config tiling instance_id instance_index start (
            and_then outside config instance_id instance_index
              (some (open_instance_stream outside config instance_id instance_index cache metrics))
              (instance_frames outside config instance_id instance_index frames))
    instance_stream-Stays cache metrics frames viewable all =
        go (open_instance_stream outside config instance_id instance_index cache metrics)
          (open_instance_stream-Stays cache metrics viewable)
      where
        go :
            (t : Turn outside (InstanceStream outside))
            → InSync outside inflate inverse g config tiling instance_id instance_index start
                (state outside inflate inverse g config tiling instance_id instance_index t)
            → Stays outside inflate inverse g config tiling instance_id instance_index start (
                and_then outside config instance_id instance_index
                  (some t)
                  (instance_frames outside config instance_id instance_index frames))
        go (continues s) sync = instance_frames-Stays frames s all sync
        go (breaks s) sync = record { turn = breaks s; done = refl; sync = sync }
