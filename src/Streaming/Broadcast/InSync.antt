-- ===== src/Streaming/Broadcast/InSync.antt =====
-- crates/streaming/src/broadcast.rs: the picture of a viewer and the previous frame of its stream.
use mgba_server.Common.{
  ℕ, ◌+◌, ◌%◌, ◌≤◌, ◌<◌, ◌≡◌, refl, ◌∙◌, true, false, List, ◌∷◌, Option, some, length, ltb, ◌==◌,
  ◌||◌, arith, Bool-cases, inl, inr,
}
use mgba_server.Common.Text.{Text, text_eq, text_beq_refl}
use mgba_server.Common.Bytes.{u32_mod}
use mgba_server.Common.Dict.{lookup, lookup-insert}
use mgba_server.Streaming.Wire.{StreamFrameType, keyframe, delta, h264, frame_type_byte}
use mgba_server.Streaming.FrameHub.{RawFrame}
use mgba_server.Streaming.Pixels.Viewer.{Picture}
use mgba_server.Streaming.Broadcast.{
  Outside, BroadcastConfig, InstanceStream, Turn, continues, breaks, is_keyframe,
  encode_frame_payload, encode_raw_frame, send_binary_with_backpressure, delivered, cached, dropped,
  instance_frame,
}
use mgba_server.Streaming.Metrics.{record_delivery, record_produced}
use mgba_server.Streaming.Broadcast.Viewer.{
  view, view_all, shown, length-encode_raw_frame, view-encode_raw_frame,
}
use mgba_server.Streaming.Broadcast.Nal.{IsEven, send_h264_if-Kept}
use mgba_server.Streaming.Broadcast.Payload.{
  Geometry, IsTiling, IsStreamed, Depicts, Drawn, Payload, encode_frame_payload-Payload,
}

module _ (outside : Outside) (inflate : List ℕ → List ℕ)
    (inverse : (raw : List ℕ) → inflate (outside.deflate raw) ≡ raw) (g : Geometry)
    (config : BroadcastConfig) (tiling : IsTiling g config.tile_size) (instance_id : Text)
    (instance_index : ℕ) where
  -- A viewer that gets the message can draw it, if it can be sent at all.
  abbrev pub IsViewable : List ℕ → Type 0
  IsViewable message =
      length message ≤ config.backpressure_limit
      → (pic : Picture) → (after : Picture) × (view outside.codec inflate message pic ≡ some after)

  -- The viewer has drawn all messages, and its picture is the one of the previous frame.
  pub record InSync (start : Picture) (s : InstanceStream outside) : Type 0 where
    pub pic : Picture
    pub viewed : view_all outside.codec inflate s.sent start ≡ some pic
    pub depicts : (f : RawFrame) → s.prev_frame ≡ some f → IsStreamed g f × Depicts g f pic
    pub cache : (kf : List ℕ) → lookup instance_id s.keyframe_cache ≡ some kf → IsViewable kf

  abbrev pub state : Turn outside (InstanceStream outside) → InstanceStream outside
  state (continues s) = s
  state (breaks s) = s

  -- No panic, and a state that is in sync.
  pub record Stays (start : Picture) (r : Option (Turn outside (InstanceStream outside)))
      : Type 0 where
    pub turn : Turn outside (InstanceStream outside)
    pub done : r ≡ some turn
    pub sync : InSync start (state turn)

  -- What was pushed to the socket is a message that turns the picture into one of the frame.
  record Message (frame : RawFrame) (pic : Picture) (message : List ℕ) : Type 0 where
    draws :
        length message ≤ config.backpressure_limit
        → Drawn g frame (view outside.codec inflate message pic)

  -- A change of the recovery mode alone.
  dropped-InSync :
      (start : Picture) (frame_type : StreamFrameType) (s : InstanceStream outside)
      → InSync start s
      → InSync start (dropped outside frame_type s)
  dropped-InSync start keyframe s sync = sync
  dropped-InSync start delta s sync = record {
    pic = sync.pic;
    viewed = sync.viewed;
    depicts = sync.depicts;
    cache = sync.cache;
  }
  dropped-InSync start h264 s sync = sync

  module _ (fits : config.backpressure_limit < u32_mod) where
    encode_raw_frame-Drawn :
        (frame : RawFrame) (frame_type : StreamFrameType) (payload : List ℕ) (pic : Picture)
        → IsStreamed g frame
        → Drawn g frame (shown (frame_type_byte frame_type) g.width g.height (inflate payload) pic)
        → Message frame pic
            (encode_raw_frame outside frame frame_type payload instance_index config.tile_size)
    encode_raw_frame-Drawn frame frame_type payload pic f d = record {
      draws = λ le.
          let long =
            length-encode_raw_frame outside inflate frame frame_type payload instance_index
              config.tile_size in
          let viewed =
            view-encode_raw_frame outside inflate frame frame_type payload instance_index
              config.tile_size pic (rw f.width_eq g.width_fits) (rw f.height_eq g.height_fits)
              (omega (arith, long, le, fits)) in
          record {
            after = d.after;
            done = viewed ∙ rw (f.width_eq, f.height_eq) d.done;
            depicts = d.depicts;
          };
    }

    -- After the payload has been chosen: the message is viewable, and drawn if it is sent.
    module _ (frame : RawFrame) (f : IsStreamed g frame)
        (even : config.h264_enabled ≡ true → IsEven frame) (start : Picture) where
      cached-InSync :
          (s : InstanceStream outside) (sync : InSync start s) (count : ℕ)
          (p : Payload outside inflate inverse g config.tile_size tiling frame sync.pic (
            encode_frame_payload outside frame s.prev_frame
              ((count % config.keyframe_interval == 1) || s.recovery_mode)
              config.tile_size))
          → let message =
              encode_raw_frame outside frame p.frame_type p.payload instance_index
                config.tile_size in
            (after : InSync start (
              cached outside config instance_id instance_index p.frame_type message
                (record s { frame_count = count })))
            × (after.pic ≡ sync.pic)
      cached-InSync s sync count p = elim (Bool-cases (is_keyframe p.frame_type)) [
        | inl k ↦
            let viewable : IsViewable (
                encode_raw_frame outside frame p.frame_type p.payload instance_index
                  config.tile_size) =
              λ le pic.
                let d =
                  (encode_raw_frame-Drawn frame p.frame_type p.payload pic f
                      (p.draws_any k pic)).draws
                    le in
                (d.after, d.done) in
            rw k (
              record {
                pic = sync.pic;
                viewed = sync.viewed;
                depicts = sync.depicts;
                cache = λ kf found.
                    let here =
                      lookup-insert instance_id instance_id
                        (encode_raw_frame outside frame p.frame_type p.payload instance_index
                          config.tile_size)
                        s.keyframe_cache in
                    let own = text_beq_refl instance_id in
                    let same : encode_raw_frame outside frame p.frame_type p.payload instance_index
                          config.tile_size
                        ≡ kf =
                      cc (rw own at here, found) in
                    rw (← same) viewable;
              },
              refl,
            )
        | inr k ↦ rw k (
          record {
            pic = sync.pic;
            viewed = sync.viewed;
            depicts = sync.depicts;
            cache = sync.cache;
          },
          refl,
        )
      ]

      delivered-Stays :
          (s : InstanceStream outside) (sync : InSync start s) (frame_type : StreamFrameType)
          (message : List ℕ)
          → Message frame sync.pic message
          → Stays start (
              delivered outside config instance_id instance_index frame frame_type
                (send_binary_with_backpressure outside message config.backpressure_limit s.sent)
                s)
      unfolding send_binary_with_backpressure view_all
      delivered-Stays s sync frame_type message m =
          elim (Bool-cases (ltb config.backpressure_limit (length message))) [
            | inl long ↦ rw long (record {
              turn = _;
              done = refl;
              sync =
                  dropped-InSync start frame_type
                    (record s {
                      metrics = record_delivery outside.floats instance_id false false s.metrics;
                    })
                    (record {
                      pic = sync.pic;
                      viewed = sync.viewed;
                      depicts = sync.depicts;
                      cache = sync.cache;
                    });
            })
            | inr short ↦ elim (Bool-cases (outside.accepts s.sent message)) [
              | inl e ↦
                  let d = m.draws (ground (arith, short)) in
                  let s' = record s {
                    sent = message ∷ s.sent;
                    metrics = record_delivery outside.floats instance_id true false s.metrics;
                  } in
                  let k =
                    send_h264_if-Kept outside inflate frame instance_index config.backpressure_limit
                      start fits config.h264_enabled s' even in
                  rw (short, e, k.done)
                    (record {
                      turn = _;
                      done = refl;
                      sync = record {
                        pic = d.after;
                        viewed = k.viewed d.after (rw sync.viewed d.done);
                        depicts = λ f' same.
                            let here : frame ≡ f' = cc same in rw (← here) (f, d.depicts);
                        cache = rw (← k.cache) at sync.cache;
                      };
                    })
              | inr e ↦
                  rw (short, e)
                    (record {
                      turn = _;
                      done = refl;
                      sync = record {
                        pic = sync.pic;
                        viewed = sync.viewed;
                        depicts = sync.depicts;
                        cache = sync.cache;
                      };
                    })
            ]
          ]

      pub instance_frame-Stays :
          (s : InstanceStream outside)
          → 0 < config.keyframe_interval
          → InSync start s
          → Stays start (instance_frame outside config instance_id instance_index frame s)
      unfolding instance_frame
      instance_frame-Stays s interval sync =
          let count = (s.frame_count + 1) % u32_mod in
          let force = (count % config.keyframe_interval == 1) || s.recovery_mode in
          let p =
            encode_frame_payload-Payload outside inflate inverse g config.tile_size tiling frame
              s.prev_frame force sync.pic f sync.depicts in
          let message =
            encode_raw_frame outside frame p.frame_type p.payload instance_index config.tile_size in
          let s' =
            cached outside config instance_id instance_index p.frame_type message
              (record s { frame_count = count }) in
          let (sync', same) = cached-InSync s sync count p in
          let positive : (config.keyframe_interval == 0) ≡ false = ground (arith, interval) in
          rw (positive, p.done)
            (delivered-Stays
              (record s' {
                metrics =
                    record_produced outside.floats instance_id (length message)
                      (is_keyframe p.frame_type) s'.metrics;
              })
              (record {
                pic = sync'.pic;
                viewed = sync'.viewed;
                depicts = sync'.depicts;
                cache = sync'.cache;
              })
              p.frame_type message
              (rw same (encode_raw_frame-Drawn frame p.frame_type p.payload sync.pic f p.draws)))
