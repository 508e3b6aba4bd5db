-- ===== src/Streaming/Broadcast/Dashboard/Single.antt =====
-- crates/streaming/src/broadcast.rs: a dashboard stream does for each instance what a stream of that
-- instance does.
use mgba_server.Common.{
  ℕ, ◌+◌, ◌%◌, ◌≡◌, refl, sym, ap, ◌∙◌, Bool, true, false, ◌||◌, List, [], Option, none, some,
  length, ◌==◌, Result, ok, err, is_some, Bool-cases, Option-cases, inl, inr,
}
use mgba_server.Common.Maybe.{unwrap_or}
use mgba_server.Common.Text.{Text, text_eq, text_beq_refl}
use mgba_server.Common.Bytes.{u32_mod}
use mgba_server.Common.Dict.{Dict, lookup, insert, remove, lookup-insert, lookup-remove}
use mgba_server.Streaming.Wire.{StreamFrameType, keyframe, delta, h264}
use mgba_server.Streaming.FrameHub.{RawFrame}
use mgba_server.Streaming.Metrics.{record_produced}
use mgba_server.Streaming.Broadcast.{
  Outside, BroadcastConfig, InstanceStream, Turn, continues, breaks, is_keyframe,
  encode_frame_payload, encode_raw_frame, send_binary_with_backpressure, instance_frame, cached,
  delivered,
}
use mgba_server.Streaming.Broadcast.Dashboard.{
  DashboardStream, dashboard_frame, dashboard_cached, dashboard_delivered,
}

own_insert : {V : Type 0} (id : Text) (v : V) (m : Dict Text V) → lookup id (insert id v m) ≡ some v
own_insert id v m = let own = text_beq_refl id in rw own at (lookup-insert id id v m)

own_remove : {V : Type 0} (id : Text) (m : Dict Text V) → lookup id (remove id m) ≡ none
own_remove id m = let own = text_beq_refl id in rw own at (lookup-remove id id m)

module _ (outside : Outside) where
  -- The part of a dashboard that is about one instance, without the metrics.
  abbrev pub part : Text → DashboardStream outside → InstanceStream outside
  part id d = record {
    prev_frame = lookup id d.prev_frames;
    frame_count = unwrap_or (lookup id d.frame_counts) 0;
    recovery_mode = is_some (lookup id d.recovery_instances);
    h264_encoder = none;
    keyframe_cache = d.keyframe_cache;
    metrics = [];
    sent = d.sent;
  }

  abbrev pub part_turn :
      Text
      → Option (Turn outside (DashboardStream outside))
      → Option (Turn outside (InstanceStream outside))
  part_turn id none = none
  part_turn id (some (continues d)) = some (continues (part id d))
  part_turn id (some (breaks d)) = some (breaks (part id d))

  abbrev pub no_metrics :
      Option (Turn outside (InstanceStream outside))
      → Option (Turn outside (InstanceStream outside))
  no_metrics none = none
  no_metrics (some (continues s)) = some (continues (record s { metrics = [] }))
  no_metrics (some (breaks s)) = some (breaks (record s { metrics = [] }))

  module _ (config : BroadcastConfig) (plain : config.h264_enabled ≡ false) (id : Text)
      (index : ℕ) where
    -- After the payload.
    part-delivered :
        (frame : RawFrame) (frame_type : StreamFrameType)
        (answer : Result (Unit {0}) Bool × List (List ℕ)) (d : DashboardStream outside)
        (s : InstanceStream outside)
        → record s { metrics = [] } ≡ part id d
        → part_turn id (some (dashboard_delivered outside config id frame frame_type answer d))
          ≡ no_metrics (delivered outside config id index frame frame_type answer s)
    part-delivered frame frame_type (ok true, sent) d s same =
        rw (own_insert id frame d.prev_frames, plain)
          (ap {A = InstanceStream outside}
            (λ t. some (continues (record t { prev_frame = some frame; sent = sent }))) (sym same))
    part-delivered frame keyframe (ok false, sent) d s same =
        ap {A = InstanceStream outside} (λ t. some (continues (record t { sent = sent })))
          (sym same)
    part-delivered frame delta (ok false, sent) d s same =
        rw (own_insert id tt d.recovery_instances) (
          ap {A = InstanceStream outside}
            (λ t. some (continues (record t { recovery_mode = true; sent = sent }))) (sym same))
    part-delivered frame h264 (ok false, sent) d s same =
        ap {A = InstanceStream outside} (λ t. some (continues (record t { sent = sent })))
          (sym same)
    part-delivered frame frame_type (err e, sent) d s same =
        ap {A = InstanceStream outside} (λ t. some (breaks (record t { sent = sent }))) (sym same)

    part-cached :
        (frame_type : StreamFrameType) (encoded : List ℕ) (count : ℕ) (d : DashboardStream outside)
        → record (cached outside config id index frame_type encoded
            (record (part id d) { frame_count = count })) { metrics = [] }
          ≡ part id (
              dashboard_cached outside config id frame_type encoded
                (record d { frame_counts = insert id count d.frame_counts }))
    part-cached keyframe encoded count d =
        rw (own_insert id count d.frame_counts, own_remove id d.recovery_instances) refl
    part-cached delta encoded count d = rw (own_insert id count d.frame_counts) refl
    part-cached h264 encoded count d = rw (own_insert id count d.frame_counts) refl

    part-sent :
        (frame : RawFrame) (frame_type : StreamFrameType) (payload : List ℕ) (count : ℕ)
        (d : DashboardStream outside)
        → let encoded = encode_raw_frame outside frame frame_type payload index config.tile_size in
          let d' =
            dashboard_cached outside config id frame_type encoded
              (record d { frame_counts = insert id count d.frame_counts }) in
          let s' =
            cached outside config id index frame_type encoded
              (record (part id d) { frame_count = count }) in
          let size = length encoded in
          part_turn id (
            some (
              dashboard_delivered outside config id frame frame_type
                (send_binary_with_backpressure outside encoded config.backpressure_limit d'.sent)
                (record d' {
                  metrics =
                      record_produced outside.floats id size (is_keyframe frame_type) d'.metrics;
                })))
          ≡ no_metrics (
              delivered outside config id index frame frame_type
                (send_binary_with_backpressure outside encoded config.backpressure_limit s'.sent)
                (record s' {
                  metrics =
                      record_produced outside.floats id size (is_keyframe frame_type) s'.metrics;
                }))
    part-sent frame frame_type payload count d =
        let encoded = encode_raw_frame outside frame frame_type payload index config.tile_size in
        let d' =
          dashboard_cached outside config id frame_type encoded
            (record d { frame_counts = insert id count d.frame_counts }) in
        let s' =
          cached outside config id index frame_type encoded
            (record (part id d) { frame_count = count }) in
        let same = part-cached frame_type encoded count d in
        let sent_eq : s'.sent ≡ d'.sent = ap {A = InstanceStream outside} (λ t. t.sent) same in
        part-delivered frame frame_type
          (send_binary_with_backpressure outside encoded config.backpressure_limit d'.sent)
          (record d' {
            metrics =
                record_produced outside.floats id (length encoded) (is_keyframe frame_type)
                  d'.metrics;
          })
          (record s' {
            metrics =
                record_produced outside.floats id (length encoded) (is_keyframe frame_type)
                  s'.metrics;
          })
          same
        ∙ rw sent_eq refl

    -- Where H.264 is not enabled, the state of a dashboard after a frame of an instance, restricted to
    -- that instance and without the metrics, is the one of a stream of the instance that starts in
    -- the dashboard's state, restricted in the same way: the same encoding is chosen and the same
    -- messages are sent, cached and dropped, and the two panic for the same frames and break for the
    -- same ones.
    pub dashboard_frame-instance_frame :
        (frame : RawFrame) (d : DashboardStream outside)
        → part_turn id (dashboard_frame outside config id index frame d)
          ≡ no_metrics (instance_frame outside config id index frame (part id d))
    unfolding dashboard_frame instance_frame
    dashboard_frame-instance_frame frame d =
        let count = (unwrap_or (lookup id d.frame_counts) 0 + 1) % u32_mod in
        let force =
          (count % config.keyframe_interval == 1) || is_some (lookup id d.recovery_instances) in
        elim (Bool-cases (config.keyframe_interval == 0)) [
          | inl e ↦ rw e refl
          | inr e ↦
              elim (Option-cases (
                encode_frame_payload outside frame (lookup id d.prev_frames) force
                  config.tile_size)) [
                    | inl panics ↦ rw (e, panics) refl
                    | inr ((frame_type, payload), found) ↦
                        rw (e, found) (part-sent frame frame_type payload count d)
                  ]
        ]
