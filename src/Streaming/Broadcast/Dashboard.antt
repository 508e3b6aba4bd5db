-- ===== src/Streaming/Broadcast/Dashboard.antt =====
-- crates/streaming/src/broadcast.rs: `handle_dashboard_stream`, one socket for many instances.
pub mod Single
mod Runs
use mgba_server.Common.{
  ℕ, ◌+◌, ◌%◌, Bool, true, false, ◌||◌, List, [], ◌∷◌, Option, none, some, length, ◌==◌,
  if◌then◌else◌, Result, ok, err, is_some,
}
use mgba_server.Common.Maybe.{◌>>=◌, unwrap_or}
use mgba_server.Common.Text.{Text, text_eq}
use mgba_server.Common.Bytes.{u32_mod}
use mgba_server.Common.Dict.{Dict, lookup, insert, remove}
use mgba_server.Streaming.Wire.{StreamFrameType}
use mgba_server.Streaming.FrameHub.{RawFrame}
use mgba_server.Streaming.Metrics.{StreamMetrics, record_produced, record_delivery}
use mgba_server.Streaming.Broadcast.{
  Outside, BroadcastConfig, Turn, continues, breaks, is_keyframe, is_delta, encode_frame_payload,
  encode_raw_frame, send_binary_with_backpressure,
}

module _ (outside : Outside) where
  -- The set of instances in recovery is a map to the unit type.
  pub record DashboardStream : Type 0 where
    pub prev_frames : Dict Text RawFrame
    pub frame_counts : Dict Text ℕ
    pub recovery_instances : Dict Text (Unit {0})
    pub keyframe_cache : Dict Text (List ℕ)
    pub metrics : StreamMetrics outside.floats.F
    pub sent : List (List ℕ)

  module _ (config : BroadcastConfig) where
    abbrev pub dashboard_cached :
        Text → StreamFrameType → List ℕ → DashboardStream → DashboardStream
    dashboard_cached id frame_type encoded d =
        if is_keyframe frame_type
        then record d {
          keyframe_cache = insert id encoded d.keyframe_cache;
          recovery_instances = remove id d.recovery_instances;
        }
        else d

    abbrev pub dashboard_dropped : Text → StreamFrameType → DashboardStream → DashboardStream
    dashboard_dropped id frame_type d =
        if is_delta frame_type
        then record d { recovery_instances = insert id tt d.recovery_instances }
        else d

    abbrev pub dashboard_delivered :
        Text
        → RawFrame
        → StreamFrameType
        → Result (Unit {0}) Bool × List (List ℕ)
        → DashboardStream
        → Turn outside DashboardStream
    dashboard_delivered id frame frame_type (ok true, sent) d = continues (record d {
      sent = sent;
      metrics = record_delivery outside.floats id true true d.metrics;
      prev_frames = insert id frame d.prev_frames;
    })
    dashboard_delivered id frame frame_type (ok false, sent) d = continues (
        dashboard_dropped id frame_type (record d {
          sent = sent;
          metrics = record_delivery outside.floats id false true d.metrics;
        }))
    dashboard_delivered id frame frame_type (err e, sent) d = breaks (record d { sent = sent })

    -- The body of the loop from the count on.
    unfoldable pub dashboard_frame :
        Text → ℕ → RawFrame → DashboardStream → Option (Turn outside DashboardStream)
    unfolding encode_frame_payload encode_raw_frame send_binary_with_backpressure
    dashboard_frame id index frame d =
        let count = (unwrap_or (lookup id d.frame_counts) 0 + 1) % u32_mod in
        if config.keyframe_interval == 0 then none else (do
          let force =
              (count % config.keyframe_interval == 1) || is_some (lookup id d.recovery_instances)
          (frame_type, payload) ←
              encode_frame_payload outside frame (lookup id d.prev_frames) force config.tile_size
          let encoded = encode_raw_frame outside frame frame_type payload index config.tile_size
          let d' =
              dashboard_cached id frame_type encoded
                (record d { frame_counts = insert id count d.frame_counts })
          let size = length encoded
          let metrics = record_produced outside.floats id size (is_keyframe frame_type) d'.metrics
          some (
              dashboard_delivered id frame frame_type
                (send_binary_with_backpressure outside encoded config.backpressure_limit d'.sent)
                (record d' { metrics = metrics })))

    abbrev pub dashboard_then :
        Option (Turn outside DashboardStream)
        → (DashboardStream → Option (Turn outside DashboardStream))
        → Option (Turn outside DashboardStream)
    dashboard_then none f = none
    dashboard_then (some (continues d)) f = f d
    dashboard_then (some (breaks d)) f = some (breaks d)

    -- What `has_changed` and `borrow_and_update` say of a receiver: `none` where nothing changed.
    abbrev pub Receiver : Type 0
    Receiver = Text × ℕ × Option (Option RawFrame)

    abbrev pub receive : Receiver → DashboardStream → Option (Turn outside DashboardStream)
    receive (id, index, none) d = some (continues d)
    receive (id, index, some none) d = some (continues d)
    receive (id, index, some (some frame)) d = dashboard_frame id index frame d

    -- A turn of the outer loop.
    unfoldable pub dashboard_round :
        List Receiver → DashboardStream → Option (Turn outside DashboardStream)
    unfolding dashboard_frame
    dashboard_round [] d = some (continues d)
    dashboard_round (r ∷ rs) d = dashboard_then (receive r d) (λ d'. dashboard_round rs d')

    abbrev pub dashboard_sent :
        Result (Unit {0}) Bool × List (List ℕ)
        → DashboardStream
        → Option (Turn outside DashboardStream)
    dashboard_sent (ok sent_it, sent) d = some (continues (record d { sent = sent }))
    dashboard_sent (err e, sent) d = some (breaks d)

    abbrev pub dashboard_greet :
        Option (List ℕ) → DashboardStream → Option (Turn outside DashboardStream)
    dashboard_greet none d = some (continues d)
    dashboard_greet (some kf) d =
        dashboard_sent (send_binary_with_backpressure outside kf config.backpressure_limit d.sent) d

    -- The cached keyframes of all instances.
    unfoldable pub send_cached :
        List (Text × ℕ) → DashboardStream → Option (Turn outside DashboardStream)
    unfolding send_binary_with_backpressure
    send_cached [] d = some (continues d)
    send_cached ((id, index) ∷ ids) d =
        dashboard_then (dashboard_greet (lookup id d.keyframe_cache) d) (λ d'. send_cached ids d')

    abbrev pub open_dashboard :
        Dict Text (List ℕ) → StreamMetrics outside.floats.F → DashboardStream
    open_dashboard cache metrics = record {
      prev_frames = [];
      frame_counts = [];
      recovery_instances = [];
      keyframe_cache = cache;
      metrics = metrics;
      sent = [];
    }
