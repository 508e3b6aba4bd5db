-- ===== src/Streaming/Control/Throttle.antt =====
-- crates/streaming/src/broadcast.rs: how often a viewer can take the keyframe out of the cache.
use mgba_server.Common.{ℕ, ◌+◌, Bool, not, ◌&&◌, is_some, List, [], ◌∷◌, if◌then◌else◌}
use mgba_server.Common.Text.{Text, text_eq}
use mgba_server.Common.Dict.{lookup, insert}
use mgba_server.Streaming.Control.{Json, ControlState, handle_control_message}

-- What happens to a viewer's state: a message of the viewer arrives, or a stream caches a keyframe.
pub data Event : Type 0 where
  message : (bytes : List ℕ) (now : ℕ) → Event
  keyframe_cached : (payload : List ℕ) → Event

module _ (json : Json) (instance_id : Text) where
  abbrev pub after : Event → ControlState json → ControlState json
  after (message bytes now) s = handle_control_message json bytes instance_id now s
  after (keyframe_cached payload) s = record s {
    keyframe_cache = insert instance_id payload s.keyframe_cache;
  }

  abbrev pub after_all : List Event → ControlState json → ControlState json
  after_all [] s = s
  after_all (e ∷ es) s = after_all es (after e s)

  -- The instance has a cached keyframe before and none after.
  abbrev pub taken_out : ControlState json → ControlState json → Bool
  taken_out before later =
      is_some (lookup instance_id before.keyframe_cache)
      && not (is_some (lookup instance_id later.keyframe_cache))

  -- How many of the events take the cached keyframe out.
  abbrev pub evictions : List Event → ControlState json → ℕ
  evictions [] s = 0
  evictions (e ∷ es) s = (if taken_out s (after e s) then 1 else 0) + evictions es (after e s)
