-- ===== src/Streaming/Control.antt =====
-- crates/streaming/src/protocol.rs, `parse_viewer_control_message` with `sanitize_client_metrics`, and
-- crates/streaming/src/broadcast.rs, `handle_control_message`. `serde_json` with its values, and `f64`,
-- are the parameter `Json`; the time is an argument.
pub mod Throttle
mod Runs
use mgba_server.Common.{
  ℕ, ◌+◌, ◌-◌, Bool, true, false, ◌&&◌, List, [], ◌∷◌, Option, none, some, length, ltb, leb,
  if◌then◌else◌, Result, ok, err, ok_or, ◌>>=◌,
}
use mgba_server.Common.Text.{Text, codes, text_eq, text_beq}
use mgba_server.Common.Dict.{Dict, insert, remove}
use mgba_server.Streaming.Wire.{ProtocolError, too_large, invalid_json, unknown_type}

pub record Json : Type 1 where
  pub Value : Type 0
  pub Object : Type 0
  pub F : Type 0
  pub from_slice : List ℕ → Result Text Value
  pub as_object : Value → Option Object
  pub get : Text → Object → Option Value
  pub as_str : Value → Option Text
  pub as_f64 : Value → Option F
  pub is_finite : F → Bool
  pub is_not_negative : F → Bool
  pub float_min : F → F → F
  pub from_nat : ℕ → F
  pub from_f64 : F → Value
  pub from_map : Dict Text Value → Value

abbrev pub viewer_control_max_bytes : ℕ
viewer_control_max_bytes = 4096

abbrev pub max_client_counter : ℕ
max_client_counter = 10000000

abbrev pub max_client_fps : ℕ
max_client_fps = 1000

abbrev pub keyframe_throttle_ms : ℕ
keyframe_throttle_ms = 500

abbrev pub metric_limits : List (Text × ℕ)
metric_limits =
    (codes "decodedFrames", max_client_counter)
    ∷ (codes "droppedFrames", max_client_counter)
    ∷ (codes "fps", max_client_fps)
    ∷ (codes "keyframeRecoveries", max_client_counter)
    ∷ (codes "reconnects", max_client_counter)
    ∷ (codes "renderedFrames", max_client_counter)
    ∷ (codes "sequenceGaps", max_client_counter)
    ∷ []

module _ (json : Json) where
  pub data ViewerControl : Type 0 where
    keyframe : ViewerControl
    client_metrics : json.Value → ViewerControl

  abbrev pub number_in : Text → json.Object → Option json.F
  number_in key metrics = elim (json.get key metrics) [ none ↦ none | some v ↦ json.as_f64 v ]

  abbrev pub with_number : Text → ℕ → Option json.F → Dict Text json.Value → Dict Text json.Value
  with_number key limit none sanitized = sanitized
  with_number key limit (some x) sanitized =
      if json.is_finite x && json.is_not_negative x
      then insert key (json.from_f64 (json.float_min x (json.from_nat limit))) sanitized
      else sanitized

  -- The loop over the known keys.
  unfoldable pub sanitize_each :
      List (Text × ℕ) → json.Object → Dict Text json.Value → Dict Text json.Value
  sanitize_each [] metrics sanitized = sanitized
  sanitize_each ((key, limit) ∷ limits) metrics sanitized =
      sanitize_each limits metrics (with_number key limit (number_in key metrics) sanitized)

  abbrev pub object_of : Option json.Value → Option json.Object
  object_of none = none
  object_of (some v) = json.as_object v

  abbrev pub sanitized_object : Option json.Object → json.Value
  sanitized_object none = json.from_map []
  sanitized_object (some metrics) = json.from_map (sanitize_each metric_limits metrics [])

  unfoldable pub sanitize_client_metrics : Option json.Value → json.Value
  unfolding sanitize_each
  sanitize_client_metrics value = sanitized_object (object_of value)

  abbrev pub parsed : Result Text json.Value → Result ProtocolError json.Value
  parsed (ok v) = ok v
  parsed (err e) = err (invalid_json e)

  abbrev pub type_in : json.Object → Option Text
  type_in object = elim (json.get (codes "type") object) [ none ↦ none | some v ↦ json.as_str v ]

  unfoldable pub parse_viewer_control_message : List ℕ → Result ProtocolError ViewerControl
  unfolding sanitize_client_metrics
  parse_viewer_control_message bytes =
      if ltb viewer_control_max_bytes (length bytes) then err too_large else (do
        value ← parsed (json.from_slice bytes)
        object ← ok_or (json.as_object value) (invalid_json (codes "message must be an object"))
        msg_type ← ok_or (type_in object) (invalid_json (codes "missing type"))
        if text_beq msg_type (codes "keyframe")
            then ok keyframe
            else if text_beq msg_type (codes "client-metrics")
            then ok (client_metrics (sanitize_client_metrics (json.get (codes "metrics") object)))
            else err (unknown_type msg_type))

  -- The cache that the task shares, and `last_keyframe_request` in milliseconds.
  pub record ControlState : Type 0 where
    pub keyframe_cache : Dict Text (List ℕ)
    pub last_keyframe_request : ℕ

  abbrev pub on_control :
      Text → (now : ℕ) → Result ProtocolError ViewerControl → ControlState → ControlState
  on_control instance_id now (err e) s = s
  on_control instance_id now (ok (client_metrics v)) s = s
  on_control instance_id now (ok keyframe) s =
      if leb keyframe_throttle_ms (now - s.last_keyframe_request)
      then record {
        keyframe_cache = remove instance_id s.keyframe_cache;
        last_keyframe_request = now;
      }
      else s

  unfoldable pub handle_control_message : List ℕ → Text → (now : ℕ) → ControlState → ControlState
  unfolding parse_viewer_control_message
  handle_control_message bytes instance_id now s =
      on_control instance_id now (parse_viewer_control_message bytes) s

  -- The messages of a viewer with the times of their arrival.
  unfoldable pub handle_messages : Text → List (List ℕ × ℕ) → ControlState → ControlState
  unfolding handle_control_message
  handle_messages instance_id [] s = s
  handle_messages instance_id ((bytes, now) ∷ ms) s =
      handle_messages instance_id ms (handle_control_message bytes instance_id now s)
