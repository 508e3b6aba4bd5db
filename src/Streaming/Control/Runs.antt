-- ===== src/Streaming/Control/Runs.antt =====
-- Runs of the viewer's messages, and their theorem at concrete messages.
use mgba_server.Common.{ℕ, ◌≡◌, refl, List, [], ◌∷◌, none, some, true, ok, min}
use mgba_server.Common.Text.{Text, codes, text_beq}
use mgba_server.Common.Dict.{insert, lookup, remove}
use mgba_server.Streaming.Control.{
  Json, ControlState, handle_control_message, handle_messages, parse_viewer_control_message,
}
use mgba_server.Streaming.Control.Throttle.{Event, message, keyframe_cached, evictions}

-- Values are texts, and an object has its text for every key.
abbrev plain_json : Json
plain_json = record {
  Value = Text;
  Object = Text;
  F = ℕ;
  from_slice = λ bytes. ok bytes;
  as_object = λ v. some v;
  get = λ key object. some object;
  as_str = λ v. some v;
  as_f64 = λ v. none;
  is_finite = λ x. true;
  is_not_negative = λ x. true;
  float_min = λ a b. min a b;
  from_nat = λ n. n;
  from_f64 = λ x. [];
  from_map = λ m. [];
}

abbrev holding : ControlState plain_json
holding = record { keyframe_cache = (codes "i", 7 ∷ []) ∷ []; last_keyframe_request = 100 }

abbrev messages : List (List ℕ × ℕ)
messages = (codes "keyframe", 650) ∷ (codes "keyframe", 700) ∷ (codes "hello", 2000) ∷ []

abbrev events : List Event
events =
    message (codes "keyframe") 650
    ∷ keyframe_cached (8 ∷ [])
    ∷ message (codes "keyframe") 700
    ∷ message (codes "keyframe") 1200
    ∷ []

evicted_twice : evictions plain_json (codes "i") events holding ≡ 2
unfolding handle_control_message parse_viewer_control_message text_beq remove insert lookup
evicted_twice = refl

evicted_once :
    handle_messages plain_json (codes "i") messages holding
    ≡ record { keyframe_cache = []; last_keyframe_request = 650 }
unfolding handle_messages handle_control_message parse_viewer_control_message text_beq remove
evicted_once = refl
