-- ===== src/Streaming/InputLog.antt =====
-- crates/streaming/src/input_log.rs: the input events of each session. `sent` has the events that
-- were sent to the session's subscribers; the channel's capacity bounds what a slow one can still
-- read and not what is sent.
pub mod Finish
pub mod History
mod Runs
use mgba_server.Common.{
  ℕ, ◌-◌, List, [], ◌∷◌, ◌++◌, Option, none, some, length, leb, drop, if◌then◌else◌,
}
use mgba_server.Common.Text.{Text, text_eq}
use mgba_server.Common.Integers.{ℤ}
use mgba_server.Common.Dict.{Dict, lookup, insert, remove}

abbrev pub max_recent : ℕ
max_recent = 100

pub data InputEventStatus : Type 0 where
  pending completed failed : InputEventStatus

pub record InputEvent : Type 0 where
  pub event_id : Text
  pub session_id : Text
  pub action : Text
  pub button : Option Text
  pub status : InputEventStatus
  pub started_at : ℕ
  pub completed_at : Option ℕ
  pub latency_ms : Option ℤ

pub record SessionLog : Type 0 where
  pub recent : List InputEvent
  pub pending : Dict Text InputEvent
  pub sent : List InputEvent

abbrev pub new_log : SessionLog
new_log = record { recent = []; pending = []; sent = [] }

-- `InputLogBus`
abbrev pub Sessions : Type 0
Sessions = Dict Text SessionLog

-- `entry(session_id).or_insert_with(SessionLog::new)`
abbrev pub log_of : Option SessionLog → SessionLog
log_of none = new_log
log_of (some log) = log

abbrev pub new_event : Text → Text → Text → Option Text → ℕ → InputEvent
new_event event_id session_id action button now = record {
  event_id = event_id;
  session_id = session_id;
  action = action;
  button = button;
  status = InputEventStatus.pending;
  started_at = now;
  completed_at = none;
  latency_ms = none;
}

abbrev pub with_pending : InputEvent → SessionLog → SessionLog
with_pending event log = record log { pending = insert event.event_id event log.pending }

-- `event_id` is the new UUID, which the call returns.
unfoldable pub begin_input : Text → Text → Text → Option Text → ℕ → Sessions → Sessions
begin_input event_id session_id action button now sessions =
    let event = new_event event_id session_id action button now in
    insert session_id (with_pending event (log_of (lookup session_id sessions))) sessions

-- `pop_front` where the list is full, and `push_back`.
unfoldable pub push_recent : InputEvent → List InputEvent → List InputEvent
push_recent event recent =
    (if leb max_recent (length recent) then drop 1 recent else recent) ++ (event ∷ [])

abbrev pub finished_event : InputEventStatus → Option ℤ → ℕ → InputEvent → InputEvent
finished_event status latency_ms now event = record event {
  status = status;
  completed_at = some now;
  latency_ms = latency_ms;
}

abbrev pub finished_log : Text → InputEvent → SessionLog → SessionLog
finished_log event_id event log = record {
  recent = push_recent event log.recent;
  pending = remove event_id log.pending;
  sent = log.sent ++ (event ∷ []);
}

-- The loop over the sessions ends at the first one in which the event is pending.
unfoldable pub finalize_input : Text → InputEventStatus → Option ℤ → ℕ → Sessions → Sessions
unfolding push_recent
finalize_input event_id status latency_ms now [] = []
finalize_input event_id status latency_ms now ((s, log) ∷ sessions) =
    elim (lookup event_id log.pending) [
      | none ↦ (s, log) ∷ finalize_input event_id status latency_ms now sessions
      | some event ↦
          (s, finished_log event_id (finished_event status latency_ms now event) log) ∷ sessions
    ]

unfoldable pub complete_input : Text → ℤ → ℕ → Sessions → Sessions
unfolding finalize_input
complete_input event_id latency_ms now sessions =
    finalize_input event_id InputEventStatus.completed (some latency_ms) now sessions

unfoldable pub fail_input : Text → ℕ → Sessions → Sessions
unfolding finalize_input
fail_input event_id now sessions = finalize_input event_id InputEventStatus.failed none now sessions

abbrev pub recent_of : Option SessionLog → List InputEvent
recent_of none = []
recent_of (some log) = log.recent

unfoldable pub recent : Text → Sessions → List InputEvent
recent session_id sessions = recent_of (lookup session_id sessions)

-- A subscription creates the session's log where there is none.
unfoldable pub subscribe : Text → Sessions → Sessions
subscribe session_id sessions = insert session_id (log_of (lookup session_id sessions)) sessions
