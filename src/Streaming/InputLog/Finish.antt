-- ===== src/Streaming/InputLog/Finish.antt =====
-- crates/streaming/src/input_log.rs: what a finished input leaves.
use mgba_server.Common.{
  ℕ, ◌≡◌, refl, ap, ◌∙◌, [], ◌∷◌, Option, none, some, if◌then◌else◌, Bool-cases, inl, inr,
}
use mgba_server.Common.Text.{Text, text_eq, text_beq, text_beq_refl}
use mgba_server.Common.Integers.{ℤ}
use mgba_server.Common.Dict.{lookup, insert, lookup-insert, lookup-remove}
use mgba_server.Streaming.InputLog.{
  InputEvent, InputEventStatus, SessionLog, Sessions, new_event, with_pending, log_of, begin_input,
  push_recent, finished_event, finished_log, finalize_input, recent_of, recent,
}

-- The event is pending in no session.
abbrev pub IsFinished : Text → Sessions → Type 0
IsFinished event_id [] = Unit {0}
IsFinished event_id ((s, log) ∷ sessions) =
    (lookup event_id log.pending ≡ none) × IsFinished event_id sessions

finalize-insert :
    (id s : Text) (status : InputEventStatus) (latency : Option ℤ) (now : ℕ) (event : InputEvent)
    (log : SessionLog) (sessions : Sessions)
    → IsFinished id sessions
    → lookup id log.pending ≡ some event
    → finalize_input id status latency now (insert s log sessions)
      ≡ insert s (finished_log id (finished_event status latency now event) log) sessions
unfolding finalize_input insert
finalize-insert id s status latency now event log [] f e = rw (e, finalize_input) refl
finalize-insert id s status latency now event log ((t, other) ∷ sessions) f e =
    elim (Bool-cases (text_beq t s)) [
      | inl p ↦ rw (p, finalize_input) (rw e refl)
      | inr p ↦
          rw (p, finalize_input)
            (rw (f.0) (
              ap (◌∷◌ (t, other))
                (finalize-insert id s status latency now event log sessions f.1 e)))
    ]

insert-IsFinished :
    (id s : Text) (log : SessionLog) (sessions : Sessions)
    → IsFinished id sessions
    → lookup id log.pending ≡ none
    → IsFinished id (insert s log sessions)
unfolding insert
insert-IsFinished id s log [] f e = (e, tt)
insert-IsFinished id s log ((t, other) ∷ sessions) f e = elim (Bool-cases (text_beq t s)) [
  | inl p ↦ rw p (e, f.1)
  | inr p ↦ rw p (f.0, insert-IsFinished id s log sessions f.1 e)
]

-- The state after an input that was begun and finished with nothing in between.
finalize-begin :
    (id s action : Text) (button : Option Text) (status : InputEventStatus) (latency : Option ℤ)
    (now later : ℕ) (sessions : Sessions)
    → IsFinished id sessions
    → (let event = new_event id s action button now in
        finalize_input id status latency later (begin_input id s action button now sessions)
        ≡ insert s
            (finished_log id
              (finished_event status latency later event)
              (with_pending event (log_of (lookup s sessions))))
            sessions)
unfolding begin_input
finalize-begin id s action button status latency now later sessions f =
    let event = new_event id s action button now in
    let log = log_of (lookup s sessions) in
    finalize-insert id s status latency later event (with_pending event log) sessions f
      (lookup-insert id id event log.pending ∙ rw (text_beq_refl id) refl)

recent_of-log_of : (o : Option SessionLog) → (log_of o).recent ≡ recent_of o
recent_of-log_of none = refl
recent_of-log_of (some log) = refl

-- An input that is begun under a new id and then finished is the last of its session's recent
-- events, with the result that it was finished with; no other session's recent events change, and the
-- event is not pending any more.
pub recent-finalize-begin :
    (id s action : Text) (button : Option Text) (status : InputEventStatus) (latency : Option ℤ)
    (now later : ℕ) (sessions : Sessions)
    → IsFinished id sessions
    → (let event = finished_event status latency later (new_event id s action button now) in
        let after =
          finalize_input id status latency later (begin_input id s action button now sessions) in
        ((j : Text)
          → recent j after
            ≡ (if text_beq s j then push_recent event (recent s sessions) else recent j sessions))
        × IsFinished id after)
unfolding recent
recent-finalize-begin id s action button status latency now later sessions f =
    let event = new_event id s action button now in
    let old = log_of (lookup s sessions) in
    let log =
      finished_log id (finished_event status latency later event) (with_pending event old) in
    let same = recent_of-log_of (lookup s sessions) in
    rw (finalize-begin id s action button status latency now later sessions f) (
      (λ j.
          rw (lookup-insert s j log sessions)
            (elim (Bool-cases (text_beq s j)) [ inl p ↦ rw (p, ← same) refl | inr p ↦ rw p refl ])),
      insert-IsFinished id s log sessions f
          (lookup-remove id id (insert id event old.pending) ∙ rw (text_beq_refl id) refl),
    )
