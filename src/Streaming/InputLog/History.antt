-- ===== src/Streaming/InputLog/History.antt =====
-- crates/streaming/src/input_log.rs: the recent events of a session after any history of calls.
use mgba_server.Common.{
  ℕ, suc, ◌+◌, ◌-◌, ◌≤◌, ◌≡◌, ◌≢◌, refl, false, sym, ap, ◌∙◌, List, [], ◌∷◌, ◌++◌, Option, none,
  some, length, leb, drop, if◌then◌else◌, Bool-cases, Option-cases, inl, inr, arith, drop_append_le,
  drop_add, length-drop, length-append,
}
use mgba_server.Common.Text.{Text, text_eq, text_beq, text_beq_iff, text_beq_refl}
use mgba_server.Common.Integers.{ℤ}
use mgba_server.Common.Dict.{IsUnique, insert-IsUnique, lookup, insert, lookup-insert}
use mgba_server.Streaming.InputLog.{
  InputEvent, InputEventStatus, SessionLog, Sessions, new_event, with_pending, log_of, begin_input,
  push_recent, finished_event, finished_log, finalize_input, recent, subscribe, max_recent,
}

push_recent-drop :
    (event : InputEvent) (sent : List InputEvent)
    → push_recent event (drop (length sent - max_recent) sent)
      ≡ drop (length (sent ++ (event ∷ [])) - max_recent) (sent ++ (event ∷ []))
unfolding push_recent
push_recent-drop event sent =
    let n = length-append sent (event ∷ []) in
    let k = length-drop (length sent - max_recent) sent in
    elim (Bool-cases (leb max_recent (length (drop (length sent - max_recent) sent)))) [
      | inl full ↦
          let many : max_recent ≤ length sent = ground (arith, full, k) in
          let next : length (sent ++ (event ∷ [])) - max_recent ≡ length sent - max_recent + 1 =
            omega (arith, n, many) in
          rw
            (
              full,
              next,
              drop_append_le (length sent - max_recent + 1) sent (event ∷ []) (omega (arith, many)),
            )
            (ap (λ l. l ++ (event ∷ [])) (sym (drop_add (length sent - max_recent) 1 sent)))
      | inr more ↦
          let few : suc (length sent) ≤ max_recent = ground (arith, more, k) in
          let front : length sent - max_recent ≡ 0 = omega (arith, few) in
          let whole : length (sent ++ (event ∷ [])) - max_recent ≡ 0 = omega (arith, n, few) in
          rw (more, front, whole) refl
    ]

-- The first session in which the event is pending, with the event as it was begun.
abbrev pub pending_in : Text → Sessions → Option (Text × InputEvent)
pending_in id [] = none
pending_in id ((s, log) ∷ sessions) = elim (lookup id log.pending) [
  | none ↦ pending_in id sessions
  | some event ↦ some (s, event)
]

-- The logs that calls in any order reach, with the events that were finished by then, each beside its
-- session.
pub data Reach : Sessions → List (Text × InputEvent) → Type 0 where
  none_yet : Reach [] []
  began :
      (sessions : Sessions) (history : List (Text × InputEvent)) (id s action : Text)
      (button : Option Text) (now : ℕ)
      → Reach sessions history
      → Reach (begin_input id s action button now sessions) history
  finished :
      (sessions : Sessions) (history : List (Text × InputEvent)) (id s : Text) (event : InputEvent)
      (status : InputEventStatus) (latency : Option ℤ) (now : ℕ)
      → pending_in id sessions ≡ some (s, event)
      → Reach sessions history
      → Reach (finalize_input id status latency now sessions) (
          history
          ++ ((s, record event { status = status; completed_at = some now; latency_ms = latency })
              ∷ []))
  not_pending :
      (sessions : Sessions) (history : List (Text × InputEvent)) (id : Text)
      (status : InputEventStatus) (latency : Option ℤ) (now : ℕ)
      → pending_in id sessions ≡ none
      → Reach sessions history
      → Reach (finalize_input id status latency now sessions) history
  subscribed :
      (sessions : Sessions) (history : List (Text × InputEvent)) (s : Text)
      → Reach sessions history
      → Reach (subscribe s sessions) history

abbrev pub finished_in : Text → List (Text × InputEvent) → List InputEvent
finished_in s [] = []
finished_in s ((t, event) ∷ history) =
    if text_beq t s then event ∷ finished_in s history else finished_in s history

-- The log of each session has the events that were finished in it: the last 100 of them, and all of
-- them as they were sent.
abbrev pub Keeps : SessionLog → List InputEvent → Type 0
Keeps log events = (log.recent ≡ drop (length events - 100) events) × (log.sent ≡ events)

abbrev Tracks : Sessions → List (Text × InputEvent) → Type 0
Tracks sessions history = (j : Text) → Keeps (log_of (lookup j sessions)) (finished_in j history)

finished_in-append :
    (j s : Text) (event : InputEvent) (history : List (Text × InputEvent))
    → finished_in j (history ++ ((s, event) ∷ []))
      ≡ (if text_beq s j then finished_in j history ++ (event ∷ []) else finished_in j history)
finished_in-append j s event [] = ground arith
finished_in-append j s event ((t, e) ∷ history) =
    ground (arith, finished_in-append j s event history)

pending_in-lookup :
    (id s : Text) (event : InputEvent) (sessions : Sessions)
    → pending_in id sessions ≡ some (s, event)
    → lookup s sessions ≢ none
unfolding lookup
pending_in-lookup id s event [] e = absurd (cc e)
pending_in-lookup id s event ((t, log) ∷ sessions) e = elim (Bool-cases (text_beq t s)) [
  | inl p ↦ rw p (λ nothing. absurd (cc nothing))
  | inr p ↦ elim (Option-cases (lookup id log.pending)) [
    | inl absent ↦ rw p (pending_in-lookup id s event sessions (rw (absent, pending_in) at e))
    | inr (ev, present) ↦
        let same : t ≡ s = cc (rw (present, pending_in) at e) in
        absurd (cc (p, (text_beq_iff t s).1 same))
  ]
]

-- Only the log of that session changes.
lookup-finalize :
    (id s j : Text) (event : InputEvent) (status : InputEventStatus) (latency : Option ℤ) (now : ℕ)
    (sessions : Sessions)
    → IsUnique sessions
    → pending_in id sessions ≡ some (s, event)
    → lookup j (finalize_input id status latency now sessions) ≡ (
        if text_beq s j
        then some
            (finished_log id (finished_event status latency now event) (log_of (lookup s sessions)))
        else lookup j sessions)
unfolding lookup finalize_input
lookup-finalize id s j event status latency now [] u e = absurd (cc e)
lookup-finalize id s j event status latency now ((t, log) ∷ sessions) u e =
    elim (Option-cases (lookup id log.pending)) [
      | inr (ev, present) ↦
          let here : t ≡ s = cc (rw (present, pending_in) at e) in
          let same : ev ≡ event = cc (rw (present, pending_in) at e) in
          rw (present, finalize_input, ← here, ← same, text_beq_refl t)
            (elim (Bool-cases (text_beq t j)) [ inl q ↦ rw q refl | inr q ↦ rw q refl ])
      | inl absent ↦
          let later : pending_in id sessions ≡ some (s, event) = rw (absent, pending_in) at e in
          let ih = lookup-finalize id s j event status latency now sessions u.1 later in
          elim (Bool-cases (text_beq t s)) [
            | inl p ↦
                let same = (text_beq_iff t s).0 p in
                absurd (pending_in-lookup id s event sessions later (rw (← same) u.0))
            | inr p ↦
                rw (absent, finalize_input, p, ih)
                  (elim (Bool-cases (text_beq t j)) [
                    | inr q ↦ rw q refl
                    | inl q ↦
                        let other : text_beq s j ≡ false =
                          ground
                            (arith, p, q, text_beq_iff t s, text_beq_iff t j, text_beq_iff s j) in
                        rw (q, other) refl
                  ])
          ]
    ]

finalize-not_pending :
    (id : Text) (status : InputEventStatus) (latency : Option ℤ) (now : ℕ) (sessions : Sessions)
    → pending_in id sessions ≡ none
    → finalize_input id status latency now sessions ≡ sessions
unfolding finalize_input
finalize-not_pending id status latency now [] e = refl
finalize-not_pending id status latency now ((t, log) ∷ sessions) e =
    elim (Option-cases (lookup id log.pending)) [
      | inr (ev, present) ↦ absurd (cc (rw (present, pending_in) at e))
      | inl absent ↦
          rw (absent, finalize_input)
            (ap (◌∷◌ (t, log))
              (finalize-not_pending id status latency now sessions (rw (absent, pending_in) at e)))
    ]

finalize-absent :
    (id j : Text) (status : InputEventStatus) (latency : Option ℤ) (now : ℕ) (sessions : Sessions)
    → lookup j sessions ≡ none
    → lookup j (finalize_input id status latency now sessions) ≡ none
unfolding lookup finalize_input
finalize-absent id j status latency now [] e = refl
finalize-absent id j status latency now ((t, log) ∷ sessions) e = elim (Bool-cases (text_beq t j)) [
  | inl p ↦ absurd (cc (rw p at e))
  | inr p ↦ elim (Option-cases (lookup id log.pending)) [
    | inl absent ↦
        rw (absent, finalize_input, p)
          (finalize-absent id j status latency now sessions (rw p at e))
    | inr (ev, present) ↦ rw (present, finalize_input, p) (rw p at e)
  ]
]

finalize-IsUnique :
    (id : Text) (status : InputEventStatus) (latency : Option ℤ) (now : ℕ) (sessions : Sessions)
    → IsUnique sessions
    → IsUnique (finalize_input id status latency now sessions)
unfolding finalize_input
finalize-IsUnique id status latency now [] u = tt
finalize-IsUnique id status latency now ((t, log) ∷ sessions) u =
    elim (Option-cases (lookup id log.pending)) [
      | inl absent ↦
          rw (absent, finalize_input)
            (
              finalize-absent id t status latency now sessions u.0,
              finalize-IsUnique id status latency now sessions u.1,
            )
      | inr (ev, present) ↦ rw (present, finalize_input) u
    ]

Reach-IsUnique :
    {sessions : Sessions} {history : List (Text × InputEvent)}
    → Reach sessions history
    → IsUnique sessions
unfolding begin_input subscribe
Reach-IsUnique none_yet = tt
Reach-IsUnique (began sessions history id s action button now run) =
    insert-IsUnique s _ sessions (Reach-IsUnique run)
Reach-IsUnique (finished sessions history id s event status latency now there run) =
    finalize-IsUnique id status latency now sessions (Reach-IsUnique run)
Reach-IsUnique (not_pending sessions history id status latency now absent run) =
    finalize-IsUnique id status latency now sessions (Reach-IsUnique run)
Reach-IsUnique (subscribed sessions history s run) =
    insert-IsUnique s _ sessions (Reach-IsUnique run)

-- A log that differs in its pending events only.
insert-Tracks :
    (s : Text) (log : SessionLog) (sessions : Sessions) (history : List (Text × InputEvent))
    → log.recent ≡ (log_of (lookup s sessions)).recent
    → log.sent ≡ (log_of (lookup s sessions)).sent
    → Tracks sessions history
    → Tracks (insert s log sessions) history
insert-Tracks s log sessions history recent sent h j =
    rw (lookup-insert s j log sessions) (elim (Bool-cases (text_beq s j)) [
      | inl p ↦
          let same = (text_beq_iff s j).0 p in
          let k = h s in rw (p, ← same) (recent ∙ k.0, sent ∙ k.1)
      | inr p ↦ rw p (h j)
    ])

finalize-Tracks :
    (id s : Text) (event : InputEvent) (status : InputEventStatus) (latency : Option ℤ) (now : ℕ)
    (sessions : Sessions) (history : List (Text × InputEvent))
    → IsUnique sessions
    → pending_in id sessions ≡ some (s, event)
    → Tracks sessions history
    → Tracks
        (finalize_input id status latency now sessions)
        (history ++ ((s, finished_event status latency now event) ∷ []))
finalize-Tracks id s event status latency now sessions history u e h j =
    let done = finished_event status latency now event in
    rw
      (
        lookup-finalize id s j event status latency now sessions u e,
        finished_in-append j s done history,
      )
      (elim (Bool-cases (text_beq s j)) [
        | inl p ↦
            let same = (text_beq_iff s j).0 p in
            let k = h s in
            rw (p, ← same)
              (
                ap (push_recent done) k.0 ∙ push_recent-drop done (finished_in s history),
                ap (λ l. l ++ (done ∷ [])) k.1,
              )
        | inr p ↦ rw p (h j)
      ])

Reach-Tracks :
    {sessions : Sessions} {history : List (Text × InputEvent)}
    → Reach sessions history
    → Tracks sessions history
unfolding begin_input subscribe lookup
Reach-Tracks none_yet = λ j. (refl, refl)
Reach-Tracks (began sessions history id s action button now run) =
    insert-Tracks s (with_pending (new_event id s action button now) (log_of (lookup s sessions)))
      sessions history refl refl (Reach-Tracks run)
Reach-Tracks (finished sessions history id s event status latency now there run) =
    finalize-Tracks id s event status latency now sessions history (Reach-IsUnique run) there
      (Reach-Tracks run)
Reach-Tracks (not_pending sessions history id status latency now absent run) =
    rw (finalize-not_pending id status latency now sessions absent) (Reach-Tracks run)
Reach-Tracks (subscribed sessions history s run) =
    insert-Tracks s (log_of (lookup s sessions)) sessions history refl refl (Reach-Tracks run)

-- After calls in any order, where the history has for each call that finishes a pending event that
-- event with its result, under its session: the recent events of a session are the last 100 that were
-- finished in it, in their order, or all of them where there are fewer, and each of them was sent to
-- the session's subscribers once, in the same order.
pub Reach-recent :
    (s : Text) (sessions : Sessions) (history : List (Text × InputEvent))
    → Reach sessions history
    → Keeps (log_of (lookup s sessions)) (finished_in s history)
Reach-recent s sessions history run = Reach-Tracks run s
