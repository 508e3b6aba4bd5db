-- ===== src/Mgba/Scheduler/Run.antt =====
-- crates/mgba/src/scheduler.rs: whole runs of the scheduler.
use mgba_server.Common.{
  ℕ, ◌+◌, ◌≤◌, ◌<◌, ◌≡◌, refl, ap, ◌∙◌, List, [], ◌∷◌, ◌++◌, none, some, length, max, arith, inl,
  inr, Option-cases, length-append,
}
use mgba_server.Common.Text.{Text}
use mgba_server.Mgba.Scheduler.{
  ScheduledCommand, CommandKind, CommandPriority, Queues, Outcome, Readings, Scheduler, queue_at,
  pop_next, index, drain, take_command, finish_command, submit_with_priority, start,
  channel_capacity, new_command,
}
use mgba_server.Mgba.Scheduler.Queues.{pop_next-IsPopped, queue_at-priority}
use mgba_server.Mgba.Scheduler.Drain.{
  one, count_commands, count_queues, count_answers, count_commands-append,
}
use mgba_server.Mgba.Scheduler.Worker.{
  IsSound, waiting, held, current_weight, start-IsSound, take_command-IsTaken,
  finish_command-IsFinished, take_command-none,
}

-- The commands of `s` served one after the other, with nothing submitted meanwhile.
unfoldable pub serve : List (Outcome × Readings) → Scheduler → Scheduler
serve [] s = s
serve ((outcome, t) ∷ rounds) s = elim (take_command s) [
  | none ↦ s
  | some s' ↦ serve rounds (finish_command s' outcome t)
]

one-le :
    (r : ℕ) (cs : List ScheduledCommand) → count_commands (one r) cs ≤ count_commands (λ k. 1) cs
one-le r [] = omega arith
one-le r (c ∷ cs) = ground (arith, one-le r cs)

one-le_queues :
    (r : ℕ) (queues : Queues) → count_queues (one r) queues ≤ count_queues (λ k. 1) queues
one-le_queues r [] = omega arith
one-le_queues r (q ∷ queues) = omega (arith, one-le r q, one-le_queues r queues)

all_answered :
    (r : ℕ) (s : Scheduler)
    → waiting (λ k. 1) s ≡ 0
    → s.current ≡ none
    → count_answers (one r) s.answers ≡ held (one r) s
all_answered r s empty idle =
    omega (arith, one-le r s.rx, one-le_queues r s.queues, ap (current_weight (one r)) idle)

serve-answers :
    (rounds : List (Outcome × Readings)) (s : Scheduler) (r : ℕ)
    → IsSound s
    → s.current ≡ none
    → waiting (λ k. 1) s ≤ length rounds
    → count_answers (one r) (serve rounds s).answers ≡ held (one r) s
unfolding serve
serve-answers [] s r h idle enough = all_answered r s (omega arith) idle
serve-answers ((outcome, t) ∷ rounds) s r h idle enough = elim (Option-cases (take_command s)) [
  | inl nothing ↦ rw (nothing, serve) (all_answered r s (take_command-none s nothing) idle)
  | inr (s', found) ↦
      let taken = take_command-IsTaken s s' h found in
      let f = finish_command-IsFinished s' s'.current outcome t refl taken.sound in
      let s'' = finish_command s' outcome t in
      rw (found, serve)
        (serve-answers rounds s'' r f.sound f.idle
            (omega (arith, taken.shorter (λ k. 1), f.not_longer (λ k. 1)))
          ∙ f.kept (one r)
          ∙ taken.kept (one r) idle)
]

-- The schedulers that can be reached, with the requests that were submitted. `submitted` may come
-- between any two steps of the worker.
pub data Reach (s₀ : Scheduler) : List ℕ → Scheduler → Type 0 where
  here : Reach s₀ [] s₀
  submitted :
      (ids : List ℕ) (s s' : Scheduler) (id : ℕ) (kind : CommandKind) (priority : CommandPriority)
      (message : Text) (now timeout_ms : ℕ)
      → Reach s₀ ids s
      → submit_with_priority s id kind priority message now timeout_ms ≡ some s'
      → Reach s₀ (id ∷ ids) s'
  took :
      (ids : List ℕ) (s s' : Scheduler)
      → Reach s₀ ids s
      → s.current ≡ none
      → take_command s ≡ some s'
      → Reach s₀ ids s'
  finished :
      (ids : List ℕ) (s : Scheduler) (outcome : Outcome) (t : Readings)
      → Reach s₀ ids s
      → Reach s₀ ids (finish_command s outcome t)

abbrev pub count_ids : ℕ → List ℕ → ℕ
count_ids r [] = 0
count_ids r (id ∷ ids) = one r id + count_ids r ids

record IsSubmitted (s s' : Scheduler) (id : ℕ) : Type 0 where
  sound : IsSound s'
  added : (w : ℕ → ℕ) → held w s' ≡ w id + held w s

submit-IsSubmitted :
    (s s' : Scheduler) (id : ℕ) (kind : CommandKind) (priority : CommandPriority) (message : Text)
    (now timeout_ms : ℕ)
    → IsSound s
    → submit_with_priority s id kind priority message now timeout_ms ≡ some s'
    → IsSubmitted s s' id
unfolding submit_with_priority
submit-IsSubmitted s s' id kind priority message now timeout_ms h e =
    let c = new_command id kind priority message now timeout_ms in
    let sent : record s { rx = s.rx ++ (c ∷ []) } ≡ s' = ground arith in
    let room : length s.rx < channel_capacity s.capacity_per_priority = ground arith in
    rw (← sent) (record {
      sound = record {
        sorted = h.sorted;
        five = h.five;
        channel = omega (arith, length-append s.rx (c ∷ []));
      };
      added = λ w. omega (arith, count_commands-append w s.rx (c ∷ []));
    })

Reach-IsSound :
    (instance_id : Text) (capacity : ℕ) {ids : List ℕ} {s : Scheduler}
    → Reach (start instance_id capacity) ids s
    → IsSound s × ((r : ℕ) → held (one r) s ≡ count_ids r ids)
Reach-IsSound instance_id capacity here = (start-IsSound instance_id capacity, λ r. omega arith)
Reach-IsSound instance_id capacity
      (submitted ids s s' id kind priority message now timeout_ms run e) =
    let (sound, all) = Reach-IsSound instance_id capacity run in
    let p = submit-IsSubmitted s s' id kind priority message now timeout_ms sound e in
    (p.sound, λ r. omega (arith, p.added (one r), all r))
Reach-IsSound instance_id capacity (took ids s s' run idle e) =
    let (sound, all) = Reach-IsSound instance_id capacity run in
    let p = take_command-IsTaken s s' sound e in (p.sound, λ r. p.kept (one r) idle ∙ all r)
Reach-IsSound instance_id capacity (finished ids s outcome t run) =
    let (sound, all) = Reach-IsSound instance_id capacity run in
    let p = finish_command-IsFinished s s.current outcome t refl sound in
    (p.sound, λ r. p.kept (one r) ∙ all r)

-- In every reachable state each queue has commands of its own priority only and no more than the
-- capacity, the channel is within its own, and each request stands as often among the waiting, the
-- executed and the answered commands together as it was submitted: none is lost, none is answered
-- more often than submitted.
pub Reach-held :
    (instance_id : Text) (capacity : ℕ) (ids : List ℕ) (s : Scheduler)
    → Reach (start instance_id capacity) ids s
    → IsSound s × ((r : ℕ) → held (one r) s ≡ count_ids r ids)
Reach-held instance_id capacity ids s run = Reach-IsSound instance_id capacity run

-- From any reachable state in which the worker is between two commands, as many rounds as commands
-- wait answer every request exactly as often as it was submitted, whatever the calls' outcomes, if
-- nothing is submitted meanwhile.
pub serve_answers_all :
    (instance_id : Text) (capacity : ℕ) (ids : List ℕ) (s : Scheduler)
    (rounds : List (Outcome × Readings)) (r : ℕ)
    → Reach (start instance_id capacity) ids s
    → s.current ≡ none
    → waiting (λ k. 1) s ≤ length rounds
    → count_answers (one r) (serve rounds s).answers ≡ count_ids r ids
serve_answers_all instance_id capacity ids s rounds r run idle enough =
    let (sound, all) = Reach-IsSound instance_id capacity run in
    serve-answers rounds s r sound idle enough ∙ all r

-- The worker takes the oldest command of the most urgent queue that is not empty: the queues of
-- every higher priority are empty.
pub take_command_urgent :
    (s : Scheduler) (c : ScheduledCommand) (queues' : Queues)
    → IsSound s
    → pop_next s.queues ≡ some (c, queues')
    → (s' : Scheduler) × (take_command s ≡ some s')
      × (s'.current ≡ some c)
      × (queue_at (index c.priority) s.queues ≡ c ∷ queue_at (index c.priority) queues')
      × ((p : CommandPriority) → index p < index c.priority → queue_at (index p) s.queues ≡ [])
unfolding take_command
take_command_urgent s c queues' h e =
    let (j, popped) = pop_next-IsPopped s.queues queues' c e in
    let at : index c.priority ≡ j =
      queue_at-priority (max s.capacity_per_priority 1) 0 j s.queues c (queue_at j queues') h.sorted
        popped.front
      ∙ omega arith in
    let m : Scheduler = record s { queues = queues'; current = some c } in
    (
      drain m,
      rw e,
      unfold drain in refl,
      rw at popped.front,
      λ p lt. popped.empty_before (index p) (omega (arith, at)),
    )
