-- ===== src/Mgba/Scheduler/Worker.antt =====
-- crates/mgba/src/scheduler.rs: the scheduler as a transition system. The worker's awaits are the
-- points at which other tasks submit commands.
use mgba_server.Common.{
  ℕ, ◌+◌, ◌≤◌, ◌≡◌, refl, ap, ◌∙◌, List, [], ◌∷◌, ◌++◌, Option, none, some, length, max, arith, inl,
  inr, Option-cases,
}
use mgba_server.Common.Text.{Text}
use mgba_server.Mgba.Scheduler.{
  ScheduledCommand, Outcome, Readings, Scheduler, replied, failed, timed_out, pop_next, drain,
  drain_available, take_command, finish_command, start, channel_capacity, for_instance, execute,
  next_command, receive,
}
use mgba_server.Mgba.Scheduler.Queues.{
  AreQueues, pop_next-AreQueues, pop_next-none, length-pop_next,
}
use mgba_server.Mgba.Scheduler.Drain.{
  count_commands, count_queues, count_answers, count_answers-append, count-drain_available,
  count-pop_next, count-empty, drain_available-AreQueues,
}

pub record IsSound (s : Scheduler) : Type 0 where
  pub sorted : AreQueues (max s.capacity_per_priority 1) 0 s.queues
  pub five : length s.queues ≡ 5
  pub channel : length s.rx ≤ channel_capacity s.capacity_per_priority

abbrev pub current_weight : (ℕ → ℕ) → Option ScheduledCommand → ℕ
current_weight w none = 0
current_weight w (some c) = w c.request_id

-- Commands that wait in the channel or in a queue.
abbrev pub waiting : (ℕ → ℕ) → Scheduler → ℕ
waiting w s = count_commands w s.rx + count_queues w s.queues

-- All commands that the scheduler knows of: waiting, in execution, answered.
abbrev pub held : (ℕ → ℕ) → Scheduler → ℕ
held w s = waiting w s + current_weight w s.current + count_answers w s.answers

pub start-IsSound : (instance_id : Text) (capacity : ℕ) → IsSound (start instance_id capacity)
start-IsSound instance_id capacity = record {
  sorted = omega arith;
  five = refl;
  channel = omega arith;
}

drain-IsSound : (s : Scheduler) → IsSound s → IsSound (drain s)
unfolding drain
drain-IsSound s h =
    let (sorted', five') =
      drain_available-AreQueues (max s.capacity_per_priority 1) s.instance_id s.rx s.queues h.sorted
        h.five in
    record { sorted = sorted'; five = five'; channel = omega arith }

held-drain : (w : ℕ → ℕ) (s : Scheduler) → IsSound s → held w (drain s) ≡ held w s
unfolding drain
held-drain w s h = omega (
  arith,
  count-drain_available w (max s.capacity_per_priority 1) s.instance_id s.rx s.queues h.five,
  count_answers-append w s.answers
      (drain_available (max s.capacity_per_priority 1) s.instance_id s.rx s.queues).1,
)

waiting-drain : (w : ℕ → ℕ) (s : Scheduler) → IsSound s → waiting w (drain s) ≤ waiting w s
unfolding drain
waiting-drain w s h = omega (
  arith,
  count-drain_available w (max s.capacity_per_priority 1) s.instance_id s.rx s.queues h.five,
)

-- The choice of a command, before the drain.
record IsChosen (s s' : Scheduler) : Type 0 where
  chosen : ScheduledCommand
  current : s'.current ≡ some chosen
  sound : IsSound s → IsSound s'
  answers : s'.answers ≡ s.answers
  weight : (w : ℕ → ℕ) → waiting w s ≡ w chosen.request_id + waiting w s'

receive-IsChosen :
    (s s' : Scheduler) (rx : List ScheduledCommand)
    → s.rx ≡ rx
    → receive s rx ≡ some s'
    → IsChosen s s'
receive-IsChosen s s' [] same e = absurd (ground arith)
receive-IsChosen s s' (c ∷ rx) same e =
    let taken : record s { rx = rx; current = some (for_instance s.instance_id c) } ≡ s' =
      ground arith in
    rw (← taken) (record {
      chosen = for_instance s.instance_id c;
      current = refl;
      sound = λ h. record {
        sorted = h.sorted;
        five = h.five;
        channel = omega (arith, h.channel, ap length same);
      };
      answers = refl;
      weight = λ w. omega (arith, ap (count_commands w) same);
    })

nothing_received :
    (s : Scheduler) (rx : List ScheduledCommand)
    → s.rx ≡ rx
    → receive s rx ≡ none
    → count_commands (λ r. 1) s.rx ≡ 0
nothing_received s [] same e = ap (count_commands (λ r. 1)) same
nothing_received s (c ∷ rx) same e = absurd (ground arith)

next_command-IsChosen :
    (s s' : Scheduler) → next_command s (pop_next s.queues) ≡ some s' → IsChosen s s'
next_command-IsChosen s s' e = elim (Option-cases (pop_next s.queues)) [
  | inr ((c, qs), found) ↦
      let taken : record s { queues = qs; current = some c } ≡ s' = ground (arith, found) in
      rw (← taken) (record {
        chosen = c;
        current = refl;
        sound = λ h. record {
          sorted =
              pop_next-AreQueues (max s.capacity_per_priority 1) 0 s.queues qs c found h.sorted;
          five = length-pop_next s.queues qs c found ∙ h.five;
          channel = h.channel;
        };
        answers = refl;
        weight = λ w. omega (arith, count-pop_next w s.queues qs c found);
      })
  | inl nothing ↦ receive-IsChosen s s' s.rx refl (rw nothing at e)
]

-- What `take_command` does to a sound state.
pub record IsTaken (s s' : Scheduler) : Type 0 where
  pub taken : ScheduledCommand
  pub current : s'.current ≡ some taken
  pub sound : IsSound s'
  pub kept : (w : ℕ → ℕ) → s.current ≡ none → held w s' ≡ held w s
  pub shorter : (w : ℕ → ℕ) → waiting w s' + w taken.request_id ≤ waiting w s

pub take_command-IsTaken : (s s' : Scheduler) → IsSound s → take_command s ≡ some s' → IsTaken s s'
unfolding take_command
take_command-IsTaken s s' h e = elim (Option-cases (next_command s (pop_next s.queues))) [
  | inl nothing ↦ absurd (ground (arith, nothing))
  | inr (m, found) ↦
      let drained : drain m ≡ s' = ground (arith, found) in
      let c = next_command-IsChosen s m found in
      let sound = c.sound h in
      rw (← drained) (record {
        taken = c.chosen;
        current = unfold drain in c.current;
        sound = drain-IsSound m sound;
        kept = λ w none_before. omega (
          arith,
          held-drain w m sound,
          c.weight w,
          ap (current_weight w) c.current,
          ap (current_weight w) none_before,
          ap (count_answers w) c.answers,
        );
        shorter = λ w. omega (arith, waiting-drain w m sound, c.weight w);
      })
]

execute-request_id :
    (c : ScheduledCommand) (outcome : Outcome) (t : Readings)
    → (execute c outcome t).request_id ≡ c.request_id
unfolding execute
execute-request_id c (replied response) t = refl
execute-request_id c (failed error) t = refl
execute-request_id c timed_out t = refl

-- What `finish_command` does to a sound state.
pub record IsFinished (s s' : Scheduler) : Type 0 where
  pub idle : s'.current ≡ none
  pub sound : IsSound s'
  pub kept : (w : ℕ → ℕ) → held w s' ≡ held w s
  pub not_longer : (w : ℕ → ℕ) → waiting w s' ≤ waiting w s

pub finish_command-IsFinished :
    (s : Scheduler) (o : Option ScheduledCommand) (outcome : Outcome) (t : Readings)
    → s.current ≡ o
    → IsSound s
    → IsFinished s (finish_command s outcome t)
unfolding finish_command
finish_command-IsFinished s none outcome t e h =
    let unchanged : finish_command s outcome t ≡ s = ground arith in
    rw unchanged (record { idle = e; sound = h; kept = λ w. refl; not_longer = λ w. omega arith })
finish_command-IsFinished s (some c) outcome t e h =
    let m : Scheduler = record s {
      current = none;
      answers = s.answers ++ (execute c outcome t ∷ []);
    } in
    let sound : IsSound m = record { sorted = h.sorted; five = h.five; channel = h.channel } in
    let finished : finish_command s outcome t ≡ drain m = ground arith in
    rw finished (record {
      idle = unfold drain in refl;
      sound = drain-IsSound m sound;
      kept = λ w. omega (
        arith,
        held-drain w m sound,
        ap (current_weight w) e,
        count_answers-append w s.answers (execute c outcome t ∷ []),
        ap w (execute-request_id c outcome t),
      );
      not_longer = λ w. waiting-drain w m sound;
    })

-- `take_command` finds a command unless none waits.
pub take_command-none : (s : Scheduler) → take_command s ≡ none → waiting (λ r. 1) s ≡ 0
unfolding take_command
take_command-none s e = elim (Option-cases (pop_next s.queues)) [
  | inl nothing ↦ omega (
    arith,
    count-empty (λ r. 1) s.queues (pop_next-none s.queues nothing),
    nothing_received s s.rx refl (ground (arith, nothing)),
  )
  | inr (p, found) ↦ absurd (ground (arith, found))
]
