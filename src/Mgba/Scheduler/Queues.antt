-- ===== src/Mgba/Scheduler/Queues.antt =====
-- crates/mgba/src/scheduler.rs: `pop_next`, and what the queues are like.
use mgba_server.Common.{
  ℕ, zero, suc, ◌+◌, ◌≤◌, ◌<◌, ◌≡◌, ◌≢◌, refl, ap, List, [], ◌∷◌, Option, none, some, length, All,
  arith, inl, inr, Option-cases, length-append, All-append,
}
use mgba_server.Mgba.Scheduler.{ScheduledCommand, Queues, queue_at, push_back, pop_next, index}

-- `c` was the oldest command of queue `j`, the queues before it were empty, and the others are as
-- they were.
pub record IsPopped (queues : Queues) (c : ScheduledCommand) (queues' : Queues) (j : ℕ)
    : Type 0 where
  pub front : queue_at j queues ≡ c ∷ queue_at j queues'
  pub empty_before : (i : ℕ) → i < j → queue_at i queues ≡ []
  pub others : (i : ℕ) → i ≢ j → queue_at i queues' ≡ queue_at i queues

first_queue :
    (c : ScheduledCommand) (q : List ScheduledCommand) (queues : Queues)
    → IsPopped ((c ∷ q) ∷ queues) c (q ∷ queues) 0
first_queue c q queues = record {
  front = refl;
  empty_before = λ i lt. absurd (omega arith);
  others = others';
}
  where
    others' : (i : ℕ) → i ≢ 0 → queue_at i (q ∷ queues) ≡ queue_at i ((c ∷ q) ∷ queues)
    others' zero ne = absurd (ne refl)
    others' (suc i) ne = refl

later_queue :
    (queues : Queues) (c : ScheduledCommand) (queues' : Queues) (j : ℕ)
    → IsPopped queues c queues' j
    → IsPopped ([] ∷ queues) c ([] ∷ queues') (suc j)
later_queue queues c queues' j h = record {
  front = h.front;
  empty_before = before;
  others = others';
}
  where
    before : (i : ℕ) → i < suc j → queue_at i ([] ∷ queues) ≡ []
    before zero lt = refl
    before (suc i) lt = h.empty_before i (omega arith)

    others' : (i : ℕ) → i ≢ suc j → queue_at i ([] ∷ queues') ≡ queue_at i ([] ∷ queues)
    others' zero ne = refl
    others' (suc i) ne = h.others i (λ e. ne (ap suc e))

-- `pop_next` takes the oldest command of the first queue that is not empty.
pub pop_next-IsPopped :
    (queues queues' : Queues) (c : ScheduledCommand)
    → pop_next queues ≡ some (c, queues')
    → (j : ℕ) × IsPopped queues c queues' j
unfolding pop_next
pop_next-IsPopped [] queues' c e = absurd (ground arith)
pop_next-IsPopped ((d ∷ q) ∷ queues) queues' c e =
    let rest : q ∷ queues ≡ queues' = ground arith in
    let same : d ≡ c = ground arith in rw (← rest, ← same) (0, first_queue d q queues)
pop_next-IsPopped ([] ∷ queues) queues' c e = elim (Option-cases (pop_next queues)) [
  | inl nothing ↦ absurd (ground (arith, nothing))
  | inr ((d, qs), found) ↦
      let (j, popped) = pop_next-IsPopped queues qs d found in
      let rest : [] ∷ qs ≡ queues' = ground (arith, found) in
      let same : d ≡ c = ground (arith, found) in
      rw (← rest, ← same) (suc j, later_queue queues d qs j popped)
]

-- Nothing is popped only from empty queues.
pub pop_next-none : (queues : Queues) → pop_next queues ≡ none → All (λ q. q ≡ []) queues
unfolding pop_next
pop_next-none [] e = tt
pop_next-none ((c ∷ q) ∷ queues) e = absurd (ground arith)
pop_next-none ([] ∷ queues) e = (refl, pop_next-none queues (rest (pop_next queues) e))
  where
    rest :
        (o : Option (ScheduledCommand × Queues))
        → ◌≡◌ {A = Option (ScheduledCommand × Queues)}
            (elim o [ none ↦ none | some (c, qs) ↦ some (c, [] ∷ qs) ])
            none
        → o ≡ none
    rest none h = refl
    rest (some (c, qs)) h = absurd (ground arith)

-- Each queue has the commands of its own priority, and no more than the capacity.
abbrev pub IsQueue : ℕ → ℕ → List ScheduledCommand → Type 0
IsQueue capacity i q = (length q ≤ capacity) × All (λ c. index c.priority ≡ i) q

abbrev pub AreQueues : ℕ → ℕ → Queues → Type 0
AreQueues capacity i [] = Unit {0}
AreQueues capacity i (q ∷ queues) = IsQueue capacity i q × AreQueues capacity (suc i) queues

pub pop_next-AreQueues :
    (capacity i : ℕ) (queues queues' : Queues) (c : ScheduledCommand)
    → pop_next queues ≡ some (c, queues')
    → AreQueues capacity i queues
    → AreQueues capacity i queues'
unfolding pop_next
pop_next-AreQueues capacity i [] queues' c e h = absurd (ground arith)
pop_next-AreQueues capacity i ((d ∷ q) ∷ queues) queues' c e h =
    let rest : q ∷ queues ≡ queues' = ground arith in rw (← rest) ((omega arith, h.0.1.1), h.1)
pop_next-AreQueues capacity i ([] ∷ queues) queues' c e h = elim (Option-cases (pop_next queues)) [
  | inl nothing ↦ absurd (ground (arith, nothing))
  | inr ((d, qs), found) ↦
      let rest : [] ∷ qs ≡ queues' = ground (arith, found) in
      rw (← rest) (h.0, pop_next-AreQueues capacity (suc i) queues qs d found h.1)
]

pub push_back-AreQueues :
    (capacity i j k : ℕ) (queues : Queues) (c : ScheduledCommand)
    → index c.priority ≡ k
    → i + j ≡ k
    → length (queue_at j queues) < capacity
    → AreQueues capacity i queues
    → AreQueues capacity i (push_back j c queues)
push_back-AreQueues capacity i j k [] c p e lt h = tt
push_back-AreQueues capacity i zero k (q ∷ queues) c p e lt h = (
  (
    omega (arith, length-append q (c ∷ [])),
    All-append (λ d. index d.priority ≡ i) q (c ∷ []) h.0.1 (omega arith, tt),
  ),
  h.1,
)
push_back-AreQueues capacity i (suc j) k (q ∷ queues) c p e lt h =
    (h.0, push_back-AreQueues capacity (suc i) j k queues c p (omega arith) lt h.1)

-- The head of a queue has the queue's priority.
pub queue_at-priority :
    (capacity i j : ℕ) (queues : Queues) (c : ScheduledCommand) (rest : List ScheduledCommand)
    → AreQueues capacity i queues
    → queue_at j queues ≡ c ∷ rest
    → index c.priority ≡ i + j
queue_at-priority capacity i j [] c rest h e = absurd (ground arith)
queue_at-priority capacity i zero (q ∷ queues) c rest h e =
    let all = h.0.1 in ground (arith, rw e at all)
queue_at-priority capacity i (suc j) (q ∷ queues) c rest h e =
    omega (arith, queue_at-priority capacity (suc i) j queues c rest h.1 e)

pub length-pop_next :
    (queues queues' : Queues) (c : ScheduledCommand)
    → pop_next queues ≡ some (c, queues')
    → length queues' ≡ length queues
unfolding pop_next
length-pop_next [] queues' c e = absurd (ground arith)
length-pop_next ((d ∷ q) ∷ queues) queues' c e =
    let rest : q ∷ queues ≡ queues' = ground arith in rw (← rest)
length-pop_next ([] ∷ queues) queues' c e = elim (Option-cases (pop_next queues)) [
  | inl nothing ↦ absurd (ground (arith, nothing))
  | inr ((d, qs), found) ↦
      let rest : [] ∷ qs ≡ queues' = ground (arith, found) in
      rw (← rest) (ap suc (length-pop_next queues qs d found))
]
