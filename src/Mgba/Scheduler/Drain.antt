-- ===== src/Mgba/Scheduler/Drain.antt =====
-- crates/mgba/src/scheduler.rs: `drain_available`.
use mathlib.Core.List.{append-nil, append_assoc}
use mgba_server.Common.{
  ℕ, zero, suc, ◌+◌, ◌≤◌, ◌<◌, ◌≡◌, ◌≢◌, refl, sym, ap, ◌∙◌, List, [], ◌∷◌, ◌++◌, some, length,
  take, take_all, take_append_le, All, arith, leb, ◌==◌, if◌then◌else◌, inl, inr, Bool-cases,
  Option-cases,
}
use mgba_server.Common.Text.{Text}
use mgba_server.Mgba.Scheduler.{
  ScheduledCommand, CommandPriority, Queues, Answer, queue_at, push_back, drain_available, pop_next,
  index, for_instance,
}
use mgba_server.Mgba.Scheduler.Queues.{AreQueues, push_back-AreQueues}

pub index-lt : (p : CommandPriority) → index p < 5
index-lt CommandPriority.control = omega arith
index-lt CommandPriority.memory_read = omega arith
index-lt CommandPriority.health = omega arith
index-lt CommandPriority.state = omega arith
index-lt CommandPriority.frame_capture = omega arith

length-push_back :
    (j : ℕ) (c : ScheduledCommand) (qs : Queues) → length (push_back j c qs) ≡ length qs
length-push_back j c [] = refl
length-push_back zero c (q ∷ qs) = refl
length-push_back (suc j) c (q ∷ qs) = ap suc (length-push_back j c qs)

queue_at-push_back :
    (j : ℕ) (c : ScheduledCommand) (qs : Queues)
    → j < length qs
    → queue_at j (push_back j c qs) ≡ queue_at j qs ++ (c ∷ [])
queue_at-push_back j c [] h = absurd (omega arith)
queue_at-push_back zero c (q ∷ qs) h = refl
queue_at-push_back (suc j) c (q ∷ qs) h = queue_at-push_back j c qs (omega arith)

queue_at-push_back_ne :
    (i j : ℕ) (c : ScheduledCommand) (qs : Queues)
    → j ≢ i
    → queue_at i (push_back j c qs) ≡ queue_at i qs
queue_at-push_back_ne i j c [] ne = refl
queue_at-push_back_ne zero zero c (q ∷ qs) ne = absurd (ne refl)
queue_at-push_back_ne zero (suc j) c (q ∷ qs) ne = refl
queue_at-push_back_ne (suc i) zero c (q ∷ qs) ne = refl
queue_at-push_back_ne (suc i) (suc j) c (q ∷ qs) ne =
    queue_at-push_back_ne i j c qs (λ e. ne (ap suc e))

pub queue_at-length :
    (capacity k i : ℕ) (qs : Queues) → AreQueues capacity k qs → length (queue_at i qs) ≤ capacity
queue_at-length capacity k i [] h = omega arith
queue_at-length capacity k zero (q ∷ qs) h = h.0.0
queue_at-length capacity k (suc i) (q ∷ qs) h = queue_at-length capacity (suc k) i qs h.1

module _ (capacity : ℕ) (instance_id : Text) where
  -- One command of the channel.
  unfoldable pub admit : ScheduledCommand → Queues → Queues
  admit c queues =
      if leb capacity (length (queue_at (index c.priority) queues))
      then queues
      else push_back (index c.priority) (for_instance instance_id c) queues

  pub admit-AreQueues :
      (c : ScheduledCommand) (queues : Queues)
      → AreQueues capacity 0 queues
      → AreQueues capacity 0 (admit c queues)
  unfolding admit
  admit-AreQueues c queues h =
      elim (Bool-cases (leb capacity (length (queue_at (index c.priority) queues)))) [
        | inl full ↦ rw full h
        | inr room ↦ rw room (
            push_back-AreQueues capacity 0 (index c.priority) (index c.priority) queues
              (for_instance instance_id c) refl (omega arith) (ground arith) h)
      ]

  length-admit : (c : ScheduledCommand) (queues : Queues) → length (admit c queues) ≡ length queues
  unfolding admit
  length-admit c queues =
      ground (arith, length-push_back (index c.priority) (for_instance instance_id c) queues)

  pub drain_available-AreQueues :
      (rx : List ScheduledCommand) (queues : Queues)
      → AreQueues capacity 0 queues
      → length queues ≡ 5
      → AreQueues capacity 0 (drain_available capacity instance_id rx queues).0
        × (length (drain_available capacity instance_id rx queues).0 ≡ 5)
  unfolding drain_available admit
  drain_available-AreQueues [] queues h l = (h, l)
  drain_available-AreQueues (c ∷ rx) queues h l =
      drain_available-AreQueues rx (admit c queues) (admit-AreQueues c queues h)
        (length-admit c queues ∙ l)

  -- The commands of the channel with a given priority, oldest first.
  abbrev pub arrivals : ℕ → List ScheduledCommand → List ScheduledCommand
  arrivals i [] = []
  arrivals i (c ∷ rx) =
      let rest = arrivals i rx in
      if index c.priority == i then for_instance instance_id c ∷ rest else rest

  take-admit :
      (i : ℕ) (c : ScheduledCommand) (rx : List ScheduledCommand) (queues : Queues)
      → AreQueues capacity 0 queues
      → length queues ≡ 5
      → take capacity (queue_at i (admit c queues) ++ arrivals i rx)
        ≡ take capacity (queue_at i queues ++ arrivals i (c ∷ rx))
  unfolding admit
  take-admit i c rx queues h l =
      let c' = for_instance instance_id c in
      let q = queue_at i queues in
      ground (
        arith,
        index-lt c.priority,
        take_append_le capacity q (arrivals i rx),
        take_append_le capacity q (c' ∷ arrivals i rx),
        queue_at-push_back (index c.priority) c' queues,
        queue_at-push_back_ne i (index c.priority) c' queues,
        append_assoc q (c' ∷ []) (arrivals i rx),
      )

  -- Each queue takes the commands of its priority behind its own, in the order of their arrival,
  -- until it is full.
  pub queue_at-drain_available :
      (i : ℕ) (rx : List ScheduledCommand) (queues : Queues)
      → AreQueues capacity 0 queues
      → length queues ≡ 5
      → queue_at i (drain_available capacity instance_id rx queues).0
        ≡ take capacity (queue_at i queues ++ arrivals i rx)
  unfolding drain_available admit
  queue_at-drain_available i [] queues h l = sym (
      rw append-nil (take_all capacity (queue_at i queues) (queue_at-length capacity 0 i queues h)))
  queue_at-drain_available i (c ∷ rx) queues h l =
      queue_at-drain_available i rx (admit c queues) (admit-AreQueues c queues h)
        (length-admit c queues ∙ l)
      ∙ take-admit i c rx queues h l

-- The sum of a weight of the requests among commands, in queues and among answers. With the weight
-- `one r` it counts the request `r`, with the weight 1 it measures.
abbrev pub one : ℕ → ℕ → ℕ
one r a = if a == r then 1 else 0

abbrev pub count_commands : (ℕ → ℕ) → List ScheduledCommand → ℕ
count_commands w [] = 0
count_commands w (c ∷ cs) = w c.request_id + count_commands w cs

abbrev pub count_queues : (ℕ → ℕ) → Queues → ℕ
count_queues w [] = 0
count_queues w (q ∷ queues) = count_commands w q + count_queues w queues

abbrev pub count_answers : (ℕ → ℕ) → List Answer → ℕ
count_answers w [] = 0
count_answers w (a ∷ answers) = w a.request_id + count_answers w answers

pub count_commands-append :
    (w : ℕ → ℕ) (cs ds : List ScheduledCommand)
    → count_commands w (cs ++ ds) ≡ count_commands w cs + count_commands w ds
count_commands-append w [] ds = omega arith
count_commands-append w (c ∷ cs) ds = omega (arith, count_commands-append w cs ds)

pub count_answers-append :
    (w : ℕ → ℕ) (xs ys : List Answer)
    → count_answers w (xs ++ ys) ≡ count_answers w xs + count_answers w ys
count_answers-append w [] ys = omega arith
count_answers-append w (x ∷ xs) ys = omega (arith, count_answers-append w xs ys)

count_queues-push_back :
    (w : ℕ → ℕ) (j : ℕ) (c : ScheduledCommand) (queues : Queues)
    → j < length queues
    → count_queues w (push_back j c queues) ≡ count_queues w queues + w c.request_id
count_queues-push_back w j c [] h = absurd (omega arith)
count_queues-push_back w zero c (q ∷ queues) h = omega (arith, count_commands-append w q (c ∷ []))
count_queues-push_back w (suc j) c (q ∷ queues) h =
    omega (arith, count_queues-push_back w j c queues (omega arith))

-- The drain puts every command of the channel in a queue or answers it, and does one of the two.
pub count-drain_available :
    (w : ℕ → ℕ) (capacity : ℕ) (instance_id : Text) (rx : List ScheduledCommand) (queues : Queues)
    → length queues ≡ 5
    → count_queues w (drain_available capacity instance_id rx queues).0
        + count_answers w (drain_available capacity instance_id rx queues).1
      ≡ count_queues w queues + count_commands w rx
unfolding drain_available
count-drain_available w capacity instance_id [] queues l = omega arith
count-drain_available w capacity instance_id (c ∷ rx) queues l =
    elim (Bool-cases (leb capacity (length (queue_at (index c.priority) queues)))) [
      | inl full ↦ rw full (omega (arith, count-drain_available w capacity instance_id rx queues l))
      | inr room ↦
          let pushed = push_back (index c.priority) (for_instance instance_id c) queues in
          let l' : length pushed ≡ 5 =
            length-push_back (index c.priority) (for_instance instance_id c) queues ∙ l in
          rw room (
            omega (
              arith,
              index-lt c.priority,
              count_queues-push_back w (index c.priority) (for_instance instance_id c) queues,
              count-drain_available w capacity instance_id rx pushed l',
            ))
    ]

-- A popped command leaves the queues, and nothing else does.
pub count-pop_next :
    (w : ℕ → ℕ) (queues queues' : Queues) (c : ScheduledCommand)
    → pop_next queues ≡ some (c, queues')
    → count_queues w queues ≡ w c.request_id + count_queues w queues'
unfolding pop_next
count-pop_next w [] queues' c e = absurd (ground arith)
count-pop_next w ((d ∷ q) ∷ queues) queues' c e =
    let rest : q ∷ queues ≡ queues' = ground arith in
    let same : d ≡ c = ground arith in rw (← rest, ← same) (omega arith)
count-pop_next w ([] ∷ queues) queues' c e = elim (Option-cases (pop_next queues)) [
  | inl nothing ↦ absurd (ground (arith, nothing))
  | inr ((d, qs), found) ↦
      let rest : [] ∷ qs ≡ queues' = ground (arith, found) in
      let same : d ≡ c = ground (arith, found) in
      rw (← rest, ← same) (omega (arith, count-pop_next w queues qs d found))
]

pub count-empty :
    (w : ℕ → ℕ) (queues : Queues) → All (λ q. q ≡ []) queues → count_queues w queues ≡ 0
count-empty w [] h = refl
count-empty w (q ∷ queues) h = omega (arith, ap (count_commands w) h.0, count-empty w queues h.1)
