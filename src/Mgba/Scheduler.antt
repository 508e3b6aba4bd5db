-- ===== src/Mgba/Scheduler.antt =====
-- crates/mgba/src/scheduler.rs: five queues, one for each priority, filled from a bounded channel and
-- served by one worker task. A UUID and a time stamp are numbers. The transport and the clock are
-- not the repository's code: their answers are arguments of `execute`.
pub mod Queues
pub mod Drain
pub mod Worker
pub mod Run
pub mod Trace
mod Runs
use mgba_server.Common.{
  ℕ, zero, suc, ◌+◌, ◌*◌, ◌≡◌, List, [], ◌∷◌, ◌++◌, Option, none, some, length, leb, ltb, max,
  Result, ok, err, if◌then◌else◌,
}
use mgba_server.Common.Text.{Text}

pub data CommandKind : Type 0 where
  control memory_read frame_capture state health : CommandKind

pub data CommandPriority : Type 0 where
  control memory_read health state frame_capture : CommandPriority

unfoldable pub default_priority : CommandKind → CommandPriority
default_priority CommandKind.control = CommandPriority.control
default_priority CommandKind.memory_read = CommandPriority.memory_read
default_priority CommandKind.health = CommandPriority.health
default_priority CommandKind.state = CommandPriority.state
default_priority CommandKind.frame_capture = CommandPriority.frame_capture

-- `priority as usize`.
abbrev pub index : CommandPriority → ℕ
index CommandPriority.control = 0
index CommandPriority.memory_read = 1
index CommandPriority.health = 2
index CommandPriority.state = 3
index CommandPriority.frame_capture = 4

pub record CommandTrace : Type 0 where
  pub request_id : ℕ
  pub instance_id : Text
  pub kind : CommandKind
  pub priority : CommandPriority
  pub enqueue_at : ℕ
  pub dequeue_at : ℕ
  pub socket_write_at : ℕ
  pub response_at : ℕ
  pub caller_complete_at : ℕ

pub record CommandResult : Type 0 where
  pub response : Text
  pub trace : CommandTrace

pub data SchedulerError : Type 0 where
  closed timeout : SchedulerError
  transport : Text → SchedulerError

-- The sender of the one-shot channel is named by the request that it belongs to.
pub record ScheduledCommand : Type 0 where
  pub request_id : ℕ
  pub instance_id : Text
  pub kind : CommandKind
  pub priority : CommandPriority
  pub message : Text
  pub enqueue_at : ℕ
  pub timeout_ms : ℕ

-- What goes through a one-shot channel, and to which request.
pub record Answer : Type 0 where
  pub request_id : ℕ
  pub result : Result SchedulerError CommandResult

abbrev pub Queues : Type 0
Queues = List (List ScheduledCommand)

-- `std::array::from_fn(|_| VecDeque::new())`
abbrev pub empty_queues : Queues
empty_queues = [] ∷ [] ∷ [] ∷ [] ∷ [] ∷ []

-- `queues[i]`; there are five queues and `i` is a priority.
abbrev pub queue_at : ℕ → Queues → List ScheduledCommand
queue_at i [] = []
queue_at zero (q ∷ qs) = q
queue_at (suc i) (q ∷ qs) = queue_at i qs

abbrev pub push_back : ℕ → ScheduledCommand → Queues → Queues
push_back i c [] = []
push_back zero c (q ∷ qs) = (q ++ (c ∷ [])) ∷ qs
push_back (suc i) c (q ∷ qs) = q ∷ push_back i c qs

-- The first command of the first queue that has one.
unfoldable pub pop_next : Queues → Option (ScheduledCommand × Queues)
pop_next [] = none
pop_next ((c ∷ q) ∷ qs) = some (c, q ∷ qs)
pop_next ([] ∷ qs) = elim (pop_next qs) [ none ↦ none | some (c, qs') ↦ some (c, [] ∷ qs') ]

abbrev pub for_instance : Text → ScheduledCommand → ScheduledCommand
for_instance instance_id c = record c { instance_id = instance_id }

abbrev pub refusal : ScheduledCommand → Answer
refusal c = record { request_id = c.request_id; result = err closed }

-- `drain_available`: the commands of the channel go to their queues; one whose queue is full is
-- answered with `Closed`.
unfoldable pub drain_available : ℕ → Text → List ScheduledCommand → Queues → Queues × List Answer
drain_available capacity instance_id [] queues = (queues, [])
drain_available capacity instance_id (command ∷ rx) queues =
    let c = for_instance instance_id command in
    let full = leb capacity (length (queue_at (index c.priority) queues)) in
    let (queues', answers) =
      drain_available capacity instance_id rx
        (if full then queues else push_back (index c.priority) c queues) in
    (queues', if full then refusal c ∷ answers else answers)

-- What the transport and the timer make of a call.
pub data Outcome : Type 0 where
  replied : Text → Outcome
  failed : SchedulerError → Outcome
  timed_out : Outcome

-- The readings of the clock during a call.
pub record Readings : Type 0 where
  pub dequeue_at : ℕ
  pub socket_write_at : ℕ
  pub response_at : ℕ
  pub caller_complete_at : ℕ

unfoldable pub execute : ScheduledCommand → Outcome → Readings → Answer
execute c (replied response) t = record {
  request_id = c.request_id;
  result = ok (record {
    response = response;
    trace = record {
      request_id = c.request_id;
      instance_id = c.instance_id;
      kind = c.kind;
      priority = c.priority;
      enqueue_at = c.enqueue_at;
      dequeue_at = t.dequeue_at;
      socket_write_at = t.socket_write_at;
      response_at = t.response_at;
      caller_complete_at = t.caller_complete_at;
    };
  });
}
execute c (failed error) t = record { request_id = c.request_id; result = err error }
execute c timed_out t = record { request_id = c.request_id; result = err timeout }

-- `mpsc::channel(capacity_per_priority.saturating_mul(5).max(1))`; below 2 ^ 61 nothing saturates.
abbrev pub channel_capacity : ℕ → ℕ
channel_capacity capacity_per_priority = max (capacity_per_priority * 5) 1

-- The scheduler: the channel, the worker's queues, the command that it executes, and the answers
-- that have been sent.
pub record Scheduler : Type 0 where
  pub instance_id : Text
  pub capacity_per_priority : ℕ
  pub rx : List ScheduledCommand
  pub queues : Queues
  pub current : Option ScheduledCommand
  pub answers : List Answer

-- `CommandScheduler::new`
abbrev pub start : Text → ℕ → Scheduler
start instance_id capacity_per_priority = record {
  instance_id = instance_id;
  capacity_per_priority = capacity_per_priority;
  rx = [];
  queues = empty_queues;
  current = none;
  answers = [];
}

-- The command that `submit_with_priority` sends.
abbrev pub new_command : ℕ → CommandKind → CommandPriority → Text → ℕ → ℕ → ScheduledCommand
new_command request_id kind priority message enqueue_at timeout_ms = record {
  request_id = request_id;
  instance_id = [];
  kind = kind;
  priority = priority;
  message = message;
  enqueue_at = enqueue_at;
  timeout_ms = timeout_ms;
}

-- The drain as `run_worker` calls it.
unfoldable pub drain : Scheduler → Scheduler
drain s =
    let (queues', answers') =
      drain_available (max s.capacity_per_priority 1) s.instance_id s.rx s.queues in
    record s { rx = []; queues = queues'; answers = s.answers ++ answers' }

-- The first `recv` where no queue has a command; `none` while the channel is empty.
abbrev receive : Scheduler → List ScheduledCommand → Option Scheduler
receive s [] = none
receive s (c ∷ rx) = some (record s { rx = rx; current = some (for_instance s.instance_id c) })

abbrev next_command : Scheduler → Option (ScheduledCommand × Queues) → Option Scheduler
next_command s none = receive s s.rx
next_command s (some (c, queues')) = some (record s { queues = queues'; current = some c })

abbrev and_drain : Option Scheduler → Option Scheduler
and_drain none = none
and_drain (some s) = some (drain s)

-- The loop of `run_worker` up to the call of the transport.
unfoldable pub take_command : Scheduler → Option Scheduler
take_command s = and_drain (next_command s (pop_next s.queues))

-- The rest of the round: the answer, and the second drain.
unfoldable pub finish_command : Scheduler → Outcome → Readings → Scheduler
finish_command s outcome t = elim s.current [
  | none ↦ s
  | some c ↦ drain (record s { current = none; answers = s.answers ++ (execute c outcome t ∷ []) })
]

-- `submit_with_priority` up to its wait for the answer; `none` while the channel is full, when the
-- send waits.
unfoldable pub submit_with_priority :
    Scheduler → ℕ → CommandKind → CommandPriority → Text → ℕ → ℕ → Option Scheduler
submit_with_priority s request_id kind priority message enqueue_at timeout_ms =
    if ltb (length s.rx) (channel_capacity s.capacity_per_priority)
    then some (record s {
      rx = s.rx ++ (new_command request_id kind priority message enqueue_at timeout_ms ∷ []);
    })
    else none

unfoldable pub submit : Scheduler → ℕ → CommandKind → Text → ℕ → ℕ → Option Scheduler
unfolding submit_with_priority default_priority
submit s request_id kind message enqueue_at timeout_ms =
    submit_with_priority s request_id kind (default_priority kind) message enqueue_at timeout_ms
