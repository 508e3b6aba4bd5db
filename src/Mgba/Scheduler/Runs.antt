-- ===== src/Mgba/Scheduler/Runs.antt =====
-- Runs of the scheduler, and its theorems at concrete inputs.
use mgba_server.Common.{ℕ, ◌≡◌, ◌<◌, refl, [], ◌∷◌, some, take, arith}
use mgba_server.Common.Text.{codes}
use mgba_server.Mgba.Scheduler.{
  ScheduledCommand, CommandKind, CommandPriority, Scheduler, Readings, replied, timed_out, index,
  queue_at, empty_queues, pop_next, drain_available, take_command, submit_with_priority, submit,
  start, new_command, drain, finish_command, execute,
}
use mgba_server.Mgba.Scheduler.Drain.{one, count_answers, arrivals, queue_at-drain_available}
use mgba_server.Mgba.Scheduler.Worker.{IsSound, held}
use mgba_server.Mgba.Scheduler.Run.{
  Reach, here, submitted, serve, count_ids, Reach-held, serve_answers_all, take_command_urgent,
}

abbrev tap : ScheduledCommand
tap = new_command 7 CommandKind.control CommandPriority.control (codes "tap") 10 1000

abbrev frame : ℕ → ScheduledCommand
frame id =
    new_command id CommandKind.frame_capture CommandPriority.frame_capture (codes "frame") 10 1000

abbrev fresh : Scheduler
fresh = start (codes "instance-a") 2

abbrev one_sent : Scheduler
one_sent = record fresh { rx = tap ∷ [] }

one_sent-Reach : Reach fresh (7 ∷ []) one_sent
unfolding submit_with_priority
one_sent-Reach =
    submitted [] fresh one_sent 7 CommandKind.control CommandPriority.control (codes "tap") 10 1000
      here refl

abbrev readings : Readings
readings = record {
  dequeue_at = 11;
  socket_write_at = 12;
  response_at = 13;
  caller_complete_at = 14;
}

-- Of three frames the first is taken, and the tap that came last goes before the others.
abbrev four_sent : Scheduler
four_sent = record fresh { rx = frame 1 ∷ frame 2 ∷ frame 3 ∷ tap ∷ [] }

answers_in_order :
    (serve ((replied [], readings) ∷ (timed_out, readings) ∷ []) four_sent).queues
    ≡ []
      ∷ []
      ∷ []
      ∷ []
      ∷ (record (frame 2) { instance_id = codes "instance-a" }
          ∷ record (frame 3) { instance_id = codes "instance-a" }
          ∷ [])
      ∷ []
unfolding serve take_command finish_command drain drain_available pop_next execute
answers_in_order = refl

submit_default : submit fresh 7 CommandKind.control (codes "tap") 10 1000 ≡ some one_sent
unfolding submit
submit_default = refl

Reach-held_example : IsSound one_sent × ((r : ℕ) → held (one r) one_sent ≡ count_ids r (7 ∷ []))
Reach-held_example = Reach-held (codes "instance-a") 2 (7 ∷ []) one_sent one_sent-Reach

serve_answers_all_example :
    count_answers (one 7) (serve ((timed_out, readings) ∷ []) one_sent).answers
    ≡ count_ids 7 (7 ∷ [])
serve_answers_all_example =
    serve_answers_all (codes "instance-a") 2 (7 ∷ []) one_sent ((timed_out, readings) ∷ []) 7
      one_sent-Reach refl (omega arith)

abbrev two_queued : Scheduler
two_queued = record fresh { queues = (tap ∷ []) ∷ [] ∷ [] ∷ [] ∷ (frame 1 ∷ []) ∷ [] }

take_command_urgent_example :
    (s' : Scheduler) × (take_command two_queued ≡ some s')
    × (s'.current ≡ some tap)
    × (queue_at 0 two_queued.queues ≡ tap ∷ [])
    × ((p : CommandPriority) → index p < 0 → queue_at (index p) two_queued.queues ≡ [])
unfolding pop_next
take_command_urgent_example =
    take_command_urgent two_queued tap ([] ∷ [] ∷ [] ∷ [] ∷ (frame 1 ∷ []) ∷ []) (omega arith) refl

queue_at-drain_available_example :
    queue_at 4
      (drain_available 2 (codes "a") (frame 1 ∷ tap ∷ frame 2 ∷ frame 3 ∷ []) empty_queues).0
    ≡ take 2 (arrivals 2 (codes "a") 4 (frame 1 ∷ tap ∷ frame 2 ∷ frame 3 ∷ []))
queue_at-drain_available_example =
    queue_at-drain_available 2 (codes "a") 4 (frame 1 ∷ tap ∷ frame 2 ∷ frame 3 ∷ []) empty_queues
      (omega arith) refl
