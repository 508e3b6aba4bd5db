-- ===== src/Worker/Pacing/Runs.antt =====
-- The pacing at a concrete time.
use mgba_server.Common.{◌+◌, ◌≤◌, ◌≡◌, refl, none}
use mgba_server.Worker.Pacing.{schedule_next_frame_sleep}
use mgba_server.Worker.Pacing.Lag.{IsPaced, schedule-IsPaced}

resynchronized : schedule_next_frame_sleep 0 100 16 ≡ (none, 100)
unfolding schedule_next_frame_sleep
resynchronized = refl

schedule-IsPaced_example :
    (let (sleep, next) = schedule_next_frame_sleep 100 105 16 in
      IsPaced 105 (sleep, next) × (105 ≤ next + 16) × (100 + 16 ≤ next))
schedule-IsPaced_example = schedule-IsPaced 100 105 16
