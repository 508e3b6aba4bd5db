-- ===== src/Worker/Pacing.antt =====
-- src/bin/worker.rs: when the emulator's loop sleeps between two frames. Times are nanoseconds.
pub mod Lag
mod Runs
use mgba_server.Common.{ℕ, ◌+◌, ◌-◌, Option, none, some, ltb, if◌then◌else◌}

-- The sleep, and the new value of `next_frame_at`.
unfoldable pub schedule_next_frame_sleep : ℕ → ℕ → ℕ → Option ℕ × ℕ
schedule_next_frame_sleep next_frame_at now frame_duration =
    let next = next_frame_at + frame_duration in
    if ltb now next
    then (some (next - now), next)
    else if ltb frame_duration (now - next)
    then (none, now)
    else (none, next)
