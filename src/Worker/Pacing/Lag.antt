-- ===== src/Worker/Pacing/Lag.antt =====
-- src/bin/worker.rs: the loop keeps its pace and does not pile up missed frames.
use mgba_server.Common.{ℕ, ◌+◌, ◌-◌, ◌≤◌, ◌≡◌, Option, none, some, ltb, arith, Bool-cases, inl, inr}
use mgba_server.Worker.Pacing.{schedule_next_frame_sleep}

-- A sleep ends at the time planned for the next frame; with no sleep that time has come.
abbrev pub IsPaced : ℕ → Option ℕ × ℕ → Type 0
IsPaced now (none, next) = next ≤ now
IsPaced now (some sleep, next) = now + sleep ≡ next

-- After each frame the loop sleeps until the time planned for the next one or not at all if it has
-- passed; that time is at most one frame behind the clock, and the plan moves by at least one frame.
pub schedule-IsPaced :
    (next_frame_at now frame_duration : ℕ)
    → (let (sleep, next) = schedule_next_frame_sleep next_frame_at now frame_duration in
        IsPaced now (sleep, next)
        × (now ≤ next + frame_duration)
        × (next_frame_at + frame_duration ≤ next))
unfolding schedule_next_frame_sleep
schedule-IsPaced next_frame_at now frame_duration =
    let next = next_frame_at + frame_duration in
    elim (Bool-cases (ltb now next)) [
      | inl early ↦ rw early (ground (arith, early))
      | inr late ↦ elim (Bool-cases (ltb frame_duration (now - next))) [
        | inl far ↦ rw (late, far) (ground (arith, late, far))
        | inr near ↦ rw (late, near) (ground (arith, late, near))
      ]
    ]
