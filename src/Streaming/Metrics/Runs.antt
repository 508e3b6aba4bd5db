-- ===== src/Streaming/Metrics/Runs.antt =====
-- Runs of the stream metrics, and their theorem at concrete reports.
use mgba_server.Common.{ℕ, ◌/◌, ◌%◌, ◌≡◌, true, false, List, [], ◌∷◌}
use mgba_server.Common.Bytes.{u64_mod}
use mgba_server.Streaming.Metrics.{Floats, snapshot}
use mgba_server.Streaming.Metrics.Totals.{
  Report, a_frame, a_delivery, a_gap, frames_of, bytes_of, delivered_of, dropped_of, total,
  reported, snapshot-reported,
}

-- Quotients rounded down.
abbrev whole : Floats
whole = record { F = ℕ; zero_float = 0; quotient = λ a b. a / b }

abbrev reports : List Report
reports =
    a_frame (1 ∷ []) 30 true
    ∷ a_delivery (2 ∷ []) true true
    ∷ a_gap (1 ∷ [])
    ∷ a_frame (2 ∷ []) 12 false
    ∷ a_delivery (1 ∷ []) false true
    ∷ []

snapshot-reported_example :
    let s = snapshot whole (reported whole reports) in
    (s.total_produced_frames ≡ total frames_of reports % u64_mod)
    × (s.total_produced_bytes ≡ total bytes_of reports % u64_mod)
    × (s.total_dashboard_delivered ≡ total delivered_of reports % u64_mod)
    × (s.total_dashboard_dropped ≡ total dropped_of reports % u64_mod)
snapshot-reported_example = snapshot-reported whole reports
