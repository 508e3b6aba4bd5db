-- ===== src/Streaming/Metrics/Totals.antt =====
-- crates/streaming/src/metrics.rs: the totals of a snapshot and the calls that were recorded.
use mgba_server.Common.{
  ℕ, ◌+◌, ◌%◌, ◌≡◌, refl, ◌∙◌, Bool, true, false, List, [], ◌∷◌, arith, Bool-cases, inl, inr,
}
use mgba_server.Common.Text.{Text, text_eq}
use mgba_server.Common.Bytes.{u64_mod}
use mgba_server.Common.Dict.{lookup, insert, values}
use mgba_server.Streaming.Metrics.{
  Floats, InstanceMetrics, StreamMetrics, plus, sum_by, insert_sorted, sort_by_id, entry, fresh,
  update, record_produced, record_delivery, record_sequence_gap, snapshot, produced, delivery,
}

-- What the streams report.
pub data Report : Type 0 where
  a_frame : (id : Text) (bytes : ℕ) (is_keyframe : Bool) → Report
  a_delivery : (id : Text) (delivered is_dashboard : Bool) → Report
  a_gap : (id : Text) → Report

-- How much a report adds to each total.
abbrev pub frames_of : Report → ℕ
frames_of (a_frame id bytes is_keyframe) = 1
frames_of r = 0

abbrev pub bytes_of : Report → ℕ
bytes_of (a_frame id bytes is_keyframe) = bytes
bytes_of r = 0

abbrev pub delivered_of : Report → ℕ
delivered_of (a_delivery id true true) = 1
delivered_of r = 0

abbrev pub dropped_of : Report → ℕ
dropped_of (a_delivery id false true) = 1
dropped_of r = 0

abbrev pub total : (Report → ℕ) → List Report → ℕ
total amount [] = 0
total amount (r ∷ rs) = total amount rs + amount r

sum_by-insert_sorted :
    {F : Type 0} (field : InstanceMetrics F → ℕ) (m : InstanceMetrics F)
    (ms : List (InstanceMetrics F))
    → sum_by field (insert_sorted m ms) ≡ plus (field m) (sum_by field ms)
unfolding insert_sorted
sum_by-insert_sorted field m [] = refl
sum_by-insert_sorted field m (n ∷ ms) = ground (arith, sum_by-insert_sorted field m ms)

sum_by-sort_by_id :
    {F : Type 0} (field : InstanceMetrics F → ℕ) (ms : List (InstanceMetrics F))
    → sum_by field (sort_by_id ms) ≡ sum_by field ms
unfolding sort_by_id
sum_by-sort_by_id field [] = refl
sum_by-sort_by_id field (m ∷ ms) =
    sum_by-insert_sorted field m (sort_by_id ms) ∙ rw (sum_by-sort_by_id field ms) refl

plus_after : (a c n b : ℕ) → c % u64_mod ≡ plus a n → plus c b ≡ plus (plus a b) n
plus_after a c n b e = omega arith

plus_assoc : (a b n : ℕ) → plus a (plus b n) ≡ plus (plus a b) n
plus_assoc a b n = omega arith

module _ (floats : Floats) where
  -- An entry whose field is `n` more than before adds `n` to the sum.
  sum_by-insert :
      (field : InstanceMetrics floats.F → ℕ) (id : Text) (v : InstanceMetrics floats.F) (n : ℕ)
      (map : StreamMetrics floats.F)
      → field (fresh floats id) ≡ 0
      → field v % u64_mod ≡ plus (field (entry floats id (lookup id map))) n
      → sum_by field (values (insert id v map)) ≡ plus (sum_by field (values map)) n
  unfolding lookup insert
  sum_by-insert field id v n [] start adds = omega (arith, adds, start)
  sum_by-insert field id v n ((j, m) ∷ map) start adds = elim (Bool-cases (text_eq.beq j id)) [
    | inl e ↦ rw e (plus_after (field m) (field v) n (sum_by field (values map)) (rw e at adds))
    | inr e ↦
        rw (e, sum_by-insert field id v n map start (rw e at adds))
          (plus_assoc (field m) (sum_by field (values map)) n)
  ]

  sum_by-update :
      (field : InstanceMetrics floats.F → ℕ) (id : Text)
      (f : InstanceMetrics floats.F → InstanceMetrics floats.F) (n : ℕ)
      (map : StreamMetrics floats.F)
      → ((m : InstanceMetrics floats.F) → field (f m) % u64_mod ≡ plus (field m) n)
      → field (fresh floats id) ≡ 0
      → sum_by field (values (update floats id f map)) ≡ plus (sum_by field (values map)) n
  sum_by-update field id f n map adds start = sum_by-insert field id _ n map start (adds _)

  -- The latest report is the first one.
  unfoldable pub reported : List Report → StreamMetrics floats.F
  reported [] = []
  reported ((a_frame id bytes is_keyframe) ∷ rs) =
      record_produced floats id bytes is_keyframe (reported rs)
  reported ((a_delivery id delivered is_dashboard) ∷ rs) =
      record_delivery floats id delivered is_dashboard (reported rs)
  reported ((a_gap id) ∷ rs) = record_sequence_gap floats id (reported rs)

  -- A field that every report adds its amount to.
  record Tracks (field : InstanceMetrics floats.F → ℕ) (amount : Report → ℕ) : Type 0 where
    start : (id : Text) → field (fresh floats id) ≡ 0
    frame :
        (id : Text) (bytes : ℕ) (is_keyframe : Bool) (m : InstanceMetrics floats.F)
        → field (produced floats bytes is_keyframe m) % u64_mod
          ≡ plus (field m) (amount (a_frame id bytes is_keyframe))
    delivers :
        (id : Text) (delivered is_dashboard : Bool) (m : InstanceMetrics floats.F)
        → field (delivery floats is_dashboard delivered m) % u64_mod
          ≡ plus (field m) (amount (a_delivery id delivered is_dashboard))
    gap :
        (id : Text) (m : InstanceMetrics floats.F)
        → field (record m { sequence_gaps = plus m.sequence_gaps 1 }) % u64_mod
          ≡ plus (field m) (amount (a_gap id))

  sum_by-reported :
      (field : InstanceMetrics floats.F → ℕ) (amount : Report → ℕ) (rs : List Report)
      → Tracks field amount
      → sum_by field (values (reported rs)) ≡ total amount rs % u64_mod
  unfolding reported record_produced record_delivery record_sequence_gap
  sum_by-reported field amount [] t = omega arith
  sum_by-reported field amount ((a_frame id bytes is_keyframe) ∷ rs) t =
      sum_by-update field id (produced floats bytes is_keyframe) _ (reported rs)
        (t.frame id bytes is_keyframe) (t.start id)
      ∙ rw (sum_by-reported field amount rs t) (omega arith)
  sum_by-reported field amount ((a_delivery id delivered is_dashboard) ∷ rs) t =
      sum_by-update field id (delivery floats is_dashboard delivered) _ (reported rs)
        (t.delivers id delivered is_dashboard) (t.start id)
      ∙ rw (sum_by-reported field amount rs t) (omega arith)
  sum_by-reported field amount ((a_gap id) ∷ rs) t =
      sum_by-update field id (λ m. record m { sequence_gaps = plus m.sequence_gaps 1 }) _
        (reported rs) (t.gap id) (t.start id)
      ∙ rw (sum_by-reported field amount rs t) (omega arith)

  frames_tracked : Tracks (λ m. m.produced_frames) frames_of
  frames_tracked = record {
    start = λ id. refl;
    frame =
        λ id bytes is_keyframe m. elim is_keyframe [ true ↦ ground arith | false ↦ ground arith ];
    delivers = λ id delivered is_dashboard m. grind arith;
    gap = λ id m. omega arith;
  }

  bytes_tracked : Tracks (λ m. m.produced_bytes) bytes_of
  bytes_tracked = record {
    start = λ id. refl;
    frame =
        λ id bytes is_keyframe m. elim is_keyframe [ true ↦ ground arith | false ↦ ground arith ];
    delivers = λ id delivered is_dashboard m. grind arith;
    gap = λ id m. omega arith;
  }

  delivered_tracked : Tracks (λ m. m.dashboard_delivered) delivered_of
  delivered_tracked = record {
    start = λ id. refl;
    frame =
        λ id bytes is_keyframe m. elim is_keyframe [ true ↦ ground arith | false ↦ ground arith ];
    delivers = λ id delivered is_dashboard m. grind arith;
    gap = λ id m. omega arith;
  }

  dropped_tracked : Tracks (λ m. m.dashboard_dropped) dropped_of
  dropped_tracked = record {
    start = λ id. refl;
    frame =
        λ id bytes is_keyframe m. elim is_keyframe [ true ↦ ground arith | false ↦ ground arith ];
    delivers = λ id delivered is_dashboard m. grind arith;
    gap = λ id m. omega arith;
  }

  -- A snapshot after any sequence of reports, from empty metrics on, has as its totals the number of
  -- frames and of bytes that were reported as produced, and the number of deliveries and of drops that
  -- were reported for a dashboard, those for the stream of an instance left out, for all instances
  -- together, modulo 2^64.
  pub snapshot-reported :
      (rs : List Report)
      → let s = snapshot floats (reported rs) in
        (s.total_produced_frames ≡ total frames_of rs % u64_mod)
        × (s.total_produced_bytes ≡ total bytes_of rs % u64_mod)
        × (s.total_dashboard_delivered ≡ total delivered_of rs % u64_mod)
        × (s.total_dashboard_dropped ≡ total dropped_of rs % u64_mod)
  unfolding snapshot
  snapshot-reported rs =
      let map = values (reported rs) in
      (
        sum_by-sort_by_id (λ m. m.produced_frames) map
            ∙ sum_by-reported _ frames_of rs frames_tracked,
        sum_by-sort_by_id (λ m. m.produced_bytes) map ∙ sum_by-reported _ bytes_of rs bytes_tracked,
        sum_by-sort_by_id (λ m. m.dashboard_delivered) map
            ∙ sum_by-reported _ delivered_of rs delivered_tracked,
        sum_by-sort_by_id (λ m. m.dashboard_dropped) map
            ∙ sum_by-reported _ dropped_of rs dropped_tracked,
      )
