-- ===== src/Streaming/Metrics.antt =====
-- crates/streaming/src/metrics.rs: the counters of each instance's stream. `u64` counters wrap as in a
-- release build; the quotient of two numbers as `f64` is a parameter.
pub mod Totals
mod Runs
use mgba_server.Common.{
  ℕ, ◌+◌, ◌%◌, Bool, true, false, ◌&&◌, ◌||◌, List, [], ◌∷◌, Option, none, some, ltb, ◌==◌,
  if◌then◌else◌,
}
use mgba_server.Common.Text.{Text, text_eq}
use mgba_server.Common.Bytes.{u64_mod}
use mgba_server.Common.Dict.{Dict, lookup, insert, values}

pub record Floats : Type 1 where
  pub F : Type 0
  pub zero_float : F
  -- `a as f64 / b as f64`
  pub quotient : ℕ → ℕ → F

pub record InstanceMetrics (F : Type 0) : Type 0 where
  pub instance_id : Text
  pub produced_frames : ℕ
  pub produced_bytes : ℕ
  pub keyframes : ℕ
  pub deltas : ℕ
  pub sequence_gaps : ℕ
  pub dashboard_delivered : ℕ
  pub dashboard_dropped : ℕ
  pub instance_delivered : ℕ
  pub instance_dropped : ℕ
  pub compression_ratio : F

pub record MetricsSnapshot (F : Type 0) : Type 0 where
  pub instances : List (InstanceMetrics F)
  pub total_produced_frames : ℕ
  pub total_produced_bytes : ℕ
  pub total_dashboard_delivered : ℕ
  pub total_dashboard_dropped : ℕ

-- `StreamMetrics`
abbrev pub StreamMetrics : Type 0 → Type 0
StreamMetrics F = Dict Text (InstanceMetrics F)

-- `+=` on `u64`.
abbrev pub plus : ℕ → ℕ → ℕ
plus a b = (a + b) % u64_mod

-- The order of strings.
unfoldable pub text_leb : Text → Text → Bool
text_leb [] t = true
text_leb (x ∷ xs) [] = false
text_leb (x ∷ xs) (y ∷ ys) = ltb x y || (x == y && text_leb xs ys)

abbrev pub sum_by : {F : Type 0} → (InstanceMetrics F → ℕ) → List (InstanceMetrics F) → ℕ
sum_by field [] = 0
sum_by field (m ∷ ms) = plus (field m) (sum_by field ms)

-- `sort_by(|a, b| a.instance_id.cmp(&b.instance_id))`, which is stable.
unfoldable pub insert_sorted :
    {F : Type 0} → InstanceMetrics F → List (InstanceMetrics F) → List (InstanceMetrics F)
unfolding text_leb
insert_sorted m [] = m ∷ []
insert_sorted m (n ∷ ms) =
    if text_leb m.instance_id n.instance_id then m ∷ n ∷ ms else n ∷ insert_sorted m ms

unfoldable pub sort_by_id : {F : Type 0} → List (InstanceMetrics F) → List (InstanceMetrics F)
unfolding insert_sorted
sort_by_id [] = []
sort_by_id (m ∷ ms) = insert_sorted m (sort_by_id ms)

module _ (floats : Floats) where
  -- `InstanceMetrics { instance_id, ..Default::default() }`
  abbrev pub fresh : Text → InstanceMetrics floats.F
  fresh id = record {
    instance_id = id;
    produced_frames = 0;
    produced_bytes = 0;
    keyframes = 0;
    deltas = 0;
    sequence_gaps = 0;
    dashboard_delivered = 0;
    dashboard_dropped = 0;
    instance_delivered = 0;
    instance_dropped = 0;
    compression_ratio = floats.zero_float;
  }

  -- `entry(instance_id).or_insert_with(..)`
  abbrev pub entry : Text → Option (InstanceMetrics floats.F) → InstanceMetrics floats.F
  entry id none = fresh id
  entry id (some m) = m

  abbrev pub count_kind : Bool → InstanceMetrics floats.F → InstanceMetrics floats.F
  count_kind true m = record m { keyframes = plus m.keyframes 1 }
  count_kind false m = record m { deltas = plus m.deltas 1 }

  abbrev pub with_ratio : InstanceMetrics floats.F → InstanceMetrics floats.F
  with_ratio m =
      if ltb 0 m.produced_frames
      then record m { compression_ratio = floats.quotient m.produced_bytes m.produced_frames }
      else m

  abbrev pub produced : ℕ → Bool → InstanceMetrics floats.F → InstanceMetrics floats.F
  produced bytes is_keyframe m = with_ratio (
      count_kind is_keyframe (record m {
        produced_frames = plus m.produced_frames 1;
        produced_bytes = plus m.produced_bytes bytes;
      }))

  -- `is_dashboard`, then `delivered`.
  abbrev pub delivery : Bool → Bool → InstanceMetrics floats.F → InstanceMetrics floats.F
  delivery true true m = record m { dashboard_delivered = plus m.dashboard_delivered 1 }
  delivery true false m = record m { dashboard_dropped = plus m.dashboard_dropped 1 }
  delivery false true m = record m { instance_delivered = plus m.instance_delivered 1 }
  delivery false false m = record m { instance_dropped = plus m.instance_dropped 1 }

  -- `let m = map.entry(..); *m = f(*m)`
  abbrev pub update :
      Text
      → (InstanceMetrics floats.F → InstanceMetrics floats.F)
      → StreamMetrics floats.F
      → StreamMetrics floats.F
  update id f map = insert id (f (entry id (lookup id map))) map

  unfoldable pub record_produced : Text → ℕ → Bool → StreamMetrics floats.F → StreamMetrics floats.F
  record_produced id bytes is_keyframe map = update id (produced bytes is_keyframe) map

  unfoldable pub record_delivery :
      Text → Bool → Bool → StreamMetrics floats.F → StreamMetrics floats.F
  record_delivery id delivered is_dashboard map = update id (delivery is_dashboard delivered) map

  unfoldable pub record_sequence_gap : Text → StreamMetrics floats.F → StreamMetrics floats.F
  record_sequence_gap id map =
      update id (λ m. record m { sequence_gaps = plus m.sequence_gaps 1 }) map

  unfoldable pub snapshot : StreamMetrics floats.F → MetricsSnapshot floats.F
  unfolding sort_by_id
  snapshot map =
      let instances = sort_by_id (values map) in
      record {
        instances = instances;
        total_produced_frames = sum_by (λ m. m.produced_frames) instances;
        total_produced_bytes = sum_by (λ m. m.produced_bytes) instances;
        total_dashboard_delivered = sum_by (λ m. m.dashboard_delivered) instances;
        total_dashboard_dropped = sum_by (λ m. m.dashboard_dropped) instances;
      }
