-- ===== src/Alerts/Metric.antt =====
-- `compute_metric` of crates/kemuri-server/src/alerts.rs.
use kemuri.Base.{ℕ, ◌+◌, Bool, true, false, ◌&&◌, ◌||◌, if◌then◌else◌, ltb, ◌==◌}
use kemuri.Base.{Option, none, some, List, [], ◌∷◌, ◌++◌, reverse, is_empty}
use kemuri.Base.Text.{Text, codes, text_eq}
use kemuri.Base.Float.{Float}
use kemuri.Core.SampleBlob.{SampleRecord, decode_samples, Result, ok, err}
use kemuri.Core.Histogram.{new, quantile}
use kemuri.Core.Histogram.Record.{record_all}
use kemuri.Rounds.{RoundRow}
use kemuri.Alerts.Rule.{is_latency_metric}

abbrev pub sum_by : (RoundRow → ℕ) → List RoundRow → ℕ
sum_by g [] = 0
sum_by g (r ∷ rs) = g r + sum_by g rs

-- `Ord` on text, `a <= b`.
abbrev pub text_le : Text → Text → Bool
text_le [] t = true
text_le (c ∷ s) [] = false
text_le (c ∷ s) (d ∷ t) = ltb c d || (c == d && text_le s t)

-- A stable sort by `scheduled_at`.
abbrev pub insert_round : RoundRow → List RoundRow → List RoundRow
insert_round r [] = r ∷ []
insert_round r (s ∷ rs) =
    if text_le r.scheduled_at s.scheduled_at then r ∷ s ∷ rs else s ∷ insert_round r rs

unfoldable pub sort_rounds : List RoundRow → List RoundRow
sort_rounds [] = []
sort_rounds (r ∷ rs) = insert_round r (sort_rounds rs)

-- The latencies of decoded records, in order.
abbrev pub latencies_of : List SampleRecord → List ℕ
latencies_of [] = []
latencies_of (r ∷ rs) = elim r.latency_ns [ none ↦ latencies_of rs | some v ↦ v ∷ latencies_of rs ]

unfoldable pub decoded_latencies : Result (List SampleRecord) → List ℕ
decoded_latencies (ok records) = latencies_of records
decoded_latencies (err e) = []

-- A round without a blob, or with one that cannot be decoded, has none.
unfoldable pub blob_latencies : Option (List ℕ) → List ℕ
unfolding decoded_latencies
blob_latencies none = []
blob_latencies (some blob) = decoded_latencies (decode_samples blob)

unfoldable pub round_latencies : List RoundRow → List ℕ
unfolding blob_latencies
round_latencies [] = []
round_latencies (r ∷ rs) = blob_latencies r.sample_blob ++ round_latencies rs

abbrev pub is_total_loss : RoundRow → Bool
is_total_loss r = ltb 0 r.attempted_samples && r.measurement_loss_samples == r.attempted_samples

abbrev pub is_unhealthy : RoundRow → Bool
is_unhealthy r = ltb 0 r.unhealthy_samples

module _ (f : Float) where
  open f use {F64, of_u64, literal, add, div}

  unfoldable pub ratio : (RoundRow → ℕ) → List RoundRow → Option F64
  ratio part rounds =
      if sum_by (λ r. r.attempted_samples) rounds == 0
      then none
      else some
          (div (of_u64 (sum_by part rounds)) (of_u64 (sum_by (λ r. r.attempted_samples) rounds)))

  -- The loop over the newest rounds first, which stops at the first that fails the test.
  unfoldable pub count_while : (RoundRow → Bool) → F64 → List RoundRow → F64
  count_while test count [] = count
  count_while test count (r ∷ rs) =
      let rest = count_while test (add count (literal 1 0)) rs in if test r then rest else count

  latency_value : Option ℕ → Option F64
  latency_value none = none
  latency_value (some ns) = some (div (of_u64 ns) (literal 1_000_000 0))

  -- `has_data` is false exactly for the empty list of latencies.
  unfoldable pub latency_metric : F64 → List ℕ → Option F64
  unfolding latency_value
  latency_metric p latencies =
      if is_empty latencies then none else latency_value (quantile f (record_all f new latencies) p)

  abbrev pub percentile : Text → F64
  percentile metric =
      if text_eq metric (codes "p50_latency")
      then literal 5 1
      else if text_eq metric (codes "p95_latency")
      then literal 95 2
      else if text_eq metric (codes "p99_latency")
      then literal 99 2
      else literal 5 1

  -- `none` is `InsufficientData`.
  unfoldable pub compute_metric : Text → List RoundRow → Option F64
  compute_metric metric rounds =
      if text_eq metric (codes "measurement_loss_ratio")
      then ratio (λ r. r.measurement_loss_samples) rounds
      else if text_eq metric (codes "health_failure_ratio")
      then ratio (λ r. r.unhealthy_samples) rounds
      else if text_eq metric (codes "healthy_sample_ratio")
      then ratio (λ r. r.healthy_samples) rounds
      else if is_latency_metric metric
      then latency_metric (percentile metric) (round_latencies rounds)
      else if text_eq metric (codes "consecutive_total_loss_rounds")
      then some (count_while is_total_loss (literal 0 0) (reverse (sort_rounds rounds)))
      else if text_eq metric (codes "consecutive_unhealthy_rounds")
      then some (count_while is_unhealthy (literal 0 0) (reverse (sort_rounds rounds)))
      else if text_eq metric (codes "no_data")
      then some (literal 0 0)
      else none
