-- ===== src/Series.antt =====
-- The points of a series in crates/kemuri-server/src/api.rs: of a rollup, and of rounds that no rollup
-- holds. Counts and latencies are i64 and stand as numbers, so latencies are below 2 ^ 63.
pub mod Laws
mod Tests
use kemuri.Base.{
  ℕ, ◌+◌, ◌-◌, ◌*◌, ◌/◌, Bool, true, false, ◌&&◌, ◌||◌, if◌then◌else◌, leb, ◌==◌, min, max,
}
use kemuri.Base.{
  Option, none, some, map_or, unwrap_or, and_then, List, [], ◌∷◌, ◌++◌, length, all, get_elem?,
  is_empty,
}
use kemuri.Base.Text.{Text, codes, text_eq}
use kemuri.Base.Float.{Float}
use kemuri.Base.Chrono.{Chrono}
use kemuri.Core.Histogram.{Histogram, new, decode, quantile}
use kemuri.Core.Histogram.Record.{record_all}
use kemuri.Rounds.{RoundRow}
use kemuri.Alerts.Metric.{sum_by, round_latencies}
use kemuri.Rollups.Aggregate.{InsertRollup, extend_by}

pub record SeriesPoint (f : Float) : Type 0 where
  pub timestamp_ms : ℕ
  pub bucket_status : Text
  pub rounds_count : ℕ
  pub attempted : ℕ
  pub latency_bearing : ℕ
  pub healthy : ℕ
  pub unhealthy : ℕ
  pub measurement_lost : ℕ
  pub min_latency_us : Option ℕ
  pub p50_latency_us : Option ℕ
  pub p95_latency_us : Option ℕ
  pub max_latency_us : Option ℕ
  pub measurement_loss_ratio : f.F64
  pub health_failure_ratio : f.F64
  pub histogram_bins : List ℕ

-- `value / 1_000` of a value that is there.
abbrev pub micros : Option ℕ → Option ℕ
micros none = none
micros (some ns) = some (ns / 1000)

-- `starts_with`
abbrev pub starts_with : Text → Text → Bool
starts_with [] s = true
starts_with (c ∷ p) [] = false
starts_with (c ∷ p) (d ∷ s) = c == d && starts_with p s

abbrev pub is_skipped : RoundRow → Bool
is_skipped r =
    starts_with (codes "skipped") r.execution_status
    || text_eq r.execution_status (codes "cancelled")

-- `sort_unstable`
abbrev pub insert_sorted : ℕ → List ℕ → List ℕ
insert_sorted n [] = n ∷ []
insert_sorted n (m ∷ ms) = let rest = insert_sorted n ms in if leb n m then n ∷ m ∷ ms else m ∷ rest

abbrev pub sort : List ℕ → List ℕ
sort [] = []
sort (n ∷ ns) = insert_sorted n (sort ns)

-- `filter_map(…).min()`, and with `max` the maximum.
abbrev pub extreme : (ℕ → ℕ → ℕ) → (RoundRow → Option ℕ) → Option ℕ → List RoundRow → Option ℕ
extreme op field acc [] = acc
extreme op field acc (r ∷ rs) = extreme op field (extend_by op acc (field r)) rs

module _ (f : Float) where
  open f use {F64, of_u64, literal, div, mul, lt, round, to_u64}

  unfoldable pub percentile : List ℕ → ℕ → Option ℕ
  percentile sorted p =
      if is_empty sorted
      then none
      else get_elem? sorted (
          min (to_u64 (round (mul (div (of_u64 p) (literal 100 0)) (of_u64 (length sorted - 1)))))
            (length sorted - 1))

  -- A part of the samples that count, if there are any.
  abbrev pub ratio_of : ℕ → ℕ → F64
  ratio_of part total =
      if lt (literal 0 0) (of_u64 total) then div (of_u64 part) (of_u64 total) else literal 0 0

  abbrev pub timestamp_of : Option ℕ → ℕ
  timestamp_of instant = map_or instant 0 (λ n. n / 1_000_000)

  unfoldable pub rollup_to_series_point : Chrono → InsertRollup → SeriesPoint f
  rollup_to_series_point t r =
      let histogram = unwrap_or (and_then r.histogram_blob decode) new in
      let total = r.healthy_samples + r.unhealthy_samples + r.measurement_loss_samples in
      record {
        timestamp_ms = timestamp_of (t.parse_rfc3339 r.bucket_start);
        bucket_status =
            if r.completed_rounds + r.partial_rounds == 0
            then codes "skipped"
            else codes "observed";
        rounds_count = r.scheduled_rounds;
        attempted = r.attempted_samples;
        latency_bearing = r.latency_bearing_samples;
        healthy = r.healthy_samples;
        unhealthy = r.unhealthy_samples;
        measurement_lost = r.measurement_loss_samples;
        min_latency_us = micros r.min_latency_ns;
        p50_latency_us = micros (quantile f histogram (literal 5 1));
        p95_latency_us = micros (quantile f histogram (literal 95 2));
        max_latency_us = micros r.max_latency_ns;
        measurement_loss_ratio = ratio_of r.measurement_loss_samples total;
        health_failure_ratio = ratio_of r.unhealthy_samples total;
        histogram_bins = histogram.bins;
      }

  -- The loops over the blobs record the latencies that `round_latencies` lists.
  unfoldable pub raw_rounds_to_series_point : ℕ → List RoundRow → SeriesPoint f
  raw_rounds_to_series_point timestamp_ms rounds =
      let latencies = sort (round_latencies rounds) in
      let healthy = sum_by (λ r. r.healthy_samples) rounds in
      let unhealthy = sum_by (λ r. r.unhealthy_samples) rounds in
      let lost = sum_by (λ r. r.measurement_loss_samples) rounds in
      record {
        timestamp_ms = timestamp_ms;
        bucket_status = if all is_skipped rounds then codes "skipped" else codes "observed";
        rounds_count = length rounds;
        attempted = sum_by (λ r. r.attempted_samples) rounds;
        latency_bearing = sum_by (λ r. r.latency_bearing_samples) rounds;
        healthy = healthy;
        unhealthy = unhealthy;
        measurement_lost = lost;
        min_latency_us = micros (extreme min (λ r. r.min_latency_ns) none rounds);
        p50_latency_us = micros (percentile latencies 50);
        p95_latency_us = micros (percentile latencies 95);
        max_latency_us = micros (extreme max (λ r. r.max_latency_ns) none rounds);
        measurement_loss_ratio = ratio_of lost (healthy + unhealthy + lost);
        health_failure_ratio = ratio_of unhealthy (healthy + unhealthy + lost);
        histogram_bins = (record_all f new (round_latencies rounds)).bins;
      }
