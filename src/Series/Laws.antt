-- ===== src/Series/Laws.antt =====
-- The points that crates/kemuri-server/src/api.rs makes of rounds, with and without a rollup.
use kemuri.Base.{ℕ, ◌+◌, ◌≡◌, ◌<◌, ◌∙◌, refl, ap, arith}
use kemuri.Base.{unwrap_or, List, [], ◌∷◌, length, All}
use kemuri.Base.Text.{Text}
use kemuri.Base.Float.{Float}
use kemuri.Base.Chrono.{Chrono}
use kemuri.Core.Histogram.{Histogram, u64_bound, new}
use kemuri.Core.Histogram.Record.{record_all}
use kemuri.Rounds.{RoundRow}
use kemuri.Alerts.Metric.{sum_by, round_latencies}
use kemuri.Rollups.Aggregate.{Counts, aggregate_bucket}
use kemuri.Rollups.Aggregate.Bucket.{
  aggregate_bucket-CountsOf, histogram_of, decode-aggregate_bucket,
}
use kemuri.Series.{SeriesPoint, ratio_of, rollup_to_series_point, raw_rounds_to_series_point}

-- Two points that agree in all counts, in the ratios and in the bins.
pub record Agree (f : Float) (a b : SeriesPoint f) : Type 0 where
  pub rounds : a.rounds_count ≡ b.rounds_count
  pub attempted : a.attempted ≡ b.attempted
  pub bearing : a.latency_bearing ≡ b.latency_bearing
  pub healthy : a.healthy ≡ b.healthy
  pub unhealthy : a.unhealthy ≡ b.unhealthy
  pub lost : a.measurement_lost ≡ b.measurement_lost
  pub loss_ratio : a.measurement_loss_ratio ≡ b.measurement_loss_ratio
  pub failure_ratio : a.health_failure_ratio ≡ b.health_failure_ratio
  pub bins : a.histogram_bins ≡ b.histogram_bins

unwrap_or-histogram_of :
    (f : Float) (vs : List ℕ) → unwrap_or (histogram_of f vs) new ≡ record_all f new vs
unwrap_or-histogram_of f [] = refl
unwrap_or-histogram_of f (v ∷ vs) = refl

-- A series has the same counts, ratios and bins for rounds whether it is read from their rollup or
-- from the rounds themselves; the latencies are 64-bit values, fewer than 2 ^ 64.
pub rollup_to_series_point-Agree :
    (f : Float) (t : Chrono) (to_json : Counts → Text) (check observer resolution timestamp : ℕ)
    (start : Text) (rounds : List RoundRow)
    → All (λ v. v < u64_bound) (round_latencies rounds)
    → length (round_latencies rounds) < u64_bound
    → Agree f
        (rollup_to_series_point f t
          (aggregate_bucket f to_json check observer resolution start rounds))
        (raw_rounds_to_series_point f timestamp rounds)
unfolding rollup_to_series_point raw_rounds_to_series_point
rollup_to_series_point-Agree f t to_json check observer resolution timestamp start rounds a k =
    let row = aggregate_bucket f to_json check observer resolution start rounds in
    let counts = aggregate_bucket-CountsOf f to_json check observer resolution start rounds in
    let read = decode-aggregate_bucket f to_json check observer resolution start rounds a k in
    let total : row.healthy_samples + row.unhealthy_samples + row.measurement_loss_samples
        ≡ sum_by (λ r. r.healthy_samples) rounds
          + sum_by (λ r. r.unhealthy_samples) rounds
          + sum_by (λ r. r.measurement_loss_samples) rounds =
      omega (arith, counts.healthy, counts.unhealthy, counts.loss) in
    record {
      rounds = counts.scheduled;
      attempted = counts.attempted;
      bearing = counts.bearing;
      healthy = counts.healthy;
      unhealthy = counts.unhealthy;
      lost = counts.loss;
      loss_ratio = λ i. ratio_of f (counts.loss i) (total i);
      failure_ratio = λ i. ratio_of f (counts.unhealthy i) (total i);
      bins =
          ap (λ (h : Histogram). h.bins)
            (ap (λ o. unwrap_or o new) read ∙ unwrap_or-histogram_of f (round_latencies rounds));
    }
