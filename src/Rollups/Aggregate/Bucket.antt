-- ===== src/Rollups/Aggregate/Bucket.antt =====
-- The row that `aggregate_bucket` of crates/kemuri-server/src/rollup_worker.rs makes of the rounds
-- of a bucket: its counts, and the histogram that is read back from it.
use kemuri.Base.{ℕ, zero, suc, ◌+◌, ◌<◌, ◌≡◌, ◌∙◌, refl, sym, ap, arith, true, if◌then◌else◌, ltb}
use kemuri.Base.{Option, none, some, List, [], ◌∷◌, length, All, is_empty, and_then}
use kemuri.Base.Text.{Text, codes}
use kemuri.Base.Float.{Float}
use kemuri.Core.Histogram.{Histogram, u64_bound, new, encode, decode}
use kemuri.Core.Histogram.Record.{IsConsistent, new-IsConsistent, record_all}
use kemuri.Core.Histogram.Merge.{record_all-IsConsistent}
use kemuri.Core.Histogram.Codec.{decode-encode}
use kemuri.Rounds.{RoundRow}
use kemuri.Alerts.Metric.{sum_by, round_latencies}
use kemuri.Rollups.Aggregate.{InsertRollup, Counts, no_rounds, add_rounds, histogram_blob_of}
use kemuri.Rollups.Aggregate.{aggregate_bucket}
use kemuri.Rollups.Aggregate.Statuses.{count_of, rounds_with, IsNoData, add_rounds-ByStatus}
use kemuri.Rollups.Aggregate.Laws.{total_counts, add_rounds-Adds, histogram-add_rounds}
use mathlib.Core.List.{append-nil}

-- What the columns of a rollup count, where `to_json` prints a map of counts.
pub record CountsOf (to_json : Counts → Text) (rounds : List RoundRow) (row : InsertRollup)
    : Type 0 where
  pub no_data : Counts
  pub no_data_printed : row.no_data_counts ≡ to_json no_data
  pub scheduled : row.scheduled_rounds ≡ length rounds
  pub completed : row.completed_rounds ≡ rounds_with (codes "complete") rounds
  pub partially : row.partial_rounds ≡ rounds_with (codes "partial") rounds
  pub under_status :
      (status : Text) → IsNoData status → count_of status no_data ≡ rounds_with status rounds
  pub status :
      row.completed_rounds + row.partial_rounds + total_counts no_data ≡ row.scheduled_rounds
  pub attempted : row.attempted_samples ≡ sum_by (λ r. r.attempted_samples) rounds
  pub bearing : row.latency_bearing_samples ≡ sum_by (λ r. r.latency_bearing_samples) rounds
  pub healthy : row.healthy_samples ≡ sum_by (λ r. r.healthy_samples) rounds
  pub unhealthy : row.unhealthy_samples ≡ sum_by (λ r. r.unhealthy_samples) rounds
  pub loss : row.measurement_loss_samples ≡ sum_by (λ r. r.measurement_loss_samples) rounds

module _ (f : Float) (to_json : Counts → Text) (check observer resolution : ℕ) (start : Text) where
  -- A rollup counts every round of its bucket once: it has as many completed and partial rounds as
  -- there are with these statuses, and the counts without data have every other status with as many
  -- rounds as there are with it, and no round more; its sample counts are the sums of those of the
  -- rounds.
  pub aggregate_bucket-CountsOf :
      (rounds : List RoundRow)
      → CountsOf to_json rounds (aggregate_bucket f to_json check observer resolution start rounds)
  unfolding aggregate_bucket no_rounds
  aggregate_bucket-CountsOf rounds =
      let adds = add_rounds-Adds f rounds no_rounds in
      let by = add_rounds-ByStatus f rounds no_rounds in
      record {
        no_data = (add_rounds f rounds no_rounds).no_data_counts;
        no_data_printed = refl;
        scheduled = omega (arith, adds.scheduled);
        completed = omega (arith, by.completed);
        partially = omega (arith, by.partially);
        under_status = λ key h. omega (arith, by.no_data key h);
        status = omega (arith, adds.status, adds.scheduled);
        attempted = omega (arith, adds.attempted);
        bearing = omega (arith, adds.bearing);
        healthy = omega (arith, adds.healthy);
        unhealthy = omega (arith, adds.unhealthy);
        loss = omega (arith, adds.loss);
      }

decode-histogram_blob_of :
    (h : Histogram) (n : ℕ)
    → IsConsistent h
    → h.count ≡ n
    → and_then (histogram_blob_of h) decode ≡ (if ltb 0 n then some h else none)
decode-histogram_blob_of h zero c e = simp e refl
decode-histogram_blob_of h (suc n) c e =
    let positive : ltb 0 (suc n) ≡ true = ground arith in
    simp (e, positive) (ap (λ b. decode b) (sym (append-nil (encode h))) ∙ decode-encode h [] c)

-- The histogram of a list of latencies, if there is one.
abbrev pub histogram_of : Float → List ℕ → Option Histogram
histogram_of f vs = if is_empty vs then none else some (record_all f new vs)

histogram_of-length :
    (f : Float) (vs : List ℕ)
    → (if ltb 0 (length vs) then some (record_all f new vs) else none) ≡ histogram_of f vs
histogram_of-length f [] = refl
histogram_of-length f (v ∷ vs) = ground arith

module _ (f : Float) (to_json : Counts → Text) (check observer resolution : ℕ) (start : Text) where
  -- From the histogram column of a rollup, the histogram of all latencies of its rounds is read
  -- back, and none where they have no latency; the latencies are 64-bit values, fewer than 2 ^ 64.
  pub decode-aggregate_bucket :
      (rounds : List RoundRow)
      → All (λ v. v < u64_bound) (round_latencies rounds)
      → length (round_latencies rounds) < u64_bound
      → and_then
          (aggregate_bucket f to_json check observer resolution start rounds).histogram_blob
          decode
        ≡ histogram_of f (round_latencies rounds)
  unfolding aggregate_bucket no_rounds
  decode-aggregate_bucket rounds a k =
      let vs = round_latencies rounds in
      let (c, e) =
        record_all-IsConsistent f new vs new-IsConsistent a (unfold new in omega arith) in
      let e' : (record_all f new vs).count ≡ length vs = unfold new in omega (arith, e) in
      ap (λ h. and_then (histogram_blob_of h) decode) (histogram-add_rounds f rounds no_rounds)
      ∙ decode-histogram_blob_of (record_all f new vs) (length vs) c e'
      ∙ histogram_of-length f vs
