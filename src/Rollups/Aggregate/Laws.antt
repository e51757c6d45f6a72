-- ===== src/Rollups/Aggregate/Laws.antt =====
-- What a rollup of crates/kemuri-server/src/rollup_worker.rs says of its rounds.
use kemuri.Base.{ℕ, ◌+◌, ◌≡◌, ◌∙◌, refl, sym, ap, arith, inl, inr, Option-cases}
use kemuri.Base.{Option, none, some, List, [], ◌∷◌, length}
use kemuri.Base.Text.{Text, codes, text_eq}
use kemuri.Base.Float.{Float}
use kemuri.Core.SampleBlob.{SampleRecord, Result, ok, err, decode_samples}
use kemuri.Core.Histogram.Record.{record_all}
use kemuri.Core.Histogram.Merge.{record_all-append}
use kemuri.Rounds.{RoundRow}
use kemuri.Alerts.Metric.{sum_by, latencies_of, decoded_latencies, blob_latencies, round_latencies}
use kemuri.Rollups.Aggregate.{Counts, count_key, Sums, count_status}
use kemuri.Rollups.Aggregate.{add_latency, add_record, add_records, add_decoded, add_blob}
use kemuri.Rollups.Aggregate.{add_counts, add_round, add_rounds}

abbrev pub total_counts : Counts → ℕ
total_counts [] = 0
total_counts ((k, n) ∷ m) = n + total_counts m

total-count_key : (key : Text) (m : Counts) → total_counts (count_key key m) ≡ total_counts m + 1
total-count_key key [] = refl
total-count_key key ((k, n) ∷ m) = ground (arith, total-count_key key m)

-- The counts that the samples of a round leave as they are.
pub record SameCounts (s s' : Sums) : Type 0 where
  scheduled : s'.scheduled_rounds ≡ s.scheduled_rounds
  pub completed : s'.completed_rounds ≡ s.completed_rounds
  pub partially : s'.partial_rounds ≡ s.partial_rounds
  pub no_data : s'.no_data_counts ≡ s.no_data_counts
  attempted : s'.attempted_samples ≡ s.attempted_samples
  bearing : s'.latency_bearing_samples ≡ s.latency_bearing_samples
  healthy : s'.healthy_samples ≡ s.healthy_samples
  unhealthy : s'.unhealthy_samples ≡ s.unhealthy_samples
  loss : s'.measurement_loss_samples ≡ s.measurement_loss_samples

SameCounts-refl : (s : Sums) → SameCounts s s
SameCounts-refl s = record {
  scheduled = refl;
  completed = refl;
  partially = refl;
  no_data = refl;
  attempted = refl;
  bearing = refl;
  healthy = refl;
  unhealthy = refl;
  loss = refl;
}

SameCounts-trans : (s u v : Sums) → SameCounts s u → SameCounts u v → SameCounts s v
SameCounts-trans s u v a b = record {
  scheduled = b.scheduled ∙ a.scheduled;
  completed = b.completed ∙ a.completed;
  partially = b.partially ∙ a.partially;
  no_data = b.no_data ∙ a.no_data;
  attempted = b.attempted ∙ a.attempted;
  bearing = b.bearing ∙ a.bearing;
  healthy = b.healthy ∙ a.healthy;
  unhealthy = b.unhealthy ∙ a.unhealthy;
  loss = b.loss ∙ a.loss;
}

add_latency-SameCounts : (f : Float) (o : Option ℕ) (s : Sums) → SameCounts s (add_latency f o s)
add_latency-SameCounts f none s = SameCounts-refl s
add_latency-SameCounts f (some v) s = record {
  scheduled = refl;
  completed = refl;
  partially = refl;
  no_data = refl;
  attempted = refl;
  bearing = refl;
  healthy = refl;
  unhealthy = refl;
  loss = refl;
}

counted-SameCounts : (c : Counts) (s : Sums) → SameCounts s (record s { outcome_counts = c })
counted-SameCounts c s = record {
  scheduled = refl;
  completed = refl;
  partially = refl;
  no_data = refl;
  attempted = refl;
  bearing = refl;
  healthy = refl;
  unhealthy = refl;
  loss = refl;
}

module _ (f : Float) where
  add_record-SameCounts : (r : SampleRecord) (s : Sums) → SameCounts s (add_record f r s)
  add_record-SameCounts r s =
      SameCounts-trans s _ _ (add_latency-SameCounts f r.latency_ns s)
        (counted-SameCounts _ (add_latency f r.latency_ns s))

  add_records-SameCounts : (rs : List SampleRecord) (s : Sums) → SameCounts s (add_records f rs s)
  add_records-SameCounts [] s = SameCounts-refl s
  add_records-SameCounts (r ∷ rs) s =
      SameCounts-trans s _ _ (add_record-SameCounts r s)
        (add_records-SameCounts rs (add_record f r s))

  add_decoded-SameCounts :
      (o : Result (List SampleRecord)) (s : Sums) → SameCounts s (add_decoded f o s)
  add_decoded-SameCounts (ok rs) s = add_records-SameCounts rs s
  add_decoded-SameCounts (err e) s = SameCounts-refl s

  pub add_blob-SameCounts : (b : Option (List ℕ)) (s : Sums) → SameCounts s (add_blob f b s)
  add_blob-SameCounts none s = SameCounts-refl s
  add_blob-SameCounts (some blob) s = add_decoded-SameCounts (decode_samples blob) s

  histogram-add_records :
      (rs : List SampleRecord) (s : Sums)
      → (add_records f rs s).histogram ≡ record_all f s.histogram (latencies_of rs)
  histogram-add_records [] s = refl
  histogram-add_records (r ∷ rs) s = elim (Option-cases r.latency_ns) [
    | inl e ↦ histogram-add_records rs (add_record f r s) ∙ simp e refl
    | inr (v, e) ↦ histogram-add_records rs (add_record f r s) ∙ simp e refl
  ]

  histogram-add_blob :
      (b : Option (List ℕ)) (s : Sums)
      → (add_blob f b s).histogram ≡ record_all f s.histogram (blob_latencies b)
  unfolding blob_latencies
  histogram-add_blob none s = refl
  histogram-add_blob (some blob) s = go (decode_samples blob)
    where
      go :
          (o : Result (List SampleRecord))
          → (add_decoded f o s).histogram ≡ record_all f s.histogram (decoded_latencies o)
      go (ok rs) = histogram-add_records rs s
      go (err e) = refl

-- The rounds whose status has been counted.
abbrev pub statuses : Sums → ℕ
statuses s = s.completed_rounds + s.partial_rounds + total_counts s.no_data_counts

statuses-count_status :
    (status : Text) (s : Sums) → statuses (count_status status s) ≡ statuses s + 1
statuses-count_status status s =
    ground (arith, text_eq status (codes "complete"), total-count_key status s.no_data_counts)

-- Sums `s'` that hold those rounds on top of the sums `s`.
pub record Adds (rounds : List RoundRow) (s s' : Sums) : Type 0 where
  pub scheduled : s'.scheduled_rounds ≡ s.scheduled_rounds + length rounds
  pub status : statuses s' ≡ statuses s + length rounds
  pub attempted :
      s'.attempted_samples ≡ s.attempted_samples + sum_by (λ r. r.attempted_samples) rounds
  pub bearing :
      s'.latency_bearing_samples
      ≡ s.latency_bearing_samples + sum_by (λ r. r.latency_bearing_samples) rounds
  pub healthy : s'.healthy_samples ≡ s.healthy_samples + sum_by (λ r. r.healthy_samples) rounds
  pub unhealthy :
      s'.unhealthy_samples ≡ s.unhealthy_samples + sum_by (λ r. r.unhealthy_samples) rounds
  pub loss :
      s'.measurement_loss_samples
      ≡ s.measurement_loss_samples + sum_by (λ r. r.measurement_loss_samples) rounds

add_counts-Adds : (r : RoundRow) (s : Sums) → Adds (r ∷ []) s (add_counts r s)
add_counts-Adds r s = record {
  scheduled = ground arith;
  status = ground (arith, statuses-count_status r.execution_status s);
  attempted = ground arith;
  bearing = ground arith;
  healthy = ground arith;
  unhealthy = ground arith;
  loss = ground arith;
}

add_blob-statuses :
    (f : Float) (b : Option (List ℕ)) (s : Sums) → statuses (add_blob f b s) ≡ statuses s
add_blob-statuses f b s =
    let same = add_blob-SameCounts f b s in simp (same.completed, same.partially, same.no_data) refl

add_round-Adds : (f : Float) (r : RoundRow) (s : Sums) → Adds (r ∷ []) s (add_round f r s)
unfolding add_round
add_round-Adds f r s =
    let same = add_blob-SameCounts f r.sample_blob (add_counts r s) in
    let adds = add_counts-Adds r s in
    record {
      scheduled = same.scheduled ∙ adds.scheduled;
      status = add_blob-statuses f r.sample_blob (add_counts r s) ∙ adds.status;
      attempted = same.attempted ∙ adds.attempted;
      bearing = same.bearing ∙ adds.bearing;
      healthy = same.healthy ∙ adds.healthy;
      unhealthy = same.unhealthy ∙ adds.unhealthy;
      loss = same.loss ∙ adds.loss;
    }

Adds-cons :
    (r : RoundRow) (rs : List RoundRow) (s u v : Sums)
    → Adds (r ∷ []) s u
    → Adds rs u v
    → Adds (r ∷ rs) s v
Adds-cons r rs s u v a b = record {
  scheduled = omega (arith, a.scheduled, b.scheduled);
  status = omega (arith, a.status, b.status);
  attempted = omega (arith, a.attempted, b.attempted);
  bearing = omega (arith, a.bearing, b.bearing);
  healthy = omega (arith, a.healthy, b.healthy);
  unhealthy = omega (arith, a.unhealthy, b.unhealthy);
  loss = omega (arith, a.loss, b.loss);
}

pub add_rounds-Adds : (f : Float) (rs : List RoundRow) (s : Sums) → Adds rs s (add_rounds f rs s)
unfolding add_rounds
add_rounds-Adds f [] s = record {
  scheduled = omega arith;
  status = omega arith;
  attempted = omega arith;
  bearing = omega arith;
  healthy = omega arith;
  unhealthy = omega arith;
  loss = omega arith;
}
add_rounds-Adds f (r ∷ rs) s =
    Adds-cons r rs s (add_round f r s) _ (add_round-Adds f r s)
      (add_rounds-Adds f rs (add_round f r s))

histogram-add_counts : (r : RoundRow) (s : Sums) → (add_counts r s).histogram ≡ s.histogram
histogram-add_counts r s = ground arith

histogram-add_round :
    (f : Float) (r : RoundRow) (s : Sums)
    → (add_round f r s).histogram ≡ record_all f s.histogram (blob_latencies r.sample_blob)
unfolding add_round
histogram-add_round f r s =
    histogram-add_blob f r.sample_blob (add_counts r s)
    ∙ ap (λ h. record_all f h (blob_latencies r.sample_blob)) (histogram-add_counts r s)

pub histogram-add_rounds :
    (f : Float) (rs : List RoundRow) (s : Sums)
    → (add_rounds f rs s).histogram ≡ record_all f s.histogram (round_latencies rs)
unfolding add_rounds round_latencies
histogram-add_rounds f [] s = refl
histogram-add_rounds f (r ∷ rs) s =
    histogram-add_rounds f rs (add_round f r s)
    ∙ ap (λ h. record_all f h (round_latencies rs)) (histogram-add_round f r s)
    ∙ sym (record_all-append f s.histogram (blob_latencies r.sample_blob) (round_latencies rs))
