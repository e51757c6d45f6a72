-- ===== src/Rounds/Stats.antt =====
-- What crates/kemuri-server/src/writer.rs computes from the samples of a round before it is stored,
-- and `classify_execution_status` of crates/kemuri-server/src/worker.rs. A latency is its
-- nanoseconds. The counts are usize, and a round has fewer samples than that type has values.
pub mod Stored
pub mod Laws
mod Tests
use kemuri.Base.{
  ℕ, zero, suc, ◌+◌, ◌/◌, ◌%◌, ◌^◌, min, max, Bool, true, false, ◌&&◌, not, if◌then◌else◌,
}
use kemuri.Base.{
  leb, ltb, ◌==◌, all, any, is_some, map_or, unwrap_or, Option, none, some, List, [], ◌∷◌, length,
  get_elem?,
}
use kemuri.Base.Text.{Text, codes}
use kemuri.Core.Kinds.{SampleOutcome, success, unexpected_response}
use kemuri.Core.Kinds.{SampleClassification, healthy_response, unhealthy_response, measurement_loss}
use kemuri.Core.Kinds.{
  RoundExecutionStatus, complete, partial, skipped_overlap, skipped_backpressure,
}
use kemuri.Core.Kinds.{cancelled, internal_error}
use kemuri.Core.SampleBlob.{SampleRecord, encode_samples}

-- `J` stands for the metadata's map, and `detail` for the bytes of its text.
pub record SampleResult (J : Type 0) : Type 0 where
  pub outcome : SampleOutcome
  pub latency : Option ℕ
  pub detail : Option (List ℕ)
  pub metadata : Option J

pub record RoundStats : Type 0 where
  pub attempted : ℕ
  pub latency_bearing : ℕ
  pub healthy : ℕ
  pub unhealthy : ℕ
  pub loss : ℕ
  pub min_lat : Option ℕ
  pub max_lat : Option ℕ
  pub sample_blob : Option (List ℕ)

-- The numbers before the loop of `compute_round_stats`.
abbrev pub no_samples : RoundStats
no_samples = record {
  attempted = 0;
  latency_bearing = 0;
  healthy = 0;
  unhealthy = 0;
  loss = 0;
  min_lat = none;
  max_lat = none;
  sample_blob = none;
}

unfoldable pub classify_outcome : SampleOutcome → SampleClassification
classify_outcome success = healthy_response
classify_outcome unexpected_response = unhealthy_response
classify_outcome _ = measurement_loss

abbrev pub is_healthy : SampleClassification → Bool
is_healthy healthy_response = true
is_healthy _ = false

abbrev pub is_loss : SampleClassification → Bool
is_loss measurement_loss = true
is_loss _ = false

abbrev pub one_if : Bool → ℕ
one_if b = if b then 1 else 0

-- `outcome == Success || outcome == UnexpectedResponse`
abbrev pub is_answer : SampleOutcome → Bool
is_answer success = true
is_answer unexpected_response = true
is_answer _ = false

-- `m.map_or(lat, |m| op(m, lat))` for a sample with a latency.
abbrev pub extreme : (ℕ → ℕ → ℕ) → Option ℕ → Option ℕ → Option ℕ
extreme op m none = m
extreme op m (some lat) = some (map_or m lat (λ x. op x lat))

-- The arms of the `match` on the classification of a sample.
abbrev pub tally : SampleClassification → Bool → RoundStats → RoundStats
tally healthy_response has_latency s = record s {
  healthy = s.healthy + 1;
  latency_bearing = s.latency_bearing + one_if has_latency;
}
tally unhealthy_response has_latency s = record s {
  unhealthy = s.unhealthy + 1;
  latency_bearing = s.latency_bearing + one_if has_latency;
}
tally measurement_loss has_latency s = record s { loss = s.loss + 1 }

module _ {J : Type 0} (to_json : J → Option (List ℕ)) where
  -- The numbers of one turn of the loop of `compute_round_stats`.
  abbrev pub count_sample : SampleResult J → RoundStats → RoundStats
  count_sample r s =
      let counted =
        tally (classify_outcome r.outcome) (is_some r.latency)
          (record s { attempted = s.attempted + 1 }) in
      record counted {
        min_lat = extreme min s.min_lat r.latency;
        max_lat = extreme max s.max_lat r.latency;
      }

  unfoldable pub count_samples : List (SampleResult J) → RoundStats → RoundStats
  count_samples [] s = s
  count_samples (r ∷ rs) s = count_samples rs (count_sample r s)

  abbrev pub metadata_of : Option J → Option (List ℕ) → Option (List ℕ)
  metadata_of none detail = detail
  metadata_of (some meta) detail = some (unwrap_or (to_json meta) [])

  abbrev pub as_u64 : Option ℕ → Option ℕ
  as_u64 none = none
  as_u64 (some n) = some (n % 2 ^ 64)

  abbrev pub sample_record : ℕ → SampleResult J → SampleRecord
  sample_record i r = record {
    sample_index = i % 2 ^ 16;
    offset_us = 0;
    outcome = r.outcome;
    classification = classify_outcome r.outcome;
    latency_ns = as_u64 r.latency;
    elapsed_ns = as_u64 r.latency;
    metadata = metadata_of r.metadata r.detail;
  }

  -- The records that the loop pushes, from index `i` on.
  unfoldable pub sample_records : ℕ → List (SampleResult J) → List SampleRecord
  sample_records i [] = []
  sample_records i (r ∷ rs) = sample_record i r ∷ sample_records (i + 1) rs

  blob_of : List SampleRecord → Option (List ℕ)
  blob_of [] = none
  blob_of (r ∷ rs) = some (encode_samples (r ∷ rs))

  unfoldable pub compute_round_stats : List (SampleResult J) → RoundStats
  unfolding blob_of
  compute_round_stats results = record (count_samples results no_samples) {
    sample_blob = blob_of (sample_records 0 results);
  }

module _ {J : Type 0} where
  abbrev pub healthy_sample : SampleResult J → Bool
  healthy_sample r = is_healthy (classify_outcome r.outcome)

  abbrev pub lost_sample : SampleResult J → Bool
  lost_sample r = is_loss (classify_outcome r.outcome)

  state_of_samples : List (SampleResult J) → Text
  state_of_samples [] = codes "no_data"
  state_of_samples (r ∷ rs) =
      if all healthy_sample (r ∷ rs)
      then codes "healthy"
      else if all lost_sample (r ∷ rs)
      then codes "down"
      else codes "degraded"

  unfoldable pub classify_state : List (SampleResult J) → RoundExecutionStatus → Text
  unfolding state_of_samples
  classify_state results complete = state_of_samples results
  classify_state results partial = state_of_samples results
  classify_state results _ = codes "no_data"

  unfoldable pub classify_execution_status : List (SampleResult J) → RoundExecutionStatus
  classify_execution_status [] = complete
  classify_execution_status (r ∷ rs) =
      if any (λ x. not (is_answer x.outcome)) (r ∷ rs) && any (λ x. is_answer x.outcome) (r ∷ rs)
      then partial
      else complete
