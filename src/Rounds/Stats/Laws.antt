-- ===== src/Rounds/Stats/Laws.antt =====
-- The statistics of a round of crates/kemuri-server/src/writer.rs, its state and its stored samples.
use kemuri.Base.{
  ℕ, suc, ◌+◌, ◌%◌, ◌^◌, ◌<◌, ◌≤◌, ◌≡◌, ◌∙◌, ◌⊎◌, refl, sym, ap, arith, inl, inr, Bool, true, false,
  not, if◌then◌else◌, ◌==◌,
}
use kemuri.Base.{all, any, is_some, Option, none, some, List, [], ◌∷◌, length, All, Bool-cases}
use kemuri.Base.Text.{codes}
use kemuri.Core.Kinds.{SampleOutcome, success, unexpected_response}
use kemuri.Core.Kinds.{SampleClassification, healthy_response, unhealthy_response, measurement_loss}
use kemuri.Core.Kinds.{RoundExecutionStatus, complete, partial}
use kemuri.Core.SampleBlob.{SampleRecord, ok, encode_samples, decode_samples}
use kemuri.Core.SampleBlob.Records.{IsU64, take-length}
use kemuri.Core.SampleBlob.RoundTrip.{Fits, Encodable, decode_samples-encode_samples}
use kemuri.Rounds.Stats.{
  SampleResult, RoundStats, no_samples, classify_outcome, is_healthy, is_loss, one_if, tally,
  count_sample,
}
use kemuri.Rounds.Stats.{count_samples, metadata_of, as_u64, sample_records, compute_round_stats}
use kemuri.Rounds.Stats.{
  healthy_sample, lost_sample, state_of_samples, classify_state, is_answer,
  classify_execution_status,
}
use kemuri.Rounds.Stats.Stored.{Told, sample_records-Told}
use mathlib.Core.List.{append-nil}

-- How many elements satisfy a test.
abbrev pub count_if : {A : Type 0} → (A → Bool) → List A → ℕ
count_if p [] = 0
count_if p (x ∷ xs) = one_if (p x) + count_if p xs

count_if-le : {A : Type 0} (p : A → Bool) (xs : List A) → count_if p xs ≤ length xs
count_if-le p [] = omega arith
count_if-le p (x ∷ xs) = ground (arith, count_if-le p xs)

all-count_if : {A : Type 0} (p : A → Bool) (xs : List A) → all p xs ≡ (count_if p xs == length xs)
all-count_if p [] = refl
all-count_if p (x ∷ xs) = ground (arith, all-count_if p xs, count_if-le p xs)

-- Every sample is counted once, under one classification, and only answers bear a latency.
pub record Counted {J : Type 0} (results : List (SampleResult J)) (s s' : RoundStats) : Type 0 where
  pub every : s'.attempted ≡ s.attempted + length results
  pub healthy_counted : s'.healthy ≡ s.healthy + count_if healthy_sample results
  pub loss_counted : s'.loss ≡ s.loss + count_if lost_sample results
  pub sums :
      s'.healthy + s'.unhealthy + s'.loss + s.attempted
      ≡ s.healthy + s.unhealthy + s.loss + s'.attempted
  pub bearing :
      s'.latency_bearing + s.healthy + s.unhealthy ≤ s.latency_bearing + s'.healthy + s'.unhealthy

module _ {J : Type 0} (to_json : J → Option (List ℕ)) where
  tally-Counted :
      (c : SampleClassification) (has : Bool) (s : RoundStats)
      → let s' = tally c has (record s { attempted = s.attempted + 1 }) in
        (s'.attempted ≡ s.attempted + 1)
        × (s'.healthy ≡ s.healthy + one_if (is_healthy c))
        × (s'.loss ≡ s.loss + one_if (is_loss c))
        × (s'.healthy + s'.unhealthy + s'.loss ≡ s.healthy + s.unhealthy + s.loss + 1)
        × (s'.latency_bearing + s.healthy + s.unhealthy
            ≤ s.latency_bearing + s'.healthy + s'.unhealthy)
  tally-Counted healthy_response has s = (refl, refl, omega arith, omega arith, ground arith)
  tally-Counted unhealthy_response has s =
      (refl, omega arith, omega arith, omega arith, ground arith)
  tally-Counted measurement_loss has s = (refl, omega arith, refl, omega arith, omega arith)

  count_samples-Counted :
      (results : List (SampleResult J)) (s : RoundStats)
      → Counted results s (count_samples to_json results s)
  unfolding count_samples
  count_samples-Counted [] s = record {
    every = omega arith;
    healthy_counted = omega arith;
    loss_counted = omega arith;
    sums = omega arith;
    bearing = omega arith;
  }
  count_samples-Counted (r ∷ rs) s =
      let (a, h, l, t, b) = tally-Counted (classify_outcome r.outcome) (is_some r.latency) s in
      let c = count_samples-Counted rs (count_sample to_json r s) in
      record {
        every = omega (arith, a, c.every);
        healthy_counted = omega (arith, h, c.healthy_counted);
        loss_counted = omega (arith, l, c.loss_counted);
        sums = omega (arith, a, t, c.sums);
        bearing = omega (arith, b, c.bearing);
      }

  -- Every sample of a round is counted once: as attempted, and under one classification. At most
  -- the samples with an answer bear a latency.
  pub compute_round_stats_sums :
      (results : List (SampleResult J))
      → let s = compute_round_stats to_json results in
        (s.attempted ≡ length results)
        × (s.healthy + s.unhealthy + s.loss ≡ s.attempted)
        × (s.latency_bearing ≤ s.healthy + s.unhealthy)
  unfolding compute_round_stats
  compute_round_stats_sums results =
      let c = count_samples-Counted results no_samples in
      (omega (arith, c.every), omega (arith, c.sums), omega (arith, c.bearing))

  state_of_samples-count_if :
      (r : SampleResult J) (rs : List (SampleResult J)) (s : RoundStats)
      → s.attempted ≡ length (r ∷ rs)
      → s.healthy ≡ count_if healthy_sample (r ∷ rs)
      → s.loss ≡ count_if lost_sample (r ∷ rs)
      → state_of_samples (r ∷ rs) ≡ (
          if s.healthy == s.attempted
          then codes "healthy"
          else if s.loss == s.attempted
          then codes "down"
          else codes "degraded")
  unfolding state_of_samples
  state_of_samples-count_if r rs s a h l =
      let p : all healthy_sample (r ∷ rs) ≡ (s.healthy == s.attempted) =
        all-count_if healthy_sample (r ∷ rs) ∙ (λ i. sym h i == sym a i) in
      let q : all lost_sample (r ∷ rs) ≡ (s.loss == s.attempted) =
        all-count_if lost_sample (r ∷ rs) ∙ (λ i. sym l i == sym a i) in
      λ i. if p i then codes "healthy" else if q i then codes "down" else codes "degraded"

  -- The state of a completed or partial round with samples follows from its statistics: healthy if
  -- every sample is, down if every sample is lost, and degraded otherwise.
  pub classify_state-compute_round_stats :
      (r : SampleResult J) (rs : List (SampleResult J)) (status : RoundExecutionStatus)
      → (status ≡ complete) ⊎ (status ≡ partial)
      → let s = compute_round_stats to_json (r ∷ rs) in
        classify_state (r ∷ rs) status ≡ (
          if s.healthy == s.attempted
          then codes "healthy"
          else if s.loss == s.attempted
          then codes "down"
          else codes "degraded")
  unfolding compute_round_stats classify_state
  classify_state-compute_round_stats r rs status h =
      let c = count_samples-Counted (r ∷ rs) no_samples in
      either h
      ∙ state_of_samples-count_if r rs (count_samples to_json (r ∷ rs) no_samples)
          (omega (arith, c.every)) (omega (arith, c.healthy_counted))
          (omega (arith, c.loss_counted))
    where
      either :
          (status ≡ complete) ⊎ (status ≡ partial)
          → classify_state (r ∷ rs) status ≡ state_of_samples (r ∷ rs)
      either (inl e) = rw e refl
      either (inr e) = rw e refl

  length-sample_records :
      (i : ℕ) (results : List (SampleResult J))
      → length (sample_records to_json i results) ≡ length results
  unfolding sample_records
  length-sample_records i [] = refl
  length-sample_records i (r ∷ rs) = ap suc (length-sample_records (i + 1) rs)

  as_u64-IsU64 : (o : Option ℕ) → IsU64 (as_u64 to_json o)
  as_u64-IsU64 none = tt
  as_u64-IsU64 (some n) = omega arith

  sample_records-Encodable :
      (i : ℕ) (results : List (SampleResult J))
      → All (λ r. Fits (metadata_of to_json r.metadata r.detail)) results
      → All Encodable (sample_records to_json i results)
  unfolding sample_records
  sample_records-Encodable i [] h = tt
  sample_records-Encodable i (r ∷ rs) h = (
    record {
      in_range = record {
        index_range = omega arith;
        offset_range = omega arith;
        latency_range = as_u64-IsU64 r.latency;
        elapsed_range = as_u64-IsU64 r.latency;
      };
      fits = h.0;
    },
    sample_records-Encodable (i + 1) rs h.1,
  )

  -- The blob of a round with at least one and fewer than 2 ^ 16 samples, each with metadata shorter
  -- than 2 ^ 16 bytes, is there and decodes to a record for each sample, in order: with its index and
  -- outcome, as healthy exactly for a success and as unhealthy exactly for an unexpected response,
  -- with the latency, cut to 64 bits, also as the elapsed time, and with the text of the metadata or,
  -- where there is none, the detail.
  pub decode_samples-compute_round_stats :
      (r : SampleResult J) (rs : List (SampleResult J))
      → length (r ∷ rs) < 2 ^ 16
      → All (λ x. Fits (metadata_of to_json x.metadata x.detail)) (r ∷ rs)
      → (blob : List ℕ) × ((compute_round_stats to_json (r ∷ rs)).sample_blob ≡ some blob)
        × (records : List SampleRecord) × (decode_samples blob ≡ ok records)
        × Told to_json 0 (r ∷ rs) records
  unfolding compute_round_stats sample_records
  decode_samples-compute_round_stats r rs h a =
      let records = sample_records to_json 0 (r ∷ rs) in
      let short : length records % 2 ^ 16 ≡ length records =
        omega (arith, length-sample_records 0 (r ∷ rs)) in
      (
        encode_samples records,
        refl,
        records,
        rw (append-nil, short, take-length records) at
            (decode_samples-encode_samples records [] (sample_records-Encodable 0 (r ∷ rs) a)),
        sample_records-Told to_json 0 (r ∷ rs) (omega (arith, h)),
      )

-- A sample with an answer is not lost, and one without is not healthy.
is_answer-is_loss : (o : SampleOutcome) → is_loss (classify_outcome o) ≡ not (is_answer o)
unfolding classify_outcome
is_answer-is_loss success = refl
is_answer-is_loss unexpected_response = refl
is_answer-is_loss _ = refl

is_healthy-is_answer :
    (o : SampleOutcome) → is_answer o ≡ false → is_healthy (classify_outcome o) ≡ false
unfolding classify_outcome
is_healthy-is_answer success h = absurd (ground arith)
is_healthy-is_answer _ h = refl

module _ {J : Type 0} where
  some_answered :
      (rs : List (SampleResult J))
      → any (λ x. is_answer x.outcome) rs ≡ true
      → all lost_sample rs ≡ false
  some_answered [] h = absurd (ground arith)
  some_answered (r ∷ rs) h = elim (Bool-cases (is_answer r.outcome)) [
    | inl e ↦ ground (arith, is_answer-is_loss r.outcome)
    | inr e ↦ ground (arith, is_answer-is_loss r.outcome, some_answered rs)
  ]

  some_unhealthy :
      (rs : List (SampleResult J))
      → any (λ x. not (is_answer x.outcome)) rs ≡ true
      → all healthy_sample rs ≡ false
  some_unhealthy [] h = absurd (ground arith)
  some_unhealthy (r ∷ rs) h = elim (Bool-cases (is_answer r.outcome)) [
    | inl e ↦ ground (arith, some_unhealthy rs)
    | inr e ↦ ground (arith, is_healthy-is_answer r.outcome e)
  ]

  -- A round that a worker calls partial is stored as degraded.
  pub classify_state-classify_execution_status :
      (results : List (SampleResult J))
      → classify_execution_status results ≡ partial
      → classify_state results partial ≡ codes "degraded"
  unfolding classify_execution_status classify_state state_of_samples
  classify_state-classify_execution_status [] h = cc
  classify_state-classify_execution_status (r ∷ rs) h =
      elim (Bool-cases (any (λ x. not (is_answer x.outcome)) (r ∷ rs))) [
        | inl e ↦ elim (Bool-cases (any (λ x. is_answer x.outcome) (r ∷ rs))) [
          | inl d ↦ rw (some_unhealthy (r ∷ rs) e) (rw (some_answered (r ∷ rs) d) refl)
          | inr d ↦ cc
        ]
        | inr e ↦ cc
      ]
