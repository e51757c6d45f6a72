-- ===== src/Rounds/Stats/Stored.antt =====
-- What the records say that crates/kemuri-server/src/writer.rs stores of the samples of a round.
use mathlib.Core.Option
use kemuri.Base.{ℕ, ◌+◌, ◌%◌, ◌^◌, ◌≤◌, ◌≡◌, ◌↔◌, refl, arith}
use kemuri.Base.{unwrap_or, Option, none, some, List, [], ◌∷◌, length}
use kemuri.Core.Kinds.{SampleOutcome, success, unexpected_response}
use kemuri.Core.Kinds.{healthy_response, unhealthy_response}
use kemuri.Core.SampleBlob.{SampleRecord}
use kemuri.Rounds.Stats.{SampleResult, classify_outcome, metadata_of, as_u64, sample_records}

classify_healthy : (o : SampleOutcome) → (classify_outcome o ≡ healthy_response) ↔ (o ≡ success)
unfolding classify_outcome
classify_healthy success = (λ h. refl, λ h. refl)
classify_healthy unexpected_response = (λ h. cc, λ h. cc)
classify_healthy _ = (λ h. cc, λ h. cc)

classify_unhealthy :
    (o : SampleOutcome) → (classify_outcome o ≡ unhealthy_response) ↔ (o ≡ unexpected_response)
unfolding classify_outcome
classify_unhealthy success = (λ h. cc, λ h. cc)
classify_unhealthy unexpected_response = (λ h. refl, λ h. refl)
classify_unhealthy _ = (λ h. cc, λ h. cc)

module _ {J : Type 0} (to_json : J → Option (List ℕ)) where
  -- What the stored record of a sample says.
  pub record Tells (i : ℕ) (r : SampleResult J) (s : SampleRecord) : Type 0 where
    pub index : s.sample_index ≡ i
    pub outcome : s.outcome ≡ r.outcome
    pub healthy : (s.classification ≡ healthy_response) ↔ (r.outcome ≡ success)
    pub unhealthy : (s.classification ≡ unhealthy_response) ↔ (r.outcome ≡ unexpected_response)
    pub latency : s.latency_ns ≡ Option.map (λ n. n % 2 ^ 64) r.latency
    pub elapsed : s.elapsed_ns ≡ Option.map (λ n. n % 2 ^ 64) r.latency
    pub no_metadata : r.metadata ≡ none → s.metadata ≡ r.detail
    pub with_metadata : (j : J) → r.metadata ≡ some j → s.metadata ≡ some (unwrap_or (to_json j) [])

  -- A record for each sample, in order, from index `i` on.
  abbrev pub Told : ℕ → List (SampleResult J) → List SampleRecord → Type 0
  Told i [] [] = Unit {0}
  Told i [] (s ∷ ss) = ⊥
  Told i (r ∷ rs) [] = ⊥
  Told i (r ∷ rs) (s ∷ ss) = Tells i r s × Told (i + 1) rs ss

  as_u64-map : (o : Option ℕ) → as_u64 to_json o ≡ Option.map (λ n. n % 2 ^ 64) o
  as_u64-map none = refl
  as_u64-map (some n) = refl

  metadata_of-none :
      (o : Option J) (detail : Option (List ℕ)) → o ≡ none → metadata_of to_json o detail ≡ detail
  metadata_of-none o detail e = rw e refl

  metadata_of-some :
      (o : Option J) (detail : Option (List ℕ)) (j : J)
      → o ≡ some j
      → metadata_of to_json o detail ≡ some (unwrap_or (to_json j) [])
  metadata_of-some o detail j e = rw e refl

  pub sample_records-Told :
      (i : ℕ) (results : List (SampleResult J))
      → i + length results ≤ 2 ^ 16
      → Told i results (sample_records to_json i results)
  unfolding sample_records
  sample_records-Told i [] h = tt
  sample_records-Told i (r ∷ rs) h = (
    record {
      index = omega (arith, h);
      outcome = refl;
      healthy = classify_healthy r.outcome;
      unhealthy = classify_unhealthy r.outcome;
      latency = as_u64-map r.latency;
      elapsed = as_u64-map r.latency;
      no_metadata = metadata_of-none r.metadata r.detail;
      with_metadata = metadata_of-some r.metadata r.detail;
    },
    sample_records-Told (i + 1) rs (omega (arith, h)),
  )
