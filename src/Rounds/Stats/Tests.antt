-- ===== src/Rounds/Stats/Tests.antt =====
-- The theorems on the statistics of a round at two samples.
use kemuri.Base.{
  ℕ, ◌+◌, ◌≤◌, ◌≡◌, refl, arith, inr, ◌==◌, if◌then◌else◌, Option, none, some, List, [], ◌∷◌,
}
use kemuri.Base.Text.{codes}
use kemuri.Core.Kinds.{success, timeout, partial}
use kemuri.Core.SampleBlob.{SampleRecord, ok, decode_samples}
use kemuri.Rounds.Stats.{
  SampleResult, compute_round_stats, classify_state, classify_execution_status,
}
use kemuri.Rounds.Stats.Stored.{Told}
use kemuri.Rounds.Stats.Laws.{
  compute_round_stats_sums, classify_state-compute_round_stats, decode_samples-compute_round_stats,
}

abbrev to_json : List ℕ → Option (List ℕ)
to_json bytes = some bytes

abbrev reply : SampleResult (List ℕ)
reply = record {
  outcome = success;
  latency = some 1_500_000;
  detail = none;
  metadata = some (123 ∷ 125 ∷ []);
}

abbrev lost : SampleResult (List ℕ)
lost = record { outcome = timeout; latency = none; detail = some (116 ∷ []); metadata = none }

compute_round_stats_sums_example :
    let s = compute_round_stats to_json (reply ∷ lost ∷ []) in
    (s.attempted ≡ 2)
    × (s.healthy + s.unhealthy + s.loss ≡ s.attempted)
    × (s.latency_bearing ≤ s.healthy + s.unhealthy)
compute_round_stats_sums_example = compute_round_stats_sums to_json (reply ∷ lost ∷ [])

classify_state-compute_round_stats_example :
    let s = compute_round_stats to_json (reply ∷ lost ∷ []) in
    classify_state (reply ∷ lost ∷ []) partial ≡ (
      if s.healthy == s.attempted
      then codes "healthy"
      else if s.loss == s.attempted
      then codes "down"
      else codes "degraded")
classify_state-compute_round_stats_example =
    classify_state-compute_round_stats to_json reply (lost ∷ []) partial (inr refl)

decode_samples-compute_round_stats_example :
    (blob : List ℕ) × ((compute_round_stats to_json (reply ∷ lost ∷ [])).sample_blob ≡ some blob)
    × (records : List SampleRecord) × (decode_samples blob ≡ ok records)
    × Told to_json 0 (reply ∷ lost ∷ []) records
decode_samples-compute_round_stats_example =
    decode_samples-compute_round_stats to_json reply (lost ∷ []) (omega arith)
      (omega arith, (omega arith, tt))

is_partial : classify_execution_status (reply ∷ lost ∷ []) ≡ partial
unfolding classify_execution_status
is_partial = refl
