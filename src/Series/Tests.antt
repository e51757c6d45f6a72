-- ===== src/Series/Tests.antt =====
-- The theorem on the points of a series at a round with one sample.
use kemuri.Base.{ap, ◌++◌, ℕ, ◌≡◌, arith, none, some, List, [], ◌∷◌, All}
use kemuri.Base.Text.{Text, codes}
use kemuri.Base.Examples.{thousandths, stamp_clock}
use kemuri.Rounds.{RoundRow}
use kemuri.Alerts.Metric.{round_latencies, blob_latencies, decoded_latencies}
use kemuri.Core.Kinds.{success, healthy_response}
use kemuri.Core.SampleBlob.{SampleRecord, encode_samples}
use kemuri.Core.SampleBlob.Records.{InRange}
use kemuri.Core.SampleBlob.RoundTrip.{Encodable, decode_samples-encode_samples}
use kemuri.Rollups.Aggregate.{Counts, aggregate_bucket}
use kemuri.Series.{rollup_to_series_point, raw_rounds_to_series_point}
use kemuri.Series.Laws.{Agree, rollup_to_series_point-Agree}

abbrev to_json : Counts → Text
to_json [] = []
to_json ((k, n) ∷ m) = n ∷ []

abbrev sample : SampleRecord
sample = record {
  sample_index = 0;
  offset_us = 12;
  outcome = success;
  classification = healthy_response;
  latency_ns = some 1_500_000;
  elapsed_ns = none;
  metadata = none;
}

sample-InRange : InRange sample
sample-InRange = record {
  index_range = omega arith;
  offset_range = omega arith;
  latency_range = omega arith;
  elapsed_range = tt;
}

sample-Encodable : All Encodable (sample ∷ [])
sample-Encodable = (record { in_range = sample-InRange; fits = tt }, tt)

abbrev round_at : ℕ → ℕ → Text → RoundRow
round_at id seconds status = record {
  internal_id = id;
  check_internal_id = 4;
  observer_internal_id = 1;
  scheduled_at = seconds ∷ 43 ∷ 0 ∷ [];
  execution_status = status;
  configured_samples = 3;
  attempted_samples = 3;
  latency_bearing_samples = 2;
  healthy_samples = 2;
  unhealthy_samples = 0;
  measurement_loss_samples = 1;
  min_latency_ns = some 5;
  max_latency_ns = some 8;
  sample_blob = some (encode_samples (sample ∷ []) ++ []);
}

abbrev one_round : List RoundRow
one_round = round_at 1 900 (codes "complete") ∷ []

one_latency : round_latencies one_round ≡ 1_500_000 ∷ []
unfolding round_latencies blob_latencies decoded_latencies
one_latency =
    ap (λ o. decoded_latencies o ++ [])
      (decode_samples-encode_samples (sample ∷ []) [] sample-Encodable)

rollup_to_series_point-Agree_example :
    Agree thousandths
      (rollup_to_series_point thousandths stamp_clock
        (aggregate_bucket thousandths to_json 4 1 300 (codes "t") one_round))
      (raw_rounds_to_series_point thousandths 900_000 one_round)
rollup_to_series_point-Agree_example =
    rollup_to_series_point-Agree thousandths stamp_clock to_json 4 1 300 900_000 (codes "t")
      one_round (simp one_latency (omega arith, tt)) (simp one_latency (omega arith))
