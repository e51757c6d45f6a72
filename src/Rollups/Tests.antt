-- ===== src/Rollups/Tests.antt =====
-- The theorems on the rollup worker at two rounds of a check.
use kemuri.Base.{
  ap, ◌++◌, ℕ, ◌≡◌, refl, arith, true, false, none, some, List, [], ◌∷◌, length, All, and_then,
  filter,
}
use kemuri.Base.Text.{Text, codes}
use kemuri.Base.Examples.{thousandths, stamp_clock, stamp_clock-Stamps, stamp_clock-Layout}
use kemuri.Base.Action.{ok, steady}
use kemuri.Rounds.{RoundRow}
use kemuri.Alerts.Metric.{round_latencies, blob_latencies, decoded_latencies, sort_rounds}
use kemuri.Core.Kinds.{success, healthy_response}
use kemuri.Core.SampleBlob.{SampleRecord, encode_samples}
use kemuri.Core.SampleBlob.Records.{InRange}
use kemuri.Core.SampleBlob.RoundTrip.{Encodable, decode_samples-encode_samples}
use kemuri.Core.Histogram.{decode}
use kemuri.Rollups.Aggregate.{InsertRollup, Counts, aggregate_bucket}
use kemuri.Rollups.Aggregate.Bucket.{
  CountsOf, aggregate_bucket-CountsOf, histogram_of, decode-aggregate_bucket,
}
use kemuri.Rollups.Store.{Tables, rounds_between, latest_start}
use kemuri.Rollups.Store.Laws.{find_rollup}
use kemuri.Rollups.Worker.{format_utc_timestamp}
use kemuri.Rollups.Worker.Cycle.{bucket_row}
use kemuri.Rollups.Worker.Buckets.{in_bucket}
use kemuri.Rollups.Worker.Laws.{process, rounds_read, buckets_read, process_pair_resolution_lem}
use kemuri.Rollups.Worker.Lost.{process_pair_resolution_lost}
use kemuri.Rollups.Worker.Faults.{Outcome, process_pair_resolution-Outcome}

abbrev to_json : Counts → Text
to_json [] = []
to_json ((k, n) ∷ m) = n ∷ []

abbrev sample : SampleRecord
sample = record {
  sample_index = 0;
  offset_us = 12;
  outcome = success;
  classification = healthy_response;
  latency_ns = some 1_500_000;
  elapsed_ns = none;
  metadata = none;
}

sample-InRange : InRange sample
sample-InRange = record {
  index_range = omega arith;
  offset_range = omega arith;
  latency_range = omega arith;
  elapsed_range = tt;
}

sample-Encodable : All Encodable (sample ∷ [])
sample-Encodable = (record { in_range = sample-InRange; fits = tt }, tt)

abbrev round_at : ℕ → ℕ → Text → RoundRow
round_at id seconds status = record {
  internal_id = id;
  check_internal_id = 4;
  observer_internal_id = 1;
  scheduled_at = seconds ∷ 43 ∷ 0 ∷ [];
  execution_status = status;
  configured_samples = 3;
  attempted_samples = 3;
  latency_bearing_samples = 2;
  healthy_samples = 2;
  unhealthy_samples = 0;
  measurement_loss_samples = 1;
  min_latency_ns = some 5;
  max_latency_ns = some 8;
  sample_blob = some (encode_samples (sample ∷ []) ++ []);
}

abbrev two_rounds : List RoundRow
two_rounds = round_at 1 900 (codes "complete") ∷ round_at 2 930 (codes "skipped") ∷ []

aggregate_bucket-CountsOf_example :
    CountsOf to_json two_rounds
      (aggregate_bucket thousandths to_json 4 1 300 (codes "t") two_rounds)
aggregate_bucket-CountsOf_example =
    aggregate_bucket-CountsOf thousandths to_json 4 1 300 (codes "t") two_rounds

abbrev one_round : List RoundRow
one_round = round_at 1 900 (codes "complete") ∷ []

one_latency : round_latencies one_round ≡ 1_500_000 ∷ []
unfolding round_latencies blob_latencies decoded_latencies
one_latency =
    ap (λ o. decoded_latencies o ++ [])
      (decode_samples-encode_samples (sample ∷ []) [] sample-Encodable)

decode-aggregate_bucket_example :
    and_then
      (aggregate_bucket thousandths to_json 4 1 300 (codes "t") one_round).histogram_blob
      decode
    ≡ histogram_of thousandths (round_latencies one_round)
decode-aggregate_bucket_example =
    decode-aggregate_bucket thousandths to_json 4 1 300 (codes "t") one_round
      (simp one_latency (omega arith, tt)) (simp one_latency (omega arith))

-- A rollup of the bucket 1500 is there; the clock shows 2000 seconds.
abbrev last_rollup : InsertRollup
unfolding aggregate_bucket
last_rollup = aggregate_bucket thousandths to_json 4 1 300 (1500 ∷ 90 ∷ []) []

abbrev tables : Tables
tables = record { rounds = two_rounds; rollups = [] }

abbrev now : ℕ
now = 2_000_000_000_000

process_pair_resolution_lem_example :
    let (result, after) = process stamp_clock thousandths to_json now 4 1 300 (steady tables) in
    (result ≡ ok (length (buckets_read stamp_clock thousandths to_json now 4 1 300 tables)))
    × (find_rollup 4 1 300 (format_utc_timestamp stamp_clock now 900) after.tables.rollups
        ≡ some (
            bucket_row stamp_clock thousandths to_json now 4 1 300 900 (
              filter
                (in_bucket stamp_clock 300 900)
                (rounds_read stamp_clock thousandths to_json now 4 1 300 tables))))
unfolding rounds_between latest_start sort_rounds
process_pair_resolution_lem_example =
    process_pair_resolution_lem stamp_clock thousandths to_json now 4 1 300 tables 900
      stamp_clock-Stamps refl

process_pair_resolution_lost_example :
    (process stamp_clock thousandths to_json now 4 1 300
      (steady (record { rounds = two_rounds; rollups = last_rollup ∷ [] }))).1.tables.rollups
    ≡ (process stamp_clock thousandths to_json now 4 1 300 (
        steady (record {
          rounds = round_at 2 930 (codes "skipped") ∷ [];
          rollups = last_rollup ∷ [];
        }))).1.tables.rollups
unfolding latest_start aggregate_bucket
process_pair_resolution_lost_example =
    process_pair_resolution_lost stamp_clock thousandths to_json now 4 1 300 []
      (round_at 2 930 (codes "skipped") ∷ []) (round_at 1 900 (codes "complete")) (last_rollup ∷ [])
      (1500 ∷ 90 ∷ []) 1_500_000_000_000 900_000_000_000 stamp_clock-Layout refl refl refl refl refl

process_pair_resolution-Outcome_example :
    Outcome stamp_clock thousandths to_json now 4 1 300
      (buckets_read stamp_clock thousandths to_json now 4 1 300 tables)
      0
      tables
      (process stamp_clock thousandths to_json now 4 1 300
        (record { tables = tables; faults = false ∷ false ∷ true ∷ [] }))
process_pair_resolution-Outcome_example =
    process_pair_resolution-Outcome stamp_clock thousandths to_json now 4 1 300 tables
      (false ∷ false ∷ true ∷ [])
