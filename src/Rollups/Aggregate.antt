-- ===== src/Rollups/Aggregate.antt =====
-- `aggregate_bucket` of crates/kemuri-server/src/rollup_worker.rs. The counts are i64 and stand as
-- numbers; the sum of the latencies, which may wrap, is the 64 bits of its i64.
pub mod Laws
pub mod Statuses
pub mod Bucket
use kemuri.Base.{ℕ, ◌+◌, ◌%◌, ◌^◌, min, max, Bool, true, false, if◌then◌else◌, ltb, ◌==◌}
use kemuri.Base.{Option, none, some, List, [], ◌∷◌, map_or}
use kemuri.Base.Text.{Text, codes, text_eq}
use kemuri.Base.Float.{Float}
use kemuri.Core.Kinds.{SampleOutcome, success, timeout, dns_error, network_unreachable}
use kemuri.Core.Kinds.{connection_refused, connection_reset, tls_error, protocol_error}
use kemuri.Core.Kinds.{unexpected_response, permission_denied, outcome_cancelled}
use kemuri.Core.Kinds.{outcome_internal_error}
use kemuri.Core.SampleBlob.{SampleRecord, Result, ok, err, decode_samples}
use kemuri.Core.Histogram.{Histogram, new, record_value, encode}
use kemuri.Rounds.{RoundRow}

-- `InsertRollup` of crates/kemuri-storage/src/repos/mod.rs.
pub record InsertRollup : Type 0 where
  pub check_internal_id : ℕ
  pub observer_internal_id : ℕ
  pub resolution_seconds : ℕ
  pub bucket_start : Text
  pub scheduled_rounds : ℕ
  pub completed_rounds : ℕ
  pub partial_rounds : ℕ
  pub configured_sample_slots : ℕ
  pub attempted_samples : ℕ
  pub latency_bearing_samples : ℕ
  pub healthy_samples : ℕ
  pub unhealthy_samples : ℕ
  pub measurement_loss_samples : ℕ
  pub outcome_counts : Text
  pub min_latency_ns : Option ℕ
  pub max_latency_ns : Option ℕ
  pub sum_latency_ns : ℕ
  pub histogram_version : ℕ
  pub histogram_blob : Option (List ℕ)
  pub no_data_counts : Text

-- A HashMap of counts; its order is the one of the first insertions.
abbrev pub Counts : Type 0
Counts = List (Text × ℕ)

-- `entry(key).and_modify(|c| *c += 1).or_insert(1)`
abbrev pub count_key : Text → Counts → Counts
count_key key [] = (key, 1) ∷ []
count_key key ((k, n) ∷ m) =
    let rest = count_key key m in if text_eq k key then (k, n + 1) ∷ m else (k, n) ∷ rest

-- The local variables of the loop.
pub record Sums : Type 0 where
  pub scheduled_rounds : ℕ
  pub completed_rounds : ℕ
  pub partial_rounds : ℕ
  pub configured_sample_slots : ℕ
  pub attempted_samples : ℕ
  pub latency_bearing_samples : ℕ
  pub healthy_samples : ℕ
  pub unhealthy_samples : ℕ
  pub measurement_loss_samples : ℕ
  pub min_latency_ns : Option ℕ
  pub max_latency_ns : Option ℕ
  pub sum_latency_ns : ℕ
  pub histogram : Histogram
  pub outcome_counts : Counts
  pub no_data_counts : Counts

unfoldable pub no_rounds : Sums
no_rounds = record {
  scheduled_rounds = 0;
  completed_rounds = 0;
  partial_rounds = 0;
  configured_sample_slots = 0;
  attempted_samples = 0;
  latency_bearing_samples = 0;
  healthy_samples = 0;
  unhealthy_samples = 0;
  measurement_loss_samples = 0;
  min_latency_ns = none;
  max_latency_ns = none;
  sum_latency_ns = 0;
  histogram = new;
  outcome_counts = [];
  no_data_counts = [];
}

-- `format!("{:?}", outcome)`
abbrev pub outcome_debug : SampleOutcome → Text
outcome_debug success = codes "Success"
outcome_debug timeout = codes "Timeout"
outcome_debug dns_error = codes "DnsError"
outcome_debug network_unreachable = codes "NetworkUnreachable"
outcome_debug connection_refused = codes "ConnectionRefused"
outcome_debug connection_reset = codes "ConnectionReset"
outcome_debug tls_error = codes "TlsError"
outcome_debug protocol_error = codes "ProtocolError"
outcome_debug unexpected_response = codes "UnexpectedResponse"
outcome_debug permission_denied = codes "PermissionDenied"
outcome_debug outcome_cancelled = codes "Cancelled"
outcome_debug outcome_internal_error = codes "InternalError"

-- The `match` on the status of a round.
abbrev pub count_status : Text → Sums → Sums
count_status status s =
    if text_eq status (codes "complete")
    then record s { completed_rounds = s.completed_rounds + 1 }
    else if text_eq status (codes "partial")
    then record s { partial_rounds = s.partial_rounds + 1 }
    else record s { no_data_counts = count_key status s.no_data_counts }

-- An extreme of the bucket, from that of a round.
abbrev pub extend_by : (ℕ → ℕ → ℕ) → Option ℕ → Option ℕ → Option ℕ
extend_by op acc none = acc
extend_by op acc (some v) = some (map_or acc v (λ m. op m v))

-- The part of a turn before the samples: status, counts and extremes.
abbrev pub add_counts : RoundRow → Sums → Sums
add_counts r s =
    let t =
      count_status r.execution_status (record s { scheduled_rounds = s.scheduled_rounds + 1 }) in
    record t {
      configured_sample_slots = t.configured_sample_slots + r.configured_samples;
      attempted_samples = t.attempted_samples + r.attempted_samples;
      latency_bearing_samples = t.latency_bearing_samples + r.latency_bearing_samples;
      healthy_samples = t.healthy_samples + r.healthy_samples;
      unhealthy_samples = t.unhealthy_samples + r.unhealthy_samples;
      measurement_loss_samples = t.measurement_loss_samples + r.measurement_loss_samples;
      min_latency_ns = extend_by min t.min_latency_ns r.min_latency_ns;
      max_latency_ns = extend_by max t.max_latency_ns r.max_latency_ns;
    }

abbrev pub histogram_blob_of : Histogram → Option (List ℕ)
histogram_blob_of h = if ltb 0 h.count then some (encode h) else none

module _ (f : Float) where
  abbrev pub add_latency : Option ℕ → Sums → Sums
  add_latency none s = s
  add_latency (some lat_ns) s = record s {
    histogram = record_value f s.histogram lat_ns;
    sum_latency_ns = (s.sum_latency_ns + lat_ns) % 2 ^ 64;
  }

  abbrev pub add_record : SampleRecord → Sums → Sums
  add_record r s =
      let counted = add_latency r.latency_ns s in
      record counted { outcome_counts = count_key (outcome_debug r.outcome) counted.outcome_counts }

  abbrev pub add_records : List SampleRecord → Sums → Sums
  add_records [] s = s
  add_records (r ∷ rs) s = add_records rs (add_record r s)

  abbrev pub add_decoded : Result (List SampleRecord) → Sums → Sums
  add_decoded (ok records) s = add_records records s
  add_decoded (err e) s = s

  abbrev pub add_blob : Option (List ℕ) → Sums → Sums
  add_blob none s = s
  add_blob (some blob) s = add_decoded (decode_samples blob) s

  -- One turn of the loop, and the loop.
  unfoldable pub add_round : RoundRow → Sums → Sums
  add_round r s = add_blob r.sample_blob (add_counts r s)

  unfoldable pub add_rounds : List RoundRow → Sums → Sums
  add_rounds [] s = s
  add_rounds (r ∷ rs) s = add_rounds rs (add_round r s)

  -- `to_json` is `serde_json::to_string` of a map of counts.
  unfoldable pub aggregate_bucket :
      (Counts → Text) → ℕ → ℕ → ℕ → Text → List RoundRow → InsertRollup
  aggregate_bucket to_json check observer resolution bucket_start rounds =
      let s = add_rounds rounds no_rounds in
      record {
        check_internal_id = check;
        observer_internal_id = observer;
        resolution_seconds = resolution;
        bucket_start = bucket_start;
        scheduled_rounds = s.scheduled_rounds;
        completed_rounds = s.completed_rounds;
        partial_rounds = s.partial_rounds;
        configured_sample_slots = s.configured_sample_slots;
        attempted_samples = s.attempted_samples;
        latency_bearing_samples = s.latency_bearing_samples;
        healthy_samples = s.healthy_samples;
        unhealthy_samples = s.unhealthy_samples;
        measurement_loss_samples = s.measurement_loss_samples;
        outcome_counts = to_json s.outcome_counts;
        min_latency_ns = s.min_latency_ns;
        max_latency_ns = s.max_latency_ns;
        sum_latency_ns = s.sum_latency_ns;
        histogram_version = 1;
        histogram_blob = histogram_blob_of s.histogram;
        no_data_counts = to_json s.no_data_counts;
      }
