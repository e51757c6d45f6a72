-- ===== src/Rollups/Store.antt =====
-- The tables rounds and rollups, with the statements of the RoundRepo and RollupRepo of
-- crates/kemuri-storage/src/repos that the rollup worker runs. Text is compared as SQLite's BINARY
-- collation does.
pub mod Laws
use kemuri.Base.{ℕ, Bool, true, false, ◌&&◌, not, if◌then◌else◌, ◌==◌}
use kemuri.Base.{Option, none, some, List, [], ◌∷◌, filter, map_or, any}
use kemuri.Base.Text.{Text, text_eq}
use kemuri.Base.Action.{Action, query, statement}
use kemuri.Rounds.{RoundRow}
use kemuri.Alerts.Metric.{text_le, sort_rounds}
use kemuri.Rollups.Aggregate.{InsertRollup}

pub record Tables : Type 0 where
  pub rounds : List RoundRow
  pub rollups : List InsertRollup

abbrev pub text_lt : Text → Text → Bool
text_lt s t = not (text_le t s)

-- `query_by_check_range_with_observer`
abbrev pub is_between : ℕ → ℕ → Text → Text → RoundRow → Bool
is_between check observer from to r =
    r.check_internal_id == check
    && r.observer_internal_id == observer
    && text_le from r.scheduled_at
    && text_lt r.scheduled_at to

unfoldable pub rounds_between : ℕ → ℕ → Text → Text → List RoundRow → List RoundRow
rounds_between check observer from to rounds =
    sort_rounds (filter (is_between check observer from to) rounds)

abbrev pub query_by_check_range_with_observer : ℕ → ℕ → Text → Text → Action Tables (List RoundRow)
query_by_check_range_with_observer check observer from to =
    query (λ s. rounds_between check observer from to s.rounds)

-- `list_distinct_check_observer_pairs`
abbrev pub is_pair : ℕ → ℕ → ℕ × ℕ → Bool
is_pair check observer p = p.0 == check && p.1 == observer

unfoldable pub distinct_pairs : List RoundRow → List (ℕ × ℕ)
distinct_pairs [] = []
distinct_pairs (r ∷ rs) =
    let rest = distinct_pairs rs in
    if any (is_pair r.check_internal_id r.observer_internal_id) rest
    then rest
    else (r.check_internal_id, r.observer_internal_id) ∷ rest

abbrev pub list_distinct_check_observer_pairs : Action Tables (List (ℕ × ℕ))
list_distinct_check_observer_pairs = query (λ s. distinct_pairs s.rounds)

-- The rollups of a check, an observer and a resolution.
abbrev pub is_of : ℕ → ℕ → ℕ → InsertRollup → Bool
is_of check observer resolution row =
    row.check_internal_id == check
    && row.observer_internal_id == observer
    && row.resolution_seconds == resolution

-- The columns of the conflict target.
abbrev pub has_key : ℕ → ℕ → ℕ → Text → InsertRollup → Bool
has_key check observer resolution start row =
    is_of check observer resolution row && text_eq row.bucket_start start

abbrev pub same_key : InsertRollup → InsertRollup → Bool
same_key row =
    has_key row.check_internal_id row.observer_internal_id row.resolution_seconds row.bucket_start

-- The row with the columns of a `DO UPDATE SET`.
abbrev pub update_rollup : InsertRollup → InsertRollup → InsertRollup
update_rollup excluded row = record row {
  scheduled_rounds = excluded.scheduled_rounds;
  completed_rounds = excluded.completed_rounds;
  partial_rounds = excluded.partial_rounds;
  configured_sample_slots = excluded.configured_sample_slots;
  attempted_samples = excluded.attempted_samples;
  latency_bearing_samples = excluded.latency_bearing_samples;
  healthy_samples = excluded.healthy_samples;
  unhealthy_samples = excluded.unhealthy_samples;
  measurement_loss_samples = excluded.measurement_loss_samples;
  outcome_counts = excluded.outcome_counts;
  min_latency_ns = excluded.min_latency_ns;
  max_latency_ns = excluded.max_latency_ns;
  sum_latency_ns = excluded.sum_latency_ns;
  histogram_version = excluded.histogram_version;
  histogram_blob = excluded.histogram_blob;
  no_data_counts = excluded.no_data_counts;
}

unfoldable pub upsert_rollup : InsertRollup → List InsertRollup → List InsertRollup
upsert_rollup row [] = row ∷ []
upsert_rollup row (r ∷ rs) =
    let rest = upsert_rollup row rs in if same_key row r then update_rollup row r ∷ rs else r ∷ rest

abbrev pub upsert : InsertRollup → Action Tables (Unit {0})
upsert row = statement (λ s. (tt, record s { rollups = upsert_rollup row s.rollups }))

-- `ORDER BY bucket_start DESC LIMIT 1`
abbrev pub later : Text → Option Text → Option Text
later start acc = some (map_or acc start (λ best. if text_le best start then start else best))

unfoldable pub latest_start : List InsertRollup → Option Text
latest_start [] = none
latest_start (r ∷ rs) = later r.bucket_start (latest_start rs)

abbrev pub get_latest_bucket_start : ℕ → ℕ → ℕ → Action Tables (Option Text)
get_latest_bucket_start check observer resolution =
    query (λ s. latest_start (filter (is_of check observer resolution) s.rollups))
