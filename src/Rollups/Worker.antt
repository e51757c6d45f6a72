-- ===== src/Rollups/Worker.antt =====
-- `run_cycle` of crates/kemuri-server/src/rollup_worker.rs. Instants are not before the epoch, and
-- the subtraction of the lookback stops there.
pub mod Buckets
pub mod Cycle
pub mod Laws
pub mod Lost
pub mod Faults
use kemuri.Base.{ℕ, ◌+◌, ◌-◌, ◌*◌, ◌/◌, if◌then◌else◌, ltb, leb, ◌==◌, is_empty}
use kemuri.Base.{Option, none, some, unwrap_or, List, [], ◌∷◌, ◌++◌, map}
use kemuri.Base.Text.{Text, codes}
use kemuri.Base.Float.{Float}
use kemuri.Base.Chrono.{Chrono}
use kemuri.Base.Action.{Action, return, ◌>>=◌, ◌>>◌}
use kemuri.Rounds.{RoundRow}
use kemuri.Rollups.Aggregate.{Counts, aggregate_bucket}
use kemuri.Rollups.Store.{Tables, upsert, get_latest_bucket_start}
use kemuri.Rollups.Store.{query_by_check_range_with_observer, list_distinct_check_observer_pairs}

abbrev pub resolution_5m : ℕ
resolution_5m = 300

abbrev pub resolution_1h : ℕ
resolution_1h = 3600

abbrev pub batch_size : ℕ
batch_size = 100

abbrev pub lookback_buckets : ℕ
lookback_buckets = 2

-- `timestamp()` of an instant, and the start of its bucket.
abbrev pub timestamp : ℕ → ℕ
timestamp instant = instant / 1_000_000_000

abbrev pub bucket_ts : ℕ → ℕ → ℕ
bucket_ts resolution instant = timestamp instant / resolution * resolution

-- A BTreeMap of rounds, in the order of its keys.
abbrev pub Buckets : Type 0
Buckets = List (ℕ × List RoundRow)

-- `buckets.entry(ts).or_default().push(round)`
unfoldable pub push_round : ℕ → RoundRow → Buckets → Buckets
push_round ts r [] = (ts, r ∷ []) ∷ []
push_round ts r ((k, rs) ∷ m) =
    let rest = push_round ts r m in
    if k == ts
    then (k, rs ++ (r ∷ [])) ∷ m
    else if ltb ts k
    then (ts, r ∷ []) ∷ (k, rs) ∷ m
    else (k, rs) ∷ rest

module _ (t : Chrono) where
  -- `unwrap_or_else` reads the clock, which here is the instant of the turn.
  abbrev pub format_utc_timestamp : ℕ → ℕ → Text
  format_utc_timestamp now ts = t.to_rfc3339_secs (unwrap_or (t.from_timestamp ts) now)

  abbrev pub start_from : ℕ → ℕ → Option ℕ → Text
  start_from now resolution none = codes "1970-01-01T00:00:00Z"
  start_from now resolution (some wm) =
      format_utc_timestamp now (timestamp wm - resolution * lookback_buckets)

  abbrev pub compute_from : ℕ → Option Text → ℕ → Text
  compute_from now none resolution = start_from now resolution none
  compute_from now (some wm) resolution = start_from now resolution (t.parse_rfc3339 wm)

  abbrev pub push_parsed : ℕ → RoundRow → Option ℕ → Buckets → Buckets
  push_parsed resolution r none m = m
  push_parsed resolution r (some instant) m = push_round (bucket_ts resolution instant) r m

  unfoldable pub push_rounds : ℕ → List RoundRow → Buckets → Buckets
  push_rounds resolution [] m = m
  push_rounds resolution (r ∷ rs) m =
      push_rounds resolution rs (push_parsed resolution r (t.parse_rfc3339 r.scheduled_at) m)

  module _ (f : Float) (to_json : Counts → Text) (now check observer resolution : ℕ) where
    -- The loop over the buckets; `n` is `processed`.
    unfoldable pub upsert_buckets : Buckets → ℕ → Action Tables ℕ
    upsert_buckets [] n = return n
    upsert_buckets ((ts, rounds) ∷ m) n =
        upsert (
          aggregate_bucket f to_json check observer resolution (format_utc_timestamp now ts) rounds)
        >> upsert_buckets m (n + 1)

    abbrev pub process_rounds : List RoundRow → Action Tables ℕ
    process_rounds rounds =
        if is_empty rounds then return 0 else upsert_buckets (push_rounds resolution rounds []) 0

    unfoldable pub process_pair_resolution : Action Tables ℕ
    process_pair_resolution = do
      watermark ← get_latest_bucket_start check observer resolution
      rounds ←
          query_by_check_range_with_observer check observer (compute_from now watermark resolution)
            (format_utc_timestamp now (timestamp now / resolution * resolution))
      process_rounds rounds

  -- The loops over the pairs and the resolutions, as the one over `jobs`; `now k` is the instant
  -- that the clock shows to the call with `k` calls behind it.
  module _ (f : Float) (to_json : Counts → Text) (now : ℕ → ℕ) where
    unfoldable pub run_jobs : ℕ → List (ℕ × ℕ × ℕ) → ℕ → Action Tables ℕ
    run_jobs k [] total_processed = return total_processed
    run_jobs k ((check, observer, resolution) ∷ jobs) total_processed = do
      processed ← process_pair_resolution f to_json (now k) check observer resolution
      let total = total_processed + processed
      if leb batch_size total then return total else run_jobs (k + 1) jobs total

    abbrev pub jobs_of : List ℕ → List (ℕ × ℕ) → List (ℕ × ℕ × ℕ)
    jobs_of resolutions [] = []
    jobs_of resolutions ((check, observer) ∷ pairs) =
        map (λ resolution. (check, observer, resolution)) resolutions ++ jobs_of resolutions pairs

    unfoldable pub run_cycle : Action Tables ℕ
    run_cycle = do
      pairs ← list_distinct_check_observer_pairs
      run_jobs 0 (jobs_of (resolution_5m ∷ resolution_1h ∷ []) pairs) 0
