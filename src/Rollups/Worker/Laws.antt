-- ===== src/Rollups/Worker/Laws.antt =====
-- What a call of `process_pair_resolution` of crates/kemuri-server/src/rollup_worker.rs does to the
-- table of rollups: in full, and where a statement of it fails.
use kemuri.Base.{ℕ, ◌*◌, ◌/◌, ◌≡◌, ◌≤◌, ◌∙◌, refl, ap, arith, false, ◌&&◌, ◌==◌}
use kemuri.Base.{some, List, [], ◌∷◌, length, is_empty, filter}
use kemuri.Base.Text.{Text}
use kemuri.Base.Float.{Float}
use kemuri.Base.Chrono.{Chrono, Stamps, HasInstant}
use kemuri.Base.Action.{ok, Action, steady}
use kemuri.Rounds.{RoundRow}
use kemuri.Rollups.Aggregate.{Counts}
use kemuri.Rollups.Store.{Tables, is_of, latest_start, rounds_between}
use kemuri.Rollups.Store.Laws.{find_rollup}
use kemuri.Rollups.Worker.{
  Buckets, timestamp, bucket_ts, compute_from, format_utc_timestamp, push_rounds, process_rounds,
  process_pair_resolution,
}
use kemuri.Rollups.Worker.Buckets.{
  IsGrouped, in_bucket, push_rounds-IsGrouped, rounds_of-push_rounds,
}
use kemuri.Rollups.Worker.Cycle.{
  bucket_row, upsert_all, upsert_buckets_steady, Apart, find-upsert_all, find-upsert_all_other,
}
use native.Mathlib.Nat.{div-mul-le_self}

bucket_ts-le : (resolution instant : ℕ) → bucket_ts resolution instant ≤ timestamp instant
bucket_ts-le resolution instant = div-mul-le_self (timestamp instant) resolution

module _ (t : Chrono) (f : Float) (to_json : Counts → Text)
    (now check observer resolution : ℕ) where
  -- The rounds that a call reads.
  abbrev pub rounds_read : Tables → List RoundRow
  rounds_read s =
      rounds_between check observer
        (compute_from t now (latest_start (filter (is_of check observer resolution) s.rollups))
          resolution)
        (format_utc_timestamp t now (timestamp now / resolution * resolution)) s.rounds

  abbrev pub buckets_read : Tables → Buckets
  buckets_read s = push_rounds t resolution (rounds_read s) []

  abbrev pub process : Action Tables ℕ
  process = process_pair_resolution t f to_json now check observer resolution

  abbrev pub written : Buckets → Tables → Tables
  written m s = record s {
    rollups = upsert_all t f to_json now check observer resolution m s.rollups;
  }

  process_rounds_steady :
      (rounds : List RoundRow) (s : Tables)
      → let m = push_rounds t resolution rounds [] in
        process_rounds t f to_json now check observer resolution rounds (steady s)
        ≡ (ok (length m), steady (written m s))
  unfolding push_rounds upsert_all
  process_rounds_steady [] s = refl
  process_rounds_steady (r ∷ rounds) s =
      upsert_buckets_steady t f to_json now check observer resolution
        (push_rounds t resolution (r ∷ rounds) []) 0 s
      ∙ ap (λ k. (ok k, steady (written (push_rounds t resolution (r ∷ rounds) []) s)))
          (omega arith)

  process_steady :
      (s : Tables)
      → process (steady s) ≡ (ok (length (buckets_read s)), steady (written (buckets_read s) s))
  unfolding process_pair_resolution
  process_steady s = process_rounds_steady (rounds_read s) s

  -- The columns of a key that are not the start of a bucket.
  process-untouched :
      (check' observer' resolution' : ℕ) (start : Text) (m : Buckets)
      → (check == check' && observer == observer' && resolution == resolution') ≡ false
      → Apart t f to_json now check observer resolution check' observer' resolution' start m
  process-untouched check' observer' resolution' start [] h = tt
  process-untouched check' observer' resolution' start ((ts, rs) ∷ m) h =
      (ground (arith, h), process-untouched check' observer' resolution' start m h)

  pub rollups-process :
      (s : Tables)
      → (process (steady s)).1.tables.rollups
        ≡ upsert_all t f to_json now check observer resolution (buckets_read s) s.rollups
  rollups-process s = ap (λ r. r.1.tables.rollups) (process_steady s)

  buckets_read-IsGrouped : (s : Tables) → Stamps t → IsGrouped (HasInstant t) (buckets_read s)
  buckets_read-IsGrouped s stamps =
      push_rounds-IsGrouped t resolution (HasInstant t) (rounds_read s) []
        (λ text instant e.
          stamps.in_range text instant (bucket_ts resolution instant) e
            (bucket_ts-le resolution instant))
        (tt, tt)

  -- Where no statement fails, a call returns the number of buckets it has read, and the rollup of a
  -- bucket with rounds is then the aggregate of all rounds read whose instant is in the bucket, in
  -- their order. Whole seconds are printed apart, and what is read back is in the clock's range.
  pub process_pair_resolution_lem :
      (s : Tables) (k : ℕ)
      → Stamps t
      → is_empty (filter (in_bucket t resolution k) (rounds_read s)) ≡ false
      → let (result, after) = process (steady s) in
        (result ≡ ok (length (buckets_read s)))
        × (find_rollup check observer resolution (format_utc_timestamp t now k) after.tables.rollups
            ≡ some (
                bucket_row t f to_json now check observer resolution k
                  (filter (in_bucket t resolution k) (rounds_read s))))
  process_pair_resolution_lem s k stamps h =
      let done = process_steady s in
      let same = rounds_of-push_rounds t resolution k (rounds_read s) [] tt in
      let start = format_utc_timestamp t now k in
      (
        ap (λ r. r.0) done,
        ap (λ r. find_rollup check observer resolution start r.1.tables.rollups) done
            ∙ find-upsert_all t f to_json now check observer resolution stamps k (buckets_read s)
                s.rollups (buckets_read-IsGrouped s stamps) (ap is_empty same ∙ h)
            ∙ ap (λ rs. some (bucket_row t f to_json now check observer resolution k rs)) same,
      )

  -- A call without failures leaves the rollups of other checks, observers and resolutions as they
  -- are.
  pub process_pair_resolution_other :
      (s : Tables) (check' observer' resolution' : ℕ) (start : Text)
      → (check == check' && observer == observer' && resolution == resolution') ≡ false
      → find_rollup check' observer' resolution' start (process (steady s)).1.tables.rollups
        ≡ find_rollup check' observer' resolution' start s.rollups
  process_pair_resolution_other s check' observer' resolution' start h =
      ap (λ r. find_rollup check' observer' resolution' start r.1.tables.rollups) (process_steady s)
      ∙ find-upsert_all_other t f to_json now check observer resolution check' observer' resolution'
          start (buckets_read s) s.rollups
          (process-untouched check' observer' resolution' start (buckets_read s) h)
