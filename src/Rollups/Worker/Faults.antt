-- ===== src/Rollups/Worker/Faults.antt =====
-- A call of `process_pair_resolution` of crates/kemuri-server/src/rollup_worker.rs in which
-- statements may fail.
use kemuri.Base.{ℕ, suc, ◌+◌, ◌≡◌, ◌⊎◌, inl, inr, ◌∙◌, refl, ap, arith, Bool, true, false}
use kemuri.Base.{List, [], ◌∷◌, length, take}
use kemuri.Base.Text.{Text}
use kemuri.Base.Float.{Float}
use kemuri.Base.Chrono.{Chrono}
use kemuri.Base.Action.{ok, err, Result, Store}
use kemuri.Rounds.{RoundRow}
use kemuri.Rollups.Aggregate.{Counts}
use kemuri.Rollups.Store.{Tables, upsert_rollup}
use kemuri.Rollups.Worker.{
  Buckets, push_rounds, upsert_buckets, process_rounds, process_pair_resolution,
}
use kemuri.Rollups.Worker.Cycle.{bucket_row, upsert_all}
use kemuri.Rollups.Worker.Laws.{rounds_read, buckets_read, process, written}

module _ (t : Chrono) (f : Float) (to_json : Counts → Text)
    (now check observer resolution : ℕ) where
  -- A run over the buckets `m`, from the tables `s`, has written the first `done` of them, and all of
  -- them where it returns.
  pub record Outcome (m : Buckets) (n : ℕ) (s : Tables) (r : Result ℕ × Store Tables) : Type 0 where
    pub done : ℕ
    pub tables : r.1.tables ≡ written t f to_json now check observer resolution (take done m) s
    pub returned : (r.0 ≡ err) ⊎ ((r.0 ≡ ok (n + length m)) × (done ≡ length m))

  Outcome-cons :
      (ts : ℕ) (rounds : List RoundRow) (m : Buckets) (n : ℕ) (s : Tables)
      (r : Result ℕ × Store Tables)
      → Outcome m
          (n + 1)
          (record s {
            rollups =
                upsert_rollup
                  (bucket_row t f to_json now check observer resolution ts rounds)
                  s.rollups;
          })
          r
      → Outcome ((ts, rounds) ∷ m) n s r
  unfolding upsert_all
  Outcome-cons ts rounds m n s r o = record {
    done = suc o.done;
    tables = o.tables;
    returned = elim o.returned [
      | inl e ↦ inl e
      | inr (e, d) ↦ inr (e ∙ ap ok (omega arith), ap suc d)
    ];
  }

  upsert_buckets-Outcome :
      (m : Buckets) (n : ℕ) (s : Tables) (fs : List Bool)
      → Outcome m n s (
          upsert_buckets t f to_json now check observer resolution m n
            (record { tables = s; faults = fs }))
  unfolding upsert_buckets upsert_all
  upsert_buckets-Outcome [] n s fs = record {
    done = 0;
    tables = refl;
    returned = inr (ap ok (omega arith), refl);
  }
  upsert_buckets-Outcome ((ts, rounds) ∷ m) n s (true ∷ fs) = record {
    done = 0;
    tables = refl;
    returned = inl refl;
  }
  upsert_buckets-Outcome ((ts, rounds) ∷ m) n s (false ∷ fs) = Outcome-cons ts rounds m n s _ (
      upsert_buckets-Outcome m (n + 1)
        (record s {
          rollups =
              upsert_rollup (bucket_row t f to_json now check observer resolution ts rounds)
                s.rollups;
        })
        fs)
  upsert_buckets-Outcome ((ts, rounds) ∷ m) n s [] = Outcome-cons ts rounds m n s _ (
      upsert_buckets-Outcome m (n + 1)
        (record s {
          rollups =
              upsert_rollup (bucket_row t f to_json now check observer resolution ts rounds)
                s.rollups;
        })
        [])

  process_rounds-Outcome :
      (rounds : List RoundRow) (s : Tables) (fs : List Bool)
      → Outcome (push_rounds t resolution rounds []) 0 s (
          process_rounds t f to_json now check observer resolution rounds
            (record { tables = s; faults = fs }))
  unfolding push_rounds upsert_all
  process_rounds-Outcome [] s fs = record { done = 0; tables = refl; returned = inr (refl, refl) }
  process_rounds-Outcome (r ∷ rounds) s fs =
      upsert_buckets-Outcome (push_rounds t resolution (r ∷ rounds) []) 0 s fs

  stopped :
      (m : Buckets) (s : Tables) (fs : List Bool)
      → Outcome m 0 s (err, record { tables = s; faults = fs })
  unfolding upsert_all
  stopped m s fs = record { done = 0; tables = refl; returned = inl refl }

  -- Whatever statements fail, a call has written the rollups of the first of the buckets it reads,
  -- each in full, and changed nothing else; it has written all of them where it returns, and it
  -- returns their number.
  pub process_pair_resolution-Outcome :
      (s : Tables) (fs : List Bool)
      → Outcome
          (buckets_read t f to_json now check observer resolution s)
          0
          s
          (process t f to_json now check observer resolution (record { tables = s; faults = fs }))
  unfolding process_pair_resolution
  process_pair_resolution-Outcome s [] =
      process_rounds-Outcome (rounds_read t f to_json now check observer resolution s) s []
  process_pair_resolution-Outcome s (true ∷ fs) = stopped _ s fs
  process_pair_resolution-Outcome s (false ∷ true ∷ fs) = stopped _ s fs
  process_pair_resolution-Outcome s (false ∷ []) =
      process_rounds-Outcome (rounds_read t f to_json now check observer resolution s) s []
  process_pair_resolution-Outcome s (false ∷ false ∷ fs) =
      process_rounds-Outcome (rounds_read t f to_json now check observer resolution s) s fs
