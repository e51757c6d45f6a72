-- ===== src/Rollups/Worker/Cycle.antt =====
-- What a call of `process_pair_resolution` of crates/kemuri-server/src/rollup_worker.rs leaves in
-- the table of rollups.
use kemuri.Base.{ℕ, ◌+◌, ◌*◌, ◌≡◌, ◌<◌, ◌∙◌, refl, sym, ap, arith, false, ◌&&◌, ◌==◌, ==_iff}
use kemuri.Base.{inl, inr, Bool-cases, some, unwrap_or, List, [], ◌∷◌, length, All, is_empty}
use kemuri.Base.Text.{Text, text_eq, text_eq_iff}
use kemuri.Base.Float.{Float}
use kemuri.Base.Chrono.{Chrono, Stamps, HasInstant, nanos_per_sec}
use kemuri.Base.Action.{ok, steady}
use kemuri.Rounds.{RoundRow}
use kemuri.Rollups.Aggregate.{InsertRollup, Counts, aggregate_bucket}
use kemuri.Rollups.Store.{Tables, has_key, upsert_rollup}
use kemuri.Rollups.Store.Laws.{find_rollup, find-upsert_rollup, find-upsert_rollup_other}
use kemuri.Rollups.Worker.{Buckets, format_utc_timestamp, upsert_buckets}
use kemuri.Rollups.Worker.Buckets.{rounds_of, Filled, IsGrouped}

module _ (t : Chrono) (f : Float) (to_json : Counts → Text)
    (now check observer resolution : ℕ) where
  -- The row of a bucket.
  abbrev pub bucket_row : ℕ → List RoundRow → InsertRollup
  bucket_row ts rounds =
      aggregate_bucket f to_json check observer resolution (format_utc_timestamp t now ts) rounds

  unfoldable pub upsert_all : Buckets → List InsertRollup → List InsertRollup
  upsert_all [] rows = rows
  upsert_all ((ts, rounds) ∷ m) rows = upsert_all m (upsert_rollup (bucket_row ts rounds) rows)

  pub upsert_buckets_steady :
      (m : Buckets) (n : ℕ) (s : Tables)
      → upsert_buckets t f to_json now check observer resolution m n (steady s)
        ≡ (ok (n + length m), steady (record s { rollups = upsert_all m s.rollups }))
  unfolding upsert_buckets upsert_all
  upsert_buckets_steady [] n s = ap (λ k. (ok k, steady s)) (omega arith)
  upsert_buckets_steady ((ts, rounds) ∷ m) n s =
      upsert_buckets_steady m (n + 1)
        (record s { rollups = upsert_rollup (bucket_row ts rounds) s.rollups })
      ∙ ap (λ k. (ok k, steady (record s { rollups = upsert_all ((ts, rounds) ∷ m) s.rollups })))
          (omega arith)

  -- A key that no bucket of the list has.
  abbrev pub Apart : ℕ → ℕ → ℕ → Text → Buckets → Type 0
  Apart check' observer' resolution' start m =
      All
        (λ e.
          (check == check'
            && observer == observer'
            && resolution == resolution'
            && text_eq (format_utc_timestamp t now e.0) start)
          ≡ false)
        m

  apart_row :
      (check' observer' resolution' ts : ℕ) (start : Text) (rounds : List RoundRow)
      → (check == check'
          && observer == observer'
          && resolution == resolution'
          && text_eq (format_utc_timestamp t now ts) start)
        ≡ false
      → has_key check' observer' resolution' start (bucket_row ts rounds) ≡ false
  unfolding aggregate_bucket
  apart_row check' observer' resolution' ts start rounds h = ground (arith, h)

  pub find-upsert_all_other :
      (check' observer' resolution' : ℕ) (start : Text) (m : Buckets) (rows : List InsertRollup)
      → Apart check' observer' resolution' start m
      → find_rollup check' observer' resolution' start (upsert_all m rows)
        ≡ find_rollup check' observer' resolution' start rows
  unfolding upsert_all
  find-upsert_all_other check' observer' resolution' start [] rows a = refl
  find-upsert_all_other check' observer' resolution' start ((ts, rounds) ∷ m) rows a =
      find-upsert_all_other check' observer' resolution' start m
        (upsert_rollup (bucket_row ts rounds) rows) a.1
      ∙ find-upsert_rollup_other check' observer' resolution' start (bucket_row ts rounds) rows
          (apart_row check' observer' resolution' ts start rounds a.0)

  module _ (stamps : Stamps t) where
    format_utc_timestamp-apart :
        (a b : ℕ)
        → HasInstant t a
        → HasInstant t b
        → a < b
        → text_eq (format_utc_timestamp t now b) (format_utc_timestamp t now a) ≡ false
    format_utc_timestamp-apart a b p q h =
        let secs = t.to_rfc3339_secs in
        let same = text_eq_iff (secs (b * nanos_per_sec)) (secs (a * nanos_per_sec)) in
        ap (λ o. text_eq (secs (unwrap_or o now)) (format_utc_timestamp t now a)) q
        ∙ ap (λ o. text_eq (secs (b * nanos_per_sec)) (secs (unwrap_or o now))) p
        ∙ ground (arith, stamps.injective b a q p, same)

    above-Apart :
        (k : ℕ) (m : Buckets)
        → HasInstant t k
        → Filled (HasInstant t) m
        → All (λ e. k < e.0) m
        → Apart check observer resolution (format_utc_timestamp t now k) m
    above-Apart k [] p q a = tt
    above-Apart k ((ts, rounds) ∷ m) p q a =
        (ground (arith, format_utc_timestamp-apart k ts p q.0.1 a.0), above-Apart k m p q.1 a.1)

    find-bucket_row :
        (k : ℕ) (rounds : List RoundRow) (rows : List InsertRollup)
        → find_rollup check observer resolution
            (format_utc_timestamp t now k)
            (upsert_rollup (bucket_row k rounds) rows)
          ≡ some (bucket_row k rounds)
    unfolding aggregate_bucket
    find-bucket_row k rounds rows = find-upsert_rollup (bucket_row k rounds) rows

    find-first :
        (ts : ℕ) (rounds : List RoundRow) (m : Buckets) (rows : List InsertRollup)
        → IsGrouped (HasInstant t) ((ts, rounds) ∷ m)
        → find_rollup check observer resolution
            (format_utc_timestamp t now ts)
            (upsert_all m (upsert_rollup (bucket_row ts rounds) rows))
          ≡ some (bucket_row ts rounds)
    find-first ts rounds m rows g =
        find-upsert_all_other check observer resolution (format_utc_timestamp t now ts) m
          (upsert_rollup (bucket_row ts rounds) rows) (above-Apart ts m g.1.0.1 g.1.1 g.0.0)
        ∙ find-bucket_row ts rounds rows

    pub find-upsert_all :
        (k : ℕ) (m : Buckets) (rows : List InsertRollup)
        → IsGrouped (HasInstant t) m
        → is_empty (rounds_of k m) ≡ false
        → find_rollup check observer resolution (format_utc_timestamp t now k) (upsert_all m rows)
          ≡ some (bucket_row k (rounds_of k m))
    unfolding upsert_all
    find-upsert_all k [] rows g h = ground (arith, h)
    find-upsert_all k ((ts, rounds) ∷ m) rows g h = elim (Bool-cases (ts == k)) [
      | inl e ↦
          let same : ts ≡ k = (==_iff ts k).0 e in
          let rows' = upsert_all m (upsert_rollup (bucket_row ts rounds) rows) in
          simp e (
            ap (λ j. find_rollup check observer resolution (format_utc_timestamp t now j) rows')
              (sym same)
            ∙ find-first ts rounds m rows g
            ∙ ap (λ j. some (bucket_row j rounds)) same)
      | inr e ↦
          let there : is_empty (rounds_of k m) ≡ false = ground (arith, h, e) in
          simp e
            (find-upsert_all k m (upsert_rollup (bucket_row ts rounds) rows) (g.0.1, g.1.1) there)
    ]
