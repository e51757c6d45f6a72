-- ===== src/Rollups/Store/Laws.antt =====
-- The upsert of crates/kemuri-storage/src/repos/rollup_repo.rs as a map from keys to rows.
use kemuri.Base.{ℕ, ◌≡◌, ap, ◌∙◌, refl, arith, true, false, inl, inr, Bool-cases}
use kemuri.Base.{Option, some, List, [], ◌∷◌, find}
use kemuri.Base.Text.{Text, text_eq_iff, text_eq_refl}
use kemuri.Rollups.Aggregate.{InsertRollup}
use kemuri.Rollups.Store.{has_key, same_key, update_rollup, upsert_rollup}

-- The row under a key.
abbrev pub find_rollup : ℕ → ℕ → ℕ → Text → List InsertRollup → Option InsertRollup
find_rollup check observer resolution start rows =
    find (has_key check observer resolution start) rows

-- A row with the key of `row` becomes `row`.
update_rollup_same : (row r : InsertRollup) → same_key row r ≡ true → update_rollup row r ≡ row
update_rollup_same row r h = λ i. record row {
  check_internal_id = check i;
  observer_internal_id = observer i;
  resolution_seconds = resolution i;
  bucket_start = start i;
}
  where
    check : r.check_internal_id ≡ row.check_internal_id
    check = ground arith

    observer : r.observer_internal_id ≡ row.observer_internal_id
    observer = ground arith

    resolution : r.resolution_seconds ≡ row.resolution_seconds
    resolution = ground arith

    start : r.bucket_start ≡ row.bucket_start
    start = ground (arith, text_eq_iff r.bucket_start row.bucket_start)

-- The key of a row has that row after its upsert.
pub find-upsert_rollup :
    (row : InsertRollup) (rows : List InsertRollup)
    → find (same_key row) (upsert_rollup row rows) ≡ some row
unfolding upsert_rollup
find-upsert_rollup row [] =
    let own : same_key row row ≡ true = ground (arith, text_eq_refl row.bucket_start) in
    simp own refl
find-upsert_rollup row (r ∷ rs) = elim (Bool-cases (same_key row r)) [
  | inl h ↦ simp h (ap some (update_rollup_same row r h))
  | inr h ↦ simp h (find-upsert_rollup row rs)
]

-- No other key notices the upsert of a row.
pub find-upsert_rollup_other :
    (check observer resolution : ℕ) (start : Text) (row : InsertRollup) (rows : List InsertRollup)
    → has_key check observer resolution start row ≡ false
    → find_rollup check observer resolution start (upsert_rollup row rows)
      ≡ find_rollup check observer resolution start rows
unfolding upsert_rollup
find-upsert_rollup_other check observer resolution start row [] other = simp other refl
find-upsert_rollup_other check observer resolution start row (r ∷ rs) other =
    elim (Bool-cases (same_key row r)) [
      | inl h ↦
          let absent : has_key check observer resolution start r ≡ false =
            ap (has_key check observer resolution start) (update_rollup_same row r h) ∙ other in
          simp (h, absent) refl
      | inr h ↦ simp (h, find-upsert_rollup_other check observer resolution start row rs other) refl
    ]
