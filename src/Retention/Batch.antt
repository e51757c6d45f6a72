-- ===== src/Retention/Batch.antt =====
-- The batches of deletions that crates/kemuri-server/src/retention_worker.rs repeats.
use kemuri.Base.{ℕ, zero, suc, ◌≡◌, ◌≤◌, ◌<◌, ◌∙◌, refl, sym, ap, arith, Bool, true, false, not}
use kemuri.Base.{inl, inr, Bool-cases, List, [], ◌∷◌, length, any, filter, take, All, is_empty}
use kemuri.Base.Text.{Text, text_eq_iff, text_eq_refl}
use kemuri.Rollups.Aggregate.{InsertRollup}
use kemuri.Rollups.Store.{same_key, text_lt}
use kemuri.Alerts.Metric.{text_le}
use kemuri.Retention.Store.{delete_first, insert_rollup, sort_rollups, is_old_rollup, delete_oldest}
use kemuri.Retention.Loop.{others, Deletes, length-filter}

module _ {A : Type 0} where
  pub others-delete_first :
      (n : ℕ) (p : A → Bool) (xs : List A) → others p (delete_first n p xs) ≡ others p xs
  others-delete_first zero p xs = refl
  others-delete_first (suc n) p [] = refl
  others-delete_first (suc n) p (x ∷ xs) =
      ground (arith, others-delete_first n p xs, others-delete_first (suc n) p xs)

  length-delete_first :
      (n : ℕ) (p : A → Bool) (xs : List A) → length (delete_first n p xs) ≤ length xs
  length-delete_first zero p xs = omega arith
  length-delete_first (suc n) p [] = omega arith
  length-delete_first (suc n) p (x ∷ xs) =
      ground (arith, length-delete_first n p xs, length-delete_first (suc n) p xs)

  delete_first-shrinks :
      (n : ℕ) (p : A → Bool) (xs : List A)
      → any p xs ≡ true
      → length (delete_first (suc n) p xs) < length xs
  delete_first-shrinks n p [] h = ground (arith, h)
  delete_first-shrinks n p (x ∷ xs) h =
      ground (arith, h, length-delete_first n p xs, delete_first-shrinks n p xs)

  delete_first-idle :
      (n : ℕ) (p : A → Bool) (xs : List A) → any p xs ≡ false → delete_first n p xs ≡ xs
  delete_first-idle zero p xs h = refl
  delete_first-idle (suc n) p [] h = refl
  delete_first-idle (suc n) p (x ∷ xs) h = ground (arith, h, delete_first-idle (suc n) p xs)

  pub delete_first-Deletes : (n : ℕ) (p : A → Bool) → Deletes p (delete_first (suc n) p)
  delete_first-Deletes n p = record {
    others_kept = others-delete_first (suc n) p;
    shrinks = delete_first-shrinks n p;
    idle = delete_first-idle (suc n) p;
  }

  any-filter-none : (p : A → Bool) (xs : List A) → any p xs ≡ false → filter p xs ≡ []
  any-filter-none p [] h = refl
  any-filter-none p (x ∷ xs) h = ground (arith, h, any-filter-none p xs)

  -- Dropping rows of which none is other than `p`.
  others-drop :
      (p drop : A → Bool) (xs : List A)
      → ((x : A) → drop x ≡ true → p x ≡ true)
      → others p (others drop xs) ≡ others p xs
  others-drop p drop [] h = refl
  others-drop p drop (x ∷ xs) h = ground (arith, h x, others-drop p drop xs h)

  others-shrinks :
      (drop : A → Bool) (xs : List A) → any drop xs ≡ true → length (others drop xs) < length xs
  others-shrinks drop [] h = ground (arith, h)
  others-shrinks drop (x ∷ xs) h =
      ground (arith, h, others-shrinks drop xs, length-filter (λ x. not (drop x)) xs)

  All-filter :
      (Q : A → Type 0) (p : A → Bool) (xs : List A)
      → ((x : A) → p x ≡ true → Q x)
      → All Q (filter p xs)
  All-filter Q p [] h = tt
  All-filter Q p (x ∷ xs) h = elim (Bool-cases (p x)) [
    | inl e ↦ simp e (h x e, All-filter Q p xs h)
    | inr e ↦ simp e (All-filter Q p xs h)
  ]

  All-filter_of : (Q : A → Type 0) (p : A → Bool) (xs : List A) → All Q xs → All Q (filter p xs)
  All-filter_of Q p [] h = tt
  All-filter_of Q p (x ∷ xs) h = elim (Bool-cases (p x)) [
    | inl e ↦ simp e (h.0, All-filter_of Q p xs h.1)
    | inr e ↦ simp e (All-filter_of Q p xs h.1)
  ]

  All-take : (Q : A → Type 0) (n : ℕ) (xs : List A) → All Q xs → All Q (take n xs)
  All-take Q zero xs h = tt
  All-take Q (suc n) [] h = tt
  All-take Q (suc n) (x ∷ xs) h = (h.0, All-take Q n xs h.1)

  All-map : (P Q : A → Type 0) (xs : List A) → ((x : A) → P x → Q x) → All P xs → All Q xs
  All-map P Q [] f h = tt
  All-map P Q (x ∷ xs) f h = (f x h.0, All-map P Q xs f h.1)

  any-map :
      (f g : A → Bool) (xs : List A)
      → ((x : A) → f x ≡ true → g x ≡ true)
      → any f xs ≡ true
      → any g xs ≡ true
  any-map f g [] h e = e
  any-map f g (x ∷ xs) h e = ground (arith, e, h x, any-map f g xs h)

All-insert_rollup :
    (Q : InsertRollup → Type 0) (r : InsertRollup) (rs : List InsertRollup)
    → Q r
    → All Q rs
    → All Q (insert_rollup r rs)
All-insert_rollup Q r [] q h = (q, tt)
All-insert_rollup Q r (s ∷ rs) q h = elim (Bool-cases (text_le r.bucket_start s.bucket_start)) [
  | inl e ↦ simp e (q, h)
  | inr e ↦ simp e (h.0, All-insert_rollup Q r rs q h.1)
]

All-sort_rollups :
    (Q : InsertRollup → Type 0) (rs : List InsertRollup) → All Q rs → All Q (sort_rollups rs)
All-sort_rollups Q [] h = tt
All-sort_rollups Q (r ∷ rs) h =
    All-insert_rollup Q r (sort_rollups rs) h.0 (All-sort_rollups Q rs h.1)

insert_rollup_filled :
    (r : InsertRollup) (rs : List InsertRollup) → is_empty (insert_rollup r rs) ≡ false
insert_rollup_filled r [] = refl
insert_rollup_filled r (s ∷ rs) = ground arith

sort_filled :
    (p : InsertRollup → Bool) (rs : List InsertRollup)
    → any p rs ≡ true
    → is_empty (sort_rollups (filter p rs)) ≡ false
sort_filled p [] h = ground (arith, h)
sort_filled p (r ∷ rs) h =
    ground (arith, h, insert_rollup_filled r (sort_rollups (filter p rs)), sort_filled p rs)

-- The rows under the key of a row that is there.
rows_have : (rows : List InsertRollup) → All (λ c. any (λ x. same_key x c) rows ≡ true) rows
rows_have [] = tt
rows_have (r ∷ rows) = (
  ground (arith, text_eq_refl r.bucket_start),
  All-map _ _ rows (λ x e. ground (arith, e)) (rows_have rows),
)

module _ (resolution : ℕ) (before : Text) where
  is_old_same :
      (x s : InsertRollup)
      → same_key x s ≡ true
      → is_old_rollup resolution before s ≡ true
      → is_old_rollup resolution before x ≡ true
  is_old_same x s h e =
      let start : s.bucket_start ≡ x.bucket_start =
        ground (arith, h, text_eq_iff s.bucket_start x.bucket_start) in
      let old : text_lt x.bucket_start before ≡ true =
        ap (λ u. text_lt u before) (sym start) ∙ ground (arith, e) in
      ground (arith, h, e, old)

  any_selected_old :
      (x : InsertRollup) (selected : List InsertRollup)
      → All (λ s. is_old_rollup resolution before s ≡ true) selected
      → any (same_key x) selected ≡ true
      → is_old_rollup resolution before x ≡ true
  any_selected_old x [] a h = ground (arith, h)
  any_selected_old x (s ∷ selected) a h = elim (Bool-cases (same_key x s)) [
    | inl e ↦ is_old_same x s e a.0
    | inr e ↦ any_selected_old x selected a.1 (ground (arith, h, e))
  ]

  -- The selection of a batch of at least one row.
  abbrev selection : ℕ → List InsertRollup → List InsertRollup
  selection n rows = take (suc n) (sort_rollups (filter (is_old_rollup resolution before) rows))

  selection_old :
      (n : ℕ) (rows : List InsertRollup)
      → All (λ s. is_old_rollup resolution before s ≡ true) (selection n rows)
  selection_old n rows =
      All-take _ (suc n) _
        (All-sort_rollups _ _ (All-filter _ (is_old_rollup resolution before) rows (λ x e. e)))

  selection_there :
      (n : ℕ) (rows : List InsertRollup)
      → All (λ c. any (λ x. same_key x c) rows ≡ true) (selection n rows)
  selection_there n rows = All-take _ (suc n) _ (
      All-sort_rollups _ _
        (All-filter_of _ (is_old_rollup resolution before) rows (rows_have rows)))

  deletes_some :
      (n : ℕ) (rows sorted : List InsertRollup)
      → is_empty sorted ≡ false
      → All (λ c. any (λ x. same_key x c) rows ≡ true) (take (suc n) sorted)
      → any (λ x. any (same_key x) (take (suc n) sorted)) rows ≡ true
  deletes_some n rows [] e a = ground (arith, e)
  deletes_some n rows (c ∷ sorted) e a = any-map _ _ rows (λ x h. ground (arith, h)) a.0

  delete_oldest-shrinks :
      (n : ℕ) (rows : List InsertRollup)
      → any (is_old_rollup resolution before) rows ≡ true
      → length (delete_oldest resolution before (suc n) rows) < length rows
  delete_oldest-shrinks n rows h =
      others-shrinks (λ x. any (same_key x) (selection n rows)) rows
        (deletes_some n rows _ (sort_filled (is_old_rollup resolution before) rows h)
          (selection_there n rows))

  none_dropped : (rows : List InsertRollup) → others (λ x. any (same_key x) []) rows ≡ rows
  none_dropped [] = refl
  none_dropped (r ∷ rows) = ap (λ rs. r ∷ rs) (none_dropped rows)

  delete_oldest-idle :
      (n : ℕ) (rows : List InsertRollup)
      → any (is_old_rollup resolution before) rows ≡ false
      → delete_oldest resolution before (suc n) rows ≡ rows
  delete_oldest-idle n rows h =
      ap (λ old. others (λ x. any (same_key x) (take (suc n) (sort_rollups old))) rows)
        (any-filter-none (is_old_rollup resolution before) rows h)
      ∙ none_dropped rows

  pub delete_oldest-Deletes :
      (n : ℕ) → Deletes (is_old_rollup resolution before) (delete_oldest resolution before (suc n))
  delete_oldest-Deletes n = record {
    others_kept = λ rows.
        others-drop (is_old_rollup resolution before) (λ x. any (same_key x) (selection n rows))
          rows (λ x h. any_selected_old x (selection n rows) (selection_old n rows) h);
    shrinks = delete_oldest-shrinks n;
    idle = delete_oldest-idle n;
  }
