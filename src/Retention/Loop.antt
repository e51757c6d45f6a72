-- ===== src/Retention/Loop.antt =====
-- The loops around a batch of deletions, in crates/kemuri-server/src/retention_worker.rs: they end,
-- and then nothing is left to delete.
use kemuri.Base.{
  ℕ, zero, suc, ◌+◌, ◌-◌, ◌≡◌, ◌≤◌, ◌<◌, ◌∙◌, refl, sym, ap, arith, Bool, true, false, not, ◌==◌,
}
use kemuri.Base.{inl, inr, Bool-cases, List, [], ◌∷◌, length, any, filter, if◌then◌else◌}
use kemuri.Base.Action.{ok, Action, Store, return, continue_with, steady}
use kemuri.Retention.Store.{Tables}
use kemuri.Retention.Worker.{delete_loop}

module _ {A : Type 0} where
  abbrev pub others : (A → Bool) → List A → List A
  others p = filter (λ x. not (p x))

  pub length-filter : (p : A → Bool) (xs : List A) → length (filter p xs) ≤ length xs
  length-filter p [] = omega arith
  length-filter p (x ∷ xs) = ground (arith, length-filter p xs)

  pub others_all : (p : A → Bool) (xs : List A) → any p xs ≡ false → others p xs ≡ xs
  others_all p [] h = refl
  others_all p (x ∷ xs) h = ground (arith, h, others_all p xs)

  -- A batch for the rows that `p` holds of.
  pub record Deletes (p : A → Bool) (batch : List A → List A) : Type 0 where
    pub others_kept : (xs : List A) → others p (batch xs) ≡ others p xs
    pub shrinks : (xs : List A) → any p xs ≡ true → length (batch xs) < length xs
    pub idle : (xs : List A) → any p xs ≡ false → batch xs ≡ xs

  module _ (p : A → Bool) (batch : List A → List A) (deletes : Deletes p batch)
      (tables : List A → Tables) (act : Action Tables ℕ)
      (runs : (xs : List A)
        → act (steady (tables xs))
          ≡ (ok (length xs - length (batch xs)), steady (tables (batch xs)))) where
    abbrev next : ℕ → ℕ → ℕ → Action Tables ℕ
    next fuel total deleted =
        if deleted == 0 then return (total + deleted) else delete_loop act fuel (total + deleted)

    delete_loop-next :
        (fuel total n : ℕ) (xs ys : List A)
        → act (steady (tables xs)) ≡ (ok n, steady (tables ys))
        → delete_loop act (suc fuel) total (steady (tables xs))
          ≡ next fuel total n (steady (tables ys))
    unfolding delete_loop
    delete_loop-next fuel total n xs ys e = ap (continue_with (next fuel total)) e

    next_idle : (fuel total : ℕ) (db : Store Tables) → next fuel total 0 db ≡ (ok total, db)
    next_idle fuel total db = ap (λ k. (ok k, db)) (omega arith)

    next_busy :
        (fuel total n : ℕ) (db : Store Tables)
        → 0 < n
        → next fuel total n db ≡ delete_loop act fuel (total + n) db
    next_busy fuel total n db h = ground (arith, h)

    pub delete_loop_lem :
        (fuel total : ℕ) (xs : List A)
        → length xs < fuel
        → delete_loop act fuel total (steady (tables xs))
          ≡ (ok (total + (length xs - length (others p xs))), steady (tables (others p xs)))
    delete_loop_lem zero total xs h = ground (arith, h)
    delete_loop_lem (suc fuel) total xs h = elim (Bool-cases (any p xs)) [
      | inl e ↦
          let ys = batch xs in
          let less = deletes.shrinks xs e in
          let kept = deletes.others_kept xs in
          let few = length-filter (λ x. not (p x)) ys in
          delete_loop-next fuel total (length xs - length ys) xs ys (runs xs)
          ∙ next_busy fuel total (length xs - length ys) (steady (tables ys)) (omega (arith, less))
          ∙ delete_loop_lem fuel (total + (length xs - length ys)) ys (omega (arith, less, h))
          ∙ ap
              (λ zs. (
                ok (total + (length xs - length ys) + (length ys - length zs)),
                steady (tables zs),
              ))
              kept
          ∙ ap (λ k. (ok k, steady (tables (others p xs))))
              (omega (arith, less, few, ap (λ zs. length zs) kept))
      | inr e ↦
          let same = deletes.idle xs e in
          let all = others_all p xs e in
          let zero_left : length xs - length xs ≡ 0 = omega arith in
          delete_loop-next fuel total (length xs - length (batch xs)) xs (batch xs) (runs xs)
          ∙ ap (λ ys. next fuel total (length xs - length ys) (steady (tables ys))) same
          ∙ ap (λ k. next fuel total k (steady (tables xs))) zero_left
          ∙ next_idle fuel total (steady (tables xs))
          ∙ ap (λ k. (ok k, steady (tables xs))) (omega (arith, ap (λ zs. length zs) all))
          ∙ ap (λ ys. (ok (total + (length xs - length (others p xs))), steady (tables ys)))
              (sym all)
    ]
