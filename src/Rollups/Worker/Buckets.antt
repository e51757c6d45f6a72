-- ===== src/Rollups/Worker/Buckets.antt =====
-- How `process_pair_resolution` of crates/kemuri-server/src/rollup_worker.rs groups rounds.
use kemuri.Base.{ℕ, ◌≡◌, ◌<◌, ◌∙◌, refl, sym, ap, arith, Bool, true, false, if◌then◌else◌, ◌==◌}
use kemuri.Base.{inl, inr, Option-cases}
use kemuri.Base.{some, List, [], ◌∷◌, ◌++◌, All, filter, map_or, is_empty}
use kemuri.Base.Text.{Text}
use kemuri.Base.Chrono.{Chrono}
use kemuri.Rounds.{RoundRow}
use kemuri.Rollups.Worker.{Buckets, bucket_ts, push_round, push_rounds}
use mathlib.Core.List.{append-nil, append_assoc}

-- The rounds of a bucket, none where it is missing.
abbrev pub rounds_of : ℕ → Buckets → List RoundRow
rounds_of k [] = []
rounds_of k ((ts, rs) ∷ m) = let rest = rounds_of k m in if ts == k then rs else rest

abbrev pub Ascending : Buckets → Type 0
Ascending [] = Unit
Ascending ((ts, rs) ∷ m) = All (λ e. ts < e.0) m × Ascending m

rounds_of-above : (k : ℕ) (m : Buckets) → All (λ e. k < e.0) m → rounds_of k m ≡ []
rounds_of-above k [] a = refl
rounds_of-above k ((ts, rs) ∷ m) a = ground (arith, rounds_of-above k m a.1)

above_trans : (k ts : ℕ) (m : Buckets) → k < ts → All (λ e. ts < e.0) m → All (λ e. k < e.0) m
above_trans k ts [] h a = tt
above_trans k ts (e ∷ m) h a = (omega (arith, a.0), above_trans k ts m h a.1)

push_round-above :
    (lo ts : ℕ) (r : RoundRow) (m : Buckets)
    → lo < ts
    → All (λ e. lo < e.0) m
    → All (λ e. lo < e.0) (push_round ts r m)
unfolding push_round
push_round-above lo ts r [] h a = (h, tt)
push_round-above lo ts r ((k, rs) ∷ m) h a = ground (arith, push_round-above lo ts r m h a.1)

push_round-Ascending :
    (ts : ℕ) (r : RoundRow) (m : Buckets) → Ascending m → Ascending (push_round ts r m)
unfolding push_round
push_round-Ascending ts r [] a = (tt, tt)
push_round-Ascending ts r ((k, rs) ∷ m) a =
    ground (arith, push_round-above k ts r m, push_round-Ascending ts r m a.1, above_trans ts k m)

rounds_of-push_round :
    (k ts : ℕ) (r : RoundRow) (m : Buckets)
    → Ascending m
    → rounds_of k (push_round ts r m) ≡ rounds_of k m ++ (if ts == k then r ∷ [] else [])
unfolding push_round
rounds_of-push_round k ts r [] a = ground arith
rounds_of-push_round k ts r ((k', rs) ∷ m) a = ground (
  arith,
  rounds_of-push_round k ts r m a.1,
  rounds_of-above ts m,
  above_trans ts k' m,
  append-nil (rounds_of k m),
  append-nil rs,
)

-- The buckets of `push_rounds` have rounds, and keys that `P` holds of.
abbrev pub Filled : (P : ℕ → Type 0) → Buckets → Type 0
Filled P m = All (λ e. (is_empty e.1 ≡ false) × P e.0) m

is_empty-push : (rs : List RoundRow) (r : RoundRow) → is_empty (rs ++ (r ∷ [])) ≡ false
is_empty-push [] r = refl
is_empty-push (x ∷ rs) r = refl

push_round-Filled :
    (P : ℕ → Type 0) (ts : ℕ) (r : RoundRow) (m : Buckets)
    → P ts
    → Filled P m
    → Filled P (push_round ts r m)
unfolding push_round
push_round-Filled P ts r [] p a = ((refl, p), tt)
push_round-Filled P ts r ((k, rs) ∷ m) p a =
    ground (arith, is_empty-push rs r, push_round-Filled P ts r m p a.1)

-- What the loop over the rounds keeps of the buckets.
abbrev pub IsGrouped : (ℕ → Type 0) → Buckets → Type 0
IsGrouped P m = Ascending m × Filled P m

append_if :
    (b : Bool) (xs : List RoundRow) (r : RoundRow) (ys : List RoundRow)
    → (xs ++ (if b then r ∷ [] else [])) ++ ys ≡ xs ++ (if b then r ∷ ys else ys)
append_if true xs r ys = append_assoc xs (r ∷ []) ys
append_if false xs r ys = ap (λ t. t ++ ys) (append-nil xs)

module _ (t : Chrono) (resolution : ℕ) where
  -- Whether a round is of the bucket `k`.
  abbrev pub in_bucket : ℕ → RoundRow → Bool
  in_bucket k r =
      map_or (t.parse_rfc3339 r.scheduled_at) false (λ instant. bucket_ts resolution instant == k)

  -- A property of the buckets of all instants that can be read.
  abbrev pub OfParsed : (ℕ → Type 0) → Type 0
  OfParsed P =
      (s : Text) (instant : ℕ) → t.parse_rfc3339 s ≡ some instant → P (bucket_ts resolution instant)

  pub push_rounds-IsGrouped :
      (P : ℕ → Type 0) (rounds : List RoundRow) (m : Buckets)
      → OfParsed P
      → IsGrouped P m
      → IsGrouped P (push_rounds t resolution rounds m)
  unfolding push_rounds
  push_rounds-IsGrouped P [] m p g = g
  push_rounds-IsGrouped P (r ∷ rs) m p g = elim (Option-cases (t.parse_rfc3339 r.scheduled_at)) [
    | inl e ↦ simp e (push_rounds-IsGrouped P rs m p g)
    | inr (instant, e) ↦
        let ts = bucket_ts resolution instant in
        simp e (
          push_rounds-IsGrouped P rs (push_round ts r m) p (
            push_round-Ascending ts r m g.0,
            push_round-Filled P ts r m (p r.scheduled_at instant e) g.1,
          ))
  ]

  pub rounds_of-push_rounds :
      (k : ℕ) (rounds : List RoundRow) (m : Buckets)
      → Ascending m
      → rounds_of k (push_rounds t resolution rounds m)
        ≡ rounds_of k m ++ filter (in_bucket k) rounds
  unfolding push_rounds
  rounds_of-push_rounds k [] m a = sym (append-nil (rounds_of k m))
  rounds_of-push_rounds k (r ∷ rs) m a = elim (Option-cases (t.parse_rfc3339 r.scheduled_at)) [
    | inl e ↦ simp e (rounds_of-push_rounds k rs m a)
    | inr (instant, e) ↦
        let ts = bucket_ts resolution instant in
        simp e (
          rounds_of-push_rounds k rs (push_round ts r m) (push_round-Ascending ts r m a)
          ∙ ap (λ b. b ++ filter (in_bucket k) rs) (rounds_of-push_round k ts r m a)
          ∙ append_if (ts == k) (rounds_of k m) r (filter (in_bucket k) rs))
  ]
