-- ===== src/Core/Histogram/Quantile.antt =====
-- `quantile` of crates/kemuri-core/src/histogram.rs.
use kemuri.Base.{
  ℕ, suc, ◌+◌, ◌<◌, ◌≤◌, ◌≡◌, ◌↔◌, ◌⊎◌, inl, inr, refl, arith, Bool, true, false, ◌&&◌, Bool-cases,
}
use kemuri.Base.{List, [], ◌∷◌, length, leb, leb→le, ◌==◌, ◌∙◌, ◌≢◌, Option, none, some, take}
use native.Mathlib.Nat.{mod-eq_of_lt}
use kemuri.Base.Float.{Float}
use kemuri.Core.Histogram.{
  Histogram, u64_bound, bin_representative, find_bin, quantile_target, quantile, or_max,
}
use kemuri.Core.Histogram.Bins.{total}
use kemuri.Core.Histogram.Record.{Extremes, IsConsistent}

-- Bin `k` is the first up to which the bins hold `target` values, `acc` of them before the row.
abbrev pub Reaches : ℕ → ℕ → List ℕ → ℕ → Type 0
Reaches target acc bins k =
    (k < length bins)
    × (acc + total (take k bins) < target)
    × (target ≤ acc + total (take (suc k) bins))

find_bin_found :
    (f : Float) (target acc i b : ℕ) (bs : List ℕ)
    → acc + b < u64_bound
    → leb target (acc + b) ≡ true
    → find_bin f target acc i (b ∷ bs) ≡ some (bin_representative f i)
unfolding find_bin
find_bin_found f target acc i b bs h e = rw (mod-eq_of_lt h) (rw e refl)

find_bin_more :
    (f : Float) (target acc i b : ℕ) (bs : List ℕ)
    → acc + b < u64_bound
    → leb target (acc + b) ≡ false
    → find_bin f target acc i (b ∷ bs) ≡ find_bin f target (acc + b) (i + 1) bs
unfolding find_bin
find_bin_more f target acc i b bs h e = rw (mod-eq_of_lt h) (rw e refl)

find_bin_lem :
    (f : Float) (target acc i : ℕ) (bins : List ℕ)
    → acc + total bins < u64_bound
    → acc < target
    → target ≤ acc + total bins
    → (k : ℕ) × Reaches target acc bins k
      × (find_bin f target acc i bins ≡ some (bin_representative f (i + k)))
find_bin_lem f target acc i [] h p q = absurd (omega arith)
find_bin_lem f target acc i (b ∷ bs) h p q = elim (Bool-cases (leb target (acc + b))) [
  | inl found ↦
      let zero_right : i + 0 ≡ i = omega arith in
      (
        0,
        (omega arith, omega arith, omega (arith, leb→le target (acc + b) found)),
        rw zero_right (find_bin_found f target acc i b bs (omega arith) found),
      )
  | inr more ↦
      let past : acc + b < target = ground arith in
      let (k, (inside, below, above), e) =
        find_bin_lem f target (acc + b) (i + 1) bs (omega arith) past (omega arith) in
      let shift : i + 1 + k ≡ i + suc k = omega arith in
      (
        suc k,
        (omega arith, omega arith, omega arith),
        find_bin_more f target acc i b bs (omega arith) more ∙ rw (← shift) e,
      )
]

-- For a consistent histogram and `p` strictly between the ends 0 and 1, where the rounded target
-- lies between 1 and the count, the quantile is the representative of the first bin up to which the
-- bins hold that many values.
pub quantile-find :
    (f : Float) (h : Histogram) (p : f.F64)
    → IsConsistent h
    → f.le (f.literal 0 0) p ≡ true
    → f.le p (f.literal 1 0) ≡ true
    → f.le p (f.literal 0 0) ≡ false
    → f.le (f.literal 1 0) p ≡ false
    → 0 < quantile_target f p h.count
    → quantile_target f p h.count ≤ h.count
    → (k : ℕ) × Reaches (quantile_target f p h.count) 0 h.bins k
      × (quantile f h p ≡ some (bin_representative f k))
unfolding quantile
quantile-find f h p c a b d e lo hi =
    let (k, reaches, found) =
      find_bin_lem f (quantile_target f p h.count) 0 0 h.bins (omega (arith, c.counted, c.fits)) lo
        (omega (arith, c.counted)) in
    let some_count : (h.count == 0) ≡ false = ground arith in
    let start : 0 + k ≡ k = omega arith in
    (k, reaches, rw (some_count, a, b, d, e) (rw found (rw start refl)))

abbrev pub in_range : (f : Float) → f.F64 → Bool
in_range f p = f.le (f.literal 0 0) p && f.le p (f.literal 1 0)

Extremes-some : (n : ℕ) (lo hi : Option ℕ) → Extremes n lo hi → n ≢ 0 → (lo ≢ none) × (hi ≢ none)
Extremes-some n none none e h = absurd (h e)
Extremes-some n none (some b) e h = absurd e
Extremes-some n (some a) none e h = absurd e
Extremes-some n (some a) (some b) e h = (λ q. cc, λ q. cc)

quantile_some :
    (f : Float) (h : Histogram) (p : f.F64)
    → IsConsistent h
    → (h.count == 0) ≡ false
    → in_range f p ≡ true
    → quantile f h p ≢ none
unfolding quantile or_max
quantile_some f h p c n r =
    let (lo, hi) = Extremes-some h.count h.min_ns h.max_ns c.extremes (ground arith) in
    ground (arith, lo, hi)

-- For a consistent histogram there is no quantile exactly when nothing was recorded or `p` does not
-- lie between 0 and 1.
pub quantile-eq-none :
    (f : Float) (h : Histogram) (p : f.F64)
    → IsConsistent h
    → (quantile f h p ≡ none) ↔ ((h.count ≡ 0) ⊎ (in_range f p ≡ false))
unfolding quantile
quantile-eq-none f h p c = (to, from)
  where
    to : quantile f h p ≡ none → (h.count ≡ 0) ⊎ (in_range f p ≡ false)
    to e = elim (Bool-cases (h.count == 0)) [
      | inl z ↦ inl (ground arith)
      | inr n ↦ elim (Bool-cases (in_range f p)) [
        | inl r ↦ absurd (quantile_some f h p c n r e)
        | inr r ↦ inr r
      ]
    ]

    from : (h.count ≡ 0) ⊎ (in_range f p ≡ false) → quantile f h p ≡ none
    from (inl z) = rw z refl
    from (inr r) = elim (Bool-cases (h.count == 0)) [ inl z ↦ rw z refl | inr n ↦ rw (n, r) refl ]
