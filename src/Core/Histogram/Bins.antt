-- ===== src/Core/Histogram/Bins.antt =====
-- Rows of counters of crates/kemuri-core/src/histogram.rs, and the bin of a value.
use kemuri.Base.{ℕ, zero, suc, ◌+◌, ◌<◌, ◌≤◌, ◌≡◌, refl, ap, arith}
use kemuri.Base.{◌↔◌, List, [], ◌∷◌, length, replicate}
use kemuri.Base.Float.{Float}
use kemuri.Core.Histogram.{bump, add_bins, saturating_add, u64_bound, num_bins}
use kemuri.Core.Histogram.{overflow_bin, value_to_bin}

abbrev pub total : List ℕ → ℕ
total [] = 0
total (b ∷ bs) = b + total bs

-- The bin of a value is one of the array, whatever the floating-point functions answer: the first
-- exactly for values below a microsecond, and the last exactly for those of 100 seconds and more.
pub value_to_bin_range :
    (f : Float) (v : ℕ)
    → (value_to_bin f v < num_bins)
      × ((value_to_bin f v ≡ 0) ↔ (v < 1000))
      × ((value_to_bin f v ≡ overflow_bin) ↔ (100_000_000_000 ≤ v))
unfolding value_to_bin
value_to_bin_range f v =
    (ground arith, (λ h. ground arith, λ h. ground arith), (λ h. ground arith, λ h. ground arith))

pub length-bump : (i : ℕ) (bs : List ℕ) → length (bump i bs) ≡ length bs
length-bump i [] = refl
length-bump zero (b ∷ bs) = refl
length-bump (suc i) (b ∷ bs) = ap suc (length-bump i bs)

pub total-bump :
    (i : ℕ) (bs : List ℕ)
    → i < length bs
    → total bs + 1 < u64_bound
    → total (bump i bs) ≡ total bs + 1
total-bump i [] h k = absurd (omega arith)
total-bump zero (b ∷ bs) h k = omega arith
total-bump (suc i) (b ∷ bs) h k = omega (arith, total-bump i bs (omega arith) (omega arith))

pub length-add_bins : (xs ys : List ℕ) → length (add_bins xs ys) ≡ length xs
length-add_bins [] ys = refl
length-add_bins (x ∷ xs) [] = refl
length-add_bins (x ∷ xs) (y ∷ ys) = ap suc (length-add_bins xs ys)

pub total-add_bins :
    (xs ys : List ℕ)
    → length xs ≡ length ys
    → total xs + total ys < u64_bound
    → total (add_bins xs ys) ≡ total xs + total ys
total-add_bins [] [] h k = omega arith
total-add_bins [] (y ∷ ys) h k = absurd (omega arith)
total-add_bins (x ∷ xs) [] h k = absurd (omega arith)
total-add_bins (x ∷ xs) (y ∷ ys) h k =
    omega (arith, total-add_bins xs ys (omega arith) (omega arith))

-- Adding a row with one more count is adding the row, and then that count.
pub add_bins-bump :
    (i : ℕ) (xs ys : List ℕ)
    → length xs ≡ length ys
    → total xs + total ys + 1 < u64_bound
    → add_bins xs (bump i ys) ≡ bump i (add_bins xs ys)
add_bins-bump i [] [] h k = refl
add_bins-bump i [] (y ∷ ys) h k = absurd (omega arith)
add_bins-bump i (x ∷ xs) [] h k = absurd (omega arith)
add_bins-bump zero (x ∷ xs) (y ∷ ys) h k = ap (λ (t : ℕ). t ∷ add_bins xs ys) (omega arith)
add_bins-bump (suc i) (x ∷ xs) (y ∷ ys) h k =
    ap (λ (t : List ℕ). saturating_add x y ∷ t) (add_bins-bump i xs ys (omega arith) (omega arith))

pub add_bins-zeros : (n : ℕ) (xs : List ℕ) → total xs < u64_bound → add_bins xs (replicate n 0) ≡ xs
add_bins-zeros n [] h = refl
add_bins-zeros zero (x ∷ xs) h = refl
add_bins-zeros (suc n) (x ∷ xs) h =
    let e : saturating_add x 0 ≡ x = omega arith in rw (e, add_bins-zeros n xs (omega arith)) refl

pub total-replicate : (n : ℕ) → total (replicate n 0) ≡ 0
total-replicate zero = refl
total-replicate (suc n) = omega (arith, total-replicate n)
