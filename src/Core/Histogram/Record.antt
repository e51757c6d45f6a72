-- ===== src/Core/Histogram/Record.antt =====
-- The invariant of the histograms of crates/kemuri-core/src/histogram.rs under `record`.
use kemuri.Base.{ℕ, ◌+◌, ◌<◌, ◌≤◌, ◌≡◌, min, max, refl, arith}
use kemuri.Base.{List, [], ◌∷◌, length, Option, none, some, map_or}
use kemuri.Base.{length-replicate}
use kemuri.Base.Float.{Float}
use kemuri.Core.Histogram.{Histogram, wrapping_inc, u64_bound, num_bins}
use kemuri.Core.Histogram.{new, value_to_bin, record_value}
use kemuri.Core.Histogram.Bins.{total, value_to_bin_range, length-bump, total-bump, total-replicate}

-- The extremes are absent exactly when nothing was recorded, and lie in order.
abbrev pub Extremes : ℕ → Option ℕ → Option ℕ → Type 0
Extremes n none none = n ≡ 0
Extremes n (some lo) (some hi) = (0 < n) × (lo ≤ hi) × (hi < u64_bound)
Extremes n _ _ = ⊥

-- What holds of every histogram that recording and merging make.
pub record IsConsistent (h : Histogram) : Type 0 where
  pub full : length h.bins ≡ num_bins
  pub counted : total h.bins ≡ h.count
  pub fits : h.count < u64_bound
  pub sum_fits : h.sum < u64_bound
  pub versioned : h.version ≡ 1
  pub extremes : Extremes h.count h.min_ns h.max_ns

pub new-IsConsistent : IsConsistent new
unfolding new
new-IsConsistent = record {
  full = length-replicate {A = ℕ} num_bins 0;
  counted = total-replicate num_bins;
  fits = omega arith;
  sum_fits = omega arith;
  versioned = refl;
  extremes = refl;
}

record-Extremes :
    (n v : ℕ) (lo hi : Option ℕ)
    → n + 1 < u64_bound
    → v < u64_bound
    → Extremes n lo hi
    → Extremes
        (wrapping_inc n)
        (some (map_or lo v (λ m. min m v)))
        (some (map_or hi v (λ m. max m v)))
record-Extremes n v none none h k e = omega arith
record-Extremes n v none (some b) h k e = absurd e
record-Extremes n v (some a) none h k e = absurd e
record-Extremes n v (some a) (some b) h k e = omega arith

-- Recording a 64-bit value keeps the invariant, as long as the count stays below 2 ^ 64, and counts
-- the value once.
pub record_value-IsConsistent :
    (f : Float) (h : Histogram) (v : ℕ)
    → IsConsistent h
    → v < u64_bound
    → h.count + 1 < u64_bound
    → IsConsistent (record_value f h v) × ((record_value f h v).count ≡ h.count + 1)
unfolding record_value
record_value-IsConsistent f h v c hv k =
    let i = value_to_bin f v in
    let inside : i < length h.bins = omega (arith, (value_to_bin_range f v).0, c.full) in
    (
      record {
        full = omega (arith, length-bump i h.bins, c.full);
        counted = omega (arith, total-bump i h.bins inside (omega (arith, c.counted)), c.counted);
        fits = omega arith;
        sum_fits = omega arith;
        versioned = c.versioned;
        extremes = record-Extremes h.count v h.min_ns h.max_ns k hv c.extremes;
      },
      omega arith,
    )

-- `record` for each value in turn.
abbrev pub record_all : Float → Histogram → List ℕ → Histogram
record_all f h [] = h
record_all f h (v ∷ vs) = record_all f (record_value f h v) vs
