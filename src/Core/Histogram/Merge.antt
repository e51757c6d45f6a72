-- ===== src/Core/Histogram/Merge.antt =====
-- `merge` of crates/kemuri-core/src/histogram.rs against recording.
use kemuri.Base.{ℕ, ◌+◌, ◌<◌, ◌≡◌, min, max, refl, ap, sym, ◌∙◌, arith}
use kemuri.Base.{List, [], ◌∷◌, ◌++◌, length, Option, none, some, map_or, All}
use kemuri.Base.Float.{Float}
use kemuri.Core.Histogram.{
  Histogram, merge_option, wrapping_inc, saturating_add, u64_bound, num_bins,
}
use kemuri.Core.Histogram.{new, merge, value_to_bin, record_value}
use kemuri.Core.Histogram.Bins.{total-add_bins, length-add_bins, add_bins-bump, add_bins-zeros}
use kemuri.Core.Histogram.Record.{
  Extremes, IsConsistent, new-IsConsistent, record_value-IsConsistent, record_all,
}

merge-Extremes :
    (n m : ℕ) (lo hi lo' hi' : Option ℕ)
    → n + m < u64_bound
    → Extremes n lo hi
    → Extremes m lo' hi'
    → Extremes (saturating_add n m) (merge_option min lo lo') (merge_option max hi hi')
merge-Extremes n m none none none none h e d = omega arith
merge-Extremes n m none none (some a) (some b) h e d = omega arith
merge-Extremes n m (some a) (some b) none none h e d = omega arith
merge-Extremes n m (some a) (some b) (some c) (some d') h e d = omega arith
merge-Extremes n m none none none (some b) h e d = absurd d
merge-Extremes n m none none (some b) none h e d = absurd d
merge-Extremes n m (some x) (some y) none (some b) h e d = absurd d
merge-Extremes n m (some x) (some y) (some b) none h e d = absurd d
merge-Extremes n m none (some y) lo' hi' h e d = absurd e
merge-Extremes n m (some x) none lo' hi' h e d = absurd e

-- Merging two histograms keeps the invariant and adds the counts, if these sum to less than 2 ^ 64.
pub merge-IsConsistent :
    (h g : Histogram)
    → IsConsistent h
    → IsConsistent g
    → h.count + g.count < u64_bound
    → IsConsistent (merge h g) × ((merge h g).count ≡ h.count + g.count)
unfolding merge
merge-IsConsistent h g c d k = (
  record {
    full = omega (arith, length-add_bins h.bins g.bins, c.full);
    counted = omega (
      arith,
      total-add_bins h.bins g.bins (omega (arith, c.full, d.full))
          (omega (arith, c.counted, d.counted)),
      c.counted,
      d.counted,
    );
    fits = omega arith;
    sum_fits = omega arith;
    versioned = c.versioned;
    extremes =
        merge-Extremes h.count g.count h.min_ns h.max_ns g.min_ns g.max_ns k c.extremes d.extremes;
  },
  omega arith,
)

min_step :
    (a b : Option ℕ) (v : ℕ)
    → merge_option min a (some (map_or b v (λ m. min m v)))
      ≡ some (map_or (merge_option min a b) v (λ m. min m v))
min_step none none v = refl
min_step none (some b) v = refl
min_step (some a) none v = refl
min_step (some a) (some b) v = ap {B = Option ℕ} some (omega arith)

max_step :
    (a b : Option ℕ) (v : ℕ)
    → merge_option max a (some (map_or b v (λ m. max m v)))
      ≡ some (map_or (merge_option max a b) v (λ m. max m v))
max_step none none v = refl
max_step none (some b) v = refl
max_step (some a) none v = refl
max_step (some a) (some b) v = ap {B = Option ℕ} some (omega arith)

-- Merging with one more value recorded is merging, and then recording the value.
merge-record_value :
    (f : Float) (h g : Histogram) (v : ℕ)
    → IsConsistent h
    → IsConsistent g
    → h.count + g.count + 1 < u64_bound
    → merge h (record_value f g v) ≡ record_value f (merge h g) v
unfolding merge record_value
merge-record_value f h g v c d k = λ i. record {
  version = h.version;
  bins =
      add_bins-bump (value_to_bin f v) h.bins g.bins (omega (arith, c.full, d.full))
        (omega (arith, c.counted, d.counted)) i;
  min_ns = min_step h.min_ns g.min_ns v i;
  max_ns = max_step h.max_ns g.max_ns v i;
  sum = sums i;
  count = counts i;
}
  where
    sums :
        saturating_add h.sum (saturating_add g.sum v)
        ≡ saturating_add (saturating_add h.sum g.sum) v
    sums = omega arith

    counts :
        saturating_add h.count (wrapping_inc g.count)
        ≡ wrapping_inc (saturating_add h.count g.count)
    counts = omega arith

merge-record_all :
    (f : Float) (h g : Histogram) (vs : List ℕ)
    → IsConsistent h
    → IsConsistent g
    → All (λ v. v < u64_bound) vs
    → h.count + g.count + length vs < u64_bound
    → merge h (record_all f g vs) ≡ record_all f (merge h g) vs
merge-record_all f h g [] c d a k = refl
merge-record_all f h g (v ∷ vs) c d a k =
    let (d', e) = record_value-IsConsistent f g v d a.0 (omega arith) in
    merge-record_all f h (record_value f g v) vs c d' a.1 (omega (arith, e))
    ∙ ap (λ (t : Histogram). record_all f t vs) (merge-record_value f h g v c d (omega arith))

merge-new : (h : Histogram) → IsConsistent h → merge h new ≡ h
unfolding merge new
merge-new h c = λ i. record {
  version = h.version;
  bins = add_bins-zeros num_bins h.bins (omega (arith, c.counted, c.fits)) i;
  min_ns = none_right min h.min_ns i;
  max_ns = none_right max h.max_ns i;
  sum = sums i;
  count = counts i;
}
  where
    none_right : (op : ℕ → ℕ → ℕ) (o : Option ℕ) → merge_option op o none ≡ o
    none_right op none = refl
    none_right op (some a) = refl

    sums : saturating_add h.sum 0 ≡ h.sum
    sums = omega (arith, c.sum_fits)

    counts : saturating_add h.count 0 ≡ h.count
    counts = omega (arith, c.fits)

pub record_all-IsConsistent :
    (f : Float) (h : Histogram) (vs : List ℕ)
    → IsConsistent h
    → All (λ v. v < u64_bound) vs
    → h.count + length vs < u64_bound
    → IsConsistent (record_all f h vs) × ((record_all f h vs).count ≡ h.count + length vs)
record_all-IsConsistent f h [] c a k = (c, omega arith)
record_all-IsConsistent f h (v ∷ vs) c a k =
    let (c', e) = record_value-IsConsistent f h v c a.0 (omega arith) in
    let (c'', e') = record_all-IsConsistent f (record_value f h v) vs c' a.1 (omega (arith, e)) in
    (c'', omega (arith, e, e'))

pub record_all-append :
    (f : Float) (h : Histogram) (vs ws : List ℕ)
    → record_all f h (vs ++ ws) ≡ record_all f (record_all f h vs) ws
record_all-append f h [] ws = refl
record_all-append f h (v ∷ vs) ws = record_all-append f (record_value f h v) vs ws

-- Merging the histograms of two lists of 64-bit values gives the histogram of the lists joined, if
-- together they hold fewer than 2 ^ 64 values: bins, extremes, count and the saturating sum.
pub merge-append :
    (f : Float) (vs ws : List ℕ)
    → All (λ v. v < u64_bound) vs
    → All (λ v. v < u64_bound) ws
    → length vs + length ws < u64_bound
    → merge (record_all f new vs) (record_all f new ws) ≡ record_all f new (vs ++ ws)
merge-append f vs ws a b k =
    let (c, e) = record_all-IsConsistent f new vs new-IsConsistent a (unfold new in omega arith) in
    merge-record_all f (record_all f new vs) new ws c new-IsConsistent b
      (unfold new in omega (arith, e))
    ∙ ap (λ (t : Histogram). record_all f t ws) (merge-new (record_all f new vs) c)
    ∙ sym (record_all-append f new vs ws)
