-- ===== src/Core/Histogram.antt =====
-- crates/kemuri-core/src/histogram.rs: latencies in logarithmic bins. The floating-point type is a
-- parameter. `+=` on u64 wraps, as in a release build.
pub mod Bins
pub mod Record
pub mod Merge
pub mod Quantile
pub mod Codec
mod Tests
use kemuri.Base.{
  ℕ, zero, suc, ◌+◌, ◌-◌, ◌*◌, ◌/◌, ◌%◌, ◌^◌, ◌<◌, ◌≤◌, min, max, Bool, true, false, ◌&&◌, ◌||◌,
  not,
}
use kemuri.Base.{
  if◌then◌else◌, ltb, leb, ◌==◌, Option, none, some, List, [], ◌∷◌, ◌++◌, length, take, drop,
}
use kemuri.Base.{replicate, map_or, unwrap_or}
use kemuri.Base.Bytes.{to_le_bytes, from_le_bytes}
use kemuri.Base.Float.{Float}

abbrev pub data_bins : ℕ
data_bins = 96

abbrev pub num_bins : ℕ
num_bins = 98

abbrev pub overflow_bin : ℕ
overflow_bin = 97

abbrev pub u64_bound : ℕ
u64_bound = 2 ^ 64

pub record Histogram : Type 0 where
  pub version : ℕ
  pub bins : List ℕ
  pub min_ns : Option ℕ
  pub max_ns : Option ℕ
  pub sum : ℕ
  pub count : ℕ

unfoldable pub new : Histogram
new = record {
  version = 1;
  bins = replicate num_bins 0;
  min_ns = none;
  max_ns = none;
  sum = 0;
  count = 0;
}

abbrev pub saturating_add : ℕ → ℕ → ℕ
saturating_add a b = min (a + b) (u64_bound - 1)

abbrev pub wrapping_inc : ℕ → ℕ
wrapping_inc a = (a + 1) % u64_bound

-- `self.bins[bin] += 1`. An index outside the array would panic; no bin that is computed is one.
abbrev pub bump : ℕ → List ℕ → List ℕ
bump i [] = []
bump zero (b ∷ bs) = wrapping_inc b ∷ bs
bump (suc i) (b ∷ bs) = b ∷ bump i bs

-- The loop of `merge` over the two arrays.
abbrev pub add_bins : List ℕ → List ℕ → List ℕ
add_bins [] ys = []
add_bins (x ∷ xs) [] = x ∷ xs
add_bins (x ∷ xs) (y ∷ ys) = saturating_add x y ∷ add_bins xs ys

abbrev pub merge_option : (ℕ → ℕ → ℕ) → Option ℕ → Option ℕ → Option ℕ
merge_option f (some a) (some b) = some (f a b)
merge_option f none (some b) = some b
merge_option f a none = a

unfoldable pub merge : Histogram → Histogram → Histogram
merge h other = record h {
  bins = add_bins h.bins other.bins;
  count = saturating_add h.count other.count;
  sum = saturating_add h.sum other.sum;
  min_ns = merge_option min h.min_ns other.min_ns;
  max_ns = merge_option max h.max_ns other.max_ns;
}

module _ (f : Float) where
  open f use {
    F64, of_u64, literal, add, sub, mul, div, log10, exp10, ceil, floor, round, to_u64, lt, le,
  }

  unfoldable pub value_to_bin : ℕ → ℕ
  value_to_bin v_ns =
      if ltb v_ns 1000
      then 0
      else if leb 100_000_000_000 v_ns
      then overflow_bin
      else let log_val = log10 (of_u64 v_ns) in
        let bin = to_u64 (floor (mul (sub log_val (literal 3 0)) (of_u64 12))) in
        min (bin + 1) data_bins

  unfoldable pub bin_representative : ℕ → ℕ
  bin_representative bin =
      if bin == 0
      then 500
      else if bin == overflow_bin
      then 100_000_000_000
      else let mid = add (literal 3 0) (div (add (of_u64 (bin - 1)) (literal 5 1)) (of_u64 12)) in
        to_u64 (round (exp10 mid))

  unfoldable pub record_value : Histogram → ℕ → Histogram
  record_value h value_ns = record h {
    bins = bump (value_to_bin value_ns) h.bins;
    count = wrapping_inc h.count;
    sum = saturating_add h.sum value_ns;
    min_ns = some (map_or h.min_ns value_ns (λ m. min m value_ns));
    max_ns = some (map_or h.max_ns value_ns (λ m. max m value_ns));
  }

  -- The loop of `quantile` from bin `i` on; `none` if it ends without a return.
  pub find_bin : ℕ → ℕ → ℕ → List ℕ → Option ℕ
  find_bin target accumulated i [] = none
  find_bin target accumulated i (count ∷ bins) =
      let accumulated' = (accumulated + count) % u64_bound in
      let rest = find_bin target accumulated' (i + 1) bins in
      if leb target accumulated' then some (bin_representative i) else rest

  pub quantile_target : F64 → ℕ → ℕ
  quantile_target p count = to_u64 (ceil (mul p (of_u64 count)))

  pub or_max : Option ℕ → Option ℕ → Option ℕ
  or_max none m = m
  or_max (some v) m = some v

  unfoldable pub quantile : Histogram → F64 → Option ℕ
  unfolding or_max
  quantile h p =
      if h.count == 0 || not (le (literal 0 0) p && le p (literal 1 0))
      then none
      else if le p (literal 0 0)
      then h.min_ns
      else if le (literal 1 0) p
      then h.max_ns
      else or_max (find_bin (quantile_target p h.count) 0 0 h.bins) h.max_ns

pub encode_bins : List ℕ → List ℕ
encode_bins [] = []
encode_bins (b ∷ bs) = to_le_bytes 8 b ++ encode_bins bs

unfoldable pub encode : Histogram → List ℕ
encode h =
    (h.version % 256)
    ∷ (to_le_bytes 8 h.count
        ++ (to_le_bytes 8 h.sum
            ++ (to_le_bytes 8 (unwrap_or h.min_ns 0)
                ++ (to_le_bytes 8 (unwrap_or h.max_ns 0) ++ encode_bins h.bins))))

-- `n` numbers of eight bytes from the front, where that many bytes stand there.
pub decode_bins : ℕ → List ℕ → List ℕ
decode_bins zero bytes = []
decode_bins (suc n) bytes = from_le_bytes (take 8 bytes) ∷ decode_bins n (drop 8 bytes)

-- The number of eight bytes at an offset.
abbrev pub u64_at : ℕ → List ℕ → ℕ
u64_at offset bytes = from_le_bytes (take 8 (drop offset bytes))

-- Present if the number or the count is not 0.
abbrev pub present : ℕ → ℕ → Option ℕ
present v count = if ltb 0 v || ltb 0 count then some v else none

decode_from : List ℕ → ℕ → Histogram
decode_from bytes version = record {
  version = version;
  bins = decode_bins num_bins (drop 32 bytes);
  min_ns = present (u64_at 16 bytes) (u64_at 0 bytes);
  max_ns = present (u64_at 24 bytes) (u64_at 0 bytes);
  sum = u64_at 8 bytes;
  count = u64_at 0 bytes;
}

unfoldable pub decode : List ℕ → Option Histogram
unfolding decode_from
decode [] = none
decode (version ∷ bytes) =
    if ltb (1 + length bytes) (1 + 8 + 8 + 8 + 8 + num_bins * 8)
    then none
    else some (decode_from bytes version)
