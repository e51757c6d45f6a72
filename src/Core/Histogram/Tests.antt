-- ===== src/Core/Histogram/Tests.antt =====
-- The theorems on crates/kemuri-core/src/histogram.rs at concrete values.
use kemuri.Base.{ℕ, ◌<◌, ◌≡◌, refl, arith, List, [], ◌∷◌, ◌++◌, All, some}
use kemuri.Base.Examples.{thousandths}
use kemuri.Core.Histogram.{
  Histogram, u64_bound, new, merge, bin_representative, record_value, quantile_target, quantile,
  encode, decode,
}
use kemuri.Core.Histogram.Record.{IsConsistent, new-IsConsistent, record_all}
use kemuri.Core.Histogram.Merge.{record_all-IsConsistent, merge-append}
use kemuri.Core.Histogram.Quantile.{Reaches, quantile-find}
use kemuri.Core.Histogram.Codec.{decode-encode}

abbrev two_values : List ℕ
two_values = 5_000 ∷ 2_000_000 ∷ []

abbrev one_value : List ℕ
one_value = 700 ∷ []

two_values-U64 : All (λ v. v < u64_bound) two_values
two_values-U64 = (omega arith, (omega arith, tt))

one_value-U64 : All (λ v. v < u64_bound) one_value
one_value-U64 = (omega arith, tt)

abbrev two : Histogram
two = record_all thousandths new two_values

abbrev one : Histogram
one = record_all thousandths new one_value

two-count : two.count ≡ 2
unfolding new record_value
two-count = refl

one-count : one.count ≡ 1
unfolding new record_value
one-count = refl

two-IsConsistent : IsConsistent two
two-IsConsistent =
    (record_all-IsConsistent thousandths new two_values new-IsConsistent two_values-U64
      (unfold new in omega arith)).0

one-IsConsistent : IsConsistent one
one-IsConsistent =
    (record_all-IsConsistent thousandths new one_value new-IsConsistent one_value-U64
      (unfold new in omega arith)).0

merge-append_example : merge two one ≡ record_all thousandths new (two_values ++ one_value)
merge-append_example =
    merge-append thousandths two_values one_value two_values-U64 one_value-U64 (omega arith)

median-target : quantile_target thousandths 500 two.count ≡ 1
unfolding new record_value quantile_target
median-target = refl

quantile-find_example :
    (k : ℕ) × Reaches (quantile_target thousandths 500 two.count) 0 two.bins k
    × (quantile thousandths two 500 ≡ some (bin_representative thousandths k))
quantile-find_example =
    quantile-find thousandths two 500 two-IsConsistent refl refl refl refl
      (omega (arith, median-target)) (omega (arith, median-target, two-count))

decode-encode_example : decode (encode two ++ (1 ∷ [])) ≡ some two
decode-encode_example = decode-encode two (1 ∷ []) two-IsConsistent
