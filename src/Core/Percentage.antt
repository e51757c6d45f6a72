-- ===== src/Core/Percentage.antt =====
-- crates/kemuri-core/src/percentage.rs: whole percentages in a byte, parsed from texts like `10%`.
mod Tests
use kemuri.Base.{ℕ, zero, suc, ◌+◌, ◌≤◌, ◌<◌, ◌≡◌, refl, arith, ltb, if◌then◌else◌, true, false}
use kemuri.Base.{Option, none, some, List, [], ◌∷◌, ◌++◌, Bool, ◌==◌}
use kemuri.Base.Text.{Text, trim, parse_uint, is_digits, decimal, trim_id, digit_not_space}
use kemuri.Base.Text.{parse_uint-decimal, parse_uint-lt}

pub data PercentageParseError : Type 0 where
  empty : PercentageParseError
  missing_percent : Text → PercentageParseError
  invalid_number : Text → PercentageParseError
  out_of_range : ℕ → PercentageParseError

pub record Percentage : Type 0 where
  pub value : ℕ

pub data Result (A : Type 0) : Type 0 where
  ok : A → Result A
  err : PercentageParseError → Result A

infixl 5 ◌>>=◌
abbrev ◌>>=◌ : {A B : Type 0} → Result A → (A → Result B) → Result B
ok a >>= f = f a
err e >>= f = err e

unfoldable pub new : ℕ → Result Percentage
new value = if ltb 100 value then err (out_of_range value) else ok (record { value = value })

-- `strip_suffix('%')`
strip_percent : Text → Option Text
strip_percent [] = none
strip_percent (c ∷ []) = if c == b'%' then some [] else none
strip_percent (c ∷ d ∷ s) = elim (strip_percent (d ∷ s)) [ none ↦ none | some r ↦ some (c ∷ r) ]

stripped : Text → Option Text → Result Text
stripped s none = err (missing_percent s)
stripped s (some r) = ok r

parsed : Text → Option ℕ → Result ℕ
parsed s none = err (invalid_number s)
parsed s (some v) = ok v

pub from_trimmed : Text → Result Percentage
unfolding stripped parsed new
from_trimmed [] = err empty
from_trimmed (c ∷ t) = do
  s ← stripped (c ∷ t) (strip_percent (c ∷ t))
  value ← parsed s (parse_uint 256 s)
  new value

-- `FromStr` for `Percentage`.
unfoldable pub from_str : Text → Result Percentage
from_str s = from_trimmed (trim s)

strip_percent-append : (s : Text) → strip_percent (s ++ (b'%' ∷ [])) ≡ some s
unfolding strip_percent
strip_percent-append [] = refl
strip_percent-append (c ∷ []) = refl
strip_percent-append (c ∷ d ∷ s) = ground (arith, strip_percent-append (d ∷ s))

-- What the parser must answer for the value `n` written `s`.
abbrev pub in_range : Text → ℕ → Result Percentage
in_range s n =
    if ltb n 256
    then (if ltb n 101 then ok (record { value = n }) else err (out_of_range n))
    else err (invalid_number s)

from_trimmed-append :
    (c : ℕ) (s : Text)
    → is_digits (c ∷ s) ≡ true
    → from_trimmed ((c ∷ s) ++ (b'%' ∷ [])) ≡ in_range (c ∷ s) (decimal 0 (c ∷ s))
unfolding from_trimmed
from_trimmed-append c s h =
    rw (strip_percent-append (c ∷ s)) (ground (arith, parse_uint-decimal 256 c s h (omega arith)))

-- A row of decimal digits before the sign `%`, with no white space, gives its value up to 100,
-- the error `out_of_range` for 101 to 255, and `invalid_number` for what no byte holds.
pub from_str-append :
    (c : ℕ) (s : Text)
    → is_digits (c ∷ s) ≡ true
    → from_str ((c ∷ s) ++ (b'%' ∷ [])) ≡ in_range (c ∷ s) (decimal 0 (c ∷ s))
unfolding from_str
from_str-append c s h =
    rw (trim_id c s b'%' (digit_not_space c (ground arith)) refl) (from_trimmed-append c s h)

new-le : (v : ℕ) (p : Percentage) → new v ≡ ok p → p.value ≤ 100
unfolding new
new-le v p e = ground arith

chain-le :
    (r : Result Text) (p : Percentage)
    → (r >>= λ s. parsed s (parse_uint 256 s) >>= new) ≡ ok p
    → p.value ≤ 100
chain-le (err e) p h = cc
chain-le (ok s) p h = go (parsed s (parse_uint 256 s)) h
  where
    go : (q : Result ℕ) → (q >>= new) ≡ ok p → p.value ≤ 100
    go (ok v) k = new-le v p k
    go (err e) k = cc

from_trimmed-le : (s : Text) (p : Percentage) → from_trimmed s ≡ ok p → p.value ≤ 100
unfolding from_trimmed
from_trimmed-le [] p h = cc
from_trimmed-le (c ∷ t) p h = chain-le (stripped (c ∷ t) (strip_percent (c ∷ t))) p h

-- Whatever the text, a percentage that is returned is at most 100.
pub from_str-le : (s : Text) (p : Percentage) → from_str s ≡ ok p → p.value ≤ 100
unfolding from_str
from_str-le s p h = from_trimmed-le (trim s) p h
