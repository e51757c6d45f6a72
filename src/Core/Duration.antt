-- ===== src/Core/Duration.antt =====
-- crates/kemuri-core/src/duration.rs: parsing of texts such as `250ms`. A `Duration` is its
-- milliseconds; the texts that the error cases carry are kept.
pub mod Laws
mod Tests
use kemuri.Base.{ℕ, zero, suc, ◌*◌, ◌^◌, refl, ltb, if◌then◌else◌, not, true, false}
use kemuri.Base.{Option, none, some, List, [], ◌∷◌, Bool}
use kemuri.Base.Text.{Text, codes, text_eq, is_ascii_digit, trim, parse_uint}

pub data DurationParseError : Type 0 where
  empty : DurationParseError
  no_unit : Text → DurationParseError
  invalid_number : Text → DurationParseError
  unknown_unit : Text → DurationParseError
  overflow : Text → DurationParseError

pub data Result (A : Type 0) : Type 0 where
  ok : A → Result A
  err : DurationParseError → Result A

infixl 5 ◌>>=◌
abbrev pub ◌>>=◌ : {A B : Type 0} → Result A → (A → Result B) → Result B
ok a >>= f = f a
err e >>= f = err e

abbrev pub u64_bound : ℕ
u64_bound = 2 ^ 64

unfoldable pub cons_left : ℕ → Option (Text × Text) → Option (Text × Text)
cons_left c none = none
cons_left c (some (a, b)) = some (c ∷ a, b)

-- The characters before and from the first one that is no digit; `none` if all are digits.
unfoldable pub split_digits : Text → Option (Text × Text)
unfolding cons_left
split_digits [] = none
split_digits (c ∷ s) = if is_ascii_digit c then cons_left c (split_digits s) else some ([], c ∷ s)

unfoldable pub split_at : Text → Option (Text × Text) → Result (Text × Text)
split_at s none = err (no_unit s)
split_at s (some ([], unit)) = err (no_unit s)
split_at s (some (c ∷ num, unit)) = ok (c ∷ num, unit)

unfoldable pub split_duration : Text → Result (Text × Text)
unfolding split_digits split_at
split_duration s = split_at s (split_digits s)

unfoldable pub checked_mul : ℕ → ℕ → Option ℕ
checked_mul a b = if ltb (a * b) u64_bound then some (a * b) else none

unfoldable pub number : Text → Option ℕ → Result ℕ
number num none = err (invalid_number num)
number num (some v) = ok v

-- The milliseconds for a value and a unit; the outer `none` is an unknown unit.
unfoldable pub to_millis : ℕ → Text → Option (Option ℕ)
unfolding checked_mul
to_millis value unit =
    if text_eq unit (codes "ms")
    then some (some value)
    else if text_eq unit (codes "s")
    then some (checked_mul value 1000)
    else if text_eq unit (codes "m")
    then some (checked_mul value 60000)
    else if text_eq unit (codes "h")
    then some (checked_mul value 3600000)
    else if text_eq unit (codes "d")
    then some (checked_mul value 86400000)
    else none

unfoldable pub finish : Text → Text → Option (Option ℕ) → Result ℕ
finish s unit none = err (unknown_unit unit)
finish s unit (some none) = err (overflow s)
finish s unit (some (some m)) = ok m

unfoldable pub parse_trimmed : Text → Result ℕ
unfolding number finish
parse_trimmed [] = err empty
parse_trimmed (c ∷ t) = do
  (num_part, unit) ← split_duration (c ∷ t)
  value ← number num_part (parse_uint u64_bound num_part)
  finish (c ∷ t) unit (to_millis value unit)

unfoldable pub parse_duration : Text → Result ℕ
parse_duration s = parse_trimmed (trim s)

-- `.ok()` of a parse.
abbrev pub ok? : {A : Type 0} → Result A → Option A
ok? (ok a) = some a
ok? (err e) = none
