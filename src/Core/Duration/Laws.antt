-- ===== src/Core/Duration/Laws.antt =====
-- What `parse_duration` of crates/kemuri-core/src/duration.rs answers.
use kemuri.Base.{ℕ, ◌*◌, ◌<◌, ◌≡◌, refl, arith, ltb, if◌then◌else◌, true, false}
use kemuri.Base.{Option, none, some, [], ◌∷◌, ◌++◌, ap, ◌∙◌}
use kemuri.Base.Text.{Text, codes, is_ascii_digit, is_digits, decimal, trim, parse_uint}
use kemuri.Base.Text.{parse_uint-decimal, parse_uint-lt, trim_id, digit_not_space}
use kemuri.Core.Duration.{invalid_number, overflow}
use kemuri.Core.Duration.{Result, ok, err, ◌>>=◌, u64_bound, split_digits, split_at, split_duration}
use kemuri.Core.Duration.{number, to_millis, finish, parse_trimmed, parse_duration}
use mathlib.Core.List.{append_assoc}

-- The units that the parser knows.
pub data TimeUnit : Type 0 where
  milliseconds seconds minutes hours days : TimeUnit

abbrev pub unit_text : TimeUnit → Text
unit_text milliseconds = codes "ms"
unit_text seconds = codes "s"
unit_text minutes = codes "m"
unit_text hours = codes "h"
unit_text days = codes "d"

abbrev pub unit_millis : TimeUnit → ℕ
unit_millis milliseconds = 1
unit_millis seconds = 1000
unit_millis minutes = 60 * 1000
unit_millis hours = 60 * 60 * 1000
unit_millis days = 24 * 60 * 60 * 1000

split_digits-append :
    (ds : Text) (u : ℕ) (us : Text)
    → is_digits ds ≡ true
    → is_ascii_digit u ≡ false
    → split_digits (ds ++ (u ∷ us)) ≡ some (ds, u ∷ us)
unfolding split_digits
split_digits-append [] u us h k = rw k
split_digits-append (c ∷ ds) u us h k = ground (arith, split_digits-append ds u us)

-- What the parser must answer for a value `n`, written `num`, before the unit `u`.
abbrev pub scaled : Text → ℕ → TimeUnit → Result ℕ
scaled num n u =
    if ltb n u64_bound
    then (if ltb (n * unit_millis u) u64_bound
        then ok (n * unit_millis u)
        else err (overflow (num ++ unit_text u)))
    else err (invalid_number num)

split_duration-append :
    (c : ℕ) (ds : Text) (u : ℕ) (us : Text)
    → is_digits (c ∷ ds) ≡ true
    → is_ascii_digit u ≡ false
    → split_duration ((c ∷ ds) ++ (u ∷ us)) ≡ ok (c ∷ ds, u ∷ us)
unfolding split_duration
split_duration-append c ds u us h k = ap (split_at _) (split_digits-append (c ∷ ds) u us h k)

parse_trimmed-append :
    (c : ℕ) (ds : Text) (u : ℕ) (us : Text)
    → is_digits (c ∷ ds) ≡ true
    → is_ascii_digit u ≡ false
    → parse_trimmed ((c ∷ ds) ++ (u ∷ us)) ≡ (
        if ltb (decimal 0 (c ∷ ds)) u64_bound
        then finish ((c ∷ ds) ++ (u ∷ us)) (u ∷ us) (to_millis (decimal 0 (c ∷ ds)) (u ∷ us))
        else err (invalid_number (c ∷ ds)))
unfolding parse_trimmed
parse_trimmed-append c ds u us h k =
    rw (split_duration-append c ds u us h k)
      (ground (arith, parse_uint-decimal u64_bound c ds h (omega arith)))

finish-scaled :
    (num : Text) (n : ℕ) (u : TimeUnit)
    → (if ltb n u64_bound
        then finish (num ++ unit_text u) (unit_text u) (to_millis n (unit_text u))
        else err (invalid_number num))
      ≡ scaled num n u
unfolding finish to_millis
finish-scaled num n milliseconds = ground arith
finish-scaled num n seconds = ground arith
finish-scaled num n minutes = ground arith
finish-scaled num n hours = ground arith
finish-scaled num n days = ground arith

parse_trimmed-scaled :
    (c : ℕ) (s : Text) (u : TimeUnit)
    → is_digits (c ∷ s) ≡ true
    → parse_trimmed ((c ∷ s) ++ unit_text u) ≡ scaled (c ∷ s) (decimal 0 (c ∷ s)) u
parse_trimmed-scaled c s milliseconds h =
    parse_trimmed-append c s _ _ h refl ∙ finish-scaled (c ∷ s) _ milliseconds
parse_trimmed-scaled c s seconds h =
    parse_trimmed-append c s _ _ h refl ∙ finish-scaled (c ∷ s) _ seconds
parse_trimmed-scaled c s minutes h =
    parse_trimmed-append c s _ _ h refl ∙ finish-scaled (c ∷ s) _ minutes
parse_trimmed-scaled c s hours h =
    parse_trimmed-append c s _ _ h refl ∙ finish-scaled (c ∷ s) _ hours
parse_trimmed-scaled c s days h = parse_trimmed-append c s _ _ h refl ∙ finish-scaled (c ∷ s) _ days

trim-unit :
    (c : ℕ) (s : Text) (u : TimeUnit)
    → is_digits (c ∷ s) ≡ true
    → trim ((c ∷ s) ++ unit_text u) ≡ (c ∷ s) ++ unit_text u
trim-unit c s milliseconds h =
    rw (← append_assoc s (109 ∷ []) (115 ∷ []))
      (trim_id c (s ++ (109 ∷ [])) 115 (ground (arith, digit_not_space c)) refl)
trim-unit c s seconds h = trim_id c s 115 (ground (arith, digit_not_space c)) refl
trim-unit c s minutes h = trim_id c s 109 (ground (arith, digit_not_space c)) refl
trim-unit c s hours h = trim_id c s 104 (ground (arith, digit_not_space c)) refl
trim-unit c s days h = trim_id c s 100 (ground (arith, digit_not_space c)) refl

-- On a row of decimal digits followed by a unit, with no white space, the answer is the value
-- times the unit's milliseconds if both the value and the product fit 64 bits, the error
-- `overflow` if only the value fits, and `invalid_number` if the value does not fit.
pub parse_duration-append :
    (c : ℕ) (s : Text) (u : TimeUnit)
    → is_digits (c ∷ s) ≡ true
    → parse_duration ((c ∷ s) ++ unit_text u) ≡ scaled (c ∷ s) (decimal 0 (c ∷ s)) u
unfolding parse_duration
parse_duration-append c s u h = ap parse_trimmed (trim-unit c s u h) ∙ parse_trimmed-scaled c s u h

to_millis-lt :
    (v m : ℕ) (unit : Text) → v < u64_bound → to_millis v unit ≡ some (some m) → m < u64_bound
unfolding to_millis
to_millis-lt v m unit h e = ground arith

finish-lt :
    (s unit : Text) (v m : ℕ)
    → v < u64_bound
    → finish s unit (to_millis v unit) ≡ ok m
    → m < u64_bound
unfolding finish
finish-lt s unit v m h e = ground (arith, to_millis-lt v m unit h)

number-lt :
    (s unit num : Text) (o : Option ℕ) (m : ℕ)
    → parse_uint u64_bound num ≡ o
    → (number num o >>= λ v. finish s unit (to_millis v unit)) ≡ ok m
    → m < u64_bound
unfolding number
number-lt s unit num none m p e = cc
number-lt s unit num (some v) m p e =
    finish-lt s unit v m (parse_uint-lt u64_bound num v (omega arith) p) e

chain-lt :
    (s : Text) (r : Result (Text × Text)) (m : ℕ)
    → (r >>= λ (num, unit).
        number num (parse_uint u64_bound num) >>= λ v. finish s unit (to_millis v unit))
      ≡ ok m
    → m < u64_bound
chain-lt s (ok (num, unit)) m e = number-lt s unit num _ m refl e
chain-lt s (err x) m e = cc

parse_trimmed-lt : (s : Text) (m : ℕ) → parse_trimmed s ≡ ok m → m < u64_bound
unfolding parse_trimmed
parse_trimmed-lt [] m e = cc
parse_trimmed-lt (c ∷ t) m e = chain-lt (c ∷ t) (split_duration (c ∷ t)) m e

-- Whatever the text, a duration that is returned has fewer than 2 ^ 64 milliseconds.
pub parse_duration-lt : (s : Text) (m : ℕ) → parse_duration s ≡ ok m → m < u64_bound
unfolding parse_duration
parse_duration-lt s m e = parse_trimmed-lt (trim s) m e
