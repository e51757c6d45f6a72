-- ===== src/Config/Error.antt =====
-- `ConfigError` of crates/kemuri-config/src/lib.rs, with the conversions that the code makes.
use kemuri.Base.{◌≡◌, refl, ap, arith, ℕ, Bool, true, false, ◌++◌, Option, none, some, unwrap_or}
use kemuri.Base.Text.{Text, codes}
use kemuri.Core.Duration.{
  DurationParseError, empty, no_unit, invalid_number, unknown_unit, overflow, parse_duration,
}
use kemuri.Core.Duration as Duration

-- Of the cases, those of validation and of a file that cannot be read.
pub data ConfigError : Type 0 where
  io : ConfigError
  validation : Text → Text → ConfigError

pub data Result (A : Type 0) : Type 0 where
  ok : A → Result A
  err : ConfigError → Result A

infixl 5 ◌>>=◌ ◌>>◌
abbrev pub ◌>>=◌ : {A B : Type 0} → Result A → (A → Result B) → Result B
ok a >>= f = f a
err e >>= f = err e

abbrev pub ◌>>◌ : {A B : Type 0} → Result A → Result B → Result B
ok a >> k = k
err e >> k = err e

-- `Err(ConfigError::validation(path, message))` under a condition.
abbrev pub refuse_if : Bool → Text → Text → Result (Unit {0})
refuse_if true path message = err (validation path message)
refuse_if false path message = ok tt

-- `ok_or_else` with such an error.
abbrev pub or_refuse : {A : Type 0} → Option A → Text → Text → Result A
or_refuse none path message = err (validation path message)
or_refuse (some a) path message = ok a

-- `Display` for DurationParseError.
abbrev pub duration_message : DurationParseError → Text
duration_message empty = codes "empty duration string"
duration_message (no_unit s) = codes "no unit suffix in duration: " ++ s
duration_message (invalid_number s) = codes "invalid number in duration: " ++ s
duration_message (unknown_unit s) = codes "unknown unit in duration: " ++ s
duration_message (overflow s) = codes "duration value would overflow: " ++ s

abbrev pub map_duration : Text → Duration.Result ℕ → Result ℕ
map_duration path (Duration.ok d) = ok d
map_duration path (Duration.err e) = err (validation path (duration_message e))

-- `parse_duration(value).map_err(…)?`
unfoldable pub duration_at : Text → Text → Result ℕ
duration_at value path = map_duration path (parse_duration value)

abbrev to_option : {A : Type 0} → Result A → Option A
to_option (ok a) = some a
to_option (err e) = none

-- What a chain that succeeds has passed.
pub ok-bind :
    {A B : Type 0} (m : Result A) (k : A → Result B) (b : B)
    → (m >>= k) ≡ ok b
    → (a : A) × (m ≡ ok a) × (k a ≡ ok b)
ok-bind (ok a) k b h = (a, refl, h)
ok-bind (err e) k b h = ground (arith, h)

pub ok-then :
    {A B : Type 0} (m : Result A) (k : Result B) (b : B)
    → (m >> k) ≡ ok b
    → ((a : A) × (m ≡ ok a)) × (k ≡ ok b)
ok-then (ok a) k b h = ((a, refl), h)
ok-then (err e) k b h = ground (arith, h)

pub ok-refuse_if :
    (b : Bool) (path message : Text) (u : Unit {0}) → refuse_if b path message ≡ ok u → b ≡ false
ok-refuse_if true path message u h = ground (arith, h)
ok-refuse_if false path message u h = refl

pub ok-or_refuse :
    {A : Type 0} (o : Option A) (path message : Text) (a : A)
    → or_refuse o path message ≡ ok a
    → o ≡ some a
ok-or_refuse none path message a h = ground (arith, h)
ok-or_refuse (some x) path message a h = ap to_option h

pub ok-injective : {A : Type 0} (a b : A) → ok a ≡ ok b → a ≡ b
ok-injective a b h = ap (λ o. unwrap_or o a) (ap to_option h)
