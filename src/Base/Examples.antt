-- ===== src/Base/Examples.antt =====
-- Instances of the parameters, for the examples: an `f64` in thousandths and a clock whose texts
-- are one number.
use kemuri.Base.{ℕ, zero, suc, ◌+◌, ◌-◌, ◌*◌, ◌/◌, ◌^◌, ◌≡◌, refl, arith, false, not}
use kemuri.Base.{true, ◌%◌, ap, ltb, leb, if◌then◌else◌, Option, none, some, [], ◌∷◌}
use kemuri.Base.Text.{Text, parse_uint}
use kemuri.Base.Float.{Float, Ieee}
use kemuri.Base.Chrono.{Chrono, Reads, Stamps, Layout}

-- The decimal digits behind the first one, from a bound on their number.
abbrev digits_behind : ℕ → ℕ → ℕ
digits_behind zero n = 0
digits_behind (suc fuel) n =
    let rest = digits_behind fuel (n / 10) in if ltb n 10 then 0 else 1 + rest

abbrev thousands : Option ℕ → Option ℕ
thousands none = none
thousands (some n) = some (n * 1000)

abbrev pub thousandths : Float
thousandths = record {
  F64 = ℕ;
  of_u64 = λ n. n * 1000;
  literal = λ n k. n * 1000 / 10 ^ k;
  add = λ a b. a + b;
  sub = λ a b. a - b;
  mul = λ a b. a * b / 1000;
  div = λ a b. a * 1000 / b;
  log10 = λ a. digits_behind 20 (a / 1000) * 1000;
  exp10 = λ a. 10 ^ (a / 1000) * 1000;
  ceil = λ a. (a + 999) / 1000 * 1000;
  floor = λ a. a / 1000 * 1000;
  round = λ a. (a + 500) / 1000 * 1000;
  to_u64 = λ a. a / 1000;
  as_secs_f64 = λ a. a;
  is_finite = λ a. true;
  lt = ltb;
  le = leb;
  parse = λ s. thousands (parse_uint (2 ^ 64) s);
}

pub leb-not : (a b : ℕ) → leb a b ≡ not (ltb b a)
leb-not a b = ground arith

abbrev pub thousandths-Ieee : Ieee thousandths
thousandths-Ieee = record { is_nan = λ a. false; le_total = λ a b h k. leb-not a b }

abbrev read_first : Text → Option ℕ
read_first [] = none
read_first (n ∷ s) = some n

abbrev pub clock : Chrono
clock = record {
  to_rfc3339 = λ n. n ∷ [];
  to_rfc3339_secs = λ n. n ∷ [];
  parse_rfc3339 = read_first;
  from_std = λ d. some (d * 1_000_000);
  from_timestamp = λ s. some (s * 1_000_000_000);
}

abbrev pub clock-Reads : Reads clock
clock-Reads = record { parse-to = λ n. refl }

-- A clock whose texts are the number of a second, a mark and the nanoseconds behind it.
abbrev read_stamp : Text → Option ℕ
read_stamp (s ∷ c ∷ n ∷ u) = some (s * 1_000_000_000 + n)
read_stamp (s ∷ c ∷ []) = some (s * 1_000_000_000)
read_stamp (s ∷ []) = none
read_stamp [] = none

abbrev pub stamp_clock : Chrono
stamp_clock = record {
  to_rfc3339 = λ n. n / 1_000_000_000 ∷ 43 ∷ n % 1_000_000_000 ∷ [];
  to_rfc3339_secs = λ n. n / 1_000_000_000 ∷ 90 ∷ [];
  parse_rfc3339 = read_stamp;
  from_std = λ d. some (d * 1_000_000);
  from_timestamp = λ s. some (s * 1_000_000_000);
}

abbrev first_of : Text → ℕ
first_of [] = 0
first_of (n ∷ s) = n

pub stamp_clock-Stamps : Stamps stamp_clock
stamp_clock-Stamps = record {
  in_range = λ s instant ts e h. refl;
  injective = λ a b p q e. omega (arith, ap first_of e);
}

pub stamp_clock-Layout : Layout stamp_clock
stamp_clock-Layout = record {
  stem = λ s. s ∷ [];
  mark = λ n. 43;
  rest = λ n. n % 1_000_000_000 ∷ [];
  before_z = λ n. omega arith;
  secs = λ ts. ap (λ n. n ∷ 90 ∷ []) (omega arith);
  full = λ n. refl;
}
