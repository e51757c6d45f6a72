-- ===== src/Base/Chrono.antt =====
-- The parts of the chrono crate that the program uses, as a parameter. An instant is its
-- nanoseconds since the Unix epoch (none before it is modelled), and a `std` duration its
-- milliseconds.
use kemuri.Base.{ℕ, ◌*◌, ◌/◌, ◌≤◌, ◌<◌, ◌≡◌, ◌∷◌, ◌++◌, Option, some}
use kemuri.Base.Text.{Text, codes}

pub record Chrono : Type 0 where
  pub to_rfc3339 : ℕ → Text
  pub to_rfc3339_secs : ℕ → Text  -- an instant in whole seconds, with `Z` for the offset
  pub parse_rfc3339 : Text → Option ℕ
  pub from_std : ℕ → Option ℕ  -- nanoseconds, unless the duration is out of chrono's range
  pub from_timestamp : ℕ → Option ℕ  -- the instant of a number of seconds, if it is in range

-- What is printed is read back.
pub record Reads (t : Chrono) : Type 0 where
  pub parse-to : (n : ℕ) → t.parse_rfc3339 (t.to_rfc3339 n) ≡ some n

abbrev pub nanos_per_sec : ℕ
nanos_per_sec = 1_000_000_000

-- The instant of a number of seconds is in range.
abbrev pub HasInstant : Chrono → ℕ → Type 0
HasInstant t ts = t.from_timestamp ts ≡ some (ts * nanos_per_sec)

-- What is read is in range, and so is all between the epoch and it; and whole seconds are printed
-- in different ways.
pub record Stamps (t : Chrono) : Type 0 where
  pub in_range :
      (s : Text) (instant ts : ℕ)
      → t.parse_rfc3339 s ≡ some instant
      → ts ≤ instant / nanos_per_sec
      → HasInstant t ts
  pub injective :
      (a b : ℕ)
      → HasInstant t a
      → HasInstant t b
      → t.to_rfc3339_secs (a * nanos_per_sec) ≡ t.to_rfc3339_secs (b * nanos_per_sec)
      → a ≡ b

-- The two ways of printing an instant share the text of the whole second; behind it there is `Z`,
-- or else a fraction or the offset `+00:00`, with a first character before `Z`.
pub record Layout (t : Chrono) : Type 0 where
  pub stem : ℕ → Text
  pub mark : ℕ → ℕ
  pub rest : ℕ → Text
  pub before_z : (instant : ℕ) → mark instant < 90
  pub secs : (ts : ℕ) → t.to_rfc3339_secs (ts * nanos_per_sec) ≡ stem ts ++ codes "Z"
  pub full :
      (instant : ℕ)
      → t.to_rfc3339 instant ≡ stem (instant / nanos_per_sec) ++ (mark instant ∷ rest instant)
