-- ===== src/FailureLog.antt =====
-- The FailureLogLimiter of crates/kemuri-server/src/failure_log.rs, which the workers ask whether
-- to log a failure. The map under its lock is an association list; an `Instant` is its nanoseconds,
-- and the count of suppressed failures, a u64, a number.
pub mod Laws
mod Tests
use kemuri.Base.{ℕ, ◌+◌, ◌-◌, ◌*◌, Bool, ◌&&◌, not, if◌then◌else◌, leb}
use kemuri.Base.{Option, none, some, map_or, List, [], ◌∷◌, filter}
use kemuri.Base.Text.{Text, text_eq}

pub record FailureEntry : Type 0 where
  pub last_reported : ℕ
  pub suppressed : ℕ

-- A component and a class.
abbrev pub Key : Type 0
Key = Text × Text

abbrev pub key_eq : Key → Key → Bool
key_eq j k = text_eq j.0 k.0 && text_eq j.1 k.1

abbrev pub Entries : Type 0
Entries = List (Key × FailureEntry)

abbrev pub get : Key → Entries → Option FailureEntry
get key [] = none
get key ((k, e) ∷ m) = let rest = get key m in if key_eq k key then some e else rest

-- `remove`
abbrev pub remove : Key → Entries → Entries
remove key m = filter (λ b. not (key_eq b.0 key)) m

-- `insert`, and the update through `get_mut`.
abbrev pub insert : Key → FailureEntry → Entries → Entries
insert key e m = (key, e) ∷ remove key m

-- REPORT_INTERVAL, 60 seconds.
abbrev pub report_interval : ℕ
report_interval = 60 * 1_000_000_000

module _ (interval now : ℕ) where
  -- What a failure returns, and the entry that it leaves.
  abbrev pub failure_of : Option FailureEntry → Option ℕ × FailureEntry
  failure_of none = (some 0, record { last_reported = now; suppressed = 0 })
  failure_of (some entry) =
      if leb interval (now - entry.last_reported)
      then (some entry.suppressed, record { last_reported = now; suppressed = 0 })
      else (none, record entry { suppressed = entry.suppressed + 1 })

  unfoldable pub failure : Key → Entries → Option ℕ × Entries
  failure key m = let (answer, entry) = failure_of (get key m) in (answer, insert key entry m)

abbrev pub suppressed_of : Option FailureEntry → Option ℕ
suppressed_of none = none
suppressed_of (some entry) = some entry.suppressed

unfoldable pub recovery : Key → Entries → Option ℕ × Entries
recovery key m = (suppressed_of (get key m), remove key m)
