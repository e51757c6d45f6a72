-- ===== src/Base/Float.antt =====
-- The type `f64` with the operations that the program uses, as a parameter: no floating-point
-- arithmetic is modelled. `Ieee` states what comparisons and a few literals are documented to do.
use kemuri.Base.{ℕ, ◌≡◌, Bool, false, not, Option}
use kemuri.Base.Text.{Text}

pub record Float : Type 1 where
  pub F64 : Type 0
  pub of_u64 : ℕ → F64  -- `n as f64`
  pub literal : ℕ → ℕ → F64  -- the decimal literal n / 10 ^ k
  pub add : F64 → F64 → F64
  pub sub : F64 → F64 → F64
  pub mul : F64 → F64 → F64
  pub div : F64 → F64 → F64
  pub log10 : F64 → F64
  pub exp10 : F64 → F64  -- `10f64.powf(x)`
  pub ceil : F64 → F64
  pub floor : F64 → F64
  pub round : F64 → F64
  pub to_u64 : F64 → ℕ  -- `x as u64` and `x as usize`, which saturate
  pub as_secs_f64 : ℕ → F64  -- `Duration::as_secs_f64` of a number of milliseconds
  pub is_finite : F64 → Bool
  pub lt : F64 → F64 → Bool
  pub le : F64 → F64 → Bool
  pub parse : Text → Option F64  -- `str::parse::<f64>().ok()`

-- `is_nan`, and the order of values that are not NaN.
pub record Ieee (f : Float) : Type 0 where
  pub is_nan : f.F64 → Bool
  pub le_total : (a b : f.F64) → is_nan a ≡ false → is_nan b ≡ false → f.le a b ≡ not (f.lt b a)
