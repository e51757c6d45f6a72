-- ===== src/Notifications/Backoff.antt =====
-- `compute_backoff` of crates/kemuri-server/src/alerts.rs, in seconds. `random` is the u64 that it
-- draws.
use kemuri.Base.{
  ℕ, ◌+◌, ◌-◌, ◌*◌, ◌%◌, ◌^◌, ◌<◌, ◌≤◌, ◌≡◌, min, arith, false, if◌then◌else◌, ltb, leb,
}
use kemuri.Base.Float.{Float}
use native.Mathlib.Nat.{pow-le-pow_right}

abbrev pub max_retry_attempts : ℕ
max_retry_attempts = 10

abbrev pub u64_bound : ℕ
u64_bound = 2 ^ 64

unfoldable pub compute_backoff : (f : Float) → ℕ → ℕ → ℕ
compute_backoff f random attempt =
    let interval = min (30 * (2 ^ attempt % u64_bound) % u64_bound) 3600 in
    let jitter_range = f.to_u64 (f.mul (f.of_u64 interval) (f.literal 25 2)) in
    let jitter =
      if ltb 0 jitter_range then random % (jitter_range * 2 % u64_bound) - jitter_range else 0 in
    if leb max_retry_attempts attempt
    then 3600
    else min (min (interval + jitter) (u64_bound - 1)) 3600

small_power : (attempt : ℕ) → attempt < 10 → 2 ^ attempt ≤ 512
small_power attempt h =
    let le : 2 ^ attempt ≤ 2 ^ 9 = pow-le-pow_right (omega arith) {j = 9} (omega arith) in
    omega (arith, le)

-- Whatever is drawn, and whatever the floating-point functions answer, the delay before the ten
-- attempts are used up is at least 30 seconds doubled with each attempt, or an hour if that is
-- less, and it is never more than an hour.
pub compute_backoff_bounds :
    (f : Float) (random attempt : ℕ)
    → attempt < max_retry_attempts
    → (min (30 * 2 ^ attempt) 3600 ≤ compute_backoff f random attempt)
      × (compute_backoff f random attempt ≤ 3600)
unfolding compute_backoff
compute_backoff_bounds f random attempt h =
    let small = small_power attempt h in
    let p = 2 ^ attempt in
    let interval = min (30 * (p % u64_bound) % u64_bound) 3600 in
    let same : interval ≡ min (30 * p) 3600 = omega (arith, small) in
    let few : leb max_retry_attempts attempt ≡ false = ground arith in
    rw few (omega (arith, same), omega arith)
