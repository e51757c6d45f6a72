-- ===== src/Scheduler/Due.antt =====
-- `compute_next_due`, `advance_due` and `deterministic_offset` of
-- crates/kemuri-server/src/scheduler.rs.
use kemuri.Base.{ℕ, ◌+◌, ◌*◌, ◌/◌, ◌%◌, ◌<◌, ◌≤◌, ◌≡◌, refl, arith, max, true, false}
use kemuri.Base.{if◌then◌else◌, ltb, ltb→lt, ◌==◌, some, unwrap_or, Bool-cases, inl, inr}
use kemuri.Base.Text.{Text}
use kemuri.Base.Float.{Float}
use kemuri.Base.Chrono.{Chrono}
use native.Mathlib.Nat.{mod-lt, div-add-mod'}

abbrev pub nanos_per_second : ℕ
nanos_per_second = 1_000_000_000

-- `hash_prefix` is the first eight bytes of the SHA-256 of both texts, as a u64.
unfoldable pub deterministic_offset : (f : Float) → (Text → Text → ℕ) → Text → Text → ℕ → f.F64 → ℕ
deterministic_offset f hash_prefix target_id check_id interval jitter_ratio =
    let jitter_window = f.to_u64 (f.mul (f.of_u64 interval) jitter_ratio) in
    hash_prefix target_id check_id % max jitter_window 1

-- The offset lies below the jitter window, or is 0 where the window is empty.
pub deterministic_offset-lt :
    (f : Float) (hash_prefix : Text → Text → ℕ) (target_id check_id : Text) (interval : ℕ)
    (jitter_ratio : f.F64)
    → deterministic_offset f hash_prefix target_id check_id interval jitter_ratio
      < max (f.to_u64 (f.mul (f.of_u64 interval) jitter_ratio)) 1
unfolding deterministic_offset
deterministic_offset-lt f hash_prefix target_id check_id interval jitter_ratio =
    mod-lt (hash_prefix target_id check_id) (omega arith)

module _ (t : Chrono) where
  unfoldable pub advance_due : ℕ → ℕ → ℕ
  advance_due due interval = due + unwrap_or (t.from_std interval) 0

  unfoldable pub compute_next_due : ℕ → ℕ → ℕ → ℕ
  compute_next_due after interval offset =
      let interval_secs = interval / 1000 in
      let slot = after / nanos_per_second / interval_secs in
      let shift = unwrap_or (t.from_std offset) 0 in
      let candidate = unwrap_or (t.from_timestamp (slot * interval_secs)) after + shift in
      let next_aligned = unwrap_or (t.from_timestamp ((slot + 1) * interval_secs)) after in
      if interval_secs == 0
      then after
      else if ltb after candidate
      then candidate
      else next_aligned + shift

  -- The instants that `compute_next_due` asks chrono for are in its range.
  abbrev pub InChronoRange : ℕ → ℕ → Type 0
  InChronoRange after interval =
      (s : ℕ)
      → s ≤ after / nanos_per_second + interval / 1000
      → t.from_timestamp s ≡ some (s * nanos_per_second)

  slot_bounds : (a secs : ℕ) → 0 < secs → (a / secs * secs ≤ a) × (a < (a / secs + 1) * secs)
  slot_bounds a secs h =
      (omega (arith, div-add-mod' a secs), omega (arith, div-add-mod' a secs, mod-lt a h))

  module _ (after interval offset : ℕ) (pos : 0 < interval / 1000)
      (small : offset < interval / 1000 * 1000) (o : t.from_std offset ≡ some (offset * 1_000_000))
      (r : InChronoRange after interval) where
    slot : ℕ
    slot = after / nanos_per_second / (interval / 1000)

    first_slot :
        ltb after (slot * (interval / 1000) * nanos_per_second + offset * 1_000_000) ≡ true
        → compute_next_due after interval offset
          ≡ slot * (interval / 1000) * nanos_per_second + offset * 1_000_000
    unfolding compute_next_due slot
    first_slot later =
        let b = slot_bounds (after / nanos_per_second) (interval / 1000) pos in
        let nonzero : (interval / 1000 == 0) ≡ false = ground arith in
        rw (o, r (slot * (interval / 1000)) (omega arith)) (rw (nonzero, later) refl)

    second_slot :
        ltb after (slot * (interval / 1000) * nanos_per_second + offset * 1_000_000) ≡ false
        → compute_next_due after interval offset
          ≡ (slot + 1) * (interval / 1000) * nanos_per_second + offset * 1_000_000
    unfolding compute_next_due slot
    second_slot passed =
        let b = slot_bounds (after / nanos_per_second) (interval / 1000) pos in
        let nonzero : (interval / 1000 == 0) ≡ false = ground arith in
        rw
          (
            o,
            r (slot * (interval / 1000)) (omega arith),
            r ((slot + 1) * (interval / 1000)) (omega arith),
          )
          (rw (nonzero, passed) refl)

    -- For an interval of at least a second, counted in whole seconds without its fraction, an offset
    -- below these seconds, and instants in chrono's range, the next due time is a multiple of these
    -- seconds and the offset, later than the given instant, and later by these seconds at most.
    pub compute_next_due-slot :
        (k : ℕ) × (compute_next_due after interval offset
          ≡ k * (interval / 1000) * nanos_per_second + offset * 1_000_000)
        × (after < compute_next_due after interval offset)
        × (compute_next_due after interval offset ≤ after + interval / 1000 * nanos_per_second)
    unfolding slot
    compute_next_due-slot =
        let b = slot_bounds (after / nanos_per_second) (interval / 1000) pos in
        let candidate : ℕ = slot * (interval / 1000) * nanos_per_second + offset * 1_000_000 in
        elim (Bool-cases (ltb after candidate)) [
          | inl later ↦
              let e = first_slot later in
              (slot, e, rw e (ltb→lt after candidate later), rw e (omega arith))
          | inr passed ↦
              let e = second_slot passed in
              let le : candidate ≤ after = ground arith in
              (slot + 1, e, rw e (omega arith), rw e (omega arith))
        ]
