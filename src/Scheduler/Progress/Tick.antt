-- ===== src/Scheduler/Progress/Tick.antt =====
-- A tick of crates/kemuri-server/src/scheduler.rs over all active checks.
use kemuri.Base.{ℕ, ◌≡◌, false}
use kemuri.Base.{List, [], ◌∷◌, ◌++◌, map, All, none, some}
use kemuri.Base.Text.{Text}
use kemuri.Base.Float.{Float}
use kemuri.Base.Chrono.{Chrono}
use kemuri.Scheduler.Keys.{Key, contains, get}
use kemuri.Scheduler.State.{Check, RoundJob, SkippedRound, SchedulerConfig, SchedulerState, key_of}
use kemuri.Scheduler.Progress.Turn.{Turn, due_now, left_due}

-- Different keys.
abbrev pub Distinct : List Check → Type 0
Distinct [] = Unit {0}
Distinct (c ∷ checks) = (contains (key_of c) (map key_of checks) ≡ false) × Distinct checks

module _ (f : Float) (t : Chrono) (hash_prefix : Text → Text → ℕ) (config : SchedulerConfig f) where
  module _ (now : ℕ) (s : SchedulerState) where
    -- Each check that is due has one job or one skipped round, with its due time, and no other check
    -- has one; both in the order of the checks.
    pub data Handled : List Check → List RoundJob → List SkippedRound → Type 0 where
      done : Handled [] [] []
      waits :
          {check : Check} {checks : List Check} {jobs : List RoundJob} {skips : List SkippedRound}
          → due_now f t hash_prefix config now s check ≡ none
          → Handled checks jobs skips
          → Handled (check ∷ checks) jobs skips
      queued :
          (due : ℕ) {check : Check} {checks : List Check} {jobs : List RoundJob}
          {skips : List SkippedRound}
          → due_now f t hash_prefix config now s check ≡ some due
          → Handled checks jobs skips
          → Handled (check ∷ checks) (record { check = check; scheduled_at = due } ∷ jobs) skips
      passed :
          (due : ℕ) (skip : SkippedRound) {check : Check} {checks : List Check}
          {jobs : List RoundJob} {skips : List SkippedRound}
          → due_now f t hash_prefix config now s check ≡ some due
          → skip.target_id ≡ check.target_id
          → skip.check_id ≡ check.check_id
          → skip.scheduled_at ≡ due
          → Handled checks jobs skips
          → Handled (check ∷ checks) jobs (skip ∷ skips)

  -- What the turns for the checks lead to, from `s` to `s'`; `z` is the state before the tick.
  pub record Ticked (now : ℕ) (z : SchedulerState) (checks : List Check) (s s' : SchedulerState)
      : Type 0 where
    pub jobs : List RoundJob
    pub skips : List SkippedRound
    pub handled : Handled now z checks jobs skips
    pub queue_grown : s'.queue ≡ s.queue ++ jobs
    pub skipped_grown : s'.skipped ≡ s.skipped ++ skips
    pub dues_left :
        All (λ c. get (key_of c) s'.next_due ≡ left_due f t hash_prefix config now z c) checks
    pub others_left :
        (j : Key) → contains j (map key_of checks) ≡ false → get j s'.next_due ≡ get j s.next_due

  abbrev SameDue : SchedulerState → SchedulerState → Check → Type 0
  SameDue z s c =
      (get (key_of c) s.next_due ≡ get (key_of c) z.next_due)
      × (contains (key_of c) s.startup_rounds ≡ contains (key_of c) z.startup_rounds)
