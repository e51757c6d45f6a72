-- ===== src/Scheduler/Progress/Once.antt =====
-- One turn of the loop of crates/kemuri-server/src/scheduler.rs for a check that is due.
use kemuri.Base.{
  ℕ, ◌+◌, ◌*◌, ◌/◌, ◌<◌, ◌≤◌, ◌≡◌, ◌⊎◌, inl, inr, refl, ap, arith, Bool, true, false, if◌then◌else◌,
}
use kemuri.Base.{List, [], ◌∷◌, ◌++◌, length, leb, ltb, some, Bool-cases}
use kemuri.Base.Text.{Text}
use kemuri.Base.Float.{Float}
use kemuri.Base.Chrono.{Chrono}
use kemuri.Core.Kinds.{RoundExecutionStatus, skipped_overlap, skipped_backpressure}
use kemuri.Scheduler.Due.{advance_due, compute_next_due, compute_next_due-slot, InChronoRange}
use kemuri.Scheduler.Keys.{Key, contains, get, insert_due, get-insert_due}
use kemuri.Scheduler.State.{Check, SkippedRound, SchedulerConfig, SchedulerState, key_of}
use kemuri.Scheduler.State.{
  limit_of, reaches_limit, running_for_probe, offset_of, next_due_after_attempt,
}
use kemuri.Scheduler.State.{skip_of, skip_round, dispatch_round, attempt_round, process_check}

-- The round of a check is recorded as skipped, and no job is queued.
pub record Skipped (check : Check) (due : ℕ) (s s' : SchedulerState) : Type 0 where
  pub skip : SkippedRound
  pub skip_added : s'.skipped ≡ s.skipped ++ (skip ∷ [])
  pub skip_target : skip.target_id ≡ check.target_id
  pub skip_check : skip.check_id ≡ check.check_id
  pub skip_due : skip.scheduled_at ≡ due
  pub skip_status :
      skip.execution_status
      ≡ (if contains (key_of check) s.running then skipped_overlap else skipped_backpressure)
  pub no_job : s'.queue ≡ s.queue

-- A job for the round is queued, and nothing is recorded as skipped.
pub record Sent (check : Check) (due : ℕ) (s s' : SchedulerState) : Type 0 where
  pub job_added : s'.queue ≡ s.queue ++ (record { check = check; scheduled_at = due } ∷ [])
  pub no_skip : s'.skipped ≡ s.skipped
  pub not_running : contains (key_of check) s.running ≡ false

module _ (f : Float) (t : Chrono) (hash_prefix : Text → Text → ℕ) (config : SchedulerConfig f) where
  -- The due time that follows an attempt.
  abbrev pub due_after : Check → ℕ → ℕ → SchedulerState → ℕ
  due_after check now due s =
      if contains (key_of check) s.startup_rounds
      then compute_next_due t now check.interval (offset_of f t hash_prefix config check)
      else advance_due t due check.interval

  pub record Attempted (check : Check) (now due : ℕ) (s s' : SchedulerState) : Type 0 where
    pub one_record : Sent check due s s' ⊎ Skipped check due s s'
    pub next : get (key_of check) s'.next_due ≡ some (due_after check now due s)
    pub running_on : s'.stopped ≡ s.stopped

  after_attempt :
      (startup : List Key) (check : Check) (now due : ℕ) (m : List (Key × ℕ))
      → get (key_of check) (
          insert_due
            (key_of check)
            (next_due_after_attempt f t hash_prefix config startup check now due).0
            m)
        ≡ some (
            if contains (key_of check) startup
            then compute_next_due t now check.interval (offset_of f t hash_prefix config check)
            else advance_due t due check.interval)
  unfolding next_due_after_attempt
  after_attempt startup check now due m = elim (Bool-cases (contains (key_of check) startup)) [
    | inl e ↦ rw e (get-insert_due (key_of check) _ m)
    | inr e ↦ rw e (get-insert_due (key_of check) _ m)
  ]

  skipped_round :
      (check : Check) (now due : ℕ) (status : RoundExecutionStatus) (reason : Text)
      (s u : SchedulerState)
      → status
        ≡ (if contains (key_of check) s.running then skipped_overlap else skipped_backpressure)
      → u.skipped ≡ s.skipped
      → u.queue ≡ s.queue
      → u.next_due ≡ s.next_due
      → u.startup_rounds ≡ s.startup_rounds
      → u.stopped ≡ s.stopped
      → Attempted check now due s (skip_round f t hash_prefix config check now due status reason u)
  skipped_round check now due status reason s u e k q n r p = record {
    one_record = inr (record {
      skip = skip_of check due status reason;
      skip_added = ap (λ xs. xs ++ (skip_of check due status reason ∷ [])) k;
      skip_target = refl;
      skip_check = refl;
      skip_due = refl;
      skip_status = e;
      no_job = q;
    });
    next = rw (r, n) (after_attempt s.startup_rounds check now due s.next_due);
    running_on = p;
  }

  dispatch_round-Attempted :
      (check : Check) (now due : ℕ) (s : SchedulerState)
      → contains (key_of check) s.running ≡ false
      → s.queue_closed ≡ false
      → Attempted check now due s (dispatch_round f t hash_prefix config check now due s)
  unfolding dispatch_round
  dispatch_round-Attempted check now due s absent o =
      simp o (elim (Bool-cases (leb config.capacity (length s.queue))) [
        | inl full ↦
            rw full (skipped_round check now due _ _ s _ (rw absent refl) refl refl refl refl refl)
        | inr space ↦ rw space (record {
          one_record = inl (record { job_added = refl; no_skip = refl; not_running = absent });
          next = after_attempt s.startup_rounds check now due s.next_due;
          running_on = refl;
        })
      ])

  attempt_round-Attempted :
      (check : Check) (now due : ℕ) (s : SchedulerState)
      → s.queue_closed ≡ false
      → Attempted check now due s (attempt_round f t hash_prefix config check now due s)
  unfolding attempt_round
  attempt_round-Attempted check now due s o =
      elim (Bool-cases (contains (key_of check) s.running)) [
        | inl present ↦
            rw present
              (skipped_round check now due _ _ s s (rw present refl) refl refl refl refl refl)
        | inr absent ↦ rw absent (elim (Bool-cases (leb config.max_concurrent (length s.running))) [
          | inl most ↦
              rw most
                (skipped_round check now due _ _ s s (rw absent refl) refl refl refl refl refl)
          | inr room ↦
              rw room
                (elim (Bool-cases (
                  reaches_limit (limit_of config.max_concurrent_by_probe check.probe_kind)
                    (running_for_probe check.probe_kind s.active_checks s.running))) [
                      | inl most ↦ rw most (
                          skipped_round check now due _ _ s s (rw absent refl) refl refl refl refl
                            refl)
                      | inr few ↦ rw few (dispatch_round-Attempted check now due s absent o)
                    ])
        ])
      ]

  -- While the job queue is open, the turn for a check that is due either queues exactly one job for
  -- the round or records exactly one skipped round, with the scheduled time: as an overlap exactly
  -- if the check is running, and else as backpressure. Either way the next due time is set, and the
  -- loop goes on.
  pub process_check_once :
      (now due : ℕ) (check : Check) (s : SchedulerState)
      → get (key_of check) s.next_due ≡ some due
      → due ≤ now
      → s.queue_closed ≡ false
      → Attempted check now due s (process_check f t hash_prefix config now check s)
  unfolding process_check
  process_check_once now due check s e le o =
      let reached : ltb now due ≡ false = ground arith in
      rw e (rw reached (attempt_round-Attempted check now due s o))

  -- For an interval of at least a second, an offset below the whole seconds of the interval, and
  -- instants in chrono's range, the turn for a due check with an open queue moves the check's due
  -- time strictly forward, and to at most an interval after the present.
  pub process_check-lt :
      (now due : ℕ) (check : Check) (s : SchedulerState)
      → get (key_of check) s.next_due ≡ some due
      → due ≤ now
      → s.queue_closed ≡ false
      → 0 < check.interval / 1000
      → offset_of f t hash_prefix config check < check.interval / 1000 * 1000
      → t.from_std (offset_of f t hash_prefix config check)
        ≡ some (offset_of f t hash_prefix config check * 1_000_000)
      → t.from_std check.interval ≡ some (check.interval * 1_000_000)
      → InChronoRange t now check.interval
      → (next : ℕ) × (get (key_of check) (process_check f t hash_prefix config now check s).next_due
          ≡ some next)
        × (due < next)
        × (next ≤ now + check.interval * 1_000_000)
  unfolding advance_due
  process_check-lt now due check s e le o pos small off int r =
      let done = process_check_once now due check s e le o in
      let (strictly, most) = later (contains (key_of check) s.startup_rounds) in
      (due_after check now due s, done.next, strictly, most)
    where
      later :
          (first : Bool)
          → let next =
              if first
              then compute_next_due t now check.interval (offset_of f t hash_prefix config check)
              else advance_due t due check.interval in
            (due < next) × (next ≤ now + check.interval * 1_000_000)
      later true =
          let (k, slot, after, most) =
            compute_next_due-slot t now check.interval _ pos small off r in
          (omega (arith, after), omega (arith, most))
      later false = rw int (omega arith, omega arith)
