-- ===== src/Scheduler/Progress/Turn.antt =====
-- What a turn for one check leaves to the others, in crates/kemuri-server/src/scheduler.rs.
use kemuri.Base.{ℕ, ◌≡◌, ◌⊎◌, ◌∙◌, refl, sym, ap, arith, Bool, true, false, if◌then◌else◌}
use kemuri.Base.{List, [], ◌∷◌, length, leb, ltb, Option, none, some}
use kemuri.Base.{Bool-cases, Option-cases, inl, inr}
use kemuri.Base.Text.{Text}
use kemuri.Base.Float.{Float}
use kemuri.Base.Chrono.{Chrono}
use kemuri.Scheduler.Keys.{
  Key, key_eq, key_eq-path, key_eq_refl, contains, remove, get, get-insert_due_other,
}
use kemuri.Scheduler.State.{Check, SchedulerConfig, SchedulerState, key_of}
use kemuri.Scheduler.State.{limit_of, reaches_limit, running_for_probe, next_due_after_attempt}
use kemuri.Scheduler.Due.{compute_next_due, advance_due}
use kemuri.Scheduler.State.{offset_of, attempted, dispatch_round, attempt_round, process_check}
use kemuri.Scheduler.Progress.Once.{Skipped, Sent, process_check_once}

contains-remove_other :
    (j k : Key) (xs : List Key) → key_eq j k ≡ false → contains j (remove k xs) ≡ contains j xs
contains-remove_other j k [] h = refl
contains-remove_other j k (x ∷ xs) h = elim (Bool-cases (key_eq k x)) [
  | inl e ↦
      let n : key_eq j x ≡ false = rw (← key_eq-path k x e) h in
      rw e (rw n (contains-remove_other j k xs h))
  | inr e ↦ rw e (elim (Bool-cases (key_eq j x)) [
    | inl d ↦ rw d refl
    | inr d ↦ rw d (contains-remove_other j k xs h)
  ])
]

pub key_eq-apart : (j k : Key) → key_eq j k ≡ false → key_eq k j ≡ false
key_eq-apart j k h = elim (Bool-cases (key_eq k j)) [
  | inl e ↦
      let same : key_eq j k ≡ true =
        ap (λ x. key_eq x k) (sym (key_eq-path k j e)) ∙ key_eq_refl k in
      ground (arith, h, same)
  | inr e ↦ e
]

-- What a turn for a check leaves to the others.
pub record Turn (check : Check) (s s' : SchedulerState) : Type 0 where
  pub others_due :
      (j : Key) → key_eq j (key_of check) ≡ false → get j s'.next_due ≡ get j s.next_due
  pub others_startup :
      (j : Key)
      → key_eq j (key_of check) ≡ false
      → contains j s'.startup_rounds ≡ contains j s.startup_rounds
  pub open_still : s'.queue_closed ≡ s.queue_closed

Turn-refl : (check : Check) (s : SchedulerState) → Turn check s s
Turn-refl check s = record {
  others_due = λ j h. refl;
  others_startup = λ j h. refl;
  open_still = refl;
}

module _ (f : Float) (t : Chrono) (hash_prefix : Text → Text → ℕ) (config : SchedulerConfig f) where
  -- An attempt from a state that has the due times of `s`.
  attempted-Turn :
      (check : Check) (now due : ℕ) (s u : SchedulerState)
      → u.next_due ≡ s.next_due
      → u.startup_rounds ≡ s.startup_rounds
      → u.queue_closed ≡ s.queue_closed
      → Turn check s (attempted f t hash_prefix config check now due u)
  unfolding next_due_after_attempt
  attempted-Turn check now due s u n r o = record {
    others_due = λ j h. get-insert_due_other j (key_of check) _ u.next_due h ∙ ap (get j) n;
    others_startup = λ j h.
        elim (Bool-cases (contains (key_of check) u.startup_rounds)) [
          | inl e ↦ rw e (contains-remove_other j (key_of check) u.startup_rounds h)
          | inr e ↦ rw e refl
        ]
        ∙ ap (contains j) r;
    open_still = o;
  }

  dispatch_round-Turn :
      (check : Check) (now due : ℕ) (s : SchedulerState)
      → s.queue_closed ≡ false
      → Turn check s (dispatch_round f t hash_prefix config check now due s)
  unfolding dispatch_round
  dispatch_round-Turn check now due s o =
      simp o (elim (Bool-cases (leb config.capacity (length s.queue))) [
        | inl full ↦ rw full (attempted-Turn check now due s _ refl refl (sym o))
        | inr space ↦ rw space (attempted-Turn check now due s _ refl refl (sym o))
      ])

  attempt_round-Turn :
      (check : Check) (now due : ℕ) (s : SchedulerState)
      → s.queue_closed ≡ false
      → Turn check s (attempt_round f t hash_prefix config check now due s)
  unfolding attempt_round
  attempt_round-Turn check now due s o = elim (Bool-cases (contains (key_of check) s.running)) [
    | inl present ↦ rw present (attempted-Turn check now due s _ refl refl refl)
    | inr absent ↦ rw absent (elim (Bool-cases (leb config.max_concurrent (length s.running))) [
      | inl most ↦ rw most (attempted-Turn check now due s _ refl refl refl)
      | inr room ↦
          rw room
            (elim (Bool-cases (
              reaches_limit (limit_of config.max_concurrent_by_probe check.probe_kind)
                (running_for_probe check.probe_kind s.active_checks s.running))) [
                  | inl most ↦ rw most (attempted-Turn check now due s _ refl refl refl)
                  | inr few ↦ rw few (dispatch_round-Turn check now due s o)
                ])
    ])
  ]

  -- The time at which a check is due at an instant, if it is.
  abbrev pub due_at : ℕ → Option ℕ → Option ℕ
  due_at now none = none
  due_at now (some due) = if ltb now due then none else some due

  -- The due time that a tick leaves, where it was `o`; `first` for a startup round.
  abbrev pub left_from : ℕ → Check → Option ℕ → Bool → Option ℕ
  left_from now check none first = none
  left_from now check (some due) first = some (
      if ltb now due
      then due
      else if first
      then compute_next_due t now check.interval (offset_of f t hash_prefix config check)
      else advance_due t due check.interval)

  module _ (now : ℕ) (s : SchedulerState) where
    abbrev pub due_now : Check → Option ℕ
    due_now check = due_at now (get (key_of check) s.next_due)

    abbrev pub left_due : Check → Option ℕ
    left_due check =
        left_from now check (get (key_of check) s.next_due)
          (contains (key_of check) s.startup_rounds)

  -- The turn for a check, which is due or not.
  pub record OneTurn (check : Check) (now : ℕ) (s s' : SchedulerState) : Type 0 where
    pub turn : Turn check s s'
    pub running_on : s'.stopped ≡ s.stopped
    pub due_left : get (key_of check) s'.next_due ≡ left_due now s check
    pub one :
        ((due_now now s check ≡ none) × (s'.queue ≡ s.queue) × (s'.skipped ≡ s.skipped))
        ⊎ ((due : ℕ) × (due_now now s check ≡ some due)
            × (Sent check due s s' ⊎ Skipped check due s s'))

  pub process_check-OneTurn :
      (now : ℕ) (check : Check) (s : SchedulerState)
      → s.queue_closed ≡ false
      → OneTurn check now s (process_check f t hash_prefix config now check s)
  unfolding process_check
  process_check-OneTurn now check s o = elim (Option-cases (get (key_of check) s.next_due)) [
    | inl e ↦ rw e (record {
      turn = Turn-refl check s;
      running_on = refl;
      due_left = rw e refl;
      one = inl (rw e refl, refl, refl);
    })
    | inr (due, e) ↦ elim (Bool-cases (ltb now due)) [
      | inl early ↦ rw e (
          rw early (record {
            turn = Turn-refl check s;
            running_on = refl;
            due_left = rw e (rw early refl);
            one = inl (rw e (rw early refl), refl, refl);
          }))
      | inr reached ↦
          let tried =
            process_check_once f t hash_prefix config now due check s e (ground (arith, reached))
              o in
          rw e (
            rw reached (record {
              turn = attempt_round-Turn check now due s o;
              running_on = (rw (e, reached) at tried.running_on);
              due_left = rw e (rw reached (rw (e, reached) at tried.next));
              one = inr (due, rw e (rw reached refl), rw (e, reached) at tried.one_record);
            }))
    ]
  ]
