-- ===== src/Scheduler/Progress/Reconciled.antt =====
-- The command `Reconcile` of crates/kemuri-server/src/scheduler.rs.
use kemuri.Base.{ℕ, ◌≡◌, ◌∙◌, inl, inr, refl, arith, Bool, true, false, if◌then◌else◌, map}
use kemuri.Base.{List, [], ◌∷◌, none, Bool-cases}
use kemuri.Base.Text.{Text}
use kemuri.Base.Float.{Float}
use kemuri.Base.Chrono.{Chrono}
use kemuri.Scheduler.Keys.{Key, key_eq, key_eq-path, contains, get, remove_due}
use kemuri.Scheduler.Keys.{get-insert_due_other}
use kemuri.Scheduler.State.{Check, SchedulerConfig, SchedulerState, key_of}
use kemuri.Scheduler.State.{schedule_check, remove_gone, schedule_new, reconcile}

get-remove_due : (k : Key) (m : List (Key × ℕ)) → get k (remove_due k m) ≡ none
get-remove_due k [] = refl
get-remove_due k ((x, due) ∷ m) = elim (Bool-cases (key_eq k x)) [
  | inl e ↦ rw e (get-remove_due k m)
  | inr e ↦ rw e (rw e (get-remove_due k m))
]

get-remove_due_other :
    (j k : Key) (m : List (Key × ℕ)) → key_eq j k ≡ false → get j (remove_due k m) ≡ get j m
get-remove_due_other j k [] h = refl
get-remove_due_other j k ((x, due) ∷ m) h = elim (Bool-cases (key_eq k x)) [
  | inl e ↦
      let n : key_eq j x ≡ false = rw (← key_eq-path k x e) h in
      rw e (rw n (get-remove_due_other j k m h))
  | inr e ↦ rw e (elim (Bool-cases (key_eq j x)) [
    | inl d ↦ rw d refl
    | inr d ↦ rw d (get-remove_due_other j k m h)
  ])
]

get-remove_gone_kept :
    (k : Key) (old_keys new_keys : List Key) (m : List (Key × ℕ))
    → contains k new_keys ≡ true
    → get k (remove_gone old_keys new_keys m) ≡ get k m
unfolding remove_gone
get-remove_gone_kept k [] new_keys m h = refl
get-remove_gone_kept k (x ∷ old_keys) new_keys m h = elim (Bool-cases (contains x new_keys)) [
  | inl e ↦ rw e (get-remove_gone_kept k old_keys new_keys m h)
  | inr e ↦ rw e (elim (Bool-cases (key_eq k x)) [
    | inl d ↦ absurd (wrong (rw (key_eq-path k x d) at h) e)
    | inr d ↦ get-remove_due_other k x _ d ∙ get-remove_gone_kept k old_keys new_keys m h
  ])
]
  where
    wrong : {b : Bool} → b ≡ true → b ≡ false → ⊥
    wrong p q = cc

get-remove_gone_lost :
    (k : Key) (old_keys new_keys : List Key) (m : List (Key × ℕ))
    → contains k new_keys ≡ false
    → contains k old_keys ≡ true
    → get k (remove_gone old_keys new_keys m) ≡ none
unfolding remove_gone
get-remove_gone_lost k [] new_keys m h g = absurd (ground arith)
get-remove_gone_lost k (x ∷ old_keys) new_keys m h g = elim (Bool-cases (key_eq k x)) [
  | inl d ↦
      let p = key_eq-path k x d in
      let e : contains x new_keys ≡ false = rw (← p) h in rw e (rw (← p) (get-remove_due k _))
  | inr d ↦
      let rest = get-remove_gone_lost k old_keys new_keys m h (rw d at g) in
      elim (Bool-cases (contains x new_keys)) [
        | inl e ↦ rw e rest
        | inr e ↦ rw e (get-remove_due_other k x _ d ∙ rest)
      ]
]

module _ (f : Float) (t : Chrono) (hash_prefix : Text → Text → ℕ) (config : SchedulerConfig f) where
  get-schedule_check_other :
      (now : ℕ) (k : Key) (check : Check) (s : SchedulerState)
      → key_eq k (key_of check) ≡ false
      → get k (schedule_check f t hash_prefix config now check s).next_due ≡ get k s.next_due
  get-schedule_check_other now k check s h = elim (Bool-cases config.immediate) [
    | inl e ↦ rw e (get-insert_due_other k (key_of check) _ s.next_due h)
    | inr e ↦ rw e (get-insert_due_other k (key_of check) _ s.next_due h)
  ]

  -- Scheduling the new checks leaves the due time of an old one.
  get-schedule_new :
      (now : ℕ) (k : Key) (old_keys : List Key) (checks : List Check) (s : SchedulerState)
      → contains k old_keys ≡ true
      → get k (schedule_new f t hash_prefix config now old_keys checks s).next_due
        ≡ get k s.next_due
  unfolding schedule_new
  get-schedule_new now k old_keys [] s h = refl
  get-schedule_new now k old_keys (check ∷ checks) s h =
      get-schedule_new now k old_keys checks _ h
      ∙ elim (Bool-cases (contains (key_of check) old_keys)) [
        | inl e ↦ rw e refl
        | inr e ↦ rw e (
            get-schedule_check_other now k check s (elim (Bool-cases (key_eq k (key_of check))) [
              | inl d ↦ absurd (wrong (rw (key_eq-path k _ d) at h) e)
              | inr d ↦ d
            ]))
      ]
    where
      wrong : {b : Bool} → b ≡ true → b ≡ false → ⊥
      wrong p q = cc

  -- A new list of checks leaves the due time of each check that was active and still is, and
  -- forgets that of each that was active and is no longer.
  pub get-reconcile :
      (now : ℕ) (k : Key) (checks : List Check) (s : SchedulerState)
      → contains k (map key_of s.active_checks) ≡ true
      → get k (reconcile f t hash_prefix config now checks s).next_due
        ≡ (if contains k (map key_of checks) then get k s.next_due else none)
  unfolding reconcile
  get-reconcile now k checks s h =
      get-schedule_new now k (map key_of s.active_checks) checks _ h
      ∙ elim (Bool-cases (contains k (map key_of checks))) [
        | inl e ↦ rw e (get-remove_gone_kept k (map key_of s.active_checks) _ s.next_due e)
        | inr e ↦ rw e (get-remove_gone_lost k (map key_of s.active_checks) _ s.next_due e h)
      ]
