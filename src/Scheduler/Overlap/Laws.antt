-- ===== src/Scheduler/Overlap/Laws.antt =====
-- What every reachable state of the scheduler and its workers keeps.
use kemuri.Base.{ℕ, ◌<◌, ◌≡◌, refl, arith, false}
use kemuri.Base.{List, [], ◌∷◌, map, length, leb, ltb, Bool-cases, Option-cases, inl, inr}
use kemuri.Base.Text.{Text}
use kemuri.Base.Float.{Float}
use kemuri.Base.Chrono.{Chrono}
use kemuri.Scheduler.Keys.{Key, key_eq_refl, contains, insert, remove, get}
use kemuri.Scheduler.Keys.{count-contains, remove_absent}
use kemuri.Scheduler.State.{Check, SchedulerConfig, SchedulerState, key_of}
use kemuri.Scheduler.State.{limit_of, reaches_limit, running_for_probe}
use kemuri.Scheduler.State.{dispatch_round, attempt_round, process_check}
use kemuri.Scheduler.State.{schedule_check, schedule_checks, schedule_new, start, reconcile, pause}
use kemuri.Scheduler.Steps.{
  System, Step, turn, reconciled, paused, taken, finished, Reachable, started, then_step,
}
use kemuri.Scheduler.Overlap.{IsSound, IsSound-same, IsSound-sent, IsSound-taken, IsSound-finished}

module _ (f : Float) (t : Chrono) (hash_prefix : Text → Text → ℕ) (config : SchedulerConfig f) where
  undone_same :
      (check : Check) (s : SchedulerState)
      → contains (key_of check) s.running ≡ false
      → remove (key_of check) (insert (key_of check) s.running) ≡ s.running
  undone_same check s absent =
      let zero_count = count-contains (key_of check) s.running absent in
      rw absent
        (rw (key_eq_refl (key_of check)) (remove_absent (key_of check) s.running zero_count))

  dispatch_round-IsSound :
      (check : Check) (now due : ℕ) (s : SchedulerState) (executing : List Key)
      → contains (key_of check) s.running ≡ false
      → length s.running < config.max_concurrent
      → IsSound config.max_concurrent s executing
      → IsSound config.max_concurrent
          (dispatch_round f t hash_prefix config check now due s)
          executing
  unfolding dispatch_round
  dispatch_round-IsSound check now due s executing absent room h =
      elim (Bool-cases s.queue_closed) [
        | inl closed ↦
            rw closed
              (IsSound-same config.max_concurrent s _ executing (undone_same check s absent) refl h)
        | inr open_queue ↦ rw open_queue (elim (Bool-cases (leb config.capacity (length s.queue))) [
          | inl full ↦
              rw full (
                IsSound-same config.max_concurrent s _ executing (undone_same check s absent) refl
                  h)
          | inr space ↦ rw space (
              IsSound-sent config.max_concurrent s _ (record { check = check; scheduled_at = due })
                executing (count-contains (key_of check) s.running absent) room (rw absent refl)
                refl h)
        ])
      ]

  attempt_round-IsSound :
      (check : Check) (now due : ℕ) (s : SchedulerState) (executing : List Key)
      → IsSound config.max_concurrent s executing
      → IsSound config.max_concurrent
          (attempt_round f t hash_prefix config check now due s)
          executing
  unfolding attempt_round
  attempt_round-IsSound check now due s executing h =
      elim (Bool-cases (contains (key_of check) s.running)) [
        | inl present ↦ rw present (IsSound-same config.max_concurrent s _ executing refl refl h)
        | inr absent ↦ rw absent (elim (Bool-cases (leb config.max_concurrent (length s.running))) [
          | inl most ↦ rw most (IsSound-same config.max_concurrent s _ executing refl refl h)
          | inr room ↦
              rw room
                (elim (Bool-cases (
                  reaches_limit (limit_of config.max_concurrent_by_probe check.probe_kind)
                    (running_for_probe check.probe_kind s.active_checks s.running))) [
                      | inl most ↦
                          rw most (IsSound-same config.max_concurrent s _ executing refl refl h)
                      | inr few ↦
                          rw few (
                            dispatch_round-IsSound check now due s executing absent (ground arith)
                              h)
                    ])
        ])
      ]

  process_check-IsSound :
      (now : ℕ) (check : Check) (s : SchedulerState) (executing : List Key)
      → IsSound config.max_concurrent s executing
      → IsSound config.max_concurrent (process_check f t hash_prefix config now check s) executing
  unfolding process_check
  process_check-IsSound now check s executing h =
      elim (Option-cases (get (key_of check) s.next_due)) [
        | inl e ↦ rw e h
        | inr (due, e) ↦ rw e (elim (Bool-cases (ltb now due)) [
          | inl early ↦ rw early h
          | inr reached ↦ rw reached (attempt_round-IsSound check now due s executing h)
        ])
      ]

  schedule_check-IsSound :
      (now : ℕ) (check : Check) (s : SchedulerState) (executing : List Key)
      → IsSound config.max_concurrent s executing
      → IsSound config.max_concurrent (schedule_check f t hash_prefix config now check s) executing
  schedule_check-IsSound now check s executing h = elim (Bool-cases config.immediate) [
    | inl e ↦ rw e (IsSound-same config.max_concurrent s _ executing refl refl h)
    | inr e ↦ rw e (IsSound-same config.max_concurrent s _ executing refl refl h)
  ]

  schedule_checks-IsSound :
      (now : ℕ) (checks : List Check) (s : SchedulerState) (executing : List Key)
      → IsSound config.max_concurrent s executing
      → IsSound config.max_concurrent
          (schedule_checks f t hash_prefix config now checks s)
          executing
  unfolding schedule_checks
  schedule_checks-IsSound now [] s executing h = h
  schedule_checks-IsSound now (check ∷ checks) s executing h =
      schedule_checks-IsSound now checks _ executing
        (schedule_check-IsSound now check s executing h)

  schedule_new-IsSound :
      (now : ℕ) (old_keys : List Key) (checks : List Check) (s : SchedulerState)
      (executing : List Key)
      → IsSound config.max_concurrent s executing
      → IsSound config.max_concurrent
          (schedule_new f t hash_prefix config now old_keys checks s)
          executing
  unfolding schedule_new
  schedule_new-IsSound now old_keys [] s executing h = h
  schedule_new-IsSound now old_keys (check ∷ checks) s executing h =
      schedule_new-IsSound now old_keys checks _ executing
        (elim (Bool-cases (contains (key_of check) old_keys)) [
          | inl e ↦ rw e h
          | inr e ↦ rw e (schedule_check-IsSound now check s executing h)
        ])

  start-IsSound :
      (now : ℕ) (checks : List Check)
      → IsSound config.max_concurrent (start f t hash_prefix config now checks) []
  unfolding start
  start-IsSound now checks = schedule_checks-IsSound now checks _ [] (record {
    counted = λ k. refl;
    single = λ k. omega arith;
    sized = refl;
    bounded = omega arith;
  })

  reconcile-IsSound :
      (now : ℕ) (checks : List Check) (s : SchedulerState) (executing : List Key)
      → IsSound config.max_concurrent s executing
      → IsSound config.max_concurrent (reconcile f t hash_prefix config now checks s) executing
  unfolding reconcile
  reconcile-IsSound now checks s executing h =
      IsSound-same config.max_concurrent _ _ executing refl refl (
        schedule_new-IsSound now (map key_of s.active_checks) checks _ executing
          (IsSound-same config.max_concurrent s _ executing refl refl h))

  Step-IsSound :
      (y z : System)
      → Step f t hash_prefix config y z
      → IsSound config.max_concurrent y.scheduler y.executing
      → IsSound config.max_concurrent z.scheduler z.executing
  unfolding pause
  Step-IsSound y z (turn now check) h = process_check-IsSound now check y.scheduler y.executing h
  Step-IsSound y z (reconciled now checks) h =
      reconcile-IsSound now checks y.scheduler y.executing h
  Step-IsSound y z (paused value) h =
      IsSound-same config.max_concurrent y.scheduler _ y.executing refl refl h
  Step-IsSound y z (taken job jobs q) h =
      IsSound-taken config.max_concurrent y.scheduler job jobs y.executing q h
  Step-IsSound y z (finished before key behind q) h =
      IsSound-finished config.max_concurrent y.scheduler before key behind y.executing q h

  -- In every order of turns, commands, and takings and finishings by workers, the running set
  -- holds a check exactly as often as the queue and the workers together do, and at most once; and
  -- its size, which is that of the queue and the workers together, stays within `max_concurrent`.
  pub Reachable-IsSound :
      (y : System)
      → Reachable f t hash_prefix config y
      → IsSound config.max_concurrent y.scheduler y.executing
  Reachable-IsSound y (started now checks) = start-IsSound now checks
  Reachable-IsSound y (then_step {y = x} r s) = Step-IsSound x y s (Reachable-IsSound x r)
