-- ===== src/Scheduler/Overlap.antt =====
-- Which rounds of crates/kemuri-server/src/scheduler.rs and worker.rs are running, and how many.
pub mod Laws
use kemuri.Base.{
  ℕ, zero, suc, ◌+◌, ◌<◌, ◌≤◌, ◌≡◌, ◌∙◌, refl, sym, ap, arith, Bool, true, false, if◌then◌else◌,
}
use kemuri.Base.{
  List, [], ◌∷◌, ◌++◌, map, length, length-append, leb, ltb, Option, none, some, Bool-cases,
  Option-cases, inl, inr,
}
use kemuri.Base.Text.{Text}
use kemuri.Base.Float.{Float}
use kemuri.Base.Chrono.{Chrono}
use kemuri.Scheduler.Keys.{
  Key, key_eq, key_eq_refl, key_eq-path, contains, insert, remove, count, get,
}
use kemuri.Scheduler.Keys.{
  count-contains, count-append, count-remove, count-remove_other, length-remove, remove_absent,
}
use kemuri.Scheduler.Keys.{count_here, count_there}
use kemuri.Scheduler.State.{Check, RoundJob, SchedulerConfig, SchedulerState, key_of, job_key}
use kemuri.Scheduler.State.{limit_of, reaches_limit, running_for_probe}
use kemuri.Scheduler.State.{next_due_after_attempt, dispatch_round, attempt_round, process_check}
use kemuri.Scheduler.State.{
  process_checks, schedule_check, schedule_checks, schedule_new, tick, start, reconcile, pause,
}

-- How often a round's key stands in the queue or with a worker.
abbrev pub in_flight : Key → SchedulerState → List Key → ℕ
in_flight k s executing = count k (map job_key s.queue) + count k executing

pub record IsSound (limit : ℕ) (s : SchedulerState) (executing : List Key) : Type 0 where
  pub counted : (k : Key) → count k s.running ≡ in_flight k s executing
  pub single : (k : Key) → count k s.running ≤ 1
  pub sized : length s.running ≡ length s.queue + length executing
  pub bounded : length s.running ≤ limit

-- Soundness is about the running set and the queue alone.
pub IsSound-same :
    (limit : ℕ) (s s' : SchedulerState) (executing : List Key)
    → s'.running ≡ s.running
    → s'.queue ≡ s.queue
    → IsSound limit s executing
    → IsSound limit s' executing
IsSound-same limit s s' executing r q h = record {
  counted = λ k. rw (r, q) (h.counted k);
  single = λ k. rw r (h.single k);
  sized = rw (r, q) h.sized;
  bounded = rw r h.bounded;
}

length-map : (jobs : List RoundJob) → length (map job_key jobs) ≡ length jobs
length-map [] = refl
length-map (job ∷ jobs) = ap suc (length-map jobs)

map-append : (xs ys : List RoundJob) → map job_key (xs ++ ys) ≡ map job_key xs ++ map job_key ys
map-append [] ys = refl
map-append (x ∷ xs) ys = ap (λ (r : List Key). job_key x ∷ r) (map-append xs ys)

-- A round that starts: its key, not running before, is added to the set and to the queue.
pub IsSound-sent :
    (limit : ℕ) (s s' : SchedulerState) (job : RoundJob) (executing : List Key)
    → count (job_key job) s.running ≡ 0
    → length s.running < limit
    → s'.running ≡ job_key job ∷ s.running
    → s'.queue ≡ s.queue ++ (job ∷ [])
    → IsSound limit s executing
    → IsSound limit s' executing
IsSound-sent limit s s' job executing absent room r q h = record {
  counted = λ k. rw (r, q) (more k);
  single = λ k. rw r (one k);
  sized = rw (r, q) (omega (arith, h.sized, length-append s.queue (job ∷ [])));
  bounded = rw r (omega arith);
}
  where
    queued :
        (k : Key)
        → count k (map job_key (s.queue ++ (job ∷ [])))
          ≡ count k (map job_key s.queue) + count k (job_key job ∷ [])
    queued k = rw (map-append s.queue (job ∷ [])) (count-append k (map job_key s.queue) _)

    more :
        (k : Key)
        → count k (job_key job ∷ s.running)
          ≡ count k (map job_key (s.queue ++ (job ∷ []))) + count k executing
    more k = elim (Bool-cases (key_eq k (job_key job))) [
      | inl e ↦ omega (
        arith,
        queued k,
        h.counted k,
        count_here k _ s.running e,
        count_here k (job_key job) [] e,
      )
      | inr e ↦ omega (
        arith,
        queued k,
        h.counted k,
        count_there k _ s.running e,
        count_there k (job_key job) [] e,
      )
    ]

    one : (k : Key) → count k (job_key job ∷ s.running) ≤ 1
    one k = elim (Bool-cases (key_eq k (job_key job))) [
      | inl e ↦ omega (
        arith,
        ap (λ (j : Key). count j s.running) (key_eq-path k _ e),
        absent,
        count_here k _ s.running e,
      )
      | inr e ↦ rw e (h.single k)
    ]

-- Taking a job moves its key from the queue to the workers.
pub IsSound-taken :
    (limit : ℕ) (s : SchedulerState) (job : RoundJob) (jobs : List RoundJob) (executing : List Key)
    → s.queue ≡ job ∷ jobs
    → IsSound limit s executing
    → IsSound limit (record s { queue = jobs }) (job_key job ∷ executing)
IsSound-taken limit s job jobs executing q h = record {
  counted = moved;
  single = h.single;
  sized = let e : length s.queue ≡ suc (length jobs) = rw q refl in omega (arith, h.sized, e);
  bounded = h.bounded;
}
  where
    moved :
        (k : Key)
        → count k s.running ≡ count k (map job_key jobs) + count k (job_key job ∷ executing)
    moved k =
        let before : count k (map job_key s.queue) ≡ count k (job_key job ∷ map job_key jobs) =
          rw q refl in
        elim (Bool-cases (key_eq k (job_key job))) [
          | inl e ↦ omega (
            arith,
            h.counted k,
            before,
            count_here k _ (map job_key jobs) e,
            count_here k _ executing e,
          )
          | inr e ↦ omega (
            arith,
            h.counted k,
            before,
            count_there k _ (map job_key jobs) e,
            count_there k _ executing e,
          )
        ]

-- Finishing a round takes its key from the workers and from the running set.
pub IsSound-finished :
    (limit : ℕ) (s : SchedulerState) (before : List Key) (key : Key) (behind executing : List Key)
    → executing ≡ before ++ (key ∷ behind)
    → IsSound limit s executing
    → IsSound limit (record s { running = remove key s.running }) (before ++ behind)
IsSound-finished limit s before key behind executing q h = record {
  counted = left;
  single = one;
  sized = omega (
    arith,
    h.sized,
    shorter,
    length-append before behind,
    length-remove key s.running,
    once,
    h.single key,
  );
  bounded = omega (arith, h.bounded, length-remove key s.running);
}
  where
    here : (k : Key) → count k executing ≡ count k before + count k (key ∷ behind)
    here k = rw q (count-append k before (key ∷ behind))

    shorter : length executing ≡ length before + suc (length behind)
    shorter = rw q (length-append before (key ∷ behind))

    once : 1 ≤ count key s.running
    once = omega (arith, h.counted key, here key, count_here key key behind (key_eq_refl key))

    one : (k : Key) → count k (remove key s.running) ≤ 1
    one k = elim (Bool-cases (key_eq k key)) [
      | inl e ↦ rw (key_eq-path k key e) (omega (arith, count-remove key s.running))
      | inr e ↦ omega (arith, count-remove_other k key s.running e, h.single k)
    ]

    left_same :
        (k : Key)
        → k ≡ key
        → count k (remove key s.running)
          ≡ count k (map job_key s.queue) + count k (before ++ behind)
    left_same k e = rw e (
        omega (
          arith,
          count-remove key s.running,
          h.counted key,
          h.single key,
          here key,
          count_here key key behind (key_eq_refl key),
          count-append key before behind,
        ))

    left :
        (k : Key)
        → count k (remove key s.running)
          ≡ count k (map job_key s.queue) + count k (before ++ behind)
    left k = elim (Bool-cases (key_eq k key)) [
      | inl e ↦ left_same k (key_eq-path k key e)
      | inr e ↦ omega (
        arith,
        count-remove_other k key s.running e,
        h.counted k,
        here k,
        count_there k key behind e,
        count-append k before behind,
      )
    ]
