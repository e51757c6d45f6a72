-- ===== src/Scheduler/Steps.antt =====
-- Scheduler and workers of crates/kemuri-server/src/scheduler.rs and worker.rs together, as steps
-- in any order. A turn for one check is one step.
use kemuri.Base.{ℕ, ◌≡◌, Bool}
use kemuri.Base.{List, [], ◌∷◌, ◌++◌}
use kemuri.Base.Text.{Text}
use kemuri.Base.Float.{Float}
use kemuri.Base.Chrono.{Chrono}
use kemuri.Scheduler.Keys.{Key, remove}
use kemuri.Scheduler.State.{Check, RoundJob, SchedulerConfig, SchedulerState, job_key}
use kemuri.Scheduler.State.{process_check}
use kemuri.Scheduler.State.{start, reconcile, pause}

-- The scheduler's state with the rounds that workers have taken from the queue.
pub record System : Type 0 where
  pub scheduler : SchedulerState
  pub executing : List Key

-- A worker takes the job at the head of the queue.
abbrev pub take_job : RoundJob → List RoundJob → System → System
take_job job jobs y = record {
  scheduler = record y.scheduler { queue = jobs };
  executing = job_key job ∷ y.executing;
}

-- A worker has executed a round: its key leaves the running set.
abbrev pub finish_round : Key → List Key → System → System
finish_round key others y = record {
  scheduler = record y.scheduler { running = remove key y.scheduler.running };
  executing = others;
}

module _ (f : Float) (t : Chrono) (hash_prefix : Text → Text → ℕ) (config : SchedulerConfig f) where
  -- One turn for a check, a command, or a worker's taking or finishing of a round.
  pub data Step : System → System → Type 0 where
    turn :
        (now : ℕ) (check : Check) {y : System}
        → Step y
            (record y { scheduler = process_check f t hash_prefix config now check y.scheduler })
    reconciled :
        (now : ℕ) (checks : List Check) {y : System}
        → Step y (record y { scheduler = reconcile f t hash_prefix config now checks y.scheduler })
    paused :
        (value : Bool) {y : System}
        → Step y (record y { scheduler = pause f t hash_prefix config value y.scheduler })
    taken :
        (job : RoundJob) (jobs : List RoundJob) {y : System}
        → y.scheduler.queue ≡ job ∷ jobs
        → Step y (take_job job jobs y)
    finished :
        (before : List Key) (key : Key) (behind : List Key) {y : System}
        → y.executing ≡ before ++ (key ∷ behind)
        → Step y (finish_round key (before ++ behind) y)

  pub data Reachable : System → Type 0 where
    started :
        (now : ℕ) (checks : List Check)
        → Reachable (record { scheduler = start f t hash_prefix config now checks; executing = [] })
    then_step : {y z : System} → Reachable y → Step y z → Reachable z
