-- ===== src/Scheduler/State.antt =====
-- The loop of `Scheduler::start` of crates/kemuri-server/src/scheduler.rs: the state that its task
-- keeps, the commands, and what a tick does with one check and with all. The set of running rounds
-- and the job queue are shared with the workers.
use kemuri.Base.{ℕ, suc, Bool, true, false, ◌&&◌, if◌then◌else◌, ltb, leb, any, length}
use kemuri.Base.{Option, none, some, List, [], ◌∷◌, ◌++◌, map}
use kemuri.Base.Text.{Text, codes, text_eq}
use kemuri.Base.Float.{Float}
use kemuri.Base.Chrono.{Chrono}
use kemuri.Core.Kinds.{ProbeKind, icmp, http, tcp, dns, probe_kind_eq}
use kemuri.Core.Kinds.{RoundExecutionStatus, skipped_overlap, skipped_backpressure}
use kemuri.Scheduler.Due.{deterministic_offset, advance_due, compute_next_due}
use kemuri.Scheduler.Keys.{Key, contains, insert, remove, get, insert_due, remove_due}

-- The fields of `ResolvedCheckDef` that the scheduler reads; `count` is that of ICMP parameters.
pub record Check : Type 0 where
  pub target_id : Text
  pub check_id : Text
  pub probe_kind : ProbeKind
  pub interval : ℕ
  pub count : Option ℕ

pub record RoundJob : Type 0 where
  pub check : Check
  pub scheduled_at : ℕ

-- A `RoundResult` for a round that did not run.
pub record SkippedRound : Type 0 where
  pub target_id : Text
  pub check_id : Text
  pub scheduled_at : ℕ
  pub execution_status : RoundExecutionStatus
  pub stop_reason : Text
  pub configured_samples : ℕ

pub record ProbeLimits : Type 0 where
  pub icmp_limit : Option ℕ
  pub http_limit : Option ℕ
  pub tcp_limit : Option ℕ
  pub dns_limit : Option ℕ

pub record SchedulerState : Type 0 where
  pub next_due : List (Key × ℕ)
  pub startup_rounds : List Key
  pub active_checks : List Check
  pub paused : Bool
  pub stopped : Bool
  pub running : List Key
  pub queue : List RoundJob
  pub queue_closed : Bool
  pub skipped : List SkippedRound

abbrev pub key_of : Check → Key
key_of check = (check.target_id, check.check_id)

abbrev pub job_key : RoundJob → Key
job_key job = key_of job.check

abbrev pub limit_of : ProbeLimits → ProbeKind → Option ℕ
limit_of limits icmp = limits.icmp_limit
limit_of limits http = limits.http_limit
limit_of limits tcp = limits.tcp_limit
limit_of limits dns = limits.dns_limit

abbrev pub configured_samples_of : Option ℕ → ℕ
configured_samples_of none = 1
configured_samples_of (some count) = count

-- How many running rounds are of the kind of a check, by the active checks.
abbrev pub running_for_probe : ProbeKind → List Check → List Key → ℕ
running_for_probe kind checks [] = 0
running_for_probe kind checks ((target, check) ∷ keys) =
    let rest = running_for_probe kind checks keys in
    if any
      (λ active.
        text_eq active.target_id target
        && (text_eq active.check_id check && probe_kind_eq active.probe_kind kind))
      checks
    then suc rest
    else rest

abbrev pub reaches_limit : Option ℕ → ℕ → Bool
reaches_limit none n = false
reaches_limit (some limit) n = leb limit n

-- What `start` reads of the configuration, with the capacity of the job queue.
pub record SchedulerConfig (f : Float) : Type 0 where
  pub max_concurrent : ℕ
  pub immediate : Bool  -- startup_mode is ImmediateThenAligned
  pub jitter_ratio : f.F64
  pub max_concurrent_by_probe : ProbeLimits
  pub capacity : ℕ

abbrev pub skip_of : Check → ℕ → RoundExecutionStatus → Text → SkippedRound
skip_of check due status reason = record {
  target_id = check.target_id;
  check_id = check.check_id;
  scheduled_at = due;
  execution_status = status;
  stop_reason = reason;
  configured_samples = configured_samples_of check.count;
}

-- The due times of the checks that are gone leave the map.
unfoldable pub remove_gone : List Key → List Key → List (Key × ℕ) → List (Key × ℕ)
remove_gone [] new_keys m = m
remove_gone (k ∷ old_keys) new_keys m =
    let rest = remove_gone old_keys new_keys m in
    if contains k new_keys then rest else remove_due k rest

module _ (f : Float) (t : Chrono) (hash_prefix : Text → Text → ℕ) (config : SchedulerConfig f) where
  abbrev pub offset_of : Check → ℕ
  offset_of check =
      deterministic_offset f hash_prefix check.target_id check.check_id check.interval
        config.jitter_ratio

  -- `next_due_after_attempt`: the due time, and the startup rounds that are left.
  unfoldable pub next_due_after_attempt : List Key → Check → ℕ → ℕ → ℕ × List Key
  next_due_after_attempt startup check now due =
      if contains (key_of check) startup
      then (compute_next_due t now check.interval (offset_of check), remove (key_of check) startup)
      else (advance_due t due check.interval, startup)

  abbrev pub attempted : Check → ℕ → ℕ → SchedulerState → SchedulerState
  attempted check now due s =
      let (next, startup) = next_due_after_attempt s.startup_rounds check now due in
      record s { startup_rounds = startup; next_due = insert_due (key_of check) next s.next_due }

  -- `record_skipped_round`
  abbrev pub record_skipped_round :
      Check → ℕ → RoundExecutionStatus → Text → SchedulerState → SchedulerState
  record_skipped_round check due status reason s = record s {
    skipped = s.skipped ++ (skip_of check due status reason ∷ []);
  }

  abbrev pub skip_round :
      Check → ℕ → ℕ → RoundExecutionStatus → Text → SchedulerState → SchedulerState
  skip_round check now due status reason s =
      attempted check now due (record_skipped_round check due status reason s)

  -- The round enters the running set, then its job the queue; if `try_send` fails, it leaves the set.
  unfoldable pub dispatch_round : Check → ℕ → ℕ → SchedulerState → SchedulerState
  dispatch_round check now due s =
      let started = insert (key_of check) s.running in
      let undone : SchedulerState = record s { running = remove (key_of check) started } in
      let job : RoundJob = record { check = check; scheduled_at = due } in
      let sent : SchedulerState = record s { running = started; queue = s.queue ++ (job ∷ []) } in
      if s.queue_closed
      then record undone { stopped = true }
      else if leb config.capacity (length s.queue)
      then skip_round check now due skipped_backpressure (codes "queue_full") undone
      else attempted check now due sent

  unfoldable pub attempt_round : Check → ℕ → ℕ → SchedulerState → SchedulerState
  attempt_round check now due s =
      if contains (key_of check) s.running
      then skip_round check now due skipped_overlap (codes "overlap") s
      else if leb config.max_concurrent (length s.running)
      then skip_round check now due skipped_backpressure (codes "global_concurrency") s
      else if reaches_limit (limit_of config.max_concurrent_by_probe check.probe_kind)
          (running_for_probe check.probe_kind s.active_checks s.running)
      then skip_round check now due skipped_backpressure (codes "probe_concurrency") s
      else dispatch_round check now due s

  attempt_if_due : Check → ℕ → Option ℕ → SchedulerState → SchedulerState
  attempt_if_due check now none s = s
  attempt_if_due check now (some due) s = if ltb now due then s else attempt_round check now due s

  -- One turn of the loop over the active checks.
  unfoldable pub process_check : ℕ → Check → SchedulerState → SchedulerState
  unfolding attempt_if_due
  process_check now check s = attempt_if_due check now (get (key_of check) s.next_due) s

  -- The loop, which a closed queue breaks.
  unfoldable pub process_checks : ℕ → List Check → SchedulerState → SchedulerState
  process_checks now [] s = s
  process_checks now (check ∷ checks) s =
      if s.stopped then s else process_checks now checks (process_check now check s)

  unfoldable pub tick : ℕ → SchedulerState → SchedulerState
  tick now s = if s.paused then s else process_checks now s.active_checks s

  -- The first due time of a check.
  abbrev pub schedule_check : ℕ → Check → SchedulerState → SchedulerState
  schedule_check now check s =
      if config.immediate
      then record s {
        startup_rounds = insert (key_of check) s.startup_rounds;
        next_due = insert_due (key_of check) now s.next_due;
      }
      else record s {
        next_due =
            insert_due (key_of check) (compute_next_due t now check.interval (offset_of check))
              s.next_due;
      }

  unfoldable pub schedule_checks : ℕ → List Check → SchedulerState → SchedulerState
  schedule_checks now [] s = s
  schedule_checks now (check ∷ checks) s = schedule_checks now checks (schedule_check now check s)

  -- The state in which the task enters its loop.
  unfoldable pub start : ℕ → List Check → SchedulerState
  start now checks = schedule_checks now checks (record {
    next_due = [];
    startup_rounds = [];
    active_checks = checks;
    paused = false;
    stopped = false;
    running = [];
    queue = [];
    queue_closed = false;
    skipped = [];
  })

  unfoldable pub schedule_new : ℕ → List Key → List Check → SchedulerState → SchedulerState
  schedule_new now old_keys [] s = s
  schedule_new now old_keys (check ∷ checks) s =
      schedule_new now old_keys checks
        (if contains (key_of check) old_keys then s else schedule_check now check s)

  -- The command `Reconcile`.
  unfoldable pub reconcile : ℕ → List Check → SchedulerState → SchedulerState
  unfolding remove_gone schedule_new
  reconcile now new_checks s =
      let old_keys = map key_of s.active_checks in
      let pruned : SchedulerState = record s {
        next_due = remove_gone old_keys (map key_of new_checks) s.next_due;
      } in
      record (schedule_new now old_keys new_checks pruned) { active_checks = new_checks }

  -- The command `Pause`.
  unfoldable pub pause : Bool → SchedulerState → SchedulerState
  pause value s = record s { paused = value }
