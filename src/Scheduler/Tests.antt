-- ===== src/Scheduler/Tests.antt =====
-- The theorems on crates/kemuri-server/src/scheduler.rs at a scheduler with two checks.
use kemuri.Base.{
  ℕ, ◌+◌, ◌*◌, ◌/◌, ◌<◌, ◌≤◌, ◌≡◌, refl, arith, true, false, if◌then◌else◌, map, [], ◌∷◌, none,
  some,
}
use kemuri.Base.Text.{Text, codes}
use kemuri.Base.Examples.{thousandths, clock}
use kemuri.Core.Kinds.{icmp, http}
use kemuri.Scheduler.Due.{deterministic_offset, compute_next_due, compute_next_due-slot}
use kemuri.Scheduler.Due.{nanos_per_second}
use kemuri.Scheduler.Keys.{contains, get}
use kemuri.Scheduler.State.{
  Check, SchedulerConfig, SchedulerState, key_of, offset_of, process_check, start, schedule_checks,
  reconcile,
}
use kemuri.Scheduler.Progress.Once.{Attempted, process_check_once, process_check-lt}
use kemuri.Scheduler.Progress.Reconciled.{get-reconcile}
use kemuri.Scheduler.Steps.{System, Reachable, started}
use kemuri.Scheduler.Overlap.{IsSound}
use kemuri.Scheduler.Overlap.Laws.{Reachable-IsSound}

abbrev hash_prefix : Text → Text → ℕ
hash_prefix target check = 12_345

abbrev config : SchedulerConfig thousandths
config = record {
  max_concurrent = 1;
  immediate = true;
  jitter_ratio = 100;
  max_concurrent_by_probe = record {
    icmp_limit = none;
    http_limit = some 1;
    tcp_limit = none;
    dns_limit = none;
  };
  capacity = 8;
}

abbrev ping : Check
ping = record {
  target_id = codes "router";
  check_id = codes "ping";
  probe_kind = icmp;
  interval = 60_000;
  count = some 20;
}

abbrev page : Check
page = record {
  target_id = codes "router";
  check_id = codes "page";
  probe_kind = http;
  interval = 30_000;
  count = none;
}

abbrev now : ℕ
now = 90_000_000_000

abbrev begun : SchedulerState
begun = start thousandths clock hash_prefix config now (ping ∷ page ∷ [])

compute_next_due-slot_example :
    (k : ℕ) × (compute_next_due clock now 60_000 345
      ≡ k * (60_000 / 1000) * nanos_per_second + 345 * 1_000_000)
    × (now < compute_next_due clock now 60_000 345)
    × (compute_next_due clock now 60_000 345 ≤ now + 60_000 / 1000 * nanos_per_second)
compute_next_due-slot_example =
    compute_next_due-slot clock now 60_000 345 (omega arith) (omega arith) refl (λ s h. refl)

begun-due : get (key_of ping) begun.next_due ≡ some now
unfolding start schedule_checks
begun-due = refl

begun-open : begun.queue_closed ≡ false
unfolding start schedule_checks
begun-open = refl

begun-active : contains (key_of ping) (map key_of begun.active_checks) ≡ true
unfolding start schedule_checks
begun-active = refl

ping-offset : offset_of thousandths clock hash_prefix config ping ≡ 345
unfolding deterministic_offset
ping-offset = refl

process_check_once_example :
    Attempted thousandths clock hash_prefix config ping now now begun
      (process_check thousandths clock hash_prefix config now ping begun)
process_check_once_example =
    process_check_once thousandths clock hash_prefix config now now ping begun begun-due
      (omega arith) begun-open

process_check-lt_example :
    (next : ℕ) × (get
        (key_of ping)
        (process_check thousandths clock hash_prefix config now ping begun).next_due
      ≡ some next)
    × (now < next)
    × (next ≤ now + 60_000 * 1_000_000)
process_check-lt_example =
    process_check-lt thousandths clock hash_prefix config now now ping begun begun-due (omega arith)
      begun-open (omega arith) (omega (arith, ping-offset)) refl refl (λ s h. refl)

get-reconcile_example :
    get
      (key_of ping)
      (reconcile thousandths clock hash_prefix config now (page ∷ []) begun).next_due
    ≡ (if contains (key_of ping) (map key_of (page ∷ []))
        then get (key_of ping) begun.next_due
        else none)
get-reconcile_example =
    get-reconcile thousandths clock hash_prefix config now (key_of ping) (page ∷ []) begun
      begun-active

abbrev begun_system : System
begun_system = record { scheduler = begun; executing = [] }

begun_system-Reachable : Reachable thousandths clock hash_prefix config begun_system
begun_system-Reachable = started now (ping ∷ page ∷ [])

Reachable-IsSound_example : IsSound 1 begun_system.scheduler begun_system.executing
Reachable-IsSound_example =
    Reachable-IsSound thousandths clock hash_prefix config begun_system begun_system-Reachable
