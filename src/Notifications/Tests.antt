-- ===== src/Notifications/Tests.antt =====
-- The theorems on the notification worker at one entry of the outbox.
use kemuri.Base.{ℕ, ◌*◌, ◌^◌, ◌≤◌, ◌≡◌, refl, arith, min, true, false, none, [], ◌∷◌}
use kemuri.Base.Text.{codes}
use kemuri.Base.Examples.{thousandths, clock}
use kemuri.Core.Ids.{new, accepted}
use kemuri.Alerts.Store.{OutboxRow, Db}
use kemuri.Notifications.Backoff.{compute_backoff, compute_backoff_bounds}
use kemuri.Notifications.Worker.{Answers, process_entry}
use kemuri.Notifications.Laws.{Tried, process_entry-Tried}

abbrev answers : Answers
answers = record {
  configured = λ id. true;
  has_payload = λ id. true;
  sends = λ r. false;
  random = λ id. 77;
}

abbrev entry : OutboxRow
entry = record {
  internal_id = 3;
  entry = record {
    alert_event_internal_id = 8;
    notifier_id = codes "ops";
    status = codes "pending";
    next_attempt_at = 5 ∷ [];
  };
  attempt_count = 4;
  last_error = none;
}

abbrev outbox_db : Db ℕ
outbox_db = record {
  alert_states = [];
  next_state_id = 1;
  alert_events = [];
  next_event_id = 9;
  outbox = entry ∷ [];
  next_outbox_id = 4;
  published = [];
  faults = [];
}

ops-accepted : accepted (new (codes "NotifierId") (codes "ops")) ≡ true
unfolding new
ops-accepted = refl

compute_backoff_bounds_example :
    (min (30 * 2 ^ 4) 3600 ≤ compute_backoff thousandths 77 4)
    × (compute_backoff thousandths 77 4 ≤ 3600)
compute_backoff_bounds_example = compute_backoff_bounds thousandths 77 4 (omega arith)

process_entry-Tried_example :
    Tried thousandths clock answers 9 entry outbox_db
      (process_entry thousandths clock answers 9 entry outbox_db)
process_entry-Tried_example =
    process_entry-Tried thousandths clock answers 9 entry outbox_db ops-accepted refl refl
