-- ===== src/Alerts/Laws/Diagram.antt =====
-- The diagram of the alert states of crates/kemuri-server/src/alerts.rs, and what a run that follows
-- one of its arrows leaves in the database.
use kemuri.Base.{ℕ, ◌+◌, ◌≡◌, refl, ap, ◌∙◌, Bool, true, false, if◌then◌else◌}
use kemuri.Base.{Option, none, some, [], ◌∷◌, ◌++◌}
use kemuri.Base.Text.{Text, codes}
use kemuri.Base.Float.{Float}
use kemuri.Base.Chrono.{Chrono}
use kemuri.Core.Kinds.{AlertState, normal, pending_fire, firing, pending_clear, alert_state_text}
use kemuri.Core.Kinds.{AlertEventKind, firing_event, resolved_event, alert_event_kind_text}
use kemuri.Alerts.Store.{AlertStateRow, InsertAlertEvent, OutboxRow, Db}
use kemuri.Alerts.Store.{Result, ok, M, return, ◌>>◌, find_row}
use kemuri.Alerts.Store.{upsert_alert_state, insert_alert_event, insert_outbox, publish}
use kemuri.Alerts.Rule.{AlertRuleConfig}
use kemuri.Alerts.Machine.{Evaluator, row_update, emit_event}
use kemuri.Alerts.Machine.{insert_outbox_entry, publish_alert_event}
use kemuri.Alerts.Laws.Rows.{upserted, upsert_then, upserted-faults, upserted-rest}
use kemuri.Alerts.Laws.Rows.{upserted-row, statement_runs}

-- The diagram: the next state and the event that is stored and queued for the notifier. The
-- arguments are the state, the firing and the clear condition, whether the firing and the clear
-- timer have passed, and whether a notification is due again.
unfoldable pub transition :
    AlertState → Bool → Bool → Bool → Bool → Bool → AlertState × Option AlertEventKind
transition normal false clear may_fire may_clear again = (normal, none)
transition normal true clear false may_clear again = (pending_fire, none)
transition normal true clear true may_clear again = (firing, some firing_event)
transition pending_fire false clear may_fire may_clear again = (normal, none)
transition pending_fire true clear false may_clear again = (pending_fire, none)
transition pending_fire true clear true may_clear again = (firing, some firing_event)
transition firing fire false may_fire may_clear false = (firing, none)
transition firing fire false may_fire may_clear true = (firing, some firing_event)
transition firing fire true may_fire false again = (pending_clear, none)
transition firing fire true may_fire true again = (normal, some resolved_event)
transition pending_clear fire false may_fire may_clear again = (firing, none)
transition pending_clear fire true may_fire false again = (pending_clear, none)
transition pending_clear fire true may_fire true again = (normal, some resolved_event)

-- One event with its kind and both states, and one pending entry of the outbox for it.
pub record Notified {F : Type 0} (notifier : Text) (from to : AlertState) (kind : AlertEventKind)
    (db db' : Db F) : Type 0 where
  pub event : InsertAlertEvent F
  pub entry : OutboxRow
  pub event_added :
      db'.alert_events
      ≡ db.alert_events ++ (record { internal_id = db.next_event_id; event = event } ∷ [])
  pub event_kind : event.event_type ≡ alert_event_kind_text kind
  pub event_from : event.from_state ≡ alert_state_text from
  pub event_to : event.to_state ≡ alert_state_text to
  pub entry_added : db'.outbox ≡ db.outbox ++ (entry ∷ [])
  pub entry_event : entry.entry.alert_event_internal_id ≡ db.next_event_id
  pub entry_notifier : entry.entry.notifier_id ≡ notifier
  pub entry_pending : entry.entry.status ≡ codes "pending"
  pub entry_fresh : entry.attempt_count ≡ 0

-- Without an event nothing is stored or queued.
abbrev pub Notifies :
    {F : Type 0} → Text → AlertState → AlertState → Option AlertEventKind → Db F → Db F → Type 0
Notifies notifier from to none db db' =
    (db'.alert_events ≡ db.alert_events) × (db'.outbox ≡ db.outbox)
Notifies notifier from to (some kind) db db' = Notified notifier from to kind db db'

module _ (f : Float) (t : Chrono) (evaluator : Evaluator) (rule : AlertRuleConfig) (check : ℕ) where
  open f use {F64}

  -- The row of the rule and check.
  abbrev pub row_here : Db F64 → Option (AlertStateRow F64)
  row_here db = find_row rule.id check evaluator.observer_internal_id db.alert_states

  -- A run that ends well, with the row in a state and an event or none.
  pub record Ran (from to : AlertState) (event : Option AlertEventKind) (db : Db F64)
      (run : Result (Unit {0}) × Db F64) : Type 0 where
    pub succeeds : run.0 ≡ ok tt
    pub row : AlertStateRow F64
    pub row_there : row_here run.1 ≡ some row
    pub row_state : row.state ≡ alert_state_text to
    pub notifies : Notifies rule.notifier from to event db run.1
    pub steady : run.1.faults ≡ db.faults

  pub quiet :
      (from to : AlertState) (entered : Text) (first last : Option Text) (value : F64) (now : Text)
      (db : Db F64)
      → db.faults ≡ []
      → Ran from to none db (
          (upsert_alert_state (row_update f t evaluator rule check to entered first last value now)
              >> return tt)
            db)
  quiet from to entered first last value now db h =
      let u = row_update f t evaluator rule check to entered first last value now in
      rw (upsert_then u (return tt) db h) (
        let (row, there, holds) = upserted-row u db in
        let (events, next, queue, next', out) = upserted-rest u db in
        record {
          succeeds = refl;
          row = row;
          row_there = there;
          row_state = holds.state_held;
          notifies = (events, queue);
          steady = upserted-faults u db;
        })

  abbrev event_of :
      AlertEventKind → AlertState → AlertState → F64 → F64 → Text → InsertAlertEvent F64
  event_of kind from to value threshold now = record {
    rule_id = rule.id;
    check_internal_id = check;
    observer_internal_id = evaluator.observer_internal_id;
    event_type = alert_event_kind_text kind;
    from_state = alert_state_text from;
    to_state = alert_state_text to;
    metric_value = some value;
    threshold_value = some threshold;
    occurred_at = now;
  }

  abbrev entry_of : Db F64 → OutboxRow
  entry_of db = record {
    internal_id = db.next_outbox_id;
    entry = record {
      alert_event_internal_id = db.next_event_id;
      notifier_id = rule.notifier;
      status = codes "pending";
      next_attempt_at = t.to_rfc3339 evaluator.clock;
    };
    attempt_count = 0;
    last_error = none;
  }

  -- The database after an event and its entry.
  abbrev emitted : InsertAlertEvent F64 → Db F64 → Db F64
  emitted event db = record db {
    alert_events =
        db.alert_events ++ (record { internal_id = db.next_event_id; event = event } ∷ []);
    next_event_id = db.next_event_id + 1;
    outbox = db.outbox ++ (entry_of db ∷ []);
    next_outbox_id = db.next_outbox_id + 1;
  }

  emit_then :
      {B : Type 0} (kind : AlertEventKind) (from to : AlertState) (value threshold : F64)
      (now : Text) (k : M F64 B) (db : Db F64)
      → db.faults ≡ []
      → (emit_event f t evaluator rule check kind from to value threshold now >> k) db
        ≡ k (emitted (event_of kind from to value threshold now) db)
  unfolding emit_event insert_outbox_entry insert_alert_event insert_outbox
  emit_then kind from to value threshold now k db h = rw (statement_runs _ db h) (
      rw
        (statement_runs _
          (record db {
            alert_events =
                db.alert_events
                ++ (record {
                  internal_id = db.next_event_id;
                  event = event_of kind from to value threshold now;
                }
                    ∷ []);
            next_event_id = db.next_event_id + 1;
          })
          h)
        refl)

  -- What may follow an event: it ends well and leaves the tables.
  pub record Harmless (k : M F64 (Unit {0})) : Type 0 where
    pub ends : (db : Db F64) → (k db).0 ≡ ok tt
    pub same_states : (db : Db F64) → (k db).1.alert_states ≡ db.alert_states
    pub same_events : (db : Db F64) → (k db).1.alert_events ≡ db.alert_events
    pub same_outbox : (db : Db F64) → (k db).1.outbox ≡ db.outbox
    pub same_faults : (db : Db F64) → (k db).1.faults ≡ db.faults

  pub return-Harmless : Harmless (return tt)
  return-Harmless = record {
    ends = λ db. refl;
    same_states = λ db. refl;
    same_events = λ db. refl;
    same_outbox = λ db. refl;
    same_faults = λ db. refl;
  }

  pub publish-Harmless :
      (kind : AlertEventKind) → Harmless (publish_alert_event f t evaluator rule check kind)
  unfolding publish_alert_event publish
  publish-Harmless kind = go evaluator.has_event_channel
    where
      go :
          (b : Bool)
          → Harmless (if b then publish (alert_event_kind_text kind, rule.id, check) else return tt)
      go true = record {
        ends = λ db. refl;
        same_states = λ db. refl;
        same_events = λ db. refl;
        same_outbox = λ db. refl;
        same_faults = λ db. refl;
      }
      go false = return-Harmless

  pub loud :
      (kind : AlertEventKind) (from to : AlertState) (entered : Text) (first last : Option Text)
      (value threshold : F64) (now : Text) (k : M F64 (Unit {0})) (db : Db F64)
      → Harmless k
      → db.faults ≡ []
      → Ran from to (some kind) db (
          (upsert_alert_state (row_update f t evaluator rule check to entered first last value now)
              >> (emit_event f t evaluator rule check kind from to value threshold now >> k))
            db)
  loud kind from to entered first last value threshold now k db c h =
      let u = row_update f t evaluator rule check to entered first last value now in
      let event = event_of kind from to value threshold now in
      let after = emitted event (upserted u db) in
      let (row, there, holds) = upserted-row u db in
      let (events, next, queue, next', out) = upserted-rest u db in
      rw (upsert_then u _ db h) (
        rw (emit_then kind from to value threshold now k (upserted u db) (upserted-faults u db ∙ h))
          (record {
            succeeds = c.ends after;
            row = row;
            row_there =
                ap (find_row rule.id check evaluator.observer_internal_id) (c.same_states after)
                ∙ there;
            row_state = holds.state_held;
            notifies = record {
              event = event;
              entry = entry_of (upserted u db);
              event_added = c.same_events after ∙ rw (events, next) refl;
              event_kind = refl;
              event_from = refl;
              event_to = refl;
              entry_added = c.same_outbox after ∙ rw queue refl;
              entry_event = next;
              entry_notifier = refl;
              entry_pending = refl;
              entry_fresh = refl;
            };
            steady = c.same_faults after ∙ upserted-faults u db;
          }))
