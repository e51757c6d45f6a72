-- ===== src/Alerts/Store.antt =====
-- The tables alert_states, alert_events and notification_outbox, with the statements of
-- crates/kemuri-storage/src/repos/alert_state_repo.rs and notification_outbox_repo.rs that the
-- evaluator runs. SQLite's AUTOINCREMENT is a counter for each table. Every statement may fail: it
-- takes an entry of `faults`, and on `true` it changes nothing and returns the error.
use kemuri.Base.{ℕ, ◌+◌, Bool, true, false, ◌&&◌, if◌then◌else◌, ◌==◌}
use kemuri.Base.{Option, none, some, List, [], ◌∷◌, ◌++◌}
use kemuri.Base.Text.{Text, text_eq}

pub record AlertStateRow (F : Type 0) : Type 0 where
  pub internal_id : ℕ
  pub rule_id : Text
  pub check_internal_id : ℕ
  pub observer_internal_id : ℕ
  pub state : Text
  pub state_entered_at : Text
  pub first_condition_true_at : Option Text
  pub last_evaluated_at : Option Text
  pub last_notification_at : Option Text
  pub fingerprint : Option Text
  pub last_metric_value : Option F

pub record UpsertAlertState (F : Type 0) : Type 0 where
  pub rule_id : Text
  pub check_internal_id : ℕ
  pub observer_internal_id : ℕ
  pub state : Text
  pub state_entered_at : Text
  pub first_condition_true_at : Option Text
  pub last_evaluated_at : Option Text
  pub last_notification_at : Option Text
  pub fingerprint : Option Text
  pub last_metric_value : Option F

pub record InsertAlertEvent (F : Type 0) : Type 0 where
  pub rule_id : Text
  pub check_internal_id : ℕ
  pub observer_internal_id : ℕ
  pub event_type : Text
  pub from_state : Text
  pub to_state : Text
  pub metric_value : Option F
  pub threshold_value : Option F
  pub occurred_at : Text

-- A row of alert_events is its key and what was inserted.
pub record AlertEventRow (F : Type 0) : Type 0 where
  pub internal_id : ℕ
  pub event : InsertAlertEvent F

pub record InsertNotificationOutbox : Type 0 where
  pub alert_event_internal_id : ℕ
  pub notifier_id : Text
  pub status : Text
  pub next_attempt_at : Text

pub record OutboxRow : Type 0 where
  pub internal_id : ℕ
  pub entry : InsertNotificationOutbox
  pub attempt_count : ℕ
  pub last_error : Option Text

pub record Db (F : Type 0) : Type 0 where
  pub alert_states : List (AlertStateRow F)
  pub next_state_id : ℕ
  pub alert_events : List (AlertEventRow F)
  pub next_event_id : ℕ
  pub outbox : List OutboxRow
  pub next_outbox_id : ℕ
  pub published : List (Text × Text × ℕ)  -- kind, rule and check of each published event
  pub faults : List Bool

-- `sqlx::Error` has one value here.
pub data Result (A : Type 0) : Type 0 where
  ok : A → Result A
  err : Result A

abbrev pub M : Type 0 → Type 0 → Type 0
M F A = Db F → Result A × Db F

module _ {F : Type 0} where
  abbrev pub return : {A : Type 0} → A → M F A
  return a db = (ok a, db)

  abbrev pub continue_with : {A B : Type 0} → (A → M F B) → Result A × Db F → Result B × Db F
  continue_with k (ok a, db) = k a db
  continue_with k (err, db) = (err, db)

  infixl 5 ◌>>=◌ ◌>>◌
  abbrev pub ◌>>=◌ : {A B : Type 0} → M F A → (A → M F B) → M F B
  ◌>>=◌ m k db = continue_with k (m db)

  abbrev pub ◌>>◌ : {A B : Type 0} → M F A → M F B → M F B
  m >> k = m >>= λ _. k

  -- One statement.
  abbrev pub run_statement : {A : Type 0} → List Bool → (Db F → A × Db F) → M F A
  run_statement [] act db = (ok (act db).0, (act db).1)
  run_statement (false ∷ fs) act db = (ok (act db).0, record (act db).1 { faults = fs })
  run_statement (true ∷ fs) act db = (err, record db { faults = fs })

  abbrev pub statement : {A : Type 0} → (Db F → A × Db F) → M F A
  statement act db = run_statement db.faults act db

  -- The columns of `UNIQUE(rule_id, check_internal_id, observer_internal_id)`.
  abbrev pub row_matches : Text → ℕ → ℕ → AlertStateRow F → Bool
  row_matches rule check observer row =
      text_eq row.rule_id rule
      && row.check_internal_id == check
      && row.observer_internal_id == observer

  abbrev pub find_row : Text → ℕ → ℕ → List (AlertStateRow F) → Option (AlertStateRow F)
  find_row rule check observer [] = none
  find_row rule check observer (row ∷ rows) =
      if row_matches rule check observer row then some row else find_row rule check observer rows

  -- `AlertStateRepo::get`
  unfoldable pub get_alert_state : Text → ℕ → ℕ → M F (Option (AlertStateRow F))
  get_alert_state rule check observer =
      statement (λ db. (find_row rule check observer db.alert_states, db))

  -- The columns that an upsert writes, over a key.
  abbrev pub row_of : ℕ → UpsertAlertState F → AlertStateRow F
  row_of id u = record {
    internal_id = id;
    rule_id = u.rule_id;
    check_internal_id = u.check_internal_id;
    observer_internal_id = u.observer_internal_id;
    state = u.state;
    state_entered_at = u.state_entered_at;
    first_condition_true_at = u.first_condition_true_at;
    last_evaluated_at = u.last_evaluated_at;
    last_notification_at = u.last_notification_at;
    fingerprint = u.fingerprint;
    last_metric_value = u.last_metric_value;
  }

  -- The `UPDATE`, which leaves the key and the unique columns.
  abbrev pub updated : AlertStateRow F → UpsertAlertState F → AlertStateRow F
  updated row u = record row {
    state = u.state;
    state_entered_at = u.state_entered_at;
    first_condition_true_at = u.first_condition_true_at;
    last_evaluated_at = u.last_evaluated_at;
    last_notification_at = u.last_notification_at;
    fingerprint = u.fingerprint;
    last_metric_value = u.last_metric_value;
  }

  abbrev pub update_rows : ℕ → UpsertAlertState F → List (AlertStateRow F) → List (AlertStateRow F)
  update_rows id u [] = []
  update_rows id u (row ∷ rows) =
      (if row.internal_id == id then updated row u else row) ∷ update_rows id u rows

  update_state : ℕ → UpsertAlertState F → M F ℕ
  update_state id u =
      statement (λ db. (id, record db { alert_states = update_rows id u db.alert_states }))

  insert_state : UpsertAlertState F → M F ℕ
  insert_state u = statement (λ db. (
    db.next_state_id,
    record db {
      alert_states = db.alert_states ++ (row_of db.next_state_id u ∷ []);
      next_state_id = db.next_state_id + 1;
    },
  ))

  unfoldable pub write_state : UpsertAlertState F → Option (AlertStateRow F) → M F ℕ
  unfolding update_state insert_state
  write_state u (some row) = update_state row.internal_id u
  write_state u none = insert_state u

  -- `AlertStateRepo::upsert`: a query, then an update or an insertion.
  unfoldable pub upsert_alert_state : UpsertAlertState F → M F ℕ
  upsert_alert_state u = do
    existing ← get_alert_state u.rule_id u.check_internal_id u.observer_internal_id
    write_state u existing

  -- `AlertEventRepo::insert`
  unfoldable pub insert_alert_event : InsertAlertEvent F → M F ℕ
  insert_alert_event event = statement (λ db. (
    db.next_event_id,
    record db {
      alert_events =
          db.alert_events ++ (record { internal_id = db.next_event_id; event = event } ∷ []);
      next_event_id = db.next_event_id + 1;
    },
  ))

  -- `NotificationOutboxRepo::insert`
  unfoldable pub insert_outbox : InsertNotificationOutbox → M F ℕ
  insert_outbox entry = statement (λ db. (
    db.next_outbox_id,
    record db {
      outbox =
          db.outbox
          ++ (record {
            internal_id = db.next_outbox_id;
            entry = entry;
            attempt_count = 0;
            last_error = none;
          }
              ∷ []);
      next_outbox_id = db.next_outbox_id + 1;
    },
  ))

  -- The request to publish an event, which no one waits for.
  unfoldable pub publish : Text × Text × ℕ → M F (Unit {0})
  publish event db = (ok tt, record db { published = db.published ++ (event ∷ []) })
