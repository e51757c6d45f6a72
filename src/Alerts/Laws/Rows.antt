-- ===== src/Alerts/Laws/Rows.antt =====
-- What the statements of Alerts/Store do when none of them fails.
use kemuri.Base.{ℕ, ◌+◌, ◌≡◌, refl, ap, ◌∙◌, Bool, true, false, ◌==◌}
use kemuri.Base.{
  Option, none, some, List, [], ◌∷◌, ◌++◌, Bool-cases, inl, inr, ==_refl, Option-cases,
}
use mathlib.Core.Path.{subst}
use kemuri.Base.Text.{text_eq_refl}
use kemuri.Alerts.Store.{AlertStateRow, UpsertAlertState, Db, ok, err, M}
use kemuri.Alerts.Store.{row_matches, find_row, get_alert_state, row_of, updated, update_rows}
use kemuri.Alerts.Store.{
  upsert_alert_state, statement, run_statement, continue_with, write_state, ◌>>◌,
}

module _ {F : Type 0} where
  -- The row under the key of an upsert.
  abbrev pub row_for : UpsertAlertState F → List (AlertStateRow F) → Option (AlertStateRow F)
  row_for u rows = find_row u.rule_id u.check_internal_id u.observer_internal_id rows

  abbrev written : UpsertAlertState F → Db F → Option (AlertStateRow F) → Db F
  written u db none = record db {
    alert_states = db.alert_states ++ (row_of db.next_state_id u ∷ []);
    next_state_id = db.next_state_id + 1;
  }
  written u db (some row) = record db {
    alert_states = update_rows row.internal_id u db.alert_states;
  }

  -- The database after an upsert.
  abbrev pub upserted : UpsertAlertState F → Db F → Db F
  upserted u db = written u db (row_for u db.alert_states)

  key_of : UpsertAlertState F → Option (AlertStateRow F) → ℕ → ℕ
  key_of u none next = next
  key_of u (some row) next = row.internal_id

  pub statement_runs :
      {A : Type 0} (act : Db F → A × Db F) (db : Db F)
      → db.faults ≡ []
      → statement act db ≡ (ok (act db).0, (act db).1)
  statement_runs act db h = ap (λ (fs : List Bool). run_statement fs act db) h

  write_runs :
      (u : UpsertAlertState F) (o : Option (AlertStateRow F)) (db : Db F)
      → db.faults ≡ []
      → write_state u o db ≡ (ok (key_of u o db.next_state_id), written u db o)
  unfolding write_state key_of
  write_runs u none db h = statement_runs _ db h
  write_runs u (some row) db h = statement_runs _ db h

  -- What follows an upsert runs on the database that it leaves.
  pub upsert_then :
      {B : Type 0} (u : UpsertAlertState F) (k : M F B) (db : Db F)
      → db.faults ≡ []
      → (upsert_alert_state u >> k) db ≡ k (upserted u db)
  unfolding upsert_alert_state get_alert_state
  upsert_then u k db h =
      rw (statement_runs _ db h)
        (ap (continue_with (λ (id : ℕ). k)) (write_runs u (row_for u db.alert_states) db h))

  pub statement_steps :
      {A : Type 0} (act : Db F → A × Db F) (db : Db F) (fs : List Bool)
      → db.faults ≡ false ∷ fs
      → statement act db ≡ (ok (act db).0, record (act db).1 { faults = fs })
  statement_steps act db fs h = ap (λ (gs : List Bool). run_statement gs act db) h

  pub statement_fails :
      {A : Type 0} (act : Db F → A × Db F) (db : Db F) (fs : List Bool)
      → db.faults ≡ true ∷ fs
      → statement act db ≡ (err, record db { faults = fs })
  statement_fails act db fs h = ap (λ (gs : List Bool). run_statement gs act db) h

  write_steps :
      (u : UpsertAlertState F) (o : Option (AlertStateRow F)) (db : Db F) (fs : List Bool)
      → db.faults ≡ false ∷ fs
      → write_state u o db
        ≡ (ok (key_of u o db.next_state_id), record (written u db o) { faults = fs })
  unfolding write_state key_of
  write_steps u none db fs h = statement_steps _ db fs h
  write_steps u (some row) db fs h = statement_steps _ db fs h

  written_faults :
      (u : UpsertAlertState F) (o : Option (AlertStateRow F)) (db : Db F) (fs gs : List Bool)
      → Path
          (Db F)
          (record (written u (record db { faults = gs }) o) { faults = fs })
          (record (written u db o) { faults = fs })
  written_faults u none db fs gs = refl
  written_faults u (some row) db fs gs = refl

  -- The same where the first two statements succeed and others may fail.
  pub upsert_step :
      {B : Type 0} (u : UpsertAlertState F) (k : M F B) (db : Db F) (fs : List Bool)
      → db.faults ≡ false ∷ false ∷ fs
      → (upsert_alert_state u >> k) db ≡ k (record (upserted u db) { faults = fs })
  unfolding upsert_alert_state get_alert_state
  upsert_step u k db fs h = rw (statement_steps _ db (false ∷ fs) h) (
      ap (continue_with (λ (id : ℕ). k))
        (write_steps u (row_for u db.alert_states) (record db { faults = false ∷ fs }) fs refl)
      ∙ ap k (written_faults u (row_for u db.alert_states) db fs (false ∷ fs)))

  pub upserted-faults : (u : UpsertAlertState F) (db : Db F) → (upserted u db).faults ≡ db.faults
  upserted-faults u db = go (row_for u db.alert_states)
    where
      go : (o : Option (AlertStateRow F)) → (written u db o).faults ≡ db.faults
      go none = refl
      go (some row) = refl

  pub upserted-rest :
      (u : UpsertAlertState F) (db : Db F)
      → ((upserted u db).alert_events ≡ db.alert_events)
        × ((upserted u db).next_event_id ≡ db.next_event_id)
        × ((upserted u db).outbox ≡ db.outbox)
        × ((upserted u db).next_outbox_id ≡ db.next_outbox_id)
        × ((upserted u db).published ≡ db.published)
  upserted-rest u db = go (row_for u db.alert_states)
    where
      go :
          (o : Option (AlertStateRow F))
          → ((written u db o).alert_events ≡ db.alert_events)
            × ((written u db o).next_event_id ≡ db.next_event_id)
            × ((written u db o).outbox ≡ db.outbox)
            × ((written u db o).next_outbox_id ≡ db.next_outbox_id)
            × ((written u db o).published ≡ db.published)
      go none = (refl, refl, refl, refl, refl)
      go (some row) = (refl, refl, refl, refl, refl)

  -- What an upsert leaves in the row under its key, whatever stood there.
  pub record Holds (u : UpsertAlertState F) (row : AlertStateRow F) : Type 0 where
    pub state_held : row.state ≡ u.state
    pub entered_held : row.state_entered_at ≡ u.state_entered_at
    pub first_held : row.first_condition_true_at ≡ u.first_condition_true_at
    pub last_held : row.last_notification_at ≡ u.last_notification_at

  row_of-matches :
      (id : ℕ) (u : UpsertAlertState F)
      → row_matches u.rule_id u.check_internal_id u.observer_internal_id (row_of id u) ≡ true
  row_of-matches id u =
      rw (text_eq_refl u.rule_id, ==_refl u.check_internal_id, ==_refl u.observer_internal_id) refl

  find_row-append :
      (u : UpsertAlertState F) (id : ℕ) (rows : List (AlertStateRow F))
      → row_for u rows ≡ none
      → row_for u (rows ++ (row_of id u ∷ [])) ≡ some (row_of id u)
  find_row-append u id [] h = rw (row_of-matches id u) refl
  find_row-append u id (r ∷ rows) h =
      elim (Bool-cases (row_matches u.rule_id u.check_internal_id u.observer_internal_id r)) [
        | inl e ↦ absurd (none_some (rw e at h))
        | inr e ↦ rw e (find_row-append u id rows (rw e at h))
      ]
    where
      none_some : some r ≡ none → ⊥
      none_some p = cc

  find_row-update_rows :
      (u : UpsertAlertState F) (row : AlertStateRow F) (rows : List (AlertStateRow F))
      → row_for u rows ≡ some row
      → row_for u (update_rows row.internal_id u rows) ≡ some (updated row u)
  find_row-update_rows u row [] h = cc
  find_row-update_rows u row (r ∷ rows) h =
      elim (Bool-cases (row_matches u.rule_id u.check_internal_id u.observer_internal_id r)) [
        | inl e ↦
            let same : r ≡ row = cc (rw e at h) in
            subst
              (λ (q : AlertStateRow F).
                row_for u (update_rows q.internal_id u (r ∷ rows)) ≡ some (updated q u))
              same (rw (==_refl r.internal_id) (rw e refl))
        | inr e ↦ elim (Bool-cases (r.internal_id == row.internal_id)) [
          | inl q ↦ rw q (rw e (find_row-update_rows u row rows (rw e at h)))
          | inr q ↦ rw q (rw e (find_row-update_rows u row rows (rw e at h)))
        ]
      ]

  -- After an upsert the row under its key holds what was written.
  pub upserted-row :
      (u : UpsertAlertState F) (db : Db F)
      → (row : AlertStateRow F) × (row_for u (upserted u db).alert_states ≡ some row) × Holds u row
  upserted-row u db = elim (Option-cases (row_for u db.alert_states)) [
    | inl e ↦ (
      row_of db.next_state_id u,
      rw e (find_row-append u db.next_state_id db.alert_states e),
      record { state_held = refl; entered_held = refl; first_held = refl; last_held = refl },
    )
    | inr (row, e) ↦ (
      updated row u,
      rw e (find_row-update_rows u row db.alert_states e),
      record { state_held = refl; entered_held = refl; first_held = refl; last_held = refl },
    )
  ]
