-- ===== src/Alerts/Laws/Silence.antt =====
-- Where the alert evaluator of crates/kemuri-server/src/alerts.rs stays silent, or speaks twice.
use kemuri.Base.{ℕ, ◌<◌, ◌≡◌, refl, ◌∙◌, ◌⊎◌, inl, inr, arith, Bool, true, false}
use kemuri.Base.{Option, none, some, List, [], ◌∷◌}
use kemuri.Base.Text.{Text}
use kemuri.Base.Float.{Float}
use kemuri.Base.Chrono.{Chrono, Reads}
use kemuri.Core.Kinds.{AlertState, normal, pending_fire, firing, alert_state_text}
use kemuri.Core.Kinds.{AlertEventKind, firing_event}
use kemuri.Alerts.Store.{AlertStateRow, Db, Result, ok, err, M, return, ◌>>◌}
use kemuri.Alerts.Store.{continue_with, get_alert_state, insert_alert_event, upsert_alert_state}
use kemuri.Alerts.Rule.{AlertRuleConfig, clear_condition_of, duration_of}
use kemuri.Alerts.Rule.{should_transition_to_firing, should_repeat_notification}
use kemuri.Alerts.Machine.{Evaluator, update_state_machine}
use kemuri.Alerts.Rule.{parse_threshold}
use kemuri.Alerts.Machine.{evaluate_value, emit_event, step_normal, step_pending_fire, row_update}
use kemuri.Alerts.NoData.{evaluate_no_data_rule}
use kemuri.Alerts.Laws.Conditions.{parse_alert_state_text, should_transition_to_firing_lem}
use kemuri.Alerts.Laws.Rows.{upserted, upsert_step, upserted-rest, upserted-row}
use kemuri.Alerts.Laws.Rows.{statement_runs, statement_fails}
use kemuri.Alerts.Laws.Diagram.{Ran, row_here, quiet, transition}
use kemuri.Alerts.Laws.Refinement.{may_fire}
use kemuri.Alerts.Laws.Refinement.{update_state_machine-Follows}

module _ (f : Float) (t : Chrono) (evaluator : Evaluator) (rule : AlertRuleConfig) (check : ℕ) where
  open f use {F64}

  -- Evaluations for missing data at one instant after the other.
  abbrev pub no_data_at : List ℕ → M F64 (Unit {0})
  no_data_at [] = return tt
  no_data_at (now ∷ later) =
      evaluate_no_data_rule f t evaluator rule check (t.to_rfc3339 now) >> no_data_at later

  pending_stays :
      (now : Text) (db : Db F64) (row : AlertStateRow F64)
      → db.faults ≡ []
      → row_here f t evaluator rule check db ≡ some row
      → row.state ≡ alert_state_text pending_fire
      → evaluate_no_data_rule f t evaluator rule check now db ≡ (ok tt, db)
  unfolding evaluate_no_data_rule get_alert_state
  pending_stays now db row h there s =
      rw (statement_runs _ db h) (rw there (rw s (rw (parse_alert_state_text pending_fire) refl)))

  pending_stays_at :
      (times : List ℕ) (db : Db F64) (row : AlertStateRow F64)
      → db.faults ≡ []
      → row_here f t evaluator rule check db ≡ some row
      → row.state ≡ alert_state_text pending_fire
      → no_data_at times db ≡ (ok tt, db)
  pending_stays_at [] db row h there s = refl
  pending_stays_at (now ∷ later) db row h there s =
      rw (pending_stays (t.to_rfc3339 now) db row h there s)
        (pending_stays_at later db row h there s)

  first_evaluation :
      (now d required : ℕ) (db : Db F64)
      → Reads t
      → duration_of t rule ≡ some d
      → t.from_std d ≡ some required
      → 0 < required
      → db.faults ≡ []
      → row_here f t evaluator rule check db ≡ none
      → Ran f t evaluator rule check normal pending_fire none db
          (evaluate_no_data_rule f t evaluator rule check (t.to_rfc3339 now) db)
  unfolding evaluate_no_data_rule get_alert_state
  first_evaluation now d required db r e k pos h absent =
      let early : should_transition_to_firing t rule (t.to_rfc3339 now) (t.to_rfc3339 now) ≡ false =
        should_transition_to_firing_lem t rule now now d required r e k ∙ ground arith in
      rw (statement_runs _ db h)
        (rw absent (rw early (quiet f t evaluator rule check normal pending_fire _ _ _ _ _ db h)))

  -- A rule with a duration never fires by the evaluation for missing data: from no row at all, and
  -- with no failing statement, evaluations at any instants whatever leave no event and no outbox
  -- entry, and the state is `pending_fire`.
  pub no_data_never_fires :
      (now : ℕ) (later : List ℕ) (d required : ℕ) (db : Db F64)
      → Reads t
      → duration_of t rule ≡ some d
      → t.from_std d ≡ some required
      → 0 < required
      → db.faults ≡ []
      → row_here f t evaluator rule check db ≡ none
      → Ran f t evaluator rule check normal pending_fire none db (no_data_at (now ∷ later) db)
  no_data_never_fires now later d required db r e k pos h absent =
      go (evaluate_no_data_rule f t evaluator rule check (t.to_rfc3339 now) db)
        (first_evaluation now d required db r e k pos h absent)
    where
      go :
          (run : Result (Unit {0}) × Db F64)
          → Ran f t evaluator rule check normal pending_fire none db run
          → Ran f t evaluator rule check normal pending_fire none db
              (continue_with (λ (u : Unit {0}). no_data_at later) run)
      go (ok tt, db') ran =
          rw (pending_stays_at later db' ran.row (ran.steady ∙ h) ran.row_there ran.row_state) ran
      go (err, db') ran = absurd (wrong ran.succeeds)
        where
          wrong : Path (Result (Unit {0})) err (ok tt) → ⊥
          wrong p = cc

  -- What a failed insertion of the event leaves: the error, the row as firing, and no event.
  record Lost (db : Db F64) (fs : List Bool) (run : Result (Unit {0}) × Db F64) : Type 0 where
    pub failed : run.0 ≡ err
    pub row : AlertStateRow F64
    pub row_there : row_here f t evaluator rule check run.1 ≡ some row
    pub row_firing : row.state ≡ alert_state_text firing
    pub no_event : run.1.alert_events ≡ db.alert_events
    pub no_entry : run.1.outbox ≡ db.outbox
    pub faults_left : run.1.faults ≡ fs

  emit_fails :
      (kind : AlertEventKind) (from to : AlertState) (value threshold : F64) (now : Text)
      (k : M F64 (Unit {0})) (db : Db F64) (fs : List Bool)
      → db.faults ≡ true ∷ fs
      → (emit_event f t evaluator rule check kind from to value threshold now >> k) db
        ≡ (err, record db { faults = fs })
  unfolding emit_event insert_alert_event
  emit_fails kind from to value threshold now k db fs h = rw (statement_fails _ db fs h) refl

  -- The row is written as firing, and the insertion of the event fails.
  write_then_fail :
      (from : AlertState) (first : Option Text) (notified : Option Text) (value threshold : F64)
      (now : Text) (k : M F64 (Unit {0})) (db : Db F64) (fs : List Bool)
      → db.faults ≡ false ∷ false ∷ true ∷ fs
      → Lost db fs (
          (upsert_alert_state
                (row_update f t evaluator rule check firing now first notified value now)
              >> (emit_event f t evaluator rule check firing_event from firing value threshold now
                  >> k))
            db)
  write_then_fail from first notified value threshold now k db fs h =
      let u = row_update f t evaluator rule check firing now first notified value now in
      let (row, there, holds) = upserted-row u db in
      let (events, next, queue, next', out) = upserted-rest u db in
      rw (upsert_step u _ db (true ∷ fs) h) (
        rw
          (emit_fails firing_event from firing value threshold now _
            (record (upserted u db) { faults = true ∷ fs }) fs refl)
          (record {
            failed = refl;
            row = row;
            row_there = there;
            row_firing = holds.state_held;
            no_event = events;
            no_entry = queue;
            faults_left = refl;
          }))

  -- From both states from which a rule may fire.
  fire_then_fail :
      (from : AlertState) (existing : Option (AlertStateRow F64)) (value threshold : F64)
      (now : Text) (db : Db F64) (fs : List Bool)
      → (from ≡ normal) ⊎ (from ≡ pending_fire)
      → may_fire f t evaluator rule check existing now ≡ true
      → db.faults ≡ false ∷ false ∷ true ∷ fs
      → Lost db fs
          (update_state_machine f t evaluator rule check existing from true value threshold now db)
  unfolding update_state_machine step_normal step_pending_fire
  fire_then_fail from existing value threshold now db fs (inl e) m h =
      rw e (rw m (write_then_fail normal _ none value threshold now _ db fs h))
  fire_then_fail from existing value threshold now db fs (inr e) m h =
      rw e (rw m (write_then_fail pending_fire _ (some now) value threshold now _ db fs h))

  never_again :
      (last : Option Text) (now : Text)
      → rule.repeat_every ≡ none
      → should_repeat_notification t rule last now ≡ false
  unfolding should_repeat_notification
  never_again last now h = rw h refl

  -- A firing alert that is not to be cleared and has no `repeat_every` adds nothing.
  firing_silent :
      (fire : Bool) (value threshold : F64) (now : Text) (existing : Option (AlertStateRow F64))
      (db : Db F64)
      → db.faults ≡ []
      → rule.repeat_every ≡ none
      → clear_condition_of f rule value threshold ≡ false
      → Ran f t evaluator rule check firing firing none db (
          update_state_machine f t evaluator rule check existing firing fire value threshold now db)
  unfolding transition
  firing_silent fire value threshold now existing db h r c =
      rw (c, never_again _ now r) at
        (update_state_machine-Follows f t evaluator rule check existing firing fire value threshold
          now db h)

  next_evaluation :
      (value : F64) (now : Text) (db : Db F64) (row : AlertStateRow F64)
      → db.faults ≡ []
      → row_here f t evaluator rule check db ≡ some row
      → row.state ≡ alert_state_text firing
      → rule.repeat_every ≡ none
      → clear_condition_of f rule value (parse_threshold f rule.threshold rule.metric) ≡ false
      → Ran f t evaluator rule check firing firing none db
          (evaluate_value f t evaluator rule check value now db)
  unfolding evaluate_value get_alert_state
  next_evaluation value now db row h there s r c = rw (statement_runs _ db h) (
      rw there (rw s (rw (parse_alert_state_text firing) (firing_silent _ value _ now _ db h r c))))

  -- If a rule fires, from `normal` or from `pending_fire`, and the insertion of the event fails after
  -- the row was written, the evaluation ends with the error, and the next one makes no notification
  -- for it either: with no failing statement, no `repeat_every` and a clear condition that does not
  -- hold, it ends well and adds neither an event nor an outbox entry to those before the failure.
  pub lost_notification :
      (from : AlertState) (existing : Option (AlertStateRow F64)) (value threshold value' : F64)
      (now now' : Text) (db : Db F64)
      → (from ≡ normal) ⊎ (from ≡ pending_fire)
      → may_fire f t evaluator rule check existing now ≡ true
      → db.faults ≡ false ∷ false ∷ true ∷ []
      → rule.repeat_every ≡ none
      → clear_condition_of f rule value' (parse_threshold f rule.threshold rule.metric) ≡ false
      → let run =
          update_state_machine f t evaluator rule check existing from true value threshold now db in
        let run' = evaluate_value f t evaluator rule check value' now' run.1 in
        (run.0 ≡ err)
        × (run'.0 ≡ ok tt)
        × (run'.1.alert_events ≡ db.alert_events)
        × (run'.1.outbox ≡ db.outbox)
  lost_notification from existing value threshold value' now now' db either m h r c =
      let lost = fire_then_fail from existing value threshold now db [] either m h in
      let next =
        next_evaluation value' now' _ lost.row lost.faults_left lost.row_there lost.row_firing r
          c in
      (lost.failed, next.succeeds, next.notifies.0 ∙ lost.no_event, next.notifies.1 ∙ lost.no_entry)
