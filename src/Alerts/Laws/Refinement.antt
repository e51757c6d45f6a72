-- ===== src/Alerts/Laws/Refinement.antt =====
-- `update_state_machine` of crates/kemuri-server/src/alerts.rs against the diagram of its states.
use kemuri.Base.{ℕ, ◌≡◌, Bool, true, false, Bool-cases, inl, inr}
use kemuri.Base.{Option, [], unwrap_or}
use kemuri.Base.Text.{Text}
use kemuri.Base.Float.{Float}
use kemuri.Base.Chrono.{Chrono}
use kemuri.Core.Kinds.{AlertState, normal, pending_fire, firing, pending_clear}
use kemuri.Core.Kinds.{firing_event, resolved_event}
use kemuri.Alerts.Store.{AlertStateRow, Db}
use kemuri.Alerts.Store.{Result}
use kemuri.Alerts.Rule.{AlertRuleConfig, clear_condition_of}
use kemuri.Alerts.Rule.{should_transition_to_firing, should_transition_to_clear}
use kemuri.Alerts.Rule.{should_repeat_notification}
use kemuri.Alerts.Machine.{Evaluator, first_condition_of, last_notification_of}
use kemuri.Alerts.Machine.{step_normal, step_pending_fire}
use kemuri.Alerts.Machine.{step_firing, step_pending_clear, update_state_machine}
use kemuri.Alerts.Laws.Diagram.{transition, Ran, quiet, loud, publish-Harmless, return-Harmless}

module _ (f : Float) (t : Chrono) (evaluator : Evaluator) (rule : AlertRuleConfig) (check : ℕ) where
  open f use {F64}

  abbrev pub may_fire : Option (AlertStateRow F64) → Text → Bool
  may_fire existing now =
      should_transition_to_firing t rule (unwrap_or (first_condition_of existing) now) now

  abbrev pub may_clear : Option (AlertStateRow F64) → Text → Bool
  may_clear existing now = should_transition_to_clear t rule existing now

  abbrev pub again : Option (AlertStateRow F64) → Text → Bool
  again existing now = should_repeat_notification t rule (last_notification_of existing) now

  -- A run that follows the diagram.
  abbrev pub Follows :
      AlertState
      → Bool
      → Bool
      → Option (AlertStateRow F64)
      → Text
      → Db F64
      → Result (Unit {0}) × Db F64
      → Type 0
  Follows from fire clear existing now db run =
      let next =
        transition from fire clear (may_fire existing now) (may_clear existing now)
          (again existing now) in
      Ran f t evaluator rule check from next.0 next.1 db run

  module _ (existing : Option (AlertStateRow F64)) (value threshold : F64) (now : Text)
      (db : Db F64) (h : db.faults ≡ []) where
    normal-Follows :
        (fire clear : Bool)
        → Follows normal fire clear existing now db
            (step_normal f t evaluator rule check existing fire value threshold now db)
    unfolding step_normal transition
    normal-Follows false clear = quiet f t evaluator rule check normal normal _ _ _ value now db h
    normal-Follows true clear = elim (Bool-cases (may_fire existing now)) [
      | inl e ↦ rw e (
          loud f t evaluator rule check firing_event normal firing _ _ _ value threshold now _ db
            (publish-Harmless f t evaluator rule check _) h)
      | inr e ↦ rw e (quiet f t evaluator rule check normal pending_fire _ _ _ value now db h)
    ]

    pending_fire-Follows :
        (fire clear : Bool)
        → Follows pending_fire fire clear existing now db
            (step_pending_fire f t evaluator rule check existing fire value threshold now db)
    unfolding step_pending_fire transition
    pending_fire-Follows false clear =
        quiet f t evaluator rule check pending_fire normal _ _ _ value now db h
    pending_fire-Follows true clear = elim (Bool-cases (may_fire existing now)) [
      | inl e ↦ rw e (
          loud f t evaluator rule check firing_event pending_fire firing _ _ _ value threshold now _
            db (publish-Harmless f t evaluator rule check _) h)
      | inr e ↦ rw e (quiet f t evaluator rule check pending_fire pending_fire _ _ _ value now db h)
    ]

    firing-Follows :
        (fire clear : Bool) (clear_threshold : F64)
        → Follows firing fire clear existing now db (
            step_firing f t evaluator rule check existing clear value threshold clear_threshold now
              db)
    unfolding step_firing transition
    firing-Follows fire true ct = elim (Bool-cases (may_clear existing now)) [
      | inl e ↦ rw e (
          loud f t evaluator rule check resolved_event firing normal _ _ _ value ct now _ db
            (publish-Harmless f t evaluator rule check _) h)
      | inr e ↦ rw e (quiet f t evaluator rule check firing pending_clear _ _ _ value now db h)
    ]
    firing-Follows fire false ct = elim (Bool-cases (again existing now)) [
      | inl e ↦ rw e (
          loud f t evaluator rule check firing_event firing firing _ _ _ value threshold now _ db
            (return-Harmless f t evaluator rule check) h)
      | inr e ↦ rw e (quiet f t evaluator rule check firing firing _ _ _ value now db h)
    ]

    pending_clear-Follows :
        (fire clear : Bool) (clear_threshold : F64)
        → Follows pending_clear fire clear existing now db (
            step_pending_clear f t evaluator rule check existing clear value clear_threshold now db)
    unfolding step_pending_clear transition
    pending_clear-Follows fire false ct =
        quiet f t evaluator rule check pending_clear firing _ _ _ value now db h
    pending_clear-Follows fire true ct = elim (Bool-cases (may_clear existing now)) [
      | inl e ↦ rw e (
          loud f t evaluator rule check resolved_event pending_clear normal _ _ _ value ct now _ db
            (publish-Harmless f t evaluator rule check _) h)
      | inr e ↦
          rw e (quiet f t evaluator rule check pending_clear pending_clear _ _ _ value now db h)
    ]

  -- Where no statement fails, the state machine follows the diagram from every state: it ends well,
  -- the row of the rule and check holds the next state, and exactly one event with one pending
  -- outbox entry that names it is added where the diagram has an event, and none elsewhere.
  pub update_state_machine-Follows :
      (existing : Option (AlertStateRow F64)) (from : AlertState) (fire : Bool)
      (value threshold : F64) (now : Text) (db : Db F64)
      → db.faults ≡ []
      → Follows from fire
          (clear_condition_of f rule value threshold)
          existing
          now
          db
          (update_state_machine f t evaluator rule check existing from fire value threshold now db)
  unfolding update_state_machine
  update_state_machine-Follows existing normal fire value threshold now db h =
      normal-Follows existing value threshold now db h fire _
  update_state_machine-Follows existing pending_fire fire value threshold now db h =
      pending_fire-Follows existing value threshold now db h fire _
  update_state_machine-Follows existing firing fire value threshold now db h =
      firing-Follows existing value threshold now db h fire _ _
  update_state_machine-Follows existing pending_clear fire value threshold now db h =
      pending_clear-Follows existing value threshold now db h fire _ _
