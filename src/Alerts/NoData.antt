-- ===== src/Alerts/NoData.antt =====
-- `evaluate_no_data` and `evaluate_no_data_rule` of crates/kemuri-server/src/alerts.rs, for checks
-- that sent no round.
use kemuri.Base.{ℕ, ◌-◌, Bool, false, if◌then◌else◌, Option, none, some, unwrap_or}
use kemuri.Base.{List, [], ◌∷◌}
use kemuri.Base.Text.{Text, text_eq}
use kemuri.Base.Float.{Float}
use kemuri.Base.Chrono.{Chrono}
use kemuri.Core.Kinds.{AlertState, normal, pending_fire, firing, pending_clear}
use kemuri.Core.Kinds.{firing_event}
use kemuri.Core.Duration.{parse_duration, ok?}
use kemuri.Alerts.Store.{AlertStateRow, M, return, ◌>>=◌, ◌>>◌, get_alert_state, upsert_alert_state}
use kemuri.Alerts.Rule.{AlertRuleConfig, should_transition_to_firing}
use kemuri.Alerts.Machine.{Evaluator, first_condition_of, last_notification_of, row_update}
use kemuri.Alerts.Machine.{emit_event, publish_alert_event, keep_firing, current_state_of}

module _ (f : Float) (t : Chrono) (evaluator : Evaluator) where
  open f use {F64, literal}

  module _ (rule : AlertRuleConfig) (check_internal_id : ℕ) where
    -- The arm for `Normal` and `PendingClear`.
    unfoldable pub no_data_fires : Option (AlertStateRow F64) → AlertState → Text → M F64 (Unit {0})
    no_data_fires existing current_state now_str =
        let first = unwrap_or (first_condition_of existing) now_str in
        let last = last_notification_of existing in
        if should_transition_to_firing t rule first now_str
        then (do
          upsert_alert_state (
              row_update f t evaluator rule check_internal_id firing now_str (some first) last
                (literal 1 0) now_str)
          emit_event f t evaluator rule check_internal_id firing_event current_state firing
              (literal 1 0) (literal 1 0) now_str
          publish_alert_event f t evaluator rule check_internal_id firing_event)
        else (do
          upsert_alert_state (
              row_update f t evaluator rule check_internal_id pending_fire now_str (some first) last
                (literal 1 0) now_str)
          return tt)

    unfoldable pub no_data_dispatch :
        Option (AlertStateRow F64) → AlertState → Text → M F64 (Unit {0})
    unfolding no_data_fires
    no_data_dispatch existing normal now_str = no_data_fires existing normal now_str
    no_data_dispatch existing pending_clear now_str = no_data_fires existing pending_clear now_str
    no_data_dispatch existing firing now_str =
        keep_firing f t evaluator rule check_internal_id existing (literal 1 0) (literal 1 0)
          now_str
    no_data_dispatch existing pending_fire now_str = return tt

    unfoldable pub evaluate_no_data_rule : Text → M F64 (Unit {0})
    unfolding no_data_dispatch
    evaluate_no_data_rule now_str = do
      existing ← get_alert_state rule.id check_internal_id evaluator.observer_internal_id
      no_data_dispatch existing (current_state_of f t evaluator rule check_internal_id existing)
          now_str

  -- The queries of `evaluate_no_data`: a check's profile, and whether a check has a round since a
  -- time.
  pub record Queries : Type 0 where
    pub profile_of : ℕ → M F64 (Option Text)
    pub has_rounds_since : ℕ → Text → M F64 Bool

  -- The period without rounds after which the rule applies.
  abbrev pub no_data_period_of : AlertRuleConfig → ℕ
  no_data_period_of rule =
      unwrap_or (ok? (parse_duration (unwrap_or rule.no_data_period rule.window))) 300_000

  same_profile : Option Text → Text → Bool
  same_profile none profile = false
  same_profile (some p) profile = text_eq p profile

  no_data_since : Queries → ℕ → AlertRuleConfig → ℕ → M F64 (Unit {0})
  no_data_since queries now rule check = do
    has_rounds ←
        queries.has_rounds_since check
          (t.to_rfc3339 (now - unwrap_or (t.from_std (no_data_period_of rule)) 0))
    if has_rounds then return tt else evaluate_no_data_rule rule check (t.to_rfc3339 now)

  -- One round of the inner loop.
  unfoldable pub no_data_check : Queries → ℕ → AlertRuleConfig → ℕ → M F64 (Unit {0})
  unfolding same_profile no_data_since
  no_data_check queries now rule check = do
    profile_id ← queries.profile_of check
    if same_profile profile_id rule.profile then no_data_since queries now rule check else return tt

  unfoldable pub no_data_checks : Queries → ℕ → AlertRuleConfig → List ℕ → M F64 (Unit {0})
  no_data_checks queries now rule [] = return tt
  no_data_checks queries now rule (check ∷ checks) = do
    no_data_check queries now rule check
    no_data_checks queries now rule checks

  -- The outer loop, over the rules with the metric `no_data`; `has_profile` is whether the
  -- configuration has the rule's profile.
  unfoldable pub no_data_rules :
      Queries → ℕ → (Text → Bool) → List ℕ → List AlertRuleConfig → M F64 (Unit {0})
  no_data_rules queries now has_profile checks [] = return tt
  no_data_rules queries now has_profile checks (rule ∷ rules) = do
    if has_profile rule.profile then no_data_checks queries now rule checks else return tt
    no_data_rules queries now has_profile checks rules
