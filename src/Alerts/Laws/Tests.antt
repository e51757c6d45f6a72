-- ===== src/Alerts/Laws/Tests.antt =====
-- The theorems on crates/kemuri-server/src/alerts.rs at a rule on the ratio of lost samples.
use kemuri.Base.{ℕ, inr, ◌≡◌, refl, arith, Bool, true, false, not, none, some, List, [], ◌∷◌}
use kemuri.Base.Text.{codes, parse_uint}
use kemuri.Base.Examples.{thousandths, thousandths-Ieee, clock, clock-Reads}
use kemuri.Core.Kinds.{normal, pending_fire}
use kemuri.Core.Duration.Laws.{minutes, parse_duration-append}
use kemuri.Core.Duration.{parse_duration, ok}
use kemuri.Alerts.Store.{Db, ok, err}
use kemuri.Alerts.Rule.{
  AlertRuleConfig, evaluate_condition, clear_condition_of, clear_threshold_of, duration_of,
  invert_operator,
}
use kemuri.Alerts.Rule.{parse_threshold, should_transition_to_firing}
use kemuri.Alerts.Machine.{Evaluator, update_state_machine, evaluate_value}
use kemuri.Alerts.Laws.Conditions.{gt, clear_condition-not}
use kemuri.Alerts.Laws.Diagram.{Ran}
use kemuri.Alerts.Laws.Refinement.{Follows, may_fire, update_state_machine-Follows}
use kemuri.Alerts.Laws.Silence.{no_data_at, no_data_never_fires, lost_notification}

abbrev evaluator : Evaluator
evaluator = record { observer_internal_id = 1; has_event_channel = true; clock = 17 }

abbrev rule : AlertRuleConfig
rule = record {
  id = codes "loss";
  profile = codes "wan";
  metric = codes "loss_ratio";
  operator = codes "gt";
  threshold = codes "20%";
  window = codes "5m";
  notifier = codes "ops";
  duration = some (codes "2m");
  clear_threshold = none;
  clear_operator = none;
  repeat_every = none;
  minimum_rounds = none;
  minimum_latency_samples = none;
  no_data_period = some (codes "10m");
}

abbrev empty_db : List Bool → Db ℕ
empty_db faults = record {
  alert_states = [];
  next_state_id = 1;
  alert_events = [];
  next_event_id = 1;
  outbox = [];
  next_outbox_id = 1;
  published = [];
  faults = faults;
}

two_minutes : parse_duration (codes "2m") ≡ kemuri.Core.Duration.ok 120_000
two_minutes = parse_duration-append b'2' [] minutes refl

rule-duration : duration_of clock rule ≡ some 120_000
rule-duration = rw two_minutes refl

clear_condition-not_example :
    clear_condition_of thousandths rule 300 200
    ≡ not (evaluate_condition thousandths 300 200 rule.operator)
clear_condition-not_example =
    clear_condition-not thousandths thousandths-Ieee rule gt 300 200 refl refl refl refl refl

update_state_machine-Follows_example :
    Follows thousandths clock evaluator rule 4 normal true
      (clear_condition_of thousandths rule 300 200)
      none
      (clock.to_rfc3339 9)
      (empty_db [])
      (update_state_machine thousandths clock evaluator rule 4 none normal true 300 200
        (clock.to_rfc3339 9)
        (empty_db []))
update_state_machine-Follows_example =
    update_state_machine-Follows thousandths clock evaluator rule 4 none normal true 300 200
      (clock.to_rfc3339 9) (empty_db []) refl

no_data_never_fires_example :
    Ran thousandths clock evaluator rule 4 normal pending_fire none
      (empty_db [])
      (no_data_at thousandths clock evaluator rule 4 (9 ∷ 500_000_000_000 ∷ []) (empty_db []))
no_data_never_fires_example =
    no_data_never_fires thousandths clock evaluator rule 4 9 (500_000_000_000 ∷ []) 120_000
      120_000_000_000 (empty_db []) clock-Reads rule-duration refl (omega arith) refl refl

abbrev immediate_rule : AlertRuleConfig
immediate_rule = record rule { duration = none }

fires_at_once :
    may_fire thousandths clock evaluator immediate_rule 4 none (clock.to_rfc3339 9) ≡ true
unfolding should_transition_to_firing
fires_at_once = refl

stays_lost :
    clear_condition_of thousandths immediate_rule 300
      (parse_threshold thousandths immediate_rule.threshold immediate_rule.metric)
    ≡ false
unfolding clear_condition_of clear_threshold_of parse_threshold evaluate_condition invert_operator
    parse_uint
stays_lost = refl

lost_notification_example :
    let run =
      update_state_machine thousandths clock evaluator immediate_rule 4 none pending_fire true 300
        200
        (clock.to_rfc3339 9)
        (empty_db (false ∷ false ∷ true ∷ [])) in
    let run' =
      evaluate_value thousandths clock evaluator immediate_rule 4 300 (clock.to_rfc3339 70) run.1 in
    (run.0 ≡ err) × (run'.0 ≡ ok tt) × (run'.1.alert_events ≡ []) × (run'.1.outbox ≡ [])
lost_notification_example =
    lost_notification thousandths clock evaluator immediate_rule 4 pending_fire none 300 200 300
      (clock.to_rfc3339 9) (clock.to_rfc3339 70) (empty_db (false ∷ false ∷ true ∷ [])) (inr refl)
      fires_at_once refl refl stays_lost
