-- ===== src/Alerts/Machine.antt =====
-- `update_state_machine` and `evaluate_rule` of crates/kemuri-server/src/alerts.rs, with the events,
-- outbox entries and publications that they make. Each arm of the `match` on the state is one
-- function.
use kemuri.Base.{ℕ, ◌-◌, Bool, true, false, if◌then◌else◌, ltb, length}
use kemuri.Base.{Option, none, some, unwrap_or, map_or, and_then, List}
use kemuri.Base.Text.{Text, codes}
use kemuri.Base.Float.{Float}
use kemuri.Base.Chrono.{Chrono}
use kemuri.Core.Kinds.{AlertState, normal, pending_fire, firing, pending_clear, alert_state_text}
use kemuri.Core.Kinds.{AlertEventKind, firing_event, resolved_event, alert_event_kind_text}
use kemuri.Core.Duration.{parse_duration, ok?}
use kemuri.Rounds.{RoundRow}
use kemuri.Alerts.Store.{AlertStateRow, UpsertAlertState, M, return, ◌>>=◌, ◌>>◌, get_alert_state}
use kemuri.Alerts.Store.{upsert_alert_state, insert_alert_event, insert_outbox, publish}
use kemuri.Alerts.Rule.{AlertRuleConfig, parse_alert_state, compute_fingerprint, parse_threshold}
use kemuri.Alerts.Rule.{evaluate_condition, clear_threshold_of, clear_condition_of}
use kemuri.Alerts.Rule.{should_transition_to_firing, should_transition_to_clear}
use kemuri.Alerts.Rule.{should_repeat_notification}
use kemuri.Alerts.Metric.{compute_metric, sum_by}

-- The fields of AlertEvaluator that the handlers read: the observer, whether an event channel is
-- set, and the clock's reading when an outbox entry is made.
pub record Evaluator : Type 0 where
  pub observer_internal_id : ℕ
  pub has_event_channel : Bool
  pub clock : ℕ

abbrev pub first_condition_of : {F : Type 0} → Option (AlertStateRow F) → Option Text
first_condition_of existing = and_then existing (λ r. r.first_condition_true_at)

abbrev pub last_notification_of : {F : Type 0} → Option (AlertStateRow F) → Option Text
last_notification_of existing = and_then existing (λ r. r.last_notification_at)

abbrev pub entered_or : {F : Type 0} → Option (AlertStateRow F) → Text → Text
entered_or existing now_str = map_or existing now_str (λ r. r.state_entered_at)

module _ (f : Float) (t : Chrono) (evaluator : Evaluator) (rule : AlertRuleConfig)
    (check_internal_id : ℕ) where
  open f use {F64}

  unfoldable pub insert_outbox_entry : ℕ → M F64 ℕ
  insert_outbox_entry event_id = insert_outbox (record {
    alert_event_internal_id = event_id;
    notifier_id = rule.notifier;
    status = codes "pending";
    next_attempt_at = t.to_rfc3339 evaluator.clock;
  })

  -- The row that a transition writes: the state, its entry, its condition's start and its last
  -- notification.
  abbrev pub row_update :
      AlertState → Text → Option Text → Option Text → F64 → Text → UpsertAlertState F64
  row_update state entered first last metric_value now_str = record {
    rule_id = rule.id;
    check_internal_id = check_internal_id;
    observer_internal_id = evaluator.observer_internal_id;
    state = alert_state_text state;
    state_entered_at = entered;
    first_condition_true_at = first;
    last_evaluated_at = some now_str;
    last_notification_at = last;
    fingerprint = some (compute_fingerprint rule check_internal_id);
    last_metric_value = some metric_value;
  }

  -- An event and its outbox entry.
  unfoldable pub emit_event : AlertEventKind → AlertState → AlertState → F64 → F64 → Text → M F64 ℕ
  unfolding insert_outbox_entry
  emit_event kind from to metric_value threshold now_str = do
    event_id ← insert_alert_event (record {
      rule_id = rule.id;
      check_internal_id = check_internal_id;
      observer_internal_id = evaluator.observer_internal_id;
      event_type = alert_event_kind_text kind;
      from_state = alert_state_text from;
      to_state = alert_state_text to;
      metric_value = some metric_value;
      threshold_value = some threshold;
      occurred_at = now_str;
    })
    insert_outbox_entry event_id

  -- `publish_alert_event`, which does nothing without an event channel.
  unfoldable pub publish_alert_event : AlertEventKind → M F64 (Unit {0})
  publish_alert_event kind =
      if evaluator.has_event_channel
      then publish (alert_event_kind_text kind, rule.id, check_internal_id)
      else return tt

  unfoldable pub step_normal :
      Option (AlertStateRow F64) → Bool → F64 → F64 → Text → M F64 (Unit {0})
  step_normal existing true metric_value threshold now_str =
      let first = unwrap_or (first_condition_of existing) now_str in
      if should_transition_to_firing t rule first now_str
      then (do
        upsert_alert_state (row_update firing now_str (some first) none metric_value now_str)
        emit_event firing_event normal firing metric_value threshold now_str
        publish_alert_event firing_event)
      else (do
        upsert_alert_state (row_update pending_fire now_str (some first) none metric_value now_str)
        return tt)
  step_normal existing false metric_value threshold now_str = do
    upsert_alert_state
        (row_update normal (entered_or existing now_str) none none metric_value now_str)
    return tt

  unfoldable pub step_pending_fire :
      Option (AlertStateRow F64) → Bool → F64 → F64 → Text → M F64 (Unit {0})
  step_pending_fire existing false metric_value threshold now_str = do
    upsert_alert_state (row_update normal now_str none none metric_value now_str)
    return tt
  step_pending_fire existing true metric_value threshold now_str =
      let first = unwrap_or (first_condition_of existing) now_str in
      if should_transition_to_firing t rule first now_str
      then (do
        upsert_alert_state
            (row_update firing now_str (some first) (some now_str) metric_value now_str)
        emit_event firing_event pending_fire firing metric_value threshold now_str
        publish_alert_event firing_event)
      else (do
        upsert_alert_state (
            row_update pending_fire (entered_or existing now_str) (some first) none metric_value
              now_str)
        return tt)

  -- A firing alert, evaluated again: the row is written, and the notification may be repeated.
  unfoldable pub keep_firing : Option (AlertStateRow F64) → F64 → F64 → Text → M F64 (Unit {0})
  keep_firing existing metric_value threshold now_str =
      if should_repeat_notification t rule (last_notification_of existing) now_str
      then (do
        upsert_alert_state (
            row_update firing (entered_or existing now_str) (first_condition_of existing)
              (some now_str) metric_value now_str)
        emit_event firing_event firing firing metric_value threshold now_str
        return tt)
      else (do
        upsert_alert_state (
            row_update firing (entered_or existing now_str) (first_condition_of existing)
              (last_notification_of existing) metric_value now_str)
        return tt)

  -- `threshold` is the firing threshold, `clear_threshold` the one to clear at.
  unfoldable pub step_firing :
      Option (AlertStateRow F64) → Bool → F64 → F64 → F64 → Text → M F64 (Unit {0})
  unfolding keep_firing
  step_firing existing true metric_value threshold clear_threshold now_str =
      if should_transition_to_clear t rule existing now_str
      then (do
        upsert_alert_state (row_update normal now_str none (some now_str) metric_value now_str)
        emit_event resolved_event firing normal metric_value clear_threshold now_str
        publish_alert_event resolved_event)
      else (do
        upsert_alert_state (
            row_update pending_clear now_str (first_condition_of existing)
              (last_notification_of existing) metric_value now_str)
        return tt)
  step_firing existing false metric_value threshold clear_threshold now_str =
      keep_firing existing metric_value threshold now_str

  unfoldable pub step_pending_clear :
      Option (AlertStateRow F64) → Bool → F64 → F64 → Text → M F64 (Unit {0})
  step_pending_clear existing false metric_value clear_threshold now_str = do
    upsert_alert_state (
        row_update firing (entered_or existing now_str) (first_condition_of existing)
          (last_notification_of existing) metric_value now_str)
    return tt
  step_pending_clear existing true metric_value clear_threshold now_str =
      if should_transition_to_clear t rule existing now_str
      then (do
        upsert_alert_state (row_update normal now_str none (some now_str) metric_value now_str)
        emit_event resolved_event pending_clear normal metric_value clear_threshold now_str
        publish_alert_event resolved_event)
      else (do
        upsert_alert_state (
            row_update pending_clear (entered_or existing now_str) (first_condition_of existing)
              (last_notification_of existing) metric_value now_str)
        return tt)

  unfoldable pub dispatch :
      Option (AlertStateRow F64)
      → AlertState
      → Bool
      → Bool
      → F64
      → F64
      → F64
      → Text
      → M F64 (Unit {0})
  dispatch existing normal fire clear metric_value threshold clear_threshold now_str =
      step_normal existing fire metric_value threshold now_str
  dispatch existing pending_fire fire clear metric_value threshold clear_threshold now_str =
      step_pending_fire existing fire metric_value threshold now_str
  dispatch existing firing fire clear metric_value threshold clear_threshold now_str =
      step_firing existing clear metric_value threshold clear_threshold now_str
  dispatch existing pending_clear fire clear metric_value threshold clear_threshold now_str =
      step_pending_clear existing clear metric_value clear_threshold now_str

  unfoldable pub update_state_machine :
      Option (AlertStateRow F64) → AlertState → Bool → F64 → F64 → Text → M F64 (Unit {0})
  unfolding dispatch
  update_state_machine existing current_state fire_condition metric_value threshold now_str =
      dispatch existing current_state fire_condition
        (clear_condition_of f rule metric_value threshold) metric_value threshold
        (clear_threshold_of f rule threshold) now_str

  abbrev pub current_state_of : Option (AlertStateRow F64) → AlertState
  current_state_of existing = map_or existing normal (λ r. parse_alert_state r.state)

  -- From the rounds of the window on.
  unfoldable pub evaluate_value : F64 → Text → M F64 (Unit {0})
  evaluate_value metric_value now_str = do
    let threshold = parse_threshold f rule.threshold rule.metric
    existing ← get_alert_state rule.id check_internal_id evaluator.observer_internal_id
    update_state_machine existing (current_state_of existing)
        (evaluate_condition f metric_value threshold rule.operator) metric_value threshold now_str

  evaluate_metric : Option F64 → Text → M F64 (Unit {0})
  unfolding evaluate_value
  evaluate_metric none now_str = return tt
  evaluate_metric (some metric_value) now_str = evaluate_value metric_value now_str

  unfoldable pub evaluate_rounds : List RoundRow → Text → M F64 (Unit {0})
  unfolding evaluate_metric
  evaluate_rounds rounds now_str =
      if ltb (length rounds) (unwrap_or rule.minimum_rounds 1)
      then return tt
      else if ltb (sum_by (λ r. r.latency_bearing_samples) rounds)
          (unwrap_or rule.minimum_latency_samples 0)
      then return tt
      else evaluate_metric (compute_metric f rule.metric rounds) now_str

  -- The query for a check's rounds from one time up to another is a parameter; its statement may
  -- fail like any other, and is the query's own first.
  unfoldable pub evaluate_rule : (Text → Text → M F64 (List RoundRow)) → ℕ → M F64 (Unit {0})
  unfolding evaluate_rounds
  evaluate_rule query_rounds now = do
    let window = unwrap_or (ok? (parse_duration rule.window)) 300_000
    let window_ago = now - unwrap_or (t.from_std window) 0
    rounds ← query_rounds (t.to_rfc3339 window_ago) (t.to_rfc3339 now)
    evaluate_rounds rounds (t.to_rfc3339 now)
