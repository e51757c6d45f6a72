-- ===== src/Alerts/Rule.antt =====
-- The functions of crates/kemuri-server/src/alerts.rs on a rule: its threshold, its comparison, its
-- clear condition and its timers. The rule is AlertRuleConfig of crates/kemuri-config/src/lib.rs.
use kemuri.Base.{ℕ, ◌+◌, Bool, true, false, ◌||◌, if◌then◌else◌, leb, ◌==◌}
use kemuri.Base.{Option, none, some, unwrap_or, and_then, [], ◌∷◌, ◌++◌, reverse}
use kemuri.Base.Text.{Text, codes, text_eq, print_decimal}
use kemuri.Base.Float.{Float}
use kemuri.Base.Chrono.{Chrono}
use kemuri.Core.Kinds.{AlertState, normal, pending_fire, firing, pending_clear}
use kemuri.Core.Duration.{parse_duration, ok?}
use kemuri.Alerts.Store.{AlertStateRow}

pub record AlertRuleConfig : Type 0 where
  pub id : Text
  pub profile : Text
  pub metric : Text
  pub operator : Text
  pub threshold : Text
  pub window : Text
  pub notifier : Text
  pub duration : Option Text
  pub clear_threshold : Option Text
  pub clear_operator : Option Text
  pub repeat_every : Option Text
  pub minimum_rounds : Option ℕ
  pub minimum_latency_samples : Option ℕ
  pub no_data_period : Option Text

abbrev pub is_latency_metric : Text → Bool
is_latency_metric metric =
    text_eq metric (codes "p50_latency")
    || text_eq metric (codes "p95_latency")
    || text_eq metric (codes "p99_latency")

-- `trim_end_matches('%')`, on the reversed text.
unfoldable pub drop_percents : Text → Text
drop_percents [] = []
drop_percents (c ∷ s) = if c == b'%' then drop_percents s else c ∷ s

unfoldable pub ends_with_percent : Text → Bool
ends_with_percent [] = false
ends_with_percent (c ∷ []) = c == b'%'
ends_with_percent (c ∷ d ∷ s) = ends_with_percent (d ∷ s)

unfoldable pub parse_alert_state : Text → AlertState
parse_alert_state s =
    if text_eq s (codes "pending_fire")
    then pending_fire
    else if text_eq s (codes "firing")
    then firing
    else if text_eq s (codes "pending_clear")
    then pending_clear
    else normal

unfoldable pub invert_operator : Text → Text
invert_operator operator =
    if text_eq operator (codes "gt")
    then codes "lte"
    else if text_eq operator (codes "gte")
    then codes "lt"
    else if text_eq operator (codes "lt")
    then codes "gte"
    else if text_eq operator (codes "lte")
    then codes "gt"
    else codes "lt"

unfoldable pub compute_fingerprint : AlertRuleConfig → ℕ → Text
compute_fingerprint rule check_internal_id = rule.id ++ (b':' ∷ print_decimal check_internal_id)

module _ (f : Float) where
  open f use {F64, literal, mul, div, as_secs_f64, lt, le, parse}

  duration_threshold : Text → Option ℕ → F64
  duration_threshold threshold (some ms) = mul (as_secs_f64 ms) (literal 1000 0)
  duration_threshold threshold none = unwrap_or (parse threshold) (literal 0 0)

  unfoldable pub parse_threshold : Text → Text → F64
  unfolding ends_with_percent drop_percents duration_threshold
  parse_threshold threshold metric =
      if ends_with_percent threshold
      then div (unwrap_or (parse (reverse (drop_percents (reverse threshold)))) (literal 0 0))
          (literal 100 0)
      else if is_latency_metric metric
      then duration_threshold threshold (ok? (parse_duration threshold))
      else unwrap_or (parse threshold) (literal 0 0)

  unfoldable pub evaluate_condition : F64 → F64 → Text → Bool
  evaluate_condition value threshold operator =
      if text_eq operator (codes "gt")
      then lt threshold value
      else if text_eq operator (codes "gte")
      then le threshold value
      else if text_eq operator (codes "lt")
      then lt value threshold
      else if text_eq operator (codes "lte")
      then le value threshold
      else false

  unfoldable pub invert_threshold : F64 → Text → F64
  invert_threshold threshold operator = threshold

  -- The head of `update_state_machine`: the threshold and the outcome of the clear condition.
  unfoldable pub clear_threshold_of : AlertRuleConfig → F64 → F64
  unfolding invert_threshold
  clear_threshold_of rule threshold = elim rule.clear_threshold [
    | some ct ↦ parse_threshold ct rule.metric
    | none ↦ invert_threshold threshold rule.operator
  ]

  unfoldable pub clear_condition_of : AlertRuleConfig → F64 → F64 → Bool
  clear_condition_of rule metric_value threshold =
      evaluate_condition metric_value (clear_threshold_of rule threshold)
        (unwrap_or rule.clear_operator (invert_operator rule.operator))

module _ (t : Chrono) where
  open t use {parse_rfc3339, from_std}

  -- `elapsed >= required`, where `chrono::Duration::from_std(d).unwrap_or_default()` is required.
  pub elapsed_enough : ℕ → ℕ → ℕ → Bool
  elapsed_enough now since duration = leb (since + unwrap_or (from_std duration) 0) now

  -- The timer behind both transitions: a time that cannot be read counts as passed.
  pub timer_passed : Option ℕ → Option ℕ → ℕ → Bool
  unfolding elapsed_enough
  timer_passed (some since) (some now) duration = elapsed_enough now since duration
  timer_passed (some since) none duration = true
  timer_passed none now duration = true

  pub after_duration : Option ℕ → Text → Text → Bool
  unfolding timer_passed
  after_duration none since now_str = true
  after_duration (some duration) since now_str =
      timer_passed (parse_rfc3339 since) (parse_rfc3339 now_str) duration

  abbrev pub duration_of : AlertRuleConfig → Option ℕ
  duration_of rule = and_then rule.duration (λ d. ok? (parse_duration d))

  unfoldable pub should_transition_to_firing : AlertRuleConfig → Text → Text → Bool
  unfolding after_duration
  should_transition_to_firing rule first_condition_true_at now_str =
      after_duration (duration_of rule) first_condition_true_at now_str

  entered_at : {F : Type 0} → Option (AlertStateRow F) → Text
  entered_at none = []
  entered_at (some row) = row.state_entered_at

  unfoldable pub should_transition_to_clear :
      {F : Type 0} → AlertRuleConfig → Option (AlertStateRow F) → Text → Bool
  unfolding after_duration entered_at
  should_transition_to_clear rule existing now_str =
      after_duration (duration_of rule) (entered_at existing) now_str

  repeat_now : ℕ → ℕ → Option ℕ → Bool
  unfolding elapsed_enough
  repeat_now repeat_every last none = false
  repeat_now repeat_every last (some now) = elapsed_enough now last repeat_every

  repeat_last : ℕ → Option ℕ → Option ℕ → Bool
  unfolding repeat_now
  repeat_last repeat_every none now = true
  repeat_last repeat_every (some last) now = repeat_now repeat_every last now

  repeat_after : Option ℕ → Option ℕ → Option ℕ → Bool
  unfolding repeat_last
  repeat_after none last now = false
  repeat_after (some repeat_every) last now = repeat_last repeat_every last now

  -- `repeat_every` absent or unreadable never repeats; no last notification, or one whose time
  -- cannot be read, repeats at once.
  unfoldable pub should_repeat_notification : AlertRuleConfig → Option Text → Text → Bool
  unfolding repeat_after
  should_repeat_notification rule last_notification_at now_str =
      repeat_after (and_then rule.repeat_every (λ d. ok? (parse_duration d)))
        (and_then last_notification_at parse_rfc3339) (parse_rfc3339 now_str)
