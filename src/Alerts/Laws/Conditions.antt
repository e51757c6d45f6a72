-- ===== src/Alerts/Laws/Conditions.antt =====
-- The fire and clear conditions, the names of the states and the timers of
-- crates/kemuri-server/src/alerts.rs.
use kemuri.Base.{ℕ, ◌+◌, ◌≡◌, refl, sym, ap, ◌∙◌, false, not}
use kemuri.Base.{none, some, leb}
use kemuri.Base.Text.{Text, codes}
use kemuri.Base.Float.{Float, Ieee}
use kemuri.Base.Chrono.{Chrono, Reads}
use kemuri.Core.Kinds.{AlertState, normal, alert_state_text}
use kemuri.Alerts.Rule.{AlertRuleConfig, parse_alert_state, invert_operator, evaluate_condition}
use kemuri.Alerts.Rule.{clear_threshold_of, clear_condition_of, duration_of}
use kemuri.Alerts.Rule.{should_transition_to_firing}
use mathlib.Core.Bool.{not-not}

-- The comparisons that a rule may name.
pub data Comparison : Type 0 where
  gt gte lt lte : Comparison

abbrev pub comparison_text : Comparison → Text
comparison_text gt = codes "gt"
comparison_text gte = codes "gte"
comparison_text lt = codes "lt"
comparison_text lte = codes "lte"

-- What is written to the state column is read back as the state.
pub parse_alert_state_text : (s : AlertState) → parse_alert_state (alert_state_text s) ≡ s
unfolding parse_alert_state
parse_alert_state_text normal = refl
parse_alert_state_text _ = refl

inverse :
    (f : Float) (o : Ieee f) (c : Comparison) (a b : f.F64)
    → o.is_nan a ≡ false
    → o.is_nan b ≡ false
    → evaluate_condition f a b (invert_operator (comparison_text c))
      ≡ not (evaluate_condition f a b (comparison_text c))
unfolding evaluate_condition invert_operator
inverse f o gt a b h k = o.le_total a b h k
inverse f o gte a b h k = sym (not-not _) ∙ ap not (sym (o.le_total b a k h))
inverse f o lt a b h k = o.le_total b a k h
inverse f o lte a b h k = sym (not-not _) ∙ ap not (sym (o.le_total a b h k))

-- For a rule that sets neither a clear threshold nor a clear operator, and values that are not NaN,
-- the clear condition is the negation of the firing condition.
pub clear_condition-not :
    (f : Float) (o : Ieee f) (rule : AlertRuleConfig) (c : Comparison) (value threshold : f.F64)
    → rule.operator ≡ comparison_text c
    → rule.clear_threshold ≡ none
    → rule.clear_operator ≡ none
    → o.is_nan value ≡ false
    → o.is_nan threshold ≡ false
    → clear_condition_of f rule value threshold
      ≡ not (evaluate_condition f value threshold rule.operator)
unfolding clear_condition_of clear_threshold_of
clear_condition-not f o rule c value threshold op ct co h k =
    rw (ct, co, op) (inverse f o c value threshold h k)

-- With a duration that chrono can hold, and times that are printed instants, the firing timer has
-- passed exactly when at least the duration lies between them.
pub should_transition_to_firing_lem :
    (t : Chrono) (rule : AlertRuleConfig) (since now d required : ℕ)
    → Reads t
    → duration_of t rule ≡ some d
    → t.from_std d ≡ some required
    → should_transition_to_firing t rule (t.to_rfc3339 since) (t.to_rfc3339 now)
      ≡ leb (since + required) now
unfolding should_transition_to_firing
should_transition_to_firing_lem t rule since now d required r e k =
    rw (e, r.parse-to since, r.parse-to now) (rw k refl)
