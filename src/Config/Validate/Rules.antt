-- ===== src/Config/Validate/Rules.antt =====
-- What validation in crates/kemuri-config/src/lib.rs has found out about the alert rules of a
-- configuration that it accepts.
use kemuri.Base.{ℕ, ◌≡◌, ◌<◌, ap, arith, Bool, true, false, not, ◌==◌, map}
use kemuri.Base.{Option, none, some, List, [], ◌∷◌, ◌++◌, All}
use kemuri.Base.Text.{Text, codes, print_decimal}
use kemuri.Base.Float.{Float}
use kemuri.Core.Duration.{parse_duration}
use kemuri.Core.Duration as Duration
use kemuri.Alerts.Rule.{AlertRuleConfig}
use kemuri.Config.Error.{
  Result, ok, refuse_if, duration_at, map_duration, ok-bind, ok-then, ok-refuse_if, ok-injective,
}
use kemuri.Config.Types.{ConfigWarning, KemuriConfig}
use kemuri.Config.Values.{one_of, positive_at, must_be_positive, is_zero, validate_alert_threshold}
use kemuri.Config.Validate.{
  contains, refuse_seen, profile_id, notifier_id, metrics, operators, check_some, rule_path,
  positive_field, known_operator,
}
use kemuri.Config.Validate.{
  validate_rule, validate_rules, validate_profiles, validate_notifiers, validate_with_warnings,
}

-- A text that is read as a duration above zero.
abbrev pub IsPositiveDuration : Text → Type 0
IsPositiveDuration s = (d : ℕ) × (parse_duration s ≡ Duration.ok d) × (0 < d)

duration_at_ok :
    (value path : Text) (d : ℕ)
    → duration_at value path ≡ ok d
    → parse_duration value ≡ Duration.ok d
unfolding duration_at
duration_at_ok value path d h = go (parse_duration value) h
  where
    go : (r : Duration.Result ℕ) → map_duration path r ≡ ok d → r ≡ Duration.ok d
    go (Duration.ok x) h = ap Duration.ok (ok-injective x d h)
    go (Duration.err e) h = ground (arith, h)

pub positive_at-IsPositiveDuration :
    (value path message : Text) (d : ℕ)
    → positive_at value path message ≡ ok d
    → IsPositiveDuration value
positive_at-IsPositiveDuration value path message d h =
    let (x, e, h1) = ok-bind (duration_at value path) _ d h in
    let ((u, z), h2) = ok-then (refuse_if (x == 0) path message) _ d h1 in
    let above = ok-refuse_if (x == 0) path message u z in
    (x, duration_at_ok value path x e, ground (arith, above))

-- What a check of an optional value has found.
abbrev pub IfSome : (Text → Type 0) → Option Text → Type 0
IfSome P none = Unit
IfSome P (some s) = P s

IfSome-check :
    (P : Text → Type 0) (o : Option Text) (check : Text → Result (Unit {0})) (u : Unit {0})
    → ((s : Text) (v : Unit {0}) → check s ≡ ok v → P s)
    → check_some o check ≡ ok u
    → IfSome P o
IfSome-check P none check u f h = tt
IfSome-check P (some s) check u f h = f s u h

module _ (f : Float) where
  -- A rule whose references, metric, operators, thresholds, durations and minima are valid.
  pub record IsValidRule (profile_ids notifier_ids : List Text) (rule : AlertRuleConfig)
      : Type 0 where
    pub profile_known : contains rule.profile profile_ids ≡ true
    pub notifier_known : contains rule.notifier notifier_ids ≡ true
    pub metric_known : one_of metrics rule.metric ≡ true
    pub operator_known : one_of operators rule.operator ≡ true
    pub clear_operator_known : IfSome (λ s. one_of operators s ≡ true) rule.clear_operator
    pub threshold_valid :
        validate_alert_threshold f rule.threshold rule.metric (rule_path rule (codes "threshold"))
        ≡ ok tt
    pub window_positive : IsPositiveDuration rule.window
    pub duration_positive : IfSome IsPositiveDuration rule.duration
    pub repeat_positive : IfSome IsPositiveDuration rule.repeat_every
    pub period_positive : IfSome IsPositiveDuration rule.no_data_period
    pub minimum_positive : is_zero f rule.minimum_rounds ≡ false
    pub samples_positive : is_zero f rule.minimum_latency_samples ≡ false

positive_field-IsPositiveDuration :
    (rule : AlertRuleConfig) (field value : Text) (u : Unit {0})
    → positive_field rule field value ≡ ok u
    → IsPositiveDuration value
positive_field-IsPositiveDuration rule field value u h =
    let ((d, e), h1) = ok-then (positive_at value (rule_path rule field) must_be_positive) _ u h in
    positive_at-IsPositiveDuration value (rule_path rule field) must_be_positive d e

known :
    (b : Bool) (path message : Text) (u : Unit {0})
    → refuse_if (not b) path message ≡ ok u
    → b ≡ true
known b path message u h = ground (arith, ok-refuse_if (not b) path message u h)

module _ (f : Float) (profile_ids notifier_ids : List Text) where
  validate_rule-IsValidRule :
      (rule : AlertRuleConfig) (u : Unit {0})
      → validate_rule f profile_ids notifier_ids rule ≡ ok u
      → IsValidRule f profile_ids notifier_ids rule
  unfolding validate_rule
  validate_rule-IsValidRule rule u h =
      let at = rule_path rule in
      let positive = positive_field rule in
      let unsupported = codes "unsupported alert operator" in
      let ((u1, c1), h1) =
        ok-then
          (refuse_if (not (contains rule.profile profile_ids)) (at (codes "profile"))
            (codes "references unknown profile: " ++ rule.profile))
          _ u h in
      let ((u2, c2), h2) =
        ok-then
          (refuse_if (not (contains rule.notifier notifier_ids)) (at (codes "notifier"))
            (codes "references unknown notifier: " ++ rule.notifier))
          _ u h1 in
      let ((u3, c3), h3) = ok-then (positive (codes "window") rule.window) _ u h2 in
      let ((u4, c4), h4) =
        ok-then
          (refuse_if (not (one_of metrics rule.metric)) (at (codes "metric"))
            (codes "unsupported alert metric"))
          _ u h3 in
      let ((u5, c5), h5) =
        ok-then
          (refuse_if (not (one_of operators rule.operator)) (at (codes "operator")) unsupported) _ u
          h4 in
      let ((u6, c6), h6) = ok-then (check_some rule.clear_operator (known_operator rule)) _ u h5 in
      let ((u7, c7), h7) =
        ok-then (validate_alert_threshold f rule.threshold rule.metric (at (codes "threshold"))) _ u
          h6 in
      let ((u8, c8), h8) =
        ok-then
          (check_some rule.clear_threshold (λ threshold.
            validate_alert_threshold f threshold rule.metric (at (codes "clear_threshold"))))
          _ u h7 in
      let ((u9, c9), h9) =
        ok-then (check_some rule.duration (positive (codes "duration"))) _ u h8 in
      let ((u10, c10), h10) =
        ok-then (check_some rule.repeat_every (positive (codes "repeat_every"))) _ u h9 in
      let ((u11, c11), h11) =
        ok-then (check_some rule.no_data_period (positive (codes "no_data_period"))) _ u h10 in
      let ((u12, c12), h12) =
        ok-then
          (refuse_if (is_zero f rule.minimum_rounds) (at (codes "minimum_rounds")) must_be_positive)
          _ u h11 in
      record {
        profile_known = known (contains rule.profile profile_ids) _ _ u1 c1;
        notifier_known = known (contains rule.notifier notifier_ids) _ _ u2 c2;
        metric_known = known (one_of metrics rule.metric) _ _ u4 c4;
        operator_known = known (one_of operators rule.operator) _ _ u5 c5;
        clear_operator_known =
            IfSome-check _ rule.clear_operator (known_operator rule) u6
              (λ s v e. known (one_of operators s) _ _ v e) c6;
        threshold_valid = c7;
        window_positive = positive_field-IsPositiveDuration rule (codes "window") rule.window u3 c3;
        duration_positive =
            IfSome-check _ rule.duration _ u9
              (positive_field-IsPositiveDuration rule (codes "duration")) c9;
        repeat_positive =
            IfSome-check _ rule.repeat_every _ u10
              (positive_field-IsPositiveDuration rule (codes "repeat_every")) c10;
        period_positive =
            IfSome-check _ rule.no_data_period _ u11
              (positive_field-IsPositiveDuration rule (codes "no_data_period")) c11;
        minimum_positive = ok-refuse_if (is_zero f rule.minimum_rounds) _ _ u12 c12;
        samples_positive = ok-refuse_if (is_zero f rule.minimum_latency_samples) _ _ u h12;
      }

  -- The ids of the rules are new, and differ from each other.
  abbrev pub Distinct : List Text → List AlertRuleConfig → Type 0
  Distinct seen [] = Unit
  Distinct seen (rule ∷ rules) = (contains rule.id seen ≡ false) × Distinct (rule.id ∷ seen) rules

  validate_rules-IsValidRule :
      (seen : List Text) (rules : List AlertRuleConfig) (u : Unit {0})
      → validate_rules f profile_ids notifier_ids seen rules ≡ ok u
      → Distinct seen rules × All (IsValidRule f profile_ids notifier_ids) rules
  unfolding validate_rules
  validate_rules-IsValidRule seen [] u h = (tt, tt)
  validate_rules-IsValidRule seen (rule ∷ rules) u h =
      let ((u1, c1), h1) =
        ok-then (refuse_seen rule.id seen (codes "rules." ++ rule.id) (codes "duplicate rule id")) _
          u h in
      let ((u2, c2), h2) = ok-then (validate_rule f profile_ids notifier_ids rule) _ u h1 in
      let (distinct, valid) = validate_rules-IsValidRule (rule.id ∷ seen) rules u h2 in
      (
        (ok-refuse_if (contains rule.id seen) _ _ u1 c1, distinct),
        (validate_rule-IsValidRule rule u2 c2, valid),
      )

-- In a configuration that is accepted the rules have different ids; each names a profile and a
-- notifier of the configuration, a supported metric and supported operators, a threshold that is
-- valid for the metric, durations above zero where it has any, and minima other than zero.
pub validate_with_warnings-IsValidRule :
    (f : Float) (c : KemuriConfig) (warnings : List ConfigWarning)
    → validate_with_warnings f c ≡ ok warnings
    → let profiles = map profile_id c.profiles in
      let notifiers = map notifier_id c.notifiers in
      Distinct f profiles notifiers [] c.rules × All (IsValidRule f profiles notifiers) c.rules
unfolding validate_with_warnings
validate_with_warnings-IsValidRule f c warnings h =
    let profiles = map profile_id c.profiles in
    let notifiers = map notifier_id c.notifiers in
    let (version, h1) =
      ok-then
        (refuse_if (not (c.version == 1)) (codes "version")
          (codes "unsupported config version: " ++ print_decimal c.version))
        _ warnings h in
    let (valid, h2) = ok-then (validate_profiles [] c.profiles) _ warnings h1 in
    let (collected, e, h3) = ok-bind (validate_notifiers [] c.notifiers []) _ warnings h2 in
    let ((u, rules), h4) = ok-then (validate_rules f profiles notifiers [] c.rules) _ warnings h3 in
    validate_rules-IsValidRule f profiles notifiers [] c.rules u rules
