-- ===== src/Config/Validate.antt =====
-- `validate_with_warnings` of crates/kemuri-config/src/lib.rs.
pub mod Rules
use kemuri.Base.{
  ℕ, Bool, true, false, not, ◌&&◌, if◌then◌else◌, ◌==◌, Option, none, some, unwrap_or,
}
use kemuri.Base.{List, [], ◌∷◌, ◌++◌, any, map}
use kemuri.Base.Text.{Text, codes, text_eq, print_decimal}
use kemuri.Base.Float.{Float}
use kemuri.Core.Kinds.{ProbeKind, icmp, http, tcp, dns}
use kemuri.Alerts.Rule.{AlertRuleConfig}
use kemuri.Config.Error.{Result, ok, err, ◌>>=◌, ◌>>◌, refuse_if, duration_at}
use kemuri.Config.Types.{ConfigWarning, SecretRef, literal, from_env, from_file, ProbeProfileConfig}
use kemuri.Config.Types.{icmp_profile, http_profile, tcp_profile, dns_profile, NotifierConfig}
use kemuri.Config.Types.{webhook, smtp, CheckConfig, TargetConfig, KemuriConfig}
use kemuri.Config.Values.{one_of, positive_at, must_be_positive, is_zero, validate_alert_threshold}
use kemuri.Config.Values.{validate_storage, validate_scheduler}

-- `ProbeProfileConfig::id`, `kind`, `interval_str` and `timeout_str`
abbrev pub profile_id : ProbeProfileConfig → Text
profile_id (icmp_profile p) = p.id
profile_id (http_profile p) = p.id
profile_id (tcp_profile p) = p.id
profile_id (dns_profile p) = p.id

abbrev pub profile_kind : ProbeProfileConfig → ProbeKind
profile_kind (icmp_profile p) = icmp
profile_kind (http_profile p) = http
profile_kind (tcp_profile p) = tcp
profile_kind (dns_profile p) = dns

abbrev pub interval_str : ProbeProfileConfig → Text
interval_str (icmp_profile p) = p.interval
interval_str (http_profile p) = p.interval
interval_str (tcp_profile p) = p.interval
interval_str (dns_profile p) = p.interval

abbrev pub timeout_str : ProbeProfileConfig → Text
timeout_str (icmp_profile p) = p.timeout
timeout_str (http_profile p) = p.timeout
timeout_str (tcp_profile p) = p.timeout
timeout_str (dns_profile p) = p.timeout

-- `ProbeProfileConfig::validate`
unfoldable pub validate_profile : ProbeProfileConfig → Result (Unit {0})
validate_profile p = do
  let path = codes "profiles." ++ profile_id p
  duration_at (interval_str p) (path ++ codes ".interval")
  positive_at (interval_str p) (path ++ codes ".interval") must_be_positive
  positive_at (timeout_str p) (path ++ codes ".timeout") must_be_positive
  ok tt

-- `contains` of a set or a list of identifiers.
abbrev pub contains : Text → List Text → Bool
contains id ids = any (λ i. text_eq i id) ids

abbrev pub refuse_seen : Text → List Text → Text → Text → Result (Unit {0})
refuse_seen id seen path message = refuse_if (contains id seen) path message

unfoldable pub validate_profiles : List Text → List ProbeProfileConfig → Result (Unit {0})
validate_profiles seen [] = ok tt
validate_profiles seen (p ∷ ps) = do
  refuse_seen (profile_id p) seen (codes "profiles." ++ profile_id p) (codes "duplicate profile id")
  validate_profile p
  validate_profiles (profile_id p ∷ seen) ps

abbrev pub notifier_id : NotifierConfig → Text
notifier_id (webhook p) = p.id
notifier_id (smtp p) = p.id

-- A warning for a secret that stands in the configuration.
abbrev pub warn_literal : Text → Text → SecretRef → List ConfigWarning
warn_literal path message (literal value) = record { path = path; message = message } ∷ []
warn_literal path message (from_env name) = []
warn_literal path message (from_file file) = []

abbrev pub warn_some : Text → Text → Option SecretRef → List ConfigWarning
warn_some path message none = []
warn_some path message (some secret) = warn_literal path message secret

abbrev pub warn_headers : Text → List (Text × SecretRef) → List ConfigWarning
warn_headers id [] = []
warn_headers id ((key, value) ∷ headers) =
    warn_literal (codes "notifiers." ++ id ++ codes ".headers." ++ key)
      (codes "literal secret value in header; use from_env or from_file") value
    ++ warn_headers id headers

-- `NotifierConfig::collect_warnings`
abbrev pub notifier_warnings : NotifierConfig → List ConfigWarning
notifier_warnings (webhook p) =
    warn_literal (codes "notifiers." ++ p.id ++ codes ".url")
      (codes "literal secret value for URL; use from_env or from_file") p.url
    ++ warn_headers p.id (unwrap_or p.headers [])
notifier_warnings (smtp p) =
    warn_some (codes "notifiers." ++ p.id ++ codes ".password")
      (codes "literal secret value for password; use from_env or from_file") p.password

unfoldable pub validate_notifiers :
    List Text → List NotifierConfig → List ConfigWarning → Result (List ConfigWarning)
validate_notifiers seen [] warnings = ok warnings
validate_notifiers seen (n ∷ ns) warnings =
    refuse_seen (notifier_id n) seen (codes "notifiers." ++ notifier_id n)
      (codes "duplicate notifier id")
    >> validate_notifiers (notifier_id n ∷ seen) ns (warnings ++ notifier_warnings n)

abbrev pub metrics : List Text
metrics =
    codes "measurement_loss_ratio"
    ∷ codes "health_failure_ratio"
    ∷ codes "healthy_sample_ratio"
    ∷ codes "consecutive_total_loss_rounds"
    ∷ codes "consecutive_unhealthy_rounds"
    ∷ codes "p50_latency"
    ∷ codes "p95_latency"
    ∷ codes "p99_latency"
    ∷ codes "no_data"
    ∷ []

abbrev pub operators : List Text
operators = codes "gt" ∷ codes "gte" ∷ codes "lt" ∷ codes "lte" ∷ []

-- A check that is made only of a value that is there.
abbrev pub check_some : {A : Type 0} → Option A → (A → Result (Unit {0})) → Result (Unit {0})
check_some none check = ok tt
check_some (some a) check = check a

abbrev pub rule_path : AlertRuleConfig → Text → Text
rule_path rule field = codes "rules." ++ rule.id ++ codes "." ++ field

abbrev pub positive_field : AlertRuleConfig → Text → Text → Result (Unit {0})
positive_field rule field value = positive_at value (rule_path rule field) must_be_positive >> ok tt

abbrev pub known_operator : AlertRuleConfig → Text → Result (Unit {0})
known_operator rule operator =
    refuse_if (not (one_of operators operator)) (rule_path rule (codes "clear_operator"))
      (codes "unsupported alert operator")

module _ (f : Float) where
  -- The body of the loop over the rules, behind the test for a duplicate.
  unfoldable pub validate_rule : List Text → List Text → AlertRuleConfig → Result (Unit {0})
  validate_rule profile_ids notifier_ids rule = do
    refuse_if (not (contains rule.profile profile_ids)) (rule_path rule (codes "profile"))
        (codes "references unknown profile: " ++ rule.profile)
    refuse_if (not (contains rule.notifier notifier_ids)) (rule_path rule (codes "notifier"))
        (codes "references unknown notifier: " ++ rule.notifier)
    positive_field rule (codes "window") rule.window
    refuse_if (not (one_of metrics rule.metric)) (rule_path rule (codes "metric"))
        (codes "unsupported alert metric")
    refuse_if (not (one_of operators rule.operator)) (rule_path rule (codes "operator"))
        (codes "unsupported alert operator")
    check_some rule.clear_operator (known_operator rule)
    validate_alert_threshold f rule.threshold rule.metric (rule_path rule (codes "threshold"))
    check_some rule.clear_threshold (λ threshold.
        validate_alert_threshold f threshold rule.metric (rule_path rule (codes "clear_threshold")))
    check_some rule.duration (positive_field rule (codes "duration"))
    check_some rule.repeat_every (positive_field rule (codes "repeat_every"))
    check_some rule.no_data_period (positive_field rule (codes "no_data_period"))
    refuse_if (is_zero f rule.minimum_rounds) (rule_path rule (codes "minimum_rounds"))
        must_be_positive
    refuse_if (is_zero f rule.minimum_latency_samples)
        (rule_path rule (codes "minimum_latency_samples")) must_be_positive

  unfoldable pub validate_rules :
      List Text → List Text → List Text → List AlertRuleConfig → Result (Unit {0})
  validate_rules profile_ids notifier_ids seen [] = ok tt
  validate_rules profile_ids notifier_ids seen (rule ∷ rules) = do
    refuse_seen rule.id seen (codes "rules." ++ rule.id) (codes "duplicate rule id")
    validate_rule profile_ids notifier_ids rule
    validate_rules profile_ids notifier_ids (rule.id ∷ seen) rules

abbrev pub check_path : TargetConfig → CheckConfig → Text
check_path target check = codes "targets." ++ target.id ++ codes ".checks." ++ check.id

-- `TargetConfig::validate`
unfoldable pub validate_checks :
    List Text
    → TargetConfig
    → List Text
    → List CheckConfig
    → List ConfigWarning
    → Result (List ConfigWarning)
validate_checks profile_ids target seen [] warnings = ok warnings
validate_checks profile_ids target seen (c ∷ cs) warnings =
    refuse_seen c.id seen (check_path target c) (codes "duplicate check id within target")
    >> refuse_if (not (contains c.profile profile_ids)) (check_path target c ++ codes ".profile")
        (codes "references unknown profile: " ++ c.profile)
    >> validate_checks profile_ids target (c.id ∷ seen) cs (
        warnings
        ++ warn_some (check_path target c ++ codes ".body")
            (codes "literal secret value for body; use from_env or from_file") c.body)

unfoldable pub validate_targets :
    List Text → List Text → List TargetConfig → List ConfigWarning → Result (List ConfigWarning)
validate_targets profile_ids seen [] warnings = ok warnings
validate_targets profile_ids seen (target ∷ targets) warnings = do
  refuse_seen target.id seen (codes "targets." ++ target.id) (codes "duplicate target id")
  more ← validate_checks profile_ids target [] target.checks warnings
  validate_targets profile_ids (target.id ∷ seen) targets more

module _ (f : Float) where
  unfoldable pub validate_with_warnings : KemuriConfig → Result (List ConfigWarning)
  validate_with_warnings c = do
    refuse_if (not (c.version == 1)) (codes "version")
        (codes "unsupported config version: " ++ print_decimal c.version)
    validate_profiles [] c.profiles
    collected ← validate_notifiers [] c.notifiers []
    validate_rules f (map profile_id c.profiles) (map notifier_id c.notifiers) [] c.rules
    warnings ← validate_targets (map profile_id c.profiles) [] c.targets collected
    validate_scheduler f c.scheduler
    validate_storage f c.storage
    duration_at c.shutdown_timeout (codes "server.shutdown_timeout")
    ok warnings
