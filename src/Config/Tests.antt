-- ===== src/Config/Tests.antt =====
-- The theorems on the configuration at one with a profile, a notifier, a rule and a check.
use kemuri.Base.{ℕ, ◌-◌, ◌*◌, ◌≡◌, refl, true, false, if◌then◌else◌, ◌==◌}
use kemuri.Base.{Option, none, some, is_some, List, [], ◌∷◌, ◌++◌, All}
use kemuri.Base.Text.{Text, codes, trim, trim_start, parse_uint, parse_digits}
use kemuri.Base.Float.{Float}
use kemuri.Base.Examples.{thousandths}
use kemuri.Core.Kinds.{icmp}
use kemuri.Core.Duration.{
  parse_duration, parse_trimmed, split_duration, split_at, split_digits, cons_left, number,
  to_millis, checked_mul, finish,
}
use kemuri.Alerts.Rule.{AlertRuleConfig, parse_threshold}
use kemuri.Config.Error.{ok, duration_at}
use kemuri.Config.Types.{
  literal, range, icmp_profile, webhook, icmp_params, TargetConfig, CheckConfig, KemuriConfig,
  ConfigWarning,
}
use kemuri.Config.Types.{ResolvedCheckDef, ResolvedProbeParams}
use kemuri.Config.Values.{
  Outside, parse_percentage_value, validate_alert_threshold, validate_retention, validate_storage,
  validate_scheduler, resolve_status,
}
use kemuri.Config.Values.Laws.{parse_threshold-parse_percentage_value}
use kemuri.Config.Validate.{
  validate_profile, validate_profiles, validate_notifiers, validate_rule, validate_rules,
  validate_checks, validate_targets, validate_with_warnings,
}
use kemuri.Config.Validate.Rules.{Distinct, IsValidRule, validate_with_warnings-IsValidRule}
use kemuri.Config.Params.{resolve_icmp, resolve_params, validate_params}
use kemuri.Config.Resolve.{resolve_check, resolve_one, resolve_checks, resolve_targets, resolve}
use kemuri.Config.Resolve.Laws.{EachResolved, resolve-EachResolved}
use kemuri.Config.Equal.{check_eq}
use kemuri.Config.Diff.{target_of, is_modified, add_common, common, compute, is_empty_diff}
use kemuri.Config.Diff.Laws.{WasThere, compute-IsUnchanged}

-- A float type that reads one digit.
abbrev parse_digit : Text → Option ℕ
parse_digit [] = none
parse_digit (c ∷ []) = if c == 37 then none else some ((c - 48) * 1000)
parse_digit (c ∷ d ∷ s) = none

abbrev digits : Float
digits = record thousandths { parse = parse_digit }

no_sign : (s : Text) → parse_digit (s ++ (37 ∷ [])) ≡ none
no_sign [] = refl
no_sign (c ∷ []) = refl
no_sign (c ∷ d ∷ s) = refl

five_percent : parse_percentage_value digits (codes "5%") (codes "path") ≡ ok 50
unfolding parse_percentage_value
five_percent = refl

parse_threshold-parse_percentage_value_example :
    parse_threshold digits (codes "5%") (codes "no_data") ≡ 50
parse_threshold-parse_percentage_value_example =
    parse_threshold-parse_percentage_value digits (codes "5%") (codes "no_data") (codes "path") 50
      no_sign five_percent

success_range : resolve_status (range (codes "200-299")) ≡ ok (none, some (200, 299))
unfolding resolve_status parse_uint parse_digits
success_range = refl

abbrev check : CheckConfig
check = record {
  id = codes "ping";
  profile = codes "lan";
  enabled = true;
  kind = none;
  interval = some (codes "5s");
  timeout = none;
  url = none;
  method = none;
  headers = none;
  expected_status = none;
  body = none;
  host = none;
  port = none;
  domain = none;
  record_type = none;
  resolver = none;
  count = none;
  address_family = none;
  payload_size = none;
  source_address = none;
  follow_redirects = none;
  max_redirect_count = none;
  connection_mode = none;
  measure_until = none;
  user_agent = none;
  tls_validate = none;
  root_certificates = none;
  tls = none;
  protocol = none;
  expected_rcode = none;
  require_answer = none;
}

abbrev target : TargetConfig
target = record {
  id = codes "gw";
  address = codes "10.0.0.1";
  name = none;
  group_path = none;
  labels = none;
  checks = check ∷ record check { id = codes "off"; enabled = false } ∷ [];
  enabled = true;
}

abbrev rule : AlertRuleConfig
rule = record {
  id = codes "loss";
  profile = codes "lan";
  metric = codes "measurement_loss_ratio";
  operator = codes "gte";
  threshold = codes "5%";
  window = codes "5m";
  notifier = codes "ops";
  duration = some (codes "1m");
  clear_threshold = none;
  clear_operator = none;
  repeat_every = none;
  minimum_rounds = none;
  minimum_latency_samples = none;
  no_data_period = none;
}

abbrev config : KemuriConfig
config = record {
  version = 1;
  shutdown_timeout = codes "9s";
  storage = record {
    retention = record {
      raw_rounds = codes "7d";
      rollup_5m = codes "forever";
      rollup_1h = codes "forever";
      alert_events = codes "forever";
      notification_records = codes "forever";
    };
    disk_pressure = record { warning_free = codes "9%"; critical_free = codes "5%" };
  };
  scheduler = record {
    tick_interval = codes "1s";
    max_concurrent = 8;
    default_jitter = codes "1%";
    max_concurrent_by_probe = record {
      icmp_limit = some 4;
      http_limit = none;
      tcp_limit = none;
      dns_limit = none;
    };
  };
  profiles =
      icmp_profile (record {
        id = codes "lan";
        interval = codes "9s";
        timeout = codes "2s";
        count = 3;
        address_family = none;
        payload_size = none;
        source_address = none;
      })
      ∷ [];
  notifiers = webhook (record { id = codes "ops"; url = literal (codes "u"); headers = none }) ∷ [];
  rules = rule ∷ [];
  targets = target ∷ [];
}

abbrev warnings : List ConfigWarning
warnings =
    record {
      path = codes "notifiers.ops.url";
      message = codes "literal secret value for URL; use from_env or from_file";
    }
    ∷ []

config_valid : validate_with_warnings digits config ≡ ok warnings
unfolding validate_with_warnings validate_profiles validate_profile validate_notifiers
    validate_rules validate_rule validate_targets validate_checks validate_alert_threshold
    validate_scheduler validate_storage validate_retention parse_percentage_value duration_at
    parse_duration parse_trimmed split_duration split_at split_digits cons_left number to_millis
    checked_mul finish trim trim_start parse_uint parse_digits
config_valid = refl

validate_with_warnings-IsValidRule_example :
    Distinct digits (codes "lan" ∷ []) (codes "ops" ∷ []) [] (rule ∷ [])
    × All (IsValidRule digits (codes "lan" ∷ []) (codes "ops" ∷ [])) (rule ∷ [])
validate_with_warnings-IsValidRule_example =
    validate_with_warnings-IsValidRule digits config warnings config_valid

abbrev outside : Outside
outside = record {
  env_var = λ name. none;
  read_file = λ path. none;
  trim_newlines = λ s. s;
  parse_url = λ url. (codes "http", true);
  is_method = λ m. true;
  parse_ip = λ s. some true;
  is_socket_addr = λ s. false;
  read_pem = λ file. (none, []);
}

abbrev revision_of : Text → Text → ℕ → ℕ → ResolvedProbeParams → Text
revision_of check profile interval timeout params = codes "rev-" ++ check

abbrev resolved : List ResolvedCheckDef
resolved =
    record {
      check_id = codes "ping";
      target_id = codes "gw";
      target_address = codes "10.0.0.1";
      profile_id = codes "lan";
      probe_kind = icmp;
      interval = 5000;
      timeout = 2000;
      revision_id = codes "rev-ping";
      probe_params = icmp_params (record {
        count = 3;
        address_family = codes "auto";
        payload_size = 56;
        source_address = none;
      });
    }
    ∷ []

config_resolves : resolve outside revision_of digits config ≡ ok resolved
unfolding resolve resolve_targets resolve_checks resolve_one resolve_check resolve_params
    resolve_icmp validate_params validate_with_warnings validate_profiles validate_profile
    validate_notifiers validate_rules validate_rule validate_targets validate_checks
    validate_alert_threshold validate_scheduler validate_storage validate_retention
    parse_percentage_value duration_at parse_duration parse_trimmed split_duration split_at
    split_digits cons_left number to_millis checked_mul finish trim trim_start parse_uint
    parse_digits
config_resolves = refl

resolve-EachResolved_example :
    EachResolved outside revision_of config.profiles ((target, check) ∷ []) resolved
resolve-EachResolved_example =
    resolve-EachResolved outside revision_of digits config resolved config_resolves

no_change : is_empty_diff (compute config config) ≡ true
unfolding is_empty_diff compute common add_common is_modified check_eq
no_change = refl

compute-IsUnchanged_example :
    All (WasThere (target ∷ [])) (target ∷ [])
    × All (λ t. is_some (target_of t.id (target ∷ [])) ≡ true) (target ∷ [])
compute-IsUnchanged_example = compute-IsUnchanged config config no_change
