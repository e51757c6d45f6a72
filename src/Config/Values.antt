-- ===== src/Config/Values.antt =====
-- The checks of single values in crates/kemuri-config/src/lib.rs. `Outside` is what the
-- code asks other crates and the operating system for.
pub mod Laws
use kemuri.Base.{ℕ, ◌≡◌, ◌^◌, Bool, true, false, not, ◌&&◌, ◌||◌, if◌then◌else◌, ltb, leb, ◌==◌}
use kemuri.Base.{Option, none, some, List, [], ◌∷◌, ◌++◌, reverse, any}
use kemuri.Base.Text.{Text, codes, text_eq, parse_uint}
use kemuri.Base.Float.{Float}
use kemuri.Scheduler.State.{ProbeLimits}
use kemuri.Retention.Worker.{RetentionConfig}
use kemuri.Alerts.Rule.{is_latency_metric}
use kemuri.Config.Error.{
  ConfigError, io, Result, ok, err, ◌>>=◌, ◌>>◌, refuse_if, or_refuse, duration_at,
}
use kemuri.Config.Types.{
  SecretRef, literal, from_env, from_file, HttpStatusExpectation, status, range,
}
use kemuri.Config.Types.{StorageConfig, SchedulerConfig}

-- `["…", …].contains(&s)`
abbrev pub one_of : List Text → Text → Bool
one_of allowed s = any (λ a. text_eq a s) allowed

-- `strip_suffix('%')`, on the reversed text.
abbrev pub strip_reversed : Text → Option Text
strip_reversed [] = none
strip_reversed (c ∷ s) = if c == b'%' then some (reverse s) else none

abbrev pub strip_percent : Text → Option Text
strip_percent s = strip_reversed (reverse s)

-- `split_once('-')`
abbrev pub cons_first : ℕ → Option (Text × Text) → Option (Text × Text)
cons_first c none = none
cons_first c (some (a, b)) = some (c ∷ a, b)

abbrev pub split_dash : Text → Option (Text × Text)
split_dash [] = none
split_dash (c ∷ s) =
    let rest = split_dash s in if c == b'-' then some ([], s) else cons_first c rest

-- A parsed duration that is to be positive.
abbrev pub positive_at : Text → Text → Text → Result ℕ
positive_at value path message = do
  d ← duration_at value path
  refuse_if (d == 0) path message
  ok d

abbrev pub must_be_positive : Text
must_be_positive = codes "must be greater than zero"

module _ (f : Float) where
  open f use {F64, literal, div, le, lt, is_finite, parse}

  abbrev pub within_percent : F64 → Bool
  within_percent x = le (literal 0 0) x && le x (literal 100 0)

  unfoldable pub parse_percentage_value : Text → Text → Result F64
  parse_percentage_value value path = do
    digits ← or_refuse (strip_percent value) path (codes "must be a percentage such as 10%")
    number ← or_refuse (parse digits) path (codes "must be a valid percentage")
    refuse_if (not (within_percent number)) path (codes "must be between 0% and 100%")
    ok (div number (literal 100 0))

  abbrev pub is_ratio_metric : Text → Bool
  is_ratio_metric metric =
      one_of
        (codes "measurement_loss_ratio"
          ∷ codes "health_failure_ratio"
          ∷ codes "healthy_sample_ratio"
          ∷ [])
        metric

  unfoldable pub validate_alert_threshold : Text → Text → Text → Result (Unit {0})
  validate_alert_threshold value metric path =
      if is_ratio_metric metric
      then parse_percentage_value value path >> ok tt
      else if is_latency_metric metric
      then positive_at value path must_be_positive >> ok tt
      else do
        number ← or_refuse (parse value) path (codes "must be a finite number")
        refuse_if (not (is_finite number) || lt number (literal 0 0)) path
            (codes "must be a finite number greater than or equal to zero")

  -- `StorageConfig::validate`, with `RetentionConfig::validate`.
  abbrev pub validate_retention_field : Text × Text → Result (Unit {0})
  validate_retention_field (name, value) =
      if text_eq value (codes "forever")
      then ok tt
      else positive_at value (codes "storage.retention." ++ name)
          (codes "retention must be greater than zero")
        >> ok tt

  abbrev pub validate_retention_fields : List (Text × Text) → Result (Unit {0})
  validate_retention_fields [] = ok tt
  validate_retention_fields (field ∷ fields) =
      validate_retention_field field >> validate_retention_fields fields

  unfoldable pub validate_retention : RetentionConfig → Result (Unit {0})
  validate_retention c = validate_retention_fields (
      (codes "raw_rounds", c.raw_rounds)
      ∷ (codes "rollup_5m", c.rollup_5m)
      ∷ (codes "rollup_1h", c.rollup_1h)
      ∷ (codes "alert_events", c.alert_events)
      ∷ (codes "notification_records", c.notification_records)
      ∷ [])

  unfoldable pub validate_storage : StorageConfig → Result (Unit {0})
  validate_storage c = do
    validate_retention c.retention
    warning ←
        parse_percentage_value c.disk_pressure.warning_free
          (codes "storage.disk_pressure.warning_free")
    critical ←
        parse_percentage_value c.disk_pressure.critical_free
          (codes "storage.disk_pressure.critical_free")
    refuse_if (le warning critical) (codes "storage.disk_pressure")
        (codes "critical_free must be less than warning_free")

  abbrev pub is_zero : Option ℕ → Bool
  is_zero none = false
  is_zero (some n) = n == 0

  abbrev pub validate_limits : List (Text × Option ℕ) → Result (Unit {0})
  validate_limits [] = ok tt
  validate_limits ((kind, limit) ∷ limits) =
      refuse_if (is_zero limit) (codes "scheduler.max_concurrent_by_probe." ++ kind)
        must_be_positive
      >> validate_limits limits

  -- `SchedulerConfig::validate`
  unfoldable pub validate_scheduler : SchedulerConfig → Result (Unit {0})
  validate_scheduler c = do
    positive_at c.tick_interval (codes "scheduler.tick_interval") must_be_positive
    refuse_if (c.max_concurrent == 0) (codes "scheduler.max_concurrent") must_be_positive
    parse_percentage_value c.default_jitter (codes "scheduler.default_jitter")
    validate_limits (
        (codes "icmp", c.max_concurrent_by_probe.icmp_limit)
        ∷ (codes "http", c.max_concurrent_by_probe.http_limit)
        ∷ (codes "tcp", c.max_concurrent_by_probe.tcp_limit)
        ∷ (codes "dns", c.max_concurrent_by_probe.dns_limit)
        ∷ [])

-- `HttpStatusExpectation::resolve`
abbrev pub is_status : ℕ → Bool
is_status n = leb 100 n && leb n 599

unfoldable pub resolve_status : HttpStatusExpectation → Result (Option ℕ × Option (ℕ × ℕ))
resolve_status (status n) = do
  refuse_if (not (is_status n)) (codes "expected_status")
      (codes "HTTP status must be between 100 and 599")
  ok (some n, none)
resolve_status (range value) = do
  (from, to) ←
      or_refuse (split_dash value) (codes "expected_status")
        (codes "status range must use START-END")
  start ←
      or_refuse (parse_uint (2 ^ 16) from) (codes "expected_status") (codes "invalid status range")
  end ← or_refuse (parse_uint (2 ^ 16) to) (codes "expected_status") (codes "invalid status range")
  refuse_if (not (is_status start) || not (is_status end) || ltb end start)
      (codes "expected_status") (codes "status range must be ordered and between 100 and 599")
  ok (none, some (start, end))

-- The environment, files, and the parsers of url, http, std::net and rustls: `parse_url` gives the
-- scheme or the error's text, `parse_ip` whether the address is one of IPv4, and `read_pem` the
-- certificates of a file, each of which may be refused, or the error's text.
pub record Outside : Type 0 where
  pub env_var : Text → Option Text
  pub read_file : Text → Option Text
  pub trim_newlines : Text → Text
  pub parse_url : Text → Text × Bool
  pub is_method : Text → Bool
  pub parse_ip : Text → Option Bool
  pub is_socket_addr : Text → Bool
  pub read_pem : Text → Option (List (Option Text)) × Text

module _ (o : Outside) where
  abbrev pub read_secret : Option Text → Result Text
  read_secret none = err io
  read_secret (some value) = ok (o.trim_newlines value)

  -- `SecretRef::resolve`
  unfoldable pub resolve_secret : SecretRef → Result Text
  resolve_secret (literal value) = ok value
  resolve_secret (from_env name) =
      or_refuse (o.env_var name) (codes "secret")
        (codes "environment variable is not set: " ++ name)
  resolve_secret (from_file path) = read_secret (o.read_file path)
