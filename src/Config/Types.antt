-- ===== src/Config/Types.antt =====
-- The records of crates/kemuri-config/src/lib.rs, with the fields that its functions read. An
-- identifier is its text, and a HashMap of texts a list with one entry for a key.
use kemuri.Base.{ℕ, Bool, Option, List}
use kemuri.Base.Text.{Text}
use kemuri.Core.Kinds.{ProbeKind}
use kemuri.Alerts.Rule.{AlertRuleConfig}
use kemuri.Scheduler.State.{ProbeLimits}
use kemuri.Retention.Worker.{RetentionConfig}

pub record ConfigWarning : Type 0 where
  pub path : Text
  pub message : Text

pub data SecretRef : Type 0 where
  literal : Text → SecretRef
  from_env : Text → SecretRef
  from_file : Text → SecretRef

pub data HttpStatusExpectation : Type 0 where
  status : ℕ → HttpStatusExpectation
  range : Text → HttpStatusExpectation

pub record TcpTlsConfig : Type 0 where
  pub enabled : Bool
  pub server_name : Option Text
  pub tls_validate : Option Bool
  pub root_certificates : Option (List Text)

pub record IcmpProfileParams : Type 0 where
  pub id : Text
  pub interval : Text
  pub timeout : Text
  pub count : ℕ
  pub address_family : Option Text
  pub payload_size : Option ℕ
  pub source_address : Option Text

pub record HttpProfileParams : Type 0 where
  pub id : Text
  pub interval : Text
  pub timeout : Text
  pub url : Text
  pub method : Option Text
  pub headers : Option (List (Text × Text))
  pub expected_status : Option HttpStatusExpectation
  pub body : Option SecretRef
  pub follow_redirects : Option Bool
  pub max_redirect_count : Option ℕ
  pub connection_mode : Option Text
  pub measure_until : Option Text
  pub user_agent : Option Text
  pub tls_validate : Option Bool
  pub root_certificates : Option (List Text)

pub record TcpProfileParams : Type 0 where
  pub id : Text
  pub interval : Text
  pub timeout : Text
  pub host : Text
  pub port : ℕ
  pub address_family : Option Text
  pub source_address : Option Text
  pub tls : Option TcpTlsConfig

pub record DnsProfileParams : Type 0 where
  pub id : Text
  pub interval : Text
  pub timeout : Text
  pub domain : Text
  pub record_type : Option Text
  pub resolver : Option Text
  pub protocol : Option Text
  pub expected_rcode : Option Text
  pub require_answer : Option Bool

pub data ProbeProfileConfig : Type 0 where
  icmp_profile : IcmpProfileParams → ProbeProfileConfig
  http_profile : HttpProfileParams → ProbeProfileConfig
  tcp_profile : TcpProfileParams → ProbeProfileConfig
  dns_profile : DnsProfileParams → ProbeProfileConfig

pub record WebhookNotifierParams : Type 0 where
  pub id : Text
  pub url : SecretRef
  pub headers : Option (List (Text × SecretRef))

pub record SmtpNotifierParams : Type 0 where
  pub id : Text
  pub password : Option SecretRef

pub data NotifierConfig : Type 0 where
  webhook : WebhookNotifierParams → NotifierConfig
  smtp : SmtpNotifierParams → NotifierConfig

pub record CheckConfig : Type 0 where
  pub id : Text
  pub profile : Text
  pub enabled : Bool
  pub kind : Option ProbeKind
  pub interval : Option Text
  pub timeout : Option Text
  pub url : Option Text
  pub method : Option Text
  pub headers : Option (List (Text × Text))
  pub expected_status : Option HttpStatusExpectation
  pub body : Option SecretRef
  pub host : Option Text
  pub port : Option ℕ
  pub domain : Option Text
  pub record_type : Option Text
  pub resolver : Option Text
  pub count : Option ℕ
  pub address_family : Option Text
  pub payload_size : Option ℕ
  pub source_address : Option Text
  pub follow_redirects : Option Bool
  pub max_redirect_count : Option ℕ
  pub connection_mode : Option Text
  pub measure_until : Option Text
  pub user_agent : Option Text
  pub tls_validate : Option Bool
  pub root_certificates : Option (List Text)
  pub tls : Option TcpTlsConfig
  pub protocol : Option Text
  pub expected_rcode : Option Text
  pub require_answer : Option Bool

pub record TargetConfig : Type 0 where
  pub id : Text
  pub address : Text
  pub name : Option Text
  pub group_path : Option Text
  pub labels : Option (List (Text × Text))
  pub checks : List CheckConfig
  pub enabled : Bool

pub record DiskPressureConfig : Type 0 where
  pub warning_free : Text
  pub critical_free : Text

pub record StorageConfig : Type 0 where
  pub retention : RetentionConfig
  pub disk_pressure : DiskPressureConfig

pub record SchedulerConfig : Type 0 where
  pub tick_interval : Text
  pub max_concurrent : ℕ
  pub default_jitter : Text
  pub max_concurrent_by_probe : ProbeLimits

pub record KemuriConfig : Type 0 where
  pub version : ℕ
  pub shutdown_timeout : Text  -- of `server`
  pub storage : StorageConfig
  pub scheduler : SchedulerConfig
  pub profiles : List ProbeProfileConfig
  pub notifiers : List NotifierConfig
  pub rules : List AlertRuleConfig
  pub targets : List TargetConfig

pub record ResolvedIcmpParams : Type 0 where
  pub count : ℕ
  pub address_family : Text
  pub payload_size : ℕ
  pub source_address : Option Text

pub record ResolvedHttpParams : Type 0 where
  pub url : Text
  pub method : Option Text
  pub headers : List (Text × Text)
  pub expected_status : Option ℕ
  pub expected_status_range : Option (ℕ × ℕ)
  pub body : Option Text
  pub follow_redirects : Bool
  pub max_redirect_count : ℕ
  pub connection_mode : Text
  pub measure_until : Text
  pub user_agent : Option Text
  pub tls_validate : Bool
  pub root_certificates : List Text

pub record ResolvedTcpParams : Type 0 where
  pub host : Text
  pub port : ℕ
  pub address_family : Text
  pub source_address : Option Text
  pub tls : Option TcpTlsConfig

pub record ResolvedDnsParams : Type 0 where
  pub domain : Text
  pub record_type : Option Text
  pub resolver : Option Text
  pub protocol : Text
  pub expected_rcode : Text
  pub require_answer : Bool

pub data ResolvedProbeParams : Type 0 where
  icmp_params : ResolvedIcmpParams → ResolvedProbeParams
  http_params : ResolvedHttpParams → ResolvedProbeParams
  tcp_params : ResolvedTcpParams → ResolvedProbeParams
  dns_params : ResolvedDnsParams → ResolvedProbeParams

pub record ResolvedCheckDef : Type 0 where
  pub check_id : Text
  pub target_id : Text
  pub target_address : Text
  pub profile_id : Text
  pub probe_kind : ProbeKind
  pub interval : ℕ
  pub timeout : ℕ
  pub revision_id : Text
  pub probe_params : ResolvedProbeParams
