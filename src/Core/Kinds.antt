-- ===== src/Core/Kinds.antt =====
-- The enumerations of crates/kemuri-core/src: alert.rs, check_state.rs, classification.rs,
-- outcome.rs and probe_kind.rs, with their texts.
use kemuri.Base.{Bool, true, false, Option, none, some, if◌then◌else◌}
use kemuri.Base.Text.{Text, codes, text_eq}

pub data AlertState : Type 0 where
  normal pending_fire firing pending_clear : AlertState

-- `Display` for `AlertState`.
abbrev pub alert_state_text : AlertState → Text
alert_state_text normal = codes "normal"
alert_state_text pending_fire = codes "pending_fire"
alert_state_text firing = codes "firing"
alert_state_text pending_clear = codes "pending_clear"

pub data AlertEventKind : Type 0 where
  firing_event resolved_event : AlertEventKind

-- `Display` for `AlertEventKind`.
abbrev pub alert_event_kind_text : AlertEventKind → Text
alert_event_kind_text firing_event = codes "firing"
alert_event_kind_text resolved_event = codes "resolved"

pub data CheckState : Type 0 where
  unknown healthy degraded down no_data disabled : CheckState

pub data SampleClassification : Type 0 where
  healthy_response unhealthy_response measurement_loss : SampleClassification

pub data SampleOutcome : Type 0 where
  success timeout dns_error network_unreachable connection_refused connection_reset : SampleOutcome
  tls_error protocol_error unexpected_response permission_denied : SampleOutcome
  outcome_cancelled outcome_internal_error : SampleOutcome

pub data RoundExecutionStatus : Type 0 where
  complete partial skipped_overlap skipped_backpressure : RoundExecutionStatus
  cancelled internal_error : RoundExecutionStatus

pub data ProbeKind : Type 0 where
  icmp http tcp dns : ProbeKind

-- `Display` for `ProbeKind`.
abbrev pub probe_kind_text : ProbeKind → Text
probe_kind_text icmp = codes "icmp"
probe_kind_text http = codes "http"
probe_kind_text tcp = codes "tcp"
probe_kind_text dns = codes "dns"

-- `FromStr` for `ProbeKind`; `none` stands for the error text.
unfoldable pub parse_probe_kind : Text → Option ProbeKind
parse_probe_kind s =
    if text_eq s (codes "icmp")
    then some icmp
    else if text_eq s (codes "http")
    then some http
    else if text_eq s (codes "tcp")
    then some tcp
    else if text_eq s (codes "dns")
    then some dns
    else none

-- Derived `PartialEq` on `ProbeKind`.
abbrev pub probe_kind_eq : ProbeKind → ProbeKind → Bool
probe_kind_eq icmp icmp = true
probe_kind_eq http http = true
probe_kind_eq tcp tcp = true
probe_kind_eq dns dns = true
probe_kind_eq _ _ = false
