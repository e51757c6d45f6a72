-- ===== src/Retention/Tests.antt =====
-- The theorems on the retention worker at small tables.
use kemuri.Base.{ap, replicate, ℕ, ◌-◌, ◌≡◌, refl, arith, Option, none, some, [], ◌∷◌, length}
use kemuri.Base.Text.{Text, codes}
use kemuri.Base.Chrono.{Chrono}
use kemuri.Base.Examples.{stamp_clock}
use kemuri.Base.Action.{ok, err, steady}
use kemuri.Core.Duration.{ok?}
use kemuri.Core.Duration.Laws.{hours, parse_duration-append}
use kemuri.Rounds.{RoundRow}
use kemuri.Rollups.Aggregate.{InsertRollup}
use kemuri.Retention.Store.{Tables, is_old_rollup, is_of_old_event, is_old_event, delete_first}
use kemuri.Retention.Loop.{others}
use kemuri.Retention.Worker.{
  RetentionConfig, cutoff_at, parse_retention, delete_rollups_before, enforce_raw_retention,
  enforce_alert_events_retention, enforce_notification_retention,
}
use kemuri.Retention.Worker.Laws.{unexpired, delete_rollups_before_lem, enforce_raw_retention_lem}
use kemuri.Retention.Worker.Events.{
  cutoff_text, left_over, enforce_alert_events_retention_blocked,
  enforce_alert_events_retention_lem, enforce_notification_retention_day,
}

abbrev round : RoundRow
round = record {
  internal_id = 1;
  check_internal_id = 4;
  observer_internal_id = 1;
  scheduled_at = 930 ∷ 43 ∷ 0 ∷ [];
  execution_status = codes "complete";
  configured_samples = 1;
  attempted_samples = 1;
  latency_bearing_samples = 0;
  healthy_samples = 0;
  unhealthy_samples = 0;
  measurement_loss_samples = 1;
  min_latency_ns = none;
  max_latency_ns = none;
  sample_blob = none;
}

abbrev rollup : InsertRollup
rollup = record {
  check_internal_id = 4;
  observer_internal_id = 1;
  resolution_seconds = 300;
  bucket_start = 900 ∷ 90 ∷ [];
  scheduled_rounds = 1;
  completed_rounds = 1;
  partial_rounds = 0;
  configured_sample_slots = 1;
  attempted_samples = 1;
  latency_bearing_samples = 0;
  healthy_samples = 0;
  unhealthy_samples = 0;
  measurement_loss_samples = 1;
  outcome_counts = [];
  min_latency_ns = none;
  max_latency_ns = none;
  sum_latency_ns = 0;
  histogram_version = 1;
  histogram_blob = none;
  no_data_counts = [];
}

-- Event 1 is old, and has a notification.
abbrev tables : Tables
tables = record {
  rounds = round ∷ [];
  rollups = rollup ∷ [];
  alert_events = record { internal_id = 1; occurred_at = 800 ∷ 43 ∷ 0 ∷ [] } ∷ [];
  notification_outbox =
      record { internal_id = 1; alert_event_internal_id = 1; created_at = 5 ∷ 32 ∷ [] } ∷ [];
}

abbrev config : Text → RetentionConfig
config s = record {
  raw_rounds = s;
  rollup_5m = s;
  rollup_1h = s;
  alert_events = s;
  notification_records = s;
}

abbrev seconds : Text → Option ℕ
seconds [] = none
seconds (s ∷ rest) = some s

-- 1000 minutes.
abbrev now : ℕ
now = 60_000_000_000_000

one_hour : parse_retention (codes "1h") ≡ some 3_600_000
unfolding parse_retention
one_hour = ap ok? (parse_duration-append b'1' [] hours refl)

delete_rollups_before_lem_example :
    let rest = others (is_old_rollup 300 (950 ∷ [])) (rollup ∷ []) in
    delete_rollups_before stamp_clock seconds 2 300 (950 ∷ []) (steady tables)
    ≡ (ok (1 - length rest), steady (record tables { rollups = rest }))
delete_rollups_before_lem_example =
    delete_rollups_before_lem stamp_clock seconds 2 300 (950 ∷ []) tables (omega arith)

enforce_raw_retention_lem_example :
    enforce_raw_retention stamp_clock seconds 2 (config (codes "1h")) now (steady tables) ≡ (
      ok tt,
      steady (record tables {
        rounds =
            unexpired stamp_clock seconds 2 (cutoff_at stamp_clock seconds 2 now 3_600_000) tables;
      }),
    )
enforce_raw_retention_lem_example =
    enforce_raw_retention_lem stamp_clock seconds 2 (config (codes "1h")) now 3_600_000 tables
      one_hour refl (omega arith)

enforce_alert_events_retention_lem_example :
    let cutoff = cutoff_text stamp_clock seconds 2 now 3_600_000 in
    enforce_alert_events_retention stamp_clock seconds 2 (config (codes "1h")) now (steady tables)
    ≡ (
      ok tt,
      steady (record tables {
        alert_events = delete_first 1000 (is_old_event cutoff) tables.alert_events;
        notification_outbox =
            others (is_of_old_event cutoff tables.alert_events) tables.notification_outbox;
      }),
    )
enforce_alert_events_retention_lem_example =
    enforce_alert_events_retention_lem stamp_clock seconds 2 (config (codes "1h")) now 3_600_000
      tables one_hour (omega arith)

-- Event 1 has more notifications than a batch deletes.
abbrev many : Tables
many = record tables {
  notification_outbox =
      replicate 1001
        (record { internal_id = 1; alert_event_internal_id = 1; created_at = 5 ∷ 32 ∷ [] });
}

enforce_alert_events_retention_blocked_example :
    enforce_alert_events_retention stamp_clock seconds 2 (config (codes "1h")) now (steady many) ≡ (
      err,
      steady (record many {
        notification_outbox =
            left_over stamp_clock seconds 2 (cutoff_text stamp_clock seconds 2 now 3_600_000) many;
      }),
    )
enforce_alert_events_retention_blocked_example =
    enforce_alert_events_retention_blocked stamp_clock seconds 2 (config (codes "1h")) now 3_600_000
      many one_hour (omega arith)

-- A clock whose texts have a day and a `T`.
abbrev day_clock : Chrono
day_clock = record stamp_clock { to_rfc3339 = λ n. 5 ∷ 84 ∷ n ∷ [] }

enforce_notification_retention_day_example :
    enforce_notification_retention day_clock seconds 2 (config (codes "1h")) now (steady tables)
    ≡ (ok tt, steady (record tables { notification_outbox = [] }))
enforce_notification_retention_day_example =
    enforce_notification_retention_day day_clock seconds 2 (config (codes "1h")) now 3_600_000
      (5 ∷ []) ((now - 3_600_000_000_000) ∷ []) tables one_hour refl (([], refl), tt) (omega arith)
