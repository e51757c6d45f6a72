-- ===== src/Retention/Worker.antt =====
-- `run_cycle` of crates/kemuri-server/src/retention_worker.rs, with the retention texts of
-- crates/kemuri-config/src/lib.rs. Instants are not before the epoch, where the subtraction of a
-- retention stops; the log and the metrics are left out.
pub mod Laws
pub mod Events
use kemuri.Base.{ℕ, zero, suc, ◌+◌, ◌-◌, if◌then◌else◌, leb, ◌==◌, Bool, true, false}
use kemuri.Base.{Option, none, some, map_or, and_then, unwrap_or, List, [], ◌∷◌}
use kemuri.Base.Text.{Text, codes, text_eq}
use kemuri.Base.Chrono.{Chrono}
use kemuri.Base.Action.{Action, out_of_fuel, return, ◌>>=◌, ◌>>◌}
use kemuri.Core.Duration.{parse_duration, ok?}
use kemuri.Retention.Store.{Tables, delete_before_batch_with_rollup_check, delete_before}
use kemuri.Retention.Store.{get_earliest_bucket_start, delete_notifications_of_old_events}
use kemuri.Retention.Store.{delete_old_events, delete_old_notifications}

pub record RetentionConfig : Type 0 where
  pub raw_rounds : Text
  pub rollup_5m : Text
  pub rollup_1h : Text
  pub alert_events : Text
  pub notification_records : Text

abbrev pub delete_batch_size : ℕ
delete_batch_size = 1000

unfoldable pub parse_retention : Text → Option ℕ
parse_retention s = if text_eq s (codes "forever") then none else ok? (parse_duration s)

-- The loop around a batch, which ends by its own test with the sum of what the turns return. Where
-- this takes more than `fuel` turns the result is `unfinished`.
unfoldable pub delete_loop : Action Tables ℕ → ℕ → ℕ → Action Tables ℕ
delete_loop batch zero total_deleted = out_of_fuel
delete_loop batch (suc fuel) total_deleted = do
  deleted ← batch
  if deleted == 0
      then return (total_deleted + deleted)
      else delete_loop batch fuel (total_deleted + deleted)

module _ (t : Chrono) (unixepoch : Text → Option ℕ) (fuel : ℕ) where
  -- `Utc::now() - chrono::Duration::from_std(retention).unwrap_or_default()`
  abbrev pub cutoff_at : ℕ → ℕ → ℕ
  cutoff_at now retention = now - unwrap_or (t.from_std retention) 0

  abbrev pub is_recent : ℕ → Option Text → Bool
  is_recent cutoff watermark =
      map_or (and_then watermark t.parse_rfc3339) false (λ wm_time. leb cutoff wm_time)

  abbrev pub delete_raw_before : ℕ → Action Tables (Unit {0})
  delete_raw_before cutoff = do
    five_min_watermark ← get_earliest_bucket_start 300
    if is_recent cutoff five_min_watermark
        then return tt
        else delete_loop
            (delete_before_batch_with_rollup_check unixepoch (t.to_rfc3339 cutoff)
              delete_batch_size)
            fuel 0
          >> return tt

  abbrev pub with_cutoff : ℕ → Option ℕ → (ℕ → Action Tables (Unit {0})) → Action Tables (Unit {0})
  with_cutoff now none act = return tt
  with_cutoff now (some retention) act = act (cutoff_at now retention)

  unfoldable pub enforce_raw_retention : RetentionConfig → ℕ → Action Tables (Unit {0})
  enforce_raw_retention c now = with_cutoff now (parse_retention c.raw_rounds) delete_raw_before

  abbrev pub delete_rollups_before : ℕ → Text → Action Tables ℕ
  delete_rollups_before resolution cutoff =
      delete_loop (delete_before resolution cutoff delete_batch_size) fuel 0

  abbrev pub delete_5m_before : ℕ → Action Tables (Unit {0})
  delete_5m_before cutoff = do
    one_hour_watermark ← get_earliest_bucket_start 3600
    if is_recent cutoff one_hour_watermark
        then return tt
        else delete_rollups_before 300 (t.to_rfc3339 cutoff) >> return tt

  unfoldable pub enforce_rollup_5m_retention : RetentionConfig → ℕ → Action Tables (Unit {0})
  enforce_rollup_5m_retention c now = with_cutoff now (parse_retention c.rollup_5m) delete_5m_before

  abbrev pub delete_1h_before : ℕ → Action Tables (Unit {0})
  delete_1h_before cutoff = delete_rollups_before 3600 (t.to_rfc3339 cutoff) >> return tt

  unfoldable pub enforce_rollup_1h_retention : RetentionConfig → ℕ → Action Tables (Unit {0})
  enforce_rollup_1h_retention c now = with_cutoff now (parse_retention c.rollup_1h) delete_1h_before

  abbrev pub delete_events_before : ℕ → Action Tables (Unit {0})
  delete_events_before cutoff =
      delete_notifications_of_old_events (t.to_rfc3339 cutoff)
      >> delete_old_events (t.to_rfc3339 cutoff)

  unfoldable pub enforce_alert_events_retention : RetentionConfig → ℕ → Action Tables (Unit {0})
  enforce_alert_events_retention c now =
      with_cutoff now (parse_retention c.alert_events) delete_events_before

  abbrev pub delete_notifications_before : ℕ → Action Tables (Unit {0})
  delete_notifications_before cutoff = delete_old_notifications (t.to_rfc3339 cutoff)

  unfoldable pub enforce_notification_retention : RetentionConfig → ℕ → Action Tables (Unit {0})
  enforce_notification_retention c now =
      with_cutoff now (parse_retention c.notification_records) delete_notifications_before

  -- `now k` is the instant that the clock shows to the step `k`.
  unfoldable pub run_cycle : RetentionConfig → (ℕ → ℕ) → Action Tables (Unit {0})
  run_cycle c now = do
    enforce_raw_retention c (now 0)
    enforce_rollup_5m_retention c (now 1)
    enforce_rollup_1h_retention c (now 2)
    enforce_notification_retention c (now 3)
    enforce_alert_events_retention c (now 4)
