-- ===== src/Retention/Store.antt =====
-- The tables that the retention worker of crates/kemuri-server/src/retention_worker.rs deletes
-- from, and its statements on them: those of RoundRepo and RollupRepo of
-- crates/kemuri-storage/src/repos, and its own. Events and notifications have the columns that it
-- reads. A table is in the order of its ids, as SQLite scans it.
use kemuri.Base.{ℕ, zero, suc, ◌+◌, ◌-◌, Bool, false, ◌&&◌, not, if◌then◌else◌, ltb, leb, ◌==◌}
use kemuri.Base.{
  Option, none, some, map_or, is_empty, List, [], ◌∷◌, filter, any, take, drop, length,
}
use kemuri.Base.Text.{Text}
use kemuri.Base.Action.{Action, err, query, statement}
use kemuri.Rounds.{RoundRow}
use kemuri.Alerts.Metric.{text_le}
use kemuri.Rollups.Aggregate.{InsertRollup}
use kemuri.Rollups.Store.{text_lt, same_key}

pub record EventRow : Type 0 where
  pub internal_id : ℕ
  pub occurred_at : Text

pub record NotificationRow : Type 0 where
  pub internal_id : ℕ
  pub alert_event_internal_id : ℕ
  pub created_at : Text

pub record Tables : Type 0 where
  pub rounds : List RoundRow
  pub rollups : List InsertRollup
  pub alert_events : List EventRow
  pub notification_outbox : List NotificationRow

-- The rows without the first `limit` that a condition holds of. Ids are keys, so this is a DELETE
-- of the ids that a subquery with that limit selects.
abbrev pub delete_first : {A : Type 0} → ℕ → (A → Bool) → List A → List A
delete_first zero p xs = xs
delete_first (suc n) p [] = []
delete_first (suc n) p (x ∷ xs) =
    let deleted = delete_first n p xs in
    let kept = delete_first (suc n) p xs in if p x then deleted else x ∷ kept

-- Of a rollup's row, `unixepoch` reads the seconds of a text, if it is a time.
module _ (unixepoch : Text → Option ℕ) where
  -- `a >= b` of two such values, false where one is missing, and `a < b + seconds`.
  abbrev pub within : Option ℕ → Option ℕ → ℕ → Bool
  within (some a) (some b) seconds = leb b a && ltb a (b + seconds)
  within (some a) none seconds = false
  within none b seconds = false

  abbrev pub rolls_up : RoundRow → InsertRollup → Bool
  rolls_up r ru =
      ru.check_internal_id == r.check_internal_id
      && ru.observer_internal_id == r.observer_internal_id
      && ru.resolution_seconds == 300
      && within (unixepoch r.scheduled_at) (unixepoch ru.bucket_start) 300

  -- The rounds that `delete_before_batch_with_rollup_check` selects.
  abbrev pub is_expired : Text → List InsertRollup → RoundRow → Bool
  is_expired before rollups r = text_lt r.scheduled_at before && any (rolls_up r) rollups

  abbrev pub delete_before_batch_with_rollup_check : Text → ℕ → Action Tables ℕ
  delete_before_batch_with_rollup_check before limit = statement (λ s.
      let rest = delete_first limit (is_expired before s.rollups) s.rounds in
      (length s.rounds - length rest, record s { rounds = rest }))

-- `MIN(bucket_start)`; an empty table gives no text.
abbrev pub earlier : Text → Option Text → Option Text
earlier start acc = some (map_or acc start (λ best. if text_le best start then best else start))

abbrev pub earliest_start : List InsertRollup → Option Text
earliest_start [] = none
earliest_start (r ∷ rs) = earlier r.bucket_start (earliest_start rs)

abbrev pub non_empty : Option Text → Option Text
non_empty none = none
non_empty (some s) = if is_empty s then none else some s

abbrev pub has_resolution : ℕ → InsertRollup → Bool
has_resolution resolution ru = ru.resolution_seconds == resolution

abbrev pub get_earliest_bucket_start : ℕ → Action Tables (Option Text)
get_earliest_bucket_start resolution =
    query (λ s. non_empty (earliest_start (filter (has_resolution resolution) s.rollups)))

-- `ORDER BY bucket_start`
abbrev pub insert_rollup : InsertRollup → List InsertRollup → List InsertRollup
insert_rollup r [] = r ∷ []
insert_rollup r (s ∷ rs) =
    let rest = insert_rollup r rs in
    if text_le r.bucket_start s.bucket_start then r ∷ s ∷ rs else s ∷ rest

abbrev pub sort_rollups : List InsertRollup → List InsertRollup
sort_rollups [] = []
sort_rollups (r ∷ rs) = insert_rollup r (sort_rollups rs)

abbrev pub is_old_rollup : ℕ → Text → InsertRollup → Bool
is_old_rollup resolution before ru = has_resolution resolution ru && text_lt ru.bucket_start before

-- A row is known by its key.
abbrev pub delete_oldest : ℕ → Text → ℕ → List InsertRollup → List InsertRollup
delete_oldest resolution before limit rows =
    let selected = take limit (sort_rollups (filter (is_old_rollup resolution before) rows)) in
    filter (λ row. not (any (same_key row) selected)) rows

-- `RollupRepo::delete_before`
abbrev pub delete_before : ℕ → Text → ℕ → Action Tables ℕ
delete_before resolution before limit = statement (λ s.
    let rest = delete_oldest resolution before limit s.rollups in
    (length s.rollups - length rest, record s { rollups = rest }))

abbrev pub is_old_event : Text → EventRow → Bool
is_old_event cutoff e = text_lt e.occurred_at cutoff

-- The join with `alert_events`.
abbrev pub is_of_old_event : Text → List EventRow → NotificationRow → Bool
is_of_old_event cutoff events n =
    any (λ e. e.internal_id == n.alert_event_internal_id && is_old_event cutoff e) events

abbrev pub delete_notifications_of_old_events : Text → Action Tables (Unit {0})
delete_notifications_of_old_events cutoff = statement (λ s. (
  tt,
  record s {
    notification_outbox =
        delete_first 1000 (is_of_old_event cutoff s.alert_events) s.notification_outbox;
  },
))

-- The foreign key of the outbox.
abbrev pub refers : List EventRow → NotificationRow → Bool
refers events n = any (λ e. e.internal_id == n.alert_event_internal_id) events

-- A statement that breaks a constraint fails as a whole.
abbrev pub constrained : (Tables → Bool) → Action Tables (Unit {0}) → Action Tables (Unit {0})
constrained holds act db =
    if holds db.tables then act db else (err, record db { faults = drop 1 db.faults })

abbrev pub deleted_events : Text → List EventRow → List EventRow
deleted_events cutoff events = take 1000 (filter (is_old_event cutoff) events)

abbrev pub delete_old_events : Text → Action Tables (Unit {0})
delete_old_events cutoff =
    constrained
      (λ s. not (any (refers (deleted_events cutoff s.alert_events)) s.notification_outbox))
      (statement (λ s.
        (tt, record s { alert_events = delete_first 1000 (is_old_event cutoff) s.alert_events })))

abbrev pub is_old_notification : Text → NotificationRow → Bool
is_old_notification cutoff n = text_lt n.created_at cutoff

abbrev pub delete_old_notifications : Text → Action Tables (Unit {0})
delete_old_notifications cutoff = statement (λ s. (
  tt,
  record s {
    notification_outbox = delete_first 1000 (is_old_notification cutoff) s.notification_outbox;
  },
))
