-- ===== src/Retention/Worker/Events.antt =====
-- The steps of crates/kemuri-server/src/retention_worker.rs for alert events and notifications.
use kemuri.Base.{ℕ, zero, suc, ◌+◌, ◌≡◌, ◌≤◌, ◌<◌, ◌∙◌, refl, sym, ap, arith, Bool, true, false}
use kemuri.Base.{Option, some, List, [], ◌∷◌, ◌++◌, length, any, filter, take, All}
use kemuri.Retention.Loop.{others, others_all}
use kemuri.Retention.Batch.{others-delete_first}
use kemuri.Base.Text.{Text}
use kemuri.Base.Chrono.{Chrono}
use kemuri.Base.Action.{ok, err, steady}
use kemuri.Rollups.Store.{text_lt}
use kemuri.Retention.Store.{Tables, EventRow, NotificationRow, delete_first}
use kemuri.Retention.Store.{
  is_of_old_event, refers, deleted_events, is_old_event, is_old_notification,
}
use kemuri.Retention.Worker.{
  RetentionConfig, parse_retention, cutoff_at, with_cutoff, delete_events_before,
  delete_notifications_before,
}
use kemuri.Retention.Worker.{enforce_alert_events_retention, enforce_notification_retention}

none_of :
    {p q : NotificationRow → Bool}
    → ((row : NotificationRow) → p row ≡ true → q row ≡ true)
    → (rows : List NotificationRow) → any q rows ≡ false
    → any p rows ≡ false
none_of f [] h = refl
none_of f (row ∷ rows) h = ground (arith, f row, h, none_of f rows)

module _ (t : Chrono) (unixepoch : Text → Option ℕ) (fuel : ℕ) where
  -- The text of a cutoff.
  abbrev pub cutoff_text : ℕ → ℕ → Text
  cutoff_text now retention = t.to_rfc3339 (cutoff_at t unixepoch fuel now retention)

  -- The notifications left when those of old events have been deleted.
  abbrev pub left_over : Text → Tables → List NotificationRow
  left_over cutoff s =
      delete_first 1000 (is_of_old_event cutoff s.alert_events) s.notification_outbox

  -- Whether one of these belongs to an event of the batch.
  abbrev pub is_blocked : Text → Tables → Bool
  is_blocked cutoff s = any (refers (deleted_events cutoff s.alert_events)) (left_over cutoff s)

  -- A deletion of the first rows leaves as many of a kind, but for their number.
  pub length-delete_first_lem :
      (n : ℕ) (p q : NotificationRow → Bool) (rows : List NotificationRow)
      → length (filter q rows) ≤ n + length (filter q (delete_first n p rows))
  length-delete_first_lem zero p q rows = omega arith
  length-delete_first_lem (suc n) p q [] = omega arith
  length-delete_first_lem (suc n) p q (r ∷ rows) =
      ground (arith, length-delete_first_lem n p q rows, length-delete_first_lem (suc n) p q rows)

  pub any_left :
      (q : NotificationRow → Bool) (rows : List NotificationRow)
      → 0 < length (filter q rows)
      → any q rows ≡ true
  any_left q [] h = ground (arith, h)
  any_left q (r ∷ rows) h = ground (arith, h, any_left q rows)

  -- Where the events that the step for the alert events selects have more than 1000 notifications,
  -- the step fails: it deletes the notifications of its first statement and keeps every event.
  pub enforce_alert_events_retention_blocked :
      (c : RetentionConfig) (now retention : ℕ) (s : Tables)
      → parse_retention c.alert_events ≡ some retention
      → 1000
        < length (
            filter
              (refers (deleted_events (cutoff_text now retention) s.alert_events))
              s.notification_outbox)
      → enforce_alert_events_retention t unixepoch fuel c now (steady s)
        ≡ (err, steady (record s { notification_outbox = left_over (cutoff_text now retention) s }))
  unfolding enforce_alert_events_retention
  enforce_alert_events_retention_blocked c now retention s parsed many =
      let cutoff = cutoff_text now retention in
      let ours = refers (deleted_events cutoff s.alert_events) in
      let left =
        length-delete_first_lem 1000 (is_of_old_event cutoff s.alert_events) ours
          s.notification_outbox in
      let blocked : is_blocked cutoff s ≡ true =
        any_left ours (left_over cutoff s) (omega (arith, many, left)) in
      ap
        (λ o. with_cutoff t unixepoch fuel now o (delete_events_before t unixepoch fuel) (steady s))
        parsed
      ∙ simp blocked refl

  pub delete_first_all :
      (n : ℕ) (p : NotificationRow → Bool) (rows : List NotificationRow)
      → length (filter p rows) ≤ n
      → any p (delete_first n p rows) ≡ false
  delete_first_all zero p [] h = refl
  delete_first_all zero p (r ∷ rows) h = ground (arith, h, delete_first_all zero p rows)
  delete_first_all (suc n) p [] h = refl
  delete_first_all (suc n) p (r ∷ rows) h =
      ground (arith, h, delete_first_all n p rows, delete_first_all (suc n) p rows)

  refers-take :
      (n : ℕ) (events : List EventRow) (row : NotificationRow)
      → refers (take n events) row ≡ true
      → refers events row ≡ true
  refers-take zero events row h = ground (arith, h)
  refers-take (suc n) [] row h = h
  refers-take (suc n) (e ∷ events) row h = ground (arith, h, refers-take n events row)

  refers_old :
      (cutoff : Text) (events : List EventRow) (row : NotificationRow)
      → refers (filter (is_old_event cutoff) events) row ≡ true
      → is_of_old_event cutoff events row ≡ true
  refers_old cutoff [] row h = h
  refers_old cutoff (e ∷ events) row h = ground (arith, h, refers_old cutoff events row)

  refers-deleted :
      (cutoff : Text) (events : List EventRow) (row : NotificationRow)
      → refers (deleted_events cutoff events) row ≡ true
      → is_of_old_event cutoff events row ≡ true
  refers-deleted cutoff events row h =
      refers_old cutoff events row (refers-take 1000 (filter (is_old_event cutoff) events) row h)

  none_refers :
      (cutoff : Text) (events : List EventRow) (rows : List NotificationRow)
      → any (is_of_old_event cutoff events) rows ≡ false
      → any (refers (deleted_events cutoff events)) rows ≡ false
  none_refers cutoff events rows h = none_of (refers-deleted cutoff events) rows h

  -- Where at most 1000 notifications belong to events before the cutoff, the step deletes these
  -- notifications, without failing, and of those events the first 1000.
  pub enforce_alert_events_retention_lem :
      (c : RetentionConfig) (now retention : ℕ) (s : Tables)
      → parse_retention c.alert_events ≡ some retention
      → length (
          filter (is_of_old_event (cutoff_text now retention) s.alert_events) s.notification_outbox)
        ≤ 1000
      → let cutoff = cutoff_text now retention in
        enforce_alert_events_retention t unixepoch fuel c now (steady s) ≡ (
          ok tt,
          steady (record s {
            alert_events = delete_first 1000 (is_old_event cutoff) s.alert_events;
            notification_outbox =
                others (is_of_old_event cutoff s.alert_events) s.notification_outbox;
          }),
        )
  unfolding enforce_alert_events_retention
  enforce_alert_events_retention_lem c now retention s parsed few =
      let cutoff = cutoff_text now retention in
      let old = is_of_old_event cutoff s.alert_events in
      let free : is_blocked cutoff s ≡ false =
        none_refers cutoff s.alert_events (left_over cutoff s)
          (delete_first_all 1000 old s.notification_outbox few) in
      ap
        (λ o. with_cutoff t unixepoch fuel now o (delete_events_before t unixepoch fuel) (steady s))
        parsed
      ∙ simp free (
          ap
            (λ rows. (
              ok tt,
              steady (record s {
                alert_events = delete_first 1000 (is_old_event cutoff) s.alert_events;
                notification_outbox = rows;
              }),
            ))
            (sym (
                others_all old (left_over cutoff s)
                  (delete_first_all 1000 old s.notification_outbox few))
              ∙ others-delete_first 1000 old s.notification_outbox))

  text_lt-day : (day u v : Text) → text_lt (day ++ (32 ∷ u)) (day ++ (84 ∷ v)) ≡ true
  text_lt-day [] u v = refl
  text_lt-day (c ∷ day) u v = ground (arith, text_lt-day day u v)

  -- The text that `datetime('now')` gives a row on a day, with a space behind the day.
  abbrev pub CreatedOn : Text → NotificationRow → Type 0
  CreatedOn day row = (time : Text) × (row.created_at ≡ day ++ (32 ∷ time))

  delete_first-day :
      (n : ℕ) (day time cutoff : Text) (rows : List NotificationRow)
      → cutoff ≡ day ++ (84 ∷ time)
      → All (CreatedOn day) rows
      → length rows ≤ n
      → delete_first n (is_old_notification cutoff) rows ≡ []
  delete_first-day zero day time cutoff [] e a h = refl
  delete_first-day zero day time cutoff (r ∷ rows) e a h = ground (arith, h)
  delete_first-day (suc n) day time cutoff [] e a h = refl
  delete_first-day (suc n) day time cutoff (r ∷ rows) e a h =
      let old : is_old_notification cutoff r ≡ true =
        ap (λ u. text_lt u cutoff) a.0.1
        ∙ ap (text_lt (day ++ (32 ∷ a.0.0))) e
        ∙ text_lt-day day a.0.0 time in
      simp old (delete_first-day n day time cutoff rows e a.1 (omega (arith, h)))

  -- On an outbox of at most 1000 entries that were all created on the day of the cutoff, whether
  -- before the cutoff or after it, the step for the notifications deletes every entry, since their
  -- `created_at` has a space where the text of the cutoff has a `T`.
  pub enforce_notification_retention_day :
      (c : RetentionConfig) (now retention : ℕ) (day time : Text) (s : Tables)
      → parse_retention c.notification_records ≡ some retention
      → cutoff_text now retention ≡ day ++ (84 ∷ time)
      → All (CreatedOn day) s.notification_outbox
      → length s.notification_outbox ≤ 1000
      → enforce_notification_retention t unixepoch fuel c now (steady s)
        ≡ (ok tt, steady (record s { notification_outbox = [] }))
  unfolding enforce_notification_retention
  enforce_notification_retention_day c now retention day time s parsed printed created few =
      ap
        (λ o.
          with_cutoff t unixepoch fuel now o (delete_notifications_before t unixepoch fuel)
            (steady s))
        parsed
      ∙ ap (λ rows. (ok tt, steady (record s { notification_outbox = rows })))
          (delete_first-day 1000 day time (cutoff_text now retention) s.notification_outbox printed
            created few)
