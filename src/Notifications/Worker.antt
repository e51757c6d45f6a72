-- ===== src/Notifications/Worker.antt =====
-- `run_cycle` of crates/kemuri-server/src/notification.rs, with the statements of
-- crates/kemuri-storage/src/repos/notification_outbox_repo.rs that it runs. The column
-- `last_attempt_at`, which nothing reads, is left out.
use kemuri.Base.{ℕ, ◌+◌, ◌*◌, Bool, ◌&&◌, not, if◌then◌else◌, leb, ◌==◌}
use kemuri.Base.{some, unwrap_or, List, [], ◌∷◌, take}
use kemuri.Base.Text.{Text, codes, text_eq}
use kemuri.Base.Float.{Float}
use kemuri.Base.Chrono.{Chrono}
use kemuri.Core.Ids.{new, accepted}
use kemuri.Alerts.Store.{OutboxRow, M, return, ◌>>=◌, ◌>>◌, statement}
use kemuri.Alerts.Metric.{text_le}
use kemuri.Notifications.Backoff.{max_retry_attempts, compute_backoff}

abbrev pub batch_size : ℕ
batch_size = 50

-- `ORDER BY next_attempt_at`
abbrev pub insert_entry : OutboxRow → List OutboxRow → List OutboxRow
insert_entry r [] = r ∷ []
insert_entry r (s ∷ rs) =
    let rest = insert_entry r rs in
    if text_le r.entry.next_attempt_at s.entry.next_attempt_at then r ∷ s ∷ rs else s ∷ rest

-- `WHERE status = 'pending' AND next_attempt_at <= now`
abbrev pub is_due : Text → OutboxRow → Bool
is_due now r = text_eq r.entry.status (codes "pending") && text_le r.entry.next_attempt_at now

unfoldable pub due_entries : Text → List OutboxRow → List OutboxRow
due_entries now [] = []
due_entries now (r ∷ rs) =
    let rest = due_entries now rs in if is_due now r then insert_entry r rest else rest

-- The statement `UPDATE … WHERE internal_id = ?`.
abbrev pub update_entries : ℕ → (OutboxRow → OutboxRow) → List OutboxRow → List OutboxRow
update_entries id g [] = []
update_entries id g (r ∷ rs) = (if r.internal_id == id then g r else r) ∷ update_entries id g rs

abbrev pub delivered_row : OutboxRow → OutboxRow
delivered_row r = record r {
  entry = record r.entry { status = codes "delivered" };
  attempt_count = r.attempt_count + 1;
}

abbrev pub retry_row : Text → Text → OutboxRow → OutboxRow
retry_row next error r = record r {
  entry = record r.entry { next_attempt_at = next };
  attempt_count = r.attempt_count + 1;
  last_error = some error;
}

abbrev pub failed_row : Text → OutboxRow → OutboxRow
failed_row error r = record r {
  entry = record r.entry { status = codes "failed" };
  attempt_count = r.attempt_count + 1;
  last_error = some error;
}

module _ {F : Type 0} where
  unfoldable pub list_pending : Text → ℕ → M F (List OutboxRow)
  list_pending now limit = statement (λ db. (take limit (due_entries now db.outbox), db))

  abbrev pub update_outbox : ℕ → (OutboxRow → OutboxRow) → M F (Unit {0})
  update_outbox id g = statement (λ db. (tt, record db { outbox = update_entries id g db.outbox }))

  unfoldable pub mark_delivered : ℕ → M F (Unit {0})
  mark_delivered id = update_outbox id delivered_row

  unfoldable pub mark_retry : ℕ → Text → Text → M F (Unit {0})
  mark_retry id next error = update_outbox id (retry_row next error)

  unfoldable pub mark_failed : ℕ → Text → M F (Unit {0})
  mark_failed id error = update_outbox id (failed_row error)

-- What the rest of the program answers for an entry: whether its notifier is configured, whether
-- `build_payload` finds what it needs, whether the notifier's `send` succeeds, and the random draw.
pub record Answers : Type 0 where
  pub configured : Text → Bool
  pub has_payload : ℕ → Bool
  pub sends : OutboxRow → Bool
  pub random : ℕ → ℕ

module _ (f : Float) (t : Chrono) (answers : Answers) where
  open f use {F64}

  abbrev pub next_attempt : ℕ → OutboxRow → Text
  next_attempt now r =
      let backoff = compute_backoff f (answers.random r.internal_id) r.attempt_count in
      t.to_rfc3339 (now + unwrap_or (t.from_std (backoff * 1000)) 0)

  unfoldable pub attempt_failed : ℕ → OutboxRow → Text → M F64 (Unit {0})
  attempt_failed now r error =
      if leb max_retry_attempts (r.attempt_count + 1)
      then mark_failed r.internal_id error
      else mark_retry r.internal_id (next_attempt now r) error

  -- One turn of the loop over the pending entries.
  unfoldable pub process_entry : ℕ → OutboxRow → M F64 (Unit {0})
  process_entry now r =
      if not (accepted (new (codes "NotifierId") r.entry.notifier_id))
      then return tt
      else if not (answers.configured r.entry.notifier_id)
      then attempt_failed now r (codes "notifier not configured")
      else if not (answers.has_payload r.entry.alert_event_internal_id)
      then attempt_failed now r (codes "notification delivery failed")
      else if answers.sends r
      then mark_delivered r.internal_id
      else attempt_failed now r (codes "notification delivery failed")

  unfoldable pub process_entries : ℕ → List OutboxRow → M F64 (Unit {0})
  process_entries now [] = return tt
  process_entries now (r ∷ rs) = do process_entry now r; process_entries now rs

  unfoldable pub run_cycle : ℕ → M F64 (Unit {0})
  run_cycle now = do
    pending ← list_pending (t.to_rfc3339 now) batch_size
    process_entries now pending
