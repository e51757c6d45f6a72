-- ===== src/Notifications/Laws.antt =====
-- What an attempt at a delivery leaves in the outbox, for the worker of
-- crates/kemuri-server/src/notification.rs.
use kemuri.Base.{
  ℕ, zero, suc, ◌+◌, ◌*◌, ◌^◌, ◌<◌, ◌≤◌, ◌≡◌, refl, ap, arith, inl, inr, Bool, true, false, ◌&&◌,
  ◌||◌, if◌then◌else◌,
}
use kemuri.Base.{
  leb, ◌==◌, Option, none, some, unwrap_or, List, [], ◌∷◌, take, length, All, Bool-cases,
}
use kemuri.Base.Text.{Text, codes}
use kemuri.Base.Float.{Float}
use kemuri.Base.Chrono.{Chrono}
use kemuri.Core.Ids.{new, accepted}
use kemuri.Alerts.Store.{OutboxRow, Db, Result, ok}
use kemuri.Alerts.Laws.Rows.{statement_runs}
use kemuri.Alerts.Metric.{text_le}
use native.Mathlib.Nat.{pow-le-pow_right}
use kemuri.Notifications.Backoff.{max_retry_attempts, compute_backoff, compute_backoff_bounds}
use kemuri.Notifications.Worker.{
  Answers, update_entries, delivered_row, retry_row, failed_row, update_outbox, mark_delivered,
  mark_retry, mark_failed,
}
use kemuri.Notifications.Worker.{
  next_attempt, attempt_failed, process_entry, insert_entry, is_due, due_entries, list_pending,
}

-- The entry with a key.
abbrev pub find_entry : ℕ → List OutboxRow → Option OutboxRow
find_entry id [] = none
find_entry id (r ∷ rs) = if r.internal_id == id then some r else find_entry id rs

find-update_entries :
    (id : ℕ) (g : OutboxRow → OutboxRow) (rows : List OutboxRow) (r : OutboxRow)
    → ((x : OutboxRow) → (g x).internal_id ≡ x.internal_id)
    → find_entry id rows ≡ some r
    → find_entry id (update_entries id g rows) ≡ some (g r)
find-update_entries id g [] r k h = cc
find-update_entries id g (x ∷ xs) r k h = elim (Bool-cases (x.internal_id == id)) [
  | inl e ↦
      simp (e, k, e)
        (ap {B = Option OutboxRow} (λ o. elim o [ none ↦ none | some y ↦ some (g y) ])
          (simp e at h))
  | inr e ↦ simp (e, e) (find-update_entries id g xs r k (simp e at h))
]

find-update_entries_other :
    (j id : ℕ) (g : OutboxRow → OutboxRow) (rows : List OutboxRow)
    → ((x : OutboxRow) → (g x).internal_id ≡ x.internal_id)
    → (j == id) ≡ false
    → find_entry j (update_entries id g rows) ≡ find_entry j rows
find-update_entries_other j id g [] k h = refl
find-update_entries_other j id g (x ∷ xs) k h = elim (Bool-cases (x.internal_id == id)) [
  | inl e ↦
      let n : (x.internal_id == j) ≡ false = ground arith in
      simp (e, k, n) (find-update_entries_other j id g xs k h)
  | inr e ↦ elim (Bool-cases (x.internal_id == j)) [
    | inl d ↦ simp (e, d) refl
    | inr d ↦ simp (e, d) (find-update_entries_other j id g xs k h)
  ]
]

module _ (f : Float) (t : Chrono) (answers : Answers) where
  open f use {F64}

  abbrev pub delivers : OutboxRow → Bool
  delivers r =
      answers.configured r.entry.notifier_id
      && answers.has_payload r.entry.alert_event_internal_id
      && answers.sends r

  -- The status that an attempt leads to.
  abbrev pub status_after : OutboxRow → Text
  status_after r =
      if delivers r
      then codes "delivered"
      else if leb max_retry_attempts (r.attempt_count + 1)
      then codes "failed"
      else r.entry.status

  pub record Tried (now : ℕ) (r : OutboxRow) (db : Db F64) (run : Result (Unit {0}) × Db F64)
      : Type 0 where
    pub succeeds : run.0 ≡ ok tt
    pub row : OutboxRow
    pub row_there : find_entry r.internal_id run.1.outbox ≡ some row
    pub counted : row.attempt_count ≡ r.attempt_count + 1
    pub status : row.entry.status ≡ status_after r
    pub due_at : row.entry.next_attempt_at ≡ (
        if delivers r || leb max_retry_attempts (r.attempt_count + 1)
        then r.entry.next_attempt_at
        else next_attempt f t answers now r)

  update_outbox-Tried :
      (now : ℕ) (r : OutboxRow) (db : Db F64) (g : OutboxRow → OutboxRow)
      → db.faults ≡ []
      → find_entry r.internal_id db.outbox ≡ some r
      → ((x : OutboxRow) → (g x).internal_id ≡ x.internal_id)
      → (g r).attempt_count ≡ r.attempt_count + 1
      → (g r).entry.status ≡ status_after r
      → (g r).entry.next_attempt_at ≡ (
          if delivers r || leb max_retry_attempts (r.attempt_count + 1)
          then r.entry.next_attempt_at
          else next_attempt f t answers now r)
      → Tried now r db (update_outbox r.internal_id g db)
  update_outbox-Tried now r db g h there k a s d = rw (statement_runs _ db h) (record {
    succeeds = refl;
    row = g r;
    row_there = find-update_entries r.internal_id g db.outbox r k there;
    counted = a;
    status = s;
    due_at = d;
  })

  attempt_failed-Tried :
      (now : ℕ) (r : OutboxRow) (error : Text) (db : Db F64)
      → db.faults ≡ []
      → find_entry r.internal_id db.outbox ≡ some r
      → delivers r ≡ false
      → Tried now r db (attempt_failed f t answers now r error db)
  unfolding attempt_failed mark_failed mark_retry
  attempt_failed-Tried now r error db h there n =
      elim (Bool-cases (leb max_retry_attempts (r.attempt_count + 1))) [
        | inl e ↦ simp e (
            update_outbox-Tried now r db (failed_row error) h there (λ x. refl) refl
              (simp (n, e) refl) (simp (n, e) refl))
        | inr e ↦ simp e (
            update_outbox-Tried now r db (retry_row (next_attempt f t answers now r) error) h there
              (λ x. refl) refl (simp (n, e) refl) (simp (n, e) refl))
      ]

  -- Where no statement fails, an attempt at an entry of the outbox with a valid notifier id ends
  -- well and counts one attempt; the entry is then delivered if its notifier is configured, its
  -- payload is there and sending succeeds; failed if not and the attempts have reached ten; and
  -- otherwise in the status it had, due again after the backoff.
  pub process_entry-Tried :
      (now : ℕ) (r : OutboxRow) (db : Db F64)
      → accepted (new (codes "NotifierId") r.entry.notifier_id) ≡ true
      → db.faults ≡ []
      → find_entry r.internal_id db.outbox ≡ some r
      → Tried now r db (process_entry f t answers now r db)
  unfolding process_entry mark_delivered
  process_entry-Tried now r db v h there =
      let failing =
        λ (error : Text) (n : delivers r ≡ false). attempt_failed-Tried now r error db h there n in
      elim (Bool-cases (answers.configured r.entry.notifier_id)) [
        | inl c ↦ elim (Bool-cases (answers.has_payload r.entry.alert_event_internal_id)) [
          | inl p ↦ elim (Bool-cases (answers.sends r)) [
            | inl s ↦
                simp (v, c, p, s)
                  (update_outbox-Tried now r db delivered_row h there (λ x. refl) refl
                    (simp (c, p, s) refl) (simp (c, p, s) refl))
            | inr s ↦ simp (v, c, p, s) (failing _ (simp (c, p, s) refl))
          ]
          | inr p ↦ simp (v, c, p) (failing _ (simp (c, p) refl))
        ]
        | inr c ↦ simp (v, c) (failing _ (simp c refl))
      ]

  -- An entry with fewer than ten attempts that is to be tried again is due at least 30 seconds and
  -- at most an hour later, if chrono can hold the delay.
  pub next_attempt_bounds :
      (now : ℕ) (r : OutboxRow)
      → r.attempt_count < max_retry_attempts
      → ((s : ℕ) → s ≤ 3600 → t.from_std (s * 1000) ≡ some (s * 1_000_000_000))
      → (later : ℕ) × (next_attempt f t answers now r ≡ t.to_rfc3339 later)
        × (now + 30 * 1_000_000_000 ≤ later)
        × (later ≤ now + 3600 * 1_000_000_000)
  next_attempt_bounds now r h hold =
      let backoff = compute_backoff f (answers.random r.internal_id) r.attempt_count in
      let (low, high) = compute_backoff_bounds f (answers.random r.internal_id) r.attempt_count h in
      let positive : 2 ^ 0 ≤ 2 ^ r.attempt_count =
        pow-le-pow_right (omega arith) {i = 0} {j = r.attempt_count} (omega arith) in
      (
        now + backoff * 1_000_000_000,
        ap (λ (o : Option ℕ). t.to_rfc3339 (now + unwrap_or o 0)) (hold backoff high),
        omega (arith, low, positive),
        omega (arith, high),
      )

-- Entries that are pending and due at a time.
abbrev pub IsDue : Text → OutboxRow → Type 0
IsDue now r = is_due now r ≡ true

insert_entry-All :
    (now : Text) (r : OutboxRow) (rs : List OutboxRow)
    → is_due now r ≡ true
    → All (IsDue now) rs
    → All (IsDue now) (insert_entry r rs)
insert_entry-All now r [] h a = (h, tt)
insert_entry-All now r (s ∷ rs) h a =
    elim (Bool-cases (text_le r.entry.next_attempt_at s.entry.next_attempt_at)) [
      | inl e ↦ rw e (h, a)
      | inr e ↦ rw e (a.0, insert_entry-All now r rs h a.1)
    ]

due_entries-All : (now : Text) (rs : List OutboxRow) → All (IsDue now) (due_entries now rs)
unfolding due_entries
due_entries-All now [] = tt
due_entries-All now (r ∷ rs) = elim (Bool-cases (is_due now r)) [
  | inl e ↦ rw e (insert_entry-All now r _ e (due_entries-All now rs))
  | inr e ↦ rw e (due_entries-All now rs)
]

take-All : {A : Type 0} (P : A → Type 0) (n : ℕ) (xs : List A) → All P xs → All P (take n xs)
take-All P zero xs a = tt
take-All P (suc n) [] a = tt
take-All P (suc n) (x ∷ xs) a = (a.0, take-All P n xs a.1)

take_le : {A : Type 0} (n : ℕ) (xs : List A) → length (take n xs) ≤ n
take_le zero xs = omega arith
take_le (suc n) [] = omega arith
take_le (suc n) (x ∷ xs) = omega (arith, take_le n xs)

-- Where the query does not fail, it changes nothing and answers at most as many entries as the
-- limit, each pending and due at the time.
pub list_pending_lem :
    {F : Type 0} (now : Text) (limit : ℕ) (db : Db F)
    → db.faults ≡ []
    → (rows : List OutboxRow) × (list_pending now limit db ≡ (ok rows, db))
      × All (IsDue now) rows
      × (length rows ≤ limit)
unfolding list_pending
list_pending_lem now limit db h = (
  take limit (due_entries now db.outbox),
  statement_runs _ db h,
  take-All (IsDue now) limit (due_entries now db.outbox) (due_entries-All now db.outbox),
  take_le limit (due_entries now db.outbox),
)
