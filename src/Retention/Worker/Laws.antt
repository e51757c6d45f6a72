-- ===== src/Retention/Worker/Laws.antt =====
-- What the steps of crates/kemuri-server/src/retention_worker.rs delete.
use kemuri.Base.{ℕ, ◌+◌, ◌-◌, ◌≡◌, ◌<◌, ◌∙◌, refl, ap, arith, false}
use kemuri.Base.{Option, some, List, length, filter}
use kemuri.Base.Text.{Text}
use kemuri.Base.Chrono.{Chrono}
use kemuri.Base.Action.{ok, steady, return, continue_with}
use kemuri.Rounds.{RoundRow}
use kemuri.Retention.Store.{Tables, delete_first, is_expired, delete_before_batch_with_rollup_check}
use kemuri.Retention.Store.{
  non_empty, earliest_start, has_resolution, is_old_rollup, delete_oldest, delete_before,
}
use kemuri.Retention.Worker.{
  RetentionConfig, parse_retention, delete_batch_size, delete_loop, cutoff_at, is_recent,
  delete_raw_before,
}
use kemuri.Retention.Worker.{enforce_raw_retention, delete_rollups_before, with_cutoff}
use kemuri.Retention.Loop.{others, delete_loop_lem}
use kemuri.Retention.Batch.{delete_first-Deletes, delete_oldest-Deletes}

module _ (t : Chrono) (unixepoch : Text → Option ℕ) (fuel : ℕ) where
  -- The loop that deletes rollups ends, in no more turns than there are rollups and one: it deletes
  -- all rollups of the resolution that start before the cutoff and no others, and returns their
  -- number.
  pub delete_rollups_before_lem :
      (resolution : ℕ) (cutoff : Text) (s : Tables)
      → length s.rollups < fuel
      → let rest = others (is_old_rollup resolution cutoff) s.rollups in
        delete_rollups_before t unixepoch fuel resolution cutoff (steady s)
        ≡ (ok (length s.rollups - length rest), steady (record s { rollups = rest }))
  delete_rollups_before_lem resolution cutoff s h =
      delete_loop_lem (is_old_rollup resolution cutoff)
        (delete_oldest resolution cutoff delete_batch_size)
        (delete_oldest-Deletes resolution cutoff 999) (λ rows. record s { rollups = rows })
        (delete_before resolution cutoff delete_batch_size) (λ rows. refl) fuel 0 s.rollups h
      ∙ ap
          (λ n. (
            ok n,
            steady (record s { rollups = others (is_old_rollup resolution cutoff) s.rollups }),
          ))
          (omega arith)

  -- The rounds that are left of a table.
  abbrev pub unexpired : ℕ → Tables → List RoundRow
  unexpired cutoff s = others (is_expired unixepoch (t.to_rfc3339 cutoff) s.rollups) s.rounds

  delete_rounds_loop :
      (cutoff : ℕ) (s : Tables)
      → length s.rounds < fuel
      → delete_loop
          (delete_before_batch_with_rollup_check unixepoch (t.to_rfc3339 cutoff) delete_batch_size)
          fuel
          0
          (steady s)
        ≡ (
          ok (0 + (length s.rounds - length (unexpired cutoff s))),
          steady (record s { rounds = unexpired cutoff s }),
        )
  delete_rounds_loop cutoff s h =
      let expired = is_expired unixepoch (t.to_rfc3339 cutoff) s.rollups in
      delete_loop_lem expired (delete_first delete_batch_size expired)
        (delete_first-Deletes 999 expired) (λ rows. record s { rounds = rows })
        (delete_before_batch_with_rollup_check unixepoch (t.to_rfc3339 cutoff) delete_batch_size)
        (λ rows. refl) fuel 0 s.rounds h

  -- The watermark of the 5-minute rollups.
  abbrev pub first_5m : Tables → Option Text
  first_5m s = non_empty (earliest_start (filter (has_resolution 300) s.rollups))

  delete_raw_before_lem :
      (cutoff : ℕ) (s : Tables)
      → is_recent t unixepoch fuel cutoff (first_5m s) ≡ false
      → length s.rounds < fuel
      → delete_raw_before t unixepoch fuel cutoff (steady s)
        ≡ (ok tt, steady (record s { rounds = unexpired cutoff s }))
  delete_raw_before_lem cutoff s old h =
      simp old (ap (continue_with (λ total. return tt)) (delete_rounds_loop cutoff s h))

  -- The step for the rounds ends, in no more turns than there are rounds and one. Unless the first
  -- 5-minute rollup starts at the cutoff or later, it deletes the rounds that are older than the
  -- cutoff and in a 5-minute rollup of their check and observer, and no other row of any table.
  pub enforce_raw_retention_lem :
      (c : RetentionConfig) (now retention : ℕ) (s : Tables)
      → parse_retention c.raw_rounds ≡ some retention
      → is_recent t unixepoch fuel (cutoff_at t unixepoch fuel now retention) (first_5m s) ≡ false
      → length s.rounds < fuel
      → enforce_raw_retention t unixepoch fuel c now (steady s) ≡ (
        ok tt,
        steady (record s { rounds = unexpired (cutoff_at t unixepoch fuel now retention) s }),
      )
  unfolding enforce_raw_retention
  enforce_raw_retention_lem c now retention s parsed old h =
      ap (λ o. with_cutoff t unixepoch fuel now o (delete_raw_before t unixepoch fuel) (steady s))
        parsed
      ∙ delete_raw_before_lem (cutoff_at t unixepoch fuel now retention) s old h
