-- ===== src/Rollups/Worker/Lost.antt =====
-- The lower bound of the query of crates/kemuri-server/src/rollup_worker.rs: it is printed with
-- `Z`, the instants of rounds are printed with a fraction or an offset, and they are compared as
-- text.
use kemuri.Base.{ℕ, ◌-◌, ◌*◌, ◌/◌, ◌≡◌, ◌<◌, ◌∙◌, refl, sym, ap, arith, false}
use kemuri.Base.{Option, some, unwrap_or, List, [], ◌∷◌, ◌++◌, filter, Bool}
use kemuri.Base.Text.{Text, codes}
use kemuri.Base.Float.{Float}
use kemuri.Base.Chrono.{Chrono, Layout, HasInstant, nanos_per_sec}
use kemuri.Base.Action.{steady}
use kemuri.Rounds.{RoundRow}
use kemuri.Alerts.Metric.{text_le, sort_rounds}
use kemuri.Rollups.Aggregate.{InsertRollup, Counts}
use kemuri.Rollups.Store.{is_of, is_between, latest_start, rounds_between}
use kemuri.Rollups.Worker.{
  timestamp, compute_from, start_from, push_rounds, format_utc_timestamp, lookback_buckets,
}
use kemuri.Rollups.Worker.Cycle.{upsert_all}
use kemuri.Rollups.Worker.Laws.{process, rollups-process}

text_le-stem : (s u : Text) (c : ℕ) → c < 90 → text_le (s ++ codes "Z") (s ++ (c ∷ u)) ≡ false
text_le-stem [] u c h = ground arith
text_le-stem (d ∷ s) u c h = ground (arith, text_le-stem s u c h)

filter-skip :
    (p : RoundRow → Bool) (xs ys : List RoundRow) (r : RoundRow)
    → p r ≡ false
    → filter p (xs ++ (r ∷ ys)) ≡ filter p (xs ++ ys)
filter-skip p [] ys r h = simp h refl
filter-skip p (x ∷ xs) ys r h = simp (filter-skip p xs ys r h) refl

is_between-first_second :
    (t : Chrono) (check observer ts instant : ℕ) (to : Text) (r : RoundRow)
    → Layout t
    → r.scheduled_at ≡ t.to_rfc3339 instant
    → timestamp instant ≡ ts
    → is_between check observer (t.to_rfc3339_secs (ts * nanos_per_sec)) to r ≡ false
is_between-first_second t check observer ts instant to r layout printed second =
    let late : text_le (t.to_rfc3339_secs (ts * nanos_per_sec)) r.scheduled_at ≡ false =
      ap (λ u. text_le u r.scheduled_at) (layout.secs ts)
      ∙ ap (text_le (layout.stem ts ++ codes "Z")) (printed ∙ layout.full instant)
      ∙ ap
          (λ k.
            text_le (layout.stem ts ++ codes "Z")
              (layout.stem k ++ (layout.mark instant ∷ layout.rest instant)))
          second
      ∙ text_le-stem (layout.stem ts) (layout.rest instant) (layout.mark instant)
          (layout.before_z instant) in
    ground (arith, late)

module _ (t : Chrono) (f : Float) (to_json : Counts → Text)
    (now check observer resolution : ℕ) where
  compute_from-watermark :
      (start : Option Text) (text : Text) (wm : ℕ)
      → start ≡ some text
      → t.parse_rfc3339 text ≡ some wm
      → HasInstant t (timestamp wm - resolution * lookback_buckets)
      → compute_from t now start resolution
        ≡ t.to_rfc3339_secs ((timestamp wm - resolution * lookback_buckets) * nanos_per_sec)
  compute_from-watermark start text wm latest parsed has =
      ap (λ o. compute_from t now o resolution) latest
      ∙ ap (λ o. start_from t now resolution o) parsed
      ∙ ap (λ o. t.to_rfc3339_secs (unwrap_or o now)) has

  rounds_between-first_second :
      (from to : Text) (xs ys : List RoundRow) (r : RoundRow) (ts instant : ℕ)
      → Layout t
      → from ≡ t.to_rfc3339_secs (ts * nanos_per_sec)
      → r.scheduled_at ≡ t.to_rfc3339 instant
      → timestamp instant ≡ ts
      → rounds_between check observer from to (xs ++ (r ∷ ys))
        ≡ rounds_between check observer from to (xs ++ ys)
  unfolding rounds_between
  rounds_between-first_second from to xs ys r ts instant layout bound printed second =
      ap sort_rounds (
        filter-skip (is_between check observer from to) xs ys r (
          ap (λ b. is_between check observer b to r) bound
          ∙ is_between-first_second t check observer ts instant to r layout printed second))

  -- Where no statement fails, a call leaves out a round of the first second of its oldest bucket, the
  -- one two buckets before the latest rollup: whatever the other rounds and the rollups are, the
  -- rollups after the call are those after a call on the tables without that round.
  pub process_pair_resolution_lost :
      (xs ys : List RoundRow) (r : RoundRow) (rollups : List InsertRollup) (text : Text)
      (wm instant : ℕ)
      → Layout t
      → latest_start (filter (is_of check observer resolution) rollups) ≡ some text
      → t.parse_rfc3339 text ≡ some wm
      → HasInstant t (timestamp wm - resolution * lookback_buckets)
      → r.scheduled_at ≡ t.to_rfc3339 instant
      → timestamp instant ≡ timestamp wm - resolution * lookback_buckets
      → (process t f to_json now check observer resolution
          (steady (record { rounds = xs ++ (r ∷ ys); rollups = rollups }))).1.tables.rollups
        ≡ (process t f to_json now check observer resolution
            (steady (record { rounds = xs ++ ys; rollups = rollups }))).1.tables.rollups
  process_pair_resolution_lost xs ys r rollups text wm instant layout latest parsed has printed
        second =
      let from =
        compute_from t now (latest_start (filter (is_of check observer resolution) rollups))
          resolution in
      let to = format_utc_timestamp t now (timestamp now / resolution * resolution) in
      let bound = compute_from-watermark _ text wm latest parsed has in
      rollups-process t f to_json now check observer resolution
        (record { rounds = xs ++ (r ∷ ys); rollups = rollups })
      ∙ ap
          (λ rs.
            upsert_all t f to_json now check observer resolution (push_rounds t resolution rs [])
              rollups)
          (rounds_between-first_second from to xs ys r _ instant layout bound printed second)
      ∙ sym (
          rollups-process t f to_json now check observer resolution
            (record { rounds = xs ++ ys; rollups = rollups }))
