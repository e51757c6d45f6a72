-- ===== src/Rollups/Aggregate/Statuses.antt =====
-- Where `aggregate_bucket` of crates/kemuri-server/src/rollup_worker.rs counts a round, by its status.
use kemuri.Base.{ℕ, ◌+◌, ◌≡◌, ◌∙◌, sym, ap, arith, Bool, true, false, if◌then◌else◌}
use kemuri.Base.{List, [], ◌∷◌, length, filter, Bool-cases, inl, inr}
use kemuri.Base.Text.{Text, codes, text_eq, text_eq_iff}
use kemuri.Base.Float.{Float}
use kemuri.Rounds.{RoundRow}
use kemuri.Rollups.Aggregate.{Counts, count_key, Sums, count_status, add_counts, add_round}
use kemuri.Rollups.Aggregate.{add_rounds}
use kemuri.Rollups.Aggregate.Laws.{add_blob-SameCounts}

-- The count under a key, 0 where the map has none.
abbrev pub count_of : Text → Counts → ℕ
count_of key [] = 0
count_of key ((k, n) ∷ m) = let rest = count_of key m in if text_eq k key then n else rest

-- How many rounds have a status.
abbrev pub rounds_with : Text → List RoundRow → ℕ
rounds_with status rounds = length (filter (λ r. text_eq r.execution_status status) rounds)

abbrev pub IsNoData : Text → Type 0
IsNoData status =
    (text_eq status (codes "complete") ≡ false) × (text_eq status (codes "partial") ≡ false)

abbrev one_if : Bool → ℕ
one_if b = if b then 1 else 0

-- A text that another is equal to is not equal to a third one that differs from that.
text_eq_apart :
    (l k key : Text) → text_eq l key ≡ true → text_eq l k ≡ false → text_eq k key ≡ false
text_eq_apart l k key d e = elim (Bool-cases (text_eq k key)) [
  | inl h ↦
      let same : l ≡ k = (text_eq_iff l key).0 d ∙ sym ((text_eq_iff k key).0 h) in
      let yes : text_eq l k ≡ true = (text_eq_iff l k).1 same in ground (arith, yes, e)
  | inr h ↦ h
]

count_of-count_key :
    (key k : Text) (m : Counts)
    → count_of key (count_key k m) ≡ count_of key m + one_if (text_eq k key)
count_of-count_key key k [] = ground arith
count_of-count_key key k ((l, n) ∷ m) = elim (Bool-cases (text_eq l k)) [
  | inl e ↦
      let same : text_eq l key ≡ text_eq k key = ap (λ u. text_eq u key) ((text_eq_iff l k).0 e) in
      ground (arith, e, same)
  | inr e ↦ elim (Bool-cases (text_eq l key)) [
    | inl d ↦ ground (arith, e, d, text_eq_apart l k key d e)
    | inr d ↦ ground (arith, e, d, count_of-count_key key k m)
  ]
]

-- Each round is counted where its status says.
pub record ByStatus (rounds : List RoundRow) (s s' : Sums) : Type 0 where
  pub completed : s'.completed_rounds ≡ s.completed_rounds + rounds_with (codes "complete") rounds
  pub partially : s'.partial_rounds ≡ s.partial_rounds + rounds_with (codes "partial") rounds
  pub no_data :
      (status : Text)
      → IsNoData status
      → count_of status s'.no_data_counts
        ≡ count_of status s.no_data_counts + rounds_with status rounds

-- One status, before the samples of its round.
module _ (own : Text) (s : Sums) where
  completed-count_status :
      (count_status own s).completed_rounds
      ≡ s.completed_rounds + one_if (text_eq own (codes "complete"))
  completed-count_status = ground arith

  partially-count_status :
      (count_status own s).partial_rounds
      ≡ s.partial_rounds + one_if (text_eq own (codes "partial"))
  partially-count_status = elim (Bool-cases (text_eq own (codes "complete"))) [
    | inl e ↦
        let other : text_eq own (codes "partial") ≡ false =
          ap (λ u. text_eq u (codes "partial")) ((text_eq_iff own (codes "complete")).0 e) in
        ground (arith, e, other)
    | inr e ↦ ground (arith, e)
  ]

  differs :
      (status kind : Text)
      → text_eq status kind ≡ false
      → text_eq own kind ≡ true
      → text_eq own status ≡ false
  differs status kind h e = elim (Bool-cases (text_eq own status)) [
    | inl d ↦
        let same : text_eq own kind ≡ text_eq status kind =
          ap (λ u. text_eq u kind) ((text_eq_iff own status).0 d) in
        ground (arith, same, h, e)
    | inr d ↦ d
  ]

  no_data-count_status :
      (status : Text)
      → IsNoData status
      → count_of status (count_status own s).no_data_counts
        ≡ count_of status s.no_data_counts + one_if (text_eq own status)
  no_data-count_status status (c, p) = elim (Bool-cases (text_eq own (codes "complete"))) [
    | inl e ↦ let other = differs status (codes "complete") c e in simp (e, other) (omega arith)
    | inr e ↦ elim (Bool-cases (text_eq own (codes "partial"))) [
      | inl d ↦ let other = differs status (codes "partial") p d in simp (e, d, other) (omega arith)
      | inr d ↦ simp (e, d) (count_of-count_key status own s.no_data_counts)
    ]
  ]

-- A list with one round.
rounds_with-cons :
    (status : Text) (r : RoundRow) (rs : List RoundRow)
    → rounds_with status (r ∷ rs)
      ≡ one_if (text_eq r.execution_status status) + rounds_with status rs
rounds_with-cons status r rs = ground arith

module _ (f : Float) where
  add_round-ByStatus :
      (r : RoundRow) (s : Sums)
      → ((add_round f r s).completed_rounds ≡ (count_status r.execution_status s).completed_rounds)
        × ((add_round f r s).partial_rounds ≡ (count_status r.execution_status s).partial_rounds)
        × ((add_round f r s).no_data_counts ≡ (count_status r.execution_status s).no_data_counts)
  unfolding add_round
  add_round-ByStatus r s =
      let same = add_blob-SameCounts f r.sample_blob (add_counts r s) in
      (same.completed ∙ ground arith, same.partially ∙ ground arith, same.no_data ∙ ground arith)

  pub add_rounds-ByStatus : (rs : List RoundRow) (s : Sums) → ByStatus rs s (add_rounds f rs s)
  unfolding add_rounds
  add_rounds-ByStatus [] s = record {
    completed = omega arith;
    partially = omega arith;
    no_data = λ status h. omega arith;
  }
  add_rounds-ByStatus (r ∷ rs) s =
      let (c, p, n) = add_round-ByStatus r s in
      let rest = add_rounds-ByStatus rs (add_round f r s) in
      let own = r.execution_status in
      record {
        completed = omega (
          arith,
          rest.completed,
          c,
          completed-count_status own s,
          rounds_with-cons (codes "complete") r rs,
        );
        partially = omega (
          arith,
          rest.partially,
          p,
          partially-count_status own s,
          rounds_with-cons (codes "partial") r rs,
        );
        no_data = λ status h. omega (
          arith,
          rest.no_data status h,
          ap (count_of status) n,
          no_data-count_status own s status h,
          rounds_with-cons status r rs,
        );
      }
