-- ===== src/FailureLog/Laws.antt =====
-- What the reports of crates/kemuri-server/src/failure_log.rs add up to.
use kemuri.Base.{
  ℕ, ◌+◌, ◌-◌, ◌≡◌, ◌≤◌, ◌<◌, ◌∙◌, refl, sym, ap, arith, true, false, if◌then◌else◌, leb, inl, inr,
  Bool-cases, is_some, ◌↔◌,
}
use kemuri.Base.{Option, none, some, map_or, List, [], ◌∷◌}
use kemuri.Base.Text.{text_eq_iff, text_eq_refl}
use kemuri.FailureLog.{
  FailureEntry, Key, key_eq, Entries, get, remove, insert, failure_of, failure, suppressed_of,
  recovery,
}

key_eq_refl : (k : Key) → key_eq k k ≡ true
key_eq_refl k = ground (arith, text_eq_refl k.0, text_eq_refl k.1)

get-remove_same : (key : Key) (m : Entries) → get key (remove key m) ≡ none
get-remove_same key [] = refl
get-remove_same key ((k, e) ∷ m) = ground (arith, get-remove_same key m)

key_eq_trans : (j k l : Key) → key_eq j k ≡ true → key_eq j l ≡ true → key_eq k l ≡ true
key_eq_trans j k l h e = ground (
  arith,
  h,
  e,
  text_eq_iff j.0 k.0,
  text_eq_iff j.1 k.1,
  text_eq_iff j.0 l.0,
  text_eq_iff j.1 l.1,
  text_eq_iff k.0 l.0,
  text_eq_iff k.1 l.1,
)

get-remove_other :
    (key other : Key) (m : Entries)
    → key_eq key other ≡ false
    → get other (remove key m) ≡ get other m
get-remove_other key other [] h = refl
get-remove_other key other ((k, e) ∷ m) h =
    ground (arith, h, key_eq_trans k key other, get-remove_other key other m h)

get-insert_same : (key : Key) (e : FailureEntry) (m : Entries) → get key (insert key e m) ≡ some e
get-insert_same key e m = ground (arith, key_eq_refl key)

get-insert_other :
    (key other : Key) (e : FailureEntry) (m : Entries)
    → key_eq key other ≡ false
    → get other (insert key e m) ≡ get other m
get-insert_other key other e m h = ground (arith, h, get-remove_other key other m h)

-- The calls of the limiter, each with its answer and the entries that it leaves.
pub data Call : Type 0 where
  failed : ℕ → Key → Call  -- the instant of the call
  recovered : Key → Call

abbrev pub key_of : Call → Key
key_of (failed now key) = key
key_of (recovered key) = key

abbrev pub answer : ℕ → Call → Entries → Option ℕ × Entries
answer interval (failed now key) m = failure interval now key m
answer interval (recovered key) m = recovery key m

abbrev pub answer_all : ℕ → List Call → Entries → Entries
answer_all interval [] m = m
answer_all interval (c ∷ cs) m = answer_all interval cs (answer interval c m).1

-- The failures that an answer tells of: those it has suppressed, and the one reported.
abbrev pub told : Call → Option ℕ → ℕ
told (failed now key) reply = map_or reply 0 (λ n. n + 1)
told (recovered key) reply = map_or reply 0 (λ n. n)

abbrev pub failures : Call → ℕ
failures (failed now key) = 1
failures (recovered key) = 0

-- Those of the calls of one key.
abbrev pub sum_for : Key → (Call → ℕ) → List Call → ℕ
sum_for key g [] = 0
sum_for key g (c ∷ cs) = (if key_eq (key_of c) key then g c else 0) + sum_for key g cs

abbrev pub told_for : ℕ → Key → List Call → Entries → ℕ
told_for interval key [] m = 0
told_for interval key (c ∷ cs) m =
    (if key_eq (key_of c) key then told c (answer interval c m).0 else 0)
    + told_for interval key cs (answer interval c m).1

abbrev pub pending : Option FailureEntry → ℕ
pending o = map_or o 0 (λ e. e.suppressed)

told-failure_of :
    (interval now : ℕ) (o : Option FailureEntry)
    → 1 + pending o
      ≡ map_or (failure_of interval now o).0 0 (λ n. n + 1)
        + (failure_of interval now o).1.suppressed
told-failure_of interval now none = omega arith
told-failure_of interval now (some e) = ground arith

told_own :
    (interval : ℕ) (c : Call) (m : Entries)
    → failures c + pending (get (key_of c) m)
      ≡ told c (answer interval c m).0 + pending (get (key_of c) (answer interval c m).1)
unfolding failure recovery
told_own interval (failed now key) m =
    let entry = (failure_of interval now (get key m)).1 in
    told-failure_of interval now (get key m)
    ∙ ap (λ o. map_or (failure_of interval now (get key m)).0 0 (λ n. n + 1) + pending o)
        (sym (get-insert_same key entry m))
told_own interval (recovered key) m =
    recovered_own (get key m)
    ∙ ap (λ o. map_or (suppressed_of (get key m)) 0 (λ n. n) + pending o)
        (sym (get-remove_same key m))
  where
    recovered_own :
        (o : Option FailureEntry)
        → 0 + pending o ≡ map_or (suppressed_of o) 0 (λ n. n) + pending none
    recovered_own none = refl
    recovered_own (some e) = omega arith

get-answer_other :
    (interval : ℕ) (c : Call) (key : Key) (m : Entries)
    → key_eq (key_of c) key ≡ false
    → get key (answer interval c m).1 ≡ get key m
unfolding failure recovery
get-answer_other interval (failed now k) key m h = get-insert_other k key _ m h
get-answer_other interval (recovered k) key m h = get-remove_other k key m h

key_eq→≡ : (j k : Key) → key_eq j k ≡ true → j ≡ k
key_eq→≡ j k h =
    let first : j.0 ≡ k.0 = ground (arith, h, text_eq_iff j.0 k.0) in
    let second : j.1 ≡ k.1 = ground (arith, h, text_eq_iff j.1 k.1) in λ i. (first i, second i)

told_step :
    (interval : ℕ) (key : Key) (c : Call) (m : Entries)
    → (if key_eq (key_of c) key then failures c else 0) + pending (get key m)
      ≡ (if key_eq (key_of c) key then told c (answer interval c m).0 else 0)
        + pending (get key (answer interval c m).1)
told_step interval key c m = elim (Bool-cases (key_eq (key_of c) key)) [
  | inl h ↦
      let same = key_eq→≡ (key_of c) key h in
      simp h (
        omega (
          arith,
          told_own interval c m,
          ap (λ k. pending (get k m)) same,
          ap (λ k. pending (get k (answer interval c m).1)) same,
        ))
  | inr h ↦ simp h (ap (λ o. 0 + pending o) (sym (get-answer_other interval c key m h)))
]

-- Over any calls, the failures under a key are those that the answers under the key tell of, the
-- reported and the suppressed ones, and those that are suppressed at the end; what is suppressed at
-- the start counts with the failures.
pub told_for_lem :
    (interval : ℕ) (key : Key) (cs : List Call) (m : Entries)
    → sum_for key failures cs + pending (get key m)
      ≡ told_for interval key cs m + pending (get key (answer_all interval cs m))
told_for_lem interval key [] m = refl
told_for_lem interval key (c ∷ cs) m =
    omega (arith, told_step interval key c m, told_for_lem interval key cs (answer interval c m).1)

-- Where a failure under a key was reported before, a later one is reported exactly if the interval
-- has passed since; the entry then has the instant of the last report.
pub failure_lem :
    (interval now : ℕ) (key : Key) (m : Entries) (e : FailureEntry)
    → 0 < interval
    → get key m ≡ some e
    → let (reply, after) = failure interval now key m in
      ((is_some reply ≡ true) ↔ (e.last_reported + interval ≤ now))
      × (map_or (get key after) 0 (λ a. a.last_reported)
          ≡ (if is_some reply then now else e.last_reported))
unfolding failure
failure_lem interval now key m e h there =
    let found = get-insert_same key (failure_of interval now (get key m)).1 m in
    let reply : is_some (failure_of interval now (get key m)).0
        ≡ leb interval (now - e.last_reported) =
      ap (λ o. is_some (failure_of interval now o).0) there ∙ ground arith in
    let last : (failure_of interval now (get key m)).1.last_reported
        ≡ (if leb interval (now - e.last_reported) then now else e.last_reported) =
      ap (λ o. (failure_of interval now o).1.last_reported) there ∙ ground arith in
    (
      ground (arith, reply, h),
      ap (λ o. map_or o 0 (λ a. a.last_reported)) found
          ∙ last
          ∙ ap (λ b. if b then now else e.last_reported) (sym reply),
    )
