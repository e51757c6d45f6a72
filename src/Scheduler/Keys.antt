-- ===== src/Scheduler/Keys.antt =====
-- The set of running rounds and the map of due times of crates/kemuri-server/src/scheduler.rs: a
-- HashSet of keys is a list, and a HashMap an association list.
use kemuri.Base.{ℕ, suc, ◌+◌, ◌≡◌, refl, ap, arith, Bool, true, false, ◌&&◌, if◌then◌else◌}
use kemuri.Base.{List, [], ◌∷◌, ◌++◌, length, Option, none, some, Bool-cases, inl, inr}
use kemuri.Base.Text.{Text, text_eq, text_eq_iff, text_eq_refl}

abbrev pub Key : Type 0
Key = Text × Text

abbrev pub key_eq : Key → Key → Bool
key_eq (a, b) (c, d) = text_eq a c && text_eq b d

abbrev pub contains : Key → List Key → Bool
contains k [] = false
contains k (x ∷ xs) = if key_eq k x then true else contains k xs

abbrev pub insert : Key → List Key → List Key
insert k xs = if contains k xs then xs else k ∷ xs

abbrev pub remove : Key → List Key → List Key
remove k [] = []
remove k (x ∷ xs) = let rest = remove k xs in if key_eq k x then rest else x ∷ rest

abbrev pub count : Key → List Key → ℕ
count k [] = 0
count k (x ∷ xs) = let rest = count k xs in if key_eq k x then suc rest else rest

abbrev pub get : Key → List (Key × ℕ) → Option ℕ
get k [] = none
get k ((x, due) ∷ m) = if key_eq k x then some due else get k m

abbrev pub insert_due : Key → ℕ → List (Key × ℕ) → List (Key × ℕ)
insert_due k due [] = (k, due) ∷ []
insert_due k due ((x, old) ∷ m) =
    let rest = insert_due k due m in if key_eq k x then (x, due) ∷ m else (x, old) ∷ rest

abbrev pub remove_due : Key → List (Key × ℕ) → List (Key × ℕ)
remove_due k [] = []
remove_due k ((x, due) ∷ m) =
    let rest = remove_due k m in if key_eq k x then rest else (x, due) ∷ rest

pub key_eq_refl : (k : Key) → key_eq k k ≡ true
key_eq_refl (a, b) = rw (text_eq_refl a, text_eq_refl b) refl

pub key_eq-path : (k j : Key) → key_eq k j ≡ true → k ≡ j
key_eq-path (a, b) (c, d) h = elim (Bool-cases (text_eq a c)) [
  | inl e ↦ λ i. ((text_eq_iff a c).0 e i, (text_eq_iff b d).0 (ground arith) i)
  | inr e ↦ absurd (ground arith)
]

pub get-insert_due :
    (k : Key) (due : ℕ) (m : List (Key × ℕ)) → get k (insert_due k due m) ≡ some due
get-insert_due k due [] = rw (key_eq_refl k) refl
get-insert_due k due ((x, old) ∷ m) = elim (Bool-cases (key_eq k x)) [
  | inl e ↦ rw e (rw e refl)
  | inr e ↦ rw e (rw e (get-insert_due k due m))
]

pub get-insert_due_other :
    (j k : Key) (due : ℕ) (m : List (Key × ℕ))
    → key_eq j k ≡ false
    → get j (insert_due k due m) ≡ get j m
get-insert_due_other j k due [] h = rw h refl
get-insert_due_other j k due ((x, old) ∷ m) h = elim (Bool-cases (key_eq k x)) [
  | inl e ↦ let n : key_eq j x ≡ false = rw (← key_eq-path k x e) h in rw e (rw n refl)
  | inr e ↦ rw e (elim (Bool-cases (key_eq j x)) [
    | inl d ↦ rw d refl
    | inr d ↦ rw d (get-insert_due_other j k due m h)
  ])
]

pub count-contains : (k : Key) (xs : List Key) → contains k xs ≡ false → count k xs ≡ 0
count-contains k [] h = refl
count-contains k (x ∷ xs) h = elim (Bool-cases (key_eq k x)) [
  | inl e ↦ absurd (ground arith)
  | inr e ↦ rw e (count-contains k xs (rw e at h))
]

pub count-append : (k : Key) (xs ys : List Key) → count k (xs ++ ys) ≡ count k xs + count k ys
count-append k [] ys = omega arith
count-append k (x ∷ xs) ys = elim (Bool-cases (key_eq k x)) [
  | inl e ↦ rw e (omega (arith, count-append k xs ys))
  | inr e ↦ rw e (count-append k xs ys)
]

pub count-remove : (k : Key) (xs : List Key) → count k (remove k xs) ≡ 0
count-remove k [] = refl
count-remove k (x ∷ xs) = elim (Bool-cases (key_eq k x)) [
  | inl e ↦ rw e (count-remove k xs)
  | inr e ↦ rw e (rw e (count-remove k xs))
]

pub count-remove_other :
    (j k : Key) (xs : List Key) → key_eq j k ≡ false → count j (remove k xs) ≡ count j xs
count-remove_other j k [] h = refl
count-remove_other j k (x ∷ xs) h = elim (Bool-cases (key_eq k x)) [
  | inl e ↦
      let n : key_eq j x ≡ false = rw (← key_eq-path k x e) h in
      rw e (rw n (count-remove_other j k xs h))
  | inr e ↦ rw e (elim (Bool-cases (key_eq j x)) [
    | inl d ↦ rw d (ap suc (count-remove_other j k xs h))
    | inr d ↦ rw d (count-remove_other j k xs h)
  ])
]

pub length-remove : (k : Key) (xs : List Key) → length (remove k xs) + count k xs ≡ length xs
length-remove k [] = refl
length-remove k (x ∷ xs) = elim (Bool-cases (key_eq k x)) [
  | inl e ↦ rw e (omega (arith, length-remove k xs))
  | inr e ↦ rw e (omega (arith, length-remove k xs))
]

pub remove_absent : (k : Key) (xs : List Key) → count k xs ≡ 0 → remove k xs ≡ xs
remove_absent k [] h = refl
remove_absent k (x ∷ xs) h = elim (Bool-cases (key_eq k x)) [
  | inl e ↦ absurd (ground arith)
  | inr e ↦ rw e (ap (λ (t : List Key). x ∷ t) (remove_absent k xs (rw e at h)))
]

pub count_here :
    (k x : Key) (xs : List Key) → key_eq k x ≡ true → count k (x ∷ xs) ≡ suc (count k xs)
count_here k x xs h = rw h refl

pub count_there : (k x : Key) (xs : List Key) → key_eq k x ≡ false → count k (x ∷ xs) ≡ count k xs
count_there k x xs h = rw h refl
