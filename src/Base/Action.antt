-- ===== src/Base/Action.antt =====
-- Statements on tables of a database: state passing, where every statement may fail. It takes an
-- entry of `faults`, and on `true` it changes nothing and returns the error.
use kemuri.Base.{Bool, true, false, List, [], ◌∷◌}

-- What a run returns, or `sqlx::Error`, which has one value; `unfinished` is a loop whose fuel ran out
-- before its own test ended it.
pub data Result (A : Type 0) : Type 0 where
  ok : A → Result A
  err : Result A
  unfinished : Result A

pub record Store (S : Type 0) : Type 0 where
  pub tables : S
  pub faults : List Bool

abbrev pub Action : Type 0 → Type 0 → Type 0
Action S A = Store S → Result A × Store S

module _ {S : Type 0} where
  abbrev pub return : {A : Type 0} → A → Action S A
  return a db = (ok a, db)

  -- A loop without fuel.
  abbrev pub out_of_fuel : {A : Type 0} → Action S A
  out_of_fuel db = (unfinished, db)

  abbrev pub continue_with :
      {A B : Type 0} → (A → Action S B) → Result A × Store S → Result B × Store S
  continue_with k (ok a, db) = k a db
  continue_with k (err, db) = (err, db)
  continue_with k (unfinished, db) = (unfinished, db)

  infixl 5 ◌>>=◌ ◌>>◌
  abbrev pub ◌>>=◌ : {A B : Type 0} → Action S A → (A → Action S B) → Action S B
  ◌>>=◌ m k db = continue_with k (m db)

  abbrev pub ◌>>◌ : {A B : Type 0} → Action S A → Action S B → Action S B
  m >> k = m >>= λ _. k

  abbrev pub run_statement : {A : Type 0} → List Bool → (S → A × S) → Action S A
  run_statement [] act db = (ok (act db.tables).0, record db { tables = (act db.tables).1 })
  run_statement (false ∷ fs) act db =
      (ok (act db.tables).0, record { tables = (act db.tables).1; faults = fs })
  run_statement (true ∷ fs) act db = (err, record db { faults = fs })

  abbrev pub statement : {A : Type 0} → (S → A × S) → Action S A
  statement act db = run_statement db.faults act db

  -- A statement that changes nothing.
  abbrev pub query : {A : Type 0} → (S → A) → Action S A
  query q = statement (λ s. (q s, s))

  -- Where no statement fails.
  abbrev pub steady : S → Store S
  steady s = record { tables = s; faults = [] }
