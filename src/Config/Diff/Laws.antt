-- ===== src/Config/Diff/Laws.antt =====
-- What an empty `ConfigDiff` of crates/kemuri-config/src/lib.rs says.
use kemuri.Base.{◌≡◌, refl, arith, Bool, true, false}
use kemuri.Base.{
  Option, none, some, is_some, is_empty, List, [], ◌∷◌, ◌++◌, map, filter, All, inl, inr,
  Bool-cases,
}
use kemuri.Config.Types.{CheckConfig, TargetConfig, KemuriConfig}
use kemuri.Config.Equal.Laws.{SameEntries, SameCheck, check_eq-SameCheck, text_eq-Sound}
use kemuri.Config.Equal.Laws.{bool_eq-Sound, option_eq-Sound, option_eq-SameEntries}
use kemuri.Config.Diff.{ConfigDiff, targets_without, target_of, check_of, targets_by_id}
use kemuri.Config.Diff.{checks_by_id, is_modified, check_changed, add_common, add_target, common}
use kemuri.Config.Diff.{compute, is_empty_diff}

module _ {A B : Type 0} where
  none-filter :
      (g : A → B) (p : A → Bool) (xs : List A)
      → is_empty (map g (filter p xs)) ≡ true
      → All (λ x. p x ≡ false) xs
  none-filter g p [] h = tt
  none-filter g p (x ∷ xs) h = elim (Bool-cases (p x)) [
    | inl e ↦ ground (arith, h, e)
    | inr e ↦ (e, none-filter g p xs (ground (arith, h, e)))
  ]

is_empty-append :
    {A : Type 0} (xs ys : List A)
    → is_empty (xs ++ ys) ≡ true
    → (is_empty xs ≡ true) × (is_empty ys ≡ true)
is_empty-append [] ys h = (refl, h)
is_empty-append (x ∷ xs) ys h = ground (arith, h)

All-of : {A : Type 0} (P Q : A → Type 0) (xs : List A) → ((x : A) → P x → Q x) → All P xs → All Q xs
All-of P Q [] f a = tt
All-of P Q (x ∷ xs) f a = (f x a.0, All-of P Q xs f a.1)

-- A check that was there under its id, with the same fields.
abbrev pub SameAsBefore : List CheckConfig → CheckConfig → Type 0
SameAsBefore olds new = (old : CheckConfig) × (check_of new.id olds ≡ some old) × SameCheck old new

-- A target as it was: each of its fields is the same, labels with the same entries, and it has the
-- checks that it had, each as it was.
pub record IsUnchanged (old new : TargetConfig) : Type 0 where
  pub same_address : old.address ≡ new.address
  pub same_name : old.name ≡ new.name
  pub same_group_path : old.group_path ≡ new.group_path
  pub same_labels : SameEntries old.labels new.labels
  pub same_enabled : old.enabled ≡ new.enabled
  pub kept :
      All (λ c. is_some (check_of c.id (checks_by_id new.checks)) ≡ true) (checks_by_id old.checks)
  pub same_checks : All (SameAsBefore (checks_by_id old.checks)) (checks_by_id new.checks)

module _ (olds : List CheckConfig) where
  check_changed-SameAsBefore :
      (c : CheckConfig) (o : Option CheckConfig)
      → check_of c.id olds ≡ o
      → is_some o ≡ true
      → check_changed olds c ≡ false
      → SameAsBefore olds c
  check_changed-SameAsBefore c none e h u = ground (arith, h)
  check_changed-SameAsBefore c (some old) e h u =
      (old, e, check_eq-SameCheck old c (ground (arith, u, e)))

  unchanged_checks :
      (news : List CheckConfig)
      → All (λ c. is_some (check_of c.id olds) ≡ true) news
      → All (λ c. check_changed olds c ≡ false) news
      → All (SameAsBefore olds) news
  unchanged_checks [] a b = tt
  unchanged_checks (c ∷ news) a b = (
    check_changed-SameAsBefore c (check_of c.id olds) refl a.0 b.0,
    unchanged_checks news a.1 b.1,
  )

-- The lists of the common targets are empty.
abbrev IsQuiet : ConfigDiff → Type 0
IsQuiet d =
    (is_empty d.modified_targets ≡ true)
    × (is_empty d.added_checks ≡ true)
    × (is_empty d.removed_checks ≡ true)
    × (is_empty d.modified_checks ≡ true)

-- The fields of a target that is not modified.
abbrev SameFields : TargetConfig → TargetConfig → Type 0
SameFields old new =
    (old.address ≡ new.address)
    × (old.name ≡ new.name)
    × (old.group_path ≡ new.group_path)
    × SameEntries old.labels new.labels
    × (old.enabled ≡ new.enabled)

is_modified-SameFields : (old new : TargetConfig) → is_modified old new ≡ false → SameFields old new
unfolding is_modified
is_modified-SameFields old new h = (
  text_eq-Sound old.address new.address (ground (arith, h)),
  option_eq-Sound text_eq-Sound old.name new.name (ground (arith, h)),
  option_eq-Sound text_eq-Sound old.group_path new.group_path (ground (arith, h)),
  option_eq-SameEntries old.labels new.labels (ground (arith, h)),
  bool_eq-Sound old.enabled new.enabled (ground (arith, h)),
)

add_common-IsUnchanged :
    (old new : TargetConfig) (d : ConfigDiff)
    → IsQuiet (add_common old new d)
    → IsUnchanged old new × IsQuiet d
unfolding add_common
add_common-IsUnchanged old new d (m, a, r, c) =
    let olds = checks_by_id old.checks in
    let news = checks_by_id new.checks in
    let (a1, a2) = is_empty-append _ d.added_checks a in
    let (r1, r2) = is_empty-append _ d.removed_checks r in
    let (c1, c2) = is_empty-append _ d.modified_checks c in
    let (address, name, group, labels, enabled) =
      is_modified-SameFields old new (ground (arith, m)) in
    let rest : is_empty d.modified_targets ≡ true = ground (arith, m) in
    let known : All (λ x. is_some (check_of x.id olds) ≡ true) news =
      All-of _ _ news (λ x e. ground (arith, e)) (none-filter _ _ news a1) in
    (
      record {
        same_address = address;
        same_name = name;
        same_group_path = group;
        same_labels = labels;
        same_enabled = enabled;
        kept = All-of _ _ olds (λ x e. ground (arith, e)) (none-filter _ _ olds r1);
        same_checks = unchanged_checks olds news known (none-filter _ _ news c1);
      },
      (rest, a2, r2, c2),
    )

-- A target of the new configuration that was there, as it was.
abbrev pub WasThere : List TargetConfig → TargetConfig → Type 0
WasThere olds new = (old : TargetConfig) × (target_of new.id olds ≡ some old) × IsUnchanged old new

add_target-WasThere :
    (olds : List TargetConfig) (t : TargetConfig) (d : ConfigDiff) (o : Option TargetConfig)
    → target_of t.id olds ≡ o
    → is_some o ≡ true
    → IsQuiet (add_target o t d)
    → WasThere olds t × IsQuiet d
add_target-WasThere olds t d none e h q = ground (arith, h)
add_target-WasThere olds t d (some old) e h q =
    let (same, q') = add_common-IsUnchanged old t d q in ((old, e, same), q')

common-WasThere :
    (olds news : List TargetConfig)
    → All (λ t. is_some (target_of t.id olds) ≡ true) news
    → IsQuiet (common olds news)
    → All (WasThere olds) news
unfolding common
common-WasThere olds [] a q = tt
common-WasThere olds (t ∷ ts) a q =
    let (there, q') =
      add_target-WasThere olds t (common olds ts) (target_of t.id olds) refl a.0 q in
    (there, common-WasThere olds ts a.1 q')

-- If the difference of two configurations is empty, then each target of the new one was a target of
-- the old one, and each target of the old one is still there; a target has the same fields as
-- before, and the same checks with the same fields. Maps are the same that have as many entries,
-- each of one in the other, and of targets or checks with one id the last one counts.
pub compute-IsUnchanged :
    (old new : KemuriConfig)
    → is_empty_diff (compute old new) ≡ true
    → let olds = targets_by_id old.targets in
      let news = targets_by_id new.targets in
      All (WasThere olds) news × All (λ t. is_some (target_of t.id news) ≡ true) olds
unfolding compute is_empty_diff
compute-IsUnchanged old new h =
    let olds = targets_by_id old.targets in
    let news = targets_by_id new.targets in
    let quiet : IsQuiet (common olds news) = ground (arith, h) in
    let added : is_empty (targets_without olds news) ≡ true = ground (arith, h) in
    let removed : is_empty (targets_without news olds) ≡ true = ground (arith, h) in
    (
      common-WasThere olds news
          (All-of _ _ news (λ x e. ground (arith, e)) (none-filter _ _ news added)) quiet,
      All-of _ _ olds (λ x e. ground (arith, e)) (none-filter _ _ olds removed),
    )
