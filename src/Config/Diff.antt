-- ===== src/Config/Diff.antt =====
-- `ConfigDiff` of crates/kemuri-config/src/lib.rs. A HashMap from ids is the list of its values, one
-- for each id; the lists of the code are in the order of a HashMap, and here in that of these values.
pub mod Laws
use kemuri.Base.{Bool, true, false, not, ◌&&◌, ◌||◌, if◌then◌else◌}
use kemuri.Base.{
  Option, none, some, map_or, is_some, is_empty, List, [], ◌∷◌, ◌++◌, map, filter, find, any,
}
use kemuri.Base.Text.{Text, text_eq}
use kemuri.Config.Types.{CheckConfig, TargetConfig, KemuriConfig}
use kemuri.Config.Equal.{bool_eq, option_eq, map_eq, check_eq}

pub record ConfigDiff : Type 0 where
  pub added_targets : List Text
  pub removed_targets : List Text
  pub modified_targets : List Text
  pub added_checks : List (Text × Text)
  pub removed_checks : List (Text × Text)
  pub modified_checks : List (Text × Text)

-- `map(|x| (x.id.clone(), x)).collect()` into a HashMap: the last value with an id stays.
module _ {A : Type 0} (id_of : A → Text) where
  abbrev pub collect : List A → List A
  collect [] = []
  collect (x ∷ xs) =
      let rest = collect xs in if any (λ y. text_eq (id_of y) (id_of x)) xs then rest else x ∷ rest

abbrev pub targets_by_id : List TargetConfig → List TargetConfig
targets_by_id targets = collect (λ t. t.id) targets

abbrev pub checks_by_id : List CheckConfig → List CheckConfig
checks_by_id checks = collect (λ c. c.id) checks

-- `get` of these maps.
abbrev pub target_of : Text → List TargetConfig → Option TargetConfig
target_of id targets = find (λ t. text_eq t.id id) targets

abbrev pub check_of : Text → List CheckConfig → Option CheckConfig
check_of id checks = find (λ c. text_eq c.id id) checks

-- The keys of `ts` that `us` does not have, for targets and for checks.
abbrev pub targets_without : List TargetConfig → List TargetConfig → List Text
targets_without us ts = map (λ t. t.id) (filter (λ t. not (is_some (target_of t.id us))) ts)

abbrev pub checks_without : Text → List CheckConfig → List CheckConfig → List (Text × Text)
checks_without id ds cs = map (λ c. (id, c.id)) (filter (λ c. not (is_some (check_of c.id ds))) cs)

-- Whether the target itself has changed, its checks aside.
unfoldable pub is_modified : TargetConfig → TargetConfig → Bool
is_modified old new =
    not (text_eq old.address new.address)
    || not (option_eq text_eq old.name new.name)
    || not (option_eq text_eq old.group_path new.group_path)
    || not (option_eq map_eq old.labels new.labels)
    || not (bool_eq old.enabled new.enabled)

abbrev pub check_changed : List CheckConfig → CheckConfig → Bool
check_changed old new = map_or (check_of new.id old) false (λ before. not (check_eq before new))

abbrev pub changed_checks : Text → List CheckConfig → List CheckConfig → List (Text × Text)
changed_checks id old new = map (λ c. (id, c.id)) (filter (check_changed old) new)

abbrev pub no_diff : ConfigDiff
no_diff = record {
  added_targets = [];
  removed_targets = [];
  modified_targets = [];
  added_checks = [];
  removed_checks = [];
  modified_checks = [];
}

-- The body of the loop over the new targets, for one that is in both.
unfoldable pub add_common : TargetConfig → TargetConfig → ConfigDiff → ConfigDiff
add_common old new d =
    let old_checks = checks_by_id old.checks in
    let new_checks = checks_by_id new.checks in
    record d {
      modified_targets =
          if is_modified old new then new.id ∷ d.modified_targets else d.modified_targets;
      added_checks = checks_without new.id old_checks new_checks ++ d.added_checks;
      removed_checks = checks_without new.id new_checks old_checks ++ d.removed_checks;
      modified_checks = changed_checks new.id old_checks new_checks ++ d.modified_checks;
    }

abbrev pub add_target : Option TargetConfig → TargetConfig → ConfigDiff → ConfigDiff
add_target none new d = d
add_target (some old) new d = add_common old new d

unfoldable pub common : List TargetConfig → List TargetConfig → ConfigDiff
common old_targets [] = no_diff
common old_targets (t ∷ ts) = add_target (target_of t.id old_targets) t (common old_targets ts)

-- `ConfigDiff::compute`
unfoldable pub compute : KemuriConfig → KemuriConfig → ConfigDiff
compute old new =
    let old_targets = targets_by_id old.targets in
    let new_targets = targets_by_id new.targets in
    record (common old_targets new_targets) {
      added_targets = targets_without old_targets new_targets;
      removed_targets = targets_without new_targets old_targets;
    }

-- `ConfigDiff::is_empty`
unfoldable pub is_empty_diff : ConfigDiff → Bool
is_empty_diff d =
    is_empty d.added_targets
    && is_empty d.removed_targets
    && is_empty d.modified_targets
    && is_empty d.added_checks
    && is_empty d.removed_checks
    && is_empty d.modified_checks
