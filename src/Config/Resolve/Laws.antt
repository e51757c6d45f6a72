-- ===== src/Config/Resolve/Laws.antt =====
-- What a configuration of crates/kemuri-config/src/lib.rs resolves to.
use kemuri.Base.{ℕ, ◌≡◌, ◌<◌, ◌∙◌, sym, ap, arith, Bool, true, false, if◌then◌else◌, ◌==◌}
use kemuri.Base.{some, List, [], ◌∷◌, ◌++◌}
use kemuri.Base.Text.{Text, codes}
use kemuri.Base.Float.{Float}
use kemuri.Config.Error.{
  refuse_if, or_refuse, Result, ok, ◌>>=◌, ok-bind, ok-then, ok-refuse_if, ok-or_refuse,
  ok-injective,
}
use kemuri.Config.Types.{
  ProbeProfileConfig, CheckConfig, TargetConfig, KemuriConfig, ResolvedCheckDef,
  ResolvedProbeParams,
}
use kemuri.Config.Values.{Outside, must_be_positive}
use kemuri.Config.Validate.{
  profile_id, profile_kind, check_path, interval_str, timeout_str, validate_with_warnings,
}
use kemuri.Config.Params.{resolve_params, validate_params}
use kemuri.Config.Resolve.{
  refuse_kind, duration_or, resolve_check, resolve_one, resolve_checks, resolve_targets, resolve,
  find_profile,
}

module _ (o : Outside) (revision_of : Text → Text → ℕ → ℕ → ResolvedProbeParams → Text) where
  -- A check that stands for `check` of `target`, with the parameters of a profile.
  pub record IsResolved (profile : ProbeProfileConfig) (target : TargetConfig) (check : CheckConfig)
      (r : ResolvedCheckDef) : Type 0 where
    pub own_id : r.check_id ≡ check.id
    pub of_target : r.target_id ≡ target.id
    pub at_address : r.target_address ≡ target.address
    pub of_profile : r.profile_id ≡ check.profile
    pub of_kind : r.probe_kind ≡ profile_kind profile
    pub interval_positive : 0 < r.interval
    pub timeout_positive : 0 < r.timeout
    pub params_resolved :
        resolve_params o (check_path target check) check profile ≡ ok r.probe_params
    pub params_valid : validate_params o (check_path target check) r.probe_params ≡ ok tt

  positive : (n : ℕ) → (n == 0) ≡ false → 0 < n
  positive n h = ground (arith, h)

  pub resolve_check-IsResolved :
      (profile : ProbeProfileConfig) (target : TargetConfig) (check : CheckConfig)
      (r : ResolvedCheckDef)
      → resolve_check o revision_of profile target check ≡ ok r
      → IsResolved profile target check r
  unfolding resolve_check
  resolve_check-IsResolved profile target check r h =
      let path = check_path target check in
      let (kind, h1) =
        ok-then (refuse_kind o revision_of path (profile_kind profile) check.kind) _ r h in
      let (interval, i, h2) =
        ok-bind
          (duration_or check.interval (path ++ codes ".interval") (interval_str profile)
            (codes "profiles." ++ profile_id profile ++ codes ".interval"))
          _ r h1 in
      let (timeout, t, h3) =
        ok-bind
          (duration_or check.timeout (path ++ codes ".timeout") (timeout_str profile)
            (codes "profiles." ++ profile_id profile ++ codes ".timeout"))
          _ r h2 in
      let ((u, zi), h4) =
        ok-then (refuse_if (interval == 0) (path ++ codes ".interval") must_be_positive) _ r h3 in
      let ((v, zt), h5) =
        ok-then (refuse_if (timeout == 0) (path ++ codes ".timeout") must_be_positive) _ r h4 in
      let (params, p, h6) = ok-bind (resolve_params o path check profile) _ r h5 in
      let ((w, valid), h7) = ok-then (validate_params o path params) _ r h6 in
      let same = ok-injective _ r h7 in
      record {
        own_id = sym (ap (λ x. x.check_id) same);
        of_target = sym (ap (λ x. x.target_id) same);
        at_address = sym (ap (λ x. x.target_address) same);
        of_profile = sym (ap (λ x. x.profile_id) same);
        of_kind = sym (ap (λ x. x.probe_kind) same);
        interval_positive =
            omega (arith, positive interval (ok-refuse_if _ _ _ u zi), ap (λ x. x.interval) same);
        timeout_positive =
            omega (arith, positive timeout (ok-refuse_if _ _ _ v zt), ap (λ x. x.timeout) same);
        params_resolved = p ∙ ap (λ x. ok x.probe_params) same;
        params_valid =
            ap (λ x. validate_params o (check_path target check) x.probe_params) (sym same) ∙ valid;
      }

  -- The checks that are to be resolved: the enabled ones of the enabled targets.
  abbrev pub enabled_of : TargetConfig → List CheckConfig → List (TargetConfig × CheckConfig)
  enabled_of target [] = []
  enabled_of target (c ∷ cs) =
      let rest = enabled_of target cs in if c.enabled then (target, c) ∷ rest else rest

  abbrev pub enabled_checks : List TargetConfig → List (TargetConfig × CheckConfig)
  enabled_checks [] = []
  enabled_checks (target ∷ targets) =
      let rest = enabled_checks targets in
      if target.enabled then enabled_of target target.checks ++ rest else rest

  -- Of two lists, the first has for each entry of the second one that it is resolved from, by the
  -- profile that it names, in the same order.
  abbrev pub EachResolved :
      List ProbeProfileConfig → List (TargetConfig × CheckConfig) → List ResolvedCheckDef → Type 0
  EachResolved profiles [] [] = Unit
  EachResolved profiles [] (r ∷ rs) = ⊥
  EachResolved profiles (p ∷ ps) [] = ⊥
  EachResolved profiles ((target, check) ∷ ps) (r ∷ rs) =
      ((profile : ProbeProfileConfig) × (find_profile o revision_of check.profile profiles
          ≡ some profile)
        × IsResolved profile target check r)
      × EachResolved profiles ps rs

  EachResolved-append :
      (profiles : List ProbeProfileConfig) (ps qs : List (TargetConfig × CheckConfig))
      (rs ss : List ResolvedCheckDef)
      → EachResolved profiles ps rs
      → EachResolved profiles qs ss
      → EachResolved profiles (ps ++ qs) (rs ++ ss)
  EachResolved-append profiles [] qs [] ss a b = b
  EachResolved-append profiles [] qs (r ∷ rs) ss a b = absurd a
  EachResolved-append profiles (p ∷ ps) qs [] ss a b = absurd a
  EachResolved-append profiles (p ∷ ps) qs (r ∷ rs) ss a b =
      (a.0, EachResolved-append profiles ps qs rs ss a.1 b)

  -- The check of an entry, behind the look-up of its profile.
  abbrev Entry : List ProbeProfileConfig → TargetConfig → CheckConfig → ResolvedCheckDef → Type 0
  Entry profiles target check r =
      (profile : ProbeProfileConfig) × (find_profile o revision_of check.profile profiles
        ≡ some profile)
      × IsResolved profile target check r

  resolve_one-Entry :
      (profiles : List ProbeProfileConfig) (target : TargetConfig) (check : CheckConfig)
      (r : ResolvedCheckDef)
      → resolve_one o revision_of profiles target check ≡ ok r
      → Entry profiles target check r
  unfolding resolve_one
  resolve_one-Entry profiles target check r h =
      let found = find_profile o revision_of check.profile profiles in
      let path = check_path target check ++ codes ".profile" in
      let message = codes "references unknown profile: " ++ check.profile in
      let (profile, p, h1) = ok-bind (or_refuse found path message) _ r h in
      (
        profile,
        ok-or_refuse found path message profile p,
        resolve_check-IsResolved profile target check r h1,
      )

  checks_step :
      (b : Bool) (profiles : List ProbeProfileConfig) (target : TargetConfig) (c : CheckConfig)
      (ps : List (TargetConfig × CheckConfig)) (m : Result ResolvedCheckDef)
      (rest : Result (List ResolvedCheckDef)) (rs : List ResolvedCheckDef)
      → ((r : ResolvedCheckDef) → m ≡ ok r → Entry profiles target c r)
      → ((ss : List ResolvedCheckDef) → rest ≡ ok ss → EachResolved profiles ps ss)
      → (if b then (m >>= λ r. rest >>= λ ss. ok (r ∷ ss)) else rest) ≡ ok rs
      → EachResolved profiles (if b then (target, c) ∷ ps else ps) rs
  checks_step false profiles target c ps m rest rs one all h = all rs h
  checks_step true profiles target c ps m rest rs one all h =
      let (r, e, h1) = ok-bind m _ rs h in
      let (ss, e', h2) = ok-bind rest _ rs h1 in
      rw (sym (ok-injective (r ∷ ss) rs h2)) (one r e, all ss e')

  resolve_checks-EachResolved :
      (profiles : List ProbeProfileConfig) (target : TargetConfig) (cs : List CheckConfig)
      (rs : List ResolvedCheckDef)
      → resolve_checks o revision_of profiles target cs ≡ ok rs
      → EachResolved profiles (enabled_of target cs) rs
  unfolding resolve_checks
  resolve_checks-EachResolved profiles target [] rs h = rw (sym (ok-injective [] rs h)) tt
  resolve_checks-EachResolved profiles target (c ∷ cs) rs h =
      checks_step c.enabled profiles target c (enabled_of target cs)
        (resolve_one o revision_of profiles target c)
        (resolve_checks o revision_of profiles target cs) rs (resolve_one-Entry profiles target c)
        (resolve_checks-EachResolved profiles target cs) h

  targets_step :
      (b : Bool) (profiles : List ProbeProfileConfig) (qs ps : List (TargetConfig × CheckConfig))
      (m rest : Result (List ResolvedCheckDef)) (rs : List ResolvedCheckDef)
      → ((ss : List ResolvedCheckDef) → m ≡ ok ss → EachResolved profiles qs ss)
      → ((ss : List ResolvedCheckDef) → rest ≡ ok ss → EachResolved profiles ps ss)
      → (if b then (m >>= λ ss. rest >>= λ more. ok (ss ++ more)) else rest) ≡ ok rs
      → EachResolved profiles (if b then qs ++ ps else ps) rs
  targets_step false profiles qs ps m rest rs one all h = all rs h
  targets_step true profiles qs ps m rest rs one all h =
      let (ss, e, h1) = ok-bind m _ rs h in
      let (more, e', h2) = ok-bind rest _ rs h1 in
      rw (sym (ok-injective (ss ++ more) rs h2))
        (EachResolved-append profiles qs ps ss more (one ss e) (all more e'))

  resolve_targets-EachResolved :
      (profiles : List ProbeProfileConfig) (targets : List TargetConfig)
      (rs : List ResolvedCheckDef)
      → resolve_targets o revision_of profiles targets ≡ ok rs
      → EachResolved profiles (enabled_checks targets) rs
  unfolding resolve_targets
  resolve_targets-EachResolved profiles [] rs h = rw (sym (ok-injective [] rs h)) tt
  resolve_targets-EachResolved profiles (target ∷ targets) rs h =
      targets_step target.enabled profiles (enabled_of target target.checks)
        (enabled_checks targets) (resolve_checks o revision_of profiles target target.checks)
        (resolve_targets o revision_of profiles targets) rs
        (resolve_checks-EachResolved profiles target target.checks)
        (resolve_targets-EachResolved profiles targets) h

  -- A configuration that resolves gives one check for each enabled check of each enabled target, in
  -- their order: with its ids and address, the kind of the profile it names, an interval and a
  -- timeout above zero, and parameters resolved from the check and the profile that are valid.
  pub resolve-EachResolved :
      (f : Float) (c : KemuriConfig) (rs : List ResolvedCheckDef)
      → resolve o revision_of f c ≡ ok rs
      → EachResolved c.profiles (enabled_checks c.targets) rs
  unfolding resolve
  resolve-EachResolved f c rs h =
      let (valid, h1) = ok-then (validate_with_warnings f c) _ rs h in
      resolve_targets-EachResolved c.profiles c.targets rs h1
