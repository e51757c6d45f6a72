-- ===== src/Config/Resolve.antt =====
-- `resolve` and `resolve_check` of crates/kemuri-config/src/lib.rs. `revision_of` is the hash of the
-- identifiers, times and parameters of a check.
pub mod Laws
use kemuri.Base.{ℕ, Bool, true, false, not, ◌&&◌, ◌||◌, if◌then◌else◌, ltb, ◌==◌}
use kemuri.Base.{Option, none, some, unwrap_or, is_some, List, [], ◌∷◌, ◌++◌, map, find}
use kemuri.Base.Text.{Text, codes, text_eq}
use kemuri.Base.Float.{Float}
use kemuri.Core.Kinds.{ProbeKind, probe_kind_eq}
use kemuri.Config.Error.{Result, ok, err, ◌>>=◌, ◌>>◌, refuse_if, or_refuse, duration_at}
use kemuri.Config.Types.{SecretRef, HttpStatusExpectation, TcpTlsConfig, ProbeProfileConfig}
use kemuri.Config.Types.{IcmpProfileParams, HttpProfileParams, TcpProfileParams, DnsProfileParams}
use kemuri.Config.Types.{icmp_profile, http_profile, tcp_profile, dns_profile}
use kemuri.Config.Types.{CheckConfig, TargetConfig, KemuriConfig, ResolvedCheckDef}
use kemuri.Config.Types.{ResolvedProbeParams, icmp_params, http_params, tcp_params, dns_params}
use kemuri.Config.Types.{
  ResolvedIcmpParams, ResolvedHttpParams, ResolvedTcpParams, ResolvedDnsParams,
}
use kemuri.Config.Values.{Outside, one_of, must_be_positive, resolve_status, resolve_secret}
use kemuri.Config.Params.{resolve_params, validate_params}
use kemuri.Config.Validate.{profile_id, profile_kind, interval_str, timeout_str, check_path}
use kemuri.Config.Validate.{check_some, validate_with_warnings}

-- The text of a kind in the message, by `Debug`.
abbrev pub kind_debug : ProbeKind → Text
kind_debug ProbeKind.icmp = codes "Icmp"
kind_debug ProbeKind.http = codes "Http"
kind_debug ProbeKind.tcp = codes "Tcp"
kind_debug ProbeKind.dns = codes "Dns"

-- The check's own text, or that of the profile; each with its path in errors.
abbrev pub duration_or : Option Text → Text → Text → Text → Result ℕ
duration_or none own_path text path = duration_at text path
duration_or (some s) own_path text path = duration_at s own_path

module _ (o : Outside) (revision_of : Text → Text → ℕ → ℕ → ResolvedProbeParams → Text) where
  abbrev pub refuse_kind : Text → ProbeKind → Option ProbeKind → Result (Unit {0})
  refuse_kind path own none = ok tt
  refuse_kind path own (some kind) =
      refuse_if (not (probe_kind_eq kind own)) (path ++ codes ".kind") (
        codes "check kind "
        ++ kind_debug kind
        ++ codes " does not match profile kind "
        ++ kind_debug own)

  -- `ProbeProfileConfig::resolve_check`
  unfoldable pub resolve_check :
      ProbeProfileConfig → TargetConfig → CheckConfig → Result ResolvedCheckDef
  resolve_check profile target check = do
    let path = check_path target check
    refuse_kind path (profile_kind profile) check.kind
    interval ←
        duration_or check.interval (path ++ codes ".interval") (interval_str profile)
          (codes "profiles." ++ profile_id profile ++ codes ".interval")
    timeout ←
        duration_or check.timeout (path ++ codes ".timeout") (timeout_str profile)
          (codes "profiles." ++ profile_id profile ++ codes ".timeout")
    refuse_if (interval == 0) (path ++ codes ".interval") must_be_positive
    refuse_if (timeout == 0) (path ++ codes ".timeout") must_be_positive
    params ← resolve_params o path check profile
    validate_params o path params
    ok (record {
      check_id = check.id;
      target_id = target.id;
      target_address = target.address;
      profile_id = check.profile;
      probe_kind = profile_kind profile;
      interval = interval;
      timeout = timeout;
      revision_id = revision_of check.id (profile_id profile) interval timeout params;
      probe_params = params;
    })

  -- `profile_map.get`; the ids are distinct, as `validate` has found.
  abbrev pub find_profile : Text → List ProbeProfileConfig → Option ProbeProfileConfig
  find_profile id profiles = find (λ p. text_eq (profile_id p) id) profiles

  unfoldable pub resolve_one :
      List ProbeProfileConfig → TargetConfig → CheckConfig → Result ResolvedCheckDef
  resolve_one profiles target check = do
    profile ←
        or_refuse (find_profile check.profile profiles)
          (check_path target check ++ codes ".profile")
          (codes "references unknown profile: " ++ check.profile)
    resolve_check profile target check

  -- The loops over the checks of a target and over the targets.
  unfoldable pub resolve_checks :
      List ProbeProfileConfig → TargetConfig → List CheckConfig → Result (List ResolvedCheckDef)
  resolve_checks profiles target [] = ok []
  resolve_checks profiles target (c ∷ cs) =
      let rest = resolve_checks profiles target cs in
      if c.enabled
      then (resolve_one profiles target c >>= λ r. rest >>= λ rs. ok (r ∷ rs))
      else rest

  unfoldable pub resolve_targets :
      List ProbeProfileConfig → List TargetConfig → Result (List ResolvedCheckDef)
  resolve_targets profiles [] = ok []
  resolve_targets profiles (target ∷ targets) =
      let rest = resolve_targets profiles targets in
      if target.enabled
      then (resolve_checks profiles target target.checks >>= λ rs. rest >>= λ more. ok (rs ++ more))
      else rest

  -- `resolve`, without the generation's hash.
  unfoldable pub resolve : Float → KemuriConfig → Result (List ResolvedCheckDef)
  resolve f c = do validate_with_warnings f c; resolve_targets c.profiles c.targets
