-- ===== src/Config/Equal/Laws.antt =====
-- What the equalities of crates/kemuri-config/src/lib.rs say where they hold.
use kemuri.Base.{ℕ, zero, suc, get_elem?, ◌≡◌, refl, ap, arith, Bool, true, false, all, All}
use kemuri.Base.{Option, none, some, Option-cases, inl, inr, List, [], ◌∷◌, length}
use kemuri.Base.Text.{Text, text_eq, text_eq_iff}
use kemuri.Core.Kinds.{icmp, http, tcp, dns, probe_kind_eq}
use kemuri.Config.Types.{literal, from_env, from_file, CheckConfig}
use kemuri.Config.Types.{status, range}
use kemuri.Config.Equal.{bool_eq, nat_eq, option_eq, list_eq, get, has_entry, map_eq, secret_eq}
use kemuri.Config.Equal.{status_eq, holds, tls_tests, tls_eq, check_tests, check_eq}

-- A test that holds of equal values only.
abbrev pub Sound : {A : Type 0} → (A → A → Bool) → Type 0
Sound {A} eq = (a b : A) → eq a b ≡ true → a ≡ b

pub text_eq-Sound : Sound text_eq
text_eq-Sound s t h = (text_eq_iff s t).0 h

pub bool_eq-Sound : Sound bool_eq
bool_eq-Sound true true h = refl
bool_eq-Sound true false h = ground (arith, h)
bool_eq-Sound false true h = ground (arith, h)
bool_eq-Sound false false h = refl

nat_eq-Sound : Sound nat_eq
nat_eq-Sound m n h = ground (arith, h)

probe_kind_eq-Sound : Sound probe_kind_eq
probe_kind_eq-Sound icmp icmp h = refl
probe_kind_eq-Sound http http h = refl
probe_kind_eq-Sound tcp tcp h = refl
probe_kind_eq-Sound dns dns h = refl
probe_kind_eq-Sound _ _ h = ground (arith, h)

module _ {A : Type 0} {eq : A → A → Bool} (sound : Sound eq) where
  pub option_eq-Sound : Sound (option_eq eq)
  option_eq-Sound none none h = refl
  option_eq-Sound none (some b) h = ground (arith, h)
  option_eq-Sound (some a) none h = ground (arith, h)
  option_eq-Sound (some a) (some b) h = ap (λ x. some x) (sound a b h)

  list_eq-Sound : Sound (list_eq eq)
  list_eq-Sound [] [] h = refl
  list_eq-Sound [] (b ∷ bs) h = ground (arith, h)
  list_eq-Sound (a ∷ tl) [] h = ground (arith, h)
  list_eq-Sound (a ∷ tl) (b ∷ bs) h =
      let head = sound a b (ground (arith, h)) in
      let tail = list_eq-Sound tl bs (ground (arith, h)) in λ i. head i ∷ tail i

-- Maps with as many entries, where every entry of one is in the other.
abbrev pub SameMap : List (Text × Text) → List (Text × Text) → Type 0
SameMap m n = (length m ≡ length n) × All (λ e. get e.0 n ≡ some e.1) m

abbrev pub SameEntries : Option (List (Text × Text)) → Option (List (Text × Text)) → Type 0
SameEntries none none = Unit {0}
SameEntries none (some n) = ⊥
SameEntries (some m) none = ⊥
SameEntries (some m) (some n) = SameMap m n

has_entry-get : (n : List (Text × Text)) (k v : Text) → has_entry n (k, v) ≡ true → get k n ≡ some v
has_entry-get n k v h = elim (Option-cases (get k n)) [
  | inl e ↦ ground (arith, h, e)
  | inr (w, e) ↦ ground (arith, h, e, text_eq-Sound v w)
]

has_entries :
    (n m : List (Text × Text)) → all (has_entry n) m ≡ true → All (λ e. get e.0 n ≡ some e.1) m
has_entries n [] h = tt
has_entries n ((k, v) ∷ m) h =
    (has_entry-get n k v (ground (arith, h)), has_entries n m (ground (arith, h)))

pub option_eq-SameEntries :
    (m n : Option (List (Text × Text))) → option_eq map_eq m n ≡ true → SameEntries m n
unfolding map_eq
option_eq-SameEntries none none h = tt
option_eq-SameEntries none (some n) h = ground (arith, h)
option_eq-SameEntries (some m) none h = ground (arith, h)
option_eq-SameEntries (some m) (some n) h = (ground (arith, h), has_entries n m (ground (arith, h)))

secret_eq-Sound : Sound secret_eq
secret_eq-Sound (literal s) (literal t) h = ap (λ u. literal u) (text_eq-Sound s t h)
secret_eq-Sound (from_env s) (from_env t) h = ap (λ u. from_env u) (text_eq-Sound s t h)
secret_eq-Sound (from_file s) (from_file t) h = ap (λ u. from_file u) (text_eq-Sound s t h)
secret_eq-Sound _ _ h = ground (arith, h)

status_eq-Sound : Sound status_eq
status_eq-Sound (status m) (status n) h = ap (λ k. status k) (nat_eq-Sound m n h)
status_eq-Sound (range s) (range t) h = ap (λ u. range u) (text_eq-Sound s t h)
status_eq-Sound _ _ h = ground (arith, h)

-- One test of a list that holds.
all-get_elem? :
    {b : Bool} (bs : List Bool) (i : ℕ) → all holds bs ≡ true → get_elem? bs i ≡ some b → b ≡ true
all-get_elem? [] i h e = ground (arith, e)
all-get_elem? (c ∷ bs) zero h e = ground (arith, h, e)
all-get_elem? (c ∷ bs) (suc i) h e = all-get_elem? bs i (ground (arith, h)) e

tls_eq-Sound : Sound tls_eq
unfolding tls_eq
tls_eq-Sound a b h =
    let enabled = bool_eq-Sound a.enabled b.enabled (all-get_elem? (tls_tests a b) 0 h refl) in
    let name =
      option_eq-Sound text_eq-Sound a.server_name b.server_name
        (all-get_elem? (tls_tests a b) 1 h refl) in
    let validate =
      option_eq-Sound bool_eq-Sound a.tls_validate b.tls_validate
        (all-get_elem? (tls_tests a b) 2 h refl) in
    let roots =
      option_eq-Sound (list_eq-Sound text_eq-Sound) a.root_certificates b.root_certificates
        (all-get_elem? (tls_tests a b) 3 h refl) in
    λ i. record {
      enabled = enabled i;
      server_name = name i;
      tls_validate = validate i;
      root_certificates = roots i;
    }

-- Two checks with the same fields, and headers with the same entries.
pub record SameCheck (a b : CheckConfig) : Type 0 where
  pub same_id : a.id ≡ b.id
  pub same_profile : a.profile ≡ b.profile
  pub same_enabled : a.enabled ≡ b.enabled
  pub same_kind : a.kind ≡ b.kind
  pub same_interval : a.interval ≡ b.interval
  pub same_timeout : a.timeout ≡ b.timeout
  pub same_url : a.url ≡ b.url
  pub same_method : a.method ≡ b.method
  pub same_headers : SameEntries a.headers b.headers
  pub same_expected_status : a.expected_status ≡ b.expected_status
  pub same_body : a.body ≡ b.body
  pub same_host : a.host ≡ b.host
  pub same_port : a.port ≡ b.port
  pub same_domain : a.domain ≡ b.domain
  pub same_record_type : a.record_type ≡ b.record_type
  pub same_resolver : a.resolver ≡ b.resolver
  pub same_count : a.count ≡ b.count
  pub same_address_family : a.address_family ≡ b.address_family
  pub same_payload_size : a.payload_size ≡ b.payload_size
  pub same_source_address : a.source_address ≡ b.source_address
  pub same_follow_redirects : a.follow_redirects ≡ b.follow_redirects
  pub same_max_redirect_count : a.max_redirect_count ≡ b.max_redirect_count
  pub same_connection_mode : a.connection_mode ≡ b.connection_mode
  pub same_measure_until : a.measure_until ≡ b.measure_until
  pub same_user_agent : a.user_agent ≡ b.user_agent
  pub same_tls_validate : a.tls_validate ≡ b.tls_validate
  pub same_root_certificates : a.root_certificates ≡ b.root_certificates
  pub same_tls : a.tls ≡ b.tls
  pub same_protocol : a.protocol ≡ b.protocol
  pub same_expected_rcode : a.expected_rcode ≡ b.expected_rcode
  pub same_require_answer : a.require_answer ≡ b.require_answer

module _ (a b : CheckConfig) (h : check_eq a b ≡ true) where
  field_holds : {c : Bool} (i : ℕ) → get_elem? (check_tests a b) i ≡ some c → c ≡ true
  unfolding check_eq
  field_holds i e = all-get_elem? (check_tests a b) i h e

  pub check_eq-SameCheck : SameCheck a b
  check_eq-SameCheck = record {
    same_id = text_eq-Sound a.id b.id (field_holds 0 refl);
    same_profile = text_eq-Sound a.profile b.profile (field_holds 1 refl);
    same_enabled = bool_eq-Sound a.enabled b.enabled (field_holds 2 refl);
    same_kind = option_eq-Sound probe_kind_eq-Sound a.kind b.kind (field_holds 3 refl);
    same_interval = option_eq-Sound text_eq-Sound a.interval b.interval (field_holds 4 refl);
    same_timeout = option_eq-Sound text_eq-Sound a.timeout b.timeout (field_holds 5 refl);
    same_url = option_eq-Sound text_eq-Sound a.url b.url (field_holds 6 refl);
    same_method = option_eq-Sound text_eq-Sound a.method b.method (field_holds 7 refl);
    same_headers = option_eq-SameEntries a.headers b.headers (field_holds 8 refl);
    same_expected_status =
        option_eq-Sound status_eq-Sound a.expected_status b.expected_status (field_holds 9 refl);
    same_body = option_eq-Sound secret_eq-Sound a.body b.body (field_holds 10 refl);
    same_host = option_eq-Sound text_eq-Sound a.host b.host (field_holds 11 refl);
    same_port = option_eq-Sound nat_eq-Sound a.port b.port (field_holds 12 refl);
    same_domain = option_eq-Sound text_eq-Sound a.domain b.domain (field_holds 13 refl);
    same_record_type =
        option_eq-Sound text_eq-Sound a.record_type b.record_type (field_holds 14 refl);
    same_resolver = option_eq-Sound text_eq-Sound a.resolver b.resolver (field_holds 15 refl);
    same_count = option_eq-Sound nat_eq-Sound a.count b.count (field_holds 16 refl);
    same_address_family =
        option_eq-Sound text_eq-Sound a.address_family b.address_family (field_holds 17 refl);
    same_payload_size =
        option_eq-Sound nat_eq-Sound a.payload_size b.payload_size (field_holds 18 refl);
    same_source_address =
        option_eq-Sound text_eq-Sound a.source_address b.source_address (field_holds 19 refl);
    same_follow_redirects =
        option_eq-Sound bool_eq-Sound a.follow_redirects b.follow_redirects (field_holds 20 refl);
    same_max_redirect_count =
        option_eq-Sound nat_eq-Sound a.max_redirect_count b.max_redirect_count
          (field_holds 21 refl);
    same_connection_mode =
        option_eq-Sound text_eq-Sound a.connection_mode b.connection_mode (field_holds 22 refl);
    same_measure_until =
        option_eq-Sound text_eq-Sound a.measure_until b.measure_until (field_holds 23 refl);
    same_user_agent = option_eq-Sound text_eq-Sound a.user_agent b.user_agent (field_holds 24 refl);
    same_tls_validate =
        option_eq-Sound bool_eq-Sound a.tls_validate b.tls_validate (field_holds 25 refl);
    same_root_certificates =
        option_eq-Sound (list_eq-Sound text_eq-Sound) a.root_certificates b.root_certificates
          (field_holds 26 refl);
    same_tls = option_eq-Sound tls_eq-Sound a.tls b.tls (field_holds 27 refl);
    same_protocol = option_eq-Sound text_eq-Sound a.protocol b.protocol (field_holds 28 refl);
    same_expected_rcode =
        option_eq-Sound text_eq-Sound a.expected_rcode b.expected_rcode (field_holds 29 refl);
    same_require_answer =
        option_eq-Sound bool_eq-Sound a.require_answer b.require_answer (field_holds 30 refl);
  }
