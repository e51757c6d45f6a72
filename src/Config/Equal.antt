-- ===== src/Config/Equal.antt =====
-- The derived `PartialEq` of the records of crates/kemuri-config/src/lib.rs, and that of std's
-- HashMap: as many entries, and each entry of one in the other.
pub mod Laws
use kemuri.Base.{ℕ, if◌then◌else◌, Bool, true, false, ◌&&◌, not, ◌==◌, all}
use kemuri.Base.{Option, none, some, map_or, List, [], ◌∷◌, length, find}
use kemuri.Base.Text.{Text, text_eq}
use kemuri.Core.Kinds.{probe_kind_eq}
use kemuri.Config.Types.{SecretRef, literal, from_env, from_file, TcpTlsConfig, CheckConfig}
use kemuri.Config.Types.{HttpStatusExpectation, status, range}

abbrev pub bool_eq : Bool → Bool → Bool
bool_eq true b = b
bool_eq false b = not b

abbrev pub nat_eq : ℕ → ℕ → Bool
nat_eq m n = m == n

module _ {A : Type 0} where
  abbrev pub option_eq : (A → A → Bool) → Option A → Option A → Bool
  option_eq eq none none = true
  option_eq eq none (some b) = false
  option_eq eq (some a) none = false
  option_eq eq (some a) (some b) = eq a b

  abbrev pub list_eq : (A → A → Bool) → List A → List A → Bool
  list_eq eq [] [] = true
  list_eq eq [] (b ∷ bs) = false
  list_eq eq (a ∷ tl) [] = false
  list_eq eq (a ∷ tl) (b ∷ bs) = eq a b && list_eq eq tl bs

-- `get` of a HashMap of texts.
abbrev pub get : Text → List (Text × Text) → Option Text
get k [] = none
get k ((l, v) ∷ m) = let rest = get k m in if text_eq l k then some v else rest

abbrev pub has_entry : List (Text × Text) → Text × Text → Bool
has_entry m (k, v) = map_or (get k m) false (λ w. text_eq v w)

unfoldable pub map_eq : List (Text × Text) → List (Text × Text) → Bool
map_eq m n = length m == length n && all (has_entry n) m

abbrev pub secret_eq : SecretRef → SecretRef → Bool
secret_eq (literal s) (literal t) = text_eq s t
secret_eq (from_env s) (from_env t) = text_eq s t
secret_eq (from_file s) (from_file t) = text_eq s t
secret_eq _ _ = false

abbrev pub status_eq : HttpStatusExpectation → HttpStatusExpectation → Bool
status_eq (status m) (status n) = m == n
status_eq (range s) (range t) = text_eq s t
status_eq _ _ = false

abbrev pub holds : Bool → Bool
holds b = b

-- The tests of the fields.
abbrev pub tls_tests : TcpTlsConfig → TcpTlsConfig → List Bool
tls_tests a b =
    bool_eq a.enabled b.enabled
    ∷ option_eq text_eq a.server_name b.server_name
    ∷ option_eq bool_eq a.tls_validate b.tls_validate
    ∷ option_eq (list_eq text_eq) a.root_certificates b.root_certificates
    ∷ []

unfoldable pub tls_eq : TcpTlsConfig → TcpTlsConfig → Bool
tls_eq a b = all holds (tls_tests a b)

-- The tests of the fields.
abbrev pub check_tests : CheckConfig → CheckConfig → List Bool
check_tests a b =
    text_eq a.id b.id
    ∷ text_eq a.profile b.profile
    ∷ bool_eq a.enabled b.enabled
    ∷ option_eq probe_kind_eq a.kind b.kind
    ∷ option_eq text_eq a.interval b.interval
    ∷ option_eq text_eq a.timeout b.timeout
    ∷ option_eq text_eq a.url b.url
    ∷ option_eq text_eq a.method b.method
    ∷ option_eq map_eq a.headers b.headers
    ∷ option_eq status_eq a.expected_status b.expected_status
    ∷ option_eq secret_eq a.body b.body
    ∷ option_eq text_eq a.host b.host
    ∷ option_eq nat_eq a.port b.port
    ∷ option_eq text_eq a.domain b.domain
    ∷ option_eq text_eq a.record_type b.record_type
    ∷ option_eq text_eq a.resolver b.resolver
    ∷ option_eq nat_eq a.count b.count
    ∷ option_eq text_eq a.address_family b.address_family
    ∷ option_eq nat_eq a.payload_size b.payload_size
    ∷ option_eq text_eq a.source_address b.source_address
    ∷ option_eq bool_eq a.follow_redirects b.follow_redirects
    ∷ option_eq nat_eq a.max_redirect_count b.max_redirect_count
    ∷ option_eq text_eq a.connection_mode b.connection_mode
    ∷ option_eq text_eq a.measure_until b.measure_until
    ∷ option_eq text_eq a.user_agent b.user_agent
    ∷ option_eq bool_eq a.tls_validate b.tls_validate
    ∷ option_eq (list_eq text_eq) a.root_certificates b.root_certificates
    ∷ option_eq tls_eq a.tls b.tls
    ∷ option_eq text_eq a.protocol b.protocol
    ∷ option_eq text_eq a.expected_rcode b.expected_rcode
    ∷ option_eq bool_eq a.require_answer b.require_answer
    ∷ []

unfoldable pub check_eq : CheckConfig → CheckConfig → Bool
check_eq a b = all holds (check_tests a b)
