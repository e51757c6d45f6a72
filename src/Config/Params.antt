-- ===== src/Config/Params.antt =====
-- The probe parameters of a check in crates/kemuri-config/src/lib.rs: their resolution from a check
-- and its profile in `resolve_check`, and `validate_resolved_probe_params`.
use kemuri.Base.{ℕ, Bool, true, false, not, ◌&&◌, ◌||◌, if◌then◌else◌, ltb, ◌==◌}
use kemuri.Base.{Option, none, some, unwrap_or, is_some, List, [], ◌∷◌, ◌++◌}
use kemuri.Base.Text.{Text, codes, text_eq}
use kemuri.Config.Error.{Result, ok, ◌>>=◌, ◌>>◌, refuse_if, or_refuse}
use kemuri.Config.Types.{SecretRef, HttpStatusExpectation, TcpTlsConfig, ProbeProfileConfig}
use kemuri.Config.Types.{IcmpProfileParams, HttpProfileParams, TcpProfileParams, DnsProfileParams}
use kemuri.Config.Types.{icmp_profile, http_profile, tcp_profile, dns_profile}
use kemuri.Config.Types.{CheckConfig}
use kemuri.Config.Types.{ResolvedProbeParams, icmp_params, http_params, tcp_params, dns_params}
use kemuri.Config.Values.{Outside, one_of, must_be_positive, resolve_status, resolve_secret}
use kemuri.Config.Validate.{check_some}

-- `or` of two options.
abbrev pub or_else : {A : Type 0} → Option A → Option A → Option A
or_else none b = b
or_else (some a) b = some a

-- `extend` of a map by a header.
abbrev pub set_header : Text × Text → List (Text × Text) → List (Text × Text)
set_header h [] = h ∷ []
set_header h (b ∷ bs) = let rest = set_header h bs in if text_eq b.0 h.0 then h ∷ bs else b ∷ rest

abbrev pub extend_headers : List (Text × Text) → List (Text × Text) → List (Text × Text)
extend_headers base [] = base
extend_headers base (h ∷ hs) = extend_headers (set_header h base) hs

abbrev pub merge_headers :
    Option (List (Text × Text)) → Option (List (Text × Text)) → List (Text × Text)
merge_headers (some own) (some base) = extend_headers base own
merge_headers (some own) none = own
merge_headers none (some base) = base
merge_headers none none = []

abbrev pub resolve_expectation : Option HttpStatusExpectation → Result (Option ℕ × Option (ℕ × ℕ))
resolve_expectation none = ok (none, none)
resolve_expectation (some e) = resolve_status e

module _ (o : Outside) where
  abbrev pub resolve_body : Option SecretRef → Result (Option Text)
  resolve_body none = ok none
  resolve_body (some secret) = do text ← resolve_secret o secret; ok (some text)

  unfoldable pub resolve_icmp : Text → CheckConfig → IcmpProfileParams → Result ResolvedProbeParams
  resolve_icmp path check p =
      let count = unwrap_or check.count p.count in
      refuse_if (count == 0) (path ++ codes ".count") must_be_positive
      >> ok (
          icmp_params (record {
            count = count;
            address_family =
                unwrap_or (or_else check.address_family p.address_family) (codes "auto");
            payload_size = unwrap_or (or_else check.payload_size p.payload_size) 56;
            source_address = or_else check.source_address p.source_address;
          }))

  unfoldable pub resolve_http : Text → CheckConfig → HttpProfileParams → Result ResolvedProbeParams
  resolve_http path check p = do
    let url = unwrap_or check.url p.url
    let (scheme, parsed) = o.parse_url url
    refuse_if (not parsed) (path ++ codes ".url") scheme
    refuse_if (not (one_of (codes "http" ∷ codes "https" ∷ []) scheme)) (path ++ codes ".url")
        (codes "URL scheme must be http or https")
    let method = or_else check.method p.method
    check_some method (λ m.
        refuse_if (not (o.is_method m)) (path ++ codes ".method") (codes "invalid HTTP method"))
    statuses ← resolve_expectation (or_else check.expected_status p.expected_status)
    body ← resolve_body (or_else check.body p.body)
    ok (
        http_params (record {
          url = url;
          method = method;
          headers = merge_headers check.headers p.headers;
          expected_status = statuses.0;
          expected_status_range = statuses.1;
          body = body;
          follow_redirects = unwrap_or (or_else check.follow_redirects p.follow_redirects) true;
          max_redirect_count = unwrap_or (or_else check.max_redirect_count p.max_redirect_count) 10;
          connection_mode =
              unwrap_or (or_else check.connection_mode p.connection_mode) (codes "pooled");
          measure_until = unwrap_or (or_else check.measure_until p.measure_until) (codes "headers");
          user_agent = or_else check.user_agent p.user_agent;
          tls_validate = unwrap_or (or_else check.tls_validate p.tls_validate) true;
          root_certificates = unwrap_or (or_else check.root_certificates p.root_certificates) [];
        }))

  unfoldable pub resolve_tcp : Text → CheckConfig → TcpProfileParams → Result ResolvedProbeParams
  resolve_tcp path check p =
      let port = unwrap_or check.port p.port in
      refuse_if (port == 0) (path ++ codes ".port") (codes "must be between 1 and 65535")
      >> ok (
          tcp_params (record {
            host = unwrap_or check.host p.host;
            port = port;
            address_family =
                unwrap_or (or_else check.address_family p.address_family) (codes "auto");
            source_address = or_else check.source_address p.source_address;
            tls = or_else check.tls p.tls;
          }))

  unfoldable pub resolve_dns : CheckConfig → DnsProfileParams → Result ResolvedProbeParams
  resolve_dns check p = ok (
      dns_params (record {
        domain = unwrap_or check.domain p.domain;
        record_type = or_else check.record_type p.record_type;
        resolver = or_else check.resolver p.resolver;
        protocol = unwrap_or (or_else check.protocol p.protocol) (codes "udp");
        expected_rcode =
            unwrap_or (or_else check.expected_rcode p.expected_rcode) (codes "noerror");
        require_answer = unwrap_or (or_else check.require_answer p.require_answer) false;
      }))

  unfoldable pub resolve_params :
      Text → CheckConfig → ProbeProfileConfig → Result ResolvedProbeParams
  resolve_params path check (icmp_profile p) = resolve_icmp path check p
  resolve_params path check (http_profile p) = resolve_http path check p
  resolve_params path check (tcp_profile p) = resolve_tcp path check p
  resolve_params path check (dns_profile p) = resolve_dns check p

  -- The closures of `validate_resolved_probe_params`.
  abbrev pub validate_source : Text → Text → Text → Result (Unit {0})
  validate_source path family source = do
    is_ipv4 ←
        or_refuse (o.parse_ip source) (path ++ codes ".source_address")
          (codes "must be an IP address")
    refuse_if
        ((text_eq family (codes "ipv4") && not is_ipv4)
          || (text_eq family (codes "ipv6") && is_ipv4))
        (path ++ codes ".source_address")
        (codes "source address is incompatible with address_family")

  abbrev pub validate_family : Text → Text → Option Text → Result (Unit {0})
  validate_family path family source =
      refuse_if (not (one_of (codes "auto" ∷ codes "ipv4" ∷ codes "ipv6" ∷ []) family))
        (path ++ codes ".address_family") (codes "must be auto, ipv4, or ipv6")
      >> check_some source (validate_source path family)

  -- The certificates of a file; `found` is whether there was one.
  abbrev pub validate_parsed : Text → Text → Bool → List (Option Text) → Result (Unit {0})
  validate_parsed path file found [] =
      refuse_if (not found) (path ++ codes ".root_certificates")
        (file ++ codes " contains no PEM certificates")
  validate_parsed path file found (none ∷ parsed) = validate_parsed path file true parsed
  validate_parsed path file found (some error ∷ parsed) =
      refuse_if true (path ++ codes ".root_certificates")
        (codes "invalid PEM certificate " ++ file ++ codes ": " ++ error)

  abbrev pub validate_certificates : Text → List Text → Result (Unit {0})
  validate_certificates path [] = ok tt
  validate_certificates path (file ∷ files) = do
    let (certificates, error) = o.read_pem file
    parsed ←
        or_refuse certificates (path ++ codes ".root_certificates")
          (codes "cannot read " ++ file ++ codes ": " ++ error)
    validate_parsed path file false parsed
    validate_certificates path files

  abbrev pub tls_certificates : Option TcpTlsConfig → List Text
  tls_certificates none = []
  tls_certificates (some tls) = unwrap_or tls.root_certificates []

  abbrev pub rcodes : List Text
  rcodes =
      codes "noerror"
      ∷ codes "formerr"
      ∷ codes "servfail"
      ∷ codes "nxdomain"
      ∷ codes "notimp"
      ∷ codes "refused"
      ∷ []

  unfoldable pub validate_params : Text → ResolvedProbeParams → Result (Unit {0})
  validate_params path (icmp_params p) =
      validate_family path p.address_family p.source_address
      >> refuse_if (ltb 65_507 p.payload_size) (path ++ codes ".payload_size")
          (codes "must not exceed 65507 bytes")
  validate_params path (http_params p) =
      refuse_if
        (not (one_of (codes "pooled" ∷ codes "per_round" ∷ codes "fresh" ∷ []) p.connection_mode))
        (path ++ codes ".connection_mode") (codes "must be pooled, per_round, or fresh")
      >> refuse_if (not (one_of (codes "headers" ∷ codes "body" ∷ []) p.measure_until))
          (path ++ codes ".measure_until") (codes "must be headers or body")
      >> validate_certificates path p.root_certificates
  validate_params path (tcp_params p) =
      validate_family path p.address_family p.source_address
      >> validate_certificates path (tls_certificates p.tls)
  validate_params path (dns_params p) =
      refuse_if (not (one_of (codes "udp" ∷ codes "tcp" ∷ []) p.protocol))
        (path ++ codes ".protocol") (codes "must be udp or tcp")
      >> refuse_if (not (one_of rcodes p.expected_rcode)) (path ++ codes ".expected_rcode")
          (codes "unsupported DNS response code")
      >> check_some p.resolver (λ server.
        refuse_if (not (is_some (o.parse_ip server)) && not (o.is_socket_addr server))
          (path ++ codes ".server") (codes "must be an IP address with an optional port"))
