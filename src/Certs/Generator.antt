-- ===== src/Certs/Generator.antt =====
-- internal/webhook/util/generator/selfsigned.go and util.go: certificates that an authority of our
-- own signs.
pub mod Laws
use persistent_pod_state.Base.{
  ℕ, ◌+◌, ◌*◌, Text, codes, if◌then◌else◌, Bool, true, false, not, ◌&&◌, ◌||◌, Option, none, some,
  List, [], ◌∷◌, ◌++◌, Reply, success, failure,
}
use persistent_pod_state.Base.Strings.{is_empty}
use persistent_pod_state.Certs.Writer.{Artifacts}
use persistent_pod_state.Certs.SecretStore.{CertGenerator}

-- What is set of `x509.Certificate`. Times are in seconds.
pub record Template : Type 0 where
  pub common_name : Text
  pub dns_names : List Text
  pub ip_addresses : List Text
  pub serial_number : Text
  pub not_before : ℕ
  pub not_after : ℕ
  pub ext_key_usage : List Text

-- What is used of crypto/rsa, crypto/x509, crypto/tls, encoding/pem, net, and of client-go's cert
-- and keyutil.
pub record Pki : Type 1 where
  pub PrivateKey : Type 0
  pub Certificate : Type 0
  -- The source of random numbers, and the clock.
  pub Source : Type 0
  pub now : Source → ℕ
  -- `time.Now().AddDate(1, 0, 0)`
  pub in_a_year : Source → ℕ
  pub generate_key : Source → Reply Text PrivateKey × Source
  pub random_serial : Source → Reply Text Text × Source
  pub new_self_signed_ca : Text → PrivateKey → Source → Reply Text Certificate × Source
  pub not_before_of : Certificate → ℕ
  -- By the authority and its key; with the public key of the first one.
  pub create_certificate :
      Template → Certificate → PrivateKey → PrivateKey → Source → Reply Text Text × Source
  pub parse_certificate : Text → Reply Text Certificate
  pub raw : Certificate → Text
  pub marshal_key : PrivateKey → Text
  pub encode_pem : Text → Text → Text
  pub decode_pem : Text → Option Text
  -- A key of another kind than RSA is `none`.
  pub parse_private_key : Text → Reply Text (Option PrivateKey)
  pub parse_certs : Text → Reply Text (List Certificate)
  pub is_key_pair : Text → Text → Bool
  pub has_certs : Text → Bool
  -- For a DNS name, with the roots, at a time.
  pub verify : Text → Text → ℕ → Certificate → Bool
  -- `net.ParseIP(s).To4()`
  pub to4 : Text → Option Text

-- `cert.Config`: the names that a server's certificate is for, and its usages.
pub record Config : Type 0 where
  pub common_name : Text
  pub ips : List Text
  pub dns_names : List Text
  pub usages : List Text

-- `x509.ExtKeyUsageServerAuth`
abbrev pub server_auth : Text
server_auth = codes "ServerAuth"

-- `ServiceToCommonName`
unfoldable pub service_to_common_name : Text → Text → Text
service_to_common_name service_namespace service_name =
    service_name ++ (codes "." ++ (service_namespace ++ codes ".svc"))

abbrev pub year : ℕ
year = 365 * 24 * 60 * 60

-- `generator.SelfSignedCertGenerator`
pub record SelfSignedCertGenerator : Type 0 where
  pub ca_key : Text
  pub ca_cert : Text

module _ (P : Pki) where
  unfoldable pub verified : Text → Text → ℕ → Reply Text P.Certificate → Bool
  verified ca_cert dns_name time (failure e) = false
  verified ca_cert dns_name time (success c) = P.verify dns_name ca_cert time c

  unfoldable pub verified_block : Text → Text → ℕ → Option Text → Bool
  unfolding verified
  verified_block ca_cert dns_name time none = false
  verified_block ca_cert dns_name time (some bytes) =
      verified ca_cert dns_name time (P.parse_certificate bytes)

  -- `ValidCACert`
  unfoldable pub is_valid_ca_cert : Text → Text → Text → Text → ℕ → Bool
  unfolding verified_block
  is_valid_ca_cert key cert ca_cert dns_name time =
      if is_empty key || is_empty cert || is_empty ca_cert
      then false
      else if not (P.is_key_pair cert key)
      then false
      else if not (P.has_certs ca_cert)
      then false
      else verified_block ca_cert dns_name time (P.decode_pem cert)

  abbrev pub Authority : Type 0
  Authority = P.PrivateKey × P.Certificate

  unfoldable pub single_cert : P.PrivateKey → Reply Text (List P.Certificate) → Option Authority
  single_cert key (failure e) = none
  single_cert key (success []) = none
  single_cert key (success (c ∷ [])) = some (key, c)
  single_cert key (success (c ∷ (d ∷ cs))) = none

  unfoldable pub parsed_authority : Text → Reply Text (Option P.PrivateKey) → Option Authority
  unfolding single_cert
  parsed_authority ca_cert (failure e) = none
  parsed_authority ca_cert (success none) = none
  parsed_authority ca_cert (success (some key)) = single_cert key (P.parse_certs ca_cert)

  -- `validCACert`; `none` for false
  unfoldable pub stored_authority : SelfSignedCertGenerator → ℕ → Option Authority
  unfolding is_valid_ca_cert parsed_authority
  stored_authority cp time =
      if is_valid_ca_cert cp.ca_key cp.ca_cert cp.ca_cert [] time
      then parsed_authority cp.ca_cert (P.parse_private_key cp.ca_key)
      else none

  -- A call that uses up random numbers.
  abbrev pub Draw : Type 0 → Type 0
  Draw A = P.Source → Reply Text A × P.Source

  abbrev pub drawn :
      {A B : Type 0} → (A → Draw B) → Reply Text A × P.Source → Reply Text B × P.Source
  drawn f (success a, s) = f a s
  drawn f (failure e, s) = (failure e, s)

  abbrev pub and_draw : {A B : Type 0} → Draw A → (A → Draw B) → Draw B
  and_draw m f s = drawn f (m s)

  abbrev pub give : {A : Type 0} → A → Draw A
  give a s = (success a, s)

  abbrev pub give_reply : {A : Type 0} → Reply Text A → Draw A
  give_reply r s = (r, s)

  -- A new authority.
  unfoldable pub new_authority : Draw Authority
  new_authority =
      and_draw P.generate_key
        λ key. and_draw (P.new_self_signed_ca (codes "webhook-cert-ca") key) λ c. give (key, c)

  abbrev pub authority_or_new : Option Authority → Draw Authority
  authority_or_new (some authority) = give authority
  authority_or_new none = new_authority

  -- `altIPs` and `DNSNames`
  abbrev pub alt_ips : Option Text → List Text
  alt_ips none = []
  alt_ips (some ip) = ip ∷ []

  abbrev pub alt_names : Text → Option Text → List Text
  alt_names common_name none = codes "localhost" ∷ common_name ∷ []
  alt_names common_name (some ip) = codes "localhost" ∷ []

  abbrev pub config_for : Text → Config
  config_for common_name = record {
    common_name = common_name;
    ips = alt_ips (P.to4 common_name);
    dns_names = alt_names common_name (P.to4 common_name);
    usages = server_auth ∷ [];
  }

  abbrev pub template_for : Config → P.Certificate → Text → ℕ → Template
  template_for cfg ca_cert serial time = record {
    common_name = cfg.common_name;
    dns_names = cfg.dns_names;
    ip_addresses = cfg.ips;
    serial_number = serial;
    not_before = P.not_before_of ca_cert;
    not_after = time + 10 * year;
    ext_key_usage = cfg.usages;
  }

  -- With a serial number.
  unfoldable pub sign :
      Config → P.PrivateKey → P.Certificate → P.PrivateKey → Text → Draw P.Certificate
  sign cfg key ca_cert ca_key serial s =
      drawn (λ bytes. give_reply (P.parse_certificate bytes))
        (P.create_certificate (template_for cfg ca_cert serial (P.now s)) ca_cert key ca_key s)

  abbrev has_none : List Text → Bool
  has_none [] = true
  has_none (usage ∷ usages) = false

  -- `NewSignedCert`
  unfoldable pub new_signed_cert :
      Config → P.PrivateKey → P.Certificate → P.PrivateKey → Draw P.Certificate
  unfolding sign
  new_signed_cert cfg key ca_cert ca_key = and_draw P.random_serial λ serial s.
      if is_empty cfg.common_name
      then (failure (codes "must specify a CommonName"), s)
      else if has_none cfg.usages
      then (failure (codes "must specify at least one ExtKeyUsage"), s)
      else sign cfg key ca_cert ca_key serial s

  -- `EncodePrivateKeyPEM` and `EncodeCertPEM`
  unfoldable pub encode_private_key : P.PrivateKey → Text
  encode_private_key key = P.encode_pem (codes "RSA PRIVATE KEY") (P.marshal_key key)

  unfoldable pub encode_cert : P.Certificate → Text
  encode_cert c = P.encode_pem (codes "CERTIFICATE") (P.raw c)

  unfoldable pub artifacts : P.PrivateKey → P.Certificate → Authority → Artifacts
  unfolding encode_private_key encode_cert
  artifacts key cert authority = record {
    key = some (encode_private_key key);
    cert = some (encode_cert cert);
    ca_key = some (encode_private_key authority.0);
    ca_cert = some (encode_cert authority.1);
    resource_version = [];
  }

  -- What follows once there is an authority.
  unfoldable pub generate_signed : Text → Authority → Draw Artifacts
  unfolding new_signed_cert artifacts
  generate_signed common_name authority = and_draw P.generate_key λ key.
      and_draw (new_signed_cert (config_for common_name) key authority.1 authority.0)
        λ cert. give (artifacts key cert authority)

  -- `Generate`
  unfoldable pub generate_artifacts : Text → SelfSignedCertGenerator → Draw Artifacts
  unfolding stored_authority new_authority generate_signed
  generate_artifacts common_name cp s =
      and_draw (authority_or_new (stored_authority cp (P.in_a_year s)))
        (generate_signed common_name) s

  abbrev kept_ca :
      SelfSignedCertGenerator
      → Reply Text Artifacts × P.Source
      → Reply Text Artifacts × (SelfSignedCertGenerator × P.Source)
  kept_ca cp (r, s) = (r, (cp, s))

  -- `SelfSignedCertGenerator` as a `CertGenerator`, with `SetCA`
  unfoldable pub self_signed : CertGenerator
  unfolding generate_artifacts
  self_signed = record {
    State = SelfSignedCertGenerator × P.Source;
    set_ca = λ ca_key ca_cert u. (record { ca_key = ca_key; ca_cert = ca_cert }, u.1);
    generate = λ common_name u. kept_ca u.0 (generate_artifacts common_name u.0 u.1);
  }

  -- `&generator.SelfSignedCertGenerator{}`, with which `setDefaults` fills the writers' options
  unfoldable pub new_generator : self_signed.State → self_signed.State
  unfolding self_signed
  new_generator u = (record { ca_key = []; ca_cert = [] }, u.1)
