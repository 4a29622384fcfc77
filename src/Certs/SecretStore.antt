-- ===== src/Certs/SecretStore.antt =====
-- internal/webhook/util/writer/secret.go: the certificate lives in a Secret.
pub mod Laws
pub mod Converges
use persistent_pod_state.Base.{
  Text, codes, if◌then◌else◌, Bool, true, false, Option, none, some, List, [], ◌∷◌, Reply, success,
  failure,
}
use persistent_pod_state.Base.GoMap.{GoMap, get_or}
use persistent_pod_state.Api.{NamespacedName}
use persistent_pod_state.Cluster.{ApiError, is_not_found, is_already_exists, Write}
use persistent_pod_state.Certs.Writer.{
  Artifacts, CertError, not_found_error, already_exist_error, from_api, failed, CertReadWriter,
  Crypto, Ensured, handle_common,
}

-- `corev1.Secret`, with the fields that are used; `contents` is `Data`
pub record Secret : Type 0 where
  pub namespace : Text
  pub name : Text
  pub resource_version : Text
  pub contents : GoMap (Option Text)

-- The calls on Secrets of client-go's `Clientset`.
pub record SecretApi : Type 1 where
  pub State : Type 0
  pub get : State → NamespacedName → Reply ApiError Secret
  pub create : Secret → Write State
  pub update : Secret → Write State

-- `generator.CertGenerator`, over what it remembers of the authority.
pub record CertGenerator : Type 1 where
  pub State : Type 0
  pub set_ca : Text → Text → State → State
  pub generate : Text → State → Reply Text Artifacts × State

abbrev pub ca_key_name : Text
ca_key_name = codes "ca-key.pem"

abbrev pub ca_cert_name : Text
ca_cert_name = codes "ca-cert.pem"

abbrev pub server_key_name : Text
server_key_name = codes "key.pem"

abbrev pub server_key_name2 : Text
server_key_name2 = codes "tls.key"

abbrev pub server_cert_name : Text
server_cert_name = codes "cert.pem"

abbrev pub server_cert_name2 : Text
server_cert_name2 = codes "tls.crt"

-- `secretToCerts`
unfoldable pub secret_to_certs : Secret → Artifacts
secret_to_certs secret = elim secret.contents [
  | none ↦ record {
    ca_key = none;
    ca_cert = none;
    cert = none;
    key = none;
    resource_version = secret.resource_version;
  }
  | some d ↦ record {
    ca_key = get_or (some d) ca_key_name none;
    ca_cert = get_or (some d) ca_cert_name none;
    cert = get_or (some d) server_cert_name none;
    key = get_or (some d) server_key_name none;
    resource_version = secret.resource_version;
  }
]

-- `certsToSecret`
unfoldable pub certs_to_secret : Artifacts → NamespacedName → Secret
certs_to_secret certs sec = record {
  namespace = sec.namespace;
  name = sec.name;
  resource_version = [];
  contents = some (
      (ca_key_name, certs.ca_key)
      ∷ (ca_cert_name, certs.ca_cert)
      ∷ (server_key_name, certs.key)
      ∷ (server_key_name2, certs.key)
      ∷ (server_cert_name, certs.cert)
      ∷ (server_cert_name2, certs.cert)
      ∷ []);
}

-- `NewSecretCertWriter`, by whether there is a client, and the Secret's key, which may be nil
unfoldable pub new_secret_cert_writer :
    Bool → Option NamespacedName → Reply CertError NamespacedName
new_secret_cert_writer false sec =
    failure (failed (codes "client must be set in SecretCertWriterOptions"))
new_secret_cert_writer true none =
    failure (failed (codes "secret must be set in SecretCertWriterOptions"))
new_secret_cert_writer true (some sec) = success sec

module _ (A : SecretApi) (G : CertGenerator) where
  -- The cluster, and the generator that the writer holds.
  abbrev pub WriterState : Type 0
  WriterState = A.State × G.State

  -- After `Create`.
  unfoldable pub written :
      Artifacts
      → G.State
      → Reply ApiError (Unit {0}) × A.State
      → Reply CertError Artifacts × WriterState
  written certs g (success _, s) = (success certs, (s, g))
  written certs g (failure e, s) =
      (failure (if is_already_exists e then already_exist_error else from_api e), (s, g))

  unfoldable pub overwritten :
      Artifacts
      → G.State
      → Reply ApiError (Unit {0}) × A.State
      → Reply CertError Artifacts × WriterState
  overwritten certs g (success _, s) = (success certs, (s, g))
  overwritten certs g (failure e, s) = (failure (from_api e), (s, g))

  -- What was read tells the generator its authority.
  unfoldable pub learn : Artifacts → G.State → G.State
  learn certs g = elim certs.ca_cert [
    | none ↦ g
    | some ca_cert ↦ elim certs.ca_key [ none ↦ g | some ca_key ↦ G.set_ca ca_key ca_cert g ]
  ]

  module _ (sec : NamespacedName) (dns_name : Text) where
    -- `write`, by what was generated
    unfoldable pub write_made :
        A.State → Reply Text Artifacts × G.State → Reply CertError Artifacts × WriterState
    unfolding written
    write_made s (failure e, g) = (failure (failed e), (s, g))
    write_made s (success certs, g) = written certs g (A.create (certs_to_secret certs sec) s)

    unfoldable pub overwrite_made :
        Text → A.State → Reply Text Artifacts × G.State → Reply CertError Artifacts × WriterState
    unfolding overwritten
    overwrite_made version s (failure e, g) = (failure (failed e), (s, g))
    overwrite_made version s (success certs, g) =
        overwritten certs g
          (A.update (record (certs_to_secret certs sec) { resource_version = version }) s)

    unfoldable pub read_found :
        Reply ApiError Secret → WriterState → Reply CertError Artifacts × WriterState
    unfolding learn
    read_found (failure e) u = (failure (if is_not_found e then not_found_error else from_api e), u)
    read_found (success secret) (s, g) =
        (success (secret_to_certs secret), (s, learn (secret_to_certs secret) g))

    -- `secretCertWriter` as a `certReadWriter`
    abbrev pub secret_cert_writer : CertReadWriter WriterState
    secret_cert_writer = record {
      read = λ u. read_found (A.get u.0 sec) u;
      write = λ u. write_made u.0 (G.generate dns_name u.1);
      overwrite = λ version u. overwrite_made version u.0 (G.generate dns_name u.1);
    }

    -- `EnsureCert`
    unfoldable pub ensure_cert : Crypto → WriterState → Ensured WriterState
    ensure_cert K u = handle_common K dns_name (some secret_cert_writer) u
