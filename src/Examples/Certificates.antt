-- ===== src/Examples/Certificates.antt =====
-- The certificate writer on a cluster with one Secret.
use persistent_pod_state.Base.{
  Text, true, codes, ◌==◌, text_eq, if◌then◌else◌, Option, none, some, [], ◌≡◌, refl, subst, inl,
  inr, Reply, success, failure, arith,
}
use persistent_pod_state.Api.{NamespacedName}
use persistent_pod_state.Cluster.{ApiError, not_found, already_exists, conflict}
use persistent_pod_state.Cluster.Laws.{Answered}
use persistent_pod_state.Atomic.Write.{Volume}
use persistent_pod_state.Base.{nat_eq}
use persistent_pod_state.Certs.Writer.{
  Artifacts, CertReadWriter, Crypto, valid_cert, valid_parts, verify_block, renew,
  create_if_not_exists, after_read, handle_common,
}
use persistent_pod_state.Certs.Writer.Laws.{
  IsValidReply, success_injective, handle_common-valid_cert,
}
use persistent_pod_state.Certs.SecretStore.{Secret, SecretApi, CertGenerator}
use persistent_pod_state.Certs.SecretStore.Laws.{IsQuietSecret, Generates}
use persistent_pod_state.Certs.SecretStore.Converges.{Ensures, ensure_cert-Ensures}

abbrev pub answer : Option Secret → Reply ApiError Secret
answer none = failure not_found
answer (some x) = success x

abbrev pub create_over : Option Secret → Secret → Reply ApiError (Unit {0}) × Option Secret
create_over none x = (success tt, some x)
create_over (some old) x = (failure already_exists, some old)

abbrev pub update_over : Option Secret → Secret → Reply ApiError (Unit {0}) × Option Secret
update_over none x = (failure not_found, none)
update_over (some old) x =
    if x.resource_version == old.resource_version
    then (success tt, some x)
    else (failure conflict, some old)

-- A cluster that holds one Secret at most.
abbrev pub secrets : SecretApi
secrets = record {
  State = Option Secret;
  get = λ s k. answer s;
  create = λ x s. create_over s x;
  update = λ x s. update_over s x;
}

abbrev sec : NamespacedName
sec = record { namespace = codes "ns"; name = codes "certs" }

answered : (s : Option Secret) → Answered not_found (answer s)
answered none = inl refl
answered (some x) = inr (x, refl)

pub secrets-IsQuietSecret : (k : NamespacedName) → IsQuietSecret secrets k
secrets-IsQuietSecret k = record {
  get_answered = answered;
  create_done = λ s x n h. created s x h;
  get-create = λ s x n h v. (x, stored s x h, refl);
  update_done = λ s x old n h e. updated s x old h e;
  get-update = λ s x old n h e v. (x, replaced s x old h e, refl);
}
  where
    created :
        (s : Option Secret) (x : Secret)
        → answer s ≡ failure not_found
        → (create_over s x).0 ≡ success tt
    created none x h = refl
    created (some y) x h = cc

    stored :
        (s : Option Secret) (x : Secret)
        → answer s ≡ failure not_found
        → answer (create_over s x).1 ≡ success x
    stored none x h = refl
    stored (some y) x h = cc

    updated :
        (s : Option Secret) (x old : Secret)
        → answer s ≡ success old
        → x.resource_version ≡ old.resource_version
        → (update_over s x).0 ≡ success tt
    updated none x old h e = cc
    updated (some y) x old h e = ground arith

    replaced :
        (s : Option Secret) (x old : Secret)
        → answer s ≡ success old
        → x.resource_version ≡ old.resource_version
        → answer (update_over s x).1 ≡ success x
    replaced none x old h e = cc
    replaced (some y) x old h e = ground arith

-- A certificate is the name that it is for, and every key fits it.
abbrev names : Crypto
names = record {
  Certificate = Text;
  is_key_pair = λ cert key. true;
  has_certs = λ ca. true;
  decode = λ cert. some cert;
  parse = λ block. some block;
  verify = λ dns_name ca certificate. certificate == dns_name;
}

abbrev dns_name : Text
dns_name = codes "svc.ns.svc"

abbrev certificate : Artifacts
certificate = record {
  ca_key = some (codes "k");
  ca_cert = some (codes "ca");
  cert = some dns_name;
  key = some (codes "s");
  resource_version = [];
}

-- It remembers nothing and makes the same certificate each time.
abbrev generator : CertGenerator
generator = record {
  State = Unit {0};
  set_ca = λ key cert g. g;
  generate = λ name g. (success certificate, g);
}

certificate-valid : valid_cert names dns_name certificate ≡ true
unfolding valid_parts verify_block text_eq
certificate-valid = refl

generator-Generates : Generates names generator dns_name
generator-Generates g =
    (certificate, g, refl, certificate-valid, ((_, refl), (_, refl), (_, refl), (_, refl)))

ensure_cert-Ensures_example : Ensures names secrets generator sec dns_name (none, tt)
ensure_cert-Ensures_example =
    ensure_cert-Ensures names secrets generator sec dns_name refl (secrets-IsQuietSecret sec)
      generator-Generates (none, tt)

-- A store that only ever has the certificate.
abbrev constant : CertReadWriter (Unit {0})
constant = record {
  read = λ s. (success certificate, s);
  write = λ s. (success certificate, s);
  overwrite = λ version s. (success certificate, s);
}

constant_valid : IsValidReply names dns_name (success certificate)
constant_valid certs h =
    subst (λ c. valid_cert names dns_name c ≡ true) (success_injective h) certificate-valid

handle_common-valid_cert_example : valid_cert names dns_name certificate ≡ true
unfolding handle_common renew create_if_not_exists after_read valid_parts verify_block text_eq
handle_common-valid_cert_example =
    handle_common-valid_cert names dns_name constant (λ v s. constant_valid) tt certificate refl

abbrev pub empty_dir : Volume
empty_dir = record { data_dir = none; versions = []; links = [] }
