-- ===== src/Certs/SecretStore/Laws.antt =====
-- The certificate in its Secret, on an API server that answers each call and to which nobody else
-- writes meanwhile, with a generator that does what it promises.
use persistent_pod_state.Base.{
  Text, true, Option, some, ◌≡◌, refl, ap, ◌∙◌, inl, inr, Reply, success, failure, Option-cases,
  text_eq,
}
use persistent_pod_state.Base.Lists.{All}
use persistent_pod_state.Base.GoMap.{entries, lookup}
use persistent_pod_state.Api.{NamespacedName}
use persistent_pod_state.Cluster.{ApiError, not_found}
use persistent_pod_state.Cluster.Laws.{Answered}
use persistent_pod_state.Certs.Writer.{Artifacts, not_found_error, Crypto, valid_cert}
use persistent_pod_state.Certs.SecretStore.{
  Secret, SecretApi, CertGenerator, secret_to_certs, certs_to_secret, written, overwritten, learn,
  write_made, overwrite_made, read_found, secret_cert_writer, WriterState,
}

abbrev IsPresent : Option Text → Type 0
IsPresent o = (b : Text) × (o ≡ some b)

-- No part of the certificate is nil.
abbrev pub IsFilled : Artifacts → Type 0
IsFilled certs =
    IsPresent certs.ca_key × IsPresent certs.ca_cert × IsPresent certs.cert × IsPresent certs.key

-- No value is nil: JSON does not keep nil and an empty value apart.
abbrev pub HasValues : Secret → Type 0
HasValues x = All (λ e. IsPresent e.1) (entries x.contents)

-- The Secret has the key.
abbrev pub IsNamed : NamespacedName → Secret → Type 0
IsNamed sec x = (x.namespace ≡ sec.namespace) × (x.name ≡ sec.name)

-- What is documented of reads and writes of the Secret.
pub record IsQuietSecret (A : SecretApi) (sec : NamespacedName) : Type 0 where
  pub get_answered : (s : A.State) → Answered not_found (A.get s sec)
  pub create_done :
      (s : A.State) (x : Secret)
      → IsNamed sec x
      → A.get s sec ≡ failure not_found
      → (A.create x s).0 ≡ success tt
  pub get-create :
      (s : A.State) (x : Secret)
      → IsNamed sec x
      → A.get s sec ≡ failure not_found
      → HasValues x
      → (y : Secret) × (A.get (A.create x s).1 sec ≡ success y) × (y.contents ≡ x.contents)
  -- An update goes by the version that was read.
  pub update_done :
      (s : A.State) (x old : Secret)
      → IsNamed sec x
      → A.get s sec ≡ success old
      → x.resource_version ≡ old.resource_version
      → (A.update x s).0 ≡ success tt
  pub get-update :
      (s : A.State) (x old : Secret)
      → IsNamed sec x
      → A.get s sec ≡ success old
      → x.resource_version ≡ old.resource_version
      → HasValues x
      → (y : Secret) × (A.get (A.update x s).1 sec ≡ success y) × (y.contents ≡ x.contents)

-- The generator makes certificates that are valid for the name.
abbrev pub Generates : Crypto → CertGenerator → Text → Type 0
Generates K G dns_name =
    (g : G.State)
    → (certs : Artifacts) × (h : G.State) × (G.generate dns_name g ≡ (success certs, h))
      × (valid_cert K dns_name certs ≡ true)
      × IsFilled certs

pub secret_values :
    (certs : Artifacts) (sec : NamespacedName)
    → IsFilled certs
    → HasValues (certs_to_secret certs sec)
unfolding certs_to_secret
secret_values certs sec (ca_key, ca_cert, cert, key) =
    (ca_key, (ca_cert, (key, (key, (cert, (cert, tt))))))

pub named : (certs : Artifacts) (sec : NamespacedName) → IsNamed sec (certs_to_secret certs sec)
unfolding certs_to_secret
named certs sec = (refl, refl)

-- The version travels along.
pub version_of : (x : Secret) → (secret_to_certs x).resource_version ≡ x.resource_version
unfolding secret_to_certs
version_of x = elim (Option-cases x.contents) [
  | inl e ↦ ap (λ c. (secret_to_certs (record x { contents = c })).resource_version) e
  | inr (d, e) ↦ ap (λ c. (secret_to_certs (record x { contents = c })).resource_version) e
]

pub version_self :
    (x : Secret)
    → secret_to_certs x ≡ record (secret_to_certs x) { resource_version = x.resource_version }
version_self x = ap (λ v. record (secret_to_certs x) { resource_version = v }) (version_of x)

-- A certificate comes back from the Secret that it was put into.
pub secret_to_certs-certs_to_secret :
    (certs : Artifacts) (sec : NamespacedName) (y : Secret)
    → y.contents ≡ (certs_to_secret certs sec).contents
    → secret_to_certs y ≡ record certs { resource_version = y.resource_version }
unfolding secret_to_certs certs_to_secret lookup text_eq
secret_to_certs-certs_to_secret certs sec y h =
    ap (λ d. secret_to_certs (record y { contents = d })) h

written_success :
    (A : SecretApi) (G : CertGenerator) (certs : Artifacts) (g : G.State)
    (o : Reply ApiError (Unit {0}) × A.State)
    → o.0 ≡ success tt
    → written A G certs g o ≡ (success certs, (o.1, g))
unfolding written
written_success A G certs g (success _, s) h = refl
written_success A G certs g (failure e, s) h = cc

overwritten_success :
    (A : SecretApi) (G : CertGenerator) (certs : Artifacts) (g : G.State)
    (o : Reply ApiError (Unit {0}) × A.State)
    → o.0 ≡ success tt
    → overwritten A G certs g o ≡ (success certs, (o.1, g))
unfolding overwritten
overwritten_success A G certs g (success _, s) h = refl
overwritten_success A G certs g (failure e, s) h = cc

module _ (A : SecretApi) (G : CertGenerator) (sec : NamespacedName) (dns_name : Text) where
  pub read_absent :
      (u : WriterState A G)
      → A.get u.0 sec ≡ failure not_found
      → (secret_cert_writer A G sec dns_name).read u ≡ (failure not_found_error, u)
  unfolding read_found
  read_absent u h = ap (λ r. read_found A G sec dns_name r u) h

  pub read_stored :
      (u : WriterState A G) (x : Secret)
      → A.get u.0 sec ≡ success x
      → (secret_cert_writer A G sec dns_name).read u
        ≡ (success (secret_to_certs x), (u.0, learn A G (secret_to_certs x) u.1))
  unfolding read_found
  read_stored u x h = ap (λ r. read_found A G sec dns_name r u) h

  pub write_generated :
      (u : WriterState A G) (certs : Artifacts) (g : G.State)
      → G.generate dns_name u.1 ≡ (success certs, g)
      → (A.create (certs_to_secret certs sec) u.0).0 ≡ success tt
      → (secret_cert_writer A G sec dns_name).write u
        ≡ (success certs, ((A.create (certs_to_secret certs sec) u.0).1, g))
  unfolding write_made
  write_generated u certs g made done =
      ap (write_made A G sec dns_name u.0) made ∙ written_success A G certs g _ done

  -- The Secret that replaces one of the version.
  abbrev pub replacement : Artifacts → Text → Secret
  replacement certs version = record (certs_to_secret certs sec) { resource_version = version }

  pub overwrite_generated :
      (u : WriterState A G) (certs : Artifacts) (g : G.State) (version : Text)
      → G.generate dns_name u.1 ≡ (success certs, g)
      → (A.update (replacement certs version) u.0).0 ≡ success tt
      → (secret_cert_writer A G sec dns_name).overwrite version u
        ≡ (success certs, ((A.update (replacement certs version) u.0).1, g))
  unfolding overwrite_made
  overwrite_generated u certs g version made done =
      ap (overwrite_made A G sec dns_name version u.0) made ∙ overwritten_success A G certs g _ done

  pub replacement-IsNamed :
      (certs : Artifacts) (version : Text) → IsNamed sec (replacement certs version)
  unfolding certs_to_secret
  replacement-IsNamed certs version = (refl, refl)

  pub replacement_values :
      (certs : Artifacts) (version : Text) → IsFilled certs → HasValues (replacement certs version)
  replacement_values certs version filled = secret_values certs sec filled
