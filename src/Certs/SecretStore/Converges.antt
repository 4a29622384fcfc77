-- ===== src/Certs/SecretStore/Converges.antt =====
-- Runs of the writer to a Secret (internal/webhook/util/writer/secret.go), one after another.
use persistent_pod_state.Base.{
  Text, Bool, true, false, ◌≡◌, sym, ap, ◌∙◌, inl, inr, success, failure, Bool-cases,
}
use persistent_pod_state.Base.Strings.{is_empty}
use persistent_pod_state.Api.{NamespacedName}
use persistent_pod_state.Cluster.{not_found}
use persistent_pod_state.Certs.Writer.{Artifacts, Crypto, valid_cert}
use persistent_pod_state.Certs.Writer.Laws.{
  handle_common_found, handle_common_absent, handle_common_invalid,
}
use persistent_pod_state.Certs.SecretStore.{
  Secret, SecretApi, CertGenerator, WriterState, secret_to_certs, certs_to_secret, learn,
  secret_cert_writer, ensure_cert,
}
use persistent_pod_state.Certs.SecretStore.Laws.{
  IsQuietSecret, Generates, replacement, secret_values, secret_to_certs-certs_to_secret,
  read_absent, read_stored, write_generated, overwrite_generated, named, replacement-IsNamed,
  replacement_values, version_of, version_self,
}

module _ (K : Crypto) (A : SecretApi) (G : CertGenerator) (sec : NamespacedName)
    (dns_name : Text) where
  -- The Secret holds a valid certificate: these parts.
  abbrev pub IsStored : Artifacts → A.State → Type 0
  IsStored certs s =
      (x : Secret) × (A.get s sec ≡ success x)
      × (secret_to_certs x ≡ record certs { resource_version = x.resource_version })

  -- A run returns a valid certificate, which the Secret holds afterwards.
  pub record Ensures (s : WriterState A G) : Type 0 where
    pub certs : Artifacts
    pub changed : Bool
    pub after : WriterState A G
    pub runs : ensure_cert A G sec dns_name K s ≡ ((success certs, changed), after)
    pub is_valid : valid_cert K dns_name certs ≡ true
    pub stored : IsStored certs after.0

  module _ (named_dns : is_empty dns_name ≡ false) where
    ensure_cert_found :
        (u : WriterState A G) (x : Secret)
        → A.get u.0 sec ≡ success x
        → valid_cert K dns_name (secret_to_certs x) ≡ true
        → ensure_cert A G sec dns_name K u
          ≡ ((success (secret_to_certs x), false), (u.0, learn A G (secret_to_certs x) u.1))
    unfolding ensure_cert
    ensure_cert_found u x found valid =
        handle_common_found K dns_name (secret_cert_writer A G sec dns_name) u _ _ named_dns
          (read_stored A G sec dns_name u x found) valid

    -- For a DNS name that is not empty, where the Secret holds a valid certificate, a run returns
    -- it, reports no change, and changes nothing in the cluster.
    pub ensure_cert_again :
        (certs : Artifacts) (u : WriterState A G)
        → valid_cert K dns_name certs ≡ true
        → IsStored certs u.0
        → (x : Artifacts) × (h : G.State) × (ensure_cert A G sec dns_name K u
            ≡ ((success x, false), (u.0, h)))
          × (x ≡ record certs { resource_version = x.resource_version })
    ensure_cert_again certs u valid (x, found, same) = (
      secret_to_certs x,
      learn A G (secret_to_certs x) u.1,
      ensure_cert_found u x found (ap (valid_cert K dns_name) same ∙ valid),
      same ∙ ap (λ c. record certs { resource_version = c.resource_version }) (sym same),
    )

    module _ (Q : IsQuietSecret A sec) (generates : Generates K G dns_name) where
      ensure_cert_creates : (u : WriterState A G) → A.get u.0 sec ≡ failure not_found → Ensures u
      unfolding ensure_cert
      ensure_cert_creates u absent =
          let (certs, g, made, valid, filled) = generates u.1 in
          let done = Q.create_done u.0 (certs_to_secret certs sec) (named certs sec) absent in
          let (y, found, same) =
            Q.get-create u.0 (certs_to_secret certs sec) (named certs sec) absent
              (secret_values certs sec filled) in
          record {
            certs = certs;
            changed = true;
            after = ((A.create (certs_to_secret certs sec) u.0).1, g);
            runs =
                handle_common_absent K dns_name (secret_cert_writer A G sec dns_name) u u _ certs
                  named_dns (read_absent A G sec dns_name u absent)
                  (write_generated A G sec dns_name u certs g made done) valid;
            is_valid = valid;
            stored = (y, found, secret_to_certs-certs_to_secret certs sec y same);
          }

      ensure_cert_replaces :
          (u : WriterState A G) (x : Secret)
          → A.get u.0 sec ≡ success x
          → valid_cert K dns_name (secret_to_certs x) ≡ false
          → Ensures u
      unfolding ensure_cert
      ensure_cert_replaces u x old invalid =
          let h = learn A G (secret_to_certs x) u.1 in
          let (certs, g, made, valid, filled) = generates h in
          let version = (secret_to_certs x).resource_version in
          let next = replacement A G sec dns_name certs version in
          let isn = replacement-IsNamed A G sec dns_name certs version in
          let same_version = version_of x in
          let (y, found, same) =
            Q.get-update u.0 next x isn old same_version
              (replacement_values A G sec dns_name certs version filled) in
          record {
            certs = certs;
            changed = true;
            after = ((A.update next u.0).1, g);
            runs =
                handle_common_invalid K dns_name (secret_cert_writer A G sec dns_name) u (u.0, h) _
                  _ certs named_dns (read_stored A G sec dns_name u x old) invalid
                  (overwrite_generated A G sec dns_name (u.0, h) certs g version made
                    (Q.update_done u.0 next x isn old same_version));
            is_valid = valid;
            stored = (y, found, secret_to_certs-certs_to_secret certs sec y same);
          }

      -- For a DNS name that is not empty, with a generator whose certificates are valid, on an API
      -- server that answers and to which nobody else writes, whatever the Secret holds, a run
      -- succeeds with a valid certificate, which the Secret holds afterwards.
      pub ensure_cert-Ensures : (u : WriterState A G) → Ensures u
      ensure_cert-Ensures u = elim (Q.get_answered u.0) [
        | inl absent ↦ ensure_cert_creates u absent
        | inr (x, found) ↦ elim (Bool-cases (valid_cert K dns_name (secret_to_certs x))) [
          | inl e ↦ record {
            certs = secret_to_certs x;
            changed = false;
            after = (u.0, learn A G (secret_to_certs x) u.1);
            runs = ensure_cert_found u x found e;
            is_valid = e;
            stored = (x, found, version_self x);
          }
          | inr e ↦ ensure_cert_replaces u x found e
        ]
      ]
