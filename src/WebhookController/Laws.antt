-- ===== src/WebhookController/Laws.antt =====
-- Runs of the webhook controller (sync and processNextWorkItem).
use persistent_pod_state.Certs.DirectoryStore.Settles.{ensure_cert_in_dir-Settles}
use persistent_pod_state.Certs.DirectoryStore.RoundTrip.{
  AreReachable, kept, read_existing-write_certs_to_dir,
}
use persistent_pod_state.Base.{
  Text, codes, Bool, true, false, [], ◌∷◌, ◌++◌, success, ok, ◌≡◌, inl, inr, refl, ap, ◌∙◌,
  Bool-cases,
}
use persistent_pod_state.Base.Int.{ℤ}
use persistent_pod_state.Base.Strings.{is_empty}
use persistent_pod_state.Environment.{Env, get_or_default, get_cert_dir, get_host, get_service_name}
use persistent_pod_state.Atomic.Write.{Volume}
use persistent_pod_state.Certs.Writer.{Artifacts, Crypto, valid_cert}
use persistent_pod_state.Certs.SecretStore.{SecretApi, CertGenerator, new_secret_cert_writer}
use persistent_pod_state.Certs.SecretStore.Laws.{IsQuietSecret, Generates}
use persistent_pod_state.Certs.SecretStore.Converges.{ensure_cert-Ensures}
use persistent_pod_state.Certs.DirectoryStore.{
  new_fs_cert_writer, bytes_of, read_existing, ensure_exist, cert_file_names,
}
use persistent_pod_state.Certs.DirectoryStore.Stored.{PicksFresh}
use persistent_pod_state.Certs.Generator.{service_to_common_name}
use persistent_pod_state.Configuration.{Formats, ConfigurationApi, ensure}
use persistent_pod_state.WebhookController.{
  dns_name, uses_directory, secret_key, settings_for, SyncState, ensure_certs, certs_ensured, sync,
  settings_with, configured, files_written,
}

append_nonempty : (a b : Text) → is_empty b ≡ false → is_empty (a ++ b) ≡ false
append_nonempty [] b h = h
append_nonempty (c ∷ a) b h = refl

-- There is always a name for the certificate.
pub dns_name_nonempty : (env : Env) → is_empty (dns_name env) ≡ false
unfolding dns_name service_to_common_name
dns_name_nonempty env = elim (Bool-cases (is_empty (get_host env))) [
  | inl e ↦ rw e (append_nonempty (get_service_name env) _ refl)
  | inr e ↦ rw (e, dns_name) e
]

-- There is always a directory for the certificate.
new_fs_cert_writer_done :
    (env : Env) → new_fs_cert_writer (get_cert_dir env) ≡ success (get_cert_dir env)
unfolding new_fs_cert_writer get_cert_dir get_or_default
new_fs_cert_writer_done env = elim (Bool-cases (is_empty (env (codes "WEBHOOK_CERT_DIR")))) [
  | inl e ↦ rw e refl
  | inr e ↦ rw (e, e) refl
]

module _ (F : Formats) (K : Crypto) (G : CertGenerator) (reset : G.State → G.State) (A : SecretApi)
    (C : ConfigurationApi) (new_dir : Volume → Text) (env : Env) (port : ℤ)
    (has_handler : Text → Bool) where
  -- There is a valid certificate, and the configurations are as before.
  record HasCerts (s : SyncState A C G) : Type 0 where
    certs : Artifacts
    after : SyncState A C G
    runs : ensure_certs F K G reset A C new_dir env port has_handler s ≡ (success certs, after)
    is_valid : valid_cert K (dns_name env) certs ≡ true
    same : after.configurations ≡ s.configurations
    reachable : AreReachable after.volume

  -- The run succeeds with a valid certificate, which is read through the links of the directory, and
  -- which the configurations trust.
  pub record Serves (s : SyncState A C G) : Type 0 where
    pub certs : Artifacts
    pub after : SyncState A C G
    pub runs : sync F K G reset A C new_dir env port has_handler s ≡ (ok tt, after)
    pub is_valid : valid_cert K (dns_name env) certs ≡ true
    pub reads :
        read_existing after.volume (ensure_exist cert_file_names after.volume)
        ≡ success (kept certs)
    pub reachable : AreReachable after.volume
    pub trusts :
        ensure F C
          (settings_with F K G reset A C new_dir env port has_handler certs)
          s.configurations
        ≡ (ok tt, after.configurations)
    pub inited : after.is_inited ≡ true

  module _ (picks : PicksFresh new_dir) (generates : Generates K G (dns_name env))
      (quiet : IsQuietSecret A (secret_key env)) where
    ensure_in_dir-HasCerts :
        (s : SyncState A C G) → AreReachable s.volume → uses_directory env ≡ true → HasCerts s
    unfolding ensure_certs
    ensure_in_dir-HasCerts s reachable dir =
        let w =
          ensure_cert_in_dir-Settles K G new_dir (dns_name env) picks (dns_name_nonempty env)
            generates (s.volume, reset s.generator) reachable in
        record {
          certs = w.certs;
          after = record s { volume = w.after.0; generator = w.after.1 };
          runs = rw (dir, new_fs_cert_writer_done env, w.first) refl;
          is_valid = w.was_valid;
          same = refl;
          reachable = w.reachable;
        }

    ensure_in_secret-HasCerts :
        (s : SyncState A C G) → AreReachable s.volume → uses_directory env ≡ false → HasCerts s
    unfolding ensure_certs new_secret_cert_writer
    ensure_in_secret-HasCerts s reachable not_dir =
        let w =
          ensure_cert-Ensures K A G (secret_key env) (dns_name env) (dns_name_nonempty env) quiet
            generates (s.secrets_state, reset s.generator) in
        record {
          certs = w.certs;
          after = record s { secrets_state = w.after.0; generator = w.after.1 };
          runs = rw (not_dir, w.runs) refl;
          is_valid = w.is_valid;
          same = refl;
          reachable = reachable;
        }

    ensure_certs-HasCerts : (s : SyncState A C G) → AreReachable s.volume → HasCerts s
    ensure_certs-HasCerts s reachable = elim (Bool-cases (uses_directory env)) [
      | inl e ↦ ensure_in_dir-HasCerts s reachable e
      | inr e ↦ ensure_in_secret-HasCerts s reachable e
    ]

    -- Where Ensure succeeds, a run of sync succeeds, whichever writer is in use.
    pub sync-Serves :
        (s : SyncState A C G)
        → AreReachable s.volume
        → ((ca_bundle : Text)
            → (ensure F C (settings_for env port has_handler ca_bundle) s.configurations).0 ≡ ok tt)
        → Serves s
    unfolding sync certs_ensured
    sync-Serves s reachable ensured =
        let c = ensure_certs-HasCerts s reachable in
        let (vol, written, reads, still) =
          read_existing-write_certs_to_dir G new_dir picks c.certs c.after.volume c.reachable in
        let run = ensure F C (settings_with F K G reset A C new_dir env port has_handler c.certs) in
        let configs = (run s.configurations).1 in
        let trusted : run s.configurations ≡ (ok tt, configs) =
          ap (λ r. (r, configs)) (ensured (bytes_of c.certs.ca_cert)) in
        let stored = record (c.after) { volume = vol } in
        record {
          certs = c.certs;
          after = record stored { configurations = configs; is_inited = true };
          runs =
              ap (certs_ensured F K G reset A C new_dir env port has_handler) c.runs
              ∙ ap (files_written F K G reset A C new_dir env port has_handler c.certs c.after)
                  written
              ∙ ap (λ t. configured F K G reset A C new_dir env port has_handler stored (run t))
                  c.same
              ∙ ap (configured F K G reset A C new_dir env port has_handler stored) trusted;
          is_valid = c.is_valid;
          reads = reads;
          reachable = still;
          trusts = trusted;
          inited = refl;
        }
