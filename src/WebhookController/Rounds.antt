-- ===== src/WebhookController/Rounds.antt =====
-- Rounds of the worker (processNextWorkItem), and the events that bring them about.
use persistent_pod_state.Certs.DirectoryStore.RoundTrip.{AreReachable}
use persistent_pod_state.Base.{
  Text, Bool, true, List, [], ◌∷◌, some, Reply, success, failure, Result, ok, err, panic, ◌≡◌, ◌≢◌,
  ◌⊎◌, inl, inr, refl, sym, ◌∙◌, Bool-cases, text_eq, arith,
}
use persistent_pod_state.Base.Int.{ℤ}
use persistent_pod_state.Environment.{Env, get_cert_dir}
use persistent_pod_state.Atomic.Write.{Volume}
use persistent_pod_state.Certs.Writer.{Artifacts, CertError, Crypto}
use persistent_pod_state.Certs.SecretStore.{SecretApi, CertGenerator, new_secret_cert_writer}
use persistent_pod_state.Certs.SecretStore.Laws.{IsQuietSecret, Generates}
use persistent_pod_state.Certs.DirectoryStore.{new_fs_cert_writer}
use persistent_pod_state.Certs.DirectoryStore.Stored.{PicksFresh}
use persistent_pod_state.Configuration.{Formats, ConfigurationApi, ensure}
use persistent_pod_state.WebhookController.{
  QueueCall, add, add_after, add_rate_limited, forget, done, default_resync_period, Watched,
  WatchEvent, added, updated, watched_name, handle_event, add_if_watched, dns_name, uses_directory,
  secret_key, settings_for, SyncState, ensure_certs, certs_ensured, sync, process_next_work_item,
  configured, files_written, ensure_in_dir, requeue,
}
use persistent_pod_state.WebhookController.Laws.{sync-Serves, Serves}

-- The object's name after an event.
abbrev pub name_after : WatchEvent → Text
name_after (added name) = name
name_after (updated old cur) = cur

-- An event adds the one key to the queue where the object, as it is after the event, has the name
-- that is watched, and calls nothing otherwise.
pub handle_event-watched :
    (env : Env) (kind : Watched) (event : WatchEvent)
    → ((name_after event ≡ watched_name env kind) × (handle_event env kind event ≡ add [] ∷ []))
      ⊎ ((name_after event ≢ watched_name env kind) × (handle_event env kind event ≡ []))
unfolding handle_event add_if_watched
handle_event-watched env kind (added name) = elim (text_eq.dec name (watched_name env kind)) [
  | yes e ↦ inl (e, ground arith)
  | no n ↦ inr (n, ground arith)
]
handle_event-watched env kind (updated old cur) = elim (text_eq.dec cur (watched_name env kind)) [
  | yes e ↦ inl (e, ground arith)
  | no n ↦ inr (n, ground arith)
]

-- The call is one of these.
abbrev pub IsCalled : QueueCall → List QueueCall → Type 0
IsCalled c [] = ⊥
IsCalled c (d ∷ calls) = (d ≡ c) ⊎ IsCalled c calls

-- The key is done, and is to be given out again.
abbrev pub Requeues : Text → List QueueCall → Type 0
Requeues key calls =
    IsCalled (done key) calls
    × (IsCalled (add_after key default_resync_period) calls ⊎ IsCalled (add_rate_limited key) calls)

module _ (F : Formats) (K : Crypto) (G : CertGenerator) (reset : G.State → G.State) (A : SecretApi)
    (C : ConfigurationApi) (new_dir : Volume → Text) (env : Env) (port : ℤ)
    (has_handler : Text → Bool) where
  -- It was ready before, or it has succeeded.
  abbrev IsReadyBy : SyncState A C G → Result Text (Unit {0}) × SyncState A C G → Type 0
  IsReadyBy s r = r.1.is_inited ≡ true → (s.is_inited ≡ true) ⊎ (r.0 ≡ ok tt)

  configured-IsReadyBy :
      (s : SyncState A C G) (o : Result Text (Unit {0}) × C.State)
      → IsReadyBy s (configured F K G reset A C new_dir env port has_handler s o)
  configured-IsReadyBy s (ok _, c) h = inr refl
  configured-IsReadyBy s (err e, c) h = inl h
  configured-IsReadyBy s (panic, c) h = inl h

  files_written-IsReadyBy :
      (certs : Artifacts) (s : SyncState A C G) (o : Reply Text (Unit {0}) × Volume)
      → IsReadyBy s (files_written F K G reset A C new_dir env port has_handler certs s o)
  files_written-IsReadyBy certs s (failure e, vol) h = inl h
  files_written-IsReadyBy certs s (success _, vol) h =
      configured-IsReadyBy (record s { volume = vol }) _ h

  certs_ensured-IsReadyBy :
      (r : Reply CertError Artifacts) (s : SyncState A C G)
      → IsReadyBy s (certs_ensured F K G reset A C new_dir env port has_handler (r, s))
  unfolding certs_ensured
  certs_ensured-IsReadyBy (failure e) s h = inl h
  certs_ensured-IsReadyBy (success certs) s h = files_written-IsReadyBy certs s _ h

  ensure_in_dir_inited :
      (s : SyncState A C G) (w : Reply CertError Text)
      → (ensure_in_dir F K G reset A C new_dir env port has_handler s w).1.is_inited ≡ s.is_inited
  ensure_in_dir_inited s (failure e) = refl
  ensure_in_dir_inited s (success path) = refl

  ensure_certs_inited :
      (s : SyncState A C G)
      → (ensure_certs F K G reset A C new_dir env port has_handler s).1.is_inited ≡ s.is_inited
  unfolding ensure_certs new_secret_cert_writer
  ensure_certs_inited s = elim (Bool-cases (uses_directory env)) [
    | inl e ↦ rw e (ensure_in_dir_inited s (new_fs_cert_writer (get_cert_dir env)))
    | inr e ↦ rw e refl
  ]

  -- The channel that tells of a finished start is closed only where it was closed before or the
  -- run has succeeded.
  pub sync_inited :
      (s : SyncState A C G)
      → (sync F K G reset A C new_dir env port has_handler s).1.is_inited ≡ true
      → (s.is_inited ≡ true) ⊎ ((sync F K G reset A C new_dir env port has_handler s).0 ≡ ok tt)
  unfolding sync
  sync_inited s h =
      let c = ensure_certs F K G reset A C new_dir env port has_handler s in
      elim (certs_ensured-IsReadyBy c.0 c.1 h) [
        | inl before ↦ inl (sym (ensure_certs_inited s) ∙ before)
        | inr fine ↦ inr fine
      ]

  requeued :
      (key : Text) (r : Result Text (Unit {0}))
      → ((requeue F K G reset A C new_dir env port has_handler key r).0 ≡ panic)
        ⊎ Requeues key (requeue F K G reset A C new_dir env port has_handler key r).1
  requeued key (ok _) = inr (inr (inr (inl refl)), inl (inl refl))
  requeued key (err e) = inr (inr (inl refl), inr (inl refl))
  requeued key panic = inl refl

  -- Whatever the calls of a round return, the key is done and is put back, after a minute or by
  -- the rate limit, unless the run panics.
  pub process_next_work_item-Requeues :
      (key : Text) (s : SyncState A C G)
      → ((process_next_work_item F K G reset A C new_dir env port has_handler (some key) s).0.0
          ≡ panic)
        ⊎ Requeues key
            (process_next_work_item F K G reset A C new_dir env port has_handler (some key) s).0.1
  unfolding process_next_work_item
  process_next_work_item-Requeues key s = requeued key _

  -- On an API server that answers and where nobody else writes the Secret, with a generator whose
  -- certificates are valid, new directories that are not in use, a directory where each of the six
  -- files, as far as it is there, has its link, and configurations that Ensure succeeds on: a round
  -- of the worker succeeds with a valid certificate, which is then read through the links of the
  -- directory, and with whose authority Ensure has run, closes the channel, and has the key come
  -- again after a minute. It does not matter which writer is in use.
  pub process_next_work_item-Serves :
      PicksFresh new_dir
      → Generates K G (dns_name env)
      → IsQuietSecret A (secret_key env)
      → (key : Text) (s : SyncState A C G) → AreReachable s.volume
      → ((ca_bundle : Text)
          → (ensure F C (settings_for env port has_handler ca_bundle) s.configurations).0 ≡ ok tt)
      → (w : Serves F K G reset A C new_dir env port has_handler s) × (process_next_work_item F K G
            reset A C new_dir env port has_handler
            (some key)
            s
          ≡ ((ok true, add_after key default_resync_period ∷ forget key ∷ done key ∷ []), w.after))
  unfolding process_next_work_item
  process_next_work_item-Serves picks generates quiet key s reachable ensured =
      let w =
        sync-Serves F K G reset A C new_dir env port has_handler picks generates quiet s reachable
          ensured in
      (w, rw w.runs refl)
