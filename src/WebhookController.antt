-- ===== src/WebhookController.antt =====
-- internal/webhook/util/controller/webhook_controller.go: the certificate, its files and the webhook
-- configurations are kept in order. The certificate generator and the calls of the cluster are
-- parameters; the directory of the certificate is the one that the atomic writer manages.
pub mod Laws
pub mod Rounds
pub mod Work
use persistent_pod_state.Base.{
  ℕ, Text, codes, ◌==◌, text_eq, if◌then◌else◌, Bool, true, false, not, ◌&&◌, ◌||◌, Option, none,
  some, List, [], ◌∷◌, ◌++◌, Reply, success, failure, Result, ok, err, panic,
}
use persistent_pod_state.Base.Int.{ℤ}
use persistent_pod_state.Base.Decimal.{print_int}
use persistent_pod_state.Base.Strings.{is_empty}
use persistent_pod_state.Api.{NamespacedName}
use persistent_pod_state.Environment.{
  Env, get_host, get_namespace, get_service_name, get_secret_name, get_cert_dir, get_cert_writer,
  get_mutating_webhook_name, get_validating_webhook_name,
}
use persistent_pod_state.Atomic.Write.{Volume}
use persistent_pod_state.Certs.Writer.{Artifacts, CertError, Crypto, Ensured}
use persistent_pod_state.Certs.SecretStore.{
  SecretApi, WriterState, ensure_cert, new_secret_cert_writer, CertGenerator,
}
use persistent_pod_state.Certs.DirectoryStore.{
  DirectoryState, ensure_cert_in_dir, write_certs_to_dir, new_fs_cert_writer, bytes_of,
}
use persistent_pod_state.Certs.Generator.{
  Pki, SelfSignedCertGenerator, self_signed, service_to_common_name,
}
use persistent_pod_state.Configuration.{Formats, Settings, ConfigurationApi, ensure}

-- What is called on the queue.
pub data QueueCall : Type 0 where
  add : Text → QueueCall
  add_after : Text → ℕ → QueueCall
  add_rate_limited : Text → QueueCall
  forget : Text → QueueCall
  done : Text → QueueCall

-- The objects that are watched, and what is seen of them, by their names.
pub data Watched : Type 0 where
  secret_objects mutating_configurations validating_configurations : Watched

pub data WatchEvent : Type 0 where
  added : Text → WatchEvent
  updated : Text → Text → WatchEvent

-- `defaultResyncPeriod`, in seconds
abbrev pub default_resync_period : ℕ
default_resync_period = 60

module _ (env : Env) where
  -- The name that the handlers look for.
  unfoldable pub watched_name : Watched → Text
  watched_name secret_objects = get_secret_name env
  watched_name mutating_configurations = get_mutating_webhook_name env
  watched_name validating_configurations = get_validating_webhook_name env

  unfoldable pub add_if_watched : Watched → Text → List QueueCall
  unfolding watched_name
  add_if_watched kind name = if name == watched_name kind then add [] ∷ [] else []

  -- The handlers that `New` registers.
  unfoldable pub handle_event : Watched → WatchEvent → List QueueCall
  unfolding add_if_watched
  handle_event kind (added name) = add_if_watched kind name
  handle_event kind (updated old cur) = add_if_watched kind cur

  -- `dnsName` in `sync`
  unfoldable pub dns_name : Text
  dns_name =
      if is_empty (get_host env)
      then service_to_common_name (get_namespace env) (get_service_name env)
      else get_host env

  -- Whether the certificate is kept in the directory.
  unfoldable pub uses_directory : Bool
  uses_directory =
      get_cert_writer env == codes "fs"
      || is_empty (get_cert_writer env) && not (is_empty (get_host env))

  unfoldable pub secret_key : NamespacedName
  secret_key = record { namespace = get_namespace env; name = get_secret_name env }

  -- What `Ensure` reads, with the port that `GetPort` gives.
  unfoldable pub settings_for : ℤ → (Text → Bool) → Text → Settings
  settings_for port has_handler ca_bundle = record {
    host = get_host env;
    port = print_int port;
    namespace = get_namespace env;
    service_name = get_service_name env;
    has_handler = has_handler;
    ca_bundle = ca_bundle;
  }

-- Where the controller's calls go, the generator's state, and whether `uninit` is closed.
pub record SyncState (A : SecretApi) (C : ConfigurationApi) (G : CertGenerator) : Type 0 where
  pub secrets_state : A.State
  pub configurations : C.State
  pub volume : Volume
  pub generator : G.State
  pub is_inited : Bool

-- The calls go to a generator `G`, which `setDefaults` makes anew by `reset`.
module _ (F : Formats) (K : Crypto) (G : CertGenerator) (reset : G.State → G.State) (A : SecretApi)
    (C : ConfigurationApi) (new_dir : Volume → Text) (env : Env) (port : ℤ)
    (has_handler : Text → Bool) where
  abbrev pub State : Type 0
  State = SyncState A C G

  abbrev pub dir_ensured :
      State → Ensured (DirectoryState G new_dir) → Reply CertError Artifacts × State
  dir_ensured s ((r, changed), (vol, g)) = (r, record s { volume = vol; generator = g })

  abbrev pub secret_ensured : State → Ensured (WriterState A G) → Reply CertError Artifacts × State
  secret_ensured s ((r, changed), (u, g)) = (r, record s { secrets_state = u; generator = g })

  -- The writer that was made, or why there is none.
  abbrev pub ensure_in_dir : State → Reply CertError Text → Reply CertError Artifacts × State
  ensure_in_dir s (failure e) = (failure e, s)
  ensure_in_dir s (success path) =
      dir_ensured s (ensure_cert_in_dir G new_dir (dns_name env) K (s.volume, reset s.generator))

  abbrev pub ensure_in_secret :
      State → Reply CertError NamespacedName → Reply CertError Artifacts × State
  ensure_in_secret s (failure e) = (failure e, s)
  ensure_in_secret s (success sec) =
      secret_ensured s (ensure_cert A G sec (dns_name env) K (s.secrets_state, reset s.generator))

  -- The certificate, from the writer that the environment asks for.
  unfoldable pub ensure_certs : State → Reply CertError Artifacts × State
  ensure_certs s =
      if uses_directory env
      then ensure_in_dir s (new_fs_cert_writer (get_cert_dir env))
      else ensure_in_secret s (new_secret_cert_writer true (some (secret_key env)))

  abbrev pub configured : State → Result Text (Unit {0}) × C.State → Result Text (Unit {0}) × State
  configured s (ok _, c) = (ok tt, record s { configurations = c; is_inited = true })
  configured s (err e, c) =
      (err (codes "failed to ensure configuration"), record s { configurations = c })
  configured s (panic, c) = (panic, record s { configurations = c })

  abbrev pub settings_with : Artifacts → Settings
  settings_with certs = settings_for env port has_handler (bytes_of certs.ca_cert)

  abbrev pub files_written :
      Artifacts → State → Reply Text (Unit {0}) × Volume → Result Text (Unit {0}) × State
  files_written certs s (failure e, vol) =
      (err (codes "failed to write certs to dir"), record s { volume = vol })
  files_written certs s (success _, vol) =
      configured (record s { volume = vol }) (ensure F C (settings_with certs) s.configurations)

  unfoldable pub certs_ensured : Reply CertError Artifacts × State → Result Text (Unit {0}) × State
  certs_ensured (failure e, s) = (err (codes "failed to ensure certs"), s)
  certs_ensured (success certs, s) =
      files_written certs s (write_certs_to_dir G new_dir certs s.volume)

  -- `sync`
  unfoldable pub sync : State → Result Text (Unit {0}) × State
  unfolding ensure_certs certs_ensured
  sync s = certs_ensured (ensure_certs s)

  -- What `processNextWorkItem` calls on the queue, by what `sync` returned. A panic is passed on
  -- once the key is done.
  abbrev pub requeue : Text → Result Text (Unit {0}) → Result Text Bool × List QueueCall
  requeue key (ok _) = (ok true, add_after key default_resync_period ∷ forget key ∷ done key ∷ [])
  requeue key (err e) = (ok true, add_rate_limited key ∷ done key ∷ [])
  requeue key panic = (panic, done key ∷ [])

  -- `processNextWorkItem`, with the key that the queue gives; `none` where it shuts down
  unfoldable pub process_next_work_item :
      Option Text → State → (Result Text Bool × List QueueCall) × State
  unfolding sync
  process_next_work_item none s = ((ok false, []), s)
  process_next_work_item (some key) s = let r = sync s in (requeue key r.0, r.1)

  -- What the loop does after a round: another one, unless the queue shuts down or the round panics.
  abbrev pub go_on :
      (Result Text Bool × List QueueCall) × State
      → (State → (Result Text (Unit {0}) × List QueueCall) × State)
      → (Result Text (Unit {0}) × List QueueCall) × State
  go_on ((ok true, calls), s) rest = let r = rest s in ((r.0.0, calls ++ r.0.1), r.1)
  go_on ((ok false, calls), s) rest = ((ok tt, calls), s)
  go_on ((err e, calls), s) rest = ((err e, calls), s)
  go_on ((panic, calls), s) rest = ((panic, calls), s)

  -- The worker's loop in `Start`, by what the queue gives, until it waits for more
  unfoldable pub work :
      List (Option Text) → State → (Result Text (Unit {0}) × List QueueCall) × State
  unfolding process_next_work_item
  work [] s = ((ok tt, []), s)
  work (item ∷ items) s = go_on (process_next_work_item item s) (work items)
