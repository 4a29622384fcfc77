-- ===== src/WebhookController/Work.antt =====
-- The worker of internal/webhook/util/controller/webhook_controller.go, round after round.
use persistent_pod_state.Base.{Text, Bool, List, [], ◌∷◌, ◌++◌, Option, some}
use persistent_pod_state.Base.Int.{ℤ}
use persistent_pod_state.Environment.{Env}
use persistent_pod_state.Atomic.Write.{Volume}
use persistent_pod_state.Certs.Writer.{Crypto}
use persistent_pod_state.Certs.SecretStore.{SecretApi, CertGenerator}
use persistent_pod_state.Configuration.{Formats, ConfigurationApi}
use persistent_pod_state.WebhookController.{
  QueueCall, add_after, forget, done, default_resync_period, SyncState,
}
use persistent_pod_state.WebhookController.Laws.{Serves}

-- The queue gives these keys.
abbrev pub given : List Text → List (Option Text)
given [] = []
given (key ∷ keys) = some key ∷ given keys

-- What is called on the queue for keys whose rounds succeed.
abbrev pub served_calls : List Text → List QueueCall
served_calls [] = []
served_calls (key ∷ keys) =
    (add_after key default_resync_period ∷ forget key ∷ done key ∷ []) ++ served_calls keys

module _ (F : Formats) (K : Crypto) (G : CertGenerator) (reset : G.State → G.State) (A : SecretApi)
    (C : ConfigurationApi) (new_dir : Volume → Text) (env : Env) (port : ℤ)
    (has_handler : Text → Bool) where
  -- A round that serves for each of the keys, one after another.
  pub data Rounds : List Text → SyncState A C G → SyncState A C G → Type 0 where
    none_left : (s : SyncState A C G) → Rounds [] s s
    served :
        {key : Text} {keys : List Text} {s s' : SyncState A C G}
        → (w : Serves F K G reset A C new_dir env port has_handler s) → Rounds keys w.after s'
        → Rounds (key ∷ keys) s s'
