-- ===== src/Health.antt =====
-- internal/webhook/util/health/checker.go, and the readiness check that calls it
-- (internal/webhook/server.go). What is read of the file of the authority's certificate, and what
-- fsnotify and net/http answer, are arguments.
pub mod Laws
use persistent_pod_state.Base.{
  Text, codes, if◌then◌else◌, Bool, true, false, ◌||◌, Option, none, some, List, [], ◌∷◌, ◌++◌,
  Reply, success, failure, Result, ok, err, panic,
}
use persistent_pod_state.Base.Int.{ℤ}
use persistent_pod_state.Base.Decimal.{print_int}

-- `onceWatch`, and `client` with the certificates that it trusts; nil is `none`.
pub record HealthState : Type 0 where
  pub is_done : Bool
  pub client : Option Text
  pub is_watching : Bool

-- The variables as the program starts.
abbrev pub new_state : HealthState
new_state = record { is_done = false; client = none; is_watching = false }

-- `fsnotify.Op`, by the bits that are looked at
pub record Op : Type 0 where
  pub has_write : Bool
  pub has_create : Bool
  pub has_remove : Bool

-- What comes on the watcher's channels. With an event: whether the file can be watched again, and
-- what is read of it. `closed` is either channel.
pub data WatchMessage : Type 0 where
  event : Op → Reply Text (Unit {0}) → Reply Text Text → WatchMessage
  watch_error : Text → WatchMessage
  closed : WatchMessage

-- `loadHTTPClientWithCACert`
unfoldable pub load_http_client :
    Reply Text Text → HealthState → Reply Text (Unit {0}) × HealthState
load_http_client (failure e) s = (failure e, s)
load_http_client (success ca_cert) s = (success tt, record s { client = some ca_cert })

abbrev pub is_success : Reply Text (Unit {0}) → Bool
is_success (success _) = true
is_success (failure e) = false

-- The watch is gone with the file, and set again.
abbrev pub watched_again : Op → Reply Text (Unit {0}) → HealthState → HealthState
watched_again op readded s =
    if op.has_remove then record s { is_watching = is_success readded } else s

-- One event. A failure is only logged.
unfoldable pub handle_watch_event :
    Op → Reply Text (Unit {0}) → Reply Text Text → HealthState → HealthState
unfolding load_http_client
handle_watch_event op readded file s =
    if op.has_write || op.has_remove || op.has_create
    then (load_http_client file (watched_again op readded s)).1
    else s

-- `watchCACert`
unfoldable pub watch_ca_cert : List WatchMessage → HealthState → HealthState
unfolding handle_watch_event
watch_ca_cert [] s = s
watch_ca_cert (event op readded file ∷ messages) s =
    watch_ca_cert messages (handle_watch_event op readded file s)
watch_ca_cert (watch_error e ∷ messages) s = watch_ca_cert messages s
watch_ca_cert (closed ∷ messages) s = record s { is_watching = false }

-- What the first check meets: the file, `fsnotify.NewWatcher` and its `Add`.
pub record FirstCheck : Type 0 where
  pub file : Reply Text Text
  pub watcher : Reply Text (Unit {0})
  pub watching : Reply Text (Unit {0})

-- After the file was read.
abbrev pub watch_first :
    Reply Text (Unit {0})
    → Reply Text (Unit {0})
    → HealthState
    → Result Text (Unit {0}) × HealthState
watch_first (failure e) watching s = (panic, s)
watch_first (success _) (failure e) s = (panic, s)
watch_first (success _) (success _) s = (ok tt, record s { is_watching = true })

abbrev pub loaded_first :
    FirstCheck → Reply Text (Unit {0}) × HealthState → Result Text (Unit {0}) × HealthState
loaded_first first (failure e, s) = (panic, s)
loaded_first first (success _, s) = watch_first first.watcher first.watching s

-- The function that `onceWatch.Do` runs; `sync.Once` takes it as done also where it panics.
unfoldable pub do_once : FirstCheck → HealthState → Result Text (Unit {0}) × HealthState
unfolding load_http_client
do_once first s =
    if s.is_done
    then (ok tt, s)
    else loaded_first first (load_http_client first.file (record s { is_done = true }))

-- `http.NewRequest` for the URL, and `Do` of a client that trusts the certificates
pub record Http : Type 0 where
  pub new_request : Text → Reply Text (Unit {0})
  pub send : Text → Text → Reply Text (Unit {0})

module _ (H : Http) (port : ℤ) where
  abbrev pub probe_url : Text
  probe_url = codes "https://localhost:" ++ (print_int port ++ codes "/healthz")

  abbrev pub sent : Reply Text (Unit {0}) → Result Text (Unit {0})
  sent (success _) = ok tt
  sent (failure e) = err e

  -- A nil client panics.
  abbrev pub send_by : Option Text → Result Text (Unit {0})
  send_by none = panic
  send_by (some ca_cert) = sent (H.send ca_cert probe_url)

  abbrev pub requested : Option Text → Reply Text (Unit {0}) → Result Text (Unit {0})
  requested client (failure e) = err e
  requested client (success _) = send_by client

  unfoldable pub ask : HealthState → Result Text (Unit {0})
  ask s = requested s.client (H.new_request probe_url)

  abbrev pub asked : Result Text (Unit {0}) × HealthState → Result Text (Unit {0}) × HealthState
  asked (ok _, s) = (ask s, s)
  asked (err e, s) = (err e, s)
  asked (panic, s) = (panic, s)

  -- `health.Checker`
  unfoldable pub check_health : FirstCheck → HealthState → Result Text (Unit {0}) × HealthState
  unfolding do_once ask
  check_health first s = asked (do_once first s)

  -- `webhook.Checker`, with whether the webhook controller's channel is closed
  unfoldable pub check_ready :
      Bool → FirstCheck → HealthState → Result Text (Unit {0}) × HealthState
  unfolding check_health
  check_ready is_inited first s =
      if is_inited
      then check_health first s
      else (err (codes "webhook controller has not initialized"), s)
