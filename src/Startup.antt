-- ===== src/Startup.antt =====
-- The start of the program: cmd/main.go, with Initialize and WaitReady (internal/webhook/server.go)
-- and SetupWithManager of the controller
-- (internal/controller/apps/persistentpodstate_controller.go).
pub mod Laws
use persistent_pod_state.Base.{
  ℕ, Text, codes, if◌then◌else◌, Bool, true, false, not, Option, none, some, List, [], ◌∷◌, ◌++◌,
  Reply, success, failure, and_then, Result, ok, err, panic, ◌≡◌,
}
use persistent_pod_state.Base.Int.{ℤ}
use persistent_pod_state.Environment.{Env, get_cert_dir}
use persistent_pod_state.Features.{PersistenceConfig, default_config, set_persistence_config}
use persistent_pod_state.Health.{HealthState, new_state, FirstCheck, Http, check_ready}

-- The flags, as they were parsed.
pub record Flags : Type 0 where
  pub metrics_addr : Text
  pub probe_addr : Text
  pub enable_leader_election : Bool
  pub secure_metrics : Bool
  pub enable_http2 : Bool
  pub enable_vmi_persistence : Bool
  pub enable_stateful_set_persistence : Bool

-- The options of the manager. `next_protos` is what the TLS configuration is limited to.
pub record ManagerOptions : Type 0 where
  pub metrics_addr : Text
  pub secure_serving : Bool
  pub next_protos : Option (List Text)
  pub has_filter_provider : Bool
  pub host : Text
  pub port : ℤ
  pub cert_dir : Text
  pub probe_addr : Text
  pub leader_election : Bool
  pub leader_election_id : Text

-- The port is what `GetPort` returns.
unfoldable pub manager_options : Flags → Env → ℤ → ManagerOptions
manager_options flags env port = record {
  metrics_addr = flags.metrics_addr;
  secure_serving = flags.secure_metrics;
  next_protos = if not flags.enable_http2 then some (codes "http/1.1" ∷ []) else none;
  has_filter_provider = flags.secure_metrics;
  host = codes "0.0.0.0";
  port = port;
  cert_dir = get_cert_dir env;
  probe_addr = flags.probe_addr;
  leader_election = flags.enable_leader_election;
  leader_election_id = codes "5d820af4.clay.io";
}

-- What the controller is told of.
pub data Kind : Type 0 where
  pod_states vmis stateful_sets : Kind

-- The kinds that the builder has at the end of `SetupWithManager`
unfoldable pub watched_kinds : PersistenceConfig → List Kind
watched_kinds cfg =
    pod_states
    ∷ ((if cfg.enable_vmi_persistence then vmis ∷ [] else [])
        ++ (if cfg.enable_stateful_set_persistence then stateful_sets ∷ [] else []))

-- `SetupWithManager`, with what `AddToScheme` and `Complete` return
unfoldable pub setup_controller :
    Reply Text (Unit {0})
    → (List Kind → Reply Text (Unit {0}))
    → PersistenceConfig
    → Reply Text (List Kind)
unfolding watched_kinds
setup_controller (failure e) complete cfg =
    failure (codes "unable to add Calico APIs to scheme: " ++ e)
setup_controller (success _) complete cfg =
    and_then (complete (watched_kinds cfg)) λ _. success (watched_kinds cfg)

-- Before which call `main` stands. In `awaiting` it is in the select of `Initialize`, in `running`
-- in `mgr.Start`.
pub data Phase : Type 0 where
  creating_manager registering adding_routes initializing awaiting adding_health adding_ready
        configuring launching running :
      Phase

-- The goroutine that `main` starts: not yet there, in `WaitReady`, before `SetupWithManager`, done.
pub data Waiter : Type 0 where
  unborn waiting setting_up done : Waiter

-- The process, with the variables of its packages.
pub record Process : Type 0 where
  pub main : Phase
  pub waiter : Waiter
  pub options : Option ManagerOptions
  pub is_registered : Bool  -- `cfg` of pkg/client is set
  pub has_routes : Bool
  pub is_syncing : Bool  -- the webhook controller runs
  pub is_inited : Bool  -- its channel is closed
  pub health : HealthState
  pub checks : List Text
  pub config : PersistenceConfig  -- `GlobalConfig`
  pub watched : Option (List Kind)
  pub exit : Option ℕ

abbrev pub new_process : Process
new_process = record {
  main = creating_manager;
  waiter = unborn;
  options = none;
  is_registered = false;
  has_routes = false;
  is_syncing = false;
  is_inited = false;
  health = new_state;
  checks = [];
  config = default_config;
  watched = none;
  exit = none;
}

-- The calls whose error makes `main` exit.
abbrev pub can_fail : Phase → Bool
can_fail creating_manager = true
can_fail registering = true
can_fail adding_routes = false
can_fail initializing = false
can_fail awaiting = false
can_fail adding_health = true
can_fail adding_ready = true
can_fail configuring = false
can_fail launching = false
can_fail running = true

-- The cases of the select in `Initialize`: the channel is closed, or 20 seconds are over.
pub data Case : Type 0 where
  closed timed_out : Case

-- Which case may be chosen.
abbrev pub is_chosen : Case → Bool → Bool
is_chosen closed is_inited = is_inited
is_chosen timed_out is_inited = true

-- What `Initialize` returns.
unfoldable pub initialize_reply : Case → Reply Text (Unit {0})
initialize_reply closed = success tt
initialize_reply timed_out =
    failure (codes "failed to start webhook controller for waiting more than 20s")

unfoldable pub after_initialize : Reply Text (Unit {0}) → Process → Process
after_initialize (success _) s = record s { main = adding_health }
after_initialize (failure e) s = record s { exit = some 1 }

-- A round of the loop in `WaitReady`: it returns, or goes on after two seconds. A panic in the
-- goroutine ends the process.
unfoldable pub after_check : Result Text (Unit {0}) × HealthState → Process → Process
after_check (ok _, h) s = record s { waiter = setting_up; health = h }
after_check (err e, h) s = record s { health = h }
after_check (panic, h) s = record s { health = h; exit = some 2 }

module _ (flags : Flags) (env : Env) (port : ℤ) (H : Http) where
  -- One step of `main`, of the goroutine, of the webhook controller or of a probe of the readiness.
  pub data Step (s : Process) : Process → Type 0 where
    manager_created :
        s.main ≡ creating_manager
        → Step s (record s { main = registering; options = some (manager_options flags env port) })
    registered :
        s.main ≡ registering → Step s (record s { main = adding_routes; is_registered = true })
    routes_added :
        s.main ≡ adding_routes → Step s (record s { main = initializing; has_routes = true })
    -- `Register` panics at a path that is taken.
    routes_panicked : s.main ≡ adding_routes → Step s (record s { exit = some 2 })
    -- `New` takes the client of the registry, which is nil where there is none.
    controller_started :
        s.main ≡ initializing
        → s.is_registered ≡ true
        → Step s (record s { main = awaiting; is_syncing = true })
    -- There is none, or it cannot be made of the configuration.
    controller_panicked : s.main ≡ initializing → Step s (record s { exit = some 2 })
    -- A run of the webhook controller panics.
    sync_panicked : s.is_syncing ≡ true → Step s (record s { exit = some 2 })
    synced : s.is_syncing ≡ true → Step s (record s { is_inited = true })
    initialized :
        (c : Case)
        → s.main ≡ awaiting
        → is_chosen c s.is_inited ≡ true
        → Step s (after_initialize (initialize_reply c) s)
    health_added :
        s.main ≡ adding_health
        → Step s (record s { main = adding_ready; checks = codes "healthz" ∷ s.checks })
    ready_added :
        s.main ≡ adding_ready
        → Step s (record s { main = configuring; checks = codes "webhook-ready" ∷ s.checks })
    configured :
        s.main ≡ configuring
        → Step s (record s {
          main = launching;
          config =
              set_persistence_config flags.enable_vmi_persistence
                flags.enable_stateful_set_persistence s.config;
        })
    launched : s.main ≡ launching → Step s (record s { main = running; waiter = waiting })
    -- A call of `main` has returned an error.
    gave_up : can_fail s.main ≡ true → Step s (record s { exit = some 1 })
    stopped : s.main ≡ running → Step s (record s { exit = some 0 })
    -- One round of `WaitReady`, by what the check returned.
    checked :
        (first : FirstCheck)
        → s.waiter ≡ waiting
        → Step s (after_check (check_ready H port s.is_inited first s.health) s)
    controllers_set :
        (added : Reply Text (Unit {0})) (complete : List Kind → Reply Text (Unit {0}))
        (kinds : List Kind)
        → s.waiter ≡ setting_up
        → setup_controller added complete s.config ≡ success kinds
        → Step s (record s { waiter = done; watched = some kinds })
    controllers_failed :
        (added : Reply Text (Unit {0})) (complete : List Kind → Reply Text (Unit {0})) (e : Text)
        → s.waiter ≡ setting_up
        → setup_controller added complete s.config ≡ failure e
        → Step s (record s { exit = some 1 })
    -- A run of `Reconcile` panics.
    reconcile_panicked :
        (kinds : List Kind) → s.watched ≡ some kinds → Step s (record s { exit = some 2 })
    -- A probe, while the manager serves; net/http recovers from a panic.
    probed :
        (first : FirstCheck)
        → s.main ≡ running
        → Step s (record s { health = (check_ready H port s.is_inited first s.health).1 })

  -- Steps in any order, until the process exits.
  pub data Reach : Process → Type 0 where
    here : Reach new_process
    next : {s t : Process} → Reach s → s.exit ≡ none → Step s t → Reach t
