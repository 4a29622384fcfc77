-- ===== src/Startup/Laws.antt =====
-- What holds at every moment of the start.
use persistent_pod_state.Base.{
  ℕ, ◌≤◌, Text, codes, Bool, true, false, some, List, [], ◌∷◌, Reply, success, Result, ok, err,
  panic, ◌≡◌, ◌≢◌, refl, ap, arith, if◌then◌else◌, suc, Bool-cases, inl, inr, subst, sym,
}
use persistent_pod_state.Base.Int.{ℤ}
use persistent_pod_state.Environment.{Env}
use persistent_pod_state.Features.{PersistenceConfig}
use persistent_pod_state.Health.{HealthState, Http}
use persistent_pod_state.Startup.{
  Flags, Kind, watched_kinds, setup_controller, Phase, creating_manager, registering, adding_routes,
  initializing, awaiting, adding_health, adding_ready, configuring, launching, running, Waiter,
  unborn, waiting, setting_up, done, Process, new_process, Step, manager_created, registered,
  routes_added, routes_panicked, controller_started, controller_panicked, sync_panicked, synced,
  initialized, health_added, ready_added, configured, launched, gave_up, stopped, checked, Case,
  closed, timed_out, is_chosen, initialize_reply, after_initialize, after_check, controllers_set,
  controllers_failed, reconcile_panicked, probed, Reach, here, next, pod_states, vmis,
  stateful_sets,
}

-- How far `main` has come.
abbrev rank : Phase → ℕ
rank creating_manager = 0
rank registering = 1
rank adding_routes = 2
rank initializing = 3
rank awaiting = 4
rank adding_health = 5
rank adding_ready = 6
rank configuring = 7
rank launching = 8
rank running = 9

-- What the flags ask for.
abbrev pub asked_config : Flags → PersistenceConfig
asked_config flags = record {
  enable_vmi_persistence = flags.enable_vmi_persistence;
  enable_stateful_set_persistence = flags.enable_stateful_set_persistence;
}

-- The goroutine is past its first checks.
abbrev is_past : Waiter → Bool
is_past unborn = false
is_past waiting = false
is_past setting_up = true
is_past done = true

-- What has been done by the time that `main` has come so far.
record IsOrdered (flags : Flags) (s : Process) : Type 0 where
  has_registry : 2 ≤ rank s.main → s.is_registered ≡ true
  has_server : 3 ≤ rank s.main → s.has_routes ≡ true
  has_synced : 5 ≤ rank s.main → s.is_inited ≡ true
  no_ready : rank s.main ≤ 5 → s.checks ≡ []
  one_ready : rank s.main ≡ 6 → s.checks ≡ codes "healthz" ∷ []
  both_ready : 7 ≤ rank s.main → s.checks ≡ codes "webhook-ready" ∷ codes "healthz" ∷ []
  has_config : 8 ≤ rank s.main → s.config ≡ asked_config flags
  has_run : s.waiter ≢ unborn → s.main ≡ running
  has_watches :
      (kinds : List Kind)
      → s.watched ≡ some kinds
      → (kinds ≡ watched_kinds (asked_config flags)) × (s.main ≡ running)

setup_controller_kinds :
    (added : Reply Text (Unit {0})) (complete : List Kind → Reply Text (Unit {0}))
    (cfg : PersistenceConfig) (kinds : List Kind)
    → setup_controller added complete cfg ≡ success kinds
    → kinds ≡ watched_kinds cfg
unfolding setup_controller
setup_controller_kinds added complete cfg kinds h = ground arith

-- The kinds are those of the configuration, which is by then the one of the flags.
IsOrdered-watched :
    {flags : Flags} {s : Process} {kinds : List Kind}
    → IsOrdered flags s
    → s.main ≡ running
    → kinds ≡ watched_kinds s.config
    → IsOrdered flags (record s { waiter = done; watched = some kinds })
IsOrdered-watched {flags = flags} {s = s} h run same =
    let config : s.config ≡ asked_config flags = h.has_config (ground arith) in
    record {
      has_registry = h.has_registry;
      has_server = h.has_server;
      has_synced = h.has_synced;
      no_ready = h.no_ready;
      one_ready = h.one_ready;
      both_ready = h.both_ready;
      has_config = h.has_config;
      has_run = λ n. run;
      has_watches = λ ks e. (ground (arith, ap watched_kinds config), run);
    }

after_check-IsOrdered :
    {flags : Flags} {s : Process} (r : Result Text (Unit {0}) × HealthState)
    → IsOrdered flags s
    → s.waiter ≡ waiting
    → IsOrdered flags (after_check r s)
unfolding after_check
after_check-IsOrdered (ok _, g) h w = ground arith
after_check-IsOrdered (err e, g) h w = ground arith
after_check-IsOrdered (panic, g) h w = ground arith

after_initialize-IsOrdered :
    {flags : Flags} {s : Process} (c : Case)
    → IsOrdered flags s
    → s.main ≡ awaiting
    → is_chosen c s.is_inited ≡ true
    → IsOrdered flags (after_initialize (initialize_reply c) s)
unfolding after_initialize initialize_reply
after_initialize-IsOrdered closed h e i = ground arith
after_initialize-IsOrdered timed_out h e i = ground arith

-- How often the kind is in the list.
abbrev is_kind : Kind → Kind → Bool
is_kind pod_states pod_states = true
is_kind vmis vmis = true
is_kind stateful_sets stateful_sets = true
is_kind pod_states vmis = false
is_kind pod_states stateful_sets = false
is_kind vmis pod_states = false
is_kind vmis stateful_sets = false
is_kind stateful_sets pod_states = false
is_kind stateful_sets vmis = false

abbrev pub times : Kind → List Kind → ℕ
times k [] = 0
times k (kind ∷ kinds) = if is_kind k kind then suc (times k kinds) else times k kinds

-- Once, or not at all.
abbrev pub once_if : Bool → ℕ
once_if true = 1
once_if false = 0

-- The kinds are those that the flags ask for, each of them once.
pub record AreAsked (flags : Flags) (kinds : List Kind) : Type 0 where
  pub objects : times pod_states kinds ≡ 1
  pub machines : times vmis kinds ≡ once_if flags.enable_vmi_persistence
  pub sets : times stateful_sets kinds ≡ once_if flags.enable_stateful_set_persistence

watched_kinds-AreAsked : (flags : Flags) → AreAsked flags (watched_kinds (asked_config flags))
unfolding watched_kinds
watched_kinds-AreAsked flags = elim (Bool-cases flags.enable_vmi_persistence) [
  | inl e ↦ elim (Bool-cases flags.enable_stateful_set_persistence) [
    | inl e2 ↦ rw (e, e2) (record { objects = refl; machines = refl; sets = refl })
    | inr e2 ↦ rw (e, e2) (record { objects = refl; machines = refl; sets = refl })
  ]
  | inr e ↦ elim (Bool-cases flags.enable_stateful_set_persistence) [
    | inl e2 ↦ rw (e, e2) (record { objects = refl; machines = refl; sets = refl })
    | inr e2 ↦ rw (e, e2) (record { objects = refl; machines = refl; sets = refl })
  ]
]

module _ (flags : Flags) (env : Env) (port : ℤ) (H : Http) where
  Step-IsOrdered :
      {s t : Process} → IsOrdered flags s → Step flags env port H s t → IsOrdered flags t
  Step-IsOrdered h (manager_created e) = ground arith
  Step-IsOrdered h (registered e) = ground arith
  Step-IsOrdered h (routes_added e) = ground arith
  Step-IsOrdered h (controller_started e r) = ground arith
  Step-IsOrdered h (routes_panicked e) = ground arith
  Step-IsOrdered h (controller_panicked e) = ground arith
  Step-IsOrdered h (sync_panicked e) = ground arith
  Step-IsOrdered h (synced e) = ground arith
  Step-IsOrdered h (initialized c e i) = after_initialize-IsOrdered c h e i
  Step-IsOrdered h (health_added e) = ground arith
  Step-IsOrdered h (ready_added e) = ground arith
  Step-IsOrdered h (configured e) = ground arith
  Step-IsOrdered h (launched e) = ground arith
  Step-IsOrdered h (gave_up e) = ground arith
  Step-IsOrdered h (stopped e) = ground arith
  Step-IsOrdered h (checked first w) = after_check-IsOrdered _ h w
  Step-IsOrdered h (controllers_set added complete kinds w e) =
      IsOrdered-watched h (h.has_run (ground arith))
        (setup_controller_kinds added complete _ kinds e)
  Step-IsOrdered h (controllers_failed added complete e w r) = ground arith
  Step-IsOrdered h (reconcile_panicked kinds e) = ground arith
  Step-IsOrdered h (probed first e) = ground arith

  new_process-IsOrdered : IsOrdered flags new_process
  new_process-IsOrdered = ground arith

  Reach-IsOrdered : {s : Process} → Reach flags env port H s → IsOrdered flags s
  Reach-IsOrdered here = new_process-IsOrdered
  Reach-IsOrdered (next r e st) = Step-IsOrdered (Reach-IsOrdered r) st

  -- What is ready before the manager runs.
  pub record IsReady (s : Process) : Type 0 where
    pub has_client : s.is_registered ≡ true
    pub serves : s.has_routes ≡ true
    pub is_synced : s.is_inited ≡ true
    pub has_checks : s.checks ≡ codes "webhook-ready" ∷ codes "healthz" ∷ []
    pub has_config : s.config ≡ asked_config flags

  -- However the steps mix and whatever the calls return: when the manager runs, the clients are
  -- registered, the routes are there, the channel of the webhook controller is closed, both checks
  -- are added, and the configuration is the one of the flags.
  pub Reach-IsReady : {s : Process} → Reach flags env port H s → s.main ≡ running → IsReady s
  Reach-IsReady r e =
      let h = Reach-IsOrdered r in
      record {
        has_client = h.has_registry (ground arith);
        serves = h.has_server (ground arith);
        is_synced = h.has_synced (ground arith);
        has_checks = h.both_ready (ground arith);
        has_config = h.has_config (ground arith);
      }

  -- However the steps of main, of the goroutine that waits, of the webhook controller and of
  -- probes mix, and whatever the calls return: once the controller is set up, the manager runs,
  -- PersistentPodStates are watched once, VMIs once if their flag is set and not at all otherwise,
  -- and likewise StatefulSets.
  pub Reach-watched :
      {s : Process} (kinds : List Kind)
      → Reach flags env port H s
      → s.watched ≡ some kinds
      → AreAsked flags kinds × (s.main ≡ running)
  Reach-watched kinds r e =
      let (same, run) = (Reach-IsOrdered r).has_watches kinds e in
      (subst (AreAsked flags) (sym same) (watched_kinds-AreAsked flags), run)
