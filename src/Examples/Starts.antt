-- ===== src/Examples/Starts.antt =====
-- A start in which all goes well, with VMIs switched off, and one whose first check panics.
use persistent_pod_state.Clients.Laws.{IgnoresUserAgent, get_generic_client_with_name-new_registry}
use persistent_pod_state.Clients.{
  RestConfig, Constructors, GenericClientset, Registry, new_registry_state, new_for_config,
  new_registry, get_generic_client_with_name,
}
use persistent_pod_state.Base.{
  codes, true, false, none, some, [], ◌∷◌, success, ok, ◌≡◌, refl, subst, Text,
}
use persistent_pod_state.Base.Int.{pos}
use persistent_pod_state.Environment.{Env}
use persistent_pod_state.Health.{
  HealthState, new_state, load_http_client, do_once, ask, check_health, check_ready,
}
use persistent_pod_state.Startup.{
  Flags, pod_states, stateful_sets, setup_controller, running, waiting, setting_up, done, Process,
  manager_created, registered, routes_added, controller_started, synced, initialized, health_added,
  ready_added, configured, launched, checked, closed, after_check, after_initialize,
  initialize_reply, controllers_set, Reach, here, next, manager_options,
}
use persistent_pod_state.Startup.Laws.{
  asked_config, IsReady, Reach-IsReady, Reach-watched, AreAsked,
}
use persistent_pod_state.Examples.Probes.{http, found}

abbrev flags : Flags
flags = record {
  metrics_addr = codes "0";
  probe_addr = codes ":8081";
  enable_leader_election = false;
  secure_metrics = true;
  enable_http2 = false;
  enable_vmi_persistence = false;
  enable_stateful_set_persistence = true;
}

abbrev env : Env
env variable = []

-- The state at the start of the manager, when the goroutine begins to wait.
abbrev started : Process
started = record {
  main = running;
  waiter = waiting;
  options = some (manager_options flags env (pos 9876));
  is_registered = true;
  has_routes = true;
  is_syncing = true;
  is_inited = true;
  health = new_state;
  checks = codes "webhook-ready" ∷ codes "healthz" ∷ [];
  config = asked_config flags;
  watched = none;
  exit = none;
}

-- `main`, and the first run of the webhook controller, which it waits for.
has_started : Reach flags env (pos 9876) http started
unfolding after_initialize initialize_reply
has_started =
    next
      (next
        (next
          (next
            (next
              (next
                (next
                  (next (next (next here refl (manager_created refl)) refl (registered refl)) refl
                    (routes_added refl))
                  refl (controller_started refl refl))
                refl (synced refl))
              refl (initialized closed refl refl))
            refl (health_added refl))
          refl (ready_added refl))
        refl (configured refl))
      refl (launched refl)

abbrev watching : HealthState
watching = record { is_done = true; client = some (codes "ca"); is_watching = true }

check_fine : check_ready http (pos 9876) true found new_state ≡ (ok tt, watching)
unfolding check_ready check_health do_once load_http_client ask
check_fine = refl

kinds_set :
    setup_controller (success tt) (λ kinds. success tt) (asked_config flags)
    ≡ success (pod_states ∷ stateful_sets ∷ [])
unfolding setup_controller
kinds_set = refl

abbrev at_work : Process
at_work = record started {
  waiter = done;
  health = watching;
  watched = some (pod_states ∷ stateful_sets ∷ []);
}

has_checked :
    Reach flags env (pos 9876) http (record started { waiter = setting_up; health = watching })
unfolding after_check
has_checked =
    subst (λ r. Reach flags env (pos 9876) http (after_check r started)) check_fine
      (next has_started refl (checked found refl))

works : Reach flags env (pos 9876) http at_work
works = next has_checked refl (
    controllers_set (success tt) (λ kinds. success tt) (pod_states ∷ stateful_sets ∷ []) refl
      kinds_set)

Reach-IsReady_example : IsReady flags env (pos 9876) http started
Reach-IsReady_example = Reach-IsReady flags env (pos 9876) http has_started refl

Reach-watched_example : AreAsked flags (pod_states ∷ stateful_sets ∷ []) × (at_work.main ≡ running)
Reach-watched_example =
    Reach-watched flags env (pos 9876) http (pod_states ∷ stateful_sets ∷ []) works refl

-- Clients that are the names they give themselves.
abbrev constructors : Constructors
constructors = record {
  Rest = Text;
  DiscoveryClient = Text;
  KubeClient = Text;
  KruiseClient = Text;
  new_discovery_client = λ c. success c.user_agent;
  new_kube_client = λ c. success c.user_agent;
  new_kruise_client = λ c. success c.user_agent;
}

constructors-IgnoresUserAgent : IgnoresUserAgent constructors
constructors-IgnoresUserAgent = record {
  discovery = λ c name d e. (name, refl);
  kube = λ c name k e. (name, refl);
  kruise = λ c name x e. (name, refl);
}

abbrev cluster : RestConfig Text
cluster = record { user_agent = codes "manager"; content_type = []; rest = codes "https://api" }

abbrev registry : Registry constructors
registry = (new_registry constructors cluster (new_registry_state constructors)).1

registry_made :
    new_registry constructors cluster (new_registry_state constructors) ≡ (success tt, registry)
unfolding new_registry new_for_config
registry_made = refl

get_generic_client_with_name-new_registry_example :
    (gc : GenericClientset constructors) × (get_generic_client_with_name constructors
        (codes "webhook-controller")
        registry
      ≡ ok (some gc))
    × (new_for_config constructors
          (record cluster { user_agent = codes "manager/webhook-controller" })
        ≡ success gc)
get_generic_client_with_name-new_registry_example =
    get_generic_client_with_name-new_registry constructors constructors-IgnoresUserAgent cluster
      (codes "webhook-controller") (new_registry_state constructors) registry registry_made
