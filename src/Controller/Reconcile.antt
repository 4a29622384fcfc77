-- ===== src/Controller/Reconcile.antt =====
-- `Reconcile` (internal/controller/apps/persistentpodstate_controller.go): it dispatches a request
-- by its name.
pub mod Laws
use persistent_pod_state.Base.{
  Bool, Text, codes, if◌then◌else◌, List, [], ◌∷◌, ◌++◌, Reply, success, failure, Result, ok,
}
use persistent_pod_state.Base.Strings.{contains, split}
use persistent_pod_state.Api.{NamespacedName, VirtualMachineInstance, StatefulSet}
use persistent_pod_state.Features.{PersistenceConfig}
use persistent_pod_state.Cluster.{Client, ApiError}
use persistent_pod_state.Controller.Events.{generate_prefix, kind_vmi, kind_stateful_set}
use persistent_pod_state.Controller.Reservations.{Outcome}
use persistent_pod_state.Controller.Vmi.{vmi_auto_generate}
use persistent_pod_state.Controller.Sets.{set_auto_generate}

-- `AutoGeneratePersistentPodStatePrefix + "#" + kind`
unfoldable pub marker : Text → Text
marker kind = generate_prefix ++ (codes "#" ++ kind)

module _ (C : Client) where
  -- A VMI that is not found, or not read, is no error.
  unfoldable pub generate_found_vmi :
      Reply ApiError VirtualMachineInstance → C.State → Outcome C.State
  generate_found_vmi (failure e) s = (ok tt, s)
  generate_found_vmi (success vmi) s = vmi_auto_generate C vmi s

  unfoldable pub generate_found_set : Reply ApiError StatefulSet → C.State → Outcome C.State
  generate_found_set (failure e) s = (ok tt, s)
  generate_found_set (success sts) s = set_auto_generate C sts s

  -- The parts of `generate#{kind}#{name}`, by the number of them.
  unfoldable pub vmi_request : Text → List Text → C.State → Outcome C.State
  unfolding generate_found_vmi
  vmi_request ns (prefix ∷ kind ∷ name ∷ []) s =
      generate_found_vmi (C.get_vmi s (record { namespace = ns; name = name })) s
  vmi_request ns parts s = (ok tt, s)

  unfoldable pub set_request : Text → List Text → C.State → Outcome C.State
  unfolding generate_found_set
  set_request ns (prefix ∷ kind ∷ name ∷ []) s =
      generate_found_set (C.get_stateful_set s (record { namespace = ns; name = name })) s
  set_request ns parts s = (ok tt, s)

  -- A request that names an object itself: a VMI of that name comes first.
  unfoldable pub plain_set_request : PersistenceConfig → NamespacedName → C.State → Outcome C.State
  unfolding generate_found_set
  plain_set_request cfg req s =
      if cfg.enable_stateful_set_persistence
      then generate_found_set (C.get_stateful_set s req) s
      else (ok tt, s)

  unfoldable pub plain_request : PersistenceConfig → NamespacedName → C.State → Outcome C.State
  unfolding plain_set_request
  plain_request cfg req s =
      if cfg.enable_vmi_persistence
      then elim (C.get_vmi s req) [
        | success vmi ↦ vmi_auto_generate C vmi s
        | failure e ↦ plain_set_request cfg req s
      ]
      else plain_set_request cfg req s

  unfoldable pub reconcile : PersistenceConfig → NamespacedName → C.State → Outcome C.State
  unfolding plain_request vmi_request set_request marker
  reconcile cfg req s =
      if contains req.name (marker kind_vmi)
      then if cfg.enable_vmi_persistence
        then vmi_request req.namespace (split b'#' req.name) s
        else (ok tt, s)
      else if contains req.name (marker kind_stateful_set)
      then if cfg.enable_stateful_set_persistence
        then set_request req.namespace (split b'#' req.name) s
        else (ok tt, s)
      else plain_request cfg req s
