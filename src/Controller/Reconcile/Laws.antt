-- ===== src/Controller/Reconcile/Laws.antt =====
-- How requests travel from the event handlers to `Reconcile`.
use persistent_pod_state.Base.{
  Text, Bool, true, false, [], ◌∷◌, ◌++◌, ◌≡◌, refl, ap, ◌∙◌, ok, arith, if◌then◌else◌, nat_eq,
}
use persistent_pod_state.Base.Strings.{
  Free, contains, split, split-append, split-Free, contains_not-Free,
}
use persistent_pod_state.Api.{NamespacedName, VirtualMachineInstance, StatefulSet}
use persistent_pod_state.Features.{PersistenceConfig}
use persistent_pod_state.Cluster.{Client}
use persistent_pod_state.Controller.Events.{
  Queue, Event, generate_prefix, kind_vmi, kind_stateful_set, queue_name, wants_state, enqueue_vmi,
  enqueue_stateful_set, handle_vmi_event, handle_stateful_set_event,
}
use persistent_pod_state.Controller.Reconcile.{
  marker, generate_found_vmi, generate_found_set, plain_request, reconcile,
}

not-Free : (kind : Text) → ¬ Free b'#' (marker kind)
unfolding marker
not-Free kind h = h.1.1.1.1.1.1.1.1.0 refl

-- The name of a request splits into the three parts that it was made of.
split-queue_name :
    (kind name : Text)
    → Free b'#' kind
    → Free b'#' name
    → split b'#' (queue_name kind name) ≡ generate_prefix ∷ kind ∷ name ∷ []
unfolding queue_name
split-queue_name kind name k n =
    split-append b'#' generate_prefix _ (omega arith)
    ∙ ap (λ r. generate_prefix ∷ r)
        (split-append b'#' kind name k ∙ ap (λ r. kind ∷ r) (split-Free b'#' name n))

contains-marker_vmi : (name : Text) → contains (queue_name kind_vmi name) (marker kind_vmi) ≡ true
unfolding contains queue_name marker nat_eq
contains-marker_vmi name = refl

contains-marker_set :
    (name : Text) → contains (queue_name kind_stateful_set name) (marker kind_stateful_set) ≡ true
unfolding contains queue_name marker nat_eq
contains-marker_set name = refl

contains-marker_skip :
    (name : Text)
    → contains (queue_name kind_stateful_set name) (marker kind_vmi)
      ≡ contains name (marker kind_vmi)
unfolding contains queue_name marker nat_eq
contains-marker_skip name = refl

-- The request for a StatefulSet is not taken for one for a VMI.
contains-marker_other :
    (name : Text)
    → Free b'#' name
    → contains (queue_name kind_stateful_set name) (marker kind_vmi) ≡ false
contains-marker_other name n =
    contains-marker_skip name ∙ contains_not-Free b'#' name (marker kind_vmi) n (not-Free kind_vmi)

-- The key of an object.
abbrev key : Text → Text → NamespacedName
key namespace name = record { namespace = namespace; name = name }

module _ (C : Client) (cfg : PersistenceConfig) (namespace name : Text) (n : Free b'#' name)
    (s : C.State) where
  -- A request for a VMI runs on the VMI of that name.
  reconcile-vmi : reconcile C cfg (key namespace (queue_name kind_vmi name)) s ≡ (
      if cfg.enable_vmi_persistence
      then generate_found_vmi C (C.get_vmi s (key namespace name)) s
      else (ok tt, s))
  unfolding reconcile
  reconcile-vmi =
      rw (contains-marker_vmi name) (rw (split-queue_name kind_vmi name (omega arith) n) refl)

  -- A request for a StatefulSet runs on the StatefulSet of that name.
  reconcile-set : reconcile C cfg (key namespace (queue_name kind_stateful_set name)) s ≡ (
      if cfg.enable_stateful_set_persistence
      then generate_found_set C (C.get_stateful_set s (key namespace name)) s
      else (ok tt, s))
  unfolding reconcile
  reconcile-set = rw (contains-marker_other name n) (
      rw (contains-marker_set name)
        (rw (split-queue_name kind_stateful_set name (omega arith) n) refl))

  -- A request that names an object itself takes the last branch.
  pub reconcile-plain :
      reconcile C cfg (key namespace name) s ≡ plain_request C cfg (key namespace name) s
  unfolding reconcile
  reconcile-plain = rw (contains_not-Free b'#' name (marker kind_vmi) n (not-Free kind_vmi)) (
      rw (contains_not-Free b'#' name (marker kind_stateful_set) n (not-Free kind_stateful_set))
        refl)

-- A VMI that asks for its state and runs, with no # in its name, is enqueued once by its creation
-- and by its update, and that request, wherever it is handled, is a run on the VMI of that name,
-- or nothing with the switch off.
pub reconcile-handle_vmi_event :
    (is_running : VirtualMachineInstance → Bool) (vmi : VirtualMachineInstance) (q : Queue)
    → wants_state vmi.meta ≡ true
    → is_running vmi ≡ true
    → Free b'#' vmi.meta.name
    → (req : NamespacedName) × (handle_vmi_event is_running (Event.create vmi) q ≡ q ++ (req ∷ []))
      × ((old : VirtualMachineInstance)
          → handle_vmi_event is_running (Event.update old vmi) q ≡ q ++ (req ∷ []))
      × ((C : Client) (cfg : PersistenceConfig) (s : C.State)
          → reconcile C cfg req s ≡ (
              if cfg.enable_vmi_persistence
              then generate_found_vmi C (C.get_vmi s (key vmi.meta.namespace vmi.meta.name)) s
              else (ok tt, s)))
unfolding handle_vmi_event enqueue_vmi
reconcile-handle_vmi_event is_running vmi q wants runs n = (
  key vmi.meta.namespace (queue_name kind_vmi vmi.meta.name),
  rw wants (rw runs refl),
  λ old. rw wants (rw runs refl),
  λ C cfg s. reconcile-vmi C cfg vmi.meta.namespace vmi.meta.name n s,
)

-- A StatefulSet that asks for its state, with no # in its name, is enqueued once by its creation
-- and by its update, and that request, wherever it is handled, is a run on the StatefulSet of that
-- name, or nothing with the switch off.
pub reconcile-handle_set_event :
    (sts : StatefulSet) (q : Queue)
    → wants_state sts.meta ≡ true
    → Free b'#' sts.meta.name
    → (req : NamespacedName) × (handle_stateful_set_event (Event.create sts) q ≡ q ++ (req ∷ []))
      × ((old : StatefulSet) → handle_stateful_set_event (Event.update old sts) q ≡ q ++ (req ∷ []))
      × ((C : Client) (cfg : PersistenceConfig) (s : C.State)
          → reconcile C cfg req s ≡ (
              if cfg.enable_stateful_set_persistence
              then generate_found_set C
                  (C.get_stateful_set s (key sts.meta.namespace sts.meta.name))
                  s
              else (ok tt, s)))
unfolding handle_stateful_set_event enqueue_stateful_set
reconcile-handle_set_event sts q wants n = (
  key sts.meta.namespace (queue_name kind_stateful_set sts.meta.name),
  rw wants refl,
  λ old. rw wants refl,
  λ C cfg s. reconcile-set C cfg sts.meta.namespace sts.meta.name n s,
)
