-- ===== src/Examples/ControllerRuns.antt =====
-- The controller on the example objects.
use persistent_pod_state.Base.{true, codes, [], ◌∷◌, ◌++◌, ◌≡◌, refl, ok, arith}
use persistent_pod_state.Cluster.Memory.{memory, memory-IsQuiet, empty}
use persistent_pod_state.Controller.Events.{handle_vmi_event, handle_stateful_set_event}
use persistent_pod_state.Controller.Reconcile.Laws.{
  reconcile-handle_vmi_event, reconcile-handle_set_event,
}
use persistent_pod_state.Controller.Reconcile.{reconcile}
use persistent_pod_state.Controller.Reservations.{vmi_reservation}
use persistent_pod_state.Controller.Vmi.{vmi_auto_generate}
use persistent_pod_state.Controller.Vmi.Laws.{
  IsOwned, IsPersisted, vmi_auto_generate_converges, vmi_auto_generate_unowned,
}
use persistent_pod_state.Examples.Objects.{address, vm_owner, vmi, vmi_unowned, stateful_set}
use persistent_pod_state.Api.{NamespacedName, VirtualMachineInstance, StatefulSet}
use persistent_pod_state.Features.{PersistenceConfig}
use persistent_pod_state.Cluster.{Client}
use persistent_pod_state.Controller.Events.{Event}
use persistent_pod_state.Controller.Reconcile.{generate_found_vmi, generate_found_set}
use persistent_pod_state.Controller.Reservations.Laws.{IsReserved}
use persistent_pod_state.Controller.Events.{wants_state}
use persistent_pod_state.Base.Int.{int_eq}
use persistent_pod_state.Base.GoMap.{lookup}
use persistent_pod_state.Base.{nat_eq, text_eq, if◌then◌else◌, panic}

pub vmi-IsOwned : IsOwned vmi address vm_owner
vmi-IsOwned = record {
  more = [];
  owners = [];
  has_address = refl;
  is_valid = refl;
  has_owner = refl;
}

vmi_auto_generate_converges_example :
    (t u : memory.State) × (vmi_auto_generate memory vmi empty ≡ (ok tt, t))
    × (vmi_auto_generate memory vmi t ≡ (ok tt, u))
    × IsPersisted memory vmi address vm_owner u
    × (vmi_auto_generate memory vmi u ≡ (ok tt, u))
vmi_auto_generate_converges_example =
    vmi_auto_generate_converges memory vmi address vm_owner vmi-IsOwned memory-IsQuiet empty

vmi_auto_generate_unowned_example :
    (t : memory.State) × (vmi_auto_generate memory vmi_unowned empty ≡ (panic, t))
    × IsReserved memory (vmi_reservation vmi_unowned address) t
vmi_auto_generate_unowned_example =
    vmi_auto_generate_unowned memory vmi_unowned address [] memory-IsQuiet refl refl refl empty

-- The requests of the two event handlers.
reconcile-handle_vmi_event_example :
    (req : NamespacedName) × (handle_vmi_event (λ v. true) (Event.create vmi) [] ≡ [] ++ (req ∷ []))
    × ((old : VirtualMachineInstance)
        → handle_vmi_event (λ v. true) (Event.update old vmi) [] ≡ [] ++ (req ∷ []))
    × ((C : Client) (cfg : PersistenceConfig) (s : C.State)
        → reconcile C cfg req s ≡ (
            if cfg.enable_vmi_persistence
            then generate_found_vmi C
                (C.get_vmi s (record { namespace = codes "ns"; name = codes "vm" }))
                s
            else (ok tt, s)))
unfolding wants_state text_eq lookup
reconcile-handle_vmi_event_example =
    reconcile-handle_vmi_event (λ v. true) vmi [] refl refl (omega arith)

reconcile-handle_set_event_example :
    (req : NamespacedName) × (handle_stateful_set_event (Event.create stateful_set) []
      ≡ [] ++ (req ∷ []))
    × ((old : StatefulSet)
        → handle_stateful_set_event (Event.update old stateful_set) [] ≡ [] ++ (req ∷ []))
    × ((C : Client) (cfg : PersistenceConfig) (s : C.State)
        → reconcile C cfg req s ≡ (
            if cfg.enable_stateful_set_persistence
            then generate_found_set C
                (C.get_stateful_set s (record { namespace = codes "ns"; name = codes "web" }))
                s
            else (ok tt, s)))
unfolding wants_state text_eq lookup
reconcile-handle_set_event_example = reconcile-handle_set_event stateful_set [] refl (omega arith)
