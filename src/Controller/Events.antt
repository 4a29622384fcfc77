-- ===== src/Controller/Events.antt =====
-- The event handlers, which put requests on the work queue:
-- internal/controller/apps/persistentpodstate_event_handler.go and
-- persistentpodstate_statefulset_handler.go. A queue is the list of the requests added to it.
use persistent_pod_state.Base.{
  Text, codes, ◌==◌, text_eq, if◌then◌else◌, Bool, not, ◌&&◌, List, [], ◌∷◌, ◌++◌,
}
use persistent_pod_state.Base.GoMap.{get_or}
use persistent_pod_state.Api.{
  NamespacedName, ObjectMeta, VirtualMachineInstance, StatefulSet, annotation_auto_generate,
  annotation_required_topology,
}

abbrev pub kind_vmi : Text
kind_vmi = codes "VirtualMachineInstance"

abbrev pub kind_stateful_set : Text
kind_stateful_set = codes "StatefulSet"

-- `AutoGeneratePersistentPodStatePrefix`
abbrev pub generate_prefix : Text
generate_prefix = codes "generate"

-- `fmt.Sprintf("%s#%s#%s", prefix, kind, name)`
unfoldable pub queue_name : Text → Text → Text
queue_name kind name = generate_prefix ++ (codes "#" ++ (kind ++ (codes "#" ++ name)))

abbrev pub Queue : Type 0
Queue = List NamespacedName

unfoldable pub enqueue_vmi : Queue → VirtualMachineInstance → Queue
enqueue_vmi q vmi =
    q ++ (record { namespace = vmi.meta.namespace; name = queue_name kind_vmi vmi.meta.name } ∷ [])

unfoldable pub enqueue_stateful_set : Queue → StatefulSet → Queue
enqueue_stateful_set q sts =
    q
    ++ (record { namespace = sts.meta.namespace; name = queue_name kind_stateful_set sts.meta.name }
        ∷ [])

-- The test on the annotations that the handlers share.
unfoldable pub wants_state : ObjectMeta → Bool
wants_state m =
    get_or m.annotations annotation_auto_generate [] == codes "true"
    && not (get_or m.annotations annotation_required_topology [] == [])

-- An event of a watch, with the object that its handler reads.
pub data Event (A : Type 0) : Type 0 where
  create delete generic : A → Event A
  update : A → A → Event A

-- `enqueueRequestForVirtualMachineInstance`; `is_running` is KubeVirt's `vmi.IsRunning()`
unfoldable pub handle_vmi_event :
    (VirtualMachineInstance → Bool) → Event VirtualMachineInstance → Queue → Queue
handle_vmi_event is_running (create vmi) q =
    if wants_state vmi.meta && is_running vmi then enqueue_vmi q vmi else q
handle_vmi_event is_running (delete vmi) q = q
handle_vmi_event is_running (generic vmi) q = q
handle_vmi_event is_running (update old vmi) q =
    if wants_state vmi.meta && is_running vmi then enqueue_vmi q vmi else q

-- `enqueueRequestForStatefulSet`
unfoldable pub handle_stateful_set_event : Event StatefulSet → Queue → Queue
handle_stateful_set_event (create sts) q =
    if wants_state sts.meta then enqueue_stateful_set q sts else q
handle_stateful_set_event (delete sts) q = q
handle_stateful_set_event (generic sts) q = q
handle_stateful_set_event (update old sts) q =
    if wants_state sts.meta then enqueue_stateful_set q sts else q
