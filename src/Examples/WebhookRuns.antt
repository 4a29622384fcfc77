-- ===== src/Examples/WebhookRuns.antt =====
-- The webhook on the example objects.
use persistent_pod_state.Webhook.EndToEnd.Sets.{
  IsPlaced, IsCreatedAgain, IsPodPinnedTo, handle-set_auto_generate,
}
use persistent_pod_state.Controller.Sets.{set_auto_generate}
use persistent_pod_state.Controller.Sets.Laws.{collected}
use persistent_pod_state.Controller.Sets.Records.{Fits}
use persistent_pod_state.Base.{
  some, [], ◌∷◌, ◌++◌, codes, ◌≡◌, refl, success, ok, arith, text_eq, nat_eq,
}
use persistent_pod_state.Base.GoMap.{lookup}
use persistent_pod_state.Features.{default_config}
use persistent_pod_state.Cluster.Memory.{memory, memory-IsQuiet, memory-KeepsPods, empty}
use persistent_pod_state.Controller.Vmi.{vmi_auto_generate, pod_state}
use persistent_pod_state.Webhook.SetName.{
  get_stateful_set_name, owner_set_name, is_numeric, name_before_ordinal, name_before,
}
use persistent_pod_state.Base.Strings.{last_index}
use persistent_pod_state.Webhook.SetName.Laws.{
  get_stateful_set_name-ordinal, get_stateful_set_name_sound, IsCutFrom,
}
use persistent_pod_state.Webhook.Mutating.{pin_pod, handle, handle_pod_create}
use persistent_pod_state.Webhook.Mutating.Pinned.{
  IsPinned, IsPodCreate, IsVmiCreate, answer, of_pods,
}
use persistent_pod_state.Webhook.Mutating.Created.{handle-pod-IsPinned}
use persistent_pod_state.Webhook.Mutating.Idempotence.{handle_pod_create_idem}
use persistent_pod_state.Webhook.Mutating.Responses.{IsServed, handle-IsServed}
use persistent_pod_state.Webhook.EndToEnd.{IsPinnedTo, handle-vmi_auto_generate}
use persistent_pod_state.Examples.Objects.{
  address, node, vm_owner, stateful_set, with_pod, vmi, vmi_again, pod, pod_again, pod_unowned,
  recorded, web_state, with_web_state, pods_as, vmis_as, vmi_creation, pod_creation,
}
use persistent_pod_state.Examples.ControllerRuns.{vmi-IsOwned}

vmi_again-IsVmiCreate : IsVmiCreate (vmis_as vmi_again) default_config vmi_creation vmi_again
vmi_again-IsVmiCreate = record {
  resource = refl;
  whole = refl;
  enabled = refl;
  creates = refl;
  decoded = refl;
}

pod_again-IsPodCreate : IsPodCreate (pods_as pod_again) default_config pod_creation pod_again
pod_again-IsPodCreate = record {
  resource = refl;
  whole = refl;
  enabled = refl;
  creates = refl;
  decoded = refl;
}

handle-vmi_auto_generate_example :
    (t u : memory.State) × (vmi_auto_generate memory vmi empty ≡ (ok tt, t))
    × (vmi_auto_generate memory vmi t ≡ (ok tt, u))
    × IsPinnedTo memory memory-IsQuiet
        (pods_as pod)
        (vmis_as vmi_again)
        default_config
        vmi_creation
        u
        vmi_again
        address
        node
handle-vmi_auto_generate_example =
    handle-vmi_auto_generate memory memory-IsQuiet (pods_as pod) (vmis_as vmi_again) default_config
      vmi_creation vmi vmi_again address vm_owner empty vmi-IsOwned refl vmi_again-IsVmiCreate refl
      refl

web_0-IsPlaced : IsPlaced pod []
web_0-IsPlaced = record { has_address = refl; has_node = refl; is_last = tt }

web_0-IsCreatedAgain :
    IsCreatedAgain memory memory-IsQuiet
      (pods_as pod_again)
      (vmis_as vmi)
      default_config
      pod_creation
      stateful_set
      pod
      pod_again
unfolding get_stateful_set_name owner_set_name text_eq
web_0-IsCreatedAgain = record {
  creates = pod_again-IsPodCreate;
  same_name = refl;
  same_namespace = refl;
  set_name = refl;
  named = refl;
}

with_pod-Fits : Fits memory stateful_set (collected ([] ++ pod ∷ []) []) with_pod
with_pod-Fits x h = ground arith

handle-set_auto_generate_example :
    (t u : memory.State) × (set_auto_generate memory stateful_set with_pod ≡ (ok tt, t))
    × (set_auto_generate memory stateful_set t ≡ (ok tt, u))
    × IsPodPinnedTo memory memory-IsQuiet
        (pods_as pod_again)
        (vmis_as vmi)
        default_config
        pod_creation
        u
        pod_again
        address
        node
handle-set_auto_generate_example =
    handle-set_auto_generate memory memory-IsQuiet (pods_as pod_again) (vmis_as vmi) default_config
      pod_creation stateful_set (some ((codes "app", codes "web") ∷ [])) [] [] pod pod_again
      with_pod memory-KeepsPods refl refl web_0-IsPlaced with_pod-Fits web_0-IsCreatedAgain

handle-pod-IsPinned_example :
    (handle memory (pods_as pod_again) (vmis_as vmi) with_web_state default_config pod_creation
      ≡ answer
          (of_pods memory (pods_as pod_again) (vmis_as vmi) with_web_state)
          pod_again
          (pin_pod recorded pod_again))
    × IsPinned recorded pod_again.meta
        (pin_pod recorded pod_again).meta
        (pin_pod recorded pod_again).affinity
unfolding get_stateful_set_name owner_set_name text_eq lookup pod_state
handle-pod-IsPinned_example =
    handle-pod-IsPinned memory (pods_as pod_again) (vmis_as vmi) with_web_state default_config
      pod_creation pod_again web_state recorded pod_again-IsPodCreate refl refl refl (refl, refl)

handle_pod_create_idem_example :
    handle_pod_create memory with_web_state (pin_pod recorded pod_again)
    ≡ success (pin_pod recorded pod_again)
unfolding handle_pod_create get_stateful_set_name owner_set_name text_eq lookup pod_state
handle_pod_create_idem_example =
    handle_pod_create_idem memory with_web_state pod_again (pin_pod recorded pod_again) refl

handle-IsServed_example :
    IsServed (handle memory (pods_as pod) (vmis_as vmi) empty default_config pod_creation)
handle-IsServed_example =
    handle-IsServed memory (pods_as pod) (vmis_as vmi) empty default_config pod_creation
      (record { encoded = λ p. (p.meta.name, refl); patched = λ p q t u h g. (u, refl) })
      (record { encoded = λ v. (v.meta.name, refl); patched = λ v w t u h g. (u, refl) })

get_stateful_set_name-ordinal_example : get_stateful_set_name pod_unowned ≡ codes "web"
unfolding owner_set_name
get_stateful_set_name-ordinal_example =
    get_stateful_set_name-ordinal pod_unowned (codes "web") (codes "0") refl (λ e. ground arith)
      ((omega arith, omega arith), tt) refl

get_stateful_set_name_sound_example :
    IsCutFrom pod_unowned.meta.name (get_stateful_set_name pod_unowned)
unfolding owner_set_name is_numeric get_stateful_set_name name_before_ordinal name_before last_index
    nat_eq
get_stateful_set_name_sound_example =
    get_stateful_set_name_sound pod_unowned refl (λ e. ground arith)
