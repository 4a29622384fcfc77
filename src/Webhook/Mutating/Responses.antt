-- ===== src/Webhook/Mutating/Responses.antt =====
-- The answers of the webhook in general, and those to requests that create nothing.
use persistent_pod_state.Base.{
  Text, true, false, ◌≡◌, ◌≢◌, refl, sym, ap, subst, [], inl, inr, Reply, success, failure,
  Bool-cases, arith, if◌then◌else◌, Bool, text_eq, codes, ◌==◌,
}
use persistent_pod_state.Base.Strings.{is_empty, eq_nil_of_is_empty}
use persistent_pod_state.Features.{PersistenceConfig}
use persistent_pod_state.Api.{ObjectMeta, Pod, VirtualMachineInstance}
use persistent_pod_state.Cluster.{Client, ApiError}
use persistent_pod_state.Webhook.SetName.{get_stateful_set_name}
use persistent_pod_state.Webhook.Mutating.{
  Operation, create, update, other, Request, Response, allowed, errored, patch, Codec, Handling,
  handle_pod_create, handle_vmi_create, handle_pod_update, handle_vmi_update, restored,
  set_namespace, patch_response, finish_response, mutate, handle_object, should_ignore, handle,
}
use persistent_pod_state.Webhook.Mutating.Equality.{
  HasNodupAnnotations, pod_equal_refl, vmi_equal_refl,
}
use persistent_pod_state.Webhook.Mutating.Pinned.{placed, of_pods, of_vmis}

-- The response is no internal server error.
pub record IsServed (r : Response) : Type 0 where
  pub not_internal : (e : Text) → r ≢ errored 500 e

allowed-IsServed : IsServed allowed
allowed-IsServed = record { not_internal = λ e h. cc }

patch-IsServed : (operations : Text) → IsServed (patch operations)
patch-IsServed operations = record { not_internal = λ e h. cc }

bad_request-IsServed : (e : Text) → IsServed (errored 400 e)
bad_request-IsServed e = record { not_internal = λ e' h. ground arith }

-- Every object can be encoded, and there is a patch between any two encodings.
pub record Encodes {A : Type 0} (codec : Codec A) : Type 0 where
  pub encoded : (a : A) → (t : Text) × (codec.marshal a ≡ success t)
  pub patched :
      (a b : A) (t u : Text)
      → codec.marshal a ≡ success t
      → codec.marshal b ≡ success u
      → (operations : Text) × (codec.create_patch t u ≡ success operations)

abbrev Succeeds : {A : Type 0} → (A → Reply Text A) → Type 0
Succeeds {A} f = (a : A) → (b : A) × (f a ≡ success b)

if-IsServed :
    (b : Bool) (r r' : Response) → IsServed r → IsServed r' → IsServed (if b then r else r')
if-IsServed true r r' k k' = k
if-IsServed false r r' k k' = k'

module _ {A : Type 0} (h : Handling A) (encodes : Encodes h.codec) where
  patch_response-IsServed : (clone obj : A) → IsServed (patch_response h clone obj)
  unfolding patch_response
  patch_response-IsServed clone obj =
      let (u, current) = encodes.encoded obj in
      let (t, original) = encodes.encoded clone in
      let (operations, made) = encodes.patched clone obj t u original current in
      rw (current, patch_response)
        (rw (original, patch_response) (rw (made, patch_response) (patch-IsServed operations)))

  finish-IsServed : (clone made : A) → IsServed (finish_response h clone (success made))
  unfolding finish_response
  finish-IsServed clone made =
      if-IsServed (h.equal (restored h clone made) clone) _ _ allowed-IsServed
        (patch_response-IsServed clone (restored h clone made))

  finish_of :
      (clone : A) (r : Reply Text A) (made : A)
      → r ≡ success made
      → IsServed (finish_response h clone r)
  finish_of clone r made e =
      subst (λ x. IsServed (finish_response h clone x)) (sym e) (finish-IsServed clone made)

  module _ (creates : Succeeds h.on_create) (updates : Succeeds h.on_update) where
    mutate-IsServed : (op : Operation) (clone obj : A) → IsServed (mutate h op clone obj)
    unfolding mutate
    mutate-IsServed create clone obj = finish_of clone _ _ (creates obj).1
    mutate-IsServed update clone obj = finish_of clone _ _ (updates obj).1
    mutate-IsServed (other op) clone obj = allowed-IsServed

    decoded-IsServed :
        (req : Request) (r : Reply Text A)
        → h.codec.decode req.object ≡ r
        → IsServed (handle_object h req)
    unfolding handle_object
    decoded-IsServed req (failure e) d = rw (d, handle_object) (bad_request-IsServed e)
    decoded-IsServed req (success obj) d =
        rw (d, handle_object) (mutate-IsServed req.operation obj _)

    handle_object-IsServed : (req : Request) → IsServed (handle_object h req)
    handle_object-IsServed req = decoded-IsServed req _ refl

success_either :
    {A B : Type 0} (r : Reply ApiError B) (a : A) (f : B → A)
    → (b : A) × (◌≡◌ {A = Reply Text A}
        (elim r [ failure e ↦ success a | success p ↦ success (f p) ])
        (success b))
success_either (failure e) a f = (a, refl)
success_either (success p) a f = (f p, refl)

handle_vmi_create-Succeeds : (C : Client) (s : C.State) → Succeeds (handle_vmi_create C s)
unfolding handle_vmi_create
handle_vmi_create-Succeeds C s vmi = success_either (C.get_state s _) _ _

success_if :
    {A : Type 0} (b : Bool) (a : A) (r : Reply Text A)
    → ((c : A) × (r ≡ success c))
    → (c : A) × ((if b then success a else r) ≡ success c)
success_if true a r h = (a, refl)
success_if false a r h = h

handle_pod_create-Succeeds : (C : Client) (s : C.State) → Succeeds (handle_pod_create C s)
unfolding handle_pod_create
handle_pod_create-Succeeds C s pod =
    success_if (is_empty (get_stateful_set_name _)) _ _ (success_either (C.get_state s _) _ _)

-- The namespace that was filled in is taken out again.
restore_namespace : (m : ObjectMeta) → is_empty m.namespace ≡ true → record m { namespace = [] } ≡ m
restore_namespace m h =
    ap (λ ns. record m { namespace = ns }) (sym (eq_nil_of_is_empty m.namespace h))

-- What the switch answers to any other operation, where an object equals itself.
module _ {A : Type 0} (h : Handling A) (req : Request) (obj : A) where
  abbrev placed_again : A
  placed_again = restored h obj (placed h req obj)

  -- What was filled in is gone.
  restored_lem :
      ((ns : Text)
        → is_empty (h.meta obj).namespace ≡ true
        → set_namespace h [] (set_namespace h ns obj) ≡ obj)
      → placed_again ≡ obj
  restored_lem r = elim (Bool-cases (is_empty (h.meta obj).namespace)) [
    | inl k ↦ rw k (r req.namespace k)
    | inr k ↦ rw k refl
  ]

update_allowed :
    {A : Type 0} (h : Handling A) (req : Request) (obj : A)
    → h.codec.decode req.object ≡ success obj
    → (op : Operation) → req.operation ≡ op
    → op ≢ create
    → ((a : A) → h.on_update a ≡ success a)
    → ((ns : Text)
        → is_empty (h.meta obj).namespace ≡ true
        → set_namespace h [] (set_namespace h ns obj) ≡ obj)
    → h.equal obj obj ≡ true
    → handle_object h req ≡ allowed
unfolding handle_object
update_allowed h req obj d create o n u r e = absurd (n refl)
update_allowed h req obj d (other op) o n u r e = rw (d, handle_object) (rw o refl)
update_allowed h req obj d update o n u r e =
    rw (d, handle_object)
      (rw o
        (rw (u (placed h req obj)) (rw (restored_lem h req obj r, finish_response) (rw e refl))))

module _ (C : Client) (pods : Codec Pod) (vmis : Codec VirtualMachineInstance) (s : C.State)
    (cfg : PersistenceConfig) (req : Request) where
  abbrev pub is_vmi_request : Bool
  is_vmi_request = req.resource == codes "virtualmachineinstances"

  if_cases :
      (P : Response → Type 0) (b : Bool) (r r' : Response)
      → (b ≡ true → P r)
      → (b ≡ false → P r')
      → P (if b then r else r')
  if_cases P true r r' k k' = k refl
  if_cases P false r r' k k' = k' refl

  -- `Handle` passes the request to one of the two handlers, or allows it.
  handle_cases :
      (P : Response → Type 0)
      → P allowed
      → (is_vmi_request ≡ true → P (handle_object (of_vmis C pods vmis s) req))
      → (is_vmi_request ≡ false → P (handle_object (of_pods C pods vmis s) req))
      → P (handle C pods vmis s cfg req)
  unfolding handle
  handle_cases P allow vmi pod =
      if_cases P (should_ignore req) _ _ (λ _. allow)
        λ _.
          if_cases P is_vmi_request _ _
            (λ e. if_cases P cfg.enable_vmi_persistence _ _ (λ _. vmi e) (λ _. allow))
            λ e.
              if_cases P (req.resource == codes "pods") _ _
                (λ _. if_cases P cfg.enable_stateful_set_persistence _ _ (λ _. pod e) (λ _. allow))
                (λ _. allow)

  -- Whatever the cluster answers, no request ends in an internal server error, as long as objects
  -- can be encoded and a patch can be made between any two encodings.
  pub handle-IsServed : Encodes pods → Encodes vmis → IsServed (handle C pods vmis s cfg req)
  unfolding handle_vmi_update handle_pod_update
  handle-IsServed ep ev =
      handle_cases IsServed allowed-IsServed
        (λ _.
          handle_object-IsServed (of_vmis C pods vmis s) ev (handle_vmi_create-Succeeds C s)
            (λ a. (a, refl)) req)
        (λ _.
          handle_object-IsServed (of_pods C pods vmis s) ep (handle_pod_create-Succeeds C s)
            (λ a. (a, refl)) req)

  -- The object in a request can be read, and its annotations list no key twice.
  abbrev pub Decodes : {A : Type 0} → Codec A → (A → ObjectMeta) → Type 0
  Decodes {A} codec meta =
      (a : A) × (codec.decode req.object ≡ success a) × HasNodupAnnotations (meta a)

  -- A request that creates nothing, whose object can be read and lists no annotation twice, is
  -- allowed without a patch.
  pub handle_not_create :
      req.operation ≢ create
      → (is_vmi_request ≡ true → Decodes vmis (λ vmi. vmi.meta))
      → (is_vmi_request ≡ false → Decodes pods (λ pod. pod.meta))
      → handle C pods vmis s cfg req ≡ allowed
  unfolding handle_vmi_update handle_pod_update set_namespace
  handle_not_create n vmi pod =
      handle_cases (λ r. r ≡ allowed) refl (λ e. vmi_allowed (vmi e)) (λ e. pod_allowed (pod e))
    where
      vmi_allowed :
          Decodes vmis (λ vmi. vmi.meta) → handle_object (of_vmis C pods vmis s) req ≡ allowed
      vmi_allowed (vmi, d, u) =
          update_allowed (of_vmis C pods vmis s) req vmi d req.operation refl n (λ a. refl)
            (λ ns k. ap (λ m. record vmi { meta = m }) (restore_namespace vmi.meta k))
            (vmi_equal_refl vmi u)

      pod_allowed :
          Decodes pods (λ pod. pod.meta) → handle_object (of_pods C pods vmis s) req ≡ allowed
      pod_allowed (pod, d, u) =
          update_allowed (of_pods C pods vmis s) req pod d req.operation refl n (λ a. refl)
            (λ ns k. ap (λ m. record pod { meta = m }) (restore_namespace pod.meta k))
            (pod_equal_refl pod u)
