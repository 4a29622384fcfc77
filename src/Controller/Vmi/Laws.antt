-- ===== src/Controller/Vmi/Laws.antt =====
-- What the controller records of a virtual machine, in a quiet cluster.
use persistent_pod_state.Base.{
  Text, true, false, List, [], ◌∷◌, ◌≡◌, inl, inr, success, failure, ok, panic, ap, ◌∙◌,
}
use persistent_pod_state.Base.Strings.{is_empty}
use persistent_pod_state.Base.GoMap.{lookup-nil}
use persistent_pod_state.Api.{OwnerReference, VirtualMachineInstance, PersistentPodState}
use persistent_pod_state.Api.Equal.{status_equal, status_equal_refl}
use persistent_pod_state.Cluster.{Client, not_found}
use persistent_pod_state.Cluster.Laws.{IsQuiet, IsPlain, key_of}
use persistent_pod_state.Controller.Reservations.{vmi_reservation, ensure_reservation}
use persistent_pod_state.Controller.Reservations.Laws.{
  IsReserved, ensure_reservation_reserves, ensure_reservation_again,
}
use persistent_pod_state.Controller.Save.{save_vmi}
use persistent_pod_state.Controller.Save.Laws.{
  IsRecorded, IsCreated, KeepsReservations, save_vmi_again, save_vmi_creates, save_vmi_records,
}
use persistent_pod_state.Controller.Vmi.{
  vmi_status, vmi_state, record_vmi, generate_from, vmi_auto_generate,
}

-- The VMI has an address on its first interface, and an owner.
pub record IsOwned (vmi : VirtualMachineInstance) (ip : Text) (owner : OwnerReference)
    : Type 0 where
  pub more : List Text
  pub owners : List OwnerReference
  pub has_address : vmi.interfaces ≡ ip ∷ more
  pub is_valid : is_empty ip ≡ false
  pub has_owner : vmi.meta.owner_references ≡ owner ∷ owners

vmi_status_self :
    (vmi : VirtualMachineInstance) (ip : Text)
    → status_equal (vmi_status vmi ip) (vmi_status vmi ip) ≡ true
unfolding vmi_status
vmi_status_self vmi ip =
    status_equal_refl (vmi_status vmi ip) (lookup-nil _, tt) (((lookup-nil _, tt), tt), tt)

vmi_status-IsPlain : (vmi : VirtualMachineInstance) (ip : Text) → IsPlain (vmi_status vmi ip)
unfolding vmi_status
vmi_status-IsPlain vmi ip = (tt, ((tt, tt), tt))

-- The address is reserved and the state is recorded.
abbrev pub IsPersisted :
    (C : Client) → VirtualMachineInstance → Text → OwnerReference → C.State → Type 0
IsPersisted C vmi ip owner t =
    IsReserved C (vmi_reservation vmi ip) t × IsRecorded C (vmi_state vmi ip owner) t

-- With an address that is reserved, the first owner decides.
generate_from_reserved :
    (C : Client) (vmi : VirtualMachineInstance) (ip : Text) (more : List Text) (s t : C.State)
    → is_empty ip ≡ false
    → ensure_reservation C (vmi_reservation vmi ip) s ≡ (ok tt, t)
    → generate_from C vmi (ip ∷ more) s ≡ record_vmi C vmi ip vmi.meta.owner_references t
unfolding generate_from
generate_from_reserved C vmi ip more s t valid h = rw valid (rw h)

module _ (C : Client) (vmi : VirtualMachineInstance) (ip : Text) (owner : OwnerReference)
    (w : IsOwned vmi ip owner) where
  -- With its address reserved, what is left is to store the state.
  vmi_auto_generate_saves :
      (s t : C.State)
      → ensure_reservation C (vmi_reservation vmi ip) s ≡ (ok tt, t)
      → vmi_auto_generate C vmi s ≡ save_vmi C (vmi_state vmi ip owner) t
  unfolding vmi_auto_generate record_vmi
  vmi_auto_generate_saves s t h =
      ap (λ l. generate_from C vmi l s) w.has_address
      ∙ generate_from_reserved C vmi ip w.more s t w.is_valid h
      ∙ ap (λ o. record_vmi C vmi ip o t) w.has_owner

  -- Where both are in place, a run writes nothing.
  pub vmi_auto_generate_again :
      (s : C.State) → IsPersisted C vmi ip owner s → vmi_auto_generate C vmi s ≡ (ok tt, s)
  vmi_auto_generate_again s (reserved, recorded) =
      vmi_auto_generate_saves s s (ensure_reservation_again C _ s reserved)
      ∙ save_vmi_again C (vmi_state vmi ip owner) s recorded

  module _ (Q : IsQuiet C) (s : C.State) where
    -- A reservation outlives the writes of PersistentPodStates.
    keep-IsReserved :
        (t u : C.State)
        → IsReserved C (vmi_reservation vmi ip) t
        → KeepsReservations C (vmi_state vmi ip owner) t u
        → IsReserved C (vmi_reservation vmi ip) u
    keep-IsReserved t u (x, h, e) keeps = (x, keeps _ ∙ h, e)

    -- A run where the object is stored already persists it.
    pub vmi_auto_generate_updates :
        (x : PersistentPodState)
        → C.get_state s (key_of vmi.meta) ≡ success x
        → (u : C.State) × (vmi_auto_generate C vmi s ≡ (ok tt, u)) × IsPersisted C vmi ip owner u
    vmi_auto_generate_updates x found =
        let (t, e) = ensure_reservation_reserves C Q (vmi_reservation vmi ip) s in
        let (u, saved, recorded, keeps) =
          save_vmi_records C Q (vmi_state vmi ip owner) t (vmi_status-IsPlain vmi ip)
            (vmi_status_self vmi ip) x (e.2 (key_of vmi.meta) ∙ found) in
        (u, vmi_auto_generate_saves s t e.0 ∙ saved, (keep-IsReserved t u e.1 keeps, recorded))

    -- A run where there is no object yet creates it, with no status.
    vmi_auto_generate_creates :
        C.get_state s (key_of vmi.meta) ≡ failure not_found
        → (u : C.State) × (vmi_auto_generate C vmi s ≡ (ok tt, u))
          × IsCreated C (vmi_state vmi ip owner) u
    vmi_auto_generate_creates absent =
        let (t, e) = ensure_reservation_reserves C Q (vmi_reservation vmi ip) s in
        let (u, saved, created, keeps) =
          save_vmi_creates C Q (vmi_state vmi ip owner) t (e.2 (key_of vmi.meta) ∙ absent) in
        (u, vmi_auto_generate_saves s t e.0 ∙ saved, created)

  -- For a VMI with an address and an owner, in a quiet cluster, whatever it holds, two runs
  -- succeed and persist the VMI, and a third one changes nothing.
  pub vmi_auto_generate_converges :
      IsQuiet C
      → (s : C.State)
      → (t u : C.State) × (vmi_auto_generate C vmi s ≡ (ok tt, t))
        × (vmi_auto_generate C vmi t ≡ (ok tt, u))
        × IsPersisted C vmi ip owner u
        × (vmi_auto_generate C vmi u ≡ (ok tt, u))
  vmi_auto_generate_converges Q s = elim (Q.get_state_answered s (key_of vmi.meta)) [
    | inl absent ↦
        let (t, first, x) = vmi_auto_generate_creates Q s absent in
        let (u, second, done) = vmi_auto_generate_updates Q t x.0 x.1 in
        (t, u, first, second, done, vmi_auto_generate_again u done)
    | inr (x, found) ↦
        let (t, first, done) = vmi_auto_generate_updates Q s x found in
        let again = vmi_auto_generate_again t done in (t, t, first, again, done, again)
  ]

-- In a quiet cluster, for a VMI with an address and no owner, the run reserves the address and
-- panics.
pub vmi_auto_generate_unowned :
    (C : Client) (vmi : VirtualMachineInstance) (ip : Text) (more : List Text)
    → IsQuiet C
    → vmi.interfaces ≡ ip ∷ more
    → is_empty ip ≡ false
    → vmi.meta.owner_references ≡ []
    → (s : C.State)
    → (t : C.State) × (vmi_auto_generate C vmi s ≡ (panic, t))
      × IsReserved C (vmi_reservation vmi ip) t
unfolding vmi_auto_generate record_vmi
vmi_auto_generate_unowned C vmi ip more Q address valid unowned s =
    let (t, e) = ensure_reservation_reserves C Q (vmi_reservation vmi ip) s in
    (
      t,
      ap (λ l. generate_from C vmi l s) address
          ∙ generate_from_reserved C vmi ip more s t valid e.0
          ∙ ap (λ o. record_vmi C vmi ip o t) unowned,
      e.1,
    )
