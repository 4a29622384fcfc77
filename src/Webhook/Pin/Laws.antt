-- ===== src/Webhook/Pin/Laws.antt =====
-- What pinning achieves.
use persistent_pod_state.Base.{
  Text, false, ◌≡◌, ◌≢◌, Option, some, refl, arith, inl, inr, Bool-cases,
}
use persistent_pod_state.Base.Strings.{is_empty}
use persistent_pod_state.Base.GoMap.{
  Dict, lookup, insert_idem, lookup-insert_self, lookup-insert_ne, NodupKeys, insert-NodupKeys,
}
use persistent_pod_state.Api.{PodState, Affinity}
use persistent_pod_state.Webhook.Pin.{address_annotation, address_list, pin_address, pin_node}

module _ (state : PodState) where
  pub pin_address_idem :
      (d : Dict Text) → pin_address state (pin_address state d) ≡ pin_address state d
  unfolding pin_address
  pin_address_idem d = ground (arith, insert_idem address_annotation (address_list state.pod_ip) d)

  pub lookup-pin_address :
      (d : Dict Text)
      → is_empty state.pod_ip ≡ false
      → lookup address_annotation (pin_address state d) ≡ some (address_list state.pod_ip)
  unfolding pin_address
  lookup-pin_address d h = rw h (lookup-insert_self _ _ d)

  pub lookup-pin_address_ne :
      (d : Dict Text) (k : Text)
      → address_annotation ≢ k
      → lookup k (pin_address state d) ≡ lookup k d
  unfolding pin_address
  lookup-pin_address_ne d k h = elim (Bool-cases (is_empty state.pod_ip)) [
    | inl e ↦ rw e refl
    | inr e ↦ rw e (lookup-insert_ne address_annotation k (address_list state.pod_ip) d h)
  ]

  pub pin_address-NodupKeys : (d : Dict Text) → NodupKeys d → NodupKeys (pin_address state d)
  unfolding pin_address
  pin_address-NodupKeys d h = elim (Bool-cases (is_empty state.pod_ip)) [
    | inl e ↦ rw e h
    | inr e ↦ rw e (insert-NodupKeys address_annotation (address_list state.pod_ip) d h)
  ]

  pub pin_node_idem : (a : Option Affinity) → pin_node state (pin_node state a) ≡ pin_node state a
  unfolding pin_node
  pin_node_idem a = ground arith
