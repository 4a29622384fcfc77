-- ===== src/Webhook/Mutating/Equality.antt =====
-- Objects compared with themselves.
use persistent_pod_state.Base.{Text, true, ◌≡◌, [], ◌∷◌, arith, text_eq}
use persistent_pod_state.Base.GoMap.{Dict, entries, NodupKeys, SelfEqual, map_equal_refl}
use persistent_pod_state.Api.{ObjectMeta, Pod, VirtualMachineInstance}
use persistent_pod_state.Webhook.Mutating.{text_equal, meta_equal, pod_equal, vmi_equal}

-- An object's annotations list no key twice.
abbrev pub HasNodupAnnotations : ObjectMeta → Type 0
HasNodupAnnotations m = NodupKeys (entries m.annotations)

texts_self : (d : Dict Text) → SelfEqual text_equal d
texts_self [] = tt
texts_self ((k, v) ∷ d) = (ground arith, texts_self d)

meta_equal_refl : (m : ObjectMeta) → HasNodupAnnotations m → meta_equal m m ≡ true
unfolding meta_equal
meta_equal_refl m h = ground (arith, map_equal_refl text_equal m.annotations h (texts_self _))

pub pod_equal_refl : (pod : Pod) → HasNodupAnnotations pod.meta → pod_equal pod pod ≡ true
unfolding pod_equal
pod_equal_refl pod h = rw (meta_equal_refl pod.meta h) (ground arith)

pub vmi_equal_refl :
    (vmi : VirtualMachineInstance) → HasNodupAnnotations vmi.meta → vmi_equal vmi vmi ≡ true
unfolding vmi_equal
vmi_equal_refl vmi h = rw (meta_equal_refl vmi.meta h) (ground arith)
