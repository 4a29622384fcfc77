-- ===== src/Certs/DirectoryStore/Stored.antt =====
-- A run of the writer to a directory.
use persistent_pod_state.Base.{
  Text, text_eq, nat_eq, List, [], ◌∷◌, some, Option-cases, success, failure, ◌≡◌, inl, inr, refl,
  ap, arith,
}
use persistent_pod_state.Base.GoMap.{insert, Dict}
use persistent_pod_state.Base.Strings.{has_prefix, split}
use persistent_pod_state.Atomic.{
  FileProjection, validate_payload, validate_path, validate_items, validate_first, clean,
  clean_items, clean_join, join_items,
}
use persistent_pod_state.Atomic.Write.{Volume}
use persistent_pod_state.Atomic.Write.Laws.{IsFresh}
use persistent_pod_state.Certs.Writer.{Artifacts, CertError, not_found_error}
use persistent_pod_state.Certs.SecretStore.{
  ca_key_name, ca_cert_name, server_cert_name, server_cert_name2, server_key_name, server_key_name2,
}
use persistent_pod_state.Certs.DirectoryStore.{
  cert_to_projection_map, cert_file_names, visible_file, ensure_exist, read_file, read_certs,
  read_existing, cert_file,
}

-- The entries of `certToProjectionMap`, in the order in which `validatePayload` lists them.
abbrev pub projected : Artifacts → Dict FileProjection
projected certs =
    (server_key_name2, cert_file certs.key)
    ∷ (server_key_name, cert_file certs.key)
    ∷ (server_cert_name2, cert_file certs.cert)
    ∷ (server_cert_name, cert_file certs.cert)
    ∷ (ca_cert_name, cert_file certs.ca_cert)
    ∷ (ca_key_name, cert_file certs.ca_key)
    ∷ []

pub cert_paths_valid :
    (certs : Artifacts)
    → validate_payload (cert_to_projection_map certs) ≡ success (projected certs)
unfolding cert_to_projection_map validate_payload validate_path validate_items validate_first clean
    clean_items clean_join join_items split has_prefix insert text_eq nat_eq
cert_paths_valid certs = refl

-- `MkdirTemp` gives the name of a directory that is not in use.
abbrev pub PicksFresh : (Volume → Text) → Type 0
PicksFresh new_dir = (vol : Volume) → IsFresh (new_dir vol) vol.data_dir

ensure_exist_missing :
    (names : List Text) (vol : Volume) (e : CertError)
    → ensure_exist names vol ≡ failure e
    → e ≡ not_found_error
unfolding ensure_exist
ensure_exist_missing [] vol e h = ground arith
ensure_exist_missing (name ∷ names) vol e h = elim (Option-cases (visible_file vol name)) [
  | inl none_there ↦ ground arith
  | inr (file, there) ↦ ensure_exist_missing names vol e (ground arith)
]

ensure_exist_each :
    (name : Text) (names : List Text) (vol : Volume)
    → ensure_exist (name ∷ names) vol ≡ success tt
    → ((content : Text) × (read_file vol name ≡ success content))
      × (ensure_exist names vol ≡ success tt)
unfolding ensure_exist read_file
ensure_exist_each name names vol h = elim (Option-cases (visible_file vol name)) [
  | inl none_there ↦ ground arith
  | inr (file, there) ↦ ((file.content, rw (there, read_file) refl), ground arith)
]

pub read_certs_of :
    (vol : Volume) (k c s p : Text)
    → read_file vol ca_key_name ≡ success k
    → read_file vol ca_cert_name ≡ success c
    → read_file vol server_cert_name ≡ success s
    → read_file vol server_key_name ≡ success p
    → read_certs vol
      ≡ success (record {
        ca_key = some k;
        ca_cert = some c;
        cert = some s;
        key = some p;
        resource_version = [];
      })
unfolding read_certs
read_certs_of vol k c s p at_k at_c at_s at_p = rw (at_k, at_c, at_s, at_p) refl

pub read_certs_found :
    (vol : Volume)
    → ensure_exist cert_file_names vol ≡ success tt
    → (certs : Artifacts) × (read_certs vol ≡ success certs)
read_certs_found vol h =
    let ((k, at_k), h1) = ensure_exist_each ca_key_name _ vol h in
    let ((c, at_c), h2) = ensure_exist_each ca_cert_name _ vol h1 in
    let ((s, at_s), h3) = ensure_exist_each server_cert_name _ vol h2 in
    let (second, h4) = ensure_exist_each server_cert_name2 _ vol h3 in
    let ((p, at_p), h5) = ensure_exist_each server_key_name _ vol h4 in
    (_, read_certs_of vol k c s p at_k at_c at_s at_p)

-- Where a file is missing there is nothing to read.
pub read_missing :
    (vol : Volume) (e : CertError)
    → ensure_exist cert_file_names vol ≡ failure e
    → read_existing vol (ensure_exist cert_file_names vol) ≡ failure not_found_error
unfolding read_existing
read_missing vol e h = rw h (ap failure (ensure_exist_missing cert_file_names vol e h))
