-- ===== src/Certs/DirectoryStore/RoundTrip.antt =====
-- What is read of a directory after a certificate was written into it.
use persistent_pod_state.Base.{
  Text, text_eq, nat_eq, List, [], ◌∷◌, some, success, ◌≡◌, refl, ap, ◌∙◌, sym, Option-cases, inl,
  inr,
}
use persistent_pod_state.Base.GoMap.{lookup}
use persistent_pod_state.Base.Lists.{All}
use persistent_pod_state.Base.Strings.{contains}
use persistent_pod_state.Atomic.{FileProjection}
use persistent_pod_state.Atomic.Write.{
  Volume, write, write_over, link_name, is_member, sub_paths, split_dir, trim_slash,
}
use persistent_pod_state.Atomic.Write.Laws.{Includes, current_files, write_over-Includes}
use persistent_pod_state.Atomic.Write.Links.{HasLink, IsReachable, IsFlat, write_over-HasLink}
use persistent_pod_state.Certs.Writer.{Artifacts}
use persistent_pod_state.Certs.SecretStore.{
  CertGenerator, ca_key_name, ca_cert_name, server_cert_name, server_cert_name2, server_key_name,
  server_key_name2,
}
use persistent_pod_state.Certs.DirectoryStore.{
  bytes_of, cert_file, cert_file_names, data_files, visible_file, ensure_exist, read_file,
  read_existing, write_certs_to_dir,
}
use persistent_pod_state.Certs.DirectoryStore.Stored.{
  projected, cert_paths_valid, PicksFresh, read_certs_of,
}

-- What a directory keeps of a certificate: no nil slices, and no version.
abbrev pub kept : Artifacts → Artifacts
kept certs = record {
  ca_key = some (bytes_of certs.ca_key);
  ca_cert = some (bytes_of certs.ca_cert);
  cert = some (bytes_of certs.cert);
  key = some (bytes_of certs.key);
  resource_version = [];
}

cert_names-IsFlat : All IsFlat cert_file_names
unfolding contains link_name sub_paths split_dir trim_slash is_member text_eq nat_eq
cert_names-IsFlat = (
  record { no_slash = refl; own_link = refl; has_path = λ rest. refl },
  (
    record { no_slash = refl; own_link = refl; has_path = λ rest. refl },
    (
      record { no_slash = refl; own_link = refl; has_path = λ rest. refl },
      (
        record { no_slash = refl; own_link = refl; has_path = λ rest. refl },
        (
          record { no_slash = refl; own_link = refl; has_path = λ rest. refl },
          (record { no_slash = refl; own_link = refl; has_path = λ rest. refl }, tt),
        ),
      ),
    ),
  ),
)

-- Each of the six files has its link, as far as it is there.
abbrev pub AreReachable : Volume → Type 0
AreReachable vol = All (IsReachable vol) cert_file_names

data_files-current_files : (vol : Volume) → current_files vol ≡ data_files vol.data_dir vol
data_files-current_files vol = elim (Option-cases vol.data_dir) [
  | inl e ↦ rw e refl
  | inr (dir, e) ↦ rw e refl
]

-- A file with a link is read.
visible_file_found :
    (vol : Volume) (name : Text) (file : FileProjection)
    → HasLink vol.links name
    → lookup name (current_files vol) ≡ some file
    → visible_file vol name ≡ some file
unfolding visible_file
visible_file_found vol name file (target, link) there =
    rw (link, visible_file) (ap (lookup name) (sym (data_files-current_files vol)) ∙ there)

-- A file of the directory has its link and the content.
abbrev Holds : Volume → Text → Text → Type 0
Holds vol name content =
    HasLink vol.links name
    × ((file : FileProjection) × (lookup name (current_files vol) ≡ some file)
        × (file.content ≡ content))

Holds-read_file :
    (vol : Volume) (name content : Text)
    → Holds vol name content
    → read_file vol name ≡ success content
unfolding read_file
Holds-read_file vol name content (link, (file, there, same)) =
    rw (visible_file_found vol name file link there, read_file) (ap success same)

-- The file is there, through its link.
abbrev IsVisible : Volume → Text → Type 0
IsVisible vol name = (file : FileProjection) × (visible_file vol name ≡ some file)

Holds-IsVisible : (vol : Volume) (name content : Text) → Holds vol name content → IsVisible vol name
Holds-IsVisible vol name content (link, (file, there, same)) =
    (file, visible_file_found vol name file link there)

ensure_exist-All :
    (vol : Volume) (names : List Text)
    → All (IsVisible vol) names
    → ensure_exist names vol ≡ success tt
unfolding ensure_exist
ensure_exist-All vol [] h = refl
ensure_exist-All vol (name ∷ names) ((file, there), h) =
    rw (there, ensure_exist) (ensure_exist-All vol names h)

-- The directory holds the certificate's files.
pub record HoldsCerts (certs : Artifacts) (vol : Volume) : Type 0 where
  pub ca_key_held : Holds vol ca_key_name (bytes_of certs.ca_key)
  pub ca_cert_held : Holds vol ca_cert_name (bytes_of certs.ca_cert)
  pub cert_held : Holds vol server_cert_name (bytes_of certs.cert)
  pub cert2_held : Holds vol server_cert_name2 (bytes_of certs.cert)
  pub key_held : Holds vol server_key_name (bytes_of certs.key)
  pub key2_held : Holds vol server_key_name2 (bytes_of certs.key)

HoldsCerts-ensure_exist :
    (certs : Artifacts) (vol : Volume)
    → HoldsCerts certs vol
    → ensure_exist cert_file_names vol ≡ success tt
HoldsCerts-ensure_exist certs vol h = ensure_exist-All vol cert_file_names (
  Holds-IsVisible vol ca_key_name _ h.ca_key_held,
  (
    Holds-IsVisible vol ca_cert_name _ h.ca_cert_held,
    (
      Holds-IsVisible vol server_cert_name _ h.cert_held,
      (
        Holds-IsVisible vol server_cert_name2 _ h.cert2_held,
        (
          Holds-IsVisible vol server_key_name _ h.key_held,
          (Holds-IsVisible vol server_key_name2 _ h.key2_held, tt),
        ),
      ),
    ),
  ),
)

pub HoldsCerts-read :
    (certs : Artifacts) (vol : Volume)
    → HoldsCerts certs vol
    → read_existing vol (ensure_exist cert_file_names vol) ≡ success (kept certs)
unfolding read_existing
HoldsCerts-read certs vol h =
    ap (read_existing vol) (HoldsCerts-ensure_exist certs vol h)
    ∙ unfold read_existing in
      read_certs_of vol _ _ _ _ (Holds-read_file vol ca_key_name _ h.ca_key_held)
        (Holds-read_file vol ca_cert_name _ h.ca_cert_held)
        (Holds-read_file vol server_cert_name _ h.cert_held)
        (Holds-read_file vol server_key_name _ h.key_held)

pub HoldsCerts-AreReachable :
    (certs : Artifacts) (vol : Volume) → HoldsCerts certs vol → AreReachable vol
HoldsCerts-AreReachable certs vol h = (
  λ f e. h.ca_key_held.0,
  (
    λ f e. h.ca_cert_held.0,
    (
      λ f e. h.cert_held.0,
      (λ f e. h.cert2_held.0, (λ f e. h.key_held.0, (λ f e. h.key2_held.0, tt))),
    ),
  ),
)

-- Each name, through the links and the files of the written directory.
module _ (G : CertGenerator) (new_dir : Volume → Text) (picks : PicksFresh new_dir)
    (certs : Artifacts) (vol : Volume) where
  abbrev pub written : Volume
  written = write_over (new_dir vol) (projected certs) vol.data_dir vol

  pub written_lem : write_certs_to_dir G new_dir certs vol ≡ (success tt, written)
  unfolding write_certs_to_dir write
  written_lem = rw (cert_paths_valid certs, write) refl

  written-Includes : Includes (projected certs) (current_files written)
  written-Includes =
      write_over-Includes (new_dir vol) (projected certs) vol (picks vol) vol.data_dir refl

  written-Holds :
      (name : Text) (file : FileProjection)
      → IsFlat name
      → lookup name (projected certs) ≡ some file
      → IsReachable vol name
      → Holds written name file.content
  written-Holds name file flat listed reachable = (
    write_over-HasLink (new_dir vol) (projected certs) name file flat listed vol vol.data_dir refl
        reachable,
    written-Includes name file listed,
  )

  pub written-HoldsCerts : AreReachable vol → HoldsCerts certs written
  unfolding lookup text_eq nat_eq
  written-HoldsCerts (a, (b, (c, (d, (e, (f, _)))))) =
      let (fa, (fb, (fc, (fd, (fe, (ff, _)))))) = cert_names-IsFlat in
      record {
        ca_key_held = written-Holds ca_key_name (cert_file certs.ca_key) fa refl a;
        ca_cert_held = written-Holds ca_cert_name (cert_file certs.ca_cert) fb refl b;
        cert_held = written-Holds server_cert_name (cert_file certs.cert) fc refl c;
        cert2_held = written-Holds server_cert_name2 (cert_file certs.cert) fd refl d;
        key_held = written-Holds server_key_name (cert_file certs.key) fe refl e;
        key2_held = written-Holds server_key_name2 (cert_file certs.key) ff refl f;
      }

  -- Where new directories are not in use, and each of the six files, as far as it is there, has
  -- its link: writing a certificate succeeds, and then the files are all there, the certificate is
  -- read again with its values, and each file has its link.
  pub read_existing-write_certs_to_dir :
      AreReachable vol
      → (after : Volume) × (write_certs_to_dir G new_dir certs vol ≡ (success tt, after))
        × (read_existing after (ensure_exist cert_file_names after) ≡ success (kept certs))
        × AreReachable after
  read_existing-write_certs_to_dir reachable =
      let held = written-HoldsCerts reachable in
      (
        written,
        written_lem,
        HoldsCerts-read certs written held,
        HoldsCerts-AreReachable certs written held,
      )
