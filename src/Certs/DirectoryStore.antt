-- ===== src/Certs/DirectoryStore.antt =====
-- internal/webhook/util/writer/fs.go: the certificate lives in a directory that the atomic writer
-- manages. Such a directory has no file beside the links, so `prepareToWrite`, which makes the
-- directory and removes other files (Certs/Folder), has nothing to do, and calls of the file system
-- succeed.
pub mod Stored
pub mod RoundTrip
pub mod Settles
use persistent_pod_state.Base.{
  and_then, Text, codes, if◌then◌else◌, Option, none, some, List, [], ◌∷◌, Reply, success, failure,
  Result, ok, err, panic,
}
use persistent_pod_state.Base.Strings.{is_empty}
use persistent_pod_state.Base.GoMap.{Dict, lookup}
use persistent_pod_state.Atomic.{FileProjection}
use persistent_pod_state.Atomic.Write.{Volume, files_or_none, files_at, write}
use persistent_pod_state.Certs.Writer.{
  Artifacts, CertError, not_found_error, failed, CertReadWriter, Crypto, Ensured, handle_common,
}
use persistent_pod_state.Certs.SecretStore.{
  CertGenerator, ca_key_name, ca_cert_name, server_cert_name, server_cert_name2, server_key_name,
  server_key_name2,
}

-- A nil slice is written as an empty file.
abbrev pub bytes_of : Option Text → Text
bytes_of none = []
bytes_of (some bytes) = bytes

-- Mode 0666
abbrev pub cert_file : Option Text → FileProjection
cert_file o = record { content = bytes_of o; mode = 438 }

-- `NewFSCertWriter`, which gives the path
unfoldable pub new_fs_cert_writer : Text → Reply CertError Text
new_fs_cert_writer path =
    if is_empty path
    then failure (failed (codes "path must be set in FSCertWriterOptions"))
    else success path

-- `certToProjectionMap`
unfoldable pub cert_to_projection_map : Artifacts → Dict FileProjection
cert_to_projection_map certs =
    (ca_key_name, cert_file certs.ca_key)
    ∷ (ca_cert_name, cert_file certs.ca_cert)
    ∷ (server_cert_name, cert_file certs.cert)
    ∷ (server_cert_name2, cert_file certs.cert)
    ∷ (server_key_name, cert_file certs.key)
    ∷ (server_key_name2, cert_file certs.key)
    ∷ []

abbrev pub cert_file_names : List Text
cert_file_names =
    ca_key_name ∷ ca_cert_name ∷ server_cert_name ∷ server_cert_name2 ∷ server_key_name
    ∷ server_key_name2 ∷ []

-- The files to which `..data` leads.
abbrev pub data_files : Option Text → Volume → Dict FileProjection
data_files none vol = []
data_files (some dir) vol = files_at vol dir

-- A file of the directory, through its link and `..data`.
unfoldable pub visible_file : Volume → Text → Option FileProjection
visible_file vol name = elim (lookup name vol.links) [
  | none ↦ none
  | some target ↦ lookup name (data_files vol.data_dir vol)
]

-- `ensureExist`
unfoldable pub ensure_exist : List Text → Volume → Reply CertError (Unit {0})
unfolding visible_file
ensure_exist [] vol = success tt
ensure_exist (name ∷ names) vol =
    let rest = ensure_exist names vol in
    elim (visible_file vol name) [ some file ↦ rest | none ↦ failure not_found_error ]

-- `os.ReadFile`
unfoldable pub read_file : Volume → Text → Reply CertError Text
unfolding visible_file
read_file vol name = elim (visible_file vol name) [
  | none ↦ failure (failed (codes "no such file or directory"))
  | some file ↦ success file.content
]

-- `read`, once the files are there
unfoldable pub read_certs : Volume → Reply CertError Artifacts
unfolding read_file
read_certs vol = and_then (read_file vol ca_key_name) λ ca_key.
    and_then (read_file vol ca_cert_name) λ ca_cert.
      and_then (read_file vol server_cert_name) λ cert.
        and_then (read_file vol server_key_name) λ key. success (record {
          ca_key = some ca_key;
          ca_cert = some ca_cert;
          cert = some cert;
          key = some key;
          resource_version = [];
        })

unfoldable pub read_existing : Volume → Reply CertError (Unit {0}) → Reply CertError Artifacts
unfolding read_certs
read_existing vol (success _) = read_certs vol
read_existing vol (failure e) = failure e

module _ (G : CertGenerator) (new_dir : Volume → Text) where
  -- The directory, and the generator that the writer holds.
  abbrev pub DirectoryState : Type 0
  DirectoryState = Volume × G.State

  -- `WriteCertsToDir` after `prepareToWrite`, with the name that `MkdirTemp` picks
  unfoldable pub write_certs_to_dir : Artifacts → Volume → Reply Text (Unit {0}) × Volume
  unfolding cert_to_projection_map
  write_certs_to_dir certs vol = write (new_dir vol) (cert_to_projection_map certs) vol

  -- `doWrite` after `WriteCertsToDir`
  unfoldable pub stored_certs :
      Artifacts
      → G.State
      → Reply Text (Unit {0}) × Volume
      → Reply CertError Artifacts × DirectoryState
  stored_certs certs g (success _, vol) = (success certs, (vol, g))
  stored_certs certs g (failure e, vol) = (failure (failed e), (vol, g))

  -- `doWrite`, by what was generated
  unfoldable pub do_write :
      Volume → Reply Text Artifacts × G.State → Reply CertError Artifacts × DirectoryState
  unfolding stored_certs write_certs_to_dir
  do_write vol (failure e, g) = (failure (failed e), (vol, g))
  do_write vol (success certs, g) = stored_certs certs g (write_certs_to_dir certs vol)

  module _ (dns_name : Text) where
    -- `fsCertWriter` as a `certReadWriter`
    abbrev pub fs_cert_writer : CertReadWriter DirectoryState
    fs_cert_writer = record {
      read = λ u. (read_existing u.0 (ensure_exist cert_file_names u.0), u);
      write = λ u. do_write u.0 (G.generate dns_name u.1);
      overwrite = λ version u. do_write u.0 (G.generate dns_name u.1);
    }

    -- `EnsureCert`
    unfoldable pub ensure_cert_in_dir : Crypto → DirectoryState → Ensured DirectoryState
    ensure_cert_in_dir K u = handle_common K dns_name (some fs_cert_writer) u
