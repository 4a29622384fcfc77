-- ===== src/Certs/Folder/Written.antt =====
-- A certificate that is written into a directory that may not be ready for it.
use persistent_pod_state.Base.{Text, false, text_eq, if◌then◌else◌, Option, none, [], ◌≡◌}
use persistent_pod_state.Base.GoMap.{lookup}
use persistent_pod_state.Atomic.Write.{is_member}
use persistent_pod_state.Certs.DirectoryStore.{cert_file_names}
use persistent_pod_state.Certs.DirectoryStore.RoundTrip.{AreReachable}
use persistent_pod_state.Certs.Folder.{Folder}
use persistent_pod_state.Certs.Folder.Laws.{IsApart}

-- The plain files of other names.
abbrev pub other_plain : Folder → Text → Option Text
other_plain d k = if is_member k cert_file_names then none else lookup k d.plain

-- Each of the six files has its link, as far as it is there; no name is that of a plain file and
-- of a link; a directory that is not there has no files.
pub record IsFolder (d : Folder) : Type 0 where
  pub apart : IsApart d
  pub reachable : AreReachable d.volume
  pub missing : d.is_there ≡ false → d.plain ≡ []
