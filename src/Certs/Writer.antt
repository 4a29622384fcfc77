-- ===== src/Certs/Writer.antt =====
-- internal/webhook/util/writer/certwriter.go and error.go: a certificate is read, created where
-- there is none, and replaced where it is not valid.
pub mod Laws
use persistent_pod_state.Base.{
  Text, codes, if◌then◌else◌, Bool, true, false, ◌&&◌, Option, none, some, Reply, success, failure,
}
use persistent_pod_state.Base.Strings.{is_empty}
use persistent_pod_state.Cluster.{ApiError}

-- `generator.Artifacts`; a nil slice is `none`
pub record Artifacts : Type 0 where
  pub ca_key : Option Text
  pub ca_cert : Option Text
  pub cert : Option Text
  pub key : Option Text
  pub resource_version : Text

-- `notFoundError`, `alreadyExistError`, and the errors that are passed on.
pub data CertError : Type 0 where
  not_found_error already_exist_error : CertError
  from_api : ApiError → CertError
  failed : Text → CertError

-- `certReadWriter`, over the state that it reads and writes
pub record CertReadWriter (S : Type 0) : Type 0 where
  pub read : S → Reply CertError Artifacts × S
  pub write : S → Reply CertError Artifacts × S
  pub overwrite : Text → S → Reply CertError Artifacts × S

-- What is used of crypto/tls, crypto/x509 and encoding/pem.
pub record Crypto : Type 1 where
  pub Certificate : Type 0
  pub is_key_pair : Text → Text → Bool
  pub has_certs : Text → Bool
  pub decode : Text → Option Text
  pub parse : Text → Option Certificate
  -- For a DNS name, with the roots, in six months.
  pub verify : Text → Text → Certificate → Bool

-- What a call returns: the certificates or an error, and whether they changed.
abbrev pub Ensured : Type 0 → Type 0
Ensured S = (Reply CertError Artifacts × Bool) × S

module _ (K : Crypto) (dns_name : Text) where
  unfoldable pub verify_block : Text → Option Text → Bool
  verify_block ca_cert none = false
  verify_block ca_cert (some block) = elim (K.parse block) [
    | none ↦ false
    | some certificate ↦ K.verify dns_name ca_cert certificate
  ]

  unfoldable pub valid_parts : Option Text → Option Text → Option Text → Bool
  unfolding verify_block
  valid_parts (some cert) (some key) (some ca_cert) =
      K.is_key_pair cert key && K.has_certs ca_cert && verify_block ca_cert (K.decode cert)
  valid_parts _ _ _ = false

  abbrev pub valid_cert : Artifacts → Bool
  valid_cert certs = valid_parts certs.cert certs.key certs.ca_cert

module _ {S : Type 0} (ch : CertReadWriter S) where
  -- After a write: another racer may have been first.
  unfoldable pub after_write : Reply CertError Artifacts × S → Ensured S
  after_write (success certs, s) = ((success certs, true), s)
  after_write (failure not_found_error, s) = ((failure not_found_error, true), s)
  after_write (failure already_exist_error, s) = let certs = ch.read s in ((certs.0, true), certs.1)
  after_write (failure (from_api e), s) = ((failure (from_api e), true), s)
  after_write (failure (failed e), s) = ((failure (failed e), true), s)

  unfoldable pub after_read : Reply CertError Artifacts × S → Ensured S
  unfolding after_write
  after_read (success certs, s) = ((success certs, false), s)
  after_read (failure not_found_error, s) = after_write (ch.write s)
  after_read (failure already_exist_error, s) = ((failure already_exist_error, false), s)
  after_read (failure (from_api e), s) = ((failure (from_api e), false), s)
  after_read (failure (failed e), s) = ((failure (failed e), false), s)

  unfoldable pub create_if_not_exists : S → Ensured S
  unfolding after_read
  create_if_not_exists s = after_read (ch.read s)

-- After the certificate was replaced.
unfoldable pub replaced : {S : Type 0} → Reply CertError Artifacts × S → Ensured S
replaced (failure e, s) = ((failure e, false), s)
replaced (success certs, s) = ((success certs, true), s)

module _ (K : Crypto) {S : Type 0} where
  -- What was read or created is replaced if it is not valid.
  unfoldable pub renew : Text → CertReadWriter S → Ensured S → Ensured S
  unfolding replaced
  renew dns_name ch ((failure e, changed), s) = ((failure e, changed), s)
  renew dns_name ch ((success certs, changed), s) =
      if valid_cert K dns_name certs
      then ((success certs, changed), s)
      else replaced (ch.overwrite certs.resource_version s)

  -- `handleCommon`; a nil interface is `none`
  unfoldable pub handle_common : Text → Option (CertReadWriter S) → S → Ensured S
  unfolding renew create_if_not_exists
  handle_common dns_name ch s =
      if is_empty dns_name
      then ((failure (failed (codes "dnsName should not be empty")), false), s)
      else elim ch [
        | none ↦ ((failure (failed (codes "certReaderWriter should not be nil")), false), s)
        | some rw ↦ renew dns_name rw (create_if_not_exists rw s)
      ]
