-- ===== src/Certs/Writer/Laws.antt =====
-- What a call of `handleCommon` guarantees, whatever store it works on.
use persistent_pod_state.Base.{
  Text, Bool, true, false, some, ◌≡◌, refl, sym, ap, subst, ◌∙◌, inl, inr, Reply, success, failure,
  Bool-cases,
}
use persistent_pod_state.Base.Strings.{is_empty}
use persistent_pod_state.Certs.Writer.{
  Artifacts, CertError, not_found_error, CertReadWriter, Crypto, Ensured, valid_cert, after_write,
  after_read, create_if_not_exists, replaced, renew, handle_common,
}

-- A reply that is a success is a valid certificate.
abbrev pub IsValidReply : Crypto → Text → Reply CertError Artifacts → Type 0
IsValidReply K dns_name r =
    (certs : Artifacts) → r ≡ success certs → valid_cert K dns_name certs ≡ true

pub success_injective :
    {a b : Artifacts} → ◌≡◌ {A = Reply CertError Artifacts} (success a) (success b) → a ≡ b
success_injective h = cc

replaced_success :
    {S : Type 0} (u : S) (certs : Artifacts)
    → replaced (success certs, u) ≡ ((success certs, true), u)
unfolding replaced
replaced_success u certs = refl

module _ (K : Crypto) {S : Type 0} (dns_name : Text) (ch : CertReadWriter S) where
  -- What a replacement writes is valid.
  abbrev pub OverwritesValid : Type 0
  OverwritesValid = (v : Text) (s : S) → IsValidReply K dns_name (ch.overwrite v s).0

  replaced-IsValidReply :
      (o : Reply CertError Artifacts × S)
      → IsValidReply K dns_name o.0
      → IsValidReply K dns_name (replaced o).0.0
  unfolding replaced
  replaced-IsValidReply (failure e, s) h certs k = cc
  replaced-IsValidReply (success made, s) h certs k = h certs k

  renew_kept :
      (certs : Artifacts) (changed : Bool) (s : S)
      → valid_cert K dns_name certs ≡ true
      → renew K dns_name ch ((success certs, changed), s) ≡ ((success certs, changed), s)
  unfolding renew
  renew_kept certs changed s valid = rw valid refl

  renew-IsValidReply :
      (o : Ensured S) → OverwritesValid → IsValidReply K dns_name (renew K dns_name ch o).0.0
  unfolding renew
  renew-IsValidReply ((failure e, changed), s) h = λ certs k. cc
  renew-IsValidReply ((success found, changed), s) h =
      elim (Bool-cases (valid_cert K dns_name found)) [
        | inl e ↦ λ certs k.
            let kept = renew_kept found changed s e in
            subst (λ c. valid_cert K dns_name c ≡ true)
              (success_injective (sym (ap (λ o. o.0.0) kept) ∙ k)) e
        | inr e ↦ rw e (replaced-IsValidReply _ (h found.resource_version s))
      ]

  -- Whatever a call returns is valid.
  pub handle_common-IsValidReply :
      OverwritesValid → (s : S) → IsValidReply K dns_name (handle_common K dns_name (some ch) s).0.0
  unfolding handle_common
  handle_common-IsValidReply h s = elim (Bool-cases (is_empty dns_name)) [
    | inl e ↦ rw e (λ certs k. cc)
    | inr e ↦ rw e (renew-IsValidReply (create_if_not_exists ch s) h)
  ]

  -- Where replacements are valid, whatever certificate a call returns is valid, whichever way it
  -- was come by.
  pub handle_common-valid_cert :
      OverwritesValid
      → (s : S) (certs : Artifacts) → (handle_common K dns_name (some ch) s).0.0 ≡ success certs
      → valid_cert K dns_name certs ≡ true
  handle_common-valid_cert h s = handle_common-IsValidReply h s

  kept_read :
      (t : S) (certs : Artifacts)
      → valid_cert K dns_name certs ≡ true
      → renew K dns_name ch (after_read ch (success certs, t)) ≡ ((success certs, false), t)
  unfolding after_read
  kept_read t certs valid = renew_kept certs false t valid

  kept_write :
      (u : S) (certs : Artifacts)
      → valid_cert K dns_name certs ≡ true
      → renew K dns_name ch (after_write ch (success certs, u)) ≡ ((success certs, true), u)
  unfolding after_write
  kept_write u certs valid = renew_kept certs true u valid

  renewed_read :
      (t : S) (old : Artifacts)
      → valid_cert K dns_name old ≡ false
      → renew K dns_name ch (after_read ch (success old, t))
        ≡ replaced (ch.overwrite old.resource_version t)
  unfolding renew after_read
  renewed_read t old invalid = rw invalid refl

  -- Where there is no certificate, one is written.
  absent_write : (t : S) → after_read ch (failure not_found_error, t) ≡ after_write ch (ch.write t)
  unfolding after_read
  absent_write t = refl

  handle_common_named :
      (s : S)
      → is_empty dns_name ≡ false
      → handle_common K dns_name (some ch) s ≡ renew K dns_name ch (after_read ch (ch.read s))
  unfolding handle_common create_if_not_exists
  handle_common_named s named = rw named refl

  -- Where a valid certificate is read, it is returned as it is, and nothing is written.
  pub handle_common_found :
      (s t : S) (certs : Artifacts)
      → is_empty dns_name ≡ false
      → ch.read s ≡ (success certs, t)
      → valid_cert K dns_name certs ≡ true
      → handle_common K dns_name (some ch) s ≡ ((success certs, false), t)
  handle_common_found s t certs named found valid =
      handle_common_named s named
      ∙ ap (λ o. renew K dns_name ch (after_read ch o)) found
      ∙ kept_read t certs valid

  -- Where there is none, what is written is returned.
  pub handle_common_absent :
      (s t u : S) (certs : Artifacts)
      → is_empty dns_name ≡ false
      → ch.read s ≡ (failure not_found_error, t)
      → ch.write t ≡ (success certs, u)
      → valid_cert K dns_name certs ≡ true
      → handle_common K dns_name (some ch) s ≡ ((success certs, true), u)
  handle_common_absent s t u certs named absent made valid =
      handle_common_named s named
      ∙ ap (λ o. renew K dns_name ch (after_read ch o)) absent
      ∙ ap (renew K dns_name ch) (absent_write t ∙ ap (after_write ch) made)
      ∙ kept_write u certs valid

  -- Where an invalid one is read, it is replaced.
  pub handle_common_invalid :
      (s t u : S) (old certs : Artifacts)
      → is_empty dns_name ≡ false
      → ch.read s ≡ (success old, t)
      → valid_cert K dns_name old ≡ false
      → ch.overwrite old.resource_version t ≡ (success certs, u)
      → handle_common K dns_name (some ch) s ≡ ((success certs, true), u)
  handle_common_invalid s t u old certs named found invalid made =
      handle_common_named s named
      ∙ ap (λ o. renew K dns_name ch (after_read ch o)) found
      ∙ renewed_read t old invalid
      ∙ ap replaced made
      ∙ replaced_success u certs
