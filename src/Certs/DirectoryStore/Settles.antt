-- ===== src/Certs/DirectoryStore/Settles.antt =====
-- Runs of the writer on a directory, one after the other.
use persistent_pod_state.Base.{
  Text, text_eq, nat_eq, true, false, success, failure, Reply-cases, Bool, ◌≡◌, refl, ap, ◌∙◌,
  Bool-cases, inl, inr,
}
use persistent_pod_state.Base.Strings.{is_empty}
use persistent_pod_state.Atomic.Write.{Volume}
use persistent_pod_state.Certs.Writer.{Artifacts, CertError, Crypto, Ensured, valid_cert}
use persistent_pod_state.Certs.Writer.Laws.{
  handle_common_found, handle_common_absent, handle_common_invalid,
}
use persistent_pod_state.Certs.SecretStore.Laws.{Generates, IsFilled}
use persistent_pod_state.Certs.SecretStore.{CertGenerator}
use persistent_pod_state.Certs.DirectoryStore.{
  cert_file_names, DirectoryState, do_write, stored_certs, fs_cert_writer, ensure_cert_in_dir,
  ensure_exist, read_existing,
}
use persistent_pod_state.Certs.DirectoryStore.Stored.{PicksFresh, read_certs_found, read_missing}
use persistent_pod_state.Certs.DirectoryStore.RoundTrip.{
  kept, AreReachable, written, written_lem, written-HoldsCerts, HoldsCerts-read,
  HoldsCerts-AreReachable,
}

-- The values are those that a directory keeps.
kept_valid :
    (K : Crypto) (dns_name : Text) (certs : Artifacts)
    → IsFilled certs
    → valid_cert K dns_name (kept certs) ≡ valid_cert K dns_name certs
kept_valid K dns_name certs (a, b, c, d) = rw b.1 (rw c.1 (rw d.1 refl))

module _ (K : Crypto) (G : CertGenerator) (new_dir : Volume → Text) (dns_name : Text)
    (picks : PicksFresh new_dir) (named : is_empty dns_name ≡ false)
    (generates : Generates K G dns_name) where
  abbrev Run : DirectoryState G new_dir → Ensured (DirectoryState G new_dir)
  Run u = ensure_cert_in_dir G new_dir dns_name K u

  -- A run returns a valid certificate, and the next one returns its values without a change.
  pub record Settles (u : DirectoryState G new_dir) : Type 0 where
    pub certs : Artifacts
    pub again : Artifacts
    pub changed : Bool
    pub after : DirectoryState G new_dir
    pub first : ensure_cert_in_dir G new_dir dns_name K u ≡ ((success certs, changed), after)
    pub second : ensure_cert_in_dir G new_dir dns_name K after ≡ ((success again, false), after)
    pub is_valid : valid_cert K dns_name again ≡ true
    pub same_values : kept again ≡ kept certs
    pub was_valid : valid_cert K dns_name certs ≡ true
    pub reachable : AreReachable after.0

  run_valid :
      (u : DirectoryState G new_dir) (certs : Artifacts)
      → read_existing u.0 (ensure_exist cert_file_names u.0) ≡ success certs
      → valid_cert K dns_name certs ≡ true
      → Run u ≡ ((success certs, false), u)
  unfolding ensure_cert_in_dir
  run_valid u certs found valid =
      handle_common_found K dns_name (fs_cert_writer G new_dir dns_name) u u certs named
        (ap (λ r. (r, u)) found) valid

  do_write_lem :
      (vol : Volume) (g h : G.State) (certs : Artifacts)
      → G.generate dns_name g ≡ (success certs, h)
      → do_write G new_dir vol (G.generate dns_name g)
        ≡ (success certs, (written G new_dir picks certs vol, h))
  unfolding do_write stored_certs
  do_write_lem vol g h certs made =
      rw (made, do_write)
        (ap (stored_certs G new_dir certs h) (written_lem G new_dir picks certs vol))

  -- A run that has written is followed by one that reads.
  Settles-written :
      (u : DirectoryState G new_dir) (h : G.State) (certs : Artifacts)
      → valid_cert K dns_name certs ≡ true
      → IsFilled certs
      → AreReachable u.0
      → Run u ≡ ((success certs, true), (written G new_dir picks certs u.0, h))
      → Settles u
  Settles-written u h certs valid filled reachable run =
      let after : DirectoryState G new_dir = (written G new_dir picks certs u.0, h) in
      let held = written-HoldsCerts G new_dir picks certs u.0 reachable in
      let valid' = kept_valid K dns_name certs filled ∙ valid in
      record {
        certs = certs;
        again = kept certs;
        changed = true;
        after = after;
        first = run;
        second = run_valid after (kept certs) (HoldsCerts-read certs after.0 held) valid';
        is_valid = valid';
        same_values = refl;
        was_valid = valid;
        reachable = HoldsCerts-AreReachable certs after.0 held;
      }

  Settles-found :
      (u : DirectoryState G new_dir) (certs : Artifacts)
      → AreReachable u.0
      → read_existing u.0 (ensure_exist cert_file_names u.0) ≡ success certs
      → Settles u
  unfolding ensure_cert_in_dir
  Settles-found u certs reachable found = elim (Bool-cases (valid_cert K dns_name certs)) [
    | inl e ↦ record {
      certs = certs;
      again = certs;
      changed = false;
      after = u;
      first = run_valid u certs found e;
      second = run_valid u certs found e;
      is_valid = e;
      same_values = refl;
      was_valid = e;
      reachable = reachable;
    }
    | inr e ↦
        let (fresh, h, made, valid, filled) = generates u.1 in
        Settles-written u h fresh valid filled reachable (
          handle_common_invalid K dns_name (fs_cert_writer G new_dir dns_name) u u
            (written G new_dir picks fresh u.0, h) certs fresh named (ap (λ r. (r, u)) found) e
            (do_write_lem u.0 u.1 h fresh made))
  ]

  Settles-missing :
      (u : DirectoryState G new_dir) (e : CertError)
      → AreReachable u.0
      → ensure_exist cert_file_names u.0 ≡ failure e
      → Settles u
  unfolding ensure_cert_in_dir
  Settles-missing u e reachable missing =
      let (fresh, h, made, valid, filled) = generates u.1 in
      Settles-written u h fresh valid filled reachable (
        handle_common_absent K dns_name (fs_cert_writer G new_dir dns_name) u u
          (written G new_dir picks fresh u.0, h) fresh named
          (ap (λ r. (r, u)) (read_missing u.0 e missing)) (do_write_lem u.0 u.1 h fresh made) valid)

  pub ensure_cert_in_dir-Settles : (u : DirectoryState G new_dir) → AreReachable u.0 → Settles u
  ensure_cert_in_dir-Settles u reachable = elim (Reply-cases (ensure_exist cert_file_names u.0)) [
    | inr (x, there) ↦
        let (certs, found) = read_certs_found u.0 there in
        Settles-found u certs reachable
          (ap (read_existing u.0) there ∙ unfold read_existing in found)
    | inl (e, missing) ↦ Settles-missing u e reachable missing
  ]
