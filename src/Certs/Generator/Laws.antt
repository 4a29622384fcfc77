-- ===== src/Certs/Generator/Laws.antt =====
-- The certificates of the generator, with what is documented of the packages that it uses.
use persistent_pod_state.Base.{
  ℕ, ◌+◌, ◌*◌, ◌≤◌, Text, codes, true, false, Option, none, some, Option-cases, List, [], ◌∷◌,
  Reply, success, failure, ◌≡◌, ◌⊎◌, inl, inr, refl, arith,
}
use persistent_pod_state.Base.Strings.{is_empty}
use persistent_pod_state.Certs.Writer.{Artifacts, Crypto, valid_cert, valid_parts, verify_block}
use persistent_pod_state.Certs.SecretStore.Laws.{Generates, IsFilled}
use persistent_pod_state.Certs.Generator.{
  Template, Pki, SelfSignedCertGenerator, year, server_auth, config_for, sign, new_signed_cert,
  encode_private_key, encode_cert, artifacts, stored_authority, new_authority, authority_or_new,
  generate_signed, generate_artifacts, self_signed, template_for,
}

abbrev parsed_or_none : {C : Type 0} → Reply Text C → Option C
parsed_or_none (success c) = some c
parsed_or_none (failure e) = none

-- What the writers use of the same packages, at a time.
abbrev pub crypto_at : Pki → ℕ → Crypto
crypto_at P time = record {
  Certificate = P.Certificate;
  is_key_pair = P.is_key_pair;
  has_certs = P.has_certs;
  decode = P.decode_pem;
  parse = λ bytes. parsed_or_none (P.parse_certificate bytes);
  verify = λ dns_name ca_cert c. P.verify dns_name ca_cert time c;
}

-- A name that a certificate is for, be it an address or a DNS name.
abbrev pub IsListed : Text → List Text → Type 0
IsListed name [] = ⊥
IsListed name (n ∷ names) = (n ≡ name) ⊎ IsListed name names

abbrev IsCovered : Text → Template → Option Text → Type 0
IsCovered name t none = IsListed name t.dns_names
IsCovered name t (some ip) = IsListed ip t.ip_addresses

abbrev pub Covers : Pki → Template → Text → Type 0
Covers P t name = IsCovered name t (P.to4 name)

-- A draw succeeds.
abbrev pub Draws : {A : Type 0} (P : Pki) → Reply Text A × P.Source → Type 0
Draws {A} P r = (a : A) × (s' : P.Source) × (r ≡ (success a, s'))

-- What is documented of the packages. `CanSign` says of a certificate, its key and a time that it is
-- one of an authority and holds at that time.
pub record IsSound (P : Pki) (CanSign : P.Certificate → P.PrivateKey → ℕ → Type 0) : Type 0 where
  pub in_a_year_bound : (s : P.Source) → P.in_a_year s ≤ P.now s + 2 * year
  pub generate_key_done : (s : P.Source) → Draws P (P.generate_key s)
  pub random_serial_done : (s : P.Source) → Draws P (P.random_serial s)
  pub new_self_signed_ca_done :
      (name : Text) (key : P.PrivateKey) (s : P.Source) (time : ℕ)
      → P.now s ≤ time
      → time ≤ P.now s + 2 * year
      → (c : P.Certificate) × (s' : P.Source) × (P.new_self_signed_ca name key s ≡ (success c, s'))
        × CanSign c key time
  pub create_certificate_done :
      (t : Template) (ca : P.Certificate) (key ca_key : P.PrivateKey) (s : P.Source) (time : ℕ)
      → CanSign ca ca_key time
      → t.not_before ≡ P.not_before_of ca
      → time ≤ t.not_after
      → t.ext_key_usage ≡ server_auth ∷ []
      → (bytes : Text) × (s' : P.Source) × (c : P.Certificate) × (P.create_certificate t ca key
            ca_key s
          ≡ (success bytes, s'))
        × (P.parse_certificate bytes ≡ success c)
        × (P.is_key_pair (encode_cert P c) (encode_private_key P key) ≡ true)
        × ((name : Text) → Covers P t name → P.verify name (encode_cert P ca) time c ≡ true)
  pub has_certs_encoded : (c : P.Certificate) → P.has_certs (encode_cert P c) ≡ true
  pub decode_encoded : (c : P.Certificate) → P.decode_pem (encode_cert P c) ≡ some (P.raw c)
  pub parse_raw : (c : P.Certificate) → P.parse_certificate (P.raw c) ≡ success c

module _ (P : Pki) (CanSign : P.Certificate → P.PrivateKey → ℕ → Type 0) (sound : IsSound P CanSign)
    (time : ℕ) (clock : (s : P.Source) → (P.now s ≤ time) × (time ≤ P.in_a_year s)) where
  -- An authority that can sign, and what the source is then.
  record Signs (r : Reply Text (P.PrivateKey × P.Certificate) × P.Source) : Type 0 where
    authority : P.PrivateKey × P.Certificate
    after : P.Source
    is_drawn : r ≡ (success authority, after)
    can_sign : CanSign authority.1 authority.0 time

  soon : (s : P.Source) → time ≤ P.now s + 2 * year
  soon s = omega (arith, (clock s).1, sound.in_a_year_bound s)

  new_authority-Signs : (s : P.Source) → Signs (new_authority P s)
  unfolding new_authority
  new_authority-Signs s =
      let (key, s1, key_drawn) = sound.generate_key_done s in
      let (c, s2, made, can_sign) =
        sound.new_self_signed_ca_done (codes "webhook-cert-ca") key s1 time (clock s1).0
          (soon s1) in
      record {
        authority = (key, c);
        after = s2;
        is_drawn = rw (key_drawn, made) refl;
        can_sign = can_sign;
      }

  authority_or_new-Signs :
      (o : Option (P.PrivateKey × P.Certificate)) (s : P.Source)
      → ((a : P.PrivateKey × P.Certificate) → o ≡ some a → CanSign a.1 a.0 time)
      → Signs (authority_or_new P o s)
  authority_or_new-Signs none s h = new_authority-Signs s
  authority_or_new-Signs (some a) s h = record {
    authority = a;
    after = s;
    is_drawn = refl;
    can_sign = h a refl;
  }

  template-Covers :
      (name : Text) (ca : P.Certificate) (serial : Text) (t : ℕ)
      → Covers P (template_for P (config_for P name) ca serial t) name
  template-Covers name ca serial t = elim (Option-cases (P.to4 name)) [
    | inl e ↦ rw e (inr (inl refl))
    | inr (ip, e) ↦ rw e (inl refl)
  ]

  -- A certificate for the name, by the authority.
  record Signed (name : Text) (ca : P.Certificate) (key : P.PrivateKey)
      (r : Reply Text P.Certificate × P.Source) : Type 0 where
    cert : P.Certificate
    after : P.Source
    is_drawn : r ≡ (success cert, after)
    is_pair : P.is_key_pair (encode_cert P cert) (encode_private_key P key) ≡ true
    verifies : P.verify name (encode_cert P ca) time cert ≡ true

  sign-Signed :
      (name : Text) (ca : P.Certificate) (key ca_key : P.PrivateKey) (serial : Text) (s : P.Source)
      → CanSign ca ca_key time
      → Signed name ca key (sign P (config_for P name) key ca ca_key serial s)
  unfolding sign
  sign-Signed name ca key ca_key serial s can =
      let t = template_for P (config_for P name) ca serial (P.now s) in
      let (bytes, s', c, made, parsed, pair, verifies) =
        sound.create_certificate_done t ca key ca_key s time can refl (omega (arith, soon s))
          refl in
      record {
        cert = c;
        after = s';
        is_drawn = rw (made, parsed) refl;
        is_pair = pair;
        verifies = verifies name (template-Covers name ca serial (P.now s));
      }

  new_signed_cert-Signed :
      (name : Text) (ca : P.Certificate) (key ca_key : P.PrivateKey) (s : P.Source)
      → is_empty name ≡ false
      → CanSign ca ca_key time
      → Signed name ca key (new_signed_cert P (config_for P name) key ca ca_key s)
  unfolding new_signed_cert
  new_signed_cert-Signed name ca key ca_key s named can =
      let (serial, s1, serial_drawn) = sound.random_serial_done s in
      rw (serial_drawn, named) (sign-Signed name ca key ca_key serial s1 can)

  -- What the generator returns is valid, and complete.
  pub record Generated (name : Text) (r : Reply Text Artifacts × P.Source) : Type 0 where
    pub certs : Artifacts
    pub after : P.Source
    pub is_drawn : r ≡ (success certs, after)
    pub is_valid : valid_cert (crypto_at P time) name certs ≡ true
    pub filled : IsFilled certs

  artifacts-valid_cert :
      (name : Text) (key : P.PrivateKey) (cert ca : P.Certificate) (ca_key : P.PrivateKey)
      → P.is_key_pair (encode_cert P cert) (encode_private_key P key) ≡ true
      → P.verify name (encode_cert P ca) time cert ≡ true
      → valid_cert (crypto_at P time) name (artifacts P key cert (ca_key, ca)) ≡ true
  unfolding artifacts valid_parts verify_block
  artifacts-valid_cert name key cert ca ca_key pair verifies =
      rw (pair, sound.has_certs_encoded ca, sound.decode_encoded cert, sound.parse_raw cert)
        verifies

  artifacts-IsFilled :
      (key : P.PrivateKey) (cert : P.Certificate) (a : P.PrivateKey × P.Certificate)
      → IsFilled (artifacts P key cert a)
  unfolding artifacts
  artifacts-IsFilled key cert a = ((_, refl), (_, refl), (_, refl), (_, refl))

  generate_signed-Generated :
      (name : Text) (a : P.PrivateKey × P.Certificate) (s : P.Source)
      → is_empty name ≡ false
      → CanSign a.1 a.0 time
      → Generated name (generate_signed P name a s)
  unfolding generate_signed
  generate_signed-Generated name (ca_key, ca) s named can =
      let (key, s1, key_drawn) = sound.generate_key_done s in
      let signed = new_signed_cert-Signed name ca key ca_key s1 named can in
      record {
        certs = artifacts P key signed.cert (ca_key, ca);
        after = signed.after;
        is_drawn = rw (key_drawn, signed.is_drawn) refl;
        is_valid =
            artifacts-valid_cert name key signed.cert ca ca_key signed.is_pair signed.verifies;
        filled = artifacts-IsFilled key signed.cert (ca_key, ca);
      }

  pub generate_artifacts-Generated :
      (name : Text) (cp : SelfSignedCertGenerator) (s : P.Source)
      → is_empty name ≡ false
      → ((key : P.PrivateKey) (ca : P.Certificate)
          → stored_authority P cp (P.in_a_year s) ≡ some (key, ca)
          → CanSign ca key time)
      → Generated name (generate_artifacts P name cp s)
  unfolding generate_artifacts
  generate_artifacts-Generated name cp s named accepted =
      let a =
        authority_or_new-Signs (stored_authority P cp (P.in_a_year s)) s
          (λ a e. accepted a.0 a.1 e) in
      rw a.is_drawn (generate_signed-Generated name a.authority a.after named a.can_sign)

  -- Where no authority is accepted but one that can sign, the self-signed generator does what the
  -- writers ask of a generator.
  pub self_signed-Generates :
      (name : Text)
      → is_empty name ≡ false
      → ((cp : SelfSignedCertGenerator) (s : P.Source) (key : P.PrivateKey) (ca : P.Certificate)
          → stored_authority P cp (P.in_a_year s) ≡ some (key, ca)
          → CanSign ca key time)
      → Generates (crypto_at P time) (self_signed P) name
  unfolding self_signed
  self_signed-Generates name named accepted (cp, s) =
      let g = generate_artifacts-Generated name cp s named (accepted cp s) in
      (g.certs, (cp, g.after), rw g.is_drawn refl, g.is_valid, g.filled)
