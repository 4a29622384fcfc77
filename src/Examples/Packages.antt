-- ===== src/Examples/Packages.antt =====
-- Simple packages for the generator, and an authority that they accept.
use persistent_pod_state.Base.Strings.{contains, has_prefix, has_prefix-append}
use persistent_pod_state.Base.{
  ℕ, ◌+◌, Text, codes, true, none, some, [], ◌∷◌, ◌++◌, success, ◌≡◌, refl, arith, text_eq, inr,
  ◌≤◌, ◌*◌, leb, ◌&&◌, inl, subst, sym, List,
}
use persistent_pod_state.Base.Lists.{drop}
use persistent_pod_state.Certs.Generator.{
  Pki, year, encode_cert, stored_authority, is_valid_ca_cert, verified_block, verified,
  parsed_authority, single_cert, SelfSignedCertGenerator,
}
use persistent_pod_state.Certs.Generator.Laws.{IsSound, IsListed}

-- A certificate is the time at which it ends, before its name.
abbrev ends : Text → ℕ
ends [] = 0
ends (time ∷ name) = time

-- The names that a certificate is for, one after another.
abbrev joined : List Text → Text
joined [] = []
joined (name ∷ names) = name ++ joined names

prefix-contains : (s p : Text) → has_prefix s p ≡ true → contains s p ≡ true
unfolding contains
prefix-contains [] p h = h
prefix-contains (x ∷ s) p h = ground arith

contains-append : (r s p : Text) → contains s p ≡ true → contains (r ++ s) p ≡ true
unfolding contains
contains-append [] s p h = h
contains-append (x ∷ r) s p h = ground (arith, contains-append r s p)

joined-contains :
    (name : Text) (names : List Text) → IsListed name names → contains (joined names) name ≡ true
joined-contains name [] h = absurd h
joined-contains name (n ∷ names) (inl e) =
    prefix-contains _ name
      (subst (λ m. has_prefix (m ++ joined names) name ≡ true) (sym e) (has_prefix-append name _))
joined-contains name (n ∷ names) (inr h) =
    contains-append n (joined names) name (joined-contains name names h)

-- A certificate is accepted for its names, until it or the authority ends.
abbrev pub packages : Pki
packages = record {
  PrivateKey = Text;
  Certificate = Text;
  Source = Unit {0};
  now = λ s. 1000;
  in_a_year = λ s. 1000 + year;
  generate_key = λ s. (success (codes "key"), s);
  random_serial = λ s. (success (codes "1"), s);
  new_self_signed_ca = λ name key s. (success ((1000 + 10 * year) ∷ name), s);
  not_before_of = λ c. 1000;
  create_certificate = λ t ca key ca_key s. (success (t.not_after ∷ joined t.dns_names), s);
  parse_certificate = λ bytes. success bytes;
  raw = λ c. c;
  marshal_key = λ key. key;
  encode_pem = λ kind bytes. kind ++ bytes;
  decode_pem = λ pem. some (drop 11 pem);
  parse_private_key = λ pem. success (some (drop 15 pem));
  parse_certs = λ pem. success (drop 11 pem ∷ []);
  is_key_pair = λ cert key. true;
  has_certs = λ pem. true;
  verify = λ name ca_cert time c.
      leb time (ends c) && leb time (ends (drop 11 ca_cert)) && contains c name;
  to4 = λ name. none;
}

abbrev pub HasNotEnded : Text → Text → ℕ → Type 0
HasNotEnded c key time = time ≤ ends c

pub packages-IsSound : IsSound packages HasNotEnded
unfolding encode_cert
packages-IsSound = record {
  in_a_year_bound = λ s. omega arith;
  generate_key_done = λ s. (codes "key", s, refl);
  random_serial_done = λ s. (codes "1", s, refl);
  new_self_signed_ca_done =
      λ name key s time later soon. ((1000 + 10 * year) ∷ name, s, refl, omega arith);
  create_certificate_done = λ t ca key ca_key s time can starts later usage. (
    t.not_after ∷ joined t.dns_names,
    s,
    t.not_after ∷ joined t.dns_names,
    refl,
    refl,
    refl,
    λ name covered.
        let there =
          contains-append (t.not_after ∷ []) (joined t.dns_names) name
            (joined-contains name t.dns_names covered) in
        ground arith,
  );
  has_certs_encoded = λ c. refl;
  decode_encoded = λ c. refl;
  parse_raw = λ c. refl;
}

pub accepted-HasNotEnded :
    (cp : SelfSignedCertGenerator) (s : Unit {0}) (key ca : Text)
    → stored_authority packages cp (1000 + year) ≡ some (key, ca)
    → HasNotEnded ca key (1000 + 180)
unfolding stored_authority is_valid_ca_cert verified_block verified parsed_authority single_cert
accepted-HasNotEnded cp s key ca h = ground arith

-- An authority is stored.
abbrev pub with_authority : SelfSignedCertGenerator
with_authority = record {
  ca_key = codes "RSA PRIVATE KEYkey";
  ca_cert = codes "CERTIFICATE" ++ ((1000 + 2 * year) ∷ codes "ca");
}

is_accepted :
    stored_authority packages with_authority (1000 + year)
    ≡ some (codes "key", (1000 + 2 * year) ∷ codes "ca")
unfolding stored_authority is_valid_ca_cert verified_block verified parsed_authority single_cert
    contains
is_accepted = refl
