-- ===== src/Atomic/Write/Paths.antt =====
-- The loop of pathsToRemove that goes up from a file to the directories above it.
use persistent_pod_state.Base.{
  ℕ, zero, suc, ◌≤◌, ◌<◌, Text, nat_eq, none, Option-cases, [], ◌∷◌, ◌++◌, ◌≡◌, refl, sym, ap,
  subst, ◌∙◌, inl, inr, arith,
}
use persistent_pod_state.Base.Lists.{length, take, drop, take-append_length, length-append}
use persistent_pod_state.Base.Strings.{last_index, Free, last_index_sound, last_index-append}
use persistent_pod_state.Atomic.Write.{split_dir, trim_slash, sub_paths}

take-append_cons : (a : Text) (c : ℕ) (b : Text) → take (suc (length a)) (a ++ c ∷ b) ≡ a ++ c ∷ []
take-append_cons [] c b = refl
take-append_cons (x ∷ a) c b = rw (take-append_cons a c b) refl

split_dir-append : (a b : Text) → Free b'/' b → split_dir (a ++ b'/' ∷ b) ≡ a ++ b'/' ∷ []
unfolding split_dir
split_dir-append a b h = rw (last_index-append b'/' a b h, split_dir) (take-append_cons a b'/' b)

trim_slash-append : (a : Text) → trim_slash (a ++ b'/' ∷ []) ≡ a
unfolding trim_slash
trim_slash-append a = ground (
  arith,
  last_index-append b'/' a [] tt,
  length-append a (b'/' ∷ []),
  take-append_length a (b'/' ∷ []),
)

-- The directory of a path, without its slash.
go_up-append : (a b : Text) → Free b'/' b → trim_slash (split_dir (a ++ b'/' ∷ b)) ≡ a
go_up-append a b h = ap trim_slash (split_dir-append a b h) ∙ trim_slash-append a

shorter_cut :
    (a b : Text)
    → Free b'/' b
    → length (trim_slash (split_dir (a ++ b'/' ∷ b))) < length (a ++ b'/' ∷ b)
shorter_cut a b h = rw (go_up-append a b h) (omega (arith, length-append a (b'/' ∷ b)))

split_dir-nil : (path : Text) → last_index b'/' path ≡ none → split_dir path ≡ []
unfolding split_dir
split_dir-nil path e = rw (e, split_dir) refl

trim_slash-nil : trim_slash [] ≡ []
unfolding trim_slash last_index
trim_slash-nil = refl

shorter_free :
    (c : ℕ) (s : Text)
    → last_index b'/' (c ∷ s) ≡ none
    → length (trim_slash (split_dir (c ∷ s))) < length (c ∷ s)
shorter_free c s e = rw (split_dir-nil (c ∷ s) e, trim_slash-nil) (omega arith)

go_up_shorter : (c : ℕ) (s : Text) → length (trim_slash (split_dir (c ∷ s))) < length (c ∷ s)
go_up_shorter c s = elim (Option-cases (last_index b'/' (c ∷ s))) [
  | inl e ↦ shorter_free c s e
  | inr (i, e) ↦
      let (cut, free) = last_index_sound b'/' (c ∷ s) e in
      subst (λ q. length (trim_slash (split_dir q)) < length q) (sym cut)
        (shorter_cut (take i (c ∷ s)) (drop (suc i) (c ∷ s)) free)
]

sub_paths_same :
    (f g : ℕ) (path : Text)
    → length path ≤ f
    → length path ≤ g
    → sub_paths f path ≡ sub_paths g path
unfolding sub_paths
sub_paths_same zero zero [] hf hg = refl
sub_paths_same zero (suc g) [] hf hg = refl
sub_paths_same (suc f) zero [] hf hg = refl
sub_paths_same (suc f) (suc g) [] hf hg = refl
sub_paths_same zero g (c ∷ s) hf hg = absurd (omega arith)
sub_paths_same (suc f) zero (c ∷ s) hf hg = absurd (omega arith)
sub_paths_same (suc f) (suc g) (c ∷ s) hf hg =
    let less = go_up_shorter c s in
    ap (λ rest. (c ∷ s) ∷ rest)
      (sub_paths_same f g (trim_slash (split_dir (c ∷ s))) (omega (arith, less))
        (omega (arith, less)))

sub_paths-cons :
    (c : ℕ) (s a : Text) (fuel : ℕ)
    → trim_slash (split_dir (c ∷ s)) ≡ a
    → length a ≤ length s
    → length (c ∷ s) ≤ fuel
    → sub_paths fuel (c ∷ s) ≡ (c ∷ s) ∷ sub_paths (length a) a
unfolding sub_paths
sub_paths-cons c s a zero up short enough = absurd (omega arith)
sub_paths-cons c s a (suc fuel) up short enough =
    ap (λ q. (c ∷ s) ∷ sub_paths fuel q) up
    ∙ ap (λ rest. (c ∷ s) ∷ rest) (sub_paths_same fuel (length a) a (omega arith) (omega arith))

-- The loop that goes up from a file, with at least as many rounds as the path has bytes: for a
-- path with a last slash it gives the path, and then what it gives for the part before that slash,
-- with no more rounds than that part has bytes.
pub sub_paths-append :
    (a b : Text) (fuel : ℕ)
    → Free b'/' b
    → length (a ++ b'/' ∷ b) ≤ fuel
    → sub_paths fuel (a ++ b'/' ∷ b) ≡ (a ++ b'/' ∷ b) ∷ sub_paths (length a) a
sub_paths-append [] b fuel h enough =
    sub_paths-cons b'/' b [] fuel (go_up-append [] b h) (omega arith) enough
sub_paths-append (x ∷ a) b fuel h enough =
    sub_paths-cons x (a ++ b'/' ∷ b) (x ∷ a) fuel (go_up-append (x ∷ a) b h)
      (omega (arith, length-append a (b'/' ∷ b))) enough
