-- ===== src/ImageName/Recovered.antt =====
-- module_utils/_image_name.py: `parse` on the text that `combine` makes of an image name.
use mathlib.Core.List.{append-nil, append_assoc}
use openstack_osa_office_clu.Prelude.{
  ok, ℕ, Bool, true, false, not, ◌&&◌, [], ◌∷◌, ◌++◌, ◌==◌, some, none, Option, truthy, list_eq,
  nat_eq, ◌≡◌, ◌≢◌, refl, inl, inr, arith, Bool-cases, Option-cases, all, all-append,
}
use openstack_osa_office_clu.Prelude.Text.{
  Text, codes, has, has-append, split_once, rsplit_once, split_once-join, rsplit_once-join,
  rsplit_once-none, before_newline_iff,
}
use openstack_osa_office_clu.Regex.{Regex, one, alt, char, literal, plus as some_of, line_match}
use openstack_osa_office_clu.Regex.Counted.{up_to-Over, times-Over, literal-Over}
use openstack_osa_office_clu.ImageName.Normal.{check_path_iff, or_check-none, raise_first-ok}
use openstack_osa_office_clu.Regex.Sound.{Over, line_match_iff, Matches-all}
use openstack_osa_office_clu.ImageName.RoundTrip.{is_host-nil, regroup}
use openstack_osa_office_clu.ImageName.{
  ImageName, component, word, is_tag_char, is_hex, is_tag, is_digest, check_registry, check_path,
  check_tag, check_digest, parse, combine, is_host, split_digest, split_tag, split_registry,
  with_prefix, registry_part, validate, path_re, tag_re, digest_re,
}

-- The parts that `parse` can tell apart again.
abbrev GoodDigest : Option Text → Type 0
GoodDigest none = Unit
GoodDigest (some d) = (truthy d ≡ true) × (has b'@' d ≡ false)

abbrev GoodTag : Option Text → Type 0
GoodTag none = Unit
GoodTag (some t) =
    (truthy t ≡ true) × (has b'@' t ≡ false) × (has b':' t ≡ false) × (has b'/' t ≡ false)

-- The text before the first slash, which `parse` takes for a registry if it looks like a host.
abbrev first_is_host : Text → Bool
first_is_host p = elim (split_once b'/' p) [ none ↦ false | some (a, b) ↦ is_host a ]

abbrev pub GoodRegistry : Option Text → Text → Type 0
GoodRegistry none p = first_is_host p ≡ false
GoodRegistry (some r) p = (is_host r ≡ true) × (has b'/' r ≡ false) × (has b'@' r ≡ false)

split_digest-with_prefix :
    (x : Text) (d : Option Text)
    → GoodDigest d
    → has b'@' x ≡ false
    → split_digest (x ++ with_prefix b'@' d) ≡ (x, d)
unfolding split_digest
split_digest-with_prefix x none g h = rw append-nil (rw (rsplit_once-none b'@' x h, split_digest))
split_digest-with_prefix x (some []) g h = absurd (ground arith)
split_digest-with_prefix x (some (c ∷ d)) g h =
    rw (rsplit_once-join b'@' x (c ∷ d) g.1, split_digest)

-- A colon in the registry is no tag's: there is a slash behind it.
has-rsplit_once :
    (r p : Text) {a b : Text}
    → has b':' p ≡ false
    → rsplit_once b':' (r ++ b'/' ∷ p) ≡ some (a, b)
    → has b'/' b ≡ true
unfolding rsplit_once has
has-rsplit_once [] p h e = absurd (ground (arith, rsplit_once-none b':' p h))
has-rsplit_once (x ∷ r) p h e = elim (Option-cases (rsplit_once b':' (r ++ b'/' ∷ p))) [
  | inl f ↦ ground (arith, has-append b'/' r (b'/' ∷ p))
  | inr ((a', b'), f) ↦ ground (arith, has-rsplit_once r p h f)
]

split_tag-registry :
    (r p : Text) → has b':' p ≡ false → split_tag (r ++ b'/' ∷ p) ≡ (r ++ b'/' ∷ p, none)
unfolding split_tag
split_tag-registry r p h = elim (Option-cases (rsplit_once b':' (r ++ b'/' ∷ p))) [
  | inl e ↦ rw (e, split_tag)
  | inr ((a, b), e) ↦ rw (e, split_tag) (rw (has-rsplit_once r p h e))
]

split_tag-with_prefix :
    (x : Text) (t : Option Text)
    → GoodTag t
    → split_tag x ≡ (x, none)
    → split_tag (x ++ with_prefix b':' t) ≡ (x, t)
unfolding split_tag
split_tag-with_prefix x none g h = rw append-nil h
split_tag-with_prefix x (some []) g h = absurd (ground arith)
split_tag-with_prefix x (some (c ∷ t)) g h =
    rw (rsplit_once-join b':' x (c ∷ t) g.2, split_tag) (rw g.3)

module _ (p : Text) (filled : truthy p ≡ true) where
  registry_part-some : (r : Text) → is_host r ≡ true → registry_part (some r) p ++ p ≡ r ++ b'/' ∷ p
  registry_part-some [] h = absurd (ground (arith, is_host-nil))
  registry_part-some (c ∷ r) h = rw filled (append_assoc (c ∷ r) (b'/' ∷ []) p)

  split_registry-registry_part :
      (r : Option Text) → GoodRegistry r p → split_registry (registry_part r p ++ p) ≡ (r, p)
  unfolding split_registry
  split_registry-registry_part none g = elim (Option-cases (split_once b'/' p)) [
    | inl e ↦ rw (e, split_registry)
    | inr ((a, b), e) ↦
        let other : is_host a ≡ false = ground arith in rw (e, split_registry) (rw other)
  ]
  split_registry-registry_part (some r) g =
      rw (registry_part-some r g.0) (rw (split_once-join b'/' r p g.1, split_registry) (rw g.0))

  module _ (no_at : has b'@' p ≡ false) (no_colon : has b':' p ≡ false) where
    split_tag-registry_part :
        (r : Option Text)
        → GoodRegistry r p
        → split_tag (registry_part r p ++ p) ≡ (registry_part r p ++ p, none)
    split_tag-registry_part none g =
        unfold split_tag in rw (rsplit_once-none b':' p no_colon, split_tag)
    split_tag-registry_part (some r) g =
        rw (registry_part-some r g.0) (split_tag-registry r p no_colon)

    has-registry_part :
        (r : Option Text) → GoodRegistry r p → has b'@' (registry_part r p ++ p) ≡ false
    has-registry_part none g = no_at
    has-registry_part (some r) g =
        rw (registry_part-some r g.0, has-append) (rw g.2 (unfold has in no_at))

has-with_prefix : (t : Option Text) → GoodTag t → has b'@' (with_prefix b':' t) ≡ false
unfolding has
has-with_prefix none g = refl
has-with_prefix (some []) g = refl
has-with_prefix (some (c ∷ t)) g = g.1

-- What `combine` writes of parts that can be told apart, `parse` reads back.
parse-combine_of_good :
    (i : ImageName)
    → truthy i.path ≡ true
    → has b'@' i.path ≡ false
    → has b':' i.path ≡ false
    → GoodRegistry i.registry i.path
    → GoodTag i.tag
    → GoodDigest i.digest
    → parse (combine i) ≡ i
unfolding parse combine
parse-combine_of_good i filled no_at no_colon r t d =
    let body = registry_part i.registry i.path ++ i.path in
    let name = body ++ with_prefix b':' i.tag in
    let clean : has b'@' name ≡ false = rw (has-append) (
      ground (
        arith,
        has-registry_part i.path filled no_at no_colon i.registry r,
        has-with_prefix i.tag t,
      )) in
    let tagless = split_tag-registry_part i.path filled no_at no_colon i.registry r in
    rw
      (regroup (registry_part i.registry i.path) i.path (with_prefix b':' i.tag)
        (with_prefix b'@' i.digest))
      (rw (split_digest-with_prefix name i.digest d clean) (
        rw (split_tag-with_prefix body i.tag t tagless)
          (rw (split_registry-registry_part i.path filled i.registry r))))

-- The characters that a pattern cannot match.
path_char : ℕ → Bool
path_char c = not (c == b'@') && not (c == b':')

tag_char : ℕ → Bool
tag_char c = not (c == b'@') && not (c == b':') && not (c == b'/')

digest_char : ℕ → Bool
digest_char c = not (c == b'@')

path_re-Over : Over path_char path_re
unfolding path_re path_char
path_re-Over =
    let word : Over path_char word = ((λ c h. ground arith), (λ c h. ground arith)) in
    let separator : Over path_char
        (alt (char b'.') (alt (char b'_') (alt (literal (codes "__")) (some_of (char b'-'))))) =
      (
        (λ c h. ground arith),
        (
          (λ c h. ground arith),
          (
            literal-Over path_char (codes "__") refl,
            ((λ c h. ground arith), (λ c h. ground arith)),
          ),
        ),
      ) in
    let part : Over path_char component = (word, (separator, word)) in
    (part, ((λ c h. ground arith), part))

tag_re-Over : Over tag_char tag_re
unfolding tag_re tag_char
tag_re-Over =
    ((λ c h. ground arith), up_to-Over tag_char 127 (one is_tag_char) (λ c h. ground arith))

digest_re-Over : Over digest_char digest_re
unfolding digest_re digest_char
digest_re-Over = (
  literal-Over digest_char (codes "sha256:") refl,
  times-Over digest_char 64 (one is_hex) (λ c h. ground arith),
)

-- A text without the character `x`.
all-has : (P : ℕ → Bool) (x : ℕ) (t : Text) → P x ≡ false → all P t ≡ true → has x t ≡ false
unfolding has
all-has P x [] n h = refl
all-has P x (c ∷ t) n h = elim (Bool-cases (c == x)) [
  | inl e ↦ let same : c ≡ x = ground arith in absurd (clash (rw same at (first c t h)) n)
  | inr e ↦ ground (arith, all-has P x t n)
]
  where
    first : (c : ℕ) (t : Text) → all P (c ∷ t) ≡ true → P c ≡ true
    first c t h = ground arith

    clash : P x ≡ true → P x ≡ false → ⊥
    clash p q = ground arith

line_match-all :
    (P : ℕ → Bool) (r : Regex) (t : Text)
    → P b'\n' ≡ true
    → Over P r
    → line_match r t ≡ true
    → all P t ≡ true
line_match-all P r t nl o h = elim ((line_match_iff r t).0 h) [
  | inl m ↦ Matches-all P m o
  | inr (s, e, m) ↦
      rw ((before_newline_iff t s).0 e, all-append P s (b'\n' ∷ []))
        (ground (arith, Matches-all P m o))
]

path_re_nil : line_match path_re [] ≡ false
unfolding line_match path_re
path_re_nil = refl

check_path-GoodPath :
    (p : Text)
    → check_path p ≡ none
    → (truthy p ≡ true) × (has b'@' p ≡ false) × (has b':' p ≡ false)
check_path-GoodPath p h =
    let m = (check_path_iff p).0 h in
    let clean = line_match-all path_char path_re p (unfold path_char in refl) path_re-Over m in
    (
      filled p m,
      all-has path_char b'@' p (unfold path_char in refl) clean,
      all-has path_char b':' p (unfold path_char in refl) clean,
    )
  where
    filled : (p : Text) → line_match path_re p ≡ true → truthy p ≡ true
    filled [] m = absurd (ground (arith, path_re_nil))
    filled (c ∷ p) m = refl

check_tag-GoodTag : (t : Option Text) → check_tag t ≡ none → t ≢ some [] → GoodTag t
check_tag-GoodTag none h ne = tt
check_tag-GoodTag (some []) h ne = absurd (ne refl)
check_tag-GoodTag (some (c ∷ t)) h ne =
    let m : line_match tag_re (c ∷ t) ≡ true = unfold check_tag is_tag in ground arith in
    let clean = line_match-all tag_char tag_re (c ∷ t) (unfold tag_char in refl) tag_re-Over m in
    (
      refl,
      all-has tag_char b'@' (c ∷ t) (unfold tag_char in refl) clean,
      all-has tag_char b':' (c ∷ t) (unfold tag_char in refl) clean,
      all-has tag_char b'/' (c ∷ t) (unfold tag_char in refl) clean,
    )

check_digest-GoodDigest : (d : Option Text) → check_digest d ≡ none → d ≢ some [] → GoodDigest d
check_digest-GoodDigest none h ne = tt
check_digest-GoodDigest (some []) h ne = absurd (ne refl)
check_digest-GoodDigest (some (c ∷ t)) h ne =
    let m : line_match digest_re (c ∷ t) ≡ true = unfold check_digest is_digest in ground arith in
    let clean =
      line_match-all digest_char digest_re (c ∷ t) (unfold digest_char in refl) digest_re-Over m in
    (refl, all-has digest_char b'@' (c ∷ t) (unfold digest_char in refl) clean)

-- A name that `validate` accepts, whose tag and digest are absent or not empty, and whose registry
-- is one that `parse` can tell from a path, is read back by `parse` from what `combine` writes.
pub parse-combine :
    (i : ImageName)
    → validate i ≡ ok i
    → GoodRegistry i.registry i.path
    → i.tag ≢ some []
    → i.digest ≢ some []
    → parse (combine i) ≡ i
unfolding validate
parse-combine i h r t d =
    let (reg, rest) = or_check-none (check_registry i.registry) _ (raise_first-ok _ i i h) in
    let (p, last) = or_check-none (check_path i.path) _ rest in
    let (tag, digest) = or_check-none (check_tag i.tag) (check_digest i.digest) last in
    let path = check_path-GoodPath i.path p in
    parse-combine_of_good i path.0 path.1 path.2 r (check_tag-GoodTag i.tag tag t)
      (check_digest-GoodDigest i.digest digest d)
