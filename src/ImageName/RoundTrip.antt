-- ===== src/ImageName/RoundTrip.antt =====
-- module_utils/_image_name.py: `combine` on the parts that `parse` finds.
use mathlib.Core.List.{append-nil, append_assoc}
use openstack_osa_office_clu.Prelude.{
  true, false, [], ◌∷◌, ◌++◌, some, none, list_eq, nat_eq, ◌≡◌, ◌≢◌, refl, sym, ap, ◌∙◌, ◌⊎◌, inl,
  inr, arith, Bool-cases, Option-cases,
}
use openstack_osa_office_clu.Prelude.Text.{
  Text, has, split_once, rsplit_once, split_once-eq-some, rsplit_once-eq-some,
}
use openstack_osa_office_clu.ImageName.{
  parse, combine, is_host, split_digest, split_tag, split_registry, with_prefix, registry_part,
}

-- Each step of `parse` takes off what `combine` puts there.
split_digest_join :
    (name : Text)
    → (split_digest name).1 ≢ some []
    → (split_digest name).0 ++ with_prefix b'@' (split_digest name).1 ≡ name
unfolding split_digest
split_digest_join name ne = elim (Option-cases (rsplit_once b'@' name)) [
  | inl e ↦ rw (e, split_digest) (append-nil name)
  | inr ((a, []), e) ↦ absurd (ne (rw (e, split_digest)))
  | inr ((a, c ∷ b), e) ↦ rw (e, split_digest) (sym (rsplit_once-eq-some b'@' name e).0)
]

split_tag_join :
    (name : Text)
    → (split_tag name).1 ≢ some []
    → (split_tag name).0 ++ with_prefix b':' (split_tag name).1 ≡ name
unfolding split_tag
split_tag_join name ne = elim (Option-cases (rsplit_once b':' name)) [
  | inl e ↦ rw (e, split_tag) (append-nil name)
  | inr ((a, b), e) ↦ elim (Bool-cases (has b'/' b)) [
    | inl s ↦ rw (e, split_tag) (rw s (append-nil name))
    | inr s ↦
        let found : split_tag name ≡ (a, some b) = rw (e, split_tag) (rw s) in
        rw found (given a b (rw found at ne) ∙ sym (rsplit_once-eq-some b':' name e).0)
  ]
]
  where
    given : (a b : Text) → some b ≢ some [] → a ++ with_prefix b':' (some b) ≡ a ++ b':' ∷ b
    given a [] ne = absurd (ne refl)
    given a (c ∷ b) ne = refl

pub is_host-nil : is_host [] ≡ false
unfolding is_host
is_host-nil = refl

split_registry_join :
    (name : Text)
    → ((split_registry name).0 ≡ none) ⊎ ((split_registry name).1 ≢ [])
    → registry_part (split_registry name).0 (split_registry name).1 ++ (split_registry name).1
      ≡ name
unfolding split_registry
split_registry_join name ne = elim (Option-cases (split_once b'/' name)) [
  | inl e ↦ rw (e, split_registry)
  | inr ((a, b), e) ↦ elim (Bool-cases (is_host a)) [
    | inl s ↦
        let found : split_registry name ≡ (some a, b) = rw (e, split_registry) (rw s) in
        rw found (given a b s (rw found at ne) ∙ sym (split_once-eq-some b'/' name e).0)
    | inr s ↦ rw (e, split_registry) (rw s)
  ]
]
  where
    given :
        (a b : Text)
        → is_host a ≡ true
        → ((some a ≡ none) ⊎ (b ≢ []))
        → registry_part (some a) b ++ b ≡ a ++ b'/' ∷ b
    given [] b s ne = absurd (ground (arith, is_host-nil))
    given (c ∷ a) [] s (inl ne) = absurd (ground arith)
    given (c ∷ a) [] s (inr ne) = absurd (ne refl)
    given (c ∷ a) (x ∷ b) s ne = append_assoc (c ∷ a) (b'/' ∷ []) (x ∷ b)

pub regroup : (a b c d : Text) → a ++ (b ++ (c ++ d)) ≡ ((a ++ b) ++ c) ++ d
regroup a b c d = simp append_assoc

-- A name is the text that its parts combine to, if `parse` has found no empty tag, no empty
-- digest, and no registry with an empty path.
pub combine-parse :
    (name : Text)
    → (parse name).tag ≢ some []
    → (parse name).digest ≢ some []
    → ((parse name).registry ≡ none) ⊎ ((parse name).path ≢ [])
    → combine (parse name) ≡ name
unfolding parse combine
combine-parse name t d r =
    let (name1, digest) = split_digest name in
    let (name2, tag) = split_tag name1 in
    let (registry, path) = split_registry name2 in
    regroup (registry_part registry path) path (with_prefix b':' tag) (with_prefix b'@' digest)
    ∙ ap (λ u. (u ++ with_prefix b':' tag) ++ with_prefix b'@' digest) (split_registry_join name2 r)
    ∙ ap (λ u. u ++ with_prefix b'@' digest) (split_tag_join name1 t)
    ∙ split_digest_join name d
