-- ===== src/ImageName/Tags.antt =====
-- Which texts `is_tag` and `is_digest` accept.
use openstack_osa_office_clu.Prelude.{
  ℕ, ◌≤◌, Bool, true, [], ◌∷◌, ◌++◌, ◌≡◌, refl, arith, ◌⊎◌, inl, inr, ◌↔◌, all, length, ap, ◌∙◌,
}
use openstack_osa_office_clu.Prelude.Text.{Text, codes, before_newline_iff}
use openstack_osa_office_clu.Regex.{Regex, seq, one, up_to, times, literal, line_match}
use openstack_osa_office_clu.Regex.Sound.{Matches, line_match_iff, m_one, m_seq, Matches-seq}
use openstack_osa_office_clu.Regex.Counted.{
  Matches-one_seq, Matches-up_to, Matches-times, Matches-literal,
}
use openstack_osa_office_clu.ImageName.{
  is_tag, is_digest, tag_re, digest_re, is_tag_start, is_tag_char, is_hex,
}

-- A first character that starts a tag, and up to 127 more.
pub data IsTag : Text → Type 0 where
  tag_of :
      {c : ℕ} {s : Text}
      → is_tag_start c ≡ true
      → all is_tag_char s ≡ true
      → length s ≤ 127
      → IsTag (c ∷ s)

-- `sha256:` and 64 hexadecimal digits.
pub data IsDigest (t : Text) : Type 0 where
  digest_of :
      (s : Text) → all is_hex s ≡ true → length s ≡ 64 → t ≡ codes "sha256:" ++ s → IsDigest t

-- As `P` says, or with one newline behind such a text.
pub data UpToNewline (P : Text → Type 0) (t : Text) : Type 0 where
  exactly : P t → UpToNewline P t
  newline_after : (s : Text) → P s → t ≡ s ++ b'\n' ∷ [] → UpToNewline P t

Matches-tag_re : (t : Text) → Matches tag_re t ↔ IsTag t
unfolding tag_re
Matches-tag_re t = (
  λ h.
      let (c, s, p, m, e) = Matches-one_seq h in
      let rest = (Matches-up_to is_tag_char 127 s).0 m in rw e (tag_of p rest.0 rest.1),
  from t,
)
  where
    from : (t : Text) → IsTag t → Matches (seq (one is_tag_start) (up_to 127 (one is_tag_char))) t
    from _ (tag_of {s} p a n) = m_seq (m_one p) ((Matches-up_to is_tag_char 127 s).1 (a, n)) refl

Matches-digest_re : (t : Text) → Matches digest_re t ↔ IsDigest t
unfolding digest_re
Matches-digest_re t = (
  λ h.
      let (a, s, x, y, e) = Matches-seq h in
      let rest = (Matches-times is_hex 64 s).0 y in
      digest_of s rest.0 rest.1 (e ∙ ap (λ u. u ++ s) ((Matches-literal (codes "sha256:") a).0 x)),
  from,
)
  where
    from : IsDigest t → Matches (seq (literal (codes "sha256:")) (times 64 (one is_hex))) t
    from (digest_of s a n e) =
        m_seq ((Matches-literal (codes "sha256:") (codes "sha256:")).1 refl)
          ((Matches-times is_hex 64 s).1 (a, n)) e

module _ (r : Regex) (P : Text → Type 0) (same : (t : Text) → Matches r t ↔ P t) (t : Text) where
  line_match-UpToNewline : (line_match r t ≡ true) ↔ UpToNewline P t
  line_match-UpToNewline = (
    λ h. elim ((line_match_iff r t).0 h) [
      | inl m ↦ exactly ((same t).0 m)
      | inr (s, e, m) ↦ newline_after s ((same s).0 m) ((before_newline_iff t s).0 e)
    ],
    λ h. (line_match_iff r t).1 (elim h [
      | exactly p ↦ inl ((same t).1 p)
      | newline_after s p e ↦ inr (s, (before_newline_iff t s).1 e, (same s).1 p)
    ]),
  )

UpToNewline-ne-nil : (P : Text → Type 0) → ¬ (P []) → ¬ (UpToNewline P [])
UpToNewline-ne-nil P h (exactly p) = h p
UpToNewline-ne-nil P h (newline_after [] p e) = absurd (ground arith)
UpToNewline-ne-nil P h (newline_after (c ∷ s) p e) = absurd (ground arith)

IsTag-ne-nil : ¬ (IsTag [])
IsTag-ne-nil h = elim h [ ]

IsDigest-ne-nil : ¬ (IsDigest [])
IsDigest-ne-nil (digest_of s a n e) = absurd (ground arith)

-- `is_tag` accepts the empty text if the caller allows it, tags, tags with one newline behind
-- them, and nothing else.
pub is_tag_iff :
    (t : Text) (allow_empty : Bool)
    → (is_tag t allow_empty ≡ true) ↔ (((t ≡ []) × (allow_empty ≡ true)) ⊎ UpToNewline IsTag t)
unfolding is_tag
is_tag_iff [] allow = (
  λ h. inl (refl, h),
  λ h. elim h [ inl k ↦ k.1 | inr k ↦ absurd (UpToNewline-ne-nil IsTag IsTag-ne-nil k) ],
)
is_tag_iff (c ∷ s) allow =
    let same = line_match-UpToNewline tag_re IsTag Matches-tag_re (c ∷ s) in
    (λ h. inr (same.0 h), λ h. elim h [ inl k ↦ absurd (ground arith) | inr k ↦ same.1 k ])

-- `is_digest` accepts the empty text if the caller allows it, `sha256:` with 64 hexadecimal
-- digits, that with one newline behind it, and nothing else.
pub is_digest_iff :
    (t : Text) (allow_empty : Bool)
    → (is_digest t allow_empty ≡ true)
      ↔ (((t ≡ []) × (allow_empty ≡ true)) ⊎ UpToNewline IsDigest t)
unfolding is_digest
is_digest_iff [] allow = (
  λ h. inl (refl, h),
  λ h. elim h [ inl k ↦ k.1 | inr k ↦ absurd (UpToNewline-ne-nil IsDigest IsDigest-ne-nil k) ],
)
is_digest_iff (c ∷ s) allow =
    let same = line_match-UpToNewline digest_re IsDigest Matches-digest_re (c ∷ s) in
    (λ h. inr (same.0 h), λ h. elim h [ inl k ↦ absurd (ground arith) | inr k ↦ same.1 k ])
