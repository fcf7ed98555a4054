-- ===== src/Regex/Counted.antt =====
-- What the counted repetitions and the literal texts match.
use openstack_osa_office_clu.Prelude.{
  ℕ, zero, suc, ◌≤◌, Bool, true, [], ◌∷◌, ◌++◌, ◌≡◌, refl, inl, inr, ◌↔◌, arith, all, length, ap,
  ◌∙◌,
}
use openstack_osa_office_clu.Prelude.Text.{Text}
use openstack_osa_office_clu.Regex.{Regex, seq, one, up_to, times, literal}
use openstack_osa_office_clu.Regex.Sound.{
  Over, Matches, m_empty, m_one, m_seq, m_left, m_right, Matches-empty, Matches-one, Matches-seq,
  Matches-alt,
}

pub Matches-one_seq :
    {p : ℕ → Bool} {r : Regex} {t : Text}
    → Matches (seq (one p) r) t
    → (c : ℕ) × (s : Text) × (p c ≡ true) × Matches r s × (t ≡ c ∷ s)
Matches-one_seq h =
    let (a, b, x, y, e) = Matches-seq h in
    let (c, f, k) = Matches-one x in (c, b, k, y, e ∙ ap (λ u. u ++ b) f)

pub Matches-up_to :
    (p : ℕ → Bool) (n : ℕ) (t : Text)
    → Matches (up_to n (one p)) t ↔ ((all p t ≡ true) × (length t ≤ n))
Matches-up_to p zero [] = (λ h. (refl, omega arith), λ h. m_empty)
Matches-up_to p zero (c ∷ t) =
    (λ h. absurd (ground (arith, Matches-empty h)), λ h. absurd (omega arith))
Matches-up_to p (suc n) [] = (λ h. (refl, omega arith), λ h. m_left m_empty)
Matches-up_to p (suc n) (c ∷ t) =
    let ih = Matches-up_to p n t in
    (
      λ h. elim (Matches-alt h) [
        | inl k ↦ absurd (ground (arith, Matches-empty k))
        | inr k ↦
            let (d, s, x, y, e) = Matches-one_seq k in
            let same : s ≡ t = cc in ground (arith, ih.0 (rw same at y))
      ],
      λ h. m_right (m_seq (m_one (ground arith)) (ih.1 (ground arith)) refl),
    )

pub Matches-times :
    (p : ℕ → Bool) (n : ℕ) (t : Text)
    → Matches (times n (one p)) t ↔ ((all p t ≡ true) × (length t ≡ n))
Matches-times p zero [] = (λ h. (refl, refl), λ h. m_empty)
Matches-times p zero (c ∷ t) =
    (λ h. absurd (ground (arith, Matches-empty h)), λ h. absurd (omega arith))
Matches-times p (suc n) [] = (
  λ h. let (d, s, x, y, e) = Matches-one_seq h in absurd (ground arith),
  λ h. absurd (omega arith),
)
Matches-times p (suc n) (c ∷ t) =
    let ih = Matches-times p n t in
    (
      λ h.
          let (d, s, x, y, e) = Matches-one_seq h in
          let same : s ≡ t = cc in ground (arith, ih.0 (rw same at y)),
      λ h. m_seq (m_one (ground arith)) (ih.1 (ground arith)) refl,
    )

pub Matches-literal : (s t : Text) → Matches (literal s) t ↔ (t ≡ s)
Matches-literal [] t = (Matches-empty, λ e. rw e m_empty)
Matches-literal (c ∷ s) t = (
  λ h. let (d, u, x, y, e) = Matches-one_seq h in ground (arith, (Matches-literal s u).0 y),
  λ e. m_seq (m_one (ground arith)) ((Matches-literal s s).1 refl) e,
)

module _ (P : ℕ → Bool) where
  pub up_to-Over : (n : ℕ) (r : Regex) → Over P r → Over P (up_to n r)
  up_to-Over zero r o = tt
  up_to-Over (suc n) r o = (tt, (o, up_to-Over n r o))

  pub times-Over : (n : ℕ) (r : Regex) → Over P r → Over P (times n r)
  times-Over zero r o = tt
  times-Over (suc n) r o = (o, times-Over n r o)

  pub literal-Over : (s : Text) → all P s ≡ true → Over P (literal s)
  literal-Over [] h = tt
  literal-Over (c ∷ s) h = ((λ x e. ground arith), literal-Over s (ground arith))
