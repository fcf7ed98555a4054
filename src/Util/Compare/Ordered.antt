-- ===== src/Util/Compare/Ordered.antt =====
-- `compare_generic` of module_utils/_util.py: the loop that compares sequences, and subsequences.
use openstack_osa_office_clu.Prelude.{
  true, List, [], ◌∷◌, some, Eq, ◌≡◌, refl, ◌↔◌, ◌⊎◌, inl, inr, arith, Option-cases, Bool-cases,
}
use openstack_osa_office_clu.Util.Compare.{
  ordered_in, skip_past, compare_generic, allow_more_present, list,
}

-- `a` is what is left of `b` when some of its elements are struck out.
pub data Subsequence {ℓ} {V : Type ℓ} : List V → List V → Type ℓ where
  finish : Subsequence [] []
  keep : {x : V} {a b : List V} → Subsequence a b → Subsequence (x ∷ a) (x ∷ b)
  skip : {y : V} {a b : List V} → Subsequence a b → Subsequence a (y ∷ b)

module _ {ℓ} {V : Type ℓ} where
  nil-Subsequence : (b : List V) → Subsequence [] b
  nil-Subsequence [] = finish
  nil-Subsequence (y ∷ b) = skip (nil-Subsequence b)

  pub Subsequence_refl : (a : List V) → Subsequence a a
  Subsequence_refl [] = finish
  Subsequence_refl (x ∷ a) = keep (Subsequence_refl a)

  -- The first element can be given up.
  Subsequence-tail : {x : V} (a b : List V) → Subsequence (x ∷ a) b → Subsequence a b
  Subsequence-tail a _ (keep s) = skip s
  Subsequence-tail a _ (skip {b} s) = skip (Subsequence-tail a b s)

  Subsequence-cons :
      {x y : V} {a b : List V}
      → Subsequence (x ∷ a) (y ∷ b)
      → ((x ≡ y) × Subsequence a b) ⊎ Subsequence (x ∷ a) b
  Subsequence-cons (keep s) = inl (refl, s)
  Subsequence-cons (skip s) = inr s

  Subsequence-rest : {x y : V} {a b : List V} → Subsequence (x ∷ a) (y ∷ b) → Subsequence a b
  Subsequence-rest {a} {b} s = elim (Subsequence-cons s) [
    | inl t ↦ t.1
    | inr t ↦ Subsequence-tail a b t
  ]

module _ {ℓ} {V : Type ℓ} ⦃v : Eq V⦄ where
  skip_past-sound :
      (x : V) (a b : List V) {rest : List V}
      → skip_past x b ≡ some rest
      → Subsequence a rest
      → Subsequence (x ∷ a) b
  unfolding skip_past
  skip_past-sound x a [] h s = absurd (ground arith)
  skip_past-sound x a (y ∷ b) {rest} h s = elim (Bool-cases (v.beq y x)) [
    | inl e ↦
        let same : y ≡ x = (v.beq_iff y x).0 e in
        let left : b ≡ rest = ground arith in rw (same, left) (keep s)
    | inr e ↦ skip (skip_past-sound x a b (ground arith) s)
  ]

  -- Skipping to the first match leaves the most behind.
  skip_past_complete :
      (x : V) (a b : List V)
      → Subsequence (x ∷ a) b
      → (rest : List V) × (skip_past x b ≡ some rest) × Subsequence a rest
  unfolding skip_past
  skip_past_complete x a [] s = elim s [ ]
  skip_past_complete x a (y ∷ b) s = elim (Bool-cases (v.beq y x)) [
    | inl e ↦ (b, rw e, Subsequence-rest s)
    | inr e ↦ elim (Subsequence-cons s) [
      | inl (same, t) ↦ absurd (ground (arith, v.beq_iff y x))
      | inr t ↦ let (rest, f, r) = skip_past_complete x a b t in (rest, rw e f, r)
    ]
  ]

  pub ordered_in_iff : (a b : List V) → (ordered_in a b ≡ true) ↔ Subsequence a b
  unfolding ordered_in
  ordered_in_iff [] b = ((λ h. nil-Subsequence b), (λ s. refl))
  ordered_in_iff (x ∷ a) b = (
    (λ h. elim (Option-cases (skip_past x b)) [
      | inl e ↦ absurd (ground arith)
      | inr (rest, e) ↦ skip_past-sound x a b e ((ordered_in_iff a rest).0 (ground arith))
    ]),
    (λ s.
        let (rest, e, t) = skip_past_complete x a b s in
        rw (e, ordered_in) ((ordered_in_iff a rest).1 t)),
  )

-- A sequence compares equal to another under `allow_more_present` exactly when it is a
-- subsequence of it.
pub compare_generic_list :
    (K V : Type 0) ⦃k : Eq K⦄ ⦃v : Eq V⦄ (a b : List V)
    → (compare_generic K V allow_more_present list (some a) (some b) ≡ true) ↔ Subsequence a b
unfolding compare_generic
compare_generic_list K V a b = ordered_in_iff a b
