-- ===== src/Util/Compare/Modes.antt =====
-- How the comparison methods are related.
use openstack_osa_office_clu.Prelude.{
  Bool, true, false, List, [], ◌∷◌, some, none, Option, Eq, ◌≡◌, refl, ◌↔◌, inl, inr, arith,
  Bool-cases, all, any, contains, list_eq, list_beq_iff, beq_refl, All,
}
use openstack_osa_office_clu.Prelude.Dict.{Dict, lookup, NodupKeys, lookup-cons}
use openstack_osa_office_clu.Util.Compare.{
  Method, Datatype, ordered_in, compare_generic, ignore, allow_more_present, strict, list, set,
  set_dict, dict, value, Operand, compare_none, compare_strict, compare_more, dict_equal,
  compare_dict_allow_more_present, has_entry, subset_of, each_extended, each_extends,
}
use openstack_osa_office_clu.Util.Compare.Ordered.{Subsequence_refl, ordered_in_iff}

module _ {ℓ} {V : Type ℓ} ⦃v : Eq V⦄ where
  all-contains :
      (a b : List V)
      → all (contains b) a ≡ true
      → (x : V) → contains a x ≡ true
      → contains b x ≡ true
  all-contains [] b h x m = absurd (ground arith)
  all-contains (y ∷ a) b h x m = elim (Bool-cases (v.beq x y)) [
    | inl e ↦ rw ((v.beq_iff x y).0 e) (ground arith)
    | inr e ↦ all-contains a b (ground arith) x (ground arith)
  ]

  contains-all :
      (a b : List V)
      → ((x : V) → contains a x ≡ true → contains b x ≡ true)
      → all (contains b) a ≡ true
  contains-all [] b h = refl
  contains-all (y ∷ a) b h =
      let rest = contains-all a b (λ x m. h x (ground arith)) in
      let first = h y (ground (arith, beq_refl y)) in ground arith

  subset_of_refl : (a : List V) → subset_of a a ≡ true
  unfolding subset_of
  subset_of_refl a = contains-all a a (λ x m. m)

  ordered_in_refl : (a : List V) → ordered_in a a ≡ true
  ordered_in_refl a = (ordered_in_iff a a).1 (Subsequence_refl a)

module _ {ℓ} {A : Type ℓ} (R : A → A → Bool) where
  all-any_cons :
      (y : A) (xs b : List A)
      → all (λ x. any (R x) b) xs ≡ true
      → all (λ x. any (R x) (y ∷ b)) xs ≡ true
  all-any_cons y [] b h = refl
  all-any_cons y (x ∷ xs) b h = ground (arith, all-any_cons y xs b)

  all-any_refl : (a : List A) → All (λ x. R x x ≡ true) a → all (λ x. any (R x) a) a ≡ true
  all-any_refl [] h = refl
  all-any_refl (x ∷ a) h = ground (arith, all-any_cons x a a (all-any_refl a h.1))

module _ {ℓ κ} {K : Type ℓ} {V : Type κ} ⦃k : Eq K⦄ ⦃v : Eq V⦄ where
  all-has_entry :
      (key : K) (x : V) (d xs : Dict K V)
      → lookup key d ≡ none
      → all (has_entry d) xs ≡ true
      → all (has_entry ((key, x) ∷ d)) xs ≡ true
  unfolding has_entry
  all-has_entry key x d [] n h = refl
  all-has_entry key x d ((j, y) ∷ xs) n h =
      ground (arith, all-has_entry key x d xs n, lookup-cons j key x d, k.beq_iff j key)

  pub compare_dict_refl : (d : Dict K V) → NodupKeys d → compare_dict_allow_more_present d d ≡ true
  unfolding compare_dict_allow_more_present
  compare_dict_refl [] u = refl
  compare_dict_refl ((key, x) ∷ d) (fresh, u) =
      let rest = all-has_entry key x d d fresh (compare_dict_refl d u) in
      ground (arith, lookup-cons key key x d, beq_refl key, beq_refl x)

  All-compare_dict_refl :
      (a : List (Dict K V))
      → All NodupKeys a
      → All (λ d. compare_dict_allow_more_present d d ≡ true) a
  All-compare_dict_refl [] u = tt
  All-compare_dict_refl (d ∷ a) u = (compare_dict_refl d u.0, All-compare_dict_refl a u.1)

module _ (K V : Type 0) ⦃k : Eq K⦄ ⦃v : Eq V⦄ where
  compare_none-more :
      (d : Datatype) (n : Bool) (x : Operand K V d)
      → compare_none K V strict d n x ≡ true
      → compare_none K V allow_more_present d n x ≡ true
  unfolding compare_none
  compare_none-more value n x h = h
  compare_none-more list true x h = refl
  compare_none-more list false x h = h
  compare_none-more set true x h = refl
  compare_none-more set false x h = h
  compare_none-more set_dict true x h = refl
  compare_none-more set_dict false x h = h
  compare_none-more dict true x h = refl
  compare_none-more dict false x h = h

  compare_strict-more :
      (d : Datatype) (a b : Operand K V d)
      → compare_strict K V d a b ≡ true
      → compare_more K V d a b ≡ true
  unfolding compare_strict compare_more dict_equal
  compare_strict-more value a b h = h
  compare_strict-more list a b h = rw ((list_beq_iff a b).0 h) (ordered_in_refl b)
  compare_strict-more set a b h = ground arith
  compare_strict-more set_dict a b h = ground arith
  compare_strict-more dict a b h = ground arith

  -- What compares equal under `strict` compares equal under `allow_more_present`, for all
  -- datatypes, `None` on either side included.
  pub compare_generic-strict_more :
      (d : Datatype) (a b : Option (Operand K V d))
      → compare_generic K V strict d a b ≡ true
      → compare_generic K V allow_more_present d a b ≡ true
  unfolding compare_generic
  compare_generic-strict_more d none none h = refl
  compare_generic-strict_more d none (some b) h = compare_none-more d true b h
  compare_generic-strict_more d (some a) none h = compare_none-more d false a h
  compare_generic-strict_more d (some a) (some b) h = compare_strict-more d a b h

  -- A dictionary has each key once.
  abbrev pub IsWellFormed : (d : Datatype) → Option (Operand K V d) → Type 0
  IsWellFormed dict (some a) = NodupKeys a
  IsWellFormed set_dict (some a) = All NodupKeys a
  IsWellFormed _ _ = Unit

  compare_strict_refl :
      (d : Datatype) (a : Operand K V d) → IsWellFormed d (some a) → compare_strict K V d a a ≡ true
  unfolding compare_strict dict_equal
  compare_strict_refl value a w = beq_refl a
  compare_strict_refl list a w = (list_beq_iff a a).1 refl
  compare_strict_refl set a w = ground (arith, subset_of_refl a)
  compare_strict_refl dict a w = ground (arith, compare_dict_refl a w)
  compare_strict_refl set_dict a w =
      unfold each_extended each_extends in
      ground (
        arith,
        all-any_refl (λ av bv. compare_dict_allow_more_present av bv) a (All-compare_dict_refl a w),
        all-any_refl (λ bv av. compare_dict_allow_more_present av bv) a (All-compare_dict_refl a w),
      )

  -- A value compares equal to itself under every method and datatype, `None` included, if its
  -- dictionaries have each key once.
  pub compare_generic_refl :
      (m : Method) (d : Datatype) (a : Option (Operand K V d))
      → IsWellFormed d a
      → compare_generic K V m d a a ≡ true
  unfolding compare_generic
  compare_generic_refl ignore d a w = refl
  compare_generic_refl strict d none w = refl
  compare_generic_refl strict d (some a) w = compare_strict_refl d a w
  compare_generic_refl allow_more_present d none w = refl
  compare_generic_refl allow_more_present d (some a) w =
      compare_strict-more d a a (compare_strict_refl d a w)

  -- Two sets compare equal under `strict` exactly when they have the same members, whatever the
  -- order and the number of occurrences.
  pub compare_generic_set :
      (a b : List V)
      → (compare_generic K V strict set (some a) (some b) ≡ true)
        ↔ ((x : V) → (contains a x ≡ true) ↔ (contains b x ≡ true))
  unfolding compare_generic compare_strict subset_of
  compare_generic_set a b = (
    (λ h x. (all-contains a b (ground arith) x, all-contains b a (ground arith) x)),
    (λ h. ground (arith, contains-all a b (λ x. (h x).0), contains-all b a (λ x. (h x).1))),
  )
