-- ===== src/Util/Compare.antt =====
-- `compare_generic` of module_utils/_util.py, over the data that its documentation allows: values
-- with a test of equality, sequences, sets given as sequences, and dictionaries of values.
pub mod Ordered
pub mod Modes
mod Examples
use openstack_osa_office_clu.Prelude.{
  ℕ, Bool, true, false, not, ◌&&◌, ◌||◌, List, [], ◌∷◌, some, none, Option, Eq, list_eq, list_beq,
  contains, all, any, length, ◌==◌, if◌then◌else◌, truthy,
}
use openstack_osa_office_clu.Prelude.Dict.{Dict, lookup}

pub data Method : Type 0 where
  ignore strict allow_more_present : Method

pub data Datatype : Type 0 where
  value list set set_dict dict : Datatype

module _ {ℓ κ} {K : Type ℓ} {V : Type κ} ⦃k : Eq K⦄ ⦃v : Eq V⦄ where
  -- `key in bv and bv[key] == value`
  pub has_entry : Dict K V → K × V → Bool
  unfolding lookup
  has_entry bv (key, x) = elim (lookup key bv) [ none ↦ false | some y ↦ v.beq y x ]

  unfoldable pub compare_dict_allow_more_present : Dict K V → Dict K V → Bool
  unfolding has_entry
  compare_dict_allow_more_present av bv = all (has_entry bv) av

  -- `a == b` on dictionaries
  unfoldable pub dict_equal : Dict K V → Dict K V → Bool
  unfolding compare_dict_allow_more_present
  dict_equal av bv = length av == length bv && compare_dict_allow_more_present av bv

module _ {ℓ} {V : Type ℓ} ⦃v : Eq V⦄ where
  -- `while i < len(b) and b[i] != v: i += 1`, then `i += 1`: what is left of `b` behind the first
  -- value equal to `x`, `none` where the end is reached.
  unfoldable pub skip_past : V → List V → Option (List V)
  skip_past x [] = none
  skip_past x (y ∷ b) = let rest = skip_past x b in if v.beq y x then some b else rest

  -- `for v in a`, with `b` from the position `i`.
  unfoldable pub ordered_in : List V → List V → Bool
  unfolding skip_past
  ordered_in [] b = true
  ordered_in (x ∷ a) b = elim (skip_past x b) [ none ↦ false | some rest ↦ ordered_in a rest ]

  -- `set_b >= set_a`
  unfoldable pub subset_of : List V → List V → Bool
  subset_of a b = all (contains b) a

module _ {ℓ κ} {K : Type ℓ} {V : Type κ} ⦃k : Eq K⦄ ⦃v : Eq V⦄ where
  -- Each dictionary of `a` has one in `b` that holds all of its entries; and the other way round:
  -- each dictionary of `b` has one in `a` that it holds all entries of.
  unfoldable pub each_extended : List (Dict K V) → List (Dict K V) → Bool
  unfolding compare_dict_allow_more_present
  each_extended a b = all (λ av. any (compare_dict_allow_more_present av) b) a

  unfoldable pub each_extends : List (Dict K V) → List (Dict K V) → Bool
  unfolding compare_dict_allow_more_present
  each_extends a b = all (λ bv. any (λ av. compare_dict_allow_more_present av bv) a) b

-- What a value of each datatype is.
abbrev pub Operand : Type 0 → Type 0 → Datatype → Type 0
Operand K V value = V
Operand K V list = List V
Operand K V set = List V
Operand K V set_dict = List (Dict K V)
Operand K V dict = Dict K V

module _ (K V : Type 0) ⦃k : Eq K⦄ ⦃v : Eq V⦄ where
  -- One side is `None`: the flag says that it is `a`, and `x` is the other side.
  pub compare_none : Method → (d : Datatype) → Bool → Operand K V d → Bool
  compare_none m value a_is_none x = false
  compare_none allow_more_present list true x = true
  compare_none m list a_is_none x = not (truthy x)
  compare_none allow_more_present set true x = true
  compare_none m set a_is_none x = not (truthy x)
  compare_none allow_more_present set_dict true x = true
  compare_none m set_dict a_is_none x = not (truthy x)
  compare_none allow_more_present dict true x = true
  compare_none m dict a_is_none x = not (truthy x)

  pub compare_strict : (d : Datatype) → Operand K V d → Operand K V d → Bool
  compare_strict value a b = v.beq a b
  compare_strict list a b = list_beq a b
  compare_strict dict a b = dict_equal a b
  compare_strict set a b = subset_of a b && subset_of b a
  compare_strict set_dict a b = each_extended a b && each_extends a b

  pub compare_more : (d : Datatype) → Operand K V d → Operand K V d → Bool
  compare_more value a b = v.beq a b
  compare_more list a b = ordered_in a b
  compare_more dict a b = compare_dict_allow_more_present a b
  compare_more set a b = subset_of a b
  compare_more set_dict a b = each_extended a b

  unfoldable pub compare_generic :
      Method → (d : Datatype) → Option (Operand K V d) → Option (Operand K V d) → Bool
  unfolding compare_none compare_strict compare_more dict_equal ordered_in subset_of each_extended
      each_extends list_beq
  compare_generic ignore d a b = true
  compare_generic m d none none = true
  compare_generic m d none (some b) = compare_none m d true b
  compare_generic m d (some a) none = compare_none m d false a
  compare_generic strict d (some a) (some b) = compare_strict d a b
  compare_generic allow_more_present d (some a) (some b) = compare_more d a b
