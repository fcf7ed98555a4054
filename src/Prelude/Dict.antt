-- ===== src/Prelude/Dict.antt =====
-- Python dictionaries: association lists in insertion order, with each key once.
use mathlib.Core.Path.{◌≡◌, refl}
use mathlib.Core.Option.{Option, none, some}
use mathlib.Core.List.{List, [], ◌∷◌}
use native.Mathlib.Omega.{arith}
use openstack_osa_office_clu.Prelude.Lists.{All}
use openstack_osa_office_clu.Prelude.Tests.{if◌then◌else◌}
use openstack_osa_office_clu.Prelude.Equality.{Eq}

abbrev pub Dict {ℓ κ} : Type ℓ → Type κ → Type (ℓ ⊔ κ)
Dict K V = List (K × V)

module _ {ℓ κ} {K : Type ℓ} {V : Type κ} ⦃e : Eq K⦄ where
  -- `d.get(k)`
  unfoldable pub lookup : K → Dict K V → Option V
  lookup k [] = none
  lookup k ((j, v) ∷ d) = if e.beq k j then some v else lookup k d

  -- `d[k] = v`
  unfoldable pub insert : K → V → Dict K V → Dict K V
  insert k v [] = (k, v) ∷ []
  insert k v ((j, w) ∷ d) = if e.beq k j then (j, v) ∷ d else (j, w) ∷ insert k v d

  -- No key is listed twice.
  abbrev pub NodupKeys : Dict K V → Type κ
  NodupKeys [] = Unit
  NodupKeys ((k, _) ∷ d) = (lookup k d ≡ none) × NodupKeys d

  pub lookup-cons :
      (j k : K) (v : V) (d : Dict K V)
      → lookup j ((k, v) ∷ d) ≡ (if e.beq j k then some v else lookup j d)
  unfolding lookup
  lookup-cons j k v d = refl

  pub lookup-nil : (k : K) → lookup k [] ≡ none
  unfolding lookup
  lookup-nil k = refl

  pub lookup-insert :
      (j k : K) (v : V) (d : Dict K V)
      → lookup j (insert k v d) ≡ (if e.beq j k then some v else lookup j d)
  unfolding insert lookup
  lookup-insert j k v [] = refl
  lookup-insert j k v ((i, w) ∷ d) =
      ground (arith, e.beq_iff j k, e.beq_iff k i, e.beq_iff j i, lookup-insert j k v d)

  pub insert-NodupKeys : (k : K) (v : V) (d : Dict K V) → NodupKeys d → NodupKeys (insert k v d)
  unfolding insert
  insert-NodupKeys k v [] _ = (lookup-nil k, tt)
  insert-NodupKeys k v ((j, w) ∷ d) (fresh, u) =
      ground (arith, insert-NodupKeys k v d u, lookup-insert j k v d, e.beq_iff k j, e.beq_iff j k)

  abbrev pub IsEntry : Dict K V → K × V → Type κ
  IsEntry d (k, v) = lookup k d ≡ some v

  IsEntry-cons :
      (k : K) (v : V) (d xs : Dict K V)
      → lookup k d ≡ none
      → All (IsEntry d) xs
      → All (IsEntry ((k, v) ∷ d)) xs
  IsEntry-cons k v d [] n h = tt
  IsEntry-cons k v d ((j, w) ∷ xs) n h =
      (ground (arith, lookup-cons j k v d, e.beq_iff j k), IsEntry-cons k v d xs n h.1)

  -- Each entry of a dict is what a lookup of its key finds.
  pub NodupKeys-IsEntry : (d : Dict K V) → NodupKeys d → All (IsEntry d) d
  NodupKeys-IsEntry [] u = tt
  NodupKeys-IsEntry ((k, v) ∷ d) (fresh, u) = (
    ground (arith, lookup-cons k k v d, e.beq_iff k k),
    IsEntry-cons k v d d fresh (NodupKeys-IsEntry d u),
  )
