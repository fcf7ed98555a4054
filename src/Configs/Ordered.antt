-- ===== src/Configs/Ordered.antt =====
-- docker_config with rolling versions: the order that `get_config` brings the configs into.
use openstack_osa_office_clu.Prelude.{
  Bool, true, List, [], ◌∷◌, some, none, ◌≡◌, arith, All, Bool-cases, inl, inr,
}
use openstack_osa_office_clu.Prelude.Int.{◌≤ℤ◌, leb_ℤ, ≤ℤ_refl, ≤ℤ_trans, ≤ℤ_total}
use openstack_osa_office_clu.Configs.{Config, get_version, insert_sorted, sort, keep_if, last}

-- No config stands behind one with a greater version.
abbrev pub IsOrdered : List Config → Type 0
IsOrdered [] = Unit
IsOrdered (c ∷ cs) = All (λ d. get_version c ≤ℤ get_version d) cs × IsOrdered cs

pub All-map :
    (P Q : Config → Type 0) (cs : List Config) → ((c : Config) → P c → Q c) → All P cs → All Q cs
All-map P Q [] f h = tt
All-map P Q (c ∷ cs) f h = (f c h.0, All-map P Q cs f h.1)

All-insert_sorted :
    (P : Config → Type 0) (c : Config) (ds : List Config)
    → P c
    → All P ds
    → All P (insert_sorted c ds)
unfolding insert_sorted
All-insert_sorted P c [] h k = (h, tt)
All-insert_sorted P c (d ∷ ds) h k = elim (Bool-cases (leb_ℤ (get_version c) (get_version d))) [
  | inl e ↦ rw e (h, k)
  | inr e ↦ rw e (k.0, All-insert_sorted P c ds h k.1)
]

insert_sorted-All :
    (P : Config → Type 0) (c : Config) (ds : List Config)
    → All P (insert_sorted c ds)
    → P c × All P ds
unfolding insert_sorted
insert_sorted-All P c [] h = h
insert_sorted-All P c (d ∷ ds) h = elim (Bool-cases (leb_ℤ (get_version c) (get_version d))) [
  | inl e ↦ rw e at h
  | inr e ↦
      let split : P d × All P (insert_sorted c ds) = rw e at h in
      let rest = insert_sorted-All P c ds split.1 in (rest.0, (split.0, rest.1))
]

insert_sorted-IsOrdered :
    (c : Config) (ds : List Config) → IsOrdered ds → IsOrdered (insert_sorted c ds)
unfolding insert_sorted
insert_sorted-IsOrdered c [] h = (tt, tt)
insert_sorted-IsOrdered c (d ∷ ds) h = elim (Bool-cases (leb_ℤ (get_version c) (get_version d))) [
  | inl e ↦ rw e (
    (
      e,
      All-map (λ x. get_version d ≤ℤ get_version x) (λ x. get_version c ≤ℤ get_version x) ds
          (λ x. ≤ℤ_trans (get_version c) (get_version d) (get_version x) e) h.0,
    ),
    h,
  )
  | inr e ↦ rw e (
    All-insert_sorted (λ x. get_version d ≤ℤ get_version x) c ds
        (≤ℤ_total (get_version c) (get_version d) e) h.0,
    insert_sorted-IsOrdered c ds h.1,
  )
]

pub sort-IsOrdered : (cs : List Config) → IsOrdered (sort cs)
unfolding sort
sort-IsOrdered [] = tt
sort-IsOrdered (c ∷ cs) = insert_sorted-IsOrdered c (sort cs) (sort-IsOrdered cs)

pub sort-All : (P : Config → Type 0) (cs : List Config) → All P (sort cs) → All P cs
unfolding sort
sort-All P [] h = tt
sort-All P (c ∷ cs) h =
    let split = insert_sorted-All P c (sort cs) h in (split.0, sort-All P cs split.1)

pub keep_if-All :
    (P : Config → Type 0) (test : Config → Bool) (cs : List Config)
    → All P (keep_if test cs)
    → All (λ c. test c ≡ true → P c) cs
keep_if-All P test [] h = tt
keep_if-All P test (c ∷ cs) h = elim (Bool-cases (test c)) [
  | inl e ↦
      let split : P c × All P (keep_if test cs) = rw e at h in
      ((λ _. split.0), keep_if-All P test cs split.1)
  | inr e ↦
      let rest : All P (keep_if test cs) = rw e at h in
      ((λ t. absurd (ground arith)), keep_if-All P test cs rest)
]

-- The last config of an ordered list has the greatest version.
pub last_greatest :
    (cs : List Config) (c : Config)
    → IsOrdered cs
    → last cs ≡ some c
    → All (λ d. get_version d ≤ℤ get_version c) cs
last_greatest [] c o h = tt
last_greatest (d ∷ []) c o h =
    let same : d ≡ c = ground arith in (rw same (≤ℤ_refl (get_version c)), tt)
last_greatest (d ∷ e ∷ cs) c o h =
    let rest = last_greatest (e ∷ cs) c o.1 h in
    (≤ℤ_trans (get_version d) (get_version e) (get_version c) o.0.0 rest.0, rest)

pub last-eq-none : (cs : List Config) → last cs ≡ none → (P : Config → Type 0) → All P cs
last-eq-none [] h P = tt
last-eq-none (c ∷ []) h P = absurd (ground arith)
last-eq-none (c ∷ d ∷ cs) h P = absurd (last-eq-none (d ∷ cs) h (λ _. ⊥)).0
