-- ===== src/Util/Compare/Examples.antt =====
-- Comparisons of options, and the theorems at them.
use openstack_osa_office_clu.Prelude.{
  ℕ, true, [], ◌∷◌, some, none, ◌≡◌, ◌↔◌, refl, nat_eq, contains, List,
}
use openstack_osa_office_clu.Util.Compare.{
  compare_generic, strict, allow_more_present, list, set, dict,
}
use openstack_osa_office_clu.Util.Compare.Ordered.{Subsequence, compare_generic_list}
use openstack_osa_office_clu.Util.Compare.Modes.{compare_generic_set}

abbrev ports : List ℕ
ports = 80 ∷ 443 ∷ []

abbrev more_ports : List ℕ
more_ports = 22 ∷ 80 ∷ 8080 ∷ 443 ∷ []

list_more : compare_generic ℕ ℕ allow_more_present list (some ports) (some more_ports) ≡ true
unfolding compare_generic
list_more = refl

list_none : compare_generic ℕ ℕ strict list none (some []) ≡ true
unfolding compare_generic
list_none = refl

set_strict : compare_generic ℕ ℕ strict set (some (1 ∷ 2 ∷ 1 ∷ [])) (some (2 ∷ 1 ∷ [])) ≡ true
unfolding compare_generic
set_strict = refl

dict_strict :
    compare_generic ℕ ℕ strict dict (some ((1, 5) ∷ (2, 6) ∷ [])) (some ((2, 6) ∷ (1, 5) ∷ []))
    ≡ true
unfolding compare_generic
dict_strict = refl

compare_generic_list_example :
    (compare_generic ℕ ℕ allow_more_present list (some ports) (some more_ports) ≡ true)
    ↔ Subsequence ports more_ports
compare_generic_list_example = compare_generic_list ℕ ℕ ports more_ports

compare_generic_set_example :
    (compare_generic ℕ ℕ strict set (some (1 ∷ 2 ∷ [])) (some (2 ∷ 1 ∷ [])) ≡ true)
    ↔ ((x : ℕ) → (contains (1 ∷ 2 ∷ []) x ≡ true) ↔ (contains (2 ∷ 1 ∷ []) x ≡ true))
compare_generic_set_example = compare_generic_set ℕ ℕ (1 ∷ 2 ∷ []) (2 ∷ 1 ∷ [])
