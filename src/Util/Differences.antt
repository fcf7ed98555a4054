-- ===== src/Util/Differences.antt =====
-- `DifferenceTracker` of module_utils/_util.py: the differences in the order in which they are added.
pub mod Laws
mod Examples
use openstack_osa_office_clu.Prelude.{
  Bool, true, false, ◌&&◌, ◌||◌, not, List, [], ◌∷◌, ◌++◌, some, none, Option, String, string_eq,
  ◌=?◌, any, truthy, map,
}
use openstack_osa_office_clu.Prelude.Dict.{Dict, insert}

pub record Item (V : Type 0) : Type 0 where
  pub name : String
  pub parameter : V
  pub active : V

-- The tracker's one field, `_diff`.
abbrev pub Tracker : Type 0 → Type 0
Tracker V = List (Item V)

module _ {V : Type 0} where
  unfoldable pub add : String → V → V → Tracker V → Tracker V
  add name parameter active diff =
      diff ++ record { name = name; parameter = parameter; active = active } ∷ []

  unfoldable pub merge : Tracker V → Tracker V → Tracker V
  merge diff other = diff ++ other

  unfoldable pub empty : Tracker V → Bool
  empty diff = not (truthy diff)

  -- The loop of `get_before_after`, with the two dicts that it fills.
  unfoldable pub fill : Tracker V → Dict String V → Dict String V → Dict String V × Dict String V
  unfolding insert
  fill [] before after = (before, after)
  fill (item ∷ diff) before after =
      fill diff (insert item.name item.active before) (insert item.name item.parameter after)

  unfoldable pub get_before_after : Tracker V → Dict String V × Dict String V
  unfolding fill
  get_before_after diff = fill diff [] []

  unfoldable pub has_difference_for : String → Tracker V → Bool
  has_difference_for name diff = any (λ item. item.name =? name) diff

  -- The dicts `{name: {"parameter": …, "container": …}}`, by name and the two values.
  unfoldable pub get_legacy_docker_container_diffs : Tracker V → List (String × V × V)
  get_legacy_docker_container_diffs = map (λ entry. (entry.name, entry.parameter, entry.active))

  unfoldable pub get_legacy_docker_diffs : Tracker V → List String
  get_legacy_docker_diffs = map (λ entry. entry.name)
