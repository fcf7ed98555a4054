-- ===== src/Container/Differences.antt =====
-- The differences between the options and a container: `_record_differences`,
-- `has_different_configuration`, `has_different_resource_limits`, and the parameters of the calls.
use openstack_osa_office_clu.Prelude.{
  Bool, true, false, not, ◌&&◌, List, [], ◌∷◌, if◌then◌else◌, some, none, Option, String, string_eq,
  ◌=?◌, any, ◌≡◌, refl, sym, ◌∙◌, arith, Bool-cases, inl, inr,
}
use openstack_osa_office_clu.Prelude.Dict.{Dict, lookup}
use openstack_osa_office_clu.Util.Differences.{Tracker, add, merge, empty}
use openstack_osa_office_clu.Container.{Inspection}
use openstack_osa_office_clu.Container.Driver.{
  ContainerOption, ComparisonType, value, list, set, set_dict, dict, Group, Shown, option_value,
}

-- What the engines look at: the container, its image, the image to compare with, and the host.
pub record Seen (Image Host : Type 0) : Type 0 where
  pub container : Inspection
  pub container_image : Option Image
  pub image : Option Image
  pub host_info : Option Host

module _ {Value : Type 0} where
  empty-add :
      (name : String) (p a : Shown Value) (t : Tracker (Shown Value))
      → empty (add name p a t) ≡ false
  unfolding empty add
  empty-add name p a [] = refl
  empty-add name p a (x ∷ t) = refl

module _ {Value Image Host Create Update : Type 0} where
  -- Sets are sorted for the display.
  abbrev pub sorted :
      Group Value Image Host Create Update → ContainerOption → ComparisonType → Value → Value
  sorted g o value v = v
  sorted g o list v = v
  sorted g o dict v = v
  sorted g o set v = g.sort_set v
  sorted g o set_dict v =
      if o.name =? "expected_mounts" then g.sort_by_target v else g.sort_by_items v

  abbrev pub shown :
      Group Value Image Host Create Update → ContainerOption → Option Value → Shown Value
  shown g o none = option_value none
  shown g o (some v) = option_value (some (sorted g o o.comparison_type v))

  module _ (g : Group Value Image Host Create Update) (seen : Seen Image Host) where
    abbrev pub container_values : Dict String Value
    container_values = g.get_value seen.container seen.container_image seen.host_info

    abbrev pub expected_values : Dict String Value
    expected_values = g.get_expected_values seen.image g.values seen.host_info

    -- No match, and none that the engine ignores.
    abbrev pub mismatches : ContainerOption → Value → Option Value → Bool
    mismatches o expected actual =
        if g.compare_value o expected actual
        then false
        else not (g.ignore_mismatching_result o seen.image actual expected seen.host_info)

    abbrev pub record_option :
        ContainerOption
        → Option Value
        → Option Value
        → Tracker (Shown Value)
        → Tracker (Shown Value)
    record_option o none actual t = t
    record_option o (some expected) actual t =
        if mismatches o expected actual
        then add o.name (shown g o (some expected)) (shown g o actual) t
        else t

    pub record_options : List ContainerOption → Tracker (Shown Value) → Tracker (Shown Value)
    unfolding add lookup
    record_options [] t = t
    record_options (o ∷ os) t =
        record_options os
          (record_option o (lookup o.name expected_values) (lookup o.name container_values) t)

  -- `_record_differences`
  unfoldable pub record_differences :
      Group Value Image Host Create Update
      → Seen Image Host
      → Tracker (Shown Value)
      → Tracker (Shown Value)
  unfolding record_options
  record_differences g seen t = record_options g seen g.options t

  -- The loop of `has_different_configuration`: the differences that want a new container, and those
  -- that an update would do.
  unfoldable pub compare_groups :
      Seen Image Host
      → List (Group Value Image Host Create Update)
      → Tracker (Shown Value) × Tracker (Shown Value)
      → Tracker (Shown Value) × Tracker (Shown Value)
  unfolding record_differences
  compare_groups seen [] (differences, updates) = (differences, updates)
  compare_groups seen (g ∷ gs) (differences, updates) = compare_groups seen gs (
      if g.can_update_value
      then (differences, record_differences g seen updates)
      else (record_differences g seen differences, updates))

  unfoldable pub has_different_configuration :
      Seen Image Host → List (Group Value Image Host Create Update) → Bool × Tracker (Shown Value)
  unfolding compare_groups empty merge
  has_different_configuration seen gs =
      let found = compare_groups seen gs ([], []) in
      if empty found.0 then (false, found.0) else (true, merge found.0 found.1)

  unfoldable pub compare_limits :
      Seen Image Host
      → List (Group Value Image Host Create Update)
      → Tracker (Shown Value)
      → Tracker (Shown Value)
  unfolding record_differences
  compare_limits seen [] t = t
  compare_limits seen (g ∷ gs) t =
      compare_limits seen gs (if g.can_update_value then record_differences g seen t else t)

  unfoldable pub has_different_resource_limits :
      Seen Image Host → List (Group Value Image Host Create Update) → Bool × Tracker (Shown Value)
  unfolding compare_limits empty
  has_different_resource_limits seen gs =
      let differences = compare_limits seen gs [] in (not (empty differences), differences)

  -- `_compose_create_parameters` and `_compose_update_parameters`, from empty dicts; the image is
  -- put in by the caller's driver.
  unfoldable pub compose_create_parameters :
      List (Group Value Image Host Create Update) → Create → Create
  compose_create_parameters [] c = c
  compose_create_parameters (g ∷ gs) c =
      compose_create_parameters gs (if g.can_set_value then g.set_value g.values c else c)

  unfoldable pub compose_update_parameters :
      List (Group Value Image Host Create Update) → Update → Update
  compose_update_parameters [] u = u
  compose_update_parameters (g ∷ gs) u =
      compose_update_parameters gs (if g.can_update_value then g.update_value g.values u else u)

  unfoldable pub needs_container_image : List (Group Value Image Host Create Update) → Bool
  needs_container_image gs = any (λ g. g.needs_container_image g.values) gs

  unfoldable pub needs_host_info : List (Group Value Image Host Create Update) → Bool
  needs_host_info gs = any (λ g. g.needs_host_info g.values) gs

  -- What the group expects for the option and what the container has do not compare equal, and the
  -- engine does not ignore it. What is not expected does not differ.
  abbrev pub value_differs :
      Group Value Image Host Create Update
      → Seen Image Host
      → ContainerOption
      → Option Value
      → Option Value
      → Bool
  value_differs g seen o none actual = false
  value_differs g seen o (some v) actual =
      not (g.compare_value o v actual)
      && not (g.ignore_mismatching_result o seen.image actual v seen.host_info)

  abbrev pub option_differs :
      Group Value Image Host Create Update → Seen Image Host → ContainerOption → Bool
  option_differs g seen o =
      value_differs g seen o
        (lookup o.name (g.get_expected_values seen.image g.values seen.host_info))
        (lookup o.name (g.get_value seen.container seen.container_image seen.host_info))

  mismatches_lem :
      (g : Group Value Image Host Create Update) (seen : Seen Image Host) (o : ContainerOption)
      (v : Value) (actual : Option Value)
      → mismatches g seen o v actual ≡ value_differs g seen o (some v) actual
  mismatches_lem g seen o v actual = ground arith

  abbrev pub group_differs : Seen Image Host → Group Value Image Host Create Update → Bool
  group_differs seen g = any (option_differs g seen) g.options

  empty-record_option :
      (g : Group Value Image Host Create Update) (seen : Seen Image Host) (o : ContainerOption)
      (expected actual : Option Value) (t : Tracker (Shown Value))
      → empty (record_option g seen o expected actual t)
        ≡ (empty t && not (value_differs g seen o expected actual))
  empty-record_option g seen o none actual t = ground arith
  empty-record_option g seen o (some v) actual t =
      let same = mismatches_lem g seen o v actual in
      elim (Bool-cases (mismatches g seen o v actual)) [
        | inl e ↦
            rw (sym same)
              (rw e (empty-add o.name (shown g o (some v)) (shown g o actual) t ∙ ground arith))
        | inr e ↦ rw (sym same) (rw e (ground arith))
      ]

  empty-record_options :
      (g : Group Value Image Host Create Update) (seen : Seen Image Host)
      (os : List ContainerOption) (t : Tracker (Shown Value))
      → empty (record_options g seen os t) ≡ (empty t && not (any (option_differs g seen) os))
  unfolding record_options
  empty-record_options g seen [] t = ground arith
  empty-record_options g seen (o ∷ os) t = ground (
    arith,
    empty-record_options g seen os (
        record_option g seen o (lookup o.name (expected_values g seen))
          (lookup o.name (container_values g seen)) t),
    empty-record_option g seen o (lookup o.name (expected_values g seen))
        (lookup o.name (container_values g seen)) t,
  )

  empty-compare_groups :
      (seen : Seen Image Host) (gs : List (Group Value Image Host Create Update))
      (d u : Tracker (Shown Value))
      → empty (compare_groups seen gs (d, u)).0
        ≡ (empty d && not (any (λ g. not g.can_update_value && group_differs seen g) gs))
  unfolding compare_groups record_differences
  empty-compare_groups seen [] d u = ground arith
  empty-compare_groups seen (g ∷ gs) d u = elim (Bool-cases g.can_update_value) [
    | inl e ↦ rw e (empty-compare_groups seen gs d (record_differences g seen u))
    | inr e ↦ rw e (
        empty-compare_groups seen gs (record_differences g seen d) u
        ∙ ground (arith, empty-record_options g seen g.options d))
  ]

  -- A container is to be made anew exactly if, in a group that cannot be updated, an option has an
  -- expected value that the engine does not find equal to the container's value, and that the engine
  -- does not ignore; whatever the groups that can be updated say.
  pub has_different_configuration_iff :
      (seen : Seen Image Host) (gs : List (Group Value Image Host Create Update))
      → (has_different_configuration seen gs).0
        ≡ any (λ g. not g.can_update_value && group_differs seen g) gs
  unfolding has_different_configuration empty
  has_different_configuration_iff seen gs =
      let found = empty-compare_groups seen gs [] [] in
      elim (Bool-cases (empty (compare_groups seen gs ([], [])).0)) [
        | inl e ↦ rw e (ground (arith, found))
        | inr e ↦ rw e (ground (arith, found))
      ]
