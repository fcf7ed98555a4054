-- ===== src/Service/Compare.antt =====
-- `DockerService.compare`: the differences between the service that is asked for and the one that
-- there is, and whether it is to be made anew.
use openstack_osa_office_clu.Prelude.{
  Bool, not, ◌||◌, [], if◌then◌else◌, string_eq, nat_eq, list_eq, option_eq, ◌=?◌,
}
use openstack_osa_office_clu.Util.Differences.{Tracker, empty}
use openstack_osa_office_clu.Service.{Values, DockerService}
use openstack_osa_office_clu.Service.Changes.{have_networks_changed}
use openstack_osa_office_clu.Service.Parts.{
  Field, compare_placement, compare_resources, compare_policies, compare_container,
}

pub record Comparison (V : Type 0) : Type 0 where
  pub changed : Bool
  pub differences : Tracker (Field V)
  pub needs_rebuild : Bool
  pub force_update : Bool

module _ {V : Type 0} (values : Values V) (no_test : V) where
  -- The two places that set `needs_rebuild`, in their order.
  unfoldable pub needs_rebuild : DockerService V → DockerService V → Bool
  unfolding have_networks_changed
  needs_rebuild self os =
      if have_networks_changed values self.networks os.networks
      then not self.can_update_networks
      else not (self.mode =? os.mode)

  unfoldable pub compare : DockerService V → DockerService V → Comparison V
  unfolding compare_placement compare_resources compare_policies compare_container needs_rebuild
      empty
  compare self os =
      let differences = compare_container values no_test self os (
        compare_policies values no_test self os (
          compare_resources values no_test self os
            (compare_placement values no_test self os []))) in
      record {
        changed = not (empty differences) || self.force_update;
        differences = differences;
        needs_rebuild = needs_rebuild self os;
        force_update = self.force_update;
      }
