-- ===== src/Service/Idempotent.antt =====
-- `DockerService.compare` of a service with itself.
use openstack_osa_office_clu.Prelude.{
  length, Bool, true, false, not, ◌&&◌, [], some, none, Option, String, Eq, beq_refl, string_eq,
  nat_eq, option_eq, ◌=?◌, ◌≡◌, refl, ◌∙◌, arith,
}
use openstack_osa_office_clu.Prelude.Dict.{Dict}
use openstack_osa_office_clu.Util.Compare.{dict_equal}
use openstack_osa_office_clu.Util.Compare.Modes.{compare_dict_refl}
use openstack_osa_office_clu.Util.Differences.{Tracker, empty}
use openstack_osa_office_clu.Service.{Values, DockerService}
use openstack_osa_office_clu.Service.Changes
use openstack_osa_office_clu.Service.Unchanged.{
  has_changed_refl, have_texts_changed_refl, have_sorted_texts_changed_refl,
  has_publish_changed_refl, has_image_changed_refl, has_option_changed_refl,
  have_dicts_changed_refl, have_dicts_changed_in_order_refl, have_networks_changed_refl,
  NodupOption, NodupAll,
}
use openstack_osa_office_clu.Service.Compare
use openstack_osa_office_clu.Service.Parts

-- The dicts of a service have each key once.
pub record NodupService {V : Type 0} (values : Values V) (s : DockerService V) : Type 0 where
  pub log_driver_options : NodupOption values s.log_driver_options
  pub labels : NodupOption values s.labels
  pub container_labels : NodupOption values s.container_labels
  pub sysctls : NodupOption values s.sysctls
  pub hosts : NodupOption values s.hosts
  pub healthcheck : NodupOption values s.healthcheck
  pub rollback_config : NodupOption values s.rollback_config
  pub mounts : NodupAll values s.mounts
  pub configs : NodupAll values s.configs
  pub secrets : NodupAll values s.secrets
  pub placement_preferences : NodupAll values s.placement_preferences

module _ {V : Type 0} (values : Values V) (no_test : V) (s : DockerService V)
    (u : NodupService values s) where
  instance abbrev value_eq : Eq V
  value_eq = values.equal

  labels_differ_refl :
      (o : Option (Dict String (Option V)))
      → NodupOption values o
      → Parts.labels_differ values o o ≡ false
  unfolding Parts.labels_differ dict_equal
  labels_differ_refl none n = refl
  labels_differ_refl (some d) n = rw (beq_refl (length d), compare_dict_refl d n) refl

  same_dict_refl :
      (o : Option (Dict String (Option V)))
      → NodupOption values o
      → Parts.same_dict values o o ≡ true
  unfolding Parts.same_dict dict_equal
  same_dict_refl none n = refl
  same_dict_refl (some d) n = rw (beq_refl (length d), compare_dict_refl d n) refl

  has_healthcheck_changed_refl : Parts.has_healthcheck_changed values no_test s s ≡ false
  unfolding Parts.has_healthcheck_changed
  has_healthcheck_changed_refl = ground (arith, same_dict_refl s.healthcheck u.healthcheck)

  not_refl : {A : Type 0} ⦃e : Eq A⦄ (x : A) → not (x =? x) ≡ false
  not_refl x = rw (beq_refl x) refl

  user_refl : (o : Option V) → (Changes.is_true values o && not (o =? o)) ≡ false
  user_refl o = ground (arith, not_refl o)

  note-false :
      (name : String) (x y : Parts.Field V) (t : Tracker (Parts.Field V)) (c : Bool)
      → c ≡ false
      → Parts.note values c name x y t ≡ t
  unfolding Parts.note
  note-false name x y t c h = rw h refl

  compare_placement-same :
      (t : Tracker (Parts.Field V)) → Parts.compare_placement values no_test s s t ≡ t
  unfolding Parts.compare_placement
  compare_placement-same t =
      note-false _ _ _ _ _ (have_networks_changed_refl values s.networks)
      ∙ note-false _ _ _ _ _ (have_dicts_changed_refl values "secret_name" s.secrets u.secrets)
      ∙ note-false _ _ _ _ _ (have_dicts_changed_refl values "config_name" s.configs u.configs)
      ∙ note-false _ _ _ _ _ (have_dicts_changed_refl values "target" s.mounts u.mounts)
      ∙ note-false _ _ _ _ _ (not_refl s.mode)
      ∙ note-false _ _ _ _ _ (labels_differ_refl s.log_driver_options u.log_driver_options)
      ∙ note-false _ _ _ _ _ (has_changed_refl s.log_driver)
      ∙ note-false _ _ _ _ _ (have_sorted_texts_changed_refl s.env)
      ∙ note-false _ _ _ _ _ (has_changed_refl s.endpoint_mode)

  compare_resources-same :
      (t : Tracker (Parts.Field V)) → Parts.compare_resources values no_test s s t ≡ t
  unfolding Parts.compare_resources
  compare_resources-same t =
      note-false _ _ _ _ _ (has_changed_refl s.read_only)
      ∙ note-false _ _ _ _ _ (has_publish_changed_refl s.publish)
      ∙ note-false _ _ _ _ _ (has_changed_refl s.stop_grace_period)
      ∙ note-false _ _ _ _ _ (has_changed_refl s.stop_signal)
      ∙ note-false _ _ _ _ _ (labels_differ_refl s.sysctls u.sysctls)
      ∙ note-false _ _ _ _ _ (labels_differ_refl s.container_labels u.container_labels)
      ∙ note-false _ _ _ _ _ (has_changed_refl s.reserve_memory)
      ∙ note-false _ _ _ _ _ (has_changed_refl s.reserve_cpu)
      ∙ note-false _ _ _ _ _ (has_changed_refl s.limit_memory)
      ∙ note-false _ _ _ _ _ (has_changed_refl s.limit_cpu)
      ∙ note-false _ _ _ _ _ (labels_differ_refl s.labels u.labels)
      ∙ note-false _ _ _ _ _ (have_sorted_texts_changed_refl s.groups)
      ∙ note-false _ _ _ _ _
          (have_dicts_changed_in_order_refl values s.placement_preferences u.placement_preferences)
      ∙ note-false _ _ _ _ _ (has_changed_refl s.replicas_max_per_node)
      ∙ note-false _ _ _ _ _ (have_sorted_texts_changed_refl s.constraints)
      ∙ note-false _ _ _ _ _ (have_texts_changed_refl s.args)
      ∙ note-false _ _ _ _ _ (have_texts_changed_refl s.command)
      ∙ note-false _ _ _ _ _ (not_refl s.replicas)

  compare_policies-same :
      (t : Tracker (Parts.Field V)) → Parts.compare_policies values no_test s s t ≡ t
  unfolding Parts.compare_policies
  compare_policies-same t =
      note-false _ _ _ _ _ (has_changed_refl s.update_order)
      ∙ note-false _ _ _ _ _ (has_changed_refl s.update_max_failure_ratio)
      ∙ note-false _ _ _ _ _ (has_changed_refl s.update_monitor)
      ∙ note-false _ _ _ _ _ (has_changed_refl s.update_failure_action)
      ∙ note-false _ _ _ _ _ (has_changed_refl s.update_parallelism)
      ∙ note-false _ _ _ _ _ (has_changed_refl s.update_delay)
      ∙ note-false _ _ _ _ _ (has_option_changed_refl values s.rollback_config u.rollback_config)
      ∙ note-false _ _ _ _ _ (has_changed_refl s.restart_policy_window)
      ∙ note-false _ _ _ _ _ (has_changed_refl s.restart_policy_delay)
      ∙ note-false _ _ _ _ _ (has_changed_refl s.restart_policy_attempts)
      ∙ note-false _ _ _ _ _ (has_changed_refl s.restart_policy)

  compare_container-same :
      (t : Tracker (Parts.Field V)) → Parts.compare_container values no_test s s t ≡ t
  unfolding Parts.compare_container
  compare_container-same t =
      note-false _ _ _ _ _ (have_sorted_texts_changed_refl s.cap_drop)
      ∙ note-false _ _ _ _ _ (have_sorted_texts_changed_refl s.cap_add)
      ∙ note-false _ _ _ _ _ (has_changed_refl s.init)
      ∙ note-false _ _ _ _ _ (has_changed_refl s.working_dir)
      ∙ note-false _ _ _ _ _ (has_changed_refl s.tty)
      ∙ note-false _ _ _ _ _ (labels_differ_refl s.hosts u.hosts)
      ∙ note-false _ _ _ _ _ (has_changed_refl s.hostname)
      ∙ note-false _ _ _ _ _ (has_healthcheck_changed_refl)
      ∙ note-false _ _ _ _ _ (have_sorted_texts_changed_refl s.dns_options)
      ∙ note-false _ _ _ _ _ (have_texts_changed_refl s.dns_search)
      ∙ note-false _ _ _ _ _ (have_texts_changed_refl s.dns)
      ∙ note-false _ _ _ _ _ (user_refl s.user)
      ∙ note-false _ _ _ _ _ (has_image_changed_refl s.image)

  needs_rebuild-same : Compare.needs_rebuild values no_test s s ≡ false
  unfolding Compare.needs_rebuild
  needs_rebuild-same = rw (have_networks_changed_refl values s.networks) (not_refl s.mode)

  -- A service that is compared with itself, its dicts with each key once: no differences, no need to
  -- make it anew, and `changed` only where an update is forced.
  pub compare-same : Compare.compare values no_test s s ≡ record {
    changed = s.force_update;
    differences = [];
    needs_rebuild = false;
    force_update = s.force_update;
  }
  unfolding Compare.compare empty
  compare-same =
      rw
        (
          compare_placement-same [],
          compare_resources-same [],
          compare_policies-same [],
          compare_container-same [],
          needs_rebuild-same,
        )
        refl
