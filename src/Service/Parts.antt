-- ===== src/Service/Parts.antt =====
-- The parts of `DockerService.compare`, which note one difference after the other.
use openstack_osa_office_clu.Prelude.{
  Bool, true, false, not, ◌&&◌, List, if◌then◌else◌, some, none, Option, String, Eq, string_eq,
  nat_eq, list_eq, option_eq, ◌=?◌,
}
use openstack_osa_office_clu.Prelude.Dict.{Dict, lookup}
use openstack_osa_office_clu.Prelude.Text.{Text}
use openstack_osa_office_clu.Util.Compare.{dict_equal}
use openstack_osa_office_clu.Util.Differences.{Tracker, add}
use openstack_osa_office_clu.Service.{Values, Port, Attachment, DockerService}
use openstack_osa_office_clu.Service.Changes.{
  or_nil, is_true, has_changed, have_texts_changed, have_sorted_texts_changed, have_dicts_changed,
  have_dicts_changed_in_order, have_networks_changed, has_dict_changed, has_publish_changed,
  has_image_changed, get_value,
}

-- What the differences show.
pub data Field (V : Type 0) : Type 0 where
  scalar : Option V → Field V
  texts : Option (List String) → Field V
  options : Option (Dict String (Option V)) → Field V
  dicts : Option (List (Dict String (Option V))) → Field V
  attachments : Option (List (Attachment V)) → Field V
  ports : Option (List Port) → Field V
  mode_name : String → Field V
  image_text : Text → Field V

abbrev pub is_given {ℓ} : {A : Type ℓ} → Option A → Bool
is_given none = false
is_given (some x) = true

-- A given flag that is as `wanted`.
abbrev pub is_flag : Bool → Option Bool → Bool
is_flag wanted none = false
is_flag wanted (some b) = if wanted then b else not b

module _ {V : Type 0} (values : Values V) where
  instance abbrev value_eq : Eq V
  value_eq = values.equal

  -- `if changed: differences.add(name, parameter=..., active=...)`
  unfoldable pub note : Bool → String → Field V → Field V → Tracker (Field V) → Tracker (Field V)
  unfolding add
  note changed name parameter active t = if changed then add name parameter active t else t

  -- `new is not None and new != (old or {})`
  unfoldable pub labels_differ :
      Option (Dict String (Option V)) → Option (Dict String (Option V)) → Bool
  unfolding dict_equal
  labels_differ none old = false
  labels_differ (some new) old = not (dict_equal new (or_nil old))

  -- `==` on dicts that may be None
  unfoldable pub same_dict :
      Option (Dict String (Option V)) → Option (Dict String (Option V)) → Bool
  unfolding dict_equal
  same_dict none none = true
  same_dict none (some d) = false
  same_dict (some d) none = false
  same_dict (some d) (some e) = dict_equal d e

  -- `healthcheck.get("test") == ["NONE"]`, for the value that is this list.
  module _ (no_test : V) where
    abbrev pub is_disabled : Option (Dict String (Option V)) → Bool
    is_disabled none = true
    is_disabled (some d) = get_value values "test" d =? some no_test

    unfoldable pub has_healthcheck_changed : DockerService V → DockerService V → Bool
    unfolding dict_equal lookup same_dict
    has_healthcheck_changed self os =
        if is_flag false self.healthcheck_disabled && not (is_given self.healthcheck)
        then false
        else if is_flag true self.healthcheck_disabled && is_disabled os.healthcheck
        then false
        else not (same_dict self.healthcheck os.healthcheck)

    -- Up to the networks.
    unfoldable pub compare_placement :
        DockerService V → DockerService V → Tracker (Field V) → Tracker (Field V)
    unfolding add have_texts_changed have_sorted_texts_changed have_dicts_changed
        have_dicts_changed_in_order have_networks_changed has_dict_changed has_publish_changed
        has_image_changed has_healthcheck_changed note labels_differ
    compare_placement self os t =
        let t1 =
          note (has_changed (self.endpoint_mode) (os.endpoint_mode)) "endpoint_mode"
            (scalar self.endpoint_mode) (scalar os.endpoint_mode) t in
        let t2 =
          note (have_sorted_texts_changed self.env os.env) "env" (texts self.env) (texts os.env)
            t1 in
        let t3 =
          note (has_changed (self.log_driver) (os.log_driver)) "log_driver" (scalar self.log_driver)
            (scalar os.log_driver) t2 in
        let t4 =
          note (labels_differ self.log_driver_options os.log_driver_options) "log_opt"
            (options self.log_driver_options) (options os.log_driver_options) t3 in
        let t5 =
          note (not (self.mode =? os.mode)) "mode" (mode_name self.mode) (mode_name os.mode) t4 in
        let t6 =
          note (have_dicts_changed values "target" self.mounts os.mounts) "mounts"
            (dicts self.mounts) (dicts os.mounts) t5 in
        let t7 =
          note (have_dicts_changed values "config_name" self.configs os.configs) "configs"
            (dicts self.configs) (dicts os.configs) t6 in
        let t8 =
          note (have_dicts_changed values "secret_name" self.secrets os.secrets) "secrets"
            (dicts self.secrets) (dicts os.secrets) t7 in
        let t9 =
          note (have_networks_changed values self.networks os.networks) "networks"
            (attachments self.networks) (attachments os.networks) t8 in
        t9

    -- From the replicas to `read_only`.
    unfoldable pub compare_resources :
        DockerService V → DockerService V → Tracker (Field V) → Tracker (Field V)
    unfolding add have_texts_changed have_sorted_texts_changed have_dicts_changed
        have_dicts_changed_in_order have_networks_changed has_dict_changed has_publish_changed
        has_image_changed has_healthcheck_changed note labels_differ
    compare_resources self os t =
        let t1 =
          note (not (self.replicas =? os.replicas)) "replicas" (scalar self.replicas)
            (scalar os.replicas) t in
        let t2 =
          note (have_texts_changed self.command os.command) "command" (texts self.command)
            (texts os.command) t1 in
        let t3 =
          note (have_texts_changed self.args os.args) "args" (texts self.args) (texts os.args) t2 in
        let t4 =
          note (have_sorted_texts_changed self.constraints os.constraints) "constraints"
            (texts self.constraints) (texts os.constraints) t3 in
        let t5 =
          note (has_changed (self.replicas_max_per_node) (os.replicas_max_per_node))
            "replicas_max_per_node" (scalar self.replicas_max_per_node)
            (scalar os.replicas_max_per_node) t4 in
        let t6 =
          note
            (have_dicts_changed_in_order values self.placement_preferences os.placement_preferences)
            "placement_preferences" (dicts self.placement_preferences)
            (dicts os.placement_preferences) t5 in
        let t7 =
          note (have_sorted_texts_changed self.groups os.groups) "groups" (texts self.groups)
            (texts os.groups) t6 in
        let t8 =
          note (labels_differ self.labels os.labels) "labels" (options self.labels)
            (options os.labels) t7 in
        let t9 =
          note (has_changed (self.limit_cpu) (os.limit_cpu)) "limit_cpu" (scalar self.limit_cpu)
            (scalar os.limit_cpu) t8 in
        let t10 =
          note (has_changed (self.limit_memory) (os.limit_memory)) "limit_memory"
            (scalar self.limit_memory) (scalar os.limit_memory) t9 in
        let t11 =
          note (has_changed (self.reserve_cpu) (os.reserve_cpu)) "reserve_cpu"
            (scalar self.reserve_cpu) (scalar os.reserve_cpu) t10 in
        let t12 =
          note (has_changed (self.reserve_memory) (os.reserve_memory)) "reserve_memory"
            (scalar self.reserve_memory) (scalar os.reserve_memory) t11 in
        let t13 =
          note (labels_differ self.container_labels os.container_labels) "container_labels"
            (options self.container_labels) (options os.container_labels) t12 in
        let t14 =
          note (labels_differ self.sysctls os.sysctls) "sysctls" (options self.sysctls)
            (options os.sysctls) t13 in
        let t15 =
          note (has_changed (self.stop_signal) (os.stop_signal)) "stop_signal"
            (scalar self.stop_signal) (scalar os.stop_signal) t14 in
        let t16 =
          note (has_changed (self.stop_grace_period) (os.stop_grace_period)) "stop_grace_period"
            (scalar self.stop_grace_period) (scalar os.stop_grace_period) t15 in
        let t17 =
          note (has_publish_changed self.publish os.publish) "publish" (ports self.publish)
            (ports os.publish) t16 in
        let t18 =
          note (has_changed (self.read_only) (os.read_only)) "read_only" (scalar self.read_only)
            (scalar os.read_only) t17 in
        t18

    -- The policies for restarts, rollbacks and updates.
    unfoldable pub compare_policies :
        DockerService V → DockerService V → Tracker (Field V) → Tracker (Field V)
    unfolding add have_texts_changed have_sorted_texts_changed have_dicts_changed
        have_dicts_changed_in_order have_networks_changed has_dict_changed has_publish_changed
        has_image_changed has_healthcheck_changed note labels_differ
    compare_policies self os t =
        let t1 =
          note (has_changed (self.restart_policy) (os.restart_policy)) "restart_policy"
            (scalar self.restart_policy) (scalar os.restart_policy) t in
        let t2 =
          note (has_changed (self.restart_policy_attempts) (os.restart_policy_attempts))
            "restart_policy_attempts" (scalar self.restart_policy_attempts)
            (scalar os.restart_policy_attempts) t1 in
        let t3 =
          note (has_changed (self.restart_policy_delay) (os.restart_policy_delay))
            "restart_policy_delay" (scalar self.restart_policy_delay)
            (scalar os.restart_policy_delay) t2 in
        let t4 =
          note (has_changed (self.restart_policy_window) (os.restart_policy_window))
            "restart_policy_window" (scalar self.restart_policy_window)
            (scalar os.restart_policy_window) t3 in
        let t5 =
          note (has_dict_changed values self.rollback_config os.rollback_config) "rollback_config"
            (options self.rollback_config) (options os.rollback_config) t4 in
        let t6 =
          note (has_changed (self.update_delay) (os.update_delay)) "update_delay"
            (scalar self.update_delay) (scalar os.update_delay) t5 in
        let t7 =
          note (has_changed (self.update_parallelism) (os.update_parallelism)) "update_parallelism"
            (scalar self.update_parallelism) (scalar os.update_parallelism) t6 in
        let t8 =
          note (has_changed (self.update_failure_action) (os.update_failure_action))
            "update_failure_action" (scalar self.update_failure_action)
            (scalar os.update_failure_action) t7 in
        let t9 =
          note (has_changed (self.update_monitor) (os.update_monitor)) "update_monitor"
            (scalar self.update_monitor) (scalar os.update_monitor) t8 in
        let t10 =
          note (has_changed (self.update_max_failure_ratio) (os.update_max_failure_ratio))
            "update_max_failure_ratio" (scalar self.update_max_failure_ratio)
            (scalar os.update_max_failure_ratio) t9 in
        let t11 =
          note (has_changed (self.update_order) (os.update_order)) "update_order"
            (scalar self.update_order) (scalar os.update_order) t10 in
        t11

    -- From the image on.
    unfoldable pub compare_container :
        DockerService V → DockerService V → Tracker (Field V) → Tracker (Field V)
    unfolding add have_texts_changed have_sorted_texts_changed have_dicts_changed
        have_dicts_changed_in_order have_networks_changed has_dict_changed has_publish_changed
        has_image_changed has_healthcheck_changed note labels_differ
    compare_container self os t =
        let image_change = has_image_changed self.image os.image in
        let t1 =
          note (image_change.0) "image" (image_text self.image) (image_text image_change.1) t in
        let t2 =
          note (is_true values self.user && not (self.user =? os.user)) "user" (scalar self.user)
            (scalar os.user) t1 in
        let t3 =
          note (have_texts_changed self.dns os.dns) "dns" (texts self.dns) (texts os.dns) t2 in
        let t4 =
          note (have_texts_changed self.dns_search os.dns_search) "dns_search"
            (texts self.dns_search) (texts os.dns_search) t3 in
        let t5 =
          note (have_sorted_texts_changed self.dns_options os.dns_options) "dns_options"
            (texts self.dns_options) (texts os.dns_options) t4 in
        let t6 =
          note (has_healthcheck_changed self os) "healthcheck" (options self.healthcheck)
            (options os.healthcheck) t5 in
        let t7 =
          note (has_changed (self.hostname) (os.hostname)) "hostname" (scalar self.hostname)
            (scalar os.hostname) t6 in
        let t8 =
          note (labels_differ self.hosts os.hosts) "hosts" (options self.hosts) (options os.hosts)
            t7 in
        let t9 =
          note (has_changed (self.tty) (os.tty)) "tty" (scalar self.tty) (scalar os.tty) t8 in
        let t10 =
          note (has_changed (self.working_dir) (os.working_dir)) "working_dir"
            (scalar self.working_dir) (scalar os.working_dir) t9 in
        let t11 =
          note (has_changed (self.init) (os.init)) "init" (scalar self.init) (scalar os.init) t10 in
        let t12 =
          note (have_sorted_texts_changed self.cap_add os.cap_add) "cap_add" (texts self.cap_add)
            (texts os.cap_add) t11 in
        let t13 =
          note (have_sorted_texts_changed self.cap_drop os.cap_drop) "cap_drop"
            (texts self.cap_drop) (texts os.cap_drop) t12 in
        t13
