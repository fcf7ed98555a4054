-- ===== src/Service.antt =====
-- docker_swarm_service: services, how a service is compared with the one that runs, and the manager.
-- The code is collections/ansible_collections/community/docker/plugins/modules/docker_swarm_service.py.
pub mod Sorting
pub mod Changes
pub mod Parts
pub mod Compare
pub mod Unchanged
pub mod Idempotent
pub mod Manager
pub mod Runs
mod Examples
use openstack_osa_office_clu.Prelude.{ℕ, Bool, List, Option, String, Eq}
use openstack_osa_office_clu.Prelude.Dict.{Dict}
use openstack_osa_office_clu.Prelude.Text.{Text}

-- Python's values other than None: their `==`, `bool(...)`, and what a text is sorted by.
pub record Values (V : Type 0) : Type 0 where
  pub equal : Eq V
  pub true_value : V → Bool
  pub text : V → String

-- An entry of `publish`, with all its keys.
pub record Port : Type 0 where
  pub protocol : Option String
  pub mode : Option String
  pub published_port : Option ℕ
  pub target_port : Option ℕ

-- An entry of `networks`: `aliases` is none where the key is missing, and empty where it is None.
pub record Attachment (V : Type 0) : Type 0 where
  pub id : String
  pub aliases : Option (List String)
  pub options : Option V

-- DockerService, with `can_update_networks` for the two versions; `force_update` is whether it is
-- set, and the id and version of the service are left out.
pub record DockerService (V : Type 0) : Type 0 where
  pub image : Text
  pub command : Option (List String)
  pub args : Option (List String)
  pub endpoint_mode : Option V
  pub dns : Option (List String)
  pub healthcheck : Option (Dict String (Option V))
  pub healthcheck_disabled : Option Bool
  pub hostname : Option V
  pub hosts : Option (Dict String (Option V))
  pub tty : Option V
  pub dns_search : Option (List String)
  pub dns_options : Option (List String)
  pub env : Option (List String)
  pub force_update : Bool
  pub groups : Option (List String)
  pub log_driver : Option V
  pub log_driver_options : Option (Dict String (Option V))
  pub labels : Option (Dict String (Option V))
  pub container_labels : Option (Dict String (Option V))
  pub sysctls : Option (Dict String (Option V))
  pub limit_cpu : Option V
  pub limit_memory : Option V
  pub reserve_cpu : Option V
  pub reserve_memory : Option V
  pub mode : String
  pub user : Option V
  pub mounts : Option (List (Dict String (Option V)))
  pub configs : Option (List (Dict String (Option V)))
  pub secrets : Option (List (Dict String (Option V)))
  pub constraints : Option (List String)
  pub replicas_max_per_node : Option V
  pub networks : Option (List (Attachment V))
  pub stop_grace_period : Option V
  pub stop_signal : Option V
  pub publish : Option (List Port)
  pub placement_preferences : Option (List (Dict String (Option V)))
  pub replicas : Option V
  pub read_only : Option V
  pub restart_policy : Option V
  pub restart_policy_attempts : Option V
  pub restart_policy_delay : Option V
  pub restart_policy_window : Option V
  pub rollback_config : Option (Dict String (Option V))
  pub update_delay : Option V
  pub update_parallelism : Option V
  pub update_failure_action : Option V
  pub update_monitor : Option V
  pub update_max_failure_ratio : Option V
  pub update_order : Option V
  pub working_dir : Option V
  pub init : Option V
  pub cap_add : Option (List String)
  pub cap_drop : Option (List String)
  pub can_update_networks : Bool
