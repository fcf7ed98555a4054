-- ===== src/Container.antt =====
-- The container module: ContainerManager of
-- collections/ansible_collections/community/docker/plugins/module_utils/_module_container/module.py,
-- over the interfaces of base.py beside it. Here: the parameters and the containers.
pub mod Driver
pub mod Waiting
pub mod Differences
pub mod Networks
pub mod Actions
pub mod Updates
pub mod Images
pub mod Prepare
pub mod Manager
pub mod Quiet
pub mod CheckMode
pub mod Healthy
pub mod Reporting
pub mod Changed
pub mod Polling
pub mod Runs
pub mod Absent
pub mod Sample
mod Examples
use openstack_osa_office_clu.Prelude.{
  ℕ, Bool, true, false, not, ◌&&◌, List, [], ◌∷◌, if◌then◌else◌, some, none, Option, String,
  string_eq, ◌=?◌,
}
use openstack_osa_office_clu.Prelude.Dict.{Dict}
use openstack_osa_office_clu.Util.Compare.{Method}

pub data Target : Type 0 where
  absent present healthy started stopped : Target

pub data PullPolicy : Type 0 where
  never missing always : PullPolicy

-- An entry of the parameter `networks`.
pub record NetworkParam : Type 0 where
  pub name : String
  pub id : String
  pub ipv4_address : Option String
  pub ipv6_address : Option String
  pub aliases : Option (List String)
  pub links : Option (List (String × String))
  pub mac_address : Option String

-- The parameters that the manager itself reads; a number is of seconds. `current_image` stands for
-- image_comparison=current-image, `recreate_for_name` for image_name_mismatch=recreate and
-- `always_in_check_mode` for pull_check_mode_behavior=always.
pub record Params (Seconds : Type 0) : Type 0 where
  pub name : String
  pub image : Option String
  pub current_image : Bool
  pub recreate_for_name : Bool
  pub keep_volumes : Bool
  pub kill_signal : Option String
  pub force_kill : Bool
  pub output_logs : Bool
  pub paused : Option Bool
  pub pull : PullPolicy
  pub always_in_check_mode : Bool
  pub platform : Option String
  pub recreate : Bool
  pub removal_wait_timeout : Option Seconds
  pub healthy_wait_timeout : Option Seconds
  pub restart : Bool
  pub stop_timeout : Option ℕ
  pub networks : Option (List NetworkParam)
  pub networks_cli_compatible : Bool
  pub detach : Option Bool
  pub auto_remove : Bool
  pub cleanup : Bool
  pub debug : Bool
  pub target : Target
  pub check_mode : Bool

-- `State` of a container, with the status of its health check.
pub record StateInfo : Type 0 where
  pub status : Option String
  pub running : Bool
  pub ghost : Bool
  pub paused : Bool
  pub health : Option String

-- An entry of `NetworkSettings.Networks`.
pub record Endpoint : Type 0 where
  pub network_id : String
  pub ipv4_address : Option String
  pub ipv6_address : Option String
  pub aliases : Option (List String)
  pub links : Option (List String)
  pub mac_address : Option String

-- What the API says of a container. `networks` is `NetworkSettings`, if that is not empty, with its
-- `Networks`.
pub record Inspection : Type 0 where
  pub id : String
  pub image : String
  pub image_name : Option String
  pub state : Option StateInfo
  pub networks : Option (Option (Dict String Endpoint))

-- `Container`: none where the API has no container.
abbrev pub Container : Type 0
Container = Option Inspection

abbrev pub exists : Container → Bool
exists none = false
exists (some i) = true

-- `is_container_removing`, `is_container_running` and `is_container_paused` of docker_api.py
unfoldable pub is_container_removing : Option StateInfo → Bool
is_container_removing none = false
is_container_removing (some s) = elim s.status [ none ↦ false | some t ↦ t =? "removing" ]

unfoldable pub is_container_running : Option StateInfo → Bool
is_container_running none = false
is_container_running (some s) = s.running && not s.ghost

unfoldable pub is_container_paused : Option StateInfo → Bool
is_container_paused none = false
is_container_paused (some s) = s.paused

abbrev pub removing : Container → Bool
removing none = false
removing (some i) = is_container_removing i.state

abbrev pub running : Container → Bool
running none = false
running (some i) = is_container_running i.state

abbrev pub paused : Container → Bool
paused none = false
paused (some i) = is_container_paused i.state
