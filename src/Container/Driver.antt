-- ===== src/Container/Driver.antt =====
-- The interfaces of module_utils/_module_container/base.py, EngineDriver and Engine, and the object
-- that the methods of ContainerManager change.
use openstack_osa_office_clu.Prelude.{
  ℕ, Bool, true, List, [], ◌∷◌, ◌++◌, Option, String, Result, ok, err,
}
use openstack_osa_office_clu.Prelude.Dict.{Dict}
use openstack_osa_office_clu.Prelude.Programs.{Program}
use openstack_osa_office_clu.Prelude.Methods.{pure, reads, choose}
use openstack_osa_office_clu.Util.Compare.{Method}
use openstack_osa_office_clu.Util.Differences.{Tracker}
use openstack_osa_office_clu.Container.{Container, Inspection, NetworkParam, Endpoint, Params}

-- Floating-point numbers of seconds, with the numbers of `wait_for_state`: `above` is `>`,
-- `too_short` is `< 1e-4`, `longer` is `min(delay * 1.1, 10)`.
pub record Clock : Type 1 where
  pub Seconds : Type 0
  pub zero_seconds : Seconds
  pub one_second : Seconds
  pub add : Seconds → Seconds → Seconds
  pub minus : Seconds → Seconds → Seconds
  pub above : Seconds → Seconds → Bool
  pub too_short : Seconds → Bool
  pub longer : Seconds → Seconds

-- EngineDriver, with the client that it is given. A call that may change the daemon returns the new
-- state, on an exception too. `sleep` is what happens to the daemon meanwhile. A NetworkParam is given
-- whole: the drivers look at its name and id only as the key and the network.
pub record Driver (Seconds : Type 0) : Type 1 where
  pub State : Type 0
  pub Failure : Type 0
  pub Image : Type 0
  pub Host : Type 0
  pub Output : Type 0
  pub CreateParameters : Type 0
  pub UpdateParameters : Type 0
  pub inspect_container_by_name : String → State → Result Failure (Option Inspection)
  pub inspect_container_by_id : String → State → Result Failure (Option Inspection)
  pub inspect_image_by_id : String → State → Result Failure (Option Image)
  pub inspect_image_by_name : String → String → State → Result Failure (Option Image)
  pub image_id : Image → Option String
  pub get_host_info : State → Result Failure Host
  pub pull_image :
      String → String → Option String → State → Result Failure (Option Image × Bool) × State
  pub pause_container : String → State → Result Failure (Unit {0}) × State
  pub unpause_container : String → State → Result Failure (Unit {0}) × State
  pub disconnect_container_from_network :
      String → String → State → Result Failure (Unit {0}) × State
  pub connect_container_to_network :
      String → NetworkParam → State → Result Failure (Unit {0}) × State
  pub supports_more_than_one_network : Bool
  pub create_container :
      String → CreateParameters → Dict String NetworkParam → State → Result Failure String × State
  pub start_container : String → State → Result Failure (Unit {0}) × State
  pub wait_for_container : String → State → Result Failure ℕ × State
  pub get_container_output : String → State → Result Failure (Output × Bool)
  pub output_unavailable : Output
  pub remove_container : String → Bool → Bool → Bool → State → Result Failure (Unit {0}) × State
  pub update_container : String → UpdateParameters → State → Result Failure (Unit {0}) × State
  pub restart_container : String → ℕ → State → Result Failure (Unit {0}) × State
  pub kill_container : String → Option String → State → Result Failure (Unit {0}) × State
  pub stop_container : String → Option ℕ → State → Result Failure (Unit {0}) × State
  pub sleep : Seconds → State → State

pub data ComparisonType : Type 0 where
  value list set set_dict dict : ComparisonType

-- `Option` of base.py
pub record ContainerOption : Type 0 where
  pub name : String
  pub comparison : Method
  pub comparison_type : ComparisonType
  pub not_an_ansible_option : Bool
  pub ansible_aliases : List String
  pub copy_comparison_from : Option String

-- An OptionGroup with the Engine for the driver: values are of the type `Value`, None included, and
-- `sort_set`, `sort_by_target` and `sort_by_items` are the three ways in which `sorted` is called.
-- `values` are those that the engine has preprocessed.
pub record Group (Value Image Host Create Update : Type 0) : Type 0 where
  pub options : List ContainerOption
  pub values : Dict String Value
  pub needs_container_image : Dict String Value → Bool
  pub needs_host_info : Dict String Value → Bool
  pub get_value : Inspection → Option Image → Option Host → Dict String Value
  pub get_expected_values : Option Image → Dict String Value → Option Host → Dict String Value
  pub compare_value : ContainerOption → Value → Option Value → Bool
  pub ignore_mismatching_result :
      ContainerOption → Option Image → Option Value → Value → Option Host → Bool
  pub can_set_value : Bool
  pub can_update_value : Bool
  pub set_value : Dict String Value → Create → Create
  pub update_value : Dict String Value → Update → Update
  pub sort_set : Value → Value
  pub sort_by_target : Value → Value
  pub sort_by_items : Value → Value

-- The actions of the result, without the parameters of a container that is created or updated.
pub data Action : Type 0 where
  created : Dict String NetworkParam → Action
  started_it updated restarted removed_from_network added_to_network : String → Action
  removed : String → Bool → Bool → Action
  killed : String → Option String → Action
  stopped_it : String → Option ℕ → Action
  set_paused : Bool → Action
  pulled_image : String → String → Option Bool → Action

-- What the manager is set up with: the active groups, the empty dicts of parameters and `["Image"] = `,
-- the comparisons of the options `image` and `networks`, and `parse_repository_tag`.
pub record Setup (Value Image Host Create Update : Type 0) : Type 0 where
  pub groups : List (Group Value Image Host Create Update)
  pub no_create : Create
  pub set_image : String → Create → Create
  pub no_update : Update
  pub has_updates : Update → Bool
  pub image_comparison : Method
  pub networks_comparison : Method
  pub parse_repository_tag : String → String × Option String

-- What the differences show.
pub data Shown (Value : Type 0) : Type 0 where
  flag : Bool → Shown Value
  text : Option String → Shown Value
  option_value : Option Value → Shown Value
  network_parameter : NetworkParam → Shown Value
  endpoint : Option Endpoint → Shown Value
  nothing : Shown Value

-- `no_container` stands for a failed `assert container.id is not None`.
pub data Stop (Failure : Type 0) : Type 0 where
  uncaught : Failure → Stop Failure
  error_in : Action → Failure → Stop Failure
  no_container no_image no_image_to_recreate no_network_settings no_networks : Stop Failure
  no_such_image image_not_pulled : String → Stop Failure
  vanished unexpected_state timed_out out_of_patience : String → Stop Failure

-- The fields of ContainerManager that change, the results, the facts, and the daemon. `show_actions`
-- is lost when `run` pops the actions.
pub record Session (Value Output : Type 0) (S : Type 0) : Type 0 where
  pub actions : List Action
  pub show_actions : Bool
  pub changed : Bool
  pub tracker : Tracker (Shown Value)
  pub image_different : Bool
  pub warned : Bool
  pub status : Option ℕ
  pub failed_with : Option Output
  pub facts : Container × Option Output
  pub daemon : S

module _ {Seconds : Type 0} (D : Driver Seconds) (Value : Type 0) where
  abbrev pub Here : Type 0
  Here = Session Value D.Output D.State

  abbrev pub Call : Type 0 → Type 0
  Call A = Program (Stop D.Failure) Here A

  abbrev pub or_stop :
      {A : Type 0} → (D.Failure → Stop D.Failure) → Result D.Failure A → Result (Stop D.Failure) A
  or_stop stop (ok a) = ok a
  or_stop stop (err e) = err (stop e)

  -- A question to the daemon.
  abbrev pub asks : {A : Type 0} → (D.State → Result D.Failure A) → Call A
  asks f = reads (λ s. or_stop uncaught (f s.daemon))

  -- A call that may change the daemon; `stop` is what its exception is turned into.
  unfoldable pub posts :
      {A : Type 0}
      → (D.Failure → Stop D.Failure)
      → (D.State → Result D.Failure A × D.State)
      → Call A
  posts stop f s =
      let answer = f s.daemon in (or_stop stop answer.0, record s { daemon = answer.1 })

  -- `if not self.check_mode:`
  abbrev pub unless_check : Params Seconds → Call (Unit {0}) → Call (Unit {0})
  unless_check p m = choose p.check_mode (pure tt) m

  -- `self._add_action(...)`, and `self.results["changed"] = True`
  abbrev pub add_action : Action → Here → Here
  add_action a s = record s { actions = s.actions ++ a ∷ [] }

  abbrev pub act : Action → Here → Here
  act a s = record s { actions = s.actions ++ a ∷ []; changed = true }

  abbrev pub track : (Tracker (Shown Value) → Tracker (Shown Value)) → Here → Here
  track f s = record s { tracker = f s.tracker }
