-- ===== src/Container/Sample.antt =====
-- A daemon with one container, for the tests.
use openstack_osa_office_clu.Prelude.{
  ℕ, ◌+◌, ◌-◌, Bool, true, false, [], ◌∷◌, some, none, Option, String, Result, ok, ltb,
}
use openstack_osa_office_clu.Util.Compare.{ignore, strict}
use openstack_osa_office_clu.Network.Config.{IpAddresses}
use openstack_osa_office_clu.Container.{Target, Inspection, StateInfo, Params, missing}
use openstack_osa_office_clu.Container.Driver.{Clock, Driver, Setup, Group, Here, value}

abbrev pub clock : Clock
clock = record {
  Seconds = ℕ;
  zero_seconds = 0;
  one_second = 1;
  add = λ a b. a + b;
  minus = λ a b. a - b;
  above = λ a b. ltb b a;
  too_short = λ a. ltb a 1;
  longer = λ a. a + 1;
}

abbrev pub state_of : Bool → Option String → StateInfo
state_of is_up health = record {
  status = some "running";
  running = is_up;
  ghost = false;
  paused = false;
  health = health;
}

abbrev pub container_of : Bool → Option String → Inspection
container_of is_up health = record {
  id = "c1";
  image = "i1";
  image_name = some "web";
  state = some (state_of is_up health);
  networks = some (some []);
}

-- The container, if there is one.
abbrev pub World : Type 0
World = Option Inspection

abbrev pub to : World → World → Result String (Unit {0}) × World
to after before = (ok tt, after)

-- A health check that is starting is healthy after a wait.
abbrev pub rest : ℕ → World → World
rest n none = none
rest n (some i) = some (container_of true (some "healthy"))

abbrev pub driver : Driver ℕ
driver = record {
  State = World;
  Failure = String;
  Image = String;
  Host = ℕ;
  Output = String;
  CreateParameters = String;
  UpdateParameters = ℕ;
  inspect_container_by_name = λ name s. ok s;
  inspect_container_by_id = λ id s. ok s;
  inspect_image_by_id = λ id s. ok (some id);
  inspect_image_by_name = λ name tag s. ok (some "i1");
  image_id = λ image. some image;
  get_host_info = λ s. ok 0;
  pull_image = λ name tag platform s. (ok (some "i1", true), s);
  pause_container = λ id s. (ok tt, s);
  unpause_container = λ id s. (ok tt, s);
  disconnect_container_from_network = λ id network s. (ok tt, s);
  connect_container_to_network = λ id network s. (ok tt, s);
  supports_more_than_one_network = true;
  create_container = λ name parameters networks s. (ok "c1", some (container_of false none));
  start_container = λ id s. (ok tt, some (container_of true (some "starting")));
  wait_for_container = λ id s. (ok 0, s);
  get_container_output = λ id s. ok ("", true);
  output_unavailable = "";
  remove_container = λ id volumes link force s. (ok tt, none);
  update_container = λ id parameters s. (ok tt, s);
  restart_container = λ id timeout s. (ok tt, s);
  kill_container = λ id signal s. (ok tt, some (container_of false none));
  stop_container = λ id timeout s. (ok tt, some (container_of false none));
  sleep = rest;
}

-- A group of one option, which differs where the value is not 1.
abbrev pub one_option : Group ℕ String ℕ String ℕ
one_option = record {
  options =
      (record {
        name = "hostname";
        comparison = strict;
        comparison_type = value;
        not_an_ansible_option = false;
        ansible_aliases = [];
        copy_comparison_from = none;
      })
      ∷ [];
  values = ("hostname", 2) ∷ [];
  needs_container_image = λ d. false;
  needs_host_info = λ d. false;
  get_value = λ i image host. ("hostname", 1) ∷ [];
  get_expected_values = λ image d host. d;
  compare_value = λ o expected actual. false;
  ignore_mismatching_result = λ o image actual expected host. false;
  can_set_value = true;
  can_update_value = false;
  set_value = λ d c. c;
  update_value = λ d c. c;
  sort_set = λ v. v;
  sort_by_target = λ v. v;
  sort_by_items = λ v. v;
}

abbrev pub setup : Setup ℕ String ℕ String ℕ
setup = record {
  groups = [];
  no_create = "";
  set_image = λ image c. image;
  no_update = 0;
  has_updates = λ u. false;
  image_comparison = strict;
  networks_comparison = ignore;
  parse_repository_tag = λ name. (name, none);
}

abbrev pub parameters : Target → Bool → Params ℕ
parameters target check_mode = record {
  name = "web";
  image = some "web";
  current_image = false;
  recreate_for_name = false;
  keep_volumes = true;
  kill_signal = none;
  force_kill = false;
  output_logs = false;
  paused = none;
  pull = missing;
  always_in_check_mode = false;
  platform = none;
  recreate = false;
  removal_wait_timeout = none;
  healthy_wait_timeout = none;
  restart = false;
  stop_timeout = none;
  networks = none;
  networks_cli_compatible = true;
  detach = none;
  auto_remove = false;
  cleanup = false;
  debug = false;
  target = target;
  check_mode = check_mode;
}

abbrev pub begin : World → Here driver ℕ
begin w = record {
  actions = [];
  show_actions = true;
  changed = false;
  tracker = [];
  image_different = false;
  warned = false;
  status = none;
  failed_with = none;
  facts = (none, none);
  daemon = w;
}

abbrev pub addresses : IpAddresses
addresses = record { ip_network = λ s. some s; ip_address = λ s. some s }
