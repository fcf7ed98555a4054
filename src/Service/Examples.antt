-- ===== src/Service/Examples.antt =====
-- A swarm with one service, and the theorems on it.
use openstack_osa_office_clu.Prelude.{
  string_eq, ℕ, Bool, true, false, [], ◌∷◌, some, none, String, Result, ok, err, if◌then◌else◌, ◌-◌,
  nat_eq, ◌==◌, ◌≡◌, refl,
}
use openstack_osa_office_clu.Prelude.Dict.{lookup-nil}
use openstack_osa_office_clu.Prelude.Text.{codes}
use openstack_osa_office_clu.Prelude.Methods.{pure, reads, ◌>>=◌, choose}
use openstack_osa_office_clu.Service.{Values, DockerService}
use openstack_osa_office_clu.Service.Compare.{compare, needs_rebuild}
use openstack_osa_office_clu.Service.Idempotent.{NodupService, compare-same}
use openstack_osa_office_clu.Service.Manager
use openstack_osa_office_clu.Service.Manager.{Client, unchanged, posts}
use openstack_osa_office_clu.Service.Runs.{run-check, run_safe-Ends, Ends}

abbrev numbers : Values ℕ
numbers = record { equal = nat_eq; true_value = λ n. true; text = λ n. "" }

abbrev service : DockerService ℕ
service = record {
  image = codes "web:1";
  command = none;
  args = none;
  endpoint_mode = none;
  dns = none;
  healthcheck = none;
  healthcheck_disabled = none;
  hostname = none;
  hosts = none;
  tty = none;
  dns_search = none;
  dns_options = none;
  env = some ("B=2" ∷ "A=1" ∷ []);
  force_update = false;
  groups = none;
  log_driver = none;
  log_driver_options = none;
  labels = some (("app", some 1) ∷ []);
  container_labels = none;
  sysctls = none;
  limit_cpu = none;
  limit_memory = none;
  reserve_cpu = none;
  reserve_memory = none;
  mode = "replicated";
  user = none;
  mounts = none;
  configs = none;
  secrets = none;
  constraints = none;
  replicas_max_per_node = none;
  networks = none;
  stop_grace_period = none;
  stop_signal = none;
  publish = none;
  placement_preferences = none;
  replicas = some 3;
  read_only = none;
  restart_policy = none;
  restart_policy_attempts = none;
  restart_policy_delay = none;
  restart_policy_window = none;
  rollback_config = none;
  update_delay = none;
  update_parallelism = none;
  update_failure_action = none;
  update_monitor = none;
  update_max_failure_ratio = none;
  update_order = none;
  working_dir = none;
  init = none;
  cap_add = none;
  cap_drop = none;
  can_update_networks = true;
}

abbrev each_once : NodupService numbers service
each_once = record {
  log_driver_options = tt;
  labels = (lookup-nil "app", tt);
  container_labels = tt;
  sysctls = tt;
  hosts = tt;
  healthcheck = tt;
  rollback_config = tt;
  mounts = tt;
  configs = tt;
  secrets = tt;
  placement_preferences = tt;
}

-- The state counts the updates that are still out of sequence.
abbrev late_updates : ℕ → Result String (Unit {0}) × ℕ
late_updates n = (if n == 0 then ok tt else err "update out of sequence", n)

abbrev client : DockerService ℕ → Client ℕ
client wanted = record {
  State = ℕ;
  Failure = String;
  inspect_distribution = λ name s. ok "sha256:0";
  parse_repository_tag = λ name. (name, none);
  get_service = λ name s. ok (some service);
  from_ansible_params = λ current image s. ok wanted;
  create_service = λ name d s. (ok tt, s);
  update_service = λ name current new s. late_updates s;
  remove_service = λ name s. (ok tt, s);
  is_out_of_sequence = λ e. true;
  sleep = λ s. s - 1;
}

abbrev parameters : Bool → Manager.Params
parameters check_mode = record {
  name = "web";
  image = "web:1";
  resolve_image = false;
  absent = false;
  check_mode = check_mode;
}

-- The same service with another number of replicas; with another mode and a network.
abbrev scaled : DockerService ℕ
scaled = record service { replicas = some 5 }

abbrev moved : DockerService ℕ
moved = record service {
  mode = "global";
  networks = some ((record { id = "n1"; aliases = none; options = none }) ∷ []);
}

-- A change of the mode wants a new service, but not together with a change of the networks.
mode_alone : needs_rebuild numbers 0 (record service { mode = "global" }) service ≡ true
unfolding needs_rebuild
mode_alone = refl

mode_with_networks : needs_rebuild numbers 0 moved service ≡ false
unfolding needs_rebuild
mode_with_networks = refl

-- The order of the environment is no difference.
env_in_order :
    (compare numbers 0 (record service { env = some ("A=1" ∷ "B=2" ∷ []) }) service).changed ≡ false
unfolding compare
env_in_order = refl

compare-same_example :
    compare numbers 0 service service
    ≡ record { changed = false; differences = []; needs_rebuild = false; force_update = false }
compare-same_example = compare-same numbers 0 service each_once

run-check_example : (Manager.run numbers 0 (client scaled) (parameters true) 7).1 ≡ 7
run-check_example = run-check numbers 0 (client scaled) (parameters true) 7 refl

run_safe-Ends_example : Ends numbers 0 (client scaled) (parameters false) 2 1
run_safe-Ends_example = run_safe-Ends numbers 0 (client scaled) (parameters false) 2 1

-- One update is out of sequence, and the second one is not.
retried_once : (Manager.run_safe numbers 0 (client scaled) (parameters false) 2 1).1 ≡ 0
unfolding Manager.run_safe ◌>>=◌ reads choose pure posts
retried_once = refl
