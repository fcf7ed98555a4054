-- ===== src/Configs/Examples.antt =====
-- docker_config against a swarm with versions of a config, and the theorems at runs of it.
use openstack_osa_office_clu.Prelude.{
  ℕ, true, false, List, [], ◌∷◌, some, none, String, string_eq, ◌=?◌, if◌then◌else◌, ok, ◌≡◌, refl,
  All,
}
use openstack_osa_office_clu.Prelude.Names.{show}
use openstack_osa_office_clu.Prelude.Dict.{lookup-nil}
use openstack_osa_office_clu.Prelude.Text.{Text, codes}
use openstack_osa_office_clu.Prelude.Int.{pos, suc_ℤ, ◌≤ℤ◌}
use openstack_osa_office_clu.Configs.{
  Config, Params, created_id, in_dict, present, Swarm, Session, get_version, is_prefix, own_configs,
  start, get_config, present_config, remove_old_versions, manage_config,
}
use openstack_osa_office_clu.Configs.Versions.{IsCreated, present_config-newest}
use openstack_osa_office_clu.Configs.CheckMode.{manage_config-check_mode}
use openstack_osa_office_clu.Configs.Removal.{IsTrimmed, remove_old_versions-IsTrimmed}

abbrev without_id : String → List Config → List Config
without_id id [] = []
without_id id (c ∷ cs) = if c.id =? id then cs else c ∷ without_id id cs

abbrev with_id : String → List Config → List Config
with_id id [] = []
with_id id (c ∷ cs) = if c.id =? id then c ∷ [] else with_id id cs

-- A new config gets the id "new"; the name's filter lets all through.
abbrev one_swarm : Swarm
one_swarm = record {
  State = List Config;
  ApiError = ℕ;
  digest = λ bytes. bytes;
  configs_by_name = λ name s. ok s;
  configs_by_id = λ id s. ok (with_id (created_id id) s);
  create = λ name bytes labels driver s. (
    ok (in_dict "new"),
    (record { id = "new"; name = name; labels = some labels; templating = driver }) ∷ s,
  );
  remove = λ id s. (ok tt, without_id id s);
}

abbrev versioned : String → String → String → String → Config
versioned id name version key = record {
  id = id;
  name = codes name;
  labels = some (("ansible_version", codes version) ∷ ("ansible_key", codes key) ∷ []);
  templating = none;
}

abbrev tenth : Config
tenth = versioned "a" "web_v10" "10" "old"

abbrev second : Config
second = versioned "b" "web_v2" "2" "older"

abbrev new_data : Params
new_data = record {
  name = codes "web";
  target = present;
  data_bytes = codes "new";
  labels = none;
  force = false;
  rolling_versions = true;
  versions_to_keep = pos 1;
  template_driver = none;
  check_mode = false;
}

abbrev begun : Session (List Config)
begun = start one_swarm new_data (tenth ∷ second ∷ [])

abbrev found : Session (List Config)
found = (get_config one_swarm new_data begun).1

abbrev made : Session (List Config)
made = (present_config one_swarm new_data found).1

abbrev kept : Session (List Config)
kept = (remove_old_versions one_swarm new_data made).1

-- Version 11 is made, and it alone is left.
three_versions :
    made.configs
    ≡ second
      ∷ tenth
      ∷ (record {
        id = "new";
        name = codes "web_v11";
        labels = some (("ansible_key", codes "new") ∷ ("ansible_version", codes "11") ∷ []);
        templating = none;
      })
      ∷ []
unfolding get_config present_config show
three_versions = refl

name_of_newest : kept.name ≡ codes "web_v11"
unfolding get_config present_config remove_old_versions show
name_of_newest = refl

-- A config that has the name and `_v` in front counts as a version.
foreign_config :
    own_configs true (codes "web") (versioned "c" "web_vault" "x" "k" ∷ [])
    ≡ versioned "c" "web_vault" "x" "k" ∷ []
unfolding own_configs
foreign_config = refl

present_config-newest_example :
    IsCreated one_swarm new_data (codes "web") made.version (tenth ∷ second ∷ []) made.swarm
    × All
        (λ c. is_prefix (codes "web_v") c.name ≡ true → suc_ℤ (get_version c) ≤ℤ made.version)
        (tenth ∷ second ∷ [])
unfolding get_config present_config
present_config-newest_example =
    present_config-newest one_swarm new_data refl refl
      (lookup-nil {K = String} {V = Text} "ansible_version") begun found made (tenth ∷ second ∷ [])
      refl refl refl refl refl

remove_old_versions-IsTrimmed_example : IsTrimmed one_swarm 1 made.configs made.swarm kept
unfolding get_config present_config remove_old_versions
remove_old_versions-IsTrimmed_example =
    remove_old_versions-IsTrimmed one_swarm new_data refl 1 made kept refl refl refl

abbrev checked : Params
checked = record new_data { check_mode = true }

-- The new version is reported, but not made.
manage_config-checked :
    (manage_config one_swarm checked (tenth ∷ second ∷ [])).1.config_name ≡ some (codes "web_v11")
unfolding manage_config show
manage_config-checked = refl

manage_config-check_mode_example :
    (manage_config one_swarm checked (tenth ∷ second ∷ [])).1.swarm ≡ tenth ∷ second ∷ []
manage_config-check_mode_example =
    manage_config-check_mode one_swarm checked refl (tenth ∷ second ∷ [])
