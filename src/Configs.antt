-- ===== src/Configs.antt =====
-- The module docker_config:
-- collections/ansible_collections/community/docker/plugins/modules/docker_config.py.
pub mod Ordered
pub mod Versions
pub mod Removal
pub mod CheckMode
mod Examples
use openstack_osa_office_clu.Prelude.{
  ℕ, suc, Bool, true, false, not, ◌&&◌, ◌||◌, List, [], ◌∷◌, ◌++◌, if◌then◌else◌, some, none,
  Option, String, string_eq, Result, ok, err, truthy, ◌=?◌, list_eq, list_beq, nat_eq, length, ltb,
}
use openstack_osa_office_clu.Prelude.Dict.{Dict, lookup, insert}
use openstack_osa_office_clu.Prelude.Text.{Text, codes, strip_prefix, parse_int}
use openstack_osa_office_clu.Prelude.Int.{ℤ, pos, negsuc, of_sign, suc_ℤ, leb_ℤ, show_ℤ}
use openstack_osa_office_clu.Prelude.Programs.{Program, pure, raise, modify, ◌>>=◌, ◌>>◌, for_each}
use openstack_osa_office_clu.Util.Compare.{allow_more_present, dict, compare_generic}

abbrev pub Labels : Type 0
Labels = Dict String Text

-- A config of the API. `templating` is the name of its template driver. Labels `none` stand for a
-- missing key `Labels`; a null under that key, at which `get_version` raises an AttributeError, is
-- left out.
pub record Config : Type 0 where
  pub id : String
  pub name : Text
  pub labels : Option Labels
  pub templating : Option String

pub data Target : Type 0 where
  present absent : Target

-- The parameters: `data` is what `data` or `data_src` gives.
pub record Params : Type 0 where
  pub name : Text
  pub target : Target
  pub data_bytes : Text
  pub labels : Option Labels
  pub force : Bool
  pub rolling_versions : Bool
  pub versions_to_keep : ℤ
  pub template_driver : Option String
  pub check_mode : Bool

-- What the SDK's `create_config` returns: the id, or a dict that holds it.
pub data Created : Type 0 where
  plain in_dict : String → Created

abbrev pub created_id : Created → String
created_id (plain id) = id
created_id (in_dict id) = id

-- The swarm behind the client, and `hashlib.sha224(data).hexdigest()`. A call that may change the
-- swarm returns the new state, on an error too.
pub record Swarm : Type 1 where
  pub State : Type 0
  pub ApiError : Type 0
  pub digest : Text → Text
  pub configs_by_name : Text → State → Result ApiError (List Config)
  pub configs_by_id : Created → State → Result ApiError (List Config)
  pub create : Text → Text → Labels → Option String → State → Result ApiError Created × State
  pub remove : String → State → Result ApiError (Unit {0}) × State

-- The fields of `ConfigManager` that change, the results, the warnings and the swarm's state.
pub record Session (S : Type 0) : Type 0 where
  pub name : Text
  pub version : ℤ
  pub configs : List Config
  pub changed : Bool
  pub config_id : Option String
  pub config_name : Option Text
  pub warned : Bool
  pub swarm : S

abbrev pub or_nil : Option Labels → Labels
or_nil none = []
or_nil (some d) = d

-- `int(labels.get("ansible_version", 0))`, and 0 for what is no number.
abbrev pub number_or_zero : Option Text → ℤ
number_or_zero none = pos 0
number_or_zero (some s) = elim (parse_int s) [ none ↦ pos 0 | some n ↦ of_sign n ]

unfoldable pub get_version : Config → ℤ
unfolding lookup parse_int
get_version c = number_or_zero (lookup "ansible_version" (or_nil c.labels))

-- `self.configs.sort(key=self.get_version)`: a stable sort.
pub insert_sorted : Config → List Config → List Config
unfolding get_version
insert_sorted c [] = c ∷ []
insert_sorted c (d ∷ ds) =
    if leb_ℤ (get_version c) (get_version d) then c ∷ d ∷ ds else d ∷ insert_sorted c ds

unfoldable pub sort : List Config → List Config
unfolding insert_sorted
sort [] = []
sort (c ∷ cs) = insert_sorted c (sort cs)

abbrev pub is_prefix : Text → Text → Bool
is_prefix p s = elim (strip_prefix p s) [ none ↦ false | some _ ↦ true ]

abbrev pub keep_if : (Config → Bool) → List Config → List Config
keep_if test [] = []
keep_if test (c ∷ cs) = if test c then c ∷ keep_if test cs else keep_if test cs

-- The configs of those listed that are this one's: its versions, or the one of its name.
unfoldable pub own_configs : Bool → Text → List Config → List Config
unfolding sort strip_prefix list_beq
own_configs rolling name cs =
    if rolling
    then sort (keep_if (λ c. is_prefix (name ++ codes "_v") c.name) cs)
    else keep_if (λ c. c.name =? name) cs

-- `self.configs[-1]`
abbrev pub last : List Config → Option Config
last [] = none
last (c ∷ cs) = elim cs [ [] ↦ some c | _ ∷ _ ↦ last cs ]

-- `labels.update(...)`
pub update_labels : Labels → Labels → Labels
unfolding insert
update_labels labels [] = labels
update_labels labels ((k, v) ∷ more) = update_labels (insert k v labels) more

abbrev pub driver_given : Option String → Bool
driver_given none = false
driver_given (some d) = not (d =? "")

-- The template driver of a new config: only one that is not empty is sent.
abbrev pub driver_sent : Option String → Option String
driver_sent d = if driver_given d then d else none

module _ (D : Swarm) where
  abbrev pub Here : Type 0
  Here = Session D.State

  abbrev pub Call : Type 0 → Type 0
  Call A = Program D.ApiError Here A

  abbrev pub asks : {A : Type 0} → (D.State → Result D.ApiError A) → Call A
  asks f s = (f s.swarm, s)

  abbrev pub posts : {A : Type 0} → (D.State → Result D.ApiError A × D.State) → Call A
  posts f s = ((f s.swarm).0, record s { swarm = (f s.swarm).1 })

  unfoldable pub get_config : Params → Call (Unit {0})
  unfolding own_configs
  get_config p s =
      (asks (D.configs_by_name s.name) >>= λ cs.
      modify (λ t. record t { configs = own_configs p.rolling_versions t.name cs }))
        s

  -- The version and the name of a new config.
  abbrev pub next_version : Params → Here → Here
  next_version p s =
      if p.rolling_versions
      then record s {
        version = suc_ℤ s.version;
        name = s.name ++ codes "_v" ++ show_ℤ (suc_ℤ s.version);
      }
      else s

  -- The labels of a new config; the given ones are written over those of the module.
  pub new_labels : Params → Here → Labels
  unfolding update_labels insert
  new_labels p s =
      let key = ("ansible_key", D.digest p.data_bytes) ∷ [] in
      update_labels
        (if p.rolling_versions then insert "ansible_version" (show_ℤ s.version) key else key)
        (or_nil p.labels)

  pub post_config : Params → Call (Option String)
  unfolding new_labels
  post_config p s =
      (posts (D.create s.name p.data_bytes (new_labels p s) (driver_sent p.template_driver))
          >>= λ id. asks (D.configs_by_id id) >>= λ found.
              modify (λ t. record t { configs = t.configs ++ found })
              >> pure (some (created_id id)))
        s

  unfoldable pub create_config : Params → Call (Option String)
  unfolding post_config
  create_config p = modify (next_version p) >> (if p.check_mode then pure none else post_config p)

  abbrev pub remove_config : Params → Config → Call (Unit {0})
  remove_config p c = if p.check_mode then pure tt else posts (D.remove c.id)

  -- `absent`, which `present` calls too.
  unfoldable pub absent_config : Params → Call (Unit {0})
  unfolding for_each
  absent_config p s =
      if truthy s.configs
      then (for_each (remove_config p) s.configs >> modify (λ t. record t { changed = true })) s
      else (ok tt, s)

  abbrev pub filled : Option Text → Bool
  filled none = false
  filled (some t) = truthy t

  abbrev pub same_driver : Option String → Option String → Bool
  same_driver none none = true
  same_driver none (some d) = false
  same_driver (some d) none = false
  same_driver (some d) (some e) = d =? e

  -- The three tests of `present`, on the newest config.
  pub data_changed : Params → Config → Bool
  unfolding lookup list_beq
  data_changed p c = elim (lookup "ansible_key" (or_nil c.labels)) [
    | none ↦ false
    | some key ↦ truthy key && not (key =? D.digest p.data_bytes)
  ]

  pub template_driver_changed : Params → Config → Bool
  template_driver_changed p c =
      if driver_given c.templating
      then not (same_driver c.templating p.template_driver)
      else driver_given p.template_driver

  pub labels_changed : Params → Config → Bool
  unfolding compare_generic
  labels_changed p c = not (compare_generic String Text allow_more_present dict p.labels c.labels)

  unfoldable pub must_create : Params → Config → Bool
  unfolding data_changed template_driver_changed labels_changed
  must_create p c = data_changed p c || template_driver_changed p c || labels_changed p c || p.force

  abbrev pub set_result : Option String → Option Text → Here → Here
  set_result id name s = record s { config_id = id; config_name = name }

  abbrev pub note_version : Params → Config → Here → Here
  note_version p c s = if p.rolling_versions then record s { version = get_version c } else s

  -- The warning for a config without the label `ansible_key`.
  pub warn_without_key : Params → Config → Here → Here
  unfolding lookup
  warn_without_key p c s =
      if filled (lookup "ansible_key" (or_nil c.labels)) || p.force
      then s
      else record s { warned = true }

  -- A new config is made, in place of the old ones or as a further version.
  unfoldable pub make_anew : Params → Call (Unit {0})
  unfolding create_config absent_config
  make_anew p =
      (if p.rolling_versions then pure tt else absent_config p) >> create_config p >>= λ id.
      modify (λ s. set_result id (some s.name) (record s { changed = true }))

  unfoldable pub make_first : Params → Call (Unit {0})
  unfolding create_config
  make_first p = modify (λ s. record s { changed = true }) >> create_config p >>= λ id.
      modify (λ s. set_result id (some s.name) s)

  abbrev pub make_if : Params → Bool → Call (Unit {0})
  make_if p true = make_anew p
  make_if p false = pure tt

  abbrev pub present_from : Params → Option Config → Call (Unit {0})
  present_from p none = make_first p
  present_from p (some c) =
      modify (λ s. note_version p c (warn_without_key p c (set_result (some c.id) (some c.name) s)))
      >> make_if p (must_create p c)

  unfoldable pub present_config : Params → Call (Unit {0})
  unfolding make_anew make_first must_create warn_without_key
  present_config p s = present_from p (last s.configs) s

  -- `while len(self.configs) > limit: self.remove_config(self.configs.pop(0))`
  abbrev pub pop_first : List Config → Here → Here
  pop_first cs s = record s { configs = cs }

  pub remove_while : ℕ → Params → List Config → Call (Unit {0})
  remove_while limit p [] = pure tt
  remove_while limit p (c ∷ cs) =
      let rest = remove_while limit p cs in
      if ltb limit (length (c ∷ cs))
      then modify (pop_first cs) >> remove_config p c >> rest
      else pure tt

  -- `max(self.versions_to_keep, 1)`
  abbrev pub at_least_one : ℕ → ℕ
  at_least_one n = if ltb n 1 then 1 else n

  abbrev pub remove_beyond : Params → ℤ → Call (Unit {0})
  remove_beyond p (negsuc n) s = (ok tt, s)
  remove_beyond p (pos n) s =
      if p.check_mode then (ok tt, s) else remove_while (at_least_one n) p s.configs s

  unfoldable pub remove_old_versions : Params → Call (Unit {0})
  unfolding remove_while
  remove_old_versions p =
      if not p.rolling_versions then pure tt else remove_beyond p p.versions_to_keep

  abbrev pub dispatch : Target → Params → Call (Unit {0})
  dispatch present p = present_config p >> remove_old_versions p
  dispatch absent p = absent_config p

  abbrev pub start : Params → D.State → Here
  start p s = record {
    name = p.name;
    version = pos 0;
    configs = [];
    changed = false;
    config_id = none;
    config_name = none;
    warned = false;
    swarm = s;
  }

  -- `ConfigManager(client, results)()`
  unfoldable pub manage_config : Params → D.State → Result D.ApiError (Unit {0}) × Here
  unfolding get_config present_config absent_config remove_old_versions
  manage_config p s = (get_config p >> dispatch p.target p) (start p s)
