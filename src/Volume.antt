-- ===== src/Volume.antt =====
-- The module docker_volume:
-- collections/ansible_collections/community/docker/plugins/modules/docker_volume.py.
pub mod CheckMode
pub mod Effect
mod Examples
use openstack_osa_office_clu.Prelude.{
  Bool, true, false, not, ◌&&◌, ◌||◌, List, [], ◌∷◌, ◌++◌, some, none, Option, String, string_eq,
  option_eq, ◌=?◌, if◌then◌else◌, Result, ok, err, truthy, map,
}
use Prim.Native.String.{◌++◌ as ◌<>◌}
use openstack_osa_office_clu.Prelude.Dict.{Dict, lookup}
use openstack_osa_office_clu.Util.Differences.{
  Item, Tracker, add, merge, empty, get_before_after, get_legacy_docker_diffs,
}

-- What the Docker API returns for a volume.
pub record Volume : Type 0 where
  pub name : String
  pub driver : String
  pub options : Option (Dict String String)
  pub labels : Option (Dict String String)

-- The body of `/volumes/create`.
pub record CreateData : Type 0 where
  pub name : String
  pub driver : String
  pub driver_opts : Dict String String
  pub labels : Option (Dict String String)

-- The Docker daemon behind the client. A call that may change it returns the new state, on an error
-- too. `list_volumes` is the entry `Volumes` of `/volumes`, which may be `None`.
pub record Daemon : Type 1 where
  pub State : Type 0
  pub ApiError : Type 0
  pub list_volumes : State → Result ApiError (Option (List Volume))
  pub inspect_volume : String → State → Result ApiError Volume
  pub create_volume : CreateData → State → Result ApiError String × State
  pub delete_volume : String → State → Result ApiError (Unit {0}) × State

pub data Recreate : Type 0 where
  always never options_changed : Recreate

pub data Target : Type 0 where
  present absent : Target

-- The module's parameters, with the flags of the run: `check_mode`, and `diff` for `--diff`.
pub record Params : Type 0 where
  pub volume_name : String
  pub driver : String
  pub driver_options : Dict String String
  pub labels : Option (Dict String String)
  pub recreate : Recreate
  pub target : Target
  pub debug : Bool
  pub check_mode : Bool
  pub diff : Bool

-- The values that the differences show.
pub data Shown : Type 0 where
  flag : Bool → Shown
  text : Option String → Shown
  options : Option (Dict String String) → Shown

pub data Action : Type 0 where
  created : String → String → Action
  removed : String → Action

-- The fields of `DockerVolumeManager` that change, and the results. `show_actions` is lost when
-- `present` pops the actions; `volume` is `none` until it is set.
pub record Manager : Type 0 where
  pub existing : Option Volume
  pub actions : List Action
  pub show_actions : Bool
  pub changed : Bool
  pub tracker : Tracker Shown
  pub differences : Option (List String)
  pub volume : Option (Option Volume)

-- A text that is not empty.
abbrev pub filled : String → Bool
filled s = not (s =? "")

-- `self.existing_volume["Options"].get(key)`, read as a truth value, and compared
abbrev pub option_differs : Dict String String → String × String → Bool
option_differs existing (key, wanted) = elim (lookup key existing) [
  | none ↦ true
  | some v ↦ not (filled v) || not (wanted =? v)
]

-- The two loops, each over the entries of one parameter.
pub option_differences : Dict String String → Dict String String → Tracker Shown → Tracker Shown
unfolding lookup add
option_differences existing [] t = t
option_differences existing ((key, wanted) ∷ more) t = option_differences existing more (
    if option_differs existing (key, wanted)
    then add ("driver_options." <> key) (text (some wanted)) (text (lookup key existing)) t
    else t)

pub label_differences : Dict String String → Dict String String → Tracker Shown → Tracker Shown
unfolding lookup add
label_differences existing [] t = t
label_differences existing ((label, wanted) ∷ more) t = label_differences existing more (
    if lookup label existing =? some wanted
    then t
    else add ("labels." <> label) (text (some wanted)) (text (lookup label existing)) t)

-- `self.existing_volume.get("Labels") or {}`
abbrev pub or_nil : Option (Dict String String) → Dict String String
or_nil none = []
or_nil (some d) = d

pub driver_difference : Params → Volume → Tracker Shown → Tracker Shown
unfolding add
driver_difference p v t =
    if filled p.driver && not (p.driver =? v.driver)
    then add "driver" (text (some p.driver)) (text (some v.driver)) t
    else t

pub options_difference : Params → Volume → Tracker Shown → Tracker Shown
unfolding option_differences add
options_difference p v t =
    if not (truthy p.driver_options)
    then t
    else if not (truthy (or_nil v.options))
    then add "driver_options" (options (some p.driver_options)) (options v.options) t
    else option_differences (or_nil v.options) p.driver_options t

unfoldable pub has_different_config : Params → Volume → Tracker Shown
unfolding driver_difference options_difference label_differences
has_different_config p v =
    label_differences (or_nil v.labels) (or_nil p.labels)
      (options_difference p v (driver_difference p v []))

module _ (D : Daemon) where
  -- A run: its result, and the state of the daemon behind it. An error is `client.fail`, which
  -- ends the module.
  abbrev pub Run : Type 0 → Type 0
  Run A = Result D.ApiError A × D.State

  infixl 5 ◌>>=◌
  abbrev pub ◌>>=◌ : {A B : Type 0} → Run A → (A → D.State → Run B) → Run B
  ◌>>=◌ (ok a, s) f = f a s
  ◌>>=◌ (err e, s) f = (err e, s)

  -- The first volume of the name.
  pub find_volume : String → List Volume → Option Volume
  find_volume name [] = none
  find_volume name (v ∷ vs) = if v.name =? name then some v else find_volume name vs

  unfoldable pub get_existing_volume : Params → D.State → Run (Option Volume)
  unfolding find_volume
  get_existing_volume p s = elim (D.list_volumes s) [
    | err e ↦ (err e, s)
    | ok none ↦ (ok none, s)
    | ok (some vs) ↦ (ok (find_volume p.volume_name vs), s)
  ]

  abbrev pub creation : Params → CreateData
  creation p = record {
    name = p.volume_name;
    driver = p.driver;
    driver_opts = p.driver_options;
    labels = p.labels;
  }

  -- The two API calls of `create_volume`.
  unfoldable pub post_volume : Params → D.State → Run Volume
  post_volume p s = D.create_volume (creation p) s >>= λ name s'. (D.inspect_volume name s', s')

  abbrev pub act : Action → Manager → Manager
  act a m = record m { actions = m.actions ++ a ∷ []; changed = true }

  unfoldable pub create_volume : Params → Manager → D.State → Run Manager
  unfolding post_volume
  create_volume p m s = elim m.existing [
    | some v ↦ (ok m, s)
    | none ↦
        if p.check_mode
        then (ok (act (created p.volume_name p.driver) m), s)
        else post_volume p s >>= λ v s'.
            (ok (act (created p.volume_name p.driver) (record m { existing = some v })), s')
  ]

  unfoldable pub remove_volume : Params → Manager → D.State → Run Manager
  remove_volume p m s = elim m.existing [
    | none ↦ (ok m, s)
    | some v ↦
        if p.check_mode
        then (ok (act (removed p.volume_name) m), s)
        else D.delete_volume p.volume_name s >>= λ _ s'. (ok (act (removed p.volume_name) m), s')
  ]

  abbrev pub is_some {ℓ} : {A : Type ℓ} → Option A → Bool
  is_some none = false
  is_some (some a) = true

  -- `self.diff_tracker.add("exists", parameter=wanted, active=self.existing_volume is not None)`
  abbrev pub note_exists : Bool → Manager → Manager
  note_exists wanted m = record m {
    tracker = add "exists" (flag wanted) (flag (is_some m.existing)) m.tracker;
  }

  abbrev pub differences_of : Params → Manager → Tracker Shown
  differences_of p m = elim m.existing [ none ↦ [] | some v ↦ has_different_config p v ]

  abbrev pub is_always : Recreate → Bool
  is_always always = true
  is_always _ = false

  abbrev pub is_options_changed : Recreate → Bool
  is_options_changed options_changed = true
  is_options_changed _ = false

  -- `not differences.empty and recreate == "options-changed" or recreate == "always"`
  abbrev pub must_recreate : Params → Tracker Shown → Bool
  must_recreate p diffs = not (empty diffs) && is_options_changed p.recreate || is_always p.recreate

  -- Removes an old volume that must be created anew.
  pub recreate_volume : Params → Tracker Shown → Manager → D.State → Run Manager
  unfolding remove_volume empty
  recreate_volume p diffs m s =
      if must_recreate p diffs
      then (remove_volume p m s >>= λ m' s'. (ok (record m' { existing = none }), s'))
      else (ok m, s)

  pub add_differences : Params → Tracker Shown → Manager → Manager
  unfolding merge get_legacy_docker_diffs
  add_differences p diffs m =
      if p.diff || (p.check_mode || p.debug)
      then record m {
        differences = some (get_legacy_docker_diffs diffs);
        tracker = merge m.tracker diffs;
      }
      else m

  pub pop_actions : Params → Manager → Manager
  pop_actions p m = if not p.check_mode && not p.debug then record m { show_actions = false } else m

  -- What stands behind `create_volume` in `present`.
  pub report : Params → Tracker Shown → Manager → D.State → Run Manager
  unfolding add_differences pop_actions get_existing_volume
  report p diffs m s = get_existing_volume p s >>= λ v s'.
      (ok (record (pop_actions p (add_differences p diffs m)) { volume = some v }), s')

  unfoldable pub do_present : Params → Manager → D.State → Run Manager
  unfolding has_different_config recreate_volume create_volume report add
  do_present p m s =
      let diffs = differences_of p m in
      recreate_volume p diffs (note_exists true m) s >>= λ m1 s1.
      create_volume p m1 s1 >>= λ m2 s2. report p diffs m2 s2

  unfoldable pub do_absent : Params → Manager → D.State → Run Manager
  unfolding remove_volume add
  do_absent p m s = remove_volume p (note_exists false m) s

  abbrev pub start : Option Volume → Manager
  start existing = record {
    existing = existing;
    actions = [];
    show_actions = true;
    changed = false;
    tracker = [];
    differences = none;
    volume = none;
  }

  abbrev pub dispatch : Target → Params → Manager → D.State → Run Manager
  dispatch present p m s = do_present p m s
  dispatch absent p m s = do_absent p m s

  -- `DockerVolumeManager(client)`
  unfoldable pub run : Params → D.State → Run Manager
  unfolding do_present do_absent get_existing_volume
  run p s = get_existing_volume p s >>= λ existing s'. dispatch p.target p (start existing) s'
