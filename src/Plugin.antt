-- ===== src/Plugin.antt =====
-- The module docker_plugin:
-- collections/ansible_collections/community/docker/plugins/modules/docker_plugin.py.
pub mod Options
pub mod Again
mod Examples
use openstack_osa_office_clu.Prelude.{
  ℕ, Bool, true, false, not, ◌&&◌, ◌||◌, List, [], ◌∷◌, ◌++◌, if◌then◌else◌, ◌==◌, some, none,
  Option, String, string_eq, Result, ok, err, ◌=?◌, truthy,
}
use Prim.Native.Char.{code}
use Prim.Native.String.{◌++◌ as ◌<>◌}
use openstack_osa_office_clu.Prelude.Dict.{Dict, lookup, insert}
use openstack_osa_office_clu.Prelude.Programs.{Program, pure, raise, modify, ◌>>=◌, ◌>>◌}
use openstack_osa_office_clu.Util.Differences.{Tracker, add, merge, empty}

-- The options of the module; a value may be None.
abbrev pub GivenOptions : Type 0
GivenOptions = Dict String (Option String)

abbrev pub ActiveOptions : Type 0
ActiveOptions = Dict String String

abbrev pub filled : String → Bool
filled s = not (s =? "")

abbrev pub or_blank : Option String → String
or_blank none = ""
or_blank (some v) = v

abbrev pub prepare_option : String × Option String → String
prepare_option (k, v) = k <> ("=" <> or_blank v)

unfoldable pub prepare_options : GivenOptions → List String
prepare_options [] = []
prepare_options (o ∷ os) = prepare_option o ∷ prepare_options os

-- `x.split("=", 1)`, where there is a "=".
unfoldable pub split_equals : String → Option (String × String)
split_equals String.[] = none
split_equals (String.◌∷◌ c s) = elim (split_equals s) [
  | none ↦ if code c == 61 then some (String.[], s) else none
  | some (a, b) ↦ if code c == 61 then some (String.[], s) else some (String.◌∷◌ c a, b)
]

-- `dict(...)` of the pieces: an entry without "=" raises a ValueError, which is `none` here.
unfoldable pub parse_into : ActiveOptions → List String → Option ActiveOptions
unfolding split_equals insert
parse_into d [] = some d
parse_into d (x ∷ xs) = elim (split_equals x) [
  | none ↦ none
  | some (k, v) ↦ parse_into (insert k v d) xs
]

unfoldable pub parse_options : Option (List String) → Option ActiveOptions
unfolding parse_into
parse_options none = some []
parse_options (some xs) = parse_into [] xs

-- A plugin of the API: `Settings`, where they are neither missing nor empty, and `Enabled`.
pub record Settings : Type 0 where
  pub env : Option (List String)

pub record Plugin : Type 0 where
  pub settings : Option Settings
  pub enabled : Bool

pub data Target : Type 0 where
  present absent enable disable : Target

pub record Params : Type 0 where
  pub plugin_name : String
  pub alias : Option String
  pub plugin_options : GivenOptions
  pub debug : Bool
  pub force_remove : Bool
  pub enable_timeout : ℕ
  pub target : Target
  pub check_mode : Bool
  pub diff : Bool

-- The values that the differences show.
pub data Shown : Type 0 where
  flag : Bool → Shown
  options : GivenOptions → Shown
  settings : Option Settings → Shown
  string : Option String → Shown

abbrev pub Differences : Type 0
Differences = Tracker Shown

-- What the client raises, and how the task stops.
pub data Problem : Type 0 where
  not_found api_error other_exception : Problem

pub data Raised : Type 0 where
  failed : Problem → Raised
  update_of_missing disable_of_missing : Raised
  uncaught : Problem → Raised
  value_error : Raised

abbrev pub nonempty : Option String → Bool
nonempty none = false
nonempty (some v) = filled v

abbrev pub same_value : Option String → Option String → Bool
same_value none none = true
same_value none (some w) = false
same_value (some v) none = false
same_value (some v) (some w) = v =? w

-- `(not existing.get(key) and value) or not value or value != existing[key]`
abbrev pub option_differs : Option String → Option String → Bool
option_differs active value =
    (not (nonempty active) && nonempty value)
    || not (nonempty value)
    || not (same_value value active)

pub option_differences : ActiveOptions → GivenOptions → Differences → Differences
unfolding lookup add
option_differences existing [] t = t
option_differences existing ((key, value) ∷ more) t = option_differences existing more (
    if option_differs (lookup key existing) value
    then add ("plugin_options." <> key) (string value) (string (lookup key existing)) t
    else t)

abbrev pub against : GivenOptions → Option ActiveOptions → Result Raised Differences
against given none = err value_error
against given (some existing) = ok (option_differences existing given [])

abbrev pub settings_differences : GivenOptions → Option Settings → Result Raised Differences
settings_differences given none = ok (add "plugin_options" (options given) (settings none) [])
settings_differences given (some s) = against given (parse_options s.env)

unfoldable pub has_different_config : Params → Plugin → Result Raised Differences
unfolding option_differences parse_options add
has_different_config p existing =
    if truthy p.plugin_options
    then settings_differences p.plugin_options existing.settings
    else ok []

-- `alias or plugin_name`
abbrev pub preferred : Option String → String → String
preferred none name = name
preferred (some a) name = if filled a then a else name

abbrev pub preferred_name : Params → String
preferred_name p = preferred p.alias p.plugin_name

-- The daemon behind the client. `privileges` is asked with the registry's authentication; `pull` is
-- the pull with its stream read to the end.
pub record Daemon : Type 1 where
  pub State : Type 0
  pub Privileges : Type 0
  pub get_plugin : String → State → Result Problem Plugin
  pub privileges : String → State → Result Problem Privileges
  pub pull : String → Option String → Privileges → State → Result Problem (Unit {0}) × State
  pub set_options : String → List String → State → Result Problem (Unit {0}) × State
  pub delete : String → Bool → State → Result Problem (Unit {0}) × State
  pub enable_plugin : String → ℕ → State → Result Problem (Unit {0}) × State
  pub disable_plugin : String → State → Result Problem (Unit {0}) × State

pub data Action : Type 0 where
  installed removed updated enabled_it disabled_it : String → Action

-- The fields of `DockerPluginManager` that change, and the daemon's state.
pub record Session (S : Type 0) : Type 0 where
  pub existing : Option Plugin
  pub actions : List Action
  pub changed : Bool
  pub tracker : Differences
  pub daemon : S

abbrev pub is_some : Option Plugin → Bool
is_some none = false
is_some (some p) = true

-- `except APIError as e: fail`
abbrev pub from_api {ℓ} : {A : Type ℓ} → Result Problem A → Result Raised A
from_api (ok a) = ok a
from_api (err other_exception) = err (uncaught other_exception)
from_api (err not_found) = err (failed not_found)
from_api (err api_error) = err (failed api_error)

-- `except NotFound: return None` besides
abbrev pub or_missing : Result Problem Plugin → Result Raised (Option Plugin)
or_missing (ok p) = ok (some p)
or_missing (err not_found) = ok none
or_missing (err api_error) = err (failed api_error)
or_missing (err other_exception) = err (uncaught other_exception)

module _ (D : Daemon) where
  abbrev pub Here : Type 0
  Here = Session D.State

  abbrev pub Call : Type 0 → Type 0
  Call A = Program Raised Here A

  abbrev pub asks : {A : Type 0} → (D.State → Result Raised A) → Call A
  asks f s = (f s.daemon, s)

  abbrev pub posts : (D.State → Result Problem (Unit {0}) × D.State) → Call (Unit {0})
  posts f s = let answer = f s.daemon in (from_api answer.0, record s { daemon = answer.1 })

  abbrev pub unless_check : Params → Call (Unit {0}) → Call (Unit {0})
  unless_check p act = if p.check_mode then pure tt else act

  -- The action is noted, and `changed` set.
  abbrev pub act : Action → Here → Here
  act a s = record s { actions = s.actions ++ a ∷ []; changed = true }

  abbrev pub set_existing : Plugin → Here → Here
  set_existing e s = record s { existing = some e }

  abbrev pub get_existing_plugin : Params → Call (Option Plugin)
  get_existing_plugin p = asks (λ s. or_missing (D.get_plugin (preferred_name p) s))

  pub send_options : Params → Call (Unit {0})
  unfolding prepare_options
  send_options p = posts (D.set_options (preferred_name p) (prepare_options p.plugin_options))

  abbrev pub alias_sent : Option String → Option String
  alias_sent a = if nonempty a then a else none

  pub pull_plugin : Params → Call (Unit {0})
  unfolding send_options
  pull_plugin p = asks (λ s. from_api (D.privileges p.plugin_name s)) >>= λ privileges.
      posts (D.pull p.plugin_name (alias_sent p.alias) privileges)
      >> asks (λ s. from_api (D.get_plugin (preferred_name p) s))
      >>= λ e.
          modify (set_existing e) >> (if truthy p.plugin_options then send_options p else pure tt)

  pub install_plugin : Params → Call (Unit {0})
  unfolding pull_plugin
  install_plugin p s =
      if is_some s.existing
      then (ok tt, s)
      else (unless_check p (pull_plugin p) >> modify (act (installed (preferred_name p)))) s

  pub remove_plugin : Params → Call (Unit {0})
  remove_plugin p s =
      if is_some s.existing
      then (unless_check p (posts (D.delete (preferred_name p) p.force_remove))
            >> modify (act (removed (preferred_name p))))
          s
      else (ok tt, s)

  abbrev pub update_by : Params → Differences → Call (Unit {0})
  update_by p d =
      if empty d
      then pure tt
      else (unless_check p (send_options p) >> modify (act (updated (preferred_name p))))

  abbrev pub update_existing : Params → Option Plugin → Call (Unit {0})
  update_existing p none = raise update_of_missing
  update_existing p (some e) = asks (λ s. has_different_config p e) >>= update_by p

  pub update_plugin : Params → Call (Unit {0})
  unfolding has_different_config send_options empty
  update_plugin p s = update_existing p s.existing s

  abbrev pub compared : Params → Option Plugin → Result Raised Differences
  compared p none = ok []
  compared p (some e) = has_different_config p e

  abbrev pub note_exists : Here → Here
  note_exists s = record s {
    tracker = add "exists" (flag true) (flag (is_some s.existing)) s.tracker;
  }

  abbrev pub merge_differences : Params → Differences → Here → Here
  merge_differences p d s =
      if p.diff || p.check_mode || p.debug then record s { tracker = merge s.tracker d } else s

  abbrev pub update_or_install : Params → Bool → Call (Unit {0})
  update_or_install p true = update_plugin p
  update_or_install p false = install_plugin p

  pub present_plugin : Params → Call (Unit {0})
  unfolding update_plugin install_plugin merge
  present_plugin p s =
      (asks (λ t. compared p s.existing) >>= λ d.
      modify note_exists
      >> update_or_install p (is_some s.existing)
      >> modify (merge_differences p d))
        s

  abbrev pub post_enable : Params → Call (Unit {0})
  post_enable p = unless_check p (posts (D.enable_plugin (preferred_name p) p.enable_timeout))

  abbrev pub enable_existing : Params → Option Plugin → Call (Unit {0})
  enable_existing p (some e) =
      if e.enabled then pure tt else (post_enable p >> modify (act (enabled_it (preferred_name p))))
  enable_existing p none =
      install_plugin p >> post_enable p >> modify (act (enabled_it (preferred_name p)))

  pub do_enable : Params → Call (Unit {0})
  unfolding install_plugin
  do_enable p s = enable_existing p s.existing s

  abbrev pub disable_existing : Params → Option Plugin → Call (Unit {0})
  disable_existing p none = raise disable_of_missing
  disable_existing p (some e) =
      if e.enabled
      then (unless_check p (posts (D.disable_plugin (preferred_name p)))
          >> modify (act (disabled_it (preferred_name p))))
      else pure tt

  pub do_disable : Params → Call (Unit {0})
  do_disable p s = disable_existing p s.existing s

  abbrev pub dispatch : Target → Params → Call (Unit {0})
  dispatch present p = present_plugin p
  dispatch absent p = remove_plugin p
  dispatch enable p = do_enable p
  dispatch disable p = do_disable p

  abbrev pub start : D.State → Here
  start s = record { existing = none; actions = []; changed = false; tracker = []; daemon = s }

  -- `DockerPluginManager(client)`
  unfoldable pub manage_plugin : Params → D.State → Result Raised (Unit {0}) × Here
  unfolding present_plugin remove_plugin do_enable do_disable
  manage_plugin p s =
      (get_existing_plugin p >>= λ e.
      modify (λ t. record t { existing = e }) >> dispatch p.target p)
        (start s)
