-- ===== src/Plugin/Examples.antt =====
-- docker_plugin on a daemon with one plugin, and the theorems at runs of it.
use openstack_osa_office_clu.Prelude.{
  true, false, [], ◌∷◌, some, none, Option, string_eq, Result, ok, err, ◌≡◌, refl, nat_eq,
}
use openstack_osa_office_clu.Prelude.Dict.{lookup}
use openstack_osa_office_clu.Plugin.{
  Params, Plugin, Daemon, Problem, not_found, present, disable, disable_of_missing, prepare_options,
  split_equals, manage_plugin, has_different_config, string,
}
use openstack_osa_office_clu.Plugin.Options.{set_by}
use openstack_osa_office_clu.Plugin.Again.{IsQuiet, manage_plugin-IsQuiet}

abbrev wanted : Params
wanted = record {
  plugin_name = "vieux/sshfs";
  alias = some "ssh";
  plugin_options = ("DEBUG", some "1") ∷ ("key", some "a=b") ∷ [];
  debug = false;
  force_remove = false;
  enable_timeout = 0;
  target = present;
  check_mode = false;
  diff = false;
}

abbrev fresh : Plugin
fresh = record { settings = none; enabled = false }

abbrev found : Option Plugin → Result Problem Plugin
found none = err not_found
found (some p) = ok p

abbrev change : (Plugin → Plugin) → Option Plugin → Result Problem (Unit {0}) × Option Plugin
change f none = (err not_found, none)
change f (some p) = (ok tt, some (f p))

abbrev one_plugin : Daemon
one_plugin = record {
  State = Option Plugin;
  Privileges = Unit;
  get_plugin = λ name s. found s;
  privileges = λ name s. ok tt;
  pull = λ name alias privileges s. (ok tt, some fresh);
  set_options =
      λ name options s. change (λ p. record p { settings = some record { env = some options } }) s;
  delete = λ name force s. (ok tt, none);
  enable_plugin = λ name timeout s. change (λ p. record p { enabled = true }) s;
  disable_plugin = λ name s. change (λ p. record p { enabled = false }) s;
}

options_written : prepare_options wanted.plugin_options ≡ "DEBUG=1" ∷ "key=a=b" ∷ []
unfolding prepare_options
options_written = refl

plugin_installed : (manage_plugin one_plugin wanted none).1.daemon ≡ some (set_by wanted fresh)
unfolding manage_plugin prepare_options
plugin_installed = refl

plugin_missing :
    (manage_plugin one_plugin (record wanted { target = disable }) none).0 ≡ err disable_of_missing
unfolding manage_plugin
plugin_missing = refl

-- An option with an empty value differs from itself.
empty_option_differs :
    has_different_config
      (record wanted { plugin_options = ("DEBUG", some "") ∷ [] })
      (record fresh { settings = some record { env = some ("DEBUG=" ∷ []) } })
    ≡ ok (
        (record {
          name = "plugin_options.DEBUG";
          parameter = string (some "");
          active = string (some "");
        })
        ∷ [])
unfolding has_different_config
empty_option_differs = refl

manage_plugin-IsQuiet_example :
    IsQuiet one_plugin
      (some (set_by wanted fresh))
      (manage_plugin one_plugin wanted (some (set_by wanted fresh)))
unfolding lookup split_equals
manage_plugin-IsQuiet_example =
    manage_plugin-IsQuiet one_plugin wanted fresh (some (set_by wanted fresh)) refl
      (refl, (refl, tt)) ((refl, refl), ((refl, refl), tt)) refl
