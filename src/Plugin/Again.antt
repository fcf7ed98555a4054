-- ===== src/Plugin/Again.antt =====
-- docker_plugin with `state: present` on a plugin that has the options.
use openstack_osa_office_clu.Prelude.{
  Bool, true, false, [], ◌||◌, if◌then◌else◌, some, string_eq, Result, ok, ◌≡◌, refl, ap, ◌∙◌, All,
}
use openstack_osa_office_clu.Prelude.Dict.{NodupKeys}
use openstack_osa_office_clu.Util.Differences.{empty, merge}
use openstack_osa_office_clu.Prelude.Programs.{continue_with, modify, ◌>>◌}
use openstack_osa_office_clu.Plugin.{
  Plugin, Params, Daemon, Here, Raised, present, preferred_name, has_different_config, note_exists,
  merge_differences, update_plugin, update_existing, present_plugin, start, manage_plugin,
}
use openstack_osa_office_clu.Plugin.Options.{
  IsWritable, set_by, has_different_config-prepare_options,
}

-- The run returns, has noted no action and no change, and leaves the daemon as it was.
abbrev pub IsQuiet : (D : Daemon) → D.State → Result Raised (Unit {0}) × Here D → Type 0
IsQuiet D st (r, s) = (r ≡ ok tt) × (s.changed ≡ false) × (s.actions ≡ []) × (s.daemon ≡ st)

module _ (D : Daemon) (p : Params) (e : Plugin) (same : has_different_config p e ≡ ok []) where
  update_plugin-same : (s : Here D) → update_existing D p (some e) s ≡ (ok tt, s)
  unfolding empty
  update_plugin-same s = rw same refl

  merge_differences-IsQuiet :
      (st : D.State) (b : Bool) (s : Here D)
      → IsQuiet D st (ok tt, s)
      → IsQuiet D st (ok tt, if b then record s { tracker = merge s.tracker [] } else s)
  merge_differences-IsQuiet st true s h = h
  merge_differences-IsQuiet st false s h = h

  abbrev then_merge : Result Raised (Unit {0}) × Here D → Result Raised (Unit {0}) × Here D
  then_merge r = continue_with (λ _. modify (merge_differences D p [])) r

  abbrev found : D.State → Here D
  found st = record (start D st) { existing = some e }

  present_plugin-update_plugin :
      (st : D.State)
      → present_plugin D p (found st) ≡ then_merge (update_plugin D p (note_exists D (found st)))
  unfolding present_plugin
  present_plugin-update_plugin st =
      ap
        (λ r.
          continue_with
            (λ d. modify (note_exists D) >> update_plugin D p >> modify (merge_differences D p d))
            (r, found st))
        same

  update_plugin-found :
      (st : D.State)
      → update_plugin D p (note_exists D (found st)) ≡ (ok tt, note_exists D (found st))
  unfolding update_plugin
  update_plugin-found st = update_plugin-same (note_exists D (found st))

  present_plugin-IsQuiet : (st : D.State) → IsQuiet D st (present_plugin D p (found st))
  present_plugin-IsQuiet st =
      rw (present_plugin-update_plugin st ∙ ap then_merge (update_plugin-found st)) (
        merge_differences-IsQuiet st (p.diff || p.check_mode || p.debug) (note_exists D (found st))
          (refl, refl, refl, refl))

-- Where the option names differ and hold no "=", and no value is empty or None: with
-- `state: present`, a run on a plugin whose settings are what `prepare_options` writes returns, calls
-- nothing that changes the daemon, and reports no change and no action.
pub manage_plugin-IsQuiet :
    (D : Daemon) (p : Params) (e : Plugin) (st : D.State)
    → p.target ≡ present
    → NodupKeys p.plugin_options
    → All IsWritable p.plugin_options
    → D.get_plugin (preferred_name p) st ≡ ok (set_by p e)
    → IsQuiet D st (manage_plugin D p st)
unfolding manage_plugin
manage_plugin-IsQuiet D p e st t u h g =
    rw (g, t)
      (present_plugin-IsQuiet D p (set_by p e) (has_different_config-prepare_options p e u h) st)
