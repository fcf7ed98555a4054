-- ===== src/Container/Actions.antt =====
-- The methods of ContainerManager that do one thing to a container: create, start, remove, update,
-- kill, restart, stop, and connect networks.
use openstack_osa_office_clu.Prelude.{
  ℕ, zero, suc, string_eq, Bool, true, false, not, List, [], ◌∷◌, some, none, Option, String, ◌==◌,
}
use openstack_osa_office_clu.Prelude.Dict.{Dict, insert}
use openstack_osa_office_clu.Prelude.Methods.{pure, modify, ◌>>=◌, ◌>>◌, choose, when}
use openstack_osa_office_clu.Container.{Container, NetworkParam, Params}
use openstack_osa_office_clu.Container.Driver.{
  Driver, Setup, uncaught, error_in, created, started_it, updated, restarted, removed, killed,
  stopped_it, Call, asks, posts, unless_check, act,
}
use openstack_osa_office_clu.Container.Differences.{compose_create_parameters}
use openstack_osa_office_clu.Container.Networks.{or_nil}

-- `network_list[:1]`
abbrev pub first_only {ℓ} : {A : Type ℓ} → List A → List A
first_only [] = []
first_only (x ∷ xs) = x ∷ []

-- `timeout or 10`
abbrev pub or_ten : Option ℕ → ℕ
or_ten none = 10
or_ten (some zero) = 10
or_ten (some (suc n)) = suc n

abbrev pub by_name : List NetworkParam → Dict String NetworkParam → Dict String NetworkParam
unfolding insert
by_name [] d = d
by_name (n ∷ ns) d = by_name ns (insert n.name n d)

-- A container with the output that `container_start` may put beside it.
abbrev pub Raw : Type 0 → Type 0
Raw Output = Container × Option Output

module _ {Seconds Value : Type 0} (D : Driver Seconds)
    (setup : Setup Value D.Image D.Host D.CreateParameters D.UpdateParameters)
    (p : Params Seconds) where
  -- `_get_container`
  unfoldable pub get_container : String → Call D Value Container
  get_container name = asks D Value (D.inspect_container_by_name name)

  abbrev pub networks_to_create : List NetworkParam
  networks_to_create = elim p.networks_cli_compatible [
    | false ↦ []
    | true ↦ elim D.supports_more_than_one_network [
      | true ↦ or_nil p.networks
      | false ↦ first_only (or_nil p.networks)
    ]
  ]

  unfoldable pub container_create : String → Call D Value (Option Container)
  unfolding get_container compose_create_parameters
  container_create image =
      let parameters =
        compose_create_parameters setup.groups (setup.set_image image setup.no_create) in
      let networks = by_name networks_to_create [] in
      modify (act D Value (created networks))
      >> choose p.check_mode (pure none) (
          posts D Value (error_in (created networks))
            (D.create_container p.name parameters networks)
          >>= λ id. get_container id >>= λ c. pure (some c))

  unfoldable pub container_remove : String → Bool → Call D Value (Unit {0})
  container_remove id force =
      let volumes = not p.keep_volumes in
      modify (act D Value (removed id volumes force))
      >> unless_check D Value p (
          posts D Value (error_in (removed id volumes force))
            (D.remove_container id volumes false force))

  -- The output of a container that has ended; a real one may be logged.
  abbrev pub output_of : String → Call D Value D.Output
  output_of id =
      choose p.auto_remove
        (when p.output_logs (modify (λ s. record s { warned = true })) >> pure D.output_unavailable)
        (asks D Value (D.get_container_output id) >>= λ r. pure r.0)

  abbrev pub fail_with : ℕ → D.Output → Call D Value (Unit {0})
  fail_with status output =
      when (not (status == 0)) (modify (λ s. record s { failed_with = some output }))

  -- `detach: false`
  unfoldable pub wait_for_end : String → Call D Value (Raw D.Output)
  unfolding get_container container_remove
  wait_for_end id = do
    status ← posts D Value uncaught (D.wait_for_container id)
    modify (λ s. record s { status = some status })
    output ← output_of id
    when p.cleanup (container_remove id true)
    c ← get_container id
    fail_with status output
    pure (c, some output)

  abbrev pub without_output : Container → Call D Value (Raw D.Output)
  without_output c = pure (c, none)

  abbrev pub is_attached : Option Bool → Bool
  is_attached (some false) = true
  is_attached (some true) = false
  is_attached none = false

  unfoldable pub container_start : String → Call D Value (Raw D.Output)
  unfolding get_container wait_for_end
  container_start id =
      modify (act D Value (started_it id))
      >> choose p.check_mode (get_container id >>= without_output) (
          posts D Value (error_in (started_it id)) (D.start_container id)
          >> choose (is_attached p.detach) (wait_for_end id) (get_container id >>= without_output))

  unfoldable pub container_update : String → D.UpdateParameters → Call D Value Container
  unfolding get_container
  container_update id parameters =
      when (setup.has_updates parameters) (
        modify (act D Value (updated id))
        >> unless_check D Value p
            (posts D Value (error_in (updated id)) (D.update_container id parameters)))
      >> get_container id

  unfoldable pub container_kill : String → Call D Value (Unit {0})
  container_kill id =
      modify (act D Value (killed id p.kill_signal))
      >> unless_check D Value p
          (posts D Value (error_in (killed id p.kill_signal)) (D.kill_container id p.kill_signal))

  unfoldable pub container_restart : String → Call D Value Container
  unfolding get_container
  container_restart id =
      modify (act D Value (restarted id))
      >> unless_check D Value p
          (posts D Value (error_in (restarted id)) (D.restart_container id (or_ten p.stop_timeout)))
      >> get_container id

  unfoldable pub container_stop : String → Call D Value (Unit {0})
  unfolding container_kill
  container_stop id = choose p.force_kill (container_kill id) (
      modify (act D Value (stopped_it id p.stop_timeout))
      >> unless_check D Value p (
          posts D Value (error_in (stopped_it id p.stop_timeout))
            (D.stop_container id p.stop_timeout)))
