-- ===== src/Container/Updates.antt =====
-- The changes to a container that is there: `update_limits`, `update_networks`, `_add_networks` and
-- `_purge_networks`.
use openstack_osa_office_clu.Prelude.{
  Bool, true, false, not, ◌&&◌, ◌||◌, List, truthy, some, none, Option, String, Result,
}
use Prim.Native.String.{◌++◌ as ◌<>◌}
use openstack_osa_office_clu.Prelude.Methods.{
  pure, raise, modify, reads, ◌>>=◌, ◌>>◌, choose, when, for_each,
}
use openstack_osa_office_clu.Util.Compare.{Method, ignore, strict, allow_more_present}
use openstack_osa_office_clu.Util.Differences.{add, merge}
use openstack_osa_office_clu.Container.{Container, Inspection, NetworkParam, Endpoint, Params}
use openstack_osa_office_clu.Container.Driver.{
  Driver, Setup, Stop, error_in, no_container, removed_from_network, added_to_network, nothing,
  network_parameter, endpoint, Call, posts, unless_check, add_action, track,
}
use openstack_osa_office_clu.Container.Differences.{
  Seen, has_different_resource_limits, compose_update_parameters,
}
use openstack_osa_office_clu.Network.Config.{IpAddresses}
use openstack_osa_office_clu.Container.Networks.{
  NetworkDifference, or_nil, has_network_differences, has_extra_networks,
}
use openstack_osa_office_clu.Container.Actions.{get_container, container_update}

abbrev pub is_ignored : Method → Bool
is_ignored ignore = true
is_ignored strict = false
is_ignored allow_more_present = false

abbrev pub is_strict : Method → Bool
is_strict strict = true
is_strict ignore = false
is_strict allow_more_present = false

abbrev pub is_given {ℓ} : {A : Type ℓ} → Option A → Bool
is_given none = false
is_given (some x) = true

module _ {Seconds Value : Type 0} (D : Driver Seconds)
    (setup : Setup Value D.Image D.Host D.CreateParameters D.UpdateParameters)
    (p : Params Seconds) where
  abbrev pub change : Call D Value (Unit {0})
  change = modify (λ s. record s { changed = true })

  -- What may fail without an answer of the daemon.
  abbrev pub checked : {A : Type 0} → Result (Stop D.Failure) A → Call D Value A
  checked r = reads (λ s. r)

  unfoldable pub update_limits : Seen D.Image D.Host → Call D Value Container
  unfolding has_different_resource_limits container_update get_container compose_update_parameters
      merge
  update_limits seen =
      let (differ, differences) = has_different_resource_limits seen setup.groups in
      when differ (modify (track D Value (λ t. merge t differences)))
      >> choose (differ && not p.check_mode)
          (container_update D setup p seen.container.id
              (compose_update_parameters setup.groups setup.no_update)
            >> get_container D setup p seen.container.id)
          (pure (some seen.container))

  abbrev pub disconnect : String → String → String → Call D Value (Unit {0})
  disconnect id name network =
      modify (add_action D Value (removed_from_network name))
      >> unless_check D Value p (
          posts D Value (error_in (removed_from_network name))
            (D.disconnect_container_from_network id network))

  abbrev pub connect : String → NetworkParam → Call D Value (Unit {0})
  connect id n =
      modify (add_action D Value (added_to_network n.name))
      >> unless_check D Value p
          (posts D Value (error_in (added_to_network n.name)) (D.connect_container_to_network id n))

  abbrev pub reconnect : String → NetworkDifference → Call D Value (Unit {0})
  reconnect id d =
      when (is_given d.container) (disconnect id d.parameter.name d.parameter.id)
      >> connect id d.parameter

  unfoldable pub add_networks : String → List NetworkDifference → Call D Value Container
  unfolding get_container
  add_networks id differences = for_each (reconnect id) differences >> get_container D setup p id

  unfoldable pub purge_networks : String → List (String × Endpoint) → Call D Value Container
  unfolding get_container
  purge_networks id extra =
      for_each (λ n. disconnect id n.0 n.0) extra >> get_container D setup p id

  abbrev pub track_network : NetworkDifference → Call D Value (Unit {0})
  track_network d = modify (
      track D Value (
        add ("network." <> d.parameter.name) (network_parameter d.parameter)
          (endpoint d.container)))

  abbrev pub track_extra : String × Endpoint → Call D Value (Unit {0})
  track_extra (name, e) =
      modify (track D Value (add ("network." <> name) nothing (endpoint (some e))))

  abbrev pub connect_different : Inspection → List NetworkDifference → Call D Value Container
  connect_different i differences =
      choose (truthy differences)
        (for_each track_network differences >> change >> add_networks i.id differences)
        (pure (some i))

  abbrev pub disconnect_extra :
      Inspection → Container → List (String × Endpoint) → Call D Value Container
  disconnect_extra i c extra =
      choose (truthy extra) (for_each track_extra extra >> change >> purge_networks i.id extra)
        (pure c)

  abbrev pub adds_networks : Bool → Bool
  adds_networks container_created = not (is_ignored setup.networks_comparison) || container_created

  abbrev pub purges_networks : Bool
  purges_networks = is_strict setup.networks_comparison && is_given p.networks

  unfoldable pub update_networks : IpAddresses → Container → Bool → Call D Value Container
  unfolding has_network_differences has_extra_networks add_networks purge_networks
  update_networks ip none container_created =
      choose ((adds_networks container_created && truthy (or_nil p.networks)) || purges_networks)
        (raise no_container) (pure none)
  update_networks ip (some i) container_created = do
    c ←
        choose (adds_networks container_created)
          (checked (has_network_differences ip p.networks i) >>= connect_different i)
          (pure (some i))
    choose purges_networks (checked (has_extra_networks p.networks i) >>= disconnect_extra i c)
        (pure c)
