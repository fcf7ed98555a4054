-- ===== src/Container/Networks.antt =====
-- The networks of a container against the parameter `networks`: `has_network_differences` and
-- `has_extra_networks`.
use openstack_osa_office_clu.Prelude.{
  option_beq, Bool, false, not, ◌&&◌, ◌||◌, List, [], ◌∷◌, if◌then◌else◌, some, none, Option,
  String, string_eq, Result, ok, err, ◌=?◌, any, truthy, map,
}
use Prim.Native.String.{◌++◌ as ◌<>◌}
use openstack_osa_office_clu.Prelude.Dict.{Dict, lookup}
use openstack_osa_office_clu.Util.Compare.{compare_generic, allow_more_present, set}
use openstack_osa_office_clu.Network.Config.{IpAddresses, or_input}
use openstack_osa_office_clu.Container.{NetworkParam, Endpoint, Inspection}
use openstack_osa_office_clu.Container.Driver.{Stop, no_network_settings, no_networks}

-- A network that the container is not connected to, or not as asked.
pub record NetworkDifference : Type 0 where
  pub parameter : NetworkParam
  pub container : Option Endpoint

abbrev pub or_nil {ℓ} : {A : Type ℓ} → Option (List A) → List A
or_nil none = []
or_nil (some xs) = xs

-- The parameter is neither None nor empty.
abbrev pub given : Option String → Bool
given none = false
given (some s) = not (s =? "")

abbrev pub link_text : String × String → String
link_text (link, alias) = link <> (":" <> alias)

module _ (ip : IpAddresses) where
  abbrev pub normalize_ip_address : Option String → Option String
  normalize_ip_address none = none
  normalize_ip_address (some s) = some (or_input ip.ip_address s)

  abbrev pub address_differs : Option String → Option String → Bool
  address_differs wanted actual =
      given wanted && not (option_beq (normalize_ip_address wanted) (normalize_ip_address actual))

  abbrev pub names_differ : List String → Option (List String) → Bool
  names_differ wanted actual =
      truthy wanted
      && not (compare_generic String String allow_more_present set (some wanted) actual)

  unfoldable pub network_differs : NetworkParam → Endpoint → Bool
  unfolding compare_generic
  network_differs n e =
      address_differs n.ipv4_address e.ipv4_address
      || address_differs n.ipv6_address e.ipv6_address
      || names_differ (or_nil n.aliases) e.aliases
      || names_differ (map link_text (or_nil n.links)) e.links
      || (given n.mac_address && not (option_beq n.mac_address e.mac_address))

  abbrev pub compare_network :
      NetworkParam → Option Endpoint → List NetworkDifference → List NetworkDifference
  compare_network n none rest = (record { parameter = n; container = none }) ∷ rest
  compare_network n (some e) rest =
      if network_differs n e then (record { parameter = n; container = some e }) ∷ rest else rest

  pub compare_networks : Dict String Endpoint → List NetworkParam → List NetworkDifference
  unfolding network_differs lookup
  compare_networks connected [] = []
  compare_networks connected (n ∷ ns) =
      compare_network n (lookup n.name connected) (compare_networks connected ns)

  abbrev pub compare_connected :
      {Failure : Type 0}
      → List NetworkParam
      → Option (Option (Dict String Endpoint))
      → Result (Stop Failure) (List NetworkDifference)
  compare_connected ns none = err no_network_settings
  compare_connected ns (some none) = err no_networks
  compare_connected ns (some (some connected)) = ok (compare_networks connected ns)

  unfoldable pub has_network_differences :
      {Failure : Type 0}
      → Option (List NetworkParam)
      → Inspection
      → Result (Stop Failure) (List NetworkDifference)
  unfolding compare_networks
  has_network_differences networks i =
      if truthy (or_nil networks) then compare_connected (or_nil networks) i.networks else ok []

-- The connected networks that no entry of the parameter names.
unfoldable pub extra_networks : List NetworkParam → Dict String Endpoint → List (String × Endpoint)
extra_networks ns [] = []
extra_networks ns ((name, e) ∷ connected) =
    if any (λ n. n.name =? name) ns
    then extra_networks ns connected
    else (name, e) ∷ extra_networks ns connected

unfoldable pub has_extra_networks :
    {Failure : Type 0}
    → Option (List NetworkParam)
    → Inspection
    → Result (Stop Failure) (List (String × Endpoint))
unfolding extra_networks
has_extra_networks networks i = elim i.networks [
  | none ↦ err no_network_settings
  | some none ↦ ok []
  | some (some connected) ↦ ok (extra_networks (or_nil networks) connected)
]
