-- ===== src/Network/Manager.antt =====
-- docker_network: `DockerNetworkManager`, against the daemon behind the client.
mod Calls
pub mod CheckMode
pub mod Containers
pub mod Waiting
mod Examples
use openstack_osa_office_clu.Prelude.{
  ℕ, zero, suc, Bool, true, false, not, ◌&&◌, ◌||◌, List, [], ◌∷◌, ◌++◌, if◌then◌else◌, some, none,
  Option, String, string_eq, Result, ok, err, truthy, ◌=?◌, contains,
}
use Prim.Native.String.{◌++◌ as ◌<>◌}
use openstack_osa_office_clu.Prelude.Dict.{Dict, lookup}
use openstack_osa_office_clu.Prelude.Programs.{
  Program, pure, raise, modify, reads, ◌>>=◌, ◌>>◌, for_each,
}
use openstack_osa_office_clu.Util.Differences.{Tracker, add, merge, empty, get_legacy_docker_diffs}
use openstack_osa_office_clu.Network.Config.{
  NetworkError, api, invalid_cidr, missing_subnet, out_of_patience, validate_cidr, IpamConfig, text,
  IpAddresses, Ipam, Network, Params, Target, present, absent, Differences, flag, or_blank,
  has_different_config,
}

-- The body of `/networks/create`: the entry `IPAM`, and the keys that are set under a condition.
pub record IpamData : Type 0 where
  pub driver : Option String
  pub config : List IpamConfig
  pub options : Option (Dict String String)

pub record CreateData : Type 0 where
  pub name : String
  pub driver : String
  pub options : Dict String String
  pub ipam : Option IpamData
  pub config_only : Option Bool
  pub config_from : Option String
  pub enable_ipv6 : Option Bool
  pub enable_ipv4 : Option Bool
  pub internal : Bool
  pub scope : Option String
  pub attachable : Option Bool
  pub ingress : Option Bool
  pub labels : Dict String String

-- The Docker daemon. A call that may change it returns the new state, on an error too. `wait` is
-- what happens to it during a tenth of a second.
pub record Daemon : Type 1 where
  pub State : Type 0
  pub ApiError : Type 0
  pub get_network : String → State → Result ApiError (Option Network)
  pub get_network_by_id : String → State → Result ApiError (Option Network)
  pub get_container : String → State → Result ApiError Bool
  pub create : CreateData → State → Result ApiError String × State
  pub delete : String → State → Result ApiError (Unit {0}) × State
  pub connect : String → String → State → Result ApiError (Unit {0}) × State
  pub disconnect : String → String → State → Result ApiError (Unit {0}) × State
  pub wait : State → State

pub data Action : Type 0 where
  created : String → String → Action
  removed connected disconnected : String → Action

-- The fields of `DockerNetworkManager` that change, the results, and the daemon's state.
-- `show_actions` is lost when `present` pops the actions.
pub record Session (S : Type 0) : Type 0 where
  pub existing : Option Network
  pub actions : List Action
  pub show_actions : Bool
  pub changed : Bool
  pub tracker : Differences
  pub differences : Option (List String)
  pub network : Option (Option Network)
  pub daemon : S

abbrev pub is_some {ℓ} : {A : Type ℓ} → Option A → Bool
is_some none = false
is_some (some a) = true

abbrev pub container_names : Option Network → List String
container_names none = []
container_names (some n) = n.containers

abbrev pub given : Option Bool → Bool
given none = false
given (some b) = b

abbrev pub filled : Option String → Bool
filled none = false
filled (some s) = not (s =? "")

abbrev pub or_nil : {A : Type 0} → Option (List A) → List A
or_nil none = []
or_nil (some xs) = xs

-- The keys of an IPAM pool; the API's names for them are left out.
abbrev pub ipam_data : Params → Option IpamData
ipam_data p =
    if filled p.ipam_driver
      || truthy (or_nil p.ipam_driver_options)
      || truthy (or_nil p.ipam_config)
    then some (record {
      driver = p.ipam_driver;
      config = or_nil p.ipam_config;
      options = p.ipam_driver_options;
    })
    else none

abbrev pub create_data : Params → CreateData
create_data p = record {
  name = p.name;
  driver = p.driver;
  options = p.driver_options;
  ipam = ipam_data p;
  config_only = p.config_only;
  config_from = if filled p.config_from then p.config_from else none;
  enable_ipv6 = p.enable_ipv6;
  enable_ipv4 = p.enable_ipv4;
  internal = given p.internal;
  scope = p.scope;
  attachable = p.attachable;
  ingress = p.ingress;
  labels = p.labels;
}

module _ (D : Daemon) where
  abbrev pub Call : Type 0 → Type 0
  Call A = Program (NetworkError D.ApiError) (Session D.State) A

  abbrev pub from_api : {A : Type 0} → Result D.ApiError A → Result (NetworkError D.ApiError) A
  from_api (ok a) = ok a
  from_api (err e) = err (api e)

  -- A call of the client that reads the daemon, and one that may change it.
  abbrev pub asks : {A : Type 0} → (D.State → Result D.ApiError A) → Call A
  asks f s = (from_api (f s.daemon), s)

  abbrev pub posts : {A : Type 0} → (D.State → Result D.ApiError A × D.State) → Call A
  posts f s = (from_api (f s.daemon).0, record s { daemon = (f s.daemon).1 })

  abbrev pub unless_check : Params → Call (Unit {0}) → Call (Unit {0})
  unless_check p m = if p.check_mode then pure tt else m

  -- `self.actions.append(...)` and `self.results["changed"] = True`
  abbrev pub act : Action → Session D.State → Session D.State
  act a s = record s { actions = s.actions ++ a ∷ []; changed = true }

  -- `self.diff_tracker.add(f"connected.{name}", ...)`
  abbrev pub track_connected : String → Bool → Session D.State → Session D.State
  track_connected name wanted s = record s {
    tracker = add ("connected." <> name) (flag (some wanted)) (flag (some (not wanted))) s.tracker;
  }

  abbrev pub set_existing : Option Network → Session D.State → Session D.State
  set_existing n s = record s { existing = n }

  abbrev pub get_existing_network : Params → Call (Option Network)
  get_existing_network p = asks (D.get_network p.name)

  pub post_network : Params → Call (Unit {0})
  post_network p = posts (D.create (create_data p)) >>= λ id.
      asks (D.get_network_by_id id) >>= λ n. modify (set_existing n)

  abbrev pub create_unless : Params → Option Network → Call (Unit {0})
  create_unless p (some n) = pure tt
  create_unless p none = unless_check p (post_network p) >> modify (act (created p.name p.driver))

  pub create_network : Params → Call (Unit {0})
  unfolding post_network
  create_network p s = create_unless p s.existing s

  pub disconnect_container : Params → String → Call (Unit {0})
  unfolding add
  disconnect_container p name =
      unless_check p (posts (D.disconnect p.name name))
      >> modify (λ s. track_connected name false (act (disconnected name) s))

  pub disconnect_all_containers : Params → Call (Unit {0})
  unfolding disconnect_container for_each
  disconnect_all_containers p =
      asks (D.get_network p.name) >>= λ n. for_each (disconnect_container p) (container_names n)

  -- A round of `while self.get_existing_network(): time.sleep(0.1)`, and the loop, on fuel.
  abbrev pub keep_waiting : Option Network → Call (Unit {0}) → Call (Unit {0})
  keep_waiting none again = pure tt
  keep_waiting (some n) again = modify (λ s. record s { daemon = D.wait s.daemon }) >> again

  pub wait_until_gone : ℕ → Params → Call (Unit {0})
  wait_until_gone zero p = raise out_of_patience
  wait_until_gone (suc fuel) p =
      get_existing_network p >>= λ n. keep_waiting n (wait_until_gone fuel p)

  -- The scope `swarm`, where a removal takes its time.
  abbrev pub is_swarm : Network → Bool
  is_swarm n = or_blank n.scope =? "swarm"

  pub delete_network : ℕ → Params → Network → Call (Unit {0})
  unfolding wait_until_gone
  delete_network fuel p n =
      posts (D.delete p.name) >> (if is_swarm n then wait_until_gone fuel p else pure tt)

  abbrev pub remove_if : ℕ → Params → Option Network → Call (Unit {0})
  remove_if fuel p none = pure tt
  remove_if fuel p (some n) =
      disconnect_all_containers p
      >> unless_check p (delete_network fuel p n)
      >> modify (act (removed p.name))

  pub remove_network : ℕ → Params → Call (Unit {0})
  unfolding disconnect_all_containers delete_network
  remove_network fuel p s = remove_if fuel p s.existing s

  abbrev pub is_container_connected : String → Option Network → Bool
  is_container_connected name n = contains (container_names n) name

  -- What is done for a container that exists and is not connected.
  pub connect_container : Params → String → Call (Unit {0})
  unfolding add
  connect_container p name =
      unless_check p (posts (D.connect p.name name))
      >> modify (λ s. track_connected name true (act (connected name) s))

  abbrev pub connect_if : Params → String → Bool → Call (Unit {0})
  connect_if p name true = connect_container p name
  connect_if p name false = pure tt

  abbrev pub connect_unless : Params → String → Bool → Call (Unit {0})
  connect_unless p name true = pure tt
  connect_unless p name false = asks (D.get_container name) >>= connect_if p name

  pub connect_if_needed : Params → String → Call (Unit {0})
  unfolding connect_container
  connect_if_needed p name s = connect_unless p name (is_container_connected name s.existing) s

  pub connect_containers : Params → List String → Call (Unit {0})
  unfolding connect_if_needed for_each
  connect_containers p names = for_each (connect_if_needed p) names

  pub disconnect_unless : Params → List String → String → Call (Unit {0})
  unfolding disconnect_container
  disconnect_unless p names name =
      if contains names name then pure tt else disconnect_container p name

  pub disconnect_missing : Params → List String → Call (Unit {0})
  unfolding disconnect_unless for_each
  disconnect_missing p names s = for_each (disconnect_unless p names) (container_names s.existing) s

  abbrev pub note_exists : Bool → Session D.State → Session D.State
  note_exists wanted s = record s {
    tracker = add "exists" (flag (some wanted)) (flag (some (is_some s.existing))) s.tracker;
  }

  abbrev pub add_differences : Params → Differences → Session D.State → Session D.State
  add_differences p d s =
      if p.diff || (p.check_mode || p.debug)
      then record s { differences = some (get_legacy_docker_diffs d); tracker = merge s.tracker d }
      else s

  abbrev pub pop_actions : Params → Session D.State → Session D.State
  pop_actions p s = if not p.check_mode && not p.debug then record s { show_actions = false } else s

  module _ (ip : IpAddresses) (fuel : ℕ) where
    pub compare_existing : Params → Option Network → Result (NetworkError D.ApiError) Differences
    unfolding has_different_config
    compare_existing p none = ok []
    compare_existing p (some n) = has_different_config ip p n

    -- The removal of a network that is to be made anew.
    pub recreate : Params → Differences → Call (Unit {0})
    unfolding remove_network empty
    recreate p d =
        if p.force || not (empty d)
        then remove_network fuel p >> modify (set_existing none)
        else pure tt

    -- What `present` does to the containers; `names` is `self.parameters.connected`.
    pub settle_containers : Params → List String → Call (Unit {0})
    unfolding connect_containers disconnect_missing
    settle_containers p names =
        connect_containers p names >> (if p.appends then pure tt else disconnect_missing p names)

    pub report : Params → Differences → Call (Unit {0})
    unfolding add merge get_legacy_docker_diffs
    report p d =
        modify (λ s. pop_actions p (add_differences p d s)) >> get_existing_network p >>= λ n.
        modify (λ s. record s { network = some n })

    pub do_present : Params → List String → Call (Unit {0})
    unfolding compare_existing recreate create_network settle_containers report add
    do_present p names = reads (λ s. compare_existing p s.existing) >>= λ d.
        modify (note_exists true)
        >> recreate p d
        >> create_network p
        >> settle_containers p names
        >> report p d

    pub do_absent : Params → Call (Unit {0})
    unfolding remove_network add
    do_absent p = modify (note_exists false) >> remove_network fuel p

    -- `for ipam_config in ...: validate_cidr(ipam_config["subnet"])`
    pub check_subnets : List IpamConfig → Result (NetworkError D.ApiError) (Unit {0})
    unfolding lookup validate_cidr
    check_subnets [] = ok tt
    check_subnets (c ∷ more) =
        let rest = check_subnets more in
        elim (lookup "subnet" c) [
          | none ↦ err missing_subnet
          | some v ↦ elim v [
            | text cidr ↦ elim (validate_cidr cidr) [
              | none ↦ err (invalid_cidr cidr)
              | some _ ↦ rest
            ]
            | _ ↦ err missing_subnet
          ]
        ]

    -- `self.parameters.connected`, which is what the network has where nothing is given.
    abbrev pub wanted_containers : Params → Option Network → List String
    wanted_containers p n = if truthy p.connected then p.connected else container_names n

    abbrev pub dispatch : Target → Params → List String → Call (Unit {0})
    dispatch present p names = do_present p names
    dispatch absent p names = do_absent p

    abbrev pub start : D.State → Session D.State
    start s = record {
      existing = none;
      actions = [];
      show_actions = true;
      changed = false;
      tracker = [];
      differences = none;
      network = none;
      daemon = s;
    }

    -- `DockerNetworkManager(client)`
    pub manage : Params → Call (Unit {0})
    unfolding do_present do_absent check_subnets
    manage p = get_existing_network p >>= λ n.
        modify (set_existing n)
        >> reads (λ _. check_subnets (or_nil p.ipam_config))
        >> dispatch p.target p (wanted_containers p n)

    unfoldable pub manage_network :
        Params → D.State → Result (NetworkError D.ApiError) (Unit {0}) × Session D.State
    unfolding manage
    manage_network p s = manage p (start s)
