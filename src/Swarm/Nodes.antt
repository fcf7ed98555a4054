-- ===== src/Swarm/Nodes.antt =====
-- The lists of nodes, and a service's data: `get_all_nodes_inspect`, `get_all_nodes_list`,
-- `get_node_name_by_id` and `get_service_inspect`.
use openstack_osa_office_clu.Prelude.{
  Bool, false, List, [], ◌∷◌, if◌then◌else◌, some, none, Option, String, string_eq, Result, ok, err,
  ◌=?◌, nat_eq, ◌≡◌, refl, sym, ap, arith, map, ◌>>=◌, >>=-eq-ok,
}
use openstack_osa_office_clu.Swarm.{
  Client, Node, ManagerStatus, Problem, api_error, other_exception, Raised, failed, uncaught,
  not_on_a_manager, manager_error, node_error, service_error, get_node_inspect,
}

pub data Output : Type 0 where
  short long : Output

-- `leader` says whether the key "Leader" is set.
pub record NodeProperty : Type 0 where
  pub id : Option String
  pub hostname : String
  pub status : String
  pub availability : String
  pub leader : Bool
  pub manager_status : Option String
  pub engine_version : String

pub data NodesList : Type 0 where
  names : List String → NodesList
  properties : List NodeProperty → NodesList

abbrev node_entry : Node → Bool → Option String → NodeProperty
node_entry n leader status = record {
  id = n.id;
  hostname = n.hostname;
  status = n.state;
  availability = n.availability;
  leader = leader;
  manager_status = status;
  engine_version = n.engine_version;
}

-- The entry of one node. A manager's status without `Leader` raises a `KeyError`.
abbrev led : Node → String → Option Bool → Result Raised NodeProperty
led n reachability none = err (uncaught other_exception)
led n reachability (some b) = ok (node_entry n b (some reachability))

abbrev managed : Node → Option ManagerStatus → Result Raised NodeProperty
managed n none = ok (node_entry n false none)
managed n (some m) = led n m.reachability m.leader

abbrev pub node_property : Node → Result Raised NodeProperty
node_property n = managed n n.manager

unfoldable pub node_properties : List Node → Result Raised (List NodeProperty)
node_properties [] = ok []
node_properties (n ∷ ns) = node_property n >>= λ p. node_properties ns >>= λ ps. ok (p ∷ ps)

unfoldable pub host_names : List Node → List String
host_names [] = []
host_names (n ∷ ns) = n.hostname ∷ host_names ns

module _ (C : Client) where
  abbrev all_inspected : Result Problem (List Node) → Result Raised (List Node)
  all_inspected (ok ns) = ok ns
  all_inspected (err (api_error code)) =
      if code =? 503
      then err (failed not_on_a_manager)
      else err (failed (manager_error (api_error code)))
  all_inspected (err other_exception) = err (failed (node_error other_exception))

  unfoldable pub get_all_nodes_inspect : C.State → Result Raised (List Node)
  get_all_nodes_inspect s = all_inspected (C.nodes s)

  unfoldable pub get_all_nodes_list : Output → C.State → Result Raised NodesList
  unfolding get_all_nodes_inspect node_properties host_names
  get_all_nodes_list short s = get_all_nodes_inspect s >>= λ ns. ok (names (host_names ns))
  get_all_nodes_list long s =
      get_all_nodes_inspect s >>= λ ns. node_properties ns >>= λ ps. ok (properties ps)

  -- `get_node_inspect(nodeid)["Description"]["Hostname"]`
  abbrev host_name : Option Node → Result Raised String
  host_name none = err (uncaught other_exception)
  host_name (some n) = ok n.hostname

  unfoldable pub get_node_name_by_id : String → C.State → Result Raised String
  unfolding get_node_inspect
  get_node_name_by_id node_id s = get_node_inspect C (some node_id) false s >>= host_name

  -- `NotFound` is the `APIError` of status 404.
  abbrev service_inspected : Bool → Result Problem C.Service → Result Raised (Option C.Service)
  service_inspected skip_missing (ok v) = ok (some v)
  service_inspected skip_missing (err (api_error code)) =
      if code =? 404
      then (if skip_missing then ok none else err (failed (manager_error (api_error code))))
      else if code =? 503
      then err (failed not_on_a_manager)
      else err (failed (service_error (api_error code)))
  service_inspected skip_missing (err other_exception) =
      err (failed (service_error other_exception))

  unfoldable pub get_service_inspect : String → Bool → C.State → Result Raised (Option C.Service)
  get_service_inspect service_id skip_missing s =
      service_inspected skip_missing (C.inspect_service service_id s)

abbrev returned : NodeProperty → Result Raised NodeProperty
returned p = ok p

node_property-hostname :
    (n : Node) (p : NodeProperty) → node_property n ≡ ok p → p.hostname ≡ n.hostname
node_property-hostname n p h = with_status n.manager h
  where
    with_entry :
        (b : Bool) (t : Option String)
        → returned (node_entry n b t) ≡ ok p
        → p.hostname ≡ n.hostname
    with_entry b t e = let same : node_entry n b t ≡ p = cc in sym (ap (λ x. x.hostname) same)

    with_leader : (r : String) (b : Option Bool) → led n r b ≡ ok p → p.hostname ≡ n.hostname
    with_leader r none e = absurd (ground arith)
    with_leader r (some b) e = with_entry b (some r) e

    with_status : (m : Option ManagerStatus) → managed n m ≡ ok p → p.hostname ≡ n.hostname
    with_status none e = with_entry false none e
    with_status (some m) e = with_leader m.reachability m.leader e

node_properties-host_names :
    (ns : List Node) (ps : List NodeProperty)
    → node_properties ns ≡ ok ps
    → map (λ p. p.hostname) ps ≡ host_names ns
unfolding node_properties host_names
node_properties-host_names [] ps h =
    let same : [] ≡ ps = cc in ap (map (λ p. p.hostname)) (sym same)
node_properties-host_names (n ∷ ns) ps h =
    let (q, e1, rest) = >>=-eq-ok (node_property n) _ h in
    let (qs, e2, e3) = >>=-eq-ok (node_properties ns) _ rest in
    let same : q ∷ qs ≡ ps = cc in
    rw (sym same) (rw (node_property-hostname n q e1, node_properties-host_names ns qs e2) refl)

-- Where `get_all_nodes_list` returns the long list, its hosts' names are those of the short one, in
-- the same order.
pub get_all_nodes_list-agree :
    (C : Client) (s : C.State) (answer : NodesList)
    → get_all_nodes_list C long s ≡ ok answer
    → (ps : List NodeProperty) × (answer ≡ properties ps)
      × (get_all_nodes_list C short s ≡ ok (names (map (λ p. p.hostname) ps)))
unfolding get_all_nodes_list
get_all_nodes_list-agree C s answer h =
    let (ns, e1, rest) = >>=-eq-ok (get_all_nodes_inspect C s) _ h in
    let (ps, e2, e3) = >>=-eq-ok (node_properties ns) _ rest in
    (ps, cc, rw e1 (ap (λ x. ok (names x)) (sym (node_properties-host_names ns ps e2))))
