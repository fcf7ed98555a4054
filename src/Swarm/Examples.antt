-- ===== src/Swarm/Examples.antt =====
-- A swarm with one node, which goes down after two waits, and the theorems on the checks and the
-- lists at it.
use openstack_osa_office_clu.Prelude.{
  ℕ, suc, true, false, [], ◌∷◌, some, none, String, ok, ◌≡◌, refl, if◌then◌else◌, ltb,
}
use openstack_osa_office_clu.Prelude.Text.{codes}
use openstack_osa_office_clu.Prelude.Int.{pos}
use openstack_osa_office_clu.Swarm.{Client, Node, get_node_inspect, check_if_swarm_node_is_down}
use openstack_osa_office_clu.Swarm.Down.{IsAnswer, check_if_swarm_node_is_down-IsAnswer}
use openstack_osa_office_clu.Swarm.Nodes.{NodeProperty}

abbrev pub manager_node : Node
manager_node = record {
  id = some "m1";
  version = 7;
  role = "manager";
  availability = "active";
  labels = some (("zone", "a") ∷ ("empty", "") ∷ []);
  state = "ready";
  addr = codes "0.0.0.0";
  manager =
      some record { leader = some true; addr = codes "10.0.0.1:2377"; reachability = "reachable" };
  hostname = "host1";
  engine_version = "28";
}

-- The state: how often was waited, and the node.
abbrev pub one_node : Client
one_node = record {
  State = ℕ × Node;
  Service = String;
  info = λ s. ok (some record { node_id = "m1"; local_node_state = "active" });
  inspect_swarm = λ s. ok tt;
  inspect_node = λ name s. ok (if ltb s.0 2 then s.1 else record s.1 { state = "down" });
  nodes = λ s. ok (s.1 ∷ []);
  inspect_service = λ name s. ok name;
  wait = λ s. (suc s.0, s.1);
}

-- The leader's address is that of the manager's status, without the port.
leader_address_found :
    get_node_inspect one_node none false (0, manager_node)
    ≡ ok (some (record manager_node { addr = codes "10.0.0.1" }))
unfolding get_node_inspect
leader_address_found = refl

check_if_swarm_node_is_down-IsAnswer_example :
    IsAnswer one_node (some "host1") (0, manager_node) 5 true (2, manager_node)
unfolding check_if_swarm_node_is_down
check_if_swarm_node_is_down-IsAnswer_example =
    check_if_swarm_node_is_down-IsAnswer one_node "host1" (pos 5) (0, manager_node)
      (2, manager_node) true refl

abbrev listed_node : NodeProperty
listed_node = record {
  id = some "m1";
  hostname = "host1";
  status = "ready";
  availability = "active";
  leader = true;
  manager_status = some "reachable";
  engine_version = "28";
}
