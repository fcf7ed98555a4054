-- ===== src/NodeUpdate/Examples.antt =====
-- docker_node on a swarm with one node, and the theorems at runs of it.
use openstack_osa_office_clu.Prelude.{
  ℕ, true, false, [], ◌∷◌, some, none, Option, String, Result, ok, ◌≡◌, refl, string_eq,
}
use openstack_osa_office_clu.Prelude.Dict.{lookup}
use openstack_osa_office_clu.Swarm.{Node, Problem}
use openstack_osa_office_clu.Swarm.Examples.{manager_node, one_node}
use openstack_osa_office_clu.NodeUpdate.{Params, NodeSpec, merge, update_of, manage_node}
use openstack_osa_office_clu.NodeUpdate.Again.{applied, update_of-again}
use openstack_osa_office_clu.NodeUpdate.CheckMode.{manage_node-check_mode}

abbrev drained : Params
drained = record {
  hostname = "host1";
  labels = some (("zone", "b") ∷ ("rack", "3") ∷ []);
  labels_state = merge;
  labels_to_remove = some ("old" ∷ "empty" ∷ []);
  availability = some "drain";
  role = none;
  check_mode = false;
}

abbrev set_node : Option String → ℕ → NodeSpec → ℕ × Node → Result Problem (Unit {0}) × (ℕ × Node)
set_node id version spec s = (ok tt, (s.0, applied spec s.1))

-- The label with an empty value stays, though it is to be removed.
labels_sent :
    (update_of drained manager_node).spec.labels
    ≡ some (("zone", "b") ∷ ("empty", "") ∷ ("rack", "3") ∷ [])
unfolding update_of
labels_sent = refl

node_drained : (manage_node one_node set_node drained (0, manager_node)).1.1.availability ≡ "drain"
unfolding manage_node
node_drained = refl

update_of-again_example :
    (update_of drained (applied (update_of drained manager_node).spec manager_node)).changed ≡ false
unfolding lookup
update_of-again_example = update_of-again drained manager_node (refl, (refl, tt))

manage_node-check_mode_example :
    (manage_node one_node set_node (record drained { check_mode = true }) (0, manager_node)).1
    ≡ (0, manager_node)
manage_node-check_mode_example =
    manage_node-check_mode one_node set_node (record drained { check_mode = true }) refl
      (0, manager_node)
