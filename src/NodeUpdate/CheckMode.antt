-- ===== src/NodeUpdate/CheckMode.antt =====
-- docker_node in check mode.
use openstack_osa_office_clu.Prelude.{
  ℕ, Bool, true, false, if◌then◌else◌, some, none, Option, String, Result, ◌≡◌, refl,
}
use openstack_osa_office_clu.Prelude.Int.{pos}
use openstack_osa_office_clu.Prelude.Programs.{Program, pure, reads, ◌>>=◌, ◌>>◌, Keeps, Keeps-bind}
use openstack_osa_office_clu.Swarm.{
  Client, Node, Problem, Reason, Raised, node_is_down, node_is_no_swarm_node, get_node_inspect,
  check_if_swarm_node, check_if_swarm_node_is_down, fail_task_if_not_swarm_manager,
}
use openstack_osa_office_clu.Swarm.Down.{one_check-Unmoved}
use openstack_osa_office_clu.NodeUpdate.{
  Params, NodeSpec, Update, Report, update_of, Call, post, report, finish, unless_failed, is_not,
  inspected, node_update, manage_node,
}

module _ (C : Client) where
  abbrev Unmoved : {A : Type 0} → Program Raised C.State A → Type 0
  Unmoved m = Keeps (λ s. s) m

  module _
      (update_node : Option String → ℕ → NodeSpec → C.State → Result Problem (Unit {0}) × C.State)
      (p : Params) (checks : p.check_mode ≡ true) where
    unless_failed-Unmoved : (b : Bool) (r : Reason) → Unmoved (unless_failed C update_node b r)
    unless_failed-Unmoved true r s = refl
    unless_failed-Unmoved false r s = refl

    post-Unmoved : (u : Update) → Unmoved (post C update_node p u)
    post-Unmoved u s = rw checks refl

    finish-Unmoved : (u : Update) → Unmoved (finish C update_node p u)
    unfolding finish
    finish-Unmoved u = changed u.changed
      where
        posted : Call C update_node Report
        posted = post C update_node p u >> reads (get_node_inspect C u.node.id false) >>= λ n.
            pure (report C update_node u n)

        changed :
            (b : Bool) → Unmoved (if b then posted else pure (report C update_node u (some u.node)))
        changed true s =
            Keeps-bind (λ s. s)
              (post C update_node p u >> reads (get_node_inspect C u.node.id false))
              (λ n. pure (report C update_node u n))
              (Keeps-bind (λ s. s) (post C update_node p u)
                (λ _. reads (get_node_inspect C u.node.id false)) (post-Unmoved u) (λ _ t. refl))
              (λ n t. refl) s
        changed false s = refl

    node_update-Unmoved : Unmoved (node_update C update_node p)
    unfolding node_update
    node_update-Unmoved =
        Keeps-bind (λ s. s) (reads (check_if_swarm_node C (some p.hostname))) after_member
          (λ s. refl)
          (λ part.
            Keeps-bind (λ s. s)
              (unless_failed C update_node (is_not C update_node part) node_is_no_swarm_node
                >> check)
              after_check
              (Keeps-bind (λ s. s)
                (unless_failed C update_node (is_not C update_node part) node_is_no_swarm_node)
                (λ _. check)
                (unless_failed-Unmoved (is_not C update_node part) node_is_no_swarm_node)
                (λ _. one_check-Unmoved C))
              after_check_unmoved)
      where
        check : Call C update_node Bool
        check = check_if_swarm_node_is_down C none (pos 1)

        look : Call C update_node Node
        look = reads (λ s. inspected C update_node (C.inspect_node p.hostname s))

        after_check : Bool → Call C update_node Report
        after_check down = unless_failed C update_node down node_is_down >> look >>= λ n.
            finish C update_node p (update_of p n)

        after_member : Option Bool → Call C update_node Report
        after_member part =
            unless_failed C update_node (is_not C update_node part) node_is_no_swarm_node
            >> check
            >>= after_check

        after_check_unmoved : (down : Bool) → Unmoved (after_check down)
        after_check_unmoved down =
            Keeps-bind (λ s. s) (unless_failed C update_node down node_is_down >> look)
              (λ n. finish C update_node p (update_of p n))
              (Keeps-bind (λ s. s) (unless_failed C update_node down node_is_down) (λ _. look)
                (unless_failed-Unmoved down node_is_down) (λ _ s. refl))
              (λ n. finish-Unmoved (update_of p n))

    -- In check mode the module leaves the swarm as it was, whatever it returns.
    pub manage_node-check_mode : (s : C.State) → (manage_node C update_node p s).1 ≡ s
    unfolding manage_node
    manage_node-check_mode =
        Keeps-bind (λ s. s) (reads (fail_task_if_not_swarm_manager C))
          (λ _. node_update C update_node p) (λ s. refl) (λ _. node_update-Unmoved)
