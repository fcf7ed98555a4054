-- ===== src/Network/Manager/CheckMode.antt =====
-- docker_network in check mode, against the run outside it.
pub mod Agreement
pub mod Removing
pub mod Creating
pub mod Settling
use openstack_osa_office_clu.Prelude.{
  ℕ, zero, suc, Bool, true, false, not, ◌||◌, List, [], ◌∷◌, ◌++◌, if◌then◌else◌, some, none,
  Option, String, string_eq, Result, ok, contains, ◌≡◌, refl, sym, ap, ◌∙◌, arith,
}
use openstack_osa_office_clu.Prelude.Programs.{
  pure, modify, reads, continue_with, ◌>>=◌, ◌>>◌, for_each, bind-eq-ok,
}
use openstack_osa_office_clu.Prelude.Simulation.{Simulates, Simulates-bind, Simulates-for_each}
use openstack_osa_office_clu.Util.Differences.{empty}
use openstack_osa_office_clu.Network.Config.{
  NetworkError, IpAddresses, Network, Params, Differences, Target, present, absent,
}
use openstack_osa_office_clu.Network.Manager.Calls.{both_parts, from_api-ok}
use openstack_osa_office_clu.Network.Manager.{
  Action, CreateData, Daemon, Session, Call, from_api, asks, posts, unless_check, act,
  track_connected, set_existing, create_data, container_names, get_existing_network, keep_waiting,
  post_network, create_network, disconnect_container, disconnect_all_containers, wait_until_gone,
  delete_network, remove_network, remove_if, create_unless, connect_unless, connect_if,
  is_container_connected, connect_container, connect_if_needed, connect_containers,
  disconnect_unless, disconnect_missing, is_swarm, note_exists, add_differences, pop_actions,
  compare_existing, recreate, settle_containers, report, do_present, do_absent, check_subnets,
  dispatch, wanted_containers, start, manage, manage_network, created, removed, connected,
  disconnected, or_nil,
}
use openstack_osa_office_clu.Network.Manager.CheckMode.Agreement.{
  Agree, Here, IsSteady, Same, SameNames, Untouched, in_check_mode, modify_agrees,
}
use openstack_osa_office_clu.Network.Manager.CheckMode.Removing.{
  recreate_agrees, remove_network_agrees,
}
use openstack_osa_office_clu.Network.Manager.CheckMode.Creating.{create_network_agrees}
use openstack_osa_office_clu.Network.Manager.CheckMode.Settling.{settle_containers_agrees}

module _ (D : Daemon) (law : IsSteady D) (p : Params) (s0 : D.State) where
  -- What the two runs report.
  abbrev Reported : Here D s0 → Here D s0 → Type 0
  Reported s t = (t.daemon ≡ s0) × (t.actions ≡ s.actions) × (t.changed ≡ s.changed)

  abbrev noted : Params → Differences → Here D s0 → Here D s0
  noted q d s = pop_actions D q (add_differences D q d s)

  noted_keeps :
      (q : Params) (d : Differences) (s : Here D s0)
      → ((noted q d s).daemon ≡ s.daemon)
        × ((noted q d s).actions ≡ s.actions)
        × ((noted q d s).changed ≡ s.changed)
  noted_keeps q d s = ground arith

  report_agrees :
      (ip : IpAddresses) (fuel : ℕ) (d : Differences) (v : Option Network)
      → D.get_network p.name s0 ≡ ok v
      → Simulates
          (Agree D s0 SameNames)
          Reported
          (report D ip fuel p d)
          (report D ip fuel (in_check_mode p) d)
  unfolding report
  report_agrees ip fuel d v seen s t a s' r e =
      let q = in_check_mode p in
      let (n, u, e1, e2) =
        bind-eq-ok (λ n. modify (λ x. record x { network = some n }))
          (get_existing_network D p (noted p d s)) e in
      let same : u ≡ noted p d s = sym (ap (λ x. x.1) e1) in
      let k = noted_keeps p d s in
      let j = noted_keeps q d t in
      let x = noted q d t in
      let found : D.get_network p.name x.daemon ≡ ok v =
        ap (D.get_network p.name) (j.0 ∙ r.0) ∙ seen in
      (
        record x { network = some v },
        ap (λ z. continue_with (λ n. modify (λ y. record y { network = some n })) (from_api D z, x))
            found,
        (
          j.0 ∙ r.0,
          j.1 ∙ sym r.1 ∙ sym k.1 ∙ ap (λ y. y.actions) (sym same) ∙ ap (λ y. y.1.actions) e2,
          j.2 ∙ sym r.2 ∙ sym k.2 ∙ ap (λ y. y.changed) (sym same) ∙ ap (λ y. y.1.changed) e2,
        ),
      )

  compare_same :
      (ip : IpAddresses) (fuel : ℕ) (n : Option Network)
      → compare_existing D ip fuel (in_check_mode p) n ≡ compare_existing D ip fuel p n
  unfolding compare_existing
  compare_same ip fuel none = refl
  compare_same ip fuel (some n) = refl

  reads_agrees :
      {A : Type 0} (R : Here D s0 → Here D s0 → Type 0)
      (f g : Here D s0 → Result (NetworkError D.ApiError) A)
      → ((s t : Here D s0) → R s t → g t ≡ f s)
      → Simulates R R (reads f) (reads g)
  reads_agrees R f g h s t a s' r e =
      (t, ap (λ z. (z, t)) (h s t r) ∙ ap (λ x. (x.0, t)) e, rw (sym (ap (λ x. x.1) e)) r)

  note_agrees :
      (wanted : Bool)
      → Simulates {E = NetworkError D.ApiError}
          (Untouched D s0)
          (Untouched D s0)
          (modify (note_exists D wanted))
          (modify (note_exists D wanted))
  note_agrees wanted =
      modify_agrees D law p s0 (Untouched D s0) (Untouched D s0) (note_exists D wanted)
        (note_exists D wanted) (λ s t r. r)

  do_present_agrees :
      (ip : IpAddresses) (fuel : ℕ) (names : List String) (v : Option Network)
      → D.get_network p.name s0 ≡ ok v
      → Simulates
          (Untouched D s0)
          Reported
          (do_present D ip fuel p names)
          (do_present D ip fuel (in_check_mode p) names)
  unfolding do_present
  do_present_agrees ip fuel names v seen =
      Simulates-bind (Untouched D s0) (Untouched D s0) Reported _ _ _ _
        (reads_agrees (Untouched D s0) _ _ (λ s t r.
          compare_same ip fuel t.existing ∙ ap (compare_existing D ip fuel p) (sym r.1.3)))
        λ d.
          Simulates-bind (Untouched D s0) (Agree D s0 SameNames) Reported _ _ _ _
            (Simulates-bind (Untouched D s0) (Agree D s0 SameNames) (Agree D s0 SameNames) _ _ _ _
              (Simulates-bind (Untouched D s0) (Agree D s0 Same) (Agree D s0 SameNames) _ _ _ _
                (Simulates-bind (Untouched D s0) (Untouched D s0) (Agree D s0 Same) _ _ _ _
                  (note_agrees true) (λ _. (recreate_agrees D law p s0) ip fuel d))
                (λ _. (create_network_agrees D law p s0)))
              (λ _. (settle_containers_agrees D law p s0) ip fuel names))
            (λ _. report_agrees ip fuel d v seen)

  do_absent_agrees :
      (ip : IpAddresses) (fuel : ℕ)
      → Simulates
          (Untouched D s0)
          Reported
          (do_absent D ip fuel p)
          (do_absent D ip fuel (in_check_mode p))
  unfolding do_absent
  do_absent_agrees ip fuel s t a s' r e =
      let (t', e', q) =
        Simulates-bind (Untouched D s0) (Untouched D s0) (Agree D s0 Same) _ _ _ _
          (note_agrees false) (λ _. (remove_network_agrees D law p s0) fuel) s t a s' r e in
      (t', e', (q.0, sym q.1, sym q.2))

  dispatch_agrees :
      (ip : IpAddresses) (fuel : ℕ) (x : Target) (names : List String) (v : Option Network)
      → D.get_network p.name s0 ≡ ok v
      → Simulates
          (Untouched D s0)
          Reported
          (dispatch D ip fuel x p names)
          (dispatch D ip fuel x (in_check_mode p) names)
  dispatch_agrees ip fuel present names v seen = do_present_agrees ip fuel names v seen
  dispatch_agrees ip fuel absent names v seen = do_absent_agrees ip fuel

  manage_agrees :
      (ip : IpAddresses) (fuel : ℕ) (n v : Option Network)
      → D.get_network p.name s0 ≡ ok v
      → Simulates
          (Untouched D s0)
          Reported
          (modify (set_existing D n)
            >> reads (λ _. check_subnets D ip fuel (or_nil p.ipam_config))
            >> dispatch D ip fuel p.target p (wanted_containers D ip fuel p n))
          (modify (set_existing D n)
            >> reads (λ _. check_subnets D ip fuel (or_nil p.ipam_config))
            >> dispatch D ip fuel p.target (in_check_mode p) (wanted_containers D ip fuel p n))
  manage_agrees ip fuel n v seen =
      Simulates-bind (Untouched D s0) (Untouched D s0) Reported _ _ _ _
        (Simulates-bind (Untouched D s0) (Untouched D s0) (Untouched D s0) _ _ _ _
          (modify_agrees D law p s0 (Untouched D s0) (Untouched D s0) (set_existing D n)
            (set_existing D n) (λ s t r. (r.0, (r.1.0, r.1.1, r.1.2, refl, r.1.4))))
          (λ _.
            reads_agrees (Untouched D s0) (λ _. check_subnets D ip fuel (or_nil p.ipam_config))
              (λ _. check_subnets D ip fuel (or_nil p.ipam_config)) (λ s t r. refl)))
        (λ _. dispatch_agrees ip fuel p.target (wanted_containers D ip fuel p n) v seen)

-- Where a run succeeds, against a steady daemon, the same run in check mode succeeds too, leaves
-- the daemon as it was, and reports the same actions, connections and disconnections included, and
-- the same `changed`.
pub manage_network-in_check_mode :
    (D : Daemon) (ip : IpAddresses) (fuel : ℕ) (p : Params) (s : D.State) {end : Session D.State}
    → IsSteady D
    → manage_network D ip fuel p s ≡ (ok tt, end)
    → (end' : Session D.State) × (manage_network D ip fuel (in_check_mode p) s ≡ (ok tt, end'))
      × (end'.daemon ≡ s)
      × (end'.actions ≡ end.actions)
      × (end'.changed ≡ end.changed)
unfolding manage_network manage
manage_network-in_check_mode D ip fuel p s {end} law e =
    let (n, u, e1, e2) = bind-eq-ok _ (get_existing_network D p (start D ip fuel s)) e in
    let seen : D.get_network p.name s ≡ ok n = from_api-ok D _ (ap (λ x. x.0) e1) in
    let same : u ≡ start D ip fuel s = sym (ap (λ x. x.1) e1) in
    let begun : (u.daemon ≡ s)
        × ((u.daemon ≡ s)
            × (u.actions ≡ u.actions)
            × (u.changed ≡ u.changed)
            × (u.existing ≡ u.existing)
            × ((c : String) → D.get_container c u.daemon ≡ D.get_container c s)) =
      (
        ap (λ x. x.daemon) same,
        (ap (λ x. x.daemon) same, refl, refl, refl, λ c. ap (λ x. D.get_container c x.daemon) same),
      ) in
    let (t', e', r) = manage_agrees D law p s ip fuel n n seen u u tt end begun e2 in
    (t', ap (continue_with _) e1 ∙ e', r.0, r.1, r.2)
