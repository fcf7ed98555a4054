-- ===== src/Network/Manager/CheckMode/Settling.antt =====
-- docker_network in check mode: connecting and disconnecting containers.
use openstack_osa_office_clu.Prelude.{
  ℕ, Bool, true, false, List, if◌then◌else◌, String, string_eq, contains, ◌≡◌, sym, ap, ◌∙◌,
}
use openstack_osa_office_clu.Prelude.Programs.{pure, for_each}
use openstack_osa_office_clu.Prelude.Simulation.{Simulates, Simulates-bind, Simulates-for_each}
use openstack_osa_office_clu.Network.Config.{IpAddresses, Params}
use openstack_osa_office_clu.Network.Manager.{
  Daemon, from_api, asks, container_names, disconnect_container, connect_unless, connect_if,
  is_container_connected, connect_if_needed, connect_containers, disconnect_unless,
  disconnect_missing, settle_containers,
}
use openstack_osa_office_clu.Network.Manager.CheckMode.Agreement.{
  Agree, IsSteady, SameNames, connect_container_agrees, disconnect_container_agrees, in_check_mode,
}
use openstack_osa_office_clu.Network.Manager.CheckMode.Removing.{nothing_agrees}

module _ (D : Daemon) (law : IsSteady D) (p : Params) (s0 : D.State) where
  connect_if_agrees :
      (name : String) (exists : Bool)
      → Simulates
          (Agree D s0 SameNames)
          (Agree D s0 SameNames)
          (connect_if D p name exists)
          (connect_if D (in_check_mode p) name exists)
  connect_if_agrees name true = connect_container_agrees D law p s0 SameNames name
  connect_if_agrees name false = nothing_agrees D law p s0 SameNames

  -- Both runs learn the same about a container.
  asks_container :
      (name : String)
      → Simulates
          (Agree D s0 SameNames)
          (Agree D s0 SameNames)
          (asks D (D.get_container name))
          (asks D (D.get_container name))
  asks_container name s t a s' r e =
      let there : D.get_container name t.daemon ≡ D.get_container name s.daemon =
        ap (D.get_container name) r.0 ∙ sym (r.4 name) in
      let same : s' ≡ s = sym (ap (λ x. x.1) e) in
      (t, ap (λ d. (from_api D d, t)) there ∙ ap (λ x. (x.0, t)) e, rw same r)

  connect_unless_agrees :
      (name : String) (already : Bool)
      → Simulates
          (Agree D s0 SameNames)
          (Agree D s0 SameNames)
          (connect_unless D p name already)
          (connect_unless D (in_check_mode p) name already)
  connect_unless_agrees name true = nothing_agrees D law p s0 SameNames
  connect_unless_agrees name false =
      Simulates-bind (Agree D s0 SameNames) (Agree D s0 SameNames) (Agree D s0 SameNames) _ _ _ _
        (asks_container name) (connect_if_agrees name)

  connect_if_needed_agrees :
      (name : String)
      → Simulates
          (Agree D s0 SameNames)
          (Agree D s0 SameNames)
          (connect_if_needed D p name)
          (connect_if_needed D (in_check_mode p) name)
  unfolding connect_if_needed
  connect_if_needed_agrees name s t a s' r e =
      let (t', e', q) =
        connect_unless_agrees name (is_container_connected D name s.existing) s t a s' r e in
      (
        t',
        ap (λ ns. connect_unless D (in_check_mode p) name (contains ns name) t) (sym r.3) ∙ e',
        q,
      )

  kept_agrees :
      (kept : Bool) (name : String)
      → Simulates
          (Agree D s0 SameNames)
          (Agree D s0 SameNames)
          (if kept then pure tt else disconnect_container D p name)
          (if kept then pure tt else disconnect_container D (in_check_mode p) name)
  kept_agrees true name = nothing_agrees D law p s0 SameNames
  kept_agrees false name = disconnect_container_agrees D law p s0 SameNames name

  disconnect_unless_agrees :
      (names : List String) (name : String)
      → Simulates
          (Agree D s0 SameNames)
          (Agree D s0 SameNames)
          (disconnect_unless D p names name)
          (disconnect_unless D (in_check_mode p) names name)
  unfolding disconnect_unless
  disconnect_unless_agrees names name = kept_agrees (contains names name) name

  disconnect_missing_agrees :
      (names : List String)
      → Simulates
          (Agree D s0 SameNames)
          (Agree D s0 SameNames)
          (disconnect_missing D p names)
          (disconnect_missing D (in_check_mode p) names)
  unfolding disconnect_missing
  disconnect_missing_agrees names s t a s' r e =
      let (t', e', q) =
        Simulates-for_each (Agree D s0 SameNames) (disconnect_unless D p names)
          (disconnect_unless D (in_check_mode p) names) (container_names s.existing)
          (disconnect_unless_agrees names) s t a s' r e in
      (t', ap (λ ns. for_each (disconnect_unless D (in_check_mode p) names) ns t) (sym r.3) ∙ e', q)

  appends_agrees :
      (appends : Bool) (names : List String)
      → Simulates
          (Agree D s0 SameNames)
          (Agree D s0 SameNames)
          (if appends then pure tt else disconnect_missing D p names)
          (if appends then pure tt else disconnect_missing D (in_check_mode p) names)
  appends_agrees true names = nothing_agrees D law p s0 SameNames
  appends_agrees false names = disconnect_missing_agrees names

  pub settle_containers_agrees :
      (ip : IpAddresses) (fuel : ℕ) (names : List String)
      → Simulates
          (Agree D s0 SameNames)
          (Agree D s0 SameNames)
          (settle_containers D ip fuel p names)
          (settle_containers D ip fuel (in_check_mode p) names)
  unfolding settle_containers connect_containers
  settle_containers_agrees ip fuel names =
      Simulates-bind (Agree D s0 SameNames) (Agree D s0 SameNames) (Agree D s0 SameNames) _ _ _ _
        (Simulates-for_each (Agree D s0 SameNames) (connect_if_needed D p)
          (connect_if_needed D (in_check_mode p)) names connect_if_needed_agrees)
        (λ _. appends_agrees p.appends names)
