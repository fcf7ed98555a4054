-- ===== src/Network/Manager/CheckMode/Removing.antt =====
-- docker_network in check mode: disconnecting and removing.
use openstack_osa_office_clu.Prelude.{
  ℕ, Bool, true, false, not, ◌||◌, if◌then◌else◌, some, none, Option, string_eq, ◌≡◌, refl, sym, ap,
  ◌∙◌,
}
use openstack_osa_office_clu.Prelude.Programs.{pure, modify, ◌>>◌}
use openstack_osa_office_clu.Prelude.Simulation.{Simulates, Simulates-bind, Simulates-for_each}
use openstack_osa_office_clu.Util.Differences.{empty}
use openstack_osa_office_clu.Network.Config.{
  NetworkError, IpAddresses, Network, Params, Differences,
}
use openstack_osa_office_clu.Network.Manager.{
  Daemon, Call, asks, set_existing, container_names, disconnect_container,
  disconnect_all_containers, delete_network, remove_network, remove_if, recreate, removed,
}
use openstack_osa_office_clu.Network.Manager.CheckMode.Agreement.{
  Agree, Here, IsSteady, Same, Untouched, Untouched-forget, act_agrees, asks-Untouched,
  delete_network-Quiet, disconnect_container_agrees, in_check_mode, modify_agrees,
  unless_check_agrees,
}

module _ (D : Daemon) (law : IsSteady D) (p : Params) (s0 : D.State) where
  disconnect_all_agrees :
      Simulates
        (Untouched D s0)
        (Agree D s0 Same)
        (disconnect_all_containers D p)
        (disconnect_all_containers D (in_check_mode p))
  unfolding disconnect_all_containers
  disconnect_all_agrees =
      Simulates-bind (Untouched D s0) (Untouched D s0) (Agree D s0 Same)
        (asks D (D.get_network p.name)) (asks D (D.get_network p.name)) _ _
        (asks-Untouched D law p s0 (D.get_network p.name))
        λ n. (Untouched-forget D law p s0) _ _ (Agree D s0 Same) (
          Simulates-for_each (Agree D s0 Same) (disconnect_container D p)
            (disconnect_container D (in_check_mode p)) (container_names n)
            (disconnect_container_agrees D law p s0 Same))

  pub nothing_agrees :
      (K : Option Network → Option Network → Type 0)
      → Simulates {E = NetworkError D.ApiError} (Agree D s0 K) (Agree D s0 K) (pure tt) (pure tt)
  nothing_agrees K s t a s' r e = (t, refl, rw (sym (ap (λ x. x.1) e)) r)

  remove_if_agrees :
      (fuel : ℕ) (n : Option Network)
      → Simulates
          (Untouched D s0)
          (Agree D s0 Same)
          (remove_if D fuel p n)
          (remove_if D fuel (in_check_mode p) n)
  remove_if_agrees fuel none =
      Untouched-forget D law p s0 (pure tt) (pure tt) (Agree D s0 Same) (nothing_agrees Same)
  remove_if_agrees fuel (some n) =
      Simulates-bind (Untouched D s0) (Agree D s0 Same) (Agree D s0 Same) _ _ _ _
        (Simulates-bind (Untouched D s0) (Agree D s0 Same) (Agree D s0 Same) _ _ _ _
          disconnect_all_agrees
          (λ _.
            (unless_check_agrees D law p s0) Same (delete_network D fuel p n)
              (delete_network D fuel (in_check_mode p) n) (delete_network-Quiet D law p s0 fuel n)))
        (λ _. (act_agrees D law p s0) Same (removed p.name))

  -- A method that looks at `self.existing_network` first.
  by_existing_agrees :
      (R Q : Here D s0 → Here D s0 → Type 0) (f g : Option Network → Call D (Unit {0}))
      → ((s t : Here D s0) → R s t → s.existing ≡ t.existing)
      → ((n : Option Network) → Simulates R Q (f n) (g n))
      → Simulates R Q (λ s. f s.existing s) (λ s. g s.existing s)
  by_existing_agrees R Q f g same h s t a s' r e =
      let (t', e', q) = h s.existing s t a s' r e in
      (t', ap (λ n. g n t) (sym (same s t r)) ∙ e', q)

  pub remove_network_agrees :
      (fuel : ℕ)
      → Simulates
          (Untouched D s0)
          (Agree D s0 Same)
          (remove_network D fuel p)
          (remove_network D fuel (in_check_mode p))
  unfolding remove_network
  remove_network_agrees fuel =
      by_existing_agrees (Untouched D s0) (Agree D s0 Same) (remove_if D fuel p)
        (remove_if D fuel (in_check_mode p)) (λ s t r. r.1.3) (remove_if_agrees fuel)

  again_agrees :
      (must : Bool) (fuel : ℕ)
      → Simulates
          (Untouched D s0)
          (Agree D s0 Same)
          (if must then remove_network D fuel p >> modify (set_existing D none) else pure tt)
          (if must
            then remove_network D fuel (in_check_mode p) >> modify (set_existing D none)
            else pure tt)
  again_agrees true fuel =
      Simulates-bind (Untouched D s0) (Agree D s0 Same) (Agree D s0 Same) _ _ _ _
        (remove_network_agrees fuel)
        (λ _.
          (modify_agrees D law p s0) (Agree D s0 Same) (Agree D s0 Same) (set_existing D none)
            (set_existing D none) (λ s t r. (r.0, r.1, r.2, refl, r.4)))
  again_agrees false fuel =
      Untouched-forget D law p s0 (pure tt) (pure tt) (Agree D s0 Same) (nothing_agrees Same)

  pub recreate_agrees :
      (ip : IpAddresses) (fuel : ℕ) (d : Differences)
      → Simulates
          (Untouched D s0)
          (Agree D s0 Same)
          (recreate D ip fuel p d)
          (recreate D ip fuel (in_check_mode p) d)
  unfolding recreate
  recreate_agrees ip fuel d = again_agrees (p.force || not (empty d)) fuel
