-- ===== src/Network/Manager/Waiting.antt =====
-- docker_network: the loop that waits until a swarm has removed a network.
use openstack_osa_office_clu.Prelude.{
  ℕ, zero, suc, ◌<◌, some, none, String, ok, ◌≡◌, ap, ◌∙◌, arith,
}
use openstack_osa_office_clu.Prelude.Programs.{continue_with}
use openstack_osa_office_clu.Network.Config.{Network, Params}
use openstack_osa_office_clu.Network.Manager.{
  Daemon, Session, from_api, keep_waiting, wait_until_gone,
}

module _ (D : Daemon) where
  -- The daemon after a number of waits.
  abbrev pub waited : ℕ → D.State → D.State
  waited zero s = s
  waited (suc k) s = waited k (D.wait s)

  -- The network is listed until the `k`-th wait is over, and then not any more.
  abbrev pub GoneAfter : ℕ → String → D.State → Type 0
  GoneAfter zero name s = D.get_network name s ≡ ok none
  GoneAfter (suc k) name s =
      ((n : Network) × (D.get_network name s ≡ ok (some n))) × GoneAfter k name (D.wait s)

  -- If the network is gone after `k` waits, the loop ends without an error after as many rounds,
  -- whenever there is fuel for one more, and changes nothing but the time.
  pub wait_until_gone-GoneAfter :
      (k fuel : ℕ) (p : Params) (s : Session D.State)
      → k < fuel
      → GoneAfter k p.name s.daemon
      → wait_until_gone D fuel p s ≡ (ok tt, record s { daemon = waited k s.daemon })
  unfolding wait_until_gone
  wait_until_gone-GoneAfter k zero p s h g = absurd (omega arith)
  wait_until_gone-GoneAfter zero (suc fuel) p s h g =
      ap (λ z. continue_with (λ n. keep_waiting D n (wait_until_gone D fuel p)) (from_api D z, s)) g
  wait_until_gone-GoneAfter (suc k) (suc fuel) p s h ((n, g), later) =
      ap (λ z. continue_with (λ n. keep_waiting D n (wait_until_gone D fuel p)) (from_api D z, s)) g
      ∙ wait_until_gone-GoneAfter k fuel p (record s { daemon = D.wait s.daemon }) (omega arith)
          later
