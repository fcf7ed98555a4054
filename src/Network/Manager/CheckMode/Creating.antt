-- ===== src/Network/Manager/CheckMode/Creating.antt =====
-- docker_network in check mode: creating the network.
use openstack_osa_office_clu.Prelude.{
  Bool, true, false, if◌then◌else◌, some, none, Option, string_eq, ok, ◌≡◌, refl, sym, ap, ◌∙◌,
}
use openstack_osa_office_clu.Prelude.Programs.{pure, bind-eq-ok}
use openstack_osa_office_clu.Prelude.Simulation.{Simulates, Simulates-bind}
use openstack_osa_office_clu.Network.Config.{Network, Params}
use openstack_osa_office_clu.Network.Manager.Calls.{both_parts, from_api-ok}
use openstack_osa_office_clu.Network.Manager.{
  Daemon, asks, posts, unless_check, set_existing, create_data, container_names, post_network,
  create_network, create_unless, created,
}
use openstack_osa_office_clu.Network.Manager.CheckMode.Agreement.{
  Agree, Here, IsSteady, Same, SameNames, act_agrees, in_check_mode,
}

module _ (D : Daemon) (law : IsSteady D) (p : Params) (s0 : D.State) where
  -- The new network has no containers; in check mode there is none.
  post_network_agrees :
      (s t : Here D s0) (s' : Here D s0)
      → Agree D s0 Same s t
      → t.existing ≡ none
      → post_network D p s ≡ (ok tt, s')
      → Agree D s0 SameNames s' t
  unfolding post_network
  post_network_agrees s t s' r g e =
      let (id, u, e1, e2) = bind-eq-ok _ (posts D (D.create (create_data p)) s) e in
      let (n, w, e3, e4) = bind-eq-ok _ (asks D (D.get_network_by_id id) u) e2 in
      let sent : (D.create (create_data p) s.daemon).0 ≡ ok id =
        from_api-ok D _ (ap (λ x. x.0) e1) in
      let there : u ≡ record s { daemon = (D.create (create_data p) s.daemon).1 } =
        sym (ap (λ x. x.1) e1) in
      let read : D.get_network_by_id id u.daemon ≡ ok n = from_api-ok D _ (ap (λ x. x.0) e3) in
      let empty_one =
        law.created_empty p s.daemon u.daemon (both_parts sent (ap (λ x. x.daemon) there)) read in
      let end : s' ≡ set_existing D n u =
        sym (ap (λ x. x.1) e4) ∙ sym (ap (λ x. set_existing D n x.1) e3) in
      rw (end ∙ ap (set_existing D n) there) (
        r.0,
        r.1,
        r.2,
        empty_one ∙ sym (ap container_names g),
        λ c. law.create_steady (create_data p) s.daemon c ∙ r.4 c,
      )

  abbrev Knowing : Option Network → Here D s0 → Here D s0 → Type 0
  Knowing n s t = Agree D s0 Same s t × (s.existing ≡ n)

  post_agrees :
      (skip : Bool)
      → Simulates
          (Knowing none)
          (Agree D s0 SameNames)
          (if skip then pure tt else post_network D p)
          (pure tt)
  post_agrees true = λ s t a s' r e.
      (t, refl, rw (sym (ap (λ x. x.1) e)) (r.0.0, r.0.1, r.0.2, ap container_names r.0.3, r.0.4))
  post_agrees false = λ s t a s' r e. (t, refl, post_network_agrees s t s' r.0 (sym r.0.3 ∙ r.1) e)

  create_unless_agrees :
      (n : Option Network)
      → Simulates
          (Knowing n)
          (Agree D s0 SameNames)
          (create_unless D p n)
          (create_unless D (in_check_mode p) n)
  create_unless_agrees (some n) = λ s t a s' r e.
      (t, refl, rw (sym (ap (λ x. x.1) e)) (r.0.0, r.0.1, r.0.2, ap container_names r.0.3, r.0.4))
  create_unless_agrees none =
      Simulates-bind (Knowing none) (Agree D s0 SameNames) (Agree D s0 SameNames)
        (unless_check D p (post_network D p)) (pure tt) _ _ (post_agrees p.check_mode)
        (λ _. (act_agrees D law p s0) SameNames (created p.name p.driver))

  pub create_network_agrees :
      Simulates
        (Agree D s0 Same)
        (Agree D s0 SameNames)
        (create_network D p)
        (create_network D (in_check_mode p))
  unfolding create_network
  create_network_agrees s t a s' r e =
      let (t', e', q) = create_unless_agrees s.existing s t a s' (r, refl) e in
      (t', ap (λ n. create_unless D (in_check_mode p) n t) (sym r.3) ∙ e', q)
