-- ===== src/Network/Manager/Containers.antt =====
-- docker_network: which containers are connected when `present` is done with them.
use openstack_osa_office_clu.Prelude.{
  Bool, true, false, not, ◌&&◌, ◌||◌, List, [], ◌∷◌, if◌then◌else◌, String, string_eq, ok, err,
  contains, any, Bool-cases, inl, inr, beq_refl, ◌=?◌, ◌≡◌, refl, sym, ap, ◌∙◌, arith, ℕ,
}
use openstack_osa_office_clu.Prelude.Programs.{pure, modify, ◌>>◌, for_each, bind-eq-ok}
use openstack_osa_office_clu.Network.Config.{IpAddresses, Params}
use openstack_osa_office_clu.Network.Manager.Calls.{from_api-ok, posts_then_modify-ok}
use openstack_osa_office_clu.Network.Manager.{
  act, track_connected, connected, disconnected, Daemon, Session, asks, posts, container_names,
  connect_container, disconnect_container, connect_if_needed, connect_unless, connect_if,
  connect_containers, disconnect_unless, disconnect_missing, settle_containers,
}

-- The containers that are attached to a network, by their names: what the calls for one container
-- do to them, where the container is named by a text that stands for it (its name, or its ID), and
-- that they make no container and remove none. `called` gives the name of the container that a text
-- stands for.
pub record IsAttachment (D : Daemon) (network : String) (called : String → String)
    (at : String → D.State → Bool) : Type 0 where
  pub connect_attaches :
      (m c : String) (s s' : D.State)
      → D.connect network m s ≡ (ok tt, s')
      → at c s' ≡ ((called m =? c) || at c s)
  pub disconnect_detaches :
      (m c : String) (s s' : D.State)
      → D.disconnect network m s ≡ (ok tt, s')
      → at c s' ≡ (not (called m =? c) && at c s)
  pub connect_steady :
      (m c : String) (s : D.State)
      → D.get_container c (D.connect network m s).1 ≡ D.get_container c s

abbrev pub exists : (D : Daemon) → String → D.State → Bool
exists D c s = elim (D.get_container c s) [ ok b ↦ b | err e ↦ false ]

any_same :
    (f g : String → Bool) (xs : List String) → ((x : String) → f x ≡ g x) → any f xs ≡ any g xs
any_same f g [] h = refl
any_same f g (x ∷ xs) h = ground (arith, h x, any_same f g xs h)

module _ (D : Daemon) (p : Params) (called : String → String) (at : String → D.State → Bool)
    (law : IsAttachment D p.name called at) (real : p.check_mode ≡ false) where
  abbrev Here : Type 0
  Here = Session D.State

  -- The text calls for the container of this name to be connected.
  abbrev connects_to : Here → String → String → Bool
  connects_to s c m =
      (called m =? c) && (not (contains (container_names s.existing) m) && exists D m s.daemon)

  -- The effect of one step of the first loop, and of the loop, in terms of the state before it.
  abbrev Connects : List String → Here → Here → Type 0
  Connects names s s' =
      (s'.existing ≡ s.existing)
      × ((c : String) → D.get_container c s'.daemon ≡ D.get_container c s.daemon)
      × ((c : String) → at c s'.daemon ≡ (at c s.daemon || any (connects_to s c) names))

  connect_container-ok :
      (name : String) (s s' : Here)
      → connect_container D p name s ≡ (ok tt, s')
      → (s'.existing ≡ s.existing)
        × ((c : String) → D.get_container c s'.daemon ≡ D.get_container c s.daemon)
        × ((c : String) → at c s'.daemon ≡ ((called name =? c) || at c s.daemon))
  unfolding connect_container
  connect_container-ok name s s' e =
      let g = λ (x : Here). track_connected D name true (act D (connected name) x) in
      let begun : (posts D (D.connect p.name name) >> modify g) s ≡ (ok tt, s') = rw real at e in
      let (done, end) = posts_then_modify-ok D (D.connect p.name name) g s s' begun in
      rw end (
        refl,
        (λ c. law.connect_steady name c s.daemon),
        λ c. law.connect_attaches name c s.daemon (D.connect p.name name s.daemon).1 done,
      )

  connect_if-ok :
      (name : String) (there : Bool) (s s' : Here)
      → connect_if D p name there s ≡ (ok tt, s')
      → (s'.existing ≡ s.existing)
        × ((c : String) → D.get_container c s'.daemon ≡ D.get_container c s.daemon)
        × ((c : String) → at c s'.daemon ≡ (((called name =? c) && there) || at c s.daemon))
  connect_if-ok name true s s' e =
      let h = connect_container-ok name s s' e in (h.0, h.1, λ c. ground (arith, h.2 c))
  connect_if-ok name false s s' e =
      rw (sym (ap (λ x. x.1) e)) (refl, (λ c. refl), λ c. ground arith)

  connect_unless-ok :
      (name : String) (already : Bool) (s s' : Here)
      → connect_unless D p name already s ≡ (ok tt, s')
      → (s'.existing ≡ s.existing)
        × ((c : String) → D.get_container c s'.daemon ≡ D.get_container c s.daemon)
        × ((c : String)
            → at c s'.daemon
              ≡ (((called name =? c) && (not already && exists D name s.daemon)) || at c s.daemon))
  connect_unless-ok name true s s' e =
      rw (sym (ap (λ x. x.1) e)) (refl, (λ c. refl), λ c. ground arith)
  connect_unless-ok name false s s' e =
      let (there, u, e1, e2) =
        bind-eq-ok (connect_if D p name) (asks D (D.get_container name) s) e in
      let same : u ≡ s = sym (ap (λ x. x.1) e1) in
      let known : D.get_container name s.daemon ≡ ok there = from_api-ok D _ (ap (λ x. x.0) e1) in
      let h = connect_if-ok name there s s' (ap (connect_if D p name there) (sym same) ∙ e2) in
      (h.0, h.1, λ c. ground (arith, h.2 c, known))

  connect_if_needed-ok :
      (name : String) (s s' : Here)
      → connect_if_needed D p name s ≡ (ok tt, s')
      → Connects (name ∷ []) s s'
  unfolding connect_if_needed
  connect_if_needed-ok name s s' e =
      let h = connect_unless-ok name (contains (container_names s.existing) name) s s' e in
      (h.0, h.1, λ c. ground (arith, h.2 c))

  connect_all-ok :
      (names : List String) (s s' : Here)
      → for_each (connect_if_needed D p) names s ≡ (ok tt, s')
      → Connects names s s'
  unfolding for_each
  connect_all-ok [] s s' e = rw (sym (ap (λ x. x.1) e)) (refl, (λ c. refl), λ c. ground arith)
  connect_all-ok (name ∷ names) s s' e =
      let (a, u, e1, e2) =
        bind-eq-ok (λ _. for_each (connect_if_needed D p) names) (connect_if_needed D p name s) e in
      let h = connect_if_needed-ok name s u e1 in
      let k = connect_all-ok names u s' e2 in
      (
        k.0 ∙ h.0,
        (λ c. k.1 c ∙ h.1 c),
        λ c. ground (
          arith,
          k.2 c,
          h.2 c,
          any_same (connects_to u c) (connects_to s c) names (λ m. ground (arith, h.0, h.1 m)),
        ),
      )

  disconnect_container-ok :
      (name : String) (s s' : Here)
      → disconnect_container D p name s ≡ (ok tt, s')
      → (c : String) → at c s'.daemon ≡ (not (called name =? c) && at c s.daemon)
  unfolding disconnect_container
  disconnect_container-ok name s s' e c =
      let g = λ (x : Here). track_connected D name false (act D (disconnected name) x) in
      let begun : (posts D (D.disconnect p.name name) >> modify g) s ≡ (ok tt, s') = rw real at e in
      let (done, end) = posts_then_modify-ok D (D.disconnect p.name name) g s s' begun in
      rw end (law.disconnect_detaches name c s.daemon (D.disconnect p.name name s.daemon).1 done)

  kept-ok :
      (kept : Bool) (name : String) (s s' : Here)
      → (if kept then pure tt else disconnect_container D p name) s ≡ (ok tt, s')
      → (c : String) → at c s'.daemon ≡ ((kept || not (called name =? c)) && at c s.daemon)
  kept-ok true name s s' e c = rw (sym (ap (λ x. x.1) e)) refl
  kept-ok false name s s' e c = disconnect_container-ok name s s' e c

  disconnect_all-ok :
      (names olds : List String) (s s' : Here)
      → ((o : String) → contains olds o ≡ true → called o ≡ o)
      → for_each (disconnect_unless D p names) olds s ≡ (ok tt, s')
      → (c : String)
      → at c s'.daemon ≡ ((not (contains olds c) || contains names c) && at c s.daemon)
  unfolding for_each disconnect_unless
  disconnect_all-ok names [] s s' n e c = rw (sym (ap (λ x. x.1) e)) refl
  disconnect_all-ok names (o ∷ olds) s s' n e c =
      let (a, u, e1, e2) =
        bind-eq-ok (λ _. for_each (disconnect_unless D p names) olds)
          (disconnect_unless D p names o s) e in
      let h = kept-ok (contains names o) o s u e1 c in
      let named : called o ≡ o = n o (ground (arith, beq_refl o)) in
      let rest = λ (x : String) (y : contains olds x ≡ true). n x (ground (arith, y)) in
      let k = disconnect_all-ok names olds u s' rest e2 c in
      ground (arith, h, k, named, string_eq.beq_iff c o, string_eq.beq_iff o c)

  -- Where no listed container has the name, it makes no difference that the loop skips the listed
  -- ones.
  any-connects_to :
      (s : Here) (c : String) (names : List String)
      → ((o : String) → at o s.daemon ≡ contains (container_names s.existing) o)
      → ((o : String) → at o s.daemon ≡ true → called o ≡ o)
      → at c s.daemon ≡ false
      → any (connects_to s c) names ≡ any (λ m. (called m =? c) && exists D m s.daemon) names
  any-connects_to s c names fresh named free =
      any_same (connects_to s c) (λ m. (called m =? c) && exists D m s.daemon) names
        (λ m. elim (Bool-cases (at m s.daemon)) [
          | inl a ↦
              let other : (called m =? c) ≡ false =
                ground (arith, named m a, a, free, string_eq.beq_iff m c) in
              ground (arith, other)
          | inr a ↦ ground (arith, sym (fresh m) ∙ a)
        ])

  -- Outside check mode and without `appends`, for a daemon whose calls attach and detach the container
  -- that they name, where `existing_network` is up to date and lists the containers by their names:
  -- where `settle_containers` returns, a container that was attached to the
  -- network before is attached exactly if its name is among the wanted texts, and one that was not is
  -- attached exactly if a wanted text, a name or an ID, stands for it and the daemon finds a
  -- container under that text.
  pub settle_containers-ok :
      (ip : IpAddresses) (fuel : ℕ) (names : List String) (s s' : Session D.State)
      → p.appends ≡ false
      → ((c : String) → at c s.daemon ≡ contains (container_names s.existing) c)
      → ((c : String) → at c s.daemon ≡ true → called c ≡ c)
      → settle_containers D ip fuel p names s ≡ (ok tt, s')
      → (c : String)
      → at c s'.daemon ≡ (
          if at c s.daemon
          then contains names c
          else any (λ m. (called m =? c) && exists D m s.daemon) names)
  unfolding settle_containers connect_containers disconnect_missing
  settle_containers-ok ip fuel names s s' alone fresh named e c =
      let both : (for_each (connect_if_needed D p) names >> disconnect_missing D p names) s
          ≡ (ok tt, s') =
        rw alone at e in
      let (a, u, e1, e2) =
        bind-eq-ok (λ _. disconnect_missing D p names) (for_each (connect_if_needed D p) names s)
          both in
      let h = connect_all-ok names s u e1 in
      let olds : (o : String)
          → contains (container_names u.existing) o ≡ contains (container_names s.existing) o =
        λ o. ap (λ n. contains (container_names n) o) h.0 in
      let listed : (o : String) → contains (container_names u.existing) o ≡ true → called o ≡ o =
        λ o y. named o (fresh o ∙ sym (olds o) ∙ y) in
      let k = disconnect_all-ok names (container_names u.existing) u s' listed e2 c in
      elim (Bool-cases (at c s.daemon)) [
        | inl there ↦ ground (arith, k, olds c, h.2 c, fresh c, there)
        | inr free ↦
            ground
              (arith, k, olds c, h.2 c, fresh c, free, any-connects_to s c names fresh named free)
      ]
