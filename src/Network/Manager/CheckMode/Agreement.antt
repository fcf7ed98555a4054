-- ===== src/Network/Manager/CheckMode/Agreement.antt =====
-- docker_network in check mode: when two runs agree, and the calls that only one of them makes.
use openstack_osa_office_clu.Prelude.{
  ℕ, zero, suc, Bool, true, false, [], ◌∷◌, ◌++◌, if◌then◌else◌, some, none, Option, String,
  string_eq, Result, ok, ◌≡◌, refl, sym, ap, ◌∙◌, arith,
}
use openstack_osa_office_clu.Prelude.Programs.{pure, modify, ◌>>=◌, ◌>>◌, bind-eq-ok}
use openstack_osa_office_clu.Prelude.Simulation.{Simulates, Simulates-bind}
use openstack_osa_office_clu.Network.Config.{NetworkError, Network, Params}
use openstack_osa_office_clu.Network.Manager.{
  Action, CreateData, Daemon, Session, Call, from_api, asks, posts, unless_check, act,
  track_connected, create_data, container_names, keep_waiting, disconnect_container,
  wait_until_gone, delete_network, connect_container, is_swarm, connected, disconnected,
}

abbrev pub in_check_mode : Params → Params
in_check_mode p = record p { check_mode = true }

-- No call for networks makes a container or removes one, and a new network has no containers.
pub record IsSteady (D : Daemon) : Type 0 where
  pub create_steady :
      (x : CreateData) (s : D.State) (c : String)
      → D.get_container c (D.create x s).1 ≡ D.get_container c s
  pub delete_steady :
      (n : String) (s : D.State) (c : String)
      → D.get_container c (D.delete n s).1 ≡ D.get_container c s
  pub connect_steady :
      (n m : String) (s : D.State) (c : String)
      → D.get_container c (D.connect n m s).1 ≡ D.get_container c s
  pub disconnect_steady :
      (n m : String) (s : D.State) (c : String)
      → D.get_container c (D.disconnect n m s).1 ≡ D.get_container c s
  pub wait_steady : (s : D.State) (c : String) → D.get_container c (D.wait s) ≡ D.get_container c s
  pub created_empty :
      (p : Params) (s s' : D.State) {id : String} {n : Option Network}
      → D.create (create_data p) s ≡ (ok id, s')
      → D.get_network_by_id id s' ≡ ok n
      → container_names n ≡ []

abbrev pub Same : Option Network → Option Network → Type 0
Same m n = m ≡ n

abbrev pub SameNames : Option Network → Option Network → Type 0
SameNames m n = container_names m ≡ container_names n

module _ (D : Daemon) (s0 : D.State) where
  abbrev pub Here : Type 0
  Here = Session D.State

  -- A run outside check mode and one in check mode, which began at the daemon `s0`.
  abbrev pub Agree : (Option Network → Option Network → Type 0) → Here → Here → Type 0
  Agree K s t =
      (t.daemon ≡ s0)
      × (s.actions ≡ t.actions)
      × (s.changed ≡ t.changed)
      × K s.existing t.existing
      × ((c : String) → D.get_container c s.daemon ≡ D.get_container c s0)

  -- The first run has not changed the daemon yet.
  abbrev pub Untouched : Here → Here → Type 0
  Untouched s t = (s.daemon ≡ s0) × Agree Same s t

  -- Calls that change the daemon, and nothing else that counts.
  abbrev Quiet : Call D (Unit {0}) → Type 0
  Quiet m =
      (s s' : Here)
      → m s ≡ (ok tt, s')
      → (s'.existing ≡ s.existing)
        × (s'.actions ≡ s.actions)
        × (s'.changed ≡ s.changed)
        × ((c : String) → D.get_container c s'.daemon ≡ D.get_container c s.daemon)

module _ (D : Daemon) (law : IsSteady D) (p : Params) (s0 : D.State) where
  pub modify_agrees :
      (R Q : Here D s0 → Here D s0 → Type 0) (f g : Here D s0 → Here D s0)
      → ((s t : Here D s0) → R s t → Q (f s) (g t))
      → Simulates {E = NetworkError D.ApiError} R Q (modify f) (modify g)
  modify_agrees R Q f g h s t a s' r e = (g t, refl, rw (sym (ap (λ x. x.1) e)) (h s t r))

  skipped_agrees :
      (K : Option Network → Option Network → Type 0) (skip : Bool) (m : Call D (Unit {0}))
      → Quiet D s0 m
      → Simulates (Agree D s0 K) (Agree D s0 K) (if skip then pure tt else m) (pure tt)
  skipped_agrees K true m quiet s t a s' r e = (t, refl, rw (sym (ap (λ x. x.1) e)) r)
  skipped_agrees K false m quiet s t a s' r e =
      let q = quiet s s' e in (t, refl, (r.0, q.1 ∙ r.1, q.2 ∙ r.2, rw q.0 r.3, λ c. q.3 c ∙ r.4 c))

  -- In check mode the call is left out.
  pub unless_check_agrees :
      (K : Option Network → Option Network → Type 0) (m other : Call D (Unit {0}))
      → Quiet D s0 m
      → Simulates
          (Agree D s0 K)
          (Agree D s0 K)
          (unless_check D p m)
          (unless_check D (in_check_mode p) other)
  unless_check_agrees K m other quiet = skipped_agrees K p.check_mode m quiet

  posts-Quiet :
      (f : D.State → Result D.ApiError (Unit {0}) × D.State)
      → ((s : D.State) (c : String) → D.get_container c (f s).1 ≡ D.get_container c s)
      → Quiet D s0 (posts D f)
  posts-Quiet f h s s' e = rw (sym (ap (λ x. x.1) e)) (refl, refl, refl, h s.daemon)

  Quiet-then : (m n : Call D (Unit {0})) → Quiet D s0 m → Quiet D s0 n → Quiet D s0 (m >> n)
  Quiet-then m n h k s s' e =
      let (a, u, e1, e2) = bind-eq-ok (λ _. n) (m s) e in
      let x = h s u e1 in let y = k u s' e2 in (y.0 ∙ x.0, y.1 ∙ x.1, y.2 ∙ x.2, λ c. y.3 c ∙ x.3 c)

  pure-Quiet : Quiet D s0 (pure tt)
  pure-Quiet s s' e = rw (sym (ap (λ x. x.1) e)) (refl, refl, refl, λ c. refl)

  asks-Quiet :
      {A : Type 0} (f : D.State → Result D.ApiError A) (g : A → Call D (Unit {0}))
      → ((a : A) → Quiet D s0 (g a))
      → Quiet D s0 (asks D f >>= g)
  asks-Quiet f g h s s' e =
      let (a, u, e1, e2) = bind-eq-ok g (asks D f s) e in
      let same : u ≡ s = sym (ap (λ x. x.1) e1) in h a s s' (ap (g a) (sym same) ∙ e2)

  keep_waiting-Quiet :
      (n : Option Network) (again : Call D (Unit {0}))
      → Quiet D s0 again
      → Quiet D s0 (keep_waiting D n again)
  keep_waiting-Quiet none again h = pure-Quiet
  keep_waiting-Quiet (some n) again h =
      Quiet-then (modify (λ s. record s { daemon = D.wait s.daemon })) again
        (λ s s' e. rw (sym (ap (λ x. x.1) e)) (refl, refl, refl, law.wait_steady s.daemon)) h

  wait_until_gone-Quiet : (fuel : ℕ) → Quiet D s0 (wait_until_gone D fuel p)
  unfolding wait_until_gone
  wait_until_gone-Quiet zero = λ s s' e. absurd (ground arith)
  wait_until_gone-Quiet (suc fuel) =
      asks-Quiet (D.get_network p.name) (λ n. keep_waiting D n (wait_until_gone D fuel p))
        (λ n. keep_waiting-Quiet n (wait_until_gone D fuel p) (wait_until_gone-Quiet fuel))

  waiting-Quiet :
      (swarm : Bool) (fuel : ℕ) → Quiet D s0 (if swarm then wait_until_gone D fuel p else pure tt)
  waiting-Quiet true fuel = wait_until_gone-Quiet fuel
  waiting-Quiet false fuel = pure-Quiet

  pub delete_network-Quiet : (fuel : ℕ) (n : Network) → Quiet D s0 (delete_network D fuel p n)
  unfolding delete_network
  delete_network-Quiet fuel n =
      Quiet-then (posts D (D.delete p.name)) _
        (posts-Quiet (D.delete p.name) (law.delete_steady p.name))
        (waiting-Quiet (is_swarm D n) fuel)

  pub act_agrees :
      (K : Option Network → Option Network → Type 0) (f : Action)
      → Simulates {E = NetworkError D.ApiError}
          (Agree D s0 K)
          (Agree D s0 K)
          (modify (act D f))
          (modify (act D f))
  act_agrees K f =
      modify_agrees (Agree D s0 K) (Agree D s0 K) (act D f) (act D f)
        λ s t r. (r.0, ap (λ xs. xs ++ f ∷ []) r.1, refl, r.3, r.4)

  track_agrees :
      (K : Option Network → Option Network → Type 0) (f : Action) (name : String) (wanted : Bool)
      → Simulates {E = NetworkError D.ApiError}
          (Agree D s0 K)
          (Agree D s0 K)
          (modify (λ s. track_connected D name wanted (act D f s)))
          (modify (λ s. track_connected D name wanted (act D f s)))
  track_agrees K f name wanted =
      modify_agrees (Agree D s0 K) (Agree D s0 K) _ _
        λ s t r. (r.0, ap (λ xs. xs ++ f ∷ []) r.1, refl, r.3, r.4)

  pub disconnect_container_agrees :
      (K : Option Network → Option Network → Type 0) (name : String)
      → Simulates
          (Agree D s0 K)
          (Agree D s0 K)
          (disconnect_container D p name)
          (disconnect_container D (in_check_mode p) name)
  unfolding disconnect_container
  disconnect_container_agrees K name =
      Simulates-bind (Agree D s0 K) (Agree D s0 K) (Agree D s0 K)
        (unless_check D p (posts D (D.disconnect p.name name)))
        (unless_check D (in_check_mode p) (posts D (D.disconnect p.name name))) _ _
        (unless_check_agrees K (posts D (D.disconnect p.name name))
          (posts D (D.disconnect p.name name))
          (posts-Quiet (D.disconnect p.name name) (law.disconnect_steady p.name name)))
        (λ _. track_agrees K (disconnected name) name false)

  pub connect_container_agrees :
      (K : Option Network → Option Network → Type 0) (name : String)
      → Simulates
          (Agree D s0 K)
          (Agree D s0 K)
          (connect_container D p name)
          (connect_container D (in_check_mode p) name)
  unfolding connect_container
  connect_container_agrees K name =
      Simulates-bind (Agree D s0 K) (Agree D s0 K) (Agree D s0 K)
        (unless_check D p (posts D (D.connect p.name name)))
        (unless_check D (in_check_mode p) (posts D (D.connect p.name name))) _ _
        (unless_check_agrees K (posts D (D.connect p.name name)) (posts D (D.connect p.name name))
          (posts-Quiet (D.connect p.name name) (law.connect_steady p.name name)))
        (λ _. track_agrees K (connected name) name true)

  -- A call that both runs make at the same daemon.
  pub asks-Untouched :
      {A : Type 0} (f : D.State → Result D.ApiError A)
      → Simulates (Untouched D s0) (Untouched D s0) (asks D f) (asks D f)
  asks-Untouched f s t a s' r e =
      let there : t.daemon ≡ s.daemon = r.1.0 ∙ sym r.0 in
      let same : s' ≡ s = sym (ap (λ x. x.1) e) in
      (t, ap (λ d. (from_api D (f d), t)) there ∙ ap (λ x. (x.0, t)) e, rw same r)

  pub Untouched-forget :
      (m n : Call D (Unit {0})) (Q : Here D s0 → Here D s0 → Type 0)
      → Simulates (Agree D s0 Same) Q m n
      → Simulates (Untouched D s0) Q m n
  Untouched-forget m n Q h s t a s' r e = h s t a s' r.1 e
