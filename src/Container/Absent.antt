-- ===== src/Container/Absent.antt =====
-- `absent` in check mode and outside it.
use openstack_osa_office_clu.Prelude.{
  ℕ, Bool, true, false, some, none, String, ◌≡◌, refl, sym, ap, ◌∙◌, arith, ok, err, Result,
  Result-cases, inl, inr,
}
use openstack_osa_office_clu.Prelude.Programs.{Program, bind-eq-ok, continue_with}
use openstack_osa_office_clu.Prelude.Methods.{pure, modify, reads, ◌>>=◌, choose}
use openstack_osa_office_clu.Network.Config.{IpAddresses}
use openstack_osa_office_clu.Container.{Container, Params, absent}
use openstack_osa_office_clu.Container.Driver.{
  Clock, Driver, Setup, Session, Stop, Here, posts, or_stop, uncaught, unless_check,
}
use openstack_osa_office_clu.Container.Actions
use openstack_osa_office_clu.Container.Manager

-- Whenever the one block returns, so does the other, with another daemon, with the same changes.
record Agrees {E A V O S : Type 0} (m n : Program E (Session V O S) A) : Type 0 where
  agreed :
      (s t : Session V O S) (d : S) (a : A)
      → m s ≡ (ok a, t)
      → n (record s { daemon = d }) ≡ (ok a, record t { daemon = d })

module _ {E V O S : Type 0} where
  abbrev with_daemon : {A : Type 0} → S → Result E A × Session V O S → Result E A × Session V O S
  with_daemon d r = (r.0, record r.1 { daemon = d })

  pure-Agrees : {A : Type 0} (a : A) → Agrees {E = E} {V = V} {O = O} {S = S} (pure a) (pure a)
  unfolding pure
  pure-Agrees a = record { agreed = λ s t d b e. ap (with_daemon d) e }

  modify-Agrees :
      (f : Session V O S → Session V O S)
      → ((s : Session V O S) (d : S) → f (record s { daemon = d }) ≡ record (f s) { daemon = d })
      → Agrees {E = E} (modify f) (modify f)
  unfolding modify
  modify-Agrees f h = record {
    agreed = λ s t d b e. ap (λ x. (ok tt, x)) (h s d) ∙ ap (with_daemon d) e;
  }

  bind-Agrees :
      {A B : Type 0} {m n : Program E (Session V O S) A} {f g : A → Program E (Session V O S) B}
      → Agrees m n
      → ((a : A) → Agrees (f a) (g a))
      → Agrees (m >>= f) (n >>= g)
  unfolding ◌>>=◌
  bind-Agrees {m = m} {n = n} {f = f} {g = g} h k = record {
    agreed = λ s t d b e.
        let (a, u, e1, e2) = bind-eq-ok f (m s) e in
        ap (continue_with g) (h.agreed s u d a e1) ∙ (k a).agreed u t d b e2;
  }

  choose-Agrees :
      {A : Type 0} (b : Bool) {m n j k : Program E (Session V O S) A}
      → Agrees m n
      → Agrees j k
      → Agrees (choose b m j) (choose b n k)
  unfolding choose
  choose-Agrees true h l = h
  choose-Agrees false h l = l

ruleset agrees_rules = (pure-Agrees, modify-Agrees, bind-Agrees, choose-Agrees)

module _ {Value : Type 0} (K : Clock) (D : Driver K.Seconds)
    (setup : Setup Value D.Image D.Host D.CreateParameters D.UpdateParameters)
    (p : Params K.Seconds) (ip : IpAddresses) (fuel : ℕ) where
  -- The same parameters, in check mode.
  abbrev checking : Params K.Seconds
  checking = record p { check_mode = true }

  posts-Agrees :
      (b : Bool) (stop : D.Failure → Stop D.Failure)
      (f : D.State → Result D.Failure (Unit {0}) × D.State)
      → Agrees {V = Value} (choose b (pure tt) (posts D Value stop f)) (pure tt)
  unfolding choose posts pure
  posts-Agrees true stop f = pure-Agrees tt
  posts-Agrees false stop f = record {
    agreed = λ s t d b e. ap (λ r. (ok tt, record r.1 { daemon = d })) e;
  }

  unless_check-Agrees :
      (stop : D.Failure → Stop D.Failure) (f : D.State → Result D.Failure (Unit {0}) × D.State)
      → Agrees
          (unless_check D Value p (posts D Value stop f))
          (unless_check D Value checking (posts D Value stop f))
  unfolding choose
  unless_check-Agrees stop f = posts-Agrees p.check_mode stop f

  container_stop-Agrees :
      (id : String)
      → Agrees (Actions.container_stop D setup p id) (Actions.container_stop D setup checking id)
  unfolding Actions.container_stop Actions.container_kill
  container_stop-Agrees id = search (agrees_rules, unless_check-Agrees) depth 8

  container_remove-Agrees :
      (id : String) (force : Bool)
      → Agrees
          (Actions.container_remove D setup p id force)
          (Actions.container_remove D setup checking id force)
  unfolding Actions.container_remove
  container_remove-Agrees id force = search (agrees_rules, unless_check-Agrees) depth 8

  remove_found-Agrees :
      (c : Container)
      → Agrees
          (Manager.remove_found K D setup p ip fuel c)
          (Manager.remove_found K D setup checking ip fuel c)
  unfolding Manager.remove_found
  remove_found-Agrees none = search agrees_rules
  remove_found-Agrees (some i) =
      search (agrees_rules, container_stop-Agrees, container_remove-Agrees) depth 8

  be_absent-found :
      (q : Params K.Seconds) (s : Here D Value) (c : Container)
      → q.name ≡ p.name
      → D.inspect_container_by_name p.name s.daemon ≡ ok c
      → Manager.be_absent K D setup q ip fuel s ≡ Manager.remove_found K D setup q ip fuel c s
  unfolding Manager.be_absent Actions.get_container ◌>>=◌ reads
  be_absent-found q s c n e =
      ap
        (λ name.
          continue_with (Manager.remove_found K D setup q ip fuel)
            (or_stop D Value uncaught (D.inspect_container_by_name name s.daemon), s))
        n
      ∙ ap
          (λ r.
            continue_with (Manager.remove_found K D setup q ip fuel)
              (or_stop D Value uncaught r, s))
          e

  be_absent-failed :
      (s t : Here D Value) (x : D.Failure)
      → D.inspect_container_by_name p.name s.daemon ≡ err x
      → Manager.be_absent K D setup p ip fuel s ≡ (ok tt, t)
      → ⊥
  unfolding Manager.be_absent Actions.get_container ◌>>=◌ reads
  be_absent-failed s t x e g = ground (
    arith,
    sym (
          ap
            (λ r.
              continue_with (Manager.remove_found K D setup p ip fuel)
                (or_stop D Value uncaught r, s))
            e)
        ∙ g,
  )

  be_absent-Agrees :
      (s t : Here D Value)
      → Manager.be_absent K D setup p ip fuel s ≡ (ok tt, t)
      → Manager.be_absent K D setup checking ip fuel s ≡ (ok tt, record t { daemon = s.daemon })
  be_absent-Agrees s t h = elim (Result-cases (D.inspect_container_by_name p.name s.daemon)) [
    | inl (c, e) ↦
        be_absent-found checking s c refl e
        ∙ (remove_found-Agrees c).agreed s t s.daemon tt (sym (be_absent-found p s c refl e) ∙ h)
    | inr (x, e) ↦ absurd (be_absent-failed s t x e h)
  ]

  -- Wherever a run for `absent` returns, the run in check mode with the same parameters returns too,
  -- with the same actions, the same differences and the same `changed`: nothing but the daemon
  -- differs, which the run in check mode has left as it was.
  pub absent-agree :
      (s t : Here D Value)
      → p.target ≡ absent
      → Manager.run K D setup p ip fuel s ≡ (ok tt, t)
      → Manager.run K D setup checking ip fuel s ≡ (ok tt, record t { daemon = s.daemon })
  unfolding Manager.run Manager.be
  absent-agree s t a h =
      ap (λ x. Manager.be K D setup checking ip fuel x s) a
      ∙ be_absent-Agrees s t (ap (λ x. Manager.be K D setup p ip fuel x s) (sym a) ∙ h)
