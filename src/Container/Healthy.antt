-- ===== src/Container/Healthy.antt =====
-- What a run that asks for a healthy container ends with.
use openstack_osa_office_clu.Prelude.{
  ℕ, zero, suc, true, false, not, ◌&&◌, ◌||◌, some, none, Option, String, string_eq, ok,
  Result-cases, ◌≡◌, ◌⊎◌, refl, sym, arith, Bool-cases, inl, inr,
}
use mathlib.Core.Path.{subst}
use openstack_osa_office_clu.Prelude.Methods.{pure, raise, modify, reads, ◌>>=◌}
use openstack_osa_office_clu.Prelude.Hoare.{
  OnReturn, Ensures, bind-Ensures, bind-after-Ensures, choose-true-Ensures, OnReturn-ok,
}
use openstack_osa_office_clu.Container.Prepare
use openstack_osa_office_clu.Container.Manager
use openstack_osa_office_clu.Container.Actions.{Raw}
use openstack_osa_office_clu.Network.Config.{IpAddresses}
use openstack_osa_office_clu.Container.{Container, Inspection, Params, healthy}
use openstack_osa_office_clu.Container.Driver.{Clock, Driver, Setup, Here}
use openstack_osa_office_clu.Container.Waiting.{
  Wait, wait_rounds, wait_for_state, IsAwaited, status_in, within_states, Round, is_complete,
  is_expected, look_at, wait_at_most, wait_then,
}

module _ (K : Clock) (D : Driver K.Seconds) (Value : Type 0) (w : Wait K.Seconds)
    (id : String) where
  -- The daemon has the container, and it is as awaited.
  abbrev pub IsReached : Container → Here D Value → Type 0
  IsReached c s = (D.inspect_container_by_id id s.daemon ≡ ok c) × IsAwaited K D Value w id c

  wait_then-Reached :
      (again : Round K D Value w id) (delay total : K.Seconds) (s : Here D Value)
      → ((delay total : K.Seconds) → Ensures IsReached (again delay total))
      → OnReturn IsReached (wait_then K D Value w id again delay total s)
  unfolding ◌>>=◌ modify
  wait_then-Reached again delay total s h =
      (h (K.longer delay) (K.add total delay)).holds (record s { daemon = D.sleep delay s.daemon })

  wait_at_most-Reached :
      (limit : Option K.Seconds) (again : Round K D Value w id) (delay total : K.Seconds)
      (s : Here D Value)
      → ((delay total : K.Seconds) → Ensures IsReached (again delay total))
      → OnReturn IsReached (wait_at_most K D Value w id limit again delay total s)
  unfolding raise
  wait_at_most-Reached none again delay total s h = wait_then-Reached again delay total s h
  wait_at_most-Reached (some limit) again delay total s h =
      elim (Bool-cases (K.above total limit || K.too_short delay)) [
        | inl e ↦ rw e tt
        | inr e ↦ rw e (wait_then-Reached again _ total s h)
      ]

  look_at-Reached :
      (c : Container) (again : Round K D Value w id) (delay total : K.Seconds) (s : Here D Value)
      → D.inspect_container_by_id id s.daemon ≡ ok c
      → ((delay total : K.Seconds) → Ensures IsReached (again delay total))
      → OnReturn IsReached (look_at K D Value w id again delay total c s)
  unfolding raise pure
  look_at-Reached none again delay total s e h = elim (Bool-cases w.accept_removal) [
    | inl a ↦ rw a (e, refl)
    | inr a ↦ rw a tt
  ]
  look_at-Reached (some i) again delay total s e h =
      elim (Bool-cases (is_complete K D Value w id i)) [
        | inl c ↦ rw c (e, c)
        | inr c ↦ elim (Bool-cases (is_expected K D Value w id i)) [
          | inl x ↦ rw (c, x) (wait_at_most-Reached w.max_wait again delay total s h)
          | inr x ↦ rw (c, x) tt
        ]
      ]

  wait_rounds-Ensures :
      (fuel : ℕ) (delay total : K.Seconds)
      → Ensures IsReached (wait_rounds K D Value w id fuel delay total)
  unfolding wait_rounds ◌>>=◌ reads raise
  wait_rounds-Ensures zero delay total = record { holds = λ s. tt }
  wait_rounds-Ensures (suc fuel) delay total = record {
    holds = λ s. elim (Result-cases (D.inspect_container_by_id id s.daemon)) [
      | inl (c, e) ↦ rw e (
          look_at-Reached c (wait_rounds K D Value w id fuel) delay total s e
            (wait_rounds-Ensures fuel))
      | inr (x, e) ↦ rw e tt
    ];
  }

  -- What `wait_for_state` returns is as awaited, and the daemon's own answer in the state that it
  -- leaves, however long it had to wait.
  pub wait_for_state-Ensures : (fuel : ℕ) → Ensures IsReached (wait_for_state K D Value w id fuel)
  unfolding wait_for_state
  wait_for_state-Ensures fuel = wait_rounds-Ensures fuel K.one_second K.zero_seconds

module _ {Value : Type 0} (K : Clock) (D : Driver K.Seconds)
    (setup : Setup Value D.Image D.Host D.CreateParameters D.UpdateParameters)
    (p : Params K.Seconds) (ip : IpAddresses) (fuel : ℕ) where
  -- The facts are the daemon's answer for a container whose health check, if there is one, says
  -- that it is healthy.
  abbrev pub IsHealthy : Here D Value → Type 0
  IsHealthy s =
      (id : String) × (i : Inspection) × (s.facts ≡ (some i, none))
      × (D.inspect_container_by_id id s.daemon ≡ ok (some i))
      × ((status_in true i.state ≡ some "healthy") ⊎ (status_in true i.state ≡ none))

  awaited_status :
      (state : Option String)
      → within_states false (Prepare.until_healthy p).complete_states state ≡ true
      → (state ≡ some "healthy") ⊎ (state ≡ none)
  awaited_status none h = inr refl
  awaited_status (some t) h = inl (ground (arith, string_eq.beq_iff t "healthy"))

  facts_of-Healthy :
      (id : String) (c : Container) (s : Here D Value)
      → IsReached K D Value (Prepare.until_healthy p) id c s
      → OnReturn (λ _. IsHealthy) (Manager.facts_of K D setup p ip fuel c s)
  unfolding modify
  facts_of-Healthy id none s (e, h) = absurd (ground arith)
  facts_of-Healthy id (some i) s (e, h) =
      (id, i, refl, e, awaited_status (status_in true i.state) h)

  wait_if_healthy-Ensures :
      (raw : Raw D.Output)
      → p.target ≡ healthy
      → p.check_mode ≡ false
      → Ensures (λ _. IsHealthy) (Manager.wait_if_healthy K D setup p ip fuel raw)
  unfolding Manager.wait_if_healthy
  wait_if_healthy-Ensures raw t c =
      choose-true-Ensures (Prepare.wants_healthy p.target && not p.check_mode) _ (rw (t, c) refl) (
        bind-Ensures _ _ _ (λ id.
          bind-after-Ensures _ _ _
            (wait_for_state-Ensures K D Value (Prepare.until_healthy p) id fuel)
            (facts_of-Healthy id)))

  be_present-Ensures :
      p.target ≡ healthy
      → p.check_mode ≡ false
      → Ensures (λ _. IsHealthy) (Manager.be_present K D setup p ip fuel)
  unfolding Manager.be_present
  be_present-Ensures t c = search (bind-Ensures, wait_if_healthy-Ensures) depth 9

  -- A run that asks for a healthy container and returns, outside check mode, has as its facts what
  -- the daemon says of a container at that point, and its health check says `healthy`, or it has none.
  pub run-Healthy :
      (s t : Here D Value)
      → p.target ≡ healthy
      → p.check_mode ≡ false
      → Manager.run K D setup p ip fuel s ≡ (ok tt, t)
      → IsHealthy t
  unfolding Manager.run Manager.be
  run-Healthy s t h c e =
      OnReturn-ok (λ _. IsHealthy) _ tt t e
        (subst (λ x. OnReturn (λ _. IsHealthy) (Manager.be K D setup p ip fuel x s)) (sym h)
          ((be_present-Ensures h c).holds s))
