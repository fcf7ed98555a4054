-- ===== src/Service/Runs.antt =====
-- Runs of docker_swarm_service: check mode and the retries.
use openstack_osa_office_clu.Prelude.{
  ℕ, zero, suc, ◌≤◌, true, false, some, none, Option, Result, ok, err, ◌≡◌, ◌⊎◌, refl, ap, arith,
  Bool-cases, inl, inr,
}
use openstack_osa_office_clu.Prelude.Methods.{Keeps, keeps_rules}
use openstack_osa_office_clu.Service.{Values, DockerService}
use openstack_osa_office_clu.Service.Manager
use openstack_osa_office_clu.Service.Manager.{unchanged, forcefully_updated}

module _ {V : Type 0} (values : Values V) (no_test : V) (C : Manager.Client V)
    (p : Manager.Params) where
  run_with-Keeps :
      (new : DockerService V) (o : Option (DockerService V))
      → p.check_mode ≡ true
      → Keeps (λ s. s) (Manager.run_with values no_test C p new o)
  unfolding Manager.run_with Manager.apply Manager.replace Manager.update
  run_with-Keeps new none h = search keeps_rules depth 7
  run_with-Keeps new (some current) h = search keeps_rules depth 9

  -- In check mode, a run leaves the swarm as it is, whatever it returns.
  pub run-check : (s : C.State) → p.check_mode ≡ true → (Manager.run values no_test C p s).1 ≡ s
  unfolding Manager.run Manager.get_image_digest
  run-check s h = quiet.same s
    where
      quiet : Keeps (λ s. s) (Manager.run values no_test C p)
      quiet = search (keeps_rules, run_with-Keeps) depth 8

  -- `k` runs in a row that end with an update out of sequence, each followed by the sleep.
  pub data Attempts : ℕ → C.State → C.State → Type 0 where
    no_more : {s : C.State} → Attempts zero s s
    once_more :
        {k : ℕ} {s t u : C.State} (e : Manager.Stop C.Failure)
        → Manager.run values no_test C p s ≡ (err e, t)
        → Manager.is_retried values no_test C p e ≡ true
        → Attempts k (C.sleep t) u
        → Attempts (suc k) s u

  abbrev pub IsFinal : Result (Manager.Stop C.Failure) Manager.Answer × C.State → Type 0
  IsFinal (ok a, s) = Unit
  IsFinal (err e, s) = Manager.is_retried values no_test C p e ≡ false

  -- The last of the runs of `run_safe`, from the state `s`.
  abbrev pub Ends : ℕ → C.State → Type 0
  Ends retries s =
      (k : ℕ) × (u : C.State) × (k ≤ retries)
      × Attempts k s u
      × (Manager.run_safe values no_test C p retries s ≡ Manager.run values no_test C p u)
      × ((k ≡ retries) ⊎ IsFinal (Manager.run values no_test C p u))

  run_safe-suc :
      (retries : ℕ) (s : C.State) (r : Result (Manager.Stop C.Failure) Manager.Answer × C.State)
      → Manager.run values no_test C p s ≡ r
      → ((t : C.State) → Ends retries t)
      → Ends (suc retries) s
  unfolding Manager.run_safe
  run_safe-suc retries s (ok a, t) h rest =
      (zero, s, omega arith, no_more, rw h refl, inr (rw h tt))
  run_safe-suc retries s (err e, t) h rest =
      elim (Bool-cases (Manager.is_retried values no_test C p e)) [
        | inl y ↦
            let (k, u, l, a, q, f) = rest (C.sleep t) in
            (
              suc k,
              u,
              omega arith,
              once_more e h y a,
              rw (h, y) q,
              elim f [ inl z ↦ inl (ap suc z) | inr z ↦ inr z ],
            )
        | inr y ↦ (zero, s, omega arith, no_more, rw (h, y) refl, inr (rw h y))
      ]

  -- `run_safe` runs at most once more than it has retries: its answer is that of the last run, every
  -- run before that one ended out of sequence, and if retries were left the last one did not.
  pub run_safe-Ends : (retries : ℕ) (s : C.State) → Ends retries s
  unfolding Manager.run_safe
  run_safe-Ends zero s = (zero, s, omega arith, no_more, refl, inl refl)
  run_safe-Ends (suc retries) s =
      run_safe-suc retries s (Manager.run values no_test C p s) refl (run_safe-Ends retries)
