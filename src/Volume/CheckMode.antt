-- ===== src/Volume/CheckMode.antt =====
-- docker_volume in check mode, against the run outside it.
use openstack_osa_office_clu.Prelude.{
  true, some, none, Option, ok, err, ◌≡◌, ◌∙◌, sym, ap, refl, arith, inl, inr, Bool-cases,
  Option-cases,
}
use openstack_osa_office_clu.Util.Differences.{Tracker}
use openstack_osa_office_clu.Volume.{
  Daemon, Volume, Manager, Params, Shown, Run, run, do_present, do_absent, get_existing_volume,
  remove_volume, create_volume, recreate_volume, report, post_volume, dispatch, present, absent,
  start, ◌>>=◌, differences_of, must_recreate, Target, add_differences, pop_actions, act, created,
}

abbrev pub in_check_mode : Params → Params
in_check_mode p = record p { check_mode = true }

module _ (D : Daemon) where
  >>=_state :
      {A B : Type 0} (r : Run D A) (f : A → D.State → Run D B) (s : D.State)
      → r.1 ≡ s
      → ((a : A) → (f a s).1 ≡ s)
      → (◌>>=◌ D r f).1 ≡ s
  >>=_state (ok a, t) f s e h = rw e (h a)
  >>=_state (err x, t) f s e h = e

  pub get_existing_volume_state : (p : Params) (s : D.State) → (get_existing_volume D p s).1 ≡ s
  unfolding get_existing_volume
  get_existing_volume_state p s = ground arith

  module _ (p : Params) (check : p.check_mode ≡ true) where
    remove_volume_check : (m : Manager) (s : D.State) → (remove_volume D p m s).1 ≡ s
    unfolding remove_volume
    remove_volume_check m s = ground arith

    create_volume_check : (m : Manager) (s : D.State) → (create_volume D p m s).1 ≡ s
    unfolding create_volume
    create_volume_check m s = ground arith

    recreate_volume_check :
        (d : Tracker Shown) (m : Manager) (s : D.State) → (recreate_volume D p d m s).1 ≡ s
    unfolding recreate_volume
    recreate_volume_check d m s = elim (Bool-cases (must_recreate D p d)) [
      | inl e ↦ rw e (>>=_state (remove_volume D p m s) _ s (remove_volume_check m s) (λ m'. refl))
      | inr e ↦ rw e
    ]

    report_state : (d : Tracker Shown) (m : Manager) (s : D.State) → (report D p d m s).1 ≡ s
    unfolding report
    report_state d m s =
        >>=_state (get_existing_volume D p s) _ s (get_existing_volume_state p s) (λ v. refl)

    do_present_check : (m : Manager) (s : D.State) → (do_present D p m s).1 ≡ s
    unfolding do_present
    do_present_check m s =
        >>=_state (recreate_volume D p _ _ s) _ s (recreate_volume_check _ _ s) λ m1.
          >>=_state (create_volume D p m1 s) _ s (create_volume_check m1 s)
            λ m2. report_state _ m2 s

    dispatch_check : (t : Target) (m : Manager) (s : D.State) → (dispatch D t p m s).1 ≡ s
    dispatch_check present m s = do_present_check m s
    dispatch_check absent m s = unfold do_absent in remove_volume_check _ s

    -- In check mode a run leaves the daemon as it was, whatever its result.
    pub run_check : (s : D.State) → (run D p s).1 ≡ s
    unfolding run
    run_check s =
        >>=_state (get_existing_volume D p s) _ s (get_existing_volume_state p s)
          (λ v. dispatch_check p.target (start D v) s)

  pub >>=-eq-ok_run :
      {A B : Type 0} (r : Run D A) (f : A → D.State → Run D B) {b : B} {s' : D.State}
      → ◌>>=◌ D r f ≡ (ok b, s')
      → (a : A) × (t : D.State) × (r ≡ (ok a, t)) × (f a t ≡ (ok b, s'))
  >>=-eq-ok_run (ok a, t) f e = (a, t, refl, e)
  >>=-eq-ok_run (err x, t) f e = absurd (ground arith)

  -- A removal that succeeds is reported in check mode with the same fields.
  remove_volume_agrees :
      (p : Params) (m n : Manager) (s s' t : D.State)
      → remove_volume D p m s ≡ (ok n, s')
      → remove_volume D (in_check_mode p) m t ≡ (ok n, t)
  unfolding remove_volume
  remove_volume_agrees p m n s s' t h = ground arith

  recreate_volume_agrees :
      (p : Params) (d : Tracker Shown) (m n : Manager) (s s' t : D.State)
      → recreate_volume D p d m s ≡ (ok n, s')
      → recreate_volume D (in_check_mode p) d m t ≡ (ok n, t)
  unfolding recreate_volume
  recreate_volume_agrees p d m n s s' t h = elim (Bool-cases (must_recreate D p d)) [
    | inl e ↦
        let begun : (◌>>=◌ D (remove_volume D p m s)
              (λ m' s1. (ok (record m' { existing = none }), s1)))
            ≡ (ok n, s') =
          rw e at h in
        let (m', s1, f, g) = >>=-eq-ok_run (remove_volume D p m s) _ begun in
        rw e (rw (remove_volume_agrees p m m' s s1 t f) (ground arith))
    | inr e ↦ rw e (ground arith)
  ]

  -- What two managers have reported.
  abbrev pub Agrees : Manager → Manager → Type 0
  Agrees m n = (n.changed ≡ m.changed) × (n.actions ≡ m.actions)

  create_volume-Agrees :
      (p : Params) (m n : Manager) (s s' t : D.State)
      → create_volume D p m s ≡ (ok n, s')
      → (n' : Manager) × (create_volume D (in_check_mode p) m t ≡ (ok n', t)) × Agrees n n'
  unfolding create_volume
  create_volume-Agrees p m n s s' t h = elim (Option-cases m.existing) [
    | inr (v, e) ↦ (m, ground arith, ground arith)
    | inl e ↦
        let claimed = act D (created p.volume_name p.driver) m in
        elim (Bool-cases p.check_mode) [
          | inl c ↦ (claimed, ground arith, ground arith)
          | inr c ↦
              let begun : (◌>>=◌ D (post_volume D p s) (λ v s1.
                (ok (act D (created p.volume_name p.driver) (record m { existing = some v })), s1)))
                  ≡ (ok n, s') =
                ground arith in
              let (v, s1, f, g) = >>=-eq-ok_run (post_volume D p s) _ begun in
              (claimed, ground arith, ground arith)
        ]
  ]

  pub add_differences-Agrees :
      (p : Params) (d : Tracker Shown) (m : Manager) → Agrees m (add_differences D p d m)
  unfolding add_differences
  add_differences-Agrees p d m = ground arith

  pub pop_actions-Agrees : (p : Params) (m : Manager) → Agrees m (pop_actions D p m)
  unfolding pop_actions
  pop_actions-Agrees p m = ground arith

  report-Agrees :
      (p : Params) (d : Tracker Shown) (m m' n : Manager) (s s' t : D.State) (v : Option Volume)
      → get_existing_volume D p t ≡ (ok v, t)
      → report D p d m s ≡ (ok n, s')
      → Agrees m m'
      → (n' : Manager) × (report D (in_check_mode p) d m' t ≡ (ok n', t)) × Agrees n n'
  unfolding report
  report-Agrees p d m m' n s s' t v l h a =
      let (w, s1, f, g) = >>=-eq-ok_run (get_existing_volume D p s) _ h in
      let q = in_check_mode p in
      let a1 = add_differences-Agrees q d m' in
      let a2 = pop_actions-Agrees q (add_differences D q d m') in
      let b1 = add_differences-Agrees p d m in
      let b2 = pop_actions-Agrees p (add_differences D p d m) in
      let end : n ≡ record (pop_actions D p (add_differences D p d m)) { volume = some w } =
        ground arith in
      (
        record (pop_actions D q (add_differences D q d m')) { volume = some v },
        ground arith,
        ground arith,
      )

  do_present-Agrees :
      (p : Params) (m n : Manager) (s s' t : D.State) (v : Option Volume)
      → get_existing_volume D p t ≡ (ok v, t)
      → do_present D p m s ≡ (ok n, s')
      → (n' : Manager) × (do_present D (in_check_mode p) m t ≡ (ok n', t)) × Agrees n n'
  unfolding do_present
  do_present-Agrees p m n s s' t v l h =
      let (m1, s1, f, g) = >>=-eq-ok_run (recreate_volume D p _ _ s) _ h in
      let (m2, s2, f2, g2) = >>=-eq-ok_run (create_volume D p m1 s1) _ g in
      let (n2, k, a) = create_volume-Agrees p m1 m2 s1 s2 t f2 in
      let (n3, k3, a3) = report-Agrees p (differences_of D p m) m2 n2 n s2 s' t v l g2 a in
      (n3, rw (recreate_volume_agrees p _ _ m1 s s1 t f) (rw k k3), a3)

  dispatch-Agrees :
      (x : Target) (p : Params) (m n : Manager) (s s' t : D.State) (v : Option Volume)
      → get_existing_volume D p t ≡ (ok v, t)
      → dispatch D x p m s ≡ (ok n, s')
      → (n' : Manager) × (dispatch D x (in_check_mode p) m t ≡ (ok n', t)) × Agrees n n'
  dispatch-Agrees present p m n s s' t v l h = do_present-Agrees p m n s s' t v l h
  dispatch-Agrees absent p m n s s' t v l h =
      (n, unfold do_absent in remove_volume_agrees p _ n s s' t h, (refl, refl))

  get_existing_volume-in_check_mode :
      (p : Params) (s : D.State)
      → get_existing_volume D (in_check_mode p) s ≡ get_existing_volume D p s
  unfolding get_existing_volume
  get_existing_volume-in_check_mode p s = refl

  -- Where a run succeeds, the same run in check mode succeeds too, leaves the daemon as it was, and
  -- reports the same `changed` and the same actions.
  pub run-in_check_mode :
      (p : Params) (s : D.State) {m : Manager} {s' : D.State}
      → run D p s ≡ (ok m, s')
      → (m' : Manager) × (run D (in_check_mode p) s ≡ (ok m', s))
        × (m'.changed ≡ m.changed)
        × (m'.actions ≡ m.actions)
  unfolding run
  run-in_check_mode p s {m} {s'} h =
      let (v, s1, f, g) = >>=-eq-ok_run (get_existing_volume D p s) _ h in
      let same : s1 ≡ s = sym (ap (λ r. r.1) f) ∙ get_existing_volume_state p s in
      let listed : get_existing_volume D p s ≡ (ok v, s) = f ∙ ap (λ x. (ok v, x)) same in
      let (m', k, a) = dispatch-Agrees p.target p (start D v) m s1 s' s v listed g in
      (m', rw (get_existing_volume-in_check_mode p s) (rw listed k), a.0, a.1)
