-- ===== src/Configs/Removal.antt =====
-- docker_config with rolling versions: the old versions that `remove_old_versions` removes.
use openstack_osa_office_clu.Prelude.{
  ℕ, suc, true, false, List, [], ◌∷◌, ◌++◌, if◌then◌else◌, ok, ◌≡◌, refl, sym, ap, ◌∙◌, arith,
  Bool-cases, inl, inr, length, ltb, larger,
}
use openstack_osa_office_clu.Prelude.Int.{pos}
use openstack_osa_office_clu.Prelude.Programs.{continue_with, for_each, bind-eq-ok}
use openstack_osa_office_clu.Configs.{
  Config, Params, Swarm, Here, posts, remove_config, remove_while, at_least_one, remove_beyond,
  remove_old_versions,
}

-- The smaller of two numbers.
abbrev smaller : ℕ → ℕ → ℕ
smaller n m = if ltb m n then m else n

nothing_beyond : (n : ℕ) → 0 ≡ smaller 0 n
nothing_beyond n = ground arith

smaller-suc : (n m : ℕ) → ltb n (suc m) ≡ true → smaller m n ≡ smaller (suc m) n
smaller-suc n m h = ground arith

smaller_same : (n m : ℕ) → ltb n m ≡ false → m ≡ smaller m n
smaller_same n m h = ground arith

module _ (D : Swarm) where
  -- The first of these configs were removed from the swarm, in order, and as many as `limit` are
  -- left.
  abbrev pub IsTrimmed : ℕ → List Config → D.State → Here D → Type 0
  IsTrimmed limit before st s =
      (gone : List Config) × (before ≡ gone ++ s.configs)
      × (length s.configs ≡ smaller (length before) limit)
      × (for_each (λ c. D.remove c.id) gone st ≡ (ok tt, s.swarm))

  module _ (p : Params) (acts : p.check_mode ≡ false) where
    remove_config_acts :
        (c : Config) (s : Here D) → remove_config D p c s ≡ posts D (D.remove c.id) s
    remove_config_acts c s = rw acts refl

    IsTrimmed-nothing :
        (limit : ℕ) (cs : List Config) (s s' : Here D)
        → s.configs ≡ cs
        → length cs ≡ smaller (length cs) limit
        → s ≡ s'
        → IsTrimmed limit cs s.swarm s'
    unfolding for_each
    IsTrimmed-nothing limit cs s s' h n same = (
      [],
      sym h ∙ ap (λ x. x.configs) same,
      ap (λ x. length x.configs) (sym same) ∙ ap length h ∙ n,
      ap (λ x. (ok tt, x.swarm)) same,
    )

    IsTrimmed-one :
        (limit : ℕ) (c : Config) (cs : List Config) (st st' : D.State) (s' : Here D)
        → ltb limit (length (c ∷ cs)) ≡ true
        → D.remove c.id st ≡ (ok tt, st')
        → IsTrimmed limit cs st' s'
        → IsTrimmed limit (c ∷ cs) st s'
    unfolding for_each
    IsTrimmed-one limit c cs st st' s' g acted (gone, split, kept, removed) = (
      c ∷ gone,
      ap (λ ds. c ∷ ds) split,
      kept ∙ smaller-suc limit (length cs) g,
      ap (continue_with (λ _. for_each (λ x. D.remove x.id) gone)) acted ∙ removed,
    )

    remove_while-IsTrimmed :
        (limit : ℕ) (cs : List Config) (s s' : Here D)
        → s.configs ≡ cs
        → remove_while D limit p cs s ≡ (ok tt, s')
        → IsTrimmed limit cs s.swarm s'
    unfolding remove_while
    remove_while-IsTrimmed limit [] s s' h e =
        IsTrimmed-nothing limit [] s s' h (nothing_beyond limit) (ap (λ x. x.1) e)
    remove_while-IsTrimmed limit (c ∷ cs) s s' h e =
        elim (Bool-cases (ltb limit (length (c ∷ cs)))) [
          | inl g ↦
              let rest = remove_while D limit p cs in
              let begun : continue_with (λ _. rest)
                    (remove_config D p c (record s { configs = cs }))
                  ≡ (ok tt, s') =
                rw g at e in
              let (u, t, e1, e2) = bind-eq-ok (λ _. rest) _ begun in
              let acted : posts D (D.remove c.id) (record s { configs = cs }) ≡ (ok u, t) =
                sym (remove_config_acts c (record s { configs = cs })) ∙ e1 in
              IsTrimmed-one limit c cs s.swarm t.swarm s' g (ap (λ x. (x.0, x.1.swarm)) acted)
                (remove_while-IsTrimmed limit cs t s' (sym (ap (λ x. x.1.configs) acted)) e2)
          | inr g ↦
              IsTrimmed-nothing limit (c ∷ cs) s s' h (smaller_same limit (length (c ∷ cs)) g)
                (ap (λ x. x.1) (rw g at e))
        ]

    remove_beyond_acts :
        (n : ℕ) (s : Here D)
        → remove_beyond D p (pos n) s ≡ remove_while D (at_least_one D n) p s.configs s
    remove_beyond_acts n s = rw acts refl

    at_least_one_lem : (keep : ℕ) → at_least_one D keep ≡ larger keep 1
    at_least_one_lem keep = refl

    -- With rolling versions, outside check mode, and `versions_to_keep` not negative: where
    -- `remove_old_versions` returns, it has removed the first configs of the list, in order, and kept
    -- the last `max(versions_to_keep, 1)` of them, or all where there are no more than that.
    pub remove_old_versions-IsTrimmed :
        (keep : ℕ) (s s' : Here D)
        → p.rolling_versions ≡ true
        → p.versions_to_keep ≡ pos keep
        → remove_old_versions D p s ≡ (ok tt, s')
        → IsTrimmed (larger keep 1) s.configs s.swarm s'
    unfolding remove_old_versions
    remove_old_versions-IsTrimmed keep s s' rolling kept e =
        let e1 : remove_beyond D p p.versions_to_keep s ≡ (ok tt, s') = rw rolling at e in
        let e2 : remove_beyond D p (pos keep) s ≡ (ok tt, s') =
          ap (λ n. remove_beyond D p n s) (sym kept) ∙ e1 in
        let e3 : remove_while D (larger keep 1) p s.configs s ≡ (ok tt, s') =
          ap (λ n. remove_while D n p s.configs s) (sym (at_least_one_lem keep))
          ∙ sym (remove_beyond_acts keep s)
          ∙ e2 in
        remove_while-IsTrimmed (larger keep 1) s.configs s s' refl e3
