-- ===== src/Configs/Versions.antt =====
-- docker_config with rolling versions: the name, the label and the version of a new config.
use openstack_osa_office_clu.Prelude.{
  Bool, true, false, ◌||◌, List, [], ◌∷◌, ◌++◌, if◌then◌else◌, some, none, ok, ◌≡◌, refl, sym, ap,
  ◌∙◌, arith, All, Bool-cases, inl, inr, Option-cases,
}
use openstack_osa_office_clu.Prelude.Text.{Text, codes}
use openstack_osa_office_clu.Prelude.Int.{ℤ, show_ℤ, suc_ℤ, ◌≤ℤ◌, suc_mono}
use openstack_osa_office_clu.Prelude.Programs.{pure, modify, ◌>>=◌, ◌>>◌, bind-eq-ok}
use openstack_osa_office_clu.Configs.{
  Labels, Created, make_first, update_labels, Config, Params, Swarm, Session, Here, Call,
  get_version, sort, is_prefix, keep_if, own_configs, last, asks, posts, get_config, next_version,
  new_labels, post_config, create_config, absent_config, make_anew, make_if, must_create,
  present_from, present_config, driver_sent, note_version, set_result, warn_without_key, filled,
  or_nil,
}
use openstack_osa_office_clu.Prelude.{string_eq, String, Option}
use openstack_osa_office_clu.Prelude.Dict.{lookup, insert, lookup-cons, lookup-insert}
use openstack_osa_office_clu.Configs.Ordered.{
  IsOrdered, All-map, sort-IsOrdered, sort-All, keep_if-All, last_greatest, last-eq-none,
}

-- Labels that do not have a key leave its value.
lookup-update_labels :
    (k : String) (labels more : Labels)
    → lookup k more ≡ none
    → lookup k (update_labels labels more) ≡ lookup k labels
unfolding update_labels
lookup-update_labels k labels [] h = refl
lookup-update_labels k labels ((j, v) ∷ more) h = ground (
  arith,
  h,
  lookup-cons k j v more,
  lookup-insert k j v labels,
  lookup-update_labels k (insert j v labels) more,
)

module _ (D : Swarm) (p : Params) where
  abbrev version_of : Here D → ℤ
  version_of s = s.version

  -- `create_config` was called for this version of the config, and labels it with the version.
  abbrev pub IsCreated : Text → ℤ → D.State → D.State → Type 0
  IsCreated name version st st' =
      (labels : Labels) × (id : Created) × (D.create (name ++ codes "_v" ++ show_ℤ version)
          p.data_bytes labels (driver_sent p.template_driver) st
        ≡ (ok id, st'))
      × (lookup "ansible_version" labels ≡ some (show_ℤ version))

  -- The version after this one was made.
  abbrev IsNext : Text → ℤ → D.State → Here D → Type 0
  IsNext name version st s = (s.version ≡ suc_ℤ version) × IsCreated name (suc_ℤ version) st s.swarm

  post_config-ok :
      (s t : Here D) {found : Option String}
      → post_config D p s ≡ (ok found, t)
      → (id : Created) × (D.create s.name p.data_bytes
            (new_labels D p s)
            (driver_sent p.template_driver)
            s.swarm
          ≡ (ok id, t.swarm))
        × (t.version ≡ s.version)
  unfolding post_config
  post_config-ok s t e =
      let (id, u, e1, f1) =
        bind-eq-ok _
          (posts D (D.create s.name p.data_bytes (new_labels D p s) (driver_sent p.template_driver))
            s)
          e in
      let (cs, w, e2, f2) = bind-eq-ok _ (asks D (D.configs_by_id id) u) f1 in
      let swarm : t.swarm ≡ u.swarm = sym (ap (λ x. x.1.swarm) f2) ∙ sym (ap (λ x. x.1.swarm) e2) in
      let version : t.version ≡ s.version =
        sym (ap (λ x. x.1.version) f2)
        ∙ sym (ap (λ x. x.1.version) e2)
        ∙ sym (ap (λ x. x.1.version) e1) in
      (id, ap (λ x. (x.0, x.1.swarm)) e1 ∙ ap (λ x. (ok id, x)) (sym swarm), version)

  module _ (rolling : p.rolling_versions ≡ true) (real : p.check_mode ≡ false)
      (unnamed : lookup "ansible_version" (or_nil p.labels) ≡ none) where
    next_version_lem :
        (s : Here D)
        → next_version D p s ≡ record s {
          version = suc_ℤ s.version;
          name = s.name ++ codes "_v" ++ show_ℤ (suc_ℤ s.version);
        }
    next_version_lem s = rw rolling refl

    new_labels-version :
        (s : Here D) → lookup "ansible_version" (new_labels D p s) ≡ some (show_ℤ s.version)
    unfolding new_labels
    new_labels-version s =
        lookup-update_labels "ansible_version" _ (or_nil p.labels) unnamed
        ∙ rw rolling (
            lookup-insert "ansible_version" "ansible_version" (show_ℤ s.version)
              (("ansible_key", D.digest p.data_bytes) ∷ []))

    create_config-IsNext :
        (s t : Here D) {found : Option String}
        → create_config D p s ≡ (ok found, t)
        → IsNext s.name s.version s.swarm t
    unfolding create_config
    create_config-IsNext s t {found} e =
        let n : Here D = record s {
          version = suc_ℤ s.version;
          name = s.name ++ codes "_v" ++ show_ℤ (suc_ℤ s.version);
        } in
        let begun : post_config D p n ≡ (ok found, t) =
          sym (ap (post_config D p) (next_version_lem s)) ∙ rw real at e in
        let (id, made, same) = post_config-ok n t begun in
        (same, (new_labels D p n, id, made, new_labels-version n))

    abbrev make_and_note : Call D (Unit {0})
    make_and_note = create_config D p >>= λ id.
        modify (λ t. set_result D id (some t.name) (record t { changed = true }))

    without_removal :
        (b : Bool) (s : Here D)
        → b ≡ true
        → ((if b then pure tt else absent_config D p) >> create_config D p >>= λ id.
              modify (λ t. set_result D id (some t.name) (record t { changed = true })))
            s
          ≡ make_and_note s
    without_removal true s h = refl
    without_removal false s h = absurd (ground arith)

    noted_later :
        (f : Option String → Here D → Here D) (s s' : Here D)
        → ((id : Option String) (t : Here D)
            → ((f id t).version ≡ t.version) × ((f id t).swarm ≡ t.swarm))
        → (create_config D p >>= λ id. modify (f id)) s ≡ (ok tt, s')
        → IsNext s.name s.version s.swarm s'
    noted_later f s s' h e =
        let (id, u, e1, e2) = bind-eq-ok _ (create_config D p s) e in
        let n = create_config-IsNext s u e1 in
        let version : s'.version ≡ u.version = sym (ap (λ x. x.1.version) e2) ∙ (h id u).0 in
        let swarm : s'.swarm ≡ u.swarm = sym (ap (λ x. x.1.swarm) e2) ∙ (h id u).1 in
        rw swarm (version ∙ n.0, n.1)

    make_anew-IsNext :
        (s s' : Here D) → make_anew D p s ≡ (ok tt, s') → IsNext s.name s.version s.swarm s'
    unfolding make_anew
    make_anew-IsNext s s' e =
        noted_later (λ id t. set_result D id (some t.name) (record t { changed = true })) s s'
          (λ id t. (refl, refl)) (sym (without_removal p.rolling_versions s rolling) ∙ e)

    make_first-IsNext :
        (s s' : Here D) → make_first D p s ≡ (ok tt, s') → IsNext s.name s.version s.swarm s'
    unfolding make_first
    make_first-IsNext s s' e =
        noted_later (λ id t. set_result D id (some t.name) t) (record s { changed = true }) s'
          (λ id t. (refl, refl)) e

    make_if-IsNext :
        (must : Bool) (s s' : Here D)
        → s.changed ≡ false
        → make_if D p must s ≡ (ok tt, s')
        → s'.changed ≡ true
        → IsNext s.name s.version s.swarm s'
    make_if-IsNext true s s' q e c = make_anew-IsNext s s' e
    make_if-IsNext false s s' q e c = absurd (ground (arith, ap (λ x. x.1.changed) e))

    -- The session when `present` decides: the version is that of the newest config.
    noted_lem :
        (c : Config) (s : Here D)
        → (w : Bool) × (note_version D p c
              (warn_without_key D p c (set_result D (some c.id) (some c.name) s))
            ≡ record s {
              version = get_version c;
              config_id = some c.id;
              config_name = some c.name;
              warned = w;
            })
    unfolding warn_without_key
    noted_lem c s =
        elim (Bool-cases (filled D (lookup "ansible_key" (or_nil c.labels)) || p.force)) [
          | inl e ↦ (s.warned, rw (rolling, e) refl)
          | inr e ↦ (true, rw (rolling, e) refl)
        ]

    present_from-IsNext :
        (c : Config) (s s' : Here D)
        → s.changed ≡ false
        → present_from D p (some c) s ≡ (ok tt, s')
        → s'.changed ≡ true
        → IsNext s.name (get_version c) s.swarm s'
    present_from-IsNext c s s' q e k =
        let (w, n) = noted_lem c s in
        make_if-IsNext (must_create D p c)
          (record s {
            version = get_version c;
            config_id = some c.id;
            config_name = some c.name;
            warned = w;
          })
          s' q (ap (make_if D p (must_create D p c)) (sym n) ∙ e) k

    -- What `present` makes of ordered configs.
    abbrev IsNewest : Here D → Here D → Type 0
    IsNewest s s' =
        IsCreated s.name s'.version s.swarm s'.swarm
        × All (λ c. suc_ℤ (get_version c) ≤ℤ s'.version) s.configs

    present_config-IsNewest :
        (s s' : Here D)
        → IsOrdered s.configs
        → s.changed ≡ false
        → present_config D p s ≡ (ok tt, s')
        → s'.changed ≡ true
        → IsNewest s s'
    unfolding present_config
    present_config-IsNewest s s' o q e k = elim (Option-cases (last s.configs)) [
      | inl g ↦
          let begun : make_first D p s ≡ (ok tt, s') = ap (λ x. present_from D p x s) (sym g) ∙ e in
          let (v, made) = make_first-IsNext s s' begun in
          (rw v made, last-eq-none s.configs g (λ c. suc_ℤ (get_version c) ≤ℤ s'.version))
      | inr (c, g) ↦
          let begun : present_from D p (some c) s ≡ (ok tt, s') =
            ap (λ x. present_from D p x s) (sym g) ∙ e in
          let (v, made) = present_from-IsNext c s s' q begun k in
          rw v (
            made,
            All-map (λ d. get_version d ≤ℤ get_version c)
                (λ d. suc_ℤ (get_version d) ≤ℤ suc_ℤ (get_version c)) s.configs
                (λ d. suc_mono (get_version d) (get_version c)) (last_greatest s.configs c o g),
          )
    ]

    abbrev versions_listed : Text → List Config → List Config
    versions_listed name listed = keep_if (λ c. is_prefix (name ++ codes "_v") c.name) listed

    get_config_rolling :
        (s : Here D) (listed : List Config)
        → D.configs_by_name s.name s.swarm ≡ ok listed
        → get_config D p s ≡ (ok tt, record s { configs = sort (versions_listed s.name listed) })
    unfolding get_config own_configs
    get_config_rolling s listed l = rw l (rw rolling refl)

    -- With rolling versions, outside check mode, where the given labels do not have the key
    -- `ansible_version` and nothing was changed before: if `get_config` and `present` return and
    -- `present` has made a config, then the call that made it succeeded, under the name
    -- `<name>_v<version>` and with the version as the label `ansible_version`, and this version is
    -- greater than that of each config listed under a name `<name>_v...`.
    pub present_config-newest :
        (s s1 s2 : Session D.State) (listed : List Config)
        → D.configs_by_name s.name s.swarm ≡ ok listed
        → s.changed ≡ false
        → get_config D p s ≡ (ok tt, s1)
        → present_config D p s1 ≡ (ok tt, s2)
        → s2.changed ≡ true
        → IsCreated s.name s2.version s.swarm s2.swarm
          × All
              (λ c.
                is_prefix (s.name ++ codes "_v") c.name ≡ true
                → suc_ℤ (get_version c) ≤ℤ s2.version)
              listed
    present_config-newest s s1 s2 listed l q e1 e2 k =
        let found = sort (versions_listed s.name listed) in
        let same : s1 ≡ record s { configs = found } =
          ap (λ x. x.1) (sym e1 ∙ get_config_rolling s listed l) in
        let begun : present_config D p (record s { configs = found }) ≡ (ok tt, s2) =
          sym (ap (present_config D p) same) ∙ e2 in
        let (made, all) =
          present_config-IsNewest (record s { configs = found }) s2
            (sort-IsOrdered (versions_listed s.name listed)) q begun k in
        (
          made,
          keep_if-All (λ c. suc_ℤ (get_version c) ≤ℤ s2.version)
              (λ c. is_prefix (s.name ++ codes "_v") c.name) listed
              (sort-All (λ c. suc_ℤ (get_version c) ≤ℤ s2.version) (versions_listed s.name listed)
                all),
        )
