-- ===== src/Configs/CheckMode.antt =====
-- docker_config in check mode.
use openstack_osa_office_clu.Prelude.{
  Bool, true, false, not, if◌then◌else◌, some, none, Option, ok, ◌≡◌, refl, truthy,
}
use openstack_osa_office_clu.Prelude.Int.{ℤ, pos, negsuc}
use openstack_osa_office_clu.Prelude.Programs.{
  pure, modify, ◌>>◌, for_each, Keeps, Keeps-bind, Keeps-for_each,
}
use openstack_osa_office_clu.Configs.{
  Config, Params, Target, present, absent, Swarm, Here, Call, last, asks, get_config, next_version,
  post_config, create_config, remove_config, absent_config, make_anew, make_first, make_if,
  must_create, present_from, present_config, note_version, warn_without_key, set_result,
  remove_beyond, remove_old_versions, dispatch, start, manage_config, filled, or_nil,
}
use openstack_osa_office_clu.Prelude.{string_eq, ◌∙◌, ◌||◌}
use openstack_osa_office_clu.Prelude.Dict.{lookup}

module _ (D : Swarm) (p : Params) (checks : p.check_mode ≡ true) where
  abbrev swarm_of : Here D → D.State
  swarm_of s = s.swarm

  abbrev Safe : {A : Type 0} → Call D A → Type 0
  Safe m = Keeps swarm_of m

  next_version_swarm :
      (b : Bool) (s t : Here D) → t.swarm ≡ s.swarm → (if b then t else s).swarm ≡ s.swarm
  next_version_swarm true s t h = h
  next_version_swarm false s t h = refl

  create_config-Safe : Safe (create_config D p)
  unfolding create_config
  create_config-Safe =
      Keeps-bind swarm_of (modify (next_version D p))
        (λ _. if p.check_mode then pure none else post_config D p)
        (λ s. next_version_swarm p.rolling_versions s _ refl) (λ _ s. rw checks refl)

  remove_config-Safe : (c : Config) → Safe (remove_config D p c)
  remove_config-Safe c s = rw checks refl

  absent_config-Safe : Safe (absent_config D p)
  unfolding absent_config
  absent_config-Safe s = if_safe (truthy s.configs)
    where
      removal : Call D (Unit {0})
      removal = for_each (remove_config D p) s.configs >> modify (λ t. record t { changed = true })

      removal_safe : Safe removal
      removal_safe =
          Keeps-bind swarm_of (for_each (remove_config D p) s.configs) _
            (Keeps-for_each swarm_of (remove_config D p) s.configs remove_config-Safe) (λ _ t. refl)

      if_safe : (b : Bool) → (if b then removal s else (ok tt, s)).1.swarm ≡ s.swarm
      if_safe true = removal_safe s
      if_safe false = refl

  choice-Safe :
      {A : Type 0} (b : Bool) (m k : Call D A) → Safe m → Safe k → Safe (if b then m else k)
  choice-Safe true m k h j = h
  choice-Safe false m k h j = j

  make_anew-Safe : Safe (make_anew D p)
  unfolding make_anew
  make_anew-Safe =
      Keeps-bind swarm_of
        ((if p.rolling_versions then pure tt else absent_config D p) >> create_config D p)
        (λ id. modify (λ s. set_result D id (some s.name) (record s { changed = true })))
        (Keeps-bind swarm_of (if p.rolling_versions then pure tt else absent_config D p)
          (λ _. create_config D p)
          (choice-Safe p.rolling_versions (pure tt) (absent_config D p) (λ s. refl)
            absent_config-Safe)
          (λ _. create_config-Safe))
        (λ id s. refl)

  make_first-Safe : Safe (make_first D p)
  unfolding make_first
  make_first-Safe =
      Keeps-bind swarm_of (modify (λ s. record s { changed = true }) >> create_config D p)
        (λ id. modify (λ s. set_result D id (some s.name) s))
        (Keeps-bind swarm_of (modify (λ s. record s { changed = true })) (λ _. create_config D p)
          (λ s. refl) (λ _. create_config-Safe))
        (λ id s. refl)

  make_if-Safe : (b : Bool) → Safe (make_if D p b)
  make_if-Safe true s = make_anew-Safe s
  make_if-Safe false s = refl

  warned_swarm :
      (b : Bool) (s : Here D) → (if b then s else record s { warned = true }).swarm ≡ s.swarm
  warned_swarm true s = refl
  warned_swarm false s = refl

  warn_without_key_swarm : (c : Config) (s : Here D) → (warn_without_key D p c s).swarm ≡ s.swarm
  unfolding warn_without_key
  warn_without_key_swarm c s =
      warned_swarm (filled D (lookup "ansible_key" (or_nil c.labels)) || p.force) s

  noted_swarm :
      (c : Config) (s : Here D)
      → (note_version D p c
          (warn_without_key D p c (set_result D (some c.id) (some c.name) s))).swarm
        ≡ s.swarm
  noted_swarm c s =
      next_version_swarm p.rolling_versions _ _ refl
      ∙ warn_without_key_swarm c (set_result D (some c.id) (some c.name) s)

  present_from-Safe : (c : Option Config) → Safe (present_from D p c)
  present_from-Safe none = make_first-Safe
  present_from-Safe (some c) =
      Keeps-bind swarm_of
        (modify (λ s.
          note_version D p c (warn_without_key D p c (set_result D (some c.id) (some c.name) s))))
        (λ _. make_if D p (must_create D p c)) (noted_swarm c)
        (λ _. make_if-Safe (must_create D p c))

  present_config-Safe : Safe (present_config D p)
  unfolding present_config
  present_config-Safe s = present_from-Safe (last s.configs) s

  remove_beyond-Safe : (n : ℤ) → Safe (remove_beyond D p n)
  remove_beyond-Safe (negsuc n) s = refl
  remove_beyond-Safe (pos n) s = rw checks refl

  remove_old_versions-Safe : Safe (remove_old_versions D p)
  unfolding remove_old_versions
  remove_old_versions-Safe =
      choice-Safe (not p.rolling_versions) (pure tt) (remove_beyond D p p.versions_to_keep)
        (λ s. refl) (remove_beyond-Safe p.versions_to_keep)

  dispatch-Safe : (t : Target) → Safe (dispatch D t p)
  dispatch-Safe present =
      Keeps-bind swarm_of (present_config D p) _ present_config-Safe (λ _. remove_old_versions-Safe)
  dispatch-Safe absent = absent_config-Safe

  get_config-Safe : Safe (get_config D p)
  unfolding get_config
  get_config-Safe s =
      Keeps-bind swarm_of (asks D (D.configs_by_name s.name)) _ (λ t. refl) (λ cs t. refl) s

  -- In check mode the module leaves the swarm's state as it was, whatever it returns.
  pub manage_config-check_mode : (s : D.State) → (manage_config D p s).1.swarm ≡ s
  unfolding manage_config
  manage_config-check_mode s =
      Keeps-bind swarm_of (get_config D p) _ get_config-Safe (λ _. dispatch-Safe p.target)
        (start D p s)
