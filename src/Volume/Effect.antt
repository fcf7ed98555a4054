-- ===== src/Volume/Effect.antt =====
-- docker_volume: what a run leaves behind in a daemon that keeps its promises.
use openstack_osa_office_clu.Prelude.{
  true, false, [], ◌∷◌, some, none, Option, String, string_eq, option_eq, ◌=?◌, ok, ◌≡◌, ◌≢◌, ◌∙◌,
  sym, ap, refl, arith, inl, inr, truthy, Bool-cases, Option-cases, All, beq_refl, option_beq_iff,
}
use openstack_osa_office_clu.Prelude.Dict.{
  Dict, lookup, NodupKeys, IsEntry, NodupKeys-IsEntry, lookup-nil, lookup-cons,
}
use openstack_osa_office_clu.Util.Differences.{Tracker, empty}
use openstack_osa_office_clu.Volume.{
  Daemon, Volume, Manager, Params, Shown, CreateData, run, do_present, do_absent,
  get_existing_volume, remove_volume, create_volume, recreate_volume, report, post_volume, dispatch,
  present, absent, start, ◌>>=◌, note_exists, differences_of, must_recreate, or_nil, filled,
  has_different_config, option_differences, label_differences, driver_difference,
  options_difference, always, never, options_changed, is_always, Recreate, creation, option_differs,
  act, created, removed, pop_actions, add_differences,
}
use openstack_osa_office_clu.Volume.CheckMode.{
  Agrees, add_differences-Agrees, pop_actions-Agrees, get_existing_volume_state, >>=-eq-ok_run,
}

-- A volume as it was asked for. Docker chooses the driver where none is named. The options and the
-- labels are maps: they hold the same values under the same keys, in any order, and null stands for
-- none of them.
pub record IsMadeFrom (c : CreateData) (v : Volume) : Type 0 where
  pub same_name : v.name ≡ c.name
  pub same_driver : filled c.driver ≡ true → v.driver ≡ c.driver
  pub same_options : (k : String) → lookup k (or_nil v.options) ≡ lookup k c.driver_opts
  pub same_labels : (k : String) → lookup k (or_nil v.labels) ≡ lookup k (or_nil c.labels)

-- What the volume endpoints of the Docker API promise. A volume that is created under a free name
-- is listed under it as it was asked for, and one that is deleted is not listed any more.
pub record IsLawful (D : Daemon) : Type 0 where
  pub created_listed :
      (p : Params) (s s' : D.State) {name : String}
      → get_existing_volume D p s ≡ (ok none, s)
      → D.create_volume (creation D p) s ≡ (ok name, s')
      → (v : Volume) × (get_existing_volume D p s' ≡ (ok (some v), s'))
        × IsMadeFrom (creation D p) v
  pub deleted_gone :
      (p : Params) (s s' : D.State)
      → D.delete_volume p.volume_name s ≡ (ok tt, s')
      → get_existing_volume D p s' ≡ (ok none, s')

-- Dictionaries with each key once, and no empty value among the driver's options.
pub record IsPlain (p : Params) : Type 0 where
  pub options_nodup : NodupKeys p.driver_options
  pub options_filled : All (λ e. filled e.1 ≡ true) p.driver_options
  pub labels_nodup : NodupKeys (or_nil p.labels)

-- The entries of a dict are found in each dict that holds the same values under the same keys.
IsEntry-same :
    (d e xs : Dict String String)
    → ((k : String) → lookup k e ≡ lookup k d)
    → All (IsEntry d) xs
    → All (IsEntry e) xs
IsEntry-same d e [] same h = tt
IsEntry-same d e ((k, v) ∷ xs) same h = (same k ∙ h.0, IsEntry-same d e xs same h.1)

entries-found :
    (d e : Dict String String)
    → NodupKeys d
    → ((k : String) → lookup k e ≡ lookup k d)
    → All (IsEntry e) d
entries-found d e u same = IsEntry-same d e d same (NodupKeys-IsEntry d u)

-- A dict with the same values under the same keys as one that is not empty is not empty.
truthy-same :
    (d e : Dict String String)
    → ((k : String) → lookup k e ≡ lookup k d)
    → truthy d ≡ true
    → truthy e ≡ true
truthy-same [] e same h = absurd (ground arith)
truthy-same ((k, v) ∷ d) [] same h =
    absurd (ground (arith, same k, lookup-nil {V = String} k, lookup-cons k k v d, beq_refl k))
truthy-same ((k, v) ∷ d) (x ∷ e) same h = refl

option_differences_none :
    (d xs : Dict String String) (t : Tracker Shown)
    → All (IsEntry d) xs
    → All (λ e. filled e.1 ≡ true) xs
    → option_differences d xs t ≡ t
unfolding option_differences
option_differences_none d [] t h f = refl
option_differences_none d ((k, v) ∷ xs) t h f =
    let same : option_differs d (k, v) ≡ false = ground (arith, h.0, f.0, beq_refl v) in
    rw same (option_differences_none d xs t h.1 f.1)

label_differences_none :
    (d xs : Dict String String) (t : Tracker Shown)
    → All (IsEntry d) xs
    → label_differences d xs t ≡ t
unfolding label_differences
label_differences_none d [] t h = refl
label_differences_none d ((k, v) ∷ xs) t h =
    let same : (lookup k d =? some v) ≡ true = (option_beq_iff (lookup k d) (some v)).1 h.0 in
    rw same (label_differences_none d xs t h.1)

driver_difference_none :
    (p : Params) (v : Volume) (t : Tracker Shown)
    → (filled p.driver ≡ true → v.driver ≡ p.driver)
    → driver_difference p v t ≡ t
unfolding driver_difference
driver_difference_none p v t h = elim (Bool-cases (filled p.driver)) [
  | inl e ↦ rw e (rw (h e) (rw (beq_refl p.driver) refl))
  | inr e ↦ rw e refl
]

options_difference_none :
    (p : Params) (v : Volume) (t : Tracker Shown)
    → IsPlain p
    → ((k : String) → lookup k (or_nil v.options) ≡ lookup k p.driver_options)
    → options_difference p v t ≡ t
unfolding options_difference
options_difference_none p v t w e =
    let none_differs =
      option_differences_none (or_nil v.options) p.driver_options t
        (entries-found p.driver_options (or_nil v.options) w.options_nodup e) w.options_filled in
    elim (Bool-cases (truthy p.driver_options)) [
      | inl some_options ↦
          let there = truthy-same p.driver_options (or_nil v.options) e some_options in
          rw (some_options, there) none_differs
      | inr no_options ↦ rw no_options refl
    ]

-- A volume that was made from the parameters does not differ from them.
has_different_config-IsMadeFrom :
    (D : Daemon) (p : Params) (v : Volume)
    → IsPlain p
    → IsMadeFrom (creation D p) v
    → has_different_config p v ≡ []
unfolding has_different_config
has_different_config-IsMadeFrom D p v w m = rw (driver_difference_none p v [] m.same_driver) (
    rw (options_difference_none p v [] w m.same_options) (
      label_differences_none (or_nil v.labels) (or_nil p.labels) []
        (entries-found (or_nil p.labels) (or_nil v.labels) w.labels_nodup m.same_labels)))

module _ (D : Daemon) (p : Params) (real : p.check_mode ≡ false) where
  -- The volume is there, and nothing calls for a new one.
  abbrev Settled : D.State → Type 0
  Settled s =
      (v : Volume) × (get_existing_volume D p s ≡ (ok (some v), s))
      × (must_recreate D p (has_different_config p v) ≡ false)

  -- A successful removal deletes the volume, if there was one.
  remove_volume-ok :
      (l : IsLawful D) (m n : Manager) (s s' : D.State)
      → get_existing_volume D p s ≡ (ok m.existing, s)
      → remove_volume D p m s ≡ (ok n, s')
      → get_existing_volume D p s' ≡ (ok none, s')
  unfolding remove_volume
  remove_volume-ok l m n s s' e h = elim (Option-cases m.existing) [
    | inl g ↦ ground arith
    | inr (v, g) ↦
        let begun : (◌>>=◌ D (D.delete_volume p.volume_name s)
              (λ _ s1. (ok (act D (removed p.volume_name) m), s1)))
            ≡ (ok n, s') =
          ground arith in
        let (u, t, f, k) = >>=-eq-ok_run D (D.delete_volume p.volume_name s) _ begun in
        let done : s' ≡ t = sym (ap (λ r. r.1) k) in rw done (l.deleted_gone p s t f)
  ]

  -- After a successful run for `absent` outside check mode, against a lawful daemon, the volume is
  -- not listed.
  pub run_absent :
      {m : Manager} (s s' : D.State)
      → IsLawful D
      → p.target ≡ absent
      → run D p s ≡ (ok m, s')
      → get_existing_volume D p s' ≡ (ok none, s')
  unfolding run do_absent
  run_absent {m} s s' l t h =
      let (v, s1, f, g) = >>=-eq-ok_run D (get_existing_volume D p s) _ h in
      let same : s1 ≡ s = sym (ap (λ r. r.1) f) ∙ get_existing_volume_state D p s in
      let listed : get_existing_volume D p s1 ≡ (ok v, s1) =
        rw same (f ∙ ap (λ x. (ok v, x)) same) in
      let removal : dispatch D absent p (start D v) s1 ≡ (ok m, s') = rw t at g in
      remove_volume-ok l _ m s1 s' listed removal

  is_always_no : (r : Recreate) → r ≢ always → is_always D r ≡ false
  is_always_no always h = absurd (h refl)
  is_always_no never h = refl
  is_always_no options_changed h = refl

  must_recreate_none : p.recreate ≢ always → must_recreate D p [] ≡ false
  unfolding empty
  must_recreate_none h = is_always_no p.recreate h

  create_volume_settles :
      (l : IsLawful D) (w : IsPlain p) (m n : Manager) (s s' : D.State)
      → p.recreate ≢ always
      → m.existing ≡ none
      → get_existing_volume D p s ≡ (ok none, s)
      → create_volume D p m s ≡ (ok n, s')
      → Settled s'
  unfolding create_volume post_volume
  create_volume_settles l w m n s s' a e g h =
      let begun : (◌>>=◌ D (post_volume D p s) (λ v s1.
        (ok (act D (created p.volume_name p.driver) (record m { existing = some v })), s1)))
          ≡ (ok n, s') =
        ground arith in
      let (u, t, f, k) = >>=-eq-ok_run D (post_volume D p s) _ begun in
      let (name, t1, f1, k1) = >>=-eq-ok_run D (D.create_volume (creation D p) s) _ f in
      let done : s' ≡ t1 = sym (ap (λ r. r.1) k) ∙ sym (ap (λ r. r.1) k1) in
      let (v, listed, made) = l.created_listed p s t1 g f1 in
      let same = has_different_config-IsMadeFrom D p v w made in
      rw done (v, listed, rw same (must_recreate_none a))

  report_settled :
      (d : Tracker Shown) (m : Manager) (s : D.State) (v : Option Volume)
      → get_existing_volume D p s ≡ (ok v, s)
      → (n : Manager) × (report D p d m s ≡ (ok n, s)) × Agrees D m n
  unfolding report
  report_settled d m s v listed =
      let a = add_differences-Agrees D p d m in
      let b = pop_actions-Agrees D p (add_differences D p d m) in
      (
        record (pop_actions D p (add_differences D p d m)) { volume = some v },
        rw listed refl,
        ground arith,
      )

  recreate_volume_keeps :
      (d : Tracker Shown) (m : Manager) (s : D.State)
      → must_recreate D p d ≡ false
      → recreate_volume D p d m s ≡ (ok m, s)
  unfolding recreate_volume
  recreate_volume_keeps d m s keep = rw keep refl

  create_volume_keeps :
      (m : Manager) (s : D.State) (v : Volume)
      → m.existing ≡ some v
      → create_volume D p m s ≡ (ok m, s)
  unfolding create_volume
  create_volume_keeps m s v e = rw e refl

  Settled-do_present :
      (m : Manager) (s : D.State) (v : Volume)
      → m.existing ≡ some v
      → get_existing_volume D p s ≡ (ok (some v), s)
      → must_recreate D p (differences_of D p m) ≡ false
      → (n : Manager) × (do_present D p m s ≡ (ok n, s)) × Agrees D m n
  unfolding do_present
  Settled-do_present m s v e listed keep =
      let (n, k, a) =
        report_settled (differences_of D p m) (note_exists D true m) s (some v) listed in
      (
        n,
        rw (recreate_volume_keeps (differences_of D p m) (note_exists D true m) s keep)
            (rw (create_volume_keeps (note_exists D true m) s v e) k),
        a,
      )

  Settled-run :
      (s : D.State)
      → p.target ≡ present
      → Settled s
      → (n : Manager) × (run D p s ≡ (ok n, s)) × (n.changed ≡ false) × (n.actions ≡ [])
  unfolding run
  Settled-run s t (v, listed, keep) =
      let (n, k, a) = Settled-do_present (start D (some v)) s v refl listed keep in
      (n, rw listed (ap (λ x. dispatch D x p (start D (some v)) s) t ∙ k), a.0, a.1)

  report-ok :
      (d : Tracker Shown) (m n : Manager) (s s' : D.State) → report D p d m s ≡ (ok n, s') → s' ≡ s
  unfolding report
  report-ok d m n s s' h =
      let (v, t, f, g) = >>=-eq-ok_run D (get_existing_volume D p s) _ h in
      sym (ap (λ r. r.1) g) ∙ sym (ap (λ r. r.1) f) ∙ get_existing_volume_state D p s

  -- Where a new volume is called for, none is there before it is created.
  recreate_volume-ok :
      (l : IsLawful D) (d : Tracker Shown) (m n : Manager) (s s' : D.State)
      → must_recreate D p d ≡ true
      → get_existing_volume D p s ≡ (ok m.existing, s)
      → recreate_volume D p d m s ≡ (ok n, s')
      → (n.existing ≡ none) × (get_existing_volume D p s' ≡ (ok none, s'))
  unfolding recreate_volume
  recreate_volume-ok l d m n s s' must e h =
      let begun : (◌>>=◌ D (remove_volume D p m s)
            (λ m' s1. (ok (record m' { existing = none }), s1)))
          ≡ (ok n, s') =
        rw must at h in
      let (m', t, f, g) = >>=-eq-ok_run D (remove_volume D p m s) _ begun in
      let gone = remove_volume-ok l m m' s t e f in
      let done : s' ≡ t = sym (ap (λ r. r.1) g) in (ground arith, rw done gone)

  kept_settles :
      (l : IsLawful D) (w : IsPlain p) (m n : Manager) (s s' : D.State)
      → p.recreate ≢ always
      → must_recreate D p (differences_of D p m) ≡ false
      → get_existing_volume D p s ≡ (ok m.existing, s)
      → create_volume D p m s ≡ (ok n, s')
      → Settled s'
  kept_settles l w m n s s' a keep e h = elim (Option-cases m.existing) [
    | inl g ↦ create_volume_settles l w m n s s' a g (e ∙ ap (λ x. (ok x, s)) g) h
    | inr (v, g) ↦
        let same : s' ≡ s = sym (ap (λ r. r.1) h) ∙ ap (λ r. r.1) (create_volume_keeps m s v g) in
        let none_needed : must_recreate D p (has_different_config p v) ≡ false = rw g at keep in
        rw same (v, e ∙ ap (λ x. (ok x, s)) g, none_needed)
  ]

  -- A successful run for `present` leaves the volume settled.
  do_present_settles :
      (l : IsLawful D) (w : IsPlain p) (m n : Manager) (s s' : D.State)
      → p.recreate ≢ always
      → get_existing_volume D p s ≡ (ok m.existing, s)
      → do_present D p m s ≡ (ok n, s')
      → Settled s'
  unfolding do_present
  do_present_settles l w m n s s' a e h =
      let d = differences_of D p m in
      let m0 = note_exists D true m in
      let (m1, s1, f, g) = >>=-eq-ok_run D (recreate_volume D p d m0 s) _ h in
      let (m2, s2, f2, g2) = >>=-eq-ok_run D (create_volume D p m1 s1) _ g in
      let done : s' ≡ s2 = report-ok d m2 n s2 s' g2 in
      elim (Bool-cases (must_recreate D p d)) [
        | inl must ↦
            let (no_volume, free) = recreate_volume-ok l d m0 m1 s s1 must e f in
            rw done (create_volume_settles l w m1 m2 s1 s2 a no_volume free f2)
        | inr keep ↦
            let unchanged : (ok m0, s) ≡ (ok m1, s1) =
              sym (recreate_volume_keeps d m0 s keep) ∙ f in
            rw done (
              kept_settles l w m0 m2 s s2 a keep e
                (ap (λ r. ◌>>=◌ D r (create_volume D p)) unchanged ∙ f2))
      ]

  -- Outside check mode, with `recreate` not `always`, plain parameters and a lawful daemon, a
  -- successful run for `present` is followed by a run that succeeds, changes nothing and reports no
  -- change and no action.
  pub run_twice :
      {m : Manager} (s s' : D.State)
      → IsLawful D
      → IsPlain p
      → p.target ≡ present
      → p.recreate ≢ always
      → run D p s ≡ (ok m, s')
      → (n : Manager) × (run D p s' ≡ (ok n, s')) × (n.changed ≡ false) × (n.actions ≡ [])
  unfolding run
  run_twice {m} s s' l w t a h =
      let (v, s1, f, g) = >>=-eq-ok_run D (get_existing_volume D p s) _ h in
      let same : s1 ≡ s = sym (ap (λ r. r.1) f) ∙ get_existing_volume_state D p s in
      let listed : get_existing_volume D p s1 ≡ (ok v, s1) =
        rw same (f ∙ ap (λ x. (ok v, x)) same) in
      let made : do_present D p (start D v) s1 ≡ (ok m, s') =
        ap (λ x. dispatch D x p (start D v) s1) (sym t) ∙ g in
      Settled-run s' t (do_present_settles l w (start D v) m s1 s' a listed made)
