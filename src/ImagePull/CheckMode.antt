-- ===== src/ImagePull/CheckMode.antt =====
-- docker_image_pull in check mode.
use openstack_osa_office_clu.Prelude.{Bool, true, false, Option, ok, err, ◌≡◌, refl, arith}
use openstack_osa_office_clu.ImagePull.{
  Registry, Image, ImagePuller, Results, pull, do_pull, is_up_to_date, initial_results, from_api,
  Found, pull_unless, pull_found,
}

abbrev pub in_check_mode : ImagePuller → ImagePuller
in_check_mode p = record p { check_mode = true }

module _ (R : Registry) where
  do_pull_check :
      (p : ImagePuller) (r : Results) (s : R.State) → p.check_mode ≡ true → (do_pull R p r s).1 ≡ s
  unfolding do_pull
  do_pull_check p r s c = ground (arith, c)

  pull_unless_check :
      (p : ImagePuller) (image : Option Image) (up : Found R Bool) (s : R.State)
      → p.check_mode ≡ true
      → (pull_unless R p image up s).1 ≡ s
  pull_unless_check p image (err e) s c = refl
  pull_unless_check p image (ok true) s c = refl
  pull_unless_check p image (ok false) s c = do_pull_check p (initial_results R image) s c

  pull_found_check :
      (p : ImagePuller) (image : Found R (Option Image)) (s : R.State)
      → p.check_mode ≡ true
      → (pull_found R p image s).1 ≡ s
  pull_found_check p (err e) s c = refl
  pull_found_check p (ok image) s c = pull_unless_check p image (is_up_to_date R p image s) s c

  -- In check mode `pull` leaves the daemon as it was, whatever its result.
  pub pull_check : (p : ImagePuller) (s : R.State) → p.check_mode ≡ true → (pull R p s).1 ≡ s
  unfolding pull
  pull_check p s c = pull_found_check p (from_api R (R.find_image p.name p.tag s)) s c

  -- The actions are the same, and a change that was made is reported.
  abbrev pub Foretells : Results → Results → Type 0
  Foretells r r' = (r'.actions ≡ r.actions) × (r.changed ≡ true → r'.changed ≡ true)

  abbrev Foretold :
      ImagePuller → (Found R Results × R.State) → (Found R Results × R.State) → R.State → Type 0
  Foretold p real checked s =
      (r : Results) (s' : R.State)
      → real ≡ (ok r, s')
      → (r' : Results) × (checked ≡ (ok r', s)) × Foretells r r'

  do_pull-Foretold :
      (p : ImagePuller) (q : Results) (s : R.State)
      → Foretold p (do_pull R p q s) (do_pull R (in_check_mode p) q s) s
  unfolding do_pull
  do_pull-Foretold p q s r s' h = (_, refl, ground arith)

  pull_unless-Foretold :
      (p : ImagePuller) (image : Option Image) (up : Found R Bool) (s : R.State)
      → Foretold p (pull_unless R p image up s) (pull_unless R (in_check_mode p) image up s) s
  pull_unless-Foretold p image (err e) s r s' h = absurd (ground arith)
  pull_unless-Foretold p image (ok true) s r s' h =
      (initial_results R image, refl, (ground arith, λ c. absurd (ground arith)))
  pull_unless-Foretold p image (ok false) s r s' h =
      do_pull-Foretold p (initial_results R image) s r s' h

  pull_found-Foretold :
      (p : ImagePuller) (image : Found R (Option Image)) (s : R.State)
      → Foretold p (pull_found R p image s) (pull_found R (in_check_mode p) image s) s
  unfolding is_up_to_date
  pull_found-Foretold p (err e) s r s' h = absurd (ground arith)
  pull_found-Foretold p (ok image) s r s' h =
      pull_unless-Foretold p image (is_up_to_date R p image s) s r s' h

  -- Where `pull` succeeds, it succeeds in check mode too, leaves the daemon as it was there, reports
  -- the same actions, and reports a change if there was one.
  pub pull-in_check_mode :
      (p : ImagePuller) (s : R.State) {r : Results} {s' : R.State}
      → pull R p s ≡ (ok r, s')
      → (r' : Results) × (pull R (in_check_mode p) s ≡ (ok r', s))
        × (r'.actions ≡ r.actions)
        × (r.changed ≡ true → r'.changed ≡ true)
  unfolding pull
  pull-in_check_mode p s {r} {s'} h =
      let (r', e, f) = pull_found-Foretold p (from_api R (R.find_image p.name p.tag s)) s r s' h in
      (r', e, f.0, f.1)
