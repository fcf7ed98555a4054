-- ===== src/Container/Changed.antt =====
-- What the images of a run report: `changed`, and the actions of a pull.
use openstack_osa_office_clu.Prelude.{
  Bool, true, false, not, ◌||◌, some, none, Option, String, List, [], ◌∷◌, ◌++◌, any, ◌≡◌, refl,
  arith,
}
use openstack_osa_office_clu.Prelude.Methods.{pure, modify, ◌>>=◌}
use openstack_osa_office_clu.Prelude.Hoare.{
  Holds, holds_rules, pure-Holds, raise-Holds, reads-Holds, Leads, before-Leads, behind-Leads,
  later-Leads, first-Leads, choose-Leads,
}
use openstack_osa_office_clu.Container.{Container, Inspection, Params}
use openstack_osa_office_clu.Container.Driver.{Driver, Setup, Action, pulled_image, Here, uncaught}
use openstack_osa_office_clu.Container.Images
use openstack_osa_office_clu.Container.Reporting.{is_change, HasReported, posts-Holds}

module _ {Seconds Value : Type 0} (D : Driver Seconds)
    (setup : Setup Value D.Image D.Host D.CreateParameters D.UpdateParameters)
    (p : Params Seconds) where
  abbrev pub IsFresh : Here D Value → Type 0
  IsFresh s = s.actions ≡ []

  pub fresh_reports : (s : Here D Value) → IsFresh s → HasReported D setup p s
  fresh_reports s h = rw h (ground arith)

  get_container_image-Fresh :
      (c : Container) → Holds IsFresh (Images.get_container_image D setup p c)
  unfolding Images.get_container_image
  get_container_image-Fresh none = search holds_rules
  get_container_image-Fresh (some i) = search holds_rules

  get_container_image-Reports :
      (c : Container) → Holds (HasReported D setup p) (Images.get_container_image D setup p c)
  unfolding Images.get_container_image
  get_container_image-Reports none = search holds_rules
  get_container_image-Reports (some i) = search holds_rules

  found_by_id-Fresh :
      (name : String) (found : Option D.Image)
      → Holds IsFresh (Images.found_by_id D setup p name found)
  found_by_id-Fresh name none = search holds_rules
  found_by_id-Fresh name (some image) = search holds_rules

  reported_pull :
      (repository tag : String) (latest : Bool) (actions : List Action)
      → actions ≡ []
      → (not latest
          || not (any is_change (actions ++ pulled_image repository tag (some (not latest)) ∷ [])))
        ≡ true
  reported_pull repository tag true actions h = rw h refl
  reported_pull repository tag false actions h = refl

  -- The one method that may set `changed` back.
  record_pull-Leads :
      (repository tag : String) (r : Option D.Image × Bool)
      → Leads IsFresh (HasReported D setup p) (Images.record_pull D setup p repository tag r)
  unfolding ◌>>=◌ modify pure
  record_pull-Leads repository tag (image, latest) = record {
    led = λ s h. reported_pull repository tag latest s.actions h;
  }

  pull-Leads :
      (repository tag : String) (image : Option D.Image)
      → Leads IsFresh (HasReported D setup p) (Images.pull D setup p repository tag image)
  pull-Leads repository tag image =
      choose-Leads p.check_mode (behind-Leads fresh_reports (search holds_rules)) (
        later-Leads fresh_reports
          (posts-Holds D setup p IsFresh uncaught (D.pull_image repository tag p.platform)
            (λ s d h. h))
          (record_pull-Leads repository tag))

  find_image-Leads :
      (name : String) → Leads IsFresh (HasReported D setup p) (Images.find_image D setup p name)
  unfolding Images.find_image
  find_image-Leads name =
      choose-Leads _ (before-Leads fresh_reports (search (holds_rules, found_by_id-Fresh))) (
        later-Leads fresh_reports (reads-Holds _) (λ image.
          choose-Leads _ (before-Leads fresh_reports (raise-Holds _)) (
            choose-Leads _ (pull-Leads _ _ image) (before-Leads fresh_reports (pure-Holds image)))))

  pub image_for-Leads :
      (needs : Bool) (c : Container) (o : Option String)
      → Leads IsFresh (HasReported D setup p) (Images.image_for D setup p needs c o)
  unfolding Images.image_for Images.image_named Images.compare_with Images.container_image_if
      Images.container_image_only
  image_for-Leads needs c none =
      before-Leads fresh_reports (search (holds_rules, get_container_image-Fresh))
  image_for-Leads needs c (some name) =
      choose-Leads _ (before-Leads fresh_reports (search (holds_rules, get_container_image-Fresh)))
        (later-Leads fresh_reports (search (holds_rules, get_container_image-Fresh))
          (λ container_image.
            first-Leads (find_image-Leads name)
              (λ image. search (holds_rules, get_container_image-Reports) depth 8)))

  pub image_is_different-Reports :
      (image : Option D.Image) (i : Inspection)
      → Holds (HasReported D setup p) (Images.image_is_different D setup p image i)
  unfolding Images.image_is_different
  image_is_different-Reports image i = search holds_rules
