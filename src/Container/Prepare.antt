-- ===== src/Container/Prepare.antt =====
-- `present` of ContainerManager, up to the container that it goes on with: the one there is, or a new one.
use openstack_osa_office_clu.Prelude.{
  option_beq, ℕ, Bool, true, false, not, ◌&&◌, ◌||◌, [], ◌∷◌, some, none, Option, String, string_eq,
  ◌=?◌, if◌then◌else◌,
}
use openstack_osa_office_clu.Prelude.Methods.{pure, raise, modify, ◌>>=◌, ◌>>◌, choose, when}
use openstack_osa_office_clu.Util.Differences.{add, merge}
use openstack_osa_office_clu.Network.Config.{IpAddresses}
use openstack_osa_office_clu.Container.{
  Container, Inspection, Params, Target, absent, present, healthy, started, stopped,
  is_container_removing, is_container_running,
}
use openstack_osa_office_clu.Container.Driver.{
  Clock, Driver, Setup, no_image, no_image_to_recreate, Shown, flag, text, Call, unless_check,
  track,
}
use openstack_osa_office_clu.Container.Waiting.{Wait, wait_for_state}
use openstack_osa_office_clu.Container.Differences.{Seen, has_different_configuration}
use openstack_osa_office_clu.Container.Actions.{container_create, container_remove, container_stop}
use openstack_osa_office_clu.Container.Updates.{is_strict, is_given}
use openstack_osa_office_clu.Container.Images.{Images, image_is_different}

abbrev pub wants_running : Target → Bool
wants_running started = true
wants_running healthy = true
wants_running absent = false
wants_running present = false
wants_running stopped = false

abbrev pub wants_stopped : Target → Bool
wants_stopped stopped = true
wants_stopped absent = false
wants_stopped present = false
wants_stopped started = false
wants_stopped healthy = false

abbrev pub wants_healthy : Target → Bool
wants_healthy healthy = true
wants_healthy absent = false
wants_healthy present = false
wants_healthy started = false
wants_healthy stopped = false

abbrev pub some_if_given : Option String → Option String
some_if_given none = none
some_if_given (some s) = if s =? "" then none else some s

-- `a or b`, of two names
abbrev pub or_else : Option String → Option String → Option String
or_else none b = b
or_else (some a) b = some a

-- What the loop for a removal waits for, and the one for a health check; None is no health check.
abbrev pub until_removed : {Seconds : Type 0} → Params Seconds → Wait Seconds
until_removed p = record {
  complete_states = none;
  wait_states = some (some "removing" ∷ []);
  accept_removal = true;
  max_wait = p.removal_wait_timeout;
  health_state = false;
}

abbrev pub until_healthy : {Seconds : Type 0} → Params Seconds → Wait Seconds
until_healthy p = record {
  complete_states = some (some "healthy" ∷ none ∷ []);
  wait_states = some (some "starting" ∷ some "unhealthy" ∷ []);
  accept_removal = false;
  max_wait = p.healthy_wait_timeout;
  health_state = true;
}

-- The container that a run goes on with, the image to compare it with, and whether it is new.
pub record Prepared (Image : Type 0) : Type 0 where
  pub container : Container
  pub comparison_image : Option Image
  pub created : Bool

module _ {Value : Type 0} (K : Clock) (D : Driver K.Seconds)
    (setup : Setup Value D.Image D.Host D.CreateParameters D.UpdateParameters)
    (p : Params K.Seconds) (ip : IpAddresses) (fuel : ℕ) where
  abbrev pub tracks : String → Shown Value → Shown Value → Call D Value (Unit {0})
  tracks name parameter active = modify (track D Value (add name parameter active))

  abbrev pub wait_until_removed : String → Call D Value (Unit {0})
  wait_until_removed id =
      unless_check D Value p (wait_for_state K D Value (until_removed p) id fuel >> pure tt)

  -- `if new_container: container = new_container`
  abbrev pub new_or : Container → Option Container → Container
  new_or c none = c
  new_or c (some new) = new

  abbrev pub created_from : Container → Option D.Image → String → Call D Value (Prepared D.Image)
  created_from c comparison_image image = container_create D setup p image >>= λ new.
      pure
        (record { container = new_or c new; comparison_image = comparison_image; created = true })

  -- New container
  abbrev pub wait_if_removing : Container → Call D Value (Unit {0})
  wait_if_removing none = pure tt
  wait_if_removing (some i) = wait_until_removed i.id

  unfoldable pub create_from :
      Container → Images D.Image → Option String → Call D Value (Prepared D.Image)
  unfolding container_create wait_for_state
  create_from c images none = raise no_image
  create_from c images (some image) = do
    tracks "exists" (flag true) (flag false)
    wait_if_removing c
    created_from c images.comparison_image image

  unfoldable pub create_new : Container → Images D.Image → Call D Value (Prepared D.Image)
  unfolding create_from
  create_new c images = create_from c images (some_if_given p.image)

  -- Existing container
  abbrev pub image_differs : Option D.Image → Inspection → Call D Value Bool
  image_differs image i =
      choose (is_strict setup.image_comparison) (image_is_different D setup p image i) (pure false)

  abbrev pub name_differs : Inspection → Bool
  name_differs i =
      is_strict setup.image_comparison
      && p.recreate_for_name
      && is_given p.image
      && not (option_beq p.image i.image_name)

  unfoldable pub recreate_from :
      Inspection → Option D.Image → Option String → Call D Value (Prepared D.Image)
  unfolding container_create container_remove container_stop wait_for_state
  recreate_from i image none = raise no_image_to_recreate
  recreate_from i image (some image_to_use) = do
    when (is_container_running i.state) (container_stop D setup p i.id)
    container_remove D setup p i.id false
    wait_until_removed i.id
    created_from (some i) image image_to_use

  unfoldable pub recreate : Inspection → Option D.Image → Call D Value (Prepared D.Image)
  unfolding recreate_from
  recreate i image =
      recreate_from i image (or_else (some_if_given p.image) (some_if_given (some i.image)))

  abbrev pub seen_as :
      Inspection → Option D.Image → Option D.Image → Option D.Host → Seen D.Image D.Host
  seen_as i container_image image host = record {
    container = i;
    container_image = container_image;
    image = image;
    host_info = host;
  }

  unfoldable pub keep_or_recreate :
      Inspection → Images D.Image → Option D.Host → Call D Value (Prepared D.Image)
  unfolding recreate has_different_configuration image_is_different merge
  keep_or_recreate i images host =
      let (different, differences) =
        has_different_configuration (seen_as i images.container_image images.comparison_image host)
          setup.groups in
      do
        image_different ← image_differs images.image i
        when (name_differs i) (tracks "image_name" (text p.image) (text i.image_name))
        choose (image_different || different || name_differs i || p.recreate)
            (modify (track D Value (λ t. merge t differences))
              >> when image_different (modify (λ s. record s { image_different = true }))
              >> recreate i images.image)
            (pure (record {
              container = some i;
              comparison_image = images.comparison_image;
              created = false;
            }))

  unfoldable pub prepare :
      Container → Images D.Image → Option D.Host → Call D Value (Prepared D.Image)
  unfolding create_new keep_or_recreate
  prepare none images host = create_new none images
  prepare (some i) images host =
      choose (is_container_removing i.state) (create_new (some i) images)
        (keep_or_recreate i images host)
