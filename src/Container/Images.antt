-- ===== src/Container/Images.antt =====
-- The images of a run: `is_image_name_id` of module_utils/_util.py, `_get_container_image`,
-- `_get_image` and `_image_is_different`.
use openstack_osa_office_clu.Prelude.{
  ℕ, Bool, true, false, not, ◌&&◌, ◌||◌, if◌then◌else◌, some, none, Option, String, string_eq, ◌=?◌,
}
use openstack_osa_office_clu.Prelude.Text.{codes, within}
use openstack_osa_office_clu.Prelude.Methods.{pure, raise, modify, ◌>>=◌, ◌>>◌, choose, when}
use openstack_osa_office_clu.Regex.{Regex, seq, one, times, literal, line_match}
use openstack_osa_office_clu.Util.Differences.{add}
use openstack_osa_office_clu.Container.{
  Container, Inspection, Params, PullPolicy, never, missing, always, is_container_removing,
}
use openstack_osa_office_clu.Container.Driver.{
  Driver, Setup, uncaught, no_such_image, image_not_pulled, pulled_image, text, Call, asks, posts,
  add_action, act, track,
}
use openstack_osa_office_clu.Container.Networks.{given}

abbrev pub is_hex : ℕ → Bool
is_hex c = within b'0' b'9' c || within b'a' b'f' c || within b'A' b'F' c

abbrev pub image_id_text : Regex
image_id_text = seq (literal (codes "sha256:")) (times 64 (one is_hex))

unfoldable pub is_image_name_id : String → Bool
unfolding line_match
is_image_name_id name = line_match image_id_text (codes name)

abbrev pub or_latest : Option String → String
or_latest none = "latest"
or_latest (some tag) = if given (some tag) then tag else "latest"

-- `image`, `container_image` and `comparison_image`.
pub record Images (Image : Type 0) : Type 0 where
  pub image : Option Image
  pub container_image : Option Image
  pub comparison_image : Option Image

abbrev pub is_never : PullPolicy → Bool
is_never never = true
is_never missing = false
is_never always = false

abbrev pub is_always : PullPolicy → Bool
is_always always = true
is_always never = false
is_always missing = false

abbrev pub is_missing : {A : Type 0} → Option A → Bool
is_missing none = true
is_missing (some x) = false

module _ {Seconds Value : Type 0} (D : Driver Seconds)
    (setup : Setup Value D.Image D.Host D.CreateParameters D.UpdateParameters)
    (p : Params Seconds) where
  abbrev pub find_by_name : String × Option String → Call D Value (Option D.Image)
  find_by_name (repository, tag) = asks D Value (D.inspect_image_by_name repository (or_latest tag))

  unfoldable pub get_container_image : Container → Call D Value (Option D.Image)
  unfolding is_image_name_id
  get_container_image none = pure none
  get_container_image (some i) = choose (is_container_removing i.state) (pure none) (
      choose (is_image_name_id i.image) (asks D Value (D.inspect_image_by_id i.image))
        (find_by_name (setup.parse_repository_tag i.image)))

  abbrev pub found_by_id : String → Option D.Image → Call D Value (Option D.Image)
  found_by_id name none = raise (no_such_image name)
  found_by_id name (some image) = pure (some image)

  -- The action of a pull that has been done: it sets `changed`, also back to False.
  abbrev pub record_pull : String → String → Option D.Image × Bool → Call D Value (Option D.Image)
  record_pull repository tag (image, already_to_latest) =
      modify (λ s. record s { changed = not already_to_latest })
      >> modify (add_action D Value (pulled_image repository tag (some (not already_to_latest))))
      >> pure image

  abbrev pub certain_pull : Option D.Image → Option Bool
  certain_pull none = some true
  certain_pull (some image) = none

  abbrev pub pull : String → String → Option D.Image → Call D Value (Option D.Image)
  pull repository tag image =
      choose p.check_mode
        (when (is_missing image || p.always_in_check_mode)
            (modify (act D Value (pulled_image repository tag (certain_pull image))))
          >> pure image)
        (posts D Value uncaught (D.pull_image repository tag p.platform)
          >>= record_pull repository tag)

  abbrev pub pull_if_needed : String → String → Option D.Image → Call D Value (Option D.Image)
  pull_if_needed repository tag image =
      choose (is_missing image && is_never p.pull) (raise (image_not_pulled repository))
        (choose (is_missing image || is_always p.pull) (pull repository tag image) (pure image))

  abbrev pub pull_named : String × Option String → Call D Value (Option D.Image)
  pull_named (repository, tag) =
      find_by_name (repository, tag) >>= pull_if_needed repository (or_latest tag)

  -- The image of the parameter, which is not empty.
  unfoldable pub find_image : String → Call D Value (Option D.Image)
  unfolding is_image_name_id
  find_image name =
      choose (is_image_name_id name)
        (asks D Value (D.inspect_image_by_id name) >>= found_by_id name)
        (pull_named (setup.parse_repository_tag name))

  unfoldable pub container_image_if : Bool → Container → Call D Value (Option D.Image)
  unfolding get_container_image
  container_image_if wanted c = choose wanted (get_container_image c) (pure none)

  -- With `image_comparison: current-image`, the container's image is the one to compare with.
  unfoldable pub compare_with :
      Bool → Container → Option D.Image → Option D.Image → Call D Value (Images D.Image)
  unfolding get_container_image
  compare_with wanted c image container_image =
      choose p.current_image
        (choose wanted (pure container_image) (get_container_image c) >>= λ current.
          pure (record { image = image; container_image = current; comparison_image = current }))
        (pure
          (record { image = image; container_image = container_image; comparison_image = image }))

  unfoldable pub image_named : Bool → Container → String → Call D Value (Images D.Image)
  unfolding container_image_if find_image compare_with
  image_named wanted c name = do
    container_image ← container_image_if wanted c
    image ← find_image name
    compare_with wanted c image container_image

  unfoldable pub container_image_only : Container → Call D Value (Images D.Image)
  unfolding get_container_image
  container_image_only c = get_container_image c >>= λ i.
      pure (record { image = none; container_image = i; comparison_image = i })

  unfoldable pub image_for : Bool → Container → Option String → Call D Value (Images D.Image)
  unfolding container_image_only image_named
  image_for wanted c none = container_image_only c
  image_for wanted c (some name) =
      choose (name =? "") (container_image_only c) (image_named wanted c name)

  unfoldable pub get_image : Container → Bool → Call D Value (Images D.Image)
  unfolding image_for
  get_image c needs_container_image = image_for needs_container_image c p.image

  abbrev pub differs_from : Option String → String → Bool
  differs_from none image = false
  differs_from (some id) image = given (some id) && given (some image) && not (id =? image)

  abbrev pub id_of : Option D.Image → Option String
  id_of none = none
  id_of (some image) = D.image_id image

  unfoldable pub image_is_different : Option D.Image → Inspection → Call D Value Bool
  image_is_different image i =
      let different = differs_from (id_of image) i.image in
      when different
        (modify (track D Value (add "image" (text (id_of image)) (text (some i.image)))))
      >> pure different
