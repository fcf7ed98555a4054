-- ===== src/ImagePull/Examples.antt =====
-- docker_image_pull against a daemon that keeps one image, and the theorems at runs of it.
use openstack_osa_office_clu.Prelude.{ℕ, true, false, [], ◌∷◌, some, none, Option, ok, ◌≡◌, refl}
use openstack_osa_office_clu.Prelude.Text.{codes}
use openstack_osa_office_clu.ImagePull.{
  Registry, Image, ImagePuller, Results, not_present, pulled, pull, initial_results,
}
use openstack_osa_office_clu.ImagePull.CheckMode.{in_check_mode, pull-in_check_mode}

abbrev arm_image : Image
arm_image = record {
  id = codes "sha256:1";
  os = some (codes "linux");
  architecture = some (codes "arm64");
  variant = some (codes "v8");
}

abbrev amd_image : Image
amd_image = record {
  id = codes "sha256:2";
  os = some (codes "linux");
  architecture = some (codes "amd64");
  variant = none;
}

-- The state is the image that is there, if any; a pull puts the image for `amd64` in its place.
abbrev one_image : Registry
one_image = record {
  State = Option Image;
  ApiError = ℕ;
  find_image = λ name tag s. ok s;
  info = λ s. ok (record { os_type = some (codes "linux"); architecture = some (codes "x86_64") });
  pull_image = λ name tag platform s. (ok (amd_image, false), some amd_image);
}

abbrev wanted : ImagePuller
wanted = record {
  name = codes "nginx";
  tag = codes "latest";
  platform = some (codes "linux/amd64");
  pull_mode = not_present;
  check_mode = false;
}

-- An image for another platform is replaced.
pull_other : (pull one_image wanted (some arm_image)).1 ≡ some amd_image
unfolding pull
pull_other = refl

-- An image for the platform that is asked for is kept.
pull_same :
    pull one_image wanted (some amd_image)
    ≡ (ok (initial_results one_image (some amd_image)), some amd_image)
unfolding pull
pull_same = refl

pull-in_check_mode_example :
    (r' : Results) × (pull one_image (in_check_mode wanted) (some arm_image)
      ≡ (ok r', some arm_image))
    × (r'.actions ≡ pulled (codes "nginx") (codes "latest") ∷ [])
    × (true ≡ true → r'.changed ≡ true)
unfolding pull
pull-in_check_mode_example = pull-in_check_mode one_image wanted (some arm_image) refl
