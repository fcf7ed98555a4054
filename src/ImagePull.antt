-- ===== src/ImagePull.antt =====
-- The module docker_image_pull:
-- collections/ansible_collections/community/docker/plugins/modules/docker_image_pull.py.
pub mod CheckMode
mod Examples
use openstack_osa_office_clu.Prelude.{
  Bool, true, false, not, List, [], ◌∷◌, if◌then◌else◌, some, none, Option, Result, ok, err,
}
use openstack_osa_office_clu.Prelude.Text.{Text, codes}
use openstack_osa_office_clu.Platform.{
  PlatformError, normalize_platform_string, compose_platform_string, compare_platform_strings,
}

-- An image as the daemon describes it, and what it tells of its host.
pub record Image : Type 0 where
  pub id : Text
  pub os : Option Text
  pub architecture : Option Text
  pub variant : Option Text

pub record HostInfo : Type 0 where
  pub os_type : Option Text
  pub architecture : Option Text

-- The client's calls. `pull_image` also says whether the image was there already.
pub record Registry : Type 1 where
  pub State : Type 0
  pub ApiError : Type 0
  pub find_image : Text → Text → State → Result ApiError (Option Image)
  pub info : State → Result ApiError HostInfo
  pub pull_image : Text → Text → Option Text → State → Result ApiError (Image × Bool) × State

pub data PullMode : Type 0 where
  always not_present : PullMode

-- The fields of `ImagePuller`.
pub record ImagePuller : Type 0 where
  pub name : Text
  pub tag : Text
  pub platform : Option Text
  pub pull_mode : PullMode
  pub check_mode : Bool

-- `image_info`: the ID, or `{"exists": False}`
pub data ImageInfo : Type 0 where
  found : Text → ImageInfo
  missing : ImageInfo

abbrev pub image_info : Option Image → ImageInfo
image_info none = missing
image_info (some i) = found i.id

-- The action `Pulled image name:tag`.
pub data PullAction : Type 0 where
  pulled : Text → Text → PullAction

pub record Results : Type 0 where
  pub changed : Bool
  pub actions : List PullAction
  pub image : Option Image
  pub before : ImageInfo
  pub after : ImageInfo

-- An error of the API, or the `ValueError` for a platform.
pub data PullError (E : Type 0) : Type 0 where
  api : E → PullError E
  bad_platform : PlatformError → PullError E

module _ (R : Registry) where
  abbrev pub Found : Type 0 → Type 0
  Found A = Result (PullError R.ApiError) A

  abbrev pub from_api : {A : Type 0} → Result R.ApiError A → Found A
  from_api (ok a) = ok a
  from_api (err e) = err (api e)

  abbrev pub from_platform : {A : Type 0} → Result PlatformError A → Found A
  from_platform (ok a) = ok a
  from_platform (err e) = err (bad_platform e)

  infixl 5 ◌>>=◌
  abbrev pub ◌>>=◌ : {A B : Type 0} → Found A → (A → Found B) → Found B
  err e >>= f = err e
  ok a >>= f = f a

  -- Whether the image has the platform that is asked for.
  pub has_platform : Text → Image → R.State → Found Bool
  unfolding normalize_platform_string compose_platform_string compare_platform_strings
  has_platform platform i s = from_api (R.info s) >>= λ host.
      from_platform (normalize_platform_string platform host.os_type host.architecture)
      >>= λ wanted.
          from_platform
            (compose_platform_string i.os i.architecture i.variant host.os_type host.architecture)
          >>= λ present. from_platform (compare_platform_strings wanted present)

  -- Whether `pull` returns before anything is pulled.
  unfoldable pub is_up_to_date : ImagePuller → Option Image → R.State → Found Bool
  unfolding has_platform
  is_up_to_date p none s = ok false
  is_up_to_date p (some i) s = elim p.pull_mode [
    | always ↦ ok false
    | not_present ↦ elim p.platform [ none ↦ ok true | some platform ↦ has_platform platform i s ]
  ]

  abbrev pub initial_results : Option Image → Results
  initial_results image = record {
    changed = false;
    actions = [];
    image = image;
    before = image_info image;
    after = image_info image;
  }

  -- What is pulled, or in check mode reported.
  unfoldable pub do_pull : ImagePuller → Results → R.State → Found Results × R.State
  do_pull p r s =
      let acted = record r { actions = pulled p.name p.tag ∷ [] } in
      if p.check_mode
      then (ok (record acted { changed = true; after = found (codes "unknown") }), s)
      else (let (answer, s') = R.pull_image p.name p.tag p.platform s in
          elim answer [
            | err e ↦ (err (api e), s')
            | ok (i, not_changed) ↦ (
              ok (record acted { image = some i; changed = not not_changed; after = found i.id }),
              s',
            )
          ])

  abbrev pub pull_unless :
      ImagePuller → Option Image → Found Bool → R.State → Found Results × R.State
  pull_unless p image (err e) s = (err e, s)
  pull_unless p image (ok true) s = (ok (initial_results image), s)
  pull_unless p image (ok false) s = do_pull p (initial_results image) s

  abbrev pub pull_found : ImagePuller → Found (Option Image) → R.State → Found Results × R.State
  pull_found p (err e) s = (err e, s)
  pull_found p (ok image) s = pull_unless p image (is_up_to_date p image s) s

  unfoldable pub pull : ImagePuller → R.State → Found Results × R.State
  unfolding is_up_to_date do_pull
  pull p s = pull_found p (from_api (R.find_image p.name p.tag s)) s
