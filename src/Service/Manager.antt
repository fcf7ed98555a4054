-- ===== src/Service/Manager.antt =====
-- DockerServiceManager: `get_image_digest`, `run` and `run_safe`. What the SDK's client says of a
-- service (`get_service`), the service of the parameters (`from_ansible_params`, with its ids of
-- secrets, configs and networks) and the calls that change services are the interface `Client`.
use openstack_osa_office_clu.Prelude.{
  ℕ, zero, suc, Bool, true, false, not, ◌||◌, List, [], if◌then◌else◌, some, none, Option, String,
  string_eq, ◌=?◌, Result, ok, err,
}
use Prim.Native.String.{◌++◌ as ◌<>◌}
use openstack_osa_office_clu.Prelude.Programs.{Program}
use openstack_osa_office_clu.Prelude.Methods.{pure, reads, ◌>>=◌, ◌>>◌, choose}
use openstack_osa_office_clu.Util.Differences.{get_legacy_docker_diffs}
use openstack_osa_office_clu.Service.{Values, DockerService}
use openstack_osa_office_clu.Service.Compare.{Comparison, compare}

pub data Message : Type 0 where
  removed rebuilt updated forcefully_updated unchanged absent created : Message

-- What `client.fail` ends the module with, and exceptions that leave `run`.
pub data Stop (Failure : Type 0) : Type 0 where
  no_image no_service bad_parameters : Failure → Stop Failure
  raised : Failure → Stop Failure

pub record Client (V : Type 0) : Type 1 where
  pub State : Type 0
  pub Failure : Type 0
  pub inspect_distribution : String → State → Result Failure String
  pub parse_repository_tag : String → String × Option String
  pub get_service : String → State → Result Failure (Option (DockerService V))
  pub from_ansible_params :
      Option (DockerService V) → String → State → Result Failure (DockerService V)
  pub create_service : String → DockerService V → State → Result Failure (Unit {0}) × State
  pub update_service :
      String → DockerService V → DockerService V → State → Result Failure (Unit {0}) × State
  pub remove_service : String → State → Result Failure (Unit {0}) × State
  -- An APIError with "update out of sequence" in its explanation.
  pub is_out_of_sequence : Failure → Bool
  pub sleep : State → State

pub record Params : Type 0 where
  pub name : String
  pub image : String
  pub resolve_image : Bool
  pub absent : Bool
  pub check_mode : Bool

-- The answer of `run`, less the facts.
pub record Answer : Type 0 where
  pub msg : Message
  pub changed : Bool
  pub rebuilt : Bool
  pub differences : List String

module _ {V : Type 0} (values : Values V) (no_test : V) (C : Client V) (p : Params) where
  abbrev pub Call : Type 0 → Type 0
  Call A = Program (Stop C.Failure) C.State A

  abbrev pub or_stop :
      {A : Type 0} → (C.Failure → Stop C.Failure) → Result C.Failure A → Result (Stop C.Failure) A
  or_stop stop (ok a) = ok a
  or_stop stop (err e) = err (stop e)

  abbrev pub asks :
      {A : Type 0} → (C.Failure → Stop C.Failure) → (C.State → Result C.Failure A) → Call A
  asks stop f = reads (λ s. or_stop stop (f s))

  unfoldable pub posts : {A : Type 0} → (C.State → Result C.Failure A × C.State) → Call A
  posts f s = let answer = f s in (or_stop raised answer.0, answer.1)

  abbrev pub tag_text : Option String → String
  tag_text none = "latest"
  tag_text (some tag) = if tag =? "" then "latest" else tag

  abbrev pub with_tag : String × Option String → String
  with_tag (repo, tag) = repo <> (":" <> tag_text tag)

  unfoldable pub get_image_digest : String → Bool → Call String
  get_image_digest name resolve = choose (name =? "" || not resolve) (pure name) (
      let full = with_tag (C.parse_repository_tag name) in
      asks no_image (C.inspect_distribution full) >>= λ digest. pure (full <> ("@" <> digest)))

  -- `if not module.check_mode:`
  abbrev pub unless_check : Call (Unit {0}) → Call (Unit {0})
  unless_check m = choose p.check_mode (pure tt) m

  abbrev pub answer : Message → Bool → Bool → List String → Call Answer
  answer msg changed anew differences =
      pure (record { msg = msg; changed = changed; rebuilt = anew; differences = differences })

  unfoldable pub replace : DockerService V → Comparison V → Call Answer
  replace new c =
      unless_check (posts (C.remove_service p.name) >> posts (C.create_service p.name new))
      >> answer rebuilt true true (get_legacy_docker_diffs c.differences)

  unfoldable pub update : DockerService V → DockerService V → List String → Message → Call Answer
  update current new differences msg =
      unless_check (posts (C.update_service p.name current new))
      >> answer msg true false differences

  -- The branches behind `new_service.compare(current_service)`.
  unfoldable pub apply : DockerService V → DockerService V → Comparison V → Call Answer
  unfolding replace update
  apply current new c =
      choose c.changed
        (choose c.needs_rebuild (replace new c)
          (update current new (get_legacy_docker_diffs c.differences) updated))
        (choose c.force_update
          (update current new (get_legacy_docker_diffs c.differences) forcefully_updated)
          (answer unchanged false false (get_legacy_docker_diffs c.differences)))

  unfoldable pub run_with : DockerService V → Option (DockerService V) → Call Answer
  unfolding apply compare
  run_with new none =
      choose p.absent (answer absent false false [])
        (unless_check (posts (C.create_service p.name new)) >> answer created true false [])
  run_with new (some current) =
      choose p.absent
        (unless_check (posts (C.remove_service p.name)) >> answer removed true false [])
        (apply current new (compare values no_test new current))

  unfoldable pub run : Call Answer
  unfolding get_image_digest run_with
  run = do
    image ← get_image_digest p.image p.resolve_image
    current ← asks no_service (C.get_service p.name)
    new ← asks bad_parameters (C.from_ansible_params current image)
    run_with new current

  abbrev pub is_retried : Stop C.Failure → Bool
  is_retried (raised e) = C.is_out_of_sequence e
  is_retried (no_image e) = false
  is_retried (no_service e) = false
  is_retried (bad_parameters e) = false

  -- `except APIError`, with `self.retries` left; the run itself where it is not retried.
  abbrev pub retry_after :
      Result (Stop C.Failure) Answer × C.State
      → (C.State → Result (Stop C.Failure) Answer × C.State)
      → Result (Stop C.Failure) Answer × C.State
  retry_after (ok a, s) again = (ok a, s)
  retry_after (err e, s) again = if is_retried e then again (C.sleep s) else (err e, s)

  unfoldable pub run_safe : ℕ → Call Answer
  unfolding run
  run_safe zero s = run s
  run_safe (suc retries) s = retry_after (run s) (run_safe retries)
