-- ===== src/Container/Quiet.antt =====
-- Check mode: the methods of Actions, Updates and Images, and the daemon.
use openstack_osa_office_clu.Prelude.{Bool, true, some, none, Option, String, List, ◌≡◌}
use openstack_osa_office_clu.Prelude.Methods.{
  Keeps, keeps_rules, pure-Keeps, bind-Keeps, choose-Keeps,
}
use openstack_osa_office_clu.Network.Config.{IpAddresses}
use openstack_osa_office_clu.Container.{Container, Endpoint, Inspection, Params}
use openstack_osa_office_clu.Container.Driver.{Driver, Setup, Here, Call}
use openstack_osa_office_clu.Container.Actions
use openstack_osa_office_clu.Container.Updates
use openstack_osa_office_clu.Container.Images.{
  get_container_image, found_by_id, find_image, container_image_only, image_named, compare_with,
  container_image_if, image_for, get_image, image_is_different,
}
use openstack_osa_office_clu.Container.Networks.{NetworkDifference}
use openstack_osa_office_clu.Container.Differences.{Seen}

module _ {Seconds Value : Type 0} (D : Driver Seconds)
    (setup : Setup Value D.Image D.Host D.CreateParameters D.UpdateParameters)
    (p : Params Seconds) where
  -- Leaves the daemon as it is.
  abbrev pub Quiet : {A : Type 0} → Call D Value A → Type 0
  Quiet m = Keeps (λ (s : Here D Value). s.daemon) m

  pub get_container-Quiet : (id : String) → Quiet (Actions.get_container D setup p id)
  unfolding Actions.get_container
  get_container-Quiet id = search keeps_rules

  pub container_create-Quiet :
      (image : String) → p.check_mode ≡ true → Quiet (Actions.container_create D setup p image)
  unfolding Actions.container_create
  container_create-Quiet image h = search keeps_rules

  pub container_remove-Quiet :
      (id : String) (force : Bool)
      → p.check_mode ≡ true
      → Quiet (Actions.container_remove D setup p id force)
  unfolding Actions.container_remove
  container_remove-Quiet id force h = search keeps_rules

  pub container_start-Quiet :
      (id : String) → p.check_mode ≡ true → Quiet (Actions.container_start D setup p id)
  unfolding Actions.container_start
  container_start-Quiet id h = search keeps_rules

  pub container_update-Quiet :
      (id : String) (parameters : D.UpdateParameters)
      → p.check_mode ≡ true
      → Quiet (Actions.container_update D setup p id parameters)
  unfolding Actions.container_update
  container_update-Quiet id parameters h = search keeps_rules

  pub container_kill-Quiet :
      (id : String) → p.check_mode ≡ true → Quiet (Actions.container_kill D setup p id)
  unfolding Actions.container_kill
  container_kill-Quiet id h = search keeps_rules

  pub container_restart-Quiet :
      (id : String) → p.check_mode ≡ true → Quiet (Actions.container_restart D setup p id)
  unfolding Actions.container_restart
  container_restart-Quiet id h = search keeps_rules

  pub container_stop-Quiet :
      (id : String) → p.check_mode ≡ true → Quiet (Actions.container_stop D setup p id)
  unfolding Actions.container_stop
  container_stop-Quiet id h = search (keeps_rules, container_kill-Quiet)

  pub update_limits-Quiet :
      (seen : Seen D.Image D.Host)
      → p.check_mode ≡ true
      → Quiet (Updates.update_limits D setup p seen)
  unfolding Updates.update_limits
  update_limits-Quiet seen h = search (keeps_rules, container_update-Quiet)

  pub add_networks-Quiet :
      (id : String) (differences : List NetworkDifference)
      → p.check_mode ≡ true
      → Quiet (Updates.add_networks D setup p id differences)
  unfolding Updates.add_networks
  add_networks-Quiet id differences h = search keeps_rules depth 9

  pub purge_networks-Quiet :
      (id : String) (extra : List (String × Endpoint))
      → p.check_mode ≡ true
      → Quiet (Updates.purge_networks D setup p id extra)
  unfolding Updates.purge_networks
  purge_networks-Quiet id extra h = search keeps_rules depth 9

  pub update_networks-Quiet :
      (ip : IpAddresses) (c : Container) (container_created : Bool)
      → p.check_mode ≡ true
      → Quiet (Updates.update_networks D setup p ip c container_created)
  unfolding Updates.update_networks
  update_networks-Quiet ip none container_created h = search keeps_rules
  update_networks-Quiet ip (some i) container_created h =
      search (keeps_rules, add_networks-Quiet, purge_networks-Quiet) depth 9

  pub get_container_image-Quiet : (c : Container) → Quiet (get_container_image D setup p c)
  unfolding get_container_image
  get_container_image-Quiet none = search keeps_rules
  get_container_image-Quiet (some i) = search keeps_rules

  pub found_by_id-Quiet :
      (name : String) (found : Option D.Image) → Quiet (found_by_id D setup p name found)
  found_by_id-Quiet name none = search keeps_rules
  found_by_id-Quiet name (some image) = search keeps_rules

  pub find_image-Quiet : (name : String) → p.check_mode ≡ true → Quiet (find_image D setup p name)
  unfolding find_image
  find_image-Quiet name h = search (keeps_rules, found_by_id-Quiet) depth 9

  pub container_image_only-Quiet : (c : Container) → Quiet (container_image_only D setup p c)
  unfolding container_image_only
  container_image_only-Quiet c = bind-Keeps (get_container_image-Quiet c) (λ i. pure-Keeps _)

  pub image_for-Quiet :
      (needs : Bool) (c : Container) (o : Option String)
      → p.check_mode ≡ true
      → Quiet (image_for D setup p needs c o)
  unfolding image_for image_named compare_with container_image_if
  image_for-Quiet needs c none h = container_image_only-Quiet c
  image_for-Quiet needs c (some name) h =
      choose-Keeps _ (container_image_only-Quiet c)
        (search (keeps_rules, get_container_image-Quiet, find_image-Quiet) depth 9)

  pub get_image-Quiet :
      (c : Container) (needs : Bool) → p.check_mode ≡ true → Quiet (get_image D setup p c needs)
  unfolding get_image
  get_image-Quiet c needs h = image_for-Quiet needs c p.image h

  pub image_is_different-Quiet :
      (image : Option D.Image) (i : Inspection) → Quiet (image_is_different D setup p image i)
  unfolding image_is_different
  image_is_different-Quiet image i = search keeps_rules
