-- ===== src/Container/CheckMode.antt =====
-- Check mode: `run` of ContainerManager, with `present` and `absent`, and the daemon.
use openstack_osa_office_clu.Prelude.{
  ℕ, Bool, true, not, ◌&&◌, some, none, Option, String, ◌≡◌, arith,
}
use openstack_osa_office_clu.Prelude.Methods.{
  keeps_rules, pure-Keeps, choose-Keeps, choose-false-Keeps,
}
use openstack_osa_office_clu.Network.Config.{IpAddresses}
use openstack_osa_office_clu.Container.{
  Container, Inspection, Params, Target, absent, present, healthy, started, stopped,
}
use openstack_osa_office_clu.Container.Driver.{Clock, Driver, Setup, Here}
use openstack_osa_office_clu.Container.Images.{Images}
use openstack_osa_office_clu.Container.Prepare.{Prepared}
use openstack_osa_office_clu.Container.Prepare
use openstack_osa_office_clu.Container.Actions.{Raw}
use openstack_osa_office_clu.Container.Manager
use openstack_osa_office_clu.Container.Quiet.{
  Quiet, container_create-Quiet, container_remove-Quiet, container_start-Quiet,
  container_restart-Quiet, container_stop-Quiet, update_limits-Quiet, update_networks-Quiet,
  get_image-Quiet, image_is_different-Quiet,
}

module _ {Value : Type 0} (K : Clock) (D : Driver K.Seconds)
    (setup : Setup Value D.Image D.Host D.CreateParameters D.UpdateParameters)
    (p : Params K.Seconds) (ip : IpAddresses) (fuel : ℕ) where
  created_from-Quiet :
      (c : Container) (comparison_image : Option D.Image) (image : String)
      → p.check_mode ≡ true
      → Quiet D setup p (Prepare.created_from K D setup p ip fuel c comparison_image image)
  created_from-Quiet c comparison_image image h = search (keeps_rules, container_create-Quiet)

  wait_if_removing-Quiet :
      (c : Container)
      → p.check_mode ≡ true
      → Quiet D setup p (Prepare.wait_if_removing K D setup p ip fuel c)
  wait_if_removing-Quiet none h = search keeps_rules
  wait_if_removing-Quiet (some i) h = search keeps_rules

  create_from-Quiet :
      (c : Container) (images : Images D.Image) (o : Option String)
      → p.check_mode ≡ true
      → Quiet D setup p (Prepare.create_from K D setup p ip fuel c images o)
  unfolding Prepare.create_from
  create_from-Quiet c images none h = search keeps_rules
  create_from-Quiet c images (some image) h =
      search (keeps_rules, created_from-Quiet, wait_if_removing-Quiet)

  recreate_from-Quiet :
      (i : Inspection) (image : Option D.Image) (o : Option String)
      → p.check_mode ≡ true
      → Quiet D setup p (Prepare.recreate_from K D setup p ip fuel i image o)
  unfolding Prepare.recreate_from
  recreate_from-Quiet i image none h = search keeps_rules
  recreate_from-Quiet i image (some name) h =
      search (keeps_rules, created_from-Quiet, container_stop-Quiet, container_remove-Quiet) depth 7

  keep_or_recreate-Quiet :
      (i : Inspection) (images : Images D.Image) (host : Option D.Host)
      → p.check_mode ≡ true
      → Quiet D setup p (Prepare.keep_or_recreate K D setup p ip fuel i images host)
  unfolding Prepare.keep_or_recreate Prepare.recreate
  keep_or_recreate-Quiet i images host h =
      search (keeps_rules, recreate_from-Quiet, image_is_different-Quiet) depth 8

  prepare-Quiet :
      (c : Container) (images : Images D.Image) (host : Option D.Host)
      → p.check_mode ≡ true
      → Quiet D setup p (Prepare.prepare K D setup p ip fuel c images host)
  unfolding Prepare.prepare Prepare.create_new
  prepare-Quiet none images host h = create_from-Quiet none images _ h
  prepare-Quiet (some i) images host h =
      choose-Keeps _ (create_from-Quiet (some i) images _ h)
        (keep_or_recreate-Quiet i images host h)

  with_id-Quiet : (c : Container) → Quiet D setup p (Manager.with_id K D setup p ip fuel c)
  with_id-Quiet none = search keeps_rules
  with_id-Quiet (some i) = search keeps_rules

  set_running-Quiet :
      (was_running : Bool) (c : Container)
      → p.check_mode ≡ true
      → Quiet D setup p (Manager.set_running K D setup p ip fuel was_running c)
  unfolding Manager.set_running
  set_running-Quiet was_running c h =
      search
        (
          keeps_rules, with_id-Quiet, container_start-Quiet, container_restart-Quiet,
          container_stop-Quiet,
        )
        depth 9

  pause_as-Quiet :
      (was_paused : Bool) (raw : Raw D.Output) (o : Option Bool)
      → p.check_mode ≡ true
      → Quiet D setup p (Manager.pause_as K D setup p ip fuel was_paused raw o)
  unfolding Manager.pause_as Manager.change_pause Manager.pause_and_look
  pause_as-Quiet was_paused raw none h = search keeps_rules
  pause_as-Quiet was_paused raw (some wanted) h = search keeps_rules depth 8

  adjust-Quiet :
      (was : Container) (container_image image : Option D.Image) (host : Option D.Host)
      (created : Bool) (c : Container)
      → p.check_mode ≡ true
      → Quiet D setup p
          (Manager.adjust_found K D setup p ip fuel was container_image host image created c)
  unfolding Manager.adjust_found Manager.set_pause
  adjust-Quiet was container_image image host created none h = search keeps_rules
  adjust-Quiet was container_image image host created (some i) h =
      search
        (keeps_rules, update_limits-Quiet, update_networks-Quiet, set_running-Quiet, pause_as-Quiet)
        depth 7

  wait_if_healthy-Quiet :
      (raw : Raw D.Output)
      → p.check_mode ≡ true
      → Quiet D setup p (Manager.wait_if_healthy K D setup p ip fuel raw)
  unfolding Manager.wait_if_healthy
  wait_if_healthy-Quiet raw h =
      choose-false-Keeps (Prepare.wants_healthy p.target && not p.check_mode) _ (ground arith)
        (pure-Keeps tt)

  be_present-Quiet : p.check_mode ≡ true → Quiet D setup p (Manager.be_present K D setup p ip fuel)
  unfolding Manager.be_present Manager.adjust Manager.host_info
  be_present-Quiet h =
      search (keeps_rules, get_image-Quiet, prepare-Quiet, adjust-Quiet, wait_if_healthy-Quiet)
        depth 9

  remove_found-Quiet :
      (c : Container)
      → p.check_mode ≡ true
      → Quiet D setup p (Manager.remove_found K D setup p ip fuel c)
  unfolding Manager.remove_found
  remove_found-Quiet none h = search keeps_rules
  remove_found-Quiet (some i) h =
      search (keeps_rules, container_stop-Quiet, container_remove-Quiet) depth 7

  be-Quiet : (t : Target) → p.check_mode ≡ true → Quiet D setup p (Manager.be K D setup p ip fuel t)
  unfolding Manager.be Manager.be_absent
  be-Quiet absent h = search (keeps_rules, remove_found-Quiet)
  be-Quiet present h = be_present-Quiet h
  be-Quiet healthy h = be_present-Quiet h
  be-Quiet started h = be_present-Quiet h
  be-Quiet stopped h = be_present-Quiet h

  -- In check mode, a run leaves the daemon exactly as it is, for every state that is asked for,
  -- whatever the container, the image and the networks are, and also where the run fails.
  pub run-check_mode :
      (s : Here D Value)
      → p.check_mode ≡ true
      → (Manager.run K D setup p ip fuel s).1.daemon ≡ s.daemon
  unfolding Manager.run
  run-check_mode s h = (be-Quiet p.target h).same s
