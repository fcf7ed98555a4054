-- ===== src/Container/Runs.antt =====
-- Whole runs of ContainerManager, and what they report.
use openstack_osa_office_clu.Prelude.{
  ℕ, Bool, true, some, none, Option, String, [], any, ◌≡◌, arith, Result,
}
use openstack_osa_office_clu.Prelude.Hoare.{
  Holds, holds_rules, reads-Holds, bind-Holds, choose-Holds, Leads, behind-Leads, later-Leads,
  first-Leads,
}
use openstack_osa_office_clu.Network.Config.{IpAddresses}
use openstack_osa_office_clu.Container.{
  Container, Inspection, Params, Target, absent, present, healthy, started, stopped,
}
use openstack_osa_office_clu.Container.Driver.{Clock, Driver, Setup, Stop, Here, Call, posts}
use openstack_osa_office_clu.Container.Images
use openstack_osa_office_clu.Container.Actions.{Raw, get_container}
use openstack_osa_office_clu.Container.Prepare
use openstack_osa_office_clu.Container.Prepare.{Prepared}
use openstack_osa_office_clu.Container.Manager
use openstack_osa_office_clu.Container.Reporting.{
  is_change, HasReported, posts-Holds, container_create-Reports, get_container-Reports,
  container_remove-Reports, container_start-Reports, container_restart-Reports,
  container_stop-Reports, update_limits-Reports, update_networks-Reports,
}
use openstack_osa_office_clu.Container.Waiting.{Wait, wait_for_state}
use openstack_osa_office_clu.Container.Changed.{
  IsFresh, fresh_reports, image_for-Leads, image_is_different-Reports,
}
use openstack_osa_office_clu.Container.Polling.{wait_for_state-Holds}

module _ {Value : Type 0} (K : Clock) (D : Driver K.Seconds)
    (setup : Setup Value D.Image D.Host D.CreateParameters D.UpdateParameters)
    (p : Params K.Seconds) (ip : IpAddresses) (fuel : ℕ) where
  abbrev Reports : {A : Type 0} → Call D Value A → Type 0
  Reports m = Holds (HasReported D setup p) m

  waits-Reports : (w : Wait K.Seconds) (id : String) → Reports (wait_for_state K D Value w id fuel)
  waits-Reports w id = wait_for_state-Holds K D Value w id (HasReported D setup p) (λ s d h. h) fuel

  posts-Reports :
      {A : Type 0} (stop : D.Failure → Stop D.Failure) (f : D.State → Result D.Failure A × D.State)
      → Reports (posts D Value stop f)
  posts-Reports stop f = posts-Holds D setup p (HasReported D setup p) stop f (λ s d h. h)

  created_from-Reports :
      (c : Container) (comparison_image : Option D.Image) (image : String)
      → Reports (Prepare.created_from K D setup p ip fuel c comparison_image image)
  created_from-Reports c comparison_image image = search (holds_rules, container_create-Reports)

  wait_if_removing-Reports :
      (c : Container) → Reports (Prepare.wait_if_removing K D setup p ip fuel c)
  wait_if_removing-Reports none = search holds_rules
  wait_if_removing-Reports (some i) = search (holds_rules, waits-Reports)

  create_from-Reports :
      (c : Container) (images : Images.Images D.Image) (o : Option String)
      → Reports (Prepare.create_from K D setup p ip fuel c images o)
  unfolding Prepare.create_from
  create_from-Reports c images none = search holds_rules
  create_from-Reports c images (some image) =
      search (holds_rules, created_from-Reports, wait_if_removing-Reports)

  recreate_from-Reports :
      (i : Inspection) (image : Option D.Image) (o : Option String)
      → Reports (Prepare.recreate_from K D setup p ip fuel i image o)
  unfolding Prepare.recreate_from
  recreate_from-Reports i image none = search holds_rules
  recreate_from-Reports i image (some name) =
      search
        (
          holds_rules, created_from-Reports, container_stop-Reports, container_remove-Reports,
          waits-Reports,
        )
        depth 8

  keep_or_recreate-Reports :
      (i : Inspection) (images : Images.Images D.Image) (host : Option D.Host)
      → Reports (Prepare.keep_or_recreate K D setup p ip fuel i images host)
  unfolding Prepare.keep_or_recreate Prepare.recreate
  keep_or_recreate-Reports i images host =
      search (holds_rules, recreate_from-Reports, image_is_different-Reports) depth 8

  prepare-Reports :
      (c : Container) (images : Images.Images D.Image) (host : Option D.Host)
      → Reports (Prepare.prepare K D setup p ip fuel c images host)
  unfolding Prepare.prepare Prepare.create_new
  prepare-Reports none images host = create_from-Reports none images _
  prepare-Reports (some i) images host =
      choose-Holds _ (create_from-Reports (some i) images _)
        (keep_or_recreate-Reports i images host)

  with_id-Reports : (c : Container) → Reports (Manager.with_id K D setup p ip fuel c)
  with_id-Reports none = search holds_rules
  with_id-Reports (some i) = search holds_rules

  set_running-Reports :
      (was_running : Bool) (c : Container)
      → Reports (Manager.set_running K D setup p ip fuel was_running c)
  unfolding Manager.set_running
  set_running-Reports was_running c =
      search
        (
          holds_rules, with_id-Reports, container_start-Reports, container_restart-Reports,
          container_stop-Reports,
        )
        depth 9

  pause_as-Reports :
      (was_paused : Bool) (raw : Raw D.Output) (o : Option Bool)
      → Reports (Manager.pause_as K D setup p ip fuel was_paused raw o)
  unfolding Manager.pause_as Manager.change_pause Manager.pause_and_look
  pause_as-Reports was_paused raw none = search holds_rules
  pause_as-Reports was_paused raw (some wanted) =
      search (holds_rules, posts-Reports, with_id-Reports) depth 9

  adjust-Reports :
      (was : Container) (container_image image : Option D.Image) (host : Option D.Host)
      (created : Bool) (c : Container)
      → Reports (Manager.adjust_found K D setup p ip fuel was container_image host image created c)
  unfolding Manager.adjust_found Manager.set_pause
  adjust-Reports was container_image image host created none = search holds_rules
  adjust-Reports was container_image image host created (some i) =
      search
        (
          holds_rules, update_limits-Reports, update_networks-Reports, set_running-Reports,
          pause_as-Reports,
        )
        depth 7

  facts_of-Reports : (c : Container) → Reports (Manager.facts_of K D setup p ip fuel c)
  facts_of-Reports none = search holds_rules
  facts_of-Reports (some i) = search holds_rules

  wait_if_healthy-Reports :
      (raw : Raw D.Output) → Reports (Manager.wait_if_healthy K D setup p ip fuel raw)
  unfolding Manager.wait_if_healthy
  wait_if_healthy-Reports raw =
      search (holds_rules, with_id-Reports, waits-Reports, facts_of-Reports) depth 8

  be_present-Leads :
      Leads (IsFresh D setup p) (HasReported D setup p) (Manager.be_present K D setup p ip fuel)
  unfolding Manager.be_present Manager.adjust Manager.host_info Images.get_image get_container
  be_present-Leads = later-Leads (fresh_reports D setup p) (reads-Holds _) (λ c.
      first-Leads (image_for-Leads D setup p _ c p.image) (λ images.
        search (holds_rules, prepare-Reports, adjust-Reports, wait_if_healthy-Reports) depth 9))

  remove_found-Reports : (c : Container) → Reports (Manager.remove_found K D setup p ip fuel c)
  unfolding Manager.remove_found
  remove_found-Reports none = search holds_rules
  remove_found-Reports (some i) =
      search (holds_rules, container_stop-Reports, container_remove-Reports) depth 7

  be-Leads :
      (t : Target)
      → Leads (IsFresh D setup p) (HasReported D setup p) (Manager.be K D setup p ip fuel t)
  unfolding Manager.be Manager.be_absent
  be-Leads absent =
      behind-Leads (fresh_reports D setup p)
        (bind-Holds (get_container-Reports D setup p p.name) remove_found-Reports)
  be-Leads present = be_present-Leads
  be-Leads healthy = be_present-Leads
  be-Leads started = be_present-Leads
  be-Leads stopped = be_present-Leads

  -- A run that starts without actions and ends with one that is a change, done or, in check mode,
  -- announced, has `changed` set, whether it returns or fails; a pull that found the image up to date
  -- is the only action that is no change.
  pub run-changed :
      (s : Here D Value)
      → s.actions ≡ []
      → any is_change (Manager.run K D setup p ip fuel s).1.actions ≡ true
      → (Manager.run K D setup p ip fuel s).1.changed ≡ true
  unfolding Manager.run
  run-changed s h c = ground (arith, (be-Leads p.target).led s h, c)
