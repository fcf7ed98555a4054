-- ===== src/Container/Reporting.antt =====
-- What the methods of Actions and Updates report: `changed`, and their actions.
use openstack_osa_office_clu.Prelude.{
  Bool, true, not, ◌||◌, some, none, String, List, any, ◌≡◌, refl, arith, ok, err, Result,
}
use openstack_osa_office_clu.Prelude.Programs.{continue_with}
use openstack_osa_office_clu.Prelude.Methods.{modify, ◌>>=◌, ◌>>◌}
use openstack_osa_office_clu.Prelude.Hoare.{
  Holds, holds_rules, pure-Holds, choose-Holds, for_each-Holds,
}
use openstack_osa_office_clu.Network.Config.{IpAddresses}
use openstack_osa_office_clu.Container.{Container, Endpoint, Inspection, Params}
use openstack_osa_office_clu.Container.Driver.{
  Driver, Setup, Stop, Action, pulled_image, created, started_it, updated, restarted,
  removed_from_network, added_to_network, removed, killed, stopped_it, set_paused, Here, Call,
  posts,
}
use openstack_osa_office_clu.Container.Networks.{NetworkDifference}
use openstack_osa_office_clu.Container.Differences.{Seen}
use openstack_osa_office_clu.Container.Actions
use openstack_osa_office_clu.Container.Updates

-- Every action but a pull that found the image up to date.
abbrev pub is_change : Action → Bool
is_change (pulled_image repository tag (some changed)) = changed
is_change (pulled_image repository tag none) = true
is_change (created networks) = true
is_change (started_it id) = true
is_change (updated id) = true
is_change (restarted id) = true
is_change (removed_from_network name) = true
is_change (added_to_network name) = true
is_change (removed id volumes force) = true
is_change (killed id signal) = true
is_change (stopped_it id timeout) = true
is_change (set_paused wanted) = true

module _ {Seconds Value : Type 0} (D : Driver Seconds)
    (setup : Setup Value D.Image D.Host D.CreateParameters D.UpdateParameters)
    (p : Params Seconds) where
  abbrev pub HasReported : Here D Value → Type 0
  HasReported s = (s.changed || not (any is_change s.actions)) ≡ true

  abbrev pub IsChanged : Here D Value → Type 0
  IsChanged s = s.changed ≡ true

  changed_reports : (s : Here D Value) → IsChanged s → HasReported s
  changed_reports s h = ground (arith, h)

  module _ (I : Here D Value → Type 0) where
    pub posts-Holds :
        {A : Type 0} (stop : D.Failure → Stop D.Failure)
        (f : D.State → Result D.Failure A × D.State)
        → ((s : Here D Value) (d : D.State) → I s → I (record s { daemon = d }))
        → Holds I (posts D Value stop f)
    unfolding posts
    posts-Holds stop f h = record { kept = λ s i. h s (f s.daemon).1 i }

  pub container_create-Reports :
      (image : String) → Holds HasReported (Actions.container_create D setup p image)
  unfolding Actions.container_create Actions.get_container
  container_create-Reports image = search (holds_rules, posts-Holds) depth 8

  pub get_container-Reports : (id : String) → Holds HasReported (Actions.get_container D setup p id)
  unfolding Actions.get_container
  get_container-Reports id = search holds_rules

  pub container_remove-Reports :
      (id : String) (force : Bool) → Holds HasReported (Actions.container_remove D setup p id force)
  unfolding Actions.container_remove
  container_remove-Reports id force = search (holds_rules, posts-Holds) depth 8

  pub wait_for_end-Reports : (id : String) → Holds HasReported (Actions.wait_for_end D setup p id)
  unfolding Actions.wait_for_end
  wait_for_end-Reports id = search (holds_rules, posts-Holds, container_remove-Reports) depth 12

  pub container_start-Reports :
      (id : String) → Holds HasReported (Actions.container_start D setup p id)
  unfolding Actions.container_start
  container_start-Reports id = search (holds_rules, posts-Holds, wait_for_end-Reports) depth 8

  pub container_update-Reports :
      (id : String) (parameters : D.UpdateParameters)
      → Holds HasReported (Actions.container_update D setup p id parameters)
  unfolding Actions.container_update
  container_update-Reports id parameters = search (holds_rules, posts-Holds) depth 8

  pub container_kill-Reports :
      (id : String) → Holds HasReported (Actions.container_kill D setup p id)
  unfolding Actions.container_kill
  container_kill-Reports id = search (holds_rules, posts-Holds) depth 8

  pub container_restart-Reports :
      (id : String) → Holds HasReported (Actions.container_restart D setup p id)
  unfolding Actions.container_restart
  container_restart-Reports id = search (holds_rules, posts-Holds) depth 8

  pub container_stop-Reports :
      (id : String) → Holds HasReported (Actions.container_stop D setup p id)
  unfolding Actions.container_stop
  container_stop-Reports id = search (holds_rules, posts-Holds, container_kill-Reports) depth 8

  pub update_limits-Reports :
      (seen : Seen D.Image D.Host) → Holds HasReported (Updates.update_limits D setup p seen)
  unfolding Updates.update_limits
  update_limits-Reports seen = search (holds_rules, container_update-Reports) depth 8

  -- The methods for networks add actions after `changed` has been set.
  add_networks-Changed :
      (id : String) (differences : List NetworkDifference)
      → Holds IsChanged (Updates.add_networks D setup p id differences)
  unfolding Updates.add_networks Actions.get_container
  add_networks-Changed id differences = search (holds_rules, posts-Holds) depth 12

  purge_networks-Changed :
      (id : String) (extra : List (String × Endpoint))
      → Holds IsChanged (Updates.purge_networks D setup p id extra)
  unfolding Updates.purge_networks Actions.get_container
  purge_networks-Changed id extra = search (holds_rules, posts-Holds) depth 12

  pub change-Reports :
      {A : Type 0} (k : Call D Value (Unit {0})) (m : Call D Value A)
      → Holds HasReported k
      → Holds IsChanged m
      → Holds HasReported (k >> Updates.change D setup p >> m)
  unfolding ◌>>=◌ modify
  change-Reports {A} k m h j = record { kept = λ s i. after (k s) (h.kept s i) }
    where
      after :
          (r : Result (Stop D.Failure) (Unit {0}) × Here D Value)
          → HasReported r.1
          → HasReported (continue_with (λ _. m) (continue_with (λ _. Updates.change D setup p) r)).1
      after (ok a, t) i =
          let ended = (m (record t { changed = true })).1 in
          changed_reports ended (j.kept (record t { changed = true }) refl)
      after (err e, t) i = i

  pub connect_different-Reports :
      (i : Inspection) (differences : List NetworkDifference)
      → Holds HasReported (Updates.connect_different D setup p i differences)
  connect_different-Reports i differences =
      search (holds_rules, change-Reports, add_networks-Changed) depth 8

  pub disconnect_extra-Reports :
      (i : Inspection) (c : Container) (extra : List (String × Endpoint))
      → Holds HasReported (Updates.disconnect_extra D setup p i c extra)
  disconnect_extra-Reports i c extra =
      choose-Holds _
        (change-Reports _ _ (for_each-Holds extra track_extra-Reports)
          (purge_networks-Changed i.id extra))
        (pure-Holds _)
    where
      track_extra-Reports :
          (n : String × Endpoint) → Holds HasReported (Updates.track_extra D setup p n)
      track_extra-Reports (name, e) = search holds_rules

  pub update_networks-Reports :
      (ip : IpAddresses) (c : Container) (container_created : Bool)
      → Holds HasReported (Updates.update_networks D setup p ip c container_created)
  unfolding Updates.update_networks
  update_networks-Reports ip none container_created = search holds_rules
  update_networks-Reports ip (some i) container_created =
      search (holds_rules, connect_different-Reports, disconnect_extra-Reports) depth 8
