-- ===== src/Container/Manager.antt =====
-- `run`, `present` and `absent` of ContainerManager. `run` here is the method up to the end of
-- `present` or `absent`, and `run_and_pop` goes on to what it does to the actions. The text of the
-- result's diff is left out.
use openstack_osa_office_clu.Prelude.{ℕ, Bool, true, false, not, ◌&&◌, some, none, Option, String}
use openstack_osa_office_clu.Prelude.Methods.{pure, raise, modify, ◌>>=◌, ◌>>◌, choose, when}
use openstack_osa_office_clu.Util.Differences.{add}
use openstack_osa_office_clu.Network.Config.{IpAddresses}
use openstack_osa_office_clu.Container.{
  Container, Params, Target, absent, present, healthy, started, stopped, running, paused,
  is_container_running,
}
use openstack_osa_office_clu.Container.Driver.{
  Clock, Driver, Setup, error_in, no_container, set_paused, Shown, flag, Call, asks, posts, act,
  track,
}
use openstack_osa_office_clu.Container.Waiting.{wait_for_state}
use openstack_osa_office_clu.Container.Differences.{needs_container_image, needs_host_info}
use openstack_osa_office_clu.Container.Actions.{
  Raw, without_output, get_container, container_remove, container_start, container_restart,
  container_stop,
}
use openstack_osa_office_clu.Container.Updates.{update_limits, update_networks}
use openstack_osa_office_clu.Container.Images.{get_image}
use openstack_osa_office_clu.Container.Prepare.{
  Prepared, wants_running, wants_stopped, wants_healthy, until_healthy, seen_as, prepare,
}

-- `container.paused != self.param_paused`
abbrev pub pause_differs : Option Bool → Bool → Bool
pause_differs none actual = false
pause_differs (some true) actual = not actual
pause_differs (some false) actual = actual

module _ {Value : Type 0} (K : Clock) (D : Driver K.Seconds)
    (setup : Setup Value D.Image D.Host D.CreateParameters D.UpdateParameters)
    (p : Params K.Seconds) (ip : IpAddresses) (fuel : ℕ) where
  abbrev pub say : String → Shown Value → Shown Value → Call D Value (Unit {0})
  say name parameter active = modify (track D Value (add name parameter active))

  -- `assert container.id is not None`
  abbrev pub with_id : Container → Call D Value String
  with_id none = raise no_container
  with_id (some i) = pure i.id

  -- Starts, restarts or stops the container, as the state that is asked for needs it.
  unfoldable pub set_running : Bool → Container → Call D Value (Raw D.Output)
  unfolding container_start container_restart container_stop get_container
  set_running was_running c =
      choose (wants_running p.target && not (running c))
        (say "running" (flag true) (flag was_running) >> with_id c >>= container_start D setup p)
        (choose (wants_running p.target && p.restart)
          (do
            say "running" (flag true) (flag was_running)
            say "restarted" (flag true) (flag false)
            id ← with_id c
            container_restart D setup p id >>= without_output D setup p)
          (choose (wants_stopped p.target && running c)
            (do
              say "running" (flag false) (flag was_running)
              id ← with_id c
              container_stop D setup p id
              get_container D setup p id >>= without_output D setup p)
            (pure (c, none))))

  abbrev pub pause : Bool → String → Call D Value (Unit {0})
  pause wanted id =
      choose wanted (posts D Value (error_in (set_paused wanted)) (D.pause_container id))
        (posts D Value (error_in (set_paused wanted)) (D.unpause_container id))

  unfoldable pub pause_and_look : Bool → Raw D.Output → Call D Value (Raw D.Output)
  unfolding get_container
  pause_and_look wanted raw = choose p.check_mode (pure raw) (do
    id ← with_id raw.0
    pause wanted id
    get_container D setup p id >>= without_output D setup p)

  unfoldable pub change_pause : Bool → Bool → Raw D.Output → Call D Value (Raw D.Output)
  unfolding pause_and_look
  change_pause was_paused wanted raw = do
    say "paused" (flag wanted) (flag was_paused)
    after ← pause_and_look wanted raw
    modify (act D Value (set_paused wanted))
    pure after

  unfoldable pub pause_as : Bool → Raw D.Output → Option Bool → Call D Value (Raw D.Output)
  unfolding change_pause
  pause_as was_paused raw none = pure raw
  pause_as was_paused raw (some wanted) =
      choose (wants_running p.target && pause_differs (some wanted) (paused raw.0))
        (change_pause was_paused wanted raw) (pure raw)

  unfoldable pub set_pause : Bool → Raw D.Output → Call D Value (Raw D.Output)
  unfolding pause_as
  set_pause was_paused raw = pause_as was_paused raw p.paused

  -- The changes to a container that is there.
  unfoldable pub adjust_found :
      Container
      → Option D.Image
      → Option D.Host
      → Option D.Image
      → Bool
      → Container
      → Call D Value (Raw D.Output)
  unfolding update_limits update_networks set_running set_pause
  adjust_found was container_image host image created none = pure (none, none)
  adjust_found was container_image host image created (some i) = do
    c ← update_limits D setup p (seen_as K D setup p ip fuel i container_image image host)
    d ← update_networks D setup p ip c created
    raw ← set_running (running was) d
    set_pause (paused was) raw

  unfoldable pub adjust :
      Container → Option D.Image → Option D.Host → Prepared D.Image → Call D Value (Raw D.Output)
  unfolding adjust_found
  adjust was container_image host prepared =
      adjust_found was container_image host prepared.comparison_image prepared.created
        prepared.container

  abbrev pub set_facts : Raw D.Output → Call D Value (Unit {0})
  set_facts raw = modify (λ s. record s { facts = raw })

  abbrev pub facts_of : Container → Call D Value (Unit {0})
  facts_of none = pure tt
  facts_of (some i) = set_facts (some i, none)

  unfoldable pub wait_if_healthy : Raw D.Output → Call D Value (Unit {0})
  unfolding wait_for_state
  wait_if_healthy raw =
      when (wants_healthy p.target && not p.check_mode)
        (with_id raw.0 >>= λ id. wait_for_state K D Value (until_healthy p) id fuel >>= facts_of)

  unfoldable pub host_info : Call D Value (Option D.Host)
  unfolding needs_host_info
  host_info =
      choose (needs_host_info setup.groups) (asks D Value D.get_host_info >>= λ h. pure (some h))
        (pure none)

  -- `present`, for each of the four states
  unfoldable pub be_present : Call D Value (Unit {0})
  unfolding get_container get_image host_info prepare adjust wait_if_healthy needs_container_image
  be_present = do
    c ← get_container D setup p p.name
    images ← get_image D setup p c (needs_container_image setup.groups)
    host ← host_info
    prepared ← prepare K D setup p ip fuel c images host
    raw ← adjust c images.container_image host prepared
    set_facts raw
    wait_if_healthy raw

  unfoldable pub remove_found : Container → Call D Value (Unit {0})
  unfolding container_stop container_remove
  remove_found none = pure tt
  remove_found (some i) = do
    when (is_container_running i.state)
        (say "running" (flag false) (flag true) >> container_stop D setup p i.id)
    say "exists" (flag false) (flag true)
    container_remove D setup p i.id false

  -- `absent`
  unfoldable pub be_absent : Call D Value (Unit {0})
  unfolding get_container remove_found
  be_absent = get_container D setup p p.name >>= remove_found

  unfoldable pub be : Target → Call D Value (Unit {0})
  unfolding be_present be_absent
  be absent = be_absent
  be present = be_present
  be healthy = be_present
  be started = be_present
  be stopped = be_present

  unfoldable pub run : Call D Value (Unit {0})
  unfolding be
  run = be p.target

  -- `self.results.pop("actions")`: outside check mode, the actions are shown only with `debug`.
  unfoldable pub pop_actions : Call D Value (Unit {0})
  pop_actions =
      when (not p.check_mode && not p.debug) (modify (λ s. record s { show_actions = false }))

  unfoldable pub run_and_pop : Call D Value (Unit {0})
  unfolding run pop_actions
  run_and_pop = run >> pop_actions
