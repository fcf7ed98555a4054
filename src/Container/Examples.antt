-- ===== src/Container/Examples.antt =====
-- A daemon with one container, and the theorems on it.
use openstack_osa_office_clu.Prelude.{
  ℕ, Bool, true, false, not, ◌&&◌, [], ◌∷◌, some, none, String, Result, ok, any, ◌≡◌, refl, arith,
}
use openstack_osa_office_clu.Prelude.Methods.{pure, raise, modify, reads, ◌>>=◌, choose, for_each}
use openstack_osa_office_clu.Container.{
  Target, absent, healthy, is_container_running, is_container_removing,
}
use openstack_osa_office_clu.Container.Driver.{Stop, Here, posts}
use openstack_osa_office_clu.Container.Waiting.{wait_for_state, wait_for_state-Comes}
use openstack_osa_office_clu.Container.Differences.{
  Seen, has_different_configuration, has_different_configuration_iff, group_differs,
}
use openstack_osa_office_clu.Container.Prepare.{until_healthy}
use openstack_osa_office_clu.Container.Manager
use openstack_osa_office_clu.Container.CheckMode.{run-check_mode}
use openstack_osa_office_clu.Container.Healthy.{IsHealthy, run-Healthy}
use openstack_osa_office_clu.Container.Runs.{run-changed}
use openstack_osa_office_clu.Container.Absent.{absent-agree}
use openstack_osa_office_clu.Container.Sample.{
  clock, container_of, World, driver, one_option, setup, parameters, begin, addresses,
}

-- A run on these, which computes.
unfoldable run_on : Target → Bool → World → Result (Stop String) (Unit {0}) × Here driver ℕ
unfolding Manager.run ◌>>=◌ reads choose pure modify raise for_each posts is_container_running
    is_container_removing
run_on target check_mode w =
    Manager.run clock driver setup (parameters target check_mode) addresses 3 (begin w)

wait_for_state-Comes_example :
    wait_for_state clock driver ℕ
      (until_healthy (parameters healthy false))
      "c1"
      3
      (begin (some (container_of true (some "starting"))))
    ≡ (
      ok (some (container_of true (some "healthy"))),
      begin (some (container_of true (some "healthy"))),
    )
wait_for_state-Comes_example =
    wait_for_state-Comes clock driver ℕ (until_healthy (parameters healthy false)) "c1" 1 3
      (begin (some (container_of true (some "starting"))))
      (some (container_of true (some "healthy"))) refl (omega arith)
      (some (container_of true (some "starting")), refl, (refl, refl), (refl, refl))

abbrev seen : Seen String ℕ
seen = record {
  container = container_of true none;
  container_image = none;
  image = none;
  host_info = none;
}

has_different_configuration_iff_example :
    (has_different_configuration seen (one_option ∷ [])).0
    ≡ any (λ g. not g.can_update_value && group_differs seen g) (one_option ∷ [])
has_different_configuration_iff_example = has_different_configuration_iff seen (one_option ∷ [])

run-check_mode_example :
    (Manager.run clock driver setup (parameters healthy true) addresses 3 (begin none)).1.daemon
    ≡ none
run-check_mode_example =
    run-check_mode clock driver setup (parameters healthy true) addresses 3 (begin none) refl

run-Healthy_example :
    IsHealthy clock driver setup
      (parameters healthy false)
      addresses
      3
      (run_on healthy false none).1
unfolding run_on
run-Healthy_example =
    run-Healthy clock driver setup (parameters healthy false) addresses 3 (begin none)
      (run_on healthy false none).1 refl refl refl

run-changed_example :
    (Manager.run clock driver setup
      (parameters absent true)
      addresses
      3
      (begin (some (container_of true none)))).1.changed
    ≡ true
unfolding run_on
run-changed_example =
    run-changed clock driver setup (parameters absent true) addresses 3
      (begin (some (container_of true none))) refl refl

absent-agree_example :
    Manager.run clock driver setup
      (parameters absent true)
      addresses
      3
      (begin (some (container_of true none)))
    ≡ (
      ok tt,
      record (run_on absent false (some (container_of true none))).1 {
        daemon = some (container_of true none);
      },
    )
unfolding run_on
absent-agree_example =
    absent-agree clock driver setup (parameters absent false) addresses 3
      (begin (some (container_of true none)))
      (run_on absent false (some (container_of true none))).1 refl refl

-- Outside check mode and without `debug`, the actions of a run are not shown.
actions_shown :
    (check_mode : Bool)
    → (Manager.run_and_pop clock driver setup
        (parameters absent check_mode)
        addresses
        3
        (begin (some (container_of true none)))).1.show_actions
      ≡ check_mode
unfolding Manager.run_and_pop ◌>>=◌ reads choose is_container_running modify posts pure
actions_shown true = refl
actions_shown false = refl
