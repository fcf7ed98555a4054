-- ===== src/Util/Differences/Examples.antt =====
-- A tracker with two differences, and the theorems at it.
use openstack_osa_office_clu.Prelude.{ℕ, [], ◌∷◌, ◌≡◌, refl, string_eq, if◌then◌else◌}
use openstack_osa_office_clu.Prelude.Dict.{lookup}
use openstack_osa_office_clu.Util.Differences.{
  Tracker, add, merge, get_before_after, has_difference_for, get_legacy_docker_diffs,
}
use openstack_osa_office_clu.Util.Differences.Laws.{get_before_after-merge}

tracked : Tracker ℕ
unfolding add
tracked = add "memory" 2 1 (add "driver" 5 4 [])

tracked_names : get_legacy_docker_diffs tracked ≡ "driver" ∷ "memory" ∷ []
unfolding tracked get_legacy_docker_diffs
tracked_names = refl

tracked_before_after :
    get_before_after tracked
    ≡ (("driver", 4) ∷ ("memory", 1) ∷ [], ("driver", 5) ∷ ("memory", 2) ∷ [])
unfolding tracked get_before_after
tracked_before_after = refl

get_before_after-merge_example :
    let from = if has_difference_for "driver" tracked then tracked else [] in
    (lookup "driver" (get_before_after (merge [] tracked)).0
      ≡ lookup "driver" (get_before_after from).0)
    × (lookup "driver" (get_before_after (merge [] tracked)).1
        ≡ lookup "driver" (get_before_after from).1)
get_before_after-merge_example = get_before_after-merge "driver" [] tracked
