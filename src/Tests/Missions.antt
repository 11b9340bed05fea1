-- ===== src/Tests/Missions.antt =====
-- Requests for a trajectory (src/runtime_control.c:455-556).
use cerebri_cubs.Prelude.{◌≡◌, ◌≢◌, ◌⊎◌, refl, ap, false, some, List, [], ◌∷◌, arith}
use cerebri_cubs.Flatcc.{Bytes, Segment, Flatcc, denied}
use cerebri_cubs.Reply.{length, build_trajectory_reply}
use cerebri_cubs.Route.{Waypoints}
use cerebri_cubs.Route.Replace.{Flies}
use cerebri_cubs.Runtime.{RuntimeControl}
use cerebri_cubs.Runtime.Start.{init_state-Inv}
use cerebri_cubs.Service.{
  minus, check_segments, no_waypoints, put_segment, stage_mission, read_trajectory_set,
  stage_checked, answer_trajectory_set, handle_trajectory_set,
}
use cerebri_cubs.Service.Refusals.{here, later, trajectory_set_denies}
use cerebri_cubs.Service.Rows.{Follows, check_segments-Follows}
use cerebri_cubs.Service.Trajectory.{
  Stageable, MissionAccepted, trajectory_set_effect, no_lost_update,
}
use cerebri_cubs.Session.{after_trajectory, set_trajectory_apply}
use cerebri_cubs.Tests.{leg, model, at_start, at_start-Inv, test_flatcc, mission_request}

trajectory_set_effect_example :
    (((handle_trajectory_set test_flatcc at_start.runtime mission_request 100).0 ≡ at_start.runtime)
      × ¬ Stageable test_flatcc at_start.runtime (read_trajectory_set test_flatcc mission_request))
    ⊎ MissionAccepted test_flatcc at_start.runtime
        (read_trajectory_set test_flatcc mission_request)
        100
        (handle_trajectory_set test_flatcc at_start.runtime mission_request 100)
trajectory_set_effect_example =
    trajectory_set_effect test_flatcc at_start.runtime mission_request 100

set_trajectory_apply_example :
    ((handle_trajectory_set test_flatcc at_start.runtime mission_request 100).0 ≡ at_start.runtime)
    ⊎ ((root : Bytes) × (list : List Segment) × (w : Waypoints) × (read_trajectory_set test_flatcc
            mission_request
          ≡ some (root, list))
        × Follows list w
        × Flies w (length list) (after_trajectory test_flatcc at_start mission_request 100).model)
set_trajectory_apply_example =
    set_trajectory_apply test_flatcc at_start mission_request 100 at_start-Inv

check_segments-Follows_example : Follows (leg ∷ []) (put_segment no_waypoints 0 leg)
unfolding check_segments
check_segments-Follows_example =
    check_segments-Follows (leg ∷ []) (put_segment no_waypoints 0 leg) refl

-- `runtime_control` after the first of two requests that expect version 1.
abbrev after_first : RuntimeControl
after_first = (handle_trajectory_set test_flatcc at_start.runtime mission_request 100).0

version_after :
    (r : RuntimeControl)
    → r.command_writer ≡ false
    → r.plan_version ≡ 1
    → (handle_trajectory_set test_flatcc r mission_request 100).0.plan_version ≡ 2
unfolding handle_trajectory_set read_trajectory_set answer_trajectory_set stage_checked
    check_segments stage_mission
version_after r free version = simp (free, version)

first_version : after_first.plan_version ≡ 2
first_version = version_after at_start.runtime at_start-Inv.unlocked (init_state-Inv model).1

first_changes : after_first ≢ at_start.runtime
first_changes e =
    let version = (init_state-Inv model).1 in
    let same = ap (λ (r : RuntimeControl). r.plan_version) e in
    omega (arith, version, first_version, same)

no_lost_update_example :
    (handle_trajectory_set test_flatcc after_first mission_request 100).0 ≡ after_first
unfolding read_trajectory_set
no_lost_update_example =
    no_lost_update test_flatcc at_start.runtime mission_request mission_request 100 (1 ∷ [])
      (1 ∷ []) (leg ∷ []) (leg ∷ []) at_start-Inv refl refl refl (omega arith) first_changes

-- A request whose second segment has the sequence number of the first.
abbrev repeating_flatcc : Flatcc
repeating_flatcc = record test_flatcc {
  segments = λ request. some (leg ∷ leg ∷ []);
  total = λ request. 2;
}

trajectory_set_denies_example :
    handle_trajectory_set repeating_flatcc at_start.runtime mission_request 100 ≡ (
      at_start.runtime,
      build_trajectory_reply repeating_flatcc 100 denied at_start.runtime.plan_version (minus 3) 1,
    )
unfolding read_trajectory_set
trajectory_set_denies_example =
    trajectory_set_denies repeating_flatcc at_start.runtime mission_request 100 1 (1 ∷ [])
      (leg ∷ leg ∷ []) refl (omega arith) (omega arith) refl (later refl (here refl))
