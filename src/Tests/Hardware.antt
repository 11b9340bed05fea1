-- ===== src/Tests/Hardware.antt =====
-- The messages about a mission, and a motion-capture measurement (src/main_realtime.c:123-176, 354-444).
use cerebri_cubs.Prelude.{ℕ, ◌*◌, ◌≡◌, ◌↔◌, refl, true, some, [], ◌∷◌, arith}
use cerebri_cubs.Prelude.Int.{pos, ◌≤ℤ◌, ◌+ℤ◌}
use cerebri_cubs.OuterLoop.{OuterLoopState}
use cerebri_cubs.Csyn.{Float}
use cerebri_cubs.Route.{apply_route}
use cerebri_cubs.Route.Replace.{apply_route-Flies}
use cerebri_cubs.Service.{no_waypoints}
use cerebri_cubs.Realtime.Broadcast.{Announces, calls, at_seq, Flies-Announces, all_segments}
use cerebri_cubs.Realtime.Mocap.{
  MocapState, PoseTopic, freshness_ms, body_of, read_mocap_if_updated, mocap_measurement_fresh,
}
use cerebri_cubs.Realtime.Freshness.{read_mocap_fresh}
use cerebri_cubs.Tests.{model, one_metre, test_csyn}

Flies-Announces_example : Announces (apply_route model no_waypoints 2) 2
Flies-Announces_example =
    Flies-Announces no_waypoints 2 (apply_route model no_waypoints 2)
      (apply_route-Flies model no_waypoints 2 (omega arith)) (omega arith)

abbrev two_legs : OuterLoopState
two_legs = record model { route_n_segments = pos 2 }

abbrev times : ℕ → ℕ
times call = 20000 * call

all_segments_example : calls test_csyn two_legs times 20 (at_seq 0) ≡ (0 ∷ 1 ∷ [], at_seq 2)
all_segments_example = all_segments test_csyn two_legs times 2 0 (omega arith) (omega arith)

abbrev pose : ℕ → Float
pose i = one_metre

abbrev before_pose : MocapState
before_pose = record { mocap = body_of test_csyn pose; generation = 0; last_update_ms = pos 0 }

abbrev pose_topic : PoseTopic
pose_topic = record { generation = 1; copied = some (pose, true) }

abbrev after_pose : MocapState
after_pose = (read_mocap_if_updated test_csyn before_pose pose_topic (pos 500)).0

read_mocap_fresh_example : (mocap_measurement_fresh after_pose (pos 550) ≡ true) ↔ (
    (after_pose.mocap.valid ≡ true) × (pos 500 ≤ℤ pos 550) × (pos 550 ≤ℤ pos 500 +ℤ freshness_ms))
unfolding read_mocap_if_updated
read_mocap_fresh_example =
    read_mocap_fresh test_csyn before_pose pose_topic (pos 500) (pos 550) refl
