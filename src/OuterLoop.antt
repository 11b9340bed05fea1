-- ===== src/OuterLoop.antt =====
-- The state of the generated controller, `Vehicles_Cubs2_OuterLoopState`. The struct and the three
-- operations EFMI_INIT, EFMI_RECALIBRATE and EFMI_STEP come from a generator; only the members that
-- the repository's code names are known. Double members are looked up by their name, so the ones
-- that no code here names are there too.
use cerebri_cubs.Prelude.{ℕ, String, Bool, false}
use cerebri_cubs.Prelude.Int.{ℤ, pos}
use cerebri_cubs.AtomicDouble.{Double}

pub record OuterLoopState : Type 0 where
  pub scalar : String → Double
  pub vector : String → ℕ → Double
  pub route_waypoints : ℕ → ℕ → Double
  pub guidance_route_waypoints : ℕ → ℕ → Double
  pub route_n_segments : ℤ
  pub guidance_route_n_segments : ℤ
  pub current_waypoint : ℤ
  pub guidance_current_waypoint : ℤ
  pub guidance_active_waypoint : ℤ
  pub previous_guidance_current_waypoint : ℤ
  pub guidance_segment_end_index : ℤ
  pub airborne : Bool
  pub estimator_held_samples : ℤ

-- A state with all bytes 0, which a static has before EFMI_INIT.
abbrev pub zeroed_model : OuterLoopState
zeroed_model = record {
  scalar = λ member. 0;
  vector = λ member i. 0;
  route_waypoints = λ row column. 0;
  guidance_route_waypoints = λ row column. 0;
  route_n_segments = pos 0;
  guidance_route_n_segments = pos 0;
  current_waypoint = pos 0;
  guidance_current_waypoint = pos 0;
  guidance_active_waypoint = pos 0;
  previous_guidance_current_waypoint = pos 0;
  guidance_segment_end_index = pos 0;
  airborne = false;
  estimator_held_samples = pos 0;
}
