-- ===== src/Route.antt =====
-- src/runtime_control.c:24-26 and 179-204: a route replaces the mission of the controller.
pub mod Replace
use cerebri_cubs.Prelude.{ℕ, if◌then◌else◌, ltb}
use cerebri_cubs.Prelude.Int.{ℤ, pos, ltb_ℤ, ◌+ℤ◌}
use cerebri_cubs.Prelude.Loop.{for_to}
use cerebri_cubs.Prelude.Update.{update₂}
use cerebri_cubs.AtomicDouble.{Double}
use cerebri_cubs.OuterLoop.{OuterLoopState}

abbrev pub max_segments : ℕ
max_segments = 6

abbrev pub max_points : ℕ
max_points = 7

-- `double waypoints[CUBS2_MAX_POINTS][3]`
abbrev pub Waypoints : Type 0
Waypoints = ℕ → ℕ → Double

-- `MIN`, on `size_t`
abbrev pub min_size : ℕ → ℕ → ℕ
min_size a b = if ltb a b then a else b

-- `CLAMP`, on `int32_t`
abbrev pub clamp : ℤ → ℤ → ℤ → ℤ
clamp value low high =
    let raised = if ltb_ℤ value low then low else value in
    if ltb_ℤ high raised then high else raised

-- One round of the inner loop: the same point in both copies of the route.
unfoldable pub write_point : Waypoints → ℕ → ℕ → ℕ → OuterLoopState → OuterLoopState
write_point waypoints segments row column model = record model {
  route_waypoints =
      update₂ model.route_waypoints row column (waypoints (min_size row segments) column);
  guidance_route_waypoints =
      update₂ model.guidance_route_waypoints row column (waypoints (min_size row segments) column);
}

unfoldable pub write_row : Waypoints → ℕ → ℕ → OuterLoopState → OuterLoopState
unfolding write_point for_to
write_row waypoints segments row model = for_to 3 (write_point waypoints segments row) model

unfoldable pub apply_route : OuterLoopState → Waypoints → ℕ → OuterLoopState
apply_route model waypoints segments =
    let active_leg = clamp model.current_waypoint (pos 1) (pos segments) in
    let counted = record model {
      route_n_segments = pos segments;
      guidance_route_n_segments = pos segments;
    } in
    let written = for_to max_points (write_row waypoints segments) counted in
    record written {
      current_waypoint = active_leg;
      guidance_current_waypoint = active_leg;
      guidance_active_waypoint = active_leg;
      previous_guidance_current_waypoint = active_leg;
      guidance_segment_end_index = active_leg +ℤ pos 1;
    }
