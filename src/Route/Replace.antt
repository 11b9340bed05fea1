-- ===== src/Route/Replace.antt =====
-- What `apply_route` (src/runtime_control.c:179-204) leaves in the controller.
use cerebri_cubs.Prelude.{ℕ, zero, suc, ◌≤◌, ◌<◌, ◌≡◌, ◌≢◌, refl, ◌∙◌, arith}
use native.Mathlib.Decide.{ℕ_discrete}
use cerebri_cubs.Prelude.Int.{ℤ, pos, ◌≤ℤ◌, ◌+ℤ◌}
use cerebri_cubs.Prelude.Loop.{for_to, for_to_inv}
use cerebri_cubs.OuterLoop.{OuterLoopState}
use cerebri_cubs.Route.{max_points, Waypoints, min_size, clamp, write_row, apply_route}

-- Both copies hold the point of the route that belongs to a row: past the end, the last point.
abbrev RowsHold : Waypoints → ℕ → ℕ → OuterLoopState → Type 0
RowsHold waypoints segments n model =
    (row column : ℕ)
    → row < n
    → column < 3
    → (model.route_waypoints row column ≡ waypoints (min_size row segments) column)
      × (model.guidance_route_waypoints row column ≡ waypoints (min_size row segments) column)

write_row_self :
    (waypoints : Waypoints) (segments row column : ℕ) (model : OuterLoopState)
    → column < 3
    → ((write_row waypoints segments row model).route_waypoints row column
        ≡ waypoints (min_size row segments) column)
      × ((write_row waypoints segments row model).guidance_route_waypoints row column
          ≡ waypoints (min_size row segments) column)
unfolding write_row
write_row_self waypoints segments row zero model h = ground arith
write_row_self waypoints segments row (suc zero) model h = ground arith
write_row_self waypoints segments row (suc (suc zero)) model h = ground arith
write_row_self waypoints segments row (suc (suc (suc column))) model h = absurd (omega arith)

write_row_ne :
    (waypoints : Waypoints) (segments row other column : ℕ) (model : OuterLoopState)
    → other ≢ row
    → ((write_row waypoints segments row model).route_waypoints other column
        ≡ model.route_waypoints other column)
      × ((write_row waypoints segments row model).guidance_route_waypoints other column
          ≡ model.guidance_route_waypoints other column)
unfolding write_row
write_row_ne waypoints segments row other column model h = ground arith

rows_written :
    (waypoints : Waypoints) (segments n : ℕ) (model : OuterLoopState)
    → RowsHold waypoints segments n (for_to n (write_row waypoints segments) model)
rows_written waypoints segments n model =
    for_to_inv (RowsHold waypoints segments) (write_row waypoints segments) n model
      (λ i t lt held row column below fits. elim (ℕ_discrete row i) [
        | yes e ↦ rw e (write_row_self waypoints segments i column t fits)
        | no ne ↦
            let kept = write_row_ne waypoints segments i row column t ne in
            let old = held row column (omega arith) fits in (kept.0 ∙ old.0, kept.1 ∙ old.1)
      ])
      (λ row column below fits. absurd (omega arith))

-- The members that the loop over the rows does not write.
record Beside (before after : OuterLoopState) : Type 0 where
  scalars : after.scalar ≡ before.scalar
  vectors : after.vector ≡ before.vector
  segments : after.route_n_segments ≡ before.route_n_segments
  guidance_segments : after.guidance_route_n_segments ≡ before.guidance_route_n_segments
  airborne : after.airborne ≡ before.airborne
  held : after.estimator_held_samples ≡ before.estimator_held_samples

write_row-Beside :
    (waypoints : Waypoints) (segments row : ℕ) (before model : OuterLoopState)
    → Beside before model
    → Beside before (write_row waypoints segments row model)
unfolding write_row
write_row-Beside waypoints segments row before model b = record {
  scalars = b.scalars;
  vectors = b.vectors;
  segments = b.segments;
  guidance_segments = b.guidance_segments;
  airborne = b.airborne;
  held = b.held;
}

rows-Beside :
    (waypoints : Waypoints) (segments n : ℕ) (model : OuterLoopState)
    → Beside model (for_to n (write_row waypoints segments) model)
rows-Beside waypoints segments n model =
    for_to_inv (λ i. Beside model) (write_row waypoints segments) n model
      (λ i t lt. write_row-Beside waypoints segments i model t)
      (record {
        scalars = refl;
        vectors = refl;
        segments = refl;
        guidance_segments = refl;
        airborne = refl;
        held = refl;
      })

-- `leg` is one of the segments 1, …, `segments`.
abbrev pub IsLeg : ℕ → ℤ → Type 0
IsLeg segments leg = (pos 1 ≤ℤ leg) × (leg ≤ℤ pos segments)

pub clamp-IsLeg :
    (leg : ℤ) (segments : ℕ) → 1 ≤ segments → IsLeg segments (clamp leg (pos 1) (pos segments))
clamp-IsLeg leg segments h = ground arith

pub clamp_kept :
    (leg : ℤ) (segments : ℕ) → IsLeg segments leg → clamp leg (pos 1) (pos segments) ≡ leg
clamp_kept leg segments h = ground arith

-- The controller flies the given route: both counts, both copies of the points, and all copies of
-- the active leg, which is a leg of the new route.
pub record Flies (waypoints : Waypoints) (segments : ℕ) (model : OuterLoopState) : Type 0 where
  pub count : model.route_n_segments ≡ pos segments
  pub guidance_count : model.guidance_route_n_segments ≡ pos segments
  pub points :
      (row column : ℕ)
      → row < max_points
      → column < 3
      → (model.route_waypoints row column ≡ waypoints (min_size row segments) column)
        × (model.guidance_route_waypoints row column ≡ waypoints (min_size row segments) column)
  pub leg : IsLeg segments model.current_waypoint
  pub guidance_leg : model.guidance_current_waypoint ≡ model.current_waypoint
  pub active_leg : model.guidance_active_waypoint ≡ model.current_waypoint
  pub previous_leg : model.previous_guidance_current_waypoint ≡ model.current_waypoint
  pub end_index : model.guidance_segment_end_index ≡ model.current_waypoint +ℤ pos 1

-- With a route of at least one segment the controller flies that route: both counts, both copies of
-- the points, with the last point repeated, and all copies of the active leg, which is a leg of the
-- new route.
pub apply_route-Flies :
    (model : OuterLoopState) (waypoints : Waypoints) (segments : ℕ)
    → 1 ≤ segments
    → Flies waypoints segments (apply_route model waypoints segments)
unfolding apply_route
apply_route-Flies model waypoints segments h =
    let counted = record model {
      route_n_segments = pos segments;
      guidance_route_n_segments = pos segments;
    } in
    let beside = rows-Beside waypoints segments max_points counted in
    record {
      count = beside.segments;
      guidance_count = beside.guidance_segments;
      points = rows_written waypoints segments max_points counted;
      leg = clamp-IsLeg model.current_waypoint segments h;
      guidance_leg = refl;
      active_leg = refl;
      previous_leg = refl;
      end_index = refl;
    }

-- If the active leg is a leg of the new route, it stays the active one.
pub apply_route_keeps_leg :
    (model : OuterLoopState) (waypoints : Waypoints) (segments : ℕ)
    → IsLeg segments model.current_waypoint
    → (apply_route model waypoints segments).current_waypoint ≡ model.current_waypoint
unfolding apply_route
apply_route_keeps_leg model waypoints segments h = clamp_kept model.current_waypoint segments h

-- The double members keep their values.
pub apply_route_scalar :
    (model : OuterLoopState) (waypoints : Waypoints) (segments : ℕ)
    → (apply_route model waypoints segments).scalar ≡ model.scalar
unfolding apply_route
apply_route_scalar model waypoints segments =
    (rows-Beside waypoints segments max_points (record model {
      route_n_segments = pos segments;
      guidance_route_n_segments = pos segments;
    })).scalars
