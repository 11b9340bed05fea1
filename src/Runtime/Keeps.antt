-- ===== src/Runtime/Keeps.antt =====
-- A mission over a cycle boundary and a later restart (src/runtime_control.c:639-689).
use mathlib.Core.Path.{subst}
use cerebri_cubs.Prelude.{ℕ, ◌<◌, ◌≡◌, refl, ap, ◌∙◌, true, some, arith}
use cerebri_cubs.OuterLoop.{OuterLoopState}
use cerebri_cubs.Route.{Waypoints, max_points}
use cerebri_cubs.Route.Replace.{Flies}
use cerebri_cubs.Runtime.{Both, apply_values, take_mission, apply_mission, apply_staged, restore}
use cerebri_cubs.Runtime.Inv.{Inv, values_of}
use cerebri_cubs.Runtime.Values.{apply_values-Inv}
use cerebri_cubs.Runtime.Mission.{apply_mission-Flown}
use cerebri_cubs.Runtime.Boundary.{apply_values-SameMission, apply_staged-Inv, Flies-points}
use cerebri_cubs.Runtime.Restart.{restore-Flies}

-- What is recorded for a restart is the mission that was staged.
record Recorded (b c : Both) : Type 0 where
  applied : c.runtime.applied_mission ≡ true
  segments : c.runtime.applied_segments ≡ b.runtime.pending_segments
  few : b.runtime.pending_segments < max_points
  points :
      (row column : ℕ)
      → row < max_points
      → column < 3
      → c.runtime.applied_waypoints row column ≡ values_of b.runtime.pending_waypoints row column

take_mission-Recorded :
    (w : Waypoints) (b : Both)
    → b.runtime.pending_segments < max_points
    → ((row column : ℕ)
        → row < max_points
        → column < 3
        → w row column ≡ values_of b.runtime.pending_waypoints row column)
    → Recorded b (take_mission (some w) b)
unfolding take_mission
take_mission-Recorded w b few same = record {
  applied = refl;
  segments = refl;
  few = few;
  points = same;
}

apply_mission-Recorded :
    (b : Both) → Inv b.runtime → b.runtime.pending_mission ≡ true → Recorded b (apply_mission b)
apply_mission-Recorded b inv h =
    let flown = apply_mission-Flown b inv h in
    let few = flown.route.few_segments in
    rw flown.step (take_mission-Recorded flown.points b (omega arith) flown.staged)

apply_staged-Recorded :
    (b : Both) → Inv b.runtime → b.runtime.pending_mission ≡ true → Recorded b (apply_staged b)
unfolding apply_staged
apply_staged-Recorded b inv h =
    let same = apply_values-SameMission b in
    let done = apply_mission-Recorded (apply_values b) (apply_values-Inv b inv) (same.staged ∙ h) in
    record {
      applied = done.applied;
      segments = done.segments ∙ same.segments;
      few = subst (λ (n : ℕ). n < max_points) same.segments done.few;
      points = λ row column below fits.
          done.points row column below fits ∙ ap (λ w. values_of w row column) same.waypoints;
    }

-- In a state of the invariant, a mission that is staged when a cycle begins is flown after a later
-- restart too, whatever state the controller was put in before: the restored controller has its
-- points and its number of segments, on a leg of that route.
pub restart_keeps_mission :
    (b : Both) (fresh : OuterLoopState)
    → Inv b.runtime
    → b.runtime.pending_mission ≡ true
    → Flies
        (values_of b.runtime.pending_waypoints)
        b.runtime.pending_segments
        (restore (record { runtime = (apply_staged b).runtime; model = fresh })).model
restart_keeps_mission b fresh inv h =
    let r = apply_staged-Recorded b inv h in
    let c : Both = record { runtime = (apply_staged b).runtime; model = fresh } in
    Flies-points (values_of b.runtime.pending_waypoints) c.runtime.applied_waypoints
      b.runtime.pending_segments (restore c).model r.few r.points
      (subst (λ (n : ℕ). Flies c.runtime.applied_waypoints n (restore c).model) r.segments
        (restore-Flies c (apply_staged-Inv b inv) r.applied))
