-- ===== src/Runtime/Restart.antt =====
-- `cubs2_runtime_control_restore` (src/runtime_control.c:674-689) as a whole, and a restart after a cycle
-- boundary.
use mathlib.Core.Path.{subst, subst₂}
use cerebri_cubs.Prelude.{ℕ, ◌<◌, ◌≤◌, ◌≡◌, refl, true, inl, inr, Bool-cases, ◌∙◌, arith}
use cerebri_cubs.Prelude.Loop.{for_to_inv}
use cerebri_cubs.AtomicDouble.RoundTrip.{value_of}
use cerebri_cubs.OuterLoop.{OuterLoopState}
use cerebri_cubs.Params.Table.{values_size}
use cerebri_cubs.Route.{apply_route}
use cerebri_cubs.Route.Replace.{Flies, apply_route-Flies}
use cerebri_cubs.Runtime.{
  Both, apply_staged, restore_value, restore_values, restore_mission, restore,
}
use cerebri_cubs.Runtime.Boundary.{apply_staged-Inv, apply_staged-Taken}
use cerebri_cubs.Runtime.Inv.{Inv}
use cerebri_cubs.Runtime.Rounds.{InEffect}
use cerebri_cubs.Runtime.Restore.{
  put_back, restore_value_applied, restore_value_none, restore_values-Inv, restore-Restored,
}

-- What the loop over the values leaves alone.
record SameApplied (b c : Both) : Type 0 where
  applied : c.runtime.applied_mission ≡ b.runtime.applied_mission
  segments : c.runtime.applied_segments ≡ b.runtime.applied_segments
  waypoints : c.runtime.applied_waypoints ≡ b.runtime.applied_waypoints

put_back-SameApplied : (b c : Both) (i : ℕ) → SameApplied b c → SameApplied b (put_back i c)
unfolding put_back
put_back-SameApplied b c i s = record {
  applied = s.applied;
  segments = s.segments;
  waypoints = s.waypoints;
}

restore_value-SameApplied :
    (b c : Both) (i : ℕ) → SameApplied b c → SameApplied b (restore_value i c)
restore_value-SameApplied b c i s = elim (Bool-cases (c.runtime.applied_value_set i)) [
  | inl h ↦ rw (restore_value_applied i c h) (put_back-SameApplied b c i s)
  | inr h ↦ rw (restore_value_none i c h) s
]

restore_values-SameApplied : (b : Both) → SameApplied b (restore_values b)
unfolding restore_values
restore_values-SameApplied b =
    for_to_inv (λ i. SameApplied b) restore_value values_size b
      (λ i c lt. restore_value-SameApplied b c i)
      (record { applied = refl; segments = refl; waypoints = refl })

restore_mission_applied :
    (b : Both)
    → b.runtime.applied_mission ≡ true
    → restore_mission b ≡ record b {
      model = apply_route b.model b.runtime.applied_waypoints b.runtime.applied_segments;
    }
unfolding restore_mission
restore_mission_applied b h = simp h

restore_mission-Flies :
    (b : Both)
    → b.runtime.applied_mission ≡ true
    → 1 ≤ b.runtime.applied_segments
    → Flies b.runtime.applied_waypoints b.runtime.applied_segments (restore_mission b).model
restore_mission-Flies b h some_segment =
    rw (restore_mission_applied b h) (
      apply_route-Flies b.model b.runtime.applied_waypoints b.runtime.applied_segments some_segment)

-- In a state of the invariant in which a mission is recorded as applied, the controller flies the
-- recorded one after a restart.
pub restore-Flies :
    (b : Both)
    → Inv b.runtime
    → b.runtime.applied_mission ≡ true
    → Flies b.runtime.applied_waypoints b.runtime.applied_segments (restore b).model
unfolding restore
restore-Flies b inv h =
    let same = restore_values-SameApplied b in
    let segment = (inv.applied h).some_segment in
    subst₂ (λ w n. Flies w n (restore_mission (restore_values b)).model) same.waypoints
      same.segments
      (restore_mission-Flies (restore_values b) (same.applied ∙ h) (omega (arith, same.segments)))

pub restore_mission_runtime : (b : Both) → (restore_mission b).runtime ≡ b.runtime
unfolding restore_mission
restore_mission_runtime b = elim (Bool-cases b.runtime.applied_mission) [
  | inl h ↦ simp h
  | inr h ↦ simp h
]

-- A restart keeps the invariant.
pub restore-Inv : (b : Both) → Inv b.runtime → Inv (restore b).runtime
unfolding restore
restore-Inv b inv = rw (restore_mission_runtime (restore_values b)) (restore_values-Inv b inv)

-- In a state of the invariant, a value that is staged when a cycle begins is in effect after a
-- later restart too, whatever state the controller was put in before: in both leaves, the copy for
-- queries and the copy for further restarts.
pub restart_keeps_value :
    (b : Both) (fresh : OuterLoopState) (i : ℕ)
    → Inv b.runtime
    → i < values_size
    → b.runtime.pending_value_set i ≡ true
    → InEffect i
        (value_of (b.runtime.pending_values i))
        (restore (record { runtime = (apply_staged b).runtime; model = fresh }))
restart_keeps_value b fresh i inv lt staged =
    let c = apply_staged b in
    let taken = (apply_staged-Taken b i inv lt).staged staged in
    let again =
      restore-Restored (record { runtime = c.runtime; model = fresh }) i (apply_staged-Inv b inv)
        lt in
    subst (λ x. InEffect i x (restore (record { runtime = c.runtime; model = fresh })))
      taken.applied (again.applied taken.has)
