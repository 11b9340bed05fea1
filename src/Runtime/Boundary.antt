-- ===== src/Runtime/Boundary.antt =====
-- `cubs2_runtime_control_apply` (src/runtime_control.c:611-672) as a whole: what a controller cycle
-- finds after it.
use mathlib.Core.Path.{subst₂}
use cerebri_cubs.Prelude.{
  ◌⊎◌, true, ℕ, ◌<◌, ◌≡◌, refl, Bool, true, false, some, Option, inl, inr, Bool-cases, ◌∙◌, arith,
  ap, if◌then◌else◌,
}
use cerebri_cubs.Prelude.Loop.{for_to, for_to_inv}
use cerebri_cubs.AtomicDouble.RoundTrip.{value_of}
use cerebri_cubs.OuterLoop.{OuterLoopState}
use cerebri_cubs.Params.{apply_value}
use cerebri_cubs.Params.Leaves.{live, mirror}
use cerebri_cubs.Params.Table.{values_size}
use cerebri_cubs.Route.{Waypoints, max_points, min_size}
use cerebri_cubs.Route.Replace.{Flies, apply_route-Flies, apply_route_scalar}
use cerebri_cubs.Runtime.{
  Both, take_value, apply_pending_value, apply_values, take_mission, apply_mission, apply_staged,
}
use cerebri_cubs.Runtime.Inv.{Inv, IsRoute, values_of}
use cerebri_cubs.Runtime.Apply.{apply_pending_value_unstaged}
use cerebri_cubs.Runtime.Rounds.{InEffect, Same, Same-refl}
use cerebri_cubs.Runtime.Values.{Taken, Taken-Same, apply_values-Taken, apply_values-Inv}
use cerebri_cubs.Runtime.Mission.{apply_mission-Flown, apply_mission-Inv, apply_mission_none}

-- What the loop over the values leaves alone: the mission, and the controller's members that are no
-- doubles.
pub record SameMission (b c : Both) : Type 0 where
  pub staged : c.runtime.pending_mission ≡ b.runtime.pending_mission
  pub segments : c.runtime.pending_segments ≡ b.runtime.pending_segments
  pub waypoints : c.runtime.pending_waypoints ≡ b.runtime.pending_waypoints
  pub version : c.runtime.plan_version ≡ b.runtime.plan_version
  pub route : c.model.route_waypoints ≡ b.model.route_waypoints
  pub leg : c.model.current_waypoint ≡ b.model.current_waypoint

take_value-SameMission : (i : ℕ) (read : Option ℕ) (b : Both) → SameMission b (take_value i read b)
unfolding take_value apply_value
take_value-SameMission i read b = ground arith

SameMission-refl : (b : Both) → SameMission b b
SameMission-refl b = record {
  staged = refl;
  segments = refl;
  waypoints = refl;
  version = refl;
  route = refl;
  leg = refl;
}

by_flag-SameMission :
    (staged : Bool) (i : ℕ) (read : Option ℕ) (b : Both)
    → SameMission b (if staged then take_value i read b else b)
by_flag-SameMission true i read b = take_value-SameMission i read b
by_flag-SameMission false i read b = SameMission-refl b

apply_pending_value-SameMission : (i : ℕ) (b : Both) → SameMission b (apply_pending_value i b)
unfolding apply_pending_value
apply_pending_value-SameMission i b = by_flag-SameMission _ i _ b

SameMission-trans : (a b c : Both) → SameMission a b → SameMission b c → SameMission a c
SameMission-trans a b c p q = record {
  staged = q.staged ∙ p.staged;
  segments = q.segments ∙ p.segments;
  waypoints = q.waypoints ∙ p.waypoints;
  version = q.version ∙ p.version;
  route = q.route ∙ p.route;
  leg = q.leg ∙ p.leg;
}

pub apply_values-SameMission : (b : Both) → SameMission b (apply_values b)
unfolding apply_values
apply_values-SameMission b =
    for_to_inv (λ i. SameMission b) apply_pending_value values_size b
      (λ i c lt h. SameMission-trans b c _ h (apply_pending_value-SameMission i c))
      (SameMission-refl b)

-- A cycle boundary keeps the invariant.
pub apply_staged-Inv : (b : Both) → Inv b.runtime → Inv (apply_staged b).runtime
unfolding apply_staged
apply_staged-Inv b inv = apply_mission-Inv (apply_values b) (apply_values-Inv b inv)

take_mission-Same : (i : ℕ) (w : Waypoints) (b : Both) → Same i b (take_mission (some w) b)
unfolding take_mission
take_mission-Same i w b =
    let scalars = apply_route_scalar b.model w b.runtime.pending_segments in
    record {
      live_leaf = ap (λ f. f (live i)) scalars;
      mirror_leaf = ap (λ f. f (mirror i)) scalars;
      staged = refl;
      pending = refl;
      slot = refl;
      applied = refl;
      has = refl;
    }

apply_mission-Same : (i : ℕ) (b : Both) → Inv b.runtime → Same i b (apply_mission b)
apply_mission-Same i b inv = elim (Bool-cases b.runtime.pending_mission) [
  | inl h ↦
      let flown = apply_mission-Flown b inv h in rw flown.step (take_mission-Same i flown.points b)
  | inr h ↦ rw (apply_mission_none b h) (Same-refl i b)
]

-- The same rounds for the whole cycle boundary.
pub apply_staged-Taken :
    (b : Both) (i : ℕ) → Inv b.runtime → i < values_size → Taken i b (apply_staged b)
unfolding apply_staged
apply_staged-Taken b i inv h =
    Taken-Same i b (apply_values b) _ (apply_values-Taken b i inv h)
      (apply_mission-Same i (apply_values b) (apply_values-Inv b inv))

-- A value was staged and is in effect, or was not staged and is as before; either way it is staged no
-- more.
pub record Settled (i : ℕ) (b c : Both) : Type 0 where
  pub cleared : c.runtime.pending_value_set i ≡ false
  pub outcome :
      ((b.runtime.pending_value_set i ≡ true)
        × InEffect i (value_of (b.runtime.pending_values i)) c)
      ⊎ ((b.runtime.pending_value_set i ≡ false) × Same i b c)

-- In a state of the invariant, a cycle boundary takes every value of the table: a staged one is in
-- effect afterwards, with both leaves of the controller, the copy that queries read and the copy
-- that a restart restores; any other is as it was; none is staged any more.
pub apply_staged-Settled :
    (b : Both) (i : ℕ) → Inv b.runtime → i < values_size → Settled i b (apply_staged b)
apply_staged-Settled b i inv lt =
    let taken = apply_staged-Taken b i inv lt in
    record {
      cleared = taken.cleared;
      outcome = elim (Bool-cases (b.runtime.pending_value_set i)) [
        | inl h ↦ inl (h, taken.staged h)
        | inr h ↦ inr (h, taken.unstaged h)
      ];
    }

-- The points of a route, row by row, are those of another up to its last point.
pub Flies-points :
    (v w : Waypoints) (segments : ℕ) (model : OuterLoopState)
    → segments < max_points
    → ((row column : ℕ) → row < max_points → column < 3 → w row column ≡ v row column)
    → Flies w segments model
    → Flies v segments model
Flies-points v w segments model few same f = record {
  count = f.count;
  guidance_count = f.guidance_count;
  points = λ row column below fits.
      let last = same (min_size row segments) column (ground arith) fits in
      let (p, q) = f.points row column below fits in (p ∙ last, q ∙ last);
  leg = f.leg;
  guidance_leg = f.guidance_leg;
  active_leg = f.active_leg;
  previous_leg = f.previous_leg;
  end_index = f.end_index;
}

take_mission-Flies :
    (w : Waypoints) (b : Both)
    → IsRoute b.runtime.pending_segments w
    → Flies w b.runtime.pending_segments (take_mission (some w) b).model
unfolding take_mission
take_mission-Flies w b route =
    apply_route-Flies b.model w b.runtime.pending_segments route.some_segment

take_mission_cleared :
    (w : Waypoints) (b : Both)
    → ((take_mission (some w) b).runtime.pending_mission ≡ false)
      × ((take_mission (some w) b).runtime.applied_mission ≡ true)
unfolding take_mission
take_mission_cleared w b = (refl, refl)

-- The controller flies the staged mission, and it is staged no more.
abbrev pub MissionTaken : Both → Both → Type 0
MissionTaken b c =
    Flies (values_of b.runtime.pending_waypoints) b.runtime.pending_segments c.model
    × (c.runtime.pending_mission ≡ false)
    × (c.runtime.applied_mission ≡ true)

apply_mission-Flies :
    (b : Both) → Inv b.runtime → b.runtime.pending_mission ≡ true → MissionTaken b (apply_mission b)
apply_mission-Flies b inv h =
    let flown = apply_mission-Flown b inv h in
    let few = flown.route.few_segments in
    let flies =
      Flies-points (values_of b.runtime.pending_waypoints) flown.points b.runtime.pending_segments
        (take_mission (some flown.points) b).model (omega arith) flown.staged
        (take_mission-Flies flown.points b flown.route) in
    let (p, q) = take_mission_cleared flown.points b in rw flown.step (flies, p, q)

-- In a state of the invariant, a staged mission replaces the route whole at a cycle boundary: the
-- controller flies its points and its number of segments, on a leg of the new route, and the
-- mission is staged no more.
pub apply_staged-Flies :
    (b : Both) → Inv b.runtime → b.runtime.pending_mission ≡ true → MissionTaken b (apply_staged b)
unfolding apply_staged
apply_staged-Flies b inv h =
    let same = apply_values-SameMission b in
    let (flies, p, q) =
      apply_mission-Flies (apply_values b) (apply_values-Inv b inv) (same.staged ∙ h) in
    (
      subst₂ (λ w n. Flies (values_of w) n (apply_mission (apply_values b)).model) same.waypoints
          same.segments flies,
      p,
      q,
    )

-- With no value of the table and no mission staged, a cycle boundary changes nothing.
pub apply_staged_idle :
    (b : Both)
    → ((i : ℕ) → i < values_size → b.runtime.pending_value_set i ≡ false)
    → b.runtime.pending_mission ≡ false
    → apply_staged b ≡ b
unfolding apply_staged apply_values
apply_staged_idle b none_set no_mission =
    let same : for_to values_size apply_pending_value b ≡ b =
      for_to_inv (λ i c. c ≡ b) apply_pending_value values_size b
        (λ i c lt h.
          ap (apply_pending_value i) h ∙ apply_pending_value_unstaged i b (none_set i lt))
        refl in
    ap apply_mission same ∙ apply_mission_none b no_mission
