-- ===== src/Runtime.antt =====
-- src/runtime_control.c:48-66 and 576-689: the staged updates, their start, and the two calls that
-- the control loop makes at a cycle boundary. A call runs here with no other thread between its
-- accesses; Handover and Flags have the interleavings of what is staged, and `AtomicDouble.Concurrent`
-- those of one slot.
pub mod Inv
pub mod Start
pub mod Apply
pub mod Rounds
pub mod Values
pub mod Mission
pub mod Boundary
pub mod Restore
pub mod Restart
pub mod Keeps
pub mod Handover
pub mod Complete
pub mod Delivery
pub mod Flags
use cerebri_cubs.Prelude.{
  ℕ, String, Bool, true, false, not, ◌&&◌, Option, none, some, List, [], ◌∷◌, ltb, ◌==◌,
  if◌then◌else◌, ◌++◌,
}
use cerebri_cubs.Prelude.Loop.{for_to}
use cerebri_cubs.Prelude.Update.{update, update₂}
use cerebri_cubs.AtomicDouble.{
  Double, AtomicDouble, is_odd, atomic_double_init_value, atomic_double_store_value,
  atomic_double_try_load,
}
use cerebri_cubs.OuterLoop.{OuterLoopState}
use cerebri_cubs.Params.Table.{values_size, slots}
use cerebri_cubs.Params.{value_at, apply_value}
use cerebri_cubs.Route.{Waypoints, max_points, apply_route}

-- `struct runtime_control`, without the pointer `model`, which no code reads.
pub record RuntimeControl : Type 0 where
  pub plan_version : ℕ
  pub command_writer : Bool
  pub pending_mission : Bool
  pub mission_sequence : ℕ
  pub pending_values : ℕ → AtomicDouble
  pub pending_value_set : ℕ → Bool
  pub live_values : ℕ → AtomicDouble
  pub applied_values : ℕ → Double
  pub applied_value_set : ℕ → Bool
  pub pending_waypoints : ℕ → ℕ → AtomicDouble
  pub pending_segments : ℕ
  pub applied_waypoints : Waypoints
  pub applied_segments : ℕ
  pub applied_mission : Bool

abbrev zero_slot : AtomicDouble
zero_slot = record { sequence = 0; low = 0; high = 0 }

-- `memset`, then the `atomic_init` calls before the loops.
abbrev pub cleared : RuntimeControl
cleared = record {
  plan_version = 1;
  command_writer = false;
  pending_mission = false;
  mission_sequence = 0;
  pending_values = λ i. zero_slot;
  pending_value_set = λ i. false;
  live_values = λ i. zero_slot;
  applied_values = λ i. 0;
  applied_value_set = λ i. false;
  pending_waypoints = λ row column. zero_slot;
  pending_segments = 0;
  applied_waypoints = λ row column. 0;
  applied_segments = 0;
  applied_mission = false;
}

unfoldable pub start_value : OuterLoopState → ℕ → Double
unfolding value_at
start_value model i = if ltb i values_size then model.scalar (value_at i).live_offset else 0

unfoldable pub init_value : OuterLoopState → ℕ → RuntimeControl → RuntimeControl
unfolding start_value
init_value model i r =
    let value = start_value model i in
    record r {
      pending_values = update r.pending_values i (atomic_double_init_value value);
      live_values = update r.live_values i (atomic_double_init_value value);
      pending_value_set = update r.pending_value_set i false;
    }

unfoldable pub init_waypoint : OuterLoopState → ℕ → ℕ → RuntimeControl → RuntimeControl
init_waypoint model row column r = record r {
  pending_waypoints =
      update₂ r.pending_waypoints row column
        (atomic_double_init_value (model.route_waypoints row column));
}

unfoldable pub init_waypoint_row : OuterLoopState → ℕ → RuntimeControl → RuntimeControl
unfolding init_waypoint for_to
init_waypoint_row model row r = for_to 3 (init_waypoint model row) r

unfoldable pub init_state : OuterLoopState → RuntimeControl
init_state model =
    for_to max_points (init_waypoint_row model) (for_to slots (init_value model) cleared)

-- The keys handed to `csyn_zenoh_register_queryable` in turn, up to the first that it refuses, and
-- whether it took all.
unfoldable pub register_all : (String → Bool) → List String → List String × Bool
register_all register [] = ([], true)
register_all register (key ∷ rest) =
    let later = register_all register rest in
    if register key then (key ∷ later.0, later.1) else (key ∷ [], false)

abbrev pub service_keys : List String
service_keys = "cmd/param_set" ∷ "cmd/param_get" ∷ "cmd/trajectory_set" ∷ []

-- The result: the state if `model` is not NULL, the registrations that were tried, the return value.
unfoldable pub cubs2_runtime_control_init :
    (String → Bool) → RuntimeControl → Option OuterLoopState → RuntimeControl × List String × Bool
unfolding init_state register_all
cubs2_runtime_control_init register r none = (r, [], false)
cubs2_runtime_control_init register r (some model) =
    let registered = register_all register service_keys in
    (init_state model, registered.0, registered.1)

-- The state of this module and the controller's, which a cycle boundary changes together.
pub record Both : Type 0 where
  pub runtime : RuntimeControl
  pub model : OuterLoopState

-- One round of the loop over the values in `cubs2_runtime_control_apply`.
unfoldable pub take_value : ℕ → Option Double → Both → Both
take_value i none b = record b {
  runtime = record b.runtime {
    pending_value_set = update (update b.runtime.pending_value_set i false) i true;
  };
}
take_value i (some value) b = record {
  model = apply_value b.model i value;
  runtime = record b.runtime {
    pending_value_set = update b.runtime.pending_value_set i false;
    live_values =
        update b.runtime.live_values i (atomic_double_store_value (b.runtime.live_values i) value);
    applied_values = update b.runtime.applied_values i value;
    applied_value_set = update b.runtime.applied_value_set i true;
  };
}

unfoldable pub apply_pending_value : ℕ → Both → Both
unfolding take_value
apply_pending_value i b =
    if b.runtime.pending_value_set i
    then take_value i (atomic_double_try_load (b.runtime.pending_values i)) b
    else b

unfoldable pub apply_values : Both → Both
apply_values b = for_to values_size apply_pending_value b

abbrev load_into : ℕ → ℕ → Waypoints → Option Double → Option Waypoints
load_into row column read none = none
load_into row column read (some value) = some (update₂ read row column value)

-- A failed load leaves both loops: nothing more is read.
abbrev pub load_waypoint : (ℕ → ℕ → AtomicDouble) → ℕ → ℕ → Option Waypoints → Option Waypoints
load_waypoint pending row column none = none
load_waypoint pending row column (some read) =
    load_into row column read (atomic_double_try_load (pending row column))

unfoldable pub load_row : (ℕ → ℕ → AtomicDouble) → ℕ → Option Waypoints → Option Waypoints
unfolding for_to
load_row pending row read = for_to 3 (load_waypoint pending row) read

-- The array `waypoints` is not initialised; 0 stands for what it held.
unfoldable pub load_waypoints : (ℕ → ℕ → AtomicDouble) → Option Waypoints
load_waypoints pending = for_to max_points (load_row pending) (some (λ row column. 0))

-- The mission as far as it is complete: the counter even before, every point read, and the counter
-- the same after.
unfoldable pub load_mission : RuntimeControl → Option Waypoints
load_mission r =
    let before = r.mission_sequence in
    let read = load_waypoints r.pending_waypoints in
    if not (is_odd before) && (before == r.mission_sequence) then read else none

unfoldable pub take_mission : Option Waypoints → Both → Both
take_mission none b = record b { runtime = record b.runtime { pending_mission = true } }
take_mission (some waypoints) b = record {
  model = apply_route b.model waypoints b.runtime.pending_segments;
  runtime = record b.runtime {
    pending_mission = false;
    applied_waypoints = waypoints;
    applied_segments = b.runtime.pending_segments;
    applied_mission = true;
  };
}

unfoldable pub apply_mission : Both → Both
apply_mission b = if b.runtime.pending_mission then take_mission (load_mission b.runtime) b else b

-- `cubs2_runtime_control_apply`; `armed` is not used.
unfoldable pub apply_staged : Both → Both
apply_staged b = apply_mission (apply_values b)

-- With `model == NULL` nothing happens.
unfoldable pub cubs2_runtime_control_apply :
    RuntimeControl → Option OuterLoopState → Bool → RuntimeControl × Option OuterLoopState
unfolding apply_staged
cubs2_runtime_control_apply r none armed = (r, none)
cubs2_runtime_control_apply r (some model) armed =
    let b = apply_staged (record { runtime = r; model = model }) in (b.runtime, some b.model)

unfoldable pub restore_value : ℕ → Both → Both
restore_value i b =
    if b.runtime.applied_value_set i
    then record {
      model = apply_value b.model i (b.runtime.applied_values i);
      runtime = record b.runtime {
        live_values =
            update b.runtime.live_values i
              (atomic_double_store_value (b.runtime.live_values i) (b.runtime.applied_values i));
      };
    }
    else b

unfoldable pub restore_values : Both → Both
restore_values b = for_to values_size restore_value b

unfoldable pub restore_mission : Both → Both
restore_mission b =
    if b.runtime.applied_mission
    then record b {
      model = apply_route b.model b.runtime.applied_waypoints b.runtime.applied_segments;
    }
    else b

unfoldable pub restore : Both → Both
restore b = restore_mission (restore_values b)

unfoldable pub cubs2_runtime_control_restore :
    RuntimeControl → Option OuterLoopState → RuntimeControl × Option OuterLoopState
unfolding restore
cubs2_runtime_control_restore r none = (r, none)
cubs2_runtime_control_restore r (some model) =
    let b = restore (record { runtime = r; model = model }) in (b.runtime, some b.model)
