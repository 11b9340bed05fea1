-- ===== src/Runtime/Start.antt =====
-- `cubs2_runtime_control_init` (src/runtime_control.c:576-609) establishes the invariant.
use cerebri_cubs.Prelude.{
  ℕ, suc, ◌^◌, ◌<◌, ◌≡◌, refl, Bool, true, false, arith, some, ap, ◌∙◌, List, [], ◌∷◌, String, ◌&&◌,
  none,
}
use cerebri_cubs.Prelude.Loop.{for_to, for_to_inv}
use cerebri_cubs.AtomicDouble.{atomic_double_init_value}
use cerebri_cubs.AtomicDouble.RoundTrip.{value_of, init-IsIdle, value_of-init}
use cerebri_cubs.OuterLoop.{OuterLoopState}
use cerebri_cubs.Params.Table.{values_size, slots}
use cerebri_cubs.Params.Leaves.{live}
use cerebri_cubs.Route.{max_points}
use cerebri_cubs.Runtime.{
  RuntimeControl, cleared, start_value, init_value, init_waypoint, init_waypoint_row, init_state,
  register_all, service_keys, cubs2_runtime_control_init,
}
use cerebri_cubs.Runtime.Inv.{Inv}

-- No value is staged or applied yet, and no mission.
record IsFresh (r : RuntimeControl) : Type 0 where
  inv : Inv r
  version : r.plan_version ≡ 1
  none_staged : (i : ℕ) → r.pending_value_set i ≡ false
  none_applied : (i : ℕ) → r.applied_value_set i ≡ false
  no_mission : r.pending_mission ≡ false
  no_applied_mission : r.applied_mission ≡ false

IsFresh-cleared : IsFresh cleared
IsFresh-cleared = record {
  inv = record {
    plan = omega arith;
    unlocked = refl;
    pending = record { idle = λ i. omega arith; below = λ i h. cc; number = λ i h. cc };
    live = record { idle = λ i. omega arith; number = λ i h. cc; live = λ i h. cc };
    mission = record {
      even = refl;
      fits = omega arith;
      idle = λ i j. omega arith;
      route = λ h. cc;
    };
    applied = λ h. cc;
  };
  version = refl;
  none_staged = λ i. refl;
  none_applied = λ i. refl;
  no_mission = refl;
  no_applied_mission = refl;
}

init_value-IsFresh :
    (model : OuterLoopState) (i : ℕ) (r : RuntimeControl)
    → IsFresh r
    → IsFresh (init_value model i r)
unfolding init_value
init_value-IsFresh model i r f =
    let idle = init-IsIdle (start_value model i) in
    record {
      inv = record {
        plan = f.inv.plan;
        unlocked = f.inv.unlocked;
        pending = record {
          idle = λ j. ground (arith, idle, f.inv.pending.idle j);
          below = λ j. ground (arith, f.none_staged j);
          number = λ j. ground (arith, f.none_staged j);
        };
        live = record {
          idle = λ j. ground (arith, idle, f.inv.live.idle j);
          number = f.inv.live.number;
          live = λ j h. cc (f.none_applied j);
        };
        mission = f.inv.mission;
        applied = f.inv.applied;
      };
      version = f.version;
      none_staged = λ j. ground (arith, f.none_staged j);
      none_applied = f.none_applied;
      no_mission = f.no_mission;
      no_applied_mission = f.no_applied_mission;
    }

init_waypoint-IsFresh :
    (model : OuterLoopState) (row column : ℕ) (r : RuntimeControl)
    → IsFresh r
    → IsFresh (init_waypoint model row column r)
unfolding init_waypoint
init_waypoint-IsFresh model row column r f =
    let idle = init-IsIdle (model.route_waypoints row column) in
    record {
      inv = record {
        plan = f.inv.plan;
        unlocked = f.inv.unlocked;
        pending = f.inv.pending;
        live = f.inv.live;
        mission = record {
          even = f.inv.mission.even;
          fits = f.inv.mission.fits;
          idle = λ i j. ground (arith, idle, f.inv.mission.idle i j);
          route = λ h. cc (f.no_mission);
        };
        applied = f.inv.applied;
      };
      version = f.version;
      none_staged = f.none_staged;
      none_applied = f.none_applied;
      no_mission = f.no_mission;
      no_applied_mission = f.no_applied_mission;
    }

-- The copy for queries of each value below `n` is as the loop over the values left it.
abbrev Copies : OuterLoopState → ℕ → RuntimeControl → Type 0
Copies model n r =
    IsFresh r × ((i : ℕ) → i < n → r.live_values i ≡ atomic_double_init_value (start_value model i))

init_value-Copies :
    (model : OuterLoopState) (n : ℕ) (r : RuntimeControl)
    → Copies model n r
    → Copies model (suc n) (init_value model n r)
init_value-Copies model n r (f, copies) =
    (init_value-IsFresh model n r f, λ i lt. unfold init_value in ground (arith, copies i))

init_row-Copies :
    (model : OuterLoopState) (n row : ℕ) (r : RuntimeControl)
    → Copies model n r
    → Copies model n (init_waypoint_row model row r)
init_row-Copies model n row r (f, copies) =
    (unfold init_waypoint_row in
      (
        init_waypoint-IsFresh model row 2 _
            (init_waypoint-IsFresh model row 1 _ (init_waypoint-IsFresh model row 0 r f)),
        copies,
      ))

init_state-Copies : (model : OuterLoopState) → Copies model slots (init_state model)
unfolding init_state
init_state-Copies model =
    for_to_inv (λ row. Copies model slots) (init_waypoint_row model) max_points
      (for_to slots (init_value model) cleared) (λ row r lt. init_row-Copies model slots row r)
      (for_to_inv (Copies model) (init_value model) slots cleared
        (λ i r lt. init_value-Copies model i r) (IsFresh-cleared, λ i lt. absurd (omega arith)))

-- The start establishes the invariant, with plan version 1, nothing staged and no mission staged.
pub init_state-Inv :
    (model : OuterLoopState)
    → Inv (init_state model)
      × ((init_state model).plan_version ≡ 1)
      × ((i : ℕ) → (init_state model).pending_value_set i ≡ false)
      × ((init_state model).pending_mission ≡ false)
init_state-Inv model =
    let f = (init_state-Copies model).0 in (f.inv, f.version, f.none_staged, f.no_mission)

start_value_live :
    (model : OuterLoopState) (i : ℕ) → i < values_size → start_value model i ≡ model.scalar (live i)
unfolding start_value
start_value_live model i h = ground arith

-- After the start the copy for queries of any value of the table is what the controller's leaf
-- holds, if that is a 64-bit pattern.
pub init_state_query :
    (model : OuterLoopState) (i : ℕ)
    → i < values_size
    → model.scalar (live i) < 2 ^ 64
    → value_of ((init_state model).live_values i) ≡ model.scalar (live i)
init_state_query model i h fits =
    ap value_of ((init_state-Copies model).1 i (omega arith))
    ∙ ap (λ x. value_of (atomic_double_init_value x)) (start_value_live model i h)
    ∙ value_of-init (model.scalar (live i)) fits

abbrev pub all_accepted : (String → Bool) → List String → Bool
all_accepted register [] = true
all_accepted register (key ∷ rest) = register key && all_accepted register rest

pub register_all_lem :
    (register : String → Bool) (keys : List String)
    → ((register_all register keys).1 ≡ all_accepted register keys)
unfolding register_all
register_all_lem register [] = refl
register_all_lem register (key ∷ rest) = ground (arith, register_all_lem register rest)

-- With a controller the start returns true exactly if each of the three services could be
-- registered, and leaves the initial state in any case; without a controller it registers nothing,
-- leaves the state alone and returns false.
pub init_result :
    (register : String → Bool) (r : RuntimeControl) (model : OuterLoopState)
    → ((cubs2_runtime_control_init register r (some model)).2 ≡ all_accepted register service_keys)
      × ((cubs2_runtime_control_init register r (some model)).0 ≡ init_state model)
      × (cubs2_runtime_control_init register r none ≡ (r, [], false))
unfolding cubs2_runtime_control_init
init_result register r model = (register_all_lem register service_keys, refl, refl)
