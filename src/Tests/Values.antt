-- ===== src/Tests/Values.antt =====
-- The tables of parameters, the cycle boundary and a restart at concrete states.
use cerebri_cubs.Prelude.{◌≡◌, refl, true, some, arith}
use cerebri_cubs.AtomicDouble.RoundTrip.{value_of}
use cerebri_cubs.Params.{value_at, find_value}
use cerebri_cubs.Params.Names.{find_value-name}
use cerebri_cubs.Route.Replace.{Flies}
use cerebri_cubs.Runtime.{Both, init_state, apply_staged, restore}
use cerebri_cubs.Runtime.Inv.{values_of, Inv, IsNumber}
use cerebri_cubs.Runtime.Rounds.{InEffect}
use cerebri_cubs.Runtime.Boundary.{Settled, apply_staged-Settled}
use cerebri_cubs.Runtime.Restart.{restart_keeps_value}
use cerebri_cubs.Runtime.Keeps.{restart_keeps_mission}
use cerebri_cubs.Service.{stage_value, stage_mission, no_waypoints}
use cerebri_cubs.Service.Staged.{stage_value-Inv, stage_mission-Inv}
use cerebri_cubs.Tests.{speed, model, at_start-Inv}

find_value-name_example : find_value (value_at 7).name ≡ some 7
find_value-name_example = find_value-name 7 (omega arith)

speed-IsNumber : IsNumber speed
speed-IsNumber = (omega arith, refl)

abbrev with_value : Both
with_value = record { runtime = stage_value (init_state model) 0 speed; model = model }

with_value-Inv : Inv with_value.runtime
with_value-Inv =
    stage_value-Inv (init_state model) 0 speed at_start-Inv (omega arith) speed-IsNumber

apply_staged-Settled_example : Settled 0 with_value (apply_staged with_value)
apply_staged-Settled_example = apply_staged-Settled with_value 0 with_value-Inv (omega arith)

restart_keeps_value_example :
    InEffect 0
      (value_of (with_value.runtime.pending_values 0))
      (restore (record { runtime = (apply_staged with_value).runtime; model = model }))
unfolding stage_value
restart_keeps_value_example =
    restart_keeps_value with_value model 0 with_value-Inv (omega arith) refl

abbrev with_mission : Both
with_mission = record { runtime = stage_mission (init_state model) no_waypoints 1; model = model }

with_mission-Inv : Inv with_mission.runtime
with_mission-Inv =
    (stage_mission-Inv (init_state model) no_waypoints 1 at_start-Inv (omega arith) (omega arith)
      (λ row column. (omega arith, refl))).0

mission_staged : with_mission.runtime.pending_mission ≡ true
unfolding stage_mission
mission_staged = refl

restart_keeps_mission_example :
    Flies
      (values_of with_mission.runtime.pending_waypoints)
      with_mission.runtime.pending_segments
      (restore (record { runtime = (apply_staged with_mission).runtime; model = model })).model
restart_keeps_mission_example =
    restart_keeps_mission with_mission model with_mission-Inv mission_staged
