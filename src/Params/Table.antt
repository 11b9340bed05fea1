-- ===== src/Params/Table.antt =====
-- src/runtime_control.c:28-34, 68-123 and 212-238: the two constant tables. An offset into the
-- controller's state is the name of the member that stands there. The bounds are the bit patterns of
-- the source's decimal constants (`lower`, `upper`); no code reads them.
use cerebri_cubs.Prelude.{ℕ, String, List, [], ◌∷◌}
use cerebri_cubs.AtomicDouble.{Double}

pub record RuntimeValue : Type 0 where
  pub name : String
  pub live_offset : String
  pub mirror_offset : String
  pub min : Double
  pub max : Double

-- `VALUE(field, mirror_field, lower, upper)`
abbrev pub value : String → String → Double → Double → RuntimeValue
value field mirror_field lower upper = record {
  name = field;
  live_offset = field;
  mirror_offset = mirror_field;
  min = lower;
  max = upper;
}

abbrev pub values : List RuntimeValue
values =
    (value "route_cruiseSpeed" "guidance_route_cruiseSpeed" 0x3ff0_0000_0000_0000
      0x4028_0000_0000_0000)
    ∷ (value "route_altitudeToFlightPathGain" "guidance_route_altitudeToFlightPathGain"
        0x0000_0000_0000_0000 0x4024_0000_0000_0000)
    ∷ (value "route_altitudeLookaheadDistance" "guidance_route_altitudeLookaheadDistance"
        0x3fe0_0000_0000_0000 0x4049_0000_0000_0000)
    ∷ (value "route_flightPathAngleLimit" "guidance_route_flightPathAngleLimit"
        0x3f94_7ae1_47ae_147b 0x3fe6_6666_6666_6666)
    ∷ (value "route_speedToAccelerationGain" "guidance_route_speedToAccelerationGain"
        0x0000_0000_0000_0000 0x4024_0000_0000_0000)
    ∷ (value "route_crossTrackSteeringDistance" "guidance_route_crossTrackSteeringDistance"
        0x3fd0_0000_0000_0000 0x4049_0000_0000_0000)
    ∷ (value "route_waypointSwitchingDistance" "guidance_route_waypointSwitchingDistance"
        0x3fb9_9999_9999_999a 0x4049_0000_0000_0000)
    ∷ (value "tecsParams_thrustKp" "tecs_tecs_thrustKp" 0x0000_0000_0000_0000 0x4000_0000_0000_0000)
    ∷ (value "tecsParams_thrustKi" "tecs_tecs_thrustKi" 0x0000_0000_0000_0000 0x4000_0000_0000_0000)
    ∷ (value "tecsParams_energyRateIntegralMax" "tecs_tecs_energyRateIntegralMax"
        0x0000_0000_0000_0000 0x4059_0000_0000_0000)
    ∷ (value "tecsParams_pitchKp" "tecs_tecs_pitchKp" 0x0000_0000_0000_0000 0x4000_0000_0000_0000)
    ∷ (value "tecsParams_pitchKi" "tecs_tecs_pitchKi" 0x0000_0000_0000_0000 0x4000_0000_0000_0000)
    ∷ (value "tecsParams_energyDistributionIntegralMax" "tecs_tecs_energyDistributionIntegralMax"
        0x0000_0000_0000_0000 0x4059_0000_0000_0000)
    ∷ (value "tecsParams_pitchCommandLimit" "tecs_tecs_pitchCommandLimit" 0x3f94_7ae1_47ae_147b
        0x3fe6_6666_6666_6666)
    ∷ (value "tecsParams_turnThrustGain" "tecs_tecs_turnThrustGain" 0x0000_0000_0000_0000
        0x4014_0000_0000_0000)
    ∷ (value "tecsParams_turnPitchGain" "tecs_tecs_turnPitchGain" 0xc000_0000_0000_0000
        0x4000_0000_0000_0000)
    ∷ (value "attitudeParams_rollLimit" "attitude_params_rollLimit" 0x3fa9_9999_9999_999a
        0x3ff3_3333_3333_3333)
    ∷ (value "attitudeParams_rollRateLimit" "attitude_params_rollRateLimit" 0x3fb9_9999_9999_999a
        0x4020_0000_0000_0000)
    ∷ (value "attitudeParams_pitchCommandToElevatorGain"
        "attitude_params_pitchCommandToElevatorGain" 0x0000_0000_0000_0000 0x4024_0000_0000_0000)
    ∷ (value "attitudeParams_rollCommandToAileronGain" "attitude_params_rollCommandToAileronGain"
        0x0000_0000_0000_0000 0x4024_0000_0000_0000)
    ∷ (value "attitude_headingPid_kp" "attitude_headingController_params_kp" 0x0000_0000_0000_0000
        0x4024_0000_0000_0000)
    ∷ (value "attitude_headingPid_ki" "attitude_headingController_params_ki" 0x0000_0000_0000_0000
        0x4024_0000_0000_0000)
    ∷ (value "attitude_headingPid_kd" "attitude_headingController_params_kd" 0x0000_0000_0000_0000
        0x4024_0000_0000_0000)
    ∷ (value "attitude_headingPid_integralMax" "attitude_headingController_params_integralMax"
        0x0000_0000_0000_0000 0x4024_0000_0000_0000)
    ∷ (value "attitude_pitchPid_kp" "attitude_pitchController_params_kp" 0x0000_0000_0000_0000
        0x4024_0000_0000_0000)
    ∷ (value "attitude_pitchPid_ki" "attitude_pitchController_params_ki" 0x0000_0000_0000_0000
        0x4024_0000_0000_0000)
    ∷ (value "attitude_pitchPid_kd" "attitude_pitchController_params_kd" 0x0000_0000_0000_0000
        0x4024_0000_0000_0000)
    ∷ (value "attitude_pitchPid_integralMax" "attitude_pitchController_params_integralMax"
        0x0000_0000_0000_0000 0x4024_0000_0000_0000)
    ∷ []

-- `ARRAY_SIZE(values)`
abbrev pub values_size : ℕ
values_size = 28

-- `ARRAY_SIZE(g_runtime.pending_values)`
abbrev pub slots : ℕ
slots = 32

pub record Alias : Type 0 where
  pub public_name : String
  pub field : String

abbrev pub alias : String → String → Alias
alias p f = record { public_name = p; field = f }

abbrev pub aliases : List Alias
aliases =
    (alias "route.cruiseSpeed" "route_cruiseSpeed")
    ∷ (alias "route.altitudeToFlightPathGain" "route_altitudeToFlightPathGain")
    ∷ (alias "route.altitudeLookaheadDistance" "route_altitudeLookaheadDistance")
    ∷ (alias "route.flightPathAngleLimit" "route_flightPathAngleLimit")
    ∷ (alias "route.speedToAccelerationGain" "route_speedToAccelerationGain")
    ∷ (alias "route.crossTrackSteeringDistance" "route_crossTrackSteeringDistance")
    ∷ (alias "route.waypointSwitchingDistance" "route_waypointSwitchingDistance")
    ∷ (alias "tecs.thrustKp" "tecsParams_thrustKp")
    ∷ (alias "tecs.thrustKi" "tecsParams_thrustKi")
    ∷ (alias "tecs.pitchKp" "tecsParams_pitchKp")
    ∷ (alias "tecs.pitchKi" "tecsParams_pitchKi")
    ∷ (alias "tecs.pitchCommandLimit" "tecsParams_pitchCommandLimit")
    ∷ (alias "attitude.rollLimit" "attitudeParams_rollLimit")
    ∷ (alias "attitude.rollRateLimit" "attitudeParams_rollRateLimit")
    ∷ (alias "attitude.headingPid.kp" "attitude_headingPid_kp")
    ∷ (alias "attitude.headingPid.ki" "attitude_headingPid_ki")
    ∷ (alias "attitude.headingPid.kd" "attitude_headingPid_kd")
    ∷ (alias "attitude.headingPid.integralMax" "attitude_headingPid_integralMax")
    ∷ (alias "attitude.pitchPid.kp" "attitude_pitchPid_kp")
    ∷ (alias "attitude.pitchPid.ki" "attitude_pitchPid_ki")
    ∷ (alias "attitude.pitchPid.kd" "attitude_pitchPid_kd")
    ∷ (alias "attitude.pitchPid.integralMax" "attitude_pitchPid_integralMax")
    ∷ []
