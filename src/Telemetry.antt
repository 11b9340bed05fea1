-- ===== src/Telemetry.antt =====
-- src/main_sil.c:112-125 and 233-302: the outputs of a control cycle and the messages about it. The
-- flag words are records of their named bits.
use cerebri_cubs.Prelude.{ℕ, zero, suc, String, Bool, not, ◌&&◌, ◌||◌, leb, if◌then◌else◌}
use cerebri_cubs.Prelude.Int.{ℤ, pos, leb_ℤ}
use cerebri_cubs.AtomicDouble.{Double}
use cerebri_cubs.OuterLoop.{OuterLoopState}
use cerebri_cubs.Runtime.Inv.{is_finite}
use cerebri_cubs.Csyn.{Float, Quaternion, Triple, RcChannels, ManualControl, Csyn}
use cerebri_cubs.Pace.{control_period_us}

-- 0.0f, 1.0f, 1000.0f and 2000.0f
abbrev pub float_0 : Float
float_0 = 0

abbrev pub float_1 : Float
float_1 = 0x3f80_0000

abbrev pub float_1000 : Float
float_1000 = 0x447a_0000

abbrev pub float_2000 : Float
float_2000 = 0x44fa_0000

-- `model->name` as a float.
abbrev pub as_float : Csyn → OuterLoopState → String → Float
as_float csyn model member = csyn.narrow (model.scalar member)

-- `(int32_t)(1000.0f * (float)model->name)`
abbrev pub thousandths : Csyn → OuterLoopState → String → ℤ
thousandths csyn model member =
    csyn.to_int32 (csyn.multiply float_1000 (as_float csyn model member))

unfoldable pub fixed_wing_map_output : Csyn → OuterLoopState → RcChannels
fixed_wing_map_output csyn model zero =
    csyn.pwm_from_centered_axis (csyn.negate (as_float csyn model "aileron"))
fixed_wing_map_output csyn model (suc zero) =
    csyn.pwm_from_centered_axis (csyn.negate (as_float csyn model "elevator"))
fixed_wing_map_output csyn model (suc (suc zero)) =
    csyn.pwm_from_throttle_axis (as_float csyn model "throttle")
fixed_wing_map_output csyn model (suc (suc (suc zero))) =
    csyn.pwm_from_centered_axis (as_float csyn model "rudder")
fixed_wing_map_output csyn model (suc (suc (suc (suc zero)))) =
    csyn.to_int32 (csyn.clampf (as_float csyn model "stabilizer") float_1000 float_2000)
fixed_wing_map_output csyn model (suc (suc (suc (suc (suc zero))))) = model.current_waypoint
fixed_wing_map_output csyn model (suc (suc (suc (suc (suc (suc zero)))))) =
    thousandths csyn model "desiredSpeed"
fixed_wing_map_output csyn model (suc (suc (suc (suc (suc (suc (suc zero))))))) =
    thousandths csyn model "rollCommand"
fixed_wing_map_output csyn model (suc (suc (suc (suc (suc (suc (suc (suc zero)))))))) =
    thousandths csyn model "courseError"
fixed_wing_map_output csyn model (suc (suc (suc (suc (suc (suc (suc (suc (suc i))))))))) = pos 0

pub record VehicleHealth : Type 0 where
  pub timestamp_us : ℕ
  pub flight_mode : ℕ
  pub link_quality_pct : ℕ
  pub armed : Bool
  pub failsafe : Bool

pub record AttitudeEstimate : Type 0 where
  pub timestamp_us : ℕ
  pub attitude_valid : Bool
  pub rates_valid : Bool
  pub angular_velocity_flu_rad_s : Triple
  pub attitude : Quaternion

pub record AttitudeCommand : Type 0 where
  pub timestamp_us : ℕ
  pub thrust : Float
  pub attitude : Quaternion

pub record ControlLoopMetrics : Type 0 where
  pub timestamp_us : ℕ
  pub period_us : ℕ
  pub latency_us : ℕ

abbrev pub all_finite : (ℕ → Double) → Bool
all_finite v = is_finite (v 0) && is_finite (v 1) && is_finite (v 2)

pub record EstimateFlags : Type 0 where
  pub attitude : Bool
  pub rates : Bool

-- `fresh` is `odometry_ok` in the SIL loop and `measurement_fresh` in the realtime loop.
unfoldable pub attitude_estimate_flags : OuterLoopState → ℕ → Bool → EstimateFlags
attitude_estimate_flags model steps fresh = record {
  attitude = fresh && leb 1 steps && all_finite (model.vector "euler_rad");
  rates = fresh && leb 2 steps && all_finite (model.vector "eulerRateEstimate_rad_s");
}

-- `!manual.valid || manual.rc.ch6 >= 1500`
abbrev pub is_armed : ManualControl → Bool
is_armed manual = not manual.valid || leb_ℤ (pos 1500) (manual.rc 6)

unfoldable pub vehicle_health : ManualControl → (auto_mode failed : Bool) → ℕ → VehicleHealth
vehicle_health manual auto_mode failed timestamp_us = record {
  timestamp_us = timestamp_us;
  flight_mode = if auto_mode then 1 else 0;
  link_quality_pct = if manual.valid then 100 else 0;
  armed = is_armed manual;
  failsafe = auto_mode && failed;
}

unfoldable pub attitude_estimate : Csyn → OuterLoopState → EstimateFlags → ℕ → AttitudeEstimate
attitude_estimate csyn model flags timestamp_us =
    let euler = model.vector "euler_rad" in
    let rates = model.vector "eulerRateEstimate_rad_s" in
    record {
      timestamp_us = timestamp_us;
      attitude_valid = flags.attitude;
      rates_valid = flags.rates;
      angular_velocity_flu_rad_s = record {
        x = csyn.narrow (rates 0);
        y = csyn.narrow (rates 1);
        z = csyn.narrow (rates 2);
      };
      attitude =
          csyn.quatf_from_euler (csyn.narrow (euler 0)) (csyn.narrow (euler 1))
            (csyn.narrow (euler 2));
    }

unfoldable pub attitude_command : Csyn → OuterLoopState → ℕ → AttitudeCommand
attitude_command csyn model timestamp_us = record {
  timestamp_us = timestamp_us;
  thrust = csyn.clampf (as_float csyn model "throttle") float_0 float_1;
  attitude =
      csyn.quatf_from_euler (as_float csyn model "rollCommand") float_0
        (as_float csyn model "desiredHeading");
}

abbrev pub control_loop_metrics : ℕ → ℕ → ControlLoopMetrics
control_loop_metrics latency_us timestamp_us = record {
  timestamp_us = timestamp_us;
  period_us = control_period_us;
  latency_us = latency_us;
}
