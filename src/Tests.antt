-- ===== src/Tests.antt =====
-- Concrete inputs for the tests: stand-ins for the code that is not in the repository, a state of the
-- controller, requests, and samples of the SIL loop.
mod Slots
mod Values
mod Queries
mod Missions
mod Loops
mod Hardware
mod Flight
mod Handover
mod Transport
mod Programs
use cerebri_cubs.Prelude.{
  leb, ℕ, zero, suc, ◌+◌, ◌*◌, ◌%◌, ◌^◌, ◌≡◌, ◌<◌, refl, String, Bool, true, false, Option, none,
  some, List, [], ◌∷◌, arith, ltb, if◌then◌else◌,
}
use cerebri_cubs.Prelude.Int.{ℤ, pos}
use cerebri_cubs.AtomicDouble.{Double}
use cerebri_cubs.OuterLoop.{OuterLoopState}
use cerebri_cubs.Flatcc.{Bytes, BuilderCall, Vec3f, Segment, local_enu, Flatcc}
use cerebri_cubs.Csyn.{RcChannels, ManualControl, Csyn, Quaternion, Triple}
use cerebri_cubs.Mode.{Config}
use cerebri_cubs.Odometry.{Odometry, OdometryFlags, OdometryStatus}
use cerebri_cubs.Reply.{length}
use cerebri_cubs.Runtime.{Both, init_state}
use cerebri_cubs.Runtime.Inv.{Inv}
use cerebri_cubs.Runtime.Start.{init_state-Inv}
use cerebri_cubs.Service.ParamSet.{DoublesFit}
use cerebri_cubs.Sil.{Context}

-- 5.0 and 1.0f
abbrev pub speed : Double
speed = 0x4014_0000_0000_0000

abbrev pub one_metre : ℕ
one_metre = 0x3f80_0000

abbrev pub origin : Vec3f
origin = record { x = 0; y = 0; z = 0 }

abbrev pub ahead : Vec3f
ahead = record { x = one_metre; y = 0; z = 0 }

abbrev pub leg : Segment
leg = record { segment_seq = 0; frame = local_enu; p0_enu_m = origin; p1_enu_m = ahead }

abbrev first_byte : Bytes → ℕ
first_byte [] = 0
first_byte (b ∷ rest) = b

abbrev name_of : ℕ → String
name_of zero = "route_cruiseSpeed"
name_of (suc n) = "velocity.setpoint"

-- A request is a list of numbers: the first one chooses the name of a parameter, or is the plan
-- version that a trajectory expects. The builder is the list of its calls, and the reply its length.
abbrev pub test_flatcc : Flatcc
test_flatcc = record {
  Builder = List BuilderCall;
  init = some [];
  emit = λ builder call. some (call ∷ builder);
  direct_buffer = λ builder. some (length builder ∷ []);
  ParamSetRequest = Bytes;
  ParamValue = Bytes;
  ParamGetRequest = Bytes;
  TrajectorySetRequest = Bytes;
  verify_param_set = λ bytes. true;
  param_set_root = λ bytes. some bytes;
  param_set_value = λ request. some request;
  value_name = λ value. some (name_of (first_byte value));
  value_kind_is_float = λ value. true;
  value_float = λ value. speed;
  verify_param_get = λ bytes. true;
  param_get_root = λ bytes. some bytes;
  param_get_name = λ request. some (name_of (first_byte request));
  verify_trajectory_set = λ bytes. true;
  trajectory_set_root = λ bytes. some bytes;
  segments = λ request. some (leg ∷ []);
  total = λ request. 1;
  expected_plan_version = λ request. first_byte request;
}

-- A builder that refuses every call.
abbrev pub refusing_flatcc : Flatcc
refusing_flatcc = record test_flatcc { emit = λ builder call. none }

pub doubles_fit : DoublesFit test_flatcc
doubles_fit v = omega arith

abbrev pub model : OuterLoopState
model = record {
  scalar = λ member. 0;
  vector = λ member i. 0;
  route_waypoints = λ row column. 0;
  guidance_route_waypoints = λ row column. 0;
  route_n_segments = pos 0;
  guidance_route_n_segments = pos 0;
  current_waypoint = pos 1;
  guidance_current_waypoint = pos 1;
  guidance_active_waypoint = pos 1;
  previous_guidance_current_waypoint = pos 1;
  guidance_segment_end_index = pos 2;
  airborne = false;
  estimator_held_samples = pos 0;
}

abbrev pub at_start : Both
at_start = record { runtime = init_state model; model = model }

pub at_start-Inv : Inv at_start.runtime
at_start-Inv = (init_state-Inv model).0

abbrev pub cruise_request : Option Bytes
cruise_request = some (0 ∷ [])

abbrev pub setpoint_request : Option Bytes
setpoint_request = some (1 ∷ [])

-- A trajectory that expects plan version 1.
abbrev pub mission_request : Option Bytes
mission_request = some (1 ∷ [])

abbrev pub test_csyn : Csyn
test_csyn = record {
  narrow = λ d. d % 2 ^ 32;
  negate = λ x. x;
  multiply = λ x y. x;
  add = λ x y. y;
  subtract = λ x y. 0;
  absolute = λ x. x;
  less_equal = λ x y. leb x y;
  square_root = λ x. x;
  arc_tangent = λ y x. y;
  to_int32 = λ x. pos x;
  to_int16 = λ x. pos x;
  to_uint16 = λ x. x;
  double_of = λ i. 0;
  multiply_double = λ x y. x;
  subtract_double = λ x y. 0;
  less_double = λ x y. ltb x y;
  clampf = λ x low high. if ltb x low then low else x;
  euler_from_quatf = λ q. record { x = q.x; y = q.y; z = q.z };
  quatf_from_euler = λ x y z. record { w = one_metre; x = x; y = y; z = z };
  pwm_from_centered_axis = λ x. pos 1500;
  pwm_from_throttle_axis = λ x. pos 1000;
  Pwm = RcChannels × ℤ;
  no_outputs = ((λ i. pos 0), pos 0);
  pwm_outputs_from_rc = λ rc old time. (rc, time);
  efmi_init = λ m. m;
  efmi_recalibrate = λ m. m;
  efmi_step = λ m. record m { current_waypoint = pos 2 };
}

abbrev pub config : Config
config = record {
  manual_override = true;
  auto_switch_channel = 4;
  auto_switch_threshold_us = pos 1500;
}

-- All channels in the middle: the switch is not above the threshold.
abbrev pub pilot : ManualControl
pilot = record { valid = true; rc = λ i. pos 1500 }

-- No message of the pilot yet.
abbrev pub nobody : ManualControl
nobody = record { valid = false; rc = λ i. pos 0 }

abbrev pub valid_flags : OdometryFlags
valid_flags = record {
  position_valid = true;
  attitude_valid = true;
  linear_velocity_valid = true;
  angular_velocity_valid = true;
  outlier_rejected = false;
  lost = false;
}

abbrev pub triple : Triple
triple = record { x = 0; y = 0; z = 0 }

abbrev pub sample : Odometry
sample = record {
  timestamp_us = 40000;
  position_enu_m = triple;
  attitude = record { w = one_metre; x = 0; y = 0; z = 0 };
  linear_velocity_enu_m_s = triple;
  angular_velocity_flu_rad_s = triple;
  flags = valid_flags;
  status = OdometryStatus.status_other;
}

abbrev pub lost_sample : Odometry
lost_sample = record sample { flags = record valid_flags { lost = true } }

abbrev pub context : ManualControl → Odometry → Context test_csyn
context manual odom = record {
  both = at_start;
  odometry = odom;
  manual = manual;
  control_rc = λ i. pos 0;
  pwm_outputs = ((λ i. pos 0), pos 0);
  main_loop_us = 0;
  lockstep_time_us = odom.timestamp_us;
  next_control_time_us = 0;
  estimator_control_steps = 0;
  lockstep_time_valid = true;
  previous_auto_mode = false;
}
