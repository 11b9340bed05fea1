-- ===== src/Odometry.antt =====
-- The odometry message of the SIL loop, and src/main_sil.c:75-110: its validity, and how it enters the
-- controller.
pub mod Usable
use cerebri_cubs.Prelude.{ℕ, String, Bool, true, false, not, ◌&&◌, ◌||◌}
use cerebri_cubs.Prelude.Update.{update, assign}
use cerebri_cubs.AtomicDouble.{Double}
use cerebri_cubs.OuterLoop.{OuterLoopState}
use cerebri_cubs.Float.{widen}
use cerebri_cubs.Csyn.{Quaternion, Triple, Csyn}

-- `flags`, the bits that the code names.
pub record OdometryFlags : Type 0 where
  pub position_valid : Bool
  pub attitude_valid : Bool
  pub linear_velocity_valid : Bool
  pub angular_velocity_valid : Bool
  pub outlier_rejected : Bool
  pub lost : Bool

-- `synapse_topic_OdometryStatus`; the code tells two values from all others.
pub data OdometryStatus : Type 0 where
  status_lost status_outlier_rejected status_other : OdometryStatus

-- `synapse_topic_OdometryData_t`
pub record Odometry : Type 0 where
  pub timestamp_us : ℕ
  pub position_enu_m : Triple
  pub attitude : Quaternion
  pub linear_velocity_enu_m_s : Triple
  pub angular_velocity_flu_rad_s : Triple
  pub flags : OdometryFlags
  pub status : OdometryStatus

-- All bytes 0. Which status has the value 0, the header of the topic says.
abbrev pub zeroed_odometry : OdometryStatus → Odometry
zeroed_odometry status = record {
  timestamp_us = 0;
  position_enu_m = record { x = 0; y = 0; z = 0 };
  attitude = record { w = 0; x = 0; y = 0; z = 0 };
  linear_velocity_enu_m_s = record { x = 0; y = 0; z = 0 };
  angular_velocity_flu_rad_s = record { x = 0; y = 0; z = 0 };
  flags = record {
    position_valid = false;
    attitude_valid = false;
    linear_velocity_valid = false;
    angular_velocity_valid = false;
    outlier_rejected = false;
    lost = false;
  };
  status = status;
}

abbrev pub status_ok : OdometryStatus → Bool
status_ok OdometryStatus.status_lost = false
status_ok OdometryStatus.status_outlier_rejected = false
status_ok OdometryStatus.status_other = true

-- All required bits, none of the rejecting ones, and a status that is neither of the two.
unfoldable pub odometry_valid : Odometry → Bool
odometry_valid odom =
    odom.flags.position_valid
    && odom.flags.attitude_valid
    && odom.flags.linear_velocity_valid
    && odom.flags.angular_velocity_valid
    && not (odom.flags.outlier_rejected || odom.flags.lost)
    && status_ok odom.status

-- `a[0] = x; a[1] = y; a[2] = z;` of a member that is an array of doubles, from floats.
abbrev pub assign_triple : (String → ℕ → Double) → String → Triple → String → ℕ → Double
assign_triple vectors member t =
    assign vectors member
      (update (update (update (vectors member) 0 (widen t.x)) 1 (widen t.y)) 2 (widen t.z))

unfoldable pub fixed_wing_map_input : Csyn → OuterLoopState → Odometry → OuterLoopState
fixed_wing_map_input csyn model odom =
    let euler = csyn.euler_from_quatf odom.attitude in
    let v₁ = assign_triple model.vector "position_m" odom.position_enu_m in
    let v₂ = assign_triple v₁ "euler_rad" euler in
    let v₃ = assign_triple v₂ "velocity_m_s" odom.linear_velocity_enu_m_s in
    record model { vector = assign_triple v₃ "eulerRate_rad_s" odom.angular_velocity_flu_rad_s }
