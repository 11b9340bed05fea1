-- ===== src/Realtime/Pose.antt =====
-- src/main_realtime.c:83-108, 210-277: the pose of the vehicle as the loop takes it from FastDyn's
-- odometry, the pilot's message, and the way of both into and out of the controller.
use cerebri_cubs.Prelude.{
  ℕ, zero, suc, Bool, true, false, not, ◌&&◌, ◌||◌, Option, none, some, ◌==◌, if◌then◌else◌,
}
use cerebri_cubs.OuterLoop.{OuterLoopState}
use cerebri_cubs.Csyn.{Triple, RcChannels, ManualControl, Csyn}
use cerebri_cubs.Odometry.{Odometry, status_ok, assign_triple}
use cerebri_cubs.Telemetry.{as_float, fixed_wing_map_output as sil_map_output}
use cerebri_cubs.Realtime.Mocap.{RigidBody}

-- The two builds of the file: without and with CUBS2_FASTDYN.
pub data Build : Type 0 where
  hardware fastdyn : Build

-- The required bits are fewer than in the SIL loop: only the pose is used.
unfoldable pub odometry_valid : Odometry → Bool
odometry_valid odom =
    odom.flags.position_valid
    && odom.flags.attitude_valid
    && not (odom.flags.outlier_rejected || odom.flags.lost)
    && status_ok odom.status

unfoldable pub read_fastdyn_odometry : Odometry → RigidBody
unfolding odometry_valid
read_fastdyn_odometry odom = record {
  x = odom.position_enu_m.x;
  y = odom.position_enu_m.y;
  z = odom.position_enu_m.z;
  qw = odom.attitude.w;
  qx = odom.attitude.x;
  qy = odom.attitude.y;
  qz = odom.attitude.z;
  valid = odometry_valid odom;
}

-- `manual` and `manual_generation` of `struct control_context`.
pub record ManualState : Type 0 where
  pub manual : ManualControl
  pub generation : ℕ

-- What the topic answers under CSYN_ZROS_BRIDGE: its generation, and its message if it can be read.
-- Without the bridge there is no topic.
pub record ManualTopic : Type 0 where
  pub generation : ℕ
  pub read : Option ManualControl

abbrev take_manual : ManualState → ℕ → Option ManualControl → ManualState × Bool
take_manual m generation none = (m, false)
take_manual m generation (some manual) = (record { manual = manual; generation = generation }, true)

unfoldable pub read_manual_if_updated : ManualState → Option ManualTopic → ManualState × Bool
read_manual_if_updated m none = (m, false)
read_manual_if_updated m (some topic) =
    if topic.generation == 0 || topic.generation == m.generation
    then (m, false)
    else take_manual m topic.generation topic.read

-- The angles are 0 if the pose is not valid.
abbrev pub euler_of : Csyn → RigidBody → Triple
euler_of csyn body =
    if body.valid
    then (let e =
          csyn.euler_from_quatf (record { w = body.qw; x = body.qx; y = body.qy; z = body.qz }) in
        record { x = e.x; y = csyn.negate e.y; z = e.z })
    else record { x = 0; y = 0; z = 0 }

unfoldable pub fixed_wing_map_input : Csyn → OuterLoopState → RigidBody → OuterLoopState
fixed_wing_map_input csyn model body =
    let position =
      assign_triple model.vector "position_m" (record { x = body.x; y = body.y; z = body.z }) in
    record model { vector = assign_triple position "euler_rad" (euler_of csyn body) }

-- FastDyn has the signs of the SIL loop. On the hardware aileron and elevator are not negated; the
-- other channels are the same.
unfoldable pub fixed_wing_map_output : Build → Csyn → OuterLoopState → RcChannels
fixed_wing_map_output fastdyn csyn model i = sil_map_output csyn model i
fixed_wing_map_output hardware csyn model zero =
    csyn.pwm_from_centered_axis (as_float csyn model "aileron")
fixed_wing_map_output hardware csyn model (suc zero) =
    csyn.pwm_from_centered_axis (as_float csyn model "elevator")
fixed_wing_map_output hardware csyn model (suc (suc i)) = sil_map_output csyn model (suc (suc i))
