-- ===== src/Realtime/Loop.antt =====
-- src/main_realtime.c:39-64 and 546-663: one pass of `while (true)` as a function of what the topics,
-- the clock and the transport deliver, in both builds. The sleep at its end is in Schedule.
use cerebri_cubs.Prelude.{
  ℕ, ◌*◌, Bool, true, false, not, ◌&&◌, Option, none, some, List, ◌∷◌, if◌then◌else◌,
}
use cerebri_cubs.Prelude.Int.{pos}
use cerebri_cubs.Prelude.Update.{assign}
use cerebri_cubs.OuterLoop.{OuterLoopState}
use cerebri_cubs.Runtime.{Both, apply_staged}
use cerebri_cubs.Csyn.{RcChannels, Csyn}
use cerebri_cubs.Mode.{Config, idle_output, auto_mode_selected}
use cerebri_cubs.Odometry.{Odometry}
use cerebri_cubs.Pace.{u64, control_step_due}
use cerebri_cubs.Telemetry.{AttitudeCommand, attitude_command}
use cerebri_cubs.Sil.{count_step}
use cerebri_cubs.Realtime.Mission.{MissionBroadcast}
use cerebri_cubs.Realtime.Mocap.{
  RigidBody, MocapState, PoseTopic, read_mocap_if_updated, mocap_measurement_fresh,
}
use cerebri_cubs.Realtime.Pose.{
  Build, hardware, fastdyn, read_fastdyn_odometry, ManualState, ManualTopic, read_manual_if_updated,
  fixed_wing_map_input, fixed_wing_map_output,
}
use cerebri_cubs.Realtime.Telemetry.{Message, pwm, Readings, update_telemetry}

-- The readings of `k_uptime_get` of a pass, in milliseconds: on a new pose, for the time of the
-- outputs, and for the age of the pose.
pub record Clock : Type 0 where
  pub pose_ms : ℕ
  pub outputs_ms : ℕ
  pub age_ms : ℕ

-- `received` is the sample of `cubs2_lockstep_receive` under FastDyn, if it succeeds; the pose's topic
-- is read on the hardware.
pub record Inputs : Type 0 where
  pub received : Option Odometry
  pub pose : PoseTopic
  pub manual : Option ManualTopic
  pub clock : Clock
  pub elapsed_us : ℕ
  pub send_fails : Bool

module _ (csyn : Csyn) where
  open csyn use {Pwm, pwm_outputs_from_rc, efmi_step}

  -- `struct control_context`, with the controller and the runtime control in `both`. Its buffers of the
  -- messages that are published are the messages of the pass. The hardware's build has no `odometry`
  -- and no `next_control_time_us`, and keeps what they hold here.
  pub record Context : Type 0 where
    pub both : Both
    pub pose : MocapState
    pub odometry : Odometry
    pub next_control_time_us : ℕ
    pub pilot : ManualState
    pub control_rc : RcChannels
    pub pwm_outputs : Pwm
    pub mission : MissionBroadcast
    pub estimator_control_steps : ℕ
    pub main_loop_us : ℕ
    pub previous_auto_mode : Bool

  pub data Pass : Type 0 where
    exits : Pass
    completes : Context → List (Message csyn) → Option (Pwm × AttitudeCommand) → Pass

  -- A sample of the plant: the pose, and whether a step is due.
  abbrev pub take_sample : Context → Odometry → Context × Bool
  take_sample ctx odom =
      let due = control_step_due odom.timestamp_us ctx.next_control_time_us in
      (
        record ctx {
          odometry = odom;
          pose = record ctx.pose { mocap = read_fastdyn_odometry odom };
          next_control_time_us = due.1;
        },
        due.0,
      )

  abbrev pub take_pose : Context → PoseTopic → ℕ → Context × Bool
  take_pose ctx topic pose_ms =
      (record ctx { pose = (read_mocap_if_updated csyn ctx.pose topic (pos pose_ms)).0 }, true)

  -- 1.0 and 0.0
  abbrev pub engaged_value : Bool → ℕ
  engaged_value auto_mode = if auto_mode then 0x3ff0_0000_0000_0000 else 0

  unfoldable pub controller_step : OuterLoopState → RigidBody → Bool → OuterLoopState
  controller_step model body auto_mode =
      let mapped = fixed_wing_map_input csyn model body in
      efmi_step
        (record mapped { scalar = assign mapped.scalar "engaged" (engaged_value auto_mode) })

  -- src/main_realtime.c:628-637
  unfoldable pub warm : Context → (auto_mode step_control : Bool) → Context
  warm ctx auto_mode step_control =
      if step_control && ctx.pose.mocap.valid
      then record ctx {
        both = record ctx.both { model = controller_step ctx.both.model ctx.pose.mocap auto_mode };
        estimator_control_steps = count_step csyn ctx.estimator_control_steps;
      }
      else if not ctx.pose.mocap.valid
      then record ctx { estimator_control_steps = 0 }
      else ctx

  -- src/main_realtime.c:639-648
  unfoldable pub select : Build → Context → Bool → Context
  select build ctx auto_mode =
      if auto_mode
      then (if ctx.pose.mocap.valid
          then record ctx { control_rc = fixed_wing_map_output build csyn ctx.both.model }
          else record ctx { control_rc = idle_output })
      else record ctx { control_rc = ctx.pilot.manual.rc }

  -- From the pilot's message to the end of the control code; the mode is part of the result.
  unfoldable pub advance : Build → Config → Context → Option ManualTopic → Bool → Context × Bool
  unfolding warm select
  advance build config ctx topic step_control =
      let read = record ctx { pilot = (read_manual_if_updated ctx.pilot topic).0 } in
      let auto_mode = auto_mode_selected config read.pilot.manual in
      let applied = record read { both = apply_staged read.both; previous_auto_mode = auto_mode } in
      (select build (warm applied auto_mode step_control) auto_mode, auto_mode)

  unfoldable pub measurement_fresh : Build → Context → ℕ → Bool
  measurement_fresh hardware ctx age_ms = mocap_measurement_fresh ctx.pose (pos age_ms)
  measurement_fresh fastdyn ctx age_ms = ctx.pose.mocap.valid

  abbrev pub now_us : Build → Context → Clock → ℕ
  now_us hardware ctx clock = u64 (clock.outputs_ms * 1000)
  now_us fastdyn ctx clock = ctx.odometry.timestamp_us

  -- A time below 2^63 is kept by its conversion to `int64_t`.
  abbrev pub outputs : Build → Context → Clock → Pwm
  outputs build ctx clock =
      pwm_outputs_from_rc ctx.control_rc ctx.pwm_outputs (pos (now_us build ctx clock))

  abbrev pub readings : Build → Context → Bool → Clock → Readings csyn
  readings build ctx auto_mode clock = record {
    manual = ctx.pilot.manual;
    body = ctx.pose.mocap;
    auto_mode = auto_mode;
    fresh = measurement_fresh build ctx clock.age_ms;
    steps = ctx.estimator_control_steps;
    main_loop_us = ctx.main_loop_us;
  }

  -- The outputs come first.
  unfoldable pub publish_outputs : Build → Context → Bool → Clock → Context × List (Message csyn)
  publish_outputs build ctx auto_mode clock =
      let sent = outputs build ctx clock in
      let telemetry =
        update_telemetry csyn ctx.both.model (readings build ctx auto_mode clock)
          (now_us build ctx clock) ctx.mission in
      (record ctx { pwm_outputs = sent; mission = telemetry.1 }, pwm sent ∷ telemetry.0)

  -- `cubs2_lockstep_send` takes the outputs and the command.
  abbrev pub answer : Build → Context → Clock → Option (Pwm × AttitudeCommand)
  answer hardware ctx clock = none
  answer fastdyn ctx clock =
      some (ctx.pwm_outputs, attitude_command csyn ctx.both.model ctx.odometry.timestamp_us)

  abbrev pub has_transport : Build → Bool
  has_transport hardware = false
  has_transport fastdyn = true

  unfoldable pub finish : Build → Config → Inputs → Context × Bool → Pass
  finish build config inputs (ctx, step_control) =
      let result = advance build config ctx inputs.manual step_control in
      let timed = record result.0 { main_loop_us = inputs.elapsed_us } in
      let published = publish_outputs build timed result.1 inputs.clock in
      if has_transport build && inputs.send_fails
      then exits
      else completes published.0 published.1 (answer build published.0 inputs.clock)

  unfoldable pub pass_on : Config → Context → Inputs → Option Odometry → Pass
  unfolding finish
  pass_on config ctx inputs none = exits
  pass_on config ctx inputs (some odom) = finish fastdyn config inputs (take_sample ctx odom)

  -- One pass of the loop.
  unfoldable pub pass : Build → Config → Context → Inputs → Pass
  unfolding finish pass_on
  pass hardware config ctx inputs =
      finish hardware config inputs (take_pose ctx inputs.pose inputs.clock.pose_ms)
  pass fastdyn config ctx inputs = pass_on config ctx inputs inputs.received
