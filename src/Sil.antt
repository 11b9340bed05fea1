-- ===== src/Sil.antt =====
-- src/main_sil.c: the control loop on simulation time, one pass of `while (true)` as a function of what
-- the transport and the clock deliver. The file is built only under CUBS2_LOCKSTEP, on native_sim or
-- FastDyn; the branches that these exclude are left out.
pub mod Output
pub mod Outcome
pub mod Estimator
pub mod Answer
pub mod Start
pub mod Running
use cerebri_cubs.Prelude.{
  ℕ, ◌+◌, ◌-◌, ◌^◌, String, Bool, true, false, not, ◌&&◌, ◌||◌, Option, none, some, List, [], ◌∷◌,
  ltb, if◌then◌else◌,
}
use cerebri_cubs.Prelude.Int.{ℤ, pos}
use cerebri_cubs.Prelude.Update.{assign}
use cerebri_cubs.AtomicDouble.{Double}
use cerebri_cubs.OuterLoop.{OuterLoopState}
use cerebri_cubs.Runtime.{RuntimeControl, Both, apply_staged, restore}
use cerebri_cubs.Csyn.{RcChannels, ManualControl, Csyn}
use cerebri_cubs.Mode.{Config, idle_output, auto_mode_selected}
use cerebri_cubs.Odometry.{Odometry, odometry_valid, fixed_wing_map_input}
use cerebri_cubs.Telemetry.{
  VehicleHealth, AttitudeEstimate, AttitudeCommand, ControlLoopMetrics, fixed_wing_map_output,
  attitude_estimate_flags, vehicle_health, attitude_estimate, attitude_command,
  control_loop_metrics,
}
use cerebri_cubs.Pace.{control_step_due}

-- What the transport delivers: over the shared memory (`cubs2_lockstep_enabled()`) a sample or an error
-- of `cubs2_lockstep_receive`; otherwise a wait on the odometry topic that fails, that finds nothing
-- new, or that finds a sample.
pub data Received : Type 0 where
  lockstep_sample : Odometry → Received
  lockstep_error : Received
  wait_failed : Received
  not_updated : Received
  topic_sample : Odometry → Received

-- A new message of the pilot, if any; the duration of the pass; whether `cubs2_lockstep_send` fails.
pub record Inputs : Type 0 where
  pub received : Received
  pub manual : Option ManualControl
  pub elapsed_us : ℕ
  pub send_fails : Bool

module _ (csyn : Csyn) where
  open csyn use {Pwm, pwm_outputs_from_rc, efmi_init, efmi_recalibrate, efmi_step}

  -- `struct control_context`, with the controller and the runtime control in `both`. Its buffers of the
  -- messages that are published are the messages of the pass.
  pub record Context : Type 0 where
    pub both : Both
    pub odometry : Odometry
    pub manual : ManualControl
    pub control_rc : RcChannels
    pub pwm_outputs : Pwm
    pub main_loop_us : ℕ
    pub lockstep_time_us : ℕ
    pub next_control_time_us : ℕ
    pub estimator_control_steps : ℕ
    pub lockstep_time_valid : Bool
    pub previous_auto_mode : Bool

  -- The messages of a pass, in the order of their publication.
  pub data Message : Type 0 where
    pwm : Pwm → Message
    health : VehicleHealth → Message
    estimate : AttitudeEstimate → Message
    command : AttitudeCommand → Message
    metrics : ControlLoopMetrics → Message

  -- A pass ends the program with -EIO, goes round with `continue`, or runs to its end; then it has
  -- published, and answered over the shared memory if that is in use.
  pub data Pass : Type 0 where
    exits : Pass
    continues : Context → Pass
    completes : Context → List Message → Option (Pwm × AttitudeCommand) → Pass

  abbrev pub take_sample : Context → Odometry → Context
  take_sample ctx odom = record ctx {
    odometry = odom;
    lockstep_time_us = odom.timestamp_us;
    lockstep_time_valid = true;
  }

  abbrev pub read_manual : Context → Option ManualControl → Context
  read_manual ctx none = ctx
  read_manual ctx (some manual) = record ctx { manual = manual }

  -- On the way from the pilot's output to the controller's, the controller starts anew.
  unfoldable pub engage : Context → Bool → Context
  engage ctx auto_mode =
      if auto_mode && not ctx.previous_auto_mode
      then record ctx {
        both = restore (record ctx.both { model = efmi_recalibrate (efmi_init ctx.both.model) });
        estimator_control_steps = 0;
        previous_auto_mode = auto_mode;
      }
      else record ctx { previous_auto_mode = auto_mode }

  abbrev pub count_step : ℕ → ℕ
  count_step steps = if ltb steps (2 ^ 32 - 1) then steps + 1 else steps

  -- `model->engaged = 1.0` and one step of the generated controller.
  unfoldable pub controller_step : OuterLoopState → Odometry → OuterLoopState
  controller_step model odom =
      let mapped = fixed_wing_map_input csyn model odom in
      efmi_step (record mapped { scalar = assign mapped.scalar "engaged" 0x3ff0_0000_0000_0000 })

  -- src/main_sil.c:379-396
  unfoldable pub control : Context → (auto_mode step_due odometry_ok : Bool) → Context
  control ctx auto_mode step_due odometry_ok =
      if auto_mode
      then (if step_due && odometry_ok
          then (let model = controller_step ctx.both.model ctx.odometry in
              record ctx {
                both = record ctx.both { model = model };
                estimator_control_steps = count_step ctx.estimator_control_steps;
                control_rc = fixed_wing_map_output csyn model;
              })
          else if not odometry_ok
          then record ctx { estimator_control_steps = 0; control_rc = idle_output }
          else ctx)
      else record ctx { control_rc = ctx.manual.rc }

  abbrev pub control_timestamp_us : Context → ℕ
  control_timestamp_us ctx = if ctx.lockstep_time_valid then ctx.lockstep_time_us else 0

  -- The conversion of `uint64_t` to `int64_t` keeps a time below 2^63.
  abbrev pub outputs : Context → Pwm
  outputs ctx = pwm_outputs_from_rc ctx.control_rc ctx.pwm_outputs (pos (control_timestamp_us ctx))

  abbrev pub command_of : Context → AttitudeCommand
  command_of ctx = attitude_command csyn ctx.both.model (control_timestamp_us ctx)

  unfoldable pub messages : Context → Bool → List Message
  messages ctx auto_mode =
      let time = control_timestamp_us ctx in
      let odometry_ok = odometry_valid ctx.odometry in
      let model = ctx.both.model in
      let flags = attitude_estimate_flags model ctx.estimator_control_steps odometry_ok in
      pwm (outputs ctx)
      ∷ health (vehicle_health ctx.manual auto_mode (not odometry_ok) time)
      ∷ estimate (attitude_estimate csyn model flags time)
      ∷ command (command_of ctx)
      ∷ metrics (control_loop_metrics ctx.main_loop_us time)
      ∷ []

  -- From the mode's choice to the end of the control code; the mode is part of the result.
  unfoldable pub advance : Config → Context → Context × Bool
  advance config ctx =
      let auto_mode = auto_mode_selected config ctx.manual in
      let engaged = engage ctx auto_mode in
      let applied = record engaged { both = apply_staged engaged.both } in
      let due = control_step_due applied.lockstep_time_us applied.next_control_time_us in
      let paced = record applied { next_control_time_us = due.1 } in
      (control paced auto_mode due.0 (odometry_valid paced.odometry), auto_mode)

  unfoldable pub finish : Context → Bool → ℕ → Bool → Bool → Pass
  finish ctx auto_mode elapsed_us lockstep send_fails =
      let timed = record ctx { main_loop_us = elapsed_us } in
      let published = record timed { pwm_outputs = outputs timed } in
      if lockstep && send_fails
      then exits
      else completes published (messages timed auto_mode)
          (if lockstep then some (published.pwm_outputs, command_of timed) else none)

  unfoldable pub sampled : Config → Context → Inputs → Odometry → Bool → Pass
  sampled config ctx inputs odom lockstep =
      let result = advance config (read_manual (take_sample ctx odom) inputs.manual) in
      finish result.0 result.1 inputs.elapsed_us lockstep inputs.send_fails

  unfoldable pub pass_on : Config → Context → Inputs → Received → Pass
  pass_on config ctx inputs (lockstep_sample odom) = sampled config ctx inputs odom true
  pass_on config ctx inputs lockstep_error = exits
  pass_on config ctx inputs wait_failed = continues ctx
  pass_on config ctx inputs not_updated = continues ctx
  pass_on config ctx inputs (topic_sample odom) = sampled config ctx inputs odom false

  -- One pass of the loop.
  unfoldable pub pass : Config → Context → Inputs → Pass
  pass config ctx inputs = pass_on config ctx inputs inputs.received
