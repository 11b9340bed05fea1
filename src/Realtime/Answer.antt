-- ===== src/Realtime/Answer.antt =====
-- A whole pass of src/main_realtime.c's loop, in both builds: its messages, its answer, and the state
-- that the next pass finds (lines 546-557 and 600-663).
use mathlib.Core.Path.{subst, subst₂}
use cerebri_cubs.Prelude.{
  Option-cases, ℕ, ◌*◌, ◌≡◌, inl, inr, refl, sym, ap, ◌∙◌, Bool, Option, none, some, List, [], ◌∷◌,
  arith,
}
use cerebri_cubs.Prelude.Int.{pos}
use cerebri_cubs.OuterLoop.{OuterLoopState}
use cerebri_cubs.Csyn.{RcChannels, Csyn}
use cerebri_cubs.Mode.{Config}
use cerebri_cubs.Odometry.{Odometry}
use cerebri_cubs.Pace.{u64}
use cerebri_cubs.Runtime.{Both}
use cerebri_cubs.Runtime.Inv.{Inv}
use cerebri_cubs.Runtime.Boundary.{apply_staged-Inv}
use cerebri_cubs.Telemetry.{AttitudeCommand, vehicle_health, attitude_estimate, attitude_command}
use cerebri_cubs.Realtime.Mission.{MissionBroadcast, broadcast, update_mission_telemetry}
use cerebri_cubs.Realtime.Navigation.{update_navigation_target}
use cerebri_cubs.Realtime.Pose.{Build, hardware, fastdyn, ManualTopic}
use cerebri_cubs.Realtime.Telemetry.{
  Message, pwm, health, estimate, command, metrics, navigation, progress, position, segment,
  Readings, segment_message, update_telemetry,
}
use cerebri_cubs.Realtime.Loop.{
  Clock, Inputs, Context, completes, take_sample, take_pose, warm, select, advance, now_us,
  publish_outputs, finish, pass_on, pass,
}
use cerebri_cubs.Realtime.Output.{advance_runtime}

module _ (csyn : Csyn) where
  open csyn use {Pwm, pwm_outputs_from_rc}

  -- The message carries the time; of the outputs the codec is given it.
  abbrev pub IsStamped : ℕ → Message csyn → Type 0
  IsStamped time (pwm w) =
      (rc : RcChannels) × (old : Pwm) × (w ≡ pwm_outputs_from_rc rc old (pos time))
  IsStamped time (health m) = m.timestamp_us ≡ time
  IsStamped time (estimate m) = m.timestamp_us ≡ time
  IsStamped time (command m) = m.timestamp_us ≡ time
  IsStamped time (metrics m) = m.timestamp_us ≡ time
  IsStamped time (navigation m) = m.timestamp_us ≡ time
  IsStamped time (progress m) = m.timestamp_us ≡ time
  IsStamped time (position m) = m.timestamp_us ≡ time
  IsStamped time (segment m) = m.timestamp_us ≡ time

  abbrev pub AllStamped : ℕ → List (Message csyn) → Type 0
  AllStamped time [] = Unit
  AllStamped time (m ∷ rest) = IsStamped time m × AllStamped time rest

  broadcast-AllStamped :
      (model : OuterLoopState) (time : ℕ) (b : MissionBroadcast)
      → AllStamped time (segment_message csyn (broadcast csyn model time b).0)
  unfolding broadcast
  broadcast-AllStamped model time b = ground arith

  update_telemetry-AllStamped :
      (model : OuterLoopState) (r : Readings csyn) (time : ℕ) (b : MissionBroadcast)
      → AllStamped time (update_telemetry csyn model r time b).0
  unfolding update_telemetry update_mission_telemetry update_navigation_target vehicle_health
      attitude_estimate attitude_command
  update_telemetry-AllStamped model r time b =
      (refl, (refl, (refl, (refl, (refl, (refl, (refl, broadcast-AllStamped model time b)))))))

  publish_outputs-AllStamped :
      (build : Build) (ctx : Context csyn) (auto_mode : Bool) (clock : Clock)
      → AllStamped (now_us csyn build ctx clock) (publish_outputs csyn build ctx auto_mode clock).1
  unfolding publish_outputs
  publish_outputs-AllStamped build ctx auto_mode clock =
      ((ctx.control_rc, ctx.pwm_outputs, refl), update_telemetry-AllStamped _ _ _ _)

  -- The time of a pass: the clock's in microseconds, or the sample's.
  abbrev pub sample_time : Option Odometry → Option ℕ
  sample_time none = none
  sample_time (some odom) = some odom.timestamp_us

  abbrev pub time_of : Build → Inputs → Option ℕ
  time_of hardware inputs = some (u64 (inputs.clock.outputs_ms * 1000))
  time_of fastdyn inputs = sample_time inputs.received

  advance_odometry :
      (build : Build) (config : Config) (ctx : Context csyn) (topic : Option ManualTopic)
      (step_control : Bool)
      → (advance csyn build config ctx topic step_control).0.odometry ≡ ctx.odometry
  unfolding advance warm select
  advance_odometry build config ctx topic step_control = ground arith

  -- The context and the messages at the end of a pass that took its pose as `ctx`.
  abbrev pub published :
      Build → Config → Inputs → Context csyn → Bool → Context csyn × List (Message csyn)
  published build config inputs ctx step_control =
      let result = advance csyn build config ctx inputs.manual step_control in
      publish_outputs csyn build (record result.0 { main_loop_us = inputs.elapsed_us }) result.1
        inputs.clock

  pub finish_cases :
      (build : Build) (config : Config) (inputs : Inputs) (ctx c : Context csyn)
      (step_control : Bool) (sent : List (Message csyn)) (reply : Option (Pwm × AttitudeCommand))
      → finish csyn build config inputs (ctx, step_control) ≡ completes c sent reply
      → ((published build config inputs ctx step_control).0 ≡ c)
        × ((published build config inputs ctx step_control).1 ≡ sent)
  unfolding finish
  finish_cases build config inputs ctx c step_control sent reply h = ground arith

  now_us_kept :
      (build : Build) (c ctx : Context csyn) (clock : Clock)
      → c.odometry ≡ ctx.odometry
      → now_us csyn build c clock ≡ now_us csyn build ctx clock
  now_us_kept hardware c ctx clock h = refl
  now_us_kept fastdyn c ctx clock h = ap (λ (odom : Odometry). odom.timestamp_us) h

  pub finish-AllStamped :
      (build : Build) (config : Config) (inputs : Inputs) (ctx c : Context csyn)
      (step_control : Bool) (sent : List (Message csyn)) (reply : Option (Pwm × AttitudeCommand))
      → finish csyn build config inputs (ctx, step_control) ≡ completes c sent reply
      → AllStamped (now_us csyn build ctx inputs.clock) sent
  finish-AllStamped build config inputs ctx c step_control sent reply h =
      let advanced = advance csyn build config ctx inputs.manual step_control in
      let timed : Context csyn = record advanced.0 { main_loop_us = inputs.elapsed_us } in
      let time =
        now_us_kept build timed ctx inputs.clock
          (advance_odometry build config ctx inputs.manual step_control) in
      subst₂ AllStamped time (finish_cases build config inputs ctx c step_control sent reply h).1
        (publish_outputs-AllStamped build timed advanced.1 inputs.clock)

  pub publish_outputs_both :
      (build : Build) (ctx : Context csyn) (auto_mode : Bool) (clock : Clock)
      → (publish_outputs csyn build ctx auto_mode clock).0.both ≡ ctx.both
  unfolding publish_outputs
  publish_outputs_both build ctx auto_mode clock = refl

  finish-Inv :
      (build : Build) (config : Config) (inputs : Inputs) (ctx c : Context csyn)
      (step_control : Bool) (sent : List (Message csyn)) (reply : Option (Pwm × AttitudeCommand))
      → Inv ctx.both.runtime
      → finish csyn build config inputs (ctx, step_control) ≡ completes c sent reply
      → Inv c.both.runtime
  finish-Inv build config inputs ctx c step_control sent reply inv h =
      let advanced = advance csyn build config ctx inputs.manual step_control in
      let timed : Context csyn = record advanced.0 { main_loop_us = inputs.elapsed_us } in
      subst (λ (b : Both). Inv b.runtime)
        (sym (publish_outputs_both build timed advanced.1 inputs.clock)
          ∙ ap (λ (d : Context csyn). d.both)
              (finish_cases build config inputs ctx c step_control sent reply h).0)
        (rw (advance_runtime csyn build config ctx inputs.manual step_control)
          (apply_staged-Inv ctx.both inv))

  -- What holds of every pass that is finished, from the pose on, holds of every pass.
  pub pass_rule :
      (P : Context csyn → List (Message csyn) → Type 0) (build : Build) (config : Config)
      (ctx c : Context csyn) (inputs : Inputs) (sent : List (Message csyn))
      (reply : Option (Pwm × AttitudeCommand))
      → ((taken : Context csyn) (step_control : Bool)
          → taken.both ≡ ctx.both
          → time_of build inputs ≡ some (now_us csyn build taken inputs.clock)
          → finish csyn build config inputs (taken, step_control) ≡ completes c sent reply
          → P c sent)
      → pass csyn build config ctx inputs ≡ completes c sent reply
      → P c sent
  unfolding pass pass_on
  pass_rule P hardware config ctx c inputs sent reply finished h =
      let taken = take_pose csyn ctx inputs.pose inputs.clock.pose_ms in
      finished taken.0 taken.1 refl refl h
  pass_rule P fastdyn config ctx c inputs sent reply finished h =
      elim (Option-cases inputs.received) [
        | inl none_received ↦ cc (rw none_received at h)
        | inr (odom, received) ↦
            let taken = take_sample csyn ctx odom in
            finished taken.0 taken.1 refl (ap sample_time received) (rw received at h)
      ]

  -- All messages of a pass of src/main_realtime.c that completes carry one time: on the hardware
  -- the clock's reading in microseconds, under FastDyn the time of the plant's sample.
  pub pass-AllStamped :
      (build : Build) (config : Config) (ctx c : Context csyn) (inputs : Inputs)
      (sent : List (Message csyn)) (reply : Option (Pwm × AttitudeCommand))
      → pass csyn build config ctx inputs ≡ completes c sent reply
      → (time : ℕ) × (time_of build inputs ≡ some time) × AllStamped time sent
  pass-AllStamped build config ctx c inputs sent reply =
      pass_rule
        (λ c' sent'. (time : ℕ) × (time_of build inputs ≡ some time) × AllStamped time sent') build
        config ctx c inputs sent reply
        (λ taken due same time h. (
          now_us csyn build taken inputs.clock,
          time,
          finish-AllStamped build config inputs taken c due sent reply h,
        ))

  pub realtime_pass-Inv :
      (build : Build) (config : Config) (ctx c : Context csyn) (inputs : Inputs)
      (sent : List (Message csyn)) (reply : Option (Pwm × AttitudeCommand))
      → Inv ctx.both.runtime
      → pass csyn build config ctx inputs ≡ completes c sent reply
      → Inv c.both.runtime
  realtime_pass-Inv build config ctx c inputs sent reply inv =
      pass_rule (λ c' sent'. Inv c'.both.runtime) build config ctx c inputs sent reply
        (λ taken due same time h.
          finish-Inv build config inputs taken c due sent reply
            (subst (λ (b : Both). Inv b.runtime) (sym same) inv) h)
