-- ===== src/Realtime/Telemetry.antt =====
-- src/main_realtime.c:179-208 and 491-557: the messages of a pass, and the two flag words, whose bits
-- are those of the SIL loop.
use cerebri_cubs.Prelude.{ℕ, Bool, not, ◌&&◌, ◌||◌, Option, none, some, List, [], ◌∷◌}
use cerebri_cubs.OuterLoop.{OuterLoopState}
use cerebri_cubs.Csyn.{ManualControl, Csyn}
use cerebri_cubs.Telemetry.{
  VehicleHealth, AttitudeEstimate, AttitudeCommand, ControlLoopMetrics, attitude_estimate_flags,
  vehicle_health, attitude_estimate, attitude_command, control_loop_metrics,
}
use cerebri_cubs.Realtime.Mission.{
  MissionProgress, LocalPosition, TrajectorySegment, MissionBroadcast, update_mission_telemetry,
}
use cerebri_cubs.Realtime.Navigation.{NavigationTarget, update_navigation_target}
use cerebri_cubs.Realtime.Mocap.{RigidBody}

module _ (csyn : Csyn) where
  open csyn use {Pwm}

  unfoldable pub model_stale_failsafe_active : OuterLoopState → Bool
  model_stale_failsafe_active model =
      model.airborne
      && csyn.less_double (model.scalar "attitudeParams_staleFailsafeTime")
          (csyn.multiply_double (csyn.double_of model.estimator_held_samples) (model.scalar "dt"))

  pub data Message : Type 0 where
    pwm : Pwm → Message
    health : VehicleHealth → Message
    estimate : AttitudeEstimate → Message
    command : AttitudeCommand → Message
    metrics : ControlLoopMetrics → Message
    navigation : NavigationTarget → Message
    progress : MissionProgress → Message
    position : LocalPosition → Message
    segment : TrajectorySegment → Message

  -- What `update_telemetry` reads beside the controller's state. `fresh` is `measurement_fresh` of
  -- `attitude_estimate_flags`.
  pub record Readings : Type 0 where
    pub manual : ManualControl
    pub body : RigidBody
    pub auto_mode : Bool
    pub fresh : Bool
    pub steps : ℕ
    pub main_loop_us : ℕ

  abbrev pub segment_message : Option TrajectorySegment → List Message
  segment_message none = []
  segment_message (some s) = segment s ∷ []

  -- The mission's messages come last, and the broadcast moves on.
  unfoldable pub update_telemetry :
      OuterLoopState → Readings → ℕ → MissionBroadcast → List Message × MissionBroadcast
  unfolding model_stale_failsafe_active
  update_telemetry model r now_us b =
      let failed = not r.body.valid || model_stale_failsafe_active model in
      let flags = attitude_estimate_flags model r.steps r.fresh in
      let mission = update_mission_telemetry csyn model r.auto_mode r.body.valid now_us b in
      (
        health (vehicle_health r.manual r.auto_mode failed now_us)
            ∷ estimate (attitude_estimate csyn model flags now_us)
            ∷ command (attitude_command csyn model now_us)
            ∷ metrics (control_loop_metrics r.main_loop_us now_us)
            ∷ navigation (update_navigation_target csyn model r.body r.auto_mode now_us)
            ∷ progress mission.progress
            ∷ position mission.command
            ∷ segment_message mission.segment,
        mission.next,
      )
