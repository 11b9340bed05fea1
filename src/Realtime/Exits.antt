-- ===== src/Realtime/Exits.antt =====
-- Why a pass of src/main_realtime.c's loop ends the program (lines 607-611 and 650-653).
use cerebri_cubs.Prelude.{
  ◌≡◌, ◌⊎◌, ◌↔◌, inl, inr, refl, Bool, true, ◌&&◌, Option, none, some, arith,
}
use cerebri_cubs.Csyn.{Csyn}
use cerebri_cubs.Mode.{Config}
use cerebri_cubs.Odometry.{Odometry}
use cerebri_cubs.Realtime.Pose.{Build, hardware, fastdyn}
use cerebri_cubs.Realtime.Loop.{
  Inputs, Context, exits, has_transport, take_pose, finish, pass_on, pass,
}

module _ (csyn : Csyn) where
  -- On the hardware nothing ends it.
  abbrev pub Fails : Build → Inputs → Option Odometry → Type 0
  Fails hardware inputs received = ⊥
  Fails fastdyn inputs received = (received ≡ none) ⊎ (inputs.send_fails ≡ true)

  finish_exits :
      (build : Build) (config : Config) (inputs : Inputs) (taken : Context csyn × Bool)
      → (finish csyn build config inputs taken ≡ exits)
        ↔ ((has_transport csyn build && inputs.send_fails) ≡ true)
  unfolding finish
  finish_exits build config inputs (ctx, step_control) = ground arith

  pass_on_exits :
      (config : Config) (ctx : Context csyn) (inputs : Inputs) (received : Option Odometry)
      → (pass_on csyn config ctx inputs received ≡ exits) ↔ Fails fastdyn inputs received
  unfolding pass_on
  pass_on_exits config ctx inputs none = ((λ h. inl refl), (λ f. refl))
  pass_on_exits config ctx inputs (some odom) =
      let ends = finish_exits fastdyn config inputs _ in
      ((λ h. inr (ends.0 h)), (λ f. ends.1 (elim f [ inl e ↦ cc | inr sends ↦ sends ])))

  -- A pass of src/main_realtime.c ends the program under FastDyn exactly if no sample can be
  -- received or the answer cannot be sent, and on the hardware never.
  pub realtime_exits :
      (build : Build) (config : Config) (ctx : Context csyn) (inputs : Inputs)
      → (pass csyn build config ctx inputs ≡ exits) ↔ Fails build inputs inputs.received
  unfolding pass
  realtime_exits hardware config ctx inputs =
      let ends =
        finish_exits hardware config inputs (take_pose csyn ctx inputs.pose inputs.clock.pose_ms) in
      ((λ h. cc (ends.0 h)), (λ f. absurd f))
  realtime_exits fastdyn config ctx inputs = pass_on_exits config ctx inputs inputs.received
