-- ===== src/Sil/Estimator.antt =====
-- The number of controller steps behind the estimate (src/main_sil.c:367-373, 384-390, 233-251).
use cerebri_cubs.Prelude.{false, ℕ, ◌<◌, ◌≤◌, ◌^◌, ◌+◌, ◌≡◌, Bool, true, arith}
use cerebri_cubs.OuterLoop.{OuterLoopState}
use cerebri_cubs.Csyn.{Csyn}
use cerebri_cubs.Odometry.{odometry_valid}
use cerebri_cubs.Telemetry.{attitude_estimate_flags, EstimateFlags}
use cerebri_cubs.OuterLoop.{OuterLoopState}
use cerebri_cubs.Mode.{auto_mode_selected, Config}
use cerebri_cubs.Telemetry.{attitude_estimate_flags}
use cerebri_cubs.Sil.{Context, engage, control, advance}

module _ (csyn : Csyn) where
  -- If the count of steps is a 32-bit number, it stays one over a pass, which counts at most one
  -- step.
  pub steps_bounded :
      (config : Config) (ctx : Context csyn)
      → ctx.estimator_control_steps < 2 ^ 32
      → ((advance csyn config ctx).0.estimator_control_steps < 2 ^ 32)
        × ((advance csyn config ctx).0.estimator_control_steps ≤ ctx.estimator_control_steps + 1)
  unfolding advance control engage
  steps_bounded config ctx h = ground arith

  -- The estimate that a pass publishes from the context that the control code left.
  abbrev pub flags_after : Context csyn → EstimateFlags
  flags_after ctx =
      attitude_estimate_flags ctx.both.model ctx.estimator_control_steps
        (odometry_valid ctx.odometry)

  few_steps :
      (model : OuterLoopState) (steps : ℕ) (fresh : Bool)
      → steps ≤ 1
      → (attitude_estimate_flags model steps fresh).rates ≡ false
  unfolding attitude_estimate_flags
  few_steps model steps fresh h = ground arith

  engaged_steps :
      (config : Config) (ctx : Context csyn)
      → auto_mode_selected config ctx.manual ≡ true
      → ctx.previous_auto_mode ≡ false
      → (advance csyn config ctx).0.estimator_control_steps ≤ 1
  unfolding advance control engage
  engaged_steps config ctx auto before = ground arith

  -- In the pass in which the controller takes over from the pilot, and in the first one, the
  -- estimate is not said to have valid rates: they need two steps of the controller since then.
  pub engaged_rates_invalid :
      (config : Config) (ctx : Context csyn)
      → auto_mode_selected config ctx.manual ≡ true
      → ctx.previous_auto_mode ≡ false
      → (flags_after (advance csyn config ctx).0).rates ≡ false
  engaged_rates_invalid config ctx auto before =
      let after = (advance csyn config ctx).0 in
      few_steps after.both.model after.estimator_control_steps (odometry_valid after.odometry)
        (engaged_steps config ctx auto before)
