-- ===== src/Sil/Outcome.antt =====
-- What a pass of src/main_sil.c's loop makes of the controller and of the outputs, in every case (lines
-- 366-396).
use cerebri_cubs.Prelude.{
  ℕ, ◌<◌, ◌≤◌, ◌≡◌, refl, ap, ◌∙◌, Bool, true, false, arith, ltb, inl, inr, Bool-cases,
  if◌then◌else◌,
}
use cerebri_cubs.Csyn.{Csyn}
use cerebri_cubs.Mode.{Config, idle_output, auto_mode_selected}
use cerebri_cubs.Mode.Selection.{PilotFlies, auto_mode_iff}
use cerebri_cubs.Odometry.{odometry_valid}
use cerebri_cubs.Pace.{control_step_due}
use cerebri_cubs.Runtime.{Both, apply_staged, restore}
use cerebri_cubs.Telemetry.{fixed_wing_map_output}
use cerebri_cubs.Odometry.Usable.{IsUsable, odometry_valid_iff}
use cerebri_cubs.Sil.Output.{
  engage-SameInputs, advance-control, step_due, control_idle, control_step, pilot_output, prepared,
}
use cerebri_cubs.Sil.{Context, engage, control, controller_step, advance}

module _ (csyn : Csyn) where
  -- The state at the cycle boundary in automatic mode: the controller starts anew if the pilot flew the
  -- pass before.
  abbrev pub at_boundary : Context csyn → Both
  at_boundary ctx = apply_staged (
      if ctx.previous_auto_mode
      then ctx.both
      else restore
          (record ctx.both { model = csyn.efmi_recalibrate (csyn.efmi_init ctx.both.model) }))

  -- What the control code makes of the context `ctx`, in four cases: the pilot flies; the odometry is
  -- not usable; the step of the period is still to be made; it has been made.
  pub data Outcome (config : Config) (ctx c : Context csyn) : Type 0 where
    pilots :
        PilotFlies config ctx.manual
        → c.control_rc ≡ ctx.manual.rc
        → c.both ≡ apply_staged ctx.both
        → Outcome config ctx c
    idles :
        ¬ PilotFlies config ctx.manual
        → ¬ IsUsable ctx.odometry
        → c.control_rc ≡ idle_output
        → c.estimator_control_steps ≡ 0
        → c.both ≡ at_boundary ctx
        → Outcome config ctx c
    steps :
        ¬ PilotFlies config ctx.manual
        → IsUsable ctx.odometry
        → ctx.next_control_time_us ≤ ctx.lockstep_time_us
        → c.both.model ≡ controller_step csyn (at_boundary ctx).model ctx.odometry
        → c.both.runtime ≡ (at_boundary ctx).runtime
        → c.control_rc ≡ fixed_wing_map_output csyn c.both.model
        → Outcome config ctx c
    holds :
        ¬ PilotFlies config ctx.manual
        → IsUsable ctx.odometry
        → ctx.lockstep_time_us < ctx.next_control_time_us
        → c.control_rc ≡ ctx.control_rc
        → c.both ≡ at_boundary ctx
        → Outcome config ctx c

  engage_restarts :
      (ctx : Context csyn)
      → (engage csyn ctx true).both ≡ (
          if ctx.previous_auto_mode
          then ctx.both
          else restore
              (record ctx.both { model = csyn.efmi_recalibrate (csyn.efmi_init ctx.both.model) }))
  unfolding engage
  engage_restarts ctx = ground arith

  engage_auto : (ctx : Context csyn) → apply_staged (engage csyn ctx true).both ≡ at_boundary ctx
  engage_auto ctx = ap apply_staged (engage_restarts ctx)

  engage_manual : (ctx : Context csyn) → (engage csyn ctx false).both ≡ ctx.both
  unfolding engage
  engage_manual ctx = ground arith

  not_pilot :
      (config : Config) (ctx : Context csyn)
      → auto_mode_selected config ctx.manual ≡ true
      → ¬ PilotFlies config ctx.manual
  not_pilot config ctx auto p = cc ((auto_mode_iff config ctx.manual).1 p)

  control_manual_both :
      (c : Context csyn) (due ok : Bool) → (control csyn c false due ok).both ≡ c.both
  unfolding control
  control_manual_both c due ok = refl

  control_step_runtime :
      (c : Context csyn) → (control csyn c true true true).both.runtime ≡ c.both.runtime
  unfolding control
  control_step_runtime c = refl

  control_held :
      (c : Context csyn)
      → ((control csyn c true false true).control_rc ≡ c.control_rc)
        × ((control csyn c true false true).both ≡ c.both)
  unfolding control
  control_held c = (refl, refl)

  not_due : (time_us next_us : ℕ) → time_us < next_us → (control_step_due time_us next_us).0 ≡ false
  unfolding control_step_due
  not_due time_us next_us h = ground arith

  pilots-Outcome :
      (config : Config) (ctx : Context csyn)
      → auto_mode_selected config ctx.manual ≡ false
      → Outcome config ctx (advance csyn config ctx).0
  pilots-Outcome config ctx manual =
      let p = (auto_mode_iff config ctx.manual).0 manual in
      pilots p (pilot_output csyn config ctx p).0 (
        ap (λ (c : Context csyn). c.both) (advance-control csyn config ctx false manual)
        ∙ control_manual_both (prepared csyn false ctx) _ _
        ∙ ap apply_staged (engage_manual ctx))

  idles-Outcome :
      (config : Config) (ctx : Context csyn)
      → auto_mode_selected config ctx.manual ≡ true
      → odometry_valid ctx.odometry ≡ false
      → Outcome config ctx (advance csyn config ctx).0
  idles-Outcome config ctx auto bad =
      let idle =
        control_idle csyn (prepared csyn true ctx)
          (control_step_due ctx.lockstep_time_us ctx.next_control_time_us).0 in
      rw (advance-control csyn config ctx true auto, bad)
        (idles (not_pilot config ctx auto) (λ u. cc ((odometry_valid_iff ctx.odometry).1 u)) idle.0
          idle.1 (idle.2 ∙ engage_auto ctx))

  auto-Outcome :
      (config : Config) (ctx : Context csyn)
      → auto_mode_selected config ctx.manual ≡ true
      → odometry_valid ctx.odometry ≡ true
      → Outcome config ctx (advance csyn config ctx).0
  auto-Outcome config ctx auto ok =
      let usable = (odometry_valid_iff ctx.odometry).0 ok in
      let same = engage-SameInputs csyn ctx true in
      let c = prepared csyn true ctx in
      elim (Bool-cases (ltb ctx.lockstep_time_us ctx.next_control_time_us)) [
        | inl early ↦
            let before : ctx.lockstep_time_us < ctx.next_control_time_us = ground arith in
            let held = control_held c in
            rw
              (
                advance-control csyn config ctx true auto,
                not_due ctx.lockstep_time_us ctx.next_control_time_us before,
                ok,
              )
              (holds (not_pilot config ctx auto) usable before (held.0 ∙ same.held)
                (held.1 ∙ engage_auto ctx))
        | inr late ↦
            let due : ctx.next_control_time_us ≤ ctx.lockstep_time_us = ground arith in
            let step = control_step csyn c in
            rw
              (
                advance-control csyn config ctx true auto,
                step_due csyn ctx.lockstep_time_us ctx.next_control_time_us due,
                ok,
              )
              (steps (not_pilot config ctx auto) usable due
                (step.0
                  ∙ ap (λ (b : Both). controller_step csyn b.model c.odometry) (engage_auto ctx)
                  ∙ ap (controller_step csyn (at_boundary ctx).model) same.odometry)
                (control_step_runtime c ∙ ap (λ (b : Both). b.runtime) (engage_auto ctx))
                (step.1 ∙ simp step.0))
      ]

  -- The control code of a pass of src/main_sil.c does one of four things: while the pilot flies, it
  -- puts out the pilot's channels and leaves the controller at the cycle boundary; otherwise, with
  -- an odometry that is not usable, it puts out idle outputs, counts the estimator's steps from 0,
  -- and leaves the controller at the boundary; otherwise, if the next step is due at the sample, it
  -- makes one step on the odometry from the boundary and puts out what the stepped controller says;
  -- otherwise it holds the outputs and leaves the controller at the boundary. Outside pilot control
  -- the boundary comes after a restart of the controller if the pilot flew the pass before.
  pub advance-Outcome :
      (config : Config) (ctx : Context csyn) → Outcome config ctx (advance csyn config ctx).0
  advance-Outcome config ctx = elim (Bool-cases (auto_mode_selected config ctx.manual)) [
    | inl auto ↦ elim (Bool-cases (odometry_valid ctx.odometry)) [
      | inl ok ↦ auto-Outcome config ctx auto ok
      | inr bad ↦ idles-Outcome config ctx auto bad
    ]
    | inr manual ↦ pilots-Outcome config ctx manual
  ]
