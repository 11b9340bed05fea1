-- ===== src/Sil/Output.antt =====
-- What a pass of src/main_sil.c's loop puts out in each mode (lines 366-396).
use cerebri_cubs.Prelude.{ℕ, ◌<◌, ◌≤◌, ◌≡◌, refl, ap, ◌∙◌, Bool, true, false, arith}
use cerebri_cubs.Csyn.{ManualControl, Csyn}
use cerebri_cubs.Mode.{Config, idle_output, auto_mode_selected}
use cerebri_cubs.Mode.Selection.{PilotFlies, IsPwm, auto_mode_iff}
use cerebri_cubs.Odometry.{odometry_valid}
use cerebri_cubs.Pace.{control_step_due}
use cerebri_cubs.Runtime.{apply_staged}
use cerebri_cubs.Telemetry.{fixed_wing_map_output}
use cerebri_cubs.Sil.{Context, engage, control, controller_step, advance}

module _ (csyn : Csyn) where
  -- The context as `control` finds it.
  abbrev pub prepared : Bool → Context csyn → Context csyn
  prepared auto_mode ctx =
      let engaged = engage csyn ctx auto_mode in
      record engaged {
        both = apply_staged engaged.both;
        next_control_time_us =
            (control_step_due engaged.lockstep_time_us engaged.next_control_time_us).1;
      }

  -- What engaging leaves alone.
  pub record SameInputs (ctx c : Context csyn) : Type 0 where
    pub odometry : c.odometry ≡ ctx.odometry
    pub manual : c.manual ≡ ctx.manual
    pub time : c.lockstep_time_us ≡ ctx.lockstep_time_us
    pub next : c.next_control_time_us ≡ ctx.next_control_time_us
    pub held : c.control_rc ≡ ctx.control_rc

  pub engage-SameInputs :
      (ctx : Context csyn) (auto_mode : Bool) → SameInputs ctx (engage csyn ctx auto_mode)
  unfolding engage
  engage-SameInputs ctx auto_mode = ground arith

  pub advance-control :
      (config : Config) (ctx : Context csyn) (auto_mode : Bool)
      → auto_mode_selected config ctx.manual ≡ auto_mode
      → (advance csyn config ctx).0
        ≡ control csyn
            (prepared auto_mode ctx)
            auto_mode
            (control_step_due ctx.lockstep_time_us ctx.next_control_time_us).0
            (odometry_valid ctx.odometry)
  unfolding advance
  advance-control config ctx auto_mode h =
      let same = engage-SameInputs ctx auto_mode in simp (h, same.odometry, same.time, same.next)

  pub step_due :
      (time_us next_us : ℕ) → next_us ≤ time_us → (control_step_due time_us next_us).0 ≡ true
  unfolding control_step_due
  step_due time_us next_us h = ground arith

  control_manual :
      (c : Context csyn) (due ok : Bool) → (control csyn c false due ok).control_rc ≡ c.manual.rc
  unfolding control
  control_manual c due ok = refl

  pub control_idle :
      (c : Context csyn) (due : Bool)
      → ((control csyn c true due false).control_rc ≡ idle_output)
        × ((control csyn c true due false).estimator_control_steps ≡ 0)
        × ((control csyn c true due false).both ≡ c.both)
  unfolding control
  control_idle c due = ground arith

  pub control_step :
      (c : Context csyn)
      → ((control csyn c true true true).both.model ≡ controller_step csyn c.both.model c.odometry)
        × ((control csyn c true true true).control_rc
            ≡ fixed_wing_map_output csyn (controller_step csyn c.both.model c.odometry))
  unfolding control
  control_step c = (refl, refl)

  pub pilot_output :
      (config : Config) (ctx : Context csyn)
      → PilotFlies config ctx.manual
      → ((advance csyn config ctx).0.control_rc ≡ ctx.manual.rc)
        × ((i : ℕ) → i < 5 → IsPwm ((advance csyn config ctx).0.control_rc i))
  pilot_output config ctx p =
      let manual = (auto_mode_iff config ctx.manual).1 p in
      let rc : (advance csyn config ctx).0.control_rc ≡ ctx.manual.rc =
        ap (λ (c : Context csyn). c.control_rc) (advance-control config ctx false manual)
        ∙ control_manual (prepared false ctx) _ _
        ∙ ap (λ (m : ManualControl). m.rc) (engage-SameInputs ctx false).manual in
      (rc, λ i lt. rw rc (p.channels i lt))
