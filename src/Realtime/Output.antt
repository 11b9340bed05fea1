-- ===== src/Realtime/Output.antt =====
-- What a pass of src/main_realtime.c's loop makes of the controller and of the outputs (lines
-- 615-648).
use mathlib.Core.Path.{subst}
use cerebri_cubs.Prelude.{
  sym, ◌≡◌, inl, inr, refl, ap, ◌∙◌, Bool, true, false, ◌&&◌, Option, if◌then◌else◌, arith,
  Bool-cases,
}
use cerebri_cubs.Runtime.{Both, apply_staged}
use cerebri_cubs.Csyn.{ManualControl, Csyn}
use cerebri_cubs.Mode.{Config, idle_output, auto_mode_selected}
use cerebri_cubs.Mode.Selection.{PilotFlies, auto_mode_iff}
use cerebri_cubs.Realtime.Mocap.{MocapState}
use cerebri_cubs.Realtime.Pose.{
  Build, ManualState, ManualTopic, read_manual_if_updated, fixed_wing_map_output,
}
use cerebri_cubs.Realtime.Loop.{Context, controller_step, warm, select, advance}

module _ (csyn : Csyn) where
  -- The pilot's message that a pass goes by.
  abbrev pub manual_of : Context csyn → Option ManualTopic → ManualControl
  manual_of ctx topic = (read_manual_if_updated ctx.pilot topic).0.manual

  -- The state of the runtime control and the controller at the pass's cycle boundary.
  abbrev pub at_boundary : Context csyn → Both
  at_boundary ctx = apply_staged ctx.both

  -- What is put out: the pilot's channels while the pilot flies; else the controller's outputs with a
  -- valid pose, and idle outputs without.
  pub data PutsOut (build : Build) (config : Config) (manual : ManualControl) (c : Context csyn)
      : Type 0 where
    pilots : PilotFlies config manual → c.control_rc ≡ manual.rc → PutsOut build config manual c
    controls :
        auto_mode_selected config manual ≡ true
        → c.pose.mocap.valid ≡ true
        → c.control_rc ≡ fixed_wing_map_output build csyn c.both.model
        → PutsOut build config manual c
    idles :
        auto_mode_selected config manual ≡ true
        → c.pose.mocap.valid ≡ false
        → c.control_rc ≡ idle_output
        → PutsOut build config manual c

  -- What the selection of the outputs leaves alone.
  select_kept :
      (build : Build) (ctx : Context csyn) (auto_mode : Bool)
      → ((select csyn build ctx auto_mode).both ≡ ctx.both)
        × ((select csyn build ctx auto_mode).pose ≡ ctx.pose)
        × ((select csyn build ctx auto_mode).pilot ≡ ctx.pilot)
        × ((select csyn build ctx auto_mode).estimator_control_steps ≡ ctx.estimator_control_steps)
  unfolding select
  select_kept build ctx auto_mode = ground arith

  warm_kept :
      (ctx : Context csyn) (auto_mode step_control : Bool)
      → ((warm csyn ctx auto_mode step_control).pose ≡ ctx.pose)
        × ((warm csyn ctx auto_mode step_control).pilot ≡ ctx.pilot)
        × ((warm csyn ctx auto_mode step_control).both.runtime ≡ ctx.both.runtime)
  unfolding warm
  warm_kept ctx auto_mode step_control = ground arith

  select_pilots :
      (build : Build) (ctx : Context csyn)
      → (select csyn build ctx false).control_rc ≡ ctx.pilot.manual.rc
  unfolding select
  select_pilots build ctx = refl

  select_controls :
      (build : Build) (ctx : Context csyn)
      → ctx.pose.mocap.valid ≡ true
      → (select csyn build ctx true).control_rc ≡ fixed_wing_map_output build csyn ctx.both.model
  unfolding select
  select_controls build ctx h = simp h

  select_idles :
      (build : Build) (ctx : Context csyn)
      → ctx.pose.mocap.valid ≡ false
      → (select csyn build ctx true).control_rc ≡ idle_output
  unfolding select
  select_idles build ctx h = simp h

  -- The context before `warm`, and between `warm` and `select`.
  abbrev ready : Config → Context csyn → Option ManualTopic → Context csyn
  ready config ctx topic = record ctx {
    pilot = (read_manual_if_updated ctx.pilot topic).0;
    both = at_boundary ctx;
    previous_auto_mode = auto_mode_selected config (manual_of ctx topic);
  }

  abbrev warmed : Config → Context csyn → Option ManualTopic → Bool → Context csyn
  warmed config ctx topic step_control =
      warm csyn (ready config ctx topic) (auto_mode_selected config (manual_of ctx topic))
        step_control

  advance-select :
      (build : Build) (config : Config) (ctx : Context csyn) (topic : Option ManualTopic)
      (step_control : Bool)
      → (advance csyn build config ctx topic step_control).0
        ≡ select csyn build
            (warmed config ctx topic step_control)
            (auto_mode_selected config (manual_of ctx topic))
  unfolding advance
  advance-select build config ctx topic step_control = refl

  selected-PutsOut :
      (build : Build) (config : Config) (c : Context csyn)
      → PutsOut build config c.pilot.manual
          (select csyn build c (auto_mode_selected config c.pilot.manual))
  selected-PutsOut build config c = elim (Bool-cases (auto_mode_selected config c.pilot.manual)) [
    | inl auto ↦
        let kept = select_kept build c true in
        elim (Bool-cases c.pose.mocap.valid) [
          | inl ok ↦ rw auto (
              controls auto (ap (λ (m : MocapState). m.mocap.valid) kept.1 ∙ ok) (
                select_controls build c ok
                ∙ ap (λ (b : Both). fixed_wing_map_output build csyn b.model) (sym kept.0)))
          | inr bad ↦ rw auto (
              idles auto (ap (λ (m : MocapState). m.mocap.valid) kept.1 ∙ bad)
                (select_idles build c bad))
        ]
    | inr manual ↦
        rw manual (pilots ((auto_mode_iff config c.pilot.manual).0 manual) (select_pilots build c))
  ]

  -- In both builds of src/main_realtime.c a pass puts out one of three things: the pilot's own
  -- channels, while the pilot flies; in automatic mode, the outputs of the controller if the pose
  -- is valid, and the idle outputs if it is not.
  pub advance-PutsOut :
      (build : Build) (config : Config) (ctx : Context csyn) (topic : Option ManualTopic)
      (step_control : Bool)
      → PutsOut build config
          (manual_of ctx topic)
          (advance csyn build config ctx topic step_control).0
  advance-PutsOut build config ctx topic step_control =
      let auto_mode = auto_mode_selected config (manual_of ctx topic) in
      let c = warmed config ctx topic step_control in
      rw (advance-select build config ctx topic step_control) (
        subst
          (λ (p : ManualState).
            PutsOut build config p.manual
              (select csyn build c (auto_mode_selected config p.manual)))
          (warm_kept (ready config ctx topic) auto_mode step_control).1
          (selected-PutsOut build config c))

  -- The step of the controller.
  pub warm_model :
      (ctx : Context csyn) (auto_mode step_control : Bool)
      → (warm csyn ctx auto_mode step_control).both.model ≡ (
          if step_control && ctx.pose.mocap.valid
          then controller_step csyn ctx.both.model ctx.pose.mocap auto_mode
          else ctx.both.model)
  unfolding warm
  warm_model ctx auto_mode step_control = ground arith

  -- In both builds of src/main_realtime.c, with the pilot flying or not, the controller makes one
  -- step on the pose, from its state after the cycle boundary and with the mode as its input, if a
  -- step is due and the pose is valid; otherwise its state is the one after the cycle boundary.
  pub advance_model :
      (build : Build) (config : Config) (ctx : Context csyn) (topic : Option ManualTopic)
      (step_control : Bool)
      → (advance csyn build config ctx topic step_control).0.both.model ≡ (
          if step_control && ctx.pose.mocap.valid
          then controller_step csyn
              (at_boundary ctx).model
              ctx.pose.mocap
              (auto_mode_selected config (manual_of ctx topic))
          else (at_boundary ctx).model)
  advance_model build config ctx topic step_control =
      let auto_mode = auto_mode_selected config (manual_of ctx topic) in
      let c = warmed config ctx topic step_control in
      rw (advance-select build config ctx topic step_control) (
        ap (λ (b : Both). b.model) (select_kept build c auto_mode).0
        ∙ warm_model (ready config ctx topic) auto_mode step_control)

  -- A pass takes the staged updates and does nothing else to the runtime control.
  pub advance_runtime :
      (build : Build) (config : Config) (ctx : Context csyn) (topic : Option ManualTopic)
      (step_control : Bool)
      → (advance csyn build config ctx topic step_control).0.both.runtime
        ≡ (at_boundary ctx).runtime
  advance_runtime build config ctx topic step_control =
      let auto_mode = auto_mode_selected config (manual_of ctx topic) in
      let c = warmed config ctx topic step_control in
      rw (advance-select build config ctx topic step_control) (
        ap (λ (b : Both). b.runtime) (select_kept build c auto_mode).0
        ∙ (warm_kept (ready config ctx topic) auto_mode step_control).2)
