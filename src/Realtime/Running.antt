-- ===== src/Realtime/Running.antt =====
-- src/main_realtime.c's loop, in both builds, as a control loop that the runtime control runs in.
use mathlib.Core.Path.{subst}
use cerebri_cubs.Prelude.{◌≡◌, refl, ap, ◌∙◌, sym, Bool, true, false, Option, none, some, List}
use cerebri_cubs.Csyn.{Csyn}
use cerebri_cubs.Mode.{Config}
use cerebri_cubs.Flatcc.{Flatcc}
use cerebri_cubs.Runtime.{Both}
use cerebri_cubs.Runtime.Inv.{Inv}
use cerebri_cubs.Runtime.Start.{init_state-Inv}
use cerebri_cubs.Service.ParamSet.{DoublesFit}
use cerebri_cubs.Telemetry.{AttitudeCommand}
use cerebri_cubs.Program.{Bounds, directly, ControlLoop, Event, run, loop_run-Inv}
use cerebri_cubs.Lockstep.{Sequence, Link}
use cerebri_cubs.Sil.Start.{World}
use cerebri_cubs.Realtime.Pose.{Build}
use cerebri_cubs.Realtime.Telemetry.{Message}
use cerebri_cubs.Realtime.Loop.{Inputs, Context, Pass, exits, completes, advance, finish, pass}
use cerebri_cubs.Realtime.Output.{advance_runtime}
use cerebri_cubs.Realtime.Answer.{publish_outputs_both, finish_cases, pass_rule}
use cerebri_cubs.Realtime.Start.{start, loops, start_cases, first_context, first_model}

module _ (csyn : Csyn) (build : Build) (config : Config) where
  open csyn use {Pwm}

  abbrev pub left_by : Pass csyn → Option (Context csyn)
  left_by exits = none
  left_by (completes c sent reply) = some c

  finish-Bounds :
      (inputs : Inputs) (ctx c : Context csyn) (step_control : Bool) (sent : List (Message csyn))
      (reply : Option (Pwm × AttitudeCommand))
      → finish csyn build config inputs (ctx, step_control) ≡ completes c sent reply
      → Bounds ctx.both.runtime c.both.runtime
  finish-Bounds inputs ctx c step_control sent reply h =
      let advanced = advance csyn build config ctx inputs.manual step_control in
      let timed : Context csyn = record advanced.0 { main_loop_us = inputs.elapsed_us } in
      subst (λ (b : Both). Bounds ctx.both.runtime b.runtime)
        (sym (publish_outputs_both csyn build timed advanced.1 inputs.clock)
          ∙ ap (λ (d : Context csyn). d.both)
              (finish_cases csyn build config inputs ctx c step_control sent reply h).0)
        (rw (advance_runtime csyn build config ctx inputs.manual step_control)
          (directly ctx.both.model))

  completed-Bounds :
      (ctx d : Context csyn) (inputs : Inputs) (p : Pass csyn)
      → pass csyn build config ctx inputs ≡ p
      → left_by p ≡ some d
      → Bounds ctx.both.runtime d.both.runtime
  completed-Bounds ctx d inputs exits passes h = cc
  completed-Bounds ctx d inputs (completes c sent reply) passes h =
      let same : c ≡ d = cc in
      subst (λ (e : Context csyn). Bounds ctx.both.runtime e.both.runtime) same
        (pass_rule csyn (λ c' sent'. Bounds ctx.both.runtime c'.both.runtime) build config ctx c
          inputs sent reply
          (λ taken due taken_both time finished.
            subst (λ (b : Both). Bounds b.runtime c.both.runtime) taken_both
              (finish-Bounds inputs taken c due sent reply finished))
          passes)

  pub pass-Bounds :
      (ctx d : Context csyn) (inputs : Inputs)
      → left_by (pass csyn build config ctx inputs) ≡ some d
      → Bounds ctx.both.runtime d.both.runtime
  pass-Bounds ctx d inputs h =
      completed-Bounds ctx d inputs (pass csyn build config ctx inputs) refl h

  pub never_waits : {A : Type 0} → true ≡ false → A
  never_waits h = cc

  -- Every pass gets to the control code.
  abbrev pub realtime_loop : ControlLoop
  realtime_loop = record {
    Context = Context csyn;
    Inputs = Inputs;
    runtime = λ ctx. ctx.both.runtime;
    with_runtime = λ ctx r. record ctx { both = record ctx.both { runtime = r } };
    samples = λ inputs. true;
    pass = λ ctx inputs. left_by (pass csyn build config ctx inputs);
    runtime_set = λ ctx r. refl;
    bounds = λ ctx d inputs samples h. pass-Bounds ctx d inputs h;
    waits = λ ctx d inputs waits h. never_waits waits;
  }

  -- From the start of src/main_realtime.c on, on the hardware and under FastDyn, if it comes to its
  -- loop, and for any order of queries with any contents and passes with any inputs, if every
  -- double of a request is a 64-bit pattern: while the program has not ended, the invariant of the
  -- runtime control holds.
  pub realtime_program-Inv :
      (f : Flatcc) (q : Sequence csyn)
      → DoublesFit f
      → (world : World csyn q) (has_pose_topic : Bool) (ctx d : Context csyn)
        (link : Option (Link csyn q)) (events : List (Event f realtime_loop))
      → start csyn q build world has_pose_topic ≡ loops ctx link
      → run f realtime_loop ctx events ≡ some d
      → Inv d.both.runtime
  realtime_program-Inv f q fits world has_pose_topic ctx d link events starts runs =
      let first : first_context csyn q world ≡ ctx =
        (start_cases csyn q build world has_pose_topic ctx link starts).1 in
      let inv = init_state-Inv (first_model csyn q) in
      loop_run-Inv f realtime_loop fits ctx d events
        (subst (λ (c : Context csyn). Inv c.both.runtime) first inv.0) runs
