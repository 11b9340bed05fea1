-- ===== src/Sil/Running.antt =====
-- src/main_sil.c's loop as a control loop that the runtime control runs in.
use cerebri_cubs.Prelude.{◌≡◌, refl, Bool, true, false, not, ◌&&◌, Option, some, List}
use mathlib.Core.Path.{subst}
use cerebri_cubs.Csyn.{Csyn}
use cerebri_cubs.Mode.{Config, auto_mode_selected}
use cerebri_cubs.Odometry.{Odometry}
use cerebri_cubs.Flatcc.{Flatcc}
use cerebri_cubs.Runtime.{Both, apply_staged}
use cerebri_cubs.Runtime.Inv.{Inv}
use cerebri_cubs.Service.ParamSet.{DoublesFit}
use cerebri_cubs.Program.{Bounds, directly, restarted, ControlLoop, Event, run, loop_run-Inv}
use cerebri_cubs.Sil.{
  Received, lockstep_sample, lockstep_error, wait_failed, not_updated, topic_sample, Inputs,
  Context, take_sample, read_manual, sampled, pass_on, pass,
}
use cerebri_cubs.OuterLoop.{zeroed_model}
use cerebri_cubs.Runtime.Start.{init_state-Inv}
use cerebri_cubs.Lockstep.{Build, Sequence, Link}
use cerebri_cubs.Sil.Start.{World, start, loops, start_cases, first_context}
use cerebri_cubs.Sil.Answer.{
  controlled, read_manual_time, engaged_runtime, engage_both, advance_runtime, left_by,
  left_by-finish,
}

abbrev pub has_sample : Received → Bool
has_sample (lockstep_sample odom) = true
has_sample lockstep_error = false
has_sample wait_failed = false
has_sample not_updated = false
has_sample (topic_sample odom) = true

module _ (csyn : Csyn) (config : Config) where
  engaged-Bounds :
      (anew : Bool) (b : Both)
      → Bounds b.runtime (apply_staged (engaged_runtime csyn anew b)).runtime
  unfolding engaged_runtime
  engaged-Bounds true b = restarted _
  engaged-Bounds false b = directly b.model

  controlled-Bounds :
      (ctx : Context csyn) (inputs : Inputs) (odom : Odometry)
      → Bounds ctx.both.runtime (controlled csyn config ctx inputs odom).0.both.runtime
  controlled-Bounds ctx inputs odom =
      let sample = take_sample csyn ctx odom in
      let read = read_manual csyn sample inputs.manual in
      let auto_mode = auto_mode_selected config read.manual in
      let anew = auto_mode && not read.previous_auto_mode in
      rw (advance_runtime csyn config read, engage_both csyn read auto_mode)
        (subst
          (λ (b : Both).
            Bounds b.runtime (apply_staged (engaged_runtime csyn anew read.both)).runtime)
          (read_manual_time csyn sample inputs.manual).2 (engaged-Bounds anew read.both))

  finished-Bounds :
      (ctx d : Context csyn) (inputs : Inputs) (odom : Odometry) (lockstep : Bool)
      → left_by csyn (sampled csyn config ctx inputs odom lockstep) ≡ some d
      → Bounds ctx.both.runtime d.both.runtime
  unfolding sampled
  finished-Bounds ctx d inputs odom lockstep h =
      subst (λ (b : Both). Bounds ctx.both.runtime b.runtime) (left_by-finish csyn _ d _ _ _ _ h)
        (controlled-Bounds ctx inputs odom)

  pass_on-Bounds :
      (ctx d : Context csyn) (inputs : Inputs) (received : Received)
      → has_sample received ≡ true
      → left_by csyn (pass_on csyn config ctx inputs received) ≡ some d
      → Bounds ctx.both.runtime d.both.runtime
  unfolding pass_on
  pass_on-Bounds ctx d inputs (lockstep_sample odom) has h =
      finished-Bounds ctx d inputs odom true h
  pass_on-Bounds ctx d inputs lockstep_error has h = cc
  pass_on-Bounds ctx d inputs wait_failed has h = cc
  pass_on-Bounds ctx d inputs not_updated has h = cc
  pass_on-Bounds ctx d inputs (topic_sample odom) has h = finished-Bounds ctx d inputs odom false h

  pass_on_waits :
      (ctx d : Context csyn) (inputs : Inputs) (received : Received)
      → has_sample received ≡ false
      → left_by csyn (pass_on csyn config ctx inputs received) ≡ some d
      → d.both.runtime ≡ ctx.both.runtime
  unfolding pass_on
  pass_on_waits ctx d inputs (lockstep_sample odom) waits h = cc
  pass_on_waits ctx d inputs lockstep_error waits h = cc
  pass_on_waits ctx d inputs wait_failed waits h = let same : ctx ≡ d = cc in rw same refl
  pass_on_waits ctx d inputs not_updated waits h = let same : ctx ≡ d = cc in rw same refl
  pass_on_waits ctx d inputs (topic_sample odom) waits h = cc

  pub pass-Bounds :
      (ctx d : Context csyn) (inputs : Inputs)
      → has_sample inputs.received ≡ true
      → left_by csyn (pass csyn config ctx inputs) ≡ some d
      → Bounds ctx.both.runtime d.both.runtime
  unfolding pass
  pass-Bounds ctx d inputs has h = pass_on-Bounds ctx d inputs inputs.received has h

  pub pass_waits :
      (ctx d : Context csyn) (inputs : Inputs)
      → has_sample inputs.received ≡ false
      → left_by csyn (pass csyn config ctx inputs) ≡ some d
      → d.both.runtime ≡ ctx.both.runtime
  unfolding pass
  pass_waits ctx d inputs waits h = pass_on_waits ctx d inputs inputs.received waits h

  abbrev pub sil_loop : ControlLoop
  sil_loop = record {
    Context = Context csyn;
    Inputs = Inputs;
    runtime = λ ctx. ctx.both.runtime;
    with_runtime = λ ctx r. record ctx { both = record ctx.both { runtime = r } };
    samples = λ inputs. has_sample inputs.received;
    pass = λ ctx inputs. left_by csyn (pass csyn config ctx inputs);
    runtime_set = λ ctx r. refl;
    bounds = pass-Bounds;
    waits = pass_waits;
  }

  -- From the start of src/main_sil.c on, if it comes to its loop, and for any order of queries with
  -- any contents and passes with any inputs, if every double of a request is a 64-bit pattern:
  -- while the program has not ended, the invariant of the runtime control holds.
  pub sil_program-Inv :
      (f : Flatcc) (q : Sequence csyn)
      → DoublesFit f
      → (build : Build) (world : World csyn q) (ctx d : Context csyn) (link : Option (Link csyn q))
        (events : List (Event f sil_loop))
      → start csyn q build world ≡ loops ctx link
      → run f sil_loop ctx events ≡ some d
      → Inv d.both.runtime
  sil_program-Inv f q fits build world ctx d link events starts runs =
      let first : first_context csyn q world ≡ ctx =
        (start_cases csyn q build world ctx link starts).1 in
      let inv = init_state-Inv (csyn.efmi_recalibrate (csyn.efmi_init zeroed_model)) in
      loop_run-Inv f sil_loop fits ctx d events
        (subst (λ (c : Context csyn). Inv c.both.runtime) first inv.0) runs
