-- ===== src/Tests/Programs.antt =====
-- The programs from their start on (src/main_sil.c and src/main_realtime.c): a query, and a pass.
use cerebri_cubs.Prelude.{◌≡◌, ◌↔◌, refl, ap, true, false, Option, none, some, List, [], ◌∷◌}
use cerebri_cubs.Prelude.Int.{pos}
use cerebri_cubs.Flatcc.{accepted}
use cerebri_cubs.Reply.{build_param_get_reply}
use cerebri_cubs.Params.{find_value}
use cerebri_cubs.Runtime.Inv.{Inv}
use cerebri_cubs.Odometry.{OdometryStatus}
use cerebri_cubs.Service.{
  read_param_set, read_param_get, handle_param_set, handle_param_get, runtime_query,
}
use cerebri_cubs.Program.{Event, query, cycle, run, step}
use cerebri_cubs.Program.Takes.{set_pass_get}
use cerebri_cubs.Lockstep.{
  Link, native_sim, cubs2_lockstep_start, start_native, attach, cubs2_lockstep_host_map,
}
use cerebri_cubs.Sil.{lockstep_sample, Inputs, Context, pass}
use cerebri_cubs.Sil.Answer.{Answered, left_by, pass-answers}
use cerebri_cubs.Sil.Start.{World, Ready, start, loops, first_context, start_loops, start-Ready}
use cerebri_cubs.Sil.Running.{sil_loop, sil_program-Inv}
use cerebri_cubs.Realtime.Pose.{hardware}
use cerebri_cubs.Realtime.Loop.{Context as FlightContext, take_pose, finish, pass as realtime_pass}
use cerebri_cubs.Realtime.Answer.{published}
use cerebri_cubs.Realtime.Start.{
  Ready as FlightReady, first_context as flight_context, start_loops as flight_loops,
}
use cerebri_cubs.Tests.Flight.{inputs as flight_inputs}
use cerebri_cubs.Realtime.Running.{realtime_loop, realtime_program-Inv}
use cerebri_cubs.Tests.{
  speed, test_csyn, test_flatcc, doubles_fit, config, pilot, nobody, sample, context, at_start-Inv,
  cruise_request, setpoint_request,
}
use cerebri_cubs.Tests.Transport.{test_sequence, memory, host}

abbrev inputs : Inputs
inputs = record {
  received = lockstep_sample sample;
  manual = some nobody;
  elapsed_us = 150;
  send_fails = false;
}

-- The context once `cruise_request` has been handled, and after the pass on it.
abbrev with_request : Context test_csyn
with_request =
    let ctx = context pilot sample in
    record ctx {
      both = record ctx.both {
        runtime = (handle_param_set test_flatcc ctx.both.runtime cruise_request 100).0;
      };
    }

answered : Answered test_csyn 40000 (pass test_csyn config with_request inputs)
answered = pass-answers test_csyn config with_request inputs sample refl refl

set_pass_get_example :
    handle_param_get test_flatcc answered.after.both.runtime setpoint_request 100 ≡ (
      answered.after.both.runtime,
      build_param_get_reply test_flatcc 100 accepted "velocity.setpoint" speed (pos 0),
    )
unfolding read_param_set read_param_get find_value
set_pass_get_example =
    set_pass_get test_flatcc (sil_loop test_csyn config) doubles_fit (context pilot sample)
      answered.after inputs cruise_request setpoint_request 100 "route_cruiseSpeed"
      "velocity.setpoint" speed 0 at_start-Inv refl refl refl refl refl refl
      (ap (left_by test_csyn) answered.ends)

abbrev world : World test_csyn test_sequence
world = record {
  register = λ key. true;
  zros = record { publish = λ topic. pos 0; subscribe = λ topic. pos 0 };
  host = host;
  zeroed_shared = memory;
  status = OdometryStatus.status_other;
}

abbrev link : Option (Link test_csyn test_sequence)
link = (cubs2_lockstep_start test_csyn test_sequence native_sim host memory).link

abbrev sil_start : Context test_csyn
sil_start = first_context test_csyn test_sequence world

ready : Ready test_csyn test_sequence native_sim world
unfolding cubs2_lockstep_start start_native attach cubs2_lockstep_host_map
ready = record {
  services = refl;
  publishers = (refl, (refl, (refl, (refl, (refl, tt)))));
  subscribers = (refl, (refl, tt));
  transport = refl;
}

start-Ready_example :
    ((ctx : Context test_csyn) × (l : Option (Link test_csyn test_sequence)) × (start test_csyn
          test_sequence native_sim world
        ≡ loops ctx l))
    ↔ Ready test_csyn test_sequence native_sim world
start-Ready_example = start-Ready test_csyn test_sequence native_sim world

-- A request to set a value, and a pass on a sample.
abbrev events : List (Event test_flatcc (sil_loop test_csyn config))
events = query "param_set" cruise_request 100 ∷ cycle inputs ∷ []

abbrev after_query : Context test_csyn
after_query = record sil_start {
  both = record sil_start.both {
    runtime = (runtime_query test_flatcc "param_set" sil_start.both.runtime cruise_request 100).0;
  };
}

first_pass : Answered test_csyn 40000 (pass test_csyn config after_query inputs)
first_pass = pass-answers test_csyn config after_query inputs sample refl refl

sil_run : run test_flatcc (sil_loop test_csyn config) sil_start events ≡ some first_pass.after
unfolding run step
sil_run = rw (ap (left_by test_csyn) first_pass.ends) refl

sil_program-Inv_example : Inv first_pass.after.both.runtime
sil_program-Inv_example =
    sil_program-Inv test_csyn config test_flatcc test_sequence doubles_fit native_sim world
      sil_start first_pass.after link events
      (start_loops test_csyn test_sequence native_sim world ready) sil_run

-- The flight hardware.
abbrev flight_start : FlightContext test_csyn
flight_start = flight_context test_csyn test_sequence world

abbrev flight_events : List (Event test_flatcc (realtime_loop test_csyn hardware config))
flight_events = cycle flight_inputs ∷ []

abbrev flight_end : FlightContext test_csyn
flight_end =
    (published test_csyn hardware config flight_inputs
      (take_pose test_csyn flight_start flight_inputs.pose flight_inputs.clock.pose_ms).0 true).0

flight_run :
    run test_flatcc (realtime_loop test_csyn hardware config) flight_start flight_events
    ≡ some flight_end
unfolding run step realtime_pass finish
flight_run = refl

flight_ready : FlightReady test_csyn test_sequence hardware world true
flight_ready = record {
  services = refl;
  source = refl;
  publishers = (refl, (refl, (refl, (refl, (refl, (refl, (refl, (refl, (refl, tt)))))))));
}

realtime_program-Inv_example : Inv flight_end.both.runtime
realtime_program-Inv_example =
    realtime_program-Inv test_csyn hardware config test_flatcc test_sequence doubles_fit world true
      flight_start flight_end none flight_events
      (flight_loops test_csyn test_sequence hardware world true flight_ready) flight_run
