-- ===== src/Tests/Flight.antt =====
-- Passes of the loop on the flight hardware and under FastDyn (src/main_realtime.c:600-663).
use cerebri_cubs.Prelude.{
  ℕ, ◌*◌, ◌+◌, ◌≡◌, ◌↔◌, refl, true, false, none, some, [], ◌∷◌, List, arith,
}
use cerebri_cubs.Prelude.Int.{pos}
use cerebri_cubs.Mode.{auto_mode_selected}
use cerebri_cubs.Realtime.Pose.{hardware, fastdyn}
use cerebri_cubs.Realtime.Loop.{
  Inputs, Context, exits, completes, take_pose, controller_step, advance, finish, pass,
}
use cerebri_cubs.Realtime.Schedule.{Uptime, deadline_after}
use cerebri_cubs.Realtime.Deadlines.{deadlines_exact}
use cerebri_cubs.Realtime.Output.{PutsOut, manual_of, at_boundary, advance-PutsOut, advance_model}
use cerebri_cubs.Realtime.Answer.{AllStamped, time_of, published, pass-AllStamped}
use cerebri_cubs.Realtime.Exits.{Fails, realtime_exits}
use cerebri_cubs.Tests.{at_start, test_csyn, config, pilot, sample, one_metre}

abbrev pub flight : Context test_csyn
flight = record {
  both = at_start;
  pose = record {
    mocap = record { x = 0; y = 0; z = 0; qw = one_metre; qx = 0; qy = 0; qz = 0; valid = true };
    generation = 1;
    last_update_ms = pos 0;
  };
  odometry = sample;
  next_control_time_us = 0;
  pilot = record { manual = pilot; generation = 1 };
  control_rc = λ i. pos 0;
  pwm_outputs = ((λ i. pos 0), pos 0);
  mission = record { countdown = 0; seq = 0 };
  estimator_control_steps = 0;
  main_loop_us = 0;
  previous_auto_mode = false;
}

abbrev pub inputs : Inputs
inputs = record {
  received = none;
  pose = record { generation = 1; copied = none };
  manual = none;
  clock = record { pose_ms = 20; outputs_ms = 21; age_ms = 22 };
  elapsed_us = 150;
  send_fails = false;
}

advance-PutsOut_example :
    PutsOut test_csyn hardware config
      (manual_of test_csyn flight none)
      (advance test_csyn hardware config flight none true).0
advance-PutsOut_example = advance-PutsOut test_csyn hardware config flight none true

advance_model_example :
    (advance test_csyn hardware config flight none true).0.both.model
    ≡ controller_step test_csyn
        (at_boundary test_csyn flight).model
        flight.pose.mocap
        (auto_mode_selected config (manual_of test_csyn flight none))
advance_model_example = advance_model test_csyn hardware config flight none true

-- Three passes at 20 ticks, the second of which is late.
abbrev readings : List Uptime
readings =
    record { tested = 1005; resync = 1006 }
    ∷ record { tested = 1070; resync = 1071 }
    ∷ record { tested = 1045; resync = 1046 }
    ∷ []

deadlines_exact_example : deadline_after 20 1000 readings ≡ 1000 + 3 * 20
deadlines_exact_example =
    deadlines_exact 20 1000 readings (omega arith, (omega arith, (omega arith, tt)))

abbrev pub taken : Context test_csyn
taken = (take_pose test_csyn flight inputs.pose inputs.clock.pose_ms).0

abbrev pub after_flight : Context test_csyn
after_flight = (published test_csyn hardware config inputs taken true).0

pub flight_completes :
    pass test_csyn hardware config flight inputs
    ≡ completes after_flight (published test_csyn hardware config inputs taken true).1 none
unfolding pass finish
flight_completes = refl

pass-AllStamped_example :
    (time : ℕ) × (time_of test_csyn hardware inputs ≡ some time)
    × AllStamped test_csyn time (published test_csyn hardware config inputs taken true).1
pass-AllStamped_example =
    pass-AllStamped test_csyn hardware config flight after_flight inputs
      (published test_csyn hardware config inputs taken true).1 none flight_completes

realtime_exits_example :
    (pass test_csyn fastdyn config flight inputs ≡ exits) ↔ Fails test_csyn fastdyn inputs none
realtime_exits_example = realtime_exits test_csyn fastdyn config flight inputs
