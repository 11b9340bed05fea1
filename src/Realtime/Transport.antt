-- ===== src/Realtime/Transport.antt =====
-- The transport of subsys/lockstep/lockstep.c around a pass of src/main_realtime.c's loop under FastDyn
-- (lines 607-612 and 651-655): what the host finds in the shared memory after it.
use cerebri_cubs.Prelude.{◌≡◌, refl, Bool, false, Option, none, some, List, [], ◌∷◌, if◌then◌else◌}
use cerebri_cubs.Prelude.Int.{ℤ, pos}
use cerebri_cubs.Csyn.{Csyn}
use cerebri_cubs.Mode.{Config}
use cerebri_cubs.Telemetry.{AttitudeCommand, attitude_command}
use cerebri_cubs.Lockstep as Lockstep
use cerebri_cubs.Lockstep.{
  minus_eio, ready, Shared, Sequence, Link, Received, sample, error, exits_0,
  cubs2_lockstep_receive, cubs2_lockstep_send,
}
use cerebri_cubs.Realtime.Pose.{fastdyn}
use cerebri_cubs.Realtime.Mission.{TrajectorySegment}
use cerebri_cubs.Realtime.Telemetry.{Message, pwm, command, segment_message, update_telemetry}
use cerebri_cubs.Realtime.Loop.{
  Inputs, Context, Clock, Pass, exits, completes, take_sample, advance, publish_outputs, answer,
  finish, pass_on, pass,
}
use cerebri_cubs.Realtime.Answer.{AllStamped, published, finish-AllStamped}

module _ (csyn : Csyn) where
  open csyn use {Pwm}

  abbrev pub outputs_in : List (Message csyn) → List Pwm
  outputs_in [] = []
  outputs_in (pwm w ∷ rest) = w ∷ outputs_in rest
  outputs_in (m ∷ rest) = outputs_in rest

  abbrev pub commands_in : List (Message csyn) → List AttitudeCommand
  commands_in [] = []
  commands_in (command c ∷ rest) = c ∷ commands_in rest
  commands_in (m ∷ rest) = commands_in rest

  segment_outputs :
      (w : Pwm) (s : Option TrajectorySegment) → w ∷ outputs_in (segment_message csyn s) ≡ w ∷ []
  segment_outputs w none = refl
  segment_outputs w (some s) = refl

  segment_commands :
      (c : AttitudeCommand) (s : Option TrajectorySegment)
      → c ∷ commands_in (segment_message csyn s) ≡ c ∷ []
  segment_commands c none = refl
  segment_commands c (some s) = refl

  published_outputs :
      (ctx : Context csyn) (auto_mode : Bool) (clock : Clock)
      → outputs_in (publish_outputs csyn fastdyn ctx auto_mode clock).1
        ≡ (publish_outputs csyn fastdyn ctx auto_mode clock).0.pwm_outputs ∷ []
  unfolding publish_outputs update_telemetry
  published_outputs ctx auto_mode clock = segment_outputs _ _

  published_commands :
      (ctx : Context csyn) (auto_mode : Bool) (clock : Clock)
      → commands_in (publish_outputs csyn fastdyn ctx auto_mode clock).1
        ≡ attitude_command csyn ctx.both.model ctx.odometry.timestamp_us ∷ []
  unfolding publish_outputs update_telemetry
  published_commands ctx auto_mode clock = segment_commands _ _

  -- A pass whose answer can be sent.
  finish_completes :
      (config : Config) (inputs : Inputs) (ctx : Context csyn) (step_control : Bool)
      → inputs.send_fails ≡ false
      → finish csyn fastdyn config inputs (ctx, step_control)
        ≡ completes
            (published csyn fastdyn config inputs ctx step_control).0
            (published csyn fastdyn config inputs ctx step_control).1
            (answer csyn fastdyn
              (published csyn fastdyn config inputs ctx step_control).0
              inputs.clock)
  unfolding finish
  finish_completes config inputs ctx step_control sends = rw sends refl

  module _ (q : Sequence csyn) where
    open q use {State, wait, respond}

    pub data Turn : Type 0 where
      ends : ℤ → Turn
      turns : Context csyn → List (Message csyn) → Link csyn q → Turn

    abbrev pub sent : Context csyn → List (Message csyn) → Link csyn q × Bool → Turn
    sent ctx messages (link, fails) = if fails then ends minus_eio else turns ctx messages link

    abbrev pub answered : Link csyn q → Pass csyn → Turn
    answered link exits = ends minus_eio
    answered link (completes ctx messages none) = turns ctx messages link
    answered link (completes ctx messages (some (outputs, attitude))) =
        sent ctx messages (cubs2_lockstep_send csyn q Lockstep.fastdyn link outputs attitude)

    abbrev pub turned : Config → Context csyn → Inputs → Received csyn q → Turn
    turned config ctx inputs (sample odom link) =
        answered link (
          pass csyn fastdyn config ctx (record inputs { received = some odom; send_fails = false }))
    turned config ctx inputs error = ends minus_eio
    turned config ctx inputs exits_0 = ends (pos 0)

    -- One pass under FastDyn; of `inputs` the sample and the send are the transport's.
    unfoldable pub turn : Config → Context csyn → Link csyn q → Inputs → Turn
    turn config ctx link inputs =
        turned config ctx inputs (cubs2_lockstep_receive csyn q Lockstep.fastdyn link)

    -- The host finds exactly what the pass published.
    pub record Exchanged (state : State) (shared : Shared csyn) (t : Turn) : Type 0 where
      pub after : Context csyn
      pub messages : List (Message csyn)
      pub link : Link csyn q
      pub goes : t ≡ turns after messages link
      pub stamped : AllStamped csyn shared.odometry.timestamp_us messages
      pub one_output : outputs_in messages ≡ link.shared.pwm ∷ []
      pub one_command : commands_in messages ≡ link.shared.attitude ∷ []
      pub responds : (link.state, link.shared.words) ≡ respond state shared.words
      pub sample_kept : link.shared.odometry ≡ shared.odometry
      pub magic_kept : link.shared.magic ≡ shared.magic

    -- Under FastDyn, if the wait of the transport delivers the host's memory: the pass of
    -- src/main_realtime.c does not end the program, and the memory afterwards holds exactly the one
    -- set of outputs and the one attitude command that the pass published, all its messages carry
    -- the time of the host's sample, and the words are those of the protocol's response; the sample
    -- and the magic number are untouched.
    pub fastdyn-Exchanged :
        (config : Config) (ctx : Context csyn) (link : Link csyn q) (inputs : Inputs)
        (state : State) (shared : Shared csyn)
        → wait link.state link.shared ≡ (state, shared, ready)
        → Exchanged state shared (turn config ctx link inputs)
    unfolding turn cubs2_lockstep_receive cubs2_lockstep_send pass pass_on finish publish_outputs
    fastdyn-Exchanged config ctx link inputs state shared waits =
        let given : Inputs = record inputs {
          received = some shared.odometry;
          send_fails = false;
        } in
        let (taken, due) = take_sample csyn ctx shared.odometry in
        let advanced = advance csyn fastdyn config taken inputs.manual due in
        let timed : Context csyn = record advanced.0 { main_loop_us = inputs.elapsed_us } in
        rw waits (record {
          after = (published csyn fastdyn config given taken due).0;
          messages = (published csyn fastdyn config given taken due).1;
          link = _;
          goes = refl;
          stamped =
              finish-AllStamped csyn fastdyn config given taken _ due _ _
                (finish_completes config given taken due refl);
          one_output = published_outputs timed advanced.1 inputs.clock;
          one_command = published_commands timed advanced.1 inputs.clock;
          responds = refl;
          sample_kept = refl;
          magic_kept = refl;
        })
