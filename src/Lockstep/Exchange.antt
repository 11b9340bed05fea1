-- ===== src/Lockstep/Exchange.antt =====
-- The transport of subsys/lockstep/lockstep.c around a pass of src/main_sil.c's loop (lines 345-353 and
-- 401-406): what the host finds in the shared memory after it.
use cerebri_cubs.Prelude.{
  ℕ, ◌≡◌, ◌≢◌, refl, Bool, false, if◌then◌else◌, Option, none, some, List, [], ◌∷◌,
}
use cerebri_cubs.Prelude.Int.{ℤ, pos}
use cerebri_cubs.Csyn.{ManualControl, Csyn}
use cerebri_cubs.Mode.{Config}
use cerebri_cubs.Telemetry.{AttitudeCommand}
use cerebri_cubs.Lockstep.{
  minus_eio, Build, native_sim, fastdyn, no_transport, ready, canceled, Shared, Sequence, Link,
  Received, sample, error, exits_0, cubs2_lockstep_receive, cubs2_lockstep_send, respond_with,
}
use cerebri_cubs.Sil.{lockstep_sample, Context, Message, Pass, exits, continues, completes, pass}
use cerebri_cubs.Sil.Answer.{AllStamped, outputs_in, commands_in, Answered, pass-answers}

module _ (csyn : Csyn) (q : Sequence csyn) where
  open csyn use {Pwm}
  open q use {State, wait, respond}

  -- A turn ends the program with a code, or leaves the context and the memory to the next one.
  pub data Turn : Type 0 where
    ends : ℤ → Turn
    turns : Context csyn → List (Message csyn) → Link csyn q → Turn

  abbrev sent : Context csyn → List (Message csyn) → Link csyn q × Bool → Turn
  sent ctx published (link, fails) = if fails then ends minus_eio else turns ctx published link

  -- The answer of the pass is what is sent.
  abbrev answered : Build → Link csyn q → Pass csyn → Turn
  answered build link exits = ends minus_eio
  answered build link (continues ctx) = turns ctx [] link
  answered build link (completes ctx published none) = turns ctx published link
  answered build link (completes ctx published (some (pwm, attitude))) =
      sent ctx published (cubs2_lockstep_send csyn q build link pwm attitude)

  abbrev turned : Build → Config → Context csyn → Option ManualControl → ℕ → Received csyn q → Turn
  turned build config ctx manual elapsed_us (sample odom link) = answered build link (
      pass csyn config ctx (record {
        received = lockstep_sample odom;
        manual = manual;
        elapsed_us = elapsed_us;
        send_fails = false;
      }))
  turned build config ctx manual elapsed_us error = ends minus_eio
  turned build config ctx manual elapsed_us exits_0 = ends (pos 0)

  -- One pass while `cubs2_lockstep_enabled()`.
  unfoldable pub turn :
      Build → Config → Context csyn → Link csyn q → Option ManualControl → ℕ → Turn
  turn build config ctx link manual elapsed_us =
      turned build config ctx manual elapsed_us (cubs2_lockstep_receive csyn q build link)

  -- The host finds exactly what the pass published, stamped with the time of its own sample, and the
  -- words of the protocol's response; its sample and the magic number are untouched.
  pub record Exchanged (state : State) (shared : Shared csyn) (t : Turn) : Type 0 where
    pub after : Context csyn
    pub published : List (Message csyn)
    pub link : Link csyn q
    pub goes : t ≡ turns after published link
    pub stamped : AllStamped csyn shared.odometry.timestamp_us published
    pub one_output : outputs_in csyn published ≡ link.shared.pwm ∷ []
    pub one_command : commands_in csyn published ≡ link.shared.attitude ∷ []
    pub responds : (link.state, link.shared.words) ≡ respond state shared.words
    pub sample_kept : link.shared.odometry ≡ shared.odometry
    pub magic_kept : link.shared.magic ≡ shared.magic

  send_responds :
      (build : Build) (link : Link csyn q) (pwm : Pwm) (attitude : AttitudeCommand)
      → build ≢ no_transport
      → cubs2_lockstep_send csyn q build link pwm attitude
        ≡ (respond_with csyn q link pwm attitude, false)
  unfolding cubs2_lockstep_send
  send_responds native_sim link pwm attitude has = refl
  send_responds fastdyn link pwm attitude has = refl
  send_responds no_transport link pwm attitude has = absurd (has refl)

  answered-Exchanged :
      (build : Build) (state : State) (shared : Shared csyn) (p : Pass csyn)
      → build ≢ no_transport
      → Answered csyn shared.odometry.timestamp_us p
      → Exchanged state shared (answered build (record { shared = shared; state = state }) p)
  answered-Exchanged build state shared p has a = record {
    after = a.after;
    published = a.published;
    link =
        respond_with csyn q (record { shared = shared; state = state }) a.answer_outputs
          a.answer_command;
    goes =
        rw
          (
            a.ends,
            send_responds build (record { shared = shared; state = state }) a.answer_outputs
                a.answer_command has,
          )
          refl;
    stamped = a.stamped;
    one_output = a.one_output;
    one_command = a.one_command;
    responds = refl;
    sample_kept = refl;
    magic_kept = refl;
  }

  -- With the transport, if its wait delivers the host's memory: the pass does not end the program,
  -- and the memory afterwards holds exactly the one set of outputs and the one attitude command
  -- that the pass published, all stamped with the time of the host's sample, and the words of the
  -- protocol's response; the sample and the magic number are untouched.
  pub turn-Exchanged :
      (build : Build) (config : Config) (ctx : Context csyn) (link : Link csyn q)
      (manual : Option ManualControl) (elapsed_us : ℕ) (state : State) (shared : Shared csyn)
      → build ≢ no_transport
      → wait link.state link.shared ≡ (state, shared, ready)
      → Exchanged state shared (turn build config ctx link manual elapsed_us)
  unfolding turn cubs2_lockstep_receive
  turn-Exchanged native_sim config ctx link manual elapsed_us state shared has waits = rw waits (
      answered-Exchanged native_sim state shared _ has (pass-answers csyn config ctx _ _ refl refl))
  turn-Exchanged fastdyn config ctx link manual elapsed_us state shared has waits =
      rw waits
        (answered-Exchanged fastdyn state shared _ has (pass-answers csyn config ctx _ _ refl refl))
  turn-Exchanged no_transport config ctx link manual elapsed_us state shared has waits =
      absurd (has refl)

  -- The host's termination ends the native program with 0 and FastDyn's with -EIO, as an error does.
  pub turn_ends :
      (config : Config) (ctx : Context csyn) (link : Link csyn q) (manual : Option ManualControl)
      (elapsed_us : ℕ) (state : State) (shared : Shared csyn)
      → wait link.state link.shared ≡ (state, shared, canceled)
      → (turn native_sim config ctx link manual elapsed_us ≡ ends (pos 0))
        × (turn fastdyn config ctx link manual elapsed_us ≡ ends minus_eio)
  unfolding turn cubs2_lockstep_receive
  turn_ends config ctx link manual elapsed_us state shared waits = (rw waits refl, rw waits refl)
