-- ===== src/Sil/Answer.antt =====
-- A whole pass of src/main_sil.c's loop: what it publishes and answers to a sample, and the state that
-- the next pass finds (lines 336-411).
use cerebri_cubs.Prelude.{
  ℕ, ◌≡◌, ◌⊎◌, ◌↔◌, inl, inr, refl, ap, ◌∙◌, Bool, true, false, not, ◌&&◌, Option, none, some, List,
  [], ◌∷◌, arith, if◌then◌else◌,
}
use cerebri_cubs.Prelude.Int.{pos}
use cerebri_cubs.Csyn.{RcChannels, ManualControl, Csyn}
use cerebri_cubs.Mode.{Config, auto_mode_selected}
use cerebri_cubs.Odometry.{Odometry}
use cerebri_cubs.Runtime.{Both, apply_staged, restore}
use cerebri_cubs.Runtime.Inv.{Inv}
use cerebri_cubs.Runtime.Boundary.{apply_staged-Inv}
use cerebri_cubs.Runtime.Restart.{restore-Inv}
use cerebri_cubs.Telemetry.{AttitudeCommand, vehicle_health, attitude_estimate, attitude_command}
use cerebri_cubs.Sil.{
  Received, lockstep_sample, lockstep_error, wait_failed, not_updated, topic_sample, Inputs,
  Context, Message, pwm, health, estimate, command, metrics, Pass, exits, continues, completes,
  take_sample, read_manual, engage, control, outputs, command_of, control_timestamp_us, messages,
  advance, finish, sampled, pass_on, pass,
}

module _ (csyn : Csyn) where
  open csyn use {Pwm, pwm_outputs_from_rc}

  -- The message carries the time; of the outputs the codec is given it.
  abbrev pub IsStamped : ℕ → Message csyn → Type 0
  IsStamped time (pwm w) =
      (rc : RcChannels) × (old : Pwm) × (w ≡ pwm_outputs_from_rc rc old (pos time))
  IsStamped time (health m) = m.timestamp_us ≡ time
  IsStamped time (estimate m) = m.timestamp_us ≡ time
  IsStamped time (command m) = m.timestamp_us ≡ time
  IsStamped time (metrics m) = m.timestamp_us ≡ time

  abbrev pub AllStamped : ℕ → List (Message csyn) → Type 0
  AllStamped time [] = Unit
  AllStamped time (m ∷ rest) = IsStamped time m × AllStamped time rest

  abbrev pub outputs_in : List (Message csyn) → List Pwm
  outputs_in [] = []
  outputs_in (pwm w ∷ rest) = w ∷ outputs_in rest
  outputs_in (m ∷ rest) = outputs_in rest

  abbrev pub commands_in : List (Message csyn) → List AttitudeCommand
  commands_in [] = []
  commands_in (command c ∷ rest) = c ∷ commands_in rest
  commands_in (m ∷ rest) = commands_in rest

  -- The time of a sample is kept up to the end of the control code.
  advance_time :
      (config : Config) (ctx : Context csyn)
      → ((advance csyn config ctx).0.lockstep_time_us ≡ ctx.lockstep_time_us)
        × ((advance csyn config ctx).0.lockstep_time_valid ≡ ctx.lockstep_time_valid)
        × ((advance csyn config ctx).0.odometry ≡ ctx.odometry)
        × ((advance csyn config ctx).0.manual ≡ ctx.manual)
        × ((advance csyn config ctx).1 ≡ auto_mode_selected config ctx.manual)
  unfolding advance control engage
  advance_time config ctx = ground arith

  -- The context after the control code on a sample.
  abbrev pub controlled : Config → Context csyn → Inputs → Odometry → Context csyn × Bool
  controlled config ctx inputs odom =
      advance csyn config (read_manual csyn (take_sample csyn ctx odom) inputs.manual)

  pub read_manual_time :
      (ctx : Context csyn) (manual : Option ManualControl)
      → ((read_manual csyn ctx manual).lockstep_time_us ≡ ctx.lockstep_time_us)
        × ((read_manual csyn ctx manual).lockstep_time_valid ≡ ctx.lockstep_time_valid)
        × ((read_manual csyn ctx manual).both ≡ ctx.both)
  read_manual_time ctx none = (refl, refl, refl)
  read_manual_time ctx (some manual) = (refl, refl, refl)

  controlled_time :
      (config : Config) (ctx : Context csyn) (inputs : Inputs) (odom : Odometry)
      → control_timestamp_us csyn (controlled config ctx inputs odom).0 ≡ odom.timestamp_us
  controlled_time config ctx inputs odom =
      let sample = take_sample csyn ctx odom in
      let kept = advance_time config (read_manual csyn sample inputs.manual) in
      let read = read_manual_time sample inputs.manual in
      let valid : (controlled config ctx inputs odom).0.lockstep_time_valid ≡ true =
        kept.1 ∙ read.1 in
      let time : (controlled config ctx inputs odom).0.lockstep_time_us ≡ odom.timestamp_us =
        kept.0 ∙ read.0 in
      simp (valid, time)

  -- What `finish` answers: the outputs and the command that it published, and no others.
  pub record Answered (time : ℕ) (p : Pass csyn) : Type 0 where
    pub after : Context csyn
    pub published : List (Message csyn)
    pub answer_outputs : Pwm
    pub answer_command : AttitudeCommand
    pub ends : p ≡ completes after published (some (answer_outputs, answer_command))
    pub stamped : AllStamped time published
    pub one_output : outputs_in published ≡ answer_outputs ∷ []
    pub one_command : commands_in published ≡ answer_command ∷ []

  finish_answers :
      (ctx : Context csyn) (auto_mode : Bool) (elapsed_us time : ℕ)
      → control_timestamp_us csyn ctx ≡ time
      → Answered time (finish csyn ctx auto_mode elapsed_us true false)
  unfolding finish messages vehicle_health attitude_estimate attitude_command
  finish_answers ctx auto_mode elapsed_us time h =
      let timed : Context csyn = record ctx { main_loop_us = elapsed_us } in
      record {
        after = record timed { pwm_outputs = outputs csyn timed };
        published = messages csyn timed auto_mode;
        answer_outputs = outputs csyn timed;
        answer_command = command_of csyn timed;
        ends = refl;
        stamped = (
          (
            ctx.control_rc,
            ctx.pwm_outputs,
            ap (λ (t : ℕ). pwm_outputs_from_rc ctx.control_rc ctx.pwm_outputs (pos t)) h,
          ),
          (h, (h, (h, (h, tt)))),
        );
        one_output = refl;
        one_command = refl;
      }

  -- Every sample over the shared memory is answered with exactly the outputs and the command that
  -- the pass published, and all its messages carry the sample's time, if the answer can be sent.
  pub pass-answers :
      (config : Config) (ctx : Context csyn) (inputs : Inputs) (odom : Odometry)
      → inputs.received ≡ lockstep_sample odom
      → inputs.send_fails ≡ false
      → Answered odom.timestamp_us (pass csyn config ctx inputs)
  unfolding pass pass_on sampled
  pass-answers config ctx inputs odom received sends =
      rw (received, sends)
        (finish_answers (controlled config ctx inputs odom).0 (controlled config ctx inputs odom).1
          inputs.elapsed_us odom.timestamp_us (controlled_time config ctx inputs odom))

  finish_exits :
      (ctx : Context csyn) (auto_mode : Bool) (elapsed_us : ℕ) (lockstep fails : Bool)
      → (finish csyn ctx auto_mode elapsed_us lockstep fails ≡ exits) ↔ ((lockstep && fails) ≡ true)
  unfolding finish
  finish_exits ctx auto_mode elapsed_us lockstep fails = ground arith

  -- Why a pass ends the program: a sample cannot be received, or its answer cannot be sent.
  abbrev pub Fails : Inputs → Received → Type 0
  Fails inputs received =
      (received ≡ lockstep_error)
      ⊎ ((odom : Odometry) × (received ≡ lockstep_sample odom) × (inputs.send_fails ≡ true))

  pass_on_exits :
      (config : Config) (ctx : Context csyn) (inputs : Inputs) (received : Received)
      → (pass_on csyn config ctx inputs received ≡ exits) ↔ Fails inputs received
  unfolding pass_on sampled
  pass_on_exits config ctx inputs (lockstep_sample odom) =
      let ends =
        finish_exits (controlled config ctx inputs odom).0 (controlled config ctx inputs odom).1
          inputs.elapsed_us true inputs.send_fails in
      ((λ h. inr (odom, refl, ends.0 h)), (λ e. ends.1 (elim e [ inl e ↦ cc | inr (o, p, q) ↦ q ])))
  pass_on_exits config ctx inputs lockstep_error = ((λ _. inl refl), (λ _. refl))
  pass_on_exits config ctx inputs wait_failed = ((λ h. cc), (λ e. ground arith))
  pass_on_exits config ctx inputs not_updated = ((λ h. cc), (λ e. ground arith))
  pass_on_exits config ctx inputs (topic_sample odom) =
      let ends =
        finish_exits (controlled config ctx inputs odom).0 (controlled config ctx inputs odom).1
          inputs.elapsed_us false inputs.send_fails in
      ((λ h. cc (ends.0 h)), (λ e. elim e [ inl e ↦ cc | inr (o, p, q) ↦ cc ]))

  -- A pass ends the program exactly if a sample cannot be received over the shared memory or its
  -- answer cannot be sent.
  pub pass_exits :
      (config : Config) (ctx : Context csyn) (inputs : Inputs)
      → (pass csyn config ctx inputs ≡ exits) ↔ Fails inputs inputs.received
  unfolding pass
  pass_exits config ctx inputs = pass_on_exits config ctx inputs inputs.received

  unfoldable pub engaged_runtime : Bool → Both → Both
  engaged_runtime anew b =
      if anew
      then restore (record b { model = csyn.efmi_recalibrate (csyn.efmi_init b.model) })
      else b

  engaged_runtime-Inv :
      (anew : Bool) (b : Both) → Inv b.runtime → Inv (engaged_runtime anew b).runtime
  unfolding engaged_runtime
  engaged_runtime-Inv true b inv = restore-Inv _ inv
  engaged_runtime-Inv false b inv = inv

  pub engage_both :
      (ctx : Context csyn) (auto_mode : Bool)
      → (engage csyn ctx auto_mode).both
        ≡ engaged_runtime (auto_mode && not ctx.previous_auto_mode) ctx.both
  unfolding engage engaged_runtime
  engage_both ctx auto_mode = ground arith

  control_runtime :
      (ctx : Context csyn) (auto_mode due ok : Bool)
      → (control csyn ctx auto_mode due ok).both.runtime ≡ ctx.both.runtime
  unfolding control
  control_runtime ctx auto_mode due ok = ground arith

  pub advance_runtime :
      (config : Config) (ctx : Context csyn)
      → (advance csyn config ctx).0.both.runtime
        ≡ (apply_staged (engage csyn ctx (auto_mode_selected config ctx.manual)).both).runtime
  unfolding advance
  advance_runtime config ctx = control_runtime _ _ _ _

  advance-Inv :
      (config : Config) (ctx : Context csyn)
      → Inv ctx.both.runtime
      → Inv (advance csyn config ctx).0.both.runtime
  advance-Inv config ctx inv =
      let auto_mode = auto_mode_selected config ctx.manual in
      let anew = auto_mode && not ctx.previous_auto_mode in
      rw (advance_runtime config ctx, engage_both ctx auto_mode)
        (apply_staged-Inv (engaged_runtime anew ctx.both) (engaged_runtime-Inv anew ctx.both inv))

  sampled-Inv :
      (config : Config) (ctx : Context csyn) (inputs : Inputs) (odom : Odometry)
      → Inv ctx.both.runtime
      → Inv (controlled config ctx inputs odom).0.both.runtime
  sampled-Inv config ctx inputs odom inv =
      let sample = take_sample csyn ctx odom in
      advance-Inv config (read_manual csyn sample inputs.manual)
        (rw (read_manual_time sample inputs.manual).2 inv)

  -- The state that a pass leaves to the next one, if it does.
  abbrev pub left_by : Pass csyn → Option (Context csyn)
  left_by exits = none
  left_by (continues c) = some c
  left_by (completes c published answer) = some c

  pub left_by-finish :
      (ctx c : Context csyn) (auto_mode : Bool) (elapsed_us : ℕ) (lockstep fails : Bool)
      → left_by (finish csyn ctx auto_mode elapsed_us lockstep fails) ≡ some c
      → ctx.both ≡ c.both
  unfolding finish
  left_by-finish ctx c auto_mode elapsed_us lockstep fails h = ground arith

  pass_on-Inv :
      (config : Config) (ctx c : Context csyn) (inputs : Inputs) (received : Received)
      → Inv ctx.both.runtime
      → left_by (pass_on csyn config ctx inputs received) ≡ some c
      → Inv c.both.runtime
  unfolding pass_on sampled
  pass_on-Inv config ctx c inputs (lockstep_sample odom) inv h =
      rw (left_by-finish _ c _ _ _ _ h) at (sampled-Inv config ctx inputs odom inv)
  pass_on-Inv config ctx c inputs lockstep_error inv h = cc
  pass_on-Inv config ctx c inputs wait_failed inv h = let same : ctx ≡ c = cc in rw same at inv
  pass_on-Inv config ctx c inputs not_updated inv h = let same : ctx ≡ c = cc in rw same at inv
  pass_on-Inv config ctx c inputs (topic_sample odom) inv h =
      rw (left_by-finish _ c _ _ _ _ h) at (sampled-Inv config ctx inputs odom inv)

  -- A pass of the SIL loop that does not end the program keeps the invariant of the runtime
  -- control, whatever it receives: the controller may start anew, staged updates are taken, and the
  -- controller may step.
  pub pass-Inv :
      (config : Config) (ctx c : Context csyn) (inputs : Inputs)
      → Inv ctx.both.runtime
      → left_by (pass csyn config ctx inputs) ≡ some c
      → Inv c.both.runtime
  unfolding pass
  pass-Inv config ctx c inputs inv h = pass_on-Inv config ctx c inputs inputs.received inv h
