-- ===== src/Realtime/Start.antt =====
-- src/main_realtime.c:559-598: `main` up to its loop, from the zeroed statics on.
use cerebri_cubs.Prelude.{
  ◌≡◌, refl, ap, Bool, true, false, Option, none, some, if◌then◌else◌, arith, Bool-cases, inl, inr,
}
use cerebri_cubs.Prelude.Int.{ℤ, pos, negsuc}
use cerebri_cubs.Prelude.Update.{assign}
use cerebri_cubs.OuterLoop.{OuterLoopState, zeroed_model}
use cerebri_cubs.Csyn.{Csyn}
use cerebri_cubs.Odometry.{OdometryStatus, zeroed_odometry}
use cerebri_cubs.Runtime.{
  RuntimeControl, cleared, init_state, service_keys, cubs2_runtime_control_init,
}
use cerebri_cubs.Runtime.Start.{all_accepted, register_all_lem}
use cerebri_cubs.Zros.{is_zero, realtime_pubs_init, init_each-AllStart, AllStart, realtime_topics}
use cerebri_cubs.Lockstep as Transport
use cerebri_cubs.Lockstep.{Shared, Sequence, Host, Link, cubs2_lockstep_start}
use cerebri_cubs.Sil.Start.{World}
use cerebri_cubs.Realtime.Pose.{Build, hardware, fastdyn}
use cerebri_cubs.Realtime.Loop.{Context}

module _ (csyn : Csyn) (q : Sequence csyn) where
  open csyn use {efmi_init, efmi_recalibrate, no_outputs}

  abbrev pub zeroed_context : OdometryStatus → RuntimeControl → OuterLoopState → Context csyn
  zeroed_context status runtime model = record {
    both = record { runtime = runtime; model = model };
    pose = record {
      mocap = record { x = 0; y = 0; z = 0; qw = 0; qx = 0; qy = 0; qz = 0; valid = false };
      generation = 0;
      last_update_ms = pos 0;
    };
    odometry = zeroed_odometry status;
    next_control_time_us = 0;
    pilot = record { manual = record { valid = false; rc = λ channel. pos 0 }; generation = 0 };
    control_rc = λ channel. pos 0;
    pwm_outputs = no_outputs;
    mission = record { countdown = 0; seq = 0 };
    estimator_control_steps = 0;
    main_loop_us = 0;
    previous_auto_mode = false;
  }

  -- The estimator derives the rates from the pose.
  abbrev pub first_model : OuterLoopState
  first_model =
      let model = efmi_recalibrate (efmi_init zeroed_model) in
      record model { scalar = assign model.scalar "estimator_useMeasuredRates" 0 }

  -- The transport is started under FastDyn; on the hardware `csyn_topic_find` looks for the pose's topic.
  abbrev pub source_start : Build → World csyn q → Bool → ℤ × Option (Link csyn q)
  source_start hardware world has_pose_topic = (if has_pose_topic then pos 0 else negsuc 0, none)
  source_start fastdyn world has_pose_topic =
      let started = cubs2_lockstep_start csyn q Transport.fastdyn world.host world.zeroed_shared in
      (started.rc, started.link)

  pub data Start : Type 0 where
    stops : ℤ → Start
    loops : Context csyn → Option (Link csyn q) → Start

  abbrev published : Context csyn → Option (Link csyn q) → ℤ → Start
  published ctx link rc = if is_zero rc then loops ctx link else stops rc

  abbrev sourced : World csyn q → Context csyn → ℤ × Option (Link csyn q) → Start
  sourced world ctx (rc, link) =
      if is_zero rc then published ctx link (realtime_pubs_init world.zros) else stops rc

  unfoldable pub start : Build → World csyn q → Bool → Start
  start build world has_pose_topic =
      let (runtime, keys, registered) =
        cubs2_runtime_control_init world.register cleared (some first_model) in
      if registered
      then sourced world (zeroed_context world.status runtime first_model)
          (source_start build world has_pose_topic)
      else stops (negsuc 0)

  pub record Ready (build : Build) (world : World csyn q) (has_pose_topic : Bool) : Type 0 where
    pub services : all_accepted world.register service_keys ≡ true
    pub source : (source_start build world has_pose_topic).0 ≡ pos 0
    pub publishers : AllStart world.zros.publish realtime_topics

  abbrev pub first_context : World csyn q → Context csyn
  first_context world = zeroed_context world.status (init_state first_model) first_model

  start_registered :
      (build : Build) (world : World csyn q) (has_pose_topic : Bool)
      → start build world has_pose_topic ≡ (
          if all_accepted world.register service_keys
          then sourced world (first_context world) (source_start build world has_pose_topic)
          else stops (negsuc 0))
  unfolding start cubs2_runtime_control_init
  start_registered build world has_pose_topic =
      ap
        (λ (registered : Bool).
          if registered
          then sourced world (first_context world) (source_start build world has_pose_topic)
          else stops (negsuc 0))
        (register_all_lem world.register service_keys)

  sourced_cases :
      (world : World csyn q) (first ctx : Context csyn) (source : ℤ × Option (Link csyn q))
      (link : Option (Link csyn q))
      → sourced world first source ≡ loops ctx link
      → (source.0 ≡ pos 0)
        × (realtime_pubs_init world.zros ≡ pos 0)
        × (first ≡ ctx)
        × (source.1 ≡ link)
  sourced_cases world first ctx source link h = ground arith

  pub start_cases :
      (build : Build) (world : World csyn q) (has_pose_topic : Bool) (ctx : Context csyn)
      (link : Option (Link csyn q))
      → start build world has_pose_topic ≡ loops ctx link
      → Ready build world has_pose_topic
        × (first_context world ≡ ctx)
        × ((source_start build world has_pose_topic).1 ≡ link)
  unfolding realtime_pubs_init
  start_cases build world has_pose_topic ctx link h =
      elim (Bool-cases (all_accepted world.register service_keys)) [
        | inl services ↦
            let rest =
              sourced_cases world (first_context world) ctx
                (source_start build world has_pose_topic) link
                (rw (start_registered build world has_pose_topic, services) at h) in
            let topics = (init_each-AllStart world.zros.publish realtime_topics).0 rest.1 in
            (record { services = services; source = rest.0; publishers = topics }, rest.2, rest.3)
        | inr refused ↦ cc (rw (start_registered build world has_pose_topic, refused) at h)
      ]

  pub start_loops :
      (build : Build) (world : World csyn q) (has_pose_topic : Bool)
      → Ready build world has_pose_topic
      → start build world has_pose_topic
        ≡ loops (first_context world) (source_start build world has_pose_topic).1
  unfolding realtime_pubs_init
  start_loops build world has_pose_topic ready =
      rw
        (
          start_registered build world has_pose_topic,
          ready.services,
          ready.source,
          (init_each-AllStart world.zros.publish realtime_topics).1 ready.publishers,
        )
        refl
