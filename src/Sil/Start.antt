-- ===== src/Sil/Start.antt =====
-- src/main_sil.c:313-334: `main` up to its loop, from the zeroed statics on.
use cerebri_cubs.Prelude.{
  ◌↔◌, ◌≡◌, refl, ap, String, Bool, true, false, Option, some, if◌then◌else◌, arith, Bool-cases,
  inl, inr,
}
use cerebri_cubs.Prelude.Int.{ℤ, pos, negsuc}
use cerebri_cubs.OuterLoop.{OuterLoopState, zeroed_model}
use cerebri_cubs.Csyn.{Csyn}
use cerebri_cubs.Odometry.{OdometryStatus, zeroed_odometry}
use cerebri_cubs.Runtime.{
  RuntimeControl, cleared, init_state, service_keys, cubs2_runtime_control_init,
}
use cerebri_cubs.Runtime.Start.{all_accepted, register_all_lem}
use cerebri_cubs.Zros.{
  Zros, is_zero, sil_pubs_init, sil_pubs_init-AllStart, AllStart, sil_topics, sil_subscriptions,
}
use cerebri_cubs.Lockstep.{Build, Shared, Sequence, Host, Link, Started, cubs2_lockstep_start}
use cerebri_cubs.Sil.{Context}

module _ (csyn : Csyn) (q : Sequence csyn) where
  open csyn use {efmi_init, efmi_recalibrate, no_outputs}

  -- What the modules outside the repository answer to `main`. `status` is the one whose value is 0.
  pub record World : Type 0 where
    pub register : String → Bool
    pub zros : Zros
    pub host : Host csyn
    pub zeroed_shared : Shared csyn
    pub status : OdometryStatus

  abbrev pub zeroed_context : OdometryStatus → RuntimeControl → OuterLoopState → Context csyn
  zeroed_context status runtime model = record {
    both = record { runtime = runtime; model = model };
    odometry = zeroed_odometry status;
    manual = record { valid = false; rc = λ channel. pos 0 };
    control_rc = λ channel. pos 0;
    pwm_outputs = no_outputs;
    main_loop_us = 0;
    lockstep_time_us = 0;
    next_control_time_us = 0;
    estimator_control_steps = 0;
    lockstep_time_valid = false;
    previous_auto_mode = false;
  }

  -- `main` returns a code, or comes to its loop.
  pub data Start : Type 0 where
    stops : ℤ → Start
    loops : Context csyn → Option (Link csyn q) → Start

  abbrev linked : Context csyn → Started csyn q → Start
  linked ctx started = if is_zero started.rc then loops ctx started.link else stops started.rc

  abbrev published : Build → World → Context csyn → ℤ → Start
  published build world ctx rc =
      if is_zero rc
      then linked ctx (cubs2_lockstep_start csyn q build world.host world.zeroed_shared)
      else stops rc

  unfoldable pub start : Build → World → Start
  start build world =
      let model = efmi_recalibrate (efmi_init zeroed_model) in
      let (runtime, keys, registered) =
        cubs2_runtime_control_init world.register cleared (some model) in
      if registered
      then published build world (zeroed_context world.status runtime model)
          (sil_pubs_init world.zros)
      else stops (negsuc 0)

  -- Everything that `main` needs is there.
  pub record Ready (build : Build) (world : World) : Type 0 where
    pub services : all_accepted world.register service_keys ≡ true
    pub publishers : AllStart world.zros.publish sil_topics
    pub subscribers : AllStart world.zros.subscribe sil_subscriptions
    pub transport : (cubs2_lockstep_start csyn q build world.host world.zeroed_shared).rc ≡ pos 0

  -- The context that the first pass finds.
  abbrev pub first_context : World → Context csyn
  first_context world =
      let model = efmi_recalibrate (efmi_init zeroed_model) in
      zeroed_context world.status (init_state model) model

  -- The answer of `cubs2_runtime_control_init` decided.
  start_registered :
      (build : Build) (world : World)
      → start build world ≡ (
          if all_accepted world.register service_keys
          then published build world (first_context world) (sil_pubs_init world.zros)
          else stops (negsuc 0))
  unfolding start cubs2_runtime_control_init
  start_registered build world =
      ap
        (λ (registered : Bool).
          if registered
          then published build world (first_context world) (sil_pubs_init world.zros)
          else stops (negsuc 0))
        (register_all_lem world.register service_keys)

  published_cases :
      (build : Build) (world : World) (first ctx : Context csyn) (rc : ℤ)
      (link : Option (Link csyn q))
      → published build world first rc ≡ loops ctx link
      → (rc ≡ pos 0)
        × ((cubs2_lockstep_start csyn q build world.host world.zeroed_shared).rc ≡ pos 0)
        × (first ≡ ctx)
        × ((cubs2_lockstep_start csyn q build world.host world.zeroed_shared).link ≡ link)
  published_cases build world first ctx rc link h = ground arith

  pub start_cases :
      (build : Build) (world : World) (ctx : Context csyn) (link : Option (Link csyn q))
      → start build world ≡ loops ctx link
      → Ready build world
        × (first_context world ≡ ctx)
        × ((cubs2_lockstep_start csyn q build world.host world.zeroed_shared).link ≡ link)
  start_cases build world ctx link h =
      elim (Bool-cases (all_accepted world.register service_keys)) [
        | inl services ↦
            let rest =
              published_cases build world (first_context world) ctx (sil_pubs_init world.zros) link
                (rw (start_registered build world, services) at h) in
            let topics = (sil_pubs_init-AllStart world.zros).0 rest.0 in
            (
              record {
                services = services;
                publishers = topics.0;
                subscribers = topics.1;
                transport = rest.1;
              },
              rest.2,
              rest.3,
            )
        | inr refused ↦ cc (rw (start_registered build world, refused) at h)
      ]

  pub start_loops :
      (build : Build) (world : World)
      → Ready build world
      → start build world
        ≡ loops
            (first_context world)
            (cubs2_lockstep_start csyn q build world.host world.zeroed_shared).link
  start_loops build world ready =
      rw
        (
          start_registered build world,
          ready.services,
          (sil_pubs_init-AllStart world.zros).1 (ready.publishers, ready.subscribers),
          ready.transport,
        )
        refl

  -- `main` of src/main_sil.c comes to its loop exactly if all three services are registered, all
  -- publishers and subscribers are initialised, and the transport starts without an error.
  pub start-Ready :
      (build : Build) (world : World)
      → ((ctx : Context csyn) × (link : Option (Link csyn q)) × (start build world
            ≡ loops ctx link))
        ↔ Ready build world
  start-Ready build world = (
    (λ (ctx, link, runs). (start_cases build world ctx link runs).0),
    (λ ready. (_, _, start_loops build world ready)),
  )
