-- ===== src/Session.antt =====
-- The runtime control over time: queries in any order and with any contents, cycle boundaries and
-- restarts of the controller (src/runtime_control.c as a whole, as main_sil.c and main_realtime.c
-- call it).
use mathlib.Core.Path.{subst}
use cerebri_cubs.Prelude.{
  ℕ, ◌^◌, ◌<◌, ◌≤◌, ◌⊎◌, inl, inr, ◌≡◌, refl, sym, ap, ◌∙◌, String, true, Option, some, List, [],
  ◌∷◌, arith,
}
use cerebri_cubs.Prelude.Int.{pos}
use cerebri_cubs.AtomicDouble.{Double}
use cerebri_cubs.AtomicDouble.RoundTrip.{value_of, value_of-store}
use cerebri_cubs.OuterLoop.{OuterLoopState}
use cerebri_cubs.Params.{find_value}
use cerebri_cubs.Params.Table.{values_size}
use cerebri_cubs.Params.Names.{find_value_sound}
use cerebri_cubs.Params.Leaves.{LeavesHold}
use cerebri_cubs.Route.{Waypoints, max_segments}
use cerebri_cubs.Route.Replace.{Flies}
use cerebri_cubs.Flatcc.{Bytes, accepted, Segment, Flatcc}
use cerebri_cubs.Reply.{Reply, length, build_param_get_reply}
use cerebri_cubs.Runtime.{RuntimeControl, Both, apply_staged, restore, init_state}
use cerebri_cubs.Runtime.Inv.{is_finite, IsNumber, Inv, values_of}
use cerebri_cubs.Runtime.Start.{init_state-Inv}
use cerebri_cubs.Runtime.Rounds.{InEffect}
use cerebri_cubs.Runtime.Boundary.{
  apply_staged-Inv, apply_staged-Taken, apply_staged-Flies, Flies-points,
}
use cerebri_cubs.Runtime.Restart.{restore-Inv}
use cerebri_cubs.Service.{
  stage_value, stage_mission, read_param_set, read_param_get, handle_param_set, handle_param_get,
  runtime_query, handle_trajectory_set, read_trajectory_set, no_waypoints,
}
use cerebri_cubs.Service.Staged.{stage_value-Inv, stage_mission-Inv}
use cerebri_cubs.Service.ParamSet.{DoublesFit, read_fits, param_set_accepts}
use cerebri_cubs.Service.ParamGet.{param_get_lem}
use cerebri_cubs.Service.Segments.{check_segments-AreNumbers}
use cerebri_cubs.Service.Rows.{Follows, check_segments-Follows}
use cerebri_cubs.Service.Trajectory.{trajectory_set_effect}
use cerebri_cubs.Service.Query.{runtime_query-Inv}

-- `fresh` is the controller after EFMI_INIT and EFMI_RECALIBRATE.
pub data Event : Type 0 where
  query : (service : String) (request : Option Bytes) (capacity : ℕ) → Event
  boundary : Event
  restart : (fresh : OuterLoopState) → Event

module _ (f : Flatcc) where
  pub step : Both → Event → Both
  step b (query service request capacity) = record b {
    runtime = (runtime_query f service b.runtime request capacity).0;
  }
  step b boundary = apply_staged b
  step b (restart fresh) = restore (record { runtime = b.runtime; model = fresh })

  pub run : Both → List Event → Both
  run b [] = b
  run b (e ∷ rest) = run (step b e) rest

  step-Inv : DoublesFit f → (b : Both) (e : Event) → Inv b.runtime → Inv (step b e).runtime
  unfolding step
  step-Inv fits b (query service request capacity) inv =
      runtime_query-Inv f fits service b.runtime request capacity inv
  step-Inv fits b boundary inv = apply_staged-Inv b inv
  step-Inv fits b (restart fresh) inv = restore-Inv _ inv

  run-Inv :
      DoublesFit f → (b : Both) (events : List Event) → Inv b.runtime → Inv (run b events).runtime
  unfolding run
  run-Inv fits b [] inv = inv
  run-Inv fits b (e ∷ rest) inv = run-Inv fits (step b e) rest (step-Inv fits b e inv)

  -- From the start on, after any sequence of queries with any contents, cycle boundaries and
  -- restarts of the controller, and if every double of a request is a 64-bit pattern, the invariant
  -- holds: the plan version is a positive 32-bit number, the writer's flag is free and no slot is
  -- left half stored between calls, and everything staged or applied is finite, with routes of 1 to
  -- CUBS2_MAX_SEGMENTS segments.
  pub session-Inv :
      DoublesFit f
      → (model : OuterLoopState) (events : List Event)
      → Inv (run (record { runtime = init_state model; model = model }) events).runtime
  session-Inv fits model events = run-Inv fits _ events (init_state-Inv model).0

  pub staged_here :
      (r : RuntimeControl) (index : ℕ) (number : Double)
      → number < 2 ^ 64
      → ((stage_value r index number).pending_value_set index ≡ true)
        × (value_of ((stage_value r index number).pending_values index) ≡ number)
  unfolding stage_value
  staged_here r index number fits =
      (ground arith, ground (arith, value_of-store (r.pending_values index) number fits))

  -- Value `index` is `number`: in both leaves of the controller, and for a query of `name'`.
  abbrev pub Answers : Both → Option Bytes → ℕ → String → ℕ → Double → Type 0
  Answers c get capacity name' index number =
      LeavesHold c.model index number
      × (handle_param_get f c.runtime get capacity
          ≡ (c.runtime, build_param_get_reply f capacity accepted name' number (pos 0)))

  effect-Answers :
      (c : Both) (get : Option Bytes) (capacity : ℕ) (name' : String) (index : ℕ) (number : Double)
      → Inv c.runtime
      → InEffect index number c
      → read_param_get f get ≡ some name'
      → find_value name' ≡ some index
      → Answers c get capacity name' index number
  effect-Answers c get capacity name' index number inv e reads finds = (
    e.leaves,
    param_get_lem f c.runtime get capacity name' index reads finds (inv.live.idle index)
        ∙ ap
            (λ (x : Double). (c.runtime, build_param_get_reply f capacity accepted name' x (pos 0)))
            e.query,
  )

  staged_effect :
      (b : Both) (index : ℕ) (number : Double)
      → Inv b.runtime
      → index < values_size
      → IsNumber number
      → InEffect index number
          (apply_staged (record b { runtime = stage_value b.runtime index number }))
  staged_effect b index number inv lt n =
      let staged = record b { runtime = stage_value b.runtime index number } in
      let (set, value) = staged_here b.runtime index number n.0 in
      subst (λ x. InEffect index x (apply_staged staged)) value
        ((apply_staged-Taken staged index (stage_value-Inv b.runtime index number inv lt n)
            lt).staged
          set)

  -- The state at the next cycle boundary after a request to set a parameter.
  abbrev pub after_set : Both → Option Bytes → ℕ → Both
  after_set b set capacity =
      apply_staged (record b { runtime = (handle_param_set f b.runtime set capacity).0 })

  -- In a state of the invariant, a request that sets a finite number under one name puts it in
  -- effect at the next cycle boundary, in both leaves of the controller, and a query then answers
  -- it under every name that stands for the same value, if every double of a request is a 64-bit
  -- pattern.
  pub set_apply_get :
      DoublesFit f
      → (b : Both) (set get : Option Bytes) (capacity : ℕ) (name name' : String) (number : Double)
        (index : ℕ)
      → Inv b.runtime
      → read_param_set f set ≡ some (name, number)
      → find_value name ≡ some index
      → is_finite number ≡ true
      → read_param_get f get ≡ some name'
      → find_value name' ≡ some index
      → Answers (after_set b set capacity) get capacity name' index number
  set_apply_get fits b set get capacity name name' number index inv reads finds finite reads'
        finds' =
      let lt = (find_value_sound name index finds).0 in
      let n : IsNumber number = (read_fits f fits set name number reads, finite) in
      let accepted_set =
        param_set_accepts f b.runtime set capacity name number index reads finds finite
          inv.unlocked in
      subst
        (λ (r : RuntimeControl).
          Answers (apply_staged (record b { runtime = r })) get capacity name' index number)
        (sym (ap (λ (t : RuntimeControl × Reply). t.0) accepted_set))
        (effect-Answers _ get capacity name' index number
          (apply_staged-Inv (record b { runtime = stage_value b.runtime index number })
            (stage_value-Inv b.runtime index number inv lt n))
          (staged_effect b index number inv lt n) reads' finds')

  -- The state at the next cycle boundary after a request to set the trajectory.
  abbrev pub after_trajectory : Both → Option Bytes → ℕ → Both
  after_trajectory b request capacity =
      apply_staged (record b { runtime = (handle_trajectory_set f b.runtime request capacity).0 })

  staged_mission-Flies :
      (b : Both) (w : Waypoints) (count : ℕ)
      → Inv b.runtime
      → 1 ≤ count
      → count ≤ max_segments
      → ((row column : ℕ) → IsNumber (w row column))
      → Flies w count (apply_staged (record b { runtime = stage_mission b.runtime w count })).model
  staged_mission-Flies b w count inv one few numbers =
      let staged = record b { runtime = stage_mission b.runtime w count } in
      let (inv', rows) = stage_mission-Inv b.runtime w count inv one few numbers in
      Flies-points w (values_of (stage_mission b.runtime w count).pending_waypoints) count _
        (omega arith) (λ row column below fits. rows row column below fits)
        (unfold stage_mission in (apply_staged-Flies staged inv' refl).0)

  -- In a state of the invariant, a request for a trajectory either changes nothing, or at the next
  -- cycle boundary the controller flies a route with as many segments as the request has, whose
  -- points are the start of its first segment and the ends of all of them.
  pub set_trajectory_apply :
      (b : Both) (request : Option Bytes) (capacity : ℕ)
      → Inv b.runtime
      → ((handle_trajectory_set f b.runtime request capacity).0 ≡ b.runtime)
        ⊎ ((root : f.TrajectorySetRequest) × (list : List Segment) × (w : Waypoints)
            × (read_trajectory_set f request ≡ some (root, list))
            × Follows list w
            × Flies w (length list) (after_trajectory b request capacity).model)
  set_trajectory_apply b request capacity inv =
      elim (trajectory_set_effect f b.runtime request capacity) [
        | inl (same, _) ↦ inl same
        | inr a ↦ inr (
          a.root,
          a.list,
          a.route,
          a.reads,
          check_segments-Follows a.list a.route a.checked,
          subst
              (λ (r : RuntimeControl).
                Flies a.route (length a.list) (apply_staged (record b { runtime = r })).model)
              (sym (ap (λ (t : RuntimeControl × Reply). t.0) a.result))
              (staged_mission-Flies b a.route (length a.list) inv a.some_segment a.few_segments (
                check_segments-AreNumbers 0 a.list no_waypoints a.route a.checked
                  (λ i j. (omega arith, refl)))),
        )
      ]
