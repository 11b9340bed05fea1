-- ===== src/Service/Trajectory.antt =====
-- `handle_trajectory_set` (src/runtime_control.c:455-556): what a request may change, and the test of
-- the plan version against lost updates.
use cerebri_cubs.Prelude.{
  ℕ, ◌≤◌, ◌≡◌, ◌≢◌, refl, sym, ap, ◌∙◌, Bool, true, false, not, ◌&&◌, ◌||◌, Option, none, some,
  List, arith, ◌⊎◌, inl, inr, ltb, ◌==◌, Bool-cases,
}
use cerebri_cubs.Prelude.Int.{pos}
use cerebri_cubs.Route.{Waypoints, max_segments}
use cerebri_cubs.Flatcc.{Bytes, accepted, Segment, Flatcc}
use cerebri_cubs.Reply.{Reply, length, build_trajectory_reply}
use cerebri_cubs.Runtime.{RuntimeControl}
use cerebri_cubs.Runtime.Inv.{Inv}
use cerebri_cubs.Service.{
  Checked, refused, points, check_segments, no_waypoints, stage_mission, next_version,
  read_trajectory_set, stage_checked, answer_trajectory_set, handle_trajectory_set,
}
use cerebri_cubs.Service.Refusals.{FirstBad, refused-FirstBad}
use cerebri_cubs.Service.Segments.{check_segments-AreNumbers}
use cerebri_cubs.Service.Staged.{stage_mission-Inv, next_version-IsVersion}

module _ (f : Flatcc) where
  open f use {TrajectorySetRequest, total, expected_plan_version}

  -- The request has 1 to CUBS2_MAX_SEGMENTS segments, as many as it announces, that all pass the test,
  -- the writer's flag is free, and the expected plan version is none or the one in force.
  pub record Passes (r : RuntimeControl) (root : TrajectorySetRequest) (list : List Segment)
      : Type 0 where
    pub some_segment : 1 ≤ length list
    pub few_segments : length list ≤ max_segments
    pub complete : total root ≡ length list
    pub all_ok : (bad : ℕ) → ¬ FirstBad bad 0 list
    pub free : r.command_writer ≡ false
    pub current : (expected_plan_version root ≡ 0) ⊎ (expected_plan_version root ≡ r.plan_version)

  abbrev pub Stageable : RuntimeControl → Option (TrajectorySetRequest × List Segment) → Type 0
  Stageable r none = ⊥
  Stageable r (some (root, list)) = Passes r root list

  -- What an accepted request holds, and what it stages and replies.
  pub record MissionAccepted (r : RuntimeControl)
      (read : Option (TrajectorySetRequest × List Segment)) (capacity : ℕ)
      (after : RuntimeControl × Reply) : Type 0 where
    pub root : TrajectorySetRequest
    pub list : List Segment
    pub route : Waypoints
    pub reads : read ≡ some (root, list)
    pub some_segment : 1 ≤ length list
    pub few_segments : length list ≤ max_segments
    pub complete : total root ≡ length list
    pub checked : check_segments 0 list no_waypoints ≡ points route
    pub free : r.command_writer ≡ false
    pub current : (expected_plan_version root ≡ 0) ⊎ (expected_plan_version root ≡ r.plan_version)
    pub result : after ≡ (
      stage_mission r route (length list),
      build_trajectory_reply f capacity accepted (next_version r.plan_version) (pos 0) 0,
    )

  -- Releasing a free flag changes nothing.
  released :
      (r : RuntimeControl) → r.command_writer ≡ false → record r { command_writer = false } ≡ r
  released r free = ap (λ (b : Bool). record r { command_writer = b }) (sym free)

  -- The tests of the flag and of the version.
  stage_points :
      (r : RuntimeControl) (capacity expected count : ℕ) (w : Waypoints)
      → (((stage_checked f r capacity expected count (points w)).0 ≡ r)
          × ¬ ((r.command_writer ≡ false) × ((expected ≡ 0) ⊎ (expected ≡ r.plan_version))))
        ⊎ ((r.command_writer ≡ false)
            × ((expected ≡ 0) ⊎ (expected ≡ r.plan_version))
            × (stage_checked f r capacity expected count (points w) ≡ (
              stage_mission r w count,
              build_trajectory_reply f capacity accepted (next_version r.plan_version) (pos 0) 0,
            )))
  unfolding stage_checked
  stage_points r capacity expected count w = elim (Bool-cases r.command_writer) [
    | inl busy ↦ inl (simp busy, λ (free, current). cc)
    | inr free ↦ elim (Bool-cases (not (expected == 0) && not (expected == r.plan_version))) [
      | inl stale ↦ inl (simp (free, stale) (released r free), λ (_, current). ground arith)
      | inr current ↦ inr (free, ground arith, simp (free, current) (unfold stage_mission in refl))
    ]
  ]

  stage_cases :
      (r : RuntimeControl) (capacity : ℕ) (root : TrajectorySetRequest) (list : List Segment)
      (c : Checked)
      → check_segments 0 list no_waypoints ≡ c
      → 1 ≤ length list
      → length list ≤ max_segments
      → total root ≡ length list
      → (((stage_checked f r capacity (expected_plan_version root) (length list) c).0 ≡ r)
          × ¬ Passes r root list)
        ⊎ MissionAccepted r
            (some (root, list))
            capacity
            (stage_checked f r capacity (expected_plan_version root) (length list) c)
  stage_cases r capacity root list (refused i) e one few complete =
      inl (unfold stage_checked in refl, λ p. p.all_ok i (refused-FirstBad i 0 list no_waypoints e))
  stage_cases r capacity root list (points w) e one few complete =
      elim (stage_points r capacity (expected_plan_version root) (length list) w) [
        | inl (same, refuses) ↦ inl (same, λ p. refuses (p.free, p.current))
        | inr (free, current, result) ↦ inr (record {
          root = root;
          list = list;
          route = w;
          reads = refl;
          some_segment = one;
          few_segments = few;
          complete = complete;
          checked = e;
          free = free;
          current = current;
          result = result;
        })
      ]

  counts_wrong : TrajectorySetRequest → List Segment → Bool
  counts_wrong root list =
      length list == 0 || ltb max_segments (length list) || not (total root == length list)

  counts_right :
      (root : TrajectorySetRequest) (list : List Segment)
      → counts_wrong root list ≡ false
      → (1 ≤ length list) × (length list ≤ max_segments) × (total root ≡ length list)
  unfolding counts_wrong
  counts_right root list h = (ground arith, ground arith, ground arith)

  counts_bad :
      (r : RuntimeControl) (root : TrajectorySetRequest) (list : List Segment)
      → counts_wrong root list ≡ true
      → ¬ Passes r root list
  unfolding counts_wrong
  counts_bad r root list h p =
      let one = p.some_segment in
      let few = p.few_segments in let complete = p.complete in ground arith

  answer_cases :
      (r : RuntimeControl) (capacity : ℕ) (read : Option (TrajectorySetRequest × List Segment))
      → (((answer_trajectory_set f r capacity read).0 ≡ r) × ¬ Stageable r read)
        ⊎ MissionAccepted r read capacity (answer_trajectory_set f r capacity read)
  unfolding answer_trajectory_set counts_wrong
  answer_cases r capacity none = inl (refl, λ s. s)
  answer_cases r capacity (some (root, list)) = elim (Bool-cases (counts_wrong root list)) [
    | inl wrong ↦ inl (simp wrong, counts_bad r root list wrong)
    | inr right ↦
        let (one, few, complete) = counts_right root list right in
        rw right (
          stage_cases r capacity root list (check_segments 0 list no_waypoints) refl one few
            complete)
  ]

  -- A request for a trajectory that is complete, has 1 to CUBS2_MAX_SEGMENTS segments, as many as
  -- it announces, none of which fails the test, finds the writer's flag free, and expects no plan
  -- version or the one in force, stages those way points under the next version and is answered
  -- `accepted`; any other changes nothing.
  pub trajectory_set_effect :
      (r : RuntimeControl) (request : Option Bytes) (capacity : ℕ)
      → (((handle_trajectory_set f r request capacity).0 ≡ r)
          × ¬ Stageable r (read_trajectory_set f request))
        ⊎ MissionAccepted r
            (read_trajectory_set f request)
            capacity
            (handle_trajectory_set f r request capacity)
  unfolding handle_trajectory_set
  trajectory_set_effect r request capacity = answer_cases r capacity (read_trajectory_set f request)

  pub trajectory_set-Inv :
      (r : RuntimeControl) (request : Option Bytes) (capacity : ℕ)
      → Inv r
      → Inv (handle_trajectory_set f r request capacity).0
  trajectory_set-Inv r request capacity inv = elim (trajectory_set_effect r request capacity) [
    | inl (same, _) ↦ rw same inv
    | inr a ↦
        rw a.result
          (stage_mission-Inv r a.route (length a.list) inv a.some_segment a.few_segments (
            check_segments-AreNumbers 0 a.list no_waypoints a.route a.checked
              (λ i j. (omega arith, refl)))).0
  ]

  same_root :
      (root root' : TrajectorySetRequest) (list list' : List Segment)
      → ◌≡◌ {A = Option (TrajectorySetRequest × List Segment)}
          (some (root, list))
          (some (root', list'))
      → expected_plan_version root ≡ expected_plan_version root'
  same_root root root' list list' e = cc

  staged_version :
      (r : RuntimeControl) (w : Waypoints) (count : ℕ)
      → (stage_mission r w count).plan_version ≡ next_version r.plan_version
  unfolding stage_mission
  staged_version r w count = refl

  -- An accepted request that expects a version expects the one in force, and leaves the next one.
  accepted_version :
      (r : RuntimeControl) (read : Option (TrajectorySetRequest × List Segment)) (capacity : ℕ)
      (after : RuntimeControl × Reply) (root : TrajectorySetRequest) (list : List Segment)
      → MissionAccepted r read capacity after
      → read ≡ some (root, list)
      → expected_plan_version root ≢ 0
      → (expected_plan_version root ≡ r.plan_version)
        × (after.0.plan_version ≡ next_version r.plan_version)
  accepted_version r read capacity after root list a e some_version =
      let same = same_root a.root root a.list list (sym a.reads ∙ e) in
      (
        ground (arith, a.current, same),
        ap (λ (t : RuntimeControl × Reply). t.0.plan_version) a.result
            ∙ staged_version r a.route (length a.list),
      )

  -- In a state of the invariant, of two requests that expect the same plan version, not 0, at most
  -- one is accepted: once the first has changed anything, the second changes nothing.
  pub no_lost_update :
      (r : RuntimeControl) (first second : Option Bytes) (capacity : ℕ)
      (root₁ root₂ : TrajectorySetRequest) (list₁ list₂ : List Segment)
      → Inv r
      → read_trajectory_set f first ≡ some (root₁, list₁)
      → read_trajectory_set f second ≡ some (root₂, list₂)
      → expected_plan_version root₁ ≡ expected_plan_version root₂
      → expected_plan_version root₂ ≢ 0
      → (handle_trajectory_set f r first capacity).0 ≢ r
      → (handle_trajectory_set f (handle_trajectory_set f r first capacity).0 second capacity).0
        ≡ (handle_trajectory_set f r first capacity).0
  no_lost_update r first second capacity root₁ root₂ list₁ list₂ inv e₁ e₂ same some_version
        changed =
      elim (trajectory_set_effect r first capacity) [
        | inl (unchanged, _) ↦ absurd (changed unchanged)
        | inr a ↦
            elim (trajectory_set_effect (handle_trajectory_set f r first capacity).0 second
              capacity) [
                | inl (same_state, _) ↦ same_state
                | inr b ↦
                    let (now, next) =
                      accepted_version r (read_trajectory_set f first) capacity
                        (handle_trajectory_set f r first capacity) root₁ list₁ a e₁
                        (λ z. some_version (sym same ∙ z)) in
                    let (later, _) =
                      accepted_version (handle_trajectory_set f r first capacity).0
                        (read_trajectory_set f second) capacity
                        (handle_trajectory_set f (handle_trajectory_set f r first capacity).0 second
                          capacity)
                        root₂ list₂ b e₂ some_version in
                    absurd (
                      (next_version-IsVersion r.plan_version inv.plan).1
                        (sym next ∙ sym later ∙ sym same ∙ now))
              ]
      ]
