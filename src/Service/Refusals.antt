-- ===== src/Service/Refusals.antt =====
-- The reply of `handle_trajectory_set` to a segment that fails the test
-- (src/runtime_control.c:489-505).
use mathlib.Core.Path.{subst}
use cerebri_cubs.Prelude.{
  ℕ, ◌+◌, ◌≤◌, ◌≡◌, refl, true, false, not, ◌||◌, Option, some, List, [], ◌∷◌, arith, ltb, ◌==◌,
  inl, inr, Bool-cases,
}
use cerebri_cubs.Route.{Waypoints, max_segments}
use cerebri_cubs.Flatcc.{Bytes, Segment, denied, Flatcc}
use cerebri_cubs.Reply.{length, build_trajectory_reply}
use cerebri_cubs.Runtime.{RuntimeControl}
use cerebri_cubs.Service.{
  refused, segment_ok, minus, check_segments, no_waypoints, read_trajectory_set, stage_checked,
  answer_trajectory_set, handle_trajectory_set,
}

-- In a list whose first segment has index `i`, the one with index `bad` fails the test, and none before
-- it does.
pub data FirstBad (bad : ℕ) : ℕ → List Segment → Type 0 where
  here :
      {s : Segment} {rest : List Segment} → segment_ok bad s ≡ false → FirstBad bad bad (s ∷ rest)
  later :
      {i : ℕ} {s : Segment} {rest : List Segment}
      → segment_ok i s ≡ true
      → FirstBad bad (i + 1) rest
      → FirstBad bad i (s ∷ rest)

pub FirstBad-refused :
    (bad i : ℕ) (list : List Segment) (w : Waypoints)
    → FirstBad bad i list
    → check_segments i list w ≡ refused bad
unfolding check_segments
FirstBad-refused bad i list w (here fails) = rw fails refl
FirstBad-refused bad i list w (later {rest = rest} ok more) =
    rw ok (FirstBad-refused bad (i + 1) rest _ more)

pub refused-FirstBad :
    (bad i : ℕ) (list : List Segment) (w : Waypoints)
    → check_segments i list w ≡ refused bad
    → FirstBad bad i list
unfolding check_segments
refused-FirstBad bad i [] w h = cc
refused-FirstBad bad i (s ∷ rest) w h = elim (Bool-cases (segment_ok i s)) [
  | inl ok ↦ later ok (refused-FirstBad bad (i + 1) rest _ (rw ok at h))
  | inr fails ↦
      let same : i ≡ bad = cc (rw fails at h) in
      subst (λ (b : ℕ). FirstBad b i (s ∷ rest)) same (here fails)
]

module _ (f : Flatcc) where
  open f use {TrajectorySetRequest, total}

  -- A complete request for a trajectory with 1 to CUBS2_MAX_SEGMENTS segments, as many as it
  -- announces, of which one fails the test and none before it does, changes nothing and is denied
  -- with detail -3 and the index of that segment.
  pub trajectory_set_denies :
      (r : RuntimeControl) (request : Option Bytes) (capacity bad : ℕ) (root : TrajectorySetRequest)
      (list : List Segment)
      → read_trajectory_set f request ≡ some (root, list)
      → 1 ≤ length list
      → length list ≤ max_segments
      → total root ≡ length list
      → FirstBad bad 0 list
      → handle_trajectory_set f r request capacity
        ≡ (r, build_trajectory_reply f capacity denied r.plan_version (minus 3) bad)
  unfolding handle_trajectory_set answer_trajectory_set stage_checked
  trajectory_set_denies r request capacity bad root list reads one few complete first =
      let right : (length list == 0
            || ltb max_segments (length list)
            || not (total root == length list))
          ≡ false =
        ground arith in
      rw (reads, right, FirstBad-refused bad 0 list no_waypoints first) refl
