-- ===== src/Service/Segments.antt =====
-- The loop of `handle_trajectory_set` over the segments (src/runtime_control.c:489-515).
use mathlib.Core.Path.{subst, ap}
use cerebri_cubs.Prelude.{
  ℕ, ◌+◌, ◌≡◌, true, List, [], ◌∷◌, arith, inl, inr, ◌==◌, Bool-cases, &&-true,
}
use cerebri_cubs.Route.{Waypoints}
use cerebri_cubs.Float.{widen-IsNumber}
use cerebri_cubs.Flatcc.{Vec3f, Segment}
use cerebri_cubs.Runtime.Inv.{IsNumber}
use cerebri_cubs.Service.{
  Checked, refused, points, is_finite_point, segment_ok, put_point, put_segment, check_segments,
  no_waypoints,
}

AreNumbers : Waypoints → Type 0
AreNumbers w = (row column : ℕ) → IsNumber (w row column)

put_point-AreNumbers :
    (w : Waypoints) (row : ℕ) (p : Vec3f)
    → is_finite_point p ≡ true
    → AreNumbers w
    → AreNumbers (put_point w row p)
unfolding AreNumbers
put_point-AreNumbers w row p h n i j =
    ground (arith, n i j, widen-IsNumber p.x, widen-IsNumber p.y, widen-IsNumber p.z)

segment_points :
    (i : ℕ) (s : Segment)
    → segment_ok i s ≡ true
    → (is_finite_point s.p0_enu_m ≡ true) × (is_finite_point s.p1_enu_m ≡ true)
segment_points i s h =
    let (rest, p1) = &&-true _ _ h in let (rest', p0) = &&-true _ _ rest in (p0, p1)

put_segment-AreNumbers :
    (w : Waypoints) (i : ℕ) (s : Segment)
    → segment_ok i s ≡ true
    → AreNumbers w
    → AreNumbers (put_segment w i s)
put_segment-AreNumbers w i s ok n =
    let (p0, p1) = segment_points i s ok in
    elim (Bool-cases (i == 0)) [
      | inl e ↦
          rw e (
            put_point-AreNumbers _ (i + 1) s.p1_enu_m p1 (put_point-AreNumbers w 0 s.p0_enu_m p0 n))
      | inr e ↦ rw e (put_point-AreNumbers w (i + 1) s.p1_enu_m p1 n)
    ]

-- A list that passes, from index `i` on: its first segment is in order, and the rest passes.
pub check_segments_cons :
    (i : ℕ) (s : Segment) (rest : List Segment) (w v : Waypoints)
    → check_segments i (s ∷ rest) w ≡ points v
    → (segment_ok i s ≡ true) × (check_segments (i + 1) rest (put_segment w i s) ≡ points v)
unfolding check_segments
check_segments_cons i s rest w v h = elim (Bool-cases (segment_ok i s)) [
  | inl ok ↦ (ok, rw ok at h)
  | inr bad ↦ cc (rw bad at h)
]

points_of : Checked → Waypoints
points_of (refused i) = no_waypoints
points_of (points w) = w

pub check_segments_nil : (i : ℕ) (w v : Waypoints) → check_segments i [] w ≡ points v → w ≡ v
unfolding check_segments points_of
check_segments_nil i w v h = ap points_of h

pub check_segments-AreNumbers :
    (i : ℕ) (list : List Segment) (w v : Waypoints)
    → check_segments i list w ≡ points v
    → ((row column : ℕ) → IsNumber (w row column))
    → (row column : ℕ) → IsNumber (v row column)
check_segments-AreNumbers i [] w v h n =
    subst (λ u. (row column : ℕ) → IsNumber (u row column)) (check_segments_nil i w v h) n
check_segments-AreNumbers i (s ∷ rest) w v h n =
    let (ok, later) = check_segments_cons i s rest w v h in
    check_segments-AreNumbers (i + 1) rest (put_segment w i s) v later
      (unfold AreNumbers in put_segment-AreNumbers w i s ok n)
