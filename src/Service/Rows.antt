-- ===== src/Service/Rows.antt =====
-- The rows of the way points that `handle_trajectory_set` takes from the segments
-- (src/runtime_control.c:507-514).
use mathlib.Core.Path.{subst, ap}
use cerebri_cubs.Prelude.{
  ℕ, zero, suc, ◌+◌, ◌≤◌, ◌<◌, ◌≡◌, ◌≢◌, refl, false, Option, none, some, List, [], ◌∷◌, arith,
  ◌==◌, if◌then◌else◌, ◌∙◌,
}
use cerebri_cubs.Route.{Waypoints}
use cerebri_cubs.Float.{widen}
use cerebri_cubs.Flatcc.{Vec3f, Segment}
use cerebri_cubs.Service.{points, put_point, put_segment, check_segments, no_waypoints}
use cerebri_cubs.Service.Segments.{check_segments_cons, check_segments_nil}

abbrev pub get_elem? {ℓ} : {A : Type ℓ} → List A → ℕ → Option A
get_elem? [] i = none
get_elem? (x ∷ xs) zero = some x
get_elem? (x ∷ xs) (suc i) = get_elem? xs i

abbrev pub coordinate : Vec3f → ℕ → ℕ
coordinate p zero = p.x
coordinate p (suc zero) = p.y
coordinate p (suc (suc n)) = p.z

abbrev first_point : Waypoints → ℕ → Segment → Waypoints
first_point w i s = if i == 0 then put_point w 0 s.p0_enu_m else w

put_point_self :
    (w : Waypoints) (row column : ℕ) (p : Vec3f)
    → column < 3
    → put_point w row p row column ≡ widen (coordinate p column)
put_point_self w row zero p h = ground arith
put_point_self w row (suc zero) p h = ground arith
put_point_self w row (suc (suc zero)) p h = ground arith
put_point_self w row (suc (suc (suc column))) p h = absurd (omega arith)

put_point_ne :
    (w : Waypoints) (row other column : ℕ) (p : Vec3f)
    → row ≢ other
    → put_point w row p other column ≡ w other column
put_point_ne w row other column p ne = ground arith

put_segment_end :
    (w : Waypoints) (i column : ℕ) (s : Segment)
    → column < 3
    → put_segment w i s (i + 1) column ≡ widen (coordinate s.p1_enu_m column)
put_segment_end w i column s h = put_point_self (first_point w i s) (i + 1) column s.p1_enu_m h

put_segment_kept :
    (w : Waypoints) (i row column : ℕ) (s : Segment)
    → 1 ≤ i
    → row ≤ i
    → put_segment w i s row column ≡ w row column
put_segment_kept w i row column s h le =
    let later : (i == 0) ≡ false = ground arith in
    put_point_ne (first_point w i s) (i + 1) row column s.p1_enu_m (omega arith) ∙ rw later

put_segment_start :
    (w : Waypoints) (column : ℕ) (s : Segment)
    → column < 3
    → put_segment w 0 s 0 column ≡ widen (coordinate s.p0_enu_m column)
put_segment_start w column s h =
    put_point_ne (first_point w 0 s) 1 0 column s.p1_enu_m (omega arith)
    ∙ put_point_self w 0 column s.p0_enu_m h

-- After the first segment the rows that are written are not written again.
check_segments_kept :
    (i : ℕ) (list : List Segment) (w v : Waypoints)
    → check_segments i list w ≡ points v
    → (row column : ℕ) → 1 ≤ i
    → row ≤ i
    → v row column ≡ w row column
check_segments_kept i [] w v h row column one le =
    subst (λ u. u row column ≡ w row column) (check_segments_nil i w v h) refl
check_segments_kept i (s ∷ rest) w v h row column one le =
    let (ok, later) = check_segments_cons i s rest w v h in
    check_segments_kept (i + 1) rest (put_segment w i s) v later row column (omega arith)
      (omega arith)
    ∙ put_segment_kept w i row column s one le

check_segments_end :
    (i : ℕ) (list : List Segment) (w v : Waypoints)
    → check_segments i list w ≡ points v
    → (k column : ℕ) (s : Segment) → get_elem? list k ≡ some s
    → column < 3
    → v (i + k + 1) column ≡ widen (coordinate s.p1_enu_m column)
check_segments_end i [] w v h k column s at fits = cc
check_segments_end i (t ∷ rest) w v h zero column s at fits =
    let (ok, later) = check_segments_cons i t rest w v h in
    let row : i + 0 + 1 ≡ i + 1 = omega arith in
    let same : t ≡ s = cc in
    rw row (
      check_segments_kept (i + 1) rest (put_segment w i t) v later (i + 1) column (omega arith)
        (omega arith)
      ∙ put_segment_end w i column t fits
      ∙ ap (λ (u : Segment). widen (coordinate u.p1_enu_m column)) same)
check_segments_end i (t ∷ rest) w v h (suc k) column s at fits =
    let (ok, later) = check_segments_cons i t rest w v h in
    let row : i + suc k + 1 ≡ i + 1 + k + 1 = omega arith in
    rw row (check_segments_end (i + 1) rest (put_segment w i t) v later k column s at fits)

-- The way points of a list that passes: row 0 is the start of the first segment, and row `k + 1` the
-- end of segment `k`, each coordinate as a double.
pub record Follows (list : List Segment) (w : Waypoints) : Type 0 where
  pub from :
      (s : Segment)
      → get_elem? list 0 ≡ some s
      → (column : ℕ) → column < 3
      → w 0 column ≡ widen (coordinate s.p0_enu_m column)
  pub to :
      (k : ℕ) (s : Segment)
      → get_elem? list k ≡ some s
      → (column : ℕ) → column < 3
      → w (k + 1) column ≡ widen (coordinate s.p1_enu_m column)

check_segments_start :
    (list : List Segment) (v : Waypoints)
    → check_segments 0 list no_waypoints ≡ points v
    → (s : Segment) → get_elem? list 0 ≡ some s
    → (column : ℕ) → column < 3
    → v 0 column ≡ widen (coordinate s.p0_enu_m column)
check_segments_start [] v h s at column fits = cc
check_segments_start (t ∷ rest) v h s at column fits =
    let (ok, later) = check_segments_cons 0 t rest no_waypoints v h in
    let same : t ≡ s = cc in
    check_segments_kept (0 + 1) rest (put_segment no_waypoints 0 t) v later 0 column (omega arith)
      (omega arith)
    ∙ put_segment_start no_waypoints column t fits
    ∙ ap (λ (u : Segment). widen (coordinate u.p0_enu_m column)) same

pub check_segments-Follows :
    (list : List Segment) (v : Waypoints)
    → check_segments 0 list no_waypoints ≡ points v
    → Follows list v
check_segments-Follows list v h = record {
  from = check_segments_start list v h;
  to = λ k s at column fits.
      let row : 0 + k + 1 ≡ k + 1 = omega arith in
      rw row at (check_segments_end 0 list no_waypoints v h k column s at fits);
}
