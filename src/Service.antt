-- ===== src/Service.antt =====
-- src/runtime_control.c:359-574: the three services. A call runs here with no other thread between
-- its accesses; what it leaves for others is in the state, `command_writer` among it.
pub mod Segments
pub mod Rows
pub mod Staged
pub mod ParamSet
pub mod ParamGet
pub mod Trajectory
pub mod Query
pub mod Sequence
pub mod Exclusion
pub mod Refusals
use text.Mathlib.Text.{◌==◌ as str_eq}
use cerebri_cubs.Prelude.{
  ℕ, zero, suc, ◌+◌, String, Bool, true, false, not, ◌&&◌, ◌||◌, ◌≡◌, refl, Option, none, some,
  List, [], ◌∷◌, ltb, ◌==◌, if◌then◌else◌,
}
use cerebri_cubs.Prelude.Int.{ℤ, pos, negsuc}
use cerebri_cubs.Prelude.Loop.{for_to}
use cerebri_cubs.Prelude.Update.{update, update₂}
use cerebri_cubs.AtomicDouble.{
  Double, AtomicDouble, u32, atomic_double_store_value, atomic_double_try_load,
}
use cerebri_cubs.Params.{find_value}
use cerebri_cubs.Route.{Waypoints, max_segments, max_points}
use cerebri_cubs.Float.{is_finite_float, widen}
use cerebri_cubs.Flatcc.{
  Bytes, CommandResultCode, accepted, denied, failed, unsupported, temporarily_rejected, LocalFrame,
  local_enu, other_frame, Vec3f, Segment, Flatcc,
}
use cerebri_cubs.Reply.{
  Reply, length, build_param_set_reply, build_param_get_reply, build_trajectory_reply,
}
use cerebri_cubs.Runtime.{RuntimeControl}
use cerebri_cubs.Runtime.Inv.{is_finite}

abbrev pub ◌>>=◌ {ℓ κ} : {A : Type ℓ} {B : Type κ} → Option A → (A → Option B) → Option B
none >>= f = none
some a >>= f = f a

infixl 5 ◌>>=◌
-- The parts of a chain that succeeds.
pub >>=-eq-some {ℓ κ} :
    {A : Type ℓ} {B : Type κ} (m : Option A) (f : A → Option B) {b : B}
    → (m >>= f) ≡ some b
    → (a : A) × (m ≡ some a) × (f a ≡ some b)
>>=-eq-some none f h = cc
>>=-eq-some (some a) f h = (a, refl, h)

abbrev pub keep_if {ℓ} : {A : Type ℓ} → Bool → A → Option A
keep_if test a = if test then some a else none

-- `-n`, the details of the replies.
abbrev pub minus : ℕ → ℤ
minus zero = pos 0
minus (suc n) = negsuc n

-- What `handle_param_set` does from taking `command_writer`, which it found free, to releasing it.
unfoldable pub stage_value : RuntimeControl → ℕ → Double → RuntimeControl
stage_value r index number = record r {
  pending_values =
      update r.pending_values index (atomic_double_store_value (r.pending_values index) number);
  pending_value_set = update r.pending_value_set index true;
  command_writer = false;
}

-- The loop of `handle_trajectory_set` over the segments from index `i` on: the index of the first
-- that is refused, or the way points.
pub data Checked : Type 0 where
  refused : (failed_seq : ℕ) → Checked
  points : Waypoints → Checked

abbrev pub is_finite_point : Vec3f → Bool
is_finite_point p = is_finite_float p.x && is_finite_float p.y && is_finite_float p.z

abbrev pub is_enu : LocalFrame → Bool
is_enu local_enu = true
is_enu other_frame = false

abbrev pub segment_ok : ℕ → Segment → Bool
segment_ok i s =
    s.segment_seq == i && is_enu s.frame && is_finite_point s.p0_enu_m && is_finite_point s.p1_enu_m

abbrev pub put_point : Waypoints → ℕ → Vec3f → Waypoints
put_point w row p =
    update₂ (update₂ (update₂ w row 0 (widen p.x)) row 1 (widen p.y)) row 2 (widen p.z)

abbrev pub put_segment : Waypoints → ℕ → Segment → Waypoints
put_segment w i s = put_point (if i == 0 then put_point w 0 s.p0_enu_m else w) (i + 1) s.p1_enu_m

unfoldable pub check_segments : ℕ → List Segment → Waypoints → Checked
check_segments i [] w = points w
check_segments i (s ∷ rest) w =
    let later = check_segments (i + 1) rest (put_segment w i s) in
    if segment_ok i s then later else refused i

-- `double waypoints[CUBS2_MAX_POINTS][3] = {0}`
abbrev pub no_waypoints : Waypoints
no_waypoints row column = 0

unfoldable pub store_waypoint : Waypoints → ℕ → ℕ → (ℕ → ℕ → AtomicDouble) → ℕ → ℕ → AtomicDouble
store_waypoint w row column slots =
    update₂ slots row column (atomic_double_store_value (slots row column) (w row column))

unfoldable pub store_row : Waypoints → ℕ → (ℕ → ℕ → AtomicDouble) → ℕ → ℕ → AtomicDouble
unfolding store_waypoint for_to
store_row w row slots = for_to 3 (store_waypoint w row) slots

-- `reply_version++`, past 0 on the wrap.
abbrev pub next_version : ℕ → ℕ
next_version version = let next = u32 (version + 1) in if next == 0 then 1 else next

-- What `handle_trajectory_set` does after the version test, up to the release of `command_writer`.
unfoldable pub stage_mission : RuntimeControl → Waypoints → ℕ → RuntimeControl
stage_mission r w count = record r {
  mission_sequence = u32 (u32 (r.mission_sequence + 1) + 1);
  pending_waypoints = for_to max_points (store_row w) r.pending_waypoints;
  pending_segments = count;
  pending_mission = true;
  plan_version = next_version r.plan_version;
  command_writer = false;
}

module _ (f : Flatcc) where
  open f use {
    verify_param_set, param_set_root, param_set_value, value_name, value_kind_is_float, value_float,
    verify_param_get, param_get_root, param_get_name, verify_trajectory_set, trajectory_set_root,
    segments, total, expected_plan_version, TrajectorySetRequest,
  }

  -- The name and the number of a request, if it is one and complete.
  unfoldable pub read_param_set : Option Bytes → Option (String × Double)
  read_param_set request = do
    bytes ← request
    verified ← keep_if (verify_param_set bytes) bytes
    root ← param_set_root verified
    value ← param_set_value root
    name ← value_name value
    keep_if (value_kind_is_float value) (name, value_float value)

  unfoldable pub set_value :
      RuntimeControl → ℕ → String → Double → Option ℕ → RuntimeControl × Reply
  set_value r capacity name number none =
      (r, build_param_set_reply f capacity unsupported name number (minus 2))
  set_value r capacity name number (some index) =
      if not (is_finite number)
      then (r, build_param_set_reply f capacity denied name number (minus 3))
      else if r.command_writer
      then (r, build_param_set_reply f capacity temporarily_rejected name number (minus 4))
      else (
        stage_value r index number,
        build_param_set_reply f capacity accepted name number (pos 0),
      )

  unfoldable pub answer_param_set :
      RuntimeControl → ℕ → Option (String × Double) → RuntimeControl × Reply
  answer_param_set r capacity none = (r, build_param_set_reply f capacity failed "" 0 (minus 1))
  answer_param_set r capacity (some (name, number)) =
      set_value r capacity name number (find_value name)

  unfoldable pub handle_param_set : RuntimeControl → Option Bytes → ℕ → RuntimeControl × Reply
  handle_param_set r request capacity = answer_param_set r capacity (read_param_set request)

  unfoldable pub read_param_get : Option Bytes → Option String
  read_param_get request = do
    bytes ← request
    verified ← keep_if (verify_param_get bytes) bytes
    root ← param_get_root verified
    param_get_name root

  abbrev pub answer_loaded : ℕ → String → Option Double → Reply
  answer_loaded capacity name none =
      build_param_get_reply f capacity temporarily_rejected name 0 (minus 3)
  answer_loaded capacity name (some number) =
      build_param_get_reply f capacity accepted name number (pos 0)

  abbrev pub get_value : RuntimeControl → ℕ → String → Option ℕ → Reply
  get_value r capacity name none = build_param_get_reply f capacity unsupported name 0 (minus 2)
  get_value r capacity name (some index) =
      answer_loaded capacity name (atomic_double_try_load (r.live_values index))

  unfoldable pub answer_param_get : RuntimeControl → ℕ → Option String → Reply
  answer_param_get r capacity none = build_param_get_reply f capacity failed "" 0 (minus 1)
  answer_param_get r capacity (some name) = get_value r capacity name (find_value name)

  unfoldable pub handle_param_get : RuntimeControl → Option Bytes → ℕ → RuntimeControl × Reply
  handle_param_get r request capacity = (r, answer_param_get r capacity (read_param_get request))

  unfoldable pub read_trajectory_set : Option Bytes → Option (TrajectorySetRequest × List Segment)
  read_trajectory_set request = do
    bytes ← request
    verified ← keep_if (verify_trajectory_set bytes) bytes
    root ← trajectory_set_root verified
    list ← segments root
    some (root, list)

  unfoldable pub stage_checked :
      RuntimeControl → ℕ → (expected count : ℕ) → Checked → RuntimeControl × Reply
  stage_checked r capacity expected count (refused failed_seq) =
      (r, build_trajectory_reply f capacity denied r.plan_version (minus 3) failed_seq)
  stage_checked r capacity expected count (points w) =
      if r.command_writer
      then (r, build_trajectory_reply f capacity temporarily_rejected r.plan_version (minus 5) 0)
      else if not (expected == 0) && not (expected == r.plan_version)
      then (
        record r { command_writer = false },
        build_trajectory_reply f capacity temporarily_rejected r.plan_version (minus 4) 0,
      )
      else let staged = stage_mission r w count in
        (staged, build_trajectory_reply f capacity accepted staged.plan_version (pos 0) 0)

  unfoldable pub answer_trajectory_set :
      RuntimeControl → ℕ → Option (TrajectorySetRequest × List Segment) → RuntimeControl × Reply
  answer_trajectory_set r capacity none =
      (r, build_trajectory_reply f capacity failed r.plan_version (minus 1) 0)
  answer_trajectory_set r capacity (some (root, list)) =
      let count = length list in
      if count == 0 || ltb max_segments count || not (total root == count)
      then (r, build_trajectory_reply f capacity denied r.plan_version (minus 2) 0)
      else stage_checked r capacity (expected_plan_version root) count
          (check_segments 0 list no_waypoints)

  unfoldable pub handle_trajectory_set : RuntimeControl → Option Bytes → ℕ → RuntimeControl × Reply
  handle_trajectory_set r request capacity =
      answer_trajectory_set r capacity (read_trajectory_set request)

  -- An unknown service sends no reply.
  unfoldable pub runtime_query : String → RuntimeControl → Option Bytes → ℕ → RuntimeControl × Reply
  runtime_query service r request capacity =
      if str_eq service "param_set"
      then handle_param_set r request capacity
      else if str_eq service "param_get"
      then handle_param_get r request capacity
      else if str_eq service "trajectory_set"
      then handle_trajectory_set r request capacity
      else (r, record { sent = none; leaked = false })
