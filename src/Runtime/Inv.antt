-- ===== src/Runtime/Inv.antt =====
-- What holds of the staged updates (src/runtime_control.c:48-66) whenever no call is under way.
use cerebri_cubs.Prelude.{ℕ, ◌/◌, ◌%◌, ◌^◌, ◌≤◌, ◌<◌, ◌≡◌, Bool, true, false, not, ◌==◌}
use cerebri_cubs.AtomicDouble.{Double, AtomicDouble}
use cerebri_cubs.AtomicDouble.RoundTrip.{IsIdle, value_of}
use cerebri_cubs.Params.Table.{values_size}
use cerebri_cubs.Route.{Waypoints, max_segments, max_points}
use cerebri_cubs.Runtime.{RuntimeControl}

-- `isfinite` of a double: its exponent field is not all ones.
abbrev pub is_finite : Double → Bool
is_finite bits = not (bits / 2 ^ 52 % 2048 == 2047)

-- A number that may stand in the controller: a 64-bit pattern, and neither NaN nor infinite.
abbrev pub IsNumber : Double → Type 0
IsNumber bits = (bits < 2 ^ 64) × (is_finite bits ≡ true)

-- A route of 1 to CUBS2_MAX_SEGMENTS segments whose points are all numbers.
pub record IsRoute (segments : ℕ) (waypoints : Waypoints) : Type 0 where
  pub some_segment : 1 ≤ segments
  pub few_segments : segments ≤ max_segments
  pub numbers : (row column : ℕ) → row < max_points → column < 3 → IsNumber (waypoints row column)

abbrev pub values_of : (ℕ → ℕ → AtomicDouble) → Waypoints
values_of pending row column = value_of (pending row column)

pub record IsVersion (version : ℕ) : Type 0 where
  pub positive : 1 ≤ version
  pub fits : version < 2 ^ 32

-- The staged values: no slot is being stored to, and only values of the table are staged.
pub record PendingInv (slots : ℕ → AtomicDouble) (staged : ℕ → Bool) : Type 0 where
  pub idle : (i : ℕ) → IsIdle (slots i)
  pub below : (i : ℕ) → staged i ≡ true → i < values_size
  pub number : (i : ℕ) → staged i ≡ true → IsNumber (value_of (slots i))

-- The values in effect: what was applied is what a query reads.
pub record LiveInv (slots : ℕ → AtomicDouble) (applied : ℕ → Double) (has : ℕ → Bool) : Type 0 where
  pub idle : (i : ℕ) → IsIdle (slots i)
  pub number : (i : ℕ) → has i ≡ true → IsNumber (applied i)
  pub live : (i : ℕ) → has i ≡ true → value_of (slots i) ≡ applied i

-- The staged mission.
pub record MissionInv (staged : Bool) (sequence segments : ℕ) (waypoints : ℕ → ℕ → AtomicDouble)
    : Type 0 where
  pub even : sequence % 2 ≡ 0
  pub fits : sequence < 2 ^ 32
  pub idle : (row column : ℕ) → IsIdle (waypoints row column)
  pub route : staged ≡ true → IsRoute segments (values_of waypoints)

-- No call is under way, and what is staged or applied is in order.
pub record Inv (r : RuntimeControl) : Type 0 where
  pub plan : IsVersion r.plan_version
  pub unlocked : r.command_writer ≡ false
  pub pending : PendingInv r.pending_values r.pending_value_set
  pub live : LiveInv r.live_values r.applied_values r.applied_value_set
  pub mission :
      MissionInv r.pending_mission r.mission_sequence r.pending_segments r.pending_waypoints
  pub applied : r.applied_mission ≡ true → IsRoute r.applied_segments r.applied_waypoints
