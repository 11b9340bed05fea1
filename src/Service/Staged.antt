-- ===== src/Service/Staged.antt =====
-- What the accepted requests stage (src/runtime_control.c:410-413, 533-552) keeps the invariant.
use native.Mathlib.Decide.{ℕ_discrete}
use cerebri_cubs.Prelude.{
  refl, ℕ, zero, suc, ◌^◌, ◌≤◌, ◌<◌, ◌≡◌, ◌≢◌, arith, ◌==◌, ◌∙◌, ap, inl, inr, Bool-cases,
}
use cerebri_cubs.Prelude.Loop.{for_to, for_to_inv}
use cerebri_cubs.AtomicDouble.{Double, AtomicDouble}
use cerebri_cubs.AtomicDouble.RoundTrip.{IsIdle, value_of, store-IsIdle, value_of-store}
use cerebri_cubs.Params.Table.{values_size}
use cerebri_cubs.Route.{Waypoints, max_points, max_segments}
use cerebri_cubs.Runtime.{RuntimeControl}
use cerebri_cubs.Runtime.Inv.{IsNumber, values_of, IsVersion, Inv}
use cerebri_cubs.Service.{stage_value, stage_mission, store_waypoint, store_row, next_version}

pub stage_value-Inv :
    (r : RuntimeControl) (i : ℕ) (x : Double)
    → Inv r
    → i < values_size
    → IsNumber x
    → Inv (stage_value r i x)
unfolding stage_value
stage_value-Inv r i x inv lt n =
    let idle = store-IsIdle (r.pending_values i) x (inv.pending.idle i) in
    let stored = value_of-store (r.pending_values i) x n.0 in
    record {
      plan = inv.plan;
      unlocked = refl;
      pending = record {
        idle = λ j. ground (arith, idle, inv.pending.idle j);
        below = λ j. ground (arith, inv.pending.below j);
        number = λ j h. elim (Bool-cases (i == j)) [
          | inl e ↦ rw (e, stored) n
          | inr e ↦ rw e (inv.pending.number j (rw e at h))
        ];
      };
      live = inv.live;
      mission = inv.mission;
      applied = inv.applied;
    }

-- Every slot is idle, and the rows below `n` hold the points.
abbrev RowsStored : Waypoints → ℕ → (ℕ → ℕ → AtomicDouble) → Type 0
RowsStored w n slots =
    ((row column : ℕ) → IsIdle (slots row column))
    × ((row column : ℕ) → row < n → column < 3 → values_of slots row column ≡ w row column)

store_waypoint-IsIdle :
    (w : Waypoints) (row column : ℕ) (slots : ℕ → ℕ → AtomicDouble)
    → ((i j : ℕ) → IsIdle (slots i j))
    → (i j : ℕ) → IsIdle (store_waypoint w row column slots i j)
unfolding store_waypoint
store_waypoint-IsIdle w row column slots idle i j =
    let stored = store-IsIdle (slots row column) (w row column) (idle row column) in
    let same_row = idle row j in
    let other = idle i j in
    elim (Bool-cases (row == i)) [
      | inl e ↦ elim (Bool-cases (column == j)) [
        | inl e' ↦ rw (e, e') stored
        | inr e' ↦ rw (e, e') same_row
      ]
      | inr e ↦ rw e other
    ]

store_row-IsIdle :
    (w : Waypoints) (row : ℕ) (slots : ℕ → ℕ → AtomicDouble)
    → ((i j : ℕ) → IsIdle (slots i j))
    → (i j : ℕ) → IsIdle (store_row w row slots i j)
unfolding store_row
store_row-IsIdle w row slots idle =
    store_waypoint-IsIdle w row 2 _
      (store_waypoint-IsIdle w row 1 _ (store_waypoint-IsIdle w row 0 slots idle))

store_waypoint_self :
    (w : Waypoints) (row column : ℕ) (slots : ℕ → ℕ → AtomicDouble)
    → w row column < 2 ^ 64
    → values_of (store_waypoint w row column slots) row column ≡ w row column
unfolding store_waypoint
store_waypoint_self w row column slots fits =
    ground (arith, value_of-store (slots row column) (w row column) fits)

store_waypoint_ne :
    (w : Waypoints) (row column i j : ℕ) (slots : ℕ → ℕ → AtomicDouble)
    → ((row ≡ i) → column ≢ j)
    → store_waypoint w row column slots i j ≡ slots i j
unfolding store_waypoint
store_waypoint_ne w row column i j slots ne = ground arith

store_row_self :
    (w : Waypoints) (row column : ℕ) (slots : ℕ → ℕ → AtomicDouble)
    → ((j : ℕ) → w row j < 2 ^ 64)
    → column < 3
    → values_of (store_row w row slots) row column ≡ w row column
unfolding store_row
store_row_self w row zero slots fits h =
    let first = store_waypoint w row 0 slots in
    let second = store_waypoint w row 1 first in
    ap value_of (
      store_waypoint_ne w row 2 row 0 second (λ e. omega arith)
      ∙ store_waypoint_ne w row 1 row 0 first (λ e. omega arith))
    ∙ store_waypoint_self w row 0 slots (fits 0)
store_row_self w row (suc zero) slots fits h =
    let first = store_waypoint w row 0 slots in
    let second = store_waypoint w row 1 first in
    ap value_of (store_waypoint_ne w row 2 row 1 second (λ e. omega arith))
    ∙ store_waypoint_self w row 1 first (fits 1)
store_row_self w row (suc (suc zero)) slots fits h =
    let first = store_waypoint w row 0 slots in
    let second = store_waypoint w row 1 first in store_waypoint_self w row 2 second (fits 2)
store_row_self w row (suc (suc (suc column))) slots fits h = absurd (omega arith)

store_row_ne :
    (w : Waypoints) (row i j : ℕ) (slots : ℕ → ℕ → AtomicDouble)
    → row ≢ i
    → store_row w row slots i j ≡ slots i j
unfolding store_row
store_row_ne w row i j slots ne =
    let first = store_waypoint w row 0 slots in
    let second = store_waypoint w row 1 first in
    store_waypoint_ne w row 2 i j second (λ e. absurd (ne e))
    ∙ store_waypoint_ne w row 1 i j first (λ e. absurd (ne e))
    ∙ store_waypoint_ne w row 0 i j slots (λ e. absurd (ne e))

store_row-RowsStored :
    (w : Waypoints) (n : ℕ) (slots : ℕ → ℕ → AtomicDouble)
    → ((i j : ℕ) → w i j < 2 ^ 64)
    → RowsStored w n slots
    → RowsStored w (suc n) (store_row w n slots)
store_row-RowsStored w n slots fits (idle, rows) = (
  store_row-IsIdle w n slots idle,
  λ row column below small. elim (ℕ_discrete n row) [
    | yes e ↦ rw (← e) (store_row_self w n column slots (fits n) small)
    | no ne ↦
        ap value_of (store_row_ne w n row column slots ne) ∙ rows row column (omega arith) small
  ],
)

pub stored_rows :
    (w : Waypoints) (slots : ℕ → ℕ → AtomicDouble)
    → ((i j : ℕ) → w i j < 2 ^ 64)
    → ((i j : ℕ) → IsIdle (slots i j))
    → RowsStored w max_points (for_to max_points (store_row w) slots)
stored_rows w slots fits idle =
    for_to_inv (RowsStored w) (store_row w) max_points slots
      (λ n s lt. store_row-RowsStored w n s fits)
      (idle, λ row column below small. absurd (omega arith))

-- The plan version stays a positive 32-bit number, and every step changes it.
pub next_version-IsVersion :
    (version : ℕ)
    → IsVersion version
    → IsVersion (next_version version) × (next_version version ≢ version)
next_version-IsVersion version v = (ground arith, ground arith)

pub stage_mission-Inv :
    (r : RuntimeControl) (w : Waypoints) (count : ℕ)
    → Inv r
    → 1 ≤ count
    → count ≤ max_segments
    → ((row column : ℕ) → IsNumber (w row column))
    → Inv (stage_mission r w count)
      × ((row column : ℕ)
          → row < max_points
          → column < 3
          → values_of (stage_mission r w count).pending_waypoints row column ≡ w row column)
unfolding stage_mission
stage_mission-Inv r w count inv some_segment few numbers =
    let (idle, rows) =
      stored_rows w r.pending_waypoints (λ i j. (numbers i j).0) inv.mission.idle in
    (
      record {
        plan = (next_version-IsVersion r.plan_version inv.plan).0;
        unlocked = refl;
        pending = inv.pending;
        live = inv.live;
        mission = record {
          even = omega (arith, inv.mission.even, inv.mission.fits);
          fits = omega arith;
          idle = idle;
          route = λ h. record {
            some_segment = some_segment;
            few_segments = few;
            numbers =
                λ row column below small. rw (rows row column below small) (numbers row column);
          };
        };
        applied = inv.applied;
      },
      rows,
    )
