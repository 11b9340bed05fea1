-- ===== src/Params/Leaves.antt =====
-- The leaves of the controller that a value is written to (src/runtime_control.c:76-121, 173-177).
use text.Mathlib.Text.{◌==◌ as str_eq}
use text.Mathlib.TextEquality.{eq_iff}
use text.Mathlib.TextPositions.{eq_refl}
use cerebri_cubs.Prelude.{
  ℕ, ◌<◌, ◌≡◌, ◌≢◌, refl, String, Bool, true, false, not, ◌&&◌, ◌||◌, arith, ◌==◌, all_below,
  all_below_sound,
}
use cerebri_cubs.AtomicDouble.{Double}
use cerebri_cubs.OuterLoop.{OuterLoopState}
use cerebri_cubs.Params.Table.{values_size}
use cerebri_cubs.Params.{value_at, apply_value}

abbrev pub live : ℕ → String
live i = (value_at i).live_offset

abbrev pub mirror : ℕ → String
mirror i = (value_at i).mirror_offset

apart : ℕ → ℕ → Bool
apart i j =
    not (str_eq (live i) (mirror j))
    && (i == j || (not (str_eq (live i) (live j)) && not (str_eq (mirror i) (mirror j))))

apart_checked : all_below values_size (λ i. all_below values_size (apart i)) ≡ true
unfolding all_below apart value_at
apart_checked = refl

apart_at : (i j : ℕ) → i < values_size → j < values_size → apart i j ≡ true
apart_at i j hi hj =
    all_below_sound values_size (apart i) j
      (all_below_sound values_size (λ k. all_below values_size (apart k)) i apart_checked hi) hj

-- A live leaf is no mirror leaf.
pub live-mirror : (i j : ℕ) → i < values_size → j < values_size → str_eq (live i) (mirror j) ≡ false
unfolding apart
live-mirror i j hi hj = ground (arith, apart_at i j hi hj)

pub live-live :
    (i j : ℕ) → i < values_size → j < values_size → i ≢ j → str_eq (live i) (live j) ≡ false
unfolding apart
live-live i j hi hj h = ground (arith, apart_at i j hi hj)

pub mirror-mirror :
    (i j : ℕ) → i < values_size → j < values_size → i ≢ j → str_eq (mirror i) (mirror j) ≡ false
unfolding apart
mirror-mirror i j hi hj h = ground (arith, apart_at i j hi hj)

str_eq_comm : (s t : String) → str_eq s t ≡ str_eq t s
str_eq_comm s t = ground (arith, eq_iff s t, eq_iff t s)

pub mirror-live : (i j : ℕ) → i < values_size → j < values_size → str_eq (mirror i) (live j) ≡ false
mirror-live i j hi hj = rw (str_eq_comm (mirror i) (live j)) (live-mirror j i hj hi)

-- Both leaves of value `i` hold `x`.
abbrev pub LeavesHold : OuterLoopState → ℕ → Double → Type 0
LeavesHold m i x = (m.scalar (live i) ≡ x) × (m.scalar (mirror i) ≡ x)

pub apply_value_self :
    (m : OuterLoopState) (i : ℕ) (x : Double) → i < values_size → LeavesHold (apply_value m i x) i x
unfolding apply_value
apply_value_self m i x h = ground (arith, eq_refl (live i), eq_refl (mirror i), mirror-live i i h h)

-- A write of one value of the table leaves both leaves of every other value of the table as they
-- are.
pub apply_value_ne :
    (m : OuterLoopState) (i j : ℕ) (x : Double)
    → i < values_size
    → j < values_size
    → i ≢ j
    → ((apply_value m i x).scalar (live j) ≡ m.scalar (live j))
      × ((apply_value m i x).scalar (mirror j) ≡ m.scalar (mirror j))
unfolding apply_value
apply_value_ne m i j x hi hj h = ground (
  arith,
  live-live i j hi hj h,
  mirror-live i j hi hj,
  live-mirror i j hi hj,
  mirror-mirror i j hi hj h,
)

-- A member that is no leaf of value `i` stays.
pub apply_value_frame :
    (m : OuterLoopState) (i : ℕ) (x : Double) (member : String)
    → str_eq (live i) member ≡ false
    → str_eq (mirror i) member ≡ false
    → (apply_value m i x).scalar member ≡ m.scalar member
unfolding apply_value
apply_value_frame m i x member p q = ground arith
