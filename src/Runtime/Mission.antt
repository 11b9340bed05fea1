-- ===== src/Runtime/Mission.antt =====
-- The mission part of `cubs2_runtime_control_apply` (src/runtime_control.c:639-671): a staged mission
-- is read whole and replaces the route.
use native.Mathlib.Decide.{ℕ_discrete}
use cerebri_cubs.Prelude.{
  ℕ, zero, suc, ◌<◌, ◌≡◌, ◌≢◌, refl, true, false, Option, some, arith, inl, inr, Bool-cases, ◌∙◌,
}
use cerebri_cubs.Prelude.Loop.{for_to_inv}
use cerebri_cubs.Prelude.Update.{update₂}
use cerebri_cubs.AtomicDouble.{AtomicDouble}
use cerebri_cubs.AtomicDouble.RoundTrip.{IsIdle, try_load_idle}
use cerebri_cubs.Route.{Waypoints, max_points}
use cerebri_cubs.Runtime.{
  RuntimeControl, Both, load_row, load_waypoints, load_mission, take_mission, apply_mission,
}
use cerebri_cubs.Runtime.Inv.{IsRoute, values_of, MissionInv, Inv}

-- The rows below `n` have been read.
abbrev ReadRows : (ℕ → ℕ → AtomicDouble) → ℕ → Option Waypoints → Type 0
ReadRows pending n read =
    (w : Waypoints) × (read ≡ some w)
    × ((row column : ℕ) → row < n → column < 3 → w row column ≡ values_of pending row column)

abbrev read_row : (ℕ → ℕ → AtomicDouble) → ℕ → Waypoints → Waypoints
read_row pending row w =
    update₂ (update₂ (update₂ w row 0 (values_of pending row 0)) row 1 (values_of pending row 1))
      row 2 (values_of pending row 2)

load_row_idle :
    (pending : ℕ → ℕ → AtomicDouble) (row : ℕ) (w : Waypoints)
    → ((i j : ℕ) → IsIdle (pending i j))
    → load_row pending row (some w) ≡ some (read_row pending row w)
unfolding load_row
load_row_idle pending row w idle =
    simp (try_load_idle _ (idle row 0), try_load_idle _ (idle row 1), try_load_idle _ (idle row 2))

read_row_self :
    (pending : ℕ → ℕ → AtomicDouble) (row column : ℕ) (w : Waypoints)
    → column < 3
    → read_row pending row w row column ≡ values_of pending row column
read_row_self pending row zero w h = ground arith
read_row_self pending row (suc zero) w h = ground arith
read_row_self pending row (suc (suc zero)) w h = ground arith
read_row_self pending row (suc (suc (suc column))) w h = absurd (omega arith)

read_row_ne :
    (pending : ℕ → ℕ → AtomicDouble) (row other column : ℕ) (w : Waypoints)
    → row ≢ other
    → read_row pending row w other column ≡ w other column
read_row_ne pending row other column w ne = ground arith

load_row_step :
    (pending : ℕ → ℕ → AtomicDouble)
    → ((i j : ℕ) → IsIdle (pending i j))
    → (n : ℕ) (read : Option Waypoints) → n < max_points
    → ReadRows pending n read
    → ReadRows pending (suc n) (load_row pending n read)
load_row_step pending idle n read lt (w, e, rows) = (
  read_row pending n w,
  rw e (load_row_idle pending n w idle),
  λ row column below fits. elim (ℕ_discrete n row) [
    | yes same ↦ rw (← same) (read_row_self pending n column w fits)
    | no ne ↦ read_row_ne pending n row column w ne ∙ rows row column (omega arith) fits
  ],
)

-- With every slot idle all points are read.
load_waypoints_idle :
    (pending : ℕ → ℕ → AtomicDouble)
    → ((i j : ℕ) → IsIdle (pending i j))
    → ReadRows pending max_points (load_waypoints pending)
unfolding load_waypoints
load_waypoints_idle pending idle =
    for_to_inv (ReadRows pending) (load_row pending) max_points (some (λ row column. 0))
      (load_row_step pending idle) (_, refl, λ row column below fits. absurd (omega arith))

pub load_mission_idle :
    (r : RuntimeControl)
    → MissionInv r.pending_mission r.mission_sequence r.pending_segments r.pending_waypoints
    → ReadRows r.pending_waypoints max_points (load_mission r)
unfolding load_mission
load_mission_idle r m =
    let (w, e, rows) = load_waypoints_idle r.pending_waypoints m.idle in (w, ground arith, rows)

IsRoute-read :
    (segments : ℕ) (v w : Waypoints)
    → ((row column : ℕ) → row < max_points → column < 3 → w row column ≡ v row column)
    → IsRoute segments v
    → IsRoute segments w
IsRoute-read segments v w same route = record {
  some_segment = route.some_segment;
  few_segments = route.few_segments;
  numbers = λ row column below fits.
      rw (same row column below fits) (route.numbers row column below fits);
}

-- What `apply_mission` does with a staged mission: it reads points `w`, which are the staged ones, and
-- goes on with them.
pub record Flown (b c : Both) : Type 0 where
  pub points : Waypoints
  pub step : c ≡ take_mission (some points) b
  pub route : IsRoute b.runtime.pending_segments points
  pub staged :
      (row column : ℕ)
      → row < max_points
      → column < 3
      → points row column ≡ values_of b.runtime.pending_waypoints row column

apply_mission-some :
    (b : Both) (w : Waypoints)
    → b.runtime.pending_mission ≡ true
    → load_mission b.runtime ≡ some w
    → apply_mission b ≡ take_mission (some w) b
unfolding apply_mission
apply_mission-some b w h e = simp (h, e)

pub apply_mission-Flown :
    (b : Both) → Inv b.runtime → b.runtime.pending_mission ≡ true → Flown b (apply_mission b)
apply_mission-Flown b inv h =
    let (w, e, rows) = load_mission_idle b.runtime inv.mission in
    record {
      points = w;
      step = apply_mission-some b w h e;
      route = IsRoute-read b.runtime.pending_segments _ w rows (inv.mission.route h);
      staged = rows;
    }

pub apply_mission_none : (b : Both) → b.runtime.pending_mission ≡ false → apply_mission b ≡ b
unfolding apply_mission
apply_mission_none b h = rw h

take_mission-Inv :
    (w : Waypoints) (b : Both)
    → IsRoute b.runtime.pending_segments w
    → Inv b.runtime
    → Inv (take_mission (some w) b).runtime
unfolding take_mission
take_mission-Inv w b route inv = record {
  plan = inv.plan;
  unlocked = inv.unlocked;
  pending = inv.pending;
  live = inv.live;
  mission = record {
    even = inv.mission.even;
    fits = inv.mission.fits;
    idle = inv.mission.idle;
    route = λ h. cc;
  };
  applied = λ _. route;
}

pub apply_mission-Inv : (b : Both) → Inv b.runtime → Inv (apply_mission b).runtime
apply_mission-Inv b inv = elim (Bool-cases b.runtime.pending_mission) [
  | inl h ↦
      let flown = apply_mission-Flown b inv h in
      rw (flown.step) (take_mission-Inv flown.points b flown.route inv)
  | inr h ↦ rw (apply_mission_none b h) inv
]
