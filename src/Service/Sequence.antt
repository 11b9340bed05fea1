-- ===== src/Service/Sequence.antt =====
-- The accesses of Handover, with none of the loop between them, are `stage_mission`
-- (src/runtime_control.c:533-552).
use mathlib.Core.Path.{subst}
use cerebri_cubs.Prelude.{
  ℕ, zero, suc, ◌+◌, ◌*◌, ◌/◌, ◌%◌, ◌<◌, ◌≤◌, ◌≡◌, ◌∙◌, sym, ap, refl, arith,
}
use cerebri_cubs.AtomicDouble.{u32}
use cerebri_cubs.AtomicDouble.RoundTrip.{value_of}
use cerebri_cubs.Route.{Waypoints, max_points, max_segments}
use cerebri_cubs.Runtime.{RuntimeControl}
use cerebri_cubs.Runtime.Inv.{Inv, IsNumber}
use cerebri_cubs.Runtime.Handover.{
  Mission, cell_count, idle, storing, System, begin_mission, store_cell, store_segments,
  publish_mission, flag_mission, begins, stores, counts, publishes, flags, Steps, done, more,
  joined,
}
use cerebri_cubs.Runtime.Complete.{CellsOf, CellsOf-update}
use cerebri_cubs.Service.{stage_mission}
use cerebri_cubs.Service.Staged.{stage_mission-Inv}

-- The handler after the cells from `k` on, with the loop and the counter as before.
record Stores (s : System) (m : Mission) (t : System) : Type 0 where
  steps : Steps t s
  at_end : t.writer ≡ storing m cell_count
  cells : CellsOf t.memory.cells m cell_count
  counter : t.sequence ≡ s.sequence
  waits : t.reader ≡ s.reader

Stores-rest :
    (n k : ℕ) (s : System) (m : Mission)
    → n + k ≡ cell_count
    → s.writer ≡ storing m k
    → CellsOf s.memory.cells m k
    → (t : System) × Stores s m t
Stores-rest zero k s m fits e cells =
    let all : k ≡ cell_count = omega (arith, fits) in
    (
      s,
      record {
        steps = done;
        at_end = subst (λ (n : ℕ). s.writer ≡ storing m n) all e;
        cells = subst (CellsOf s.memory.cells m) all cells;
        counter = refl;
        waits = refl;
      },
    )
Stores-rest (suc n) k s m fits e cells =
    let below : k < cell_count = omega (arith, fits) in
    let fits' : n + suc k ≡ cell_count = omega (arith, fits) in
    let (t, rest) =
      Stores-rest n (suc k) (store_cell s m k) m fits' refl
        (CellsOf-update s.memory.cells m k (m.cells k) cells refl) in
    (
      t,
      record {
        steps = more (stores e below) rest.steps;
        at_end = rest.at_end;
        cells = rest.cells;
        counter = rest.counter;
        waits = rest.waits;
      },
    )

-- Row by row.
abbrev pub mission_of : Waypoints → ℕ → Mission
mission_of w count = record { cells = λ i. w (i / 3) (i % 3); segments = count }

-- The shared memory of `t` is that of `r`.
pub record Holds (r : RuntimeControl) (t : System) : Type 0 where
  pub counter : t.sequence ≡ r.mission_sequence
  pub flag : t.pending ≡ r.pending_mission
  pub segments : t.memory.segments ≡ r.pending_segments
  pub points :
      (row column : ℕ)
      → row < max_points
      → column < 3
      → t.memory.cells (row * 3 + column) ≡ value_of (r.pending_waypoints row column)

abbrev last_steps : System → Mission → System
last_steps s m = flag_mission (publish_mission (store_segments s m) m)

whole_run :
    (s t : System) (m : Mission)
    → Stores (begin_mission s m) m t
    → s.writer ≡ idle
    → Steps (last_steps t m) s
whole_run s t m run idles =
    more (begins idles)
      (joined run.steps (more (counts run.at_end) (more (publishes refl) (more (flags refl) done))))

whole_memory :
    (r : RuntimeControl) (w : Waypoints) (count : ℕ) (s t : System)
    → Inv r
    → 1 ≤ count
    → count ≤ max_segments
    → ((row column : ℕ) → IsNumber (w row column))
    → s.sequence ≡ r.mission_sequence
    → Stores (begin_mission s (mission_of w count)) (mission_of w count) t
    → Holds (stage_mission r w count) (last_steps t (mission_of w count))
whole_memory r w count s t inv one few numbers counter run = record {
  counter =
      unfold stage_mission in
      (ap (λ (n : ℕ). u32 (n + 1)) run.counter ∙ ap (λ (n : ℕ). u32 (u32 (n + 1) + 1)) counter);
  flag = unfold stage_mission in refl;
  segments = unfold stage_mission in refl;
  points = λ row column below fits.
      let quotient : (row * 3 + column) / 3 ≡ row = omega (arith, below, fits) in
      let rest : (row * 3 + column) % 3 ≡ column = omega (arith, below, fits) in
      run.cells (row * 3 + column) (omega (arith, below, fits))
      ∙ rw (quotient, rest)
          (sym ((stage_mission-Inv r w count inv one few numbers).1 row column below fits));
}

-- In a state of the invariant, for a route of 1 to CUBS2_MAX_SEGMENTS segments with finite points,
-- and with no handler at work: there is a run of the handler's single accesses that leaves in the
-- shared memory what the sequential `stage_mission` leaves, that is the counter, the flag, the
-- number of segments and every way point, and moves the loop nowhere.
pub stage_mission-Steps :
    (r : RuntimeControl) (w : Waypoints) (count : ℕ) (s : System)
    → Inv r
    → 1 ≤ count
    → count ≤ max_segments
    → ((row column : ℕ) → IsNumber (w row column))
    → s.writer ≡ idle
    → s.sequence ≡ r.mission_sequence
    → (t : System) × Steps t s
      × Holds (stage_mission r w count) t
      × (t.writer ≡ idle)
      × (t.reader ≡ s.reader)
stage_mission-Steps r w count s inv one few numbers idles counter =
    let m = mission_of w count in
    let (t, run) =
      Stores-rest cell_count 0 (begin_mission s m) m refl refl (λ i lt. absurd (omega arith)) in
    (
      last_steps t m,
      whole_run s t m run idles,
      whole_memory r w count s t inv one few numbers counter run,
      refl,
      run.waits,
    )
