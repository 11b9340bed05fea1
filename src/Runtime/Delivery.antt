-- ===== src/Runtime/Delivery.antt =====
-- The accesses of the loop with none of a handler between them (src/runtime_control.c:640-671): a
-- mission that is pending is applied.
use mathlib.Core.Path.{subst}
use cerebri_cubs.Prelude.{ℕ, zero, suc, ◌+◌, ◌%◌, ◌<◌, ◌≡◌, refl, ap, ◌∙◌, true, false, arith}
use cerebri_cubs.AtomicDouble.{Double, is_odd}
use cerebri_cubs.Runtime.Handover.{
  Mission, cell_count, idle, Reader, waiting, loading, loaded_all, System, claim, load_before,
  load_cell, accept, claims, sees_even, loads, loads_segments, accepts, Reach, Steps, done, more,
  joined,
}
use cerebri_cubs.Runtime.Complete.{CellsOf, CellsOf-update, Same, WriterHolds, Inv, Reach-Inv}

-- The loop after the cells from `k` on; the rest of the system is as it was.
record Loads (s : System) (before : ℕ) (t : System) : Type 0 where
  steps : Steps t s
  loaded : ℕ → Double
  only_reader : t ≡ record s { reader = loading before loaded cell_count }
  cells : CellsOf loaded s.memory cell_count

loads_rest :
    (n k : ℕ) (s : System) (before : ℕ) (loaded : ℕ → Double)
    → n + k ≡ cell_count
    → s.reader ≡ loading before loaded k
    → CellsOf loaded s.memory k
    → (t : System) × Loads s before t
loads_rest zero k s before loaded fits e cells =
    let all : k ≡ cell_count = omega (arith, fits) in
    (
      s,
      record {
        steps = done;
        loaded = loaded;
        only_reader =
            ap (λ (r : Reader). record s { reader = r }) (e ∙ ap (loading before loaded) all);
        cells = subst (CellsOf loaded s.memory) all cells;
      },
    )
loads_rest (suc n) k s before loaded fits e cells =
    let below : k < cell_count = omega (arith, fits) in
    let fits' : n + suc k ≡ cell_count = omega (arith, fits) in
    let (t, rest) =
      loads_rest n (suc k) (load_cell s before loaded k) before _ fits' refl
        (CellsOf-update loaded s.memory k (s.memory.cells k) cells refl) in
    (
      t,
      record {
        steps = more (loads e below) rest.steps;
        loaded = rest.loaded;
        only_reader = rest.only_reader;
        cells = rest.cells;
      },
    )

-- The state after the attempt.
abbrev delivered : System → ℕ → (ℕ → Double) → System
delivered s before loaded =
    let m : Mission = record { cells = loaded; segments = s.memory.segments } in
    accept (record s { reader = loaded_all before m }) m

last_loads :
    (s t : System) (before : ℕ) (l : Loads s before t)
    → before ≡ s.sequence
    → s.bumps ≡ s.bumps_at
    → Steps (delivered s before l.loaded) t
last_loads s t before l same undisturbed =
    rw l.only_reader
      (more (loads_segments refl) (more (accepts refl same (omega (arith, undisturbed))) done))

-- What a state has to be for the loop's next pass to take the mission.
pub record Waits (s : System) : Type 0 where
  pub inv : Inv s
  pub idles : s.writer ≡ idle
  pub waits : s.reader ≡ waiting
  pub has_mission : s.pending ≡ true

idle_holds : (s : System) → Waits s → (s.bumps % 2 ≡ 0) × Same s.memory s.content
idle_holds s w = subst (WriterHolds s) w.idles w.inv.writer_holds

even_counter : (s : System) → Waits s → is_odd s.sequence ≡ false
even_counter s w = ground (arith, (idle_holds s w).0)

memory-Same : (s : System) → Waits s → Same s.memory s.content
memory-Same s w = (idle_holds s w).1

-- The mission is applied.
pub record Delivered (s t : System) : Type 0 where
  pub steps : Steps t s
  pub same : Same t.applied s.content
  pub waits : t.reader ≡ waiting
  pub taken : t.pending ≡ false
  pub content_kept : t.content ≡ s.content

Waits-Delivered : (s : System) → Waits s → (t : System) × Delivered s t
Waits-Delivered s w =
    let seen = load_before (claim s) s.memory.cells in
    let (t, run) =
      loads_rest cell_count 0 seen s.sequence s.memory.cells refl refl
        (λ i lt. absurd (omega arith)) in
    let complete = memory-Same s w in
    (
      delivered seen s.sequence run.loaded,
      record {
        steps = more (claims w.waits w.has_mission) (
            more (sees_even refl (even_counter s w))
              (joined run.steps (last_loads seen t s.sequence run refl refl)));
        same = ((λ i lt. run.cells i lt ∙ complete.0 i lt), complete.1);
        waits = refl;
        taken = refl;
        content_kept = refl;
      },
    )

-- In every state that accesses of a handler and of the loop lead to, in which both are at rest and
-- a mission is pending, there is a finite run of accesses after which the loop has applied the last
-- complete mission, nothing is pending, and the loop is at rest.
pub mission-Delivered :
    {m₀ : Mission} {s : System}
    → Reach m₀ s
    → s.writer ≡ idle
    → s.reader ≡ waiting
    → s.pending ≡ true
    → (t : System) × Delivered s t
mission-Delivered {m₀} {s} r idles waits has =
    Waits-Delivered s
      (record { inv = Reach-Inv r; idles = idles; waits = waits; has_mission = has })
