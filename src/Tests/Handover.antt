-- ===== src/Tests/Handover.antt =====
-- A mission on its way from a handler to the loop, access by access (src/runtime_control.c:516-556,
-- 640-671), and a value.
use cerebri_cubs.Prelude.{ℕ, zero, suc, ◌≤◌, ◌<◌, ◌≡◌, ◌⊎◌, ◌+◌, ◌^◌, refl, sym, true, false, arith}
use cerebri_cubs.Prelude.Update.{update}
use cerebri_cubs.AtomicDouble.{Double, is_odd}
use cerebri_cubs.Runtime.{init_state, init_waypoint_row, init_value}
use cerebri_cubs.Runtime.Inv.{IsNumber}
use cerebri_cubs.Runtime.Handover.{
  Mission, idle, storing, waiting, loading, System, start_with, begin_mission, store_cell,
  store_segments, publish_mission, flag_mission, claim, load_before, load_cell, load_segments,
  begins, stores, counts, publishes, flags, claims, sees_even, loads, loads_segments, Reach,
  at_start, after, Steps,
}
use cerebri_cubs.Runtime.Complete.{Same, accepted_mission, mission_kept}
use cerebri_cubs.Runtime.Delivery.{Delivered, mission-Delivered}
use cerebri_cubs.Runtime.Flags as Flags
use cerebri_cubs.Runtime.Flags.{value_kept}
use cerebri_cubs.Service.{no_waypoints, stage_mission}
use cerebri_cubs.Service.Sequence.{Holds, stage_mission-Steps}
use cerebri_cubs.Tests.{at_start as started, at_start-Inv}

abbrev nothing : Mission
nothing = record { cells = λ i. 0; segments = 0 }

abbrev two_segments : Mission
two_segments = record { cells = λ i. i; segments = 2 }

-- The handler has stored `n` cells.
stored_cells : ℕ → System
stored_cells zero = begin_mission (start_with nothing) two_segments
stored_cells (suc n) = store_cell (stored_cells n) two_segments n

writer_at : (n : ℕ) → (stored_cells n).writer ≡ storing two_segments n
unfolding stored_cells
writer_at zero = refl
writer_at (suc n) = refl

stored_cells-Reach : (n : ℕ) → n ≤ 21 → Reach nothing (stored_cells n)
unfolding stored_cells
stored_cells-Reach zero fits = after at_start (begins refl)
stored_cells-Reach (suc n) fits =
    after (stored_cells-Reach n (omega arith)) (stores (writer_at n) (omega arith))

abbrev staged : System
staged = flag_mission (publish_mission (store_segments (stored_cells 21) two_segments) two_segments)

staged-Reach : Reach nothing staged
staged-Reach =
    after
      (after (after (stored_cells-Reach 21 (omega arith)) (counts (writer_at 21))) (publishes refl))
      (flags refl)

stored_reader : (n : ℕ) → (stored_cells n).reader ≡ waiting
unfolding stored_cells
stored_reader zero = refl
stored_reader (suc n) = stored_reader n

stored_counter : (n : ℕ) → (stored_cells n).sequence ≡ 1
unfolding stored_cells
stored_counter zero = refl
stored_counter (suc n) = stored_counter n

mission_kept_example : (staged.pending ≡ true) ⊎ Same staged.applied staged.content
mission_kept_example = mission_kept staged-Reach refl (stored_reader 21)

mission-Delivered_example : (t : System) × Delivered staged t
mission-Delivered_example = mission-Delivered staged-Reach refl (stored_reader 21) refl

-- The loop has loaded `n` cells, and what they are.
loaded_cells : ℕ → System × (ℕ → Double)
loaded_cells zero = (load_before (claim staged) nothing.cells, nothing.cells)
loaded_cells (suc n) =
    let (s, cells) = loaded_cells n in
    (load_cell s staged.sequence cells n, update cells n (s.memory.cells n))

reader_at : (n : ℕ) → (loaded_cells n).0.reader ≡ loading staged.sequence (loaded_cells n).1 n
unfolding loaded_cells
reader_at zero = refl
reader_at (suc n) = refl

even_counter : is_odd staged.sequence ≡ false
even_counter = rw (stored_counter 21) refl

loaded_cells-Reach : (n : ℕ) → n ≤ 21 → Reach nothing (loaded_cells n).0
unfolding loaded_cells
loaded_cells-Reach zero fits =
    after (after staged-Reach (claims (stored_reader 21) refl)) (sees_even refl even_counter)
loaded_cells-Reach (suc n) fits =
    after (loaded_cells-Reach n (omega arith)) (loads (reader_at n) (omega arith))

loaded_counters :
    (n : ℕ)
    → ((loaded_cells n).0.sequence ≡ staged.sequence)
      × ((loaded_cells n).0.bumps ≡ (loaded_cells n).0.bumps_at)
unfolding loaded_cells
loaded_counters zero = (refl, refl)
loaded_counters (suc n) = loaded_counters n

abbrev all_loaded : System
all_loaded = load_segments (loaded_cells 21).0 staged.sequence (loaded_cells 21).1

all_loaded-Reach : Reach nothing all_loaded
all_loaded-Reach = after (loaded_cells-Reach 21 (omega arith)) (loads_segments (reader_at 21))

few_bumps : all_loaded.bumps < all_loaded.bumps_at + 2 ^ 32
few_bumps = omega (arith, (loaded_counters 21).1)

accepted_mission_example :
    Same
      (record { cells = (loaded_cells 21).1; segments = (loaded_cells 21).0.memory.segments })
      all_loaded.content
accepted_mission_example =
    accepted_mission all_loaded-Reach refl (sym (loaded_counters 21).0) few_bumps

init_counter : started.runtime.mission_sequence ≡ 0
unfolding init_state init_waypoint_row init_value
init_counter = refl

zero_points : (row column : ℕ) → IsNumber (no_waypoints row column)
zero_points row column = (omega arith, refl)

stage_mission-Steps_example :
    (t : System) × Steps t (start_with nothing)
    × Holds (stage_mission started.runtime no_waypoints 1) t
    × (t.writer ≡ idle)
    × (t.reader ≡ waiting)
stage_mission-Steps_example =
    stage_mission-Steps started.runtime no_waypoints 1 (start_with nothing) at_start-Inv
      (omega arith) (omega arith) zero_points refl (sym init_counter)

-- A value is stored and not flagged yet: the loop is at rest, the handler is not; then it is.
abbrev flagged : Flags.System
flagged = Flags.flag_value (Flags.store_value (Flags.start_with 7) 9)

flagged-Reach : Flags.Reach 7 flagged
flagged-Reach = Flags.after (Flags.after Flags.at_start (Flags.stores 9 refl)) (Flags.flags refl)

value_kept_example : (flagged.pending ≡ true) ⊎ (flagged.applied ≡ flagged.slot)
value_kept_example = value_kept flagged-Reach refl refl
