-- ===== src/Realtime/Schedule.antt =====
-- src/main_realtime.c:592-598 and 656-661: the absolute period of the loop on the hardware, in ticks of
-- the system clock, which do not leave 63 bits in the age of a vehicle.
use cerebri_cubs.Prelude.{ℕ, ◌+◌, ◌*◌, List, [], ◌∷◌, ltb, if◌then◌else◌}

-- The two readings of `k_uptime_ticks` at the end of a pass: for the test, and for a new start.
pub record Uptime : Type 0 where
  pub tested : ℕ
  pub resync : ℕ

-- `next_cycle_ticks` at the end of a pass, the time that the loop then sleeps until.
unfoldable pub next_cycle : (period_ticks next_cycle_ticks : ℕ) → Uptime → ℕ
next_cycle period_ticks next_cycle_ticks up =
    let due = next_cycle_ticks + period_ticks in
    if ltb (due + 2 * period_ticks) up.tested then up.resync else due

-- `next_cycle_ticks` after passes with the given readings.
unfoldable pub deadline_after : (period_ticks start_ticks : ℕ) → List Uptime → ℕ
deadline_after period_ticks next_cycle_ticks [] = next_cycle_ticks
deadline_after period_ticks next_cycle_ticks (up ∷ rest) =
    deadline_after period_ticks (next_cycle period_ticks next_cycle_ticks up) rest
