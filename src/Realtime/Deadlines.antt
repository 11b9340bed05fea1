-- ===== src/Realtime/Deadlines.antt =====
-- The wake-up times of the loop on the hardware (src/main_realtime.c:656-661).
use cerebri_cubs.Prelude.{ℕ, ◌+◌, ◌*◌, ◌≤◌, ◌≡◌, ◌∙◌, List, [], ◌∷◌, arith}
use cerebri_cubs.Reply.{length}
use cerebri_cubs.Realtime.Schedule.{Uptime, next_cycle, deadline_after}

-- Every pass ends no later than two periods after the wake-up that is due.
abbrev pub InTime : ℕ → ℕ → List Uptime → Type 0
InTime period next [] = Unit
InTime period next (up ∷ rest) =
    (up.tested ≤ next + period + 2 * period) × InTime period (next + period) rest

in_time :
    (period next : ℕ) (up : Uptime)
    → up.tested ≤ next + period + 2 * period
    → next_cycle period next up ≡ next + period
unfolding next_cycle
in_time period next up h = ground arith

-- If every pass ends no later than two periods after the wake-up that is due, the wake-up after any
-- number of passes is the start plus that number of periods: the loop does not drift.
pub deadlines_exact :
    (period start : ℕ) (passes : List Uptime)
    → InTime period start passes
    → deadline_after period start passes ≡ start + length passes * period
unfolding deadline_after
deadlines_exact period start [] h = omega arith
deadlines_exact period start (up ∷ rest) h =
    rw (in_time period start up h.0)
      (deadlines_exact period (start + period) rest h.1 ∙ grind arith)

-- The clock does not run backwards between the two readings.
abbrev pub IsMonotone : Uptime → Type 0
IsMonotone up = up.tested ≤ up.resync

pub next_cycle_bounds :
    (period next : ℕ) (up : Uptime)
    → IsMonotone up
    → (next + period ≤ next_cycle period next up)
      × (up.tested ≤ next_cycle period next up + 2 * period)
unfolding next_cycle
next_cycle_bounds period next up h = ground arith
