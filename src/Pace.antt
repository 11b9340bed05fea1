-- ===== src/Pace.antt =====
-- src/main_sil.c:30-31 and 217-231 (and, with `odometry.timestamp_us`, src/main_realtime.c:110-119):
-- the controller's fixed step on simulation time.
pub mod Periods
use cerebri_cubs.Prelude.{ℕ, ◌+◌, ◌*◌, ◌/◌, ◌%◌, ◌^◌, Bool, true, false, ltb, if◌then◌else◌}

-- CUBS2_CONTROL_PERIOD_US: 20000000 ns / 1000.
abbrev pub control_period_us : ℕ
control_period_us = 20000

abbrev pub u64 : ℕ → ℕ
u64 n = n % 2 ^ 64

-- Whether a step is due at a time, and the new `next_control_time_us`.
unfoldable pub control_step_due : (time_us next_us : ℕ) → Bool × ℕ
control_step_due time_us next_us =
    if ltb time_us next_us
    then (false, next_us)
    else (true, u64 ((time_us / control_period_us + 1) * control_period_us))
