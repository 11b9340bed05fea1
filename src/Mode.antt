-- ===== src/Mode.antt =====
-- src/main_sil.c:127-161 (the same code stands in src/main_realtime.c:279-313): the idle outputs, and
-- the choice between the pilot's channels and the controller's.
pub mod Selection
use cerebri_cubs.Prelude.{ℕ, zero, suc, Bool, true, not, ◌&&◌, ◌||◌, if◌then◌else◌}
use cerebri_cubs.Prelude.Int.{ℤ, pos, leb_ℤ, ltb_ℤ}
use cerebri_cubs.Prelude.Loop.{for_to}
use cerebri_cubs.Csyn.{RcChannels, ManualControl}

-- Kconfig: CUBS2_MANUAL_OVERRIDE, CUBS2_AUTO_SWITCH_CHANNEL, CUBS2_AUTO_SWITCH_THRESHOLD_US.
pub record Config : Type 0 where
  pub manual_override : Bool
  pub auto_switch_channel : ℕ
  pub auto_switch_threshold_us : ℤ

-- Members that the initialiser does not name are 0.
unfoldable pub idle_output : RcChannels
idle_output zero = pos 1500
idle_output (suc zero) = pos 1500
idle_output (suc (suc zero)) = pos 1000
idle_output (suc (suc (suc zero))) = pos 1500
idle_output (suc (suc (suc (suc zero)))) = pos 1000
idle_output (suc (suc (suc (suc (suc i))))) = pos 0

abbrev pub is_pwm : ℤ → Bool
is_pwm us = leb_ℤ (pos 900) us && leb_ℤ us (pos 2100)

-- The result, and the value of the switch that is written to `*switch_us`.
unfoldable pub manual_control_valid : Config → ManualControl → Bool × ℤ
manual_control_valid config manual =
    let switch_us = manual.rc config.auto_switch_channel in
    let valid = for_to 5 (λ i v. v && is_pwm (manual.rc i)) manual.valid in
    (valid && is_pwm switch_us, switch_us)

unfoldable pub auto_mode_selected : Config → ManualControl → Bool
auto_mode_selected config manual =
    if config.manual_override
    then (let result = manual_control_valid config manual in
        not result.0 || ltb_ℤ config.auto_switch_threshold_us result.1)
    else true
