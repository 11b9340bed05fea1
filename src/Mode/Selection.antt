-- ===== src/Mode/Selection.antt =====
-- When the pilot flies (src/main_sil.c:137-161).
use cerebri_cubs.Prelude.{
  ℕ, zero, suc, ◌≡◌, ◌<◌, ◌↔◌, refl, sym, ◌∙◌, Bool, true, false, not, ◌&&◌, ◌||◌, arith,
  if◌then◌else◌,
}
use cerebri_cubs.Prelude.Int.{ℤ, pos, ◌≤ℤ◌, ltb_ℤ}
use cerebri_cubs.Prelude.Loop.{for_to}
use cerebri_cubs.Csyn.{RcChannels, ManualControl}
use cerebri_cubs.Mode.{Config, is_pwm, manual_control_valid, auto_mode_selected}

abbrev pub IsPwm : ℤ → Type 0
IsPwm us = (pos 900 ≤ℤ us) × (us ≤ℤ pos 2100)

-- The pilot flies: the build has the override, the last message is valid, the first five channels and
-- the switch look like pulse widths, and the switch is not above the threshold.
pub record PilotFlies (config : Config) (manual : ManualControl) : Type 0 where
  pub override : config.manual_override ≡ true
  pub valid : manual.valid ≡ true
  pub channels : (i : ℕ) → i < 5 → IsPwm (manual.rc i)
  pub switch : IsPwm (manual.rc config.auto_switch_channel)
  pub low : manual.rc config.auto_switch_channel ≤ℤ config.auto_switch_threshold_us

-- The test of a pulse width.
is_pwm_iff : (us : ℤ) → (is_pwm us ≡ true) ↔ IsPwm us
is_pwm_iff us = ground arith

abbrev selection : (override valid c₀ c₁ c₂ c₃ c₄ switch above : Bool) → Bool
selection override valid c₀ c₁ c₂ c₃ c₄ switch above =
    if override then not (((((valid && c₀) && c₁) && c₂) && c₃) && c₄ && switch) || above else true

selection_tests :
    (override valid c₀ c₁ c₂ c₃ c₄ switch above : Bool)
    → selection override valid c₀ c₁ c₂ c₃ c₄ switch above ≡ false
    → (override ≡ true)
      × (valid ≡ true)
      × (c₀ ≡ true)
      × (c₁ ≡ true)
      × (c₂ ≡ true)
      × (c₃ ≡ true)
      × (c₄ ≡ true)
      × (switch ≡ true)
      × (above ≡ false)
selection_tests override valid c₀ c₁ c₂ c₃ c₄ switch above h = ground arith

selected :
    (config : Config) (manual : ManualControl)
    → auto_mode_selected config manual
      ≡ selection config.manual_override manual.valid
          (is_pwm (manual.rc 0))
          (is_pwm (manual.rc 1))
          (is_pwm (manual.rc 2))
          (is_pwm (manual.rc 3))
          (is_pwm (manual.rc 4))
          (is_pwm (manual.rc config.auto_switch_channel))
          (ltb_ℤ config.auto_switch_threshold_us (manual.rc config.auto_switch_channel))
unfolding auto_mode_selected manual_control_valid for_to
selected config manual = refl

not_above : (a b : ℤ) → (ltb_ℤ a b ≡ false) ↔ (b ≤ℤ a)
not_above a b = ground arith

five :
    (rc : RcChannels)
    → is_pwm (rc 0) ≡ true
    → is_pwm (rc 1) ≡ true
    → is_pwm (rc 2) ≡ true
    → is_pwm (rc 3) ≡ true
    → is_pwm (rc 4) ≡ true
    → (i : ℕ) → i < 5
    → IsPwm (rc i)
five rc c₀ c₁ c₂ c₃ c₄ zero lt = (is_pwm_iff (rc 0)).0 c₀
five rc c₀ c₁ c₂ c₃ c₄ (suc zero) lt = (is_pwm_iff (rc 1)).0 c₁
five rc c₀ c₁ c₂ c₃ c₄ (suc (suc zero)) lt = (is_pwm_iff (rc 2)).0 c₂
five rc c₀ c₁ c₂ c₃ c₄ (suc (suc (suc zero))) lt = (is_pwm_iff (rc 3)).0 c₃
five rc c₀ c₁ c₂ c₃ c₄ (suc (suc (suc (suc zero)))) lt = (is_pwm_iff (rc 4)).0 c₄
five rc c₀ c₁ c₂ c₃ c₄ (suc (suc (suc (suc (suc i))))) lt = absurd (omega arith)

pilot_flies :
    (config : Config) (manual : ManualControl)
    → auto_mode_selected config manual ≡ false
    → PilotFlies config manual
pilot_flies config manual h =
    let tests = selection_tests _ _ _ _ _ _ _ _ _ (sym (selected config manual) ∙ h) in
    record {
      override = tests.0;
      valid = tests.1;
      channels = five manual.rc tests.2 tests.3 tests.4 tests.5 tests.6;
      switch = (is_pwm_iff (manual.rc config.auto_switch_channel)).0 tests.7;
      low =
          (not_above config.auto_switch_threshold_us (manual.rc config.auto_switch_channel)).0
            tests.8;
    }

selection_false :
    (config : Config) (manual : ManualControl)
    → PilotFlies config manual
    → auto_mode_selected config manual ≡ false
selection_false config manual p =
    let c₀ = (is_pwm_iff (manual.rc 0)).1 (p.channels 0 (omega arith)) in
    let c₁ = (is_pwm_iff (manual.rc 1)).1 (p.channels 1 (omega arith)) in
    let c₂ = (is_pwm_iff (manual.rc 2)).1 (p.channels 2 (omega arith)) in
    let c₃ = (is_pwm_iff (manual.rc 3)).1 (p.channels 3 (omega arith)) in
    let c₄ = (is_pwm_iff (manual.rc 4)).1 (p.channels 4 (omega arith)) in
    let switch = (is_pwm_iff (manual.rc config.auto_switch_channel)).1 p.switch in
    let low =
      (not_above config.auto_switch_threshold_us (manual.rc config.auto_switch_channel)).1 p.low in
    selected config manual ∙ simp (p.override, p.valid, c₀, c₁, c₂, c₃, c₄, switch, low)

-- The controller's output is not selected exactly if the pilot flies: the build has the override,
-- the last message is valid, the first five channels and the switch are from 900 to 2100, and the
-- switch is not above the threshold.
pub auto_mode_iff :
    (config : Config) (manual : ManualControl)
    → (auto_mode_selected config manual ≡ false) ↔ PilotFlies config manual
auto_mode_iff config manual = (pilot_flies config manual, selection_false config manual)
