-- ===== src/Csyn.antt =====
-- Code that the control loops call and that is not in the repository: the codec and the conversions of
-- the csyn module, the generated controller (EFMI_*), and the machine's floating point.
use cerebri_cubs.Prelude.{ℕ, Bool}
use cerebri_cubs.Prelude.Int.{ℤ}
use cerebri_cubs.AtomicDouble.{Double}
use cerebri_cubs.OuterLoop.{OuterLoopState}

-- A float is its 32-bit pattern.
abbrev pub Float : Type 0
Float = ℕ

pub record Quaternion : Type 0 where
  pub w : Float
  pub x : Float
  pub y : Float
  pub z : Float

pub record Triple : Type 0 where
  pub x : Float
  pub y : Float
  pub z : Float

-- `csyn_rc_channels16_t`: the members `ch0` to `ch15`, each an `int32_t`.
abbrev pub RcChannels : Type 0
RcChannels = ℕ → ℤ

-- `struct csyn_manual_control`
pub record ManualControl : Type 0 where
  pub valid : Bool
  pub rc : RcChannels

-- `narrow` is the conversion of a double to a float, `to_…` those of a float to integers, `double_of`
-- that of an `int32_t` to a double; `arc_tangent` is `atan2f`.
-- `Pwm` is `synapse_topic_PwmSignalOutputsData_t`, and `no_outputs` its value with all bytes 0.
pub record Csyn : Type 1 where
  pub narrow : Double → Float
  pub negate : Float → Float
  pub multiply : Float → Float → Float
  pub add : Float → Float → Float
  pub subtract : Float → Float → Float
  pub absolute : Float → Float
  pub less_equal : Float → Float → Bool
  pub square_root : Float → Float
  pub arc_tangent : Float → Float → Float
  pub to_int32 : Float → ℤ
  pub to_int16 : Float → ℤ
  pub to_uint16 : Float → ℕ
  pub double_of : ℤ → Double
  pub multiply_double : Double → Double → Double
  pub subtract_double : Double → Double → Double
  pub less_double : Double → Double → Bool
  pub clampf : Float → Float → Float → Float
  pub euler_from_quatf : Quaternion → Triple
  pub quatf_from_euler : Float → Float → Float → Quaternion
  pub pwm_from_centered_axis : Float → ℤ
  pub pwm_from_throttle_axis : Float → ℤ
  pub Pwm : Type 0
  pub no_outputs : Pwm
  pub pwm_outputs_from_rc : RcChannels → Pwm → ℤ → Pwm
  pub efmi_init : OuterLoopState → OuterLoopState
  pub efmi_recalibrate : OuterLoopState → OuterLoopState
  pub efmi_step : OuterLoopState → OuterLoopState
