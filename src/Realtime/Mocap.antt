-- ===== src/Realtime/Mocap.antt =====
-- src/main_realtime.c:123-176, `read_mocap_if_updated` and `mocap_measurement_fresh`. The topic of the
-- csyn module and the clock are inputs.
use cerebri_cubs.Prelude.{
  ℕ, Bool, true, false, not, ◌&&◌, ◌||◌, Option, none, some, ◌==◌, if◌then◌else◌,
}
use cerebri_cubs.Prelude.Int.{ℤ, pos, leb_ℤ, ◌-ℤ◌}
use cerebri_cubs.Prelude.Loop.{for_to}
use cerebri_cubs.Float.{is_finite_float}
use cerebri_cubs.Csyn.{Float, Csyn}
use cerebri_cubs.Telemetry.{float_1}

-- `struct csyn_mocap_rigid_body`
pub record RigidBody : Type 0 where
  pub x : Float
  pub y : Float
  pub z : Float
  pub qw : Float
  pub qx : Float
  pub qy : Float
  pub qz : Float
  pub valid : Bool

-- The members `mocap`, `mocap_generation` and `mocap_last_update_ms` of `struct control_context`.
pub record MocapState : Type 0 where
  pub mocap : RigidBody
  pub generation : ℕ
  pub last_update_ms : ℤ

-- What the topic answers: its generation, and the array `values` of a copy if there is one, with
-- whether its length is that of a pose.
pub record PoseTopic : Type 0 where
  pub generation : ℕ
  pub copied : Option ((ℕ → Float) × Bool)

-- CUBS2_MOCAP_FRESHNESS_MS, and CUBS2_QUATERNION_NORM_TOLERANCE as a float.
abbrev pub freshness_ms : ℤ
freshness_ms = pos 100

abbrev pub norm_tolerance : Float
norm_tolerance = 0x3dcc_cccd

unfoldable pub all_values_finite : (ℕ → Float) → Bool
all_values_finite values = for_to 7 (λ i finite. finite && is_finite_float (values i)) true

module _ (csyn : Csyn) where
  open csyn use {multiply, add, subtract, absolute, less_equal}

  abbrev pub norm_squared : (ℕ → Float) → Float
  norm_squared values =
      add
        (add (add (multiply (values 3) (values 3)) (multiply (values 4) (values 4)))
          (multiply (values 5) (values 5)))
        (multiply (values 6) (values 6))

  abbrev pub is_unit : (ℕ → Float) → Bool
  is_unit values = less_equal (absolute (subtract (norm_squared values) float_1)) norm_tolerance

  unfoldable pub body_of : (ℕ → Float) → RigidBody
  body_of values =
      let finite = all_values_finite values in
      record {
        x = values 0;
        y = values 1;
        z = values 2;
        qw = values 3;
        qx = values 4;
        qy = values 5;
        qz = values 6;
        valid = finite && (finite && is_unit values);
      }

  abbrev pub take_pose : MocapState → ℕ → ℤ → Option ((ℕ → Float) × Bool) → MocapState × Bool
  take_pose m generation now_ms none = (m, false)
  take_pose m generation now_ms (some (values, full_length)) =
      if full_length
      then (
        record { mocap = body_of values; generation = generation; last_update_ms = now_ms },
        true,
      )
      else (m, false)

  -- The new state and the result.
  unfoldable pub read_mocap_if_updated : MocapState → PoseTopic → ℤ → MocapState × Bool
  read_mocap_if_updated m topic now_ms =
      if topic.generation == 0 || topic.generation == m.generation
      then (m, false)
      else take_pose m topic.generation now_ms topic.copied

-- The age is a difference of 64-bit times, which does not overflow in the age of a vehicle.
unfoldable pub mocap_measurement_fresh : MocapState → ℤ → Bool
mocap_measurement_fresh m now_ms =
    let age_ms = now_ms -ℤ m.last_update_ms in
    m.mocap.valid && not (m.generation == 0) && leb_ℤ (pos 0) age_ms && leb_ℤ age_ms freshness_ms
