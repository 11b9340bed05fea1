-- ===== src/Realtime/Navigation.antt =====
-- src/main_realtime.c:446-489: the angles in hundredths of a degree, and the navigation target.
use cerebri_cubs.Prelude.{ℕ, String, Bool, ◌&&◌, if◌then◌else◌}
use cerebri_cubs.Prelude.Int.{ℤ, pos, pos_part, leb_ℤ}
use cerebri_cubs.AtomicDouble.{Double}
use cerebri_cubs.OuterLoop.{OuterLoopState}
use cerebri_cubs.Float.{widen}
use cerebri_cubs.Csyn.{Float, Csyn}
use cerebri_cubs.Telemetry.{float_0, as_float}
use cerebri_cubs.Realtime.Mocap.{RigidBody}

pub record NavigationTarget : Type 0 where
  pub timestamp_us : ℕ
  pub altitude_error_m : Float
  pub airspeed_error_m_s : Float
  pub xtrack_error_m : Float
  pub desired_roll_cdeg : ℤ
  pub desired_pitch_cdeg : ℤ
  pub desired_yaw_cdeg : ℤ
  pub target_yaw_cdeg : ℤ
  pub distance_to_waypoint_m : ℕ

-- The point that the distance and the yaw lead to.
pub record Target : Type 0 where
  pub east : Double
  pub north : Double

pub record Bearing : Type 0 where
  pub distance : Float
  pub yaw : ℤ

-- 5729.5779513082325, and 18000.0f, -18000.0f and 65535.0f
abbrev pub cdeg_per_rad : Double
cdeg_per_rad = 0x40b6_6193_f49d_ef8a

abbrev pub float_18000 : Float
float_18000 = 0x468c_a000

abbrev pub float_minus_18000 : Float
float_minus_18000 = 0xc68c_a000

abbrev pub float_65535 : Float
float_65535 = 0x477f_ff00

module _ (csyn : Csyn) where
  unfoldable pub cdeg_from_rad : Double → ℤ
  cdeg_from_rad angle_rad = csyn.to_int16 (
      csyn.clampf (csyn.narrow (csyn.multiply_double angle_rad cdeg_per_rad)) float_minus_18000
        float_18000)

  -- The end of the active leg, or the origin if there is no such leg.
  unfoldable pub target_of : OuterLoopState → Target
  target_of model =
      let wp = model.current_waypoint in
      if leb_ℤ (pos 1) wp && leb_ℤ wp model.route_n_segments
      then record {
        east = model.route_waypoints (pos_part wp) 0;
        north = model.route_waypoints (pos_part wp) 1;
      }
      else record { east = 0; north = 0 }

  unfoldable pub bearing_of : Target → RigidBody → Bearing
  unfolding cdeg_from_rad
  bearing_of target body =
      if body.valid
      then (let d_east = csyn.subtract (csyn.narrow target.east) body.x in
          let d_north = csyn.subtract (csyn.narrow target.north) body.y in
          record {
            distance =
                csyn.square_root
                  (csyn.add (csyn.multiply d_east d_east) (csyn.multiply d_north d_north));
            yaw = cdeg_from_rad (widen (csyn.arc_tangent d_north d_east));
          })
      else record { distance = float_0; yaw = pos 0 }

  -- `auto_mode ? model->a : model->b`
  abbrev pub by_mode : OuterLoopState → Bool → String → String → Double
  by_mode model auto_mode a b = if auto_mode then model.scalar a else model.scalar b

  unfoldable pub update_navigation_target : OuterLoopState → RigidBody → Bool → ℕ → NavigationTarget
  unfolding target_of bearing_of
  update_navigation_target model body auto_mode now_us =
      let bearing = bearing_of (target_of model) body in
      record {
        timestamp_us = now_us;
        altitude_error_m = as_float csyn model "guidance_altitudeError";
        airspeed_error_m_s = csyn.narrow (
            csyn.subtract_double (model.scalar "guidance_estimate_speed")
              (model.scalar "estimator_estimate_speed"));
        xtrack_error_m = as_float csyn model "guidance_crossTrackError";
        desired_roll_cdeg =
            cdeg_from_rad (by_mode model auto_mode "rollCommand" "rollCommandPreview");
        desired_pitch_cdeg =
            cdeg_from_rad (by_mode model auto_mode "tecs_pitchCommand" "pitchCommandPreview");
        desired_yaw_cdeg = cdeg_from_rad (model.scalar "desiredHeading");
        target_yaw_cdeg = bearing.yaw;
        distance_to_waypoint_m = csyn.to_uint16 (csyn.clampf bearing.distance float_0 float_65535);
      }
