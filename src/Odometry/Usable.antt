-- ===== src/Odometry/Usable.antt =====
-- When the SIL loop steps the controller on a sample (src/main_sil.c:75-87).
use cerebri_cubs.Prelude.{◌≡◌, ◌↔◌, true, false, arith}
use cerebri_cubs.Odometry.{Odometry, OdometryStatus, odometry_valid}

-- What the odometry has to be for the controller to be stepped on it.
pub record IsUsable (odom : Odometry) : Type 0 where
  pub position : odom.flags.position_valid ≡ true
  pub attitude : odom.flags.attitude_valid ≡ true
  pub velocity : odom.flags.linear_velocity_valid ≡ true
  pub rates : odom.flags.angular_velocity_valid ≡ true
  pub no_outlier : odom.flags.outlier_rejected ≡ false
  pub not_lost : odom.flags.lost ≡ false
  pub status : odom.status ≡ OdometryStatus.status_other

valid_flags : (odom : Odometry) → odometry_valid odom ≡ true → IsUsable odom
unfolding odometry_valid
valid_flags odom h = record {
  position = ground arith;
  attitude = ground arith;
  velocity = ground arith;
  rates = ground arith;
  no_outlier = ground arith;
  not_lost = ground arith;
  status = ground arith;
}

flags_valid : (odom : Odometry) → IsUsable odom → odometry_valid odom ≡ true
unfolding odometry_valid
flags_valid odom u =
    simp (u.position, u.attitude, u.velocity, u.rates, u.no_outlier, u.not_lost, u.status)

pub odometry_valid_iff : (odom : Odometry) → (odometry_valid odom ≡ true) ↔ IsUsable odom
odometry_valid_iff odom = (valid_flags odom, flags_valid odom)
