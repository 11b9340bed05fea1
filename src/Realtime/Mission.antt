-- ===== src/Realtime/Mission.antt =====
-- src/main_realtime.c:354-444, `update_mission_telemetry`: the progress, the target point, and one
-- segment of the route at every tenth call.
use cerebri_cubs.Prelude.{
  ℕ, ◌+◌, ◌-◌, ◌%◌, ◌^◌, Bool, ◌&&◌, Option, none, some, ltb, leb, ◌==◌, if◌then◌else◌,
}
use cerebri_cubs.Prelude.Int.{ℤ, pos, negsuc, leb_ℤ}
use cerebri_cubs.OuterLoop.{OuterLoopState}
use cerebri_cubs.Csyn.{Float, Triple, Csyn}

-- CUBS2_MISSION_BROADCAST_PERIOD and CUBS2_MISSION_ID
abbrev pub broadcast_period : ℕ
broadcast_period = 10

abbrev pub mission_id : ℕ
mission_id = 1

-- `(uint16_t)` of an `int32_t`, and of an unsigned number.
abbrev pub u16 : ℕ → ℕ
u16 n = n % 2 ^ 16

abbrev pub u16_of : ℤ → ℕ
u16_of (pos n) = u16 n
u16_of (negsuc n) = 2 ^ 16 - 1 - u16 n

pub record MissionProgress : Type 0 where
  pub timestamp_us : ℕ
  pub mission_id : ℕ
  pub current_seq : ℕ
  pub total : ℕ
  pub active : Bool

-- The members that vary.
pub record LocalPosition : Type 0 where
  pub timestamp_us : ℕ
  pub position_enu_m : Triple
  pub yaw_rad : Float

-- All four points of the segment are the same one; the two flags are records of their bits.
pub record TrajectorySegment : Type 0 where
  pub timestamp_us : ℕ
  pub waypoint : Triple
  pub trajectory_id : ℕ
  pub segment_seq : ℕ
  pub plan_version : ℕ
  pub is_start : Bool
  pub is_final : Bool

-- `mission_broadcast_countdown` and `mission_broadcast_seq` of `struct control_context`.
pub record MissionBroadcast : Type 0 where
  pub countdown : ℕ
  pub seq : ℕ

pub record MissionTelemetry : Type 0 where
  pub progress : MissionProgress
  pub command : LocalPosition
  pub segment : Option TrajectorySegment
  pub next : MissionBroadcast

abbrev pub total_of : OuterLoopState → ℕ
total_of model = u16_of model.route_n_segments

unfoldable pub current_seq_of : OuterLoopState → ℕ
current_seq_of model =
    let seq =
      if leb_ℤ (pos 1) model.current_waypoint
      then u16 (u16_of model.current_waypoint + 2 ^ 32 - 1)
      else 0 in
    if ltb 0 (total_of model) && leb (total_of model) seq then total_of model - 1 else seq

module _ (csyn : Csyn) where
  -- `route_waypoints[row]`, as floats.
  abbrev pub route_point : OuterLoopState → ℕ → Triple
  route_point model row = record {
    x = csyn.narrow (model.route_waypoints row 0);
    y = csyn.narrow (model.route_waypoints row 1);
    z = csyn.narrow (model.route_waypoints row 2);
  }

  abbrev pub segment_of : OuterLoopState → ℕ → ℕ → TrajectorySegment
  segment_of model now_us seq = record {
    timestamp_us = now_us;
    waypoint = route_point model (seq + 1);
    trajectory_id = mission_id;
    segment_seq = seq;
    plan_version = mission_id;
    is_start = seq == 0;
    is_final = seq + 1 == total_of model;
  }

  -- src/main_realtime.c:401-443
  unfoldable pub broadcast :
      OuterLoopState → ℕ → MissionBroadcast → Option TrajectorySegment × MissionBroadcast
  broadcast model now_us b =
      if ltb 0 b.countdown
      then (none, record b { countdown = b.countdown - 1 })
      else if total_of model == 0
      then (none, record b { countdown = broadcast_period - 1 })
      else let seq = if leb (total_of model) b.seq then 0 else b.seq in
        (
          some (segment_of model now_us seq),
          record { countdown = broadcast_period - 1; seq = u16 (seq + 1) },
        )

  unfoldable pub update_mission_telemetry :
      OuterLoopState → (auto_mode mocap_valid : Bool) → ℕ → MissionBroadcast → MissionTelemetry
  update_mission_telemetry model auto_mode mocap_valid now_us b =
      let current_seq = current_seq_of model in
      let sent = broadcast model now_us b in
      record {
        progress = record {
          timestamp_us = now_us;
          mission_id = mission_id;
          current_seq = current_seq;
          total = total_of model;
          active = auto_mode && mocap_valid;
        };
        command = record {
          timestamp_us = now_us;
          position_enu_m = route_point model (current_seq + 1);
          yaw_rad = csyn.narrow (model.scalar "desiredHeading");
        };
        segment = sent.0;
        next = sent.1;
      }
