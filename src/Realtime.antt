-- ===== src/Realtime.antt =====
-- src/main_realtime.c, the loop on the flight hardware and under FastDyn: its inputs and outputs (Mocap,
-- Freshness, Pose), its messages (Mission, Broadcast, Navigation, Telemetry), one pass (Loop; Output,
-- Answer, Exits), its period (Schedule, Deadlines), its start (Start), and the loop with the runtime
-- control (Running) and with the transport (Transport).
pub mod Mission
pub mod Broadcast
pub mod Mocap
pub mod Freshness
pub mod Pose
pub mod Navigation
pub mod Telemetry
pub mod Loop
pub mod Schedule
pub mod Output
pub mod Answer
pub mod Deadlines
pub mod Start
pub mod Running
pub mod Exits
pub mod Transport
