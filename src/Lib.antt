-- ===== src/Lib.antt =====
-- The flight software of cerebri_cubs2, the CUBS2 fixed-wing vehicle: its runtime configuration, its two
-- control loops, and the transport to a simulation.
--
-- The program is a Zephyr application in C. A generated controller (`Vehicles_Cubs2_OuterLoop`) is stepped
-- by one of two main loops, src/main_sil.c on simulation time and src/main_realtime.c on the flight
-- hardware. Beside the loop, a thread of the Zenoh transport calls the services of src/runtime_control.c:
-- they read and stage parameters and missions, and the loop takes what is staged at the boundary of its
-- next cycle. When the pilot hands over, the loop of src/main_sil.c initialises the controller anew and
-- restores what was applied. In a simulation subsys/lockstep gives the loop the plant's samples over a
-- shared memory and takes its answers.
--
-- The modules and the code:
--   AtomicDouble   `struct atomic_double` and its operations; Concurrent has the single accesses of a
--                  writer and a reader as steps of a relation, in any order
--   OuterLoop      the members of the generated controller's state that the code names
--   Params         the table of tunable values (Table), the public names (`canonical_name`, `find_value`:
--                  Names) and `apply_value` (Leaves)
--   Route          `apply_route` (Replace)
--   Runtime        `struct runtime_control`, `cubs2_runtime_control_init` (Start),
--                  `cubs2_runtime_control_apply` (Values, Mission, Boundary) and
--                  `cubs2_runtime_control_restore` (Restore, Restart, Keeps); Inv is the invariant; Handover
--                  has the single accesses to the staged mission, in any order (Complete, Delivery),
--                  and Flags those to a single value
--   Flatcc, Reply  the FlatBuffers code as a record of parameters, and `finish_reply` and the `build_…`
--                  functions (Release)
--   Float          `isfinite` of a float and the conversion of a float to a double, on bit patterns
--   Service        `handle_param_set`, `handle_param_get`, `handle_trajectory_set` and `runtime_query`;
--                  Refusals is the test of the segments, Exclusion the writer's flag, Sequence the accesses
--                  of Handover in a row
--   Session        all of src/runtime_control.c over time, as any list of events
--   Csyn           the csyn module, the EFMI functions and the machine's floating point as parameters
--   Mode           `manual_control_valid`, `auto_mode_selected`, `idle_output` of src/main_sil.c
--   Pace           `control_step_due` of src/main_sil.c
--   Odometry, Telemetry   `odometry_valid`, `fixed_wing_map_input`, `fixed_wing_map_output` and
--                  `update_telemetry` of src/main_sil.c
--   Sil            one pass of the loop of src/main_sil.c: `pass` (Output, Outcome, Estimator, Answer)
--                  and `main` before it (Start); Running makes it a ControlLoop
--   Zros           `control_pubs_init` of src/main_sil.c and src/main_realtime.c
--   Realtime       src/main_realtime.c, for the hardware and for FastDyn: `read_mocap_if_updated` and
--                  `mocap_measurement_fresh` (Mocap, Freshness), the other inputs and outputs (Pose), the
--                  messages (Mission, Broadcast, Navigation, Telemetry), one pass of the loop (Loop;
--                  Output, Answer, Exits), its period (Schedule, Deadlines), `main` before the loop (Start),
--                  the loop as a ControlLoop (Running), and with the transport (Transport)
--   Lockstep       subsys/lockstep/lockstep.c, lockstep.h and lockstep_host.c (Descriptors, Start);
--                  Exchange puts `cubs2_lockstep_receive` and `cubs2_lockstep_send` around a pass
--   Program        what the runtime control asks of a loop, as a record of operations and laws
--                  (ControlLoop), and runs of queries and passes in any order (Takes)
--   Tests          concrete runs
--
-- Doubles and floats are bit patterns. The 32-bit counters wrap, as `% 2 ^ 32` says, and so does the
-- 64-bit time of `control_step_due`. There is no fuel: each loop of the code has a constant bound, or runs
-- over a list. Offsets into the controller's state are names of its members.
--
-- The handlers and the calls of the loop are atomic in Runtime, Service, Session and Program: their
-- accesses run with no other thread between them. Interleavings are modelled for one slot, for the
-- mission's counter, slots and flag, for the slot and flag of a single value, and for the writer's flag,
-- in a memory that is sequentially consistent. In Handover and Flags a slot is stored or loaded in one
-- step. The external code is a parameter: what the FlatBuffers verifiers and readers return, what
-- the builder does, the codec of the csyn module, the results of the zros module, the sequence protocol of
-- cerebri_lockstep, the host's system calls, and what the generated controller does in a step.
--
-- Not modelled: the tables of topics (src/csyn_topics.c, src/zros_topics.c) and src/fastdyn_board.c, which
-- hold no logic; the empty stubs of src/runtime_control.h for a build without the runtime control;
-- logging; the test programs under tests; tools/fastdyn_bridge; the build.
pub mod Prelude
pub mod AtomicDouble
pub mod OuterLoop
pub mod Params
pub mod Route
pub mod Runtime
pub mod Flatcc
pub mod Reply
pub mod Float
pub mod Service
pub mod Session
pub mod Csyn
pub mod Mode
pub mod Pace
pub mod Odometry
pub mod Telemetry
pub mod Zros
pub mod Sil
pub mod Realtime
pub mod Lockstep
pub mod Program
pub mod Tests
