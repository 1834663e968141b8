-- ===== src/Lib.antt =====
-- The RMD motor SDK (include/rmd_can_sdk/ and src/): a program sets targets for its motors and gets
-- their actual state; one backend for each bus and master runs the motors in its own threads.
--
-- How the parts interact. The driver (src/rmd_driver_sdk.cpp) keeps a registry of the configured
-- motors (src/rmd_motor_registry.cpp), which numbers them and groups them by backend; it reads them
-- from an XML document (src/rmd_can_config.cpp). Setting the targets limits them
-- (src/rmd_safety.cpp) and publishes a frame to each backend through a lock-free buffer
-- (include/rmd_can_sdk/rmd_snapshot_buffer.h). A CAN backend (src/rmd_can_backend.cpp) packs
-- each target as an MIT frame (src/rmd_protocol.cpp), sends it, and collects the replies until all of
-- its slaves have answered (the trackers of src/rmd_types.cpp) or none does in time; it then
-- publishes a frame of actuals. An EtherCAT backend gets targets that are packed already
-- (src/rmd_ethercat_pdo.cpp) and copies them to and from the domain memory
-- (src/rmd_ethercat_snapshot.cpp) at the places of its bindings (src/rmd_ethercat_bindings.cpp); a
-- watchdog disables the motors when the targets are too old. An inertial unit on a serial line
-- (src/rs232_imu_backend.cpp) publishes through a buffer of its own. The programs of the bench plan
-- their motions with src/rmd_joint_path.cpp, src/rmd_motion_plan.cpp and src/rmd_leg_kinematics.cpp.
--
-- Where each part is modelled:
--   SnapshotBuffer   include/rmd_can_sdk/rmd_snapshot_buffer.h: `create`, `publish` (`store`, then
--                    `exchange`), `read_into` (`attempts`, `take`); SnapshotBuffer/Machine has the
--                    two threads as a step relation
--   Tracker          src/rmd_types.cpp: `mark_received` and `mark_frame` for the two markReceived
--   Motor            include/rmd_can_sdk/rmd_types.h, and in Motor/Limits src/rmd_safety.cpp
--   Registry         src/rmd_motor_registry.cpp: `from_config`, `motor_by_alias`
--   Ethercat         MtDevice, Pdo, Watchdog, Bindings and Snapshot: the files of src/ named
--                    rmd_ethercat_ with that ending (the watchdog stands in rmd_ethercat_pdo.cpp);
--                    Frames: the frames of rmd_realtime_core.h and rmd_ethercat_target_frame.h
--                    Backend: src/rmd_ethercat_backend.cpp, with Backend/Cycle for realtimeLoop,
--                    Backend/Ready for the waits, Backend/States for the state requests,
--                    Backend/Configure for configureMtDevicePdos, Backend/Domains for the domains
--                    of start, and Backend/Starting for start, failStart and stop
--   Status           include/rmd_can_sdk/rmd_motor_backend.h
--   Config           src/rmd_can_config.cpp: `load_config`; Config/Motors, Config/Masters and
--                    Config/Loading for the parts of the document
--   Can              Protocol: src/rmd_protocol.cpp; Backend: src/rmd_can_backend.cpp, with
--                    `rx_step` for a pass of rxLoop and `mit_command`, `tx_frames`, `tx_faults` for
--                    the sends of a pass of txLoop; Backend/Running for start, stop and a whole
--                    pass of each loop
--   Imu              src/rs232_imu_backend.cpp: `feed_byte` is the body of the loop over the input;
--                    Imu/Running: start, stop and a pass of readLoop
--   Driver           src/rmd_driver_sdk.cpp: `set_targets`, `get_actuals`, `get_encoder_counts`,
--                    `set_count_bias`, `set_mode`, `set_max_currents` (Driver/Reading has the gets,
--                    Driver/Setup what is set before init)
--                    Driver/Starting: `init` and `stop`
--   JointPath        src/rmd_joint_path.cpp: `validate_path`, `sample_path`
--   MotionPlan       src/rmd_motion_plan.cpp: `check_sine_target`, `sine_target_at`
--   LegKinematics    src/rmd_leg_kinematics.cpp: `solve_right_leg`; `newton` for the loop of
--                    solveScalarNewton, and `ankle_loop` for that of solveAnkleJointsFromMotors
--   BenchWorkflow    src/rmd_bench_workflow.cpp; Numbers: parseNonNegativeInt; Settings:
--                    parseRealtimeSettings
--   Half             src/common.cpp: `single_to_half`, `half_to_single`; Half/Heima: src/heima_ecat_types.cpp
--   Prelude          shared names, lists over native numbers, bits, integers and machine words
--
-- How the code is rendered. A struct is a record and an enum a data type; a call that throws returns
-- a `Result`; state is passed and returned. An `int` is an integer of Prelude/Int, a machine word a
-- number with its wrap-around written out. A `float` is a value of any type with the operations of
-- `Float` in Motor, so that no theorem rests on a rounding; a theorem that needs a fact of the format
-- takes `FloatLaws`, and its hypotheses say which values are numbers, since `clamp` passes a NaN.
-- Motor/Sample has an instance that satisfies them. A cast of a float beyond the
-- integer's range is undefined in the code and wraps here. Frames of 64 motors are families of which
-- the code reads the first 64; `init` throws for a motor whose index is 64 or more (`settable` of
-- Driver/Starting). A write past the end of the domain memory makes the model's list longer, so that
-- a theorem on the memory's size shows that there is none. The time of an event is an argument.
--
-- The code of others is an argument: the XML document is a record of the calls that are made on it
-- (`Xml` of Config), the EtherCAT master one of its calls (`MasterCalls` of Ethercat/Backend/Configure,
-- `Surroundings` of Ethercat/Backend/Starting), and what a cycle receives its `Inputs`.
--
-- Loops over data are structural, and so are those that the code bounds: the three attempts of
-- `read_into`, where a weak exchange may fail without cause, which an argument decides, and the rounds
-- of the Newton loops. A wait runs over the list of what each of its passes sees. The loops that end
-- only when something outside lets them have fuel, an argument: a state request has one unit for each
-- attempt, and the carry of nanoseconds as many as there are nanoseconds to carry. The versions of the
-- snapshot buffer have 62 bits, enough for over a hundred thousand years at 1 kHz.
--
-- Not modelled: sockets, the serial port, thread priorities and memory locks; src/rmd_can_transport.cpp
-- and src/rmd_process_lock.cpp, which only call the system; src/yesense_imu_decoder.cpp and the
-- libraries under third_party/; the examples and the tests.
pub mod Prelude
pub mod SnapshotBuffer
pub mod Tracker
pub mod Motor
pub mod Registry
pub mod Ethercat
pub mod Config
pub mod Status
pub mod Can
pub mod Imu
pub mod Driver
pub mod JointPath
pub mod MotionPlan
pub mod BenchWorkflow
pub mod LegKinematics
pub mod Half
