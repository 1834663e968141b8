-- ===== src/Driver/Starting.antt =====
-- `init` and `stop` of `DriverSDK::Impl`: src/rmd_driver_sdk.cpp. Whether the IMU and each backend
-- start is an argument; each call of `init` loads the document that it is given.
pub mod Indexed
pub mod Settled
pub mod Started
pub mod Twice
mod Tests
use heimasdk_snapshot_migrat.Prelude.{
  ℕ, zero, suc, ◌+◌, Bool, true, false, not, List, [], ◌∷◌, ◌++◌, Option, none, some, Result, ok,
  err, ◌>>=◌, if◌then◌else◌, ◌==◌, ltb, ◌&&◌, length, get_elem?, replicate, update,
}
use heimasdk_snapshot_migrat.Prelude.Int.{ℤ, pos, pos_part}
use heimasdk_snapshot_migrat.Motor.{Float, MotorActual, MotorBus, can, ethercat}
use heimasdk_snapshot_migrat.Registry.{RuntimeMotor, BackendGroup, MotorRegistry, from_config}
use heimasdk_snapshot_migrat.Config.{Config, Xml}
use heimasdk_snapshot_migrat.Config.Loading.{load_config}
use heimasdk_snapshot_migrat.Ethercat.Frames.{
  ActualFrame, default_actual_frame, default_target_frame, default_packed_frame,
  max_realtime_motors,
}
use heimasdk_snapshot_migrat.Driver.{BackendRuntime, Driver}

-- What `init` throws; `index_out_of_range` is the `std::out_of_range` of `std::bitset::set`.
pub data InitError : Type 0 where
  not_loaded motors_rejected modes_mismatch currents_mismatch imu_failed : InitError
  index_out_of_range backend_failed : InitError

-- The driver with what runs: the IMU, and the backends by their place among the runtimes.
pub record Session (F : Type 0) : Type 0 where
  pub driver : Driver F
  pub imu_running : Bool
  pub running : List ℕ

pub record Starts : Type 0 where
  pub imu : Bool
  pub backend : ℕ → Bool

-- `ensureOperatingModes` and `ensureMaxCurrents`; a loaded total is not negative.
pub ensure_size {ℓ} : {A : Type ℓ} → A → ℤ → List A → Option (List A)
ensure_size default total [] = some (replicate (pos_part total) default)
ensure_size default total (x ∷ xs) =
    if length (x ∷ xs) == pos_part total then some (x ∷ xs) else none

-- The starts of the backends from place `i` on: those that were started, and whether all were.
pub start_backends : (ℕ → Bool) → ℕ → ℕ → List ℕ × Bool
start_backends starts zero i = ([], true)
start_backends starts (suc left) i =
    let rest = start_backends starts left (suc i) in
    if starts i then (i ∷ rest.0, rest.1) else ([], false)

module _ {F : Type 0} where
  pub stop : Session F → Session F
  stop s = record s {
    driver = record s.driver { runtimes = []; initialized = false };
    imu_running = false;
    running = [];
  }

  -- Up to the settings that every motor needs: the driver with the new configuration, or where it got
  -- to and what was thrown.
  pub settle : Config F → MotorRegistry F → Session F → Session F × Option InitError
  unfolding ensure_size
  settle config registry s =
      let total = config.total_motor_count in
      let d : Driver F = record s.driver {
        total_motor_count = total;
        config_motors = config.motors;
        registry = registry;
      } in
      elim (ensure_size (pos 8) total d.operating_modes) [
        | none ↦ (record s { driver = d }, some modes_mismatch)
        | some modes ↦
            let moded : Driver F = record d { operating_modes = modes } in
            elim (ensure_size 1000 total d.max_currents) [
              | none ↦ (record s { driver = moded }, some currents_mismatch)
              | some currents ↦
                  (record s { driver = record moded { max_currents = currents } }, none)
            ]
      ]

  abbrev mark_initial : RuntimeMotor F → ActualFrame F → ActualFrame F
  mark_initial motor frame = record frame {
    valid = update frame.valid motor.global_index true;
    actuals =
        update frame.actuals motor.global_index
          (record (frame.actuals motor.global_index) { status_word = 0x0000 });
  }

  -- `valid.set` for the motors of a group: whether each index lies in the bitset.
  pub settable : List (RuntimeMotor F) → List ℕ → Bool
  settable motors [] = true
  settable motors (i ∷ indexes) =
      let rest = settable motors indexes in
      elim (get_elem? motors i) [
        | none ↦ rest
        | some motor ↦ ltb motor.global_index max_realtime_motors && rest
      ]

  -- The motors of a group; the registry has each of its indexes.
  pub initial_actuals : List (RuntimeMotor F) → List ℕ → ActualFrame F → ActualFrame F
  initial_actuals motors [] frame = frame
  initial_actuals motors (i ∷ indexes) frame =
      initial_actuals motors indexes
        (elim (get_elem? motors i) [ none ↦ frame | some motor ↦ mark_initial motor frame ])

module _ {F : Type 0} ⦃fl : Float F⦄ where
  pub new_backend_runtime : ℤ → MotorRegistry F → ℕ → BackendGroup → BackendRuntime F
  unfolding initial_actuals
  new_backend_runtime total registry i group = record {
    backend_index = i;
    target_buffer = elim group.bus [
      | can ↦ some (record default_target_frame { motor_count = pos_part total })
      | ethercat ↦ none
    ];
    ethercat_target_buffer = elim group.bus [
      | can ↦ none
      | ethercat ↦ some (record default_packed_frame { motor_count = pos_part total })
    ];
    actual_buffer =
        initial_actuals registry.motors group.motor_indexes
          (record default_actual_frame { motor_count = pos_part total });
  }

  -- The runtimes of the backends from place `i` on, up to the first one with an index outside the
  -- bitset, and whether there was none.
  pub new_runtimes : ℤ → MotorRegistry F → ℕ → List BackendGroup → List (BackendRuntime F) × Bool
  unfolding new_backend_runtime settable
  new_runtimes total registry i [] = ([], true)
  new_runtimes total registry i (group ∷ groups) =
      let rest = new_runtimes total registry (suc i) groups in
      if settable registry.motors group.motor_indexes
      then (new_backend_runtime total registry i group ∷ rest.0, rest.1)
      else ([], false)

  -- The backends, after the IMU.
  pub start_backend_runtimes : Starts → Session F → Session F × Option InitError
  unfolding start_backends stop
  start_backend_runtimes starts s =
      let begun = start_backends starts.backend (length s.driver.runtimes) 0 in
      if begun.1
      then (record s { driver = record s.driver { initialized = true }; running = begun.0 }, none)
      else (stop s, some backend_failed)

  -- An exception of the bitset leaves `init` without a call of `stop`.
  pub start_all : Starts → Session F → Session F × Option InitError
  unfolding start_backend_runtimes new_runtimes
  start_all starts s =
      let made =
        new_runtimes s.driver.total_motor_count s.driver.registry 0 s.driver.registry.backends in
      let filled = record s { driver = record s.driver { runtimes = made.0 } } in
      if made.1 then start_backend_runtimes starts filled else (filled, some index_out_of_range)

  -- An IMU that is configured starts first.
  pub start_imu : Bool → Starts → Session F → Session F × Option InitError
  unfolding start_all
  start_imu enabled starts s =
      if enabled
      then (if starts.imu
          then start_all starts (record s { imu_running = true })
          else (stop s, some imu_failed))
      else start_all starts s

  abbrev pub go_on : Bool → Starts → Session F × Option InitError → Session F × Option InitError
  go_on enabled starts (s, some e) = (s, some e)
  go_on enabled starts (s, none) = start_imu enabled starts s

  -- No configuration that was loaded is rejected by the registry.
  pub init : {E : Type 0} → Xml E F → Option E → Starts → Session F → Session F × Option InitError
  unfolding start_imu settle
  init xml document starts s =
      let stopped = stop s in
      elim (load_config xml document) [
        | err e ↦ (stopped, some not_loaded)
        | ok config ↦ elim (from_config config.total_motor_count config.motors) [
          | err e ↦ (stopped, some motors_rejected)
          | ok registry ↦ go_on config.imu.enabled starts (settle config registry stopped)
        ]
      ]
