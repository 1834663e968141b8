-- ===== src/Driver/Starting/Tests.antt =====
-- `init` of a document with a CAN motor and an EtherCAT motor, and then of one with the CAN motor alone.
use heimasdk_snapshot_migrat.Prelude.{
  ℕ, zero, suc, length, ◌≡◌, refl, true, false, [], some, none, arith, ◌∷◌,
}
use heimasdk_snapshot_migrat.Prelude.Int.{ℤ, pos}
use heimasdk_snapshot_migrat.Motor.Sample.{whole, sample_parameters}
use heimasdk_snapshot_migrat.Motor.{can}
use heimasdk_snapshot_migrat.Registry.{MotorRegistry}
use heimasdk_snapshot_migrat.Config.Sample.{tree, document, can_document, loads_two, loads_one}
use heimasdk_snapshot_migrat.Config.Loading.Registered.{load_config_registers}
use heimasdk_snapshot_migrat.Driver.Starting.{
  settable, index_out_of_range, Session, Starts, modes_mismatch, start_backends, new_runtimes,
  settle, ensure_size, start_imu, start_all, start_backend_runtimes, stop, init,
}
use heimasdk_snapshot_migrat.Driver.Starting.Indexed.{new_runtimes_few}
use heimasdk_snapshot_migrat.Driver.Starting.Started.{HasEnded, init-HasEnded}
use heimasdk_snapshot_migrat.Driver.Starting.Twice.{init_again_refuses}

-- A driver at rest; every start succeeds.
abbrev at_rest : Session ℤ
at_rest = record {
  driver = record {
    total_motor_count = pos 0;
    registry = record { total_motor_count = pos 0; motors = []; backends = [] };
    runtimes = [];
    operating_modes = [];
    max_currents = [];
    config_motors = [];
    target_sequence = 0;
    initialized = false;
  };
  imu_running = false;
  running = [];
}

abbrev all_start : Starts
all_start = record { imu = true; backend = λ i. true }

begins_all : (n i : ℕ) → (start_backends (λ i. true) n i).1 ≡ true
unfolding start_backends
begins_all zero i = refl
begins_all (suc n) i = begins_all n (suc i)

starts_two : (init tree (some document) all_start at_rest).1 ≡ none
unfolding init settle ensure_size start_imu start_all start_backend_runtimes stop
starts_two =
    let (registry, f, r, _) = load_config_registers tree (some document) loads_two in
    let made = new_runtimes (pos 2) registry 0 registry.backends in
    rw
      (
        loads_two,
        f,
        init,
        new_runtimes_few (pos 2) registry r.numbered (omega arith),
        start_all,
        begins_all (length made.0) 0,
        start_backend_runtimes,
      )
      refl

init-HasEnded_example : HasEnded tree (some document) (init tree (some document) all_start at_rest)
init-HasEnded_example = init-HasEnded tree (some document) all_start at_rest

init_again_refuses_example :
    (init tree (some can_document) all_start (init tree (some document) all_start at_rest).0).1
    ≡ some modes_mismatch
init_again_refuses_example =
    init_again_refuses tree (some document) (some can_document) all_start all_start at_rest
      loads_two loads_one starts_two (omega arith) (λ e. absurd (omega arith))

-- One CAN motor of alias 65, and the driver before its backend is built, with the IMU running.
abbrev far_registry : MotorRegistry ℤ
far_registry = record {
  total_motor_count = pos 65;
  motors =
      record {
        alias = pos 65;
        global_index = 64;
        backend_index = 0;
        backend_local_index = 0;
        bus = can;
        master = pos 0;
        motor_id = pos 1;
        slave_id = pos 1;
        ethercat_slave = pos 0;
        domain = pos 0;
        type_name = [];
        parameters = sample_parameters;
      }
      ∷ [];
  backends = record { bus = can; master = pos 0; motor_indexes = 0 ∷ [] } ∷ [];
}

abbrev far_driver : Session ℤ
far_driver = record at_rest {
  driver = record at_rest.driver { total_motor_count = pos 65; registry = far_registry };
  imu_running = true;
}

start_all_throws : start_all all_start far_driver ≡ (far_driver, some index_out_of_range)
unfolding start_all new_runtimes settable
start_all_throws = refl
