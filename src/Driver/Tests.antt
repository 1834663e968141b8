-- ===== src/Driver/Tests.antt =====
-- A driver with a CAN motor and an EtherCAT motor.
use heimasdk_snapshot_migrat.Prelude.{
  inl, inr, ℕ, ◌≡◌, refl, ◌↔◌, true, List, [], ◌∷◌, map, none, some, ok, arith, length,
}
use heimasdk_snapshot_migrat.Prelude.Int.{ℤ, pos}
use heimasdk_snapshot_migrat.Motor.{MotorBus, can, ethercat}
use heimasdk_snapshot_migrat.Motor.Limits.{HasLimits}
use heimasdk_snapshot_migrat.Motor.Sample.{whole-IsNumber, sample_parameters, whole, whole_laws}
use heimasdk_snapshot_migrat.Registry.{RuntimeMotor, MotorRegistry}
use heimasdk_snapshot_migrat.Ethercat.Frames.{
  TargetFrame, PackedFrame, default_target_frame, default_packed_frame, default_actual_frame,
}
use heimasdk_snapshot_migrat.Driver.{
  to_can_target, Driver, PublicTarget, PublicActual, default_public_target, default_public_actual,
  next_sequence, publish_to, set_targets,
}
use heimasdk_snapshot_migrat.Driver.Reading.{get_actuals}
use heimasdk_snapshot_migrat.Driver.Targets.{asked_of, IsFilled, set_targets-IsFilled}
use heimasdk_snapshot_migrat.Driver.Actuals.{RuntimesFresh, get_actuals-fresh}

abbrev motor : ℕ → MotorBus → RuntimeMotor ℤ
motor n bus = record {
  alias = pos n;
  global_index = n;
  backend_index = n;
  backend_local_index = 0;
  bus = bus;
  master = pos 0;
  motor_id = pos n;
  slave_id = pos n;
  ethercat_slave = pos 0;
  domain = pos 0;
  type_name = [];
  parameters = sample_parameters;
}

abbrev registry : MotorRegistry ℤ
registry = record {
  total_motor_count = pos 2;
  motors = motor 0 can ∷ motor 1 ethercat ∷ [];
  backends =
      record { bus = can; master = pos 0; motor_indexes = 0 ∷ [] }
      ∷ record { bus = ethercat; master = pos 0; motor_indexes = 1 ∷ [] }
      ∷ [];
}

abbrev driver : Driver ℤ
driver = record {
  total_motor_count = pos 2;
  config_motors = [];
  registry = registry;
  runtimes =
      record {
        backend_index = 0;
        target_buffer = some default_target_frame;
        ethercat_target_buffer = none;
        actual_buffer = default_actual_frame;
      }
      ∷ record {
        backend_index = 1;
        target_buffer = none;
        ethercat_target_buffer = some default_packed_frame;
        actual_buffer = default_actual_frame;
      }
      ∷ [];
  operating_modes = pos 8 ∷ pos 5 ∷ [];
  max_currents = 1000 ∷ 1000 ∷ [];
  target_sequence = 0;
  initialized = true;
}

abbrev asked : List (PublicTarget ℤ)
asked = default_public_target ∷ record default_public_target { pos = pos 40 } ∷ []

sample-HasLimits : HasLimits sample_parameters
sample-HasLimits = record { positions = refl; torques = refl }

set_targets-IsFilled_example :
    (frames : TargetFrame ℤ × PackedFrame) × IsFilled (pos 7000) driver asked registry.motors frames
    × (set_targets (pos 7000) asked driver
        ≡ ok (
          pos 0,
          record driver {
            target_sequence = next_sequence driver;
            runtimes = map (publish_to frames.0 frames.1) driver.runtimes;
          },
        ))
set_targets-IsFilled_example =
    set_targets-IsFilled whole_laws (pos 7000) asked driver refl
      (
        (
          sample-HasLimits,
          omega arith,
          omega arith,
          omega arith,
          omega arith,
          inr (record {
            pos_number =
                whole-IsNumber (to_can_target (asked_of asked (motor 0 can)) sample_parameters).pos;
            tor_number =
                whole-IsNumber (to_can_target (asked_of asked (motor 0 can)) sample_parameters).tor;
            kp_number = refl;
            kd_number = refl;
          }),
        ),
        ((sample-HasLimits, omega arith, omega arith, omega arith, omega arith, inl refl), tt),
      )
      ((λ e. absurd (omega arith), tt), (tt, tt))

abbrev shown : List (PublicActual ℤ)
shown = default_public_actual ∷ default_public_actual ∷ []

get_actuals-fresh_example :
    (code : ℤ) × (out : List (PublicActual ℤ)) × (get_actuals shown driver ≡ ok (code, out))
    × (length out ≡ length shown)
    × ((code ≡ pos 0) ↔ RuntimesFresh registry driver.runtimes)
get_actuals-fresh_example =
    get_actuals-fresh shown driver refl
      ((_, refl, ((_, refl), tt)), ((_, refl, ((_, refl), tt)), tt))
