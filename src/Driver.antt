-- ===== src/Driver.antt =====
-- src/rmd_driver_sdk.cpp, `DriverSDK::Impl`: the targets that a program sets and the actuals that
-- it gets, for all backends together. A frame buffer is the frame that was published last, as a
-- reader gets it (the component SnapshotBuffer); a backend of the other bus has none.
pub mod Reading
pub mod Setup
pub mod Starting
pub mod Targets
pub mod Actuals
pub mod Encoders
pub mod CountBias
mod Tests
use heimasdk_snapshot_migrat.Prelude.{
  ℕ, ◌+◌, ◌-◌, ◌%◌, ◌^◌, Bool, true, false, not, ◌&&◌, ◌||◌, List, [], ◌∷◌, map, Option, none, some,
  Result, ok, err, ◌>>=◌, if◌then◌else◌, ◌==◌, length, get_elem?, get_or, set, update,
}
use heimasdk_snapshot_migrat.Prelude.Int.{ℤ, pos, negsuc, neg_ℤ, ◌-ℤ◌, ◌==ℤ◌, pos_part}
use heimasdk_snapshot_migrat.Motor.{
  Float, MotorParameters, MotorTarget, MotorActual, MotorBus, MotorConfig, can, ethercat,
  default_target, zero_f,
}
use heimasdk_snapshot_migrat.Motor.Limits.{clamp, limit_target}
use heimasdk_snapshot_migrat.Registry.{RuntimeMotor, BackendGroup, MotorRegistry, from_config}
use heimasdk_snapshot_migrat.Ethercat.MtDevice.{rx_profile_for_mode}
use heimasdk_snapshot_migrat.Ethercat.Frames.{
  TargetFrame, ActualFrame, PackedFrame, default_target_frame, default_packed_frame,
}
use heimasdk_snapshot_migrat.Ethercat.Pdo.{pack_for_realtime}

pub record PublicTarget (F : Type 0) : Type 0 where
  pub pos : F
  pub vel : F
  pub tor : F
  pub kp : F
  pub kd : F
  pub enabled : ℤ

pub record PublicActual (F : Type 0) : Type 0 where
  pub pos : F
  pub vel : F
  pub tor : F
  pub temp : ℤ
  pub drive_temp : ℤ
  pub voltage : ℕ
  pub status_word : ℕ
  pub error_code : ℕ

pub record BackendRuntime (F : Type 0) : Type 0 where
  pub backend_index : ℕ
  pub target_buffer : Option (TargetFrame F)
  pub ethercat_target_buffer : Option PackedFrame
  pub actual_buffer : ActualFrame F

pub record Driver (F : Type 0) : Type 0 where
  pub total_motor_count : ℤ
  pub config_motors : List (MotorConfig F)
  pub registry : MotorRegistry F
  pub runtimes : List (BackendRuntime F)
  pub operating_modes : List ℤ
  pub max_currents : List ℕ
  pub target_sequence : ℕ
  pub initialized : Bool

-- What `at` throws.
pub data DriverError : Type 0 where
  mode_missing current_missing backend_missing motor_missing alias_rejected : DriverError

-- `std::numeric_limits<int>::min()`.
abbrev pub int_min : ℤ
int_min = negsuc (2 ^ 31 - 1)

abbrev pub is_ethercat : MotorBus → Bool
is_ethercat can = false
is_ethercat ethercat = true

module _ {F : Type 0} where
  abbrev pub copy_public_actual : MotorActual F → PublicActual F
  copy_public_actual actual = record {
    pos = actual.pos;
    vel = actual.vel;
    tor = actual.tor;
    temp = actual.temp;
    drive_temp = actual.drive_temp;
    voltage = actual.voltage;
    status_word = actual.status_word;
    error_code = actual.error_code;
  }

  abbrev pub accepts : Driver F → ℕ → Bool
  accepts d size = d.initialized && ℤ.pos size ==ℤ d.total_motor_count

  abbrev pub publish_to : TargetFrame F → PackedFrame → BackendRuntime F → BackendRuntime F
  publish_to frame packed r = record r {
    target_buffer = elim r.target_buffer [ none ↦ none | some _ ↦ some frame ];
    ethercat_target_buffer = elim r.ethercat_target_buffer [ none ↦ none | some _ ↦ some packed ];
  }

module _ {F : Type 0} ⦃fl : Float F⦄ where
  abbrev pub default_public_target : PublicTarget F
  default_public_target = record {
    pos = zero_f;
    vel = zero_f;
    tor = zero_f;
    kp = zero_f;
    kd = zero_f;
    enabled = ℤ.pos 0;
  }

  abbrev pub default_public_actual : PublicActual F
  default_public_actual = record {
    pos = zero_f;
    vel = zero_f;
    tor = zero_f;
    temp = ℤ.pos 0;
    drive_temp = ℤ.pos 0;
    voltage = 0;
    status_word = 0xffff;
    error_code = 0;
  }

  abbrev pub to_public_actual : MotorActual F → MotorParameters F → PublicActual F
  to_public_actual actual params = record (copy_public_actual actual) {
    pos = fl.mul params.polarity (fl.sub actual.pos params.count_bias);
    vel = fl.mul params.polarity actual.vel;
    tor = fl.mul params.polarity actual.tor;
  }

  abbrev pub to_can_target : PublicTarget F → MotorParameters F → MotorTarget F
  to_can_target target params =
      let p = clamp target.pos params.minimum_position params.maximum_position in
      let t = clamp target.tor (fl.neg params.maximum_torque) params.maximum_torque in
      record default_target {
        pos = fl.add (fl.mul params.polarity p) params.count_bias;
        vel = fl.mul params.polarity target.vel;
        tor = fl.mul params.polarity t;
        kp = target.kp;
        kd = target.kd;
        enabled = target.enabled;
      }

  abbrev pub to_ethercat_target : PublicTarget F → MotorParameters F → ℤ → ℕ → MotorTarget F
  to_ethercat_target target params mode max_current = record {
    pos = clamp target.pos params.minimum_position params.maximum_position;
    vel = target.vel;
    tor = clamp target.tor (fl.neg params.maximum_torque) params.maximum_torque;
    kp = target.kp;
    kd = target.kd;
    mode = mode;
    enabled = target.enabled;
    max_current = ℤ.pos max_current;
  }

  -- The two frames with one motor's target; an index past the data is not checked in the code.
  pub fill_motor :
      Driver F
      → List (PublicTarget F)
      → RuntimeMotor F
      → TargetFrame F × PackedFrame
      → Result DriverError (TargetFrame F × PackedFrame)
  fill_motor d targets motor (frame, packed) =
      let index = motor.global_index in
      let asked = get_or targets index default_public_target in
      if is_ethercat motor.bus
      then elim (get_elem? d.operating_modes index) [
        | none ↦ err mode_missing
        | some mode ↦ elim (get_elem? d.max_currents index) [
          | none ↦ err current_missing
          | some current ↦ ok (
            frame,
            record packed {
              targets = update packed.targets index (
                  pack_for_realtime (to_ethercat_target asked motor.parameters mode current)
                    motor.parameters (rx_profile_for_mode mode));
              valid = update packed.valid index true;
            },
          )
        ]
      ]
      else ok (
        record frame {
          targets =
              update frame.targets index
                (limit_target (to_can_target asked motor.parameters) motor.parameters).target;
          valid = update frame.valid index true;
        },
        packed,
      )

  pub fill_motors :
      Driver F
      → List (PublicTarget F)
      → List (RuntimeMotor F)
      → TargetFrame F × PackedFrame
      → Result DriverError (TargetFrame F × PackedFrame)
  fill_motors d targets [] frames = ok frames
  fill_motors d targets (motor ∷ rest) frames =
      fill_motor d targets motor frames >>= fill_motors d targets rest

  abbrev pub next_sequence : Driver F → ℕ
  next_sequence d = (d.target_sequence + 1) % 2 ^ 64

  abbrev pub empty_frames : ℤ → Driver F → TargetFrame F × PackedFrame
  empty_frames now d = (
    record default_target_frame {
      sequence = next_sequence d;
      timestamp = now;
      motor_count = pos_part d.total_motor_count;
    },
    record default_packed_frame {
      sequence = next_sequence d;
      timestamp = now;
      motor_count = pos_part d.total_motor_count;
    },
  )

  -- An exception leaves only the sequence number changed.
  pub set_targets : ℤ → List (PublicTarget F) → Driver F → Result DriverError (ℤ × Driver F)
  set_targets now targets d =
      if not (accepts d (length targets))
      then ok (int_min, d)
      else (fill_motors d targets d.registry.motors (empty_frames now d) >>= λ frames. ok (
        ℤ.pos 0,
        record d {
          target_sequence = next_sequence d;
          runtimes = map (publish_to frames.0 frames.1) d.runtimes;
        },
      ))
