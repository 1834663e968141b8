-- ===== src/Ethercat/Frames.antt =====
-- include/rmd_can_sdk/rmd_realtime_core.h and rmd_ethercat_target_frame.h: what the threads
-- exchange. An array of 64 is a family of which the code reads the first 64; a `std::bitset` is a
-- family of truth values. Times are nanoseconds of the steady clock.
use heimasdk_snapshot_migrat.Prelude.{ℕ, Bool, false, List, replicate}
use heimasdk_snapshot_migrat.Prelude.Int.{ℤ, pos}
use heimasdk_snapshot_migrat.Motor.{Float, MotorTarget, MotorActual, default_target, default_actual}
use heimasdk_snapshot_migrat.Ethercat.MtDevice.{RxProfile}

abbrev pub max_realtime_motors : ℕ
max_realtime_motors = 64

pub record TargetFrame (F : Type 0) : Type 0 where
  pub sequence : ℕ
  pub timestamp : ℤ
  pub motor_count : ℕ
  pub targets : ℕ → MotorTarget F
  pub valid : ℕ → Bool

pub record ActualFrame (F : Type 0) : Type 0 where
  pub sequence : ℕ
  pub timestamp : ℤ
  pub motor_count : ℕ
  pub actuals : ℕ → MotorActual F
  pub valid : ℕ → Bool
  pub stale : ℕ → Bool

-- `rx_bytes` has the 22 bytes of the larger struct.
pub record PackedTarget : Type 0 where
  pub enabled : ℤ
  pub rx_profile : RxProfile
  pub rx_bytes : List ℕ

abbrev pub default_packed : PackedTarget
default_packed = record {
  enabled = pos 0;
  rx_profile = RxProfile.standard;
  rx_bytes = replicate 22 0;
}

pub record PackedFrame : Type 0 where
  pub sequence : ℕ
  pub timestamp : ℤ
  pub motor_count : ℕ
  pub targets : ℕ → PackedTarget
  pub valid : ℕ → Bool

module _ {F : Type 0} ⦃fl : Float F⦄ where
  abbrev pub default_target_frame : TargetFrame F
  default_target_frame = record {
    sequence = 0;
    timestamp = pos 0;
    motor_count = 0;
    targets = λ _. default_target;
    valid = λ _. false;
  }

  abbrev pub default_actual_frame : ActualFrame F
  default_actual_frame = record {
    sequence = 0;
    timestamp = pos 0;
    motor_count = 0;
    actuals = λ _. default_actual;
    valid = λ _. false;
    stale = λ _. false;
  }

abbrev pub default_packed_frame : PackedFrame
default_packed_frame = record {
  sequence = 0;
  timestamp = pos 0;
  motor_count = 0;
  targets = λ _. default_packed;
  valid = λ _. false;
}
