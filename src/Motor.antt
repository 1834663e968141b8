-- ===== src/Motor.antt =====
-- include/rmd_can_sdk/rmd_types.h, and the float operations that the SDK uses.
-- A `float` or `double` is a value of a type `F` with the operations of `Float`; no rounding is
-- assumed, and what a theorem needs of the format is a field of `FloatLaws`.
pub mod Limits
pub mod Sample
pub mod Functions
mod Tests
use heimasdk_snapshot_migrat.Prelude.{true, ◌||◌, ℕ, ◌^◌, ◌≤◌, ◌≡◌, Bool, false, List, ltb}
use heimasdk_snapshot_migrat.Prelude.Int.{ℤ, pos}

-- `decimal m k` is the literal m * 10^(-k); `lround` and `truncate` give the integer before any cast;
-- `of_bits` is the value of a 32-bit pattern.
pub record Float (F : Type 0) : Type 0 where
  pub lt : F → F → Bool
  pub eq : F → F → Bool
  pub is_finite : F → Bool
  pub add : F → F → F
  pub sub : F → F → F
  pub mul : F → F → F
  pub div : F → F → F
  pub neg : F → F
  pub of_int : ℤ → F
  pub decimal : ℤ → ℕ → F
  pub lround : F → ℤ
  pub truncate : F → ℤ
  pub of_bits : ℕ → F

module _ {F : Type 0} ⦃fl : Float F⦄ where
  -- A number, which a NaN is not.
  abbrev pub IsNumber : F → Type 0
  IsNumber a = fl.eq a a ≡ true

  -- Both are numbers, and the first is at most the second.
  abbrev pub AtMost : F → F → Type 0
  AtMost a b = (fl.lt a b || fl.eq a b) ≡ true

-- Facts of IEEE 754 comparison: what is compared are numbers, two numbers are in order, and integers
-- up to 2^24 are exact in a `float`.
pub record FloatLaws {F : Type 0} (fl : Float F) : Type 0 where
  pub AtMost-numbers :
      (a b : F) → AtMost ⦃fl = fl⦄ a b → IsNumber ⦃fl = fl⦄ a × IsNumber ⦃fl = fl⦄ b
  pub AtMost_of_not_lt :
      (a b : F)
      → IsNumber ⦃fl = fl⦄ a
      → IsNumber ⦃fl = fl⦄ b
      → fl.lt b a ≡ false
      → AtMost ⦃fl = fl⦄ a b
  pub not_lt_of_AtMost : (a b : F) → AtMost ⦃fl = fl⦄ a b → fl.lt b a ≡ false
  pub lt-of_int :
      (m n : ℕ) → m ≤ 2 ^ 24 → n ≤ 2 ^ 24 → fl.lt (fl.of_int (pos m)) (fl.of_int (pos n)) ≡ ltb m n

pub record MotorParameters (F : Type 0) : Type 0 where
  pub polarity : F
  pub count_bias : F
  pub encoder_resolution : F
  pub gear_ratio_tor : F
  pub gear_ratio_pos_vel : F
  pub rated_current : F
  pub torque_constant : F
  pub rated_torque : F
  pub maximum_torque : F
  pub minimum_position : F
  pub maximum_position : F

pub record MotorTarget (F : Type 0) : Type 0 where
  pub pos : F
  pub vel : F
  pub tor : F
  pub kp : F
  pub kd : F
  pub mode : ℤ
  pub enabled : ℤ
  pub max_current : ℤ

pub record MotorActual (F : Type 0) : Type 0 where
  pub pos : F
  pub vel : F
  pub tor : F
  pub encoder_count : ℤ
  pub temp : ℤ
  pub drive_temp : ℤ
  pub voltage : ℕ
  pub status_word : ℕ
  pub error_code : ℕ

pub data MotorBus : Type 0 where
  can ethercat : MotorBus

pub record MotorConfig (F : Type 0) : Type 0 where
  pub alias : ℤ
  pub master : ℤ
  pub motor_id : ℤ
  pub slave_id : ℤ
  pub ethercat_slave : ℤ
  pub domain : ℤ
  pub bus : MotorBus
  pub type_name : List ℕ
  pub parameters : MotorParameters F

module _ {F : Type 0} ⦃fl : Float F⦄ where
  abbrev pub zero_f : F
  zero_f = fl.of_int (ℤ.pos 0)

  -- The constant `Pi`.
  abbrev pub pi : F
  pi = fl.decimal (ℤ.pos 314159265358979323846) 20

  -- `MotorTarget{}` and `MotorActual{}`.
  abbrev pub default_target : MotorTarget F
  default_target = record {
    pos = zero_f;
    vel = zero_f;
    tor = zero_f;
    kp = zero_f;
    kd = zero_f;
    mode = ℤ.pos 8;
    enabled = ℤ.pos 0;
    max_current = ℤ.pos 1000;
  }

  abbrev pub default_actual : MotorActual F
  default_actual = record {
    pos = zero_f;
    vel = zero_f;
    tor = zero_f;
    encoder_count = ℤ.pos 0;
    temp = ℤ.pos 0;
    drive_temp = ℤ.pos 0;
    voltage = 0;
    status_word = 65535;
    error_code = 0;
  }
