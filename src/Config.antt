-- ===== src/Config.antt =====
-- src/rmd_can_config.cpp: the configuration file read into a `Config` of
-- include/rmd_can_sdk/rmd_types.h. The XML library is not this repository's code: its document is a
-- type `E` of elements with the calls that the SDK makes, the fields of `Xml`. `children e name` is
-- what `FirstChildElement(name)` and then `NextSiblingElement(name)` visit, a finite list.
pub mod Motors
pub mod Masters
pub mod Loading
pub mod Sample
mod Tests
use heimasdk_snapshot_migrat.Prelude.{
  ℕ, Bool, true, false, ◌||◌, List, [], ◌∷◌, Option, none, some, Result, ok, err, ◌>>=◌, map, codes,
  if◌then◌else◌, ◌==◌,
}
use heimasdk_snapshot_migrat.Prelude.Int.{ℤ, pos, negsuc, ◌==ℤ◌, leb_ℤ, ltb_ℤ}
use heimasdk_snapshot_migrat.Motor.{MotorParameters, MotorBus, can, ethercat, MotorConfig}
use heimasdk_snapshot_migrat.Ethercat.MtDevice.{to_upper, bytes_eq}

pub record MasterConfig : Type 0 where
  pub order : ℤ
  pub device : List ℕ
  pub baudrate : ℤ
  pub canfd : Bool
  pub dbaudrate : ℤ
  pub division : ℤ

pub record ImuConfig : Type 0 where
  pub enabled : Bool
  pub device : List ℕ
  pub baudrate : ℤ
  pub type_name : List ℕ
  pub normalized_type : List ℕ

pub record Config (F : Type 0) : Type 0 where
  pub period_ns : ℤ
  pub ethercat_dc : Bool
  pub total_motor_count : ℤ
  pub masters : List MasterConfig
  pub domain_divisions : List ℤ
  pub motors : List (MotorConfig F)
  pub imu : ImuConfig

-- `MasterConfig{}` and `Config{}`.
abbrev pub default_master : MasterConfig
default_master = record {
  order = pos 0;
  device = [];
  baudrate = pos 1_000_000;
  canfd = false;
  dbaudrate = pos 5_000_000;
  division = pos 1;
}

abbrev pub default_config : {F : Type 0} → Config F
default_config = record {
  period_ns = pos 1_000_000;
  ethercat_dc = false;
  total_motor_count = pos 0;
  masters = [];
  domain_divisions = [];
  motors = [];
  imu = record {
    enabled = false;
    device = [];
    baudrate = pos 0;
    type_name = [];
    normalized_type = [];
  };
}

pub record Xml (E F : Type 0) : Type 0 where
  pub children : E → List ℕ → List E
  pub attribute : E → List ℕ → Option (List ℕ)
  pub int_attribute : E → List ℕ → ℤ → ℤ
  pub int64_attribute : E → List ℕ → ℤ → ℤ
  pub bool_attribute : E → List ℕ → Bool → Bool
  pub int_text : E → ℤ → ℤ
  pub float_text : E → F

-- The exceptions; an element that is missing is named.
pub data ConfigError : Type 0 where
  load_failed root_missing bus_missing bus_unsupported : ConfigError
  element_missing : List ℕ → ConfigError
  explicit_invalid can_id_missing ethercat_slave_missing : ConfigError
  ethercat_entry_invalid can_entry_invalid : ConfigError

abbrev pub first {ℓ} : {A : Type ℓ} → List A → Option A
first [] = none
first (x ∷ xs) = some x

-- An attribute that is not there reads as the empty text.
abbrev pub text_or_empty : Option (List ℕ) → List ℕ
text_or_empty none = []
text_or_empty (some text) = text

pub starts_with : List ℕ → List ℕ → Bool
starts_with value [] = true
starts_with [] (p ∷ prefix) = false
starts_with (v ∷ value) (p ∷ prefix) = if v == p then starts_with value prefix else false

abbrev pub normalize_upper : List ℕ → List ℕ
normalize_upper = map to_upper

pub parse_motor_bus : Option (List ℕ) → Result ConfigError MotorBus
parse_motor_bus none = err bus_missing
parse_motor_bus (some bus) =
    if bytes_eq (normalize_upper bus) (codes "CAN")
    then ok can
    else if bytes_eq (normalize_upper bus) (codes "ECAT")
        || bytes_eq (normalize_upper bus) (codes "ETHERCAT")
    then ok ethercat
    else err bus_unsupported

module _ {E F : Type 0} (xml : Xml E F) where
  -- `FirstChildElement(name)`, and the children of a child that may be missing.
  abbrev pub child : E → List ℕ → Option E
  child parent name = first (xml.children parent name)

  abbrev pub children_of : Option E → List ℕ → List E
  children_of none name = []
  children_of (some parent) name = xml.children parent name

  pub required_child : E → List ℕ → Result ConfigError E
  required_child parent name = elim (child parent name) [
    | none ↦ err (element_missing name)
    | some e ↦ ok e
  ]

  pub required_float : E → List ℕ → Result ConfigError F
  required_float parent name = required_child parent name >>= λ e. ok (xml.float_text e)

  -- The names in the order of their trial: the value of the first that is there.
  pub first_int_attribute : E → List (List ℕ) → ℤ → ℤ
  first_int_attribute element [] fallback = fallback
  first_int_attribute element (name ∷ names) fallback = elim (xml.attribute element name) [
    | some text ↦ xml.int_attribute element name (pos 0)
    | none ↦ first_int_attribute element names fallback
  ]

  pub read_parameters : E → Result ConfigError (MotorParameters F)
  read_parameters motor = do
    polarity ← required_float motor (codes "Polarity")
    count_bias ← required_float motor (codes "CountBias")
    encoder_resolution ← required_float motor (codes "EncoderResolution")
    gear_ratio_tor ← required_float motor (codes "GearRatioTor")
    gear_ratio_pos_vel ← required_float motor (codes "GearRatioPosVel")
    rated_current ← required_float motor (codes "RatedCurrent")
    torque_constant ← required_float motor (codes "TorqueConstant")
    rated_torque ← required_float motor (codes "RatedTorque")
    maximum_torque ← required_float motor (codes "MaximumTorque")
    minimum_position ← required_float motor (codes "MinimumPosition")
    maximum_position ← required_float motor (codes "MaximumPosition")
    ok (record {
      polarity = polarity;
      count_bias = count_bias;
      encoder_resolution = encoder_resolution;
      gear_ratio_tor = gear_ratio_tor;
      gear_ratio_pos_vel = gear_ratio_pos_vel;
      rated_current = rated_current;
      torque_constant = torque_constant;
      rated_torque = rated_torque;
      maximum_torque = maximum_torque;
      minimum_position = minimum_position;
      maximum_position = maximum_position;
    })
