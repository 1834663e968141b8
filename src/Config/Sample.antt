-- ===== src/Config/Sample.antt =====
-- A document as a tree of elements, with two motors on the two buses.
use heimasdk_snapshot_migrat.Prelude.{
  ◌≡◌, refl, ok, ℕ, Bool, List, [], ◌∷◌, Option, none, some, codes, if◌then◌else◌,
}
use heimasdk_snapshot_migrat.Prelude.Int.{ℤ, pos, negsuc}
use heimasdk_snapshot_migrat.Motor.{MotorConfig, can, ethercat}
use heimasdk_snapshot_migrat.Motor.Sample.{sample_parameters}
use heimasdk_snapshot_migrat.Ethercat.MtDevice.{bytes_eq}
use heimasdk_snapshot_migrat.Config.{
  required_child, required_float, read_parameters, parse_motor_bus, starts_with,
  first_int_attribute, Config, Xml, default_config,
}
use heimasdk_snapshot_migrat.Config.Motors.{
  read_parameter_map, put_parameters, find_parameters, parameters_of, can_slave, explicit_ids,
  explicit_motor, place_motors, upsert_motor,
}
use heimasdk_snapshot_migrat.Config.Masters.{read_can_masters, read_imu_config}
use heimasdk_snapshot_migrat.Config.Loading.{
  load_config, load_root, read_can, read_ethercat_config, read_explicit_placements,
}

-- An element: its name, its attributes with text and number, its own number, and its children.
mutual
  pub data Element : Type 0 where
    element : List ℕ → List (List ℕ × List ℕ × ℤ) → ℤ → Elements → Element

  pub data Elements : Type 0 where
    nil : Elements
    cons : Element → Elements → Elements

abbrev pub named : List ℕ → Element → Bool
named name (element n attributes number inner) = bytes_eq n name

abbrev pub select : List ℕ → Elements → List Element
select name nil = []
select name (cons e es) = let rest = select name es in if named name e then e ∷ rest else rest

abbrev pub inner_of : Element → Elements
inner_of (element n attributes number inner) = inner

abbrev pub attributes_of : Element → List (List ℕ × List ℕ × ℤ)
attributes_of (element n attributes number inner) = attributes

abbrev pub number_of : Element → ℤ
number_of (element n attributes number inner) = number

abbrev pub lookup : List ℕ → List (List ℕ × List ℕ × ℤ) → Option (List ℕ × ℤ)
lookup name [] = none
lookup name (a ∷ attributes) = if bytes_eq a.0 name then some (a.1, a.2) else lookup name attributes

abbrev pub text_part : Option (List ℕ × ℤ) → Option (List ℕ)
text_part none = none
text_part (some a) = some a.0

abbrev pub number_or : Option (List ℕ × ℤ) → ℤ → ℤ
number_or none fallback = fallback
number_or (some a) fallback = a.1

abbrev pub tree : Xml Element ℤ
tree = record {
  children = λ e name. select name (inner_of e);
  attribute = λ e name. text_part (lookup name (attributes_of e));
  int_attribute = λ e name fallback. number_or (lookup name (attributes_of e)) fallback;
  int64_attribute = λ e name fallback. number_or (lookup name (attributes_of e)) fallback;
  bool_attribute = λ e name fallback. fallback;
  int_text = λ e fallback. number_of e;
  float_text = number_of;
}

abbrev pub from_list : List Element → Elements
from_list [] = nil
from_list (e ∷ es) = cons e (from_list es)

abbrev pub number : List ℕ → ℤ → List ℕ × List ℕ × ℤ
number name n = (name, [], n)

abbrev pub text : List ℕ → List ℕ → List ℕ × List ℕ × ℤ
text name t = (name, t, pos 0)

abbrev pub leaf : List ℕ → ℤ → Element
leaf name n = element name [] n nil

abbrev pub parameter_leaves : Elements
parameter_leaves = from_list (
    leaf (codes "Polarity") (pos 1)
    ∷ leaf (codes "CountBias") (pos 0)
    ∷ leaf (codes "EncoderResolution") (pos 4000)
    ∷ leaf (codes "GearRatioTor") (pos 1)
    ∷ leaf (codes "GearRatioPosVel") (pos 1)
    ∷ leaf (codes "RatedCurrent") (pos 2)
    ∷ leaf (codes "TorqueConstant") (pos 5)
    ∷ leaf (codes "RatedTorque") (pos 10)
    ∷ leaf (codes "MaximumTorque") (pos 24)
    ∷ leaf (codes "MinimumPosition") (negsuc 2)
    ∷ leaf (codes "MaximumPosition") (pos 9)
    ∷ [])

-- Motor 1 is a CAN motor, motor 2 an EtherCAT one that is placed explicitly.
abbrev pub can_motor : Element
can_motor = element (codes "Motor") (number (codes "alias") (pos 1) ∷ []) (pos 0) parameter_leaves

abbrev pub ethercat_motor : Element
ethercat_motor =
    element (codes "Motor")
      (number (codes "alias") (pos 2)
        ∷ text (codes "bus") (codes "ecat")
        ∷ number (codes "slave") (pos 0)
        ∷ [])
      (pos 0) parameter_leaves

-- The motors of the document, and the identifier of the CAN motor.
abbrev pub document_with : Elements → ℤ → Element
document_with motors slave_id = element [] [] (pos 0) (
    from_list (
      element (codes "Config") [] (pos 0) (
        from_list (
          element (codes "Motors") [] (pos 0) motors
          ∷ element (codes "CAN") [] (pos 0) (
              from_list (
                element (codes "Slaves") [] (pos 0) (
                  from_list (
                    element (codes "Slave")
                      (number (codes "alias") (pos 1)
                        ∷ text (codes "type") (codes "RMD-X8")
                        ∷ number (codes "slave_id") slave_id
                        ∷ [])
                      (pos 1) nil
                    ∷ []))
                ∷ []))
          ∷ []))
      ∷ []))

abbrev pub document : Element
document = document_with (from_list (can_motor ∷ ethercat_motor ∷ [])) (pos 3)

abbrev pub can_document : Element
can_document = document_with (from_list (can_motor ∷ [])) (pos 3)

abbrev pub can_config : MotorConfig ℤ
can_config = record {
  alias = pos 1;
  master = pos 0;
  motor_id = pos 3;
  slave_id = pos 3;
  ethercat_slave = pos 0;
  domain = pos 0;
  bus = can;
  type_name = codes "RMD-X8";
  parameters = sample_parameters;
}

abbrev pub one_motor : Config ℤ
one_motor = record default_config { total_motor_count = pos 1; motors = can_config ∷ [] }

-- What is loaded from the document of two motors.
abbrev pub two_motors : Config ℤ
two_motors = record default_config {
  total_motor_count = pos 2;
  motors =
      can_config
      ∷ record {
        alias = pos 2;
        master = pos 0;
        motor_id = pos 2;
        slave_id = pos 0;
        ethercat_slave = pos 0;
        domain = pos 0;
        bus = ethercat;
        type_name = [];
        parameters = sample_parameters;
      }
      ∷ [];
}

pub loads_two : load_config tree (some document) ≡ ok two_motors
unfolding load_config load_root read_can read_ethercat_config read_explicit_placements
    read_parameter_map put_parameters find_parameters parameters_of can_slave explicit_ids
    explicit_motor place_motors upsert_motor read_can_masters read_imu_config required_child
    required_float read_parameters parse_motor_bus starts_with first_int_attribute
loads_two = refl

pub loads_one : load_config tree (some can_document) ≡ ok one_motor
unfolding load_config load_root read_can read_ethercat_config read_explicit_placements
    read_parameter_map put_parameters find_parameters parameters_of can_slave explicit_ids
    explicit_motor place_motors upsert_motor read_can_masters read_imu_config required_child
    required_float read_parameters parse_motor_bus starts_with first_int_attribute
loads_one = refl
