-- ===== src/Config/Tests.antt =====
-- What is loaded from documents with one motor and with two.
use heimasdk_snapshot_migrat.Prelude.{ℕ, ◌≡◌, refl, [], ◌∷◌, some, ok, err, get_elem?}
use heimasdk_snapshot_migrat.Prelude.Int.{ℤ, pos}
use heimasdk_snapshot_migrat.Motor.{MotorConfig}
use heimasdk_snapshot_migrat.Motor.Sample.{whole}
use heimasdk_snapshot_migrat.Registry.{RuntimeMotor, MotorRegistry, from_config, motor_by_alias}
use heimasdk_snapshot_migrat.Registry.Building.{origin, IsRegistry}
use heimasdk_snapshot_migrat.Config.Sample.{
  Element, tree, document, loads_two, document_with, from_list, can_motor, ethercat_motor,
  two_motors,
}
use heimasdk_snapshot_migrat.Config.{
  can_entry_invalid, required_child, required_float, read_parameters, starts_with,
}
use heimasdk_snapshot_migrat.Config.Motors.{
  read_parameter_map, put_parameters, can_slave, place_motors,
}
use heimasdk_snapshot_migrat.Config.Masters.{read_can_masters}
use heimasdk_snapshot_migrat.Config.Loading.{load_config, load_root, read_can}
use heimasdk_snapshot_migrat.Config.Loading.Loaded.{IsLoadedFrom, load_config-IsLoaded}
use heimasdk_snapshot_migrat.Config.Loading.Registered.{load_config_registers}

-- A CAN motor without its identifier is refused.
refuses_no_id :
    load_config tree (some (document_with (from_list (can_motor ∷ ethercat_motor ∷ [])) (pos 0)))
    ≡ err can_entry_invalid
unfolding load_config load_root read_can read_parameter_map put_parameters can_slave place_motors
    read_can_masters required_child required_float read_parameters starts_with
refuses_no_id = refl

load_config-IsLoaded_example : (root : Element) × IsLoadedFrom tree root two_motors
load_config-IsLoaded_example = load_config-IsLoaded tree (some document) loads_two

load_config_registers_example :
    (r : MotorRegistry ℤ) × (from_config (pos 2) two_motors.motors ≡ ok r)
    × IsRegistry (pos 2) two_motors.motors r
    × ((i : ℕ) (m : MotorConfig ℤ)
        → get_elem? two_motors.motors i ≡ some m
        → (found : RuntimeMotor ℤ) × (motor_by_alias m.alias r ≡ ok found) × (origin found ≡ m))
load_config_registers_example = load_config_registers tree (some document) loads_two
