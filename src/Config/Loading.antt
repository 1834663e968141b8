-- ===== src/Config/Loading.antt =====
-- `loadConfig` as a whole.
pub mod Loaded
pub mod Registered
use heimasdk_snapshot_migrat.Prelude.{List, [], Option, none, some, Result, ok, err, ◌>>=◌, codes}
use heimasdk_snapshot_migrat.Prelude.Int.{ℤ, pos}
use heimasdk_snapshot_migrat.Motor.{MotorParameters}
use heimasdk_snapshot_migrat.Config.{
  Config, Xml, ConfigError, load_failed, root_missing, default_config, child, children_of,
  required_child,
}
use heimasdk_snapshot_migrat.Config.Motors.{
  read_parameter_map, can_slave, ethercat_slave, explicit_motor, place_motors,
}
use heimasdk_snapshot_migrat.Config.Masters.{
  read_can_masters, read_ethercat_masters, read_domains, read_imu_config,
}

module _ {E F : Type 0} (xml : Xml E F) where
  unfoldable pub read_can :
      List (ℤ × MotorParameters F) → Option E → Config F → Result ConfigError (Config F)
  read_can parameters none config = ok config
  read_can parameters (some can) config =
      let config = read_can_masters xml (child xml can (codes "Masters")) config in
      place_motors (can_slave xml parameters)
        (children_of xml (child xml can (codes "Slaves")) (codes "Slave")) config.motors
      >>= λ motors. ok (record config { motors = motors })

  unfoldable pub read_ethercat_config :
      List (ℤ × MotorParameters F) → Option E → Config F → Result ConfigError (Config F)
  read_ethercat_config parameters none config = ok config
  read_ethercat_config parameters (some e) config =
      let config =
        read_ethercat_masters xml (children_of xml (child xml e (codes "Masters")) (codes "Master"))
          config in
      let divisions =
        read_domains xml (children_of xml (child xml e (codes "Domains")) (codes "Domain"))
          config.domain_divisions in
      place_motors (ethercat_slave xml parameters)
        (children_of xml (child xml e (codes "Slaves")) (codes "Slave")) config.motors
      >>= λ motors. ok (record config { domain_divisions = divisions; motors = motors })

  unfoldable pub read_explicit_placements :
      List (ℤ × MotorParameters F) → Option E → Config F → Result ConfigError (Config F)
  read_explicit_placements parameters motors config =
      place_motors (explicit_motor xml parameters) (children_of xml motors (codes "Motor"))
        config.motors
      >>= λ placed. ok (record config { motors = placed })

  -- From the element `Config` on.
  unfoldable pub load_root : E → Result ConfigError (Config F)
  load_root root = do
    motors ← required_child xml root (codes "Motors")
    read ← read_parameter_map xml (xml.children motors (codes "Motor")) [] (pos 0)
    config ←
        read_can read.0 (child xml root (codes "CAN"))
          (record default_config { total_motor_count = read.1 })
    config ← read_ethercat_config read.0 (child xml root (codes "ECAT")) config
    config ← read_explicit_placements read.0 (child xml root (codes "Motors")) config
    ok (read_imu_config xml (child xml root (codes "IMU")) config)

  -- `document`: what `LoadFile` gives, or `none` where it fails. `FirstChildElement("Config")` of a
  -- document is taken as that of an element.
  unfoldable pub load_config : Option E → Result ConfigError (Config F)
  load_config none = err load_failed
  load_config (some document) = elim (child xml document (codes "Config")) [
    | none ↦ err root_missing
    | some root ↦ load_root root
  ]
