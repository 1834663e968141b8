-- ===== src/Driver/Setup.antt =====
-- What a program may set before `init`, and which motors it has: src/rmd_driver_sdk.cpp.
use heimasdk_snapshot_migrat.Prelude.{
  ℕ, ◌-◌, not, ◌||◌, List, map, Result, ok, err, if◌then◌else◌, length, get_or,
}
use heimasdk_snapshot_migrat.Prelude.Int.{ℤ, negsuc, ◌-ℤ◌, ◌==ℤ◌, pos_part}
use heimasdk_snapshot_migrat.Motor.{Float, MotorConfig}
use heimasdk_snapshot_migrat.Registry.{RuntimeMotor, from_config}
use heimasdk_snapshot_migrat.Driver.{Driver, DriverError, alias_rejected}

module _ {F : Type 0} where
  abbrev pub active_motors : Driver F → List ℤ
  active_motors d = map (λ (m : RuntimeMotor F). m.alias -ℤ ℤ.pos 1) d.registry.motors

  abbrev pub set_mode : List ℤ → Driver F → ℤ × Driver F
  set_mode modes d =
      if d.initialized then (negsuc 0, d) else (ℤ.pos 0, record d { operating_modes = modes })

  abbrev pub set_max_currents : List ℕ → Driver F → ℤ × Driver F
  set_max_currents currents d =
      if d.initialized then (negsuc 0, d) else (ℤ.pos 0, record d { max_currents = currents })

module _ {F : Type 0} ⦃fl : Float F⦄ where
  -- One motor's bias, in counts; a motor's alias is within the vector after a successful `fromConfig`.
  abbrev pub with_bias : List ℤ → MotorConfig F → MotorConfig F
  with_bias count_bias motor = record motor {
    parameters = record motor.parameters {
      count_bias = fl.of_int (get_or count_bias (pos_part motor.alias - 1) (ℤ.pos 0));
    };
  }

  unfoldable pub set_count_bias : List ℤ → Driver F → Result DriverError (ℤ × Driver F)
  set_count_bias count_bias d =
      let motors = map (with_bias count_bias) d.config_motors in
      if d.initialized || not (ℤ.pos (length count_bias) ==ℤ d.total_motor_count)
      then ok (negsuc 0, d)
      else elim (from_config d.total_motor_count motors) [
        | err e ↦ err alias_rejected
        | ok registry ↦ ok (ℤ.pos 0, record d { config_motors = motors; registry = registry })
      ]
