-- ===== src/Driver/CountBias.antt =====
-- `setCntBias`, before the driver is initialized.
use heimasdk_snapshot_migrat.Prelude.{◌≡◌, true, false, List, [], ◌∷◌, map, ok, length}
use heimasdk_snapshot_migrat.Prelude.Int.{ℤ, pos, ◌==ℤ◌}
use heimasdk_snapshot_migrat.Motor.{Float, MotorConfig}
use heimasdk_snapshot_migrat.Registry.{MotorRegistry}
use heimasdk_snapshot_migrat.Registry.Building.{AllInRange, IsRegistry}
use heimasdk_snapshot_migrat.Registry.Loading.{from_config-IsRegistry}
use heimasdk_snapshot_migrat.Driver.{Driver}
use heimasdk_snapshot_migrat.Driver.Setup.{with_bias, set_count_bias}

module _ {F : Type 0} ⦃fl : Float F⦄ where
  with_bias-AllInRange :
      (total : ℤ) (bias : List ℤ) (motors : List (MotorConfig F))
      → AllInRange total motors
      → AllInRange total (map (with_bias bias) motors)
  with_bias-AllInRange total bias [] h = tt
  with_bias-AllInRange total bias (m ∷ ms) h = (h.0, with_bias-AllInRange total bias ms h.1)

  -- Before the driver is initialized, biases for all motors are accepted whenever the aliases of the
  -- configuration are in range, and the registry becomes the one of the configuration with them.
  pub set_count_bias-IsRegistry :
      (bias : List ℤ) (d : Driver F)
      → d.initialized ≡ false
      → (pos (length bias) ==ℤ d.total_motor_count) ≡ true
      → AllInRange d.total_motor_count d.config_motors
      → (registry : MotorRegistry F) × IsRegistry d.total_motor_count
          (map (with_bias bias) d.config_motors)
          registry
        × (set_count_bias bias d
            ≡ ok (
              pos 0,
              record d {
                config_motors = map (with_bias bias) d.config_motors;
                registry = registry;
              },
            ))
  unfolding set_count_bias
  set_count_bias-IsRegistry bias d i l h =
      let (registry, e, r) =
        from_config-IsRegistry d.total_motor_count (map (with_bias bias) d.config_motors)
          (with_bias-AllInRange d.total_motor_count bias d.config_motors h) in
      (registry, r, simp (i, l, e))
