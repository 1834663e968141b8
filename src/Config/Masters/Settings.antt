-- ===== src/Config/Masters/Settings.antt =====
-- The settings that loading reads beside the motors, and what a loaded configuration is.
use heimasdk_snapshot_migrat.Prelude.{◌≡◌, List, [], ◌∷◌, Option, none, some, codes}
use heimasdk_snapshot_migrat.Prelude.Int.{ℤ}
use heimasdk_snapshot_migrat.Motor.{MotorParameters}
use heimasdk_snapshot_migrat.Config.{Config, Xml}
use heimasdk_snapshot_migrat.Config.Motors.Distinct.{All, AllDistinct}
use heimasdk_snapshot_migrat.Config.Motors.Placed.{IsPlaced}
use heimasdk_snapshot_migrat.Config.Masters.{
  read_can_masters, read_ethercat_masters, read_imu_config,
}
use heimasdk_snapshot_migrat.Config.Masters.Divisions.{IsDivision, IsMaster, read_masters-All}

-- Each motor has an alias up to the total that no other has, and that alias's parameters; a CAN
-- motor has a positive identifier; divisions are positive.
pub record IsLoaded {F : Type 0} (total : ℤ) (parameters : List (ℤ × MotorParameters F))
    (c : Config F) : Type 0 where
  pub counted : c.total_motor_count ≡ total
  pub placed : All (IsPlaced total parameters) c.motors
  pub distinct : AllDistinct c.motors
  pub domains : All IsDivision c.domain_divisions
  pub masters : All IsMaster c.masters

module _ {E F : Type 0} (xml : Xml E F) where
  pub read_can_masters-IsLoaded :
      {total : ℤ} {parameters : List (ℤ × MotorParameters F)} (e : Option E) (c : Config F)
      → IsLoaded total parameters c
      → IsLoaded total parameters (read_can_masters xml e c)
  unfolding read_can_masters
  read_can_masters-IsLoaded none c h = h
  read_can_masters-IsLoaded (some e) c h = record {
    counted = h.counted;
    placed = h.placed;
    distinct = h.distinct;
    domains = h.domains;
    masters = read_masters-All xml (xml.children e (codes "Master")) c.masters h.masters;
  }

  pub read_ethercat_masters-IsLoaded :
      {total : ℤ} {parameters : List (ℤ × MotorParameters F)} (es : List E) (c : Config F)
      → IsLoaded total parameters c
      → IsLoaded total parameters (read_ethercat_masters xml es c)
  unfolding read_ethercat_masters
  read_ethercat_masters-IsLoaded [] c h = h
  read_ethercat_masters-IsLoaded (e ∷ es) c h = read_ethercat_masters-IsLoaded es _ (record {
    counted = h.counted;
    placed = h.placed;
    distinct = h.distinct;
    domains = h.domains;
    masters = h.masters;
  })

  pub read_imu_config-IsLoaded :
      {total : ℤ} {parameters : List (ℤ × MotorParameters F)} (e : Option E) (c : Config F)
      → IsLoaded total parameters c
      → IsLoaded total parameters (read_imu_config xml e c)
  unfolding read_imu_config
  read_imu_config-IsLoaded none c h = h
  read_imu_config-IsLoaded (some e) c h = record {
    counted = h.counted;
    placed = h.placed;
    distinct = h.distinct;
    domains = h.domains;
    masters = h.masters;
  }
