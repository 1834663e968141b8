-- ===== src/Config/Masters.antt =====
-- The rest of the configuration: the CAN masters, the EtherCAT masters and domains, and the IMU.
pub mod Divisions
pub mod Settings
use heimasdk_snapshot_migrat.Prelude.{
  ℕ, ◌+◌, ◌-◌, true, List, [], ◌∷◌, ◌++◌, Option, none, some, codes, if◌then◌else◌, leb, length,
  set, replicate,
}
use heimasdk_snapshot_migrat.Prelude.Int.{ℤ, pos, negsuc, leb_ℤ, ltb_ℤ, pos_part}
use heimasdk_snapshot_migrat.Config.{
  MasterConfig, Config, Xml, default_master, text_or_empty, normalize_upper,
}

-- `std::max(1, division)`.
abbrev pub at_least_one : ℤ → ℤ
at_least_one division = if ltb_ℤ (pos 1) division then division else pos 1

-- `resize(index + 1, 1)` where the vector is shorter, then the write.
pub put_division : ℕ → ℤ → List ℤ → List ℤ
put_division index division divisions =
    set
      (if leb (length divisions) index
        then divisions ++ replicate (index + 1 - length divisions) (pos 1)
        else divisions)
      index (at_least_one division)

module _ {E F : Type 0} (xml : Xml E F) where
  pub read_master : E → MasterConfig
  read_master master =
      let division = xml.int_attribute master (codes "division") default_master.division in
      record {
        order = xml.int_attribute master (codes "order") (pos 0);
        device = text_or_empty (xml.attribute master (codes "device"));
        baudrate = xml.int_attribute master (codes "baudrate") default_master.baudrate;
        canfd = xml.bool_attribute master (codes "canfd") default_master.canfd;
        dbaudrate = xml.int_attribute master (codes "dbaudrate") default_master.dbaudrate;
        division = if leb_ℤ division (pos 0) then pos 1 else division;
      }

  pub read_masters : List E → List MasterConfig → List MasterConfig
  read_masters [] masters = masters
  read_masters (master ∷ rest) masters = read_masters rest (masters ++ read_master master ∷ [])

  -- `Masters` of `CAN`.
  unfoldable pub read_can_masters : Option E → Config F → Config F
  read_can_masters none config = config
  read_can_masters (some masters) config = record config {
    period_ns = xml.int64_attribute masters (codes "period") config.period_ns;
    masters = read_masters (xml.children masters (codes "Master")) config.masters;
  }

  -- The `Master` elements of `ECAT`: the last that names a value decides.
  pub read_ethercat_masters : List E → Config F → Config F
  read_ethercat_masters [] config = config
  read_ethercat_masters (master ∷ rest) config = read_ethercat_masters rest (record config {
    period_ns = xml.int64_attribute master (codes "period") config.period_ns;
    ethercat_dc = xml.bool_attribute master (codes "dc") config.ethercat_dc;
  })

  unfoldable pub read_domains : List E → List ℤ → List ℤ
  read_domains [] divisions = divisions
  read_domains (domain ∷ rest) divisions =
      let order = xml.int_attribute domain (codes "order") (negsuc 0) in
      read_domains rest (
        if leb_ℤ (pos 0) order
        then put_division (pos_part order) (xml.int_attribute domain (codes "division") (pos 1))
            divisions
        else divisions)

  unfoldable pub read_imu_config : Option E → Config F → Config F
  read_imu_config none config = config
  read_imu_config (some imu) config =
      let type_name = text_or_empty (xml.attribute imu (codes "type")) in
      record config {
        imu = record {
          enabled = true;
          device = text_or_empty (xml.attribute imu (codes "device"));
          baudrate = xml.int_attribute imu (codes "baudrate") (pos 0);
          type_name = type_name;
          normalized_type = normalize_upper type_name;
        };
      }
