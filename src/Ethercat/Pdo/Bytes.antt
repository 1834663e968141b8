-- ===== src/Ethercat/Pdo/Bytes.antt =====
-- The packed structs of include/rmd_can_sdk/heima_ecat_types.h as their bytes, on a little-endian
-- machine.
use heimasdk_snapshot_migrat.Prelude.{ℕ, ◌+◌, ◌*◌, ◌/◌, ◌%◌, List, [], ◌∷◌, get_or}
use heimasdk_snapshot_migrat.Prelude.Int.{ℤ, wrap, signed}

pub record StandardRx : Type 0 where
  pub control_word : ℕ
  pub target_position : ℤ
  pub target_velocity : ℤ
  pub target_torque : ℤ
  pub max_torque : ℕ
  pub mode : ℤ
  pub undefined_byte : ℤ

pub record PvtRx : Type 0 where
  pub control_word : ℕ
  pub target_position : ℤ
  pub target_velocity : ℤ
  pub target_torque : ℤ
  pub pvt_kp : ℤ
  pub pvt_kd : ℤ
  pub mode : ℤ
  pub undefined_byte : ℤ

pub record StandardTx : Type 0 where
  pub status_word : ℕ
  pub actual_position : ℤ
  pub actual_velocity : ℤ
  pub actual_torque : ℤ
  pub error_code : ℕ
  pub mode_display : ℤ
  pub undefined_byte : ℤ

pub record DriverTx : Type 0 where
  pub status_word : ℕ
  pub actual_position : ℤ
  pub actual_velocity : ℤ
  pub actual_torque : ℤ
  pub error_code : ℕ
  pub motor_temperature : ℤ
  pub drive_temperature : ℤ
  pub voltage : ℕ
  pub mode_display : ℤ
  pub undefined_byte : ℤ

abbrev le16 : ℕ → List ℕ → List ℕ
le16 p rest = (p % 256) ∷ (p / 256 % 256) ∷ rest

abbrev le32 : ℕ → List ℕ → List ℕ
le32 p rest = (p % 256) ∷ (p / 256 % 256) ∷ (p / 65536 % 256) ∷ (p / 16777216 % 256) ∷ rest

abbrev pub word16 : List ℕ → ℕ → ℕ
word16 bytes i = get_or bytes i 0 + get_or bytes (i + 1) 0 * 256

abbrev pub word32 : List ℕ → ℕ → ℕ
word32 bytes i = word16 bytes i + word16 bytes (i + 2) * 65536

abbrev pub standard_rx_bytes : StandardRx → List ℕ
standard_rx_bytes rx = le16 rx.control_word (
    le32 (wrap 32 rx.target_position) (
      le32 (wrap 32 rx.target_velocity) (
        le16 (wrap 16 rx.target_torque)
          (le16 rx.max_torque (wrap 8 rx.mode ∷ wrap 8 rx.undefined_byte ∷ [])))))

abbrev pub pvt_rx_bytes : PvtRx → List ℕ
pvt_rx_bytes rx = le16 rx.control_word (
    le32 (wrap 32 rx.target_position) (
      le32 (wrap 32 rx.target_velocity) (
        le16 (wrap 16 rx.target_torque) (
          le32 (wrap 32 rx.pvt_kp)
            (le32 (wrap 32 rx.pvt_kd) (wrap 8 rx.mode ∷ wrap 8 rx.undefined_byte ∷ []))))))

abbrev pub standard_rx_of : List ℕ → StandardRx
standard_rx_of b = record {
  control_word = word16 b 0;
  target_position = signed 32 (word32 b 2);
  target_velocity = signed 32 (word32 b 6);
  target_torque = signed 16 (word16 b 10);
  max_torque = word16 b 12;
  mode = signed 8 (get_or b 14 0);
  undefined_byte = signed 8 (get_or b 15 0);
}

abbrev pub pvt_rx_of : List ℕ → PvtRx
pvt_rx_of b = record {
  control_word = word16 b 0;
  target_position = signed 32 (word32 b 2);
  target_velocity = signed 32 (word32 b 6);
  target_torque = signed 16 (word16 b 10);
  pvt_kp = signed 32 (word32 b 12);
  pvt_kd = signed 32 (word32 b 16);
  mode = signed 8 (get_or b 20 0);
  undefined_byte = signed 8 (get_or b 21 0);
}

abbrev pub standard_tx_of : List ℕ → StandardTx
standard_tx_of b = record {
  status_word = word16 b 0;
  actual_position = signed 32 (word32 b 2);
  actual_velocity = signed 32 (word32 b 6);
  actual_torque = signed 16 (word16 b 10);
  error_code = word16 b 12;
  mode_display = signed 8 (get_or b 14 0);
  undefined_byte = signed 8 (get_or b 15 0);
}

abbrev pub driver_tx_of : List ℕ → DriverTx
driver_tx_of b = record {
  status_word = word16 b 0;
  actual_position = signed 32 (word32 b 2);
  actual_velocity = signed 32 (word32 b 6);
  actual_torque = signed 16 (word16 b 10);
  error_code = word16 b 12;
  motor_temperature = signed 16 (word16 b 14);
  drive_temperature = signed 16 (word16 b 16);
  voltage = word16 b 18;
  mode_display = signed 8 (get_or b 20 0);
  undefined_byte = signed 8 (get_or b 21 0);
}
