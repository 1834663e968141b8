-- ===== src/Ethercat/Pdo.antt =====
-- src/rmd_ethercat_pdo.cpp (but for the watchdog) and the packed structs of
-- include/rmd_can_sdk/heima_ecat_types.h: a target as the process data of a drive, and the
-- process data of a drive as an actual.
-- A cast of a float beyond the integer's range is undefined in C++; here it wraps.
pub mod Bytes
pub mod Torque
pub mod Roundtrip
use heimasdk_snapshot_migrat.Prelude.{
  ℕ, ◌+◌, ◌^◌, bit_and, Bool, true, false, not, ◌||◌, List, [], ◌∷◌, ◌++◌, if◌then◌else◌, ◌==◌,
  drop, length,
}
use heimasdk_snapshot_migrat.Prelude.Int.{ℤ, pos, negsuc, ltb_ℤ, ◌==ℤ◌, neg_ℤ, wrap, signed}
use heimasdk_snapshot_migrat.Motor.{
  Float, MotorParameters, MotorTarget, MotorActual, default_actual, zero_f, pi,
}
use heimasdk_snapshot_migrat.Motor.Limits.{clamp}
use heimasdk_snapshot_migrat.Ethercat.MtDevice.{RxProfile, TxProfile}
use heimasdk_snapshot_migrat.Ethercat.Frames.{PackedTarget, default_packed}
use Bytes.{StandardRx, PvtRx, StandardTx, DriverTx, standard_rx_bytes, pvt_rx_bytes}
use Torque.{to_i16, torque_to_raw, torque_to_raw_limited, raw_to_torque}

abbrev to_i8 : ℤ → ℤ
to_i8 z = signed 8 (wrap 8 z)

abbrev to_i32 : ℤ → ℤ
to_i32 z = signed 32 (wrap 32 z)

-- `static_cast<std::uint16_t>(maxCurrent < 0 ? 0 : maxCurrent)`
abbrev pub max_torque_of : ℤ → ℕ
max_torque_of max_current = if ltb_ℤ max_current (pos 0) then 0 else wrap 16 max_current

-- `memcpy` over the first bytes of the zeroed array.
abbrev pub copy_over : List ℕ → List ℕ → List ℕ
copy_over bytes array = bytes ++ drop (length bytes) array

abbrev pub standard_part : DriverTx → StandardTx
standard_part tx = record {
  status_word = tx.status_word;
  actual_position = tx.actual_position;
  actual_velocity = tx.actual_velocity;
  actual_torque = tx.actual_torque;
  error_code = tx.error_code;
  mode_display = tx.mode_display;
  undefined_byte = tx.undefined_byte;
}

module _ {F : Type 0} ⦃fl : Float F⦄ where
  abbrev two_pi : F
  two_pi = fl.mul (fl.of_int (pos 2)) pi

  abbrev pub rad_to_counts : F → MotorParameters F → ℤ
  rad_to_counts rad params =
      let revolutions = fl.div rad two_pi in
      to_i32 (
        fl.lround (
          fl.add (fl.mul (fl.mul params.polarity revolutions) params.encoder_resolution)
            params.count_bias))

  abbrev pub rad_delta_to_counts : F → MotorParameters F → ℤ
  rad_delta_to_counts rad params =
      let revolutions = fl.div rad two_pi in
      to_i32 (fl.lround (fl.mul (fl.mul params.polarity revolutions) params.encoder_resolution))

  abbrev pub counts_to_rad : ℤ → MotorParameters F → F
  counts_to_rad counts params =
      if fl.eq params.encoder_resolution zero_f
      then zero_f
      else fl.mul
          (fl.mul
            (fl.div (fl.mul params.polarity (fl.sub (fl.of_int counts) params.count_bias))
              params.encoder_resolution)
            (fl.of_int (pos 2)))
          pi

  abbrev pub count_delta_to_rad : ℤ → MotorParameters F → F
  count_delta_to_rad counts params =
      if fl.eq params.encoder_resolution zero_f
      then zero_f
      else fl.mul
          (fl.mul (fl.div (fl.mul params.polarity (fl.of_int counts)) params.encoder_resolution)
            (fl.of_int (pos 2)))
          pi

  abbrev clamp_position : F → MotorParameters F → F
  clamp_position value params = clamp value params.minimum_position params.maximum_position

  abbrev clamp_torque : F → MotorParameters F → F
  clamp_torque value params = clamp value (fl.neg params.maximum_torque) params.maximum_torque

  abbrev pub target_torque_of : MotorTarget F → MotorParameters F → ℤ
  target_torque_of target params =
      if target.mode ==ℤ pos 8
      then pos 0
      else if target.mode ==ℤ pos 10
      then torque_to_raw_limited (clamp_torque target.tor params) params target.max_current
      else torque_to_raw (clamp_torque target.tor params) params

  abbrev pub pack_standard_rx : MotorTarget F → MotorParameters F → StandardRx
  pack_standard_rx target params = record {
    control_word = if target.enabled ==ℤ pos 1 then 0x000f else 0x0006;
    target_position = rad_to_counts (clamp_position target.pos params) params;
    target_velocity = rad_delta_to_counts target.vel params;
    target_torque = target_torque_of target params;
    max_torque = max_torque_of target.max_current;
    mode = to_i8 target.mode;
    undefined_byte = pos 0;
  }

  -- A gain in thousandths, in mode 5 only.
  abbrev gain_of : F → ℤ → ℤ
  gain_of gain mode =
      if mode ==ℤ pos 5 then to_i32 (fl.lround (fl.mul gain (fl.of_int (pos 1000)))) else pos 0

  abbrev pub pack_pvt_rx : MotorTarget F → MotorParameters F → PvtRx
  pack_pvt_rx target params = record {
    control_word = if target.enabled ==ℤ pos 1 then 0x000f else 0x0006;
    target_position = rad_to_counts (clamp_position target.pos params) params;
    target_velocity = rad_delta_to_counts target.vel params;
    target_torque = target_torque_of target params;
    pvt_kp = gain_of target.kp target.mode;
    pvt_kd = gain_of target.kd target.mode;
    mode = to_i8 target.mode;
    undefined_byte = pos 0;
  }

  unfoldable pub pack_for_realtime : MotorTarget F → MotorParameters F → RxProfile → PackedTarget
  pack_for_realtime target params RxProfile.standard = record {
    enabled = target.enabled;
    rx_profile = RxProfile.standard;
    rx_bytes =
        copy_over (standard_rx_bytes (pack_standard_rx target params)) default_packed.rx_bytes;
  }
  pack_for_realtime target params RxProfile.pvt = record {
    enabled = target.enabled;
    rx_profile = RxProfile.pvt;
    rx_bytes = copy_over (pvt_rx_bytes (pack_pvt_rx target params)) default_packed.rx_bytes;
  }

  pub parse_standard_tx : StandardTx → MotorParameters F → MotorActual F
  parse_standard_tx tx params = record default_actual {
    encoder_count = tx.actual_position;
    pos = counts_to_rad tx.actual_position params;
    vel = count_delta_to_rad tx.actual_velocity params;
    tor = raw_to_torque tx.actual_torque params;
    status_word = tx.status_word;
    error_code = tx.error_code;
  }

  abbrev pub parse_tx : DriverTx → MotorParameters F → MotorActual F
  unfolding parse_standard_tx
  parse_tx tx params = record (parse_standard_tx (standard_part tx) params) {
    temp = tx.motor_temperature;
    drive_temp = tx.drive_temperature;
    voltage = tx.voltage;
  }

-- The CiA 402 transitions: fault reset, shut down, switch on, and enable operation, in this order.
abbrev pub control_word : ℤ → ℕ → ℕ
control_word enabled status_word =
    if enabled ==ℤ negsuc 0
    then 0x0086
    else if not (enabled ==ℤ pos 1)
    then 0x0006
    else if bit_and status_word 0x007f == 0x0031
    then 0x0007
    else if bit_and status_word 0x007f == 0x0033 || bit_and status_word 0x007f == 0x0037
    then 0x000f
    else 0x0006
