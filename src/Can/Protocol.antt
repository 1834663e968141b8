-- ===== src/Can/Protocol.antt =====
-- src/rmd_protocol.cpp: the commands and the replies of an RMD motor as the 8 bytes of a CAN frame.
-- A data pointer is `none` when it is null; bytes are numbers below 256.
pub mod Fields
use heimasdk_snapshot_migrat.Prelude.{
  ℕ, ◌+◌, ◌-◌, ◌*◌, ◌/◌, ◌^◌, bit_and, bit_or, Bool, true, false, not, ◌&&◌, ◌||◌, List, [], ◌∷◌,
  Option, none, some, if◌then◌else◌, ◌==◌, ltb, get_or, length,
}
use heimasdk_snapshot_migrat.Prelude.Int.{ℤ, pos, ◌+ℤ◌, ltb_ℤ, ◌==ℤ◌, neg_ℤ, wrap, signed}
use heimasdk_snapshot_migrat.Motor.{Float, MotorActual, zero_f, pi}
use heimasdk_snapshot_migrat.Motor.Limits.{clamp, kp_min, kp_max, kd_min, kd_max}

abbrev pub standard_tx_id : ℤ → ℤ
standard_tx_id motor_id = pos 0x140 +ℤ motor_id

abbrev pub standard_rx_id : ℤ → ℤ
standard_rx_id motor_id = pos 0x240 +ℤ motor_id

abbrev pub mit_tx_id : ℤ → ℤ
mit_tx_id motor_id = pos 0x400 +ℤ motor_id

unfoldable pub mit_rx_id : ℤ → ℤ
mit_rx_id motor_id = pos 0x500 +ℤ motor_id

pub record MitFeedback (F : Type 0) : Type 0 where
  pub valid : Bool
  pub motor_id : ℤ
  pub position_rad : F
  pub velocity_rad_s : F
  pub feedback_torque_nm : F

pub record Status1Feedback (F : Type 0) : Type 0 where
  pub valid : Bool
  pub temperature_c : ℤ
  pub mos_temperature_c : ℤ
  pub brake_release_command_state : ℕ
  pub brake_release_command_active : Bool
  pub voltage_v : F
  pub error_state : ℕ

pub record Status2Feedback (F : Type 0) : Type 0 where
  pub valid : Bool
  pub temperature_c : ℤ
  pub iq_a : F
  pub speed_dps : ℤ
  pub angle_deg : ℤ
  pub angle_rad : F
  pub estimated_torque_nm : F

pub record MultiturnAngleFeedback (F : Type 0) : Type 0 where
  pub valid : Bool
  pub raw_angle_centideg : ℤ
  pub angle_deg : F
  pub angle_rad : F

abbrev pub uint16_le : ℕ → ℕ → ℕ
uint16_le low high = bit_or low (high * 256)

abbrev pub int16_le : ℕ → ℕ → ℤ
int16_le low high = signed 16 (uint16_le low high)

abbrev pub int32_le : ℕ → ℕ → ℕ → ℕ → ℤ
int32_le b0 b1 b2 b3 =
    signed 32 (bit_or (bit_or (bit_or b0 (b1 * 256)) (b2 * 65536)) (b3 * 16777216))

-- The 12-bit fields of a reply, and those of a command.
abbrev pub reply_position : List ℕ → ℕ
reply_position bytes = bit_or (get_or bytes 1 0 * 256) (get_or bytes 2 0)

abbrev pub reply_velocity : List ℕ → ℕ
reply_velocity bytes = bit_or (get_or bytes 3 0 * 16) (get_or bytes 4 0 / 16)

abbrev pub reply_torque : List ℕ → ℕ
reply_torque bytes = bit_or (bit_and (get_or bytes 4 0) 0x0f * 256) (get_or bytes 5 0)

pub mit_bytes : ℕ → ℕ → ℕ → ℕ → ℕ → List ℕ
mit_bytes p v kp kd torque =
    bit_and (p / 256) 0xff
    ∷ bit_and p 0xff
    ∷ bit_and (v / 16) 0xff
    ∷ bit_or (bit_and v 0x0f * 16) (bit_and (kp / 256) 0x0f)
    ∷ bit_and kp 0xff
    ∷ bit_and (kd / 16) 0xff
    ∷ bit_or (bit_and kd 0x0f * 16) (bit_and (torque / 256) 0x0f)
    ∷ bit_and torque 0xff
    ∷ []

abbrev max_int : ℕ → ℕ
max_int bits = 2 ^ bits - 1

module _ {F : Type 0} ⦃fl : Float F⦄ where
  abbrev pub p_min : F
  p_min = fl.neg (fl.decimal (pos 12566) 3)

  abbrev pub p_max : F
  p_max = fl.decimal (pos 12566) 3

  abbrev pub v_min : F
  v_min = fl.neg (fl.of_int (pos 45))

  abbrev pub v_max : F
  v_max = fl.of_int (pos 45)

  abbrev pub default_max_torque_nm : F
  default_max_torque_nm = fl.of_int (pos 24)

  abbrev pub positive_torque_limit : F → F
  positive_torque_limit max_torque_nm =
      if fl.is_finite max_torque_nm && fl.lt zero_f max_torque_nm
      then max_torque_nm
      else default_max_torque_nm

  pub float_to_uint : F → F → F → ℕ → ℕ
  float_to_uint value low high bits = wrap 16 (
      fl.lround (
        fl.div (fl.mul (fl.sub (clamp value low high) low) (fl.of_int (pos (max_int bits))))
          (fl.sub high low)))

  abbrev pub uint_to_float : ℕ → F → F → ℕ → F
  uint_to_float value low high bits =
      let cut = if ltb (max_int bits) value then max_int bits else value in
      fl.add
        (fl.div (fl.mul (fl.of_int (pos cut)) (fl.sub high low)) (fl.of_int (pos (max_int bits))))
        low

  pub pack_mit : F → F → F → F → F → F → List ℕ
  pack_mit p_des v_des kp_des kd_des torque_des max_torque_nm =
      let torque_limit = positive_torque_limit max_torque_nm in
      mit_bytes (float_to_uint p_des p_min p_max 16) (float_to_uint v_des v_min v_max 12)
        (float_to_uint kp_des kp_min kp_max 12) (float_to_uint kd_des kd_min kd_max 12)
        (float_to_uint torque_des (fl.neg torque_limit) torque_limit 12)

  abbrev pub no_mit : ℤ → MitFeedback F
  no_mit motor_id = record {
    valid = false;
    motor_id = motor_id;
    position_rad = zero_f;
    velocity_rad_s = zero_f;
    feedback_torque_nm = zero_f;
  }

  pub parse_mit_reply : Option (List ℕ) → ℤ → ℤ → F → MitFeedback F
  parse_mit_reply none len expected_motor_id max_torque_nm = no_mit (pos 0)
  parse_mit_reply (some bytes) len expected_motor_id max_torque_nm =
      let motor_id = pos (get_or bytes 0 0) in
      let torque_limit = positive_torque_limit max_torque_nm in
      if not (len ==ℤ pos 8)
      then no_mit (pos 0)
      else if ltb_ℤ (pos 0) expected_motor_id && not (motor_id ==ℤ expected_motor_id)
      then no_mit motor_id
      else record {
        valid = true;
        motor_id = motor_id;
        position_rad = uint_to_float (reply_position bytes) p_min p_max 16;
        velocity_rad_s = uint_to_float (reply_velocity bytes) v_min v_max 12;
        feedback_torque_nm =
            uint_to_float (reply_torque bytes) (fl.neg torque_limit) torque_limit 12;
      }

  abbrev pub parse_status1_reply : List ℕ → Status1Feedback F
  parse_status1_reply bytes =
      if not (length bytes == 8) || not (get_or bytes 0 0 == 0x9a)
      then record {
        valid = false;
        temperature_c = pos 0;
        mos_temperature_c = pos 0;
        brake_release_command_state = 0;
        brake_release_command_active = false;
        voltage_v = zero_f;
        error_state = 0;
      }
      else record {
        valid = true;
        temperature_c = signed 8 (get_or bytes 1 0);
        mos_temperature_c = signed 8 (get_or bytes 2 0);
        brake_release_command_state = get_or bytes 3 0;
        brake_release_command_active = not (get_or bytes 3 0 == 0);
        voltage_v =
            fl.mul (fl.of_int (pos (uint16_le (get_or bytes 4 0) (get_or bytes 5 0))))
              (fl.decimal (pos 1) 1);
        error_state = uint16_le (get_or bytes 6 0) (get_or bytes 7 0);
      }

  abbrev no_status2 : Status2Feedback F
  no_status2 = record {
    valid = false;
    temperature_c = pos 0;
    iq_a = zero_f;
    speed_dps = pos 0;
    angle_deg = pos 0;
    angle_rad = zero_f;
    estimated_torque_nm = zero_f;
  }

  abbrev pub parse_status2_reply : Option (List ℕ) → ℤ → F → Status2Feedback F
  parse_status2_reply none len torque_constant = no_status2
  parse_status2_reply (some bytes) len torque_constant =
      let iq =
        fl.mul (fl.of_int (int16_le (get_or bytes 2 0) (get_or bytes 3 0)))
          (fl.decimal (pos 1) 2) in
      let angle = int16_le (get_or bytes 6 0) (get_or bytes 7 0) in
      if not (len ==ℤ pos 8) || not (get_or bytes 0 0 == 0x9c) then no_status2 else record {
        valid = true;
        temperature_c = signed 8 (get_or bytes 1 0);
        iq_a = iq;
        speed_dps = int16_le (get_or bytes 4 0) (get_or bytes 5 0);
        angle_deg = angle;
        angle_rad = fl.div (fl.mul (fl.of_int angle) pi) (fl.of_int (pos 180));
        estimated_torque_nm = fl.mul iq torque_constant;
      }

  abbrev pub parse_multiturn_angle_reply : List ℕ → MultiturnAngleFeedback F
  parse_multiturn_angle_reply bytes =
      let raw =
        int32_le (get_or bytes 4 0) (get_or bytes 5 0) (get_or bytes 6 0) (get_or bytes 7 0) in
      let degrees = fl.mul (fl.of_int raw) (fl.decimal (pos 1) 2) in
      if not (length bytes == 8) || not (get_or bytes 0 0 == 0x92)
      then record {
        valid = false;
        raw_angle_centideg = pos 0;
        angle_deg = zero_f;
        angle_rad = zero_f;
      }
      else record {
        valid = true;
        raw_angle_centideg = raw;
        angle_deg = degrees;
        angle_rad = fl.div (fl.mul degrees pi) (fl.of_int (pos 180));
      }

module _ {F : Type 0} where
  abbrev pub apply_mit_feedback : MitFeedback F → MotorActual F → MotorActual F
  apply_mit_feedback feedback actual = if not feedback.valid then actual else record actual {
    pos = feedback.position_rad;
    vel = feedback.velocity_rad_s;
    status_word = 0x0237;
    error_code = 0;
  }

  abbrev pub apply_status2_feedback : Status2Feedback F → MotorActual F → MotorActual F
  apply_status2_feedback feedback actual =
      if not feedback.valid
      then actual
      else record actual { tor = feedback.estimated_torque_nm; temp = feedback.temperature_c }
