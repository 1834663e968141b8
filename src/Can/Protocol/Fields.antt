-- ===== src/Can/Protocol/Fields.antt =====
-- The fields of a frame, taken out of its bytes again.
use heimasdk_snapshot_migrat.Prelude.{
  ℕ, ◌+◌, ◌*◌, ◌/◌, ◌%◌, ◌<◌, ◌≡◌, bit_and, bit_or, List, [], ◌∷◌, arith, get_or, bit_and_nibble,
  bit_and_byte, bit_or_nibble, bit_or_byte, ap, some, true, not, ◌&&◌, if◌then◌else◌, ◌==◌, ◌∙◌,
}
use heimasdk_snapshot_migrat.Can.Protocol.{
  mit_bytes, reply_position, reply_velocity, reply_torque, pack_mit, float_to_uint, uint_to_float,
  p_min, p_max, v_min, v_max, positive_torque_limit, parse_mit_reply, no_mit,
}
use heimasdk_snapshot_migrat.Motor.{Float}
use heimasdk_snapshot_migrat.Motor.Limits.{kp_min, kp_max, kd_min, kd_max}
use heimasdk_snapshot_migrat.Prelude.Int.{ℤ, pos, wrap}

-- The fields of an MIT command as the motor reads them: 16, 12, 12, 12 and 12 bits, from the top.
pub command_fields : List ℕ → ℕ × ℕ × ℕ × ℕ × ℕ
command_fields d = (
  get_or d 0 0 * 256 + get_or d 1 0,
  get_or d 2 0 * 16 + get_or d 3 0 / 16,
  get_or d 3 0 % 16 * 256 + get_or d 4 0,
  get_or d 5 0 * 16 + get_or d 6 0 / 16,
  get_or d 6 0 % 16 * 256 + get_or d 7 0,
)

shared_byte :
    (a b : ℕ) → bit_or (bit_and a 0x0f * 16) (bit_and (b / 256) 0x0f) ≡ a % 16 * 16 + b / 256 % 16
shared_byte a b =
    rw (bit_and_nibble a, bit_and_nibble (b / 256))
      (bit_or_nibble (a % 16) (b / 256 % 16) (omega arith))

word_field : (p : ℕ) → p / 256 % 256 * 256 + p % 256 ≡ p % 65536
word_field p = omega arith

high_field : (v b : ℕ) → b < 16 → v / 16 % 256 * 16 + (v % 16 * 16 + b) / 16 ≡ v % 4096
high_field v b h = omega arith

low_field : (a b : ℕ) → (a % 16 * 16 + b / 256 % 16) % 16 * 256 + b % 256 ≡ b % 4096
low_field a b = omega arith

command_fields-mit_bytes :
    (p v kp kd torque : ℕ)
    → command_fields (mit_bytes p v kp kd torque)
      ≡ (p % 65536, v % 4096, kp % 4096, kd % 4096, torque % 4096)
unfolding command_fields mit_bytes
command_fields-mit_bytes p v kp kd torque = rw (
  shared_byte v kp,
  shared_byte kd torque,
  bit_and_byte p,
  bit_and_byte (p / 256),
  bit_and_byte (v / 16),
  bit_and_byte kp,
  bit_and_byte (kd / 16),
  bit_and_byte torque,
  word_field p,
  high_field v (kp / 256 % 16) (omega arith),
  low_field v kp,
  high_field kd (torque / 256 % 16) (omega arith),
  low_field kd torque,
)

-- A reply of a motor, in the order of its fields.
abbrev pub reply_bytes : ℕ → ℕ → ℕ → ℕ → List ℕ
reply_bytes motor_id p v t =
    motor_id ∷ (p / 256) ∷ (p % 256) ∷ (v / 16) ∷ (v % 16 * 16 + t / 256) ∷ (t % 256) ∷ 0 ∷ 0 ∷ []

reply_position-bytes : (motor_id p v t : ℕ) → reply_position (reply_bytes motor_id p v t) ≡ p
reply_position-bytes motor_id p v t = omega (arith, bit_or_byte (p / 256) (p % 256) (omega arith))

reply_velocity-bytes :
    (motor_id p v t : ℕ) → t < 4096 → reply_velocity (reply_bytes motor_id p v t) ≡ v
reply_velocity-bytes motor_id p v t h =
    omega (arith, bit_or_nibble (v / 16) ((v % 16 * 16 + t / 256) / 16) (omega arith))

reply_torque-bytes : (motor_id p v t : ℕ) → t < 4096 → reply_torque (reply_bytes motor_id p v t) ≡ t
reply_torque-bytes motor_id p v t h = omega (
  arith,
  bit_and_nibble (v % 16 * 16 + t / 256),
  ap (λ (n : ℕ). bit_or (n * 256) (t % 256)) low,
  bit_or_byte (t / 256) (t % 256) (omega arith),
)
  where
    low : bit_and (v % 16 * 16 + t / 256) 0x0f ≡ t / 256
    low = omega (arith, bit_and_nibble (v % 16 * 16 + t / 256))

wrap_word : (z : ℤ) → wrap 16 z % 65536 ≡ wrap 16 z
wrap_word z = ground arith

module _ {F : Type 0} ⦃fl : Float F⦄ where
  float_to_uint_lt :
      (value low high : F)
      → float_to_uint value low high 16 % 65536 ≡ float_to_uint value low high 16
  unfolding float_to_uint
  float_to_uint_lt value low high = wrap_word _

  -- Each value of a command arrives at the motor as its quantized low bits: 16 of the position, 12
  -- of the velocity, the gains and the torque; no field spills into another.
  pub command_fields-pack_mit :
      (p v kp kd t limit : F)
      → command_fields (pack_mit p v kp kd t limit) ≡ (
        float_to_uint p p_min p_max 16,
        float_to_uint v v_min v_max 12 % 4096,
        float_to_uint kp kp_min kp_max 12 % 4096,
        float_to_uint kd kd_min kd_max 12 % 4096,
        float_to_uint t (fl.neg (positive_torque_limit limit)) (positive_torque_limit limit) 12
            % 4096,
      )
  unfolding pack_mit
  command_fields-pack_mit p v kp kd t limit =
      command_fields-mit_bytes (float_to_uint p p_min p_max 16) (float_to_uint v v_min v_max 12)
        (float_to_uint kp kp_min kp_max 12) (float_to_uint kd kd_min kd_max 12)
        (float_to_uint t (fl.neg (positive_torque_limit limit)) (positive_torque_limit limit) 12)
      ∙ rw (float_to_uint_lt p p_min p_max)

  -- A reply of 8 bytes from the expected motor, or from any when none is expected, gives back the
  -- quantized position, velocity and torque that the motor sent; the reply of another is refused.
  pub parse_mit_reply-reply_bytes :
      (motor_id p v t expected : ℕ) (limit : F)
      → t < 4096
      → parse_mit_reply (some (reply_bytes motor_id p v t)) (pos 8) (pos expected) limit ≡ (
          if not (expected == 0) && not (motor_id == expected)
          then no_mit (pos motor_id)
          else record {
            valid = true;
            motor_id = pos motor_id;
            position_rad = uint_to_float p p_min p_max 16;
            velocity_rad_s = uint_to_float v v_min v_max 12;
            feedback_torque_nm =
                uint_to_float t
                  (fl.neg (positive_torque_limit limit))
                  (positive_torque_limit limit)
                  12;
          })
  unfolding parse_mit_reply
  parse_mit_reply-reply_bytes motor_id p v t expected limit h =
      rw
        (
          reply_position-bytes motor_id p v t,
          reply_velocity-bytes motor_id p v t h,
          reply_torque-bytes motor_id p v t h,
        )
        (ground arith)
