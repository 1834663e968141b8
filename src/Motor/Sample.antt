-- ===== src/Motor/Sample.antt =====
-- A number format for examples: integers, with the fraction of a literal or a quotient cut off.
use heimasdk_snapshot_migrat.Prelude.{suc, ◌/◌, ◌^◌, true, arith}
use heimasdk_snapshot_migrat.Prelude.Int.{ℤ, pos, negsuc, ◌+ℤ◌, ◌-ℤ◌, ◌*ℤ◌, neg_ℤ, ltb_ℤ, ◌==ℤ◌}
use heimasdk_snapshot_migrat.Motor.{IsNumber, Float, FloatLaws, MotorParameters, MotorTarget}

unfoldable pub div_ℤ : ℤ → ℤ → ℤ
div_ℤ (pos a) (pos b) = pos (a / b)
div_ℤ (negsuc a) (pos b) = neg_ℤ (pos (suc a / b))
div_ℤ (pos a) (negsuc b) = neg_ℤ (pos (a / suc b))
div_ℤ (negsuc a) (negsuc b) = pos (suc a / suc b)

instance abbrev pub whole : Float ℤ
whole = record {
  lt = ltb_ℤ;
  eq = ◌==ℤ◌;
  is_finite = λ _. true;
  add = ◌+ℤ◌;
  sub = ◌-ℤ◌;
  mul = ◌*ℤ◌;
  div = div_ℤ;
  neg = neg_ℤ;
  of_int = λ n. n;
  decimal = λ m k. div_ℤ m (pos (10 ^ k));
  lround = λ a. a;
  truncate = λ a. a;
  of_bits = pos;
}

pub whole_laws : FloatLaws whole
whole_laws = record {
  AtMost-numbers = λ a b p. ground arith;
  AtMost_of_not_lt = λ a b p q r. ground arith;
  not_lt_of_AtMost = λ a b p. ground arith;
  lt-of_int = λ m n p q. ground arith;
}

pub whole-IsNumber : (a : ℤ) → IsNumber a
whole-IsNumber a = ground arith

-- A motor with positions from -3 to 9 and a torque of at most 24.
abbrev pub sample_parameters : MotorParameters ℤ
sample_parameters = record {
  polarity = pos 1;
  count_bias = pos 0;
  encoder_resolution = pos 4000;
  gear_ratio_tor = pos 1;
  gear_ratio_pos_vel = pos 1;
  rated_current = pos 2;
  torque_constant = pos 5;
  rated_torque = pos 10;
  maximum_torque = pos 24;
  minimum_position = negsuc 2;
  maximum_position = pos 9;
}

-- A target beyond both kinds of limit.
abbrev pub sample_target : MotorTarget ℤ
sample_target = record {
  pos = pos 12;
  vel = pos 1;
  tor = negsuc 40;
  kp = pos 600;
  kd = pos 5;
  mode = pos 8;
  enabled = pos 1;
  max_current = pos 1000;
}
