-- ===== src/Motor/Functions.antt =====
-- The functions of the C library that the motion code calls, on the values of `Float`.
use heimasdk_snapshot_migrat.Prelude.{◌≡◌, true, arith, if◌then◌else◌}
use heimasdk_snapshot_migrat.Prelude.Int.{ℤ, pos, ltb_ℤ, neg_ℤ, ◌+ℤ◌, ◌-ℤ◌, ◌*ℤ◌, ◌==ℤ◌}
use heimasdk_snapshot_migrat.Motor.{AtMost, Float}
use heimasdk_snapshot_migrat.Motor.Sample.{whole}

pub record Functions (F : Type 0) : Type 0 where
  pub fabs : F → F
  pub sqrt : F → F
  pub hypot : F → F → F
  pub sin : F → F
  pub cos : F → F
  pub acos : F → F
  pub atan2 : F → F → F

-- Facts of IEEE 754 arithmetic and of `sin` and `fabs`: order is transitive, adding a finite number
-- keeps it, and a finite number times the sine of a finite angle is at most as large as that number.
pub record MotionLaws {F : Type 0} ⦃fl : Float F⦄ (fn : Functions F) : Type 0 where
  pub AtMost_trans : (a m b : F) → AtMost a m → AtMost m b → AtMost a b
  pub sub_lem : (a b : F) → fl.sub a b ≡ fl.add a (fl.neg b)
  pub add_mono : (c a b : F) → fl.is_finite c ≡ true → AtMost a b → AtMost (fl.add c a) (fl.add c b)
  pub mul_sin_le :
      (a x : F)
      → fl.is_finite a ≡ true
      → fl.is_finite x ≡ true
      → AtMost (fl.mul a (fn.sin x)) (fn.fabs a)
  pub mul_sin_ge :
      (a x : F)
      → fl.is_finite a ≡ true
      → fl.is_finite x ≡ true
      → AtMost (fl.neg (fn.fabs a)) (fl.mul a (fn.sin x))

-- On the integers, with a sine that is 1 at one place.
abbrev pub whole_functions : Functions ℤ
whole_functions = record {
  fabs = λ a. if ltb_ℤ a (pos 0) then neg_ℤ a else a;
  sqrt = λ a. a;
  hypot = λ a b. a;
  sin = λ x. if x ==ℤ pos 1 then pos 1 else pos 0;
  cos = λ x. pos 0;
  acos = λ x. pos 0;
  atan2 = λ y x. pos 0;
}

pub whole_motion : MotionLaws whole_functions
unfolding ◌+ℤ◌ ◌-ℤ◌ ◌*ℤ◌
whole_motion = record {
  AtMost_trans = λ a m b p q. ground arith;
  sub_lem = λ a b. ground arith;
  add_mono = λ c a b f p. ground arith;
  mul_sin_le = λ a x f g. ground arith;
  mul_sin_ge = λ a x f g. ground arith;
}
