-- ===== src/MotionPlan/Within.antt =====
-- What an accepted sine motion promises.
use heimasdk_snapshot_migrat.Prelude.{◌≡◌, true, false, arith}
use heimasdk_snapshot_migrat.Prelude.Int.{pos}
use heimasdk_snapshot_migrat.Motor.{IsNumber, AtMost, FloatLaws, Float, MotorParameters, pi}
use heimasdk_snapshot_migrat.Motor.Functions.{Functions, MotionLaws}
use heimasdk_snapshot_migrat.MotionPlan.{
  SineTargetSpec, all_finite, ranges_of, check_sine_target, sine_target_at,
}

module _ {F : Type 0} ⦃fl : Float F⦄ (fn : Functions F) where
  -- What a check that says `valid` has tested.
  check_passed :
      (spec : SineTargetSpec F) (parameters : MotorParameters F) (margin : F)
      → (check_sine_target fn spec parameters margin).valid ≡ true
      → (all_finite spec ≡ true)
        × (fl.lt
              (ranges_of fn spec parameters margin).min_target
              (ranges_of fn spec parameters margin).min_allowed
            ≡ false)
        × (fl.lt
              (ranges_of fn spec parameters margin).max_allowed
              (ranges_of fn spec parameters margin).max_target
            ≡ false)
  unfolding check_sine_target
  check_passed spec parameters margin h = ground arith

  -- The tests leave the ranges alone.
  ranges_kept :
      (spec : SineTargetSpec F) (parameters : MotorParameters F) (margin : F)
      → ((check_sine_target fn spec parameters margin).min_allowed
          ≡ (ranges_of fn spec parameters margin).min_allowed)
        × ((check_sine_target fn spec parameters margin).max_allowed
            ≡ (ranges_of fn spec parameters margin).max_allowed)
  unfolding check_sine_target
  ranges_kept spec parameters margin = ground arith

  -- The angle whose sine is taken.
  abbrev pub angle_at : SineTargetSpec F → F → F → F
  angle_at spec elapsed frequency =
      fl.add (fl.mul (fl.mul (fl.mul (fl.of_int (pos 2)) pi) frequency) elapsed) spec.phase

  -- A sine target that the check accepts is, at each time and frequency at which the angle is finite, a
  -- number within the range that the margin leaves of the position limits, where both bounds of that
  -- range are numbers.
  pub sine_target_at-within :
      (laws : FloatLaws fl) (motion : MotionLaws fn) (spec : SineTargetSpec F)
      (parameters : MotorParameters F) (margin elapsed frequency : F)
      → (check_sine_target fn spec parameters margin).valid ≡ true
      → IsNumber (check_sine_target fn spec parameters margin).min_allowed
      → IsNumber (check_sine_target fn spec parameters margin).max_allowed
      → fl.is_finite (angle_at spec elapsed frequency) ≡ true
      → AtMost
          (check_sine_target fn spec parameters margin).min_allowed
          (sine_target_at fn spec elapsed frequency)
        × AtMost
            (sine_target_at fn spec elapsed frequency)
            (check_sine_target fn spec parameters margin).max_allowed
  unfolding sine_target_at
  sine_target_at-within laws motion spec parameters margin elapsed frequency h low_n high_n angle =
      let (finite, low, high) = check_passed spec parameters margin h in
      let (same_min, same_max) = ranges_kept spec parameters margin in
      let center : fl.is_finite spec.center ≡ true = ground arith in
      let amplitude : fl.is_finite spec.amplitude ≡ true = ground arith in
      let bound = fn.fabs spec.amplitude in
      let x = angle_at spec elapsed frequency in
      let above : AtMost (fl.sub spec.center bound) (sine_target_at fn spec elapsed frequency) =
        rw (motion.sub_lem spec.center bound) (
          motion.add_mono spec.center _ _ center
            (motion.mul_sin_ge spec.amplitude x amplitude angle)) in
      let below : AtMost (sine_target_at fn spec elapsed frequency) (fl.add spec.center bound) =
        motion.add_mono spec.center _ _ center
          (motion.mul_sin_le spec.amplitude x amplitude angle) in
      rw (same_min, same_max)
        (
          motion.AtMost_trans _ (fl.sub spec.center bound) _
              (laws.AtMost_of_not_lt _ _ (rw same_min at low_n) (laws.AtMost-numbers _ _ above).0
                low)
              above,
          motion.AtMost_trans _ (fl.add spec.center bound) _ below (
              laws.AtMost_of_not_lt _ _ (laws.AtMost-numbers _ _ below).1 (rw same_max at high_n)
                high),
        )
