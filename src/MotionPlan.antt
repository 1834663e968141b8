-- ===== src/MotionPlan.antt =====
-- src/rmd_motion_plan.cpp: whether a sine motion stays within a motor's position limits.
pub mod Within
mod Tests
use heimasdk_snapshot_migrat.Prelude.{Bool, true, false, not, ◌&&◌, ◌||◌, if◌then◌else◌}
use heimasdk_snapshot_migrat.Prelude.Int.{ℤ, pos}
use heimasdk_snapshot_migrat.Motor.{Float, MotorParameters, zero_f, pi}
use heimasdk_snapshot_migrat.Motor.Functions.{Functions}

pub record SineTargetSpec (F : Type 0) : Type 0 where
  pub center : F
  pub amplitude : F
  pub phase : F
  pub kp : F
  pub kd : F
  pub feedforward_torque : F

-- `reason`, by what it says.
pub data Reason : Type 0 where
  no_reason non_finite negative_amplitude no_range exceeds : Reason

pub record LimitCheck (F : Type 0) : Type 0 where
  pub valid : Bool
  pub min_target : F
  pub max_target : F
  pub min_allowed : F
  pub max_allowed : F
  pub reason : Reason

module _ {F : Type 0} ⦃fl : Float F⦄ where
  abbrev pub all_finite : SineTargetSpec F → Bool
  all_finite spec =
      fl.is_finite spec.center
      && fl.is_finite spec.amplitude
      && fl.is_finite spec.phase
      && fl.is_finite spec.kp
      && fl.is_finite spec.kd
      && fl.is_finite spec.feedforward_torque

module _ {F : Type 0} ⦃fl : Float F⦄ (fn : Functions F) where
  -- The ranges, which are filled in before the tests.
  abbrev pub ranges_of : SineTargetSpec F → MotorParameters F → F → LimitCheck F
  ranges_of spec parameters margin =
      let kept = if fl.lt zero_f margin then margin else zero_f in
      record {
        valid = false;
        min_target = fl.sub spec.center (fn.fabs spec.amplitude);
        max_target = fl.add spec.center (fn.fabs spec.amplitude);
        min_allowed = fl.add parameters.minimum_position kept;
        max_allowed = fl.sub parameters.maximum_position kept;
        reason = no_reason;
      }

  pub check_sine_target : SineTargetSpec F → MotorParameters F → F → LimitCheck F
  check_sine_target spec parameters margin =
      let check = ranges_of spec parameters margin in
      if not (all_finite spec)
      then record check { reason = non_finite }
      else if fl.lt spec.amplitude zero_f
      then record check { reason = negative_amplitude }
      else if fl.lt check.max_allowed check.min_allowed
      then record check { reason = no_range }
      else if fl.lt check.min_target check.min_allowed || fl.lt check.max_allowed check.max_target
      then record check { reason = exceeds }
      else record check { valid = true }

  pub check_angle : F → MotorParameters F → F → LimitCheck F
  unfolding check_sine_target
  check_angle angle parameters margin =
      check_sine_target
        (record {
          center = angle;
          amplitude = zero_f;
          phase = zero_f;
          kp = zero_f;
          kd = zero_f;
          feedforward_torque = zero_f;
        })
        parameters margin

  pub sine_target_at : SineTargetSpec F → F → F → F
  sine_target_at spec elapsed frequency = fl.add spec.center (
      fl.mul spec.amplitude (
        fn.sin
          (fl.add (fl.mul (fl.mul (fl.mul (fl.of_int (pos 2)) pi) frequency) elapsed) spec.phase)))
