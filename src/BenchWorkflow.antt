-- ===== src/BenchWorkflow.antt =====
-- src/rmd_bench_workflow.cpp, but for the calls of the scheduler and the overloads that only ask the
-- SDK for its active motors: the helpers of the bench programs. A C string is its bytes, without the
-- zero at its end; a null pointer is `none`.
pub mod Numbers
pub mod Settings
mod Tests
use heimasdk_snapshot_migrat.Prelude.{
  ℕ, suc, ◌+◌, ◌-◌, ◌*◌, Bool, true, false, not, ◌&&◌, ◌||◌, bit_and, List, [], ◌∷◌, map, Option,
  none, some, if◌then◌else◌, ◌==◌, ltb, leb, get_elem?,
}
use heimasdk_snapshot_migrat.Prelude.Int.{ℤ, pos, negsuc, ltb_ℤ, leb_ℤ, ◌==ℤ◌, neg_ℤ, wrap}
use heimasdk_snapshot_migrat.Motor.{
  Float, MotorParameters, MotorTarget, MotorActual, MotorConfig, zero_f,
}
use heimasdk_snapshot_migrat.Config.{Config}

module _ {F : Type 0} where
  pub find_params_for_alias : List (MotorConfig F) → ℤ → Option (MotorParameters F)
  find_params_for_alias [] alias = none
  find_params_for_alias (motor ∷ rest) alias =
      if motor.alias ==ℤ alias then some motor.parameters else find_params_for_alias rest alias

pub is_active_motor : List ℤ → ℤ → Bool
is_active_motor [] index = false
is_active_motor (active ∷ rest) index =
    if active ==ℤ index then true else is_active_motor rest index

abbrev pub operation_enabled : ℕ → Bool
operation_enabled status_word = bit_and status_word 0x007f == 0x0037

module _ {F : Type 0} where
  abbrev answers : MotorActual F → Bool
  answers actual = not (actual.status_word == 0xffff || not (actual.error_code == 0))

  -- The loops of `feedbackReady` and `operationFeedbackReady` over the active motors; `test` is what
  -- is asked of each.
  pub all_active : (MotorActual F → Bool) → List ℤ → List (MotorActual F) → Bool
  all_active test [] actuals = true
  all_active test (active ∷ rest) actuals = elim (get_elem? actuals (wrap 64 active)) [
    | none ↦ false
    | some actual ↦ if test actual then all_active test rest actuals else false
  ]

  pub feedback_ready : List ℤ → List (MotorActual F) → ℤ → Bool
  unfolding all_active
  feedback_ready active actuals status =
      if status ==ℤ pos 0 then all_active answers active actuals else false

  pub operation_feedback_ready : List ℤ → List (MotorActual F) → ℤ → Bool
  unfolding all_active
  operation_feedback_ready active actuals status =
      if status ==ℤ pos 0
      then all_active (λ actual. answers actual && operation_enabled actual.status_word) active
          actuals
      else false

-- `recordConsecutiveReady`: the result and the counter.
pub record_consecutive_ready : Bool → ℕ → ℕ → Bool × ℕ
record_consecutive_ready ready consecutive required =
    if ready then (leb required (consecutive + 1), consecutive + 1) else (false, 0)

module _ {F : Type 0} ⦃fl : Float F⦄ where
  -- `disableMotors`: the targets, and how often they are handed to the SDK.
  abbrev disabled_target : MotorTarget F → MotorTarget F
  disabled_target target = record target { enabled = pos 0; vel = zero_f; tor = zero_f }

  pub disable_motors : List (MotorTarget F) → ℤ → List (MotorTarget F) × ℤ
  disable_motors targets repeat_count =
      (map disabled_target targets, if ltb_ℤ (pos 0) repeat_count then repeat_count else pos 1)

-- The ramp computes in `double`: `widen` and `narrow` are the conversions from and to `float`.
module _ {F D : Type 0} ⦃fl : Float F⦄ ⦃dl : Float D⦄ (widen : F → D) (narrow : D → F) where
  abbrev unit_clamp : D → D
  unit_clamp t =
      if dl.lt t (dl.of_int (pos 0))
      then dl.of_int (pos 0)
      else if dl.lt (dl.of_int (pos 1)) t
      then dl.of_int (pos 1)
      else t

  pub smooth_ramp_progress : F → F
  smooth_ramp_progress linear =
      let t = unit_clamp (widen linear) in
      narrow (
        dl.mul (dl.mul (dl.mul t t) t) (
          dl.add (dl.of_int (pos 10))
            (dl.mul t (dl.add (dl.of_int (negsuc 14)) (dl.mul (dl.of_int (pos 6)) t)))))

  pub smooth_ramp_progress_for_elapsed : D → D → F
  unfolding smooth_ramp_progress
  smooth_ramp_progress_for_elapsed elapsed ramp =
      if dl.lt ramp (dl.of_int (pos 0)) || dl.eq ramp (dl.of_int (pos 0))
      then fl.of_int (pos 1)
      else smooth_ramp_progress (narrow (dl.div elapsed ramp))
