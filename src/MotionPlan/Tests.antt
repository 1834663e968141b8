-- ===== src/MotionPlan/Tests.antt =====
-- A sine around 3 with amplitude 2, for a motor with positions from -3 to 9 and a margin of 1.
use heimasdk_snapshot_migrat.Prelude.{◌≡◌, refl, true}
use heimasdk_snapshot_migrat.Prelude.Int.{ℤ, pos, ◌+ℤ◌, ◌-ℤ◌}
use heimasdk_snapshot_migrat.Motor.Sample.{whole, whole_laws, sample_parameters}
use heimasdk_snapshot_migrat.Motor.{IsNumber, AtMost}
use heimasdk_snapshot_migrat.Motor.Functions.{whole_functions, whole_motion}
use heimasdk_snapshot_migrat.MotionPlan.{SineTargetSpec, check_sine_target, sine_target_at}
use heimasdk_snapshot_migrat.MotionPlan.Within.{sine_target_at-within}

abbrev wave : SineTargetSpec ℤ
wave = record {
  center = pos 3;
  amplitude = pos 2;
  phase = pos 1;
  kp = pos 40;
  kd = pos 1;
  feedforward_torque = pos 0;
}

accepts_wave : (check_sine_target whole_functions wave sample_parameters (pos 1)).valid ≡ true
unfolding check_sine_target ◌+ℤ◌ ◌-ℤ◌
accepts_wave = refl

min-IsNumber :
    IsNumber (check_sine_target whole_functions wave sample_parameters (pos 1)).min_allowed
unfolding check_sine_target ◌+ℤ◌ ◌-ℤ◌
min-IsNumber = refl

max-IsNumber :
    IsNumber (check_sine_target whole_functions wave sample_parameters (pos 1)).max_allowed
unfolding check_sine_target ◌+ℤ◌ ◌-ℤ◌
max-IsNumber = refl

sine_target_at-within_example :
    AtMost
      (check_sine_target whole_functions wave sample_parameters (pos 1)).min_allowed
      (sine_target_at whole_functions wave (pos 0) (pos 7))
    × AtMost
        (sine_target_at whole_functions wave (pos 0) (pos 7))
        (check_sine_target whole_functions wave sample_parameters (pos 1)).max_allowed
sine_target_at-within_example =
    sine_target_at-within whole_functions whole_laws whole_motion wave sample_parameters (pos 1)
      (pos 0) (pos 7) accepts_wave min-IsNumber max-IsNumber refl
