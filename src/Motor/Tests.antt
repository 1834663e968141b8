-- ===== src/Motor/Tests.antt =====
-- The limits at a target beyond them.
use heimasdk_snapshot_migrat.Prelude.{◌≡◌, refl}
use heimasdk_snapshot_migrat.Prelude.Int.{negsuc}
use heimasdk_snapshot_migrat.Motor.Limits.{
  HasLimits, IsLimited, KeepsRest, limit_target, limit_target-IsLimited,
}
use heimasdk_snapshot_migrat.Motor.Sample.{whole, whole_laws, sample_parameters, sample_target}

sample-HasLimits : HasLimits sample_parameters
sample-HasLimits = record { positions = refl; torques = refl }

limited_sample : (limit_target sample_target sample_parameters).target.tor ≡ negsuc 23
unfolding limit_target
limited_sample = refl

limit_target-IsLimited_example :
    IsLimited sample_parameters (limit_target sample_target sample_parameters).target
    × KeepsRest (limit_target sample_target sample_parameters).target sample_target
limit_target-IsLimited_example =
    limit_target-IsLimited whole_laws sample_target sample_parameters sample-HasLimits
      (record { pos_number = refl; tor_number = refl; kp_number = refl; kd_number = refl })
