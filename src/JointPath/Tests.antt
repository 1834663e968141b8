-- ===== src/JointPath/Tests.antt =====
-- A path of three waypoints, sampled between the last two.
use heimasdk_snapshot_migrat.Prelude.{◌≡◌, refl, List, [], ◌∷◌, none, ok}
use heimasdk_snapshot_migrat.Prelude.Int.{ℤ, pos}
use heimasdk_snapshot_migrat.Motor.Sample.{whole}
use heimasdk_snapshot_migrat.JointPath.{
  LegJointTargets, LegJointWaypoint, check_times, validate_path, sample_path,
}
use heimasdk_snapshot_migrat.JointPath.Sampling.{IsSampled, sample_path-IsSampled}

abbrev waypoint : ℤ → ℤ → LegJointWaypoint ℤ
waypoint time joint = record {
  time_ms = time;
  joints = record {
    hip_pitch = joint;
    knee_pitch = joint;
    ankle_pitch = joint;
    ankle_roll = joint;
  };
}

abbrev three_waypoints : List (LegJointWaypoint ℤ)
three_waypoints =
    waypoint (pos 0) (pos 5) ∷ waypoint (pos 40) (pos 9) ∷ waypoint (pos 90) (pos 2) ∷ []

three_valid : validate_path three_waypoints ≡ none
unfolding validate_path check_times
three_valid = refl

sample_path-IsSampled_example :
    (out : LegJointTargets ℤ) × (sample_path three_waypoints (pos 65) ≡ ok out)
    × IsSampled three_waypoints (pos 65) out
sample_path-IsSampled_example = sample_path-IsSampled three_waypoints (pos 65) three_valid
