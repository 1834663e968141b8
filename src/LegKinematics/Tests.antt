-- ===== src/LegKinematics/Tests.antt =====
-- A leg on the integers, with decimals that drop their point and a root that keeps the square.
use heimasdk_snapshot_migrat.Prelude.{◌+◌, ◌*◌, ◌≡◌, refl, ok}
use heimasdk_snapshot_migrat.Prelude.Int.{ℤ, pos, negsuc, ◌+ℤ◌, ◌-ℤ◌, ◌*ℤ◌}
use heimasdk_snapshot_migrat.Motor.{Float}
use heimasdk_snapshot_migrat.Motor.Functions.{whole_functions}
use heimasdk_snapshot_migrat.Motor.Sample.{whole}
use heimasdk_snapshot_migrat.JointPath.{LegJointTargets}
use heimasdk_snapshot_migrat.LegKinematics.{
  KneeLinkageConfig, AnkleLinkageConfig, LegMotorTargets, newton, solve_scalar_newton,
  solve_ankle_motors, solve_knee_motor,
}
use heimasdk_snapshot_migrat.LegKinematics.Solving.{solve_right_leg}
use heimasdk_snapshot_migrat.LegKinematics.Solved.{IsSolved, solve_right_leg-IsSolved}

abbrev pointless : Float ℤ
pointless = record whole { decimal = λ m n. m }

abbrev standing : LegJointTargets ℤ
standing = record { hip_pitch = pos 4; knee_pitch = pos 0; ankle_pitch = pos 0; ankle_roll = pos 0 }

abbrev before : LegMotorTargets ℤ
before = record {
  hip_pitch_motor = pos 0;
  knee_motor = pos 0;
  ankle_motor_e = pos 0;
  ankle_motor_f = pos 0;
}

abbrev knee : KneeLinkageConfig ℤ
knee = record {
  beta_zero = pos 0;
  theta_zero = pos 0;
  crank_radius = pos 2;
  knee_arm = pos 2;
  rod_length = pos 2;
  motor_x = negsuc 2;
  motor_z = pos 0;
}

-- The squared distances at rest.
abbrev ankle : AnkleLinkageConfig ℤ
ankle = record {
  link_ce = pos (22 * 22 + 35 * 35 + 317837 * 317837);
  link_df = pos (12 * 12 + 345 * 345 + 236273 * 236273);
}

abbrev moved : LegMotorTargets ℤ
moved = record before { hip_pitch_motor = pos 4 }

solves : solve_right_leg ⦃fl = pointless⦄ whole_functions standing before knee ankle ≡ ok moved
unfolding solve_right_leg solve_knee_motor solve_ankle_motors solve_scalar_newton newton ◌+ℤ◌ ◌-ℤ◌
    ◌*ℤ◌
solves = refl

solve_right_leg-IsSolved_example :
    IsSolved ⦃fl = pointless⦄ whole_functions standing before knee ankle moved
solve_right_leg-IsSolved_example =
    solve_right_leg-IsSolved ⦃fl = pointless⦄ whole_functions standing before knee ankle solves
