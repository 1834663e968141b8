-- ===== src/LegKinematics/Solving.antt =====
-- solveRightLegMotorsFromJoints and solveAnkleJointsFromMotors of src/rmd_leg_kinematics.cpp.
use heimasdk_snapshot_migrat.Prelude.{ℕ, zero, suc, Result, ok, err, ◌>>=◌, if◌then◌else◌}
use heimasdk_snapshot_migrat.Prelude.Int.{pos}
use heimasdk_snapshot_migrat.Motor.{Float}
use heimasdk_snapshot_migrat.Motor.Functions.{Functions}
use heimasdk_snapshot_migrat.JointPath.{LegJointTargets}
use heimasdk_snapshot_migrat.LegKinematics.{
  KneeLinkageConfig, AnkleLinkageConfig, LegMotorTargets, LegError, ankle_singular, ankle_failed,
  solve_knee_motor, solve_ankle_motors,
}

module _ {F : Type 0} ⦃fl : Float F⦄ (fn : Functions F) where
  unfoldable pub solve_right_leg :
      LegJointTargets F
      → LegMotorTargets F
      → KneeLinkageConfig F
      → AnkleLinkageConfig F
      → Result LegError (LegMotorTargets F)
  unfolding solve_knee_motor solve_ankle_motors
  solve_right_leg joints previous knee ankle =
      solve_knee_motor fn joints.knee_pitch previous.knee_motor knee >>= λ knee_motor.
      solve_ankle_motors fn joints.ankle_pitch joints.ankle_roll previous.ankle_motor_e
        previous.ankle_motor_f ankle
      >>= λ ankles. ok (record {
        hip_pitch_motor = joints.hip_pitch;
        knee_motor = knee_motor;
        ankle_motor_e = ankles.0;
        ankle_motor_f = ankles.1;
      })

  module _ (config : AnkleLinkageConfig F) (motor_e motor_f : F) where
    -- By how much the motors for these joints miss the given ones.
    unfoldable pub residual : F → F → Result LegError (F × F)
    unfolding solve_ankle_motors
    residual p r = solve_ankle_motors fn p r motor_e motor_f config >>= λ motors.
        ok (fl.sub motors.0 motor_e, fl.sub motors.1 motor_f)

    -- The next pitch and roll, from the residuals here and beside, or none where the slope is singular.
    pub ankle_step : F × F → F × F → F × F → F × F → Result LegError (F × F)
    ankle_step f f_pitch f_roll at =
        let h = fl.decimal (pos 1) 5 in
        let j11 = fl.div (fl.sub f_pitch.0 f.0) h in
        let j21 = fl.div (fl.sub f_pitch.1 f.1) h in
        let j12 = fl.div (fl.sub f_roll.0 f.0) h in
        let j22 = fl.div (fl.sub f_roll.1 f.1) h in
        let det = fl.sub (fl.mul j11 j22) (fl.mul j12 j21) in
        let dp = fl.div (fl.add (fl.mul (fl.neg f.0) j22) (fl.mul j12 f.1)) det in
        let dr = fl.div (fl.sub (fl.mul j21 f.0) (fl.mul j11 f.1)) det in
        if fl.lt (fn.fabs det) (fl.decimal (pos 1) 12)
        then err ankle_singular
        else ok (fl.add at.0 dp, fl.add at.1 dr)

    -- The loop with `left` rounds to go, and the test after it.
    unfoldable pub ankle_loop : ℕ → F × F → Result LegError (F × F)
    unfolding residual ankle_step
    ankle_loop zero at = residual at.0 at.1 >>= λ f.
        if fl.lt (fn.hypot f.0 f.1) (fl.decimal (pos 1) 8) then ok at else err ankle_failed
    ankle_loop (suc left) at =
        let h = fl.decimal (pos 1) 5 in
        residual at.0 at.1 >>= λ f.
        if fl.lt (fn.hypot f.0 f.1) (fl.decimal (pos 1) 10)
        then ok at
        else (residual (fl.add at.0 h) at.1 >>= λ f_pitch.
            residual at.0 (fl.add at.1 h) >>= λ f_roll.
            ankle_step f f_pitch f_roll at >>= λ next. ankle_loop left next)

    unfoldable pub solve_ankle_joints : F → F → Result LegError (F × F)
    unfolding ankle_loop
    solve_ankle_joints initial_pitch initial_roll = ankle_loop 20 (initial_pitch, initial_roll)
