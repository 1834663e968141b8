-- ===== src/LegKinematics/Solved.antt =====
-- What the solvers return is a solution.
use heimasdk_snapshot_migrat.Prelude.{
  ℕ, zero, suc, ◌≡◌, refl, subst, ◌⊎◌, inl, inr, Bool, true, false, Result, ok, err, ◌>>=◌,
  >>=_inverse, ok-injective, if-elim, if-cases, if◌then◌else◌,
}
use heimasdk_snapshot_migrat.Prelude.Int.{pos}
use heimasdk_snapshot_migrat.Motor.{Float}
use heimasdk_snapshot_migrat.Motor.Functions.{Functions}
use heimasdk_snapshot_migrat.JointPath.{LegJointTargets}
use heimasdk_snapshot_migrat.LegKinematics.{
  KneeLinkageConfig, AnkleLinkageConfig, LegMotorTargets, LegError, newton, solve_scalar_newton,
  solve_ankle_motors, solve_knee_motor, e_constraint, f_constraint, ankle_e_failed, ankle_f_failed,
  ankle_failed,
}
use heimasdk_snapshot_migrat.LegKinematics.Solving.{
  solve_right_leg, residual, ankle_step, ankle_loop, solve_ankle_joints,
}
use heimasdk_snapshot_migrat.LegKinematics.Knee.{IsInReach, IsKnee, solve_knee_motor-IsInReach}

if_ok {ℓ} :
    {E : Type 0} {A : Type ℓ} (b : Bool) (a : A) (m : Result E A) {out : A}
    → (if b then ok a else m) ≡ ok out
    → ((b ≡ true) × (a ≡ out)) ⊎ (m ≡ ok out)
if_ok true a m h = inl (refl, ok-injective (ok a) refl h)
if_ok false a m h = inr h

module _ {F : Type 0} ⦃fl : Float F⦄ (fn : Functions F) where
  -- `x` is a root of `f` up to one of the tolerances of the code.
  abbrev pub IsRoot : (F → F) → F → Type 0
  IsRoot f x =
      (fl.lt (fn.fabs (f x)) (fl.decimal (pos 1) 10) ≡ true)
      ⊎ (fl.lt (fn.fabs (f x)) (fl.decimal (pos 1) 8) ≡ true)

  -- What holds of the value, if there is one.
  abbrev Holds : {A : Type 0} → (A → Type 0) → Result LegError A → Type 0
  Holds P r = elim r as (λ r. Type 0) [ ok a ↦ P a | err e ↦ LegError ]

  newton-IsRoot :
      (left : ℕ) (f : F → F) (message : LegError) (x : F)
      → Holds (IsRoot f) (newton fn left f message x)
  unfolding newton
  newton-IsRoot zero f message x =
      if-cases (Holds (IsRoot f)) (fl.lt (fn.fabs (f x)) (fl.decimal (pos 1) 8)) (λ e. inr e)
        (λ e. message)
  newton-IsRoot (suc left) f message x =
      let h = fl.decimal (pos 1) 6 in
      let dfx = fl.div (fl.sub (f (fl.add x h)) (f x)) h in
      if-cases (Holds (IsRoot f)) (fl.lt (fn.fabs (f x)) (fl.decimal (pos 1) 10)) (λ e. inl e)
        (λ _.
          if-elim (Holds (IsRoot f)) (fl.lt (fn.fabs dfx) (fl.decimal (pos 1) 12)) message
            (newton-IsRoot left f message (fl.sub x (fl.div (f x) dfx))))

  solve_scalar_newton-IsRoot :
      (f : F → F) (x : F) (message : LegError) {root : F}
      → solve_scalar_newton fn f x message ≡ ok root
      → IsRoot f root
  unfolding solve_scalar_newton
  solve_scalar_newton-IsRoot f x message e =
      subst (Holds (IsRoot f)) e (newton-IsRoot 30 f message x)

  solve_ankle_motors-IsRoot :
      (pitch roll e0 f0 : F) (config : AnkleLinkageConfig F) {motors : F × F}
      → solve_ankle_motors fn pitch roll e0 f0 config ≡ ok motors
      → IsRoot (e_constraint fn config pitch roll) motors.0
        × IsRoot (f_constraint fn config pitch roll) motors.1
  unfolding solve_ankle_motors
  solve_ankle_motors-IsRoot pitch roll e0 f0 config h =
      let solve_e = solve_scalar_newton fn (e_constraint fn config pitch roll) e0 ankle_e_failed in
      let solve_f = solve_scalar_newton fn (f_constraint fn config pitch roll) f0 ankle_f_failed in
      let (e, p, h1) = >>=_inverse solve_e (λ e. solve_f >>= λ f. ok (e, f)) h in
      let (f, q, h2) = >>=_inverse solve_f (λ f. ok (e, f)) h1 in
      let same = ok-injective (ok (e, f)) refl h2 in
      subst
        (λ (m : F × F).
          IsRoot (e_constraint fn config pitch roll) m.0
          × IsRoot (f_constraint fn config pitch roll) m.1)
        same
        (
          solve_scalar_newton-IsRoot (e_constraint fn config pitch roll) e0 ankle_e_failed p,
          solve_scalar_newton-IsRoot (f_constraint fn config pitch roll) f0 ankle_f_failed q,
        )

  -- The hip is driven directly, the knee by the triangle of its linkage, and each ankle motor is a root of its linkage's constraint.
  pub record IsSolved (joints : LegJointTargets F) (previous : LegMotorTargets F)
      (knee : KneeLinkageConfig F) (ankle : AnkleLinkageConfig F) (motors : LegMotorTargets F)
      : Type 0 where
    pub hip : motors.hip_pitch_motor ≡ joints.hip_pitch
    pub reach : IsInReach fn knee joints.knee_pitch
    pub at_knee : IsKnee fn knee reach.offset previous.knee_motor motors.knee_motor
    pub ankle_e :
        IsRoot (e_constraint fn ankle joints.ankle_pitch joints.ankle_roll) motors.ankle_motor_e
    pub ankle_f :
        IsRoot (f_constraint fn ankle joints.ankle_pitch joints.ankle_roll) motors.ankle_motor_f

  -- Motors that the solver returns for a leg's joints: the hip's as asked; the two of the ankle roots
  -- of their linkages' constraints up to 1e-8; and the knee's for a joint whose linkage is not found
  -- out of reach, at the angle that the law of cosines gives for the triangle of crank, rod and the
  -- distance between the motor's axis and the arm's end, of its two solutions the one nearer to the
  -- previous angle.
  pub solve_right_leg-IsSolved :
      (joints : LegJointTargets F) (previous : LegMotorTargets F) (knee : KneeLinkageConfig F)
      (ankle : AnkleLinkageConfig F) {motors : LegMotorTargets F}
      → solve_right_leg fn joints previous knee ankle ≡ ok motors
      → IsSolved joints previous knee ankle motors
  unfolding solve_right_leg
  solve_right_leg-IsSolved joints previous knee ankle h =
      let solve_knee = solve_knee_motor fn joints.knee_pitch previous.knee_motor knee in
      let solve_ankle =
        solve_ankle_motors fn joints.ankle_pitch joints.ankle_roll previous.ankle_motor_e
          previous.ankle_motor_f ankle in
      let pack : F → F × F → LegMotorTargets F = λ k a. record {
        hip_pitch_motor = joints.hip_pitch;
        knee_motor = k;
        ankle_motor_e = a.0;
        ankle_motor_f = a.1;
      } in
      let (k, p, h1) = >>=_inverse solve_knee (λ k. solve_ankle >>= λ a. ok (pack k a)) h in
      let (a, q, h2) = >>=_inverse solve_ankle (λ a. ok (pack k a)) h1 in
      let roots =
        solve_ankle_motors-IsRoot joints.ankle_pitch joints.ankle_roll previous.ankle_motor_e
          previous.ankle_motor_f ankle q in
      let at_knee = solve_knee_motor-IsInReach fn knee joints.knee_pitch previous.knee_motor p in
      subst (IsSolved joints previous knee ankle) (ok-injective (ok (pack k a)) refl h2) (record {
        hip = refl;
        reach = at_knee.0;
        at_knee = at_knee.1;
        ankle_e = roots.0;
        ankle_f = roots.1;
      })

  module _ (config : AnkleLinkageConfig F) (motor_e motor_f : F) where
    -- The motors for these joints miss the given ones by at most 1e-8.
    pub record IsAnkle (at : F × F) : Type 0 where
      pub miss : F × F
      pub residual : residual fn config motor_e motor_f at.0 at.1 ≡ ok miss
      pub small :
          (fl.lt (fn.hypot miss.0 miss.1) (fl.decimal (pos 1) 10) ≡ true)
          ⊎ (fl.lt (fn.hypot miss.0 miss.1) (fl.decimal (pos 1) 8) ≡ true)

    ankle_loop-IsAnkle :
        (left : ℕ) (at : F × F) {out : F × F}
        → ankle_loop fn config motor_e motor_f left at ≡ ok out
        → IsAnkle out
    unfolding ankle_loop
    ankle_loop-IsAnkle zero at h =
        let missing = residual fn config motor_e motor_f at.0 at.1 in
        let (f, p, h1) =
          >>=_inverse missing
            (λ f.
              if fl.lt (fn.hypot f.0 f.1) (fl.decimal (pos 1) 8) then ok at else err ankle_failed)
            h in
        elim (if_ok (fl.lt (fn.hypot f.0 f.1) (fl.decimal (pos 1) 8)) at (err ankle_failed) h1) [
          | inl (e, same) ↦ subst IsAnkle same (record { miss = f; residual = p; small = inr e })
          | inr q ↦ cc
        ]
    ankle_loop-IsAnkle (suc left) at h =
        let h' = fl.decimal (pos 1) 5 in
        let missing = residual fn config motor_e motor_f at.0 at.1 in
        let beside = residual fn config motor_e motor_f (fl.add at.0 h') at.1 in
        let above = residual fn config motor_e motor_f at.0 (fl.add at.1 h') in
        let go = λ (f g k : F × F). ankle_step fn config motor_e motor_f f g k at in
        let on = ankle_loop fn config motor_e motor_f left in
        let step = λ (f : F × F). beside >>= λ g. above >>= λ k. go f g k >>= λ next. on next in
        let (f, p, h1) =
          >>=_inverse missing
            (λ f. if fl.lt (fn.hypot f.0 f.1) (fl.decimal (pos 1) 10) then ok at else step f) h in
        elim (if_ok (fl.lt (fn.hypot f.0 f.1) (fl.decimal (pos 1) 10)) at (step f) h1) [
          | inl (e, same) ↦ subst IsAnkle same (record { miss = f; residual = p; small = inl e })
          | inr q ↦
              let (g, _, h2) =
                >>=_inverse beside (λ g. above >>= λ k. go f g k >>= λ next. on next) q in
              let (k, _, h3) = >>=_inverse above (λ k. go f g k >>= λ next. on next) h2 in
              let (next, _, h4) = >>=_inverse (go f g k) on h3 in ankle_loop-IsAnkle left next h4
        ]

    -- Joints that the solver returns for two ankle motors: the motors for these joints miss the given
    -- ones by less than 1e-8.
    pub solve_ankle_joints-IsAnkle :
        (initial_pitch initial_roll : F) {out : F × F}
        → solve_ankle_joints fn config motor_e motor_f initial_pitch initial_roll ≡ ok out
        → IsAnkle out
    unfolding solve_ankle_joints
    solve_ankle_joints-IsAnkle initial_pitch initial_roll h =
        ankle_loop-IsAnkle 20 (initial_pitch, initial_roll) h
