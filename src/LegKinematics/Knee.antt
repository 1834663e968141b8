-- ===== src/LegKinematics/Knee.antt =====
-- What `solveKneeMotorFromJoint` of src/rmd_leg_kinematics.cpp returns.
use heimasdk_snapshot_migrat.Prelude.{
  Bool-cases, ◌||◌, arith, ◌≡◌, refl, subst, ◌⊎◌, inl, inr, true, false, ok, ok-injective, if-cases,
}
use heimasdk_snapshot_migrat.Prelude.Int.{pos, negsuc}
use heimasdk_snapshot_migrat.Motor.{Float}
use heimasdk_snapshot_migrat.Motor.Functions.{Functions}
use heimasdk_snapshot_migrat.LegKinematics.{
  KneeLinkageConfig, solve_knee_motor, unreachable, knee_offset, meet, checked_acos, wrap_distance,
}

module _ {F : Type 0} ⦃fl : Float F⦄ (fn : Functions F) where
  -- The linkage of the knee can reach: the motor's axis and the arm's end are apart, no farther than
  -- crank and rod together, and no nearer than their difference, as far as the comparisons tell.
  pub record IsInReach (config : KneeLinkageConfig F) (knee_pitch : F) : Type 0 where
    pub offset : F × F
    pub arm_x :
        offset.0
        ≡ fl.sub
            (fl.mul config.knee_arm (fn.cos (fl.add config.beta_zero knee_pitch)))
            config.motor_x
    pub arm_z :
        offset.1
        ≡ fl.sub
            (fl.mul config.knee_arm (fn.sin (fl.add config.beta_zero knee_pitch)))
            config.motor_z
    pub apart : fl.lt (fn.hypot offset.0 offset.1) (fl.decimal (pos 1) 9) ≡ false
    pub not_far :
        fl.lt (fl.add config.crank_radius config.rod_length) (fn.hypot offset.0 offset.1) ≡ false
    pub not_near :
        fl.lt (fn.hypot offset.0 offset.1) (fn.fabs (fl.sub config.crank_radius config.rod_length))
        ≡ false

  -- The crank stands where the triangle of crank, rod and the distance to the arm's end has it: by the
  -- law of cosines, on one side of that distance or the other, on the side nearer to `previous`.
  pub record IsKnee (config : KneeLinkageConfig F) (offset : F × F) (previous motor : F)
      : Type 0 where
    pub between : F
    pub cosine : F
    pub angle : F
    pub left : F
    pub right : F
    pub at_distance : between ≡ fn.hypot offset.0 offset.1
    pub by_cosines :
        cosine
        ≡ fl.div
            (fl.sub
              (fl.add (fl.mul config.crank_radius config.crank_radius) (fl.mul between between))
              (fl.mul config.rod_length config.rod_length))
            (fl.mul (fl.mul (fl.of_int (pos 2)) config.crank_radius) between)
    pub at_angle :
        fl.lt cosine (fl.of_int (negsuc 0)) ≡ false
        → fl.lt (fl.of_int (pos 1)) cosine ≡ false
        → angle ≡ fn.acos cosine
    pub on_left : left ≡ fl.sub (fl.add (fn.atan2 offset.1 offset.0) angle) config.theta_zero
    pub on_right : right ≡ fl.sub (fl.sub (fn.atan2 offset.1 offset.0) angle) config.theta_zero
    pub either : (motor ≡ left) ⊎ (motor ≡ right)
    pub left_nearer :
        fl.lt (wrap_distance fn left previous) (wrap_distance fn right previous) ≡ true
        → motor ≡ left
    pub right_nearer :
        (fl.lt (wrap_distance fn left previous) (wrap_distance fn right previous)
            || fl.eq (wrap_distance fn left previous) (wrap_distance fn right previous))
          ≡ false
        → motor ≡ right

  meet-IsKnee :
      (config : KneeLinkageConfig F) (offset : F × F) (previous : F)
      → IsKnee config offset previous (
          meet fn config.crank_radius config.rod_length
            (fn.hypot offset.0 offset.1)
            (fn.atan2 offset.1 offset.0)
            config.theta_zero
            previous)
  meet-IsKnee config offset previous =
      let r = config.crank_radius in
      let rod = config.rod_length in
      let d = fn.hypot offset.0 offset.1 in
      let c =
        fl.div (fl.sub (fl.add (fl.mul r r) (fl.mul d d)) (fl.mul rod rod))
          (fl.mul (fl.mul (fl.of_int (pos 2)) r) d) in
      let alpha = checked_acos fn c in
      let phi = fn.atan2 offset.1 offset.0 in
      let first = fl.sub (fl.add phi alpha) config.theta_zero in
      let second = fl.sub (fl.sub phi alpha) config.theta_zero in
      let a = wrap_distance fn first previous in
      let b = wrap_distance fn second previous in
      record {
        between = d;
        cosine = c;
        angle = alpha;
        left = first;
        right = second;
        at_distance = refl;
        by_cosines = refl;
        at_angle = λ low high. rw (low, high, checked_acos) refl;
        on_left = refl;
        on_right = refl;
        either =
            if-cases (λ m. (m ≡ first) ⊎ (m ≡ second)) (fl.lt a b || fl.eq a b) (λ _. inl refl)
              (λ _. inr refl);
        left_nearer = λ h. rw h refl;
        right_nearer = λ h. rw h refl;
      }

  pub solve_knee_motor-IsInReach :
      (config : KneeLinkageConfig F) (knee_pitch previous : F) {motor : F}
      → solve_knee_motor fn knee_pitch previous config ≡ ok motor
      → (reach : IsInReach config knee_pitch) × IsKnee config reach.offset previous motor
  unfolding solve_knee_motor
  solve_knee_motor-IsInReach config knee_pitch previous {motor} h =
      let offset = knee_offset fn config knee_pitch in
      let d = fn.hypot offset.0 offset.1 in
      elim (Bool-cases (unreachable fn d config.crank_radius config.rod_length)) [
        | inl e ↦ cc (rw (e, solve_knee_motor) at h)
        | inr e ↦ (
          record {
            offset = offset;
            arm_x = refl;
            arm_z = refl;
            apart = ground arith;
            not_far = ground arith;
            not_near = ground arith;
          },
          subst (IsKnee config offset previous)
              (ok-injective (ok _) refl (rw (e, solve_knee_motor) at h))
              (meet-IsKnee config offset previous),
        )
      ]
