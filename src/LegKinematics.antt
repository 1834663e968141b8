-- ===== src/LegKinematics.antt =====
-- src/rmd_leg_kinematics.cpp: the motors of a leg for its joints, and back. A `double` is a value of
-- the same `Float` as elsewhere, and the functions of the C library are an argument.
pub mod Solving
pub mod Knee
pub mod Solved
mod Tests
use heimasdk_snapshot_migrat.Prelude.{
  ℕ, zero, suc, Bool, ◌||◌, Result, ok, err, ◌>>=◌, if◌then◌else◌,
}
use heimasdk_snapshot_migrat.Prelude.Int.{ℤ, pos, negsuc}
use heimasdk_snapshot_migrat.Motor.{Float}
use heimasdk_snapshot_migrat.Motor.Functions.{Functions}

pub record KneeLinkageConfig (F : Type 0) : Type 0 where
  pub beta_zero : F
  pub theta_zero : F
  pub crank_radius : F
  pub knee_arm : F
  pub rod_length : F
  pub motor_x : F
  pub motor_z : F

pub record AnkleLinkageConfig (F : Type 0) : Type 0 where
  pub link_ce : F
  pub link_df : F

pub record LegMotorTargets (F : Type 0) : Type 0 where
  pub hip_pitch_motor : F
  pub knee_motor : F
  pub ankle_motor_e : F
  pub ankle_motor_f : F

-- The texts of the exceptions.
pub data LegError : Type 0 where
  knee_out_of_reach knee_motor_out_of_reach : LegError
  ankle_e_failed ankle_f_failed ankle_singular ankle_failed : LegError

pub record Vec3 (F : Type 0) : Type 0 where
  pub x : F
  pub y : F
  pub z : F

module _ {F : Type 0} ⦃fl : Float F⦄ (fn : Functions F) where
  abbrev pub wrap_distance : F → F → F
  wrap_distance a b = fn.fabs (fn.atan2 (fn.sin (fl.sub a b)) (fn.cos (fl.sub a b)))

  abbrev pub choose_closest : F → F → F → F
  choose_closest first second reference =
      let a = wrap_distance first reference in
      let b = wrap_distance second reference in if fl.lt a b || fl.eq a b then first else second

  abbrev pub checked_acos : F → F
  checked_acos value = fn.acos (
      if fl.lt value (fl.of_int (negsuc 0))
      then fl.of_int (negsuc 0)
      else if fl.lt (fl.of_int (pos 1)) value
      then fl.of_int (pos 1)
      else value)

  -- The test of `requireReachable`.
  abbrev pub unreachable : F → F → F → Bool
  unreachable d first_radius second_radius =
      fl.lt d (fl.decimal (pos 1) 9)
      || fl.lt (fl.add first_radius second_radius) d
      || fl.lt d (fn.fabs (fl.sub first_radius second_radius))

  abbrev pub distance : Vec3 F → Vec3 F → F
  distance a b =
      let dx = fl.sub a.x b.x in
      let dy = fl.sub a.y b.y in
      let dz = fl.sub a.z b.z in
      fn.sqrt (fl.add (fl.add (fl.mul dx dx) (fl.mul dy dy)) (fl.mul dz dz))

  abbrev plus : Vec3 F → Vec3 F → Vec3 F
  plus a b = record { x = fl.add a.x b.x; y = fl.add a.y b.y; z = fl.add a.z b.z }

  abbrev rot_x : Vec3 F → F → Vec3 F
  rot_x c angle =
      let co = fn.cos angle in
      let s = fn.sin angle in
      record {
        x = c.x;
        y = fl.sub (fl.mul co c.y) (fl.mul s c.z);
        z = fl.add (fl.mul s c.y) (fl.mul co c.z);
      }

  abbrev rot_y : Vec3 F → F → Vec3 F
  rot_y c angle =
      let co = fn.cos angle in
      let s = fn.sin angle in
      record {
        x = fl.add (fl.mul co c.x) (fl.mul s c.z);
        y = c.y;
        z = fl.add (fl.mul (fl.neg s) c.x) (fl.mul co c.z);
      }

  abbrev vec : F → F → F → Vec3 F
  vec x y z = record { x = x; y = y; z = z }

  abbrev pub get_c : F → F → Vec3 F
  get_c pitch roll =
      rot_y (rot_x (vec (fl.of_int (negsuc 86)) (fl.of_int (pos 35)) (fl.of_int (pos 0))) roll)
        pitch

  abbrev pub get_d : F → F → Vec3 F
  get_d pitch roll =
      rot_y
        (rot_x (vec (fl.decimal (negsuc 74631) 3) (fl.of_int (negsuc 34)) (fl.of_int (pos 0))) roll)
        pitch

  abbrev pub get_e : F → Vec3 F
  get_e theta =
      plus (rot_y (vec (fl.of_int (negsuc 64)) (fl.of_int (pos 0)) (fl.of_int (pos 0))) theta)
        (vec (fl.of_int (negsuc 21)) (fl.of_int (pos 35)) (fl.decimal (pos 317837) 3))

  abbrev pub get_f : F → Vec3 F
  get_f theta =
      plus (rot_y (vec (fl.of_int (negsuc 64)) (fl.of_int (pos 0)) (fl.of_int (pos 0))) theta)
        (vec (fl.of_int (negsuc 11)) (fl.decimal (negsuc 344) 1) (fl.decimal (pos 236273) 3))

  -- The loop of `solveScalarNewton` with `left` rounds to go, and the test after it.
  pub newton : ℕ → (F → F) → LegError → F → Result LegError F
  newton zero constraint message x =
      if fl.lt (fn.fabs (constraint x)) (fl.decimal (pos 1) 8) then ok x else err message
  newton (suc left) constraint message x =
      let h = fl.decimal (pos 1) 6 in
      let fx = constraint x in
      let dfx = fl.div (fl.sub (constraint (fl.add x h)) fx) h in
      let rest = newton left constraint message (fl.sub x (fl.div fx dfx)) in
      if fl.lt (fn.fabs fx) (fl.decimal (pos 1) 10)
      then ok x
      else if fl.lt (fn.fabs dfx) (fl.decimal (pos 1) 12)
      then err message
      else rest

  pub solve_scalar_newton : (F → F) → F → LegError → Result LegError F
  unfolding newton
  solve_scalar_newton constraint initial_guess message = newton 30 constraint message initial_guess

  abbrev pub e_constraint : AnkleLinkageConfig F → F → F → F → F
  e_constraint config pitch roll theta =
      fl.sub (distance (get_c pitch roll) (get_e theta)) config.link_ce

  abbrev pub f_constraint : AnkleLinkageConfig F → F → F → F → F
  f_constraint config pitch roll theta =
      fl.sub (distance (get_d pitch roll) (get_f theta)) config.link_df

  pub solve_ankle_motors : F → F → F → F → AnkleLinkageConfig F → Result LegError (F × F)
  unfolding solve_scalar_newton
  solve_ankle_motors pitch roll initial_e initial_f config =
      solve_scalar_newton (e_constraint config pitch roll) initial_e ankle_e_failed >>= λ e.
      solve_scalar_newton (f_constraint config pitch roll) initial_f ankle_f_failed >>= λ f.
      ok (e, f)

  -- The two angles at which a circle of radius `arm` around one point meets one of radius `rod`
  -- around another, `d` away in the direction `phi`, less `zero_angle`; the one closest to `previous`.
  abbrev pub meet : F → F → F → F → F → F → F
  meet arm rod d phi zero_angle previous =
      let alpha = checked_acos (
        fl.div (fl.sub (fl.add (fl.mul arm arm) (fl.mul d d)) (fl.mul rod rod))
          (fl.mul (fl.mul (fl.of_int (pos 2)) arm) d)) in
      choose_closest (fl.sub (fl.add phi alpha) zero_angle) (fl.sub (fl.sub phi alpha) zero_angle)
        previous

  -- From the motor's axis to the end of the knee's arm.
  abbrev pub knee_offset : KneeLinkageConfig F → F → F × F
  knee_offset config knee_pitch =
      let beta = fl.add config.beta_zero knee_pitch in
      (
        fl.sub (fl.mul config.knee_arm (fn.cos beta)) config.motor_x,
        fl.sub (fl.mul config.knee_arm (fn.sin beta)) config.motor_z,
      )

  pub solve_knee_motor : F → F → KneeLinkageConfig F → Result LegError F
  solve_knee_motor knee_pitch previous config =
      let (dx, dz) = knee_offset config knee_pitch in
      let d = fn.hypot dx dz in
      if unreachable d config.crank_radius config.rod_length
      then err knee_out_of_reach
      else ok
          (meet config.crank_radius config.rod_length d (fn.atan2 dz dx) config.theta_zero previous)

  pub solve_knee_joint : F → F → KneeLinkageConfig F → Result LegError F
  solve_knee_joint motor previous config =
      let theta = fl.add config.theta_zero motor in
      let ex = fl.add config.motor_x (fl.mul config.crank_radius (fn.cos theta)) in
      let ez = fl.add config.motor_z (fl.mul config.crank_radius (fn.sin theta)) in
      let d = fn.hypot ex ez in
      if unreachable d config.knee_arm config.rod_length
      then err knee_motor_out_of_reach
      else ok (meet config.knee_arm config.rod_length d (fn.atan2 ez ex) config.beta_zero previous)
