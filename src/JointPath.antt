-- ===== src/JointPath.antt =====
-- src/rmd_joint_path.cpp: a path of joint targets at given times, checked and sampled. The path is
-- its first waypoint and the rest where the code has checked that it is not empty.
pub mod Times
pub mod Sampling
mod Tests
use heimasdk_snapshot_migrat.Prelude.{
  Bool, List, [], ◌∷◌, Option, none, some, Result, ok, err, if◌then◌else◌,
}
use heimasdk_snapshot_migrat.Prelude.Int.{ℤ, pos, negsuc, ◌-ℤ◌, leb_ℤ, ltb_ℤ}
use heimasdk_snapshot_migrat.Motor.{Float}

-- `LegJointTargets` of include/rmd_can_sdk/rmd_leg_kinematics.h.
pub record LegJointTargets (F : Type 0) : Type 0 where
  pub hip_pitch : F
  pub knee_pitch : F
  pub ankle_pitch : F
  pub ankle_roll : F

pub record LegJointWaypoint (F : Type 0) : Type 0 where
  pub time_ms : ℤ
  pub joints : LegJointTargets F

pub data PathError : Type 0 where
  path_empty first_negative not_increasing : PathError

module _ {F : Type 0} where
  -- The loop over the waypoints after `w`.
  pub check_times : LegJointWaypoint F → List (LegJointWaypoint F) → Option PathError
  check_times w [] = none
  check_times w (next ∷ rest) =
      let later = check_times next rest in
      if leb_ℤ next.time_ms w.time_ms then some not_increasing else later

  -- The text of the error, or `none` for a valid path.
  pub validate_path : List (LegJointWaypoint F) → Option PathError
  unfolding check_times
  validate_path [] = some path_empty
  validate_path (w ∷ rest) =
      if ltb_ℤ w.time_ms (pos 0) then some first_negative else check_times w rest

  -- `path.back()`
  pub last : LegJointWaypoint F → List (LegJointWaypoint F) → LegJointWaypoint F
  last w [] = w
  last w (next ∷ rest) = last next rest

module _ {F : Type 0} ⦃fl : Float F⦄ where
  abbrev lerp : F → F → F → F
  lerp start end t = fl.add start (fl.mul (fl.sub end start) t)

  -- t³(10 + t(-15 + 6t)), in the order of the code.
  pub minimum_jerk_progress : F → F
  minimum_jerk_progress t = fl.mul (fl.mul (fl.mul t t) t) (
      fl.add (fl.of_int (pos 10))
        (fl.mul t (fl.add (fl.of_int (negsuc 14)) (fl.mul (fl.of_int (pos 6)) t))))

  pub interpolate : LegJointTargets F → LegJointTargets F → F → LegJointTargets F
  interpolate start end t = record {
    hip_pitch = lerp start.hip_pitch end.hip_pitch t;
    knee_pitch = lerp start.knee_pitch end.knee_pitch t;
    ankle_pitch = lerp start.ankle_pitch end.ankle_pitch t;
    ankle_roll = lerp start.ankle_roll end.ankle_roll t;
  }

  -- Between two waypoints.
  pub sample_between : LegJointWaypoint F → LegJointWaypoint F → ℤ → LegJointTargets F
  unfolding interpolate minimum_jerk_progress
  sample_between w next elapsed = interpolate w.joints next.joints (
      minimum_jerk_progress
        (fl.div (fl.of_int (elapsed -ℤ w.time_ms)) (fl.of_int (next.time_ms -ℤ w.time_ms))))

  -- The loop over the waypoints after `w`; `fallback` is the return after it.
  pub sample_from :
      LegJointWaypoint F → List (LegJointWaypoint F) → ℤ → LegJointTargets F → LegJointTargets F
  sample_from w [] elapsed fallback = fallback
  sample_from w (next ∷ rest) elapsed fallback =
      let later = sample_from next rest elapsed fallback in
      if leb_ℤ elapsed next.time_ms then sample_between w next elapsed else later

  pub sample_path : List (LegJointWaypoint F) → ℤ → Result PathError (LegJointTargets F)
  unfolding validate_path last sample_from
  sample_path path elapsed = elim (validate_path path) [
    | some e ↦ err e
    | none ↦ elim path [
      | [] ↦ err path_empty
      | w ∷ rest ↦
          if leb_ℤ elapsed w.time_ms
          then ok w.joints
          else if leb_ℤ (last w rest).time_ms elapsed
          then ok (last w rest).joints
          else ok (sample_from w rest elapsed (last w rest).joints)
    ]
  ]
