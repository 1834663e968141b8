-- ===== src/Can/Backend/Sending.antt =====
-- What the transmit loop may send.
use heimasdk_snapshot_migrat.Prelude.{
  ◌≡◌, ◌≢◌, refl, false, not, if◌then◌else◌, Bool-cases, inl, inr, arith,
}
use heimasdk_snapshot_migrat.Prelude.Int.{pos, ◌==ℤ◌, ==ℤ_iff}
use heimasdk_snapshot_migrat.Motor.{Float, FloatLaws, MotorTarget, default_target}
use heimasdk_snapshot_migrat.Motor.Limits.{
  limit_target, HasLimits, IsNumeric, IsLimited, bounds, limit_target-IsLimited,
  limit_target_of_IsLimited,
}
use heimasdk_snapshot_migrat.Registry.{RuntimeMotor}
use heimasdk_snapshot_migrat.Ethercat.Frames.{TargetFrame}
use heimasdk_snapshot_migrat.Can.Protocol.{mit_tx_id, pack_mit}
use heimasdk_snapshot_migrat.Can.Backend.{CanFrame, mit_command}

module _ {F : Type 0} ⦃fl : Float F⦄ where
  -- The frame carries a target that respects the motor's limits, to that motor; and it is the
  -- asked one unchanged if that one is enabled and within the limits.
  pub record IsSafe (targets : TargetFrame F) (m : RuntimeMotor F) (frame : CanFrame) : Type 0 where
    pub target : MotorTarget F
    pub limited : IsLimited m.parameters target
    pub addressed : frame.id ≡ mit_tx_id m.motor_id
    pub carried :
        frame.bytes
        ≡ pack_mit target.pos target.vel target.kp target.kd target.tor m.parameters.maximum_torque
    pub asked :
        (targets.targets m.global_index).enabled ≡ pos 1
        → IsLimited m.parameters (targets.targets m.global_index)
        → target ≡ targets.targets m.global_index

  default_target-IsNumeric : FloatLaws fl → IsNumeric (default_target {F = F})
  default_target-IsNumeric laws =
      let zero = (laws.AtMost-numbers _ _ (bounds laws 50 (omega arith) (omega arith))).0 in
      record { pos_number = zero; tor_number = zero; kp_number = zero; kd_number = zero }

  -- With limits that are numbers the right way round, the transmit loop sends a motor only a target
  -- within its limits, unless the asked target is enabled and has a NaN as its position, torque or one
  -- of the gains; and an enabled target within the limits as it was asked for.
  pub mit_command-IsSafe :
      FloatLaws fl
      → (targets : TargetFrame F) (m : RuntimeMotor F) → HasLimits m.parameters
      → ((targets.targets m.global_index).enabled ≡ pos 1
          → IsNumeric (targets.targets m.global_index))
      → IsSafe targets m (mit_command targets m)
  unfolding mit_command
  mit_command-IsSafe laws targets m h n =
      let t = targets.targets m.global_index in
      let chosen = if not (t.enabled ==ℤ pos 1) then default_target else t in
      let numeric : IsNumeric chosen = elim (Bool-cases (t.enabled ==ℤ pos 1)) [
        | inl e ↦ rw e (n ((==ℤ_iff t.enabled (pos 1)).0 e))
        | inr e ↦ rw e (default_target-IsNumeric laws)
      ] in
      record {
        target = (limit_target chosen m.parameters).target;
        limited = (limit_target-IsLimited laws chosen m.parameters h numeric).0;
        addressed = refl;
        carried = refl;
        asked = λ e l.
            rw ((==ℤ_iff t.enabled (pos 1)).1 e) (limit_target_of_IsLimited laws t m.parameters l);
      }

  -- A motor that is not enabled is sent the same bytes whatever else the targets say.
  pub mit_command-disabled :
      (targets others : TargetFrame F) (m : RuntimeMotor F)
      → (targets.targets m.global_index).enabled ≢ pos 1
      → (others.targets m.global_index).enabled ≢ pos 1
      → mit_command targets m ≡ mit_command others m
  unfolding mit_command
  mit_command-disabled targets others m h k =
      rw (off (targets.targets m.global_index) h, off (others.targets m.global_index) k) refl
    where
      off : (t : MotorTarget F) → t.enabled ≢ pos 1 → (t.enabled ==ℤ pos 1) ≡ false
      off t d = elim (Bool-cases (t.enabled ==ℤ pos 1)) [
        | inl e ↦ absurd (d ((==ℤ_iff t.enabled (pos 1)).0 e))
        | inr e ↦ e
      ]
