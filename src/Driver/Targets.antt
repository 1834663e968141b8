-- ===== src/Driver/Targets.antt =====
-- What `setTargets` publishes.
use mathlib.Core.Bool.{false≢true}
use heimasdk_snapshot_migrat.Prelude.{
  ap, has_elem, ℕ, ◌<◌, ◌≡◌, ◌≢◌, refl, sym, ◌∙◌, subst, Bool, true, false, List, [], ◌∷◌, map,
  some, Result, ok, length, get_elem?, get_or, update_self, update_ne, Bool-cases, ◌⊎◌, inl, inr,
}
use heimasdk_snapshot_migrat.Prelude.Int.{ℤ, pos, pos_part}
use heimasdk_snapshot_migrat.Motor.{Float, FloatLaws, MotorTarget}
use heimasdk_snapshot_migrat.Motor.Limits.{
  HasLimits, IsNumeric, IsLimited, limit_target, limit_target-IsLimited,
}
use heimasdk_snapshot_migrat.Registry.{RuntimeMotor}
use heimasdk_snapshot_migrat.Ethercat.MtDevice.{rx_profile_for_mode}
use heimasdk_snapshot_migrat.Ethercat.Frames.{
  TargetFrame, PackedFrame, PackedTarget, max_realtime_motors,
}
use heimasdk_snapshot_migrat.Ethercat.Pdo.{pack_for_realtime}
use heimasdk_snapshot_migrat.Driver.{
  Driver, DriverError, PublicTarget, default_public_target, accepts, is_ethercat, to_can_target,
  to_ethercat_target, fill_motor, fill_motors, empty_frames, next_sequence, publish_to, set_targets,
}

-- No motor of the list has index `i`; no two motors of the list have the same index.
abbrev pub Lacks : {F : Type 0} → ℕ → List (RuntimeMotor F) → Type 0
Lacks i [] = Unit
Lacks i (m ∷ ms) = (i ≢ m.global_index) × Lacks i ms

abbrev pub AllApart : {F : Type 0} → List (RuntimeMotor F) → Type 0
AllApart [] = Unit
AllApart (m ∷ ms) = Lacks m.global_index ms × AllApart ms

-- What the two frames hold for index `i`: validity and target on CAN, and on EtherCAT.
abbrev pub entry :
    {F : Type 0} → ℕ → TargetFrame F × PackedFrame → Bool × MotorTarget F × Bool × PackedTarget
entry i (frame, packed) = (frame.valid i, frame.targets i, packed.valid i, packed.targets i)

-- The rest of the frames: number, time and count of motors.
abbrev pub heads : {F : Type 0} → TargetFrame F × PackedFrame → (ℕ × ℤ × ℕ) × ℕ × ℤ × ℕ
heads (frame, packed) = (
  (frame.sequence, frame.timestamp, frame.motor_count),
  packed.sequence,
  packed.timestamp,
  packed.motor_count,
)

module _ {F : Type 0} ⦃fl : Float F⦄ where
  -- The target that was asked for a motor.
  abbrev pub asked_of : List (PublicTarget F) → RuntimeMotor F → PublicTarget F
  asked_of targets m = get_or targets m.global_index default_public_target

  -- The motor has limits that are numbers the right way round, a mode and a maximum current, and an
  -- index among the targets and below 64; and what is asked of a CAN motor is no NaN.
  abbrev pub Configured : Driver F → List (PublicTarget F) → RuntimeMotor F → Type 0
  Configured d targets m =
      HasLimits m.parameters
      × (m.global_index < length d.operating_modes)
      × (m.global_index < length d.max_currents)
      × (m.global_index < length targets)
      × (m.global_index < max_realtime_motors)
      × ((is_ethercat m.bus ≡ true) ⊎ IsNumeric (to_can_target (asked_of targets m) m.parameters))

  abbrev pub AllConfigured : Driver F → List (PublicTarget F) → List (RuntimeMotor F) → Type 0
  AllConfigured d targets [] = Unit
  AllConfigured d targets (m ∷ ms) = Configured d targets m × AllConfigured d targets ms

  -- A CAN motor has a valid target on CAN alone: the asked one in the motor's own units, limited, and
  -- within the motor's limits.
  abbrev pub ServedCan :
      List (PublicTarget F) → RuntimeMotor F → Bool × MotorTarget F × Bool × PackedTarget → Type 0
  ServedCan targets m e =
      (e.0 ≡ true)
      × (e.1 ≡ (limit_target (to_can_target (asked_of targets m) m.parameters) m.parameters).target)
      × IsLimited m.parameters e.1
      × (e.2 ≡ false)

  -- An EtherCAT motor has a valid target on EtherCAT alone: the asked one, clamped, and packed in the
  -- profile of the motor's mode.
  abbrev pub ServedEthercat :
      Driver F
      → List (PublicTarget F)
      → RuntimeMotor F
      → Bool × MotorTarget F × Bool × PackedTarget
      → Type 0
  ServedEthercat d targets m e =
      (mode : ℤ) × (current : ℕ) × (get_elem? d.operating_modes m.global_index ≡ some mode)
      × (get_elem? d.max_currents m.global_index ≡ some current)
      × (e.2 ≡ true)
      × (e.3
          ≡ pack_for_realtime (to_ethercat_target (asked_of targets m) m.parameters mode current)
              m.parameters (rx_profile_for_mode mode))
      × (e.0 ≡ false)

  abbrev pub Served :
      Driver F
      → List (PublicTarget F)
      → RuntimeMotor F
      → Bool × MotorTarget F × Bool × PackedTarget
      → Type 0
  Served d targets m e =
      ((is_ethercat m.bus ≡ false) × ServedCan targets m e)
      ⊎ ((is_ethercat m.bus ≡ true) × ServedEthercat d targets m e)

  abbrev pub AllServed :
      Driver F
      → List (PublicTarget F)
      → List (RuntimeMotor F)
      → TargetFrame F × PackedFrame
      → Type 0
  AllServed d targets [] frames = Unit
  AllServed d targets (m ∷ ms) frames =
      Served d targets m (entry m.global_index frames) × AllServed d targets ms frames

  -- Neither frame has a valid target at `i`.
  abbrev pub Blank : ℕ → TargetFrame F × PackedFrame → Type 0
  Blank i frames = (frames.0.valid i ≡ false) × (frames.1.valid i ≡ false)

  pub record IsFilled (now : ℤ) (d : Driver F) (targets : List (PublicTarget F))
      (all : List (RuntimeMotor F)) (frames : TargetFrame F × PackedFrame) : Type 0 where
    pub served : AllServed d targets all frames
    pub others : (i : ℕ) → Lacks i all → Blank i frames
    pub numbered : heads frames ≡ (
      (next_sequence d, now, pos_part d.total_motor_count),
      next_sequence d,
      now,
      pos_part d.total_motor_count,
    )

  -- Frames that come from others by filling in the motors of a list.
  abbrev Fills :
      Driver F
      → List (PublicTarget F)
      → List (RuntimeMotor F)
      → TargetFrame F × PackedFrame
      → Result DriverError (TargetFrame F × PackedFrame)
      → Type 0
  Fills d targets ms old r =
      (new : TargetFrame F × PackedFrame) × (r ≡ ok new)
      × AllServed d targets ms new
      × ((i : ℕ) → Lacks i ms → entry i new ≡ entry i old)
      × (heads new ≡ heads old)

  fill_motor-Fills :
      FloatLaws fl
      → (d : Driver F) (targets : List (PublicTarget F)) (m : RuntimeMotor F)
        (frames : TargetFrame F × PackedFrame)
      → Configured d targets m
      → Blank m.global_index frames
      → Fills d targets (m ∷ []) frames (fill_motor d targets m frames)
  unfolding fill_motor
  fill_motor-Fills laws d targets m frames (c, cm, cu, ct, cl, n) (b0, b1) =
      let k = m.global_index in
      elim (Bool-cases (is_ethercat m.bus)) [
        | inl e ↦
            let (mode, em) = has_elem d.operating_modes k cm in
            let (current, ec) = has_elem d.max_currents k cu in
            rw (e, em, ec)
              (
                _,
                refl,
                (
                  inr (
                    refl,
                    (
                      mode,
                      current,
                      refl,
                      refl,
                      update_self frames.1.valid k true,
                      update_self frames.1.targets k _,
                      b0,
                    ),
                  ),
                  tt,
                ),
                λ i l.
                    rw
                      (
                        update_ne frames.1.valid k true i (λ q. l.0 (sym q)),
                        update_ne frames.1.targets k _ i (λ q. l.0 (sym q)),
                      )
                      refl,
                refl,
              )
        | inr e ↦
            let numeric : IsNumeric (to_can_target (asked_of targets m) m.parameters) = elim n [
              | inl q ↦ absurd (false≢true (sym e ∙ q))
              | inr q ↦ q
            ] in
            let target = to_can_target (asked_of targets m) m.parameters in
            rw e (
              _,
              refl,
              (
                inl (
                  refl,
                  (
                    update_self frames.0.valid k true,
                    update_self frames.0.targets k _,
                    rw (update_self frames.0.targets k (limit_target target m.parameters).target)
                        (limit_target-IsLimited laws target m.parameters c numeric).0,
                    b1,
                  ),
                ),
                tt,
              ),
              λ i l.
                  rw
                    (
                      update_ne frames.0.valid k true i (λ q. l.0 (sym q)),
                      update_ne frames.0.targets k _ i (λ q. l.0 (sym q)),
                    )
                    refl,
              refl,
            )
      ]

  abbrev AllBlank : List (RuntimeMotor F) → TargetFrame F × PackedFrame → Type 0
  AllBlank [] frames = Unit
  AllBlank (m ∷ ms) frames = Blank m.global_index frames × AllBlank ms frames

  -- Indices that a step leaves alone stay blank.
  AllBlank-kept :
      (k : ℕ) (ms : List (RuntimeMotor F)) (old new : TargetFrame F × PackedFrame)
      → Lacks k ms
      → ((i : ℕ) → i ≢ k → entry i new ≡ entry i old)
      → AllBlank ms old
      → AllBlank ms new
  AllBlank-kept k [] old new l same b = tt
  AllBlank-kept k (m ∷ ms) old new l same b =
      let e = same m.global_index (λ q. l.0 (sym q)) in
      ((ap (λ t. t.0) e ∙ b.0.0, ap (λ t. t.2) e ∙ b.0.1), AllBlank-kept k ms old new l.1 same b.1)

  fill_motors-Fills :
      FloatLaws fl
      → (d : Driver F) (targets : List (PublicTarget F)) (ms : List (RuntimeMotor F))
        (frames : TargetFrame F × PackedFrame)
      → AllConfigured d targets ms
      → AllApart ms
      → AllBlank ms frames
      → Fills d targets ms frames (fill_motors d targets ms frames)
  unfolding fill_motors
  fill_motors-Fills laws d targets [] frames c p b = (frames, refl, tt, λ i l. refl, refl)
  fill_motors-Fills laws d targets (m ∷ ms) frames c p b =
      let k = m.global_index in
      let (next, e, s, same, h) = fill_motor-Fills laws d targets m frames c.0 b.0 in
      let (last, e', s', same', h') =
        fill_motors-Fills laws d targets ms next c.1 p.1
          (AllBlank-kept k ms frames next p.0 (λ i q. same i (q, tt)) b.1) in
      rw (e, e')
        (
          last,
          refl,
          (subst (Served d targets m) (sym (same' k p.0)) s.0, s'),
          λ i l. same' i l.1 ∙ same i (l.0, tt),
          h' ∙ h,
        )

  empty_frames-AllBlank :
      (now : ℤ) (d : Driver F) (ms : List (RuntimeMotor F)) → AllBlank ms (empty_frames now d)
  empty_frames-AllBlank now d [] = tt
  empty_frames-AllBlank now d (m ∷ ms) = ((refl, refl), empty_frames-AllBlank now d ms)

  -- On an initialized driver whose motors have indices of their own below 64, limits that are numbers
  -- the right way round, and all modes and currents, targets for all motors, of which those of the CAN
  -- motors are no NaN in the motor's own units, are accepted, and every backend gets the next frame of
  -- its bus, with the time: each CAN motor has a valid target there, the asked one limited, which is
  -- within the motor's limits; each EtherCAT motor has one, the asked one clamped and packed in the
  -- profile of the motor's mode; and there are no other valid targets.
  pub set_targets-IsFilled :
      FloatLaws fl
      → (now : ℤ) (targets : List (PublicTarget F)) (d : Driver F)
      → accepts d (length targets) ≡ true
      → AllConfigured d targets d.registry.motors
      → AllApart d.registry.motors
      → (frames : TargetFrame F × PackedFrame) × IsFilled now d targets d.registry.motors frames
        × (set_targets now targets d
            ≡ ok (
              pos 0,
              record d {
                target_sequence = next_sequence d;
                runtimes = map (publish_to frames.0 frames.1) d.runtimes;
              },
            ))
  unfolding set_targets
  set_targets-IsFilled laws now targets d a c p =
      let (frames, e, s, same, h) =
        fill_motors-Fills laws d targets d.registry.motors (empty_frames now d) c p
          (empty_frames-AllBlank now d d.registry.motors) in
      (
        frames,
        record {
          served = s;
          others = λ i l. (ap (λ t. t.0) (same i l), ap (λ t. t.2) (same i l));
          numbered = h;
        },
        rw (a, e) refl,
      )
