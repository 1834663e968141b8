-- ===== src/Motor/Limits.antt =====
-- `clamp` of src/rmd_types.cpp, and src/rmd_safety.cpp: a target within the limits of its motor.
use heimasdk_snapshot_migrat.Prelude.{
  Bool-cases, inl, inr, ◌≤◌, ◌<◌, ◌^◌, refl, ℕ, ◌≡◌, Bool, false, not, ◌||◌, if◌then◌else◌, arith,
}
use heimasdk_snapshot_migrat.Prelude.Int.{pos}
use heimasdk_snapshot_migrat.Motor.{
  IsNumber, AtMost, Float, FloatLaws, MotorParameters, MotorTarget, MotorActual,
}

pub record LimitedTarget (F : Type 0) : Type 0 where
  pub target : MotorTarget F
  pub clamped : Bool

module _ {F : Type 0} ⦃fl : Float F⦄ where
  pub clamp : F → F → F → F
  clamp value low high = if fl.lt value low then low else if fl.lt high value then high else value

  -- The flag is what `clampAndTrack` ors into its last argument.
  pub clamp_and_track : F → F → F → Bool → F × Bool
  unfolding clamp
  clamp_and_track value low high clamped =
      let out = clamp value low high in (out, clamped || not (fl.eq out value))

  abbrev pub kp_min : F
  kp_min = fl.of_int (pos 0)

  abbrev pub kp_max : F
  kp_max = fl.of_int (pos 500)

  abbrev pub kd_min : F
  kd_min = fl.of_int (pos 0)

  abbrev pub kd_max : F
  kd_max = fl.of_int (pos 50)

  unfoldable pub limit_target : MotorTarget F → MotorParameters F → LimitedTarget F
  unfolding clamp_and_track
  limit_target target params =
      let (p, c1) =
        clamp_and_track target.pos params.minimum_position params.maximum_position false in
      let (t, c2) =
        clamp_and_track target.tor (fl.neg params.maximum_torque) params.maximum_torque c1 in
      let (kp, c3) = clamp_and_track target.kp kp_min kp_max c2 in
      let (kd, c4) = clamp_and_track target.kd kd_min kd_max c3 in
      record { target = record target { pos = p; tor = t; kp = kp; kd = kd }; clamped = c4 }

abbrev pub error_code_feedback_timeout : ℕ
error_code_feedback_timeout = 1

abbrev pub error_code_backend_fault : ℕ
error_code_backend_fault = 2

module _ {F : Type 0} where
  unfoldable pub mark_actual_stale : MotorActual F → MotorActual F
  mark_actual_stale actual = record actual {
    status_word = 0xffff;
    error_code = error_code_feedback_timeout;
  }

  abbrev pub mark_actual_backend_fault : MotorActual F → MotorActual F
  mark_actual_backend_fault actual = record actual {
    status_word = 0xffff;
    error_code = error_code_backend_fault;
  }

module _ {F : Type 0} ⦃fl : Float F⦄ where
  -- A number between two bounds.
  abbrev pub Inside : F → F → F → Type 0
  Inside low high x = AtMost low x × AtMost x high

  -- Limits that are numbers the right way round.
  pub record HasLimits (params : MotorParameters F) : Type 0 where
    pub positions : AtMost params.minimum_position params.maximum_position
    pub torques : AtMost (fl.neg params.maximum_torque) params.maximum_torque

  -- No NaN stands for what is limited.
  pub record IsNumeric (t : MotorTarget F) : Type 0 where
    pub pos_number : IsNumber t.pos
    pub tor_number : IsNumber t.tor
    pub kp_number : IsNumber t.kp
    pub kd_number : IsNumber t.kd

  pub record IsLimited (params : MotorParameters F) (t : MotorTarget F) : Type 0 where
    pub pos_in : Inside params.minimum_position params.maximum_position t.pos
    pub tor_in : Inside (fl.neg params.maximum_torque) params.maximum_torque t.tor
    pub kp_in : Inside kp_min kp_max t.kp
    pub kd_in : Inside kd_min kd_max t.kd

  -- What is not limited stays as it was asked for.
  pub record KeepsRest (t asked : MotorTarget F) : Type 0 where
    pub vel : t.vel ≡ asked.vel
    pub mode : t.mode ≡ asked.mode
    pub enabled : t.enabled ≡ asked.enabled
    pub max_current : t.max_current ≡ asked.max_current

  IsNumber-AtMost : (a : F) → IsNumber a → AtMost a a
  IsNumber-AtMost a n = ground arith

  pub clamp-Inside :
      FloatLaws fl
      → (value low high : F) → AtMost low high
      → IsNumber value
      → Inside low high (clamp value low high)
  unfolding clamp
  clamp-Inside laws value low high h n =
      let (nl, nh) = laws.AtMost-numbers low high h in
      elim (Bool-cases (fl.lt value low)) [
        | inl e ↦ rw e (IsNumber-AtMost low nl, h)
        | inr e ↦ elim (Bool-cases (fl.lt high value)) [
          | inl f ↦ rw (e, f) (h, IsNumber-AtMost high nh)
          | inr f ↦
              rw (e, f)
                (laws.AtMost_of_not_lt low value nl n e, laws.AtMost_of_not_lt value high n nh f)
        ]
      ]

  pub clamp_of_Inside :
      FloatLaws fl → (value low high : F) → Inside low high value → clamp value low high ≡ value
  unfolding clamp
  clamp_of_Inside laws value low high h =
      rw (laws.not_lt_of_AtMost low value h.0, laws.not_lt_of_AtMost value high h.1) refl

  -- The bounds of the gains are in order.
  pub bounds :
      FloatLaws fl → (n : ℕ) → 0 < n → n ≤ 2 ^ 24 → AtMost (fl.of_int (pos 0)) (fl.of_int (pos n))
  bounds laws n p q = ground (arith, laws.lt-of_int 0 n (omega arith) q)

  -- With limits that are numbers the right way round, a target of which the position, the torque and
  -- the gains are numbers, whatever they are, is limited to the motor's position and torque and to
  -- the gains of the protocol, each between its bounds and no NaN; and its other fields stay.
  pub limit_target-IsLimited :
      FloatLaws fl
      → (target : MotorTarget F) (params : MotorParameters F) → HasLimits params
      → IsNumeric target
      → IsLimited params (limit_target target params).target
        × KeepsRest (limit_target target params).target target
  unfolding limit_target
  limit_target-IsLimited laws target params h n = (
    record {
      pos_in = clamp-Inside laws target.pos _ _ h.positions n.pos_number;
      tor_in = clamp-Inside laws target.tor _ _ h.torques n.tor_number;
      kp_in =
          clamp-Inside laws target.kp _ _ (bounds laws 500 (omega arith) (omega arith)) n.kp_number;
      kd_in =
          clamp-Inside laws target.kd _ _ (bounds laws 50 (omega arith) (omega arith)) n.kd_number;
    },
    record { vel = refl; mode = refl; enabled = refl; max_current = refl },
  )

  -- A target within the limits is passed on as it is.
  pub limit_target_of_IsLimited :
      FloatLaws fl
      → (target : MotorTarget F) (params : MotorParameters F) → IsLimited params target
      → (limit_target target params).target ≡ target
  unfolding limit_target
  limit_target_of_IsLimited laws target params l =
      rw
        (
          clamp_of_Inside laws target.pos params.minimum_position params.maximum_position l.pos_in,
          clamp_of_Inside laws target.tor (fl.neg params.maximum_torque) params.maximum_torque
              l.tor_in,
          clamp_of_Inside laws target.kp kp_min kp_max l.kp_in,
          clamp_of_Inside laws target.kd kd_min kd_max l.kd_in,
        )
        refl
