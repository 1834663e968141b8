-- ===== src/Ethercat/Pdo/Torque.antt =====
-- The raw torque of `torqueToRaw`, `torqueToRawLimited` and `rawToTorque`: thousandths of the rated
-- current, in 16 bits.
use heimasdk_snapshot_migrat.Prelude.{
  ℕ, ◌^◌, ◌≤◌, ◌<◌, ◌-◌, ◌≡◌, Bool, true, false, if◌then◌else◌, arith,
}
use heimasdk_snapshot_migrat.Prelude.Int.{ℤ, pos, negsuc, ltb_ℤ, ◌≤ℤ◌, neg_ℤ, wrap, signed}
use heimasdk_snapshot_migrat.Motor.{Float, MotorParameters, zero_f}

abbrev pub to_i16 : ℤ → ℤ
to_i16 z = signed 16 (wrap 16 z)

-- `if (raw > limit) … else if (raw < -limit) …`
pub limit_raw : ℤ → ℤ → ℤ
limit_raw raw max_current =
    let limit : ℤ = if ltb_ℤ max_current (pos 0) then pos 0 else max_current in
    if ltb_ℤ limit raw then limit else if ltb_ℤ raw (neg_ℤ limit) then neg_ℤ limit else raw

module _ {F : Type 0} ⦃fl : Float F⦄ where
  abbrev pub scale : MotorParameters F → F
  scale params = fl.mul params.torque_constant params.rated_current

  -- `params.polarity * 1000.0f * torque / scale`
  abbrev pub scaled : F → MotorParameters F → F
  scaled torque params =
      fl.div (fl.mul (fl.mul params.polarity (fl.of_int (pos 1000))) torque) (scale params)

  abbrev pub torque_to_raw : F → MotorParameters F → ℤ
  torque_to_raw torque params =
      if fl.eq (scale params) zero_f then pos 0 else to_i16 (fl.truncate (scaled torque params))

  pub torque_to_raw_limited : F → MotorParameters F → ℤ → ℤ
  torque_to_raw_limited torque params max_current =
      if fl.eq (scale params) zero_f
      then pos 0
      else to_i16 (limit_raw (signed 32 (wrap 32 (fl.lround (scaled torque params)))) max_current)

  abbrev pub raw_to_torque : ℤ → MotorParameters F → F
  raw_to_torque raw params =
      fl.mul
        (fl.mul (fl.div (fl.mul params.polarity (fl.of_int raw)) (fl.of_int (pos 1000)))
          params.rated_current)
        params.torque_constant

limit_raw-within :
    (raw : ℤ) (m : ℕ) → (neg_ℤ (pos m) ≤ℤ limit_raw raw (pos m)) × (limit_raw raw (pos m) ≤ℤ pos m)
unfolding limit_raw
limit_raw-within raw m = ground arith

to_i16_of_small : (z : ℤ) (m : ℕ) → m < 2 ^ 15 → neg_ℤ (pos m) ≤ℤ z → z ≤ℤ pos m → to_i16 z ≡ z
to_i16_of_small (pos n) m h lo hi = ground arith
to_i16_of_small (negsuc n) m h lo hi = ground arith

within :
    (no_scale : Bool) (raw : ℤ) (m : ℕ)
    → m < 2 ^ 15
    → (neg_ℤ (pos m) ≤ℤ (if no_scale then pos 0 else to_i16 (limit_raw raw (pos m))))
      × ((if no_scale then pos 0 else to_i16 (limit_raw raw (pos m))) ≤ℤ pos m)
within true raw m h = ground arith
within false raw m h =
    let (lo, hi) = limit_raw-within raw m in
    rw (to_i16_of_small (limit_raw raw (pos m)) m h lo hi) (lo, hi)

module _ {F : Type 0} ⦃fl : Float F⦄ where
  -- In torque mode the raw torque stays within the current limit, for a limit below 2^15.
  pub torque_to_raw_limited-within :
      (torque : F) (params : MotorParameters F) (m : ℕ)
      → m < 2 ^ 15
      → (neg_ℤ (pos m) ≤ℤ torque_to_raw_limited torque params (pos m))
        × (torque_to_raw_limited torque params (pos m) ≤ℤ pos m)
  unfolding torque_to_raw_limited
  torque_to_raw_limited-within torque params m h =
      within (fl.eq (scale params) zero_f) (signed 32 (wrap 32 (fl.lround (scaled torque params))))
        m h

  -- With a limit of 2^15 or more (up to 2^16 - 1, the largest that can be set), a torque demand at
  -- or beyond the limit is sent as a negative value: the opposite direction.
  pub torque_to_raw_limited-wraps :
      (torque : F) (params : MotorParameters F) (raw m : ℕ)
      → fl.eq (scale params) zero_f ≡ false
      → fl.lround (scaled torque params) ≡ pos raw
      → 2 ^ 15 ≤ m
      → m < 2 ^ 16
      → m ≤ raw
      → raw < 2 ^ 31
      → torque_to_raw_limited torque params (pos m) ≡ negsuc (2 ^ 16 - m - 1)
  unfolding torque_to_raw_limited limit_raw
  torque_to_raw_limited-wraps torque params raw m s e lo hi l b = rw (s, e) (ground arith)
