-- ===== src/JointPath/Sampling.antt =====
-- What a valid path gives at a time.
use heimasdk_snapshot_migrat.Prelude.{
  ℕ, suc, ◌≡◌, ◌≢◌, refl, inl, inr, List, [], ◌∷◌, none, some, ok, arith, Bool-cases, get_elem?,
  length,
}
use heimasdk_snapshot_migrat.Prelude.Int.{ℤ, ◌≤ℤ◌, leb_ℤ}
use heimasdk_snapshot_migrat.Motor.{Float}
use heimasdk_snapshot_migrat.JointPath.{
  LegJointTargets, LegJointWaypoint, validate_path, last, sample_between, sample_from, sample_path,
}
use heimasdk_snapshot_migrat.JointPath.Times.{◌<ℤ◌}

empty_invalid : (F : Type 0) → validate_path {F = F} [] ≢ none
unfolding validate_path
empty_invalid F e = cc

module _ {F : Type 0} ⦃fl : Float F⦄ where
  -- The joints at a time: those of the first or the last waypoint outside of the path's times, and
  -- between two neighbours the interpolation of just these two.
  pub data IsSampled (path : List (LegJointWaypoint F)) (elapsed : ℤ) (out : LegJointTargets F)
      : Type 0 where
    before :
        (w : LegJointWaypoint F)
        → get_elem? path 0 ≡ some w
        → elapsed ≤ℤ w.time_ms
        → out ≡ w.joints
        → IsSampled path elapsed out
    after :
        (i : ℕ) (w : LegJointWaypoint F)
        → suc i ≡ length path
        → get_elem? path i ≡ some w
        → w.time_ms ≤ℤ elapsed
        → out ≡ w.joints
        → IsSampled path elapsed out
    between :
        (i : ℕ) (a b : LegJointWaypoint F)
        → get_elem? path i ≡ some a
        → get_elem? path (suc i) ≡ some b
        → a.time_ms <ℤ elapsed
        → elapsed ≤ℤ b.time_ms
        → out ≡ sample_between a b elapsed
        → IsSampled path elapsed out

  last-get :
      (w : LegJointWaypoint F) (rest : List (LegJointWaypoint F))
      → get_elem? (w ∷ rest) (length rest) ≡ some (last w rest)
  unfolding last
  last-get w [] = refl
  last-get w (next ∷ rest) = last-get next rest

  -- Before the last waypoint's time the loop finds its pair and does not fall through.
  sample_from-between :
      (w : LegJointWaypoint F) (rest : List (LegJointWaypoint F)) (elapsed : ℤ)
      (fallback : LegJointTargets F)
      → w.time_ms <ℤ elapsed
      → elapsed <ℤ (last w rest).time_ms
      → (i : ℕ) × (a : LegJointWaypoint F) × (b : LegJointWaypoint F) × (get_elem? (w ∷ rest) i
          ≡ some a)
        × (get_elem? rest i ≡ some b)
        × (a.time_ms <ℤ elapsed)
        × (elapsed ≤ℤ b.time_ms)
        × (sample_from w rest elapsed fallback ≡ sample_between a b elapsed)
  unfolding sample_from last
  sample_from-between w [] elapsed fallback h l = absurd (ground arith)
  sample_from-between w (next ∷ rest) elapsed fallback h l =
      elim (Bool-cases (leb_ℤ elapsed next.time_ms)) [
        | inl e ↦ (0, w, next, refl, refl, h, ground arith, rw e refl)
        | inr e ↦
            let (i, a, b, p, q, x, y, z) =
              sample_from-between next rest elapsed fallback (ground arith) l in
            (suc i, a, b, p, q, x, y, rw e z)
      ]

  -- A valid path can be sampled at every time, with one of its waypoints or with the interpolation of
  -- the two neighbours around the time.
  pub sample_path-IsSampled :
      (path : List (LegJointWaypoint F)) (elapsed : ℤ)
      → validate_path path ≡ none
      → (out : LegJointTargets F) × (sample_path path elapsed ≡ ok out) × IsSampled path elapsed out
  unfolding sample_path
  sample_path-IsSampled [] elapsed v = absurd (empty_invalid F v)
  sample_path-IsSampled (w ∷ rest) elapsed v = elim (Bool-cases (leb_ℤ elapsed w.time_ms)) [
    | inl e ↦ (w.joints, rw (v, e, sample_path) refl, before w refl (ground arith) refl)
    | inr e ↦ elim (Bool-cases (leb_ℤ (last w rest).time_ms elapsed)) [
      | inl l ↦ (
        (last w rest).joints,
        rw (v, e, l, sample_path) refl,
        after (length rest) (last w rest) refl (last-get w rest) (ground arith) refl,
      )
      | inr l ↦
          let (i, a, b, p, q, x, y, z) =
            sample_from-between w rest elapsed (last w rest).joints (ground arith) (ground arith) in
          (
            sample_from w rest elapsed (last w rest).joints,
            rw (v, e, l, sample_path) refl,
            between i a b p q x y z,
          )
    ]
  ]
