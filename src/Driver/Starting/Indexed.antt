-- ===== src/Driver/Starting/Indexed.antt =====
-- Which motors stop `init` at the bitset of its first feedback.
use mathlib.Core.Option.{some-injective}
use heimasdk_snapshot_migrat.Prelude.{
  ℕ, zero, suc, ◌≤◌, ◌<◌, ◌≡◌, refl, sym, ◌∙◌, ap, inl, inr, true, false, List, [], ◌∷◌, some,
  arith, Bool-cases, Option-cases, ltb, length, get_elem?,
}
use heimasdk_snapshot_migrat.Prelude.Int.{ℤ, pos, ◌≤ℤ◌}
use heimasdk_snapshot_migrat.Motor.{Float}
use heimasdk_snapshot_migrat.Registry.{MotorRegistry, RuntimeMotor, BackendGroup}
use heimasdk_snapshot_migrat.Registry.Building.{AllIndexed}
use heimasdk_snapshot_migrat.Ethercat.Frames.{max_realtime_motors}
use heimasdk_snapshot_migrat.Driver.Starting.{settable, new_runtimes}

module _ {F : Type 0} where
  -- A motor whose index lies outside the bitset, by its place.
  pub record IsOutside (motors : List (RuntimeMotor F)) : Type 0 where
    pub place : ℕ
    pub motor : RuntimeMotor F
    pub at_place : get_elem? motors place ≡ some motor
    pub outside : max_realtime_motors ≤ motor.global_index

  settable-inside :
      (motors : List (RuntimeMotor F)) (indexes : List ℕ) (j k : ℕ) (r : RuntimeMotor F)
      → settable motors indexes ≡ true
      → get_elem? indexes j ≡ some k
      → get_elem? motors k ≡ some r
      → r.global_index < max_realtime_motors
  unfolding settable
  settable-inside motors [] j k r h e m = cc
  settable-inside motors (i ∷ is) zero k r h e m =
      let at = ap (get_elem? motors) (some-injective i k e) ∙ m in
      ground (arith, rw (at, settable) at h)
  settable-inside motors (i ∷ is) (suc j) k r h e m = elim (Option-cases (get_elem? motors i)) [
    | inl n ↦ settable-inside motors is j k r (rw (n, settable) at h) e m
    | inr (x, n) ↦ elim (Bool-cases (settable motors is)) [
      | inl t ↦ settable-inside motors is j k r t e m
      | inr t ↦ ground (arith, rw (n, settable, t) at h)
    ]
  ]

  settable-IsOutside :
      (motors : List (RuntimeMotor F)) (indexes : List ℕ)
      → settable motors indexes ≡ false
      → IsOutside motors
  unfolding settable
  settable-IsOutside motors [] h = cc
  settable-IsOutside motors (i ∷ is) h = elim (Option-cases (get_elem? motors i)) [
    | inl n ↦ settable-IsOutside motors is (rw (n, settable) at h)
    | inr (x, n) ↦ elim (Bool-cases (ltb x.global_index max_realtime_motors)) [
      | inl t ↦ settable-IsOutside motors is (rw (n, settable, t) at h)
      | inr t ↦ record { place = i; motor = x; at_place = n; outside = ground arith }
    ]
  ]

  AllIndexed-below :
      (total : ℤ) (motors : List (RuntimeMotor F)) (i : ℕ) (r : RuntimeMotor F)
      → AllIndexed total motors
      → get_elem? motors i ≡ some r
      → pos (suc r.global_index) ≤ℤ total
  AllIndexed-below total [] i r a e = cc
  AllIndexed-below total (m ∷ ms) zero r a e = rw (sym (some-injective m r e)) a.1
  AllIndexed-below total (m ∷ ms) (suc i) r a e = AllIndexed-below total ms i r a.2 e

module _ {F : Type 0} ⦃fl : Float F⦄ where
  pub new_runtimes-inside :
      (total : ℤ) (registry : MotorRegistry F) (i : ℕ) (groups : List BackendGroup) (j : ℕ)
      (g : BackendGroup) (l k : ℕ) (r : RuntimeMotor F)
      → (new_runtimes total registry i groups).1 ≡ true
      → get_elem? groups j ≡ some g
      → get_elem? g.motor_indexes l ≡ some k
      → get_elem? registry.motors k ≡ some r
      → r.global_index < max_realtime_motors
  unfolding new_runtimes
  new_runtimes-inside total registry i [] j g l k r h e q m = cc
  new_runtimes-inside total registry i (x ∷ xs) zero g l k r h e q m =
      elim (Bool-cases (settable registry.motors x.motor_indexes)) [
        | inr t ↦ cc (rw t at h)
        | inl t ↦
            let same = ap (λ y. settable registry.motors y.motor_indexes) (some-injective x g e) in
            settable-inside registry.motors g.motor_indexes l k r (sym same ∙ t) q m
      ]
  new_runtimes-inside total registry i (x ∷ xs) (suc j) g l k r h e q m =
      elim (Bool-cases (settable registry.motors x.motor_indexes)) [
        | inr t ↦ cc (rw t at h)
        | inl t ↦ new_runtimes-inside total registry (suc i) xs j g l k r (rw t at h) e q m
      ]

  pub new_runtimes-IsOutside :
      (total : ℤ) (registry : MotorRegistry F) (i : ℕ) (groups : List BackendGroup)
      → (new_runtimes total registry i groups).1 ≡ false
      → IsOutside registry.motors
  unfolding new_runtimes
  new_runtimes-IsOutside total registry i [] h = cc
  new_runtimes-IsOutside total registry i (x ∷ xs) h =
      elim (Bool-cases (settable registry.motors x.motor_indexes)) [
        | inr t ↦ settable-IsOutside registry.motors x.motor_indexes t
        | inl t ↦ new_runtimes-IsOutside total registry (suc i) xs (rw t at h)
      ]

  pub length-new_runtimes :
      (total : ℤ) (registry : MotorRegistry F) (i : ℕ) (groups : List BackendGroup)
      → (new_runtimes total registry i groups).1 ≡ true
      → length (new_runtimes total registry i groups).0 ≡ length groups
  unfolding new_runtimes
  length-new_runtimes total registry i [] h = refl
  length-new_runtimes total registry i (x ∷ xs) h =
      elim (Bool-cases (settable registry.motors x.motor_indexes)) [
        | inr t ↦ cc (rw t at h)
        | inl t ↦ rw t (ap suc (length-new_runtimes total registry (suc i) xs (rw t at h)))
      ]

  -- A registry of at most 64 motors stops no `init`.
  pub new_runtimes_few :
      (total : ℤ) (registry : MotorRegistry F)
      → AllIndexed total registry.motors
      → total ≤ℤ pos max_realtime_motors
      → (new_runtimes total registry 0 registry.backends).1 ≡ true
  new_runtimes_few total registry a h =
      elim (Bool-cases (new_runtimes total registry 0 registry.backends).1) [
        | inl t ↦ t
        | inr t ↦
            let o = new_runtimes-IsOutside total registry 0 registry.backends t in
            let below = AllIndexed-below total registry.motors o.place o.motor a o.at_place in
            let outside = o.outside in absurd (omega (arith, below, h, outside))
      ]
