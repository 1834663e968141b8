-- ===== src/Registry/Lookup.antt =====
-- `motorByAlias`: the first motor with the alias, or the exception.
use mathlib.Core.Bool.{false≢true}
use mathlib.Core.Option.{some-injective}
use heimasdk_snapshot_migrat.Prelude.{
  ℕ, zero, suc, ◌<◌, ◌≡◌, ◌≢◌, refl, ◌⊎◌, inl, inr, List, [], ◌∷◌, some, ok, err, arith, get_elem?,
  Bool-cases, subst, sym, ◌∙◌,
}
use heimasdk_snapshot_migrat.Prelude.Int.{ℤ, ◌==ℤ◌, ==ℤ_iff}
use heimasdk_snapshot_migrat.Registry.{
  RuntimeMotor, MotorRegistry, unknown_alias, find_alias, motor_by_alias,
}

module _ {F : Type 0} (alias : ℤ) where
  -- The motor at `i` is the first with the alias.
  abbrev pub IsFirst : List (RuntimeMotor F) → ℕ → RuntimeMotor F → Type 0
  IsFirst motors i r =
      (get_elem? motors i ≡ some r)
      × (r.alias ≡ alias)
      × ((j : ℕ) (q : RuntimeMotor F) → j < i → get_elem? motors j ≡ some q → q.alias ≢ alias)

  abbrev pub HasNone : List (RuntimeMotor F) → Type 0
  HasNone [] = Unit
  HasNone (q ∷ motors) = (q.alias ≢ alias) × HasNone motors

  first_later :
      (q : RuntimeMotor F) (motors : List (RuntimeMotor F)) (i : ℕ) (r : RuntimeMotor F)
      → q.alias ≢ alias
      → IsFirst motors i r
      → (j : ℕ) (p : RuntimeMotor F) → j < suc i
      → get_elem? (q ∷ motors) j ≡ some p
      → p.alias ≢ alias
  first_later q motors i r h y zero p l e = subst (λ z. z.alias ≢ alias) (some-injective _ _ e) h
  first_later q motors i r h y (suc j) p l e = y.2 j p (omega arith) e

  find_alias_cases :
      (motors : List (RuntimeMotor F))
      → ((find_alias alias motors ≡ err unknown_alias) × HasNone motors)
        ⊎ ((i : ℕ) × (r : RuntimeMotor F) × (find_alias alias motors ≡ ok r) × IsFirst motors i r)
  unfolding find_alias
  find_alias_cases [] = inl (refl, tt)
  find_alias_cases (q ∷ motors) = elim (Bool-cases (q.alias ==ℤ alias)) [
    | inl e ↦ inr (0, q, rw e, (refl, (==ℤ_iff q.alias alias).0 e, λ j p l. absurd (omega arith)))
    | inr e ↦
        let other : q.alias ≢ alias = λ p. false≢true (sym e ∙ (==ℤ_iff q.alias alias).1 p) in
        elim (find_alias_cases motors) [
          | inl n ↦ inl (rw e n.0, (other, n.1))
          | inr f ↦
              let (i, r, x, y) = f in
              inr (suc i, r, rw e x, (y.0, y.1, first_later q motors i r other y))
        ]
  ]

  -- `motorByAlias` gives the first motor with the alias, and throws only if there is none.
  pub motor_by_alias_cases :
      (registry : MotorRegistry F)
      → ((motor_by_alias alias registry ≡ err unknown_alias) × HasNone registry.motors)
        ⊎ ((i : ℕ) × (r : RuntimeMotor F) × (motor_by_alias alias registry ≡ ok r)
            × IsFirst registry.motors i r)
  unfolding motor_by_alias
  motor_by_alias_cases registry = find_alias_cases registry.motors
