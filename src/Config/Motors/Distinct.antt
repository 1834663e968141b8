-- ===== src/Config/Motors/Distinct.antt =====
-- The lists that loading builds: parameters keyed by alias, and motors with different aliases.
use heimasdk_snapshot_migrat.Prelude.{
  ◌≡◌, ◌≢◌, refl, subst, List, [], ◌∷◌, ◌++◌, Option, some, Result, ok, >>=_inverse, ok-injective,
  arith, inl, inr, ap, ◌∙◌, Bool-cases, Option-cases,
}
use heimasdk_snapshot_migrat.Prelude.Int.{ℤ, pos, ◌≤ℤ◌, ◌==ℤ◌, ==ℤ_iff}
use heimasdk_snapshot_migrat.Motor.{MotorParameters, MotorConfig}
use heimasdk_snapshot_migrat.Config.{ConfigError}
use heimasdk_snapshot_migrat.Config.Motors.{
  put_parameters, find_parameters, upsert_motor, place_motors,
}

abbrev pub All {ℓ κ} : {A : Type ℓ} → (A → Type κ) → List A → Type κ
All P [] = Unit
All P (x ∷ xs) = P x × All P xs

pub All-mono {ℓ κ} :
    {A : Type ℓ} {P Q : A → Type κ} (xs : List A) → ((x : A) → P x → Q x) → All P xs → All Q xs
All-mono [] f a = tt
All-mono (x ∷ xs) f a = (f x a.0, All-mono xs f a.1)

pub All-append {ℓ κ} :
    {A : Type ℓ} (P : A → Type κ) (xs ys : List A) → All P xs → All P ys → All P (xs ++ ys)
All-append P [] ys a b = b
All-append P (x ∷ xs) ys a b = (a.0, All-append P xs ys a.1 b)

-- An alias of a frame with `total` motors.
abbrev pub IsAlias : ℤ → ℤ → Type 0
IsAlias total alias = (pos 1 ≤ℤ alias) × (alias ≤ℤ total)

module _ {F : Type 0} where
  abbrev pub AllKeyed : ℤ → List (ℤ × MotorParameters F) → Type 0
  AllKeyed total = All (λ entry. IsAlias total entry.0)

  pub put_parameters-AllKeyed :
      (total alias : ℤ) (p : MotorParameters F) (entries : List (ℤ × MotorParameters F))
      → IsAlias total alias
      → AllKeyed total entries
      → AllKeyed total (put_parameters alias p entries)
  unfolding put_parameters
  put_parameters-AllKeyed total alias p [] h a = (h, tt)
  put_parameters-AllKeyed total alias p ((k, q) ∷ rest) h a = elim (Bool-cases (k ==ℤ alias)) [
    | inl e ↦ rw e (h, a.1)
    | inr e ↦ rw e (a.0, put_parameters-AllKeyed total alias p rest h a.1)
  ]

  pub find_parameters-IsAlias :
      (total alias : ℤ) (entries : List (ℤ × MotorParameters F)) {p : MotorParameters F}
      → AllKeyed total entries
      → find_parameters alias entries ≡ some p
      → IsAlias total alias
  unfolding find_parameters
  find_parameters-IsAlias total alias [] a e = cc
  find_parameters-IsAlias total alias ((k, q) ∷ rest) a e = elim (Bool-cases (k ==ℤ alias)) [
    | inl h ↦ rw (← (==ℤ_iff k alias).0 h) a.0
    | inr h ↦ find_parameters-IsAlias total alias rest a.1 (rw h at e)
  ]

  -- No motor of the list has the alias; no two motors of the list share one.
  abbrev pub Lacks : ℤ → List (MotorConfig F) → Type 0
  Lacks alias = All (λ m. m.alias ≢ alias)

  abbrev pub AllDistinct : List (MotorConfig F) → Type 0
  AllDistinct [] = Unit
  AllDistinct (m ∷ ms) = Lacks m.alias ms × AllDistinct ms

  upsert_motor-All {κ} :
      (P : MotorConfig F → Type κ) (m : MotorConfig F) (ms : List (MotorConfig F))
      → P m
      → All P ms
      → All P (upsert_motor m ms)
  unfolding upsert_motor
  upsert_motor-All P m [] h a = (h, tt)
  upsert_motor-All P m (x ∷ xs) h a = elim (Bool-cases (x.alias ==ℤ m.alias)) [
    | inl e ↦ rw e (h, a.1)
    | inr e ↦ rw e (a.0, upsert_motor-All P m xs h a.1)
  ]

  upsert_motor-AllDistinct :
      (m : MotorConfig F) (ms : List (MotorConfig F))
      → AllDistinct ms
      → AllDistinct (upsert_motor m ms)
  unfolding upsert_motor
  upsert_motor-AllDistinct m [] d = (tt, tt)
  upsert_motor-AllDistinct m (x ∷ xs) d = elim (Bool-cases (x.alias ==ℤ m.alias)) [
    | inl e ↦ rw e (rw (← (==ℤ_iff x.alias m.alias).0 e) d.0, d.1)
    | inr e ↦ rw e (
      upsert_motor-All (λ y. y.alias ≢ x.alias) m xs (λ p. ground (arith, ==ℤ_iff x.alias m.alias))
          d.0,
      upsert_motor-AllDistinct m xs d.1,
    )
  ]

module _ {E F : Type 0} where
  -- Whatever each element gives, the loop keeps.
  pub place_motors-All :
      (P : MotorConfig F → Type 0) (place : E → Result ConfigError (Option (MotorConfig F)))
      (es : List E) (ms : List (MotorConfig F)) {out : List (MotorConfig F)}
      → ((e : E) (m : MotorConfig F) → place e ≡ ok (some m) → P m)
      → All P ms × AllDistinct ms
      → place_motors place es ms ≡ ok out
      → All P out × AllDistinct out
  unfolding place_motors
  place_motors-All P place [] ms f h e =
      subst (λ l. All P l × AllDistinct l) (ok-injective (place_motors place [] ms) refl e) h
  place_motors-All P place (x ∷ es) ms f h e =
      let (r, p, q) = >>=_inverse (place x) _ e in
      elim (Option-cases r) [
        | inl n ↦ place_motors-All P place es ms f h (rw n at q)
        | inr (m, n) ↦
            place_motors-All P place es (upsert_motor m ms) f
              (upsert_motor-All P m ms (f x m (p ∙ ap ok n)) h.0, upsert_motor-AllDistinct m ms h.1)
              (rw n at q)
      ]
