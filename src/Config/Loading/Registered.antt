-- ===== src/Config/Loading/Registered.antt =====
-- A configuration that was loaded, made into a registry, and each of its motors looked up there.
use mathlib.Core.Option.{some-injective}
use heimasdk_snapshot_migrat.Prelude.{
  ℕ, zero, suc, ◌≡◌, ◌≢◌, refl, sym, ◌∙◌, ap, subst, List, [], ◌∷◌, map, Option, some, ok, inl, inr,
  get_elem?,
}
use heimasdk_snapshot_migrat.Prelude.Int.{ℤ}
use heimasdk_snapshot_migrat.Motor.{MotorParameters, MotorConfig}
use heimasdk_snapshot_migrat.Registry.{RuntimeMotor, MotorRegistry, from_config, motor_by_alias}
use heimasdk_snapshot_migrat.Registry.Building.{origin, AllInRange, IsRegistry}
use heimasdk_snapshot_migrat.Registry.Loading.{from_config-IsRegistry}
use heimasdk_snapshot_migrat.Registry.Lookup.{HasNone, motor_by_alias_cases}
use heimasdk_snapshot_migrat.Config.{Config, Xml}
use heimasdk_snapshot_migrat.Config.Motors.Distinct.{All, Lacks, AllDistinct}
use heimasdk_snapshot_migrat.Config.Motors.Placed.{IsPlaced}
use heimasdk_snapshot_migrat.Config.Loading.{load_config}
use heimasdk_snapshot_migrat.Config.Loading.Loaded.{load_config-IsLoaded}

module _ {F : Type 0} where
  placed-AllInRange :
      (total : ℤ) (parameters : List (ℤ × MotorParameters F)) (ms : List (MotorConfig F))
      → All (IsPlaced total parameters) ms
      → AllInRange total ms
  placed-AllInRange total parameters [] a = tt
  placed-AllInRange total parameters (m ∷ ms) a =
      (a.0.numbered, placed-AllInRange total parameters ms a.1)

  Lacks-ne :
      (alias : ℤ) (ms : List (MotorConfig F)) (i : ℕ) {m : MotorConfig F}
      → Lacks alias ms
      → get_elem? ms i ≡ some m
      → m.alias ≢ alias
  Lacks-ne alias [] i l e = cc
  Lacks-ne alias (x ∷ ms) zero l e = subst (λ y. y.alias ≢ alias) (some-injective _ _ e) l.0
  Lacks-ne alias (x ∷ ms) (suc i) l e = Lacks-ne alias ms i l.1 e

  -- Two places of a list without a shared alias that have the same alias hold the same motor.
  AllDistinct-same :
      (ms : List (MotorConfig F)) (i j : ℕ) {a b : MotorConfig F}
      → AllDistinct ms
      → get_elem? ms i ≡ some a
      → get_elem? ms j ≡ some b
      → a.alias ≡ b.alias
      → a ≡ b
  AllDistinct-same [] i j d p q e = cc
  AllDistinct-same (x ∷ ms) zero zero d p q e = some-injective _ _ (sym p ∙ q)
  AllDistinct-same (x ∷ ms) zero (suc j) {a} {b} d p q e =
      absurd (Lacks-ne x.alias ms j d.0 q (sym e ∙ sym (ap (λ y. y.alias) (some-injective x a p))))
  AllDistinct-same (x ∷ ms) (suc i) zero {a} {b} d p q e =
      absurd (Lacks-ne x.alias ms i d.0 p (e ∙ sym (ap (λ y. y.alias) (some-injective x b q))))
  AllDistinct-same (x ∷ ms) (suc i) (suc j) d p q e = AllDistinct-same ms i j d.1 p q e

  get_elem?-map {κ} :
      {B : Type κ} (f : RuntimeMotor F → B) (rs : List (RuntimeMotor F)) (i : ℕ)
      {r : RuntimeMotor F}
      → get_elem? rs i ≡ some r
      → get_elem? (map f rs) i ≡ some (f r)
  get_elem?-map f [] i e = cc
  get_elem?-map f (x ∷ rs) zero e = ap some (ap f (some-injective _ _ e))
  get_elem?-map f (x ∷ rs) (suc i) e = get_elem?-map f rs i e

  HasNone-origin :
      (alias : ℤ) (rs : List (RuntimeMotor F)) (i : ℕ) {m : MotorConfig F}
      → HasNone alias rs
      → get_elem? (map origin rs) i ≡ some m
      → m.alias ≢ alias
  HasNone-origin alias [] i h e = cc
  HasNone-origin alias (r ∷ rs) zero h e =
      subst (λ y. y.alias ≢ alias) (some-injective (origin r) _ e) h.0
  HasNone-origin alias (r ∷ rs) (suc i) h e = HasNone-origin alias rs i h.1 e

  lookup_origin :
      (configs : List (MotorConfig F)) (r : MotorRegistry F)
      → AllDistinct configs
      → map origin r.motors ≡ configs
      → (i : ℕ) (m : MotorConfig F) → get_elem? configs i ≡ some m
      → (found : RuntimeMotor F) × (motor_by_alias m.alias r ≡ ok found) × (origin found ≡ m)
  lookup_origin configs r d o i m e = elim (motor_by_alias_cases m.alias r) [
    | inl lost ↦ absurd (HasNone-origin m.alias r.motors i {m = m} lost.1 (rw o e) refl)
    | inr (j, found, h, f) ↦ (
      found,
      h,
      AllDistinct-same configs j i d (rw (← o) (get_elem?-map origin r.motors j f.0)) e f.1,
    )
  ]

-- What `loadConfig` returns, `MotorRegistry::fromConfig` takes: there is a registry of its motors, and
-- a lookup by the alias of any of them finds the motor made from that very entry.
pub load_config_registers :
    {E F : Type 0} (xml : Xml E F) (document : Option E) {c : Config F}
    → load_config xml document ≡ ok c
    → (r : MotorRegistry F) × (from_config c.total_motor_count c.motors ≡ ok r)
      × IsRegistry c.total_motor_count c.motors r
      × ((i : ℕ) (m : MotorConfig F)
          → get_elem? c.motors i ≡ some m
          → (found : RuntimeMotor F) × (motor_by_alias m.alias r ≡ ok found) × (origin found ≡ m))
load_config_registers xml document {c} h =
    let (root, from) = load_config-IsLoaded xml document h in
    let loaded = from.loaded in
    let (r, e, x) =
      from_config-IsRegistry c.total_motor_count c.motors
        (placed-AllInRange _ from.parameters c.motors loaded.placed) in
    (r, e, x, lookup_origin c.motors r loaded.distinct x.origins)
