-- ===== src/Driver/Actuals.antt =====
-- What `getActuals` returns.
use mathlib.Core.Option.{some-injective}
use heimasdk_snapshot_migrat.Prelude.{
  ℕ, ◌+◌, ◌≤◌, ◌≡◌, refl, sym, ◌∙◌, subst, ◌↔◌, Bool, true, false, not, ◌||◌, List, [], ◌∷◌, map,
  some, Result, ok, if◌then◌else◌, arith, length, get_elem?, set, length-set, length-map,
}
use heimasdk_snapshot_migrat.Prelude.Int.{ℤ, pos, neg_ℤ}
use heimasdk_snapshot_migrat.Motor.{Float}
use heimasdk_snapshot_migrat.Registry.{RuntimeMotor, BackendGroup, MotorRegistry}
use heimasdk_snapshot_migrat.Ethercat.Frames.{ActualFrame}
use heimasdk_snapshot_migrat.Driver.{
  BackendRuntime, Driver, DriverError, PublicActual, accepts, is_ethercat, copy_public_actual,
  to_public_actual, default_public_actual,
}
use heimasdk_snapshot_migrat.Driver.Reading.{get_motors, get_runtimes, get_actuals}

module _ {F : Type 0} where
  -- The motors of a backend exist; and those that are fresh in its frame.
  abbrev pub Found : List (RuntimeMotor F) → List ℕ → Type 0
  Found motors [] = Unit
  Found motors (i ∷ indexes) =
      ((m : RuntimeMotor F) × (get_elem? motors i ≡ some m)) × Found motors indexes

  abbrev pub IsFresh : ActualFrame F → RuntimeMotor F → Type 0
  IsFresh frame m = (frame.valid m.global_index ≡ true) × (frame.stale m.global_index ≡ false)

  abbrev pub AllFresh : List (RuntimeMotor F) → ActualFrame F → List ℕ → Type 0
  AllFresh motors frame [] = Unit
  AllFresh motors frame (i ∷ indexes) =
      ((m : RuntimeMotor F) → get_elem? motors i ≡ some m → IsFresh frame m)
      × AllFresh motors frame indexes

  abbrev pub RuntimesFound : MotorRegistry F → List (BackendRuntime F) → Type 0
  RuntimesFound registry [] = Unit
  RuntimesFound registry (r ∷ rs) =
      ((g : BackendGroup) × (get_elem? registry.backends r.backend_index ≡ some g)
        × Found registry.motors g.motor_indexes)
      × RuntimesFound registry rs

  abbrev pub RuntimesFresh : MotorRegistry F → List (BackendRuntime F) → Type 0
  RuntimesFresh registry [] = Unit
  RuntimesFresh registry (r ∷ rs) =
      ((g : BackendGroup)
        → get_elem? registry.backends r.backend_index ≡ some g
        → AllFresh registry.motors r.actual_buffer g.motor_indexes)
      × RuntimesFresh registry rs

  -- A count that has not grown says that all were fresh.
  abbrev Counts :
      Type 0 → List (PublicActual F) × ℕ → Result DriverError (List (PublicActual F) × ℕ) → Type 0
  Counts fresh out r =
      (after : List (PublicActual F) × ℕ) × (r ≡ ok after)
      × (length after.0 ≡ length out.0)
      × (out.1 ≤ after.1)
      × ((after.1 ≡ out.1) ↔ fresh)

neg_zero : (n : ℕ) → (neg_ℤ (pos n) ≡ pos 0) ↔ (n ≡ 0)
neg_zero n = ground arith

-- One more flag before a count.
count_step :
    (flag : Bool) (n after : ℕ) {Rest Here : Type 0}
    → ((flag ≡ false) ↔ Here)
    → (if flag then n + 1 else n) ≤ after
    → ((after ≡ (if flag then n + 1 else n)) ↔ Rest)
    → (n ≤ after) × ((after ≡ n) ↔ (Here × Rest))
count_step true n after (to, from) l (f, g) =
    (omega arith, (λ e. absurd (omega arith), λ h. let t = from h.0 in cc))
count_step false n after (to, from) l (f, g) = (l, (λ e. (to refl, f e), λ h. g h.1))

here-IsFresh :
    {F : Type 0} (motors : List (RuntimeMotor F)) (frame : ActualFrame F) (i : ℕ)
    (m : RuntimeMotor F)
    → get_elem? motors i ≡ some m
    → ((not (frame.valid m.global_index) || frame.stale m.global_index) ≡ false)
      ↔ ((n : RuntimeMotor F) → get_elem? motors i ≡ some n → IsFresh frame n)
here-IsFresh motors frame i m e = (
  λ q n d. subst (IsFresh frame) (some-injective _ _ (sym e ∙ d)) (ground arith),
  λ h. let (v, s) = h m e in ground arith,
)

module _ {F : Type 0} ⦃fl : Float F⦄ where
  get_motors-Counts :
      (motors : List (RuntimeMotor F)) (frame : ActualFrame F) (indexes : List ℕ)
      (out : List (PublicActual F) × ℕ)
      → Found motors indexes
      → Counts (AllFresh motors frame indexes) out (get_motors motors frame indexes out)
  unfolding get_motors
  get_motors-Counts motors frame [] out f = (out, refl, refl, omega arith, (λ e. tt, λ t. refl))
  get_motors-Counts motors frame (i ∷ indexes) (list, n) ((m, e), f) =
      let flag = not (frame.valid m.global_index) || frame.stale m.global_index in
      let shown =
        if is_ethercat m.bus
        then copy_public_actual (frame.actuals m.global_index)
        else to_public_actual (frame.actuals m.global_index) m.parameters in
      let (after, r, l, le, c) =
        get_motors-Counts motors frame indexes
          (set list m.global_index shown, if flag then n + 1 else n) f in
      let (le2, c2) = count_step flag n after.1 (here-IsFresh motors frame i m e) le c in
      (after, rw (e, get_motors) r, l ∙ length-set list m.global_index shown, le2, c2)

  get_runtimes-Counts :
      (registry : MotorRegistry F) (rs : List (BackendRuntime F)) (out : List (PublicActual F) × ℕ)
      → RuntimesFound registry rs
      → Counts (RuntimesFresh registry rs) out (get_runtimes registry rs out)
  unfolding get_runtimes
  get_runtimes-Counts registry [] out f = (out, refl, refl, omega arith, (λ e. tt, λ t. refl))
  get_runtimes-Counts registry (r ∷ rs) out ((g, e, fm), f) =
      let (mid, r1, l1, le1, c1) =
        get_motors-Counts registry.motors r.actual_buffer g.motor_indexes out fm in
      let (after, r2, l2, le2, c2) = get_runtimes-Counts registry rs mid f in
      (
        after,
        rw (e, r1, get_runtimes) r2,
        l2 ∙ l1,
        omega (arith, le1, le2),
        (
          λ q. (
            λ g' e'.
                subst
                  (λ (x : BackendGroup). AllFresh registry.motors r.actual_buffer x.motor_indexes)
                  (some-injective _ _ (sym e ∙ e')) (c1.0 (omega (arith, le1, le2, q))),
            c2.0 (omega (arith, le1, le2, q)),
          ),
          λ h. c2.1 h.1 ∙ c1.1 (h.0 g e),
        ),
      )

  -- On an initialized driver whose backends and motors are in the registry, a call with a vector of
  -- the right size returns a vector of that size, and it returns 0 exactly if every motor of every
  -- backend is valid and not stale in its backend's last frame.
  pub get_actuals-fresh :
      (actuals : List (PublicActual F)) (d : Driver F)
      → accepts d (length actuals) ≡ true
      → RuntimesFound d.registry d.runtimes
      → (code : ℤ) × (out : List (PublicActual F)) × (get_actuals actuals d ≡ ok (code, out))
        × (length out ≡ length actuals)
        × ((code ≡ pos 0) ↔ RuntimesFresh d.registry d.runtimes)
  unfolding get_actuals
  get_actuals-fresh actuals d a f =
      let (after, r, l, le, c) =
        get_runtimes-Counts d.registry d.runtimes (map (λ _. default_public_actual) actuals, 0) f in
      let (z0, z1) = neg_zero after.1 in
      (
        neg_ℤ (pos after.1),
        after.0,
        rw (a, r) refl,
        l ∙ length-map actuals _,
        (λ q. c.0 (z0 q), λ h. z1 (c.1 h)),
      )
