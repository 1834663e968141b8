-- ===== src/Driver/Encoders.antt =====
-- `getEncoderCount` against `getMotorActual`.
use heimasdk_snapshot_migrat.Prelude.{
  ℕ, ◌≡◌, List, [], ◌∷◌, Result, ok, err, ◌>>=◌, length, get_elem?, Option-cases, Bool-cases, inl,
  inr,
}
use heimasdk_snapshot_migrat.Prelude.Int.{ℤ, pos, neg_ℤ}
use heimasdk_snapshot_migrat.Motor.{Float}
use heimasdk_snapshot_migrat.Registry.{RuntimeMotor, MotorRegistry}
use heimasdk_snapshot_migrat.Ethercat.Frames.{ActualFrame}
use heimasdk_snapshot_migrat.Driver.{BackendRuntime, Driver, DriverError, PublicActual, accepts}
use heimasdk_snapshot_migrat.Driver.Reading.{
  get_motors, get_runtimes, get_actuals, get_counts, get_runtime_counts, get_encoder_counts,
}

-- Both calls throw the same, or both return, with the same first or second parts.
data SameCount {A B : Type 0}
    : Result DriverError (A × ℕ) → Result DriverError (B × ℕ) → Type 0 where
  both_ok : {a : A} {b : B} (n : ℕ) → SameCount (ok (a, n)) (ok (b, n))
  both_err : (e : DriverError) → SameCount (err e) (err e)

pub data SameCode {A B : Type 0}
    : Result DriverError (ℤ × A) → Result DriverError (ℤ × B) → Type 0 where
  codes_agree : {a : A} {b : B} (code : ℤ) → SameCode (ok (code, a)) (ok (code, b))
  errors_agree : (e : DriverError) → SameCode (err e) (err e)

bind-SameCount :
    {A B : Type 0} {a : Result DriverError (A × ℕ)} {b : Result DriverError (B × ℕ)}
    (f : A × ℕ → Result DriverError (A × ℕ)) (g : B × ℕ → Result DriverError (B × ℕ))
    → SameCount a b
    → ((x : A) (y : B) (n : ℕ) → SameCount (f (x, n)) (g (y, n)))
    → SameCount (a >>= f) (b >>= g)
bind-SameCount f g (both_ok n) h = h _ _ n
bind-SameCount f g (both_err e) h = both_err e

module _ {F : Type 0} ⦃fl : Float F⦄ where
  motors-SameCount :
      (motors : List (RuntimeMotor F)) (frame : ActualFrame F) (indexes : List ℕ)
      (out : List (PublicActual F)) (counts : List ℤ) (n : ℕ)
      → SameCount
          (get_motors motors frame indexes (out, n))
          (get_counts motors frame indexes (counts, n))
  unfolding get_motors
  motors-SameCount motors frame [] out counts n = both_ok n
  motors-SameCount motors frame (i ∷ indexes) out counts n =
      elim (Option-cases (get_elem? motors i)) [
        | inl e ↦ rw (e, get_motors, get_counts) (both_err _)
        | inr (m, e) ↦ rw (e, get_motors, get_counts) (motors-SameCount motors frame indexes _ _ _)
      ]

  runtimes-SameCount :
      (registry : MotorRegistry F) (rs : List (BackendRuntime F)) (out : List (PublicActual F))
      (counts : List ℤ) (n : ℕ)
      → SameCount (get_runtimes registry rs (out, n)) (get_runtime_counts registry rs (counts, n))
  unfolding get_runtimes
  runtimes-SameCount registry [] out counts n = both_ok n
  runtimes-SameCount registry (r ∷ rs) out counts n =
      elim (Option-cases (get_elem? registry.backends r.backend_index)) [
        | inl e ↦ rw (e, get_runtimes, get_runtime_counts) (both_err _)
        | inr (g, e) ↦
            rw (e, get_runtimes, get_runtime_counts)
              (bind-SameCount (get_runtimes registry rs) (get_runtime_counts registry rs)
                (motors-SameCount registry.motors r.actual_buffer g.motor_indexes out counts n)
                (λ a b m. runtimes-SameCount registry rs a b m))
      ]

  finish-SameCode :
      {a : Result DriverError (List (PublicActual F) × ℕ)} {b : Result DriverError (List ℤ × ℕ)}
      → SameCount a b
      → SameCode
          (a >>= λ out. ok (neg_ℤ (pos out.1), out.0))
          (b >>= λ out. ok (neg_ℤ (pos out.1), out.0))
  finish-SameCode (both_ok n) = codes_agree _
  finish-SameCode (both_err e) = errors_agree e

  -- For vectors of one size, the encoder counts and the actuals are returned with the same code, the
  -- number of stale motors included, or both calls throw the same.
  pub get_encoder_counts-SameCode :
      (actuals : List (PublicActual F)) (counts : List ℤ) (d : Driver F)
      → length actuals ≡ length counts
      → SameCode (get_actuals actuals d) (get_encoder_counts counts d)
  unfolding get_actuals get_encoder_counts
  get_encoder_counts-SameCode actuals counts d l = elim (Bool-cases (accepts d (length counts))) [
    | inl e ↦ rw (l, e) (finish-SameCode (runtimes-SameCount d.registry d.runtimes _ _ 0))
    | inr e ↦ rw (l, e) (codes_agree _)
  ]
