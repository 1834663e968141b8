-- ===== src/Driver/Starting/Twice.antt =====
-- A second `init`, with a document of another number of motors.
use heimasdk_snapshot_migrat.Prelude.{
  ◌<◌, ◌≡◌, ◌≢◌, refl, sym, ◌∙◌, ap, inl, inr, Bool, List, [], ◌∷◌, Option, none, some, ok, arith,
  Bool-cases, ◌==◌, ==_iff, length, ok-injective,
}
use heimasdk_snapshot_migrat.Prelude.Int.{ℤ, pos, pos_part}
use heimasdk_snapshot_migrat.Motor.{Float}
use heimasdk_snapshot_migrat.Registry.{MotorRegistry, from_config}
use heimasdk_snapshot_migrat.Config.{Config, Xml}
use heimasdk_snapshot_migrat.Config.Loading.{load_config}
use heimasdk_snapshot_migrat.Config.Loading.Registered.{load_config_registers}
use heimasdk_snapshot_migrat.Driver.Starting.{
  InitError, modes_mismatch, Session, Starts, stop, ensure_size, settle, go_on, init,
}
use heimasdk_snapshot_migrat.Driver.Starting.Started.{HasEnded, init-HasEnded}

ensure_size-none {ℓ} :
    {A : Type ℓ} (default : A) (total : ℤ) (xs : List A)
    → 0 < length xs
    → length xs ≢ pos_part total
    → ensure_size default total xs ≡ none
unfolding ensure_size
ensure_size-none default total [] p h = absurd (omega arith)
ensure_size-none default total (x ∷ xs) p h =
    elim (Bool-cases (length (x ∷ xs) == pos_part total)) [
      | inl e ↦ absurd (h ((==_iff (length (x ∷ xs)) (pos_part total)).0 e))
      | inr e ↦ rw e refl
    ]

module _ {E F : Type 0} ⦃fl : Float F⦄ (xml : Xml E F) where
  settle_refused :
      (s : Session F) (registry : MotorRegistry F) (c : Config F)
      → ensure_size (pos 8) c.total_motor_count s.driver.operating_modes ≡ none
      → (settle c registry s).1 ≡ some modes_mismatch
  unfolding settle
  settle_refused s registry c n = rw (n, settle) refl

  go_on_stops :
      (enabled : Bool) (starts : Starts) (r : Session F × Option InitError) {e : InitError}
      → r.1 ≡ some e
      → (go_on enabled starts r).1 ≡ some e
  go_on_stops enabled starts (s, some e) h = h
  go_on_stops enabled starts (s, none) h = cc

  init_refused :
      (document : Option E) (starts : Starts) (s : Session F) (registry : MotorRegistry F)
      {c : Config F}
      → load_config xml document ≡ ok c
      → from_config c.total_motor_count c.motors ≡ ok registry
      → ensure_size (pos 8) c.total_motor_count s.driver.operating_modes ≡ none
      → (init xml document starts s).1 ≡ some modes_mismatch
  unfolding init stop
  init_refused document starts s registry {c} l f n =
      rw (l, f, init)
        (go_on_stops c.imu.enabled starts (settle c registry (stop s))
          (settle_refused (stop s) registry c n))

module _ {E F : Type 0} ⦃fl : Float F⦄ (xml : Xml E F) where
  up_modes :
      {document : Option E} {r : Session F × Option InitError} {config : Config F}
      → HasEnded xml document r
      → r.1 ≡ none
      → load_config xml document ≡ ok config
      → length r.0.driver.operating_modes ≡ pos_part config.total_motor_count
  up_modes {document} (HasEnded.up c e l u) n k =
      u.modes ∙ ap (λ d. pos_part d.total_motor_count) (ok-injective (load_config xml document) l k)
  up_modes (HasEnded.down x e m o d) n k = cc
  up_modes (HasEnded.left c e l o) n k = cc

  -- After an `init` that succeeded with at least one motor, an `init` with a document of another number
  -- of motors throws that the configured modes do not match, whether or not modes were configured: the
  -- modes that the first one filled in count as configured.
  pub init_again_refuses :
      (first second : Option E) (starts starts' : Starts) (s : Session F) {c1 c2 : Config F}
      → load_config xml first ≡ ok c1
      → load_config xml second ≡ ok c2
      → (init xml first starts s).1 ≡ none
      → 0 < pos_part c1.total_motor_count
      → pos_part c1.total_motor_count ≢ pos_part c2.total_motor_count
      → (init xml second starts' (init xml first starts s).0).1 ≡ some modes_mismatch
  init_again_refuses first second starts starts' s {c1} {c2} l1 l2 done positive other =
      let after = (init xml first starts s).0 in
      let size = up_modes (init-HasEnded xml first starts s) done l1 in
      let (registry, f, _, _) = load_config_registers xml second l2 in
      init_refused xml second starts' after registry l2 f (
        ensure_size-none (pos 8) c2.total_motor_count after.driver.operating_modes
          (rw size positive) (λ e. other (sym size ∙ e)))
