-- ===== src/Driver/Starting/Settled.antt =====
-- What `init` leaves behind, and its settings: `ensureOperatingModes`, `ensureMaxCurrents`, `stop` and
-- the starts of the backends.
use mathlib.Core.Option.{some-injective}
use heimasdk_snapshot_migrat.Prelude.{
  ℕ, zero, suc, ◌≡◌, ◌≢◌, refl, sym, ◌∙◌, ap, inl, inr, Bool, true, false, List, [], ◌∷◌, none,
  some, arith, Bool-cases, Option-cases, ◌==◌, ==_iff, length, length-replicate, get_elem?, ◌<◌,
}
use heimasdk_snapshot_migrat.Prelude.Int.{ℤ, pos, pos_part}
use heimasdk_snapshot_migrat.Registry.{MotorRegistry, RuntimeMotor}
use heimasdk_snapshot_migrat.Ethercat.Frames.{max_realtime_motors}
use heimasdk_snapshot_migrat.Driver.Starting.Indexed.{IsOutside}
use heimasdk_snapshot_migrat.Registry.Building.{IsRegistry}
use heimasdk_snapshot_migrat.Config.{Config}
use heimasdk_snapshot_migrat.Driver.Starting.{
  index_out_of_range, InitError, motors_rejected, Session, stop, ensure_size, settle,
  start_backends,
}

-- The places from `i` on, `left` of them.
pub places : ℕ → ℕ → List ℕ
places zero i = []
places (suc left) i = i ∷ places left (suc i)

pub start_backends-all :
    (starts : ℕ → Bool) (left i : ℕ)
    → (start_backends starts left i).1 ≡ true
    → (start_backends starts left i).0 ≡ places left i
unfolding start_backends places
start_backends-all starts zero i h = refl
start_backends-all starts (suc left) i h = elim (Bool-cases (starts i)) [
  | inl e ↦ rw e (ap (λ l. i ∷ l) (start_backends-all starts left (suc i) (rw e at h)))
  | inr e ↦ cc (rw e at h)
]

ensure_size-length {ℓ} :
    {A : Type ℓ} (default : A) (total : ℤ) (xs : List A) {out : List A}
    → ensure_size default total xs ≡ some out
    → length out ≡ pos_part total
unfolding ensure_size
ensure_size-length default total [] e =
    ap length (sym (some-injective _ _ e)) ∙ length-replicate (pos_part total) default
ensure_size-length default total (x ∷ xs) e =
    elim (Bool-cases (length (x ∷ xs) == pos_part total)) [
      | inl h ↦
          ap length (sym (some-injective (x ∷ xs) _ (rw h at e)))
          ∙ (==_iff (length (x ∷ xs)) (pos_part total)).0 h
      | inr h ↦ cc (rw h at e)
    ]

module _ {F : Type 0} where
  -- Nothing runs.
  pub record IsDown (s : Session F) : Type 0 where
    pub not_initialized : s.driver.initialized ≡ false
    pub no_runtimes : s.driver.runtimes ≡ []
    pub no_backend : s.running ≡ []
    pub no_imu : s.imu_running ≡ false

  -- The registry of the loaded configuration, a mode and a current for every motor, and every backend
  -- and a configured IMU running; the index of every motor lies in the bitset of 64.
  pub record IsUp (config : Config F) (s : Session F) : Type 0 where
    pub initialized : s.driver.initialized ≡ true
    pub total : s.driver.total_motor_count ≡ config.total_motor_count
    pub registry : IsRegistry config.total_motor_count config.motors s.driver.registry
    pub modes : length s.driver.operating_modes ≡ pos_part config.total_motor_count
    pub currents : length s.driver.max_currents ≡ pos_part config.total_motor_count
    pub runtimes : length s.driver.runtimes ≡ length s.driver.registry.backends
    pub running : s.running ≡ places (length s.driver.registry.backends) 0
    pub imu : s.imu_running ≡ config.imu.enabled
    pub inside :
        (m : ℕ) (r : RuntimeMotor F)
        → get_elem? s.driver.registry.motors m ≡ some r
        → r.global_index < max_realtime_motors

  -- A motor's index lies outside the bitset: not initialized and no backend running, but the IMU of the
  -- configuration runs on.
  pub record IsLeft (config : Config F) (s : Session F) : Type 0 where
    pub not_initialized : s.driver.initialized ≡ false
    pub no_backend : s.running ≡ []
    pub imu : s.imu_running ≡ config.imu.enabled
    pub registry : IsRegistry config.total_motor_count config.motors s.driver.registry
    pub outside : IsOutside s.driver.registry.motors

  pub stop-IsDown : (s : Session F) → IsDown (stop s)
  unfolding stop
  stop-IsDown s = record {
    not_initialized = refl;
    no_runtimes = refl;
    no_backend = refl;
    no_imu = refl;
  }

  -- The settings of a driver are in place.
  pub record IsSettled (config : Config F) (s : Session F) : Type 0 where
    pub total : s.driver.total_motor_count ≡ config.total_motor_count
    pub registry : IsRegistry config.total_motor_count config.motors s.driver.registry
    pub modes : length s.driver.operating_modes ≡ pos_part config.total_motor_count
    pub currents : length s.driver.max_currents ≡ pos_part config.total_motor_count

  pub settle_cases :
      (config : Config F) (registry : MotorRegistry F) (s : Session F)
      → IsRegistry config.total_motor_count config.motors registry
      → IsDown s
      → IsDown (settle config registry s).0
        × ((settle config registry s).1 ≡ none → IsSettled config (settle config registry s).0)
  unfolding settle
  settle_cases config registry s r d =
      elim (Option-cases (ensure_size (pos 8) config.total_motor_count s.driver.operating_modes)) [
        | inl n ↦
            rw (n, settle)
              (
                record {
                  not_initialized = d.not_initialized;
                  no_runtimes = d.no_runtimes;
                  no_backend = d.no_backend;
                  no_imu = d.no_imu;
                },
                λ e. cc,
              )
        | inr (modes, m) ↦
            elim (Option-cases (ensure_size 1000 config.total_motor_count s.driver.max_currents)) [
              | inl n ↦
                  rw (m, n, settle)
                    (
                      record {
                        not_initialized = d.not_initialized;
                        no_runtimes = d.no_runtimes;
                        no_backend = d.no_backend;
                        no_imu = d.no_imu;
                      },
                      λ e. cc,
                    )
              | inr (currents, c) ↦
                  rw (m, c, settle)
                    (
                      record {
                        not_initialized = d.not_initialized;
                        no_runtimes = d.no_runtimes;
                        no_backend = d.no_backend;
                        no_imu = d.no_imu;
                      },
                      λ e. record {
                        total = refl;
                        registry = r;
                        modes =
                            ensure_size-length (pos 8) config.total_motor_count
                              s.driver.operating_modes m;
                        currents =
                            ensure_size-length 1000 config.total_motor_count s.driver.max_currents
                              c;
                      },
                    )
            ]
      ]

module _ {F : Type 0} where
  pub settle_error :
      (config : Config F) (registry : MotorRegistry F) (s : Session F) (e : InitError)
      → (settle config registry s).1 ≡ some e
      → (e ≢ motors_rejected) × (e ≢ index_out_of_range)
  unfolding settle
  settle_error config registry s e h = ground arith
