-- ===== src/Driver/Starting/Started.antt =====
-- How an `init` ends.
use heimasdk_snapshot_migrat.Prelude.{
  ◌≡◌, ◌≢◌, refl, sym, ◌∙◌, ap, inl, inr, true, false, [], Option, none, some, ok, Bool-cases,
  Result-cases, length,
}
use heimasdk_snapshot_migrat.Motor.{Float}
use heimasdk_snapshot_migrat.Driver.Starting.Indexed.{
  new_runtimes-inside, new_runtimes-IsOutside, length-new_runtimes,
}
use heimasdk_snapshot_migrat.Config.{Config, Xml}
use heimasdk_snapshot_migrat.Config.Loading.{load_config}
use heimasdk_snapshot_migrat.Config.Loading.Registered.{load_config_registers}
use heimasdk_snapshot_migrat.Driver.Starting.{
  start_backend_runtimes, index_out_of_range, backend_failed, imu_failed, not_loaded, InitError,
  motors_rejected, Session, Starts, stop, settle, start_backends, new_runtimes, start_all,
  start_imu, go_on, init,
}
use heimasdk_snapshot_migrat.Driver.Starting.Settled.{
  places, start_backends-all, IsUp, IsLeft, IsDown, IsSettled, stop-IsDown, settle_cases,
  settle_error,
}

module _ {F : Type 0} ⦃fl : Float F⦄ where
  -- How an `init` ended: with everything that its document asks for running; with an error and nothing
  -- running; or with the exception of a motor outside the bitset.
  pub data HasEnded {E : Type 0} (xml : Xml E F) (document : Option E)
      (r : Session F × Option InitError) : Type 0 where
    up :
        (config : Config F)
        → r.1 ≡ none
        → load_config xml document ≡ ok config
        → IsUp config r.0
        → HasEnded xml document r
    down :
        (e : InitError)
        → r.1 ≡ some e
        → e ≢ motors_rejected
        → e ≢ index_out_of_range
        → IsDown r.0
        → HasEnded xml document r
    left :
        (config : Config F)
        → r.1 ≡ some index_out_of_range
        → load_config xml document ≡ ok config
        → IsLeft config r.0
        → HasEnded xml document r

  module _ {E : Type 0} (xml : Xml E F) (document : Option E) where
    stop-HasEnded :
        (e : InitError) (s : Session F)
        → e ≢ motors_rejected
        → e ≢ index_out_of_range
        → HasEnded xml document (stop s, some e)
    stop-HasEnded e s m o = down e refl m o (stop-IsDown s)

    start_all-HasEnded :
        (config : Config F) (starts : Starts) (s : Session F)
        → load_config xml document ≡ ok config
        → IsSettled config s
        → s.driver.initialized ≡ false
        → s.running ≡ []
        → s.imu_running ≡ config.imu.enabled
        → HasEnded xml document (start_all starts s)
    unfolding start_all start_backend_runtimes
    start_all-HasEnded config starts s l h f n i =
        let d = s.driver in
        let groups = d.registry.backends in
        let made = new_runtimes d.total_motor_count d.registry 0 groups in
        elim (Bool-cases made.1) [
          | inr t ↦
              rw (t, start_all)
                (left config refl l (record {
                  not_initialized = f;
                  no_backend = n;
                  imu = i;
                  registry = h.registry;
                  outside = new_runtimes-IsOutside d.total_motor_count d.registry 0 groups t;
                }))
          | inl t ↦
              let counted = length-new_runtimes d.total_motor_count d.registry 0 groups t in
              elim (Bool-cases (start_backends starts.backend (length made.0) 0).1) [
                | inl e ↦
                    rw (t, start_all, e, start_backend_runtimes)
                      (up config refl l (record {
                        initialized = refl;
                        total = h.total;
                        registry = h.registry;
                        modes = h.modes;
                        currents = h.currents;
                        runtimes = counted;
                        running =
                            start_backends-all starts.backend (length made.0) 0 e
                            ∙ ap (λ n. places n 0) counted;
                        imu = i;
                        inside = λ m r e.
                            let placed = h.registry.consistent.placed m r e in
                            new_runtimes-inside d.total_motor_count d.registry 0 groups
                              r.backend_index placed.group r.backend_local_index m r t
                              placed.at_backend placed.at_local e;
                      }))
                | inr e ↦
                    rw (t, start_all, e, start_backend_runtimes)
                      (stop-HasEnded backend_failed s (λ q. cc) (λ q. cc))
              ]
        ]

    start_imu-HasEnded :
        (config : Config F) (starts : Starts) (s : Session F)
        → load_config xml document ≡ ok config
        → IsSettled config s
        → IsDown s
        → HasEnded xml document (start_imu config.imu.enabled starts s)
    unfolding start_imu
    start_imu-HasEnded config starts s l h d = elim (Bool-cases config.imu.enabled) [
      | inl e ↦ elim (Bool-cases starts.imu) [
        | inl b ↦
            rw (e, b, start_imu)
              (start_all-HasEnded config starts (record s { imu_running = true }) l
                (record {
                  total = h.total;
                  registry = h.registry;
                  modes = h.modes;
                  currents = h.currents;
                })
                d.not_initialized d.no_backend (sym e))
        | inr b ↦ rw (e, b, start_imu) (stop-HasEnded imu_failed s (λ q. cc) (λ q. cc))
      ]
      | inr e ↦
          rw (e, start_imu)
            (start_all-HasEnded config starts s l h d.not_initialized d.no_backend
              (d.no_imu ∙ sym e))
    ]

    go_on-HasEnded :
        (config : Config F) (starts : Starts) (r : Session F × Option InitError)
        → load_config xml document ≡ ok config
        → IsDown r.0
        → (r.1 ≡ none → IsSettled config r.0)
        → ((e : InitError) → r.1 ≡ some e → (e ≢ motors_rejected) × (e ≢ index_out_of_range))
        → HasEnded xml document (go_on config.imu.enabled starts r)
    go_on-HasEnded config starts (s, none) l d h k = start_imu-HasEnded config starts s l (h refl) d
    go_on-HasEnded config starts (s, some e) l d h k = down e refl (k e refl).0 (k e refl).1 d

    -- Whatever ran before, `init` ends in one of three ways. The document's configuration with its
    -- registry, a mode and a current for each motor, and all backends and a configured IMU running; then
    -- every motor's index is below 64. Or an exception, with nothing running and nothing initialized. Or
    -- the `std::out_of_range` of a motor whose index is 64 or more, with no backend running and nothing
    -- initialized, but a configured IMU left running. The registry never rejects the motors.
    pub init-HasEnded :
        (starts : Starts) (s : Session F) → HasEnded xml document (init xml document starts s)
    unfolding init
    init-HasEnded starts s = elim (Result-cases (load_config xml document)) [
      | inr (e, l) ↦ rw (l, init) (stop-HasEnded not_loaded s (λ q. cc) (λ q. cc))
      | inl (config, l) ↦
          let (registry, f, r, _) = load_config_registers xml document l in
          let (d, k) = settle_cases config registry (stop s) r (stop-IsDown s) in
          rw (l, f, init)
            (go_on-HasEnded config starts (settle config registry (stop s)) l d k
              (settle_error config registry (stop s)))
    ]
