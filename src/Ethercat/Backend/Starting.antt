-- ===== src/Ethercat/Backend/Starting.antt =====
-- `start`, `stop` and `failStart`. What the calls of the system and of the master library return is
-- the argument `Surroundings`; the effects that a stop undoes are a trace of events.
pub mod Running
pub mod Released
pub mod SettingUp
pub mod Started
use heimasdk_snapshot_migrat.Prelude.{
  ℕ, zero, suc, ◌+◌, Bool, true, false, not, ◌&&◌, ◌||◌, List, [], ◌∷◌, ◌++◌, Option, none, some,
  Result, ok, err, ◌>>=◌, if◌then◌else◌, ltb, get_elem?,
}
use heimasdk_snapshot_migrat.Prelude.Int.{ℤ, pos, negsuc, ltb_ℤ, leb_ℤ, ◌==ℤ◌, wrap}
use heimasdk_snapshot_migrat.Motor.Limits.{error_code_backend_fault}
use heimasdk_snapshot_migrat.Registry.{MotorRegistry}
use heimasdk_snapshot_migrat.Status.{set_running, set_fault}
use heimasdk_snapshot_migrat.Config.{Config}
use heimasdk_snapshot_migrat.Ethercat.Frames.{ActualFrame}
use heimasdk_snapshot_migrat.Ethercat.Bindings.{PdoBinding, build_bindings, assign_profiles}
use heimasdk_snapshot_migrat.Ethercat.Backend.{DomainRuntime, EthercatRuntime}
use heimasdk_snapshot_migrat.Ethercat.Backend.Clock.{
  ethercat_dc_enabled, startup_ready_timeout, startup_ready_frames,
}
use heimasdk_snapshot_migrat.Ethercat.Backend.Ready.{wait_for_startup_ready}
use heimasdk_snapshot_migrat.Ethercat.Backend.States.{
  Event, thread_started, thread_joined, master_released, device_closed, lock_released,
  request_range, request_until, request_range_best_effort, init_state, preop_state, safeop_state,
  op_state,
}
use heimasdk_snapshot_migrat.Ethercat.Backend.Configure.{
  MasterCalls, ConfigureError, refused, no_position, still_requesting, configure_pdos, slave_of,
}
use heimasdk_snapshot_migrat.Ethercat.Backend.Domains.{group_bindings}

-- `lock_primary` and `lock_fallback`: whether the lock file is taken, and the error if not.
-- `startup_frames`: the frames that the wait reads before its deadline.
pub record Surroundings (F : Type 0) : Type 0 where
  pub lock_primary : Bool
  pub lock_error : ℤ
  pub lock_fallback : Bool
  pub master_requested : Bool
  pub device : ℤ
  pub slave_count : Option ℕ
  pub slave_count_later : Option ℕ
  pub create_domain : ℕ → Bool
  pub calls : MasterCalls
  pub activated : Bool
  pub domain_data : ℕ → Option (List ℕ)
  pub domain_size : ℕ → ℕ
  pub startup_frames : List (ActualFrame F)
  pub disable_dc : Option ℤ
  pub force_remap : Bool
  pub ready_timeout : Option ℤ
  pub ready_frames : Option ℤ
  pub fuel : ℕ

-- `EACCES`, `ENOENT` and `EROFS`.
abbrev pub should_try_tmp_lock : ℤ → Bool
should_try_tmp_lock e = e ==ℤ pos 13 || e ==ℤ pos 2 || e ==ℤ pos 30

module _ {F : Type 0} where
  unfoldable pub acquire_lock : Surroundings F → Bool
  acquire_lock s = s.lock_primary || (should_try_tmp_lock s.lock_error && s.lock_fallback)

  -- The resources that both `failStart` and `stop` give back.
  pub release : EthercatRuntime F → EthercatRuntime F × List Event
  release rt = (
    record rt { master = false; master_fd = negsuc 0; master_lock = false; domains = [] },
    (if rt.master then master_released ∷ [] else [])
        ++ (if leb_ℤ (pos 0) rt.master_fd then device_closed ∷ [] else [])
        ++ lock_released ∷ [],
  )

  pub fail_start : EthercatRuntime F → EthercatRuntime F × List Event
  unfolding release
  fail_start rt = release (record rt {
    status = set_fault (pos error_code_backend_fault) (set_running false rt.status);
  })

  -- `requestSlaveRangeStateBestEffort` where the device is open and slaves are known.
  abbrev pub range_best_effort : MasterCalls → EthercatRuntime F → ℕ → List Event
  range_best_effort calls rt state =
      if leb_ℤ (pos 0) rt.master_fd && ltb 0 rt.slave_count
      then request_range_best_effort calls.accepts rt.slave_count 0 state
      else []

  -- The waits for the states to clear between the requests change nothing.
  unfoldable pub stop : MasterCalls → EthercatRuntime F → EthercatRuntime F × List Event
  unfolding release
  stop calls rt =
      let (released, events) = release (record rt { stop = true; running = false }) in
      (
        record released { status = set_running false rt.status },
        (if rt.running
              then range_best_effort calls rt safeop_state
                ++ range_best_effort calls rt preop_state
                ++ thread_joined ∷ []
              else range_best_effort calls rt init_state ++ range_best_effort calls rt preop_state)
            ++ events,
      )

-- How a start ends early: an exception, a loop of requests that still runs, or a call of `failStart`
-- with the runtime so far and the trace up to there.
pub data StartFailure (F : Type 0) : Type 0 where
  threw still_asking : StartFailure F
  failed : EthercatRuntime F → List Event → StartFailure F

abbrev pub Stage : Type 0 → Type 0
Stage F = Result (StartFailure F) (EthercatRuntime F)

module _ {F : Type 0} where
  abbrev pub require : Bool → EthercatRuntime F → Stage F
  require true rt = ok rt
  require false rt = err (failed rt [])

  abbrev pub of_option : {A : Type 0} → EthercatRuntime F → Option A → Result (StartFailure F) A
  of_option rt none = err (failed rt [])
  of_option rt (some a) = ok a

  abbrev pub of_configure :
      {A : Type 0} → EthercatRuntime F → Result ConfigureError A → Result (StartFailure F) A
  of_configure rt (ok a) = ok a
  of_configure rt (err refused) = err (failed rt [])
  of_configure rt (err no_position) = err threw
  of_configure rt (err still_requesting) = err still_asking

  -- Up to the number of slaves.
  unfoldable pub acquire : Config F → MotorRegistry F → Surroundings F → EthercatRuntime F → Stage F
  unfolding acquire_lock
  acquire config registry s rt = elim (get_elem? registry.backends rt.backend_index) [
    | none ↦ err threw
    | some backend ↦
        require (acquire_lock s) (record rt {
          master_order = backend.master;
          dc_enabled = ethercat_dc_enabled s.disable_dc config;
          dc_reference_selected = false;
        })
        >>= λ rt. require s.master_requested (record rt { master_lock = true }) >>= λ rt.
            require (leb_ℤ (pos 0) s.device) (record rt { master = true; master_fd = s.device })
            >>= λ rt. ok (record rt {
              slave_count = elim s.slave_count [ none ↦ rt.slave_count | some n ↦ n ];
            })
  ]

  -- The bindings of a domain, set up in order.
  unfoldable pub configure_bindings :
      Surroundings F
      → EthercatRuntime F
      → ℕ
      → Bool
      → List (PdoBinding F)
      → Result ConfigureError (Bool × List (PdoBinding F))
  configure_bindings s rt domain selected [] = ok (selected, [])
  configure_bindings s rt domain selected (binding ∷ rest) =
      configure_pdos s.calls s.fuel s.force_remap rt.master_fd rt.dc_enabled domain selected binding
      >>= λ one. configure_bindings s rt domain one.0 rest >>= λ more. ok (more.0, one.1 ∷ more.1)

  unfoldable pub configure_domains :
      Surroundings F
      → EthercatRuntime F
      → ℕ
      → Bool
      → List (DomainRuntime F)
      → Result ConfigureError (Bool × List (DomainRuntime F))
  configure_domains s rt i selected [] = ok (selected, [])
  configure_domains s rt i selected (d ∷ ds) =
      configure_bindings s rt i selected d.bindings >>= λ one.
      configure_domains s rt (suc i) one.0 ds >>= λ more.
      ok (more.0, record d { bindings = one.1 } ∷ more.1)

  -- The memory of each domain after the activation; a null pointer fails.
  unfoldable pub map_domains :
      Surroundings F → ℕ → List (DomainRuntime F) → Option (List (DomainRuntime F))
  map_domains s i [] = some []
  map_domains s i (d ∷ ds) =
      let rest = map_domains s (suc i) ds in
      elim (s.domain_data i) [
        | none ↦ none
        | some bytes ↦ elim rest [
          | none ↦ none
          | some more ↦ some (record d { memory = some bytes; size = s.domain_size i } ∷ more)
        ]
      ]

  -- A start finds no domains: the constructor has none, and a stop clears them.
  unfoldable pub set_up :
      Config F → Surroundings F → List (PdoBinding F) → EthercatRuntime F → Stage F
  unfolding configure_domains map_domains
  set_up config s bindings rt =
      of_option rt (group_bindings config s.create_domain bindings []) >>= λ domains.
      of_configure rt (configure_domains s rt 0 rt.dc_reference_selected domains) >>= λ set.
      require s.activated (record rt { dc_reference_selected = set.0 }) >>= λ rt.
      of_option rt (map_domains s 0 set.1) >>= λ mapped. ok (record rt { domains = mapped })
