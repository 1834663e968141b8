-- ===== src/Ethercat/Backend/Starting/Running.antt =====
-- The last part of `start`, from the creation of the thread on. What the thread does meanwhile is
-- `realtime_loop`; `start` reads no result of it but the frames that it publishes.
use heimasdk_snapshot_migrat.Prelude.{
  ℕ, Bool, true, false, List, [], ◌∷◌, ◌++◌, Option, none, some, Result, ok, err, ◌>>=◌,
  if◌then◌else◌,
}
use heimasdk_snapshot_migrat.Prelude.Int.{ℤ, pos, negsuc, ltb_ℤ, wrap}
use heimasdk_snapshot_migrat.Registry.{MotorRegistry}
use heimasdk_snapshot_migrat.Status.{set_running}
use heimasdk_snapshot_migrat.Config.{Config}
use heimasdk_snapshot_migrat.Ethercat.Bindings.{
  PdoBinding, BindingError, build_bindings, assign_profiles,
}
use heimasdk_snapshot_migrat.Ethercat.Backend.{DomainRuntime, EthercatRuntime}
use heimasdk_snapshot_migrat.Ethercat.Backend.Clock.{startup_ready_timeout, startup_ready_frames}
use heimasdk_snapshot_migrat.Ethercat.Backend.Ready.{wait_for_startup_ready}
use heimasdk_snapshot_migrat.Ethercat.Backend.States.{
  Event, thread_started, thread_joined, request_range, request_until, preop_state, safeop_state,
  op_state,
}
use heimasdk_snapshot_migrat.Ethercat.Backend.Configure.{slave_of}
use heimasdk_snapshot_migrat.Ethercat.Backend.Starting.{
  Surroundings, StartFailure, threw, still_asking, failed, acquire, set_up, range_best_effort,
  fail_start,
}

module _ {F : Type 0} where
  -- The requests to the bound drives, for a master that does not say how many slaves there are.
  unfoldable pub request_bindings :
      Surroundings F → ℕ → List (PdoBinding F) → Result (StartFailure F) (List Event)
  request_bindings s state [] = ok []
  request_bindings s state (binding ∷ rest) = elim (slave_of binding) [
    | err e ↦ err threw
    | ok slave ↦ elim (request_until s.calls.accepts s.fuel (wrap 16 slave) state 0) [
      | none ↦ err still_asking
      | some events ↦ request_bindings s state rest >>= λ more. ok (events ++ more)
    ]
  ]

  unfoldable pub request_domains :
      Surroundings F → ℕ → List (DomainRuntime F) → Result (StartFailure F) (List Event)
  unfolding request_bindings
  request_domains s state [] = ok []
  request_domains s state (d ∷ ds) = request_bindings s state d.bindings >>= λ events.
      request_domains s state ds >>= λ more. ok (events ++ more)

  abbrev pub asked :
      EthercatRuntime F
      → Option (List Event)
      → Result (StartFailure F) (EthercatRuntime F × List Event)
  asked rt none = err still_asking
  asked rt (some events) = ok (rt, events)

  -- With a master: the slaves that it counts, or else those that are bound.
  unfoldable pub request_counted :
      Surroundings F
      → EthercatRuntime F
      → ℕ
      → Option ℕ
      → Result (StartFailure F) (EthercatRuntime F × List Event)
  unfolding request_domains
  request_counted s rt state (some n) =
      asked (record rt { slave_count = n }) (request_range s.calls.accepts s.fuel n 0 state)
  request_counted s rt state none = request_domains s state rt.domains >>= λ events. ok (rt, events)

  -- `requestAllSlavesState`.
  unfoldable pub request_all :
      Surroundings F
      → EthercatRuntime F
      → ℕ
      → Result (StartFailure F) (EthercatRuntime F × List Event)
  unfolding request_counted
  request_all s rt state =
      if ltb_ℤ rt.master_fd (pos 0)
      then ok (rt, [])
      else if rt.master
      then request_counted s rt state s.slave_count_later
      else asked rt (request_range s.calls.accepts s.fuel rt.slave_count 0 state)

  -- After the wait for the feedback: success, or the drives back to the pre-operational state and the
  -- thread stopped.
  abbrev pub judged :
      Surroundings F
      → Bool
      → EthercatRuntime F
      → List Event
      → Result (StartFailure F) (EthercatRuntime F × List Event)
  judged s true rt events = ok (rt, events)
  judged s false rt events = err (
      failed (record rt { stop = true; running = false })
        (events
          ++ range_best_effort s.calls rt safeop_state
          ++ range_best_effort s.calls rt preop_state
          ++ thread_joined ∷ []))

  abbrev pub with_thread : EthercatRuntime F → EthercatRuntime F
  with_thread rt = record rt { stop = false; running = true; status = set_running true rt.status }

  unfoldable pub run :
      Surroundings F
      → List (PdoBinding F)
      → EthercatRuntime F
      → Result (StartFailure F) (EthercatRuntime F × List Event)
  unfolding request_all
  run s bindings rt = request_all s (with_thread rt) op_state >>= λ asked.
      judged s
        (wait_for_startup_ready (startup_ready_timeout s.ready_timeout)
          (startup_ready_frames s.ready_frames) bindings s.startup_frames)
        asked.0 (thread_started ∷ asked.1)

  -- The runtime, the code that `start` returns, and the trace; `none` for an exception and for a
  -- request that still runs.
  abbrev pub finish :
      Result (StartFailure F) (EthercatRuntime F × List Event)
      → Option (EthercatRuntime F × ℤ × List Event)
  finish (ok (rt, events)) = some (rt, pos 0, events)
  finish (err threw) = none
  finish (err still_asking) = none
  finish (err (failed rt events)) =
      let (released, more) = fail_start rt in some (released, negsuc 0, events ++ more)

  -- The bindings with their profiles.
  unfoldable pub configured_bindings :
      MotorRegistry F → EthercatRuntime F → Result BindingError (List (PdoBinding F))
  configured_bindings registry rt = build_bindings registry rt.backend_index >>= λ bindings.
      assign_profiles bindings rt.operating_modes

  unfoldable pub start :
      Config F
      → MotorRegistry F
      → Surroundings F
      → EthercatRuntime F
      → Option (EthercatRuntime F × ℤ × List Event)
  unfolding run configured_bindings
  start config registry s rt = elim (configured_bindings registry rt) [
    | err e ↦ none
    | ok bindings ↦ finish (
        acquire config registry s rt >>= λ rt.
        set_up config s bindings rt >>= λ rt. run s bindings rt)
  ]
