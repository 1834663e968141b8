-- ===== src/Ethercat/Backend/Starting/Started.antt =====
-- How a start ends.
use mathlib.Core.Option.{some-injective}
use heimasdk_snapshot_migrat.Prelude.{
  ℕ, ◌≡◌, refl, subst, inl, inr, Bool, true, false, List, [], ◌∷◌, Option, none, some, Result, ok,
  err, Option-cases, Result-cases, if-elim,
}
use heimasdk_snapshot_migrat.Prelude.Int.{ℤ, pos, negsuc, leb_ℤ, ltb_ℤ, wrap}
use heimasdk_snapshot_migrat.Motor.Limits.{error_code_backend_fault}
use heimasdk_snapshot_migrat.Registry.{MotorRegistry}
use heimasdk_snapshot_migrat.Config.{Config}
use heimasdk_snapshot_migrat.Ethercat.Bindings.{PdoBinding}
use heimasdk_snapshot_migrat.Ethercat.Backend.{DomainRuntime, EthercatRuntime}
use heimasdk_snapshot_migrat.Ethercat.Backend.States.{
  Event, thread_started, request_until, request_range, preop_state, safeop_state, op_state,
}
use heimasdk_snapshot_migrat.Ethercat.Backend.States.Order.{
  Runs, idle, running, closed, done, starts, joins, Runs-append, AllRequests, no_more,
  AllRequests-append, requests_running, until-AllRequests, range-AllRequests,
}
use heimasdk_snapshot_migrat.Ethercat.Backend.Configure.{slave_of}
use heimasdk_snapshot_migrat.Ethercat.Backend.Starting.{
  Surroundings, StartFailure, threw, still_asking, failed,
}
use heimasdk_snapshot_migrat.Ethercat.Backend.Starting.Released.{
  IsReleased, fail_start-IsReleased, range_requests,
}
use heimasdk_snapshot_migrat.Ethercat.Backend.Starting.SettingUp.{
  Keeps, Keeps->>=, IsAcquired, acquire-Keeps, IsPrepared, AreReady, set_up-Keeps,
}
use heimasdk_snapshot_migrat.Ethercat.Backend.Starting.Running.{
  request_bindings, request_domains, request_counted, judged, with_thread, configured_bindings,
  asked, request_all, run, finish, start,
}

module _ {F : Type 0} where
  bindings_asked-Keeps :
      (s : Surroundings F) (state : ℕ) (bs : List (PdoBinding F))
      → Keeps AllRequests (request_bindings s state bs)
  unfolding request_bindings
  bindings_asked-Keeps s state [] = no_more
  bindings_asked-Keeps s state (b ∷ bs) = elim (Result-cases (slave_of b)) [
    | inr (e, r) ↦ rw (r, request_bindings) tt
    | inl (slave, r) ↦
        elim (Option-cases (request_until s.calls.accepts s.fuel (wrap 16 slave) state 0)) [
          | inl n ↦ rw (r, n, request_bindings) tt
          | inr (es, m) ↦
              rw (r, m, request_bindings)
                (Keeps->>= AllRequests AllRequests _ _ (bindings_asked-Keeps s state bs) (λ more a.
                  AllRequests-append
                    (until-AllRequests s.calls.accepts s.fuel (wrap 16 slave) state 0 m) a))
        ]
  ]

  domains_asked-Keeps :
      (s : Surroundings F) (state : ℕ) (ds : List (DomainRuntime F))
      → Keeps AllRequests (request_domains s state ds)
  unfolding request_domains
  domains_asked-Keeps s state [] = no_more
  domains_asked-Keeps s state (d ∷ ds) =
      Keeps->>= AllRequests AllRequests _ _ (bindings_asked-Keeps s state d.bindings) (λ es a.
        Keeps->>= AllRequests AllRequests _ _ (domains_asked-Keeps s state ds)
          (λ more b. AllRequests-append a b))

  -- The requests change no more of the runtime than its number of slaves.
  abbrev IsCounted : EthercatRuntime F → EthercatRuntime F × List Event → Type 0
  IsCounted rt r = ((n : ℕ) × (r.0 ≡ record rt { slave_count = n })) × AllRequests r.1

  asked-Keeps :
      (s : Surroundings F) (rt : EthercatRuntime F) (n state : ℕ)
      → Keeps
          (IsCounted rt)
          (asked (record rt { slave_count = n }) (request_range s.calls.accepts s.fuel n 0 state))
  asked-Keeps s rt n state = elim (Option-cases (request_range s.calls.accepts s.fuel n 0 state)) [
    | inl e ↦ rw e tt
    | inr (es, e) ↦ rw e ((n, refl), range-AllRequests s.calls.accepts s.fuel n 0 state e)
  ]

  IsCounted-Keeps :
      (s : Surroundings F) (rt : EthercatRuntime F) (state : ℕ) (o : Option ℕ)
      → Keeps (IsCounted rt) (request_counted s rt state o)
  unfolding request_counted
  IsCounted-Keeps s rt state (some n) = asked-Keeps s rt n state
  IsCounted-Keeps s rt state none =
      Keeps->>= AllRequests (IsCounted rt) _ _ (domains_asked-Keeps s state rt.domains)
        (λ es a. ((rt.slave_count, refl), a))

  request_all-Keeps :
      (s : Surroundings F) (rt : EthercatRuntime F) (state : ℕ)
      → Keeps (IsCounted rt) (request_all s rt state)
  unfolding request_all
  request_all-Keeps s rt state =
      if-elim (Keeps (IsCounted rt)) (ltb_ℤ rt.master_fd (pos 0)) ((rt.slave_count, refl), no_more)
        (if-elim (Keeps (IsCounted rt)) rt.master (IsCounted-Keeps s rt state s.slave_count_later)
          (asked-Keeps s rt rt.slave_count state))

  -- The thread runs, what was prepared is held, and the status says so.
  pub record IsStarted (bindings : List (PdoBinding F)) (rt : EthercatRuntime F) : Type 0 where
    pub thread : rt.running ≡ true
    pub not_stopped : rt.stop ≡ false
    pub reported : rt.status.running ≡ true
    pub has_lock : rt.master_lock ≡ true
    pub has_master : rt.master ≡ true
    pub has_device : leb_ℤ (pos 0) rt.master_fd ≡ true
    pub ready : AreReady bindings rt.domains

  abbrev IsRun : List (PdoBinding F) → EthercatRuntime F × List Event → Type 0
  IsRun bindings r = IsStarted bindings r.0 × Runs idle r.1 running

  started :
      (bindings : List (PdoBinding F)) (rt new : EthercatRuntime F) (n : ℕ)
      → IsPrepared bindings rt
      → new ≡ record (with_thread rt) { slave_count = n }
      → IsStarted bindings new
  started bindings rt new n h e = rw e (record {
    thread = refl;
    not_stopped = refl;
    reported = refl;
    has_lock = h.acquired.has_lock;
    has_master = h.acquired.has_master;
    has_device = h.acquired.has_device;
    ready = h.ready;
  })

  judged-Keeps :
      (s : Surroundings F) (bindings : List (PdoBinding F)) (ready : Bool) (rt : EthercatRuntime F)
      (es : List Event)
      → IsStarted bindings rt
      → AllRequests es
      → Keeps (IsRun bindings) (judged s ready rt (thread_started ∷ es))
  judged-Keeps s bindings true rt es h a = (h, starts (requests_running a))
  judged-Keeps s bindings false rt es h a = (
    refl,
    starts (
        Runs-append
          (requests_running (
            AllRequests-append (AllRequests-append a (range_requests s.calls rt safeop_state))
              (range_requests s.calls rt preop_state)))
          (joins done)),
  )

  run-Keeps :
      (s : Surroundings F) (bindings : List (PdoBinding F)) (rt : EthercatRuntime F)
      → IsPrepared bindings rt
      → Keeps (IsRun bindings) (run s bindings rt)
  unfolding run
  run-Keeps s bindings rt h =
      Keeps->>= (IsCounted (with_thread rt)) (IsRun bindings)
        (request_all s (with_thread rt) op_state) _ (request_all-Keeps s (with_thread rt) op_state)
        (λ r ((n, e), a). judged-Keeps s bindings _ r.0 r.1 (started bindings rt r.0 n h e) a)

  -- A start that failed.
  pub record IsFailed (rt : EthercatRuntime F) : Type 0 where
    pub released : IsReleased rt
    pub degraded : rt.status.degraded ≡ true
    pub fault : rt.status.error_code ≡ pos error_code_backend_fault

  -- How `start` ended, with the runtime, the code that it returned and what it asked for.
  pub data HasEnded (bindings : List (PdoBinding F)) (r : EthercatRuntime F × ℤ × List Event)
      : Type 0 where
    running_now : r.1 ≡ pos 0 → IsStarted bindings r.0 → Runs idle r.2 running → HasEnded bindings r
    given_up : r.1 ≡ negsuc 0 → IsFailed r.0 → Runs idle r.2 closed → HasEnded bindings r

  finish-HasEnded :
      (bindings : List (PdoBinding F))
      (m : Result (StartFailure F) (EthercatRuntime F × List Event))
      {r : EthercatRuntime F × ℤ × List Event}
      → Keeps (IsRun bindings) m
      → finish m ≡ some r
      → HasEnded bindings r
  finish-HasEnded bindings (ok (rt, es)) k e =
      subst (HasEnded bindings) (some-injective _ _ e) (running_now refl k.0 k.1)
  finish-HasEnded bindings (err threw) k e = cc
  finish-HasEnded bindings (err still_asking) k e = cc
  finish-HasEnded bindings (err (failed rt es)) k e =
      let (r, d, f, t) = fail_start-IsReleased rt k.0 in
      subst (HasEnded bindings) (some-injective _ _ e)
        (given_up refl (record { released = r; degraded = d; fault = f }) (Runs-append k.1 t))

  -- A start that returns, from a runtime whose thread does not run, either returns 0 with the thread
  -- running, the lock, the master and the device held, and every binding in the domain that it names,
  -- set up and in mapped memory; or it returns -1, degraded with the backend fault code, with nothing
  -- held and no thread. In both cases a thread is ended before the master is released, and nothing is
  -- asked afterwards.
  pub start-HasEnded :
      (config : Config F) (registry : MotorRegistry F) (s : Surroundings F) (rt : EthercatRuntime F)
      {r : EthercatRuntime F × ℤ × List Event}
      → rt.running ≡ false
      → start config registry s rt ≡ some r
      → (bindings : List (PdoBinding F)) × (configured_bindings registry rt ≡ ok bindings)
        × HasEnded bindings r
  unfolding start
  start-HasEnded config registry s rt h e = elim (Result-cases (configured_bindings registry rt)) [
    | inr (x, b) ↦ cc (rw (b, start) at e)
    | inl (bindings, b) ↦ (
      bindings,
      b,
      finish-HasEnded bindings _
          (Keeps->>= IsAcquired (IsRun bindings) _ _ (acquire-Keeps config registry s rt h) (λ r1 a.
            Keeps->>= (IsPrepared bindings) (IsRun bindings) _ _
              (set_up-Keeps config s bindings r1 a) (λ r2 p. run-Keeps s bindings r2 p)))
          (rw (b, start) at e),
    )
  ]
