-- ===== src/Ethercat/Backend/Cycle.antt =====
-- `realtimeLoop`: one pass of its body. What the master receives in this pass is an argument.
pub mod Disabling
pub mod Stale
use heimasdk_snapshot_migrat.Prelude.{
  ℕ, suc, ◌+◌, ◌%◌, ◌^◌, Bool, List, [], ◌∷◌, Option, none, some, if◌then◌else◌, ◌==◌, ltb,
}
use heimasdk_snapshot_migrat.Prelude.Int.{ℤ, pos, wrap}
use heimasdk_snapshot_migrat.Motor.{Float}
use heimasdk_snapshot_migrat.Motor.Limits.{error_code_feedback_timeout}
use heimasdk_snapshot_migrat.SnapshotBuffer.{Buffer, read_into, publish}
use heimasdk_snapshot_migrat.Status.{
  BackendStatus, set_fault, record_cycle, record_stale_frame, record_wc_incomplete,
}
use heimasdk_snapshot_migrat.Config.{Config}
use heimasdk_snapshot_migrat.Ethercat.Frames.{ActualFrame, PackedFrame}
use heimasdk_snapshot_migrat.Ethercat.Watchdog.{apply_watchdog}
use heimasdk_snapshot_migrat.Ethercat.Snapshot.{read_snapshot, write_packed_snapshot}
use heimasdk_snapshot_migrat.Ethercat.Backend.{DomainRuntime, EthercatRuntime}
use heimasdk_snapshot_migrat.Ethercat.Backend.Clock.{Timespec, add_ns, elapsed_ns_after, period_ns}

-- `EC_WC_COMPLETE` of the master library.
abbrev pub wc_complete : ℕ
wc_complete = 2

-- A domain after `ecrt_domain_process` and `ecrt_domain_state`: its memory and its state.
pub record Received : Type 0 where
  pub memory : Option (List ℕ)
  pub working_counter : ℕ
  pub wc_state : ℕ

-- What a pass takes from outside: the value of `stop` before it, the state of the master, the
-- domains by place, the clock as it is read, the failures of the weak exchanges in `readInto`, and
-- the command timeout.
pub record Inputs : Type 0 where
  pub slaves_responding : ℤ
  pub al_states : ℕ
  pub received : ℕ → Received
  pub stopped : Bool
  pub actual_wakeup : Timespec
  pub read_at : ℤ
  pub checked_at : ℤ
  pub elapsed_ns : ℕ
  pub fails : ℕ → Bool
  pub command_timeout : ℤ

module _ {F : Type 0} ⦃fl : Float F⦄ where
  unfoldable pub process_domain : Received → DomainRuntime F → DomainRuntime F
  process_domain r domain = record domain {
    memory = r.memory;
    working_counter = r.working_counter;
    wc_state = r.wc_state;
    last_working_counter = r.working_counter;
    last_wc_state = r.wc_state;
  }

  -- The feedback of a domain that was processed.
  pub read_domain : DomainRuntime F → ActualFrame F → ActualFrame F
  read_domain domain actuals =
      if domain.wc_state == wc_complete
      then read_snapshot domain.memory domain.size domain.bindings actuals
      else read_snapshot none 0 domain.bindings actuals

  pub domain_status : DomainRuntime F → BackendStatus → BackendStatus
  domain_status domain status =
      if domain.wc_state == wc_complete
      then status
      else set_fault (pos error_code_feedback_timeout)
          (record_stale_frame (record_wc_incomplete status))

  unfoldable pub process_domains :
      (ℕ → Received) → ℕ → List (DomainRuntime F) → List (DomainRuntime F)
  process_domains received i [] = []
  process_domains received i (domain ∷ rest) =
      process_domain (received i) domain ∷ process_domains received (suc i) rest

  pub read_domains : List (DomainRuntime F) → ActualFrame F → ActualFrame F
  read_domains [] actuals = actuals
  read_domains (domain ∷ rest) actuals = read_domains rest (read_domain domain actuals)

  pub domains_status : List (DomainRuntime F) → BackendStatus → BackendStatus
  domains_status [] status = status
  domains_status (domain ∷ rest) status = domains_status rest (domain_status domain status)

  pub write_domain : PackedFrame → ActualFrame F → DomainRuntime F → DomainRuntime F
  write_domain targets actuals domain = record domain {
    memory = write_packed_snapshot domain.memory domain.size domain.bindings targets actuals;
  }

  pub write_domains : PackedFrame → ActualFrame F → List (DomainRuntime F) → List (DomainRuntime F)
  write_domains targets actuals [] = []
  write_domains targets actuals (domain ∷ rest) =
      write_domain targets actuals domain ∷ write_domains targets actuals rest

  -- The frame that the feedback of this pass goes into.
  pub begin_frame : Config F → ℤ → ActualFrame F → ActualFrame F
  begin_frame config now actuals = record actuals {
    sequence = (actuals.sequence + 1) % 2 ^ 64;
    timestamp = now;
    motor_count = wrap 64 config.total_motor_count;
  }

  -- The loops over the domains do their steps domain by domain. Each step reads and writes its own
  -- domain, the actual frame or the status, so the steps of a kind are taken together here.
  pub cycle : Config F → Timespec → Inputs → EthercatRuntime F → EthercatRuntime F
  cycle config wakeup inputs rt =
      let processed = process_domains inputs.received 0 rt.domains in
      let actuals = read_domains processed (begin_frame config inputs.read_at rt.working_actuals) in
      let read = read_into inputs.fails rt.target_buffer in
      let watched = apply_watchdog read.0 inputs.checked_at inputs.command_timeout in
      let status = domains_status processed rt.status in
      record rt {
        last_slaves_responding = inputs.slaves_responding;
        last_al_states = inputs.al_states;
        working_actuals = actuals;
        target_buffer = read.1;
        targets = watched.1;
        domains = write_domains watched.1 actuals processed;
        actual_buffer = publish actuals rt.actual_buffer;
        status =
            record_cycle inputs.elapsed_ns (period_ns config)
              (elapsed_ns_after wakeup inputs.actual_wakeup)
              (if ltb 0 watched.0 then record_stale_frame status else status);
      }

  -- The loop, over the passes that it has begun; it ends at the first that finds `stop` set.
  pub realtime_loop : Config F → Timespec → List Inputs → EthercatRuntime F → EthercatRuntime F
  realtime_loop config wakeup [] rt = rt
  realtime_loop config wakeup (inputs ∷ rest) rt =
      let next = add_ns wakeup (period_ns config) in
      if inputs.stopped then rt else realtime_loop config next rest (cycle config next inputs rt)
