-- ===== src/Can/Backend/Running/Consistent.antt =====
-- What holds whenever no call of `start` or `stop` is under way.
use heimasdk_snapshot_migrat.Prelude.{
  ℕ, ◌≡◌, refl, sym, ◌∙◌, Bool, true, false, not, List, [], ◌∷◌, Option, none, some, if-elim,
  if-cases,
}
use heimasdk_snapshot_migrat.Prelude.Int.{ℤ, pos, ◌==ℤ◌, ltb_ℤ}
use heimasdk_snapshot_migrat.Motor.{Float}
use heimasdk_snapshot_migrat.Registry.{RuntimeMotor}
use heimasdk_snapshot_migrat.Status.{BackendStatus, record_cycle}
use heimasdk_snapshot_migrat.Config.{Config, MasterConfig}
use heimasdk_snapshot_migrat.Ethercat.Frames.{ActualFrame}
use heimasdk_snapshot_migrat.Can.Protocol.{
  MitFeedback, mit_rx_id, standard_rx_id, parse_mit_reply, parse_status2_reply,
}
use heimasdk_snapshot_migrat.Tracker.{mark_frame}
use heimasdk_snapshot_migrat.Can.Backend.{
  CanBackend, CanFrame, rx_step, rx_motors, rx_motor, rx_mit, rx_timeout, mark_missing_stale,
  publish_actuals, tx_faults, any_missing,
}
use heimasdk_snapshot_migrat.Can.Backend.Running.{
  CanRuntime, find_master, start_on, start, stop, tx_pass, rx_pass,
}

tx_faults-running : (codes : List ℤ) (s : BackendStatus) → (tx_faults codes s).running ≡ s.running
tx_faults-running [] s = refl
tx_faults-running (code ∷ codes) s =
    tx_faults-running codes _
    ∙ if-elim (λ (t : BackendStatus). t.running ≡ s.running) (ltb_ℤ code (pos 0)) refl refl

module _ {F : Type 0} ⦃fl : Float F⦄ where
  rx_timeout-running :
      (now : ℤ) (b : CanBackend F) → (rx_timeout now b).0.status.running ≡ b.status.running
  unfolding rx_timeout publish_actuals mark_missing_stale
  rx_timeout-running now b =
      if-elim (λ (s : BackendStatus). s.running ≡ b.status.running)
        (any_missing b.motors b.mit_frame) refl refl

  rx_mit-running :
      (now : ℤ) (m : RuntimeMotor F) (feedback : MitFeedback F) (b : CanBackend F)
      → (rx_mit now m feedback b).0.status.running ≡ b.status.running
  unfolding rx_mit publish_actuals
  rx_mit-running now m feedback b =
      if-elim (λ (r : CanBackend F × List (ActualFrame F)). r.0.status.running ≡ b.status.running)
        (mark_frame m.slave_id now b.mit_frame).0 refl refl

  rx_motor-running :
      (now : ℤ) (frame : CanFrame) (m : RuntimeMotor F) (b : CanBackend F)
      → (rx_motor now frame m b).0.status.running ≡ b.status.running
  unfolding rx_motor
  rx_motor-running now frame m b =
      let P : CanBackend F × List (ActualFrame F) → Type 0 =
        λ r. r.0.status.running ≡ b.status.running in
      let reply =
        parse_mit_reply (some frame.bytes) frame.len m.motor_id m.parameters.maximum_torque in
      let status2 = parse_status2_reply (some frame.bytes) frame.len m.parameters.torque_constant in
      if-elim P (frame.id ==ℤ mit_rx_id m.motor_id)
        (if-elim P reply.valid (rx_mit-running now m reply b) refl)
        (if-elim P (frame.id ==ℤ standard_rx_id m.motor_id) (if-elim P status2.valid refl refl)
          refl)

  rx_motors-running :
      (now : ℤ) (frame : CanFrame) (ms : List (RuntimeMotor F)) (b : CanBackend F)
      → (rx_motors now frame ms b).0.status.running ≡ b.status.running
  unfolding rx_motors
  rx_motors-running now frame [] b = refl
  rx_motors-running now frame (m ∷ ms) b =
      rx_motors-running now frame ms (rx_motor now frame m b).0 ∙ rx_motor-running now frame m b

  rx_step-running :
      (now : ℤ) (received : Option CanFrame) (b : CanBackend F)
      → (rx_step now received b).0.status.running ≡ b.status.running
  unfolding rx_step
  rx_step-running now none b = rx_timeout-running now b
  rx_step-running now (some frame) b = rx_motors-running now frame b.motors b

  -- The states that calls of `start` and `stop` and passes of the loops lead to, from a backend that
  -- was just built. A loop makes a pass only while its thread runs.
  pub data Reach (config : Config F) (order : ℤ) (built : CanRuntime F)
      : CanRuntime F → Type 0 where
    begin : Reach config order built built
    starts :
        (opens : Bool) {r : CanRuntime F}
        → Reach config order built r
        → Reach config order built (start config order opens r).0
    stops : {r : CanRuntime F} → Reach config order built r → Reach config order built (stop r)
    sends :
        (fails : ℕ → Bool) (codes : List ℤ) (elapsed_ns : ℕ) {r : CanRuntime F}
        → Reach config order built r
        → r.sending ≡ true
        → Reach config order built (tx_pass fails codes elapsed_ns r).0
    receives :
        (now : ℤ) (received : Option CanFrame) {r : CanRuntime F}
        → Reach config order built r
        → r.receiving ≡ true
        → Reach config order built (rx_pass now received r)

  -- `running` of the status stands for both threads, the socket and `stop`.
  pub record IsConsistent (r : CanRuntime F) : Type 0 where
    pub sending : r.sending ≡ r.backend.status.running
    pub receiving : r.receiving ≡ r.backend.status.running
    pub is_open : r.is_open ≡ r.backend.status.running
    pub stop : not r.stop ≡ r.backend.status.running

  start_on-IsConsistent :
      (config : Config F) (opens : Bool) (found : Option MasterConfig) (r : CanRuntime F)
      → IsConsistent r
      → r.backend.status.running ≡ false
      → IsConsistent (start_on config opens found r).0
  unfolding start_on
  start_on-IsConsistent config opens none r c e = record {
    sending = c.sending;
    receiving = c.receiving;
    is_open = c.is_open;
    stop = c.stop;
  }
  start_on-IsConsistent config true (some master) r c e = record {
    sending = refl;
    receiving = refl;
    is_open = refl;
    stop = refl;
  }
  start_on-IsConsistent config false (some master) r c e = record {
    sending = c.sending;
    receiving = c.receiving;
    is_open = sym e;
    stop = c.stop;
  }

  start-IsConsistent :
      (config : Config F) (order : ℤ) (opens : Bool) (r : CanRuntime F)
      → IsConsistent r
      → IsConsistent (start config order opens r).0
  unfolding start
  start-IsConsistent config order opens r c =
      if-cases (λ (s : CanRuntime F × ℤ). IsConsistent s.0) r.backend.status.running (λ e. c)
        (start_on-IsConsistent config opens (find_master order config.masters) r c)

  stop-IsConsistent : (r : CanRuntime F) → IsConsistent (stop r)
  unfolding stop
  stop-IsConsistent r = record { sending = refl; receiving = refl; is_open = refl; stop = refl }

  tx_pass-IsConsistent :
      (fails : ℕ → Bool) (codes : List ℤ) (elapsed_ns : ℕ) (r : CanRuntime F)
      → IsConsistent r
      → IsConsistent (tx_pass fails codes elapsed_ns r).0
  unfolding tx_pass record_cycle
  tx_pass-IsConsistent fails codes elapsed_ns r c =
      let same = sym (tx_faults-running codes r.backend.status) in
      record {
        sending = c.sending ∙ same;
        receiving = c.receiving ∙ same;
        is_open = c.is_open ∙ same;
        stop = c.stop ∙ same;
      }

  rx_pass-IsConsistent :
      (now : ℤ) (received : Option CanFrame) (r : CanRuntime F)
      → IsConsistent r
      → IsConsistent (rx_pass now received r)
  unfolding rx_pass
  rx_pass-IsConsistent now received r c =
      let same = sym (rx_step-running now received r.backend) in
      record {
        sending = c.sending ∙ same;
        receiving = c.receiving ∙ same;
        is_open = c.is_open ∙ same;
        stop = c.stop ∙ same;
      }

  -- From a backend that was just built, whatever calls of `start` and `stop` and passes of the two
  -- loops follow, the status says that the backend runs exactly while the socket is open, both threads
  -- run and `stop` is not set.
  pub Reach-IsConsistent :
      (config : Config F) (order : ℤ) {built r : CanRuntime F}
      → IsConsistent built
      → Reach config order built r
      → IsConsistent r
  Reach-IsConsistent config order b begin = b
  Reach-IsConsistent config order b (starts opens {r} h) =
      start-IsConsistent config order opens r (Reach-IsConsistent config order b h)
  Reach-IsConsistent config order b (stops {r} h) = stop-IsConsistent r
  Reach-IsConsistent config order b (sends fails codes elapsed_ns {r} h s) =
      tx_pass-IsConsistent fails codes elapsed_ns r (Reach-IsConsistent config order b h)
  Reach-IsConsistent config order b (receives now received {r} h s) =
      rx_pass-IsConsistent now received r (Reach-IsConsistent config order b h)
