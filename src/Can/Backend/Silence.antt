-- ===== src/Can/Backend/Silence.antt =====
-- The receive loop while one motor does not answer.
use heimasdk_snapshot_migrat.Prelude.{
  ℕ, ◌≡◌, ◌≢◌, refl, ◌∙◌, List, [], ◌∷◌, ◌++◌, some, Bool-cases, inl, inr,
}
use heimasdk_snapshot_migrat.Prelude.Int.{ℤ, pos, ◌==ℤ◌, ==ℤ_iff}
use heimasdk_snapshot_migrat.Motor.{Float}
use heimasdk_snapshot_migrat.Registry.{RuntimeMotor}
use heimasdk_snapshot_migrat.Ethercat.Frames.{ActualFrame}
use heimasdk_snapshot_migrat.Tracker.Waiting.{Waits, mark_frame-Waits}
use heimasdk_snapshot_migrat.Can.Protocol.{
  mit_rx_id, standard_rx_id, MitFeedback, parse_mit_reply, parse_status2_reply,
}
use heimasdk_snapshot_migrat.Can.Backend.{
  CanBackend, CanFrame, rx_mit, rx_motor, rx_motors, rx_step,
}

module _ {F : Type 0} where
  -- The frame is no reply of the motor that slave `k` stands for.
  abbrev pub Other : ℕ → CanFrame → RuntimeMotor F → Type 0
  Other k frame m = m.slave_id ≡ pos k → frame.id ≢ mit_rx_id m.motor_id

  abbrev pub AllOther : ℕ → CanFrame → List (RuntimeMotor F) → Type 0
  AllOther k frame [] = Unit
  AllOther k frame (m ∷ ms) = Other k frame m × AllOther k frame ms

  -- After a pass: nothing published, the same motors, and slave `k` still missing.
  pub record IsQuiet (k : ℕ) (b : CanBackend F) (r : CanBackend F × List (ActualFrame F))
      : Type 0 where
    pub nothing : r.1 ≡ []
    pub motors : r.0.motors ≡ b.motors
    pub waits : Waits k r.0.mit_frame.mask

  rx_mit-IsQuiet :
      (now : ℤ) (m : RuntimeMotor F) (feedback : MitFeedback F) (b : CanBackend F) (k : ℕ)
      → m.slave_id ≢ pos k
      → Waits k b.mit_frame.mask
      → IsQuiet k b (rx_mit now m feedback b)
  unfolding rx_mit
  rx_mit-IsQuiet now m feedback b k d w =
      let (e, v) = mark_frame-Waits m.slave_id now b.mit_frame k d w in
      rw e (record { nothing = refl; motors = refl; waits = v })

module _ {F : Type 0} ⦃fl : Float F⦄ where
  rx_motor-IsQuiet :
      (now : ℤ) (frame : CanFrame) (m : RuntimeMotor F) (b : CanBackend F) (k : ℕ)
      → Other k frame m
      → Waits k b.mit_frame.mask
      → IsQuiet k b (rx_motor now frame m b)
  unfolding rx_motor
  rx_motor-IsQuiet now frame m b k h w =
      let reply =
        parse_mit_reply (some frame.bytes) frame.len m.motor_id m.parameters.maximum_torque in
      let status2 = parse_status2_reply (some frame.bytes) frame.len m.parameters.torque_constant in
      elim (Bool-cases (frame.id ==ℤ mit_rx_id m.motor_id)) [
        | inl e ↦ elim (Bool-cases reply.valid) [
          | inl v ↦
              rw (e, v)
                (rx_mit-IsQuiet now m _ b k
                  (λ q. h q ((==ℤ_iff frame.id (mit_rx_id m.motor_id)).0 e)) w)
          | inr v ↦ rw (e, v) (record { nothing = refl; motors = refl; waits = w })
        ]
        | inr e ↦ elim (Bool-cases (frame.id ==ℤ standard_rx_id m.motor_id)) [
          | inl f ↦ elim (Bool-cases status2.valid) [
            | inl v ↦ rw (e, f, v) (record { nothing = refl; motors = refl; waits = w })
            | inr v ↦ rw (e, f, v) (record { nothing = refl; motors = refl; waits = w })
          ]
          | inr f ↦ rw (e, f) (record { nothing = refl; motors = refl; waits = w })
        ]
      ]

  rx_motors-IsQuiet :
      (now : ℤ) (frame : CanFrame) (ms : List (RuntimeMotor F)) (b : CanBackend F) (k : ℕ)
      → AllOther k frame ms
      → Waits k b.mit_frame.mask
      → IsQuiet k b (rx_motors now frame ms b)
  unfolding rx_motors
  rx_motors-IsQuiet now frame [] b k h w = record { nothing = refl; motors = refl; waits = w }
  rx_motors-IsQuiet now frame (m ∷ ms) b k h w =
      let q1 = rx_motor-IsQuiet now frame m b k h.0 w in
      let q2 = rx_motors-IsQuiet now frame ms (rx_motor now frame m b).0 k h.1 q1.waits in
      record {
        nothing = rw (q1.nothing, q2.nothing) refl;
        motors = q2.motors ∙ q1.motors;
        waits = q2.waits;
      }

  -- A run of the loop over frames that arrive in time, and all that it publishes.
  pub rx_run : List (ℤ × CanFrame) → CanBackend F → CanBackend F × List (ActualFrame F)
  rx_run [] b = (b, [])
  rx_run ((now, frame) ∷ rest) b =
      let (b1, out1) = rx_step now (some frame) b in
      let (b2, out2) = rx_run rest b1 in (b2, out1 ++ out2)

  abbrev pub RunOther : ℕ → List (ℤ × CanFrame) → List (RuntimeMotor F) → Type 0
  RunOther k [] ms = Unit
  RunOther k ((now, frame) ∷ rest) ms = AllOther k frame ms × RunOther k rest ms

  rx_run-IsQuiet :
      (events : List (ℤ × CanFrame)) (b : CanBackend F) (k : ℕ)
      → RunOther k events b.motors
      → Waits k b.mit_frame.mask
      → IsQuiet k b (rx_run events b)
  unfolding rx_run rx_step
  rx_run-IsQuiet [] b k h w = record { nothing = refl; motors = refl; waits = w }
  rx_run-IsQuiet ((now, frame) ∷ rest) b k h w =
      let q1 = rx_motors-IsQuiet now frame b.motors b k h.0 w in
      let b1 = (rx_motors now frame b.motors b).0 in
      let q2 = rx_run-IsQuiet rest b1 k (rw q1.motors h.1) q1.waits in
      record {
        nothing = rw (q1.nothing, q2.nothing) refl;
        motors = q2.motors ∙ q1.motors;
        waits = q2.waits;
      }

  -- While an expected slave does not answer and other frames keep arriving before the receive
  -- timeout, the backend publishes nothing at all, however long that lasts.
  pub rx_run-silent :
      (events : List (ℤ × CanFrame)) (b : CanBackend F) (k : ℕ)
      → RunOther k events b.motors
      → Waits k b.mit_frame.mask
      → (rx_run events b).1 ≡ []
  rx_run-silent events b k h w = (rx_run-IsQuiet events b k h w).nothing
