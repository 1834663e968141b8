-- ===== src/Can/Backend.antt =====
-- src/rmd_can_backend.cpp: the bodies of the transmit and the receive loop, and what the
-- constructor sets up. The motors are those of the backend's group, in its order. What the sockets
-- return is an argument: a frame or a timeout for `receive`, a code for each `send`; and so is the
-- time, one for each pass of the receive loop.
pub mod Timeout
pub mod Silence
pub mod Sending
pub mod Running
use heimasdk_snapshot_migrat.Prelude.{
  ℕ, ◌+◌, ◌%◌, ◌^◌, Bool, true, false, not, List, [], ◌∷◌, ◌++◌, map, none, some, if◌then◌else◌,
  ◌==◌, update, Option, replicate,
}
use heimasdk_snapshot_migrat.Prelude.Int.{ℤ, pos, ltb_ℤ, ◌==ℤ◌}
use heimasdk_snapshot_migrat.Motor.{
  Float, MotorTarget, MotorActual, MotorParameters, default_target, default_actual,
}
use heimasdk_snapshot_migrat.Motor.Limits.{
  limit_target, mark_actual_stale, error_code_feedback_timeout, error_code_backend_fault,
}
use heimasdk_snapshot_migrat.Registry.{RuntimeMotor}
use heimasdk_snapshot_migrat.Ethercat.Frames.{TargetFrame, ActualFrame, default_actual_frame}
use heimasdk_snapshot_migrat.Tracker.{
  FrameTracker, set_expected_frame, mark_frame, is_frame_received, reset_frame,
}
use heimasdk_snapshot_migrat.Status.{
  BackendStatus, default_status, set_fault, record_stale_frame, record_rx_timeout,
}
use heimasdk_snapshot_migrat.Can.Protocol.{
  mit_tx_id, mit_rx_id, standard_tx_id, standard_rx_id, pack_mit, parse_mit_reply,
  parse_status2_reply, apply_mit_feedback, apply_status2_feedback, MitFeedback, Status2Feedback,
}

pub record CanFrame : Type 0 where
  pub id : ℤ
  pub bytes : List ℕ
  pub len : ℤ

pub record CanBackend (F : Type 0) : Type 0 where
  pub motors : List (RuntimeMotor F)
  pub mit_frame : FrameTracker
  pub working : ActualFrame F
  pub status : BackendStatus

abbrev empty_tracker : FrameTracker
empty_tracker = record {
  mask = record { expected_mask = 0; current_mask = 0 };
  active = false;
  started = pos 0;
}

module _ {F : Type 0} where
  abbrev pub slave_ids : List (RuntimeMotor F) → List ℤ
  slave_ids [] = []
  slave_ids (m ∷ ms) = m.slave_id ∷ slave_ids ms

  abbrev pub set_valid : List (RuntimeMotor F) → (ℕ → Bool) → ℕ → Bool
  set_valid [] valid = valid
  set_valid (m ∷ ms) valid = set_valid ms (update valid m.global_index true)

  -- `publishActuals`: the frame that is published is the working frame.
  pub publish_actuals : ℤ → CanBackend F → CanBackend F
  publish_actuals now b = record b {
    working = record b.working { sequence = (b.working.sequence + 1) % 2 ^ 64; timestamp = now };
  }

  -- The loop of `markMissingStale`, and whether it marked any motor.
  pub mark_missing : List (RuntimeMotor F) → FrameTracker → ActualFrame F → ActualFrame F
  mark_missing [] tracker frame = frame
  mark_missing (m ∷ ms) tracker frame = mark_missing ms tracker (
      if is_frame_received m.slave_id tracker then frame else record frame {
        actuals =
            update frame.actuals m.global_index (mark_actual_stale (frame.actuals m.global_index));
        stale = update frame.stale m.global_index true;
      })

  abbrev pub any_missing : List (RuntimeMotor F) → FrameTracker → Bool
  any_missing [] tracker = false
  any_missing (m ∷ ms) tracker =
      if is_frame_received m.slave_id tracker then any_missing ms tracker else true

  pub mark_missing_stale : CanBackend F → CanBackend F
  mark_missing_stale b = record b {
    working = mark_missing b.motors b.mit_frame b.working;
    status = if any_missing b.motors b.mit_frame then record_stale_frame b.status else b.status;
  }

  pub rx_timeout : ℤ → CanBackend F → CanBackend F × List (ActualFrame F)
  unfolding publish_actuals mark_missing_stale
  rx_timeout now b =
      let faulted : CanBackend F = record b {
        status = set_fault (pos error_code_feedback_timeout) (record_rx_timeout b.status);
      } in
      let published = publish_actuals now (mark_missing_stale faulted) in
      (record published { mit_frame = reset_frame b.mit_frame }, published.working ∷ [])

  abbrev put : ℕ → MotorActual F → ActualFrame F → ActualFrame F
  put i actual frame = record frame { actuals = update frame.actuals i actual }

  -- A valid MIT reply of a motor.
  pub rx_mit :
      ℤ → RuntimeMotor F → MitFeedback F → CanBackend F → CanBackend F × List (ActualFrame F)
  unfolding publish_actuals
  rx_mit now m feedback b =
      let i = m.global_index in
      let working : ActualFrame F = record b.working {
        actuals = update b.working.actuals i (apply_mit_feedback feedback (b.working.actuals i));
        valid = update b.working.valid i true;
        stale = update b.working.stale i false;
      } in
      let (done, tracker) = mark_frame m.slave_id now b.mit_frame in
      let answered : CanBackend F = record b { working = working; mit_frame = tracker } in
      if done
      then (publish_actuals now answered, (publish_actuals now answered).working ∷ [])
      else (answered, [])

module _ {F : Type 0} ⦃fl : Float F⦄ where
  -- Every index is below 64: for another, the driver's `init` throws before it builds the backend.
  unfoldable pub new_backend : List (RuntimeMotor F) → ℕ → CanBackend F
  new_backend motors total = record {
    motors = motors;
    mit_frame = set_expected_frame (slave_ids motors) empty_tracker;
    working = record default_actual_frame {
      motor_count = total;
      valid = set_valid motors (λ _. false);
    };
    status = default_status;
  }

  pub rx_motor : ℤ → CanFrame → RuntimeMotor F → CanBackend F → CanBackend F × List (ActualFrame F)
  rx_motor now frame m b =
      let reply =
        parse_mit_reply (some frame.bytes) frame.len m.motor_id m.parameters.maximum_torque in
      let status2 = parse_status2_reply (some frame.bytes) frame.len m.parameters.torque_constant in
      let i = m.global_index in
      if frame.id ==ℤ mit_rx_id m.motor_id
      then (if reply.valid then rx_mit now m reply b else (b, []))
      else if frame.id ==ℤ standard_rx_id m.motor_id
      then (if status2.valid
          then (
            record b {
              working = put i (apply_status2_feedback status2 (b.working.actuals i)) b.working;
            },
            [],
          )
          else (b, []))
      else (b, [])

  pub rx_motors :
      ℤ → CanFrame → List (RuntimeMotor F) → CanBackend F → CanBackend F × List (ActualFrame F)
  rx_motors now frame [] b = (b, [])
  rx_motors now frame (m ∷ ms) b =
      let (b1, out1) = rx_motor now frame m b in
      let (b2, out2) = rx_motors now frame ms b1 in (b2, out1 ++ out2)

  -- One pass of the receive loop, at time `now`, and the frames that it publishes.
  pub rx_step : ℤ → Option CanFrame → CanBackend F → CanBackend F × List (ActualFrame F)
  rx_step now none b = rx_timeout now b
  rx_step now (some frame) b = rx_motors now frame b.motors b

  -- What the transmit loop sends to one motor.
  pub mit_command : TargetFrame F → RuntimeMotor F → CanFrame
  mit_command targets m =
      let asked = targets.targets m.global_index in
      let target = if not (asked.enabled ==ℤ pos 1) then default_target else asked in
      let limited = (limit_target target m.parameters).target in
      record {
        id = mit_tx_id m.motor_id;
        bytes =
            pack_mit limited.pos limited.vel limited.kp limited.kd limited.tor
              m.parameters.maximum_torque;
        len = pos 8;
      }

  abbrev pub status_command : RuntimeMotor F → CanFrame
  status_command m = record {
    id = standard_tx_id m.motor_id;
    bytes = 0x9c ∷ replicate 7 0;
    len = pos 8;
  }

  -- The frames of one pass, in the order in which they are sent.
  abbrev pub tx_frames : ℕ → TargetFrame F → List (RuntimeMotor F) → List CanFrame
  tx_frames tick targets motors =
      map (mit_command targets) motors ++ (if tick % 20 == 0 then map status_command motors else [])

-- The codes that `send` returned for the MIT frames.
abbrev pub tx_faults : List ℤ → BackendStatus → BackendStatus
tx_faults [] s = s
tx_faults (code ∷ codes) s =
    tx_faults codes (if ltb_ℤ code (pos 0) then set_fault (pos error_code_backend_fault) s else s)
