-- ===== src/Can/Tests.antt =====
-- A backend with the motors 1 and 2, of which the second does not answer.
use heimasdk_snapshot_migrat.Prelude.{
  ℕ, ◌%◌, ◌≡◌, ◌≢◌, refl, bit_of, true, false, none, not, ◌&&◌, List, [], ◌∷◌, some, if◌then◌else◌,
  ◌==◌, arith,
}
use heimasdk_snapshot_migrat.Prelude.Int.{ℤ, pos, negsuc, ◌+ℤ◌}
use heimasdk_snapshot_migrat.Motor.{can}
use heimasdk_snapshot_migrat.Motor.Limits.{kp_min, kp_max, kd_min, kd_max, HasLimits}
use heimasdk_snapshot_migrat.Motor.Sample.{sample_parameters, sample_target, whole, whole_laws}
use heimasdk_snapshot_migrat.Registry.{RuntimeMotor}
use heimasdk_snapshot_migrat.Ethercat.Frames.{
  TargetFrame, default_target_frame, default_actual_frame,
}
use heimasdk_snapshot_migrat.Tracker.{
  set_expected_frame, set_expected, expected_bits, bit_for_slave_id,
}
use heimasdk_snapshot_migrat.Tracker.Waiting.{Waits}
use heimasdk_snapshot_migrat.Can.Protocol.{
  pack_mit, float_to_uint, uint_to_float, p_min, p_max, v_min, v_max, positive_torque_limit,
  parse_mit_reply, no_mit, mit_rx_id,
}
use heimasdk_snapshot_migrat.Can.Protocol.Fields.{
  command_fields, reply_bytes, command_fields-pack_mit, parse_mit_reply-reply_bytes,
}
use heimasdk_snapshot_migrat.Can.Backend.{
  CanBackend, CanFrame, new_backend, rx_timeout, mit_command,
}
use heimasdk_snapshot_migrat.Can.Backend.Timeout.{TimedOut, rx_timeout-TimedOut}
use heimasdk_snapshot_migrat.Can.Backend.Silence.{rx_run, rx_run-silent}
use heimasdk_snapshot_migrat.Can.Backend.Sending.{IsSafe, mit_command-IsSafe}
use heimasdk_snapshot_migrat.SnapshotBuffer.{create}
use heimasdk_snapshot_migrat.Config.{Config, default_config, default_master}
use heimasdk_snapshot_migrat.Can.Backend.Running.{
  CanRuntime, find_master, start, start_on, stop, tx_pass, rx_pass,
}
use heimasdk_snapshot_migrat.Can.Backend.Running.Consistent.{
  IsConsistent, begin, starts, stops, sends, receives, Reach-IsConsistent,
}

command_fields-pack_mit_example :
    command_fields (pack_mit (pos 3) (pos 2) (pos 100) (pos 5) (pos 10) (pos 24)) ≡ (
      float_to_uint (pos 3) p_min p_max 16,
      float_to_uint (pos 2) v_min v_max 12 % 4096,
      float_to_uint (pos 100) kp_min kp_max 12 % 4096,
      float_to_uint (pos 5) kd_min kd_max 12 % 4096,
      float_to_uint
            (pos 10)
            (whole.neg (positive_torque_limit (pos 24)))
            (positive_torque_limit (pos 24))
            12
          % 4096,
    )
command_fields-pack_mit_example =
    command_fields-pack_mit (pos 3) (pos 2) (pos 100) (pos 5) (pos 10) (pos 24)

parse_mit_reply-reply_bytes_example :
    parse_mit_reply (some (reply_bytes 1 40000 2048 3000)) (pos 8) (pos 1) (pos 24) ≡ (
      if not (1 == 0) && not (1 == 1) then no_mit (pos 1) else record {
        valid = true;
        motor_id = pos 1;
        position_rad = uint_to_float 40000 p_min p_max 16;
        velocity_rad_s = uint_to_float 2048 v_min v_max 12;
        feedback_torque_nm =
            uint_to_float 3000
              (whole.neg (positive_torque_limit (pos 24)))
              (positive_torque_limit (pos 24))
              12;
      })
parse_mit_reply-reply_bytes_example =
    parse_mit_reply-reply_bytes 1 40000 2048 3000 1 (pos 24) (omega arith)

abbrev motor : ℕ → RuntimeMotor ℤ
motor n = record {
  alias = pos n;
  global_index = n;
  backend_index = 0;
  backend_local_index = 0;
  bus = can;
  master = pos 0;
  motor_id = pos n;
  slave_id = pos n;
  ethercat_slave = pos 0;
  domain = pos 0;
  type_name = [];
  parameters = sample_parameters;
}

abbrev two : CanBackend ℤ
two = new_backend (motor 1 ∷ motor 2 ∷ []) 3

rx_timeout-TimedOut_example : TimedOut (pos 5000) two (rx_timeout (pos 5000) two).1
rx_timeout-TimedOut_example = rx_timeout-TimedOut (pos 5000) two

two-Waits : Waits 2 two.mit_frame.mask
unfolding new_backend set_expected_frame set_expected expected_bits bit_for_slave_id bit_of
two-Waits = record { expected = refl; missing = refl }

-- Motor 1 answers twice.
abbrev answers : List (ℤ × CanFrame)
answers =
    (pos 10, record { id = pos 0x501; bytes = reply_bytes 1 40000 2048 3000; len = pos 8 })
    ∷ (pos 20, record { id = pos 0x501; bytes = reply_bytes 1 40001 2048 3000; len = pos 8 })
    ∷ []

no_answer : (m : RuntimeMotor ℤ) → m.motor_id ≡ pos 2 → pos 0x501 ≢ mit_rx_id m.motor_id
unfolding mit_rx_id ◌+ℤ◌
no_answer m e = rw e (λ q. ground arith)

rx_run-silent_example : (rx_run answers two).1 ≡ []
unfolding new_backend
rx_run-silent_example =
    rx_run-silent answers two 2
      (
        (λ e. ground arith, (λ e. no_answer (motor 2) refl, tt)),
        ((λ e. ground arith, (λ e. no_answer (motor 2) refl, tt)), tt),
      )
      two-Waits

abbrev asked : TargetFrame ℤ
asked = record default_target_frame { targets = λ i. sample_target }

sample-HasLimits : HasLimits sample_parameters
sample-HasLimits = record { positions = refl; torques = refl }

mit_command-IsSafe_example : IsSafe asked (motor 1) (mit_command asked (motor 1))
mit_command-IsSafe_example =
    mit_command-IsSafe whole_laws asked (motor 1) sample-HasLimits
      (λ e. record { pos_number = refl; tor_number = refl; kp_number = refl; kd_number = refl })

abbrev built : CanRuntime ℤ
built = record {
  backend = two;
  target_buffer = create asked;
  actual_buffer = create default_actual_frame;
  stop = true;
  sending = false;
  receiving = false;
  is_open = false;
  tick = 0;
  period = 0;
}

abbrev one_master : Config ℤ
one_master = record default_config { masters = default_master ∷ [] }

-- A start, a pass of each loop, a stop, and a start that cannot open the socket.
abbrev ended : CanRuntime ℤ
ended =
    (start one_master (pos 0) false (
      stop (
        rx_pass (pos 9) none
          (tx_pass (λ i. false) (pos 1 ∷ negsuc 0 ∷ []) 700
            (start one_master (pos 0) true built).0).0))).0

Reach-IsConsistent_example : IsConsistent ended
unfolding start start_on find_master tx_pass new_backend
Reach-IsConsistent_example =
    Reach-IsConsistent one_master (pos 0) {built = built}
      (record { sending = refl; receiving = refl; is_open = refl; stop = refl })
      (starts false (
        stops (
          receives (pos 9) none
            (sends (λ i. false) (pos 1 ∷ negsuc 0 ∷ []) 700 (starts true begin) refl) refl)))
