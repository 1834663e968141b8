-- ===== src/Can/Backend/Running.antt =====
-- `start`, `stop` and the two loops of src/rmd_can_backend.cpp around a shared runtime. Whether the
-- socket opens is an argument, and so are the codes that `send` returns, what `receive` returns, and
-- the times. `stop` joins both threads before it goes on, so a call is one step.
pub mod Consistent
use heimasdk_snapshot_migrat.Prelude.{
  ℕ, ◌+◌, ◌%◌, ◌^◌, Bool, true, false, List, [], ◌∷◌, Option, none, some, if◌then◌else◌,
}
use heimasdk_snapshot_migrat.Prelude.Int.{ℤ, pos, negsuc, ◌*ℤ◌, ◌==ℤ◌, wrap}
use heimasdk_snapshot_migrat.Motor.{Float}
use heimasdk_snapshot_migrat.Motor.Limits.{error_code_backend_fault}
use heimasdk_snapshot_migrat.SnapshotBuffer.{Buffer, publish, read_into}
use heimasdk_snapshot_migrat.Ethercat.Frames.{TargetFrame, ActualFrame}
use heimasdk_snapshot_migrat.Status.{set_fault, set_running, record_cycle}
use heimasdk_snapshot_migrat.Config.{Config, MasterConfig}
use heimasdk_snapshot_migrat.Config.Masters.{at_least_one}
use heimasdk_snapshot_migrat.Can.Backend.{CanBackend, CanFrame, rx_step, tx_frames, tx_faults}

-- The backend with its buffers, its threads and its socket. `tick` and `period` are locals of the
-- transmit loop.
pub record CanRuntime (F : Type 0) : Type 0 where
  pub backend : CanBackend F
  pub target_buffer : Buffer (TargetFrame F)
  pub actual_buffer : Buffer (ActualFrame F)
  pub stop : Bool
  pub sending : Bool
  pub receiving : Bool
  pub is_open : Bool
  pub tick : ℕ
  pub period : ℕ

-- The first master of that order.
unfoldable pub find_master : ℤ → List MasterConfig → Option MasterConfig
find_master order [] = none
find_master order (master ∷ rest) =
    if master.order ==ℤ order then some master else find_master order rest

module _ {F : Type 0} where
  abbrev faulted : CanRuntime F → CanRuntime F
  faulted r = record r {
    backend = record r.backend {
      status = set_fault (pos error_code_backend_fault) r.backend.status;
    };
  }

  -- With the master that was found, if any.
  unfoldable pub start_on : Config F → Bool → Option MasterConfig → CanRuntime F → CanRuntime F × ℤ
  start_on config opens none r = (faulted r, negsuc 0)
  start_on config opens (some master) r =
      if opens
      then (
        record r {
          backend = record r.backend { status = set_running true r.backend.status };
          stop = false;
          sending = true;
          receiving = true;
          is_open = true;
          tick = 0;
          period = wrap 64 (config.period_ns *ℤ at_least_one master.division);
        },
        pos 0,
      )
      else (record (faulted r) { is_open = false }, negsuc 0)

  -- `order` is the master of the backend's group.
  unfoldable pub start : Config F → ℤ → Bool → CanRuntime F → CanRuntime F × ℤ
  unfolding start_on
  start config order opens r =
      if r.backend.status.running
      then (r, pos 0)
      else start_on config opens (find_master order config.masters) r

  pub stop : CanRuntime F → CanRuntime F
  stop r = record r {
    backend = record r.backend { status = set_running false r.backend.status };
    stop = true;
    sending = false;
    receiving = false;
    is_open = false;
  }

  abbrev publish_all : List (ActualFrame F) → Buffer (ActualFrame F) → Buffer (ActualFrame F)
  publish_all [] buffer = buffer
  publish_all (frame ∷ frames) buffer = publish_all frames (publish frame buffer)

module _ {F : Type 0} ⦃fl : Float F⦄ where
  -- One pass of the transmit loop, and the frames that it sends. `codes`: what `send` returned for
  -- the MIT frames.
  unfoldable pub tx_pass : (ℕ → Bool) → List ℤ → ℕ → CanRuntime F → CanRuntime F × List CanFrame
  tx_pass fails codes elapsed_ns r =
      let read = read_into fails r.target_buffer in
      (
        record r {
          backend = record r.backend {
            status = record_cycle elapsed_ns r.period 0 (tx_faults codes r.backend.status);
          };
          target_buffer = read.1;
          tick = (r.tick + 1) % 2 ^ 64;
        },
        tx_frames r.tick read.0 r.backend.motors,
      )

  -- One pass of the receive loop.
  pub rx_pass : ℤ → Option CanFrame → CanRuntime F → CanRuntime F
  rx_pass now received r =
      let step = rx_step now received r.backend in
      record r { backend = step.0; actual_buffer = publish_all step.1 r.actual_buffer }
