-- ===== src/Status.antt =====
-- `AtomicBackendStatus` of include/rmd_can_sdk/rmd_motor_backend.h. Counters are 64-bit words and
-- wrap. The compare-and-swap loops are taken as a whole, in the order in which they succeed.
pub mod Cycles
use heimasdk_snapshot_migrat.Prelude.{ℕ, ◌+◌, ◌%◌, ◌^◌, Bool, true, false, ◌&&◌, if◌then◌else◌, ltb}
use heimasdk_snapshot_migrat.Prelude.Int.{ℤ, pos}

pub record BackendStatus : Type 0 where
  pub running : Bool
  pub degraded : Bool
  pub error_code : ℤ
  pub cycle_count : ℕ
  pub deadline_miss_count : ℕ
  pub last_cycle_ns : ℕ
  pub max_cycle_ns : ℕ
  pub late_wakeup_count : ℕ
  pub last_wakeup_latency_ns : ℕ
  pub max_wakeup_latency_ns : ℕ
  pub stale_frame_count : ℕ
  pub rx_timeout_count : ℕ
  pub wc_incomplete_count : ℕ

abbrev pub default_status : BackendStatus
default_status = record {
  running = false;
  degraded = false;
  error_code = pos 0;
  cycle_count = 0;
  deadline_miss_count = 0;
  last_cycle_ns = 0;
  max_cycle_ns = 0;
  late_wakeup_count = 0;
  last_wakeup_latency_ns = 0;
  max_wakeup_latency_ns = 0;
  stale_frame_count = 0;
  rx_timeout_count = 0;
  wc_incomplete_count = 0;
}

-- `fetch_add(1)`.
abbrev pub incremented : ℕ → ℕ
incremented n = (n + 1) % 2 ^ 64

abbrev pub set_running : Bool → BackendStatus → BackendStatus
set_running running s = record s { running = running }

abbrev pub set_fault : ℤ → BackendStatus → BackendStatus
set_fault error_code s = record s { degraded = true; error_code = error_code }

abbrev pub record_max : ℕ → ℕ → ℕ
record_max value observed = if ltb observed value then value else observed

unfoldable pub record_cycle : ℕ → ℕ → ℕ → BackendStatus → BackendStatus
record_cycle cycle_ns period_ns wakeup_latency_ns s = record s {
  cycle_count = incremented s.cycle_count;
  last_cycle_ns = cycle_ns;
  max_cycle_ns = record_max cycle_ns s.max_cycle_ns;
  last_wakeup_latency_ns = wakeup_latency_ns;
  max_wakeup_latency_ns = record_max wakeup_latency_ns s.max_wakeup_latency_ns;
  late_wakeup_count =
      if ltb 0 wakeup_latency_ns then incremented s.late_wakeup_count else s.late_wakeup_count;
  deadline_miss_count =
      if ltb 0 period_ns && ltb period_ns cycle_ns
      then incremented s.deadline_miss_count
      else s.deadline_miss_count;
}

abbrev pub record_stale_frame : BackendStatus → BackendStatus
record_stale_frame s = record s { stale_frame_count = incremented s.stale_frame_count }

abbrev pub record_rx_timeout : BackendStatus → BackendStatus
record_rx_timeout s = record s { rx_timeout_count = incremented s.rx_timeout_count }

abbrev pub record_wc_incomplete : BackendStatus → BackendStatus
record_wc_incomplete s = record s { wc_incomplete_count = incremented s.wc_incomplete_count }
