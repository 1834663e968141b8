-- ===== src/Ethercat/Backend.antt =====
-- src/rmd_ethercat_backend.cpp: the backend that runs an EtherCAT master. The master library, the
-- kernel's clocks and files and the answers of the slaves are not this repository's code: what they
-- return is an argument. Log output has no part here.
pub mod Clock
pub mod Cycle
pub mod Ready
pub mod States
pub mod Domains
pub mod Starting
mod Tests
pub mod Configure
use heimasdk_snapshot_migrat.Prelude.{ℕ, ◌^◌, ◌-◌, Bool, true, false, List, [], Option, none}
use heimasdk_snapshot_migrat.Prelude.Int.{ℤ, pos, negsuc}
use heimasdk_snapshot_migrat.Motor.{Float}
use heimasdk_snapshot_migrat.SnapshotBuffer.{Buffer}
use heimasdk_snapshot_migrat.Ethercat.Frames.{
  ActualFrame, PackedFrame, default_actual_frame, default_packed_frame,
}
use heimasdk_snapshot_migrat.Ethercat.Bindings.{PdoBinding}
use heimasdk_snapshot_migrat.Status.{BackendStatus, default_status}

-- `EthercatDomainRuntime`. `memory` is what `data` points to: `none` for a null pointer. The domain's
-- handle is its place among the domains.
pub record DomainRuntime (F : Type 0) : Type 0 where
  pub domain_id : ℤ
  pub division : ℤ
  pub memory : Option (List ℕ)
  pub size : ℕ
  pub working_counter : ℕ
  pub wc_state : ℕ
  pub last_working_counter : ℕ
  pub last_wc_state : ℕ
  pub bindings : List (PdoBinding F)

-- `RmdEthercatRuntime`, less the references to its configuration and registry. `master` and
-- `master_lock` say whether the master is requested and the lock held; `running` whether the thread
-- can be joined.
pub record EthercatRuntime (F : Type 0) : Type 0 where
  pub backend_index : ℕ
  pub target_buffer : Buffer PackedFrame
  pub actual_buffer : Buffer (ActualFrame F)
  pub operating_modes : List ℤ
  pub status : BackendStatus
  pub stop : Bool
  pub running : Bool
  pub working_actuals : ActualFrame F
  pub targets : PackedFrame
  pub master : Bool
  pub master_order : ℤ
  pub master_fd : ℤ
  pub master_lock : Bool
  pub dc_enabled : Bool
  pub dc_reference_selected : Bool
  pub slave_count : ℕ
  pub domains : List (DomainRuntime F)
  pub last_slaves_responding : ℤ
  pub last_al_states : ℕ

module _ {F : Type 0} where
  abbrev pub new_domain : ℤ → ℤ → DomainRuntime F
  new_domain domain_id division = record {
    domain_id = domain_id;
    division = division;
    memory = none;
    size = 0;
    working_counter = 0;
    wc_state = 0;
    last_working_counter = 2 ^ 32 - 1;
    last_wc_state = 0xff;
    bindings = [];
  }

module _ {F : Type 0} ⦃fl : Float F⦄ where
  -- The constructor.
  pub new_runtime : ℕ → Buffer PackedFrame → Buffer (ActualFrame F) → List ℤ → EthercatRuntime F
  new_runtime backend_index target_buffer actual_buffer modes = record {
    backend_index = backend_index;
    target_buffer = target_buffer;
    actual_buffer = actual_buffer;
    operating_modes = modes;
    status = default_status;
    stop = true;
    running = false;
    working_actuals = default_actual_frame;
    targets = default_packed_frame;
    master = false;
    master_order = pos 0;
    master_fd = negsuc 0;
    master_lock = false;
    dc_enabled = false;
    dc_reference_selected = false;
    slave_count = 0;
    domains = [];
    last_slaves_responding = negsuc 0;
    last_al_states = 2 ^ 32 - 1;
  }
