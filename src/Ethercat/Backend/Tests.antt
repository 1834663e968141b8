-- ===== src/Ethercat/Backend/Tests.antt =====
-- A master with one drive, started, run for a pass with an old command, and stopped.
use mathlib.Core.List.{Memᴰ}
use heimasdk_snapshot_migrat.Prelude.{
  ℕ, ◌+◌, ◌≤◌, ◌<◌, ◌≡◌, refl, ◌⊎◌, ◌↔◌, Bool, true, false, List, [], ◌∷◌, Option, none, some, ok,
  arith, if◌then◌else◌, ◌==◌, ltb, codes, replicate, get_elem?,
}
use heimasdk_snapshot_migrat.Prelude.Int.{ℤ, pos, negsuc, ◌-ℤ◌}
use heimasdk_snapshot_migrat.Motor.{ethercat}
use heimasdk_snapshot_migrat.Motor.Sample.{sample_parameters, whole}
use heimasdk_snapshot_migrat.Registry.{MotorRegistry}
use heimasdk_snapshot_migrat.SnapshotBuffer.{
  Buffer, read_into, attempts, take, pack_state, state_index, state_version,
}
use heimasdk_snapshot_migrat.Config.{default_config}
use heimasdk_snapshot_migrat.Ethercat.MtDevice.{
  RxProfile, TxProfile, is_mt_device_type, normalized, rx_pdo_spec, tx_pdo_spec,
}
use heimasdk_snapshot_migrat.Ethercat.Bindings.{PdoBinding, assign_profiles}
use heimasdk_snapshot_migrat.Ethercat.Frames.{
  PackedFrame, default_packed, default_packed_frame, default_actual_frame,
}
use heimasdk_snapshot_migrat.Ethercat.Backend.{
  DomainRuntime, EthercatRuntime, new_domain, new_runtime,
}
use heimasdk_snapshot_migrat.Ethercat.Backend.Clock.{
  Timespec, add_ns, timespec_to_ns, IsNormal, add_ns_ends, domain_division, ethercat_dc_enabled,
  startup_ready_timeout,
}
use heimasdk_snapshot_migrat.Ethercat.Backend.Ready.{
  wait_for_startup_ready, new_frames, HasRunOf, AllFed, wait_for_startup_ready_iff,
}
use heimasdk_snapshot_migrat.Ethercat.Snapshot.Commands.{HasDisabled}
use heimasdk_snapshot_migrat.Ethercat.Backend.Cycle.{Inputs, process_domain, process_domains, cycle}
use heimasdk_snapshot_migrat.Ethercat.Backend.Cycle.Stale.{IsReported, cycle-IsReported}
use heimasdk_snapshot_migrat.Ethercat.Backend.Cycle.Disabling.{cycle-disables}
use heimasdk_snapshot_migrat.Ethercat.Backend.States.{
  Event, request_until, request_range, AcceptsBefore, request_range_ends, op_state,
}
use heimasdk_snapshot_migrat.Ethercat.Backend.Configure.{
  MasterCalls, register_rest, register_entries, request_preop, select_reference, configure_pdos,
}
use heimasdk_snapshot_migrat.Ethercat.Backend.Domains.{
  has_domain, push_binding, place_binding, group_bindings,
}
use heimasdk_snapshot_migrat.Ethercat.Backend.Domains.Holding.{IsGrouped}
use heimasdk_snapshot_migrat.Ethercat.Backend.Domains.Grouped.{group_bindings-IsGrouped}
use heimasdk_snapshot_migrat.Ethercat.Backend.Starting.{
  Surroundings, acquire_lock, acquire, configure_bindings, configure_domains, map_domains, set_up,
}
use heimasdk_snapshot_migrat.Ethercat.Backend.Starting.Running.{
  configured_bindings, request_counted, request_all, run, start,
}
use heimasdk_snapshot_migrat.Ethercat.Backend.Starting.Started.{HasEnded, start-HasEnded}

add_ns_ends_example :
    IsNormal (add_ns (record { sec = 7; nsec = 999_999_999 }) 2_500_000)
    × (timespec_to_ns (add_ns (record { sec = 7; nsec = 999_999_999 }) 2_500_000)
        ≡ timespec_to_ns (record { sec = 7; nsec = 999_999_999 }) + 2_500_000)
add_ns_ends_example = add_ns_ends (record { sec = 7; nsec = 999_999_999 }) 2_500_000

-- Slave 1 accepts its third attempt only.
abbrev third_attempt : ℕ → ℕ → ℕ → Bool
third_attempt slave state k = if slave == 1 then k == 2 else true

request_range_ends_example :
    ((events : List Event) × (request_range third_attempt 3 2 0 op_state ≡ some events))
    ↔ ((i : ℕ) → 0 ≤ i → i < 2 → AcceptsBefore third_attempt 3 i op_state 0)
request_range_ends_example = request_range_ends third_attempt 3 2 0 op_state

abbrev one_registry : MotorRegistry ℤ
one_registry = record {
  total_motor_count = pos 1;
  motors =
      record {
        alias = pos 1;
        global_index = 0;
        backend_index = 0;
        backend_local_index = 0;
        bus = ethercat;
        master = pos 0;
        motor_id = pos 1;
        slave_id = pos 0;
        ethercat_slave = pos 0;
        domain = pos 0;
        type_name = codes "MT_Device";
        parameters = sample_parameters;
      }
      ∷ [];
  backends = record { bus = ethercat; master = pos 0; motor_indexes = 0 ∷ [] } ∷ [];
}

abbrev willing : MasterCalls
willing = record {
  accepts = λ slave state k. true;
  sdo_download = λ slave d. true;
  slave_config = λ slave vendor product. true;
  select_reference_clock = λ slave. true;
  config_pdos = λ slave rx tx. true;
  register_entry = λ slave entry domain. pos 4;
}

abbrev surroundings : Surroundings ℤ
surroundings = record {
  lock_primary = false;
  lock_error = pos 13;
  lock_fallback = true;
  master_requested = true;
  device = pos 3;
  slave_count = some 1;
  slave_count_later = some 1;
  create_domain = λ k. true;
  calls = willing;
  activated = true;
  domain_data = λ i. some (replicate 40 0);
  domain_size = λ i. 40;
  startup_frames = [];
  disable_dc = none;
  force_remap = false;
  ready_timeout = some (pos 0);
  ready_frames = none;
  fuel = 1;
}

abbrev buffer_of : {T : Type 0} → T → Buffer T
buffer_of initial = record {
  slots = λ i. initial;
  latest = 0;
  writing = 1;
  write_version = 0;
  reading = 2;
  read_version = 0;
}

abbrev new : EthercatRuntime ℤ
new = record (new_runtime 0 (buffer_of default_packed_frame) (buffer_of default_actual_frame) []) {
  operating_modes = pos 8 ∷ [];
  running = false;
}

abbrev result_or : Option (EthercatRuntime ℤ × ℤ × List Event) → EthercatRuntime ℤ × ℤ × List Event
result_or none = (new, negsuc 0, [])
result_or (some r) = r

abbrev result : EthercatRuntime ℤ × ℤ × List Event
result = result_or (start default_config one_registry surroundings new)

starts_one : start default_config one_registry surroundings new ≡ some result
unfolding start configured_bindings assign_profiles acquire acquire_lock set_up group_bindings
    place_binding has_domain push_binding configure_domains configure_bindings configure_pdos
    register_entries register_rest request_preop select_reference request_until map_domains run
    request_all request_counted request_range wait_for_startup_ready startup_ready_timeout
    is_mt_device_type normalized rx_pdo_spec tx_pdo_spec new_runtime ethercat_dc_enabled
starts_one = refl

start-HasEnded_example :
    (bindings : List (PdoBinding ℤ)) × (configured_bindings one_registry new ≡ ok bindings)
    × HasEnded bindings result
start-HasEnded_example = start-HasEnded default_config one_registry surroundings new refl starts_one

abbrev drive : ℕ → ℤ → PdoBinding ℤ
drive i domain = record {
  global_index = i;
  backend_local_index = i;
  alias = pos (i + 1);
  master = pos 0;
  slave = pos i;
  domain = domain;
  rx_offset = pos 4;
  tx_offset = pos 4;
  rx_profile = RxProfile.standard;
  tx_profile = TxProfile.extended;
  rx_size = 16;
  tx_size = 22;
  type_name = codes "MT_Device";
  parameters = sample_parameters;
}

-- Two domains, the first with two drives around one of the second.
abbrev three_drives : List (PdoBinding ℤ)
three_drives = drive 0 (pos 3) ∷ drive 1 (pos 0) ∷ drive 2 (pos 3) ∷ []

abbrev domains_or : Option (List (DomainRuntime ℤ)) → List (DomainRuntime ℤ)
domains_or none = []
domains_or (some ds) = ds

abbrev sorted : List (DomainRuntime ℤ)
sorted = domains_or (group_bindings default_config (λ k. true) three_drives [])

sorts_three : group_bindings default_config (λ k. true) three_drives [] ≡ some sorted
unfolding group_bindings place_binding has_domain push_binding domain_division
sorts_three = refl

group_bindings-IsGrouped_example : IsGrouped three_drives sorted
group_bindings-IsGrouped_example =
    group_bindings-IsGrouped default_config (λ k. true) three_drives sorts_three

wait_for_startup_ready_iff_example :
    (wait_for_startup_ready (pos 30000) 2 three_drives (default_actual_frame ∷ []) ≡ true) ↔ (
      (pos 30000 ≡ pos 0)
      ⊎ HasRunOf (AllFed three_drives) 2 (new_frames 0 (default_actual_frame ∷ [])))
wait_for_startup_ready_iff_example =
    wait_for_startup_ready_iff (pos 30000) 2 three_drives (default_actual_frame ∷ []) (omega arith)

-- A pass in which the only domain has answered; its command is 900 ns old.
abbrev one_domain : DomainRuntime ℤ
one_domain = record (new_domain (pos 0) (pos 1)) {
  memory = some (replicate 40 0);
  size = 40;
  bindings = drive 0 (pos 0) ∷ [];
}

abbrev enabling : PackedFrame
enabling = record default_packed_frame {
  timestamp = pos 100;
  targets = λ i. record default_packed { enabled = pos 1 };
  valid = λ i. ltb i 1;
}

abbrev pass : Inputs
pass = record {
  slaves_responding = pos 1;
  al_states = 8;
  received = λ i. record { memory = some (replicate 40 0); working_counter = 3; wc_state = 2 };
  stopped = false;
  actual_wakeup = record { sec = 1; nsec = 500 };
  read_at = pos 1000;
  checked_at = pos 1000;
  elapsed_ns = 30000;
  fails = λ k. false;
  command_timeout = pos 800;
}

abbrev started : EthercatRuntime ℤ
started = record new {
  target_buffer = record (buffer_of enabling) { latest = 4 };
  domains = one_domain ∷ [];
}

abbrev wakeup : Timespec
wakeup = record { sec = 1; nsec = 0 }

abbrev answered : DomainRuntime ℤ
answered = process_domain (pass.received 0) one_domain

cycle-IsReported_example :
    IsReported
      (process_domains pass.received 0 started.domains)
      0
      (cycle default_config wakeup pass started).working_actuals
unfolding process_domains process_domain
cycle-IsReported_example =
    cycle-IsReported default_config wakeup pass started answered (drive 0 (pos 0)) (Memᴰ.head refl)
      (Memᴰ.head refl) (omega arith)

cycle-disables_example :
    (new : DomainRuntime ℤ) × (out : List ℕ) × (get_elem?
        (cycle default_config wakeup pass started).domains
        0
      ≡ some new)
    × (new.memory ≡ some out)
    × HasDisabled 4 out
unfolding process_domains process_domain read_into attempts take pack_state state_version
    state_index ◌-ℤ◌
cycle-disables_example =
    cycle-disables default_config wakeup pass started (refl, refl, refl) 0 answered (replicate 40 0)
      refl refl [] [] (drive 0 (pos 0)) refl refl (omega arith) tt tt
