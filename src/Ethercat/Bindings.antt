-- ===== src/Ethercat/Bindings.antt =====
-- src/rmd_ethercat_bindings.cpp: where each motor of an EtherCAT backend has its process data.
-- Offsets start at -1, which no domain has.
pub mod Profiles
use heimasdk_snapshot_migrat.Prelude.{
  ℕ, not, List, [], ◌∷◌, none, some, Result, ok, err, ◌>>=◌, if◌then◌else◌, get_elem?, ◌==◌,
}
use heimasdk_snapshot_migrat.Prelude.Int.{ℤ, pos, negsuc, leb_ℤ, ◌-ℤ◌}
use heimasdk_snapshot_migrat.Motor.{MotorParameters, ethercat}
use heimasdk_snapshot_migrat.Registry.{RuntimeMotor, MotorRegistry, bus_eq}
use heimasdk_snapshot_migrat.Ethercat.MtDevice.{
  RxProfile, TxProfile, rx_profile_for_mode, rx_pdo_size, tx_pdo_size, is_mt_device_type,
}

pub record PdoBinding (F : Type 0) : Type 0 where
  pub global_index : ℕ
  pub backend_local_index : ℕ
  pub alias : ℤ
  pub master : ℤ
  pub slave : ℤ
  pub domain : ℤ
  pub rx_offset : ℤ
  pub tx_offset : ℤ
  pub rx_profile : RxProfile
  pub tx_profile : TxProfile
  pub rx_size : ℕ
  pub tx_size : ℕ
  pub type_name : List ℕ
  pub parameters : MotorParameters F

pub data BindingError : Type 0 where
  backend_outside motor_outside mode_missing local_not_found no_alias : BindingError

module _ {F : Type 0} where
  abbrev pub with_profiles : RxProfile → PdoBinding F → PdoBinding F
  with_profiles rx binding = record binding {
    rx_profile = rx;
    tx_profile = TxProfile.extended;
    rx_size = rx_pdo_size rx;
    tx_size = tx_pdo_size TxProfile.extended;
  }

  abbrev pub binding_of : RuntimeMotor F → PdoBinding F
  binding_of motor =
      let binding : PdoBinding F = record {
        global_index = motor.global_index;
        backend_local_index = motor.backend_local_index;
        alias = motor.alias;
        master = motor.master;
        slave = motor.ethercat_slave;
        domain = motor.domain;
        rx_offset = negsuc 0;
        tx_offset = negsuc 0;
        rx_profile = RxProfile.standard;
        tx_profile = TxProfile.extended;
        rx_size = 0;
        tx_size = 0;
        type_name = motor.type_name;
        parameters = motor.parameters;
      } in
      if is_mt_device_type motor.type_name
      then with_profiles RxProfile.standard binding
      else binding

  abbrev pub bindings_of :
      List (RuntimeMotor F) → List ℕ → Result BindingError (List (PdoBinding F))
  bindings_of motors [] = ok []
  bindings_of motors (i ∷ indexes) = elim (get_elem? motors i) [
    | none ↦ err motor_outside
    | some motor ↦ bindings_of motors indexes >>= λ rest. ok (binding_of motor ∷ rest)
  ]

  abbrev pub build_bindings : MotorRegistry F → ℕ → Result BindingError (List (PdoBinding F))
  build_bindings registry backend_index = elim (get_elem? registry.backends backend_index) [
    | none ↦ err backend_outside
    | some backend ↦
        if not (bus_eq backend.bus ethercat)
        then ok []
        else bindings_of registry.motors backend.motor_indexes
  ]

  -- The exception leaves the bindings before the failing one changed; the caller gives up on all.
  unfoldable pub assign_profiles :
      List (PdoBinding F) → List ℤ → Result BindingError (List (PdoBinding F))
  assign_profiles [] modes = ok []
  assign_profiles (binding ∷ rest) modes =
      if not (is_mt_device_type binding.type_name)
      then (assign_profiles rest modes >>= λ done. ok (binding ∷ done))
      else elim (get_elem? modes binding.global_index) [
        | none ↦ err mode_missing
        | some mode ↦ assign_profiles rest modes >>= λ done.
            ok (with_profiles (rx_profile_for_mode mode) binding ∷ done)
      ]

  abbrev pub assign_offsets :
      List (PdoBinding F) → ℕ → ℤ → ℤ → Result BindingError (List (PdoBinding F))
  assign_offsets [] local rx_offset tx_offset = err local_not_found
  assign_offsets (binding ∷ rest) local rx_offset tx_offset =
      if binding.backend_local_index == local
      then ok (record binding { rx_offset = rx_offset; tx_offset = tx_offset } ∷ rest)
      else (assign_offsets rest local rx_offset tx_offset >>= λ done. ok (binding ∷ done))

  abbrev pub resolve_slave_position : PdoBinding F → Result BindingError ℤ
  resolve_slave_position binding =
      if leb_ℤ (pos 0) binding.slave
      then ok binding.slave
      else if leb_ℤ binding.alias (pos 0)
      then err no_alias
      else ok (binding.alias -ℤ pos 1)
