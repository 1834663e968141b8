-- ===== src/Ethercat/Backend/Configure.antt =====
-- `remapMtDevicePdos` and `configureMtDevicePdos`: the process data of one drive set up in the master.
-- The calls of the master library are the fields of `MasterCalls`: each says whether it succeeds, or
-- the offset that it gives.
pub mod Configured
use heimasdk_snapshot_migrat.Prelude.{
  ℕ, zero, suc, ◌+◌, ◌≡◌, refl, sym, ◌∙◌, Bool, true, false, not, ◌&&◌, ◌||◌, List, [], ◌∷◌, ◌++◌,
  Option, none, some, Result, ok, err, ◌>>=◌, >>=_inverse, ok-injective, arith, if◌then◌else◌,
}
use heimasdk_snapshot_migrat.Prelude.Int.{ℤ, pos, negsuc, ◌≤ℤ◌, ltb_ℤ, leb_ℤ, wrap}
use heimasdk_snapshot_migrat.Ethercat.MtDevice.{
  PdoEntrySpec, PdoProfileSpec, PdoSpec, pdo_spec, rx_pdo_spec, tx_pdo_spec, rx_pdo_size,
  tx_pdo_size, is_mt_device_type,
}
use heimasdk_snapshot_migrat.Ethercat.Bindings.{PdoBinding, resolve_slave_position}
use heimasdk_snapshot_migrat.Ethercat.Backend.States.{Event, request_until, preop_state}

pub record Download : Type 0 where
  pub index : ℕ
  pub subindex : ℕ
  pub value : ℕ
  pub size : ℕ

-- `accepts` answers a request for a state, by slave, state and attempt; `register` gives an entry's
-- byte offset in the domain at a place, or a negative code.
pub record MasterCalls : Type 0 where
  pub accepts : ℕ → ℕ → ℕ → Bool
  pub sdo_download : ℤ → Download → Bool
  pub slave_config : ℤ → ℕ → ℕ → Bool
  pub select_reference_clock : ℤ → Bool
  pub config_pdos : ℤ → PdoProfileSpec → PdoProfileSpec → Bool
  pub register_entry : ℤ → PdoEntrySpec → ℕ → ℤ

-- `configureMtDevicePdos` returns false, throws, or still asks for the state.
pub data ConfigureError : Type 0 where
  refused no_position still_requesting : ConfigureError

abbrev pub guard : Bool → Result ConfigureError (Unit {0})
guard true = ok tt
guard false = err refused

module _ {F : Type 0} where
  abbrev pub slave_of : PdoBinding F → Result ConfigureError ℤ
  slave_of binding = elim (resolve_slave_position binding) [
    | ok slave ↦ ok slave
    | err e ↦ err no_position
  ]

  abbrev pub with_offsets : ℤ → ℤ → ℤ → PdoBinding F → PdoBinding F
  with_offsets slave rx_offset tx_offset binding = record binding {
    slave = slave;
    rx_offset = rx_offset;
    tx_offset = tx_offset;
    rx_size = rx_pdo_size binding.rx_profile;
    tx_size = tx_pdo_size binding.tx_profile;
  }

module _ (calls : MasterCalls) where
  -- The downloads that are made, and whether all succeed; the first that fails is the last made.
  pub download_in_order : ℤ → List Download → List Download × Bool
  download_in_order slave [] = ([], true)
  download_in_order slave (d ∷ rest) =
      let (made, done) = download_in_order slave rest in
      if calls.sdo_download slave d then (d ∷ made, done) else (d ∷ [], false)

  abbrev pub assignment : ℕ → ℕ → List Download → List Download
  assignment index pdo rest =
      record { index = index; subindex = 0x00; value = 0; size = 1 }
      ∷ record { index = index; subindex = 0x01; value = pdo; size = 2 }
      ∷ record { index = index; subindex = 0x00; value = 1; size = 1 }
      ∷ rest

  pub remap_pdos : ℤ → PdoSpec → PdoProfileSpec → PdoProfileSpec → List Download × Bool
  unfolding download_in_order
  remap_pdos slave spec rx tx = download_in_order slave (
      assignment spec.rx_assignment_index rx.pdo_index
        (assignment spec.tx_assignment_index tx.pdo_index []))

  -- The entries after the first of a profile.
  unfoldable pub register_rest : ℤ → ℕ → List PdoEntrySpec → Result ConfigureError (Unit {0})
  register_rest slave domain [] = ok tt
  register_rest slave domain (entry ∷ rest) =
      let later = register_rest slave domain rest in
      if ltb_ℤ (calls.register_entry slave entry domain) (pos 0) then err refused else later

  -- All entries of a profile: the offset of the first. A profile has at least one entry.
  unfoldable pub register_entries : ℤ → ℕ → List PdoEntrySpec → Result ConfigureError ℤ
  unfolding register_rest
  register_entries slave domain [] = err refused
  register_entries slave domain (entry ∷ rest) =
      let offset = calls.register_entry slave entry domain in
      if ltb_ℤ offset (pos 0)
      then err refused
      else (register_rest slave domain rest >>= λ _. ok offset)

  -- The request before the set-up, which is made when the device is open.
  unfoldable pub request_preop : ℕ → ℤ → ℤ → Result ConfigureError (List Event)
  request_preop fuel master_fd slave =
      if ltb_ℤ master_fd (pos 0)
      then ok []
      else elim (request_until calls.accepts fuel (wrap 16 slave) preop_state 0) [
        | none ↦ err still_requesting
        | some events ↦ ok events
      ]

  -- The reference clock is the first drive that is set up with distributed clocks on.
  unfoldable pub select_reference : Bool → Bool → ℤ → Result ConfigureError Bool
  select_reference dc_enabled selected slave =
      if dc_enabled && not selected
      then (guard (calls.select_reference_clock slave) >>= λ _. ok true)
      else ok selected

  -- `dc_reference_selected` and the binding afterwards; after a failure the caller gives up on both.
  -- `force_remap` is the setting of the environment.
  module _ {F : Type 0} where
    unfoldable pub configure_pdos :
        ℕ → Bool → ℤ → Bool → ℕ → Bool → PdoBinding F → Result ConfigureError (Bool × PdoBinding F)
    unfolding remap_pdos register_entries request_preop select_reference
    configure_pdos fuel force_remap master_fd dc_enabled domain selected binding =
        let rx = rx_pdo_spec binding.rx_profile in
        let tx = tx_pdo_spec binding.tx_profile in
        guard (is_mt_device_type binding.type_name) >>= λ _. slave_of binding >>= λ slave.
        request_preop fuel master_fd slave >>= λ events.
        guard (not force_remap || (remap_pdos slave pdo_spec rx tx).1) >>= λ _.
        guard (calls.slave_config slave pdo_spec.vendor_id pdo_spec.product_code) >>= λ _.
        select_reference dc_enabled selected slave >>= λ selected'.
        guard (calls.config_pdos slave rx tx) >>= λ _.
        register_entries slave domain rx.entries >>= λ rx_offset.
        register_entries slave domain tx.entries >>= λ tx_offset.
        ok (selected', with_offsets slave rx_offset tx_offset binding)
