-- ===== src/Ethercat/Backend/Configure/Configured.antt =====
-- A binding after its drive was set up.
use heimasdk_snapshot_migrat.Prelude.{
  ℕ, ◌≡◌, refl, sym, ap, inl, inr, Bool, true, false, not, ◌||◌, List, [], ◌∷◌, ok, >>=_inverse,
  ok-injective, arith, Bool-cases,
}
use heimasdk_snapshot_migrat.Prelude.Int.{ℤ, pos, ◌≤ℤ◌, ltb_ℤ}
use heimasdk_snapshot_migrat.Ethercat.MtDevice.{
  PdoEntrySpec, pdo_spec, rx_pdo_spec, tx_pdo_spec, is_mt_device_type,
}
use heimasdk_snapshot_migrat.Ethercat.Bindings.{PdoBinding, resolve_slave_position}
use heimasdk_snapshot_migrat.Ethercat.Backend.Configure.{
  MasterCalls, guard, register_rest, register_entries, request_preop, select_reference, remap_pdos,
  slave_of, with_offsets, configure_pdos,
}

guard-true : (b : Bool) {u : Unit {0}} → guard b ≡ ok u → b ≡ true
guard-true true h = refl
guard-true false h = cc

register_entries-le :
    (calls : MasterCalls) (slave : ℤ) (domain : ℕ) (entries : List PdoEntrySpec) {offset : ℤ}
    → register_entries calls slave domain entries ≡ ok offset
    → pos 0 ≤ℤ offset
unfolding register_entries
register_entries-le calls slave domain [] h = cc
register_entries-le calls slave domain (entry ∷ rest) h =
    elim (Bool-cases (ltb_ℤ (calls.register_entry slave entry domain) (pos 0))) [
      | inl e ↦ cc (rw e at h)
      | inr e ↦
          let (u, r, q) = >>=_inverse (register_rest calls slave domain rest) _ (rw e at h) in
          rw (← ok-injective (ok (calls.register_entry slave entry domain)) refl q) (ground arith)
    ]

module _ {F : Type 0} where
  slave_of_lem :
      (b : PdoBinding F) {slave : ℤ} → slave_of b ≡ ok slave → resolve_slave_position b ≡ ok slave
  slave_of_lem b h = grind arith

  -- The binding of a drive of the known type: its position, non-negative offsets, and the sizes of
  -- its profiles; all else is as it was.
  pub record IsConfigured (old new : PdoBinding F) : Type 0 where
    pub slave : ℤ
    pub rx_offset : ℤ
    pub tx_offset : ℤ
    pub known : is_mt_device_type old.type_name ≡ true
    pub resolved : resolve_slave_position old ≡ ok slave
    pub rx_inside : pos 0 ≤ℤ rx_offset
    pub tx_inside : pos 0 ≤ℤ tx_offset
    pub set_up : new ≡ with_offsets slave rx_offset tx_offset old

  pub configure_pdos-IsConfigured :
      (calls : MasterCalls) (fuel : ℕ) (force_remap : Bool) (master_fd : ℤ) (dc_enabled : Bool)
      (domain : ℕ) (selected : Bool) (old : PdoBinding F) {out : Bool × PdoBinding F}
      → configure_pdos calls fuel force_remap master_fd dc_enabled domain selected old ≡ ok out
      → IsConfigured old out.1
  unfolding configure_pdos
  configure_pdos-IsConfigured calls fuel force_remap master_fd dc_enabled domain selected old h =
      let rx = rx_pdo_spec old.rx_profile in
      let tx = tx_pdo_spec old.tx_profile in
      let (_, known, h1) = >>=_inverse (guard (is_mt_device_type old.type_name)) _ h in
      let (slave, at, h2) = >>=_inverse (slave_of old) _ h1 in
      let (_, _, h3) = >>=_inverse (request_preop calls fuel master_fd slave) _ h2 in
      let (_, _, h4) =
        >>=_inverse (guard (not force_remap || (remap_pdos calls slave pdo_spec rx tx).1)) _ h3 in
      let (_, _, h5) =
        >>=_inverse (guard (calls.slave_config slave pdo_spec.vendor_id pdo_spec.product_code)) _
          h4 in
      let (_, _, h6) = >>=_inverse (select_reference calls dc_enabled selected slave) _ h5 in
      let (_, _, h7) = >>=_inverse (guard (calls.config_pdos slave rx tx)) _ h6 in
      let (rx_offset, at_rx, h8) =
        >>=_inverse (register_entries calls slave domain rx.entries) _ h7 in
      let (tx_offset, at_tx, h9) =
        >>=_inverse (register_entries calls slave domain tx.entries) _ h8 in
      record {
        slave = slave;
        rx_offset = rx_offset;
        tx_offset = tx_offset;
        known = guard-true _ known;
        resolved = slave_of_lem old at;
        rx_inside = register_entries-le calls slave domain rx.entries at_rx;
        tx_inside = register_entries-le calls slave domain tx.entries at_tx;
        set_up = ap (λ p. p.1) (sym (ok-injective _ refl h9));
      }
