-- ===== src/Ethercat/Snapshot.antt =====
-- src/rmd_ethercat_snapshot.cpp, but for its debug print: the domain memory read into the actual
-- frame, and targets written to it. A null domain is `none`.
pub mod Writing
pub mod Packing
pub mod Reading
pub mod Commands
use heimasdk_snapshot_migrat.Prelude.{
  ℕ, zero, suc, ◌-◌, Bool, true, false, not, ◌&&◌, List, [], ◌∷◌, Option, none, some, if◌then◌else◌,
  ltb, leb, ◌==◌, drop, update,
}
use heimasdk_snapshot_migrat.Prelude.Int.{ℤ, pos, negsuc, pos_part}
use heimasdk_snapshot_migrat.Motor.{Float, MotorTarget, MotorActual, default_target}
use heimasdk_snapshot_migrat.Motor.Limits.{mark_actual_stale}
use heimasdk_snapshot_migrat.Ethercat.MtDevice.{RxProfile, TxProfile, rx_pdo_size, tx_pdo_size}
use heimasdk_snapshot_migrat.Ethercat.Frames.{
  TargetFrame, ActualFrame, PackedTarget, PackedFrame, default_packed, max_realtime_motors,
}
use heimasdk_snapshot_migrat.Ethercat.Pdo.{
  pack_standard_rx, pack_pvt_rx, parse_standard_tx, parse_tx, control_word,
}
use heimasdk_snapshot_migrat.Ethercat.Pdo.Bytes.{
  standard_rx_bytes, pvt_rx_bytes, standard_rx_of, pvt_rx_of, standard_tx_of, driver_tx_of,
}
use heimasdk_snapshot_migrat.Ethercat.Bindings.{PdoBinding}

abbrev pub has_byte_range : ℤ → ℕ → ℕ → Bool
has_byte_range (negsuc n) extent domain_size = false
has_byte_range (pos begin) extent domain_size =
    leb begin domain_size && leb extent (domain_size - begin)

-- `memcpy(domain + at, bytes)`. The list is the memory from `domain` on as far as it is known: a write
-- past its end makes it longer, by what is written and by what lies between, which is 0 here.
pub write_at : ℕ → List ℕ → List ℕ → List ℕ
write_at at [] domain = domain
write_at zero (b ∷ bs) [] = b ∷ write_at zero bs []
write_at zero (b ∷ bs) (d ∷ ds) = b ∷ write_at zero bs ds
write_at (suc at) (b ∷ bs) [] = 0 ∷ write_at at (b ∷ bs) []
write_at (suc at) (b ∷ bs) (d ∷ ds) = d ∷ write_at at (b ∷ bs) ds

abbrev size_or : ℕ → ℕ → ℕ
size_or size profile_size = if size == 0 then profile_size else size

module _ {F : Type 0} where
  -- The guard of a binding's share in the loop of both writes.
  abbrev pub is_written : ℕ → PdoBinding F → Bool
  is_written domain_size binding =
      ltb binding.global_index max_realtime_motors
      && has_byte_range binding.rx_offset (size_or binding.rx_size (rx_pdo_size binding.rx_profile))
          domain_size

  abbrev pub status_word_of : ActualFrame F → ℕ → ℕ
  status_word_of actuals i = if actuals.valid i then (actuals.actuals i).status_word else 0xffff

  abbrev pub mark_stale_at : ℕ → ActualFrame F → ActualFrame F
  mark_stale_at i frame = record frame {
    actuals = update frame.actuals i (mark_actual_stale (frame.actuals i));
    valid = update frame.valid i false;
    stale = update frame.stale i true;
  }

  abbrev pub put_actual : ℕ → MotorActual F → ActualFrame F → ActualFrame F
  put_actual i actual frame = record frame {
    actuals = update frame.actuals i actual;
    valid = update frame.valid i true;
    stale = update frame.stale i false;
  }

module _ {F : Type 0} ⦃fl : Float F⦄ where
  abbrev pub actual_at : List ℕ → PdoBinding F → MotorActual F
  actual_at domain binding = elim binding.tx_profile [
    | TxProfile.standard ↦
        parse_standard_tx (standard_tx_of (drop (pos_part binding.tx_offset) domain))
          binding.parameters
    | TxProfile.extended ↦
        parse_tx (driver_tx_of (drop (pos_part binding.tx_offset) domain)) binding.parameters
  ]

  pub read_binding : Option (List ℕ) → ℕ → PdoBinding F → ActualFrame F → ActualFrame F
  read_binding none domain_size binding frame =
      if not (ltb binding.global_index max_realtime_motors)
      then frame
      else mark_stale_at binding.global_index frame
  read_binding (some domain) domain_size binding frame =
      if not (ltb binding.global_index max_realtime_motors)
      then frame
      else if not (
          has_byte_range binding.tx_offset
            (size_or binding.tx_size (tx_pdo_size binding.tx_profile)) domain_size)
      then mark_stale_at binding.global_index frame
      else put_actual binding.global_index (actual_at domain binding) frame

  pub read_snapshot : Option (List ℕ) → ℕ → List (PdoBinding F) → ActualFrame F → ActualFrame F
  read_snapshot domain domain_size [] frame = frame
  read_snapshot domain domain_size (binding ∷ rest) frame =
      read_snapshot domain domain_size rest (read_binding domain domain_size binding frame)

  -- The bytes of a target of the user, with the control word that the drive's status calls for.
  pub target_bytes : PdoBinding F → MotorTarget F → ℕ → List ℕ
  target_bytes binding target status_word =
      let word = control_word target.enabled status_word in
      elim binding.rx_profile [
        | RxProfile.standard ↦
            standard_rx_bytes
              (record (pack_standard_rx target binding.parameters) { control_word = word })
        | RxProfile.pvt ↦
            pvt_rx_bytes (record (pack_pvt_rx target binding.parameters) { control_word = word })
      ]

  pub write_binding : ℕ → TargetFrame F → ActualFrame F → PdoBinding F → List ℕ → List ℕ
  write_binding domain_size targets actuals binding domain =
      let i = binding.global_index in
      if is_written domain_size binding
      then write_at (pos_part binding.rx_offset)
          (target_bytes binding (if targets.valid i then targets.targets i else default_target)
            (status_word_of actuals i))
          domain
      else domain

  pub write_bindings : ℕ → TargetFrame F → ActualFrame F → List (PdoBinding F) → List ℕ → List ℕ
  write_bindings domain_size targets actuals [] domain = domain
  write_bindings domain_size targets actuals (binding ∷ rest) domain =
      write_bindings domain_size targets actuals rest
        (write_binding domain_size targets actuals binding domain)

  pub write_snapshot :
      Option (List ℕ) → ℕ → List (PdoBinding F) → TargetFrame F → ActualFrame F → Option (List ℕ)
  write_snapshot none domain_size bindings targets actuals = none
  write_snapshot (some domain) domain_size bindings targets actuals =
      some (write_bindings domain_size targets actuals bindings domain)

module _ {F : Type 0} where
  -- The bytes of a packed target; the profile is the binding's, not the one it was packed with.
  pub packed_bytes : PdoBinding F → PackedTarget → ℕ → List ℕ
  packed_bytes binding target status_word =
      let word = control_word target.enabled status_word in
      elim binding.rx_profile [
        | RxProfile.standard ↦
            standard_rx_bytes (record (standard_rx_of target.rx_bytes) { control_word = word })
        | RxProfile.pvt ↦ pvt_rx_bytes (record (pvt_rx_of target.rx_bytes) { control_word = word })
      ]

  pub write_packed_binding : ℕ → PackedFrame → ActualFrame F → PdoBinding F → List ℕ → List ℕ
  write_packed_binding domain_size targets actuals binding domain =
      let i = binding.global_index in
      if is_written domain_size binding
      then write_at (pos_part binding.rx_offset)
          (packed_bytes binding (if targets.valid i then targets.targets i else default_packed)
            (status_word_of actuals i))
          domain
      else domain

  pub write_packed_bindings :
      ℕ → PackedFrame → ActualFrame F → List (PdoBinding F) → List ℕ → List ℕ
  write_packed_bindings domain_size targets actuals [] domain = domain
  write_packed_bindings domain_size targets actuals (binding ∷ rest) domain =
      write_packed_bindings domain_size targets actuals rest
        (write_packed_binding domain_size targets actuals binding domain)

  unfoldable pub write_packed_snapshot :
      Option (List ℕ) → ℕ → List (PdoBinding F) → PackedFrame → ActualFrame F → Option (List ℕ)
  write_packed_snapshot none domain_size bindings targets actuals = none
  write_packed_snapshot (some domain) domain_size bindings targets actuals =
      some (write_packed_bindings domain_size targets actuals bindings domain)
