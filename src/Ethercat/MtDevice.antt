-- ===== src/Ethercat/MtDevice.antt =====
-- src/rmd_ethercat_mt_device.cpp and its header: the process data profiles of an MT_Device drive.
pub mod Layout
use heimasdk_snapshot_migrat.Prelude.{
  ℕ, ◌+◌, ◌-◌, Bool, true, false, ◌&&◌, ◌||◌, List, [], ◌∷◌, if◌then◌else◌, ◌==◌, leb, codes,
}
use heimasdk_snapshot_migrat.Prelude.Int.{ℤ, pos, ◌==ℤ◌}

pub data RxProfile : Type 0 where
  standard pvt : RxProfile

pub data TxProfile : Type 0 where
  standard extended : TxProfile

pub record PdoEntrySpec : Type 0 where
  pub index : ℕ
  pub subindex : ℕ
  pub bit_length : ℕ

pub record PdoProfileSpec : Type 0 where
  pub pdo_index : ℕ
  pub entries : List PdoEntrySpec

pub record PdoSpec : Type 0 where
  pub vendor_id : ℕ
  pub product_code : ℕ
  pub rx_assignment_index : ℕ
  pub tx_assignment_index : ℕ

abbrev pub pdo_spec : PdoSpec
pdo_spec = record {
  vendor_id = 0x00202008;
  product_code = 0x00000000;
  rx_assignment_index = 0x1c12;
  tx_assignment_index = 0x1c13;
}

abbrev pub rx_profile_for_mode : ℤ → RxProfile
rx_profile_for_mode mode = if mode ==ℤ pos 5 then RxProfile.pvt else RxProfile.standard

abbrev pub entry : ℕ → ℕ → PdoEntrySpec
entry index bits = record { index = index; subindex = 0x00; bit_length = bits }

unfoldable pub rx_pdo_spec : RxProfile → PdoProfileSpec
rx_pdo_spec RxProfile.standard = record {
  pdo_index = 0x1600;
  entries =
      entry 0x6040 16
      ∷ entry 0x607a 32
      ∷ entry 0x60ff 32
      ∷ entry 0x6071 16
      ∷ entry 0x6072 16
      ∷ entry 0x6060 8
      ∷ entry 0x2ffd 8
      ∷ [];
}
rx_pdo_spec RxProfile.pvt = record {
  pdo_index = 0x1601;
  entries =
      entry 0x6040 16
      ∷ entry 0x607a 32
      ∷ entry 0x60ff 32
      ∷ entry 0x6071 16
      ∷ entry 0x2000 32
      ∷ entry 0x2001 32
      ∷ entry 0x6060 8
      ∷ entry 0x2ffd 8
      ∷ [];
}

unfoldable pub tx_pdo_spec : TxProfile → PdoProfileSpec
tx_pdo_spec TxProfile.standard = record {
  pdo_index = 0x1a00;
  entries =
      entry 0x6041 16
      ∷ entry 0x6064 32
      ∷ entry 0x606c 32
      ∷ entry 0x6077 16
      ∷ entry 0x603f 16
      ∷ entry 0x6061 8
      ∷ entry 0x2ffe 8
      ∷ [];
}
tx_pdo_spec TxProfile.extended = record {
  pdo_index = 0x1a02;
  entries =
      entry 0x6041 16
      ∷ entry 0x6064 32
      ∷ entry 0x606c 32
      ∷ entry 0x6077 16
      ∷ entry 0x603f 16
      ∷ entry 0x2009 16
      ∷ entry 0x200c 16
      ∷ entry 0x200a 16
      ∷ entry 0x6061 8
      ∷ entry 0x2ffe 8
      ∷ [];
}

-- `sizeof` of the packed structs.
unfoldable pub rx_pdo_size : RxProfile → ℕ
rx_pdo_size RxProfile.standard = 16
rx_pdo_size RxProfile.pvt = 22

pub tx_pdo_size : TxProfile → ℕ
tx_pdo_size TxProfile.standard = 16
tx_pdo_size TxProfile.extended = 22

-- `std::toupper` in the C locale.
abbrev pub to_upper : ℕ → ℕ
to_upper c = if leb b'a' c && leb c b'z' then c - 32 else c

unfoldable pub normalized : List ℕ → List ℕ
normalized [] = []
normalized (c ∷ cs) = if c == b'_' || c == b'-' then normalized cs else to_upper c ∷ normalized cs

abbrev pub bytes_eq : List ℕ → List ℕ → Bool
bytes_eq [] [] = true
bytes_eq (a ∷ as') (b ∷ bs) = a == b && bytes_eq as' bs
bytes_eq _ _ = false

unfoldable pub is_mt_device_type : List ℕ → Bool
unfolding normalized
is_mt_device_type type_name = bytes_eq (normalized type_name) (codes "MTDEVICE")
