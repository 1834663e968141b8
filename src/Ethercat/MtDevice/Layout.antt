-- ===== src/Ethercat/MtDevice/Layout.antt =====
-- The profiles fill the packed structs, and the spelling of a type name does not matter.
use heimasdk_snapshot_migrat.Prelude.{ℕ, ◌+◌, ◌*◌, ◌≡◌, refl, ◌⊎◌, List, [], ◌∷◌, arith, sym, ◌∙◌}
use heimasdk_snapshot_migrat.Ethercat.MtDevice.{
  RxProfile, TxProfile, PdoEntrySpec, rx_pdo_spec, tx_pdo_spec, rx_pdo_size, tx_pdo_size, to_upper,
  normalized, is_mt_device_type,
}

pub total_bits : List PdoEntrySpec → ℕ
total_bits [] = 0
total_bits (e ∷ es) = e.bit_length + total_bits es

-- The entries of each profile have as many bits as the struct that is copied to and from its place.
pub pdo_bits :
    (rx : RxProfile) (tx : TxProfile)
    → (total_bits (rx_pdo_spec rx).entries ≡ rx_pdo_size rx * 8)
      × (total_bits (tx_pdo_spec tx).entries ≡ tx_pdo_size tx * 8)
unfolding total_bits rx_pdo_spec tx_pdo_spec rx_pdo_size tx_pdo_size
pdo_bits RxProfile.standard TxProfile.standard = (refl, refl)
pdo_bits RxProfile.standard TxProfile.extended = (refl, refl)
pdo_bits RxProfile.pvt TxProfile.standard = (refl, refl)
pdo_bits RxProfile.pvt TxProfile.extended = (refl, refl)

-- Two spellings of one name: letters in either case, and `_` and `-` anywhere.
pub data SameName : List ℕ → List ℕ → Type 0 where
  done : SameName [] []
  letter :
      {c d : ℕ} {xs ys : List ℕ}
      → to_upper c ≡ to_upper d
      → SameName xs ys
      → SameName (c ∷ xs) (d ∷ ys)
  dash_left :
      {c : ℕ} {xs ys : List ℕ} → (c ≡ b'_') ⊎ (c ≡ b'-') → SameName xs ys → SameName (c ∷ xs) ys
  dash_right :
      {c : ℕ} {xs ys : List ℕ} → (c ≡ b'_') ⊎ (c ≡ b'-') → SameName xs ys → SameName xs (c ∷ ys)

normalized-dash :
    (c : ℕ) (xs : List ℕ) → (c ≡ b'_') ⊎ (c ≡ b'-') → normalized (c ∷ xs) ≡ normalized xs
unfolding normalized
normalized-dash c xs h = ground arith

normalized-letter :
    (c d : ℕ) (xs ys : List ℕ)
    → to_upper c ≡ to_upper d
    → normalized xs ≡ normalized ys
    → normalized (c ∷ xs) ≡ normalized (d ∷ ys)
unfolding normalized
normalized-letter c d xs ys h e = ground arith

SameName-normalized : {xs ys : List ℕ} → SameName xs ys → normalized xs ≡ normalized ys
SameName-normalized done = refl
SameName-normalized (letter {c} {d} {xs} {ys} h s) =
    normalized-letter c d xs ys h (SameName-normalized s)
SameName-normalized (dash_left {c} {xs} {ys} h s) = normalized-dash c xs h ∙ SameName-normalized s
SameName-normalized (dash_right {c} {xs} {ys} h s) =
    SameName-normalized s ∙ sym (normalized-dash c ys h)

-- All spellings of a type name get the same answer.
pub is_mt_device_type-SameName :
    {xs ys : List ℕ} → SameName xs ys → is_mt_device_type xs ≡ is_mt_device_type ys
unfolding is_mt_device_type
is_mt_device_type-SameName s = rw (SameName-normalized s)
