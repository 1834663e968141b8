-- ===== src/Ethercat/Bindings/Profiles.antt =====
-- The profiles that the operating modes give to the bindings.
use heimasdk_snapshot_migrat.Prelude.{
  has_elem, ℕ, ◌<◌, ◌≡◌, refl, true, false, List, [], ◌∷◌, some, ok, length, get_elem?, Bool-cases,
  inl, inr,
}
use heimasdk_snapshot_migrat.Prelude.Int.{ℤ}
use heimasdk_snapshot_migrat.Ethercat.MtDevice.{
  rx_profile_for_mode, rx_pdo_size, tx_pdo_size, is_mt_device_type,
}
use heimasdk_snapshot_migrat.Ethercat.Bindings.{PdoBinding, with_profiles, assign_profiles}

module _ {F : Type 0} where
  abbrev pub AllBelow : ℕ → List (PdoBinding F) → Type 0
  AllBelow n [] = Unit
  AllBelow n (b ∷ bs) = (b.global_index < n) × AllBelow n bs

  -- A drive of the known type has the profile of its mode, and the sizes of its profiles; any other
  -- binding, and all else of a binding, is as it was.
  pub record HasProfile (modes : List ℤ) (old new : PdoBinding F) : Type 0 where
    pub index : new.global_index ≡ old.global_index
    pub offset : (new.rx_offset ≡ old.rx_offset) × (new.tx_offset ≡ old.tx_offset)
    pub unknown : is_mt_device_type old.type_name ≡ false → new ≡ old
    pub known :
        is_mt_device_type old.type_name ≡ true
        → (mode : ℤ) × (get_elem? modes old.global_index ≡ some mode)
          × (new.rx_profile ≡ rx_profile_for_mode mode)
          × (new.rx_size ≡ rx_pdo_size new.rx_profile)
          × (new.tx_size ≡ tx_pdo_size new.tx_profile)

  pub data AllProfiles (modes : List ℤ) : List (PdoBinding F) → List (PdoBinding F) → Type 0 where
    none_left : AllProfiles modes [] []
    one_more :
        {b c : PdoBinding F} {bs cs : List (PdoBinding F)}
        → HasProfile modes b c
        → AllProfiles modes bs cs
        → AllProfiles modes (b ∷ bs) (c ∷ cs)

module _ {F : Type 0} where
  -- With a mode for every binding no profile is missing: each drive of the known type gets the
  -- profile of its own motor's mode, with the sizes of its profiles, and the others stay as they are.
  pub assign_profiles-AllProfiles :
      (bindings : List (PdoBinding F)) (modes : List ℤ)
      → AllBelow (length modes) bindings
      → (out : List (PdoBinding F)) × (assign_profiles bindings modes ≡ ok out)
        × AllProfiles modes bindings out
  unfolding assign_profiles
  assign_profiles-AllProfiles [] modes h = ([], refl, none_left)
  assign_profiles-AllProfiles (b ∷ bs) modes h =
      let (out, e, p) = assign_profiles-AllProfiles bs modes h.1 in
      let (mode, m) = has_elem modes b.global_index h.0 in
      elim (Bool-cases (is_mt_device_type b.type_name)) [
        | inl k ↦ (
          with_profiles (rx_profile_for_mode mode) b ∷ out,
          rw (k, m, e, assign_profiles) refl,
          one_more
              (record {
                index = refl;
                offset = (refl, refl);
                unknown = λ u. cc;
                known = λ q. (mode, m, refl, refl, refl);
              })
              p,
        )
        | inr k ↦ (
          b ∷ out,
          rw (k, e) refl,
          one_more
              (record { index = refl; offset = (refl, refl); unknown = λ u. refl; known = λ q. cc })
              p,
        )
      ]
