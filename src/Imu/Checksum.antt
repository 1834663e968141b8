-- ===== src/Imu/Checksum.antt =====
-- The checksum of an XSENS frame.
use heimasdk_snapshot_migrat.Prelude.{
  ℕ, ◌+◌, ◌%◌, ◌<◌, ◌≡◌, ◌↔◌, refl, true, List, arith, get_or, ◌==◌, Bool-cases, inl, inr,
}
use heimasdk_snapshot_migrat.Imu.{sum_from, xsens_ids_valid, xsens_checksum, valid_xsens}

-- The data ids alone exceed a byte, so that the unnegated branch of the code is never taken.
ids-sum : (frame : List ℕ) → xsens_ids_valid frame ≡ true → 255 < sum_from 1 48 frame
unfolding xsens_ids_valid sum_from
ids-sum frame h = ground arith

checksum_lem :
    (sum last : ℕ)
    → 255 < sum
    → last < 256
    → ((xsens_checksum sum == last) ≡ true) ↔ ((sum + last) % 256 ≡ 0)
unfolding xsens_checksum
checksum_lem sum last h l = ground arith

-- An XSENS frame with a byte in its last place is accepted exactly if its data ids are those of the
-- two known layouts and all bytes after the first add up to 0 modulo 256.
pub valid_xsens_lem :
    (frame : List ℕ)
    → get_or frame 49 0 < 256
    → (valid_xsens frame ≡ true)
      ↔ ((xsens_ids_valid frame ≡ true) × ((sum_from 1 48 frame + get_or frame 49 0) % 256 ≡ 0))
unfolding valid_xsens
valid_xsens_lem frame l = elim (Bool-cases (xsens_ids_valid frame)) [
  | inl e ↦ rw e (
      let (f, g) = checksum_lem (sum_from 1 48 frame) (get_or frame 49 0) (ids-sum frame e) l in
      (λ h. (refl, f h), λ h. g h.1))
  | inr e ↦ rw e (λ h. cc, λ h. cc)
]
