-- ===== src/Half/Roundtrip.antt =====
-- A half-precision value survives the way through single precision: all 2^16 patterns, by their
-- evaluation in 64 ranges of 1024.
use heimasdk_snapshot_migrat.Prelude.{
  ℕ, zero, suc, ◌+◌, ◌*◌, ◌/◌, ◌%◌, ◌<◌, ◌^◌, ◌≡◌, refl, Bool, true, false, not, ◌&&◌, ◌||◌, ◌==◌,
  arith, ==_iff, bit_and, ℕ_discrete,
}
use heimasdk_snapshot_migrat.Prelude.Int.{◌-ℤ◌}
use heimasdk_snapshot_migrat.Half.{single_to_half, half_to_single}

unfoldable pub all_below : ℕ → (ℕ → Bool) → Bool
all_below zero p = true
all_below (suc n) p = p n && all_below n p

both_true : (a b : Bool) → (a && b) ≡ true → (a ≡ true) × (b ≡ true)
both_true a b h = ground arith

pub all_below-true : (n : ℕ) (p : ℕ → Bool) → all_below n p ≡ true → (x : ℕ) → x < n → p x ≡ true
unfolding all_below
all_below-true zero p h x l = elim l [ ]
all_below-true (suc n) p h x l =
    let (here, below) = both_true (p n) (all_below n p) h in
    elim (ℕ_discrete x n) [ yes e ↦ rw e here | no d ↦ all_below-true n p below x (omega arith) ]

-- A not-a-number whose quiet bit is clear.
abbrev pub is_signalling : ℕ → Bool
is_signalling value =
    bit_and value 0x7c00 == 0x7c00 && not (bit_and value 0x03ff == 0) && bit_and value 0x0200 == 0

abbrev comes_back : ℕ → Bool
comes_back value = is_signalling value || single_to_half (half_to_single value) == value

every_half : all_below 64 (λ k. all_below 1024 (λ i. comes_back (k * 1024 + i))) ≡ true
unfolding all_below single_to_half half_to_single ◌-ℤ◌
every_half = refl

-- Every half-precision pattern but a signalling NaN comes back from single precision as it was:
-- zeros, subnormals, normals, infinities and quiet NaNs, of either sign.
pub single_to_half-half_to_single :
    (value : ℕ)
    → value < 2 ^ 16
    → is_signalling value ≡ false
    → single_to_half (half_to_single value) ≡ value
single_to_half-half_to_single value h s =
    let row = all_below-true 64 _ every_half (value / 1024) (omega arith) in
    let cell = all_below-true 1024 _ row (value % 1024) (omega arith) in
    let e : value / 1024 * 1024 + value % 1024 ≡ value = omega arith in
    let found : comes_back value ≡ true = rw e at cell in
    ground (arith, ==_iff (single_to_half (half_to_single value)) value)
