-- ===== src/Half/Agreement.antt =====
-- The two pairs of conversions against each other, and the bounds of the chosen processor.
use heimasdk_snapshot_migrat.Prelude.{
  ℕ, ◌+◌, ◌-◌, ◌*◌, ◌/◌, ◌%◌, ◌<◌, ◌≤◌, ◌^◌, ◌≡◌, ◌≢◌, refl, Bool, true, false, not, ◌&&◌, ◌||◌,
  ◌==◌, arith, bit_and, if◌then◌else◌, ltb,
}
use heimasdk_snapshot_migrat.Prelude.Int.{ℤ, pos, ◌-ℤ◌, ◌≤ℤ◌}
use heimasdk_snapshot_migrat.Half.{single_to_half, half_to_single}
use heimasdk_snapshot_migrat.Half.Heima.{heima_single_to_half, heima_half_to_single, adjust_cpu}
use heimasdk_snapshot_migrat.Half.Roundtrip.{all_below, all_below-true}

-- The two conversions to half precision are one function.
pub heima_single_to_half-agrees : (bits : ℕ) → heima_single_to_half bits ≡ single_to_half bits
unfolding heima_single_to_half single_to_half
heima_single_to_half-agrees bits = refl

-- With at least one processor, whatever is asked for, the choice is one of those that are there.
pub adjust_cpu-bounds :
    (count : ℕ) (cpu processor : ℤ)
    → 0 < count
    → (pos 0 ≤ℤ adjust_cpu (pos count) cpu processor)
      × (adjust_cpu (pos count) cpu processor ≤ℤ pos (count - 1))
unfolding adjust_cpu ◌-ℤ◌
adjust_cpu-bounds count cpu processor h = ground arith

abbrev pub is_subnormal : ℕ → Bool
is_subnormal value = bit_and value 0x7c00 == 0 && not (bit_and value 0x03ff == 0)

-- Below a mantissa of 256 the shift of the second conversion is undefined.
abbrev differs_at_subnormals : ℕ → Bool
differs_at_subnormals value =
    if is_subnormal value
    then (ltb (bit_and value 0x03ff) 256
        || not (heima_half_to_single value == half_to_single value))
    else heima_half_to_single value == half_to_single value

every_half : all_below 64 (λ k. all_below 1024 (λ i. differs_at_subnormals (k * 1024 + i))) ≡ true
unfolding all_below heima_half_to_single half_to_single
every_half = refl

at_half : (value : ℕ) → value < 2 ^ 16 → differs_at_subnormals value ≡ true
at_half value h =
    let row = all_below-true 64 _ every_half (value / 1024) (omega arith) in
    let cell = all_below-true 1024 _ row (value % 1024) (omega arith) in
    let e : value / 1024 * 1024 + value % 1024 ≡ value = omega arith in rw e at cell

-- The two conversions from half precision agree on every pattern that is not subnormal, and on
-- no subnormal one with a mantissa of 256 or more.
pub heima_half_to_single-differs :
    (value : ℕ)
    → value < 2 ^ 16
    → (is_subnormal value ≡ false → heima_half_to_single value ≡ half_to_single value)
      × (is_subnormal value ≡ true
          → 256 ≤ bit_and value 0x03ff
          → heima_half_to_single value ≢ half_to_single value)
heima_half_to_single-differs value h = ground (arith, at_half value h)
