-- ===== src/Half.antt =====
-- src/common.cpp: `singleToHalf` and `halfToSingle`, on bit patterns. A shift of a 32-bit word to the
-- left keeps its low 32 bits; an `int` that may be negative is an integer of Prelude/Int.
pub mod Roundtrip
pub mod Heima
pub mod Agreement
mod Tests
use heimasdk_snapshot_migrat.Prelude.{
  ℕ, zero, suc, ◌+◌, ◌-◌, ◌*◌, ◌/◌, ◌%◌, ◌^◌, bit_and, bit_or, Bool, true, false, not, ◌&&◌,
  if◌then◌else◌, ◌==◌, ltb, leb,
}
use heimasdk_snapshot_migrat.Prelude.Int.{ℤ, pos, ◌-ℤ◌, leb_ℤ, ltb_ℤ, pos_part}

abbrev pub shift_right : ℕ → ℕ → ℕ
shift_right a n = a / 2 ^ n

abbrev pub shift_left : ℕ → ℕ → ℕ
shift_left a n = a * 2 ^ n % 2 ^ 32

-- The digits of a number below 2 ^ fuel.
abbrev bit_length : ℕ → ℕ → ℕ
bit_length zero a = 0
bit_length (suc fuel) a = let rest = bit_length fuel (a / 2) in if a == 0 then 0 else suc rest

-- `std::countl_zero` of a 32-bit word.
abbrev pub countl_zero : ℕ → ℕ
countl_zero a = 32 - bit_length 32 a

-- The branch of a result below the normal range; `down` is 14 - halfExp.
abbrev subnormal_half : ℕ → ℕ → ℕ → ℕ
subnormal_half half_sign mantissa down =
    let full = bit_or mantissa 0x00800000 in
    let half_mantissa = shift_right full down in
    let round_bit = shift_left 1 (down - 1) in
    if ltb 24 down
    then half_sign
    else if not (bit_and full round_bit == 0) && not (bit_and full (3 * round_bit - 1) == 0)
    then bit_or half_sign (half_mantissa + 1)
    else bit_or half_sign half_mantissa

pub single_to_half : ℕ → ℕ
single_to_half bits =
    let exponent = bit_and bits 0x7f800000 in
    let mantissa = bit_and bits 0x007fffff in
    let half_sign = shift_right (bit_and bits 0x80000000) 16 in
    let nan_bit = if mantissa == 0 then 0 else 0x0200 in
    let half_exp = pos (shift_right exponent 23) -ℤ pos 112 in
    let joined =
      bit_or (bit_or half_sign (shift_left (pos_part half_exp) 10)) (shift_right mantissa 13) in
    if exponent == 0x7f800000
    then bit_or (bit_or (bit_or half_sign 0x7c00) nan_bit) (shift_right mantissa 13) % 2 ^ 16
    else if leb_ℤ (pos 0x1f) half_exp
    then bit_or half_sign 0x7c00
    else if leb_ℤ half_exp (pos 0)
    then subnormal_half half_sign mantissa (pos_part (pos 14 -ℤ half_exp)) % 2 ^ 16
    else if not (bit_and mantissa 0x00001000 == 0) && not (bit_and mantissa 0x00002fff == 0)
    then (joined + 1) % 2 ^ 16
    else joined % 2 ^ 16

pub half_to_single : ℕ → ℕ
half_to_single value =
    let sign = shift_left (bit_and value 0x8000) 16 in
    let half_exp = bit_and value 0x7c00 in
    let half_mantissa = bit_and value 0x03ff in
    let exponent = shift_right half_exp 10 + 112 in
    let leading = countl_zero half_mantissa - 22 in
    if bit_and value 0x7fff == 0
    then shift_left value 16
    else if half_exp == 0x7c00
    then bit_or (bit_or sign 0x7f800000) (shift_left half_mantissa 13)
    else if half_exp == 0
    then bit_or (bit_or sign (shift_left (exponent - leading) 23))
        (bit_and (shift_left half_mantissa (14 + leading)) 0x7fffff)
    else bit_or (bit_or sign (shift_left exponent 23)) (shift_left half_mantissa 13)
