-- ===== src/Half/Heima.antt =====
-- src/heima_ecat_types.cpp: a second pair of half-precision conversions, and the choice of a
-- processor. A shift by 32 or more, which C++ leaves undefined, gives 0 here.
use heimasdk_snapshot_migrat.Prelude.{
  ℕ, ◌+◌, ◌-◌, ◌*◌, ◌%◌, ◌^◌, bit_and, bit_or, not, ◌&&◌, ◌||◌, if◌then◌else◌, ◌==◌, ltb,
}
use heimasdk_snapshot_migrat.Prelude.Int.{ℤ, pos, ◌-ℤ◌, ◌+ℤ◌, ◌*ℤ◌, leb_ℤ, ltb_ℤ, pos_part}
use heimasdk_snapshot_migrat.Half.{shift_right, shift_left, countl_zero}

-- `tv_sec` and `tv_nsec`.
abbrev pub timespec_to_ns : ℤ → ℤ → ℤ
timespec_to_ns seconds nanoseconds = seconds *ℤ pos 1000000000 +ℤ nanoseconds

-- Below the normal range; `down` is 14 - halfExp.
abbrev heima_subnormal_half : ℕ → ℕ → ℕ → ℕ
heima_subnormal_half half_sign man down =
    let full = bit_or man 0x00800000 in
    let half_man = shift_right full down in
    let round_bit = shift_left 1 (down - 1) in
    if ltb 24 down
    then half_sign
    else if not (bit_and full round_bit == 0) && not (bit_and full (3 * round_bit - 1) == 0)
    then bit_or half_sign (half_man + 1)
    else bit_or half_sign half_man

unfoldable pub heima_single_to_half : ℕ → ℕ
heima_single_to_half bits =
    let exponent = bit_and bits 0x7f800000 in
    let man = bit_and bits 0x007fffff in
    let half_sign = shift_right (bit_and bits 0x80000000) 16 in
    let nan_bit = if man == 0 then 0 else 0x0200 in
    let half_exp = pos (shift_right exponent 23) -ℤ pos 112 in
    let round_bit : ℕ = 0x00001000 in
    let joined =
      bit_or (bit_or half_sign (shift_left (pos_part half_exp) 10)) (shift_right man 13) in
    if exponent == 0x7f800000
    then bit_or (bit_or (bit_or half_sign 0x7c00) nan_bit) (shift_right man 13) % 2 ^ 16
    else if leb_ℤ (pos 0x1f) half_exp
    then bit_or half_sign 0x7c00
    else if leb_ℤ half_exp (pos 0)
    then heima_subnormal_half half_sign man (pos_part (pos 14 -ℤ half_exp)) % 2 ^ 16
    else if not (bit_and man round_bit == 0) && not (bit_and man (3 * round_bit - 1) == 0)
    then (joined + 1) % 2 ^ 16
    else joined % 2 ^ 16

unfoldable pub heima_half_to_single : ℕ → ℕ
heima_half_to_single value =
    let sign = shift_left (bit_and value 0x8000) 16 in
    let half_exp = bit_and value 0x7c00 in
    let half_man = bit_and value 0x03ff in
    let exponent = shift_right half_exp 10 + 112 in
    let e = countl_zero half_man - 6 in
    if bit_and value 0x7fff == 0
    then shift_left value 16
    else if half_exp == 0x7c00
    then bit_or (bit_or sign 0x7f800000) (shift_left half_man 13)
    else if half_exp == 0
    then bit_or (bit_or sign (shift_left (exponent - e) 23))
        (bit_and (shift_left half_man (14 + e)) 0x7fffff)
    else bit_or (bit_or sign (shift_left exponent 23)) (shift_left half_man 13)

-- `processor_count` is what `sysconf` returns.
unfoldable pub adjust_cpu : ℤ → ℤ → ℤ → ℤ
adjust_cpu processor_count cpu processor =
    let last = processor_count -ℤ pos 1 in
    if leb_ℤ processor_count (pos 0)
    then cpu
    else if leb_ℤ cpu (pos 0) || leb_ℤ processor_count cpu
    then (if ltb_ℤ processor last && ltb_ℤ (pos 0) processor then processor else last)
    else cpu
