-- ===== src/Prelude/Bits.antt =====
-- Bits of a number at variables: the digit steps of the native operations, single bits, and masks
-- of low bits.
use Prim.Native.Nat.{
  ℕ, zero, suc, ◌+◌, ◌*◌, ◌/◌, ◌%◌, ◌^◌, ◌≤◌, ◌<◌, min, max, digits, bitwise, bit_and, bit_or,
  bit_and-bitwise, bit_or-bitwise,
}
use mathlib.Core.Path.{◌≡◌, refl, ap, ◌∙◌}
use mathlib.Core.Logic.{◌≢◌}
use native.Mathlib.Nat.{pow-suc}
use native.Mathlib.Omega.{arith}

module _ (on_rest : ℕ → ℕ) (on_bits : ℕ → ℕ → ℕ) where
  -- Fuel beyond the first operand has no effect.
  spare_fuel :
      (x y fuel more : ℕ)
      → x ≤ fuel
      → fuel ≤ more
      → digits on_rest on_bits more x y ≡ digits on_rest on_bits fuel x y
  spare_fuel zero y (suc fuel) (suc more) low high = refl
  spare_fuel zero y zero (suc more) low high = refl
  spare_fuel zero y zero zero low high = refl
  spare_fuel (suc x) y (suc fuel) (suc more) low high =
      ap (λ (t : ℕ). t * 2 + on_bits (suc x % 2) (y % 2))
        (spare_fuel (suc x / 2) (y / 2) fuel more (omega arith) (omega arith))
  spare_fuel x y (suc fuel) zero low high = elim high [ ]
  spare_fuel (suc x) y zero more low high = elim low [ ]

  lowest_digit :
      (x y : ℕ)
      → bitwise on_rest on_bits (suc x) y
        ≡ on_bits (suc x % 2) (y % 2) + bitwise on_rest on_bits (suc x / 2) (y / 2) * 2
  lowest_digit x y =
      let half = suc x / 2 in
      omega (arith, spare_fuel half (y / 2) half x (omega arith) (omega arith))

pub bit_and_step : (x y : ℕ) → bit_and x y ≡ min (x % 2) (y % 2) + bit_and (x / 2) (y / 2) * 2
bit_and_step (suc x) y = simp bit_and-bitwise (lowest_digit (λ rest. 0) min x y)
bit_and_step zero y = simp bit_and-bitwise (omega arith)

pub bit_or_step : (x y : ℕ) → bit_or x y ≡ max (x % 2) (y % 2) + bit_or (x / 2) (y / 2) * 2
bit_or_step (suc x) y = simp bit_or-bitwise (lowest_digit (λ rest. rest) max x y)
bit_or_step zero y = simp bit_or-bitwise (omega arith)

-- Bit `i` of `a`, 0 or 1.
unfoldable pub bit_of : ℕ → ℕ → ℕ
bit_of zero a = a % 2
bit_of (suc i) a = bit_of i (a / 2)

pub bit_of-le : (i a : ℕ) → bit_of i a ≤ 1
unfolding bit_of
bit_of-le zero a = omega arith
bit_of-le (suc i) a = bit_of-le i (a / 2)

pub bit_of-bit_and : (i a b : ℕ) → bit_of i (bit_and a b) ≡ min (bit_of i a) (bit_of i b)
unfolding bit_of
bit_of-bit_and zero a b = omega (arith, bit_and_step a b)
bit_of-bit_and (suc i) a b = ap (bit_of i) halved ∙ bit_of-bit_and i (a / 2) (b / 2)
  where
    halved : bit_and a b / 2 ≡ bit_and (a / 2) (b / 2)
    halved = omega (arith, bit_and_step a b)

pub bit_of-bit_or : (i a b : ℕ) → bit_of i (bit_or a b) ≡ max (bit_of i a) (bit_of i b)
unfolding bit_of
bit_of-bit_or zero a b = omega (arith, bit_or_step a b)
bit_of-bit_or (suc i) a b = ap (bit_of i) halved ∙ bit_of-bit_or i (a / 2) (b / 2)
  where
    halved : bit_or a b / 2 ≡ bit_or (a / 2) (b / 2)
    halved = omega (arith, bit_or_step a b)

pub bit_of-zero : (i : ℕ) → bit_of i 0 ≡ 0
unfolding bit_of
bit_of-zero zero = refl
bit_of-zero (suc i) = bit_of-zero i

halve_pow : (i : ℕ) → 2 ^ suc i / 2 ≡ 2 ^ i
halve_pow i = omega (arith, pow-suc 2 i)

pub bit_of-pow_self : (i : ℕ) → bit_of i (2 ^ i) ≡ 1
unfolding bit_of
bit_of-pow_self zero = refl
bit_of-pow_self (suc i) = ap (bit_of i) (halve_pow i) ∙ bit_of-pow_self i

pub bit_of-pow_ne : (i j : ℕ) → i ≢ j → bit_of i (2 ^ j) ≡ 0
unfolding bit_of
bit_of-pow_ne zero zero h = absurd (h refl)
bit_of-pow_ne zero (suc j) h = omega (arith, pow-suc 2 j)
bit_of-pow_ne (suc i) zero h = bit_of-zero i
bit_of-pow_ne (suc i) (suc j) h =
    ap (bit_of i) (halve_pow j) ∙ bit_of-pow_ne i j (λ e. h (ap suc e))

-- Two numbers with the same bits are equal.
eq_of_bits_below : (n a b : ℕ) → a ≤ n → b ≤ n → ((i : ℕ) → bit_of i a ≡ bit_of i b) → a ≡ b
unfolding bit_of
eq_of_bits_below zero a b p q h = omega arith
eq_of_bits_below (suc n) a b p q h =
    omega
      (arith, h 0, eq_of_bits_below n (a / 2) (b / 2) (omega arith) (omega arith) (λ i. h (suc i)))

pub eq_of_bits : (a b : ℕ) → ((i : ℕ) → bit_of i a ≡ bit_of i b) → a ≡ b
eq_of_bits a b h = eq_of_bits_below (a + b) a b (omega arith) (omega arith) h

pub bit_and-zero : (a : ℕ) → bit_and a 0 ≡ 0
bit_and-zero a =
    eq_of_bits (bit_and a 0) 0 (λ i. omega (arith, bit_of-bit_and i a 0, bit_of-zero i))

pub bit_or-zero : (a : ℕ) → bit_or a 0 ≡ a
bit_or-zero a = eq_of_bits (bit_or a 0) a (λ i. omega (arith, bit_of-bit_or i a 0, bit_of-zero i))

-- A test `(mask & bit) != 0` of one bit reads that bit.
pub bit_and-pow : (i a : ℕ) → bit_and a (2 ^ i) ≡ bit_of i a * 2 ^ i
unfolding bit_of
bit_and-pow zero a = omega (arith, bit_and_step a 1, bit_and-zero (a / 2))
bit_and-pow (suc i) a = omega (
  arith,
  bit_and_step a (2 ^ suc i),
  pow-suc 2 i,
  ap (bit_and (a / 2)) (halve_pow i),
  bit_and-pow i (a / 2),
  ap (λ (t : ℕ). bit_of i (a / 2) * t) (pow-suc 2 i),
)

-- `x & 3`, and `(v << 2) | i`.
pub bit_and_three : (a : ℕ) → bit_and a 3 ≡ a % 4
bit_and_three a = omega (arith, bit_and_step a 3, bit_and_step (a / 2) 1, bit_and-zero (a / 2 / 2))

halves : (v : ℕ) → v * 4 / 2 / 2 ≡ v
halves v = omega arith

no_high_bits : (i : ℕ) → i < 4 → i / 2 / 2 ≡ 0
no_high_bits i h = omega arith

pub bit_or_two_bits : (v i : ℕ) → i < 4 → bit_or (v * 4) i ≡ v * 4 + i
bit_or_two_bits v i h = omega (
  arith,
  bit_or_step (v * 4) i,
  bit_or_step (v * 4 / 2) (i / 2),
  ap (λ (t : ℕ). bit_or t (i / 2 / 2)) (halves v),
  ap (bit_or v) (no_high_bits i h),
  bit_or-zero v,
)

-- `x & 0x0f` and `x & 0xff`.
pub bit_and_nibble : (a : ℕ) → bit_and a 0x0f ≡ a % 16
bit_and_nibble a = omega (
  arith,
  bit_and_step a 15,
  bit_and_step (a / 2) 7,
  bit_and_step (a / 2 / 2) 3,
  bit_and_step (a / 2 / 2 / 2) 1,
  bit_and-zero (a / 2 / 2 / 2 / 2),
)

pub bit_and_byte : (a : ℕ) → bit_and a 0xff ≡ a % 256
bit_and_byte a = omega (
  arith,
  bit_and_step a 255,
  bit_and_step (a / 2) 127,
  bit_and_step (a / 2 / 2) 63,
  bit_and_step (a / 2 / 2 / 2) 31,
  bit_and_nibble (a / 2 / 2 / 2 / 2),
)

-- `(a << 4) | b` and `(a << 8) | b`.
pub bit_or_nibble : (a b : ℕ) → b < 16 → bit_or (a * 16) b ≡ a * 16 + b
bit_or_nibble a b h = omega (
  arith,
  bit_or_step (a * 16) b,
  ap (λ (t : ℕ). bit_or t (b / 2)) half1,
  bit_or_step (a * 8) (b / 2),
  ap (λ (t : ℕ). bit_or t (b / 2 / 2)) half2,
  bit_or_two_bits a (b / 2 / 2) (omega arith),
)
  where
    half1 : a * 16 / 2 ≡ a * 8
    half1 = omega arith

    half2 : a * 8 / 2 ≡ a * 4
    half2 = omega arith

pub bit_or_byte : (a b : ℕ) → b < 256 → bit_or (a * 256) b ≡ a * 256 + b
bit_or_byte a b h = omega (
  arith,
  bit_or_step (a * 256) b,
  ap (λ (t : ℕ). bit_or t (b / 2)) half1,
  bit_or_step (a * 128) (b / 2),
  ap (λ (t : ℕ). bit_or t (b / 2 / 2)) half2,
  bit_or_step (a * 64) (b / 2 / 2),
  ap (λ (t : ℕ). bit_or t (b / 2 / 2 / 2)) half3,
  bit_or_step (a * 32) (b / 2 / 2 / 2),
  ap (λ (t : ℕ). bit_or t (b / 2 / 2 / 2 / 2)) half4,
  bit_or_nibble a (b / 2 / 2 / 2 / 2) (omega arith),
)
  where
    half1 : a * 256 / 2 ≡ a * 128
    half1 = omega arith

    half2 : a * 128 / 2 ≡ a * 64
    half2 = omega arith

    half3 : a * 64 / 2 ≡ a * 32
    half3 = omega arith

    half4 : a * 32 / 2 ≡ a * 16
    half4 = omega arith
