-- ===== src/BenchWorkflow/Numbers.antt =====
-- `parseNonNegativeInt`, with the `strtol` of the C library for base 10, and the numbers that it
-- reads back. A number too large for `strtol` is above the limit all the same.
use mathlib.Core.List.{append_assoc, append-nil}
use heimasdk_snapshot_migrat.Prelude.{
  ℕ, zero, suc, ◌+◌, ◌-◌, ◌*◌, ◌/◌, ◌%◌, ◌≤◌, ◌<◌, ◌≡◌, refl, sym, ◌∙◌, ap, ◌⊎◌, inl, inr, Bool,
  true, false, ◌&&◌, ◌||◌, List, [], ◌∷◌, ◌++◌, Option, none, some, arith, Bool-cases,
  if◌then◌else◌, ◌==◌, ltb, leb,
}
use heimasdk_snapshot_migrat.Prelude.Int.{ℤ, pos, negsuc, ltb_ℤ, neg_ℤ}

abbrev is_digit : ℕ → Bool
is_digit c = leb b'0' c && leb c b'9'

-- `isspace` in the C locale.
abbrev is_space : ℕ → Bool
is_space c = c == 32 || (leb 9 c && leb c 13)

-- The digits at the front after a value read so far, and what follows them.
unfoldable pub read_digits : ℕ → List ℕ → ℕ × List ℕ
read_digits value [] = (value, [])
read_digits value (c ∷ cs) =
    let rest = read_digits (value * 10 + (c - b'0')) cs in
    if is_digit c then rest else (value, c ∷ cs)

-- Number and rest, or `none` where no number starts.
unfoldable pub read_number : List ℕ → Option (ℕ × List ℕ)
unfolding read_digits
read_number [] = none
read_number (c ∷ cs) = if is_digit c then some (read_digits 0 (c ∷ cs)) else none

unfoldable pub skip_spaces : List ℕ → List ℕ
skip_spaces [] = []
skip_spaces (c ∷ cs) = let rest = skip_spaces cs in if is_space c then rest else c ∷ cs

abbrev signed_number : Bool → Option (ℕ × List ℕ) → Option (ℤ × List ℕ)
signed_number negative none = none
signed_number negative (some (n, rest)) = some (if negative then neg_ℤ (pos n) else pos n, rest)

abbrev after_spaces : List ℕ → Option (ℤ × List ℕ)
after_spaces [] = none
after_spaces (c ∷ cs) =
    if c == b'-'
    then signed_number true (read_number cs)
    else if c == b'+'
    then signed_number false (read_number cs)
    else signed_number false (read_number (c ∷ cs))

unfoldable pub strtol : List ℕ → Option (ℤ × List ℕ)
unfolding read_number skip_spaces
strtol text = after_spaces (skip_spaces text)

abbrev pub largest : ℕ
largest = 100_000_000

abbrev accepted : Option (ℤ × List ℕ) → ℤ
accepted none = negsuc 0
accepted (some (value, c ∷ cs)) = negsuc 0
accepted (some (value, [])) =
    if ltb_ℤ value (pos 0) || ltb_ℤ (pos largest) value then negsuc 0 else value

unfoldable pub parse_non_negative_int : Option (List ℕ) → ℤ → ℤ
unfolding strtol
parse_non_negative_int none fallback = fallback
parse_non_negative_int (some text) fallback = accepted (strtol text)

-- A text gives -1 or a number from 0 to 100000000.
pub parse_non_negative_int_range :
    (text : List ℕ) (fallback : ℤ)
    → (parse_non_negative_int (some text) fallback ≡ negsuc 0)
      ⊎ ((n : ℕ) × (n ≤ largest) × (parse_non_negative_int (some text) fallback ≡ pos n))
unfolding parse_non_negative_int
parse_non_negative_int_range text fallback = judge (strtol text)
  where
    judge :
        (o : Option (ℤ × List ℕ))
        → (accepted o ≡ negsuc 0) ⊎ ((n : ℕ) × (n ≤ largest) × (accepted o ≡ pos n))
    judge none = inl refl
    judge (some (value, c ∷ cs)) = inl refl
    judge (some (negsuc n, [])) = inl (ground arith)
    judge (some (pos n, [])) = elim (Bool-cases (ltb_ℤ (pos largest) (pos n))) [
      | inl e ↦ inl (rw e (ground arith))
      | inr e ↦ inr (n, ground arith, rw e (ground arith))
    ]

-- A number in decimal; `fuel` digits are enough for numbers below it.
pub decimal : ℕ → ℕ → List ℕ
decimal zero n = []
decimal (suc fuel) n =
    let front = decimal fuel (n / 10) in
    if ltb n 10 then (b'0' + n) ∷ [] else front ++ (b'0' + n % 10) ∷ []

read_digits-digit :
    (value c : ℕ) (cs : List ℕ)
    → 48 ≤ c
    → c ≤ 57
    → read_digits value (c ∷ cs) ≡ read_digits (value * 10 + (c - 48)) cs
unfolding read_digits
read_digits-digit value c cs a b = ground arith

read_digits-decimal :
    (fuel n : ℕ) (rest : List ℕ)
    → n < fuel
    → read_digits 0 (decimal fuel n ++ rest) ≡ read_digits n rest
unfolding decimal
read_digits-decimal zero n rest h = absurd (omega arith)
read_digits-decimal (suc fuel) n rest h = elim (Bool-cases (ltb n 10)) [
  | inl e ↦ rw e (
      read_digits-digit 0 (48 + n) rest (omega arith) (ground arith)
      ∙ ap (λ v. read_digits v rest) (omega arith))
  | inr e ↦
      rw (e, append_assoc (decimal fuel (n / 10)) ((48 + n % 10) ∷ []) rest)
        (read_digits-decimal fuel (n / 10) ((48 + n % 10) ∷ rest) (ground arith)
          ∙ read_digits-digit (n / 10) (48 + n % 10) rest (omega arith) (omega arith)
          ∙ ap (λ v. read_digits v rest) (omega arith))
]

decimal_head :
    (fuel n : ℕ)
    → n < fuel
    → (c : ℕ) × (cs : List ℕ) × (decimal fuel n ≡ c ∷ cs) × (48 ≤ c) × (c ≤ 57)
unfolding decimal
decimal_head zero n h = absurd (omega arith)
decimal_head (suc fuel) n h = elim (Bool-cases (ltb n 10)) [
  | inl e ↦ (48 + n, [], rw e refl, omega arith, ground arith)
  | inr e ↦
      let (c, cs, p, a, b) = decimal_head fuel (n / 10) (ground arith) in
      (c, cs ++ (48 + n % 10) ∷ [], rw (e, p) refl, a, b)
]

strtol-digit :
    (c : ℕ) (cs : List ℕ)
    → 48 ≤ c
    → c ≤ 57
    → strtol (c ∷ cs) ≡ some (pos (read_digits 0 (c ∷ cs)).0, (read_digits 0 (c ∷ cs)).1)
unfolding strtol skip_spaces read_number
strtol-digit c cs a b = ground arith

read_digits_end : (n : ℕ) → read_digits n [] ≡ (n, [])
unfolding read_digits
read_digits_end n = refl

-- A number up to 100000000 that is written in decimal is read back.
pub parse_non_negative_int-decimal :
    (n : ℕ) (fallback : ℤ)
    → n ≤ largest
    → parse_non_negative_int (some (decimal (suc n) n)) fallback ≡ pos n
unfolding parse_non_negative_int
parse_non_negative_int-decimal n fallback h =
    let (c, cs, e, a, b) = decimal_head (suc n) n (omega arith) in
    let r : read_digits 0 (c ∷ cs) ≡ (n, []) =
      ap (λ l. read_digits 0 l) (sym e ∙ sym (append-nil (decimal (suc n) n)))
      ∙ read_digits-decimal (suc n) n [] (omega arith)
      ∙ read_digits_end n in
    rw (e, strtol-digit c cs a b, r) (ground arith)
