-- ===== src/Tracker/Masks.antt =====
-- The masks as sets of slave ids, and the three outcomes of `markReceived`.
use native.Mathlib.Nat.{one-le-pow}
use heimasdk_snapshot_migrat.Prelude.{
  bit_and-zero, ap, ℕ, ◌^◌, ◌≤◌, ◌<◌, ◌≡◌, ◌≢◌, refl, ◌↔◌, bit_and, bit_or, Bool, true, false, not,
  ◌&&◌, List, [], ◌∷◌, arith, if◌then◌else◌, ◌==◌, leb, bit_of, bit_of-le, bit_of-bit_or,
  bit_of-zero, bit_of-pow_ne, bit_and-pow, dec_lt, ℕ_discrete,
}
use heimasdk_snapshot_migrat.Prelude.Int.{ℤ, pos, negsuc}
use heimasdk_snapshot_migrat.Tracker.{
  MaskTracker, bit_for_slave_id, expected_bits, set_expected, mark_received, expects, is_received,
  reset_current,
}

-- What the tests of one slave's bit say.
pub expects_lem :
    (n : ℕ) (t : MaskTracker) → n < 64 → (expects (pos n) t ≡ true) ↔ (bit_of n t.expected_mask ≡ 1)
unfolding expects bit_for_slave_id
expects_lem n t h = ground (
  arith,
  bit_and-pow n t.expected_mask,
  bit_of-le n t.expected_mask,
  one-le-pow n 2 (omega arith),
)

pub is_received_lem :
    (n : ℕ) (t : MaskTracker)
    → n < 64
    → (is_received (pos n) t ≡ true) ↔ (bit_of n t.current_mask ≡ 1)
unfolding is_received bit_for_slave_id
is_received_lem n t h =
    ground (
      arith,
      bit_and-pow n t.current_mask,
      bit_of-le n t.current_mask,
      one-le-pow n 2 (omega arith),
    )

-- Only slaves that are expected count, and a slave id names one of 64 bits.
pub record Within (t : MaskTracker) : Type 0 where
  pub subset : (i : ℕ) → bit_of i t.current_mask ≤ bit_of i t.expected_mask
  pub narrow : (i : ℕ) → 64 ≤ i → bit_of i t.expected_mask ≡ 0

bit_of-bit_for : (i : ℕ) (slave_id : ℤ) → 64 ≤ i → bit_of i (bit_for_slave_id slave_id) ≡ 0
unfolding bit_for_slave_id
bit_of-bit_for i (pos n) h = elim (dec_lt n 64) [
  | yes p ↦ ground (arith, bit_of-pow_ne i n (λ e. omega arith))
  | no p ↦ ground (arith, bit_of-zero i)
]
bit_of-bit_for i (negsuc n) h = bit_of-zero i

expected_bits-narrow :
    (mask : ℕ) (ids : List ℤ) (i : ℕ)
    → 64 ≤ i
    → bit_of i mask ≡ 0
    → bit_of i (expected_bits mask ids) ≡ 0
unfolding expected_bits
expected_bits-narrow mask [] i h e = e
expected_bits-narrow mask (x ∷ ids) i h e =
    expected_bits-narrow (bit_or mask (bit_for_slave_id x)) ids i h
      (omega (arith, bit_of-bit_or i mask (bit_for_slave_id x), bit_of-bit_for i x h))

pub set_expected-Within : (ids : List ℤ) → Within (set_expected ids)
unfolding set_expected
set_expected-Within ids = record {
  subset = λ i. omega (arith, bit_of-zero i);
  narrow = λ i h. expected_bits-narrow 0 ids i h (bit_of-zero i);
}

pub reset_current-Within : (t : MaskTracker) → Within t → Within (reset_current t)
unfolding reset_current
reset_current-Within t w = record { subset = λ i. omega (arith, bit_of-zero i); narrow = w.narrow }

-- The bit of an expected slave goes no further than the expected mask.
marked_subset :
    (n i : ℕ) (t : MaskTracker)
    → Within t
    → bit_of n t.expected_mask ≡ 1
    → bit_of i (bit_or t.current_mask (2 ^ n)) ≤ bit_of i t.expected_mask
marked_subset n i t w e = elim (ℕ_discrete i n) [
  | yes p ↦ rw p (omega (arith, e, bit_of-le n (bit_or t.current_mask (2 ^ n))))
  | no p ↦ omega (arith, bit_of-bit_or i t.current_mask (2 ^ n), bit_of-pow_ne i n p, w.subset i)
]

-- The three outcomes of `markReceived` for an id of one of the 64 bits.
pub data Mark (n : ℕ) (t : MaskTracker) : Bool × MaskTracker → Type 0 where
  ignored : bit_of n t.expected_mask ≡ 0 → Mark n t (false, t)
  complete :
      bit_of n t.expected_mask ≡ 1
      → bit_or t.current_mask (2 ^ n) ≡ t.expected_mask
      → Mark n t (true, record t { current_mask = 0 })
  partial :
      bit_of n t.expected_mask ≡ 1
      → bit_or t.current_mask (2 ^ n) ≢ t.expected_mask
      → Mark n t (false, record t { current_mask = bit_or t.current_mask (2 ^ n) })

mark_bit : ℕ → MaskTracker → Bool × MaskTracker
mark_bit n t =
    if bit_and t.expected_mask (2 ^ n) == 0
    then (false, t)
    else if not (t.expected_mask == 0) && bit_or t.current_mask (2 ^ n) == t.expected_mask
    then (true, record t { current_mask = 0 })
    else (false, record t { current_mask = bit_or t.current_mask (2 ^ n) })

mark_received-eq-mark_bit :
    (n : ℕ) (t : MaskTracker) → n < 64 → mark_received (pos n) t ≡ mark_bit n t
unfolding mark_received bit_for_slave_id mark_bit
mark_received-eq-mark_bit n t h = rw (beyond h)
  where
    beyond : n < 64 → leb 64 n ≡ false
    beyond p = ground arith

module _ (n : ℕ) (t : MaskTracker) where
  abbrev bit_absent : Bool
  bit_absent = bit_and t.expected_mask (2 ^ n) == 0

  abbrev all_in : Bool
  all_in = not (t.expected_mask == 0) && bit_or t.current_mask (2 ^ n) == t.expected_mask

  absent : bit_absent ≡ true → bit_of n t.expected_mask ≡ 0
  absent e = ground (
    arith,
    bit_and-pow n t.expected_mask,
    bit_of-le n t.expected_mask,
    one-le-pow n 2 (omega arith),
  )

  present : bit_absent ≡ false → bit_of n t.expected_mask ≡ 1
  present e = ground (arith, bit_and-pow n t.expected_mask, bit_of-le n t.expected_mask)

  still_missing :
      bit_of n t.expected_mask ≡ 1
      → all_in ≡ false
      → bit_or t.current_mask (2 ^ n) ≢ t.expected_mask
  still_missing e f = ground (arith, ap (bit_of n), bit_of-zero n)

  mark_bit-Mark : Mark n t (mark_bit n t)
  unfolding mark_bit
  mark_bit-Mark = choose bit_absent refl all_in refl
    where
      choose :
          (a : Bool)
          → bit_absent ≡ a
          → (b : Bool) → all_in ≡ b
          → Mark n t (
              if a
              then (false, t)
              else if b
              then (true, record t { current_mask = 0 })
              else (false, record t { current_mask = bit_or t.current_mask (2 ^ n) }))
      choose true p b q = ignored (absent p)
      choose false p true q = complete (present p) (ground arith)
      choose false p false q = partial (present p) (still_missing (present p) q)

pub mark_received-Mark : (n : ℕ) (t : MaskTracker) → n < 64 → Mark n t (mark_received (pos n) t)
mark_received-Mark n t h = rw (mark_received-eq-mark_bit n t h) (mark_bit-Mark n t)

Mark-Within :
    {n : ℕ} {t : MaskTracker} {r : Bool × MaskTracker} → Within t → Mark n t r → Within r.1
Mark-Within w (ignored e) = w
Mark-Within w (complete e q) = record {
  subset = λ i. omega (arith, bit_of-zero i);
  narrow = w.narrow;
}
Mark-Within {n} {t} w (partial e q) = record {
  subset = λ i. marked_subset n i t w e;
  narrow = w.narrow;
}

beyond_word : (n : ℕ) → 64 ≤ n → bit_for_slave_id (pos n) ≡ 0
unfolding bit_for_slave_id
beyond_word n h = ground arith

no_bit :
    (slave_id : ℤ) (t : MaskTracker)
    → bit_for_slave_id slave_id ≡ 0
    → mark_received slave_id t ≡ (false, t)
unfolding mark_received
no_bit slave_id t e = rw (e, bit_and-zero t.expected_mask)

pub mark_received-Within :
    (slave_id : ℤ) (t : MaskTracker) → Within t → Within (mark_received slave_id t).1
mark_received-Within (negsuc n) t w = rw (no_bit (negsuc n) t (unfold bit_for_slave_id in refl)) w
mark_received-Within (pos n) t w = elim (dec_lt n 64) [
  | yes h ↦ Mark-Within w (mark_received-Mark n t h)
  | no h ↦ rw (no_bit (pos n) t (beyond_word n (omega arith))) w
]
