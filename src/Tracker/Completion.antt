-- ===== src/Tracker/Completion.antt =====
-- A frame is complete with the last expected slave that answers, and at once.
use heimasdk_snapshot_migrat.Prelude.{
  ap, ◌∙◌, ℕ, ◌^◌, ◌<◌, ◌≡◌, ◌≢◌, refl, ◌↔◌, bit_or, Bool, true, arith, bit_of, bit_of-le,
  bit_of-bit_or, bit_of-pow_self, bit_of-pow_ne, eq_of_bits, dec_lt, ℕ_discrete,
}
use heimasdk_snapshot_migrat.Prelude.Int.{pos}
use heimasdk_snapshot_migrat.Tracker.{MaskTracker, mark_received, expects, is_received}
use heimasdk_snapshot_migrat.Tracker.Masks.{
  Within, Mark, ignored, complete, partial, mark_received-Mark, expects_lem, is_received_lem,
}

-- The bits of a completed mask, but for the last slave's, were there before.
others_in :
    (n m : ℕ) (t : MaskTracker)
    → m ≢ n
    → bit_or t.current_mask (2 ^ n) ≡ t.expected_mask
    → bit_of m t.current_mask ≡ bit_of m t.expected_mask
others_in n m t d q =
    omega (arith, bit_of-bit_or m t.current_mask (2 ^ n), bit_of-pow_ne m n d, ap (bit_of m) q)

union_complete :
    (n : ℕ) (t : MaskTracker)
    → Within t
    → bit_of n t.expected_mask ≡ 1
    → ((m : ℕ) → m < 64 → m ≢ n → bit_of m t.expected_mask ≡ 1 → bit_of m t.current_mask ≡ 1)
    → bit_or t.current_mask (2 ^ n) ≡ t.expected_mask
union_complete n t w e h = eq_of_bits _ _ same
  where
    same : (i : ℕ) → bit_of i (bit_or t.current_mask (2 ^ n)) ≡ bit_of i t.expected_mask
    same i = elim (ℕ_discrete i n) [
      | yes p ↦ omega (
        arith,
        bit_of-bit_or i t.current_mask (2 ^ n),
        bit_of-pow_self n,
        ap (λ k. bit_of k (2 ^ n)) p,
        ap (λ k. bit_of k t.expected_mask) p,
        bit_of-le i t.current_mask,
      )
      | no p ↦ elim (dec_lt i 64) [
        | yes q ↦ ground (
          arith,
          bit_of-bit_or i t.current_mask (2 ^ n),
          bit_of-pow_ne i n p,
          bit_of-le i t.expected_mask,
          w.subset i,
          h i q p,
        )
        | no q ↦ omega (
          arith,
          bit_of-bit_or i t.current_mask (2 ^ n),
          bit_of-pow_ne i n p,
          w.subset i,
          w.narrow i (omega arith),
        )
      ]
    ]

-- The call that completes a frame: the slave is expected, and every other expected one is in.
pub mark_received-completes :
    (n : ℕ) (t : MaskTracker)
    → n < 64
    → Within t
    → ((mark_received (pos n) t).0 ≡ true) ↔ (
        (expects (pos n) t ≡ true)
        × ((m : ℕ) → m < 64 → m ≢ n → expects (pos m) t ≡ true → is_received (pos m) t ≡ true))
mark_received-completes n t h w = completes (mark_received-Mark n t h)
  where
    completes :
        {r : Bool × MaskTracker}
        → Mark n t r
        → (r.0 ≡ true) ↔ (
            (expects (pos n) t ≡ true)
            × ((m : ℕ) → m < 64 → m ≢ n → expects (pos m) t ≡ true → is_received (pos m) t ≡ true))
    completes (ignored e) = (λ f. cc, λ f. absurd (omega (arith, e, (expects_lem n t h).0 f.0)))
    completes (complete e q) = (
      λ _. (
        (expects_lem n t h).1 e,
        λ m l d x. (is_received_lem m t l).1 (others_in n m t d q ∙ (expects_lem m t l).0 x),
      ),
      λ _. refl,
    )
    completes (partial e q) = (
      λ f. cc,
      λ f. absurd (
          q (
            union_complete n t w e
              (λ m l d x. (is_received_lem m t l).0 (f.1 m l d ((expects_lem m t l).1 x))))),
    )
