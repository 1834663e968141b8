-- ===== src/Tracker/Waiting.antt =====
-- A slave that does not answer: the frame stays open.
use heimasdk_snapshot_migrat.Prelude.{
  ℕ, ◌^◌, ◌≡◌, ◌≢◌, refl, ap, Bool, false, arith, bit_of, bit_of-bit_or, bit_of-pow_ne, Bool-cases,
  inl, inr,
}
use heimasdk_snapshot_migrat.Prelude.Int.{ℤ, pos}
use heimasdk_snapshot_migrat.Tracker.{MaskTracker, FrameTracker, mark_frame, expects}
use heimasdk_snapshot_migrat.Tracker.Masks.{Mark, ignored, complete, partial, mark_received-Mark}
use heimasdk_snapshot_migrat.Tracker.Frame.{
  mark_frame-expected, mark_frame-unexpected, expected_id, opened_frame,
}

-- Slave `k` is expected and has not answered.
pub record Waits (k : ℕ) (t : MaskTracker) : Type 0 where
  pub expected : bit_of k t.expected_mask ≡ 1
  pub missing : bit_of k t.current_mask ≡ 0

Mark-Waits :
    (n k : ℕ) (t : MaskTracker) {r : Bool × MaskTracker}
    → n ≢ k
    → Waits k t
    → Mark n t r
    → (r.0 ≡ false) × Waits k r.1
Mark-Waits n k t d w (ignored e) = (refl, w)
Mark-Waits n k t d w (complete e q) = absurd (
    omega (
      arith,
      bit_of-bit_or k t.current_mask (2 ^ n),
      bit_of-pow_ne k n (λ p. d (omega arith)),
      ap (bit_of k) q,
      w.expected,
      w.missing,
    ))
Mark-Waits n k t d w (partial e q) = (
  refl,
  record {
    expected = w.expected;
    missing = omega (
      arith,
      bit_of-bit_or k t.current_mask (2 ^ n),
      bit_of-pow_ne k n (λ p. d (omega arith)),
      w.missing,
    );
  },
)

-- Another slave's answer does not complete the frame.
pub mark_frame-Waits :
    (slave_id now : ℤ) (f : FrameTracker) (k : ℕ)
    → slave_id ≢ pos k
    → Waits k f.mask
    → ((mark_frame slave_id now f).0 ≡ false) × Waits k (mark_frame slave_id now f).1.mask
unfolding opened_frame
mark_frame-Waits slave_id now f k d w = elim (Bool-cases (expects slave_id f.mask)) [
  | inl e ↦
      let (n, p, h) = expected_id slave_id f.mask e in
      rw (mark_frame-expected slave_id now f e)
        (Mark-Waits n k f.mask (λ q. d (rw (p, q) refl)) w (rw p (mark_received-Mark n f.mask h)))
  | inr e ↦ rw (mark_frame-unexpected slave_id now f e) (refl, w)
]
