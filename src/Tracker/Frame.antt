-- ===== src/Tracker/Frame.antt =====
-- `FeedbackFrameTracker`: a frame is open exactly while some expected slave has answered in it.
use heimasdk_snapshot_migrat.Prelude.{
  ℕ, ◌^◌, ◌<◌, ◌≡◌, ◌≢◌, ◌↔◌, refl, Bool, true, false, not, List, arith, if◌then◌else◌, bit_of,
  bit_of-zero, bit_of-bit_or, bit_of-pow_self, ap, bit_or, inl, inr, Bool-cases,
}
use heimasdk_snapshot_migrat.Prelude.Int.{ℤ, pos, negsuc, leb_ℤ, ◌-ℤ◌}
use heimasdk_snapshot_migrat.Tracker.{
  MaskTracker, FrameTracker, bit_for_slave_id, mark_received, expects, set_expected, reset_current,
  set_expected_frame, mark_frame, should_publish_timeout, reset_frame,
}
use heimasdk_snapshot_migrat.Tracker.Masks.{
  Within, Mark, ignored, complete, partial, mark_received-Mark, expects_lem, mark_received-Within,
  set_expected-Within, reset_current-Within,
}

-- The frame tracker's own flag agrees with its mask.
pub record IsOpen (f : FrameTracker) : Type 0 where
  pub within : Within f.mask
  pub open_iff : (f.active ≡ true) ↔ (f.mask.current_mask ≢ 0)

marked-ne-zero : (n m : ℕ) → bit_or m (2 ^ n) ≢ 0
marked-ne-zero n m e =
    omega (arith, bit_of-bit_or n m (2 ^ n), bit_of-pow_self n, bit_of-zero n, ap (bit_of n) e)

-- An id outside the 64 bits is expected by no tracker.
pub expected_id :
    (slave_id : ℤ) (t : MaskTracker)
    → expects slave_id t ≡ true
    → (n : ℕ) × (slave_id ≡ pos n) × (n < 64)
unfolding expects bit_for_slave_id
expected_id (negsuc n) t e = absurd (ground arith)
expected_id (pos n) t e = (n, refl, ground arith)

-- What `markReceived` of an expected slave does to the frame.
Mark-IsOpen :
    (n : ℕ) (f : FrameTracker) (now : ℤ) {r : Bool × MaskTracker}
    → IsOpen f
    → bit_of n f.mask.expected_mask ≡ 1
    → Within r.1
    → Mark n f.mask r
    → IsOpen
        (record f { mask = r.1; active = not r.0; started = if f.active then f.started else now })
Mark-IsOpen n f now o e w (ignored z) = absurd (omega (arith, z, e))
Mark-IsOpen n f now o e w (complete y q) = record {
  within = w;
  open_iff = (λ p. cc, λ p. absurd (p refl));
}
Mark-IsOpen n f now o e w (partial y q) = record {
  within = w;
  open_iff = (λ p. marked-ne-zero n f.mask.current_mask, λ p. refl);
}

unfoldable pub opened_frame : ℤ → FrameTracker → Bool × MaskTracker → Bool × FrameTracker
opened_frame now f (done, mask) = (
  done,
  record f { mask = mask; active = not done; started = if f.active then f.started else now },
)

pub mark_frame-expected :
    (slave_id now : ℤ) (f : FrameTracker)
    → expects slave_id f.mask ≡ true
    → mark_frame slave_id now f ≡ opened_frame now f (mark_received slave_id f.mask)
unfolding mark_frame opened_frame
mark_frame-expected slave_id now f e = rw e (ground arith)

pub mark_frame-unexpected :
    (slave_id now : ℤ) (f : FrameTracker)
    → expects slave_id f.mask ≡ false
    → mark_frame slave_id now f ≡ (false, f)
unfolding mark_frame
mark_frame-unexpected slave_id now f e = rw e

expected-IsOpen :
    (slave_id now : ℤ) (f : FrameTracker)
    → IsOpen f
    → expects slave_id f.mask ≡ true
    → IsOpen (opened_frame now f (mark_received slave_id f.mask)).1
unfolding opened_frame
expected-IsOpen slave_id now f o e =
    let (n, p, h) = expected_id slave_id f.mask e in
    Mark-IsOpen n f now o ((expects_lem n f.mask h).0 (rw (← p) e))
      (mark_received-Within slave_id f.mask o.within) (rw p (mark_received-Mark n f.mask h))

-- An answer keeps the tracker's flag and its mask in agreement.
pub mark_frame-IsOpen :
    (slave_id now : ℤ) (f : FrameTracker) → IsOpen f → IsOpen (mark_frame slave_id now f).1
mark_frame-IsOpen slave_id now f o = elim (Bool-cases (expects slave_id f.mask)) [
  | inl e ↦ rw (mark_frame-expected slave_id now f e) (expected-IsOpen slave_id now f o e)
  | inr e ↦ rw (mark_frame-unexpected slave_id now f e) o
]

pub set_expected_frame-IsOpen :
    (ids : List ℤ) (f : FrameTracker) → IsOpen (set_expected_frame ids f)
unfolding set_expected_frame set_expected
set_expected_frame-IsOpen ids f = record {
  within = set_expected-Within ids;
  open_iff = (λ p. cc, λ p. absurd (p refl));
}

pub reset_frame-IsOpen : (f : FrameTracker) → IsOpen f → IsOpen (reset_frame f)
unfolding reset_frame reset_current
reset_frame-IsOpen f o = record {
  within = reset_current-Within f.mask o.within;
  open_iff = (λ p. cc, λ p. absurd (p refl));
}

-- So a timeout is due exactly when some but not all slaves have answered, for long enough.
pub should_publish_timeout_lem :
    (now timeout : ℤ) (f : FrameTracker)
    → IsOpen f
    → (should_publish_timeout now timeout f ≡ true)
      ↔ ((f.mask.current_mask ≢ 0) × (leb_ℤ timeout (now -ℤ f.started) ≡ true))
unfolding should_publish_timeout
should_publish_timeout_lem now timeout f o = ground (arith, o.open_iff)
