-- ===== src/Tracker.antt =====
-- src/rmd_types.cpp, `MaskTracker` and `FeedbackFrameTracker`: which slaves have answered in the
-- current feedback frame. A slave id is an `int`, a mask a 64-bit word, and a time of the steady
-- clock an integer of nanoseconds.
pub mod Masks
pub mod Completion
pub mod Frame
pub mod Waiting
mod Tests
use heimasdk_snapshot_migrat.Prelude.{
  ℕ, ◌^◌, bit_and, bit_or, Bool, true, false, not, ◌&&◌, List, [], ◌∷◌, if◌then◌else◌, ◌==◌, leb,
}
use heimasdk_snapshot_migrat.Prelude.Int.{ℤ, pos, negsuc, ◌-ℤ◌, leb_ℤ}

pub record MaskTracker : Type 0 where
  pub expected_mask : ℕ
  pub current_mask : ℕ

unfoldable pub bit_for_slave_id : ℤ → ℕ
bit_for_slave_id (negsuc n) = 0
bit_for_slave_id (pos n) = if leb 64 n then 0 else 2 ^ n

unfoldable pub expected_bits : ℕ → List ℤ → ℕ
expected_bits mask [] = mask
expected_bits mask (slave_id ∷ rest) = expected_bits (bit_or mask (bit_for_slave_id slave_id)) rest

unfoldable pub set_expected : List ℤ → MaskTracker
set_expected slave_ids = record { expected_mask = expected_bits 0 slave_ids; current_mask = 0 }

pub mark_received : ℤ → MaskTracker → Bool × MaskTracker
mark_received slave_id t =
    if bit_and t.expected_mask bit == 0
    then (false, t)
    else if not (t.expected_mask == 0) && bit_or t.current_mask bit == t.expected_mask
    then (true, record t { current_mask = 0 })
    else (false, record t { current_mask = bit_or t.current_mask bit })
  where
    bit : ℕ
    bit = bit_for_slave_id slave_id

pub expects : ℤ → MaskTracker → Bool
expects slave_id t =
    not (bit_for_slave_id slave_id == 0)
    && not (bit_and t.expected_mask (bit_for_slave_id slave_id) == 0)

pub is_received : ℤ → MaskTracker → Bool
is_received slave_id t =
    not (bit_for_slave_id slave_id == 0)
    && not (bit_and t.current_mask (bit_for_slave_id slave_id) == 0)

pub reset_current : MaskTracker → MaskTracker
reset_current t = record t { current_mask = 0 }

-- `FeedbackFrameTracker`.
pub record FrameTracker : Type 0 where
  pub mask : MaskTracker
  pub active : Bool
  pub started : ℤ

unfoldable pub set_expected_frame : List ℤ → FrameTracker → FrameTracker
set_expected_frame slave_ids f = record f { mask = set_expected slave_ids; active = false }

pub mark_frame : ℤ → ℤ → FrameTracker → Bool × FrameTracker
mark_frame slave_id now f =
    if not (expects slave_id f.mask)
    then (false, f)
    else if (mark_received slave_id f.mask).0
    then (true, record opened { mask = (mark_received slave_id f.mask).1; active = false })
    else (false, record opened { mask = (mark_received slave_id f.mask).1 })
  where
    opened : FrameTracker
    opened = record f { active = true; started = if f.active then f.started else now }

pub should_publish_timeout : ℤ → ℤ → FrameTracker → Bool
should_publish_timeout now timeout f =
    f.active && not (f.mask.current_mask == 0) && leb_ℤ timeout (now -ℤ f.started)

pub is_frame_received : ℤ → FrameTracker → Bool
is_frame_received slave_id f = is_received slave_id f.mask

pub reset_frame : FrameTracker → FrameTracker
reset_frame f = record f { mask = reset_current f.mask; active = false }
