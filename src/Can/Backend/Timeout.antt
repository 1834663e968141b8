-- ===== src/Can/Backend/Timeout.antt =====
-- A receive timeout: which motors it marks, and what it publishes.
use mathlib.Core.List.{Memᴰ}
use heimasdk_snapshot_migrat.Prelude.{
  ℕ, ◌+◌, ◌%◌, ◌^◌, ◌≡◌, ◌≢◌, refl, ◌∙◌, subst, true, false, List, [], ◌∷◌, arith, if◌then◌else◌,
  if-elim, update,
}
use heimasdk_snapshot_migrat.Prelude.Int.{ℤ}
use heimasdk_snapshot_migrat.Motor.Limits.{mark_actual_stale, error_code_feedback_timeout}
use heimasdk_snapshot_migrat.Registry.{RuntimeMotor}
use heimasdk_snapshot_migrat.Ethercat.Frames.{ActualFrame}
use heimasdk_snapshot_migrat.Tracker.{FrameTracker, is_frame_received}
use heimasdk_snapshot_migrat.Can.Backend.{
  CanBackend, mark_missing, mark_missing_stale, publish_actuals, rx_timeout,
}

module _ {F : Type 0} where
  -- Motor `i` is reported as stale.
  pub record IsStale (i : ℕ) (frame : ActualFrame F) : Type 0 where
    pub flag : frame.stale i ≡ true
    pub error : (frame.actuals i).error_code ≡ error_code_feedback_timeout
    pub word : (frame.actuals i).status_word ≡ 0xffff

  -- The data of motor `i` and its stale flag are as they were.
  abbrev pub Same : ℕ → ActualFrame F → ActualFrame F → Type 0
  Same i new old = (new.actuals i ≡ old.actuals i) × (new.stale i ≡ old.stale i)

  -- No motor of the list that has not answered has index `i`.
  abbrev pub Answered : ℕ → FrameTracker → List (RuntimeMotor F) → Type 0
  Answered i tracker [] = Unit
  Answered i tracker (m ∷ ms) =
      (is_frame_received m.slave_id tracker ≡ false → m.global_index ≢ i) × Answered i tracker ms

  -- One motor's turn.
  abbrev marked : RuntimeMotor F → FrameTracker → ActualFrame F → ActualFrame F
  marked m tracker frame = if is_frame_received m.slave_id tracker then frame else record frame {
    actuals =
        update frame.actuals m.global_index (mark_actual_stale (frame.actuals m.global_index));
    stale = update frame.stale m.global_index true;
  }

  marked-IsStale :
      (m : RuntimeMotor F) (tracker : FrameTracker) (frame : ActualFrame F) (i : ℕ)
      → IsStale i frame
      → IsStale i (marked m tracker frame)
  unfolding mark_actual_stale
  marked-IsStale m tracker frame i s = ground (arith, s.flag, s.error, s.word)

  marked_self :
      (m : RuntimeMotor F) (tracker : FrameTracker) (frame : ActualFrame F)
      → is_frame_received m.slave_id tracker ≡ false
      → IsStale m.global_index (marked m tracker frame)
  unfolding mark_actual_stale
  marked_self m tracker frame e = ground arith

  marked-Same :
      (m : RuntimeMotor F) (tracker : FrameTracker) (frame : ActualFrame F) (i : ℕ)
      → (is_frame_received m.slave_id tracker ≡ false → m.global_index ≢ i)
      → Same i (marked m tracker frame) frame
  marked-Same m tracker frame i h = ground arith

  mark_missing-IsStale :
      (ms : List (RuntimeMotor F)) (tracker : FrameTracker) (frame : ActualFrame F) (i : ℕ)
      → IsStale i frame
      → IsStale i (mark_missing ms tracker frame)
  unfolding mark_missing
  mark_missing-IsStale [] tracker frame i s = s
  mark_missing-IsStale (m ∷ ms) tracker frame i s =
      mark_missing-IsStale ms tracker (marked m tracker frame) i
        (marked-IsStale m tracker frame i s)

  mark_missing-missing :
      (ms : List (RuntimeMotor F)) (tracker : FrameTracker) (frame : ActualFrame F)
      (m : RuntimeMotor F)
      → Memᴰ m ms
      → is_frame_received m.slave_id tracker ≡ false
      → IsStale m.global_index (mark_missing ms tracker frame)
  unfolding mark_missing
  mark_missing-missing [] tracker frame m k e = elim k [ ]
  mark_missing-missing (m' ∷ ms) tracker frame m (Memᴰ.head p) e =
      mark_missing-IsStale ms tracker (marked m' tracker frame) m.global_index (
        subst (λ n. IsStale m.global_index (marked n tracker frame)) p
          (marked_self m tracker frame e))
  mark_missing-missing (m' ∷ ms) tracker frame m (Memᴰ.tail k) e =
      mark_missing-missing ms tracker (marked m' tracker frame) m k e

  mark_missing-Same :
      (ms : List (RuntimeMotor F)) (tracker : FrameTracker) (frame : ActualFrame F) (i : ℕ)
      → Answered i tracker ms
      → Same i (mark_missing ms tracker frame) frame
  unfolding mark_missing
  mark_missing-Same [] tracker frame i h = (refl, refl)
  mark_missing-Same (m ∷ ms) tracker frame i h =
      let (a, s) = mark_missing-Same ms tracker (marked m tracker frame) i h.1 in
      let (a', s') = marked-Same m tracker frame i h.0 in (a ∙ a', s ∙ s')

  mark_missing-sequence :
      (ms : List (RuntimeMotor F)) (tracker : FrameTracker) (frame : ActualFrame F)
      → (mark_missing ms tracker frame).sequence ≡ frame.sequence
  unfolding mark_missing
  mark_missing-sequence [] tracker frame = refl
  mark_missing-sequence (m ∷ ms) tracker frame =
      mark_missing-sequence ms tracker (marked m tracker frame) ∙ ground arith

  -- The rest of the frame is not touched.
  mark_missing-rest :
      (ms : List (RuntimeMotor F)) (tracker : FrameTracker) (frame : ActualFrame F)
      → ((mark_missing ms tracker frame).valid ≡ frame.valid)
        × ((mark_missing ms tracker frame).motor_count ≡ frame.motor_count)
  unfolding mark_missing
  mark_missing-rest [] tracker frame = (refl, refl)
  mark_missing-rest (m ∷ ms) tracker frame =
      let (v, c) = mark_missing-rest ms tracker (marked m tracker frame) in
      let P : ActualFrame F → Type 0 =
        λ f. (f.valid ≡ frame.valid) × (f.motor_count ≡ frame.motor_count) in
      let (v', c') = if-elim P (is_frame_received m.slave_id tracker) (refl, refl) (refl, refl) in
      (v ∙ v', c ∙ c')

  -- What a timeout publishes.
  pub record TimedOut (now : ℤ) (b : CanBackend F) (out : List (ActualFrame F)) : Type 0 where
    pub frame : ActualFrame F
    pub one : out ≡ frame ∷ []
    pub numbered : frame.sequence ≡ (b.working.sequence + 1) % 2 ^ 64
    pub missing :
        (m : RuntimeMotor F)
        → Memᴰ m b.motors
        → is_frame_received m.slave_id b.mit_frame ≡ false
        → IsStale m.global_index frame
    pub stamped : frame.timestamp ≡ now
    pub counted : frame.motor_count ≡ b.working.motor_count
    pub valid : frame.valid ≡ b.working.valid
    pub others : (i : ℕ) → Answered i b.mit_frame b.motors → Same i frame b.working

  -- A receive timeout publishes exactly one frame, with the next sequence number and the time: in it
  -- every motor of the backend that has not answered since the last reset is stale with the timeout
  -- code, the data and the stale flag of every other motor are as they were, and so is the validity of
  -- all motors, which a timeout does not take away.
  pub rx_timeout-TimedOut : (now : ℤ) (b : CanBackend F) → TimedOut now b (rx_timeout now b).1
  unfolding rx_timeout publish_actuals mark_missing_stale
  rx_timeout-TimedOut now b = record {
    frame = (rx_timeout now b).0.working;
    one = refl;
    numbered = rw (mark_missing-sequence b.motors b.mit_frame b.working) refl;
    missing = λ m k e.
        let s = mark_missing-missing b.motors b.mit_frame b.working m k e in
        record { flag = s.flag; error = s.error; word = s.word };
    stamped = refl;
    counted = (mark_missing-rest b.motors b.mit_frame b.working).1;
    valid = (mark_missing-rest b.motors b.mit_frame b.working).0;
    others = λ i h. mark_missing-Same b.motors b.mit_frame b.working i h;
  }
