-- ===== src/Tracker/Tests.antt =====
-- Three slaves, 1, 2 and 5, of which two have answered.
use heimasdk_snapshot_migrat.Prelude.{ℕ, ◌≡◌, ◌≢◌, refl, ◌↔◌, true, false, [], ◌∷◌, arith, ◌<◌}
use heimasdk_snapshot_migrat.Prelude.Int.{pos, negsuc}
use heimasdk_snapshot_migrat.Tracker.{
  MaskTracker, FrameTracker, bit_for_slave_id, set_expected, expected_bits, mark_received, expects,
  is_received, mark_frame, set_expected_frame,
}
use heimasdk_snapshot_migrat.Tracker.Masks.{Within, set_expected-Within, mark_received-Within}
use heimasdk_snapshot_migrat.Tracker.Completion.{mark_received-completes}
use heimasdk_snapshot_migrat.Tracker.Frame.{IsOpen, set_expected_frame-IsOpen}

abbrev all_waiting : MaskTracker
all_waiting = set_expected (pos 1 ∷ pos 2 ∷ pos 5 ∷ pos 99 ∷ negsuc 3 ∷ [])

abbrev two_in : MaskTracker
two_in = (mark_received (pos 1) (mark_received (pos 5) all_waiting).1).1

two_in-Within : Within two_in
two_in-Within =
    mark_received-Within (pos 1) _ (mark_received-Within (pos 5) _ (set_expected-Within _))

last_completes : (mark_received (pos 2) two_in).0 ≡ true
unfolding mark_received set_expected expected_bits bit_for_slave_id
last_completes = refl

mark_received-completes_example : ((mark_received (pos 2) two_in).0 ≡ true) ↔ (
    (expects (pos 2) two_in ≡ true)
    × ((m : ℕ)
        → m < 64
        → m ≢ 2
        → expects (pos m) two_in ≡ true
        → is_received (pos m) two_in ≡ true))
mark_received-completes_example = mark_received-completes 2 two_in (omega arith) two_in-Within

abbrev fresh_frame : FrameTracker
fresh_frame = set_expected_frame (pos 1 ∷ pos 2 ∷ []) (record {
  mask = record { expected_mask = 0; current_mask = 0 };
  active = false;
  started = pos 0;
})

fresh_frame-IsOpen : IsOpen fresh_frame
fresh_frame-IsOpen = set_expected_frame-IsOpen (pos 1 ∷ pos 2 ∷ []) _

abbrev half_frame : FrameTracker
half_frame = (mark_frame (pos 1) (pos 1000) fresh_frame).1
