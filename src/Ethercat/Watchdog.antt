-- ===== src/Ethercat/Watchdog.antt =====
-- `applyEthercatCommandWatchdog` of src/rmd_ethercat_pdo.cpp: a command that is too old enables no
-- motor.
use heimasdk_snapshot_migrat.Prelude.{
  ◌∙◌, ℕ, zero, suc, ◌+◌, ◌<◌, ◌≡◌, refl, true, false, not, ◌&&◌, ◌||◌, arith, if◌then◌else◌, ◌==◌,
  ltb, leb, update,
}
use heimasdk_snapshot_migrat.Prelude.Int.{ℤ, pos, ◌-ℤ◌, leb_ℤ, ltb_ℤ, ◌==ℤ◌, ==ℤ_iff}
use heimasdk_snapshot_migrat.Ethercat.Frames.{PackedTarget, PackedFrame, max_realtime_motors}

abbrev disable : PackedFrame → ℕ → PackedFrame
disable frame i = record frame {
  targets = update frame.targets i (record (frame.targets i) { enabled = pos 0 });
}

-- One round of the loop: the count of motors that were disabled, and the frame.
pub clear_one : ℕ → ℕ × PackedFrame → ℕ × PackedFrame
clear_one i (cleared, frame) =
    if frame.valid i && not ((frame.targets i).enabled ==ℤ pos 0)
    then (cleared + 1, disable frame i)
    else (cleared, frame)

-- The rounds from `i` on, `left` of them.
pub clear_from : ℕ → ℕ → ℕ × PackedFrame → ℕ × PackedFrame
clear_from zero i s = s
clear_from (suc left) i s = clear_from left (i + 1) (clear_one i s)

pub apply_watchdog : PackedFrame → ℤ → ℤ → ℕ × PackedFrame
apply_watchdog frame now timeout =
    if leb_ℤ timeout (pos 0) || frame.timestamp ==ℤ pos 0
    then (0, frame)
    else if ltb_ℤ (now -ℤ frame.timestamp) timeout
    then (0, frame)
    else clear_from max_realtime_motors 0 (0, frame)

-- A motor after the round for `i`.
abbrev pub disabled : PackedTarget → PackedTarget
disabled t = record t { enabled = pos 0 }

clear_one-targets :
    (i j c : ℕ) (frame : PackedFrame)
    → ((clear_one i (c, frame)).1.targets j
        ≡ (if i == j && frame.valid j then disabled (frame.targets j) else frame.targets j))
      × ((clear_one i (c, frame)).1.valid j ≡ frame.valid j)
unfolding clear_one
clear_one-targets i j c frame = ground (arith, ==ℤ_iff (frame.targets i).enabled (pos 0))

pub clear_from-targets :
    (left i j : ℕ) (s : ℕ × PackedFrame)
    → ((clear_from left i s).1.targets j ≡ (
        if leb i j && ltb j (i + left) && s.1.valid j
        then disabled (s.1.targets j)
        else s.1.targets j))
      × ((clear_from left i s).1.valid j ≡ s.1.valid j)
unfolding clear_from
clear_from-targets zero i j s = ground arith
clear_from-targets (suc left) i j (c, frame) = ground (
  arith,
  clear_one-targets i j c frame,
  clear_from-targets left (i + 1) j (clear_one i (c, frame)),
)

-- The motors among `left` from `i` on that a frame enables.
pub enabled_from : ℕ → ℕ → PackedFrame → ℕ
enabled_from zero i frame = 0
enabled_from (suc left) i frame =
    (if frame.valid i && not ((frame.targets i).enabled ==ℤ pos 0) then 1 else 0)
    + enabled_from left (i + 1) frame

enabled_from-disable :
    (left i k : ℕ) (frame : PackedFrame)
    → k < i
    → enabled_from left i (disable frame k) ≡ enabled_from left i frame
unfolding enabled_from
enabled_from-disable zero i k frame h = refl
enabled_from-disable (suc left) i k frame h =
    ground (arith, enabled_from-disable left (i + 1) k frame)

clear_from-count :
    (left i c : ℕ) (frame : PackedFrame)
    → (clear_from left i (c, frame)).0 ≡ c + enabled_from left i frame
unfolding clear_from enabled_from clear_one
clear_from-count zero i c frame = omega arith
clear_from-count (suc left) i c frame = ground (
  arith,
  clear_from-count left (i + 1) (c + 1) (disable frame i),
  clear_from-count left (i + 1) c frame,
  enabled_from-disable left (i + 1) i frame,
)

-- The command is older than the timeout allows. With no timeout, or before the first command, none is.
abbrev pub IsExpired : PackedFrame → ℤ → ℤ → Type 0
IsExpired frame now timeout =
    (leb_ℤ timeout (pos 0) ≡ false)
    × ((frame.timestamp ==ℤ pos 0) ≡ false)
    × (ltb_ℤ (now -ℤ frame.timestamp) timeout ≡ false)

-- An expired command: every valid motor of the frame is disabled and keeps the rest of its target,
-- the others keep theirs, and the result is the number of motors that were enabled.
pub apply_watchdog_expired :
    (frame : PackedFrame) (now timeout : ℤ)
    → IsExpired frame now timeout
    → ((apply_watchdog frame now timeout).0 ≡ enabled_from max_realtime_motors 0 frame)
      × ((j : ℕ)
          → (apply_watchdog frame now timeout).1.targets j ≡ (
              if ltb j max_realtime_motors && frame.valid j
              then disabled (frame.targets j)
              else frame.targets j))
unfolding apply_watchdog
apply_watchdog_expired frame now timeout (a, b, c) =
    rw (a, b, c)
      (
        clear_from-count max_realtime_motors 0 0 frame ∙ omega arith,
        λ j. (clear_from-targets max_realtime_motors 0 j (0, frame)).0 ∙ ground arith,
      )

-- An expired command enables no motor that an array of 64 can hold.
pub apply_watchdog-disables :
    (frame : PackedFrame) (now timeout : ℤ)
    → IsExpired frame now timeout
    → (j : ℕ) → j < max_realtime_motors
    → (apply_watchdog frame now timeout).1.valid j ≡ true
    → ((apply_watchdog frame now timeout).1.targets j).enabled ≡ pos 0
unfolding apply_watchdog
apply_watchdog-disables frame now timeout (a, b, c) j h =
    rw (a, b, c) (λ v. ground (arith, clear_from-targets max_realtime_motors 0 j (0, frame)))

-- A command that is not expired is left as it is.
pub apply_watchdog_fresh :
    (frame : PackedFrame) (now timeout : ℤ)
    → ¬ IsExpired frame now timeout
    → apply_watchdog frame now timeout ≡ (0, frame)
unfolding apply_watchdog
apply_watchdog_fresh frame now timeout h = ground (arith, h)
