-- ===== src/SnapshotBuffer/Sequential.antt =====
-- What a call of `readInto` returns when no publication comes between its own steps.
use heimasdk_snapshot_migrat.Prelude.{ℕ, ◌^◌, ◌<◌, ◌≡◌, Bool, ◌&&◌, arith, if◌then◌else◌, length}
use heimasdk_snapshot_migrat.SnapshotBuffer.{read_into}
use heimasdk_snapshot_migrat.SnapshotBuffer.Machine.{System, Reach}
use heimasdk_snapshot_migrat.SnapshotBuffer.Invariant.{frame_at, Reach-Inv}

module _ {T : Type 0} (initial : T) where
  -- The newest frame, unless all three weak exchanges fail: then the frame that was read last.
  pub read_into_lem :
      {s : System T} (fails : ℕ → Bool)
      → length s.published < 2 ^ 62
      → Reach initial s
      → (read_into fails s.buffer).0 ≡ (
          if fails 2 && fails 1 && fails 0
          then frame_at initial s.published s.buffer.read_version
          else frame_at initial s.published (length s.published))
  unfolding read_into
  read_into_lem fails small r = ground (arith, Reach-Inv initial small r)
