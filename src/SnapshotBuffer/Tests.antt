-- ===== src/SnapshotBuffer/Tests.antt =====
-- Runs of the snapshot buffer: one frame published, a copy of it under way while the producer fills
-- its next slot, and what a read returns.
use heimasdk_snapshot_migrat.Prelude.{ℕ, ◌≡◌, ◌≢◌, refl, ◌⊎◌, Bool, false, [], ◌∷◌, arith}
use heimasdk_snapshot_migrat.SnapshotBuffer.{
  create, store, exchange, publish, take, read_into, pack_state, state_index, state_version,
}
use heimasdk_snapshot_migrat.SnapshotBuffer.Machine.{
  System, start, after_load, filling, holding, copying, Step, begin_publish, smear, begin_read,
  load, cas_wins, Reach, begin, next,
}
use heimasdk_snapshot_migrat.SnapshotBuffer.Invariant.{frame_at, InOrder}
use heimasdk_snapshot_migrat.SnapshotBuffer.Safety.{
  never_torn, deliveries-InOrder, copies_newest, publish_runs, read_into_runs, after_read,
}

abbrev never_fails : ℕ → Bool
never_fails _ = false

-- One frame, 9, published over the initial 7.
abbrev published_once : System ℕ
published_once = record (start 7) { buffer = publish 9 (start 7).buffer; published = 9 ∷ [] }

published_once-Reach : Reach 7 published_once
unfolding start
published_once-Reach = publish_runs 7 9 begin refl

abbrev about_to_take : System ℕ
about_to_take = record published_once { reader = holding 2 published_once.buffer.latest }

about_to_take-Reach : Reach 7 about_to_take
unfolding start after_load publish store exchange create state_version state_index pack_state
about_to_take-Reach = next (next published_once-Reach (begin_read refl)) (load 2 refl)

abbrev copying_nine : System ℕ
copying_nine = record about_to_take {
  buffer = take about_to_take.buffer.latest about_to_take.buffer;
  reader = copying (about_to_take.buffer.slots (state_index about_to_take.buffer.latest));
}

take_nine : Step about_to_take copying_nine
take_nine = cas_wins 2 _ refl refl

-- The producer has begun its next frame, 4, and its slot holds garbage.
abbrev torn_writer : System ℕ
torn_writer = record copying_nine { buffer = store 1234 copying_nine.buffer; writer = filling 4 }

torn_writer-Reach : Reach 7 torn_writer
unfolding start
torn_writer-Reach =
    next (next (next about_to_take-Reach take_nine) (begin_publish 4 refl)) (smear 4 1234 refl)

copied_nine : copying_nine.reader ≡ copying 9
unfolding start publish store exchange create state_index pack_state
copied_nine = refl

never_torn_example :
    (torn_writer.buffer.slots torn_writer.buffer.reading ≡ 9)
    × (torn_writer.buffer.writing ≢ torn_writer.buffer.reading)
never_torn_example = never_torn (omega arith) torn_writer-Reach 9 copied_nine

deliveries-InOrder_example :
    InOrder 7
      (9 ∷ [])
      (after_read never_fails published_once).buffer.read_version
      (after_read never_fails published_once).delivered
unfolding start
deliveries-InOrder_example =
    deliveries-InOrder (omega arith) (read_into_runs 7 never_fails published_once-Reach refl)

copies_newest_example : (about_to_take.reader ≡ copying 9) ⊎ (◌≡◌ {A = ℕ} 9 (frame_at 7 (9 ∷ []) 1))
copies_newest_example =
    copies_newest 7 9 (omega arith) (omega arith) about_to_take-Reach take_nine (λ e. cc)
      copied_nine

read_into_runs_example : Reach 7 (after_read never_fails published_once)
unfolding start
read_into_runs_example = read_into_runs 7 never_fails published_once-Reach refl

-- A read with nothing new returns the frame read before.
read_twice : (read_into never_fails (read_into never_fails published_once.buffer).1).0 ≡ 9
unfolding read_into publish start store exchange create take state_version state_index pack_state
read_twice = refl
