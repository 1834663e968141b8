-- ===== src/SnapshotBuffer/Invariant.antt =====
-- What holds of the buffer and of both threads in every reachable state, up to 2^62 frames.
use heimasdk_snapshot_migrat.Prelude.{
  ℕ, suc, ◌+◌, ◌^◌, ◌≤◌, ◌<◌, ◌≡◌, ◌≢◌, List, [], ◌∷◌, arith, if◌then◌else◌, ◌==◌, length,
}
use heimasdk_snapshot_migrat.SnapshotBuffer.{
  Buffer, create, store, exchange, take, state_index, state_version,
}
use heimasdk_snapshot_migrat.SnapshotBuffer.Packing.{
  state_index-pack_state, state_version-pack_state,
}
use heimasdk_snapshot_migrat.SnapshotBuffer.Machine.{
  Writer, filled, Reader, holding, copying, Delivery, System, start, after_load, deliver, Step,
  begin_publish, smear, complete, swap, begin_read, give_up, load, cas_fails, cas_wins, finish,
  Reach, begin, next,
}

-- The frame with version `k` in a history (newest first) that began with `initial`.
abbrev pub frame_at {ℓ} : {T : Type ℓ} → T → List T → ℕ → T
frame_at initial [] k = initial
frame_at initial (v ∷ log) k = if k == suc (length log) then v else frame_at initial log k

-- The three indices name three slots.
pub record Apart {ℓ} {T : Type ℓ} (b : Buffer T) : Type 0 where
  pub latest_in : state_index b.latest < 3
  pub writing_in : b.writing < 3
  pub reading_in : b.reading < 3
  pub writing_reading : b.writing ≢ b.reading
  pub writing_latest : b.writing ≢ state_index b.latest
  pub reading_latest : b.reading ≢ state_index b.latest

module _ {ℓ} {T : Type ℓ} (initial : T) where
  abbrev pub OfWriter : Buffer T → Writer T → Type ℓ
  OfWriter b (filled v) = b.slots b.writing ≡ v
  OfWriter b _ = Unit

  abbrev pub OfReader : Buffer T → Reader T → Type ℓ
  OfReader b (holding left observed) = ¬ (state_version observed ≡ b.read_version) × Unit {ℓ}
  OfReader b (copying x) = b.slots b.reading ≡ x
  OfReader b _ = Unit

  -- Whole frames that were published, none older than one returned before.
  abbrev pub InOrder : List T → ℕ → List (Delivery T) → Type ℓ
  InOrder log bound [] = Unit
  InOrder log bound (d ∷ ds) =
      (d.version ≤ bound)
      × (d.first ≡ frame_at initial log d.version)
      × (d.last ≡ frame_at initial log d.version)
      × InOrder log d.version ds

  pub record Inv (s : System T) : Type ℓ where
    pub apart : Apart s.buffer
    pub counted : s.buffer.write_version ≡ length s.published
    pub announced : state_version s.buffer.latest ≡ length s.published
    pub behind : s.buffer.read_version ≤ length s.published
    pub held : s.buffer.slots s.buffer.reading ≡ frame_at initial s.published s.buffer.read_version
    pub fresh :
        s.buffer.read_version ≢ length s.published
        → s.buffer.slots (state_index s.buffer.latest)
          ≡ frame_at initial s.published (length s.published)
    pub of_writer : OfWriter s.buffer s.writer
    pub of_reader : OfReader s.buffer s.reader
    pub in_order : InOrder s.published s.buffer.read_version s.delivered

  frame_at-older :
      (v : T) (log : List T) (k : ℕ)
      → k ≤ length log
      → frame_at initial (v ∷ log) k ≡ frame_at initial log k
  frame_at-older v log k h = ground arith

  frame_at-newest : (v : T) (log : List T) → frame_at initial (v ∷ log) (suc (length log)) ≡ v
  frame_at-newest v log = ground arith

  InOrder-publish :
      (v : T) (log : List T) (bound : ℕ) (ds : List (Delivery T))
      → bound ≤ length log
      → InOrder log bound ds
      → InOrder (v ∷ log) bound ds
  InOrder-publish v log bound [] h o = tt
  InOrder-publish v log bound (d ∷ ds) h o = (
    o.0,
    ground (arith, frame_at-older v log d.version),
    ground (arith, frame_at-older v log d.version),
    InOrder-publish v log d.version ds (omega arith) o.3,
  )

  InOrder-mono :
      (log : List T) (low high : ℕ) (ds : List (Delivery T))
      → low ≤ high
      → InOrder log low ds
      → InOrder log high ds
  InOrder-mono log low high [] h o = tt
  InOrder-mono log low high (d ∷ ds) h o = (omega arith, o.1, o.2, o.3)

  start-Inv : Inv (start initial)
  unfolding start create
  start-Inv = ground (arith, state_index-pack_state 0 0 (omega arith), state_version-pack_state 0 0)

  Step-Inv : {s t : System T} → length t.published < 2 ^ 62 → Step s t → Inv s → Inv t
  Step-Inv small (begin_publish v e) i = ground arith
  Step-Inv {s} small (smear v garbage e) i = unfold store in ground arith
  Step-Inv small (complete v e) i = unfold store in ground arith
  Step-Inv {s} small (swap v e) i =
      unfold exchange in
      ground (
        arith,
        state_index-pack_state (s.buffer.write_version + 1) s.buffer.writing,
        state_version-pack_state (s.buffer.write_version + 1) s.buffer.writing,
        frame_at-older v s.published s.buffer.read_version,
        frame_at-newest v s.published,
        InOrder-publish v s.published s.buffer.read_version s.delivered,
      )
  Step-Inv small (begin_read e) i = ground arith
  Step-Inv small (give_up e) i = ground arith
  Step-Inv small (load left e) i = unfold after_load in ground arith
  Step-Inv small (cas_fails left observed e) i = ground arith
  Step-Inv {s} small (cas_wins left observed e h) i =
      unfold take in
      ground (
        arith,
        state_index-pack_state (state_version observed) s.buffer.reading,
        state_version-pack_state (state_version observed) s.buffer.reading,
        InOrder-mono s.published s.buffer.read_version (length s.published) s.delivered,
      )
  Step-Inv small (finish x e) i = unfold deliver in ground arith

  published-grows : {s t : System T} → Step s t → length s.published ≤ length t.published
  published-grows (swap v e) = omega arith
  published-grows (begin_publish v e) = omega arith
  published-grows _ = omega arith

  pub Reach-Inv : {s : System T} → length s.published < 2 ^ 62 → Reach initial s → Inv s
  Reach-Inv small begin = start-Inv
  Reach-Inv small (next r st) = Step-Inv small st (Reach-Inv (omega (arith, published-grows st)) r)
