-- ===== src/SnapshotBuffer/Safety.antt =====
-- What the two threads may rely on, in every interleaving of up to 2^62 published frames.
use heimasdk_snapshot_migrat.Prelude.{
  ℕ, zero, suc, ◌^◌, ◌<◌, ◌≡◌, ◌≢◌, refl, ◌⊎◌, inl, inr, Bool, true, false, ◌∷◌, arith, length,
  ◌==◌, ap,
}
use heimasdk_snapshot_migrat.SnapshotBuffer.{
  Buffer, publish, take, attempts, read_into, state_version,
}
use heimasdk_snapshot_migrat.SnapshotBuffer.Machine.{
  resting, waiting, testing, copying, System, after_load, deliver, Step, begin_publish, smear,
  complete, swap, begin_read, give_up, load, cas_fails, cas_wins, finish, Reach, next,
}
use heimasdk_snapshot_migrat.SnapshotBuffer.Invariant.{frame_at, InOrder, Inv, Reach-Inv}

module _ {ℓ} {T : Type ℓ} {initial : T} {s : System T} (small : length s.published < 2 ^ 62) where
  -- While the consumer copies, its slot keeps the frame that it held when the copy began, and the
  -- producer writes to another slot: a copy is never torn.
  pub never_torn :
      Reach initial s
      → (x : T) → s.reader ≡ copying x
      → (s.buffer.slots s.buffer.reading ≡ x) × (s.buffer.writing ≢ s.buffer.reading)
  never_torn r x e = ground (arith, Reach-Inv initial small r)

  -- Every frame that was ever delivered is a published one (or the initial one), the same from the
  -- beginning to the end of its copy, and the versions delivered never go back.
  pub deliveries-InOrder :
      Reach initial s → InOrder initial s.published s.buffer.read_version s.delivered
  deliveries-InOrder r = (Reach-Inv initial small r).in_order

-- What `readInto` leaves behind when it runs with no step of the producer between its own.
abbrev pub after_read {ℓ} : {T : Type ℓ} → (ℕ → Bool) → System T → System T
after_read fails s = record s {
  buffer = (read_into fails s.buffer).1;
  reader = waiting;
  delivered = deliver (read_into fails s.buffer).0 (read_into fails s.buffer).1 ∷ s.delivered;
}

copies_up_to_date {ℓ} :
    {T : Type ℓ} (left : ℕ) (b : Buffer T) (x : T)
    → after_load left b ≡ copying x
    → state_version b.latest ≡ b.read_version
unfolding after_load
copies_up_to_date left b x e = ground arith

module _ {ℓ} {T : Type ℓ} (initial : T) where
  -- A copy of a frame whose version is the newest is a copy of the newest frame.
  copy_is_newest :
      {t : System T} (x : T)
      → Inv initial t
      → t.reader ≡ copying x
      → t.buffer.read_version ≡ length t.published
      → x ≡ frame_at initial t.published (length t.published)
  copy_is_newest {t} x j e v = ground (arith, j.held, ap (frame_at initial t.published) v)

  copies_newest_at :
      {s t : System T} (x : T)
      → Inv initial s
      → Inv initial t
      → Step s t
      → s.reader ≢ testing 0
      → t.reader ≡ copying x
      → (s.reader ≡ copying x) ⊎ (x ≡ frame_at initial t.published (length t.published))
  copies_newest_at x i j (begin_publish v p) live e = inl e
  copies_newest_at x i j (smear v garbage p) live e = inl e
  copies_newest_at x i j (complete v p) live e = inl e
  copies_newest_at x i j (swap v p) live e = inl e
  copies_newest_at x i j (begin_read p) live e = cc
  copies_newest_at x i j (give_up p) live e = absurd (live p)
  copies_newest_at {s} x i j (load left p) live e =
      inr (copy_is_newest x j e (omega (arith, copies_up_to_date left s.buffer x e, j.announced)))
  copies_newest_at x i j (cas_fails left observed p) live e = cc
  copies_newest_at x i j (cas_wins left observed p h) live e = unfold take in ground arith
  copies_newest_at x i j (finish y p) live e = cc

  -- A copy that begins otherwise than after three failed exchanges is of the newest published frame.
  pub copies_newest :
      {s t : System T} (x : T)
      → length s.published < 2 ^ 62
      → length t.published < 2 ^ 62
      → Reach initial s
      → Step s t
      → s.reader ≢ testing 0
      → t.reader ≡ copying x
      → (s.reader ≡ copying x) ⊎ (x ≡ frame_at initial t.published (length t.published))
  copies_newest x small small' r st =
      copies_newest_at x (Reach-Inv initial small r) (Reach-Inv initial small' (next r st)) st

  -- `publish` is one of the producer's runs: with no step of the consumer between its own.
  pub publish_runs :
      {s : System T} (v : T)
      → Reach initial s
      → s.writer ≡ resting
      → Reach initial
          (record s { buffer = publish v s.buffer; writer = resting; published = v ∷ s.published })
  unfolding publish
  publish_runs v r e = next (next (next r (begin_publish v e)) (complete v refl)) (swap v refl)

  -- One attempt, given that the later ones run.
  attempts_run_on :
      {s : System T} (left : ℕ) (fails : ℕ → Bool)
      → Reach initial s
      → s.reader ≡ testing (suc left)
      → ((t : System T)
          → Reach initial t
          → t.reader ≡ testing left
          → let b = attempts left fails t.buffer in
            Reach initial (record t { buffer = b; reader = copying (b.slots b.reading) }))
      → (old lost : Bool) → state_version s.buffer.latest == s.buffer.read_version ≡ old
      → fails left ≡ lost
      → let b = attempts (suc left) fails s.buffer in
        Reach initial (record s { buffer = b; reader = copying (b.slots b.reading) })
  unfolding attempts after_load
  attempts_run_on left fails r e later true lost p q = rw p (rw p at (next r (load left e)))
  attempts_run_on left fails r e later false true p q =
      rw (p, q) (later _ (next (rw p at (next r (load left e))) (cas_fails left _ refl)) refl)
  attempts_run_on left fails r e later false false p q =
      rw (p, q) (unfold take in next (rw p at (next r (load left e))) (cas_wins left _ refl refl))

  attempts_run :
      (left : ℕ) (fails : ℕ → Bool) (s : System T)
      → Reach initial s
      → s.reader ≡ testing left
      → let b = attempts left fails s.buffer in
        Reach initial (record s { buffer = b; reader = copying (b.slots b.reading) })
  unfolding attempts
  attempts_run zero fails s r e = next r (give_up e)
  attempts_run (suc left) fails s r e =
      attempts_run_on left fails r e (attempts_run left fails)
        (state_version s.buffer.latest == s.buffer.read_version) (fails left) refl refl

  -- `readInto` is one of the consumer's runs, whichever of its weak exchanges fail without cause.
  pub read_into_runs :
      {s : System T} (fails : ℕ → Bool)
      → Reach initial s
      → s.reader ≡ waiting
      → Reach initial (after_read fails s)
  unfolding read_into deliver
  read_into_runs {s} fails r e =
      next (attempts_run 3 fails _ (next r (begin_read e)) refl) (finish _ refl)
