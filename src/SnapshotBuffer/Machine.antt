-- ===== src/SnapshotBuffer/Machine.antt =====
-- The producer and the consumer thread over one buffer, interleaved in any order.
-- A frame is copied in many steps: while the producer fills its slot, the slot may hold anything,
-- and the consumer's copy remembers what its slot held when the copy began.
use heimasdk_snapshot_migrat.Prelude.{ℕ, suc, ◌≡◌, List, [], ◌∷◌, if◌then◌else◌, ◌==◌}
use heimasdk_snapshot_migrat.SnapshotBuffer.{
  Buffer, create, store, exchange, take, state_index, state_version,
}

pub data Writer {ℓ} (T : Type ℓ) : Type ℓ where
  resting : Writer T
  filling : T → Writer T
  filled : T → Writer T

-- `testing left`: about to load `latest_`. `holding left observed`: between the load and the
-- exchange. `copying first`: in `out = buffers_[reading_]`.
pub data Reader {ℓ} (T : Type ℓ) : Type ℓ where
  waiting : Reader T
  testing : ℕ → Reader T
  holding : ℕ → ℕ → Reader T
  copying : T → Reader T

-- What a call of `readInto` returned: the slot at the beginning and at the end of the copy.
pub record Delivery {ℓ} (T : Type ℓ) : Type ℓ where
  pub version : ℕ
  pub first : T
  pub last : T

-- `published` and `delivered` are the history, newest first.
pub record System {ℓ} (T : Type ℓ) : Type ℓ where
  pub buffer : Buffer T
  pub writer : Writer T
  pub reader : Reader T
  pub published : List T
  pub delivered : List (Delivery T)

module _ {ℓ} {T : Type ℓ} where
  unfoldable pub start : T → System T
  start initial = record {
    buffer = create initial;
    writer = resting;
    reader = waiting;
    published = [];
    delivered = [];
  }

  -- The test of one attempt, after its load.
  unfoldable pub after_load : ℕ → Buffer T → Reader T
  after_load left b =
      if state_version b.latest == b.read_version
      then copying (b.slots b.reading)
      else holding left b.latest

  unfoldable pub deliver : T → Buffer T → Delivery T
  deliver x b = record { version = b.read_version; first = x; last = b.slots b.reading }

pub data Step {ℓ} {T : Type ℓ} (s : System T) : System T → Type ℓ where
  begin_publish : (v : T) → s.writer ≡ resting → Step s (record s { writer = filling v })
  smear :
      (v garbage : T) → s.writer ≡ filling v → Step s (record s { buffer = store garbage s.buffer })
  complete :
      (v : T)
      → s.writer ≡ filling v
      → Step s (record s { buffer = store v s.buffer; writer = filled v })
  swap :
      (v : T)
      → s.writer ≡ filled v
      → Step s
          (record s { buffer = exchange s.buffer; writer = resting; published = v ∷ s.published })
  begin_read : s.reader ≡ waiting → Step s (record s { reader = testing 3 })
  give_up :
      s.reader ≡ testing 0
      → Step s (record s { reader = copying (s.buffer.slots s.buffer.reading) })
  load :
      (left : ℕ)
      → s.reader ≡ testing (suc left)
      → Step s (record s { reader = after_load left s.buffer })
  cas_fails :
      (left observed : ℕ)
      → s.reader ≡ holding left observed
      → Step s (record s { reader = testing left })
  cas_wins :
      (left observed : ℕ)
      → s.reader ≡ holding left observed
      → s.buffer.latest ≡ observed
      → Step s (record s {
        buffer = take observed s.buffer;
        reader = copying (s.buffer.slots (state_index observed));
      })
  finish :
      (x : T)
      → s.reader ≡ copying x
      → Step s (record s { reader = waiting; delivered = deliver x s.buffer ∷ s.delivered })

pub data Reach {ℓ} {T : Type ℓ} (initial : T) : System T → Type ℓ where
  begin : Reach initial (start initial)
  next : {s t : System T} → Reach initial s → Step s t → Reach initial t
