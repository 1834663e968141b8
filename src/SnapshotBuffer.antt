-- ===== src/SnapshotBuffer.antt =====
-- include/rmd_can_sdk/rmd_snapshot_buffer.h: the three-slot buffer between one producer and one
-- consumer, with the version and the slot index packed in one atomic word.
-- `buffers_` is a family of slots of which the code touches those at `writing_`, `reading_` and the
-- index in `latest_`. `SnapshotBuffer` has no locals that outlive a call.
pub mod Packing
pub mod Sequential
pub mod Machine
pub mod Invariant
pub mod Safety
mod Tests
use heimasdk_snapshot_migrat.Prelude.{
  ℕ, zero, suc, ◌+◌, ◌*◌, ◌/◌, ◌%◌, ◌^◌, bit_and, bit_or, Bool, true, false, if◌then◌else◌, ◌==◌,
  update,
}

pub record Buffer {ℓ} (T : Type ℓ) : Type ℓ where
  pub slots : ℕ → T
  pub latest : ℕ
  pub writing : ℕ
  pub write_version : ℕ
  pub reading : ℕ
  pub read_version : ℕ

-- `version << 2` on 64 bits loses the two highest bits.
unfoldable pub pack_state : ℕ → ℕ → ℕ
pack_state version index = bit_or (version * 4 % 2 ^ 64) (bit_and index 3)

unfoldable pub state_index : ℕ → ℕ
state_index state = bit_and state 3

unfoldable pub state_version : ℕ → ℕ
state_version state = state / 4

module _ {ℓ} {T : Type ℓ} where
  pub create : T → Buffer T
  create initial = record {
    slots = λ _. initial;
    latest = pack_state 0 0;
    writing = 1;
    write_version = 0;
    reading = 2;
    read_version = 0;
  }

  -- `buffers_[writing_] = value`
  pub store : T → Buffer T → Buffer T
  store value b = record b { slots = update b.slots b.writing value }

  -- The exchange of `latest_`, and the producer's own fields after it.
  pub exchange : Buffer T → Buffer T
  exchange b = record b {
    latest = pack_state next_version b.writing;
    write_version = next_version;
    writing = state_index b.latest;
  }
    where
      next_version : ℕ
      next_version = (b.write_version + 1) % 2 ^ 64

  pub publish : T → Buffer T → Buffer T
  unfolding store exchange
  publish value b = exchange (store value b)

  -- The successful `compare_exchange_weak`, and the consumer's own fields after it.
  unfoldable pub take : ℕ → Buffer T → Buffer T
  take observed b = record b {
    latest = pack_state (state_version observed) b.reading;
    reading = state_index observed;
    read_version = state_version observed;
  }

  -- The loop with `left` attempts to go. `fails left` says that the weak exchange of that attempt
  -- fails without cause, as it may; with one thread running it has no other reason to fail.
  unfoldable pub attempts : ℕ → (ℕ → Bool) → Buffer T → Buffer T
  attempts zero fails b = b
  attempts (suc left) fails b =
      let retry = attempts left fails b in
      if state_version b.latest == b.read_version
      then b
      else if fails left
      then retry
      else take b.latest b

  unfoldable pub read_into : (ℕ → Bool) → Buffer T → T × Buffer T
  unfolding attempts take
  read_into fails b = let after = attempts 3 fails b in (after.slots after.reading, after)
