-- ===== src/SnapshotBuffer/Packing.antt =====
-- The packed word of `latest_`: what `packState` puts in, `stateVersion` and `stateIndex` take out.
use heimasdk_snapshot_migrat.Prelude.{
  ℕ, ◌+◌, ◌*◌, ◌%◌, ◌^◌, ◌<◌, ◌≡◌, arith, bit_and_three, bit_or_two_bits,
}
use heimasdk_snapshot_migrat.SnapshotBuffer.{pack_state, state_index, state_version}

shifted : (version : ℕ) → version * 4 % 2 ^ 64 ≡ version % 2 ^ 62 * 4
shifted version = omega arith

pub pack_state_lem :
    (version index : ℕ) → pack_state version index ≡ version % 2 ^ 62 * 4 + index % 4
unfolding pack_state
pack_state_lem version index =
    rw (shifted version, bit_and_three index)
      (bit_or_two_bits (version % 2 ^ 62) (index % 4) (omega arith))

pub state_index-lt : (state : ℕ) → state_index state < 4
unfolding state_index
state_index-lt state = omega (arith, bit_and_three state)

pub state_index-pack_state :
    (version index : ℕ) → index < 4 → state_index (pack_state version index) ≡ index
unfolding state_index
state_index-pack_state version index h =
    omega (arith, bit_and_three (pack_state version index), pack_state_lem version index)

pub state_version-pack_state :
    (version index : ℕ) → state_version (pack_state version index) ≡ version % 2 ^ 62
unfolding state_version
state_version-pack_state version index = omega (arith, pack_state_lem version index)
