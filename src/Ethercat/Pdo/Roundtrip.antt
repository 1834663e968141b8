-- ===== src/Ethercat/Pdo/Roundtrip.antt =====
-- The bytes of a packed struct, written and read back.
use heimasdk_snapshot_migrat.Prelude.{ℕ, ◌+◌, ◌*◌, ◌/◌, ◌%◌, ◌<◌, ◌≡◌, List, ◌++◌, arith}
use heimasdk_snapshot_migrat.Prelude.Int.{ℤ, wrap, signed}
use heimasdk_snapshot_migrat.Ethercat.Pdo.Bytes.{
  StandardRx, PvtRx, standard_rx_bytes, pvt_rx_bytes, standard_rx_of, pvt_rx_of,
}

wrap8 : (z : ℤ) → wrap 8 (signed 8 (wrap 8 z)) ≡ wrap 8 z
wrap8 z = ground arith

wrap16 : (p : ℕ) → p < 65536 → wrap 16 (signed 16 (p % 256 + p / 256 % 256 * 256)) ≡ p
wrap16 p h = ground arith

wrap32 :
    (p : ℕ)
    → p < 4294967296
    → wrap 32 (
        signed 32
          ((p % 256 + p / 256 % 256 * 256) + (p / 65536 % 256 + p / 16777216 % 256 * 256) * 65536))
      ≡ p
wrap32 p h = ground arith

wrap_lt : (z : ℤ) → (wrap 16 z < 65536) × (wrap 32 z < 4294967296)
wrap_lt z = ground arith

low_byte : (p : ℕ) → (p % 256 + p / 256 % 256 * 256) % 256 ≡ p % 256
low_byte p = omega arith

high_byte : (p : ℕ) → (p % 256 + p / 256 % 256 * 256) / 256 % 256 ≡ p / 256 % 256
high_byte p = omega arith

-- The control word is replaced between the two copies; all other bytes come back as they were.
pub standard_bytes_back :
    (rx : StandardRx) (word : ℕ) (rest : List ℕ)
    → standard_rx_bytes
        (record (standard_rx_of (standard_rx_bytes rx ++ rest)) { control_word = word })
      ≡ standard_rx_bytes (record rx { control_word = word })
standard_bytes_back rx word rest = rw (
  wrap32 (wrap 32 rx.target_position) (wrap_lt rx.target_position).1,
  wrap32 (wrap 32 rx.target_velocity) (wrap_lt rx.target_velocity).1,
  wrap16 (wrap 16 rx.target_torque) (wrap_lt rx.target_torque).0,
  wrap8 rx.mode,
  wrap8 rx.undefined_byte,
  low_byte rx.max_torque,
  high_byte rx.max_torque,
)

pub pvt_bytes_back :
    (rx : PvtRx) (word : ℕ) (rest : List ℕ)
    → pvt_rx_bytes (record (pvt_rx_of (pvt_rx_bytes rx ++ rest)) { control_word = word })
      ≡ pvt_rx_bytes (record rx { control_word = word })
pvt_bytes_back rx word rest = rw (
  wrap32 (wrap 32 rx.target_position) (wrap_lt rx.target_position).1,
  wrap32 (wrap 32 rx.target_velocity) (wrap_lt rx.target_velocity).1,
  wrap32 (wrap 32 rx.pvt_kp) (wrap_lt rx.pvt_kp).1,
  wrap32 (wrap 32 rx.pvt_kd) (wrap_lt rx.pvt_kd).1,
  wrap16 (wrap 16 rx.target_torque) (wrap_lt rx.target_torque).0,
  wrap8 rx.mode,
  wrap8 rx.undefined_byte,
)
