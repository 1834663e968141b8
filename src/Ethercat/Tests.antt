-- ===== src/Ethercat/Tests.antt =====
-- A domain of 40 bytes with two drives, the second of which lies partly outside.
use mathlib.Core.List.{Memᴰ}
use heimasdk_snapshot_migrat.Prelude.{
  ℕ, ◌+◌, ◌-◌, ◌^◌, ◌<◌, inl, ◌≡◌, refl, true, List, [], ◌∷◌, some, if◌then◌else◌, ltb, arith,
  codes, length, get_elem?, replicate,
}
use heimasdk_snapshot_migrat.Prelude.Int.{ℤ, pos, negsuc, ◌*ℤ◌}
use heimasdk_snapshot_migrat.Motor.Sample.{sample_parameters, sample_target, whole, div_ℤ}
use heimasdk_snapshot_migrat.Ethercat.MtDevice.{RxProfile, TxProfile}
use heimasdk_snapshot_migrat.Ethercat.Frames.{
  TargetFrame, ActualFrame, PackedFrame, default_packed, default_packed_frame, default_target_frame,
  default_actual_frame,
}
use heimasdk_snapshot_migrat.Ethercat.Pdo.{pack_for_realtime}
use heimasdk_snapshot_migrat.Ethercat.Pdo.Torque.{
  torque_to_raw_limited, torque_to_raw_limited-wraps,
}
use heimasdk_snapshot_migrat.Ethercat.Bindings.{PdoBinding}
use heimasdk_snapshot_migrat.Ethercat.Snapshot.{
  write_bindings, write_snapshot, write_packed_snapshot, read_snapshot,
}
use heimasdk_snapshot_migrat.Ethercat.Snapshot.Writing.{AllMiss, write_bindings-keeps}
use heimasdk_snapshot_migrat.Ethercat.Snapshot.Packing.{write_packed_snapshot-pack}
use heimasdk_snapshot_migrat.Ethercat.Snapshot.Reading.{IsRead, read_snapshot-IsRead}

-- A frame of time 1000 that enables motor 2.
abbrev enabling_frame : PackedFrame
enabling_frame = record default_packed_frame {
  timestamp = pos 1000;
  targets = λ i. record default_packed { enabled = pos 1 };
  valid = λ i. ltb i 3;
}

torque_to_raw_limited-wraps_example :
    torque_to_raw_limited (pos 400) sample_parameters (pos 40000) ≡ negsuc (2 ^ 16 - 40000 - 1)
unfolding ◌*ℤ◌ div_ℤ
torque_to_raw_limited-wraps_example =
    torque_to_raw_limited-wraps (pos 400) sample_parameters 40000 40000 refl refl (omega arith)
      (omega arith) (omega arith) (omega arith)

abbrev binding : ℕ → ℤ → RxProfile → PdoBinding ℤ
binding i offset profile = record {
  global_index = i;
  backend_local_index = i;
  alias = pos (i + 1);
  master = pos 0;
  slave = pos i;
  domain = pos 0;
  rx_offset = offset;
  tx_offset = offset;
  rx_profile = profile;
  tx_profile = TxProfile.standard;
  rx_size = 0;
  tx_size = 0;
  type_name = codes "MT_Device";
  parameters = sample_parameters;
}

abbrev two_bindings : List (PdoBinding ℤ)
two_bindings = binding 0 (pos 4) RxProfile.standard ∷ binding 1 (pos 20) RxProfile.pvt ∷ []

abbrev zeros : List ℕ
zeros = replicate 40 0

abbrev both_targets : TargetFrame ℤ
both_targets = record default_target_frame { targets = λ i. sample_target; valid = λ i. true }

abbrev both_packed : PackedFrame
both_packed = record default_packed_frame {
  targets = λ i.
      pack_for_realtime sample_target sample_parameters
        (if ltb i 1 then RxProfile.standard else RxProfile.pvt);
  valid = λ i. true;
}

abbrev no_actuals : ActualFrame ℤ
no_actuals = default_actual_frame

write_bindings-keeps_example :
    (length (write_bindings 40 both_targets no_actuals two_bindings zeros) ≡ length zeros)
    × ((i : ℕ)
        → i < length zeros
        → AllMiss i two_bindings
        → get_elem? (write_bindings 40 both_targets no_actuals two_bindings zeros) i
          ≡ get_elem? zeros i)
write_bindings-keeps_example =
    write_bindings-keeps 40 both_targets no_actuals two_bindings zeros (omega arith)
      (inl refl, (inl refl, tt))

write_packed_snapshot-pack_example :
    write_packed_snapshot (some zeros) 40 two_bindings both_packed no_actuals
    ≡ write_snapshot (some zeros) 40 two_bindings both_targets no_actuals
write_packed_snapshot-pack_example =
    write_packed_snapshot-pack (some zeros) 40 two_bindings both_targets both_packed no_actuals
      ((refl, refl, refl), ((refl, refl, refl), tt))

read_snapshot-IsRead_example :
    IsRead (some zeros) 40 two_bindings 1 (read_snapshot (some zeros) 40 two_bindings no_actuals)
read_snapshot-IsRead_example =
    read_snapshot-IsRead (some zeros) 40 two_bindings no_actuals (binding 1 (pos 20) RxProfile.pvt)
      (Memᴰ.tail (Memᴰ.head refl)) (omega arith)

abbrev two_modes : List ℤ
two_modes = pos 8 ∷ pos 5 ∷ []
