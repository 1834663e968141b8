-- ===== src/Imu/Tests.antt =====
-- Frames of five bytes, and a unit that is started and stopped.
use heimasdk_snapshot_migrat.Prelude.{
  refl, true, false, Option, some, none, codes, List, ℕ, [], ◌∷◌, ◌++◌, arith, replicate,
}
use heimasdk_snapshot_migrat.Imu.{Imu, ImuProtocol, Framer, feed_bytes}
use heimasdk_snapshot_migrat.Imu.Framing.{
  IsFraming, AllHeaders, Completes, feed_bytes-AllHeaders, feed_bytes-Completes,
}
use heimasdk_snapshot_migrat.Imu.Running.{
  ImuRuntime, zero_imu, start, start_on, opened, stop, read_pass,
}
use heimasdk_snapshot_migrat.Imu.Running.Consistent.{
  IsConsistent, begin, starts, stops, reads, ImuRuntime-IsConsistent,
}
use heimasdk_snapshot_migrat.SnapshotBuffer.{create}
use heimasdk_snapshot_migrat.Prelude.Int.{ℤ, pos}
use heimasdk_snapshot_migrat.Motor.Sample.{whole}

abbrev short_protocol : ImuProtocol
short_protocol = record { frame_length = 5; header0 = 0x5a; header1 = 0xa5 }

abbrev waiting : Framer
waiting = record { frame = replicate 128 0; frame_index = 0 }

waiting-IsFraming : IsFraming short_protocol waiting
waiting-IsFraming = record {
  size = refl;
  bound = omega arith;
  first = λ h. absurd (omega arith);
  second = λ h. absurd (omega arith);
}

abbrev noisy : List ℕ
noisy = 1 ∷ 2 ∷ 0x5a ∷ 0xa5 ∷ 7 ∷ 8 ∷ 9 ∷ 0x5a ∷ []

feed_bytes-AllHeaders_example :
    IsFraming short_protocol (feed_bytes short_protocol noisy waiting).0
    × AllHeaders short_protocol (feed_bytes short_protocol noisy waiting).1
feed_bytes-AllHeaders_example =
    feed_bytes-AllHeaders short_protocol noisy waiting (omega arith, omega arith) waiting-IsFraming

feed_bytes-Completes_example :
    Completes short_protocol
      (0x5a ∷ 0xa5 ∷ 7 ∷ 8 ∷ 9 ∷ [])
      (feed_bytes short_protocol ((1 ∷ 2 ∷ []) ++ 0x5a ∷ 0xa5 ∷ 7 ∷ 8 ∷ 9 ∷ []) waiting)
feed_bytes-Completes_example =
    feed_bytes-Completes short_protocol (1 ∷ 2 ∷ []) 7 (8 ∷ 9 ∷ []) waiting (omega arith) refl refl
      (λ e. omega arith, (λ e. omega arith, tt)) refl

-- A unit without a decoder of its own.
abbrev unit : ImuRuntime ℤ ℕ
unit = record {
  buffer = create zero_imu;
  device = [];
  type_name = [];
  baudrate = pos 0;
  is_open = false;
  stop = true;
  running = false;
  reading = false;
  framer = record { frame = replicate 128 0; frame_index = 0 };
  decoder = 0;
}

abbrev no_decoder : ℕ → List ℕ → ℕ × Option (Imu ℤ)
no_decoder d bytes = (d, none)

abbrev started : ImuRuntime ℤ ℕ
started = (start 0 true (some (codes "/dev/ttyS0")) (pos 115200) (some (codes "xsens")) unit).0

-- A start, a pass over three bytes, a stop, and a start with a type that is not known.
ImuRuntime-IsConsistent_example :
    IsConsistent
      (start 0 true
        (some [])
        (pos 0)
        (some (codes "other"))
        (stop (read_pass no_decoder (0xfa ∷ 0xff ∷ 1 ∷ []) started))).0
unfolding start start_on opened
ImuRuntime-IsConsistent_example =
    ImuRuntime-IsConsistent 0 no_decoder {built = unit}
      (record { reading = refl; is_open = refl; stop = refl })
      (starts true (some []) (pos 0) (some (codes "other")) (
        stops (
          reads (0xfa ∷ 0xff ∷ 1 ∷ [])
            (starts true (some (codes "/dev/ttyS0")) (pos 115200) (some (codes "xsens")) begin)
            refl)))
