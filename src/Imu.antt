-- ===== src/Imu.antt =====
-- src/rs232_imu_backend.cpp: the byte stream of an inertial unit cut into frames, their checks, and
-- their values; Running has the unit that reads them. The YESENSE decoder is third-party code.
-- A frame is the array of 128 bytes that the read loop fills; a `char const*` type is `none` when
-- it is null.
pub mod Framing
pub mod Checksum
pub mod Running
mod Tests
use heimasdk_snapshot_migrat.Prelude.{
  ℕ, zero, suc, ◌+◌, ◌-◌, ◌*◌, ◌/◌, ◌%◌, ◌^◌, bit_and, bit_xor, Bool, true, false, not, ◌&&◌, ◌||◌,
  List, [], ◌∷◌, ◌++◌, map, Option, none, some, if◌then◌else◌, ltb, leb, ◌==◌, get_or, set, drop,
  codes,
}
use heimasdk_snapshot_migrat.Prelude.Int.{pos}
use heimasdk_snapshot_migrat.Motor.{Float, pi}
use heimasdk_snapshot_migrat.Ethercat.MtDevice.{to_upper, bytes_eq}

pub record ImuProtocol : Type 0 where
  pub frame_length : ℕ
  pub header0 : ℕ
  pub header1 : ℕ

-- The framing state of the read loop.
pub record Framer : Type 0 where
  pub frame : List ℕ
  pub frame_index : ℕ

pub record Imu (F : Type 0) : Type 0 where
  pub rpy : F × F × F
  pub gyr : F × F × F
  pub acc : F × F × F

abbrev pub normalize_type : List ℕ → List ℕ
normalize_type value = map to_upper value

abbrev pub protocol_for_type : List ℕ → Option ImuProtocol
protocol_for_type type_name =
    let normalized = normalize_type type_name in
    if bytes_eq normalized (codes "XSENS")
    then some (record { frame_length = 50; header0 = 0xfa; header1 = 0xff })
    else if bytes_eq normalized (codes "HIPNUC")
    then some (record { frame_length = 82; header0 = 0x5a; header1 = 0xa5 })
    else if bytes_eq normalized (codes "YESENSE")
    then some (record { frame_length = 0; header0 = 0x59; header1 = 0x53 })
    else none

abbrev is_some {ℓ} : {A : Type ℓ} → Option A → Bool
is_some none = false
is_some (some a) = true

abbrev pub is_supported_imu_type : Option (List ℕ) → Bool
is_supported_imu_type none = false
is_supported_imu_type (some type_name) = is_some (protocol_for_type type_name)

-- One byte in the read loop: the new state, and the frame if this byte completes it.
pub feed_byte : ImuProtocol → ℕ → Framer → Framer × Option (List ℕ)
feed_byte protocol byte s =
    if s.frame_index == 0
    then (if not (byte == protocol.header0)
        then (s, none)
        else (record { frame = set s.frame 0 byte; frame_index = 1 }, none))
    else if s.frame_index == 1
    then (if not (byte == protocol.header1)
        then (
          record {
            frame = set s.frame 0 (if byte == protocol.header0 then byte else 0);
            frame_index = if byte == protocol.header0 then 1 else 0;
          },
          none,
        )
        else (record { frame = set s.frame 1 byte; frame_index = 2 }, none))
    else (let frame = set s.frame s.frame_index byte in
        if s.frame_index + 1 == protocol.frame_length
        then (record { frame = frame; frame_index = 0 }, some frame)
        else (record { frame = frame; frame_index = s.frame_index + 1 }, none))

abbrev pub listed {ℓ} : {A : Type ℓ} → Option A → List A
listed none = []
listed (some a) = a ∷ []

-- The frames that a run of bytes completes.
pub feed_bytes : ImuProtocol → List ℕ → Framer → Framer × List (List ℕ)
feed_bytes protocol [] s = (s, [])
feed_bytes protocol (byte ∷ bytes) s =
    let (s1, out1) = feed_byte protocol byte s in
    let (s2, out2) = feed_bytes protocol bytes s1 in (s2, listed out1 ++ out2)

-- `frame[i] + … + frame[i + n - 1]`.
pub sum_from : ℕ → ℕ → List ℕ → ℕ
sum_from i zero frame = 0
sum_from i (suc n) frame = get_or frame i 0 + sum_from (suc i) n frame

pub xsens_ids_valid : List ℕ → Bool
xsens_ids_valid frame =
    let at = λ (i : ℕ). get_or frame i 0 in
    ((at 4 == 0x20 && at 5 == 0x10 && at 6 == 0x10)
      || (at 4 == 0x20 && at 5 == 0x30 && at 6 == 0x0c))
    && at 19 == 0x40
    && at 20 == 0x20
    && at 21 == 0x0c
    && at 34 == 0x80
    && at 35 == 0x20
    && at 36 == 0x0c

-- `~sum + 1` of an `int` is its negation; of that `& 0xff` keeps the low byte.
pub xsens_checksum : ℕ → ℕ
xsens_checksum sum = if ltb 0xff sum then (256 - sum % 256) % 256 else sum % 256

pub valid_xsens : List ℕ → Bool
valid_xsens frame =
    if not (xsens_ids_valid frame)
    then false
    else xsens_checksum (sum_from 1 48 frame) == get_or frame 49 0

-- The eight shifts of one byte, in an `unsigned int`.
abbrev pub crc_shift : ℕ → ℕ → ℕ
crc_shift zero crc = crc
crc_shift (suc n) crc =
    crc_shift n (
      if not (bit_and crc 0x8000 == 0) then bit_xor (crc * 2 % 2 ^ 32) 0x1021 else crc * 2 % 2 ^ 32)

abbrev pub crc_loop : List ℕ → ℕ → ℕ → ℕ
crc_loop src zero crc = crc
crc_loop src (suc n) crc =
    crc_loop (drop 1 src) n (crc_shift 8 (bit_xor crc (get_or src 0 0 * 256)))

abbrev pub crc_update : ℕ → List ℕ → ℕ → ℕ
crc_update current_crc src len = crc_loop src len current_crc % 2 ^ 16

abbrev pub valid_hipnuc : List ℕ → Bool
valid_hipnuc frame =
    let crc = crc_update (crc_update 0 frame 4) (drop 6 frame) 76 in
    crc == get_or frame 5 0 * 256 + get_or frame 4 0

module _ {F : Type 0} ⦃fl : Float F⦄ where
  abbrev big_endian_float : List ℕ → ℕ → F
  big_endian_float frame i = fl.of_bits (
      get_or frame (i + 3) 0
      + get_or frame (i + 2) 0 * 256
      + get_or frame (i + 1) 0 * 65536
      + get_or frame i 0 * 16777216)

  abbrev little_endian_float : List ℕ → ℕ → F
  little_endian_float frame i = fl.of_bits (
      get_or frame i 0
      + get_or frame (i + 1) 0 * 256
      + get_or frame (i + 2) 0 * 65536
      + get_or frame (i + 3) 0 * 16777216)

  abbrev radians : F → F
  radians degrees = fl.div (fl.mul degrees pi) (fl.of_int (pos 180))

  abbrev gravity : F
  gravity = fl.decimal (pos 981) 2

  abbrev pub decode_xsens : List ℕ → Option (Imu F)
  decode_xsens frame =
      let value = big_endian_float frame in
      if not (valid_xsens frame)
      then none
      else some (record {
        rpy = (radians (value 7), radians (value 11), radians (value 15));
        acc = (value 22, value 26, value 30);
        gyr = (value 37, value 41, value 45);
      })

  abbrev pub decode_hipnuc : List ℕ → Option (Imu F)
  decode_hipnuc frame =
      let value = little_endian_float frame in
      if not (valid_hipnuc frame)
      then none
      else some (record {
        acc = (fl.mul (value 18) gravity, fl.mul (value 22) gravity, fl.mul (value 26) gravity);
        gyr = (radians (value 30), radians (value 34), radians (value 38));
        rpy = (radians (value 58), radians (value 54), radians (value 62));
      })

  abbrev pub decode_frame : List ℕ → List ℕ → Option (Imu F)
  decode_frame type_name frame =
      let normalized = normalize_type type_name in
      if bytes_eq normalized (codes "XSENS")
      then decode_xsens frame
      else if bytes_eq normalized (codes "HIPNUC")
      then decode_hipnuc frame
      else none
