-- ===== src/Imu/Running.antt =====
-- `start`, `stop` and a pass of `readLoop` of src/rs232_imu_backend.cpp. Whether the serial port opens
-- and what `read` returns are arguments; the decoder of the YESENSE protocol, which is third-party
-- code, is a function on a state `D` of its own. `stop` joins the thread, which closes the port.
pub mod Consistent
use heimasdk_snapshot_migrat.Prelude.{
  ℕ, Bool, true, false, List, [], ◌∷◌, Option, none, some, if◌then◌else◌, replicate, codes,
}
use heimasdk_snapshot_migrat.Prelude.Int.{ℤ, pos, negsuc}
use heimasdk_snapshot_migrat.Motor.{Float}
use heimasdk_snapshot_migrat.SnapshotBuffer.{Buffer, publish}
use heimasdk_snapshot_migrat.Ethercat.MtDevice.{bytes_eq}
use heimasdk_snapshot_migrat.Imu.{
  ImuProtocol, Framer, Imu, normalize_type, protocol_for_type, feed_bytes, decode_frame,
}

-- `framer` and `decoder` are locals of the read loop.
pub record ImuRuntime (F D : Type 0) : Type 0 where
  pub buffer : Buffer (Imu F)
  pub device : List ℕ
  pub type_name : List ℕ
  pub baudrate : ℤ
  pub is_open : Bool
  pub stop : Bool
  pub running : Bool
  pub reading : Bool
  pub framer : Framer
  pub decoder : D

abbrev new_framer : Framer
new_framer = record { frame = replicate 128 0; frame_index = 0 }

module _ {F : Type 0} where
  -- The values that the frames of a pass decode to, published in order.
  pub publish_frames : (List ℕ → Option (Imu F)) → List (List ℕ) → Buffer (Imu F) → Buffer (Imu F)
  publish_frames decode [] buffer = buffer
  publish_frames decode (frame ∷ frames) buffer =
      publish_frames decode frames
        (elim (decode frame) [ none ↦ buffer | some decoded ↦ publish decoded buffer ])

  -- `DriverSDK::imuStruct{}`.
  abbrev pub zero_imu : ⦃fl : Float F⦄ → Imu F
  zero_imu ⦃fl⦄ =
      let zero = fl.of_int (pos 0) in
      record { rpy = (zero, zero, zero); gyr = (zero, zero, zero); acc = (zero, zero, zero) }

module _ {F D : Type 0} where
  pub stop : ImuRuntime F D → ImuRuntime F D
  stop r = record r { stop = true; reading = false; is_open = false; running = false }

module _ {F D : Type 0} ⦃fl : Float F⦄ where
  -- The port is open and the thread begins.
  unfoldable pub opened : D → List ℕ → ℤ → List ℕ → ImuRuntime F D → ImuRuntime F D
  opened fresh device baudrate type_name r = record {
    buffer = publish zero_imu r.buffer;
    device = device;
    type_name = normalize_type type_name;
    baudrate = baudrate;
    is_open = true;
    stop = false;
    running = true;
    reading = true;
    framer = new_framer;
    decoder = fresh;
  }

  -- With a device and a type that are not null.
  unfoldable pub start_on : D → Bool → List ℕ → ℤ → List ℕ → ImuRuntime F D → ImuRuntime F D × ℤ
  unfolding opened
  start_on fresh opens device baudrate type_name r = elim (protocol_for_type type_name) [
    | none ↦ (r, negsuc 0)
    | some protocol ↦
        if r.running
        then (r, pos 0)
        else if opens
        then (opened fresh device baudrate type_name r, pos 0)
        else (r, negsuc 0)
  ]

  unfoldable pub start :
      D → Bool → Option (List ℕ) → ℤ → Option (List ℕ) → ImuRuntime F D → ImuRuntime F D × ℤ
  unfolding start_on
  start fresh opens none baudrate type_name r = (r, negsuc 0)
  start fresh opens (some device) baudrate none r = (r, negsuc 0)
  start fresh opens (some device) baudrate (some type_name) r =
      start_on fresh opens device baudrate type_name r

  -- The loop over the bytes, for the protocols other than YESENSE.
  pub read_frames : Option ImuProtocol → List ℕ → ImuRuntime F D → ImuRuntime F D
  unfolding publish_frames
  read_frames none bytes r = r
  read_frames (some protocol) bytes r =
      let fed = feed_bytes protocol bytes r.framer in
      record r { framer = fed.0; buffer = publish_frames (decode_frame r.type_name) fed.1 r.buffer }

  -- The bytes of one `read`, none where it returned nothing.
  pub read_pass : (D → List ℕ → D × Option (Imu F)) → List ℕ → ImuRuntime F D → ImuRuntime F D
  unfolding read_frames
  read_pass feed [] r = r
  read_pass feed (byte ∷ bytes) r =
      if bytes_eq r.type_name (codes "YESENSE")
      then (let fed = feed r.decoder (byte ∷ bytes) in
          record r {
            decoder = fed.0;
            buffer = elim fed.1 [ none ↦ r.buffer | some decoded ↦ publish decoded r.buffer ];
          })
      else read_frames (protocol_for_type r.type_name) (byte ∷ bytes) r
