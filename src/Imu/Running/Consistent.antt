-- ===== src/Imu/Running/Consistent.antt =====
-- What holds whenever no call of `start` or `stop` is under way.
use heimasdk_snapshot_migrat.Prelude.{
  ℕ, ◌≡◌, refl, Bool, true, not, List, [], ◌∷◌, Option, none, some, inl, inr, if-elim, Option-cases,
  codes,
}
use heimasdk_snapshot_migrat.Prelude.Int.{ℤ}
use heimasdk_snapshot_migrat.Motor.{Float}
use heimasdk_snapshot_migrat.Ethercat.MtDevice.{bytes_eq}
use heimasdk_snapshot_migrat.Imu.{Imu, ImuProtocol, protocol_for_type}
use heimasdk_snapshot_migrat.Imu.Running.{
  ImuRuntime, start, opened, start_on, stop, read_frames, read_pass,
}

-- `running` stands for the thread, the port and `stop`.
pub record IsConsistent {F D : Type 0} (r : ImuRuntime F D) : Type 0 where
  pub reading : r.reading ≡ r.running
  pub is_open : r.is_open ≡ r.running
  pub stop : not r.stop ≡ r.running

module _ {F D : Type 0} ⦃fl : Float F⦄ where
  read_frames-IsConsistent :
      (protocol : Option ImuProtocol) (bytes : List ℕ) (r : ImuRuntime F D)
      → IsConsistent r
      → IsConsistent (read_frames protocol bytes r)
  unfolding read_frames
  read_frames-IsConsistent none bytes r c = c
  read_frames-IsConsistent (some protocol) bytes r c = record {
    reading = c.reading;
    is_open = c.is_open;
    stop = c.stop;
  }

module _ {F D : Type 0} ⦃fl : Float F⦄ (fresh : D) (feed : D → List ℕ → D × Option (Imu F)) where
  pub data Reach (built : ImuRuntime F D) : ImuRuntime F D → Type 0 where
    begin : Reach built built
    starts :
        (opens : Bool) (device : Option (List ℕ)) (baudrate : ℤ) (type_name : Option (List ℕ))
        {r : ImuRuntime F D}
        → Reach built r
        → Reach built (start fresh opens device baudrate type_name r).0
    stops : {r : ImuRuntime F D} → Reach built r → Reach built (stop r)
    reads :
        (bytes : List ℕ) {r : ImuRuntime F D}
        → Reach built r
        → r.reading ≡ true
        → Reach built (read_pass feed bytes r)

  opened-IsConsistent :
      (device : List ℕ) (baudrate : ℤ) (type_name : List ℕ) (r : ImuRuntime F D)
      → IsConsistent (opened fresh device baudrate type_name r)
  unfolding opened
  opened-IsConsistent device baudrate type_name r = record {
    reading = refl;
    is_open = refl;
    stop = refl;
  }

  start_on-IsConsistent :
      (opens : Bool) (device : List ℕ) (baudrate : ℤ) (type_name : List ℕ) (r : ImuRuntime F D)
      → IsConsistent r
      → IsConsistent (start_on fresh opens device baudrate type_name r).0
  unfolding start_on
  start_on-IsConsistent opens device baudrate type_name r c =
      elim (Option-cases (protocol_for_type type_name)) [
        | inl e ↦ rw (e, start_on) c
        | inr (protocol, e) ↦
            rw (e, start_on)
              (if-elim (λ (s : ImuRuntime F D × ℤ). IsConsistent s.0) r.running c
                (if-elim (λ (s : ImuRuntime F D × ℤ). IsConsistent s.0) opens
                  (opened-IsConsistent device baudrate type_name r) c))
      ]

  start-IsConsistent :
      (opens : Bool) (device : Option (List ℕ)) (baudrate : ℤ) (type_name : Option (List ℕ))
      (r : ImuRuntime F D)
      → IsConsistent r
      → IsConsistent (start fresh opens device baudrate type_name r).0
  unfolding start
  start-IsConsistent opens none baudrate type_name r c = c
  start-IsConsistent opens (some device) baudrate none r c = c
  start-IsConsistent opens (some device) baudrate (some type_name) r c =
      start_on-IsConsistent opens device baudrate type_name r c

  read_pass-IsConsistent :
      (bytes : List ℕ) (r : ImuRuntime F D) → IsConsistent r → IsConsistent (read_pass feed bytes r)
  unfolding read_pass
  read_pass-IsConsistent [] r c = c
  read_pass-IsConsistent (byte ∷ bytes) r c =
      if-elim IsConsistent (bytes_eq r.type_name (codes "YESENSE"))
        (record { reading = c.reading; is_open = c.is_open; stop = c.stop })
        (read_frames-IsConsistent (protocol_for_type r.type_name) (byte ∷ bytes) r c)

  -- From a unit that was just built, whatever calls of `start` and `stop` and passes of the read loop
  -- follow, `running` is set exactly while the port is open, the thread runs and `stop` is not set.
  pub ImuRuntime-IsConsistent :
      {built r : ImuRuntime F D} → IsConsistent built → Reach built r → IsConsistent r
  unfolding stop
  ImuRuntime-IsConsistent b begin = b
  ImuRuntime-IsConsistent b (starts opens device baudrate type_name {r} h) =
      start-IsConsistent opens device baudrate type_name r (ImuRuntime-IsConsistent b h)
  ImuRuntime-IsConsistent b (stops {r} h) = record { reading = refl; is_open = refl; stop = refl }
  ImuRuntime-IsConsistent b (reads bytes {r} h s) =
      read_pass-IsConsistent bytes r (ImuRuntime-IsConsistent b h)
