-- ===== src/Imu/Framing.antt =====
-- The read loop's framing: no frame without its header, and no frame lost.
use mathlib.Core.List.{append_assoc}
use heimasdk_snapshot_migrat.Prelude.{
  ℕ, zero, suc, ◌+◌, ◌≤◌, ◌<◌, ◌≡◌, ◌≢◌, refl, ◌∙◌, ap, List, [], ◌∷◌, ◌++◌, none, some, arith,
  length, get_or, set, take, length-set,
}
use heimasdk_snapshot_migrat.Imu.{ImuProtocol, Framer, feed_byte, feed_bytes, listed}

pub record HasHeader (p : ImuProtocol) (frame : List ℕ) : Type 0 where
  pub size : length frame ≡ 128
  pub first : get_or frame 0 0 ≡ p.header0
  pub second : get_or frame 1 0 ≡ p.header1

-- What has been read of a frame begins with the header.
pub record IsFraming (p : ImuProtocol) (s : Framer) : Type 0 where
  pub size : length s.frame ≡ 128
  pub bound : s.frame_index < p.frame_length
  pub first : 0 < s.frame_index → get_or s.frame 0 0 ≡ p.header0
  pub second : 1 < s.frame_index → get_or s.frame 1 0 ≡ p.header1

abbrev pub AllHeaders : ImuProtocol → List (List ℕ) → Type 0
AllHeaders p [] = Unit
AllHeaders p (f ∷ fs) = HasHeader p f × AllHeaders p fs

abbrev pub Fits : ImuProtocol → Type 0
Fits p = (2 < p.frame_length) × (p.frame_length ≤ 128)

get_or-set_self : (xs : List ℕ) (i v d : ℕ) → i < length xs → get_or (set xs i v) i d ≡ v
get_or-set_self [] i v d h = elim h [ ]
get_or-set_self (x ∷ xs) zero v d h = refl
get_or-set_self (x ∷ xs) (suc i) v d h = get_or-set_self xs i v d (omega arith)

get_or-set_ne : (xs : List ℕ) (i j v d : ℕ) → i ≢ j → get_or (set xs i v) j d ≡ get_or xs j d
get_or-set_ne [] i j v d h = refl
get_or-set_ne (x ∷ xs) zero zero v d h = absurd (h refl)
get_or-set_ne (x ∷ xs) zero (suc j) v d h = refl
get_or-set_ne (x ∷ xs) (suc i) zero v d h = refl
get_or-set_ne (x ∷ xs) (suc i) (suc j) v d h = get_or-set_ne xs i j v d (λ e. h (ap suc e))

feed_byte-IsFraming :
    (p : ImuProtocol) (byte : ℕ) (s : Framer)
    → Fits p
    → IsFraming p s
    → IsFraming p (feed_byte p byte s).0 × AllHeaders p (listed (feed_byte p byte s).1)
unfolding feed_byte
feed_byte-IsFraming p byte s h w = ground (
  arith,
  w.size,
  w.bound,
  w.first,
  w.second,
  length-set s.frame s.frame_index byte,
  length-set s.frame 0 byte,
  length-set s.frame 0 0,
  length-set s.frame 1 byte,
  get_or-set_self s.frame 0 byte 0,
  get_or-set_self s.frame 1 byte 0,
  get_or-set_ne s.frame 1 0 byte 0,
  get_or-set_ne s.frame s.frame_index 0 byte 0,
  get_or-set_ne s.frame s.frame_index 1 byte 0,
)

AllHeaders-append :
    (p : ImuProtocol) (xs ys : List (List ℕ))
    → AllHeaders p xs
    → AllHeaders p ys
    → AllHeaders p (xs ++ ys)
AllHeaders-append p [] ys h k = k
AllHeaders-append p (x ∷ xs) ys h k = (h.0, AllHeaders-append p xs ys h.1 k)

-- Whatever bytes arrive, the loop stays inside its array, and each frame that it takes for complete
-- begins with the two header bytes of the protocol.
pub feed_bytes-AllHeaders :
    (p : ImuProtocol) (bytes : List ℕ) (s : Framer)
    → Fits p
    → IsFraming p s
    → IsFraming p (feed_bytes p bytes s).0 × AllHeaders p (feed_bytes p bytes s).1
unfolding feed_bytes
feed_bytes-AllHeaders p [] s h w = (w, tt)
feed_bytes-AllHeaders p (byte ∷ bytes) s h w =
    let (w1, a1) = feed_byte-IsFraming p byte s h w in
    let (w2, a2) = feed_bytes-AllHeaders p bytes (feed_byte p byte s).0 h w1 in
    (w2, AllHeaders-append p (listed (feed_byte p byte s).1) _ a1 a2)

take-set : (xs : List ℕ) (i v : ℕ) → i < length xs → take (suc i) (set xs i v) ≡ take i xs ++ v ∷ []
take-set [] i v h = elim h [ ]
take-set (x ∷ xs) zero v h = refl
take-set (x ∷ xs) (suc i) v h = ap {B = List ℕ} (λ r. x ∷ r) (take-set xs i v (omega arith))

-- One frame came out, with these bytes, and the next one may begin.
pub record Completes (p : ImuProtocol) (bytes : List ℕ) (r : Framer × List (List ℕ)) : Type 0 where
  pub frame : List ℕ
  pub one : r.1 ≡ frame ∷ []
  pub carried : take p.frame_length frame ≡ bytes
  pub ready : r.0.frame_index ≡ 0

feed_byte-middle :
    (p : ImuProtocol) (byte : ℕ) (s : Framer)
    → 1 < s.frame_index
    → s.frame_index + 1 < p.frame_length
    → feed_byte p byte s
      ≡ (record { frame = set s.frame s.frame_index byte; frame_index = suc s.frame_index }, none)
unfolding feed_byte
feed_byte-middle p byte s h l = ground arith

feed_byte-last :
    (p : ImuProtocol) (byte : ℕ) (s : Framer)
    → 1 < s.frame_index
    → s.frame_index + 1 ≡ p.frame_length
    → feed_byte p byte s ≡ (
      record { frame = set s.frame s.frame_index byte; frame_index = 0 },
      some (set s.frame s.frame_index byte),
    )
unfolding feed_byte
feed_byte-last p byte s h l = ground arith

feed_payload :
    (p : ImuProtocol) (byte : ℕ) (rest : List ℕ) (s : Framer)
    → p.frame_length ≤ 128
    → length s.frame ≡ 128
    → 1 < s.frame_index
    → s.frame_index + suc (length rest) ≡ p.frame_length
    → Completes p (take s.frame_index s.frame ++ byte ∷ rest) (feed_bytes p (byte ∷ rest) s)
unfolding feed_bytes
feed_payload p byte [] s b z h l = rw (feed_byte-last p byte s h (omega arith)) (record {
  frame = set s.frame s.frame_index byte;
  one = refl;
  carried =
      ap (λ n. take n (set s.frame s.frame_index byte)) {y = suc s.frame_index} (omega arith)
      ∙ take-set s.frame s.frame_index byte (omega arith);
  ready = refl;
})
feed_payload p byte (next ∷ rest) s b z h l =
    let s1 : Framer = record {
      frame = set s.frame s.frame_index byte;
      frame_index = suc s.frame_index;
    } in
    let c =
      feed_payload p next rest s1 b (length-set s.frame s.frame_index byte ∙ z) (omega arith)
        (omega arith) in
    rw (feed_byte-middle p byte s h (omega arith)) (record {
      frame = c.frame;
      one = c.one;
      carried =
          c.carried
          ∙ ap (λ t. t ++ next ∷ rest) (take-set s.frame s.frame_index byte (omega arith))
          ∙ append_assoc (take s.frame_index s.frame) (byte ∷ []) (next ∷ rest);
      ready = c.ready;
    })

-- Bytes without the first header byte.
abbrev pub NoHeader : ImuProtocol → List ℕ → Type 0
NoHeader p [] = Unit
NoHeader p (byte ∷ bytes) = (byte ≢ p.header0) × NoHeader p bytes

feed_byte-skipped :
    (p : ImuProtocol) (byte : ℕ) (s : Framer)
    → s.frame_index ≡ 0
    → byte ≢ p.header0
    → feed_byte p byte s ≡ (s, none)
unfolding feed_byte
feed_byte-skipped p byte s z h = ground arith

feed_byte-header :
    (p : ImuProtocol) (frame : List ℕ)
    → feed_byte p p.header0 (record { frame = frame; frame_index = 0 })
      ≡ (record { frame = set frame 0 p.header0; frame_index = 1 }, none)
unfolding feed_byte
feed_byte-header p frame = ground arith

feed_byte-header1 :
    (p : ImuProtocol) (frame : List ℕ)
    → feed_byte p p.header1 (record { frame = frame; frame_index = 1 })
      ≡ (record { frame = set frame 1 p.header1; frame_index = 2 }, none)
unfolding feed_byte
feed_byte-header1 p frame = ground arith

feed_frame :
    (p : ImuProtocol) (byte : ℕ) (rest frame : List ℕ)
    → p.frame_length ≤ 128
    → length frame ≡ 128
    → 3 + length rest ≡ p.frame_length
    → Completes p (p.header0 ∷ p.header1 ∷ byte ∷ rest) (
        feed_bytes p
          (p.header0 ∷ p.header1 ∷ byte ∷ rest)
          (record { frame = frame; frame_index = 0 }))
unfolding feed_bytes
feed_frame p byte rest [] b z l = absurd (omega arith)
feed_frame p byte rest (a ∷ []) b z l = absurd (omega arith)
feed_frame p byte rest (a ∷ a' ∷ frame) b z l =
    rw (feed_byte-header p (a ∷ a' ∷ frame), feed_byte-header1 p (p.header0 ∷ a' ∷ frame))
      (feed_payload p byte rest (record { frame = p.header0 ∷ p.header1 ∷ frame; frame_index = 2 })
        b z (omega arith) (omega arith))

-- Between frames, any bytes without the first header byte are skipped, and the frame that follows
-- them, the two header bytes and as many more as the protocol says, comes out whole and alone.
pub feed_bytes-Completes :
    (p : ImuProtocol) (noise : List ℕ) (byte : ℕ) (rest : List ℕ) (s : Framer)
    → p.frame_length ≤ 128
    → length s.frame ≡ 128
    → s.frame_index ≡ 0
    → NoHeader p noise
    → 3 + length rest ≡ p.frame_length
    → Completes p
        (p.header0 ∷ p.header1 ∷ byte ∷ rest)
        (feed_bytes p (noise ++ p.header0 ∷ p.header1 ∷ byte ∷ rest) s)
unfolding feed_bytes
feed_bytes-Completes p [] byte rest s b z e n l = rw e (feed_frame p byte rest s.frame b z l)
feed_bytes-Completes p (x ∷ noise) byte rest s b z e n l =
    let c = feed_bytes-Completes p noise byte rest s b z e n.1 l in
    rw (feed_byte-skipped p x s e n.0)
      (record { frame = c.frame; one = c.one; carried = c.carried; ready = c.ready })
