-- ===== src/Ethercat/Snapshot/Reading.antt =====
-- What a read of the domain memory says of each motor.
use mathlib.Core.List.{Memᴰ}
use heimasdk_snapshot_migrat.Prelude.{
  ℕ, ◌<◌, ◌≡◌, ◌≢◌, refl, subst, ◌∙◌, ◌⊎◌, inl, inr, true, false, List, [], ◌∷◌, Option, none, some,
  arith, Bool-cases, lt→ltb, ℕ_discrete,
}
use heimasdk_snapshot_migrat.Motor.{Float}
use heimasdk_snapshot_migrat.Motor.Limits.{mark_actual_stale, error_code_feedback_timeout}
use heimasdk_snapshot_migrat.Ethercat.Frames.{ActualFrame, max_realtime_motors}
use heimasdk_snapshot_migrat.Ethercat.MtDevice.{tx_pdo_size}
use heimasdk_snapshot_migrat.Ethercat.Bindings.{PdoBinding}
use heimasdk_snapshot_migrat.Ethercat.Snapshot.{
  has_byte_range, size_or, actual_at, read_binding, read_snapshot,
}

module _ {F : Type 0} ⦃fl : Float F⦄ where
  -- Motor `i` is valid with the data that one of its bindings has in the domain, or it is stale
  -- with its error.
  pub data IsRead (domain : Option (List ℕ)) (n : ℕ) (bindings : List (PdoBinding F)) (i : ℕ)
      (frame : ActualFrame F) : Type 0 where
    fresh :
        (bytes : List ℕ) (b : PdoBinding F)
        → domain ≡ some bytes
        → Memᴰ b bindings
        → b.global_index ≡ i
        → has_byte_range b.tx_offset (size_or b.tx_size (tx_pdo_size b.tx_profile)) n ≡ true
        → frame.actuals i ≡ actual_at bytes b
        → frame.valid i ≡ true
        → frame.stale i ≡ false
        → IsRead domain n bindings i frame
    missing :
        (frame.actuals i).status_word ≡ 0xffff
        → (frame.actuals i).error_code ≡ error_code_feedback_timeout
        → frame.valid i ≡ false
        → frame.stale i ≡ true
        → IsRead domain n bindings i frame

  read_binding-IsRead :
      (domain : Option (List ℕ)) (n : ℕ) (b : PdoBinding F) (all : List (PdoBinding F))
      (frame : ActualFrame F)
      → Memᴰ b all
      → b.global_index < max_realtime_motors
      → IsRead domain n all b.global_index (read_binding domain n b frame)
  unfolding read_binding mark_actual_stale
  read_binding-IsRead none n b all frame m h =
      rw (lt→ltb _ _ h) (missing (ground arith) (ground arith) (ground arith) (ground arith))
  read_binding-IsRead (some bytes) n b all frame m h =
      rw (lt→ltb _ _ h)
        (elim (Bool-cases
          (has_byte_range b.tx_offset (size_or b.tx_size (tx_pdo_size b.tx_profile)) n)) [
            | inl e ↦
                rw e (fresh bytes b refl m refl e (ground arith) (ground arith) (ground arith))
            | inr e ↦ rw e (missing (ground arith) (ground arith) (ground arith) (ground arith))
          ])

  -- Motor `i` has the same data in both frames.
  abbrev pub Agrees : ℕ → ActualFrame F → ActualFrame F → Type 0
  Agrees i new old =
      (new.actuals i ≡ old.actuals i) × (new.valid i ≡ old.valid i) × (new.stale i ≡ old.stale i)

  -- A binding of another motor leaves motor `i` alone.
  read_binding-other :
      (domain : Option (List ℕ)) (n : ℕ) (b : PdoBinding F) (frame : ActualFrame F) (i : ℕ)
      → b.global_index ≢ i
      → Agrees i (read_binding domain n b frame) frame
  unfolding read_binding
  read_binding-other none n b frame i h = ground arith
  read_binding-other (some bytes) n b frame i h = ground arith

  pub Agrees-IsRead :
      {domain : Option (List ℕ)} {n : ℕ} {all : List (PdoBinding F)} {i : ℕ}
      {new old : ActualFrame F}
      → Agrees i new old
      → IsRead domain n all i old
      → IsRead domain n all i new
  Agrees-IsRead (a, v, s) (fresh bytes b d m g h a' v' s') =
      fresh bytes b d m g h (a ∙ a') (v ∙ v') (s ∙ s')
  Agrees-IsRead (a, v, s) (missing w e v' s') = missing (rw a w) (rw a e) (v ∙ v') (s ∙ s')

  IsRead-widen :
      {domain : Option (List ℕ)} {n : ℕ} {bs all : List (PdoBinding F)} {i : ℕ}
      {frame : ActualFrame F}
      → ((b : PdoBinding F) → Memᴰ b bs → Memᴰ b all)
      → IsRead domain n bs i frame
      → IsRead domain n all i frame
  IsRead-widen sub (fresh bytes b d m g h a v s) = fresh bytes b d (sub b m) g h a v s
  IsRead-widen sub (missing w e v s) = missing w e v s

  IsRead-read_binding :
      (domain : Option (List ℕ)) (n : ℕ) (b : PdoBinding F) (all : List (PdoBinding F))
      (frame : ActualFrame F) (i : ℕ)
      → i < max_realtime_motors
      → Memᴰ b all
      → IsRead domain n all i frame
      → IsRead domain n all i (read_binding domain n b frame)
  IsRead-read_binding domain n b all frame i h m r = elim (ℕ_discrete b.global_index i) [
    | yes e ↦
        subst (λ j. IsRead domain n all j (read_binding domain n b frame)) e
          (read_binding-IsRead domain n b all frame m (rw e h))
    | no d ↦ Agrees-IsRead (read_binding-other domain n b frame i d) r
  ]

  IsRead-read_snapshot :
      (domain : Option (List ℕ)) (n : ℕ) (bs all : List (PdoBinding F)) (frame : ActualFrame F)
      (i : ℕ)
      → i < max_realtime_motors
      → ((b : PdoBinding F) → Memᴰ b bs → Memᴰ b all)
      → IsRead domain n all i frame
      → IsRead domain n all i (read_snapshot domain n bs frame)
  unfolding read_snapshot
  IsRead-read_snapshot domain n [] all frame i h sub r = r
  IsRead-read_snapshot domain n (b ∷ bs) all frame i h sub r =
      IsRead-read_snapshot domain n bs all (read_binding domain n b frame) i h
        (λ c m. sub c (Memᴰ.tail m))
        (IsRead-read_binding domain n b all frame i h (sub b (Memᴰ.head refl)) r)

  -- A read reports motor `i` anew, or leaves it alone.
  pub read_snapshot_cases :
      (domain : Option (List ℕ)) (n : ℕ) (bs : List (PdoBinding F)) (frame : ActualFrame F) (i : ℕ)
      → i < max_realtime_motors
      → IsRead domain n bs i (read_snapshot domain n bs frame)
        ⊎ Agrees i (read_snapshot domain n bs frame) frame
  unfolding read_snapshot
  read_snapshot_cases domain n [] frame i h = inr (refl, refl, refl)
  read_snapshot_cases domain n (b ∷ bs) frame i h = elim (ℕ_discrete b.global_index i) [
    | yes e ↦ inl (
        IsRead-read_snapshot domain n bs (b ∷ bs) (read_binding domain n b frame) i h
          (λ c m. Memᴰ.tail m)
          (subst (λ j. IsRead domain n (b ∷ bs) j (read_binding domain n b frame)) e
            (read_binding-IsRead domain n b (b ∷ bs) frame (Memᴰ.head refl) (rw e h))))
    | no d ↦
        let (a, v, s) = read_binding-other domain n b frame i d in
        elim (read_snapshot_cases domain n bs (read_binding domain n b frame) i h) [
          | inl r ↦ inl (IsRead-widen (λ c m. Memᴰ.tail m) r)
          | inr (a', v', s') ↦ inr (a' ∙ a, v' ∙ v, s' ∙ s)
        ]
  ]

  bound-IsRead :
      (domain : Option (List ℕ)) (n : ℕ) (bs all : List (PdoBinding F)) (frame : ActualFrame F)
      (b : PdoBinding F)
      → Memᴰ b bs
      → ((c : PdoBinding F) → Memᴰ c bs → Memᴰ c all)
      → b.global_index < max_realtime_motors
      → IsRead domain n all b.global_index (read_snapshot domain n bs frame)
  unfolding read_snapshot
  bound-IsRead domain n [] all frame b m sub h = elim m [ ]
  bound-IsRead domain n (b' ∷ bs) all frame b (Memᴰ.head e) sub h =
      IsRead-read_snapshot domain n bs all (read_binding domain n b' frame) b.global_index h
        (λ c m. sub c (Memᴰ.tail m))
        (subst (λ d. IsRead domain n all b.global_index (read_binding domain n d frame)) e
          (read_binding-IsRead domain n b all frame (sub b (Memᴰ.head e)) h))
  bound-IsRead domain n (b' ∷ bs) all frame b (Memᴰ.tail m) sub h =
      bound-IsRead domain n bs all (read_binding domain n b' frame) b m (λ c k. sub c (Memᴰ.tail k))
        h

  -- After a read, a bound motor below 64 is valid, with data that one of its bindings has inside
  -- the domain, or it is stale, invalid and carries the timeout code: never both and never neither.
  pub read_snapshot-IsRead :
      (domain : Option (List ℕ)) (n : ℕ) (bindings : List (PdoBinding F)) (frame : ActualFrame F)
      (b : PdoBinding F)
      → Memᴰ b bindings
      → b.global_index < max_realtime_motors
      → IsRead domain n bindings b.global_index (read_snapshot domain n bindings frame)
  read_snapshot-IsRead domain n bindings frame b m h =
      bound-IsRead domain n bindings bindings frame b m (λ c k. k) h
