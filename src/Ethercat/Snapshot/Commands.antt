-- ===== src/Ethercat/Snapshot/Commands.antt =====
-- The control words that a packed write leaves in the domain.
use heimasdk_snapshot_migrat.Prelude.{
  ◌≤◌, ℕ, zero, suc, ◌+◌, ◌<◌, ◌≡◌, refl, inl, inr, ◌∙◌, true, List, [], ◌∷◌, ◌++◌, some, arith,
  length, get_elem?, Bool-cases, if◌then◌else◌,
}
use heimasdk_snapshot_migrat.Prelude.Int.{pos, pos_part}
use heimasdk_snapshot_migrat.Ethercat.MtDevice.{RxProfile, rx_pdo_size}
use heimasdk_snapshot_migrat.Ethercat.Frames.{
  PackedTarget, PackedFrame, ActualFrame, default_packed, max_realtime_motors,
}
use heimasdk_snapshot_migrat.Ethercat.Bindings.{PdoBinding}
use heimasdk_snapshot_migrat.Ethercat.Snapshot.{
  write_at, is_written, status_word_of, packed_bytes, write_packed_binding, write_packed_bindings,
}
use heimasdk_snapshot_migrat.Ethercat.Snapshot.Writing.{
  Misses, AllMiss, length-write_at_ge, get_elem?-write_at_outside,
}

-- Byte `j`, the one at `i` of those written at `at`.
get_elem?-write_at_inside :
    (at : ℕ) (bytes domain : List ℕ) (i j : ℕ) {c : ℕ}
    → at + i ≡ j
    → j < length domain
    → get_elem? bytes i ≡ some c
    → get_elem? (write_at at bytes domain) j ≡ some c
unfolding write_at
get_elem?-write_at_inside at [] domain i j p h e = cc
get_elem?-write_at_inside at (b ∷ bs) [] i j p h e = absurd (omega arith)
get_elem?-write_at_inside zero (b ∷ bs) (d ∷ ds) zero zero p h e = e
get_elem?-write_at_inside zero (b ∷ bs) (d ∷ ds) zero (suc j) p h e = absurd (omega arith)
get_elem?-write_at_inside zero (b ∷ bs) (d ∷ ds) (suc i) zero p h e = absurd (omega arith)
get_elem?-write_at_inside zero (b ∷ bs) (d ∷ ds) (suc i) (suc j) p h e =
    get_elem?-write_at_inside zero bs ds i j (omega arith) (omega arith) e
get_elem?-write_at_inside (suc at) (b ∷ bs) (d ∷ ds) i zero p h e = absurd (omega arith)
get_elem?-write_at_inside (suc at) (b ∷ bs) (d ∷ ds) i (suc j) p h e =
    get_elem?-write_at_inside at (b ∷ bs) ds i j (omega arith) (omega arith) e

-- No valid target of the frame enables its motor.
abbrev pub IsDisabling : PackedFrame → Type 0
IsDisabling targets =
    (i : ℕ) → i < max_realtime_motors → targets.valid i ≡ true → (targets.targets i).enabled ≡ pos 0

chosen_disabled :
    (targets : PackedFrame) (i : ℕ)
    → IsDisabling targets
    → i < max_realtime_motors
    → (if targets.valid i then targets.targets i else default_packed).enabled ≡ pos 0
chosen_disabled targets i d h = elim (Bool-cases (targets.valid i)) [
  | inl e ↦ rw e (d i h e)
  | inr e ↦ rw e refl
]

-- The control word 0x0006 at `at`.
abbrev pub HasDisabled : ℕ → List ℕ → Type 0
HasDisabled at out = (get_elem? out at ≡ some 0x06) × (get_elem? out (suc at) ≡ some 0x00)

module _ {F : Type 0} where
  length-packed_bytes :
      (b : PdoBinding F) (target : PackedTarget) (word : ℕ)
      → length (packed_bytes b target word) ≡ rx_pdo_size b.rx_profile
  unfolding packed_bytes rx_pdo_size
  length-packed_bytes b target word = choose b.rx_profile refl
    where
      choose :
          (p : RxProfile)
          → b.rx_profile ≡ p
          → length (packed_bytes b target word) ≡ rx_pdo_size b.rx_profile
      choose RxProfile.standard e = rw e refl
      choose RxProfile.pvt e = rw e refl

  -- The first two bytes are the control word's.
  disabled_bytes :
      (b : PdoBinding F) (target : PackedTarget) (word : ℕ)
      → target.enabled ≡ pos 0
      → (get_elem? (packed_bytes b target word) 0 ≡ some 0x06)
        × (get_elem? (packed_bytes b target word) 1 ≡ some 0x00)
  unfolding packed_bytes
  disabled_bytes b target word h = choose b.rx_profile refl
    where
      choose :
          (p : RxProfile)
          → b.rx_profile ≡ p
          → (get_elem? (packed_bytes b target word) 0 ≡ some 0x06)
            × (get_elem? (packed_bytes b target word) 1 ≡ some 0x00)
      choose RxProfile.standard e = rw (e, h) (refl, refl)
      choose RxProfile.pvt e = rw (e, h) (refl, refl)

  write_packed_binding-keeps :
      (n : ℕ) (targets : PackedFrame) (actuals : ActualFrame F) (b : PdoBinding F) (domain : List ℕ)
      → (length domain ≤ length (write_packed_binding n targets actuals b domain))
        × ((i : ℕ)
            → i < length domain
            → Misses i b
            → get_elem? (write_packed_binding n targets actuals b domain) i ≡ get_elem? domain i)
  unfolding write_packed_binding
  write_packed_binding-keeps n targets actuals b domain = elim (Bool-cases (is_written n b)) [
    | inl e ↦ rw e (
      length-write_at_ge _ _ domain,
      λ i l h.
          get_elem?-write_at_outside _ _ domain i l
            (rw (length-packed_bytes b _ (status_word_of actuals b.global_index)) h),
    )
    | inr e ↦ rw e (omega arith, λ i l h. refl)
  ]

  write_packed_bindings-keeps :
      (n : ℕ) (targets : PackedFrame) (actuals : ActualFrame F) (bs : List (PdoBinding F))
      (domain : List ℕ)
      → (length domain ≤ length (write_packed_bindings n targets actuals bs domain))
        × ((i : ℕ)
            → i < length domain
            → AllMiss i bs
            → get_elem? (write_packed_bindings n targets actuals bs domain) i ≡ get_elem? domain i)
  unfolding write_packed_bindings
  write_packed_bindings-keeps n targets actuals [] domain = (omega arith, λ i l h. refl)
  write_packed_bindings-keeps n targets actuals (b ∷ bs) domain =
      let (l1, k1) = write_packed_binding-keeps n targets actuals b domain in
      let (l2, k2) =
        write_packed_bindings-keeps n targets actuals bs
          (write_packed_binding n targets actuals b domain) in
      (omega (arith, l1, l2), λ i l h. k2 i (omega arith) h.1 ∙ k1 i l h.0)

  is_written-lt :
      (n : ℕ) (b : PdoBinding F) → is_written n b ≡ true → b.global_index < max_realtime_motors
  is_written-lt n b h = ground arith

  write_packed_binding-disables :
      (n : ℕ) (targets : PackedFrame) (actuals : ActualFrame F) (b : PdoBinding F) (domain : List ℕ)
      → IsDisabling targets
      → is_written n b ≡ true
      → suc (pos_part b.rx_offset) < length domain
      → HasDisabled (pos_part b.rx_offset) (write_packed_binding n targets actuals b domain)
  unfolding write_packed_binding
  write_packed_binding-disables n targets actuals b domain d w l =
      let at = pos_part b.rx_offset in
      let (x0, x1) =
        disabled_bytes b
          (if targets.valid b.global_index then targets.targets b.global_index else default_packed)
          (status_word_of actuals b.global_index)
          (chosen_disabled targets b.global_index d (is_written-lt n b w)) in
      rw w (
        get_elem?-write_at_inside at _ domain 0 at (omega arith) (omega arith) x0,
        get_elem?-write_at_inside at _ domain 1 (suc at) (omega arith) l x1,
      )

  pub write_packed_bindings-disables :
      (n : ℕ) (targets : PackedFrame) (actuals : ActualFrame F) (before after : List (PdoBinding F))
      (b : PdoBinding F) (domain : List ℕ)
      → IsDisabling targets
      → is_written n b ≡ true
      → suc (pos_part b.rx_offset) < length domain
      → AllMiss (pos_part b.rx_offset) after
      → AllMiss (suc (pos_part b.rx_offset)) after
      → HasDisabled
          (pos_part b.rx_offset)
          (write_packed_bindings n targets actuals (before ++ b ∷ after) domain)
  unfolding write_packed_bindings
  write_packed_bindings-disables n targets actuals [] after b domain d w l a0 a1 =
      let (x0, x1) = write_packed_binding-disables n targets actuals b domain d w l in
      let (k, keep) =
        write_packed_bindings-keeps n targets actuals after
          (write_packed_binding n targets actuals b domain) in
      let grown = (write_packed_binding-keeps n targets actuals b domain).0 in
      (keep _ (omega arith) a0 ∙ x0, keep _ (omega arith) a1 ∙ x1)
  write_packed_bindings-disables n targets actuals (c ∷ before) after b domain d w l a0 a1 =
      write_packed_bindings-disables n targets actuals before after b
        (write_packed_binding n targets actuals c domain) d w
        (omega (arith, l, (write_packed_binding-keeps n targets actuals c domain).0)) a0 a1
