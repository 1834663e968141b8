-- ===== src/Ethercat/Snapshot/Writing.antt =====
-- What a write to the domain memory leaves alone.
use heimasdk_snapshot_migrat.Prelude.{
  if◌then◌else◌, true, ℕ, zero, suc, ◌+◌, ◌≤◌, ◌<◌, ◌≡◌, refl, ◌⊎◌, inl, inr, ap, ◌∙◌, List, [],
  ◌∷◌, arith, length, get_elem?, Bool-cases,
}
use heimasdk_snapshot_migrat.Prelude.Int.{pos_part}
use heimasdk_snapshot_migrat.Motor.{Float, MotorTarget, default_target}
use heimasdk_snapshot_migrat.Ethercat.MtDevice.{RxProfile, rx_pdo_size}
use heimasdk_snapshot_migrat.Ethercat.Frames.{TargetFrame, ActualFrame}
use heimasdk_snapshot_migrat.Ethercat.Bindings.{PdoBinding}
use heimasdk_snapshot_migrat.Ethercat.Snapshot.{
  write_at, is_written, status_word_of, target_bytes, write_binding, write_bindings,
}

-- A write that ends inside the domain keeps its size; any write keeps at least that.
pub length-write_at :
    (at : ℕ) (bytes domain : List ℕ)
    → at + length bytes ≤ length domain
    → length (write_at at bytes domain) ≡ length domain
unfolding write_at
length-write_at at [] domain h = refl
length-write_at zero (b ∷ bs) [] h = absurd (omega arith)
length-write_at zero (b ∷ bs) (d ∷ ds) h = ap suc (length-write_at zero bs ds (omega arith))
length-write_at (suc at) (b ∷ bs) [] h = absurd (omega arith)
length-write_at (suc at) (b ∷ bs) (d ∷ ds) h = ap suc (length-write_at at (b ∷ bs) ds (omega arith))

pub length-write_at_ge :
    (at : ℕ) (bytes domain : List ℕ) → length domain ≤ length (write_at at bytes domain)
unfolding write_at
length-write_at_ge at [] domain = omega arith
length-write_at_ge zero (b ∷ bs) [] = omega arith
length-write_at_ge zero (b ∷ bs) (d ∷ ds) = omega (arith, length-write_at_ge zero bs ds)
length-write_at_ge (suc at) (b ∷ bs) [] = omega arith
length-write_at_ge (suc at) (b ∷ bs) (d ∷ ds) = omega (arith, length-write_at_ge at (b ∷ bs) ds)

pub get_elem?-write_at_outside :
    (at : ℕ) (bytes domain : List ℕ) (i : ℕ)
    → i < length domain
    → (i < at) ⊎ (at + length bytes ≤ i)
    → get_elem? (write_at at bytes domain) i ≡ get_elem? domain i
unfolding write_at
get_elem?-write_at_outside at [] domain i l h = refl
get_elem?-write_at_outside zero (b ∷ bs) [] i l h = absurd (omega arith)
get_elem?-write_at_outside zero (b ∷ bs) (d ∷ ds) zero l h = absurd (omega arith)
get_elem?-write_at_outside zero (b ∷ bs) (d ∷ ds) (suc i) l h =
    get_elem?-write_at_outside zero bs ds i (omega arith) (omega arith)
get_elem?-write_at_outside (suc at) (b ∷ bs) [] i l h = absurd (omega arith)
get_elem?-write_at_outside (suc at) (b ∷ bs) (d ∷ ds) zero l h = refl
get_elem?-write_at_outside (suc at) (b ∷ bs) (d ∷ ds) (suc i) l h =
    get_elem?-write_at_outside at (b ∷ bs) ds i (omega arith) (omega arith)

module _ {F : Type 0} where
  -- Byte `i` is not in the struct that the binding's write covers.
  abbrev pub Misses : ℕ → PdoBinding F → Type 0
  Misses i b = (i < pos_part b.rx_offset) ⊎ (pos_part b.rx_offset + rx_pdo_size b.rx_profile ≤ i)

  abbrev pub AllMiss : ℕ → List (PdoBinding F) → Type 0
  AllMiss i [] = Unit
  AllMiss i (b ∷ bs) = Misses i b × AllMiss i bs

  -- The size that the binding has for its output data is that of its profile, or is not set yet.
  abbrev pub AllSized : List (PdoBinding F) → Type 0
  AllSized [] = Unit
  AllSized (b ∷ bs) = ((b.rx_size ≡ 0) ⊎ (b.rx_size ≡ rx_pdo_size b.rx_profile)) × AllSized bs

  -- What the guard of the write has tested.
  is_written-inside :
      (n : ℕ) (b : PdoBinding F)
      → (b.rx_size ≡ 0) ⊎ (b.rx_size ≡ rx_pdo_size b.rx_profile)
      → is_written n b ≡ true
      → pos_part b.rx_offset + rx_pdo_size b.rx_profile ≤ n
  is_written-inside n b s w = ground arith

module _ {F : Type 0} ⦃fl : Float F⦄ where
  pub length-target_bytes :
      (b : PdoBinding F) (target : MotorTarget F) (word : ℕ)
      → length (target_bytes b target word) ≡ rx_pdo_size b.rx_profile
  unfolding target_bytes rx_pdo_size
  length-target_bytes b target word = choose b.rx_profile refl
    where
      choose :
          (p : RxProfile)
          → b.rx_profile ≡ p
          → length (target_bytes b target word) ≡ rx_pdo_size b.rx_profile
      choose RxProfile.standard e = rw e refl
      choose RxProfile.pvt e = rw e refl

  write_binding-keeps :
      (n : ℕ) (targets : TargetFrame F) (actuals : ActualFrame F) (b : PdoBinding F)
      (domain : List ℕ)
      → n ≤ length domain
      → (b.rx_size ≡ 0) ⊎ (b.rx_size ≡ rx_pdo_size b.rx_profile)
      → (length (write_binding n targets actuals b domain) ≡ length domain)
        × ((i : ℕ)
            → i < length domain
            → Misses i b
            → get_elem? (write_binding n targets actuals b domain) i ≡ get_elem? domain i)
  unfolding write_binding
  write_binding-keeps n targets actuals b domain size s =
      let i = b.global_index in
      let target = if targets.valid i then targets.targets i else default_target in
      let word = status_word_of actuals i in
      let same = length-target_bytes b target word in
      elim (Bool-cases (is_written n b)) [
        | inl e ↦
            let inside = is_written-inside n b s e in
            rw e (
              length-write_at _ (target_bytes b target word) domain (rw same (omega arith)),
              λ i l h. get_elem?-write_at_outside _ _ domain i l (rw same h),
            )
        | inr e ↦ rw e (refl, λ i l h. refl)
      ]

  -- For bindings whose size of output data is that of their profile or not set, and a domain whose
  -- size is at most the memory's, a write runs past no end, so that the memory keeps its size, and
  -- changes no byte but those of the process data of the bound drives, however many are bound.
  pub write_bindings-keeps :
      (n : ℕ) (targets : TargetFrame F) (actuals : ActualFrame F) (bindings : List (PdoBinding F))
      (domain : List ℕ)
      → n ≤ length domain
      → AllSized bindings
      → (length (write_bindings n targets actuals bindings domain) ≡ length domain)
        × ((i : ℕ)
            → i < length domain
            → AllMiss i bindings
            → get_elem? (write_bindings n targets actuals bindings domain) i ≡ get_elem? domain i)
  unfolding write_bindings
  write_bindings-keeps n targets actuals [] domain size s = (refl, λ i l h. refl)
  write_bindings-keeps n targets actuals (b ∷ bs) domain size s =
      let next = write_binding n targets actuals b domain in
      let (l1, k1) = write_binding-keeps n targets actuals b domain size s.0 in
      let (l2, k2) = write_bindings-keeps n targets actuals bs next (omega arith) s.1 in
      (l2 ∙ l1, λ i l h. k2 i (omega arith) h.1 ∙ k1 i l h.0)
