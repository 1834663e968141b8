-- ===== src/Ethercat/Backend/Ready.antt =====
-- `waitForStartupReady`: the feedback that a start waits for. The frames are those that the passes
-- before the deadline read, one for each pass.
use mathlib.Core.Bool.{false≢true}
use heimasdk_snapshot_migrat.Prelude.{
  ◌≢◌, map, ℕ, zero, suc, ◌+◌, ◌≤◌, ◌<◌, ◌≡◌, refl, sym, ◌∙◌, ◌⊎◌, inl, inr, ◌↔◌, Bool, true, false,
  not, ◌&&◌, ◌||◌, Option, none, some, bit_and, List, [], ◌∷◌, arith, Bool-cases, if◌then◌else◌,
  ◌==◌, leb,
}
use heimasdk_snapshot_migrat.Prelude.Int.{ℤ, pos, ◌==ℤ◌, ==ℤ_iff}
use heimasdk_snapshot_migrat.Ethercat.Frames.{ActualFrame, max_realtime_motors}
use heimasdk_snapshot_migrat.Ethercat.Bindings.{PdoBinding}

module _ {F : Type 0} where
  abbrev pub frame_ready : ActualFrame F → List (PdoBinding F) → Bool
  frame_ready frame [] = true
  frame_ready frame (binding ∷ rest) =
      let i = binding.global_index in
      let ready = frame_ready frame rest in
      if leb max_realtime_motors i
      then ready
      else if not (frame.valid i)
          || frame.stale i
          || (frame.actuals i).status_word == 0xffff
          || not ((frame.actuals i).error_code == 0)
      then false
      else ready

  -- The loop, with `consecutiveReady` and `lastSequence`.
  pub ready_loop : ℕ → List (PdoBinding F) → List (ActualFrame F) → ℕ → ℕ → Bool
  ready_loop required bindings [] consecutive last = false
  ready_loop required bindings (frame ∷ frames) consecutive last =
      let same = ready_loop required bindings frames consecutive last in
      let more = ready_loop required bindings frames (consecutive + 1) frame.sequence in
      let again = ready_loop required bindings frames 0 frame.sequence in
      if frame.sequence == last
      then same
      else if frame_ready frame bindings
      then (if leb required (consecutive + 1) then true else more)
      else again

  unfoldable pub wait_for_startup_ready : ℤ → ℕ → List (PdoBinding F) → List (ActualFrame F) → Bool
  unfolding ready_loop
  wait_for_startup_ready timeout required bindings frames =
      if timeout ==ℤ pos 0 then true else ready_loop required bindings frames 0 0

  -- The new frames: a frame is new when its sequence number is not that of the one before it.
  pub new_frames : ℕ → List (ActualFrame F) → List (ActualFrame F)
  new_frames last [] = []
  new_frames last (frame ∷ frames) =
      let same = new_frames last frames in
      let new = frame ∷ new_frames frame.sequence frames in
      if frame.sequence == last then same else new

  -- The frame has the feedback of motor `i`: valid, not stale, with a status word and no error.
  pub record HasFeedback (i : ℕ) (frame : ActualFrame F) : Type 0 where
    pub valid : frame.valid i ≡ true
    pub fresh : frame.stale i ≡ false
    pub word : (frame.actuals i).status_word ≢ 0xffff
    pub no_error : (frame.actuals i).error_code ≡ 0

  -- It has that of every bound motor, of those below 64.
  abbrev pub AllFed : List (PdoBinding F) → ActualFrame F → Type 0
  AllFed [] frame = Unit
  AllFed (b ∷ bs) frame =
      ((max_realtime_motors ≤ b.global_index) ⊎ HasFeedback b.global_index frame) × AllFed bs frame

-- `waitForAlStatesClear`: some poll before the deadline finds states, none of which is in the mask.
-- A poll that the master does not answer is `none`.
pub wait_for_al_states_clear : ℕ → List (Option ℕ) → Bool
wait_for_al_states_clear mask [] = false
wait_for_al_states_clear mask (none ∷ polls) = wait_for_al_states_clear mask polls
wait_for_al_states_clear mask (some states ∷ polls) =
    let rest = wait_for_al_states_clear mask polls in
    if not (states == 0) && bit_and states mask == 0 then true else rest

le→leb : (a b : ℕ) → a ≤ b → leb a b ≡ true
le→leb a b h = ground arith

gt→leb : (a b : ℕ) → b < a → leb a b ≡ false
gt→leb a b h = ground arith

-- The list begins with `n` that `P` holds of; `n` that it holds of stand somewhere in it in a row.
abbrev pub StartsWith : {A : Type 0} → (A → Type 0) → ℕ → List A → Type 0
StartsWith P zero l = Unit
StartsWith P (suc n) [] = ⊥
StartsWith P (suc n) (a ∷ l) = P a × StartsWith P n l

abbrev pub HasRunOf : {A : Type 0} → (A → Type 0) → ℕ → List A → Type 0
HasRunOf P n [] = StartsWith P n []
HasRunOf P n (a ∷ l) = StartsWith P n (a ∷ l) ⊎ HasRunOf P n l

-- On tests that decide the predicate.
abbrev Starts : ℕ → List Bool → Type 0
Starts = StartsWith (λ b. b ≡ true)

abbrev HasRun : ℕ → List Bool → Type 0
HasRun = HasRunOf (λ b. b ≡ true)

module _ {A : Type 0} (P : A → Type 0) (test : A → Bool)
    (iff : (a : A) → (test a ≡ true) ↔ P a) where
  StartsWith-map : (n : ℕ) (l : List A) → Starts n (map test l) ↔ StartsWith P n l
  StartsWith-map zero l = (λ h. tt, λ h. tt)
  StartsWith-map (suc n) [] = (λ h. h, λ h. h)
  StartsWith-map (suc n) (a ∷ l) =
      let (f, g) = StartsWith-map n l in
      let (p, q) = iff a in (λ h. (p h.0, f h.1), λ h. (q h.0, g h.1))

  HasRunOf-map : (n : ℕ) (l : List A) → HasRun n (map test l) ↔ HasRunOf P n l
  HasRunOf-map n [] = StartsWith-map n []
  HasRunOf-map n (a ∷ l) =
      let (f, g) = StartsWith-map n (a ∷ l) in
      let (f', g') = HasRunOf-map n l in
      (
        λ h. elim h [ inl s ↦ inl (f s) | inr r ↦ inr (f' r) ],
        λ h. elim h [ inl s ↦ inl (g s) | inr r ↦ inr (g' r) ],
      )

Starts-HasRun : (n : ℕ) (l : List Bool) → Starts n l → HasRun n l
Starts-HasRun n [] h = h
Starts-HasRun n (b ∷ l) h = inl h

Starts-le : (n m : ℕ) (l : List Bool) → n ≤ m → Starts m l → Starts n l
Starts-le zero m l h s = tt
Starts-le (suc n) zero l h s = absurd (omega arith)
Starts-le (suc n) (suc m) [] h s = s
Starts-le (suc n) (suc m) (b ∷ l) h s = (s.0, Starts-le n m l (omega arith) s.1)

-- The loop on whether each of the new frames is ready.
run_loop : ℕ → ℕ → List Bool → Bool
run_loop required consecutive [] = false
run_loop required consecutive (b ∷ l) =
    let more = run_loop required (consecutive + 1) l in
    let again = run_loop required 0 l in
    if b then (if leb required (consecutive + 1) then true else more) else again

-- With `left` more to go after the next one, the loop finds a run that goes on or a whole one.
run_loop-HasRun :
    (left r consecutive : ℕ) (l : List Bool)
    → consecutive + left ≡ r
    → (run_loop (suc r) consecutive l ≡ true) ↔ (Starts (suc left) l ⊎ HasRun (suc r) l)
unfolding run_loop
run_loop-HasRun left r consecutive [] e =
    (λ h. cc, λ h. elim h [ inl x ↦ elim x [ ] | inr x ↦ elim x [ ] ])
run_loop-HasRun zero r consecutive (true ∷ l) e =
    rw (le→leb (suc r) (consecutive + 1) (omega arith)) (λ h. inl (refl, tt), λ h. refl)
run_loop-HasRun (suc left) r consecutive (true ∷ l) e =
    let (f, g) = run_loop-HasRun left r (consecutive + 1) l (omega arith) in
    rw (gt→leb (suc r) (consecutive + 1) (omega arith)) (
      λ h. elim (f h) [ inl s ↦ inl (refl, s) | inr k ↦ inr (inr k) ],
      λ h. elim h [
        | inl s ↦ g (inl s.1)
        | inr k ↦ elim k [
          | inl s ↦ g (inl (Starts-le (suc left) r l (omega arith) s.1))
          | inr q ↦ g (inr q)
        ]
      ],
    )
run_loop-HasRun left r consecutive (false ∷ l) e =
    let (f, g) = run_loop-HasRun r r 0 l (omega arith) in
    (
      λ h. elim (f h) [ inl s ↦ inr (inr (Starts-HasRun (suc r) l s)) | inr k ↦ inr (inr k) ],
      λ h. elim h [
        | inl s ↦ absurd (false≢true s.0)
        | inr k ↦ elim k [ inl s ↦ absurd (false≢true s.0) | inr q ↦ g (inr q) ]
      ],
    )

module _ {F : Type 0} where
  frame_ready_iff :
      (bindings : List (PdoBinding F)) (frame : ActualFrame F)
      → (frame_ready frame bindings ≡ true) ↔ AllFed bindings frame
  frame_ready_iff [] frame = (λ h. tt, λ h. refl)
  frame_ready_iff (b ∷ bs) frame =
      let (f, g) = frame_ready_iff bs frame in
      let i = b.global_index in
      (
        λ h. elim (Bool-cases (leb max_realtime_motors i)) [
          | inl e ↦ (inl (ground arith), f (ground arith))
          | inr e ↦ (
            inr (record {
              valid = ground arith;
              fresh = ground arith;
              word = λ w. ground arith;
              no_error = ground arith;
            }),
            f (ground arith),
          )
        ],
        λ h. elim h.0 [
          | inl k ↦ let r = g h.1 in ground arith
          | inr k ↦
              let r = g h.1 in
              let v = k.valid in
              let s = k.fresh in let w = k.word in let n = k.no_error in ground arith
        ],
      )

  ready_loop-run_loop :
      (required : ℕ) (bindings : List (PdoBinding F)) (frames : List (ActualFrame F))
      (consecutive last : ℕ)
      → ready_loop required bindings frames consecutive last
        ≡ run_loop required consecutive (map (λ f. frame_ready f bindings) (new_frames last frames))
  unfolding ready_loop new_frames run_loop
  ready_loop-run_loop required bindings [] consecutive last = refl
  ready_loop-run_loop required bindings (frame ∷ frames) consecutive last = ground (
    arith,
    ready_loop-run_loop required bindings frames consecutive last,
    ready_loop-run_loop required bindings frames (consecutive + 1) frame.sequence,
    ready_loop-run_loop required bindings frames 0 frame.sequence,
  )

  -- The wait succeeds exactly when it is turned off, or when the frames that it read before the
  -- deadline have the required number of new frames in a row in which every bound motor is valid, not
  -- stale, without an error and with a status word.
  pub wait_for_startup_ready_iff :
      (timeout : ℤ) (required : ℕ) (bindings : List (PdoBinding F)) (frames : List (ActualFrame F))
      → 0 < required
      → (wait_for_startup_ready timeout required bindings frames ≡ true)
        ↔ ((timeout ≡ pos 0) ⊎ HasRunOf (AllFed bindings) required (new_frames 0 frames))
  unfolding wait_for_startup_ready
  wait_for_startup_ready_iff timeout zero bindings frames h = absurd (omega arith)
  wait_for_startup_ready_iff timeout (suc r) bindings frames h =
      let new = new_frames 0 frames in
      let l = map (λ f. frame_ready f bindings) new in
      let (f, g) = run_loop-HasRun r r 0 l (omega arith) in
      let (to, from) =
        HasRunOf-map (AllFed bindings) (λ f. frame_ready f bindings) (frame_ready_iff bindings)
          (suc r) new in
      elim (Bool-cases (timeout ==ℤ pos 0)) [
        | inl e ↦ rw e (λ x. inl ((==ℤ_iff timeout (pos 0)).0 e), λ x. refl)
        | inr e ↦
            rw (e, ready_loop-run_loop (suc r) bindings frames 0 0)
              (
                λ x. inr (to (elim (f x) [ inl s ↦ Starts-HasRun (suc r) l s | inr k ↦ k ])),
                λ x. elim x [
                  | inl z ↦ absurd (false≢true (sym e ∙ (==ℤ_iff timeout (pos 0)).1 z))
                  | inr k ↦ g (inr (from k))
                ],
              )
      ]
