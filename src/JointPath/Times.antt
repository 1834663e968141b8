-- ===== src/JointPath/Times.antt =====
-- Which paths are valid.
use heimasdk_snapshot_migrat.Prelude.{
  ℕ, zero, suc, ◌<◌, ◌≡◌, refl, sym, ◌∙◌, ap, subst, inl, inr, ◌↔◌, true, List, [], ◌∷◌, none, some,
  arith, Bool-cases, get_elem?,
}
use mathlib.Core.Option.{some-injective}
use heimasdk_snapshot_migrat.Prelude.Int.{ℤ, pos, ◌≤ℤ◌, leb_ℤ, ltb_ℤ}
use heimasdk_snapshot_migrat.JointPath.{LegJointWaypoint, check_times, validate_path}

infix 50 ◌<ℤ◌
abbrev pub ◌<ℤ◌ : ℤ → ℤ → Type 0
a <ℤ b = ltb_ℤ a b ≡ true

module _ {F : Type 0} where
  -- Each waypoint is earlier than the next one.
  abbrev pub Increases : LegJointWaypoint F → List (LegJointWaypoint F) → Type 0
  Increases w [] = Unit
  Increases w (next ∷ rest) = (w.time_ms <ℤ next.time_ms) × Increases next rest

  pub check_times_iff :
      (w : LegJointWaypoint F) (rest : List (LegJointWaypoint F))
      → (check_times w rest ≡ none) ↔ Increases w rest
  unfolding check_times
  check_times_iff w [] = (λ e. tt, λ h. refl)
  check_times_iff w (next ∷ rest) =
      let (f, g) = check_times_iff next rest in
      elim (Bool-cases (leb_ℤ next.time_ms w.time_ms)) [
        | inl e ↦ rw e (λ h. cc, λ h. absurd (ground arith))
        | inr e ↦ rw e (λ h. (ground arith, f h), λ h. g h.1)
      ]

  later :
      (w : LegJointWaypoint F) (rest : List (LegJointWaypoint F)) (i : ℕ) {b : LegJointWaypoint F}
      → Increases w rest
      → get_elem? rest i ≡ some b
      → w.time_ms <ℤ b.time_ms
  later w [] i h e = cc
  later w (next ∷ rest) zero h e =
      ap (λ x. ltb_ℤ w.time_ms x.time_ms) (sym (some-injective next _ e)) ∙ h.0
  later w (next ∷ rest) (suc i) h e = let k = later next rest i h.1 e in let l = h.0 in ground arith

  -- A path is not empty, begins at a time that is not negative, and of any two of its waypoints the
  -- first is the earlier.
  pub record IsPath (path : List (LegJointWaypoint F)) : Type 0 where
    pub first : LegJointWaypoint F
    pub starts : get_elem? path 0 ≡ some first
    pub from_zero : pos 0 ≤ℤ first.time_ms
    pub ordered :
        (i j : ℕ) (a b : LegJointWaypoint F)
        → i < j
        → get_elem? path i ≡ some a
        → get_elem? path j ≡ some b
        → a.time_ms <ℤ b.time_ms

  Increases-ordered :
      (w : LegJointWaypoint F) (rest : List (LegJointWaypoint F)) (i j : ℕ)
      {a b : LegJointWaypoint F}
      → Increases w rest
      → i < j
      → get_elem? (w ∷ rest) i ≡ some a
      → get_elem? (w ∷ rest) j ≡ some b
      → a.time_ms <ℤ b.time_ms
  Increases-ordered w rest i zero h l p q = absurd (omega arith)
  Increases-ordered w rest zero (suc j) {a} {b} h l p q =
      subst (λ x. x.time_ms <ℤ b.time_ms) (some-injective w a p) (later w rest j h q)
  Increases-ordered w [] (suc i) (suc j) h l p q = cc
  Increases-ordered w (next ∷ rest) (suc i) (suc j) h l p q =
      Increases-ordered next rest i j h.1 (omega arith) p q

  ordered-Increases :
      (w : LegJointWaypoint F) (rest : List (LegJointWaypoint F))
      → ((i j : ℕ) (a b : LegJointWaypoint F)
          → i < j
          → get_elem? (w ∷ rest) i ≡ some a
          → get_elem? (w ∷ rest) j ≡ some b
          → a.time_ms <ℤ b.time_ms)
      → Increases w rest
  ordered-Increases w [] h = tt
  ordered-Increases w (next ∷ rest) h = (
    h 0 1 w next (omega arith) refl refl,
    ordered-Increases next rest (λ i j a b l p q. h (suc i) (suc j) a b (omega arith) p q),
  )

  -- `validateLegJointPath` accepts exactly the paths that begin at a time of at least 0 and in which
  -- every waypoint is later than all before it.
  pub validate_path_iff :
      (path : List (LegJointWaypoint F)) → (validate_path path ≡ none) ↔ IsPath path
  unfolding validate_path
  validate_path_iff [] = (λ e. cc, λ h. cc h.starts)
  validate_path_iff (w ∷ rest) =
      let (f, g) = check_times_iff w rest in
      elim (Bool-cases (ltb_ℤ w.time_ms (pos 0))) [
        | inl e ↦ rw e (
          λ h. cc,
          λ h.
              let z : pos 0 ≤ℤ w.time_ms =
                subst (λ x. pos 0 ≤ℤ x.time_ms) (sym (some-injective w _ h.starts)) h.from_zero in
              absurd (ground arith),
        )
        | inr e ↦ rw e (
          λ h. record {
            first = w;
            starts = refl;
            from_zero = ground arith;
            ordered = λ i j a b l p q. Increases-ordered w rest i j (f h) l p q;
          },
          λ h. g (ordered-Increases w rest h.ordered),
        )
      ]
