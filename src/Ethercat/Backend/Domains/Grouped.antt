-- ===== src/Ethercat/Backend/Domains/Grouped.antt =====
-- The domains after the bindings were sorted.
use mathlib.Core.Bool.{false≢true}
use mathlib.Core.Option.{some-injective}
use mathlib.Core.List.{append-nil, append_assoc}
use heimasdk_snapshot_migrat.Prelude.{
  ℕ, ◌≡◌, refl, sym, ◌∙◌, subst, inl, inr, Bool, true, false, List, [], ◌∷◌, ◌++◌, some, arith,
  Bool-cases, Option-cases, length,
}
use heimasdk_snapshot_migrat.Prelude.Int.{ℤ, ◌==ℤ◌, ==ℤ_iff}
use heimasdk_snapshot_migrat.Config.{Config}
use heimasdk_snapshot_migrat.Config.Motors.Distinct.{All-mono, All-append}
use heimasdk_snapshot_migrat.Ethercat.Bindings.{PdoBinding}
use heimasdk_snapshot_migrat.Ethercat.Backend.{DomainRuntime, new_domain}
use heimasdk_snapshot_migrat.Ethercat.Backend.Clock.{domain_division, domain_division-le}
use heimasdk_snapshot_migrat.Ethercat.Backend.Domains.{has_domain, place_binding, group_bindings}
use heimasdk_snapshot_migrat.Ethercat.Backend.Domains.Holding.{
  LacksId, AllApart, IsGrouped, push_binding-IsGrouped, of_domain-none,
}

module _ {F : Type 0} where
  has_domain-false :
      (id : ℤ) (ds : List (DomainRuntime F)) → has_domain id ds ≡ false → LacksId id ds
  unfolding has_domain
  has_domain-false id [] h = tt
  has_domain-false id (d ∷ ds) h = elim (Bool-cases (d.domain_id ==ℤ id)) [
    | inl e ↦ cc (rw (e, has_domain) at h)
    | inr e ↦ (
      λ q. false≢true (sym e ∙ (==ℤ_iff d.domain_id id).1 q),
      has_domain-false id ds (rw (e, has_domain) at h),
    )
  ]

  has_domain-snoc :
      (id : ℤ) (ds : List (DomainRuntime F)) (d : DomainRuntime F)
      → has_domain id ds ≡ true
      → has_domain id (ds ++ d ∷ []) ≡ true
  unfolding has_domain
  has_domain-snoc id [] d h = cc
  has_domain-snoc id (x ∷ ds) d h = elim (Bool-cases (x.domain_id ==ℤ id)) [
    | inl e ↦ rw e refl
    | inr e ↦ rw e (has_domain-snoc id ds d (rw (e, has_domain) at h))
  ]

  has_domain-last :
      (ds : List (DomainRuntime F)) (d : DomainRuntime F)
      → has_domain d.domain_id (ds ++ d ∷ []) ≡ true
  unfolding has_domain
  has_domain-last [] d = ground arith
  has_domain-last (x ∷ ds) d = elim (Bool-cases (x.domain_id ==ℤ d.domain_id)) [
    | inl e ↦ rw e refl
    | inr e ↦ rw e (has_domain-last ds d)
  ]

  snoc-AllApart :
      (ds : List (DomainRuntime F)) (d : DomainRuntime F)
      → AllApart ds
      → LacksId d.domain_id ds
      → AllApart (ds ++ d ∷ [])
  snoc-AllApart [] d p l = (tt, tt)
  snoc-AllApart (x ∷ ds) d p l =
      (All-append _ ds (d ∷ []) p.0 (λ q. l.0 (sym q), tt), snoc-AllApart ds d p.1 l.1)

  open_domain-IsGrouped :
      (config : Config F) (bs : List (PdoBinding F)) (id : ℤ) (ds : List (DomainRuntime F))
      → IsGrouped bs ds
      → has_domain id ds ≡ false
      → IsGrouped bs (ds ++ new_domain id (domain_division config id) ∷ [])
  open_domain-IsGrouped config bs id ds g h = record {
    holds =
        All-append _ ds _ g.holds
          ((sym (of_domain-none id bs ds g.covers h), domain_division-le config id), tt);
    apart = snoc-AllApart ds _ g.apart (has_domain-false id ds h);
    covers = All-mono bs (λ c q. has_domain-snoc c.domain ds _ q) g.covers;
  }

  place_binding-IsGrouped :
      (config : Config F) (create_domain : ℕ → Bool) (bs : List (PdoBinding F)) (b : PdoBinding F)
      (ds : List (DomainRuntime F)) {out : List (DomainRuntime F)}
      → IsGrouped bs ds
      → place_binding config create_domain b ds ≡ some out
      → IsGrouped (bs ++ b ∷ []) out
  unfolding place_binding
  place_binding-IsGrouped config create_domain bs b ds g e =
      elim (Bool-cases (has_domain b.domain ds)) [
        | inl h ↦
            subst (IsGrouped (bs ++ b ∷ [])) (some-injective _ _ (rw h at e))
              (push_binding-IsGrouped bs b ds g h)
        | inr h ↦
            let new = new_domain b.domain (domain_division config b.domain) in
            elim (Bool-cases (create_domain (length ds))) [
              | inl c ↦ subst (IsGrouped (bs ++ b ∷ [])) (some-injective _ _ (rw (h, c) at e)) (
                  push_binding-IsGrouped bs b (ds ++ new ∷ [])
                    (open_domain-IsGrouped config bs b.domain ds g h) (has_domain-last ds new))
              | inr c ↦ cc (rw (h, c) at e)
            ]
      ]

  group_bindings-from :
      (config : Config F) (create_domain : ℕ → Bool) (done rest : List (PdoBinding F))
      (ds : List (DomainRuntime F)) {out : List (DomainRuntime F)}
      → IsGrouped done ds
      → group_bindings config create_domain rest ds ≡ some out
      → IsGrouped (done ++ rest) out
  unfolding group_bindings
  group_bindings-from config create_domain done [] ds g e =
      rw append-nil (subst (IsGrouped done) (some-injective _ _ e) g)
  group_bindings-from config create_domain done (b ∷ rest) ds {out} g e =
      elim (Option-cases (place_binding config create_domain b ds)) [
        | inl n ↦ cc (rw (n, group_bindings) at e)
        | inr (more, m) ↦
            subst (λ l. IsGrouped l out) (append_assoc done (b ∷ []) rest)
              (group_bindings-from config create_domain (done ++ b ∷ []) rest more
                (place_binding-IsGrouped config create_domain done b ds g m)
                (rw (m, group_bindings) at e))
      ]

  -- The domains that a start makes: no two share an identifier, each holds exactly the bindings that
  -- name it, in their order, and divides by at least 1, and no binding is left without its domain.
  pub group_bindings-IsGrouped :
      (config : Config F) (create_domain : ℕ → Bool) (bs : List (PdoBinding F))
      {out : List (DomainRuntime F)}
      → group_bindings config create_domain bs [] ≡ some out
      → IsGrouped bs out
  group_bindings-IsGrouped config create_domain bs e =
      group_bindings-from config create_domain [] bs []
        (record { holds = tt; apart = tt; covers = tt }) e
