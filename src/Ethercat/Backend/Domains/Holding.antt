-- ===== src/Ethercat/Backend/Domains/Holding.antt =====
-- What the domains hold, and a binding pushed to the domain that it names.
use mathlib.Core.Bool.{false≢true}
use mathlib.Core.List.{append-nil}
use heimasdk_snapshot_migrat.Prelude.{
  ◌≡◌, ◌≢◌, refl, sym, ap, ◌∙◌, subst, inl, inr, true, false, List, [], ◌∷◌, ◌++◌, Bool-cases,
  if◌then◌else◌,
}
use heimasdk_snapshot_migrat.Prelude.Int.{ℤ, pos, ◌≤ℤ◌, ◌==ℤ◌, ==ℤ_iff}
use heimasdk_snapshot_migrat.Config.Motors.Distinct.{All, All-mono, All-append}
use heimasdk_snapshot_migrat.Ethercat.Bindings.{PdoBinding}
use heimasdk_snapshot_migrat.Ethercat.Backend.{DomainRuntime}
use heimasdk_snapshot_migrat.Ethercat.Backend.Domains.{has_domain, add_to_domain, push_binding}

module _ {F : Type 0} where
  -- The bindings of a domain, in their order.
  pub of_domain : ℤ → List (PdoBinding F) → List (PdoBinding F)
  of_domain id [] = []
  of_domain id (b ∷ bs) = let rest = of_domain id bs in if b.domain ==ℤ id then b ∷ rest else rest

  -- A domain holds the bindings that name it, and divides by at least 1.
  abbrev pub Holds : List (PdoBinding F) → DomainRuntime F → Type 0
  Holds bs d = (d.bindings ≡ of_domain d.domain_id bs) × (pos 1 ≤ℤ d.division)

  abbrev pub LacksId : ℤ → List (DomainRuntime F) → Type 0
  LacksId id = All (λ d. d.domain_id ≢ id)

  abbrev pub AllApart : List (DomainRuntime F) → Type 0
  AllApart [] = Unit
  AllApart (d ∷ ds) = LacksId d.domain_id ds × AllApart ds

  pub record IsGrouped (bs : List (PdoBinding F)) (ds : List (DomainRuntime F)) : Type 0 where
    pub holds : All (Holds bs) ds
    pub apart : AllApart ds
    pub covers : All (λ b. has_domain b.domain ds ≡ true) bs

  of_domain-append :
      (id : ℤ) (xs ys : List (PdoBinding F))
      → of_domain id (xs ++ ys) ≡ of_domain id xs ++ of_domain id ys
  unfolding of_domain
  of_domain-append id [] ys = refl
  of_domain-append id (x ∷ xs) ys = elim (Bool-cases (x.domain ==ℤ id)) [
    | inl e ↦ rw (e, of_domain-append id xs ys)
    | inr e ↦ rw (e, of_domain-append id xs ys)
  ]

  -- A binding of another domain changes nothing for a domain.
  Holds-other :
      (bs : List (PdoBinding F)) (b : PdoBinding F) (d : DomainRuntime F)
      → d.domain_id ≢ b.domain
      → Holds bs d
      → Holds (bs ++ b ∷ []) d
  unfolding of_domain
  Holds-other bs b d n (h, v) = elim (Bool-cases (b.domain ==ℤ d.domain_id)) [
    | inl e ↦ absurd (n (sym ((==ℤ_iff b.domain d.domain_id).0 e)))
    | inr e ↦
        (h ∙ sym (rw (of_domain-append d.domain_id bs (b ∷ []), e, of_domain) (append-nil _)), v)
  ]

  pub Holds-own :
      (bs : List (PdoBinding F)) (b : PdoBinding F) (d : DomainRuntime F)
      → d.domain_id ≡ b.domain
      → Holds bs d
      → Holds (bs ++ b ∷ []) (add_to_domain b d)
  unfolding of_domain
  Holds-own bs b d n (h, v) =
      let e : (b.domain ==ℤ d.domain_id) ≡ true = (==ℤ_iff b.domain d.domain_id).1 (sym n) in
      (sym (rw (of_domain-append d.domain_id bs (b ∷ []), e, of_domain, h)), v)

  others_hold :
      (bs : List (PdoBinding F)) (b : PdoBinding F) (ds : List (DomainRuntime F))
      → LacksId b.domain ds
      → All (Holds bs) ds
      → All (Holds (bs ++ b ∷ [])) ds
  others_hold bs b [] l a = tt
  others_hold bs b (d ∷ ds) l a = (Holds-other bs b d l.0 a.0, others_hold bs b ds l.1 a.1)

  push_binding-Holds :
      (bs : List (PdoBinding F)) (b : PdoBinding F) (ds : List (DomainRuntime F))
      → AllApart ds
      → All (Holds bs) ds
      → All (Holds (bs ++ b ∷ [])) (push_binding b ds)
  unfolding push_binding
  push_binding-Holds bs b [] p a = tt
  push_binding-Holds bs b (d ∷ ds) p a = elim (Bool-cases (d.domain_id ==ℤ b.domain)) [
    | inl e ↦
        let same = (==ℤ_iff d.domain_id b.domain).0 e in
        rw e
          (Holds-own bs b d same a.0, others_hold bs b ds (subst (λ i. LacksId i ds) same p.0) a.1)
    | inr e ↦ rw e (
      Holds-other bs b d (λ q. false≢true (sym e ∙ (==ℤ_iff d.domain_id b.domain).1 q)) a.0,
      push_binding-Holds bs b ds p.1 a.1,
    )
  ]

  push_binding-LacksId :
      (id : ℤ) (b : PdoBinding F) (ds : List (DomainRuntime F))
      → LacksId id ds
      → LacksId id (push_binding b ds)
  unfolding push_binding
  push_binding-LacksId id b [] l = tt
  push_binding-LacksId id b (d ∷ ds) l = elim (Bool-cases (d.domain_id ==ℤ b.domain)) [
    | inl e ↦ rw e l
    | inr e ↦ rw e (l.0, push_binding-LacksId id b ds l.1)
  ]

  push_binding-AllApart :
      (b : PdoBinding F) (ds : List (DomainRuntime F)) → AllApart ds → AllApart (push_binding b ds)
  unfolding push_binding
  push_binding-AllApart b [] p = tt
  push_binding-AllApart b (d ∷ ds) p = elim (Bool-cases (d.domain_id ==ℤ b.domain)) [
    | inl e ↦ rw e p
    | inr e ↦ rw e (push_binding-LacksId d.domain_id b ds p.0, push_binding-AllApart b ds p.1)
  ]

  has_domain-push_binding :
      (id : ℤ) (b : PdoBinding F) (ds : List (DomainRuntime F))
      → has_domain id (push_binding b ds) ≡ has_domain id ds
  unfolding push_binding has_domain
  has_domain-push_binding id b [] = refl
  has_domain-push_binding id b (d ∷ ds) = elim (Bool-cases (d.domain_id ==ℤ b.domain)) [
    | inl e ↦ rw e refl
    | inr e ↦ rw (e, has_domain, has_domain-push_binding id b ds) refl
  ]

  pub push_binding-IsGrouped :
      (bs : List (PdoBinding F)) (b : PdoBinding F) (ds : List (DomainRuntime F))
      → IsGrouped bs ds
      → has_domain b.domain ds ≡ true
      → IsGrouped (bs ++ b ∷ []) (push_binding b ds)
  push_binding-IsGrouped bs b ds g h = record {
    holds = push_binding-Holds bs b ds g.apart g.holds;
    apart = push_binding-AllApart b ds g.apart;
    covers =
        All-append _ bs (b ∷ [])
          (All-mono bs (λ c q. has_domain-push_binding c.domain b ds ∙ q) g.covers)
          (has_domain-push_binding b.domain b ds ∙ h, tt);
  }

  -- No binding that has its domain is one of a domain that is not there.
  pub of_domain-none :
      (id : ℤ) (bs : List (PdoBinding F)) (ds : List (DomainRuntime F))
      → All (λ b. has_domain b.domain ds ≡ true) bs
      → has_domain id ds ≡ false
      → of_domain id bs ≡ []
  unfolding of_domain
  of_domain-none id [] ds c h = refl
  of_domain-none id (b ∷ bs) ds c h = elim (Bool-cases (b.domain ==ℤ id)) [
    | inl e ↦
        absurd
          (false≢true (sym h ∙ ap (λ i. has_domain i ds) (sym ((==ℤ_iff b.domain id).0 e)) ∙ c.0))
    | inr e ↦ rw e (of_domain-none id bs ds c.1 h)
  ]
