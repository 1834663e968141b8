-- ===== src/Ethercat/Backend/Domains.antt =====
-- The part of `start` that sorts the bindings into domains. `domainById` maps the identifier of each
-- domain to its place, so a binding goes to the domain that has its identifier.
pub mod Holding
pub mod Grouped
use heimasdk_snapshot_migrat.Prelude.{
  ℕ, Bool, List, [], ◌∷◌, ◌++◌, Option, none, some, if◌then◌else◌, length,
}
use heimasdk_snapshot_migrat.Prelude.Int.{ℤ, ◌==ℤ◌}
use heimasdk_snapshot_migrat.Config.{Config}
use heimasdk_snapshot_migrat.Ethercat.Bindings.{PdoBinding}
use heimasdk_snapshot_migrat.Ethercat.Backend.{DomainRuntime, new_domain}
use heimasdk_snapshot_migrat.Ethercat.Backend.Clock.{domain_division}

module _ {F : Type 0} where
  unfoldable pub has_domain : ℤ → List (DomainRuntime F) → Bool
  has_domain id [] = Bool.false
  has_domain id (d ∷ ds) =
      let rest = has_domain id ds in if d.domain_id ==ℤ id then Bool.true else rest

  abbrev pub add_to_domain : PdoBinding F → DomainRuntime F → DomainRuntime F
  add_to_domain binding d = record d { bindings = d.bindings ++ binding ∷ [] }

  -- `domains[it->second].bindings.push_back(binding)`
  unfoldable pub push_binding : PdoBinding F → List (DomainRuntime F) → List (DomainRuntime F)
  push_binding binding [] = []
  push_binding binding (d ∷ ds) =
      if d.domain_id ==ℤ binding.domain
      then add_to_domain binding d ∷ ds
      else d ∷ push_binding binding ds

  -- One round of the loop. `create_domain` says whether the master creates a domain, by its place.
  unfoldable pub place_binding :
      Config F
      → (ℕ → Bool)
      → PdoBinding F
      → List (DomainRuntime F)
      → Option (List (DomainRuntime F))
  place_binding config create_domain binding domains =
      if has_domain binding.domain domains
      then some (push_binding binding domains)
      else if create_domain (length domains)
      then some (
          push_binding binding
            (domains ++ new_domain binding.domain (domain_division config binding.domain) ∷ []))
      else none

  unfoldable pub group_bindings :
      Config F
      → (ℕ → Bool)
      → List (PdoBinding F)
      → List (DomainRuntime F)
      → Option (List (DomainRuntime F))
  group_bindings config create_domain [] domains = some domains
  group_bindings config create_domain (binding ∷ rest) domains =
      elim (place_binding config create_domain binding domains) [
        | none ↦ none
        | some more ↦ group_bindings config create_domain rest more
      ]
