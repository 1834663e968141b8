-- ===== src/Config/Masters/Divisions.antt =====
-- The divisions of masters and domains.
use heimasdk_snapshot_migrat.Prelude.{
  ℕ, zero, suc, ◌+◌, ◌-◌, List, [], ◌∷◌, arith, inl, inr, Bool-cases, codes, set, replicate, length,
  leb,
}
use heimasdk_snapshot_migrat.Prelude.Int.{ℤ, pos, negsuc, ◌≤ℤ◌, leb_ℤ}
use heimasdk_snapshot_migrat.Config.{MasterConfig, Xml}
use heimasdk_snapshot_migrat.Config.Motors.Distinct.{All, All-append}
use heimasdk_snapshot_migrat.Config.Masters.{
  at_least_one, put_division, read_domains, read_master, read_masters,
}

abbrev pub IsDivision : ℤ → Type 0
IsDivision d = pos 1 ≤ℤ d

abbrev pub IsMaster : MasterConfig → Type 0
IsMaster m = IsDivision m.division

set-All {ℓ κ} :
    {A : Type ℓ} (P : A → Type κ) (xs : List A) (i : ℕ) (v : A)
    → P v
    → All P xs
    → All P (set xs i v)
set-All P [] i v h a = tt
set-All P (x ∷ xs) zero v h a = (h, a.1)
set-All P (x ∷ xs) (suc i) v h a = (a.0, set-All P xs i v h a.1)

replicate-All {ℓ κ} : {A : Type ℓ} (P : A → Type κ) (n : ℕ) (v : A) → P v → All P (replicate n v)
replicate-All P zero v h = tt
replicate-All P (suc n) v h = (h, replicate-All P n v h)

put_division-All :
    (index : ℕ) (division : ℤ) (divisions : List ℤ)
    → All IsDivision divisions
    → All IsDivision (put_division index division divisions)
unfolding put_division
put_division-All index division divisions a =
    set-All IsDivision _ index (at_least_one division) (ground arith)
      (elim (Bool-cases (leb (length divisions) index)) [
        | inl e ↦ rw e (
            All-append IsDivision divisions _ a
              (replicate-All IsDivision (index + 1 - length divisions) (pos 1) (omega arith)))
        | inr e ↦ rw e a
      ])

module _ {E F : Type 0} (xml : Xml E F) where
  pub read_domains-All :
      (es : List E) (divisions : List ℤ)
      → All IsDivision divisions
      → All IsDivision (read_domains xml es divisions)
  unfolding read_domains
  read_domains-All [] divisions a = a
  read_domains-All (e ∷ es) divisions a =
      elim (Bool-cases (leb_ℤ (pos 0) (xml.int_attribute e (codes "order") (negsuc 0)))) [
        | inl h ↦ rw h (read_domains-All es _ (put_division-All _ _ divisions a))
        | inr h ↦ rw h (read_domains-All es divisions a)
      ]

  read_master-IsMaster : (e : E) → IsMaster (read_master xml e)
  unfolding read_master
  read_master-IsMaster e = ground arith

  pub read_masters-All :
      (es : List E) (masters : List MasterConfig)
      → All IsMaster masters
      → All IsMaster (read_masters xml es masters)
  unfolding read_masters
  read_masters-All [] masters a = a
  read_masters-All (e ∷ es) masters a =
      read_masters-All es _
        (All-append IsMaster masters (read_master xml e ∷ []) a (read_master-IsMaster e, tt))
