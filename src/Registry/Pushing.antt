-- ===== src/Registry/Pushing.antt =====
-- A motor that joins a group of its own bus and master takes the next place there.
use heimasdk_snapshot_migrat.Prelude.{
  snoc_cases, get_elem?-snoc_lt, get_elem?-snoc_length, get_elem?-modify_self, get_elem?-modify_ne,
  modify_cases, get_or_of_get_elem?, inl, inr, ap, sym, ◌∙◌, subst, ℕ_discrete, ℕ, ◌≡◌, List, [],
  ◌∷◌, ◌++◌, some, length, get_elem?, get_or, modify,
}
use heimasdk_snapshot_migrat.Motor.{MotorConfig}
use heimasdk_snapshot_migrat.Registry.{
  RuntimeMotor, BackendGroup, Build, find_key, no_group, add_index, runtime_motor, push_motor,
}
use heimasdk_snapshot_migrat.Registry.Placement.{IsPlaced, IsMember, IsConsistent, IsIndexed}

-- A motor joins the group at `k`, whose key is its own.
module _ {F : Type 0} (b : Build F) (motor : MotorConfig F) (k : ℕ) (g : BackendGroup) where
  module _ (at : get_elem? b.backends k ≡ some g) (same_bus : g.bus ≡ motor.bus)
      (same_master : g.master ≡ motor.master) where
    abbrev count : ℕ
    count = length b.motors

    abbrev local : ℕ
    local = length (get_or b.backends k no_group).motor_indexes

    abbrev added : RuntimeMotor F
    added = runtime_motor motor k local

    abbrev pushed : List BackendGroup
    pushed = modify b.backends k (add_index count)

    local_lem : local ≡ length g.motor_indexes
    local_lem = ap (λ h. length h.motor_indexes) (get_or_of_get_elem? b.backends k no_group at)

    IsPlaced-new : IsPlaced pushed count added
    unfolding runtime_motor
    IsPlaced-new = record {
      group = add_index count g;
      at_backend = get_elem?-modify_self b.backends k (add_index count) at;
      same_bus = same_bus;
      same_master = same_master;
      at_local = rw local_lem (get_elem?-snoc_length g.motor_indexes count);
    }

    IsPlaced-old : (m : ℕ) (r : RuntimeMotor F) → IsPlaced b.backends m r → IsPlaced pushed m r
    IsPlaced-old m r p = elim (ℕ_discrete k r.backend_index) [
      | yes q ↦ record {
        group = add_index count p.group;
        at_backend =
            rw q (get_elem?-modify_self b.backends r.backend_index (add_index count) p.at_backend);
        same_bus = p.same_bus;
        same_master = p.same_master;
        at_local = get_elem?-snoc_lt p.group.motor_indexes count r.backend_local_index p.at_local;
      }
      | no q ↦ record {
        group = p.group;
        at_backend =
            get_elem?-modify_ne b.backends k r.backend_index (add_index count) q ∙ p.at_backend;
        same_bus = p.same_bus;
        same_master = p.same_master;
        at_local = p.at_local;
      }
    ]

    IsMember-old : (i j m : ℕ) → IsMember b.motors i j m → IsMember (b.motors ++ added ∷ []) i j m
    IsMember-old i j m x = record {
      motor = x.motor;
      at_index = get_elem?-snoc_lt b.motors added m x.at_index;
      back = x.back;
      back_local = x.back_local;
    }

    IsMember-here :
        IsConsistent b.motors b.backends
        → (i j m : ℕ) (x h : BackendGroup) → get_elem? b.backends i ≡ some x
        → (k ≡ i) × (h ≡ add_index count x)
        → get_elem? h.motor_indexes j ≡ some m
        → IsMember (b.motors ++ added ∷ []) i j m
    unfolding runtime_motor
    IsMember-here c i j m x h ex hit f =
        elim (snoc_cases x.motor_indexes count j
          (subst (λ y. get_elem? y.motor_indexes j ≡ some m) hit.1 f)) [
            | inl old ↦ IsMember-old i j m (c.members i j m x ex old)
            | inr new ↦ record {
              motor = added;
              at_index =
                  subst (λ n. get_elem? (b.motors ++ added ∷ []) n ≡ some added) new.1
                    (get_elem?-snoc_length b.motors added);
              back = hit.0;
              back_local =
                  ap (λ y. length y.motor_indexes)
                    (get_or_of_get_elem? b.backends k no_group {y = x} (rw hit.0 ex))
                  ∙ sym new.0;
            }
          ]

    pub push_motor-IsConsistent :
        IsConsistent b.motors b.backends
        → IsConsistent (push_motor motor k b).motors (push_motor motor k b).backends
    unfolding push_motor
    push_motor-IsConsistent c = record {
      placed = λ m r e. elim (snoc_cases b.motors added m e) [
        | inl old ↦ IsPlaced-old m r (c.placed m r old)
        | inr new ↦ rw new.0 (subst (IsPlaced pushed count) new.1 IsPlaced-new)
      ];
      members = λ i j m h e f.
          let (x, ex, c') = modify_cases b.backends k i (add_index count) e in
          elim c' [
            | inl hit ↦ IsMember-here c i j m x h ex hit f
            | inr miss ↦
                IsMember-old i j m (
                  c.members i j m x ex (subst (λ y. get_elem? y.motor_indexes j ≡ some m) miss.1 f))
          ];
    }

    pub push_motor-IsIndexed :
        IsIndexed b.keys b.backends
        → IsIndexed (push_motor motor k b).keys (push_motor motor k b).backends
    unfolding push_motor
    push_motor-IsIndexed x = record {
      found = λ bus master i e.
          let (h, eh, p, q) = x.found bus master i e in
          elim (ℕ_discrete k i) [
            | yes r ↦ (
              add_index count h,
              rw r (get_elem?-modify_self b.backends i (add_index count) eh),
              p,
              q,
            )
            | no r ↦ (h, get_elem?-modify_ne b.backends k i (add_index count) r ∙ eh, p, q)
          ];
      indexed = λ i h e.
          let (y, ey, c) = modify_cases b.backends k i (add_index count) e in
          elim c [
            | inl hit ↦
                subst (λ z. find_key z.bus z.master b.keys ≡ some i) (sym hit.1) (x.indexed i y ey)
            | inr miss ↦
                subst (λ z. find_key z.bus z.master b.keys ≡ some i) (sym miss.1) (x.indexed i y ey)
          ];
    }
