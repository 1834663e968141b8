-- ===== src/Registry/Placement.antt =====
-- Each motor stands in exactly the place of its group that it records, and the groups have
-- different keys.
use mathlib.Core.Option.{some-injective}
use heimasdk_snapshot_migrat.Prelude.{
  snoc_cases, get_elem?-snoc_lt, get_elem?-snoc_length, Bool-cases, inl, inr, sym, subst, ℕ, ◌≡◌,
  refl, true, ◌&&◌, List, [], none, some, arith, get_elem?,
}
use heimasdk_snapshot_migrat.Prelude.Int.{ℤ, ◌==ℤ◌, ==ℤ_iff}
use heimasdk_snapshot_migrat.Motor.{MotorBus, can, ethercat}
use heimasdk_snapshot_migrat.Registry.{
  RuntimeMotor, BackendGroup, Key, Build, bus_eq, find_key, open_group,
}

module _ {F : Type 0} where
  -- The motor at position `m` is the `backend_local_index`-th of its group.
  pub record IsPlaced (backends : List BackendGroup) (m : ℕ) (r : RuntimeMotor F) : Type 0 where
    pub group : BackendGroup
    pub at_backend : get_elem? backends r.backend_index ≡ some group
    pub same_bus : group.bus ≡ r.bus
    pub same_master : group.master ≡ r.master
    pub at_local : get_elem? group.motor_indexes r.backend_local_index ≡ some m

  -- Position `j` of group `i` names a motor that says so.
  pub record IsMember (motors : List (RuntimeMotor F)) (i j m : ℕ) : Type 0 where
    pub motor : RuntimeMotor F
    pub at_index : get_elem? motors m ≡ some motor
    pub back : motor.backend_index ≡ i
    pub back_local : motor.backend_local_index ≡ j

  pub record IsConsistent (motors : List (RuntimeMotor F)) (backends : List BackendGroup)
      : Type 0 where
    pub placed : (m : ℕ) (r : RuntimeMotor F) → get_elem? motors m ≡ some r → IsPlaced backends m r
    pub members :
        (i j m : ℕ) (g : BackendGroup)
        → get_elem? backends i ≡ some g
        → get_elem? g.motor_indexes j ≡ some m
        → IsMember motors i j m

-- The map from keys to groups finds each group, and nothing else.
pub record IsIndexed (keys : List Key) (backends : List BackendGroup) : Type 0 where
  pub found :
      (bus : MotorBus) (master : ℤ) (i : ℕ)
      → find_key bus master keys ≡ some i
      → (g : BackendGroup) × (get_elem? backends i ≡ some g) × (g.bus ≡ bus) × (g.master ≡ master)
  pub indexed :
      (i : ℕ) (g : BackendGroup)
      → get_elem? backends i ≡ some g
      → find_key g.bus g.master keys ≡ some i

none≢some {ℓ} : {A : Type ℓ} {x : A} → none ≡ some x → ⊥
none≢some e = cc

pub bus_eq_iff : (a b : MotorBus) → bus_eq a b ≡ true → a ≡ b
bus_eq_iff can can h = refl
bus_eq_iff can ethercat h = cc
bus_eq_iff ethercat can h = cc
bus_eq_iff ethercat ethercat h = refl

bus_eq_refl : (a : MotorBus) → bus_eq a a ≡ true
bus_eq_refl can = refl
bus_eq_refl ethercat = refl

module _ {F : Type 0} (b : Build F) (bus : MotorBus) (master : ℤ) where
  abbrev new_group : BackendGroup
  new_group = record { bus = bus; master = master; motor_indexes = [] }

  abbrev pub opened : Build F
  opened = open_group bus master b

  open_group-found :
      IsIndexed b.keys b.backends
      → (bus' : MotorBus) (master' : ℤ) (i : ℕ) → find_key bus' master' opened.keys ≡ some i
      → (g : BackendGroup) × (get_elem? opened.backends i ≡ some g)
        × (g.bus ≡ bus')
        × (g.master ≡ master')
  unfolding open_group find_key
  open_group-found x bus' master' i e = elim (Bool-cases (bus_eq bus bus' && master ==ℤ master')) [
    | inl h ↦ (
      new_group,
      subst (λ k. get_elem? opened.backends k ≡ some new_group) (some-injective _ _ (rw h at e))
          (get_elem?-snoc_length b.backends new_group),
      bus_eq_iff bus bus' (ground arith),
      (==ℤ_iff master master').0 (ground arith),
    )
    | inr h ↦
        let (g, at, p, q) = x.found bus' master' i (rw h at e) in
        (g, get_elem?-snoc_lt b.backends new_group i at, p, q)
  ]

  open_group-indexed :
      find_key bus master b.keys ≡ none
      → IsIndexed b.keys b.backends
      → (i : ℕ) (g : BackendGroup) → get_elem? opened.backends i ≡ some g
      → find_key g.bus g.master opened.keys ≡ some i
  unfolding open_group find_key
  open_group-indexed fresh x i g e = elim (snoc_cases b.backends new_group i e) [
    | inl old ↦ elim (Bool-cases (bus_eq bus g.bus && master ==ℤ g.master)) [
      | inl h ↦ cc (
        fresh,
        x.indexed i g old,
        bus_eq_iff bus g.bus (ground arith),
        (==ℤ_iff master g.master).0 (ground arith),
      )
      | inr h ↦ rw h (x.indexed i g old)
    ]
    | inr new ↦
        subst (λ h. find_key h.bus h.master opened.keys ≡ some i) new.1
          (ground (arith, bus_eq_refl bus, new.0))
  ]

  pub open_group-IsIndexed :
      find_key bus master b.keys ≡ none
      → IsIndexed b.keys b.backends
      → IsIndexed opened.keys opened.backends
  open_group-IsIndexed fresh x = record {
    found = open_group-found x;
    indexed = open_group-indexed fresh x;
  }

  pub open_group-IsConsistent :
      IsConsistent b.motors b.backends → IsConsistent opened.motors opened.backends
  unfolding open_group
  open_group-IsConsistent c = record {
    placed = λ m r e.
        let p = c.placed m r e in
        record {
          group = p.group;
          at_backend = get_elem?-snoc_lt b.backends new_group r.backend_index p.at_backend;
          same_bus = p.same_bus;
          same_master = p.same_master;
          at_local = p.at_local;
        };
    members = λ i j m g e f. elim (snoc_cases b.backends new_group i e) [
      | inl old ↦ c.members i j m g old f
      | inr new ↦
          absurd (none≢some (subst (λ h. get_elem? h.motor_indexes j ≡ some m) (sym new.1) f))
    ];
  }
