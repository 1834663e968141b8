-- ===== src/Registry/Building.antt =====
-- One entry of a configuration added to the registry under construction, and what is true of it.
use mathlib.Core.List.{map-append}
use heimasdk_snapshot_migrat.Prelude.{
  ℕ, suc, ◌≡◌, refl, List, [], ◌∷◌, ◌++◌, map, none, some, arith, length, get_elem?, Option-cases,
  inl, inr, get_elem?-snoc_length,
}
use heimasdk_snapshot_migrat.Prelude.Int.{ℤ, pos, ◌≤ℤ◌}
use heimasdk_snapshot_migrat.Motor.{MotorConfig, MotorBus}
use heimasdk_snapshot_migrat.Registry.{
  RuntimeMotor, BackendGroup, MotorRegistry, Build, find_key, open_group, runtime_motor, push_motor,
  place_motor,
}
use heimasdk_snapshot_migrat.Registry.Placement.{
  IsConsistent, IsIndexed, open_group-IsIndexed, open_group-IsConsistent,
}
use heimasdk_snapshot_migrat.Registry.Pushing.{push_motor-IsConsistent, push_motor-IsIndexed}

module _ {F : Type 0} where
  -- The configuration entry that a registered motor was made from.
  abbrev pub origin : RuntimeMotor F → MotorConfig F
  origin r = record {
    alias = r.alias;
    master = r.master;
    motor_id = r.motor_id;
    slave_id = r.slave_id;
    ethercat_slave = r.ethercat_slave;
    domain = r.domain;
    bus = r.bus;
    type_name = r.type_name;
    parameters = r.parameters;
  }

  abbrev pub InRange : ℤ → MotorConfig F → Type 0
  InRange total c = (pos 1 ≤ℤ c.alias) × (c.alias ≤ℤ total)

  abbrev pub AllInRange : ℤ → List (MotorConfig F) → Type 0
  AllInRange total [] = Unit
  AllInRange total (c ∷ cs) = InRange total c × AllInRange total cs

  -- A motor's index into the frames is its alias less one, and lies below the total.
  abbrev pub AllIndexed : ℤ → List (RuntimeMotor F) → Type 0
  AllIndexed total [] = Unit
  AllIndexed total (r ∷ rs) =
      (r.alias ≡ pos (suc r.global_index))
      × (pos (suc r.global_index) ≤ℤ total)
      × AllIndexed total rs

  pub record IsBuilt (total : ℤ) (configs : List (MotorConfig F)) (b : Build F) : Type 0 where
    pub consistent : IsConsistent b.motors b.backends
    pub index : IsIndexed b.keys b.backends
    pub origins : map origin b.motors ≡ configs
    pub numbered : AllIndexed total b.motors

  -- The groups have different buses or masters.
  pub record IsRegistry (total : ℤ) (configs : List (MotorConfig F)) (r : MotorRegistry F)
      : Type 0 where
    pub counted : r.total_motor_count ≡ total
    pub consistent : IsConsistent r.motors r.backends
    pub origins : map origin r.motors ≡ configs
    pub numbered : AllIndexed total r.motors
    pub apart :
        (i j : ℕ) (g h : BackendGroup)
        → get_elem? r.backends i ≡ some g
        → get_elem? r.backends j ≡ some h
        → g.bus ≡ h.bus
        → g.master ≡ h.master
        → i ≡ j

  AllIndexed-snoc :
      (total : ℤ) (rs : List (RuntimeMotor F)) (c : MotorConfig F) (k l : ℕ)
      → InRange total c
      → AllIndexed total rs
      → AllIndexed total (rs ++ runtime_motor c k l ∷ [])
  unfolding runtime_motor
  AllIndexed-snoc total [] c k l h a = ground arith
  AllIndexed-snoc total (r ∷ rs) c k l h a = (a.0, a.1, AllIndexed-snoc total rs c k l h a.2)

  origin-runtime_motor : (c : MotorConfig F) (k l : ℕ) → origin (runtime_motor c k l) ≡ c
  unfolding runtime_motor
  origin-runtime_motor c k l = refl

  push_motor-IsBuilt :
      (total : ℤ) (cs : List (MotorConfig F)) (c : MotorConfig F) (b : Build F) (k : ℕ)
      (g : BackendGroup)
      → InRange total c
      → get_elem? b.backends k ≡ some g
      → g.bus ≡ c.bus
      → g.master ≡ c.master
      → IsBuilt total cs b
      → IsBuilt total (cs ++ c ∷ []) (push_motor c k b)
  unfolding push_motor
  push_motor-IsBuilt total cs c b k g h at p q x = record {
    consistent = push_motor-IsConsistent b c k g at p q x.consistent;
    index = push_motor-IsIndexed b c k g at p q x.index;
    origins = rw (map-append, x.origins, origin-runtime_motor);
    numbered = AllIndexed-snoc total b.motors c k _ h x.numbered;
  }

  open_group-IsBuilt :
      (total : ℤ) (cs : List (MotorConfig F)) (bus : MotorBus) (master : ℤ) (b : Build F)
      → find_key bus master b.keys ≡ none
      → IsBuilt total cs b
      → IsBuilt total cs (open_group bus master b)
  unfolding open_group
  open_group-IsBuilt total cs bus master b e x = record {
    consistent = open_group-IsConsistent b bus master x.consistent;
    index = open_group-IsIndexed b bus master e x.index;
    origins = x.origins;
    numbered = x.numbered;
  }

  pub place_motor-IsBuilt :
      (total : ℤ) (cs : List (MotorConfig F)) (c : MotorConfig F) (b : Build F)
      → InRange total c
      → IsBuilt total cs b
      → IsBuilt total (cs ++ c ∷ []) (place_motor c b)
  unfolding place_motor
  place_motor-IsBuilt total cs c b h x = elim (Option-cases (find_key c.bus c.master b.keys)) [
    | inl e ↦
        rw (e, place_motor)
          (push_motor-IsBuilt total cs c (open_group c.bus c.master b) (length b.backends)
            (record { bus = c.bus; master = c.master; motor_indexes = [] }) h
            (unfold open_group in get_elem?-snoc_length b.backends _) refl refl
            (open_group-IsBuilt total cs c.bus c.master b e x))
    | inr e ↦
        let (g, at, p, q) = x.index.found c.bus c.master e.0 e.1 in
        rw (e.1, place_motor) (push_motor-IsBuilt total cs c b e.0 g h at p q x)
  ]
