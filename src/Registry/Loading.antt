-- ===== src/Registry/Loading.antt =====
-- `fromConfig`: which configurations it takes, and what the registry then says of each motor.
use mathlib.Core.Option.{some-injective}
use mathlib.Core.Bool.{false≢true}
use mathlib.Core.List.{append-nil, append_assoc}
use heimasdk_snapshot_migrat.Prelude.{
  ◌≡◌, refl, Bool, false, ◌||◌, List, [], ◌∷◌, ◌++◌, ok, err, ◌↔◌, arith, Bool-cases, inl, inr, sym,
  ◌∙◌, subst,
}
use heimasdk_snapshot_migrat.Prelude.Int.{ℤ, pos, leb_ℤ, ltb_ℤ}
use heimasdk_snapshot_migrat.Motor.{MotorConfig}
use heimasdk_snapshot_migrat.Registry.{
  MotorRegistry, Build, alias_outside, find_key, place_motor, add_motor, add_motors, empty_build,
  from_config,
}
use heimasdk_snapshot_migrat.Registry.Building.{
  InRange, AllInRange, IsBuilt, IsRegistry, place_motor-IsBuilt,
}

module _ {F : Type 0} where
  -- The test of one entry.
  out_of_range : ℤ → MotorConfig F → Bool
  out_of_range total c = leb_ℤ c.alias (pos 0) || ltb_ℤ total c.alias

  InRange-iff : (total : ℤ) (c : MotorConfig F) → (out_of_range total c ≡ false) ↔ InRange total c
  unfolding out_of_range
  InRange-iff total c = ground arith

  add_motor_in :
      (total : ℤ) (c : MotorConfig F) (b : Build F)
      → InRange total c
      → add_motor total c b ≡ ok (place_motor c b)
  unfolding add_motor out_of_range
  add_motor_in total c b h = rw ((InRange-iff total c).1 h)

  add_motor_out :
      (total : ℤ) (c : MotorConfig F) (b : Build F)
      → ¬ InRange total c
      → add_motor total c b ≡ err alias_outside
  unfolding add_motor out_of_range
  add_motor_out total c b h = elim (Bool-cases (out_of_range total c)) [
    | inl e ↦ rw e
    | inr e ↦ absurd (h ((InRange-iff total c).0 e))
  ]

  -- All entries of `rest` are in range: the loop ends, and the build is that of all entries.
  add_motors-IsBuilt :
      (total : ℤ) (rest done : List (MotorConfig F)) (b : Build F)
      → AllInRange total rest
      → IsBuilt total done b
      → (b' : Build F) × (add_motors total rest b ≡ ok b') × IsBuilt total (done ++ rest) b'
  unfolding add_motors
  add_motors-IsBuilt total [] done b h x = (b, refl, rw append-nil x)
  add_motors-IsBuilt total (c ∷ rest) done b h x =
      let (b', e, y) =
        add_motors-IsBuilt total rest (done ++ c ∷ []) (place_motor c b) h.1
          (place_motor-IsBuilt total done c b h.0 x) in
      (
        b',
        rw (add_motor_in total c b h.0) e,
        subst (λ l. IsBuilt total l b') (append_assoc done (c ∷ []) rest) y,
      )

  add_motors_out :
      (total : ℤ) (rest : List (MotorConfig F)) (b : Build F)
      → ¬ AllInRange total rest
      → add_motors total rest b ≡ err alias_outside
  unfolding add_motors
  add_motors_out total [] b h = absurd (h tt)
  add_motors_out total (c ∷ rest) b h = elim (Bool-cases (out_of_range total c)) [
    | inl e ↦ rw (add_motor_out total c b (λ r. false≢true (sym ((InRange-iff total c).1 r) ∙ e)))
    | inr e ↦
        let i = (InRange-iff total c).0 e in
        rw (add_motor_in total c b i) (add_motors_out total rest (place_motor c b) (λ r. h (i, r)))
  ]

  empty-IsBuilt : (total : ℤ) → IsBuilt {F = F} total [] empty_build
  unfolding find_key
  empty-IsBuilt total = record {
    consistent = record { placed = λ m r e. cc; members = λ i j m g e f. cc };
    index = record { found = λ bus master i e. cc; indexed = λ i g e. cc };
    origins = refl;
    numbered = tt;
  }

  -- A configuration whose aliases lie between 1 and the total gives a registry: each entry is a
  -- motor, in order, with its index in the frames; each motor stands in exactly the place that it
  -- records, in a group of its bus and master; and no two groups share bus and master.
  pub from_config-IsRegistry :
      (total : ℤ) (configs : List (MotorConfig F))
      → AllInRange total configs
      → (r : MotorRegistry F) × (from_config total configs ≡ ok r) × IsRegistry total configs r
  unfolding from_config
  from_config-IsRegistry total configs h =
      let (b, e, x) = add_motors-IsBuilt total configs [] empty_build h (empty-IsBuilt total) in
      (
        record { total_motor_count = total; motors = b.motors; backends = b.backends },
        rw e,
        record {
          counted = refl;
          consistent = x.consistent;
          origins = x.origins;
          numbered = x.numbered;
          apart = λ i j g k at_i at_j p q.
              some-injective i j
                (sym (x.index.indexed i g at_i) ∙ rw (p, q) (x.index.indexed j k at_j));
        },
      )

  -- Any other configuration is refused.
  pub from_config_rejects :
      (total : ℤ) (configs : List (MotorConfig F))
      → ¬ AllInRange total configs
      → from_config total configs ≡ err alias_outside
  unfolding from_config
  from_config_rejects total configs h = rw (add_motors_out total configs empty_build h)
