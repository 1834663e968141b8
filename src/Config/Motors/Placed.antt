-- ===== src/Config/Motors/Placed.antt =====
-- What is true of each motor that the configuration places.
use heimasdk_snapshot_migrat.Prelude.{
  ◌≡◌, refl, List, [], ◌∷◌, some, ok, >>=_inverse, ok-injective, arith, inl, inr, subst,
  if◌then◌else◌, Bool-cases, codes,
}
use heimasdk_snapshot_migrat.Prelude.Int.{ℤ, pos, ◌≤ℤ◌, ltb_ℤ}
use heimasdk_snapshot_migrat.Motor.{MotorParameters, MotorConfig, MotorBus, can, ethercat}
use heimasdk_snapshot_migrat.Config.{
  Xml, ConfigError, read_parameters, can_entry_invalid, ethercat_entry_invalid, explicit_invalid,
}
use heimasdk_snapshot_migrat.Config.Motors.{
  put_parameters, find_parameters, put_parameters, read_parameter_map, parameters_of, can_slave,
  ethercat_slave, explicit_ids, explicit_motor, ethercat_slave, explicit_ids, explicit_motor,
}
use heimasdk_snapshot_migrat.Config.Motors.Distinct.{
  All-mono, IsAlias, AllKeyed, put_parameters-AllKeyed, find_parameters-IsAlias,
}

-- A motor of a loaded configuration.
pub record IsPlaced {F : Type 0} (total : ℤ) (parameters : List (ℤ × MotorParameters F))
    (m : MotorConfig F) : Type 0 where
  pub numbered : IsAlias total m.alias
  pub own : find_parameters m.alias parameters ≡ some m.parameters
  pub identified : m.bus ≡ can → pos 1 ≤ℤ m.motor_id

module _ {F : Type 0} where
  -- The parameters of an alias are there, and the alias is one of a motor.
  parameters_of_lem :
      (error : ConfigError) (total alias : ℤ) (entries : List (ℤ × MotorParameters F))
      {p : MotorParameters F}
      → AllKeyed total entries
      → parameters_of error alias entries ≡ ok p
      → IsAlias total alias × (find_parameters alias entries ≡ some p)
  unfolding parameters_of
  parameters_of_lem error total alias entries a e =
      grind (arith, find_parameters-IsAlias total alias entries a)

module _ {E F : Type 0} (xml : Xml E F) where
  pub read_parameter_map-AllKeyed :
      (es : List E) (entries : List (ℤ × MotorParameters F)) (total : ℤ)
      {out : List (ℤ × MotorParameters F)} {total' : ℤ}
      → AllKeyed total entries
      → read_parameter_map xml es entries total ≡ ok (out, total')
      → AllKeyed total' out
  unfolding read_parameter_map
  read_parameter_map-AllKeyed [] entries total a e =
      subst (λ r. AllKeyed r.1 r.0) (ok-injective (read_parameter_map xml [] entries total) refl e)
        a
  read_parameter_map-AllKeyed (x ∷ es) entries total a e =
      let alias : ℤ = xml.int_attribute x (codes "alias") (pos 0) in
      elim (Bool-cases (ltb_ℤ (pos 0) alias)) [
        | inl h ↦
            let (p, _, q) = >>=_inverse (read_parameters xml x) _ (rw h at e) in
            read_parameter_map-AllKeyed es (put_parameters alias p entries)
              (if ltb_ℤ total alias then alias else total)
              (put_parameters-AllKeyed _ alias p entries (ground arith)
                (All-mono entries (λ k b. ground arith) a))
              q
        | inr h ↦ read_parameter_map-AllKeyed es entries total a (rw h at e)
      ]

  pub can_slave-IsPlaced :
      (total : ℤ) (entries : List (ℤ × MotorParameters F)) (e : E) (m : MotorConfig F)
      → AllKeyed total entries
      → can_slave xml entries e ≡ ok (some m)
      → IsPlaced total entries m
  unfolding can_slave
  can_slave-IsPlaced total entries e m a h = grind (
    arith,
    parameters_of_lem can_entry_invalid total (xml.int_attribute e (codes "alias") (pos 0)) entries
        a,
  )

  pub ethercat_slave-IsPlaced :
      (total : ℤ) (entries : List (ℤ × MotorParameters F)) (e : E) (m : MotorConfig F)
      → AllKeyed total entries
      → ethercat_slave xml entries e ≡ ok (some m)
      → IsPlaced total entries m
  unfolding ethercat_slave
  ethercat_slave-IsPlaced total entries e m a h = grind (
    arith,
    parameters_of_lem ethercat_entry_invalid total (xml.int_attribute e (codes "alias") (pos 0))
        entries a,
  )

  explicit_ids_can :
      (bus : MotorBus) (e : E) (alias : ℤ) {ids : ℤ × ℤ × ℤ}
      → explicit_ids xml bus e alias ≡ ok ids
      → bus ≡ can
      → pos 1 ≤ℤ ids.0
  unfolding explicit_ids
  explicit_ids_can can e alias h b = ground arith
  explicit_ids_can ethercat e alias h b = cc

  pub explicit_motor-IsPlaced :
      (total : ℤ) (entries : List (ℤ × MotorParameters F)) (e : E) (m : MotorConfig F)
      → AllKeyed total entries
      → explicit_motor xml entries e ≡ ok (some m)
      → IsPlaced total entries m
  unfolding explicit_motor
  explicit_motor-IsPlaced total entries e m a h = grind (
    arith,
    explicit_ids_can,
    parameters_of_lem explicit_invalid total (xml.int_attribute e (codes "alias") (pos 0)) entries
        a,
  )
