-- ===== src/Config/Motors.antt =====
-- The motors of a configuration: the parameters by alias, and the three places that put a motor on a
-- bus. `std::map<int, MotorParameters>` is an association list with distinct keys.
pub mod Distinct
pub mod Placed
use heimasdk_snapshot_migrat.Prelude.{
  ℕ, Bool, false, not, ◌&&◌, List, [], ◌∷◌, Option, none, some, Result, ok, err, ◌>>=◌, codes,
  if◌then◌else◌,
}
use heimasdk_snapshot_migrat.Prelude.Int.{ℤ, pos, negsuc, ◌==ℤ◌, leb_ℤ, ltb_ℤ}
use heimasdk_snapshot_migrat.Motor.{MotorParameters, MotorBus, can, ethercat, MotorConfig}
use heimasdk_snapshot_migrat.Ethercat.MtDevice.{is_mt_device_type}
use heimasdk_snapshot_migrat.Registry.{bus_eq}
use heimasdk_snapshot_migrat.Config.{
  Xml, ConfigError, explicit_invalid, can_id_missing, ethercat_slave_missing,
  ethercat_entry_invalid, can_entry_invalid, text_or_empty, starts_with, parse_motor_bus,
  first_int_attribute, read_parameters,
}

module _ {F : Type 0} where
  unfoldable pub put_parameters :
      ℤ → MotorParameters F → List (ℤ × MotorParameters F) → List (ℤ × MotorParameters F)
  put_parameters alias p [] = (alias, p) ∷ []
  put_parameters alias p ((k, q) ∷ rest) =
      if k ==ℤ alias then (alias, p) ∷ rest else (k, q) ∷ put_parameters alias p rest

  unfoldable pub find_parameters : ℤ → List (ℤ × MotorParameters F) → Option (MotorParameters F)
  find_parameters alias [] = none
  find_parameters alias ((k, q) ∷ rest) = if k ==ℤ alias then some q else find_parameters alias rest

  -- A motor takes the place of the one that has its alias.
  unfoldable pub upsert_motor : MotorConfig F → List (MotorConfig F) → List (MotorConfig F)
  upsert_motor motor [] = motor ∷ []
  upsert_motor motor (item ∷ rest) =
      if item.alias ==ℤ motor.alias then motor ∷ rest else item ∷ upsert_motor motor rest

  -- The alias must be positive and have parameters.
  unfoldable pub parameters_of :
      ConfigError → ℤ → List (ℤ × MotorParameters F) → Result ConfigError (MotorParameters F)
  parameters_of error alias parameters = elim (find_parameters alias parameters) [
    | none ↦ err error
    | some p ↦ if leb_ℤ alias (pos 0) then err error else ok p
  ]

module _ {E F : Type 0} where
  -- The loops over the three kinds of element: `place` reads one of them.
  unfoldable pub place_motors :
      (E → Result ConfigError (Option (MotorConfig F)))
      → List E
      → List (MotorConfig F)
      → Result ConfigError (List (MotorConfig F))
  place_motors place [] motors = ok motors
  place_motors place (e ∷ rest) motors = place e >>= λ r. elim r [
    | none ↦ place_motors place rest motors
    | some motor ↦ place_motors place rest (upsert_motor motor motors)
  ]

module _ {E F : Type 0} (xml : Xml E F) where
  -- The loop over the `Motor` elements, with `totalMotorCount`.
  unfoldable pub read_parameter_map :
      List E
      → List (ℤ × MotorParameters F)
      → ℤ
      → Result ConfigError (List (ℤ × MotorParameters F) × ℤ)
  read_parameter_map [] parameters total = ok (parameters, total)
  read_parameter_map (motor ∷ rest) parameters total =
      let alias = xml.int_attribute motor (codes "alias") (pos 0) in
      if ltb_ℤ (pos 0) alias
      then (read_parameters xml motor >>= λ p.
          read_parameter_map rest (put_parameters alias p parameters)
            (if ltb_ℤ total alias then alias else total))
      else read_parameter_map rest parameters total

  abbrev pub type_of : E → List ℕ
  type_of e = text_or_empty (xml.attribute e (codes "type"))

  -- One `Slave` of `CAN`. `none`: the element is passed over.
  unfoldable pub can_slave :
      List (ℤ × MotorParameters F) → E → Result ConfigError (Option (MotorConfig F))
  can_slave parameters slave =
      let alias = xml.int_attribute slave (codes "alias") (pos 0) in
      let slave_id = xml.int_attribute slave (codes "slave_id") (pos 0) in
      if not (xml.int_text slave (pos 0) ==ℤ pos 1)
      then ok none
      else if not (starts_with (type_of slave) (codes "RMD"))
      then ok none
      else if leb_ℤ slave_id (pos 0)
      then err can_entry_invalid
      else (parameters_of can_entry_invalid alias parameters >>= λ p. ok (
          some (record {
            alias = alias;
            master = xml.int_attribute slave (codes "master") (pos 0);
            motor_id = slave_id;
            slave_id = slave_id;
            ethercat_slave = pos 0;
            domain = pos 0;
            bus = can;
            type_name = type_of slave;
            parameters = p;
          })))

  -- One `Slave` of `ECAT`.
  pub ethercat_slave :
      List (ℤ × MotorParameters F) → E → Result ConfigError (Option (MotorConfig F))
  ethercat_slave parameters slave =
      let alias = xml.int_attribute slave (codes "alias") (pos 0) in
      let position =
        first_int_attribute xml slave
          (codes "slave" ∷ codes "ethercat_slave" ∷ codes "slave_id" ∷ []) (negsuc 0) in
      if not (xml.int_text slave (pos 0) ==ℤ pos 1)
      then ok none
      else if not (is_mt_device_type (type_of slave))
      then ok none
      else (parameters_of ethercat_entry_invalid alias parameters >>= λ p. ok (
          some (record {
            alias = alias;
            master = xml.int_attribute slave (codes "master") (pos 0);
            motor_id = first_int_attribute xml slave (codes "id" ∷ codes "motor_id" ∷ []) alias;
            slave_id = position;
            ethercat_slave = position;
            domain = xml.int_attribute slave (codes "domain") (pos 0);
            bus = ethercat;
            type_name = type_of slave;
            parameters = p;
          })))

  -- The identifiers of an explicitly placed motor: `motorId`, `slaveId` and `ethercatSlave`.
  unfoldable pub explicit_ids : MotorBus → E → ℤ → Result ConfigError (ℤ × ℤ × ℤ)
  explicit_ids can e alias =
      let motor_id =
        first_int_attribute xml e (codes "id" ∷ codes "motor_id" ∷ codes "slave_id" ∷ []) (pos 0) in
      let slave_id =
        first_int_attribute xml e (codes "slave_id" ∷ codes "id" ∷ codes "motor_id" ∷ [])
          motor_id in
      if leb_ℤ motor_id (pos 0) then err can_id_missing else ok (motor_id, slave_id, negsuc 0)
  explicit_ids ethercat e alias =
      let position =
        first_int_attribute xml e (codes "slave" ∷ codes "ethercat_slave" ∷ codes "slave_id" ∷ [])
          (negsuc 0) in
      if ltb_ℤ position (pos 0)
      then err ethercat_slave_missing
      else ok
          (first_int_attribute xml e (codes "id" ∷ codes "motor_id" ∷ []) alias, position, position)

  -- One `Motor` of `Motors`. Without a bus, or on the CAN bus with a type that is not an RMD one, it
  -- is passed over.
  unfoldable pub explicit_motor :
      List (ℤ × MotorParameters F) → E → Result ConfigError (Option (MotorConfig F))
  explicit_motor parameters e = elim (xml.attribute e (codes "bus")) [
    | none ↦ ok none
    | some text ↦
        let alias : ℤ = xml.int_attribute e (codes "alias") (pos 0) in
        parse_motor_bus (some text) >>= λ bus.
        parameters_of explicit_invalid alias parameters >>= λ p.
        if is_foreign bus (type_of e)
        then ok none
        else (explicit_ids bus e alias >>= λ ids. ok (
            some (record {
              alias = alias;
              master = xml.int_attribute e (codes "master") (pos 0);
              motor_id = ids.0;
              slave_id = ids.1;
              ethercat_slave = ids.2;
              domain = xml.int_attribute e (codes "domain") (pos 0);
              bus = bus;
              type_name = type_of e;
              parameters = p;
            })))
  ]
    where
      is_foreign : MotorBus → List ℕ → Bool
      is_foreign bus [] = false
      is_foreign bus (c ∷ type_name) =
          bus_eq bus can && not (starts_with (c ∷ type_name) (codes "RMD"))
