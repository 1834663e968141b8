-- ===== src/Registry.antt =====
-- src/rmd_motor_registry.cpp and its header: the motors of a configuration in their order, and the
-- backends (one for each bus and master) with the positions of their motors.
-- `backendByKey`, a `std::map`, is an association list; it is local to `fromConfig`.
pub mod Placement
pub mod Pushing
pub mod Building
pub mod Loading
pub mod Lookup
mod Tests
use heimasdk_snapshot_migrat.Prelude.{
  ℕ, suc, ◌+◌, ◌-◌, Bool, true, false, ◌&&◌, ◌||◌, List, [], ◌∷◌, ◌++◌, Option, none, some, Result,
  ok, err, ◌>>=◌, if◌then◌else◌, length, get_elem?, get_or, modify,
}
use heimasdk_snapshot_migrat.Prelude.Int.{ℤ, pos, negsuc, leb_ℤ, ltb_ℤ, ◌==ℤ◌, pos_part}
use heimasdk_snapshot_migrat.Motor.{MotorConfig, MotorParameters, MotorBus, can, ethercat}

pub record RuntimeMotor (F : Type 0) : Type 0 where
  pub alias : ℤ
  pub global_index : ℕ
  pub backend_index : ℕ
  pub backend_local_index : ℕ
  pub bus : MotorBus
  pub master : ℤ
  pub motor_id : ℤ
  pub slave_id : ℤ
  pub ethercat_slave : ℤ
  pub domain : ℤ
  pub type_name : List ℕ
  pub parameters : MotorParameters F

pub record BackendGroup : Type 0 where
  pub bus : MotorBus
  pub master : ℤ
  pub motor_indexes : List ℕ

pub record MotorRegistry (F : Type 0) : Type 0 where
  pub total_motor_count : ℤ
  pub motors : List (RuntimeMotor F)
  pub backends : List BackendGroup

pub record Key : Type 0 where
  pub bus : MotorBus
  pub master : ℤ
  pub index : ℕ

-- The registry under construction, with `backendByKey`.
pub record Build (F : Type 0) : Type 0 where
  pub motors : List (RuntimeMotor F)
  pub backends : List BackendGroup
  pub keys : List Key

pub data RegistryError : Type 0 where
  alias_outside unknown_alias : RegistryError

abbrev pub bus_eq : MotorBus → MotorBus → Bool
bus_eq can can = true
bus_eq ethercat ethercat = true
bus_eq _ _ = false

pub find_key : MotorBus → ℤ → List Key → Option ℕ
find_key bus master [] = none
find_key bus master (k ∷ keys) =
    if bus_eq k.bus bus && k.master ==ℤ master then some k.index else find_key bus master keys

-- A group that is not there: the default of a read that the code makes only at valid indices.
abbrev pub no_group : BackendGroup
no_group = record { bus = can; master = pos 0; motor_indexes = [] }

abbrev pub add_index : ℕ → BackendGroup → BackendGroup
add_index i g = record g { motor_indexes = g.motor_indexes ++ i ∷ [] }

module _ {F : Type 0} where
  pub open_group : MotorBus → ℤ → Build F → Build F
  open_group bus master b = record b {
    backends = b.backends ++ record { bus = bus; master = master; motor_indexes = [] } ∷ [];
    keys = record { bus = bus; master = master; index = length b.backends } ∷ b.keys;
  }

  pub runtime_motor : MotorConfig F → ℕ → ℕ → RuntimeMotor F
  runtime_motor motor backend local = record {
    alias = motor.alias;
    global_index = pos_part motor.alias - 1;
    backend_index = backend;
    backend_local_index = local;
    bus = motor.bus;
    master = motor.master;
    motor_id = motor.motor_id;
    slave_id = motor.slave_id;
    ethercat_slave = motor.ethercat_slave;
    domain = motor.domain;
    type_name = motor.type_name;
    parameters = motor.parameters;
  }

  -- The motor joins the group at `backend`.
  pub push_motor : MotorConfig F → ℕ → Build F → Build F
  push_motor motor backend b = record b {
    motors = b.motors ++ runtime_motor motor backend local ∷ [];
    backends = modify b.backends backend (add_index (length b.motors));
  }
    where
      local : ℕ
      local = length (get_or b.backends backend no_group).motor_indexes

  pub place_motor : MotorConfig F → Build F → Build F
  place_motor motor b = elim (find_key motor.bus motor.master b.keys) [
    | some backend ↦ push_motor motor backend b
    | none ↦ push_motor motor (length b.backends) (open_group motor.bus motor.master b)
  ]

  pub add_motor : ℤ → MotorConfig F → Build F → Result RegistryError (Build F)
  add_motor total motor b =
      if leb_ℤ motor.alias (pos 0) || ltb_ℤ total motor.alias
      then err alias_outside
      else ok (place_motor motor b)

  pub add_motors : ℤ → List (MotorConfig F) → Build F → Result RegistryError (Build F)
  add_motors total [] b = ok b
  add_motors total (motor ∷ rest) b = add_motor total motor b >>= add_motors total rest

  abbrev pub empty_build : Build F
  empty_build = record { motors = []; backends = []; keys = [] }

  pub from_config : ℤ → List (MotorConfig F) → Result RegistryError (MotorRegistry F)
  from_config total motors = add_motors total motors empty_build >>= λ b.
      ok (record { total_motor_count = total; motors = b.motors; backends = b.backends })

  pub find_alias : ℤ → List (RuntimeMotor F) → Result RegistryError (RuntimeMotor F)
  find_alias alias [] = err unknown_alias
  find_alias alias (motor ∷ rest) =
      if motor.alias ==ℤ alias then ok motor else find_alias alias rest

  pub motor_by_alias : ℤ → MotorRegistry F → Result RegistryError (RuntimeMotor F)
  unfolding find_alias
  motor_by_alias alias r = find_alias alias r.motors
