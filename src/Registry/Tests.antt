-- ===== src/Registry/Tests.antt =====
-- Three motors on two buses.
use heimasdk_snapshot_migrat.Prelude.{◌≡◌, List, [], ◌∷◌, ok, arith}
use heimasdk_snapshot_migrat.Prelude.Int.{ℤ, pos}
use heimasdk_snapshot_migrat.Motor.{MotorConfig, MotorBus, can, ethercat}
use heimasdk_snapshot_migrat.Motor.Sample.{sample_parameters}
use heimasdk_snapshot_migrat.Registry.{MotorRegistry, from_config}
use heimasdk_snapshot_migrat.Registry.Building.{IsRegistry}
use heimasdk_snapshot_migrat.Registry.Loading.{from_config-IsRegistry}

abbrev entry : ℤ → MotorBus → MotorConfig ℤ
entry alias bus = record {
  alias = alias;
  master = pos 0;
  motor_id = alias;
  slave_id = alias;
  ethercat_slave = pos 0;
  domain = pos 0;
  bus = bus;
  type_name = [];
  parameters = sample_parameters;
}

abbrev three : List (MotorConfig ℤ)
three = entry (pos 2) can ∷ entry (pos 1) ethercat ∷ entry (pos 3) can ∷ []

abbrev three_motors : MotorRegistry ℤ
three_motors = (from_config-IsRegistry (pos 3) three (omega arith)).0

from_config-IsRegistry_example :
    (r : MotorRegistry ℤ) × (from_config (pos 3) three ≡ ok r) × IsRegistry (pos 3) three r
from_config-IsRegistry_example = from_config-IsRegistry (pos 3) three (omega arith)
