-- ===== src/Runtime.antt =====
-- crates/temnion-runtime/src/lib.rs: the errors that virtual shards, the task graph and the storage
-- hierarchy share, and the classes of background tasks.
use temnion.Prelude.{ℕ, Bool, ltb, leb, ◌==◌}
pub mod Shards
pub mod Dag
pub mod Pressure
pub mod Tiers
mod Tests

-- The texts that `InvalidConfiguration` carries.
pub data Configuration : Type 0 where
  no_partitions empty_mapping : Configuration

pub data RuntimeError : Type 0 where
  invalid_configuration : Configuration → RuntimeError
  partition_not_found : ℕ → RuntimeError
  task_not_found : ℕ → RuntimeError
  dependency_cycle_detected : RuntimeError
  task_prerequisites_not_met : ℕ → RuntimeError
  segment_not_found : ℕ → RuntimeError
  capacity_exceeded : RuntimeError

pub data TaskClass : Type 0 where
  seal compress index summary maintenance : TaskClass

-- The discriminants, by which the derived order compares.
abbrev pub class_rank : TaskClass → ℕ
class_rank seal = 4
class_rank compress = 3
class_rank index = 2
class_rank summary = 1
class_rank maintenance = 0

-- `TaskClass::priority_weight`
abbrev pub priority_weight : TaskClass → ℕ
priority_weight seal = 100
priority_weight compress = 80
priority_weight index = 60
priority_weight summary = 40
priority_weight maintenance = 20
