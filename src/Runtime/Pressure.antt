-- ===== src/Runtime/Pressure.antt =====
-- `PressureController` of crates/temnion-runtime/src/lib.rs.
use temnion.Prelude.{ℕ, ◌*◌, ◌/◌, Bool, true, false, not, ◌==◌, leb, if◌then◌else◌}
use temnion.Runtime.{TaskClass, class_rank}

pub data PressureLevel : Type 0 where
  normal moderate high critical : PressureLevel

abbrev pub level_rank : PressureLevel → ℕ
level_rank normal = 0
level_rank moderate = 1
level_rank high = 2
level_rank critical = 3

pub record PressureController : Type 0 where
  pub foreground_queue_limit : ℕ
  pub current_queue_depth : ℕ

abbrev pub new_controller : ℕ → PressureController
new_controller limit = record { foreground_queue_limit = limit; current_queue_depth = 0 }

abbrev pub set_queue_depth : ℕ → PressureController → PressureController
set_queue_depth depth c = record c { current_queue_depth = depth }

abbrev pub level_of_ratio : ℕ → PressureLevel
level_of_ratio ratio =
    if leb 90 ratio
    then critical
    else if leb 70 ratio
    then high
    else if leb 40 ratio
    then moderate
    else normal

-- The depth is below `usize::MAX / 100`, so that the product does not overflow.
unfoldable pub pressure_level : PressureController → PressureLevel
pressure_level c =
    if c.foreground_queue_limit == 0
    then normal
    else level_of_ratio (c.current_queue_depth * 100 / c.foreground_queue_limit)

unfoldable pub should_throttle : PressureController → Bool
should_throttle c = leb (level_rank high) (level_rank (pressure_level c))

abbrev pub yields_at : PressureLevel → TaskClass → Bool
yields_at critical class = true
yields_at high class = not (class_rank class == class_rank TaskClass.seal)
yields_at moderate class = leb (class_rank class) (class_rank TaskClass.index)
yields_at normal class = false

unfoldable pub should_yield : PressureController → TaskClass → Bool
should_yield c class = yields_at (pressure_level c) class
