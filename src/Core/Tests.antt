-- ===== src/Core/Tests.antt =====
-- Runs of temnion-core at concrete inputs.
use temnion.Prelude.{◌≤◌, ◌<◌, ◌≡◌, ◌↔◌, refl, true, err}
use temnion.Core.{Timestamp, TimeRange, new, contains}
use temnion.Core.Laws.{contains_iff}

abbrev range : TimeRange
range = record { clock = 1; start = 10; end = 20 }

abbrev moment : Timestamp
moment = record { clock = 1; ticks = 19 }

new-reversed : new 0 5 4 ≡ err (record { start = 5; end = 4 })
unfolding new
new-reversed = refl

contains_iff_example :
    (contains range moment ≡ true)
    ↔ ((moment.clock ≡ 1) × (10 ≤ moment.ticks) × (moment.ticks < 20))
unfolding new
contains_iff_example = contains_iff 1 10 20 moment {r = range} refl
