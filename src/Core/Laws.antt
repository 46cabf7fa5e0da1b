-- ===== src/Core/Laws.antt =====
-- What the tests of crates/temnion-core/src/lib.rs decide.
use temnion.Prelude.{ℕ, ◌≤◌, ◌<◌, ◌≡◌, ◌↔◌, true, ok, arith}
use temnion.Core.{EntityId, entity_eq, EventId, event_eq, Timestamp, TimeRange, new, contains}

pub entity_eq_iff : (a b : EntityId) → (entity_eq a b ≡ true) ↔ (a ≡ b)
entity_eq_iff a b = ground arith

pub event_eq_iff : (a b : EventId) → (event_eq a b ≡ true) ↔ (a ≡ b)
event_eq_iff a b = ground arith

-- A range that `TimeRange::new` returns for a clock and bounds contains a timestamp exactly when
-- the timestamp is on that clock and its ticks lie from the start on and before the end.
pub contains_iff :
    (clock start end : ℕ) (t : Timestamp) {r : TimeRange}
    → new clock start end ≡ ok r
    → (contains r t ≡ true) ↔ ((t.clock ≡ clock) × (start ≤ t.ticks) × (t.ticks < end))
unfolding new contains
contains_iff clock start end t h = ground arith
