-- ===== src/Core.antt =====
-- crates/temnion-core/src/lib.rs: identities, timestamps and clock-scoped ranges.
-- A newtype of a number is that number; a `derive`d equality is a Boolean test.
pub mod Laws
mod Tests
use temnion.Prelude.{
  ℕ, List, Bool, true, false, ◌&&◌, ◌||◌, ◌==◌, leb, ltb, if◌then◌else◌, Option, some, Outcome, ok,
  err,
}

abbrev pub ShardId : Type 0
ShardId = ℕ

abbrev pub SourceId : Type 0
SourceId = ℕ

abbrev pub SourceEpoch : Type 0
SourceEpoch = ℕ

-- `DatabaseId` wraps an array of 16 bytes.
abbrev pub DatabaseId : Type 0
DatabaseId = List ℕ

abbrev pub SchemaId : Type 0
SchemaId = ℕ

abbrev pub ClockId : Type 0
ClockId = ℕ

pub record EntityId : Type 0 where
  pub shard : ShardId
  pub slot : ℕ
  pub generation : ℕ

abbrev pub entity_eq : EntityId → EntityId → Bool
entity_eq a b = a.shard == b.shard && (a.slot == b.slot && a.generation == b.generation)

pub record EventId : Type 0 where
  pub source : SourceId
  pub epoch : SourceEpoch
  pub sequence : ℕ

abbrev pub event_eq : EventId → EventId → Bool
event_eq a b = a.source == b.source && (a.epoch == b.epoch && a.sequence == b.sequence)

-- The derived order: source, then epoch, then sequence number.
abbrev pub event_lt : EventId → EventId → Bool
event_lt a b =
    ltb a.source b.source
    || (a.source == b.source
        && (ltb a.epoch b.epoch || (a.epoch == b.epoch && ltb a.sequence b.sequence)))

pub record Timestamp : Type 0 where
  pub clock : ClockId
  pub ticks : ℕ

abbrev pub timestamp_eq : Timestamp → Timestamp → Bool
timestamp_eq a b = a.clock == b.clock && a.ticks == b.ticks

pub record EventTimes : Type 0 where
  pub valid : Timestamp
  pub observed : Option Timestamp
  pub known : Timestamp

pub data TimeAxis : Type 0 where
  valid observed known : TimeAxis

-- `EventTimes::on`
unfoldable pub on : EventTimes → TimeAxis → Option Timestamp
on t TimeAxis.valid = some t.valid
on t TimeAxis.observed = t.observed
on t TimeAxis.known = some t.known

pub record TimeRange : Type 0 where
  pub clock : ClockId
  pub start : ℕ
  pub end : ℕ

pub record InvalidTimeRange : Type 0 where
  pub start : ℕ
  pub end : ℕ

-- `TimeRange::new`
unfoldable pub new : ClockId → ℕ → ℕ → Outcome InvalidTimeRange TimeRange
new clock start end =
    if ltb end start
    then err (record { start = start; end = end })
    else ok (record { clock = clock; start = start; end = end })

abbrev pub axis_eq : TimeAxis → TimeAxis → Bool
axis_eq TimeAxis.valid TimeAxis.valid = true
axis_eq TimeAxis.observed TimeAxis.observed = true
axis_eq TimeAxis.known TimeAxis.known = true
axis_eq _ _ = false

abbrev pub range_eq : TimeRange → TimeRange → Bool
range_eq a b = a.clock == b.clock && (a.start == b.start && a.end == b.end)

-- `TimeRange::contains`
unfoldable pub contains : TimeRange → Timestamp → Bool
contains r t = t.clock == r.clock && (leb r.start t.ticks && ltb t.ticks r.end)
