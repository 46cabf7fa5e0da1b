-- ===== src/Index/Block.antt =====
-- `BlockSummary` of crates/temnion-index/src/lib.rs.
use temnion.Prelude.{
  ℕ, ◌+◌, ◌^◌, Bool, false, not, ◌||◌, ◌==◌, ltb, bit_or, u32_max, Outcome, ok, panic,
  if◌then◌else◌, is_some_and,
}
use temnion.Core.{EntityId, EventTimes, SchemaId, TimeAxis, TimeRange}
use temnion.Events.{HistoryFilter}
use temnion.Index.{
  ZoneMap, TimestampZoneMap, EntityBloomFilter, zone_of, zone_update, zone_contains, entity_lt,
  time_zone_of, time_zone_update, overlaps_range, can_contain_known, empty_bloom, bloom_insert,
  may_contain, SkipDecision, skip, must_scan,
}

pub record BlockSummary : Type 0 where
  pub batch_index : ℕ
  pub record_count : ℕ
  pub byte_offset : ℕ
  pub byte_length : ℕ
  pub sequence_range : ZoneMap ℕ
  pub valid_time_range : TimestampZoneMap
  pub known_time_range : TimestampZoneMap
  pub entity_range : ZoneMap EntityId
  pub entity_bloom : EntityBloomFilter
  pub schema_mask : ℕ

abbrev pub schema_bit : SchemaId → ℕ
schema_bit schema = if ltb schema 64 then 2 ^ schema else 0

-- `BlockSummary::new`
unfoldable pub new : ℕ → ℕ → ℕ → ℕ → EntityId → SchemaId → EventTimes → BlockSummary
new batch_index byte_offset byte_length seq entity schema times = record {
  batch_index = batch_index;
  record_count = 1;
  byte_offset = byte_offset;
  byte_length = byte_length;
  sequence_range = zone_of ltb seq;
  valid_time_range = time_zone_of times.valid;
  known_time_range = time_zone_of times.known;
  entity_range = zone_of entity_lt entity;
  entity_bloom = bloom_insert entity empty_bloom;
  schema_mask = schema_bit schema;
}

-- `BlockSummary::update`; a `u32` that overflows panics.
unfoldable pub update :
    {E : Type 0} → ℕ → EntityId → SchemaId → EventTimes → BlockSummary → Outcome E BlockSummary
update seq entity schema times s =
    if s.record_count == u32_max
    then panic
    else ok (record s {
      record_count = s.record_count + 1;
      sequence_range = zone_update ltb seq s.sequence_range;
      valid_time_range = time_zone_update times.valid s.valid_time_range;
      known_time_range = time_zone_update times.known s.known_time_range;
      entity_range = zone_update entity_lt entity s.entity_range;
      entity_bloom = bloom_insert entity s.entity_bloom;
      schema_mask = if ltb schema 64 then bit_or 64 s.schema_mask (2 ^ schema) else s.schema_mask;
    })

-- The tests of the time axis, which the summaries of blocks and of segments share. Observed times
-- may be missing, so that they exclude nothing.
abbrev pub axis_excludes : TimestampZoneMap → TimestampZoneMap → TimeAxis × TimeRange → Bool
axis_excludes valid known (TimeAxis.valid, range) = not (overlaps_range valid range)
axis_excludes valid known (TimeAxis.known, range) = not (overlaps_range known range)
axis_excludes valid known (TimeAxis.observed, range) = false

unfoldable pub matches_filter : HistoryFilter → BlockSummary → SkipDecision
matches_filter filter s =
    if is_some_and filter.entity (λ e. not (zone_contains entity_lt s.entity_range e))
    then skip
    else if is_some_and filter.entity (λ e. not (may_contain s.entity_bloom e))
    then skip
    else if is_some_and filter.known_as_of
        (λ cutoff. not (can_contain_known s.known_time_range cutoff))
    then skip
    else if is_some_and filter.time (axis_excludes s.valid_time_range s.known_time_range)
    then skip
    else must_scan

unfoldable pub matches_sequence_range : ℕ → ℕ → BlockSummary → SkipDecision
matches_sequence_range start end s =
    if ltb end s.sequence_range.min || ltb s.sequence_range.max start then skip else must_scan
