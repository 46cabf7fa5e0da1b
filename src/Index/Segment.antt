-- ===== src/Index/Segment.antt =====
-- `SegmentSummary` of crates/temnion-index/src/lib.rs.
use temnion.Prelude.{ℕ, ◌+◌, List, [], ◌∷◌, not, ltb, Outcome, ok, err, if◌then◌else◌, is_some_and}
use temnion.Core.{DatabaseId, EntityId, SourceEpoch, SourceId}
use temnion.Events.{HistoryFilter}
use temnion.Index.{
  ZoneMap, TimestampZoneMap, zone_update, zone_contains, entity_lt, time_zone_update,
  can_contain_known, SkipDecision, skip, must_scan,
}
use temnion.Index.Block.{BlockSummary, axis_excludes}

-- The texts that `Format` carries.
pub data Malformed : Type 0 where
  no_blocks short_header truncated_blocks zero_chunk : Malformed

pub data IndexError : Type 0 where
  format : Malformed → IndexError
  checksum_mismatch : IndexError
  invalid_magic : IndexError
  unsupported_version : ℕ → IndexError

pub record SegmentSummary : Type 0 where
  pub database : DatabaseId
  pub source : SourceId
  pub epoch : SourceEpoch
  pub sequence_range : ZoneMap ℕ
  pub valid_time_range : TimestampZoneMap
  pub known_time_range : TimestampZoneMap
  pub entity_range : ZoneMap EntityId
  pub total_records : ℕ
  pub blocks : List BlockSummary

-- Both ends of a zone map of times, as timestamps of its clock.
abbrev pub both_ends : TimestampZoneMap → TimestampZoneMap → TimestampZoneMap
both_ends block zone =
    time_zone_update (record { clock = block.clock; ticks = block.max_ticks })
      (time_zone_update (record { clock = block.clock; ticks = block.min_ticks }) zone)

-- One turn of the loop over the blocks; the sum of the record counts stays a `u64`.
abbrev pub add_block : BlockSummary → SegmentSummary → SegmentSummary
add_block block s = record s {
  sequence_range =
      zone_update ltb block.sequence_range.max
        (zone_update ltb block.sequence_range.min s.sequence_range);
  valid_time_range = both_ends block.valid_time_range s.valid_time_range;
  known_time_range = both_ends block.known_time_range s.known_time_range;
  entity_range =
      zone_update entity_lt block.entity_range.max
        (zone_update entity_lt block.entity_range.min s.entity_range);
  total_records = s.total_records + block.record_count;
}

unfoldable pub add_blocks : List BlockSummary → SegmentSummary → SegmentSummary
add_blocks [] s = s
add_blocks (block ∷ blocks) s = add_blocks blocks (add_block block s)

-- `SegmentSummary::new`
unfoldable pub new :
    DatabaseId → SourceId → SourceEpoch → List BlockSummary → Outcome IndexError SegmentSummary
new database source epoch [] = err (format no_blocks)
new database source epoch (first ∷ blocks) = ok (
    add_blocks (first ∷ blocks) (record {
      database = database;
      source = source;
      epoch = epoch;
      sequence_range = first.sequence_range;
      valid_time_range = first.valid_time_range;
      known_time_range = first.known_time_range;
      entity_range = first.entity_range;
      total_records = 0;
      blocks = first ∷ blocks;
    }))

unfoldable pub matches_filter : HistoryFilter → SegmentSummary → SkipDecision
matches_filter filter s =
    if is_some_and filter.entity (λ e. not (zone_contains entity_lt s.entity_range e))
    then skip
    else if is_some_and filter.known_as_of
        (λ cutoff. not (can_contain_known s.known_time_range cutoff))
    then skip
    else if is_some_and filter.time (axis_excludes s.valid_time_range s.known_time_range)
    then skip
    else must_scan
