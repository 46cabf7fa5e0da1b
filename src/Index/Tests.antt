-- ===== src/Index/Tests.antt =====
-- Block and segment summaries of crates/temnion-index/src/lib.rs at concrete inputs.
use temnion.Prelude.{
  ◌↔◌, ℕ, ◌≡◌, refl, List, [], ◌∷◌, none, some, true, false, ok, err, ap, sym, subst, some≢none,
  some-injective, bit_or, bit_xor, bitwise, shift_left, shift_right,
}
use mathlib.Core.List.{Memᴰ}
use mathlib.Core.List.Memᴰ
use temnion.Core.{TimeAxis, TimeRange, Timestamp, on, contains}
use temnion.Events.{Event, HistoryFilter}
use temnion.Events
use temnion.Index.{
  skip, must_scan, entity_lt, time_zone_update, overlaps_range, hash_entity, set_bit, insert_at,
}
use temnion.Events.History.{matches_iff}
use temnion.Index.Block
use temnion.Index.Block.{BlockSummary, update}
use temnion.Index.Segment
use temnion.Index.Segment.{SegmentSummary, add_blocks, format, no_blocks}
use temnion.Index.Morton.{
  BoundingBox2D, GridChunker2D, morton_intervals_chunked, morton_encode_2d, morton_spread_2d,
  morton_encode_3d, morton_spread_3d, spread_from, bit_and, range, row_codes, all_codes,
  insert_code, sort_codes, dedup_after, dedup, merge_from, merge_consecutive_codes,
}
use temnion.Index.Volume.{
  BoundingBox3D, line_codes, plane_codes, volume_codes, morton_intervals_chunked_3d,
}
use temnion.Index.Intervals.{InSome, Spans, morton_intervals_chunked_iff}
use temnion.Index.Sound.{extend, summarize, skip_sound}

-- An event of a slot, with its valid time.
abbrev event : ℕ → ℕ → ℕ → Event ℕ
event slot clock ticks = record {
  id = record { source = 1; epoch = 0; sequence = slot };
  entity = record { shard = 0; slot = slot; generation = 1 };
  times = record {
    valid = record { clock = clock; ticks = ticks };
    observed = none;
    known = record { clock = 9; ticks = 5 };
  };
  change = 0;
}

abbrev no_schema : Event ℕ → ℕ
no_schema e = 0

abbrev block_or_first : Event ℕ → List (Event ℕ) → BlockSummary
unfolding summarize extend Block.new Block.update time_zone_update entity_lt insert_at set_bit
    hash_entity bit_xor bit_or bitwise
block_or_first first events = elim (summarize no_schema first events) [
  | ok s ↦ s
  | _ ↦ Block.new 0 0 0 0 first.entity 0 first.times
]

-- Valid times from 400 to 600 on a clock.
abbrev on_clock : ℕ → HistoryFilter
on_clock clock = record {
  entity = none;
  time = some (TimeAxis.valid, record { clock = clock; start = 400; end = 600 });
  known_as_of = none;
}

early_written :
    summarize no_schema (event 1 1 10) (event 2 1 20 ∷ [])
    ≡ ok (block_or_first (event 1 1 10) (event 2 1 20 ∷ []))
unfolding block_or_first summarize extend Block.new Block.update time_zone_update entity_lt
    insert_at set_bit hash_entity bit_xor bit_or bitwise
early_written = refl

early_skipped :
    Block.matches_filter (on_clock 1) (block_or_first (event 1 1 10) (event 2 1 20 ∷ [])) ≡ skip
unfolding block_or_first summarize extend Block.new Block.update time_zone_update entity_lt
    insert_at set_bit hash_entity bit_xor bit_or bitwise Block.matches_filter overlaps_range
early_skipped = refl

one_clock :
    (e : Event ℕ)
    → Memᴰ e (event 2 1 20 ∷ [])
    → (event 1 1 10).times.known.clock ≡ e.times.known.clock
one_clock e mem = ap (λ (e : Event ℕ). e.times.known.clock) (sym (Memᴰ.eq_of_singleton mem))

skip_sound_example : temnion.Events.matches (on_clock 1) (event 2 1 20) ≡ false
skip_sound_example =
    skip_sound no_schema (event 1 1 10) (event 2 1 20 ∷ []) (on_clock 1) early_written one_clock
      early_skipped (event 2 1 20) (Memᴰ.tail (Memᴰ.head refl))

-- A second block starts on clock 2 and then has an event on clock 1 at 500, which passes the filter.
-- The summary of the two blocks knows clock 1 from the first block only, and skips them.
abbrev mixed_blocks : List BlockSummary
mixed_blocks =
    block_or_first (event 1 1 10) (event 2 1 20 ∷ [])
    ∷ block_or_first (event 3 2 30) (event 4 1 500 ∷ [])
    ∷ []

passes_late : temnion.Events.matches (on_clock 1) (event 4 1 500) ≡ true
unfolding on contains
passes_late = (matches_iff (on_clock 1) (event 4 1 500)).1 (
  λ id e. absurd (some≢none (sym e)),
  λ cutoff e. absurd (some≢none (sym e)),
  λ r e.
      subst
        (λ (r : TimeAxis × TimeRange).
          (t : Timestamp) × (on (event 4 1 500).times r.0 ≡ some t) × (contains r.1 t ≡ true))
        (some-injective _ _ e) (record { clock = 1; ticks = 500 }, refl, refl),
)

segment_skips_match :
    elim (Segment.new [] 1 0 mixed_blocks) [
      | ok s ↦ Segment.matches_filter (on_clock 1) s
      | _ ↦ must_scan
    ]
    ≡ skip
unfolding block_or_first summarize extend Block.new Block.update time_zone_update entity_lt
    insert_at set_bit hash_entity bit_xor bit_or bitwise Segment.new add_blocks
    Segment.matches_filter overlaps_range
segment_skips_match = refl

no_block : Segment.new [] 1 0 [] ≡ err (format no_blocks)
unfolding Segment.new
no_block = refl

-- A box over the chunks (1, 0), (2, 0), (1, 1) and (2, 1).
abbrev wide_box : BoundingBox2D
wide_box = record { min_x = 10; min_y = 3; max_x = 25; max_y = 19 }

abbrev tens : GridChunker2D
tens = record { chunk_size = 10 }

wide_intervals : morton_intervals_chunked wide_box tens ≡ (1, 1) ∷ (3, 4) ∷ (6, 6) ∷ []
unfolding morton_intervals_chunked range all_codes row_codes insert_code sort_codes dedup_after
    dedup merge_from merge_consecutive_codes morton_encode_2d morton_spread_2d bit_and bit_or
    bitwise shift_left
wide_intervals = refl

morton_intervals_chunked_iff_example : InSome 4 (morton_intervals_chunked wide_box tens) ↔ (
    (cx : ℕ) × (cy : ℕ) × Spans tens 10 25 cx × Spans tens 3 19 cy × (4 ≡ morton_encode_2d cx cy))
morton_intervals_chunked_iff_example = morton_intervals_chunked_iff wide_box tens 4

-- The eight chunks around the origin have the codes from 0 to 7.
abbrev cube : BoundingBox3D
cube = record { min_x = 0; min_y = 0; min_z = 0; max_x = 7; max_y = 7; max_z = 7 }

cube_intervals : morton_intervals_chunked_3d cube (record { chunk_size = 4 }) ≡ (0, 7) ∷ []
unfolding morton_intervals_chunked_3d range volume_codes plane_codes line_codes insert_code
    sort_codes dedup_after dedup merge_from merge_consecutive_codes morton_encode_3d
    morton_spread_3d spread_from bit_and bit_or bitwise shift_left shift_right
cube_intervals = refl
