-- ===== src/Runtime/Tiers.antt =====
-- `TieredStorageManager` of crates/temnion-runtime/src/lib.rs. A `usize` has 64 bits.
use temnion.Prelude.{
  ℕ, zero, suc, ◌+◌, List, [], ◌∷◌, Option, none, some, Bool, true, false, ◌&&◌, ltb, leb, ◌==◌,
  Outcome, ok, err, panic, and_then, expect, checked_add, ok_or, Exec, pure, fail, asks, modify,
  ◌>>=◌, ◌>>◌, length, u64_max, if◌then◌else◌, Map, map_get, map_insert, map_update, map_values,
}
use temnion.Runtime.{RuntimeError, segment_not_found}
pub mod Sums
pub mod Oldest
pub mod Capacity
pub mod Enforce
mod Tests

pub data StorageTier : Type 0 where
  hot_dram warm_mapped cold_media : StorageTier

abbrev pub tier_rank : StorageTier → ℕ
tier_rank hot_dram = 2
tier_rank warm_mapped = 1
tier_rank cold_media = 0

abbrev pub tier_eq : StorageTier → StorageTier → Bool
tier_eq a b = tier_rank a == tier_rank b

pub record TieredSegment : Type 0 where
  pub segment_id : ℕ
  pub byte_size : ℕ
  pub tier : StorageTier
  pub access_count : ℕ
  pub last_access_step : ℕ

pub record TieredStorageManager : Type 0 where
  pub hot_capacity_bytes : ℕ
  pub warm_capacity_bytes : ℕ
  pub current_step : ℕ
  pub segments : Map TieredSegment

abbrev pub new : ℕ → ℕ → TieredStorageManager
new hot warm = record {
  hot_capacity_bytes = hot;
  warm_capacity_bytes = warm;
  current_step = 0;
  segments = [];
}

unfoldable pub register_segment : ℕ → ℕ → StorageTier → TieredStorageManager → TieredStorageManager
register_segment segment_id byte_size initial_tier m =
    let segment : TieredSegment = record {
      segment_id = segment_id;
      byte_size = byte_size;
      tier = initial_tier;
      access_count = 0;
      last_access_step = m.current_step;
    } in
    record m { segments = map_insert segment_id segment m.segments }

unfoldable pub tier_of : TieredStorageManager → ℕ → Option StorageTier
tier_of m id = elim (map_get id m.segments) [ none ↦ none | some s ↦ some s.tier ]

-- `sum()` of the sizes in a tier, which panics past the largest `usize`.
unfoldable pub sum_from : StorageTier → ℕ → List TieredSegment → Outcome RuntimeError ℕ
sum_from tier total [] = ok total
sum_from tier total (s ∷ segments) = elim (tier_eq s.tier tier) [
  | false ↦ sum_from tier total segments
  | true ↦ and_then (expect (checked_add total s.byte_size)) (λ total. sum_from tier total segments)
]

-- Of the manager it reads the segments only.
abbrev pub total_bytes_in_tier : StorageTier → Map TieredSegment → Outcome RuntimeError ℕ
total_bytes_in_tier tier segments = sum_from tier 0 (map_values segments)

-- `min_by_key` takes the first of equal keys.
abbrev pub older : TieredSegment → Option TieredSegment → TieredSegment
older s none = s
older s (some best) = if ltb best.last_access_step s.last_access_step then best else s

-- The segment of a tier that was not accessed for longest.
unfoldable pub least_recent : StorageTier → List TieredSegment → Option TieredSegment
least_recent tier [] = none
least_recent tier (s ∷ segments) =
    let rest = least_recent tier segments in
    if tier_eq s.tier tier then some (older s rest) else rest

abbrev pub with_tier : StorageTier → TieredSegment → TieredSegment
with_tier tier s = record s { tier = tier }

-- The loop that moves segments from one tier to the next until the first is within its capacity.
-- Each turn moves one, so that the number of segments is turns enough.
unfoldable pub demote_from :
    ℕ → StorageTier → StorageTier → ℕ → Map TieredSegment → Outcome RuntimeError (Map TieredSegment)
demote_from zero tier next capacity segments = ok segments
demote_from (suc turns) tier next capacity segments =
    and_then (total_bytes_in_tier tier segments) (λ total. elim (ltb capacity total) [
      | false ↦ ok segments
      | true ↦ elim (least_recent tier (map_values segments)) [
        | none ↦ ok segments
        | some s ↦ and_then (expect (map_get s.segment_id segments)) (λ _.
            demote_from turns tier next capacity
              (map_update s.segment_id (with_tier next) segments))
      ]
    ])

-- One of the two loops of `enforce_capacity`.
abbrev pub demote :
    StorageTier → StorageTier → ℕ → Map TieredSegment → Outcome RuntimeError (Map TieredSegment)
demote tier next capacity segments = demote_from (length segments) tier next capacity segments

unfoldable pub enforce_capacity : Exec TieredStorageManager RuntimeError (Unit {0})
enforce_capacity = do
  segments ← asks (λ m. demote hot_dram warm_mapped m.hot_capacity_bytes m.segments)
  _ ← modify (λ m. record m { segments = segments })
  segments ← asks (λ m. demote warm_mapped cold_media m.warm_capacity_bytes m.segments)
  modify (λ m. record m { segments = segments })

-- What an access does to the segment, which moves from cold to warm with the second one.
abbrev pub accessed : ℕ → TieredSegment → TieredSegment
accessed step s =
    let s = record s { access_count = s.access_count + 1; last_access_step = step } in
    if tier_eq s.tier cold_media && leb 2 s.access_count then record s { tier = warm_mapped } else s

-- The next step; a `u64` that overflows panics.
unfoldable pub next_step : Exec TieredStorageManager RuntimeError ℕ
next_step m =
    if m.current_step == u64_max
    then (panic, m)
    else (ok (m.current_step + 1), record m { current_step = m.current_step + 1 })

-- The access counter stays below the step counter, which was incremented first.
unfoldable pub record_access : ℕ → Exec TieredStorageManager RuntimeError StorageTier
record_access segment_id = do
  step ← next_step
  s ← asks (λ m. ok_or (map_get segment_id m.segments) (segment_not_found segment_id))
  _ ← modify (λ m. record m { segments = map_update segment_id (accessed step) m.segments })
  _ ← enforce_capacity
  pure (accessed step s).tier

unfoldable pub migrate : ℕ → StorageTier → Exec TieredStorageManager RuntimeError (Unit {0})
migrate segment_id target = do
  _ ← asks (λ m. ok_or (map_get segment_id m.segments) (segment_not_found segment_id))
  _ ← modify (λ m. record m { segments = map_update segment_id (with_tier target) m.segments })
  enforce_capacity
