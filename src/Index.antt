-- ===== src/Index.antt =====
-- crates/temnion-index/src/lib.rs: zone maps, Bloom filters and the decision to skip a block.
-- The arithmetic of a zone map takes the order of its values as an argument.
use temnion.Prelude.{
  ℕ, zero, suc, ◌+◌, ◌*◌, ◌/◌, ◌%◌, ◌^◌, List, [], ◌∷◌, Option, none, some, Bool, true, false, not,
  ◌&&◌, ◌||◌, ◌==◌, ltb, leb, get_elem?, set, bit_xor, bit_or, as_u64, shift_right, if◌then◌else◌,
}
use temnion.Core.{ClockId, EntityId, Timestamp, TimeRange}
pub mod Block
pub mod Segment
pub mod Morton
pub mod Volume
pub mod Codes
pub mod Intervals
pub mod Zones
pub mod Bloom
pub mod Sound
mod Tests

pub record ZoneMap {ℓ} (T : Type ℓ) : Type ℓ where
  pub min : T
  pub max : T

-- `ZoneMap` of values under the strict order `lt`.
module _ {ℓ} {T : Type ℓ} (lt : T → T → Bool) where
  abbrev pub zone_of : T → ZoneMap T
  zone_of val = record { min = val; max = val }

  abbrev pub zone_update : T → ZoneMap T → ZoneMap T
  zone_update val zone = record {
    min = if lt val zone.min then val else zone.min;
    max = if lt zone.max val then val else zone.max;
  }

  abbrev pub zone_contains : ZoneMap T → T → Bool
  zone_contains zone val = not (lt val zone.min) && not (lt zone.max val)

-- The derived order of entities: shard, then slot, then generation.
unfoldable pub entity_lt : EntityId → EntityId → Bool
entity_lt a b =
    ltb a.shard b.shard
    || (a.shard == b.shard
        && (ltb a.slot b.slot || (a.slot == b.slot && ltb a.generation b.generation)))

pub record TimestampZoneMap : Type 0 where
  pub clock : ClockId
  pub min_ticks : ℕ
  pub max_ticks : ℕ

abbrev pub time_zone_of : Timestamp → TimestampZoneMap
time_zone_of ts = record { clock = ts.clock; min_ticks = ts.ticks; max_ticks = ts.ticks }

-- A timestamp of another clock changes nothing.
unfoldable pub time_zone_update : Timestamp → TimestampZoneMap → TimestampZoneMap
time_zone_update ts zone =
    if ts.clock == zone.clock
    then record zone {
      min_ticks = if ltb ts.ticks zone.min_ticks then ts.ticks else zone.min_ticks;
      max_ticks = if ltb zone.max_ticks ts.ticks then ts.ticks else zone.max_ticks;
    }
    else zone

unfoldable pub overlaps_range : TimestampZoneMap → TimeRange → Bool
overlaps_range zone range =
    if not (zone.clock == range.clock)
    then true
    else ltb zone.min_ticks range.end && leb range.start zone.max_ticks

unfoldable pub can_contain_known : TimestampZoneMap → Timestamp → Bool
can_contain_known zone cutoff =
    if not (zone.clock == cutoff.clock) then true else leb zone.min_ticks cutoff.ticks

-- The bits of a Bloom filter, 64 bytes.
pub record EntityBloomFilter : Type 0 where
  pub bits : List ℕ

abbrev pub zero_bytes : ℕ → List ℕ
zero_bytes zero = []
zero_bytes (suc n) = 0 ∷ zero_bytes n

abbrev pub empty_bloom : EntityBloomFilter
empty_bloom = record { bits = zero_bytes 64 }

abbrev wrapping_mul : ℕ → ℕ → ℕ
wrapping_mul a b = as_u64 (a * b)

-- `EntityBloomFilter::hash_entity`
unfoldable pub hash_entity : EntityId → ℕ → ℕ
hash_entity entity seed =
    let start = as_u64 (seed + 0x9e3779b97f4a7c15) in
    let placed = bit_xor 64 start (bit_or 64 (entity.shard * 2 ^ 32) entity.slot) in
    let mixed = wrapping_mul placed 0xbf58476d1ce4e5b9 in
    let folded = bit_xor 64 mixed (shift_right mixed 30) in
    let aged = bit_xor 64 folded (wrapping_mul entity.generation 0x94d049bb133111eb) in
    let again = wrapping_mul aged 0xbf58476d1ce4e5b9 in
    bit_xor 64 again (shift_right again 32) % 512

abbrev pub seeds : List ℕ
seeds = 0x517cc1b727220a95 ∷ 0x6e3a39e7b401e62a ∷ 0x9b6b79f324e93081 ∷ 0xc6a4a7935bd1e995 ∷ []

-- Bit `k` of a byte: `byte & (1 << k)` is 0 exactly where it is.
unfoldable pub bit_at : ℕ → ℕ → ℕ
bit_at zero byte = byte % 2
bit_at (suc k) byte = bit_at k (byte / 2)

abbrev pub byte_or_zero : Option ℕ → ℕ
byte_or_zero none = 0
byte_or_zero (some byte) = byte

-- `bits[idx / 8] |= 1 << (idx % 8)`; the index of a hash is within the 64 bytes.
unfoldable pub set_bit : ℕ → List ℕ → List ℕ
set_bit idx bits =
    set bits (idx / 8) (bit_or 8 (byte_or_zero (get_elem? bits (idx / 8))) (2 ^ (idx % 8)))

unfoldable pub test_bit : ℕ → List ℕ → Bool
test_bit idx bits = not (bit_at (idx % 8) (byte_or_zero (get_elem? bits (idx / 8))) == 0)

unfoldable pub insert_at : EntityId → List ℕ → List ℕ → List ℕ
insert_at entity [] bits = bits
insert_at entity (seed ∷ seeds) bits =
    insert_at entity seeds (set_bit (hash_entity entity seed) bits)

unfoldable pub all_set : EntityId → List ℕ → List ℕ → Bool
all_set entity [] bits = true
all_set entity (seed ∷ seeds) bits =
    test_bit (hash_entity entity seed) bits && all_set entity seeds bits

abbrev pub bloom_insert : EntityId → EntityBloomFilter → EntityBloomFilter
bloom_insert entity bloom = record { bits = insert_at entity seeds bloom.bits }

abbrev pub may_contain : EntityBloomFilter → EntityId → Bool
may_contain bloom entity = all_set entity seeds bloom.bits

pub data SkipDecision : Type 0 where
  skip must_scan : SkipDecision
