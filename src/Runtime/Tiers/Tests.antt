-- ===== src/Runtime/Tiers/Tests.antt =====
-- The storage tiers of crates/temnion-runtime/src/lib.rs at concrete inputs.
use temnion.Prelude.{
  ◌≡◌, ◌≤◌, refl, some, ok, panic, u64_max, map_values, map_get, map_insert, map_update, arith,
}
use temnion.Runtime.Tiers.{
  hot_dram, warm_mapped, cold_media, TieredStorageManager, new, register_segment, tier_of, sum_from,
  least_recent, demote_from, enforce_capacity, next_step, record_access,
}
use temnion.Runtime.Tiers.Sums.{all_bytes}
use temnion.Runtime.Tiers.Capacity.{IsSegments}
use temnion.Runtime.Tiers.Enforce.{Enforced, enforce_capacity_lem}

-- Two hot segments of 60 bytes in 100, and one warm of 50.
abbrev crowded : TieredStorageManager
unfolding register_segment map_insert
crowded =
    register_segment 3 50 warm_mapped
      (register_segment 2 60 hot_dram (register_segment 1 60 hot_dram (new 100 100)))

crowded-IsSegments : IsSegments crowded.segments
unfolding crowded register_segment map_insert map_get
crowded-IsSegments = record {
  keys = ((omega arith, (omega arith, tt)), ((omega arith, tt), (tt, tt)));
  own = λ k s e. ground (arith, e);
}

crowded-Small : all_bytes (map_values crowded.segments) ≤ u64_max
unfolding crowded register_segment map_insert
crowded-Small = omega arith

enforce_capacity_lem_example :
    (m' : TieredStorageManager) × (enforce_capacity crowded ≡ (ok tt, m')) × Enforced crowded m'
enforce_capacity_lem_example = enforce_capacity_lem crowded crowded-IsSegments crowded-Small

-- The older of the two hot segments goes to the warm tier, and from there, with the first one in the
-- order of the identities among equally old ones, to the cold one.
demoted :
    (tier_of (enforce_capacity crowded).1 1 ≡ some cold_media)
    × (tier_of (enforce_capacity crowded).1 2 ≡ some hot_dram)
    × (tier_of (enforce_capacity crowded).1 3 ≡ some warm_mapped)
unfolding crowded register_segment map_insert enforce_capacity demote_from sum_from least_recent
    map_get map_update tier_of
demoted = (refl, refl, refl)

-- A segment larger than the warm tier: the second access promotes it, the capacity demotes it again,
-- and the call answers with the tier in between.
abbrev large : TieredStorageManager
unfolding register_segment map_insert record_access next_step enforce_capacity demote_from sum_from
    least_recent map_get map_update
large = (record_access 1 (register_segment 1 500 cold_media (new 100 100))).1

stale_answer :
    ((record_access 1 large).0 ≡ ok warm_mapped)
    × (tier_of (record_access 1 large).1 1 ≡ some cold_media)
unfolding large register_segment map_insert record_access next_step enforce_capacity demote_from
    sum_from least_recent map_get map_update tier_of
stale_answer = (refl, refl)

-- Two hot segments of half the range of a `usize`: their sum overflows.
abbrev huge : TieredStorageManager
unfolding register_segment map_insert
huge =
    register_segment 2 9223372036854775808 hot_dram
      (register_segment 1 9223372036854775808 hot_dram (new 100 100))

huge_overflows : (enforce_capacity huge).0 ≡ panic
unfolding huge register_segment map_insert enforce_capacity demote_from sum_from least_recent
    map_get map_update
huge_overflows = refl
