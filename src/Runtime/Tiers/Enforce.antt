-- ===== src/Runtime/Tiers/Enforce.antt =====
-- `enforce_capacity`, `record_access` and `migrate` of crates/temnion-runtime/src/lib.rs leave both
-- tiers within their capacities.
use temnion.Prelude.{
  ℕ, ◌+◌, ◌≡◌, ◌≢◌, ◌≤◌, refl, ap, sym, ◌∙◌, some, some-injective, true, inl, inr, Bool-cases,
  ==_iff, ne→==, cond_false, ok, bind-ok, asks, ok_or, u64_max, Map, map_get, map_update,
  map_update-IsMap, map_values, map_get-map_update_self, map_get-map_update_ne, length, arith, ◌==◌,
}
use temnion.Runtime.{segment_not_found}
use temnion.Runtime.Tiers.{
  StorageTier, hot_dram, warm_mapped, cold_media, tier_rank, tier_eq, TieredSegment,
  TieredStorageManager, with_tier, demote, enforce_capacity, accessed, next_step, record_access,
}
use temnion.Runtime.Tiers.Sums.{
  bytes_in, all_bytes, total_bytes_in_tier-bytes_in, all_bytes-map_update, Within,
}
use temnion.Runtime.Tiers.Capacity.{IsSegments, Demoted, demote_from_lem, count_in-le_length}

-- What `enforce_capacity` leaves of a manager: the same segments, none in a higher tier than
-- before, with both tiers within their capacities.
pub record Enforced (m m' : TieredStorageManager) : Type 0 where
  pub valid : IsSegments m'.segments
  pub hot : Within hot_dram m.hot_capacity_bytes m'.segments
  pub warm : Within warm_mapped m.warm_capacity_bytes m'.segments
  pub hot_capacity : m'.hot_capacity_bytes ≡ m.hot_capacity_bytes
  pub warm_capacity : m'.warm_capacity_bytes ≡ m.warm_capacity_bytes
  pub kept :
      (k : ℕ) (s : TieredSegment)
      → map_get k m.segments ≡ some s
      → (tier : StorageTier) × (tier_rank tier ≤ tier_rank s.tier)
        × (map_get k m'.segments ≡ some (with_tier tier s))

rank_of : (a b : StorageTier) → tier_eq a b ≡ true → tier_rank a ≡ tier_rank b
rank_of a b h = (==_iff (tier_rank a) (tier_rank b)).0 h

-- A segment through the two loops.
kept_twice :
    (hot warm : ℕ) (m n o : Map TieredSegment)
    → Demoted hot_dram warm_mapped hot m n
    → Demoted warm_mapped cold_media warm n o
    → (k : ℕ) (s : TieredSegment) → map_get k m ≡ some s
    → (tier : StorageTier) × (tier_rank tier ≤ tier_rank s.tier)
      × (map_get k o ≡ some (with_tier tier s))
kept_twice hot warm m n o first second k s e = elim (first.kept k s e) [
  | inl stays ↦ elim (second.kept k s stays) [
    | inl again ↦ (s.tier, omega arith, again)
    | inr (_, cold) ↦ (cold_media, omega arith, cold)
  ]
  | inr (inside, moved) ↦ elim (second.kept k (with_tier warm_mapped s) moved) [
    | inl again ↦ (warm_mapped, omega (arith, rank_of s.tier hot_dram inside), again)
    | inr (_, cold) ↦ (cold_media, omega arith, cold)
  ]
]

-- On a manager whose segments stand under their identities and whose sizes sum to no more than the
-- largest 64-bit `usize`, `enforce_capacity` returns, its loops having ended: it loses no segment and
-- promotes none, and the bytes in the hot and in the warm tier are then within the capacities.
pub enforce_capacity_lem :
    (m : TieredStorageManager)
    → IsSegments m.segments
    → all_bytes (map_values m.segments) ≤ u64_max
    → (m' : TieredStorageManager) × (enforce_capacity m ≡ (ok tt, m')) × Enforced m m'
unfolding enforce_capacity
enforce_capacity_lem m h small =
    let (n, first, d) =
      demote_from_lem (length m.segments) hot_dram warm_mapped m.hot_capacity_bytes m.segments refl
        h small (count_in-le_length hot_dram m.segments) in
    let (o, second, e) =
      demote_from_lem (length n) warm_mapped cold_media m.warm_capacity_bytes n refl d.valid
        (omega (arith, small, d.sizes)) (count_in-le_length warm_mapped n) in
    let small_after : all_bytes (map_values o) ≤ u64_max = omega (arith, small, d.sizes, e.sizes) in
    let m1 : TieredStorageManager = record m { segments = n } in
    (
      record m { segments = o },
      bind-ok
            (asks (λ (m : TieredStorageManager).
              demote hot_dram warm_mapped m.hot_capacity_bytes m.segments))
            _ (λ i. (first i, m))
          ∙ bind-ok
              (asks (λ (m : TieredStorageManager).
                demote warm_mapped cold_media m.warm_capacity_bytes m.segments))
              _ (λ i. (second i, m1)),
      record {
        valid = e.valid;
        hot = (
          bytes_in hot_dram (map_values o),
          total_bytes_in_tier-bytes_in hot_dram o small_after,
          omega (arith, d.within, e.others hot_dram refl refl),
        );
        warm = (
          bytes_in warm_mapped (map_values o),
          total_bytes_in_tier-bytes_in warm_mapped o small_after,
          e.within,
        );
        hot_capacity = refl;
        warm_capacity = refl;
        kept = kept_twice m.hot_capacity_bytes m.warm_capacity_bytes m.segments n o d e;
      },
    )

-- A write to one segment that keeps its identity.
update-IsSegments :
    (k : ℕ) (f : TieredSegment → TieredSegment) (m : Map TieredSegment)
    → ((s : TieredSegment) → (f s).segment_id ≡ s.segment_id)
    → IsSegments m
    → {s : TieredSegment} → map_get k m ≡ some s
    → IsSegments (map_update k f m)
update-IsSegments k f m same_id h {s} e = record {
  keys = map_update-IsMap k f m h.keys;
  own = λ j t got. elim (Bool-cases (j == k)) [
    | inl here ↦
        let at = (==_iff j k).0 here in
        let same : f s ≡ t = some-injective _ _ (
          sym (map_get-map_update_self k f m e)
          ∙ ap (λ j. map_get j (map_update k f m)) (sym at)
          ∙ got) in
        ap (λ t. t.segment_id) (sym same) ∙ same_id s ∙ h.own k s e ∙ sym at
    | inr other ↦
        h.own j t (sym (map_get-map_update_ne j k f m (λ e. ground (arith, other, e))) ∙ got)
  ];
}

accessed-segment_id : (step : ℕ) (s : TieredSegment) → (accessed step s).segment_id ≡ s.segment_id
accessed-segment_id step s = ground arith

accessed-byte_size : (step : ℕ) (s : TieredSegment) → (accessed step s).byte_size ≡ s.byte_size
accessed-byte_size step s = ground arith

-- A known segment is accessed, on a manager whose segments stand under their identities and whose
-- sizes and step counter do not overflow: `record_access` returns, and leaves both tiers within
-- their capacities.
pub record_access_lem :
    (m : TieredStorageManager) (k : ℕ) (s : TieredSegment)
    → IsSegments m.segments
    → all_bytes (map_values m.segments) ≤ u64_max
    → m.current_step ≢ u64_max
    → map_get k m.segments ≡ some s
    → (m' : TieredStorageManager) × (record_access k m
        ≡ (ok (accessed (m.current_step + 1) s).tier, m'))
      × Enforced
          (record m {
            current_step = m.current_step + 1;
            segments = map_update k (accessed (m.current_step + 1)) m.segments;
          })
          m'
unfolding record_access next_step
record_access_lem m k s h sizes small e =
    let step = m.current_step + 1 in
    let m1 : TieredStorageManager = record m { current_step = step } in
    let m2 : TieredStorageManager = record m1 {
      segments = map_update k (accessed step) m.segments;
    } in
    let (m', runs, enforced) =
      enforce_capacity_lem m2
        (update-IsSegments k (accessed step) m.segments (accessed-segment_id step) h e)
        (omega (
          arith,
          sizes,
          all_bytes-map_update k (accessed step) m.segments (accessed-byte_size step),
        )) in
    (
      m',
      bind-ok next_step _ (cond_false _ _ (ne→== m.current_step u64_max small))
          ∙ bind-ok
              (asks
                (λ (m : TieredStorageManager). ok_or (map_get k m.segments) (segment_not_found k)))
              _ (λ i. (ok_or (e i) (segment_not_found k), m1))
          ∙ bind-ok enforce_capacity _ runs,
      enforced,
    )
