-- ===== src/Runtime/Tiers/Sums.antt =====
-- The sizes that `total_bytes_in_tier` of crates/temnion-runtime/src/lib.rs adds up, as numbers
-- without a bound, and when the sum of `usize`s is that number.
use temnion.Prelude.{
  ℕ, ◌+◌, ◌≡◌, ◌≤◌, refl, ap, ◌∙◌, List, [], ◌∷◌, some, ◌==◌, Bool-cases, inl, inr, cond_true,
  cond_false, if◌then◌else◌, ok, and_then, expect, checked_add, u64_max, Map, map_update,
  map_values, arith,
}
use temnion.Runtime.Tiers.{StorageTier, tier_eq, TieredSegment, sum_from, total_bytes_in_tier}

-- The bytes in a tier.
unfoldable pub bytes_in : StorageTier → List TieredSegment → ℕ
bytes_in tier [] = 0
bytes_in tier (s ∷ segments) =
    let rest = bytes_in tier segments in if tier_eq s.tier tier then s.byte_size + rest else rest

-- The bytes of all segments.
abbrev pub all_bytes : List TieredSegment → ℕ
all_bytes [] = 0
all_bytes (s ∷ segments) = s.byte_size + all_bytes segments

bytes_in-le-all_bytes :
    (tier : StorageTier) (segments : List TieredSegment)
    → bytes_in tier segments ≤ all_bytes segments
unfolding bytes_in
bytes_in-le-all_bytes tier [] = omega arith
bytes_in-le-all_bytes tier (s ∷ segments) = ground (arith, bytes_in-le-all_bytes tier segments)

sum_from-bytes_in :
    (tier : StorageTier) (total : ℕ) (segments : List TieredSegment)
    → total + bytes_in tier segments ≤ u64_max
    → sum_from tier total segments ≡ ok (total + bytes_in tier segments)
unfolding sum_from bytes_in
sum_from-bytes_in tier total [] h = ap ok (omega arith)
sum_from-bytes_in tier total (s ∷ segments) h = elim (Bool-cases (tier_eq s.tier tier)) [
  | inr other ↦
      let rest : bytes_in tier (s ∷ segments) ≡ bytes_in tier segments = cond_false _ _ other in
      rw (sum_from, other) (sum_from-bytes_in tier total segments (omega (arith, h, rest)))
  | inl same ↦
      let more : bytes_in tier (s ∷ segments) ≡ s.byte_size + bytes_in tier segments =
        cond_true _ _ same in
      let fits : checked_add total s.byte_size ≡ some (total + s.byte_size) =
        ground (arith, h, more) in
      rw (sum_from, same)
        (ap (λ o. and_then (expect o) (λ total. sum_from tier total segments)) fits
          ∙ sum_from-bytes_in tier (total + s.byte_size) segments (omega (arith, h, more))
          ∙ ap ok (omega arith))
]

-- Where the sizes of all segments sum to a `usize`, so do those in a tier, and the sum does not panic.
pub total_bytes_in_tier-bytes_in :
    (tier : StorageTier) (m : Map TieredSegment)
    → all_bytes (map_values m) ≤ u64_max
    → total_bytes_in_tier tier m ≡ ok (bytes_in tier (map_values m))
total_bytes_in_tier-bytes_in tier m h =
    sum_from-bytes_in tier 0 (map_values m)
      (omega (arith, h, bytes_in-le-all_bytes tier (map_values m)))
    ∙ ap ok (omega arith)

pub all_bytes-map_update :
    (k : ℕ) (f : TieredSegment → TieredSegment) (m : Map TieredSegment)
    → ((s : TieredSegment) → (f s).byte_size ≡ s.byte_size)
    → all_bytes (map_values (map_update k f m)) ≡ all_bytes (map_values m)
unfolding map_update
all_bytes-map_update k f [] same = refl
all_bytes-map_update k f ((j, t) ∷ m) same = elim (Bool-cases (k == j)) [
  | inl here ↦
      ap (λ m. all_bytes (map_values m)) (cond_true _ _ here)
      ∙ ap (λ n. n + all_bytes (map_values m)) (same t)
  | inr later ↦
      ap (λ m. all_bytes (map_values m)) (cond_false _ _ later)
      ∙ ap (λ n. t.byte_size + n) (all_bytes-map_update k f m same)
]

-- The bytes in a tier sum to a `usize` that is within a capacity.
abbrev pub Within : StorageTier → ℕ → Map TieredSegment → Type 0
Within tier capacity m = (total : ℕ) × (total_bytes_in_tier tier m ≡ ok total) × (total ≤ capacity)
