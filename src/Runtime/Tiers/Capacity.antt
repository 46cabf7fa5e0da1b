-- ===== src/Runtime/Tiers/Capacity.antt =====
-- `enforce_capacity` of crates/temnion-runtime/src/lib.rs: its loops end with both tiers within
-- their capacities.
use temnion.Prelude.{
  ℕ, zero, suc, ◌+◌, ◌≡◌, ◌⊎◌, Option-cases, map_values-map_get, ◌≤◌, refl, ap, sym, ◌∙◌, List, [],
  ◌∷◌, some, some-injective, some≢none, true, false, false≢true, ltb, ◌==◌, ==_iff, Bool-cases, inl,
  inr, not_ltb→le, cond_true, cond_false, ok, length, Map, map_get, map_update, map_values, IsMap,
  and_then, u64_max, map_update-IsMap, map_get-map_update_self, map_get-map_update_ne, arith,
  if◌then◌else◌,
}
use temnion.Runtime.Tiers.{
  StorageTier, tier_eq, TieredSegment, least_recent, with_tier, demote_from,
}
use temnion.Runtime.Tiers.Sums.{
  bytes_in, all_bytes, total_bytes_in_tier-bytes_in, all_bytes-map_update,
}
use temnion.Runtime.Tiers.Oldest.{least_recent-none, least_recent-IsLeastRecent}

-- The number of segments in a tier.
abbrev count_in : StorageTier → List TieredSegment → ℕ
count_in tier [] = 0
count_in tier (s ∷ segments) =
    let rest = count_in tier segments in if tier_eq s.tier tier then suc rest else rest

pub count_in-le_length :
    (tier : StorageTier) (m : Map TieredSegment) → count_in tier (map_values m) ≤ length m
count_in-le_length tier [] = omega arith
count_in-le_length tier ((k, s) ∷ m) = ground (arith, count_in-le_length tier m)

-- The keys are in order, and each is the identity of its segment.
pub record IsSegments (m : Map TieredSegment) : Type 0 where
  pub keys : IsMap m
  pub own : (k : ℕ) (s : TieredSegment) → map_get k m ≡ some s → s.segment_id ≡ k

count_in-none :
    (tier : StorageTier) (segments : List TieredSegment)
    → count_in tier segments ≡ 0
    → bytes_in tier segments ≡ 0
unfolding bytes_in
count_in-none tier [] e = refl
count_in-none tier (s ∷ segments) e = elim (Bool-cases (tier_eq s.tier tier)) [
  | inl same ↦ absurd (omega (arith, sym (cond_true _ _ same) ∙ e))
  | inr other ↦ cond_false _ _ other ∙ count_in-none tier segments (sym (cond_false _ _ other) ∙ e)
]

-- One segment that leaves a tier for the next one.
module _ (tier next : StorageTier) (apart : tier_eq next tier ≡ false) (k : ℕ) where
  count_in-map_update :
      (m : Map TieredSegment) {s : TieredSegment}
      → map_get k m ≡ some s
      → tier_eq s.tier tier ≡ true
      → suc (count_in tier (map_values (map_update k (with_tier next) m)))
        ≡ count_in tier (map_values m)
  unfolding map_get map_update
  count_in-map_update [] e h = absurd (some≢none (sym e))
  count_in-map_update ((j, t) ∷ m) {s} e h = elim (Bool-cases (k == j)) [
    | inl here ↦
        let same : t ≡ s = some-injective t s (sym (cond_true _ _ here) ∙ e) in
        ap (λ m. suc (count_in tier (map_values m))) (cond_true _ _ here)
        ∙ ap suc (cond_false _ _ apart)
        ∙ sym (cond_true _ _ (ap (λ t. tier_eq t.tier tier) same ∙ h))
    | inr later ↦
        let step = count_in-map_update m (sym (cond_false _ _ later) ∙ e) h in
        ap (λ m. suc (count_in tier (map_values m))) (cond_false _ _ later) ∙ ground (arith, step)
  ]

  bytes_in-map_update :
      (other : StorageTier) (m : Map TieredSegment) {s : TieredSegment}
      → map_get k m ≡ some s
      → tier_eq s.tier other ≡ false
      → tier_eq next other ≡ false
      → bytes_in other (map_values (map_update k (with_tier next) m))
        ≡ bytes_in other (map_values m)
  unfolding map_get map_update bytes_in
  bytes_in-map_update other [] e from to = refl
  bytes_in-map_update other ((j, t) ∷ m) {s} e from to = elim (Bool-cases (k == j)) [
    | inl here ↦
        let same : t ≡ s = some-injective t s (sym (cond_true _ _ here) ∙ e) in
        ap (λ m. bytes_in other (map_values m)) (cond_true _ _ here)
        ∙ cond_false _ _ to
        ∙ sym (cond_false _ _ (ap (λ t. tier_eq t.tier other) same ∙ from))
    | inr later ↦
        ap (λ m. bytes_in other (map_values m)) (cond_false _ _ later)
        ∙ ap (λ n. if tier_eq t.tier other then t.byte_size + n else n)
            (bytes_in-map_update other m (sym (cond_false _ _ later) ∙ e) from to)
  ]

  map_update-IsSegments :
      (m : Map TieredSegment) {s : TieredSegment}
      → IsSegments m
      → map_get k m ≡ some s
      → IsSegments (map_update k (with_tier next) m)
  map_update-IsSegments m {s} h e = record {
    keys = map_update-IsMap k (with_tier next) m h.keys;
    own = λ j t got. elim (Bool-cases (j == k)) [
      | inl here ↦
          let at = (==_iff j k).0 here in
          let same : with_tier next s ≡ t = some-injective _ _ (
            sym (map_get-map_update_self k (with_tier next) m e)
            ∙ ap (λ j. map_get j (map_update k (with_tier next) m)) (sym at)
            ∙ got) in
          ap (λ t. t.segment_id) (sym same) ∙ h.own k s e ∙ sym at
      | inr other ↦
          h.own j t (
            sym (map_get-map_update_ne j k (with_tier next) m (λ e. ground (arith, other, e)))
            ∙ got)
    ];
  }

-- What a loop of `enforce_capacity` leaves of the segments `m`: every segment is kept, and at most
-- moved from the one tier to the next; the first is within its capacity.
pub record Demoted (tier next : StorageTier) (capacity : ℕ) (m m' : Map TieredSegment)
    : Type 0 where
  pub valid : IsSegments m'
  pub within : bytes_in tier (map_values m') ≤ capacity
  pub sizes : all_bytes (map_values m') ≡ all_bytes (map_values m)
  pub kept :
      (k : ℕ) (s : TieredSegment)
      → map_get k m ≡ some s
      → (map_get k m' ≡ some s)
        ⊎ ((tier_eq s.tier tier ≡ true) × (map_get k m' ≡ some (with_tier next s)))
  pub others :
      (other : StorageTier)
      → tier_eq tier other ≡ false
      → tier_eq next other ≡ false
      → bytes_in other (map_values m') ≡ bytes_in other (map_values m)

unmoved :
    (tier next : StorageTier) (capacity : ℕ) (m : Map TieredSegment)
    → IsSegments m
    → bytes_in tier (map_values m) ≤ capacity
    → Demoted tier next capacity m m
unmoved tier next capacity m h le = record {
  valid = h;
  within = le;
  sizes = refl;
  kept = λ k s e. inl e;
  others = λ other a b. refl;
}

-- A segment of the tier moved first, and then the rest of the loop.
moved :
    (tier next : StorageTier) (capacity : ℕ) (m m' : Map TieredSegment) (j : ℕ) (t : TieredSegment)
    → tier_eq next tier ≡ false
    → map_get j m ≡ some t
    → tier_eq t.tier tier ≡ true
    → Demoted tier next capacity (map_update j (with_tier next) m) m'
    → Demoted tier next capacity m m'
moved tier next capacity m m' j t apart e h d = record {
  valid = d.valid;
  within = d.within;
  sizes = d.sizes ∙ all_bytes-map_update j (with_tier next) m (λ s. refl);
  kept = λ k s got. elim (Bool-cases (k == j)) [
    | inl here ↦
        let at = (==_iff k j).0 here in
        let same : t ≡ s = some-injective _ _ (sym e ∙ ap (λ k. map_get k m) (sym at) ∙ got) in
        let after : map_get k (map_update j (with_tier next) m) ≡ some (with_tier next s) =
          ap (λ k. map_get k (map_update j (with_tier next) m)) at
          ∙ map_get-map_update_self j (with_tier next) m e
          ∙ ap (λ s. some (with_tier next s)) same in
        let inside : tier_eq s.tier tier ≡ true = ap (λ s. tier_eq s.tier tier) (sym same) ∙ h in
        elim (d.kept k (with_tier next s) after) [
          | inl stays ↦ inr (inside, stays)
          | inr (again, _) ↦ absurd (false≢true (sym apart ∙ again))
        ]
    | inr other ↦
        d.kept k s
          (map_get-map_update_ne k j (with_tier next) m (λ e. ground (arith, other, e)) ∙ got)
  ];
  others = λ other a b.
      d.others other a b
      ∙ bytes_in-map_update tier next apart j other m e (tier_elsewhere t.tier tier other h a) b;
}
  where
    tier_elsewhere :
        (a tier other : StorageTier)
        → tier_eq a tier ≡ true
        → tier_eq tier other ≡ false
        → tier_eq a other ≡ false
    tier_elsewhere a tier other h apart = ground (arith, h, apart)

pub demote_from_lem :
    (turns : ℕ) (tier next : StorageTier) (capacity : ℕ) (m : Map TieredSegment)
    → tier_eq next tier ≡ false
    → IsSegments m
    → all_bytes (map_values m) ≤ u64_max
    → count_in tier (map_values m) ≤ turns
    → (m' : Map TieredSegment) × (demote_from turns tier next capacity m ≡ ok m')
      × Demoted tier next capacity m m'
unfolding demote_from
demote_from_lem zero tier next capacity m apart h small enough = (
  m,
  refl,
  unmoved tier next capacity m h
      (omega (arith, count_in-none tier (map_values m) (omega (arith, enough)))),
)
demote_from_lem (suc turns) tier next capacity m apart h small enough =
    let total = total_bytes_in_tier-bytes_in tier m small in
    elim (Bool-cases (ltb capacity (bytes_in tier (map_values m)))) [
      | inr fits ↦ (
        m,
        rw (demote_from, total) (rw (and_then, fits) refl),
        unmoved tier next capacity m h (not_ltb→le _ _ fits),
      )
      | inl over ↦ elim (Option-cases (least_recent tier (map_values m))) [
        | inl empty ↦ (
          m,
          rw (demote_from, total) (rw (and_then, over, empty) refl),
          unmoved tier next capacity m h
              (omega (arith, least_recent-none tier (map_values m) empty)),
        )
        | inr (s, found) ↦
            let f = least_recent-IsLeastRecent tier (map_values m) found in
            let (k, at_k) = map_values-map_get m h.keys f.occurs in
            let at : map_get s.segment_id m ≡ some s =
              ap (λ k. map_get k m) (h.own k s at_k) ∙ at_k in
            let (m', runs, d) =
              demote_from_lem turns tier next capacity (map_update s.segment_id (with_tier next) m)
                apart (map_update-IsSegments tier next apart s.segment_id m h at)
                (omega
                  (arith, small, all_bytes-map_update s.segment_id (with_tier next) m (λ s. refl)))
                (omega (
                  arith,
                  enough,
                  count_in-map_update tier next apart s.segment_id m at f.inside,
                )) in
            (
              m',
              rw (demote_from, total) (rw (and_then, over, found, at) runs),
              moved tier next capacity m m' _ s apart at f.inside d,
            )
      ]
    ]
