-- ===== src/Index/Zones.antt =====
-- Zone maps of crates/temnion-index/src/lib.rs contain every value that they were updated with.
use temnion.Prelude.{
  ◌≡◌, ◌≤◌, ap, sym, ◌∙◌, Bool, true, false, not, ◌&&◌, ◌==◌, Bool-cases, inl, inr, cond_true,
  cond_false, arith, if◌then◌else◌,
}
use temnion.Core.{Timestamp, TimeRange, contains}
use temnion.Index.{
  ZoneMap, TimestampZoneMap, zone_of, zone_update, zone_contains, entity_lt, time_zone_of,
  time_zone_update, overlaps_range, can_contain_known,
}

-- A strict order in which one of two values that are not below each other may stand for the other.
pub record IsOrder {ℓ} {T : Type ℓ} (lt : T → T → Bool) : Type ℓ where
  pub irreflexive : (a : T) → lt a a ≡ false
  pub above_trans : (a b c : T) → lt b a ≡ false → lt c b ≡ false → lt c a ≡ false
  pub asymmetric : (a b : T) → lt a b ≡ true → lt b a ≡ false

pub entity_lt-IsOrder : IsOrder entity_lt
unfolding entity_lt
entity_lt-IsOrder = record {
  irreflexive = λ a. ground arith;
  above_trans = λ a b c h k. ground (arith, h, k);
  asymmetric = λ a b h. ground (arith, h);
}

module _ {ℓ} {T : Type ℓ} (lt : T → T → Bool) (order : IsOrder lt) where
  -- Neither end excludes the value.
  abbrev pub Inside : ZoneMap T → T → Type 0
  Inside zone val = (lt val zone.min ≡ false) × (lt zone.max val ≡ false)

  pub zone_of-Inside : (val : T) → Inside (zone_of lt val) val
  zone_of-Inside val = (order.irreflexive val, order.irreflexive val)

  pub zone_update-Inside_self : (val : T) (zone : ZoneMap T) → Inside (zone_update lt val zone) val
  zone_update-Inside_self val zone = (low, high)
    where
      low : lt val (if lt val zone.min then val else zone.min) ≡ false
      low = elim (Bool-cases (lt val zone.min)) [
        | inl below ↦ ap (lt val) (cond_true _ _ below) ∙ order.irreflexive val
        | inr above ↦ ap (lt val) (cond_false _ _ above) ∙ above
      ]

      high : lt (if lt zone.max val then val else zone.max) val ≡ false
      high = elim (Bool-cases (lt zone.max val)) [
        | inl above ↦ ap (λ m. lt m val) (cond_true _ _ above) ∙ order.irreflexive val
        | inr below ↦ ap (λ m. lt m val) (cond_false _ _ below) ∙ below
      ]

  pub zone_update-Inside :
      (val other : T) (zone : ZoneMap T)
      → Inside zone other
      → Inside (zone_update lt val zone) other
  zone_update-Inside val other zone (above, below) = (low, high)
    where
      low : lt other (if lt val zone.min then val else zone.min) ≡ false
      low = elim (Bool-cases (lt val zone.min)) [
        | inl less ↦
            ap (lt other) (cond_true _ _ less)
            ∙ order.above_trans val zone.min other (order.asymmetric val zone.min less) above
        | inr more ↦ ap (lt other) (cond_false _ _ more) ∙ above
      ]

      high : lt (if lt zone.max val then val else zone.max) other ≡ false
      high = elim (Bool-cases (lt zone.max val)) [
        | inl more ↦
            ap (λ m. lt m other) (cond_true _ _ more)
            ∙ order.above_trans other zone.max val below (order.asymmetric zone.max val more)
        | inr less ↦ ap (λ m. lt m other) (cond_false _ _ less) ∙ below
      ]

  pub Inside-zone_contains :
      (zone : ZoneMap T) (val : T) → Inside zone val → zone_contains lt zone val ≡ true
  Inside-zone_contains zone val (above, below) =
      ap (λ b. not b && not (lt zone.max val)) above ∙ ap not below

-- A timestamp of the zone's clock is between its ends.
abbrev pub Covers : TimestampZoneMap → Timestamp → Type 0
Covers zone ts = zone.clock ≡ ts.clock → (zone.min_ticks ≤ ts.ticks) × (ts.ticks ≤ zone.max_ticks)

pub time_zone_of-Covers : (ts : Timestamp) → Covers (time_zone_of ts) ts
time_zone_of-Covers ts e = (omega arith, omega arith)

pub time_zone_update-clock :
    (ts : Timestamp) (zone : TimestampZoneMap) → (time_zone_update ts zone).clock ≡ zone.clock
unfolding time_zone_update
time_zone_update-clock ts zone = elim (Bool-cases (ts.clock == zone.clock)) [
  | inl same ↦ ap (λ (z : TimestampZoneMap). z.clock) (cond_true _ _ same)
  | inr other ↦ ap (λ (z : TimestampZoneMap). z.clock) (cond_false _ _ other)
]

pub time_zone_update-Covers_self :
    (ts : Timestamp) (zone : TimestampZoneMap) → Covers (time_zone_update ts zone) ts
unfolding time_zone_update
time_zone_update-Covers_self ts zone e = elim (Bool-cases (ts.clock == zone.clock)) [
  | inl same ↦ ground (arith, same)
  | inr other ↦ absurd (
      ground
        (arith, other, sym (ap (λ (z : TimestampZoneMap). z.clock) (cond_false _ _ other)) ∙ e))
]

pub time_zone_update-Covers :
    (ts other : Timestamp) (zone : TimestampZoneMap)
    → Covers zone other
    → Covers (time_zone_update ts zone) other
unfolding time_zone_update
time_zone_update-Covers ts other zone h e = elim (Bool-cases (ts.clock == zone.clock)) [
  | inl same ↦
      let (above, below) =
        h (sym (ap (λ (z : TimestampZoneMap). z.clock) (cond_true _ _ same)) ∙ e) in
      ground (arith, same, above, below)
  | inr apart ↦
      let (above, below) =
        h (sym (ap (λ (z : TimestampZoneMap). z.clock) (cond_false _ _ apart)) ∙ e) in
      ground (arith, apart, above, below)
]

-- A range that holds a covered timestamp overlaps the zone.
pub Covers-overlaps_range :
    (zone : TimestampZoneMap) (range : TimeRange) (ts : Timestamp)
    → Covers zone ts
    → contains range ts ≡ true
    → overlaps_range zone range ≡ true
unfolding overlaps_range contains
Covers-overlaps_range zone range ts h inside = elim (Bool-cases (zone.clock == range.clock)) [
  | inr other ↦ ground (arith, other)
  | inl same ↦
      let clocks : zone.clock ≡ ts.clock = ground (arith, same, inside) in
      let (above, below) = h clocks in ground (arith, same, inside, above, below)
]

-- A covered timestamp of the zone's clock that is not after the cutoff keeps the zone.
pub Covers-can_contain_known :
    (zone : TimestampZoneMap) (cutoff ts : Timestamp)
    → Covers zone ts
    → zone.clock ≡ ts.clock
    → ts.ticks ≤ cutoff.ticks
    → can_contain_known zone cutoff ≡ true
unfolding can_contain_known
Covers-can_contain_known zone cutoff ts h clocks before =
    elim (Bool-cases (zone.clock == cutoff.clock)) [
      | inr other ↦ ground (arith, other)
      | inl same ↦ let (above, below) = h clocks in ground (arith, same, above, before)
    ]
