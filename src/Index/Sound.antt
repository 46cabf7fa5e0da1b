-- ===== src/Index/Sound.antt =====
-- A block summary of crates/temnion-index/src/lib.rs is conservative: where it says to skip a block,
-- none of the block's events passes the filter.
use temnion.Prelude.{
  ◌≡◌, ◌≢◌, refl, ap, sym, ◌∙◌, subst, List, [], ◌∷◌, Option, none, some, some-injective, ◌⊎◌, Bool,
  true, false, not, ◌==◌, Bool-cases, inl, inr, cond_true, cond_false, is_some_and, Outcome, ok,
  and_then, and_then-ok, ok_injective, panic≢ok, u32_max, length, if◌then◌else◌,
}
use mathlib.Core.List.{Memᴰ}
use mathlib.Core.List.Memᴰ
use temnion.Core.{SchemaId, TimeAxis, TimeRange, Timestamp, on, contains}
use temnion.Events.{Event, HistoryFilter}
use temnion.Events
use temnion.Events.History.{matches_iff}
use temnion.Index.{
  TimestampZoneMap, entity_lt, zone_contains, time_zone_update, bloom_insert, may_contain, skip,
  must_scan, can_contain_known, seeds, empty_bloom,
}
use temnion.Index.Zones.{
  entity_lt-IsOrder, Inside, zone_of-Inside, zone_update-Inside, zone_update-Inside_self,
  Inside-zone_contains, Covers, time_zone_of-Covers, time_zone_update-Covers,
  time_zone_update-Covers_self, time_zone_update-clock, Covers-overlaps_range,
  Covers-can_contain_known,
}
use temnion.Index.Bloom.{may_contain-bloom_insert, may_contain-bloom_insert_other, length-insert_at}
use temnion.Index.Block.{BlockSummary, new, update, axis_excludes, matches_filter}

must_scan≢skip : must_scan ≢ skip
must_scan≢skip e = cc

module _ {ℓ} {T : Type ℓ} (schema_of : Event T → SchemaId) where
  -- The summary of the events of a block, as its writer makes it.
  unfoldable pub extend : List (Event T) → BlockSummary → Outcome (Unit {0}) BlockSummary
  extend [] s = ok s
  extend (e ∷ events) s =
      and_then (update e.id.sequence e.entity (schema_of e) e.times s) (extend events)

  unfoldable pub summarize : Event T → List (Event T) → Outcome (Unit {0}) BlockSummary
  summarize first events =
      extend events (new 0 0 0 first.id.sequence first.entity (schema_of first) first.times)

  -- The summary covers an event.
  pub record Summarized (s : BlockSummary) (e : Event T) : Type 0 where
    inside : Inside entity_lt entity_lt-IsOrder s.entity_range e.entity
    contained : may_contain s.entity_bloom e.entity ≡ true
    valid : Covers s.valid_time_range e.times.valid
    known : Covers s.known_time_range e.times.known
    known_clock : s.known_time_range.clock ≡ e.times.known.clock

  -- One more event, whose known clock is that of the block.
  module _ (s s' : BlockSummary) (e : Event T)
      (run : update {E = Unit {0}} e.id.sequence e.entity (schema_of e) e.times s ≡ ok s') where
    abbrev Updated : BlockSummary → Type 0
    Updated s' =
        (s'.entity_range ≡ record {
          min = if entity_lt e.entity s.entity_range.min then e.entity else s.entity_range.min;
          max = if entity_lt s.entity_range.max e.entity then e.entity else s.entity_range.max;
        })
        × (s'.entity_bloom ≡ bloom_insert e.entity s.entity_bloom)
        × (s'.valid_time_range ≡ time_zone_update e.times.valid s.valid_time_range)
        × (s'.known_time_range ≡ time_zone_update e.times.known s.known_time_range)

    update_inv : Updated s'
    unfolding update
    update_inv = elim (Bool-cases (s.record_count == u32_max)) [
      | inl full ↦ absurd (panic≢ok (sym (cond_true _ _ full) ∙ run))
      | inr room ↦
          subst Updated (ok_injective (sym (cond_false _ _ room) ∙ run)) (refl, refl, refl, refl)
    ]

    update-Summarized_self :
        length s.entity_bloom.bits ≡ 64
        → s.known_time_range.clock ≡ e.times.known.clock
        → Summarized s' e
    update-Summarized_self size clocks =
        let (range, bloom, valid, known) = update_inv in
        record {
          inside =
              subst (λ z. Inside entity_lt entity_lt-IsOrder z e.entity) (sym range)
                (zone_update-Inside_self entity_lt entity_lt-IsOrder e.entity s.entity_range);
          contained =
              ap (λ b. may_contain b e.entity) bloom
              ∙ may_contain-bloom_insert e.entity s.entity_bloom size;
          valid =
              subst (λ z. Covers z e.times.valid) (sym valid)
                (time_zone_update-Covers_self e.times.valid s.valid_time_range);
          known =
              subst (λ z. Covers z e.times.known) (sym known)
                (time_zone_update-Covers_self e.times.known s.known_time_range);
          known_clock =
              ap (λ (z : TimestampZoneMap). z.clock) known
              ∙ time_zone_update-clock e.times.known s.known_time_range
              ∙ clocks;
        }

    update-Summarized : (other : Event T) → Summarized s other → Summarized s' other
    update-Summarized other h =
        let (range, bloom, valid, known) = update_inv in
        record {
          inside =
              subst (λ z. Inside entity_lt entity_lt-IsOrder z other.entity) (sym range)
                (zone_update-Inside entity_lt entity_lt-IsOrder e.entity other.entity s.entity_range
                  h.inside);
          contained =
              ap (λ b. may_contain b other.entity) bloom
              ∙ may_contain-bloom_insert_other e.entity other.entity s.entity_bloom h.contained;
          valid =
              subst (λ z. Covers z other.times.valid) (sym valid)
                (time_zone_update-Covers e.times.valid other.times.valid s.valid_time_range
                  h.valid);
          known =
              subst (λ z. Covers z other.times.known) (sym known)
                (time_zone_update-Covers e.times.known other.times.known s.known_time_range
                  h.known);
          known_clock =
              ap (λ (z : TimestampZoneMap). z.clock) known
              ∙ time_zone_update-clock e.times.known s.known_time_range
              ∙ h.known_clock;
        }

    update-size : length s.entity_bloom.bits ≡ 64 → length s'.entity_bloom.bits ≡ 64
    update-size size =
        let (_, bloom, _, _) = update_inv in
        ap (λ b. length b.bits) bloom ∙ length-insert_at e.entity seeds s.entity_bloom.bits ∙ size

  -- The events of the block so far, and those that the rest of the loop adds.
  extend-Summarized :
      (events : List (Event T)) (s : BlockSummary) {s' : BlockSummary}
      → extend events s ≡ ok s'
      → length s.entity_bloom.bits ≡ 64
      → ((e : Event T) → Memᴰ e events → s.known_time_range.clock ≡ e.times.known.clock)
      → (e : Event T) → Memᴰ e events ⊎ Summarized s e
      → Summarized s' e
  unfolding extend
  extend-Summarized [] s run size clocks e (inl mem) = absurd (Memᴰ.not-nil mem)
  extend-Summarized [] s run size clocks e (inr h) =
      subst (λ s. Summarized s e) (ok_injective run) h
  extend-Summarized (first ∷ events) s run size clocks e where_ =
      let (s1, step, rest) =
        and_then-ok (update first.id.sequence first.entity (schema_of first) first.times s)
          (extend events) run in
      let clock : s1.known_time_range.clock ≡ s.known_time_range.clock =
        let (_, _, _, known) = update_inv s s1 first step in
        ap (λ (z : TimestampZoneMap). z.clock) known
        ∙ time_zone_update-clock first.times.known s.known_time_range in
      extend-Summarized events s1 rest (update-size s s1 first step size)
        (λ e mem. clock ∙ clocks e (Memᴰ.tail mem)) e
        (elim where_ [
          | inr h ↦ inr (update-Summarized s s1 first step e h)
          | inl mem ↦ elim (Memᴰ.cases_cons mem) [
            | inl same ↦ inr (
                subst (Summarized s1) (sym same)
                  (update-Summarized_self s s1 first step size (clocks first (Memᴰ.head refl))))
            | inr later ↦ inl later
          ]
        ])

  new-Summarized :
      (e : Event T) → Summarized (new 0 0 0 e.id.sequence e.entity (schema_of e) e.times) e
  unfolding new
  new-Summarized e = record {
    inside = zone_of-Inside entity_lt entity_lt-IsOrder e.entity;
    contained = may_contain-bloom_insert e.entity empty_bloom refl;
    valid = time_zone_of-Covers e.times.valid;
    known = time_zone_of-Covers e.times.known;
    known_clock = refl;
  }

  -- A guard that no value of an option sets off.
  quiet :
      {A : Type 0} (o : Option A) (test : A → Bool)
      → ((a : A) → o ≡ some a → test a ≡ false)
      → is_some_and o test ≡ false
  quiet none test h = refl
  quiet (some a) test h = h a refl

  -- The time axis of a filter that a covered event passes excludes nothing.
  axis_quiet :
      (s : BlockSummary) (e : Event T)
      → Summarized s e
      → (r : TimeAxis × TimeRange)
      → (t : Timestamp) × (on e.times r.0 ≡ some t) × (contains r.1 t ≡ true)
      → axis_excludes s.valid_time_range s.known_time_range r ≡ false
  unfolding on
  axis_quiet s e h (TimeAxis.valid, range) (t, at, inside) = ap not (
      Covers-overlaps_range s.valid_time_range range e.times.valid h.valid
        (ap (contains range) (some-injective _ _ at) ∙ inside))
  axis_quiet s e h (TimeAxis.known, range) (t, at, inside) = ap not (
      Covers-overlaps_range s.known_time_range range e.times.known h.known
        (ap (contains range) (some-injective _ _ at) ∙ inside))
  axis_quiet s e h (TimeAxis.observed, range) (t, at, inside) = refl

  scans :
      (s : BlockSummary) (filter : HistoryFilter) (e : Event T)
      → Summarized s e
      → temnion.Events.matches filter e ≡ true
      → matches_filter filter s ≡ must_scan
  unfolding matches_filter
  scans s filter e h passes =
      let (entity, cutoff, time) = (matches_iff filter e).0 passes in
      cond_false _ _ (
        quiet filter.entity (λ id. not (zone_contains entity_lt s.entity_range id))
          (λ id at. ap not (
            ap (zone_contains entity_lt s.entity_range) (entity id at)
            ∙ Inside-zone_contains entity_lt entity_lt-IsOrder s.entity_range e.entity h.inside)))
      ∙ cond_false _ _ (
          quiet filter.entity (λ id. not (may_contain s.entity_bloom id))
            (λ id at. ap not (ap (may_contain s.entity_bloom) (entity id at) ∙ h.contained)))
      ∙ cond_false _ _ (
          quiet filter.known_as_of (λ cutoff. not (can_contain_known s.known_time_range cutoff))
            (λ c at. ap not (
              Covers-can_contain_known s.known_time_range c e.times.known h.known h.known_clock
                (cutoff c at))))
      ∙ cond_false _ _ (
          quiet filter.time (axis_excludes s.valid_time_range s.known_time_range)
            (λ r at. axis_quiet s e h r (time r at)))

  -- Where the summary of a block, made from its first event and updated with the others, all known
  -- on one clock as the events of a log are, says to skip the block for a filter, no event of the
  -- block passes that filter: there are no false negatives.
  pub skip_sound :
      (first : Event T) (events : List (Event T)) (filter : HistoryFilter) {s : BlockSummary}
      → summarize first events ≡ ok s
      → ((e : Event T) → Memᴰ e events → first.times.known.clock ≡ e.times.known.clock)
      → matches_filter filter s ≡ skip
      → (e : Event T) → Memᴰ e (first ∷ events)
      → temnion.Events.matches filter e ≡ false
  unfolding summarize new
  skip_sound first events filter {s} run clocks skipped e mem =
      elim (Bool-cases (temnion.Events.matches filter e)) [
        | inr fails ↦ fails
        | inl passes ↦
            let covered : Summarized s e =
              extend-Summarized events
                (new 0 0 0 first.id.sequence first.entity (schema_of first) first.times) run
                (length-insert_at first.entity seeds empty_bloom.bits) clocks e
                (elim (Memᴰ.cases_cons mem) [
                  | inl same ↦ inr (
                      subst
                        (Summarized
                          (new 0 0 0 first.id.sequence first.entity (schema_of first) first.times))
                        (sym same) (new-Summarized first))
                  | inr later ↦ inl later
                ]) in
            absurd (must_scan≢skip (sym (scans s filter e covered passes) ∙ skipped))
      ]
