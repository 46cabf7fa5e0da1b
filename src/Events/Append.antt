-- ===== src/Events/Append.antt =====
-- The invariant of the log, and `append`.
use temnion.Prelude.{
  ℕ, ◌-◌, ◌≤◌, ◌<◌, ◌≡◌, refl, ap, sym, ◌∙◌, Option, none, some, List, [], ◌∷◌, ◌++◌, ok, arith,
  length, get_elem?, last?-push, last?_lem, last?-total, get_elem?-push, length-push, map-if,
  u64_max, some≢none, get_elem?-ge, Option-cases, inl, inr, if◌then◌else◌, ◌==◌,
}
use temnion.Core.{EventId, Timestamp}
use temnion.Events.{
  EventInput, Event, EventLog, check_known_time, stamp, id_at, known_of, last_known,
}

-- `b` may follow `a` as a known time.
pub record Follows (a b : Timestamp) : Type 0 where
  pub same_clock : a.clock ≡ b.clock
  pub in_order : a.ticks ≤ b.ticks

Follows-refl : (a : Timestamp) → Follows a a
Follows-refl a = omega arith

pub Follows-trans : {a b c : Timestamp} → Follows a b → Follows b c → Follows a c
Follows-trans p q = omega arith

-- `check_known_time` accepts exactly the known times that may follow the last one.
pub check_known_time-ok :
    {previous actual : Timestamp}
    → check_known_time (some previous) actual ≡ ok tt
    → Follows previous actual
unfolding check_known_time
check_known_time-ok e = ground arith

pub Follows-check_known_time :
    {previous actual : Timestamp}
    → Follows previous actual
    → check_known_time (some previous) actual ≡ ok tt
unfolding check_known_time
Follows-check_known_time f = ground arith

module _ {ℓ} {T : Type ℓ} where
  abbrev pub id_of : Option (Event T) → Option EventId
  id_of none = none
  id_of (some e) = some e.id

  abbrev pub known_at : List (Event T) → ℕ → Option Timestamp
  known_at events i = known_of (get_elem? events i)

  -- Every event has its position for a sequence number, and known time never goes back.
  pub record IsValid (log : EventLog T) : Type 0 where
    pub word : log.capacity ≤ u64_max
    pub fits : length log.events ≤ log.capacity
    pub stamped :
        (i : ℕ) (id : EventId)
        → id_of (get_elem? log.events i) ≡ some id
        → id ≡ record { source = log.source; epoch = log.epoch; sequence = i }
    pub ordered :
        (i j : ℕ) (a b : Timestamp)
        → known_at log.events i ≡ some a
        → known_at log.events j ≡ some b
        → i ≤ j
        → Follows a b

  pub fresh-IsValid :
      (source epoch capacity : ℕ)
      → capacity ≤ u64_max
      → IsValid (record { source = source; epoch = epoch; capacity = capacity; events = [] })
  fresh-IsValid source epoch capacity h = record {
    word = h;
    fits = omega arith;
    stamped = λ i id e. cc;
    ordered = λ i j a b p q r. cc;
  }

  -- The log with one more input.
  abbrev pub pushed : EventLog T → EventInput T → EventLog T
  pushed log input = record log {
    events = log.events ++ stamp (id_at log (length log.events)) input ∷ [];
  }

  known_at-push :
      (events : List (Event T)) (e : Event T) (i : ℕ)
      → known_at (events ++ e ∷ []) i
        ≡ (if length events == i then some e.times.known else known_at events i)
  known_at-push events e i = ap known_of (get_elem?-push events e i) ∙ map-if known_of _ _ _

  known_at-ge : (events : List (Event T)) (i : ℕ) → length events ≤ i → known_at events i ≡ none
  known_at-ge events i h = ap known_of (get_elem?-ge events i h)

  id_of-push :
      (events : List (Event T)) (e : Event T) (i : ℕ)
      → id_of (get_elem? (events ++ e ∷ []) i)
        ≡ (if length events == i then some e.id else id_of (get_elem? events i))
  id_of-push events e i = ap id_of (get_elem?-push events e i) ∙ map-if id_of _ _ _

  pub last_known-push :
      (events : List (Event T)) (e : Event T) → last_known (events ++ e ∷ []) ≡ some e.times.known
  last_known-push events e = ap known_of (last?-push events e)

  last_known-at :
      (events : List (Event T)) {a : Timestamp}
      → last_known events ≡ some a
      → (0 < length events) × (known_at events (length events - 1) ≡ some a)
  last_known-at [] e = cc
  last_known-at (x ∷ xs) {a} e =
      let (y, p) = last?-total (x ∷ xs) (omega arith) in
      (omega arith, ap known_of (last?_lem (x ∷ xs) p) ∙ sym (ap known_of p) ∙ e)

  last_known-none : (events : List (Event T)) → last_known events ≡ none → length events ≡ 0
  last_known-none [] e = refl
  last_known-none (x ∷ xs) e =
      let (y, p) = last?-total (x ∷ xs) (omega arith) in
      absurd (some≢none (sym (ap known_of p) ∙ e))

  -- The input may follow every event of the log.
  Follows-all :
      (log : EventLog T) (actual : Timestamp)
      → IsValid log
      → check_known_time (last_known log.events) actual ≡ ok tt
      → (i : ℕ) (a : Timestamp) → known_at log.events i ≡ some a
      → i < length log.events
      → Follows a actual
  Follows-all log actual v fine i a e below = elim (Option-cases (last_known log.events)) [
    | inl p ↦ absurd (omega (arith, last_known-none log.events p))
    | inr (l, p) ↦
        let (some_event, at) = last_known-at log.events p in
        Follows-trans (v.ordered i (length log.events - 1) a l e at (omega arith))
          (check_known_time-ok (rw p at fine))
  ]

  pub pushed-IsValid :
      (log : EventLog T) (input : EventInput T)
      → IsValid log
      → length log.events < log.capacity
      → check_known_time (last_known log.events) input.times.known ≡ ok tt
      → IsValid (pushed log input)
  pushed-IsValid log input v room fine =
      let e = stamp (id_at log (length log.events)) input in
      record {
        word = v.word;
        fits = omega (arith, length-push log.events e);
        stamped =
            λ i id p. ground (arith, id_of-push log.events e i, v.stamped i id, v.word, v.fits);
        ordered = λ i j a b p q le. ground (
          arith,
          known_at-push log.events e i,
          known_at-push log.events e j,
          known_at-ge log.events i,
          known_at-ge log.events j,
          v.ordered i j a b,
          Follows-all log input.times.known v fine i a,
        );
      }
