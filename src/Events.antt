-- ===== src/Events.antt =====
-- crates/temnion-events/src/lib.rs: the bounded, volatile, append-only event log of one source.
pub mod Append
pub mod Batch
pub mod Get
pub mod History
pub mod Drain
mod Tests
use temnion.Prelude.{
  ℕ, ◌+◌, ◌-◌, Bool, true, false, not, ◌&&◌, ◌||◌, Option, none, some, List, [], ◌∷◌, ◌++◌, ltb,
  leb, ◌==◌, if◌then◌else◌, length, get_elem?, take, drop, last?, head?, min, as_u64, Outcome, ok,
  err, and_then, Exec, ◌>>=◌, ◌>>◌, pure, asks, is_some_and, option_eq,
}
use temnion.Core.{
  SourceId, SourceEpoch, ClockId, EntityId, entity_eq, EventId, Timestamp, timestamp_eq, EventTimes,
  TimeAxis, on, axis_eq, TimeRange, range_eq, contains,
}

pub record EventInput {ℓ} (T : Type ℓ) : Type ℓ where
  pub entity : EntityId
  pub times : EventTimes
  pub change : T

pub record Event {ℓ} (T : Type ℓ) : Type ℓ where
  pub id : EventId
  pub entity : EntityId
  pub times : EventTimes
  pub change : T

pub record VolatileReceipt : Type 0 where
  pub first : EventId
  pub last : EventId
  pub count : ℕ

pub data EventError : Type 0 where
  allocation_failed : EventError
  empty_batch : EventError
  capacity_exceeded : ℕ → ℕ → EventError
  known_clock_mismatch : ClockId → ClockId → EventError
  known_time_regression : ℕ → ℕ → EventError
  invalid_budget : EventError
  invalid_cursor : EventError
  unknown_event : EventId → EventError

pub record HistoryFilter : Type 0 where
  pub entity : Option EntityId
  pub time : Option (TimeAxis × TimeRange)
  pub known_as_of : Option Timestamp

-- The derived equality of two filters.
abbrev pub filter_eq : HistoryFilter → HistoryFilter → Bool
filter_eq a b =
    option_eq entity_eq a.entity b.entity
    && (option_eq (λ p q. axis_eq p.0 q.0 && range_eq p.1 q.1) a.time b.time
        && option_eq timestamp_eq a.known_as_of b.known_as_of)

pub record QueryBudget : Type 0 where
  pub max_results : ℕ
  pub max_scanned : ℕ

pub record HistoryCursor : Type 0 where
  pub source : SourceId
  pub epoch : SourceEpoch
  pub snapshot_len : ℕ
  pub next_offset : ℕ
  pub filter : HistoryFilter

pub record HistoryPage {ℓ} (T : Type ℓ) : Type ℓ where
  pub events : List (Event T)
  pub scanned : ℕ
  pub continuation : Option HistoryCursor

pub record EventLog {ℓ} (T : Type ℓ) : Type ℓ where
  pub source : SourceId
  pub epoch : SourceEpoch
  pub capacity : ℕ
  pub events : List (Event T)

-- `try_reserve_exact` grants room for that many entries, or not.
pub reserve : (ℕ → Bool) → ℕ → Outcome EventError (Unit {0})
reserve try_reserve_exact n = if try_reserve_exact n then ok tt else err allocation_failed

pub check_known_time : Option Timestamp → Timestamp → Outcome EventError (Unit {0})
check_known_time none actual = ok tt
check_known_time (some previous) actual =
    if not (previous.clock == actual.clock)
    then err (known_clock_mismatch previous.clock actual.clock)
    else if ltb actual.ticks previous.ticks
    then err (known_time_regression previous.ticks actual.ticks)
    else ok tt

-- The loop of `append_batch` that validates every input before the first is pushed.
pub check_batch {ℓ} :
    {T : Type ℓ} → Option Timestamp → List (EventInput T) → Outcome EventError (Unit {0})
check_batch previous [] = ok tt
check_batch previous (input ∷ batch) =
    let rest = check_batch (some input.times.known) batch in
    and_then (check_known_time previous input.times.known) λ _. rest

module _ {ℓ} {T : Type ℓ} where
  pub new : (ℕ → Bool) → SourceId → SourceEpoch → ℕ → Outcome EventError (EventLog T)
  new try_reserve_exact source epoch capacity =
      and_then (reserve try_reserve_exact capacity)
        λ _. ok (record { source = source; epoch = epoch; capacity = capacity; events = [] })

  abbrev pub remaining_capacity : EventLog T → ℕ
  remaining_capacity log = log.capacity - length log.events

  abbrev pub id_at : EventLog T → ℕ → EventId
  id_at log index = record { source = log.source; epoch = log.epoch; sequence = as_u64 index }

  pub check_capacity : ℕ → EventLog T → Outcome EventError (Unit {0})
  check_capacity count log =
      if ltb (remaining_capacity log) count
      then err (capacity_exceeded (remaining_capacity log) count)
      else ok tt

  abbrev pub known_of : Option (Event T) → Option Timestamp
  known_of none = none
  known_of (some e) = some e.times.known

  -- The known time of the last event.
  abbrev pub last_known : List (Event T) → Option Timestamp
  last_known events = known_of (last? events)

  abbrev pub stamp : EventId → EventInput T → Event T
  stamp id input = record {
    id = id;
    entity = input.entity;
    times = input.times;
    change = input.change;
  }

  pub push_validated : EventInput T → Exec (EventLog T) EventError EventId
  push_validated input log =
      let id = id_at log (length log.events) in
      (ok id, record log { events = log.events ++ stamp id input ∷ [] })

  pub append : EventInput T → Exec (EventLog T) EventError VolatileReceipt
  append input = do
    asks (check_capacity 1)
    asks (λ log. check_known_time (last_known log.events) input.times.known)
    id ← push_validated input
    pure (record { first = id; last = id; count = 1 })

  -- The loop of `append_batch` that pushes.
  pub push_all : List (EventInput T) → Exec (EventLog T) EventError (Unit {0})
  push_all [] = pure tt
  push_all (input ∷ batch) = do id ← push_validated input; push_all batch

  pub append_batch : List (EventInput T) → Exec (EventLog T) EventError VolatileReceipt
  append_batch [] = λ log. (err empty_batch, log)
  append_batch (input ∷ rest) = do
    let batch = input ∷ rest
    asks (check_capacity (length batch))
    asks (λ log. check_batch (last_known log.events) batch)
    first ← asks (λ log. ok (id_at log (length log.events)))
    push_all batch
    last ← asks (λ log. ok (id_at log (length log.events - 1)))
    pure (record { first = first; last = last; count = length batch })

  pub get : EventId → EventLog T → Outcome EventError (Event T)
  get id log =
      if not (id.source == log.source) || not (id.epoch == log.epoch)
      then err (unknown_event id)
      else elim (get_elem? log.events id.sequence) [ none ↦ err (unknown_event id) | some e ↦ ok e ]

  -- The three tests of the scan: an event that fails one is skipped.
  pub of_entity : HistoryFilter → Event T → Bool
  of_entity filter event =
      not (is_some_and filter.entity (λ entity. not (entity_eq entity event.entity)))

  pub known_by_cutoff : HistoryFilter → Event T → Bool
  known_by_cutoff filter event =
      not (is_some_and filter.known_as_of (λ cutoff. ltb cutoff.ticks event.times.known.ticks))

  pub in_range : HistoryFilter → Event T → Bool
  in_range filter event = not (
      is_some_and filter.time
        (λ r. not (is_some_and (on event.times r.0) (λ time. contains r.1 time))))

  pub matches : HistoryFilter → Event T → Bool
  matches filter event =
      of_entity filter event && (known_by_cutoff filter event && in_range filter event)

  -- The scan over the events from the offset to the end of the snapshot. It returns the events that
  -- it kept, the number that it scanned and the offset where it stopped.
  pub scan :
      HistoryFilter → QueryBudget → List (Event T) → ℕ → ℕ → List (Event T) → List (Event T) × ℕ × ℕ
  scan filter budget [] offset scanned events = (events, scanned, offset)
  scan filter budget (event ∷ rest) offset scanned events =
      let next =
        scan filter budget rest (offset + 1) (scanned + 1)
          (if matches filter event then events ++ event ∷ [] else events) in
      if ltb scanned budget.max_scanned && ltb (length events) budget.max_results
      then next
      else (events, scanned, offset)

  -- The test of the cutoff's clock against that of the log's first event.
  pub check_cutoff_of : Option Timestamp → Option (Event T) → Outcome EventError (Unit {0})
  check_cutoff_of (some cutoff) (some first) =
      if not (cutoff.clock == first.times.known.clock)
      then err (known_clock_mismatch first.times.known.clock cutoff.clock)
      else ok tt
  check_cutoff_of _ _ = ok tt

  abbrev pub check_cutoff : HistoryFilter → EventLog T → Outcome EventError (Unit {0})
  check_cutoff filter log = check_cutoff_of filter.known_as_of (head? log.events)

  -- The snapshot's length and the offset to start from.
  pub resume_at : HistoryFilter → Option HistoryCursor → EventLog T → Outcome EventError (ℕ × ℕ)
  resume_at filter none log = ok (length log.events, 0)
  resume_at filter (some cursor) log =
      if not (cursor.source == log.source)
        || (not (cursor.epoch == log.epoch)
            || (not (filter_eq cursor.filter filter)
                || (ltb (length log.events) cursor.snapshot_len
                    || ltb cursor.snapshot_len cursor.next_offset)))
      then err invalid_cursor
      else ok (cursor.snapshot_len, cursor.next_offset)

  abbrev pub page_of : HistoryFilter → EventLog T → ℕ → List (Event T) × ℕ × ℕ → HistoryPage T
  page_of filter log snapshot_len (events, scanned, offset) = record {
    events = events;
    scanned = scanned;
    continuation =
        if ltb offset snapshot_len
        then some (record {
          source = log.source;
          epoch = log.epoch;
          snapshot_len = snapshot_len;
          next_offset = offset;
          filter = filter;
        })
        else none;
  }

  pub history :
      (ℕ → Bool)
      → HistoryFilter
      → QueryBudget
      → Option HistoryCursor
      → EventLog T
      → Outcome EventError (HistoryPage T)
  history try_reserve_exact filter budget cursor log =
      if budget.max_results == 0 || budget.max_scanned == 0
      then err invalid_budget
      else and_then (check_cutoff filter log) λ _.
        and_then (resume_at filter cursor log) λ (snapshot_len, offset).
          and_then
            (reserve try_reserve_exact
              (min (min budget.max_results budget.max_scanned) (snapshot_len - offset)))
            λ _. ok (
              page_of filter log snapshot_len
                (scan filter budget (drop offset (take snapshot_len log.events)) offset 0 []))
