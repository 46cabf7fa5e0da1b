-- ===== src/Events/Tests.antt =====
-- Runs of temnion-events at concrete inputs, as in the tests of crates/temnion-events/src/lib.rs.
use temnion.Prelude.{
  ℕ, ◌+◌, ◌≤◌, ◌≡◌, ◌⊎◌, ◌↔◌, refl, true, none, some, List, [], ◌∷◌, ok, err, arith, get_elem?,
}
use temnion.Core.{EntityId, EventId, Timestamp, TimeAxis, TimeRange, on, contains}
use temnion.Events.{
  EventInput, Event, EventLog, VolatileReceipt, EventError, known_time_regression, HistoryFilter,
  QueryBudget, check_known_time, check_batch, check_capacity, push_validated, push_all, append,
  append_batch, get, matches, history, resume_at, check_cutoff_of, stamp,
}
use temnion.Events.Append.{IsValid, fresh-IsValid}
use temnion.Events.Batch.{
  Admits, pushed_all, receipt, append_batch_cases, append_each, append_batch_iff_each,
  append_batch-IsValid, append-eq-append_batch,
}
use temnion.Events.Get.{get_iff, get-append_batch}
use temnion.Events.History.{selected, Ready, Page, history_page, matches_iff}
use temnion.Events.Drain.{drain, drain_complete}

abbrev entity : ℕ → EntityId
entity slot = record { shard = 0; slot = slot; generation = 0 }

-- Entity `slot`, with a valid time on clock 1 and a known time on clock 2.
abbrev input : ℕ → ℕ → ℕ → EventInput ℕ
input slot valid known = record {
  entity = entity slot;
  times = record {
    valid = record { clock = 1; ticks = valid };
    observed = none;
    known = record { clock = 2; ticks = known };
  };
  change = valid;
}

abbrev empty_log : EventLog ℕ
empty_log = record { source = 1; epoch = 3; capacity = 8; events = [] }

abbrev id : ℕ → EventId
id n = record { source = 1; epoch = 3; sequence = n }

abbrev log : EventLog ℕ
log = record empty_log {
  events =
      stamp (id 0) (input 1 5 1) ∷ stamp (id 1) (input 2 2 1) ∷ stamp (id 2) (input 1 8 2) ∷ [];
}

abbrev inputs : List (EventInput ℕ)
inputs = input 1 5 1 ∷ input 2 2 1 ∷ input 1 8 2 ∷ []

log_built :
    append_batch inputs empty_log ≡ (ok (record { first = id 0; last = id 2; count = 3 }), log)
unfolding append_batch check_capacity check_batch check_known_time push_all push_validated
log_built = refl

regression :
    append_batch (input 1 11 3 ∷ input 1 12 1 ∷ []) log ≡ (err (known_time_regression 3 1), log)
unfolding append_batch check_capacity check_batch check_known_time
regression = refl

empty-IsValid : IsValid empty_log
empty-IsValid = fresh-IsValid 1 3 8 (omega arith)

log-IsValid : IsValid log
unfolding append_batch check_capacity check_batch check_known_time push_all push_validated
log-IsValid = append_batch-IsValid inputs empty_log empty-IsValid

append_batch-IsValid_example : IsValid (append_batch (input 1 11 3 ∷ input 1 12 1 ∷ []) log).1
append_batch-IsValid_example =
    append_batch-IsValid (input 1 11 3 ∷ input 1 12 1 ∷ []) log log-IsValid

append_batch_cases_example :
    (Admits log (input 1 11 3 ∷ [])
      × (append_batch (input 1 11 3 ∷ []) log
          ≡ (ok (receipt log 1), pushed_all log (input 1 11 3 ∷ []))))
    ⊎ ((¬ Admits log (input 1 11 3 ∷ []))
        × ((e : EventError) × (append_batch (input 1 11 3 ∷ []) log ≡ (err e, log))))
append_batch_cases_example = append_batch_cases log (input 1 11 3) []

append_batch_iff_each_example :
    ((r : VolatileReceipt) × (append_batch inputs empty_log ≡ (ok r, log)))
    ↔ (append_each inputs empty_log ≡ (ok tt, log))
append_batch_iff_each_example =
    append_batch_iff_each (input 1 5 1) (input 2 2 1 ∷ input 1 8 2 ∷ []) empty_log log

append-eq-append_batch_example : append (input 1 9 3) log ≡ append_batch (input 1 9 3 ∷ []) log
append-eq-append_batch_example = append-eq-append_batch (input 1 9 3) log

get_iff_example :
    (get (id 1) log ≡ ok (stamp (id 1) (input 2 2 1)))
    ↔ ((k : ℕ) × (get_elem? log.events k ≡ some (stamp (id 1) (input 2 2 1))) × (id 1 ≡ id 1))
get_iff_example = get_iff log (id 1) (stamp (id 1) (input 2 2 1)) log-IsValid

get-append_batch_example :
    ((k : ℕ) (x : EventInput ℕ)
      → get_elem? inputs k ≡ some x
      → get (id (0 + k)) log ≡ ok (stamp (id (0 + k)) x))
    × ((i : EventId) (e : Event ℕ) → get i empty_log ≡ ok e → get i log ≡ ok e)
get-append_batch_example = get-append_batch empty_log inputs empty-IsValid log_built

abbrev by_entity : HistoryFilter
by_entity = record {
  entity = some (entity 1);
  time = none;
  known_as_of = some (record { clock = 2; ticks = 2 });
}

matches_iff_example : (matches by_entity (stamp (id 0) (input 1 5 1)) ≡ true) ↔ (
    ((i : EntityId) → some (entity 1) ≡ some i → i ≡ entity 1)
    × ((cutoff : Timestamp) → by_entity.known_as_of ≡ some cutoff → 1 ≤ cutoff.ticks)
    × ((r : TimeAxis × TimeRange)
        → by_entity.time ≡ some r
        → (t : Timestamp) × (on (input 1 5 1).times r.0 ≡ some t) × (contains r.1 t ≡ true)))
matches_iff_example = matches_iff by_entity (stamp (id 0) (input 1 5 1))

abbrev one_by_one : QueryBudget
one_by_one = record { max_results = 1; max_scanned = 1 }

ready : Ready (λ _. true) by_entity one_by_one none log 3 0
unfolding check_cutoff_of resume_at
ready = record {
  results = omega arith;
  scans = omega arith;
  cutoff = refl;
  resumes = refl;
  granted = λ n. refl;
}

history_page_example :
    (page : _) × (history (λ _. true) by_entity one_by_one none log ≡ ok page)
    × Page by_entity one_by_one log 3 0 page
history_page_example = history_page (λ _. true) by_entity one_by_one none log 3 0 ready

drain_complete_example :
    drain (λ _. true) by_entity one_by_one (λ n. input 1 n 9 ∷ []) 4 none log
    ≡ ok (selected by_entity log.events)
unfolding check_cutoff_of
drain_complete_example =
    drain_complete (λ _. true) by_entity one_by_one (λ n. input 1 n 9 ∷ []) log 4 (omega arith)
      (omega arith) refl (λ n. refl) (omega arith)
