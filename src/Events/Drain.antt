-- ===== src/Events/Drain.antt =====
-- A client that follows continuations to the end, while batches are appended between the pages.
use temnion.Prelude.{
  ℕ, zero, suc, ◌+◌, ◌-◌, ◌≤◌, ◌<◌, ◌≡◌, refl, ap, ap₂, sym, ◌∙◌, true, Bool, ◌&&◌, Option, none,
  some, List, [], ◌∷◌, ◌++◌, append-nil, Outcome, ok, panic, and_then, arith, length, length-append,
  take, drop, head?, length-take_le, length-drop, take-append_left, take-all, take-append-drop,
  drop-add, Bool-cases, inl, inr, ltb, ltb→lt, not_ltb→le, le→not_ltb, option_eq, cond_true,
  cond_false, ==-self,
}
use temnion.Core.{entity_eq, Timestamp, timestamp_eq, TimeAxis, axis_eq, TimeRange, range_eq}
use temnion.Core.Laws.{entity_eq_iff}
use temnion.Events.{
  EventInput, Event, EventLog, EventError, HistoryFilter, filter_eq, HistoryCursor, QueryBudget,
  history, resume_at, check_cutoff, append_batch,
}
use temnion.Events.Batch.{stamped_from, append_batch_cases, append_batch-empty}
use temnion.Events.History.{selected, selected-append, Ready, history_page}

option_eq_refl :
    {A : Type 0} (eq : A → A → Bool) (o : Option A)
    → ((a : A) → eq a a ≡ true)
    → option_eq eq o o ≡ true
option_eq_refl eq none h = refl
option_eq_refl eq (some a) h = h a

axis_eq_refl : (a : TimeAxis) → axis_eq a a ≡ true
axis_eq_refl TimeAxis.valid = refl
axis_eq_refl TimeAxis.observed = refl
axis_eq_refl TimeAxis.known = refl

range_eq_refl : (r : TimeRange) → range_eq r r ≡ true
range_eq_refl r = ground arith

timestamp_eq_refl : (t : Timestamp) → timestamp_eq t t ≡ true
timestamp_eq_refl t = ground arith

filter_eq_refl : (f : HistoryFilter) → filter_eq f f ≡ true
filter_eq_refl f = rw (
  option_eq_refl entity_eq f.entity (λ id. (entity_eq_iff id id).1 refl),
  option_eq_refl (λ p q. axis_eq p.0 q.0 && range_eq p.1 q.1) f.time
      (λ r. rw (axis_eq_refl r.0) (range_eq_refl r.1)),
  option_eq_refl timestamp_eq f.known_as_of timestamp_eq_refl,
)

module _ {ℓ} {T : Type ℓ} where
  -- `later` is the log `log` with more events at the end.
  pub record Extends (log later : EventLog T) : Type ℓ where
    pub more : List (Event T)
    pub events : later.events ≡ log.events ++ more
    pub source : later.source ≡ log.source
    pub epoch : later.epoch ≡ log.epoch

  append_batch-Extends :
      (batch : List (EventInput T)) (log : EventLog T) → Extends log (append_batch batch log).1
  append_batch-Extends [] log =
      rw append_batch-empty
        (record { more = []; events = sym (append-nil log.events); source = refl; epoch = refl })
  append_batch-Extends (input ∷ rest) log = elim (append_batch_cases log input rest) [
    | inl (a, e) ↦ rw e (record {
      more = stamped_from log (length log.events) (input ∷ rest);
      events = refl;
      source = refl;
      epoch = refl;
    })
    | inr (no_room, (f, e)) ↦
        rw e
          (record { more = []; events = sym (append-nil log.events); source = refl; epoch = refl })
  ]

  -- One page, and what follows it.
  abbrev pub follow :
      List (Event T)
      → (HistoryCursor → Outcome EventError (List (Event T)))
      → Option HistoryCursor
      → Outcome EventError (List (Event T))
  follow events next none = ok events
  follow events next (some cursor) = and_then (next cursor) λ rest. ok (events ++ rest)

  -- The events of all the pages. Before the page with `n` pages of fuel left, `batches n` is appended.
  -- `panic` stands for a client that gave up.
  pub drain :
      (ℕ → Bool)
      → HistoryFilter
      → QueryBudget
      → (ℕ → List (EventInput T))
      → ℕ
      → Option HistoryCursor
      → EventLog T
      → Outcome EventError (List (Event T))
  drain grant filter budget batches zero cursor log = panic
  drain grant filter budget batches (suc fuel) cursor log =
      and_then (history grant filter budget cursor log) λ page.
        follow page.events
          (λ next.
            drain grant filter budget batches fuel (some next) (append_batch (batches fuel) log).1)
          page.continuation

  resume_later :
      (filter : HistoryFilter) (log later : EventLog T) (n o : ℕ)
      → Extends log later
      → n ≤ length log.events
      → o ≤ n
      → resume_at filter
          (some (record {
            source = log.source;
            epoch = log.epoch;
            snapshot_len = n;
            next_offset = o;
            filter = filter;
          }))
          later
        ≡ ok (n, o)
  unfolding resume_at
  resume_later filter log later n o x h le = rw (
    x.source,
    x.epoch,
    ==-self log.source,
    ==-self log.epoch,
    filter_eq_refl filter,
    le→not_ltb (length later.events) n
        (omega (arith, ap length x.events, length-append log.events x.more)),
    le→not_ltb n o le,
  )

  head?-append : (xs ys : List (Event T)) → 0 < length xs → head? (xs ++ ys) ≡ head? xs
  head?-append [] ys h = absurd (omega arith)
  head?-append (x ∷ xs) ys h = refl

  cutoff_later :
      (filter : HistoryFilter) (log later : EventLog T)
      → Extends log later
      → 0 < length log.events
      → check_cutoff filter later ≡ check_cutoff filter log
  cutoff_later filter log later x h = rw (x.events, head?-append log.events x.more h)

  snapshot_later :
      (log later : EventLog T) (n : ℕ)
      → Extends log later
      → n ≤ length log.events
      → take n later.events ≡ take n log.events
  snapshot_later log later n x h = rw x.events (take-append_left n log.events x.more h)

  length-snapshot :
      (log : EventLog T) (n o : ℕ)
      → n ≤ length log.events
      → length (drop o (take n log.events)) ≡ n - o
  length-snapshot log n o h =
      omega (arith, length-drop o (take n log.events), length-take_le n log.events h)

  -- The page and the rest of the snapshot make up what was left of it.
  joined :
      (filter : HistoryFilter) (log later : EventLog T) (n o k : ℕ) (events : List (Event T))
      → events ≡ selected filter (take k (drop o (take n log.events)))
      → Extends log later
      → n ≤ length log.events
      → events ++ selected filter (drop (o + k) (take n later.events))
        ≡ selected filter (drop o (take n log.events))
  joined filter log later n o k events e x h =
      let rest = drop o (take n log.events) in
      ap₂ (λ a b. a ++ selected filter b) e
        (ap (drop (o + k)) (snapshot_later log later n x h) ∙ drop-add o k (take n log.events))
      ∙ sym (selected-append filter (take k rest) (drop k rest))
      ∙ ap (selected filter) (take-append-drop k rest)

  module _ (grant : ℕ → Bool) (filter : HistoryFilter) (budget : QueryBudget)
      (batches : ℕ → List (EventInput T)) where
    Ready-later :
        (log later : EventLog T) (cursor : Option HistoryCursor) (n o o' : ℕ)
        → Ready grant filter budget cursor log n o
        → Extends log later
        → n ≤ length log.events
        → o' < n
        → Ready grant filter budget
            (some (record {
              source = log.source;
              epoch = log.epoch;
              snapshot_len = n;
              next_offset = o';
              filter = filter;
            }))
            later
            n
            o'
    Ready-later log later cursor n o o' r x h below = record {
      results = r.results;
      scans = r.scans;
      cutoff = cutoff_later filter log later x (omega arith) ∙ r.cutoff;
      resumes = resume_later filter log later n o' x h (omega arith);
      granted = r.granted;
    }

    drain_from :
        (fuel : ℕ) (cursor : Option HistoryCursor) (log : EventLog T) (n o : ℕ)
        → Ready grant filter budget cursor log n o
        → n ≤ length log.events
        → n - o < fuel
        → drain grant filter budget batches fuel cursor log
          ≡ ok (selected filter (drop o (take n log.events)))
    unfolding drain
    drain_from zero cursor log n o r h enough = absurd (omega arith)
    drain_from (suc fuel) cursor log n o r h enough =
        let (page, e, p) = history_page grant filter budget cursor log n o r in
        let size = length-snapshot log n o h in
        elim (Bool-cases (ltb (o + p.k) n)) [
          | inr done ↦ rw e (
              ap (follow page.events _) (p.continues ∙ cond_false _ _ done)
              ∙ ap ok (
                  p.events
                  ∙ ap (selected filter) (
                      take-all p.k (drop o (take n log.events))
                        (omega (arith, size, not_ltb→le _ _ done)))))
          | inl more ↦
              let below = ltb→lt _ _ more in
              let later = (append_batch (batches fuel) log).1 in
              let x = append_batch-Extends (batches fuel) log in
              let ih =
                drain_from fuel _ later n (o + p.k)
                  (Ready-later log later cursor n o (o + p.k) r x h below)
                  (omega (arith, ap length x.events, length-append log.events x.more))
                  (omega (arith, p.moved (omega (arith, size)))) in
              rw e (
                ap (follow page.events _) (p.continues ∙ cond_true _ _ more)
                ∙ ap (λ r. and_then r λ rest. ok (page.events ++ rest)) ih
                ∙ ap ok (joined filter log later n o p.k page.events p.events x h))
        ]

    -- With positive budgets, a cutoff on the log's clock and an allocator that grants every page, a
    -- client that follows the continuations gets, in sequence order and each once, exactly the events
    -- of the log at its first page that match, however small the budgets are and whatever is appended
    -- between its pages; as many pages as the log has events, and one, are enough.
    pub drain_complete :
        (log : EventLog T) (fuel : ℕ)
        → 0 < budget.max_results
        → 0 < budget.max_scanned
        → check_cutoff filter log ≡ ok tt
        → ((n : ℕ) → grant n ≡ true)
        → length log.events < fuel
        → drain grant filter budget batches fuel none log ≡ ok (selected filter log.events)
    drain_complete log fuel results scans cutoff granted enough =
        drain_from fuel none log (length log.events) 0
          (record {
            results = results;
            scans = scans;
            cutoff = cutoff;
            resumes = unfold resume_at in refl;
            granted = granted;
          })
          (omega arith) (omega arith)
        ∙ ap (λ xs. ok (selected filter xs)) (take-all (length log.events) log.events (omega arith))
