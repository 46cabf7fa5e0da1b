-- ===== src/Events/History.antt =====
-- One page of `EventLog::history`: what the scan keeps, and when it stops.
use temnion.Prelude.{
  ℕ, suc, ◌+◌, ◌≤◌, ◌<◌, ◌≡◌, ◌⊎◌, ◌↔◌, refl, ap, sym, ◌∙◌, true, Option, none, some, List, [], ◌∷◌,
  ◌++◌, append-nil, append_assoc, ok, arith, length, length-push, take, drop, Bool, ◌&&◌,
  if◌then◌else◌, ne→==, Bool-cases, &&_iff, unless_iff, none_such_iff, le→not_ltb, is_some_and_iff,
  inl, inr, ltb, is_some_and, ltb→lt, not_ltb→le,
}
use temnion.Core.{EntityId, entity_eq, Timestamp, TimeAxis, TimeRange, on, contains}
use temnion.Core.Laws.{entity_eq_iff}
use temnion.Events.{
  Event, EventLog, HistoryFilter, HistoryCursor, HistoryPage, QueryBudget, of_entity,
  known_by_cutoff, in_range, matches, scan, history, reserve, resume_at, check_cutoff, page_of,
}

module _ {ℓ} {T : Type ℓ} where
  of_entity_iff :
      (filter : HistoryFilter) (e : Event T)
      → (of_entity filter e ≡ true) ↔ ((id : EntityId) → filter.entity ≡ some id → id ≡ e.entity)
  unfolding of_entity
  of_entity_iff filter e =
      let test = λ (id : EntityId). entity_eq id e.entity in
      (
        λ h id p. (entity_eq_iff id e.entity).0 ((unless_iff filter.entity test).0 h id p),
        λ h. (unless_iff filter.entity test).1 (λ id p. (entity_eq_iff id e.entity).1 (h id p)),
      )

  known_by_cutoff_iff :
      (filter : HistoryFilter) (e : Event T)
      → (known_by_cutoff filter e ≡ true) ↔ (
          (cutoff : Timestamp)
          → filter.known_as_of ≡ some cutoff
          → e.times.known.ticks ≤ cutoff.ticks)
  unfolding known_by_cutoff
  known_by_cutoff_iff filter e =
      let test = λ (cutoff : Timestamp). ltb cutoff.ticks e.times.known.ticks in
      (
        λ h cutoff p. not_ltb→le _ _ ((none_such_iff filter.known_as_of test).0 h cutoff p),
        λ h. (none_such_iff filter.known_as_of test).1 (λ cutoff p. le→not_ltb _ _ (h cutoff p)),
      )

  in_range_iff :
      (filter : HistoryFilter) (e : Event T)
      → (in_range filter e ≡ true) ↔ (
          (r : TimeAxis × TimeRange)
          → filter.time ≡ some r
          → (t : Timestamp) × (on e.times r.0 ≡ some t) × (contains r.1 t ≡ true))
  unfolding in_range
  in_range_iff filter e =
      let test =
        λ (r : TimeAxis × TimeRange). is_some_and (on e.times r.0) (λ time. contains r.1 time) in
      (
        λ h r p.
            (is_some_and_iff (on e.times r.0) (contains r.1)).0
              ((unless_iff filter.time test).0 h r p),
        λ h.
            (unless_iff filter.time test).1
              λ r p. (is_some_and_iff (on e.times r.0) (contains r.1)).1 (h r p),
      )

  -- An event passes the filter exactly when it is of the filter's entity, was known by the cutoff and
  -- has on the filter's axis a time within the range, for each of the three that the filter has.
  pub matches_iff :
      (filter : HistoryFilter) (e : Event T)
      → (matches filter e ≡ true) ↔ (
          ((id : EntityId) → filter.entity ≡ some id → id ≡ e.entity)
          × ((cutoff : Timestamp)
              → filter.known_as_of ≡ some cutoff
              → e.times.known.ticks ≤ cutoff.ticks)
          × ((r : TimeAxis × TimeRange)
              → filter.time ≡ some r
              → (t : Timestamp) × (on e.times r.0 ≡ some t) × (contains r.1 t ≡ true)))
  unfolding matches
  matches_iff filter e =
      let both = &&_iff (known_by_cutoff filter e) (in_range filter e) in
      let all = &&_iff (of_entity filter e) (known_by_cutoff filter e && in_range filter e) in
      (
        λ h.
            let (a, bc) = all.0 h in
            let (b, c) = both.0 bc in
            (
              (of_entity_iff filter e).0 a,
              (known_by_cutoff_iff filter e).0 b,
              (in_range_iff filter e).0 c,
            ),
        λ (a, b, c). all.1 (
          (of_entity_iff filter e).1 a,
          both.1 ((known_by_cutoff_iff filter e).1 b, (in_range_iff filter e).1 c),
        ),
      )

  -- The events of a list that pass the filter, in order.
  pub selected : HistoryFilter → List (Event T) → List (Event T)
  selected filter [] = []
  selected filter (e ∷ es) =
      let rest = selected filter es in if matches filter e then e ∷ rest else rest

  pub selected-append :
      (filter : HistoryFilter) (xs ys : List (Event T))
      → selected filter (xs ++ ys) ≡ selected filter xs ++ selected filter ys
  unfolding selected
  selected-append filter [] ys = refl
  selected-append filter (e ∷ xs) ys = elim (Bool-cases (matches filter e)) [
    | inl y ↦ rw y (ap (◌∷◌ e) (selected-append filter xs ys))
    | inr n ↦ rw n (selected-append filter xs ys)
  ]

  -- How far a scan of `rest` got: it consumed `k` events, within both budgets.
  pub record Scanned (filter : HistoryFilter) (budget : QueryBudget) (rest : List (Event T))
      (offset scanned : ℕ) (out : List (Event T)) (r : List (Event T) × ℕ × ℕ) : Type ℓ where
    pub k : ℕ
    pub within : k ≤ length rest
    pub events : r.0 ≡ out ++ selected filter (take k rest)
    pub counted : r.1 ≡ scanned + k
    pub reached : r.2 ≡ offset + k
    pub stopped :
        (k ≡ length rest) ⊎ ((budget.max_scanned ≤ r.1) ⊎ (budget.max_results ≤ length r.0))
    pub moved :
        scanned < budget.max_scanned → length out < budget.max_results → 0 < length rest → 0 < k
    pub in_budget :
        scanned ≤ budget.max_scanned
        → length out ≤ budget.max_results
        → (r.1 ≤ budget.max_scanned) × (length r.0 ≤ budget.max_results)

  -- What one event adds to the output.
  abbrev grown : HistoryFilter → Event T → List (Event T) → List (Event T)
  grown filter e out = if matches filter e then out ++ e ∷ [] else out

  grown-length :
      (filter : HistoryFilter) (e : Event T) (out : List (Event T))
      → length (grown filter e out) ≤ length out + 1
  grown-length filter e out = elim (Bool-cases (matches filter e)) [
    | inl y ↦ rw y (omega (arith, length-push out e))
    | inr n ↦ rw n (omega arith)
  ]

  grown-selected :
      (filter : HistoryFilter) (e : Event T) (out : List (Event T))
      → grown filter e out ≡ out ++ selected filter (e ∷ [])
  unfolding selected
  grown-selected filter e out = elim (Bool-cases (matches filter e)) [
    | inl y ↦ rw y
    | inr n ↦ rw n (sym (append-nil out))
  ]

  scan-stop :
      (filter : HistoryFilter) (budget : QueryBudget) (rest : List (Event T)) (offset scanned : ℕ)
      (out : List (Event T))
      → ((budget.max_scanned ≤ scanned) ⊎ (budget.max_results ≤ length out))
      → Scanned filter budget rest offset scanned out (out, scanned, offset)
  unfolding selected
  scan-stop filter budget rest offset scanned out full = record {
    k = 0;
    within = omega arith;
    events = sym (append-nil out);
    counted = omega arith;
    reached = omega arith;
    stopped = inr full;
    moved = λ p q r. absurd (elim full [ inl h ↦ omega arith | inr h ↦ omega arith ]);
    in_budget = λ p q. (p, q);
  }

  scan-step :
      (filter : HistoryFilter) (budget : QueryBudget) (e : Event T) (rest : List (Event T))
      (offset scanned : ℕ) (out out' : List (Event T)) {r : List (Event T) × ℕ × ℕ}
      → scanned < budget.max_scanned
      → length out < budget.max_results
      → length out' ≤ length out + 1
      → out' ≡ out ++ selected filter (e ∷ [])
      → Scanned filter budget rest (offset + 1) (scanned + 1) out' r
      → Scanned filter budget (e ∷ rest) offset scanned out r
  scan-step filter budget e rest offset scanned out out' p q short grown s = record {
    k = suc s.k;
    within = omega (arith, s.within);
    events =
        s.events
        ∙ ap (λ xs. xs ++ selected filter (take s.k rest)) grown
        ∙ append_assoc out (selected filter (e ∷ [])) (selected filter (take s.k rest))
        ∙ ap (λ xs. out ++ xs) (sym (selected-append filter (e ∷ []) (take s.k rest)));
    counted = omega (arith, s.counted);
    reached = omega (arith, s.reached);
    stopped = elim s.stopped [ inl h ↦ inl (ap suc h) | inr h ↦ inr h ];
    moved = λ a b c. omega arith;
    in_budget = λ a b. s.in_budget (omega arith) (omega arith);
  }

  scan_lem :
      (filter : HistoryFilter) (budget : QueryBudget) (rest : List (Event T)) (offset scanned : ℕ)
      (out : List (Event T))
      → Scanned filter budget rest offset scanned out (scan filter budget rest offset scanned out)
  unfolding scan selected
  scan_lem filter budget [] offset scanned out = record {
    k = 0;
    within = omega arith;
    events = sym (append-nil out);
    counted = omega arith;
    reached = omega arith;
    stopped = inl refl;
    moved = λ p q r. r;
    in_budget = λ p q. (p, q);
  }
  scan_lem filter budget (e ∷ rest) offset scanned out =
      elim (Bool-cases (ltb scanned budget.max_scanned)) [
        | inr over ↦
            rw over
              (scan-stop filter budget (e ∷ rest) offset scanned out (inl (not_ltb→le _ _ over)))
        | inl more ↦ elim (Bool-cases (ltb (length out) budget.max_results)) [
          | inr over ↦
              rw (more, over)
                (scan-stop filter budget (e ∷ rest) offset scanned out (inr (not_ltb→le _ _ over)))
          | inl room ↦
              rw (more, room)
                (scan-step filter budget e rest offset scanned out _ (ltb→lt _ _ more)
                  (ltb→lt _ _ room) (grown-length filter e out) (grown-selected filter e out)
                  (scan_lem filter budget rest (offset + 1) (scanned + 1) _))
        ]
      ]

  -- What `history` asks before it scans: both budgets are positive, the cutoff is on the log's clock,
  -- the cursor belongs to this log and filter, and the allocator grants the page.
  pub record Ready (grant : ℕ → Bool) (filter : HistoryFilter) (budget : QueryBudget)
      (cursor : Option HistoryCursor) (log : EventLog T) (snapshot_len offset : ℕ) : Type 0 where
    pub results : 0 < budget.max_results
    pub scans : 0 < budget.max_scanned
    pub cutoff : check_cutoff filter log ≡ ok tt
    pub resumes : resume_at filter cursor log ≡ ok (snapshot_len, offset)
    pub granted : (n : ℕ) → grant n ≡ true

  -- What a page says of the snapshot: it is about the next `k` events from the offset.
  pub record Page (filter : HistoryFilter) (budget : QueryBudget) (log : EventLog T)
      (snapshot_len offset : ℕ) (page : HistoryPage T) : Type ℓ where
    pub k : ℕ
    pub within : k ≤ length (drop offset (take snapshot_len log.events))
    pub events : page.events ≡ selected filter (take k (drop offset (take snapshot_len log.events)))
    pub scanned : page.scanned ≡ k
    pub moved : 0 < length (drop offset (take snapshot_len log.events)) → 0 < k
    pub in_budget : (page.scanned ≤ budget.max_scanned) × (length page.events ≤ budget.max_results)
    pub continues : page.continuation ≡ (
        if ltb (offset + k) snapshot_len
        then some (record {
          source = log.source;
          epoch = log.epoch;
          snapshot_len = snapshot_len;
          next_offset = offset + k;
          filter = filter;
        })
        else none)

  -- Where the budgets are positive, the cutoff is on the log's clock, the cursor resumes at an offset of
  -- a snapshot and the allocator grants, `history` returns a page of the matching events among the next
  -- `k` of the snapshot, with `k` positive if any is left. The page keeps both budgets, and has a
  -- continuation, to the offset after these `k`, exactly when that is before the snapshot's end.
  pub history_page :
      (grant : ℕ → Bool) (filter : HistoryFilter) (budget : QueryBudget)
      (cursor : Option HistoryCursor) (log : EventLog T) (snapshot_len offset : ℕ)
      → Ready grant filter budget cursor log snapshot_len offset
      → (page : HistoryPage T) × (history grant filter budget cursor log ≡ ok page)
        × Page filter budget log snapshot_len offset page
  unfolding history reserve
  history_page grant filter budget cursor log n offset ready =
      let rest = drop offset (take n log.events) in
      let s = scan_lem filter budget rest offset 0 [] in
      (
        page_of filter log n (scan filter budget rest offset 0 []),
        rw (
          ne→== budget.max_results 0 (omega (arith, ready.results)),
          ne→== budget.max_scanned 0 (omega (arith, ready.scans)),
          ready.cutoff,
          ready.resumes,
          ready.granted,
        ),
        record {
          k = s.k;
          within = s.within;
          events = s.events;
          scanned = omega (arith, s.counted);
          moved = s.moved ready.scans ready.results;
          in_budget = s.in_budget (omega arith) (omega arith);
          continues =
              ap
                (λ o.
                  if ltb o n
                  then some (record {
                    source = log.source;
                    epoch = log.epoch;
                    snapshot_len = n;
                    next_offset = o;
                    filter = filter;
                  })
                  else none)
                s.reached;
        },
      )
