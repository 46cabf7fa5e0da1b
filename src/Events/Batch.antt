-- ===== src/Events/Batch.antt =====
-- `append_batch`: all or nothing, and the same as appending one by one.
use temnion.Prelude.{
  ℕ, suc, ◌+◌, ◌-◌, ◌≤◌, ◌<◌, ◌≡◌, ◌≢◌, ◌⊎◌, ◌↔◌, refl, ap, sym, ◌∙◌, Option, none, some, List, [],
  ◌∷◌, ◌++◌, append-nil, append_assoc, ok, err, panic, arith, length, length-append, length-push,
  and_then-ok, Exec, ◌>>=◌, pure, Bool-cases, inl, inr, ltb, not_lt→ltb, not_ltb→le, ltb→lt, err≢ok,
  last-push, ended, returned, failed, panicked, ok_pair, err≢ok_pair,
}
use temnion.Core.{Timestamp}
use temnion.Events.{
  EventInput, Event, EventLog, EventError, VolatileReceipt, check_known_time, check_capacity,
  check_batch, push_validated, push_all, append, append_batch, stamp, id_at, last_known,
  remaining_capacity, capacity_exceeded, empty_batch,
}
use temnion.Events.Append.{IsValid, pushed, pushed-IsValid, last_known-push}

module _ {ℓ} {T : Type ℓ} where
  -- The events that a batch becomes, from the sequence number `i` on.
  abbrev pub stamped_from : EventLog T → ℕ → List (EventInput T) → List (Event T)
  stamped_from log i [] = []
  stamped_from log i (input ∷ batch) = stamp (id_at log i) input ∷ stamped_from log (i + 1) batch

  abbrev pub pushed_all : EventLog T → List (EventInput T) → EventLog T
  pushed_all log batch = record log {
    events = log.events ++ stamped_from log (length log.events) batch;
  }

  -- What `append_batch` asks of the log before it pushes.
  pub record Admits (log : EventLog T) (batch : List (EventInput T)) : Type 0 where
    pub room : length batch ≤ remaining_capacity log
    pub in_order : check_batch (last_known log.events) batch ≡ ok tt

  pushed-pushed_all :
      (log : EventLog T) (input : EventInput T) (batch : List (EventInput T))
      → pushed_all (pushed log input) batch ≡ pushed_all log (input ∷ batch)
  pushed-pushed_all log input batch =
      let e = stamp (id_at log (length log.events)) input in
      ap (λ (xs : List (Event T)). record log { events = xs })
        (append_assoc log.events (e ∷ []) (stamped_from log (length (log.events ++ e ∷ [])) batch)
          ∙ ap (λ n. log.events ++ e ∷ stamped_from log n batch) (length-push log.events e))

  push_all-runs :
      (batch : List (EventInput T)) (log : EventLog T)
      → push_all batch log ≡ (ok tt, pushed_all log batch)
  unfolding push_all push_validated
  push_all-runs [] log = rw append-nil
  push_all-runs (input ∷ batch) log =
      push_all-runs batch (pushed log input)
      ∙ ap (λ t. (ok tt, t)) (pushed-pushed_all log input batch)

  check_batch-cons :
      (log : EventLog T) (input : EventInput T) (batch : List (EventInput T))
      → Admits log (input ∷ batch)
      → (check_known_time (last_known log.events) input.times.known ≡ ok tt)
        × Admits (pushed log input) batch
  unfolding check_batch
  check_batch-cons log input batch a =
      let (u, fine, rest) = and_then-ok _ _ a.in_order in
      let e = stamp (id_at log (length log.events)) input in
      (
        fine,
        record {
          room = omega (arith, a.room, length-push log.events e);
          in_order = rw (last_known-push log.events e) rest;
        },
      )

  Admits-cons :
      (log : EventLog T) (input : EventInput T) (batch : List (EventInput T))
      → length log.events < log.capacity
      → check_known_time (last_known log.events) input.times.known ≡ ok tt
      → Admits (pushed log input) batch
      → Admits log (input ∷ batch)
  unfolding check_batch
  Admits-cons log input batch room fine a =
      let e = stamp (id_at log (length log.events)) input in
      record {
        room = omega (arith, a.room, length-push log.events e);
        in_order = rw fine (rw (last_known-push log.events e) at a.in_order);
      }

  -- The log that a batch leaves is valid if the log admits the batch.
  pub pushed_all-IsValid :
      (batch : List (EventInput T)) (log : EventLog T)
      → IsValid log
      → Admits log batch
      → IsValid (pushed_all log batch)
  pushed_all-IsValid [] log v a = rw append-nil v
  pushed_all-IsValid (input ∷ batch) log v a =
      let (fine, rest) = check_batch-cons log input batch a in
      rw (← pushed-pushed_all log input batch) (
        pushed_all-IsValid batch (pushed log input)
          (pushed-IsValid log input v (omega (arith, a.room)) fine) rest)

  length-stamped_from :
      (log : EventLog T) (i : ℕ) (batch : List (EventInput T))
      → length (stamped_from log i batch) ≡ length batch
  length-stamped_from log i [] = refl
  length-stamped_from log i (input ∷ batch) = ap suc (length-stamped_from log (i + 1) batch)

  -- The receipt of a batch of `n` inputs pushed on the log.
  abbrev pub receipt : EventLog T → ℕ → VolatileReceipt
  receipt log n = record {
    first = id_at log (length log.events);
    last = id_at log (length log.events + n - 1);
    count = n;
  }

  check_capacity-ok :
      (n : ℕ) (log : EventLog T) → n ≤ remaining_capacity log → check_capacity n log ≡ ok tt
  unfolding check_capacity
  check_capacity-ok n log h = rw (not_lt→ltb (remaining_capacity log) n (omega arith))

  check_batch-ne-panic :
      (previous : Option Timestamp) (batch : List (EventInput T))
      → check_batch previous batch ≢ panic
  unfolding check_batch check_known_time
  check_batch-ne-panic previous [] e = cc
  check_batch-ne-panic none (input ∷ batch) e =
      check_batch-ne-panic (some input.times.known) batch e
  check_batch-ne-panic (some previous) (input ∷ batch) e =
      ground (arith, check_batch-ne-panic (some input.times.known) batch)

  append_batch-runs :
      (log : EventLog T) (input : EventInput T) (rest : List (EventInput T))
      → Admits log (input ∷ rest)
      → append_batch (input ∷ rest) log
        ≡ (ok (receipt log (length (input ∷ rest))), pushed_all log (input ∷ rest))
  unfolding append_batch
  append_batch-runs log input rest a = rw (
    check_capacity-ok (length (input ∷ rest)) log a.room,
    a.in_order,
    push_all-runs (input ∷ rest) log,
    length-append log.events (stamped_from log (length log.events) (input ∷ rest)),
    length-stamped_from log (length log.events + 1) rest,
  )

  pub append_batch-empty : (log : EventLog T) → append_batch [] log ≡ (err empty_batch, log)
  unfolding append_batch
  append_batch-empty log = refl

  -- `append_batch` of a batch with inputs either pushes all of them and returns the receipt of their
  -- range of sequence numbers, when the log admits the batch, or refuses and leaves the log as it was,
  -- when the log does not admit it.
  pub append_batch_cases :
      (log : EventLog T) (input : EventInput T) (rest : List (EventInput T))
      → (Admits log (input ∷ rest)
          × (append_batch (input ∷ rest) log
              ≡ (ok (receipt log (length (input ∷ rest))), pushed_all log (input ∷ rest))))
        ⊎ ((¬ Admits log (input ∷ rest))
            × ((e : EventError) × (append_batch (input ∷ rest) log ≡ (err e, log))))
  append_batch_cases log input rest =
      elim (Bool-cases (ltb (remaining_capacity log) (length (input ∷ rest)))) [
        | inl over ↦ inr (
          λ a. absurd (omega (arith, a.room, ltb→lt _ _ over)),
          (
            capacity_exceeded (remaining_capacity log) (length (input ∷ rest)),
            unfold append_batch check_capacity in rw over,
          ),
        )
        | inr fits ↦
            let room : length (input ∷ rest) ≤ remaining_capacity log = not_ltb→le _ _ fits in
            elim (ended (check_batch (last_known log.events) (input ∷ rest))) [
              | returned u e ↦
                  let a : Admits log (input ∷ rest) = record { room = room; in_order = e } in
                  inl (a, append_batch-runs log input rest a)
              | failed f e ↦ inr (
                λ a. err≢ok (sym e ∙ a.in_order),
                (
                  f,
                  unfold append_batch in rw (check_capacity-ok (length (input ∷ rest)) log room, e),
                ),
              )
              | panicked e ↦ absurd (check_batch-ne-panic (last_known log.events) (input ∷ rest) e)
            ]
      ]

  -- `append` is `append_batch` of one input.
  pub append-eq-append_batch :
      (input : EventInput T) (log : EventLog T) → append input log ≡ append_batch (input ∷ []) log
  unfolding append append_batch check_batch push_all push_validated
  append-eq-append_batch input log = elim (ended (check_capacity 1 log)) [
    | returned u p ↦ elim (ended (check_known_time (last_known log.events) input.times.known)) [
      | returned w q ↦ rw (p, q, last-push log.events (stamp (id_at log (length log.events)) input))
      | failed f q ↦ rw (p, q)
      | panicked q ↦ rw (p, q)
    ]
    | failed f p ↦ rw p
    | panicked p ↦ rw p
  ]

  -- The inputs appended one by one, up to the first refusal.
  pub append_each : List (EventInput T) → Exec (EventLog T) EventError (Unit {0})
  append_each [] = pure tt
  append_each (input ∷ batch) = do _ ← append input; append_each batch

  append-runs :
      (log : EventLog T) (input : EventInput T) (batch : List (EventInput T))
      → Admits log (input ∷ batch)
      → (append input log ≡ (ok (receipt log 1), pushed log input))
        × Admits (pushed log input) batch
  append-runs log input batch a =
      let (fine, rest) = check_batch-cons log input batch a in
      let one =
        Admits-cons log input [] (omega (arith, a.room)) fine
          (record { room = omega arith; in_order = unfold check_batch in refl }) in
      (append-eq-append_batch input log ∙ append_batch-runs log input [] one, rest)

  append_each-runs :
      (batch : List (EventInput T)) (log : EventLog T)
      → Admits log batch
      → append_each batch log ≡ (ok tt, pushed_all log batch)
  unfolding append_each
  append_each-runs [] log a = rw append-nil
  append_each-runs (input ∷ batch) log a =
      let (e, rest) = append-runs log input batch a in
      rw e (
        append_each-runs batch (pushed log input) rest
        ∙ ap (λ t. (ok tt, t)) (pushed-pushed_all log input batch))

  append_each-Admits :
      (batch : List (EventInput T)) (log : EventLog T) {log' : EventLog T}
      → append_each batch log ≡ (ok tt, log')
      → Admits log batch
  unfolding append_each
  append_each-Admits [] log e = record { room = omega arith; in_order = unfold check_batch in refl }
  append_each-Admits (input ∷ batch) log e = elim (append_batch_cases log input []) [
    | inl (one, p) ↦
        let (fine, _) = check_batch-cons log input [] one in
        Admits-cons log input batch (omega (arith, one.room)) fine (
          append_each-Admits batch (pushed log input)
            (rw (append-eq-append_batch input log, p) at e))
    | inr (no_room, (f, p)) ↦ absurd (err≢ok_pair (rw (append-eq-append_batch input log, p) at e))
  ]

  -- A batch with inputs is accepted by `append_batch`, leaving a log, exactly when its inputs appended
  -- one by one are all accepted, leaving that log.
  pub append_batch_iff_each :
      (input : EventInput T) (rest : List (EventInput T)) (log log' : EventLog T)
      → ((r : VolatileReceipt) × (append_batch (input ∷ rest) log ≡ (ok r, log')))
        ↔ (append_each (input ∷ rest) log ≡ (ok tt, log'))
  append_batch_iff_each input rest log log' = (to, from)
    where
      to :
          (r : VolatileReceipt) × (append_batch (input ∷ rest) log ≡ (ok r, log'))
          → append_each (input ∷ rest) log ≡ (ok tt, log')
      to (r, e) = elim (append_batch_cases log input rest) [
        | inl (a, p) ↦
            append_each-runs (input ∷ rest) log a ∙ ap (λ t. (ok tt, t)) (ok_pair (sym p ∙ e)).1
        | inr (no_room, (f, p)) ↦ absurd (err≢ok_pair (sym p ∙ e))
      ]

      from :
          append_each (input ∷ rest) log ≡ (ok tt, log')
          → (r : VolatileReceipt) × (append_batch (input ∷ rest) log ≡ (ok r, log'))
      from e =
          let a = append_each-Admits (input ∷ rest) log e in
          let same = (ok_pair (sym (append_each-runs (input ∷ rest) log a) ∙ e)).1 in
          (
            receipt log (length (input ∷ rest)),
            append_batch-runs log input rest a
                ∙ ap (λ t. (ok (receipt log (length (input ∷ rest))), t)) same,
          )

  -- `append_batch` keeps a valid log valid, whatever it returns.
  pub append_batch-IsValid :
      (batch : List (EventInput T)) (log : EventLog T)
      → IsValid log
      → IsValid (append_batch batch log).1
  append_batch-IsValid [] log v = unfold append_batch in v
  append_batch-IsValid (input ∷ rest) log v = elim (append_batch_cases log input rest) [
    | inl (a, p) ↦ rw p (pushed_all-IsValid (input ∷ rest) log v a)
    | inr (no_room, (f, p)) ↦ rw p v
  ]
