-- ===== src/Events/Get.antt =====
-- `EventLog::get`: an event is found under its own identity, before and after a batch.
use temnion.Prelude.{
  ℕ, zero, suc, ◌+◌, ◌≤◌, ◌≡◌, ◌↔◌, ap, sym, ◌∙◌, not, ◌||◌, ◌==◌, some, List, [], ◌∷◌, ok, arith,
  length, get_elem?, get_elem?-append_left, get_elem?-append_right, lt-length, Option-cases,
  Bool-cases, inl, inr, as_u64, ==-self, ok_injective, err≢ok, err≢ok_pair, ok_pair, some≢none,
  some-injective, subst, ap₂, ◌-◌,
}
use temnion.Core.{EventId}
use temnion.Events.{EventInput, Event, EventLog, VolatileReceipt, get, append_batch, stamp, id_at}
use temnion.Events.Append.{IsValid, id_of}
use temnion.Events.Batch.{stamped_from, pushed_all, append_batch_cases, append_batch-empty}

module _ {ℓ} {T : Type ℓ} where
  -- An identity of the log itself.
  abbrev own : EventLog T → ℕ → EventId
  own log k = record { source = log.source; epoch = log.epoch; sequence = k }

  get-own :
      (log : EventLog T) (k : ℕ) {e : Event T}
      → get_elem? log.events k ≡ some e
      → get (own log k) log ≡ ok e
  unfolding get
  get-own log k p = rw (==-self log.source, ==-self log.epoch, p)

  get_inv :
      (log : EventLog T) (id : EventId) {e : Event T}
      → get id log ≡ ok e
      → (get_elem? log.events id.sequence ≡ some e) × (id ≡ own log id.sequence)
  unfolding get
  get_inv log id h =
      elim (Bool-cases (not (id.source == log.source) || not (id.epoch == log.epoch))) [
        | inl foreign ↦ absurd (err≢ok (rw foreign at h))
        | inr own_id ↦ elim (Option-cases (get_elem? log.events id.sequence)) [
          | inl p ↦ absurd (err≢ok (rw (own_id, p) at h))
          | inr (e, p) ↦ (p ∙ ap some (ok_injective (rw (own_id, p) at h)), ground arith)
        ]
      ]

  stamped_at :
      (log : EventLog T) (k : ℕ) {e : Event T}
      → IsValid log
      → get_elem? log.events k ≡ some e
      → e.id ≡ own log k
  stamped_at log k {e} v p = v.stamped k e.id (ap id_of p)

  -- On a valid log `get` returns an event for an identity exactly when the log holds that event, and
  -- the event then bears that identity.
  pub get_iff :
      (log : EventLog T) (id : EventId) (e : Event T)
      → IsValid log
      → (get id log ≡ ok e) ↔ ((k : ℕ) × (get_elem? log.events k ≡ some e) × (e.id ≡ id))
  get_iff log id e v = (
    λ h.
        let (p, same) = get_inv log id h in
        (id.sequence, p, stamped_at log id.sequence v p ∙ sym same),
    λ (k, p, same).
        subst (λ i. get i log ≡ ok e) (sym (stamped_at log k v p) ∙ same) (get-own log k p),
  )

  stamped_from-at :
      (log : EventLog T) (batch : List (EventInput T)) (i k : ℕ) {input : EventInput T}
      → get_elem? batch k ≡ some input
      → get_elem? (stamped_from log i batch) k ≡ some (stamp (id_at log (i + k)) input)
  stamped_from-at log [] i k p = absurd (some≢none (sym p))
  stamped_from-at log (x ∷ batch) i zero p =
      ap₂ (λ y n. some (stamp (id_at log n) y)) (some-injective _ _ p) (omega arith)
  stamped_from-at log (x ∷ batch) i (suc k) {input} p =
      stamped_from-at log batch (i + 1) k p
      ∙ ap (λ n. some (stamp (id_at log n) input)) (omega arith)

  get-pushed_all :
      (log : EventLog T) (batch : List (EventInput T)) (k : ℕ) {input : EventInput T}
      → IsValid log
      → length batch ≤ log.capacity - length log.events
      → get_elem? batch k ≡ some input
      → get (own log (as_u64 (length log.events) + k)) (pushed_all log batch)
        ≡ ok (stamp (own log (as_u64 (length log.events) + k)) input)
  get-pushed_all log batch k {input} v room p =
      let inside = lt-length batch k p in
      let narrow : as_u64 (length log.events) ≡ length log.events = omega (arith, v.word, v.fits) in
      let wide : as_u64 (length log.events + k) ≡ length log.events + k =
        omega (arith, v.word, v.fits) in
      rw narrow (
        get-own (pushed_all log batch) (length log.events + k) (
          get_elem?-append_right log.events _ k ∙ stamped_from-at log batch (length log.events) k p)
        ∙ ap (λ n. ok (stamp (own log n) input)) wide)

  get-kept :
      (log : EventLog T) (batch : List (EventInput T)) (id : EventId) {e : Event T}
      → get id log ≡ ok e
      → get id (pushed_all log batch) ≡ ok e
  get-kept log batch id {e} h =
      let (p, same) = get_inv log id h in
      subst (λ i. get i (pushed_all log batch) ≡ ok e) (sym same)
        (get-own (pushed_all log batch) id.sequence
          (get_elem?-append_left log.events _ id.sequence (lt-length log.events id.sequence p) ∙ p))

  -- Once `append_batch` has accepted a batch on a valid log, `get` returns the batch's input `k`,
  -- stamped, for the identity `k` after the first one of the receipt, and every event that it
  -- returned before.
  pub get-append_batch :
      (log : EventLog T) (batch : List (EventInput T)) {r : VolatileReceipt} {log' : EventLog T}
      → IsValid log
      → append_batch batch log ≡ (ok r, log')
      → ((k : ℕ) (input : EventInput T)
          → get_elem? batch k ≡ some input
          → get (record r.first { sequence = r.first.sequence + k }) log'
            ≡ ok (stamp (record r.first { sequence = r.first.sequence + k }) input))
        × ((id : EventId) (e : Event T) → get id log ≡ ok e → get id log' ≡ ok e)
  get-append_batch log [] v e = absurd (err≢ok_pair (sym (append_batch-empty log) ∙ e))
  get-append_batch log (input ∷ rest) v e = elim (append_batch_cases log input rest) [
    | inl (a, p) ↦
        let (same_receipt, same_log) = ok_pair (sym p ∙ e) in
        rw (← same_receipt, ← same_log)
          (
            λ k x q. get-pushed_all log (input ∷ rest) k v a.room q,
            λ id x q. get-kept log (input ∷ rest) id q,
          )
    | inr (no_room, (f, p)) ↦ absurd (err≢ok_pair (sym p ∙ e))
  ]
