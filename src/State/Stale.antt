-- ===== src/State/Stale.antt =====
-- A handle that has been removed never becomes live again, and no later `insert` returns it.
use temnion.Prelude.{
  false, Bool-cases, panic, get_elem?-total, subst, ok_pair, err≢ok, err≢ok_pair, ◌==◌, ==_iff, ℕ,
  ◌+◌, ◌≤◌, ◌<◌, ◌≡◌, ◌≢◌, refl, ap, sym, ◌∙◌, some, List, [], ◌∷◌, Outcome, ok, err, arith,
  get_elem?, inl, inr, ended, returned, failed, panicked, ltb, length,
}
use temnion.Core.{EntityId}
use temnion.Core.Laws.{entity_eq_iff}
use temnion.State.{
  Slot, StateSlab, StateError, vacant, dense_index, get, insert, remove, get_mut, invalid_entity,
}
use temnion.State.Inv.{IsValid, dense_index-IsLive, dense_index-ne-panic, get-err, live-lt}
use temnion.State.Insert.{Inserted, Origin, grown, reused, insert_cases, insert_inv, get-insert}
use temnion.State.Remove.{shifted, Removed, remove_runs, next_generation, freed}
use temnion.State.Removed.{not_free, get_elem?-freed, remove_refused, Removed-IsValid, last_bounds}
use temnion.State.Refine.{step-Allowed, run_refines}
use temnion.State.Trace.{Op, add, take, write, wrote, Reply, reply, step, run}

-- The slot of `id` has moved on to a later generation, or is out of use for good.
pub data Gone (free : List ℕ) (id : EntityId) (slot : Slot) : Type 0 where
  later : id.generation < slot.generation → Gone free id slot
  exhausted :
      id.generation ≤ slot.generation
      → slot.dense_index ≡ vacant
      → ((k : ℕ) → get_elem? free k ≢ some id.slot)
      → Gone free id slot

unfreed :
    (id : EntityId) (free : List ℕ)
    → ltb (id.generation + 1) 4294967296 ≡ false
    → freed id.generation id.slot free ≡ free
unfreed id free e = rw e

Gone-kept :
    {free free' : List ℕ} {id : EntityId} {slot : Slot}
    → ((k : ℕ) → get_elem? free' k ≡ some id.slot → get_elem? free k ≡ some id.slot)
    → Gone free id slot
    → Gone free' id slot
Gone-kept kept (later h) = later h
Gone-kept kept (exhausted h e n) = exhausted h e (λ k p. n k (kept k p))

-- The slot of another removed handle, where a stale one names it too.
overtaken :
    (id id' : EntityId) (slot : Slot) {d : ℕ} {free free' : List ℕ}
    → slot ≡ record { dense_index = d; generation = id'.generation }
    → d ≢ vacant
    → Gone free id slot
    → Gone free' id (record { dense_index = vacant; generation = next_generation id'.generation })
overtaken id id' slot e live (later h) = later (ground arith)
overtaken id id' slot e live (exhausted h p n) = absurd (ground arith)

shifted-Gone :
    (id : EntityId) (slot : Slot) (last d : ℕ) {free : List ℕ}
    → last < vacant
    → Gone free id slot
    → Gone free id (record slot { dense_index = shifted last d slot.dense_index })
shifted-Gone id slot last d low (later h) = later h
shifted-Gone id slot last d low (exhausted h p n) = exhausted h (ground arith) n

module _ {ℓ} {T : Type ℓ} where
  pub record IsStale (s : StateSlab T) (id : EntityId) : Type 0 where
    pub slot : Slot
    pub there : get_elem? s.slots id.slot ≡ some slot
    pub gone : Gone s.free_slots id slot

  dead_slot :
      (s : StateSlab T) (id : EntityId) (slot : Slot) {free : List ℕ}
      → get_elem? s.slots id.slot ≡ some slot
      → Gone free id slot
      → dense_index id s ≡ err (invalid_entity id)
  unfolding dense_index
  dead_slot s id slot there (later h) = ground arith
  dead_slot s id slot there (exhausted h e n) = ground arith

  pub IsStale-get :
      (s : StateSlab T) (id : EntityId) → IsStale s id → get id s ≡ err (invalid_entity id)
  IsStale-get s id h = get-err id s (dead_slot s id h.slot h.there h.gone)

  kept_free :
      (s : StateSlab T) (id id' : EntityId) (d : ℕ) {value : T} (s' : StateSlab T)
      → Removed s id' d value s'
      → (id'.slot == id.slot) ≡ false
      → (k : ℕ) → get_elem? s'.free_slots k ≡ some id.slot
      → get_elem? s.free_slots k ≡ some id.slot
  kept_free s id id' d s' r other k e =
      ground (arith, r.free, get_elem?-freed id'.generation id'.slot s.free_slots k id.slot)

  -- A removed handle is stale.
  Removed-IsStale :
      (s : StateSlab T) (id : EntityId) (d : ℕ) {value : T} (s' : StateSlab T)
      → IsValid s
      → dense_index id s ≡ ok d
      → Removed s id d value s'
      → IsStale s' id
  Removed-IsStale s id d s' v live r = record {
    slot = record { dense_index = vacant; generation = next_generation id.generation };
    there = ground (arith, r.slots id.slot);
    gone = elim (Bool-cases (ltb (id.generation + 1) 4294967296)) [
      | inl next ↦ later (ground arith)
      | inr last ↦ exhausted (ground arith) refl λ k e. not_free s v id d live s' r k (
          rw (ap (λ (free : List ℕ). get_elem? free k) (r.free ∙ unfreed id s.free_slots last)) at
            e)
    ];
  }

  -- The slot that `insert` writes, where a stale handle names it.
  rewritten :
      (s : StateSlab T) (id id' : EntityId) (slot : Slot) (free : List ℕ) (d : ℕ)
      → id'.slot ≡ id.slot
      → get_elem? s.slots id.slot ≡ some slot
      → Gone s.free_slots id slot
      → Origin s id'.slot (some (record { dense_index = vacant; generation = id'.generation }))
      → Gone free id (record { dense_index = d; generation = id'.generation })
  rewritten s id id' slot free d same there g (grown e) = absurd (ground (arith, there))
  rewritten s id id' slot free d same there (later h) (reused k e p) = later (ground (arith, there))
  rewritten s id id' slot free d same there (exhausted h e n) (reused k q p) =
      absurd (n k (q ∙ ap some same))

  Inserted-IsStale :
      (s : StateSlab T) (id : EntityId) {value : T} {id' : EntityId} {s' : StateSlab T}
      → Inserted s value id' s'
      → IsStale s id
      → IsStale s' id
  Inserted-IsStale s id {id' = id'} {s'} done h = elim (Bool-cases (id'.slot == id.slot)) [
    | inl same ↦ record {
      slot = record { dense_index = length s.values; generation = id'.generation };
      there = ground (arith, done.slots id.slot);
      gone =
          rewritten s id id' h.slot s'.free_slots (length s.values) ((==_iff _ _).0 same) h.there
            h.gone done.origin;
    }
    | inr other ↦ record {
      slot = h.slot;
      there = ground (arith, done.slots id.slot, h.there);
      gone = Gone-kept (λ k e. done.free_kept k id.slot e) h.gone;
    }
  ]

  Removed-keeps_IsStale :
      (s : StateSlab T) (id id' : EntityId) (d : ℕ) {value : T} (s' : StateSlab T)
      → IsValid s
      → dense_index id' s ≡ ok d
      → Removed s id' d value s'
      → IsStale s id
      → IsStale s' id
  Removed-keeps_IsStale s id id' d s' v live r h =
      let l = dense_index-IsLive id' s live in
      elim (Bool-cases (id'.slot == id.slot)) [
        | inl same ↦ record {
          slot = record { dense_index = vacant; generation = next_generation id'.generation };
          there = ground (arith, r.slots id.slot);
          gone = overtaken id id' h.slot (ground (arith, h.there)) l.occupied h.gone;
        }
        | inr other ↦ record {
          slot = record h.slot {
            dense_index = shifted (length s'.dense_slots) d h.slot.dense_index;
          };
          there = ground (arith, r.slots id.slot, h.there);
          gone =
              Gone-kept (λ k e. kept_free s id id' d s' r other k e)
                (shifted-Gone id h.slot (length s'.dense_slots) d
                  (last_bounds s v id' d live s' r).0 h.gone);
        }
      ]

  write-IsStale :
      (s : StateSlab T) (id id' : EntityId) (f : T → T)
      → IsValid s
      → IsStale s id
      → IsStale (get_mut id' f s).1 id
  unfolding get_mut
  write-IsStale s id id' f v h = elim (ended (dense_index id' s)) [
    | returned d live ↦
        let (value, found) = get_elem?-total s.values d (live-lt id' v live) in
        rw (live, found) (record { slot = h.slot; there = h.there; gone = h.gone })
    | failed e p ↦ rw p h
    | panicked p ↦ absurd (dense_index-ne-panic id' s p)
  ]

  reply-slab {κ} :
      {A : Type κ} (f : A → Reply T) (r : Outcome StateError A) (s : StateSlab T)
      → (reply f (r, s)).1 ≡ s
  reply-slab f (ok a) s = refl
  reply-slab f (err e) s = refl
  reply-slab f panic s = refl

  step-IsStale :
      (op : Op T) (s : StateSlab T) (id : EntityId)
      → IsValid s
      → IsStale s id
      → IsStale (step op s).1 id
  unfolding step
  step-IsStale (add value) s id v h = elim (insert_cases s value v) [
    | inl (full, e) ↦ rw e h
    | inr (id', s', e, done) ↦ rw e (Inserted-IsStale s id done h)
  ]
  step-IsStale (take id') s id v h = elim (ended (dense_index id' s)) [
    | returned d live ↦
        let (value, s', e, r) = remove_runs s id' v live in
        rw e (Removed-keeps_IsStale s id id' d s' v live r h)
    | failed f p ↦ rw (remove_refused s id' p) h
    | panicked p ↦ absurd (dense_index-ne-panic id' s p)
  ]
  step-IsStale (write id' f) s id v h =
      subst (λ t. IsStale t id)
        (sym (reply-slab (λ _. wrote) (get_mut id' f s).0 (get_mut id' f s).1))
        (write-IsStale s id id' f v h)

  run-IsStale :
      (ops : List (Op T)) (s : StateSlab T) (id : EntityId)
      → IsValid s
      → IsStale s id
      → IsStale (run s ops).1 id
  unfolding run
  run-IsStale [] s id v h = h
  run-IsStale (op ∷ ops) s id v h =
      run-IsStale ops (step op s).1 id (step-Allowed op s v).1 (step-IsStale op s id v h)

  remove-IsStale :
      (s : StateSlab T) (id : EntityId) {value : T} {s' : StateSlab T}
      → IsValid s
      → remove id s ≡ (ok value, s')
      → IsValid s' × IsStale s' id
  remove-IsStale s id v e = elim (ended (dense_index id s)) [
    | returned d live ↦
        let (value, t, p, r) = remove_runs s id v live in
        let (_, same) = ok_pair (sym p ∙ e) in
        subst (λ u. IsValid u × IsStale u id) same
          (Removed-IsValid s v id d live t r, Removed-IsStale s id d t v live r)
    | failed f p ↦ absurd (err≢ok_pair (sym (remove_refused s id p) ∙ e))
    | panicked p ↦ absurd (dense_index-ne-panic id s p)
  ]

  -- A handle that a successful `insert` returns is not stale before it.
  fresh_is_other :
      (s : StateSlab T) (id id' : EntityId) (value : T) {s' : StateSlab T}
      → IsValid s
      → IsStale s id
      → insert value s ≡ (ok id', s')
      → id' ≢ id
  fresh_is_other s id id' value {s'} v h e same =
      let stale = IsStale-get s' id (Inserted-IsStale s id (insert_inv s value v e) h) in
      let live : get id' s' ≡ ok value =
        rw ((entity_eq_iff id' id').1 refl) at (get-insert s value v e id') in
      err≢ok (sym (rw (← same) at stale) ∙ live)

  -- On a valid slab, once `remove` has returned a value for the handle `id`, then after any sequence of
  -- calls `get` refuses `id`, and a further `insert` that succeeds returns another handle.
  pub removed_for_good :
      (s : StateSlab T) (id : EntityId) {value : T} {s' : StateSlab T} (ops : List (Op T))
      → IsValid s
      → remove id s ≡ (ok value, s')
      → (get id (run s' ops).1 ≡ err (invalid_entity id))
        × ((fresh : T) (new_id : EntityId) (s'' : StateSlab T)
            → insert fresh (run s' ops).1 ≡ (ok new_id, s'')
            → new_id ≢ id)
  removed_for_good s id {s' = s'} ops v e =
      let (valid, h) = remove-IsStale s id v e in
      let last = run-IsStale ops s' id valid h in
      (
        IsStale-get (run s' ops).1 id last,
        λ fresh new_id s'' p.
            fresh_is_other (run s' ops).1 id new_id fresh (run_refines ops s' valid).1 last p,
      )
