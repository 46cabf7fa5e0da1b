-- ===== src/State/Fill.antt =====
-- The two halves of `StateSlab::insert`: the slab between them, and what filling a taken slot does.
use temnion.Prelude.{
  ℕ, ◌+◌, ◌≤◌, ◌<◌, ◌≡◌, ◌≢◌, ap, some, List, [], ◌∷◌, ◌++◌, ok, err, arith, length, get_elem?, set,
  as_u32, length-push, length-set, get_elem?-push, get_elem?-push_self, get_elem?-set, get_elem?-ge,
  lt-length, get_elem?-push_lt, ◌∙◌, if◌then◌else◌,
}
use temnion.Core.{EntityId, entity_eq}
use temnion.State.{Slot, StateSlab, vacant, invalid_entity, fill_slot, dense_index}
use temnion.State.Inv.{IsValid, dense_of}

pub dense_of-lt : (slots : List Slot) (i : ℕ) {d : ℕ} → dense_of slots i ≡ some d → i < length slots
dense_of-lt slots i e = ground (arith, get_elem?-ge slots i)

module _ {ℓ} {T : Type ℓ} where
  -- No slot is free, and there is no room for a new one.
  abbrev pub IsFull : StateSlab T → Type 0
  IsFull s = (s.free_slots ≡ []) × (length s.slots ≡ s.capacity)

  -- The slab between the two halves of `insert`: the slot `i` is vacant and no longer free.
  pub record IsTaken (s : StateSlab T) (i : ℕ) : Type 0 where
    pub valid : IsValid s
    pub empty : dense_of s.slots i ≡ some vacant
    pub taken : (k : ℕ) → get_elem? s.free_slots k ≢ some i
    pub room : length s.dense_slots + length s.free_slots + 1 ≤ length s.slots

  pub reuse-top :
      (s : StateSlab T) (i : ℕ) (rest : List ℕ)
      → s.free_slots ≡ rest ++ i ∷ []
      → get_elem? s.free_slots (length rest) ≡ some i
  reuse-top s i rest e =
      ap (λ (xs : List ℕ). get_elem? xs (length rest)) e ∙ get_elem?-push_self rest i

  pub reuse-not-IsFull :
      (s : StateSlab T) (i : ℕ) (rest : List ℕ) → s.free_slots ≡ rest ++ i ∷ [] → ¬ IsFull s
  reuse-not-IsFull s i rest e (none_free, at_end) =
      omega (arith, ap length e, ap length none_free, length-push rest i)

  pub reuse-kept :
      (s : StateSlab T) (i : ℕ) (rest : List ℕ)
      → s.free_slots ≡ rest ++ i ∷ []
      → (k j : ℕ) → get_elem? rest k ≡ some j
      → get_elem? s.free_slots k ≡ some j
  reuse-kept s i rest e k j h =
      ap (λ (xs : List ℕ). get_elem? xs k) e ∙ get_elem?-push_lt rest i k (lt-length rest k h) ∙ h

  -- A freed slot, taken off the stack.
  pub reuse-IsTaken :
      (s : StateSlab T) (i : ℕ) (rest : List ℕ)
      → IsValid s
      → s.free_slots ≡ rest ++ i ∷ []
      → IsTaken (record s { free_slots = rest }) i
  reuse-IsTaken s i rest v e =
      let size = length-push rest i in
      let freed = ap length e in
      let top = reuse-top s i rest e in
      let kept = reuse-kept s i rest e in
      record {
        valid = record {
          small = v.small;
          fits = v.fits;
          paired = v.paired;
          counted = omega (arith, v.counted);
          dense_linked = v.dense_linked;
          slot_linked = v.slot_linked;
          free_vacant = λ k j h. v.free_vacant k j (kept k j h);
          free_once = λ j k m p q. v.free_once j k m (kept j m p) (kept k m q);
          generations = v.generations;
        };
        empty = v.free_vacant (length rest) i top;
        taken = λ k h.
            omega (arith, lt-length rest k h, v.free_once k (length rest) i (kept k i h) top);
        room = omega (arith, v.counted);
      }

  -- A new slot at the end of the directory.
  pub grow-IsTaken :
      (s : StateSlab T)
      → IsValid s
      → length s.slots < s.capacity
      → IsTaken
          (record s { slots = s.slots ++ record { dense_index = vacant; generation = 0 } ∷ [] })
          (length s.slots)
  grow-IsTaken s v h =
      let fresh_slot : Slot = record { dense_index = vacant; generation = 0 } in
      let at = get_elem?-push s.slots fresh_slot in
      let past = get_elem?-ge s.slots in
      let size = length-push s.slots fresh_slot in
      record {
        valid = record {
          small = v.small;
          fits = omega (arith, size);
          paired = v.paired;
          counted = omega (arith, v.counted, size);
          dense_linked = λ d i p. ground (arith, v.dense_linked d i, at i, past i);
          slot_linked = λ i d p q. ground (arith, v.slot_linked i d, at i);
          free_vacant = λ k i p. ground (arith, v.free_vacant k i, at i, past i);
          free_once = v.free_once;
          generations = λ i g p. ground (arith, v.generations i g, at i);
        };
        empty = ground (arith, at (length s.slots));
        taken = λ k p. ground (arith, v.free_vacant k (length s.slots), past (length s.slots));
        room = omega (arith, v.counted, size);
      }

  -- The slab after the second half, at the taken slot.
  abbrev pub filled : StateSlab T → ℕ → Slot → T → StateSlab T
  filled s i slot value = record s {
    slots = set s.slots i (record slot { dense_index = as_u32 (length s.values) });
    values = s.values ++ value ∷ [];
    dense_slots = s.dense_slots ++ i ∷ [];
  }

  module _ (s : StateSlab T) (i : ℕ) (slot : Slot) (value : T) (t : IsTaken s i)
      (there : get_elem? s.slots i ≡ some slot) where
    pub vacant_slot : slot.dense_index ≡ vacant
    vacant_slot = let e = t.empty in ground arith

    in_slots : i < length s.slots
    in_slots = lt-length s.slots i there

    -- The new dense index is not cut off by `as u32`, and is not `VACANT`.
    dense_room : (as_u32 (length s.values) ≡ length s.dense_slots) × (length s.dense_slots < vacant)
    dense_room =
        let v = t.valid in
        let r = t.room in
        (omega (arith, v.paired, v.fits, v.small), omega (arith, v.paired, v.fits, v.small))

    pub filled-IsValid : IsValid (filled s i slot value)
    filled-IsValid =
        let v = t.valid in
        let r = t.room in
        let (narrow, low) = dense_room in
        let lim = in_slots in
        let e = t.empty in
        let new_slot : Slot = record slot { dense_index = as_u32 (length s.values) } in
        let at = λ (j : ℕ). get_elem?-set s.slots i new_slot j lim in
        let dense_at = get_elem?-push s.dense_slots i in
        record {
          small = v.small;
          fits = omega (arith, v.fits, length-set s.slots i new_slot);
          paired = omega (arith, v.paired, length-push s.values value, length-push s.dense_slots i);
          counted = omega (arith, length-push s.dense_slots i, length-set s.slots i new_slot);
          dense_linked = λ d j p.
              ground (arith, v.dense_linked d j, at j, dense_at d, get_elem?-ge s.dense_slots d);
          slot_linked = λ j d p q.
              ground (
                arith,
                v.slot_linked j d,
                at j,
                dense_at d,
                v.paired,
                get_elem?-ge s.dense_slots d,
              );
          free_vacant = λ k j p. ground (arith, v.free_vacant k j, at j, t.taken k);
          free_once = v.free_once;
          generations = λ j g p. ground (arith, v.generations j g, at j);
        }

    -- The handle that `insert` returns.
    abbrev pub handle : EntityId
    handle = record { shard = s.shard; slot = i; generation = slot.generation }

    pub dense_index-filled :
        (id : EntityId)
        → dense_index id (filled s i slot value)
          ≡ (if entity_eq handle id then ok (length s.values) else dense_index id s)
    unfolding dense_index
    dense_index-filled id =
        let new_slot : Slot = record slot { dense_index = as_u32 (length s.values) } in
        ground (
          arith,
          get_elem?-set s.slots i new_slot id.slot in_slots,
          there,
          vacant_slot,
          dense_room,
          t.valid.paired,
        )

    pub handle_dead : dense_index handle s ≡ err (invalid_entity handle)
    unfolding dense_index
    handle_dead = ground (arith, there, vacant_slot)

    pub fill_slot-runs : fill_slot i value s ≡ (ok handle, filled s i slot value)
    unfolding fill_slot
    fill_slot-runs = rw (there, fill_slot)
