-- ===== src/State/Inv.antt =====
-- The representation invariant of the slab, and what a live handle says of it.
use temnion.Prelude.{
  ℕ, ◌+◌, ◌≤◌, ◌<◌, ◌≡◌, ◌≢◌, refl, false, Option, none, some, List, [], ◌⊎◌, ap, ended, returned,
  failed, panicked, Bool-cases, err≢ok, not_ltb→le, subst, sym, ok, err, panic, arith, length,
  get_elem?, u32_max, ltb, lt-length, get_elem?-total, inl, inr, Bool,
}
use temnion.Core.{ShardId, EntityId}
use temnion.State.{
  StateError, invalid_entity, Slot, StateSlab, vacant, Buffer, new, dense_index, get,
}

-- The dense index that a slot holds.
abbrev pub dense_of : List Slot → ℕ → Option ℕ
dense_of slots i = elim (get_elem? slots i) [ none ↦ none | some slot ↦ some slot.dense_index ]

abbrev pub generation_of : List Slot → ℕ → Option ℕ
generation_of slots i = elim (get_elem? slots i) [ none ↦ none | some slot ↦ some slot.generation ]

module _ {ℓ} {T : Type ℓ} where
  -- The dense entries and the occupied slots point at each other, and every freed slot is vacant
  -- and freed once.
  pub record IsValid (s : StateSlab T) : Type 0 where
    pub small : s.capacity ≤ u32_max
    pub fits : length s.slots ≤ s.capacity
    pub paired : length s.values ≡ length s.dense_slots
    pub counted : length s.dense_slots + length s.free_slots ≤ length s.slots
    pub dense_linked : (d i : ℕ) → get_elem? s.dense_slots d ≡ some i → dense_of s.slots i ≡ some d
    pub slot_linked :
        (i d : ℕ) → dense_of s.slots i ≡ some d → d ≢ vacant → get_elem? s.dense_slots d ≡ some i
    pub free_vacant :
        (k i : ℕ) → get_elem? s.free_slots k ≡ some i → dense_of s.slots i ≡ some vacant
    pub free_once :
        (j k i : ℕ) → get_elem? s.free_slots j ≡ some i → get_elem? s.free_slots k ≡ some i → j ≡ k
    pub generations : (i g : ℕ) → generation_of s.slots i ≡ some g → g ≤ u32_max

  -- What a handle that resolves to the dense index `d` says of the slab.
  pub record IsLive (s : StateSlab T) (id : EntityId) (d : ℕ) : Type 0 where
    pub on_shard : id.shard ≡ s.shard
    pub pointed :
        get_elem? s.slots id.slot ≡ some (record { dense_index = d; generation = id.generation })
    pub occupied : d ≢ vacant

  pub dense_index-IsLive :
      (id : EntityId) (s : StateSlab T) {d : ℕ} → dense_index id s ≡ ok d → IsLive s id d
  unfolding dense_index
  dense_index-IsLive id s e = ground arith

  pub IsLive-dense_index :
      (id : EntityId) (s : StateSlab T) {d : ℕ} → IsLive s id d → dense_index id s ≡ ok d
  unfolding dense_index
  IsLive-dense_index id s l = ground arith

  pub dense_index-err :
      (id : EntityId) (s : StateSlab T) {f : StateError}
      → dense_index id s ≡ err f
      → f ≡ invalid_entity id
  unfolding dense_index
  dense_index-err id s e = ground arith

  pub dense_index-ne-panic : (id : EntityId) (s : StateSlab T) → dense_index id s ≢ panic
  unfolding dense_index
  dense_index-ne-panic id s e = ground arith

  pub live-dense :
      (id : EntityId) {s : StateSlab T} {d : ℕ}
      → IsValid s
      → dense_index id s ≡ ok d
      → get_elem? s.dense_slots d ≡ some id.slot
  live-dense id {s} {d} v e =
      let l = dense_index-IsLive id s e in ground (arith, v.slot_linked id.slot d)

  -- A live handle's dense index is in range.
  pub live-lt :
      (id : EntityId) {s : StateSlab T} {d : ℕ}
      → IsValid s
      → dense_index id s ≡ ok d
      → d < length s.values
  live-lt id {s} {d} v e = omega (arith, lt-length s.dense_slots d (live-dense id v e))

  -- The slab that `new` returns.
  abbrev pub fresh : ShardId → ℕ → StateSlab T
  fresh shard capacity = record {
    shard = shard;
    capacity = capacity;
    slots = [];
    values = [];
    dense_slots = [];
    free_slots = [];
  }

  pub fresh-IsValid : (shard capacity : ℕ) → capacity ≤ u32_max → IsValid (fresh shard capacity)
  fresh-IsValid shard capacity h = record {
    small = h;
    fits = omega arith;
    paired = refl;
    counted = omega arith;
    dense_linked = λ d i e. cc;
    slot_linked = λ i d e. cc;
    free_vacant = λ k i e. cc;
    free_once = λ j k i e. cc;
    generations = λ i g e. cc;
  }

  new-fits :
      (grant : Buffer → ℕ → Bool) (shard capacity : ℕ) {s : StateSlab T}
      → ltb u32_max capacity ≡ false
      → new grant shard capacity ≡ ok s
      → fresh shard capacity ≡ s
  unfolding new
  new-fits grant shard capacity {s} h = rw h (ground arith)

  -- `new` returns the empty slab of its arguments, which is valid, and refuses a capacity past the
  -- slot address space.
  new_inv :
      (grant : Buffer → ℕ → Bool) (shard capacity : ℕ) {s : StateSlab T}
      → new grant shard capacity ≡ ok s
      → IsValid s × (s ≡ fresh shard capacity)
  unfolding new
  new_inv grant shard capacity {s} e = elim (Bool-cases (ltb u32_max capacity)) [
    | inl large ↦ absurd (err≢ok (rw large at e))
    | inr fits ↦
        let same = new-fits grant shard capacity fits e in
        (subst IsValid same (fresh-IsValid shard capacity (not_ltb→le _ _ fits)), sym same)
  ]

  -- On a valid slab `get` returns a value or refuses the handle. It never panics.
  pub get_cases :
      (id : EntityId) (s : StateSlab T)
      → IsValid s
      → ((value : T) × (get id s ≡ ok value)) ⊎ (get id s ≡ err (invalid_entity id))
  unfolding get
  get_cases id s v = elim (ended (dense_index id s)) [
    | returned d live ↦
        let (value, found) = get_elem?-total s.values d (live-lt id v live) in
        inl (value, rw (live, found))
    | failed f p ↦ inr (rw p (ap err (dense_index-err id s p)))
    | panicked p ↦ absurd (dense_index-ne-panic id s p)
  ]

  pub get-err :
      (id : EntityId) (s : StateSlab T) {f : StateError}
      → dense_index id s ≡ err f
      → get id s ≡ err f
  unfolding get
  get-err id s e = rw e
