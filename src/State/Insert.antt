-- ===== src/State/Insert.antt =====
-- `StateSlab::insert`: its cases, and what it does when it succeeds.
use temnion.Prelude.{
  ℕ, ◌<◌, ◌≡◌, ◌≢◌, refl, ap, Option, none, some, List, [], ◌∷◌, ◌++◌, ok, err, arith, length,
  get_elem?, pop, pop_inv, pop_inv_none, as_u32, get_elem?-push, get_elem?-push_self, get_elem?-set,
  get_elem?-ge, lt-length, get_elem?-push_lt, ◌∙◌, sym, ap₂, subst₂, ended, returned, failed,
  panicked, ok_pair, err≢ok_pair, bind-ok, bind-err, ◌⊎◌, ==_iff, le-ne-lt, get_elem?-total,
  Option-cases, Bool-cases, inl, inr, if◌then◌else◌, ◌==◌,
}
use temnion.Core.{EntityId, entity_eq}
use temnion.State.{
  Slot, StateSlab, vacant, capacity_exceeded, invalid_entity, take_slot, fill_slot, insert,
  dense_index, get,
}
use temnion.State.Inv.{IsValid, live-lt}
use temnion.State.Fill.{
  dense_of-lt, IsFull, IsTaken, reuse-top, reuse-not-IsFull, reuse-kept, reuse-IsTaken,
  grow-IsTaken, filled, vacant_slot, filled-IsValid, handle, dense_index-filled, handle_dead,
  fill_slot-runs,
}

module _ {ℓ} {T : Type ℓ} where
  -- Where the slot `i` that `insert` writes comes from: it is new, or it was on the free stack.
  pub data Origin (s : StateSlab T) (i : ℕ) (there : Option Slot) : Type 0 where
    grown : get_elem? s.slots i ≡ none → Origin s i there
    reused :
        (k : ℕ) → get_elem? s.free_slots k ≡ some i → there ≡ get_elem? s.slots i → Origin s i there

  -- What `insert` does when it succeeds, from the slab `s`.
  pub record Inserted (s : StateSlab T) (value : T) (id : EntityId) (s' : StateSlab T)
      : Type ℓ where
    pub valid : IsValid s'
    pub not_full : ¬ IsFull s
    pub fresh : dense_index id s ≡ err (invalid_entity id)
    pub lookup :
        (other : EntityId)
        → dense_index other s'
          ≡ (if entity_eq id other then ok (length s.values) else dense_index other s)
    pub values : s'.values ≡ s.values ++ value ∷ []
    pub slots :
        (j : ℕ)
        → get_elem? s'.slots j ≡ (
            if id.slot == j
            then some (record { dense_index = length s.values; generation = id.generation })
            else get_elem? s.slots j)
    pub origin :
        Origin s id.slot (some (record { dense_index = vacant; generation = id.generation }))
    pub free_kept :
        (k j : ℕ) → get_elem? s'.free_slots k ≡ some j → get_elem? s.free_slots k ≡ some j
    pub capacity : s'.capacity ≡ s.capacity
    pub on_shard : id.shard ≡ s.shard

  -- What `take_slot` leaves alone.
  pub record Took (s : StateSlab T) (i : ℕ) (s' : StateSlab T) : Type ℓ where
    pub taken : IsTaken s' i
    pub not_full : ¬ IsFull s
    pub lookup : (id : EntityId) → dense_index id s' ≡ dense_index id s
    pub slots : (j : ℕ) → j ≢ i → get_elem? s'.slots j ≡ get_elem? s.slots j
    pub origin : Origin s i (get_elem? s'.slots i)
    pub free_kept :
        (k j : ℕ) → get_elem? s'.free_slots k ≡ some j → get_elem? s.free_slots k ≡ some j
    pub values : s'.values ≡ s.values
    pub capacity : s'.capacity ≡ s.capacity
    pub on_shard : s'.shard ≡ s.shard

  grow-slots :
      (s : StateSlab T) (j : ℕ)
      → j ≢ length s.slots
      → get_elem? (s.slots ++ record { dense_index = vacant; generation = 0 } ∷ []) j
        ≡ get_elem? s.slots j
  grow-slots s j ne =
      let fresh_slot : Slot = record { dense_index = vacant; generation = 0 } in
      ground (arith, get_elem?-push s.slots fresh_slot j)

  grow-lookup :
      (s : StateSlab T) (id : EntityId)
      → dense_index id
          (record s { slots = s.slots ++ record { dense_index = vacant; generation = 0 } ∷ [] })
        ≡ dense_index id s
  unfolding dense_index
  grow-lookup s id =
      let fresh_slot : Slot = record { dense_index = vacant; generation = 0 } in
      ground (arith, get_elem?-push s.slots fresh_slot id.slot, get_elem?-ge s.slots id.slot)

  -- `take_slot` takes the last freed slot, or grows the directory, or refuses.
  take_slot_cases :
      (s : StateSlab T)
      → IsValid s
      → (IsFull s × (take_slot s ≡ (err capacity_exceeded, s)))
        ⊎ ((i : ℕ) × (s' : StateSlab T) × (take_slot s ≡ (ok i, s')) × Took s i s')
  unfolding take_slot
  take_slot_cases s v = elim (Option-cases (pop s.free_slots)) [
    | inr ((i, rest), p) ↦ inr (
      i,
      record s { free_slots = rest },
      rw (p, take_slot),
      record {
        taken = reuse-IsTaken s i rest v (pop_inv s.free_slots p);
        not_full = reuse-not-IsFull s i rest (pop_inv s.free_slots p);
        lookup = λ id. unfold dense_index in refl;
        slots = λ j ne. refl;
        origin = reused (length rest) (reuse-top s i rest (pop_inv s.free_slots p)) refl;
        free_kept = reuse-kept s i rest (pop_inv s.free_slots p);
        values = refl;
        capacity = refl;
        on_shard = refl;
      },
    )
    | inl p ↦ elim (Bool-cases (length s.slots == s.capacity)) [
      | inl full ↦ inl ((pop_inv_none s.free_slots p, (==_iff _ _).0 full), rw (p, full, take_slot))
      | inr room ↦
          let below : length s.slots < s.capacity = le-ne-lt v.fits room in
          let narrow : as_u32 (length s.slots) ≡ length s.slots = omega (arith, v.small) in
          inr (
            length s.slots,
            _,
            rw (p, room, narrow, take_slot),
            record {
              taken = grow-IsTaken s v below;
              not_full = λ (none_free, at_end). omega (arith, below);
              lookup = grow-lookup s;
              slots = grow-slots s;
              origin = grown (get_elem?-ge s.slots (length s.slots) (omega arith));
              free_kept = λ k j e. e;
              values = refl;
              capacity = refl;
              on_shard = refl;
            },
          )
    ]
  ]

  filled-slots :
      (s : StateSlab T) {s' : StateSlab T} (i : ℕ) (took : Took s i s') (slot : Slot) (value : T)
      → get_elem? s'.slots i ≡ some slot
      → (j : ℕ)
      → get_elem? (filled s' i slot value).slots j ≡ (
          if i == j
          then some (record { dense_index = length s.values; generation = slot.generation })
          else get_elem? s.slots j)
  filled-slots s {s'} i took slot value there j =
      let t = took.taken in
      let v = t.valid in
      ground (
        arith,
        get_elem?-set s'.slots i (record slot { dense_index = as_u32 (length s'.values) }) j
            (lt-length s'.slots i there),
        took.slots j,
        ap length took.values,
        t.room,
        v.paired,
        v.fits,
        v.small,
      )

  origin_seen :
      {s : StateSlab T} {i : ℕ} {there : Option Slot} {slot : Slot}
      → Origin s i there
      → there ≡ some slot
      → slot.dense_index ≡ vacant
      → Origin s i (some (record { dense_index = vacant; generation = slot.generation }))
  origin_seen (grown e) h empty = grown e
  origin_seen (reused k e same) h empty = reused k e (ground (arith, same))

  -- On a valid slab `insert` refuses exactly when the slab is full, and then changes nothing; else it
  -- returns a handle that was not live, and after it that handle alone resolves to the new value.
  pub insert_cases :
      (s : StateSlab T) (value : T)
      → IsValid s
      → (IsFull s × (insert value s ≡ (err capacity_exceeded, s)))
        ⊎ ((id : EntityId) × (s' : StateSlab T) × (insert value s ≡ (ok id, s'))
            × Inserted s value id s')
  unfolding insert
  insert_cases s value v = elim (take_slot_cases s v) [
    | inl (full, e) ↦ inl (full, bind-err take_slot (λ i. fill_slot i value) e)
    | inr (i, s', e, took) ↦
        let t = took.taken in
        let (slot, there) = get_elem?-total s'.slots i (dense_of-lt s'.slots i t.empty) in
        let h = handle s' i slot value t there in
        inr (
          h,
          filled s' i slot value,
          bind-ok take_slot (λ i. fill_slot i value) e ∙ fill_slot-runs s' i slot value t there,
          record {
            valid = filled-IsValid s' i slot value t there;
            not_full = took.not_full;
            fresh = sym (took.lookup h) ∙ handle_dead s' i slot value t there;
            lookup = λ other.
                dense_index-filled s' i slot value t there other
                ∙ ap₂ (λ n r. if entity_eq h other then ok n else r) (ap length took.values)
                    (took.lookup other);
            values = ap (λ (vs : List T). vs ++ value ∷ []) took.values;
            slots = filled-slots s i took slot value there;
            origin = origin_seen (took.origin) there (vacant_slot s' i slot value t there);
            free_kept = took.free_kept;
            capacity = took.capacity;
            on_shard = took.on_shard;
          },
        )
  ]

  pub insert_inv :
      (s : StateSlab T) (value : T) {id : EntityId} {s' : StateSlab T}
      → IsValid s
      → insert value s ≡ (ok id, s')
      → Inserted s value id s'
  insert_inv s value v e = elim (insert_cases s value v) [
    | inl (full, p) ↦ absurd (err≢ok_pair (sym p ∙ e))
    | inr (id', t', p, done) ↦
        let (same_id, same_slab) = ok_pair (sym p ∙ e) in
        subst₂ (Inserted s value) same_id same_slab done
  ]

  -- On a valid slab, once `insert` has returned the handle `id`, `get` returns the new value for `id`
  -- and for every other handle what it returned before.
  pub get-insert :
      (s : StateSlab T) (value : T) {id : EntityId} {s' : StateSlab T}
      → IsValid s
      → insert value s ≡ (ok id, s')
      → (other : EntityId) → get other s' ≡ (if entity_eq id other then ok value else get other s)
  unfolding get
  get-insert s value {id} v e other =
      let done = insert_inv s value v e in
      elim (Bool-cases (entity_eq id other)) [
        | inl same ↦ rw (done.lookup other, same, done.values, get_elem?-push_self)
        | inr differ ↦
            rw (done.lookup other, differ)
              (elim (ended (dense_index other s)) [
                | returned d p ↦
                    rw (p, done.values, get_elem?-push_lt s.values value d (live-lt other v p))
                | failed f p ↦ rw p
                | panicked p ↦ rw p
              ])
      ]
