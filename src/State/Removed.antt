-- ===== src/State/Removed.antt =====
-- The slab after `StateSlab::remove`: it stays valid, and the other handles keep their values.
use temnion.Prelude.{
  ℕ, ◌+◌, ◌≤◌, ◌<◌, ◌≡◌, ◌≢◌, ◌⊎◌, false, SwapRemoved-at, ap, ◌∙◌, some, List, ok, err, arith,
  length, get_elem?, length-push, get_elem?-push, get_elem?-ge, lt-length, Bool-cases, inl, inr,
  if◌then◌else◌, u32_max, ended, returned, failed, panicked, expect,
}
use temnion.Core.{EntityId, entity_eq}
use temnion.Core.Laws.{entity_eq_iff}
use temnion.State.{StateSlab, StateError, vacant, dense_index, get, remove, invalid_entity}
use temnion.State.Inv.{
  dense_index-err, dense_index-ne-panic, IsValid, IsLive, dense_of, generation_of,
  dense_index-IsLive, live-dense, live-lt,
}
use temnion.State.Remove.{Removed, remove_runs, shifted, freed}

pub get_elem?-freed :
    (g i : ℕ) (free : List ℕ) (k j : ℕ)
    → get_elem? (freed g i free) k ≡ some j
    → (get_elem? free k ≡ some j) ⊎ ((j ≡ i) × (k ≡ length free))
get_elem?-freed g i free k j e = ground (arith, get_elem?-push free i k)

length-freed : (g i : ℕ) (free : List ℕ) → length (freed g i free) ≤ length free + 1
length-freed g i free = ground (arith, length-push free i)

module _ {ℓ} {T : Type ℓ} (s : StateSlab T) (v : IsValid s) (id : EntityId) (d : ℕ)
    (live : dense_index id s ≡ ok d) {value : T} (s' : StateSlab T)
    (r : Removed s id d value s') where
  linked : IsLive s id d
  linked = dense_index-IsLive id s live

  pub last_bounds :
      (length s'.dense_slots < vacant)
      × (d ≤ length s'.dense_slots)
      × (length s'.dense_slots + 1 ≡ length s.dense_slots)
  last_bounds =
      let h = lt-length s.dense_slots d (live-dense id v live) in
      omega (arith, r.dense.shorter, v.counted, v.fits, v.small)

  dense_linked-removed :
      (e j : ℕ) → get_elem? s'.dense_slots e ≡ some j → dense_of s'.slots j ≡ some e
  dense_linked-removed e j h = ground (
    arith,
    r.dense.kept e,
    r.slots j,
    v.dense_linked e j,
    v.dense_linked (length s'.dense_slots) j,
    linked,
    last_bounds,
  )

  slot_linked-removed :
      (j e : ℕ) → dense_of s'.slots j ≡ some e → e ≢ vacant → get_elem? s'.dense_slots e ≡ some j
  slot_linked-removed j e h p = ground (
    arith,
    r.dense.kept e,
    r.slots j,
    v.slot_linked j e,
    v.slot_linked j (length s'.dense_slots),
    live-dense id v live,
    last_bounds,
    get_elem?-ge s.dense_slots e,
  )

  free_vacant-removed :
      (k j : ℕ) → get_elem? s'.free_slots k ≡ some j → dense_of s'.slots j ≡ some vacant
  free_vacant-removed k j h = ground (
    arith,
    r.free,
    get_elem?-freed id.generation id.slot s.free_slots k j,
    r.slots j,
    v.free_vacant k j,
    last_bounds,
  )

  pub not_free : (k : ℕ) → get_elem? s.free_slots k ≢ some id.slot
  not_free k h = ground (arith, v.free_vacant k id.slot, linked)

  free_once-removed :
      (j k i : ℕ) → get_elem? s'.free_slots j ≡ some i → get_elem? s'.free_slots k ≡ some i → j ≡ k
  free_once-removed j k i p q = ground (
    arith,
    r.free,
    get_elem?-freed id.generation id.slot s.free_slots j i,
    get_elem?-freed id.generation id.slot s.free_slots k i,
    v.free_once j k i,
    not_free j,
    not_free k,
  )

  generations-removed : (i g : ℕ) → generation_of s'.slots i ≡ some g → g ≤ u32_max
  generations-removed i g h =
      ground (arith, r.slots i, v.generations i g, v.generations id.slot id.generation, linked)

  pub Removed-IsValid : IsValid s'
  Removed-IsValid = record {
    small = omega (arith, v.small, r.capacity);
    fits = omega (arith, v.fits, r.capacity, r.directory);
    paired = omega (arith, v.paired, r.values.shorter, r.dense.shorter);
    counted = omega (
      arith,
      v.counted,
      r.directory,
      r.dense.shorter,
      ap length r.free,
      length-freed id.generation id.slot s.free_slots,
    );
    dense_linked = dense_linked-removed;
    slot_linked = slot_linked-removed;
    free_vacant = free_vacant-removed;
    free_once = free_once-removed;
    generations = generations-removed;
  }

  -- Which dense index a handle resolves to afterwards.
  pub dense_index-removed :
      (other : EntityId) {e : ℕ}
      → dense_index other s ≡ ok e
      → entity_eq id other ≡ false
      → (dense_index other s' ≡ ok (shifted (length s'.dense_slots) d e)) × (e ≢ d)
  unfolding dense_index
  dense_index-removed other {e} h differ =
      let l = dense_index-IsLive other s h in
      ground (
        arith,
        r.slots other.slot,
        r.shard,
        linked,
        live-dense id v live,
        live-dense other v h,
        last_bounds,
        lt-length s.dense_slots e (live-dense other v h),
      )

  pub dense_index-removed_dead :
      (other : EntityId)
      → dense_index other s ≡ err (invalid_entity other)
      → dense_index other s' ≡ err (invalid_entity other)
  unfolding dense_index
  dense_index-removed_dead other h =
      ground (arith, r.slots other.slot, r.shard, linked, last_bounds)

  pub dense_index-removed_self : dense_index id s' ≡ err (invalid_entity id)
  unfolding dense_index
  dense_index-removed_self = ground (arith, r.slots id.slot)

  sizes : length s'.values ≡ length s'.dense_slots
  sizes = omega (arith, v.paired, r.values.shorter, r.dense.shorter)

  pub get-removed :
      (other : EntityId)
      → get other s' ≡ (if entity_eq id other then err (invalid_entity other) else get other s)
  unfolding get
  get-removed other = elim (Bool-cases (entity_eq id other)) [
    | inl same ↦ let e = (entity_eq_iff id other).0 same in rw (same, ← e, dense_index-removed_self)
    | inr differ ↦ rw differ (elim (ended (dense_index other s)) [
      | returned e p ↦
          let (moved, apart) = dense_index-removed other p differ in
          rw (p, moved)
            (ap expect
              (rw (← sizes) (SwapRemoved-at s.values d e r.values apart (live-lt other v p))))
      | failed f p ↦
          let q = p ∙ ap err (dense_index-err other s p) in rw (q, dense_index-removed_dead other q)
      | panicked p ↦ absurd (dense_index-ne-panic other s p)
    ])
  ]

module _ {ℓ} {T : Type ℓ} where
  pub remove_refused :
      (s : StateSlab T) (id : EntityId) {f : StateError}
      → dense_index id s ≡ err f
      → remove id s ≡ (err f, s)
  unfolding remove
  remove_refused s id p = rw p

  -- On a valid slab `remove` returns what `get` returns for the handle, value or error, keeps the slab
  -- valid, and afterwards `get` refuses that handle and answers for every other one as before.
  pub remove_lem :
      (s : StateSlab T) (id : EntityId)
      → IsValid s
      → ((remove id s).0 ≡ get id s)
        × IsValid (remove id s).1
        × ((other : EntityId)
            → get other (remove id s).1
              ≡ (if entity_eq id other then err (invalid_entity other) else get other s))
  unfolding get
  remove_lem s id v = elim (ended (dense_index id s)) [
    | returned d live ↦
        let (value, s', e, r) = remove_runs s id v live in
        (
          rw (e, live, r.values.taken),
          rw e (Removed-IsValid s v id d live s' r),
          rw e (get-removed s v id d live s' r),
        )
    | failed f p ↦
        let refused = remove_refused s id p in
        (
          rw (refused, p),
          rw refused v,
          λ other. rw refused (elim (Bool-cases (entity_eq id other)) [
            | inl same ↦
                let e = (entity_eq_iff id other).0 same in rw (same, ← e, p, dense_index-err id s p)
            | inr differ ↦ rw differ
          ]),
        )
    | panicked p ↦ absurd (dense_index-ne-panic id s p)
  ]
