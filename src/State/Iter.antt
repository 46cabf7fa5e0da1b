-- ===== src/State/Iter.antt =====
-- `StateSlab::iter` lists the live handles with their values.
use temnion.Prelude.{
  ℕ, zero, suc, ◌≡◌, ◌<◌, refl, ap, sym, ◌∙◌, some, List, [], ◌∷◌, ok, arith, length, get_elem?,
  get_elem?-total, lt-length, get_elem?-ge, subst₂, and_then-ok, expect, expect-ok, some-injective,
  Option,
}
use temnion.Core.{EntityId}
use temnion.State.{Slot, StateSlab, dense_index, get, iter, iter_from, iter_entry, len}
use temnion.State.Inv.{IsValid, dense_index-IsLive, IsLive-dense_index, live-dense}

module _ {ℓ} {T : Type ℓ} where
  -- The handle of the slot `i`.
  abbrev handle_at : StateSlab T → ℕ → Slot → EntityId
  handle_at s i slot = record { shard = s.shard; slot = i; generation = slot.generation }

  abbrev entry_at : StateSlab T → ℕ → Slot → T → Option (EntityId × T)
  entry_at s i slot value = some (handle_at s i slot, value)

  -- What the pass over the dense entries `is` and the values `vs` yields.
  record Listed (s : StateSlab T) (is : List ℕ) (vs : List T) (es : List (EntityId × T))
      : Type ℓ where
    size : length es ≡ length vs
    entry :
        (k i : ℕ) (slot : Slot) (value : T)
        → get_elem? is k ≡ some i
        → get_elem? s.slots i ≡ some slot
        → get_elem? vs k ≡ some value
        → get_elem? es k ≡ entry_at s i slot value

  first_entry :
      (s : StateSlab T) (i j : ℕ) (slot slot' : Slot) (v v' : T)
      → ◌≡◌ {A = Option ℕ} (some i) (some j)
      → get_elem? s.slots i ≡ some slot
      → get_elem? s.slots j ≡ some slot'
      → some v ≡ some v'
      → entry_at s i slot v ≡ entry_at s j slot' v'
  first_entry s i j slot slot' v v' e p q r = cc

  Listed-cons :
      (s : StateSlab T) (i : ℕ) (is : List ℕ) (v : T) (vs : List T) (es : List (EntityId × T))
      (slot : Slot)
      → get_elem? s.slots i ≡ some slot
      → Listed s is vs es
      → Listed s (i ∷ is) (v ∷ vs) ((handle_at s i slot, v) ∷ es)
  Listed-cons s i is v vs es slot there l = record {
    size = ap suc l.size;
    entry = λ k.
        elim k
          as (λ n.
            (j : ℕ) (slot' : Slot) (value : T)
            → get_elem? (i ∷ is) n ≡ some j
            → get_elem? s.slots j ≡ some slot'
            → get_elem? (v ∷ vs) n ≡ some value
            → get_elem? ((handle_at s i slot, v) ∷ es) n ≡ entry_at s j slot' value) [
              | zero ↦ λ j slot' value p q r. first_entry s i j slot slot' v value p there q r
              | suc n ↦ l.entry n
            ];
  }

  iter_from-Listed :
      (s : StateSlab T) (is : List ℕ) (vs : List T)
      → length vs ≡ length is
      → ((k i : ℕ) → get_elem? is k ≡ some i → i < length s.slots)
      → (es : List (EntityId × T)) × (iter_from s is vs ≡ ok es) × Listed s is vs es
  unfolding iter_from iter_entry
  iter_from-Listed s [] [] e h = ([], refl, record { size = refl; entry = λ k i slot v p q r. cc })
  iter_from-Listed s [] (v ∷ vs) e h = absurd (omega arith)
  iter_from-Listed s (i ∷ is) [] e h = absurd (omega arith)
  iter_from-Listed s (i ∷ is) (v ∷ vs) e h =
      let (slot, there) = get_elem?-total s.slots i (h 0 i refl) in
      let (es, runs, l) = iter_from-Listed s is vs (omega arith) (λ k. h (suc k)) in
      (_, rw (there, runs), Listed-cons s i is v vs es slot there l)

  iter-Listed :
      (s : StateSlab T)
      → IsValid s
      → (es : List (EntityId × T)) × (iter s ≡ ok es) × Listed s s.dense_slots s.values es
  unfolding iter
  iter-Listed s v =
      iter_from-Listed s s.dense_slots s.values v.paired
        λ k i p. ground (arith, v.dense_linked k i, get_elem?-ge s.slots i)

  -- The handle that `iter` pairs with the dense entry `k` is live.
  listed-live :
      (s : StateSlab T) (k i : ℕ) (slot : Slot)
      → IsValid s
      → get_elem? s.dense_slots k ≡ some i
      → get_elem? s.slots i ≡ some slot
      → dense_index (handle_at s i slot) s ≡ ok k
  listed-live s k i slot v p q = IsLive-dense_index (handle_at s i slot) s (
      let bound = lt-length s.dense_slots k p in
      record {
        on_shard = refl;
        pointed = ground (arith, q, v.dense_linked k i);
        occupied = omega (arith, v.counted, v.fits, v.small);
      })

  get_entry :
      (s : StateSlab T) (k i : ℕ) (slot : Slot) (value : T)
      → IsValid s
      → get_elem? s.dense_slots k ≡ some i
      → get_elem? s.slots i ≡ some slot
      → get_elem? s.values k ≡ some value
      → get (handle_at s i slot) s ≡ ok value
  unfolding get
  get_entry s k i slot value v p q r = rw (listed-live s k i slot v p q, r)

  entry_parts :
      (e : EntityId × T) (id : EntityId) (value : T)
      → some e ≡ some (id, value)
      → (e.0 ≡ id) × (e.1 ≡ value)
  entry_parts e id value p =
      let q = some-injective e (id, value) p in (ap (λ x. x.0) q, ap (λ x. x.1) q)

  Listed-get :
      (s : StateSlab T) (es : List (EntityId × T)) (k : ℕ) (id : EntityId) (value : T)
      → IsValid s
      → Listed s s.dense_slots s.values es
      → get_elem? es k ≡ some (id, value)
      → get id s ≡ ok value
  Listed-get s es k id value v l e =
      let below : k < length s.values = omega (arith, lt-length es k e, l.size) in
      let (i, p) = get_elem?-total s.dense_slots k (omega (arith, v.paired)) in
      let (slot, q) =
        get_elem?-total s.slots i (ground (arith, v.dense_linked k i, get_elem?-ge s.slots i)) in
      let (held, r) = get_elem?-total s.values k below in
      let (same_id, same_value) =
        entry_parts (handle_at s i slot, held) id value (sym (l.entry k i slot held p q r) ∙ e) in
      subst₂ (λ x y. get x s ≡ ok y) same_id same_value (get_entry s k i slot held v p q r)

  get-Listed :
      (s : StateSlab T) (es : List (EntityId × T)) (id : EntityId) (value : T)
      → IsValid s
      → Listed s s.dense_slots s.values es
      → get id s ≡ ok value
      → (k : ℕ) × (get_elem? es k ≡ some (id, value))
  unfolding get
  get-Listed s es id value v l e =
      let (d, live, found) =
        and_then-ok (dense_index id s) (λ d. expect (get_elem? s.values d)) e in
      let h = dense_index-IsLive id s live in
      let same : handle_at s id.slot (record { dense_index = d; generation = id.generation }) ≡ id =
        ground (arith, h.on_shard) in
      (
        d,
        l.entry d id.slot _ value (live-dense id v live) h.pointed (expect-ok _ found)
            ∙ ap (λ x. some (x, value)) same,
      )

  -- On a valid slab `iter` yields one entry for each value held, every entry pairs a handle with the
  -- value that `get` returns for it, and every handle for which `get` returns a value has an entry.
  pub iter_lem :
      (s : StateSlab T)
      → IsValid s
      → (es : List (EntityId × T)) × (iter s ≡ ok es)
        × (length es ≡ len s)
        × ((k : ℕ) (id : EntityId) (value : T)
            → get_elem? es k ≡ some (id, value)
            → get id s ≡ ok value)
        × ((id : EntityId) (value : T)
            → get id s ≡ ok value
            → (k : ℕ) × (get_elem? es k ≡ some (id, value)))
  unfolding len
  iter_lem s v =
      let (es, runs, l) = iter-Listed s v in
      (
        es,
        runs,
        l.size,
        λ k id value e. Listed-get s es k id value v l e,
        λ id value e. get-Listed s es id value v l e,
      )
