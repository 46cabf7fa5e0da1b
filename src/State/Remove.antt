-- ===== src/State/Remove.antt =====
-- `StateSlab::remove`: the run of its five steps from a live handle.
use temnion.Prelude.{
  ℕ, ◌+◌, ◌<◌, ◌≡◌, refl, ap, ◌∙◌, Option, none, some, List, [], ◌∷◌, ◌++◌, ok, arith, length,
  get_elem?, set, SwapRemoved, swap_remove_lem, as_u32, length-set, get_elem?-set, get_elem?-ge,
  lt-length, get_elem?-total, Option-cases, Bool-cases, ltb, inl, inr, if◌then◌else◌, ◌==◌,
}
use temnion.Core.{EntityId}
use temnion.State.{
  Slot, StateSlab, vacant, dense_index, remove_value, remove_dense, relink, retire, remove,
}
use temnion.State.Inv.{IsValid, dense_index-IsLive, live-dense, live-lt}

-- The dense index that the swap gives the entry at `e`, when `d` is removed and `last` is its filler.
abbrev pub shifted : ℕ → ℕ → ℕ → ℕ
shifted last d e = if e == last then d else e

abbrev pub shift_slot : ℕ → ℕ → Option Slot → Option Slot
shift_slot last d none = none
shift_slot last d (some slot) = some (record slot { dense_index = shifted last d slot.dense_index })

-- The generation that a retired slot is left with.
abbrev pub next_generation : ℕ → ℕ
next_generation g = if ltb (g + 1) 4294967296 then g + 1 else g

-- The free stack that a retired slot leaves.
abbrev pub freed : ℕ → ℕ → List ℕ → List ℕ
freed g i free = if ltb (g + 1) 4294967296 then free ++ i ∷ [] else free

module _ {ℓ} {T : Type ℓ} where
  -- What `remove` does to the slab `s` when the live handle `id` resolves to `d`.
  pub record Removed (s : StateSlab T) (id : EntityId) (d : ℕ) (value : T) (s' : StateSlab T)
      : Type ℓ where
    pub values : SwapRemoved s.values d value s'.values
    pub dense : SwapRemoved s.dense_slots d id.slot s'.dense_slots
    pub slots :
        (j : ℕ)
        → get_elem? s'.slots j ≡ (
            if id.slot == j
            then some (record { dense_index = vacant; generation = next_generation id.generation })
            else shift_slot (length s'.dense_slots) d (get_elem? s.slots j))
    pub directory : length s'.slots ≡ length s.slots
    pub free : s'.free_slots ≡ freed id.generation id.slot s.free_slots
    pub capacity : s'.capacity ≡ s.capacity
    pub shard : s'.shard ≡ s.shard

  -- The step in the middle: the slot of the moved entry is pointed at the hole.
  record Relinked (s : StateSlab T) (d last : ℕ) (after : List Slot) : Type 0 where
    slots : (j : ℕ) → get_elem? after j ≡ shift_slot last d (get_elem? s.slots j)
    directory : length after ≡ length s.slots

  module _ (s : StateSlab T) (v : IsValid s) (id : EntityId) (d : ℕ)
      (live : dense_index id s ≡ ok d) (values : List T) (rest : List ℕ)
      (removed : SwapRemoved s.dense_slots d id.slot rest) where
    abbrev pub before : StateSlab T
    before = record s { values = values; dense_slots = rest }

    relink_none :
        get_elem? rest d ≡ none
        → (j : ℕ) → get_elem? s.slots j ≡ shift_slot (length rest) d (get_elem? s.slots j)
    relink_none e j = ground (
      arith,
      removed.kept d,
      lt-length s.dense_slots d (live-dense id v live),
      removed.shorter,
      get_elem?-total rest d,
    )

    moved-lt : (moved : ℕ) → get_elem? rest d ≡ some moved → moved < length s.slots
    moved-lt moved e = ground (
      arith,
      removed.kept d,
      lt-length rest d e,
      v.dense_linked (length rest) moved,
      get_elem?-ge s.slots moved,
    )

    relink_some :
        (moved : ℕ) (slot : Slot)
        → get_elem? rest d ≡ some moved
        → get_elem? s.slots moved ≡ some slot
        → (j : ℕ)
        → get_elem? (set s.slots moved (record slot { dense_index = as_u32 d })) j
          ≡ shift_slot (length rest) d (get_elem? s.slots j)
    relink_some moved slot e there j = ground (
      arith,
      removed.kept d,
      removed.shorter,
      lt-length rest d e,
      v.dense_linked (length rest) moved,
      v.slot_linked j (length rest),
      v.small,
      v.fits,
      v.counted,
      get_elem?-set s.slots moved (record slot { dense_index = as_u32 d }) j
          (lt-length s.slots moved there),
    )

    relink_cases :
        (after : List Slot) × (relink d before ≡ (ok tt, record before { slots = after }))
        × Relinked s d (length rest) after
    unfolding relink
    relink_cases = elim (Option-cases (get_elem? rest d)) [
      | inl e ↦ (s.slots, rw (e, relink), record { slots = relink_none e; directory = refl })
      | inr (moved, e) ↦
          let (slot, there) = get_elem?-total s.slots moved (moved-lt moved e) in
          (
            set s.slots moved (record slot { dense_index = as_u32 d }),
            rw (e, there, relink),
            record {
              slots = relink_some moved slot e there;
              directory = length-set s.slots moved _;
            },
          )
    ]

    module _ (after : List Slot) (r : Relinked s d (length rest) after) where
      -- The slot to retire, as `relink` leaves it.
      abbrev target : Slot
      target = record { dense_index = shifted (length rest) d d; generation = id.generation }

      retired : Slot
      retired = record { dense_index = vacant; generation = next_generation id.generation }

      target_there : get_elem? after id.slot ≡ some target
      target_there = let l = dense_index-IsLive id s live in ground (arith, r.slots id.slot)

      retire_runs : retire id.slot (record before { slots = after }) ≡ (
        ok tt,
        record before {
          slots =
              set after id.slot
                (record { dense_index = vacant; generation = next_generation id.generation });
          free_slots = freed id.generation id.slot s.free_slots;
        },
      )
      unfolding retire
      retire_runs = elim (Bool-cases (ltb (id.generation + 1) 4294967296)) [
        | inl e ↦ rw (target_there, e, retire)
        | inr e ↦ rw (target_there, e, retire)
      ]

      retired-slots :
          (j : ℕ)
          → get_elem?
              (set after id.slot
                (record { dense_index = vacant; generation = next_generation id.generation }))
              j
            ≡ (if id.slot == j
                then some
                    (record { dense_index = vacant; generation = next_generation id.generation })
                else shift_slot (length rest) d (get_elem? s.slots j))
      retired-slots j =
          get_elem?-set after id.slot _ j (lt-length after id.slot target_there)
          ∙ ap
              (λ o.
                if id.slot == j
                then some
                    (record { dense_index = vacant; generation = next_generation id.generation })
                else o)
              (r.slots j)

  remove_chain :
      (s : StateSlab T) (id : EntityId) {d : ℕ} {value : T} {s₁ s₂ s₃ s₄ : StateSlab T}
      → dense_index id s ≡ ok d
      → remove_value d s ≡ (ok value, s₁)
      → remove_dense d s₁ ≡ (ok tt, s₂)
      → relink d s₂ ≡ (ok tt, s₃)
      → retire id.slot s₃ ≡ (ok tt, s₄)
      → remove id s ≡ (ok value, s₄)
  unfolding remove
  remove_chain s id live e₁ e₂ e₃ e₄ = rw (live, e₁, e₂, e₃, e₄)

  -- On a valid slab `remove` of a live handle returns the value that `get` returned for it.
  pub remove_runs :
      (s : StateSlab T) (id : EntityId) {d : ℕ}
      → IsValid s
      → dense_index id s ≡ ok d
      → (value : T) × (s' : StateSlab T) × (remove id s ≡ (ok value, s')) × Removed s id d value s'
  unfolding remove_value remove_dense
  remove_runs s id {d} v live =
      let (value, found) = get_elem?-total s.values d (live-lt id v live) in
      let (values, out) = swap_remove_lem s.values d found in
      let (rest, dense_out) = swap_remove_lem s.dense_slots d (live-dense id v live) in
      let (after, relinks, r) = relink_cases s v id d live values rest dense_out in
      let e₁ : remove_value d s ≡ (ok value, record s { values = values }) =
        rw (out.runs, remove_value) in
      let e₂ : remove_dense d (record s { values = values })
          ≡ (ok tt, record s { values = values; dense_slots = rest }) =
        rw (dense_out.runs, remove_dense) in
      (
        value,
        _,
        remove_chain s id live e₁ e₂ relinks
            (retire_runs s v id d live values rest dense_out after r),
        record {
          values = out;
          dense = dense_out;
          slots = retired-slots s v id d live values rest dense_out after r;
          directory = length-set after id.slot _ ∙ r.directory;
          free = refl;
          capacity = refl;
          shard = refl;
        },
      )
