-- ===== src/State.antt =====
-- crates/temnion-state/src/lib.rs: the packed slab of live values behind generation-safe handles.
pub mod Inv
pub mod Fill
pub mod Insert
pub mod Remove
pub mod Removed
pub mod Update
pub mod Trace
pub mod Refine
pub mod Stale
pub mod Iter
mod Tests
use temnion.Prelude.{
  ℕ, ◌+◌, ◌-◌, Bool, ◌&&◌, not, Option, none, some, List, [], ◌∷◌, ◌++◌, ltb, ◌==◌, if◌then◌else◌,
  length, get_elem?, set, pop, swap_remove, u32_max, as_u32, checked_add_u32, Outcome, ok, err,
  panic, and_then, expect, Exec, ◌>>=◌, ◌>>◌, pure, fail, asks, modify,
}
use temnion.Core.{ShardId, EntityId}

-- `VACANT`, the dense index of a slot that holds no value
abbrev pub vacant : ℕ
vacant = u32_max

pub record Slot : Type 0 where
  pub dense_index : ℕ
  pub generation : ℕ

pub data StateError : Type 0 where
  invalid_capacity : StateError
  allocation_failed : StateError
  capacity_exceeded : StateError
  invalid_entity : EntityId → StateError

pub record StateSlab {ℓ} (T : Type ℓ) : Type ℓ where
  pub shard : ShardId
  pub capacity : ℕ
  pub slots : List Slot
  pub values : List T
  pub dense_slots : List ℕ
  pub free_slots : List ℕ

-- The four vectors that `new` reserves room for, in its order.
pub data Buffer : Type 0 where
  slots values dense_slots free_slots : Buffer

abbrev reserve : Bool → Outcome StateError (Unit {0}) → Outcome StateError (Unit {0})
reserve granted rest = if granted then rest else err allocation_failed

module _ {ℓ} {T : Type ℓ} where
  -- `try_reserve_exact` answers for the allocator: whether it grants a buffer that many entries.
  pub new : (Buffer → ℕ → Bool) → ShardId → ℕ → Outcome StateError (StateSlab T)
  new try_reserve_exact shard capacity =
      if ltb u32_max capacity
      then err invalid_capacity
      else and_then
          (reserve (try_reserve_exact Buffer.slots capacity) (
            reserve (try_reserve_exact Buffer.values capacity) (
              reserve (try_reserve_exact Buffer.dense_slots capacity)
                (reserve (try_reserve_exact Buffer.free_slots capacity) (ok tt)))))
          λ _. ok (record {
            shard = shard;
            capacity = capacity;
            slots = [];
            values = [];
            dense_slots = [];
            free_slots = [];
          })

  pub len : StateSlab T → ℕ
  len s = length s.values

  -- The slot that `insert` writes: the freed one on top of the stack, or a new one at the end.
  pub take_slot : Exec (StateSlab T) StateError ℕ
  take_slot s = elim (pop s.free_slots) [
    | some (index, rest) ↦ (ok index, record s { free_slots = rest })
    | none ↦ if length s.slots == s.capacity then (err capacity_exceeded, s) else (
      ok (as_u32 (length s.slots)),
      record s { slots = s.slots ++ record { dense_index = vacant; generation = 0 } ∷ [] },
    )
  ]

  pub fill_slot : ℕ → T → Exec (StateSlab T) StateError EntityId
  fill_slot slot_index value s = elim (get_elem? s.slots slot_index) [
    | none ↦ (panic, s)
    | some slot ↦ (
      ok (record { shard = s.shard; slot = slot_index; generation = slot.generation }),
      record s {
        slots = set s.slots slot_index (record slot { dense_index = as_u32 (length s.values) });
        values = s.values ++ value ∷ [];
        dense_slots = s.dense_slots ++ slot_index ∷ [];
      },
    )
  ]

  pub insert : T → Exec (StateSlab T) StateError EntityId
  insert value = do slot_index ← take_slot; fill_slot slot_index value

  pub dense_index : EntityId → StateSlab T → Outcome StateError ℕ
  dense_index id s = elim (get_elem? s.slots id.slot) [
    | none ↦ err (invalid_entity id)
    | some slot ↦
        if id.shard == s.shard
          && (id.generation == slot.generation && not (slot.dense_index == vacant))
        then ok slot.dense_index
        else err (invalid_entity id)
  ]

  pub get : EntityId → StateSlab T → Outcome StateError T
  unfolding dense_index
  get id s = and_then (dense_index id s) λ index. expect (get_elem? s.values index)

  -- `get_mut`, with the caller's write through the reference that it returns
  pub get_mut : EntityId → (T → T) → Exec (StateSlab T) StateError (Unit {0})
  unfolding dense_index
  get_mut id write = do
    index ← asks (dense_index id)
    value ← asks (λ s. expect (get_elem? s.values index))
    modify (λ s. record s { values = set s.values index (write value) })

module _ {ℓ} {T : Type ℓ} where
  pub remove_value : ℕ → Exec (StateSlab T) StateError T
  remove_value i s = elim (swap_remove s.values i) [
    | none ↦ (panic, s)
    | some (value, rest) ↦ (ok value, record s { values = rest })
  ]

  pub remove_dense : ℕ → Exec (StateSlab T) StateError (Unit {0})
  remove_dense i s = elim (swap_remove s.dense_slots i) [
    | none ↦ (panic, s)
    | some (_, rest) ↦ (ok tt, record s { dense_slots = rest })
  ]

  -- The slot of the value that was moved into the hole is pointed at it.
  pub relink : ℕ → Exec (StateSlab T) StateError (Unit {0})
  relink i s = elim (get_elem? s.dense_slots i) [
    | none ↦ (ok tt, s)
    | some moved_slot ↦ elim (get_elem? s.slots moved_slot) [
      | none ↦ (panic, s)
      | some slot ↦ (
        ok tt,
        record s { slots = set s.slots moved_slot (record slot { dense_index = as_u32 i }) },
      )
    ]
  ]

  -- The slot is vacated, and freed under its next generation if there is one.
  pub retire : ℕ → Exec (StateSlab T) StateError (Unit {0})
  retire i s = elim (get_elem? s.slots i) [
    | none ↦ (panic, s)
    | some slot ↦ elim (checked_add_u32 slot.generation 1) [
      | none ↦ (ok tt, record s { slots = set s.slots i (record slot { dense_index = vacant }) })
      | some generation ↦ (
        ok tt,
        record s {
          slots = set s.slots i (record { dense_index = vacant; generation = generation });
          free_slots = s.free_slots ++ i ∷ [];
        },
      )
    ]
  ]

  pub remove : EntityId → Exec (StateSlab T) StateError T
  unfolding dense_index
  remove id = do
    index ← asks (dense_index id)
    value ← remove_value index
    remove_dense index
    relink index
    retire id.slot
    pure value

  -- One entry of `iter`: the handle of a dense index's slot, and its value.
  iter_entry : StateSlab T → ℕ → T → Outcome StateError (EntityId × T)
  iter_entry s index value =
      and_then (expect (get_elem? s.slots index))
        λ slot. ok (record { shard = s.shard; slot = index; generation = slot.generation }, value)

  iter_from : StateSlab T → List ℕ → List T → Outcome StateError (List (EntityId × T))
  iter_from s [] vs = ok []
  iter_from s (i ∷ is) [] = ok []
  iter_from s (i ∷ is) (v ∷ vs) =
      let rest = iter_from s is vs in
      and_then (iter_entry s i v) λ e. and_then rest λ es. ok (e ∷ es)

  pub iter : StateSlab T → Outcome StateError (List (EntityId × T))
  unfolding iter_from iter_entry
  iter s = iter_from s s.dense_slots s.values
