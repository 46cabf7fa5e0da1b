-- ===== src/State/Trace.antt =====
-- Sequences of calls on one slab, as the test `operation_sequence_matches_a_reference_map` makes
-- them, and the reference map that such a sequence is compared with.
use temnion.Prelude.{◌≡◌, Option, none, some, List, [], ◌∷◌, Outcome, ok, err, panic, if◌then◌else◌}
use temnion.Core.{EntityId, entity_eq}
use temnion.State.{
  StateSlab, StateError, insert, remove, get_mut, get, capacity_exceeded, invalid_entity,
}

pub data Op {ℓ} (T : Type ℓ) : Type ℓ where
  add : T → Op T
  take : EntityId → Op T
  write : EntityId → (T → T) → Op T

pub data Reply {ℓ} (T : Type ℓ) : Type ℓ where
  added : EntityId → Reply T
  took : T → Reply T
  wrote : Reply T
  refused : StateError → Reply T
  panicked : Reply T

abbrev pub reply {ℓ κ} :
    {T : Type ℓ} {A : Type κ}
    → (A → Reply T)
    → Outcome StateError A × StateSlab T
    → Reply T × StateSlab T
reply f (ok a, s) = (f a, s)
reply f (err e, s) = (refused e, s)
reply f (panic, s) = (panicked, s)

module _ {ℓ} {T : Type ℓ} where
  -- One call on the slab.
  unfoldable pub step : Op T → StateSlab T → Reply T × StateSlab T
  step (add value) s = reply added (insert value s)
  step (take id) s = reply took (remove id s)
  step (write id f) s = reply (λ _. wrote) (get_mut id f s)

  unfoldable pub run : StateSlab T → List (Op T) → List (Reply T) × StateSlab T
  run s [] = ([], s)
  run s (op ∷ ops) = let (r, s') = step op s in let (rs, s'') = run s' ops in (r ∷ rs, s'')

  -- What a client can see of a slab: the value of each live handle.
  unfoldable pub contents : StateSlab T → EntityId → Option T
  contents s id = elim (get id s) [ ok value ↦ some value | _ ↦ none ]

-- The reference map. A call may answer `r` on the map `m` and leave the map `m'`.
pub data Allowed {ℓ} {T : Type ℓ} (m m' : EntityId → Option T) : Op T → Reply T → Type ℓ where
  add_fresh :
      {value : T} {id : EntityId}
      → m id ≡ none
      → ((other : EntityId) → m' other ≡ (if entity_eq id other then some value else m other))
      → Allowed m m' (add value) (added id)
  add_full :
      {value : T}
      → ((other : EntityId) → m' other ≡ m other)
      → Allowed m m' (add value) (refused capacity_exceeded)
  take_live :
      {id : EntityId} {value : T}
      → m id ≡ some value
      → ((other : EntityId) → m' other ≡ (if entity_eq id other then none else m other))
      → Allowed m m' (take id) (took value)
  take_dead :
      {id : EntityId}
      → m id ≡ none
      → ((other : EntityId) → m' other ≡ m other)
      → Allowed m m' (take id) (refused (invalid_entity id))
  write_live :
      {id : EntityId} {f : T → T} {value : T}
      → m id ≡ some value
      → ((other : EntityId) → m' other ≡ (if entity_eq id other then some (f value) else m other))
      → Allowed m m' (write id f) wrote
  write_dead :
      {id : EntityId} {f : T → T}
      → m id ≡ none
      → ((other : EntityId) → m' other ≡ m other)
      → Allowed m m' (write id f) (refused (invalid_entity id))

pub data AllowedRun {ℓ} {T : Type ℓ} (m' : EntityId → Option T)
    : (EntityId → Option T) → List (Op T) → List (Reply T) → Type ℓ where
  stop : AllowedRun m' m' [] []
  then_run :
      {m between : EntityId → Option T} {op : Op T} {r : Reply T} {ops : List (Op T)}
      {rs : List (Reply T)}
      → Allowed m between op r
      → AllowedRun m' between ops rs
      → AllowedRun m' m (op ∷ ops) (r ∷ rs)
