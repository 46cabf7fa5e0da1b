-- ===== src/Causal.antt =====
-- crates/temnion-causal/src/lib.rs: the causal graph of events, its cycle check and its ancestry.
-- A `BTreeMap` is a list of entries in the order of their keys, a `BTreeSet` a list of members.
use temnion.Prelude.{
  ℕ, zero, suc, ◌+◌, Bool, true, false, ◌||◌, Option, none, some, List, [], ◌∷◌, ◌++◌, Outcome, ok,
  err, Exec, ◌>>◌, asks, modify, length, if◌then◌else◌,
}
use temnion.Core.{EventId, event_eq, event_lt}
pub mod Members
pub mod Normal
pub mod Acyclic
pub mod Effects
pub mod Visits
pub mod Ancestors
pub mod Trace
pub mod Sort
pub mod Csr
pub mod RoundTrip
mod Tests

-- The texts that `Format` carries.
pub data Malformed : Type 0 where
  sorting_cycle : Malformed
  short_header : Malformed
  short_events : Malformed
  short_cause_count : Malformed
  short_causes : Malformed
  short_effect_count : Malformed
  short_effects : Malformed

pub data CausalError : Type 0 where
  cycle_detected : (from to : EventId) → CausalError
  event_not_found : EventId → CausalError
  format : Malformed → CausalError
  checksum_mismatch : CausalError
  invalid_magic : CausalError
  unsupported_version : ℕ → CausalError

abbrev pub Map {ℓ} : Type ℓ → Type ℓ
Map V = List (EventId × V)

unfoldable pub lookup {ℓ} : {V : Type ℓ} → EventId → Map V → Option V
lookup k [] = none
lookup k ((key, v) ∷ m) = if event_eq k key then some v else lookup k m

-- The entry takes its place in the order of the keys.
unfoldable pub store {ℓ} : {V : Type ℓ} → EventId → V → Map V → Map V
store k v [] = (k, v) ∷ []
store k v ((key, w) ∷ m) =
    if event_eq k key
    then (k, v) ∷ m
    else if event_lt k key
    then (k, v) ∷ (key, w) ∷ m
    else (key, w) ∷ store k v m

abbrev pub unwrap_or {ℓ} : {A : Type ℓ} → Option A → A → A
unwrap_or none d = d
unwrap_or (some a) d = a

-- `entry(k).or_insert(v)`
unfoldable pub or_insert {ℓ} : {V : Type ℓ} → EventId → V → Map V → Map V
or_insert k v m = store k (unwrap_or (lookup k m) v) m

unfoldable pub member : EventId → List EventId → Bool
member e [] = false
member e (x ∷ xs) = event_eq e x || member e xs

pub record CausalGraph : Type 0 where
  pub causes : Map (List EventId)
  pub effects : Map (List EventId)

-- `CausalGraph::new`
abbrev pub new : CausalGraph
new = record { causes = []; effects = [] }

unfoldable pub immediate_causes : CausalGraph → EventId → List EventId
immediate_causes g event = unwrap_or (lookup event g.causes) []

unfoldable pub immediate_effects : CausalGraph → EventId → List EventId
immediate_effects g event = unwrap_or (lookup event g.effects) []

-- The causes of one event: `none` where the ancestor is among them, else the visited set and the
-- queue with those that were not visited.
unfoldable pub visit :
    EventId → List EventId → List EventId → List EventId → Option (List EventId × List EventId)
visit ancestor [] visited queue = some (visited, queue)
visit ancestor (c ∷ causes) visited queue =
    let seen = member c visited in
    if event_eq c ancestor
    then none
    else visit ancestor causes (if seen then visited else c ∷ visited)
        (if seen then queue else queue ++ c ∷ [])

-- The loop over the queue.
unfoldable pub search : CausalGraph → EventId → ℕ → List EventId → List EventId → Bool
search g ancestor fuel visited [] = false
search g ancestor zero visited (current ∷ queue) = false
search g ancestor (suc fuel) visited (current ∷ queue) =
    elim (visit ancestor (immediate_causes g current) visited queue) [
      | none ↦ true
      | some (visited, queue) ↦ search g ancestor fuel visited queue
    ]

-- An event enters the queue once, and but for the first one as a listed cause.
unfoldable pub listed : Map (List EventId) → List EventId
listed [] = []
listed ((key, causes) ∷ m) = causes ++ listed m

unfoldable pub is_ancestor_of : CausalGraph → EventId → EventId → Bool
is_ancestor_of g ancestor descendant =
    if event_eq ancestor descendant
    then true
    else search g ancestor (suc (length (listed g.causes))) (descendant ∷ []) (descendant ∷ [])

-- `sort_unstable`: on a total order every sort gives this list.
unfoldable pub insert_sorted : EventId → List EventId → List EventId
insert_sorted e [] = e ∷ []
insert_sorted e (x ∷ xs) = if event_lt x e then x ∷ insert_sorted e xs else e ∷ x ∷ xs

unfoldable pub sort : List EventId → List EventId
sort [] = []
sort (x ∷ xs) = insert_sorted x (sort xs)

-- `dedup`: of equal neighbours the first stays.
unfoldable pub dedup_after : EventId → List EventId → List EventId
dedup_after x [] = []
dedup_after x (y ∷ ys) = let rest = dedup_after y ys in if event_eq x y then rest else y ∷ rest

unfoldable pub dedup : List EventId → List EventId
dedup [] = []
dedup (x ∷ xs) = x ∷ dedup_after x xs

unfoldable pub check_causes : CausalGraph → EventId → List EventId → Outcome CausalError (Unit {0})
check_causes g event [] = ok tt
check_causes g event (cause ∷ causes) =
    if event_eq cause event || is_ancestor_of g event cause
    then err (cycle_detected event cause)
    else check_causes g event causes

unfoldable pub with_effect : EventId → List EventId → List EventId
with_effect event effect_list =
    if member event effect_list then effect_list else effect_list ++ event ∷ []

unfoldable pub add_effects : EventId → List EventId → Map (List EventId) → Map (List EventId)
add_effects event [] effects = effects
add_effects event (cause ∷ causes) effects =
    add_effects event causes
      (store cause (with_effect event (unwrap_or (lookup cause effects) [])) effects)

unfoldable pub register : EventId → List EventId → CausalGraph → CausalGraph
register event causes g = record {
  causes = store event causes g.causes;
  effects = or_insert event [] (add_effects event causes g.effects);
}

unfoldable pub add_event : EventId → List EventId → Exec CausalGraph CausalError (Unit {0})
add_event event causes =
    let sorted = dedup (sort causes) in
    asks (λ g. check_causes g event sorted) >> modify (register event sorted)
