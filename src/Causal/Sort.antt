-- ===== src/Causal/Sort.antt =====
-- `topological_sort` of crates/temnion-causal/src/lib.rs.
use temnion.Prelude.{
  ℕ, zero, suc, ◌+◌, ◌-◌, not, Option, none, some, List, [], ◌∷◌, ◌++◌, Outcome, ok, err, length,
  if◌then◌else◌, ◌==◌,
}
use temnion.Core.{EventId}
use temnion.Causal.{
  Map, CausalGraph, CausalError, format, sorting_cycle, lookup, store, or_insert, unwrap_or,
  immediate_effects,
}

unfoldable pub count_causes : List EventId → Map ℕ → Map ℕ
count_causes [] in_degree = in_degree
count_causes (cause ∷ causes) in_degree = count_causes causes (or_insert cause 0 in_degree)

unfoldable pub count_entry : EventId → List EventId → Map ℕ → Map ℕ
count_entry event causes in_degree =
    let counted = count_causes causes (or_insert event 0 in_degree) in
    store event (unwrap_or (lookup event counted) 0 + length causes) counted

unfoldable pub in_degrees : Map (List EventId) → Map ℕ → Map ℕ
in_degrees [] in_degree = in_degree
in_degrees ((event, causes) ∷ m) in_degree = in_degrees m (count_entry event causes in_degree)

unfoldable pub zero_in_degree : Map ℕ → List EventId
zero_in_degree [] = []
zero_in_degree ((event, deg) ∷ m) =
    let rest = zero_in_degree m in if deg == 0 then event ∷ rest else rest

-- The degrees and the queue while the effects of one event are taken off.
unfoldable pub lower : EventId → Map ℕ × List EventId → Map ℕ × List EventId
lower v (in_degree, queue) = elim (lookup v in_degree) [
  | none ↦ (in_degree, queue)
  | some deg ↦ (store v (deg - 1) in_degree, if deg - 1 == 0 then queue ++ v ∷ [] else queue)
]

unfoldable pub lower_all : List EventId → Map ℕ × List EventId → Map ℕ × List EventId
lower_all [] s = s
lower_all (v ∷ effects) s = lower_all effects (lower v s)

-- The loop over the queue; `none` where the fuel runs out.
unfoldable pub sort_from :
    CausalGraph → ℕ → Map ℕ × List EventId → List EventId → Option (List EventId)
sort_from g zero (in_degree, queue) order = none
sort_from g (suc fuel) (in_degree, queue) order = elim queue [
  | [] ↦ some order
  | u ∷ queue ↦
      sort_from g fuel (lower_all (immediate_effects g u) (in_degree, queue)) (order ++ u ∷ [])
]

-- The result for a number of turns of the loop: `none` where it is not done by then.
unfoldable pub topological_sort : ℕ → CausalGraph → Option (Outcome CausalError (List EventId))
topological_sort fuel g =
    let in_degree = in_degrees g.causes [] in
    elim (sort_from g fuel (in_degree, zero_in_degree in_degree) []) [
      | none ↦ none
      | some order ↦
          some (
            if not (length order == length in_degree) then err (format sorting_cycle) else ok order)
    ]
