-- ===== src/Causal/Tests.antt =====
-- The causal graph of crates/temnion-causal/src/lib.rs at concrete inputs.
use temnion.Prelude.{
  ◌↔◌, ◌⊎◌, arith, true, ℕ, zero, suc, ◌%◌, ◌+◌, ◌≡◌, refl, ap, subst, ◌∙◌, none, some, List, [],
  ◌∷◌, ◌++◌, Outcome, ok, err, ◌>>◌,
}
use temnion.Core.{EventId}
use temnion.Codec.BitPack.{words_of, bytes_of}
use temnion.Causal.{
  Map, CausalGraph, CausalError, new, add_event, is_ancestor_of, immediate_effects, cycle_detected,
  register, add_effects, with_effect, check_causes, search, visit, listed, immediate_causes, member,
  store, lookup, or_insert, sort, insert_sorted, dedup, dedup_after,
}
use temnion.Causal.Members.{member-nil, member-later}
use temnion.Causal.Ancestors.{Upstream, is_ancestor_of_iff}
use temnion.Causal.Acyclic.{Registered, add_event_cases}
use temnion.Causal.Effects.{IsCausal, new-IsCausal, add_event-IsCausal}
use temnion.Codec.Frame.{IsChecksum}
use temnion.Causal.RoundTrip.{Words, Below, Fits, decode-encode}
use temnion.Causal.Sort.{
  topological_sort, in_degrees, count_entry, count_causes, zero_in_degree, sort_from, lower,
  lower_all,
}
use temnion.Causal.Csr.{CsrCausalGraph}
use temnion.Causal.Csr.{
  to_csr, encode, decode, push_missing, pack_rows, indices, index_of, body_bytes, side_bytes,
  event_bytes, decode_body, read_events, read_side, read_counted,
}

abbrev id : ℕ → EventId
id n = record { source = 1; epoch = 1; sequence = n }

abbrev sum : List ℕ → ℕ
sum [] = 0
sum (b ∷ bytes) = (b + sum bytes) % 4294967296

abbrev diamond : Outcome CausalError (Unit {0}) × CausalGraph
diamond =
    (add_event (id 1) []
        >> add_event (id 2) (id 1 ∷ [])
        >> add_event (id 3) (id 1 ∷ [])
        >> add_event (id 4) (id 3 ∷ id 2 ∷ id 3 ∷ []))
      new

big_steps : topological_sort 10 diamond.1 ≡ some (ok (id 1 ∷ id 2 ∷ id 3 ∷ id 4 ∷ []))
unfolding add_event register add_effects with_effect check_causes is_ancestor_of search visit listed
    immediate_causes member store lookup or_insert sort insert_sorted dedup dedup_after
    topological_sort in_degrees count_entry count_causes zero_in_degree sort_from lower lower_all
    immediate_effects
big_steps = refl

packed_trip : decode sum (encode sum (to_csr diamond.1)) ≡ ok (to_csr diamond.1)
unfolding add_event register add_effects with_effect check_causes is_ancestor_of search visit listed
    immediate_causes member store lookup or_insert sort insert_sorted dedup dedup_after to_csr
    push_missing pack_rows indices index_of encode decode body_bytes side_bytes event_bytes
    decode_body read_events read_side read_counted words_of bytes_of
packed_trip = refl

closing_edge :
    add_event (id 1) (id 4 ∷ []) diamond.1 ≡ (err (cycle_detected (id 1) (id 4)), diamond.1)
unfolding add_event register add_effects with_effect check_causes is_ancestor_of search visit listed
    immediate_causes member store lookup or_insert sort insert_sorted dedup dedup_after
closing_edge = refl

-- An event that is registered again without its cause, and then as that cause's cause: the effects
-- that it leaves behind keep it in the queue of the sort.
abbrev again : CausalGraph
again =
    (((add_event (id 2) (id 1 ∷ []) >> add_event (id 2) []) >> add_event (id 1) (id 2 ∷ [])) new).1

abbrev looping : CausalGraph
looping = record {
  causes = (id 1, id 2 ∷ []) ∷ (id 2, []) ∷ [];
  effects = (id 1, id 2 ∷ []) ∷ (id 2, id 1 ∷ []) ∷ [];
}

again_lem : again ≡ looping
unfolding add_event register add_effects with_effect check_causes is_ancestor_of search visit listed
    immediate_causes member store lookup or_insert sort insert_sorted dedup dedup_after
again_lem = refl

abbrev none_left : Map ℕ
none_left = (id 1, 0) ∷ (id 2, 0) ∷ []

-- Whatever number of turns the loop is given, it is not done.
sort_from_loops :
    (fuel : ℕ) (order : List EventId)
    → (sort_from looping fuel (none_left, id 1 ∷ []) order ≡ none)
      × (sort_from looping fuel (none_left, id 2 ∷ []) order ≡ none)
unfolding sort_from lower_all lower lookup store immediate_effects
sort_from_loops zero order = (refl, refl)
sort_from_loops (suc fuel) order =
    ((sort_from_loops fuel (order ++ id 1 ∷ [])).1, (sort_from_loops fuel (order ++ id 2 ∷ [])).0)

abbrev first_turn : Map ℕ × List EventId
first_turn = ((id 1, 1) ∷ (id 2, 0) ∷ [], id 2 ∷ [])

sort_from_starts : (fuel : ℕ) → sort_from looping fuel first_turn [] ≡ none
unfolding sort_from lower_all lower lookup store immediate_effects
sort_from_starts zero = refl
sort_from_starts (suc fuel) = (sort_from_loops fuel (id 2 ∷ [])).0

looping_sort : (fuel : ℕ) → topological_sort fuel looping ≡ none
unfolding topological_sort in_degrees count_entry count_causes zero_in_degree or_insert lookup store
looping_sort fuel = rw (topological_sort, sort_from_starts fuel)

-- `topological_sort` of that graph never returns.
topological_sort_loops : (fuel : ℕ) → topological_sort fuel again ≡ none
topological_sort_loops fuel = ap (topological_sort fuel) again_lem ∙ looping_sort fuel

is_ancestor_of_iff_example :
    (is_ancestor_of diamond.1 (id 1) (id 4) ≡ true) ↔ Upstream diamond.1 (id 1) (id 4)
is_ancestor_of_iff_example = is_ancestor_of_iff diamond.1 (id 1) (id 4)

add_event_cases_example :
    ((c : EventId) × (member c (id 4 ∷ []) ≡ true)
      × Upstream diamond.1 (id 1) c
      × (add_event (id 1) (id 4 ∷ []) diamond.1 ≡ (err (cycle_detected (id 1) c), diamond.1)))
    ⊎ (((c : EventId) → member c (id 4 ∷ []) ≡ true → ¬ Upstream diamond.1 (id 1) c)
        × ((g' : CausalGraph) × (add_event (id 1) (id 4 ∷ []) diamond.1 ≡ (ok tt, g'))
            × Registered diamond.1 (id 1) (id 4 ∷ []) g'))
add_event_cases_example = add_event_cases diamond.1 (id 1) (id 4 ∷ [])

-- The event 2, which the event 1 causes.
abbrev caused : CausalGraph
caused = (add_event (id 2) (id 1 ∷ []) new).1

caused-IsCausal : IsCausal caused
unfolding immediate_causes lookup
caused-IsCausal =
    add_event-IsCausal new (id 2) (id 1 ∷ []) (λ c k. absurd (member-nil c k)) new-IsCausal

caused_causes : immediate_causes caused (id 2) ≡ id 1 ∷ []
unfolding add_event register add_effects with_effect check_causes is_ancestor_of search visit listed
    immediate_causes member store lookup or_insert sort insert_sorted dedup dedup_after
caused_causes = refl

given_again :
    (c : EventId)
    → member c (immediate_causes caused (id 2)) ≡ true
    → member c (id 3 ∷ id 1 ∷ []) ≡ true
given_again c k = member-later c (id 3) (id 1 ∷ []) (subst (λ l. member c l ≡ true) caused_causes k)

-- It is registered again with one more cause.
add_event-IsCausal_example : IsCausal (add_event (id 2) (id 3 ∷ id 1 ∷ []) caused).1
add_event-IsCausal_example =
    add_event-IsCausal caused (id 2) (id 3 ∷ id 1 ∷ []) given_again caused-IsCausal

abbrev packed : CsrCausalGraph
packed = record {
  events = id 1 ∷ id 2 ∷ id 3 ∷ id 4 ∷ [];
  cause_offsets = 0 ∷ 0 ∷ 1 ∷ 2 ∷ 4 ∷ [];
  cause_indices = 0 ∷ 0 ∷ 1 ∷ 2 ∷ [];
  effect_offsets = 0 ∷ 2 ∷ 3 ∷ 4 ∷ 4 ∷ [];
  effect_indices = 1 ∷ 2 ∷ 3 ∷ 3 ∷ [];
}

sum-IsChecksum : IsChecksum sum
sum-IsChecksum [] = omega arith
sum-IsChecksum (b ∷ bytes) = omega arith

packed-Fits : Fits packed
unfolding Words Below
packed-Fits = record {
  few_events = omega arith;
  words = ground arith;
  cause_rows = refl;
  few_causes = omega arith;
  small_cause_offsets = ground arith;
  small_causes = ground arith;
  effect_rows = refl;
  few_effects = omega arith;
  small_effect_offsets = ground arith;
  small_effects = ground arith;
}

decode-encode_example : decode sum (encode sum packed) ≡ ok packed
decode-encode_example = decode-encode sum packed sum-IsChecksum packed-Fits
