-- ===== src/Storage/Tests.antt =====
-- Reference holds and retention of crates/temnion-storage/src/lifecycle.rs at concrete inputs.
use temnion.Prelude.{ℕ, ◌≡◌, ◌↔◌, ◌⊎◌, refl, List, [], ◌∷◌, true, false, none, some}
use mathlib.Core.List.{Memᴰ}
use temnion.Format.{StoredEvent}
use temnion.Index.Morton.{insert_code, sort_codes, dedup_after, dedup}
use temnion.Index.Codes.{Increasing}
use temnion.Storage.Lifecycle.{
  contains_number, set_insert, ReferenceHold, new_hold, hold_sequence, hold_from, hold_range,
  hold_branch, is_sequence_held, is_branch_held, RetentionPolicy, is_held, push_aged, push_excess,
  aged_candidates, excess_candidates, evaluate_reclaimable,
}
use temnion.Storage.Candidates.{Free}
use temnion.Storage.Reclaim.{Aged, Surplus, evaluate_reclaimable_iff}

abbrev event : ℕ → ℕ → StoredEvent
event sequence ticks = record {
  id = record { source = 1; epoch = 0; sequence = sequence };
  entity = record { shard = 0; slot = 1; generation = 1 };
  times = record {
    valid = record { clock = 1; ticks = ticks };
    observed = none;
    known = record { clock = 2; ticks = ticks };
  };
  schema = 1;
  payload = [];
  causes = [];
}

abbrev events : List StoredEvent
events = event 1 10 ∷ event 2 200 ∷ event 3 20 ∷ event 4 10 ∷ event 5 90 ∷ []

-- A hold on the sequences 4 to 5 and on branch 7.
abbrev held : ReferenceHold
unfolding hold_branch hold_range hold_from hold_sequence set_insert contains_number
held = hold_branch 7 (hold_range 4 5 (new_hold [] [] 0))

abbrev policy : RetentionPolicy
policy = record { max_age_ticks = some 50; max_retained_events = some 3 }

held_sequence : is_sequence_held 5 held ≡ true
unfolding held hold_branch hold_range hold_from hold_sequence set_insert contains_number
held_sequence = refl

free_sequence : is_sequence_held 6 held ≡ false
unfolding held hold_branch hold_range hold_from hold_sequence set_insert contains_number
free_sequence = refl

held_branch : is_branch_held 7 held ≡ true
unfolding held hold_branch hold_range hold_from hold_sequence set_insert contains_number
held_branch = refl

-- The events 1 and 3 are old, 1 and 2 are too many, and 4 is old but held.
reclaims : evaluate_reclaimable policy events 100 (held ∷ []) ≡ 1 ∷ 2 ∷ 3 ∷ []
unfolding held hold_branch hold_range hold_from hold_sequence set_insert contains_number
    evaluate_reclaimable aged_candidates excess_candidates push_aged push_excess is_held sort_codes
    insert_code dedup dedup_after
reclaims = refl

evaluate_reclaimable_iff_example :
    Increasing (evaluate_reclaimable policy events 100 (held ∷ []))
    × ((s : ℕ)
        → Memᴰ s (evaluate_reclaimable policy events 100 (held ∷ []))
          ↔ (Free (held ∷ []) s × (Aged policy events 100 s ⊎ Surplus policy events s)))
evaluate_reclaimable_iff_example = evaluate_reclaimable_iff policy events 100 (held ∷ [])
