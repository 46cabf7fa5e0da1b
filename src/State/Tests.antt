-- ===== src/State/Tests.antt =====
-- Runs of temnion-state at concrete inputs, as in the tests of crates/temnion-state/src/lib.rs.
use temnion.Prelude.{
  ℕ, ◌≡◌, ◌≢◌, ◌⊎◌, refl, ◌+◌, some, List, [], ◌∷◌, ok, err, arith, length, get_elem?, pop,
  swap_remove, if◌then◌else◌,
}
use temnion.Core.{EntityId, entity_eq}
use temnion.State.{
  StateSlab, len, take_slot, fill_slot, insert, get, get_mut, remove_value, remove_dense, relink,
  retire, remove, iter, invalid_entity, capacity_exceeded,
}
use temnion.State.Inv.{IsValid, fresh, fresh-IsValid}
use temnion.State.Fill.{IsFull}
use temnion.State.Insert.{Inserted, insert_cases, get-insert}
use temnion.State.Removed.{remove_lem}
use temnion.State.Update.{get_mut_lem}
use temnion.State.Trace.{Op, add, take, write, Reply, step, run, contents, AllowedRun}
use temnion.State.Refine.{run_refines}
use temnion.State.Stale.{removed_for_good}
use temnion.State.Iter.{iter_lem}

abbrev empty_slab : StateSlab ℕ
empty_slab = fresh 7 2

abbrev id : ℕ → ℕ → EntityId
id slot generation = record { shard = 7; slot = slot; generation = generation }

-- Two values, in slots 0 and 1.
abbrev two : StateSlab ℕ
two = record {
  shard = 7;
  capacity = 2;
  slots =
      record { dense_index = 0; generation = 0 } ∷ record { dense_index = 1; generation = 0 } ∷ [];
  values = 10 ∷ 20 ∷ [];
  dense_slots = 0 ∷ 1 ∷ [];
  free_slots = [];
}

two_built :
    run empty_slab (add 10 ∷ add 20 ∷ []) ≡ (Reply.added (id 0 0) ∷ Reply.added (id 1 0) ∷ [], two)
unfolding run step insert take_slot fill_slot pop
two_built = refl

reuse : (run two (take (id 0 0) ∷ add 30 ∷ [])).0 ≡ Reply.took 10 ∷ Reply.added (id 0 1) ∷ []
unfolding run step insert take_slot fill_slot remove remove_value remove_dense relink retire pop
    swap_remove
reuse = refl

empty-IsValid : IsValid empty_slab
empty-IsValid = fresh-IsValid 7 2 (omega arith)

two-IsValid : IsValid two
unfolding run step insert take_slot fill_slot pop
two-IsValid = (run_refines (add 10 ∷ add 20 ∷ []) empty_slab empty-IsValid).1

insert_cases_example :
    (IsFull two × (insert 30 two ≡ (err capacity_exceeded, two)))
    ⊎ ((i : EntityId) × (s' : StateSlab ℕ) × (insert 30 two ≡ (ok i, s')) × Inserted two 30 i s')
insert_cases_example = insert_cases two 30 two-IsValid

get-insert_example : get (id 0 0) (insert 10 empty_slab).1 ≡ ok 10
unfolding insert take_slot fill_slot pop
get-insert_example = get-insert empty_slab 10 {id = id 0 0} empty-IsValid refl (id 0 0)

remove_lem_example :
    ((remove (id 0 0) two).0 ≡ get (id 0 0) two)
    × IsValid (remove (id 0 0) two).1
    × ((other : EntityId)
        → get other (remove (id 0 0) two).1
          ≡ (if entity_eq (id 0 0) other then err (invalid_entity other) else get other two))
remove_lem_example = remove_lem two (id 0 0) two-IsValid

get_mut_lem_example :
    IsValid (get_mut (id 1 0) (λ v. v + 5) two).1
    × (((value : ℕ) × (get (id 1 0) two ≡ ok value)
          × ((get_mut (id 1 0) (λ v. v + 5) two).0 ≡ ok tt)
          × ((other : EntityId)
              → get other (get_mut (id 1 0) (λ v. v + 5) two).1
                ≡ (if entity_eq (id 1 0) other then ok (value + 5) else get other two)))
        ⊎ ((get (id 1 0) two ≡ err (invalid_entity (id 1 0)))
            × (get_mut (id 1 0) (λ v. v + 5) two ≡ (err (invalid_entity (id 1 0)), two))))
get_mut_lem_example = get_mut_lem two (id 1 0) (λ v. v + 5) two-IsValid

abbrev script : List (Op ℕ)
script = take (id 0 0) ∷ add 30 ∷ take (id 0 0) ∷ write (id 0 1) (λ v. v + 1) ∷ add 40 ∷ []

run_refines_example :
    AllowedRun (contents (run two script).1) (contents two) script (run two script).0
    × IsValid (run two script).1
run_refines_example = run_refines script two two-IsValid

removed : remove (id 0 0) two ≡ (ok 10, (remove (id 0 0) two).1)
unfolding remove remove_value remove_dense relink retire pop swap_remove
removed = refl

removed_for_good_example :
    (get (id 0 0) (run (remove (id 0 0) two).1 script).1 ≡ err (invalid_entity (id 0 0)))
    × ((fresh : ℕ) (new_id : EntityId) (s'' : StateSlab ℕ)
        → insert fresh (run (remove (id 0 0) two).1 script).1 ≡ (ok new_id, s'')
        → new_id ≢ id 0 0)
removed_for_good_example = removed_for_good two (id 0 0) {value = 10} script two-IsValid removed

iter_lem_example :
    (es : List (EntityId × ℕ)) × (iter two ≡ ok es)
    × (length es ≡ len two)
    × ((k : ℕ) (i : EntityId) (value : ℕ) → get_elem? es k ≡ some (i, value) → get i two ≡ ok value)
    × ((i : EntityId) (value : ℕ)
        → get i two ≡ ok value
        → (k : ℕ) × (get_elem? es k ≡ some (i, value)))
iter_lem_example = iter_lem two two-IsValid
