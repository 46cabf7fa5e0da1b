-- ===== src/Runtime/Dag/Tests.antt =====
-- The task graph of crates/temnion-runtime/src/lib.rs at concrete inputs.
use temnion.Prelude.{
  ℕ, ◌≡◌, ◌≢◌, ◌⊎◌, refl, List, [], ◌∷◌, map, some, none, true, ok, err, map_get, map_insert,
  map_update, pop, pop_onto, arith,
}
use mathlib.Core.List.{Memᴰ}
use temnion.Runtime.{seal, compress, index, task_not_found, task_prerequisites_not_met}
use temnion.Runtime.Dag.{
  TaskId, TaskNode, TaskDag, new, new_task, is_pending, is_completed, zero_degrees, no_successors,
  add_edges, all_edges, zero_in_degree, count_down, visit_from, has_cycle, check_exist, take_id,
  keep_acyclic, add_task, check_completed, mark_running, mark_completed, all_done, ready_among,
  runs_before, insert_node, sort_nodes, ready_tasks,
}
use temnion.Runtime.Dag.Ready.{IsDag, IsReady, ready_tasks_lem, ready_tasks-progress}
use temnion.Runtime.Dag.Order.{Ordered}
use temnion.Runtime.Dag.Add.{added, added-IsDag, new-IsDag, add_task_cases}
use temnion.Runtime.Dag.Marks.{MarkedRunning, mark_running_cases}

-- Seal first; index and compress after it; summary after both.
abbrev sealing : TaskDag
sealing = added seal [] [] new

sealing-IsDag : IsDag sealing
sealing-IsDag = added-IsDag seal [] [] new new-IsDag tt

abbrev indexing : TaskDag
indexing = added index [] (0 ∷ []) sealing

indexing-IsDag : IsDag indexing
unfolding map_get map_insert
indexing-IsDag =
    added-IsDag index [] (0 ∷ []) sealing sealing-IsDag ((new_task 0 seal [] [], refl), tt)

abbrev compressing : TaskDag
compressing = added compress [] (0 ∷ 0 ∷ []) indexing

compressing-IsDag : IsDag compressing
unfolding map_get map_insert
compressing-IsDag =
    added-IsDag compress [] (0 ∷ 0 ∷ []) indexing indexing-IsDag
      ((new_task 0 seal [] [], refl), ((new_task 0 seal [] [], refl), tt))

abbrev Small : TaskDag → Type 0
Small dag = dag.next_id ≢ 18446744073709551615

indexing-Small : Small indexing
indexing-Small e = absurd (omega (arith, e))

add_task_cases_example :
    ((add_task compress [] (0 ∷ 0 ∷ []) indexing ≡ (ok 2, compressing)) × IsDag compressing)
    ⊎ ((d : TaskId) × Memᴰ d (0 ∷ 0 ∷ [])
        × (map_get d indexing.tasks ≡ none)
        × (add_task compress [] (0 ∷ 0 ∷ []) indexing ≡ (err (task_not_found d), indexing)))
add_task_cases_example =
    add_task_cases compress [] (0 ∷ 0 ∷ []) indexing indexing-IsDag indexing-Small

ready_tasks_lem_example :
    (nodes : List TaskNode) × (ready_tasks compressing ≡ ok (map (λ node. node.id) nodes))
    × Ordered nodes
    × ((node : TaskNode)
        → (Memᴰ node nodes → IsReady compressing node)
          × (IsReady compressing node → Memᴰ node nodes))
ready_tasks_lem_example = ready_tasks_lem compressing compressing-IsDag

sealing-settled :
    (k : ℕ) (node : TaskNode)
    → map_get k sealing.tasks ≡ some node
    → (is_pending node.status ≡ true) ⊎ (is_completed node.status ≡ true)
unfolding map_get map_insert
sealing-settled k node e = ground (arith, e)

ready_tasks-progress_example :
    (first : TaskId) × (others : List TaskId) × (ready_tasks sealing ≡ ok (first ∷ others))
unfolding map_get map_insert
ready_tasks-progress_example =
    ready_tasks-progress sealing sealing-IsDag sealing-settled 0 (new_task 0 seal [] []) refl refl

mark_running_cases_example : MarkedRunning 2 compressing
mark_running_cases_example = mark_running_cases 2 compressing compressing-IsDag

-- What the calls return.
ready_first : ready_tasks compressing ≡ ok (0 ∷ [])
unfolding ready_tasks ready_among all_done sort_nodes insert_node runs_before map_get map_insert
ready_first = refl

added_third : (add_task compress [] (0 ∷ 0 ∷ []) indexing).0 ≡ ok 2
unfolding add_task check_exist take_id keep_acyclic has_cycle visit_from count_down zero_in_degree
    all_edges add_edges no_successors zero_degrees map_get map_insert pop pop_onto
added_third = refl

unknown_dependency : (add_task compress [] (7 ∷ []) indexing).0 ≡ err (task_not_found 7)
unfolding add_task check_exist map_get map_insert
unknown_dependency = refl

not_yet : (mark_running 2 compressing).0 ≡ err (task_prerequisites_not_met 2)
unfolding mark_running check_completed map_get map_insert
not_yet = refl

-- With the seal completed, compress comes before index.
ready_next : ready_tasks (mark_completed 0 compressing).1 ≡ ok (2 ∷ 1 ∷ [])
unfolding mark_completed ready_tasks ready_among all_done sort_nodes insert_node runs_before map_get
    map_insert map_update
ready_next = refl
