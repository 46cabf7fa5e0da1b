-- ===== src/Runtime/Dag.antt =====
-- The background task graph of crates/temnion-runtime/src/lib.rs. The tasks stand in the order of
-- their identities; the source keeps them in a `HashMap`, and what it returns does not depend on the
-- order in which it walks them.
use temnion.Prelude.{
  ℕ, zero, suc, ◌+◌, ◌-◌, List, [], ◌∷◌, ◌++◌, map, Option, none, some, Bool, true, false, not,
  ◌&&◌, ◌||◌, ◌==◌, ltb, Outcome, ok, err, panic, and_then, expect, ok_or, Exec, pure, fail, asks,
  modify, ◌>>=◌, ◌>>◌, length, pop, u64_max, if◌then◌else◌, Map, map_get, map_insert, map_remove,
  map_update, map_values,
}
use temnion.Runtime.{
  RuntimeError, task_not_found, dependency_cycle_detected, task_prerequisites_not_met, TaskClass,
  class_rank,
}
pub mod Order
pub mod Ready
pub mod Edges
pub mod Built
pub mod Keys
pub mod Search
pub mod Acyclic
pub mod Add
pub mod Marks
mod Tests

abbrev pub TaskId : Type 0
TaskId = ℕ

pub data TaskStatus : Type 0 where
  pending running completed failed : TaskStatus

abbrev pub is_pending : TaskStatus → Bool
is_pending pending = true
is_pending _ = false

abbrev pub is_completed : TaskStatus → Bool
is_completed completed = true
is_completed _ = false

-- A text is the list of its bytes.
pub record TaskNode : Type 0 where
  pub id : TaskId
  pub class : TaskClass
  pub description : List ℕ
  pub status : TaskStatus
  pub dependencies : List TaskId

pub record TaskDag : Type 0 where
  pub tasks : Map TaskNode
  pub next_id : ℕ

abbrev pub new : TaskDag
new = record { tasks = []; next_id = 0 }

unfoldable pub task : TaskDag → TaskId → Option TaskNode
task dag id = map_get id dag.tasks

-- The zero degrees and the empty lists of successors that `has_cycle` starts from.
unfoldable pub zero_degrees : Map TaskNode → Map ℕ
zero_degrees tasks = map (λ e. (e.0, 0)) tasks

unfoldable pub no_successors : Map TaskNode → Map (List TaskId)
no_successors tasks = map (λ e. (e.0, [])) tasks

abbrev pub or_default {ℓ} : {A : Type ℓ} → Option A → A → A
or_default none d = d
or_default (some a) d = a

-- The edges of one task: `adj` and `in_degree` with its dependencies counted.
unfoldable pub add_edges :
    TaskId → List TaskId → Map (List TaskId) × Map ℕ → Map (List TaskId) × Map ℕ
add_edges id [] s = s
add_edges id (dep ∷ dependencies) (adj, in_degree) = add_edges id dependencies (
  map_insert dep (or_default (map_get dep adj) [] ++ id ∷ []) adj,
  map_insert id (or_default (map_get id in_degree) 0 + 1) in_degree,
)

unfoldable pub all_edges : List TaskNode → Map (List TaskId) × Map ℕ → Map (List TaskId) × Map ℕ
all_edges [] s = s
all_edges (node ∷ nodes) s = all_edges nodes (add_edges node.id node.dependencies s)

unfoldable pub zero_in_degree : Map ℕ → List TaskId
zero_in_degree [] = []
zero_in_degree ((id, degree) ∷ m) =
    let rest = zero_in_degree m in if degree == 0 then id ∷ rest else rest

-- The degrees and the queue while the successors of one task are counted down.
unfoldable pub count_down :
    List TaskId → Map ℕ × List TaskId → Outcome RuntimeError (Map ℕ × List TaskId)
count_down [] s = ok s
count_down (v ∷ successors) (in_degree, queue) = and_then (expect (map_get v in_degree)) (λ degree.
    if degree == 0
    then panic
    else count_down successors
        (map_insert v (degree - 1) in_degree, if degree - 1 == 0 then queue ++ v ∷ [] else queue))

-- The loop of `has_cycle` for a number of turns, and how many tasks it visited.
unfoldable pub visit_from :
    ℕ → Map (List TaskId) → Map ℕ × List TaskId → ℕ → Option (Outcome RuntimeError ℕ)
visit_from zero adj s visited = none
visit_from (suc turns) adj (in_degree, queue) visited = elim (pop queue) [
  | none ↦ some (ok visited)
  | some (u, queue) ↦
      elim (and_then (expect (map_get u adj)) (λ out. count_down out (in_degree, queue))) [
        | ok s ↦ visit_from turns adj s (visited + 1)
        | err e ↦ some (err e)
        | panic ↦ some panic
      ]
]

-- `has_cycle` for a number of turns: `none` where its loop is not done by then.
unfoldable pub has_cycle : ℕ → TaskDag → Option (Outcome RuntimeError Bool)
has_cycle turns dag =
    let (adj, in_degree) =
      all_edges (map_values dag.tasks) (no_successors dag.tasks, zero_degrees dag.tasks) in
    elim (visit_from turns adj (in_degree, zero_in_degree in_degree) 0) [
      | none ↦ none
      | some r ↦ some (and_then r (λ visited. ok (not (visited == length dag.tasks))))
    ]

-- The dependencies exist.
unfoldable pub check_exist : List TaskId → TaskDag → Outcome RuntimeError (Unit {0})
check_exist [] dag = ok tt
check_exist (dep ∷ dependencies) dag = elim (map_get dep dag.tasks) [
  | none ↦ err (task_not_found dep)
  | some node ↦ check_exist dependencies dag
]

abbrev pub new_task : TaskId → TaskClass → List ℕ → List TaskId → TaskNode
new_task id class description dependencies = record {
  id = id;
  class = class;
  description = description;
  status = pending;
  dependencies = dependencies;
}

-- The next identity; a `u64` that overflows panics.
unfoldable pub take_id : Exec TaskDag RuntimeError TaskId
take_id dag =
    if dag.next_id == u64_max
    then (panic, dag)
    else (ok dag.next_id, record dag { next_id = dag.next_id + 1 })

-- The new task is taken out again where it closes a cycle. The number of tasks and one more turns
-- are given to the search; where they are not enough, the model panics.
unfoldable pub keep_acyclic : TaskId → Exec TaskDag RuntimeError TaskId
keep_acyclic id dag = elim (has_cycle (length dag.tasks + 1) dag) [
  | none ↦ (panic, dag)
  | some panic ↦ (panic, dag)
  | some (err e) ↦ (err e, dag)
  | some (ok true) ↦ (err dependency_cycle_detected, record dag { tasks = map_remove id dag.tasks })
  | some (ok false) ↦ (ok id, dag)
]

unfoldable pub add_task : TaskClass → List ℕ → List TaskId → Exec TaskDag RuntimeError TaskId
add_task class description dependencies = do
  _ ← asks (check_exist dependencies)
  id ← take_id
  _ ← modify (λ dag. record dag {
    tasks = map_insert id (new_task id class description dependencies) dag.tasks;
  })
  keep_acyclic id

abbrev pub with_status : TaskStatus → TaskNode → TaskNode
with_status status node = record node { status = status }

abbrev pub set_status : TaskId → TaskStatus → Exec TaskDag RuntimeError (Unit {0})
set_status id status =
    modify (λ dag. record dag { tasks = map_update id (with_status status) dag.tasks })

-- All dependencies must be completed; an index of a task that is not there panics.
unfoldable pub check_completed : TaskId → List TaskId → TaskDag → Outcome RuntimeError (Unit {0})
check_completed id [] dag = ok tt
check_completed id (dep ∷ dependencies) dag =
    let rest = check_completed id dependencies dag in
    and_then (expect (map_get dep dag.tasks))
      (λ node. if not (is_completed node.status) then err (task_prerequisites_not_met id) else rest)

unfoldable pub mark_running : TaskId → Exec TaskDag RuntimeError (Unit {0})
mark_running id = do
  node ← asks (λ dag. ok_or (map_get id dag.tasks) (task_not_found id))
  _ ← asks (check_completed id node.dependencies)
  set_status id running

unfoldable pub mark_completed : TaskId → Exec TaskDag RuntimeError (Unit {0})
mark_completed id = do
  _ ← asks (λ dag. ok_or (map_get id dag.tasks) (task_not_found id))
  set_status id completed

unfoldable pub mark_failed : TaskId → Exec TaskDag RuntimeError (Unit {0})
mark_failed id = do
  _ ← asks (λ dag. ok_or (map_get id dag.tasks) (task_not_found id))
  set_status id failed

-- `all` stops at the first dependency that is not completed.
unfoldable pub all_done : List TaskId → Map TaskNode → Outcome RuntimeError Bool
all_done [] tasks = ok true
all_done (dep ∷ dependencies) tasks =
    let rest = all_done dependencies tasks in
    and_then (expect (map_get dep tasks))
      (λ node. if is_completed node.status then rest else ok false)

-- The pending tasks whose dependencies are completed.
unfoldable pub ready_among : Map TaskNode → List TaskNode → Outcome RuntimeError (List TaskNode)
ready_among tasks [] = ok []
ready_among tasks (node ∷ nodes) =
    let rest = ready_among tasks nodes in
    if not (is_pending node.status)
    then rest
    else and_then (all_done node.dependencies tasks)
        (λ done. and_then rest (λ ready. ok (if done then node ∷ ready else ready)))

-- Higher classes first, then lower identities.
unfoldable pub runs_before : TaskNode → TaskNode → Bool
runs_before a b =
    ltb (class_rank b.class) (class_rank a.class)
    || (class_rank b.class == class_rank a.class && ltb a.id b.id)

unfoldable pub insert_node : TaskNode → List TaskNode → List TaskNode
insert_node a [] = a ∷ []
insert_node a (b ∷ nodes) = if runs_before b a then b ∷ insert_node a nodes else a ∷ b ∷ nodes

unfoldable pub sort_nodes : List TaskNode → List TaskNode
sort_nodes [] = []
sort_nodes (a ∷ nodes) = insert_node a (sort_nodes nodes)

unfoldable pub ready_tasks : TaskDag → Outcome RuntimeError (List TaskId)
ready_tasks dag =
    and_then (ready_among dag.tasks (map_values dag.tasks))
      (λ ready. ok (map (λ node. node.id) (sort_nodes ready)))
