-- ===== src/Runtime/Dag/Marks.antt =====
-- `mark_running`, `mark_completed` and `mark_failed` of crates/temnion-runtime/src/lib.rs: what they
-- do on every branch, and that the task graph stays one whose tasks name earlier tasks only.
use temnion.Prelude.{
  ℕ, ◌≡◌, ◌⊎◌, refl, ap, sym, ◌∙◌, subst, List, [], ◌∷◌, none, some, some-injective, false, not,
  Bool-cases, Option-cases, inl, inr, cond_true, cond_false, ◌==◌, ==_iff, Each, map_get,
  map_update, map_update-IsMap, map_get-map_update_self, map_get-map_update_ne, ok, err, and_then,
  expect, ok_or, bind-ok, bind-err, asks, ◌>>=◌, arith, if◌then◌else◌,
}
use mathlib.Core.List.{Memᴰ}
use temnion.Runtime.{task_not_found, task_prerequisites_not_met}
use temnion.Runtime.Dag.{
  TaskId, TaskStatus, running, TaskNode, TaskDag, is_completed, with_status, check_completed,
  set_status, mark_running,
}
use temnion.Runtime.Dag.Ready.{Earlier, IsDag, Done}

-- The graph with one status changed.
abbrev pub marked : TaskId → TaskStatus → TaskDag → TaskDag
marked id status dag = record dag { tasks = map_update id (with_status status) dag.tasks }

module _ (id : TaskId) (status : TaskStatus) (dag : TaskDag) (h : IsDag dag) {node : TaskNode}
    (there : map_get id dag.tasks ≡ some node) where
  -- An entry after the change comes from one before it, with the same identity and dependencies.
  from_before :
      (k : ℕ) (n : TaskNode)
      → map_get k (map_update id (with_status status) dag.tasks) ≡ some n
      → (old : TaskNode) × (map_get k dag.tasks ≡ some old)
        × (old.id ≡ n.id)
        × (old.dependencies ≡ n.dependencies)
  from_before k n e = elim (Bool-cases (k == id)) [
    | inl same ↦
        let at = (==_iff k id).0 same in
        let is : with_status status node ≡ n = some-injective _ _ (
          sym (map_get-map_update_self id (with_status status) dag.tasks there)
          ∙ ap (λ k. map_get k (map_update id (with_status status) dag.tasks)) (sym at)
          ∙ e) in
        (
          node,
          ap (λ k. map_get k dag.tasks) at ∙ there,
          ap (λ n. n.id) is,
          ap (λ n. n.dependencies) is,
        )
    | inr other ↦ (
      n,
      sym (
            map_get-map_update_ne k id (with_status status) dag.tasks
              (λ e. ground (arith, other, e)))
          ∙ e,
      refl,
      refl,
    )
  ]

  still_there :
      (k : ℕ) (n : TaskNode)
      → map_get k dag.tasks ≡ some n
      → (m : TaskNode) × (map_get k (map_update id (with_status status) dag.tasks) ≡ some m)
  still_there k n e = elim (Bool-cases (k == id)) [
    | inl same ↦ (
      with_status status n,
      ap (λ k. map_get k (map_update id (with_status status) dag.tasks)) ((==_iff k id).0 same)
          ∙ map_get-map_update_self id (with_status status) dag.tasks
              (ap (λ k. map_get k dag.tasks) (sym ((==_iff k id).0 same)) ∙ e),
    )
    | inr other ↦ (
      n,
      map_get-map_update_ne k id (with_status status) dag.tasks (λ e. ground (arith, other, e)) ∙ e,
    )
  ]

  still-Earlier :
      (k : ℕ) (ds : List TaskId)
      → Each (Earlier dag.tasks k) ds
      → Each (Earlier (map_update id (with_status status) dag.tasks) k) ds
  still-Earlier k [] e = tt
  still-Earlier k (d ∷ ds) ((less, (n, found)), e) =
      ((less, still_there d n found), still-Earlier k ds e)

  pub marked-IsDag : IsDag (marked id status dag)
  marked-IsDag = record {
    keys = map_update-IsMap id (with_status status) dag.tasks h.keys;
    own = λ k n e. let (old, found, same, _) = from_before k n e in sym same ∙ h.own k old found;
    earlier = λ k n e.
        let (old, found, _, deps) = from_before k n e in
        subst (Each (Earlier (map_update id (with_status status) dag.tasks) k)) deps
          (still-Earlier k old.dependencies (h.earlier k old found));
    used = λ k n e. let (old, found, _, _) = from_before k n e in h.used k old found;
  }

-- A dependency that is there and not completed.
abbrev pub Blocks : TaskDag → TaskId → Type 0
Blocks dag d = (n : TaskNode) × (map_get d dag.tasks ≡ some n) × (is_completed n.status ≡ false)

check_completed_cases :
    (id k : TaskId) (dag : TaskDag) (ds : List TaskId)
    → Each (Earlier dag.tasks k) ds
    → (Each (Done dag.tasks) ds × (check_completed id ds dag ≡ ok tt))
      ⊎ (((d : TaskId) × Memᴰ d ds × Blocks dag d)
          × (check_completed id ds dag ≡ err (task_prerequisites_not_met id)))
unfolding check_completed
check_completed_cases id k dag [] h = inl (tt, refl)
check_completed_cases id k dag (d ∷ ds) ((less, (n, there)), h) =
    let step : check_completed id (d ∷ ds) dag ≡ (
        if not (is_completed n.status)
        then err (task_prerequisites_not_met id)
        else check_completed id ds dag) =
      ap
        (λ o. and_then (expect o) (λ node.
          if not (is_completed node.status)
          then err (task_prerequisites_not_met id)
          else check_completed id ds dag))
        there in
    elim (Bool-cases (is_completed n.status)) [
      | inr waits ↦
          inr ((d, Memᴰ.head refl, (n, there, waits)), step ∙ cond_true _ _ (ap not waits))
      | inl done ↦
          let pass = step ∙ cond_false _ _ (ap not done) in
          elim (check_completed_cases id k dag ds h) [
            | inl (all, runs) ↦ inl (((n, there, done), all), pass ∙ runs)
            | inr ((e, mem, blocks), runs) ↦ inr ((e, Memᴰ.tail mem, blocks), pass ∙ runs)
          ]
    ]

-- The cases of `mark_running` on one graph.
pub data MarkedRunning (id : TaskId) (dag : TaskDag) : Type 0 where
  starts :
      (node : TaskNode)
      → map_get id dag.tasks ≡ some node
      → Each (Done dag.tasks) node.dependencies
      → mark_running id dag ≡ (ok tt, marked id running dag)
      → IsDag (marked id running dag)
      → MarkedRunning id dag
  blocked :
      (node : TaskNode) (d : TaskId)
      → map_get id dag.tasks ≡ some node
      → Memᴰ d node.dependencies
      → Blocks dag d
      → mark_running id dag ≡ (err (task_prerequisites_not_met id), dag)
      → MarkedRunning id dag
  missing :
      map_get id dag.tasks ≡ none
      → mark_running id dag ≡ (err (task_not_found id), dag)
      → MarkedRunning id dag

-- On a task graph whose tasks name earlier tasks only, `mark_running` does not panic: it starts a
-- task whose dependencies are all completed, changes nothing but its status, and keeps the graph of
-- that kind; where a dependency is not completed or the task is not there, it says so and changes
-- nothing.
pub mark_running_cases : (id : TaskId) (dag : TaskDag) → IsDag dag → MarkedRunning id dag
unfolding mark_running
mark_running_cases id dag h = elim (Option-cases (map_get id dag.tasks)) [
  | inl gone ↦ missing gone (
      bind-err (asks (λ (dag : TaskDag). ok_or (map_get id dag.tasks) (task_not_found id))) _
        (λ i. (ok_or (gone i) (task_not_found id), dag)))
  | inr (node, there) ↦
      let found =
        bind-ok (asks (λ (dag : TaskDag). ok_or (map_get id dag.tasks) (task_not_found id)))
          (λ node. asks (check_completed id node.dependencies) >>= λ _. set_status id running)
          (λ i. (ok_or (there i) (task_not_found id), dag)) in
      elim (check_completed_cases id id dag node.dependencies (h.earlier id node there)) [
        | inl (all, runs) ↦
            starts node there all
              (found ∙ bind-ok (asks (check_completed id node.dependencies)) _ (λ i. (runs i, dag)))
              (marked-IsDag id running dag h there)
        | inr ((d, mem, blocks), runs) ↦
            blocked node d there mem blocks (
              found ∙ bind-err (asks (check_completed id node.dependencies)) _ (λ i. (runs i, dag)))
      ]
]
