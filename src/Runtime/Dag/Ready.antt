-- ===== src/Runtime/Dag/Ready.antt =====
-- The task graph of crates/temnion-runtime/src/lib.rs: which tasks are ready, in which order, and
-- that there is one while there is work.
use temnion.Prelude.{
  ℕ, zero, suc, ◌≡◌, ◌↔◌, ◌⊎◌, ◌<◌, refl, ap, sym, ◌∙◌, subst, List, [], ◌∷◌, map, some,
  some-injective, Bool, true, false, false≢true, Bool-cases, inl, inr, cond_true, cond_false, not,
  ok, and_then, expect, Each, Map, map_get, map_values, IsMap, map_values-map_get,
  map_get-map_values, arith, if◌then◌else◌,
}
use mathlib.Core.List.{Memᴰ}
use mathlib.Core.List.Memᴰ
use temnion.Runtime.Dag.{
  TaskId, TaskNode, TaskDag, is_pending, is_completed, all_done, ready_among, sort_nodes,
  ready_tasks,
}
use temnion.Runtime.Dag.Order.{Ordered, sort_nodes-Ordered, Memᴰ-sort_nodes}

-- A dependency that was added before the task `k` and is there.
abbrev pub Earlier : Map TaskNode → ℕ → TaskId → Type 0
Earlier tasks k d = (d < k) × ((n : TaskNode) × (map_get d tasks ≡ some n))

pub record IsDag (dag : TaskDag) : Type 0 where
  pub keys : IsMap dag.tasks
  pub own : (k : ℕ) (node : TaskNode) → map_get k dag.tasks ≡ some node → node.id ≡ k
  pub earlier :
      (k : ℕ) (node : TaskNode)
      → map_get k dag.tasks ≡ some node
      → Each (Earlier dag.tasks k) node.dependencies
  pub used : (k : ℕ) (node : TaskNode) → map_get k dag.tasks ≡ some node → k < dag.next_id

abbrev pub Done : Map TaskNode → TaskId → Type 0
Done tasks d = (n : TaskNode) × (map_get d tasks ≡ some n) × (is_completed n.status ≡ true)

-- A pending task of the graph whose dependencies are all completed.
abbrev pub IsReady : TaskDag → TaskNode → Type 0
IsReady dag node =
    (map_get node.id dag.tasks ≡ some node)
    × (is_pending node.status ≡ true)
    × Each (Done dag.tasks) node.dependencies

-- What `all` finds out about dependencies that are there.
all_done_lem :
    (tasks : Map TaskNode) (k : ℕ) (dependencies : List TaskId)
    → Each (Earlier tasks k) dependencies
    → (done : Bool) × (all_done dependencies tasks ≡ ok done)
      × ((done ≡ true) ↔ Each (Done tasks) dependencies)
unfolding all_done
all_done_lem tasks k [] h = (true, refl, (λ e. tt, λ d. refl))
all_done_lem tasks k (d ∷ dependencies) ((less, (n, there)), h) =
    let (done, runs, iff) = all_done_lem tasks k dependencies h in
    let step : all_done (d ∷ dependencies) tasks
        ≡ (if is_completed n.status then all_done dependencies tasks else ok false) =
      ap
        (λ o.
          and_then (expect o)
            (λ node. if is_completed node.status then all_done dependencies tasks else ok false))
        there in
    elim (Bool-cases (is_completed n.status)) [
      | inl yes' ↦ (
        done,
        step ∙ cond_true _ _ yes' ∙ runs,
        (λ e. ((n, there, yes'), iff.0 e), λ (_, each). iff.1 each),
      )
      | inr no' ↦ (
        false,
        step ∙ cond_false _ _ no',
        (
          λ e. absurd (false≢true e),
          λ ((m, found, yes'), _).
              let same : n ≡ m = some-injective n m (sym there ∙ found) in
              sym no' ∙ ap (λ n. is_completed n.status) same ∙ yes',
        ),
      )
    ]

module _ (tasks : Map TaskNode) where
  -- A ready node of a list of nodes.
  abbrev Chosen : List TaskNode → TaskNode → Type 0
  Chosen nodes node =
      Memᴰ node nodes × (is_pending node.status ≡ true) × Each (Done tasks) node.dependencies

  skip_iff :
      (a : TaskNode) (nodes ready : List TaskNode)
      → ¬ ((is_pending a.status ≡ true) × Each (Done tasks) a.dependencies)
      → ((node : TaskNode) → Memᴰ node ready ↔ Chosen nodes node)
      → (node : TaskNode) → Memᴰ node ready ↔ Chosen (a ∷ nodes) node
  skip_iff a nodes ready never iff node = (
    λ m. let (mem, w, d) = (iff node).0 m in (Memᴰ.tail mem, w, d),
    λ (mem, waits, done). elim (Memᴰ.cases_cons mem) [
      | inl e ↦ absurd (
          never (
            subst (λ n. (is_pending n.status ≡ true) × Each (Done tasks) n.dependencies) e
              (waits, done)))
      | inr later ↦ (iff node).1 (later, waits, done)
    ],
  )

  keep_iff :
      (a : TaskNode) (nodes ready : List TaskNode)
      → is_pending a.status ≡ true
      → Each (Done tasks) a.dependencies
      → ((node : TaskNode) → Memᴰ node ready ↔ Chosen nodes node)
      → (node : TaskNode) → Memᴰ node (a ∷ ready) ↔ Chosen (a ∷ nodes) node
  keep_iff a nodes ready waits done iff node = (
    λ m. elim (Memᴰ.cases_cons m) [
      | inl e ↦ subst (Chosen (a ∷ nodes)) (sym e) (Memᴰ.head refl, waits, done)
      | inr later ↦ let (mem, w, d) = (iff node).0 later in (Memᴰ.tail mem, w, d)
    ],
    λ (mem, w, d). elim (Memᴰ.cases_cons mem) [
      | inl e ↦ Memᴰ.head e
      | inr later ↦ Memᴰ.tail ((iff node).1 (later, w, d))
    ],
  )

module _ (dag : TaskDag) (h : IsDag dag) where
  -- The loop over tasks that are all in the graph.
  ready_among_lem :
      (nodes : List TaskNode)
      → ((node : TaskNode) → Memᴰ node nodes → map_get node.id dag.tasks ≡ some node)
      → (ready : List TaskNode) × (ready_among dag.tasks nodes ≡ ok ready)
        × ((node : TaskNode) → Memᴰ node ready ↔ Chosen dag.tasks nodes node)
  unfolding ready_among
  ready_among_lem [] inside =
      ([], refl, λ node. (λ m. absurd (Memᴰ.not-nil m), λ (m, w, d). absurd (Memᴰ.not-nil m)))
  ready_among_lem (a ∷ nodes) inside =
      let (ready, runs, iff) = ready_among_lem nodes (λ node m. inside node (Memᴰ.tail m)) in
      let there = inside a (Memᴰ.head refl) in
      let (done, tested, all) =
        all_done_lem dag.tasks a.id a.dependencies (h.earlier a.id a there) in
      elim (Bool-cases (is_pending a.status)) [
        | inr settled ↦ (
          ready,
          cond_true _ _ (ap not settled) ∙ runs,
          skip_iff dag.tasks a nodes ready (λ (w, d). false≢true (sym settled ∙ w)) iff,
        )
        | inl waits ↦
            let step : ready_among dag.tasks (a ∷ nodes) ≡ ok (if done then a ∷ ready else ready) =
              cond_false _ _ (ap not waits)
              ∙ ap
                  (λ r. and_then r (λ done.
                    and_then (ready_among dag.tasks nodes)
                      (λ ready. ok (if done then a ∷ ready else ready))))
                  tested
              ∙ ap (λ r. and_then r (λ ready. ok (if done then a ∷ ready else ready))) runs in
            elim (Bool-cases done) [
              | inl yes' ↦ (
                a ∷ ready,
                step ∙ ap ok (cond_true _ _ yes'),
                keep_iff dag.tasks a nodes ready waits (all.0 yes') iff,
              )
              | inr no' ↦ (
                ready,
                step ∙ ap ok (cond_false _ _ no'),
                skip_iff dag.tasks a nodes ready (λ (w, d). false≢true (sym no' ∙ all.1 d)) iff,
              )
            ]
      ]

  value_at :
      (node : TaskNode) → Memᴰ node (map_values dag.tasks) → map_get node.id dag.tasks ≡ some node
  value_at node m =
      let (k, found) = map_values-map_get dag.tasks h.keys m in
      ap (λ k. map_get k dag.tasks) (h.own k node found) ∙ found

  -- On a task graph whose tasks name earlier tasks only, `ready_tasks` does not panic. It returns the
  -- identities of exactly the pending tasks whose dependencies are all completed, each in front of
  -- tasks of a lower class, or of its class with no earlier identity.
  pub ready_tasks_lem :
      (nodes : List TaskNode) × (ready_tasks dag ≡ ok (map (λ node. node.id) nodes))
      × Ordered nodes
      × ((node : TaskNode) → Memᴰ node nodes ↔ IsReady dag node)
  unfolding ready_tasks
  ready_tasks_lem =
      let (ready, runs, iff) = ready_among_lem (map_values dag.tasks) value_at in
      (
        sort_nodes ready,
        ap (λ r. and_then r (λ ready. ok (map (λ node. node.id) (sort_nodes ready)))) runs,
        sort_nodes-Ordered ready,
        λ node.
            let (down, up) = Memᴰ-sort_nodes node ready in
            (
              λ m. let (mem, w, d) = (iff node).0 (down m) in (value_at node mem, w, d),
              λ (there, w, d). up ((iff node).1 (map_get-map_values node.id dag.tasks there, w, d)),
            ),
      )

  -- Among dependencies that are pending or completed: all are completed, or one is pending.
  first_pending :
      ((k : ℕ) (node : TaskNode)
        → map_get k dag.tasks ≡ some node
        → (is_pending node.status ≡ true) ⊎ (is_completed node.status ≡ true))
      → (k : ℕ) (dependencies : List TaskId) → Each (Earlier dag.tasks k) dependencies
      → Each (Done dag.tasks) dependencies
        ⊎ ((d : ℕ) × (n : TaskNode) × (d < k)
            × (map_get d dag.tasks ≡ some n)
            × (is_pending n.status ≡ true))
  first_pending settled k [] e = inl tt
  first_pending settled k (d ∷ dependencies) ((less, (n, there)), e) = elim (settled d n there) [
    | inl waits ↦ inr (d, n, less, there, waits)
    | inr done ↦ elim (first_pending settled k dependencies e) [
      | inl all ↦ inl ((n, there, done), all)
      | inr found ↦ inr found
    ]
  ]

  -- The search ends, since each dependency has a smaller identity.
  IsReady-below :
      ((k : ℕ) (node : TaskNode)
        → map_get k dag.tasks ≡ some node
        → (is_pending node.status ≡ true) ⊎ (is_completed node.status ≡ true))
      → (bound k : ℕ) (node : TaskNode) → k < bound
      → map_get k dag.tasks ≡ some node
      → is_pending node.status ≡ true
      → (n : TaskNode) × IsReady dag n
  IsReady-below settled zero k node less there waits = absurd (omega arith)
  IsReady-below settled (suc bound) k node less there waits =
      elim (first_pending settled k node.dependencies (h.earlier k node there)) [
        | inl done ↦
            (node, (ap (λ k. map_get k dag.tasks) (h.own k node there) ∙ there, waits, done))
        | inr (d, n, before, found, also) ↦ IsReady-below settled bound d n (omega arith) found also
      ]

  -- On a task graph whose tasks name earlier tasks only, where every task is pending or completed
  -- and one is pending, `ready_tasks` returns at least one task: the work never gets stuck.
  pub ready_tasks-progress :
      ((k : ℕ) (node : TaskNode)
        → map_get k dag.tasks ≡ some node
        → (is_pending node.status ≡ true) ⊎ (is_completed node.status ≡ true))
      → (k : ℕ) (node : TaskNode) → map_get k dag.tasks ≡ some node
      → is_pending node.status ≡ true
      → (first : TaskId) × (others : List TaskId) × (ready_tasks dag ≡ ok (first ∷ others))
  ready_tasks-progress settled k node there waits =
      let (nodes, runs, _, iff) = ready_tasks_lem in
      let (n, ready) = IsReady-below settled (suc k) k node (omega arith) there waits in
      head_of nodes runs ((iff n).1 ready)
    where
      head_of :
          {n : TaskNode} (nodes : List TaskNode)
          → ready_tasks dag ≡ ok (map (λ node. node.id) nodes)
          → Memᴰ n nodes
          → (first : TaskId) × (others : List TaskId) × (ready_tasks dag ≡ ok (first ∷ others))
      head_of [] runs m = absurd (Memᴰ.not-nil m)
      head_of (a ∷ nodes) runs m = (a.id, map (λ node. node.id) nodes, runs)
