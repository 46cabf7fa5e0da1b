-- ===== src/Runtime/Dag/Add.antt =====
-- `add_task` of crates/temnion-runtime/src/lib.rs: it accepts a task exactly when its dependencies
-- are there, and then closes no cycle.
use temnion.Prelude.{
  ℕ, ◌+◌, ◌≡◌, ◌≢◌, ◌⊎◌, refl, ap, sym, ◌∙◌, subst, List, [], ◌∷◌, none, some, some-injective,
  some≢none, false, not, Bool-cases, Option-cases, inl, inr, cond_false, ◌==◌, ==_iff, ==-self,
  ne→==, length, Each, map_get, map_insert, map_values, map_insert-IsMap, map_get-map_insert_self,
  map_get-map_insert_ne, u64_max, ok, err, bind-ok, bind-err, asks, arith,
}
use mathlib.Core.List.{Memᴰ}
use temnion.Runtime.{task_not_found, TaskClass}
use temnion.Runtime.Dag.{
  TaskId, TaskNode, TaskDag, new, zero_in_degree, or_default, all_edges, no_successors,
  zero_degrees, has_cycle, check_exist, new_task, take_id, keep_acyclic, add_task,
}
use temnion.Runtime.Dag.Ready.{Earlier, IsDag}
use temnion.Runtime.Dag.Edges.{Has}
use temnion.Runtime.Dag.Built.{own-Owned, all_edges-Built}
use temnion.Runtime.Dag.Search.{is_zero, count-zero_in_degree, count-zero_in_degree-none}
use temnion.Runtime.Dag.Acyclic.{Searching, unseen-nil, visit_from_lem}

-- The search of a graph whose tasks name earlier tasks only ends within its turns, and finds no
-- cycle.
pub has_cycle-false :
    (dag : TaskDag) → IsDag dag → has_cycle (length dag.tasks + 1) dag ≡ some (ok false)
unfolding has_cycle
has_cycle-false dag h =
    let (adj, in_degree) =
      all_edges (map_values dag.tasks) (no_successors dag.tasks, zero_degrees dag.tasks) in
    let b = all_edges-Built dag.tasks h.keys (own-Owned dag.tasks h.keys h.own) in
    let start : Searching dag.tasks in_degree (zero_in_degree in_degree) [] = record {
      listed = b.keyed.counted;
      degrees = λ v n e. b.degrees v n e ∙ sym (unseen-nil n.dependencies);
      tally = λ v n e.
          let (d, at) = b.keyed.counted v (n, e) in
          omega (
            arith,
            count-zero_in_degree in_degree v b.keyed.ordered at,
            ap (λ o. is_zero (or_default o 0)) at,
          );
      strays = λ v gone. elim (Option-cases (map_get v in_degree)) [
        | inl none' ↦ omega (arith, count-zero_in_degree-none in_degree v none')
        | inr found ↦ let (n, e) = b.keyed.known v found in absurd (some≢none (sym e ∙ gone))
      ];
    } in
    let runs =
      visit_from_lem dag h adj in_degree b (length dag.tasks + 1) in_degree
        (zero_in_degree in_degree) [] 0 start refl (omega arith) in
    rw (has_cycle, runs) (ap (λ t. some (ok (not t))) (==-self (length dag.tasks)))

-- The graph with one more task.
abbrev pub added : TaskClass → List ℕ → List TaskId → TaskDag → TaskDag
added class description dependencies dag = record {
  tasks = map_insert dag.next_id (new_task dag.next_id class description dependencies) dag.tasks;
  next_id = dag.next_id + 1;
}

check_exist_cases :
    (dag : TaskDag) (dependencies : List TaskId)
    → (Each (λ d. Has d dag.tasks) dependencies × (check_exist dependencies dag ≡ ok tt))
      ⊎ ((d : TaskId) × Memᴰ d dependencies
          × (map_get d dag.tasks ≡ none)
          × (check_exist dependencies dag ≡ err (task_not_found d)))
unfolding check_exist
check_exist_cases dag [] = inl (tt, refl)
check_exist_cases dag (d ∷ dependencies) = elim (Option-cases (map_get d dag.tasks)) [
  | inl gone ↦ inr (d, Memᴰ.head refl, gone, rw (check_exist, gone) refl)
  | inr (n, there) ↦ elim (check_exist_cases dag dependencies) [
    | inl (all, runs) ↦ inl (((n, there), all), rw (check_exist, there) runs)
    | inr (e, mem, gone, runs) ↦ inr (e, Memᴰ.tail mem, gone, rw (check_exist, there) runs)
  ]
]

-- Tasks that were there before stay, and the new one is none of them.
module _ (class : TaskClass) (description : List ℕ) (dependencies : List TaskId) (dag : TaskDag)
    (h : IsDag dag) (there : Each (λ d. Has d dag.tasks) dependencies) where
  node : TaskNode
  node = new_task dag.next_id class description dependencies

  kept :
      (k : ℕ) (n : TaskNode)
      → map_get k dag.tasks ≡ some n
      → map_get k (map_insert dag.next_id node dag.tasks) ≡ some n
  kept k n e =
      map_get-map_insert_ne k dag.next_id node dag.tasks
        (λ same. absurd (omega (arith, h.used k n e, same)))
      ∙ e

  kept-Earlier :
      (k : ℕ) (ds : List TaskId)
      → Each (Earlier dag.tasks k) ds
      → Each (Earlier (map_insert dag.next_id node dag.tasks) k) ds
  kept-Earlier k [] e = tt
  kept-Earlier k (d ∷ ds) ((less, (n, found)), e) =
      ((less, (n, kept d n found)), kept-Earlier k ds e)

  named-Earlier :
      (ds : List TaskId)
      → Each (λ d. Has d dag.tasks) ds
      → Each (Earlier (map_insert dag.next_id node dag.tasks) dag.next_id) ds
  named-Earlier [] e = tt
  named-Earlier (d ∷ ds) ((n, found), e) =
      ((h.used d n found, (n, kept d n found)), named-Earlier ds e)

  -- An entry of the new graph is the new task or an old one.
  entry :
      (k : ℕ) (n : TaskNode)
      → map_get k (map_insert dag.next_id node dag.tasks) ≡ some n
      → ((k ≡ dag.next_id) × (node ≡ n)) ⊎ (map_get k dag.tasks ≡ some n)
  entry k n e = elim (Bool-cases (k == dag.next_id)) [
    | inl same ↦
        let at = (==_iff k dag.next_id).0 same in
        inl (
          at,
          some-injective _ _ (
              sym (map_get-map_insert_self dag.next_id node dag.tasks)
              ∙ ap (λ k. map_get k (map_insert dag.next_id node dag.tasks)) (sym at)
              ∙ e),
        )
    | inr other ↦ inr (
        sym (map_get-map_insert_ne k dag.next_id node dag.tasks (λ e. ground (arith, other, e)))
        ∙ e)
  ]

  pub added-IsDag : IsDag (added class description dependencies dag)
  unfolding node
  added-IsDag = record {
    keys = map_insert-IsMap dag.next_id node dag.tasks h.keys;
    own = λ k n e. elim (entry k n e) [
      | inl (at, same) ↦ ap (λ n. n.id) (sym same) ∙ sym at
      | inr old ↦ h.own k n old
    ];
    earlier = λ k n e. elim (entry k n e) [
      | inl (at, same) ↦
          subst (λ n. Each (Earlier (map_insert dag.next_id node dag.tasks) k) n.dependencies) same
            (subst (λ k. Each (Earlier (map_insert dag.next_id node dag.tasks) k) dependencies)
              (sym at) (named-Earlier dependencies there))
      | inr old ↦ kept-Earlier k n.dependencies (h.earlier k n old)
    ];
    used = λ k n e. elim (entry k n e) [
      | inl (at, same) ↦ omega (arith, at)
      | inr old ↦ omega (arith, h.used k n old)
    ];
  }

-- On a task graph whose tasks name earlier tasks only, with identities left: `add_task` registers
-- the task, pending, under the next identity, and the graph stays of that kind; or one of the
-- dependencies is not there, which it reports, and the graph stays as it was. It never reports a
-- cycle.
pub add_task_cases :
    (class : TaskClass) (description : List ℕ) (dependencies : List TaskId) (dag : TaskDag)
    → IsDag dag
    → dag.next_id ≢ u64_max
    → ((add_task class description dependencies dag
          ≡ (ok dag.next_id, added class description dependencies dag))
        × IsDag (added class description dependencies dag))
      ⊎ ((d : TaskId) × Memᴰ d dependencies
          × (map_get d dag.tasks ≡ none)
          × (add_task class description dependencies dag ≡ (err (task_not_found d), dag)))
unfolding add_task take_id keep_acyclic
add_task_cases class description dependencies dag h room =
    elim (check_exist_cases dag dependencies) [
      | inr (d, mem, gone, runs) ↦
          inr (d, mem, gone, bind-err (asks (check_exist dependencies)) _ (λ i. (runs i, dag)))
      | inl (there, runs) ↦
          let valid = added-IsDag class description dependencies dag h there in
          let found = has_cycle-false (added class description dependencies dag) valid in
          inl (
            bind-ok (asks (check_exist dependencies)) _ (λ i. (runs i, dag))
                ∙ bind-ok take_id _ (cond_false _ _ (ne→== dag.next_id u64_max room))
                ∙ rw (keep_acyclic, found) refl,
            valid,
          )
    ]

-- The empty graph.
pub new-IsDag : IsDag new
unfolding map_get
new-IsDag = record {
  keys = tt;
  own = λ k n e. absurd (some≢none (sym e));
  earlier = λ k n e. absurd (some≢none (sym e));
  used = λ k n e. absurd (some≢none (sym e));
}
