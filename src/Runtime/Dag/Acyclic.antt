-- ===== src/Runtime/Dag/Acyclic.antt =====
-- `has_cycle` of crates/temnion-runtime/src/lib.rs on a graph whose tasks name earlier tasks only:
-- its search visits every task once and ends within its turns.
use temnion.Prelude.{
  ℕ, zero, suc, ◌+◌, ◌≡◌, ◌≤◌, ◌<◌, refl, ap, sym, ◌∙◌, subst, List, [], ◌∷◌, ◌++◌, map, none, some,
  Bool-cases, Option-cases, inl, inr, ◌==◌, ==_iff, length, pop, pop_inv, pop_inv_none, count,
  count-append, count-cons, count-cons_self, length-count, Each, Map, map_get, ok, and_then, expect,
  arith, if◌then◌else◌,
}
use temnion.Runtime.Dag.{TaskId, TaskNode, TaskDag, count_down, visit_from, or_default}
use temnion.Runtime.Dag.Ready.{Earlier, IsDag}
use temnion.Runtime.Dag.Edges.{successors, degree, Has}
use temnion.Runtime.Dag.Built.{Built}
use temnion.Runtime.Dag.Keys.{count-keys_some, count-keys_le, count-keys_none, length-keys}
use temnion.Runtime.Dag.Search.{is_zero, CountedDown, count_down_lem}

-- The dependencies that were not visited.
abbrev pub unseen : List ℕ → List TaskId → ℕ
unseen seen [] = 0
unseen seen (d ∷ dependencies) =
    let rest = unseen seen dependencies in if count d seen == 0 then suc rest else rest

pub unseen-nil : (dependencies : List TaskId) → unseen [] dependencies ≡ length dependencies
unseen-nil [] = refl
unseen-nil (d ∷ dependencies) = ap suc (unseen-nil dependencies)

-- One more visited task takes away its occurrences.
unseen-cons :
    (u : ℕ) (seen : List ℕ) (dependencies : List TaskId)
    → count u seen ≡ 0
    → unseen (u ∷ seen) dependencies + count u dependencies ≡ unseen seen dependencies
unseen-cons u seen [] fresh = refl
unseen-cons u seen (d ∷ dependencies) fresh =
    let rest = unseen-cons u seen dependencies fresh in
    elim (Bool-cases (d == u)) [
      | inl same ↦
          let at = (==_iff d u).0 same in
          let new : count d seen ≡ 0 = ap (λ d. count d seen) at ∙ fresh in
          ground (arith, same, at, new, rest)
      | inr other ↦ ground (arith, other, rest)
    ]

-- Nothing is left to visit of dependencies that were all visited.
unseen-none :
    (seen : List ℕ) (tasks : Map TaskNode) (k : ℕ) (dependencies : List TaskId)
    → Each (Earlier tasks k) dependencies
    → ((d : ℕ) → d < k → (n : TaskNode) → map_get d tasks ≡ some n → count d seen ≡ 1)
    → unseen seen dependencies ≡ 0
unseen-none seen tasks k [] h all = refl
unseen-none seen tasks k (d ∷ dependencies) ((less, (n, there)), h) all =
    let rest = unseen-none seen tasks k dependencies h all in
    let one = all d less n there in ground (arith, rest, one)

-- The state of the search: the tasks in the queue and the visited ones are those of degree zero,
-- each once, and a degree is the number of dependencies that were not visited.
pub record Searching (tasks : Map TaskNode) (in_degree : Map ℕ) (queue seen : List ℕ) : Type 0 where
  pub listed : (j : ℕ) → Has j tasks → Has j in_degree
  pub degrees :
      (v : ℕ) (n : TaskNode)
      → map_get v tasks ≡ some n
      → degree v in_degree ≡ unseen seen n.dependencies
  pub tally :
      (v : ℕ) (n : TaskNode)
      → map_get v tasks ≡ some n
      → count v queue + count v seen ≡ is_zero (degree v in_degree)
  pub strays : (v : ℕ) → map_get v tasks ≡ none → count v queue + count v seen ≡ 0

is_zero-le : (n : ℕ) → is_zero n ≤ 1
is_zero-le n = ground arith

module _ (dag : TaskDag) (h : IsDag dag) (adj : Map (List TaskId)) (start : Map ℕ)
    (b : Built dag.tasks (adj, start)) where
  keys : List ℕ
  keys = map (λ e. e.0) dag.tasks

  seen-le :
      (in_degree : Map ℕ) (queue seen : List ℕ)
      → Searching dag.tasks in_degree queue seen
      → length seen ≤ length dag.tasks
  unfolding keys
  seen-le in_degree queue seen s =
      omega (arith, length-keys dag.tasks, length-count seen keys bounded)
    where
      bounded : (v : ℕ) → count v seen ≤ count v keys
      bounded v = elim (Option-cases (map_get v dag.tasks)) [
        | inl gone ↦ omega (arith, s.strays v gone)
        | inr (n, there) ↦ omega (
          arith,
          s.tally v n there,
          is_zero-le (degree v in_degree),
          count-keys_some dag.tasks v there,
        )
      ]

  -- Once the queue is empty, every task was visited, in the order of the identities.
  all_seen :
      (in_degree : Map ℕ) (seen : List ℕ)
      → Searching dag.tasks in_degree [] seen
      → (bound v : ℕ) (n : TaskNode) → v < bound
      → map_get v dag.tasks ≡ some n
      → count v seen ≡ 1
  all_seen in_degree seen s zero v n less there = absurd (omega arith)
  all_seen in_degree seen s (suc bound) v n less there =
      let none_left : unseen seen n.dependencies ≡ 0 =
        unseen-none seen dag.tasks v n.dependencies (h.earlier v n there)
          (λ d before m found. all_seen in_degree seen s bound d m (omega arith) found) in
      omega (arith, s.tally v n there, ap is_zero (s.degrees v n there ∙ none_left))

  visited_all :
      (in_degree : Map ℕ) (seen : List ℕ)
      → Searching dag.tasks in_degree [] seen
      → length seen ≡ length dag.tasks
  unfolding keys
  visited_all in_degree seen s =
      omega
        (arith, seen-le in_degree [] seen s, length-keys dag.tasks, length-count keys seen bounded)
    where
      bounded : (v : ℕ) → count v keys ≤ count v seen
      bounded v = elim (Option-cases (map_get v dag.tasks)) [
        | inl gone ↦ omega (arith, count-keys_none dag.tasks v gone)
        | inr (n, there) ↦ omega (
          arith,
          count-keys_le dag.tasks v h.keys,
          all_seen in_degree seen s (suc v) v n (omega arith) there,
        )
      ]

  -- A task taken from the queue is one of the graph, and was not visited.
  popped :
      (in_degree : Map ℕ) (queue seen : List ℕ) (u : ℕ)
      → Searching dag.tasks in_degree queue seen
      → 0 < count u queue
      → Has u dag.tasks × (count u seen ≡ 0)
  popped in_degree queue seen u s more = elim (Option-cases (map_get u dag.tasks)) [
    | inl gone ↦ absurd (omega (arith, s.strays u gone))
    | inr (n, there) ↦
        ((n, there), omega (arith, s.tally u n there, is_zero-le (degree u in_degree), more))
  ]

  module _ (in_degree : Map ℕ) (queue seen : List ℕ) (s : Searching dag.tasks in_degree queue seen)
      (u : ℕ) (rest : List ℕ) (from : queue ≡ rest ++ u ∷ []) (fresh : count u seen ≡ 0) where
    lowerable : (v : ℕ) → count v (successors u adj) ≤ degree v in_degree
    lowerable v = elim (Option-cases (map_get v dag.tasks)) [
      | inl gone ↦ omega (arith, b.no_edges u v gone)
      | inr (n, there) ↦
          omega (
            arith,
            b.edges u v n there,
            s.degrees v n there,
            unseen-cons u seen n.dependencies fresh,
          )
    ]

    counted : (v : ℕ) → 0 < count v (successors u adj) → Has v in_degree
    counted v more = elim (Option-cases (map_get v dag.tasks)) [
      | inl gone ↦ absurd (omega (arith, b.no_edges u v gone, more))
      | inr (n, there) ↦ s.listed v (n, there)
    ]

    split : (v : ℕ) → count v queue ≡ count v rest + count v (u ∷ [])
    split v = ap (count v) from ∙ count-append v rest (u ∷ [])

    next :
        (in_degree' : Map ℕ) (queue' : List ℕ)
        → CountedDown (successors u adj) in_degree rest in_degree' queue'
        → Searching dag.tasks in_degree' queue' (u ∷ seen)
    next in_degree' queue' c = record {
      listed = λ j e. c.listed j (s.listed j e);
      degrees = λ v n there. omega (
        arith,
        c.lowered v,
        s.degrees v n there,
        unseen-cons u seen n.dependencies fresh,
        b.edges u v n there,
      );
      tally =
          λ v n there. omega (arith, c.queued v, split v, s.tally v n there, count-cons v u seen);
      strays = λ v gone.
          let same : degree v in_degree' ≡ degree v in_degree =
            omega (arith, c.lowered v, b.no_edges u v gone) in
          omega (arith, c.queued v, split v, s.strays v gone, count-cons v u seen, ap is_zero same);
    }

  pub visit_from_lem :
      (turns : ℕ) (in_degree : Map ℕ) (queue seen : List ℕ) (visited : ℕ)
      → Searching dag.tasks in_degree queue seen
      → visited ≡ length seen
      → length dag.tasks < turns + length seen
      → visit_from turns adj (in_degree, queue) visited ≡ some (ok (length dag.tasks))
  unfolding visit_from
  visit_from_lem zero in_degree queue seen visited s number enough =
      absurd (omega (arith, seen-le in_degree queue seen s, enough))
  visit_from_lem (suc turns) in_degree queue seen visited s number enough =
      elim (Option-cases (pop queue)) [
        | inl empty ↦
            rw (visit_from, empty)
              (ap (λ n. some (ok n))
                (number
                  ∙ visited_all in_degree seen (
                      subst (λ q. Searching dag.tasks in_degree q seen) (pop_inv_none queue empty)
                        s)))
        | inr ((u, rest), taken) ↦
            let from = pop_inv queue taken in
            let (there, fresh) = popped in_degree queue seen u s (
              omega
                (arith, ap (count u) from, count-append u rest (u ∷ []), count-cons_self u [])) in
            let (outs, at) = b.keyed.listed u there in
            let listed : successors u adj ≡ outs = ap (λ o. or_default o []) at in
            let (in_degree', queue', runs, c) =
              count_down_lem (successors u adj) in_degree rest
                (lowerable in_degree queue seen s u rest from fresh)
                (counted in_degree queue seen s u rest from fresh) in
            let step : and_then (expect (map_get u adj)) (λ outs. count_down outs (in_degree, rest))
                ≡ ok (in_degree', queue') =
              ap (λ o. and_then (expect o) (λ outs. count_down outs (in_degree, rest))) at
              ∙ ap (λ outs. count_down outs (in_degree, rest)) (sym listed)
              ∙ runs in
            rw (visit_from, taken, step)
              (visit_from_lem turns in_degree' queue' (u ∷ seen) (visited + 1)
                (next in_degree queue seen s u rest from fresh in_degree' queue' c)
                (omega (arith, number)) (omega (arith, enough)))
      ]
