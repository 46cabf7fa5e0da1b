-- ===== src/Runtime/Dag/Built.antt =====
-- The maps that `has_cycle` of crates/temnion-runtime/src/lib.rs starts its search from: every task
-- with its successors and its number of dependencies.
use temnion.Prelude.{
  ℕ, ◌≡◌, ◌≢◌, refl, ap, sym, ◌∙◌, subst, List, [], ◌∷◌, map, none, some, some-injective, some≢none,
  true, false, Bool-cases, inl, inr, cond_true, cond_false, ◌==◌, ==_iff, length, count, Each, Map,
  map_get, map_values, IsMap, Above, map_get-Above, Option-cases, map_get-cons_self,
  map_get-cons_ne, map_get-Memᴰ, Memᴰ-Above, arith,
}
use temnion.Runtime.Dag.{TaskId, TaskNode, all_edges, no_successors, zero_degrees, or_default}
use temnion.Runtime.Dag.Edges.{
  successors, degree, Has, edges_into, degree_sum, all_edges_lem, Keyed, all_edges-Keyed,
}

-- The same value under every key.
module _ {ℓ} {V : Type ℓ} (d : V) where
  same_keys : (m : Map TaskNode) (j : ℕ) → Has j m → map_get j (map (λ e. (e.0, d)) m) ≡ some d
  unfolding map_get
  same_keys [] j (n, e) = absurd (some≢none (sym e))
  same_keys ((k, w) ∷ m) j (n, e) = elim (Bool-cases (j == k)) [
    | inl same ↦
        let at = (==_iff j k).0 same in
        ap (λ j. map_get j ((k, d) ∷ map (λ e. (e.0, d)) m)) at ∙ map_get-cons_self k d _
    | inr other ↦
        let ne : j ≢ k = λ e. ground (arith, other, e) in
        map_get-cons_ne j k d _ ne ∙ same_keys m j (n, sym (map_get-cons_ne j k w m ne) ∙ e)
  ]

  keys_same :
      (m : Map TaskNode) (j : ℕ) {x : V}
      → map_get j (map (λ e. (e.0, d)) m) ≡ some x
      → Has j m × (x ≡ d)
  unfolding map_get
  keys_same [] j e = absurd (some≢none (sym e))
  keys_same ((k, w) ∷ m) j {x} e = elim (Bool-cases (j == k)) [
    | inl same ↦ ((w, cond_true _ _ same), sym (some-injective d x (sym (cond_true _ _ same) ∙ e)))
    | inr other ↦
        let ((n, found), is) = keys_same m j (sym (cond_false _ _ other) ∙ e) in
        ((n, cond_false _ _ other ∙ found), is)
  ]

  map-Above : (k : ℕ) (m : Map TaskNode) → Above k m → Above k (map (λ e. (e.0, d)) m)
  map-Above k [] h = tt
  map-Above k ((j, w) ∷ m) (above, h) = (above, map-Above k m h)

  map-IsMap : (m : Map TaskNode) → IsMap m → IsMap (map (λ e. (e.0, d)) m)
  map-IsMap [] h = tt
  map-IsMap ((k, w) ∷ m) (above, h) = (map-Above k m above, map-IsMap m h)

-- Each key is the identity of its task.
abbrev pub Owned : Map TaskNode → Type 0
Owned m = Each (λ e. e.1.id ≡ e.0) m

pub own-Owned :
    (m : Map TaskNode)
    → IsMap m
    → ((k : ℕ) (n : TaskNode) → map_get k m ≡ some n → n.id ≡ k)
    → Owned m
own-Owned [] h own = tt
own-Owned ((k, n) ∷ m) (above, h) own = (
  own k n (map_get-cons_self k n m),
  own-Owned m h (λ j w e.
      let less = Memᴰ-Above j k m above (map_get-Memᴰ j m e) in
      own j w (map_get-cons_ne j k n m (λ e. absurd (omega arith)) ∙ e)),
)

-- Nothing of a task that is not there.
absent :
    (m : Map TaskNode) (u v : ℕ)
    → Owned m
    → map_get v m ≡ none
    → (edges_into (map_values m) u v ≡ 0) × (degree_sum (map_values m) v ≡ 0)
unfolding map_get
absent [] u v own e = (refl, refl)
absent ((k, n) ∷ m) u v (same, own) e = elim (Bool-cases (v == k)) [
  | inl here ↦ absurd (some≢none (sym (cond_true _ _ here) ∙ e))
  | inr other ↦
      let (edges, degrees) = absent m u v own (sym (cond_false _ _ other) ∙ e) in
      let apart : (v == n.id) ≡ false = ap (λ k. v == k) same ∙ other in
      (
        omega (arith, edges, cond_false (count u n.dependencies) 0 apart),
        omega (arith, degrees, cond_false (length n.dependencies) 0 apart),
      )
]

present :
    (m : Map TaskNode) (u v : ℕ) {w : TaskNode}
    → IsMap m
    → Owned m
    → map_get v m ≡ some w
    → (edges_into (map_values m) u v ≡ count u w.dependencies)
      × (degree_sum (map_values m) v ≡ length w.dependencies)
unfolding map_get
present [] u v h own e = absurd (some≢none (sym e))
present ((k, n) ∷ m) u v {w} (above, h) (same, own) e = elim (Bool-cases (v == k)) [
  | inl here ↦
      let at = (==_iff v k).0 here in
      let is : n ≡ w = some-injective n w (sym (cond_true _ _ here) ∙ e) in
      let (edges, degrees) = absent m u v own (map_get-Above v k m above (omega (arith, at))) in
      let own_id : (v == n.id) ≡ true = ap (λ k. v == k) same ∙ here in
      (
        omega (
          arith,
          edges,
          cond_true (count u n.dependencies) 0 own_id,
          ap (λ n. count u n.dependencies) is,
        ),
        omega (
          arith,
          degrees,
          cond_true (length n.dependencies) 0 own_id,
          ap (λ n. length n.dependencies) is,
        ),
      )
  | inr other ↦
      let (edges, degrees) = present m u v h own (sym (cond_false _ _ other) ∙ e) in
      let apart : (v == n.id) ≡ false = ap (λ k. v == k) same ∙ other in
      (
        omega (arith, edges, cond_false (count u n.dependencies) 0 apart),
        omega (arith, degrees, cond_false (length n.dependencies) 0 apart),
      )
]

-- What the search starts from.
pub record Built (tasks : Map TaskNode) (s : Map (List TaskId) × Map ℕ) : Type 0 where
  pub keyed : Keyed tasks s
  pub edges :
      (u v : ℕ) (n : TaskNode)
      → map_get v tasks ≡ some n
      → count v (successors u s.0) ≡ count u n.dependencies
  pub no_edges : (u v : ℕ) → map_get v tasks ≡ none → count v (successors u s.0) ≡ 0
  pub degrees :
      (v : ℕ) (n : TaskNode) → map_get v tasks ≡ some n → degree v s.1 ≡ length n.dependencies

-- The two maps before any edge is counted.
module _ (tasks : Map TaskNode) (h : IsMap tasks) where
  abbrev start : Map (List TaskId) × Map ℕ
  start = (map (λ e. (e.0, [])) tasks, map (λ e. (e.0, 0)) tasks)

  start-Keyed : Keyed tasks start
  start-Keyed = record {
    listed = λ j e. ([], same_keys [] tasks j e);
    counted = λ j e. (0, same_keys 0 tasks j e);
    known = λ j (x, e). (keys_same 0 tasks j e).0;
    ordered = map-IsMap 0 tasks h;
  }

  count-start : (u v : ℕ) → count v (successors u start.0) ≡ 0
  count-start u v = elim (Option-cases (map_get u start.0)) [
    | inl e ↦ ap (λ o. count v (or_default o [])) e
    | inr (outs, e) ↦
        ap (λ o. count v (or_default o [])) e ∙ ap (count v) (keys_same [] tasks u e).1
  ]

  degree-start : (v : ℕ) → degree v start.1 ≡ 0
  degree-start v = elim (Option-cases (map_get v start.1)) [
    | inl e ↦ ap (λ o. or_default o 0) e
    | inr (n, e) ↦ ap (λ o. or_default o 0) e ∙ (keys_same 0 tasks v e).1
  ]

  all_there :
      (m : Map TaskNode)
      → Owned m
      → ((k : ℕ) → Has k m → Has k tasks)
      → IsMap m
      → Each (λ n. Has n.id tasks) (map_values m)
  all_there [] own inside h = tt
  all_there ((k, n) ∷ m) (same, own) inside (above, h) = (
    subst (λ k. Has k tasks) (sym same) (inside k (n, map_get-cons_self k n m)),
    all_there m own
        (λ j (w, e).
          let less = Memᴰ-Above j k m above (map_get-Memᴰ j m e) in
          inside j (w, map_get-cons_ne j k n m (λ e. absurd (omega arith)) ∙ e))
        h,
  )

  pub all_edges-Built :
      Owned tasks
      → Built tasks (all_edges (map_values tasks) (no_successors tasks, zero_degrees tasks))
  unfolding no_successors zero_degrees
  all_edges-Built own = record {
    keyed =
        all_edges-Keyed tasks (map_values tasks) start (all_there tasks own (λ k e. e) h)
          start-Keyed;
    edges = λ u v n e. omega (
      arith,
      (all_edges_lem (map_values tasks) start u v).0,
      count-start u v,
      (present tasks u v h own e).0,
    );
    no_edges = λ u v e. omega (
      arith,
      (all_edges_lem (map_values tasks) start u v).0,
      count-start u v,
      (absent tasks u v own e).0,
    );
    degrees = λ v n e. omega (
      arith,
      (all_edges_lem (map_values tasks) start 0 v).1,
      degree-start v,
      (present tasks 0 v h own e).1,
    );
  }
