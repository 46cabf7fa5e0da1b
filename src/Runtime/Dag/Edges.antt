-- ===== src/Runtime/Dag/Edges.antt =====
-- The edges that `has_cycle` of crates/temnion-runtime/src/lib.rs collects: how often a task stands
-- among the successors of another, and its number of dependencies.
use temnion.Prelude.{
  ℕ, suc, ◌+◌, ◌≡◌, ap, sym, ◌∙◌, subst, List, [], ◌∷◌, ◌++◌, some, true, Bool-cases, inl, inr, ◌⊎◌,
  cond_true, cond_false, ◌==◌, ==_iff, length, count, count-append, Each, Map, map_get, map_insert,
  IsMap, map_get-map_insert_self, map_get-map_insert_ne, map_insert-IsMap, arith, if◌then◌else◌,
}
use temnion.Runtime.Dag.{TaskId, TaskNode, or_default, add_edges, all_edges}

abbrev pub successors : ℕ → Map (List TaskId) → List TaskId
successors u adj = or_default (map_get u adj) []

abbrev pub degree : ℕ → Map ℕ → ℕ
degree v in_degree = or_default (map_get v in_degree) 0

-- A key that is there.
abbrev pub Has {ℓ} : {V : Type ℓ} → ℕ → Map V → Type ℓ
Has {V = V} k m = (v : V) × (map_get k m ≡ some v)

module _ {ℓ} {V : Type ℓ} (k : ℕ) (v : V) (m : Map V) where
  pub map_insert-Has : (j : ℕ) → Has j m → Has j (map_insert k v m)
  map_insert-Has j (w, e) = elim (Bool-cases (j == k)) [
    | inl same ↦ (
      v,
      ap (λ j. map_get j (map_insert k v m)) ((==_iff j k).0 same) ∙ map_get-map_insert_self k v m,
    )
    | inr other ↦ (w, map_get-map_insert_ne j k v m (λ e. ground (arith, other, e)) ∙ e)
  ]

  -- An insertion adds one key at most.
  pub Has-map_insert : (j : ℕ) → Has j (map_insert k v m) → (j ≡ k) ⊎ Has j m
  Has-map_insert j (w, e) = elim (Bool-cases (j == k)) [
    | inl same ↦ inl ((==_iff j k).0 same)
    | inr other ↦ inr (w, sym (map_get-map_insert_ne j k v m (λ e. ground (arith, other, e))) ∙ e)
  ]

pub degree-map_insert :
    (v k n : ℕ) (m : Map ℕ) → degree v (map_insert k n m) ≡ (if v == k then n else degree v m)
degree-map_insert v k n m = elim (Bool-cases (v == k)) [
  | inl same ↦
      ap (λ v. degree v (map_insert k n m)) ((==_iff v k).0 same)
      ∙ ap (λ o. or_default o 0) (map_get-map_insert_self k n m)
      ∙ sym (cond_true _ _ same)
  | inr other ↦
      ap (λ o. or_default o 0) (map_get-map_insert_ne v k n m (λ e. ground (arith, other, e)))
      ∙ sym (cond_false _ _ other)
]

count-successors :
    (v u k id : ℕ) (m : Map (List TaskId))
    → count v (successors u (map_insert k (successors k m ++ id ∷ []) m))
      ≡ count v (successors u m) + (if u == k then count v (id ∷ []) else 0)
count-successors v u k id m = elim (Bool-cases (u == k)) [
  | inl same ↦
      let e = (==_iff u k).0 same in
      let pushed = successors k m ++ id ∷ [] in
      let here : successors u (map_insert k pushed m) ≡ pushed =
        ap (λ u. successors u (map_insert k pushed m)) e
        ∙ ap (λ o. or_default o []) (map_get-map_insert_self k pushed m) in
      ap (count v) here
      ∙ omega (
        arith,
        count-append v (successors k m) (id ∷ []),
        ap (λ u. count v (successors u m)) e,
        cond_true (count v (id ∷ [])) 0 same,
      )
  | inr other ↦
      ap (λ o. count v (or_default o []))
        (map_get-map_insert_ne u k (successors k m ++ id ∷ []) m (λ e. ground (arith, other, e)))
      ∙ omega (arith, cond_false (count v (id ∷ [])) 0 other)
]

-- What one task adds: it stands once more among the successors of each occurrence of a dependency.
pub add_edges_lem :
    (id : TaskId) (dependencies : List TaskId) (adj : Map (List TaskId)) (in_degree : Map ℕ)
    (u v : ℕ)
    → (count v (successors u (add_edges id dependencies (adj, in_degree)).0)
        ≡ count v (successors u adj) + (if v == id then count u dependencies else 0))
      × (degree v (add_edges id dependencies (adj, in_degree)).1
          ≡ degree v in_degree + (if v == id then length dependencies else 0))
unfolding add_edges
add_edges_lem id [] adj in_degree u v = (ground arith, ground arith)
add_edges_lem id (dep ∷ dependencies) adj in_degree u v =
    let adj' = map_insert dep (successors dep adj ++ id ∷ []) adj in
    let in_degree' = map_insert id (degree id in_degree + 1) in_degree in
    let (edges, degrees) = add_edges_lem id dependencies adj' in_degree' u v in
    let same_id = λ (e : (v == id) ≡ true). ap (λ v. degree v in_degree) ((==_iff v id).0 e) in
    (
      edges ∙ ground (arith, count-successors v u dep id adj),
      degrees ∙ elim (Bool-cases (v == id)) [
        | inl same ↦ omega (
          arith,
          degree-map_insert v id (degree id in_degree + 1) in_degree,
          cond_true (degree id in_degree + 1) (degree v in_degree) same,
          cond_true (length dependencies) 0 same,
          cond_true (suc (length dependencies)) 0 same,
          same_id same,
        )
        | inr other ↦ omega (
          arith,
          degree-map_insert v id (degree id in_degree + 1) in_degree,
          cond_false (degree id in_degree + 1) (degree v in_degree) other,
          cond_false (length dependencies) 0 other,
          cond_false (suc (length dependencies)) 0 other,
        )
      ],
    )

-- The edges from `u` to `v`, and the dependencies of `v`, among some tasks.
abbrev pub edges_into : List TaskNode → ℕ → ℕ → ℕ
edges_into [] u v = 0
edges_into (n ∷ nodes) u v =
    (if v == n.id then count u n.dependencies else 0) + edges_into nodes u v

abbrev pub degree_sum : List TaskNode → ℕ → ℕ
degree_sum [] v = 0
degree_sum (n ∷ nodes) v = (if v == n.id then length n.dependencies else 0) + degree_sum nodes v

pub all_edges_lem :
    (nodes : List TaskNode) (s : Map (List TaskId) × Map ℕ) (u v : ℕ)
    → (count v (successors u (all_edges nodes s).0)
        ≡ count v (successors u s.0) + edges_into nodes u v)
      × (degree v (all_edges nodes s).1 ≡ degree v s.1 + degree_sum nodes v)
unfolding all_edges
all_edges_lem [] s u v = (omega arith, omega arith)
all_edges_lem (n ∷ nodes) s u v =
    let (edges, degrees) = all_edges_lem nodes (add_edges n.id n.dependencies s) u v in
    let (first, number) = add_edges_lem n.id n.dependencies s.0 s.1 u v in
    (omega (arith, edges, first), omega (arith, degrees, number))

-- The keys of the two maps: those of the tasks.
pub record Keyed (tasks : Map TaskNode) (s : Map (List TaskId) × Map ℕ) : Type 0 where
  pub listed : (j : ℕ) → Has j tasks → Has j s.0
  pub counted : (j : ℕ) → Has j tasks → Has j s.1
  pub known : (j : ℕ) → Has j s.1 → Has j tasks
  pub ordered : IsMap s.1

add_edges-Keyed :
    (tasks : Map TaskNode) (id : TaskId) (dependencies : List TaskId)
    (s : Map (List TaskId) × Map ℕ)
    → Has id tasks
    → Keyed tasks s
    → Keyed tasks (add_edges id dependencies s)
unfolding add_edges
add_edges-Keyed tasks id [] s there h = h
add_edges-Keyed tasks id (dep ∷ dependencies) (adj, in_degree) there h =
    add_edges-Keyed tasks id dependencies
      (
        map_insert dep (successors dep adj ++ id ∷ []) adj,
        map_insert id (degree id in_degree + 1) in_degree,
      )
      there
      (record {
        listed = λ j e. map_insert-Has dep _ adj j (h.listed j e);
        counted = λ j e. map_insert-Has id _ in_degree j (h.counted j e);
        known = λ j e. elim (Has-map_insert id _ in_degree j e) [
          | inl same ↦ subst (λ j. Has j tasks) (sym same) there
          | inr old ↦ h.known j old
        ];
        ordered = map_insert-IsMap id _ in_degree h.ordered;
      })

pub all_edges-Keyed :
    (tasks : Map TaskNode) (nodes : List TaskNode) (s : Map (List TaskId) × Map ℕ)
    → Each (λ n. Has n.id tasks) nodes
    → Keyed tasks s
    → Keyed tasks (all_edges nodes s)
unfolding all_edges
all_edges-Keyed tasks [] s there h = h
all_edges-Keyed tasks (n ∷ nodes) s (here, there) h =
    all_edges-Keyed tasks nodes (add_edges n.id n.dependencies s) there
      (add_edges-Keyed tasks n.id n.dependencies s here h)
