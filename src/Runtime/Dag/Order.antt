-- ===== src/Runtime/Dag/Order.antt =====
-- The order of ready tasks of crates/temnion-runtime/src/lib.rs: sorting keeps the tasks and puts
-- each before those that may not run before it.
use temnion.Prelude.{
  ◌≡◌, ◌↔◌, sym, subst, List, [], ◌∷◌, true, false, Bool-cases, inl, inr, cond_true, cond_false,
  Each, arith, ◌<◌, ◌≤◌, ◌⊎◌, ◌==◌, ==_iff,
}
use mathlib.Core.List.{Memᴰ}
use mathlib.Core.List.Memᴰ
use temnion.Runtime.{class_rank}
use temnion.Runtime.Dag.{TaskNode, runs_before, insert_node, sort_nodes}

-- No task of the list may run before one that stands in front of it.
abbrev Sorted : List TaskNode → Type 0
Sorted [] = Unit
Sorted (a ∷ nodes) = Each (λ b. runs_before b a ≡ false) nodes × Sorted nodes

-- The first task is of a higher class, or of the same class with no later identity.
abbrev pub InTurn : TaskNode → TaskNode → Type 0
InTurn a b =
    (class_rank b.class < class_rank a.class)
    ⊎ ((class_rank b.class ≡ class_rank a.class) × (a.id ≤ b.id))

abbrev pub Ordered : List TaskNode → Type 0
Ordered [] = Unit
Ordered (a ∷ nodes) = Each (InTurn a) nodes × Ordered nodes

not_before-InTurn : (a b : TaskNode) → runs_before b a ≡ false → InTurn a b
unfolding runs_before
not_before-InTurn a b h = elim (Bool-cases (class_rank b.class == class_rank a.class)) [
  | inl same ↦ inr ((==_iff _ _).0 same, ground (arith, h, same))
  | inr other ↦ inl (ground (arith, h, other))
]

Sorted-Ordered : (nodes : List TaskNode) → Sorted nodes → Ordered nodes
Sorted-Ordered [] h = tt
Sorted-Ordered (a ∷ nodes) (first, h) = (Each-InTurn a nodes first, Sorted-Ordered nodes h)
  where
    Each-InTurn :
        (a : TaskNode) (nodes : List TaskNode)
        → Each (λ b. runs_before b a ≡ false) nodes
        → Each (InTurn a) nodes
    Each-InTurn a [] h = tt
    Each-InTurn a (b ∷ nodes) (first, h) = (not_before-InTurn a b first, Each-InTurn a nodes h)

runs_before_total : (a b : TaskNode) → runs_before a b ≡ true → runs_before b a ≡ false
unfolding runs_before
runs_before_total a b h = ground (arith, h)

runs_before_trans :
    (a b c : TaskNode) → runs_before b a ≡ false → runs_before c b ≡ false → runs_before c a ≡ false
unfolding runs_before
runs_before_trans a b c h k = ground (arith, h, k)

Each-trans :
    (a b : TaskNode) (nodes : List TaskNode)
    → runs_before b a ≡ false
    → Each (λ c. runs_before c b ≡ false) nodes
    → Each (λ c. runs_before c a ≡ false) nodes
Each-trans a b [] h k = tt
Each-trans a b (c ∷ nodes) h (first, k) =
    (runs_before_trans a b c h first, Each-trans a b nodes h k)

Each-insert_node :
    (a x : TaskNode) (nodes : List TaskNode)
    → runs_before x a ≡ false
    → Each (λ b. runs_before b a ≡ false) nodes
    → Each (λ b. runs_before b a ≡ false) (insert_node x nodes)
unfolding insert_node
Each-insert_node a x [] h k = (h, tt)
Each-insert_node a x (b ∷ nodes) h (first, k) = elim (Bool-cases (runs_before b x)) [
  | inl before ↦
      subst (Each (λ b. runs_before b a ≡ false)) (sym (cond_true _ _ before))
        (first, Each-insert_node a x nodes h k)
  | inr after ↦
      subst (Each (λ b. runs_before b a ≡ false)) (sym (cond_false _ _ after)) (h, (first, k))
]

insert_node-Sorted :
    (x : TaskNode) (nodes : List TaskNode) → Sorted nodes → Sorted (insert_node x nodes)
unfolding insert_node
insert_node-Sorted x [] h = (tt, tt)
insert_node-Sorted x (b ∷ nodes) (first, h) = elim (Bool-cases (runs_before b x)) [
  | inl before ↦ subst Sorted (sym (cond_true _ _ before)) (
    Each-insert_node b x nodes (runs_before_total b x before) first,
    insert_node-Sorted x nodes h,
  )
  | inr after ↦
      subst Sorted (sym (cond_false _ _ after))
        ((after, Each-trans x b nodes after first), (first, h))
]

sort_nodes-Sorted : (nodes : List TaskNode) → Sorted (sort_nodes nodes)
unfolding sort_nodes
sort_nodes-Sorted [] = tt
sort_nodes-Sorted (a ∷ nodes) = insert_node-Sorted a (sort_nodes nodes) (sort_nodes-Sorted nodes)

Memᴰ-insert_node :
    (x a : TaskNode) (nodes : List TaskNode) → Memᴰ x (insert_node a nodes) ↔ Memᴰ x (a ∷ nodes)
unfolding insert_node
Memᴰ-insert_node x a [] = (λ h. h, λ h. h)
Memᴰ-insert_node x a (b ∷ nodes) = elim (Bool-cases (runs_before b a)) [
  | inr after ↦
      subst (λ l. Memᴰ x l ↔ Memᴰ x (a ∷ b ∷ nodes)) (sym (cond_false _ _ after)) (λ h. h, λ h. h)
  | inl before ↦
      let (out, back) = Memᴰ-insert_node x a nodes in
      subst (λ l. Memᴰ x l ↔ Memᴰ x (a ∷ b ∷ nodes)) (sym (cond_true _ _ before))
        (
          λ h. elim (Memᴰ.cases_cons h) [
            | inl e ↦ Memᴰ.tail (Memᴰ.head e)
            | inr later ↦ elim (Memᴰ.cases_cons (out later)) [
              | inl e ↦ Memᴰ.head e
              | inr rest ↦ Memᴰ.tail (Memᴰ.tail rest)
            ]
          ],
          λ h. elim (Memᴰ.cases_cons h) [
            | inl e ↦ Memᴰ.tail (back (Memᴰ.head e))
            | inr later ↦ elim (Memᴰ.cases_cons later) [
              | inl e ↦ Memᴰ.head e
              | inr rest ↦ Memᴰ.tail (back (Memᴰ.tail rest))
            ]
          ],
        )
]

pub sort_nodes-Ordered : (nodes : List TaskNode) → Ordered (sort_nodes nodes)
sort_nodes-Ordered nodes = Sorted-Ordered (sort_nodes nodes) (sort_nodes-Sorted nodes)

pub Memᴰ-sort_nodes :
    (x : TaskNode) (nodes : List TaskNode) → Memᴰ x (sort_nodes nodes) ↔ Memᴰ x nodes
unfolding sort_nodes
Memᴰ-sort_nodes x [] = (λ h. h, λ h. h)
Memᴰ-sort_nodes x (a ∷ nodes) =
    let (out, back) = Memᴰ-insert_node x a (sort_nodes nodes) in
    let (down, up) = Memᴰ-sort_nodes x nodes in
    (
      λ h. elim (Memᴰ.cases_cons (out h)) [
        | inl e ↦ Memᴰ.head e
        | inr later ↦ Memᴰ.tail (down later)
      ],
      λ h. elim (Memᴰ.cases_cons h) [
        | inl e ↦ back (Memᴰ.head e)
        | inr later ↦ back (Memᴰ.tail (up later))
      ],
    )
