-- ===== src/Causal/Ancestors.antt =====
-- `is_ancestor_of` of crates/temnion-causal/src/lib.rs: the breadth-first search decides whether an
-- event is upstream of another.
use temnion.Prelude.{
  ℕ, zero, suc, ◌+◌, ◌≤◌, ◌≡◌, ◌≢◌, ◌⊎◌, ◌↔◌, inl, inr, refl, ap, sym, subst, ◌∙◌, Bool, true,
  false, false≢true, List, [], ◌∷◌, length, arith, Bool-cases, cond_true, cond_false, Option, none,
  some, Option-cases,
}
use temnion.Core.{EventId, event_eq}
use temnion.Core.Laws.{event_eq_iff}
use temnion.Causal.{CausalGraph, member, immediate_causes, visit, search, listed, is_ancestor_of}
use temnion.Causal.Visits.{visit-Visit, visit-none}
use temnion.Causal.Members.{
  member-cons, member-later, member_cases, member-nil, member-listed, unseen, unseen-bound,
}

-- `ancestor` is reached from `event` by going from events to their causes.
pub data Upstream (g : CausalGraph) (ancestor : EventId) : EventId → Type 0 where
  here : Upstream g ancestor ancestor
  step :
      {event : EventId} (cause : EventId)
      → member cause (immediate_causes g event) ≡ true
      → Upstream g ancestor cause
      → Upstream g ancestor event

module _ (g : CausalGraph) (ancestor : EventId) where
  -- What the search does after one visit.
  after : ℕ → Option (List EventId × List EventId) → Bool
  after fuel none = true
  after fuel (some (visited, queue)) = search g ancestor fuel visited queue

  search-after :
      (fuel : ℕ) (visited queue : List EventId) (current : EventId)
      → search g ancestor (suc fuel) visited (current ∷ queue)
        ≡ after fuel (visit ancestor (immediate_causes g current) visited queue)
  unfolding search after
  search-after fuel visited queue current = refl

  search-Upstream :
      (fuel : ℕ) (visited queue : List EventId)
      → search g ancestor fuel visited queue ≡ true
      → (x : EventId) × (member x queue ≡ true) × Upstream g ancestor x
  unfolding search after
  search-Upstream fuel visited [] h = absurd (false≢true h)
  search-Upstream zero visited (current ∷ queue) h = absurd (false≢true h)
  search-Upstream (suc fuel) visited (current ∷ queue) h =
      let causes = immediate_causes g current in
      elim (Option-cases (visit ancestor causes visited queue)) [
        | inl found ↦ (
          current,
          member-cons current queue,
          step ancestor (visit-none ancestor causes visited queue found) here,
        )
        | inr ((visited', queue'), more) ↦
            let v = visit-Visit ancestor causes visited queue more in
            let (x, inside, up) =
              search-Upstream fuel visited' queue'
                (sym (search-after fuel visited queue current ∙ ap (after fuel) more) ∙ h) in
            elim (v.from x inside) [
              | inl before ↦ (x, member-later x current queue before, up)
              | inr cause ↦ (current, member-cons current queue, step x cause up)
            ]
      ]

  -- The causes of `x` are visited, and none is the ancestor.
  Done : List EventId → EventId → Type 0
  Done visited x =
      (c : EventId)
      → member c (immediate_causes g x) ≡ true
      → (member c visited ≡ true) × (c ≢ ancestor)

  Done-grows :
      (visited visited' : List EventId)
      → ((x : EventId) → member x visited ≡ true → member x visited' ≡ true)
      → (x : EventId) → Done visited x
      → Done visited' x
  unfolding Done
  Done-grows visited visited' grows x d c h = let (seen, ne) = d c h in (grows c seen, ne)

  -- A search that fails leaves a visited set that is closed under causes.
  record Closed (visited : List EventId) : Type 0 where
    all : List EventId
    includes : (x : EventId) → member x visited ≡ true → member x all ≡ true
    closed : (x : EventId) → member x all ≡ true → Done all x

  search-Closed :
      (fuel : ℕ) (visited queue : List EventId)
      → length queue + unseen visited (listed g.causes) ≤ fuel
      → ((x : EventId) → member x visited ≡ true → (member x queue ≡ true) ⊎ Done visited x)
      → search g ancestor fuel visited queue ≡ false
      → Closed visited
  unfolding search after immediate_causes Done
  search-Closed fuel visited [] enough inv h = record {
    all = visited;
    includes = λ x k. k;
    closed = λ x k. elim (inv x k) [ inl never ↦ absurd (member-nil x never) | inr done ↦ done ];
  }
  search-Closed zero visited (current ∷ queue) enough inv h = absurd (omega arith)
  search-Closed (suc fuel) visited (current ∷ queue) enough inv h =
      let causes = immediate_causes g current in
      let e = search-after fuel visited queue current in
      elim (Option-cases (visit ancestor causes visited queue)) [
        | inl found ↦ absurd (false≢true (sym h ∙ e ∙ ap (after fuel) found))
        | inr ((visited', queue'), more) ↦
            let v = visit-Visit ancestor causes visited queue more in
            let fewer = v.counts (listed g.causes) (λ x k. member-listed g.causes current x k) in
            let rest =
              search-Closed fuel visited' queue' (omega arith)
                (λ x k. elim (v.queues x k) [
                  | inr now ↦ inl now
                  | inl old ↦ elim (inv x old) [
                    | inr done ↦ inr (Done-grows visited visited' v.grows x done)
                    | inl waiting ↦ elim (member_cases x current queue waiting) [
                      | inl same ↦
                          inr
                            (subst (Done visited') (sym same) (λ c k. (v.covers c k, v.avoids c k)))
                      | inr behind ↦ inl (v.stays x behind)
                    ]
                  ]
                ])
                (sym (e ∙ ap (after fuel) more) ∙ h) in
            record {
              all = rest.all;
              includes = λ x k. rest.includes x (v.grows x k);
              closed = rest.closed;
            }
      ]

  -- From a closed set no path leads to the ancestor.
  Closed-not_upstream :
      (all : List EventId)
      → ((x : EventId) → member x all ≡ true → Done all x)
      → (x : EventId) → member x all ≡ true
      → x ≢ ancestor
      → ¬ Upstream g ancestor x
  unfolding Done
  Closed-not_upstream all closed x k ne here = ne refl
  Closed-not_upstream all closed x k ne (step c cause up) =
      let (inside, other) = closed x k c cause in Closed-not_upstream all closed c inside other up

-- `is_ancestor_of` holds exactly where the ancestor is the event itself or is reached from it by
-- going from events to their causes.
pub is_ancestor_of_iff :
    (g : CausalGraph) (ancestor descendant : EventId)
    → (is_ancestor_of g ancestor descendant ≡ true) ↔ Upstream g ancestor descendant
unfolding is_ancestor_of
is_ancestor_of_iff g ancestor descendant = elim (Bool-cases (event_eq ancestor descendant)) [
  | inl same ↦ (
    λ h. subst (Upstream g ancestor) ((event_eq_iff ancestor descendant).0 same) here,
    λ up. cond_true _ _ same,
  )
  | inr other ↦ (
    λ h.
        let (x, inside, up) =
          search-Upstream g ancestor _ (descendant ∷ []) (descendant ∷ [])
            (sym (cond_false _ _ other) ∙ h) in
        elim (member_cases x descendant [] inside) [
          | inl same ↦ subst (Upstream g ancestor) same up
          | inr never ↦ absurd (member-nil x never)
        ],
    λ up. cond_false _ _ other ∙ finds up other,
  )
]
  where
    finds :
        Upstream g ancestor descendant
        → event_eq ancestor descendant ≡ false
        → search g ancestor (suc (length (listed g.causes))) (descendant ∷ []) (descendant ∷ [])
          ≡ true
    finds up other = elim (Bool-cases (search g ancestor _ (descendant ∷ []) (descendant ∷ []))) [
      | inl found ↦ found
      | inr missed ↦
          let closed =
            search-Closed g ancestor _ (descendant ∷ []) (descendant ∷ [])
              (omega (arith, unseen-bound (descendant ∷ []) (listed g.causes))) (λ x k. inl k)
              missed in
          let ne : descendant ≢ ancestor =
            λ same. false≢true (sym other ∙ (event_eq_iff ancestor descendant).1 (sym same)) in
          absurd (
            Closed-not_upstream g ancestor closed.all closed.closed descendant
              (closed.includes descendant (member-cons descendant [])) ne up)
    ]
