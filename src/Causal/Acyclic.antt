-- ===== src/Causal/Acyclic.antt =====
-- `add_event` of crates/temnion-causal/src/lib.rs: when it refuses, what it registers, and that it
-- keeps the graph free of cycles.
use temnion.Prelude.{
  ◌≡◌, ◌⊎◌, inl, inr, refl, ap, sym, subst, ◌∙◌, true, false, false≢true, ◌||◌, List, [], ◌∷◌, some,
  ok, err, Bool-cases, if◌then◌else◌, cond_true, cond_false,
}
use temnion.Core.{EventId, event_eq, event_lt}
use temnion.Core.Laws.{event_eq_iff}
use temnion.Causal.{
  new, CausalGraph, cycle_detected, Map, lookup, store, member, immediate_causes, is_ancestor_of,
  check_causes, register, add_event, sort, dedup,
}
use temnion.Causal.Members.{member-cons, member-later, member_cases, member-nil}
use temnion.Causal.Normal.{SameMembers, normal_same}
use temnion.Causal.Ancestors.{Upstream, here, step, is_ancestor_of_iff}

module _ {ℓ} {V : Type ℓ} where
  pub lookup-store_self : (k : EventId) (v : V) (m : Map V) → lookup k (store k v m) ≡ some v
  unfolding lookup store
  lookup-store_self k v [] = cond_true _ _ ((event_eq_iff k k).1 refl)
  lookup-store_self k v ((key, w) ∷ m) = elim (Bool-cases (event_eq k key)) [
    | inl same ↦ rw (same, (event_eq_iff k k).1 refl)
    | inr other ↦ elim (Bool-cases (event_lt k key)) [
      | inl less ↦ rw (other, less, (event_eq_iff k k).1 refl)
      | inr more ↦ rw (other, more, other) (lookup-store_self k v m)
    ]
  ]

  pub lookup-store_ne :
      (k j : EventId) (v : V) (m : Map V)
      → event_eq j k ≡ false
      → lookup j (store k v m) ≡ lookup j m
  unfolding lookup store
  lookup-store_ne k j v [] ne = cond_false _ _ ne
  lookup-store_ne k j v ((key, w) ∷ m) ne = elim (Bool-cases (event_eq k key)) [
    | inl same ↦
        let at_key : event_eq j key ≡ false =
          subst (λ x. event_eq j x ≡ false) ((event_eq_iff k key).0 same) ne in
        rw (same, ne, at_key)
    | inr other ↦ elim (Bool-cases (event_lt k key)) [
      | inl less ↦ rw (other, less, ne)
      | inr more ↦
          rw (other, more)
            (ap (λ r. if event_eq j key then some w else r) (lookup-store_ne k j v m ne))
    ]
  ]

-- The causes after an event was registered.
pub register_self :
    (event : EventId) (causes : List EventId) (g : CausalGraph)
    → immediate_causes (register event causes g) event ≡ causes
unfolding immediate_causes register
register_self event causes g = rw lookup-store_self

pub register_ne :
    (event x : EventId) (causes : List EventId) (g : CausalGraph)
    → event_eq x event ≡ false
    → immediate_causes (register event causes g) x ≡ immediate_causes g x
unfolding immediate_causes register
register_ne event x causes g ne = rw (lookup-store_ne event x causes g.causes ne)

-- Going up from an event to one of its causes, and from there on.
Upstream_trans :
    (g : CausalGraph) {a b : EventId} (c : EventId)
    → Upstream g b c
    → Upstream g a b
    → Upstream g a c
Upstream_trans g c here up = up
Upstream_trans g c (step cause k rest) up = step cause k (Upstream_trans g cause rest up)

-- A path in the new graph is one in the old graph, or leads to the event and on from one of its new
-- causes.
module _ (g : CausalGraph) (event : EventId) (causes : List EventId) where
  Through : EventId → EventId → Type 0
  Through a d = Upstream g event d × ((c : EventId) × (member c causes ≡ true) × Upstream g a c)

  Upstream_split :
      (a d : EventId) → Upstream (register event causes g) a d → Upstream g a d ⊎ Through a d
  unfolding Through
  Upstream_split a d here = inl here
  Upstream_split a d (step c k up) = elim (Bool-cases (event_eq d event)) [
    | inl same ↦
        let e = (event_eq_iff d event).0 same in
        let new =
          subst (λ l. member c l ≡ true)
            (ap (immediate_causes (register event causes g)) e ∙ register_self event causes g) k in
        let at = subst (Upstream g event) (sym e) here in
        elim (Upstream_split a c up) [
          | inl direct ↦ inr (at, (c, new, direct))
          | inr (_, rest) ↦ inr (at, rest)
        ]
    | inr other ↦
        let old = subst (λ l. member c l ≡ true) (register_ne event d causes g other) k in
        elim (Upstream_split a c up) [
          | inl direct ↦ inl (step c old direct)
          | inr (below, rest) ↦ inr (step c old below, rest)
        ]
  ]

-- No event is reached from one of its own causes.
unfoldable pub Acyclic : CausalGraph → Type 0
Acyclic g =
    (event cause : EventId)
    → member cause (immediate_causes g event) ≡ true
    → ¬ Upstream g event cause

pub new-Acyclic : Acyclic new
unfolding Acyclic immediate_causes lookup
new-Acyclic event cause h = absurd (member-nil cause h)

register-Acyclic :
    (g : CausalGraph) (event : EventId) (causes : List EventId)
    → Acyclic g
    → ((c : EventId) → member c causes ≡ true → ¬ Upstream g event c)
    → Acyclic (register event causes g)
unfolding Acyclic Through
register-Acyclic g event causes acyclic fine x c k up = elim (Bool-cases (event_eq x event)) [
  | inl same ↦
      let e = (event_eq_iff x event).0 same in
      let new =
        subst (λ l. member c l ≡ true)
          (ap (immediate_causes (register event causes g)) e ∙ register_self event causes g) k in
      elim (Upstream_split g event causes x c up) [
        | inl direct ↦ fine c new (subst (λ y. Upstream g y c) e direct)
        | inr (below, _) ↦ fine c new below
      ]
  | inr other ↦
      let old = subst (λ l. member c l ≡ true) (register_ne event x causes g other) k in
      elim (Upstream_split g event causes x c up) [
        | inl direct ↦ acyclic x c old direct
        | inr (below, (new, inside, above)) ↦
            fine new inside (Upstream_trans g new above (step c old below))
      ]
]

-- What the cycle check finds.
pub check_causes_cases :
    (g : CausalGraph) (event : EventId) (causes : List EventId)
    → ((c : EventId) × (member c causes ≡ true)
        × Upstream g event c
        × (check_causes g event causes ≡ err (cycle_detected event c)))
      ⊎ (((c : EventId) → member c causes ≡ true → ¬ Upstream g event c)
          × (check_causes g event causes ≡ ok tt))
unfolding check_causes
check_causes_cases g event [] = inr (λ c h. absurd (member-nil c h), refl)
check_causes_cases g event (cause ∷ causes) =
    elim (Bool-cases (event_eq cause event || is_ancestor_of g event cause)) [
      | inl closes ↦ inl (cause, member-cons cause causes, found closes, cond_true _ _ closes)
      | inr clear ↦ elim (check_causes_cases g event causes) [
        | inl (c, inside, up, refused) ↦
            inl (c, member-later c cause causes inside, up, cond_false _ _ clear ∙ refused)
        | inr (fine, passed) ↦ inr (
          λ c h. elim (member_cases c cause causes h) [
            | inl same ↦ λ up. missed clear (subst (Upstream g event) same up)
            | inr later ↦ fine c later
          ],
          cond_false _ _ clear ∙ passed,
        )
      ]
    ]
  where
    found : (event_eq cause event || is_ancestor_of g event cause) ≡ true → Upstream g event cause
    found h = elim (Bool-cases (event_eq cause event)) [
      | inl same ↦ subst (Upstream g event) (sym ((event_eq_iff cause event).0 same)) here
      | inr other ↦
          (is_ancestor_of_iff g event cause).0
            (sym (ap (λ b. b || is_ancestor_of g event cause) other) ∙ h)
    ]

    missed :
        (event_eq cause event || is_ancestor_of g event cause) ≡ false → ¬ Upstream g event cause
    missed h up = elim (Bool-cases (event_eq cause event)) [
      | inl same ↦ false≢true (sym h ∙ ap (λ b. b || is_ancestor_of g event cause) same)
      | inr other ↦ false≢true (
          sym h
          ∙ ap (λ b. b || is_ancestor_of g event cause) other
          ∙ (is_ancestor_of_iff g event cause).1 up)
    ]

-- The event has the given causes, and the causes of the other events are as before.
pub record Registered (g : CausalGraph) (event : EventId) (causes : List EventId) (g' : CausalGraph)
    : Type 0 where
  pub own : SameMembers (immediate_causes g' event) causes
  pub others :
      (x : EventId) → event_eq x event ≡ false → immediate_causes g' x ≡ immediate_causes g x

register-Registered :
    (g : CausalGraph) (event : EventId) (causes : List EventId)
    → Registered g event causes (register event (dedup (sort causes)) g)
register-Registered g event causes = record {
  own =
      subst (λ l. SameMembers l causes) (sym (register_self event (dedup (sort causes)) g))
        (normal_same causes);
  others = λ x ne. register_ne event x (dedup (sort causes)) g ne;
}

-- `add_event` refuses an event exactly where it is upstream of one of its causes, or one of them
-- itself: it names such a cause and leaves the graph as it was. Else it registers the event: its
-- causes are then those given, and the causes of the other events are as before.
pub add_event_cases :
    (g : CausalGraph) (event : EventId) (causes : List EventId)
    → ((c : EventId) × (member c causes ≡ true)
        × Upstream g event c
        × (add_event event causes g ≡ (err (cycle_detected event c), g)))
      ⊎ (((c : EventId) → member c causes ≡ true → ¬ Upstream g event c)
          × ((g' : CausalGraph) × (add_event event causes g ≡ (ok tt, g'))
              × Registered g event causes g'))
unfolding add_event
add_event_cases g event causes = elim (check_causes_cases g event (dedup (sort causes))) [
  | inl (c, inside, up, refused) ↦ inl (c, (normal_same causes c).0 inside, up, rw refused)
  | inr (fine, passed) ↦ inr (
    λ c h. fine c ((normal_same causes c).1 h),
    (register event (dedup (sort causes)) g, rw passed, register-Registered g event causes),
  )
]

-- On a graph where no event is reached from one of its own causes, `add_event` leaves such a graph,
-- whether it registers the event or refuses it.
pub add_event-Acyclic :
    (g : CausalGraph) (event : EventId) (causes : List EventId)
    → Acyclic g
    → Acyclic (add_event event causes g).1
unfolding add_event
add_event-Acyclic g event causes acyclic = elim (check_causes_cases g event (dedup (sort causes))) [
  | inl (c, inside, up, refused) ↦ rw refused acyclic
  | inr (fine, passed) ↦ rw passed (register-Acyclic g event (dedup (sort causes)) acyclic fine)
]
