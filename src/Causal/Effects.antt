-- ===== src/Causal/Effects.antt =====
-- The effects of crates/temnion-causal/src/lib.rs: what `add_event` registers of them, and that they
-- mirror the causes and have no cycle either.
use temnion.Prelude.{
  ◌≡◌, ◌⊎◌, ◌↔◌, inl, inr, ap, sym, subst, ◌∙◌, true, false, false≢true, List, [], ◌∷◌, Bool-cases,
  cond_true, cond_false,
}
use temnion.Core.{EventId, event_eq}
use temnion.Core.Laws.{event_eq_iff}
use temnion.Causal.{
  new, CausalGraph, Map, lookup, store, or_insert, unwrap_or, member, immediate_causes,
  immediate_effects, with_effect, add_effects, register, add_event, sort, dedup,
}
use temnion.Causal.Members.{
  member-cons, member-later, member_cases, member-nil, member-append_left, member-append_right,
  member-append_inv,
}
use temnion.Causal.Normal.{normal_same}
use temnion.Causal.Ancestors.{Upstream, here, step}
use temnion.Causal.Acyclic.{
  Acyclic, new-Acyclic, lookup-store_self, lookup-store_ne, register_self, register_ne,
  add_event-Acyclic, check_causes_cases,
}

-- Going down from an event to one of its effects, and from there on.
pub data Downstream (g : CausalGraph) (a : EventId) : EventId → Type 0 where
  at_start : Downstream g a a
  onward :
      {d : EventId} (c : EventId)
      → member d (immediate_effects g c) ≡ true
      → Downstream g a c
      → Downstream g a d

-- An event is among the effects of another exactly when that one is among its causes.
abbrev pub Mirrored : CausalGraph → Type 0
Mirrored g =
    (cause event : EventId)
    → (member event (immediate_effects g cause) ≡ true)
      ↔ (member cause (immediate_causes g event) ≡ true)

-- Neither the causes nor the effects of the graph have a cycle, and each lists what the other does.
pub record IsCausal (g : CausalGraph) : Type 0 where
  pub causes : Acyclic g
  pub effects :
      (event effect : EventId)
      → member effect (immediate_effects g event) ≡ true
      → ¬ Downstream g effect event
  pub mirrored : Mirrored g

Downstream-Upstream :
    (g : CausalGraph) → Mirrored g → (a d : EventId) → Downstream g a d → Upstream g a d
Downstream-Upstream g m a d at_start = here
Downstream-Upstream g m a d (onward c k down) =
    step c ((m c d).0 k) (Downstream-Upstream g m a c down)

of_Mirrored : (g : CausalGraph) → Acyclic g → Mirrored g → IsCausal g
unfolding Acyclic
of_Mirrored g acyclic m = record {
  causes = acyclic;
  effects = λ event effect k down.
      acyclic effect event ((m event effect).0 k) (Downstream-Upstream g m effect event down);
  mirrored = m;
}

pub new-IsCausal : IsCausal new
unfolding immediate_causes immediate_effects lookup
new-IsCausal =
    of_Mirrored new new-Acyclic
      (λ cause event. (λ h. absurd (member-nil event h), λ h. absurd (member-nil cause h)))

-- The list that stands under a key, none being an empty one.
abbrev listed_at : EventId → Map (List EventId) → List EventId
listed_at x m = unwrap_or (lookup x m) []

with_effect_iff :
    (e event : EventId) (l : List EventId)
    → (member e (with_effect event l) ≡ true) ↔ ((member e l ≡ true) ⊎ (e ≡ event))
unfolding with_effect
with_effect_iff e event l = elim (Bool-cases (member event l)) [
  | inl there ↦
      subst (λ r. (member e r ≡ true) ↔ ((member e l ≡ true) ⊎ (e ≡ event)))
        (sym (cond_true _ _ there))
        (
          λ h. inl h,
          λ h. elim h [
            | inl old ↦ old
            | inr same ↦ subst (λ e. member e l ≡ true) (sym same) there
          ],
        )
  | inr absent ↦
      subst (λ r. (member e r ≡ true) ↔ ((member e l ≡ true) ⊎ (e ≡ event)))
        (sym (cond_false _ _ absent))
        (
          λ h. elim (member-append_inv e l (event ∷ []) h) [
            | inl old ↦ inl old
            | inr last ↦ elim (member_cases e event [] last) [
              | inl same ↦ inr same
              | inr none' ↦ absurd (member-nil e none')
            ]
          ],
          λ h. elim h [
            | inl old ↦ member-append_left e l (event ∷ []) old
            | inr same ↦
                member-append_right e l (event ∷ [])
                  (subst (λ x. member x (event ∷ []) ≡ true) (sym same) (member-cons event []))
          ],
        )
]

add_effects_iff :
    (event : EventId) (causes : List EventId) (m : Map (List EventId)) (x e : EventId)
    → (member e (listed_at x (add_effects event causes m)) ≡ true)
      ↔ ((member e (listed_at x m) ≡ true) ⊎ ((e ≡ event) × (member x causes ≡ true)))
unfolding add_effects
add_effects_iff event [] m x e =
    (λ h. inl h, λ h. elim h [ inl old ↦ old | inr (_, k) ↦ absurd (member-nil x k) ])
add_effects_iff event (cause ∷ causes) m x e =
    let list = with_effect event (listed_at cause m) in
    let (out, back) = add_effects_iff event causes (store cause list m) x e in
    let (read, find) = with_effect_iff e event (listed_at cause m) in
    elim (Bool-cases (event_eq x cause)) [
      | inl same ↦
          let at = (event_eq_iff x cause).0 same in
          let now : listed_at x (store cause list m) ≡ list =
            ap (λ x. listed_at x (store cause list m)) at
            ∙ ap (λ o. unwrap_or o []) (lookup-store_self cause list m) in
          let before : listed_at cause m ≡ listed_at x m = ap (λ x. listed_at x m) (sym at) in
          (
            λ h. elim (out h) [
              | inr (is, k) ↦ inr (is, member-later x cause causes k)
              | inl old ↦ elim (read (subst (λ l. member e l ≡ true) now old)) [
                | inl older ↦ inl (subst (λ l. member e l ≡ true) before older)
                | inr is ↦
                    inr (is, subst (λ y. member x (y ∷ causes) ≡ true) at (member-cons x causes))
              ]
            ],
            λ h. elim h [
              | inl old ↦ back (
                  inl (
                    subst (λ l. member e l ≡ true) (sym now)
                      (find (inl (subst (λ l. member e l ≡ true) (sym before) old)))))
              | inr (is, k) ↦ back (inl (subst (λ l. member e l ≡ true) (sym now) (find (inr is))))
            ],
          )
      | inr other ↦
          let now : listed_at x (store cause list m) ≡ listed_at x m =
            ap (λ o. unwrap_or o []) (lookup-store_ne cause x list m other) in
          (
            λ h. elim (out h) [
              | inr (is, k) ↦ inr (is, member-later x cause causes k)
              | inl old ↦ inl (subst (λ l. member e l ≡ true) now old)
            ],
            λ h. elim h [
              | inl old ↦ back (inl (subst (λ l. member e l ≡ true) (sym now) old))
              | inr (is, k) ↦ elim (member_cases x cause causes k) [
                | inl same ↦ absurd (differ x cause same other)
                | inr later ↦ back (inr (is, later))
              ]
            ],
          )
    ]
  where
    differ : (x y : EventId) → x ≡ y → ¬ (event_eq x y ≡ false)
    differ x y e ne = false≢true (sym ne ∙ (event_eq_iff x y).1 e)

listed_at-or_insert :
    (event x : EventId) (m : Map (List EventId))
    → listed_at x (or_insert event [] m) ≡ listed_at x m
unfolding or_insert
listed_at-or_insert event x m = elim (Bool-cases (event_eq x event)) [
  | inl same ↦
      let at = (event_eq_iff x event).0 same in
      ap (λ x. listed_at x (store event (listed_at event m) m)) at
      ∙ ap (λ o. unwrap_or o []) (lookup-store_self event (listed_at event m) m)
      ∙ ap (λ x. listed_at x m) (sym at)
  | inr other ↦ ap (λ o. unwrap_or o []) (lookup-store_ne event x (listed_at event m) m other)
]

-- The effects after an event was registered.
register-effects_iff :
    (event : EventId) (causes : List EventId) (g : CausalGraph) (x e : EventId)
    → (member e (immediate_effects (register event causes g) x) ≡ true)
      ↔ ((member e (immediate_effects g x) ≡ true) ⊎ ((e ≡ event) × (member x causes ≡ true)))
unfolding register immediate_effects
register-effects_iff event causes g x e =
    subst
      (λ l.
        (member e l ≡ true)
        ↔ ((member e (listed_at x g.effects) ≡ true) ⊎ ((e ≡ event) × (member x causes ≡ true))))
      (sym (listed_at-or_insert event x (add_effects event causes g.effects)))
      (add_effects_iff event causes g.effects x e)

register-Mirrored :
    (event : EventId) (causes : List EventId) (g : CausalGraph)
    → ((c : EventId) → member c (immediate_causes g event) ≡ true → member c causes ≡ true)
    → Mirrored g
    → Mirrored (register event causes g)
register-Mirrored event causes g more m c e =
    let (out, back) = register-effects_iff event causes g c e in
    elim (Bool-cases (event_eq e event)) [
      | inl same ↦
          let at = (event_eq_iff e event).0 same in
          let own : immediate_causes (register event causes g) e ≡ causes =
            ap (immediate_causes (register event causes g)) at ∙ register_self event causes g in
          (
            λ h.
                subst (λ l. member c l ≡ true) (sym own)
                  (elim (out h) [
                    | inl old ↦
                        more c
                          (subst (λ e. member c (immediate_causes g e) ≡ true) at ((m c e).0 old))
                    | inr (_, k) ↦ k
                  ]),
            λ h. back (inr (at, subst (λ l. member c l ≡ true) own h)),
          )
      | inr other ↦
          let others = register_ne event e causes g other in
          (
            λ h.
                subst (λ l. member c l ≡ true) (sym others)
                  (elim (out h) [
                    | inl old ↦ (m c e).0 old
                    | inr (at, _) ↦ absurd (false≢true (sym other ∙ (event_eq_iff e event).1 at))
                  ]),
            λ h. back (inl ((m c e).1 (subst (λ l. member c l ≡ true) others h))),
          )
    ]

-- On a graph without cycles whose effects mirror its causes, `add_event` of an event whose causes so
-- far are all given again leaves such a graph, whether it registers the event or refuses it: neither
-- the causes nor the effects have a cycle, and each lists what the other does.
pub add_event-IsCausal :
    (g : CausalGraph) (event : EventId) (causes : List EventId)
    → ((c : EventId) → member c (immediate_causes g event) ≡ true → member c causes ≡ true)
    → IsCausal g
    → IsCausal (add_event event causes g).1
unfolding add_event
add_event-IsCausal g event causes more h =
    let sorted = dedup (sort causes) in
    elim (check_causes_cases g event sorted) [
      | inl (c, inside, up, refused) ↦ rw refused h
      | inr (fine, passed) ↦
          of_Mirrored (add_event event causes g).1 (add_event-Acyclic g event causes h.causes) (
            rw passed (
              register-Mirrored event sorted g (λ c k. (normal_same causes c).1 (more c k))
                h.mirrored))
    ]
