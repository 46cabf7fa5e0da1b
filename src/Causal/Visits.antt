-- ===== src/Causal/Visits.antt =====
-- One turn of the search in `is_ancestor_of` of crates/temnion-causal/src/lib.rs: the visit of the
-- causes of an event.
use temnion.Prelude.{
  ◌+◌, ◌≤◌, ◌≡◌, ◌≢◌, ◌⊎◌, inl, inr, sym, subst, ◌∙◌, Bool, true, false, false≢true, List, [], ◌∷◌,
  ◌++◌, length, length-push, arith, Bool-cases, if◌then◌else◌, cond_true, cond_false, none, some,
  some≢none, some-injective,
}
use temnion.Core.{EventId, event_eq}
use temnion.Core.Laws.{event_eq_iff}
use temnion.Causal.{member, visit}
use temnion.Causal.Members.{
  member-cons, member-later, member_cases, member-nil, member-append_left, member-append_right,
  member-append_inv, unseen, unseen-visit,
}

-- What the visit of some causes does to the visited set and the queue.
pub record Visit (ancestor : EventId) (causes visited queue visited' queue' : List EventId)
    : Type 0 where
  pub grows : (x : EventId) → member x visited ≡ true → member x visited' ≡ true
  pub covers : (x : EventId) → member x causes ≡ true → member x visited' ≡ true
  pub avoids : (x : EventId) → member x causes ≡ true → x ≢ ancestor
  pub stays : (x : EventId) → member x queue ≡ true → member x queue' ≡ true
  pub queues :
      (x : EventId)
      → member x visited' ≡ true
      → (member x visited ≡ true) ⊎ (member x queue' ≡ true)
  pub from :
      (x : EventId) → member x queue' ≡ true → (member x queue ≡ true) ⊎ (member x causes ≡ true)
  pub counts :
      (all : List EventId)
      → ((x : EventId) → member x causes ≡ true → member x all ≡ true)
      → length queue' + unseen visited' all ≤ length queue + unseen visited all

Visit-nil :
    (ancestor : EventId) (visited queue : List EventId)
    → Visit ancestor [] visited queue visited queue
Visit-nil ancestor visited queue = record {
  grows = λ x h. h;
  covers = λ x h. absurd (member-nil x h);
  avoids = λ x h. absurd (member-nil x h);
  stays = λ x h. h;
  queues = λ x h. inl h;
  from = λ x h. inl h;
  counts = λ all h. omega arith;
}

-- One more cause in front, visited before or not.
module _ (ancestor c : EventId) (causes visited queue visited' queue' : List EventId)
    (other : c ≢ ancestor) where
  Visit-seen :
      member c visited ≡ true
      → Visit ancestor causes visited queue visited' queue'
      → Visit ancestor (c ∷ causes) visited queue visited' queue'
  Visit-seen seen v = record {
    grows = v.grows;
    covers = λ x h. elim (member_cases x c causes h) [
      | inl same ↦ v.grows x (subst (λ y. member y visited ≡ true) (sym same) seen)
      | inr later ↦ v.covers x later
    ];
    avoids = λ x h. elim (member_cases x c causes h) [
      | inl same ↦ λ e. other (sym same ∙ e)
      | inr later ↦ v.avoids x later
    ];
    stays = v.stays;
    queues = v.queues;
    from = λ x h. elim (v.from x h) [
      | inl before ↦ inl before
      | inr cause ↦ inr (member-later x c causes cause)
    ];
    counts = λ all h. v.counts all (λ x k. h x (member-later x c causes k));
  }

  Visit-new :
      member c visited ≡ false
      → Visit ancestor causes (c ∷ visited) (queue ++ c ∷ []) visited' queue'
      → Visit ancestor (c ∷ causes) visited queue visited' queue'
  Visit-new new v = record {
    grows = λ x h. v.grows x (member-later x c visited h);
    covers = λ x h. elim (member_cases x c causes h) [
      | inl same ↦
          v.grows x (subst (λ y. member y (c ∷ visited) ≡ true) (sym same) (member-cons c visited))
      | inr later ↦ v.covers x later
    ];
    avoids = λ x h. elim (member_cases x c causes h) [
      | inl same ↦ λ e. other (sym same ∙ e)
      | inr later ↦ v.avoids x later
    ];
    stays = λ x h. v.stays x (member-append_left x queue (c ∷ []) h);
    queues = λ x h. elim (v.queues x h) [
      | inl old ↦ elim (member_cases x c visited old) [
        | inl same ↦ inr (
            v.stays x (
              member-append_right x queue (c ∷ [])
                (subst (λ y. member y (c ∷ []) ≡ true) (sym same) (member-cons c []))))
        | inr before ↦ inl before
      ]
      | inr now ↦ inr now
    ];
    from = λ x h. elim (v.from x h) [
      | inl old ↦ elim (member-append_inv x queue (c ∷ []) old) [
        | inl before ↦ inl before
        | inr last ↦ elim (member_cases x c [] last) [
          | inl same ↦
              inr (subst (λ y. member y (c ∷ causes) ≡ true) (sym same) (member-cons c causes))
          | inr never ↦ absurd (member-nil x never)
        ]
      ]
      | inr cause ↦ inr (member-later x c causes cause)
    ];
    counts = λ all h.
        let fewer = v.counts all (λ x k. h x (member-later x c causes k)) in
        let less = unseen-visit c visited all (h c (member-cons c causes)) new in
        omega (arith, length-push queue c);
  }

pub visit-Visit :
    (ancestor : EventId) (causes visited queue : List EventId) {visited' queue' : List EventId}
    → visit ancestor causes visited queue ≡ some (visited', queue')
    → Visit ancestor causes visited queue visited' queue'
unfolding visit
visit-Visit ancestor [] visited queue e =
    subst (λ r. Visit ancestor [] visited queue r.0 r.1) (some-injective _ _ e)
      (Visit-nil ancestor visited queue)
visit-Visit ancestor (c ∷ causes) visited queue {visited'} {queue'} e =
    elim (Bool-cases (event_eq c ancestor)) [
      | inl found ↦ absurd (some≢none (sym e ∙ cond_true _ _ found))
      | inr other ↦
          let ne : c ≢ ancestor =
            λ same. false≢true (sym other ∙ (event_eq_iff c ancestor).1 same) in
          let rest = sym (cond_false _ _ other) ∙ e in
          elim (Bool-cases (member c visited)) [
            | inl seen ↦
                Visit-seen ancestor c causes visited queue visited' queue' ne seen
                  (visit-Visit ancestor causes visited queue (subst Rest seen rest))
            | inr new ↦
                Visit-new ancestor c causes visited queue visited' queue' ne new (
                  visit-Visit ancestor causes (c ∷ visited) (queue ++ c ∷ []) (subst Rest new rest))
          ]
    ]
  where
    Rest : Bool → Type 0
    Rest b =
        visit ancestor causes (if b then visited else c ∷ visited)
          (if b then queue else queue ++ c ∷ [])
        ≡ some (visited', queue')

pub visit-none :
    (ancestor : EventId) (causes visited queue : List EventId)
    → visit ancestor causes visited queue ≡ none
    → member ancestor causes ≡ true
unfolding visit
visit-none ancestor [] visited queue e = absurd (some≢none e)
visit-none ancestor (c ∷ causes) visited queue e = elim (Bool-cases (event_eq c ancestor)) [
  | inl found ↦
      subst (λ x. member x (c ∷ causes) ≡ true) ((event_eq_iff c ancestor).0 found)
        (member-cons c causes)
  | inr other ↦
      member-later ancestor c causes
        (visit-none ancestor causes _ _ (sym (cond_false _ _ other) ∙ e))
]
