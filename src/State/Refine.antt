-- ===== src/State/Refine.antt =====
-- Every sequence of calls on a slab answers as the reference map.
use temnion.Prelude.{
  ◌≡◌, refl, ap, sym, ◌∙◌, subst, Option, none, some, List, [], ◌∷◌, Outcome, ok, err, inl, inr,
  if◌then◌else◌, Bool, true, false, Bool-cases,
}
use temnion.Core.{EntityId, entity_eq}
use temnion.Core.Laws.{entity_eq_iff}
use temnion.State.{StateSlab, StateError, get, get_mut, remove, invalid_entity}
use temnion.State.Inv.{IsValid, get_cases, get-err}
use temnion.State.Insert.{insert_cases, get-insert}
use temnion.State.Removed.{remove_lem}
use temnion.State.Update.{get_mut_lem}
use temnion.State.Trace
use temnion.State.Trace.{Op, add, take, write, Reply, step, run, contents, Allowed, AllowedRun}

abbrev seen {ℓ} : {T : Type ℓ} → Outcome StateError T → Option T
seen r = elim r [ ok value ↦ some value | _ ↦ none ]

module _ {ℓ} {T : Type ℓ} where
  seen-if :
      (b : Bool) (r q : Outcome StateError T)
      → seen (if b then r else q) ≡ (if b then seen r else seen q)
  seen-if true r q = refl
  seen-if false r q = refl

  -- The slab `s'` that an operation on the handle `id` leaves, where `s` held something for it or not.
  abbrev Answers : StateSlab T → StateSlab T → EntityId → Option T → Type ℓ
  Answers s s' id o =
      (other : EntityId) → contents s' other ≡ (if entity_eq id other then o else contents s other)

  answers :
      (s s' : StateSlab T) (id : EntityId) (r : EntityId → Outcome StateError T)
      → ((other : EntityId) → get other s' ≡ (if entity_eq id other then r other else get other s))
      → (o : Option T) → ((other : EntityId) → seen (r other) ≡ o)
      → Answers s s' id o
  unfolding contents
  answers s s' id r after o same other =
      ap seen (after other)
      ∙ seen-if (entity_eq id other) (r other) (get other s)
      ∙ ap (λ q. if entity_eq id other then q else seen (get other s)) (same other)

  held :
      (s : StateSlab T) (id : EntityId) {value : T}
      → get id s ≡ ok value
      → contents s id ≡ some value
  unfolding contents
  held s id e = ap seen e

  dead :
      (s : StateSlab T) (id : EntityId) → get id s ≡ err (invalid_entity id) → contents s id ≡ none
  unfolding contents
  dead s id e = ap seen e

  -- What held nothing still holds nothing.
  unchanged :
      (s s' : StateSlab T) (id : EntityId)
      → contents s id ≡ none
      → Answers s s' id none
      → (other : EntityId) → contents s' other ≡ contents s other
  unchanged s s' id empty after other = elim (Bool-cases (entity_eq id other)) [
    | inl same ↦
        let e = (entity_eq_iff id other).0 same in
        (rw same at (after other)) ∙ sym empty ∙ ap (contents s) e
    | inr differ ↦ rw differ at (after other)
  ]

  step-add :
      (s : StateSlab T) (value : T)
      → IsValid s
      → Allowed (contents s) (contents (step (add value) s).1) (add value) (step (add value) s).0
        × IsValid (step (add value) s).1
  unfolding step
  step-add s value v = elim (insert_cases s value v) [
    | inl (full, e) ↦ rw e (Allowed.add_full (λ other. refl), v)
    | inr (id, s', e, done) ↦ rw e (
      Allowed.add_fresh (dead s id (get-err id s done.fresh))
          (answers s s' id (λ _. ok value) (get-insert s value v e) (some value) (λ _. refl)),
      done.valid,
    )
  ]

  step-take :
      (s : StateSlab T) (id : EntityId)
      → IsValid s
      → Allowed (contents s) (contents (step (take id) s).1) (take id) (step (take id) s).0
        × IsValid (step (take id) s).1
  unfolding step
  step-take s id v =
      let (same, valid, after) = remove_lem s id v in
      let now =
        answers s (remove id s).1 id (λ other. err (invalid_entity other)) after none (λ _. refl) in
      let s' = (remove id s).1 in
      elim (get_cases id s v) [
        | inl (value, e) ↦
            subst
              (λ r.
                Allowed (contents s) (contents (Trace.reply Reply.took (r, s')).1) (take id)
                  (Trace.reply Reply.took (r, s')).0
                × IsValid (Trace.reply Reply.took (r, s')).1)
              (sym (same ∙ e)) (Allowed.take_live (held s id e) now, valid)
        | inr e ↦
            subst
              (λ r.
                Allowed (contents s) (contents (Trace.reply Reply.took (r, s')).1) (take id)
                  (Trace.reply Reply.took (r, s')).0
                × IsValid (Trace.reply Reply.took (r, s')).1)
              (sym (same ∙ e))
              (Allowed.take_dead (dead s id e) (unchanged s s' id (dead s id e) now), valid)
      ]

  step-write :
      (s : StateSlab T) (id : EntityId) (f : T → T)
      → IsValid s
      → Allowed (contents s) (contents (step (write id f) s).1) (write id f) (step (write id f) s).0
        × IsValid (step (write id f) s).1
  unfolding step
  step-write s id f v =
      let (valid, cases) = get_mut_lem s id f v in
      let s' = (get_mut id f s).1 in
      elim cases [
        | inl (value, there, e, after) ↦
            subst
              (λ r.
                Allowed (contents s) (contents (Trace.reply (λ _. Reply.wrote) (r, s')).1)
                  (write id f) (Trace.reply (λ _. Reply.wrote) (r, s')).0
                × IsValid (Trace.reply (λ _. Reply.wrote) (r, s')).1)
              (sym e)
              (
                Allowed.write_live (held s id there)
                    (answers s s' id (λ _. ok (f value)) after (some (f value)) (λ _. refl)),
                valid,
              )
        | inr (there, e) ↦ rw e (Allowed.write_dead (dead s id there) (λ other. refl), v)
      ]

  pub step-Allowed :
      (op : Op T) (s : StateSlab T)
      → IsValid s
      → Allowed (contents s) (contents (step op s).1) op (step op s).0 × IsValid (step op s).1
  step-Allowed (add value) s v = step-add s value v
  step-Allowed (take id) s v = step-take s id v
  step-Allowed (write id f) s v = step-write s id f v

  -- From a valid slab, any sequence of calls leaves a valid slab, and its replies and final contents
  -- are those of a run of the reference map from the contents at the start: no call panics, a new
  -- handle is one that held nothing, and a handle is refused exactly when the map holds nothing for it.
  pub run_refines :
      (ops : List (Op T)) (s : StateSlab T)
      → IsValid s
      → AllowedRun (contents (run s ops).1) (contents s) ops (run s ops).0 × IsValid (run s ops).1
  unfolding run
  run_refines [] s v = (AllowedRun.stop, v)
  run_refines (op ∷ ops) s v =
      let (now, valid) = step-Allowed op s v in
      let (later, end) = run_refines ops (step op s).1 valid in (AllowedRun.then_run now later, end)
