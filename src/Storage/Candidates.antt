-- ===== src/Storage/Candidates.antt =====
-- The loops of `RetentionPolicy::evaluate_reclaimable` of crates/temnion-storage/src/lifecycle.rs, and
-- the holds that they ask.
use temnion.Prelude.{
  ℕ, ◌-◌, ◌<◌, ◌≡◌, ◌↔◌, ◌⊎◌, inl, inr, refl, ap, sym, subst, ◌∙◌, List, [], ◌∷◌, Bool, true, false,
  ◌&&◌, not, ltb, ◌==◌, ==_iff, Bool-cases, arith,
}
use mathlib.Core.List.{Memᴰ}
use mathlib.Core.List.Memᴰ
use temnion.Format.{StoredEvent}
use temnion.Storage.Lifecycle.{
  contains_number, ReferenceHold, is_sequence_held, is_held, push_if, push_aged, push_excess,
}

contains_number-Memᴰ : (x : ℕ) (ys : List ℕ) → contains_number x ys ≡ true → Memᴰ x ys
unfolding contains_number
contains_number-Memᴰ x [] h = ground (arith, h)
contains_number-Memᴰ x (y ∷ ys) h = elim (Bool-cases (x == y)) [
  | inl same ↦ Memᴰ.head ((==_iff x y).0 same)
  | inr other ↦ Memᴰ.tail (contains_number-Memᴰ x ys (ground (arith, h, other)))
]

-- No hold covers the sequence.
abbrev pub Free : List ReferenceHold → ℕ → Type 0
Free holds seq = (h : ReferenceHold) → Memᴰ h holds → is_sequence_held seq h ≡ false

pub is_held_iff :
    (holds : List ReferenceHold) (seq : ℕ) → (is_held holds seq ≡ false) ↔ Free holds seq
unfolding is_held
is_held_iff [] seq = (λ e h m. absurd (Memᴰ.not-nil m), λ free. refl)
is_held_iff (x ∷ holds) seq =
    let (out, back) = is_held_iff holds seq in
    (
      λ e h m. elim (Memᴰ.cases_cons m) [
        | inl same ↦ subst (λ h. is_sequence_held seq h ≡ false) (sym same) (ground (arith, e))
        | inr later ↦ out (ground (arith, e)) h later
      ],
      λ free.
          let here = free x (Memᴰ.head refl) in
          let there = back (λ h m. free h (Memᴰ.tail m)) in ground (arith, here, there),
    )

push_if_iff :
    (test : Bool) (seq s : ℕ) (candidates : List ℕ)
    → Memᴰ s (push_if test seq candidates) ↔ (Memᴰ s candidates ⊎ ((test ≡ true) × (s ≡ seq)))
push_if_iff false seq s candidates =
    (λ m. inl m, λ h. elim h [ inl m ↦ m | inr (e, _) ↦ ground (arith, e) ])
push_if_iff true seq s candidates = (
  λ m. elim (Memᴰ.append_cases candidates m) [
    | inl old ↦ inl old
    | inr new ↦ inr (refl, Memᴰ.eq_of_singleton new)
  ],
  λ h. elim h [
    | inl m ↦ Memᴰ.append_left (seq ∷ []) m
    | inr (_, e) ↦ Memᴰ.append_right candidates (Memᴰ.head e)
  ],
)

-- An event of the list with this sequence, of which `P` holds.
abbrev pub Some : (StoredEvent → Type 0) → List StoredEvent → ℕ → Type 0
Some P events s = (ev : StoredEvent) × Memᴰ ev events × P ev × (s ≡ ev.id.sequence)

Some-cons :
    (P : StoredEvent → Type 0) (ev : StoredEvent) (events : List StoredEvent) (s : ℕ)
    → Some P (ev ∷ events) s ↔ ((P ev × (s ≡ ev.id.sequence)) ⊎ Some P events s)
Some-cons P ev events s = (
  λ (x, m, p, e). elim (Memᴰ.cases_cons m) [
    | inl same ↦ inl (subst P same p, e ∙ ap (λ (x : StoredEvent). x.id.sequence) same)
    | inr later ↦ inr (x, later, p, e)
  ],
  λ h. elim h [
    | inl (p, e) ↦ (ev, Memᴰ.head refl, p, e)
    | inr (x, m, p, e) ↦ (x, Memᴰ.tail m, p, e)
  ],
)

module _ (holds : List ReferenceHold) (current_ticks : ℕ) where
  abbrev pub Old : ℕ → StoredEvent → Type 0
  Old max_age ev =
      (max_age < current_ticks - ev.times.valid.ticks) × (is_held holds ev.id.sequence ≡ false)

  pub push_aged_iff :
      (max_age : ℕ) (events : List StoredEvent) (candidates : List ℕ) (s : ℕ)
      → Memᴰ s (push_aged max_age current_ticks holds events candidates)
        ↔ (Memᴰ s candidates ⊎ Some (Old max_age) events s)
  unfolding push_aged
  push_aged_iff max_age [] candidates s =
      (λ m. inl m, λ h. elim h [ inl m ↦ m | inr (ev, m, _, _) ↦ absurd (Memᴰ.not-nil m) ])
  push_aged_iff max_age (ev ∷ events) candidates s =
      let test =
        ltb max_age (current_ticks - ev.times.valid.ticks) && not (is_held holds ev.id.sequence) in
      let (out, back) = push_aged_iff max_age events (push_if test ev.id.sequence candidates) s in
      let (down, up) = push_if_iff test ev.id.sequence s candidates in
      let (split, join) = Some-cons (Old max_age) ev events s in
      (
        λ m. elim (out m) [
          | inr later ↦ inr (join (inr later))
          | inl pushed ↦ elim (down pushed) [
            | inl old ↦ inl old
            | inr (passed, e) ↦
                inr (join (inl ((ground (arith, passed), ground (arith, passed)), e)))
          ]
        ],
        λ h. elim h [
          | inl old ↦ back (inl (up (inl old)))
          | inr here ↦ elim (split here) [
            | inr later ↦ back (inr later)
            | inl ((aged, free), e) ↦ back (inl (up (inr (ground (arith, aged, free), e))))
          ]
        ],
      )

  pub push_excess_iff :
      (events : List StoredEvent) (candidates : List ℕ) (s : ℕ)
      → Memᴰ s (push_excess holds events candidates)
        ↔ (Memᴰ s candidates ⊎ Some (λ ev. is_held holds ev.id.sequence ≡ false) events s)
  unfolding push_excess
  push_excess_iff [] candidates s =
      (λ m. inl m, λ h. elim h [ inl m ↦ m | inr (ev, m, _, _) ↦ absurd (Memᴰ.not-nil m) ])
  push_excess_iff (ev ∷ events) candidates s =
      let seen = contains_number ev.id.sequence candidates in
      let test = not seen && not (is_held holds ev.id.sequence) in
      let (out, back) = push_excess_iff events (push_if test ev.id.sequence candidates) s in
      let (down, up) = push_if_iff test ev.id.sequence s candidates in
      let (split, join) = Some-cons (λ ev. is_held holds ev.id.sequence ≡ false) ev events s in
      (
        λ m. elim (out m) [
          | inr later ↦ inr (join (inr later))
          | inl pushed ↦ elim (down pushed) [
            | inl old ↦ inl old
            | inr (passed, e) ↦ inr (join (inl (ground (arith, passed), e)))
          ]
        ],
        λ h. elim h [
          | inl old ↦ back (inl (up (inl old)))
          | inr here ↦ elim (split here) [
            | inr later ↦ back (inr later)
            | inl (free, e) ↦ elim (Bool-cases seen) [
              | inl there ↦ back (
                  inl (
                    up (
                      inl
                        (subst (λ s. Memᴰ s candidates) (sym e) (contains_number-Memᴰ _ _ there)))))
              | inr absent ↦ back (inl (up (inr (ground (arith, free, absent), e))))
            ]
          ]
        ],
      )
