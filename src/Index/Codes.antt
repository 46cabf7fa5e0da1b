-- ===== src/Index/Codes.antt =====
-- Sorting and deduplicating the Morton codes of a box of crates/temnion-index/src/lib.rs: the codes
-- stay and increase.
use temnion.Prelude.{
  ℕ, ◌≤◌, ◌<◌, ◌↔◌, inl, inr, sym, ◌∙◌, subst, List, [], ◌∷◌, Bool-cases, ltb, ◌==◌, ==_iff,
  cond_true, cond_false, Each, arith,
}
use mathlib.Core.List.{Memᴰ}
use mathlib.Core.List.Memᴰ
use temnion.Index.Morton.{insert_code, sort_codes, dedup_after}

-- Each code is above the ones before it.
abbrev pub Increasing : List ℕ → Type 0
Increasing [] = Unit
Increasing (c ∷ codes) = Each (λ x. c < x) codes × Increasing codes

abbrev pub Sorted : List ℕ → Type 0
Sorted [] = Unit
Sorted (c ∷ codes) = Each (λ x. c ≤ x) codes × Sorted codes

-- Sorting keeps the codes and puts them in order.
Memᴰ-insert_code : (v c : ℕ) (codes : List ℕ) → Memᴰ v (insert_code c codes) ↔ Memᴰ v (c ∷ codes)
unfolding insert_code
Memᴰ-insert_code v c [] = (λ h. h, λ h. h)
Memᴰ-insert_code v c (x ∷ codes) = elim (Bool-cases (ltb x c)) [
  | inr after ↦
      subst (λ l. Memᴰ v l ↔ Memᴰ v (c ∷ x ∷ codes)) (sym (cond_false _ _ after)) (λ h. h, λ h. h)
  | inl before ↦
      let (out, back) = Memᴰ-insert_code v c codes in
      subst (λ l. Memᴰ v l ↔ Memᴰ v (c ∷ x ∷ codes)) (sym (cond_true _ _ before))
        (
          λ h. elim (Memᴰ.cases_cons h) [
            | inl e ↦ Memᴰ.tail (Memᴰ.head e)
            | inr later ↦ elim (Memᴰ.cases_cons (out later)) [
              | inl e ↦ Memᴰ.head e
              | inr rest ↦ Memᴰ.tail (Memᴰ.tail rest)
            ]
          ],
          λ h. elim (Memᴰ.cases_cons h) [
            | inl e ↦ Memᴰ.tail (back (Memᴰ.head e))
            | inr later ↦ elim (Memᴰ.cases_cons later) [
              | inl e ↦ Memᴰ.head e
              | inr rest ↦ Memᴰ.tail (back (Memᴰ.tail rest))
            ]
          ],
        )
]

pub Memᴰ-sort_codes : (v : ℕ) (codes : List ℕ) → Memᴰ v (sort_codes codes) ↔ Memᴰ v codes
unfolding sort_codes
Memᴰ-sort_codes v [] = (λ h. h, λ h. h)
Memᴰ-sort_codes v (c ∷ codes) =
    let (out, back) = Memᴰ-insert_code v c (sort_codes codes) in
    let (down, up) = Memᴰ-sort_codes v codes in
    (
      λ h. elim (Memᴰ.cases_cons (out h)) [
        | inl e ↦ Memᴰ.head e
        | inr later ↦ Memᴰ.tail (down later)
      ],
      λ h. elim (Memᴰ.cases_cons h) [
        | inl e ↦ back (Memᴰ.head e)
        | inr later ↦ back (Memᴰ.tail (up later))
      ],
    )

Each-le : (a b : ℕ) (codes : List ℕ) → a ≤ b → Each (λ x. b ≤ x) codes → Each (λ x. a ≤ x) codes
Each-le a b [] le h = tt
Each-le a b (c ∷ codes) le (first, h) = (omega arith, Each-le a b codes le h)

Each-insert_code :
    (a c : ℕ) (codes : List ℕ)
    → a ≤ c
    → Each (λ x. a ≤ x) codes
    → Each (λ x. a ≤ x) (insert_code c codes)
unfolding insert_code
Each-insert_code a c [] le h = (le, tt)
Each-insert_code a c (x ∷ codes) le (first, h) = elim (Bool-cases (ltb x c)) [
  | inl before ↦
      subst (Each (λ x. a ≤ x)) (sym (cond_true _ _ before))
        (first, Each-insert_code a c codes le h)
  | inr after ↦ subst (Each (λ x. a ≤ x)) (sym (cond_false _ _ after)) (le, (first, h))
]

insert_code-Sorted : (c : ℕ) (codes : List ℕ) → Sorted codes → Sorted (insert_code c codes)
unfolding insert_code
insert_code-Sorted c [] h = (tt, tt)
insert_code-Sorted c (x ∷ codes) (first, h) = elim (Bool-cases (ltb x c)) [
  | inl before ↦
      subst Sorted (sym (cond_true _ _ before))
        (Each-insert_code x c codes (ground (arith, before)) first, insert_code-Sorted c codes h)
  | inr after ↦
      let le : c ≤ x = ground (arith, after) in
      subst Sorted (sym (cond_false _ _ after)) ((le, Each-le c x codes le first), (first, h))
]

pub sort_codes-Sorted : (codes : List ℕ) → Sorted (sort_codes codes)
unfolding sort_codes
sort_codes-Sorted [] = tt
sort_codes-Sorted (c ∷ codes) = insert_code-Sorted c (sort_codes codes) (sort_codes-Sorted codes)

-- Without its repeats a sorted list increases, and keeps its members.
pub dedup_after-Increasing :
    (c : ℕ) (codes : List ℕ)
    → Each (λ x. c ≤ x) codes
    → Sorted codes
    → Increasing (c ∷ dedup_after c codes)
unfolding dedup_after
dedup_after-Increasing c [] h s = (tt, tt)
dedup_after-Increasing c (x ∷ codes) (first, h) (s, t) = elim (Bool-cases (x == c)) [
  | inl same ↦
      subst (λ l. Increasing (c ∷ l)) (sym (cond_true _ _ same))
        (dedup_after-Increasing c codes h t)
  | inr other ↦
      let less : c < x = ground (arith, first, other) in
      let (above, inc) = dedup_after-Increasing x codes s t in
      subst (λ l. Increasing (c ∷ l)) (sym (cond_false _ _ other))
        ((less, Each-lt c x (dedup_after x codes) less above), (above, inc))
]
  where
    Each-lt : (a b : ℕ) (codes : List ℕ) → a < b → Each (λ x. b < x) codes → Each (λ x. a < x) codes
    Each-lt a b [] less h = tt
    Each-lt a b (c ∷ codes) less (first, h) = (omega arith, Each-lt a b codes less h)

pub Memᴰ-dedup_after :
    (v c : ℕ) (codes : List ℕ) → Memᴰ v (c ∷ dedup_after c codes) ↔ Memᴰ v (c ∷ codes)
unfolding dedup_after
Memᴰ-dedup_after v c [] = (λ h. h, λ h. h)
Memᴰ-dedup_after v c (x ∷ codes) = elim (Bool-cases (x == c)) [
  | inl same ↦
      let e = (==_iff x c).0 same in
      let (out, back) = Memᴰ-dedup_after v c codes in
      subst (λ l. Memᴰ v (c ∷ l) ↔ Memᴰ v (c ∷ x ∷ codes)) (sym (cond_true _ _ same))
        (
          λ h. elim (Memᴰ.cases_cons (out h)) [
            | inl is ↦ Memᴰ.head is
            | inr later ↦ Memᴰ.tail (Memᴰ.tail later)
          ],
          λ h. elim (Memᴰ.cases_cons h) [
            | inl is ↦ back (Memᴰ.head is)
            | inr later ↦ elim (Memᴰ.cases_cons later) [
              | inl is ↦ back (Memᴰ.head (is ∙ e))
              | inr rest ↦ back (Memᴰ.tail rest)
            ]
          ],
        )
  | inr other ↦
      let (out, back) = Memᴰ-dedup_after v x codes in
      subst (λ l. Memᴰ v (c ∷ l) ↔ Memᴰ v (c ∷ x ∷ codes)) (sym (cond_false _ _ other))
        (
          λ h. elim (Memᴰ.cases_cons h) [
            | inl is ↦ Memᴰ.head is
            | inr later ↦ Memᴰ.tail (out later)
          ],
          λ h. elim (Memᴰ.cases_cons h) [
            | inl is ↦ Memᴰ.head is
            | inr later ↦ Memᴰ.tail (back later)
          ],
        )
]
