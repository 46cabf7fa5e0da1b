-- ===== src/Prelude/Counts.antt =====
-- How often a number occurs in a list, and what that says of lengths.
use Prim.Native.Nat.{ℕ, suc, ◌+◌, ◌≤◌, ◌<◌}
use mathlib.Core.Path.{◌≡◌, ap, ◌∙◌, subst}
use mathlib.Core.Logic.{inl, inr}
use mathlib.Core.List.{List, [], ◌∷◌, ◌++◌}
use native.Mathlib.Omega.{arith}
use temnion.Prelude.Tests.{◌==◌, if◌then◌else◌, Bool-cases, ==_iff, ==-self, cond_true, cond_false}
use temnion.Prelude.Lists.{length}

abbrev pub count : ℕ → List ℕ → ℕ
count x [] = 0
count x (y ∷ ys) = let rest = count x ys in if x == y then suc rest else rest

pub count-cons_self : (x : ℕ) (xs : List ℕ) → count x (x ∷ xs) ≡ suc (count x xs)
count-cons_self x xs = cond_true _ _ (==-self x)

pub count-append : (x : ℕ) (xs ys : List ℕ) → count x (xs ++ ys) ≡ count x xs + count x ys
count-append x [] ys = omega arith
count-append x (y ∷ xs) ys = ground (arith, count-append x xs ys)

pub count-cons : (x y : ℕ) (ys : List ℕ) → count x (y ∷ ys) ≡ count x (y ∷ []) + count x ys
count-cons x y ys = ground arith

-- A list without one occurrence of a number.
abbrev without : ℕ → List ℕ → List ℕ
without x [] = []
without x (y ∷ ys) = let rest = without x ys in if x == y then ys else y ∷ rest

count-without :
    (v x : ℕ) (ys : List ℕ)
    → 0 < count x ys
    → count v (without x ys) + count v (x ∷ []) ≡ count v ys
count-without v x [] h = absurd (omega arith)
count-without v x (y ∷ ys) h = elim (Bool-cases (x == y)) [
  | inl same ↦
      let e = (==_iff x y).0 same in
      ap (λ l. count v l + count v (x ∷ [])) (cond_true _ _ same)
      ∙ omega (arith, count-cons v y ys, ap (λ x. count v (x ∷ [])) e)
  | inr other ↦
      let more : 0 < count x ys = subst (λ n. 0 < n) (cond_false _ _ other) h in
      ap (λ l. count v l + count v (x ∷ [])) (cond_false _ _ other)
      ∙ omega (arith, count-cons v y (without x ys), count-cons v y ys, count-without v x ys more)
]

length-without : (x : ℕ) (ys : List ℕ) → 0 < count x ys → suc (length (without x ys)) ≡ length ys
length-without x [] h = absurd (omega arith)
length-without x (y ∷ ys) h = elim (Bool-cases (x == y)) [
  | inl same ↦ ap (λ l. suc (length l)) (cond_true _ _ same)
  | inr other ↦
      let more : 0 < count x ys = subst (λ n. 0 < n) (cond_false _ _ other) h in
      ap (λ l. suc (length l)) (cond_false _ _ other) ∙ ap suc (length-without x ys more)
]

-- A list in which every number occurs at most as often as in another is no longer.
pub length-count : (xs ys : List ℕ) → ((v : ℕ) → count v xs ≤ count v ys) → length xs ≤ length ys
length-count [] ys h = omega arith
length-count (x ∷ xs) ys h =
    let there : 0 < count x ys = omega (arith, h x, count-cons_self x xs) in
    omega (
      arith,
      length-without x ys there,
      length-count xs (without x ys)
          (λ v. omega (arith, h v, count-cons v x xs, count-without v x ys there)),
    )
