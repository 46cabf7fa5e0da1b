-- ===== src/Runtime/Dag/Keys.antt =====
-- The keys of the task map of crates/temnion-runtime/src/lib.rs, each of which occurs once.
use temnion.Prelude.{
  ℕ, suc, ◌≡◌, ◌≤◌, refl, ap, sym, ◌∙◌, [], ◌∷◌, map, none, some, some≢none, Bool-cases, inl, inr,
  cond_true, cond_false, ◌==◌, ==_iff, length, count, Map, map_get, IsMap, Above, arith,
}
use temnion.Runtime.Dag.{TaskNode}

-- The keys of the tasks, which bound the visited ones.
pub count-keys_some :
    (m : Map TaskNode) (v : ℕ) {n : TaskNode}
    → map_get v m ≡ some n
    → 1 ≤ count v (map (λ e. e.0) m)
unfolding map_get
count-keys_some [] v e = absurd (some≢none (sym e))
count-keys_some ((k, w) ∷ m) v e = elim (Bool-cases (v == k)) [
  | inl here ↦ ground (arith, here)
  | inr other ↦
      let rest = count-keys_some m v (sym (cond_false _ _ other) ∙ e) in ground (arith, other, rest)
]

pub length-keys : (m : Map TaskNode) → length (map (λ e. e.0) m) ≡ length m
length-keys [] = refl
length-keys (e ∷ m) = ap suc (length-keys m)

-- A key occurs once.
pub count-keys_le : (m : Map TaskNode) (v : ℕ) → IsMap m → count v (map (λ e. e.0) m) ≤ 1
count-keys_le [] v h = omega arith
count-keys_le ((k, w) ∷ m) v (above, h) = elim (Bool-cases (v == k)) [
  | inl here ↦
      let at = (==_iff v k).0 here in
      let rest = above_none m k above in
      let none' : count v (map (λ e. e.0) m) ≡ 0 = ap (λ v. count v (map (λ e. e.0) m)) at ∙ rest in
      ground (arith, here, none')
  | inr other ↦ let rest = count-keys_le m v h in ground (arith, other, rest)
]
  where
    above_none : (m : Map TaskNode) (j : ℕ) → Above j m → count j (map (λ e. e.0) m) ≡ 0
    above_none [] j above = refl
    above_none ((i, w) ∷ m) j (less, above) =
        let rest = above_none m j above in ground (arith, less, rest)

pub count-keys_none :
    (m : Map TaskNode) (v : ℕ) → map_get v m ≡ none → count v (map (λ e. e.0) m) ≡ 0
unfolding map_get
count-keys_none [] v e = refl
count-keys_none ((k, w) ∷ m) v e = elim (Bool-cases (v == k)) [
  | inl here ↦ absurd (some≢none (sym (cond_true _ _ here) ∙ e))
  | inr other ↦
      let rest = count-keys_none m v (sym (cond_false _ _ other) ∙ e) in ground (arith, other, rest)
]
