-- ===== src/Prelude/MapLaws.antt =====
-- Maps with numbers as keys: a map has its keys in increasing order, a lookup finds the entry of a
-- key, and a write changes that one only.
use Prim.Native.Nat.{ℕ, ◌<◌, ◌≤◌}
use mathlib.Core.Path.{◌≡◌, refl, ap, sym, ◌∙◌, subst}
use mathlib.Core.Logic.{◌≢◌, inl, inr}
use mathlib.Core.List.{[], ◌∷◌, Memᴰ}
use mathlib.Core.List.Memᴰ
use mathlib.Core.Option.{none, some, some-injective}
use native.Mathlib.Omega.{arith}
use temnion.Prelude.Tests.{
  ltb, ◌==◌, if◌then◌else◌, Bool-cases, ==_iff, ==-self, ne→==, some≢none, cond_true, cond_false,
}
use temnion.Prelude.Quantifiers.{Each}
use temnion.Prelude.Maps.{Map, map_values, map_get, map_insert, map_update}

module _ {ℓ} {V : Type ℓ} where
  -- Every key lies above `k`.
  abbrev pub Above : ℕ → Map V → Type 0
  Above k m = Each (λ e. k < e.0) m

  abbrev pub IsMap : Map V → Type 0
  IsMap [] = Unit
  IsMap ((k, v) ∷ m) = Above k m × IsMap m

  pub map_get-cons_self : (k : ℕ) (v : V) (m : Map V) → map_get k ((k, v) ∷ m) ≡ some v
  unfolding map_get
  map_get-cons_self k v m = cond_true _ _ (==-self k)

  pub map_get-cons_ne : (k j : ℕ) (v : V) (m : Map V) → k ≢ j → map_get k ((j, v) ∷ m) ≡ map_get k m
  unfolding map_get
  map_get-cons_ne k j v m ne = cond_false _ _ (ne→== k j ne)

  -- Entries behind the same first one.
  pub map_get-cons :
      (j i : ℕ) (w : V) (m m' : Map V)
      → map_get j m ≡ map_get j m'
      → map_get j ((i, w) ∷ m) ≡ map_get j ((i, w) ∷ m')
  unfolding map_get
  map_get-cons j i w m m' e = ap (λ o. if j == i then some w else o) e

  pub map_get-Above : (k j : ℕ) (m : Map V) → Above j m → k ≤ j → map_get k m ≡ none
  unfolding map_get
  map_get-Above k j [] h le = refl
  map_get-Above k j ((i, v) ∷ m) (above, h) le =
      map_get-cons_ne k i v m (λ e. absurd (omega arith)) ∙ map_get-Above k j m h le

  pub map_get-Memᴰ : (k : ℕ) (m : Map V) {v : V} → map_get k m ≡ some v → Memᴰ (k, v) m
  unfolding map_get
  map_get-Memᴰ k [] e = absurd (some≢none (sym e))
  map_get-Memᴰ k ((j, w) ∷ m) {v} e = elim (Bool-cases (k == j)) [
    | inl same ↦
        let value : w ≡ v = some-injective w v (sym (cond_true _ _ same) ∙ e) in
        Memᴰ.head (λ i. ((==_iff k j).0 same i, sym value i))
    | inr other ↦ Memᴰ.tail (map_get-Memᴰ k m (sym (cond_false _ _ other) ∙ e))
  ]

  pub Memᴰ-Above : (k j : ℕ) (m : Map V) {v : V} → Above j m → Memᴰ (k, v) m → j < k
  Memᴰ-Above k j [] h mem = absurd (Memᴰ.not-nil mem)
  Memᴰ-Above k j ((i, w) ∷ m) (above, h) mem = elim (Memᴰ.cases_cons mem) [
    | inl e ↦ omega (arith, above, ap (λ p. p.0) e)
    | inr later ↦ Memᴰ-Above k j m h later
  ]

  pub Memᴰ-map_get : (k : ℕ) (m : Map V) {v : V} → IsMap m → Memᴰ (k, v) m → map_get k m ≡ some v
  Memᴰ-map_get k [] h mem = absurd (Memᴰ.not-nil mem)
  Memᴰ-map_get k ((j, w) ∷ m) (above, h) mem = elim (Memᴰ.cases_cons mem) [
    | inl e ↦
        ap (λ k. map_get k ((j, w) ∷ m)) (ap (λ p. p.0) e)
        ∙ map_get-cons_self j w m
        ∙ ap (λ p. some p.1) (sym e)
    | inr later ↦
        let less = Memᴰ-Above k j m above later in
        map_get-cons_ne k j w m (λ e. absurd (omega arith)) ∙ Memᴰ-map_get k m h later
  ]

  Above-map_insert : (j k : ℕ) (v : V) (m : Map V) → j < k → Above j m → Above j (map_insert k v m)
  unfolding map_insert
  Above-map_insert j k v [] less h = (less, tt)
  Above-map_insert j k v ((i, w) ∷ m) less (above, h) = elim (Bool-cases (k == i)) [
    | inl same ↦ subst (Above j) (sym (cond_true _ _ same)) (less, h)
    | inr other ↦ elim (Bool-cases (ltb k i)) [
      | inl before ↦
          subst (Above j) (sym (cond_false _ _ other ∙ cond_true _ _ before)) (less, (above, h))
      | inr after ↦
          subst (Above j) (sym (cond_false _ _ other ∙ cond_false _ _ after))
            (above, Above-map_insert j k v m less h)
    ]
  ]

  Above-trans : (j k : ℕ) (m : Map V) → j < k → Above k m → Above j m
  Above-trans j k [] less h = tt
  Above-trans j k ((i, v) ∷ m) less (above, h) = (omega arith, Above-trans j k m less h)

  pub map_insert-IsMap : (k : ℕ) (v : V) (m : Map V) → IsMap m → IsMap (map_insert k v m)
  unfolding map_insert
  map_insert-IsMap k v [] h = (tt, tt)
  map_insert-IsMap k v ((i, w) ∷ m) (above, h) = elim (Bool-cases (k == i)) [
    | inl same ↦
        subst IsMap (sym (cond_true _ _ same))
          (subst (λ k. Above k m) (sym ((==_iff k i).0 same)) above, h)
    | inr other ↦ elim (Bool-cases (ltb k i)) [
      | inl before ↦
          let less : k < i = ground (arith, before) in
          subst IsMap (sym (cond_false _ _ other ∙ cond_true _ _ before))
            ((less, Above-trans k i m less above), (above, h))
      | inr after ↦
          let less : i < k = ground (arith, other, after) in
          subst IsMap (sym (cond_false _ _ other ∙ cond_false _ _ after))
            (Above-map_insert i k v m less above, map_insert-IsMap k v m h)
    ]
  ]

  pub map_get-map_insert_self : (k : ℕ) (v : V) (m : Map V) → map_get k (map_insert k v m) ≡ some v
  unfolding map_insert
  map_get-map_insert_self k v [] = map_get-cons_self k v []
  map_get-map_insert_self k v ((i, w) ∷ m) = elim (Bool-cases (k == i)) [
    | inl same ↦ ap (map_get k) (cond_true _ _ same) ∙ map_get-cons_self k v m
    | inr other ↦ elim (Bool-cases (ltb k i)) [
      | inl before ↦
          ap (map_get k) (cond_false _ _ other ∙ cond_true _ _ before)
          ∙ map_get-cons_self k v ((i, w) ∷ m)
      | inr after ↦
          ap (map_get k) (cond_false _ _ other ∙ cond_false _ _ after)
          ∙ map_get-cons_ne k i w (map_insert k v m) (λ e. ground (arith, other, e))
          ∙ map_get-map_insert_self k v m
    ]
  ]

  pub map_get-map_insert_ne :
      (j k : ℕ) (v : V) (m : Map V) → j ≢ k → map_get j (map_insert k v m) ≡ map_get j m
  unfolding map_insert
  map_get-map_insert_ne j k v [] ne = map_get-cons_ne j k v [] ne
  map_get-map_insert_ne j k v ((i, w) ∷ m) ne = elim (Bool-cases (k == i)) [
    | inl same ↦
        let at_i : j ≢ i = λ e. ne (e ∙ sym ((==_iff k i).0 same)) in
        ap (map_get j) (cond_true _ _ same)
        ∙ map_get-cons_ne j k v m ne
        ∙ sym (map_get-cons_ne j i w m at_i)
    | inr other ↦ elim (Bool-cases (ltb k i)) [
      | inl before ↦
          ap (map_get j) (cond_false _ _ other ∙ cond_true _ _ before)
          ∙ map_get-cons_ne j k v ((i, w) ∷ m) ne
      | inr after ↦
          ap (map_get j) (cond_false _ _ other ∙ cond_false _ _ after)
          ∙ map_get-cons j i w (map_insert k v m) m (map_get-map_insert_ne j k v m ne)
    ]
  ]

  Above-map_update : (j k : ℕ) (f : V → V) (m : Map V) → Above j m → Above j (map_update k f m)
  unfolding map_update
  Above-map_update j k f [] h = h
  Above-map_update j k f ((i, w) ∷ m) (above, h) = elim (Bool-cases (k == i)) [
    | inl same ↦ subst (Above j) (sym (cond_true _ _ same)) (above, h)
    | inr other ↦ subst (Above j) (sym (cond_false _ _ other)) (above, Above-map_update j k f m h)
  ]

  pub map_update-IsMap : (k : ℕ) (f : V → V) (m : Map V) → IsMap m → IsMap (map_update k f m)
  unfolding map_update
  map_update-IsMap k f [] h = h
  map_update-IsMap k f ((i, w) ∷ m) (above, h) = elim (Bool-cases (k == i)) [
    | inl same ↦ subst IsMap (sym (cond_true _ _ same)) (above, h)
    | inr other ↦
        subst IsMap (sym (cond_false _ _ other))
          (Above-map_update i k f m above, map_update-IsMap k f m h)
  ]

  pub map_get-map_update_ne :
      (j k : ℕ) (f : V → V) (m : Map V) → j ≢ k → map_get j (map_update k f m) ≡ map_get j m
  unfolding map_update
  map_get-map_update_ne j k f [] ne = refl
  map_get-map_update_ne j k f ((i, w) ∷ m) ne = elim (Bool-cases (k == i)) [
    | inl same ↦
        let at_i : j ≢ i = λ e. ne (e ∙ sym ((==_iff k i).0 same)) in
        ap (map_get j) (cond_true _ _ same)
        ∙ map_get-cons_ne j i (f w) m at_i
        ∙ sym (map_get-cons_ne j i w m at_i)
    | inr other ↦
        ap (map_get j) (cond_false _ _ other)
        ∙ map_get-cons j i w (map_update k f m) m (map_get-map_update_ne j k f m ne)
  ]

  pub map_get-map_update_self :
      (k : ℕ) (f : V → V) (m : Map V) {v : V}
      → map_get k m ≡ some v
      → map_get k (map_update k f m) ≡ some (f v)
  unfolding map_get map_update
  map_get-map_update_self k f [] e = absurd (some≢none (sym e))
  map_get-map_update_self k f ((i, w) ∷ m) e = elim (Bool-cases (k == i)) [
    | inl same ↦
        ap (map_get k) (cond_true _ _ same)
        ∙ cond_true _ _ same
        ∙ ap (λ v. some (f v)) (some-injective w _ (sym (cond_true _ _ same) ∙ e))
    | inr other ↦
        ap (map_get k) (cond_false _ _ other)
        ∙ cond_false _ _ other
        ∙ map_get-map_update_self k f m (sym (cond_false _ _ other) ∙ e)
  ]

  Memᴰ-map_values : (m : Map V) {v : V} → Memᴰ v (map_values m) → (k : ℕ) × Memᴰ (k, v) m
  Memᴰ-map_values [] mem = absurd (Memᴰ.not-nil mem)
  Memᴰ-map_values ((k, w) ∷ m) mem = elim (Memᴰ.cases_cons mem) [
    | inl e ↦ (k, Memᴰ.head (λ i. (k, e i)))
    | inr later ↦ let (j, found) = Memᴰ-map_values m later in (j, Memᴰ.tail found)
  ]

  -- A value of a map stands under one of its keys, and what a key finds is a value.
  pub map_values-map_get :
      (m : Map V) {v : V} → IsMap m → Memᴰ v (map_values m) → (k : ℕ) × (map_get k m ≡ some v)
  map_values-map_get m h mem =
      let (k, found) = Memᴰ-map_values m mem in (k, Memᴰ-map_get k m h found)

  Memᴰ-values : (k : ℕ) (m : Map V) {v : V} → Memᴰ (k, v) m → Memᴰ v (map_values m)
  Memᴰ-values k [] mem = absurd (Memᴰ.not-nil mem)
  Memᴰ-values k ((j, w) ∷ m) mem = elim (Memᴰ.cases_cons mem) [
    | inl e ↦ Memᴰ.head (ap (λ p. p.1) e)
    | inr later ↦ Memᴰ.tail (Memᴰ-values k m later)
  ]

  pub map_get-map_values :
      (k : ℕ) (m : Map V) {v : V} → map_get k m ≡ some v → Memᴰ v (map_values m)
  map_get-map_values k m e = Memᴰ-values k m (map_get-Memᴰ k m e)
