-- ===== src/Prelude/Quantifiers.antt =====
-- A predicate that each entry of a list satisfies.
use mathlib.Core.List.{List, [], ◌∷◌, ◌++◌}

abbrev pub Each {ℓ κ} : {A : Type ℓ} → (A → Type κ) → List A → Type κ
Each P [] = Unit
Each P (x ∷ xs) = P x × Each P xs

pub Each-append {ℓ κ} :
    {A : Type ℓ} (P : A → Type κ) (xs ys : List A) → Each P xs → Each P ys → Each P (xs ++ ys)
Each-append P [] ys h k = k
Each-append P (x ∷ xs) ys (p, h) k = (p, Each-append P xs ys h k)
