-- ===== src/Prelude/Slices.antt =====
-- Slices that panic out of range, and the parts of a buffer that was put together from pieces of
-- known lengths.
use Prim.Native.Nat.{ℕ, zero, suc, ◌+◌, ◌-◌, ◌≤◌}
use mathlib.Core.Path.{◌≡◌, refl, sym, ap, ◌∙◌}
use mathlib.Core.Logic.{◌≢◌}
use mathlib.Core.Bool.{◌&&◌, true}
use mathlib.Core.List.{List, [], ◌∷◌, ◌++◌}
use native.Mathlib.Omega.{arith}
use temnion.Prelude.Lists.{length, take, drop, drop-add}
use temnion.Prelude.Tests.{if◌then◌else◌, leb, cond_true}
use temnion.Prelude.Effects.{Outcome, ok, panic, and_then, ok≢panic}

-- `&xs[from..to]`
abbrev pub sub_slice {ℓ κ} : {E : Type κ} {A : Type ℓ} → ℕ → ℕ → List A → Outcome E (List A)
sub_slice from to xs =
    if leb from to && leb to (length xs) then ok (take (to - from) (drop from xs)) else panic

-- `&xs[from..]`
abbrev pub slice_from {ℓ κ} : {E : Type κ} {A : Type ℓ} → ℕ → List A → Outcome E (List A)
slice_from from xs = if leb from (length xs) then ok (drop from xs) else panic

module _ {ℓ κ} {E : Type κ} {A : Type ℓ} where
  pub sub_slice-ok :
      (from to : ℕ) (xs : List A)
      → from ≤ to
      → to ≤ length xs
      → sub_slice {E = E} from to xs ≡ ok (take (to - from) (drop from xs))
  sub_slice-ok from to xs h k =
      let inside : (leb from to && leb to (length xs)) ≡ true = ground (arith, h, k) in
      cond_true _ _ inside

  pub slice_from-ok :
      (from : ℕ) (xs : List A) → from ≤ length xs → slice_from {E = E} from xs ≡ ok (drop from xs)
  slice_from-ok from xs h =
      let inside : leb from (length xs) ≡ true = ground (arith, h) in cond_true _ _ inside

  pub and_then-sub_slice {μ} :
      {B : Type μ} (from to : ℕ) (xs : List A) (f : List A → Outcome E B)
      → from ≤ to
      → to ≤ length xs
      → and_then (sub_slice from to xs) f ≡ f (take (to - from) (drop from xs))
  and_then-sub_slice from to xs f h k = ap (λ r. and_then r f) (sub_slice-ok from to xs h k)

  pub and_then-slice_from {μ} :
      {B : Type μ} (from : ℕ) (xs : List A) (f : List A → Outcome E B)
      → from ≤ length xs
      → and_then (slice_from from xs) f ≡ f (drop from xs)
  and_then-slice_from from xs f h = ap (λ r. and_then r f) (slice_from-ok from xs h)

  pub slice_from-no_panic :
      (from : ℕ) (xs : List A) → from ≤ length xs → slice_from {E = E} from xs ≢ panic
  slice_from-no_panic from xs h e = ok≢panic (sym (slice_from-ok from xs h) ∙ e)

  pub sub_slice-no_panic :
      (from to : ℕ) (xs : List A)
      → from ≤ to
      → to ≤ length xs
      → sub_slice {E = E} from to xs ≢ panic
  sub_slice-no_panic from to xs h k e = ok≢panic (sym (sub_slice-ok from to xs h k) ∙ e)

module _ {ℓ} {A : Type ℓ} where
  pub drop_exact : (n : ℕ) (xs ys : List A) → length xs ≡ n → drop n (xs ++ ys) ≡ ys
  drop_exact zero [] ys h = refl
  drop_exact zero (x ∷ xs) ys h = absurd (omega (arith, h))
  drop_exact (suc n) [] ys h = absurd (omega (arith, h))
  drop_exact (suc n) (x ∷ xs) ys h = drop_exact n xs ys (omega (arith, h))

  pub take_exact : (n : ℕ) (xs ys : List A) → length xs ≡ n → take n (xs ++ ys) ≡ xs
  take_exact zero [] ys h = refl
  take_exact zero (x ∷ xs) ys h = absurd (omega (arith, h))
  take_exact (suc n) [] ys h = absurd (omega (arith, h))
  take_exact (suc n) (x ∷ xs) ys h = ap (◌∷◌ x) (take_exact n xs ys (omega (arith, h)))

  pub drop_past : (n k : ℕ) (xs ys : List A) → length xs ≡ n → drop (n + k) (xs ++ ys) ≡ drop k ys
  drop_past n k xs ys h = drop-add n k (xs ++ ys) ∙ ap (drop k) (drop_exact n xs ys h)
