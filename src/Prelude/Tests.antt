-- ===== src/Prelude/Tests.antt =====
-- Boolean tests on the native numbers, and the conditional.
use Prim.Native.Nat.{ℕ, ◌≤◌, ◌<◌, compare, Ordering}
use mathlib.Core.Path.{◌≡◌, refl, ap, sym, ◌∙◌}
use mathlib.Core.Logic.{◌≢◌, ◌↔◌, ◌⊎◌, inl, inr}
use mathlib.Core.Bool.{Bool, true, false, false≢true, not, ◌&&◌}
use mathlib.Core.Option.{Option, none, some, some-injective}
use native.Mathlib.Omega.{arith}

-- These compute to `compare`, which `ground` and `grind` read with no lemma listed.
abbrev pub ltb : ℕ → ℕ → Bool
ltb a b = elim (compare a b) [ Ordering.lt ↦ true | _ ↦ false ]

abbrev pub leb : ℕ → ℕ → Bool
leb a b = elim (compare a b) [ Ordering.gt ↦ false | _ ↦ true ]

infix 50 ◌==◌
abbrev pub ◌==◌ : ℕ → ℕ → Bool
a == b = elim (compare a b) [ Ordering.eq ↦ true | _ ↦ false ]

infix 1 if◌then◌else◌
abbrev pub if◌then◌else◌ {ℓ} : {A : Type ℓ} → Bool → A → A → A
if true then x else y = x
if false then x else y = y

pub ltb→lt : (a b : ℕ) → ltb a b ≡ true → a < b
ltb→lt a b h = ground arith

pub lt→ltb : (a b : ℕ) → a < b → ltb a b ≡ true
lt→ltb a b h = ground arith

pub not_lt→ltb : (a b : ℕ) → ¬ (a < b) → ltb a b ≡ false
not_lt→ltb a b h = ground arith

pub not_ltb→le : (a b : ℕ) → ltb a b ≡ false → b ≤ a
not_ltb→le a b h = ground arith

pub ==-self : (a : ℕ) → (a == a) ≡ true
==-self a = ground arith

pub le→not_ltb : (a b : ℕ) → b ≤ a → ltb a b ≡ false
le→not_ltb a b h = ground arith

pub ne→== : (a b : ℕ) → a ≢ b → (a == b) ≡ false
ne→== a b h = ground arith

pub le-ne-lt : {a b : ℕ} → a ≤ b → (a == b) ≡ false → a < b
le-ne-lt h e = ground arith

pub leb→le : (a b : ℕ) → leb a b ≡ true → a ≤ b
leb→le a b h = ground arith

pub ==_iff : (a b : ℕ) → ((a == b) ≡ true) ↔ (a ≡ b)
==_iff a b = ground arith

pub ruleset tests = (arith, ltb→lt, lt→ltb, leb→le)

-- To split on a computed value and keep the equation.
pub Bool-cases : (b : Bool) → (b ≡ true) ⊎ (b ≡ false)
Bool-cases true = inl refl
Bool-cases false = inr refl

pub Option-cases {ℓ} : {A : Type ℓ} (o : Option A) → (o ≡ none) ⊎ ((a : A) × (o ≡ some a))
Option-cases none = inl refl
Option-cases (some a) = inr (a, refl)

-- The derived equality of two options.
abbrev pub option_eq {ℓ} : {A : Type ℓ} → (A → A → Bool) → Option A → Option A → Bool
option_eq eq none none = true
option_eq eq (some a) (some b) = eq a b
option_eq eq _ _ = false

-- `Option::is_some_and`
abbrev pub is_some_and {ℓ} : {A : Type ℓ} → Option A → (A → Bool) → Bool
is_some_and none test = false
is_some_and (some a) test = test a

pub map-if {ℓ κ} :
    {A : Type ℓ} {B : Type κ} (f : A → B) (b : Bool) (x y : A)
    → f (if b then x else y) ≡ (if b then f x else f y)
map-if f true x y = refl
map-if f false x y = refl

some? {ℓ} : {A : Type ℓ} → Option A → Bool
some? none = false
some? (some a) = true

pub some≢none {ℓ} : {A : Type ℓ} {a : A} → some a ≢ none
unfolding some?
some≢none e = false≢true (sym (ap some? e))

not-not : (b : Bool) → not (not b) ≡ b
not-not true = refl
not-not false = refl

not-true : {b : Bool} → not b ≡ true → b ≡ false
not-true h = ground arith

-- `is_some_and`, and its use to skip the values that fail a test.
module _ {ℓ} {A : Type ℓ} where
  pub is_some_and_iff :
      (o : Option A) (test : A → Bool)
      → (is_some_and o test ≡ true) ↔ ((a : A) × (o ≡ some a) × (test a ≡ true))
  is_some_and_iff none test = (λ h. absurd (false≢true h), λ (a, e, h). absurd (some≢none (sym e)))
  is_some_and_iff (some a) test = (λ h. (a, refl, h), λ (b, e, h). rw (some-injective a b e) h)

  pub unless_iff :
      (o : Option A) (test : A → Bool)
      → (not (is_some_and o (λ a. not (test a))) ≡ true) ↔ ((a : A) → o ≡ some a → test a ≡ true)
  unless_iff none test = (λ h a e. absurd (some≢none (sym e)), λ h. refl)
  unless_iff (some a) test = (
    λ h b e. rw (← some-injective a b e) (sym (not-not (test a)) ∙ h),
    λ h. not-not (test a) ∙ h a refl,
  )

  pub none_such_iff :
      (o : Option A) (test : A → Bool)
      → (not (is_some_and o test) ≡ true) ↔ ((a : A) → o ≡ some a → test a ≡ false)
  none_such_iff none test = (λ h a e. absurd (some≢none (sym e)), λ h. refl)
  none_such_iff (some a) test =
      (λ h b e. rw (← some-injective a b e) (not-true h), λ h. ap not (h a refl))

pub &&_iff : (a b : Bool) → ((a && b) ≡ true) ↔ ((a ≡ true) × (b ≡ true))
&&_iff a b = ground arith

module _ {ℓ} {A : Type ℓ} (x y : A) where
  pub cond_true : {b : Bool} → b ≡ true → (if b then x else y) ≡ x
  cond_true e = ap (λ b. if b then x else y) e

  pub cond_false : {b : Bool} → b ≡ false → (if b then x else y) ≡ y
  cond_false e = ap (λ b. if b then x else y) e
