-- ===== src/Causal/Members.antt =====
-- Membership in the sets and queues of crates/temnion-causal/src/lib.rs, and the number of events
-- that a search has not visited.
use temnion.Prelude.{
  ℕ, suc, ◌≤◌, ◌<◌, ◌≡◌, ◌≢◌, ◌⊎◌, inl, inr, refl, ap, sym, subst, ◌∙◌, Bool, true, false, ◌||◌,
  false≢true, some, List, [], ◌∷◌, ◌++◌, length, arith, Bool-cases, if◌then◌else◌, cond_true,
  cond_false,
}
use temnion.Core.{EventId, event_eq}
use temnion.Core.Laws.{event_eq_iff}
use temnion.Causal.{member, Map, lookup, listed, unwrap_or}

or_inv : (a b : Bool) → (a || b) ≡ true → (a ≡ true) ⊎ (b ≡ true)
or_inv true b h = inl refl
or_inv false b h = inr h

or-right : (a b : Bool) → b ≡ true → (a || b) ≡ true
or-right true b h = refl
or-right false b h = h

pub member-cons : (x : EventId) (xs : List EventId) → member x (x ∷ xs) ≡ true
unfolding member
member-cons x xs = ap (λ b. b || member x xs) ((event_eq_iff x x).1 refl)

pub member-later :
    (x y : EventId) (ys : List EventId) → member x ys ≡ true → member x (y ∷ ys) ≡ true
unfolding member
member-later x y ys h = or-right (event_eq x y) (member x ys) h

pub member_cases :
    (x y : EventId) (ys : List EventId) → member x (y ∷ ys) ≡ true → (x ≡ y) ⊎ (member x ys ≡ true)
unfolding member
member_cases x y ys h = elim (or_inv (event_eq x y) (member x ys) h) [
  | inl same ↦ inl ((event_eq_iff x y).0 same)
  | inr later ↦ inr later
]

pub member-nil : (x : EventId) → member x [] ≢ true
unfolding member
member-nil x h = false≢true h

pub member-append_left :
    (x : EventId) (xs ys : List EventId) → member x xs ≡ true → member x (xs ++ ys) ≡ true
member-append_left x [] ys h = absurd (member-nil x h)
member-append_left x (z ∷ xs) ys h = elim (member_cases x z xs h) [
  | inl same ↦ subst (λ z. member x (z ∷ (xs ++ ys)) ≡ true) same (member-cons x (xs ++ ys))
  | inr later ↦ member-later x z (xs ++ ys) (member-append_left x xs ys later)
]

pub member-append_right :
    (x : EventId) (xs ys : List EventId) → member x ys ≡ true → member x (xs ++ ys) ≡ true
member-append_right x [] ys h = h
member-append_right x (z ∷ xs) ys h = member-later x z (xs ++ ys) (member-append_right x xs ys h)

pub member-append_inv :
    (x : EventId) (xs ys : List EventId)
    → member x (xs ++ ys) ≡ true
    → (member x xs ≡ true) ⊎ (member x ys ≡ true)
member-append_inv x [] ys h = inr h
member-append_inv x (z ∷ xs) ys h = elim (member_cases x z (xs ++ ys) h) [
  | inl same ↦ inl (subst (λ z. member x (z ∷ xs) ≡ true) same (member-cons x xs))
  | inr later ↦ elim (member-append_inv x xs ys later) [
    | inl left ↦ inl (member-later x z xs left)
    | inr right ↦ inr right
  ]
]

-- A cause of any event is listed.
pub member-listed :
    (m : Map (List EventId)) (x c : EventId)
    → member c (unwrap_or (lookup x m) []) ≡ true
    → member c (listed m) ≡ true
unfolding lookup listed
member-listed [] x c h = absurd (member-nil c h)
member-listed ((key, causes) ∷ m) x c h = elim (Bool-cases (event_eq x key)) [
  | inl here ↦
      member-append_left c causes (listed m)
        (sym (ap (λ o. member c (unwrap_or o [])) (cond_true (some causes) (lookup x m) here)) ∙ h)
  | inr below ↦ member-append_right c causes (listed m) (
      member-listed m x c (
        sym (ap (λ o. member c (unwrap_or o [])) (cond_false (some causes) (lookup x m) below))
        ∙ h))
]

-- How many entries of a list are not visited.
unfoldable pub unseen : List EventId → List EventId → ℕ
unseen visited [] = 0
unseen visited (x ∷ xs) =
    let rest = unseen visited xs in if member x visited then rest else suc rest

pub unseen-bound : (visited xs : List EventId) → unseen visited xs ≤ length xs
unfolding unseen
unseen-bound visited [] = omega arith
unseen-bound visited (x ∷ xs) = elim (Bool-cases (member x visited)) [
  | inl seen ↦ rw seen (omega (arith, unseen-bound visited xs))
  | inr new ↦ rw new (omega (arith, unseen-bound visited xs))
]

unseen-visit_le :
    (c : EventId) (visited xs : List EventId) → unseen (c ∷ visited) xs ≤ unseen visited xs
unfolding unseen
unseen-visit_le c visited [] = omega arith
unseen-visit_le c visited (x ∷ xs) = elim (Bool-cases (member x visited)) [
  | inl seen ↦ rw (seen, member-later x c visited seen) (unseen-visit_le c visited xs)
  | inr new ↦ elim (Bool-cases (member x (c ∷ visited))) [
    | inl seen ↦ rw (new, seen) (omega (arith, unseen-visit_le c visited xs))
    | inr still ↦ rw (new, still) (omega (arith, unseen-visit_le c visited xs))
  ]
]

-- A visit of a listed event that was not visited lowers the number.
pub unseen-visit :
    (c : EventId) (visited xs : List EventId)
    → member c xs ≡ true
    → member c visited ≡ false
    → unseen (c ∷ visited) xs < unseen visited xs
unfolding unseen
unseen-visit c visited [] h new = absurd (member-nil c h)
unseen-visit c visited (x ∷ xs) h new = elim (member_cases c x xs h) [
  | inl same ↦
      subst (λ x. unseen (c ∷ visited) (x ∷ xs) < unseen visited (x ∷ xs)) same
        (rw (new, member-cons c visited) (omega (arith, unseen-visit_le c visited xs)))
  | inr later ↦ elim (Bool-cases (member x visited)) [
    | inl seen ↦ rw (seen, member-later x c visited seen) (unseen-visit c visited xs later new)
    | inr fresh ↦ elim (Bool-cases (member x (c ∷ visited))) [
      | inl seen ↦ rw (fresh, seen) (omega (arith, unseen-visit_le c visited xs))
      | inr still ↦ rw (fresh, still) (omega (arith, unseen-visit c visited xs later new))
    ]
  ]
]
