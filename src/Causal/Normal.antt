-- ===== src/Causal/Normal.antt =====
-- The sorted causes of crates/temnion-causal/src/lib.rs have the members of the given ones.
use temnion.Prelude.{
  ◌≡◌, ◌↔◌, inl, inr, sym, subst, true, List, [], ◌∷◌, Bool-cases, cond_true, cond_false,
}
use temnion.Core.{EventId, event_eq, event_lt}
use temnion.Core.Laws.{event_eq_iff}
use temnion.Causal.{member, insert_sorted, sort, dedup, dedup_after}
use temnion.Causal.Members.{member-cons, member-later, member_cases}

-- Two lists with the same members.
abbrev pub SameMembers : List EventId → List EventId → Type 0
SameMembers xs ys = (x : EventId) → (member x xs ≡ true) ↔ (member x ys ≡ true)

cons_same : (y : EventId) (xs ys : List EventId) → SameMembers xs ys → SameMembers (y ∷ xs) (y ∷ ys)
cons_same y xs ys same x = (
  λ h. elim (member_cases x y xs h) [
    | inl e ↦ subst (λ z. member x (z ∷ ys) ≡ true) e (member-cons x ys)
    | inr k ↦ member-later x y ys ((same x).0 k)
  ],
  λ h. elim (member_cases x y ys h) [
    | inl e ↦ subst (λ z. member x (z ∷ xs) ≡ true) e (member-cons x xs)
    | inr k ↦ member-later x y xs ((same x).1 k)
  ],
)

swap_same : (y z : EventId) (xs : List EventId) → SameMembers (y ∷ z ∷ xs) (z ∷ y ∷ xs)
swap_same y z xs x = (swap y z, swap z y)
  where
    swap : (y z : EventId) → member x (y ∷ z ∷ xs) ≡ true → member x (z ∷ y ∷ xs) ≡ true
    swap y z h = elim (member_cases x y (z ∷ xs) h) [
      | inl e ↦
          member-later x z (y ∷ xs) (subst (λ w. member x (w ∷ xs) ≡ true) e (member-cons x xs))
      | inr k ↦ elim (member_cases x z xs k) [
        | inl e ↦ subst (λ w. member x (w ∷ y ∷ xs) ≡ true) e (member-cons x (y ∷ xs))
        | inr l ↦ member-later x z (y ∷ xs) (member-later x y xs l)
      ]
    ]

trans_same : (xs ys zs : List EventId) → SameMembers xs ys → SameMembers ys zs → SameMembers xs zs
trans_same xs ys zs a b x = (λ h. (b x).0 ((a x).0 h), λ h. (a x).1 ((b x).1 h))

insert_sorted-SameMembers :
    (y : EventId) (xs : List EventId) → SameMembers (insert_sorted y xs) (y ∷ xs)
unfolding insert_sorted
insert_sorted-SameMembers y [] = λ x. (λ h. h, λ h. h)
insert_sorted-SameMembers y (z ∷ xs) = elim (Bool-cases (event_lt z y)) [
  | inl less ↦
      subst (λ l. SameMembers l (y ∷ z ∷ xs)) (sym (cond_true _ _ less))
        (trans_same (z ∷ insert_sorted y xs) (z ∷ y ∷ xs) (y ∷ z ∷ xs)
          (cons_same z _ _ (insert_sorted-SameMembers y xs)) (swap_same z y xs))
  | inr other ↦
      subst (λ l. SameMembers l (y ∷ z ∷ xs)) (sym (cond_false _ _ other)) (λ x. (λ h. h, λ h. h))
]

sort-SameMembers : (xs : List EventId) → SameMembers (sort xs) xs
unfolding sort
sort-SameMembers [] = λ x. (λ h. h, λ h. h)
sort-SameMembers (y ∷ xs) =
    trans_same _ (y ∷ sort xs) (y ∷ xs) (insert_sorted-SameMembers y (sort xs))
      (cons_same y _ _ (sort-SameMembers xs))

absorb_same : (y z : EventId) (xs : List EventId) → y ≡ z → SameMembers (y ∷ xs) (y ∷ z ∷ xs)
absorb_same y z xs e x = (
  λ h. elim (member_cases x y xs h) [
    | inl same ↦ subst (λ w. member x (w ∷ z ∷ xs) ≡ true) same (member-cons x (z ∷ xs))
    | inr k ↦ member-later x y (z ∷ xs) (member-later x z xs k)
  ],
  λ h. elim (member_cases x y (z ∷ xs) h) [
    | inl same ↦ subst (λ w. member x (w ∷ xs) ≡ true) same (member-cons x xs)
    | inr k ↦ subst (λ w. member x (w ∷ xs) ≡ true) (sym e) k
  ],
)

dedup_after-SameMembers :
    (y : EventId) (xs : List EventId) → SameMembers (y ∷ dedup_after y xs) (y ∷ xs)
unfolding dedup_after
dedup_after-SameMembers y [] = λ x. (λ h. h, λ h. h)
dedup_after-SameMembers y (z ∷ xs) = elim (Bool-cases (event_eq y z)) [
  | inl same ↦
      let e = (event_eq_iff y z).0 same in
      subst (λ l. SameMembers (y ∷ l) (y ∷ z ∷ xs)) (sym (cond_true _ _ same))
        (trans_same (y ∷ dedup_after z xs) (y ∷ z ∷ dedup_after z xs) (y ∷ z ∷ xs)
          (absorb_same y z (dedup_after z xs) e) (cons_same y _ _ (dedup_after-SameMembers z xs)))
  | inr other ↦
      subst (λ l. SameMembers (y ∷ l) (y ∷ z ∷ xs)) (sym (cond_false _ _ other))
        (cons_same y _ _ (dedup_after-SameMembers z xs))
]

dedup-SameMembers : (xs : List EventId) → SameMembers (dedup xs) xs
unfolding dedup
dedup-SameMembers [] = λ x. (λ h. h, λ h. h)
dedup-SameMembers (y ∷ xs) = dedup_after-SameMembers y xs

pub normal_same : (xs : List EventId) → SameMembers (dedup (sort xs)) xs
normal_same xs = trans_same _ (sort xs) xs (dedup-SameMembers (sort xs)) (sort-SameMembers xs)
