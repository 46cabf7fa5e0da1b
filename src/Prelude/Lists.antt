-- ===== src/Prelude/Lists.antt =====
-- Vectors as lists, measured and indexed by native numbers, under the library's names.
use Prim.Native.Nat.{ℕ, zero, suc, ◌+◌, ◌-◌, ◌≤◌, ◌<◌}
use mathlib.Core.Path.{◌≡◌, refl, ap, sym}
use mathlib.Core.Logic.{◌≢◌, inl, inr}
use mathlib.Core.List.{List, [], ◌∷◌, ◌++◌}
use mathlib.Core.Option.{Option, none, some}
use native.Mathlib.Decide.{dec_lt}
use native.Mathlib.Omega.{arith}
use temnion.Prelude.Tests.{
  ltb, Bool-cases, Option-cases, lt→ltb, not_lt→ltb, ne→==, ==_iff, le-ne-lt, ==-self, ◌==◌,
  if◌then◌else◌,
}

zero-add : (k : ℕ) → 0 + k ≡ k
zero-add k = omega arith

suc-add : (n k : ℕ) → suc n + k ≡ suc (n + k)
suc-add n k = omega arith

module _ {ℓ} {A : Type ℓ} where
  abbrev pub length : List A → ℕ
  length [] = 0
  length (x ∷ xs) = suc (length xs)

  abbrev pub get_elem? : List A → ℕ → Option A
  get_elem? [] i = none
  get_elem? (x ∷ xs) zero = some x
  get_elem? (x ∷ xs) (suc i) = get_elem? xs i

  -- A write out of bounds changes nothing.
  abbrev pub set : List A → ℕ → A → List A
  set [] i v = []
  set (x ∷ xs) zero v = v ∷ xs
  set (x ∷ xs) (suc i) v = x ∷ set xs i v

  abbrev pub take : ℕ → List A → List A
  take zero xs = []
  take (suc n) [] = []
  take (suc n) (x ∷ xs) = x ∷ take n xs

  abbrev pub drop : ℕ → List A → List A
  drop zero xs = xs
  drop (suc n) [] = []
  drop (suc n) (x ∷ xs) = drop n xs

  -- `slice::first` and `slice::last`
  abbrev pub head? : List A → Option A
  head? [] = none
  head? (x ∷ xs) = some x

  abbrev pub last? : List A → Option A
  last? [] = none
  last? (x ∷ []) = some x
  last? (x ∷ y ∷ xs) = last? (y ∷ xs)

  -- `Vec::pop`: the last entry and what stands before it
  unfoldable pub pop_onto : A → List A → A × List A
  pop_onto x [] = (x, [])
  pop_onto x (y ∷ xs) = let (last, rest) = pop_onto y xs in (last, x ∷ rest)

  unfoldable pub pop : List A → Option (A × List A)
  unfolding pop_onto
  pop [] = none
  pop (x ∷ xs) = some (pop_onto x xs)

  pub length-append : (xs ys : List A) → length (xs ++ ys) ≡ length xs + length ys
  length-append [] ys = omega arith
  length-append (x ∷ xs) ys = omega (arith, length-append xs ys)

  pub length-push : (xs : List A) (x : A) → length (xs ++ x ∷ []) ≡ length xs + 1
  length-push xs x = omega (arith, length-append xs (x ∷ []))

  pub last-push : (xs : List A) (x : A) → length (xs ++ x ∷ []) - 1 ≡ length xs
  last-push xs x = omega (arith, length-push xs x)

  pub length-set : (xs : List A) (i : ℕ) (v : A) → length (set xs i v) ≡ length xs
  length-set [] i v = refl
  length-set (x ∷ xs) zero v = refl
  length-set (x ∷ xs) (suc i) v = ap suc (length-set xs i v)

  pub get_elem?-set_self :
      (xs : List A) (i : ℕ) (v : A) → i < length xs → get_elem? (set xs i v) i ≡ some v
  get_elem?-set_self [] i v h = absurd (omega arith)
  get_elem?-set_self (x ∷ xs) zero v h = refl
  get_elem?-set_self (x ∷ xs) (suc i) v h = get_elem?-set_self xs i v (omega arith)

  pub get_elem?-set_ne :
      (xs : List A) {i j : ℕ} (v : A) → i ≢ j → get_elem? (set xs i v) j ≡ get_elem? xs j
  get_elem?-set_ne [] v h = refl
  get_elem?-set_ne (x ∷ xs) {i = zero} {j = zero} v h = absurd (h refl)
  get_elem?-set_ne (x ∷ xs) {i = zero} {j = suc j} v h = refl
  get_elem?-set_ne (x ∷ xs) {i = suc i} {j = zero} v h = refl
  get_elem?-set_ne (x ∷ xs) {i = suc i} {j = suc j} v h = get_elem?-set_ne xs v (λ e. h (ap suc e))

  pub get_elem?-set :
      (xs : List A) (i : ℕ) (v : A) (j : ℕ)
      → i < length xs
      → get_elem? (set xs i v) j ≡ (if i == j then some v else get_elem? xs j)
  get_elem?-set [] i v j h = absurd (omega arith)
  get_elem?-set (x ∷ xs) zero v zero h = refl
  get_elem?-set (x ∷ xs) zero v (suc j) h = ground arith
  get_elem?-set (x ∷ xs) (suc i) v zero h = ground arith
  get_elem?-set (x ∷ xs) (suc i) v (suc j) h = ground (arith, get_elem?-set xs i v j)

  pub get_elem?-push :
      (xs : List A) (x : A) (j : ℕ)
      → get_elem? (xs ++ x ∷ []) j ≡ (if length xs == j then some x else get_elem? xs j)
  get_elem?-push [] x zero = refl
  get_elem?-push [] x (suc j) = ground arith
  get_elem?-push (y ∷ xs) x zero = ground arith
  get_elem?-push (y ∷ xs) x (suc j) = ground (arith, get_elem?-push xs x j)

  pub get_elem?-push_lt :
      (xs : List A) (x : A) (j : ℕ) → j < length xs → get_elem? (xs ++ x ∷ []) j ≡ get_elem? xs j
  get_elem?-push_lt [] x j h = absurd (omega arith)
  get_elem?-push_lt (y ∷ xs) x zero h = refl
  get_elem?-push_lt (y ∷ xs) x (suc j) h = get_elem?-push_lt xs x j (omega arith)

  pub get_elem?-push_self : (xs : List A) (x : A) → get_elem? (xs ++ x ∷ []) (length xs) ≡ some x
  get_elem?-push_self [] x = refl
  get_elem?-push_self (y ∷ xs) x = get_elem?-push_self xs x

  pub lt-length : (xs : List A) (i : ℕ) {x : A} → get_elem? xs i ≡ some x → i < length xs
  lt-length [] i e = ground arith
  lt-length (y ∷ xs) zero e = omega arith
  lt-length (y ∷ xs) (suc i) e = omega (arith, lt-length xs i e)

  pub get_elem?-total : (xs : List A) (i : ℕ) → i < length xs → (x : A) × (get_elem? xs i ≡ some x)
  get_elem?-total [] i h = absurd (omega arith)
  get_elem?-total (x ∷ xs) zero h = (x, refl)
  get_elem?-total (x ∷ xs) (suc i) h = get_elem?-total xs i (omega arith)

  pub pop_onto-append : (x : A) (xs : List A) → (pop_onto x xs).1 ++ (pop_onto x xs).0 ∷ [] ≡ x ∷ xs
  unfolding pop_onto
  pop_onto-append x [] = refl
  pop_onto-append x (y ∷ xs) = ap (◌∷◌ x) (pop_onto-append y xs)

  -- What `pop` takes off can be pushed back.
  pub pop_inv :
      (xs : List A) {x : A} {rest : List A} → pop xs ≡ some (x, rest) → xs ≡ rest ++ x ∷ []
  unfolding pop
  pop_inv [] e = ground arith
  pop_inv (y ∷ xs) e = ground (arith, pop_onto-append y xs)

  -- `Vec::swap_remove`: the entry taken out, and the vector with its last entry in that place.
  -- `none` is the panic on an index out of range.
  unfoldable pub swap_remove : List A → ℕ → Option (A × List A)
  swap_remove xs i = elim (get_elem? xs i) [
    | none ↦ none
    | some x ↦ elim (pop xs) [
      | none ↦ none
      | some (last, rest) ↦ some (x, if i == length rest then rest else set rest i last)
    ]
  ]

  pub pop_inv_none : (xs : List A) → pop xs ≡ none → xs ≡ []
  unfolding pop
  pop_inv_none [] e = refl
  pop_inv_none (x ∷ xs) e = ground arith

  pub get_elem?-ge : (xs : List A) (i : ℕ) → length xs ≤ i → get_elem? xs i ≡ none
  get_elem?-ge [] i h = refl
  get_elem?-ge (x ∷ xs) zero h = absurd (omega arith)
  get_elem?-ge (x ∷ xs) (suc i) h = get_elem?-ge xs i (omega arith)

  -- What `swap_remove` leaves, of a vector that ends in `last`.
  abbrev pub swap_rest : List A → A → ℕ → List A
  swap_rest rest last i = if i == length rest then rest else set rest i last

  length-swap_rest :
      (rest : List A) (last : A) (i : ℕ) → length (swap_rest rest last i) ≡ length rest
  length-swap_rest rest last i = ground (arith, length-set rest i last)

  get_elem?-swap_rest :
      (rest : List A) (last : A) (i j : ℕ)
      → i ≤ length rest
      → get_elem? (swap_rest rest last i) j ≡ (
          if ltb j (length rest)
          then get_elem? (rest ++ last ∷ []) (if i == j then length rest else j)
          else none)
  get_elem?-swap_rest rest last i j h = elim (dec_lt j (length rest)) [
    | yes below ↦ elim (Bool-cases (i == length rest)) [
      | inl at_end ↦ rw (
        at_end,
        lt→ltb _ _ below,
        ne→== i j (omega (arith, (==_iff i (length rest)).0 at_end)),
        get_elem?-push_lt rest last j below,
      )
      | inr inside ↦
          rw (inside, lt→ltb _ _ below, get_elem?-set rest i last j (le-ne-lt h inside))
            (elim (Bool-cases (i == j)) [
              | inl same ↦ rw (same, get_elem?-push_self)
              | inr other ↦ rw (other, get_elem?-push_lt rest last j below)
            ])
    ]
    | no above ↦
        rw (not_lt→ltb _ _ above) (get_elem?-ge _ j (omega (arith, length-swap_rest rest last i)))
  ]

  -- In range `swap_remove` succeeds: it takes out the entry there, shortens the vector by one, and
  -- the entries below the new length keep their places, but for the last one, which fills the hole.
  pub record SwapRemoved (xs : List A) (i : ℕ) (x : A) (rest : List A) : Type ℓ where
    pub runs : swap_remove xs i ≡ some (x, rest)
    pub taken : get_elem? xs i ≡ some x
    pub shorter : length rest + 1 ≡ length xs
    pub kept :
        (j : ℕ)
        → get_elem? rest j
          ≡ (if ltb j (length rest) then get_elem? xs (if i == j then length rest else j) else none)

  swap_remove_popped :
      (xs : List A) (i : ℕ) (x last : A) (rest : List A)
      → get_elem? xs i ≡ some x
      → pop xs ≡ some (last, rest)
      → xs ≡ rest ++ last ∷ []
      → SwapRemoved xs i x (swap_rest rest last i)
  unfolding swap_remove
  swap_remove_popped xs i x last rest e p q = record {
    runs = rw (e, p, swap_remove);
    taken = e;
    shorter = omega (arith, length-swap_rest rest last i, ap length q, length-push rest last);
    kept = λ j.
        rw (length-swap_rest rest last i, q)
          (get_elem?-swap_rest rest last i j
            (omega (arith, lt-length xs i e, ap length q, length-push rest last)));
  }

  pub swap_remove_lem :
      (xs : List A) (i : ℕ) {x : A}
      → get_elem? xs i ≡ some x
      → (rest : List A) × SwapRemoved xs i x rest
  swap_remove_lem xs i {x} e = elim (Option-cases (pop xs)) [
    | inl p ↦ absurd (omega (arith, lt-length xs i e, ap length (pop_inv_none xs p)))
    | inr ((last, rest), p) ↦
        (swap_rest rest last i, swap_remove_popped xs i x last rest e p (pop_inv xs p))
  ]

  -- Where an entry other than the removed one stands afterwards.
  pub SwapRemoved-at :
      (xs : List A) (d e : ℕ) {x : A} {rest : List A}
      → SwapRemoved xs d x rest
      → e ≢ d
      → e < length xs
      → get_elem? rest (if e == length rest then d else e) ≡ get_elem? xs e
  SwapRemoved-at xs d e {rest = rest} r ne h =
      let inside = lt-length xs d r.taken in
      let size = r.shorter in
      elim (Bool-cases (e == length rest)) [
        | inl at_end ↦
            let same : e ≡ length rest = (==_iff e (length rest)).0 at_end in
            rw (at_end, r.kept d, lt→ltb d (length rest) (omega arith), ==-self d)
              (ap (get_elem? xs) (sym same))
        | inr below ↦ rw (
          below,
          r.kept e,
          lt→ltb e (length rest) (le-ne-lt {a = e} (omega arith) below),
          ne→== d e (omega arith),
        )
      ]

  pub last?-push : (xs : List A) (x : A) → last? (xs ++ x ∷ []) ≡ some x
  last?-push [] x = refl
  last?-push (y ∷ []) x = refl
  last?-push (y ∷ z ∷ xs) x = last?-push (z ∷ xs) x

  pub last?_lem : (xs : List A) {x : A} → last? xs ≡ some x → get_elem? xs (length xs - 1) ≡ some x
  last?_lem [] e = e
  last?_lem (y ∷ []) e = e
  last?_lem (y ∷ z ∷ xs) e = rw step (last?_lem (z ∷ xs) e)
    where
      step : length (y ∷ z ∷ xs) - 1 ≡ suc (length (z ∷ xs) - 1)
      step = omega arith

  pub last?-total : (xs : List A) → 0 < length xs → (x : A) × (last? xs ≡ some x)
  last?-total [] h = absurd (omega arith)
  last?-total (x ∷ []) h = (x, refl)
  last?-total (x ∷ y ∷ xs) h = last?-total (y ∷ xs) (omega arith)

  pub get_elem?-append_left :
      (xs ys : List A) (i : ℕ) → i < length xs → get_elem? (xs ++ ys) i ≡ get_elem? xs i
  get_elem?-append_left [] ys i h = absurd (omega arith)
  get_elem?-append_left (x ∷ xs) ys zero h = refl
  get_elem?-append_left (x ∷ xs) ys (suc i) h = get_elem?-append_left xs ys i (omega arith)

  pub get_elem?-append_right :
      (xs ys : List A) (k : ℕ) → get_elem? (xs ++ ys) (length xs + k) ≡ get_elem? ys k
  get_elem?-append_right [] ys k = rw zero-add
  get_elem?-append_right (x ∷ xs) ys k = rw suc-add (get_elem?-append_right xs ys k)

  pub length-take_le : (n : ℕ) (xs : List A) → n ≤ length xs → length (take n xs) ≡ n
  length-take_le zero xs h = refl
  length-take_le (suc n) [] h = absurd (omega arith)
  length-take_le (suc n) (x ∷ xs) h = ap suc (length-take_le n xs (omega arith))

  pub length-drop : (n : ℕ) (xs : List A) → length (drop n xs) ≡ length xs - n
  length-drop zero xs = omega arith
  length-drop (suc n) [] = omega arith
  length-drop (suc n) (x ∷ xs) = omega (arith, length-drop n xs)

  pub take-append_left : (n : ℕ) (xs ys : List A) → n ≤ length xs → take n (xs ++ ys) ≡ take n xs
  take-append_left zero xs ys h = refl
  take-append_left (suc n) [] ys h = absurd (omega arith)
  take-append_left (suc n) (x ∷ xs) ys h = ap (◌∷◌ x) (take-append_left n xs ys (omega arith))

  pub take-all : (n : ℕ) (xs : List A) → length xs ≤ n → take n xs ≡ xs
  take-all zero [] h = refl
  take-all zero (x ∷ xs) h = absurd (omega arith)
  take-all (suc n) [] h = refl
  take-all (suc n) (x ∷ xs) h = ap (◌∷◌ x) (take-all n xs (omega arith))

  pub take-append-drop : (n : ℕ) (xs : List A) → take n xs ++ drop n xs ≡ xs
  take-append-drop zero xs = refl
  take-append-drop (suc n) [] = refl
  take-append-drop (suc n) (x ∷ xs) = ap (◌∷◌ x) (take-append-drop n xs)

  pub drop-add : (n k : ℕ) (xs : List A) → drop (n + k) xs ≡ drop k (drop n xs)
  drop-add zero k xs = rw zero-add
  drop-add (suc n) zero [] = rw suc-add
  drop-add (suc n) (suc k) [] = rw suc-add
  drop-add (suc n) k (x ∷ xs) = rw suc-add (drop-add n k xs)
