-- ===== src/Runtime/Dag/Search.antt =====
-- The loop of `has_cycle` of crates/temnion-runtime/src/lib.rs: it ends, and on a graph whose tasks
-- name earlier tasks only it visits each task once.
use temnion.Prelude.{
  ℕ, suc, ◌+◌, ◌-◌, ◌≡◌, ◌≤◌, ◌<◌, refl, ap, sym, ◌∙◌, List, [], ◌∷◌, ◌++◌, none, some,
  some-injective, some≢none, Bool-cases, inl, inr, cond_true, cond_false, ◌==◌, ==_iff, ne→==,
  count, count-append, count-cons, count-cons_self, Map, map_get, map_insert, IsMap, map_get-Above,
  ok, and_then, expect, panic, arith, if◌then◌else◌,
}
use temnion.Runtime.Dag.{TaskId, zero_in_degree, count_down, or_default}
use temnion.Runtime.Dag.Edges.{degree, Has, map_insert-Has, degree-map_insert}

-- One for a degree of zero.
abbrev pub is_zero : ℕ → ℕ
is_zero n = if n == 0 then 1 else 0

-- The queue at the start holds the tasks of degree zero, each once.
pub count-zero_in_degree-none :
    (m : Map ℕ) (v : ℕ) → map_get v m ≡ none → count v (zero_in_degree m) ≡ 0
unfolding map_get zero_in_degree
count-zero_in_degree-none [] v e = refl
count-zero_in_degree-none ((k, n) ∷ m) v e = elim (Bool-cases (v == k)) [
  | inl here ↦ absurd (some≢none (sym (cond_true _ _ here) ∙ e))
  | inr other ↦
      let rest = count-zero_in_degree-none m v (sym (cond_false _ _ other) ∙ e) in
      ground (arith, other, rest)
]

pub count-zero_in_degree :
    (m : Map ℕ) (v : ℕ) {n : ℕ}
    → IsMap m
    → map_get v m ≡ some n
    → count v (zero_in_degree m) ≡ is_zero n
unfolding map_get zero_in_degree
count-zero_in_degree [] v h e = absurd (some≢none (sym e))
count-zero_in_degree ((k, w) ∷ m) v {n} (above, h) e = elim (Bool-cases (v == k)) [
  | inl here ↦
      let is : w ≡ n = some-injective w n (sym (cond_true _ _ here) ∙ e) in
      let at = (==_iff v k).0 here in
      let rest = count-zero_in_degree-none m v (map_get-Above v k m above (omega (arith, at))) in
      ground (arith, here, rest, is)
  | inr other ↦
      let rest = count-zero_in_degree m v h (sym (cond_false _ _ other) ∙ e) in
      ground (arith, other, rest)
]

-- What the count-down over the successors of one task leaves.
pub record CountedDown (outs : List TaskId) (in_degree : Map ℕ) (queue : List TaskId)
    (in_degree' : Map ℕ) (queue' : List TaskId) : Type 0 where
  pub lowered : (v : ℕ) → degree v in_degree' + count v outs ≡ degree v in_degree
  pub queued :
      (v : ℕ)
      → count v queue' + is_zero (degree v in_degree)
        ≡ count v queue + is_zero (degree v in_degree')
  pub listed : (j : ℕ) → Has j in_degree → Has j in_degree'

pub count_down_lem :
    (outs : List TaskId) (in_degree : Map ℕ) (queue : List TaskId)
    → ((v : ℕ) → count v outs ≤ degree v in_degree)
    → ((v : ℕ) → 0 < count v outs → Has v in_degree)
    → (in_degree' : Map ℕ) × (queue' : List TaskId) × (count_down outs (in_degree, queue)
        ≡ ok (in_degree', queue'))
      × CountedDown outs in_degree queue in_degree' queue'
unfolding count_down
count_down_lem [] in_degree queue enough there = (
  in_degree,
  queue,
  refl,
  record { lowered = λ v. omega arith; queued = λ v. refl; listed = λ j e. e },
)
count_down_lem (w ∷ outs) in_degree queue enough there =
    let (n, found) = there w (omega (arith, count-cons_self w outs)) in
    let number : degree w in_degree ≡ n = ap (λ o. or_default o 0) found in
    let positive : 0 < n = omega (arith, enough w, count-cons_self w outs, number) in
    let in_degree1 = map_insert w (n - 1) in_degree in
    let queue1 = if n - 1 == 0 then queue ++ w ∷ [] else queue in
    let (in_degree', queue', runs, c) =
      count_down_lem outs in_degree1 queue1 (λ v. lower_enough v n positive number)
        (λ v e. map_insert-Has w (n - 1) in_degree v (there v (more v e))) in
    (
      in_degree',
      queue',
      ap
            (λ o. and_then (expect o) (λ degree.
              if degree == 0
              then panic
              else count_down outs (
                map_insert w (degree - 1) in_degree,
                if degree - 1 == 0 then queue ++ w ∷ [] else queue,
              )))
            found
          ∙ cond_false _ _ (ne→== n 0 (λ e. absurd (omega (arith, positive, e))))
          ∙ runs,
      record {
        lowered = λ v. lowered_step v n (degree v in_degree') positive number (c.lowered v);
        queued = λ v.
            queued_step v n (count v queue') (degree v in_degree') positive number (c.queued v);
        listed = λ j e. c.listed j (map_insert-Has w (n - 1) in_degree j e);
      },
    )
  where
    more : (v : ℕ) → 0 < count v outs → 0 < count v (w ∷ outs)
    more v e = omega (arith, count-cons v w outs, e)

    lower_enough :
        (v n : ℕ)
        → 0 < n
        → degree w in_degree ≡ n
        → count v outs ≤ degree v (map_insert w (n - 1) in_degree)
    lower_enough v n positive number = elim (Bool-cases (v == w)) [
      | inl same ↦ omega (
        arith,
        enough v,
        cond_true (suc (count v outs)) (count v outs) same,
        degree-map_insert v w (n - 1) in_degree,
        cond_true (n - 1) (degree v in_degree) same,
        number,
        ap (λ v. degree v in_degree) ((==_iff v w).0 same),
      )
      | inr other ↦ omega (
        arith,
        enough v,
        cond_false (suc (count v outs)) (count v outs) other,
        degree-map_insert v w (n - 1) in_degree,
        cond_false (n - 1) (degree v in_degree) other,
      )
    ]

    lowered_step :
        (v n d : ℕ)
        → 0 < n
        → degree w in_degree ≡ n
        → d + count v outs ≡ degree v (map_insert w (n - 1) in_degree)
        → d + count v (w ∷ outs) ≡ degree v in_degree
    lowered_step v n d positive number e = elim (Bool-cases (v == w)) [
      | inl same ↦ omega (
        arith,
        e,
        cond_true (suc (count v outs)) (count v outs) same,
        degree-map_insert v w (n - 1) in_degree,
        cond_true (n - 1) (degree v in_degree) same,
        number,
        ap (λ v. degree v in_degree) ((==_iff v w).0 same),
      )
      | inr other ↦ omega (
        arith,
        e,
        cond_false (suc (count v outs)) (count v outs) other,
        degree-map_insert v w (n - 1) in_degree,
        cond_false (n - 1) (degree v in_degree) other,
      )
    ]

    queued_step :
        (v n q d : ℕ)
        → 0 < n
        → degree w in_degree ≡ n
        → q + is_zero (degree v (map_insert w (n - 1) in_degree))
          ≡ count v (if n - 1 == 0 then queue ++ w ∷ [] else queue) + is_zero d
        → q + is_zero (degree v in_degree) ≡ count v queue + is_zero d
    queued_step v n q d positive number e = elim (Bool-cases (v == w)) [
      | inl same ↦
          let at : degree v (map_insert w (n - 1) in_degree) ≡ n - 1 =
            degree-map_insert v w (n - 1) in_degree ∙ cond_true (n - 1) (degree v in_degree) same in
          let now : degree v in_degree ≡ n =
            ap (λ v. degree v in_degree) ((==_iff v w).0 same) ∙ number in
          let e' : q + is_zero (n - 1)
              ≡ count v (if n - 1 == 0 then queue ++ w ∷ [] else queue) + is_zero d =
            ap (λ x. q + is_zero x) (sym at) ∙ e in
          ap (λ x. q + is_zero x) now ∙ elim (Bool-cases (n - 1 == 0)) [
            | inl last ↦ omega (
              arith,
              e',
              cond_true {A = ℕ} 1 0 last,
              ap (count v) (cond_true (queue ++ w ∷ []) queue last),
              count-append v queue (w ∷ []),
              cond_true {A = ℕ} 1 0 same,
              cond_false {A = ℕ} 1 0 (ne→== n 0 (λ e. absurd (omega (arith, positive, e)))),
            )
            | inr left ↦ omega (
              arith,
              e',
              cond_false {A = ℕ} 1 0 left,
              ap (count v) (cond_false (queue ++ w ∷ []) queue left),
              cond_false {A = ℕ} 1 0 (ne→== n 0 (λ e. absurd (omega (arith, positive, e)))),
            )
          ]
      | inr other ↦
          let at : degree v (map_insert w (n - 1) in_degree) ≡ degree v in_degree =
            degree-map_insert v w (n - 1) in_degree
            ∙ cond_false (n - 1) (degree v in_degree) other in
          ap (λ x. q + is_zero x) (sym at) ∙ e ∙ elim (Bool-cases (n - 1 == 0)) [
            | inl last ↦ omega (
              arith,
              ap (count v) (cond_true (queue ++ w ∷ []) queue last),
              count-append v queue (w ∷ []),
              cond_false {A = ℕ} 1 0 other,
            )
            | inr left ↦ omega (arith, ap (count v) (cond_false (queue ++ w ∷ []) queue left))
          ]
    ]
