-- ===== src/Storage/Reclaim.antt =====
-- What crates/temnion-storage/src/lifecycle.rs reclaims: the events past a threshold that no reference
-- hold covers.
use temnion.Prelude.{
  ℕ, zero, suc, ◌+◌, ◌-◌, ◌<◌, ◌≡◌, ◌↔◌, ◌⊎◌, inl, inr, refl, ap, sym, subst, ◌∙◌, List, [], ◌∷◌,
  false, Option, none, some, some≢none, some-injective, ltb, length, take, get_elem?, Bool-cases,
  if◌then◌else◌, cond_true, cond_false, arith,
}
use mathlib.Core.List.{Memᴰ}
use mathlib.Core.List.Memᴰ
use temnion.Format.{StoredEvent}
use temnion.Index.Morton.{sort_codes, dedup}
use temnion.Index.Codes.{
  Increasing, Sorted, Memᴰ-sort_codes, sort_codes-Sorted, dedup_after-Increasing, Memᴰ-dedup_after,
}
use temnion.Storage.Lifecycle.{
  ReferenceHold, RetentionPolicy, is_held, push_aged, push_excess, aged_candidates,
  excess_candidates, evaluate_reclaimable,
}
use temnion.Storage.Candidates.{Free, is_held_iff, Some, push_aged_iff, push_excess_iff}

-- The events whose valid time is more than the policy's age in the past.
abbrev pub Aged : RetentionPolicy → List StoredEvent → ℕ → ℕ → Type 0
Aged policy events current_ticks s =
    (max_age : ℕ) × (policy.max_age_ticks ≡ some max_age)
    × Some (λ ev. max_age < current_ticks - ev.times.valid.ticks) events s

-- The first events, as many as are above the policy's number.
abbrev pub Surplus : RetentionPolicy → List StoredEvent → ℕ → Type 0
Surplus policy events s =
    (max_events : ℕ) × (policy.max_retained_events ≡ some max_events)
    × ((i : ℕ) × (ev : StoredEvent) × (i + max_events < length events)
        × (get_elem? events i ≡ some ev)
        × (s ≡ ev.id.sequence))

Memᴰ-take_iff :
    (n : ℕ) (events : List StoredEvent) (ev : StoredEvent)
    → Memᴰ ev (take n events)
      ↔ ((i : ℕ) × (i < n) × (i < length events) × (get_elem? events i ≡ some ev))
Memᴰ-take_iff zero events ev =
    (λ m. absurd (Memᴰ.not-nil m), λ (i, less, _, _). absurd (omega (arith, less)))
Memᴰ-take_iff (suc n) [] ev =
    (λ m. absurd (Memᴰ.not-nil m), λ (i, _, less, _). absurd (omega (arith, less)))
Memᴰ-take_iff (suc n) (x ∷ events) ev =
    let (out, back) = Memᴰ-take_iff n events ev in
    (
      λ m. elim (Memᴰ.cases_cons m) [
        | inl e ↦ (zero, omega arith, omega arith, ap some (sym e))
        | inr later ↦
            let (i, less, within, at) = out later in
            (suc i, omega (arith, less), omega (arith, within), at)
      ],
      λ (i, less, within, at). at_index out back i less within at,
    )
  where
    at_index :
        (Memᴰ ev (take n events)
          → (i : ℕ) × (i < n) × (i < length events) × (get_elem? events i ≡ some ev))
        → ((i : ℕ) × (i < n) × (i < length events) × (get_elem? events i ≡ some ev)
            → Memᴰ ev (take n events))
        → (i : ℕ) → i < suc n
        → i < suc (length events)
        → get_elem? (x ∷ events) i ≡ some ev
        → Memᴰ ev (x ∷ take n events)
    at_index out back zero less within at = Memᴰ.head (sym (some-injective _ _ at))
    at_index out back (suc i) less within at =
        Memᴰ.tail (back (i, omega (arith, less), omega (arith, within), at))

-- Sorted and deduplicated, the numbers increase and are the same.
dedup-sort_codes_lem :
    (numbers : List ℕ)
    → Increasing (dedup (sort_codes numbers))
      × ((s : ℕ) → Memᴰ s (dedup (sort_codes numbers)) ↔ Memᴰ s numbers)
unfolding dedup
dedup-sort_codes_lem numbers =
    let (inc, same) = of_sorted (sort_codes numbers) (sort_codes-Sorted numbers) in
    (
      inc,
      λ s.
          let (out, back) = same s in
          let (down, up) = Memᴰ-sort_codes s numbers in (λ m. down (out m), λ m. back (up m)),
    )
  where
    of_sorted :
        (l : List ℕ) → Sorted l → Increasing (dedup l) × ((s : ℕ) → Memᴰ s (dedup l) ↔ Memᴰ s l)
    of_sorted [] h = (tt, λ s. (λ m. m, λ m. m))
    of_sorted (c ∷ l) (first, h) = (dedup_after-Increasing c l first h, λ s. Memᴰ-dedup_after s c l)

module _ (policy : RetentionPolicy) (events : List StoredEvent) (current_ticks : ℕ)
    (holds : List ReferenceHold) where
  aged_candidates_iff :
      (s : ℕ)
      → Memᴰ s (aged_candidates policy events current_ticks holds)
        ↔ (Free holds s × Aged policy events current_ticks s)
  unfolding aged_candidates
  aged_candidates_iff s = of_limit policy.max_age_ticks refl
    where
      of_limit :
          (limit : Option ℕ)
          → policy.max_age_ticks ≡ limit
          → Memᴰ s (elim limit [
            | none ↦ []
            | some max_age ↦ push_aged max_age current_ticks holds events []
          ])
            ↔ (Free holds s × Aged policy events current_ticks s)
      of_limit none e = (
        λ m. absurd (Memᴰ.not-nil m),
        λ (free, (max_age, there, _)). absurd (some≢none (sym there ∙ e)),
      )
      of_limit (some max_age) e =
          let (out, back) = push_aged_iff holds current_ticks max_age events [] s in
          (
            λ m. elim (out m) [
              | inl none' ↦ absurd (Memᴰ.not-nil none')
              | inr (ev, there, (old, free), is) ↦ (
                (is_held_iff holds s).0 (subst (λ s. is_held holds s ≡ false) (sym is) free),
                (max_age, e, (ev, there, old, is)),
              )
            ],
            λ (free, (max_age', limit, (ev, there, old, is))). back (
                inr (
                  ev,
                  there,
                  (
                    subst (λ a. a < current_ticks - ev.times.valid.ticks)
                        (some-injective _ _ (sym limit ∙ e)) old,
                    subst (λ s. is_held holds s ≡ false) is ((is_held_iff holds s).1 free),
                  ),
                  is,
                )),
          )

  excess_candidates_iff :
      (candidates : List ℕ) (s : ℕ)
      → Memᴰ s (excess_candidates policy events holds candidates)
        ↔ (Memᴰ s candidates ⊎ (Free holds s × Surplus policy events s))
  unfolding excess_candidates
  excess_candidates_iff candidates s = of_limit policy.max_retained_events refl
    where
      of_limit :
          (limit : Option ℕ)
          → policy.max_retained_events ≡ limit
          → Memᴰ s (elim limit [
            | none ↦ candidates
            | some max_events ↦
                if ltb max_events (length events)
                then push_excess holds (take (length events - max_events) events) candidates
                else candidates
          ])
            ↔ (Memᴰ s candidates ⊎ (Free holds s × Surplus policy events s))
      of_limit none e = (
        λ m. inl m,
        λ h. elim h [ inl m ↦ m | inr (_, (_, limit, _)) ↦ absurd (some≢none (sym limit ∙ e)) ],
      )
      of_limit (some n) e = elim (Bool-cases (ltb n (length events))) [
        | inr few ↦
            subst (λ l. Memᴰ s l ↔ (Memᴰ s candidates ⊎ (Free holds s × Surplus policy events s)))
              (sym (cond_false _ _ few))
              (
                λ m. inl m,
                λ h. elim h [
                  | inl m ↦ m
                  | inr (_, (n', limit, (i, ev, many, _, _))) ↦
                      let same = some-injective _ _ (sym limit ∙ e) in
                      absurd (ground (arith, few, many, same))
                ],
              )
        | inl many ↦
            let room : n < length events = ground (arith, many) in
            let (out, back) =
              push_excess_iff holds current_ticks (take (length events - n) events) candidates s in
            subst (λ l. Memᴰ s l ↔ (Memᴰ s candidates ⊎ (Free holds s × Surplus policy events s)))
              (sym (cond_true _ _ many))
              (
                λ m. elim (out m) [
                  | inl old ↦ inl old
                  | inr (ev, there, free, is) ↦
                      let (i, less, _, at) =
                        (Memᴰ-take_iff (length events - n) events ev).0 there in
                      inr (
                        (is_held_iff holds s).0
                            (subst (λ s. is_held holds s ≡ false) (sym is) free),
                        (n, e, (i, ev, omega (arith, less, room), at, is)),
                      )
                ],
                λ h. elim h [
                  | inl m ↦ back (inl m)
                  | inr (free, (n', limit, (i, ev, past, at, is))) ↦
                      let same = some-injective _ _ (sym limit ∙ e) in
                      let within : i + n < length events = omega (arith, same, past) in
                      back (
                        inr (
                          ev,
                          (Memᴰ-take_iff (length events - n) events ev).1
                              (i, omega (arith, within), omega (arith, within), at),
                          subst (λ s. is_held holds s ≡ false) is ((is_held_iff holds s).1 free),
                          is,
                        ))
                ],
              )
      ]

  -- `evaluate_reclaimable` returns increasing sequence numbers without repeats: exactly those that no
  -- reference hold covers and that belong to an event older than the policy's age, or to one of the
  -- first events of the list, as many as exceed the number that the policy retains.
  pub evaluate_reclaimable_iff :
      Increasing (evaluate_reclaimable policy events current_ticks holds)
      × ((s : ℕ)
          → Memᴰ s (evaluate_reclaimable policy events current_ticks holds)
            ↔ (Free holds s × (Aged policy events current_ticks s ⊎ Surplus policy events s)))
  unfolding evaluate_reclaimable
  evaluate_reclaimable_iff =
      let aged = aged_candidates policy events current_ticks holds in
      let (inc, same) = dedup-sort_codes_lem (excess_candidates policy events holds aged) in
      (
        inc,
        λ s.
            let (out, back) = same s in
            let (down, up) = excess_candidates_iff aged s in
            let (read, find) = aged_candidates_iff s in
            (
              λ m. elim (down (out m)) [
                | inl old ↦ let (free, a) = read old in (free, inl a)
                | inr (free, extra) ↦ (free, inr extra)
              ],
              λ (free, h). elim h [
                | inl a ↦ back (up (inl (find (free, a))))
                | inr extra ↦ back (up (inr (free, extra)))
              ],
            ),
      )
