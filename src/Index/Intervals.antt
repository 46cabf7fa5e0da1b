-- ===== src/Index/Intervals.antt =====
-- The Morton intervals of a box of crates/temnion-index/src/lib.rs cover the codes of its chunks, and
-- no other.
use temnion.Prelude.{
  ℕ, ◌+◌, ◌≤◌, ◌<◌, ◌↔◌, ◌⊎◌, inl, inr, sym, subst, ◌≡◌, refl, ◌-◌, ◌/◌, zero, suc, List, [], ◌∷◌,
  Bool-cases, ◌==◌, ==_iff, cond_true, cond_false, arith,
}
use mathlib.Core.List.{Memᴰ}
use mathlib.Core.List.Memᴰ
use temnion.Index.Morton.{
  sort_codes, dedup_after, dedup, merge_from, merge_consecutive_codes, range, row_codes, all_codes,
  morton_encode_2d, BoundingBox2D, GridChunker2D, morton_intervals_chunked,
}
use temnion.Index.Codes.{
  Increasing, Sorted, Memᴰ-sort_codes, sort_codes-Sorted, dedup_after-Increasing, Memᴰ-dedup_after,
}

-- A code within one of the intervals.
abbrev pub InSome : ℕ → List (ℕ × ℕ) → Type 0
InSome v [] = ⊥
InSome v ((start, end) ∷ intervals) = ((start ≤ v) × (v ≤ end)) ⊎ InSome v intervals

merge_from_iff :
    (start end : ℕ) (codes : List ℕ) (v : ℕ)
    → start ≤ end
    → Increasing (end ∷ codes)
    → InSome v (merge_from start end codes) ↔ (((start ≤ v) × (v ≤ end)) ⊎ Memᴰ v codes)
unfolding merge_from
merge_from_iff start end [] v le inc = (
  λ h. elim h [ inl inside ↦ inl inside | inr none' ↦ absurd none' ],
  λ h. elim h [ inl inside ↦ inl inside | inr mem ↦ absurd (Memᴰ.not-nil mem) ],
)
merge_from_iff start end (code ∷ codes) v le ((above, _), (rest, inc)) =
    elim (Bool-cases (code == end + 1)) [
      | inl joins ↦
          let e = (==_iff code (end + 1)).0 joins in
          let (out, back) = merge_from_iff start code codes v (omega arith) (rest, inc) in
          subst (λ l. InSome v l ↔ (((start ≤ v) × (v ≤ end)) ⊎ Memᴰ v (code ∷ codes)))
            (sym (cond_true _ _ joins))
            (
              λ h. elim (out h) [
                | inr mem ↦ inr (Memᴰ.tail mem)
                | inl (low, high) ↦ elim (Bool-cases (v == code)) [
                  | inl same ↦ inr (Memᴰ.head ((==_iff v code).0 same))
                  | inr other ↦ inl (low, ground (arith, e, high, other))
                ]
              ],
              λ h. elim h [
                | inl (low, high) ↦ back (inl (low, omega (arith, e)))
                | inr mem ↦ elim (Memᴰ.cases_cons mem) [
                  | inl same ↦ back (inl (omega (arith, same), omega (arith, same)))
                  | inr later ↦ back (inr later)
                ]
              ],
            )
      | inr apart ↦
          let (out, back) = merge_from_iff code code codes v (omega arith) (rest, inc) in
          subst (λ l. InSome v l ↔ (((start ≤ v) × (v ≤ end)) ⊎ Memᴰ v (code ∷ codes)))
            (sym (cond_false _ _ apart))
            (
              λ h. elim h [
                | inl inside ↦ inl inside
                | inr later ↦ elim (out later) [
                  | inl (low, high) ↦ inr (Memᴰ.head (omega arith))
                  | inr mem ↦ inr (Memᴰ.tail mem)
                ]
              ],
              λ h. elim h [
                | inl inside ↦ inl inside
                | inr mem ↦ elim (Memᴰ.cases_cons mem) [
                  | inl same ↦ inr (back (inl (omega (arith, same), omega (arith, same))))
                  | inr later ↦ inr (back (inr later))
                ]
              ],
            )
    ]

merge_iff :
    (codes : List ℕ) (v : ℕ)
    → Increasing codes
    → InSome v (merge_consecutive_codes codes) ↔ Memᴰ v codes
unfolding merge_consecutive_codes
merge_iff [] v inc = (λ h. absurd h, λ mem. absurd (Memᴰ.not-nil mem))
merge_iff (code ∷ codes) v inc =
    let (out, back) = merge_from_iff code code codes v (omega arith) inc in
    (
      λ h. elim (out h) [ inl (low, high) ↦ Memᴰ.head (omega arith) | inr mem ↦ Memᴰ.tail mem ],
      λ mem. elim (Memᴰ.cases_cons mem) [
        | inl same ↦ back (inl (omega (arith, same), omega (arith, same)))
        | inr later ↦ back (inr later)
      ],
    )

merge-dedup_iff :
    (codes : List ℕ) (v : ℕ)
    → InSome v (merge_consecutive_codes (dedup (sort_codes codes))) ↔ Memᴰ v codes
unfolding dedup
merge-dedup_iff codes v =
    let (down, up) = Memᴰ-sort_codes v codes in
    let (out, back) = of_sorted (sort_codes codes) (sort_codes-Sorted codes) in
    (λ h. down (out h), λ h. back (up h))
  where
    of_sorted :
        (codes : List ℕ)
        → Sorted codes
        → InSome v (merge_consecutive_codes (dedup codes)) ↔ Memᴰ v codes
    of_sorted [] h = merge_iff [] v tt
    of_sorted (c ∷ codes) (first, h) =
        let (out, back) =
          merge_iff (c ∷ dedup_after c codes) v (dedup_after-Increasing c codes first h) in
        let (down, up) = Memᴰ-dedup_after v c codes in (λ h. down (out h), λ h. back (up h))

-- The numbers of a range.
range_iff : (first count v : ℕ) → Memᴰ v (range first count) ↔ ((first ≤ v) × (v < first + count))
unfolding range
range_iff first zero v =
    (λ m. absurd (Memᴰ.not-nil m), λ (low, high). absurd (omega (arith, low, high)))
range_iff first (suc count) v =
    let (out, back) = range_iff (first + 1) count v in
    (
      λ m. elim (Memᴰ.cases_cons m) [
        | inl e ↦ (omega (arith, e), omega (arith, e))
        | inr later ↦ let (low, high) = out later in (omega (arith, low), omega (arith, high))
      ],
      λ (low, high). elim (Bool-cases (v == first)) [
        | inl same ↦ Memᴰ.head ((==_iff v first).0 same)
        | inr other ↦ Memᴰ.tail (back (ground (arith, low, other), omega (arith, high)))
      ],
    )

row_codes_iff :
    (cy : ℕ) (xs : List ℕ) (v : ℕ)
    → Memᴰ v (row_codes cy xs) ↔ ((cx : ℕ) × Memᴰ cx xs × (v ≡ morton_encode_2d cx cy))
unfolding row_codes
row_codes_iff cy [] v = (λ m. absurd (Memᴰ.not-nil m), λ (cx, m, e). absurd (Memᴰ.not-nil m))
row_codes_iff cy (x ∷ xs) v =
    let (out, back) = row_codes_iff cy xs v in
    (
      λ m. elim (Memᴰ.cases_cons m) [
        | inl e ↦ (x, Memᴰ.head refl, e)
        | inr later ↦ let (cx, m, e) = out later in (cx, Memᴰ.tail m, e)
      ],
      λ (cx, m, e). elim (Memᴰ.cases_cons m) [
        | inl is ↦ Memᴰ.head (subst (λ c. v ≡ morton_encode_2d c cy) is e)
        | inr later ↦ Memᴰ.tail (back (cx, later, e))
      ],
    )

all_codes_iff :
    (xs ys : List ℕ) (v : ℕ)
    → Memᴰ v (all_codes xs ys)
      ↔ ((cx : ℕ) × (cy : ℕ) × Memᴰ cx xs × Memᴰ cy ys × (v ≡ morton_encode_2d cx cy))
unfolding all_codes
all_codes_iff xs [] v = (λ m. absurd (Memᴰ.not-nil m), λ (cx, cy, m, k, e). absurd (Memᴰ.not-nil k))
all_codes_iff xs (y ∷ ys) v =
    let (down, up) = row_codes_iff y xs v in
    let (out, back) = all_codes_iff xs ys v in
    (
      λ m. elim (Memᴰ.append_cases (row_codes y xs) m) [
        | inl here ↦ let (cx, m, e) = down here in (cx, y, m, Memᴰ.head refl, e)
        | inr later ↦ let (cx, cy, m, k, e) = out later in (cx, cy, m, Memᴰ.tail k, e)
      ],
      λ (cx, cy, m, k, e). elim (Memᴰ.cases_cons k) [
        | inl is ↦
            Memᴰ.append_left (all_codes xs ys)
              (up (cx, m, subst (λ c. v ≡ morton_encode_2d cx c) is e))
        | inr later ↦ Memᴰ.append_right (row_codes y xs) (back (cx, cy, m, later, e))
      ],
    )

-- A chunk coordinate between those of the two ends.
abbrev pub Spans : GridChunker2D → ℕ → ℕ → ℕ → Type 0
Spans chunker low high c = (low / chunker.chunk_size ≤ c) × (c ≤ high / chunker.chunk_size)

-- A code lies in one of the intervals of `morton_intervals_chunked` exactly when it is the Morton
-- code of a chunk whose coordinates are between those of the corners of the box.
pub morton_intervals_chunked_iff :
    (b : BoundingBox2D) (chunker : GridChunker2D) (v : ℕ)
    → InSome v (morton_intervals_chunked b chunker) ↔ (
        (cx : ℕ) × (cy : ℕ) × Spans chunker b.min_x b.max_x cx
        × Spans chunker b.min_y b.max_y cy
        × (v ≡ morton_encode_2d cx cy))
unfolding morton_intervals_chunked
morton_intervals_chunked_iff b chunker v =
    let size = chunker.chunk_size in
    let span : ℕ → ℕ → List ℕ = λ low high. range (low / size) (high / size + 1 - low / size) in
    let (out, back) = merge-dedup_iff (all_codes (span b.min_x b.max_x) (span b.min_y b.max_y)) v in
    let (down, up) = all_codes_iff (span b.min_x b.max_x) (span b.min_y b.max_y) v in
    (
      λ h.
          let (cx, cy, m, k, e) = down (out h) in
          (cx, cy, within b.min_x b.max_x cx m, within b.min_y b.max_y cy k, e),
      λ (cx, cy, m, k, e).
          back (up (cx, cy, covered b.min_x b.max_x cx m, covered b.min_y b.max_y cy k, e)),
    )
  where
    within :
        (low high c : ℕ)
        → Memᴰ c (
            range
              (low / chunker.chunk_size)
              (high / chunker.chunk_size + 1 - low / chunker.chunk_size))
        → Spans chunker low high c
    within low high c m = let (a, z) = (range_iff _ _ c).0 m in (a, omega (arith, a, z))

    covered :
        (low high c : ℕ)
        → Spans chunker low high c
        → Memᴰ c (
            range
              (low / chunker.chunk_size)
              (high / chunker.chunk_size + 1 - low / chunker.chunk_size))
    covered low high c (a, z) = (range_iff _ _ c).1 (a, omega (arith, a, z))
