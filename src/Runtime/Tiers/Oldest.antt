-- ===== src/Runtime/Tiers/Oldest.antt =====
-- `least_recent` of crates/temnion-runtime/src/lib.rs finds a segment of the tier that was not
-- accessed for longest, where there is one.
use temnion.Prelude.{
  ◌≡◌, ◌≤◌, refl, ap, sym, ◌∙◌, subst, List, [], ◌∷◌, Option, none, some, some-injective, some≢none,
  true, false, false≢true, ltb, Bool-cases, inl, inr, not_ltb→le, cond_true, cond_false, arith,
}
use mathlib.Core.List.{Memᴰ}
use mathlib.Core.List.Memᴰ
use temnion.Runtime.Tiers.{StorageTier, tier_eq, TieredSegment, older, least_recent}
use temnion.Runtime.Tiers.Sums.{bytes_in}

-- A tier that no segment is in holds no bytes.
pub least_recent-none :
    (tier : StorageTier) (segments : List TieredSegment)
    → least_recent tier segments ≡ none
    → bytes_in tier segments ≡ 0
unfolding least_recent bytes_in
least_recent-none tier [] e = refl
least_recent-none tier (s ∷ segments) e = elim (Bool-cases (tier_eq s.tier tier)) [
  | inl same ↦ absurd (some≢none (sym (cond_true _ _ same) ∙ e))
  | inr other ↦
      cond_false _ _ other ∙ least_recent-none tier segments (sym (cond_false _ _ other) ∙ e)
]

-- The segment found is one of the tier, and none of the tier was accessed before it.
pub record IsLeastRecent (tier : StorageTier) (segments : List TieredSegment) (s : TieredSegment)
    : Type 0 where
  pub occurs : Memᴰ s segments
  pub inside : tier_eq s.tier tier ≡ true
  pub oldest :
      (t : TieredSegment)
      → Memᴰ t segments
      → tier_eq t.tier tier ≡ true
      → s.last_access_step ≤ t.last_access_step

older_lem :
    (tier : StorageTier) (s : TieredSegment) (segments : List TieredSegment)
    (best : Option TieredSegment)
    → tier_eq s.tier tier ≡ true
    → ((b : TieredSegment) → best ≡ some b → IsLeastRecent tier segments b)
    → (best ≡ none → (t : TieredSegment) → Memᴰ t segments → tier_eq t.tier tier ≡ false)
    → IsLeastRecent tier (s ∷ segments) (older s best)
older_lem tier s segments none inside found missing = record {
  occurs = Memᴰ.head refl;
  inside = inside;
  oldest = λ t mem h. elim (Memᴰ.cases_cons mem) [
    | inl e ↦ omega (arith, ap (λ t. t.last_access_step) e)
    | inr later ↦ absurd (false≢true (sym (missing refl t later) ∙ h))
  ];
}
older_lem tier s segments (some b) inside found missing =
    let f = found b refl in
    elim (Bool-cases (ltb b.last_access_step s.last_access_step)) [
      | inl less ↦ subst (IsLeastRecent tier (s ∷ segments)) (sym (cond_true _ _ less)) (record {
        occurs = Memᴰ.tail f.occurs;
        inside = f.inside;
        oldest = λ t mem h. elim (Memᴰ.cases_cons mem) [
          | inl e ↦ ground (arith, ap (λ t. t.last_access_step) e, less)
          | inr later ↦ f.oldest t later h
        ];
      })
      | inr more ↦ subst (IsLeastRecent tier (s ∷ segments)) (sym (cond_false _ _ more)) (record {
        occurs = Memᴰ.head refl;
        inside = inside;
        oldest = λ t mem h. elim (Memᴰ.cases_cons mem) [
          | inl e ↦ omega (arith, ap (λ t. t.last_access_step) e)
          | inr later ↦ omega (arith, f.oldest t later h, not_ltb→le _ _ more)
        ];
      })
    ]

least_recent-missing :
    (tier : StorageTier) (segments : List TieredSegment)
    → least_recent tier segments ≡ none
    → (t : TieredSegment) → Memᴰ t segments
    → tier_eq t.tier tier ≡ false
unfolding least_recent
least_recent-missing tier [] e t mem = absurd (Memᴰ.not-nil mem)
least_recent-missing tier (s ∷ segments) e t mem = elim (Bool-cases (tier_eq s.tier tier)) [
  | inl same ↦ absurd (some≢none (sym (cond_true _ _ same) ∙ e))
  | inr other ↦ elim (Memᴰ.cases_cons mem) [
    | inl is ↦ ap (λ t. tier_eq t.tier tier) is ∙ other
    | inr later ↦ least_recent-missing tier segments (sym (cond_false _ _ other) ∙ e) t later
  ]
]

pub least_recent-IsLeastRecent :
    (tier : StorageTier) (segments : List TieredSegment) {s : TieredSegment}
    → least_recent tier segments ≡ some s
    → IsLeastRecent tier segments s
unfolding least_recent
least_recent-IsLeastRecent tier [] e = absurd (some≢none (sym e))
least_recent-IsLeastRecent tier (t ∷ segments) e = elim (Bool-cases (tier_eq t.tier tier)) [
  | inl same ↦
      subst (IsLeastRecent tier (t ∷ segments)) (some-injective _ _ (sym (cond_true _ _ same) ∙ e))
        (older_lem tier t segments (least_recent tier segments) same
          (λ b found. least_recent-IsLeastRecent tier segments found)
          (least_recent-missing tier segments))
  | inr other ↦
      let f = least_recent-IsLeastRecent tier segments (sym (cond_false _ _ other) ∙ e) in
      record {
        occurs = Memᴰ.tail f.occurs;
        inside = f.inside;
        oldest = λ u mem h. elim (Memᴰ.cases_cons mem) [
          | inl is ↦ absurd (false≢true (sym (ap (λ u. tier_eq u.tier tier) is ∙ other) ∙ h))
          | inr later ↦ f.oldest u later h
        ];
      }
]
