-- ===== src/State/Update.antt =====
-- `StateSlab::get_mut` with a write through the reference.
use temnion.Prelude.{
  ℕ, ◌≡◌, ◌⊎◌, false≢true, refl, true, ap, sym, ◌∙◌, ok, err, arith, set, length-set,
  get_elem?-total, Bool-cases, inl, inr, if◌then◌else◌, ended, returned, failed, panicked,
  get_elem?-set_ne, get_elem?-set_self, expect,
}
use temnion.Core.{EntityId, entity_eq}
use temnion.Core.Laws.{entity_eq_iff}
use temnion.State.{StateSlab, dense_index, get, get_mut, invalid_entity}
use temnion.State.Inv.{
  IsValid, dense_index-IsLive, live-dense, live-lt, dense_index-err, dense_index-ne-panic,
}

module _ {ℓ} {T : Type ℓ} where
  -- Two live handles that resolve to one dense index are one handle.
  pub live_injective :
      (a b : EntityId) {s : StateSlab T} {d : ℕ}
      → IsValid s
      → dense_index a s ≡ ok d
      → dense_index b s ≡ ok d
      → entity_eq a b ≡ true
  live_injective a b {s} v p q =
      let la = dense_index-IsLive a s p in
      let lb = dense_index-IsLive b s q in ground (arith, live-dense a v p, live-dense b v q)

  -- The slab after the write at the dense index `d`.
  abbrev pub written : StateSlab T → ℕ → T → StateSlab T
  written s d value = record s { values = set s.values d value }

  written-IsValid : (s : StateSlab T) (d : ℕ) (value : T) → IsValid s → IsValid (written s d value)
  written-IsValid s d value v = record {
    small = v.small;
    fits = v.fits;
    paired = length-set s.values d value ∙ v.paired;
    counted = v.counted;
    dense_linked = v.dense_linked;
    slot_linked = v.slot_linked;
    free_vacant = v.free_vacant;
    free_once = v.free_once;
    generations = v.generations;
  }

  dense_index-written :
      (s : StateSlab T) (d : ℕ) (value : T) (id : EntityId)
      → dense_index id (written s d value) ≡ dense_index id s
  unfolding dense_index
  dense_index-written s d value id = refl

  get-written :
      (s : StateSlab T) (id : EntityId) (d : ℕ) (value : T)
      → IsValid s
      → dense_index id s ≡ ok d
      → (other : EntityId)
      → get other (written s d value) ≡ (if entity_eq id other then ok value else get other s)
  unfolding get
  get-written s id d value v live other = elim (Bool-cases (entity_eq id other)) [
    | inl same ↦
        let e = (entity_eq_iff id other).0 same in
        rw (
          same,
          ← e,
          dense_index-written s d value id,
          live,
          get_elem?-set_self s.values d value (live-lt id v live),
        )
    | inr differ ↦
        rw (differ, dense_index-written s d value other)
          (elim (ended (dense_index other s)) [
            | returned e p ↦ rw p (
                ap expect (
                  get_elem?-set_ne s.values value λ q.
                    false≢true (sym differ ∙ live_injective id other v live (p ∙ ap ok (sym q)))))
            | failed f p ↦ rw p
            | panicked p ↦ rw p
          ])
  ]

  -- On a valid slab a write through `get_mut` succeeds exactly where `get` does, keeps the slab valid,
  -- and afterwards `get` returns the written value for that handle and answers for every other one as
  -- before.
  pub get_mut_lem :
      (s : StateSlab T) (id : EntityId) (write : T → T)
      → IsValid s
      → IsValid (get_mut id write s).1
        × (((value : T) × (get id s ≡ ok value)
              × ((get_mut id write s).0 ≡ ok tt)
              × ((other : EntityId)
                  → get other (get_mut id write s).1
                    ≡ (if entity_eq id other then ok (write value) else get other s)))
            ⊎ ((get id s ≡ err (invalid_entity id))
                × (get_mut id write s ≡ (err (invalid_entity id), s))))
  unfolding get_mut get
  get_mut_lem s id write v = elim (ended (dense_index id s)) [
    | returned d live ↦
        let (value, found) = get_elem?-total s.values d (live-lt id v live) in
        let e : get_mut id write s ≡ (ok tt, written s d (write value)) = rw (live, found) in
        (
          rw e (written-IsValid s d (write value) v),
          inl (value, rw (live, found), rw e, rw e (get-written s id d (write value) v live)),
        )
    | failed f p ↦ let q = p ∙ ap err (dense_index-err id s p) in (rw q v, inr (rw q, rw q))
    | panicked p ↦ absurd (dense_index-ne-panic id s p)
  ]
