-- ===== src/Index/Bloom.antt =====
-- The Bloom filter of crates/temnion-index/src/lib.rs has no false negatives: what was inserted may
-- be contained.
use temnion.Prelude.{
  ℕ, zero, suc, ◌+◌, ◌*◌, ◌/◌, ◌%◌, ◌^◌, ◌≡◌, ◌≢◌, ◌≤◌, ◌<◌, refl, ap, sym, ◌∙◌, List, [], ◌∷◌,
  some, true, false, false≢true, not, &&_iff, ◌==◌, Bool-cases, Option-cases, lt-length, inl, inr,
  ==_iff, ne→==, max, bitwise, bit_or, length, length-set, get_elem?, set, get_elem?-set_self,
  get_elem?-set_ne, arith,
}
use temnion.Core.{EntityId}
use temnion.Index.{
  EntityBloomFilter, hash_entity, seeds, bit_at, byte_or_zero, set_bit, test_bit, insert_at,
  all_set, bloom_insert, may_contain,
}

bit_at-small : (k byte : ℕ) → bit_at k byte ≤ 1
unfolding bit_at
bit_at-small zero byte = omega arith
bit_at-small (suc k) byte = bit_at-small k (byte / 2)

-- A bit of the disjunction of two bytes.
bit_at-bitwise :
    (w k a b : ℕ) → k < w → bit_at k (bitwise max w a b) ≡ max (bit_at k a) (bit_at k b)
unfolding bit_at bitwise
bit_at-bitwise zero k a b h = absurd (omega arith)
bit_at-bitwise (suc w) zero a b h = omega arith
bit_at-bitwise (suc w) (suc k) a b h =
    ap (bit_at k) (shifted (max (a % 2) (b % 2)) (bitwise max w (a / 2) (b / 2)) (omega arith))
    ∙ bit_at-bitwise w k (a / 2) (b / 2) (omega arith)
  where
    shifted : (low rest : ℕ) → low < 2 → (low + 2 * rest) / 2 ≡ rest
    shifted low rest h = omega arith

bit_at-power : (k : ℕ) → bit_at k (2 ^ k) ≡ 1
unfolding bit_at
bit_at-power zero = refl
bit_at-power (suc k) = ap (bit_at k) (halved k) ∙ bit_at-power k
  where
    halved : (k : ℕ) → 2 ^ suc k / 2 ≡ 2 ^ k
    halved k = omega arith

zero_bit : (k : ℕ) → (bit_at k 0 == 0) ≡ true
unfolding bit_at
zero_bit zero = refl
zero_bit (suc k) = zero_bit k

-- A set bit is found again, and no write clears one.
set_bit_self :
    (idx : ℕ) (bits : List ℕ) → idx < 8 * length bits → test_bit idx (set_bit idx bits) ≡ true
unfolding set_bit test_bit bit_or
set_bit_self idx bits h =
    let byte = byte_or_zero (get_elem? bits (idx / 8)) in
    let k = idx % 8 in
    let read : byte_or_zero (get_elem? (set bits (idx / 8) (bitwise max 8 byte (2 ^ k))) (idx / 8))
        ≡ bitwise max 8 byte (2 ^ k) =
      ap byte_or_zero
        (get_elem?-set_self bits (idx / 8) (bitwise max 8 byte (2 ^ k)) (omega arith)) in
    let one : 1 ≤ bit_at k (bitwise max 8 byte (2 ^ k)) =
      omega (arith, bit_at-bitwise 8 k byte (2 ^ k) (omega arith), bit_at-power k) in
    ap (λ b. not (bit_at k b == 0)) read ∙ ap not (ne→== _ 0 (λ e. absurd (omega (arith, one, e))))

set_bit-keeps :
    (idx j : ℕ) (bits : List ℕ) → test_bit j bits ≡ true → test_bit j (set_bit idx bits) ≡ true
unfolding set_bit test_bit bit_or
set_bit-keeps idx j bits h = elim (Bool-cases (idx / 8 == j / 8)) [
  | inr other ↦
      ap (λ o. not (bit_at (j % 8) (byte_or_zero o) == 0))
        (get_elem?-set_ne bits _ (λ e. ground (arith, other, e)))
      ∙ h
  | inl same ↦ elim (Bool-cases (bit_at (j % 8) (byte_or_zero (get_elem? bits (j / 8))) == 0)) [
    | inl clear ↦ absurd (false≢true (sym (ap not clear) ∙ h))
    | inr isset ↦ in_byte ((==_iff (idx / 8) (j / 8)).0 same) isset
  ]
]
  where
    in_byte :
        idx / 8 ≡ j / 8
        → (bit_at (j % 8) (byte_or_zero (get_elem? bits (j / 8))) == 0) ≡ false
        → test_bit j (set_bit idx bits) ≡ true
    in_byte e isset = elim (Option-cases (get_elem? bits (j / 8))) [
      | inl gone ↦ absurd (
          false≢true
            (sym isset ∙ ap (λ o. bit_at (j % 8) (byte_or_zero o) == 0) gone ∙ zero_bit (j % 8)))
      | inr (byte, there) ↦
          let old = byte_or_zero (get_elem? bits (idx / 8)) in
          let written = bitwise max 8 old (2 ^ (idx % 8)) in
          let at : get_elem? (set bits (idx / 8) written) (j / 8) ≡ some written =
            ap (get_elem? (set bits (idx / 8) written)) (sym e)
            ∙ get_elem?-set_self bits (idx / 8) written
                (omega (arith, lt-length bits (j / 8) there, e)) in
          let old_is : old ≡ byte_or_zero (get_elem? bits (j / 8)) =
            ap (λ i. byte_or_zero (get_elem? bits i)) e in
          let bit_set : bit_at (j % 8) (byte_or_zero (get_elem? bits (j / 8))) ≢ 0 =
            λ z. false≢true (sym isset ∙ ap (λ n. n == 0) z) in
          ap (λ o. not (bit_at (j % 8) (byte_or_zero o) == 0)) at
          ∙ ap not (
              ne→== _ 0 (λ z. bit_set (
                omega (
                  arith,
                  z,
                  bit_at-bitwise 8 (j % 8) old (2 ^ (idx % 8)) (omega arith),
                  ap (bit_at (j % 8)) old_is,
                ))))
    ]

length-set_bit : (idx : ℕ) (bits : List ℕ) → length (set_bit idx bits) ≡ length bits
unfolding set_bit
length-set_bit idx bits = length-set bits (idx / 8) _

insert_at-keeps :
    (entity : EntityId) (seeds : List ℕ) (j : ℕ) (bits : List ℕ)
    → test_bit j bits ≡ true
    → test_bit j (insert_at entity seeds bits) ≡ true
unfolding insert_at
insert_at-keeps entity [] j bits h = h
insert_at-keeps entity (seed ∷ seeds) j bits h =
    insert_at-keeps entity seeds j (set_bit (hash_entity entity seed) bits)
      (set_bit-keeps (hash_entity entity seed) j bits h)

all_set-insert_at_other :
    (entity other : EntityId) (seeds inserted : List ℕ) (bits : List ℕ)
    → all_set other seeds bits ≡ true
    → all_set other seeds (insert_at entity inserted bits) ≡ true
unfolding all_set
all_set-insert_at_other entity other [] inserted bits h = refl
all_set-insert_at_other entity other (seed ∷ seeds) inserted bits h =
    let (first, rest) =
      (&&_iff (test_bit (hash_entity other seed) bits) (all_set other seeds bits)).0 h in
    (&&_iff _ _).1 (
      insert_at-keeps entity inserted (hash_entity other seed) bits first,
      all_set-insert_at_other entity other seeds inserted bits rest,
    )

hash_entity-small : (entity : EntityId) (seed : ℕ) → hash_entity entity seed < 512
unfolding hash_entity
hash_entity-small entity seed = omega arith

all_set-insert_at :
    (entity : EntityId) (seeds : List ℕ) (bits : List ℕ)
    → length bits ≡ 64
    → all_set entity seeds (insert_at entity seeds bits) ≡ true
unfolding all_set insert_at
all_set-insert_at entity [] bits size = refl
all_set-insert_at entity (seed ∷ seeds) bits size =
    let idx = hash_entity entity seed in
    let bits' = set_bit idx bits in
    (&&_iff _ _).1 (
      insert_at-keeps entity seeds idx bits'
          (set_bit_self idx bits (omega (arith, hash_entity-small entity seed, size))),
      all_set-insert_at entity seeds bits' (length-set_bit idx bits ∙ size),
    )

pub length-insert_at :
    (entity : EntityId) (seeds : List ℕ) (bits : List ℕ)
    → length (insert_at entity seeds bits) ≡ length bits
unfolding insert_at
length-insert_at entity [] bits = refl
length-insert_at entity (seed ∷ seeds) bits =
    length-insert_at entity seeds (set_bit (hash_entity entity seed) bits)
    ∙ length-set_bit (hash_entity entity seed) bits

pub may_contain-bloom_insert :
    (entity : EntityId) (bloom : EntityBloomFilter)
    → length bloom.bits ≡ 64
    → may_contain (bloom_insert entity bloom) entity ≡ true
may_contain-bloom_insert entity bloom size = all_set-insert_at entity seeds bloom.bits size

pub may_contain-bloom_insert_other :
    (entity other : EntityId) (bloom : EntityBloomFilter)
    → may_contain bloom other ≡ true
    → may_contain (bloom_insert entity bloom) other ≡ true
may_contain-bloom_insert_other entity other bloom h =
    all_set-insert_at_other entity other seeds seeds bloom.bits h
