-- ===== src/Codec/Tokens.antt =====
-- The encoder of `RleCodec` of crates/temnion-codec/src/lib.rs: what one turn of its loop pushes.
use temnion.Prelude.{
  ℕ, zero, suc, ◌≤◌, ◌≡◌, ◌≢◌, refl, ap, ap₂, sym, List, [], ◌∷◌, ◌++◌, true, false, length, drop,
  arith, Bool-cases, inl, inr, leb, leb→le, &&_iff, false≢true, ◌==◌, ==_iff,
}
use temnion.Codec.Rle.{
  run_after, starts_run, literal_len, run_token, literal_token, token, replicate,
}

pub length-replicate : (n b : ℕ) → length (replicate n b) ≡ n
unfolding replicate
length-replicate zero b = refl
length-replicate (suc n) b = ap suc (length-replicate n b)

-- The counted run is there, and no longer than the room.
record RunAfter (b room : ℕ) (rest : List ℕ) : Type 0 where
  fits : run_after b room rest ≤ room
  inside : run_after b room rest ≤ length rest
  repeats : replicate (run_after b room rest) b ++ drop (run_after b room rest) rest ≡ rest

run_after_lem : (b room : ℕ) (rest : List ℕ) → RunAfter b room rest
unfolding run_after replicate
run_after_lem b zero rest = record { fits = omega arith; inside = omega arith; repeats = refl }
run_after_lem b (suc room) [] = record { fits = omega arith; inside = omega arith; repeats = refl }
run_after_lem b (suc room) (c ∷ rest) =
    let r = run_after_lem b room rest in
    elim (Bool-cases (c == b)) [
      | inl same ↦ record {
        fits = rw same (omega (arith, r.fits));
        inside = rw same (omega (arith, r.inside));
        repeats = rw same (ap₂ ◌∷◌ (sym ((==_iff c b).0 same)) r.repeats);
      }
      | inr other ↦ record {
        fits = rw other (omega arith);
        inside = rw other (omega arith);
        repeats = rw other;
      }
    ]

record Literals (room : ℕ) (rest : List ℕ) : Type 0 where
  fits : literal_len room rest ≤ room
  inside : literal_len room rest ≤ length rest

literal_len_lem : (room : ℕ) (rest : List ℕ) → Literals room rest
unfolding literal_len
literal_len_lem zero rest = record { fits = omega arith; inside = omega arith }
literal_len_lem (suc room) [] = record { fits = omega arith; inside = omega arith }
literal_len_lem (suc room) (b ∷ rest) =
    let r = literal_len_lem room rest in
    elim (Bool-cases (starts_run (b ∷ rest))) [
      | inl run ↦ record { fits = rw run (omega arith); inside = rw run (omega arith) }
      | inr none ↦ record {
        fits = rw none (omega (arith, r.fits));
        inside = rw none (omega (arith, r.inside));
      }
    ]

equal_sym : (a b : ℕ) → (a == b) ≡ true → (b == a) ≡ true
equal_sym a b h = ground arith

-- Where a run of three begins, it is counted.
run_counted :
    (b room : ℕ) (rest : List ℕ)
    → starts_run (b ∷ rest) ≡ true
    → 2 ≤ run_after b (suc (suc room)) rest
unfolding starts_run run_after
run_counted b room [] h = absurd (false≢true h)
run_counted b room (c ∷ []) h = absurd (false≢true h)
run_counted b room (c ∷ d ∷ rest) h =
    let (first, second) = (&&_iff (b == c) (b == d)).0 h in
    rw (equal_sym b c first, equal_sym b d second) (omega arith)

literal_len_pos :
    (b room : ℕ) (rest : List ℕ)
    → starts_run (b ∷ rest) ≡ false
    → 1 ≤ literal_len (suc room) (b ∷ rest)
unfolding literal_len
literal_len_pos b room rest h = rw h (omega arith)

-- What one turn of the encoder does: it moves on, within the input, by at most 130 bytes, and
-- pushes a run or as many literals.
pub data Token (b : ℕ) (rest : List ℕ) : List ℕ × ℕ → Type 0 where
  run :
      (n : ℕ)
      → 3 ≤ n
      → n ≤ 130
      → n ≤ length (b ∷ rest)
      → replicate n b ++ drop n (b ∷ rest) ≡ b ∷ rest
      → Token b rest (run_token b n, n)
  literals :
      (n : ℕ)
      → 1 ≤ n
      → n ≤ 128
      → n ≤ length (b ∷ rest)
      → Token b rest (literal_token n (b ∷ rest), n)

no_run :
    (b : ℕ) (rest : List ℕ)
    → leb 3 (suc (run_after b 129 rest)) ≡ false
    → starts_run (b ∷ rest) ≡ false
no_run b rest h = elim (Bool-cases (starts_run (b ∷ rest))) [
  | inl begins ↦ absurd (too_short (run_after b 129 rest) (run_counted b 127 rest begins) h)
  | inr none ↦ none
]
  where
    too_short : (k : ℕ) → 2 ≤ k → leb 3 (suc k) ≢ false
    too_short k l e = ground arith

pub token_lem : (b : ℕ) (rest : List ℕ) → Token b rest (token b rest)
unfolding token replicate
token_lem b rest =
    let r = run_after_lem b 129 rest in
    let l = literal_len_lem 128 (b ∷ rest) in
    elim (Bool-cases (leb 3 (suc (run_after b 129 rest)))) [
      | inl long ↦ rw long (
          run (suc (run_after b 129 rest)) (leb→le 3 _ long) (omega (arith, r.fits))
            (omega (arith, r.inside)) (ap (◌∷◌ b) r.repeats))
      | inr short ↦ rw short (
          literals (literal_len 128 (b ∷ rest)) (literal_len_pos b 127 rest (no_run b rest short))
            l.fits l.inside)
    ]
