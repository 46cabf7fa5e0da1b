-- ===== src/Codec/Winner.antt =====
-- `CodecScorer::select_best` of crates/temnion-codec/src/lib.rs: the winner is lossless, and no
-- larger than the raw baseline.
use temnion.Prelude.{
  ℕ, suc, ◌<◌, ◌≡◌, ◌⊎◌, inl, inr, refl, ap, ap₂, subst, sym, ◌∙◌, Bool, true, false, not, Option,
  none, some, some-injective, List, [], ◌∷◌, ok, and_then-ok, length, ltb, ltb→lt, ◌==◌, ==_iff,
  &&_iff, Bool-cases, err≢ok, ok_injective, ended, returned, failed, panicked, panic≢ok, cond_true,
  cond_false, get_elem?, some≢none, false≢true,
}
use temnion.Codec.{CodecId, raw, bytes_eq, codec_eq}
use temnion.Codec.Scorer.{
  CodecEvaluation, Codec, evaluation, evaluate_candidate, keep, evaluate_all, find_raw,
  smaller_than, least_score, winner_of, winner, ok_or_missing, select_best, codecs,
}

not-false : (b : Bool) → not b ≡ false → b ≡ true
not-false true h = refl
not-false false h = sym h

bytes_eq_lem : (xs ys : List ℕ) → bytes_eq xs ys ≡ true → xs ≡ ys
bytes_eq_lem [] [] h = refl
bytes_eq_lem [] (y ∷ ys) h = absurd (false≢true h)
bytes_eq_lem (x ∷ xs) [] h = absurd (false≢true h)
bytes_eq_lem (x ∷ xs) (y ∷ ys) h =
    let (first, rest) = (&&_iff (x == y) (bytes_eq xs ys)).0 h in
    ap₂ ◌∷◌ ((==_iff x y).0 first) (bytes_eq_lem xs ys rest)

-- What an evaluation says of an input and one of the codecs.
pub record Verified (input : List ℕ) (all : List Codec) (e : CodecEvaluation) : Type 0 where
  pub codec : Codec
  pub place : ℕ
  pub listed : get_elem? all place ≡ some codec
  pub compressed : List ℕ
  pub same_id : e.codec ≡ codec.id
  pub encodes : codec.encode input ≡ ok compressed
  pub decodes : codec.decode compressed (length input) ≡ ok input
  pub size : e.compressed_bytes ≡ length compressed

All : (CodecEvaluation → Type 0) → List CodecEvaluation → Type 0
All P [] = Unit
All P (e ∷ evaluations) = P e × All P evaluations

module _ (P : CodecEvaluation → Type 0) where
  smaller_than-All :
      (raw_eval : CodecEvaluation) (es : List CodecEvaluation)
      → All P es
      → All (λ e. P e × (e.compressed_bytes < raw_eval.compressed_bytes)) (smaller_than raw_eval es)
  unfolding All smaller_than
  smaller_than-All raw_eval [] h = tt
  smaller_than-All raw_eval (e ∷ es) (p, h) =
      elim (Bool-cases (ltb e.compressed_bytes raw_eval.compressed_bytes)) [
        | inl less ↦ rw less ((p, ltb→lt _ _ less), smaller_than-All raw_eval es h)
        | inr other ↦ rw other (smaller_than-All raw_eval es h)
      ]

  least_score-All :
      (best : CodecEvaluation) (es : List CodecEvaluation)
      → P best
      → All P es
      → P (least_score best es)
  unfolding All least_score
  least_score-All best [] p h = p
  least_score-All best (e ∷ es) p (q, h) = elim (Bool-cases (ltb e.score best.score)) [
    | inl less ↦ rw less (least_score-All e es q h)
    | inr other ↦ rw other (least_score-All best es p h)
  ]

  find_raw-All :
      (es : List CodecEvaluation) {e : CodecEvaluation} → All P es → find_raw es ≡ some e → P e
  unfolding All find_raw
  find_raw-All [] h same = absurd (some≢none (sym same))
  find_raw-All (x ∷ es) {e} (p, h) same = elim (Bool-cases (codec_eq x.codec raw)) [
    | inl found ↦ subst P (some-injective x e (sym (cond_true _ _ found) ∙ same)) p
    | inr other ↦ find_raw-All es h (sym (cond_false _ _ other) ∙ same)
  ]

module _ (score : CodecId → List ℕ → ℕ) (input : List ℕ) where
  evaluate_candidate-Verified :
      (codec : Codec) (all : List Codec) (k : ℕ) {e : CodecEvaluation}
      → get_elem? all k ≡ some codec
      → evaluate_candidate score codec input ≡ ok e
      → Verified input all e
  unfolding evaluate_candidate evaluation
  evaluate_candidate-Verified codec all k {e} at run =
      let (compressed, encoded, next) = and_then-ok (codec.encode input) _ run in
      let (decoded, back, last) = and_then-ok (codec.decode compressed (length input)) _ next in
      elim (Bool-cases (not (bytes_eq decoded input))) [
        | inl corrupted ↦ absurd (err≢ok (sym (cond_true _ _ corrupted) ∙ last))
        | inr fine ↦
            let is = ok_injective (sym (cond_false _ _ fine) ∙ last) in
            record {
              codec = codec;
              place = k;
              listed = at;
              compressed = compressed;
              same_id = sym (ap CodecEvaluation.codec is);
              encodes = encoded;
              decodes = back ∙ ap ok (bytes_eq_lem decoded input (not-false _ fine));
              size = sym (ap CodecEvaluation.compressed_bytes is);
            }
      ]

  evaluate_all-Verified :
      (cs all : List Codec) {es : List CodecEvaluation}
      → ((j : ℕ) (c : Codec) → get_elem? cs j ≡ some c → (k : ℕ) × (get_elem? all k ≡ some c))
      → evaluate_all score cs input ≡ ok es
      → All (Verified input all) es
  unfolding evaluate_all All keep
  evaluate_all-Verified [] all at run = subst (All (Verified input all)) (ok_injective run) tt
  evaluate_all-Verified (codec ∷ cs) all {es} at run =
      let rest = evaluate_all score cs input in
      let later : (es : List CodecEvaluation) → rest ≡ ok es → All (Verified input all) es =
        λ es ran. evaluate_all-Verified cs all {es = es} (λ j c e. at (suc j) c e) ran in
      elim (ended (evaluate_candidate score codec input)) [
        | returned e is ↦
            let (others, fine, whole) =
              and_then-ok rest (λ es. ok (e ∷ es)) (sym (ap (λ r. keep r rest) is) ∙ run) in
            let (k, found) = at 0 codec refl in
            subst (All (Verified input all)) (ok_injective whole)
              (evaluate_candidate-Verified codec all k found is, later others fine)
        | failed e is ↦ later es (sym (ap (λ r. keep r rest) is) ∙ run)
        | panicked is ↦ absurd (panic≢ok (sym (ap (λ r. keep r rest) is) ∙ run))
      ]

find_raw-raw :
    (es : List CodecEvaluation) {e : CodecEvaluation}
    → find_raw es ≡ some e
    → codec_eq e.codec raw ≡ true
unfolding find_raw
find_raw-raw [] same = absurd (some≢none (sym same))
find_raw-raw (x ∷ es) {e} same = elim (Bool-cases (codec_eq x.codec raw)) [
  | inl found ↦
      subst (λ x. codec_eq x.codec raw ≡ true)
        (some-injective x e (sym (cond_true _ _ found) ∙ same)) found
  | inr other ↦ find_raw-raw es (sym (cond_false _ _ other) ∙ same)
]

ok_or_missing_inv :
    (o : Option CodecEvaluation) {e : CodecEvaluation} → ok_or_missing o ≡ ok e → o ≡ some e
unfolding ok_or_missing
ok_or_missing_inv none h = absurd (err≢ok h)
ok_or_missing_inv (some x) h = ap some (ok_injective h)

winner_of-All :
    (P : CodecEvaluation → Type 0) (baseline : CodecEvaluation) (es : List CodecEvaluation)
    → P baseline
    → All (λ e. P e × (e.compressed_bytes < baseline.compressed_bytes)) es
    → P (winner_of baseline es)
      × ((winner_of baseline es ≡ baseline)
          ⊎ ((winner_of baseline es).compressed_bytes < baseline.compressed_bytes))
unfolding winner_of All
winner_of-All P baseline [] p h = (p, inl refl)
winner_of-All P baseline (e ∷ es) p (q, h) =
    let (fine, less) = least_score-All _ e es q h in (fine, inr less)

winner-Verified :
    {P : CodecEvaluation → Type 0} (es : List CodecEvaluation) {w : CodecEvaluation}
    → All P es
    → winner es ≡ ok w
    → P w
      × ((baseline : CodecEvaluation) × P baseline
          × (codec_eq baseline.codec raw ≡ true)
          × ((w ≡ baseline) ⊎ (w.compressed_bytes < baseline.compressed_bytes)))
unfolding winner
winner-Verified {P} es {w} h run =
    let (baseline, found, won) =
      and_then-ok (ok_or_missing (find_raw es))
        (λ raw_eval. ok (winner_of raw_eval (smaller_than raw_eval es))) run in
    let there = ok_or_missing_inv (find_raw es) found in
    let p = find_raw-All P es h there in
    let (fine, less) =
      winner_of-All P baseline (smaller_than baseline es) p (smaller_than-All P baseline es h) in
    let same = ok_injective won in
    (
      subst P same fine,
      (
        baseline,
        p,
        find_raw-raw es there,
        subst (λ w. (w ≡ baseline) ⊎ (w.compressed_bytes < baseline.compressed_bytes)) same less,
      ),
    )

-- Where `select_best` returns an evaluation, it is of one of the five codecs, which encodes the
-- input in as many bytes as it says and decodes these to the input; and it is the evaluation of the
-- raw baseline or says strictly fewer bytes than that.
pub select_best-Verified :
    (hash : List ℕ → ℕ) (grants : ℕ → Bool) (score : CodecId → List ℕ → ℕ) (input : List ℕ)
    {w : CodecEvaluation}
    → select_best hash grants score input ≡ ok w
    → Verified input (codecs hash grants) w
      × ((baseline : CodecEvaluation) × Verified input (codecs hash grants) baseline
          × (codec_eq baseline.codec raw ≡ true)
          × ((w ≡ baseline) ⊎ (w.compressed_bytes < baseline.compressed_bytes)))
unfolding select_best
select_best-Verified hash grants score input {w} run =
    let (es, ran, won) = and_then-ok (evaluate_all score (codecs hash grants) input) winner run in
    winner-Verified es
      (evaluate_all-Verified score input (codecs hash grants) (codecs hash grants) (λ j c e. (j, e))
        ran)
      won
