-- ===== src/Codec/Total.antt =====
-- The decoders of crates/temnion-codec/src/lib.rs that no bytes can make panic.
use temnion.Prelude.{
  sub_slice, sub_slice-no_panic, and_then-ok, ◌++◌, ℕ, zero, suc, ◌+◌, ◌%◌, ◌≤◌, ◌≡◌, ◌≢◌, ap, sym,
  ◌∙◌, List, [], ◌∷◌, Bool, ok, panic, and_then-no_panic, ok≢panic, err≢panic, length, length-drop,
  drop, arith, Bool-cases, inl, inr, ltb, leb, not_ltb→le, ◌==◌, cond_true, err≢ok, ok_injective,
  cond_false,
}
use temnion.Codec.{
  CodecId, CodecError, from_u8, codec_eq, verify_frame, verify_id, verify_version, verify_len,
  verify_body, verify_sums, reserve_exact, decode, raw, rle, codec_header_len, bytes_eq,
  codec_magic,
}
use temnion.Codec.Rle
use temnion.Codec.BitPack
use temnion.Codec.Rle.{
  decode_run, decode_literals, decode_token, decode_from, check_len, decode_body,
}
use temnion.Codec.Slices.{if-no_panic, both-no_panic, reserve_exact-no_panic, verify_frame-no_panic}

-- A turn of the decoder's loop does not panic, and leaves no more to read.
decode_run-no_panic : (expected n : ℕ) (rest out : List ℕ) → decode_run expected n rest out ≢ panic
unfolding decode_run
decode_run-no_panic expected n [] out = err≢panic
decode_run-no_panic expected n (b ∷ rest) out =
    both-no_panic (ltb expected (length out + n)) _ _ err≢panic ok≢panic

decode_literals-no_panic :
    (expected n : ℕ) (rest out : List ℕ) → decode_literals expected n rest out ≢ panic
unfolding decode_literals
decode_literals-no_panic expected n rest out = if-no_panic (ltb (length rest) n) _ _ (λ whole.
    both-no_panic (ltb expected (length out + n)) _ _ err≢panic (
      and_then-no_panic (sub_slice 0 n rest) _
        (sub_slice-no_panic 0 n rest (omega arith) (not_ltb→le (length rest) n whole))
        (λ literals _. ok≢panic)))

decode_token-no_panic :
    (expected tag : ℕ) (rest out : List ℕ) → decode_token expected tag rest out ≢ panic
unfolding decode_token
decode_token-no_panic expected tag rest out =
    both-no_panic (leb 128 tag) _ _ (decode_run-no_panic expected (tag % 128 + 3) rest out)
      (decode_literals-no_panic expected (tag + 1) rest out)

decode_run-shorter :
    (expected n : ℕ) (rest out : List ℕ) {r : List ℕ × List ℕ}
    → decode_run expected n rest out ≡ ok r
    → length r.0 ≤ length rest
unfolding decode_run
decode_run-shorter expected n [] out e = absurd (err≢ok e)
decode_run-shorter expected n (b ∷ rest) out e = elim (Bool-cases (ltb expected (length out + n))) [
  | inl long ↦ absurd (err≢ok (sym (cond_true _ _ long) ∙ e))
  | inr fits ↦
      let same = ok_injective (sym (cond_false _ _ fits) ∙ e) in
      omega (arith, ap (λ r. length r.0) same)
]

decode_literals-shorter :
    (expected n : ℕ) (rest out : List ℕ) {r : List ℕ × List ℕ}
    → decode_literals expected n rest out ≡ ok r
    → length r.0 ≤ length rest
unfolding decode_literals
decode_literals-shorter expected n rest out e = elim (Bool-cases (ltb (length rest) n)) [
  | inl short ↦ absurd (err≢ok (sym (cond_true _ _ short) ∙ e))
  | inr whole ↦ elim (Bool-cases (ltb expected (length out + n))) [
    | inl long ↦ absurd (err≢ok (sym (cond_false _ _ whole ∙ cond_true _ _ long) ∙ e))
    | inr fits ↦
        let (literals, _, last) =
          and_then-ok (sub_slice 0 n rest) (λ literals. ok (drop n rest, out ++ literals))
            (sym (cond_false _ _ whole ∙ cond_false _ _ fits) ∙ e) in
        let same = ok_injective last in omega (arith, ap (λ r. length r.0) same, length-drop n rest)
  ]
]

decode_token-shorter :
    (expected tag : ℕ) (rest out : List ℕ) {r : List ℕ × List ℕ}
    → decode_token expected tag rest out ≡ ok r
    → length r.0 ≤ length rest
unfolding decode_token
decode_token-shorter expected tag rest out e = elim (Bool-cases (leb 128 tag)) [
  | inl top ↦ decode_run-shorter expected _ rest out (sym (cond_true _ _ top) ∙ e)
  | inr low ↦ decode_literals-shorter expected _ rest out (sym (cond_false _ _ low) ∙ e)
]

decode_from-no_panic :
    (fuel expected : ℕ) (rest out : List ℕ)
    → length rest ≤ fuel
    → decode_from fuel expected rest out ≢ panic
unfolding decode_from
decode_from-no_panic fuel expected [] out h = ok≢panic
decode_from-no_panic zero expected (tag ∷ rest) out h = absurd (omega arith)
decode_from-no_panic (suc fuel) expected (tag ∷ rest) out h =
    and_then-no_panic (decode_token expected tag rest out) (λ r. decode_from fuel expected r.0 r.1)
      (decode_token-no_panic expected tag rest out)
      (λ r e.
        decode_from-no_panic fuel expected r.0 r.1
          (omega (arith, decode_token-shorter expected tag rest out e)))

decode_body-no_panic : (expected : ℕ) (body : List ℕ) → decode_body expected body ≢ panic
unfolding decode_body check_len
decode_body-no_panic expected body =
    and_then-no_panic (decode_from (length body) expected body []) (check_len expected)
      (decode_from-no_panic (length body) expected body [] (omega arith))
      (λ out _. both-no_panic (length out == expected) _ _ ok≢panic err≢panic)

-- `RleCodec` decodes any bytes to an output or an error: it does not panic, every index and slice
-- being within range, and its loop ends within as many turns as the body has bytes.
pub rle-no_panic :
    (hash : List ℕ → ℕ) (grants : ℕ → Bool) (compressed : List ℕ) (expected : ℕ)
    → temnion.Codec.Rle.decode hash grants compressed expected ≢ panic
unfolding temnion.Codec.Rle.decode
rle-no_panic hash grants compressed expected =
    and_then-no_panic (verify_frame hash rle compressed expected) _
      (verify_frame-no_panic hash rle compressed expected)
      (λ body _.
        and_then-no_panic (reserve_exact grants expected) _ (reserve_exact-no_panic grants expected)
          (λ _ _. decode_body-no_panic expected body))
