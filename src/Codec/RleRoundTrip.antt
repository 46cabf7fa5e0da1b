-- ===== src/Codec/RleRoundTrip.antt =====
-- `RleCodec` of crates/temnion-codec/src/lib.rs: decoding gives back what was encoded, and no bytes
-- make the decoder panic.
use temnion.Prelude.{
  and_then-sub_slice, ap₂, ℕ, zero, suc, ◌+◌, ◌-◌, ◌%◌, ◌≤◌, ◌≡◌, refl, ap, sym, ◌∙◌, List, [], ◌∷◌,
  ◌++◌, append_assoc, append-nil, Bool, true, false, ok, and_then, length, length-append, take,
  drop, arith, leb, le→not_ltb, ==-self, as_u8, length-take_le, length-drop, take-append-drop,
  take-append_left, take-all,
}
use temnion.Codec.Rle
use temnion.Codec.{CodecError, verify_frame, reserve_exact, rle}
use temnion.Codec.Frame.{IsChecksum, verify_frame-frame_compressed}
use temnion.Codec.Rle.{
  run_after, starts_run, literal_len, run_token, literal_token, token, encode_from, replicate,
  decode_run, decode_literals, decode_token, decode_from, check_len, decode_body,
}
use temnion.Codec.Tokens.{run, literals, length-replicate, Token, token_lem}

take-replicate :
    (n b : ℕ) (xs : List ℕ) → replicate n b ++ drop n xs ≡ xs → take n xs ≡ replicate n b
take-replicate n b xs e =
    ap (take n) (sym e)
    ∙ take-append_left n (replicate n b) (drop n xs) (omega (arith, length-replicate n b))
    ∙ take-all n (replicate n b) (omega (arith, length-replicate n b))

drop-token : (n : ℕ) (xs ys : List ℕ) → n ≤ length xs → drop n (take n xs ++ ys) ≡ ys
drop-token zero xs ys h = refl
drop-token (suc n) [] ys h = absurd (omega arith)
drop-token (suc n) (x ∷ xs) ys h = drop-token n xs ys (omega arith)

take-token : (n : ℕ) (xs ys : List ℕ) → n ≤ length xs → take n (take n xs ++ ys) ≡ take n xs
take-token zero xs ys h = refl
take-token (suc n) [] ys h = absurd (omega arith)
take-token (suc n) (x ∷ xs) ys h = ap (◌∷◌ x) (take-token n xs ys (omega arith))

run_decodes :
    (expected n b : ℕ) (more out : List ℕ)
    → 3 ≤ n
    → n ≤ 130
    → length out + n ≤ expected
    → decode_token expected (128 + as_u8 (n - 3) % 128) (b ∷ more) out
      ≡ ok (more, out ++ replicate n b)
unfolding decode_token decode_run
run_decodes expected n b more out l h fits =
    let tag : leb 128 (128 + as_u8 (n - 3) % 128) ≡ true = ground arith in
    let size : (128 + as_u8 (n - 3) % 128) % 128 + 3 ≡ n = omega arith in
    rw (tag, size, le→not_ltb _ _ fits)

literals_decode :
    (expected n : ℕ) (xs more out : List ℕ)
    → 1 ≤ n
    → n ≤ 128
    → n ≤ length xs
    → length out + n ≤ expected
    → decode_token expected (as_u8 (n - 1)) (take n xs ++ more) out ≡ ok (more, out ++ take n xs)
unfolding decode_token decode_literals
literals_decode expected n xs more out l h inside fits =
    let tag : leb 128 (as_u8 (n - 1)) ≡ false = ground arith in
    let size : as_u8 (n - 1) + 1 ≡ n = omega arith in
    let from_zero : n - 0 ≡ n = omega arith in
    let whole : n ≤ length (take n xs ++ more) =
      omega (arith, length-append (take n xs) more, length-take_le n xs inside) in
    rw (tag, size, le→not_ltb _ _ whole, le→not_ltb _ _ fits)
      (and_then-sub_slice 0 n (take n xs ++ more) _ (omega arith) whole
        ∙ ap₂ (λ d t. ok (d, out ++ t)) (drop-token n xs more inside)
            (ap (λ k. take k (take n xs ++ more)) from_zero ∙ take-token n xs more inside))

-- One turn of the decoder undoes one turn of the encoder.
token_decodes :
    (expected fuel b : ℕ) (rest more out : List ℕ) (t : List ℕ × ℕ)
    → Token b rest t
    → length out + t.1 ≤ expected
    → decode_from (suc fuel) expected (t.0 ++ more) out
      ≡ decode_from fuel expected more (out ++ take t.1 (b ∷ rest))
unfolding decode_from
token_decodes expected fuel b rest more out _ (run n l h inside e) fits =
    ap (λ r. and_then r (λ (rest, out). decode_from fuel expected rest out))
      (run_decodes expected n b more out l h fits)
    ∙ ap (λ bytes. decode_from fuel expected more (out ++ bytes))
        (sym (take-replicate n b (b ∷ rest) e))
token_decodes expected fuel b rest more out _ (literals n l h inside) fits =
    ap (λ r. and_then r (λ (rest, out). decode_from fuel expected rest out))
      (literals_decode expected n (b ∷ rest) more out l h inside fits)

-- How far a token moves, and that it is not empty.
token_moves :
    (b : ℕ) (rest : List ℕ) (t : List ℕ × ℕ)
    → Token b rest t
    → (1 ≤ t.1) × (t.1 ≤ length (b ∷ rest)) × (1 ≤ length t.0)
token_moves b rest _ (run n l h inside e) = (omega arith, inside, omega arith)
token_moves b rest _ (literals n l h inside) = (l, inside, omega arith)

decode_from-nil : (fuel expected : ℕ) (out : List ℕ) → decode_from fuel expected [] out ≡ ok out
unfolding decode_from
decode_from-nil fuel expected out = refl

decode_from-encode_from :
    (m fuel expected : ℕ) (xs out : List ℕ)
    → length xs ≤ m
    → length (encode_from m xs) ≤ fuel
    → length out + length xs ≤ expected
    → decode_from fuel expected (encode_from m xs) out ≡ ok (out ++ xs)
unfolding encode_from
decode_from-encode_from zero fuel expected [] out h f fits =
    decode_from-nil fuel expected out ∙ ap ok (sym (append-nil out))
decode_from-encode_from (suc m) fuel expected [] out h f fits =
    decode_from-nil fuel expected out ∙ ap ok (sym (append-nil out))
decode_from-encode_from zero fuel expected (b ∷ rest) out h f fits = absurd (omega arith)
decode_from-encode_from (suc m) zero expected (b ∷ rest) out h f fits =
    let (moves, inside, pushes) = token_moves b rest (token b rest) (token_lem b rest) in
    absurd (
      omega
        (arith, length-append (token b rest).0 (encode_from m (drop (token b rest).1 (b ∷ rest)))))
decode_from-encode_from (suc m) (suc fuel) expected (b ∷ rest) out h f fits =
    let (bytes, n) = token b rest in
    let (moves, inside, pushes) = token_moves b rest (token b rest) (token_lem b rest) in
    let more = encode_from m (drop n (b ∷ rest)) in
    let len_all = length-append bytes more in
    let len_out = length-append out (take n (b ∷ rest)) in
    let len_take = length-take_le n (b ∷ rest) inside in
    let len_drop = length-drop n (b ∷ rest) in
    token_decodes expected fuel b rest more out (token b rest) (token_lem b rest) (omega arith)
    ∙ decode_from-encode_from m fuel expected (drop n (b ∷ rest)) (out ++ take n (b ∷ rest))
        (omega arith) (omega arith) (omega arith)
    ∙ ap ok (
        append_assoc out (take n (b ∷ rest)) (drop n (b ∷ rest))
        ∙ ap (λ ys. out ++ ys) (take-append-drop n (b ∷ rest)))

-- Under a 32-bit checksum and an allocator that grants the input's length, what `RleCodec` encodes
-- an input to, it decodes to that input.
pub rle-round_trip :
    (hash : List ℕ → ℕ) (IsSum : IsChecksum hash) (grants : ℕ → Bool) (input : List ℕ)
    {out : List ℕ}
    → grants (length input) ≡ true
    → temnion.Codec.Rle.encode hash grants input ≡ ok out
    → temnion.Codec.Rle.decode hash grants out (length input) ≡ ok input
unfolding temnion.Codec.Rle.encode temnion.Codec.Rle.decode reserve_exact decode_body check_len
rle-round_trip hash IsSum grants input g e =
    let n = length input in
    let body = encode_from n input in
    ap (λ r. and_then r (λ body. and_then (reserve_exact grants n) (λ _. decode_body n body)))
      (verify_frame-frame_compressed hash IsSum grants rle n body e)
    ∙ rw (
      g,
      decode_from-encode_from n (length body) n input [] (omega arith) (omega arith) (omega arith),
      ==-self,
    )
