-- ===== src/Codec/Rle.antt =====
-- `RleCodec` of crates/temnion-codec/src/lib.rs. A rest of the input or of the body stands for the
-- index `i` into it.
use temnion.Prelude.{
  ℕ, zero, suc, ◌+◌, ◌-◌, ◌%◌, List, [], ◌∷◌, ◌++◌, Bool, false, Outcome, ok, err, panic, and_then,
  length, take, drop, sub_slice, if◌then◌else◌, ltb, leb, ◌&&◌, ◌==◌, as_u8,
}
use temnion.Codec.{
  CodecError, invalid_data, length_mismatch, truncated_run, run_too_long, truncated_literals,
  literals_too_long, frame_compressed, verify_frame, reserve_exact, rle,
}

-- How many bytes equal to `b` follow, at most `room`.
unfoldable pub run_after : ℕ → ℕ → List ℕ → ℕ
run_after b zero rest = 0
run_after b (suc room) [] = 0
run_after b (suc room) (c ∷ rest) = if c == b then suc (run_after b room rest) else 0

-- A run of three begins here.
unfoldable pub starts_run : List ℕ → Bool
starts_run (a ∷ b ∷ c ∷ rest) = a == b && a == c
starts_run _ = false

-- How many literals the loop collects, at most `room`.
unfoldable pub literal_len : ℕ → List ℕ → ℕ
literal_len zero rest = 0
literal_len (suc room) [] = 0
literal_len (suc room) (b ∷ rest) = if starts_run (b ∷ rest) then 0 else suc (literal_len room rest)

abbrev pub run_token : ℕ → ℕ → List ℕ
run_token b run_len = (128 + as_u8 (run_len - 3) % 128) ∷ b ∷ []

abbrev pub literal_token : ℕ → List ℕ → List ℕ
literal_token lit_len rest = as_u8 (lit_len - 1) ∷ take lit_len rest

-- One turn of the outer loop: the bytes it pushes, and how far it moves `i`.
unfoldable pub token : ℕ → List ℕ → List ℕ × ℕ
token b rest =
    let run_len = suc (run_after b 129 rest) in
    let lit_len = literal_len 128 (b ∷ rest) in
    if leb 3 run_len
    then (run_token b run_len, run_len)
    else (literal_token lit_len (b ∷ rest), lit_len)

-- The outer loop, which ends within as many turns as the input has bytes.
unfoldable pub encode_from : ℕ → List ℕ → List ℕ
encode_from zero rest = []
encode_from (suc fuel) [] = []
encode_from (suc fuel) (b ∷ rest) =
    (token b rest).0 ++ encode_from fuel (drop (token b rest).1 (b ∷ rest))

unfoldable pub replicate : ℕ → ℕ → List ℕ
replicate zero b = []
replicate (suc n) b = b ∷ replicate n b

-- One turn of the decoder's loop: the rest of the body, and the output.
unfoldable pub decode_run : ℕ → ℕ → List ℕ → List ℕ → Outcome CodecError (List ℕ × List ℕ)
decode_run expected_len run_len [] out = err (invalid_data truncated_run)
decode_run expected_len run_len (b ∷ rest) out =
    if ltb expected_len (length out + run_len)
    then err (invalid_data run_too_long)
    else ok (rest, out ++ replicate run_len b)

unfoldable pub decode_literals : ℕ → ℕ → List ℕ → List ℕ → Outcome CodecError (List ℕ × List ℕ)
decode_literals expected_len lit_len rest out =
    if ltb (length rest) lit_len
    then err (invalid_data truncated_literals)
    else if ltb expected_len (length out + lit_len)
    then err (invalid_data literals_too_long)
    else and_then (sub_slice 0 lit_len rest) (λ literals. ok (drop lit_len rest, out ++ literals))

-- The tag is a byte: its top bit tells a run from literals.
unfoldable pub decode_token : ℕ → ℕ → List ℕ → List ℕ → Outcome CodecError (List ℕ × List ℕ)
decode_token expected_len tag rest out =
    if leb 128 tag
    then decode_run expected_len (tag % 128 + 3) rest out
    else decode_literals expected_len (tag + 1) rest out

-- The loop; without fuel it stands still, which the model shows as a panic.
unfoldable pub decode_from : ℕ → ℕ → List ℕ → List ℕ → Outcome CodecError (List ℕ)
decode_from fuel expected_len [] out = ok out
decode_from zero expected_len (tag ∷ rest) out = panic
decode_from (suc fuel) expected_len (tag ∷ rest) out =
    and_then (decode_token expected_len tag rest out)
      (λ (rest, out). decode_from fuel expected_len rest out)

unfoldable pub check_len : ℕ → List ℕ → Outcome CodecError (List ℕ)
check_len expected_len out =
    if length out == expected_len then ok out else err (length_mismatch expected_len (length out))

unfoldable pub decode_body : ℕ → List ℕ → Outcome CodecError (List ℕ)
decode_body expected_len body =
    and_then (decode_from (length body) expected_len body []) (check_len expected_len)

module _ (hash : List ℕ → ℕ) (grants : ℕ → Bool) where
  unfoldable pub encode : List ℕ → Outcome CodecError (List ℕ)
  encode input = frame_compressed hash grants rle (length input) (encode_from (length input) input)

  unfoldable pub decode : List ℕ → ℕ → Outcome CodecError (List ℕ)
  decode compressed expected_len =
      and_then (verify_frame hash rle compressed expected_len)
        (λ body. and_then (reserve_exact grants expected_len) (λ _. decode_body expected_len body))
