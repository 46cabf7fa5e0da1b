-- ===== src/Codec/DeltaFor.antt =====
-- `DeltaForCodec` of crates/temnion-codec/src/lib.rs: words as offsets from their minimum.
use temnion.Prelude.{
  ℕ, ◌+◌, ◌-◌, ◌*◌, ◌/◌, List, [], ◌∷◌, ◌++◌, Bool, Outcome, ok, err, panic, and_then, expect,
  get_elem?, length, drop, sub_slice, map, if◌then◌else◌, ltb, u64_max, as_u32, to_le_bytes,
  from_le_bytes, bit_length,
}
use temnion.Codec.{
  CodecError, invalid_data, incomplete, width_over_64, frame_compressed, verify_frame,
  reserve_exact, delta_for,
}
use temnion.Codec.Rle.{check_len, replicate}
use temnion.Codec.BitPack.{
  words_of, bytes_of, max_from, packed, unpacked, remainder_at, packed_bytes_len,
}

-- `iter().min()` of a vector that begins with `least`
unfoldable pub min_from : ℕ → List ℕ → ℕ
min_from least [] = least
min_from least (v ∷ values) = min_from (if ltb v least then v else least) values

unfoldable pub encode_values : ℕ → List ℕ → ℕ → List ℕ → List ℕ
encode_values first rest u64_count input =
    let min_val = min_from first rest in
    let offsets = map (λ v. v - min_val) (first ∷ rest) in
    let bits = bit_length 64 (max_from 0 offsets) in
    to_le_bytes 8 min_val
    ++ bits ∷ to_le_bytes 4 (as_u32 u64_count)
    ++ packed 128 bits offsets
    ++ drop (u64_count * 8) input

-- An input of no whole word stands behind thirteen zeros.
unfoldable pub encode_words : List ℕ → ℕ → List ℕ → List ℕ
encode_words [] u64_count input = replicate 13 0 ++ input
encode_words (first ∷ rest) u64_count input = encode_values first rest u64_count input

-- `min_val + offset`, which panics past the largest `u64`.
unfoldable pub add_base : ℕ → List ℕ → Outcome CodecError (List ℕ)
add_base min_val [] = ok []
add_base min_val (offset ∷ offsets) =
    if ltb u64_max (min_val + offset)
    then panic
    else and_then (add_base min_val offsets) (λ values. ok ((min_val + offset) ∷ values))

unfoldable pub decode_values : ℕ → ℕ → ℕ → ℕ → ℕ → List ℕ → Outcome CodecError (List ℕ)
decode_values expected_len min_val bits u64_count remainder_len body =
    let packed_len = packed_bytes_len u64_count bits in
    and_then (and_then (unpacked 128 bits u64_count 13 body) (add_base min_val)) (λ values.
      and_then (remainder_at (13 + packed_len) remainder_len body)
        (λ remainder. check_len expected_len (bytes_of 8 values ++ remainder)))

unfoldable pub decode_counts : (ℕ → Bool) → ℕ → ℕ → ℕ → ℕ → List ℕ → Outcome CodecError (List ℕ)
decode_counts grants expected_len min_val bits u64_count body =
    let remainder_len = expected_len - u64_count * 8 in
    let needed = 13 + packed_bytes_len u64_count bits + remainder_len in
    if ltb (length body) needed
    then err (incomplete needed (length body))
    else and_then (reserve_exact grants expected_len)
        (λ _. decode_values expected_len min_val bits u64_count remainder_len body)

unfoldable pub decode_body : (ℕ → Bool) → ℕ → List ℕ → Outcome CodecError (List ℕ)
decode_body grants expected_len body =
    if ltb (length body) 13
    then err (incomplete 13 (length body))
    else and_then (sub_slice 0 8 body) (λ min_val. and_then (expect (get_elem? body 8)) (λ bits.
      if ltb 64 bits
      then err (invalid_data width_over_64)
      else and_then (sub_slice 9 13 body) (λ count.
        decode_counts grants expected_len (from_le_bytes min_val) bits (from_le_bytes count) body)))

module _ (hash : List ℕ → ℕ) (grants : ℕ → Bool) where
  unfoldable pub encode : List ℕ → Outcome CodecError (List ℕ)
  encode input =
      let u64_count = length input / 8 in
      frame_compressed hash grants delta_for (length input)
        (encode_words (words_of 8 u64_count input) u64_count input)

  unfoldable pub decode : List ℕ → ℕ → Outcome CodecError (List ℕ)
  decode compressed expected_len =
      and_then (verify_frame hash delta_for compressed expected_len)
        (decode_body grants expected_len)
