-- ===== src/Codec/BitPack.antt =====
-- `BitPackCodec` of crates/temnion-codec/src/lib.rs, and the packing of words of a uniform width
-- into bytes that it shares with `DeltaForCodec`.
use temnion.Prelude.{
  ℕ, zero, suc, ◌+◌, ◌-◌, ◌*◌, ◌/◌, ◌%◌, ◌^◌, List, [], ◌∷◌, ◌++◌, Bool, Outcome, ok, err, panic,
  and_then, sub_slice, expect, get_elem?, length, take, drop, if◌then◌else◌, ltb, leb, not, ◌==◌,
  as_u8, as_u32, to_le_bytes, from_le_bytes, bit_or, shift_left, shift_right, bit_length,
}
use temnion.Codec.{
  CodecError, invalid_data, incomplete, width_over_32, inconsistent_count, frame_compressed,
  verify_frame, reserve_exact, bit_pack,
}
use temnion.Codec.Rle.{check_len}

-- The first `count` little-endian words of `size` bytes each.
unfoldable pub words_of : ℕ → ℕ → List ℕ → List ℕ
words_of size zero bytes = []
words_of size (suc count) bytes =
    from_le_bytes (take size bytes) ∷ words_of size count (drop size bytes)

unfoldable pub bytes_of : ℕ → List ℕ → List ℕ
bytes_of size [] = []
bytes_of size (word ∷ words) = to_le_bytes size word ++ bytes_of size words

unfoldable pub max_from : ℕ → List ℕ → ℕ
max_from max_val [] = max_val
max_from max_val (word ∷ words) = max_from (if ltb max_val word then word else max_val) words

-- The whole bytes of the buffer are pushed: those bytes, and the buffer with its count.
unfoldable pub push_bytes : ℕ → ℕ → ℕ → List ℕ × ℕ × ℕ
push_bytes zero bit_buf bit_count = ([], bit_buf, bit_count)
push_bytes (suc fuel) bit_buf bit_count =
    let (bytes, buf, count) = push_bytes fuel (shift_right bit_buf 8) (bit_count - 8) in
    if leb 8 bit_count then (as_u8 bit_buf ∷ bytes, buf, count) else ([], bit_buf, bit_count)

-- The packing loop with a buffer of `w` bits. Each turn of the inner loop takes eight of the
-- counted bits, so that the count is enough fuel.
unfoldable pub pack : ℕ → ℕ → List ℕ → ℕ → ℕ → List ℕ
pack w bits [] bit_buf bit_count = if ltb 0 bit_count then as_u8 bit_buf ∷ [] else []
pack w bits (word ∷ words) bit_buf bit_count =
    let (bytes, buf, count) =
      push_bytes (bit_count + bits) (bit_or w bit_buf (shift_left w word bit_count))
        (bit_count + bits) in
    bytes ++ pack w bits words buf count

-- The buffer is filled until it holds `bits` bits or the bytes run out.
unfoldable pub fill : ℕ → ℕ → List ℕ → ℕ → ℕ → List ℕ × ℕ × ℕ
fill w bits [] bit_buf bit_count = ([], bit_buf, bit_count)
fill w bits (b ∷ rest) bit_buf bit_count =
    let filled = fill w bits rest (bit_or w bit_buf (shift_left w b bit_count)) (bit_count + 8) in
    if ltb bit_count bits then filled else (b ∷ rest, bit_buf, bit_count)

-- The unpacking loop: `count` words.
unfoldable pub unpack : ℕ → ℕ → ℕ → List ℕ → ℕ → ℕ → List ℕ
unpack w bits zero bytes bit_buf bit_count = []
unpack w bits (suc count) bytes bit_buf bit_count =
    let (rest, buf, filled) = fill w bits bytes bit_buf bit_count in
    buf % 2 ^ bits ∷ unpack w bits count rest (shift_right buf bits) (filled - bits)

-- `div_ceil(8)` of the packed bits
unfoldable pub packed_bytes_len : ℕ → ℕ → ℕ
packed_bytes_len count bits = if bits == 0 then 0 else (count * bits + 7) / 8

unfoldable pub zeros : ℕ → List ℕ
zeros zero = []
zeros (suc count) = 0 ∷ zeros count

unfoldable pub packed : ℕ → ℕ → List ℕ → List ℕ
packed w bits words = if ltb 0 bits then pack w bits words 0 0 else []

-- The mask `(1 << bits) - 1`, whose shift overflows from the width of the buffer on.
abbrev pub mask : ℕ → ℕ → Outcome CodecError ℕ
mask w bits = if ltb bits w then ok (2 ^ bits - 1) else panic

-- The words that the bytes of `body` from `start` on hold.
unfoldable pub unpacked : ℕ → ℕ → ℕ → ℕ → List ℕ → Outcome CodecError (List ℕ)
unpacked w bits count start body =
    if bits == 0
    then ok (zeros count)
    else and_then (sub_slice start (start + packed_bytes_len count bits) body)
        (λ packed_slice. and_then (mask w bits) (λ _. ok (unpack w bits count packed_slice 0 0)))

-- The bytes behind them that do not fill a word.
unfoldable pub remainder_at : ℕ → ℕ → List ℕ → Outcome CodecError (List ℕ)
remainder_at start remainder_len body =
    if ltb 0 remainder_len then sub_slice start (start + remainder_len) body else ok []

unfoldable pub encode_body : List ℕ → List ℕ
encode_body input =
    let word_count = length input / 4 in
    let words = words_of 4 word_count input in
    let bits = bit_length 32 (max_from 0 words) in
    bits ∷ to_le_bytes 4 (as_u32 word_count) ++ packed 64 bits words ++ drop (word_count * 4) input

-- After the checks: the words, then the bytes that do not fill a word.
unfoldable pub decode_words : ℕ → ℕ → ℕ → ℕ → List ℕ → Outcome CodecError (List ℕ)
decode_words expected_len bits word_count remainder_len body =
    let packed_len = packed_bytes_len word_count bits in
    and_then (unpacked 64 bits word_count 5 body) (λ words.
      and_then (remainder_at (5 + packed_len) remainder_len body)
        (λ remainder. check_len expected_len (bytes_of 4 words ++ remainder)))

unfoldable pub decode_counts : (ℕ → Bool) → ℕ → ℕ → ℕ → List ℕ → Outcome CodecError (List ℕ)
decode_counts grants expected_len bits word_count body =
    let remainder_len = expected_len - word_count * 4 in
    let needed = 5 + packed_bytes_len word_count bits + remainder_len in
    if not (word_count * 4 + remainder_len == expected_len)
    then err (invalid_data inconsistent_count)
    else if ltb (length body) needed
    then err (incomplete needed (length body))
    else and_then (reserve_exact grants expected_len)
        (λ _. decode_words expected_len bits word_count remainder_len body)

unfoldable pub decode_body : (ℕ → Bool) → ℕ → List ℕ → Outcome CodecError (List ℕ)
decode_body grants expected_len body =
    if ltb (length body) 5
    then err (incomplete 5 (length body))
    else and_then (expect (get_elem? body 0)) (λ bits.
      if ltb 32 bits
      then err (invalid_data width_over_32)
      else and_then (sub_slice 1 5 body)
          (λ count. decode_counts grants expected_len bits (from_le_bytes count) body))

module _ (hash : List ℕ → ℕ) (grants : ℕ → Bool) where
  unfoldable pub encode : List ℕ → Outcome CodecError (List ℕ)
  encode input = frame_compressed hash grants bit_pack (length input) (encode_body input)

  unfoldable pub decode : List ℕ → ℕ → Outcome CodecError (List ℕ)
  decode compressed expected_len =
      and_then (verify_frame hash bit_pack compressed expected_len)
        (decode_body grants expected_len)
