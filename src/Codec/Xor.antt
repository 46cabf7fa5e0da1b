-- ===== src/Codec/Xor.antt =====
-- `XorCodec` of crates/temnion-codec/src/lib.rs: each word as its difference from the one before.
use temnion.Prelude.{
  ℕ, zero, suc, ◌+◌, ◌-◌, ◌*◌, ◌/◌, min, List, [], ◌∷◌, ◌++◌, Bool, Outcome, ok, err, panic, Exec,
  ◌>>=◌, pure, and_then, length, sub_slice, slice_from, drop, if◌then◌else◌, ltb, leb, ◌==◌, ◌||◌,
  as_u32, to_le_bytes, from_le_bytes, bit_xor, shift_left, shift_right, leading_zeros,
  trailing_zeros,
}
use temnion.Codec.{CodecError, incomplete, frame_compressed, verify_frame, reserve_exact, xor}
use temnion.Codec.Rle.{check_len}
use temnion.Codec.BitPack.{words_of, bytes_of}
use temnion.Codec.Bits.{
  BitWriter, BitReader, writing, reading, write_bit, write_bits, flush, read_bit, read_bits,
}

-- A difference that is not zero: its bits between the leading and the trailing zeros.
unfoldable pub write_difference : ℕ → BitWriter → BitWriter
write_difference difference w =
    let leading = min (leading_zeros 64 difference) 31 in
    let trailing = min (trailing_zeros 64 difference) 31 in
    let len = 64 - leading - trailing in
    write_bits (shift_right difference trailing) len
      (write_bits len 6 (write_bits leading 5 (write_bit 1 w)))

unfoldable pub write_word : ℕ → ℕ → BitWriter → BitWriter
write_word prev curr w =
    let difference = bit_xor 64 curr prev in
    if difference == 0 then write_bit 0 w else write_difference difference w

unfoldable pub write_words : ℕ → List ℕ → BitWriter → BitWriter
write_words prev [] w = flush w
write_words prev (curr ∷ words) w = write_words curr words (write_word prev curr w)

unfoldable pub encode_words : List ℕ → List ℕ → List ℕ
encode_words [] start = start
encode_words (first ∷ words) start =
    (write_words first words (writing (start ++ to_le_bytes 8 first))).buf

unfoldable pub encode_body : List ℕ → List ℕ
encode_body input =
    let u64_count = length input / 8 in
    encode_words (words_of 8 u64_count input) (to_le_bytes 4 (as_u32 u64_count))
    ++ drop (u64_count * 8) input

-- `64 - leading - length` and the shift by it, which panic below 0 and at 64.
unfoldable pub place : ℕ → ℕ → ℕ → ℕ → Exec BitReader CodecError ℕ
place prev leading len meaningful r =
    let trailing = 64 - leading - len in
    if ltb 64 (leading + len) || leb 64 trailing
    then (panic, r)
    else (ok (bit_xor 64 prev (shift_left 64 meaningful trailing)), r)

unfoldable pub read_difference : ℕ → Exec BitReader CodecError ℕ
read_difference prev =
    read_bits 5 >>= λ leading. read_bits 6 >>= λ len. read_bits len >>= place prev leading len

unfoldable pub read_word : ℕ → Exec BitReader CodecError ℕ
read_word prev = read_bit >>= λ bit. if bit == 0 then pure prev else read_difference prev

unfoldable pub read_words : ℕ → ℕ → Exec BitReader CodecError (List ℕ)
read_words zero prev = pure []
read_words (suc count) prev =
    read_word prev >>= λ curr. read_words count curr >>= λ words. pure (curr ∷ words)

-- The whole words, of a body that says that there are some.
unfoldable pub decode_words : ℕ → List ℕ → Outcome CodecError (List ℕ)
decode_words u64_count body =
    if ltb (length body) 12
    then err (incomplete 12 (length body))
    else and_then (sub_slice 4 12 body) (λ first. and_then (slice_from 12 body) (λ bits.
      and_then (read_words (u64_count - 1) (from_le_bytes first) (reading bits)).0
        (λ words. ok (bytes_of 8 (from_le_bytes first ∷ words)))))

-- The last bytes of the body, which do not fill a word.
unfoldable pub last_bytes : ℕ → List ℕ → Outcome CodecError (List ℕ)
last_bytes remainder_len body =
    if ltb 0 remainder_len then slice_from (length body - remainder_len) body else ok []

unfoldable pub decode_counted : (ℕ → Bool) → ℕ → ℕ → List ℕ → Outcome CodecError (List ℕ)
decode_counted grants expected_len u64_count body =
    let remainder_len = expected_len - u64_count * 8 in
    and_then (reserve_exact grants expected_len) (λ _.
      and_then (if ltb 0 u64_count then decode_words u64_count body else ok []) (λ out.
        and_then (last_bytes remainder_len body)
          (λ remainder. check_len expected_len (out ++ remainder))))

unfoldable pub decode_body : (ℕ → Bool) → ℕ → List ℕ → Outcome CodecError (List ℕ)
decode_body grants expected_len body =
    if ltb (length body) 4
    then err (incomplete 4 (length body))
    else and_then (sub_slice 0 4 body)
        (λ count. decode_counted grants expected_len (from_le_bytes count) body)

module _ (hash : List ℕ → ℕ) (grants : ℕ → Bool) where
  unfoldable pub encode : List ℕ → Outcome CodecError (List ℕ)
  encode input = frame_compressed hash grants xor (length input) (encode_body input)

  unfoldable pub decode : List ℕ → ℕ → Outcome CodecError (List ℕ)
  decode compressed expected_len =
      and_then (verify_frame hash xor compressed expected_len) (decode_body grants expected_len)
