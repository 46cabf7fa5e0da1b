-- ===== src/Codec/Tests.antt =====
-- The codecs of crates/temnion-codec/src/lib.rs at concrete inputs.
use temnion.Prelude.{
  length, get_elem?, some, ℕ, ◌+◌, ◌%◌, ◌≡◌, ◌≢◌, refl, List, [], ◌∷◌, Bool, true, ok, panic,
  and_then, arith, ◌⊎◌, bit_or, bit_xor, bitwise, shift_left, shift_right, bit_length,
  leading_zeros, trailing_zeros, ◌<◌,
}
use temnion.Codec
use temnion.Codec.{
  CodecError, CodecId, raw, rle, framed, frame_compressed, verify_frame, verify_id, verify_version,
  verify_sums, verify_len, verify_body, from_u8, reserve_exact, codec_eq,
}
use temnion.Codec.Frame.{IsChecksum, verify_frame-frame_compressed, raw-round_trip}
use temnion.Codec.Rle
use temnion.Codec.Rle.{
  replicate, token, run_after, literal_len, starts_run, encode_from, decode_from, decode_token,
  decode_run, decode_literals, check_len,
}
use temnion.Codec.RleRoundTrip.{rle-round_trip}
use temnion.Codec.Total.{rle-no_panic}
use temnion.Codec.Lengths.{decode-length}
use temnion.Codec.BitPack
use temnion.Codec.DeltaFor
use temnion.Codec.Xor
use temnion.Codec.BitPack.{
  words_of, bytes_of, max_from, push_bytes, pack, fill, unpack, packed_bytes_len, zeros, packed,
  unpacked, remainder_at,
}
use temnion.Codec.DeltaFor.{min_from, encode_values, add_base, decode_values}
use temnion.Codec.Bits.{
  write_bit, write_from, write_bits, flush, take_bit, load, read_bit, read_from, read_bits,
}
use temnion.Codec.Xor.{
  write_difference, write_word, write_words, place, read_difference, read_word, read_words,
  decode_counted,
}
use temnion.Codec.Scorer.{
  CodecEvaluation, codecs, evaluation, evaluate_candidate, keep, evaluate_all, find_raw,
  smaller_than, least_score, winner_of, ok_or_missing, winner, select_best,
}
use temnion.Codec.Scorer.{Codec}
use temnion.Codec.Winner.{Verified, select_best-Verified}

-- A checksum for the tests: the sum of the bytes.
abbrev sum : List ℕ → ℕ
sum [] = 0
sum (b ∷ bytes) = (b + sum bytes) % 4294967296

sum-IsChecksum : IsChecksum sum
sum-IsChecksum [] = omega arith
sum-IsChecksum (b ∷ bytes) = omega arith

abbrev always : ℕ → Bool
always n = true

abbrev mixed : List ℕ
mixed = 1 ∷ 2 ∷ 2 ∷ 3 ∷ 3 ∷ 3 ∷ 3 ∷ 9 ∷ 0 ∷ 0 ∷ 7 ∷ []

abbrev mixed_body : List ℕ
mixed_body = 2 ∷ 1 ∷ 2 ∷ 2 ∷ 129 ∷ 3 ∷ 3 ∷ 9 ∷ 0 ∷ 0 ∷ 7 ∷ []

-- Two literals' tokens around a run of four.
rle_runs : encode_from 11 mixed ≡ mixed_body
unfolding encode_from token run_after literal_len starts_run
rle_runs = refl

mixed_encodes : temnion.Codec.Rle.encode sum always mixed ≡ ok (framed sum rle 11 mixed_body)
unfolding temnion.Codec.Rle.encode encode_from token run_after literal_len starts_run
    frame_compressed reserve_exact
mixed_encodes = refl

rle-round_trip_example :
    temnion.Codec.Rle.decode sum always (framed sum rle 11 mixed_body) 11 ≡ ok mixed
rle-round_trip_example = rle-round_trip sum sum-IsChecksum always mixed refl mixed_encodes

rle-no_panic_example : temnion.Codec.Rle.decode sum always (framed sum rle 11 (129 ∷ [])) 11 ≢ panic
rle-no_panic_example = rle-no_panic sum always (framed sum rle 11 (129 ∷ [])) 11

raw_framed : frame_compressed sum always raw 11 mixed ≡ ok (framed sum raw 11 mixed)
unfolding frame_compressed reserve_exact
raw_framed = refl

verify_frame-frame_compressed_example : verify_frame sum raw (framed sum raw 11 mixed) 11 ≡ ok mixed
verify_frame-frame_compressed_example =
    verify_frame-frame_compressed sum sum-IsChecksum always raw 11 mixed raw_framed

raw_encodes : temnion.Codec.encode sum always mixed ≡ ok (framed sum raw 11 mixed)
unfolding temnion.Codec.encode
raw_encodes = raw_framed

raw-round_trip_example : temnion.Codec.decode sum always (framed sum raw 11 mixed) 11 ≡ ok mixed
raw-round_trip_example = raw-round_trip sum sum-IsChecksum always mixed refl raw_encodes

abbrev by_size : CodecId → List ℕ → ℕ
by_size id input = 0

abbrev fives : List ℕ
fives = 5 ∷ 5 ∷ 5 ∷ 5 ∷ 5 ∷ 5 ∷ 5 ∷ 5 ∷ []

abbrev best : CodecEvaluation
best = record {
  codec = rle;
  original_bytes = 8;
  compressed_bytes = 22;
  score = 0;
  verified_lossless = true;
}

best_lem : select_best sum always by_size fives ≡ ok best
unfolding frame_compressed verify_frame verify_id verify_version verify_sums verify_len verify_body
    from_u8 reserve_exact run_after starts_run literal_len token encode_from replicate decode_run
    decode_literals decode_token decode_from check_len words_of bytes_of max_from push_bytes pack
    fill unpack packed_bytes_len zeros packed unpacked remainder_at temnion.Codec.Xor.last_bytes
    temnion.Codec.BitPack.encode_body temnion.Codec.BitPack.decode_words
    temnion.Codec.BitPack.decode_counts temnion.Codec.BitPack.decode_body
    temnion.Codec.BitPack.encode temnion.Codec.BitPack.decode min_from encode_values
    temnion.Codec.DeltaFor.encode_words add_base decode_values temnion.Codec.DeltaFor.decode_counts
    temnion.Codec.DeltaFor.decode_body temnion.Codec.DeltaFor.encode temnion.Codec.DeltaFor.decode
    write_bit write_from write_bits flush take_bit load read_bit read_from read_bits
    write_difference write_word write_words temnion.Codec.Xor.encode_words
    temnion.Codec.Xor.encode_body place read_difference read_word read_words
    temnion.Codec.Xor.decode_words decode_counted temnion.Codec.Xor.decode_body
    temnion.Codec.Xor.encode temnion.Codec.Xor.decode codecs evaluation evaluate_candidate keep
    evaluate_all find_raw smaller_than least_score winner_of ok_or_missing winner select_best
    temnion.Codec.encode temnion.Codec.decode temnion.Codec.Rle.encode temnion.Codec.Rle.decode
    temnion.Codec.Rle.decode_body bit_or bit_xor bitwise shift_left shift_right bit_length
    leading_zeros trailing_zeros
best_lem = refl

select_best-Verified_example :
    Verified fives (codecs sum always) best
    × ((baseline : CodecEvaluation) × Verified fives (codecs sum always) baseline
        × (codec_eq baseline.codec raw ≡ true)
        × ((best ≡ baseline) ⊎ (best.compressed_bytes < baseline.compressed_bytes)))
select_best-Verified_example = select_best-Verified sum always by_size fives best_lem

-- Two words whose difference has its highest and its lowest bit: the codec panics on what it wrote.
abbrev apart : List ℕ
apart = 0 ∷ 0 ∷ 0 ∷ 0 ∷ 0 ∷ 0 ∷ 0 ∷ 0 ∷ 1 ∷ 0 ∷ 0 ∷ 0 ∷ 0 ∷ 0 ∷ 0 ∷ 128 ∷ []

xor_apart :
    and_then
      (temnion.Codec.Xor.encode sum always apart)
      (λ bytes. temnion.Codec.Xor.decode sum always bytes 16)
    ≡ panic
unfolding frame_compressed verify_frame verify_id verify_version verify_sums verify_len verify_body
    from_u8 reserve_exact run_after starts_run literal_len token encode_from replicate decode_run
    decode_literals decode_token decode_from check_len words_of bytes_of max_from push_bytes pack
    fill unpack packed_bytes_len zeros packed unpacked remainder_at temnion.Codec.Xor.last_bytes
    temnion.Codec.BitPack.encode_body temnion.Codec.BitPack.decode_words
    temnion.Codec.BitPack.decode_counts temnion.Codec.BitPack.decode_body
    temnion.Codec.BitPack.encode temnion.Codec.BitPack.decode min_from encode_values
    temnion.Codec.DeltaFor.encode_words add_base decode_values temnion.Codec.DeltaFor.decode_counts
    temnion.Codec.DeltaFor.decode_body temnion.Codec.DeltaFor.encode temnion.Codec.DeltaFor.decode
    write_bit write_from write_bits flush take_bit load read_bit read_from read_bits
    write_difference write_word write_words temnion.Codec.Xor.encode_words
    temnion.Codec.Xor.encode_body place read_difference read_word read_words
    temnion.Codec.Xor.decode_words decode_counted temnion.Codec.Xor.decode_body
    temnion.Codec.Xor.encode temnion.Codec.Xor.decode codecs evaluation evaluate_candidate keep
    evaluate_all find_raw smaller_than least_score winner_of ok_or_missing winner select_best
    temnion.Codec.encode temnion.Codec.decode temnion.Codec.Rle.encode temnion.Codec.Rle.decode
    temnion.Codec.Rle.decode_body bit_or bit_xor bitwise shift_left shift_right bit_length
    leading_zeros trailing_zeros
xor_apart = refl

abbrev rle_codec : Codec
rle_codec = record {
  id = rle;
  encode = temnion.Codec.Rle.encode sum always;
  decode = temnion.Codec.Rle.decode sum always;
}

rle_listed : get_elem? (codecs sum always) 1 ≡ some rle_codec
unfolding codecs
rle_listed = refl

rle_decodes : temnion.Codec.Rle.decode sum always (framed sum rle 11 mixed_body) 11 ≡ ok mixed
rle_decodes = rle-round_trip sum sum-IsChecksum always mixed refl mixed_encodes

decode-length_example : length mixed ≡ 11
decode-length_example =
    decode-length sum always (framed sum rle 11 mixed_body) 11 0 rle_codec rle_listed rle_decodes

-- A frame with valid sums whose body is shorter than the length that it states: the raw codec
-- returns it all the same.
raw_short : temnion.Codec.decode sum always (framed sum raw 5 (7 ∷ [])) 5 ≡ ok (7 ∷ [])
unfolding temnion.Codec.decode verify_frame verify_id verify_version verify_sums verify_len
    verify_body from_u8 reserve_exact
raw_short = refl
