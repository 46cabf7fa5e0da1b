-- ===== src/Codec.antt =====
-- crates/temnion-codec/src/lib.rs: the identities and errors of the codecs, and the checked frame
-- around a compressed body. `hash` stands for `crc32fast::hash`, `grants` for the allocator.
use temnion.Prelude.{
  ℕ, ◌+◌, ◌≡◌, refl, List, [], ◌∷◌, ◌++◌, Bool, Outcome, ok, err, panic, and_then, expect, length,
  get_elem?, sub_slice, slice_from, if◌then◌else◌, ltb, not, ◌&&◌, ◌==◌, u32_max, as_u32,
  to_le_bytes, from_le_bytes, true, false,
}
pub mod Frame
pub mod Rle
pub mod Tokens
pub mod RleRoundTrip
pub mod Slices
pub mod Total
pub mod Bits
pub mod BitPack
pub mod DeltaFor
pub mod Xor
pub mod Scorer
pub mod Winner
pub mod Lengths
mod Tests

pub data CodecId : Type 0 where
  raw : CodecId
  rle : CodecId
  bit_pack : CodecId
  delta_for : CodecId
  xor : CodecId

-- The texts that `InvalidData` carries.
pub data Reason : Type 0 where
  id_mismatch : Reason
  truncated_run : Reason
  run_too_long : Reason
  truncated_literals : Reason
  literals_too_long : Reason
  width_over_32 : Reason
  inconsistent_count : Reason
  width_over_64 : Reason
  end_of_bitstream : Reason
  corrupted : Reason
  raw_missing : Reason

pub data CodecError : Type 0 where
  incomplete : (needed available : ℕ) → CodecError
  invalid_magic : CodecError
  unsupported_version : ℕ → CodecError
  checksum_mismatch : CodecError
  length_mismatch : (expected actual : ℕ) → CodecError
  unknown_codec : ℕ → CodecError
  invalid_data : Reason → CodecError
  allocation_failed : CodecError
  output_too_large : (len max : ℕ) → CodecError

abbrev pub codec_magic : List ℕ
codec_magic = 84 ∷ 78 ∷ 67 ∷ 88 ∷ []

abbrev pub codec_version : ℕ
codec_version = 1

abbrev pub codec_header_len : ℕ
codec_header_len = 20

unfoldable pub from_u8 : ℕ → Outcome CodecError CodecId
from_u8 value =
    if value == 0
    then ok raw
    else if value == 1
    then ok rle
    else if value == 2
    then ok bit_pack
    else if value == 3
    then ok delta_for
    else if value == 4
    then ok xor
    else err (unknown_codec value)

-- `id as u8`
abbrev pub as_byte : CodecId → ℕ
as_byte raw = 0
as_byte rle = 1
as_byte bit_pack = 2
as_byte delta_for = 3
as_byte xor = 4

abbrev pub codec_eq : CodecId → CodecId → Bool
codec_eq a b = as_byte a == as_byte b

abbrev pub bytes_eq : List ℕ → List ℕ → Bool
bytes_eq [] [] = true
bytes_eq (a ∷ xs) (b ∷ ys) = a == b && bytes_eq xs ys
bytes_eq _ _ = false

unfoldable pub reserve_exact : (ℕ → Bool) → ℕ → Outcome CodecError (Unit {0})
reserve_exact grants size = if grants size then ok tt else err allocation_failed

-- The first sixteen bytes of the header, which its checksum covers.
abbrev pub header : (List ℕ → ℕ) → CodecId → ℕ → List ℕ → List ℕ
header hash id original_len body =
    codec_magic
    ++ as_byte id ∷ codec_version ∷ to_le_bytes 2 0
    ++ to_le_bytes 4 (as_u32 original_len)
    ++ to_le_bytes 4 (hash body)

abbrev pub framed : (List ℕ → ℕ) → CodecId → ℕ → List ℕ → List ℕ
framed hash id original_len body =
    header hash id original_len body
    ++ to_le_bytes 4 (hash (header hash id original_len body))
    ++ body

unfoldable pub frame_compressed :
    (List ℕ → ℕ) → (ℕ → Bool) → CodecId → ℕ → List ℕ → Outcome CodecError (List ℕ)
frame_compressed hash grants id original_len body =
    if ltb u32_max original_len
    then err (output_too_large original_len u32_max)
    else and_then (reserve_exact grants (20 + length body))
        (λ _. ok (framed hash id original_len body))

-- The checks after the version. Every slice of the frame panics out of range.
unfoldable pub verify_body : (List ℕ → ℕ) → List ℕ → Outcome CodecError (List ℕ)
verify_body hash compressed = and_then (slice_from codec_header_len compressed) (λ body.
    and_then (sub_slice 12 16 compressed) (λ body_crc.
      if not (hash body == from_le_bytes body_crc) then err checksum_mismatch else ok body))

unfoldable pub verify_len : (List ℕ → ℕ) → List ℕ → ℕ → Outcome CodecError (List ℕ)
verify_len hash compressed expected_len = and_then (sub_slice 8 12 compressed) (λ original_len.
    if not (from_le_bytes original_len == expected_len)
    then err (length_mismatch expected_len (from_le_bytes original_len))
    else verify_body hash compressed)

unfoldable pub verify_sums : (List ℕ → ℕ) → List ℕ → ℕ → Outcome CodecError (List ℕ)
verify_sums hash compressed expected_len = and_then (sub_slice 16 20 compressed) (λ header_crc.
    and_then (sub_slice 0 16 compressed) (λ covered.
      if not (hash covered == from_le_bytes header_crc)
      then err checksum_mismatch
      else verify_len hash compressed expected_len))

unfoldable pub verify_version : (List ℕ → ℕ) → List ℕ → ℕ → ℕ → Outcome CodecError (List ℕ)
verify_version hash compressed expected_len version =
    if not (version == codec_version)
    then err (unsupported_version version)
    else verify_sums hash compressed expected_len

unfoldable pub verify_id :
    (List ℕ → ℕ) → CodecId → List ℕ → ℕ → CodecId → Outcome CodecError (List ℕ)
verify_id hash expected_id compressed expected_len codec_id =
    if not (codec_eq codec_id expected_id)
    then err (invalid_data id_mismatch)
    else and_then (expect (get_elem? compressed 5)) (verify_version hash compressed expected_len)

unfoldable pub verify_frame : (List ℕ → ℕ) → CodecId → List ℕ → ℕ → Outcome CodecError (List ℕ)
verify_frame hash expected_id compressed expected_len =
    if ltb (length compressed) codec_header_len
    then err (incomplete codec_header_len (length compressed))
    else and_then (sub_slice 0 4 compressed) (λ magic.
      if not (bytes_eq magic codec_magic)
      then err invalid_magic
      else and_then (and_then (expect (get_elem? compressed 4)) from_u8)
          (verify_id hash expected_id compressed expected_len))

module _ (hash : List ℕ → ℕ) (grants : ℕ → Bool) where
  -- `RawCodec`
  unfoldable pub encode : List ℕ → Outcome CodecError (List ℕ)
  encode input = frame_compressed hash grants raw (length input) input

  unfoldable pub decode : List ℕ → ℕ → Outcome CodecError (List ℕ)
  decode compressed expected_len =
      and_then (verify_frame hash raw compressed expected_len)
        (λ body. and_then (reserve_exact grants (length body)) (λ _. ok body))
