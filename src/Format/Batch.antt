-- ===== src/Format/Batch.antt =====
-- A batch of records in one frame, of crates/temnion-format/src/lib.rs. `hash` stands for
-- `crc32fast::hash`, `grants` for the allocator.
use temnion.Prelude.{
  ℕ, zero, suc, ◌+◌, ◌≡◌, List, [], ◌∷◌, ◌++◌, Bool, Outcome, ok, err, and_then, ok_or, Exec, ◌>>=◌,
  pure, fail, asks, length, take, drop, if◌then◌else◌, ltb, not, ◌==◌, to_le_bytes, u32_max,
  checked_add,
}
use temnion.Codec.{bytes_eq}
use temnion.Format.{
  StoredEvent, Limits, FormatError, incomplete, invalid_magic, unsupported_version,
  checksum_mismatch, limit_exceeded, records_per_batch, frame_bytes, invalid_data,
  frame_length_overflow, unsupported_batch_flags, frame_smaller_than_header, trailing_batch_bytes,
  trailing_record_bytes, Request, for_bytes, for_records, reserve_exact, format_version, no_flags,
  batch_header_len, get_u16, get_u32, opening,
}
use temnion.Format.Records.{encoded_record_len, encode_record_body, decode_record_body}
pub mod Encoded
pub mod Bounds
pub mod RoundTrip

abbrev pub batch_magic : List ℕ
batch_magic = 84 ∷ 78 ∷ 87 ∷ 66 ∷ []

-- The loop that sums the lengths of the records.
unfoldable pub body_len_from : Limits → ℕ → List StoredEvent → Outcome FormatError ℕ
body_len_from limits total [] = ok total
body_len_from limits total (r ∷ records) = and_then (encoded_record_len r limits) (λ len.
    and_then (ok_or (checked_add total len) (invalid_data frame_length_overflow))
      (λ total. body_len_from limits total records))

-- The loop that pushes the bodies of the records.
unfoldable pub encode_bodies : List StoredEvent → Outcome FormatError (List ℕ)
encode_bodies [] = ok []
encode_bodies (r ∷ records) =
    and_then (encode_record_body r)
      (λ one. and_then (encode_bodies records) (λ more. ok (one ++ more)))

-- The 20 bytes that the checksum of the header covers.
abbrev pub batch_fields : (List ℕ → ℕ) → ℕ → ℕ → List ℕ → List ℕ
batch_fields hash frame_len record_count body =
    opening batch_magic
    ++ (to_le_bytes 4 frame_len ++ (to_le_bytes 4 record_count ++ to_le_bytes 4 (hash body)))

abbrev pub batch_bytes : (List ℕ → ℕ) → ℕ → ℕ → List ℕ → List ℕ
batch_bytes hash frame_len record_count body =
    let fields = batch_fields hash frame_len record_count body in
    fields ++ (to_le_bytes 4 (hash fields) ++ body)

-- What `frame_length` does with the numbers of a header whose checksum holds.
unfoldable pub check_frame : Limits → ℕ → ℕ → Outcome FormatError ℕ
check_frame limits frame_len record_count =
    if ltb frame_len batch_header_len
    then err (invalid_data frame_smaller_than_header)
    else if ltb limits.max_frame_bytes frame_len
    then err (limit_exceeded frame_bytes)
    else if ltb limits.max_records record_count
    then err (limit_exceeded records_per_batch)
    else ok frame_len

-- The loop over the records of a body.
unfoldable pub decode_bodies :
    (Request → Bool) → Limits → ℕ → Exec (List ℕ) FormatError (List StoredEvent)
decode_bodies grants limits zero = pure []
decode_bodies grants limits (suc count) = do
  r ← decode_record_body grants limits
  more ← decode_bodies grants limits count
  pure (r ∷ more)

-- The end of the loop: nothing may stand behind the last record.
abbrev pub at_end : List StoredEvent → Exec (List ℕ) FormatError (List StoredEvent)
at_end stored rest =
    if length rest == 0 then (ok stored, rest) else (err (invalid_data trailing_record_bytes), rest)

unfoldable pub decode_body :
    (Request → Bool) → Limits → ℕ → List ℕ → Outcome FormatError (List StoredEvent)
decode_body grants limits count body =
    and_then (reserve_exact grants (for_records count))
      (λ _. ((decode_bodies grants limits count >>= at_end) body).0)

module _ (hash : List ℕ → ℕ) where
  unfoldable pub write_batch :
      (Request → Bool) → Limits → List StoredEvent → ℕ → Outcome FormatError (List ℕ)
  write_batch grants limits stored frame_len =
      if ltb limits.max_frame_bytes frame_len
      then err (limit_exceeded frame_bytes)
      else if ltb u32_max frame_len
      then err (limit_exceeded frame_bytes)
      else if ltb u32_max (length stored)
      then err (limit_exceeded records_per_batch)
      else and_then (reserve_exact grants (for_bytes frame_len)) (λ _.
        and_then (encode_bodies stored)
          (λ body. ok (batch_bytes hash frame_len (length stored) body)))

  unfoldable pub encode_batch :
      (Request → Bool) → Limits → List StoredEvent → Outcome FormatError (List ℕ)
  encode_batch grants limits stored =
      if ltb limits.max_records (length stored)
      then err (limit_exceeded records_per_batch)
      else and_then (body_len_from limits 0 stored) (λ body_len.
        and_then
          (ok_or (checked_add batch_header_len body_len) (invalid_data frame_length_overflow))
          (write_batch grants limits stored))

  unfoldable pub frame_length : Limits → List ℕ → Outcome FormatError ℕ
  frame_length limits prefix =
      if ltb (length prefix) batch_header_len
      then err (incomplete batch_header_len (length prefix))
      else if not (bytes_eq (take 4 prefix) batch_magic)
      then err invalid_magic
      else if not (get_u16 prefix 4 == format_version)
      then err (unsupported_version (get_u16 prefix 4))
      else if not (get_u16 prefix 6 == no_flags)
      then err (invalid_data unsupported_batch_flags)
      else if not (get_u32 prefix 20 == hash (take 20 prefix))
      then err checksum_mismatch
      else check_frame limits (get_u32 prefix 8) (get_u32 prefix 12)

  unfoldable pub decode_frame :
      (Request → Bool) → Limits → List ℕ → ℕ → Outcome FormatError (List StoredEvent)
  decode_frame grants limits frame frame_len =
      if ltb (length frame) frame_len
      then err (incomplete frame_len (length frame))
      else if ltb frame_len (length frame)
      then err (invalid_data trailing_batch_bytes)
      else if not (get_u32 frame 16 == hash (drop batch_header_len frame))
      then err checksum_mismatch
      else decode_body grants limits (get_u32 frame 12) (drop batch_header_len frame)

  unfoldable pub decode_batch :
      (Request → Bool) → Limits → List ℕ → Outcome FormatError (List StoredEvent)
  decode_batch grants limits frame =
      and_then (frame_length limits frame) (decode_frame grants limits frame)
