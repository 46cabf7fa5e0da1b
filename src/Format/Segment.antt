-- ===== src/Format/Segment.antt =====
-- A segment of crates/temnion-format/src/lib.rs: a header, one batch, and a footer.
use temnion.Prelude.{
  ℕ, ◌+◌, ◌-◌, ◌≡◌, List, [], ◌∷◌, ◌++◌, Bool, true, false, ◌||◌, Outcome, ok, err, panic, and_then,
  ok_or, length, take, drop, if◌then◌else◌, ltb, not, ◌==◌, to_le_bytes, u32_max, checked_add,
}
use temnion.Codec.{bytes_eq}
use temnion.Format.{
  StoredEvent, WalHeader, Limits, FormatError, incomplete, invalid_magic, unsupported_version,
  checksum_mismatch, limit_exceeded, records_per_batch, frame_bytes, segment_bytes, invalid_data,
  segment_length_overflow, foreign_record, unsupported_segment_flags, trailing_segment_bytes,
  unsupported_footer_flags, nonzero_directory_length, segment_body_too_short,
  truncated_embedded_batch, record_count_differs, Request, for_bytes, reserve_exact, format_version,
  no_flags, batch_header_len, segment_header_len, segment_footer_len, slice, get_u16, get_u32,
  opening, identity_bytes, identity_at_8,
}
use temnion.Format.Batch.{encode_batch, decode_batch}
pub mod RoundTrip

pub record Segment : Type 0 where
  pub header : WalHeader
  pub records : List StoredEvent

abbrev pub segment_magic : List ℕ
segment_magic = 84 ∷ 78 ∷ 83 ∷ 70 ∷ []

abbrev pub segment_footer_magic : List ℕ
segment_footer_magic = 84 ∷ 78 ∷ 70 ∷ 84 ∷ []

-- A record of another source or epoch than the header's.
abbrev pub is_foreign : WalHeader → StoredEvent → Bool
is_foreign header r = not (r.id.source == header.source) || not (r.id.epoch == header.epoch)

abbrev pub any_foreign : WalHeader → List StoredEvent → Bool
any_foreign header [] = false
any_foreign header (r ∷ records) = is_foreign header r || any_foreign header records

abbrev pub segment_len : ℕ → Outcome FormatError ℕ
segment_len body_len =
    and_then
      (ok_or (checked_add segment_header_len body_len) (invalid_data segment_length_overflow))
      (λ len. ok_or (checked_add len segment_footer_len) (invalid_data segment_length_overflow))

-- The 48 bytes that the checksum of the header covers.
abbrev pub segment_fields : (List ℕ → ℕ) → WalHeader → ℕ → List ℕ → List ℕ
segment_fields hash header record_count batch =
    opening segment_magic
    ++ (identity_bytes header
        ++ (to_le_bytes 4 (length batch)
            ++ (to_le_bytes 4 record_count ++ to_le_bytes 4 (hash batch))))

-- The 12 bytes that the checksum of the footer covers, and the footer.
abbrev pub footer_fields : List ℕ
footer_fields = opening segment_footer_magic ++ to_le_bytes 4 0

abbrev pub footer_bytes : (List ℕ → ℕ) → List ℕ
footer_bytes hash = footer_fields ++ to_le_bytes 4 (hash footer_fields)

abbrev pub segment_bytes_of : (List ℕ → ℕ) → WalHeader → ℕ → List ℕ → List ℕ
segment_bytes_of hash header record_count batch =
    let fields = segment_fields hash header record_count batch in
    fields ++ (to_le_bytes 4 (hash fields) ++ (batch ++ footer_bytes hash))

-- An embedded batch that ends early is an invalid segment, not an incomplete one.
abbrev pub embedded :
    Outcome FormatError (List StoredEvent) → Outcome FormatError (List StoredEvent)
embedded (ok records) = ok records
embedded (err (incomplete needed available)) = err (invalid_data truncated_embedded_batch)
embedded (err e) = err e
embedded panic = panic

unfoldable pub check_records : WalHeader → ℕ → List StoredEvent → Outcome FormatError Segment
check_records header expected_count records =
    if not (length records == expected_count)
    then err (invalid_data record_count_differs)
    else if any_foreign header records
    then err (invalid_data foreign_record)
    else ok (record { header = header; records = records })

module _ (hash : List ℕ → ℕ) where
  unfoldable pub write_segment :
      (Request → Bool) → Limits → WalHeader → ℕ → List ℕ → ℕ → Outcome FormatError (List ℕ)
  write_segment grants limits header count batch total_len =
      if ltb limits.max_segment_bytes total_len
      then err (limit_exceeded segment_bytes)
      else and_then (reserve_exact grants (for_bytes total_len))
          (λ _. ok (segment_bytes_of hash header count batch))

  unfoldable pub wrap_batch :
      (Request → Bool) → Limits → WalHeader → ℕ → List ℕ → Outcome FormatError (List ℕ)
  wrap_batch grants limits header count batch =
      if ltb u32_max (length batch)
      then err (limit_exceeded frame_bytes)
      else if ltb u32_max count
      then err (limit_exceeded records_per_batch)
      else and_then (segment_len (length batch)) (write_segment grants limits header count batch)

  unfoldable pub encode_segment :
      (Request → Bool) → Limits → WalHeader → List StoredEvent → Outcome FormatError (List ℕ)
  encode_segment grants limits header records =
      if any_foreign header records
      then err (invalid_data foreign_record)
      else and_then (encode_batch hash grants limits records)
          (wrap_batch grants limits header (length records))

  -- The batch of a segment whose header and footer hold.
  unfoldable pub decode_embedded :
      (Request → Bool) → Limits → WalHeader → ℕ → List ℕ → Outcome FormatError Segment
  decode_embedded grants limits header expected_count body =
      if ltb (length body) batch_header_len
      then err (invalid_data segment_body_too_short)
      else if ltb limits.max_records expected_count
      then err (limit_exceeded records_per_batch)
      else and_then (embedded (decode_batch hash grants limits body))
          (check_records header expected_count)

  -- The footer, and then the body.
  unfoldable pub decode_footer :
      (Request → Bool) → Limits → List ℕ → List ℕ → List ℕ → Outcome FormatError Segment
  decode_footer grants limits bytes body footer =
      if not (bytes_eq (take 4 footer) segment_footer_magic)
      then err invalid_magic
      else if not (get_u16 footer 4 == format_version)
      then err (unsupported_version (get_u16 footer 4))
      else if not (get_u16 footer 6 == no_flags)
      then err (invalid_data unsupported_footer_flags)
      else if not (get_u32 footer 8 == 0)
      then err (invalid_data nonzero_directory_length)
      else if not (get_u32 footer 12 == hash (take 12 footer))
      then err checksum_mismatch
      else if not (hash body == get_u32 bytes 44)
      then err checksum_mismatch
      else decode_embedded grants limits (identity_at_8 bytes) (get_u32 bytes 40) body

  unfoldable pub decode_sized :
      (Request → Bool) → Limits → List ℕ → ℕ → ℕ → Outcome FormatError Segment
  decode_sized grants limits bytes body_len total_len =
      if ltb limits.max_segment_bytes total_len
      then err (limit_exceeded segment_bytes)
      else if ltb (length bytes) total_len
      then err (incomplete total_len (length bytes))
      else if ltb total_len (length bytes)
      then err (invalid_data trailing_segment_bytes)
      else decode_footer grants limits bytes (slice bytes segment_header_len body_len)
          (drop body_len (drop segment_header_len bytes))

  unfoldable pub decode_segment : (Request → Bool) → Limits → List ℕ → Outcome FormatError Segment
  decode_segment grants limits bytes =
      if ltb (length bytes) segment_header_len
      then err (incomplete segment_header_len (length bytes))
      else if not (bytes_eq (take 4 bytes) segment_magic)
      then err invalid_magic
      else if not (get_u16 bytes 4 == format_version)
      then err (unsupported_version (get_u16 bytes 4))
      else if not (get_u16 bytes 6 == no_flags)
      then err (invalid_data unsupported_segment_flags)
      else if not (get_u32 bytes 48 == hash (take 48 bytes))
      then err checksum_mismatch
      else and_then (segment_len (get_u32 bytes 36))
          (decode_sized grants limits bytes (get_u32 bytes 36))
