-- ===== src/Format.antt =====
-- crates/temnion-format/src/lib.rs: stored events, limits and errors, and the little-endian reads
-- and writes that the WAL and segment codecs are made of. A cursor into a buffer is what the buffer
-- holds from there on. `usize` has 64 bits, so that the conversions of a `u32` to it never fail.
use temnion.Prelude.{
  ℕ, ◌+◌, ◌≡◌, List, [], ◌∷◌, ◌++◌, Option, none, some, Bool, Outcome, ok, err, Exec, ◌>>=◌, pure,
  length, take, drop, if◌then◌else◌, ltb, to_le_bytes, from_le_bytes,
}
use temnion.Core.{
  DatabaseId, EntityId, EventId, EventTimes, SchemaId, SourceEpoch, SourceId, Timestamp,
}
pub mod Records
pub mod Identity
pub mod Wal
pub mod Batch
pub mod Segment
mod Tests

pub record StoredEvent : Type 0 where
  pub id : EventId
  pub entity : EntityId
  pub times : EventTimes
  pub schema : SchemaId
  pub payload : List ℕ
  pub causes : List EventId

pub record WalHeader : Type 0 where
  pub database : DatabaseId
  pub source : SourceId
  pub epoch : SourceEpoch

pub record Limits : Type 0 where
  pub max_frame_bytes : ℕ
  pub max_records : ℕ
  pub max_payload_bytes : ℕ
  pub max_causes : ℕ
  pub max_segment_bytes : ℕ

-- `Limits::default`
abbrev pub default_limits : Limits
default_limits = record {
  max_frame_bytes = 4194304;
  max_records = 65536;
  max_payload_bytes = 1048576;
  max_causes = 64;
  max_segment_bytes = 67108864;
}

-- The texts that `LimitExceeded` carries.
pub data LimitName : Type 0 where
  records_per_batch frame_bytes segment_bytes payload_bytes causes_per_event : LimitName

-- The numbers of a record, as the messages on a truncated record name them.
pub data Field : Type 0 where
  event_source event_epoch event_sequence entity_shard entity_slot entity_generation : Field
  valid_clock valid_ticks known_clock known_ticks schema_id record_flags cause_count : Field
  payload_length observed_clock observed_ticks cause_source cause_epoch cause_sequence : Field

-- The texts that `InvalidData` carries.
pub data Reason : Type 0 where
  truncated : Field → Reason
  truncated_payload_bytes unsupported_record_flags payload_length_overflow : Reason
  frame_length_overflow record_length_overflow segment_length_overflow : Reason
  trailing_wal_header_bytes unsupported_wal_header_flags : Reason
  unsupported_batch_flags frame_smaller_than_header trailing_batch_bytes : Reason
  trailing_record_bytes foreign_record unsupported_segment_flags trailing_segment_bytes : Reason
  unsupported_footer_flags nonzero_directory_length segment_body_too_short : Reason
  truncated_embedded_batch record_count_differs : Reason

pub data FormatError : Type 0 where
  incomplete : (needed available : ℕ) → FormatError
  invalid_magic : FormatError
  unsupported_version : ℕ → FormatError
  checksum_mismatch : FormatError
  limit_exceeded : LimitName → FormatError
  invalid_data : Reason → FormatError
  allocation_failed : FormatError

-- What a `try_reserve_exact` asks for: that many bytes, records or causes.
pub data Request : Type 0 where
  for_bytes for_records for_causes : ℕ → Request

unfoldable pub reserve_exact : (Request → Bool) → Request → Outcome FormatError (Unit {0})
reserve_exact grants request = if grants request then ok tt else err allocation_failed

abbrev pub format_version : ℕ
format_version = 1

abbrev pub no_flags : ℕ
no_flags = 0

abbrev pub observed_flag : ℕ
observed_flag = 1

abbrev pub batch_header_len : ℕ
batch_header_len = 24

abbrev pub segment_header_len : ℕ
segment_header_len = 52

abbrev pub segment_footer_len : ℕ
segment_footer_len = 16

-- `&bytes[offset..offset + size]`, of a slice that is long enough.
abbrev pub slice : List ℕ → ℕ → ℕ → List ℕ
slice bytes offset size = take size (drop offset bytes)

abbrev pub get_u16 : List ℕ → ℕ → ℕ
get_u16 bytes offset = from_le_bytes (slice bytes offset 2)

abbrev pub get_u32 : List ℕ → ℕ → ℕ
get_u32 bytes offset = from_le_bytes (slice bytes offset 4)

abbrev pub get_u64 : List ℕ → ℕ → ℕ
get_u64 bytes offset = from_le_bytes (slice bytes offset 8)

-- The magic, the version and the flags that a header starts with.
abbrev pub opening : List ℕ → List ℕ
opening magic = magic ++ (to_le_bytes 2 format_version ++ to_le_bytes 2 no_flags)

-- The identity that a WAL and a segment carry at offset 8.
abbrev pub identity_bytes : WalHeader → List ℕ
identity_bytes header =
    header.database ++ (to_le_bytes 4 header.source ++ to_le_bytes 8 header.epoch)

abbrev pub identity_at_8 : List ℕ → WalHeader
identity_at_8 bytes = record {
  database = slice bytes 8 16;
  source = get_u32 bytes 24;
  epoch = get_u64 bytes 28;
}

-- Reads at a cursor: the state is what stands from the cursor on.
unfoldable pub read_fixed : ℕ → Field → Exec (List ℕ) FormatError (List ℕ)
read_fixed n field rest =
    if ltb (length rest) n
    then (err (invalid_data (truncated field)), rest)
    else (ok (take n rest), drop n rest)

unfoldable pub read_u16 : Field → Exec (List ℕ) FormatError ℕ
read_u16 field = read_fixed 2 field >>= λ value. pure (from_le_bytes value)

unfoldable pub read_u32 : Field → Exec (List ℕ) FormatError ℕ
read_u32 field = read_fixed 4 field >>= λ value. pure (from_le_bytes value)

unfoldable pub read_u64 : Field → Exec (List ℕ) FormatError ℕ
read_u64 field = read_fixed 8 field >>= λ value. pure (from_le_bytes value)
