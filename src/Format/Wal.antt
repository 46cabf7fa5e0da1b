-- ===== src/Format/Wal.antt =====
-- The header of a WAL file, of crates/temnion-format/src/lib.rs. `hash` stands for
-- `crc32fast::hash`.
use temnion.Prelude.{
  ℕ, ◌≡◌, List, [], ◌∷◌, ◌++◌, Outcome, ok, err, length, take, if◌then◌else◌, ltb, not, ◌==◌,
  to_le_bytes,
}
use temnion.Codec.{bytes_eq}
use temnion.Format.{
  WalHeader, FormatError, incomplete, invalid_magic, unsupported_version, checksum_mismatch,
  invalid_data, trailing_wal_header_bytes, unsupported_wal_header_flags, format_version, no_flags,
  get_u16, get_u32, opening, identity_bytes, identity_at_8,
}
pub mod RoundTrip

abbrev pub wal_magic : List ℕ
wal_magic = 84 ∷ 78 ∷ 87 ∷ 76 ∷ []

abbrev pub wal_header_len : ℕ
wal_header_len = 40

-- The 36 bytes that the checksum covers.
abbrev pub wal_fields : WalHeader → List ℕ
wal_fields header = opening wal_magic ++ identity_bytes header

module _ (hash : List ℕ → ℕ) where
  unfoldable pub encode_wal_header : WalHeader → List ℕ
  encode_wal_header header = wal_fields header ++ to_le_bytes 4 (hash (wal_fields header))

  unfoldable pub decode_wal_header : List ℕ → Outcome FormatError WalHeader
  decode_wal_header bytes =
      if ltb (length bytes) wal_header_len
      then err (incomplete wal_header_len (length bytes))
      else if ltb wal_header_len (length bytes)
      then err (invalid_data trailing_wal_header_bytes)
      else if not (bytes_eq (take 4 bytes) wal_magic)
      then err invalid_magic
      else if not (get_u16 bytes 4 == format_version)
      then err (unsupported_version (get_u16 bytes 4))
      else if not (get_u16 bytes 6 == no_flags)
      then err (invalid_data unsupported_wal_header_flags)
      else if not (get_u32 bytes 36 == hash (take 36 bytes))
      then err checksum_mismatch
      else ok (identity_at_8 bytes)
