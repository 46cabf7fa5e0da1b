-- ===== src/Format/Wal/RoundTrip.antt =====
-- The WAL header of crates/temnion-format/src/lib.rs: what `encode_wal_header` writes,
-- `decode_wal_header` reads back.
use temnion.Prelude.{
  ℕ, ◌≡◌, ap, sym, ◌∙◌, List, [], ok, length, length-append, take, take_exact, le→not_ltb,
  cond_false, to_le_bytes, from_le_bytes, from_le_bytes-to_le_bytes, arith,
}
use temnion.Codec.Frame.{IsChecksum, pass}
use temnion.Format.{WalHeader}
use temnion.Format.Identity.{
  IsHeader, length-identity_bytes, drop-identity_bytes, identity_at_8-identity_bytes,
}
use temnion.Format.Wal.{wal_fields, encode_wal_header, decode_wal_header}

module _ (hash : List ℕ → ℕ) (header : WalHeader) (h : IsHeader header) where
  sum : List ℕ
  sum = to_le_bytes 4 (hash (wal_fields header))

  length-wal_fields : length (wal_fields header) ≡ 36
  length-wal_fields = omega (arith, length-identity_bytes header h [])

  pub length-encode_wal_header : length (encode_wal_header hash header) ≡ 40
  unfolding encode_wal_header
  length-encode_wal_header = omega (
    arith,
    length-append (wal_fields header) (to_le_bytes 4 (hash (wal_fields header))),
    length-wal_fields,
  )

  -- A WAL header, of 16 bytes, a 32-bit source and a 64-bit epoch, that `encode_wal_header` wrote
  -- under a 32-bit checksum is read back by `decode_wal_header` as it was.
  pub wal_header-round_trip :
      IsChecksum hash → decode_wal_header hash (encode_wal_header hash header) ≡ ok header
  unfolding encode_wal_header decode_wal_header sum
  wal_header-round_trip IsSum =
      let written = encode_wal_header hash header in
      let size = length-encode_wal_header in
      cond_false _ _ (le→not_ltb (length written) 40 (omega (arith, size)))
      ∙ cond_false _ _ (le→not_ltb 40 (length written) (omega (arith, size)))
      ∙ pass _ _ (
          ap (λ bytes. from_le_bytes (take 4 bytes)) (drop-identity_bytes header h sum)
          ∙ from_le_bytes-to_le_bytes 4 (hash (wal_fields header)) (IsSum _)
          ∙ ap hash (sym (take_exact 36 (wal_fields header) sum length-wal_fields)))
      ∙ ap ok (identity_at_8-identity_bytes header h sum 84 78 87 76)
