-- ===== src/Format/Identity.antt =====
-- The identity in the headers of crates/temnion-format/src/lib.rs: it is read back as it was
-- written.
use temnion.Prelude.{
  ℕ, ◌+◌, ◌≡◌, ◌<◌, ap, ◌∙◌, List, [], ◌∷◌, ◌++◌, append_assoc, length, length-append, take, drop,
  take_exact, drop_exact, drop_past, byte_bound, to_le_bytes, from_le_bytes,
  from_le_bytes-to_le_bytes, arith,
}
use temnion.Format.{WalHeader, opening, identity_bytes, identity_at_8}

-- What the types of the fields say: 16 bytes, a `u32` and a `u64`.
pub record IsHeader (header : WalHeader) : Type 0 where
  pub bytes_16 : length header.database ≡ 16
  pub source_u32 : header.source < byte_bound 4
  pub epoch_u64 : header.epoch < byte_bound 8

module _ (header : WalHeader) (h : IsHeader header) (rest : List ℕ) where
  pub length-identity_bytes : length (identity_bytes header) ≡ 28
  length-identity_bytes = omega (
    arith,
    length-append header.database (to_le_bytes 4 header.source ++ to_le_bytes 8 header.epoch),
    h.bytes_16,
  )

  pub drop-identity_bytes : drop 28 (identity_bytes header ++ rest) ≡ rest
  drop-identity_bytes = drop_exact 28 (identity_bytes header) rest length-identity_bytes

  pub drop_past-identity_bytes :
      (k : ℕ) → drop (28 + k) (identity_bytes header ++ rest) ≡ drop k rest
  drop_past-identity_bytes k = drop_past 28 k (identity_bytes header) rest length-identity_bytes

  numbers : List ℕ
  numbers = to_le_bytes 4 header.source ++ to_le_bytes 8 header.epoch

  assoc : identity_bytes header ++ rest ≡ header.database ++ (numbers ++ rest)
  unfolding numbers
  assoc = append_assoc header.database numbers rest

  pub identity_at_8-identity_bytes :
      (a b c d : ℕ)
      → identity_at_8 (opening (a ∷ b ∷ c ∷ d ∷ []) ++ (identity_bytes header ++ rest)) ≡ header
  unfolding numbers
  identity_at_8-identity_bytes a b c d = λ i. record {
    database = (ap (take 16) assoc ∙ take_exact 16 header.database (numbers ++ rest) h.bytes_16) i;
    source =
        (ap (λ bytes. from_le_bytes (take 4 bytes))
              (ap (drop 16) assoc ∙ drop_past 16 0 header.database (numbers ++ rest) h.bytes_16)
            ∙ from_le_bytes-to_le_bytes 4 header.source h.source_u32)
          i;
    epoch =
        (ap (λ bytes. from_le_bytes (take 8 bytes))
              (ap (drop 20) assoc ∙ drop_past 16 4 header.database (numbers ++ rest) h.bytes_16)
            ∙ from_le_bytes-to_le_bytes 8 header.epoch h.epoch_u64)
          i;
  }
