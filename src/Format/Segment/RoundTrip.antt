-- ===== src/Format/Segment/RoundTrip.antt =====
-- A segment of crates/temnion-format/src/lib.rs: what `encode_segment` writes, `decode_segment`
-- reads back.
use temnion.Prelude.{
  ℕ, ◌+◌, ◌≡◌, ◌≤◌, refl, ap, ap₂, sym, ◌∙◌, List, [], ◌++◌, append_assoc, Bool, true, false, ok,
  and_then, and_then-ok, past_guard, ok_or-ok, ok_or, ok_injective, checked_add, checked_add_inv,
  length, length-append, take, drop, take_exact, drop_exact, Each, ltb, not_ltb→le, le→not_ltb,
  cond_false, u32_max, to_le_bytes, from_le_bytes, from_le_bytes-to_le_bytes, arith,
}
use temnion.Codec.Frame.{IsChecksum, pass}
use temnion.Format.{
  StoredEvent, WalHeader, Limits, Request, reserve_exact, for_bytes, invalid_data,
  segment_length_overflow, segment_header_len, segment_footer_len, opening, identity_bytes,
  identity_at_8, get_u32, slice,
}
use temnion.Format.Identity.{
  IsHeader, length-identity_bytes, drop_past-identity_bytes, identity_at_8-identity_bytes,
}
use temnion.Format.Records.Fields.{IsRecord}
use temnion.Format.Batch.{encode_batch, decode_batch}
use temnion.Format.Batch.Encoded.{encode_batch_inv}
use temnion.Format.Batch.RoundTrip.{batch-round_trip}
use temnion.Format.Segment.{
  any_foreign, segment_magic, segment_len, segment_fields, footer_bytes, footer_fields,
  segment_bytes_of, embedded, write_segment, wrap_batch, encode_segment, check_records,
  decode_embedded, decode_footer, decode_sized, decode_segment,
}

segment_len_inv : (n : ℕ) {total : ℕ} → segment_len n ≡ ok total → total ≡ 52 + n + 16
segment_len_inv n e =
    let overflow = invalid_data segment_length_overflow in
    let (a, first, e) = and_then-ok (ok_or (checked_add segment_header_len n) overflow) _ e in
    let (p, _) = checked_add_inv segment_header_len n (ok_or-ok _ _ first) in
    let (q, _) = checked_add_inv a segment_footer_len (ok_or-ok _ _ e) in omega (arith, p, q)

-- What is known of a segment that `encode_segment` returns.
pub record Encoded (hash : List ℕ → ℕ) (grants : Request → Bool) (limits : Limits)
    (header : WalHeader) (stored : List StoredEvent) (out : List ℕ) : Type 0 where
  pub batch : List ℕ
  pub native_records : any_foreign header stored ≡ false
  pub written : encode_batch hash grants limits stored ≡ ok batch
  pub batch_u32 : length batch ≤ u32_max
  pub count_u32 : length stored ≤ u32_max
  pub measured : segment_len (length batch) ≡ ok (52 + length batch + 16)
  pub small : 52 + length batch + 16 ≤ limits.max_segment_bytes
  pub same : out ≡ segment_bytes_of hash header (length stored) batch

pub encode_segment_inv :
    (hash : List ℕ → ℕ) (grants : Request → Bool) (limits : Limits) (header : WalHeader)
    (stored : List StoredEvent) {out : List ℕ}
    → encode_segment hash grants limits header stored ≡ ok out
    → Encoded hash grants limits header stored out
unfolding encode_segment wrap_batch write_segment
encode_segment_inv hash grants limits header stored e =
    let (native_records, e) = past_guard (any_foreign header stored) _ e in
    let (batch, written, e) = and_then-ok (encode_batch hash grants limits stored) _ e in
    let (batch_u32, e) = past_guard (ltb u32_max (length batch)) _ e in
    let (count_u32, e) = past_guard (ltb u32_max (length stored)) _ e in
    let (total, measured, e) = and_then-ok (segment_len (length batch)) _ e in
    let (small, e) = past_guard (ltb limits.max_segment_bytes total) _ e in
    let (_, _, e) = and_then-ok (reserve_exact grants (for_bytes total)) _ e in
    let size = segment_len_inv (length batch) measured in
    record {
      batch = batch;
      native_records = native_records;
      written = written;
      batch_u32 = not_ltb→le _ _ batch_u32;
      count_u32 = not_ltb→le _ _ count_u32;
      measured = measured ∙ ap ok size;
      small = omega (arith, not_ltb→le _ _ small, size);
      same = sym (ok_injective e);
    }

module _ (hash : List ℕ → ℕ) (IsSum : IsChecksum hash) (grants : Request → Bool) (limits : Limits)
    (header : WalHeader) where
  decode_embedded-batch :
      (stored : List StoredEvent) (batch : List ℕ)
      → 24 ≤ length batch
      → length stored ≤ limits.max_records
      → any_foreign header stored ≡ false
      → decode_batch hash grants limits batch ≡ ok stored
      → decode_embedded hash grants limits header (length stored) batch
        ≡ ok (record { header = header; records = stored })
  unfolding decode_embedded check_records
  decode_embedded-batch stored batch long few native_records decoded =
      cond_false _ _ (le→not_ltb (length batch) 24 long)
      ∙ cond_false _ _ (le→not_ltb limits.max_records (length stored) few)
      ∙ ap (λ r. and_then (embedded r) (check_records header (length stored))) decoded
      ∙ pass {x = length stored} _ _ refl
      ∙ cond_false _ _ native_records

  decode_footer-footer_bytes :
      (bytes batch : List ℕ) (count : ℕ)
      → get_u32 bytes 44 ≡ hash batch
      → get_u32 bytes 40 ≡ count
      → identity_at_8 bytes ≡ header
      → decode_footer hash grants limits bytes batch (footer_bytes hash)
        ≡ decode_embedded hash grants limits header count batch
  unfolding decode_footer
  decode_footer-footer_bytes bytes batch count sum counted identity =
      pass _ _ (from_le_bytes-to_le_bytes 4 (hash footer_fields) (IsSum _))
      ∙ pass _ _ (sym sum)
      ∙ ap₂ (λ header count. decode_embedded hash grants limits header count batch) identity counted

module _ (hash : List ℕ → ℕ) (IsSum : IsChecksum hash) (grants : Request → Bool) (limits : Limits)
    (header : WalHeader) (h : IsHeader header) (count : ℕ) (batch : List ℕ) where
  fields : List ℕ
  fields = segment_fields hash header count batch

  -- What stands behind the identity in the header, and behind the header.
  counts : List ℕ
  counts = to_le_bytes 4 (length batch) ++ (to_le_bytes 4 count ++ to_le_bytes 4 (hash batch))

  after : List ℕ
  unfolding fields
  after = to_le_bytes 4 (hash fields) ++ (batch ++ footer_bytes hash)

  whole : List ℕ
  whole = opening segment_magic ++ (identity_bytes header ++ (counts ++ after))

  segment_bytes_of_assoc : segment_bytes_of hash header count batch ≡ whole
  unfolding fields counts after whole
  segment_bytes_of_assoc =
      ap (λ t. opening segment_magic ++ t) (append_assoc (identity_bytes header) counts after)

  length-whole : length whole ≡ 52 + length batch + 16
  unfolding fields counts after whole
  length-whole = omega (
    arith,
    length-append (identity_bytes header) (counts ++ after),
    length-identity_bytes header h [],
    length-append batch (footer_bytes hash),
  )

  take-whole : take 48 whole ≡ fields
  unfolding fields counts after whole
  take-whole =
      ap (take 48) (sym segment_bytes_of_assoc)
      ∙ take_exact 48 fields after (
          omega (
            arith,
            length-append (identity_bytes header) counts,
            length-identity_bytes header h [],
          ))

  -- The bytes at an offset behind the identity.
  at :
      (k : ℕ)
      → drop (28 + k) (identity_bytes header ++ (counts ++ after)) ≡ drop k (counts ++ after)
  at = drop_past-identity_bytes header h (counts ++ after)

  body_at : slice whole 52 (length batch) ≡ batch
  unfolding counts after whole
  body_at =
      ap (take (length batch)) (at 16) ∙ take_exact (length batch) batch (footer_bytes hash) refl

  footer_at : drop (length batch) (drop 52 whole) ≡ footer_bytes hash
  unfolding counts after whole
  footer_at =
      ap (drop (length batch)) (at 16) ∙ drop_exact (length batch) batch (footer_bytes hash) refl

  decode_segment-whole :
      length batch ≤ u32_max
      → count ≤ u32_max
      → 52 + length batch + 16 ≤ limits.max_segment_bytes
      → segment_len (length batch) ≡ ok (52 + length batch + 16)
      → decode_segment hash grants limits whole
        ≡ decode_embedded hash grants limits header count batch
  unfolding fields counts after whole decode_segment decode_sized
  decode_segment-whole batch_u32 count_u32 small measured =
      let total = 52 + length batch + 16 in
      let number = λ (bytes : List ℕ). from_le_bytes (take 4 bytes) in
      cond_false _ _ (le→not_ltb (length whole) 52 (omega (arith, length-whole)))
      ∙ pass _ _ (
          ap number (at 12)
          ∙ from_le_bytes-to_le_bytes 4 (hash fields) (IsSum _)
          ∙ ap hash (sym take-whole))
      ∙ ap (λ n. and_then (segment_len n) (decode_sized hash grants limits whole n))
          (ap number (at 0) ∙ from_le_bytes-to_le_bytes 4 (length batch) (omega arith))
      ∙ ap (λ r. and_then r (decode_sized hash grants limits whole (length batch))) measured
      ∙ cond_false _ _ (le→not_ltb limits.max_segment_bytes total small)
      ∙ cond_false _ _ (le→not_ltb (length whole) total (omega (arith, length-whole)))
      ∙ cond_false _ _ (le→not_ltb total (length whole) (omega (arith, length-whole)))
      ∙ ap₂ (decode_footer hash grants limits whole) body_at footer_at
      ∙ decode_footer-footer_bytes hash IsSum grants limits header whole batch count
          (ap number (at 8) ∙ from_le_bytes-to_le_bytes 4 (hash batch) (IsSum _))
          (ap number (at 4) ∙ from_le_bytes-to_le_bytes 4 count (omega arith))
          (identity_at_8-identity_bytes header h (counts ++ after) 84 78 83 70)

module _ (hash : List ℕ → ℕ) (IsSum : IsChecksum hash) (limits : Limits) (header : WalHeader)
    (stored : List StoredEvent) where
  -- Under a 32-bit checksum, and where the allocator grants what the decoder asks for, a header and
  -- records with fields of the widths that their types state come back from `decode_segment` as
  -- `encode_segment` took them, under the same limits.
  pub segment-round_trip :
      (grants : Request → Bool) {out : List ℕ}
      → ((q : Request) → grants q ≡ true)
      → IsHeader header
      → Each IsRecord stored
      → encode_segment hash grants limits header stored ≡ ok out
      → decode_segment hash grants limits out ≡ ok (record { header = header; records = stored })
  segment-round_trip grants {out} granted h words e =
      let e = encode_segment_inv hash grants limits header stored e in
      let b = encode_batch_inv hash grants limits stored e.written in
      ap (decode_segment hash grants limits)
        (e.same ∙ segment_bytes_of_assoc hash IsSum grants limits header h (length stored) e.batch)
      ∙ decode_segment-whole hash IsSum grants limits header h (length stored) e.batch e.batch_u32
          e.count_u32 e.small e.measured
      ∙ decode_embedded-batch hash IsSum grants limits header stored e.batch
          (omega (arith, ap length b.same)) b.few e.native_records
          (batch-round_trip hash IsSum limits stored grants grants granted words e.written)
