-- ===== src/Format/Batch/Encoded.antt =====
-- A batch of crates/temnion-format/src/lib.rs: what `encode_batch` checked before it wrote.
use temnion.Prelude.{
  ℕ, ◌+◌, ◌≡◌, ◌≤◌, ap, sym, ◌∙◌, List, [], ◌∷◌, Bool, ok, and_then-ok, past_guard, ok_or-ok, ok_or,
  ok_injective, checked_add, checked_add_inv, length, length-append, Each, ltb, not_ltb→le, u32_max,
  arith,
}
use temnion.Format.{
  StoredEvent, Limits, Request, reserve_exact, for_bytes, invalid_data, frame_length_overflow,
  batch_header_len,
}
use temnion.Format.Records.{encoded_record_len, encode_record_body}
use temnion.Format.Records.Fields.{Fits}
use temnion.Format.Records.Length.{encoded_record_len_inv, encode_record_body_inv}
use temnion.Format.Batch.{body_len_from, encode_bodies, batch_bytes, write_batch, encode_batch}

-- What the encoder checked of records that it wrote.
bodies_inv :
    (limits : Limits) (total : ℕ) (stored : List StoredEvent) {n : ℕ} {body : List ℕ}
    → body_len_from limits total stored ≡ ok n
    → encode_bodies stored ≡ ok body
    → Each (Fits limits) stored × (n ≡ total + length body)
unfolding body_len_from encode_bodies
bodies_inv limits total [] e w = (tt, omega (arith, ok_injective e, ap length (ok_injective w)))
bodies_inv limits total (r ∷ stored) e w =
    let (len, measured, e) = and_then-ok (encoded_record_len r limits) _ e in
    let (sum, added, e) =
      and_then-ok (ok_or (checked_add total len) (invalid_data frame_length_overflow)) _ e in
    let (one, first, w) = and_then-ok (encode_record_body r) _ w in
    let (more, others, w) = and_then-ok (encode_bodies stored) _ w in
    let (fits, size) = encoded_record_len_inv r limits measured in
    let (rest_fits, total_size) = bodies_inv limits sum stored e others in
    let (p, _) = checked_add_inv total len (ok_or-ok _ _ added) in
    (
      (fits, rest_fits),
      omega (
        arith,
        p,
        size,
        total_size,
        ap length (encode_record_body_inv r first),
        ap length (ok_injective w),
        length-append one more,
      ),
    )

-- What is known of a batch that `encode_batch` returns.
pub record Encoded (hash : List ℕ → ℕ) (limits : Limits) (stored : List StoredEvent) (out : List ℕ)
    : Type 0 where
  pub body : List ℕ
  pub written : encode_bodies stored ≡ ok body
  pub fits : Each (Fits limits) stored
  pub few : length stored ≤ limits.max_records
  pub count_u32 : length stored ≤ u32_max
  pub small : 24 + length body ≤ limits.max_frame_bytes
  pub size_u32 : 24 + length body ≤ u32_max
  pub same : out ≡ batch_bytes hash (24 + length body) (length stored) body

pub encode_batch_inv :
    (hash : List ℕ → ℕ) (grants : Request → Bool) (limits : Limits) (stored : List StoredEvent)
    {out : List ℕ}
    → encode_batch hash grants limits stored ≡ ok out
    → Encoded hash limits stored out
unfolding encode_batch write_batch
encode_batch_inv hash grants limits stored e =
    let (few, e) = past_guard (ltb limits.max_records (length stored)) _ e in
    let (body_len, measured, e) = and_then-ok (body_len_from limits 0 stored) _ e in
    let (frame_len, added, e) =
      and_then-ok
        (ok_or (checked_add batch_header_len body_len) (invalid_data frame_length_overflow)) _ e in
    let (small, e) = past_guard (ltb limits.max_frame_bytes frame_len) _ e in
    let (size_u32, e) = past_guard (ltb u32_max frame_len) _ e in
    let (count_u32, e) = past_guard (ltb u32_max (length stored)) _ e in
    let (_, _, e) = and_then-ok (reserve_exact grants (for_bytes frame_len)) _ e in
    let (body, written, e) = and_then-ok (encode_bodies stored) _ e in
    let (p, _) = checked_add_inv batch_header_len body_len (ok_or-ok _ _ added) in
    let (fits, size) = bodies_inv limits 0 stored measured written in
    let whole : frame_len ≡ 24 + length body = omega (arith, p, size) in
    record {
      body = body;
      written = written;
      fits = fits;
      few = not_ltb→le _ _ few;
      count_u32 = not_ltb→le _ _ count_u32;
      small = omega (arith, not_ltb→le _ _ small, whole);
      size_u32 = omega (arith, not_ltb→le _ _ size_u32, whole);
      same = sym (ok_injective e) ∙ ap (λ n. batch_bytes hash n (length stored) body) whole;
    }
