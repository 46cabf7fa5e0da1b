-- ===== src/Format/Records/Length.antt =====
-- The length of a record of crates/temnion-format/src/lib.rs, which the encoder sums before it
-- writes anything.
use temnion.Prelude.{
  ℕ, ◌+◌, ◌*◌, ◌≡◌, refl, List, [], ◌∷◌, ◌++◌, Option, none, some, ok, and_then-ok, past_guard,
  ok_or-ok, ok_or, ok_injective, checked_add, checked_mul, checked_add_inv, checked_mul_inv, length,
  length-append, ltb, not_ltb→le, u32_max, arith,
}
use temnion.Core.{EventId, Timestamp}
use temnion.Format.{StoredEvent, Limits, invalid_data, record_length_overflow}
use temnion.Format.Records.{
  observed_len, sum_len, encoded_record_len, observed_bytes, cause_bytes, record_bytes,
  encode_record_body, record_fixed_len,
}
use temnion.Format.Records.Fields.{Fits}

length-observed_bytes : (o : Option Timestamp) → length (observed_bytes o) ≡ observed_len o
length-observed_bytes none = refl
length-observed_bytes (some t) = refl

length-cause_bytes : (causes : List EventId) → length (cause_bytes causes) ≡ length causes * 20
unfolding cause_bytes
length-cause_bytes [] = refl
length-cause_bytes (e ∷ causes) = omega (arith, length-cause_bytes causes)

length-record_bytes :
    (r : StoredEvent)
    → length (record_bytes r)
      ≡ 68 + observed_len r.times.observed + length r.causes * 20 + length r.payload
length-record_bytes r =
    let causes = cause_bytes r.causes in
    omega (
      arith,
      length-append (observed_bytes r.times.observed) (causes ++ r.payload),
      length-append causes r.payload,
      length-observed_bytes r.times.observed,
      length-cause_bytes r.causes,
    )

sum_len_inv :
    (observed causes payload : ℕ) {n : ℕ}
    → sum_len observed causes payload ≡ ok n
    → n ≡ 68 + observed + causes + payload
sum_len_inv observed causes payload e =
    let overflow = invalid_data record_length_overflow in
    let (a, first, e) = and_then-ok (ok_or (checked_add record_fixed_len observed) overflow) _ e in
    let (b, second, third) = and_then-ok (ok_or (checked_add a causes) overflow) _ e in
    let (p, _) = checked_add_inv record_fixed_len observed (ok_or-ok _ _ first) in
    let (q, _) = checked_add_inv a causes (ok_or-ok _ _ second) in
    let (r, _) = checked_add_inv b payload (ok_or-ok _ _ third) in omega (arith, p, q, r)

-- A record whose length the encoder accepts is within the limits, and has that length.
pub encoded_record_len_inv :
    (r : StoredEvent) (limits : Limits) {n : ℕ}
    → encoded_record_len r limits ≡ ok n
    → Fits limits r × (n ≡ length (record_bytes r))
unfolding encoded_record_len
encoded_record_len_inv r limits e =
    let (payload_limit, e) = past_guard (ltb limits.max_payload_bytes (length r.payload)) _ e in
    let (payload_u32, e) = past_guard (ltb u32_max (length r.payload)) _ e in
    let (causes_limit, e) = past_guard (ltb limits.max_causes (length r.causes)) _ e in
    let (causes_u16, e) = past_guard (ltb 65535 (length r.causes)) _ e in
    let (causes, product, sum) =
      and_then-ok (ok_or (checked_mul (length r.causes) 20) (invalid_data record_length_overflow)) _
        e in
    let p = checked_mul_inv (length r.causes) 20 (ok_or-ok _ _ product) in
    let q = sum_len_inv (observed_len r.times.observed) causes (length r.payload) sum in
    (
      record {
        payload_limit = not_ltb→le _ _ payload_limit;
        payload_u32 = omega (arith, not_ltb→le _ _ payload_u32);
        causes_limit = not_ltb→le _ _ causes_limit;
        causes_u16 = omega (arith, not_ltb→le _ _ causes_u16);
      },
      omega (arith, p, q, length-record_bytes r),
    )

pub encode_record_body_inv :
    (r : StoredEvent) {out : List ℕ} → encode_record_body r ≡ ok out → record_bytes r ≡ out
unfolding encode_record_body
encode_record_body_inv r e =
    let (_, e) = past_guard (ltb u32_max (length r.payload)) _ e in
    let (_, e) = past_guard (ltb 65535 (length r.causes)) _ e in ok_injective e
