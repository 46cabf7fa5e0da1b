-- ===== src/Codec/Slices.antt =====
-- `verify_frame` of crates/temnion-codec/src/lib.rs does not panic: its indices and slices are within
-- a frame that holds a whole header.
use temnion.Prelude.{
  sub_slice, slice_from, sub_slice-no_panic, slice_from-no_panic, from_le_bytes, ℕ, ◌≤◌, ◌<◌, ◌≡◌,
  ◌≢◌, refl, ap, sym, ◌∙◌, List, Bool, true, false, not, Outcome, err, panic, and_then-no_panic,
  ok≢panic, err≢panic, length, arith, if◌then◌else◌, ltb, not_ltb→le, ◌==◌, get_elem?,
  get_elem?-total, expect,
}
use temnion.Codec.{
  CodecId, CodecError, from_u8, codec_eq, verify_frame, verify_id, verify_version, verify_len,
  verify_body, verify_sums, reserve_exact, bytes_eq, codec_magic,
}

-- A test that ends in an error leaves the other branch to look at.
pub if-no_panic {ℓ} :
    {A : Type ℓ} (b : Bool) (e : CodecError) (r : Outcome CodecError A)
    → (b ≡ false → r ≢ panic)
    → (if b then err e else r) ≢ panic
if-no_panic true e r h = err≢panic
if-no_panic false e r h = h refl

pub both-no_panic {ℓ} :
    {A : Type ℓ} (b : Bool) (x y : Outcome CodecError A)
    → x ≢ panic
    → y ≢ panic
    → (if b then x else y) ≢ panic
both-no_panic true x y h k = h
both-no_panic false x y h k = k

pub reserve_exact-no_panic : (grants : ℕ → Bool) (n : ℕ) → reserve_exact grants n ≢ panic
unfolding reserve_exact
reserve_exact-no_panic grants n = both-no_panic (grants n) _ _ ok≢panic err≢panic

from_u8-no_panic : (value : ℕ) → from_u8 value ≢ panic
unfolding from_u8
from_u8-no_panic value = both-no_panic (value == 0) _ _ ok≢panic (
    both-no_panic (value == 1) _ _ ok≢panic (
      both-no_panic (value == 2) _ _ ok≢panic (
        both-no_panic (value == 3) _ _ ok≢panic
          (both-no_panic (value == 4) _ _ ok≢panic err≢panic))))

pub expect-no_panic :
    (xs : List ℕ) (i : ℕ) → i < length xs → expect {E = CodecError} (get_elem? xs i) ≢ panic
expect-no_panic xs i h e =
    let (x, found) = get_elem?-total xs i h in ok≢panic (ap expect (sym found) ∙ e)

module _ (hash : List ℕ → ℕ) where
  verify_body-no_panic : (c : List ℕ) → 20 ≤ length c → verify_body hash c ≢ panic
  unfolding verify_body
  verify_body-no_panic c h =
      and_then-no_panic (slice_from 20 c) _ (slice_from-no_panic 20 c h) (λ body _.
        and_then-no_panic (sub_slice 12 16 c) _
          (sub_slice-no_panic 12 16 c (omega arith) (omega (arith, h)))
          (λ body_crc _.
            if-no_panic (not (hash body == from_le_bytes body_crc)) _ _ (λ _. ok≢panic)))

  verify_len-no_panic : (c : List ℕ) (n : ℕ) → 20 ≤ length c → verify_len hash c n ≢ panic
  unfolding verify_len
  verify_len-no_panic c n h =
      and_then-no_panic (sub_slice 8 12 c) _
        (sub_slice-no_panic 8 12 c (omega arith) (omega (arith, h)))
        (λ original_len _.
          if-no_panic (not (from_le_bytes original_len == n)) _ _ (λ _. verify_body-no_panic c h))

  verify_version-no_panic :
      (c : List ℕ) (n version : ℕ) → 20 ≤ length c → verify_version hash c n version ≢ panic
  unfolding verify_version verify_sums
  verify_version-no_panic c n version h = if-no_panic (not (version == 1)) _ _ (λ _.
      and_then-no_panic (sub_slice 16 20 c) _ (sub_slice-no_panic 16 20 c (omega arith) h)
        (λ header_crc _.
          and_then-no_panic (sub_slice 0 16 c) _
            (sub_slice-no_panic 0 16 c (omega arith) (omega (arith, h)))
            (λ covered _.
              if-no_panic (not (hash covered == from_le_bytes header_crc)) _ _
                (λ _. verify_len-no_panic c n h))))

  pub verify_frame-no_panic :
      (id : CodecId) (compressed : List ℕ) (n : ℕ) → verify_frame hash id compressed n ≢ panic
  unfolding verify_frame verify_id
  verify_frame-no_panic id compressed n = if-no_panic (ltb (length compressed) 20) _ _ (λ whole.
      let long = not_ltb→le (length compressed) 20 whole in
      and_then-no_panic (sub_slice 0 4 compressed) _
        (sub_slice-no_panic 0 4 compressed (omega arith) (omega (arith, long)))
        (λ magic _. if-no_panic (not (bytes_eq magic codec_magic)) _ _ (λ _.
          and_then-no_panic _ (verify_id hash id compressed n)
            (and_then-no_panic (expect (get_elem? compressed 4)) from_u8
              (expect-no_panic compressed 4 (omega arith)) (λ value _. from_u8-no_panic value))
            (λ codec_id _. if-no_panic (not (codec_eq codec_id id)) _ _ (λ _.
              and_then-no_panic (expect (get_elem? compressed 5)) (verify_version hash compressed n)
                (expect-no_panic compressed 5 (omega arith))
                (λ version _. verify_version-no_panic compressed n version long))))))
