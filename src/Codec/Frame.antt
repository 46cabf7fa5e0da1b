-- ===== src/Codec/Frame.antt =====
-- The checked frame of crates/temnion-codec/src/lib.rs: what `frame_compressed` writes,
-- `verify_frame` reads back.
use temnion.Prelude.{
  ℕ, ◌+◌, ◌≤◌, ◌<◌, ◌≡◌, refl, ap, sym, ◌∙◌, List, Bool, true, not, ok, and_then, and_then-ok,
  length, arith, Bool-cases, inl, inr, if◌then◌else◌, ltb, ◌==◌, not_ltb→le, le→not_ltb, ==-self,
  u32_max, as_u32, byte_bound, from_le_bytes-to_le_bytes, err≢ok, ok_injective, cond_true,
  cond_false, and_then-sub_slice, and_then-slice_from,
}
use temnion.Codec.{
  CodecId, raw, rle, bit_pack, delta_for, xor, as_byte, from_u8, header, framed, frame_compressed,
  verify_frame, verify_id, verify_version, verify_sums, verify_len, verify_body, reserve_exact,
  encode, decode,
}

-- A checksum is a `u32`.
abbrev pub IsChecksum : (List ℕ → ℕ) → Type 0
IsChecksum hash = (bytes : List ℕ) → hash bytes < byte_bound 4

from_u8-as_byte : (id : CodecId) → from_u8 (as_byte id) ≡ ok id
unfolding from_u8
from_u8-as_byte raw = refl
from_u8-as_byte rle = refl
from_u8-as_byte bit_pack = refl
from_u8-as_byte delta_for = refl
from_u8-as_byte xor = refl

as_u32_small : (n : ℕ) → n ≤ u32_max → as_u32 n ≡ n
as_u32_small n h = omega arith

-- A comparison that the frame passes.
pub pass {ℓ} : {A : Type ℓ} {x y : ℕ} (a b : A) → x ≡ y → (if not (x == y) then a else b) ≡ b
pass {x} a b e = ap (λ z. if not (x == z) then a else b) (sym e) ∙ rw ==-self

module _ (hash : List ℕ → ℕ) (grants : ℕ → Bool) where
  pub frame_compressed_inv :
      (id : CodecId) (n : ℕ) (body : List ℕ) {out : List ℕ}
      → frame_compressed hash grants id n body ≡ ok out
      → (n ≤ u32_max) × (out ≡ framed hash id n body)
  unfolding frame_compressed
  frame_compressed_inv id n body e = elim (Bool-cases (ltb u32_max n)) [
    | inl large ↦ absurd (err≢ok (sym (cond_true _ _ large) ∙ e))
    | inr small ↦
        let (_, _, same) =
          and_then-ok (reserve_exact grants (20 + length body)) (λ _. ok (framed hash id n body))
            (sym (cond_false _ _ small) ∙ e) in
        (not_ltb→le _ _ small, sym (ok_injective same))
  ]

  pub frame_compressed_runs :
      (id : CodecId) (n : ℕ) (body : List ℕ)
      → n ≤ u32_max
      → grants (20 + length body) ≡ true
      → frame_compressed hash grants id n body ≡ ok (framed hash id n body)
  unfolding frame_compressed reserve_exact
  frame_compressed_runs id n body h g = rw (le→not_ltb _ _ h, g)

module _ (hash : List ℕ → ℕ) (IsSum : IsChecksum hash) where
  verify_sums-framed :
      (id : CodecId) (n : ℕ) (body : List ℕ)
      → n ≤ u32_max
      → verify_sums hash (framed hash id n body) n ≡ ok body
  unfolding verify_sums verify_len verify_body
  verify_sums-framed id n body h =
      let frame = framed hash id n body in
      let long : 20 ≤ length frame = omega arith in
      and_then-sub_slice 16 20 frame _ (omega arith) long
      ∙ and_then-sub_slice 0 16 frame _ (omega arith) (omega (arith, long))
      ∙ pass _ _ (sym (from_le_bytes-to_le_bytes 4 (hash (header hash id n body)) (IsSum _)))
      ∙ and_then-sub_slice 8 12 frame _ (omega arith) (omega (arith, long))
      ∙ pass _ _ (from_le_bytes-to_le_bytes 4 (as_u32 n) (omega arith) ∙ as_u32_small n h)
      ∙ and_then-slice_from 20 frame _ long
      ∙ and_then-sub_slice 12 16 frame _ (omega arith) (omega (arith, long))
      ∙ pass _ _ (sym (from_le_bytes-to_le_bytes 4 (hash body) (IsSum _)))

  verify_frame-framed :
      (id : CodecId) (n : ℕ) (body : List ℕ)
      → n ≤ u32_max
      → verify_frame hash id (framed hash id n body) n ≡ ok body
  unfolding verify_frame verify_id verify_version
  verify_frame-framed id n body h =
      cond_false _ _ (le→not_ltb (length (framed hash id n body)) 20 (omega arith))
      ∙ and_then-sub_slice 0 4 (framed hash id n body) _ (omega arith) (omega arith)
      ∙ ap (λ r. and_then r (verify_id hash id (framed hash id n body) n)) (from_u8-as_byte id)
      ∙ pass {x = as_byte id} _ _ refl
      ∙ verify_sums-framed id n body h

  -- Under a 32-bit checksum, the frame that `frame_compressed` returns around a body is accepted by
  -- `verify_frame` for the same codec and length, which gives that body back.
  pub verify_frame-frame_compressed :
      (grants : ℕ → Bool) (id : CodecId) (n : ℕ) (body : List ℕ) {out : List ℕ}
      → frame_compressed hash grants id n body ≡ ok out
      → verify_frame hash id out n ≡ ok body
  verify_frame-frame_compressed grants id n body e =
      let (small, same) = frame_compressed_inv hash grants id n body e in
      ap (λ frame. verify_frame hash id frame n) same ∙ verify_frame-framed id n body small

  -- Under a 32-bit checksum and an allocator that grants the input's length, what `RawCodec`
  -- encodes an input to, it decodes to that input.
  pub raw-round_trip :
      (grants : ℕ → Bool) (input : List ℕ) {out : List ℕ}
      → grants (length input) ≡ true
      → encode hash grants input ≡ ok out
      → decode hash grants out (length input) ≡ ok input
  unfolding encode decode reserve_exact
  raw-round_trip grants input {out} g e =
      ap (λ r. and_then r (λ body. and_then (reserve_exact grants (length body)) (λ _. ok body)))
        (verify_frame-frame_compressed grants raw (length input) input e)
      ∙ rw g
