-- ===== src/Codec/Lengths.antt =====
-- The decoders of crates/temnion-codec/src/lib.rs return as many bytes as they are asked for.
use temnion.Prelude.{
  zero, not, expect, ◌+◌, sub_slice, from_le_bytes, ℕ, suc, ◌-◌, ◌*◌, ◌≡◌, ap, sym, ◌∙◌, Bool, true,
  false, some, some-injective, some≢none, List, [], Outcome, ok, err, panic, and_then, err≢ok,
  panic≢ok, ok_injective, length, Bool-cases, inl, inr, if◌then◌else◌, ltb, ◌==◌, ==_iff, cond_true,
  cond_false, get_elem?, subst,
}
use temnion.Codec.{CodecError, verify_frame, reserve_exact, rle, bit_pack, delta_for, xor}
use temnion.Codec.Rle
use temnion.Codec.Rle.{check_len, decode_from}
use temnion.Codec.BitPack
use temnion.Codec.BitPack.{packed_bytes_len, unpacked, remainder_at}
use temnion.Codec.DeltaFor
use temnion.Codec.DeltaFor.{add_base}
use temnion.Codec.Xor
use temnion.Codec.Xor.{decode_words, last_bytes}
use temnion.Codec.Scorer.{Codec, codecs}

-- Where an outcome is a value, it has `n` bytes.
Gives : ℕ → Outcome CodecError (List ℕ) → Type 0
Gives n (ok out) = length out ≡ n
Gives n (err e) = Unit
Gives n panic = Unit

module _ (n : ℕ) where
  and_then-Gives {ℓ} :
      {A : Type ℓ} (m : Outcome CodecError A) (f : A → Outcome CodecError (List ℕ))
      → ((a : A) → Gives n (f a))
      → Gives n (and_then m f)
  unfolding Gives
  and_then-Gives (ok a) f h = h a
  and_then-Gives (err e) f h = tt
  and_then-Gives panic f h = tt

  if-Gives :
      (b : Bool) (e : CodecError) (r : Outcome CodecError (List ℕ))
      → Gives n r
      → Gives n (if b then err e else r)
  unfolding Gives
  if-Gives true e r h = tt
  if-Gives false e r h = h

  Gives-ok :
      (r : Outcome CodecError (List ℕ)) {out : List ℕ} → Gives n r → r ≡ ok out → length out ≡ n
  unfolding Gives
  Gives-ok (ok x) h e = ap length (sym (ok_injective e)) ∙ h
  Gives-ok (err x) h e = absurd (err≢ok e)
  Gives-ok panic h e = absurd (panic≢ok e)

  check_len-Gives : (out : List ℕ) → Gives n (check_len n out)
  unfolding Gives check_len
  check_len-Gives out = elim (Bool-cases (length out == n)) [
    | inl same ↦ subst (Gives n) (sym (cond_true _ _ same)) ((==_iff (length out) n).0 same)
    | inr other ↦ subst (Gives n) (sym (cond_false _ _ other)) tt
  ]

  module _ (hash : List ℕ → ℕ) (grants : ℕ → Bool) (compressed : List ℕ) where
    rle-Gives : Gives n (temnion.Codec.Rle.decode hash grants compressed n)
    unfolding temnion.Codec.Rle.decode temnion.Codec.Rle.decode_body
    rle-Gives = and_then-Gives (verify_frame hash rle compressed n) _ (λ body.
        and_then-Gives (reserve_exact grants n) _
          (λ _. and_then-Gives (decode_from (length body) n body []) (check_len n) check_len-Gives))

    bit_pack-Gives : Gives n (temnion.Codec.BitPack.decode hash grants compressed n)
    unfolding temnion.Codec.BitPack.decode temnion.Codec.BitPack.decode_body
        temnion.Codec.BitPack.decode_counts temnion.Codec.BitPack.decode_words
    bit_pack-Gives = and_then-Gives (verify_frame hash bit_pack compressed n) _ (λ body.
        if-Gives (ltb (length body) 5) _ _ (
          and_then-Gives (expect (get_elem? body 0)) _ (λ bits. if-Gives (ltb 32 bits) _ _ (
            and_then-Gives (sub_slice 1 5 body) _ (λ bytes.
              let count = from_le_bytes bytes in
              let remainder = n - count * 4 in
              let packed_len = packed_bytes_len count bits in
              if-Gives (not (count * 4 + remainder == n)) _ _ (
                if-Gives (ltb (length body) (5 + packed_len + remainder)) _ _ (
                  and_then-Gives (reserve_exact grants n) _ (λ _.
                    and_then-Gives (unpacked 64 bits count 5 body) _ (λ words.
                      and_then-Gives (remainder_at (5 + packed_len) remainder body) _
                        (λ _. check_len-Gives _))))))))))

    delta_for-Gives : Gives n (temnion.Codec.DeltaFor.decode hash grants compressed n)
    unfolding temnion.Codec.DeltaFor.decode temnion.Codec.DeltaFor.decode_body
        temnion.Codec.DeltaFor.decode_counts temnion.Codec.DeltaFor.decode_values
    delta_for-Gives = and_then-Gives (verify_frame hash delta_for compressed n) _ (λ body.
        if-Gives (ltb (length body) 13) _ _ (
          and_then-Gives (sub_slice 0 8 body) _ (λ min_val.
            and_then-Gives (expect (get_elem? body 8)) _ (λ bits. if-Gives (ltb 64 bits) _ _ (
              and_then-Gives (sub_slice 9 13 body) _ (λ bytes.
                let count = from_le_bytes bytes in
                let remainder = n - count * 8 in
                let packed_len = packed_bytes_len count bits in
                if-Gives (ltb (length body) (13 + packed_len + remainder)) _ _ (
                  and_then-Gives (reserve_exact grants n) _ (λ _.
                    and_then-Gives
                      (and_then (unpacked 128 bits count 13 body)
                        (add_base (from_le_bytes min_val)))
                      _
                      (λ values.
                        and_then-Gives (remainder_at (13 + packed_len) remainder body) _
                          (λ _. check_len-Gives _))))))))))

    xor-Gives : Gives n (temnion.Codec.Xor.decode hash grants compressed n)
    unfolding temnion.Codec.Xor.decode temnion.Codec.Xor.decode_body
        temnion.Codec.Xor.decode_counted
    xor-Gives = and_then-Gives (verify_frame hash xor compressed n) _ (λ body.
        if-Gives (ltb (length body) 4) _ _ (
          and_then-Gives (sub_slice 0 4 body) _ (λ bytes.
            let count = from_le_bytes bytes in
            and_then-Gives (reserve_exact grants n) _ (λ _.
              and_then-Gives (if ltb 0 count then decode_words count body else ok []) _ (λ out.
                and_then-Gives (last_bytes (n - count * 8) body) _ (λ _. check_len-Gives _))))))

    -- A codec behind the raw one.
    candidate-Gives :
        (k : ℕ) (codec : Codec)
        → get_elem? (codecs hash grants) (suc k) ≡ some codec
        → Gives n (codec.decode compressed n)
    unfolding codecs
    candidate-Gives zero codec e =
        subst (λ c. Gives n (c.decode compressed n)) (some-injective _ codec e) rle-Gives
    candidate-Gives (suc zero) codec e =
        subst (λ c. Gives n (c.decode compressed n)) (some-injective _ codec e) bit_pack-Gives
    candidate-Gives (suc (suc zero)) codec e =
        subst (λ c. Gives n (c.decode compressed n)) (some-injective _ codec e) delta_for-Gives
    candidate-Gives (suc (suc (suc zero))) codec e =
        subst (λ c. Gives n (c.decode compressed n)) (some-injective _ codec e) xor-Gives
    candidate-Gives (suc (suc (suc (suc k)))) codec e = absurd (some≢none (sym e))

-- Each of the codecs but the raw one, where it decodes some bytes to an output, returns as many
-- bytes as it was asked for.
pub decode-length :
    (hash : List ℕ → ℕ) (grants : ℕ → Bool) (compressed : List ℕ) (expected k : ℕ) (codec : Codec)
    {out : List ℕ}
    → get_elem? (codecs hash grants) (suc k) ≡ some codec
    → codec.decode compressed expected ≡ ok out
    → length out ≡ expected
decode-length hash grants compressed expected k codec at run =
    Gives-ok expected (codec.decode compressed expected)
      (candidate-Gives expected hash grants compressed k codec at) run
