-- ===== src/Format/Batch/RoundTrip.antt =====
-- A batch of crates/temnion-format/src/lib.rs: what `encode_batch` writes, `frame_length` measures
-- and `decode_batch` reads back.
use temnion.Prelude.{
  ℕ, ◌+◌, ◌≡◌, ◌≤◌, refl, ap, sym, ◌∙◌, List, [], ◌∷◌, ◌++◌, append_assoc, append-nil, Bool, true,
  ok, and_then, and_then-ok, ok_injective, bind-ok, length, take, Each, le→not_ltb, cond_false,
  u32_max, to_le_bytes, from_le_bytes, from_le_bytes-to_le_bytes, arith, ◌>>=◌,
}
use temnion.Codec.Frame.{IsChecksum, pass}
use temnion.Format.{StoredEvent, Limits, Request, for_records}
use temnion.Format.Records.{record_bytes, encode_record_body, decode_record_body}
use temnion.Format.Records.Fields.{IsRecord, Fits, reserve_exact-granted}
use temnion.Format.Records.Length.{encode_record_body_inv}
use temnion.Format.Records.RoundTrip.{decode_record_body-record_bytes}
use temnion.Format.Batch.{
  encode_bodies, batch_fields, batch_bytes, encode_batch, check_frame, frame_length, decode_bodies,
  at_end, decode_body, decode_frame, decode_batch,
}
use temnion.Format.Batch.Encoded.{encode_batch_inv}

module _ (grants : Request → Bool) (granted : (q : Request) → grants q ≡ true)
    (limits : Limits) where
  decode_bodies-encode_bodies :
      (stored : List StoredEvent) {body : List ℕ} (rest : List ℕ)
      → encode_bodies stored ≡ ok body
      → Each IsRecord stored
      → Each (Fits limits) stored
      → decode_bodies grants limits (length stored) (body ++ rest) ≡ (ok stored, rest)
  unfolding encode_bodies decode_bodies
  decode_bodies-encode_bodies [] rest w words fits =
      ap (λ body. (ok [], body ++ rest)) (sym (ok_injective w))
  decode_bodies-encode_bodies (r ∷ stored) rest w (word, words) (fit, fits) =
      let (one, first, w) = and_then-ok (encode_record_body r) _ w in
      let (more, others, w) = and_then-ok (encode_bodies stored) _ w in
      ap (λ body. decode_bodies grants limits (length (r ∷ stored)) (body ++ rest))
        (sym (ok_injective w) ∙ ap (λ one. one ++ more) (sym (encode_record_body_inv r first)))
      ∙ ap (decode_bodies grants limits (length (r ∷ stored)))
          (append_assoc (record_bytes r) more rest)
      ∙ bind-ok (decode_record_body grants limits) _
          (decode_record_body-record_bytes grants granted limits r word fit (more ++ rest))
      ∙ bind-ok (decode_bodies grants limits (length stored)) _
          (decode_bodies-encode_bodies stored rest others words fits)

  decode_body-encode_bodies :
      (stored : List StoredEvent) {body : List ℕ}
      → encode_bodies stored ≡ ok body
      → Each IsRecord stored
      → Each (Fits limits) stored
      → decode_body grants limits (length stored) body ≡ ok stored
  unfolding decode_body
  decode_body-encode_bodies stored {body} w words fits =
      ap (λ r. and_then r (λ _. ((decode_bodies grants limits (length stored) >>= at_end) body).0))
        (reserve_exact-granted grants granted (for_records (length stored)))
      ∙ ap (λ r. r.0)
          (bind-ok (decode_bodies grants limits (length stored)) at_end (
            ap (decode_bodies grants limits (length stored)) (sym (append-nil body))
            ∙ decode_bodies-encode_bodies stored [] w words fits))

-- The header of a batch whose numbers fit in 32 bits.
module _ (hash : List ℕ → ℕ) (IsSum : IsChecksum hash) (limits : Limits) (size count : ℕ)
    (body rest : List ℕ) (size_u32 : size ≤ u32_max) (count_u32 : count ≤ u32_max) where
  read_size : from_le_bytes (to_le_bytes 4 size) ≡ size
  read_size = from_le_bytes-to_le_bytes 4 size (omega arith)

  read_count : from_le_bytes (to_le_bytes 4 count) ≡ count
  read_count = from_le_bytes-to_le_bytes 4 count (omega arith)

  frame_length-batch_bytes :
      24 ≤ size
      → size ≤ limits.max_frame_bytes
      → count ≤ limits.max_records
      → frame_length hash limits (take 24 (batch_bytes hash size count body) ++ rest) ≡ ok size
  unfolding frame_length check_frame
  frame_length-batch_bytes whole small few =
      let fields = batch_fields hash size count body in
      cond_false _ _
        (le→not_ltb (length (take 24 (batch_bytes hash size count body) ++ rest)) 24 (omega arith))
      ∙ pass _ _ (from_le_bytes-to_le_bytes 4 (hash fields) (IsSum _))
      ∙ ap (λ (size, count). check_frame limits size count) (λ i. (read_size i, read_count i))
      ∙ cond_false _ _ (le→not_ltb size 24 whole)
      ∙ cond_false _ _ (le→not_ltb limits.max_frame_bytes size small)
      ∙ cond_false _ _ (le→not_ltb limits.max_records count few)

  decode_frame-batch_bytes :
      (grants : Request → Bool)
      → size ≡ 24 + length body
      → decode_frame hash grants limits (batch_bytes hash size count body) size
        ≡ decode_body grants limits count body
  unfolding decode_frame
  decode_frame-batch_bytes grants whole =
      let frame = batch_bytes hash size count body in
      cond_false _ _ (le→not_ltb (length frame) size (omega (arith, whole)))
      ∙ cond_false _ _ (le→not_ltb size (length frame) (omega (arith, whole)))
      ∙ pass _ _ (from_le_bytes-to_le_bytes 4 (hash body) (IsSum _))
      ∙ ap (λ n. decode_body grants limits n body) read_count

module _ (hash : List ℕ → ℕ) (IsSum : IsChecksum hash) (limits : Limits)
    (stored : List StoredEvent) where
  -- Under a 32-bit checksum, `frame_length` finds in the first 24 bytes of a batch that
  -- `encode_batch` returned, whatever follows them, the length of the whole batch, which is within
  -- the limit on frames.
  pub frame_length-encode_batch :
      (grants : Request → Bool) {out : List ℕ}
      → encode_batch hash grants limits stored ≡ ok out
      → (rest : List ℕ)
      → (frame_length hash limits (take 24 out ++ rest) ≡ ok (length out))
        × (length out ≤ limits.max_frame_bytes)
  frame_length-encode_batch grants {out} e rest =
      let e = encode_batch_inv hash grants limits stored e in
      let whole : length out ≡ 24 + length e.body = omega (arith, ap length e.same) in
      (
        ap (λ out. frame_length hash limits (take 24 out ++ rest)) e.same
            ∙ frame_length-batch_bytes hash IsSum limits (24 + length e.body) (length stored) e.body
                rest e.size_u32 e.count_u32 (omega arith) e.small e.few
            ∙ ap ok (sym whole),
        omega (arith, whole, e.small),
      )

  -- Under a 32-bit checksum, and where the allocator grants what the decoder asks for, the records
  -- that `encode_batch` took, with fields of the widths that their types state, are what
  -- `decode_batch` reads back from the batch under the same limits.
  pub batch-round_trip :
      (grants decoder_grants : Request → Bool) {out : List ℕ}
      → ((q : Request) → decoder_grants q ≡ true)
      → Each IsRecord stored
      → encode_batch hash grants limits stored ≡ ok out
      → decode_batch hash decoder_grants limits out ≡ ok stored
  unfolding decode_batch
  batch-round_trip grants decoder_grants {out} granted words e =
      let e = encode_batch_inv hash grants limits stored e in
      let size = 24 + length e.body in
      ap (decode_batch hash decoder_grants limits) e.same
      ∙ ap
          (λ r. and_then r (
            decode_frame hash decoder_grants limits (batch_bytes hash size (length stored) e.body)))
          (frame_length-batch_bytes hash IsSum limits size (length stored) e.body e.body e.size_u32
            e.count_u32 (omega arith) e.small e.few)
      ∙ decode_frame-batch_bytes hash IsSum limits size (length stored) e.body [] e.size_u32
          e.count_u32 decoder_grants refl
      ∙ decode_body-encode_bodies decoder_grants granted limits stored e.written words e.fits
