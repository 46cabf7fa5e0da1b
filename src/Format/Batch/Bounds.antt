-- ===== src/Format/Batch/Bounds.antt =====
-- The limits of crates/temnion-format/src/lib.rs on what a decoder returns, whatever the bytes.
use temnion.Prelude.{
  ℕ, zero, suc, ◌/◌, ◌≡◌, ◌≤◌, refl, ap, sym, ◌∙◌, List, [], ◌∷◌, Option, Bool, ok, ok_pair,
  ok_injective, and_then-ok, past_guard, bind_inv, Ensures, bind-Ensures, bind-Ensures_last,
  pure-Ensures, asks, length, length-take_le, take, drop, Each, ltb, not, ◌==◌, not_ltb→le, arith,
  Bool-cases, inl, inr, true, false, cond_true, cond_false, err≢ok_pair, subst, ◌>>=◌,
}
use temnion.Core.{EventId, Timestamp}
use temnion.Format.{
  StoredEvent, Limits, FormatError, limit_exceeded, payload_bytes, causes_per_event, invalid_data,
  unsupported_record_flags, Field, Request, for_bytes, for_causes, for_records, reserve_exact,
  read_u16, read_u32, get_u16, get_u32, batch_header_len, format_version, no_flags,
}
use temnion.Format.Records.{
  read_event_id, read_entity, read_timestamp, read_observed, read_causes, read_payload, read_counts,
  read_tail, decode_record_body, refuse_if,
}
use temnion.Codec.{bytes_eq}
use temnion.Format.Batch.{
  batch_magic, check_frame, frame_length, decode_bodies, at_end, decode_body, decode_frame,
  decode_batch,
}

-- A record within the limits on payloads and causes.
abbrev pub InLimits : Limits → StoredEvent → Type 0
InLimits limits r =
    (length r.payload ≤ limits.max_payload_bytes) × (length r.causes ≤ limits.max_causes)

refuse_if-Ensures : (stop : Bool) (e : FormatError) → Ensures (λ _. stop ≡ false) (refuse_if stop e)
refuse_if-Ensures true e s a t h = absurd (err≢ok_pair h)
refuse_if-Ensures false e s a t h = refl

-- The numbers of causes and of payload bytes that a record may state.
abbrev CountsInLimits : Limits → ℕ × ℕ × ℕ → Type 0
CountsInLimits limits (flags, count, size) =
    (count ≤ limits.max_causes) × (size ≤ limits.max_payload_bytes)

read_counts-Ensures : (limits : Limits) → Ensures (CountsInLimits limits) (read_counts limits)
unfolding read_counts
read_counts-Ensures limits =
    let P = CountsInLimits limits in
    bind-Ensures_last (read_u16 Field.record_flags) P _ (λ flags.
      bind-Ensures_last (refuse_if (not (flags / 2 == 0)) (invalid_data unsupported_record_flags)) P
        _
        (λ _. bind-Ensures_last (read_u16 Field.cause_count) P _ (λ count.
          bind-Ensures (refuse_if (ltb limits.max_causes count) (limit_exceeded causes_per_event))
            (λ _. ltb limits.max_causes count ≡ false) P _ (refuse_if-Ensures _ _)
            (λ _ few. bind-Ensures_last (read_u32 Field.payload_length) P _ (λ size.
              bind-Ensures
                (refuse_if (ltb limits.max_payload_bytes size) (limit_exceeded payload_bytes))
                (λ _. ltb limits.max_payload_bytes size ≡ false) P _ (refuse_if-Ensures _ _)
                (λ _ small.
                  pure-Ensures P (flags, count, size)
                    (not_ltb→le _ _ few, not_ltb→le _ _ small)))))))

read_causes-Ensures : (count : ℕ) → Ensures (λ causes. length causes ≡ count) (read_causes count)
unfolding read_causes
read_causes-Ensures zero = pure-Ensures (λ causes. length causes ≡ 0) [] refl
read_causes-Ensures (suc count) =
    let P = λ (causes : List EventId). length causes ≡ suc count in
    bind-Ensures_last (read_event_id Field.cause_source Field.cause_epoch Field.cause_sequence) P _
      (λ cause.
        bind-Ensures (read_causes count) (λ causes. length causes ≡ count) P _
          (read_causes-Ensures count)
          (λ causes size. pure-Ensures P (cause ∷ causes) (ap suc size)))

module _ (grants : Request → Bool) where
  read_payload-Ensures : (size : ℕ) → Ensures (λ p. length p ≡ size) (read_payload grants size)
  unfolding read_payload
  read_payload-Ensures size rest payload t e = elim (Bool-cases (ltb (length rest) size)) [
    | inl short ↦ absurd (err≢ok_pair (sym (cond_true _ _ short) ∙ e))
    | inr long ↦
        let (_, s, asked, e) =
          bind_inv (asks (λ _. reserve_exact grants (for_bytes size)))
            (λ _ rest. (ok (take size rest), drop size rest)) rest
            (sym (cond_false _ _ long) ∙ e) in
        let kept : rest ≡ s = ap (λ r. r.1) asked in
        ap length (sym (ok_pair e).0)
        ∙ ap (λ s. length (take size s)) (sym kept)
        ∙ length-take_le size rest (not_ltb→le _ _ long)
  ]

  abbrev TailOf : ℕ × ℕ × ℕ → Option Timestamp × List EventId × List ℕ → Type 0
  TailOf (flags, count, size) (observed, causes, payload) =
      (length causes ≡ count) × (length payload ≡ size)

  read_tail-Ensures :
      (flags count size : ℕ)
      → Ensures (TailOf (flags, count, size)) (read_tail grants (flags, count, size))
  unfolding read_tail
  read_tail-Ensures flags count size =
      let P = TailOf (flags, count, size) in
      bind-Ensures_last (read_observed flags) P _ (λ observed.
        bind-Ensures_last (asks (λ _. reserve_exact grants (for_causes count))) P _ (λ _.
          bind-Ensures (read_causes count) (λ causes. length causes ≡ count) P _
            (read_causes-Ensures count)
            (λ causes few.
              bind-Ensures (read_payload grants size) (λ p. length p ≡ size) P _
                (read_payload-Ensures size)
                (λ payload small. pure-Ensures P (observed, causes, payload) (few, small)))))

module _ (grants : Request → Bool) (limits : Limits) where
  InLimits-of :
      (counts : ℕ × ℕ × ℕ) (tail : Option Timestamp × List EventId × List ℕ)
      → CountsInLimits limits counts
      → TailOf grants counts tail
      → (length tail.2 ≤ limits.max_payload_bytes) × (length tail.1 ≤ limits.max_causes)
  InLimits-of (flags, count, size) (o, causes, payload) (few, small) (p, q) =
      (omega (arith, small, q), omega (arith, few, p))

  decode_record_body-Ensures : Ensures (InLimits limits) (decode_record_body grants limits)
  unfolding decode_record_body
  decode_record_body-Ensures =
      let P = InLimits limits in
      bind-Ensures_last (read_event_id Field.event_source Field.event_epoch Field.event_sequence) P
        _
        (λ id. bind-Ensures_last read_entity P _ (λ entity.
          bind-Ensures_last (read_timestamp Field.valid_clock Field.valid_ticks) P _ (λ valid.
            bind-Ensures_last (read_timestamp Field.known_clock Field.known_ticks) P _ (λ known.
              bind-Ensures_last (read_u32 Field.schema_id) P _ (λ schema.
                bind-Ensures (read_counts limits) (CountsInLimits limits) P _
                  (read_counts-Ensures limits)
                  (λ counts bounded.
                    bind-Ensures (read_tail grants counts) (TailOf grants counts) P _
                      (read_tail-Ensures grants counts.0 counts.1 counts.2)
                      (λ tail sized. pure-Ensures P _ (InLimits-of counts tail bounded sized))))))))

  abbrev Bodies : ℕ → List StoredEvent → Type 0
  Bodies count stored = (length stored ≡ count) × Each (InLimits limits) stored

  decode_bodies-Ensures : (count : ℕ) → Ensures (Bodies count) (decode_bodies grants limits count)
  unfolding decode_bodies
  decode_bodies-Ensures zero = pure-Ensures (Bodies 0) [] (refl, tt)
  decode_bodies-Ensures (suc count) =
      let P = Bodies (suc count) in
      bind-Ensures (decode_record_body grants limits) (InLimits limits) P _
        decode_record_body-Ensures
        (λ r within.
          bind-Ensures (decode_bodies grants limits count) (Bodies count) P _
            (decode_bodies-Ensures count)
            (λ more (size, each). pure-Ensures P (r ∷ more) (ap suc size, (within, each))))

  at_end-Ensures :
      (count : ℕ) (stored : List StoredEvent)
      → Bodies count stored
      → Ensures (Bodies count) (at_end stored)
  at_end-Ensures count stored h rest a t e = elim (Bool-cases (length rest == 0)) [
    | inl done ↦ subst (Bodies count) (ok_pair (sym (cond_true _ _ done) ∙ e)).0 h
    | inr more ↦ absurd (err≢ok_pair (sym (cond_false _ _ more) ∙ e))
  ]

  decode_body-InLimits :
      (count : ℕ) (body : List ℕ) {stored : List StoredEvent}
      → decode_body grants limits count body ≡ ok stored
      → Bodies count stored
  unfolding decode_body
  decode_body-InLimits count body {stored} e =
      let (_, _, e) = and_then-ok (reserve_exact grants (for_records count)) _ e in
      let run = decode_bodies grants limits count >>= at_end in
      bind-Ensures (decode_bodies grants limits count) (Bodies count) (Bodies count) at_end
        (decode_bodies-Ensures count) (at_end-Ensures count) body stored ((run body).1)
        (λ i. (e i, (run body).1))

check_frame_inv :
    (limits : Limits) (frame_len count : ℕ) {n : ℕ}
    → check_frame limits frame_len count ≡ ok n
    → (n ≡ frame_len) × (n ≤ limits.max_frame_bytes) × (count ≤ limits.max_records)
unfolding check_frame
check_frame_inv limits frame_len count e =
    let (_, e) = past_guard (ltb frame_len batch_header_len) _ e in
    let (small, e) = past_guard (ltb limits.max_frame_bytes frame_len) _ e in
    let (few, e) = past_guard (ltb limits.max_records count) _ e in
    let same = ok_injective e in
    (sym same, omega (arith, same, not_ltb→le _ _ small), not_ltb→le _ _ few)

module _ (hash : List ℕ → ℕ) (grants : Request → Bool) (limits : Limits) (frame : List ℕ) where
  frame_length_inv :
      {n : ℕ}
      → frame_length hash limits frame ≡ ok n
      → (n ≤ limits.max_frame_bytes) × (get_u32 frame 12 ≤ limits.max_records)
  unfolding frame_length
  frame_length_inv e =
      let (_, e) = past_guard (ltb (length frame) batch_header_len) _ e in
      let (_, e) = past_guard (not (bytes_eq (take 4 frame) batch_magic)) _ e in
      let (_, e) = past_guard (not (get_u16 frame 4 == format_version)) _ e in
      let (_, e) = past_guard (not (get_u16 frame 6 == no_flags)) _ e in
      let (_, e) = past_guard (not (get_u32 frame 20 == hash (take 20 frame))) _ e in
      let (_, small, few) = check_frame_inv limits (get_u32 frame 8) (get_u32 frame 12) e in
      (small, few)

  -- Whatever the bytes, a frame that `decode_batch` accepts is no longer than the limit on frames,
  -- it holds at most the limit of records, and each of them is within the limits on payload bytes
  -- and on causes.
  pub decode_batch-InLimits :
      {stored : List StoredEvent}
      → decode_batch hash grants limits frame ≡ ok stored
      → (length frame ≤ limits.max_frame_bytes)
        × (length stored ≤ limits.max_records)
        × Each (InLimits limits) stored
  unfolding decode_batch decode_frame
  decode_batch-InLimits e =
      let (n, sized, e) = and_then-ok (frame_length hash limits frame) _ e in
      let (small, few) = frame_length_inv sized in
      let (_, e) = past_guard (ltb (length frame) n) _ e in
      let (whole, e) = past_guard (ltb n (length frame)) _ e in
      let body = drop batch_header_len frame in
      let (_, e) = past_guard (not (get_u32 frame 16 == hash body)) _ e in
      let (size, each) = decode_body-InLimits grants limits (get_u32 frame 12) body e in
      (omega (arith, small, not_ltb→le _ _ whole), omega (arith, few, size), each)
