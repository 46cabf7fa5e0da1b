-- ===== src/Format/Records/RoundTrip.antt =====
-- The records of crates/temnion-format/src/lib.rs: the bytes of a record are read back as the
-- record, whatever stands behind them.
use temnion.Prelude.{
  ℕ, ◌/◌, ◌≡◌, ◌≤◌, ◌<◌, refl, ap, ◌∙◌, List, ◌++◌, append_assoc, Option, none, some, Bool, true,
  false, not, ◌==◌, ltb, ok, bind-ok, length, le→not_ltb, byte_bound, to_le_bytes, arith,
}
use temnion.Format.{
  StoredEvent, Limits, Field, Request, read_u16, read_u32, limit_exceeded, payload_bytes,
  causes_per_event, invalid_data, unsupported_record_flags,
}
use temnion.Format.Records.{
  entity_bytes, timestamp_bytes, flags_of, observed_bytes, cause_bytes, fixed_bytes, record_bytes,
  read_event_id, read_entity, read_timestamp, read_counts, read_tail, decode_record_body, refuse_if,
}
use temnion.Format.Records.Fields.{
  IsRecord, Fits, read_u16-to_le_bytes, read_u32-to_le_bytes, read_event_id-id_bytes,
  read_entity-entity_bytes, read_timestamp-timestamp_bytes, read_tail-bytes,
}

flags_u16 : (o : Option _) → flags_of o < byte_bound 2
flags_u16 none = omega arith
flags_u16 (some t) = omega arith

flags_known : (o : Option _) → not (flags_of o / 2 == 0) ≡ false
flags_known none = refl
flags_known (some t) = refl

passes :
    {stop : Bool} (e : _) (rest : List ℕ) → stop ≡ false → refuse_if stop e rest ≡ (ok tt, rest)
passes e rest h = ap (λ b. refuse_if b e rest) h

read_counts-bytes :
    (limits : Limits) (o : Option _) (count size : ℕ) (rest : List ℕ)
    → count ≤ limits.max_causes
    → count < byte_bound 2
    → size ≤ limits.max_payload_bytes
    → size < byte_bound 4
    → read_counts limits
        (to_le_bytes 2 (flags_of o) ++ (to_le_bytes 2 count ++ (to_le_bytes 4 size ++ rest)))
      ≡ (ok (flags_of o, count, size), rest)
unfolding read_counts
read_counts-bytes limits o count size rest count_limit count_u16 size_limit size_u32 =
    let after_count = to_le_bytes 4 size ++ rest in
    let after_flags = to_le_bytes 2 count ++ after_count in
    bind-ok (read_u16 Field.record_flags) _
      (read_u16-to_le_bytes Field.record_flags (flags_of o) after_flags (flags_u16 o))
    ∙ bind-ok (refuse_if (not (flags_of o / 2 == 0)) (invalid_data unsupported_record_flags)) _
        (passes _ after_flags (flags_known o))
    ∙ bind-ok (read_u16 Field.cause_count) _
        (read_u16-to_le_bytes Field.cause_count count after_count count_u16)
    ∙ bind-ok (refuse_if (ltb limits.max_causes count) (limit_exceeded causes_per_event)) _
        (passes _ after_count (le→not_ltb limits.max_causes count count_limit))
    ∙ bind-ok (read_u32 Field.payload_length) _
        (read_u32-to_le_bytes Field.payload_length size rest size_u32)
    ∙ bind-ok (refuse_if (ltb limits.max_payload_bytes size) (limit_exceeded payload_bytes)) _
        (passes _ rest (le→not_ltb limits.max_payload_bytes size size_limit))

module _ (grants : Request → Bool) (granted : (q : Request) → grants q ≡ true) (limits : Limits)
    (r : StoredEvent) (h : IsRecord r) (fits : Fits limits r) (rest : List ℕ) where
  tail : List ℕ
  tail = observed_bytes r.times.observed ++ (cause_bytes r.causes ++ (r.payload ++ rest))

  -- The pieces of a record, nested to the right over what follows.
  tail_assoc :
      (observed_bytes r.times.observed ++ (cause_bytes r.causes ++ r.payload)) ++ rest ≡ tail
  unfolding tail
  tail_assoc =
      append_assoc (observed_bytes r.times.observed) (cause_bytes r.causes ++ r.payload) rest
      ∙ ap (λ t. observed_bytes r.times.observed ++ t)
          (append_assoc (cause_bytes r.causes) r.payload rest)

  pub decode_record_body-record_bytes :
      decode_record_body grants limits (record_bytes r ++ rest) ≡ (ok r, rest)
  unfolding decode_record_body tail
  decode_record_body-record_bytes =
      let counted =
        to_le_bytes 2 (flags_of r.times.observed)
        ++ (to_le_bytes 2 (length r.causes) ++ (to_le_bytes 4 (length r.payload) ++ tail)) in
      let at_schema = to_le_bytes 4 r.schema ++ counted in
      let at_known = timestamp_bytes r.times.known ++ at_schema in
      let at_valid = timestamp_bytes r.times.valid ++ at_known in
      let at_entity = entity_bytes r.entity ++ at_valid in
      ap (λ t. decode_record_body grants limits (fixed_bytes r ++ t)) tail_assoc
      ∙ bind-ok (read_event_id Field.event_source Field.event_epoch Field.event_sequence) _
          (read_event_id-id_bytes _ _ _ r.id at_entity h.id)
      ∙ bind-ok read_entity _ (read_entity-entity_bytes r.entity at_valid h.entity)
      ∙ bind-ok (read_timestamp Field.valid_clock Field.valid_ticks) _
          (read_timestamp-timestamp_bytes _ _ r.times.valid at_known h.valid)
      ∙ bind-ok (read_timestamp Field.known_clock Field.known_ticks) _
          (read_timestamp-timestamp_bytes _ _ r.times.known at_schema h.known)
      ∙ bind-ok (read_u32 Field.schema_id) _ (read_u32-to_le_bytes _ r.schema counted h.schema)
      ∙ bind-ok (read_counts limits) _ (
          read_counts-bytes limits r.times.observed (length r.causes) (length r.payload) tail
            fits.causes_limit fits.causes_u16 fits.payload_limit fits.payload_u32)
      ∙ bind-ok (read_tail grants (flags_of r.times.observed, length r.causes, length r.payload)) _
          (read_tail-bytes grants granted r.times.observed r.causes r.payload rest h.observed
            h.causes)
