-- ===== src/Format/Records.antt =====
-- The body of one record of a batch, of crates/temnion-format/src/lib.rs: its length, its bytes and
-- its decoder.
use temnion.Prelude.{
  ℕ, zero, suc, ◌+◌, ◌*◌, ◌/◌, ◌%◌, ◌≡◌, List, [], ◌∷◌, ◌++◌, Option, none, some, Bool, not, ◌==◌,
  Outcome, ok, err, and_then, ok_or, Exec, ◌>>=◌, ◌>>◌, pure, fail, asks, length, take, drop,
  if◌then◌else◌, ltb, to_le_bytes, u32_max, checked_add, checked_mul,
}
use temnion.Core.{EntityId, EventId, EventTimes, Timestamp}
use temnion.Format.{
  StoredEvent, Limits, FormatError, limit_exceeded, payload_bytes, causes_per_event, invalid_data,
  record_length_overflow, truncated_payload_bytes, unsupported_record_flags, Field, Request,
  for_bytes, for_causes, reserve_exact, observed_flag, no_flags, read_u16, read_u32, read_u64,
  event_source, event_epoch, event_sequence, entity_shard, entity_slot, entity_generation,
  valid_clock, valid_ticks, known_clock, known_ticks, schema_id, record_flags, cause_count,
  payload_length, observed_clock, observed_ticks, cause_source, cause_epoch, cause_sequence,
}
pub mod Fields
pub mod Length
pub mod RoundTrip

abbrev pub record_fixed_len : ℕ
record_fixed_len = 68

abbrev pub observed_len : Option Timestamp → ℕ
observed_len none = 0
observed_len (some t) = 12

abbrev pub sum_len : ℕ → ℕ → ℕ → Outcome FormatError ℕ
sum_len observed causes payload =
    and_then (ok_or (checked_add record_fixed_len observed) (invalid_data record_length_overflow))
      (λ len.
        and_then (ok_or (checked_add len causes) (invalid_data record_length_overflow))
          (λ len. ok_or (checked_add len payload) (invalid_data record_length_overflow)))

unfoldable pub encoded_record_len : StoredEvent → Limits → Outcome FormatError ℕ
encoded_record_len r limits =
    if ltb limits.max_payload_bytes (length r.payload)
    then err (limit_exceeded payload_bytes)
    else if ltb u32_max (length r.payload)
    then err (limit_exceeded payload_bytes)
    else if ltb limits.max_causes (length r.causes)
    then err (limit_exceeded causes_per_event)
    else if ltb 65535 (length r.causes)
    then err (limit_exceeded causes_per_event)
    else and_then (ok_or (checked_mul (length r.causes) 20) (invalid_data record_length_overflow))
        (λ causes_len. sum_len (observed_len r.times.observed) causes_len (length r.payload))

abbrev pub id_bytes : EventId → List ℕ
id_bytes e = to_le_bytes 4 e.source ++ (to_le_bytes 8 e.epoch ++ to_le_bytes 8 e.sequence)

abbrev pub entity_bytes : EntityId → List ℕ
entity_bytes e = to_le_bytes 4 e.shard ++ (to_le_bytes 4 e.slot ++ to_le_bytes 4 e.generation)

abbrev pub timestamp_bytes : Timestamp → List ℕ
timestamp_bytes t = to_le_bytes 4 t.clock ++ to_le_bytes 8 t.ticks

abbrev pub flags_of : Option Timestamp → ℕ
flags_of none = no_flags
flags_of (some t) = observed_flag

abbrev pub observed_bytes : Option Timestamp → List ℕ
observed_bytes none = []
observed_bytes (some t) = timestamp_bytes t

unfoldable pub cause_bytes : List EventId → List ℕ
cause_bytes [] = []
cause_bytes (cause ∷ causes) = id_bytes cause ++ cause_bytes causes

-- What stands before the observed timestamp.
abbrev pub fixed_bytes : StoredEvent → List ℕ
fixed_bytes r =
    id_bytes r.id
    ++ (entity_bytes r.entity
        ++ (timestamp_bytes r.times.valid
            ++ (timestamp_bytes r.times.known
                ++ (to_le_bytes 4 r.schema
                    ++ (to_le_bytes 2 (flags_of r.times.observed)
                        ++ (to_le_bytes 2 (length r.causes)
                            ++ to_le_bytes 4 (length r.payload)))))))

abbrev pub record_bytes : StoredEvent → List ℕ
record_bytes r =
    fixed_bytes r ++ (observed_bytes r.times.observed ++ (cause_bytes r.causes ++ r.payload))

-- The bytes that `encode_record_body` pushes.
unfoldable pub encode_record_body : StoredEvent → Outcome FormatError (List ℕ)
encode_record_body r =
    if ltb u32_max (length r.payload)
    then err (limit_exceeded payload_bytes)
    else if ltb 65535 (length r.causes)
    then err (limit_exceeded causes_per_event)
    else ok (record_bytes r)

unfoldable pub read_event_id : Field → Field → Field → Exec (List ℕ) FormatError EventId
read_event_id source epoch sequence = do
  s ← read_u32 source
  e ← read_u64 epoch
  n ← read_u64 sequence
  pure (record { source = s; epoch = e; sequence = n })

unfoldable pub read_entity : Exec (List ℕ) FormatError EntityId
read_entity = do
  shard ← read_u32 entity_shard
  slot ← read_u32 entity_slot
  generation ← read_u32 entity_generation
  pure (record { shard = shard; slot = slot; generation = generation })

unfoldable pub read_timestamp : Field → Field → Exec (List ℕ) FormatError Timestamp
read_timestamp clock ticks = do
  c ← read_u32 clock
  t ← read_u64 ticks
  pure (record { clock = c; ticks = t })

-- `flags & OBSERVED_FLAG != 0`
unfoldable pub read_observed : ℕ → Exec (List ℕ) FormatError (Option Timestamp)
read_observed flags =
    if flags % 2 == 1
    then (read_timestamp observed_clock observed_ticks >>= λ t. pure (some t))
    else pure none

unfoldable pub read_causes : ℕ → Exec (List ℕ) FormatError (List EventId)
read_causes zero = pure []
read_causes (suc count) = do
  cause ← read_event_id cause_source cause_epoch cause_sequence
  rest ← read_causes count
  pure (cause ∷ rest)

-- A test that stops the decoder.
abbrev pub refuse_if : Bool → FormatError → Exec (List ℕ) FormatError (Unit {0})
refuse_if stop e = if stop then fail e else pure tt

unfoldable pub read_payload : (Request → Bool) → ℕ → Exec (List ℕ) FormatError (List ℕ)
read_payload grants size rest =
    if ltb (length rest) size
    then (err (invalid_data truncated_payload_bytes), rest)
    else (asks (λ _. reserve_exact grants (for_bytes size)) >> λ rest.
          (ok (take size rest), drop size rest))
        rest

-- The flags, the number of causes and the length of the payload.
unfoldable pub read_counts : Limits → Exec (List ℕ) FormatError (ℕ × ℕ × ℕ)
read_counts limits = do
  flags ← read_u16 record_flags
  _ ← refuse_if (not (flags / 2 == 0)) (invalid_data unsupported_record_flags)
  count ← read_u16 cause_count
  _ ← refuse_if (ltb limits.max_causes count) (limit_exceeded causes_per_event)
  size ← read_u32 payload_length
  _ ← refuse_if (ltb limits.max_payload_bytes size) (limit_exceeded payload_bytes)
  pure (flags, count, size)

-- What stands after the counts.
unfoldable pub read_tail :
    (Request → Bool)
    → ℕ × ℕ × ℕ
    → Exec (List ℕ) FormatError (Option Timestamp × List EventId × List ℕ)
read_tail grants (flags, count, size) = do
  observed ← read_observed flags
  _ ← asks (λ _. reserve_exact grants (for_causes count))
  read ← read_causes count
  payload ← read_payload grants size
  pure (observed, read, payload)

unfoldable pub decode_record_body :
    (Request → Bool) → Limits → Exec (List ℕ) FormatError StoredEvent
decode_record_body grants limits = do
  id ← read_event_id event_source event_epoch event_sequence
  entity ← read_entity
  valid ← read_timestamp valid_clock valid_ticks
  known ← read_timestamp known_clock known_ticks
  schema ← read_u32 schema_id
  counts ← read_counts limits
  (observed, causes, payload) ← read_tail grants counts
  pure (record {
    id = id;
    entity = entity;
    times = record { valid = valid; observed = observed; known = known };
    schema = schema;
    payload = payload;
    causes = causes;
  })
