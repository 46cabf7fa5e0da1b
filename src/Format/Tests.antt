-- ===== src/Format/Tests.antt =====
-- The codecs of crates/temnion-format/src/lib.rs at concrete inputs.
use temnion.Prelude.{
  ℕ, ◌+◌, ◌%◌, ◌≡◌, ◌≤◌, refl, List, [], ◌∷◌, ◌++◌, Bool, true, none, some, ok, err, length, take,
  drop, Each, arith,
}
use temnion.Codec.Frame.{IsChecksum}
use temnion.Core.{EventId}
use temnion.Format.{
  StoredEvent, WalHeader, Request, default_limits, reserve_exact, limit_exceeded, payload_bytes,
  invalid_data, foreign_record, checksum_mismatch, incomplete,
}
use temnion.Format.Identity.{IsHeader}
use temnion.Format.Records.{encoded_record_len, encode_record_body, cause_bytes}
use temnion.Format.Records.Fields.{IsRecord}
use temnion.Format.Wal.{encode_wal_header}
use temnion.Format.Batch.{
  body_len_from, encode_bodies, write_batch, encode_batch, check_frame, frame_length, decode_frame,
  decode_batch,
}
use temnion.Format.Batch.RoundTrip.{batch-round_trip, frame_length-encode_batch}
use temnion.Format.Batch.Bounds.{InLimits, decode_batch-InLimits}
use temnion.Format.Segment.{write_segment, wrap_batch, encode_segment, decode_segment}
use temnion.Format.Segment.RoundTrip.{segment-round_trip}

-- A checksum for the tests: the sum of the bytes.
abbrev sum : List ℕ → ℕ
sum [] = 0
sum (b ∷ bytes) = (b + sum bytes) % 4294967296

sum-IsChecksum : IsChecksum sum
sum-IsChecksum [] = omega arith
sum-IsChecksum (b ∷ bytes) = omega arith

abbrev always : Request → Bool
always request = true

abbrev cause : EventId
cause = record { source = 7; epoch = 1; sequence = 3 }

abbrev event : StoredEvent
event = record {
  id = record { source = 7; epoch = 1; sequence = 4 };
  entity = record { shard = 0; slot = 5; generation = 2 };
  times = record {
    valid = record { clock = 1; ticks = 100 };
    observed = some (record { clock = 3; ticks = 90 });
    known = record { clock = 2; ticks = 300 };
  };
  schema = 9;
  payload = 1 ∷ 2 ∷ 255 ∷ [];
  causes = cause ∷ [];
}

-- The same event, not observed and with no cause.
abbrev bare_event : StoredEvent
bare_event = record event {
  times = record {
    valid = record { clock = 1; ticks = 100 };
    observed = none;
    known = record { clock = 2; ticks = 300 };
  };
  causes = [];
}

abbrev events : List StoredEvent
events = event ∷ bare_event ∷ []

event-IsRecord : IsRecord event
event-IsRecord = record {
  id = (omega arith, omega arith, omega arith);
  entity = (omega arith, omega arith, omega arith);
  valid = (omega arith, omega arith);
  observed = (omega arith, omega arith);
  known = (omega arith, omega arith);
  schema = omega arith;
  causes = ((omega arith, omega arith, omega arith), tt);
}

bare_event-IsRecord : IsRecord bare_event
bare_event-IsRecord = record {
  id = (omega arith, omega arith, omega arith);
  entity = (omega arith, omega arith, omega arith);
  valid = (omega arith, omega arith);
  observed = tt;
  known = (omega arith, omega arith);
  schema = omega arith;
  causes = tt;
}

events-IsRecord : Each IsRecord events
events-IsRecord = (event-IsRecord, (bare_event-IsRecord, tt))

abbrev header : WalHeader
header = record {
  database = 0 ∷ 1 ∷ 2 ∷ 3 ∷ 4 ∷ 5 ∷ 6 ∷ 7 ∷ 8 ∷ 9 ∷ 10 ∷ 11 ∷ 12 ∷ 13 ∷ 14 ∷ 15 ∷ [];
  source = 7;
  epoch = 1;
}

header-IsHeader : IsHeader header
header-IsHeader = record { bytes_16 = refl; source_u32 = omega arith; epoch_u64 = omega arith }

abbrev batch : List ℕ
unfolding encode_batch body_len_from encoded_record_len write_batch reserve_exact encode_bodies
    encode_record_body cause_bytes
batch = elim (encode_batch sum always default_limits events) [ ok bytes ↦ bytes | _ ↦ [] ]

batch_written : encode_batch sum always default_limits events ≡ ok batch
unfolding encode_batch body_len_from encoded_record_len write_batch reserve_exact encode_bodies
    encode_record_body cause_bytes
batch_written = refl

batch-round_trip_example : decode_batch sum always default_limits batch ≡ ok events
batch-round_trip_example =
    batch-round_trip sum sum-IsChecksum default_limits events always always (λ q. refl)
      events-IsRecord batch_written

frame_length-encode_batch_example :
    (frame_length sum default_limits (take 24 batch ++ []) ≡ ok (length batch))
    × (length batch ≤ 4194304)
frame_length-encode_batch_example =
    frame_length-encode_batch sum sum-IsChecksum default_limits events always batch_written []

decode_batch-InLimits_example :
    (length batch ≤ 4194304) × (length events ≤ 65536) × Each (InLimits default_limits) events
decode_batch-InLimits_example =
    decode_batch-InLimits sum always default_limits batch batch-round_trip_example

abbrev segment : List ℕ
unfolding encode_segment wrap_batch write_segment encode_batch body_len_from encoded_record_len
    write_batch reserve_exact encode_bodies encode_record_body cause_bytes
segment = elim (encode_segment sum always default_limits header events) [
  | ok bytes ↦ bytes
  | _ ↦ []
]

segment_written : encode_segment sum always default_limits header events ≡ ok segment
unfolding encode_segment wrap_batch write_segment encode_batch body_len_from encoded_record_len
    write_batch reserve_exact encode_bodies encode_record_body cause_bytes
segment_written = refl

segment-round_trip_example :
    decode_segment sum always default_limits segment
    ≡ ok (record { header = header; records = events })
segment-round_trip_example =
    segment-round_trip sum sum-IsChecksum default_limits header events always (λ q. refl)
      header-IsHeader events-IsRecord segment_written

-- A record of another source is refused.
foreign :
    encode_segment sum always default_limits (record header { source = 8 }) events
    ≡ err (invalid_data foreign_record)
unfolding encode_segment
foreign = refl

-- A payload above the limit is refused.
too_long :
    encode_batch sum always (record default_limits { max_payload_bytes = 2 }) events
    ≡ err (limit_exceeded payload_bytes)
unfolding encode_batch body_len_from encoded_record_len
too_long = refl

-- A changed byte of the header, and a batch that ends early.
changed :
    decode_batch sum always default_limits (take 8 batch ++ 1 ∷ drop 9 batch)
    ≡ err checksum_mismatch
unfolding decode_batch frame_length batch
changed = refl

cut_short :
    decode_batch sum always default_limits (take 40 batch) ≡ err (incomplete (length batch) 40)
unfolding decode_batch frame_length check_frame decode_frame batch
cut_short = refl

wal_header_written : length (encode_wal_header sum header) ≡ 40
unfolding encode_wal_header
wal_header_written = refl
