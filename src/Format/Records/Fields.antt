-- ===== src/Format/Records/Fields.antt =====
-- The fields of a record of crates/temnion-format/src/lib.rs: what their bytes are read back as,
-- whatever stands behind them.
use temnion.Prelude.{
  ℕ, ◌≡◌, ◌≤◌, ◌<◌, refl, ap, ◌∙◌, List, [], ◌∷◌, ◌++◌, Option, none, some, Bool, true, ok, bind-ok,
  length, length-append, take_exact, drop_exact, Each, le→not_ltb, cond_false, byte_bound,
  to_le_bytes, from_le_bytes-to_le_bytes, arith, pure, asks, from_le_bytes,
}
use temnion.Core.{EntityId, EventId, Timestamp}
use temnion.Format.{
  StoredEvent, Limits, Field, Request, reserve_exact, read_fixed, read_u16, read_u32, read_u64,
  for_bytes, for_causes,
}
use temnion.Format.Records.{
  id_bytes, entity_bytes, timestamp_bytes, flags_of, observed_bytes, cause_bytes, read_event_id,
  read_entity, read_timestamp, read_observed, read_causes, read_payload, read_tail,
}

-- What the types of the fields say.
abbrev pub IsEventId : EventId → Type 0
IsEventId e = (e.source < byte_bound 4) × (e.epoch < byte_bound 8) × (e.sequence < byte_bound 8)

abbrev pub IsEntityId : EntityId → Type 0
IsEntityId e = (e.shard < byte_bound 4) × (e.slot < byte_bound 4) × (e.generation < byte_bound 4)

abbrev pub IsTimestamp : Timestamp → Type 0
IsTimestamp t = (t.clock < byte_bound 4) × (t.ticks < byte_bound 8)

abbrev pub IsObserved : Option Timestamp → Type 0
IsObserved none = Unit
IsObserved (some t) = IsTimestamp t

pub record IsRecord (r : StoredEvent) : Type 0 where
  pub id : IsEventId r.id
  pub entity : IsEntityId r.entity
  pub valid : IsTimestamp r.times.valid
  pub observed : IsObserved r.times.observed
  pub known : IsTimestamp r.times.known
  pub schema : r.schema < byte_bound 4
  pub causes : Each IsEventId r.causes

-- What the limits and the widths of the counts ask of a record.
pub record Fits (limits : Limits) (r : StoredEvent) : Type 0 where
  pub payload_limit : length r.payload ≤ limits.max_payload_bytes
  pub payload_u32 : length r.payload < byte_bound 4
  pub causes_limit : length r.causes ≤ limits.max_causes
  pub causes_u16 : length r.causes < byte_bound 2

read_fixed-append :
    (n : ℕ) (f : Field) (xs rest : List ℕ)
    → length xs ≡ n
    → read_fixed n f (xs ++ rest) ≡ (ok xs, rest)
unfolding read_fixed
read_fixed-append n f xs rest h =
    cond_false _ _ (le→not_ltb (length (xs ++ rest)) n (omega (arith, length-append xs rest, h)))
    ∙ λ i. (ok (take_exact n xs rest h i), drop_exact n xs rest h i)

module _ (f : Field) (n : ℕ) (rest : List ℕ) where
  pub read_u16-to_le_bytes : n < byte_bound 2 → read_u16 f (to_le_bytes 2 n ++ rest) ≡ (ok n, rest)
  unfolding read_u16
  read_u16-to_le_bytes h =
      bind-ok (read_fixed 2 f) (λ value. pure (from_le_bytes value))
        (read_fixed-append 2 f (to_le_bytes 2 n) rest refl)
      ∙ ap (λ n. (ok n, rest)) (from_le_bytes-to_le_bytes 2 n h)

  pub read_u32-to_le_bytes : n < byte_bound 4 → read_u32 f (to_le_bytes 4 n ++ rest) ≡ (ok n, rest)
  unfolding read_u32
  read_u32-to_le_bytes h =
      bind-ok (read_fixed 4 f) (λ value. pure (from_le_bytes value))
        (read_fixed-append 4 f (to_le_bytes 4 n) rest refl)
      ∙ ap (λ n. (ok n, rest)) (from_le_bytes-to_le_bytes 4 n h)

  read_u64-to_le_bytes : n < byte_bound 8 → read_u64 f (to_le_bytes 8 n ++ rest) ≡ (ok n, rest)
  unfolding read_u64
  read_u64-to_le_bytes h =
      bind-ok (read_fixed 8 f) (λ value. pure (from_le_bytes value))
        (read_fixed-append 8 f (to_le_bytes 8 n) rest refl)
      ∙ ap (λ n. (ok n, rest)) (from_le_bytes-to_le_bytes 8 n h)

pub read_event_id-id_bytes :
    (a b c : Field) (e : EventId) (rest : List ℕ)
    → IsEventId e
    → read_event_id a b c (id_bytes e ++ rest) ≡ (ok e, rest)
unfolding read_event_id
read_event_id-id_bytes a b c e rest (source, epoch, sequence) =
    bind-ok (read_u32 a) _ (
      read_u32-to_le_bytes a e.source (to_le_bytes 8 e.epoch ++ (to_le_bytes 8 e.sequence ++ rest))
        source)
    ∙ bind-ok (read_u64 b) _
        (read_u64-to_le_bytes b e.epoch (to_le_bytes 8 e.sequence ++ rest) epoch)
    ∙ bind-ok (read_u64 c) _ (read_u64-to_le_bytes c e.sequence rest sequence)

pub read_entity-entity_bytes :
    (e : EntityId) (rest : List ℕ)
    → IsEntityId e
    → read_entity (entity_bytes e ++ rest) ≡ (ok e, rest)
unfolding read_entity
read_entity-entity_bytes e rest (shard, slot, generation) =
    bind-ok (read_u32 Field.entity_shard) _ (
      read_u32-to_le_bytes Field.entity_shard e.shard
        (to_le_bytes 4 e.slot ++ (to_le_bytes 4 e.generation ++ rest)) shard)
    ∙ bind-ok (read_u32 Field.entity_slot) _
        (read_u32-to_le_bytes Field.entity_slot e.slot (to_le_bytes 4 e.generation ++ rest) slot)
    ∙ bind-ok (read_u32 Field.entity_generation) _
        (read_u32-to_le_bytes Field.entity_generation e.generation rest generation)

pub read_timestamp-timestamp_bytes :
    (a b : Field) (t : Timestamp) (rest : List ℕ)
    → IsTimestamp t
    → read_timestamp a b (timestamp_bytes t ++ rest) ≡ (ok t, rest)
unfolding read_timestamp
read_timestamp-timestamp_bytes a b t rest (clock, ticks) =
    bind-ok (read_u32 a) _ (read_u32-to_le_bytes a t.clock (to_le_bytes 8 t.ticks ++ rest) clock)
    ∙ bind-ok (read_u64 b) _ (read_u64-to_le_bytes b t.ticks rest ticks)

read_observed-observed_bytes :
    (o : Option Timestamp) (rest : List ℕ)
    → IsObserved o
    → read_observed (flags_of o) (observed_bytes o ++ rest) ≡ (ok o, rest)
unfolding read_observed
read_observed-observed_bytes none rest h = refl
read_observed-observed_bytes (some t) rest h =
    bind-ok (read_timestamp Field.observed_clock Field.observed_ticks) _
      (read_timestamp-timestamp_bytes Field.observed_clock Field.observed_ticks t rest h)

read_causes-cause_bytes :
    (causes : List EventId) (rest : List ℕ)
    → Each IsEventId causes
    → read_causes (length causes) (cause_bytes causes ++ rest) ≡ (ok causes, rest)
unfolding read_causes cause_bytes
read_causes-cause_bytes [] rest h = refl
read_causes-cause_bytes (e ∷ causes) rest (first, others) =
    bind-ok (read_event_id Field.cause_source Field.cause_epoch Field.cause_sequence) _ (
      read_event_id-id_bytes Field.cause_source Field.cause_epoch Field.cause_sequence e
        (cause_bytes causes ++ rest) first)
    ∙ bind-ok (read_causes (length causes)) _ (read_causes-cause_bytes causes rest others)

module _ (grants : Request → Bool) (granted : (q : Request) → grants q ≡ true) where
  pub reserve_exact-granted : (q : Request) → reserve_exact grants q ≡ ok tt
  unfolding reserve_exact
  reserve_exact-granted q = rw granted

  read_payload-append :
      (payload rest : List ℕ)
      → read_payload grants (length payload) (payload ++ rest) ≡ (ok payload, rest)
  unfolding read_payload
  read_payload-append payload rest =
      cond_false _ _ (
        le→not_ltb (length (payload ++ rest)) (length payload)
          (omega (arith, length-append payload rest)))
      ∙ bind-ok (asks (λ _. reserve_exact grants (for_bytes (length payload)))) _
          (ap (λ r. (r, payload ++ rest)) (reserve_exact-granted (for_bytes (length payload))))
      ∙ λ i. (
        ok (take_exact (length payload) payload rest refl i),
        drop_exact (length payload) payload rest refl i,
      )

  pub read_tail-bytes :
      (o : Option Timestamp) (causes : List EventId) (payload rest : List ℕ)
      → IsObserved o
      → Each IsEventId causes
      → read_tail grants
          (flags_of o, length causes, length payload)
          (observed_bytes o ++ (cause_bytes causes ++ (payload ++ rest)))
        ≡ (ok (o, causes, payload), rest)
  unfolding read_tail
  read_tail-bytes o causes payload rest observed ids =
      let more = cause_bytes causes ++ (payload ++ rest) in
      bind-ok (read_observed (flags_of o)) _ (read_observed-observed_bytes o more observed)
      ∙ bind-ok (asks (λ _. reserve_exact grants (for_causes (length causes)))) _
          (ap (λ r. (r, more)) (reserve_exact-granted (for_causes (length causes))))
      ∙ bind-ok (read_causes (length causes)) _
          (read_causes-cause_bytes causes (payload ++ rest) ids)
      ∙ bind-ok (read_payload grants (length payload)) _ (read_payload-append payload rest)
