-- ===== src/Causal/Csr.antt =====
-- `to_csr` and `CsrCausalGraph` of crates/temnion-causal/src/lib.rs. A rest of the bytes stands for
-- the offset into the body; `hash` is `crc32fast::hash`.
use temnion.Prelude.{
  ℕ, zero, suc, ◌+◌, ◌*◌, not, Option, none, some, List, [], ◌∷◌, ◌++◌, map, Outcome, ok, err,
  panic, and_then, expect, length, get_elem?, take, drop, if◌then◌else◌, ltb, leb, ◌==◌, ◌&&◌, ◌-◌,
  as_u32, to_le_bytes, from_le_bytes,
}
use temnion.Core.{EventId, event_eq}
use temnion.Codec.{bytes_eq}
use temnion.Codec.BitPack.{words_of, bytes_of}
use temnion.Causal.{
  Map, Malformed, CausalGraph, CausalError, format, invalid_magic, unsupported_version,
  checksum_mismatch, short_header, short_events, short_cause_count, short_causes,
  short_effect_count, short_effects, lookup, member, sort, dedup, unwrap_or,
}

pub record CsrCausalGraph : Type 0 where
  pub events : List EventId
  pub cause_offsets : List ℕ
  pub cause_indices : List ℕ
  pub effect_offsets : List ℕ
  pub effect_indices : List ℕ

unfoldable pub event_count : CsrCausalGraph → ℕ
event_count g = length g.events

abbrev pub keys {ℓ} : {V : Type ℓ} → Map V → List EventId
keys [] = []
keys ((key, v) ∷ m) = key ∷ keys m

unfoldable pub push_missing : List EventId → List EventId → List EventId
push_missing [] events = events
push_missing (k ∷ ks) events =
    push_missing ks (if member k events then events else events ++ k ∷ [])

-- `event_to_idx`, of a list with no repetitions
unfoldable pub index_of : EventId → List EventId → Option ℕ
index_of e [] = none
index_of e (x ∷ xs) =
    let rest = index_of e xs in
    if event_eq e x then some 0 else elim rest [ none ↦ none | some i ↦ some (suc i) ]

unfoldable pub indices : List EventId → List EventId → List ℕ
indices events [] = []
indices events (e ∷ es) =
    let rest = indices events es in
    elim (index_of e events) [ none ↦ rest | some idx ↦ as_u32 idx ∷ rest ]

-- The offsets, from `start` on, and the indices of one side of the graph.
unfoldable pub pack_rows : Map (List EventId) → List EventId → List EventId → ℕ → List ℕ × List ℕ
pack_rows m events [] start = (start ∷ [], [])
pack_rows m events (event ∷ rest) start =
    let row = indices events (unwrap_or (lookup event m) []) in
    let (offsets, packed) = pack_rows m events rest (start + length row) in
    (start ∷ offsets, row ++ packed)

unfoldable pub to_csr : CausalGraph → CsrCausalGraph
to_csr g =
    let events = dedup (sort (push_missing (keys g.effects) (keys g.causes))) in
    let (cause_offsets, cause_indices) = pack_rows g.causes events events 0 in
    let (effect_offsets, effect_indices) = pack_rows g.effects events events 0 in
    record {
      events = events;
      cause_offsets = cause_offsets;
      cause_indices = cause_indices;
      effect_offsets = effect_offsets;
      effect_indices = effect_indices;
    }

-- `&xs[start..end]`, which panics out of range.
unfoldable pub slice : List ℕ → ℕ → ℕ → Outcome CausalError (List ℕ)
slice xs start end =
    if leb start end && leb end (length xs) then ok (take (end - start) (drop start xs)) else panic

unfoldable pub row : List EventId → List ℕ → List ℕ → ℕ → Outcome CausalError (List ℕ)
row events offsets packed index =
    if leb (length events) index
    then ok []
    else and_then (expect (get_elem? offsets index))
        (λ start. and_then (expect (get_elem? offsets (index + 1))) (λ end. slice packed start end))

unfoldable pub immediate_causes : CsrCausalGraph → ℕ → Outcome CausalError (List ℕ)
immediate_causes g index = row g.events g.cause_offsets g.cause_indices index

unfoldable pub immediate_effects : CsrCausalGraph → ℕ → Outcome CausalError (List ℕ)
immediate_effects g index = row g.events g.effect_offsets g.effect_indices index

abbrev pub causal_magic : List ℕ
causal_magic = 84 ∷ 78 ∷ 67 ∷ 71 ∷ []

abbrev pub causal_version : ℕ
causal_version = 1

unfoldable pub event_bytes : List EventId → List ℕ
event_bytes [] = []
event_bytes (e ∷ events) =
    to_le_bytes 4 e.source
    ++ to_le_bytes 8 e.epoch
    ++ to_le_bytes 8 e.sequence
    ++ event_bytes events

-- One side of the graph: the number of indices, the offsets, the indices.
unfoldable pub side_bytes : List ℕ → List ℕ → List ℕ
side_bytes offsets packed =
    to_le_bytes 4 (as_u32 (length packed)) ++ bytes_of 4 (map as_u32 offsets) ++ bytes_of 4 packed

unfoldable pub body_bytes : CsrCausalGraph → List ℕ
body_bytes g =
    event_bytes g.events
    ++ side_bytes g.cause_offsets g.cause_indices
    ++ side_bytes g.effect_offsets g.effect_indices

unfoldable pub encode : (List ℕ → ℕ) → CsrCausalGraph → List ℕ
encode hash g =
    causal_magic
    ++ to_le_bytes 2 causal_version
    ++ to_le_bytes 4 (as_u32 (length g.events))
    ++ to_le_bytes 4 (hash (body_bytes g))
    ++ body_bytes g

abbrev pub event_of : List ℕ → EventId
event_of bytes = record {
  source = from_le_bytes (take 4 bytes);
  epoch = from_le_bytes (take 8 (drop 4 bytes));
  sequence = from_le_bytes (take 8 (drop 12 bytes));
}

-- The event records, and the bytes behind them.
unfoldable pub read_events : ℕ → List ℕ → Outcome CausalError (List EventId × List ℕ)
read_events zero bytes = ok ([], bytes)
read_events (suc count) bytes =
    if ltb (length bytes) 20
    then err (format short_events)
    else and_then (read_events count (drop 20 bytes))
        (λ (events, rest). ok (event_of bytes ∷ events, rest))

-- The offsets and indices of one side, and the bytes behind them.
unfoldable pub read_counted :
    Malformed → ℕ → ℕ → List ℕ → Outcome CausalError (List ℕ × List ℕ × List ℕ)
read_counted short count indices_len bytes =
    let offsets_size = (count + 1) * 4 in
    if ltb (length bytes) (offsets_size + indices_len * 4)
    then err (format short)
    else ok (
      words_of 4 (count + 1) bytes,
      words_of 4 indices_len (drop offsets_size bytes),
      drop (offsets_size + indices_len * 4) bytes,
    )

unfoldable pub read_side :
    Malformed → Malformed → ℕ → List ℕ → Outcome CausalError (List ℕ × List ℕ × List ℕ)
read_side short_count short count bytes =
    if ltb (length bytes) 4
    then err (format short_count)
    else read_counted short count (from_le_bytes (take 4 bytes)) (drop 4 bytes)

unfoldable pub decode_body : ℕ → List ℕ → Outcome CausalError CsrCausalGraph
decode_body count body = and_then (read_events count body) (λ (events, rest).
    and_then (read_side short_cause_count short_causes count rest)
      (λ (cause_offsets, cause_indices, rest).
        and_then (read_side short_effect_count short_effects count rest)
          (λ (effect_offsets, effect_indices, rest). ok (record {
            events = events;
            cause_offsets = cause_offsets;
            cause_indices = cause_indices;
            effect_offsets = effect_offsets;
            effect_indices = effect_indices;
          }))))

unfoldable pub decode : (List ℕ → ℕ) → List ℕ → Outcome CausalError CsrCausalGraph
decode hash bytes =
    let version = from_le_bytes (take 2 (drop 4 bytes)) in
    let body = drop 14 bytes in
    if ltb (length bytes) 14
    then err (format short_header)
    else if not (bytes_eq (take 4 bytes) causal_magic)
    then err invalid_magic
    else if not (version == causal_version)
    then err (unsupported_version version)
    else if not (hash body == from_le_bytes (take 4 (drop 10 bytes)))
    then err checksum_mismatch
    else decode_body (from_le_bytes (take 4 (drop 6 bytes))) body
