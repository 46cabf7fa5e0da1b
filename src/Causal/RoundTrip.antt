-- ===== src/Causal/RoundTrip.antt =====
-- `CsrCausalGraph` of crates/temnion-causal/src/lib.rs: what `encode` writes, `decode` reads back.
use temnion.Prelude.{
  ℕ, ◌+◌, ◌*◌, ◌≤◌, ◌<◌, ◌≡◌, refl, ap, ap₂, sym, ◌∙◌, List, [], ◌∷◌, ◌++◌, map, append_assoc,
  append-nil, ok, and_then, length, length-append, drop, drop_exact, arith, le→not_ltb, cond_false,
  as_u32, byte_bound, to_le_bytes, from_le_bytes-to_le_bytes, u32_max,
}
use temnion.Core.{EventId}
use temnion.Codec.Frame.{IsChecksum, pass}
use temnion.Codec.BitPack.{words_of, bytes_of}
use temnion.Causal.{Malformed, short_cause_count, short_causes, short_effect_count, short_effects}
use temnion.Causal.Csr.{
  CsrCausalGraph, event_bytes, side_bytes, body_bytes, encode, event_of, read_events, read_counted,
  read_side, decode_body, decode,
}

-- Each number of a list is below a bound.
unfoldable pub Below : ℕ → List ℕ → Type 0
Below bound [] = Unit
Below bound (x ∷ xs) = (x < bound) × Below bound xs

-- Each identity is one of a `u32` and two `u64`.
unfoldable pub Words : List EventId → Type 0
Words [] = Unit
Words (e ∷ events) =
    (e.source < byte_bound 4)
    × (e.epoch < byte_bound 8)
    × (e.sequence < byte_bound 8)
    × Words events

length-bytes_of : (xs : List ℕ) → length (bytes_of 4 xs) ≡ length xs * 4
unfolding bytes_of
length-bytes_of [] = refl
length-bytes_of (x ∷ xs) = omega (arith, length-bytes_of xs)

words_of-bytes_of :
    (xs rest : List ℕ)
    → Below (byte_bound 4) xs
    → words_of 4 (length xs) (bytes_of 4 xs ++ rest) ≡ xs
unfolding words_of bytes_of Below
words_of-bytes_of [] rest h = refl
words_of-bytes_of (x ∷ xs) rest (small, h) =
    ap₂ ◌∷◌ (from_le_bytes-to_le_bytes 4 x small) (words_of-bytes_of xs rest h)

map-as_u32 : (xs : List ℕ) → Below (byte_bound 4) xs → map as_u32 xs ≡ xs
unfolding Below
map-as_u32 [] h = refl
map-as_u32 (x ∷ xs) (small, h) = ap₂ ◌∷◌ (omega arith) (map-as_u32 xs h)

event_of-to_le_bytes :
    (e : EventId) (rest : List ℕ)
    → e.source < byte_bound 4
    → e.epoch < byte_bound 8
    → e.sequence < byte_bound 8
    → event_of (to_le_bytes 4 e.source ++ to_le_bytes 8 e.epoch ++ to_le_bytes 8 e.sequence ++ rest)
      ≡ e
event_of-to_le_bytes e rest source epoch sequence = λ i. record {
  source = from_le_bytes-to_le_bytes 4 e.source source i;
  epoch = from_le_bytes-to_le_bytes 8 e.epoch epoch i;
  sequence = from_le_bytes-to_le_bytes 8 e.sequence sequence i;
}

read_events-event_bytes :
    (events : List EventId) (rest : List ℕ)
    → Words events
    → read_events (length events) (event_bytes events ++ rest) ≡ ok (events, rest)
unfolding read_events event_bytes Words
read_events-event_bytes [] rest h = refl
read_events-event_bytes (e ∷ events) rest (source, epoch, sequence, h) =
    let more = event_bytes events ++ rest in
    cond_false _ _ (le→not_ltb (length (event_bytes (e ∷ events) ++ rest)) 20 (omega arith))
    ∙ ap
        (λ r.
          and_then r
            (λ (events, rest). ok (event_of (event_bytes (e ∷ []) ++ more) ∷ events, rest)))
        (read_events-event_bytes events rest h)
    ∙ ap (λ e. ok (e ∷ events, rest)) (event_of-to_le_bytes e more source epoch sequence)

read_counted-bytes_of :
    (short : Malformed) (count : ℕ) (offsets packed rest : List ℕ)
    → length offsets ≡ count + 1
    → Below (byte_bound 4) offsets
    → Below (byte_bound 4) packed
    → read_counted short count (length packed) (bytes_of 4 offsets ++ (bytes_of 4 packed ++ rest))
      ≡ ok (offsets, packed, rest)
unfolding read_counted
read_counted-bytes_of short count offsets packed rest size small_offsets small_packed =
    let bytes = bytes_of 4 offsets ++ (bytes_of 4 packed ++ rest) in
    let more = bytes_of 4 packed ++ rest in
    let total : length bytes ≡ (count + 1) * 4 + length packed * 4 + length rest = omega (
      arith,
      length-append (bytes_of 4 offsets) more,
      length-append (bytes_of 4 packed) rest,
      length-bytes_of offsets,
      length-bytes_of packed,
    ) in
    let first : words_of 4 (count + 1) bytes ≡ offsets =
      ap (λ n. words_of 4 n bytes) (sym size) ∙ words_of-bytes_of offsets more small_offsets in
    let at_packed : drop ((count + 1) * 4) bytes ≡ more =
      drop_exact ((count + 1) * 4) (bytes_of 4 offsets) more
        (omega (arith, length-bytes_of offsets)) in
    let at_rest : drop ((count + 1) * 4 + length packed * 4) bytes ≡ rest =
      ap (drop ((count + 1) * 4 + length packed * 4))
        (sym (append_assoc (bytes_of 4 offsets) (bytes_of 4 packed) rest))
      ∙ drop_exact ((count + 1) * 4 + length packed * 4) (bytes_of 4 offsets ++ bytes_of 4 packed)
          rest
          (omega (
            arith,
            length-append (bytes_of 4 offsets) (bytes_of 4 packed),
            length-bytes_of offsets,
            length-bytes_of packed,
          )) in
    cond_false _ _ (le→not_ltb (length bytes) ((count + 1) * 4 + length packed * 4) (omega arith))
    ∙ λ i. ok (
      first i,
      (ap (words_of 4 (length packed)) at_packed ∙ words_of-bytes_of packed rest small_packed) i,
      at_rest i,
    )

-- One side of the graph, where it has an offset for each event and one more.
read_side-side_bytes :
    (short_count short : Malformed) (count : ℕ) (offsets packed rest : List ℕ)
    → length offsets ≡ count + 1
    → length packed ≤ u32_max
    → Below (byte_bound 4) offsets
    → Below (byte_bound 4) packed
    → read_side short_count short count (side_bytes offsets packed ++ rest)
      ≡ ok (offsets, packed, rest)
unfolding read_side side_bytes
read_side-side_bytes short_count short count offsets packed rest size few small_offsets
      small_packed =
    let tail = (bytes_of 4 (map as_u32 offsets) ++ bytes_of 4 packed) ++ rest in
    let many : as_u32 (length packed) ≡ length packed = omega arith in
    cond_false _ _ (le→not_ltb (length (side_bytes offsets packed ++ rest)) 4 (omega arith))
    ∙ ap (λ n. read_counted short count n tail)
        (from_le_bytes-to_le_bytes 4 (as_u32 (length packed)) (omega arith) ∙ many)
    ∙ ap
        (λ xs.
          read_counted short count (length packed) ((bytes_of 4 xs ++ bytes_of 4 packed) ++ rest))
        (map-as_u32 offsets small_offsets)
    ∙ ap (read_counted short count (length packed))
        (append_assoc (bytes_of 4 offsets) (bytes_of 4 packed) rest)
    ∙ read_counted-bytes_of short count offsets packed rest size small_offsets small_packed

-- A graph that the format can hold: an offset for each event and one more, and every number within
-- its word.
pub record Fits (g : CsrCausalGraph) : Type 0 where
  pub few_events : length g.events ≤ u32_max
  pub words : Words g.events
  pub cause_rows : length g.cause_offsets ≡ length g.events + 1
  pub few_causes : length g.cause_indices ≤ u32_max
  pub small_cause_offsets : Below (byte_bound 4) g.cause_offsets
  pub small_causes : Below (byte_bound 4) g.cause_indices
  pub effect_rows : length g.effect_offsets ≡ length g.events + 1
  pub few_effects : length g.effect_indices ≤ u32_max
  pub small_effect_offsets : Below (byte_bound 4) g.effect_offsets
  pub small_effects : Below (byte_bound 4) g.effect_indices

decode_body-body_bytes :
    (g : CsrCausalGraph) → Fits g → decode_body (length g.events) (body_bytes g) ≡ ok g
unfolding decode_body body_bytes
decode_body-body_bytes g fits =
    let n = length g.events in
    let causes = side_bytes g.cause_offsets g.cause_indices in
    let effects = side_bytes g.effect_offsets g.effect_indices in
    let events_read = read_events-event_bytes g.events (causes ++ effects) fits.words in
    let causes_read =
      read_side-side_bytes short_cause_count short_causes n g.cause_offsets g.cause_indices effects
        fits.cause_rows fits.few_causes fits.small_cause_offsets fits.small_causes in
    let effects_read =
      read_side-side_bytes short_effect_count short_effects n g.effect_offsets g.effect_indices []
        fits.effect_rows fits.few_effects fits.small_effect_offsets fits.small_effects in
    ap (decode_body n) (append_assoc (event_bytes g.events) causes effects)
    ∙ rw (
      events_read,
      causes_read,
      ap (read_side short_effect_count short_effects n) (sym (append-nil effects)) ∙ effects_read,
    )

-- Under a 32-bit checksum, `CsrCausalGraph::decode` gives back every graph that the format can hold
-- from what `encode` writes for it.
pub decode-encode :
    (hash : List ℕ → ℕ) (g : CsrCausalGraph)
    → IsChecksum hash
    → Fits g
    → decode hash (encode hash g) ≡ ok g
unfolding decode encode
decode-encode hash g IsSum fits =
    let body = body_bytes g in
    let few : as_u32 (length g.events) ≡ length g.events = omega (arith, fits.few_events) in
    cond_false _ _ (le→not_ltb (length (encode hash g)) 14 (omega arith))
    ∙ pass _ _ (sym (from_le_bytes-to_le_bytes 4 (hash body) (IsSum body)))
    ∙ ap (λ n. decode_body n body)
        (from_le_bytes-to_le_bytes 4 (as_u32 (length g.events)) (omega arith) ∙ few)
    ∙ decode_body-body_bytes g fits
