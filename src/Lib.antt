-- ===== src/Lib.antt =====
-- Temnion's storage core, as executable definitions with the theorems that make it correct.
--
-- The program is an exact-state and history engine in Rust. Live values sit in a packed slab behind
-- generation-safe handles (crates/temnion-state), changes are appended to the event log of their
-- source (crates/temnion-events), and both name entities, events and times by the identities of
-- crates/temnion-core. The higher crates (schema, format, storage, replay, query, protocol) build on
-- these three.
--
-- Files. A file stands for the crate of its name, with the definitions in it and the proofs in the
-- modules below it; the `Tests` modules run the definitions on concrete inputs.
--   Prelude: Boolean tests, vectors as lists with native indices, machine words, outcomes.
--   Core (crates/temnion-core/src/lib.rs): identities, timestamps, half-open time ranges.
--   State (crates/temnion-state/src/lib.rs): `StateSlab` with `new`, `insert`, `get`, `get_mut`,
--     `remove`, `iter`. `insert` is `take_slot` then `fill_slot`; `remove` is `remove_value`,
--     `remove_dense`, `relink` and `retire`, in the order of the source.
--   Events (crates/temnion-events/src/lib.rs): `EventLog` with `new`, `append`, `append_batch`, `get`
--     and `history`, whose loop is `scan`.
--   Codec (crates/temnion-codec/src/lib.rs): the checked frame (`frame_compressed`, `verify_frame`)
--     and `RawCodec`; Rle, BitPack, DeltaFor, Xor with Bits (`BitWriter`, `BitReader`): one file per
--     codec, its `encode` and `decode`; Scorer (`CodecScorer`). Frame, Tokens, RleRoundTrip, Slices,
--     Total, Lengths and Winner hold proofs.
--   Causal (crates/temnion-causal/src/lib.rs): `CausalGraph` with `add_event` and `is_ancestor_of`;
--     Trace (`trace_causes`, `trace_effects`), Sort (`topological_sort`), Csr (`to_csr` and
--     `CsrCausalGraph` with `encode` and `decode`). Members, Visits, Ancestors, Normal,
--     Acyclic, Effects and RoundTrip hold proofs.
--   Format (crates/temnion-format/src/lib.rs): stored events, limits, errors, reads and writes; Wal
--     (`encode_wal_header`, `decode_wal_header`), Records (one record of a batch), Batch
--     (`encode_batch`, `frame_length`, `decode_batch`), Segment (`encode_segment`,
--     `decode_segment`). A cursor is what the buffer holds from there on. Identity, Fields, Length,
--     Encoded, Bounds and the RoundTrip modules hold proofs.
--   Runtime (crates/temnion-runtime/src/lib.rs): Shards (`ShardRouter`, `VirtualShardPartition`,
--     `VirtualShardCoordinator`), Dag (`TaskDag`), Pressure (`PressureController`), Tiers
--     (`TieredStorageManager`). Below Dag, Order and Ready are about `ready_tasks`, Marks about
--     `mark_running`, and Edges, Built, Keys, Search, Acyclic and Add about `add_task` and its
--     `has_cycle`; below Tiers, Sums, Oldest, Capacity and Enforce are about `enforce_capacity`. A
--     `HashMap` is walked in the order of its keys.
--   Index (crates/temnion-index/src/lib.rs): zone maps and the Bloom filter; Block (`BlockSummary`),
--     Segment (`SegmentSummary`), Morton (`morton_*`, boxes, grids, `merge_consecutive_codes`),
--     Volume (`BoundingBox3D`, `GridChunker3D`). Zones, Bloom, Sound, Codes and Intervals hold
--     proofs. The encoding of summaries and the projections are not modelled.
--   Storage: Lifecycle (crates/temnion-storage/src/lifecycle.rs), the reference holds and
--     `RetentionPolicy::evaluate_reclaimable`; Candidates and Reclaim hold proofs. Backups, the store
--     and the manifest are not modelled.
--
-- Conventions. A method on `&mut self` is an `Exec`: a function from the state to an outcome and the
-- state that it leaves, errors included. An outcome is a value, an error of the crate's own type, or
-- a panic, for an index out of range or an `unwrap`; in Codec also for a slice out of range. A method on `&self` is a function to an outcome.
-- A `Vec` is a list in index order; `pop` and `swap_remove` are the standard library's. Numbers are
-- natural numbers with the casts written out (`as_u32` is `% 2^32`); `usize` has 64 bits. The
-- allocator is an argument: it says whether a reservation is granted. `get_mut` hands out a
-- reference, and is modelled with the caller's write through it.
-- Loops are recursions on the list that they walk where there is one. The loops of `RleCodec` take as
-- fuel the length of what they read, since each turn reads at least a byte; without fuel the decoder
-- of the model panics. The searches of Causal take one turn more than there are
-- listed edges, since an event is queued once. `topological_sort` takes the number of turns as an
-- argument and is `none` when they do not suffice. The client of `history` in Events/Drain takes as
-- fuel the number of pages that it may ask for, and the theorem says how many are enough. The search
-- of `has_cycle` takes one turn more than there are tasks, since a task is queued once, and a loop of
-- `enforce_capacity` as many as there are segments, since each turn moves one.
-- `crc32fast::hash` is an argument `hash`, of which the proofs know that it returns a `u32`. The
-- score of a codec, which rests on measured time, is an argument of the scorer. Where a sum
-- or a shift may overflow, the model panics, as a build with overflow checks does.
--
-- Not modelled: the text of errors (`Display`), `Debug` output and the crates named in no file above.
pub mod Prelude
pub mod Core
pub mod State
pub mod Events
pub mod Causal
pub mod Codec
pub mod Format
pub mod Index
pub mod Runtime
pub mod Storage
