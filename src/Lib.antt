-- ===== src/Lib.antt =====
-- A verification library for the core of stromadb, a graph database whose state is a pure fold of
-- an append-only log (crates/stroma-core).
--
-- Parts and files. A write (`WriteKind`, WriteKind.antt) enters the log (changelog.rs, Changelog
-- and its files). The log gives it a sequence number, keeps it in memory, writes it to its file
-- with `sync` in the frames of wal.rs (Wal and its files), and on a replay turns it into an
-- operation (`Op`) of fold.rs (Fold and its files). The fold of the operations is the state of
-- the database; `observe` is the snapshot that queries read, and `gc` drops what a hard delete
-- covers. The engine (engine.rs, Engine and its files) writes to the log, keeps the fold of the
-- materialized part with a cached snapshot, and merges the tail into a read. A label mask
-- (mask.rs, Mask and its files) is a view of a snapshot that leaves out the rows that a principal
-- may not see. Live queries (live.rs, Live and its files) push the differences of results between
-- snapshots; a version vector (version.rs, Version) stamps a read. The point reads (query.rs,
-- Query and its files) are written against the interface `Facts`, which a snapshot and a masked
-- view both fill, and so are the timelines, the expansions over edges and the report of absent
-- predicates (completeness.rs, Completeness and its files). A pipeline (ir.rs, Ir and its files)
-- runs a source and transforms over these reads for a principal, with a vector backend as its
-- parameter. A maintained rule (incremental.rs, Incremental and its files) keeps its gap set from
-- the touched keys. The catalog (catalog.rs, Catalog and its files) holds names, types and
-- predicates, and checks facts (fact.rs, Fact.antt). Base and its files hold the shared lists,
-- integers, orders and ordered maps.
--
-- Correspondence. A definition has the name of the function that it models, in snake case:
-- Fold.Apply has `Fold::apply`, `apply_labeled`, `fold`, `fold_labeled`; Fold.Observe and Fold.Gc
-- have `observe`, `observe_key_into`, `observe_node_into` and `gc`, Fold.Tags `live_tags`;
-- Wal.Bytes has the byte readers and writers, Wal.Codec `encode_payload` and `decode_record`,
-- Wal.Recover the frames and `recover`; Changelog.Ops and Changelog.Compaction the operations of
-- `Changelog`; Catalog and Catalog.Interner those of `Catalog`. A method that changes its
-- receiver returns the new one. `open` is `open_log`.
--
-- Representation. A `u64` or `u32` is a natural number, with the bound of its word as a condition
-- where the code relies on it and a written remainder where the code casts; an `i64` is an
-- integer; a text is its UTF-8 bytes; a float is its bits. A `BTreeMap` or `HashMap` is a list of
-- entries sorted by key; no modelled code reads the order of a `HashMap`. A panic is `none`, and
-- so is an overflow of a shift or a difference, which panics in a debug build. A score is the
-- bits of an `f32`, compared by its number and rounded to the nearest even. A log file is its
-- bytes, or none where there is no file. Sequence numbers are not wrapped at 2 ^ 64. `observe`
-- takes the hash of a value as a parameter.
--
-- Fuel. The loop of an expansion counts down the hops that are left. Only the loop of `recover`
-- runs on fuel, one more than the number of bytes of the file: each turn reads a frame of at
-- least eight bytes.
--
-- Not modelled: errors of the file system; in fold.rs `merge`, `many_live_asserted` and the
-- compaction codec; in changelog.rs the snapshot codec and the steps inside `compact_to`; in
-- engine.rs `compact` and `many_live_asserted`, and `open` takes what the snapshot codec read; in
-- incremental.rs the maintained conformance rule; the rest of stroma-core (vectors, conformance,
-- calendar) and the crates around it, which are interfaces to the core.
pub mod Base
pub mod Fact
pub mod Catalog
pub mod Fold
pub mod WriteKind
pub mod Wal
pub mod Changelog
pub mod Completeness
pub mod Engine
pub mod Mask
pub mod Incremental
pub mod Ir
pub mod Live
pub mod Version
pub mod Query
pub mod Tests
