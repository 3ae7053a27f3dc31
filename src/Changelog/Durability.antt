-- ===== src/Changelog/Durability.antt =====
-- crates/stroma-core/src/changelog.rs, `open` and `sync`: a log and its file through any sequence
-- of operations, and what a crash leaves of it.
use stromadb.Base.{
  ℕ, ◌+◌, ◌≤◌, ◌≡◌, refl, sym, ap, ◌∙◌, Option, none, some, List, [], ◌++◌, arith, append_assoc,
  map,
}
use stromadb.Base.Tests.{unwrap_or}
use stromadb.Base.Lists.{length, take, drop, All}
use stromadb.Fact.{FieldId}
use stromadb.Fold.State.{Label}
use stromadb.WriteKind.{WriteKind}
use stromadb.Wal.Bytes.{Bytes}
use stromadb.Wal.Recover.{framed, recover}
use stromadb.Wal.Committed.{FitsRecord, as_kept, recover-committed}
use stromadb.Changelog.Ops.{
  Record, Changelog, Disk, open_log, sync, append_labeled, append_batch_labeled, mark_materialized,
}
use stromadb.Changelog.Framing.{
  take-plus, length-drop, framed-append, framed-prefix, All-append, All-take, All-drop,
}
use stromadb.Changelog.Soundness.{
  IsSound, append_labeled-IsSound, append_batch_labeled-IsSound, mark_materialized-IsSound,
  sync-IsSound, open_log_lem, open_log-IsSound, recover-written,
}

-- One step of a log with its file: the records that are appended fit a frame, and a compaction is not
-- among the steps. A log that is opened again has not been written to since
-- its last sync, or the process has stopped between two syncs.
pub data Step : Changelog × Disk → Changelog × Disk → Type 0 where
  appended :
      {c : Changelog} {disk : Disk} (source : FieldId) (kind : WriteKind) (label : Option Label)
      → FitsRecord (source, kind, label)
      → Step (c, disk) ((append_labeled source kind label c).1, disk)
  batch_appended :
      {c : Changelog} {disk : Disk} (writes : List Record)
      → All FitsRecord writes
      → Step (c, disk) ((append_batch_labeled writes c).1, disk)
  marked :
      {c : Changelog} {disk : Disk} (up_to : ℕ) → Step (c, disk) (mark_materialized up_to c, disk)
  synced : {c : Changelog} {disk : Disk} → Step (c, disk) (sync c disk)
  reopened :
      {c : Changelog} {disk : Disk} (max_unmaterialized : ℕ)
      → Step (c, disk) (open_log disk max_unmaterialized)

-- What a sequence of steps reaches from a fresh file.
pub data Reachable : Changelog × Disk → Type 0 where
  opened : (max_unmaterialized : ℕ) → Reachable (open_log none max_unmaterialized)
  stepped : {s t : Changelog × Disk} → Reachable s → Step s t → Reachable t

Step-IsSound : {s t : Changelog × Disk} → Step s t → IsSound s.0 s.1 → IsSound t.0 t.1
Step-IsSound (appended source kind label fits) h = append_labeled-IsSound h source kind label fits
Step-IsSound (batch_appended writes fits) h = append_batch_labeled-IsSound h writes fits
Step-IsSound (marked up_to) h = mark_materialized-IsSound h up_to
Step-IsSound synced h = sync-IsSound h
Step-IsSound (reopened {c} {disk} max_unmaterialized) h =
    open_log-IsSound disk max_unmaterialized (take c.durable_upto c.records) (recover-written h)
      (rw h.written refl) (All-take c.durable_upto c.records h.fit)

-- After any appends of records that fit a frame, batches of them, watermarks, syncs and reopens
-- from a fresh file on, and no compaction, the file holds exactly the frames of the durable
-- records, the counters are in bounds, and the backlog is within its limit. A record fits a frame
-- if its source and its numbers fit their words, its texts are UTF-8, and its payload is at most
-- 16 MiB.
pub Reachable-IsSound : {s : Changelog × Disk} → Reachable s → IsSound s.0 s.1
unfolding recover framed
Reachable-IsSound (opened max_unmaterialized) =
    open_log-IsSound none max_unmaterialized [] refl refl _
Reachable-IsSound (stepped r step) = Step-IsSound step (Reachable-IsSound r)

-- For a log that appends of records that fit a frame, batches of them, watermarks, syncs and
-- reopens, and no compaction, reached from a fresh file: after a crash in the middle of a sync,
-- which has written any part of its buffer, an open brings back the first k records in order,
-- each with its label where its kind writes a row, for a k that is at least the number of durable
-- records. A record fits a frame if its source and its numbers fit their words, its texts are
-- UTF-8, and its payload is at most 16 MiB.
pub open_log-crashed_sync :
    {c : Changelog} {disk : Disk} (begun more : Bytes) (max_unmaterialized : ℕ)
    → Reachable (c, disk)
    → begun ++ more ≡ framed (drop c.durable_upto c.records)
    → (k : ℕ) × (c.durable_upto ≤ k)
      × (k ≤ length c.records)
      × ((open_log (some (unwrap_or disk [] ++ begun)) max_unmaterialized).0.records
          ≡ map as_kept (take k c.records))
open_log-crashed_sync {c} {disk} begun more max_unmaterialized r e =
    let s = Reachable-IsSound r in
    let d = c.durable_upto in
    let unsynced = drop d c.records in
    let (k, tail, le, torn, split) =
      framed-prefix unsynced begun more (All-drop d c.records s.fit) e in
    let kept = take d c.records ++ take k unsynced in
    let fits =
      All-append (take d c.records) (take k unsynced) (All-take d c.records s.fit)
        (All-take k unsynced (All-drop d c.records s.fit)) in
    let file : some (unwrap_or disk [] ++ begun) ≡ some (framed kept ++ tail) =
      rw (s.written, split)
        (ap some (
          sym (append_assoc (framed (take d c.records)) (framed (take k unsynced)) tail)
          ∙ ap (λ l. l ++ tail) (sym (framed-append (take d c.records) (take k unsynced))))) in
    (
      d + k,
      omega arith,
      omega (arith, le, s.durable, length-drop d c.records),
      ap (λ o. o.0.records)
            (open_log_lem (some (unwrap_or disk [] ++ begun)) max_unmaterialized 0
              (map as_kept kept) (ap recover file ∙ recover-committed kept tail fits torn))
          ∙ ap (map as_kept) (sym (take-plus d k c.records s.durable)),
    )
