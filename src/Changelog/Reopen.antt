-- ===== src/Changelog/Reopen.antt =====
-- crates/stroma-core/src/changelog.rs, `sync`, `open` and `replay` together.
use stromadb.Base.{ℕ, ◌+◌, ◌≡◌, refl, sym, ap, ◌∙◌, not, ◌||◌, inl, inr, List, [], ◌∷◌, map, arith}
use stromadb.Base.Tests.{leb, Option-cases, Bool-cases}
use stromadb.Base.Lists.{length, take}
use stromadb.Fold.State.{Fold, empty_fold}
use stromadb.Fold.Apply.{apply_labeled, fold_labeled_from, fold_labeled}
use stromadb.Wal.Committed.{as_kept}
use stromadb.Changelog.Ops.{Record, Changelog, Disk, record_to_op, open_log, sync, replay}
use stromadb.Changelog.Framing.{take-all}
use stromadb.Changelog.Durability.{Reachable, Reachable-IsSound, stepped, synced}
use stromadb.Changelog.Soundness.{IsSound, open_log_lem, recover-written}
use stromadb.Changelog.Replay.{log_writes, replay-folds}
use stromadb.Changelog.Delivery.{apply_labeled-row_label}

fold_labeled_from-as_kept :
    (recs : List Record) (seqno : ℕ) (f : Fold)
    → fold_labeled_from f (log_writes seqno (map as_kept recs))
      ≡ fold_labeled_from f (log_writes seqno recs)
unfolding fold_labeled_from log_writes
fold_labeled_from-as_kept [] seqno f = refl
fold_labeled_from-as_kept ((source, kind, label) ∷ recs) seqno f =
    rw (apply_labeled-row_label seqno source kind label f)
      (elim (Option-cases (apply_labeled (record_to_op seqno source kind) label f)) [
        | inl panics ↦ rw panics refl
        | inr (g, applied) ↦ rw applied (fold_labeled_from-as_kept recs (seqno + 1) g)
      ])

fold_labeled-as_kept :
    (recs : List Record) (seqno : ℕ)
    → fold_labeled (log_writes seqno (map as_kept recs)) ≡ fold_labeled (log_writes seqno recs)
unfolding fold_labeled
fold_labeled-as_kept recs seqno = fold_labeled_from-as_kept recs seqno empty_fold

sync-durable :
    (c : Changelog) (disk : Disk) → IsSound c disk → (sync c disk).0.durable_upto ≡ length c.records
unfolding sync
sync-durable c disk s = elim (Bool-cases (not c.wal || leb (length c.records) c.durable_upto)) [
  | inl idle ↦ rw idle (ground (arith, s.durable, s.has_wal))
  | inr behind ↦ rw behind refl
]

sync-records : (c : Changelog) (disk : Disk) → (sync c disk).0.records ≡ c.records
unfolding sync
sync-records c disk = ground arith

-- A log that appends of records that fit a frame, batches of them, watermarks, syncs and reopens,
-- and no compaction, reached from a fresh file, synced and then opened from its file, replays to
-- the same state. A record fits a frame if its source and its numbers fit their words, its texts
-- are UTF-8, and its payload is at most 16 MiB.
pub replay-synced :
    {c : Changelog} {disk : Disk} (max_unmaterialized : ℕ)
    → Reachable (c, disk)
    → replay ((open_log ((sync c disk).1) max_unmaterialized).0) ≡ replay c
replay-synced {c} {disk} max_unmaterialized r =
    let before = Reachable-IsSound r in
    let after = Reachable-IsSound (stepped r synced) in
    let d = (sync c disk).0 in
    let whole : take d.durable_upto d.records ≡ c.records =
      rw (sync-durable c disk before, sync-records c disk) (take-all c.records) in
    ap (λ o. replay o.0)
      (open_log_lem ((sync c disk).1) max_unmaterialized 0
        (map as_kept (take d.durable_upto d.records)) (recover-written after))
    ∙ replay-folds _
    ∙ fold_labeled-as_kept (take d.durable_upto d.records) 0
    ∙ ap (λ l. fold_labeled (log_writes 0 l)) whole
    ∙ ap (λ b. fold_labeled (log_writes b c.records)) (sym before.starts)
    ∙ sym (replay-folds c)
