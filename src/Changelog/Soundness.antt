-- ===== src/Changelog/Soundness.antt =====
-- crates/stroma-core/src/changelog.rs: the log and its file in step, kept by each operation.
use stromadb.Base.{
  ℕ, ◌+◌, ◌≤◌, ◌≡◌, refl, sym, ap, ◌∙◌, true, not, ◌||◌, Option, some, List, [], ◌∷◌, ◌++◌, inl,
  inr, arith, append-nil, map,
}
use stromadb.Base.Tests.{leb, unwrap_or, Bool-cases}
use stromadb.Base.Lists.{length, take, drop, length-append, All}
use stromadb.Fact.{FieldId}
use stromadb.Fold.State.{Label}
use stromadb.WriteKind.{WriteKind}
use stromadb.Wal.Recover.{framed, recover}
use stromadb.Wal.Committed.{FitsRecord, as_kept, recover-committed}
use stromadb.Changelog.Ops.{
  Record, Changelog, Disk, open_log, sync, unmaterialized, append_labeled, append_batch_labeled,
  mark_materialized,
}
use stromadb.Changelog.Framing.{
  nil-IsTorn, take-append_more, take-all, take-drop, framed-append, framed-as_kept,
  FitsRecord-as_kept, All-append, All-take,
}
use stromadb.Changelog.Appends.{append_batch_labeled_lem, extended}

-- The file holds exactly the durable records, and the counters are in bounds.
pub record IsSound (c : Changelog) (disk : Disk) : Type 0 where
  pub has_wal : c.wal ≡ true
  pub starts : c.base ≡ 0
  pub written : disk ≡ some (framed (take c.durable_upto c.records))
  pub durable : c.durable_upto ≤ length c.records
  pub done : c.materialized ≤ length c.records
  pub backlog : unmaterialized c ≤ c.max_unmaterialized
  pub fit : All FitsRecord c.records

module _ {c : Changelog} {disk : Disk} (s : IsSound c disk) where
  extended-IsSound :
      (writes : List Record)
      → All FitsRecord writes
      → unmaterialized c + length writes ≤ c.max_unmaterialized
      → IsSound (extended writes c) disk
  unfolding unmaterialized
  extended-IsSound writes fits room = record {
    has_wal = s.has_wal;
    starts = s.starts;
    written =
        s.written
        ∙ ap (λ l. some (framed l))
            (sym (take-append_more c.durable_upto c.records writes s.durable));
    durable = omega (arith, s.durable, length-append c.records writes);
    done = omega (arith, s.done, length-append c.records writes);
    backlog = omega (arith, length-append c.records writes);
    fit = All-append c.records writes s.fit fits;
  }

  pub append_labeled-IsSound :
      (source : FieldId) (kind : WriteKind) (label : Option Label)
      → FitsRecord (source, kind, label)
      → IsSound ((append_labeled source kind label c).1) disk
  unfolding append_labeled
  append_labeled-IsSound source kind label fits =
      elim (Bool-cases (leb c.max_unmaterialized (unmaterialized c))) [
        | inl full ↦ rw full s
        | inr room ↦
            rw room (extended-IsSound ((source, kind, label) ∷ []) (fits, _) (ground arith))
      ]

  pub append_batch_labeled-IsSound :
      (writes : List Record)
      → All FitsRecord writes
      → IsSound ((append_batch_labeled writes c).1) disk
  append_batch_labeled-IsSound writes fits = elim (append_batch_labeled_lem writes c) [
    | inl (room, whole, each) ↦ rw whole (extended-IsSound writes fits room)
    | inr (full, refused) ↦ rw refused s
  ]

  pub mark_materialized-IsSound : (up_to : ℕ) → IsSound (mark_materialized up_to c) disk
  unfolding mark_materialized unmaterialized
  mark_materialized-IsSound up_to = record {
    has_wal = s.has_wal;
    starts = s.starts;
    written = s.written;
    durable = s.durable;
    done = omega (arith, s.done);
    backlog = omega (arith, s.backlog);
    fit = s.fit;
  }

  pub sync-IsSound : IsSound ((sync c disk).0) ((sync c disk).1)
  unfolding sync unmaterialized
  sync-IsSound = elim (Bool-cases (not c.wal || leb (length c.records) c.durable_upto)) [
    | inl idle ↦ rw idle s
    | inr behind ↦
        rw (behind, s.written)
          (record {
            has_wal = s.has_wal;
            starts = s.starts;
            written = all_written;
            durable = omega arith;
            done = s.done;
            backlog = s.backlog;
            fit = s.fit;
          })
  ]
    where
      all_written :
          some (framed (take c.durable_upto c.records) ++ framed (drop c.durable_upto c.records))
          ≡ some (framed (take (length c.records) c.records))
      all_written =
          ap some
            (sym (framed-append (take c.durable_upto c.records) (drop c.durable_upto c.records)))
          ∙ ap (λ l. some (framed l))
              (take-drop c.durable_upto c.records ∙ sym (take-all c.records))

pub open_log_lem :
    (disk : Disk) (max_unmaterialized base : ℕ) (recs : List Record)
    → recover disk ≡ (base, recs)
    → open_log disk max_unmaterialized ≡ (
      record {
        records = recs;
        base = base;
        materialized = length recs;
        max_unmaterialized = max_unmaterialized;
        wal = true;
        durable_upto = length recs;
      },
      some (unwrap_or disk []),
    )
unfolding open_log
open_log_lem disk max_unmaterialized base recs e = rw e refl

pub open_log-IsSound :
    (disk : Disk) (max_unmaterialized : ℕ) (recs : List Record)
    → recover disk ≡ (0, map as_kept recs)
    → unwrap_or disk [] ≡ framed recs
    → All FitsRecord recs
    → IsSound ((open_log disk max_unmaterialized).0) ((open_log disk max_unmaterialized).1)
unfolding unmaterialized
open_log-IsSound disk max_unmaterialized recs e bytes fits =
    rw (open_log_lem disk max_unmaterialized 0 (map as_kept recs) e) (record {
      has_wal = refl;
      starts = refl;
      written =
          ap some
            (bytes ∙ sym (framed-as_kept recs) ∙ ap framed (sym (take-all (map as_kept recs))));
      durable = omega arith;
      done = omega arith;
      backlog = omega arith;
      fit = FitsRecord-as_kept recs fits;
    })

-- A log that is opened again holds its durable records.
pub recover-written :
    {c : Changelog} {disk : Disk}
    → IsSound c disk
    → recover disk ≡ (0, map as_kept (take c.durable_upto c.records))
recover-written {c} {disk} s = rw s.written (
    ap recover (ap some (sym (append-nil (framed kept))))
    ∙ recover-committed kept [] (All-take c.durable_upto c.records s.fit) nil-IsTorn)
  where
    kept : List Record
    kept = take c.durable_upto c.records
