-- ===== src/Changelog/Compaction.antt =====
-- crates/stroma-core/src/changelog.rs, `compact_to`: the log starts again behind a snapshot.
use stromadb.Base.{
  ℕ, ◌^◌, ◌<◌, ◌≡◌, refl, sym, ap, ◌∙◌, arith, true, false, not, ◌||◌, Option, some, List, [], ◌∷◌,
  append-nil,
}
use stromadb.Base.Tests.{ltb, if◌then◌else◌, unwrap_or}
use stromadb.Base.Lists.{length}
use stromadb.Wal.Bytes.{Bytes}
use stromadb.Wal.Recover.{frame_wal_start, framed, recover}
use stromadb.Wal.Committed.{recover-compacted}
use stromadb.Changelog.Ops.{Changelog, Disk, head, open_log}
use stromadb.Changelog.Framing.{nil-IsTorn}
use stromadb.Changelog.Soundness.{open_log_lem}

-- The log file with the files that a compaction writes beside it: `.snap` and `.archive-<S>`.
pub record Files : Type 0 where
  pub log : Disk
  pub snapshot : Option Bytes
  pub archives : List (ℕ × Bytes)

pub data CompactError : Type 0 where
  in_memory not_ready : CompactError

pub data Compacted : Type 0 where
  ok : ℕ → Compacted
  err : CompactError → Compacted

-- `Changelog::compact_to`
unfoldable pub compact_to : Bytes → Changelog → Files → Compacted × (Changelog × Files)
unfolding head frame_wal_start
compact_to snapshot_bytes c files =
    if not c.wal
    then (Compacted.err CompactError.in_memory, (c, files))
    else if ltb c.durable_upto (length c.records) || ltb c.materialized (length c.records)
    then (Compacted.err CompactError.not_ready, (c, files))
    else (
      Compacted.ok (head c),
      (
        record c { records = []; base = head c; materialized = 0; durable_upto = 0 },
        record {
          log = some (frame_wal_start (head c));
          snapshot = some snapshot_bytes;
          archives = (head c, unwrap_or files.log []) ∷ files.archives;
        },
      ),
    )

-- The log that a compaction leaves.
restarted : Changelog → Changelog
restarted c = record c { records = []; base = head c; materialized = 0; durable_upto = 0 }

compact_to-ready :
    (snapshot_bytes : Bytes) (c : Changelog) (files : Files)
    → c.wal ≡ true
    → c.durable_upto ≡ length c.records
    → c.materialized ≡ length c.records
    → compact_to snapshot_bytes c files ≡ (
      Compacted.ok (head c),
      (
        restarted c,
        record {
          log = some (frame_wal_start (head c));
          snapshot = some snapshot_bytes;
          archives = (head c, unwrap_or files.log []) ∷ files.archives;
        },
      ),
    )
unfolding compact_to restarted
compact_to-ready snapshot_bytes c files w durable done = rw (w, ready) refl
  where
    ready : (ltb c.durable_upto (length c.records) || ltb c.materialized (length c.records)) ≡ false
    ready = ground arith

open_log-frame_wal_start :
    (c : Changelog)
    → c.wal ≡ true
    → head c < 2 ^ 64
    → open_log (some (frame_wal_start (head c))) c.max_unmaterialized
      ≡ (restarted c, some (frame_wal_start (head c)))
unfolding framed restarted
open_log-frame_wal_start c w fits =
    open_log_lem (some file) c.max_unmaterialized (head c) [] recovered
    ∙ ap (λ b. (record (restarted c) { wal = b }, some file)) (sym w)
  where
    file : Bytes
    file = frame_wal_start (head c)

    recovered : recover (some file) ≡ (head c, [])
    recovered =
        ap (λ l. recover (some l)) (sym (append-nil file))
        ∙ recover-compacted (head c) [] [] fits _ nil-IsTorn

head-restarted : (c : Changelog) → head (restarted c) ≡ head c
unfolding head restarted
head-restarted c = omega arith

-- A log on a file that is all written and all materialized is compacted, and the number that the
-- compaction returns is its head, which stays its head; a log opened from the file that is left
-- is the log that the compaction left. The head fits in a `u64`.
pub open_log-compact_to :
    (snapshot_bytes : Bytes) (c : Changelog) (files : Files)
    → c.wal ≡ true
    → c.durable_upto ≡ length c.records
    → c.materialized ≡ length c.records
    → head c < 2 ^ 64
    → let (result, (d, left)) = compact_to snapshot_bytes c files in
      (result ≡ Compacted.ok (head c))
      × (head d ≡ head c)
      × (left.snapshot ≡ some snapshot_bytes)
      × (open_log left.log c.max_unmaterialized ≡ (d, left.log))
open_log-compact_to snapshot_bytes c files w durable done fits =
    rw (compact_to-ready snapshot_bytes c files w durable done)
      (refl, head-restarted c, refl, open_log-frame_wal_start c w fits)
