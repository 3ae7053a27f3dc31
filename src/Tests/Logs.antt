-- ===== src/Tests/Logs.antt =====
-- crates/stroma-core/src/wal.rs and changelog.rs at concrete inputs.
use stromadb.Base.{
  true, ◌^◌, ℕ, ◌+◌, ◌≡◌, ◌≤◌, ◌<◌, ◌⊎◌, refl, arith, none, some, [], ◌∷◌, ◌++◌, map,
}
use stromadb.Base.Int.{ℤ}
use stromadb.Base.Tests.{◌>>=◌, unwrap_or}
use stromadb.Base.Lists.{length, take, drop}
use stromadb.WriteKind.{WriteKind}
use stromadb.Wal.Bytes
use stromadb.Wal.Bytes.{
  Bytes, to_le_bytes, put_u32, put_u64, put_objkey, put_i64, u32, from_le_bytes, checksum,
  checksum_from, to_bits,
}
use stromadb.Wal.Codec.{put_opt_i64, put_label_tail, encode_kind, encode_payload, decode_record}
use stromadb.Wal.RoundTrip.{decode_record-encode_payload}
use stromadb.Wal.Recover.{
  framed, frame, frame_record, frame_wal_start, read_payload, read_frame, recover_loop, recover,
}
use stromadb.Wal.Frames.{IsTorn}
use stromadb.Wal.Committed.{FitsRecord, as_kept, recover-committed, recover-compacted}
use stromadb.Changelog.Ops.{
  Appended, Changelog, Disk, head, unmaterialized, append_labeled, append_batch_labeled, open_log,
  sync, replay, replay_range_into,
}
use stromadb.Changelog.Appends.{seqnos_from, extended, append_each, append_batch_labeled_lem}
use stromadb.Changelog.Durability.{
  appended, Reachable, opened, stepped, Reachable-IsSound, open_log-crashed_sync,
}
use stromadb.Changelog.Soundness.{IsSound}
use stromadb.Changelog.Replay.{replay_range_into-extended}
use stromadb.Changelog.Compaction.{Files, Compacted, compact_to, open_log-compact_to}
use stromadb.Changelog.Reopen.{replay-synced}
use stromadb.Tests.Data.{hire, meet, two_records}

hire_fits : FitsRecord hire
unfolding encode_payload encode_kind put_u32 put_u64 to_le_bytes put_objkey put_i64 put_opt_i64
    put_label_tail
hire_fits = (omega arith, (omega arith, omega arith, omega arith, omega arith, _), omega arith)

-- Two bytes of a frame of nine.
two_bytes-IsTorn : IsTorn (1 ∷ 0 ∷ [])
unfolding frame put_u32 to_le_bytes
two_bytes-IsTorn = record {
  payload = 0 ∷ [];
  missing = drop 2 (frame (0 ∷ []));
  begins = refl;
  not_all = λ q. cc;
  fits = (omega arith, omega arith);
}

decode_record-encode_payload_example :
    decode_record (encode_payload 1 (WriteKind.close_one 10 2 (ℤ.negsuc 4)) (some 3))
    ≡ some (1, WriteKind.close_one 10 2 (ℤ.negsuc 4), some 3)
decode_record-encode_payload_example =
    decode_record-encode_payload 1 (WriteKind.close_one 10 2 (ℤ.negsuc 4)) (some 3) (omega arith)
      (omega arith, omega arith, omega arith)

recover-committed_example : recover (some (framed (hire ∷ []) ++ (1 ∷ 0 ∷ []))) ≡ (0, hire ∷ [])
recover-committed_example =
    recover-committed (hire ∷ []) (1 ∷ 0 ∷ []) (hire_fits, _) two_bytes-IsTorn

recover-compacted_example :
    recover (some (frame_wal_start 7 ++ (framed (hire ∷ []) ++ (1 ∷ 0 ∷ [])))) ≡ (7, hire ∷ [])
recover-compacted_example =
    recover-compacted 7 (hire ∷ []) (1 ∷ 0 ∷ []) (omega arith) (hire_fits, _) two_bytes-IsTorn

append_batch_labeled_lem_example :
    let seqnos = seqnos_from (head two_records) 1 in
    let backlog = unmaterialized two_records + 1 in
    ((backlog ≤ 3)
      × (append_batch_labeled (hire ∷ []) two_records
          ≡ (Appended.ok seqnos, extended (hire ∷ []) two_records))
      × (append_each (hire ∷ []) two_records
          ≡ (map Appended.ok seqnos, extended (hire ∷ []) two_records)))
    ⊎ ((3 < backlog)
        × (append_batch_labeled (hire ∷ []) two_records
            ≡ (Appended.err (record { unmaterialized = backlog; limit = 3 }), two_records)))
append_batch_labeled_lem_example = append_batch_labeled_lem (hire ∷ []) two_records

-- A fresh log, and then one record in it that is not yet on the disk.
abbrev fresh : Changelog × Disk
fresh = open_log none 3

abbrev hired_log : Changelog × Disk
hired_log = ((append_labeled 1 hire.1 (some 3) fresh.0).1, fresh.1)

hired_log-Reachable : Reachable hired_log
hired_log-Reachable = stepped (opened 3) (appended 1 hire.1 (some 3) hire_fits)

Reachable-IsSound_example : IsSound hired_log.0 hired_log.1
Reachable-IsSound_example = Reachable-IsSound hired_log-Reachable

-- The sync has written two bytes.
abbrev begun : Bytes
begun = take 2 (framed (hire ∷ []))

abbrev unwritten : Bytes
unwritten = drop 2 (framed (hire ∷ []))

part_written : begun ++ unwritten ≡ framed (drop hired_log.0.durable_upto hired_log.0.records)
unfolding open_log append_labeled recover framed frame_record frame put_u32 to_le_bytes
part_written = refl

open_log-crashed_sync_example :
    (k : ℕ) × (hired_log.0.durable_upto ≤ k)
    × (k ≤ length hired_log.0.records)
    × ((open_log (some (unwrap_or hired_log.1 [] ++ begun)) 3).0.records
        ≡ map as_kept (take k hired_log.0.records))
open_log-crashed_sync_example =
    open_log-crashed_sync begun unwritten 3 hired_log-Reachable part_written

replay_range_into-extended_example :
    (replay two_records >>= replay_range_into (head two_records) (extended (meet ∷ []) two_records))
    ≡ replay (extended (meet ∷ []) two_records)
replay_range_into-extended_example = replay_range_into-extended two_records (meet ∷ [])

replay-synced_example :
    replay ((open_log ((sync hired_log.0 hired_log.1).1) 4).0) ≡ replay hired_log.0
replay-synced_example = replay-synced 4 hired_log-Reachable

-- A log is opened on a torn tail, and takes a record that it syncs.
abbrev reopened_log : Changelog × Disk
reopened_log =
    let (c, disk) = open_log (some (1 ∷ [])) 3 in sync ((append_labeled 1 hire.1 (some 3) c).1) disk

-- The record counts as durable, and the next open does not find it.
synced_behind_torn_tail :
    (reopened_log.0.durable_upto ≡ 1) × ((open_log reopened_log.1 3).0.records ≡ [])
unfolding open_log append_labeled sync recover recover_loop read_frame read_payload u32
    from_le_bytes Bytes.take framed frame_record frame put_u32 to_le_bytes checksum checksum_from
    head unmaterialized encode_payload encode_kind put_u64 put_objkey put_i64 put_opt_i64
    put_label_tail to_bits
synced_behind_torn_tail = (refl, refl)

-- A log that is written and materialized, and its files.
abbrev settled : Changelog
settled = record two_records { wal = true; durable_upto = 2; materialized = 2 }

abbrev settled_files : Files
settled_files = record { log = some (framed two_records.records); snapshot = none; archives = [] }

settled-head : head settled < 2 ^ 64
unfolding head
settled-head = omega arith

open_log-compact_to_example :
    let (result, (d, left)) = compact_to (9 ∷ []) settled settled_files in
    (result ≡ Compacted.ok (head settled))
    × (head d ≡ head settled)
    × (left.snapshot ≡ some (9 ∷ []))
    × (open_log left.log 3 ≡ (d, left.log))
open_log-compact_to_example =
    open_log-compact_to (9 ∷ []) settled settled_files refl refl refl settled-head
