-- ===== src/Wal/Recover.antt =====
-- crates/stroma-core/src/wal.rs: framing, and `recover`, the replay of a log file.
-- A file is its bytes, and `none` is a file that is not there. Read errors other than the end of
-- the file are not modelled.
use stromadb.Base.{
  ℕ, zero, suc, ◌+◌, ◌*◌, Bool, true, false, ◌||◌, ◌&&◌, Option, none, some, List, [], ◌∷◌, ◌++◌,
}
use stromadb.Base.Tests.{◌==◌, ltb, if◌then◌else◌, ◌>>=◌}
use stromadb.Base.Lists.{length, is_empty}
use stromadb.Fact.{FieldId}
use stromadb.Fold.State.{Label}
use stromadb.WriteKind.{WriteKind}
use stromadb.Wal.Bytes.{Bytes, put_u32, put_u64, take, u8, u32, u64, checksum}
use stromadb.Wal.Codec.{Recovered, encode_payload, decode_record}

abbrev pub max_record_len : ℕ
max_record_len = 16 * 1024 * 1024

-- `finish_frame`: the header of length and checksum, then the payload.
unfoldable pub frame : Bytes → Bytes
frame payload = put_u32 (length payload) ++ (put_u32 (checksum payload) ++ payload)

unfoldable pub frame_record : FieldId → WriteKind → Option Label → Bytes
frame_record source kind label = frame (encode_payload source kind label)

abbrev pub wal_start_tag : ℕ
wal_start_tag = 255

abbrev pub wal_start_payload : ℕ → Bytes
wal_start_payload first = put_u32 0 ++ (wal_start_tag ∷ (put_u64 first ++ []))

unfoldable pub frame_wal_start : ℕ → Bytes
frame_wal_start first = frame (wal_start_payload first)

-- The start, where source and tag are those of a start frame and nothing follows it.
abbrev pub start_field : ℕ → ℕ → Bytes → Option ℕ
start_field source tag r =
    if source == 0 && tag == wal_start_tag
    then (do (first, rest) ← u64 r; if is_empty rest then some first else none)
    else none

-- The buffer that `Changelog::sync` builds.
unfoldable pub framed : List Recovered → Bytes
framed [] = []
framed ((source, kind, label) ∷ recs) = frame_record source kind label ++ framed recs

unfoldable pub decode_wal_start : Bytes → Option ℕ
decode_wal_start payload = do
  (source, r1) ← u32 payload
  (tag, r2) ← u8 r1
  start_field source tag r2

-- The payload of the frame at the front, once its length is read: it is whole and its checksum is
-- right.
unfoldable pub read_payload : ℕ → ℕ → Bytes → Option (Bytes × Bytes)
read_payload len crc r = if len == 0 || ltb max_record_len len then none else do
  (payload, rest) ← take len r
  if checksum payload == crc then some (payload, rest) else none

unfoldable pub read_frame : Bytes → Option (Bytes × Bytes)
read_frame r = do (len, r1) ← u32 r; (crc, r2) ← u32 r1; read_payload len crc r2

-- Only the first frame of a file may carry its start.
abbrev pub start_of : Bool → Bytes → Option ℕ
start_of true payload = decode_wal_start payload
start_of false payload = none

-- The loop, with the flag for the first frame, the start and the records so far.
unfoldable pub recover_loop : ℕ → Bool → ℕ → List Recovered → Bytes → ℕ × List Recovered
recover_loop zero first_frame first_seqno out r = (first_seqno, out)
recover_loop (suc fuel) first_frame first_seqno out r = elim (read_frame r) [
  | none ↦ (first_seqno, out)
  | some (payload, rest) ↦ elim (start_of first_frame payload) [
    | some s ↦ recover_loop fuel false s out rest
    | none ↦ elim (decode_record payload) [
      | none ↦ (first_seqno, out)
      | some rec ↦ recover_loop fuel false first_seqno (out ++ rec ∷ []) rest
    ]
  ]
]

unfoldable pub recover : Option Bytes → ℕ × List Recovered
recover none = (0, [])
recover (some file) = recover_loop (length file + 1) true 0 [] file
