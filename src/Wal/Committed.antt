-- ===== src/Wal/Committed.antt =====
-- crates/stroma-core/src/wal.rs, `recover`: every whole record comes back, and a torn tail is
-- dropped.
use stromadb.Base.{
  ℕ, zero, suc, ◌+◌, ◌^◌, ◌<◌, ◌≤◌, ◌≡◌, refl, sym, ap, ◌∙◌, Bool, true, false, Option, none, some,
  List, [], ◌∷◌, ◌++◌, arith, append_assoc, append-nil, map,
}
use native.Mathlib.Numerals.{add-one}
use stromadb.Base.Tests.{◌>>=◌}
use stromadb.Base.Lists.{length, length-append, All}
use stromadb.Fact.{FieldId}
use stromadb.Fold.State.{Label}
use stromadb.WriteKind.{WriteKind, row_label}
use stromadb.Wal.Bytes.{Bytes, to_le_bytes, put_u32, put_u64, u8}
use stromadb.Wal.Words.{u32-put_u32}
use stromadb.Wal.Codec.{Recovered, encode_kind, encode_payload, decode_record}
use stromadb.Wal.RoundTrip.{FitsKind, decode_record-encode_payload}
use stromadb.Wal.Recover.{
  max_record_len, frame, framed, frame_record, frame_wal_start, decode_wal_start, start_field,
  read_frame, start_of, recover_loop, recover, wal_start_payload,
}
use stromadb.Wal.Frames.{
  FitsFrame, IsTorn, read_frame-frame, read_frame-IsTorn, decode_wal_start_lem, length-put_u32,
}

-- A record that the log can hold: its numbers fit their words, and it is not over the limit that
-- recovery sets.
abbrev pub FitsRecord : Recovered → Type 0
FitsRecord (source, kind, label) =
    (source < 2 ^ 32) × FitsKind kind × (length (encode_payload source kind label) ≤ max_record_len)

-- A record as it is read back.
abbrev pub as_kept : Recovered → Recovered
as_kept (source, kind, label) = (source, kind, row_label kind label)

start_tag_differs :
    (source : FieldId) (kind : WriteKind) (label : Option Label)
    → (u8 (encode_kind kind label) >>= λ (tag, r). start_field source tag r) ≡ none
unfolding encode_kind u8
start_tag_differs source (WriteKind.set_one s p o vf vt) label = ground arith
start_tag_differs source _ label = ground arith

decode_wal_start-encode_payload :
    (source : FieldId) (kind : WriteKind) (label : Option Label)
    → source < 2 ^ 32
    → decode_wal_start (encode_payload source kind label) ≡ none
unfolding decode_wal_start encode_payload
decode_wal_start-encode_payload source kind label h =
    rw (u32-put_u32 source h (encode_kind kind label)) (start_tag_differs source kind label)

start_of-encode_payload :
    (first_frame : Bool) (source : FieldId) (kind : WriteKind) (label : Option Label)
    → source < 2 ^ 32
    → start_of first_frame (encode_payload source kind label) ≡ none
start_of-encode_payload true source kind label h =
    decode_wal_start-encode_payload source kind label h
start_of-encode_payload false source kind label h = refl

pub FitsRecord-FitsFrame :
    (source : FieldId) (kind : WriteKind) (label : Option Label)
    → FitsRecord (source, kind, label)
    → FitsFrame (encode_payload source kind label)
unfolding encode_payload
FitsRecord-FitsFrame source kind label h =
    omega
      (arith, h.2, length-append (put_u32 source) (encode_kind kind label), length-put_u32 source)

module _ (fuel : ℕ) (first_frame : Bool) (first_seqno : ℕ) (out : List Recovered) (r : Bytes) where
  loop_ends :
      read_frame r ≡ none
      → recover_loop (suc fuel) first_frame first_seqno out r ≡ (first_seqno, out)
  unfolding recover_loop
  loop_ends e = ground arith

  loop_record :
      (payload rest : Bytes) (rec : Recovered)
      → read_frame r ≡ some (payload, rest)
      → start_of first_frame payload ≡ none
      → decode_record payload ≡ some rec
      → recover_loop (suc fuel) first_frame first_seqno out r
        ≡ recover_loop fuel false first_seqno (out ++ rec ∷ []) rest
  unfolding recover_loop
  loop_record payload rest rec e f g = ground arith

  loop_start :
      (payload rest : Bytes) (s : ℕ)
      → read_frame r ≡ some (payload, rest)
      → start_of first_frame payload ≡ some s
      → recover_loop (suc fuel) first_frame first_seqno out r ≡ recover_loop fuel false s out rest
  unfolding recover_loop
  loop_start payload rest s e f = ground arith

loop_frames :
    (fuel : ℕ) (first_frame : Bool) (first_seqno : ℕ) (out recs : List Recovered) (tail : Bytes)
    → length recs ≤ fuel
    → All FitsRecord recs
    → read_frame tail ≡ none
    → recover_loop fuel first_frame first_seqno out (framed recs ++ tail)
      ≡ (first_seqno, out ++ map as_kept recs)
unfolding framed frame_record
loop_frames zero ff s out [] tail h fit e = unfold recover_loop in λ i. (s, sym (append-nil out) i)
loop_frames zero ff s out (rec ∷ recs) tail h fit e = absurd (omega arith)
loop_frames (suc fuel) ff s out [] tail h fit e =
    loop_ends fuel ff s out tail e ∙ (λ i. (s, sym (append-nil out) i))
loop_frames (suc fuel) ff s out ((source, kind, label) ∷ recs) tail h (fit, fits) e =
    let payload = encode_payload source kind label in
    let rest = framed recs ++ tail in
    ap (recover_loop (suc fuel) ff s out) (append_assoc (frame payload) (framed recs) tail)
    ∙ loop_record fuel ff s out (frame payload ++ rest) payload rest (as_kept (source, kind, label))
        (read_frame-frame payload rest (FitsRecord-FitsFrame source kind label fit))
        (start_of-encode_payload ff source kind label fit.0)
        (decode_record-encode_payload source kind label fit.0 fit.1)
    ∙ loop_frames fuel false s (out ++ as_kept (source, kind, label) ∷ []) recs tail (omega arith)
        fits e
    ∙ (λ i. (s, append_assoc out (as_kept (source, kind, label) ∷ []) (map as_kept recs) i))

length-frame : (payload : Bytes) → 0 < length (frame payload)
unfolding frame put_u32 to_le_bytes
length-frame payload = omega arith

length-framed : (recs : List Recovered) (tail : Bytes) → length recs ≤ length (framed recs ++ tail)
unfolding framed frame_record
length-framed [] tail = omega arith
length-framed ((source, kind, label) ∷ recs) tail =
    let payload = encode_payload source kind label in
    omega (
      arith,
      length-frame payload,
      length-framed recs tail,
      ap length (append_assoc (frame payload) (framed recs) tail),
      length-append (frame payload) (framed recs ++ tail),
    )

-- Recovery of a log of whole records that fit it, with a torn frame behind them, returns exactly
-- the records, in order, each with its label where its kind writes a row, and the start 0.
pub recover-committed :
    (recs : List Recovered) (tail : Bytes)
    → All FitsRecord recs
    → IsTorn tail
    → recover (some (framed recs ++ tail)) ≡ (0, map as_kept recs)
unfolding recover
recover-committed recs tail fits torn =
    loop_frames (length (framed recs ++ tail) + 1) true 0 [] recs tail
      (omega (arith, length-framed recs tail)) fits (read_frame-IsTorn tail torn)

wal_start_payload-FitsFrame : (first : ℕ) → FitsFrame (wal_start_payload first)
unfolding put_u32 put_u64 to_le_bytes
wal_start_payload-FitsFrame first = omega arith

-- Recovery of a log that a compaction began at a seqno that fits in a `u64` returns that seqno, and
-- exactly the records behind it, which fit the log, in order, each with its label where its kind
-- writes a row; a torn frame at the end is dropped.
pub recover-compacted :
    (first : ℕ) (recs : List Recovered) (tail : Bytes)
    → first < 2 ^ 64
    → All FitsRecord recs
    → IsTorn tail
    → recover (some (frame_wal_start first ++ (framed recs ++ tail))) ≡ (first, map as_kept recs)
unfolding recover frame_wal_start
recover-compacted first recs tail h fits torn =
    let payload = wal_start_payload first in
    let rest = framed recs ++ tail in
    let file = frame payload ++ rest in
    ap (λ n. recover_loop n true 0 [] file) (add-one (length file))
    ∙ loop_start (length file) true 0 [] file payload rest first
        (read_frame-frame payload rest (wal_start_payload-FitsFrame first))
        (decode_wal_start_lem first h)
    ∙ loop_frames (length file) false first [] recs tail
        (omega (arith, length-framed recs tail, length-append (frame payload) rest)) fits
        (read_frame-IsTorn tail torn)
