-- ===== src/Wal/Frames.antt =====
-- crates/stroma-core/src/wal.rs: a whole frame is read back, a torn one is not.
use stromadb.Base.{
  ℕ, zero, suc, ◌^◌, ◌<◌, ◌≤◌, ◌≡◌, ◌≢◌, refl, ap, none, some, [], ◌∷◌, ◌++◌, ◌⊎◌, inl, inr, arith,
  append_assoc,
}
use stromadb.Base.Tests.{==_refl}
use stromadb.Base.Lists.{length, length-append}
use stromadb.Wal.Bytes.{
  Bytes, to_le_bytes, put_u32, put_u64, take, u8, u32, fnv_step, checksum_from, checksum,
}
use stromadb.Wal.Words.{u32-put_u32, u64-put_u64, take-append}
use stromadb.Wal.Recover.{
  max_record_len, frame, decode_wal_start, read_payload, read_frame, wal_start_tag,
}

checksum_from-lt : (h : ℕ) (bytes : Bytes) → h < 2 ^ 32 → checksum_from h bytes < 2 ^ 32
unfolding checksum_from
checksum_from-lt h [] l = l
checksum_from-lt h (b ∷ bytes) l = checksum_from-lt (fnv_step h b) bytes (omega arith)

checksum-lt : (bytes : Bytes) → checksum bytes < 2 ^ 32
unfolding checksum
checksum-lt bytes = checksum_from-lt 0x811c_9dc5 bytes (omega arith)

-- A payload that recovery takes.
abbrev pub FitsFrame : Bytes → Type 0
FitsFrame payload = (0 < length payload) × (length payload ≤ max_record_len)

pub read_frame-frame :
    (payload rest : Bytes)
    → FitsFrame payload
    → read_frame (frame payload ++ rest) ≡ some (payload, rest)
unfolding read_frame frame read_payload
read_frame-frame payload rest h =
    rw
      (
        append_assoc (put_u32 (length payload)) (put_u32 (checksum payload) ++ payload) rest,
        append_assoc (put_u32 (checksum payload)) payload rest,
        u32-put_u32 (length payload) (omega arith),
        u32-put_u32 (checksum payload) (checksum-lt payload),
        take-append payload rest,
        ==_refl (checksum payload),
      )
      (ground arith)

take-short : (n : ℕ) (r : Bytes) → length r < n → take n r ≡ none
unfolding take
take-short zero r h = elim h [ ]
take-short (suc n) [] h = refl
take-short (suc n) (b ∷ r) h = rw (take-short n r (omega arith)) refl

u32-short : (r : Bytes) → length r < 4 → u32 r ≡ none
unfolding u32
u32-short r h = rw (take-short 4 r h) refl

pub length-put_u32 : (v : ℕ) → length (put_u32 v) ≡ 4
unfolding put_u32 to_le_bytes
length-put_u32 v = refl

-- A list that begins an append ends within its first part, or goes on into the second.
pub prefix-cases :
    (xs tail more ys : Bytes)
    → tail ++ more ≡ xs ++ ys
    → (length tail < length xs) ⊎ ((t : Bytes) × (tail ≡ xs ++ t) × (t ++ more ≡ ys))
prefix-cases [] tail more ys e = inr (tail, refl, e)
prefix-cases (x ∷ xs) [] more ys e = inl (omega arith)
prefix-cases (x ∷ xs) (b ∷ tail) more ys e = elim (prefix-cases xs tail more ys (cc)) [
  | inl short ↦ inl (omega arith)
  | inr (t, front, back) ↦ inr (t, cc, back)
]

-- What a crash leaves of a frame: a beginning that is not all of it.
pub record IsTorn (tail : Bytes) : Type 0 where
  pub payload : Bytes
  pub missing : Bytes
  pub begins : tail ++ missing ≡ frame payload
  pub not_all : missing ≢ []
  pub fits : FitsFrame payload

nonempty-length : (missing : Bytes) → missing ≢ [] → 0 < length missing
nonempty-length [] n = absurd (n refl)
nonempty-length (b ∷ missing) n = omega arith

torn-length :
    (t missing payload : Bytes) → t ++ missing ≡ payload → missing ≢ [] → length t < length payload
torn-length t missing payload e n =
    omega (arith, ap length e, length-append t missing, nonempty-length missing n)

-- The payload is cut.
read_payload-short : (len crc : ℕ) (t : Bytes) → length t < len → read_payload len crc t ≡ none
unfolding read_payload
read_payload-short len crc t h = rw (take-short len t h) (ground arith)

read_frame-cut :
    (len crc : ℕ) (t : Bytes)
    → len < 2 ^ 32
    → crc < 2 ^ 32
    → length t < len
    → read_frame (put_u32 len ++ (put_u32 crc ++ t)) ≡ none
unfolding read_frame
read_frame-cut len crc t h g l =
    rw (u32-put_u32 len h (put_u32 crc ++ t), u32-put_u32 crc g t) (read_payload-short len crc t l)

read_frame-no_length : (tail : Bytes) → length tail < 4 → read_frame tail ≡ none
unfolding read_frame
read_frame-no_length tail h = rw (u32-short tail h) refl

read_frame-no_checksum :
    (len : ℕ) (t : Bytes) → len < 2 ^ 32 → length t < 4 → read_frame (put_u32 len ++ t) ≡ none
unfolding read_frame
read_frame-no_checksum len t h l = rw (u32-put_u32 len h t, u32-short t l) refl

pub read_frame-IsTorn : (tail : Bytes) → IsTorn tail → read_frame tail ≡ none
unfolding frame
read_frame-IsTorn tail torn =
    let p = torn.payload in
    let len = length p in
    let crc = checksum p in
    let whole : len < 2 ^ 32 = omega (arith, torn.fits) in
    elim (prefix-cases (put_u32 len) tail torn.missing (put_u32 crc ++ p) torn.begins) [
      | inl short ↦ read_frame-no_length tail (omega (arith, length-put_u32 len))
      | inr (t, front, back) ↦ rw front (elim (prefix-cases (put_u32 crc) t torn.missing p back) [
        | inl short ↦ read_frame-no_checksum len t whole (omega (arith, length-put_u32 crc))
        | inr (u, front', back') ↦ rw front' (
            read_frame-cut len crc u whole (checksum-lt p)
              (torn-length u torn.missing p back' torn.not_all))
      ])
    ]

-- The first frame of a compacted log names its start.
pub decode_wal_start_lem :
    (first : ℕ)
    → first < 2 ^ 64
    → decode_wal_start (put_u32 0 ++ (wal_start_tag ∷ (put_u64 first ++ []))) ≡ some first
unfolding decode_wal_start u8
decode_wal_start_lem first h =
    rw (u32-put_u32 0 (omega arith) (wal_start_tag ∷ (put_u64 first ++ [])), u64-put_u64 first h [])
      refl
