-- ===== src/Wal/Bytes.antt =====
-- crates/stroma-core/src/wal.rs: the little-endian primitives, `Reader`, and the checksum.
-- A buffer is the list of its bytes; a `Reader` is what it has not read yet.
use Prim.Native.Nat.{bit_xor}
use stromadb.Base.{
  ℕ, zero, suc, ◌+◌, ◌-◌, ◌*◌, ◌/◌, ◌%◌, ◌^◌, Bool, true, false, ◌&&◌, ◌||◌, Option, none, some,
  List, [], ◌∷◌, ◌++◌,
}
use stromadb.Base.Int.{ℤ, pos, negsuc}
use stromadb.Base.Tests.{ltb, leb, ◌==◌, if◌then◌else◌, ◌>>=◌}
use stromadb.Base.Lists.{length}
use stromadb.Fact.{Str}
use stromadb.Fold.Keys.{ObjKey, OrderKey, bit}

abbrev pub Bytes : Type 0
Bytes = List ℕ

-- FNV-1a, one turn of the loop.
abbrev pub fnv_step : ℕ → ℕ → ℕ
fnv_step h b = bit_xor h b * 0x0100_0193 % 2 ^ 32

unfoldable pub checksum_from : ℕ → Bytes → ℕ
checksum_from h [] = h
checksum_from h (b ∷ bytes) = checksum_from (fnv_step h b) bytes

unfoldable pub checksum : Bytes → ℕ
unfolding checksum_from
checksum bytes = checksum_from 0x811c_9dc5 bytes

-- `to_le_bytes` and `from_le_bytes` of a word of `n` bytes.
unfoldable pub to_le_bytes : ℕ → ℕ → Bytes
to_le_bytes zero v = []
to_le_bytes (suc n) v = v % 256 ∷ to_le_bytes n (v / 256)

unfoldable pub from_le_bytes : Bytes → ℕ
from_le_bytes [] = 0
from_le_bytes (b ∷ bytes) = b + 256 * from_le_bytes bytes

-- The two's complement of an `i64`, and back.
unfoldable pub to_bits : ℤ → ℕ
to_bits (pos n) = n % 2 ^ 64
to_bits (negsuc n) = 2 ^ 64 - 1 - n % 2 ^ 64

unfoldable pub of_bits : ℕ → ℤ
of_bits w = if ltb w (2 ^ 63) then pos w else negsuc (2 ^ 64 - 1 - w)

unfoldable pub put_u32 : ℕ → Bytes
put_u32 v = to_le_bytes 4 (v % 2 ^ 32)

unfoldable pub put_u64 : ℕ → Bytes
put_u64 v = to_le_bytes 8 (v % 2 ^ 64)

unfoldable pub put_i64 : ℤ → Bytes
put_i64 v = to_le_bytes 8 (to_bits v)

-- The length is cast to a `u32`.
unfoldable pub put_str : Str → Bytes
put_str s = put_u32 (length s) ++ s

-- `Reader::take`
unfoldable pub take : ℕ → Bytes → Option (Bytes × Bytes)
take zero r = some ([], r)
take (suc n) [] = none
take (suc n) (b ∷ r) = do (bytes, rest) ← take n r; some (b ∷ bytes, rest)

abbrev pub Parser : Type 0 → Type 0
Parser A = Bytes → Option (A × Bytes)

unfoldable pub u8 : Parser ℕ
u8 [] = none
u8 (b ∷ r) = some (b, r)

unfoldable pub u32 : Parser ℕ
u32 r = do (bytes, rest) ← take 4 r; some (from_le_bytes bytes, rest)

unfoldable pub u64 : Parser ℕ
u64 r = do (bytes, rest) ← take 8 r; some (from_le_bytes bytes, rest)

unfoldable pub i64 : Parser ℤ
i64 r = do (bytes, rest) ← take 8 r; some (of_bits (from_le_bytes bytes), rest)

abbrev pub in_range : ℕ → ℕ → ℕ → Bool
in_range lo hi b = leb lo b && leb b hi

-- The leading byte with the byte after it, of a sequence of two, three or four bytes.
abbrev two_byte : ℕ → ℕ → Bool
two_byte a b = in_range 0xc2 0xdf a && in_range 0x80 0xbf b

abbrev three_byte : ℕ → ℕ → Bool
three_byte a b =
    (a == 0xe0 && in_range 0xa0 0xbf b)
    || (in_range 0xe1 0xec a && in_range 0x80 0xbf b)
    || (a == 0xed && in_range 0x80 0x9f b)
    || (in_range 0xee 0xef a && in_range 0x80 0xbf b)

abbrev four_byte : ℕ → ℕ → Bool
four_byte a b =
    (a == 0xf0 && in_range 0x90 0xbf b)
    || (in_range 0xf1 0xf3 a && in_range 0x80 0xbf b)
    || (a == 0xf4 && in_range 0x80 0x8f b)

-- How many bytes a valid sequence at the front has; none if it is not valid.
pub sequence_length : Bytes → Option ℕ
sequence_length [] = none
sequence_length (a ∷ []) = if ltb a 0x80 then some 1 else none
sequence_length (a ∷ b ∷ []) = if ltb a 0x80 then some 1 else if two_byte a b then some 2 else none
sequence_length (a ∷ b ∷ c ∷ []) =
    if ltb a 0x80
    then some 1
    else if two_byte a b
    then some 2
    else if three_byte a b && in_range 0x80 0xbf c
    then some 3
    else none
sequence_length (a ∷ b ∷ c ∷ d ∷ r) =
    if ltb a 0x80
    then some 1
    else if two_byte a b
    then some 2
    else if three_byte a b && in_range 0x80 0xbf c
    then some 3
    else if four_byte a b && in_range 0x80 0xbf c && in_range 0x80 0xbf d
    then some 4
    else none

-- The number counts the bytes still to skip of the sequence at the front.
pub is_utf8_after : ℕ → Bytes → Bool
is_utf8_after zero [] = true
is_utf8_after (suc n) [] = false
is_utf8_after (suc n) (b ∷ r) = is_utf8_after n r
is_utf8_after zero (b ∷ r) = elim (sequence_length (b ∷ r)) [
  | none ↦ false
  | some n ↦ is_utf8_after (n - 1) r
]

-- The byte strings that `String::from_utf8` accepts.
unfoldable pub is_utf8 : Bytes → Bool
unfolding is_utf8_after sequence_length
is_utf8 = is_utf8_after 0

unfoldable pub string : Parser Str
string r = do
  (len, r1) ← u32 r
  (bytes, r2) ← take len r1
  if is_utf8 bytes then some (bytes, r2) else none

unfoldable pub put_objkey : ObjKey → Bytes
put_objkey (ObjKey.node n) = 0 ∷ put_u64 n
put_objkey (ObjKey.int i) = 1 ∷ put_i64 i
put_objkey (ObjKey.float b) = 2 ∷ put_u64 b
put_objkey (ObjKey.text t) = 3 ∷ put_str t
put_objkey (ObjKey.boolean b) = 4 ∷ bit b ∷ []

unfoldable pub put_orderkey : OrderKey → Bytes
put_orderkey ok = put_u64 ok.tx ++ (put_u32 ok.source ++ put_u64 ok.seq)

-- The payload of an object by its tag.
unfoldable pub objkey_of_tag : ℕ → Parser ObjKey
objkey_of_tag tag r =
    if tag == 0
    then (do (n, rest) ← u64 r; some (ObjKey.node n, rest))
    else if tag == 1
    then (do (i, rest) ← i64 r; some (ObjKey.int i, rest))
    else if tag == 2
    then (do (b, rest) ← u64 r; some (ObjKey.float b, rest))
    else if tag == 3
    then (do (t, rest) ← string r; some (ObjKey.text t, rest))
    else if tag == 4
    then (do (b, rest) ← u8 r; some (ObjKey.boolean (if b == 0 then false else true), rest))
    else none

unfoldable pub objkey : Parser ObjKey
objkey r = do (tag, rest) ← u8 r; objkey_of_tag tag rest

unfoldable pub orderkey : Parser OrderKey
orderkey r = do
  (tx, r1) ← u64 r
  (source, r2) ← u32 r1
  (seq, r3) ← u64 r2
  some (record { tx = tx; source = source; seq = seq }, r3)
