-- ===== src/Wal/Words.antt =====
-- crates/stroma-core/src/wal.rs: what the primitives write, the `Reader` reads back, whatever
-- follows.
use native.Mathlib.Nat.{pow-suc, mod-eq_of_lt}
use stromadb.Base.{
  ℕ, zero, suc, ◌/◌, ◌^◌, ◌<◌, ◌≡◌, refl, sym, ap, ◌∙◌, true, false, some, [], ◌∷◌, ◌++◌, arith,
  append_assoc,
}
use stromadb.Base.Int.{ℤ, pos, negsuc}
use stromadb.Base.Lists.{length}
use stromadb.Fact.{Str}
use stromadb.Fold.Keys.{ObjKey, OrderKey}
use stromadb.Wal.Bytes.{
  Bytes, Parser, to_le_bytes, from_le_bytes, to_bits, of_bits, put_u32, put_u64, put_i64, put_str,
  put_objkey, put_orderkey, take, u8, u32, u64, i64, is_utf8, string, objkey_of_tag, objkey,
  orderkey,
}

-- The parser reads `bytes` as `a` and leaves what follows.
abbrev pub Reads : {A : Type 0} → Parser A → Bytes → A → Type 0
Reads p bytes a = (r : Bytes) → p (bytes ++ r) ≡ some (a, r)

-- The range of an `i64`.
abbrev pub FitsI64 : ℤ → Type 0
FitsI64 (pos n) = n < 2 ^ 63
FitsI64 (negsuc n) = n < 2 ^ 63

pub take-append : (xs r : Bytes) → take (length xs) (xs ++ r) ≡ some (xs, r)
unfolding take
take-append [] r = refl
take-append (x ∷ xs) r = rw (take-append xs r) refl

length-to_le_bytes : (n v : ℕ) → length (to_le_bytes n v) ≡ n
unfolding to_le_bytes
length-to_le_bytes zero v = refl
length-to_le_bytes (suc n) v = ap suc (length-to_le_bytes n (v / 256))

take-to_le_bytes : (n v : ℕ) (r : Bytes) → take n (to_le_bytes n v ++ r) ≡ some (to_le_bytes n v, r)
take-to_le_bytes n v r =
    ap (λ k. take k (to_le_bytes n v ++ r)) (sym (length-to_le_bytes n v))
    ∙ take-append (to_le_bytes n v) r

pub from_le_bytes-to_le_bytes : (n v : ℕ) → v < 256 ^ n → from_le_bytes (to_le_bytes n v) ≡ v
unfolding to_le_bytes from_le_bytes
from_le_bytes-to_le_bytes zero v h = omega arith
from_le_bytes-to_le_bytes (suc n) v h =
    omega (arith, from_le_bytes-to_le_bytes n (v / 256) (omega (arith, pow-suc 256 n)))

pub of_bits-to_bits : (i : ℤ) → FitsI64 i → of_bits (to_bits i) ≡ i
unfolding of_bits to_bits
of_bits-to_bits (pos n) h = ground arith
of_bits-to_bits (negsuc n) h = ground arith

to_bits-lt : (i : ℤ) → to_bits i < 2 ^ 64
unfolding to_bits
to_bits-lt (pos n) = omega arith
to_bits-lt (negsuc n) = omega arith

pub u32-put_u32 : (v : ℕ) → v < 2 ^ 32 → Reads u32 (put_u32 v) v
unfolding u32 put_u32
u32-put_u32 v h r =
    rw (mod-eq_of_lt h)
      (rw (take-to_le_bytes 4 v r) (ap (λ w. some (w, r)) (from_le_bytes-to_le_bytes 4 v h)))

pub u64-put_u64 : (v : ℕ) → v < 2 ^ 64 → Reads u64 (put_u64 v) v
unfolding u64 put_u64
u64-put_u64 v h r =
    rw (mod-eq_of_lt h)
      (rw (take-to_le_bytes 8 v r) (ap (λ w. some (w, r)) (from_le_bytes-to_le_bytes 8 v h)))

pub i64-put_i64 : (i : ℤ) → FitsI64 i → Reads i64 (put_i64 i) i
unfolding i64 put_i64
i64-put_i64 i h r = rw (take-to_le_bytes 8 (to_bits i) r) (
    ap (λ w. some (of_bits w, r)) (from_le_bytes-to_le_bytes 8 (to_bits i) (to_bits-lt i))
    ∙ ap (λ j. some (j, r)) (of_bits-to_bits i h))

-- A text that the program can hold: valid UTF-8, with a length that fits its prefix.
abbrev pub FitsStr : Str → Type 0
FitsStr s = (is_utf8 s ≡ true) × (length s < 2 ^ 32)

pub string-put_str : (s : Str) → FitsStr s → Reads string (put_str s) s
unfolding string put_str
string-put_str s h r =
    rw (append_assoc (put_u32 (length s)) s r)
      (rw (u32-put_u32 (length s) h.1 (s ++ r)) (rw (take-append s r) (rw h.0 refl)))

-- A key whose numbers fit their words.
abbrev pub FitsObjKey : ObjKey → Type 0
FitsObjKey (ObjKey.node n) = n < 2 ^ 64
FitsObjKey (ObjKey.int i) = FitsI64 i
FitsObjKey (ObjKey.float b) = b < 2 ^ 64
FitsObjKey (ObjKey.text t) = FitsStr t
FitsObjKey (ObjKey.boolean b) = Unit

abbrev pub FitsOrderKey : OrderKey → Type 0
FitsOrderKey ok = (ok.tx < 2 ^ 64) × (ok.source < 2 ^ 32) × (ok.seq < 2 ^ 64)

pub objkey-put_objkey : (o : ObjKey) → FitsObjKey o → Reads objkey (put_objkey o) o
unfolding objkey objkey_of_tag put_objkey u8
objkey-put_objkey (ObjKey.node n) h r = rw (u64-put_u64 n h r) refl
objkey-put_objkey (ObjKey.int i) h r = rw (i64-put_i64 i h r) refl
objkey-put_objkey (ObjKey.float b) h r = rw (u64-put_u64 b h r) refl
objkey-put_objkey (ObjKey.text t) h r = rw (string-put_str t h r) refl
objkey-put_objkey (ObjKey.boolean true) h r = refl
objkey-put_objkey (ObjKey.boolean false) h r = refl

pub orderkey-put_orderkey : (ok : OrderKey) → FitsOrderKey ok → Reads orderkey (put_orderkey ok) ok
unfolding orderkey put_orderkey
orderkey-put_orderkey ok h r =
    rw (append_assoc (put_u64 ok.tx) (put_u32 ok.source ++ put_u64 ok.seq) r) (
      rw (append_assoc (put_u32 ok.source) (put_u64 ok.seq) r) (
        rw (u64-put_u64 ok.tx h.0)
          (rw (u32-put_u32 ok.source h.1) (rw (u64-put_u64 ok.seq h.2) refl))))
