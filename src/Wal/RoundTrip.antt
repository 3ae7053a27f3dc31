-- ===== src/Wal/RoundTrip.antt =====
-- crates/stroma-core/src/wal.rs: `decode_record` reads what `encode_payload` wrote.
use stromadb.Base.{
  ◌^◌, ◌<◌, ◌≡◌, refl, false, Option, none, some, List, [], ◌∷◌, ◌++◌, append_assoc,
}
use stromadb.Base.Int.{ℤ}
use stromadb.Base.Lists.{length, is_empty, All}
use stromadb.Fact.{FieldId}
use stromadb.Catalog.{Cardinality}
use stromadb.Fold.Keys.{OrderKey}
use stromadb.Fold.State.{Label}
use stromadb.WriteKind.{WriteKind, row_label}
use stromadb.Wal.Bytes.{Bytes, to_le_bytes, put_i64, put_orderkey, u8}
use stromadb.Wal.Words.{
  Reads, FitsI64, FitsStr, FitsObjKey, FitsOrderKey, u32-put_u32, u64-put_u64, i64-put_i64,
  string-put_str, objkey-put_objkey, orderkey-put_orderkey,
}
use stromadb.Wal.Codec.{
  put_opt_i64, put_label_tail, put_orderkeys, encode_kind, encode_payload, opt_i64_tail, label_tail,
  valid_time_tail, orderkeys, decode_set_one, decode_close_one, decode_add_many, decode_remove_many,
  decode_hard_delete, decode_edge_prop, decode_node_type, decode_node_label, decode_close_many,
  read_kind, decode_kind, decode_record,
}

abbrev pub FitsEnd : Option ℤ → Type 0
FitsEnd none = Unit
FitsEnd (some t) = FitsI64 t

-- Every number of the write fits the word that it is written as.
abbrev pub FitsKind : WriteKind → Type 0
FitsKind (WriteKind.set_one s p o vf vt) =
    (s < 2 ^ 64) × (p < 2 ^ 32) × FitsObjKey o × FitsI64 vf × FitsEnd vt
FitsKind (WriteKind.close_one s p vf) = (s < 2 ^ 64) × (p < 2 ^ 32) × FitsI64 vf
FitsKind (WriteKind.add_many s p o vf vt) =
    (s < 2 ^ 64) × (p < 2 ^ 32) × FitsObjKey o × FitsI64 vf × FitsEnd vt
FitsKind (WriteKind.close_many s p o vf) = (s < 2 ^ 64) × (p < 2 ^ 32) × FitsObjKey o × FitsI64 vf
FitsKind (WriteKind.remove_many s p observed) =
    (s < 2 ^ 64) × (p < 2 ^ 32) × (length observed < 2 ^ 32) × All FitsOrderKey observed
FitsKind (WriteKind.hard_delete s p c) = (s < 2 ^ 64) × (p < 2 ^ 32)
FitsKind (WriteKind.set_edge_prop s p o key value) =
    (s < 2 ^ 64) × (p < 2 ^ 32) × FitsObjKey o × FitsStr key × FitsObjKey value
FitsKind (WriteKind.set_node_type n t) = (n < 2 ^ 64) × (t < 2 ^ 32)
FitsKind (WriteKind.set_node_label n l) = n < 2 ^ 64

opt_i64_tail-put_opt_i64 : (t : Option ℤ) → FitsEnd t → Reads opt_i64_tail (put_opt_i64 t) t
unfolding opt_i64_tail put_opt_i64
opt_i64_tail-put_opt_i64 none h r = refl
opt_i64_tail-put_opt_i64 (some t) h r = rw (i64-put_i64 t h r) refl

label_tail-put_label_tail : (l : Option Label) → label_tail (put_label_tail l) ≡ some (l, [])
unfolding label_tail put_label_tail u8
label_tail-put_label_tail none = refl
label_tail-put_label_tail (some l) = refl

put_i64-nonempty : (t : ℤ) (r : Bytes) → is_empty (put_i64 t ++ r) ≡ false
unfolding put_i64 to_le_bytes
put_i64-nonempty t r = refl

orderkeys-put_orderkeys :
    (oks : List OrderKey)
    → All FitsOrderKey oks
    → Reads (orderkeys (length oks)) (put_orderkeys oks) oks
unfolding orderkeys put_orderkeys
orderkeys-put_orderkeys [] h r = refl
orderkeys-put_orderkeys (ok ∷ oks) (h, hs) r =
    rw (append_assoc (put_orderkey ok) (put_orderkeys oks) r)
      (rw (orderkey-put_orderkey ok h) (rw (orderkeys-put_orderkeys oks hs r) refl))

read_kind-encode_kind :
    (kind : WriteKind) (label : Option Label)
    → FitsKind kind
    → read_kind (encode_kind kind label) ≡ some ((kind, row_label kind label), [])
unfolding decode_kind encode_kind u8 decode_set_one decode_close_one decode_add_many valid_time_tail
    decode_close_many decode_remove_many decode_hard_delete decode_edge_prop decode_node_type
    decode_node_label
read_kind-encode_kind (WriteKind.set_one s p o vf vt) label h =
    rw
      (
        u64-put_u64 s h.0,
        u32-put_u32 p h.1,
        objkey-put_objkey o h.2,
        i64-put_i64 vf h.3,
        opt_i64_tail-put_opt_i64 vt h.4,
        label_tail-put_label_tail label,
      )
      refl
read_kind-encode_kind (WriteKind.close_one s p vf) label h =
    rw (u64-put_u64 s h.0, u32-put_u32 p h.1, i64-put_i64 vf h.2, label_tail-put_label_tail label)
      refl
read_kind-encode_kind (WriteKind.add_many s p o vf vt) label h =
    rw
      (
        u64-put_u64 s h.0,
        u32-put_u32 p h.1,
        objkey-put_objkey o h.2,
        put_i64-nonempty,
        i64-put_i64 vf h.3,
        opt_i64_tail-put_opt_i64 vt h.4,
        label_tail-put_label_tail label,
      )
      refl
read_kind-encode_kind (WriteKind.close_many s p o vf) label h =
    rw
      (
        u64-put_u64 s h.0,
        u32-put_u32 p h.1,
        objkey-put_objkey o h.2,
        i64-put_i64 vf h.3,
        label_tail-put_label_tail label,
      )
      refl
read_kind-encode_kind (WriteKind.remove_many s p observed) label h =
    rw
      (
        u64-put_u64 s h.0,
        u32-put_u32 p h.1,
        u32-put_u32 (length observed) h.2,
        orderkeys-put_orderkeys observed h.3,
      )
      refl
read_kind-encode_kind (WriteKind.hard_delete s p Cardinality.one) label h =
    rw (u64-put_u64 s h.0, u32-put_u32 p h.1) refl
read_kind-encode_kind (WriteKind.hard_delete s p Cardinality.many) label h =
    rw (u64-put_u64 s h.0, u32-put_u32 p h.1) refl
read_kind-encode_kind (WriteKind.set_edge_prop s p o key value) label h =
    rw
      (
        u64-put_u64 s h.0,
        u32-put_u32 p h.1,
        objkey-put_objkey o h.2,
        string-put_str key h.3,
        objkey-put_objkey value h.4,
      )
      refl
read_kind-encode_kind (WriteKind.set_node_type n t) label h =
    rw (u64-put_u64 n h.0, u32-put_u32 t h.1) refl
read_kind-encode_kind (WriteKind.set_node_label n l) label h = rw (u64-put_u64 n h) refl

-- A record whose numbers fit their words is decoded as it was encoded; the label comes back for
-- the kinds that write a row, and is dropped for the others.
pub decode_record-encode_payload :
    (source : FieldId) (kind : WriteKind) (label : Option Label)
    → source < 2 ^ 32
    → FitsKind kind
    → decode_record (encode_payload source kind label) ≡ some (source, kind, row_label kind label)
unfolding decode_record encode_payload
decode_record-encode_payload source kind label hs h =
    rw (u32-put_u32 source hs (encode_kind kind label), read_kind-encode_kind kind label h) refl
