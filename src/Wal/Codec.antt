-- ===== src/Wal/Codec.antt =====
-- crates/stroma-core/src/wal.rs, `encode_payload` and `decode_record`: one record of the log.
use stromadb.Base.{ℕ, zero, suc, Option, none, some, List, [], ◌∷◌, ◌++◌}
use stromadb.Base.Int.{ℤ, pos}
use stromadb.Base.Tests.{◌==◌, if◌then◌else◌, ◌>>=◌}
use stromadb.Base.Lists.{length, is_empty}
use stromadb.Fact.{FieldId}
use stromadb.Catalog.{Cardinality}
use stromadb.Fold.Keys.{OrderKey}
use stromadb.Fold.State.{Label}
use stromadb.WriteKind.{WriteKind}
use stromadb.Wal.Bytes.{
  Bytes, Parser, put_u32, put_u64, put_i64, put_str, put_objkey, put_orderkey, u8, u32, u64, i64,
  string, objkey, orderkey,
}

-- The optional end of an interval.
unfoldable pub put_opt_i64 : Option ℤ → Bytes
put_opt_i64 none = 0 ∷ []
put_opt_i64 (some t) = 1 ∷ put_i64 t

unfoldable pub put_label_tail : Option Label → Bytes
put_label_tail none = []
put_label_tail (some l) = 1 ∷ l ∷ []

-- The keys that a removal observed.
unfoldable pub put_orderkeys : List OrderKey → Bytes
put_orderkeys [] = []
put_orderkeys (ok ∷ oks) = put_orderkey ok ++ put_orderkeys oks

abbrev pub cardinality_tag : Cardinality → ℕ
cardinality_tag Cardinality.one = 0
cardinality_tag Cardinality.many = 1

abbrev pub cardinality_of_tag : ℕ → Option Cardinality
cardinality_of_tag tag =
    if tag == 0 then some Cardinality.one else if tag == 1 then some Cardinality.many else none

unfoldable pub encode_kind : WriteKind → Option Label → Bytes
encode_kind (WriteKind.set_one s p object valid_from valid_to) label =
    0
    ∷ (put_u64 s
        ++ (put_u32 p
            ++ (put_objkey object
                ++ (put_i64 valid_from ++ (put_opt_i64 valid_to ++ put_label_tail label)))))
encode_kind (WriteKind.close_one s p valid_from) label =
    1 ∷ (put_u64 s ++ (put_u32 p ++ (put_i64 valid_from ++ put_label_tail label)))
encode_kind (WriteKind.add_many s p object valid_from valid_to) label =
    2
    ∷ (put_u64 s
        ++ (put_u32 p
            ++ (put_objkey object
                ++ (put_i64 valid_from ++ (put_opt_i64 valid_to ++ put_label_tail label)))))
encode_kind (WriteKind.remove_many s p observed) label =
    3 ∷ (put_u64 s ++ (put_u32 p ++ (put_u32 (length observed) ++ (put_orderkeys observed ++ []))))
encode_kind (WriteKind.hard_delete s p cardinality) label =
    4 ∷ (put_u64 s ++ (put_u32 p ++ (cardinality_tag cardinality ∷ [])))
encode_kind (WriteKind.set_edge_prop s p object key value) label =
    5
    ∷ (put_u64 s ++ (put_u32 p ++ (put_objkey object ++ (put_str key ++ (put_objkey value ++ [])))))
encode_kind (WriteKind.set_node_type n type_id) label = 6 ∷ (put_u64 n ++ (put_u32 type_id ++ []))
encode_kind (WriteKind.set_node_label n l) label = 7 ∷ (put_u64 n ++ (l ∷ []))
encode_kind (WriteKind.close_many s p object valid_from) label =
    8
    ∷ (put_u64 s
        ++ (put_u32 p ++ (put_objkey object ++ (put_i64 valid_from ++ put_label_tail label))))

unfoldable pub encode_payload : FieldId → WriteKind → Option Label → Bytes
encode_payload source kind label = put_u32 source ++ encode_kind kind label

-- `Reader::opt_i64_tail`: no byte left is `None`.
unfoldable pub opt_i64_tail : Parser (Option ℤ)
opt_i64_tail [] = some (none, [])
opt_i64_tail (tag ∷ r) =
    if tag == 0
    then some (none, r)
    else if tag == 1
    then (do (t, rest) ← i64 r; some (some t, rest))
    else none

-- `Reader::label_tail`
unfoldable pub label_tail : Parser (Option Label)
label_tail [] = some (none, [])
label_tail (tag ∷ r) = if tag == 1 then (do (l, rest) ← u8 r; some (some l, rest)) else none

-- `Reader::valid_time_tail`
unfoldable pub valid_time_tail : Parser (ℤ × Option ℤ)
valid_time_tail r = if is_empty r then some ((pos 0, none), []) else do
  (valid_from, r1) ← i64 r
  (valid_to, r2) ← opt_i64_tail r1
  some ((valid_from, valid_to), r2)

-- The loop over the observed keys.
unfoldable pub orderkeys : ℕ → Parser (List OrderKey)
orderkeys zero r = some ([], r)
orderkeys (suc n) r = do (ok, r1) ← orderkey r; (oks, r2) ← orderkeys n r1; some (ok ∷ oks, r2)

abbrev pub Decoded : Type 0
Decoded = WriteKind × Option Label

unfoldable pub decode_set_one : Parser Decoded
decode_set_one r = do
  (s, r1) ← u64 r
  (p, r2) ← u32 r1
  (object, r3) ← objkey r2
  (valid_from, r4) ← i64 r3
  (valid_to, r5) ← opt_i64_tail r4
  (label, r6) ← label_tail r5
  some ((WriteKind.set_one s p object valid_from valid_to, label), r6)

unfoldable pub decode_close_one : Parser Decoded
decode_close_one r = do
  (s, r1) ← u64 r
  (p, r2) ← u32 r1
  (valid_from, r3) ← i64 r2
  (label, r4) ← label_tail r3
  some ((WriteKind.close_one s p valid_from, label), r4)

unfoldable pub decode_add_many : Parser Decoded
decode_add_many r = do
  (s, r1) ← u64 r
  (p, r2) ← u32 r1
  (object, r3) ← objkey r2
  ((valid_from, valid_to), r4) ← valid_time_tail r3
  (label, r5) ← label_tail r4
  some ((WriteKind.add_many s p object valid_from valid_to, label), r5)

unfoldable pub decode_remove_many : Parser Decoded
decode_remove_many r = do
  (s, r1) ← u64 r
  (p, r2) ← u32 r1
  (n, r3) ← u32 r2
  (observed, r4) ← orderkeys n r3
  some ((WriteKind.remove_many s p observed, none), r4)

unfoldable pub decode_hard_delete : Parser Decoded
decode_hard_delete r = do
  (s, r1) ← u64 r
  (p, r2) ← u32 r1
  (tag, r3) ← u8 r2
  cardinality ← cardinality_of_tag tag
  some ((WriteKind.hard_delete s p cardinality, none), r3)

unfoldable pub decode_edge_prop : Parser Decoded
decode_edge_prop r = do
  (s, r1) ← u64 r
  (p, r2) ← u32 r1
  (object, r3) ← objkey r2
  (key, r4) ← string r3
  (value, r5) ← objkey r4
  some ((WriteKind.set_edge_prop s p object key value, none), r5)

unfoldable pub decode_node_type : Parser Decoded
decode_node_type r = do
  (n, r1) ← u64 r
  (type_id, r2) ← u32 r1
  some ((WriteKind.set_node_type n type_id, none), r2)

unfoldable pub decode_node_label : Parser Decoded
decode_node_label r = do
  (n, r1) ← u64 r
  (l, r2) ← u8 r1
  some ((WriteKind.set_node_label n l, none), r2)

unfoldable pub decode_close_many : Parser Decoded
decode_close_many r = do
  (s, r1) ← u64 r
  (p, r2) ← u32 r1
  (object, r3) ← objkey r2
  (valid_from, r4) ← i64 r3
  (label, r5) ← label_tail r4
  some ((WriteKind.close_many s p object valid_from, label), r5)

-- The match on the tag of a record.
unfoldable pub decode_kind : ℕ → Parser Decoded
decode_kind tag r =
    if tag == 0
    then decode_set_one r
    else if tag == 1
    then decode_close_one r
    else if tag == 2
    then decode_add_many r
    else if tag == 3
    then decode_remove_many r
    else if tag == 4
    then decode_hard_delete r
    else if tag == 5
    then decode_edge_prop r
    else if tag == 6
    then decode_node_type r
    else if tag == 7
    then decode_node_label r
    else if tag == 8
    then decode_close_many r
    else none

abbrev pub read_kind : Parser Decoded
read_kind r = do (tag, rest) ← u8 r; decode_kind tag rest

abbrev pub Recovered : Type 0
Recovered = FieldId × WriteKind × Option Label

abbrev whole_if_empty : Recovered → Bytes → Option Recovered
whole_if_empty rec r = if is_empty r then some rec else none

-- Bytes that are left over are a record that was framed wrongly.
unfoldable pub decode_record : Bytes → Option Recovered
decode_record payload = do
  (source, r1) ← u32 payload
  ((kind, label), r3) ← read_kind r1
  whole_if_empty (source, kind, label) r3
