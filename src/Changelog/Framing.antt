-- ===== src/Changelog/Framing.antt =====
-- crates/stroma-core/src/wal.rs, `frame_record`: the bytes of a list of records, in parts.
use stromadb.Base.{
  ℕ, zero, suc, ◌+◌, ◌-◌, ◌<◌, ◌≤◌, ◌≡◌, ◌≢◌, refl, sym, ap, ◌∙◌, Option, List, [], ◌∷◌, ◌++◌, inl,
  inr, arith, append_assoc, map,
}
use stromadb.Base.Lists.{length, take, drop, All}
use stromadb.Fact.{FieldId}
use stromadb.Fold.State.{Label}
use stromadb.WriteKind.{WriteKind, row_label}
use stromadb.Wal.Bytes.{Bytes, to_le_bytes, put_u32}
use stromadb.Wal.Codec.{encode_kind, encode_payload}
use stromadb.Wal.Recover.{framed, frame, frame_record}
use stromadb.Wal.Frames.{IsTorn, prefix-cases}
use stromadb.Wal.Committed.{FitsRecord, FitsRecord-FitsFrame, as_kept}
use stromadb.Changelog.Ops.{Record}

pub take-append_more : (n : ℕ) (xs ys : List Record) → n ≤ length xs → take n (xs ++ ys) ≡ take n xs
take-append_more zero xs ys h = refl
take-append_more (suc n) [] ys h = absurd (omega arith)
take-append_more (suc n) (x ∷ xs) ys h = ap (λ l. x ∷ l) (take-append_more n xs ys (omega arith))

pub take-all : (xs : List Record) → take (length xs) xs ≡ xs
take-all [] = refl
take-all (x ∷ xs) = ap (λ l. x ∷ l) (take-all xs)

pub framed-append : (xs ys : List Record) → framed (xs ++ ys) ≡ framed xs ++ framed ys
unfolding framed
framed-append [] ys = refl
framed-append ((source, kind, label) ∷ xs) ys =
    ap (λ l. frame_record source kind label ++ l) (framed-append xs ys)
    ∙ sym (append_assoc (frame_record source kind label) (framed xs) (framed ys))

pub take-drop : (n : ℕ) (xs : List Record) → take n xs ++ drop n xs ≡ xs
take-drop zero xs = refl
take-drop (suc n) [] = refl
take-drop (suc n) (x ∷ xs) = ap (λ l. x ∷ l) (take-drop n xs)

pub All-append :
    (xs ys : List Record) → All FitsRecord xs → All FitsRecord ys → All FitsRecord (xs ++ ys)
All-append [] ys h k = k
All-append (x ∷ xs) ys (h, hs) k = (h, All-append xs ys hs k)

pub All-take : (n : ℕ) (xs : List Record) → All FitsRecord xs → All FitsRecord (take n xs)
All-take zero xs h = _
All-take (suc n) [] h = _
All-take (suc n) (x ∷ xs) (h, hs) = (h, All-take n xs hs)

pub All-drop : (n : ℕ) (xs : List Record) → All FitsRecord xs → All FitsRecord (drop n xs)
All-drop zero xs h = h
All-drop (suc n) [] h = _
All-drop (suc n) (x ∷ xs) (h, hs) = All-drop n xs hs

-- The bytes of a record keep its label only where it writes a row.
encode_payload-as_kept :
    (source : FieldId) (kind : WriteKind) (label : Option Label)
    → encode_payload source kind (row_label kind label) ≡ encode_payload source kind label
unfolding encode_payload encode_kind
encode_payload-as_kept source (WriteKind.set_one s p o vf vt) label = refl
encode_payload-as_kept source (WriteKind.close_one s p vf) label = refl
encode_payload-as_kept source (WriteKind.add_many s p o vf vt) label = refl
encode_payload-as_kept source (WriteKind.close_many s p o vf) label = refl
encode_payload-as_kept source (WriteKind.remove_many s p observed) label = refl
encode_payload-as_kept source (WriteKind.hard_delete s p c) label = refl
encode_payload-as_kept source (WriteKind.set_edge_prop s p o k v) label = refl
encode_payload-as_kept source (WriteKind.set_node_type n t) label = refl
encode_payload-as_kept source (WriteKind.set_node_label n l) label = refl

pub framed-as_kept : (recs : List Record) → framed (map as_kept recs) ≡ framed recs
unfolding framed frame_record
framed-as_kept [] = refl
framed-as_kept ((source, kind, label) ∷ recs) =
    rw (encode_payload-as_kept source kind label, framed-as_kept recs) refl

pub FitsRecord-as_kept :
    (recs : List Record) → All FitsRecord recs → All FitsRecord (map as_kept recs)
FitsRecord-as_kept [] h = _
FitsRecord-as_kept ((source, kind, label) ∷ recs) (h, hs) =
    ((h.0, h.1, rw (encode_payload-as_kept source kind label) h.2), FitsRecord-as_kept recs hs)

-- The beginning of a list of bytes that ends before the list does.
cut_within :
    (xs begun more ys : Bytes)
    → begun ++ more ≡ xs ++ ys
    → length begun < length xs
    → (missing : Bytes) × (begun ++ missing ≡ xs) × (missing ≢ [])
cut_within [] begun more ys e h = absurd (omega arith)
cut_within (x ∷ xs) [] more ys e h = (x ∷ xs, refl, λ q. cc)
cut_within (x ∷ xs) (b ∷ begun) more ys e h =
    let (missing, whole, some_left) = cut_within xs begun more ys (cc) (omega arith) in
    (missing, cc, some_left)

frame_nonempty : frame (0 ∷ []) ≢ []
unfolding frame put_u32 to_le_bytes
frame_nonempty q = cc

pub nil-IsTorn : IsTorn []
nil-IsTorn = record {
  payload = 0 ∷ [];
  missing = frame (0 ∷ []);
  begins = refl;
  not_all = frame_nonempty;
  fits = (omega arith, omega arith);
}

-- The beginning of framed records is the frames of the first of them, with a torn one behind.
pub framed-prefix :
    (recs : List Record) (begun more : Bytes)
    → All FitsRecord recs
    → begun ++ more ≡ framed recs
    → (k : ℕ) × (tail : Bytes) × (k ≤ length recs)
      × IsTorn tail
      × (begun ≡ framed (take k recs) ++ tail)
unfolding framed frame_record
framed-prefix [] [] more fits e = (0, [], omega arith, nil-IsTorn, refl)
framed-prefix [] (b ∷ begun) more fits e = absurd (cc)
framed-prefix ((source, kind, label) ∷ recs) begun more (fit, fits) e =
    let p = encode_payload source kind label in
    elim (prefix-cases (frame p) begun more (framed recs) e) [
      | inl short ↦
          let (missing, whole, some_left) = cut_within (frame p) begun more (framed recs) e short in
          (
            0,
            begun,
            omega arith,
            record {
              payload = p;
              missing = missing;
              begins = whole;
              not_all = some_left;
              fits = FitsRecord-FitsFrame source kind label fit;
            },
            refl,
          )
      | inr (rest, front, back) ↦
          let (k, tail, le, torn, split) = framed-prefix recs rest more fits back in
          (
            suc k,
            tail,
            omega arith,
            torn,
            front
                ∙ ap (λ l. frame p ++ l) split
                ∙ sym (append_assoc (frame p) (framed (take k recs)) tail),
          )
    ]

pub take-plus :
    (m n : ℕ) (xs : List Record) → m ≤ length xs → take (m + n) xs ≡ take m xs ++ take n (drop m xs)
take-plus zero n xs h = ap (λ i. take i xs) zero_plus
  where
    zero_plus : 0 + n ≡ n
    zero_plus = omega arith
take-plus (suc m) n [] h = absurd (omega arith)
take-plus (suc m) n (x ∷ xs) h =
    ap (λ i. take i (x ∷ xs)) suc_plus ∙ ap (λ l. x ∷ l) (take-plus m n xs (omega arith))
  where
    suc_plus : suc m + n ≡ suc (m + n)
    suc_plus = omega arith

pub length-drop : (n : ℕ) (xs : List Record) → length (drop n xs) ≡ length xs - n
length-drop zero xs = omega arith
length-drop (suc n) [] = omega arith
length-drop (suc n) (x ∷ xs) = omega (arith, length-drop n xs)
