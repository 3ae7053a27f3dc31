-- ===== src/Query/Timeline.antt =====
-- crates/stroma-core/src/query.rs: the valid-time timeline of a key with one value at a time.
use stromadb.Base.{Bool, false, ◌&&◌, Option, none, some, List, [], ◌∷◌}
use stromadb.Base.Int.{ℤ}
use stromadb.Base.Tests.{if◌then◌else◌}
use stromadb.Base.Map.{BTreeSet, keys, set_insert}
use stromadb.Base.Order.{is_eq, nat_ord, int_ord}
use stromadb.Fact.{FieldId, NodeId}
use stromadb.Fold.Keys.{ObjKey, obj_ord}
use stromadb.Fold.Observe.{VersionRow}
use stromadb.Mask.{Facts}
use stromadb.Query.{point_one_asof}

-- `valid_to` is `none` for a value that is still in effect.
pub record Segment : Type 0 where
  pub value : ObjKey
  pub valid_from : ℤ
  pub valid_to : Option ℤ

abbrev pub insert_end : Option ℤ → BTreeSet ℤ → BTreeSet ℤ
insert_end none s = s
insert_end (some to) s = set_insert to s

-- The instants at which a row begins or ends to cover, from those that are known.
abbrev pub boundaries : List VersionRow → BTreeSet ℤ → BTreeSet ℤ
boundaries [] s = s
boundaries ((ok, object, from, to) ∷ rows) s = boundaries rows (insert_end to (set_insert from s))

-- `bounds.get(i + 1).copied()`
abbrev pub next_boundary : List ℤ → Option ℤ
next_boundary [] = none
next_boundary (b ∷ bs) = some b

abbrev pub ends_at : Option ℤ → ℤ → Bool
ends_at none from = false
ends_at (some to) from = is_eq to from

-- One segment if the same value continues across the boundary, otherwise two.
unfoldable pub push_segment : ObjKey → ℤ → Option ℤ → List Segment → List Segment
push_segment value from to [] = record { value = value; valid_from = from; valid_to = to } ∷ []
push_segment value from to (s ∷ []) =
    if ends_at s.valid_to from && is_eq s.value value
    then record s { valid_to = to } ∷ []
    else s ∷ record { value = value; valid_from = from; valid_to = to } ∷ []
push_segment value from to (s ∷ t ∷ out) = s ∷ push_segment value from to (t ∷ out)

unfoldable pub stitch : (ℤ → Option ObjKey) → List ℤ → List Segment → List Segment
unfolding push_segment
stitch asof [] out = out
stitch asof (from ∷ bs) out = elim (asof from) [
  | none ↦ stitch asof bs out
  | some value ↦ stitch asof bs (push_segment value from (next_boundary bs) out)
]

unfoldable pub point_one_timeline : Facts → NodeId → FieldId → List Segment
unfolding point_one_asof stitch
point_one_timeline snap subject predicate = elim (snap.one_rows (subject, predicate)) [
  | none ↦ []
  | some rows ↦ stitch (point_one_asof snap subject predicate) (keys (boundaries rows [])) []
]
