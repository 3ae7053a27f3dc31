-- ===== src/Query.antt =====
-- crates/stroma-core/src/query.rs: the reads of the graph; the point reads are here. Each reads through
-- `Facts`, so that it answers for a snapshot and for a masked view alike.
pub mod Expand
pub mod Lookup
pub mod Lawful
pub mod Closure
pub mod Pointers
pub mod Backward
pub mod Effective
pub mod Timeline
pub mod Instants
pub mod Settled
pub mod Agreement
pub mod Derived
pub mod Adjacency
pub mod Confidence
use stromadb.Base.{ℕ, Bool, true, false, not, ◌&&◌, ◌||◌, Option, none, some, List, [], ◌∷◌}
use stromadb.Base.Int.{ℤ, lebℤ, ltbℤ}
use stromadb.Base.Tests.{◌==◌, leb, if◌then◌else◌, ◌>>=◌, is_some, map_option, unwrap_or}
use stromadb.Base.Lists.{length, last, filter}
use stromadb.Base.Map.{BTreeMap, BTreeSet, get, set_insert}
use stromadb.Base.Order.{Ord, is_eq, is_lt, nat_ord, int_ord, list_ord, pair_ord}
use stromadb.Fact.{FieldId, NodeId, Str}
use stromadb.Fold.Keys.{ObjKey, OrderKey, obj_ord, order_ord}
use stromadb.Fold.Observe.{VersionRow}
use stromadb.Mask.{Facts}

unfoldable pub point_one : Facts → NodeId → FieldId → Option ObjKey
point_one snap subject predicate = do v ← snap.one_value (subject, predicate); v

-- `valid_from <= at && valid_to.is_none_or(|to| at < to)`
abbrev pub is_open_at : ℤ → Option ℤ → Bool
is_open_at at none = true
is_open_at at (some to) = ltbℤ at to

abbrev pub covers : ℤ → VersionRow → Bool
covers at (ok, object, valid_from, valid_to) = lebℤ valid_from at && is_open_at at valid_to

-- What `max_by` compares: the start of the interval, then the order key.
abbrev pub rank : VersionRow → ℤ × OrderKey
rank (ok, object, valid_from, valid_to) = (valid_from, ok)

-- `max_by`: a later row replaces the one kept unless it is lower.
abbrev pub latest_from : VersionRow → List VersionRow → VersionRow
latest_from kept [] = kept
latest_from kept (row ∷ rows) =
    latest_from (if is_lt (rank row) (rank kept) then kept else row) rows

abbrev pub latest : List VersionRow → Option VersionRow
latest [] = none
latest (row ∷ rows) = some (latest_from row rows)

-- The row in effect at an instant.
unfoldable pub effective : ℤ → List VersionRow → Option VersionRow
effective at rows = latest (filter (covers at) rows)

unfoldable pub point_one_asof : Facts → NodeId → FieldId → ℤ → Option ObjKey
unfolding effective
point_one_asof snap subject predicate at = do
  rows ← snap.one_rows (subject, predicate)
  row ← effective at rows
  row.1

unfoldable pub point_one_head : Facts → NodeId → FieldId → Option VersionRow
point_one_head snap subject predicate = do rows ← snap.one_rows (subject, predicate); last rows

unfoldable pub point_one_source : Facts → NodeId → FieldId → Option FieldId
unfolding point_one_head
point_one_source snap subject predicate =
    map_option (λ (row : VersionRow). (row.0).source) (point_one_head snap subject predicate)

unfoldable pub point_one_valid_from : Facts → NodeId → FieldId → Option ℤ
unfolding point_one_head
point_one_valid_from snap subject predicate =
    map_option (λ (row : VersionRow). row.2) (point_one_head snap subject predicate)

-- `obj.is_none().then_some(vf)`
abbrev pub close_start : VersionRow → Option ℤ
close_start (ok, none, valid_from, valid_to) = some valid_from
close_start (ok, some object, valid_from, valid_to) = none

unfoldable pub point_one_closed_from : Facts → NodeId → FieldId → Option ℤ
unfolding point_one_head
point_one_closed_from snap subject predicate = do
  row ← point_one_head snap subject predicate
  close_start row

unfoldable pub edge_props : Facts → NodeId → FieldId → ObjKey → Option (BTreeMap Str ObjKey)
edge_props snap subject predicate object = snap.edge_props_of (subject, predicate) object

unfoldable pub edge_prop : Facts → NodeId → FieldId → ObjKey → Str → Option ObjKey
unfolding edge_props
edge_prop snap subject predicate object key = do
  props ← edge_props snap subject predicate object
  get key props

unfoldable pub point_many : Facts → NodeId → FieldId → BTreeSet ObjKey
point_many snap subject predicate = unwrap_or (snap.many_set (subject, predicate)) []

abbrev pub is_add_row : Option VersionRow → Bool
is_add_row none = false
is_add_row (some row) = is_some row.1

unfoldable pub elem_in_effect_at : List VersionRow → ℤ → Bool
unfolding effective
elem_in_effect_at rows at = is_add_row (effective at rows)

abbrev pub in_effect : ℤ → BTreeMap ObjKey (List VersionRow) → BTreeSet ObjKey
in_effect at [] = []
in_effect at ((object, rows) ∷ elems) =
    let rest = in_effect at elems in if elem_in_effect_at rows at then (object, tt) ∷ rest else rest

unfoldable pub point_many_asof : Facts → NodeId → FieldId → ℤ → BTreeSet ObjKey
unfolding elem_in_effect_at
point_many_asof snap subject predicate at =
    unwrap_or (map_option (in_effect at) (snap.many_rows (subject, predicate))) []

unfoldable pub many_head : Facts → NodeId → FieldId → ObjKey → Option VersionRow
many_head snap subject predicate object = do
  elems ← snap.many_rows (subject, predicate)
  rows ← get object elems
  last rows

unfoldable pub many_closed_from : Facts → NodeId → FieldId → ObjKey → Option ℤ
unfolding many_head
many_closed_from snap subject predicate object = do
  row ← many_head snap subject predicate object
  close_start row
