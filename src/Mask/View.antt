-- ===== src/Mask/View.antt =====
-- crates/stroma-core/src/mask.rs, `impl Facts for Masked`: the reads through a label mask.
use stromadb.Base.{Bool, false, not, ◌||◌, Option, none, some, List, [], ◌∷◌}
use stromadb.Base.Tests.{if◌then◌else◌, ◌>>=◌, is_some, map_option}
use stromadb.Base.Lists.{is_empty, last, any, filter}
use stromadb.Base.Map.{BTreeMap, BTreeSet, get, keys, retain, contains_key}
use stromadb.Base.Order.{is_eq, nat_ord, list_ord, pair_ord}
use stromadb.Fact.{Str}
use stromadb.Fold.Keys.{ObjKey, obj_ord, order_ord}
use stromadb.Fold.State.{Key}
use stromadb.Fold.Observe.{VersionRow}
use stromadb.Mask.{Facts, Masked, affected, visible, non_empty}

unfoldable pub one_rows : Masked → Key → Option (List VersionRow)
unfolding affected visible
one_rows v k = do
  rows ← get k v.snap.one_history
  if affected v k then non_empty (visible v k rows) else some rows

abbrev pub last_object : List VersionRow → Option (Option ObjKey)
last_object rows = map_option (λ row. row.1) (last rows)

unfoldable pub one_value : Masked → Key → Option (Option ObjKey)
unfolding affected one_rows
one_value v k = if affected v k then (one_rows v k >>= last_object) else get k v.snap.one

-- The elements with a visible row, each with its visible rows.
abbrev pub visible_elements :
    Masked → Key → BTreeMap ObjKey (List VersionRow) → BTreeMap ObjKey (List VersionRow)
visible_elements v k [] = []
visible_elements v k ((o, rows) ∷ elems) =
    let rest = visible_elements v k elems in
    let shown = visible v k rows in if is_empty shown then rest else (o, shown) ∷ rest

unfoldable pub many_rows : Masked → Key → Option (BTreeMap ObjKey (List VersionRow))
unfolding affected visible
many_rows v k = do
  elems ← get k v.snap.many_history
  if affected v k then non_empty (visible_elements v k elems) else some elems

abbrev pub is_add : Option VersionRow → Bool
is_add none = false
is_add (some row) = is_some row.1

-- The elements whose last row is an add.
abbrev pub present : BTreeMap ObjKey (List VersionRow) → BTreeSet ObjKey
present [] = []
present ((o, rows) ∷ elems) =
    let rest = present elems in if is_add (last rows) then (o, tt) ∷ rest else rest

unfoldable pub many_set : Masked → Key → Option (BTreeSet ObjKey)
unfolding affected many_rows
many_set v k =
    if affected v k
    then (many_rows v k >>= λ elems. non_empty (present elems))
    else get k v.snap.many

abbrev pub is_object : ObjKey → VersionRow → Bool
is_object object row = elim row.1 [ none ↦ false | some o ↦ is_eq o object ]

abbrev pub in_one : ObjKey → Option (List VersionRow) → Bool
in_one object none = false
in_one object (some rows) = any (is_object object) rows

abbrev pub in_many : ObjKey → Option (BTreeMap ObjKey (List VersionRow)) → Bool
in_many object none = false
in_many object (some elems) = contains_key object elems

unfoldable pub edge_props_of : Masked → Key → ObjKey → Option (BTreeMap Str ObjKey)
unfolding affected one_rows many_rows
edge_props_of v k object = do
  of_key ← get k v.snap.edge_props
  props ← get object of_key
  (if affected v k
      then (if in_one object (one_rows v k) || in_many object (many_rows v k)
          then some props
          else none)
      else some props)

-- The keys that the mask does not touch as the snapshot has them, the others as read.
abbrev pub each_one : Masked → BTreeMap Key (Option ObjKey) → List (Key × Option ObjKey)
each_one v [] = []
each_one v ((k, value) ∷ m) =
    let rest = each_one v m in
    if affected v k
    then (elim (one_value v k) [ none ↦ rest | some read ↦ (k, read) ∷ rest ])
    else (k, value) ∷ rest

unfoldable pub for_each_one : Masked → (Key → Bool) → List (Key × Option ObjKey)
unfolding one_value affected
for_each_one v range = each_one v (retain range v.snap.one)

abbrev pub each_many : Masked → List Key → List (Key × BTreeSet ObjKey)
each_many v [] = []
each_many v (k ∷ ks) =
    let rest = each_many v ks in
    elim (if affected v k then many_set v k else get k v.snap.many) [
      | none ↦ rest
      | some read ↦ (k, read) ∷ rest
    ]

unfoldable pub for_each_many : Masked → (Key → Bool) → List (Key × BTreeSet ObjKey)
unfolding many_set affected
for_each_many v range =
    if not v.active
    then retain range v.snap.many
    else each_many v (keys (retain range v.snap.many_history))

unfoldable pub for_each_one_key : Masked → List Key
unfolding one_rows affected
for_each_one_key v =
    filter (λ k. not (affected v k) || is_some (one_rows v k)) (keys v.snap.one_history)

unfoldable pub for_each_many_key : Masked → List Key
unfolding many_rows affected
for_each_many_key v =
    filter (λ k. not (affected v k) || is_some (many_rows v k)) (keys v.snap.many_history)

-- `impl Facts for Masked`
unfoldable pub masked_facts : Masked → Facts
masked_facts v = record {
  underlying = v.snap;
  one_rows = one_rows v;
  one_value = one_value v;
  many_set = many_set v;
  many_rows = many_rows v;
  edge_props_of = edge_props_of v;
  for_each_one = for_each_one v;
  for_each_many = for_each_many v;
  for_each_one_key = for_each_one_key v;
  for_each_many_key = for_each_many_key v;
}
