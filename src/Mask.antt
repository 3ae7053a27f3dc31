-- ===== src/Mask.antt =====
-- crates/stroma-core/src/mask.rs: access labels at read time. A `Cow` is its value, a visitor is the
-- list of what it visits, and a range of keys is the test of the range.
pub mod View
pub mod Seen
pub mod Reads
pub mod Labels
pub mod Shown
pub mod Elements
pub mod Without
pub mod Idle
pub mod Permitted
pub mod Hidden
use stromadb.Base.{
  ℕ, ◌/◌, ◌%◌, ◌^◌, Bool, true, false, not, ◌&&◌, ◌||◌, Option, none, some, List, [], ◌∷◌,
}
use stromadb.Base.Int.{ℤ}
use stromadb.Base.Tests.{◌==◌, leb, if◌then◌else◌, ◌>>=◌, is_some, map_option}
use stromadb.Base.Lists.{is_empty, last, any, filter}
use stromadb.Base.Map.{BTreeMap, BTreeSet, get, insert, retain, keys, values, contains_key}
use stromadb.Base.Order.{is_eq, is_lt, nat_ord, list_ord, pair_ord}
use stromadb.Fact.{FieldId, NodeId, Str}
use stromadb.Catalog.{Catalog, PredicateDef}
use stromadb.Fold.Keys.{ObjKey, OrderKey, obj_ord, order_ord}
use stromadb.Fold.State.{Key, Label}
use stromadb.Fold.Observe.{Snapshot, VersionRow}

abbrev pub max_label : Label
max_label = 31

-- `label <= max_label && (allowed >> label) & 1 == 1`
unfoldable pub label_allowed : ℕ → Label → Bool
label_allowed allowed label = leb label max_label && (allowed / 2 ^ label % 2 == 1)

-- `floor.max(label)`: nothing is below every label.
unfoldable pub effective_label : Option Label → Option Label → Option Label
effective_label none label = label
effective_label (some f) none = some f
effective_label (some f) (some l) = some (if leb f l then l else f)

pub record FactMask : Type 0 where
  pub allowed : ℕ
  pub floors : BTreeMap FieldId Label

-- The floors that the predicates declare.
abbrev pub declared_floors : List PredicateDef → BTreeMap FieldId Label
declared_floors [] = []
declared_floors (d ∷ ds) = elim d.label_floor [
  | none ↦ declared_floors ds
  | some f ↦ insert d.id f (declared_floors ds)
]

-- `FactMask::new`
unfoldable pub new_mask : Catalog → ℕ → FactMask
new_mask cat allowed = record {
  allowed = allowed;
  floors = declared_floors (values cat.predicates);
}

abbrev pub floor : FactMask → FieldId → Option Label
floor mask p = get p mask.floors

unfoldable pub predicate_hidden : FactMask → FieldId → Bool
predicate_hidden mask p = elim (floor mask p) [
  | none ↦ false
  | some f ↦ not (label_allowed mask.allowed f)
]

-- The closure `ok`: no label, or one that is allowed.
abbrev pub label_visible : ℕ → Option Label → Bool
label_visible allowed none = true
label_visible allowed (some l) = label_allowed allowed l

unfoldable pub row_visible : FactMask → FieldId → Option Label → Bool
row_visible mask p label =
    label_visible mask.allowed (floor mask p) && label_visible mask.allowed label

unfoldable pub hides_any : FactMask → Snapshot → Bool
hides_any mask snap =
    any (λ l. not (label_allowed mask.allowed l)) (keys snap.fact_label_counts)
    || any (λ f. not (label_allowed mask.allowed f)) (values mask.floors)

unfoldable pub key_affected : FactMask → Snapshot → Key → Bool
unfolding predicate_hidden row_visible
key_affected mask snap k = predicate_hidden mask k.1 || (elim (get k snap.fact_labels) [
  | none ↦ false
  | some rows ↦ any (λ l. not (row_visible mask k.1 (some l))) (values rows)
])

-- `trait Facts`
pub record Facts : Type 0 where
  pub underlying : Snapshot
  pub one_rows : Key → Option (List VersionRow)
  pub one_value : Key → Option (Option ObjKey)
  pub many_set : Key → Option (BTreeSet ObjKey)
  pub many_rows : Key → Option (BTreeMap ObjKey (List VersionRow))
  pub edge_props_of : Key → ObjKey → Option (BTreeMap Str ObjKey)
  pub for_each_one : (Key → Bool) → List (Key × Option ObjKey)
  pub for_each_many : (Key → Bool) → List (Key × BTreeSet ObjKey)
  pub for_each_one_key : List Key
  pub for_each_many_key : List Key

-- `impl Facts for Snapshot`
unfoldable pub snapshot_facts : Snapshot → Facts
snapshot_facts snap = record {
  underlying = snap;
  one_rows = λ k. get k snap.one_history;
  one_value = λ k. get k snap.one;
  many_set = λ k. get k snap.many;
  many_rows = λ k. get k snap.many_history;
  edge_props_of = λ k object. get k snap.edge_props >>= get object;
  for_each_one = λ range. retain range snap.one;
  for_each_many = λ range. retain range snap.many;
  for_each_one_key = keys snap.one_history;
  for_each_many_key = keys snap.many_history;
}

pub record Masked : Type 0 where
  pub snap : Snapshot
  pub mask : FactMask
  pub active : Bool

-- `Masked::new`
unfoldable pub new_masked : Snapshot → Catalog → ℕ → Masked
unfolding new_mask hides_any
new_masked snap cat allowed =
    let mask = new_mask cat allowed in
    record { snap = snap; mask = mask; active = hides_any mask snap }

unfoldable pub affected : Masked → Key → Bool
unfolding key_affected
affected v k = v.active && key_affected v.mask v.snap k

-- The label of a row of a key in the snapshot.
abbrev pub stored_label : Snapshot → Key → VersionRow → Option Label
stored_label snap k row = get k snap.fact_labels >>= get row.0

unfoldable pub visible : Masked → Key → List VersionRow → List VersionRow
visible v k rows = filter (λ row. row_visible v.mask k.1 (stored_label v.snap k row)) rows

-- `(!l.is_empty()).then_some(l)`
abbrev pub non_empty {ℓ} : {A : Type ℓ} → List A → Option (List A)
non_empty l = if is_empty l then none else some l
