-- ===== src/Fold/Parts.antt =====
-- crates/stroma-core/src/fold.rs, `Fold::apply_labeled` as four steps, one for each store.
use stromadb.Base.{◌≡◌, arith, Option, none, some, []}
use stromadb.Base.Tests.{map_option, unwrap_or}
use stromadb.Base.Map.{BTreeMap, update}
use stromadb.Base.Order.{newer, nat_ord, list_ord, pair_ord}
use stromadb.Fact.{FieldId, NodeId, Str}
use stromadb.Catalog.{Cardinality}
use stromadb.Fold.Keys.{ObjKey, OrderKey, obj_ord, order_ord}
use stromadb.Fold.State.{
  Key, Label, Op, KeyState, PropReg, NodeAttrState, no_attrs, EdgeProps, Fold,
}
use stromadb.Fold.Apply.{on_key, newer_attr, apply_labeled, label_row}
use stromadb.Fold.Change.{Change, change}

-- An operation and the label of the row that it writes.
abbrev pub Write : Type 0
Write = Op × Option Label

-- The key that an operation changes, and the cardinality that it takes the key to have.
abbrev pub declares : Op → Option (Key × Cardinality)
declares (Op.set_one s p _ _ _ _) = some ((s, p), Cardinality.one)
declares (Op.close_one s p _ _) = some ((s, p), Cardinality.one)
declares (Op.add_many s p _ _ _ _) = some ((s, p), Cardinality.many)
declares (Op.close_many s p _ _ _) = some ((s, p), Cardinality.many)
declares (Op.remove_many s p _) = some ((s, p), Cardinality.many)
declares (Op.hard_delete s p _ c) = some ((s, p), c)
declares _ = none

-- The order key that an operation carries; a removal carries none.
abbrev pub order_key : Op → Option OrderKey
order_key (Op.set_one _ _ _ _ _ ok) = some ok
order_key (Op.close_one _ _ _ ok) = some ok
order_key (Op.add_many _ _ _ _ _ ok) = some ok
order_key (Op.close_many _ _ _ _ ok) = some ok
order_key (Op.remove_many _ _ _) = none
order_key (Op.hard_delete _ _ ok _) = some ok
order_key (Op.set_edge_prop _ _ _ _ _ ok) = some ok
order_key (Op.set_node_type _ _ ok) = some ok
order_key (Op.set_node_label _ _ ok) = some ok

abbrev pub change_of : Op → Option (Key × Cardinality × Change)
change_of (Op.set_one s p object valid_from valid_to ok) = some (
  (s, p),
  Cardinality.one,
  Change.row ok (record { object = some object; valid_from = valid_from; valid_to = valid_to }),
)
change_of (Op.close_one s p valid_from ok) = some (
  (s, p),
  Cardinality.one,
  Change.row ok (record { object = none; valid_from = valid_from; valid_to = none }),
)
change_of (Op.add_many s p object valid_from valid_to ok) = some (
  (s, p),
  Cardinality.many,
  Change.element object ok
      (record { object = some object; valid_from = valid_from; valid_to = valid_to }),
)
change_of (Op.close_many s p object valid_from ok) = some (
  (s, p),
  Cardinality.many,
  Change.element object ok (record { object = none; valid_from = valid_from; valid_to = none }),
)
change_of (Op.remove_many s p observed) = some ((s, p), Cardinality.many, Change.drop observed)
change_of (Op.hard_delete s p ok c) = some ((s, p), c, Change.floor ok)
change_of _ = none

abbrev pub keys_step :
    Option (Key × Cardinality × Change) → BTreeMap Key KeyState → Option (BTreeMap Key KeyState)
keys_step none m = some m
keys_step (some (k, c, x)) m = on_key k c (change x) m

abbrev pub prop_of : Op → Option (Key × ObjKey × Str × PropReg)
prop_of (Op.set_edge_prop s p object key value ok) =
    some ((s, p), object, key, record { value = value; ok = ok })
prop_of _ = none

abbrev pub set_reg : PropReg → Option PropReg → PropReg
set_reg = newer (λ r. r.ok)

abbrev pub set_prop : Str → PropReg → Option (BTreeMap Str PropReg) → BTreeMap Str PropReg
set_prop key r props = update key (set_reg r) (unwrap_or props [])

abbrev pub set_edge : ObjKey → Str → PropReg → Option EdgeProps → EdgeProps
set_edge object key r objs = update object (set_prop key r) (unwrap_or objs [])

abbrev pub prop_step :
    Option (Key × ObjKey × Str × PropReg) → BTreeMap Key EdgeProps → BTreeMap Key EdgeProps
prop_step none m = m
prop_step (some (k, object, key, r)) m = update k (set_edge object key r) m

pub data AttrChange : Type 0 where
  ty : OrderKey → FieldId → AttrChange
  label : OrderKey → Label → AttrChange

abbrev pub attr_key : AttrChange → OrderKey
attr_key (AttrChange.ty ok t) = ok
attr_key (AttrChange.label ok l) = ok

abbrev pub attr_of : Op → Option (NodeId × AttrChange)
attr_of (Op.set_node_type n t ok) = some (n, AttrChange.ty ok t)
attr_of (Op.set_node_label n l ok) = some (n, AttrChange.label ok l)
attr_of _ = none

abbrev pub attr_change : AttrChange → NodeAttrState → NodeAttrState
attr_change (AttrChange.ty ok t) st = record st { ty = newer_attr ok t st.ty }
attr_change (AttrChange.label ok l) st = record st { label = newer_attr ok l st.label }

abbrev pub set_attr : AttrChange → Option NodeAttrState → NodeAttrState
set_attr x st = attr_change x (unwrap_or st no_attrs)

abbrev pub attr_step :
    Option (NodeId × AttrChange) → BTreeMap NodeId NodeAttrState → BTreeMap NodeId NodeAttrState
attr_step none m = m
attr_step (some (n, x)) m = update n (set_attr x) m

abbrev pub label_of : Write → Option (Key × OrderKey × Label)
label_of (Op.set_one s p _ _ _ ok, some l) = some ((s, p), ok, l)
label_of (Op.close_one s p _ ok, some l) = some ((s, p), ok, l)
label_of (Op.add_many s p _ _ _ ok, some l) = some ((s, p), ok, l)
label_of (Op.close_many s p _ _ ok, some l) = some ((s, p), ok, l)
label_of _ = none

abbrev pub LabelStore : Type 0
LabelStore = BTreeMap Key (BTreeMap OrderKey Label)

abbrev pub label_step : Option (Key × OrderKey × Label) → LabelStore → LabelStore
label_step none m = m
label_step (some (k, ok, l)) m = label_row k ok l m

-- The fold with its four stores stepped.
abbrev pub stepped : Write → Fold → BTreeMap Key KeyState → Fold
stepped w f ks = record {
  keys = ks;
  edge_props = prop_step (prop_of w.0) f.edge_props;
  node_attrs = attr_step (attr_of w.0) f.node_attrs;
  fact_labels = label_step (label_of w) f.fact_labels;
}

-- Only the graph keys can panic; the other three stores are stepped apart.
pub apply_labeled_parts :
    (w : Write) (f : Fold)
    → apply_labeled w.0 w.1 f ≡ map_option (stepped w f) (keys_step (change_of w.0) f.keys)
unfolding apply_labeled
apply_labeled_parts (Op.set_one s p o vf vt ok, none) f = ground arith
apply_labeled_parts (Op.set_one s p o vf vt ok, some l) f = ground arith
apply_labeled_parts (_, none) f = ground arith
apply_labeled_parts (_, some l) f = ground arith
