-- ===== src/WriteKind.antt =====
-- crates/stroma-core/src/changelog.rs, `WriteKind`: a write before the log gives it an order key.
use stromadb.Base.{Option, none, List}
use stromadb.Base.Int.{ℤ}
use stromadb.Fact.{NodeId, FieldId, Str}
use stromadb.Catalog.{Cardinality}
use stromadb.Fold.Keys.{ObjKey, OrderKey}
use stromadb.Fold.State.{Label}

pub data WriteKind : Type 0 where
  set_one :
      (subject : NodeId) (predicate : FieldId) (object : ObjKey) (valid_from : ℤ)
      (valid_to : Option ℤ)
      → WriteKind
  close_one : (subject : NodeId) (predicate : FieldId) (valid_from : ℤ) → WriteKind
  add_many :
      (subject : NodeId) (predicate : FieldId) (object : ObjKey) (valid_from : ℤ)
      (valid_to : Option ℤ)
      → WriteKind
  close_many :
      (subject : NodeId) (predicate : FieldId) (object : ObjKey) (valid_from : ℤ) → WriteKind
  remove_many : (subject : NodeId) (predicate : FieldId) (observed : List OrderKey) → WriteKind
  hard_delete : (subject : NodeId) (predicate : FieldId) (cardinality : Cardinality) → WriteKind
  set_edge_prop :
      (subject : NodeId) (predicate : FieldId) (object : ObjKey) (key : Str) (value : ObjKey)
      → WriteKind
  set_node_type : (node : NodeId) (type_id : FieldId) → WriteKind
  set_node_label : (node : NodeId) (label : Label) → WriteKind

-- The label that a record keeps: only the kinds that write a row have one.
abbrev pub row_label : WriteKind → Option Label → Option Label
row_label (WriteKind.set_one _ _ _ _ _) label = label
row_label (WriteKind.close_one _ _ _) label = label
row_label (WriteKind.add_many _ _ _ _ _) label = label
row_label (WriteKind.close_many _ _ _ _) label = label
row_label _ label = none
