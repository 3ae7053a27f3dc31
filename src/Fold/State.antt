-- ===== src/Fold/State.antt =====
-- crates/stroma-core/src/fold.rs: the operations of the stream and the folded state.
use stromadb.Base.{ℕ, Option, none, List, []}
use stromadb.Base.Int.{ℤ}
use stromadb.Base.Map.{BTreeMap, BTreeSet}
use stromadb.Base.Order.{nat_ord, list_ord, pair_ord}
use stromadb.Fact.{FieldId, NodeId, Str}
use stromadb.Catalog.{Cardinality}
use stromadb.Fold.Keys.{ObjKey, OrderKey}

-- `(subject, predicate)`
abbrev pub Key : Type 0
Key = NodeId × FieldId

-- A `u8` access label.
abbrev pub Label : Type 0
Label = ℕ

pub data Op : Type 0 where
  set_one :
      (subject : NodeId) (predicate : FieldId) (object : ObjKey) (valid_from : ℤ)
      (valid_to : Option ℤ) (ok : OrderKey)
      → Op
  close_one : (subject : NodeId) (predicate : FieldId) (valid_from : ℤ) (ok : OrderKey) → Op
  add_many :
      (subject : NodeId) (predicate : FieldId) (object : ObjKey) (valid_from : ℤ)
      (valid_to : Option ℤ) (ok : OrderKey)
      → Op
  close_many :
      (subject : NodeId) (predicate : FieldId) (object : ObjKey) (valid_from : ℤ) (ok : OrderKey)
      → Op
  remove_many : (subject : NodeId) (predicate : FieldId) (observed : List OrderKey) → Op
  hard_delete :
      (subject : NodeId) (predicate : FieldId) (ok : OrderKey) (cardinality : Cardinality) → Op
  set_edge_prop :
      (subject : NodeId) (predicate : FieldId) (object : ObjKey) (key : Str) (value : ObjKey)
      (ok : OrderKey)
      → Op
  set_node_type : (node : NodeId) (type_id : FieldId) (ok : OrderKey) → Op
  set_node_label : (node : NodeId) (label : Label) (ok : OrderKey) → Op

-- `object` is `none` for a row that closes an interval.
pub record Version : Type 0 where
  pub object : Option ObjKey
  pub valid_from : ℤ
  pub valid_to : Option ℤ

abbrev pub Rows : Type 0
Rows = BTreeMap OrderKey Version

pub record OneState : Type 0 where
  pub versions : Rows
  pub hd : Option OrderKey

pub record ManyState : Type 0 where
  pub elems : BTreeMap ObjKey Rows
  pub removes : BTreeSet OrderKey
  pub hd : Option OrderKey

pub data KeyState : Type 0 where
  one : OneState → KeyState
  many : ManyState → KeyState

-- `KeyState::new`
abbrev pub new_state : Cardinality → KeyState
new_state Cardinality.one = KeyState.one (record { versions = []; hd = none })
new_state Cardinality.many = KeyState.many (record { elems = []; removes = []; hd = none })

pub record PropReg : Type 0 where
  pub value : ObjKey
  pub ok : OrderKey

pub record NodeAttrState : Type 0 where
  pub ty : Option (OrderKey × FieldId)
  pub label : Option (OrderKey × Label)

-- `NodeAttrState::default`
abbrev pub no_attrs : NodeAttrState
no_attrs = record { ty = none; label = none }

-- The properties of the edges of one key: by object, then by property name.
abbrev pub EdgeProps : Type 0
EdgeProps = BTreeMap ObjKey (BTreeMap Str PropReg)

pub record Fold : Type 0 where
  pub keys : BTreeMap Key KeyState
  pub edge_props : BTreeMap Key EdgeProps
  pub node_attrs : BTreeMap NodeId NodeAttrState
  pub fact_labels : BTreeMap Key (BTreeMap OrderKey Label)

-- `Fold::default`
abbrev pub empty_fold : Fold
empty_fold = record { keys = []; edge_props = []; node_attrs = []; fact_labels = [] }
