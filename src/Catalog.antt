-- ===== src/Catalog.antt =====
-- crates/stroma-core/src/catalog.rs: the schema vocabulary and its operations.
-- A hash map or set is the ordered collection of `Base.Map`: the code never reads its order.
pub mod Interner
pub mod Interning
pub mod Validation
use stromadb.Base.{
  ℕ, zero, suc, ◌+◌, ◌%◌, ◌^◌, Bool, true, false, not, Option, none, some, List, [], ◌∷◌, ◌++◌,
}
use stromadb.Base.Tests.{◌==◌, if◌then◌else◌, ◌>>=◌, map_option}
use stromadb.Base.Lists.{length, get_elem?}
use stromadb.Base.Map.{BTreeMap, BTreeSet, get, insert, keys, values, set_insert, extend}
use stromadb.Base.Order.{nat_ord, list_ord}
use Interner.{empty_interner}
use stromadb.Fact.{FieldId, NodeId, Str, Value, Object, Fact}

pub data Cardinality : Type 0 where
  one many : Cardinality

pub record RelProps : Type 0 where
  pub symmetric : Bool
  pub transitive : Bool
  pub inverse : Option FieldId

pub data ValueType : Type 0 where
  int float text boolean : ValueType

pub data Range : Type 0 where
  entity : FieldId → Range
  value : ValueType → Range

pub record PredicateDef : Type 0 where
  pub id : FieldId
  pub cardinality : Cardinality
  pub props : RelProps
  pub domain : FieldId
  pub range : Range
  pub display : Bool
  pub label : Option Str
  pub label_floor : Option ℕ

pub data ConstraintError : Type 0 where
  unknown_predicate : FieldId → ConstraintError
  domain_mismatch : (expected got : FieldId) → ConstraintError
  range_type_mismatch : (expected got : FieldId) → ConstraintError
  range_value_mismatch : (expected got : ValueType) → ConstraintError
  expected_node_object expected_value_object : ConstraintError

unfoldable pub value_type : Value → ValueType
value_type (Value.int _) = ValueType.int
value_type (Value.float _) = ValueType.float
value_type (Value.text _) = ValueType.text
value_type (Value.boolean _) = ValueType.boolean

unfoldable pub same_value_type : ValueType → ValueType → Bool
same_value_type ValueType.int ValueType.int = true
same_value_type ValueType.float ValueType.float = true
same_value_type ValueType.text ValueType.text = true
same_value_type ValueType.boolean ValueType.boolean = true
same_value_type _ _ = false

pub record Catalog : Type 0 where
  pub interner : Interner.Interner
  pub types : BTreeSet FieldId
  pub predicates : BTreeMap FieldId PredicateDef
  pub node_types : BTreeMap NodeId FieldId
  pub node_labels : BTreeMap NodeId ℕ

-- `Catalog::new`
abbrev pub empty_catalog : Catalog
empty_catalog = record {
  interner = empty_interner;
  types = [];
  predicates = [];
  node_types = [];
  node_labels = [];
}

unfoldable pub register_type : Catalog → Str → Catalog × FieldId
unfolding Interner.intern
register_type c name =
    let (t, id) = Interner.intern c.interner name in
    (record c { interner = t; types = set_insert id c.types }, id)

unfoldable pub register_predicate :
    Catalog → Str → Cardinality → RelProps → FieldId → Range → Catalog × FieldId
unfolding Interner.intern
register_predicate c name cardinality props domain range =
    let (t, id) = Interner.intern c.interner name in
    let def : PredicateDef = record {
      id = id;
      cardinality = cardinality;
      props = props;
      domain = domain;
      range = range;
      display = false;
      label = none;
      label_floor = none;
    } in
    (record c { interner = t; predicates = insert id def c.predicates }, id)

-- `if let Some(def) = self.predicates.get_mut(&pred) { … }`
abbrev pub with_predicate : FieldId → (PredicateDef → PredicateDef) → Catalog → Catalog
with_predicate id f c = elim (get id c.predicates) [
  | none ↦ c
  | some def ↦ record c { predicates = insert id (f def) c.predicates }
]

unfoldable pub set_display : FieldId → Bool → Catalog → Catalog
set_display id shown = with_predicate id (λ d. record d { display = shown })

unfoldable pub set_label : FieldId → Option Str → Catalog → Catalog
set_label id shown = with_predicate id (λ d. record d { label = shown })

unfoldable pub set_label_floor : FieldId → Option ℕ → Catalog → Catalog
set_label_floor id floor = with_predicate id (λ d. record d { label_floor = floor })

unfoldable pub set_node_type : NodeId → FieldId → Catalog → Catalog
set_node_type n ty c = record c { node_types = insert n ty c.node_types }

unfoldable pub node_type : Catalog → NodeId → Option FieldId
node_type c n = get n c.node_types

-- The declared nodes, ascending and without repetition.
unfoldable pub node_ids : Catalog → List NodeId
node_ids c = keys (extend (keys c.node_labels) (extend (keys c.node_types) []))

unfoldable pub types_len : Catalog → ℕ
types_len c = length c.types

unfoldable pub labels_in_use : Catalog → List ℕ
labels_in_use c = keys (extend (values c.node_labels) [])

unfoldable pub set_node_label : NodeId → ℕ → Catalog → Catalog
set_node_label n label c = record c { node_labels = insert n label c.node_labels }

unfoldable pub node_label : Catalog → NodeId → Option ℕ
node_label c n = get n c.node_labels

unfoldable pub field_id : Catalog → Str → Option FieldId
unfolding Interner.find
field_id c name = Interner.find c.interner name

unfoldable pub intern_ref : Catalog → Str → Catalog × FieldId
unfolding Interner.intern
intern_ref c name = let (t, id) = Interner.intern c.interner name in (record c { interner = t }, id)

unfoldable pub name_of_field : Catalog → FieldId → Option Str
unfolding Interner.name_of
name_of_field c id = Interner.name_of c.interner id

unfoldable pub predicate : Catalog → FieldId → Option PredicateDef
predicate c id = get id c.predicates

pub data Checked : Type 0 where
  ok : Checked
  err : ConstraintError → Checked

-- The match on the predicate's range and the fact's object.
unfoldable pub check_object : Catalog → Range → Object → Checked
unfolding value_type same_value_type
check_object c (Range.entity t) (Object.node n) = elim (get n c.node_types) [
  | none ↦ Checked.ok
  | some object_type ↦
      if object_type == t
      then Checked.ok
      else Checked.err (ConstraintError.range_type_mismatch t object_type)
]
check_object c (Range.entity t) (Object.value v) = Checked.err ConstraintError.expected_node_object
check_object c (Range.value vt) (Object.value v) =
    if same_value_type (value_type v) vt
    then Checked.ok
    else Checked.err (ConstraintError.range_value_mismatch vt (value_type v))
check_object c (Range.value vt) (Object.node n) = Checked.err ConstraintError.expected_value_object

unfoldable pub check_subject : Catalog → PredicateDef → Fact → Checked
unfolding check_object
check_subject c pred f = elim (get f.subject c.node_types) [
  | none ↦ check_object c pred.range f.object
  | some subject_type ↦
      if subject_type == pred.domain
      then check_object c pred.range f.object
      else Checked.err (ConstraintError.domain_mismatch pred.domain subject_type)
]

unfoldable pub validate : Catalog → Fact → Checked
unfolding check_subject
validate c f = elim (get f.predicate c.predicates) [
  | none ↦ Checked.err (ConstraintError.unknown_predicate f.predicate)
  | some pred ↦ check_subject c pred f
]
