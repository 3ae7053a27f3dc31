-- ===== src/Catalog/Validation.antt =====
-- crates/stroma-core/src/catalog.rs, `Catalog::validate` against an independent description.
use stromadb.Base.{true, ◌≡◌, ◌↔◌, inl, inr, some, arith}
use stromadb.Base.Tests.{Option-cases}
use stromadb.Base.Map.{get}
use stromadb.Base.Order.{nat_ord}
use stromadb.Fact.{NodeId, FieldId, Object, Fact}
use stromadb.Catalog.{
  Catalog, Range, PredicateDef, ValueType, Checked, value_type, same_value_type, check_object,
  check_subject, validate,
}

-- A node is of the type `t`, or its type is not declared.
abbrev pub MayHaveType : Catalog → NodeId → FieldId → Type 0
MayHaveType c n t = (declared : FieldId) → get n c.node_types ≡ some declared → declared ≡ t

-- The object is of the kind that the range asks for.
abbrev pub FitsRange : Catalog → Range → Object → Type 0
FitsRange c (Range.entity t) (Object.node n) = MayHaveType c n t
FitsRange c (Range.value vt) (Object.value v) = value_type v ≡ vt
FitsRange c (Range.entity t) (Object.value v) = ⊥
FitsRange c (Range.value vt) (Object.node n) = ⊥

-- What the schema asks of a fact.
abbrev pub Admissible : Catalog → Fact → Type 0
Admissible c f =
    (pred : PredicateDef) × (get f.predicate c.predicates ≡ some pred)
    × MayHaveType c f.subject pred.domain
    × FitsRange c pred.range f.object

same_value_type_iff : (a b : ValueType) → (same_value_type a b ≡ true) ↔ (a ≡ b)
unfolding same_value_type
same_value_type_iff a b = ground arith

check_object_sound :
    (c : Catalog) (r : Range) (o : Object) → check_object c r o ≡ Checked.ok → FitsRange c r o
unfolding check_object
check_object_sound c (Range.entity t) (Object.node n) h = λ declared e. ground arith
check_object_sound c (Range.value vt) (Object.value v) h = ground arith
check_object_sound c (Range.entity t) (Object.value v) h = cc
check_object_sound c (Range.value vt) (Object.node n) h = cc

check_object_complete :
    (c : Catalog) (r : Range) (o : Object) → FitsRange c r o → check_object c r o ≡ Checked.ok
unfolding check_object
check_object_complete c (Range.entity t) (Object.node n) h =
    elim (Option-cases (get n c.node_types)) [
      | inl missing ↦ ground arith
      | inr (declared, e) ↦ ground (arith, h declared e)
    ]
check_object_complete c (Range.value vt) (Object.value v) h = ground arith
check_object_complete c (Range.entity t) (Object.value v) h = absurd h
check_object_complete c (Range.value vt) (Object.node n) h = absurd h

validate_sound : (c : Catalog) (f : Fact) → validate c f ≡ Checked.ok → Admissible c f
unfolding validate check_subject
validate_sound c f h = elim (Option-cases (get f.predicate c.predicates)) [
  | inl missing ↦ ground arith
  | inr (pred, e) ↦ (
    pred,
    e,
    (λ declared d. ground arith),
    check_object_sound c pred.range f.object (ground arith),
  )
]

validate_complete : (c : Catalog) (f : Fact) → Admissible c f → validate c f ≡ Checked.ok
unfolding validate check_subject
validate_complete c f (pred, found, subject_fits, object_fits) =
    elim (Option-cases (get f.subject c.node_types)) [
      | inl missing ↦ ground (arith, check_object_complete c pred.range f.object object_fits)
      | inr (declared, e) ↦
          ground (
            arith,
            subject_fits declared e,
            check_object_complete c pred.range f.object object_fits,
          )
    ]

-- A fact passes `validate` exactly when its predicate is registered, its subject has the
-- predicate's domain for its type or no declared type, and its object fits the predicate's range.
pub validate_iff : (c : Catalog) (f : Fact) → (validate c f ≡ Checked.ok) ↔ Admissible c f
validate_iff c f = (validate_sound c f, validate_complete c f)
