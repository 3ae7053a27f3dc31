-- ===== src/Tests/Schema.antt =====
-- crates/stroma-core/src/catalog.rs at concrete inputs.
use stromadb.Base.{◌≡◌, ◌↔◌, refl, arith, none, some, [], ◌∷◌, false}
use stromadb.Base.Int.{ℤ}
use stromadb.Fact.{Fact, Object, Value, ProvenanceKind}
use stromadb.Catalog.{Catalog, Cardinality, Range, ValueType, Checked, ConstraintError, validate}
use stromadb.Catalog.Interner.{Interner, empty_interner, intern, find, name_of}
use stromadb.Catalog.Interning.{
  IsConsistent, empty_interner-IsConsistent, intern-IsConsistent, intern_lem,
}
use stromadb.Base.Map.{get, insert}
use stromadb.Catalog.Validation.{Admissible, validate_iff}

-- "ab", after "a"
abbrev a_first : Interner
a_first = record { by_name = (97 ∷ [], 0) ∷ []; names = (97 ∷ []) ∷ [] }

a_first-IsConsistent : IsConsistent a_first
unfolding intern get insert
a_first-IsConsistent =
    intern-IsConsistent empty_interner (97 ∷ []) (omega arith) empty_interner-IsConsistent

intern_lem_example :
    let (t, id) = intern a_first (97 ∷ 98 ∷ []) in
    (find t (97 ∷ 98 ∷ []) ≡ some id) × (name_of t id ≡ some (97 ∷ 98 ∷ []))
intern_lem_example = intern_lem a_first (97 ∷ 98 ∷ []) (omega arith) a_first-IsConsistent

-- "age", an integer
abbrev ages : Catalog
ages = record {
  interner = record { by_name = (97 ∷ [], 0) ∷ []; names = (97 ∷ []) ∷ [] };
  types = [];
  predicates =
      (
        0,
        record {
          id = 0;
          cardinality = Cardinality.one;
          props = record { symmetric = false; transitive = false; inverse = none };
          domain = 5;
          range = Range.value ValueType.int;
          display = false;
          label = none;
          label_floor = none;
        },
      )
      ∷ [];
  node_types = (7, 5) ∷ [];
  node_labels = [];
}

abbrev aged : Object → Fact
aged o = record {
  subject = 7;
  predicate = 0;
  object = o;
  valid_time = record { from = ℤ.pos 0; to = none };
  transaction_time = 1;
  provenance = record { kind = ProvenanceKind.asserted; source = 1 };
  confidence = 0;
}

validate_iff_example :
    (validate ages (aged (Object.value (Value.int (ℤ.pos 40)))) ≡ Checked.ok)
    ↔ Admissible ages (aged (Object.value (Value.int (ℤ.pos 40))))
validate_iff_example = validate_iff ages (aged (Object.value (Value.int (ℤ.pos 40))))

age_passes : validate ages (aged (Object.value (Value.int (ℤ.pos 40)))) ≡ Checked.ok
unfolding validate get
age_passes = refl

age_is_no_node :
    validate ages (aged (Object.node 3)) ≡ Checked.err ConstraintError.expected_value_object
unfolding validate get
age_is_no_node = refl
