-- ===== src/Tests/Required.antt =====
-- crates/stroma-core/src/completeness.rs at concrete inputs.
use stromadb.Base.{◌≡◌, refl, none, some, [], ◌∷◌}
use stromadb.Base.Int.{ℤ}
use stromadb.Base.Map.{get, insert}
use stromadb.Base.Order.{nat_ord}
use stromadb.Catalog.{Catalog, empty_catalog, field_id}
use stromadb.Catalog.Interner.{find}
use stromadb.Fold.Keys.{ObjKey}
use stromadb.Fold.Observe.{empty_snapshot}
use stromadb.Mask.{Facts, snapshot_facts}
use stromadb.Query.{point_one, point_many}
use stromadb.Query.Expand.{expand}
use stromadb.Completeness.{visible, present, evaluate}

-- The type "I", and the predicates "s" and "t".
abbrev issues : Catalog
issues = record empty_catalog {
  interner = record {
    by_name = (73 ∷ [], 0) ∷ (115 ∷ [], 1) ∷ (116 ∷ [], 2) ∷ [];
    names = (73 ∷ []) ∷ (115 ∷ []) ∷ (116 ∷ []) ∷ [];
  };
}

-- 4 has an "s", and 6 has only a text among its "t".
abbrev two_issues : Facts
two_issues = snapshot_facts (record empty_snapshot {
  one = ((4, 1), some (ObjKey.int (ℤ.pos 1))) ∷ [];
  many = ((6, 2), (ObjKey.text (97 ∷ []), tt) ∷ []) ∷ [];
  node_types = (4, 0) ∷ (6, 0) ∷ [];
})

-- A text is not a value of "t" for the report.
text_is_absent :
    evaluate two_issues issues (73 ∷ []) ((116 ∷ []) ∷ []) 1
    ≡ some (
        record { node = 4; missing = (116 ∷ []) ∷ [] }
        ∷ record { node = 6; missing = (116 ∷ []) ∷ [] }
        ∷ [])
unfolding evaluate field_id find present visible point_one point_many expand snapshot_facts get
    insert
text_is_absent = refl

-- A label over 31 makes the report panic if the node is of the type, and only then.
overlabelled_type :
    evaluate
      (snapshot_facts
        (record empty_snapshot { node_types = (4, 0) ∷ (6, 1) ∷ []; node_labels = (4, 32) ∷ [] }))
      issues
      (73 ∷ [])
      []
      1
    ≡ none
unfolding evaluate field_id find visible snapshot_facts get
overlabelled_type = refl

overlabelled_other :
    evaluate
      (snapshot_facts
        (record empty_snapshot { node_types = (4, 0) ∷ (6, 1) ∷ []; node_labels = (6, 32) ∷ [] }))
      issues
      (73 ∷ [])
      []
      1
    ≡ some []
unfolding evaluate field_id find visible snapshot_facts get
overlabelled_other = refl

-- 4 is labeled 1 and 6 labeled 2.
abbrev two_labeled : Facts
two_labeled = snapshot_facts (record two_issues.underlying { node_labels = (4, 1) ∷ (6, 2) ∷ [] })
