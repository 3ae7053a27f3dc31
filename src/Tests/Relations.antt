-- ===== src/Tests/Relations.antt =====
-- crates/stroma-core/src/query.rs, the expansions, at concrete inputs.
use stromadb.Base.{◌≡◌, ◌↔◌, ◌⊎◌, refl, true, false, none, some, [], ◌∷◌}
use stromadb.Base.Map.{contains, get, insert, extend, remove, retain}
use stromadb.Catalog
use stromadb.Catalog.{Catalog, Cardinality, Range, empty_catalog}
use stromadb.Base.Order.{nat_ord}
use stromadb.Fact.{FieldId}
use stromadb.Fold.Keys.{ObjKey}
use stromadb.Fold.Observe.{Snapshot, empty_snapshot}
use stromadb.Mask.{snapshot_facts}
use stromadb.Query.Expand.{expand}
use stromadb.Query.Closure.{walk, closure, rel_step, expand_with, props_of, expand_rel_at}
use stromadb.Query.Closure.Walks.{In}
use stromadb.Query.Closure.Relation.{Related, expand_rel_at_iff}
use stromadb.Query.Adjacency.{admits, undirected_adjacency}
use stromadb.Query.Adjacency.Neighbours.{undirected_adjacency_iff}
use stromadb.Query.Adjacency.Edges.{Linked}
use stromadb.Query.Lawful.{snapshot_facts-IsLawful}

-- 1 reports to 2, and 2 to 3.
abbrev chain : Snapshot
chain = record empty_snapshot {
  one = ((1, 2), some (ObjKey.node 2)) ∷ ((2, 2), some (ObjKey.node 3)) ∷ [];
}

-- Predicate 2 is transitive.
abbrev reports_to : Catalog
reports_to = record empty_catalog {
  predicates =
      (
        2,
        record {
          id = 2;
          cardinality = Cardinality.one;
          props = record { symmetric = false; transitive = true; inverse = none };
          domain = 5;
          range = Range.entity 5;
          display = false;
          label = none;
          label_floor = none;
        },
      )
      ∷ [];
}

-- Two hops from 1 find 2 and 3.
two_hops : expand_rel_at (snapshot_facts chain) reports_to 1 2 2 none ≡ (2, tt) ∷ (3, tt) ∷ []
unfolding expand_rel_at expand_with props_of closure walk rel_step Catalog.predicate expand
    snapshot_facts get insert extend remove retain
two_hops = refl

expand_rel_at_iff_example :
    In 3 (expand_rel_at (snapshot_facts chain) reports_to 1 2 2 none)
    ↔ Related (snapshot_facts chain) none 2 (props_of reports_to 2) 1 2 3
expand_rel_at_iff_example =
    expand_rel_at_iff (snapshot_facts chain) reports_to 1 2 2 none 3
      (snapshot_facts-IsLawful chain ((refl, tt), (tt, tt)) tt)

-- 3 and 2 are adjacent, by the edge from 2 to 3.
undirected_adjacency_iff_example : Linked 3 2 (undirected_adjacency (snapshot_facts chain) none) ↔ (
    (p : FieldId) × (admits none p ≡ true)
    × ((contains 2 (expand (snapshot_facts chain) 3 p) ≡ true)
        ⊎ (contains 3 (expand (snapshot_facts chain) 2 p) ≡ true)))
undirected_adjacency_iff_example =
    undirected_adjacency_iff (snapshot_facts chain) none 3 2
      (snapshot_facts-IsLawful chain ((refl, tt), (tt, tt)) tt)
