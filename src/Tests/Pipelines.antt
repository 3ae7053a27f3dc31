-- ===== src/Tests/Pipelines.antt =====
-- crates/stroma-core/src/ir.rs at a concrete pipeline.
use stromadb.Base.{◌≤◌, ◌≡◌, arith, refl, none, some, List, [], ◌∷◌, inl, inr}
use stromadb.Base.Tests.{Bool-cases}
use stromadb.Base.Lists.{length, All}
use stromadb.Base.Map.{get, insert}
use stromadb.Fact.{NodeId}
use stromadb.Fold.Keys.{ObjKey}
use stromadb.Fold.Observe.{empty_snapshot}
use stromadb.Mask.{Facts, snapshot_facts}
use stromadb.Mask.Permitted.{LabelsFit, MaySee}
use stromadb.Version.{ReadMode, VersionVector}
use stromadb.Query.Expand.{expand}
use stromadb.Ir.{
  AnnBackend, Principal, Traverser, Source, Filter, Transform, Pipeline, authorized, can_see_label,
  sourced, transformed, keep_node, keep_top, by_score, filter_ok, no_ann, run,
}
use stromadb.Ir.Float.{F32, is_nan, partial_cmp, rounded, add_one, inverse, relevance}
use stromadb.Ir.Sort.{sort_by}
use stromadb.Ir.Safety.{IsScoped, run_lem}

-- 1, 2 and 3 are of type 5; 3 has the label 4, and 2 knows 1 and 3.
abbrev team : Facts
team = snapshot_facts (record empty_snapshot {
  many = ((2, 7), (ObjKey.node 1, tt) ∷ (ObjKey.node 3, tt) ∷ []) ∷ [];
  node_types = (1, 5) ∷ (2, 5) ∷ (3, 5) ∷ [];
  node_labels = (3, 4) ∷ [];
})

-- It has two vectors, 2 at the distance 1 and 1 at the distance 2.
abbrev hits : List (NodeId × F32)
hits = (2, 1065353216) ∷ (1, 1073741824) ∷ []

abbrev two_vectors : AnnBackend
two_vectors = record { ann_search = λ q k scope keep. filter_ok (λ h. keep h.0) hits }

two_vectors-IsScoped : IsScoped two_vectors
unfolding is_nan
two_vectors-IsScoped = record {
  scoped = λ q k scope keep pass total. elim (Bool-cases (pass 1)) [
    | inl a ↦ elim (Bool-cases (pass 2)) [
      | inl b ↦ (hits, rw (total 1, total 2, a, b) refl, ((b, refl), ((a, refl), tt)))
      | inr b ↦ ((1, 1073741824) ∷ [], rw (total 1, total 2, a, b) refl, ((a, refl), tt))
    ]
    | inr a ↦ elim (Bool-cases (pass 2)) [
      | inl b ↦ ((2, 1065353216) ∷ [], rw (total 1, total 2, a, b) refl, ((b, refl), tt))
      | inr b ↦ ([], rw (total 1, total 2, a, b) refl, tt)
    ]
  ];
}

-- The nearest of type 5, the best of them, and those that it knows.
abbrev acquaintances : Pipeline
acquaintances = record {
  source = Source.type_ann [] 5 2;
  transforms =
      Transform.filter_by (Filter.has_type 5) ∷ Transform.top_k 1 ∷ Transform.expand_over 7 ∷ [];
  max_nodes = 10;
  mode = ReadMode.strict;
}

abbrev stamp : VersionVector
stamp = record { changelog_seqno = 3; vector_watermark = 2 }

-- The principal does not see the label 4.
abbrev outsider : Principal
outsider = record { allowed_labels = 1 }

-- The nearer has the higher score: it is 2, which knows 1 and 3, and 3 is not seen.
one_acquaintance :
    run team two_vectors acquaintances outsider stamp
    ≡ some (record { ids = 1 ∷ []; scores = 1065353216 ∷ []; as_of = stamp })
unfolding run sourced transformed authorized can_see_label keep_node keep_top by_score sort_by
    partial_cmp is_nan relevance add_one inverse rounded expand snapshot_facts get insert
one_acquaintance = refl

team-LabelsFit : LabelsFit team.underlying
unfolding snapshot_facts get
team-LabelsFit n l e = ground (arith, e)

run_lem_example :
    (t : Traverser) × (run team two_vectors acquaintances outsider stamp ≡ some t)
    × All (MaySee team.underlying outsider.allowed_labels) t.ids
    × (length t.ids ≤ acquaintances.max_nodes)
    × (length t.scores ≡ length t.ids)
    × (t.as_of ≡ stamp)
run_lem_example =
    run_lem team two_vectors acquaintances outsider stamp team-LabelsFit two_vectors-IsScoped

-- 1 / (1 + 1) is a half, and 1 / (1 + 2) a third.
a_half : relevance 1065353216 ≡ 1056964608
unfolding relevance add_one inverse is_nan rounded
a_half = refl

a_third : relevance 1073741824 ≡ 1051372203
unfolding relevance add_one inverse is_nan rounded
a_third = refl

-- A node with a label over 31 makes the run panic.
overlabelled :
    run
      (snapshot_facts (record empty_snapshot { node_labels = (3, 33) ∷ [] }))
      no_ann
      (record acquaintances { source = Source.point (3 ∷ []) })
      outsider
      stamp
    ≡ none
unfolding run sourced authorized can_see_label snapshot_facts get
overlabelled = refl
