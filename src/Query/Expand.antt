-- ===== src/Query/Expand.antt =====
-- crates/stroma-core/src/query.rs: the neighbours of a node over one predicate, now and as of an
-- instant, and the reverse of a predicate's edges.
use stromadb.Base.{true, Option, none, some, List, [], ◌∷◌}
use stromadb.Base.Int.{ℤ}
use stromadb.Base.Tests.{◌==◌, if◌then◌else◌}
use stromadb.Base.Map.{BTreeMap, BTreeSet, get_or, insert, keys, set_insert, extend}
use stromadb.Base.Order.{nat_ord}
use stromadb.Fact.{FieldId, NodeId}
use stromadb.Fold.Keys.{ObjKey}
use stromadb.Fold.State.{Key}
use stromadb.Mask.{Facts}
use stromadb.Query.{point_one, point_one_asof, point_many, point_many_asof}

-- `if let ObjKey::Node(n)`
abbrev pub add_node : ObjKey → BTreeSet NodeId → BTreeSet NodeId
add_node (ObjKey.node n) out = set_insert n out
add_node _ out = out

abbrev pub add_found : Option ObjKey → BTreeSet NodeId → BTreeSet NodeId
add_found none out = out
add_found (some o) out = add_node o out

abbrev pub add_nodes : List ObjKey → BTreeSet NodeId → BTreeSet NodeId
add_nodes [] out = out
add_nodes (o ∷ os) out = add_nodes os (add_node o out)

unfoldable pub expand : Facts → NodeId → FieldId → BTreeSet NodeId
unfolding point_one point_many
expand snap subject predicate =
    add_nodes (keys (point_many snap subject predicate))
      (add_found (point_one snap subject predicate) [])

unfoldable pub expand_asof : Facts → NodeId → FieldId → ℤ → BTreeSet NodeId
unfolding point_one_asof point_many_asof
expand_asof snap subject predicate at =
    add_nodes (keys (point_many_asof snap subject predicate at))
      (add_found (point_one_asof snap subject predicate at) [])

abbrev pub Reverse : Type 0
Reverse = BTreeMap NodeId (BTreeSet NodeId)

-- `rev.entry(o).or_default().insert(s)` for a node `o`
abbrev pub point_back : NodeId → ObjKey → Reverse → Reverse
point_back s (ObjKey.node o) rev = insert o (set_insert s (get_or [] o rev)) rev
point_back s _ rev = rev

abbrev pub point_back_found : NodeId → Option ObjKey → Reverse → Reverse
point_back_found s none rev = rev
point_back_found s (some o) rev = point_back s o rev

abbrev pub point_back_all : NodeId → List ObjKey → Reverse → Reverse
point_back_all s [] rev = rev
point_back_all s (o ∷ os) rev = point_back_all s os (point_back s o rev)

-- The two visitors of `reverse_adjacency`.
abbrev pub reverse_ones : FieldId → List (Key × Option ObjKey) → Reverse → Reverse
reverse_ones predicate [] rev = rev
reverse_ones predicate (((s, p), v) ∷ ones) rev =
    reverse_ones predicate ones (if p == predicate then point_back_found s v rev else rev)

abbrev pub reverse_manys : FieldId → List (Key × BTreeSet ObjKey) → Reverse → Reverse
reverse_manys predicate [] rev = rev
reverse_manys predicate (((s, p), set) ∷ manys) rev =
    reverse_manys predicate manys (if p == predicate then point_back_all s (keys set) rev else rev)

unfoldable pub reverse_adjacency : Facts → FieldId → Reverse
reverse_adjacency snap predicate =
    reverse_manys predicate (snap.for_each_many (λ k. true))
      (reverse_ones predicate (snap.for_each_one (λ k. true)) [])

-- The two visitors of `reverse_adjacency_asof`.
abbrev pub reverse_ones_asof : Facts → FieldId → ℤ → List Key → Reverse → Reverse
reverse_ones_asof snap predicate at [] rev = rev
reverse_ones_asof snap predicate at ((s, p) ∷ ks) rev =
    reverse_ones_asof snap predicate at ks
      (if p == predicate then point_back_found s (point_one_asof snap s p at) rev else rev)

abbrev pub reverse_manys_asof : Facts → FieldId → ℤ → List Key → Reverse → Reverse
reverse_manys_asof snap predicate at [] rev = rev
reverse_manys_asof snap predicate at ((s, p) ∷ ks) rev =
    reverse_manys_asof snap predicate at ks
      (if p == predicate then point_back_all s (keys (point_many_asof snap s p at)) rev else rev)

unfoldable pub reverse_adjacency_asof : Facts → FieldId → ℤ → Reverse
unfolding point_one_asof point_many_asof
reverse_adjacency_asof snap predicate at =
    reverse_manys_asof snap predicate at snap.for_each_many_key
      (reverse_ones_asof snap predicate at snap.for_each_one_key [])

abbrev pub expand_all : Facts → FieldId → List NodeId → BTreeSet NodeId → BTreeSet NodeId
expand_all snap predicate [] out = out
expand_all snap predicate (s ∷ ss) out =
    expand_all snap predicate ss (extend (keys (expand snap s predicate)) out)

unfoldable pub expand_set : Facts → BTreeSet NodeId → FieldId → BTreeSet NodeId
unfolding expand
expand_set snap subjects predicate = expand_all snap predicate (keys subjects) []

unfoldable pub two_hop : Facts → NodeId → FieldId → FieldId → BTreeSet NodeId
unfolding expand expand_set
two_hop snap subject p1 p2 = expand_set snap (expand snap subject p1) p2
