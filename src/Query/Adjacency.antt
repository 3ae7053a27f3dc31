-- ===== src/Query/Adjacency.antt =====
-- crates/stroma-core/src/query.rs: the reads over every predicate of a node, and over every edge.
pub mod Edges
pub mod Neighbours
use stromadb.Base.{ℕ, ◌%◌, ◌^◌, Bool, true, false, not, ◌||◌, Option, none, some, List, [], ◌∷◌}
use stromadb.Base.Tests.{◌==◌, ltb, if◌then◌else◌, is_some}
use stromadb.Base.Lists.{length, is_empty}
use stromadb.Base.Map.{BTreeMap, BTreeSet, get_or, insert, keys, set_insert, map_values}
use stromadb.Base.Order.{nat_ord, pair_ord}
use stromadb.Fact.{FieldId, NodeId}
use stromadb.Fold.Keys.{ObjKey}
use stromadb.Fold.State.{Key}
use stromadb.Mask.{Facts}
use stromadb.Query.Expand.{add_found, add_nodes}

-- `(subject, u32::MIN)..=(subject, u32::MAX)`
abbrev pub of_subject : NodeId → Key → Bool
of_subject subject k = k.0 == subject

abbrev pub add_ones : List (Key × Option ObjKey) → BTreeSet NodeId → BTreeSet NodeId
add_ones [] out = out
add_ones ((k, v) ∷ ones) out = add_ones ones (add_found v out)

abbrev pub add_manys : List (Key × BTreeSet ObjKey) → BTreeSet NodeId → BTreeSet NodeId
add_manys [] out = out
add_manys ((k, set) ∷ manys) out = add_manys manys (add_nodes (keys set) out)

unfoldable pub neighbors : Facts → NodeId → BTreeSet NodeId
neighbors snap subject =
    add_manys (snap.for_each_many (of_subject subject))
      (add_ones (snap.for_each_one (of_subject subject)) [])

abbrev pub any_one : List (Key × Option ObjKey) → Bool → Bool
any_one [] any = any
any_one ((k, v) ∷ ones) any = any_one ones (any || is_some v)

abbrev pub any_many : List (Key × BTreeSet ObjKey) → Bool → Bool
any_many [] any = any
any_many ((k, set) ∷ manys) any = any_many manys (any || not (is_empty set))

unfoldable pub has_facts : Facts → NodeId → Bool
has_facts snap subject =
    any_many (snap.for_each_many (of_subject subject))
      (any_one (snap.for_each_one (of_subject subject)) false)

abbrev pub described_ones : List (Key × Option ObjKey) → List (FieldId × ObjKey)
described_ones [] = []
described_ones ((k, none) ∷ ones) = described_ones ones
described_ones ((k, some o) ∷ ones) = (k.1, o) ∷ described_ones ones

abbrev pub described_manys : List (Key × BTreeSet ObjKey) → List (FieldId × List ObjKey)
described_manys [] = []
described_manys ((k, set) ∷ manys) =
    let rest = described_manys manys in if is_empty set then rest else (k.1, keys set) ∷ rest

unfoldable pub describe : Facts → NodeId → List (FieldId × ObjKey) × List (FieldId × List ObjKey)
describe snap subject = (
  described_ones (snap.for_each_one (of_subject subject)),
  described_manys (snap.for_each_many (of_subject subject)),
)

-- `predicate.is_some_and(|pp| pp != p)`, the other way round
abbrev pub admits : Option FieldId → FieldId → Bool
admits none p = true
admits (some pp) p = pp == p

abbrev pub Adjacency : Type 0
Adjacency = BTreeMap NodeId (BTreeSet NodeId)

-- `adj.entry(a).or_default().insert(b)`
abbrev pub add_link : NodeId → NodeId → Adjacency → Adjacency
add_link a b adj = insert a (set_insert b (get_or [] a adj)) adj

abbrev pub link : NodeId → NodeId → Adjacency → Adjacency
link a b adj = add_link b a (add_link a b adj)

abbrev pub Predicates : Type 0
Predicates = BTreeMap (NodeId × NodeId) (BTreeSet FieldId)

abbrev pub note : NodeId → NodeId → FieldId → Predicates → Predicates
note a b p preds =
    let key = if ltb a b then (a, b) else (b, a) in
    insert key (set_insert p (get_or [] key preds)) preds

-- The two visits of every node-valued edge that the predicate admits, with what `f` does for one.
module _ {A : Type 0} (f : NodeId → NodeId → FieldId → A → A) where
  abbrev pub edge_of : Key → ObjKey → A → A
  edge_of k (ObjKey.node n) out = f k.0 n k.1 out
  edge_of k _ out = out

  abbrev pub edges_of : Key → List ObjKey → A → A
  edges_of k [] out = out
  edges_of k (o ∷ os) out = edges_of k os (edge_of k o out)

  abbrev pub edge_found : Key → Option ObjKey → A → A
  edge_found k none out = out
  edge_found k (some o) out = edge_of k o out

  abbrev pub edge_ones : Option FieldId → List (Key × Option ObjKey) → A → A
  edge_ones predicate [] out = out
  edge_ones predicate ((k, v) ∷ ones) out =
      edge_ones predicate ones (if admits predicate k.1 then edge_found k v out else out)

  abbrev pub edge_manys : Option FieldId → List (Key × BTreeSet ObjKey) → A → A
  edge_manys predicate [] out = out
  edge_manys predicate ((k, set) ∷ manys) out =
      edge_manys predicate manys (if admits predicate k.1 then edges_of k (keys set) out else out)

unfoldable pub undirected_adjacency : Facts → Option FieldId → Adjacency
undirected_adjacency snap predicate =
    edge_manys (λ s n p adj. link s n adj) predicate (snap.for_each_many (λ k. true))
      (edge_ones (λ s n p adj. link s n adj) predicate (snap.for_each_one (λ k. true)) [])

unfoldable pub edge_predicates : Facts → Option FieldId → Predicates
edge_predicates snap predicate =
    edge_manys note predicate (snap.for_each_many (λ k. true))
      (edge_ones note predicate (snap.for_each_one (λ k. true)) [])

-- `(k, s.len() as u32)`
unfoldable pub edge_strengths : Facts → Option FieldId → BTreeMap (NodeId × NodeId) ℕ
unfolding edge_predicates
edge_strengths snap predicate =
    map_values (λ k s. length s % 2 ^ 32) (edge_predicates snap predicate)
