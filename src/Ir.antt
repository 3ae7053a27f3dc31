-- ===== src/Ir.antt =====
-- crates/stroma-core/src/ir.rs: pipelines that run over a snapshot, a vector backend and a principal.
-- A panic is `none`, one of a shift by more than 31 bits among them. The vector backend is a parameter,
-- whose test of a node may panic.
pub mod Float
pub mod Sort
pub mod Good
pub mod Safety
use Prim.Native.Nat.{compare, Ordering}
use stromadb.Base.{
  ℕ, ◌+◌, ◌/◌, ◌%◌, ◌^◌, Bool, true, false, not, ◌&&◌, Option, none, some, List, [], ◌∷◌, ◌++◌,
}
use stromadb.Base.Int.{ℤ, lebℤ, ltbℤ, compareℤ}
use stromadb.Base.Tests.{◌==◌, ltb, if◌then◌else◌, ◌>>=◌, is_some, map_option}
use stromadb.Base.Lists.{length, take, get_elem?, filter, any}
use stromadb.Base.Map.{get, keys}
use stromadb.Base.Order.{Ord, nat_ord}
use stromadb.Fact.{FieldId, NodeId}
use stromadb.Fold.Keys.{ObjKey}
use stromadb.Fold.Observe.{Snapshot}
use stromadb.Mask.{Facts}
use stromadb.Version.{ReadMode, VersionVector}
use stromadb.Query.{point_one, point_one_asof}
use stromadb.Query.Expand.{expand}
use Float.{F32, one_f32, partial_cmp, relevance}
use Sort.{sort_by}

-- `trait AnnBackend`
pub record AnnBackend : Type 0 where
  pub ann_search : List F32 → ℕ → Option ℕ → (NodeId → Option Bool) → Option (List (NodeId × F32))

-- `impl AnnBackend for NoAnn`
abbrev pub no_ann : AnnBackend
no_ann = record { ann_search = λ q k scope keep. some [] }

pub record Principal : Type 0 where
  pub allowed_labels : ℕ

-- `(self.allowed_labels >> label) & 1 == 1`, where a shift by 32 or more overflows the word.
unfoldable pub can_see_label : Principal → ℕ → Option Bool
can_see_label principal label =
    if ltb label 32 then some (principal.allowed_labels / 2 ^ label % 2 == 1) else none

pub record Traverser : Type 0 where
  pub ids : List NodeId
  pub scores : List F32
  pub as_of : VersionVector

pub data Source : Type 0 where
  point : (subjects : List NodeId) → Source
  type_ann : (q : List F32) (target_type : FieldId) (k : ℕ) → Source

pub data Cmp : Type 0 where
  lt le eq ne ge gt : Cmp

-- `Cmp::test`
unfoldable pub cmp_test : Cmp → ℤ → ℤ → Bool
cmp_test Cmp.lt a b = ltbℤ a b
cmp_test Cmp.le a b = lebℤ a b
cmp_test Cmp.eq a b = lebℤ a b && lebℤ b a
cmp_test Cmp.ne a b = not (lebℤ a b && lebℤ b a)
cmp_test Cmp.ge a b = lebℤ b a
cmp_test Cmp.gt a b = ltbℤ b a

pub data Filter : Type 0 where
  has_type : FieldId → Filter
  has_value : FieldId → Filter
  int_cmp : FieldId → Cmp → ℤ → Filter
  int_cmp_asof : FieldId → Cmp → ℤ → ℤ → Filter

-- `snapshot.node_types.get(&n) == Some(ty)`
abbrev pub is_of_type : Snapshot → FieldId → NodeId → Bool
is_of_type snap ty n = elim (get n snap.node_types) [ none ↦ false | some t ↦ t == ty ]

-- `matches!(v, Some(ObjKey::Int(v)) if op.test(v, value))`
abbrev pub int_matches : Cmp → ℤ → Option ObjKey → Bool
int_matches op value (some (ObjKey.int v)) = cmp_test op v value
int_matches op value _ = false

-- `Filter::keep`
unfoldable pub keep_node : Facts → Filter → NodeId → Bool
unfolding point_one point_one_asof cmp_test
keep_node facts (Filter.has_type ty) n = is_of_type facts.underlying ty n
keep_node facts (Filter.has_value predicate) n = is_some (point_one facts n predicate)
keep_node facts (Filter.int_cmp predicate op value) n =
    int_matches op value (point_one facts n predicate)
keep_node facts (Filter.int_cmp_asof predicate op value as_of) n =
    int_matches op value (point_one_asof facts n predicate as_of)

pub data Transform : Type 0 where
  expand_over : FieldId → Transform
  top_k : ℕ → Transform
  filter_by : Filter → Transform

pub record Pipeline : Type 0 where
  pub source : Source
  pub transforms : List Transform
  pub max_nodes : ℕ
  pub mode : ReadMode

-- `is_none_or(|&l| principal.can_see_label(l))`
abbrev pub seen_by : Principal → Option ℕ → Option Bool
seen_by principal none = some true
seen_by principal (some l) = can_see_label principal l

unfoldable pub authorized : Snapshot → Principal → NodeId → Option Bool
unfolding can_see_label
authorized snap principal n = seen_by principal (get n snap.node_labels)

abbrev pub cap : ℕ → List NodeId × List F32 → List NodeId × List F32
cap max_nodes (ids, scores) =
    if ltb max_nodes (length ids)
    then (take max_nodes ids, take max_nodes scores)
    else (ids, scores)

-- `vec![1.0; n]` for the length of a list
abbrev pub ones_for : List NodeId → List F32
ones_for [] = []
ones_for (n ∷ ns) = one_f32 ∷ ones_for ns

-- `vec.contains(&n)`
abbrev pub has_node : List NodeId → NodeId → Bool
has_node ns n = any (λ m. m == n) ns

-- The inner and the outer loop of an expansion.
abbrev pub push_new : (NodeId → Option Bool) → List NodeId → List NodeId → Option (List NodeId)
push_new seen [] next = some next
push_new seen (n ∷ ns) next = do
  b ← seen n
  push_new seen ns (if b && not (has_node next n) then next ++ n ∷ [] else next)

abbrev pub expand_ids :
    Facts → (NodeId → Option Bool) → FieldId → List NodeId → List NodeId → Option (List NodeId)
expand_ids facts seen predicate [] next = some next
expand_ids facts seen predicate (s ∷ ss) next = do
  more ← push_new seen (keys (expand facts s predicate)) next
  expand_ids facts seen predicate ss more

-- `filter` with a test that may panic
abbrev pub filter_ok {ℓ} : {A : Type ℓ} → (A → Option Bool) → List A → Option (List A)
filter_ok seen [] = some []
filter_ok seen (x ∷ xs) = do
  b ← seen x
  rest ← filter_ok seen xs
  some (if b then x ∷ rest else rest)

-- `(0..n)`
abbrev pub indices_from : ℕ → List NodeId → List ℕ
indices_from i [] = []
indices_from i (n ∷ ns) = i ∷ indices_from (i + 1) ns

-- `a.then(b)`
abbrev pub then_cmp : Ordering → Ordering → Ordering
then_cmp Ordering.eq o = o
then_cmp o _ = o

-- The comparison of two indices: the higher score first, then the lower id.
unfoldable pub by_score : List NodeId → List F32 → ℕ → ℕ → Option Ordering
unfolding partial_cmp
by_score ids scores a b = do
  sb ← get_elem? scores b
  sa ← get_elem? scores a
  o ← partial_cmp sb sa
  ia ← get_elem? ids a
  ib ← get_elem? ids b
  some (then_cmp o (compare ia ib))

-- `order.iter().map(|&i| xs[i])`
abbrev pub picked {ℓ} : {A : Type ℓ} → List A → List ℕ → Option (List A)
picked xs [] = some []
picked xs (i ∷ is) = do x ← get_elem? xs i; rest ← picked xs is; some (x ∷ rest)

unfoldable pub keep_top : ℕ → List NodeId → List F32 → Option (List NodeId × List F32)
unfolding by_score sort_by
keep_top k ids scores = do
  order ← sort_by (by_score ids scores) (indices_from 0 ids)
  ni ← picked ids (take k order)
  ns ← picked scores (take k order)
  some (ni, ns)

-- `ni.push(n); ns.push(scores[i])` for the nodes that are kept; the scores are those from `i` on.
abbrev pub filtered : (NodeId → Bool) → List NodeId → List F32 → Option (List NodeId × List F32)
filtered keep [] scores = some ([], [])
filtered keep (n ∷ ns) [] = if keep n then none else filtered keep ns []
filtered keep (n ∷ ns) (s ∷ ss) = do
  rest ← filtered keep ns ss
  some (if keep n then (n ∷ rest.0, s ∷ rest.1) else rest)

-- One transform.
unfoldable pub transformed :
    Facts → Principal → Transform → List NodeId × List F32 → Option (List NodeId × List F32)
unfolding authorized expand keep_node keep_top
transformed facts principal (Transform.expand_over predicate) (ids, scores) =
    expand_ids facts (authorized facts.underlying principal) predicate ids [] >>= λ next.
    some (next, ones_for next)
transformed facts principal (Transform.top_k k) (ids, scores) = keep_top k ids scores
transformed facts principal (Transform.filter_by f) (ids, scores) =
    filtered (keep_node facts f) ids scores

-- The loop over the transforms, with the cap behind each.
abbrev pub run_transforms :
    Facts
    → Principal
    → ℕ
    → List Transform
    → List NodeId × List F32
    → Option (List NodeId × List F32)
run_transforms facts principal max_nodes [] out = some out
run_transforms facts principal max_nodes (t ∷ ts) out = do
  next ← transformed facts principal t out
  run_transforms facts principal max_nodes ts (cap max_nodes next)

-- `pipeline.mode` as the scope of a search
abbrev pub scope_of : ReadMode → VersionVector → Option ℕ
scope_of ReadMode.strict vv = some vv.vector_watermark
scope_of ReadMode.fresh vv = none

abbrev pub scored : List (NodeId × F32) → List NodeId × List F32
scored [] = ([], [])
scored ((n, d) ∷ hits) = let rest = scored hits in (n ∷ rest.0, relevance d ∷ rest.1)

-- The test of a search: who may see the node, and its type.
abbrev pub keep_typed : Snapshot → Principal → FieldId → NodeId → Option Bool
keep_typed snap principal ty n = do
  seen ← authorized snap principal n
  some (seen && is_of_type snap ty n)

unfoldable pub sourced :
    Facts
    → AnnBackend
    → ReadMode
    → Principal
    → VersionVector
    → Source
    → Option (List NodeId × List F32)
unfolding authorized relevance
sourced facts vector mode principal vv (Source.point subjects) = do
  ids ← filter_ok (authorized facts.underlying principal) subjects
  some (ids, ones_for ids)
sourced facts vector mode principal vv (Source.type_ann q target_type k) = do
  hits ←
      vector.ann_search q k (scope_of mode vv) (keep_typed facts.underlying principal target_type)
  some (scored hits)

unfoldable pub run : Facts → AnnBackend → Pipeline → Principal → VersionVector → Option Traverser
unfolding sourced transformed
run facts vector pipeline principal vv = do
  from ← sourced facts vector pipeline.mode principal vv pipeline.source
  out ←
      run_transforms facts principal pipeline.max_nodes pipeline.transforms
        (cap pipeline.max_nodes from)
  some (record { ids = out.0; scores = out.1; as_of = vv })
