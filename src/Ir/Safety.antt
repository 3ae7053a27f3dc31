-- ===== src/Ir/Safety.antt =====
-- crates/stroma-core/src/ir.rs, `run`: what every pipeline returns.
use stromadb.Base.{
  ℕ, ◌/◌, ◌%◌, ◌^◌, ◌≤◌, ◌<◌, ◌≡◌, refl, sym, ap, ◌∙◌, arith, Bool, true, false, ◌&&◌, Option, none,
  some, List, [], ◌∷◌,
}
use stromadb.Base.Tests.{==_iff, lt→ltb, ◌>>=◌, unwrap_or}
use stromadb.Base.Lists.{length, All}
use stromadb.Base.Map.{get, keys}
use stromadb.Base.Order.{nat_ord}
use stromadb.Fact.{FieldId, NodeId}
use stromadb.Mask.{Facts}
use stromadb.Mask.Permitted.{LabelsFit, MaySee}
use stromadb.Version.{ReadMode, VersionVector}
use stromadb.Query.Expand.{expand}
use stromadb.Ir.{
  AnnBackend, Principal, Traverser, Source, Transform, Pipeline, can_see_label, seen_by, is_of_type,
  authorized, cap, ones_for, expand_ids, keep_typed, transformed, run_transforms, scope_of, scored,
  sourced, run, keep_node,
}
use stromadb.Ir.Float.{F32, is_nan}
use stromadb.Ir.Float.Numbers.{relevance_number}
use stromadb.Ir.Good.{
  IsGood, cap-IsGood, ones_for-IsGood, filter_ok_total, push_new_total, filtered-IsGood,
  keep_top-IsGood,
}

-- A search whose test does not panic does not panic either, and returns nodes that pass the test, at
-- distances that are numbers.
pub record IsScoped (vector : AnnBackend) : Type 0 where
  pub scoped :
      (q : List F32) (k : ℕ) (scope : Option ℕ) (keep : NodeId → Option Bool) (pass : NodeId → Bool)
      → ((n : NodeId) → keep n ≡ some (pass n))
      → (hits : List (NodeId × F32)) × (vector.ann_search q k scope keep ≡ some hits)
        × All (λ h. (pass h.0 ≡ true) × (is_nan h.1 ≡ false)) hits

All-map :
    {A : Type 0} (P Q : A → Type 0) (xs : List A) → ((x : A) → P x → Q x) → All P xs → All Q xs
All-map P Q [] f a = tt
All-map P Q (x ∷ xs) f a = (f x a.0, All-map P Q xs f a.1)

module _ (facts : Facts) (principal : Principal) (fit : LabelsFit facts.underlying) where
  abbrev seen : NodeId → Option Bool
  seen = authorized facts.underlying principal

  abbrev may_see : NodeId → Bool
  may_see n = unwrap_or (seen n) false

  -- The test of a node does not panic.
  seen_total : (n : NodeId) → seen n ≡ some (may_see n)
  unfolding authorized
  seen_total n = labeled (get n facts.underlying.node_labels) (λ l e. fit n l e)
    where
      labeled :
          (o : Option ℕ)
          → ((l : ℕ) → o ≡ some l → l < 32)
          → seen_by principal o ≡ some (unwrap_or (seen_by principal o) false)
      labeled none h = refl
      labeled (some l) h = rw (lt→ltb l 32 (h l refl)) refl

  -- A node that passes it is public, or the principal has the bit of its label.
  may_see-MaySee :
      (n : NodeId) → may_see n ≡ true → MaySee facts.underlying principal.allowed_labels n
  unfolding authorized can_see_label
  may_see-MaySee n p l e = (==_iff (principal.allowed_labels / 2 ^ l % 2) 1).0 (
      sym (ap (λ o. unwrap_or (seen_by principal o) false) e ∙ rw (lt→ltb l 32 (fit n l e)) refl)
      ∙ p)

  expand_ids_total :
      (predicate : FieldId) (ids next : List NodeId)
      → All (λ n. may_see n ≡ true) next
      → (out : List NodeId) × (expand_ids facts seen predicate ids next ≡ some out)
        × All (λ n. may_see n ≡ true) out
  expand_ids_total predicate [] next a = (next, refl, a)
  expand_ids_total predicate (s ∷ ss) next a =
      let (more, e, b) =
        push_new_total seen may_see seen_total (keys (expand facts s predicate)) next a in
      let (out, f, c) = expand_ids_total predicate ss more b in (out, rw e f, c)

  transformed-IsGood :
      (t : Transform) (out : List NodeId × List F32)
      → IsGood may_see out
      → (next : List NodeId × List F32) × (transformed facts principal t out ≡ some next)
        × IsGood may_see next
  unfolding transformed
  transformed-IsGood (Transform.expand_over predicate) (ids, scores) h =
      let (next, e, a) = expand_ids_total predicate ids [] tt in
      ((next, ones_for next), rw e refl, ones_for-IsGood may_see next a)
  transformed-IsGood (Transform.top_k k) (ids, scores) h = keep_top-IsGood may_see k ids scores h
  transformed-IsGood (Transform.filter_by f) (ids, scores) h =
      filtered-IsGood may_see (keep_node facts f) ids scores h

  run_transforms-IsGood :
      (max_nodes : ℕ) (ts : List Transform) (out : List NodeId × List F32)
      → IsGood may_see out
      → length out.0 ≤ max_nodes
      → (last : List NodeId × List F32) × (run_transforms facts principal max_nodes ts out
          ≡ some last)
        × IsGood may_see last
        × (length last.0 ≤ max_nodes)
  run_transforms-IsGood max_nodes [] out h l = (out, refl, h, l)
  run_transforms-IsGood max_nodes (t ∷ ts) out h l =
      let (next, e, g) = transformed-IsGood t out h in
      let (c, b) = cap-IsGood may_see max_nodes next g in
      let (last, f, i, m) = run_transforms-IsGood max_nodes ts (cap max_nodes next) c b in
      (last, rw e f, i, m)

  scored-IsGood :
      (more : NodeId → Bool) (hits : List (NodeId × F32))
      → All (λ h. ((may_see h.0 && more h.0) ≡ true) × (is_nan h.1 ≡ false)) hits
      → IsGood may_see (scored hits)
  scored-IsGood more [] a = record { parallel = refl; nodes = tt; numbers = tt }
  scored-IsGood more ((n, d) ∷ hits) a =
      let rest = scored-IsGood more hits a.1 in
      record {
        parallel = omega (arith, rest.parallel);
        nodes = (ground (arith, a.0.0), rest.nodes);
        numbers = (relevance_number d a.0.1, rest.numbers);
      }

  keep_typed_total :
      (ty : FieldId) (n : NodeId)
      → keep_typed facts.underlying principal ty n
        ≡ some (may_see n && is_of_type facts.underlying ty n)
  keep_typed_total ty n =
      ap (λ o. o >>= λ b. some (b && is_of_type facts.underlying ty n)) (seen_total n)

  sourced-IsGood :
      (vector : AnnBackend) (mode : ReadMode) (vv : VersionVector) (source : Source)
      → IsScoped vector
      → (from : List NodeId × List F32) × (sourced facts vector mode principal vv source
          ≡ some from)
        × IsGood may_see from
  unfolding sourced
  sourced-IsGood vector mode vv (Source.point subjects) lawful =
      let (ids, e, a) = filter_ok_total seen may_see seen_total subjects in
      ((ids, ones_for ids), rw e refl, ones_for-IsGood may_see ids a)
  sourced-IsGood vector mode vv (Source.type_ann q ty k) lawful =
      let (hits, e, a) =
        lawful.scoped q k (scope_of mode vv) (keep_typed facts.underlying principal ty)
          (λ n. may_see n && is_of_type facts.underlying ty n) (keep_typed_total ty) in
      (scored hits, rw e refl, scored-IsGood (is_of_type facts.underlying ty) hits a)

-- Where every label of a node is below 32 and the vector backend returns, for a test that does not
-- panic, nodes that pass it at distances that are not NaN, every pipeline runs without a panic, and
-- returns at most its number of nodes, each without a label or with one whose bit the principal has, as
-- many scores, and the version vector of the read.
pub run_lem :
    (facts : Facts) (vector : AnnBackend) (pipeline : Pipeline) (principal : Principal)
    (vv : VersionVector)
    → LabelsFit facts.underlying
    → IsScoped vector
    → (t : Traverser) × (run facts vector pipeline principal vv ≡ some t)
      × All (MaySee facts.underlying principal.allowed_labels) t.ids
      × (length t.ids ≤ pipeline.max_nodes)
      × (length t.scores ≡ length t.ids)
      × (t.as_of ≡ vv)
unfolding run
run_lem facts vector pipeline principal vv fit lawful =
    let pass = may_see facts principal fit in
    let (from, d, start) =
      sourced-IsGood facts principal fit vector pipeline.mode vv pipeline.source lawful in
    let (good, few) = cap-IsGood pass pipeline.max_nodes from start in
    let (last, e, h, l) =
      run_transforms-IsGood facts principal fit pipeline.max_nodes pipeline.transforms
        (cap pipeline.max_nodes from) good few in
    (
      record { ids = last.0; scores = last.1; as_of = vv },
      rw (d, e) refl,
      All-map _ _ last.0 (may_see-MaySee facts principal fit) h.nodes,
      l,
      h.parallel,
      refl,
    )
