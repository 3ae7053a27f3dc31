-- ===== src/Query/Adjacency/Neighbours.antt =====
-- crates/stroma-core/src/query.rs, `undirected_adjacency` against `expand`.
use stromadb.Base.{◌≡◌, ◌↔◌, ◌⊎◌, refl, sym, ap, ◌∙◌, true, Option, none, some, [], inl, inr}
use stromadb.Base.Tests.{◌>>=◌, unwrap_or, Option-cases}
use stromadb.Base.Map.{BTreeSet, get, contains}
use stromadb.Base.Order.{nat_ord, pair_ord}
use stromadb.Fact.{FieldId, NodeId}
use stromadb.Fold.Keys.{ObjKey, obj_ord}
use stromadb.Mask.{Facts}
use stromadb.Query.{point_one, point_many}
use stromadb.Query.Expand.{expand}
use stromadb.Query.Pointers.{Among, IsLawful, values_iff, holds_none}
use stromadb.Query.Adjacency.{admits, edge_ones, undirected_adjacency}
use stromadb.Query.Adjacency.Edges.{Linked, Joins, each_link, edge_ones_iff, edge_manys_iff}

no-Linked : (a b : NodeId) → Linked a b [] → ⊥
unfolding get
no-Linked a b l = cc l

held : {A : Type 0} {a : A} (w : Option (Option A)) → (w >>= λ v. v) ≡ some a → w ≡ some (some a)
held none h = cc
held (some v) h = ap some h

-- An edge from `s` to `n`, by the reads of the two kinds of key.
expand_iff :
    (snap : Facts) (s n : NodeId) (p : FieldId)
    → IsLawful snap
    → (contains n (expand snap s p) ≡ true) ↔ (
        Among ((s, p), some (ObjKey.node n)) (snap.for_each_one (λ k. true))
        ⊎ ((set : BTreeSet ObjKey) × Among ((s, p), set) (snap.for_each_many (λ k. true))
            × (contains (ObjKey.node n) set ≡ true)))
unfolding expand point_one point_many
expand_iff snap s n p lawful =
    let (into, out) = values_iff (point_one snap s p) (point_many snap s p) n in
    (
      λ h. elim (into h) [
        | inl w ↦ inl ((lawful.ones (s, p) _).1 (held (snap.one_value (s, p)) w))
        | inr c ↦ elim (Option-cases (snap.many_set (s, p))) [
          | inl q ↦
              absurd
                (holds_none n (ap (λ x. contains (ObjKey.node n) (unwrap_or x [])) (sym q) ∙ c))
          | inr (set, q) ↦ inr (
            set,
            (lawful.manys (s, p) set).1 q,
            ap (λ x. contains (ObjKey.node n) (unwrap_or x [])) (sym q) ∙ c,
          )
        ]
      ],
      λ x. out (elim x [
        | inl m ↦ inl (ap (λ x. x >>= λ v. v) ((lawful.ones (s, p) _).0 m))
        | inr (set, m, c) ↦ inr (
            ap (λ x. contains (ObjKey.node n) (unwrap_or x [])) ((lawful.manys (s, p) set).0 m) ∙ c)
      ]),
    )

-- Two nodes are adjacent exactly if one is among the neighbours of the other over a predicate that is
-- admitted, for lawful reads.
pub undirected_adjacency_iff :
    (snap : Facts) (predicate : Option FieldId) (a b : NodeId)
    → IsLawful snap
    → Linked a b (undirected_adjacency snap predicate) ↔ (
        (p : FieldId) × (admits predicate p ≡ true)
        × ((contains b (expand snap a p) ≡ true) ⊎ (contains a (expand snap b p) ≡ true)))
unfolding undirected_adjacency
undirected_adjacency_iff snap predicate a b lawful =
    let ones = snap.for_each_one (λ k. true) in
    let (many_in, many_out) =
      edge_manys_iff a b predicate (snap.for_each_many (λ k. true))
        (edge_ones each_link predicate ones []) in
    let (one_in, one_out) = edge_ones_iff a b predicate ones [] in
    (
      λ x. elim (many_in x) [
        | inl (k, set, n, m, c, f, j) ↦
            (k.1, f, joined k.0 n k.1 j ((expand_iff snap k.0 n k.1 lawful).1 (inr (set, m, c))))
        | inr l ↦ elim (one_in l) [
          | inl (k, n, m, f, j) ↦
              (k.1, f, joined k.0 n k.1 j ((expand_iff snap k.0 n k.1 lawful).1 (inl m)))
          | inr empty ↦ absurd (no-Linked a b empty)
        ]
      ],
      λ x. many_out (elim x.2 [
        | inl h ↦ elim ((expand_iff snap a b x.0 lawful).0 h) [
          | inl m ↦ inr (one_out (inl ((a, x.0), b, m, x.1, inl (refl, refl))))
          | inr (set, m, c) ↦ inl ((a, x.0), set, b, m, c, x.1, inl (refl, refl))
        ]
        | inr h ↦ elim ((expand_iff snap b a x.0 lawful).0 h) [
          | inl m ↦ inr (one_out (inl ((b, x.0), a, m, x.1, inr (refl, refl))))
          | inr (set, m, c) ↦ inl ((b, x.0), set, a, m, c, x.1, inr (refl, refl))
        ]
      ]),
    )
  where
    joined :
        (s n : NodeId) (p : FieldId)
        → Joins a b s n
        → contains n (expand snap s p) ≡ true
        → (contains b (expand snap a p) ≡ true) ⊎ (contains a (expand snap b p) ≡ true)
    joined s n p (inl (e, f)) h =
        inl
          (ap (λ x. contains b (expand snap x p)) e ∙ ap (λ x. contains x (expand snap s p)) f ∙ h)
    joined s n p (inr (e, f)) h =
        inr
          (ap (λ x. contains a (expand snap x p)) f ∙ ap (λ x. contains x (expand snap s p)) e ∙ h)
