-- ===== src/Query/Adjacency/Edges.antt =====
-- crates/stroma-core/src/query.rs, `undirected_adjacency`: what the visits of the edges link.
use mathlib.Core.Path.{subst}
use mathlib.Core.Option.{some-injective}
use stromadb.Base.{
  ◌≡◌, ◌↔◌, ◌⊎◌, refl, sym, ap, ◌∙◌, arith, true, Option, none, some, List, [], ◌∷◌, inl, inr,
}
use stromadb.Base.Tests.{Bool-cases}
use stromadb.Base.Map.{BTreeSet, get_or, keys, contains, set_insert, get-insert}
use stromadb.Base.Map.Entries.{elem, elem-keys}
use stromadb.Base.Order.{is_eq, is_eq→eq, is_eq_refl, nat_ord, pair_ord}
use stromadb.Fact.{FieldId, NodeId}
use stromadb.Fold.Keys.{ObjKey, obj_ord}
use stromadb.Fold.State.{Key}
use stromadb.Query.Pointers.{Among}
use stromadb.Query.Adjacency.{
  admits, Adjacency, add_link, link, edge_of, edges_of, edge_found, edge_ones, edge_manys,
}

-- Two nodes are linked.
abbrev pub Linked : NodeId → NodeId → Adjacency → Type 0
Linked a b adj = contains b (get_or [] a adj) ≡ true

-- One of the two is the subject and the other the object.
abbrev pub Joins : NodeId → NodeId → NodeId → NodeId → Type 0
Joins a b s n = ((a ≡ s) × (b ≡ n)) ⊎ ((a ≡ n) × (b ≡ s))

add_link_iff :
    (a b s n : NodeId) (adj : Adjacency)
    → Linked a b (add_link s n adj) ↔ (((a ≡ s) × (b ≡ n)) ⊎ Linked a b adj)
add_link_iff a b s n adj = ground (
  arith,
  get-insert a s (set_insert n (get_or [] s adj)) adj,
  get-insert b n tt (get_or [] s adj),
)

link_iff :
    (a b s n : NodeId) (adj : Adjacency)
    → Linked a b (link s n adj) ↔ (Joins a b s n ⊎ Linked a b adj)
link_iff a b s n adj =
    ground (arith, add_link_iff a b n s (add_link s n adj), add_link_iff a b s n adj)

-- The program's closure for an edge of these reads.
abbrev pub each_link : NodeId → NodeId → FieldId → Adjacency → Adjacency
each_link s n p adj = link s n adj

module _ (a b : NodeId) where
  other :
      {A : Type 0} {P : NodeId → A} {obj : A} (k : NodeId) (adj : Adjacency)
      → ((n : NodeId) → obj ≡ P n → ⊥)
      → Linked a b adj ↔ (((n : NodeId) × (obj ≡ P n) × Joins a b k n) ⊎ Linked a b adj)
  other k adj never = (λ x. inr x, λ x. elim x [ inl (n, e, j) ↦ absurd (never n e) | inr l ↦ l ])

  edge_of_iff :
      (k : Key) (obj : ObjKey) (adj : Adjacency)
      → Linked a b (edge_of each_link k obj adj)
        ↔ (((n : NodeId) × (obj ≡ ObjKey.node n) × Joins a b k.0 n) ⊎ Linked a b adj)
  edge_of_iff k (ObjKey.node n) adj =
      let (into, out) = link_iff a b k.0 n adj in
      (
        λ x. elim (into x) [ inl j ↦ inl (n, refl, j) | inr l ↦ inr l ],
        λ x. out (elim x [
          | inl (m, e, j) ↦ inl (subst (Joins a b k.0) (same_node m n (sym e)) j)
          | inr l ↦ inr l
        ]),
      )
    where
      same_node : (m n : NodeId) → ObjKey.node m ≡ ObjKey.node n → m ≡ n
      same_node m n e = cc e
  edge_of_iff k (ObjKey.int i) adj = other k.0 adj (λ n e. cc e)
  edge_of_iff k (ObjKey.float i) adj = other k.0 adj (λ n e. cc e)
  edge_of_iff k (ObjKey.text i) adj = other k.0 adj (λ n e. cc e)
  edge_of_iff k (ObjKey.boolean i) adj = other k.0 adj (λ n e. cc e)

  edges_of_iff :
      (k : Key) (os : List ObjKey) (adj : Adjacency)
      → Linked a b (edges_of each_link k os adj)
        ↔ (((n : NodeId) × (elem (ObjKey.node n) os ≡ true) × Joins a b k.0 n) ⊎ Linked a b adj)
  edges_of_iff k [] adj = (λ x. inr x, λ x. elim x [ inl (n, e, j) ↦ absurd (cc e) | inr l ↦ l ])
  edges_of_iff k (obj ∷ os) adj =
      let (into, out) = edges_of_iff k os (edge_of each_link k obj adj) in
      let (first, put) = edge_of_iff k obj adj in
      (
        λ x. elim (into x) [
          | inl (n, e, j) ↦ inl (n, ground (arith, e), j)
          | inr l ↦ elim (first l) [
            | inl (n, e, j) ↦ inl (n, ground (arith, e, is_eq_refl (ObjKey.node n)), j)
            | inr old ↦ inr old
          ]
        ],
        λ x. out (elim x [
          | inl (n, e, j) ↦ elim (Bool-cases (is_eq (ObjKey.node n) obj)) [
            | inl same ↦ inr (put (inl (n, sym (is_eq→eq (ObjKey.node n) obj same), j)))
            | inr ne ↦ inl (n, ground (arith, ne, e), j)
          ]
          | inr l ↦ inr (put (inr l))
        ]),
      )

  -- An edge among the entries that a visit lists, over a predicate that is admitted.
  abbrev OneEdge : Option FieldId → List (Key × Option ObjKey) → Type 0
  OneEdge predicate ones =
      (k : Key) × (n : NodeId) × Among (k, some (ObjKey.node n)) ones
      × (admits predicate k.1 ≡ true)
      × Joins a b k.0 n

  abbrev ManyEdge : Option FieldId → List (Key × BTreeSet ObjKey) → Type 0
  ManyEdge predicate manys =
      (k : Key) × (set : BTreeSet ObjKey) × (n : NodeId) × Among (k, set) manys
      × (contains (ObjKey.node n) set ≡ true)
      × (admits predicate k.1 ≡ true)
      × Joins a b k.0 n

  edge_found_iff :
      (k : Key) (v : Option ObjKey) (adj : Adjacency)
      → Linked a b (edge_found each_link k v adj)
        ↔ (((n : NodeId) × (v ≡ some (ObjKey.node n)) × Joins a b k.0 n) ⊎ Linked a b adj)
  edge_found_iff k none adj = other k.0 adj (λ n e. cc e)
  edge_found_iff k (some obj) adj =
      let (into, out) = edge_of_iff k obj adj in
      (
        λ x. elim (into x) [ inl (n, e, j) ↦ inl (n, ap some e, j) | inr l ↦ inr l ],
        λ x. out (elim x [ inl (n, e, j) ↦ inl (n, some-injective _ _ e, j) | inr l ↦ inr l ]),
      )

  pub edge_ones_iff :
      (predicate : Option FieldId) (ones : List (Key × Option ObjKey)) (adj : Adjacency)
      → Linked a b (edge_ones each_link predicate ones adj)
        ↔ (OneEdge predicate ones ⊎ Linked a b adj)
  edge_ones_iff predicate [] adj =
      (λ x. inr x, λ x. elim x [ inl (k, n, m, e, j) ↦ absurd m | inr l ↦ l ])
  edge_ones_iff predicate ((k, v) ∷ ones) adj = elim (Bool-cases (admits predicate k.1)) [
    | inl e ↦
        let (into, out) = edge_ones_iff predicate ones (edge_found each_link k v adj) in
        let (first, put) = edge_found_iff k v adj in
        rw e (
          λ x. elim (into x) [
            | inl (h, n, m, f, j) ↦ inl (h, n, inr m, f, j)
            | inr l ↦ elim (first l) [
              | inl (n, g, j) ↦ inl (k, n, inl (λ i. (k, g i)), e, j)
              | inr old ↦ inr old
            ]
          ],
          λ x. out (elim x [
            | inl (h, n, inl same, f, j) ↦ inr (
                put (
                  inl (
                    n,
                    ap (λ y. y.1) same,
                    subst (λ y. Joins a b y n) (sym (ap (λ y. y.0.0) same)) j,
                  )))
            | inl (h, n, inr m, f, j) ↦ inl (h, n, m, f, j)
            | inr old ↦ inr (put (inr old))
          ]),
        )
    | inr e ↦
        let (into, out) = edge_ones_iff predicate ones adj in
        rw e (
          λ x. elim (into x) [ inl (h, n, m, f, j) ↦ inl (h, n, inr m, f, j) | inr old ↦ inr old ],
          λ x. out (elim x [
            | inl (h, n, inl same, f, j) ↦ absurd (cc (e, f, ap (λ y. admits predicate y.0.1) same))
            | inl (h, n, inr m, f, j) ↦ inl (h, n, m, f, j)
            | inr old ↦ inr old
          ]),
        )
  ]

  pub edge_manys_iff :
      (predicate : Option FieldId) (manys : List (Key × BTreeSet ObjKey)) (adj : Adjacency)
      → Linked a b (edge_manys each_link predicate manys adj)
        ↔ (ManyEdge predicate manys ⊎ Linked a b adj)
  edge_manys_iff predicate [] adj =
      (λ x. inr x, λ x. elim x [ inl (k, s, n, m, c, e, j) ↦ absurd m | inr l ↦ l ])
  edge_manys_iff predicate ((k, set) ∷ manys) adj = elim (Bool-cases (admits predicate k.1)) [
    | inl e ↦
        let (into, out) = edge_manys_iff predicate manys (edges_of each_link k (keys set) adj) in
        let (first, put) = edges_of_iff k (keys set) adj in
        rw e (
          λ x. elim (into x) [
            | inl (h, s, n, m, c, f, j) ↦ inl (h, s, n, inr m, c, f, j)
            | inr l ↦ elim (first l) [
              | inl (n, g, j) ↦
                  inl (k, set, n, inl refl, sym (elem-keys (ObjKey.node n) set) ∙ g, e, j)
              | inr old ↦ inr old
            ]
          ],
          λ x. out (elim x [
            | inl (h, s, n, inl same, c, f, j) ↦ inr (
                put (
                  inl (
                    n,
                    elem-keys (ObjKey.node n) set ∙ ap (λ y. contains (ObjKey.node n) y.1) same ∙ c,
                    subst (λ y. Joins a b y n) (sym (ap (λ y. y.0.0) same)) j,
                  )))
            | inl (h, s, n, inr m, c, f, j) ↦ inl (h, s, n, m, c, f, j)
            | inr old ↦ inr (put (inr old))
          ]),
        )
    | inr e ↦
        let (into, out) = edge_manys_iff predicate manys adj in
        rw e (
          λ x. elim (into x) [
            | inl (h, s, n, m, c, f, j) ↦ inl (h, s, n, inr m, c, f, j)
            | inr old ↦ inr old
          ],
          λ x. out (elim x [
            | inl (h, s, n, inl same, c, f, j) ↦
                absurd (cc (e, f, ap (λ y. admits predicate y.0.1) same))
            | inl (h, s, n, inr m, c, f, j) ↦ inl (h, s, n, m, c, f, j)
            | inr old ↦ inr old
          ]),
        )
  ]
