-- ===== src/Query/Closure/Walks.antt =====
-- crates/stroma-core/src/query.rs, `expand_rel_at`: the loop against walks of a bounded length.
use stromadb.Base.{
  ℕ, zero, suc, ◌+◌, ◌≤◌, ◌≡◌, ◌↔◌, ◌⊎◌, refl, ◌∙◌, arith, Bool, true, false, not, ◌&&◌, ◌||◌, List,
  [], ◌∷◌, inl, inr,
}
use stromadb.Base.Tests.{Bool-cases}
use stromadb.Base.Lists.{any, is_empty}
use stromadb.Base.Map.{
  BTreeSet, get, keys, retain, contains, set_insert, extend, get-insert, get-retain,
}
use stromadb.Base.Map.Entries.{elem, elem-keys, contains-extend}
use stromadb.Base.Order.{is_eq_refl, nat_ord}
use stromadb.Fact.{NodeId}
use stromadb.Query.Closure.{insert_new, steps, walk, closure}

abbrev pub In : NodeId → BTreeSet NodeId → Type 0
In v s = contains v s ≡ true

-- The set holds the nodes and those it held.
contains-insert_new :
    (v : NodeId) (ns : List NodeId) (result : BTreeSet NodeId)
    → contains v (insert_new ns result).1 ≡ (elem v ns || contains v result)
contains-insert_new v [] result = refl
contains-insert_new v (n ∷ ns) result = ground (
  arith,
  contains-insert_new v ns (set_insert n result),
  get-insert v n tt result,
  nat_ord.flipped n v,
)

-- The new nodes are those that the set did not hold.
elem-insert_new :
    (v : NodeId) (ns : List NodeId) (result : BTreeSet NodeId)
    → elem v (insert_new ns result).0 ≡ (elem v ns && not (contains v result))
elem-insert_new v [] result = refl
elem-insert_new v (n ∷ ns) result = ground (
  arith,
  elem-insert_new v ns (set_insert n result),
  get-insert v n tt result,
  nat_ord.flipped n v,
  nat_ord.equal n v,
)

elem-empty : (v : NodeId) (ns : List NodeId) → is_empty ns ≡ true → elem v ns ≡ false
elem-empty v [] h = refl
elem-empty v (n ∷ ns) h = cc

module _ (step : NodeId → BTreeSet NodeId) where
  contains-steps :
      (v : NodeId) (ns : List NodeId) (next : BTreeSet NodeId)
      → contains v (steps step ns next) ≡ (any (λ n. contains v (step n)) ns || contains v next)
  contains-steps v [] next = refl
  contains-steps v (n ∷ ns) next = ground (
    arith,
    contains-steps v ns (extend (keys (step n)) next),
    contains-extend v (keys (step n)) next,
    elem-keys v (step n),
  )

  any-elem :
      (p : NodeId → Bool) (ns : List NodeId)
      → any p ns ≡ true
      → (n : NodeId) × (elem n ns ≡ true) × (p n ≡ true)
  any-elem p [] h = cc
  any-elem p (m ∷ ns) h = elim (Bool-cases (p m)) [
    | inl e ↦ (m, ground (arith, is_eq_refl m), e)
    | inr e ↦ let (n, i, q) = any-elem p ns (ground arith) in (n, ground arith, q)
  ]

  elem-any :
      (p : NodeId → Bool) (n : NodeId) (ns : List NodeId)
      → elem n ns ≡ true
      → p n ≡ true
      → any p ns ≡ true
  elem-any p n [] h q = cc
  elem-any p n (m ∷ ns) h q = ground (arith, elem-any p n ns, nat_ord.equal n m)

  -- The walks of a number of steps.
  pub data Walk (subject : NodeId) : ℕ → NodeId → Type 0 where
    first : {v : NodeId} → In v (step subject) → Walk subject 1 v
    onward : {k : ℕ} {u v : NodeId} → Walk subject k u → In v (step u) → Walk subject (suc k) v

  -- What the loop keeps: `result` and `current` hold nodes that at most `hops` steps lead to, they
  -- hold all of them, and the steps from `result` stay within both.
  record Inv (subject : NodeId) (hops : ℕ) (current result : BTreeSet NodeId) : Type 0 where
    pub started : 1 ≤ hops
    pub sound : (v : NodeId) → In v result ⊎ In v current → (k : ℕ) × (k ≤ hops) × Walk subject k v
    pub closed : (u v : NodeId) → In u result → In v (step u) → In v result ⊎ In v current
    pub deep : (k : ℕ) (v : NodeId) → Walk subject k v → k ≤ hops → In v result ⊎ In v current

  whole_iff :
      (current result : BTreeSet NodeId) (v : NodeId)
      → In v (insert_new (keys current) result).1 ↔ (In v result ⊎ In v current)
  whole_iff current result v =
      ground (arith, contains-insert_new v (keys current) result, elem-keys v current)

  -- Without a new node, `current` is within `result`.
  current-result :
      (current result : BTreeSet NodeId) (v : NodeId)
      → is_empty (insert_new (keys current) result).0 ≡ true
      → In v current
      → In v result
  current-result current result v h c = elim (Bool-cases (contains v result)) [
    | inl e ↦ e
    | inr e ↦ absurd (
        ground (
          arith,
          elem-insert_new v (keys current) result,
          elem-keys v current,
          elem-empty v (insert_new (keys current) result).0 h,
        ))
  ]

  module _ (subject : NodeId) where
    walked :
        (hops : ℕ) (current result : BTreeSet NodeId)
        → Inv subject hops current result
        → ((v : NodeId) → In v current → In v result)
        → {k : ℕ} {v : NodeId} → Walk subject k v
        → In v result
    walked hops current result i within (first {v} s) = elim (i.deep 1 v (first s) i.started) [
      | inl r ↦ r
      | inr c ↦ within v c
    ]
    walked hops current result i within (onward {k} {u} {v} w s) =
        elim (i.closed u v (walked hops current result i within w) s) [
          | inl r ↦ r
          | inr c ↦ within v c
        ]

    abbrev next_current : BTreeSet NodeId → BTreeSet NodeId → BTreeSet NodeId
    next_current current result =
        let (newly, whole) = insert_new (keys current) result in
        retain (λ v. not (contains v whole)) (steps step newly [])

    contains-next_current :
        (current result : BTreeSet NodeId) (v : NodeId)
        → contains v (next_current current result) ≡ (
            any (λ n. contains v (step n)) (insert_new (keys current) result).0
            && not (contains v (insert_new (keys current) result).1))
    contains-next_current current result v = ground (
      arith,
      get-retain (λ v. not (contains v (insert_new (keys current) result).1)) v
          (steps step (insert_new (keys current) result).0 []),
      contains-steps v (insert_new (keys current) result).0 [],
      nothing v,
    )
      where
        nothing : (v : NodeId) → contains v ([]) ≡ false
        nothing v = unfold get in refl

    -- A node of the next turn is one step from a new node.
    from_new :
        (current result : BTreeSet NodeId) (v : NodeId)
        → In v (next_current current result)
        → (n : NodeId) × In n current × In v (step n)
    from_new current result v h =
        let (n, new, s) =
          any-elem (λ n. contains v (step n)) (insert_new (keys current) result).0
            (ground (arith, contains-next_current current result v)) in
        (n, ground (arith, elem-insert_new n (keys current) result, elem-keys n current), s)

    -- A step from `current` stays within the set of all or is in the next turn.
    covered :
        (current result : BTreeSet NodeId) (u v : NodeId)
        → In u current
        → contains u result ≡ false
        → In v (step u)
        → In v (insert_new (keys current) result).1 ⊎ In v (next_current current result)
    covered current result u v c e s =
        elim (Bool-cases (contains v (insert_new (keys current) result).1)) [
          | inl w ↦ inl w
          | inr w ↦ inr (
              contains-next_current current result v
              ∙ rw
                  (
                    elem-any (λ n. contains v (step n)) u (insert_new (keys current) result).0
                        (ground
                          (arith, elem-insert_new u (keys current) result, elem-keys u current))
                        s,
                    w,
                  )
                  refl)
        ]

    closed-next :
        (hops : ℕ) (current result : BTreeSet NodeId)
        → Inv subject hops current result
        → (u v : NodeId) → In u (insert_new (keys current) result).1
        → In v (step u)
        → In v (insert_new (keys current) result).1 ⊎ In v (next_current current result)
    closed-next hops current result i u v w s = elim (Bool-cases (contains u result)) [
      | inl e ↦ inl ((whole_iff current result v).1 (i.closed u v e s))
      | inr e ↦ elim ((whole_iff current result u).0 w) [
        | inl r ↦ absurd (cc (r, e))
        | inr c ↦ covered current result u v c e s
      ]
    ]

    -- One turn of the loop.
    Inv-next :
        (hops : ℕ) (current result : BTreeSet NodeId)
        → Inv subject hops current result
        → Inv subject (suc hops) (next_current current result) (insert_new (keys current) result).1
    Inv-next hops current result i = record {
      started = omega arith;
      sound = λ v h. elim h [
        | inl w ↦
            let (k, le, walk_to) = i.sound v ((whole_iff current result v).0 w) in
            (k, omega (arith, le), walk_to)
        | inr c ↦
            let (n, here, s) = from_new current result v c in
            let (k, le, walk_to) = i.sound n (inr here) in
            (suc k, omega (arith, le), onward walk_to s)
      ];
      closed = closed-next hops current result i;
      deep = λ k v w le. deep-next k v w le;
    }
      where
        deep-next :
            (k : ℕ) (v : NodeId)
            → Walk subject k v
            → k ≤ suc hops
            → In v (insert_new (keys current) result).1 ⊎ In v (next_current current result)
        deep-next k v (first s) le =
            inl ((whole_iff current result v).1 (i.deep 1 v (first s) i.started))
        deep-next k v (onward {k = j} {u = u} w s) le =
            closed-next hops current result i u v
              ((whole_iff current result u).1 (i.deep j u w (omega (arith, le)))) s

    walk_iff :
        (left hops : ℕ) (current result : BTreeSet NodeId) (v : NodeId)
        → Inv subject hops current result
        → In v (walk step left current result) ↔ ((k : ℕ) × (k ≤ hops + left) × Walk subject k v)
    unfolding walk
    walk_iff zero hops current result v i = (
      λ h.
          let (k, le, w) = i.sound v ((whole_iff current result v).0 h) in
          (k, omega (arith, le), w),
      λ p. (whole_iff current result v).1 (i.deep p.0 v p.2 (omega (arith, p.1))),
    )
    walk_iff (suc left) hops current result v i =
        let rest =
          walk_iff left (suc hops) (next_current current result)
            (insert_new (keys current) result).1 v (Inv-next hops current result i) in
        elim (Bool-cases (is_empty (insert_new (keys current) result).0)) [
          | inr e ↦ rw e (
            λ h. let (k, le, w) = rest.0 h in (k, omega (arith, le), w),
            λ p. rest.1 (p.0, omega (arith, p.1), p.2),
          )
          | inl e ↦ rw e (
            λ h.
                let (k, le, w) = i.sound v ((whole_iff current result v).0 h) in
                (k, omega (arith, le), w),
            λ p. (whole_iff current result v).1 (
                inl
                  (walked hops current result i (λ u c. current-result current result u e c) p.2)),
          )
        ]

    Walk-positive : {k : ℕ} {v : NodeId} → Walk subject k v → 1 ≤ k
    Walk-positive (first s) = omega arith
    Walk-positive (onward w s) = omega (arith, Walk-positive w)

    nowhere : (u : NodeId) → In u [] → ⊥
    unfolding get
    nowhere u r = cc r

    begun : (k : ℕ) (u : NodeId) → Walk subject k u → k ≤ 1 → In u [] ⊎ In u (step subject)
    begun k u (first s) le = inr s
    begun k u (onward w s) le = absurd (omega (arith, le, Walk-positive w))

    Inv-start : Inv subject 1 (step subject) []
    Inv-start = record {
      started = omega arith;
      sound = λ u h. elim h [ inl r ↦ absurd (nowhere u r) | inr c ↦ (1, omega arith, first c) ];
      closed = λ u w r s. absurd (nowhere u r);
      deep = begun;
    }

    -- The closure holds a node if and only if a walk of one step at least and of the greatest depth
    -- at most leads to it.
    pub closure_iff :
        (depth : ℕ) (v : NodeId)
        → In v (closure step subject depth) ↔ ((k : ℕ) × (k ≤ depth) × Walk subject k v)
    unfolding closure
    closure_iff zero v =
        (λ h. absurd (nowhere v h), λ p. absurd (omega (arith, p.1, Walk-positive p.2)))
    closure_iff (suc left) v =
        let (found, kept) = walk_iff left 1 (step subject) [] v Inv-start in
        (
          λ h. let (k, le, w) = found h in (k, omega (arith, le), w),
          λ p. kept (p.0, omega (arith, p.1), p.2),
        )
