-- ===== src/Query/Closure/Relation.antt =====
-- crates/stroma-core/src/query.rs, `expand_rel_at` against the relation that a predicate's properties
-- declare.
use mathlib.Core.Path.{subst}
use mathlib.Core.Option.{some-injective}
use stromadb.Base.{
  ℕ, suc, ◌≤◌, ◌≡◌, ◌↔◌, ◌⊎◌, refl, sym, arith, Bool, true, false, Option, none, some, [], inl, inr,
}
use stromadb.Base.Int.{ℤ}
use stromadb.Base.Tests.{if◌then◌else◌, map_option}
use stromadb.Base.Map.{BTreeSet, get_or, keys}
use stromadb.Base.Map.Entries.{elem-keys, contains-extend}
use stromadb.Base.Order.{nat_ord}
use stromadb.Fact.{FieldId, NodeId}
use stromadb.Catalog.{Catalog, RelProps}
use stromadb.Mask.{Facts}
use stromadb.Query.Expand.{Reverse}
use stromadb.Query.Closure.{
  hop, rev_of, props_of, extend_back, then_some, rel_step, closure, expand_with, expand_rel_at,
}
use stromadb.Query.Closure.Walks.{In, Walk, closure_iff}
use stromadb.Query.Backward.{reverse_adjacency_iff, reverse_adjacency_asof_iff}
use stromadb.Query.Pointers.{IsLawful, Back}

extend_back-some :
    (rev : Reverse) (u v : NodeId) (out : BTreeSet NodeId)
    → In v (extend_back (some rev) u out) ↔ (Back u v rev ⊎ In v out)
extend_back-some rev u v out =
    ground (arith, contains-extend v (keys (get_or [] u rev)) out, elem-keys v (get_or [] u rev))

module _ (snap : Facts) (at : Option ℤ) (p : FieldId) (props : RelProps) where
  -- One step: along the predicate, against it if it is symmetric, or against its inverse.
  abbrev pub RelStep : NodeId → NodeId → Type 0
  RelStep u v =
      In v (hop snap at u p)
      ⊎ ((props.symmetric ≡ true) × In u (hop snap at v p))
      ⊎ ((q : FieldId) × (props.inverse ≡ some q) × In u (hop snap at v q))

  -- A walk of a number of steps, of one at least.
  pub data RelWalk (subject : NodeId) : ℕ → NodeId → Type 0 where
    first : {v : NodeId} → RelStep subject v → RelWalk subject 1 v
    onward : {k : ℕ} {u v : NodeId} → RelWalk subject k u → RelStep u v → RelWalk subject (suc k) v

  -- What the expansion of a node finds within a depth: the ends of walks for a transitive predicate,
  -- of single steps for another.
  abbrev pub Related : NodeId → ℕ → NodeId → Type 0
  Related subject depth v =
      if props.transitive then ((k : ℕ) × (k ≤ depth) × RelWalk subject k v) else RelStep subject v

  module _ (lawful : IsLawful snap) where
    rev_of_iff : (q : FieldId) (u v : NodeId) → Back u v (rev_of snap at q) ↔ In u (hop snap at v q)
    rev_of_iff q u v = back at
      where
        back : (i : Option ℤ) → Back u v (rev_of snap i q) ↔ In u (hop snap i v q)
        back none = reverse_adjacency_iff snap lawful q u v
        back (some t) = reverse_adjacency_asof_iff snap lawful q t u v

    -- The set after the symmetric step.
    abbrev along : NodeId → Bool → BTreeSet NodeId
    along u b = extend_back (then_some b (rev_of snap at p)) u (hop snap at u p)

    along_iff :
        (u v : NodeId) (b : Bool)
        → In v (along u b) ↔ (In v (hop snap at u p) ⊎ ((b ≡ true) × In u (hop snap at v p)))
    along_iff u v true =
        ground (arith, extend_back-some (rev_of snap at p) u v (hop snap at u p), rev_of_iff p u v)
    along_iff u v false = ground arith

    against_iff :
        (u v : NodeId) (inverse : Option FieldId) (out : BTreeSet NodeId)
        → In v (extend_back (map_option (rev_of snap at) inverse) u out)
          ↔ (In v out ⊎ ((q : FieldId) × (inverse ≡ some q) × In u (hop snap at v q)))
    against_iff u v none out =
        (λ h. inl h, λ h. elim h [ inl i ↦ i | inr (q, e, i) ↦ absurd (cc e) ])
    against_iff u v (some q) out =
        let some_iff = extend_back-some (rev_of snap at q) u v out in
        (
          λ h. elim (some_iff.0 h) [
            | inl b ↦ inr (q, refl, (rev_of_iff q u v).0 b)
            | inr i ↦ inl i
          ],
          λ h. some_iff.1 (elim h [
            | inl i ↦ inr i
            | inr (r, e, i) ↦ inl (
                (rev_of_iff q u v).1
                  (subst (λ x. In u (hop snap at v x)) (sym (some-injective _ _ e)) i))
          ]),
        )

    rel_step_iff : (u v : NodeId) → In v (rel_step snap at p props u) ↔ RelStep u v
    unfolding rel_step
    rel_step_iff u v =
        let inverse = against_iff u v props.inverse (along u props.symmetric) in
        let forward = along_iff u v props.symmetric in
        (
          λ h. elim (inverse.0 h) [
            | inl i ↦ elim (forward.0 i) [ inl f ↦ inl f | inr b ↦ inr (inl b) ]
            | inr b ↦ inr (inr b)
          ],
          λ h. inverse.1 (elim h [
            | inl f ↦ inl (forward.1 (inl f))
            | inr (inl b) ↦ inl (forward.1 (inr b))
            | inr (inr b) ↦ inr b
          ]),
        )

    RelWalk-of :
        {subject v : NodeId} {k : ℕ}
        → Walk (rel_step snap at p props) subject k v
        → RelWalk subject k v
    RelWalk-of (Walk.first {v = v} s) = first ((rel_step_iff _ v).0 s)
    RelWalk-of (Walk.onward {u = u} {v = v} w s) = onward (RelWalk-of w) ((rel_step_iff u v).0 s)

    Walk-of :
        {subject v : NodeId} {k : ℕ}
        → RelWalk subject k v
        → Walk (rel_step snap at p props) subject k v
    Walk-of (first {v = v} s) = Walk.first ((rel_step_iff _ v).1 s)
    Walk-of (onward {u = u} {v = v} w s) = Walk.onward (Walk-of w) ((rel_step_iff u v).1 s)

    walks_iff :
        (subject : NodeId) (depth : ℕ) (v : NodeId)
        → In v (closure (rel_step snap at p props) subject depth)
          ↔ ((k : ℕ) × (k ≤ depth) × RelWalk subject k v)
    walks_iff subject depth v =
        let found = closure_iff (rel_step snap at p props) subject depth v in
        (
          λ h. let (k, le, w) = found.0 h in (k, le, RelWalk-of w),
          λ x. found.1 (x.0, x.1, Walk-of x.2),
        )

    -- Without properties a step is a hop.
    plain :
        (u v : NodeId)
        → props.symmetric ≡ false
        → props.inverse ≡ none
        → RelStep u v
        → In v (hop snap at u p)
    plain u v a b (inl h) = h
    plain u v a b (inr (inl (e, h))) = absurd (cc (a, e))
    plain u v a b (inr (inr (q, e, h))) = absurd (cc (b, e))

module _ (snap : Facts) (lawful : IsLawful snap) (at : Option ℤ) (p : FieldId) (subject : NodeId)
    (depth : ℕ) (v : NodeId) where
  abbrev declared : Bool → Bool → Option FieldId → RelProps
  declared symmetric transitive inverse = record {
    symmetric = symmetric;
    transitive = transitive;
    inverse = inverse;
  }

  expand_with_iff :
      (symmetric transitive : Bool) (inverse : Option FieldId)
      → In v (expand_with snap at p (declared symmetric transitive inverse) subject depth)
        ↔ Related snap at p (declared symmetric transitive inverse) subject depth v
  unfolding expand_with
  expand_with_iff true true i = walks_iff snap at p (declared true true i) lawful subject depth v
  expand_with_iff false true i = walks_iff snap at p (declared false true i) lawful subject depth v
  expand_with_iff true false i = rel_step_iff snap at p (declared true false i) lawful subject v
  expand_with_iff false false (some q) =
      rel_step_iff snap at p (declared false false (some q)) lawful subject v
  expand_with_iff false false none =
      (λ h. inl h, plain snap at p (declared false false none) lawful subject v refl refl)

-- The expansion of a node over a predicate, now or as of an instant, finds exactly the nodes that the
-- predicate with its declared properties relates it to within the depth, for lawful reads.
pub expand_rel_at_iff :
    (snap : Facts) (cat : Catalog) (subject : NodeId) (p : FieldId) (depth : ℕ) (at : Option ℤ)
    (v : NodeId)
    → IsLawful snap
    → In v (expand_rel_at snap cat subject p depth at)
      ↔ Related snap at p (props_of cat p) subject depth v
unfolding expand_rel_at
expand_rel_at_iff snap cat subject p depth at v lawful =
    let props = props_of cat p in
    expand_with_iff snap lawful at p subject depth v props.symmetric props.transitive props.inverse
