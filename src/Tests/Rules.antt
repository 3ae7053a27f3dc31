-- ===== src/Tests/Rules.antt =====
-- crates/stroma-core/src/incremental.rs at a concrete rule.
use stromadb.Base.{◌≡◌, refl, arith, not, ◌&&◌, some, [], ◌∷◌, inl, inr}
use stromadb.Base.Tests.{Bool-cases}
use stromadb.Base.Map.{
  BTreeSet, get, contains, contains_key, retain, map_values, get-retain, get-map_values,
}
use stromadb.Base.Order.{is_eq, nat_ord, pair_ord}
use stromadb.Fact.{NodeId}
use stromadb.Fold.Keys.{ObjKey, obj_ord}
use stromadb.Fold.State.{Key}
use stromadb.Fold.Observe.{Snapshot, empty_snapshot}
use stromadb.Live.{between}
use stromadb.Incremental.{CompletenessRule, new_maintained, apply_touched}
use stromadb.Incremental.Recompute.{IsSeeded, Covers, apply_touched-recomputed}

-- A node with a type lacks a value of predicate 2.
abbrev unassigned : CompletenessRule
unassigned = record {
  seed = λ s. retain (λ n. not (contains_key (n, 2) s.one)) (map_values (λ n t. tt) s.node_types);
  candidates = λ s k. k.0 ∷ [];
  holds = λ s n. not (contains_key (n, 2) s.one) && contains_key n s.node_types;
}

abbrev before : Snapshot
before = record empty_snapshot { node_types = (1, 5) ∷ (3, 5) ∷ [] }

abbrev after : Snapshot
after = record before { one = ((1, 2), some (ObjKey.node 9)) ∷ [] }

abbrev assigned : BTreeSet Key
assigned = ((1, 2), tt) ∷ []

unassigned_seeded :
    (s : Snapshot) (n : NodeId) → contains n (unassigned.seed s) ≡ unassigned.holds s n
unassigned_seeded s n = ground (
  arith,
  get-retain {V = Unit {0}} (λ n. not (contains_key (n, 2) s.one)) n
      (map_values (λ n t. tt) s.node_types),
  get-map_values {W = Unit {0}} (λ n t. tt) n s.node_types,
)

before-IsSeeded : IsSeeded unassigned before
before-IsSeeded = record {
  ordered = unfold retain map_values get in ((refl, tt), (tt, tt));
  seeded = unassigned_seeded before;
}

after-IsSeeded : IsSeeded unassigned after
after-IsSeeded = record {
  ordered = unfold retain map_values get in (tt, tt);
  seeded = unassigned_seeded after;
}

-- Only 1 has flipped.
covered : Covers unassigned before after assigned
unfolding get
covered n = elim (Bool-cases (is_eq n 1)) [
  | inl e ↦ inr ((1, 2), refl, ground (arith, e))
  | inr e ↦ inl (ground (arith, e))
]

apply_touched-recomputed_example :
    let (m, diff) = apply_touched (new_maintained unassigned before) after assigned in
    (m ≡ new_maintained unassigned after)
    × (diff ≡ between (unassigned.seed before) (unassigned.seed after))
apply_touched-recomputed_example =
    apply_touched-recomputed unassigned before after assigned before-IsSeeded after-IsSeeded covered
