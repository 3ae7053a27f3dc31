-- ===== src/Engine/Tail.antt =====
-- crates/stroma-core/src/changelog.rs, `replay_range_into_tracked`: the keys and nodes that it
-- returns are all that its records touch.
use mathlib.Core.Option.{some-injective}
use mathlib.Core.Path.{subst}
use stromadb.Base.{
  ℕ, ◌+◌, ◌≡◌, ◌≢◌, refl, sym, ap, ◌∙◌, arith, true, false, Option, none, some, List, [], ◌∷◌, ◌⊎◌,
  inl, inr,
}
use stromadb.Base.Tests.{◌>>=◌, is_some, Bool-cases, Option-cases}
use stromadb.Base.Map.{BTreeSet, keys, get, set_insert, contains, get-insert}
use stromadb.Base.Map.Entries.{elem, elem-keys}
use stromadb.Base.Order.{Ord, is_eq, is_eq_refl, nat_ord, pair_ord}
use stromadb.Fact.{NodeId}
use stromadb.Fold.State.{Key, Fold}
use stromadb.Fold.Apply.{apply_labeled, op_key, node_attr_node}
use stromadb.Fold.Refresh.Observed.{SameAt}
use stromadb.Fold.Refresh.Touched.{apply_labeled-SameAt, apply_labeled-node_attrs}
use stromadb.Changelog.Ops.{
  Record, Changelog, Tracked, replay_range_into_tracked, track, record_to_op, replay_loop,
}

SameAt-trans : (f g h : Fold) (k : Key) → SameAt f g k → SameAt g h k → SameAt f h k
SameAt-trans f g h k a b = record {
  keys = a.keys ∙ b.keys;
  edge_props = a.edge_props ∙ b.edge_props;
  fact_labels = a.fact_labels ∙ b.fact_labels;
}

-- What is not in a set with one more element is another element, and was not in it.
not_inserted {ℓ} :
    {K : Type ℓ} ⦃o : Ord K⦄ (j k : K) (s : BTreeSet K)
    → contains k (set_insert j s) ≡ false
    → (contains k s ≡ false) × (j ≢ k)
not_inserted ⦃o⦄ j k s h = elim (Bool-cases (is_eq j k)) [
  | inl e ↦ absurd (ground (arith, get-insert k j tt s, h, e))
  | inr n ↦ (ground (arith, get-insert k j tt s, h), λ p. ground (arith, n, p, is_eq_refl j))
]

-- `track`, by what `node_attr_node` gives.
abbrev tracked : Option NodeId → Key → Tracked → Tracked
tracked o j t = elim o [
  | some n ↦ record t { nodes = set_insert n t.nodes }
  | none ↦ record t { keys = set_insert j t.keys }
]

untracked_key :
    (o : Option NodeId) (j k : Key) (t : Tracked)
    → contains k (tracked o j t).keys ≡ false
    → (contains k t.keys ≡ false) × ((is_some o ≡ true) ⊎ (j ≢ k))
untracked_key none j k t h = let (new, other) = not_inserted j k t.keys h in (new, inr other)
untracked_key (some n) j k t h = (h, inl refl)

untracked_node :
    (o : Option NodeId) (j : Key) (n : NodeId) (t : Tracked)
    → contains n (tracked o j t).nodes ≡ false
    → (contains n t.nodes ≡ false) × ((m : NodeId) → o ≡ some m → m ≢ n)
untracked_node none j n t h = (h, λ m e. absurd (cc))
untracked_node (some m) j n t h =
    let (new, other) = not_inserted m n t.nodes h in
    (new, λ i e. subst (λ x. x ≢ n) (some-injective _ _ e) other)

replay_loop-SameAt :
    (recs : List Record) (seqno : ℕ) (t u : Tracked) (k : Key)
    → replay_loop seqno recs t ≡ some u
    → contains k u.keys ≡ false
    → (contains k t.keys ≡ false) × SameAt t.folded u.folded k
unfolding replay_loop
replay_loop-SameAt [] seqno t u k e h =
    subst (λ (v : Tracked). (contains k t.keys ≡ false) × SameAt t.folded v.folded k)
      (some-injective _ _ e)
      (
        ap (λ (v : Tracked). contains k v.keys) (some-injective _ _ e) ∙ h,
        record { keys = refl; edge_props = refl; fact_labels = refl },
      )
replay_loop-SameAt ((source, kind, label) ∷ recs) seqno t u k e h =
    let op = record_to_op seqno source kind in
    elim (Option-cases (apply_labeled op label t.folded)) [
      | inl panics ↦ absurd (
          cc (
            e,
            ap (λ o. o >>= λ f. replay_loop (seqno + 1) recs (record (track op t) { folded = f }))
                panics,
          ))
      | inr (f, applied) ↦
          let next = record (track op t) { folded = f } in
          let (tracked_before, after) =
            replay_loop-SameAt recs (seqno + 1) next u k
              (ap
                  (λ o.
                    o >>= λ g. replay_loop (seqno + 1) recs (record (track op t) { folded = g }))
                  (sym applied)
                ∙ e)
              h in
          let (before, spared) = untracked_key (node_attr_node op) (op_key op) k t tracked_before in
          (
            before,
            SameAt-trans t.folded f u.folded k
                (apply_labeled-SameAt (op, label) t.folded f k applied spared) after,
          )
    ]

replay_loop-node_attrs :
    (recs : List Record) (seqno : ℕ) (t u : Tracked) (n : NodeId)
    → replay_loop seqno recs t ≡ some u
    → contains n u.nodes ≡ false
    → (contains n t.nodes ≡ false) × (get n t.folded.node_attrs ≡ get n u.folded.node_attrs)
unfolding replay_loop
replay_loop-node_attrs [] seqno t u n e h = (
  ap (λ (v : Tracked). contains n v.nodes) (some-injective _ _ e) ∙ h,
  ap (λ (v : Tracked). get n v.folded.node_attrs) (some-injective _ _ e),
)
replay_loop-node_attrs ((source, kind, label) ∷ recs) seqno t u n e h =
    let op = record_to_op seqno source kind in
    elim (Option-cases (apply_labeled op label t.folded)) [
      | inl panics ↦ absurd (
          cc (
            e,
            ap (λ o. o >>= λ f. replay_loop (seqno + 1) recs (record (track op t) { folded = f }))
                panics,
          ))
      | inr (f, applied) ↦
          let next = record (track op t) { folded = f } in
          let (tracked_before, after) =
            replay_loop-node_attrs recs (seqno + 1) next u n
              (ap
                  (λ o.
                    o >>= λ g. replay_loop (seqno + 1) recs (record (track op t) { folded = g }))
                  (sym applied)
                ∙ e)
              h in
          let (before, spared) =
            untracked_node (node_attr_node op) (op_key op) n t tracked_before in
          (before, apply_labeled-node_attrs (op, label) t.folded f n applied spared ∙ after)
    ]

-- At a key that a replay of a range does not return, the fold is as it was before the replay.
pub tracked-SameAt :
    (from : ℕ) (c : Changelog) (f : Fold) (u : Tracked) (k : Key)
    → replay_range_into_tracked from c f ≡ some u
    → elem k (keys u.keys) ≡ false
    → SameAt f u.folded k
unfolding replay_range_into_tracked
tracked-SameAt from c f u k e h = (replay_loop-SameAt _ _ _ u k e (sym (elem-keys k u.keys) ∙ h)).1

-- At a node that a replay of a range does not return, the fold is as it was before the replay.
pub tracked-node_attrs :
    (from : ℕ) (c : Changelog) (f : Fold) (u : Tracked) (n : NodeId)
    → replay_range_into_tracked from c f ≡ some u
    → elem n (keys u.nodes) ≡ false
    → get n f.node_attrs ≡ get n u.folded.node_attrs
unfolding replay_range_into_tracked
tracked-node_attrs from c f u n e h =
    (replay_loop-node_attrs _ _ _ u n e (sym (elem-keys n u.nodes) ∙ h)).1
