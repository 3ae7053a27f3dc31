-- ===== src/Fold/Refresh/Observed.antt =====
-- crates/stroma-core/src/fold.rs: a refresh of the touched keys and nodes of a snapshot against a
-- full `observe`.
use stromadb.Base.{
  ℕ, ◌≡◌, refl, sym, ap, ◌∙◌, arith, false, ◌||◌, Option, none, some, List, [], inl, inr,
}
use stromadb.Base.Tests.{if◌then◌else◌, is_some, Bool-cases}
use stromadb.Base.Map.{keys, get, extend}
use stromadb.Base.Map.Entries.{elem, elem-keys, contains-extend, IsSorted-ext}
use stromadb.Base.Order.{nat_ord, pair_ord}
use stromadb.Fact.{NodeId}
use stromadb.Fold.Keys.{ObjKey}
use stromadb.Fold.State.{Key, NodeAttrState, Fold}
use stromadb.Fold.Observe.{Snapshot, empty_snapshot, observe_keys_into}
use stromadb.Fold.Gc.{observe, observed_keys, observe_nodes_into}
use stromadb.Fold.Refresh.Entry.{entry, no_entry}
use stromadb.Fold.Refresh.Writers.{with_props}
use stromadb.Fold.Refresh.Shown.{shown, with_state}
use stromadb.Fold.Refresh.Counts.{counts_of}
use stromadb.Fold.Refresh.Values.{values_of}
use stromadb.Fold.Refresh.Indexed.{empty_snapshot-IsIndexed}
use stromadb.Fold.Refresh.Nodes.{node_entry, shown_node}
use stromadb.Fold.Refresh.Loops.{
  IsKept, observe_keys_into-IsKept, observe_nodes_into-IsKept, entry-observe_keys_into,
  node_entry-observe_keys_into, entry-observe_nodes_into, node_entry-observe_nodes_into,
}

-- Two folds store the same at one key.
pub record SameAt (f g : Fold) (k : Key) : Type 0 where
  pub keys : get k f.keys ≡ get k g.keys
  pub edge_props : get k f.edge_props ≡ get k g.edge_props
  pub fact_labels : get k f.fact_labels ≡ get k g.fact_labels

module _ (value_hash : ObjKey → ℕ) where
  -- A kept snapshot is known by its entries.
  snapshot_ext :
      (s t : Snapshot)
      → IsKept value_hash s
      → IsKept value_hash t
      → ((k : Key) → entry k s ≡ entry k t)
      → ((n : NodeId) → node_entry n s ≡ node_entry n t)
      → s ≡ t
  snapshot_ext s t a b h g =
      let p = a.indexed.ordered in
      let q = b.indexed.ordered in
      let histories =
        IsSorted-ext s.one_history t.one_history p.one_history q.one_history
          (λ k i. (h k i).one_history) in
      let labels =
        IsSorted-ext s.fact_labels t.fact_labels p.fact_labels q.fact_labels
          (λ k i. (h k i).fact_labels) in
      λ i. record {
        one = IsSorted-ext s.one t.one p.one q.one (λ k j. (h k j).one) i;
        one_history = histories i;
        many = IsSorted-ext s.many t.many p.many q.many (λ k j. (h k j).many) i;
        many_history =
            IsSorted-ext s.many_history t.many_history p.many_history q.many_history
              (λ k j. (h k j).many_history) i;
        edge_props =
            IsSorted-ext s.edge_props t.edge_props p.edge_props q.edge_props
              (λ k j. (h k j).edge_props) i;
        node_types =
            IsSorted-ext s.node_types t.node_types a.nodes.types b.nodes.types (λ n j. (g n j).ty)
              i;
        node_labels =
            IsSorted-ext s.node_labels t.node_labels a.nodes.labels b.nodes.labels
              (λ n j. (g n j).label) i;
        fact_labels = labels i;
        fact_label_counts = (a.indexed.counts ∙ ap counts_of labels ∙ sym b.indexed.counts) i;
        one_values =
            (a.indexed.index ∙ ap (values_of value_hash) histories ∙ sym b.indexed.index) i;
      }

  empty_snapshot-IsKept : IsKept value_hash empty_snapshot
  empty_snapshot-IsKept = record {
    indexed = empty_snapshot-IsIndexed value_hash;
    nodes = record { types = tt; labels = tt };
  }

  -- The snapshot of the touched keys and nodes refreshed.
  abbrev pub refreshed : Fold → List Key → List NodeId → Snapshot → Snapshot
  refreshed f ks ns s = observe_nodes_into f ns (observe_keys_into value_hash f ks s)

  refreshed-IsKept :
      (f : Fold) (ks : List Key) (ns : List NodeId) (s : Snapshot)
      → IsKept value_hash s
      → IsKept value_hash (refreshed f ks ns s)
  refreshed-IsKept f ks ns s h =
      observe_nodes_into-IsKept value_hash f ns (observe_keys_into value_hash f ks s)
        (observe_keys_into-IsKept value_hash f ks s h)

  entry-refreshed :
      (f : Fold) (ks : List Key) (ns : List NodeId) (k : Key) (s : Snapshot)
      → IsKept value_hash s
      → entry k (refreshed f ks ns s) ≡ (if elem k ks then shown value_hash f k else entry k s)
  entry-refreshed f ks ns k s h =
      entry-observe_nodes_into f ns k (observe_keys_into value_hash f ks s)
      ∙ entry-observe_keys_into value_hash f ks k s h

  node_entry-refreshed :
      (f : Fold) (ks : List Key) (ns : List NodeId) (n : NodeId) (s : Snapshot)
      → IsKept value_hash s
      → node_entry n (refreshed f ks ns s)
        ≡ (if elem n ns then shown_node (get n f.node_attrs) else node_entry n s)
  node_entry-refreshed f ks ns n s h =
      node_entry-observe_nodes_into f ns n (observe_keys_into value_hash f ks s)
        (observe_keys_into-IsKept value_hash f ks s h).nodes
      ∙ ap (λ e. if elem n ns then shown_node (get n f.node_attrs) else e)
          (node_entry-observe_keys_into value_hash f ks n s)

  pub observe-IsKept : (f : Fold) → IsKept value_hash (observe value_hash f)
  unfolding observe
  observe-IsKept f =
      refreshed-IsKept f (observed_keys f) (keys f.node_attrs) empty_snapshot empty_snapshot-IsKept

  unobserved :
      (f : Fold) (k : Key)
      → elem k (observed_keys f) ≡ false
      → (get k f.edge_props ≡ none) × (get k f.keys ≡ none)
  unfolding get
  unobserved f k h = ground (arith, stored)
    where
      stored : (is_some (get k f.edge_props) || (is_some (get k f.keys) || false)) ≡ false
      stored =
          ap (λ b. is_some (get k f.edge_props) || (b || false)) (sym (elem-keys k f.keys))
          ∙ ap (λ b. b || (elem k (keys f.keys) || false)) (sym (elem-keys k f.edge_props))
          ∙ ap (λ b. elem k (keys f.edge_props) || b) (sym (contains-extend k (keys f.keys) []))
          ∙ sym (contains-extend k (keys f.edge_props) (extend (keys f.keys) []))
          ∙ sym (elem-keys k (extend (keys f.edge_props) (extend (keys f.keys) [])))
          ∙ h

  -- A key that is not observed has nothing to show.
  shown-unobserved :
      (f : Fold) (k : Key) → elem k (observed_keys f) ≡ false → shown value_hash f k ≡ no_entry
  shown-unobserved f k h =
      let (props, state) = unobserved f k h in
      λ i.
        with_state value_hash (get k f.fact_labels) (state i)
          (with_props value_hash (props i) no_entry)

  shown_node-absent :
      (o : Option NodeAttrState)
      → (if is_some o then shown_node o else record { ty = none; label = none }) ≡ shown_node o
  shown_node-absent none = refl
  shown_node-absent (some st) = refl

  -- A full observation shows each key and each node as the fold stores it.
  pub entry-observe : (f : Fold) (k : Key) → entry k (observe value_hash f) ≡ shown value_hash f k
  unfolding observe get
  entry-observe f k =
      entry-refreshed f (observed_keys f) (keys f.node_attrs) k empty_snapshot empty_snapshot-IsKept
      ∙ elim (Bool-cases (elem k (observed_keys f))) [
        | inl e ↦ rw e refl
        | inr e ↦ rw e (sym (shown-unobserved f k e))
      ]

  pub node_entry-observe :
      (f : Fold) (n : NodeId)
      → node_entry n (observe value_hash f) ≡ shown_node (get n f.node_attrs)
  unfolding observe get
  node_entry-observe f n =
      node_entry-refreshed f (observed_keys f) (keys f.node_attrs) n empty_snapshot
        empty_snapshot-IsKept
      ∙ ap (λ b. if b then shown_node (get n f.node_attrs) else node_entry n empty_snapshot)
          (elem-keys n f.node_attrs)
      ∙ shown_node-absent (get n f.node_attrs)

  -- A snapshot of a fold whose touched keys and nodes are observed again in a later fold is the
  -- observation of the later fold, where the two folds store the same at every other key and node.
  pub refreshed-observe :
      (f g : Fold) (ks : List Key) (ns : List NodeId)
      → ((k : Key) → elem k ks ≡ false → SameAt f g k)
      → ((n : NodeId) → elem n ns ≡ false → get n f.node_attrs ≡ get n g.node_attrs)
      → refreshed g ks ns (observe value_hash f) ≡ observe value_hash g
  refreshed-observe f g ks ns same_keys same_nodes =
      snapshot_ext (refreshed g ks ns (observe value_hash f)) (observe value_hash g)
        (refreshed-IsKept g ks ns (observe value_hash f) (observe-IsKept f)) (observe-IsKept g)
        (λ k.
          entry-refreshed g ks ns k (observe value_hash f) (observe-IsKept f)
          ∙ elim (Bool-cases (elem k ks)) [
            | inl e ↦ rw e (sym (entry-observe g k))
            | inr e ↦ rw e (
                entry-observe f k
                ∙ (let same = same_keys k e in
                    λ i.
                      with_state value_hash (same.fact_labels i) (same.keys i)
                        (with_props value_hash (same.edge_props i) no_entry))
                ∙ sym (entry-observe g k))
          ])
        (λ n.
          node_entry-refreshed g ks ns n (observe value_hash f) (observe-IsKept f)
          ∙ elim (Bool-cases (elem n ns)) [
            | inl e ↦ rw e (sym (node_entry-observe g n))
            | inr e ↦ rw e (
                node_entry-observe f n
                ∙ ap shown_node (same_nodes n e)
                ∙ sym (node_entry-observe g n))
          ])
