-- ===== src/Fold/Refresh/Loops.antt =====
-- crates/stroma-core/src/fold.rs: what a list of observed keys, and one of nodes, writes.
use mathlib.Core.Path.{subst}
use stromadb.Base.{ℕ, ◌≡◌, refl, sym, ap, ◌∙◌, arith, Bool, true, false, List, [], ◌∷◌, inl, inr}
use stromadb.Base.Tests.{if◌then◌else◌, Bool-cases}
use stromadb.Base.Map.{get}
use stromadb.Base.Map.Sorted.{IsSorted}
use stromadb.Base.Map.Entries.{elem}
use stromadb.Base.Order.{Ord, is_eq, is_eq→eq, nat_ord, pair_ord}
use stromadb.Fact.{NodeId}
use stromadb.Fold.Keys.{ObjKey}
use stromadb.Fold.State.{Key, Fold}
use stromadb.Fold.Observe.{Snapshot, observe_key_into, observe_keys_into}
use stromadb.Fold.Gc.{observe_node_into, observe_nodes_into}
use stromadb.Fold.Refresh.Entry.{entry}
use stromadb.Fold.Refresh.Shown.{
  shown, entry-observe_key_into, node_types-observe_key_into, node_labels-observe_key_into,
}
use stromadb.Fold.Refresh.Indexed.{IsIndexed, observe_key_into-IsIndexed}
use stromadb.Fold.Refresh.Nodes.{
  node_entry, shown_node, NodesInOrder, observe_node_into-IsIndexed, node_entry-observe_node_into,
  observe_node_into-NodesInOrder, entry-observe_node_into,
}

-- One more element in front of a list of observed elements.
choose-cons {ℓ κ} :
    {K : Type ℓ} ⦃o : Ord K⦄ {A : Type κ} (k j : K) (b : Bool) (at : K → A) (a : A)
    → (if b then at j else (if is_eq k j then at k else a))
      ≡ (if (if is_eq j k then true else b) then at j else a)
choose-cons ⦃o⦄ k j true at a = ground (arith, o.flipped j k)
choose-cons ⦃o⦄ k j false at a = elim (Bool-cases (is_eq k j)) [
  | inl e ↦ ground (arith, ap at (is_eq→eq k j e), o.flipped j k)
  | inr e ↦ ground (arith, o.flipped j k)
]

-- A snapshot whose maps are all in order, with the counts and the index in step.
pub record IsKept (value_hash : ObjKey → ℕ) (s : Snapshot) : Type 0 where
  pub indexed : IsIndexed value_hash s
  pub nodes : NodesInOrder s

module _ (value_hash : ObjKey → ℕ) where
  observe_key_into-IsKept :
      (f : Fold) (k : Key) (s : Snapshot)
      → IsKept value_hash s
      → IsKept value_hash (observe_key_into value_hash f k s)
  observe_key_into-IsKept f k s h = record {
    indexed = observe_key_into-IsIndexed value_hash f k s h.indexed;
    nodes = record {
      types = subst IsSorted (sym (node_types-observe_key_into value_hash f k s)) h.nodes.types;
      labels = subst IsSorted (sym (node_labels-observe_key_into value_hash f k s)) h.nodes.labels;
    };
  }

  pub observe_keys_into-IsKept :
      (f : Fold) (ks : List Key) (s : Snapshot)
      → IsKept value_hash s
      → IsKept value_hash (observe_keys_into value_hash f ks s)
  unfolding observe_keys_into
  observe_keys_into-IsKept f [] s h = h
  observe_keys_into-IsKept f (k ∷ ks) s h =
      observe_keys_into-IsKept f ks (observe_key_into value_hash f k s)
        (observe_key_into-IsKept f k s h)

  pub observe_nodes_into-IsKept :
      (f : Fold) (ns : List NodeId) (s : Snapshot)
      → IsKept value_hash s
      → IsKept value_hash (observe_nodes_into f ns s)
  unfolding observe_nodes_into
  observe_nodes_into-IsKept f [] s h = h
  observe_nodes_into-IsKept f (n ∷ ns) s h =
      observe_nodes_into-IsKept f ns (observe_node_into f n s) (record {
        indexed = observe_node_into-IsIndexed value_hash f n s h.indexed;
        nodes = observe_node_into-NodesInOrder f n s h.nodes;
      })

  pub entry-observe_keys_into :
      (f : Fold) (ks : List Key) (j : Key) (s : Snapshot)
      → IsKept value_hash s
      → entry j (observe_keys_into value_hash f ks s)
        ≡ (if elem j ks then shown value_hash f j else entry j s)
  unfolding observe_keys_into
  entry-observe_keys_into f [] j s h = refl
  entry-observe_keys_into f (k ∷ ks) j s h =
      entry-observe_keys_into f ks j (observe_key_into value_hash f k s)
        (observe_key_into-IsKept f k s h)
      ∙ ap (λ e. if elem j ks then shown value_hash f j else e)
          (entry-observe_key_into value_hash f k j s h.indexed.ordered)
      ∙ choose-cons k j (elem j ks) (shown value_hash f) (entry j s)

  pub node_entry-observe_keys_into :
      (f : Fold) (ks : List Key) (n : NodeId) (s : Snapshot)
      → node_entry n (observe_keys_into value_hash f ks s) ≡ node_entry n s
  unfolding observe_keys_into
  node_entry-observe_keys_into f [] n s = refl
  node_entry-observe_keys_into f (k ∷ ks) n s =
      node_entry-observe_keys_into f ks n (observe_key_into value_hash f k s) ∙ (λ i. record {
        ty = get n (node_types-observe_key_into value_hash f k s i);
        label = get n (node_labels-observe_key_into value_hash f k s i);
      })

pub entry-observe_nodes_into :
    (f : Fold) (ns : List NodeId) (k : Key) (s : Snapshot)
    → entry k (observe_nodes_into f ns s) ≡ entry k s
unfolding observe_nodes_into
entry-observe_nodes_into f [] k s = refl
entry-observe_nodes_into f (n ∷ ns) k s =
    entry-observe_nodes_into f ns k (observe_node_into f n s) ∙ entry-observe_node_into f k n s

pub node_entry-observe_nodes_into :
    (f : Fold) (ns : List NodeId) (j : NodeId) (s : Snapshot)
    → NodesInOrder s
    → node_entry j (observe_nodes_into f ns s)
      ≡ (if elem j ns then shown_node (get j f.node_attrs) else node_entry j s)
unfolding observe_nodes_into
node_entry-observe_nodes_into f [] j s h = refl
node_entry-observe_nodes_into f (n ∷ ns) j s h =
    node_entry-observe_nodes_into f ns j (observe_node_into f n s)
      (observe_node_into-NodesInOrder f n s h)
    ∙ ap (λ e. if elem j ns then shown_node (get j f.node_attrs) else e)
        (node_entry-observe_node_into f n j s h)
    ∙ choose-cons n j (elem j ns) (λ i. shown_node (get i f.node_attrs)) (node_entry j s)
